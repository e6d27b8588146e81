-- ===== src/Report/Invariants/Frames.antt =====
-- What the tables say of one report, and what a write to another report leaves alone.
use flood_now_backend.Base.{
  ℕ, ◌+◌, ◌≡◌, refl, Bool, false, ◌&&◌, some, count_by, holds, is_set, ◌==◌, ==_refl, ==_iff,
  Bool-cases, inl, inr, if◌then◌else◌,
}
use flood_now_backend.Postgres.Table.{find, find-update_key}
use flood_now_backend.Report.Lifecycle.{
  Report, FreshnessPolicy, votes_resolve, EventKind, created, confirmed, updated, resolved_event,
  reopened, hidden, unhidden,
}
use flood_now_backend.Report.Complaint.{ModerationPolicy, should_auto_hide}
use flood_now_backend.Report.Tables.{ReportEvent, Tables, row_of, still_vote, cleared_vote}
use flood_now_backend.Report.Confirm.{set_report}
use flood_now_backend.Report.Moderation.{pending_count}

abbrev pub kind_number : EventKind → ℕ
kind_number created = 0
kind_number confirmed = 1
kind_number updated = 2
kind_number resolved_event = 3
kind_number reopened = 4
kind_number hidden = 5
kind_number unhidden = 6

abbrev pub event_is : ℕ → EventKind → ReportEvent → Bool
event_is id kind e = e.report_id == id && kind_number e.kind == kind_number kind

abbrev pub happened : Tables → ℕ → EventKind → ℕ
happened s id kind = count_by (event_is id kind) s.events

unfoldable pub is_resolved : Tables → ℕ → Bool
unfolding find
is_resolved s id = holds (row_of s id) (λ r. is_set r.resolved_at)

unfoldable pub is_hidden : Tables → ℕ → Bool
unfolding find
is_hidden s id = holds (row_of s id) (λ r. is_set r.hidden_at)

abbrev pub still_count : Tables → ℕ → ℕ
still_count s id = count_by (still_vote id) s.votes

abbrev pub cleared_count : Tables → ℕ → ℕ
cleared_count s id = count_by (cleared_vote id) s.votes

-- A report is resolved exactly while its votes resolve it, hidden once its pending complaints reach
-- the threshold, and its history counts how often each has changed.
pub record Sound (p : FreshnessPolicy) (q : ModerationPolicy) (s : Tables) (id : ℕ) : Type 0 where
  pub votes_agree : is_resolved s id ≡ votes_resolve p (still_count s id) (cleared_count s id)
  pub few_pending : is_hidden s id ≡ false → should_auto_hide q (pending_count s id) ≡ false
  pub resolutions :
      happened s id resolved_event ≡ happened s id reopened + (if is_resolved s id then 1 else 0)
  pub hidings : happened s id hidden ≡ happened s id unhidden + (if is_hidden s id then 1 else 0)

pub record Untouched (s t : Tables) (id : ℕ) : Type 0 where
  pub same_row : row_of t id ≡ row_of s id
  pub same_still : still_count t id ≡ still_count s id
  pub same_cleared : cleared_count t id ≡ cleared_count s id
  pub same_pending : pending_count t id ≡ pending_count s id
  pub same_events : (kind : EventKind) → happened t id kind ≡ happened s id kind

pub Untouched-Sound :
    (p : FreshnessPolicy) (q : ModerationPolicy) (s t : Tables) (id : ℕ)
    → Untouched s t id
    → Sound p q s id
    → Sound p q t id
unfolding is_resolved is_hidden
Untouched-Sound p q s t id u h = record {
  votes_agree = rw (u.same_row, u.same_still, u.same_cleared) h.votes_agree;
  few_pending = rw (u.same_row, u.same_pending) h.few_pending;
  resolutions = rw (u.same_row, u.same_events resolved_event, u.same_events reopened) h.resolutions;
  hidings = rw (u.same_row, u.same_events hidden, u.same_events unhidden) h.hidings;
}

-- One row of the reports was changed, into r.
pub record Changed (s t : Tables) (id : ℕ) (r : Report) : Type 0 where
  pub here : row_of t id ≡ some r
  pub there : (j : ℕ) → (id == j) ≡ false → row_of t j ≡ row_of s j

pub set_report-Changed :
    (s t : Tables) (id : ℕ) (r : Report) (f : Report → Report)
    → ((x : Report) → (f x).id ≡ x.id)
    → Changed s t id r
    → Changed s (set_report id f t) id (f r)
set_report-Changed s t id r f same c = record {
  here = rw (find-update_key (λ x. x.id) f t.reports id r same c.here id, ==_refl id) refl;
  there =
      λ j ne. rw (find-update_key (λ x. x.id) f t.reports id r same c.here j, ne) (c.there j ne);
}

-- What holds of one report and of the others holds of all.
pub everywhere :
    (P : ℕ → Type 0) (id : ℕ) → P id → ((j : ℕ) → (id == j) ≡ false → P j) → (j : ℕ) → P j
everywhere P id here there j = elim (Bool-cases (id == j)) [
  | inl e ↦ rw (← (==_iff id j).0 e) here
  | inr ne ↦ there j ne
]
