-- ===== src/Report/Invariants/Confirming.antt =====
-- What a confirmation does to its report, and to no other.
use flood_now_backend.Base.{
  ℕ, ◌+◌, ◌≡◌, refl, sym, ap, ◌∙◌, Bool, true, false, Option, none, some, List, count_by, any,
  is_set, ◌==◌, ==_refl, ◌&&◌, ltb, if◌then◌else◌, arith, Bool-cases, inl, inr,
}
use flood_now_backend.Base.Int.{ℤ}
use flood_now_backend.Program.{store_after}
use flood_now_backend.Postgres.Table.{count_by-update_where}
use flood_now_backend.Report.Lifecycle.{
  Report, FreshnessPolicy, Freshness, votes_resolve, next_resolved_at, EventKind, resolved_event,
  reopened, hidden, unhidden, resolution_event,
}
use flood_now_backend.Report.Input.{ConditionUpdate}
use flood_now_backend.Report.Complaint.{ModerationPolicy}
use flood_now_backend.Report.Tables.{Vote, ReportEvent, Tables, row_of, still_vote, cleared_vote}
use flood_now_backend.Report.Confirm.{
  ConfirmParams, of_device, voted_again, upsert_vote, apply_condition_update, renewed, updated_rows,
  refreshed_rows, refreshed_events, first_vote, recounted, resolved_to, resolution_events, recorded,
  settle, confirm, confirm_locked, set_report, refresh_event,
}
use flood_now_backend.Report.Invariants.Frames.{
  event_is, happened, is_resolved, is_hidden, still_count, cleared_count, Sound, Untouched,
  Untouched-Sound, Changed, set_report-Changed, kind_number, everywhere,
}

-- The report's row changed, but not whether it is hidden.
record Kept (s t : Tables) (id : ℕ) (r : Report) : Type 0 where
  row : Report
  changed : Changed s t id row
  hidden_same : row.hidden_at ≡ r.hidden_at

updated_rows-Kept :
    (id : ℕ) (u : Option ConditionUpdate) (s t : Tables) (r : Report)
    → Changed s t id r
    → Kept s (record t { reports = updated_rows id u t.reports }) id r
unfolding apply_condition_update
updated_rows-Kept id none s t r c = record { row = r; changed = c; hidden_same = refl }
updated_rows-Kept id (some u) s t r c = record {
  row = apply_condition_update u r;
  changed = set_report-Changed s t id r (apply_condition_update u) (λ x. refl) c;
  hidden_same = refl;
}

refreshed_rows-Kept :
    (c : ConfirmParams) (o : Option Freshness) (s t : Tables) (r : Report)
    → Changed s t c.report_id r
    → Kept s (record t { reports = refreshed_rows c o t.reports }) c.report_id r
refreshed_rows-Kept c none s t r h = record { row = r; changed = h; hidden_same = refl }
refreshed_rows-Kept c (some f) s t r h =
    let k =
      updated_rows-Kept c.report_id c.update s (set_report c.report_id (renewed f c.now) t)
        (renewed f c.now r)
        (set_report-Changed s t c.report_id r (renewed f c.now) (λ x. refl) h) in
    record { row = k.row; changed = k.changed; hidden_same = k.hidden_same }

-- Votes that are on another report.
upsert_vote-other :
    (c : ConfirmParams) (q : Vote → Bool) (votes : List Vote) (j : ℕ)
    → (c.report_id == j) ≡ false
    → ((v : Vote) → q v ≡ true → (v.report_id == j) ≡ true)
    → count_by q (upsert_vote c votes) ≡ count_by q votes
unfolding upsert_vote
upsert_vote-other c q votes j ne reads =
    elim (Bool-cases (any (of_device c.report_id c.device_id) votes)) [
      | inl e ↦ rw e (
          count_by-update_where q (of_device c.report_id c.device_id) (voted_again c.status c.now)
            votes (λ v h. ground (arith, reads v, reads (voted_again c.status c.now v))))
      | inr e ↦ rw e (ground (arith, reads (first_vote c)))
    ]

refreshed_events-other :
    (c : ConfirmParams) (o : Option Freshness) (es : List ReportEvent) (j : ℕ)
    → (c.report_id == j) ≡ false
    → (kind : EventKind)
    → count_by (event_is j kind) (refreshed_events c o es) ≡ count_by (event_is j kind) es
refreshed_events-other c none es j ne kind = refl
refreshed_events-other c (some f) es j ne kind = rw ne (omega arith)

resolution_events-other :
    (c : ConfirmParams) (o : Option EventKind) (es : List ReportEvent) (j : ℕ)
    → (c.report_id == j) ≡ false
    → (kind : EventKind)
    → count_by (event_is j kind) (resolution_events c o es) ≡ count_by (event_is j kind) es
resolution_events-other c none es j ne kind = refl
resolution_events-other c (some k) es j ne kind = rw ne (omega arith)

-- The events of a kind after updated do not count confirmations.
refreshed_events-later :
    (c : ConfirmParams) (o : Option Freshness) (es : List ReportEvent) (j : ℕ) (kind : EventKind)
    → ltb 2 (kind_number kind) ≡ true
    → count_by (event_is j kind) (refreshed_events c o es) ≡ count_by (event_is j kind) es
refreshed_events-later c none es j kind h = refl
refreshed_events-later c (some f) es j kind h = go c.update
  where
    go :
        (u : Option ConditionUpdate)
        → (if c.report_id == j && kind_number (refresh_event u) == kind_number kind then 1 else 0)
            + count_by (event_is j kind) es
          ≡ count_by (event_is j kind) es
    go none = ground arith
    go (some u) = ground arith

next_resolved_at-set :
    (p : FreshnessPolicy) (before : Option ℤ) (still cleared : ℕ) (now : ℤ)
    → is_set (next_resolved_at p before still cleared now) ≡ votes_resolve p still cleared
unfolding next_resolved_at
next_resolved_at-set p none still cleared now = ground arith
next_resolved_at-set p (some at) still cleared now = ground arith

-- The event of a resolution keeps the history in step with it.
resolution_events-balance :
    (c : ConfirmParams) (before after : Option ℤ) (es : List ReportEvent)
    → count_by (event_is c.report_id resolved_event) es
      ≡ count_by (event_is c.report_id reopened) es + (if is_set before then 1 else 0)
    → count_by
        (event_is c.report_id resolved_event)
        (resolution_events c (resolution_event before after) es)
      ≡ count_by
          (event_is c.report_id reopened)
          (resolution_events c (resolution_event before after) es)
        + (if is_set after then 1 else 0)
resolution_events-balance c none none es h = h
resolution_events-balance c none (some b) es h = rw (==_refl c.report_id) (omega (arith, h))
resolution_events-balance c (some a) none es h = rw (==_refl c.report_id) (omega (arith, h))
resolution_events-balance c (some a) (some b) es h = h

resolution_events-hiding :
    (c : ConfirmParams) (before after : Option ℤ) (es : List ReportEvent) (kind : EventKind)
    → ltb 4 (kind_number kind) ≡ true
    → count_by (event_is c.report_id kind) (resolution_events c (resolution_event before after) es)
      ≡ count_by (event_is c.report_id kind) es
resolution_events-hiding c none none es kind h = refl
resolution_events-hiding c none (some b) es kind h = ground arith
resolution_events-hiding c (some a) none es kind h = ground arith
resolution_events-hiding c (some a) (some b) es kind h = refl

module _ (c : ConfirmParams) (s : Tables) (r : Report) (found : row_of s c.report_id ≡ some r) where
  recorded-Kept : Kept s (recorded c s) c.report_id r
  recorded-Kept =
      let k =
        refreshed_rows-Kept c c.refresh s s r (record { here = found; there = λ j ne. refl }) in
      record {
        row = k.row;
        changed = record { here = k.changed.here; there = k.changed.there };
        hidden_same = k.hidden_same;
      }

  settle-Changed :
      Changed s
        (settle c r.resolved_at s)
        c.report_id
        (resolved_to (recounted c r.resolved_at (recorded c s)) c.now recorded-Kept.row)
  unfolding settle
  settle-Changed =
      let k =
        set_report-Changed s (recorded c s) c.report_id recorded-Kept.row
          (resolved_to (recounted c r.resolved_at (recorded c s)) c.now) (λ x. refl)
          recorded-Kept.changed in
      record { here = k.here; there = k.there }

  -- No other report is touched.
  settle-Untouched : (j : ℕ) → (c.report_id == j) ≡ false → Untouched s (settle c r.resolved_at s) j
  unfolding settle
  settle-Untouched j ne = record {
    same_row = settle-Changed.there j ne;
    same_still = upsert_vote-other c (still_vote j) s.votes j ne (λ v h. ground arith);
    same_cleared = upsert_vote-other c (cleared_vote j) s.votes j ne (λ v h. ground arith);
    same_pending = refl;
    same_events = λ kind.
        resolution_events-other c _ _ j ne kind
        ∙ refreshed_events-other c c.refresh s.events j ne kind;
  }

  settle-is_hidden : is_hidden (settle c r.resolved_at s) c.report_id ≡ is_hidden s c.report_id
  unfolding is_hidden
  settle-is_hidden = rw (settle-Changed.here, found) (ap (λ o. is_set o) recorded-Kept.hidden_same)

  -- The history of the resolutions before the one that this confirmation may add.
  refreshed-resolutions :
      happened s c.report_id resolved_event
        ≡ happened s c.report_id reopened + (if is_resolved s c.report_id then 1 else 0)
      → happened (recorded c s) c.report_id resolved_event
        ≡ happened (recorded c s) c.report_id reopened + (if is_set r.resolved_at then 1 else 0)
  unfolding is_resolved
  refreshed-resolutions h =
      rw
        (
          refreshed_events-later c c.refresh s.events c.report_id resolved_event refl,
          refreshed_events-later c c.refresh s.events c.report_id reopened refl,
        )
        (h ∙ rw found refl)

  -- The report is resolved as its votes say.
  settle-Sound :
      (q : ModerationPolicy)
      → Sound c.policy q s c.report_id
      → Sound c.policy q (settle c r.resolved_at s) c.report_id
  unfolding settle is_resolved recounted
  settle-Sound q h =
      let after =
        next_resolved_at-set c.policy r.resolved_at (still_count (recorded c s) c.report_id)
          (cleared_count (recorded c s) c.report_id) c.now in
      record {
        votes_agree = rw settle-Changed.here after;
        few_pending = λ e. h.few_pending (sym settle-is_hidden ∙ e);
        resolutions =
            rw settle-Changed.here
              (resolution_events-balance c r.resolved_at _ _ (refreshed-resolutions h.resolutions));
        hidings =
            rw
              (
                settle-is_hidden,
                resolution_events-hiding c r.resolved_at (recounted c r.resolved_at (recorded c s))
                    (recorded c s).events hidden refl,
                resolution_events-hiding c r.resolved_at (recounted c r.resolved_at (recorded c s))
                    (recorded c s).events unhidden refl,
                refreshed_events-later c c.refresh s.events c.report_id hidden refl,
                refreshed_events-later c c.refresh s.events c.report_id unhidden refl,
              )
              h.hidings;
      }

confirm_locked-Sound :
    (c : ConfirmParams) (q : ModerationPolicy) (s : Tables)
    → ((j : ℕ) → Sound c.policy q s j)
    → (o : Option Report) → row_of s c.report_id ≡ o
    → (j : ℕ) → Sound c.policy q (store_after s (confirm_locked c o s)) j
confirm_locked-Sound c q s h none found = h
confirm_locked-Sound c q s h (some r) found =
    everywhere (Sound c.policy q (settle c r.resolved_at s)) c.report_id
      (settle-Sound c s r found q (h c.report_id))
      (λ j ne.
        Untouched-Sound c.policy q s (settle c r.resolved_at s) j
          (settle-Untouched c s r found j ne) (h j))

-- A confirmation leaves every report sound.
pub confirm-Sound :
    (c : ConfirmParams) (q : ModerationPolicy) (s : Tables)
    → ((j : ℕ) → Sound c.policy q s j)
    → (j : ℕ) → Sound c.policy q (store_after s (confirm s c)) j
unfolding confirm
confirm-Sound c q s h = confirm_locked-Sound c q s h (row_of s c.report_id) refl
