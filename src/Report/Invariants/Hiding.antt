-- ===== src/Report/Invariants/Hiding.antt =====
-- What setHidden does to its report, and to no other.
use flood_now_backend.Base.{
  ℕ, ◌≡◌, refl, ◌∙◌, Bool, true, false, some, List, count_by, is_set, ◌==◌, ==_refl, arith,
}
use flood_now_backend.Base.Int.{ℤ}
use flood_now_backend.Report.Lifecycle.{Report, FreshnessPolicy, HiddenReason}
use flood_now_backend.Report.Complaint.{Complaint, ModerationPolicy, should_auto_hide}
use flood_now_backend.Report.Tables.{Tables, row_of}
use flood_now_backend.Report.Moderation.{
  hide_row, show_row, set_hidden, pending_of, pending_count, bool_eq,
}
use flood_now_backend.Report.Invariants.Frames.{
  is_resolved, is_hidden, Sound, Untouched, Changed, set_report-Changed,
}

-- The row that setHidden leaves.
abbrev pub hidden_row : Bool → HiddenReason → ℤ → Report → Report
hidden_row true reason now r = hide_row reason now r
hidden_row false reason now r = show_row r

module _ (s : Tables) (id : ℕ) (r : Report) (found : row_of s id ≡ some r) (reason : HiddenReason)
    (now : ℤ) where
  set_hidden-Changed :
      (hide : Bool) → Changed s (set_hidden s id hide reason now) id (hidden_row hide reason now r)
  unfolding set_hidden
  set_hidden-Changed true =
      let k =
        set_report-Changed s s id r (hide_row reason now) (λ x. refl)
          (record { here = found; there = λ j ne. refl }) in
      record { here = k.here; there = k.there }
  set_hidden-Changed false =
      let k =
        set_report-Changed s s id r show_row (λ x. refl)
          (record { here = found; there = λ j ne. refl }) in
      record { here = k.here; there = k.there }

  pub set_hidden-Untouched :
      (hide : Bool) (j : ℕ) → (id == j) ≡ false → Untouched s (set_hidden s id hide reason now) j
  unfolding set_hidden
  set_hidden-Untouched true j ne = record {
    same_row = (set_hidden-Changed true).there j ne;
    same_still = refl;
    same_cleared = refl;
    same_pending = refl;
    same_events = λ kind. rw ne (omega arith);
  }
  set_hidden-Untouched false j ne = record {
    same_row = (set_hidden-Changed false).there j ne;
    same_still = refl;
    same_cleared = refl;
    same_pending = refl;
    same_events = λ kind. rw ne (omega arith);
  }

  set_hidden-is_resolved :
      (hide : Bool) → is_resolved (set_hidden s id hide reason now) id ≡ is_resolved s id
  unfolding is_resolved
  set_hidden-is_resolved true = rw ((set_hidden-Changed true).here, found) refl
  set_hidden-is_resolved false = rw ((set_hidden-Changed false).here, found) refl

  pub set_hidden-is_hidden : (hide : Bool) → is_hidden (set_hidden s id hide reason now) id ≡ hide
  unfolding is_hidden
  set_hidden-is_hidden true = rw (set_hidden-Changed true).here refl
  set_hidden-is_hidden false = rw (set_hidden-Changed false).here refl

  pub was_hidden : is_hidden s id ≡ is_set r.hidden_at
  unfolding is_hidden
  was_hidden = rw found refl

  -- The report is hidden, or shown again, and the rest of what is said of it stays.
  pub set_hidden-Sound :
      (p : FreshnessPolicy) (q : ModerationPolicy) (hide : Bool)
      → bool_eq hide (is_set r.hidden_at) ≡ false
      → (hide ≡ false → should_auto_hide q (pending_count s id) ≡ false)
      → Sound p q s id
      → Sound p q (set_hidden s id hide reason now) id
  unfolding set_hidden
  set_hidden-Sound p q true changes few h = record {
    votes_agree = set_hidden-is_resolved true ∙ h.votes_agree;
    few_pending = λ e. absurd (cc (set_hidden-is_hidden true, e));
    resolutions = rw (set_hidden-is_resolved true, ==_refl id) (omega (arith, h.resolutions));
    hidings =
        rw (set_hidden-is_hidden true, ==_refl id) (ground (arith, was_hidden, changes, h.hidings));
  }
  set_hidden-Sound p q false changes few h = record {
    votes_agree = set_hidden-is_resolved false ∙ h.votes_agree;
    few_pending = λ e. few refl;
    resolutions = rw (set_hidden-is_resolved false, ==_refl id) (omega (arith, h.resolutions));
    hidings = rw (set_hidden-is_hidden false, ==_refl id) (ground (arith, was_hidden, h.hidings));
  }

-- A new complaint, and the closing of the pending ones, change nothing but the complaints.
module _ (p : FreshnessPolicy) (q : ModerationPolicy) (s : Tables) (cs : List Complaint) where
  abbrev pub with_complaints : Tables
  with_complaints = record s { complaints = cs }

  pub complaints-Sound :
      (id : ℕ)
      → (is_hidden s id ≡ false → should_auto_hide q (count_by (pending_of id) cs) ≡ false)
      → Sound p q s id
      → Sound p q with_complaints id
  unfolding is_resolved is_hidden
  complaints-Sound id few h = record {
    votes_agree = h.votes_agree;
    few_pending = few;
    resolutions = h.resolutions;
    hidings = h.hidings;
  }
