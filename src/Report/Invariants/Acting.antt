-- ===== src/Report/Invariants/Acting.antt =====
-- What an operator's action does to its report, and to no other.
use flood_now_backend.Base.{
  ℕ, ◌≡◌, refl, Bool, true, false, Option, none, some, List, [], ◌∷◌, count_by, is_set, ◌==◌, arith,
  Bool-cases, inl, inr,
}
use flood_now_backend.Base.Int.{ℤ}
use flood_now_backend.Program.{store_after}
use flood_now_backend.Postgres.Table.{update_where, count_by-update_where}
use flood_now_backend.Report.Lifecycle.{Report, FreshnessPolicy, by_admin}
use flood_now_backend.Report.Complaint.{
  ComplaintStatus, is_pending, Complaint, ModerationPolicy, moderation_valid, should_auto_hide,
  Action, action_dismiss, action_hide, action_unhide, unknown_action, outcome,
}
use flood_now_backend.Report.Tables.{Tables, row_of}
use flood_now_backend.Report.Moderation.{
  set_hidden, pending_of, closed, close_complaints, bool_eq, shown_or_hidden, act_locked,
  apply_action,
}
use flood_now_backend.Report.Invariants.Frames.{Sound, Untouched-Sound, everywhere}
use flood_now_backend.Report.Invariants.Hiding.{
  set_hidden-Untouched, set_hidden-Sound, complaints-Sound,
}

closed-none :
    (id : ℕ) (status : ComplaintStatus) (now : ℤ) (cs : List Complaint)
    → is_pending status ≡ false
    → count_by (pending_of id) (update_where (pending_of id) (closed status now) cs) ≡ 0
unfolding update_where
closed-none id status now [] e = refl
closed-none id status now (c ∷ cs) e = ground (arith, closed-none id status now cs e)

closed-other :
    (id : ℕ) (status : ComplaintStatus) (now : ℤ) (cs : List Complaint) (j : ℕ)
    → (id == j) ≡ false
    → count_by (pending_of j) (update_where (pending_of id) (closed status now) cs)
      ≡ count_by (pending_of j) cs
closed-other id status now cs j ne =
    count_by-update_where (pending_of j) (pending_of id) (closed status now) cs
      (λ c h. ground arith)

outcome-closes : (action : Action) → is_pending (outcome action).1 ≡ false
outcome-closes action_dismiss = refl
outcome-closes action_hide = refl
outcome-closes action_unhide = refl
outcome-closes unknown_action = refl

-- A threshold of two or more does not hide a report without complaints.
pub no_complaints :
    (q : ModerationPolicy) → moderation_valid q ≡ true → should_auto_hide q 0 ≡ false
unfolding moderation_valid
no_complaints q v = ground arith

module _ (p : FreshnessPolicy) (q : ModerationPolicy) (valid : moderation_valid q ≡ true)
    (s : Tables) (h : (j : ℕ) → Sound p q s j) (id : ℕ) (status : ComplaintStatus) (now : ℤ)
    (done : is_pending status ≡ false) where
  closed-Sound : (j : ℕ) → Sound p q (close_complaints id status now s) j
  closed-Sound =
      everywhere _ id
        (complaints-Sound p q s _ id
          (λ e. rw (closed-none id status now s.complaints done) (no_complaints q valid)) (h id))
        (λ j ne.
          complaints-Sound p q s _ j
            (λ e. rw (closed-other id status now s.complaints j ne) ((h j).few_pending e)) (h j))

  module _ (r : Report) (found : row_of s id ≡ some r) where
    changed-Sound :
        (hide : Bool)
        → bool_eq hide (is_set r.hidden_at) ≡ false
        → (j : ℕ) → Sound p q (set_hidden (close_complaints id status now s) id hide by_admin now) j
    changed-Sound hide e =
        everywhere _ id
          (set_hidden-Sound (close_complaints id status now s) id r found by_admin now p q hide e
            (λ x. rw (closed-none id status now s.complaints done) (no_complaints q valid))
            (closed-Sound id))
          (λ j ne.
            Untouched-Sound p q (close_complaints id status now s)
              (set_hidden (close_complaints id status now s) id hide by_admin now) j
              (set_hidden-Untouched (close_complaints id status now s) id r found by_admin now hide
                j ne)
              (closed-Sound j))

    acted-Sound :
        (hide : Bool) (j : ℕ)
        → Sound p q (close_complaints id status now (shown_or_hidden id hide r.hidden_at now s)) j
    unfolding set_hidden
    acted-Sound true j = elim (Bool-cases (bool_eq true (is_set r.hidden_at))) [
      | inl e ↦ rw e (closed-Sound j)
      | inr e ↦ rw e (changed-Sound true e j)
    ]
    acted-Sound false j = elim (Bool-cases (bool_eq false (is_set r.hidden_at))) [
      | inl e ↦ rw e (closed-Sound j)
      | inr e ↦ rw e (changed-Sound false e j)
    ]

-- An operator's action leaves every report sound.
pub apply_action-Sound :
    (p : FreshnessPolicy) (q : ModerationPolicy)
    → moderation_valid q ≡ true
    → (s : Tables) (h : (j : ℕ) → Sound p q s j) (id : ℕ) (action : Action) (now : ℤ) (j : ℕ)
    → Sound p q (store_after s (apply_action s id action now)) j
unfolding apply_action
apply_action-Sound p q valid s h id action now = go (row_of s id) refl
  where
    go :
        (o : Option Report)
        → row_of s id ≡ o
        → (j : ℕ) → Sound p q (store_after s (act_locked id action now o s)) j
    go none found j = h j
    go (some r) found j =
        acted-Sound p q valid s h id (outcome action).1 now (outcome-closes action) r found
          (outcome action).0 j
