-- ===== src/Report/Invariants/Keys.antt =====
-- The unique keys after each of the other writes, and after a sequence of writes.
use flood_now_backend.Base.{
  ℕ, ◌≤◌, ◌≡◌, refl, Bool, true, false, Option, none, some, List, any, count_by, is_set, ◌==◌,
  arith, Bool-cases, Option-cases, inl, inr,
}
use flood_now_backend.Base.Int.{ℤ}
use flood_now_backend.Base.Text.{Text}
use flood_now_backend.Program.{store_after}
use flood_now_backend.Postgres.Rows.{count_by-update_le}
use flood_now_backend.Sos.Request.{is_text}
use flood_now_backend.Report.Lifecycle.{
  Report, FreshnessPolicy, HiddenReason, auto_threshold, by_admin,
}
use flood_now_backend.Report.Input.{ReactionType}
use flood_now_backend.Report.Complaint.{Complaint, ModerationPolicy, Action, outcome}
use flood_now_backend.Report.Tables.{
  Reaction, Tables, empty_tables, report_is, row_of, try_react, upsert_reaction, of_user, reacted,
}
use flood_now_backend.Report.Moderation.{
  set_hidden, ComplaintParams, complaint_of, pending_of, insert_complaint, with_complaint,
  hides_now, hide_if_needed, complain_locked, add_complaint, closed, close_complaints, bool_eq,
  act_locked, apply_action,
}
use flood_now_backend.Report.Writes.{
  Write, creates, confirms, reacts, removes, complains, acts, Writes, Writes-induction,
}
use flood_now_backend.Report.Invariants.Keyed.{
  Keys, inserted_le, count_by-select, same_text, hidden_le, create-Keys, confirm-Keys,
}

set_hidden-Keys :
    (s : Tables) (id : ℕ) (hide : Bool) (reason : HiddenReason) (now : ℤ)
    → Keys s
    → Keys (set_hidden s id hide reason now)
unfolding set_hidden
set_hidden-Keys s id true reason now h = record {
  one_row = λ j. omega (arith, h.one_row j, hidden_le (λ i x. i == j) s id true reason now);
  one_client_id =
      λ t. omega (arith, h.one_client_id t, hidden_le (λ i x. is_text x t) s id true reason now);
  one_vote = h.one_vote;
  one_complaint = h.one_complaint;
  one_reaction = h.one_reaction;
}
set_hidden-Keys s id false reason now h = record {
  one_row = λ j. omega (arith, h.one_row j, hidden_le (λ i x. i == j) s id false reason now);
  one_client_id =
      λ t. omega (arith, h.one_client_id t, hidden_le (λ i x. is_text x t) s id false reason now);
  one_vote = h.one_vote;
  one_complaint = h.one_complaint;
  one_reaction = h.one_reaction;
}

-- New complaints, and a new status of the pending ones, keep one for a device.
with_complaints-Keys :
    (s : Tables) (cs : List Complaint)
    → ((id : ℕ) (d : Text) → count_by (complaint_of id d) cs ≤ 1)
    → Keys s
    → Keys (record s { complaints = cs })
with_complaints-Keys s cs one h = record {
  one_row = h.one_row;
  one_client_id = h.one_client_id;
  one_vote = h.one_vote;
  one_complaint = one;
  one_reaction = h.one_reaction;
}

complaint_again :
    (c : Complaint) (id : ℕ) (d : Text)
    → complaint_of id d c ≡ true
    → (x : Complaint) → complaint_of id d x ≡ true
    → complaint_of c.report_id c.device_id x ≡ true
complaint_again c id d e x k = ground (arith, same_text c.device_id x.device_id d)

complained_le :
    (c : Complaint) (cs : List Complaint) (id : ℕ) (d : Text)
    → count_by (complaint_of id d) cs ≤ 1
    → count_by (complaint_of id d) (insert_complaint c cs) ≤ 1
unfolding insert_complaint
complained_le c cs id d one = elim (Bool-cases (any (complaint_of c.report_id c.device_id) cs)) [
  | inl e ↦ rw e one
  | inr free ↦ rw free (
      inserted_le (complaint_of id d) (complaint_of c.report_id c.device_id)
        (record c { resolved_at = none }) cs (complaint_again c id d) one free)
]

add_complaint-Keys :
    (s : Tables) (c : ComplaintParams) → Keys s → Keys (store_after s (add_complaint s c))
unfolding add_complaint
add_complaint-Keys s c h = go (row_of s c.complaint.report_id)
  where
    more : Keys (with_complaint c.complaint s)
    more =
        with_complaints-Keys s (insert_complaint c.complaint s.complaints)
          (λ id d. complained_le c.complaint s.complaints id d (h.one_complaint id d)) h

    stores :
        (at : Option ℤ) (x : Option Complaint)
        → Keys (store_after s (hide_if_needed c at (with_complaint c.complaint s) x))
    stores at none = h
    stores at (some x) = elim (Bool-cases (hides_now c at (with_complaint c.complaint s))) [
      | inl e ↦
          rw e (set_hidden-Keys (with_complaint c.complaint s) _ true auto_threshold c.now more)
      | inr e ↦ rw e more
    ]

    go : (r : Option Report) → Keys (store_after s (complain_locked c r s))
    go none = h
    go (some r) = stores r.hidden_at _

apply_action-Keys :
    (s : Tables) (id : ℕ) (action : Action) (now : ℤ)
    → Keys s
    → Keys (store_after s (apply_action s id action now))
unfolding apply_action
apply_action-Keys s id action now h = go (row_of s id)
  where
    closes : (t : Tables) → Keys t → Keys (close_complaints id (outcome action).1 now t)
    closes t k =
        with_complaints-Keys t _
          (λ j d. omega (
            arith,
            k.one_complaint j d,
            count_by-update_le (complaint_of j d) (pending_of id) (closed (outcome action).1 now)
                t.complaints (λ x e y. y),
          ))
          k

    go : (r : Option Report) → Keys (store_after s (act_locked id action now r s))
    go none = h
    go (some r) = elim (Bool-cases (bool_eq (outcome action).0 (is_set r.hidden_at))) [
      | inl e ↦ rw e (closes s h)
      | inr e ↦ rw e (closes _ (set_hidden-Keys s id (outcome action).0 by_admin now h))
    ]

reactions-Keys :
    (s : Tables) (rs : List Reaction)
    → ((id user : ℕ) → count_by (of_user id user) rs ≤ 1)
    → Keys s
    → Keys (record s { reactions = rs })
reactions-Keys s rs one h = record {
  one_row = h.one_row;
  one_client_id = h.one_client_id;
  one_vote = h.one_vote;
  one_complaint = h.one_complaint;
  one_reaction = one;
}

abbrev first_reaction : ℕ → ℕ → ReactionType → Reaction
first_reaction id user kind = record { report_id = id; user_id = some user; kind = kind }

reaction_again :
    (id user : ℕ) (kind : ReactionType) (j u : ℕ)
    → of_user j u (first_reaction id user kind) ≡ true
    → (x : Reaction) → of_user j u x ≡ true
    → of_user id user x ≡ true
reaction_again id user kind j u e x k = elim (Option-cases x.user_id) [
  | inl none_set ↦ absurd (ground (arith, rw none_set at k))
  | inr (w, set) ↦ rw set (ground (arith, rw set at k))
]

react-Keys :
    (s : Tables) (id user : ℕ) (kind : ReactionType)
    → Keys s
    → Keys (store_after s (try_react s id user kind))
unfolding try_react upsert_reaction
react-Keys s id user kind h = elim (Bool-cases (any (report_is id) s.reports)) [
  | inl e ↦ rw e (upserts (any (of_user id user) s.reactions) refl)
  | inr e ↦ rw e h
]
  where
    upserts :
        (b : Bool) → any (of_user id user) s.reactions ≡ b → Keys (upsert_reaction s id user kind)
    upserts true e = rw e (
        reactions-Keys s _
          (λ j u. omega (
            arith,
            h.one_reaction j u,
            count_by-update_le (of_user j u) (of_user id user) (reacted kind) s.reactions
                (λ x d y. y),
          ))
          h)
    upserts false e = rw e (
        reactions-Keys s _
          (λ j u.
            inserted_le (of_user j u) (of_user id user) (first_reaction id user kind) s.reactions
              (reaction_again id user kind j u) (h.one_reaction j u) e)
          h)

Write-Keys :
    {p : FreshnessPolicy} {q : ModerationPolicy} (s t : Tables) → Write p q s t → Keys s → Keys t
Write-Keys s _ (creates i user id now g) h = create-Keys s _ h
Write-Keys s _ (confirms id i t now) h = confirm-Keys s _ h
Write-Keys s _ (reacts id user kind) h = react-Keys s id user kind h
Write-Keys s _ (removes id user) h =
    reactions-Keys s _
      (λ j u. omega (arith, h.one_reaction j u, count_by-select (of_user j u) _ s.reactions)) h
Write-Keys s _ (complains report_id i id now) h = add_complaint-Keys s _ h
Write-Keys s _ (acts report_id action now) h = apply_action-Keys s report_id action now h

-- The keys are unique after any sequence of writes from the empty tables.
pub writes-Keys :
    (p : FreshnessPolicy) (q : ModerationPolicy) (s : Tables) → Writes p q empty_tables s → Keys s
writes-Keys p q s w = Writes-induction Keys Write-Keys w (record {
  one_row = λ id. omega arith;
  one_client_id = λ c. omega arith;
  one_vote = λ id d. omega arith;
  one_complaint = λ id d. omega arith;
  one_reaction = λ id user. omega arith;
})
