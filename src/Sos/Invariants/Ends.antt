-- ===== src/Sos/Invariants/Ends.antt =====
-- How each transaction on the SOS tables can end.
use flood_now_backend.Base.{
  ℕ, ◌≡◌, Bool, true, false, ◌∷◌, any, count_by, holds, leb, Bool-cases, inl, inr,
}
use flood_now_backend.Base.Int.{ℤ}
use flood_now_backend.Base.Text.{Text}
use flood_now_backend.Apperr.{Result, ok}
use flood_now_backend.Program.{Outcome, commit, rollback}
use flood_now_backend.Postgres.Table.{update_where}
use flood_now_backend.Sos.Request.{matched, requester, helper, Request}
use flood_now_backend.Sos.Tables.{
  Tables, clashes, inserted, insert_sos_event, create, SosTransition, expected, moved,
  helper_missing, transition, assigned_to, claimable, claimed, get_helper, accept_locked, accept,
}

-- Rolled back, or a new row that clashes with none.
pub data CreateEnds (s : Tables) (r : Request) : Outcome Tables (Unit {0}) → Type 0 where
  refused : (e : Result (Unit {0})) → CreateEnds s r (rollback e)
  filed :
      any (clashes r) s.requests ≡ false
      → CreateEnds s r (
          commit (ok tt) (
            insert_sos_event
              (record s { requests = inserted r ∷ s.requests })
              r.id
              r.status
              requester
              r.created_at))

pub create-ends : (s : Tables) (r : Request) → CreateEnds s r (create s r)
unfolding create
create-ends s r = elim (Bool-cases (any (clashes r) s.requests)) [
  | inl e ↦ rw e (refused _)
  | inr e ↦ rw e (filed e)
]

-- Rolled back, or the expected row moved.
pub data MoveEnds (s : Tables) (t : SosTransition) : Outcome Tables Bool → Type 0 where
  stayed : (e : Result Bool) → MoveEnds s t (rollback e)
  went :
      any (expected t) s.requests ≡ true
      → MoveEnds s t (
          commit (ok true) (
            insert_sos_event
              (record s { requests = update_where (expected t) (moved t) s.requests })
              t.id
              t.to
              t.actor
              t.now))

pub transition-ends : (s : Tables) (t : SosTransition) → MoveEnds s t (transition s t)
unfolding transition
transition-ends s t = elim (Bool-cases (helper_missing t)) [
  | inl e ↦ rw e (stayed _)
  | inr e ↦ elim (Bool-cases (any (expected t) s.requests)) [
    | inl there ↦ rw (e, there) (went there)
    | inr gone ↦ rw (e, gone) (stayed _)
  ]
]

-- Rolled back, or a waiting request claimed by an active helper who holds fewer than allowed.
pub data AcceptEnds (s : Tables) (id : ℕ) (device_id : Text) (max : ℕ) (now : ℤ)
    : Outcome Tables Bool → Type 0 where
  lost : (e : Result Bool) → (e ≡ ok true → ⊥) → AcceptEnds s id device_id max now (rollback e)
  won :
      leb max (count_by (assigned_to device_id) s.requests) ≡ false
      → any (claimable id device_id) s.requests ≡ true
      → AcceptEnds s id device_id max now (
          commit (ok true) (
            insert_sos_event
              (record s {
                requests = update_where (claimable id device_id) (claimed device_id now) s.requests;
              })
              id
              matched
              helper
              now))

pub accept-ends :
    (s : Tables) (id : ℕ) (device_id : Text) (max : ℕ) (now : ℤ)
    → AcceptEnds s id device_id max now (accept s id device_id max now)
unfolding accept accept_locked
accept-ends s id device_id max now =
    elim (Bool-cases (holds (get_helper s device_id) (λ h. h.active))) [
      | inr e ↦ rw e (lost _ (λ h. cc h))
      | inl e ↦ elim (Bool-cases (leb max (count_by (assigned_to device_id) s.requests))) [
        | inl full ↦ rw (e, full) (lost _ (λ h. cc h))
        | inr free ↦ elim (Bool-cases (any (claimable id device_id) s.requests)) [
          | inl there ↦ rw (e, free, there) (won free there)
          | inr gone ↦ rw (e, free, gone) (lost _ (λ h. cc h))
        ]
      ]
    ]
