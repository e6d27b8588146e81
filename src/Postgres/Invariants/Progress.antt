-- ===== src/Postgres/Invariants/Progress.antt =====
-- The lifecycle of each request, over every write.
use mathlib.Core.Path.{subst}
use flood_now_backend.Base.{
  ℕ, ◌≡◌, refl, sym, ap, ◌∙◌, Bool, true, false, Option, none, some, arith, any, holds, ◌==◌,
  ==_iff, if◌then◌else◌, Bool-cases, inl, inr,
}
use flood_now_backend.Apperr.{ok}
use flood_now_backend.LocalService.Request.{
  Status, status_open, status_pending_confirmation, status_matched, status_on_the_way,
  status_arrived, status_cancelled, unknown_status, Request, Role, role_provider, role_eq,
  status_eq, can_transition, can_cancel, is_closed,
}
use flood_now_backend.LocalService.Lifecycle.{can_transition-Move, status_eq_sound}
use flood_now_backend.LocalService.Steps.{
  Step, progresses, called_off_open, called_off_selected, called_off_matched, called_off_travelling,
  called_off_arrived, called_off_unknown, backed_out, backed_out_travelling, Moves, Moves-closed,
}
use flood_now_backend.Postgres.Table.{find}
use flood_now_backend.Postgres.Store.{
  Store, Ended, commit, rollback, store_after, request_is, get_request, get_offer, active_match_of,
}
use flood_now_backend.Postgres.Requests.{
  clashes_request, create_request, upsert_offer, create_issue,
}
use flood_now_backend.Postgres.Requests.Ends.{lock_request-found}
use flood_now_backend.Postgres.Matching.{select_offer, reject_selection}
use flood_now_backend.Postgres.Accepting.Ends.{accept_offer-ends}
use flood_now_backend.Postgres.Jobs.{
  JobTransition, moved, transition_in, transition_job, CancelParams, release_in, cancel_in,
  reopen_in, close_in, reopened_row, cancelled_row, returned_offer,
}
use flood_now_backend.Postgres.Jobs.Ends.{
  CancelEnds, Cancelling, nothing, unpaid, changed, plain, repaid, cancel-ends,
}
use flood_now_backend.Postgres.Others.{
  apply_ledger-others, create_provider-others, adjust_credit-others, dismiss_request-jobs,
  create_topup-jobs, mark_topup_paid-jobs,
}
use flood_now_backend.Postgres.Providers.{
  update_provider, set_provider_availability, set_provider_verified, set_provider_status,
}
use flood_now_backend.Postgres.Topups.{mark_topup, mark_topup_refunded}
use flood_now_backend.Postgres.Topups.Ends.{set_topup_payment-rest}
use flood_now_backend.Postgres.Writes.{
  Write, creates_provider, adjusts, creates_request, dismisses, offers, selects, rejects, accepts,
  transitions, cancels, creates_topup, sets_payment, marks_paid, Writes, done, next, MayCancel,
}
use flood_now_backend.Postgres.Invariants.Active.Steps.{release-requests, no_clash-find}
use flood_now_backend.Postgres.Invariants.Lifecycles.{
  Evolves, Follows, Follows-same, Follows-into, MovesOnce, MovesOnce-Follows, Locks-then,
  Locks-Follows, Step-MovesOnce, equal-Step, lock_request-Locks,
}
use flood_now_backend.Postgres.Invariants.Agreements.{
  select_locked-Follows, reject_found-Follows, upsert_locked-Follows, AcceptEnds-Follows,
}

back_to_open :
    (from : Status) (actor : Role)
    → can_cancel from actor ≡ true
    → role_eq actor role_provider ≡ true
    → Step from status_open
unfolding can_cancel
back_to_open status_matched role_provider h k = backed_out
back_to_open status_on_the_way role_provider h k = backed_out_travelling
back_to_open _ actor h k = absurd (ground arith)

call_off :
    (from : Status) (actor : Role) → can_cancel from actor ≡ true → Step from status_cancelled
unfolding can_cancel is_closed
call_off status_open actor h = called_off_open
call_off status_pending_confirmation actor h = called_off_selected
call_off status_matched actor h = called_off_matched
call_off status_on_the_way actor h = called_off_travelling
call_off status_arrived actor h = called_off_arrived
call_off unknown_status actor h = called_off_unknown
call_off from actor h = absurd (ground arith)

module _ (s : Store) (p : CancelParams) (k : MayCancel p) (c : Cancelling s p) where
  cancelling-MovesOnce : MovesOnce c.store (cancel_in c.store p c.request)
  cancelling-MovesOnce = elim (Bool-cases p.reopen) [
    | inl back ↦ rw back (
        Step-MovesOnce c.store
          (reopen_in (release_in c.store p c.request) p
            (returned_offer (find (active_match_of p.request_id) c.store.matches)))
          p.request_id c.request (reopened_row p) (λ x. refl)
          (lock_request-found s p.request_id p.now c.request_locked)
          (equal-Step (status_eq_sound c.request.status p.from c.unchanged)
            (back_to_open p.from p.actor k.allowed (sym k.reopens ∙ back)))
          (release-requests c.store p c.request (reopened_row p)))
    | inr over ↦ rw over (
        Step-MovesOnce c.store (close_in (release_in c.store p c.request) p) p.request_id c.request
          (cancelled_row p) (λ x. refl) (lock_request-found s p.request_id p.now c.request_locked)
          (equal-Step (status_eq_sound c.request.status p.from c.unchanged)
            (call_off p.from p.actor k.allowed))
          (release-requests c.store p c.request (cancelled_row p)))
  ]

  cancelled-Follows : Follows s (cancel_in c.store p c.request)
  cancelled-Follows =
      Locks-then s c.store (cancel_in c.store p c.request)
        (lock_request-Locks s p.request_id p.now c.request_locked) cancelling-MovesOnce

CancelEnds-Follows :
    (s : Store) (p : CancelParams) {e : Ended Bool}
    → MayCancel p
    → CancelEnds s p e
    → Follows s (store_after s e)
CancelEnds-Follows s p k nothing = Follows-same s s refl
CancelEnds-Follows s p k (unpaid x) = Follows-same s s refl
CancelEnds-Follows s p k (changed r s1 h) =
    Locks-Follows s s1 (lock_request-Locks s p.request_id p.now h)
CancelEnds-Follows s p k (plain c h) = cancelled-Follows s p k c
CancelEnds-Follows s p k (repaid c e did s2 h run) =
    Follows-into s (cancel_in c.store p c.request) s2 (cancelled-Follows s p k c)
      (ap (λ o. o.0) (apply_ledger-others (cancel_in c.store p c.request) e run))

transition_found-Follows :
    (s : Store) (t : JobTransition)
    → can_transition t.from t.to t.actor ≡ true
    → (o : Option Request) → get_request s t.request_id ≡ o
    → Follows s (
        store_after s (
          if holds o (λ r. status_eq r.status t.from)
          then commit (ok true) (transition_in s t)
          else rollback (ok false)))
unfolding get_request
transition_found-Follows s t h none found = Follows-same s s refl
transition_found-Follows s t h (some r) found = elim (Bool-cases (status_eq r.status t.from)) [
  | inr other ↦ rw other (Follows-same s s refl)
  | inl same ↦ rw same (
      MovesOnce-Follows s (transition_in s t) (
        Step-MovesOnce s (transition_in s t) t.request_id r (moved t) (λ x. refl) found
          (equal-Step (status_eq_sound r.status t.from same)
            (progresses (can_transition-Move t.from t.to t.actor h)))
          refl))
]

transition_job-Follows :
    (s : Store) (t : JobTransition)
    → can_transition t.from t.to t.actor ≡ true
    → Follows s (store_after s (transition_job s t))
unfolding transition_job
transition_job-Follows s t h = transition_found-Follows s t h (get_request s t.request_id) refl

create_request-Follows : (s : Store) (r : Request) → Follows s (store_after s (create_request s r))
unfolding create_request find
create_request-Follows s r = elim (Bool-cases (any (clashes_request r) s.requests)) [
  | inl clash ↦ rw clash (Follows-same s s refl)
  | inr new ↦ rw new (λ id. elim (Bool-cases (r.id == id)) [
    | inl here ↦ rw (no_clash-find r s.requests id new ((==_iff r.id id).0 here)) tt
    | inr other ↦ rw other (Follows-same s s refl id)
  ])
]

Write-Follows : (s t : Store) → Write s t → Follows s t
unfolding update_provider set_provider_availability set_provider_verified set_provider_status
    create_issue mark_topup mark_topup_refunded reject_selection upsert_offer select_offer
Write-Follows s t (creates_provider p w k) =
    Follows-same s t (ap (λ o. o.0) (create_provider-others s p w))
Write-Follows s t (adjusts e k) = Follows-same s t (ap (λ o. o.0) (adjust_credit-others s e))
Write-Follows s t (creates_request r k) = create_request-Follows s r
Write-Follows s t (dismisses r p) = Follows-same s t (ap (λ o. o.0) (dismiss_request-jobs s r p))
Write-Follows s t (offers o now) = upsert_locked-Follows s o now _ refl
Write-Follows s t (selects p) = select_locked-Follows s p _ refl
Write-Follows s t (rejects o p now) = reject_found-Follows s p now (get_offer s o)
Write-Follows s t (accepts p) = AcceptEnds-Follows s p (accept_offer-ends s p)
Write-Follows s t (transitions j k) = transition_job-Follows s j k
Write-Follows s t (cancels p k) = CancelEnds-Follows s p k (cancel-ends s p)
Write-Follows s t (creates_topup x k) = Follows-same s t (ap (λ o. o.0) (create_topup-jobs s x))
Write-Follows s t (sets_payment id c now) =
    Follows-same s t (ap (λ o. o.1) (set_topup_payment-rest s id c now))
Write-Follows s t (marks_paid p) = Follows-same s t (ap (λ o. o.0) (mark_topup_paid-jobs s p))
Write-Follows s t _ = Follows-same s s refl

Evolves-some :
    (r : Request) (o : Option Request)
    → Evolves Moves (some r) o
    → (q : Request) × (o ≡ some q) × Moves r.status q.status
Evolves-some r none h = absurd h
Evolves-some r (some q) h = (q, refl, h)

-- One write deletes no request, and moves a request's status by at most one step of the lifecycle,
-- or from pending confirmation, which timed out, to open and by at most one step on from there.
-- A step goes from open to pending confirmation and back, from pending confirmation to matched, from
-- matched to on the way, on the way to arrived, arrived to completed, from open or pending
-- confirmation to expired, from open, pending confirmation, matched, on the way or arrived, or a
-- status that the code does not know, to cancelled, and from matched or on the way back to open.
pub Write-Moves :
    (s t : Store)
    → Write s t
    → (id : ℕ) (r : Request) → get_request s id ≡ some r
    → (q : Request) × (get_request t id ≡ some q) × Moves r.status q.status
unfolding get_request
Write-Moves s t w id r h =
    Evolves-some r (find (request_is id) t.requests)
      (subst (λ o. Evolves Moves o (find (request_is id) t.requests)) h (Write-Follows s t w id))

-- Over any sequence of writes a request that is completed, cancelled or expired keeps that status.
pub writes-closed :
    (s t : Store) (id : ℕ) (r : Request)
    → Writes s t
    → get_request s id ≡ some r
    → is_closed r.status ≡ true
    → (q : Request) × (get_request t id ≡ some q) × (q.status ≡ r.status)
writes-closed s _ id r done h closed = (r, h, refl)
writes-closed s t id r (next {t = m} w x) h closed =
    let (p, found, same) = writes-closed s m id r w h closed in
    let (q, there, move) = Write-Moves m t x id p found in
    (q, there, Moves-closed (rw same closed) move ∙ same)
