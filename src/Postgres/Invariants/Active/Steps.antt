-- ===== src/Postgres/Invariants/Active/Steps.antt =====
-- One active match for each matched request, over every write.
use flood_now_backend.Postgres.Topups.Ends.{set_topup_payment-rest}
use flood_now_backend.Base.{
  ℕ, ◌≡◌, refl, ap, Bool, true, false, Option, none, some, List, [], ◌∷◌, arith, any, count_by,
  holds, if◌then◌else◌, Bool-cases, inl, inr,
}
use flood_now_backend.Apperr.{ok}
use flood_now_backend.LocalService.Request.{
  Status, status_open, Request, status_eq, is_matched, can_transition,
}
use flood_now_backend.LocalService.Lifecycle.{
  Move, sets_off, gets_there, finishes, can_transition-Move, status_eq_sound,
}
use flood_now_backend.Postgres.Table.{find, update_where, count_by-update_where}
use flood_now_backend.Postgres.Store.{
  Store, empty_store, Ended, commit, rollback, store_after, request_is, active_match_of,
  get_request, get_offer,
}
use flood_now_backend.Postgres.Requests.{
  clashes_request, create_request, upsert_offer, dismiss_request,
}
use flood_now_backend.Postgres.Requests.Ends.{lock_request-found}
use flood_now_backend.Postgres.Matching.{reject_selection}
use flood_now_backend.Postgres.Accepting.Ends.{accept_offer-ends}
use flood_now_backend.Postgres.Jobs.{
  JobTransition, moved, travel_started, job_done, matches_after, transition_in, transition_job,
  CancelParams, called_off, release_in, cancel_in, reopen_in, close_in, reopened_row, cancelled_row,
  returned_offer,
}
use flood_now_backend.Postgres.Jobs.Ends.{
  CancelEnds, nothing, unpaid, changed, plain, repaid, cancel-ends,
}
use flood_now_backend.Postgres.Others.{apply_ledger-others}
use flood_now_backend.Postgres.Others.{
  create_provider-others, adjust_credit-others, dismiss_request-jobs, create_topup-jobs,
  mark_topup_paid-jobs,
}
use flood_now_backend.Postgres.Providers.{
  create_provider, adjust_credit, update_provider, set_provider_availability, set_provider_verified,
  set_provider_status,
}
use flood_now_backend.Postgres.Requests.{create_issue}
use flood_now_backend.Postgres.Topups.{
  create_topup, mark_topup_paid, set_topup_payment, mark_topup, mark_topup_refunded,
}
use flood_now_backend.Postgres.Writes.{
  Write, creates_provider, updates_provider, sets_availability, verifies, sets_status, adjusts,
  creates_request, dismisses, reports, offers, selects, rejects, accepts, transitions, cancels,
  creates_topup, sets_payment, marks_paid, marks, marks_refunded, Writes, Writes-induction,
}
use flood_now_backend.Postgres.Invariants.Active.{
  expected_matches, OneActive-jobs, OneActive, lock_request-OneActive, OneActive-others,
  keeps-OneActive, ends-OneActive,
}
use flood_now_backend.Postgres.Invariants.Active.Offers.{
  select_offer-OneActive, reject_found-OneActive, upsert_locked-OneActive, AcceptEnds-OneActive,
}

pub release-requests :
    (s : Store) (p : CancelParams) (r : Request) (f : Request → Request)
    → update_where (request_is p.request_id) f (release_in s p r).requests
      ≡ update_where (request_is p.request_id) f s.requests
release-requests s p r f = ground arith

release-matches :
    (s : Store) (p : CancelParams) (r : Request)
    → (release_in s p r).matches
      ≡ update_where (active_match_of p.request_id) (called_off p) s.matches
release-matches s p r = ground arith

cancel_in-OneActive :
    (s : Store) (p : CancelParams) (r : Request)
    → find (request_is p.request_id) s.requests ≡ some r
    → OneActive s
    → OneActive (cancel_in s p r)
unfolding is_matched
cancel_in-OneActive s p r found a = elim (Bool-cases p.reopen) [
  | inl back ↦ rw back (
      ends-OneActive s p.request_id r (reopened_row p) (λ x. refl) found a (called_off p)
        (λ m. refl) (λ m. refl) refl
        (reopen_in (release_in s p r) p
          (returned_offer (find (active_match_of p.request_id) s.matches)))
        (release-requests s p r (reopened_row p)) (release-matches s p r))
  | inr over ↦ rw over (
      ends-OneActive s p.request_id r (cancelled_row p) (λ x. refl) found a (called_off p)
        (λ m. refl) (λ m. refl) refl (close_in (release_in s p r) p)
        (release-requests s p r (cancelled_row p)) (release-matches s p r))
]

CancelEnds-OneActive :
    (s : Store) (p : CancelParams) {e : Ended Bool}
    → CancelEnds s p e
    → OneActive s
    → OneActive (store_after s e)
CancelEnds-OneActive s p nothing a = a
CancelEnds-OneActive s p (unpaid x) a = a
CancelEnds-OneActive s p (changed r s1 h) a = lock_request-OneActive s p.request_id p.now h a
CancelEnds-OneActive s p (plain c h) a =
    cancel_in-OneActive c.store p c.request
      (lock_request-found s p.request_id p.now c.request_locked)
      (lock_request-OneActive s p.request_id p.now c.request_locked a)
CancelEnds-OneActive s p (repaid c e done s2 h run) a =
    OneActive-others (cancel_in c.store p c.request) s2
      (apply_ledger-others (cancel_in c.store p c.request) e run)
      (cancel_in-OneActive c.store p c.request
        (lock_request-found s p.request_id p.now c.request_locked)
        (lock_request-OneActive s p.request_id p.now c.request_locked a))

Move-OneActive :
    (s : Store) (t : JobTransition) (r : Request) {from to : Status}
    → Move from to
    → t.from ≡ from
    → t.to ≡ to
    → r.status ≡ from
    → find (request_is t.request_id) s.requests ≡ some r
    → OneActive s
    → OneActive (transition_in s t)
unfolding is_matched
Move-OneActive s t r sets_off from to st found a =
    keeps-OneActive s t.request_id r (moved t) (λ x. refl) found a (matches_after t s.matches)
      (λ j. rw to (
        count_by-update_where (active_match_of j) (active_match_of t.request_id)
          (travel_started t.now) s.matches (λ m on. refl)))
      (rw (to, st) refl) (transition_in s t) refl refl
Move-OneActive s t r gets_there from to st found a =
    keeps-OneActive s t.request_id r (moved t) (λ x. refl) found a (matches_after t s.matches)
      (λ j. rw to) (rw (to, st) refl) (transition_in s t) refl refl
Move-OneActive s t r finishes from to st found a =
    ends-OneActive s t.request_id r (moved t) (λ x. refl) found a (job_done t.now) (λ m. refl)
      (λ m. refl) (rw to refl) (transition_in s t) refl (rw to refl)

transition_found-OneActive :
    (s : Store) (t : JobTransition)
    → can_transition t.from t.to t.actor ≡ true
    → (o : Option Request) → get_request s t.request_id ≡ o
    → OneActive s
    → OneActive (
        store_after s (
          if holds o (λ r. status_eq r.status t.from)
          then commit (ok true) (transition_in s t)
          else rollback (ok false)))
unfolding get_request
transition_found-OneActive s t h none found a = a
transition_found-OneActive s t h (some r) found a = elim (Bool-cases (status_eq r.status t.from)) [
  | inr other ↦ rw other a
  | inl same ↦ rw same (
      Move-OneActive s t r (can_transition-Move t.from t.to t.actor h) refl refl
        (status_eq_sound r.status t.from same) found a)
]

transition_job-OneActive :
    (s : Store) (t : JobTransition)
    → can_transition t.from t.to t.actor ≡ true
    → OneActive s
    → OneActive (store_after s (transition_job s t))
unfolding transition_job
transition_job-OneActive s t h a =
    transition_found-OneActive s t h (get_request s t.request_id) refl a

pub no_clash-find :
    (r : Request) (t : List Request) (id : ℕ)
    → any (clashes_request r) t ≡ false
    → r.id ≡ id
    → find (request_is id) t ≡ none
unfolding find
no_clash-find r [] id h e = refl
no_clash-find r (q ∷ t) id h e = ground (arith, no_clash-find r t id)

create_request-OneActive :
    (s : Store) (r : Request)
    → r.status ≡ status_open
    → OneActive s
    → OneActive (store_after s (create_request s r))
unfolding create_request find is_matched
create_request-OneActive s r h a = elim (Bool-cases (any (clashes_request r) s.requests)) [
  | inl clash ↦ rw clash a
  | inr new ↦ rw new (λ id. ground (arith, h, a id, no_clash-find r s.requests id new))
]

Write-OneActive : (s t : Store) → Write s t → OneActive s → OneActive t
unfolding update_provider set_provider_availability set_provider_verified set_provider_status
    create_issue mark_topup mark_topup_refunded reject_selection upsert_offer
Write-OneActive s t (creates_provider p w k) a =
    OneActive-others s (store_after s (create_provider s p w)) (create_provider-others s p w) a
Write-OneActive s t (updates_provider p) a = a
Write-OneActive s t (sets_availability id on now) a = a
Write-OneActive s t (verifies id at now) a = a
Write-OneActive s t (sets_status id st now) a = a
Write-OneActive s t (adjusts e k) a =
    OneActive-others s (store_after s (adjust_credit s e)) (adjust_credit-others s e) a
Write-OneActive s t (creates_request r k) a = create_request-OneActive s r k a
Write-OneActive s t (dismisses r p) a =
    OneActive-jobs s (dismiss_request s r p) (dismiss_request-jobs s r p) a
Write-OneActive s t (reports i) a = a
Write-OneActive s t (offers o now) a = upsert_locked-OneActive s o now _ refl a
Write-OneActive s t (selects p) a = select_offer-OneActive s p a
Write-OneActive s t (rejects o p now) a = reject_found-OneActive s p now (get_offer s o) a
Write-OneActive s t (accepts p) a = AcceptEnds-OneActive s p (accept_offer-ends s p) a
Write-OneActive s t (transitions j k) a = transition_job-OneActive s j k a
Write-OneActive s t (cancels p k) a = CancelEnds-OneActive s p (cancel-ends s p) a
Write-OneActive s t (creates_topup x k) a =
    OneActive-jobs s (store_after s (create_topup s x)) (create_topup-jobs s x) a
Write-OneActive s t (sets_payment id c now) a =
    OneActive-jobs s (store_after s (set_topup_payment s id c now))
      (ap (λ m. (m.1, m.4, m.3)) (set_topup_payment-rest s id c now)) a
Write-OneActive s t (marks_paid p) a =
    OneActive-jobs s (store_after s (mark_topup_paid s p)) (mark_topup_paid-jobs s p) a
Write-OneActive s t (marks id to now k) a = a
Write-OneActive s t (marks_refunded i now) a = a

-- After any sequence of writes from the empty tables a request has exactly one active match while
-- it is matched, on the way or arrived, and none in any other status or if it does not exist.
pub writes-OneActive :
    (s : Store) (id : ℕ)
    → Writes empty_store s
    → count_by (active_match_of id) s.matches ≡ expected_matches (get_request s id)
unfolding get_request
writes-OneActive s id w = Writes-induction OneActive Write-OneActive w (unfold find in λ j. refl) id
