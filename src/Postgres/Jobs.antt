-- ===== src/Postgres/Jobs.antt =====
-- CurrentMatch, TransitionJob and Cancel of localservice_repository.go.
pub mod Ends
pub mod Current
use flood_now_backend.Base.{
  holds, ℕ, Bool, true, false, not, ◌&&◌, ◌||◌, Option, none, some, List, [], ◌∷◌, any, is_set,
  ◌==◌, ltb, if◌then◌else◌,
}
use flood_now_backend.Base.Int.{ℤ, ltb_ℤ}
use flood_now_backend.Base.Text.{Text, codes}
use flood_now_backend.Apperr.{Result, ok, err}
use flood_now_backend.LocalService.Request.{
  Status, status_open, status_on_the_way, status_completed, status_cancelled, status_eq, is_closed,
  Role, role_provider, role_eq, Request, CancelReason, cancel_changed_mind, cancel_found_other,
  cancel_no_response, cancel_unable_to_contact, cancel_provider_unavailable,
  cancel_customer_unreachable, cancel_other, unknown_cancel_reason,
}
use flood_now_backend.LocalService.Offer.{
  Match, MatchStatus, match_active, match_completed, match_cancelled, offer_rejected,
}
use flood_now_backend.LocalService.Wallet.{LedgerEntry}
use flood_now_backend.Postgres.Table.{find, update_where}
use flood_now_backend.Postgres.Store.{
  Store, Ended, commit, rollback, offer_is, active_match_of, request_is, get_request,
  insert_request_event,
}
use flood_now_backend.Postgres.Ledger.{apply_ledger}
use flood_now_backend.Postgres.Requests.{expire_selected, update_offers, lock_request}
use flood_now_backend.Postgres.Matching.{rejected_offer, update_requests}

-- ORDER BY of CurrentMatch: active, completed, cancelled; the newest first among equals.
abbrev pub match_rank : MatchStatus → ℕ
match_rank match_active = 0
match_rank match_completed = 1
match_rank match_cancelled = 2

abbrev pub comes_before : Match → Match → Bool
comes_before m n =
    ltb (match_rank m.status) (match_rank n.status)
    || (match_rank m.status == match_rank n.status && ltb_ℤ n.created_at m.created_at)

abbrev pub better : Match → Option Match → Match
better m none = m
better m (some n) = if comes_before n m then n else m

unfoldable pub best_match : ℕ → List Match → Option Match
best_match request_id [] = none
best_match request_id (m ∷ ms) =
    let rest = best_match request_id ms in
    if m.request_id == request_id then some (better m rest) else rest

unfoldable pub current_match : Store → ℕ → Option Match
unfolding best_match
current_match s request_id = best_match request_id s.matches

pub record JobTransition : Type 0 where
  pub request_id : ℕ
  pub from : Status
  pub to : Status
  pub actor : Role
  pub now : ℤ

abbrev pub moved : JobTransition → Request → Request
moved t r = record r {
  status = t.to;
  closed_at = if is_closed t.to then some t.now else none;
  updated_at = t.now;
}

-- The switch on t.To over the active match.
abbrev pub travel_started : ℤ → Match → Match
travel_started now m = record m { started_travel_at = some now }

abbrev pub job_done : ℤ → Match → Match
job_done now m = record m { status = match_completed; closed_at = some now }

abbrev pub matches_after : JobTransition → List Match → List Match
matches_after t ms =
    if status_eq t.to status_on_the_way
    then update_where (active_match_of t.request_id) (travel_started t.now) ms
    else if status_eq t.to status_completed
    then update_where (active_match_of t.request_id) (job_done t.now) ms
    else ms

abbrev pub transition_in : Store → JobTransition → Store
transition_in s t =
    insert_request_event
      (record s {
        requests = update_where (request_is t.request_id) (moved t) s.requests;
        matches = matches_after t s.matches;
      })
      t.request_id t.to t.actor none t.now

-- The id is the primary key: WHERE id = … AND status = … affects that one row, or none.
unfoldable pub transition_job : Store → JobTransition → Ended Bool
unfolding is_closed
transition_job s t =
    if holds (get_request s t.request_id) (λ r. status_eq r.status t.from)
    then commit (ok true) (transition_in s t)
    else rollback (ok false)

-- string(p.Reason).
abbrev pub reason_text : CancelReason → Text
reason_text cancel_changed_mind = codes "changed_mind"
reason_text cancel_found_other = codes "found_other"
reason_text cancel_no_response = codes "no_response"
reason_text cancel_unable_to_contact = codes "unable_to_contact"
reason_text cancel_provider_unavailable = codes "provider_unavailable"
reason_text cancel_customer_unreachable = codes "customer_unreachable"
reason_text cancel_other = codes "other"
reason_text unknown_cancel_reason = codes ""

-- CancelParams; its Note is read by nothing in the repository.
pub record CancelParams : Type 0 where
  pub request_id : ℕ
  pub from : Status
  pub actor : Role
  pub reason : CancelReason
  pub note : Option Text
  pub now : ℤ
  pub reopen : Bool
  pub reopen_expires_at : ℤ
  pub refund : Option LedgerEntry

abbrev pub called_off : CancelParams → Match → Match
called_off p m = record m {
  status = match_cancelled;
  cancelled_by = some p.actor;
  cancel_reason = some (reason_text p.reason);
  closed_at = some p.now;
}

-- cancelledOffer.UUID, which is the nil UUID where no row came back.
abbrev pub returned_offer : Option Match → ℕ
returned_offer none = 0
returned_offer (some m) = m.offer_id

abbrev pub reopened_row : CancelParams → Request → Request
reopened_row p r = record r {
  status = status_open;
  selected_offer_id = none;
  selection_expires_at = none;
  expires_at = p.reopen_expires_at;
  updated_at = p.now;
}

-- The offer of the provider who backed out cannot be chosen again.
abbrev pub reopen_in : Store → CancelParams → ℕ → Store
reopen_in s p offer_id =
    let s1 = update_offers s (offer_is offer_id) (rejected_offer p.now) in
    let s2 = update_requests s1 p.request_id (reopened_row p) in
    insert_request_event s2 p.request_id status_open p.actor (some (reason_text p.reason)) p.now

abbrev pub cancelled_row : CancelParams → Request → Request
cancelled_row p r = record r {
  status = status_cancelled;
  selected_offer_id = none;
  selection_expires_at = none;
  cancel_reason = some (reason_text p.reason);
  closed_at = some p.now;
  updated_at = p.now;
}

abbrev pub close_in : Store → CancelParams → Store
close_in s p =
    let s1 = update_requests s p.request_id (cancelled_row p) in
    insert_request_event s1 p.request_id status_cancelled p.actor (some (reason_text p.reason))
      p.now

abbrev pub refunded : Result (Bool × Store) → Ended Bool
refunded (err e) = rollback (err e)
refunded (ok (applied, s)) = commit (ok true) s

abbrev pub pay_refund : Store → Option LedgerEntry → Ended Bool
pay_refund s none = commit (ok true) s
pay_refund s (some e) = refunded (apply_ledger s e)

-- The store with the selection expired and the active match cancelled.
abbrev pub release_in : Store → CancelParams → Request → Store
release_in s p r =
    let s1 = expire_selected s r.selected_offer_id p.now in
    record s1 { matches = update_where (active_match_of p.request_id) (called_off p) s1.matches }

abbrev pub cancel_in : Store → CancelParams → Request → Store
cancel_in s p r =
    if p.reopen
    then reopen_in (release_in s p r) p
        (returned_offer (find (active_match_of p.request_id) s.matches))
    else close_in (release_in s p r) p

abbrev pub cancel_locked : CancelParams → Option (Request × Store) → Ended Bool
cancel_locked p none = rollback (ok false)
cancel_locked p (some (r, s)) =
    if not (status_eq r.status p.from)
    then commit (ok false) s
    else if role_eq p.actor role_provider
        && not (is_set (find (active_match_of p.request_id) s.matches))
    then rollback (ok false)
    else pay_refund (cancel_in s p r) p.refund

unfoldable pub cancel : Store → CancelParams → Ended Bool
cancel s p = cancel_locked p (lock_request s p.request_id p.now)
