-- ===== src/Postgres/Accepting.antt =====
-- AcceptOffer of localservice_repository.go: the qualified match and its fee, in one transaction.
pub mod Ends
use flood_now_backend.Base.{
  ℕ, Bool, true, false, not, ◌&&◌, ◌||◌, Option, none, some, ◌∷◌, any, ◌==◌, if◌then◌else◌,
}
use flood_now_backend.Base.Int.{ℤ, pos, neg, ltb_ℤ}
use flood_now_backend.Apperr.{not_found, conflict, insufficient_credit, database, Result, ok, err}
use flood_now_backend.LocalService.Provider.{Provider, is_provider_active}
use flood_now_backend.LocalService.Request.{status_matched, role_provider, Request}
use flood_now_backend.LocalService.Offer.{Offer, offer_accepted, Match, match_active}
use flood_now_backend.LocalService.Wallet.{tx_match_fee, LedgerEntry, match_fee_key}
use flood_now_backend.Postgres.Table.{find}
use flood_now_backend.Postgres.Store.{
  Store, Ended, commit, rollback, offer_is, match_of_offer, active_match_of, get_provider,
  get_offer, insert_request_event,
}
use flood_now_backend.Postgres.Ledger.{apply_ledger}
use flood_now_backend.Postgres.Requests.{update_offers, lock_request}
use flood_now_backend.Postgres.Matching.{update_requests, awaits}

pub record AcceptOfferParams : Type 0 where
  pub offer_id : ℕ
  pub provider_id : ℕ
  pub match_id : ℕ
  pub fee : ℤ
  pub charge : Bool
  pub now : ℤ

pub record AcceptResult : Type 0 where
  pub match_made : Match
  pub already_accepted : Bool

abbrev pub new_match : AcceptOfferParams → Request → Match
new_match p r = record {
  id = p.match_id;
  request_id = r.id;
  offer_id = p.offer_id;
  provider_id = p.provider_id;
  fee_credits = p.fee;
  fee_waived = not p.charge;
  status = match_active;
  cancelled_by = none;
  cancel_reason = none;
  started_travel_at = none;
  created_at = p.now;
  closed_at = none;
}

abbrev pub fee_entry : AcceptOfferParams → LedgerEntry
fee_entry p = record {
  provider_id = p.provider_id;
  kind = tx_match_fee;
  amount = neg p.fee;
  key = match_fee_key p.offer_id;
  match_id = some p.match_id;
  topup_id = none;
  note = none;
  at = p.now;
}

abbrev pub accepted_offer : AcceptOfferParams → Offer → Offer
accepted_offer p o = record o { status = offer_accepted; updated_at = p.now }

abbrev pub matched_row : AcceptOfferParams → Request → Request
matched_row p r = record r {
  status = status_matched;
  selection_expires_at = none;
  selected_offer_id = none;
  updated_at = p.now;
}

-- The updates after the fee.
abbrev pub accept_in : Store → AcceptOfferParams → Request → Store
accept_in s p r =
    let s1 = update_offers s (offer_is p.offer_id) (accepted_offer p) in
    let s2 = update_requests s1 r.id (matched_row p) in
    insert_request_event s2 r.id status_matched role_provider none p.now

abbrev pub accepted : AcceptOfferParams → Request → Result (Bool × Store) → Ended AcceptResult
accepted p r (err e) = rollback (err e)
accepted p r (ok (applied, s)) =
    commit (ok (record { match_made = new_match p r; already_accepted = false })) (accept_in s p r)

-- A unique constraint of service_matches: the id, the offer, or a second active match.
abbrev pub clashes_match : AcceptOfferParams → Request → Match → Bool
clashes_match p r m = m.id == p.match_id || m.offer_id == p.offer_id || active_match_of r.id m

abbrev pub charge_fee : Store → AcceptOfferParams → Result (Bool × Store)
charge_fee s p =
    if p.charge && ltb_ℤ (pos 0) p.fee then apply_ledger s (fee_entry p) else ok (false, s)

-- From the INSERT of the match on; fee_credits has a CHECK.
unfoldable pub insert_match : Store → AcceptOfferParams → Request → Ended AcceptResult
insert_match s p r =
    if ltb_ℤ p.fee (pos 0)
    then rollback (err (database "insert match"))
    else if any (clashes_match p r) s.matches
    then rollback (err (conflict "this request already has a matched provider"))
    else accepted p r (charge_fee (record s { matches = new_match p r ∷ s.matches }) p)

-- The provider's row, read under its lock.
abbrev pub accept_with : Store → AcceptOfferParams → Request → Option Provider → Ended AcceptResult
accept_with s p r none = rollback (err (database "lock provider"))
accept_with s p r (some q) =
    if not (is_provider_active q.status)
    then rollback (err (conflict "your provider profile is suspended"))
    else if p.charge && ltb_ℤ q.credit_balance p.fee
    then rollback (err (insufficient_credit q.credit_balance p.fee))
    else insert_match s p r

-- The match of an earlier accept, if there is one.
abbrev pub accept_once : Store → AcceptOfferParams → Request → Option Match → Ended AcceptResult
accept_once s p r (some m) = commit (ok (record { match_made = m; already_accepted = true })) s
accept_once s p r none =
    if awaits p.offer_id r
    then accept_with s p r (get_provider s p.provider_id)
    else commit (err (conflict "this job is no longer waiting for your confirmation")) s

abbrev pub accept_locked : AcceptOfferParams → Option (Request × Store) → Ended AcceptResult
accept_locked p none = rollback (err (not_found "service request not found"))
accept_locked p (some (r, s)) = accept_once s p r (find (match_of_offer p.offer_id) s.matches)

abbrev pub accept_found : Store → AcceptOfferParams → Option Offer → Ended AcceptResult
accept_found s p none = rollback (err (not_found "offer not found"))
accept_found s p (some o) =
    if o.provider_id == p.provider_id
    then accept_locked p (lock_request s o.request_id p.now)
    else rollback (err (not_found "offer not found"))

unfoldable pub accept_offer : Store → AcceptOfferParams → Ended AcceptResult
accept_offer s p = accept_found s p (get_offer s p.offer_id)
