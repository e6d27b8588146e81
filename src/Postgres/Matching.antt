-- ===== src/Postgres/Matching.antt =====
-- SelectOffer and RejectSelection of localservice_repository.go.
use flood_now_backend.Base.{
  ℕ, Bool, true, false, not, ◌&&◌, ◌||◌, Option, none, some, any, holds, ◌==◌, if◌then◌else◌,
}
use flood_now_backend.Base.Int.{ℤ}
use flood_now_backend.Base.Text.{codes}
use flood_now_backend.Apperr.{ok}
use flood_now_backend.LocalService.Request.{
  status_open, status_pending_confirmation, status_eq, role_customer, role_provider, Request,
}
use flood_now_backend.LocalService.Offer.{
  Offer, offer_pending, offer_selected, offer_rejected, offer_status_eq,
}
use flood_now_backend.Postgres.Table.{update_where}
use flood_now_backend.Postgres.Store.{
  Store, Ended, commit, rollback, request_is, get_offer, insert_request_event,
}
use flood_now_backend.Postgres.Requests.{update_offers, lock_request}

abbrev pub update_requests : Store → ℕ → (Request → Request) → Store
update_requests s id f = record s { requests = update_where (request_is id) f s.requests }

pub record SelectOfferParams : Type 0 where
  pub request_id : ℕ
  pub offer_id : ℕ
  pub customer_id : ℕ
  pub now : ℤ
  pub deadline : ℤ

abbrev pub selectable : SelectOfferParams → Offer → Bool
selectable p o =
    o.id == p.offer_id && o.request_id == p.request_id && offer_status_eq o.status offer_pending

abbrev pub selected_offer : SelectOfferParams → Offer → Offer
selected_offer p o = record o { status = offer_selected; updated_at = p.now }

abbrev pub pending_row : SelectOfferParams → Request → Request
pending_row p r = record r {
  status = status_pending_confirmation;
  selected_offer_id = some p.offer_id;
  selection_expires_at = some p.deadline;
  updated_at = p.now;
}

abbrev pub select_in : Store → SelectOfferParams → Store
select_in s p =
    let s1 = update_offers s (selectable p) (selected_offer p) in
    let s2 = update_requests s1 p.request_id (pending_row p) in
    insert_request_event s2 p.request_id status_pending_confirmation role_customer none p.now

abbrev pub select_locked : SelectOfferParams → Option (Request × Store) → Ended Bool
select_locked p none = rollback (ok false)
select_locked p (some (r, s)) =
    if not (r.customer_user_id == p.customer_id) || not (status_eq r.status status_open)
    then commit (ok false) s
    else if any (selectable p) s.offers
    then commit (ok true) (select_in s p)
    else commit (ok false) s

unfoldable pub select_offer : Store → SelectOfferParams → Ended Bool
select_offer s p = select_locked p (lock_request s p.request_id p.now)

-- status = pending, selected_offer_id set and equal to the offer.
abbrev pub awaits : ℕ → Request → Bool
awaits offer_id r =
    status_eq r.status status_pending_confirmation
    && holds r.selected_offer_id (λ sel. sel == offer_id)

abbrev pub rejectable : ℕ → ℕ → Offer → Bool
rejectable offer_id provider_id o =
    o.id == offer_id && o.provider_id == provider_id && offer_status_eq o.status offer_selected

abbrev pub rejected_offer : ℤ → Offer → Offer
rejected_offer now o = record o { status = offer_rejected; updated_at = now }

abbrev pub open_row : ℤ → Request → Request
open_row now r = record r {
  status = status_open;
  selected_offer_id = none;
  selection_expires_at = none;
  updated_at = now;
}

abbrev pub reject_in : Store → Offer → ℕ → ℤ → Store
reject_in s o provider_id now =
    let s1 = update_offers s (rejectable o.id provider_id) (rejected_offer now) in
    let s2 = update_requests s1 o.request_id (open_row now) in
    insert_request_event s2 o.request_id status_open role_provider
      (some (codes "provider_declined")) now

abbrev pub reject_locked : Offer → ℕ → ℤ → Option (Request × Store) → Ended Bool
reject_locked o provider_id now none = rollback (ok false)
reject_locked o provider_id now (some (r, s)) =
    if not (awaits o.id r)
    then commit (ok false) s
    else if any (rejectable o.id provider_id) s.offers
    then commit (ok true) (reject_in s o provider_id now)
    else commit (ok false) s

abbrev pub reject_found : Store → ℕ → ℤ → Option Offer → Ended Bool
reject_found s provider_id now none = rollback (ok false)
reject_found s provider_id now (some o) =
    reject_locked o provider_id now (lock_request s o.request_id now)

unfoldable pub reject_selection : Store → ℕ → ℕ → ℤ → Ended Bool
reject_selection s offer_id provider_id now = reject_found s provider_id now (get_offer s offer_id)
