-- ===== src/Postgres/Requests.antt =====
-- Requests and offers of localservice_repository.go: CreateRequest, FindRequestByClientID,
-- CountOpenRequests, DismissRequest, lockRequest, UpsertOffer, CreateIssue.
pub mod Ends
use flood_now_backend.Base.{
  ℕ, Bool, true, false, ◌&&◌, ◌||◌, Option, none, some, ◌∷◌, any, count_by, ◌==◌, if◌then◌else◌,
}
use flood_now_backend.Base.Int.{ℤ, ltb_ℤ}
use flood_now_backend.Base.Text.{Text, codes, text_eq}
use flood_now_backend.Apperr.{conflict, database, ok, err}
use flood_now_backend.LocalService.Request.{
  Status, status_pending_confirmation, status_expired, status_eq, is_matched, takes_offers,
  role_customer, role_system, Request, effective,
}
use flood_now_backend.LocalService.Offer.{
  Offer, offer_pending, offer_selected, offer_expired, offer_status_eq, Issue,
}
use flood_now_backend.Postgres.Table.{find, update_where}
use flood_now_backend.Postgres.Store.{
  Store, Ended, commit, rollback, request_is, offer_is, get_request, insert_request_event,
}

abbrev pub same_client_id : Option Text → Option Text → Bool
same_client_id (some a) (some b) = text_eq a b
same_client_id (some a) none = false
same_client_id none b = false

-- A unique constraint of service_requests: the id, or the customer with a client id.
abbrev pub clashes_request : Request → Request → Bool
clashes_request r q =
    q.id == r.id
    || (q.customer_user_id == r.customer_user_id && same_client_id q.client_id r.client_id)

-- The columns that the INSERT leaves to their defaults.
abbrev pub inserted_request : Request → Request
inserted_request r = record r {
  selected_offer_id = none;
  selection_expires_at = none;
  cancel_reason = none;
  updated_at = r.created_at;
  closed_at = none;
}

unfoldable pub create_request : Store → Request → Ended (Unit {0})
unfolding text_eq
create_request s r =
    if any (clashes_request r) s.requests
    then rollback (err (conflict "this request was already sent"))
    else commit (ok tt) (
        insert_request_event (record s { requests = inserted_request r ∷ s.requests }) r.id r.status
          role_customer none r.created_at)

unfoldable pub find_request_by_client_id : Store → ℕ → Text → Option Request
find_request_by_client_id s customer client_id =
    find (λ q. q.customer_user_id == customer && same_client_id q.client_id (some client_id))
      s.requests

abbrev pub counts_as_open : ℕ → ℤ → Request → Bool
counts_as_open customer now r =
    r.customer_user_id == customer
    && ((takes_offers r.status && ltb_ℤ now r.expires_at) || is_matched r.status)

unfoldable pub count_open_requests : Store → ℕ → ℤ → ℕ
unfolding takes_offers is_matched
count_open_requests s customer now = count_by (counts_as_open customer now) s.requests

-- INSERT … ON CONFLICT DO NOTHING.
unfoldable pub dismiss_request : Store → ℕ → ℕ → Store
dismiss_request s request_id provider_id =
    if any (λ (d : ℕ × ℕ). d.0 == request_id && d.1 == provider_id) s.dismissals
    then s
    else record s { dismissals = (request_id, provider_id) ∷ s.dismissals }

unfoldable pub create_issue : Store → Issue → Store
create_issue s i = record s { issues = i ∷ s.issues }

abbrev pub update_offers : Store → (Offer → Bool) → (Offer → Offer) → Store
update_offers s p f = record s { offers = update_where p f s.offers }

-- UPDATE service_offers SET status = 'expired' WHERE id = … AND status = 'selected'.
abbrev pub expire_selection : Store → ℕ → ℤ → Store
expire_selection s offer_id now =
    update_offers s (λ o. o.id == offer_id && offer_status_eq o.status offer_selected)
      (λ o. record o { status = offer_expired; updated_at = now })

abbrev pub expire_selected : Store → Option ℕ → ℤ → Store
expire_selected s none now = s
expire_selected s (some offer_id) now = expire_selection s offer_id now

-- lockRequest: what a stale row becomes, in the table and in the value returned.
abbrev pub normalized : Status → ℤ → Request → Request
normalized eff now r = record r {
  status = eff;
  selected_offer_id = none;
  selection_expires_at = none;
  closed_at = if status_eq eff status_expired then some now else none;
  updated_at = now;
}

abbrev pub normalize_store : Store → Request → Status → ℤ → Store
normalize_store s r eff now =
    insert_request_event
      (record s {
        offers =
            if status_eq r.status status_pending_confirmation
            then (expire_selected s r.selected_offer_id now).offers
            else s.offers;
        requests = update_where (request_is r.id) (normalized eff now) s.requests;
      })
      r.id eff role_system
      (some (codes (if status_eq eff status_expired then "expired" else "selection_timeout"))) now

unfoldable pub normalize : Store → Request → ℤ → Request × Store
unfolding effective
normalize s r now =
    if status_eq (effective r now) r.status
    then (r, s)
    else (normalized (effective r now) now r, normalize_store s r (effective r now) now)

abbrev pub lock_found : Store → ℤ → Option Request → Option (Request × Store)
lock_found s now none = none
lock_found s now (some r) = some (normalize s r now)

unfoldable pub lock_request : Store → ℕ → ℤ → Option (Request × Store)
lock_request s id now = lock_found s now (get_request s id)

abbrev pub same_offer_pair : Offer → Offer → Bool
same_offer_pair o q = q.request_id == o.request_id && q.provider_id == o.provider_id

-- The upsert on (request_id, provider_id): an INSERT, or an UPDATE of a pending offer.
abbrev pub edited_offer : Offer → ℤ → Offer → Offer
edited_offer o now q = record q {
  price_thb = o.price_thb;
  eta_minutes = o.eta_minutes;
  note = o.note;
  updated_at = now;
}

abbrev pub upsert_row : Store → Offer → ℤ → Option Offer → Ended (Bool × Offer)
upsert_row s o now none =
    let row = record o { status = offer_pending; created_at = now; updated_at = now } in
    if any (offer_is o.id) s.offers
    then rollback (err (database "upsert offer"))
    else commit (ok (true, record o { created_at = now })) (record s { offers = row ∷ s.offers })
upsert_row s o now (some q) =
    if offer_status_eq q.status offer_pending
    then commit (ok (true, record o { id = q.id; created_at = q.created_at }))
        (update_offers s (same_offer_pair o) (edited_offer o now))
    else rollback (ok (false, o))

abbrev pub upsert_locked : Offer → ℤ → Option (Request × Store) → Ended (Bool × Offer)
upsert_locked o now none = rollback (ok (false, o))
upsert_locked o now (some (r, s)) =
    if takes_offers r.status
    then upsert_row s o now (find (same_offer_pair o) s.offers)
    else commit (ok (false, o)) s

unfoldable pub upsert_offer : Store → Offer → ℤ → Ended (Bool × Offer)
upsert_offer s o now = upsert_locked o now (lock_request s o.request_id now)
