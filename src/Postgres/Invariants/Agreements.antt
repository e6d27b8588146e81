-- ===== src/Postgres/Invariants/Agreements.antt =====
-- The lifecycle of each request, over the writes up to the acceptance of an offer.
use flood_now_backend.Base.{
  ℕ, ◌≡◌, refl, ap, not, ◌||◌, Option, none, some, arith, any, ◌==◌, Bool-cases, inl, inr,
}
use flood_now_backend.Base.Int.{ℤ}
use flood_now_backend.LocalService.Request.{
  status_open, status_pending_confirmation, Request, status_eq, takes_offers,
}
use flood_now_backend.LocalService.Lifecycle.{status_eq_sound}
use flood_now_backend.LocalService.Steps.{chosen, reopened, confirmed}
use flood_now_backend.LocalService.Offer.{offer_pending, offer_status_eq, Offer}
use flood_now_backend.Postgres.Table.{find, update_where}
use flood_now_backend.Postgres.Store.{offer_is, Store, Ended, store_after, request_is}
use flood_now_backend.Postgres.Requests.{lock_request, upsert_locked, upsert_row, same_offer_pair}
use flood_now_backend.Postgres.Requests.Ends.{lock_request-found, found_by_own_id}
use flood_now_backend.Postgres.Matching.{
  SelectOfferParams, selectable, select_in, select_locked, pending_row, awaits, reject_locked,
  reject_found, rejectable, reject_in, open_row,
}
use flood_now_backend.Postgres.Accepting.{AcceptOfferParams, AcceptResult, accept_in, matched_row}
use flood_now_backend.Postgres.Accepting.Ends.{AcceptEnds, refused, stale, again, fresh, with_match}
use flood_now_backend.Postgres.Others.{charge_fee-others}
use flood_now_backend.Postgres.Invariants.Lifecycles.{
  Follows, Follows-same, Locks, Locks-then, Locks-Follows, Step-MovesOnce, equal-Step,
  lock_request-Locks,
}

pub select_locked-Follows :
    (s : Store) (p : SelectOfferParams) (k : Option (Request × Store))
    → lock_request s p.request_id p.now ≡ k
    → Follows s (store_after s (select_locked p k))
select_locked-Follows s p none h = Follows-same s s refl
select_locked-Follows s p (some (r, s1)) h =
    let locked = lock_request-Locks s p.request_id p.now h in
    elim (Bool-cases
      (not (r.customer_user_id == p.customer_id) || not (status_eq r.status status_open))) [
        | inl barred ↦ rw barred (Locks-Follows s s1 locked)
        | inr ours ↦ elim (Bool-cases (any (selectable p) s1.offers)) [
          | inr none_left ↦ rw (ours, none_left) (Locks-Follows s s1 locked)
          | inl picked ↦
              rw (ours, picked)
                (Locks-then s s1 (select_in s1 p) locked (
                  Step-MovesOnce s1 (select_in s1 p) p.request_id r (pending_row p) (λ x. refl)
                    (lock_request-found s p.request_id p.now h)
                    (equal-Step (status_eq_sound r.status status_open (ground (arith, ours)))
                      chosen)
                    refl))
        ]
      ]

reject_locked-Follows :
    (s : Store) (o : Offer) (provider_id : ℕ) (now : ℤ) (k : Option (Request × Store))
    → lock_request s o.request_id now ≡ k
    → Follows s (store_after s (reject_locked o provider_id now k))
reject_locked-Follows s o provider_id now none h = Follows-same s s refl
reject_locked-Follows s o provider_id now (some (r, s1)) h =
    let locked = lock_request-Locks s o.request_id now h in
    elim (Bool-cases (awaits o.id r)) [
      | inr gone ↦ rw gone (Locks-Follows s s1 locked)
      | inl waiting ↦ elim (Bool-cases (any (rejectable o.id provider_id) s1.offers)) [
        | inr none_left ↦ rw (waiting, none_left) (Locks-Follows s s1 locked)
        | inl declined ↦
            rw (waiting, declined)
              (Locks-then s s1 (reject_in s1 o provider_id now) locked (
                Step-MovesOnce s1 (reject_in s1 o provider_id now) o.request_id r (open_row now)
                  (λ x. refl) (lock_request-found s o.request_id now h)
                  (equal-Step
                    (status_eq_sound r.status status_pending_confirmation (ground (arith, waiting)))
                    reopened)
                  refl))
      ]
    ]

pub reject_found-Follows :
    (s : Store) (provider_id : ℕ) (now : ℤ) (o : Option Offer)
    → Follows s (store_after s (reject_found s provider_id now o))
reject_found-Follows s provider_id now none = Follows-same s s refl
reject_found-Follows s provider_id now (some o) = reject_locked-Follows s o provider_id now _ refl

upsert_row-Follows :
    (s s1 : Store) (o : Offer) (now : ℤ) (q : Option Offer)
    → Locks s s1
    → Follows s (store_after s (upsert_row s1 o now q))
upsert_row-Follows s s1 o now none h = elim (Bool-cases (any (offer_is o.id) s1.offers)) [
  | inl taken ↦ rw taken (Follows-same s s refl)
  | inr new ↦ rw new (Locks-Follows s s1 h)
]
upsert_row-Follows s s1 o now (some q) h =
    elim (Bool-cases (offer_status_eq q.status offer_pending)) [
      | inl editable ↦ rw editable (Locks-Follows s s1 h)
      | inr fixed ↦ rw fixed (Follows-same s s refl)
    ]

pub upsert_locked-Follows :
    (s : Store) (o : Offer) (now : ℤ) (k : Option (Request × Store))
    → lock_request s o.request_id now ≡ k
    → Follows s (store_after s (upsert_locked o now k))
upsert_locked-Follows s o now none h = Follows-same s s refl
upsert_locked-Follows s o now (some (r, s1)) h =
    let locked = lock_request-Locks s o.request_id now h in
    elim (Bool-cases (takes_offers r.status)) [
      | inl takes ↦
          rw takes (upsert_row-Follows s s1 o now (find (same_offer_pair o) s1.offers) locked)
      | inr over ↦ rw over (Locks-Follows s s1 locked)
    ]

pub AcceptEnds-Follows :
    (s : Store) (p : AcceptOfferParams) {e : Ended AcceptResult}
    → AcceptEnds s p e
    → Follows s (store_after s e)
AcceptEnds-Follows s p (refused e) = Follows-same s s refl
AcceptEnds-Follows s p (stale l e) =
    Locks-Follows s l.store (lock_request-Locks s l.offer.request_id p.now l.request_locked)
AcceptEnds-Follows s p (again l m h) =
    Locks-Follows s l.store (lock_request-Locks s l.offer.request_id p.now l.request_locked)
AcceptEnds-Follows s p (fresh f) =
    Locks-then s f.store (accept_in f.charged_store p f.request)
      (lock_request-Locks s f.offer.request_id p.now f.request_locked)
      (Step-MovesOnce f.store (accept_in f.charged_store p f.request) f.request.id f.request
        (matched_row p) (λ x. refl)
        (found_by_own_id f.store.requests f.offer.request_id
          (lock_request-found s f.offer.request_id p.now f.request_locked))
        (equal-Step
          (status_eq_sound f.request.status status_pending_confirmation
            (ground (arith, f.selected)))
          confirmed)
        (ap (λ o. update_where (request_is f.request.id) (matched_row p) o.0)
          (charge_fee-others (with_match p f.request f.store) p f.charged)))
