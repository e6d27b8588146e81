-- ===== src/Postgres/Invariants/Active/Offers.antt =====
-- One active match for each matched request, over the writes up to the acceptance of an offer.
use flood_now_backend.Base.{
  ℕ, ◌≡◌, refl, ap, not, ◌||◌, Option, none, some, arith, any, ◌==◌, Bool-cases, inl, inr,
}
use flood_now_backend.Base.Int.{ℤ}
use flood_now_backend.LocalService.Request.{
  status_open, Request, status_eq, is_matched, takes_offers,
}
use flood_now_backend.LocalService.Offer.{offer_pending, offer_status_eq, Offer}
use flood_now_backend.Postgres.Table.{find, update_where}
use flood_now_backend.Postgres.Store.{offer_is, Store, Ended, store_after, request_is}
use flood_now_backend.Postgres.Requests.{lock_request, upsert_locked, upsert_row, same_offer_pair}
use flood_now_backend.Postgres.Requests.Ends.{lock_request-found, found_by_own_id}
use flood_now_backend.Postgres.Matching.{
  SelectOfferParams, selectable, select_in, select_locked, select_offer, awaits, reject_locked,
  reject_found, rejectable, reject_in,
}
use flood_now_backend.Postgres.Accepting.{
  AcceptOfferParams, AcceptResult, new_match, accept_in, matched_row,
}
use flood_now_backend.Postgres.Accepting.Ends.{AcceptEnds, refused, stale, again, fresh, with_match}
use flood_now_backend.Postgres.Others.{charge_fee-others}
use flood_now_backend.Postgres.Invariants.Active.{
  OneActive, lock_request-OneActive, keeps-OneActive, gains-OneActive,
}

select_locked-OneActive :
    (s : Store) (p : SelectOfferParams) (k : Option (Request × Store))
    → lock_request s p.request_id p.now ≡ k
    → OneActive s
    → OneActive (store_after s (select_locked p k))
unfolding is_matched
select_locked-OneActive s p none h a = a
select_locked-OneActive s p (some (r, s1)) h a =
    let a1 = lock_request-OneActive s p.request_id p.now h a in
    elim (Bool-cases
      (not (r.customer_user_id == p.customer_id) || not (status_eq r.status status_open))) [
        | inl barred ↦ rw barred a1
        | inr ours ↦ elim (Bool-cases (any (selectable p) s1.offers)) [
          | inr none_left ↦ rw (ours, none_left) a1
          | inl chosen ↦
              rw (ours, chosen)
                (keeps-OneActive s1 p.request_id r _ (λ x. refl)
                  (lock_request-found s p.request_id p.now h) a1 s1.matches (λ j. refl)
                  (ground arith) (select_in s1 p) refl refl)
        ]
      ]

pub select_offer-OneActive :
    (s : Store) (p : SelectOfferParams) → OneActive s → OneActive (store_after s (select_offer s p))
unfolding select_offer
select_offer-OneActive s p a = select_locked-OneActive s p _ refl a

reject_locked-OneActive :
    (s : Store) (o : Offer) (provider_id : ℕ) (now : ℤ) (k : Option (Request × Store))
    → lock_request s o.request_id now ≡ k
    → OneActive s
    → OneActive (store_after s (reject_locked o provider_id now k))
unfolding is_matched
reject_locked-OneActive s o provider_id now none h a = a
reject_locked-OneActive s o provider_id now (some (r, s1)) h a =
    let a1 = lock_request-OneActive s o.request_id now h a in
    elim (Bool-cases (awaits o.id r)) [
      | inr gone ↦ rw gone a1
      | inl waiting ↦ elim (Bool-cases (any (rejectable o.id provider_id) s1.offers)) [
        | inr none_left ↦ rw (waiting, none_left) a1
        | inl declined ↦
            rw (waiting, declined)
              (keeps-OneActive s1 o.request_id r _ (λ x. refl)
                (lock_request-found s o.request_id now h) a1 s1.matches (λ j. refl) (ground arith)
                (reject_in s1 o provider_id now) refl refl)
      ]
    ]

pub reject_found-OneActive :
    (s : Store) (provider_id : ℕ) (now : ℤ) (o : Option Offer)
    → OneActive s
    → OneActive (store_after s (reject_found s provider_id now o))
reject_found-OneActive s provider_id now none a = a
reject_found-OneActive s provider_id now (some o) a =
    reject_locked-OneActive s o provider_id now _ refl a

upsert_row-OneActive :
    (s s1 : Store) (o : Offer) (now : ℤ) (q : Option Offer)
    → OneActive s
    → OneActive s1
    → OneActive (store_after s (upsert_row s1 o now q))
upsert_row-OneActive s s1 o now none a a1 = elim (Bool-cases (any (offer_is o.id) s1.offers)) [
  | inl taken ↦ rw taken a
  | inr new ↦ rw new a1
]
upsert_row-OneActive s s1 o now (some q) a a1 =
    elim (Bool-cases (offer_status_eq q.status offer_pending)) [
      | inl editable ↦ rw editable a1
      | inr fixed ↦ rw fixed a
    ]

pub upsert_locked-OneActive :
    (s : Store) (o : Offer) (now : ℤ) (k : Option (Request × Store))
    → lock_request s o.request_id now ≡ k
    → OneActive s
    → OneActive (store_after s (upsert_locked o now k))
upsert_locked-OneActive s o now none h a = a
upsert_locked-OneActive s o now (some (r, s1)) h a =
    let a1 = lock_request-OneActive s o.request_id now h a in
    elim (Bool-cases (takes_offers r.status)) [
      | inl takes ↦
          rw takes (upsert_row-OneActive s s1 o now (find (same_offer_pair o) s1.offers) a a1)
      | inr over ↦ rw over a1
    ]

pub AcceptEnds-OneActive :
    (s : Store) (p : AcceptOfferParams) {e : Ended AcceptResult}
    → AcceptEnds s p e
    → OneActive s
    → OneActive (store_after s e)
unfolding is_matched
AcceptEnds-OneActive s p (refused e) a = a
AcceptEnds-OneActive s p (stale l e) a =
    lock_request-OneActive s l.offer.request_id p.now l.request_locked a
AcceptEnds-OneActive s p (again l m h) a =
    lock_request-OneActive s l.offer.request_id p.now l.request_locked a
AcceptEnds-OneActive s p (fresh f) a =
    let rest = charge_fee-others (with_match p f.request f.store) p f.charged in
    gains-OneActive f.store f.request.id f.request (matched_row p) (λ x. refl)
      (found_by_own_id f.store.requests f.offer.request_id
        (lock_request-found s f.offer.request_id p.now f.request_locked))
      (lock_request-OneActive s f.offer.request_id p.now f.request_locked a) (new_match p f.request)
      refl refl (ground (arith, f.selected)) refl (accept_in f.charged_store p f.request)
      (ap (λ o. update_where (request_is f.request.id) (matched_row p) o.0) rest)
      (ap (λ o. o.4) rest)
