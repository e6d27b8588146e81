-- ===== src/Postgres/Acceptance.antt =====
-- AcceptOffer that is sent again after it made the match.
use mathlib.Core.Path.{subst}
use flood_now_backend.Base.{
  ℕ, ◌≡◌, refl, sym, ap, ◌∙◌, Bool, true, false, Option, none, some, List, arith, ==_refl,
  Bool-cases, inl, inr,
}
use flood_now_backend.Base.Int.{ℤ}
use flood_now_backend.Apperr.{Result, ok, err}
use flood_now_backend.LocalService.Request.{Request, status_eq, status_pending_confirmation}
use flood_now_backend.LocalService.Offer.{Offer, Match}
use flood_now_backend.Postgres.Table.{
  find, update_where, change, find-update_where, find-update_key, find_sound,
}
use flood_now_backend.Postgres.Store.{
  Store, Ended, commit, result_of, store_after, get_offer, get_request, match_of_offer, offer_is,
  request_is,
}
use flood_now_backend.Postgres.Requests.{normalize, lock_request, expire_selected}
use flood_now_backend.Postgres.Requests.Ends.{
  LockEnds, current, caught_up, lock_request-ends, lock_request-found, found_by_own_id,
}
use flood_now_backend.Postgres.Accepting.{
  AcceptOfferParams, AcceptResult, new_match, accept_in, accepted_offer, matched_row, accept_found,
  accept_locked, accept_offer,
}
use flood_now_backend.Postgres.Accepting.Ends.{
  AcceptEnds, Fresh, refused, stale, again, fresh, with_match, accept_offer-ends,
}
use flood_now_backend.Postgres.Frames.{purse, Fresh-matches, locked-purse}
use flood_now_backend.Postgres.Others.{charge_fee-others}
use flood_now_backend.Postgres.Fee.{made, accept_offer-idle}

-- The result of an AcceptOffer whose match is there.
abbrev pub known : Match → Result AcceptResult
known m = ok (record { match_made = m; already_accepted = true })

module _ (t : Store) (q : AcceptOfferParams) (m : Match)
    (there : find (match_of_offer q.offer_id) t.matches ≡ some m) where
  accept_locked-known :
      (id : ℕ) (k : Request × Store)
      → lock_request t id q.now ≡ some k
      → result_of (accept_locked q (some k)) ≡ known m
  accept_locked-known id (r, u) h = rw (ap (λ x. x.3) (locked-purse t id q.now h), there)

  accept_found-known :
      (o : Offer) (r : Request)
      → get_request t o.request_id ≡ some r
      → o.provider_id ≡ q.provider_id
      → result_of (accept_found t q (some o)) ≡ known m
  unfolding lock_request
  accept_found-known o r found own =
      rw (own, ==_refl q.provider_id, found)
        (accept_locked-known o.request_id (normalize t r q.now) (rw found))

  accept_offer-known :
      (o : Offer) (r : Request)
      → get_offer t q.offer_id ≡ some o
      → get_request t o.request_id ≡ some r
      → o.provider_id ≡ q.provider_id
      → result_of (accept_offer t q) ≡ known m
  unfolding accept_offer
  accept_offer-known o r offer_there found own = rw offer_there (accept_found-known o r found own)

-- The row of an offer stays, with its provider and its request.
abbrev Stays : ℕ → Offer → List Offer → Type 0
Stays k o os =
    (x : Offer) × (find (offer_is k) os ≡ some x)
    × (x.provider_id ≡ o.provider_id)
    × (x.request_id ≡ o.request_id)

updated-Stays :
    (p : Offer → Bool) (f : Offer → Offer) (os : List Offer) (k : ℕ) (o x : Offer)
    → ((y : Offer) → (f y).id ≡ y.id)
    → ((y : Offer) → (f y).provider_id ≡ y.provider_id)
    → ((y : Offer) → (f y).request_id ≡ y.request_id)
    → find (offer_is k) os ≡ some x
    → x.provider_id ≡ o.provider_id
    → x.request_id ≡ o.request_id
    → Stays k o (update_where p f os)
updated-Stays p f os k o x same_id same_provider same_request found h1 h2 = (
  change p f x,
  rw (find-update_where (offer_is k) p f os (λ y. rw (same_id y)), found),
  ground (arith, same_provider x, h1),
  ground (arith, same_request x, h2),
)

selected-Stays :
    (s : Store) (sel : Option ℕ) (now : ℤ) (k : ℕ) (o : Offer)
    → find (offer_is k) s.offers ≡ some o
    → Stays k o (expire_selected s sel now).offers
selected-Stays s none now k o h = (o, h, refl, refl)
selected-Stays s (some id) now k o h =
    updated-Stays _ _ s.offers k o o (λ y. refl) (λ y. refl) (λ y. refl) h refl refl

LockEnds-Stays :
    (s : Store) (id : ℕ) (now : ℤ) {r : Request} {t : Store} (k : ℕ) (o : Offer)
    → LockEnds s id now r t
    → find (offer_is k) s.offers ≡ some o
    → Stays k o t.offers
LockEnds-Stays s id now k o (current r found same) h = (o, h, refl, refl)
LockEnds-Stays s id now k o (caught_up r found differs) h =
    elim (Bool-cases (status_eq r.status status_pending_confirmation)) [
      | inl waiting ↦ rw waiting (selected-Stays s r.selected_offer_id now k o h)
      | inr other ↦ rw other (o, h, refl, refl)
    ]

module _ (s : Store) (p q : AcceptOfferParams) (f : Fresh s p)
    (same_offer : q.offer_id ≡ p.offer_id) (same_provider : q.provider_id ≡ p.provider_id) where
  abbrev after : Store
  after = accept_in f.charged_store p f.request

  offer-Stays : Stays p.offer_id f.offer after.offers
  unfolding get_offer
  offer-Stays =
      let kept =
        LockEnds-Stays s f.offer.request_id p.now p.offer_id f.offer
          (lock_request-ends s f.offer.request_id p.now f.request_locked) f.offer_found in
      subst
        (λ os. Stays p.offer_id f.offer (update_where (offer_is p.offer_id) (accepted_offer p) os))
        (sym (ap (λ o. o.3) (charge_fee-others (with_match p f.request f.store) p f.charged)))
        (updated-Stays _ _ f.store.offers p.offer_id f.offer kept.0 (λ y. refl) (λ y. refl)
          (λ y. refl) kept.1 kept.2 kept.3)

  request_stays :
      find (request_is f.offer.request_id) after.requests ≡ some (matched_row p f.request)
  request_stays =
      let locked = lock_request-found s f.offer.request_id p.now f.request_locked in
      rw (
        ap (λ o. o.0) (charge_fee-others (with_match p f.request f.store) p f.charged),
        find-update_key (λ (x : Request). x.id) (matched_row p) f.store.requests f.request.id
            f.request (λ x. refl) (found_by_own_id f.store.requests f.offer.request_id locked)
            f.offer.request_id,
        find_sound (request_is f.offer.request_id) f.store.requests locked,
      )

  match_there : find (match_of_offer q.offer_id) after.matches ≡ some (new_match p f.request)
  unfolding find
  match_there = rw (same_offer, Fresh-matches s p f, ==_refl p.offer_id)

  fresh-again : result_of (accept_offer after q) ≡ known (new_match p f.request)
  unfolding get_offer get_request
  fresh-again =
      let kept = offer-Stays in
      accept_offer-known after q (new_match p f.request) match_there kept.0
        (matched_row p f.request)
        (subst (λ k. find (offer_is k) after.offers ≡ some kept.0) (sym same_offer) kept.1)
        (subst (λ k. find (request_is k) after.requests ≡ some (matched_row p f.request))
          (sym kept.3) request_stays)
        (kept.2 ∙ f.offer_own ∙ sym same_provider)

abbrev match_of : Match → Result AcceptResult → Match
match_of m (ok a) = a.match_made
match_of m (err e) = m

AcceptEnds-again :
    (s t : Store) (p q : AcceptOfferParams) (a : AcceptResult) {e : Ended AcceptResult}
    → q.offer_id ≡ p.offer_id
    → q.provider_id ≡ p.provider_id
    → a.already_accepted ≡ false
    → AcceptEnds s p e
    → e ≡ commit (ok a) t
    → result_of (accept_offer t q) ≡ known a.match_made
AcceptEnds-again s t p q a h1 h2 new (refused x) h = absurd (cc h)
AcceptEnds-again s t p q a h1 h2 new (stale l x) h = absurd (cc h)
AcceptEnds-again s t p q a h1 h2 new (again l m k) h = absurd (cc (h, new))
AcceptEnds-again s t p q a h1 h2 new (fresh f) h =
    subst (λ u. result_of (accept_offer u q) ≡ known a.match_made) (ap (store_after s) h)
      (fresh-again s p q f h1 h2 ∙ ap (λ x. known (match_of a.match_made (result_of x))) h)

-- An AcceptOffer that made a match, sent again with its offer and provider and whatever match id,
-- fee and time, answers with the match that was made, and charges and changes no money.
pub accept_offer-again :
    (s t : Store) (p q : AcceptOfferParams) (a : AcceptResult)
    → q.offer_id ≡ p.offer_id
    → q.provider_id ≡ p.provider_id
    → a.already_accepted ≡ false
    → accept_offer s p ≡ commit (ok a) t
    → (result_of (accept_offer t q) ≡ known a.match_made)
      × (purse (store_after t (accept_offer t q)) ≡ purse t)
accept_offer-again s t p q a h1 h2 new h =
    let answer = AcceptEnds-again s t p q a h1 h2 new (accept_offer-ends s p) h in
    (answer, accept_offer-idle t q (ap made answer))
