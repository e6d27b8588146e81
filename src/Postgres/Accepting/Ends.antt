-- ===== src/Postgres/Accepting/Ends.antt =====
-- The ways in which AcceptOffer ends, with what each of them has read.
use flood_now_backend.Base.{
  ◌≡◌, refl, Bool, true, false, ◌&&◌, Option, none, some, ◌∷◌, any, inl, inr, Bool-cases, ◌==◌,
  ==_iff,
}
use flood_now_backend.Base.Int.{pos, ltb_ℤ}
use flood_now_backend.Apperr.{Error, Result, ok, err}
use flood_now_backend.LocalService.Provider.{Provider, is_provider_active}
use flood_now_backend.LocalService.Request.{Request}
use flood_now_backend.LocalService.Offer.{Offer, Match}
use flood_now_backend.Postgres.Table.{find}
use flood_now_backend.Postgres.Store.{
  Store, Ended, commit, rollback, match_of_offer, get_provider, get_offer,
}
use flood_now_backend.Postgres.Requests.{lock_request}
use flood_now_backend.Postgres.Matching.{awaits}
use flood_now_backend.Postgres.Accepting.{
  AcceptOfferParams, AcceptResult, new_match, accept_in, accepted, clashes_match, charge_fee,
  insert_match, accept_with, accept_once, accept_locked, accept_found, accept_offer,
}

-- The request that the offer belongs to, locked.
pub record Locked (s : Store) (p : AcceptOfferParams) : Type 0 where
  pub offer : Offer
  pub request : Request
  pub store : Store
  pub offer_found : get_offer s p.offer_id ≡ some offer
  pub offer_own : offer.provider_id ≡ p.provider_id
  pub request_locked : lock_request s offer.request_id p.now ≡ some (request, store)

abbrev pub with_match : AcceptOfferParams → Request → Store → Store
with_match p r s = record s { matches = new_match p r ∷ s.matches }

-- A match that was made, and the store with the fee charged.
pub record Fresh (s : Store) (p : AcceptOfferParams) : Type 0 where
  pub locked : Locked s p
  pub open locked use *
  pub provider : Provider
  pub charged_store : Store
  pub did_charge : Bool
  pub no_match : find (match_of_offer p.offer_id) store.matches ≡ none
  pub selected : awaits p.offer_id request ≡ true
  pub provider_found : get_provider store p.provider_id ≡ some provider
  pub works : is_provider_active provider.status ≡ true
  pub can_pay : (p.charge && ltb_ℤ provider.credit_balance p.fee) ≡ false
  pub fee_ok : ltb_ℤ p.fee (pos 0) ≡ false
  pub no_clash : any (clashes_match p request) store.matches ≡ false
  pub charged : charge_fee (with_match p request store) p ≡ ok (did_charge, charged_store)

pub data AcceptEnds (s : Store) (p : AcceptOfferParams) : Ended AcceptResult → Type 0 where
  refused : (e : Error) → AcceptEnds s p (rollback (err e))
  stale : (l : Locked s p) (e : Error) → AcceptEnds s p (commit (err e) l.store)
  again :
      (l : Locked s p) (m : Match)
      → find (match_of_offer p.offer_id) l.store.matches ≡ some m
      → AcceptEnds s p (commit (ok (record { match_made = m; already_accepted = true })) l.store)
  fresh :
      (f : Fresh s p)
      → AcceptEnds s p (
          commit
            (ok (record { match_made = new_match p f.request; already_accepted = false }))
            (accept_in f.charged_store p f.request))

module _ (s : Store) (p : AcceptOfferParams) where
  charge-ends :
      (l : Locked s p) (q : Provider)
      → find (match_of_offer p.offer_id) l.store.matches ≡ none
      → awaits p.offer_id l.request ≡ true
      → get_provider l.store p.provider_id ≡ some q
      → is_provider_active q.status ≡ true
      → (p.charge && ltb_ℤ q.credit_balance p.fee) ≡ false
      → ltb_ℤ p.fee (pos 0) ≡ false
      → any (clashes_match p l.request) l.store.matches ≡ false
      → (c : Result (Bool × Store)) → charge_fee (with_match p l.request l.store) p ≡ c
      → AcceptEnds s p (accepted p l.request c)
  charge-ends l q h1 h2 h3 h4 h5 h6 h7 (err e) h8 = refused e
  charge-ends l q h1 h2 h3 h4 h5 h6 h7 (ok (done, s3)) h8 = fresh (record {
    locked = l;
    provider = q;
    charged_store = s3;
    did_charge = done;
    no_match = h1;
    selected = h2;
    provider_found = h3;
    works = h4;
    can_pay = h5;
    fee_ok = h6;
    no_clash = h7;
    charged = h8;
  })

  insert_match-ends :
      (l : Locked s p) (q : Provider)
      → find (match_of_offer p.offer_id) l.store.matches ≡ none
      → awaits p.offer_id l.request ≡ true
      → get_provider l.store p.provider_id ≡ some q
      → is_provider_active q.status ≡ true
      → (p.charge && ltb_ℤ q.credit_balance p.fee) ≡ false
      → AcceptEnds s p (insert_match l.store p l.request)
  unfolding insert_match
  insert_match-ends l q h1 h2 h3 h4 h5 = elim (Bool-cases (ltb_ℤ p.fee (pos 0))) [
    | inl negative ↦ rw negative (refused _)
    | inr h6 ↦ elim (Bool-cases (any (clashes_match p l.request) l.store.matches)) [
      | inl clash ↦ rw (h6, clash) (refused _)
      | inr h7 ↦ rw (h6, h7) (charge-ends l q h1 h2 h3 h4 h5 h6 h7 _ refl)
    ]
  ]

  accept_with-ends :
      (l : Locked s p)
      → find (match_of_offer p.offer_id) l.store.matches ≡ none
      → awaits p.offer_id l.request ≡ true
      → (q : Option Provider) → get_provider l.store p.provider_id ≡ q
      → AcceptEnds s p (accept_with l.store p l.request q)
  accept_with-ends l h1 h2 none h3 = refused _
  accept_with-ends l h1 h2 (some q) h3 = elim (Bool-cases (is_provider_active q.status)) [
    | inr suspended ↦ rw suspended (refused _)
    | inl h4 ↦ elim (Bool-cases (p.charge && ltb_ℤ q.credit_balance p.fee)) [
      | inl short ↦ rw (h4, short) (refused _)
      | inr h5 ↦ rw (h4, h5) (insert_match-ends l q h1 h2 h3 h4 h5)
    ]
  ]

  accept_once-ends :
      (l : Locked s p) (m : Option Match)
      → find (match_of_offer p.offer_id) l.store.matches ≡ m
      → AcceptEnds s p (accept_once l.store p l.request m)
  accept_once-ends l (some m) h1 = again l m h1
  accept_once-ends l none h1 = elim (Bool-cases (awaits p.offer_id l.request)) [
    | inl h2 ↦ rw h2 (accept_with-ends l h1 h2 _ refl)
    | inr gone ↦ rw gone (stale l _)
  ]

  accept_locked-ends :
      (o : Offer)
      → get_offer s p.offer_id ≡ some o
      → o.provider_id ≡ p.provider_id
      → (k : Option (Request × Store)) → lock_request s o.request_id p.now ≡ k
      → AcceptEnds s p (accept_locked p k)
  accept_locked-ends o h1 h2 none h3 = refused _
  accept_locked-ends o h1 h2 (some (r, s1)) h3 =
      accept_once-ends
        (record {
          offer = o;
          request = r;
          store = s1;
          offer_found = h1;
          offer_own = h2;
          request_locked = h3;
        })
        _ refl

  accept_found-ends :
      (o : Option Offer) → get_offer s p.offer_id ≡ o → AcceptEnds s p (accept_found s p o)
  accept_found-ends none h = refused _
  accept_found-ends (some o) h = elim (Bool-cases (o.provider_id == p.provider_id)) [
    | inl own ↦ rw own (accept_locked-ends o h ((==_iff o.provider_id p.provider_id).0 own) _ refl)
    | inr other ↦ rw other (refused _)
  ]

  pub accept_offer-ends : AcceptEnds s p (accept_offer s p)
  unfolding accept_offer
  accept_offer-ends = accept_found-ends _ refl
