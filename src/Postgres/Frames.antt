-- ===== src/Postgres/Frames.antt =====
-- What each transaction leaves alone: the providers' rows and the ledger, the top-ups, the matches.
use flood_now_backend.Base.{◌∷◌, ℕ, ◌≡◌, refl, sym, ap, ◌∙◌, Bool, Option, none, some, List, arith}
use flood_now_backend.Base.Int.{ℤ}
use flood_now_backend.LocalService.Provider.{Provider}
use flood_now_backend.LocalService.Request.{Request}
use flood_now_backend.LocalService.Offer.{Offer, Match}
use flood_now_backend.LocalService.Wallet.{Transaction, Topup}
use flood_now_backend.Postgres.Store.{Store, Ended, store_after, get_request, get_offer}
use flood_now_backend.Postgres.Requests.{
  create_request, normalize, lock_found, lock_request, upsert_offer, dismiss_request,
}
use flood_now_backend.Postgres.Matching.{
  SelectOfferParams, select_offer, reject_found, reject_selection,
}
use flood_now_backend.Postgres.Accepting.{
  AcceptOfferParams, AcceptResult, accept_in, new_match, accept_offer,
}
use flood_now_backend.Postgres.Accepting.Ends.{
  AcceptEnds, Fresh, refused, stale, again, fresh, with_match, accept_offer-ends,
}
use flood_now_backend.Postgres.Topups.{create_topup}
use flood_now_backend.Postgres.Jobs.Ends.{
  CancelEnds, nothing, unpaid, changed, plain, repaid, cancel-ends,
}
use flood_now_backend.Postgres.Jobs.{JobTransition, transition_job, CancelParams, cancel_in, cancel}
use flood_now_backend.Postgres.Others.{charge_fee-others, apply_ledger-others}

abbrev pub money : Store → List Provider × List Transaction
money s = (s.providers, s.ledger)

-- The store of a locked request, or the old one.
abbrev pub locked_store : Store → Option (Request × Store) → Store
locked_store s none = s
locked_store s (some (r, s')) = s'

-- The money with the top-ups and the matches; `till` without the matches.
abbrev pub purse : Store → List Provider × List Transaction × List Topup × List Match
purse s = (s.providers, s.ledger, s.topups, s.matches)

abbrev pub till : Store → List Provider × List Transaction × List Topup
till s = (s.providers, s.ledger, s.topups)

pub normalize-purse : (s : Store) (r : Request) (now : ℤ) → purse (normalize s r now).1 ≡ purse s
unfolding normalize
normalize-purse s r now = ground arith

pub lock_found-purse :
    (s : Store) (now : ℤ) (o : Option Request)
    → purse (locked_store s (lock_found s now o)) ≡ purse s
lock_found-purse s now none = refl
lock_found-purse s now (some r) = normalize-purse s r now

pub lock_request-purse :
    (s : Store) (id : ℕ) (now : ℤ) → purse (locked_store s (lock_request s id now)) ≡ purse s
unfolding lock_request
lock_request-purse s id now = lock_found-purse s now (get_request s id)

pub select_offer-purse :
    (s : Store) (p : SelectOfferParams) → purse (store_after s (select_offer s p)) ≡ purse s
unfolding select_offer
select_offer-purse s p = ground (arith, lock_request-purse s p.request_id p.now)

pub reject_found-purse :
    (s : Store) (provider_id : ℕ) (now : ℤ) (o : Option Offer)
    → purse (store_after s (reject_found s provider_id now o)) ≡ purse s
reject_found-purse s provider_id now none = refl
reject_found-purse s provider_id now (some o) =
    ground (arith, lock_request-purse s o.request_id now)

pub reject_selection-purse :
    (s : Store) (offer_id provider_id : ℕ) (now : ℤ)
    → purse (store_after s (reject_selection s offer_id provider_id now)) ≡ purse s
unfolding reject_selection
reject_selection-purse s offer_id provider_id now =
    reject_found-purse s provider_id now (get_offer s offer_id)

pub upsert_offer-purse :
    (s : Store) (o : Offer) (now : ℤ) → purse (store_after s (upsert_offer s o now)) ≡ purse s
unfolding upsert_offer
upsert_offer-purse s o now = ground (arith, lock_request-purse s o.request_id now)

pub create_request-purse :
    (s : Store) (r : Request) → purse (store_after s (create_request s r)) ≡ purse s
unfolding create_request
create_request-purse s r = ground arith

pub transition_job-till :
    (s : Store) (t : JobTransition) → till (store_after s (transition_job s t)) ≡ till s
unfolding transition_job
transition_job-till s t = ground arith

pub create_topup-money :
    (s : Store) (t : Topup) → money (store_after s (create_topup s t)) ≡ money s
unfolding create_topup
create_topup-money s t = ground arith

pub dismiss_request-purse :
    (s : Store) (request_id provider_id : ℕ)
    → purse (dismiss_request s request_id provider_id) ≡ purse s
unfolding dismiss_request
dismiss_request-purse s request_id provider_id = ground arith

pub locked-purse :
    (s : Store) (id : ℕ) (now : ℤ) {r : Request} {s1 : Store}
    → lock_request s id now ≡ some (r, s1)
    → purse s1 ≡ purse s
locked-purse s id now {r} {s1} h =
    ap (λ k. purse (locked_store s k)) (sym h) ∙ lock_request-purse s id now

AcceptEnds-topups :
    (s : Store) (p : AcceptOfferParams) {e : Ended AcceptResult}
    → AcceptEnds s p e
    → (store_after s e).topups ≡ s.topups
AcceptEnds-topups s p (refused e) = refl
AcceptEnds-topups s p (stale l e) =
    ap (λ m. m.2) (locked-purse s l.offer.request_id p.now l.request_locked)
AcceptEnds-topups s p (again l m h) =
    ap (λ m. m.2) (locked-purse s l.offer.request_id p.now l.request_locked)
AcceptEnds-topups s p (fresh f) =
    ap (λ o. o.6) (charge_fee-others (with_match p f.request f.store) p f.charged)
    ∙ ap (λ m. m.2) (locked-purse s f.offer.request_id p.now f.request_locked)

pub accept_offer-topups :
    (s : Store) (p : AcceptOfferParams) → (store_after s (accept_offer s p)).topups ≡ s.topups
accept_offer-topups s p = AcceptEnds-topups s p (accept_offer-ends s p)

pub Fresh-matches :
    (s : Store) (p : AcceptOfferParams) (f : Fresh s p)
    → (accept_in f.charged_store p f.request).matches ≡ new_match p f.request ∷ s.matches
Fresh-matches s p f =
    ap (λ o. o.4) (charge_fee-others (with_match p f.request f.store) p f.charged)
    ∙ ap (λ m. new_match p f.request ∷ m.3)
        (locked-purse s f.offer.request_id p.now f.request_locked)

cancel_in-topups :
    (s : Store) (p : CancelParams) (r : Request) → (cancel_in s p r).topups ≡ s.topups
cancel_in-topups s p r = ground arith

CancelEnds-topups :
    (s : Store) (p : CancelParams) {e : Ended Bool}
    → CancelEnds s p e
    → (store_after s e).topups ≡ s.topups
CancelEnds-topups s p nothing = refl
CancelEnds-topups s p (unpaid e) = refl
CancelEnds-topups s p (changed r s1 h) = ap (λ m. m.2) (locked-purse s p.request_id p.now h)
CancelEnds-topups s p (plain c h) =
    cancel_in-topups c.store p c.request
    ∙ ap (λ m. m.2) (locked-purse s p.request_id p.now c.request_locked)
CancelEnds-topups s p (repaid c e done s2 h run) =
    ap (λ o. o.6) (apply_ledger-others (cancel_in c.store p c.request) e run)
    ∙ cancel_in-topups c.store p c.request
    ∙ ap (λ m. m.2) (locked-purse s p.request_id p.now c.request_locked)

pub cancel-topups : (s : Store) (p : CancelParams) → (store_after s (cancel s p)).topups ≡ s.topups
cancel-topups s p = CancelEnds-topups s p (cancel-ends s p)
