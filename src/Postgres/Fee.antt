-- ===== src/Postgres/Fee.antt =====
-- What AcceptOffer does to the money: the match fee, once, or nothing; and the refund of Cancel.
use mathlib.Core.Path.{subst}
use flood_now_backend.Base.{
  ℕ, ◌≡◌, refl, sym, ap, ◌∙◌, Bool, true, false, not, ◌&&◌, List, arith, any, ◌==◌, if◌then◌else◌,
  Bool-cases, inl, inr,
}
use flood_now_backend.Base.Int.{ℤ, pos, negsuc, neg, ◌+ℤ◌, ltb_ℤ, int_laws}
use flood_now_backend.Apperr.{Result, ok, err}
use flood_now_backend.LocalService.Provider.{Provider}
use flood_now_backend.LocalService.Wallet.{Transaction, match_fee_key}
use flood_now_backend.Postgres.Table.{find}
use flood_now_backend.Postgres.Store.{
  Store, empty_store, Ended, commit, result_of, store_after, has_key, get_provider, match_of_offer,
}
use flood_now_backend.Postgres.Balance.{
  Applied, repeated, posted, apply_ledger-ok, balance_of, get_provider-post_self,
}
use flood_now_backend.Postgres.Accepting.{
  charge_fee, AcceptOfferParams, AcceptResult, fee_entry, accept_offer,
}
use flood_now_backend.Postgres.Accepting.Ends.{
  AcceptEnds, Fresh, refused, stale, again, fresh, with_match, accept_offer-ends,
}
use flood_now_backend.Postgres.Frames.{money, purse, locked-purse}
use flood_now_backend.Postgres.Writes.{Writes}
use flood_now_backend.Postgres.Invariants.Credits.{rows_of, expected_fees, unknown_rows}
use flood_now_backend.Postgres.Invariants.Charges.{writes-ChargedOnce}

-- Whether AcceptOffer has made a match.
abbrev pub made : Result AcceptResult → Bool
made (ok a) = not a.already_accepted
made (err e) = false

AcceptEnds-idle :
    (s : Store) (p : AcceptOfferParams) {e : Ended AcceptResult}
    → AcceptEnds s p e
    → made (result_of e) ≡ false
    → purse (store_after s e) ≡ purse s
AcceptEnds-idle s p (refused x) h = refl
AcceptEnds-idle s p (stale l x) h = locked-purse s l.offer.request_id p.now l.request_locked
AcceptEnds-idle s p (again l m k) h = locked-purse s l.offer.request_id p.now l.request_locked
AcceptEnds-idle s p (fresh f) h = absurd (cc h)

-- An AcceptOffer that makes no match, by an error (as insufficient credit) or because the offer was
-- accepted before, leaves the providers, the ledger, the top-ups and the matches as they were.
pub accept_offer-idle :
    (s : Store) (p : AcceptOfferParams)
    → made (result_of (accept_offer s p)) ≡ false
    → purse (store_after s (accept_offer s p)) ≡ purse s
accept_offer-idle s p h = AcceptEnds-idle s p (accept_offer-ends s p) h

-- What a match costs.
abbrev pub fee_due : AcceptOfferParams → ℤ
fee_due p = if p.charge then p.fee else pos 0

minus_zero : (a : ℤ) → a ≡ a +ℤ neg (pos 0)
minus_zero a = omega int_laws

minus_none : (a f : ℤ) → ltb_ℤ f (pos 0) ≡ false → ltb_ℤ (pos 0) f ≡ false → a ≡ a +ℤ neg f
minus_none a (pos n) h k = ground (arith, minus_zero a)
minus_none a (negsuc n) h k = ground arith

balance_in :
    (id : ℕ) (s t : Store)
    → money s ≡ money t
    → balance_of (get_provider s id) ≡ balance_of (get_provider t id)
unfolding get_provider
balance_in id s t h =
    ap (λ (m : List Provider × List Transaction). balance_of (find (λ p. p.id == id) m.0)) h

module _ (s : Store) (p : AcceptOfferParams) (f : Fresh s p) where
  before_fee : money (with_match p f.request f.store) ≡ money s
  before_fee = ap (λ m. (m.0, m.1)) (locked-purse s f.offer.request_id p.now f.request_locked)

  abbrev found_balance : ℤ
  found_balance = balance_of (get_provider (with_match p f.request f.store) p.provider_id)

  Applied-balance :
      {done : Bool} {t : Store}
      → any (has_key (match_fee_key p.offer_id)) f.store.ledger ≡ false
      → Applied (with_match p f.request f.store) (fee_entry p) done t
      → balance_of (get_provider t p.provider_id) ≡ found_balance +ℤ neg p.fee
  Applied-balance new (repeated off same known) = absurd (cc)
  Applied-balance new (posted q there on same unknown enough) = rw (
    same,
    there,
    get_provider-post_self (with_match p f.request f.store) (fee_entry p)
        (q.credit_balance +ℤ neg p.fee) there,
  )

  waived :
      {r : Result (Bool × Store)}
      → r ≡ ok (f.did_charge, f.charged_store)
      → r ≡ ok (false, with_match p f.request f.store)
      → f.charged_store ≡ with_match p f.request f.store
  waived h k = ap kept (sym h ∙ k)
    where
      kept : Result (Bool × Store) → Store
      kept (ok (d, t)) = t
      kept (err e) = s

  new_fee :
      ((id : ℕ) → rows_of (match_fee_key id) s ≡ expected_fees (find (match_of_offer id) s.matches))
      → any (has_key (match_fee_key p.offer_id)) f.store.ledger ≡ false
  new_fee once = unknown_rows (match_fee_key p.offer_id) f.store (
      ground (
        arith,
        once p.offer_id,
        f.no_match,
        ap (λ m. m.1) (locked-purse s f.offer.request_id p.now f.request_locked),
        ap (λ m. m.3) (locked-purse s f.offer.request_id p.now f.request_locked),
      ))

  both_hold :
      p.charge ≡ true → ltb_ℤ (pos 0) p.fee ≡ true → (p.charge && ltb_ℤ (pos 0) p.fee) ≡ true
  both_hold on due = rw (on, due)

  charged_ok :
      (p.charge && ltb_ℤ (pos 0) p.fee) ≡ true
      → charge_fee (with_match p f.request f.store) p ≡ ok (f.did_charge, f.charged_store)
      → Applied (with_match p f.request f.store) (fee_entry p) f.did_charge f.charged_store
  charged_ok due h =
      apply_ledger-ok (with_match p f.request f.store) (fee_entry p) f.did_charge f.charged_store
        (rw due at h)

  from_found :
      (b cost : ℤ)
      → b ≡ found_balance +ℤ neg cost
      → b ≡ balance_of (get_provider s p.provider_id) +ℤ neg cost
  from_found b cost h =
      h
      ∙ ap (λ c. c +ℤ neg cost)
          (balance_in p.provider_id (with_match p f.request f.store) s before_fee)

  fresh-balance :
      ((id : ℕ) → rows_of (match_fee_key id) s ≡ expected_fees (find (match_of_offer id) s.matches))
      → balance_of (get_provider f.charged_store p.provider_id)
        ≡ balance_of (get_provider s p.provider_id) +ℤ neg (fee_due p)
  fresh-balance once = elim (Bool-cases p.charge) [
    | inr free ↦
        rw free (from_found _ (pos 0) (rw (waived f.charged (rw free)) (minus_zero found_balance)))
    | inl on ↦ elim (Bool-cases (ltb_ℤ (pos 0) p.fee)) [
      | inr nothing_due ↦ rw on (
          from_found _ p.fee (
            rw (waived f.charged (rw (on, nothing_due)))
              (minus_none found_balance p.fee f.fee_ok nothing_due)))
      | inl due ↦ rw on (
          from_found _ p.fee
            (Applied-balance (new_fee once) (charged_ok (both_hold on due) f.charged)))
    ]
  ]

AcceptEnds-balance :
    (s t : Store) (p : AcceptOfferParams) (a : AcceptResult) {e : Ended AcceptResult}
    → ((id : ℕ) → rows_of (match_fee_key id) s ≡ expected_fees (find (match_of_offer id) s.matches))
    → a.already_accepted ≡ false
    → AcceptEnds s p e
    → e ≡ commit (ok a) t
    → balance_of (get_provider t p.provider_id)
      ≡ balance_of (get_provider s p.provider_id) +ℤ neg (fee_due p)
unfolding get_provider
AcceptEnds-balance s t p a once new (refused x) h = absurd (cc h)
AcceptEnds-balance s t p a once new (stale l x) h = absurd (cc h)
AcceptEnds-balance s t p a once new (again l m k) h = absurd (cc (h, new))
AcceptEnds-balance s t p a once new (fresh f) h =
    subst
      (λ u.
        balance_of (get_provider u p.provider_id)
        ≡ balance_of (get_provider s p.provider_id) +ℤ neg (fee_due p))
      (ap (store_after s) h) (fresh-balance s p f once)

-- An AcceptOffer that makes a match, on tables that any writes have led to, takes exactly the fee
-- from its provider's balance if the match is charged, and nothing if it is waived.
pub accept_offer-balance :
    (s t : Store) (p : AcceptOfferParams) (a : AcceptResult)
    → Writes empty_store s
    → accept_offer s p ≡ commit (ok a) t
    → a.already_accepted ≡ false
    → balance_of (get_provider t p.provider_id)
      ≡ balance_of (get_provider s p.provider_id) +ℤ neg (fee_due p)
accept_offer-balance s t p a w h new =
    AcceptEnds-balance s t p a (λ id. writes-ChargedOnce s id w) new (accept_offer-ends s p) h
