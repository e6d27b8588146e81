-- ===== src/Postgres/Others.antt =====
-- What the writes that post to the ledger, or touch no request, leave alone.
use flood_now_backend.Base.{
  ℕ, ◌≡◌, refl, sym, ap, Bool, ◌&&◌, ◌∷◌, ◌∙◌, Option, none, some, List, arith, any, inl, inr,
  Bool-cases,
}
use flood_now_backend.Base.Int.{pos, ltb_ℤ}
use flood_now_backend.Apperr.{Result, ok, err}
use flood_now_backend.LocalService.Provider.{Provider}
use flood_now_backend.LocalService.Request.{Request, Event}
use flood_now_backend.LocalService.Offer.{Offer, Match, Issue}
use flood_now_backend.LocalService.Wallet.{Transaction, LedgerEntry, Topup}
use flood_now_backend.Postgres.Table.{find}
use flood_now_backend.Postgres.Store.{Store, Ended, store_after, has_key}
use flood_now_backend.Postgres.Ledger.{post, apply_ledger}
use flood_now_backend.Postgres.Balance.{Applied, repeated, posted, apply_ledger-ok}
use flood_now_backend.Postgres.Providers.{
  clashes_provider, inserted_provider, welcome_result, welcome_in, create_provider, adjustment_row,
  adjustment_result, adjust_credit,
}
use flood_now_backend.Postgres.Requests.{dismiss_request}
use flood_now_backend.Postgres.Accepting.{AcceptOfferParams, fee_entry, charge_fee}
use flood_now_backend.Postgres.Topups.{
  TopupPaid, topup_entry, with_paid, create_topup, mark_topup_paid,
}
use flood_now_backend.Postgres.Topups.Ends.{PaidEnds, ignored, failed, paid, mark_topup_paid-ends}

-- Everything but the money.
abbrev pub others :
    Store
    → List Request × List Event × List (ℕ × ℕ) × List Offer × List Match × List Issue × List Topup
others s = (s.requests, s.events, s.dismissals, s.offers, s.matches, s.issues, s.topups)

Applied-others :
    (s : Store) (e : LedgerEntry) {done : Bool} {s' : Store}
    → Applied s e done s'
    → others s' ≡ others s
unfolding post
Applied-others s e (repeated off same known) = ap others same
Applied-others s e (posted p there on same new enough) = ap others same

-- applyLedger changes no other table.
pub apply_ledger-others :
    (s : Store) (e : LedgerEntry) {done : Bool} {s' : Store}
    → apply_ledger s e ≡ ok (done, s')
    → others s' ≡ others s
apply_ledger-others s e {done} {s'} h = Applied-others s e (apply_ledger-ok s e done s' h)

pub charge_fee-others :
    (s : Store) (p : AcceptOfferParams) {done : Bool} {s' : Store}
    → charge_fee s p ≡ ok (done, s')
    → others s' ≡ others s
charge_fee-others s p {done} {s'} h = elim (Bool-cases (p.charge && ltb_ℤ (pos 0) p.fee)) [
  | inl charged ↦ apply_ledger-others s (fee_entry p) (rw charged at h)
  | inr free ↦ sym (ap kept (rw free at h))
]
  where
    kept :
        Result (Bool × Store)
        → List Request
          × List Event
          × List (ℕ × ℕ)
          × List Offer
          × List Match
          × List Issue
          × List Topup
    kept (ok (d, t)) = others t
    kept (err e) = others s

welcome_result-others :
    (s s1 : Store) (e : LedgerEntry) (r : Result (Bool × Store))
    → apply_ledger s1 e ≡ r
    → others s1 ≡ others s
    → others (store_after s (welcome_result r)) ≡ others s
welcome_result-others s s1 e (err x) run same = refl
welcome_result-others s s1 e (ok (done, s2)) run same = apply_ledger-others s1 e run ∙ same

welcome_in-others :
    (s s1 : Store) (w : Option LedgerEntry)
    → others s1 ≡ others s
    → others (store_after s (welcome_in s1 w)) ≡ others s
welcome_in-others s s1 none same = same
welcome_in-others s s1 (some e) same = welcome_result-others s s1 e _ refl same

pub create_provider-others :
    (s : Store) (p : Provider) (w : Option LedgerEntry)
    → others (store_after s (create_provider s p w)) ≡ others s
unfolding create_provider
create_provider-others s p w = elim (Bool-cases (any (clashes_provider p) s.providers)) [
  | inl clash ↦ rw clash
  | inr new ↦
      rw new
        (welcome_in-others s (record s { providers = inserted_provider p ∷ s.providers }) w refl)
]

adjustment_row-others :
    (s s2 : Store) (o : Option Transaction)
    → others s2 ≡ others s
    → others (store_after s (adjustment_row o s2)) ≡ others s
adjustment_row-others s s2 none same = refl
adjustment_row-others s s2 (some t) same = same

adjustment_result-others :
    (s : Store) (e : LedgerEntry) (r : Result (Bool × Store))
    → apply_ledger s e ≡ r
    → others (store_after s (adjustment_result e r)) ≡ others s
adjustment_result-others s e (err x) run = refl
adjustment_result-others s e (ok (done, s2)) run =
    adjustment_row-others s s2 (find (has_key e.key) s2.ledger) (apply_ledger-others s e run)

pub adjust_credit-others :
    (s : Store) (e : LedgerEntry) → others (store_after s (adjust_credit s e)) ≡ others s
unfolding adjust_credit
adjust_credit-others s e = adjustment_result-others s e _ refl

-- The requests, their matches and their offers.
abbrev pub jobs : Store → List Request × List Match × List Offer
jobs s = (s.requests, s.matches, s.offers)

pub dismiss_request-jobs :
    (s : Store) (request_id provider_id : ℕ)
    → jobs (dismiss_request s request_id provider_id) ≡ jobs s
unfolding dismiss_request
dismiss_request-jobs s request_id provider_id = ground arith

pub create_topup-jobs : (s : Store) (t : Topup) → jobs (store_after s (create_topup s t)) ≡ jobs s
unfolding create_topup
create_topup-jobs s t = ground arith

PaidEnds-jobs :
    (s : Store) (p : TopupPaid) {e : Ended Bool} → PaidEnds s p e → jobs (store_after s e) ≡ jobs s
PaidEnds-jobs s p ignored = refl
PaidEnds-jobs s p (failed e) = refl
PaidEnds-jobs s p (paid c) =
    ap (λ o. (o.0, o.4, o.3))
      (apply_ledger-others (with_paid s p c.topup) (topup_entry c.topup p.now) c.applied)

pub mark_topup_paid-jobs :
    (s : Store) (p : TopupPaid) → jobs (store_after s (mark_topup_paid s p)) ≡ jobs s
mark_topup_paid-jobs s p = PaidEnds-jobs s p (mark_topup_paid-ends s p)
