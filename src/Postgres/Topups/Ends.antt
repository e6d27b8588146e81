-- ===== src/Postgres/Topups/Ends.antt =====
-- The ways in which MarkTopupPaid ends, with what each of them has read.
use flood_now_backend.Base.{◌≡◌, refl, Bool, false, ◌||◌, Option, none, some, inl, inr, Bool-cases}
use flood_now_backend.Apperr.{Error, Result, ok, err}
use flood_now_backend.Base.{List}
use flood_now_backend.LocalService.Wallet.{Topup, Transaction}
use flood_now_backend.LocalService.Provider.{Provider}
use flood_now_backend.LocalService.Request.{Request, Event}
use flood_now_backend.LocalService.Offer.{Offer, Match}
use flood_now_backend.Postgres.Store.{store_after}
use flood_now_backend.Postgres.Topups.{coalesce}
use flood_now_backend.Postgres.Store.{Store, Ended, commit, rollback, get_topup}
use flood_now_backend.Postgres.Table.{update_where}
use flood_now_backend.Base.{ℕ}
use flood_now_backend.Base.Int.{ℤ}
use flood_now_backend.Postgres.Store.{topup_is}
use flood_now_backend.Postgres.Ledger.{apply_ledger}
use flood_now_backend.Postgres.Topups.{
  TopupPaid, is_settled, mismatches, topup_entry, credited, with_paid, mark_found, mark_topup_paid,
  intent_taken, PromptPayCharge, with_payment, set_payment_found, set_topup_payment,
}

-- A row that is neither settled nor another payment's, and the store with its credit.
pub record Paying (s : Store) (p : TopupPaid) : Type 0 where
  pub topup : Topup
  pub found : get_topup s p.topup_id ≡ some topup
  pub open_matching : (is_settled topup.status || mismatches topup p) ≡ false
  pub did_credit : Bool
  pub store : Store
  pub applied :
      apply_ledger (with_paid s p topup) (topup_entry topup p.now) ≡ ok (did_credit, store)

pub data PaidEnds (s : Store) (p : TopupPaid) : Ended Bool → Type 0 where
  ignored : PaidEnds s p (rollback (ok false))
  failed : (e : Error) → PaidEnds s p (rollback (err e))
  paid : (c : Paying s p) → PaidEnds s p (commit (ok c.did_credit) c.store)

module _ (s : Store) (p : TopupPaid) where
  credited-ends :
      (t : Topup)
      → get_topup s p.topup_id ≡ some t
      → (is_settled t.status || mismatches t p) ≡ false
      → (r : Result (Bool × Store)) → apply_ledger (with_paid s p t) (topup_entry t p.now) ≡ r
      → PaidEnds s p (credited r)
  credited-ends t h1 h2 (err e) run = failed e
  credited-ends t h1 h2 (ok (done, s1)) run = paid (record {
    topup = t;
    found = h1;
    open_matching = h2;
    did_credit = done;
    store = s1;
    applied = run;
  })

  mark_found-ends :
      (t : Option Topup) → get_topup s p.topup_id ≡ t → PaidEnds s p (mark_found s p t)
  mark_found-ends none h = ignored
  mark_found-ends (some t) h = elim (Bool-cases (is_settled t.status || mismatches t p)) [
    | inl no_match ↦ rw no_match ignored
    | inr open_row ↦ rw open_row (elim (Bool-cases (intent_taken s p.payment_intent_id t.id)) [
      | inl taken ↦ rw taken (failed _)
      | inr its_own ↦ rw its_own (credited-ends t h open_row _ refl)
    ])
  ]

  pub mark_topup_paid-ends : PaidEnds s p (mark_topup_paid s p)
  unfolding mark_topup_paid
  mark_topup_paid-ends = mark_found-ends _ refl

-- The ways in which SetTopupPayment ends.
pub data PaymentEnds (s : Store) (c : PromptPayCharge) (now : ℤ) : Ended (Unit {0}) → Type 0 where
  no_row : PaymentEnds s c now (commit (ok tt) s)
  taken_intent : (e : Error) → PaymentEnds s c now (rollback (err e))
  payment_set :
      (t : Topup)
      → PaymentEnds s c now (
          commit
            (ok tt)
            (record s { topups = update_where (topup_is t.id) (with_payment c now) s.topups }))

set_payment_found-ends :
    (s : Store) (c : PromptPayCharge) (now : ℤ) (o : Option Topup)
    → PaymentEnds s c now (set_payment_found s c now o)
set_payment_found-ends s c now none = no_row
set_payment_found-ends s c now (some t) =
    elim (Bool-cases
      (intent_taken s (coalesce t.stripe_payment_intent_id c.payment_intent_id) t.id)) [
        | inl taken ↦ rw taken (taken_intent _)
        | inr its_own ↦ rw its_own (payment_set t)
      ]

pub set_topup_payment-ends :
    (s : Store) (id : ℕ) (c : PromptPayCharge) (now : ℤ)
    → PaymentEnds s c now (set_topup_payment s id c now)
unfolding set_topup_payment
set_topup_payment-ends s id c now = set_payment_found-ends s c now (get_topup s id)

-- Everything but the top-ups.
abbrev pub Rest : Type 0
Rest = List Provider × List Request × List Event × List Offer × List Match × List Transaction

abbrev pub rest_of : Store → Rest
rest_of s = (s.providers, s.requests, s.events, s.offers, s.matches, s.ledger)

PaymentEnds-rest :
    (s : Store) (c : PromptPayCharge) (now : ℤ) {e : Ended (Unit {0})}
    → PaymentEnds s c now e
    → rest_of (store_after s e) ≡ rest_of s
PaymentEnds-rest s c now no_row = refl
PaymentEnds-rest s c now (taken_intent x) = refl
PaymentEnds-rest s c now (payment_set t) = refl

pub set_topup_payment-rest :
    (s : Store) (id : ℕ) (c : PromptPayCharge) (now : ℤ)
    → rest_of (store_after s (set_topup_payment s id c now)) ≡ rest_of s
set_topup_payment-rest s id c now = PaymentEnds-rest s c now (set_topup_payment-ends s id c now)
