-- ===== src/Postgres/Moves.antt =====
-- How each transaction moves credit: not at all, or by one entry of the ledger.
use flood_now_backend.Base.{
  ℕ, ◌≡◌, refl, sym, ap, ◌∙◌, Bool, some, List, arith, inl, inr, Bool-cases, ◌&&◌,
}
use flood_now_backend.Base.Int.{ℤ, pos, ltb_ℤ}
use flood_now_backend.Apperr.{Result, ok, err}
use flood_now_backend.LocalService.Provider.{Provider}
use flood_now_backend.LocalService.Request.{Request}
use flood_now_backend.LocalService.Wallet.{Transaction, LedgerEntry}
use flood_now_backend.Postgres.Store.{Store, Ended, store_after, get_provider}
use flood_now_backend.Postgres.Ledger.{apply_ledger}
use flood_now_backend.Postgres.Requests.{lock_request}
use flood_now_backend.Postgres.Accepting.{
  AcceptOfferParams, AcceptResult, accept_offer, fee_entry, charge_fee,
}
use flood_now_backend.Postgres.Accepting.Ends.{
  AcceptEnds, refused, stale, again, fresh, with_match, accept_offer-ends,
}
use flood_now_backend.Postgres.Topups.{TopupPaid, topup_entry, with_paid, mark_topup_paid}
use flood_now_backend.Postgres.Topups.Ends.{
  Paying, PaidEnds, ignored, failed, paid, mark_topup_paid-ends,
}
use flood_now_backend.Postgres.Jobs.Ends.{
  CancelEnds, nothing, unpaid, changed, plain, repaid, cancel-ends,
}
use flood_now_backend.Postgres.Jobs.{CancelParams, cancel_in, cancel}
use flood_now_backend.Postgres.Balance.{Balanced, apply_ledger-Balanced}
use flood_now_backend.Postgres.Frames.{locked-purse, money, purse}

-- How a transaction moves credit: not at all, or by one call of applyLedger on a store with the
-- same money, whose result it keeps.
pub data Moves (P : LedgerEntry → Type 0) (s : Store) (s' : Store) : Type 0 where
  still : money s' ≡ money s → Moves P s s'
  moved :
      (s0 s1 : Store) (e : LedgerEntry) (done : Bool)
      → P e
      → money s0 ≡ money s
      → apply_ledger s0 e ≡ ok (done, s1)
      → money s' ≡ money s1
      → Moves P s s'

pub Balanced-money : {s s' : Store} → money s' ≡ money s → Balanced s → Balanced s'
unfolding get_provider
Balanced-money {s} {s'} e b = record {
  cached = λ id. rw (ap (λ m. m.0) e, ap (λ m. m.1) e) (b.cached id);
  nonneg = λ id. rw (ap (λ m. m.0) e) (b.nonneg id);
}

pub Balanced-purse : {s s' : Store} → purse s' ≡ purse s → Balanced s → Balanced s'
Balanced-purse e b = Balanced-money (ap (λ m. (m.0, m.1)) e) b

pub Moves-Balanced :
    {P : LedgerEntry → Type 0} {s s' : Store} → Moves P s s' → Balanced s → Balanced s'
Moves-Balanced (still e) b = Balanced-money e b
Moves-Balanced (moved s0 s1 e done p before run after) b =
    Balanced-money after (apply_ledger-Balanced s0 e (Balanced-money before b) run)

-- AcceptOffer posts the match fee, of its offer.
abbrev pub IsFee : AcceptOfferParams → LedgerEntry → Type 0
IsFee p e = e ≡ fee_entry p

locked-money :
    (s : Store) (id : ℕ) (now : ℤ) {r : Request} {s1 : Store}
    → lock_request s id now ≡ some (r, s1)
    → money s1 ≡ money s
locked-money s id now h = ap (λ m. (m.0, m.1)) (locked-purse s id now h)

charged-Moves :
    (s s0 : Store) (p : AcceptOfferParams) (done : Bool) (s1 s2 : Store)
    → money s0 ≡ money s
    → charge_fee s0 p ≡ ok (done, s1)
    → money s2 ≡ money s1
    → Moves (IsFee p) s s2
charged-Moves s s0 p done s1 s2 before run after =
    elim (Bool-cases (p.charge && ltb_ℤ (pos 0) p.fee)) [
      | inl charged ↦ moved s0 s1 (fee_entry p) done refl before (rw charged at run) after
      | inr free ↦ still (after ∙ sym (ap kept (rw free at run)) ∙ before)
    ]
  where
    kept : Result (Bool × Store) → List Provider × List Transaction
    kept (ok (d, s')) = money s'
    kept (err e) = money s0

AcceptEnds-Moves :
    (s : Store) (p : AcceptOfferParams) {e : Ended AcceptResult}
    → AcceptEnds s p e
    → Moves (IsFee p) s (store_after s e)
AcceptEnds-Moves s p (refused e) = still refl
AcceptEnds-Moves s p (stale l e) = still (locked-money s l.offer.request_id p.now l.request_locked)
AcceptEnds-Moves s p (again l m h) =
    still (locked-money s l.offer.request_id p.now l.request_locked)
AcceptEnds-Moves s p (fresh f) =
    charged-Moves s (with_match p f.request f.store) p f.did_charge f.charged_store _
      (locked-money s f.offer.request_id p.now f.request_locked) f.charged refl

pub accept_offer-Moves :
    (s : Store) (p : AcceptOfferParams) → Moves (IsFee p) s (store_after s (accept_offer s p))
accept_offer-Moves s p = AcceptEnds-Moves s p (accept_offer-ends s p)

-- Cancel posts the refund that it is given.
abbrev pub IsRefund : CancelParams → LedgerEntry → Type 0
IsRefund p e = p.refund ≡ some e

pub cancel_in-money :
    (s : Store) (p : CancelParams) (r : Request) → money (cancel_in s p r) ≡ money s
cancel_in-money s p r = ground arith

CancelEnds-Moves :
    (s : Store) (p : CancelParams) {e : Ended Bool}
    → CancelEnds s p e
    → Moves (IsRefund p) s (store_after s e)
CancelEnds-Moves s p nothing = still refl
CancelEnds-Moves s p (unpaid e) = still refl
CancelEnds-Moves s p (changed r s1 h) = still (locked-money s p.request_id p.now h)
CancelEnds-Moves s p (plain c h) =
    still (cancel_in-money c.store p c.request ∙ locked-money s p.request_id p.now c.request_locked)
CancelEnds-Moves s p (repaid c e done s2 h run) =
    moved (cancel_in c.store p c.request) s2 e done h
      (cancel_in-money c.store p c.request ∙ locked-money s p.request_id p.now c.request_locked) run
      refl

pub cancel-Moves :
    (s : Store) (p : CancelParams) → Moves (IsRefund p) s (store_after s (cancel s p))
cancel-Moves s p = CancelEnds-Moves s p (cancel-ends s p)

-- MarkTopupPaid posts the credit of the top-up that it marks.
pub record IsCredit (s : Store) (p : TopupPaid) (e : LedgerEntry) : Type 0 where
  pub paying : Paying s p
  pub is_entry : e ≡ topup_entry paying.topup p.now

PaidEnds-Moves :
    (s : Store) (p : TopupPaid) {e : Ended Bool}
    → PaidEnds s p e
    → Moves (IsCredit s p) s (store_after s e)
PaidEnds-Moves s p ignored = still refl
PaidEnds-Moves s p (failed e) = still refl
PaidEnds-Moves s p (paid c) =
    moved (with_paid s p c.topup) c.store (topup_entry c.topup p.now) c.did_credit
      (record { paying = c; is_entry = refl }) refl c.applied refl

pub mark_topup_paid-Moves :
    (s : Store) (p : TopupPaid) → Moves (IsCredit s p) s (store_after s (mark_topup_paid s p))
mark_topup_paid-Moves s p = PaidEnds-Moves s p (mark_topup_paid-ends s p)
