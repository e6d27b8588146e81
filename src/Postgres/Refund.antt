-- ===== src/Postgres/Refund.antt =====
-- The refund of Cancel, in the ledger once.
use mathlib.Core.Path.{subst}
use mathlib.Core.Option.{some-injective}
use flood_now_backend.Base.{
  ◌≤◌, ◌≡◌, sym, ap, ◌∙◌, Bool, true, some, List, [], ◌∷◌, arith, any, count_by, ==_refl,
  Bool-cases, inl, inr,
}
use flood_now_backend.Apperr.{ok}
use flood_now_backend.LocalService.Wallet.{LedgerEntry, Transaction, Key, key_eq}
use flood_now_backend.Postgres.Table.{any-count_by}
use flood_now_backend.Postgres.Store.{Store, empty_store, Ended, commit, store_after, has_key}
use flood_now_backend.Postgres.Balance.{Applied, apply_ledger-ok}
use flood_now_backend.Postgres.Ledger.{apply_ledger}
use flood_now_backend.Postgres.Jobs.{CancelParams, cancel_in, cancel}
use flood_now_backend.Postgres.Jobs.Ends.{
  CancelEnds, Cancelling, nothing, unpaid, changed, plain, repaid, cancel-ends,
}
use flood_now_backend.Postgres.Moves.{cancel_in-money}
use flood_now_backend.Postgres.Frames.{locked-purse}
use flood_now_backend.Postgres.Writes.{Writes}
use flood_now_backend.Postgres.Invariants.Credits.{rows_of, Applied-rows}
use flood_now_backend.Postgres.Invariants.Keys.{writes-UniqueKeys}

-- The refund of a cancellation.
any-count : (k : Key) (t : List Transaction) → any (has_key k) t ≡ true → 1 ≤ count_by (has_key k) t
any-count k [] h = absurd (cc h)
any-count k (x ∷ t) h = ground (arith, any-count k t)

key_eq_refl : (k : Key) → key_eq k k ≡ true
unfolding key_eq
key_eq_refl k = rw (==_refl k.id) (ground arith)

Applied-once :
    (s : Store) (e : LedgerEntry) {done : Bool} {t : Store}
    → rows_of e.key s ≤ 1
    → Applied s e done t
    → rows_of e.key t ≡ 1
Applied-once s e u a = elim (Bool-cases (any (has_key e.key) s.ledger)) [
  | inl known ↦
      rw (Applied-rows s e e.key a, key_eq_refl e.key, known)
        (omega (arith, any-count e.key s.ledger known))
  | inr new ↦
      rw (Applied-rows s e e.key a, key_eq_refl e.key, new)
        (omega (arith, any-count_by (has_key e.key) s.ledger new))
]

Cancelling-ledger :
    (s : Store) (p : CancelParams) (c : Cancelling s p)
    → (cancel_in c.store p c.request).ledger ≡ s.ledger
Cancelling-ledger s p c =
    ap (λ m. m.1) (cancel_in-money c.store p c.request)
    ∙ ap (λ m. m.1) (locked-purse s p.request_id p.now c.request_locked)

CancelEnds-refund :
    (s t : Store) (p : CancelParams) (e : LedgerEntry) {x : Ended Bool}
    → rows_of e.key s ≤ 1
    → p.refund ≡ some e
    → CancelEnds s p x
    → x ≡ commit (ok true) t
    → rows_of e.key t ≡ 1
CancelEnds-refund s t p e u r nothing h = absurd (cc h)
CancelEnds-refund s t p e u r (unpaid y) h = absurd (cc h)
CancelEnds-refund s t p e u r (changed q s1 k) h = absurd (cc h)
CancelEnds-refund s t p e u r (plain c k) h = absurd (cc (r, k))
CancelEnds-refund s t p e u r (repaid c d done s2 k run) h =
    subst (λ v. rows_of e.key v ≡ 1) (ap (store_after s) h)
      (Applied-once (cancel_in c.store p c.request) e (rw (Cancelling-ledger s p c) u) (
        apply_ledger-ok (cancel_in c.store p c.request) e done s2 (
          subst (λ i. apply_ledger (cancel_in c.store p c.request) i ≡ ok (done, s2))
            (some-injective _ _ (sym k ∙ r)) run)))

-- A Cancel that succeeds with a refund, on tables that any writes have led to, leaves exactly one
-- ledger row for that refund.
pub cancel-refund :
    (s t : Store) (p : CancelParams) (e : LedgerEntry)
    → Writes empty_store s
    → p.refund ≡ some e
    → cancel s p ≡ commit (ok true) t
    → count_by (has_key e.key) t.ledger ≡ 1
cancel-refund s t p e w r h =
    CancelEnds-refund s t p e (writes-UniqueKeys s e.key w) r (cancel-ends s p) h
