-- ===== src/Postgres/Repeats.antt =====
-- Repeating an operation of localservice_repository.go: applyLedger, lockRequest.
use flood_now_backend.Base.{ℕ, ◌≡◌, Bool, true, false, some, arith, any}
use flood_now_backend.Base.Int.{ℤ}
use flood_now_backend.Apperr.{ok}
use flood_now_backend.LocalService.Request.{
  Request, Status, status_eq, effective, takes_offers, selection_timed_out,
}
use flood_now_backend.LocalService.Wallet.{LedgerEntry, key_eq}
use flood_now_backend.Postgres.Store.{Store, has_key, get_request}
use flood_now_backend.Postgres.Ledger.{apply_ledger, post}
use flood_now_backend.Postgres.Balance.{Applied, repeated, posted, apply_ledger-ok}
use flood_now_backend.Postgres.Requests.{normalized, normalize, lock_request}
use flood_now_backend.Postgres.Requests.Ends.{
  LockEnds, current, caught_up, lock_request-ends, lock_request-found,
}

Applied-known :
    (s : Store) (e : LedgerEntry) {done : Bool} {t : Store}
    → Applied s e done t
    → any (has_key e.key) t.ledger ≡ true
unfolding post key_eq
Applied-known s e (repeated off same known) = rw same known
Applied-known s e (posted p there on same new enough) = ground (arith)

Applied-known-still :
    (s : Store) (e : LedgerEntry) {done : Bool} {t : Store}
    → any (has_key e.key) s.ledger ≡ true
    → Applied s e done t
    → (done ≡ false) × (t ≡ s)
Applied-known-still s e known (repeated off same k) = (off, same)
Applied-known-still s e known (posted p there on same new enough) = absurd (cc)

-- After an applyLedger that succeeded, another one of the same entry posts nothing and changes
-- nothing if it succeeds.
pub apply_ledger-again :
    (s : Store) (e : LedgerEntry) (done again : Bool) (t u : Store)
    → apply_ledger s e ≡ ok (done, t)
    → apply_ledger t e ≡ ok (again, u)
    → (again ≡ false) × (u ≡ t)
apply_ledger-again s e done again t u first second =
    Applied-known-still t e (Applied-known s e (apply_ledger-ok s e done t first))
      (apply_ledger-ok t e again u second)

-- A row that was brought up to date is up to date.
effective-normalized :
    (r : Request) (now : ℤ) → effective (normalized (effective r now) now r) now ≡ effective r now
unfolding effective takes_offers selection_timed_out
effective-normalized r now = ground arith

status_eq_refl : (st : Status) → status_eq st st ≡ true
status_eq_refl st = ground arith

LockEnds-current :
    (s : Store) (id : ℕ) (now : ℤ) {r : Request} {t : Store}
    → LockEnds s id now r t
    → status_eq (effective r now) r.status ≡ true
LockEnds-current s id now (current r found same) = same
LockEnds-current s id now (caught_up r found differs) =
    rw (effective-normalized r now) (status_eq_refl (effective r now))

-- lockRequest returns the row that it leaves in the table, in its effective status, and locking
-- it again at the same instant changes nothing.
pub lock_request-again :
    (s : Store) (id : ℕ) (now : ℤ) (r : Request) (t : Store)
    → lock_request s id now ≡ some (r, t)
    → (get_request t id ≡ some r)
      × (status_eq (effective r now) r.status ≡ true)
      × (lock_request t id now ≡ some (r, t))
unfolding lock_request get_request normalize
lock_request-again s id now r t h =
    let found = lock_request-found s id now h in
    let same = LockEnds-current s id now (lock_request-ends s id now h) in
    (found, same, rw (found, same))
