-- ===== src/Postgres/Invariants/Keys.antt =====
-- Every economic event is in the ledger at most once, over every write.
use flood_now_backend.Base.{◌≤◌, arith, count_by}
use flood_now_backend.LocalService.Wallet.{Key}
use flood_now_backend.Postgres.Store.{Store, empty_store, has_key}
use flood_now_backend.Postgres.Writes.{Write, Writes, Writes-induction}
use flood_now_backend.Postgres.LedgerWrites.{Write-Posts}
use flood_now_backend.Postgres.Invariants.Credits.{UniqueKeys, Posts-UniqueKeys}

Write-UniqueKeys : (s t : Store) → Write s t → UniqueKeys s → UniqueKeys t
Write-UniqueKeys s t w u k = Posts-UniqueKeys (Write-Posts w) k (u k)

-- After any sequence of writes from the empty tables the ledger has at most one row for each
-- idempotency key.
pub writes-UniqueKeys :
    (s : Store) (k : Key) → Writes empty_store s → count_by (has_key k) s.ledger ≤ 1
writes-UniqueKeys s k w = Writes-induction UniqueKeys Write-UniqueKeys w (λ j. omega arith) k
