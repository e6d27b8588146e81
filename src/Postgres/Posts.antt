-- ===== src/Postgres/Posts.antt =====
-- What each write does to the ledger: nothing, or one call of applyLedger.
use flood_now_backend.Base.{◌≡◌, refl, ap, Bool, Option, none, some, ◌∷◌, any, inl, inr, Bool-cases}
use flood_now_backend.Apperr.{Result, ok, err}
use flood_now_backend.LocalService.Provider.{Provider}
use flood_now_backend.LocalService.Wallet.{Transaction, LedgerEntry}
use flood_now_backend.Postgres.Table.{find}
use flood_now_backend.Postgres.Store.{Store, store_after, has_key}
use flood_now_backend.Postgres.Ledger.{apply_ledger}
use flood_now_backend.Postgres.Balance.{Applied, apply_ledger-ok}
use flood_now_backend.Postgres.Providers.{
  clashes_provider, inserted_provider, welcome_result, welcome_in, create_provider, adjustment_row,
  adjustment_result, adjust_credit,
}
use flood_now_backend.Postgres.Moves.{Moves, still, moved}

pub data Posts (P : LedgerEntry → Type 0) (s : Store) (s' : Store) : Type 0 where
  unposted : s'.ledger ≡ s.ledger → Posts P s s'
  posts :
      (s0 s1 : Store) (e : LedgerEntry) (done : Bool)
      → P e
      → s0.ledger ≡ s.ledger
      → Applied s0 e done s1
      → s'.ledger ≡ s1.ledger
      → Posts P s s'

pub Moves-Posts : {P : LedgerEntry → Type 0} {s s' : Store} → Moves P s s' → Posts P s s'
Moves-Posts (still e) = unposted (ap (λ m. m.1) e)
Moves-Posts (moved s0 s1 e done p before run after) =
    posts s0 s1 e done p (ap (λ m. m.1) before) (apply_ledger-ok s0 e done s1 run)
      (ap (λ m. m.1) after)

abbrev pub IsIn : Option LedgerEntry → LedgerEntry → Type 0
IsIn w x = w ≡ some x

welcome_result-Posts :
    (s s1 : Store) (e : LedgerEntry) (r : Result (Bool × Store))
    → apply_ledger s1 e ≡ r
    → s1.ledger ≡ s.ledger
    → Posts (IsIn (some e)) s (store_after s (welcome_result r))
welcome_result-Posts s s1 e (err x) run same = unposted refl
welcome_result-Posts s s1 e (ok (done, s2)) run same =
    posts s1 s2 e done refl same (apply_ledger-ok s1 e done s2 run) refl

welcome_in-Posts :
    (s s1 : Store) (w : Option LedgerEntry)
    → s1.ledger ≡ s.ledger
    → Posts (IsIn w) s (store_after s (welcome_in s1 w))
welcome_in-Posts s s1 none same = unposted same
welcome_in-Posts s s1 (some e) same = welcome_result-Posts s s1 e _ refl same

pub create_provider-Posts :
    (s : Store) (p : Provider) (w : Option LedgerEntry)
    → Posts (IsIn w) s (store_after s (create_provider s p w))
unfolding create_provider
create_provider-Posts s p w = elim (Bool-cases (any (clashes_provider p) s.providers)) [
  | inl clash ↦ rw clash (unposted refl)
  | inr new ↦
      rw new
        (welcome_in-Posts s (record s { providers = inserted_provider p ∷ s.providers }) w refl)
]

adjustment_row-Posts :
    (s s2 : Store) (e : LedgerEntry) (done : Bool) (o : Option Transaction)
    → Applied s e done s2
    → Posts (IsIn (some e)) s (store_after s (adjustment_row o s2))
adjustment_row-Posts s s2 e done none a = unposted refl
adjustment_row-Posts s s2 e done (some t) a = posts s s2 e done refl refl a refl

adjustment_result-Posts :
    (s : Store) (e : LedgerEntry) (r : Result (Bool × Store))
    → apply_ledger s e ≡ r
    → Posts (IsIn (some e)) s (store_after s (adjustment_result e r))
adjustment_result-Posts s e (err x) run = unposted refl
adjustment_result-Posts s e (ok (done, s2)) run =
    adjustment_row-Posts s s2 e done (find (has_key e.key) s2.ledger)
      (apply_ledger-ok s e done s2 run)

pub adjust_credit-Posts :
    (s : Store) (e : LedgerEntry) → Posts (IsIn (some e)) s (store_after s (adjust_credit s e))
unfolding adjust_credit
adjust_credit-Posts s e = adjustment_result-Posts s e _ refl
