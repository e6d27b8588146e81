-- ===== src/Postgres/Ledger.antt =====
-- applyLedger of localservice_repository.go, with the constraints of its two tables
-- (migrations/000011_local_services.up.sql).
use flood_now_backend.Base.{
  Bool, true, false, not, ◌&&◌, ◌||◌, Option, none, some, ◌∷◌, any, is_set, ◌==◌, if◌then◌else◌,
}
use flood_now_backend.Base.Int.{ℤ, pos, negsuc, ◌+ℤ◌, neg, ltb_ℤ, eqb_ℤ}
use flood_now_backend.Apperr.{insufficient_credit, database, Result, ok, err}
use flood_now_backend.LocalService.Provider.{Provider}
use flood_now_backend.LocalService.Wallet.{
  TxType, tx_welcome_credit, tx_top_up, tx_match_fee, tx_refund, tx_admin_adjustment, tx_number,
  Transaction, LedgerEntry,
}
use flood_now_backend.Postgres.Table.{update_where}
use flood_now_backend.Postgres.Store.{Store, provider_is, has_key, get_provider}

-- The CHECK on the sign of an amount.
abbrev pub sign_allowed : TxType → ℤ → Bool
sign_allowed tx_welcome_credit a = ltb_ℤ (pos 0) a
sign_allowed tx_top_up a = ltb_ℤ (pos 0) a
sign_allowed tx_refund a = ltb_ℤ (pos 0) a
sign_allowed tx_match_fee a = ltb_ℤ a (pos 0)
sign_allowed tx_admin_adjustment a = not (eqb_ℤ a (pos 0))

abbrev pub names_topup : TxType → Bool
names_topup k = tx_number k == 1

abbrev pub names_match : TxType → Bool
names_match k = tx_number k == 2 || tx_number k == 3

abbrev pub same_bool : Bool → Bool → Bool
same_bool true b = b
same_bool false b = not b

-- A value of an `integer` column.
abbrev pub fits_int32 : ℤ → Bool
fits_int32 a = not (ltb_ℤ a (negsuc 2147483647)) && not (ltb_ℤ (pos 2147483647) a)

-- The row's CHECKs and the range of its `integer` columns.
unfoldable pub row_allowed : LedgerEntry → ℤ → Bool
row_allowed e next =
    sign_allowed e.kind e.amount
    && same_bool (names_topup e.kind) (is_set e.topup_id)
    && same_bool (names_match e.kind) (is_set e.match_id)
    && fits_int32 e.amount
    && fits_int32 next

abbrev pub ledger_row : LedgerEntry → ℤ → Transaction
ledger_row e next = record {
  provider_id = e.provider_id;
  kind = e.kind;
  amount = e.amount;
  balance_after = next;
  key = e.key;
  match_id = e.match_id;
  topup_id = e.topup_id;
  note = e.note;
  created_at = e.at;
}

abbrev pub set_balance : ℤ → Provider → Provider
set_balance next p = record p { credit_balance = next }

-- The INSERT and the UPDATE of the balance.
unfoldable pub post : Store → LedgerEntry → ℤ → Store
post s e next = record s {
  ledger = ledger_row e next ∷ s.ledger;
  providers = update_where (provider_is e.provider_id) (set_balance next) s.providers;
}

-- What follows the lock of the provider's row.
unfoldable pub apply_to_balance : Store → LedgerEntry → ℤ → Result (Bool × Store)
apply_to_balance s e balance =
    if ltb_ℤ (balance +ℤ e.amount) (pos 0)
    then err (insufficient_credit balance (neg e.amount))
    else if not (row_allowed e (balance +ℤ e.amount))
    then err (database "insert credit transaction")
    else if any (has_key e.key) s.ledger
    then ok (false, s)
    else ok (true, post s e (balance +ℤ e.amount))

abbrev pub apply_found : Store → LedgerEntry → Option Provider → Result (Bool × Store)
apply_found s e none = err (database "lock provider balance")
apply_found s e (some p) = apply_to_balance s e p.credit_balance

unfoldable pub apply_ledger : Store → LedgerEntry → Result (Bool × Store)
apply_ledger s e = apply_found s e (get_provider s e.provider_id)
