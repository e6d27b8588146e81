-- ===== src/Postgres/Providers.antt =====
-- The provider and operator writes of localservice_repository.go: CreateProvider, UpdateProvider,
-- SetProviderAvailability, SetProviderVerified, SetProviderStatus, AdjustCredit.
pub mod Effects
use flood_now_backend.Base.{
  ℕ, Bool, true, false, ◌||◌, Option, none, some, List, [], ◌∷◌, any, ◌==◌, if◌then◌else◌,
}
use flood_now_backend.Base.Int.{ℤ, pos}
use flood_now_backend.Apperr.{
  unauthorized, rate_limited, Error, validation, not_found, conflict, insufficient_credit, database,
  Result, ok, err,
}
use flood_now_backend.LocalService.Provider.{Provider, ProviderStatus}
use flood_now_backend.LocalService.Wallet.{Transaction, LedgerEntry}
use flood_now_backend.Postgres.Table.{find, update_where}
use flood_now_backend.Postgres.Store.{Store, Ended, commit, rollback, provider_is, has_key}
use flood_now_backend.Postgres.Ledger.{apply_ledger}

-- A unique constraint of service_providers: the id or the owner.
abbrev pub clashes_provider : Provider → Provider → Bool
clashes_provider p q = q.id == p.id || q.owner_user_id == p.owner_user_id

-- The INSERT names neither verified_at nor credit_balance: they take their defaults.
abbrev pub inserted_provider : Provider → Provider
inserted_provider p = record p {
  verified_at = none;
  credit_balance = pos 0;
  updated_at = p.created_at;
}

abbrev pub welcome_result : Result (Bool × Store) → Ended (Unit {0})
welcome_result (err e) = rollback (err e)
welcome_result (ok (applied, s)) = commit (ok tt) s

abbrev pub welcome_in : Store → Option LedgerEntry → Ended (Unit {0})
welcome_in s none = commit (ok tt) s
welcome_in s (some e) = welcome_result (apply_ledger s e)

unfoldable pub create_provider : Store → Provider → Option LedgerEntry → Ended (Unit {0})
create_provider s p welcome =
    if any (clashes_provider p) s.providers
    then rollback (err (conflict "you already have a service provider profile"))
    else welcome_in (record s { providers = inserted_provider p ∷ s.providers }) welcome

-- The columns that UpdateProvider writes; status, balance and verification are not among them.
abbrev pub profile_of : Provider → Provider → Provider
profile_of p q = record q {
  display_name = p.display_name;
  categories = p.categories;
  description = p.description;
  phone = p.phone;
  line_id = p.line_id;
  latitude = p.latitude;
  longitude = p.longitude;
  location_name = p.location_name;
  service_radius_m = p.service_radius_m;
  business_hours = p.business_hours;
  mobile_service = p.mobile_service;
  available = p.available;
  starting_price_thb = p.starting_price_thb;
  logo_key = p.logo_key;
  updated_at = p.updated_at;
}

abbrev pub update_providers : Store → ℕ → (Provider → Provider) → Store
update_providers s id f = record s { providers = update_where (provider_is id) f s.providers }

unfoldable pub update_provider : Store → Provider → Store
unfolding update_where
update_provider s p = update_providers s p.id (profile_of p)

unfoldable pub set_provider_availability : Store → ℕ → Bool → ℤ → Store
set_provider_availability s id on now =
    update_providers s id (λ q. record q { available = on; updated_at = now })

unfoldable pub set_provider_verified : Store → ℕ → Option ℤ → ℤ → Store
set_provider_verified s id at now =
    update_providers s id (λ q. record q { verified_at = at; updated_at = now })

unfoldable pub set_provider_status : Store → ℕ → ProviderStatus → ℤ → Store
set_provider_status s id st now =
    update_providers s id (λ q. record q { status = st; updated_at = now })

-- An INSUFFICIENT_CREDIT of applyLedger becomes a CONFLICT.
abbrev pub adjustment_error : Error → Error
adjustment_error (insufficient_credit balance required) =
    conflict "the adjustment would make the balance negative"
adjustment_error (validation m fields) = validation m fields
adjustment_error (not_found m) = not_found m
adjustment_error (conflict m) = conflict m
adjustment_error (unauthorized m) = unauthorized m
adjustment_error (rate_limited m) = rate_limited m
adjustment_error (database what) = database what

-- The row that is read back by its key.
abbrev pub adjustment_row : Option Transaction → Store → Ended Transaction
adjustment_row none s = rollback (err (database "read adjustment"))
adjustment_row (some t) s = commit (ok t) s

abbrev pub adjustment_result : LedgerEntry → Result (Bool × Store) → Ended Transaction
adjustment_result e (err x) = rollback (err (adjustment_error x))
adjustment_result e (ok (applied, s)) = adjustment_row (find (has_key e.key) s.ledger) s

unfoldable pub adjust_credit : Store → LedgerEntry → Ended Transaction
adjust_credit s e = adjustment_result e (apply_ledger s e)
