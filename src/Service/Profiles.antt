-- ===== src/Service/Profiles.antt =====
-- What SaveProvider leaves alone.
use mathlib.Core.Option
use mathlib.Core.Path.{subst}
use flood_now_backend.Base.{ℕ, ◌≡◌, refl, sym, Option, none, some, arith, Option-cases, inl, inr}
use flood_now_backend.Base.Int.{ℤ}
use flood_now_backend.Base.Float.{Float64}
use flood_now_backend.LocalService.Provider.{
  Provider, ProviderInput, ProviderStatus, validate_provider, apply_input,
}
use flood_now_backend.LocalService.Wallet.{BillingPolicy}
use flood_now_backend.Postgres.Table.{find, change, find-update_where}
use flood_now_backend.Postgres.Store.{Store, get_provider, get_provider_by_owner, provider_is}
use flood_now_backend.Postgres.Providers.{update_provider, profile_of}
use flood_now_backend.Service.Program.{◌>>=◌, reading, writing, validated, run}
use flood_now_backend.Service.Working.{save_provider, save_found}

-- What an operator or the ledger decides about a provider.
pub record Standing : Type 0 where
  pub balance : ℤ
  pub verified_at : Option ℤ
  pub status : ProviderStatus
  pub owner_user_id : ℕ

abbrev pub standing : Provider → Standing
standing p = record {
  balance = p.credit_balance;
  verified_at = p.verified_at;
  status = p.status;
  owner_user_id = p.owner_user_id;
}

change-standing :
    (p : Provider) (o : Option Provider)
    → Option.map standing (Option.map (change (provider_is p.id) (profile_of p)) o)
      ≡ Option.map standing o
change-standing p none = refl
change-standing p (some q) = ground arith

update-standing :
    (s : Store) (p : Provider) (id : ℕ)
    → Option.map standing (get_provider (update_provider s p) id)
      ≡ Option.map standing (get_provider s id)
unfolding get_provider update_provider
update-standing s p id =
    rw
      (find-update_where (provider_is id) (provider_is p.id) (profile_of p) s.providers (λ q. refl))
      (change-standing p (find (provider_is id) s.providers))

save_provider-saved :
    (f : Float64) (pol : BillingPolicy) (s : Store) (user_id : ℕ) (i : ProviderInput) (new_id : ℕ)
    (now : ℤ) (p : Provider)
    → validate_provider f i ≡ none
    → get_provider_by_owner s user_id ≡ some p
    → (run (save_provider f pol user_id i new_id now) s).1
      ≡ update_provider s (record (apply_input i p) { updated_at = now })
unfolding save_provider run ◌>>=◌ validated reading writing
save_provider-saved f pol s user_id i new_id now p good own = rw good (
    subst
      (λ o.
        (run (save_found pol i user_id new_id now o) s).1
        ≡ update_provider s (record (apply_input i p) { updated_at = now }))
      (sym own) refl)

update-ledger : (s : Store) (p : Provider) → (update_provider s p).ledger ≡ s.ledger
unfolding update_provider
update-ledger s p = refl

-- A user with a profile who saves it, whatever the input, changes no provider's balance,
-- verification, suspension or owner, and writes nothing to the ledger.
pub save_provider-standing :
    (f : Float64) (pol : BillingPolicy) (s : Store) (user_id : ℕ) (i : ProviderInput) (new_id : ℕ)
    (now : ℤ) (p : Provider) (id : ℕ)
    → get_provider_by_owner s user_id ≡ some p
    → (Option.map standing (get_provider (run (save_provider f pol user_id i new_id now) s).1 id)
        ≡ Option.map standing (get_provider s id))
      × ((run (save_provider f pol user_id i new_id now) s).1.ledger ≡ s.ledger)
unfolding save_provider run ◌>>=◌ validated
save_provider-standing f pol s user_id i new_id now p id own =
    elim (Option-cases (validate_provider f i)) [
      | inr (e, bad) ↦ rw bad (refl, refl)
      | inl good ↦ rw (save_provider-saved f pol s user_id i new_id now p good own) (
        update-standing s (record (apply_input i p) { updated_at = now }) id,
        update-ledger s (record (apply_input i p) { updated_at = now }),
      )
    ]
