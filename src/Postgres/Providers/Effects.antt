-- ===== src/Postgres/Providers/Effects.antt =====
-- What the writes to the providers do to the balances.
use mathlib.Core.Option
use flood_now_backend.Base.{
  ℕ, ◌≡◌, refl, Bool, false, Option, none, some, ◌∷◌, any, arith, List, [], ◌⊎◌, Bool-cases, inl,
  inr,
}
use flood_now_backend.Apperr.{Result, ok, err}
use flood_now_backend.LocalService.Provider.{Provider}
use flood_now_backend.LocalService.Wallet.{Transaction, LedgerEntry}
use flood_now_backend.Postgres.Table.{find, change, find-update_where}
use flood_now_backend.Postgres.Store.{Store, store_after, provider_is, has_key, get_provider}
use flood_now_backend.Postgres.Ledger.{apply_ledger}
use flood_now_backend.Postgres.Balance.{balance_of, Balanced, apply_ledger-Balanced}
use flood_now_backend.Postgres.Providers.{
  clashes_provider, inserted_provider, welcome_result, welcome_in, create_provider,
  update_providers, adjustment_row, adjustment_result, adjust_credit,
}

module _ (s : Store) (id : ℕ) (f : Provider → Provider) (same_id : (p : Provider) → (f p).id ≡ p.id)
    (same_balance : (p : Provider) → (f p).credit_balance ≡ p.credit_balance) where
  change-balance :
      (o : Option Provider) → balance_of (Option.map (change (provider_is id) f) o) ≡ balance_of o
  change-balance none = refl
  change-balance (some p) = ground (arith, same_balance p)

  update_providers-balance :
      (j : ℕ)
      → balance_of (get_provider (update_providers s id f) j) ≡ balance_of (get_provider s j)
  unfolding get_provider
  update_providers-balance j =
      rw (find-update_where (provider_is j) (provider_is id) f s.providers (λ r. rw (same_id r)))
        (change-balance (find (provider_is j) s.providers))

  -- An update of other columns than the id and the balance keeps every balance.
  pub update_providers-Balanced : Balanced s → Balanced (update_providers s id f)
  update_providers-Balanced b = record {
    cached = λ j. rw (update_providers-balance j) (b.cached j);
    nonneg = λ j. rw (update_providers-balance j) (b.nonneg j);
  }

no_clash-find :
    (p : Provider) (t : List Provider) (id : ℕ)
    → any (clashes_provider p) t ≡ false
    → p.id ≡ id
    → find (provider_is id) t ≡ none
unfolding find
no_clash-find p [] id h e = refl
no_clash-find p (q ∷ t) id h e = ground (arith, no_clash-find p t id)

module _ (s : Store) (p : Provider) (no_clash : any (clashes_provider p) s.providers ≡ false) where
  abbrev with_provider : Store
  with_provider = record s { providers = inserted_provider p ∷ s.providers }

  with_provider-balance :
      (id : ℕ) → balance_of (get_provider with_provider id) ≡ balance_of (get_provider s id)
  unfolding get_provider find
  with_provider-balance id = ground (arith, no_clash-find p s.providers id no_clash)

  -- A new provider starts with no credit, and has no rows yet.
  with_provider-Balanced : Balanced s → Balanced with_provider
  with_provider-Balanced b = record {
    cached = λ j. rw (with_provider-balance j) (b.cached j);
    nonneg = λ j. rw (with_provider-balance j) (b.nonneg j);
  }

welcome_result-Balanced :
    (s s1 : Store) (e : LedgerEntry) (r : Result (Bool × Store))
    → apply_ledger s1 e ≡ r
    → Balanced s
    → Balanced s1
    → Balanced (store_after s (welcome_result r))
welcome_result-Balanced s s1 e (err x) run b b1 = b
welcome_result-Balanced s s1 e (ok (done, s2)) run b b1 = apply_ledger-Balanced s1 e b1 run

welcome-Balanced :
    (s s1 : Store) (w : Option LedgerEntry)
    → Balanced s
    → Balanced s1
    → Balanced (store_after s (welcome_in s1 w))
welcome-Balanced s s1 none b b1 = b1
welcome-Balanced s s1 (some e) b b1 = welcome_result-Balanced s s1 e _ refl b b1

pub create_provider-Balanced :
    (s : Store) (p : Provider) (w : Option LedgerEntry)
    → Balanced s
    → Balanced (store_after s (create_provider s p w))
unfolding create_provider
create_provider-Balanced s p w b = elim (Bool-cases (any (clashes_provider p) s.providers)) [
  | inl clash ↦ rw clash b
  | inr new ↦ rw new (welcome-Balanced s _ w b (with_provider-Balanced s p new b))
]

adjustment_row-store :
    (s : Store) (o : Option Transaction) (s2 : Store)
    → (store_after s (adjustment_row o s2) ≡ s) ⊎ (store_after s (adjustment_row o s2) ≡ s2)
adjustment_row-store s none s2 = inl refl
adjustment_row-store s (some t) s2 = inr refl

adjustment_result-Balanced :
    (s : Store) (e : LedgerEntry) (r : Result (Bool × Store))
    → apply_ledger s e ≡ r
    → Balanced s
    → Balanced (store_after s (adjustment_result e r))
adjustment_result-Balanced s e (err x) run b = b
adjustment_result-Balanced s e (ok (done, s2)) run b =
    elim (adjustment_row-store s (find (has_key e.key) s2.ledger) s2) [
      | inl same ↦ rw same b
      | inr kept ↦ rw kept (apply_ledger-Balanced s e b run)
    ]

pub adjust_credit-Balanced :
    (s : Store) (e : LedgerEntry) → Balanced s → Balanced (store_after s (adjust_credit s e))
unfolding adjust_credit
adjust_credit-Balanced s e b = adjustment_result-Balanced s e _ refl b
