-- ===== src/Postgres/Balance.antt =====
-- The cached balance of a provider against the sum of its ledger rows, over applyLedger.
use mathlib.Core.Option
use mathlib.Core.Path.{subst}
use flood_now_backend.Base.{
  ℕ, ◌≡◌, refl, Bool, true, false, Option, none, some, List, [], ◌∷◌, arith, any, ◌==◌, ==_iff,
  ==_refl, Bool-cases, Option-cases, inl, inr, if◌then◌else◌,
}
use flood_now_backend.Base.Int.{ℤ, pos, ◌+ℤ◌, ◌≤ℤ◌, int_laws, ltb_ℤ, ltb_ℤ_false}
use flood_now_backend.Apperr.{ok}
use flood_now_backend.LocalService.Provider.{Provider}
use flood_now_backend.LocalService.Wallet.{Transaction, LedgerEntry}
use flood_now_backend.Postgres.Table.{find-update_where, find_sound, change}
use flood_now_backend.Postgres.Store.{Store, provider_is, has_key, get_provider}
use flood_now_backend.Postgres.Ledger.{
  row_allowed, set_balance, post, apply_to_balance, apply_ledger, apply_found,
}

-- The sum of the amounts of a provider's rows.
unfoldable pub ledger_sum : ℕ → List Transaction → ℤ
ledger_sum id [] = pos 0
ledger_sum id (t ∷ ts) =
    if t.provider_id == id then t.amount +ℤ ledger_sum id ts else ledger_sum id ts

abbrev pub balance_of : Option Provider → ℤ
balance_of none = pos 0
balance_of (some p) = p.credit_balance

-- Every balance is the sum of its ledger rows, and none is negative. A provider that is not there
-- has no rows.
pub record Balanced (s : Store) : Type 0 where
  pub cached : (id : ℕ) → balance_of (get_provider s id) ≡ ledger_sum id s.ledger
  pub nonneg : (id : ℕ) → pos 0 ≤ℤ balance_of (get_provider s id)

pub get_provider_sound :
    (s : Store) (id : ℕ) {p : Provider} → get_provider s id ≡ some p → p.id ≡ id
unfolding get_provider
get_provider_sound s id {p} h = (==_iff p.id id).0 (find_sound (provider_is id) s.providers h)

get_provider-post :
    (s : Store) (e : LedgerEntry) (next : ℤ) (id : ℕ)
    → get_provider (post s e next) id
      ≡ Option.map (change (provider_is e.provider_id) (set_balance next)) (get_provider s id)
unfolding get_provider post
get_provider-post s e next id =
    find-update_where (provider_is id) (provider_is e.provider_id) (set_balance next) s.providers
      (λ r. refl)

+ℤ_comm : (a b : ℤ) → a +ℤ b ≡ b +ℤ a
+ℤ_comm a b = omega int_laws

-- The provider whose row is found by the id of another search.
pub get_provider-post_self :
    (s : Store) (e : LedgerEntry) (next : ℤ) {p : Provider}
    → get_provider s e.provider_id ≡ some p
    → balance_of (get_provider (post s e next) e.provider_id) ≡ next
get_provider-post_self s e next {p} there =
    ground
      (arith, get_provider-post s e next e.provider_id, get_provider_sound s e.provider_id there)

get_provider-post_ne :
    (s : Store) (e : LedgerEntry) (next : ℤ) (id : ℕ)
    → (e.provider_id == id) ≡ false
    → get_provider (post s e next) id ≡ get_provider s id
get_provider-post_ne s e next id ne = elim (Option-cases (get_provider s id)) [
  | inl missing ↦ ground (arith, get_provider-post s e next id)
  | inr (q, found) ↦ ground (arith, get_provider-post s e next id, get_provider_sound s id found)
]

module _ (s : Store) (e : LedgerEntry) (p : Provider)
    (there : get_provider s e.provider_id ≡ some p) where
  sum_grows :
      Balanced s → p.credit_balance +ℤ e.amount ≡ e.amount +ℤ ledger_sum e.provider_id s.ledger
  sum_grows b =
      let c : p.credit_balance ≡ ledger_sum e.provider_id s.ledger =
        rw there at (b.cached e.provider_id) in
      rw (← c) (+ℤ_comm p.credit_balance e.amount)

  abbrev next : ℤ
  next = p.credit_balance +ℤ e.amount

  post-cached_self :
      Balanced s
      → balance_of (get_provider (post s e next) e.provider_id)
        ≡ ledger_sum e.provider_id (post s e next).ledger
  unfolding post ledger_sum
  post-cached_self b =
      rw (get_provider-post_self s e next there) (rw (==_refl e.provider_id) (sum_grows b))

  post-cached :
      (id : ℕ)
      → Balanced s
      → balance_of (get_provider (post s e next) id) ≡ ledger_sum id (post s e next).ledger
  unfolding post ledger_sum
  post-cached id b = elim (Bool-cases (e.provider_id == id)) [
    | inl same ↦
        subst
          (λ i. balance_of (get_provider (post s e next) i) ≡ ledger_sum i (post s e next).ledger)
          ((==_iff e.provider_id id).0 same) (post-cached_self b)
    | inr ne ↦ rw (get_provider-post_ne s e next id ne) (rw ne (b.cached id))
  ]

  post-nonneg :
      (id : ℕ) → Balanced s → pos 0 ≤ℤ next → pos 0 ≤ℤ balance_of (get_provider (post s e next) id)
  post-nonneg id b h = elim (Bool-cases (e.provider_id == id)) [
    | inl same ↦
        subst (λ i. pos 0 ≤ℤ balance_of (get_provider (post s e next) i))
          ((==_iff e.provider_id id).0 same) (rw (get_provider-post_self s e next there) h)
    | inr ne ↦ rw (get_provider-post_ne s e next id ne) (b.nonneg id)
  ]

  pub post-Balanced : Balanced s → pos 0 ≤ℤ next → Balanced (post s e next)
  post-Balanced b h = record { cached = λ id. post-cached id b; nonneg = λ id. post-nonneg id b h }

-- How applyLedger can succeed: a key that is known changes nothing, a new one is posted.
pub data Applied (s : Store) (e : LedgerEntry) (done : Bool) (s' : Store) : Type 0 where
  repeated : done ≡ false → s' ≡ s → any (has_key e.key) s.ledger ≡ true → Applied s e done s'
  posted :
      (p : Provider)
      → get_provider s e.provider_id ≡ some p
      → done ≡ true
      → s' ≡ post s e (p.credit_balance +ℤ e.amount)
      → any (has_key e.key) s.ledger ≡ false
      → pos 0 ≤ℤ p.credit_balance +ℤ e.amount
      → Applied s e done s'

apply_to_balance-ok :
    (s : Store) (e : LedgerEntry) (p : Provider) (done : Bool) (s' : Store)
    → get_provider s e.provider_id ≡ some p
    → apply_to_balance s e p.credit_balance ≡ ok (done, s')
    → Applied s e done s'
unfolding apply_to_balance
apply_to_balance-ok s e p done s' there h =
    elim (Bool-cases (ltb_ℤ (p.credit_balance +ℤ e.amount) (pos 0))) [
      | inl negative ↦ absurd (cc (rw negative at h))
      | inr enough ↦ elim (Bool-cases (row_allowed e (p.credit_balance +ℤ e.amount))) [
        | inl allowed ↦ elim (Bool-cases (any (has_key e.key) s.ledger)) [
          | inl known ↦
              repeated (cc (rw (enough, allowed, known) at h))
                (cc (rw (enough, allowed, known) at h)) known
          | inr new ↦
              posted p there (cc (rw (enough, allowed, new) at h))
                (cc (rw (enough, allowed, new) at h)) new
                (ltb_ℤ_false (p.credit_balance +ℤ e.amount) (pos 0) enough)
        ]
        | inr refused ↦ absurd (cc (rw (enough, refused) at h))
      ]
    ]

pub apply_ledger-ok :
    (s : Store) (e : LedgerEntry) (done : Bool) (s' : Store)
    → apply_ledger s e ≡ ok (done, s')
    → Applied s e done s'
unfolding apply_ledger
apply_ledger-ok s e done s' h = go (get_provider s e.provider_id) refl h
  where
    go :
        (o : Option Provider)
        → get_provider s e.provider_id ≡ o
        → apply_found s e o ≡ ok (done, s')
        → Applied s e done s'
    go none there k = absurd (cc k)
    go (some p) there k = apply_to_balance-ok s e p done s' there k

-- applyLedger keeps the cache equal to the sum, and never takes a balance below zero.
pub apply_ledger-Balanced :
    (s : Store) (e : LedgerEntry) {done : Bool} {s' : Store}
    → Balanced s
    → apply_ledger s e ≡ ok (done, s')
    → Balanced s'
apply_ledger-Balanced s e {done} {s'} b h = elim (apply_ledger-ok s e done s' h) [
  | repeated off same known ↦ rw same b
  | posted p there on same new enough ↦ rw same (post-Balanced s e p there b enough)
]
