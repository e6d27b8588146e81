-- ===== src/Postgres/Invariants/Credits.antt =====
-- Which ledger rows there are: at most one for each key, one top-up row for each settled top-up, and
-- one fee row for each match that was charged.
use mathlib.Core.Path.{subst}
use flood_now_backend.Base.{
  ℕ, suc, ◌≤◌, ◌≡◌, refl, ap, ◌∙◌, Bool, true, false, not, ◌&&◌, Option, none, some, List, [], ◌∷◌,
  arith, any, count_by, if◌then◌else◌, Bool-cases, inl, inr,
}
use flood_now_backend.LocalService.Offer.{Match, charged}
use flood_now_backend.LocalService.Wallet.{
  Key, key_eq, top_up_key, match_fee_key, Transaction, LedgerEntry, Topup,
}
use flood_now_backend.Postgres.Table.{find, any-count_by}
use flood_now_backend.Postgres.Store.{Store, has_key, match_of_offer, topup_is}
use flood_now_backend.Postgres.Ledger.{post}
use flood_now_backend.Postgres.Balance.{Applied, repeated, posted}
use flood_now_backend.Postgres.Posts.{Posts, unposted, posts}
use flood_now_backend.Postgres.Topups.{is_settled}

abbrev pub rows_of : Key → Store → ℕ
rows_of k s = count_by (has_key k) s.ledger

-- No two rows share a key.
abbrev pub UniqueKeys : Store → Type 0
UniqueKeys s = (k : Key) → rows_of k s ≤ 1

abbrev pub expected_credits : Option Topup → ℕ
expected_credits none = 0
expected_credits (some t) = if is_settled t.status then 1 else 0

-- A top-up has one row when it is paid or refunded, and none before.
abbrev pub CreditedOnce : Store → Type 0
CreditedOnce s =
    (id : ℕ) → rows_of (top_up_key id) s ≡ expected_credits (find (topup_is id) s.topups)

abbrev pub expected_fees : Option Match → ℕ
expected_fees none = 0
expected_fees (some m) = if charged m then 1 else 0

-- An offer has one fee row when its match was charged, and none otherwise.
abbrev pub ChargedOnce : Store → Type 0
ChargedOnce s =
    (offer_id : ℕ)
    → rows_of (match_fee_key offer_id) s ≡ expected_fees (find (match_of_offer offer_id) s.matches)

-- applyLedger adds a row for its entry's key unless that key has one, and no other row.
pub Applied-rows :
    (s : Store) (e : LedgerEntry) (k : Key) {done : Bool} {s' : Store}
    → Applied s e done s'
    → rows_of k s' ≡ (
        if key_eq e.key k && not (any (has_key e.key) s.ledger)
        then suc (rows_of k s)
        else rows_of k s)
unfolding post
Applied-rows s e k (repeated off same known) = ground (arith)
Applied-rows s e k (posted p there on same new enough) = ground (arith)

pub key_eq_sound : (a b : Key) → key_eq a b ≡ true → a ≡ b
unfolding key_eq
key_eq_sound a b h = ground arith

any-of_count :
    (k : Key) (t : List Transaction) → count_by (has_key k) t ≡ 0 → any (has_key k) t ≡ false
any-of_count k [] h = refl
any-of_count k (x ∷ t) h = ground (arith, any-of_count k t)

-- A new key has no row; an entry with another key leaves the rows of this one.
pub unknown_rows : (k : Key) (s : Store) → rows_of k s ≡ 0 → any (has_key k) s.ledger ≡ false
unknown_rows k s h = any-of_count k s.ledger h

Applied-UniqueKeys :
    (s : Store) (e : LedgerEntry) (k : Key) {done : Bool} {s' : Store}
    → Applied s e done s'
    → rows_of k s ≤ 1
    → rows_of k s' ≤ 1
Applied-UniqueKeys s e k a u = elim (Bool-cases (key_eq e.key k)) [
  | inr other ↦ rw (Applied-rows s e k a, other) u
  | inl same ↦ elim (Bool-cases (any (has_key e.key) s.ledger)) [
    | inl known ↦ rw (Applied-rows s e k a, same, known) u
    | inr new ↦
        rw (Applied-rows s e k a, same, new)
          (subst (λ j. suc (rows_of j s) ≤ 1) (key_eq_sound e.key k same)
            (omega (arith, any-count_by (has_key e.key) s.ledger new)))
  ]
]

pub Posts-UniqueKeys :
    {P : LedgerEntry → Type 0} {s s' : Store}
    → Posts P s s'
    → (k : Key) → rows_of k s ≤ 1
    → rows_of k s' ≤ 1
Posts-UniqueKeys (unposted e) k u = rw e u
Posts-UniqueKeys (posts s0 s1 e done p before a after) k u =
    rw after (Applied-UniqueKeys s0 e k a (rw before u))

-- An entry whose key is another one leaves the rows of a key alone.
pub Posts-rows :
    {P : LedgerEntry → Type 0} {s s' : Store} (k : Key)
    → ((e : LedgerEntry) → P e → key_eq e.key k ≡ false)
    → Posts P s s'
    → rows_of k s' ≡ rows_of k s
Posts-rows k other (unposted e) = ap (count_by (has_key k)) e
Posts-rows k other (posts s0 s1 e done p before a after) =
    ap (count_by (has_key k)) after
    ∙ rw (other e p) at (Applied-rows s0 e k a)
    ∙ ap (count_by (has_key k)) before
