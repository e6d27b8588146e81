-- ===== src/Postgres/Rows.antt =====
-- What an UPDATE does to the number of rows that pass a test, and to a test that every row passes.
use flood_now_backend.Base.{
  ◌+◌, ◌≤◌, ◌≡◌, refl, Bool, true, false, List, [], ◌∷◌, arith, all, any, count_by, some,
  Bool-cases, inl, inr,
}
use flood_now_backend.Postgres.Table.{find, update_where}

module _ {ℓ} {R : Type ℓ} where
  -- A changed row counts only if it did before.
  pub count_by-update_le :
      (q p : R → Bool) (f : R → R) (t : List R)
      → ((r : R) → p r ≡ true → q (f r) ≡ true → q r ≡ true)
      → count_by q (update_where p f t) ≤ count_by q t
  unfolding update_where
  count_by-update_le q p f [] h = omega arith
  count_by-update_le q p f (x ∷ xs) h = ground (arith, h x, count_by-update_le q p f xs h)

  -- Every changed row adds at most one.
  pub count_by-update_add :
      (q p : R → Bool) (f : R → R) (t : List R)
      → count_by q (update_where p f t) ≤ count_by q t + count_by p t
  unfolding update_where
  count_by-update_add q p f [] = omega arith
  count_by-update_add q p f (x ∷ xs) = ground (arith, count_by-update_add q p f xs)

  pub count_by_mono :
      (q p : R → Bool) (t : List R)
      → ((r : R) → q r ≡ true → p r ≡ true)
      → count_by q t ≤ count_by p t
  count_by_mono q p [] h = omega arith
  count_by_mono q p (x ∷ xs) h = ground (arith, h x, count_by_mono q p xs h)

  pub all-update_where :
      (q p : R → Bool) (f : R → R) (t : List R)
      → ((r : R) → q r ≡ true → p r ≡ true → q (f r) ≡ true)
      → all q t ≡ true
      → all q (update_where p f t) ≡ true
  unfolding update_where
  all-update_where q p f [] h k = refl
  all-update_where q p f (x ∷ xs) h k = ground (arith, h x, all-update_where q p f xs h)

  -- No row passes a test that implies one that none passes.
  pub count_by-none :
      (q p : R → Bool) (t : List R)
      → ((r : R) → q r ≡ true → p r ≡ true)
      → any p t ≡ false
      → count_by q t ≡ 0
  count_by-none q p [] h k = refl
  count_by-none q p (x ∷ xs) h k = ground (arith, h x, count_by-none q p xs h)

  pub any_of_found :
      (p q : R → Bool) (t : List R) {r : R} → find q t ≡ some r → p r ≡ true → any p t ≡ true
  unfolding find
  any_of_found p q [] h k = ground arith
  any_of_found p q (x ∷ xs) {r} h k = ground (arith, any_of_found p q xs {r = r})

  pub any_mono :
      (p q : R → Bool) (t : List R)
      → ((r : R) → p r ≡ true → q r ≡ true)
      → any p t ≡ true
      → any q t ≡ true
  any_mono p q [] h a = ground arith
  any_mono p q (x ∷ xs) h a = ground (arith, h x, any_mono p q xs h)

  pub any-count :
      (q p : R → Bool) (t : List R)
      → ((x : R) → p x ≡ true → q x ≡ true)
      → any p t ≡ true
      → 1 ≤ count_by q t
  any-count q p [] h a = ground arith
  any-count q p (x ∷ xs) h a = ground (arith, h x, any-count q p xs h)

  -- Where at most one row passes, it is the row that is found.
  pub found_passes :
      (p q : R → Bool) (t : List R) {r : R}
      → ((x : R) → p x ≡ true → q x ≡ true)
      → count_by q t ≤ 1
      → any p t ≡ true
      → find q t ≡ some r
      → p r ≡ true
  unfolding find
  found_passes p q [] h k a f = ground arith
  found_passes p q (x ∷ xs) {r} h k a f = elim (Bool-cases (q x)) [
    | inl e ↦ elim (Bool-cases (p x)) [
      | inl here ↦ ground arith
      | inr there ↦ ground (arith, any-count q p xs h)
    ]
    | inr e ↦ ground (arith, h x, found_passes p q xs {r = r} h)
  ]
