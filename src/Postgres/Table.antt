-- ===== src/Postgres/Table.antt =====
-- A table is a list of rows: SELECT … WHERE takes the first row that passes, UPDATE … WHERE
-- changes every row that passes.
use mathlib.Core.Option
use flood_now_backend.Base.{
  Bool-cases, inl, inr, ==_iff, ℕ, ◌==◌, ◌≡◌, refl, Bool, true, false, Option, none, some, List, [],
  ◌∷◌, arith, any, count_by, if◌then◌else◌,
}

module _ {ℓ} {R : Type ℓ} where
  unfoldable pub find : (R → Bool) → List R → Option R
  find p [] = none
  find p (x ∷ xs) = if p x then some x else find p xs

  abbrev pub change : (R → Bool) → (R → R) → R → R
  change p f r = if p r then f r else r

  unfoldable pub update_where : (R → Bool) → (R → R) → List R → List R
  update_where p f [] = []
  update_where p f (x ∷ xs) = change p f x ∷ update_where p f xs

  pub find_sound : (p : R → Bool) (t : List R) {r : R} → find p t ≡ some r → p r ≡ true
  unfolding find
  find_sound p [] h = ground arith
  find_sound p (x ∷ xs) {r} h = ground (arith, find_sound p xs {r = r})

  -- An update that leaves alone what a search reads changes the row that is found, and no other.
  pub find-update_where :
      (q p : R → Bool) (f : R → R) (t : List R)
      → ((r : R) → q (f r) ≡ q r)
      → find q (update_where p f t) ≡ Option.map (change p f) (find q t)
  unfolding find update_where
  find-update_where q p f [] h = refl
  find-update_where q p f (x ∷ xs) h = ground (arith, h x, find-update_where q p f xs h)

  -- An update of rows that another search does not read.
  pub count_by-update_where :
      (q p : R → Bool) (f : R → R) (t : List R)
      → ((r : R) → p r ≡ true → q (f r) ≡ q r)
      → count_by q (update_where p f t) ≡ count_by q t
  unfolding update_where
  count_by-update_where q p f [] h = refl
  count_by-update_where q p f (x ∷ xs) h = ground (arith, h x, count_by-update_where q p f xs h)

  pub find-none-any : (p : R → Bool) (t : List R) → find p t ≡ none → any p t ≡ false
  unfolding find
  find-none-any p [] h = refl
  find-none-any p (x ∷ xs) h = ground (arith, find-none-any p xs)

  pub find-some-any : (p : R → Bool) (t : List R) {r : R} → find p t ≡ some r → any p t ≡ true
  unfolding find
  find-some-any p [] h = ground arith
  find-some-any p (x ∷ xs) {r} h = ground (arith, find-some-any p xs {r = r})

  pub any-count_by : (p : R → Bool) (t : List R) → any p t ≡ false → count_by p t ≡ 0
  any-count_by p [] h = refl
  any-count_by p (x ∷ xs) h = ground (arith, any-count_by p xs)

-- Rows by their key: an update of one row that keeps its key.
module _ {ℓ} {R : Type ℓ} (key : R → ℕ) (f : R → R) (t : List R) (k : ℕ) (r : R)
    (same : (x : R) → key (f x) ≡ key x) (found : find (λ x. key x == k) t ≡ some r) where
  find-update_self : find (λ x. key x == k) (update_where (λ x. key x == k) f t) ≡ some (f r)
  find-update_self =
      rw (find-update_where (λ x. key x == k) (λ x. key x == k) f t (λ x. rw (same x)), found)
        (rw (find_sound (λ x. key x == k) t found))

  find-update_ne :
      (j : ℕ)
      → (k == j) ≡ false
      → (o : Option R) → find (λ x. key x == j) t ≡ o
      → find (λ x. key x == j) (update_where (λ x. key x == k) f t) ≡ o
  find-update_ne j ne none h =
      rw (find-update_where (λ x. key x == j) (λ x. key x == k) f t (λ x. rw (same x)), h)
  find-update_ne j ne (some x) h =
      rw (find-update_where (λ x. key x == j) (λ x. key x == k) f t (λ x. rw (same x)), h)
        (ground (arith, find_sound (λ x. key x == j) t h))

  pub find-update_key :
      (j : ℕ)
      → find (λ x. key x == j) (update_where (λ x. key x == k) f t)
        ≡ (if k == j then some (f r) else find (λ x. key x == j) t)
  find-update_key j = elim (Bool-cases (k == j)) [
    | inl e ↦ rw (e, ← (==_iff k j).0 e) find-update_self
    | inr ne ↦ rw ne (find-update_ne j ne (find (λ x. key x == j) t) refl)
  ]
