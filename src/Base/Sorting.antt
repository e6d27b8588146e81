-- ===== src/Base/Sorting.antt =====
-- sort.SliceStable, and ORDER BY, as insertion into the sorted rest: equal elements keep their order.
use mathlib.Core.List.Perm
use mathlib.Core.List.{Perm}
use Prim.Native.Nat.{suc}
use native.Mathlib.Omega.{arith}
use mathlib.Core.Path.{◌≡◌, refl}
use mathlib.Core.Bool.{Bool, true, false, ◌&&◌}
use mathlib.Core.Logic.{inl, inr}
use mathlib.Core.List.{List, [], ◌∷◌}
use flood_now_backend.Base.Lists.{length, all}
use flood_now_backend.Base.Tests.{if◌then◌else◌, Bool-cases}

module _ {ℓ} {A : Type ℓ} (before : A → A → Bool) where
  -- In front of the first element that does not come before it.
  unfoldable pub insert_sorted : A → List A → List A
  insert_sorted x [] = x ∷ []
  insert_sorted x (y ∷ ys) =
      let rest = insert_sorted x ys in if before y x then y ∷ rest else x ∷ y ∷ ys

  unfoldable pub sort_by : List A → List A
  unfolding insert_sorted
  sort_by [] = []
  sort_by (x ∷ xs) = insert_sorted x (sort_by xs)

  -- No element comes before the one in front of it.
  abbrev pub Follows : A → List A → Type 0
  Follows x [] = Unit
  Follows x (y ∷ ys) = before y x ≡ false

  abbrev pub IsSorted : List A → Type 0
  IsSorted [] = Unit
  IsSorted (x ∷ xs) = Follows x xs × IsSorted xs

  insert_sorted-perm : (x : A) (xs : List A) → Perm (insert_sorted x xs) (x ∷ xs)
  unfolding insert_sorted
  insert_sorted-perm x [] = Perm.refl _
  insert_sorted-perm x (y ∷ ys) = elim (Bool-cases (before y x)) [
    | inl e ↦ rw e (Perm.trans (Perm.cons y (insert_sorted-perm x ys)) (Perm.swap x y ys))
    | inr e ↦ rw e (Perm.refl _)
  ]

  -- Sorting loses no element and makes none up.
  pub sort_by-perm : (xs : List A) → Perm (sort_by xs) xs
  unfolding sort_by
  sort_by-perm [] = Perm.refl _
  sort_by-perm (x ∷ xs) =
      Perm.trans (insert_sorted-perm x (sort_by xs)) (Perm.cons x (sort_by-perm xs))

  insert_sorted_lem :
      (p : A → Bool) (x : A) (xs : List A)
      → (length (insert_sorted x xs) ≡ suc (length xs))
        × (all p (insert_sorted x xs) ≡ (p x && all p xs))
  unfolding insert_sorted
  insert_sorted_lem p x [] = (refl, refl)
  insert_sorted_lem p x (y ∷ ys) = elim (Bool-cases (before y x)) [
    | inl e ↦ let h = insert_sorted_lem p x ys in rw e (rw (h.0, h.1) (refl, ground arith))
    | inr e ↦ rw e (refl, refl)
  ]

  -- Sorting keeps the length and what all elements pass.
  pub sort_by_lem :
      (p : A → Bool) (xs : List A)
      → (length (sort_by xs) ≡ length xs) × (all p (sort_by xs) ≡ all p xs)
  unfolding sort_by
  sort_by_lem p [] = (refl, refl)
  sort_by_lem p (x ∷ xs) =
      let h = insert_sorted_lem p x (sort_by xs) in
      let k = sort_by_lem p xs in rw (h.0, h.1, k.0, k.1) (refl, refl)

  module _ (asymmetric : (a b : A) → before a b ≡ true → before b a ≡ false) where
    Follows-insert :
        (y x : A) (ys : List A) → before y x ≡ true → Follows y ys → Follows y (insert_sorted x ys)
    unfolding insert_sorted
    Follows-insert y x [] e h = asymmetric y x e
    Follows-insert y x (z ∷ zs) e h = elim (Bool-cases (before z x)) [
      | inl later ↦ rw later h
      | inr first ↦ rw first (asymmetric y x e)
    ]

    insert_sorted-IsSorted : (x : A) (xs : List A) → IsSorted xs → IsSorted (insert_sorted x xs)
    unfolding insert_sorted
    insert_sorted-IsSorted x [] h = (tt, tt)
    insert_sorted-IsSorted x (y ∷ ys) h = elim (Bool-cases (before y x)) [
      | inl e ↦ rw e (Follows-insert y x ys e h.0, insert_sorted-IsSorted x ys h.1)
      | inr e ↦ rw e (e, h)
    ]

    -- The result is in order.
    pub sort_by-IsSorted : (xs : List A) → IsSorted (sort_by xs)
    unfolding sort_by
    sort_by-IsSorted [] = tt
    sort_by-IsSorted (x ∷ xs) = insert_sorted-IsSorted x (sort_by xs) (sort_by-IsSorted xs)
