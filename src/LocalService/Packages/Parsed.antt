-- ===== src/LocalService/Packages/Parsed.antt =====
-- What ParsePackages guarantees of the packages that it returns.
use mathlib.Core.Path.{subst}
use flood_now_backend.Base.{
  ◌≡◌, refl, ap, Bool, true, false, not, ◌&&◌, ◌||◌, Option, none, some, List, [], ◌∷◌, ◌++◌, arith,
  Bool-cases, inl, inr, ◌≤◌, count_by,
}
use flood_now_backend.Base.Text.{
  Text, text_eq, text_eq_comm, text_eq_sound, trim_space, is_empty, byte_len, rune_len-positive,
}
use flood_now_backend.Base.Int.{pos, ◌≤ℤ◌}
use flood_now_backend.LocalService.Wallet.{Package}
use flood_now_backend.LocalService.Packages.{
  package_of, package_allowed, has_id, ParsedPart, good_part, bad_part, check_package, parse_fields,
  parse_part, next_part, ParsedPackages, packages, parse_parts, parse_packages, split_on, atoi,
}

unfoldable all_allowed : List Package → Bool
unfolding package_allowed
all_allowed [] = true
all_allowed (p ∷ ps) = package_allowed p && all_allowed ps

unfoldable distinct_ids : List Package → Bool
unfolding has_id
distinct_ids [] = true
distinct_ids (p ∷ ps) = not (has_id p.id ps) && distinct_ids ps

all_allowed-snoc :
    (out : List Package) (p : Package)
    → all_allowed out ≡ true
    → package_allowed p ≡ true
    → all_allowed (out ++ (p ∷ [])) ≡ true
unfolding all_allowed
all_allowed-snoc [] p h k = rw k
all_allowed-snoc (q ∷ out) p h k = ground (arith, all_allowed-snoc out p)

has_id-snoc :
    (id : Text) (out : List Package) (p : Package)
    → has_id id (out ++ (p ∷ [])) ≡ (has_id id out || text_eq p.id id)
unfolding has_id
has_id-snoc id [] p = ground arith
has_id-snoc id (q ∷ out) p = ground (arith, has_id-snoc id out p)

distinct_ids-snoc :
    (out : List Package) (p : Package)
    → distinct_ids out ≡ true
    → has_id p.id out ≡ false
    → distinct_ids (out ++ (p ∷ [])) ≡ true
unfolding distinct_ids has_id
distinct_ids-snoc [] p h k = refl
distinct_ids-snoc (q ∷ out) p h k =
    ground (arith, distinct_ids-snoc out p, has_id-snoc q.id out p, text_eq_comm p.id q.id)

abbrev package_in : Package → ParsedPart → Package
package_in q (good_part p) = p
package_in q (bad_part e) = q

-- A part that is good has an allowed package, with a new id.
check_package-good :
    (out : List Package) (part : Text) (o : Option Package) (p : Package)
    → check_package out part o ≡ good_part p
    → (package_allowed p ≡ true) × (has_id p.id out ≡ false)
check_package-good out part none p h = absurd (cc h)
check_package-good out part (some q) p h = elim (Bool-cases (package_allowed q)) [
  | inr barred ↦ absurd (cc (rw barred at h))
  | inl fine ↦ elim (Bool-cases (has_id q.id out)) [
    | inl taken ↦ absurd (cc (rw (fine, taken) at h))
    | inr new ↦
        subst (λ x. (package_allowed x ≡ true) × (has_id x.id out ≡ false))
          (ap (package_in q) (rw (fine, new) at h)) (fine, new)
  ]
]

parse_fields-good :
    (out : List Package) (part : Text) (fields : List Text) (p : Package)
    → parse_fields out part fields ≡ good_part p
    → (package_allowed p ≡ true) × (has_id p.id out ≡ false)
parse_fields-good out part (id ∷ thb ∷ credits ∷ []) p h =
    check_package-good out part (package_of (trim_space id) (atoi thb) (atoi credits)) p h
parse_fields-good out part [] p h = absurd (cc h)
parse_fields-good out part (a ∷ []) p h = absurd (cc h)
parse_fields-good out part (a ∷ b ∷ []) p h = absurd (cc h)
parse_fields-good out part (a ∷ b ∷ c ∷ d ∷ fields) p h = absurd (cc h)

parse_part-good :
    (out : List Package) (part : Text) (p : Package)
    → parse_part out part ≡ good_part p
    → (package_allowed p ≡ true) × (has_id p.id out ≡ false)
unfolding parse_part
parse_part-good out part p h = parse_fields-good out part (split_on 58 (trim_space part)) p h

abbrev IsGood : List Package → Type 0
IsGood ps = (all_allowed ps ≡ true) × (distinct_ids ps ≡ true)

abbrev result_packages : List Package → ParsedPackages → List Package
result_packages qs (packages ps) = ps
result_packages qs e = qs

next_part-IsGood :
    (out : List Package) (part : Text) (parts : List Text) (ps : List Package) (r : ParsedPart)
    → parse_part out part ≡ r
    → IsGood out
    → ((p : Package)
        → IsGood (out ++ (p ∷ []))
        → parse_parts (out ++ (p ∷ [])) parts ≡ packages ps
        → IsGood ps)
    → next_part r (λ p. parse_parts (out ++ (p ∷ [])) parts) ≡ packages ps
    → IsGood ps
next_part-IsGood out part parts ps (bad_part e) k g rest h = absurd (cc h)
next_part-IsGood out part parts ps (good_part p) k g rest h =
    let fine = parse_part-good out part p k in
    rest p (all_allowed-snoc out p g.0 fine.0, distinct_ids-snoc out p g.1 fine.1) h

parse_parts-IsGood :
    (out : List Package) (parts : List Text) (ps : List Package)
    → IsGood out
    → parse_parts out parts ≡ packages ps
    → IsGood ps
unfolding parse_parts
parse_parts-IsGood [] [] ps g h = absurd (cc h)
parse_parts-IsGood (q ∷ out) [] ps g h = subst IsGood (ap (result_packages ps) h) g
parse_parts-IsGood [] (part ∷ parts) ps g h =
    next_part-IsGood [] part parts ps _ refl g (λ p. parse_parts-IsGood (p ∷ []) parts ps) h
parse_parts-IsGood (q ∷ out) (part ∷ parts) ps g h =
    next_part-IsGood (q ∷ out) part parts ps _ refl g
      (λ p. parse_parts-IsGood ((q ∷ out) ++ (p ∷ [])) parts ps) h

-- What a package may be, and that every package of a list is one.
pub record Fits (p : Package) : Type 0 where
  pub named : 1 ≤ byte_len p.id
  pub short : byte_len p.id ≤ 32
  pub costs : pos 10 ≤ℤ p.thb
  pub affordable : p.thb ≤ℤ pos 100000
  pub buys : pos 1 ≤ℤ p.credits
  pub limited : p.credits ≤ℤ pos 1000000

abbrev pub EachFits : List Package → Type 0
EachFits [] = Unit
EachFits (p ∷ ps) = Fits p × EachFits ps

named-long : (id : Text) → is_empty id ≡ false → 1 ≤ byte_len id
unfolding is_empty byte_len
named-long [] h = absurd (cc h)
named-long (c ∷ s) h = ground (arith, rune_len-positive c)

allowed-Fits : (p : Package) → package_allowed p ≡ true → Fits p
unfolding package_allowed
allowed-Fits p h = record {
  named = named-long p.id (ground arith);
  short = ground arith;
  costs = ground arith;
  affordable = ground arith;
  buys = ground arith;
  limited = ground arith;
}

all_allowed-Fits : (ps : List Package) → all_allowed ps ≡ true → EachFits ps
unfolding all_allowed
all_allowed-Fits [] h = tt
all_allowed-Fits (p ∷ ps) h =
    (allowed-Fits p (ground (arith, h)), all_allowed-Fits ps (ground (arith, h)))

absent :
    (id : Text) (ps : List Package) → has_id id ps ≡ false → count_by (λ p. text_eq p.id id) ps ≡ 0
unfolding has_id
absent id [] h = refl
absent id (p ∷ ps) h = ground (arith, absent id ps)

distinct_ids-once :
    (id : Text) (ps : List Package)
    → distinct_ids ps ≡ true
    → count_by (λ p. text_eq p.id id) ps ≤ 1
unfolding distinct_ids
distinct_ids-once id [] h = omega arith
distinct_ids-once id (p ∷ ps) h = elim (Bool-cases (text_eq p.id id)) [
  | inr other ↦ ground (arith, other, distinct_ids-once id ps)
  | inl same ↦ ground (
    arith,
    same,
    absent id ps
        (subst (λ i. has_id i ps ≡ false) (text_eq_sound p.id id same) (ground (arith, h))),
  )
]

-- The packages that ParsePackages returns all have an id of 1 to 32 bytes, a price of 10 to 100000
-- baht and 1 to 1000000 credits, and at most one of them has any given id.
pub parse_packages_sound :
    (raw : Text) (ps : List Package)
    → parse_packages raw ≡ packages ps
    → EachFits ps × ((id : Text) → count_by (λ p. text_eq p.id id) ps ≤ 1)
unfolding parse_packages all_allowed distinct_ids
parse_packages_sound raw ps h =
    let good : IsGood ps = parse_parts-IsGood [] (split_on 44 raw) ps (refl, refl) h in
    (all_allowed-Fits ps good.0, λ id. distinct_ids-once id ps good.1)
