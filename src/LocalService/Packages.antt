-- ===== src/LocalService/Packages.antt =====
-- internal/domain/localservice/wallet.go: ParsePackages, with strings.Split and strconv.Atoi.
pub mod Parsed
use flood_now_backend.Base.{
  ℕ, ◌+◌, ◌*◌, ◌-◌, Bool, true, false, not, ◌&&◌, ◌||◌, Option, none, some, List, [], ◌∷◌, ◌++◌,
  ltb, leb, ◌==◌, if◌then◌else◌,
}
use flood_now_backend.Base.Int.{ℤ, pos, neg, ltb_ℤ}
use flood_now_backend.Base.Text.{Text, codes, text_eq, is_empty, byte_len, trim_space}
use flood_now_backend.LocalService.Wallet.{Package}

abbrev pub onto_first : ℕ → List Text → List Text
onto_first c [] = (c ∷ []) ∷ []
onto_first c (t ∷ ts) = (c ∷ t) ∷ ts

-- strings.Split by a separator of one byte: never empty.
unfoldable pub split_on : ℕ → Text → List Text
split_on sep [] = [] ∷ []
split_on sep (c ∷ s) =
    let rest = split_on sep s in if c == sep then [] ∷ rest else onto_first c rest

unfoldable pub digits : ℕ → Text → Option ℕ
digits value [] = some value
digits value (c ∷ s) =
    let rest = digits (value * 10 + (c - 48)) s in if leb 48 c && leb c 57 then rest else none

-- At least one digit.
abbrev pub number : Text → Option ℕ
number [] = none
number (c ∷ s) = digits 0 (c ∷ s)

-- The range of int, which is 64 bits wide.
abbrev pub nonnegative : Option ℕ → Option ℤ
nonnegative none = none
nonnegative (some n) = if ltb n 9223372036854775808 then some (pos n) else none

abbrev pub negative : Option ℕ → Option ℤ
negative none = none
negative (some n) = if leb n 9223372036854775808 then some (neg (pos n)) else none

-- strconv.Atoi.
unfoldable pub atoi : Text → Option ℤ
unfolding digits
atoi [] = none
atoi (c ∷ s) =
    if c == 45
    then negative (number s)
    else if c == 43
    then nonnegative (number s)
    else nonnegative (number (c ∷ s))

-- The errors, with the part or the id that they quote.
pub data PackageError : Type 0 where
  not_three_fields : Text → PackageError
  invalid_package : Text → PackageError
  repeated_id : Text → PackageError
  no_packages : PackageError

pub data ParsedPackages : Type 0 where
  packages : List Package → ParsedPackages
  no_parse : PackageError → ParsedPackages

unfoldable pub has_id : Text → List Package → Bool
unfolding text_eq
has_id id [] = false
has_id id (p ∷ ps) = text_eq p.id id || has_id id ps

unfoldable pub package_allowed : Package → Bool
unfolding is_empty byte_len
package_allowed p =
    not (is_empty p.id)
    && not (ltb 32 (byte_len p.id))
    && not (ltb_ℤ p.thb (pos 10))
    && not (ltb_ℤ (pos 100000) p.thb)
    && not (ltb_ℤ p.credits (pos 1))
    && not (ltb_ℤ (pos 1000000) p.credits)

-- A part's package, where both numbers parse.
abbrev pub package_of : Text → Option ℤ → Option ℤ → Option Package
package_of id (some thb) (some credits) = some (record { id = id; thb = thb; credits = credits })
package_of id (some thb) none = none
package_of id none credits = none

pub data ParsedPart : Type 0 where
  good_part : Package → ParsedPart
  bad_part : PackageError → ParsedPart

-- The checks of one part, after what was parsed before it.
abbrev pub check_package : List Package → Text → Option Package → ParsedPart
check_package out part none = bad_part (invalid_package part)
check_package out part (some p) =
    if not (package_allowed p)
    then bad_part (invalid_package part)
    else if has_id p.id out
    then bad_part (repeated_id p.id)
    else good_part p

abbrev pub parse_fields : List Package → Text → List Text → ParsedPart
parse_fields out part (id ∷ thb ∷ credits ∷ []) =
    check_package out part (package_of (trim_space id) (atoi thb) (atoi credits))
parse_fields out part fields = bad_part (not_three_fields part)

unfoldable pub parse_part : List Package → Text → ParsedPart
unfolding trim_space split_on atoi package_allowed has_id
parse_part out part = parse_fields out part (split_on 58 (trim_space part))

-- The loop leaves at the first part that is refused.
abbrev pub next_part : ParsedPart → (Package → ParsedPackages) → ParsedPackages
next_part (bad_part e) k = no_parse e
next_part (good_part p) k = k p

unfoldable pub parse_parts : List Package → List Text → ParsedPackages
unfolding parse_part
parse_parts [] [] = no_parse no_packages
parse_parts (p ∷ out) [] = packages (p ∷ out)
parse_parts out (part ∷ parts) =
    next_part (parse_part out part) (λ p. parse_parts (out ++ (p ∷ [])) parts)

-- ParsePackages.
unfoldable pub parse_packages : Text → ParsedPackages
unfolding split_on parse_parts
parse_packages raw = parse_parts [] (split_on 44 raw)

-- DefaultPackages.
abbrev pub default_packages : List Package
default_packages =
    record { id = codes "starter"; thb = pos 100; credits = pos 100 }
    ∷ record { id = codes "standard"; thb = pos 300; credits = pos 330 }
    ∷ record { id = codes "pro"; thb = pos 500; credits = pos 575 }
    ∷ []
