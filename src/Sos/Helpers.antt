-- ===== src/Sos/Helpers.antt =====
-- internal/domain/sos/sos.go: the profile of a helper and its validation.
use flood_now_backend.Base.{
  ℕ, Bool, true, false, not, ◌&&◌, ◌||◌, Option, none, some, List, [], ◌∷◌, ◌++◌, any, holds, ltb,
}
use flood_now_backend.Base.Int.{ℤ, pos, eqb_ℤ}
use flood_now_backend.Base.Text.{Text, byte_len, rune_count, trim_space}
use flood_now_backend.Base.Float.{Float64}
use flood_now_backend.Apperr.{Error}
use flood_now_backend.LocalService.Provider.{field_if, fields_error}
use flood_now_backend.Sos.Request.{
  Capability, capability_eq, capability_valid, bad_device_id, bad_contact, outside,
}

pub record Helper : Type 0 where
  pub device_id : Text
  pub active : Bool
  pub capabilities : List Capability
  pub radius_m : ℤ
  pub display_name : Option Text
  pub contact_phone : Option Text
  pub latitude : Option ℕ
  pub longitude : Option ℕ
  pub location_at : Option ℤ
  pub created_at : ℤ
  pub updated_at : ℤ

abbrev pub allowed_helper_radii_m : List ℤ
allowed_helper_radii_m = pos 1000 ∷ pos 3000 ∷ pos 5000 ∷ pos 10000 ∷ []

-- 6 hours.
abbrev pub helper_location_max_age : ℤ
helper_location_max_age = pos 21600000000000

pub record HelperInput : Type 0 where
  pub device_id : Text
  pub active : Bool
  pub capabilities : List Capability
  pub radius_m : ℤ
  pub display_name : Option Text
  pub contact_phone : Option Text
  pub latitude : Option ℕ
  pub longitude : Option ℕ

-- The loop over the capabilities, with those seen so far: whether one is unknown or repeats.
unfoldable pub bad_capabilities : List Capability → List Capability → Bool
unfolding capability_valid capability_eq
bad_capabilities seen [] = false
bad_capabilities seen (c ∷ cs) =
    not (capability_valid c) || any (capability_eq c) seen || bad_capabilities (c ∷ seen) cs

-- Both coordinates or neither, and within their ranges.
abbrev pub bad_position : Float64 → Option ℕ → Option ℕ → Bool
bad_position f none none = false
bad_position f (some lat) (some lng) = outside f lat 90 || outside f lng 180
bad_position f (some lat) none = true
bad_position f none (some lng) = true

abbrev pub is_nil {ℓ} : {A : Type ℓ} → List A → Bool
is_nil [] = true
is_nil (x ∷ xs) = false

-- The checks of the capabilities write one field, as those of the position do.
unfoldable pub validate_helper : Float64 → HelperInput → Option Error
unfolding bad_capabilities bad_contact outside byte_len rune_count trim_space
validate_helper f i = fields_error "helper profile is invalid" (
    field_if (bad_device_id i.device_id) "device_id"
    ++ field_if (bad_capabilities [] i.capabilities || (i.active && is_nil i.capabilities))
        "capabilities"
    ++ field_if (not (any (eqb_ℤ i.radius_m) allowed_helper_radii_m)) "radius_m"
    ++ field_if (holds i.display_name (λ t. ltb 60 (rune_count (trim_space t)))) "display_name"
    ++ field_if (bad_contact i.contact_phone) "contact_phone"
    ++ field_if (bad_position f i.latitude i.longitude) "latitude")
