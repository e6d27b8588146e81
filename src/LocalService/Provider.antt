-- ===== src/LocalService/Provider.antt =====
-- internal/domain/localservice/provider.go: categories, provider profiles and their validation.
use flood_now_backend.Base.{
  ℕ, String, Bool, true, false, not, ◌&&◌, ◌||◌, Option, none, some, List, [], ◌∷◌, ◌++◌, length,
  any, is_set, holds, ltb, ◌==◌, if◌then◌else◌,
}
use flood_now_backend.Base.Int.{ℤ, pos, negsuc, ltb_ℤ, eqb_ℤ}
use flood_now_backend.Base.Text.{
  Text, codes, byte_len, rune_count, trim_space, is_empty, has_prefix, contains_text, text_eq,
}
use flood_now_backend.Base.Float.{Float64}
use flood_now_backend.Apperr.{Error, validation}

-- A Category is a string: `unknown_category` is any string but those of AllCategories.
pub data Category : Type 0 where
  towing auto_repair tyre battery mobile_mechanic transport : Category
  electrician plumber water_pump other_category : Category
  unknown_category : Text → Category

abbrev pub category_number : Category → ℕ
category_number towing = 0
category_number auto_repair = 1
category_number tyre = 2
category_number battery = 3
category_number mobile_mechanic = 4
category_number transport = 5
category_number electrician = 6
category_number plumber = 7
category_number water_pump = 8
category_number other_category = 9
category_number (unknown_category t) = 10

-- Equality of the strings.
unfoldable pub category_eq : Category → Category → Bool
category_eq (unknown_category s) (unknown_category t) = text_eq s t
category_eq (unknown_category s) d = false
category_eq c d = category_number c == category_number d

unfoldable pub contains_category : List Category → Category → Bool
unfolding category_eq
contains_category [] c = false
contains_category (x ∷ xs) c = category_eq x c || contains_category xs c

abbrev pub all_categories : List Category
all_categories =
    towing ∷ auto_repair ∷ tyre ∷ battery ∷ mobile_mechanic ∷ transport ∷ electrician ∷ plumber
    ∷ water_pump ∷ other_category ∷ []

unfoldable pub category_valid : Category → Bool
unfolding contains_category
category_valid c = contains_category all_categories c

abbrev pub vehicle_categories : List Category
vehicle_categories = towing ∷ auto_repair ∷ tyre ∷ battery ∷ mobile_mechanic ∷ []

unfoldable pub takes_vehicle_info : Category → Bool
unfolding contains_category
takes_vehicle_info c = contains_category vehicle_categories c

pub data ProviderStatus : Type 0 where
  provider_active provider_suspended : ProviderStatus
  unknown_provider_status : Text → ProviderStatus

abbrev pub is_provider_active : ProviderStatus → Bool
is_provider_active provider_active = true
is_provider_active s = false

unfoldable pub provider_status_valid : ProviderStatus → Bool
provider_status_valid provider_active = true
provider_status_valid provider_suspended = true
provider_status_valid (unknown_provider_status t) = false

abbrev pub allowed_service_radii_m : List ℤ
allowed_service_radii_m = pos 3000 ∷ pos 5000 ∷ pos 10000 ∷ pos 20000 ∷ pos 50000 ∷ []

-- Times and durations are nanoseconds; coordinates are float64 values.
pub record Provider : Type 0 where
  pub id : ℕ
  pub owner_user_id : ℕ
  pub display_name : Text
  pub categories : List Category
  pub description : Option Text
  pub phone : Text
  pub line_id : Option Text
  pub latitude : ℕ
  pub longitude : ℕ
  pub location_name : Option Text
  pub service_radius_m : ℤ
  pub business_hours : Option Text
  pub mobile_service : Bool
  pub available : Bool
  pub starting_price_thb : Option ℤ
  pub logo_key : Option Text
  pub verified_at : Option ℤ
  pub status : ProviderStatus
  pub credit_balance : ℤ
  pub created_at : ℤ
  pub updated_at : ℤ

unfoldable pub verified : Provider → Bool
verified p = is_set p.verified_at

unfoldable pub can_work : Provider → Bool
can_work p = is_provider_active p.status && p.available

unfoldable pub has_category : Provider → Category → Bool
unfolding contains_category
has_category p c = contains_category p.categories c

pub record ProviderInput : Type 0 where
  pub display_name : Text
  pub categories : List Category
  pub description : Option Text
  pub phone : Text
  pub line_id : Option Text
  pub latitude : ℕ
  pub longitude : ℕ
  pub location_name : Option Text
  pub service_radius_m : ℤ
  pub business_hours : Option Text
  pub mobile_service : Bool
  pub available : Bool
  pub starting_price_thb : Option ℤ
  pub logo_key : Option Text

-- `if bad { fields[name] = … }` on an empty key.
abbrev pub field_if : Bool → String → List String
field_if bad name = if bad then name ∷ [] else []

-- `if len(fields) > 0 { return apperr.Validation(message, fields) }; return nil`.
abbrev pub fields_error : String → List String → Option Error
fields_error message [] = none
fields_error message (f ∷ fields) = some (validation message (f ∷ fields))

abbrev pub longer_than : ℕ → Option Text → Bool
longer_than n s = holds s (λ t. ltb n (rune_count t))

-- p := strings.TrimSpace(s); len(p) < 3 || len(p) > 32.
unfoldable pub bad_phone : Text → Bool
unfolding trim_space byte_len
bad_phone s = ltb (byte_len (trim_space s)) 3 || ltb 32 (byte_len (trim_space s))

-- n < 1 || n > 80 for the code points of the trimmed name.
unfoldable pub bad_name : Text → Bool
unfolding trim_space rune_count
bad_name s = ltb (rune_count (trim_space s)) 1 || ltb 80 (rune_count (trim_space s))

unfoldable pub bad_location : Float64 → ℕ → ℕ → Bool
bad_location f lat lng =
    f.lt lat (f.of_int (negsuc 89))
    || f.lt (f.of_int (pos 90)) lat
    || f.lt lng (f.of_int (negsuc 179))
    || f.lt (f.of_int (pos 180)) lng

abbrev pub bad_price : Option ℤ → Bool
bad_price p = holds p (λ v. ltb_ℤ v (pos 0) || ltb_ℤ (pos 1000000) v)

unfoldable pub valid_image_key : Text → Bool
unfolding has_prefix contains_text byte_len
valid_image_key key =
    has_prefix key (codes "reports/")
    && not (contains_text key (codes ".."))
    && not (contains_text key (codes "://"))
    && not (ltb 300 (byte_len key))

abbrev pub bad_image_key : Option Text → Bool
bad_image_key k = holds k (λ t. not (is_empty t) && not (valid_image_key t))

-- The loop over the categories, with those seen so far: whether one is unknown or repeats.
unfoldable pub bad_categories : List Category → List Category → Bool
unfolding category_valid contains_category
bad_categories seen [] = false
bad_categories seen (c ∷ cs) =
    not (category_valid c) || contains_category seen c || bad_categories (c ∷ seen) cs

-- Both checks of the categories write the same field.
unfoldable pub validate_provider : Float64 → ProviderInput → Option Error
unfolding bad_name bad_phone bad_location bad_categories valid_image_key rune_count is_empty
validate_provider f i = fields_error "provider profile is invalid" (
    field_if (bad_name i.display_name) "display_name"
    ++ field_if
        (length i.categories == 0
          || ltb (length all_categories) (length i.categories)
          || bad_categories [] i.categories)
        "categories"
    ++ field_if (longer_than 2000 i.description) "description"
    ++ field_if (bad_phone i.phone) "phone"
    ++ field_if (holds i.line_id (λ t. ltb 64 (rune_count (trim_space t)))) "line_id"
    ++ field_if (bad_location f i.latitude i.longitude) "latitude"
    ++ field_if (longer_than 200 i.location_name) "location_name"
    ++ field_if (not (any (eqb_ℤ i.service_radius_m) allowed_service_radii_m)) "service_radius_m"
    ++ field_if (longer_than 200 i.business_hours) "business_hours"
    ++ field_if (bad_price i.starting_price_thb) "starting_price_thb"
    ++ field_if (bad_image_key i.logo_key) "logo_key")

-- Trimmed: nil for nil or blank.
unfoldable pub trimmed : Option Text → Option Text
unfolding trim_space is_empty
trimmed none = none
trimmed (some s) = if is_empty (trim_space s) then none else some (trim_space s)

-- ProviderInput.Apply on the profile that it changes.
unfoldable pub apply_input : ProviderInput → Provider → Provider
unfolding trimmed trim_space
apply_input i p = record p {
  display_name = trim_space i.display_name;
  categories = i.categories;
  description = trimmed i.description;
  phone = trim_space i.phone;
  line_id = trimmed i.line_id;
  latitude = i.latitude;
  longitude = i.longitude;
  location_name = trimmed i.location_name;
  service_radius_m = i.service_radius_m;
  business_hours = trimmed i.business_hours;
  mobile_service = i.mobile_service;
  available = i.available;
  starting_price_thb = i.starting_price_thb;
  logo_key = trimmed i.logo_key;
}

-- DistanceM, the haversine distance in meters.
unfoldable pub distance_m : Float64 → ℕ → ℕ → ℕ → ℕ → ℕ
distance_m f lat1 lng1 lat2 lng2 =
    let two = f.of_int (pos 2) in
    let rad = f.div f.pi (f.of_int (pos 180)) in
    let half_lat = f.div (f.mul (f.sub lat2 lat1) rad) two in
    let half_lng = f.div (f.mul (f.sub lng2 lng1) rad) two in
    let a = f.add (f.mul (f.sin half_lat) (f.sin half_lat)) (
      f.mul (f.mul (f.mul (f.cos (f.mul lat1 rad)) (f.cos (f.mul lat2 rad))) (f.sin half_lng))
        (f.sin half_lng)) in
    f.mul (f.mul two (f.of_int (pos 6371000))) (f.asin (f.sqrt a))
