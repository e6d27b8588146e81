-- ===== src/Sos/Request.antt =====
-- internal/domain/sos/sos.go: the kinds of help, the state machine of an SOS and its validation.
use flood_now_backend.Base.{
  ℕ, Bool, true, false, not, ◌||◌, Option, none, some, List, [], ◌∷◌, ◌++◌, any, holds, ltb, ◌==◌,
  if◌then◌else◌,
}
use flood_now_backend.Base.Int.{ℤ, pos, neg, ltb_ℤ}
use flood_now_backend.Base.Text.{Text, byte_len, is_empty, text_eq, trim_space}
use flood_now_backend.Base.Float.{Float64}
use flood_now_backend.Apperr.{Error}
use flood_now_backend.LocalService.Provider.{field_if, fields_error, longer_than}

-- Type: `unknown_need` is any string but the constants.
pub data Need : Type 0 where
  trapped elderly_or_patient vehicle_stalled need_boat : Need
  need_high_vehicle need_food_water need_shelter need_other : Need
  unknown_need : Need

pub data Capability : Type 0 where
  high_vehicle boat first_aid food_water vehicle_repair towing shelter other_help : Capability
  unknown_capability : Text → Capability

abbrev pub capability_number : Capability → ℕ
capability_number high_vehicle = 0
capability_number boat = 1
capability_number first_aid = 2
capability_number food_water = 3
capability_number vehicle_repair = 4
capability_number towing = 5
capability_number shelter = 6
capability_number other_help = 7
capability_number (unknown_capability t) = 8

unfoldable pub capability_eq : Capability → Capability → Bool
unfolding text_eq
capability_eq (unknown_capability s) (unknown_capability t) = text_eq s t
capability_eq a b = capability_number a == capability_number b

abbrev pub all_capabilities : List Capability
all_capabilities =
    high_vehicle ∷ boat ∷ first_aid ∷ food_water ∷ vehicle_repair ∷ towing ∷ shelter ∷ other_help
    ∷ []

unfoldable pub capability_valid : Capability → Bool
unfolding capability_eq
capability_valid c = any (capability_eq c) all_capabilities

-- requiredCapabilities; a missing key gives none.
abbrev pub required_capabilities : Need → List Capability
required_capabilities trapped = boat ∷ high_vehicle ∷ []
required_capabilities elderly_or_patient = first_aid ∷ high_vehicle ∷ boat ∷ []
required_capabilities vehicle_stalled = vehicle_repair ∷ towing ∷ []
required_capabilities need_boat = boat ∷ []
required_capabilities need_high_vehicle = high_vehicle ∷ []
required_capabilities need_food_water = food_water ∷ []
required_capabilities need_shelter = shelter ∷ []
required_capabilities need_other = all_capabilities
required_capabilities unknown_need = []

abbrev pub need_valid : Need → Bool
need_valid trapped = true
need_valid unknown_need = false
need_valid n = true

unfoldable pub can_answer : Need → List Capability → Bool
unfolding capability_eq
can_answer n caps = any (λ c. any (capability_eq c) caps) (required_capabilities n)

pub data Status : Type 0 where
  waiting matched on_the_way arrived completed cancelled unknown_status : Status

abbrev pub status_number : Status → ℕ
status_number waiting = 0
status_number matched = 1
status_number on_the_way = 2
status_number arrived = 3
status_number completed = 4
status_number cancelled = 5
status_number unknown_status = 6

abbrev pub status_eq : Status → Status → Bool
status_eq s t = status_number s == status_number t

abbrev pub status_valid : Status → Bool
status_valid s = not (status_eq s unknown_status)

abbrev pub is_closed : Status → Bool
is_closed s = status_eq s completed || status_eq s cancelled

-- `no_role` is the empty string.
pub data Role : Type 0 where
  requester helper no_role : Role

abbrev pub role_number : Role → ℕ
role_number requester = 0
role_number helper = 1
role_number no_role = 2

abbrev pub role_eq : Role → Role → Bool
role_eq a b = role_number a == role_number b

-- transitions: who may make a move.
abbrev pub transitions : Status → Status → List Role
transitions waiting cancelled = requester ∷ []
transitions matched on_the_way = helper ∷ []
transitions matched waiting = helper ∷ []
transitions matched cancelled = requester ∷ []
transitions on_the_way arrived = helper ∷ []
transitions on_the_way waiting = helper ∷ []
transitions on_the_way cancelled = requester ∷ []
transitions arrived completed = helper ∷ requester ∷ []
transitions arrived cancelled = requester ∷ []
transitions from to = []

unfoldable pub can_transition : Status → Status → Role → Bool
can_transition from to role = any (role_eq role) (transitions from to)

-- Times are nanoseconds; coordinates are float64 values.
pub record Request : Type 0 where
  pub id : ℕ
  pub device_id : Text
  pub user_id : Option ℕ
  pub client_id : Option Text
  pub need : Need
  pub description : Option Text
  pub latitude : ℕ
  pub longitude : ℕ
  pub people_count : Option ℤ
  pub contact_phone : Option Text
  pub status : Status
  pub helper_device_id : Option Text
  pub created_at : ℤ
  pub updated_at : ℤ
  pub closed_at : Option ℤ

-- A column that may be NULL, compared with a text.
unfoldable pub is_text : Option Text → Text → Bool
unfolding text_eq
is_text none t = false
is_text (some s) t = text_eq s t

-- RoleOf.
unfoldable pub role_of : Request → Text → Role
unfolding is_text text_eq is_empty
role_of r device_id =
    if is_empty device_id
    then no_role
    else if text_eq r.device_id device_id
    then requester
    else if is_text r.helper_device_id device_id
    then helper
    else no_role

pub record Event : Type 0 where
  pub request_id : ℕ
  pub status : Status
  pub actor : Role
  pub created_at : ℤ

-- 24 hours, and the cap on the open requests that a helper holds.
abbrev pub max_open_age : ℤ
max_open_age = pos 86400000000000

abbrev pub max_active_assignments : ℕ
max_active_assignments = 3

abbrev pub bad_device_id : Text → Bool
bad_device_id d = ltb (byte_len d) 8 || ltb 128 (byte_len d)

unfoldable pub validate_device_id : Text → Option Error
unfolding byte_len
validate_device_id d = fields_error "device_id is invalid" (field_if (bad_device_id d) "device_id")

pub record NewRequestInput : Type 0 where
  pub device_id : Text
  pub user_id : Option ℕ
  pub client_id : Option Text
  pub need : Need
  pub description : Option Text
  pub latitude : ℕ
  pub longitude : ℕ
  pub people_count : Option ℤ
  pub contact_phone : Option Text

-- A trimmed text of more bytes than allowed.
unfoldable pub bad_contact : Option Text → Bool
unfolding trim_space byte_len
bad_contact p = holds p (λ t. ltb 32 (byte_len (trim_space t)))

-- One field for the latitude and one for the longitude.
unfoldable pub outside : Float64 → ℕ → ℕ → Bool
outside f v limit = f.lt v (f.of_int (neg (pos limit))) || f.lt (f.of_int (pos limit)) v

unfoldable pub validate_request : Float64 → NewRequestInput → Option Error
unfolding bad_contact outside byte_len
validate_request f i = fields_error "sos request is invalid" (
    field_if (bad_device_id i.device_id) "device_id"
    ++ field_if (holds i.client_id (λ c. ltb (byte_len c) 8 || ltb 64 (byte_len c))) "client_id"
    ++ field_if (not (need_valid i.need)) "type"
    ++ field_if (outside f i.latitude 90) "latitude"
    ++ field_if (outside f i.longitude 180) "longitude"
    ++ field_if (holds i.people_count (λ n. ltb_ℤ n (pos 1) || ltb_ℤ (pos 500) n)) "people_count"
    ++ field_if (longer_than 1000 i.description) "description"
    ++ field_if (bad_contact i.contact_phone) "contact_phone")
