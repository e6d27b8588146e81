-- ===== src/LocalService/Request.antt =====
-- internal/domain/localservice/request.go: the lifecycle of a service request and its validation.
use flood_now_backend.Base.{
  ℕ, Bool, true, false, not, ◌&&◌, ◌||◌, Option, List, [], ◌∷◌, ◌++◌, any, holds, ltb, ◌==◌,
  if◌then◌else◌,
}
use flood_now_backend.Base.Int.{ℤ, ltb_ℤ}
use flood_now_backend.Base.Text.{Text, byte_len, rune_count, is_empty}
use flood_now_backend.Base.Float.{Float64}
use flood_now_backend.Apperr.{Error}
use flood_now_backend.LocalService.Provider.{
  Category, category_valid, field_if, fields_error, longer_than, bad_phone, bad_location,
  valid_image_key, bad_image_key,
}

-- A Status is a string: `unknown_status` is any string but the eight constants.
pub data Status : Type 0 where
  status_open status_pending_confirmation status_matched status_on_the_way : Status
  status_arrived status_completed status_cancelled status_expired : Status
  unknown_status : Status

abbrev pub status_number : Status → ℕ
status_number status_open = 0
status_number status_pending_confirmation = 1
status_number status_matched = 2
status_number status_on_the_way = 3
status_number status_arrived = 4
status_number status_completed = 5
status_number status_cancelled = 6
status_number status_expired = 7
status_number unknown_status = 8

abbrev pub status_eq : Status → Status → Bool
status_eq s t = status_number s == status_number t

unfoldable pub status_valid : Status → Bool
status_valid unknown_status = false
status_valid status_open = true
status_valid s = true

unfoldable pub is_closed : Status → Bool
is_closed s =
    status_eq s status_completed || status_eq s status_cancelled || status_eq s status_expired

unfoldable pub is_matched : Status → Bool
is_matched s =
    status_eq s status_matched || status_eq s status_on_the_way || status_eq s status_arrived

unfoldable pub takes_offers : Status → Bool
takes_offers s = status_eq s status_open || status_eq s status_pending_confirmation

-- A Role is a string; `no_role` is the empty one.
pub data Role : Type 0 where
  role_customer role_provider role_system no_role : Role

abbrev pub role_number : Role → ℕ
role_number role_customer = 0
role_number role_provider = 1
role_number role_system = 2
role_number no_role = 3

abbrev pub role_eq : Role → Role → Bool
role_eq a b = role_number a == role_number b

-- The roles that jobTransitions lists for a move; a missing key gives no role.
unfoldable pub job_transitions : Status → Status → List Role
job_transitions status_matched status_on_the_way = role_provider ∷ []
job_transitions status_on_the_way status_arrived = role_provider ∷ []
job_transitions status_arrived status_completed = role_provider ∷ role_customer ∷ []
job_transitions from to = []

unfoldable pub can_transition : Status → Status → Role → Bool
unfolding job_transitions
can_transition from to role = any (role_eq role) (job_transitions from to)

unfoldable pub can_cancel : Status → Role → Bool
unfolding is_closed
can_cancel s role_customer = not (is_closed s)
can_cancel s role_provider = status_eq s status_matched || status_eq s status_on_the_way
can_cancel s role = false

pub record Request : Type 0 where
  pub id : ℕ
  pub customer_user_id : ℕ
  pub client_id : Option Text
  pub category : Category
  pub description : Option Text
  pub vehicle_info : Option Text
  pub image_key : Option Text
  pub latitude : ℕ
  pub longitude : ℕ
  pub location_name : Option Text
  pub contact_phone : Text
  pub status : Status
  pub selected_offer_id : Option ℕ
  pub selection_expires_at : Option ℤ
  pub expires_at : ℤ
  pub cancel_reason : Option Text
  pub created_at : ℤ
  pub updated_at : ℤ
  pub closed_at : Option ℤ

-- `!now.Before(*t)` of a pointer that may be nil.
abbrev pub reached : Option ℤ → ℤ → Bool
reached t now = holds t (λ at. not (ltb_ℤ now at))

unfoldable pub selection_timed_out : Request → ℤ → Bool
selection_timed_out r now =
    status_eq r.status status_pending_confirmation && reached r.selection_expires_at now

unfoldable pub effective : Request → ℤ → Status
unfolding takes_offers selection_timed_out
effective r now =
    if takes_offers r.status && not (ltb_ℤ now r.expires_at)
    then status_expired
    else if selection_timed_out r now
    then status_open
    else r.status

-- CancelReason and IssueReason are strings; `unknown_…` is any other string.
pub data CancelReason : Type 0 where
  cancel_changed_mind cancel_found_other cancel_no_response : CancelReason
  cancel_unable_to_contact cancel_provider_unavailable : CancelReason
  cancel_customer_unreachable cancel_other unknown_cancel_reason : CancelReason

unfoldable pub cancel_reason_valid : CancelReason → Bool
cancel_reason_valid unknown_cancel_reason = false
cancel_reason_valid cancel_other = true
cancel_reason_valid c = true

pub data IssueReason : Type 0 where
  issue_no_response issue_unable_to_contact issue_no_show : IssueReason
  issue_price_dispute issue_safety issue_other unknown_issue_reason : IssueReason

unfoldable pub issue_reason_valid : IssueReason → Bool
issue_reason_valid unknown_issue_reason = false
issue_reason_valid issue_other = true
issue_reason_valid i = true

pub record NewRequestInput : Type 0 where
  pub customer_user_id : ℕ
  pub client_id : Option Text
  pub category : Category
  pub description : Option Text
  pub vehicle_info : Option Text
  pub image_key : Option Text
  pub latitude : ℕ
  pub longitude : ℕ
  pub location_name : Option Text
  pub contact_phone : Text

unfoldable pub validate_request : Float64 → NewRequestInput → Option Error
unfolding byte_len category_valid rune_count is_empty valid_image_key bad_location bad_phone
validate_request f i = fields_error "service request is invalid" (
    field_if (holds i.client_id (λ c. ltb (byte_len c) 8 || ltb 64 (byte_len c))) "client_id"
    ++ field_if (not (category_valid i.category)) "category"
    ++ field_if (longer_than 1000 i.description) "description"
    ++ field_if (longer_than 120 i.vehicle_info) "vehicle_info"
    ++ field_if (bad_image_key i.image_key) "image_key"
    ++ field_if (bad_location f i.latitude i.longitude) "latitude"
    ++ field_if (longer_than 200 i.location_name) "location_name"
    ++ field_if (bad_phone i.contact_phone) "contact_phone")

abbrev pub max_open_requests_per_customer : ℕ
max_open_requests_per_customer = 3

-- Event, one entry of a request's timeline, with the request that it belongs to.
pub record Event : Type 0 where
  pub request_id : ℕ
  pub status : Status
  pub actor : Role
  pub note : Option Text
  pub created_at : ℤ
