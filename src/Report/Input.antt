-- ===== src/Report/Input.antt =====
-- internal/domain/report: the input of a new report (report.go) and of a confirmation
-- (confirmation.go), their validation and what is dropped from them.
use flood_now_backend.Base.{
  ℕ, Bool, true, false, not, ◌&&◌, ◌||◌, Option, none, [], ◌∷◌, ◌++◌, any, holds, is_set, ltb, ◌==◌,
  if◌then◌else◌,
}
use flood_now_backend.Base.Int.{ℤ, pos, ltb_ℤ}
use flood_now_backend.Base.Text.{Text, codes, byte_len, is_empty, trim_space, contains_text}
use flood_now_backend.Base.Float.{Float64}
use flood_now_backend.Apperr.{Error}
use flood_now_backend.LocalService.Provider.{field_if, fields_error}
use flood_now_backend.Sos.Request.{outside, bad_device_id, bad_contact}
use flood_now_backend.Report.Kinds.{
  ReportType, flooded, type_eq, creatable, affects_roads, Severity, severity_valid, WaterDepth,
  depth_valid, level_valid, Passability, GeometryType, geometry_empty, geometry_point,
}
use flood_now_backend.Report.Details.{Details, bad_details, details_for}

pub record NewReportInput : Type 0 where
  pub kind : ReportType
  pub severity : Severity
  pub latitude : ℕ
  pub longitude : ℕ
  pub geometry_type : GeometryType
  pub water_depth : Option WaterDepth
  pub water_level_cm : Option ℤ
  pub passability : Option Passability
  pub details : Details
  pub description : Option Text
  pub image_key : Option Text
  pub people_count : Option ℤ
  pub has_child : Option Bool
  pub has_elderly : Option Bool
  pub contact_phone : Option Text
  pub client_id : Option Text

-- strings.ContainsAny(id, " \t\n").
unfoldable pub has_blank : Text → Bool
has_blank id = any (λ c. c == 32 || c == 9 || c == 10) id

unfoldable pub valid_client_id : Text → Bool
unfolding has_blank byte_len
valid_client_id id = not (ltb (byte_len id) 8) && not (ltb 64 (byte_len id)) && not (has_blank id)

-- validatePassability: whether it adds a field error.
abbrev pub bad_passability : Option Passability → Bool
bad_passability p = holds p (λ q.
    not (level_valid q.walk)
    || not (level_valid q.motorcycle)
    || not (level_valid q.sedan)
    || not (level_valid q.suv_pickup))

unfoldable pub valid_report_image : Text → Bool
unfolding trim_space is_empty contains_text
valid_report_image key =
    not (is_empty (trim_space key))
    && not (contains_text (trim_space key) (codes ".."))
    && not (contains_text (trim_space key) (codes "://"))

abbrev pub point_or_empty : GeometryType → Bool
point_or_empty geometry_empty = true
point_or_empty geometry_point = true
point_or_empty g = false

abbrev pub negative : Option ℤ → Bool
negative n = holds n (λ v. ltb_ℤ v (pos 0))

-- The field errors of several levels, or of several details, count as one here.
unfoldable pub validate_report : Float64 → NewReportInput → Option Error
unfolding creatable outside bad_details bad_contact valid_report_image valid_client_id byte_len
validate_report f i = fields_error "report is invalid" (
    field_if (not (creatable i.kind)) "type"
    ++ field_if (not (severity_valid i.severity)) "severity"
    ++ field_if (outside f i.latitude 90) "latitude"
    ++ field_if (outside f i.longitude 180) "longitude"
    ++ field_if (not (point_or_empty i.geometry_type)) "geometry_type"
    ++ field_if (holds i.water_depth (λ d. not (depth_valid d))) "water_depth"
    ++ field_if (negative i.water_level_cm) "water_level_cm"
    ++ field_if (bad_passability i.passability) "passability"
    ++ field_if (bad_details i.kind i.details) "details"
    ++ field_if (negative i.people_count) "people_count"
    ++ field_if (holds i.image_key (λ k. not (valid_report_image k))) "image_key"
    ++ field_if (bad_contact i.contact_phone) "contact_phone"
    ++ field_if (holds i.description (λ d. ltb 2000 (byte_len d))) "description"
    ++ field_if (holds i.client_id (λ c. not (valid_client_id c))) "client_id")

abbrev pub or_point : GeometryType → GeometryType
or_point geometry_empty = geometry_point
or_point g = g

unfoldable pub normalized : NewReportInput → NewReportInput
unfolding affects_roads details_for
normalized i = record i {
  geometry_type = or_point i.geometry_type;
  water_depth = if type_eq i.kind flooded then i.water_depth else none;
  water_level_cm = if type_eq i.kind flooded then i.water_level_cm else none;
  passability = if affects_roads i.kind then i.passability else none;
  details = details_for i.kind i.details;
}

pub data ConfirmationStatus : Type 0 where
  still_active cleared unknown_confirmation : ConfirmationStatus

abbrev pub confirmation_valid : ConfirmationStatus → Bool
confirmation_valid still_active = true
confirmation_valid cleared = true
confirmation_valid unknown_confirmation = false

abbrev pub is_still_active : ConfirmationStatus → Bool
is_still_active still_active = true
is_still_active s = false

abbrev pub is_cleared : ConfirmationStatus → Bool
is_cleared cleared = true
is_cleared s = false

pub record ConditionUpdate : Type 0 where
  pub severity : Option Severity
  pub water_depth : Option WaterDepth
  pub passability : Option Passability
  pub details : Details
  pub image_key : Option Text

abbrev pub no_details : Details → Bool
no_details [] = true
no_details (x ∷ d) = false

unfoldable pub update_empty : ConditionUpdate → Bool
update_empty u =
    not (is_set u.severity)
    && not (is_set u.water_depth)
    && not (is_set u.passability)
    && no_details u.details
    && not (is_set u.image_key)

-- ConditionUpdate.For.
unfoldable pub update_for : ReportType → ConditionUpdate → ConditionUpdate
unfolding affects_roads details_for
update_for t u = record u {
  water_depth = if type_eq t flooded then u.water_depth else none;
  passability = if affects_roads t then u.passability else none;
  details = details_for t u.details;
}

pub record NewConfirmationInput : Type 0 where
  pub device_id : Text
  pub status : ConfirmationStatus
  pub update : ConditionUpdate

-- A status that is unknown, or that goes with no change of the condition.
abbrev pub bad_confirmation : ConfirmationStatus → ConditionUpdate → Bool
bad_confirmation s u =
    not (confirmation_valid s) || (not (is_still_active s) && not (update_empty u))

unfoldable pub validate_confirmation : NewConfirmationInput → Option Error
unfolding update_empty valid_report_image byte_len
validate_confirmation i = fields_error "confirmation is invalid" (
    field_if (bad_device_id i.device_id) "device_id"
    ++ field_if (bad_confirmation i.status i.update) "status"
    ++ field_if (holds i.update.severity (λ s. not (severity_valid s))) "severity"
    ++ field_if (holds i.update.water_depth (λ d. not (depth_valid d))) "water_depth"
    ++ field_if (bad_passability i.update.passability) "passability"
    ++ field_if (holds i.update.image_key (λ k. not (valid_report_image k))) "image_key")

-- ConditionUpdate.ValidateFor.
unfoldable pub validate_update_for : ReportType → ConditionUpdate → Option Error
unfolding bad_details
validate_update_for t u =
    fields_error "confirmation is invalid" (field_if (bad_details t u.details) "details")

pub data ReactionType : Type 0 where
  like support unknown_reaction : ReactionType

abbrev pub reaction_valid : ReactionType → Bool
reaction_valid like = true
reaction_valid support = true
reaction_valid unknown_reaction = false

abbrev pub is_like : ReactionType → Bool
is_like like = true
is_like r = false

abbrev pub is_support : ReactionType → Bool
is_support support = true
is_support r = false

-- NewReactionInput.Validate.
abbrev pub validate_reaction : ReactionType → Option Error
validate_reaction r = fields_error "reaction is invalid" (field_if (not (reaction_valid r)) "type")
