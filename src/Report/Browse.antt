-- ===== src/Report/Browse.antt =====
-- internal/application/report/service.go: List, Nearby and FindDuplicates, which only read.
use flood_now_backend.Base.{
  ℕ, suc, Bool, true, false, not, ◌||◌, Option, none, List, [], ◌∷◌, ◌++◌, take, length, ltb,
  if◌then◌else◌,
}
use flood_now_backend.Base.Int.{ℤ, pos, pos_part, ltb_ℤ, leb_ℤ}
use flood_now_backend.Base.Float.{Float64}
use flood_now_backend.Apperr.{Error}
use flood_now_backend.Program.{return, reading, validated, ◌>>=◌, ◌>>◌}
use flood_now_backend.LocalService.Provider.{field_if, fields_error}
use flood_now_backend.Sos.Request.{outside}
use flood_now_backend.Sos.Nearby.{Box}
use flood_now_backend.Report.Kinds.{ReportType, type_valid, duplicate_radius_meters, Severity}
use flood_now_backend.Report.Lifecycle.{ReportWithStats, Status, default_visible_statuses}
use flood_now_backend.Report.Filter.{
  ReportFilter, list, NearbySort, no_sort, sort_distance, unknown_sort, NearbyFilter, nearby,
}
use flood_now_backend.Report.Service.{Use}

abbrev pub clamp_limit : ℤ → ℕ → ℕ → ℕ
clamp_limit v default max =
    if leb_ℤ v (pos 0) then default else if ltb_ℤ (pos max) v then max else pos_part v

abbrev pub or_visible : List Status → List Status
or_visible [] = default_visible_statuses
or_visible (s ∷ ss) = s ∷ ss

pub record ListInput : Type 0 where
  pub bbox : Option Box
  pub types : List ReportType
  pub severities : List Severity
  pub statuses : List Status
  pub updated_since : Option ℤ
  pub limit : ℤ

pub record ListResult : Type 0 where
  pub reports : List ReportWithStats
  pub has_more : Bool

abbrev pub list_limit : ListInput → ℕ
list_limit i = clamp_limit i.limit 500 1000

-- One row more than the limit tells whether the result was cut.
abbrev pub list_filter : ListInput → ℤ → ReportFilter
list_filter i now = record {
  bbox = i.bbox;
  bboxes = [];
  types = i.types;
  severities = i.severities;
  statuses = or_visible i.statuses;
  updated_since = i.updated_since;
  limit = suc (list_limit i);
  now = now;
}

abbrev pub cut_to : ℕ → List ReportWithStats → ListResult
cut_to limit rs =
    if ltb limit (length rs)
    then record { reports = take limit rs; has_more = true }
    else record { reports = rs; has_more = false }

unfoldable pub list_reports : Float64 → ListInput → ℤ → Use ListResult
list_reports f i now =
    reading (λ s. list f s (list_filter i now)) >>= λ rs. return (cut_to (list_limit i) rs)

pub record NearbyInput : Type 0 where
  pub latitude : ℕ
  pub longitude : ℕ
  pub radius_m : ℕ
  pub types : List ReportType
  pub severities : List Severity
  pub statuses : List Status
  pub updated_since : Option ℤ
  pub sort : NearbySort
  pub limit : ℤ

abbrev pub is_unknown_sort : NearbySort → Bool
is_unknown_sort unknown_sort = true
is_unknown_sort s = false

abbrev pub or_distance : NearbySort → NearbySort
or_distance no_sort = sort_distance
or_distance s = s

module _ (f : Float64) where
  abbrev pub validate_nearby : NearbyInput → Option Error
  validate_nearby i = fields_error "nearby query is invalid" (
      field_if (outside f i.latitude 90) "lat"
      ++ field_if (outside f i.longitude 180) "lng"
      ++ field_if (f.lt i.radius_m (f.of_int (pos 0)) || f.lt (f.of_int (pos 50000)) i.radius_m)
          "radius_m"
      ++ field_if (is_unknown_sort i.sort) "sort")

  abbrev pub nearby_filter : NearbyInput → ℤ → NearbyFilter
  nearby_filter i now = record {
    latitude = i.latitude;
    longitude = i.longitude;
    radius_m = if f.eq i.radius_m (f.of_int (pos 0)) then f.of_int (pos 5000) else i.radius_m;
    types = i.types;
    severities = i.severities;
    statuses = or_visible i.statuses;
    updated_since = i.updated_since;
    sort = or_distance i.sort;
    limit = clamp_limit i.limit 50 100;
    now = now;
  }

  unfoldable pub nearby_reports : NearbyInput → ℤ → Use (List ReportWithStats)
  unfolding outside
  nearby_reports i now =
      validated (validate_nearby i) >> reading (λ s. nearby f s (nearby_filter i now))

  abbrev pub validate_duplicates : ℕ → ℕ → ReportType → Option Error
  validate_duplicates lat lng t = fields_error "duplicate query is invalid" (
      field_if (not (type_valid t)) "type"
      ++ field_if (outside f lat 90) "lat"
      ++ field_if (outside f lng 180) "lng")

  abbrev pub duplicates_filter : ℕ → ℕ → ReportType → ℤ → NearbyFilter
  duplicates_filter lat lng t now = record {
    latitude = lat;
    longitude = lng;
    radius_m = f.of_int (pos (duplicate_radius_meters t));
    types = t ∷ [];
    severities = [];
    statuses = default_visible_statuses;
    updated_since = none;
    sort = sort_distance;
    limit = 3;
    now = now;
  }

  unfoldable pub find_duplicates : ℕ → ℕ → ReportType → ℤ → Use (List ReportWithStats)
  unfolding outside type_valid duplicate_radius_meters
  find_duplicates lat lng t now =
      validated (validate_duplicates lat lng t)
      >> reading (λ s. nearby f s (duplicates_filter lat lng t now))
