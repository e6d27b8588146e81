-- ===== src/Report/Kinds.antt =====
-- internal/domain/report/report.go: the categories with their rules, severity, depth and passability.
use flood_now_backend.Base.{
  ℕ, Bool, true, false, not, ◌&&◌, Option, some, none, List, [], ◌∷◌, select, leb, ◌==◌, holds,
}

-- Type: `unknown_type` is any string but the constants.
pub data ReportType : Type 0 where
  flooded road_closed accident vehicle_stalled obstruction power_outage help_needed : ReportType
  shelter aid_point other_type road_damage construction traffic_signal : ReportType
  unknown_type : ReportType

abbrev pub type_number : ReportType → ℕ
type_number flooded = 0
type_number road_closed = 1
type_number accident = 2
type_number vehicle_stalled = 3
type_number obstruction = 4
type_number power_outage = 5
type_number help_needed = 6
type_number shelter = 7
type_number aid_point = 8
type_number other_type = 9
type_number road_damage = 10
type_number construction = 11
type_number traffic_signal = 12
type_number unknown_type = 13

abbrev pub type_eq : ReportType → ReportType → Bool
type_eq a b = type_number a == type_number b

-- The struct of typeRules; the radius is in meters.
pub record TypeRule : Type 0 where
  pub affects_road : Bool
  pub long_lived : Bool
  pub facility : Bool
  pub duplicate_radius : ℕ
  pub legacy : Bool
  pub guest_reportable : Bool

abbrev pub rule : Bool → Bool → Bool → ℕ → Bool → Bool → Option TypeRule
rule road long facility radius legacy guest = some (record {
  affects_road = road;
  long_lived = long;
  facility = facility;
  duplicate_radius = radius;
  legacy = legacy;
  guest_reportable = guest;
})

-- typeRules; a missing key gives none.
abbrev pub type_rules : ReportType → Option TypeRule
type_rules flooded = rule true false false 150 false true
type_rules road_closed = rule true false false 100 false true
type_rules accident = rule true false false 75 false true
type_rules vehicle_stalled = rule true false false 50 true false
type_rules obstruction = rule true false false 50 false true
type_rules road_damage = rule true true false 50 false true
type_rules construction = rule true true false 150 false false
type_rules traffic_signal = rule false false false 75 false true
type_rules power_outage = rule false false false 150 false true
type_rules help_needed = rule false false false 50 true false
type_rules shelter = rule false true true 100 false false
type_rules aid_point = rule false true true 100 false false
type_rules other_type = rule false false false 50 true false
type_rules unknown_type = none

abbrev pub creatable_types : List ReportType
creatable_types =
    flooded ∷ road_closed ∷ accident ∷ obstruction ∷ road_damage ∷ construction ∷ traffic_signal
    ∷ power_outage ∷ shelter ∷ aid_point ∷ []

unfoldable pub type_valid : ReportType → Bool
type_valid t = holds (type_rules t) (λ r. true)

unfoldable pub creatable : ReportType → Bool
creatable t = holds (type_rules t) (λ r. not r.legacy)

unfoldable pub guest_may_report : ReportType → Bool
guest_may_report t = holds (type_rules t) (λ r. not r.legacy && r.guest_reportable)

unfoldable pub guest_reportable_types : List ReportType
unfolding guest_may_report
guest_reportable_types = select guest_may_report creatable_types

unfoldable pub affects_roads : ReportType → Bool
affects_roads t = holds (type_rules t) (λ r. r.affects_road)

unfoldable pub is_long_lived : ReportType → Bool
is_long_lived t = holds (type_rules t) (λ r. r.long_lived)

unfoldable pub is_facility : ReportType → Bool
is_facility t = holds (type_rules t) (λ r. r.facility)

-- DuplicateRadiusMeters: 0 for a missing key.
unfoldable pub duplicate_radius_meters : ReportType → ℕ
duplicate_radius_meters t = radius_of (type_rules t)
  where
    radius_of : Option TypeRule → ℕ
    radius_of none = 0
    radius_of (some r) = r.duplicate_radius

pub data Severity : Type 0 where
  low moderate high critical unknown_severity : Severity

-- severityRank; 0 for an invalid value.
abbrev pub rank : Severity → ℕ
rank low = 1
rank moderate = 2
rank high = 3
rank critical = 4
rank unknown_severity = 0

abbrev pub severity_valid : Severity → Bool
severity_valid s = not (rank s == 0)

abbrev pub is_severe : Severity → Bool
is_severe s = leb (rank high) (rank s)

pub data WaterDepth : Type 0 where
  depth_unknown ankle shin knee above_knee invalid_depth : WaterDepth

abbrev pub depth_valid : WaterDepth → Bool
depth_valid depth_unknown = true
depth_valid invalid_depth = false
depth_valid d = true

pub data PassLevel : Type 0 where
  passable caution not_recommended impassable pass_unknown invalid_level : PassLevel

abbrev pub level_valid : PassLevel → Bool
level_valid passable = true
level_valid invalid_level = false
level_valid p = true

pub record Passability : Type 0 where
  pub walk : PassLevel
  pub motorcycle : PassLevel
  pub sedan : PassLevel
  pub suv_pickup : PassLevel

-- `geometry_empty` is the empty string.
pub data GeometryType : Type 0 where
  geometry_empty geometry_point geometry_road_segment geometry_area geometry_other : GeometryType
