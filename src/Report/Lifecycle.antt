-- ===== src/Report/Lifecycle.antt =====
-- internal/domain/report: the Report entity (report.go) and its lifecycle (lifecycle.go).
use flood_now_backend.Base.{
  ℕ, Bool, not, ◌&&◌, ◌||◌, Option, none, some, List, [], ◌∷◌, is_set, ◌==◌, ltb, if◌then◌else◌,
}
use flood_now_backend.Base.Int.{ℤ, pos, ◌+ℤ◌, ltb_ℤ, leb_ℤ}
use flood_now_backend.Base.Text.{Text}
use flood_now_backend.Report.Kinds.{
  ReportType, is_long_lived, Severity, WaterDepth, Passability, GeometryType,
}
use flood_now_backend.Report.Details.{Details}

pub data HiddenReason : Type 0 where
  auto_threshold by_admin : HiddenReason

-- Times are nanoseconds; coordinates are float64 values.
pub record Report : Type 0 where
  pub id : ℕ
  pub kind : ReportType
  pub severity : Severity
  pub latitude : ℕ
  pub longitude : ℕ
  pub geometry_type : GeometryType
  pub water_depth : Option WaterDepth
  pub water_level_cm : Option ℤ
  pub passability : Option Passability
  pub details : Details
  pub description : Option Text
  pub image_key : Option Text
  pub people_count : Option ℤ
  pub has_child : Option Bool
  pub has_elderly : Option Bool
  pub contact_phone : Option Text
  pub created_at : ℤ
  pub updated_at : ℤ
  pub last_verified_at : ℤ
  pub stale_at : ℤ
  pub expires_at : ℤ
  pub resolved_at : Option ℤ
  pub client_id : Option Text
  pub hidden_at : Option ℤ
  pub hidden_reason : Option HiddenReason
  pub user_id : Option ℕ

pub record ReportWithStats : Type 0 where
  pub report : Report
  pub still_active_count : ℕ
  pub cleared_count : ℕ
  pub like_count : ℕ
  pub support_count : ℕ
  pub distance_m : Option ℕ

pub data Status : Type 0 where
  active possibly_stale resolved expired : Status

abbrev pub status_number : Status → ℕ
status_number active = 0
status_number possibly_stale = 1
status_number resolved = 2
status_number expired = 3

abbrev pub status_eq : Status → Status → Bool
status_eq a b = status_number a == status_number b

abbrev pub is_open : Status → Bool
is_open s = status_eq s active || status_eq s possibly_stale

abbrev pub default_visible_statuses : List Status
default_visible_statuses = active ∷ possibly_stale ∷ []

-- Report.Status: resolution first, then the times.
unfoldable pub status : Report → ℤ → Status
status r now =
    if is_set r.resolved_at
    then resolved
    else if not (ltb_ℤ now r.expires_at)
    then expired
    else if not (ltb_ℤ now r.stale_at)
    then possibly_stale
    else active

pub record FreshnessPolicy : Type 0 where
  pub stale_after : ℤ
  pub ttl : ℤ
  pub facility_stale_after : ℤ
  pub facility_ttl : ℤ
  pub resolve_threshold : ℤ

-- FreshnessPolicy.Validate: whether it returns nil.
unfoldable pub freshness_valid : FreshnessPolicy → Bool
freshness_valid p =
    ltb_ℤ (pos 0) p.stale_after
    && ltb_ℤ (pos 0) p.ttl
    && ltb_ℤ (pos 0) p.facility_stale_after
    && ltb_ℤ (pos 0) p.facility_ttl
    && leb_ℤ p.stale_after p.ttl
    && leb_ℤ p.facility_stale_after p.facility_ttl
    && leb_ℤ (pos 1) p.resolve_threshold

-- ports.Freshness.
pub record Freshness : Type 0 where
  pub stale_at : ℤ
  pub expires_at : ℤ

unfoldable pub window : FreshnessPolicy → ReportType → ℤ → Freshness
window p t verified_at =
    if is_long_lived t
    then record {
      stale_at = verified_at +ℤ p.facility_stale_after;
      expires_at = verified_at +ℤ p.facility_ttl;
    }
    else record { stale_at = verified_at +ℤ p.stale_after; expires_at = verified_at +ℤ p.ttl }

-- The votes that resolve a report.
abbrev pub votes_resolve : FreshnessPolicy → ℕ → ℕ → Bool
votes_resolve p still_active cleared =
    leb_ℤ p.resolve_threshold (pos cleared) && ltb still_active cleared

abbrev pub or_now : Option ℤ → ℤ → Option ℤ
or_now none now = some now
or_now (some at) now = some at

unfoldable pub next_resolved_at : FreshnessPolicy → Option ℤ → ℕ → ℕ → ℤ → Option ℤ
next_resolved_at p current still_active cleared now =
    if votes_resolve p still_active cleared then or_now current now else none

pub data EventKind : Type 0 where
  created confirmed updated resolved_event reopened hidden unhidden : EventKind

-- ResolutionEvent: none where the resolution did not change.
abbrev pub resolution_event : Option ℤ → Option ℤ → Option EventKind
resolution_event none none = none
resolution_event none (some t) = some resolved_event
resolution_event (some t) none = some reopened
resolution_event (some t) (some u) = none
