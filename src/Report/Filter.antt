-- ===== src/Report/Filter.antt =====
-- internal/adapters/outbound/postgres/report_repository.go: List and Nearby, the queries that filter
-- the reports shown on the map.
use flood_now_backend.Base.{
  ℕ, Bool, true, not, ◌&&◌, ◌||◌, Option, none, some, List, [], ◌∷◌, map, any, select, take, is_set,
  ltb, ◌==◌, if◌then◌else◌,
}
use flood_now_backend.Base.Int.{ℤ, ltb_ℤ, leb_ℤ}
use flood_now_backend.Base.Float.{Float64}
use flood_now_backend.Base.Sorting.{sort_by}
use flood_now_backend.Sos.Nearby.{Box, sos_distance, radius_box, in_box, at_most}
use flood_now_backend.Report.Kinds.{ReportType, type_eq, Severity, rank}
use flood_now_backend.Report.Lifecycle.{
  Report, ReportWithStats, Status, active, possibly_stale, resolved, expired,
}
use flood_now_backend.Report.Tables.{Tables, with_stats}

-- The predicate of one lifecycle state over the stored timestamps.
abbrev pub in_status : ℤ → Report → Status → Bool
in_status now r active =
    not (is_set r.resolved_at) && ltb_ℤ now r.stale_at && ltb_ℤ now r.expires_at
in_status now r possibly_stale =
    not (is_set r.resolved_at) && leb_ℤ r.stale_at now && ltb_ℤ now r.expires_at
in_status now r expired = not (is_set r.resolved_at) && leb_ℤ r.expires_at now
in_status now r resolved = is_set r.resolved_at

-- queryBuilder.statuses: no clause for an empty list.
unfoldable pub statuses : List Status → ℤ → Report → Bool
statuses [] now r = true
statuses (s ∷ ss) now r = any (in_status now r) (s ∷ ss)

-- queryBuilder.inList, of the types and of the severities.
abbrev pub in_types : List ReportType → Report → Bool
in_types [] r = true
in_types (t ∷ ts) r = any (type_eq r.kind) (t ∷ ts)

abbrev pub severity_eq : Severity → Severity → Bool
severity_eq a b = rank a == rank b

abbrev pub in_severities : List Severity → Report → Bool
in_severities [] r = true
in_severities (s ∷ ss) r = any (severity_eq r.severity) (s ∷ ss)

abbrev pub updated_after : Option ℤ → Report → Bool
updated_after none r = true
updated_after (some at) r = leb_ℤ at r.updated_at

abbrev pub in_boxes : Float64 → List Box → Report → Bool
in_boxes f [] r = true
in_boxes f (b ∷ bs) r = any (λ x. in_box f x r.latitude r.longitude) (b ∷ bs)

-- ports.ReportFilter.
pub record ReportFilter : Type 0 where
  pub bbox : Option Box
  pub bboxes : List Box
  pub types : List ReportType
  pub severities : List Severity
  pub statuses : List Status
  pub updated_since : Option ℤ
  pub limit : ℕ
  pub now : ℤ

abbrev pub in_bbox : Float64 → Option Box → Report → Bool
in_bbox f none r = true
in_bbox f (some b) r = in_box f b r.latitude r.longitude

unfoldable pub listed : Float64 → ReportFilter → Report → Bool
unfolding statuses
listed f q r =
    not (is_set r.hidden_at)
    && statuses q.statuses q.now r
    && in_bbox f q.bbox r
    && in_boxes f q.bboxes r
    && in_types q.types r
    && in_severities q.severities r
    && updated_after q.updated_since r

-- A limit of zero is none.
abbrev pub limited {ℓ} : {A : Type ℓ} → ℕ → List A → List A
limited n xs = if n == 0 then xs else take n xs

abbrev pub verified_later : Report → Report → Bool
verified_later a b = ltb_ℤ b.last_verified_at a.last_verified_at

unfoldable pub list : Float64 → Tables → ReportFilter → List ReportWithStats
unfolding listed sort_by with_stats
list f s q =
    map (with_stats s none)
      (limited q.limit (sort_by verified_later (select (listed f q) s.reports)))

-- ports.NearbySort.
pub data NearbySort : Type 0 where
  no_sort sort_distance sort_recent sort_severity unknown_sort : NearbySort

-- ports.NearbyFilter.
pub record NearbyFilter : Type 0 where
  pub latitude : ℕ
  pub longitude : ℕ
  pub radius_m : ℕ
  pub types : List ReportType
  pub severities : List Severity
  pub statuses : List Status
  pub updated_since : Option ℤ
  pub sort : NearbySort
  pub limit : ℕ
  pub now : ℤ

-- The rank of a CASE that has no branch for an invalid severity.
abbrev pub case_rank : Severity → ℕ
case_rank s = if rank s == 0 then 1 else rank s

module _ (f : Float64) where
  -- distanceSQL of a report's position and the filter's point.
  abbrev pub distance : NearbyFilter → Report → ℕ
  unfolding sos_distance
  distance q r = sos_distance f r.latitude r.longitude q.latitude q.longitude

  unfoldable pub near : NearbyFilter → Report → Bool
  unfolding statuses sos_distance radius_box
  near q r =
      not (is_set r.hidden_at)
      && statuses q.statuses q.now r
      && in_box f (radius_box f q.latitude q.longitude q.radius_m) r.latitude r.longitude
      && in_types q.types r
      && in_severities q.severities r
      && updated_after q.updated_since r
      && at_most f (distance q r) q.radius_m

  abbrev pub nearer : NearbyFilter → Report → Report → Bool
  nearer q a b = f.lt (distance q a) (distance q b)

  -- ORDER BY.
  abbrev pub nearby_before : NearbyFilter → NearbySort → Report → Report → Bool
  nearby_before q sort_recent a b =
      ltb_ℤ b.updated_at a.updated_at || (leb_ℤ b.updated_at a.updated_at && nearer q a b)
  nearby_before q sort_severity a b =
      ltb (case_rank b.severity) (case_rank a.severity)
      || (case_rank a.severity == case_rank b.severity && nearer q a b)
  nearby_before q sort a b = nearer q a b

  unfoldable pub nearby : Tables → NearbyFilter → List ReportWithStats
  unfolding near sort_by with_stats sos_distance
  nearby s q =
      map (λ r. with_stats s (some (distance q r)) r)
        (take q.limit (sort_by (nearby_before q q.sort) (select (near q) s.reports)))
