-- ===== src/Report/Details.antt =====
-- internal/domain/report/details.go: the fields of a category, as a map from keys to values.
use flood_now_backend.Base.{
  ◌≡◌, refl, Bool, not, Option, none, some, List, [], ◌∷◌, any, select, holds, is_set,
  if◌then◌else◌, Bool-cases, inl, inr,
}
use flood_now_backend.Base.Text.{Text, codes, text_eq}
use flood_now_backend.Report.Kinds.{
  ReportType, accident, road_closed, obstruction, road_damage, construction, traffic_signal,
}

-- A Go map with one entry for a key, in some order.
abbrev pub Details : Type 0
Details = List (Text × Text)

abbrev pub lane_values : List Text
lane_values = codes "none" ∷ codes "one" ∷ codes "multiple" ∷ codes "all" ∷ []

abbrev pub detail_rules : ReportType → List (Text × List Text)
detail_rules accident =
    (codes "lanes_blocked", lane_values)
    ∷ (codes "traffic_impact", codes "light" ∷ codes "slow" ∷ codes "standstill" ∷ [])
    ∷ []
detail_rules road_closed =
    (codes "closure", codes "full" ∷ codes "partial" ∷ [])
    ∷ (codes "direction", codes "both" ∷ codes "one_way" ∷ [])
    ∷ []
detail_rules obstruction =
    (
      codes "obstruction_type",
      codes "fallen_tree"
          ∷ codes "debris"
          ∷ codes "landslide"
          ∷ codes "fallen_object"
          ∷ codes "other"
          ∷ [],
    )
    ∷ []
detail_rules road_damage =
    (
      codes "damage_type",
      codes "pothole" ∷ codes "subsidence" ∷ codes "surface_damage" ∷ codes "other" ∷ [],
    )
    ∷ []
detail_rules construction = (codes "lanes_blocked", lane_values) ∷ []
detail_rules traffic_signal =
    (codes "signal_issue", codes "not_working" ∷ codes "flashing" ∷ codes "malfunction" ∷ []) ∷ []
detail_rules t = []

-- m[key] of a map, and whether the key is there.
unfoldable pub entry {ℓ} : {A : Type ℓ} → Text → List (Text × A) → Option A
unfolding text_eq
entry key [] = none
entry key ((k, v) ∷ m) = if text_eq k key then some v else entry key m

-- Get: the empty string for a missing key.
unfoldable pub detail : Details → Text → Text
unfolding entry
detail d key = value_of (entry key d)
  where
    value_of : Option Text → Text
    value_of none = []
    value_of (some v) = v

-- A detail of the category with a value that it does not allow.
unfoldable pub bad_detail : ReportType → Text × Text → Bool
unfolding entry text_eq
bad_detail t (key, value) =
    holds (entry key (detail_rules t)) (λ allowed. not (any (text_eq value) allowed))

-- validateDetails: whether it adds a field error.
unfoldable pub bad_details : ReportType → Details → Bool
unfolding bad_detail
bad_details t d = any (bad_detail t) d

unfoldable pub kept_detail : ReportType → Text × Text → Bool
unfolding entry
kept_detail t (key, value) = is_set (entry key (detail_rules t))

-- For.
unfoldable pub details_for : ReportType → Details → Details
unfolding kept_detail
details_for t d = select (kept_detail t) d

-- Once kept, a detail is kept again.
pub details_for-again :
    (t : ReportType) (d : Details) → details_for t (details_for t d) ≡ details_for t d
unfolding details_for
details_for-again t [] = refl
details_for-again t (x ∷ d) = elim (Bool-cases (kept_detail t x)) [
  | inl e ↦ rw e (rw (e, details_for-again t d) refl)
  | inr e ↦ rw e (details_for-again t d)
]
