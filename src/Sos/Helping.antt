-- ===== src/Sos/Helping.antt =====
-- internal/application/sos/service.go: Nearby, and the profile of a helper.
use flood_now_backend.Base.{
  ℕ, false, not, ◌||◌, Option, none, some, List, [], ◌∷◌, is_set, select, if◌then◌else◌,
}
use flood_now_backend.Base.Int.{ℤ, neg, ◌+ℤ◌, pos}
use flood_now_backend.Base.Text.{Text}
use flood_now_backend.Base.Float.{Float64}
use flood_now_backend.Apperr.{validation, conflict}
use flood_now_backend.Program.{return, reading, writing, check, present, validated, ◌>>=◌, ◌>>◌}
use flood_now_backend.LocalService.Provider.{trimmed}
use flood_now_backend.Sos.Request.{
  Need, trapped, elderly_or_patient, vehicle_stalled, need_boat, need_high_vehicle, need_food_water,
  need_shelter, need_other, can_answer, max_open_age, validate_device_id, outside,
}
use flood_now_backend.Sos.Helpers.{Helper, HelperInput, validate_helper}
use flood_now_backend.Sos.Tables.{get_helper, upsert_helper, update_helper_location}
use flood_now_backend.Sos.Nearby.{NearbySosQuery, SosWithDistance, nearby_waiting}
use flood_now_backend.Sos.Service.{Use}

abbrev pub all_needs : List Need
all_needs =
    trapped ∷ elderly_or_patient ∷ vehicle_stalled ∷ need_boat ∷ need_high_vehicle ∷ need_food_water
    ∷ need_shelter ∷ need_other ∷ []

-- At least 100 m.
abbrev pub nearby_radius : Float64 → Helper → ℕ
nearby_radius f h =
    if f.lt (f.of_int h.radius_m) (f.of_int (pos 100))
    then f.of_int (pos 100)
    else f.of_int h.radius_m

abbrev pub nearby_query : Float64 → Text → ℕ → ℕ → ℤ → Helper → NearbySosQuery
nearby_query f device_id lat lng now h = record {
  latitude = lat;
  longitude = lng;
  radius_m = nearby_radius f h;
  needs = select (λ n. can_answer n h.capabilities) all_needs;
  exclude_device_id = device_id;
  created_since = now +ℤ neg max_open_age;
  limit = 50;
}

unfoldable pub nearby : Float64 → Text → ℕ → ℕ → ℤ → Use (List SosWithDistance)
nearby f device_id lat lng now =
    validated (validate_device_id device_id)
    >> check (not (outside f lat 90 || outside f lng 180))
        (validation "location is invalid" ("lat" ∷ []))
    >> reading (λ s. get_helper s device_id)
    >>= λ oh. present oh (conflict "helper mode is off") >>= λ h.
        check h.active (conflict "helper mode is off")
        >> writing (λ s. update_helper_location s device_id lat lng now)
        >> reading (λ s. nearby_waiting f s (nearby_query f device_id lat lng now h))

unfoldable pub helper_profile : Text → Use (Option Helper)
helper_profile device_id =
    validated (validate_device_id device_id) >> reading (λ s. get_helper s device_id)

-- The profile that SaveHelper starts from, and what the input changes.
abbrev pub kept_profile : HelperInput → ℤ → Option Helper → Helper
kept_profile i now (some h) = h
kept_profile i now none = record {
  device_id = i.device_id;
  active = false;
  capabilities = [];
  radius_m = pos 0;
  display_name = none;
  contact_phone = none;
  latitude = none;
  longitude = none;
  location_at = none;
  created_at = now;
  updated_at = now;
}

abbrev pub saved_profile : HelperInput → ℤ → Helper → Helper
saved_profile i now h = record h {
  active = i.active;
  capabilities = i.capabilities;
  radius_m = i.radius_m;
  display_name = trimmed i.display_name;
  contact_phone = trimmed i.contact_phone;
  updated_at = now;
  latitude = if is_set i.latitude then i.latitude else h.latitude;
  longitude = if is_set i.latitude then i.longitude else h.longitude;
  location_at = if is_set i.latitude then some now else h.location_at;
}

unfoldable pub save_helper : Float64 → HelperInput → ℤ → Use Helper
save_helper f i now =
    validated (validate_helper f i) >> reading (λ s. get_helper s i.device_id) >>= λ existing.
    writing (λ s. upsert_helper s (saved_profile i now (kept_profile i now existing)))
    >> return (saved_profile i now (kept_profile i now existing))
