-- ===== src/Sos/Nearby.antt =====
-- internal/adapters/outbound/postgres/sos_repository.go: the queries by distance, NearbyWaiting and
-- CountHelpersNear.
use flood_now_backend.Base.{
  ℕ, Bool, false, not, ◌&&◌, Option, none, some, List, map, any, count_by, select, take, holds,
  ◌==◌,
}
use flood_now_backend.Base.Int.{ℤ, pos, leb_ℤ}
use flood_now_backend.Base.Text.{Text, text_eq}
use flood_now_backend.Base.Float.{Float64}
use flood_now_backend.Base.Sorting.{sort_by}
use flood_now_backend.Sos.Request.{
  Need, trapped, elderly_or_patient, vehicle_stalled, need_boat, need_high_vehicle, need_food_water,
  need_shelter, need_other, unknown_need, Capability, capability_eq, waiting, status_eq, Request,
}
use flood_now_backend.Sos.Helpers.{Helper}
use flood_now_backend.Sos.Tables.{Tables, scanned}

abbrev pub need_number : Need → ℕ
need_number trapped = 0
need_number elderly_or_patient = 1
need_number vehicle_stalled = 2
need_number need_boat = 3
need_number need_high_vehicle = 4
need_number need_food_water = 5
need_number need_shelter = 6
need_number need_other = 7
need_number unknown_need = 8

-- ports.BBox.
pub record Box : Type 0 where
  pub min_lat : ℕ
  pub max_lat : ℕ
  pub min_lng : ℕ
  pub max_lng : ℕ

module _ (f : Float64) where
  abbrev pub radians : ℕ → ℕ
  radians a = f.mul a (f.div f.pi (f.of_int (pos 180)))

  abbrev pub square : ℕ → ℕ
  square a = f.mul a a

  -- sosDistanceSQL of a row's position and a point.
  unfoldable pub sos_distance : ℕ → ℕ → ℕ → ℕ → ℕ
  sos_distance row_lat row_lng lat lng =
      let two = f.of_int (pos 2) in
      let a = square (f.sin (f.div (radians (f.sub row_lat lat)) two)) in
      let b = square (f.sin (f.div (radians (f.sub row_lng lng)) two)) in
      f.mul (f.of_int (pos 12742000)) (
        f.asin (f.sqrt (f.add a (f.mul (f.mul (f.cos (radians lat)) (f.cos (radians row_lat))) b))))

  abbrev pub at_most : ℕ → ℕ → Bool
  at_most a b = not (f.lt b a)

  unfoldable pub radius_box : ℕ → ℕ → ℕ → Box
  radius_box lat lng radius_m =
      let degree = f.of_int (pos 111320) in
      let smallest = f.div (f.of_int (pos 1)) (f.of_int (pos 100)) in
      let d_lat = f.div radius_m degree in
      let angle = f.div (f.mul lat f.pi) (f.of_int (pos 180)) in
      let d_lng = f.div radius_m (f.mul degree (f.max (f.cos angle) smallest)) in
      record {
        min_lat = f.sub lat d_lat;
        max_lat = f.add lat d_lat;
        min_lng = f.sub lng d_lng;
        max_lng = f.add lng d_lng;
      }

  -- lat BETWEEN … AND lng BETWEEN ….
  abbrev pub in_box : Box → ℕ → ℕ → Bool
  in_box b lat lng =
      at_most b.min_lat lat
      && at_most lat b.max_lat
      && at_most b.min_lng lng
      && at_most lng b.max_lng

-- ports.NearbySOSQuery and ports.HelperCountQuery.
pub record NearbySosQuery : Type 0 where
  pub latitude : ℕ
  pub longitude : ℕ
  pub radius_m : ℕ
  pub needs : List Need
  pub exclude_device_id : Text
  pub created_since : ℤ
  pub limit : ℕ

pub record HelperCountQuery : Type 0 where
  pub latitude : ℕ
  pub longitude : ℕ
  pub capabilities : List Capability
  pub exclude_device_id : Text
  pub location_since : ℤ

-- ports.SOSWithDistance.
pub record SosWithDistance : Type 0 where
  pub request : Request
  pub distance_m : ℕ

module _ (f : Float64) where
  unfoldable pub waits_near : NearbySosQuery → Request → Bool
  unfolding sos_distance radius_box text_eq
  waits_near q r =
      status_eq r.status waiting
      && in_box f (radius_box f q.latitude q.longitude q.radius_m) r.latitude r.longitude
      && any (λ n. need_number r.need == need_number n) q.needs
      && not (text_eq r.device_id q.exclude_device_id)
      && leb_ℤ q.created_since r.created_at
      && at_most f (sos_distance f r.latitude r.longitude q.latitude q.longitude) q.radius_m

  abbrev pub with_distance : NearbySosQuery → Request → SosWithDistance
  with_distance q r = record {
    request = scanned r;
    distance_m = sos_distance f r.latitude r.longitude q.latitude q.longitude;
  }

  -- No need that the helper can answer: no row.
  unfoldable pub nearby_waiting : Tables → NearbySosQuery → List SosWithDistance
  unfolding waits_near sort_by sos_distance
  nearby_waiting s q = take q.limit (
      sort_by (λ a b. f.lt a.distance_m b.distance_m)
        (map (with_distance q) (select (waits_near q) s.requests)))

  abbrev pub both : Option ℕ → Option ℕ → (ℕ → ℕ → Bool) → Bool
  both none b p = false
  both (some a) none p = false
  both (some a) (some b) p = p a b

  -- A column that is NULL passes no test.
  unfoldable pub can_help_near : HelperCountQuery → Helper → Bool
  unfolding sos_distance radius_box text_eq capability_eq
  can_help_near q h =
      h.active
      && any (λ c. any (capability_eq c) q.capabilities) h.capabilities
      && not (text_eq h.device_id q.exclude_device_id)
      && holds h.location_at (λ at. leb_ℤ q.location_since at)
      && both h.latitude h.longitude (λ lat lng.
        in_box f (radius_box f q.latitude q.longitude (f.of_int (pos 10000))) lat lng
        && at_most f (sos_distance f lat lng q.latitude q.longitude) (f.of_int h.radius_m))

  unfoldable pub count_helpers_near : Tables → HelperCountQuery → ℕ
  unfolding can_help_near
  count_helpers_near s q = count_by (can_help_near q) s.helpers
