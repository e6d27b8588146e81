-- ===== src/Sos/Service.antt =====
-- internal/application/sos/service.go: the use cases, as programs of repository calls.
use flood_now_backend.Base.{
  ℕ, Bool, not, ◌&&◌, Option, none, some, List, [], ◌∷◌, is_set, if◌then◌else◌,
}
use flood_now_backend.Base.Int.{ℤ, neg, ◌+ℤ◌}
use flood_now_backend.Base.Text.{Text, text_eq}
use flood_now_backend.Base.Float.{Float64}
use flood_now_backend.Apperr.{Error, unauthorized, validation, not_found, conflict}
use flood_now_backend.Program.{
  Program, return, fail, reading, transaction, check, present, validated, ◌>>=◌, ◌>>◌,
}
use flood_now_backend.LocalService.Provider.{trimmed}
use flood_now_backend.Sos.Request.{
  required_capabilities, can_answer, Status, waiting, status_eq, status_valid, is_closed, Role,
  requester, helper, no_role, role_eq, can_transition, Request, role_of, Event,
  max_active_assignments, validate_device_id, NewRequestInput, validate_request,
}
use flood_now_backend.Sos.Helpers.{Helper, helper_location_max_age}
use flood_now_backend.Sos.Tables.{
  Tables, create, get, find_by_client_id, events_of, list_for_device, SosTransition, transition,
  accept, get_helper,
}
use flood_now_backend.Sos.Nearby.{HelperCountQuery, count_helpers_near}

abbrev pub Use {ℓ} : Type ℓ → Type ℓ
Use A = Program Tables A

pub record View : Type 0 where
  pub request : Request
  pub role : Role
  pub events : List Event
  pub helper : Option Helper
  pub nearby_helpers : Option ℕ

abbrev pub bare_view : Request → Role → View
bare_view r role = record {
  request = r;
  role = role;
  events = [];
  helper = none;
  nearby_helpers = none;
}

-- roleOf: none for a request that is not there.
unfoldable pub role_in : Option Request → Text → Role
unfolding role_of
role_in none device_id = no_role
role_in (some r) device_id = role_of r device_id

-- The requester of an open request sees its helper.
abbrev pub helper_shown : Request → Role → Use (Option Helper)
helper_shown r role = shown_of r.helper_device_id
  where
    shown_of : Option Text → Use (Option Helper)
    shown_of none = return none
    shown_of (some d) =
        if role_eq role requester && not (is_closed r.status)
        then reading (λ s. get_helper s d)
        else return none

abbrev pub count_query : Request → ℤ → HelperCountQuery
count_query r now = record {
  latitude = r.latitude;
  longitude = r.longitude;
  capabilities = required_capabilities r.need;
  exclude_device_id = r.device_id;
  location_since = now +ℤ neg helper_location_max_age;
}

abbrev pub count_shown : Float64 → Request → Role → ℤ → Use (Option ℕ)
count_shown f r role now =
    if role_eq role requester && status_eq r.status waiting
    then (reading (λ s. count_helpers_near f s (count_query r now)) >>= λ n. return (some n))
    else return none

unfoldable pub view : Float64 → Request → Role → ℤ → Use View
view f r role now = reading (λ s. events_of s r.id) >>= λ events. helper_shown r role >>= λ h.
    count_shown f r role now >>= λ n.
    return (record { request = r; role = role; events = events; helper = h; nearby_helpers = n })

abbrev pub new_request : NewRequestInput → ℕ → ℤ → Request
new_request i id now = record {
  id = id;
  device_id = i.device_id;
  user_id = i.user_id;
  client_id = i.client_id;
  need = i.need;
  description = trimmed i.description;
  latitude = i.latitude;
  longitude = i.longitude;
  people_count = i.people_count;
  contact_phone = trimmed i.contact_phone;
  status = waiting;
  helper_device_id = none;
  created_at = now;
  updated_at = now;
  closed_at = none;
}

abbrev pub earlier_request : NewRequestInput → Use (Option Request)
earlier_request i = earlier_of i.client_id
  where
    earlier_of : Option Text → Use (Option Request)
    earlier_of none = return none
    earlier_of (some c) = reading (λ s. find_by_client_id s i.device_id c)

-- A part in the request: `role != ""`.
abbrev pub is_party : Role → Bool
is_party role = not (role_eq role no_role)

abbrev pub no_request : Error
no_request = not_found "sos request not found"

abbrev pub move_of : Text → ℕ → Request → Role → Status → ℤ → SosTransition
move_of device_id id r role to now = record {
  id = id;
  from = r.status;
  to = to;
  actor = role;
  helper_device_id = if role_eq role helper then some device_id else none;
  now = now;
}

abbrev pub changed : Error
changed = conflict "the request changed in the meantime; reload and try again"

abbrev pub taken : Error
taken = conflict "another helper already accepted this request"

module _ (f : Float64) where
  abbrev pub file_request : NewRequestInput → ℕ → ℤ → Option Request → Use View
  file_request i id now (some r) = view f r requester now
  file_request i id now none =
      transaction (λ s. create s (new_request i id now))
      >> view f (new_request i id now) requester now

  unfoldable pub create_sos : NewRequestInput → ℕ → ℤ → Use View
  create_sos i id now =
      check (is_set i.user_id) (unauthorized "sign in to send an SOS")
      >> validated (validate_request f i)
      >> earlier_request i
      >>= file_request i id now

  unfoldable pub get_sos : Text → ℕ → ℤ → Use View
  get_sos device_id id now =
      validated (validate_device_id device_id) >> reading (λ s. get s id) >>= λ o.
      present o no_request >>= λ r.
      check (is_party (role_of r device_id)) no_request >> view f r (role_of r device_id) now

  -- The loop of Mine over the requests.
  unfoldable pub mine_views : Text → ℤ → List Request → Use (List View)
  mine_views device_id now [] = return []
  mine_views device_id now (r ∷ rs) =
      (if is_closed r.status
        then return (bare_view r (role_of r device_id))
        else view f r (role_of r device_id) now)
      >>= λ v. mine_views device_id now rs >>= λ vs. return (v ∷ vs)

  unfoldable pub mine : Text → ℤ → Use (List View)
  unfolding mine_views
  mine device_id now =
      validated (validate_device_id device_id)
      >> reading (λ s. list_for_device s device_id 20)
      >>= mine_views device_id now

  -- Once the caller has a part in the request.
  abbrev pub move : Text → ℕ → Request → Status → ℤ → Use View
  move device_id id r to now =
      check (can_transition r.status to (role_of r device_id))
        (conflict "this status change isn't allowed now")
      >> transaction (λ s. transition s (move_of device_id id r (role_of r device_id) to now))
      >>= λ done. check done changed >> get_sos device_id id now

  unfoldable pub update_status : Text → ℕ → Status → ℤ → Use View
  update_status device_id id to now =
      validated (validate_device_id device_id)
      >> check (status_valid to) (validation "status is invalid" ("status" ∷ []))
      >> reading (λ s. get s id)
      >>= λ o. present o no_request >>= λ r.
          check (is_party (role_of r device_id)) no_request >> move device_id id r to now

  abbrev pub claim : Text → ℕ → ℤ → Helper → Request → Use View
  claim device_id id now h r =
      check (can_answer r.need h.capabilities)
        (conflict "your helper capabilities don't match this request")
      >> transaction (λ s. accept s id device_id max_active_assignments now)
      >>= λ done. check done taken >> get_sos device_id id now

  -- A request that is not waiting: already ours, or another's.
  abbrev pub not_waiting : Text → ℤ → Request → Use View
  not_waiting device_id now r =
      if role_eq (role_of r device_id) helper then view f r helper now else fail taken

  unfoldable pub accept_sos : Text → ℕ → ℤ → Use View
  unfolding text_eq
  accept_sos device_id id now =
      validated (validate_device_id device_id) >> reading (λ s. get_helper s device_id) >>= λ oh.
      present oh (conflict "turn on helper mode first") >>= λ h.
      check h.active (conflict "turn on helper mode first") >> reading (λ s. get s id) >>= λ o.
      present o no_request >>= λ r.
      check (not (text_eq r.device_id device_id)) no_request
      >> (if status_eq r.status waiting
          then claim device_id id now h r
          else not_waiting device_id now r)
