-- ===== src/Examples/Rescue.antt =====
-- An SOS for a boat, and a helper who has one.
use flood_now_backend.Base.{◌≡◌, refl, true, none, some, [], ◌∷◌, all}
use flood_now_backend.Base.Int.{pos}
use flood_now_backend.Base.Text.{Text, codes, text_eq, is_empty}
use flood_now_backend.Apperr.{ok, err}
use flood_now_backend.Program.{
  result_of, store_after, finished, return, ◌>>=◌, ◌>>◌, check, validated, transaction, run,
}
use flood_now_backend.Program.Server.{at_start, arrives, turns, first}
use flood_now_backend.Postgres.Table.{find, update_where}
use flood_now_backend.LocalService.Provider.{trimmed}
use flood_now_backend.Sos.Request.{
  need_boat, boat, waiting, on_the_way, arrived, completed, cancelled, requester, helper,
  can_answer, capability_eq, can_transition, Request, Event, status_eq, NewRequestInput,
  validate_device_id, validate_request, is_text, max_active_assignments,
}
use flood_now_backend.Sos.Helpers.{Helper}
use flood_now_backend.Sos.Tables.{
  Tables, empty_tables, events_of, request_is, create, clashes, get_helper, accept, accept_locked,
  assigned_to, claimable, claimed, upsert_helper,
}
use flood_now_backend.Sos.Writes.{Writes, done, next, creates, saves, accepts}
use flood_now_backend.Sos.Invariants.Rows.{row_sound}
use flood_now_backend.Sos.Invariants.Limits.{Limits, writes-Limits}
use flood_now_backend.Sos.Invariants.Told.{last_of}
use flood_now_backend.Sos.Invariants.Progress.{Follows, Write-Follows}
use flood_now_backend.Sos.Service.{
  Use, View, view, new_request, create_sos, get_sos, update_status, accept_sos, no_request,
}
use flood_now_backend.Sos.Interleaving.{
  command_create, Reached, Reached-row_sound, Reached-Limits, Reached-events,
}
use flood_now_backend.Sos.Access.{may_see_sos, outsider-NotFound}
use flood_now_backend.Sos.Race.{accept-once}
use flood_now_backend.Sos.Rescue.{rescue, withdraw-NotFound}
use flood_now_backend.Examples.Setting.{flat}

abbrev roof : Text
roof = codes "device-roof"

abbrev boatman : Text
boatman = codes "device-boatman"

abbrev stranger : Text
stranger = codes "device-stranger"

abbrev call_for_boat : NewRequestInput
call_for_boat = record {
  device_id = roof;
  user_id = some 1;
  client_id = none;
  need = need_boat;
  description = none;
  latitude = 0;
  longitude = 0;
  people_count = some (pos 3);
  contact_phone = none;
}

abbrev sos : Request
sos = new_request call_for_boat 7 (pos 1)

abbrev boat_owner : Helper
boat_owner = record {
  device_id = boatman;
  active = true;
  capabilities = boat ∷ [];
  radius_m = pos 5000;
  display_name = none;
  contact_phone = none;
  latitude = none;
  longitude = none;
  location_at = none;
  created_at = pos 0;
  updated_at = pos 0;
}

abbrev filed : Tables
filed = store_after empty_tables (create empty_tables sos)

abbrev with_helper : Tables
with_helper = upsert_helper filed boat_owner

abbrev sos_view : Use (Unit {0})
sos_view = view flat sos requester (pos 1) >>= λ v. return tt

abbrev answering : Tables → Use (Unit {0})
answering s =
    (finished (result_of (create s sos)) >>= λ u. view flat sos requester (pos 1)) >>= λ v.
    return tt

under_way : Reached flat (answering empty_tables ∷ []) filed
unfolding create_sos check validated validate_request transaction ◌>>=◌ trimmed
under_way =
    turns _ (answering empty_tables ∷ []) empty_tables filed
      (arrives [] empty_tables (command_create call_for_boat 7 (pos 1)) at_start)
      (first (λ s. store_after s (create s sos)) answering [])

Reached-row_sound_example : all row_sound filed.requests ≡ true
Reached-row_sound_example = Reached-row_sound flat (answering empty_tables ∷ []) filed under_way

Reached-Limits_example : Limits filed
Reached-Limits_example = Reached-Limits flat (answering empty_tables ∷ []) filed under_way

Reached-events_example :
    (e : Event) × (last_of (events_of filed 7) ≡ some e) × (status_eq waiting e.status ≡ true)
unfolding create clashes find
Reached-events_example =
    Reached-events flat (answering empty_tables ∷ []) filed under_way 7 sos refl (tt, tt)

outsider-NotFound_example :
    (run (get_sos flat stranger 7 (pos 9)) filed ≡ (err no_request, filed))
    × (run (update_status flat stranger 7 cancelled (pos 9)) filed ≡ (err no_request, filed))
unfolding validate_device_id create clashes may_see_sos find text_eq is_empty
outsider-NotFound_example = outsider-NotFound flat filed stranger 7 cancelled (pos 9) refl refl refl

history : Writes empty_tables with_helper
history = next (next done (creates sos refl)) (saves boat_owner)

accept-once_example : ¬ (
    result_of (
      accept
        (store_after with_helper (accept with_helper 7 boatman max_active_assignments (pos 2)))
        7
        stranger
        max_active_assignments
        (pos 3))
    ≡ ok true)
unfolding accept accept_locked get_helper upsert_helper create clashes assigned_to claimable find
    is_text text_eq
accept-once_example =
    accept-once with_helper 7 boatman stranger max_active_assignments max_active_assignments (pos 2)
      (pos 3) (writes-Limits with_helper history) refl

sos_claimed : Tables
sos_claimed = store_after with_helper (accept with_helper 7 boatman max_active_assignments (pos 2))

Write-Follows_example : Follows sos_claimed 7 sos
unfolding sos_claimed find create clashes upsert_helper
Write-Follows_example = Write-Follows with_helper sos_claimed (accepts 7 boatman (pos 2)) 7 sos refl

rescue_example :
    (seen : View) × (t : Tables) × (run
        (accept_sos flat boatman 7 (pos 2)
          >> update_status flat boatman 7 on_the_way (pos 3)
          >> update_status flat boatman 7 arrived (pos 4)
          >> update_status flat boatman 7 completed (pos 5))
        with_helper
      ≡ (ok seen, t))
    × (seen.request.status ≡ completed)
    × (seen.role ≡ helper)
unfolding validate_device_id upsert_helper create clashes get_helper find can_answer capability_eq
    assigned_to is_text text_eq update_where
rescue_example =
    rescue flat boatman 7 refl with_helper sos boat_owner (pos 2) (pos 3) (pos 4) (pos 5) refl refl
      refl refl refl refl refl

withdraw-NotFound_example :
    (t : Tables) × (run (update_status flat boatman 7 waiting (pos 3)) sos_claimed
      ≡ (err no_request, t))
    × (row : Request) × (find (request_is 7) t.requests ≡ some row)
    × (row.status ≡ waiting)
    × (row.helper_device_id ≡ none)
unfolding sos_claimed validate_device_id accept accept_locked get_helper upsert_helper create
    clashes assigned_to claimable find is_text text_eq can_transition update_where
withdraw-NotFound_example =
    withdraw-NotFound flat boatman 7 refl sos_claimed (claimed boatman (pos 2) sos) (pos 3) refl
      (record { apart = refl; assigned = refl }) refl
