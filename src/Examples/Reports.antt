-- ===== src/Examples/Reports.antt =====
-- A flooded road, filed by a guest and reported dry by a neighbour.
use flood_now_backend.Base.{◌≤◌, ◌≡◌, refl, true, false, none, some, [], ◌∷◌, all, length, any, ltb}
use flood_now_backend.Base.Int.{pos}
use flood_now_backend.Base.Text.{codes, text_eq, byte_len, rune_len, is_empty}
use flood_now_backend.Apperr.{Result, ok, err}
use flood_now_backend.Program.{
  finished, run, ◌>>=◌, validated, check, present, reading, attempt, transaction, store_after,
}
use flood_now_backend.Program.Server.{at_start, Runs-alone}
use flood_now_backend.Postgres.Table.{find, update_where}
use flood_now_backend.Sos.Request.{outside, bad_contact, is_text}
use flood_now_backend.Sos.Tables.{same_client_id}
use flood_now_backend.Report.Kinds.{
  flooded, high, ankle, geometry_empty, creatable, guest_may_report, affects_roads, is_long_lived,
}
use flood_now_backend.Report.Details.{bad_details, details_for, kept_detail, entry}
use flood_now_backend.Report.Lifecycle.{
  ReportWithStats, FreshnessPolicy, freshness_valid, window, next_resolved_at, active, resolved,
  status, status_eq,
}
use flood_now_backend.Report.Input.{
  NewReportInput, validate_report, valid_report_image, valid_client_id, has_blank, normalized,
  cleared, update_empty, update_for, NewConfirmationInput, validate_confirmation,
  validate_update_for, like,
}
use flood_now_backend.Report.Complaint.{
  ModerationPolicy, moderation_valid, wrong_location, NewComplaintInput, validate_complaint,
  action_hide,
}
use flood_now_backend.Report.Tables.{
  Tables, empty_tables, create, clashes, find_by_client_id, get_by_id, with_stats,
}
use flood_now_backend.Report.Confirm.{
  confirm, settle, recounted, upsert_vote, apply_condition_update,
}
use flood_now_backend.Report.Filter.{statuses}
use flood_now_backend.Report.Service.{
  create_report, new_report, fresh_stats, file_report, confirm_report, get_report, vote_on,
  confirm_params, refresh_for, no_report, react_to, unreact,
}
use flood_now_backend.Report.Browse.{ListInput, ListResult, list_limit, list_reports}
use flood_now_backend.Report.Interleaving.{
  command_create, command_confirm, start, Reached, Reached-Sound, Reached-rows, Reached-Keys,
}
use flood_now_backend.Report.Invariants.Frames.{is_resolved, Sound}
use flood_now_backend.Report.Invariants.Keyed.{Keys}
use flood_now_backend.Report.Invariants.Rows.{row_sound}
use flood_now_backend.Report.Visible.{statuses-Status, shown, matches, list_reports-page}
use flood_now_backend.Report.Hidden.{is_shown, hidden-NotFound}
use flood_now_backend.Report.Moderation.{set_hidden, apply_action}
use flood_now_backend.Report.Review.{report_problem}
use flood_now_backend.Report.Resend.{create_report-again}
use flood_now_backend.Examples.Setting.{flat}

abbrev freshness : FreshnessPolicy
freshness = record {
  stale_after = pos 2;
  ttl = pos 6;
  facility_stale_after = pos 24;
  facility_ttl = pos 72;
  resolve_threshold = pos 1;
}

abbrev moderation : ModerationPolicy
moderation = record { auto_hide_threshold = pos 3; max_per_device_per_hour = pos 10 }

abbrev puddle : NewReportInput
puddle = record {
  kind = flooded;
  severity = high;
  latitude = 0;
  longitude = 0;
  geometry_type = geometry_empty;
  water_depth = some ankle;
  water_level_cm = none;
  passability = none;
  details = [];
  description = none;
  image_key = none;
  people_count = none;
  has_child = none;
  has_elderly = none;
  contact_phone = none;
  client_id = some (codes "queued-1");
}

abbrev dry : NewConfirmationInput
dry = record {
  device_id = codes "device-neighbour";
  status = cleared;
  update = record {
    severity = none;
    water_depth = none;
    passability = none;
    details = [];
    image_key = none;
  };
}

-- The guest's report, and then the neighbour's vote.
abbrev filed : Result (Unit {0}) × Tables
filed = run (start freshness moderation flat (command_create puddle none 7 (pos 1))) empty_tables

abbrev dried : Result (Unit {0}) × Tables
dried = run (start freshness moderation flat (command_confirm 7 dry (pos 2))) filed.1

under_way : Reached freshness moderation flat (finished dried.0 ∷ finished filed.0 ∷ []) dried.1
under_way =
    Runs-alone empty_tables (start freshness moderation flat) (finished filed.0 ∷ []) filed.1
      (command_confirm 7 dry (pos 2))
      (Runs-alone empty_tables (start freshness moderation flat) [] empty_tables
        (command_create puddle none 7 (pos 1)) at_start)

Reached-Sound_example : Sound freshness moderation dried.1 7
unfolding moderation_valid
Reached-Sound_example =
    Reached-Sound freshness moderation flat refl (finished dried.0 ∷ finished filed.0 ∷ []) dried.1
      under_way 7

Reached-rows_example : all row_sound dried.1.reports ≡ true
unfolding freshness_valid
Reached-rows_example =
    Reached-rows freshness moderation flat refl (finished dried.0 ∷ finished filed.0 ∷ []) dried.1
      under_way

-- The vote resolved the report.
dried-resolved : is_resolved dried.1 7 ≡ true
unfolding is_resolved run create_report validate_report creatable outside bad_details bad_contact
    valid_report_image valid_client_id has_blank byte_len rune_len check guest_may_report normalized
    affects_roads details_for kept_detail entry file_report find_by_client_id attempt create clashes
    same_client_id is_text text_eq find window is_long_lived with_stats validated ◌>>=◌ reading
    confirm_report validate_confirmation update_empty is_empty present get_by_id get_report vote_on
    validate_update_for transaction confirm settle recounted upsert_vote update_where confirm_params
    refresh_for update_for next_resolved_at apply_condition_update
dried-resolved = refl

statuses-Status_example :
    statuses (active ∷ resolved ∷ []) (pos 9) (new_report freshness puddle none 7 (pos 1))
    ≡ any
        (status_eq (status (new_report freshness puddle none 7 (pos 1)) (pos 9)))
        (active ∷ resolved ∷ [])
unfolding window status statuses
statuses-Status_example =
    statuses-Status (pos 9) (new_report freshness puddle none 7 (pos 1)) active (resolved ∷ [])

abbrev everything : ListInput
everything = record {
  bbox = none;
  types = [];
  severities = [];
  statuses = [];
  updated_since = none;
  limit = pos 0;
}

list_reports-page_example :
    (page : ListResult) × (run (list_reports flat everything (pos 2)) filed.1 ≡ (ok page, filed.1))
    × (length page.reports ≤ list_limit everything)
    × (page.has_more ≡ ltb (list_limit everything) (matches flat everything (pos 2) filed.1))
    × (all (λ v. shown everything (pos 2) v.report) page.reports ≡ true)
    × (page.has_more ≡ false → length page.reports ≡ matches flat everything (pos 2) filed.1)
list_reports-page_example = list_reports-page flat everything (pos 2) filed.1

abbrev first_answer : ReportWithStats
first_answer = fresh_stats (new_report freshness (normalized puddle) none 7 (pos 1))

create_report-again_example :
    (y : ReportWithStats) × (run (create_report freshness flat puddle none 8 (pos 5)) filed.1
      ≡ (ok y, filed.1))
    × (y.report.id ≡ 7)
unfolding run create_report validate_report creatable outside bad_details bad_contact
    valid_report_image valid_client_id has_blank byte_len rune_len check guest_may_report normalized
    affects_roads details_for kept_detail entry file_report find_by_client_id attempt create clashes
    same_client_id is_text text_eq find window is_long_lived with_stats validated ◌>>=◌ reading
create_report-again_example =
    create_report-again freshness flat puddle none (codes "queued-1") 7 8 (pos 1) (pos 5)
      empty_tables filed.1 first_answer refl refl

Reached-Keys_example : Keys dried.1
Reached-Keys_example =
    Reached-Keys freshness moderation flat (finished dried.0 ∷ finished filed.0 ∷ []) dried.1
      under_way

abbrev hidden_by_admin : Tables
hidden_by_admin = store_after filed.1 (apply_action filed.1 7 action_hide (pos 3))

abbrev misplaced : NewComplaintInput
misplaced = record { device_id = codes "device-neighbour"; reason = wrong_location; details = none }

hidden-NotFound_example :
    (run (get_report 7) hidden_by_admin ≡ (err no_report, hidden_by_admin))
    × (run (confirm_report freshness 7 dry (pos 4)) hidden_by_admin
        ≡ (err no_report, hidden_by_admin))
    × (run (react_to 7 1 like) hidden_by_admin ≡ (err no_report, hidden_by_admin))
    × (run (unreact 7 1) hidden_by_admin ≡ (err no_report, hidden_by_admin))
    × (run (report_problem moderation 7 misplaced 9 (pos 4)) hidden_by_admin
        ≡ (err no_report, hidden_by_admin))
unfolding run create_report validate_report creatable outside bad_details bad_contact
    valid_report_image valid_client_id has_blank byte_len rune_len check guest_may_report normalized
    affects_roads details_for kept_detail entry file_report find_by_client_id attempt create clashes
    same_client_id is_text text_eq find window is_long_lived with_stats validated ◌>>=◌ reading
    apply_action set_hidden update_where is_shown validate_confirmation update_empty is_empty
    validate_complaint
hidden-NotFound_example =
    hidden-NotFound hidden_by_admin 7 freshness dry 1 like moderation misplaced 9 (pos 4) refl refl
      refl refl
