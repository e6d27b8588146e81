-- ===== src/Report/Service.antt =====
-- internal/application/report/service.go: the use cases, as programs of repository calls.
use flood_now_backend.Base.{ℕ, Bool, true, false, ◌||◌, Option, none, some, is_set, if◌then◌else◌}
use flood_now_backend.Base.Int.{ℤ}
use flood_now_backend.Base.Text.{Text}
use flood_now_backend.Base.Float.{Float64}
use flood_now_backend.Apperr.{Result, ok, err, Error, unauthorized, not_found, conflict}
use flood_now_backend.Program.{
  Program, return, fail, reading, transaction, attempt, check, present, validated, ◌>>=◌, ◌>>◌,
}
use flood_now_backend.Report.Kinds.{ReportType, guest_may_report}
use flood_now_backend.Report.Lifecycle.{Report, ReportWithStats, FreshnessPolicy, Freshness, window}
use flood_now_backend.Report.Input.{
  NewReportInput, validate_report, normalized, is_still_active, ConditionUpdate, update_empty,
  update_for, NewConfirmationInput, validate_confirmation, validate_update_for, ReactionType,
  validate_reaction,
}
use flood_now_backend.Report.Tables.{
  Tables, create, get_by_id, find_by_client_id, react, remove_reaction, my_reaction,
}
use flood_now_backend.Report.Confirm.{ConfirmParams, confirm}

abbrev pub Use {ℓ} : Type ℓ → Type ℓ
Use A = Program Tables A

abbrev pub no_report : Error
no_report = not_found "report not found"

-- The Report literal of Create.
abbrev pub new_report : FreshnessPolicy → NewReportInput → Option ℕ → ℕ → ℤ → Report
new_report p i user id now = record {
  id = id;
  kind = i.kind;
  severity = i.severity;
  latitude = i.latitude;
  longitude = i.longitude;
  geometry_type = i.geometry_type;
  water_depth = i.water_depth;
  water_level_cm = i.water_level_cm;
  passability = i.passability;
  details = i.details;
  description = i.description;
  image_key = i.image_key;
  people_count = i.people_count;
  has_child = i.has_child;
  has_elderly = i.has_elderly;
  contact_phone = i.contact_phone;
  created_at = now;
  updated_at = now;
  last_verified_at = now;
  stale_at = (window p i.kind now).stale_at;
  expires_at = (window p i.kind now).expires_at;
  resolved_at = none;
  client_id = i.client_id;
  hidden_at = none;
  hidden_reason = none;
  user_id = user;
}

-- ReportWithStats{Report: *r}.
abbrev pub fresh_stats : Report → ReportWithStats
fresh_stats r = record {
  report = r;
  still_active_count = 0;
  cleared_count = 0;
  like_count = 0;
  support_count = 0;
  distance_m = none;
}

abbrev pub is_conflict : Error → Bool
is_conflict (conflict m) = true
is_conflict e = false

abbrev pub earlier : Option Text → Use (Option ReportWithStats)
earlier none = return none
earlier (some c) = reading (λ s. find_by_client_id s c)

-- What the lookup after a conflict found.
abbrev pub or_fail : Error → Option ReportWithStats → Use ReportWithStats
or_fail e none = fail e
or_fail e (some r) = return r

abbrev pub after_insert : Option Text → Report → Result (Unit {0}) → Use ReportWithStats
after_insert client_id r (ok u) = return (fresh_stats r)
after_insert client_id r (err e) =
    if is_conflict e then (earlier client_id >>= or_fail e) else fail e

abbrev pub insert_report : Option Text → Report → Use ReportWithStats
insert_report client_id r = attempt (λ s. create s r) >>= after_insert client_id r

module _ (p : FreshnessPolicy) where
  unfoldable pub file_report :
      NewReportInput → Option ℕ → ℕ → ℤ → Option ReportWithStats → Use ReportWithStats
  unfolding window
  file_report i user id now (some r) = return r
  file_report i user id now none = insert_report i.client_id (new_report p i user id now)

  unfoldable pub create_report : Float64 → NewReportInput → Option ℕ → ℕ → ℤ → Use ReportWithStats
  unfolding guest_may_report window
  create_report f i user id now =
      validated (validate_report f i)
      >> (check (is_set user || guest_may_report i.kind)
            (unauthorized "sign in to report this category")
          >> (earlier (normalized i).client_id >>= file_report (normalized i) user id now))

-- A report that is there and not hidden.
abbrev pub visible : Option ReportWithStats → Option ReportWithStats
visible none = none
visible (some r) = if is_set r.report.hidden_at then none else some r

unfoldable pub get_report : ℕ → Use ReportWithStats
get_report id = reading (λ s. get_by_id s id) >>= λ o. present (visible o) no_report

module _ (p : FreshnessPolicy) where
  -- `if in.Status == StatusStillActive`, and `if !update.Empty()`.
  unfoldable pub refresh_for : NewConfirmationInput → ReportType → ℤ → Option Freshness
  unfolding window
  refresh_for i t now = if is_still_active i.status then some (window p t now) else none

  abbrev pub update_set : ConditionUpdate → Option ConditionUpdate
  update_set u = if update_empty u then none else some u

  unfoldable pub confirm_params : ℕ → NewConfirmationInput → ReportType → ℤ → ConfirmParams
  unfolding update_for update_empty
  confirm_params id i t now = record {
    report_id = id;
    device_id = i.device_id;
    status = i.status;
    now = now;
    refresh = refresh_for i t now;
    update = update_set (update_for t i.update);
    policy = p;
  }

  -- Once the report is found.
  unfoldable pub vote_on : ℕ → NewConfirmationInput → ℤ → ReportWithStats → Use ReportWithStats
  vote_on id i now r =
      validated (validate_update_for r.report.kind i.update)
      >> transaction (λ s. confirm s (confirm_params id i r.report.kind now))
      >>= λ o. present o no_report

  unfoldable pub confirm_report : ℕ → NewConfirmationInput → ℤ → Use ReportWithStats
  unfolding get_report update_for update_empty window
  confirm_report id i now =
      validated (validate_confirmation i) >> get_report id >>= vote_on id i now

unfoldable pub react_to : ℕ → ℕ → ReactionType → Use ReportWithStats
unfolding get_report react
react_to id user kind =
    validated (validate_reaction kind) >> get_report id >> react id user kind >>= λ o.
    present o no_report

unfoldable pub unreact : ℕ → ℕ → Use ReportWithStats
unfolding get_report remove_reaction
unreact id user = get_report id >> remove_reaction id user >>= λ o. present o no_report

unfoldable pub reaction_of : ℕ → ℕ → Use (Option ReactionType)
reaction_of id user = reading (λ s. my_reaction s id user)
