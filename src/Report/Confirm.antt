-- ===== src/Report/Confirm.antt =====
-- internal/adapters/outbound/postgres/report_repository.go: Confirm, one transaction that votes,
-- renews the report, changes its condition and resolves or reopens it.
use flood_now_backend.Base.{
  ℕ, Bool, not, ◌&&◌, Option, none, some, List, ◌∷◌, ◌++◌, any, count_by, select, is_set, ◌==◌,
  if◌then◌else◌,
}
use flood_now_backend.Base.Int.{ℤ}
use flood_now_backend.Base.Text.{Text, text_eq}
use flood_now_backend.Apperr.{ok}
use flood_now_backend.Program.{Outcome, commit, rollback}
use flood_now_backend.Postgres.Table.{update_where}
use flood_now_backend.Report.Details.{Details, entry}
use flood_now_backend.Report.Lifecycle.{
  Report, ReportWithStats, FreshnessPolicy, Freshness, next_resolved_at, EventKind, confirmed,
  updated, resolution_event,
}
use flood_now_backend.Report.Input.{ConfirmationStatus, ConditionUpdate, no_details}
use flood_now_backend.Report.Tables.{
  Vote, ReportEvent, Tables, report_is, row_of, new_event, still_vote, cleared_vote, get_by_id,
}

-- ports.ConfirmParams.
pub record ConfirmParams : Type 0 where
  pub report_id : ℕ
  pub device_id : Text
  pub status : ConfirmationStatus
  pub now : ℤ
  pub refresh : Option Freshness
  pub update : Option ConditionUpdate
  pub policy : FreshnessPolicy

abbrev pub of_device : ℕ → Text → Vote → Bool
of_device id device_id v = v.report_id == id && text_eq v.device_id device_id

abbrev pub voted_again : ConfirmationStatus → ℤ → Vote → Vote
voted_again status now v = record v { status = status; updated_at = now }

abbrev pub first_vote : ConfirmParams → Vote
first_vote p = record {
  report_id = p.report_id;
  device_id = p.device_id;
  status = p.status;
  created_at = p.now;
  updated_at = p.now;
}

-- ON CONFLICT (report_id, device_id) DO UPDATE.
unfoldable pub upsert_vote : ConfirmParams → List Vote → List Vote
unfolding text_eq update_where
upsert_vote p votes =
    if any (of_device p.report_id p.device_id) votes
    then update_where (of_device p.report_id p.device_id) (voted_again p.status p.now) votes
    else first_vote p ∷ votes

-- COALESCE($1, column).
abbrev pub coalesce {ℓ} : {A : Type ℓ} → Option A → A → A
coalesce none a = a
coalesce (some b) a = b

abbrev pub first_set {ℓ} : {A : Type ℓ} → Option A → Option A → Option A
first_set none a = a
first_set (some b) a = some b

-- COALESCE(details, '{}') || new: the new value of a key that both have.
unfoldable pub merged : Details → Details → Details
unfolding entry
merged old new = new ++ select (λ d. not (is_set (entry d.0 new))) old

abbrev pub new_details : Details → Details → Details
new_details old new = if no_details new then old else merged old new

-- applyConditionUpdate.
unfoldable pub apply_condition_update : ConditionUpdate → Report → Report
unfolding merged
apply_condition_update u r = record r {
  severity = coalesce u.severity r.severity;
  water_depth = first_set u.water_depth r.water_depth;
  water_level_cm = if is_set u.water_depth then none else r.water_level_cm;
  passability = first_set u.passability r.passability;
  image_key = first_set u.image_key r.image_key;
  details = new_details r.details u.details;
}

abbrev pub renewed : Freshness → ℤ → Report → Report
renewed f now r = record r {
  last_verified_at = now;
  stale_at = f.stale_at;
  expires_at = f.expires_at;
}

abbrev pub set_report : ℕ → (Report → Report) → Tables → Tables
set_report id f s = record s { reports = update_where (report_is id) f s.reports }

abbrev pub updated_rows : ℕ → Option ConditionUpdate → List Report → List Report
updated_rows id none rs = rs
updated_rows id (some u) rs = update_where (report_is id) (apply_condition_update u) rs

abbrev pub refresh_event : Option ConditionUpdate → EventKind
refresh_event none = confirmed
refresh_event (some u) = updated

-- The block under `params.Refresh != nil`: the row, and the event.
abbrev pub refreshed_rows : ConfirmParams → Option Freshness → List Report → List Report
refreshed_rows p none rs = rs
refreshed_rows p (some f) rs =
    updated_rows p.report_id p.update (update_where (report_is p.report_id) (renewed f p.now) rs)

abbrev pub refreshed_events : ConfirmParams → Option Freshness → List ReportEvent → List ReportEvent
refreshed_events p none es = es
refreshed_events p (some f) es =
    new_event p.report_id (refresh_event p.update) (some p.device_id) p.now ∷ es

abbrev pub refreshed : ConfirmParams → Tables → Tables
refreshed p s = record s {
  reports = refreshed_rows p p.refresh s.reports;
  events = refreshed_events p p.refresh s.events;
}

abbrev pub with_votes : ConfirmParams → Tables → Tables
with_votes p s = record s { votes = upsert_vote p s.votes }

-- The resolution that the recount gives, from the one that was read under the lock.
unfoldable pub recounted : ConfirmParams → Option ℤ → Tables → Option ℤ
unfolding next_resolved_at
recounted p before s =
    next_resolved_at p.policy before (count_by (still_vote p.report_id) s.votes)
      (count_by (cleared_vote p.report_id) s.votes) p.now

abbrev pub resolved_to : Option ℤ → ℤ → Report → Report
resolved_to at now r = record r { resolved_at = at; updated_at = now }

-- `if ev := report.ResolutionEvent(…); ev != ""`.
abbrev pub resolution_events :
    ConfirmParams → Option EventKind → List ReportEvent → List ReportEvent
resolution_events p none es = es
resolution_events p (some kind) es = new_event p.report_id kind (some p.device_id) p.now ∷ es

abbrev pub resolve : ConfirmParams → Option ℤ → Option ℤ → Tables → Tables
resolve p before after s = record s {
  reports = update_where (report_is p.report_id) (resolved_to after p.now) s.reports;
  events = resolution_events p (resolution_event before after) s.events;
}

-- The state before the resolution is settled.
abbrev pub recorded : ConfirmParams → Tables → Tables
recorded p s = refreshed p (with_votes p s)

unfoldable pub settle : ConfirmParams → Option ℤ → Tables → Tables
unfolding recounted upsert_vote apply_condition_update
settle p before s = resolve p before (recounted p before (recorded p s)) (recorded p s)

-- Once the row is locked: what it says of the resolution.
abbrev pub confirm_locked :
    ConfirmParams → Option Report → Tables → Outcome Tables (Option ReportWithStats)
confirm_locked p none s = rollback (ok none)
confirm_locked p (some r) s =
    commit (ok (get_by_id (settle p r.resolved_at s) p.report_id)) (settle p r.resolved_at s)

unfoldable pub confirm : Tables → ConfirmParams → Outcome Tables (Option ReportWithStats)
unfolding settle get_by_id
confirm s p = confirm_locked p (row_of s p.report_id) s
