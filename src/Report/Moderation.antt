-- ===== src/Report/Moderation.antt =====
-- internal/adapters/outbound/postgres/moderation_repository.go: AddComplaint, CountByDeviceSince,
-- Queue's counts and Apply.
use flood_now_backend.Base.{
  ℕ, Bool, true, false, not, ◌&&◌, Option, none, some, List, ◌∷◌, any, count_by, is_set, ◌==◌,
  if◌then◌else◌,
}
use flood_now_backend.Base.Int.{ℤ, leb_ℤ}
use flood_now_backend.Base.Text.{Text, text_eq}
use flood_now_backend.Apperr.{ok, err, database}
use flood_now_backend.Program.{Outcome, commit, rollback}
use flood_now_backend.Postgres.Table.{find, update_where}
use flood_now_backend.Report.Lifecycle.{
  Report, HiddenReason, auto_threshold, by_admin, hidden, unhidden,
}
use flood_now_backend.Report.Complaint.{
  ComplaintStatus, is_pending, Complaint, ModerationPolicy, should_auto_hide, Action, outcome,
}
use flood_now_backend.Report.Tables.{Tables, row_of, insert_event}
use flood_now_backend.Report.Confirm.{set_report}

abbrev pub hide_row : HiddenReason → ℤ → Report → Report
hide_row reason now r = record r { hidden_at = some now; hidden_reason = some reason }

abbrev pub show_row : Report → Report
show_row r = record r { hidden_at = none; hidden_reason = none }

-- setHidden.
unfoldable pub set_hidden : Tables → ℕ → Bool → HiddenReason → ℤ → Tables
unfolding update_where
set_hidden s id true reason now =
    insert_event (set_report id (hide_row reason now) s) id hidden none now
set_hidden s id false reason now = insert_event (set_report id show_row s) id unhidden none now

-- ports.ComplaintParams.
pub record ComplaintParams : Type 0 where
  pub complaint : Complaint
  pub policy : ModerationPolicy
  pub now : ℤ

abbrev pub complaint_of : ℕ → Text → Complaint → Bool
complaint_of id device_id c = c.report_id == id && text_eq c.device_id device_id

abbrev pub pending_of : ℕ → Complaint → Bool
pending_of id c = c.report_id == id && is_pending c.status

-- ON CONFLICT (report_id, device_id) DO NOTHING.
unfoldable pub insert_complaint : Complaint → List Complaint → List Complaint
unfolding text_eq
insert_complaint c cs =
    if any (complaint_of c.report_id c.device_id) cs
    then cs
    else record c { resolved_at = none } ∷ cs

abbrev pub with_complaint : Complaint → Tables → Tables
with_complaint c s = record s { complaints = insert_complaint c s.complaints }

abbrev pub pending_count : Tables → ℕ → ℕ
pending_count s id = count_by (pending_of id) s.complaints

-- Whether the policy hides a report that is still shown.
abbrev pub hides_now : ComplaintParams → Option ℤ → Tables → Bool
hides_now p (some at) s = false
hides_now p none s = should_auto_hide p.policy (pending_count s p.complaint.report_id)

-- The complaint as stored, and whether the report is hidden now.
abbrev pub stored : Complaint → Tables → Option Complaint
unfolding find text_eq
stored c s = find (complaint_of c.report_id c.device_id) s.complaints

-- The rest of AddComplaint, once the complaint is inserted and reloaded.
abbrev pub hide_if_needed :
    ComplaintParams
    → Option ℤ
    → Tables
    → Option Complaint
    → Outcome Tables (Option Complaint × Bool)
hide_if_needed p hidden_at s none = rollback (err (database "reload complaint"))
hide_if_needed p hidden_at s (some c) =
    if hides_now p hidden_at s
    then commit (ok (some c, true)) (set_hidden s p.complaint.report_id true auto_threshold p.now)
    else commit (ok (some c, false)) s

abbrev pub complain_locked :
    ComplaintParams → Option Report → Tables → Outcome Tables (Option Complaint × Bool)
complain_locked p none s = rollback (ok (none, false))
complain_locked p (some r) s =
    hide_if_needed p r.hidden_at (with_complaint p.complaint s)
      (stored p.complaint (with_complaint p.complaint s))

unfoldable pub add_complaint : Tables → ComplaintParams → Outcome Tables (Option Complaint × Bool)
unfolding insert_complaint set_hidden find text_eq
add_complaint s p = complain_locked p (row_of s p.complaint.report_id) s

unfoldable pub count_by_device_since : Tables → Text → ℤ → ℕ
unfolding text_eq
count_by_device_since s device_id since =
    count_by (λ c. text_eq c.device_id device_id && leb_ℤ since c.created_at) s.complaints

abbrev pub closed : ComplaintStatus → ℤ → Complaint → Complaint
closed status now c = record c { status = status; resolved_at = some now }

abbrev pub close_complaints : ℕ → ComplaintStatus → ℤ → Tables → Tables
close_complaints id status now s = record s {
  complaints = update_where (pending_of id) (closed status now) s.complaints;
}

abbrev pub bool_eq : Bool → Bool → Bool
bool_eq true b = b
bool_eq false b = not b

-- `hide != (hiddenAt != nil)`.
abbrev pub shown_or_hidden : ℕ → Bool → Option ℤ → ℤ → Tables → Tables
shown_or_hidden id hide hidden_at now s =
    if bool_eq hide (is_set hidden_at) then s else set_hidden s id hide by_admin now

abbrev pub act_locked : ℕ → Action → ℤ → Option Report → Tables → Outcome Tables Bool
act_locked id action now none s = rollback (ok false)
act_locked id action now (some r) s =
    let o = outcome action in
    commit (ok true) (close_complaints id o.1 now (shown_or_hidden id o.0 r.hidden_at now s))

unfoldable pub apply_action : Tables → ℕ → Action → ℤ → Outcome Tables Bool
unfolding set_hidden update_where
apply_action s id action now = act_locked id action now (row_of s id) s
