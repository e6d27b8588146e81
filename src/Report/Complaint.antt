-- ===== src/Report/Complaint.antt =====
-- internal/domain/moderation/moderation.go: complaints about a report, the policy and the actions.
use flood_now_backend.Base.{ℕ, Bool, true, false, not, ◌&&◌, Option, ◌++◌, holds, ltb}
use flood_now_backend.Base.Int.{ℤ, pos, leb_ℤ}
use flood_now_backend.Base.Text.{Text, trim_space, rune_count}
use flood_now_backend.Apperr.{Error}
use flood_now_backend.LocalService.Provider.{field_if, fields_error}
use flood_now_backend.Sos.Request.{bad_device_id}

pub data Reason : Type 0 where
  false_information wrong_location duplicate outdated : Reason
  inappropriate_image spam privacy other_reason unknown_reason : Reason

abbrev pub reason_valid : Reason → Bool
reason_valid unknown_reason = false
reason_valid r = true

pub data ComplaintStatus : Type 0 where
  pending complaint_resolved dismissed : ComplaintStatus

abbrev pub is_pending : ComplaintStatus → Bool
is_pending pending = true
is_pending s = false

pub record Complaint : Type 0 where
  pub id : ℕ
  pub report_id : ℕ
  pub device_id : Text
  pub reason : Reason
  pub details : Option Text
  pub status : ComplaintStatus
  pub created_at : ℤ
  pub resolved_at : Option ℤ

-- moderation.Policy.
pub record ModerationPolicy : Type 0 where
  pub auto_hide_threshold : ℤ
  pub max_per_device_per_hour : ℤ

-- Policy.Validate: whether it returns nil.
unfoldable pub moderation_valid : ModerationPolicy → Bool
moderation_valid p = leb_ℤ (pos 2) p.auto_hide_threshold && leb_ℤ (pos 1) p.max_per_device_per_hour

abbrev pub should_auto_hide : ModerationPolicy → ℕ → Bool
should_auto_hide p pending_devices = leb_ℤ p.auto_hide_threshold (pos pending_devices)

pub record NewComplaintInput : Type 0 where
  pub device_id : Text
  pub reason : Reason
  pub details : Option Text

unfoldable pub validate_complaint : NewComplaintInput → Option Error
unfolding trim_space rune_count
validate_complaint i = fields_error "problem report is invalid" (
    field_if (bad_device_id i.device_id) "device_id"
    ++ field_if (not (reason_valid i.reason)) "reason"
    ++ field_if (holds i.details (λ d. ltb 1000 (rune_count (trim_space d)))) "details")

pub data Action : Type 0 where
  action_dismiss action_hide action_unhide unknown_action : Action

abbrev pub action_valid : Action → Bool
action_valid unknown_action = false
action_valid a = true

-- Action.Outcome: whether the report is hidden, and what its pending complaints become.
abbrev pub outcome : Action → Bool × ComplaintStatus
outcome action_hide = (true, complaint_resolved)
outcome action_unhide = (false, complaint_resolved)
outcome a = (false, dismissed)
