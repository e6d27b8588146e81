-- ===== src/Report/Review.antt =====
-- internal/application/moderation/service.go: "report a problem" and the operator's actions.
use flood_now_backend.Base.{ℕ, none, [], ◌∷◌}
use flood_now_backend.Base.Int.{ℤ, pos, neg, ltb_ℤ, ◌+ℤ◌}
use flood_now_backend.Apperr.{validation, rate_limited}
use flood_now_backend.Program.{reading, transaction, check, present, validated, ◌>>=◌, ◌>>◌}
use flood_now_backend.LocalService.Provider.{trimmed}
use flood_now_backend.Report.Complaint.{
  pending, Complaint, ModerationPolicy, NewComplaintInput, validate_complaint, Action, action_valid,
}
use flood_now_backend.Report.Moderation.{
  ComplaintParams, add_complaint, count_by_device_since, apply_action,
}
use flood_now_backend.Report.Service.{Use, no_report, get_report}

abbrev pub hour : ℤ
hour = pos 3600000000000

abbrev pub new_complaint : ℕ → NewComplaintInput → ℕ → ℤ → Complaint
new_complaint report_id i id now = record {
  id = id;
  report_id = report_id;
  device_id = i.device_id;
  reason = i.reason;
  details = trimmed i.details;
  status = pending;
  created_at = now;
  resolved_at = none;
}

abbrev pub complaint_params : ModerationPolicy → ℕ → NewComplaintInput → ℕ → ℤ → ComplaintParams
complaint_params p report_id i id now = record {
  complaint = new_complaint report_id i id now;
  policy = p;
  now = now;
}

unfoldable pub report_problem : ModerationPolicy → ℕ → NewComplaintInput → ℕ → ℤ → Use Complaint
unfolding get_report
report_problem p report_id i id now =
    validated (validate_complaint i)
    >> get_report report_id
    >> reading (λ s. count_by_device_since s i.device_id (now +ℤ neg hour))
    >>= λ n.
        check (ltb_ℤ (pos n) p.max_per_device_per_hour)
          (rate_limited "too many problem reports from this device; try again later")
        >> transaction (λ s. add_complaint s (complaint_params p report_id i id now))
        >>= λ c. present c.0 no_report

unfoldable pub apply_decision : ℕ → Action → ℤ → Use (Unit {0})
apply_decision report_id action now =
    check (action_valid action) (validation "moderation action is invalid" ("action" ∷ []))
    >> transaction (λ s. apply_action s report_id action now)
    >>= λ done. check done no_report
