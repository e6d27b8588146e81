-- ===== src/Report/Hidden.antt =====
-- A report that moderation has hidden, or that is not there, for the use cases on it.
use mathlib.Core.Option
use flood_now_backend.Base.{
  ℕ, ◌≡◌, refl, ap, Bool, false, not, Option, none, some, is_set, holds, Option-cases, inl, inr,
}
use flood_now_backend.Base.Int.{ℤ}
use flood_now_backend.Apperr.{Error, err}
use flood_now_backend.Program.{run, run-bind_err, validated, reading, present, ◌>>=◌, ◌>>◌}
use flood_now_backend.Report.Lifecycle.{Report, FreshnessPolicy}
use flood_now_backend.Report.Input.{
  NewConfirmationInput, validate_confirmation, ReactionType, validate_reaction,
}
use flood_now_backend.Report.Complaint.{ModerationPolicy, NewComplaintInput, validate_complaint}
use flood_now_backend.Report.Tables.{Tables, row_of, with_stats, get_by_id}
use flood_now_backend.Report.Service.{
  no_report, visible, get_report, confirm_report, react_to, unreact,
}
use flood_now_backend.Report.Review.{report_problem}

-- A report that is there and not hidden.
unfoldable pub is_shown : Option Report → Bool
is_shown o = holds o (λ r. not (is_set r.hidden_at))

shown-visible :
    (s : Tables) (o : Option Report)
    → is_shown o ≡ false
    → visible (Option.map (with_stats s none) o) ≡ none
unfolding is_shown with_stats
shown-visible s none h = refl
shown-visible s (some r) h = elim (Option-cases r.hidden_at) [
  | inl e ↦ absurd (cc (rw e at h))
  | inr (at, e) ↦ rw e refl
]

module _ (s : Tables) (id : ℕ) (gone : is_shown (row_of s id) ≡ false) where
  get_report-gone : run (get_report id) s ≡ (err no_report, s)
  unfolding get_report run ◌>>=◌ reading get_by_id present
  get_report-gone = ap (λ o. run (present o no_report) s) (shown-visible s (row_of s id) gone)

  -- What a validation lets through.
  checked-gone :
      (v : Option Error) → v ≡ none → run (validated v >> get_report id) s ≡ (err no_report, s)
  unfolding run ◌>>=◌ validated
  checked-gone v e = rw e get_report-gone

-- A report that is not there, or that is hidden, is answered with NOT_FOUND by Get, by Confirm, React,
-- RemoveReaction and by a problem report with inputs that validate, and none of them changes the
-- tables.
pub hidden-NotFound :
    (s : Tables) (id : ℕ) (p : FreshnessPolicy) (vote : NewConfirmationInput) (user : ℕ)
    (kind : ReactionType) (q : ModerationPolicy) (problem : NewComplaintInput) (fresh : ℕ) (now : ℤ)
    → is_shown (row_of s id) ≡ false
    → validate_confirmation vote ≡ none
    → validate_reaction kind ≡ none
    → validate_complaint problem ≡ none
    → (run (get_report id) s ≡ (err no_report, s))
      × (run (confirm_report p id vote now) s ≡ (err no_report, s))
      × (run (react_to id user kind) s ≡ (err no_report, s))
      × (run (unreact id user) s ≡ (err no_report, s))
      × (run (report_problem q id problem fresh now) s ≡ (err no_report, s))
unfolding confirm_report react_to unreact report_problem
hidden-NotFound s id p vote user kind q problem fresh now gone v w x =
    let get = get_report-gone s id gone in
    (
      get,
      run-bind_err _ _ s s no_report (checked-gone s id gone _ v),
      run-bind_err _ _ s s no_report (run-bind_err _ _ s s no_report (checked-gone s id gone _ w)),
      run-bind_err _ _ s s no_report (run-bind_err _ _ s s no_report get),
      run-bind_err _ _ s s no_report (run-bind_err _ _ s s no_report (checked-gone s id gone _ x)),
    )
