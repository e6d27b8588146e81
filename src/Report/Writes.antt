-- ===== src/Report/Writes.antt =====
-- Every write of the report and moderation repositories, with what the use cases give them.
use flood_now_backend.Base.{ℕ, ◌≡◌, true, ◌||◌, Option, is_set}
use flood_now_backend.Base.Int.{ℤ}
use flood_now_backend.Program.{store_after}
use flood_now_backend.Report.Kinds.{ReportType, guest_may_report}
use flood_now_backend.Report.Lifecycle.{FreshnessPolicy}
use flood_now_backend.Report.Input.{NewReportInput, normalized, NewConfirmationInput, ReactionType}
use flood_now_backend.Report.Complaint.{ModerationPolicy, NewComplaintInput, Action}
use flood_now_backend.Report.Tables.{Tables, create, try_react, without_reaction}
use flood_now_backend.Report.Confirm.{confirm}
use flood_now_backend.Report.Moderation.{add_complaint, apply_action}
use flood_now_backend.Report.Service.{new_report, confirm_params}
use flood_now_backend.Report.Review.{complaint_params}

pub data Write (p : FreshnessPolicy) (q : ModerationPolicy) (s : Tables) : Tables → Type 0 where
  creates :
      (i : NewReportInput) (user : Option ℕ) (id : ℕ) (now : ℤ)
      → (is_set user || guest_may_report i.kind) ≡ true
      → Write p q s (store_after s (create s (new_report p (normalized i) user id now)))
  confirms :
      (id : ℕ) (i : NewConfirmationInput) (t : ReportType) (now : ℤ)
      → Write p q s (store_after s (confirm s (confirm_params p id i t now)))
  reacts :
      (id user : ℕ) (kind : ReactionType) → Write p q s (store_after s (try_react s id user kind))
  removes : (id user : ℕ) → Write p q s (without_reaction s id user)
  complains :
      (report_id : ℕ) (i : NewComplaintInput) (id : ℕ) (now : ℤ)
      → Write p q s (store_after s (add_complaint s (complaint_params q report_id i id now)))
  acts :
      (report_id : ℕ) (action : Action) (now : ℤ)
      → Write p q s (store_after s (apply_action s report_id action now))

pub data Writes (p : FreshnessPolicy) (q : ModerationPolicy) (s : Tables) : Tables → Type 0 where
  done : Writes p q s s
  next : {t u : Tables} → Writes p q s t → Write p q t u → Writes p q s u

module _ {p : FreshnessPolicy} {q : ModerationPolicy} where
  pub Writes-trans : {s t u : Tables} → Writes p q s t → Writes p q t u → Writes p q s u
  Writes-trans w done = w
  Writes-trans w (next v x) = next (Writes-trans w v) x

  -- An invariant of every write is one of every sequence.
  pub Writes-induction :
      (P : Tables → Type 0)
      → ((s t : Tables) → Write p q s t → P s → P t)
      → {s t : Tables} → Writes p q s t
      → P s
      → P t
  Writes-induction P keep done h = h
  Writes-induction P keep (next {t = m} {u = u} w x) h = keep m u x (Writes-induction P keep w h)
