-- ===== src/Report/Invariants/Rows.antt =====
-- The rows of reports: the category of a guest's report, the order of the times, and the hidden
-- reason.
use flood_now_backend.Base.{
  ℕ, ◌≡◌, refl, Bool, true, false, ◌&&◌, ◌||◌, Option, none, some, List, all, any, is_set, arith,
  Bool-cases, inl, inr,
}
use flood_now_backend.Base.Int.{ℤ, ◌+ℤ◌, leb_ℤ, +ℤ_parts}
use flood_now_backend.Program.{store_after}
use flood_now_backend.Postgres.Rows.{all-update_where}
use flood_now_backend.Report.Kinds.{ReportType, is_long_lived, guest_may_report}
use flood_now_backend.Report.Lifecycle.{
  Report, FreshnessPolicy, freshness_valid, Freshness, window, HiddenReason, auto_threshold,
  by_admin,
}
use flood_now_backend.Report.Input.{
  is_still_active, NewReportInput, normalized, ConditionUpdate, NewConfirmationInput, ReactionType,
}
use flood_now_backend.Report.Complaint.{Complaint, ModerationPolicy, Action, outcome}
use flood_now_backend.Report.Tables.{
  Tables, empty_tables, report_is, row_of, clashes, create, try_react, upsert_reaction, of_user,
}
use flood_now_backend.Report.Confirm.{
  ConfirmParams, apply_condition_update, renewed, updated_rows, refreshed_rows, resolved_to,
  confirm, confirm_locked, settle,
}
use flood_now_backend.Report.Moderation.{
  hide_row, show_row, set_hidden, ComplaintParams, hides_now, hide_if_needed, complain_locked,
  add_complaint, bool_eq, act_locked, apply_action, with_complaint,
}
use flood_now_backend.Report.Service.{new_report, confirm_params, refresh_for}
use flood_now_backend.Report.Writes.{
  Write, creates, confirms, reacts, removes, complains, acts, Writes, Writes-induction,
}

-- A guest's report is of a category open to guests, a report is stale before it expires, and a
-- hidden one, and no other, has a reason.
unfoldable pub row_sound : Report → Bool
unfolding guest_may_report
row_sound r =
    (is_set r.user_id || guest_may_report r.kind)
    && leb_ℤ r.stale_at r.expires_at
    && bool_eq (is_set r.hidden_at) (is_set r.hidden_reason)

abbrev pub RowsSound : Tables → Type 0
RowsSound s = all row_sound s.reports ≡ true

later : (at a b : ℤ) → leb_ℤ a b ≡ true → leb_ℤ (at +ℤ a) (at +ℤ b) ≡ true
later at a b h = ground (arith, +ℤ_parts at a, +ℤ_parts at b)

pub window-ordered :
    (p : FreshnessPolicy) (t : ReportType) (at : ℤ)
    → freshness_valid p ≡ true
    → leb_ℤ (window p t at).stale_at (window p t at).expires_at ≡ true
unfolding window freshness_valid
window-ordered p t at v = elim (Bool-cases (is_long_lived t)) [
  | inl e ↦ rw e (later at p.facility_stale_after p.facility_ttl (ground arith))
  | inr e ↦ rw e (later at p.stale_after p.ttl (ground arith))
]

create-rows :
    (s : Tables) (r : Report)
    → row_sound r ≡ true
    → is_set r.hidden_at ≡ false
    → RowsSound s
    → RowsSound (store_after s (create s r))
unfolding create row_sound
create-rows s r ok shown h = elim (Bool-cases (any (clashes r) s.reports)) [
  | inl e ↦ rw e h
  | inr e ↦ rw e (ground arith)
]

updated_rows_sound :
    (id : ℕ) (u : Option ConditionUpdate) (rs : List Report)
    → all row_sound rs ≡ true
    → all row_sound (updated_rows id u rs) ≡ true
unfolding apply_condition_update row_sound
updated_rows_sound id none rs h = h
updated_rows_sound id (some u) rs h =
    all-update_where row_sound (report_is id) (apply_condition_update u) rs (λ r k e. k) h

renewed_sound :
    (f : Freshness) (now : ℤ)
    → leb_ℤ f.stale_at f.expires_at ≡ true
    → (r : Report) → row_sound r ≡ true
    → row_sound (renewed f now r) ≡ true
unfolding row_sound
renewed_sound f now o r k = ground arith

-- A window, where there is one, is in order.
abbrev ordered : Option Freshness → Bool
ordered none = true
ordered (some f) = leb_ℤ f.stale_at f.expires_at

refreshed_rows_sound :
    (c : ConfirmParams) (o : Option Freshness) (rs : List Report)
    → ordered o ≡ true
    → all row_sound rs ≡ true
    → all row_sound (refreshed_rows c o rs) ≡ true
unfolding row_sound
refreshed_rows_sound c none rs o h = h
refreshed_rows_sound c (some f) rs o h = updated_rows_sound c.report_id c.update _ (
    all-update_where row_sound (report_is c.report_id) (renewed f c.now) rs
      (λ r k e. renewed_sound f c.now o r k) h)

confirm-rows :
    (s : Tables) (c : ConfirmParams)
    → ordered c.refresh ≡ true
    → RowsSound s
    → RowsSound (store_after s (confirm s c))
unfolding confirm settle row_sound
confirm-rows s c o h = go (row_of s c.report_id)
  where
    go : (r : Option Report) → RowsSound (store_after s (confirm_locked c r s))
    go none = h
    go (some r) =
        all-update_where row_sound (report_is c.report_id) (resolved_to _ c.now) _ (λ x k e. k)
          (refreshed_rows_sound c c.refresh s.reports o h)

set_hidden-rows :
    (s : Tables) (id : ℕ) (hide : Bool) (reason : HiddenReason) (now : ℤ)
    → RowsSound s
    → RowsSound (set_hidden s id hide reason now)
unfolding set_hidden row_sound
set_hidden-rows s id true reason now h =
    all-update_where row_sound (report_is id) (hide_row reason now) s.reports
      (λ r k e. ground arith) h
set_hidden-rows s id false reason now h =
    all-update_where row_sound (report_is id) show_row s.reports (λ r k e. ground arith) h

add_complaint-rows :
    (s : Tables) (c : ComplaintParams) → RowsSound s → RowsSound (store_after s (add_complaint s c))
unfolding add_complaint
add_complaint-rows s c h = go (row_of s c.complaint.report_id)
  where
    stores :
        (at : Option ℤ) (t : Tables)
        → RowsSound t
        → (x : Option Complaint) → RowsSound (store_after s (hide_if_needed c at t x))
    stores at t k none = h
    stores at t k (some x) = elim (Bool-cases (hides_now c at t)) [
      | inl e ↦ rw e (set_hidden-rows t _ true auto_threshold c.now k)
      | inr e ↦ rw e k
    ]

    go : (r : Option Report) → RowsSound (store_after s (complain_locked c r s))
    go none = h
    go (some r) = stores r.hidden_at (with_complaint c.complaint s) h _

apply_action-rows :
    (s : Tables) (id : ℕ) (action : Action) (now : ℤ)
    → RowsSound s
    → RowsSound (store_after s (apply_action s id action now))
unfolding apply_action
apply_action-rows s id action now h = go (row_of s id)
  where
    go : (r : Option Report) → RowsSound (store_after s (act_locked id action now r s))
    go none = h
    go (some r) = elim (Bool-cases (bool_eq (outcome action).0 (is_set r.hidden_at))) [
      | inl e ↦ rw e h
      | inr e ↦ rw e (set_hidden-rows s id (outcome action).0 by_admin now h)
    ]

react-rows :
    (s : Tables) (id user : ℕ) (kind : ReactionType)
    → RowsSound s
    → RowsSound (store_after s (try_react s id user kind))
unfolding try_react upsert_reaction
react-rows s id user kind h = elim (Bool-cases (any (report_is id) s.reports)) [
  | inl e ↦
      rw e
        (elim (Bool-cases (any (of_user id user) s.reactions)) [ inl d ↦ rw d h | inr d ↦ rw d h ])
  | inr e ↦ rw e h
]

module _ (p : FreshnessPolicy) (q : ModerationPolicy) (valid : freshness_valid p ≡ true) where
  new_report_sound :
      (i : NewReportInput) (user : Option ℕ) (id : ℕ) (now : ℤ)
      → (is_set user || guest_may_report i.kind) ≡ true
      → row_sound (new_report p (normalized i) user id now) ≡ true
  unfolding row_sound normalized
  new_report_sound i user id now g = ground (arith, g, window-ordered p i.kind now valid)

  refresh_for-ordered :
      (i : NewConfirmationInput) (t : ReportType) (now : ℤ) → ordered (refresh_for p i t now) ≡ true
  unfolding refresh_for
  refresh_for-ordered i t now = elim (Bool-cases (is_still_active i.status)) [
    | inl e ↦ rw e (window-ordered p t now valid)
    | inr e ↦ rw e refl
  ]

  Write-rows : (s t : Tables) → Write p q s t → RowsSound s → RowsSound t
  unfolding confirm_params
  Write-rows s _ (creates i user id now g) h =
      create-rows s _ (new_report_sound i user id now g) refl h
  Write-rows s _ (confirms id i t now) h =
      confirm-rows s (confirm_params p id i t now) (refresh_for-ordered i t now) h
  Write-rows s _ (reacts id user kind) h = react-rows s id user kind h
  Write-rows s _ (removes id user) h = h
  Write-rows s _ (complains report_id i id now) h = add_complaint-rows s _ h
  Write-rows s _ (acts report_id action now) h = apply_action-rows s report_id action now h

  -- Every row is sound after any sequence of writes from the empty tables.
  pub writes-rows : (s : Tables) → Writes p q empty_tables s → RowsSound s
  writes-rows s w = Writes-induction RowsSound Write-rows w refl
