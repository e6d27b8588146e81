-- ===== src/Report/Invariants/Complaining.antt =====
-- What a complaint does to its report, and to no other.
use flood_now_backend.Base.{
  ℕ, ◌≡◌, refl, sym, ◌∙◌, true, false, Option, none, some, List, count_by, any, is_set, ◌==◌, arith,
  Bool-cases, inl, inr,
}
use flood_now_backend.Base.Int.{ℤ}
use flood_now_backend.Program.{store_after}
use flood_now_backend.Report.Lifecycle.{Report, FreshnessPolicy, auto_threshold}
use flood_now_backend.Report.Complaint.{Complaint, should_auto_hide}
use flood_now_backend.Report.Tables.{Tables, row_of}
use flood_now_backend.Report.Moderation.{
  set_hidden, ComplaintParams, complaint_of, pending_of, insert_complaint, with_complaint,
  pending_count, hides_now, stored, hide_if_needed, complain_locked, add_complaint,
}
use flood_now_backend.Report.Invariants.Frames.{Sound, Untouched-Sound, everywhere}
use flood_now_backend.Report.Invariants.Hiding.{
  set_hidden-Untouched, set_hidden-Sound, set_hidden-is_hidden, was_hidden, complaints-Sound,
}

insert_complaint-other :
    (c : Complaint) (cs : List Complaint) (j : ℕ)
    → (c.report_id == j) ≡ false
    → count_by (pending_of j) (insert_complaint c cs) ≡ count_by (pending_of j) cs
unfolding insert_complaint
insert_complaint-other c cs j ne =
    elim (Bool-cases (any (complaint_of c.report_id c.device_id) cs)) [
      | inl e ↦ rw e refl
      | inr e ↦ rw (e, ne) (omega arith)
    ]

hides_now-shown :
    (c : ComplaintParams) (o : Option ℤ) (t : Tables) → hides_now c o t ≡ true → is_set o ≡ false
hides_now-shown c none t h = refl
hides_now-shown c (some at) t h = absurd (cc h)

stays-few :
    (c : ComplaintParams) (o : Option ℤ) (t : Tables)
    → hides_now c o t ≡ false
    → is_set o ≡ false
    → should_auto_hide c.policy (pending_count t c.complaint.report_id) ≡ false
stays-few c none t h e = h
stays-few c (some at) t h e = absurd (cc e)

module _ (p : FreshnessPolicy) (s : Tables) (c : ComplaintParams)
    (h : (j : ℕ) → Sound p c.policy s j) where
  abbrev complained : Tables
  complained = with_complaint c.complaint s

  complained-other : (j : ℕ) → (c.complaint.report_id == j) ≡ false → Sound p c.policy complained j
  complained-other j ne =
      complaints-Sound p c.policy s (insert_complaint c.complaint s.complaints) j
        (λ e. rw (insert_complaint-other c.complaint s.complaints j ne) ((h j).few_pending e)) (h j)

  module _ (r : Report) (found : row_of s c.complaint.report_id ≡ some r) where
    -- The report is hidden together with the complaint.
    hid-Sound :
        hides_now c r.hidden_at complained ≡ true
        → (j : ℕ)
        → Sound p c.policy (set_hidden complained c.complaint.report_id true auto_threshold c.now) j
    unfolding set_hidden
    hid-Sound hides =
        everywhere _ c.complaint.report_id
          (complaints-Sound p c.policy
            (set_hidden s c.complaint.report_id true auto_threshold c.now) _ c.complaint.report_id
            (λ e. absurd (
              cc (
                set_hidden-is_hidden s c.complaint.report_id r found auto_threshold c.now true,
                e,
              )))
            (set_hidden-Sound s c.complaint.report_id r found auto_threshold c.now p c.policy true
              (hides_now-shown c r.hidden_at complained hides) (λ e. absurd (cc e))
              (h c.complaint.report_id)))
          (λ j ne.
            Untouched-Sound p c.policy complained
              (set_hidden complained c.complaint.report_id true auto_threshold c.now) j
              (set_hidden-Untouched complained c.complaint.report_id r found auto_threshold c.now
                true j ne)
              (complained-other j ne))

    -- The report stays as it is.
    left-Sound :
        hides_now c r.hidden_at complained ≡ false → (j : ℕ) → Sound p c.policy complained j
    left-Sound stays =
        everywhere _ c.complaint.report_id
          (complaints-Sound p c.policy s (insert_complaint c.complaint s.complaints)
            c.complaint.report_id
            (λ e.
              stays-few c r.hidden_at complained stays
                (sym (was_hidden s c.complaint.report_id r found auto_threshold c.now) ∙ e))
            (h c.complaint.report_id))
          complained-other

    hide_if_needed-Sound :
        (o : Option Complaint) (j : ℕ)
        → Sound p c.policy (store_after s (hide_if_needed c r.hidden_at complained o)) j
    hide_if_needed-Sound none j = h j
    hide_if_needed-Sound (some x) j = elim (Bool-cases (hides_now c r.hidden_at complained)) [
      | inl e ↦ rw e (hid-Sound e j)
      | inr e ↦ rw e (left-Sound e j)
    ]

  complain_locked-Sound :
      (o : Option Report)
      → row_of s c.complaint.report_id ≡ o
      → (j : ℕ) → Sound p c.policy (store_after s (complain_locked c o s)) j
  unfolding insert_complaint
  complain_locked-Sound none found j = h j
  complain_locked-Sound (some r) found j =
      hide_if_needed-Sound r found (stored c.complaint complained) j

  -- A complaint leaves every report sound.
  pub add_complaint-Sound : (j : ℕ) → Sound p c.policy (store_after s (add_complaint s c)) j
  unfolding add_complaint
  add_complaint-Sound = complain_locked-Sound (row_of s c.complaint.report_id) refl
