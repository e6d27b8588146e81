-- ===== src/Report/Invariants/Soundness.antt =====
-- A report's votes, complaints and history after each write, and after a sequence of writes.
use flood_now_backend.Base.{
  ℕ, ◌≡◌, refl, true, false, none, List, ◌∷◌, any, ◌==◌, ==_refl, arith, Bool-cases, Option-cases,
  inl, inr,
}
use flood_now_backend.Program.{store_after}
use flood_now_backend.Postgres.Table.{find, find_sound}
use flood_now_backend.Postgres.Rows.{any_of_found}
use flood_now_backend.Report.Lifecycle.{Report, FreshnessPolicy, created}
use flood_now_backend.Report.Input.{ReactionType}
use flood_now_backend.Report.Complaint.{ModerationPolicy, moderation_valid}
use flood_now_backend.Report.Tables.{
  Tables, empty_tables, report_is, row_of, clashes, inserted, create, try_react, without_reaction,
  upsert_reaction, Reaction, insert_event, of_user,
}
use flood_now_backend.Report.Writes.{
  Write, creates, confirms, reacts, removes, complains, acts, Writes, Writes-induction,
}
use flood_now_backend.Report.Service.{confirm_params}
use flood_now_backend.Report.Review.{complaint_params}
use flood_now_backend.Report.Invariants.Frames.{
  is_resolved, is_hidden, Sound, Untouched, Untouched-Sound, everywhere,
}
use flood_now_backend.Report.Invariants.Confirming.{confirm-Sound}
use flood_now_backend.Report.Invariants.Complaining.{add_complaint-Sound}
use flood_now_backend.Report.Invariants.Acting.{apply_action-Sound, no_complaints}

module _ (p : FreshnessPolicy) (q : ModerationPolicy) where
  module _ (s : Tables) (h : (j : ℕ) → Sound p q s j) where
    -- A new row has an id that no row had.
    fresh_row : (r : Report) → any (clashes r) s.reports ≡ false → row_of s r.id ≡ none
    unfolding clashes
    fresh_row r fresh = elim (Option-cases (row_of s r.id)) [
      | inl e ↦ e
      | inr (x, e) ↦ ground (
        arith,
        find_sound (report_is r.id) s.reports e,
        any_of_found (clashes r) (report_is r.id) s.reports e,
      )
    ]

    abbrev filed : Report → Tables
    filed r =
        insert_event (record s { reports = inserted r ∷ s.reports }) r.id created none r.created_at

    filed-here : (r : Report) → any (clashes r) s.reports ≡ false → Sound p q (filed r) r.id
    unfolding is_resolved is_hidden find
    filed-here r fresh = record {
      votes_agree = rw (==_refl r.id) (rw (fresh_row r fresh) at (h r.id).votes_agree);
      few_pending = λ e. (h r.id).few_pending (rw (fresh_row r fresh) refl);
      resolutions =
          rw (==_refl r.id) (omega (arith, rw (fresh_row r fresh) at (h r.id).resolutions));
      hidings = rw (==_refl r.id) (omega (arith, rw (fresh_row r fresh) at (h r.id).hidings));
    }

    filed-Untouched : (r : Report) (j : ℕ) → (r.id == j) ≡ false → Untouched s (filed r) j
    unfolding find
    filed-Untouched r j ne = record {
      same_row = rw ne refl;
      same_still = refl;
      same_cleared = refl;
      same_pending = refl;
      same_events = λ kind. rw ne (omega arith);
    }

    create-Sound : (r : Report) (j : ℕ) → Sound p q (store_after s (create s r)) j
    unfolding create
    create-Sound r j = elim (Bool-cases (any (clashes r) s.reports)) [
      | inl e ↦ rw e (h j)
      | inr fresh ↦ rw fresh (
          everywhere (Sound p q (filed r)) r.id (filed-here r fresh)
            (λ i ne. Untouched-Sound p q s (filed r) i (filed-Untouched r i ne) (h i)) j)
    ]

    -- A reaction is read by no rule.
    reactions-Sound : (rs : List Reaction) (j : ℕ) → Sound p q (record s { reactions = rs }) j
    unfolding is_resolved is_hidden
    reactions-Sound rs j = record {
      votes_agree = (h j).votes_agree;
      few_pending = (h j).few_pending;
      resolutions = (h j).resolutions;
      hidings = (h j).hidings;
    }

    react-Sound :
        (id user : ℕ) (kind : ReactionType) (j : ℕ)
        → Sound p q (store_after s (try_react s id user kind)) j
    unfolding try_react upsert_reaction
    react-Sound id user kind j = elim (Bool-cases (any (report_is id) s.reports)) [
      | inl e ↦ rw e (elim (Bool-cases (any (of_user id user) s.reactions)) [
        | inl d ↦ rw d (reactions-Sound _ j)
        | inr d ↦ rw d (reactions-Sound _ j)
      ])
      | inr e ↦ rw e (h j)
    ]

    remove_reaction-Sound : (id user : ℕ) (j : ℕ) → Sound p q (without_reaction s id user) j
    remove_reaction-Sound id user j = reactions-Sound _ j

  module _ (valid : moderation_valid q ≡ true) where
    Write-Sound :
        (s t : Tables) → Write p q s t → ((j : ℕ) → Sound p q s j) → (j : ℕ) → Sound p q t j
    unfolding confirm_params
    Write-Sound s _ (creates i user id now g) h = create-Sound s h _
    Write-Sound s _ (confirms id i t now) h = confirm-Sound (confirm_params p id i t now) q s h
    Write-Sound s _ (reacts id user kind) h = react-Sound s h id user kind
    Write-Sound s _ (removes id user) h = remove_reaction-Sound s h id user
    Write-Sound s _ (complains report_id i id now) h =
        add_complaint-Sound p s (complaint_params q report_id i id now) h
    Write-Sound s _ (acts report_id action now) h =
        apply_action-Sound p q valid s h report_id action now

    empty-Sound : (j : ℕ) → Sound p q empty_tables j
    unfolding is_resolved is_hidden find
    empty-Sound j = record {
      votes_agree = ground arith;
      few_pending = λ e. no_complaints q valid;
      resolutions = refl;
      hidings = refl;
    }

    -- Every report is sound after any sequence of writes from the empty tables.
    pub writes-Sound : (s : Tables) → Writes p q empty_tables s → (j : ℕ) → Sound p q s j
    writes-Sound s w = Writes-induction (λ t. (j : ℕ) → Sound p q t j) Write-Sound w empty-Sound
