-- ===== src/Report/Resend.antt =====
-- The offline queue: a report that is sent again with its client id.
use flood_now_backend.Base.{
  ℕ, ◌≡◌, refl, sym, ap, ◌∙◌, Bool, true, false, Option, none, some, ◌∷◌, any, Bool-cases,
  Option-cases, inl, inr,
}
use flood_now_backend.Base.Int.{ℤ}
use flood_now_backend.Base.Text.{Text, text_eq_refl}
use flood_now_backend.Base.Float.{Float64}
use flood_now_backend.Apperr.{Error, Result, ok, err, conflict}
use flood_now_backend.Program.{
  Program, check, validated, Outcome, commit, rollback, result_of, run, attempt, reading,
  store_after, ◌>>=◌, ◌>>◌,
}
use flood_now_backend.Sos.Request.{is_text}
use flood_now_backend.Report.Lifecycle.{Report, ReportWithStats, FreshnessPolicy, created}
use flood_now_backend.Report.Input.{NewReportInput, normalized, validate_report}
use flood_now_backend.Report.Tables.{
  Tables, clashes, inserted, insert_event, create, find_by_client_id, with_stats,
}
use flood_now_backend.Postgres.Table.{find}
use flood_now_backend.Report.Service.{
  Use, new_report, fresh_stats, after_insert, or_fail, earlier, insert_report, file_report,
  create_report,
}

module _ {A : Type 0} {S : Type 0} (g : Bool) (e : Error) (m : Program S A) (s t : S) (a : A) where
  -- A use case that gives a result has passed its checks.
  passed :
      (v : Option Error)
      → run (validated v >> (check g e >> m)) s ≡ (ok a, t)
      → (v ≡ none) × (g ≡ true) × (run m s ≡ (ok a, t))
  unfolding run ◌>>=◌ validated check
  passed (some x) h = absurd (cc (ap (λ y. y.0) h))
  passed none h = elim (Bool-cases g) [
    | inl c ↦ (refl, c, rw c at h)
    | inr c ↦ absurd (cc (ap (λ y. y.0) (rw c at h)))
  ]

  passes :
      (v : Option Error)
      → v ≡ none
      → g ≡ true
      → run m s ≡ (ok a, t)
      → run (validated v >> (check g e >> m)) s ≡ (ok a, t)
  unfolding run ◌>>=◌ validated check
  passes v n c h = rw (n, c) h

abbrev id_of : Result ReportWithStats → ℕ
id_of (ok x) = x.report.id
id_of (err e) = 0

module _ (c : Text) (r : Report) (s : Tables) where
  abbrev filed : Tables
  filed =
      insert_event (record s { reports = inserted r ∷ s.reports }) r.id created none r.created_at

  abbrev taken : Error
  taken = conflict "a report with this client_id already exists"

  create-taken : any (clashes r) s.reports ≡ true → create s r ≡ rollback (err taken)
  unfolding create
  create-taken clash = rw clash refl

  create-filed : any (clashes r) s.reports ≡ false → create s r ≡ commit (ok tt) filed
  unfolding create
  create-filed free = rw free refl

  -- What the use case makes of the insertion, and of the lookup after a conflict.
  abbrev goes_on : Outcome Tables (Unit {0}) → Result ReportWithStats × Tables
  goes_on o = run (after_insert (some c) r (result_of o)) (store_after s o)

  insert-refused :
      any (clashes r) s.reports ≡ true
      → find_by_client_id s c ≡ none
      → run (insert_report (some c) r) s ≡ (err taken, s)
  unfolding run ◌>>=◌ attempt reading create
  insert-refused clash absent =
      ap goes_on (create-taken clash) ∙ ap (λ o. run (or_fail taken o) s) absent

  insert-filed :
      any (clashes r) s.reports ≡ false
      → run (insert_report (some c) r) s ≡ (ok (fresh_stats r), filed)
  unfolding run ◌>>=◌ attempt create
  insert-filed free = ap goes_on (create-filed free)

  -- The client id finds the row.
  filed-found :
      r.client_id ≡ some c → find_by_client_id filed c ≡ some (with_stats filed none (inserted r))
  unfolding find_by_client_id find is_text
  filed-found e = rw (e, text_eq_refl c) refl

  -- What an insertion that gives a result leaves to find.
  insert-found :
      r.client_id ≡ some c
      → find_by_client_id s c ≡ none
      → (t : Tables) (x : ReportWithStats) → run (insert_report (some c) r) s ≡ (ok x, t)
      → (y : ReportWithStats) × (find_by_client_id t c ≡ some y) × (y.report.id ≡ x.report.id)
  unfolding with_stats
  insert-found e absent t x h = elim (Bool-cases (any (clashes r) s.reports)) [
    | inl clash ↦ absurd (cc (ap (λ y. y.0) (sym (insert-refused clash absent) ∙ h)))
    | inr free ↦
        let same = sym (insert-filed free) ∙ h in
        rw (← ap (λ y. y.1) same)
          (with_stats filed none (inserted r), filed-found e, ap (λ y. id_of y.0) same)
  ]

module _ (p : FreshnessPolicy) (c : Text) (i : NewReportInput) (user : Option ℕ) where
  -- Create after its checks.
  abbrev rest : ℕ → ℤ → Option Text → Use ReportWithStats
  unfolding file_report
  rest id now client_id = earlier client_id >>= file_report p (normalized i) user id now

  -- What follows the lookup.
  abbrev looked_up : ℕ → ℤ → Tables → Option ReportWithStats → Result ReportWithStats × Tables
  looked_up id now s o = run (file_report p (normalized i) user id now o) s

  rest-found :
      (id : ℕ) (now : ℤ) (s t : Tables) (x : ReportWithStats) (client_id : Option Text)
      → client_id ≡ some c
      → (normalized i).client_id ≡ some c
      → run (rest id now client_id) s ≡ (ok x, t)
      → (y : ReportWithStats) × (find_by_client_id t c ≡ some y) × (y.report.id ≡ x.report.id)
  unfolding run ◌>>=◌ reading file_report rest
  rest-found id now s t x client_id e same_id h = elim (Option-cases (find_by_client_id s c)) [
    | inl absent ↦ insert-found c (new_report p (normalized i) user id now) s same_id absent t x (
        filing (normalized i).client_id same_id
          (ap (looked_up id now s) (sym absent) ∙ (rw e at h)))
    | inr (y, there) ↦
        let same = ap (looked_up id now s) (sym there) ∙ (rw e at h) in
        (y, rw (← ap (λ z. z.1) same) there, ap (λ z. id_of z.0) same)
  ]
    where
      filing :
          (o : Option Text)
          → o ≡ some c
          → run (insert_report o (new_report p (normalized i) user id now)) s ≡ (ok x, t)
          → run (insert_report (some c) (new_report p (normalized i) user id now)) s ≡ (ok x, t)
      filing o d k = rw d at k

  rest-again :
      (id : ℕ) (now : ℤ) (t : Tables) (y : ReportWithStats) (client_id : Option Text)
      → client_id ≡ some c
      → find_by_client_id t c ≡ some y
      → run (rest id now client_id) t ≡ (ok y, t)
  unfolding run ◌>>=◌ reading file_report rest
  rest-again id now t y client_id e there = rw e (ap (looked_up id now t) there)

-- A report with a client id is sent, and the call gives a report: if the same input is sent again,
-- at any later time and with nothing in between, the call gives the report with that id, and the
-- tables stay as they are.
pub create_report-again :
    (p : FreshnessPolicy) (f : Float64) (i : NewReportInput) (user : Option ℕ) (c : Text)
    (id later_id : ℕ) (now later : ℤ) (s t : Tables) (x : ReportWithStats)
    → i.client_id ≡ some c
    → run (create_report p f i user id now) s ≡ (ok x, t)
    → (y : ReportWithStats) × (run (create_report p f i user later_id later) t ≡ (ok y, t))
      × (y.report.id ≡ x.report.id)
unfolding create_report normalized rest
create_report-again p f i user c id later_id now later s t x e h =
    let k =
      passed _ _ (rest p c i user id now (normalized i).client_id) s t x (validate_report f i) h in
    let found = rest-found p c i user id now s t x (normalized i).client_id e e k.2 in
    (
      found.0,
      passes _ _ (rest p c i user later_id later (normalized i).client_id) t t found.0
          (validate_report f i) k.0 k.1
          (rest-again p c i user later_id later t found.0 (normalized i).client_id e found.1),
      found.2,
    )
