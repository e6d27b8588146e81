-- ===== src/Report/Interleaving.antt =====
-- Any number of report and moderation use cases at once: their repository calls come in any order.
use flood_now_backend.Base.{ℕ, ◌≡◌, Bool, true, false, ◌||◌, Option, none, some, List, all, is_set}
use flood_now_backend.Base.Int.{ℤ}
use flood_now_backend.Base.Text.{Text}
use flood_now_backend.Base.Float.{Float64}
use flood_now_backend.Apperr.{Error, Result, ok, err}
use flood_now_backend.Program.{Outcome, store_after, return, ◌>>=◌, reading, writing, transaction}
use flood_now_backend.Program.Server.{
  Allowed, lawful_end, bind-Allowed, reading-Allowed, transaction-Allowed, writing-Allowed,
  attempt-Allowed, checked-Allowed, if-Allowed, validated-Allowed, allowed_rules, Runs, Runs-sound,
}
use flood_now_backend.Report.Kinds.{ReportType, guest_may_report}
use flood_now_backend.Report.Lifecycle.{Report, ReportWithStats, FreshnessPolicy, freshness_valid}
use flood_now_backend.Report.Input.{NewReportInput, normalized, NewConfirmationInput, ReactionType}
use flood_now_backend.Report.Complaint.{
  ModerationPolicy, moderation_valid, NewComplaintInput, Action,
}
use flood_now_backend.Report.Tables.{Tables, empty_tables, react, remove_reaction, reload_if}
use flood_now_backend.Report.Service.{
  Use, after_insert, earlier, or_fail, file_report, create_report, get_report, vote_on,
  confirm_report, react_to, unreact, reaction_of, is_conflict,
}
use flood_now_backend.Report.Browse.{
  ListInput, list_reports, NearbyInput, nearby_reports, find_duplicates,
}
use flood_now_backend.Report.Review.{report_problem, apply_decision}
use flood_now_backend.Report.Writes.{
  Write, creates, confirms, reacts, removes, complains, acts, Writes, done, next, Writes-trans,
}
use flood_now_backend.Report.Invariants.Frames.{Sound}
use flood_now_backend.Report.Invariants.Soundness.{writes-Sound}
use flood_now_backend.Report.Invariants.Keyed.{Keys}
use flood_now_backend.Report.Invariants.Keys.{writes-Keys}
use flood_now_backend.Report.Invariants.Rows.{row_sound, writes-rows}

module _ (p : FreshnessPolicy) (q : ModerationPolicy) where
  abbrev Lawful {ℓ} : {A : Type ℓ} → Use A → Type ℓ
  Lawful m = Allowed (Writes p q) m

  reading-Lawful {ℓ} : {A : Type ℓ} (f : Tables → A) → Lawful (reading f)
  reading-Lawful f = reading-Allowed (λ s. done) f

  transaction-Lawful {ℓ} :
      {A : Type ℓ} (f : Tables → Outcome Tables A)
      → ((s : Tables) → Write p q s (store_after s (f s)))
      → Lawful (transaction f)
  transaction-Lawful f w = transaction-Allowed f (λ s. next done (w s))

  writing-Lawful : (f : Tables → Tables) → ((s : Tables) → Write p q s (f s)) → Lawful (writing f)
  writing-Lawful f w = writing-Allowed f (λ s. next done (w s))

  reload_if-Lawful : (b : Bool) (id : ℕ) → Lawful (reload_if b id)
  reload_if-Lawful true id = reading-Lawful _
  reload_if-Lawful false id = lawful_end (ok none)

  earlier-Lawful : (c : Option Text) → Lawful (earlier c)
  earlier-Lawful none = lawful_end (ok none)
  earlier-Lawful (some c) = reading-Lawful _

  or_fail-Lawful : (e : Error) (o : Option ReportWithStats) → Lawful (or_fail e o)
  or_fail-Lawful e none = lawful_end (err e)
  or_fail-Lawful e (some r) = lawful_end (ok r)

  after_insert-Lawful :
      (c : Option Text) (r : Report) (o : Result (Unit {0})) → Lawful (after_insert c r o)
  after_insert-Lawful c r (ok u) = lawful_end _
  after_insert-Lawful c r (err e) =
      if-Allowed (is_conflict e) (bind-Allowed (earlier-Lawful c) (or_fail-Lawful e)) (lawful_end _)

  file_report-Lawful :
      (i : NewReportInput) (user : Option ℕ) (id : ℕ) (now : ℤ)
      → (is_set user || guest_may_report i.kind) ≡ true
      → (o : Option ReportWithStats) → Lawful (file_report p (normalized i) user id now o)
  unfolding file_report
  file_report-Lawful i user id now g (some r) = lawful_end (ok r)
  file_report-Lawful i user id now g none =
      bind-Allowed (attempt-Allowed _ (λ s. next done (creates i user id now g)))
        (after_insert-Lawful _ _)

  create_report-Lawful :
      (f : Float64) (i : NewReportInput) (user : Option ℕ) (id : ℕ) (now : ℤ)
      → Lawful (create_report p f i user id now)
  unfolding create_report
  create_report-Lawful f i user id now = bind-Allowed (validated-Allowed _) (λ u.
      checked-Allowed _ _
        (λ g. bind-Allowed (earlier-Lawful _) (file_report-Lawful i user id now g)))

  get_report-Lawful : (id : ℕ) → Lawful (get_report id)
  unfolding get_report
  get_report-Lawful id = search (allowed_rules, reading-Lawful)

  list_reports-Lawful : (f : Float64) (i : ListInput) (now : ℤ) → Lawful (list_reports f i now)
  unfolding list_reports
  list_reports-Lawful f i now = search (allowed_rules, reading-Lawful)

  nearby_reports-Lawful :
      (f : Float64) (i : NearbyInput) (now : ℤ) → Lawful (nearby_reports f i now)
  unfolding nearby_reports
  nearby_reports-Lawful f i now = search (allowed_rules, reading-Lawful)

  find_duplicates-Lawful :
      (f : Float64) (lat lng : ℕ) (t : ReportType) (now : ℤ)
      → Lawful (find_duplicates f lat lng t now)
  unfolding find_duplicates
  find_duplicates-Lawful f lat lng t now = search (allowed_rules, reading-Lawful)

  vote_on-Lawful :
      (id : ℕ) (i : NewConfirmationInput) (now : ℤ) (r : ReportWithStats)
      → Lawful (vote_on p id i now r)
  unfolding vote_on
  vote_on-Lawful id i now r = search (allowed_rules, transaction-Lawful, confirms)

  confirm_report-Lawful :
      (id : ℕ) (i : NewConfirmationInput) (now : ℤ) → Lawful (confirm_report p id i now)
  unfolding confirm_report
  confirm_report-Lawful id i now = search (allowed_rules, get_report-Lawful, vote_on-Lawful)

  react_to-Lawful : (id user : ℕ) (kind : ReactionType) → Lawful (react_to id user kind)
  unfolding react_to react
  react_to-Lawful id user kind =
      search (allowed_rules, get_report-Lawful, transaction-Lawful, reload_if-Lawful, reacts)

  unreact-Lawful : (id user : ℕ) → Lawful (unreact id user)
  unfolding unreact remove_reaction
  unreact-Lawful id user =
      search (allowed_rules, get_report-Lawful, writing-Lawful, reading-Lawful, removes)

  reaction_of-Lawful : (id user : ℕ) → Lawful (reaction_of id user)
  unfolding reaction_of
  reaction_of-Lawful id user = reading-Lawful _

  report_problem-Lawful :
      (report_id : ℕ) (i : NewComplaintInput) (id : ℕ) (now : ℤ)
      → Lawful (report_problem q report_id i id now)
  unfolding report_problem
  report_problem-Lawful report_id i id now =
      search (allowed_rules, reading-Lawful, get_report-Lawful, transaction-Lawful, complains) depth
        24

  apply_decision-Lawful :
      (report_id : ℕ) (action : Action) (now : ℤ) → Lawful (apply_decision report_id action now)
  unfolding apply_decision
  apply_decision-Lawful report_id action now = search (allowed_rules, transaction-Lawful, acts)

-- The use cases, with their arguments, fresh ids and the clock's reading.
pub data Command : Type 0 where
  command_create : (i : NewReportInput) (user : Option ℕ) (id : ℕ) (now : ℤ) → Command
  command_get : (id : ℕ) → Command
  command_list : (i : ListInput) (now : ℤ) → Command
  command_nearby : (i : NearbyInput) (now : ℤ) → Command
  command_duplicates : (lat lng : ℕ) (t : ReportType) (now : ℤ) → Command
  command_confirm : (id : ℕ) (i : NewConfirmationInput) (now : ℤ) → Command
  command_react : (id user : ℕ) (kind : ReactionType) → Command
  command_unreact : (id user : ℕ) → Command
  command_my_reaction : (id user : ℕ) → Command
  command_problem : (report_id : ℕ) (i : NewComplaintInput) (id : ℕ) (now : ℤ) → Command
  command_decide : (report_id : ℕ) (action : Action) (now : ℤ) → Command

-- A use case whose result is sent off.
abbrev quietly {ℓ} : {A : Type ℓ} → Use A → Use (Unit {0})
quietly m = m >>= λ a. return tt

abbrev pub start : FreshnessPolicy → ModerationPolicy → Float64 → Command → Use (Unit {0})
start p q f (command_create i user id now) = quietly (create_report p f i user id now)
start p q f (command_get id) = quietly (get_report id)
start p q f (command_list i now) = quietly (list_reports f i now)
start p q f (command_nearby i now) = quietly (nearby_reports f i now)
start p q f (command_duplicates lat lng t now) = quietly (find_duplicates f lat lng t now)
start p q f (command_confirm id i now) = quietly (confirm_report p id i now)
start p q f (command_react id user kind) = quietly (react_to id user kind)
start p q f (command_unreact id user) = quietly (unreact id user)
start p q f (command_my_reaction id user) = quietly (reaction_of id user)
start p q f (command_problem report_id i id now) = quietly (report_problem q report_id i id now)
start p q f (command_decide report_id action now) = quietly (apply_decision report_id action now)

module _ (p : FreshnessPolicy) (q : ModerationPolicy) (f : Float64) where
  -- The states of the server that started on empty tables.
  abbrev pub Reached : List (Use (Unit {0})) → Tables → Type 0
  Reached ms s = Runs empty_tables (start p q f) ms s

  quietly-Lawful {ℓ} : {A : Type ℓ} {m : Use A} → Lawful p q m → Lawful p q (quietly m)
  quietly-Lawful h = bind-Allowed h (λ a. lawful_end (ok tt))

  start-Lawful : (c : Command) → Lawful p q (start p q f c)
  start-Lawful (command_create i user id now) =
      quietly-Lawful (create_report-Lawful p q f i user id now)
  start-Lawful (command_get id) = quietly-Lawful (get_report-Lawful p q id)
  start-Lawful (command_list i now) = quietly-Lawful (list_reports-Lawful p q f i now)
  start-Lawful (command_nearby i now) = quietly-Lawful (nearby_reports-Lawful p q f i now)
  start-Lawful (command_duplicates lat lng t now) =
      quietly-Lawful (find_duplicates-Lawful p q f lat lng t now)
  start-Lawful (command_confirm id i now) = quietly-Lawful (confirm_report-Lawful p q id i now)
  start-Lawful (command_react id user kind) = quietly-Lawful (react_to-Lawful p q id user kind)
  start-Lawful (command_unreact id user) = quietly-Lawful (unreact-Lawful p q id user)
  start-Lawful (command_my_reaction id user) = quietly-Lawful (reaction_of-Lawful p q id user)
  start-Lawful (command_problem report_id i id now) =
      quietly-Lawful (report_problem-Lawful p q report_id i id now)
  start-Lawful (command_decide report_id action now) =
      quietly-Lawful (apply_decision-Lawful p q report_id action now)

  -- However the calls interleave, the tables are those of a sequence of the repositories' writes.
  pub Reached-Writes :
      (ms : List (Use (Unit {0}))) (s : Tables) → Reached ms s → Writes p q empty_tables s
  Reached-Writes ms s r =
      Runs-sound (Writes p q) empty_tables (start p q f) done (λ t u v. Writes-trans) start-Lawful
        ms s r

  -- Under a moderation policy that validates, however the repository calls of any number of report
  -- and moderation use cases interleave: a report is resolved exactly while its cleared votes reach
  -- the threshold and outnumber its still-active votes; a report with as many pending complaints as
  -- the policy hides is hidden; and the report has one more resolved event than reopened events
  -- exactly while it is resolved, else as many, and likewise for hidden and unhidden events.
  pub Reached-Sound :
      moderation_valid q ≡ true
      → (ms : List (Use (Unit {0}))) (s : Tables) → Reached ms s
      → (id : ℕ) → Sound p q s id
  Reached-Sound valid ms s r = writes-Sound p q valid s (Reached-Writes ms s r)

  -- Under a freshness policy that validates, however the repository calls of any number of report
  -- and moderation use cases interleave: every report without a user is of a category open to guests,
  -- no report expires before it is stale, and a report has a hidden reason exactly while it is hidden.
  pub Reached-rows :
      freshness_valid p ≡ true
      → (ms : List (Use (Unit {0}))) (s : Tables) → Reached ms s
      → all row_sound s.reports ≡ true
  Reached-rows valid ms s r = writes-rows p q valid s (Reached-Writes ms s r)

  -- However the repository calls of any number of report and moderation use cases interleave, there is
  -- at most one report with an id and one with a client id, and on each report at most one vote and
  -- one complaint of a device and one reaction of a user.
  pub Reached-Keys : (ms : List (Use (Unit {0}))) (s : Tables) → Reached ms s → Keys s
  Reached-Keys ms s r = writes-Keys p q s (Reached-Writes ms s r)
