-- ===== src/Report/Tables.antt =====
-- internal/adapters/outbound/postgres/report_repository.go: the tables, and Create, GetByID,
-- FindByClientID, Events, React, RemoveReaction and MyReaction on them.
use mathlib.Core.Option
use flood_now_backend.Base.{
  true, false, ℕ, Bool, not, ◌&&◌, ◌||◌, Option, none, some, List, [], ◌∷◌, any, count_by, select,
  take, holds, ◌==◌, if◌then◌else◌,
}
use flood_now_backend.Base.Int.{ℤ, ltb_ℤ}
use flood_now_backend.Base.Sorting.{sort_by}
use flood_now_backend.Base.Text.{Text}
use flood_now_backend.Apperr.{ok, err, conflict}
use flood_now_backend.Program.{
  Outcome, commit, rollback, Program, return, reading, writing, transaction, ◌>>=◌, ◌>>◌,
}
use flood_now_backend.Postgres.Table.{find, update_where}
use flood_now_backend.Sos.Request.{is_text}
use flood_now_backend.Sos.Tables.{same_client_id}
use flood_now_backend.Report.Lifecycle.{Report, ReportWithStats, EventKind, created}
use flood_now_backend.Report.Input.{
  ConfirmationStatus, is_still_active, is_cleared, ReactionType, is_like, is_support,
}
use flood_now_backend.Report.Complaint.{Complaint}

-- A row of report_confirmations.
pub record Vote : Type 0 where
  pub report_id : ℕ
  pub device_id : Text
  pub status : ConfirmationStatus
  pub created_at : ℤ
  pub updated_at : ℤ

-- A row of report_events.
pub record ReportEvent : Type 0 where
  pub report_id : ℕ
  pub kind : EventKind
  pub device_id : Option Text
  pub created_at : ℤ

-- A row of report_reactions: an older one has a device in place of a user.
pub record Reaction : Type 0 where
  pub report_id : ℕ
  pub user_id : Option ℕ
  pub kind : ReactionType

-- The newest rows first.
pub record Tables : Type 0 where
  pub reports : List Report
  pub votes : List Vote
  pub events : List ReportEvent
  pub reactions : List Reaction
  pub complaints : List Complaint

abbrev pub empty_tables : Tables
empty_tables = record { reports = []; votes = []; events = []; reactions = []; complaints = [] }

abbrev pub report_is : ℕ → Report → Bool
report_is id r = r.id == id

abbrev pub row_of : Tables → ℕ → Option Report
row_of s id = find (report_is id) s.reports

abbrev pub new_event : ℕ → EventKind → Option Text → ℤ → ReportEvent
new_event id kind device_id at = record {
  report_id = id;
  kind = kind;
  device_id = device_id;
  created_at = at;
}

-- insertEvent.
abbrev pub insert_event : Tables → ℕ → EventKind → Option Text → ℤ → Tables
insert_event s id kind device_id at = record s {
  events = new_event id kind device_id at ∷ s.events;
}

-- The unique constraints of reports: the id, and a client id that is set.
unfoldable pub clashes : Report → Report → Bool
unfolding same_client_id
clashes r q = q.id == r.id || same_client_id q.client_id r.client_id

-- The columns that the INSERT leaves to their defaults.
abbrev pub inserted : Report → Report
inserted r = record r { resolved_at = none; hidden_at = none; hidden_reason = none }

unfoldable pub create : Tables → Report → Outcome Tables (Unit {0})
unfolding clashes
create s r =
    if any (clashes r) s.reports
    then rollback (err (conflict "a report with this client_id already exists"))
    else commit (ok tt) (
        insert_event (record s { reports = inserted r ∷ s.reports }) r.id created none r.created_at)

-- The correlated counts of reportColumns.
abbrev pub still_vote : ℕ → Vote → Bool
still_vote id v = v.report_id == id && is_still_active v.status

abbrev pub cleared_vote : ℕ → Vote → Bool
cleared_vote id v = v.report_id == id && is_cleared v.status

abbrev pub like_reaction : ℕ → Reaction → Bool
like_reaction id x = x.report_id == id && is_like x.kind

abbrev pub support_reaction : ℕ → Reaction → Bool
support_reaction id x = x.report_id == id && is_support x.kind

-- reportColumns does not read user_id.
abbrev pub scanned : Report → Report
scanned r = record r { user_id = none }

unfoldable pub with_stats : Tables → Option ℕ → Report → ReportWithStats
with_stats s distance r = record {
  report = scanned r;
  still_active_count = count_by (still_vote r.id) s.votes;
  cleared_count = count_by (cleared_vote r.id) s.votes;
  like_count = count_by (like_reaction r.id) s.reactions;
  support_count = count_by (support_reaction r.id) s.reactions;
  distance_m = distance;
}

unfoldable pub get_by_id : Tables → ℕ → Option ReportWithStats
unfolding find with_stats
get_by_id s id = Option.map (with_stats s none) (row_of s id)

abbrev pub of_client : Text → Report → Bool
of_client client_id q = is_text q.client_id client_id

unfoldable pub find_by_client_id : Tables → Text → Option ReportWithStats
unfolding find with_stats is_text
find_by_client_id s client_id =
    Option.map (with_stats s none) (find (of_client client_id) s.reports)

-- Events: ORDER BY created_at DESC, id DESC, of equal times the one inserted last first.
unfoldable pub events_of : Tables → ℕ → List ReportEvent
unfolding sort_by
events_of s id =
    take 100
      (sort_by (λ a b. ltb_ℤ b.created_at a.created_at) (select (λ e. e.report_id == id) s.events))

abbrev pub of_user : ℕ → ℕ → Reaction → Bool
of_user id user x = x.report_id == id && holds x.user_id (λ u. u == user)

abbrev pub reacted : ReactionType → Reaction → Reaction
reacted kind x = record x { kind = kind }

-- ON CONFLICT (report_id, user_id) DO UPDATE.
unfoldable pub upsert_reaction : Tables → ℕ → ℕ → ReactionType → Tables
unfolding update_where
upsert_reaction s id user kind =
    if any (of_user id user) s.reactions
    then record s { reactions = update_where (of_user id user) (reacted kind) s.reactions }
    else record s {
      reactions = record { report_id = id; user_id = some user; kind = kind } ∷ s.reactions;
    }

-- The INSERT of React: whether it is done, or the foreign key refuses the row of a report that is
-- not there.
unfoldable pub try_react : Tables → ℕ → ℕ → ReactionType → Outcome Tables Bool
unfolding upsert_reaction
try_react s id user kind =
    if any (report_is id) s.reports
    then commit (ok true) (upsert_reaction s id user kind)
    else rollback (ok false)

abbrev pub reload_if : Bool → ℕ → Program Tables (Option ReportWithStats)
reload_if true id = reading (λ s. get_by_id s id)
reload_if false id = return none

-- React and RemoveReaction: two statements, outside a transaction.
unfoldable pub react : ℕ → ℕ → ReactionType → Program Tables (Option ReportWithStats)
unfolding get_by_id try_react
react id user kind = transaction (λ s. try_react s id user kind) >>= λ done. reload_if done id

abbrev pub without_reaction : Tables → ℕ → ℕ → Tables
without_reaction s id user = record s {
  reactions = select (λ x. not (of_user id user x)) s.reactions;
}

unfoldable pub remove_reaction : ℕ → ℕ → Program Tables (Option ReportWithStats)
unfolding get_by_id
remove_reaction id user = writing (λ s. without_reaction s id user) >> reading (λ s. get_by_id s id)

unfoldable pub my_reaction : Tables → ℕ → ℕ → Option ReactionType
unfolding find
my_reaction s id user = Option.map (λ x. x.kind) (find (of_user id user) s.reactions)
