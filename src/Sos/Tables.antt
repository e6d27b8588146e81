-- ===== src/Sos/Tables.antt =====
-- internal/adapters/outbound/postgres/sos_repository.go: the tables, and Create, Get,
-- FindByClientID, Events, ListForDevice, Transition, Accept, GetHelper, UpsertHelper and
-- UpdateHelperLocation on them.
use mathlib.Core.Option
use flood_now_backend.Base.{
  ℕ, Bool, true, false, not, ◌&&◌, ◌||◌, Option, none, some, List, [], ◌∷◌, map, reverse, any,
  count_by, select, take, holds, leb, ◌==◌, if◌then◌else◌,
}
use flood_now_backend.Base.Int.{ℤ, ltb_ℤ}
use flood_now_backend.Base.Text.{Text, text_eq}
use flood_now_backend.Base.Sorting.{sort_by}
use flood_now_backend.Apperr.{ok, err, conflict, database}
use flood_now_backend.Program.{Outcome, commit, rollback}
use flood_now_backend.Postgres.Table.{find, update_where}
use flood_now_backend.Sos.Request.{
  Status, waiting, matched, on_the_way, arrived, status_eq, is_closed, Role, requester, helper,
  role_eq, Request, is_text, Event,
}
use flood_now_backend.Sos.Helpers.{Helper}

-- The events that were inserted last first.
pub record Tables : Type 0 where
  pub requests : List Request
  pub events : List Event
  pub helpers : List Helper

abbrev pub empty_tables : Tables
empty_tables = record { requests = []; events = []; helpers = [] }

abbrev pub request_is : ℕ → Request → Bool
request_is id r = r.id == id

-- insertSOSEvent.
abbrev pub insert_sos_event : Tables → ℕ → Status → Role → ℤ → Tables
insert_sos_event s id status actor at = record s {
  events = record { request_id = id; status = status; actor = actor; created_at = at } ∷ s.events;
}

-- A client id that is set and the same.
unfoldable pub same_client_id : Option Text → Option Text → Bool
unfolding is_text
same_client_id a none = false
same_client_id a (some t) = is_text a t

-- The unique constraints of sos_requests: the id, the device with a client id, and one open request
-- for each device.
unfoldable pub clashes : Request → Request → Bool
unfolding same_client_id text_eq
clashes r q =
    q.id == r.id
    || (text_eq q.device_id r.device_id
        && (same_client_id q.client_id r.client_id
            || (not (is_closed q.status) && not (is_closed r.status))))

-- The columns that the INSERT leaves to their defaults.
abbrev pub inserted : Request → Request
inserted r = record r { helper_device_id = none; updated_at = r.created_at; closed_at = none }

unfoldable pub create : Tables → Request → Outcome Tables (Unit {0})
unfolding clashes
create s r =
    if any (clashes r) s.requests
    then rollback
        (err (conflict "you already have an open SOS request; cancel it before sending a new one"))
    else commit (ok tt) (
        insert_sos_event (record s { requests = inserted r ∷ s.requests }) r.id r.status requester
          r.created_at)

-- sosColumns does not read user_id.
abbrev pub scanned : Request → Request
scanned r = record r { user_id = none }

unfoldable pub get : Tables → ℕ → Option Request
get s id = Option.map scanned (find (request_is id) s.requests)

abbrev pub of_client : Text → Text → Request → Bool
of_client device_id client_id q = text_eq q.device_id device_id && is_text q.client_id client_id

unfoldable pub find_by_client_id : Tables → Text → Text → Option Request
unfolding text_eq is_text
find_by_client_id s device_id client_id =
    Option.map scanned (find (of_client device_id client_id) s.requests)

-- ORDER BY created_at, id: of equal times the one inserted first.
unfoldable pub events_of : Tables → ℕ → List Event
unfolding sort_by
events_of s id =
    sort_by (λ a b. ltb_ℤ a.created_at b.created_at)
      (reverse (select (λ e. e.request_id == id) s.events))

-- Open requests first, then the latest.
abbrev pub listed_before : Request → Request → Bool
listed_before a b =
    if is_closed a.status
    then is_closed b.status && ltb_ℤ b.created_at a.created_at
    else is_closed b.status || ltb_ℤ b.created_at a.created_at

unfoldable pub list_for_device : Tables → Text → ℕ → List Request
unfolding text_eq is_text sort_by
list_for_device s device_id limit = take limit (
    sort_by listed_before (
      map scanned (
        select (λ r. text_eq r.device_id device_id || is_text r.helper_device_id device_id)
          s.requests)))

-- ports.SOSTransition.
pub record SosTransition : Type 0 where
  pub id : ℕ
  pub from : Status
  pub to : Status
  pub actor : Role
  pub helper_device_id : Option Text
  pub now : ℤ

-- The row that the WHERE takes: in the expected status, and still the helper's if a helper acts.
unfoldable pub expected : SosTransition → Request → Bool
unfolding is_text
expected t r =
    r.id == t.id
    && status_eq r.status t.from
    && (if role_eq t.actor helper
        then holds t.helper_device_id (is_text r.helper_device_id)
        else true)

-- The SET clauses: back to the pool, or closed.
abbrev pub closed_at_after : SosTransition → Option ℤ → Option ℤ
closed_at_after t at = if is_closed t.to then some t.now else at

abbrev pub moved : SosTransition → Request → Request
moved t r = record r {
  status = t.to;
  updated_at = t.now;
  helper_device_id = if status_eq t.to waiting then none else r.helper_device_id;
  closed_at = closed_at_after t r.closed_at;
}

abbrev pub helper_missing : SosTransition → Bool
helper_missing t = role_eq t.actor helper && not (holds t.helper_device_id (λ d. true))

unfoldable pub transition : Tables → SosTransition → Outcome Tables Bool
unfolding expected update_where
transition s t =
    if helper_missing t
    then rollback (err (database "helper transition without helper device"))
    else if any (expected t) s.requests
    then commit (ok true) (
        insert_sos_event (record s { requests = update_where (expected t) (moved t) s.requests })
          t.id t.to t.actor t.now)
    else rollback (ok false)

abbrev pub helper_is : Text → Helper → Bool
helper_is device_id h = text_eq h.device_id device_id

-- status IN ('matched', 'on_the_way', 'arrived').
abbrev pub is_assigned : Status → Bool
is_assigned s = status_eq s matched || status_eq s on_the_way || status_eq s arrived

unfoldable pub assigned_to : Text → Request → Bool
unfolding is_text
assigned_to device_id r = is_text r.helper_device_id device_id && is_assigned r.status

unfoldable pub claimable : ℕ → Text → Request → Bool
unfolding text_eq
claimable id device_id r =
    r.id == id && status_eq r.status waiting && not (text_eq r.device_id device_id)

abbrev pub claimed : Text → ℤ → Request → Request
claimed device_id now r = record r {
  status = matched;
  helper_device_id = some device_id;
  updated_at = now;
}

-- Once the helper's row is locked.
unfoldable pub accept_locked : Tables → ℕ → Text → ℕ → ℤ → Outcome Tables Bool
unfolding assigned_to claimable update_where
accept_locked s id device_id max_active now =
    if leb max_active (count_by (assigned_to device_id) s.requests)
    then rollback (err (conflict "you already have enough open requests; finish one first"))
    else if any (claimable id device_id) s.requests
    then commit (ok true) (
        insert_sos_event
          (record s {
            requests = update_where (claimable id device_id) (claimed device_id now) s.requests;
          })
          id matched helper now)
    else rollback (ok false)

unfoldable pub get_helper : Tables → Text → Option Helper
unfolding find text_eq
get_helper s device_id = find (helper_is device_id) s.helpers

unfoldable pub accept : Tables → ℕ → Text → ℕ → ℤ → Outcome Tables Bool
unfolding get_helper accept_locked
accept s id device_id max_active now =
    if holds (get_helper s device_id) (λ h. h.active)
    then accept_locked s id device_id max_active now
    else rollback (err (conflict "turn on helper mode first"))

-- ON CONFLICT (device_id) DO UPDATE keeps created_at.
abbrev pub replaced : Helper → Helper → Helper
replaced h old = record h { created_at = old.created_at }

unfoldable pub upsert_helper : Tables → Helper → Tables
unfolding update_where text_eq
upsert_helper s h =
    if any (helper_is h.device_id) s.helpers
    then record s { helpers = update_where (helper_is h.device_id) (replaced h) s.helpers }
    else record s { helpers = h ∷ s.helpers }

abbrev pub located : ℕ → ℕ → ℤ → Helper → Helper
located lat lng at h = record h { latitude = some lat; longitude = some lng; location_at = some at }

unfoldable pub update_helper_location : Tables → Text → ℕ → ℕ → ℤ → Tables
unfolding update_where text_eq
update_helper_location s device_id lat lng at = record s {
  helpers = update_where (helper_is device_id) (located lat lng at) s.helpers;
}
