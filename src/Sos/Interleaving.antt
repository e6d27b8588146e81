-- ===== src/Sos/Interleaving.antt =====
-- Any number of SOS use cases at once: their repository calls come in any order.
use flood_now_backend.Base.{
  ℕ, ◌≡◌, refl, true, Option, none, some, List, [], ◌∷◌, all, Option-cases, inl, inr,
}
use flood_now_backend.Base.Int.{ℤ}
use flood_now_backend.Base.Text.{Text}
use flood_now_backend.Base.Float.{Float64}
use flood_now_backend.Apperr.{ok}
use flood_now_backend.Program.{Outcome, store_after, return, ◌>>=◌, reading, writing, transaction}
use flood_now_backend.Program.Server.{
  Allowed, lawful_end, bind-Allowed, reading-Allowed, writing-Allowed, transaction-Allowed,
  checked-Allowed, if-Allowed, allowed_rules, Runs, Runs-sound,
}
use flood_now_backend.Sos.Request.{
  Status, status_eq, Event, Role, Request, NewRequestInput, is_closed, requester,
}
use flood_now_backend.Sos.Helpers.{Helper, HelperInput}
use flood_now_backend.Sos.Tables.{Tables, empty_tables, request_is, events_of}
use flood_now_backend.Sos.Writes.{
  Write, creates, moves, accepts, saves, locates, Writes, done, next, Writes-trans,
}
use flood_now_backend.Sos.Invariants.Rows.{row_sound, writes-row_sound}
use flood_now_backend.Sos.Invariants.Limits.{Limits, writes-Limits}
use flood_now_backend.Sos.Invariants.Timeline.{writes-IsTimely}
use flood_now_backend.Sos.Invariants.Told.{last_of, earlier, told, IsTimely-events}
use flood_now_backend.Base.Sorting.{IsSorted}
use flood_now_backend.Postgres.Table.{find}
use flood_now_backend.Sos.Service.{
  Use, view, helper_shown, count_shown, create_sos, file_request, earlier_request, get_sos, mine,
  mine_views, update_status, accept_sos, move, claim,
}
use flood_now_backend.Sos.Helping.{nearby, helper_profile, save_helper}

abbrev Lawful {ℓ} : {A : Type ℓ} → Use A → Type ℓ
Lawful m = Allowed Writes m

reading-Lawful {ℓ} : {A : Type ℓ} (f : Tables → A) → Lawful (reading f)
reading-Lawful f = reading-Allowed (λ s. done) f

writing-Lawful : (f : Tables → Tables) → ((s : Tables) → Write s (f s)) → Lawful (writing f)
writing-Lawful f w = writing-Allowed f (λ s. next done (w s))

transaction-Lawful {ℓ} :
    {A : Type ℓ} (f : Tables → Outcome Tables A)
    → ((s : Tables) → Write s (store_after s (f s)))
    → Lawful (transaction f)
transaction-Lawful f w = transaction-Allowed f (λ s. next done (w s))

ruleset lawful_rules = (allowed_rules, reading-Lawful)

helper_shown-Lawful : (r : Request) (role : Role) → Lawful (helper_shown r role)
helper_shown-Lawful r role = elim (Option-cases r.helper_device_id) [
  | inl h ↦ rw h (search lawful_rules)
  | inr (d, h) ↦ rw h (search lawful_rules)
]

earlier_request-Lawful : (i : NewRequestInput) → Lawful (earlier_request i)
earlier_request-Lawful i = elim (Option-cases i.client_id) [
  | inl h ↦ rw h (search lawful_rules)
  | inr (c, h) ↦ rw h (search lawful_rules)
]

module _ (f : Float64) where
  count_shown-Lawful : (r : Request) (role : Role) (now : ℤ) → Lawful (count_shown f r role now)
  count_shown-Lawful r role now = search lawful_rules

  view-Lawful : (r : Request) (role : Role) (now : ℤ) → Lawful (view f r role now)
  unfolding view
  view-Lawful r role now = search (lawful_rules, helper_shown-Lawful, count_shown-Lawful)

  get_sos-Lawful : (device_id : Text) (id : ℕ) (now : ℤ) → Lawful (get_sos f device_id id now)
  unfolding get_sos
  get_sos-Lawful device_id id now = search (lawful_rules, view-Lawful)

  file_request-Lawful :
      (i : NewRequestInput) (id : ℕ) (now : ℤ) (o : Option Request)
      → Lawful (file_request f i id now o)
  file_request-Lawful i id now (some r) = view-Lawful r requester now
  file_request-Lawful i id now none =
      bind-Allowed (transaction-Lawful _ (λ s. creates _ refl)) (λ u. view-Lawful _ requester now)

  create_sos-Lawful : (i : NewRequestInput) (id : ℕ) (now : ℤ) → Lawful (create_sos f i id now)
  unfolding create_sos
  create_sos-Lawful i id now = search (lawful_rules, earlier_request-Lawful, file_request-Lawful)

  mine_views-Lawful :
      (device_id : Text) (now : ℤ) (rs : List Request) → Lawful (mine_views f device_id now rs)
  unfolding mine_views
  mine_views-Lawful device_id now [] = lawful_end (ok [])
  mine_views-Lawful device_id now (r ∷ rs) =
      bind-Allowed (if-Allowed (is_closed r.status) (lawful_end _) (view-Lawful r _ now))
        (λ v. bind-Allowed (mine_views-Lawful device_id now rs) (λ vs. lawful_end (ok (v ∷ vs))))

  mine-Lawful : (device_id : Text) (now : ℤ) → Lawful (mine f device_id now)
  unfolding mine
  mine-Lawful device_id now = search (lawful_rules, mine_views-Lawful)

  move-Lawful :
      (device_id : Text) (id : ℕ) (r : Request) (to : Status) (now : ℤ)
      → Lawful (move f device_id id r to now)
  move-Lawful device_id id r to now =
      bind-Allowed (checked-Allowed _ _ (λ c. transaction-Lawful _ (λ s. moves _ c)))
        (λ done. search (lawful_rules, get_sos-Lawful))

  update_status-Lawful :
      (device_id : Text) (id : ℕ) (to : Status) (now : ℤ)
      → Lawful (update_status f device_id id to now)
  unfolding update_status
  update_status-Lawful device_id id to now = search (lawful_rules, move-Lawful)

  claim-Lawful :
      (device_id : Text) (id : ℕ) (now : ℤ) (h : Helper) (r : Request)
      → Lawful (claim f device_id id now h r)
  claim-Lawful device_id id now h r =
      search (lawful_rules, get_sos-Lawful, transaction-Lawful, accepts)

  accept_sos-Lawful : (device_id : Text) (id : ℕ) (now : ℤ) → Lawful (accept_sos f device_id id now)
  unfolding accept_sos
  accept_sos-Lawful device_id id now = search (lawful_rules, claim-Lawful, view-Lawful) depth 24

  nearby-Lawful :
      (device_id : Text) (lat lng : ℕ) (now : ℤ) → Lawful (nearby f device_id lat lng now)
  unfolding nearby
  nearby-Lawful device_id lat lng now = search (lawful_rules, writing-Lawful, locates) depth 24

  save_helper-Lawful : (i : HelperInput) (now : ℤ) → Lawful (save_helper f i now)
  unfolding save_helper
  save_helper-Lawful i now = search (lawful_rules, writing-Lawful, saves)

helper_profile-Lawful : (device_id : Text) → Lawful (helper_profile device_id)
unfolding helper_profile
helper_profile-Lawful device_id = search lawful_rules

-- The use cases, with their arguments, fresh ids and the clock's reading.
pub data Command : Type 0 where
  command_create : (i : NewRequestInput) (id : ℕ) (now : ℤ) → Command
  command_get : (device_id : Text) (id : ℕ) (now : ℤ) → Command
  command_mine : (device_id : Text) (now : ℤ) → Command
  command_update_status : (device_id : Text) (id : ℕ) (to : Status) (now : ℤ) → Command
  command_accept : (device_id : Text) (id : ℕ) (now : ℤ) → Command
  command_nearby : (device_id : Text) (lat lng : ℕ) (now : ℤ) → Command
  command_helper : (device_id : Text) → Command
  command_save_helper : (i : HelperInput) (now : ℤ) → Command

-- A use case whose result is sent off.
abbrev quietly {ℓ} : {A : Type ℓ} → Use A → Use (Unit {0})
quietly m = m >>= λ a. return tt

abbrev pub start : Float64 → Command → Use (Unit {0})
start f (command_create i id now) = quietly (create_sos f i id now)
start f (command_get device_id id now) = quietly (get_sos f device_id id now)
start f (command_mine device_id now) = quietly (mine f device_id now)
start f (command_update_status device_id id to now) = quietly (update_status f device_id id to now)
start f (command_accept device_id id now) = quietly (accept_sos f device_id id now)
start f (command_nearby device_id lat lng now) = quietly (nearby f device_id lat lng now)
start f (command_helper device_id) = quietly (helper_profile device_id)
start f (command_save_helper i now) = quietly (save_helper f i now)

-- The states of the server that started on empty tables.
abbrev pub Reached : Float64 → List (Use (Unit {0})) → Tables → Type 0
Reached f ms s = Runs empty_tables (start f) ms s

quietly-Lawful {ℓ} : {A : Type ℓ} {m : Use A} → Lawful m → Lawful (quietly m)
quietly-Lawful h = bind-Allowed h (λ a. lawful_end (ok tt))

start-Lawful : (f : Float64) (c : Command) → Lawful (start f c)
start-Lawful f (command_create i id now) = quietly-Lawful (create_sos-Lawful f i id now)
start-Lawful f (command_get d id now) = quietly-Lawful (get_sos-Lawful f d id now)
start-Lawful f (command_mine d now) = quietly-Lawful (mine-Lawful f d now)
start-Lawful f (command_update_status d id to now) =
    quietly-Lawful (update_status-Lawful f d id to now)
start-Lawful f (command_accept d id now) = quietly-Lawful (accept_sos-Lawful f d id now)
start-Lawful f (command_nearby d lat lng now) = quietly-Lawful (nearby-Lawful f d lat lng now)
start-Lawful f (command_helper d) = quietly-Lawful (helper_profile-Lawful d)
start-Lawful f (command_save_helper i now) = quietly-Lawful (save_helper-Lawful f i now)

-- However the calls interleave, the tables are those of a sequence of the repository's writes.
pub Reached-Writes :
    (f : Float64) (ms : List (Use (Unit {0}))) (s : Tables) → Reached f ms s → Writes empty_tables s
Reached-Writes f ms s r =
    Runs-sound Writes empty_tables (start f) done (λ t u v. Writes-trans) (start-Lawful f) ms s r

-- However the repository calls of any number of SOS use cases interleave: every request has a helper
-- while it is matched, on the way or arrived, has none while it is waiting, is in no other status but
-- completed and cancelled, and its helper is never its requester.
pub Reached-row_sound :
    (f : Float64) (ms : List (Use (Unit {0}))) (s : Tables)
    → Reached f ms s
    → all row_sound s.requests ≡ true
Reached-row_sound f ms s r = writes-row_sound s (Reached-Writes f ms s r)

-- However the repository calls of any number of SOS use cases interleave, there is at most one
-- request with an id, at most one open request of a device, and no helper holds more than three
-- requests that are matched, on the way or arrived.
pub Reached-Limits :
    (f : Float64) (ms : List (Use (Unit {0}))) (s : Tables) → Reached f ms s → Limits s
Reached-Limits f ms s r = writes-Limits s (Reached-Writes f ms s r)

-- However the repository calls of any number of SOS use cases interleave, a request has events, and
-- the last one that Events lists has the request's status, if the times of its events, in the order
-- in which they were inserted, never go back.
pub Reached-events :
    (f : Float64) (ms : List (Use (Unit {0}))) (s : Tables)
    → Reached f ms s
    → (id : ℕ) (r : Request) → find (request_is id) s.requests ≡ some r
    → IsSorted earlier (told s id)
    → (e : Event) × (last_of (events_of s id) ≡ some e) × (status_eq r.status e.status ≡ true)
Reached-events f ms s reached id r found ordered =
    IsTimely-events s id r (writes-IsTimely s (Reached-Writes f ms s reached)) found ordered
