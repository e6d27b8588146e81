-- ===== src/LocalService/Steps.antt =====
-- The lifecycle of a request as a relation on statuses, independent of the code that moves it.
use flood_now_backend.Base.{◌≡◌, refl, true, false}
use flood_now_backend.LocalService.Request.{
  Status, status_open, status_pending_confirmation, status_matched, status_on_the_way,
  status_arrived, status_cancelled, status_expired, unknown_status, is_closed,
}
use flood_now_backend.LocalService.Lifecycle.{Move, sets_off, gets_there, finishes}

pub data Step : Status → Status → Type 0 where
  chosen : Step status_open status_pending_confirmation
  reopened : Step status_pending_confirmation status_open
  confirmed : Step status_pending_confirmation status_matched
  progresses : {a b : Status} → Move a b → Step a b
  lapses_open : Step status_open status_expired
  lapses_selected : Step status_pending_confirmation status_expired
  called_off_open : Step status_open status_cancelled
  called_off_selected : Step status_pending_confirmation status_cancelled
  called_off_matched : Step status_matched status_cancelled
  called_off_travelling : Step status_on_the_way status_cancelled
  called_off_arrived : Step status_arrived status_cancelled
  called_off_unknown : Step unknown_status status_cancelled
  backed_out : Step status_matched status_open
  backed_out_travelling : Step status_on_the_way status_open

-- What one write makes of a status: at most one step, unless a selection that timed out is reopened
-- first.
pub data Moves : Status → Status → Type 0 where
  stays : {a : Status} → Moves a a
  steps : {a b : Status} → Step a b → Moves a b
  reopens_and : {b : Status} → Step status_open b → Moves status_pending_confirmation b

-- What lockRequest makes of a status, and what the write makes of it after that.
pub data Catches : Status → Status → Type 0 where
  in_time : {a : Status} → Catches a a
  lapsed : {a : Status} → Step a status_expired → Catches a status_expired
  timed_out : Catches status_pending_confirmation status_open

-- No step leaves a closed status.
Step-open : {a b : Status} → Step a b → is_closed a ≡ false
unfolding is_closed
Step-open chosen = refl
Step-open reopened = refl
Step-open confirmed = refl
Step-open (progresses sets_off) = refl
Step-open (progresses gets_there) = refl
Step-open (progresses finishes) = refl
Step-open lapses_open = refl
Step-open lapses_selected = refl
Step-open called_off_open = refl
Step-open called_off_selected = refl
Step-open called_off_matched = refl
Step-open called_off_travelling = refl
Step-open called_off_arrived = refl
Step-open called_off_unknown = refl
Step-open backed_out = refl
Step-open backed_out_travelling = refl

pub Catches-Moves : {a b : Status} → Catches a b → Moves a b
Catches-Moves in_time = stays
Catches-Moves (lapsed x) = steps x
Catches-Moves timed_out = steps reopened

pub Catches-Step : {a b c : Status} → Catches a b → Step b c → Moves a c
unfolding is_closed
Catches-Step in_time x = steps x
Catches-Step (lapsed e) x = absurd (cc (Step-open x))
Catches-Step timed_out x = reopens_and x

pub Moves-closed : {a b : Status} → is_closed a ≡ true → Moves a b → b ≡ a
Moves-closed h stays = refl
Moves-closed h (steps x) = absurd (cc (h, Step-open x))
Moves-closed h (reopens_and x) = absurd (cc (h, Step-open reopened))
