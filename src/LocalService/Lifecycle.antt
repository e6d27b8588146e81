-- ===== src/LocalService/Lifecycle.antt =====
-- The lifecycle of a request: which moves, cancellations and lapses there are.
use flood_now_backend.Base.{◌≡◌, true, arith}
use flood_now_backend.LocalService.Request.{
  Status, status_matched, status_on_the_way, status_arrived, status_completed, status_eq, Role,
  can_transition,
}

-- The moves that CanTransition allows.
pub data Move : Status → Status → Type 0 where
  sets_off : Move status_matched status_on_the_way
  gets_there : Move status_on_the_way status_arrived
  finishes : Move status_arrived status_completed

pub can_transition-Move :
    (from to : Status) (role : Role) → can_transition from to role ≡ true → Move from to
unfolding can_transition
can_transition-Move status_matched status_on_the_way role h = sets_off
can_transition-Move status_on_the_way status_arrived role h = gets_there
can_transition-Move status_arrived status_completed role h = finishes
can_transition-Move _ _ role h = cc

pub status_eq_sound : (s t : Status) → status_eq s t ≡ true → s ≡ t
status_eq_sound s t h = ground arith
