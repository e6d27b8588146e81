-- ===== src/Sos/Writes.antt =====
-- Every write of the SOS repository, with what the use cases check before it, and sequences of them.
use flood_now_backend.Base.{ℕ, ◌≡◌, true}
use flood_now_backend.Base.Int.{ℤ}
use flood_now_backend.Base.Text.{Text}
use flood_now_backend.Program.{store_after}
use flood_now_backend.Sos.Request.{waiting, can_transition, Request, max_active_assignments}
use flood_now_backend.Sos.Helpers.{Helper}
use flood_now_backend.Sos.Tables.{
  Tables, create, SosTransition, transition, accept, upsert_helper, update_helper_location,
}

pub data Write (s : Tables) : Tables → Type 0 where
  creates : (r : Request) → r.status ≡ waiting → Write s (store_after s (create s r))
  moves :
      (t : SosTransition)
      → can_transition t.from t.to t.actor ≡ true
      → Write s (store_after s (transition s t))
  accepts :
      (id : ℕ) (device_id : Text) (now : ℤ)
      → Write s (store_after s (accept s id device_id max_active_assignments now))
  saves : (h : Helper) → Write s (upsert_helper s h)
  locates :
      (device_id : Text) (lat lng : ℕ) (at : ℤ)
      → Write s (update_helper_location s device_id lat lng at)

pub data Writes (s : Tables) : Tables → Type 0 where
  done : Writes s s
  next : {t u : Tables} → Writes s t → Write t u → Writes s u

pub Writes-trans : {s t u : Tables} → Writes s t → Writes t u → Writes s u
Writes-trans w done = w
Writes-trans w (next v x) = next (Writes-trans w v) x

-- An invariant of every write is one of every sequence.
pub Writes-induction :
    (P : Tables → Type 0)
    → ((s t : Tables) → Write s t → P s → P t)
    → {s t : Tables} → Writes s t
    → P s
    → P t
Writes-induction P keep done h = h
Writes-induction P keep (next {t = m} {u = u} w x) h = keep m u x (Writes-induction P keep w h)
