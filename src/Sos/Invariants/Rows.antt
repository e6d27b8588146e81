-- ===== src/Sos/Invariants/Rows.antt =====
-- Every row of sos_requests: a helper exactly while the request is assigned, and never its requester.
use flood_now_backend.Base.{
  ℕ, ◌≡◌, refl, Bool, true, false, not, ◌&&◌, ◌||◌, all, is_set, if◌then◌else◌, arith,
}
use flood_now_backend.Base.Int.{ℤ}
use flood_now_backend.Base.Text.{Text, text_eq_comm}
use flood_now_backend.Program.{Outcome, store_after}
use flood_now_backend.Postgres.Rows.{all-update_where}
use flood_now_backend.Sos.Request.{
  Status, waiting, cancelled, status_eq, is_closed, Role, can_transition, Request, is_text,
}
use flood_now_backend.Sos.Tables.{
  Tables, empty_tables, SosTransition, expected, moved, is_assigned, claimable, claimed,
  upsert_helper, update_helper_location,
}
use flood_now_backend.Sos.Writes.{
  Write, creates, moves, accepts, saves, locates, Writes, Writes-induction,
}
use flood_now_backend.Sos.Invariants.Ends.{
  CreateEnds, refused, filed, create-ends, MoveEnds, stayed, went, transition-ends, AcceptEnds,
  lost, won, accept-ends,
}

-- A closed row keeps the helper that it had.
unfoldable pub row_sound : Request → Bool
unfolding is_text
row_sound r =
    (if is_closed r.status
      then true
      else if is_assigned r.status
      then is_set r.helper_device_id
      else status_eq r.status waiting && not (is_set r.helper_device_id))
    && not (is_text r.helper_device_id r.device_id)

-- A move leads to a known status, and to an assigned one only from an assigned one.
pub can_transition-assigned :
    (from to : Status) (actor : Role)
    → can_transition from to actor ≡ true
    → (is_assigned to ≡ true → is_assigned from ≡ true)
      × ((is_assigned to || is_closed to || status_eq to waiting) ≡ true)
      × (is_closed from ≡ false)
unfolding can_transition
can_transition-assigned waiting cancelled a h = ground arith
can_transition-assigned from to a h = ground arith

moved-row_sound :
    (t : SosTransition)
    → can_transition t.from t.to t.actor ≡ true
    → (r : Request) → row_sound r ≡ true
    → expected t r ≡ true
    → row_sound (moved t r) ≡ true
unfolding row_sound expected is_text
moved-row_sound t h r ok e = ground (arith, can_transition-assigned t.from t.to t.actor h)

claimed-row_sound :
    (id : ℕ) (device_id : Text) (now : ℤ) (r : Request)
    → row_sound r ≡ true
    → claimable id device_id r ≡ true
    → row_sound (claimed device_id now r) ≡ true
unfolding row_sound claimable is_text
claimed-row_sound id device_id now r ok e = ground (arith, text_eq_comm device_id r.device_id)

CreateEnds-rows :
    (s : Tables) (r : Request) {e : Outcome Tables (Unit {0})}
    → CreateEnds s r e
    → r.status ≡ waiting
    → all row_sound s.requests ≡ true
    → all row_sound (store_after s e).requests ≡ true
unfolding row_sound is_text
CreateEnds-rows s r (refused e) w h = h
CreateEnds-rows s r (filed fresh) w h = ground (arith, w)

MoveEnds-rows :
    (s : Tables) (t : SosTransition) {e : Outcome Tables Bool}
    → MoveEnds s t e
    → can_transition t.from t.to t.actor ≡ true
    → all row_sound s.requests ≡ true
    → all row_sound (store_after s e).requests ≡ true
MoveEnds-rows s t (stayed e) c h = h
MoveEnds-rows s t (went there) c h =
    all-update_where row_sound (expected t) (moved t) s.requests (moved-row_sound t c) h

AcceptEnds-rows :
    (s : Tables) (id : ℕ) (device_id : Text) (max : ℕ) (now : ℤ) {e : Outcome Tables Bool}
    → AcceptEnds s id device_id max now e
    → all row_sound s.requests ≡ true
    → all row_sound (store_after s e).requests ≡ true
AcceptEnds-rows s id device_id max now (lost e l) h = h
AcceptEnds-rows s id device_id max now (won free there) h =
    all-update_where row_sound (claimable id device_id) (claimed device_id now) s.requests
      (claimed-row_sound id device_id now) h

Write-rows :
    (s t : Tables) → Write s t → all row_sound s.requests ≡ true → all row_sound t.requests ≡ true
unfolding upsert_helper update_helper_location
Write-rows s _ (creates r w) h = CreateEnds-rows s r (create-ends s r) w h
Write-rows s _ (moves t c) h = MoveEnds-rows s t (transition-ends s t) c h
Write-rows s _ (accepts id device_id now) h =
    AcceptEnds-rows s id device_id _ now (accept-ends s id device_id _ now) h
Write-rows s _ (saves p) h = ground arith
Write-rows s _ (locates device_id lat lng at) h = h

-- Every request has a helper while it is matched,
-- on the way or arrived, has none while it is waiting, is in no other status but completed and
-- cancelled, and its helper is never its own requester.
pub writes-row_sound : (s : Tables) → Writes empty_tables s → all row_sound s.requests ≡ true
writes-row_sound s w =
    Writes-induction (λ t. all row_sound t.requests ≡ true) (λ t u x. Write-rows t u x) w refl
