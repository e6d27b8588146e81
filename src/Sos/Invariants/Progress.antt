-- ===== src/Sos/Invariants/Progress.antt =====
-- The lifecycle of an SOS as steps on its status, and the rows that follow it.
use flood_now_backend.Base.{ℕ, ◌≡◌, refl, Bool, true, some, arith, ◌==◌, Bool-cases, inl, inr}
use flood_now_backend.Base.Int.{ℤ}
use flood_now_backend.Base.Text.{Text}
use flood_now_backend.Program.{Outcome, store_after}
use flood_now_backend.Postgres.Table.{find, update_where, find-update_where, find_sound}
use flood_now_backend.Postgres.Rows.{any_of_found}
use flood_now_backend.Sos.Request.{
  Status, waiting, matched, on_the_way, arrived, completed, cancelled, unknown_status, status_eq,
  Role, can_transition, Request,
}
use flood_now_backend.Sos.Tables.{
  Tables, request_is, clashes, SosTransition, expected, moved, claimable, claimed, upsert_helper,
  update_helper_location,
}
use flood_now_backend.Sos.Writes.{Write, creates, moves, accepts, saves, locates}
use flood_now_backend.Sos.Invariants.Ends.{
  CreateEnds, refused, filed, create-ends, MoveEnds, stayed, went, transition-ends, AcceptEnds,
  lost, won, accept-ends,
}
use flood_now_backend.Sos.Invariants.Limits.{clash_id}

pub data Step : Status → Status → Type 0 where
  claims : Step waiting matched
  leaves : Step matched on_the_way
  arrives : Step on_the_way arrived
  completes : Step arrived completed
  withdraws_matched : Step matched waiting
  withdraws_on_the_way : Step on_the_way waiting
  cancels_waiting : Step waiting cancelled
  cancels_matched : Step matched cancelled
  cancels_on_the_way : Step on_the_way cancelled
  cancels_arrived : Step arrived cancelled

-- At most one step.
pub data Moves (from : Status) : Status → Type 0 where
  stays_at : Moves from from
  steps_to : {to : Status} → Step from to → Moves from to

can_transition-Step : (from to : Status) (a : Role) → can_transition from to a ≡ true → Step from to
unfolding can_transition
can_transition-Step matched on_the_way a h = leaves
can_transition-Step on_the_way arrived a h = arrives
can_transition-Step arrived completed a h = completes
can_transition-Step matched waiting a h = withdraws_matched
can_transition-Step on_the_way waiting a h = withdraws_on_the_way
can_transition-Step waiting cancelled a h = cancels_waiting
can_transition-Step matched cancelled a h = cancels_matched
can_transition-Step on_the_way cancelled a h = cancels_on_the_way
can_transition-Step arrived cancelled a h = cancels_arrived
can_transition-Step from to a h = absurd (cc h)

pub status_eq_sound : (a b : Status) → status_eq a b ≡ true → a ≡ b
status_eq_sound waiting waiting h = refl
status_eq_sound matched matched h = refl
status_eq_sound on_the_way on_the_way h = refl
status_eq_sound arrived arrived h = refl
status_eq_sound completed completed h = refl
status_eq_sound cancelled cancelled h = refl
status_eq_sound unknown_status unknown_status h = refl
status_eq_sound a b h = absurd (cc h)

-- The request is still there, its device's, and its status has gone by at most one step.
pub record Follows (t : Tables) (id : ℕ) (r : Request) : Type 0 where
  pub row : Request
  pub found : find (request_is id) t.requests ≡ some row
  pub owner : row.device_id ≡ r.device_id
  pub move : Moves r.status row.status

abbrev stays :
    (t : Tables) (id : ℕ) (r : Request) → find (request_is id) t.requests ≡ some r → Follows t id r
stays t id r h = record { row = r; found = h; owner = refl; move = stays_at }

-- An UPDATE of rows by steps.
module _ (s t : Tables) (id : ℕ) (r : Request) (found : find (request_is id) s.requests ≡ some r)
    (p : Request → Bool) (f : Request → Request) (after : t.requests ≡ update_where p f s.requests)
    (keeps : (x : Request) → request_is id (f x) ≡ request_is id x)
    (owner : (x : Request) → (f x).device_id ≡ x.device_id)
    (steps : (x : Request) → p x ≡ true → Step x.status (f x).status) where
  updated-Follows : Follows t id r
  updated-Follows = elim (Bool-cases (p r)) [
    | inl e ↦ record {
      row = f r;
      found = rw (after, find-update_where (request_is id) p f s.requests keeps, found) (rw e);
      owner = owner r;
      move = steps_to (steps r e);
    }
    | inr e ↦ record {
      row = r;
      found = rw (after, find-update_where (request_is id) p f s.requests keeps, found) (rw e);
      owner = refl;
      move = stays_at;
    }
  ]

moved-Step :
    (t : SosTransition)
    → can_transition t.from t.to t.actor ≡ true
    → (x : Request) → expected t x ≡ true
    → Step x.status (moved t x).status
unfolding expected
moved-Step t c x e =
    rw (status_eq_sound x.status t.from (ground arith)) (can_transition-Step t.from t.to t.actor c)

claimed-Step :
    (id : ℕ) (device_id : Text) (now : ℤ) (x : Request)
    → claimable id device_id x ≡ true
    → Step x.status (claimed device_id now x).status
unfolding claimable
claimed-Step id device_id now x e = rw (status_eq_sound x.status waiting (ground arith)) claims

module _ (s : Tables) (id : ℕ) (r : Request)
    (found : find (request_is id) s.requests ≡ some r) where
  CreateEnds-Follows :
      (q : Request) {e : Outcome Tables (Unit {0})}
      → CreateEnds s q e
      → Follows (store_after s e) id r
  unfolding find
  CreateEnds-Follows q (refused e) = stays s id r found
  CreateEnds-Follows q (filed fresh) = elim (Bool-cases (q.id == id)) [
    | inl e ↦ absurd (
        cc (
          any_of_found (clashes q) (request_is id) s.requests found
              (clash_id q id e r (find_sound (request_is id) s.requests found)),
          fresh,
        ))
    | inr e ↦ stays _ id r (rw e found)
  ]

  MoveEnds-Follows :
      (t : SosTransition) {e : Outcome Tables Bool}
      → MoveEnds s t e
      → can_transition t.from t.to t.actor ≡ true
      → Follows (store_after s e) id r
  MoveEnds-Follows t (stayed e) c = stays s id r found
  MoveEnds-Follows t (went there) c =
      updated-Follows s _ id r found (expected t) (moved t) refl (λ x. refl) (λ x. refl)
        (moved-Step t c)

  AcceptEnds-Follows :
      (j : ℕ) (device_id : Text) (max : ℕ) (now : ℤ) {e : Outcome Tables Bool}
      → AcceptEnds s j device_id max now e
      → Follows (store_after s e) id r
  AcceptEnds-Follows j device_id max now (lost e l0) = stays s id r found
  AcceptEnds-Follows j device_id max now (won free there) =
      updated-Follows s _ id r found (claimable j device_id) (claimed device_id now) refl
        (λ x. refl) (λ x. refl) (claimed-Step j device_id now)

-- One write deletes no request and gives none to another device, and moves a request's status by
-- at most one step of the lifecycle: waiting to matched, matched to on the way, on the way to
-- arrived, arrived to completed, back to waiting from matched or on the way, or to cancelled from
-- waiting, matched, on the way or arrived.
pub Write-Follows :
    (s t : Tables)
    → Write s t
    → (id : ℕ) (r : Request) → find (request_is id) s.requests ≡ some r
    → Follows t id r
unfolding upsert_helper update_helper_location
Write-Follows s _ (creates q w) id r f = CreateEnds-Follows s id r f q (create-ends s q)
Write-Follows s _ (moves t c) id r f = MoveEnds-Follows s id r f t (transition-ends s t) c
Write-Follows s _ (accepts j device_id now) id r f =
    AcceptEnds-Follows s id r f j device_id _ now (accept-ends s j device_id _ now)
Write-Follows s _ (saves p) id r f = stays (upsert_helper s p) id r (ground arith)
Write-Follows s _ (locates device_id lat lng at) id r f =
    stays (update_helper_location s device_id lat lng at) id r f
