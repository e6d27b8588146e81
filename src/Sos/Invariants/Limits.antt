-- ===== src/Sos/Invariants/Limits.antt =====
-- The limits of the SOS tables: one row for an id, one open request for a device, and three open
-- requests for a helper.
use flood_now_backend.Base.{
  ℕ, ◌+◌, ◌≤◌, ◌≡◌, refl, Bool, true, false, not, ◌&&◌, count_by, leb, ◌==◌, arith, any, ◌∷◌,
  if◌then◌else◌, Bool-cases, inl, inr,
}
use flood_now_backend.Base.Int.{ℤ}
use flood_now_backend.Base.Text.{Text, text_eq, text_eq_sound}
use flood_now_backend.Program.{Outcome, store_after}
use flood_now_backend.Postgres.Table.{update_where}
use flood_now_backend.Postgres.Rows.{
  count_by-update_le, count_by-update_add, count_by_mono, count_by-none,
}
use flood_now_backend.Sos.Request.{
  waiting, is_closed, can_transition, Request, is_text, max_active_assignments,
}
use flood_now_backend.Sos.Tables.{
  Tables, empty_tables, request_is, clashes, inserted, SosTransition, expected, moved, assigned_to,
  claimable, claimed, upsert_helper, update_helper_location,
}
use flood_now_backend.Sos.Writes.{
  Write, creates, moves, accepts, saves, locates, Writes, Writes-induction,
}
use flood_now_backend.Sos.Invariants.Ends.{
  CreateEnds, refused, filed, create-ends, MoveEnds, stayed, went, transition-ends, AcceptEnds,
  lost, won, accept-ends,
}
use flood_now_backend.Sos.Invariants.Rows.{can_transition-assigned}

unfoldable pub open_of : Text → Request → Bool
unfolding text_eq
open_of device_id r = text_eq r.device_id device_id && not (is_closed r.status)

pub record Limits (s : Tables) : Type 0 where
  pub one_row : (id : ℕ) → count_by (request_is id) s.requests ≤ 1
  pub one_open : (device_id : Text) → count_by (open_of device_id) s.requests ≤ 1
  pub few_assigned :
      (device_id : Text) → count_by (assigned_to device_id) s.requests ≤ max_active_assignments

-- A new row that clashes with none, with its id or its device.
pub clash_id :
    (r : Request) (id : ℕ)
    → (r.id == id) ≡ true
    → (q : Request) → request_is id q ≡ true
    → clashes r q ≡ true
unfolding clashes
clash_id r id e q h = ground arith

clash_open :
    (r : Request) (d : Text)
    → text_eq r.device_id d ≡ true
    → is_closed r.status ≡ false
    → (q : Request) → open_of d q ≡ true
    → clashes r q ≡ true
unfolding clashes open_of
clash_open r d e c q h = rw (text_eq_sound r.device_id d e) (ground arith)

module _ (s : Tables) (r : Request) (fresh : any (clashes r) s.requests ≡ false) (l : Limits s)
    (w : r.status ≡ waiting) where
  filed-one_row : (id : ℕ) → (if r.id == id then 1 else 0) + count_by (request_is id) s.requests ≤ 1
  filed-one_row id = elim (Bool-cases (r.id == id)) [
    | inl e ↦
        rw (e, count_by-none (request_is id) (clashes r) s.requests (clash_id r id e) fresh)
          (omega arith)
    | inr e ↦ rw e (omega (arith, l.one_row id))
  ]

  filed-one_open : (d : Text) → count_by (open_of d) (inserted r ∷ s.requests) ≤ 1
  unfolding open_of
  filed-one_open d = elim (Bool-cases (text_eq r.device_id d)) [
    | inl e ↦ ground (
      arith,
      w,
      count_by-none (open_of d) (clashes r) s.requests (clash_open r d e (rw w refl)) fresh,
    )
    | inr e ↦ rw e (ground (arith, l.one_open d))
  ]

CreateEnds-Limits :
    (s : Tables) (r : Request) {e : Outcome Tables (Unit {0})}
    → CreateEnds s r e
    → r.status ≡ waiting
    → Limits s
    → Limits (store_after s e)
unfolding assigned_to is_text
CreateEnds-Limits s r (refused e) w l = l
CreateEnds-Limits s r (filed fresh) w l = record {
  one_row = filed-one_row s r fresh l w;
  one_open = filed-one_open s r fresh l w;
  few_assigned = λ d. omega (arith, l.few_assigned d);
}

moved-id :
    (t : SosTransition) (id : ℕ) (r : Request)
    → request_is id (moved t r) ≡ true
    → request_is id r ≡ true
moved-id t id r h = h

moved-open :
    (t : SosTransition)
    → can_transition t.from t.to t.actor ≡ true
    → (d : Text) (r : Request) → expected t r ≡ true
    → open_of d (moved t r) ≡ true
    → open_of d r ≡ true
unfolding open_of expected
moved-open t c d r e h = ground (arith, can_transition-assigned t.from t.to t.actor c)

moved-assigned :
    (t : SosTransition)
    → can_transition t.from t.to t.actor ≡ true
    → (d : Text) (r : Request) → expected t r ≡ true
    → assigned_to d (moved t r) ≡ true
    → assigned_to d r ≡ true
unfolding assigned_to expected is_text
moved-assigned t c d r e h = ground (arith, can_transition-assigned t.from t.to t.actor c)

MoveEnds-Limits :
    (s : Tables) (t : SosTransition) {e : Outcome Tables Bool}
    → MoveEnds s t e
    → can_transition t.from t.to t.actor ≡ true
    → Limits s
    → Limits (store_after s e)
MoveEnds-Limits s t (stayed e) c l = l
MoveEnds-Limits s t (went there) c l = record {
  one_row = λ id. omega (
    arith,
    l.one_row id,
    count_by-update_le (request_is id) (expected t) (moved t) s.requests (λ r e. moved-id t id r),
  );
  one_open = λ d. omega (
    arith,
    l.one_open d,
    count_by-update_le (open_of d) (expected t) (moved t) s.requests (moved-open t c d),
  );
  few_assigned = λ d. omega (
    arith,
    l.few_assigned d,
    count_by-update_le (assigned_to d) (expected t) (moved t) s.requests (moved-assigned t c d),
  );
}

claimed-open :
    (id : ℕ) (device_id : Text) (now : ℤ) (d : Text) (r : Request)
    → claimable id device_id r ≡ true
    → open_of d (claimed device_id now r) ≡ true
    → open_of d r ≡ true
unfolding open_of claimable
claimed-open id device_id now d r e h = ground arith

pub expected-id : (t : SosTransition) (r : Request) → expected t r ≡ true → request_is t.id r ≡ true
unfolding expected
expected-id t r e = ground arith

pub claimable-id :
    (id : ℕ) (device_id : Text) (r : Request)
    → claimable id device_id r ≡ true
    → request_is id r ≡ true
unfolding claimable
claimable-id id device_id r e = ground arith

-- Another helper's assignments do not change.
claimed-assigned_ne :
    (id : ℕ) (device_id : Text) (now : ℤ) (d : Text)
    → text_eq device_id d ≡ false
    → (r : Request) → claimable id device_id r ≡ true
    → assigned_to d (claimed device_id now r) ≡ true
    → assigned_to d r ≡ true
unfolding assigned_to is_text
claimed-assigned_ne id device_id now d ne r e h = ground arith

module _ (s : Tables) (id : ℕ) (device_id : Text) (now : ℤ)
    (free : leb max_active_assignments (count_by (assigned_to device_id) s.requests) ≡ false)
    (l : Limits s) where
  won-assigned :
      (d : Text)
      → count_by
          (assigned_to d)
          (update_where (claimable id device_id) (claimed device_id now) s.requests)
        ≤ max_active_assignments
  won-assigned d = elim (Bool-cases (text_eq device_id d)) [
    | inl e ↦ rw (← text_eq_sound device_id d e) (
        ground (
          arith,
          free,
          count_by-update_add (assigned_to device_id) (claimable id device_id)
              (claimed device_id now) s.requests,
          count_by_mono (claimable id device_id) (request_is id) s.requests
              (claimable-id id device_id),
          l.one_row id,
        ))
    | inr ne ↦ omega (
      arith,
      l.few_assigned d,
      count_by-update_le (assigned_to d) (claimable id device_id) (claimed device_id now) s.requests
          (claimed-assigned_ne id device_id now d ne),
    )
  ]

AcceptEnds-Limits :
    (s : Tables) (id : ℕ) (device_id : Text) (now : ℤ) {e : Outcome Tables Bool}
    → AcceptEnds s id device_id max_active_assignments now e
    → Limits s
    → Limits (store_after s e)
AcceptEnds-Limits s id device_id now (lost e l0) l = l
AcceptEnds-Limits s id device_id now (won free there) l = record {
  one_row = λ j. omega (
    arith,
    l.one_row j,
    count_by-update_le (request_is j) (claimable id device_id) (claimed device_id now) s.requests
        (λ r e h. h),
  );
  one_open = λ d. omega (
    arith,
    l.one_open d,
    count_by-update_le (open_of d) (claimable id device_id) (claimed device_id now) s.requests
        (claimed-open id device_id now d),
  );
  few_assigned = won-assigned s id device_id now free l;
}

same_requests-Limits : (s t : Tables) → t.requests ≡ s.requests → Limits s → Limits t
same_requests-Limits s t e l = record {
  one_row = λ id. rw e (l.one_row id);
  one_open = λ d. rw e (l.one_open d);
  few_assigned = λ d. rw e (l.few_assigned d);
}

Write-Limits : (s t : Tables) → Write s t → Limits s → Limits t
unfolding upsert_helper update_helper_location
Write-Limits s _ (creates r w) l = CreateEnds-Limits s r (create-ends s r) w l
Write-Limits s _ (moves t c) l = MoveEnds-Limits s t (transition-ends s t) c l
Write-Limits s _ (accepts id device_id now) l =
    AcceptEnds-Limits s id device_id now (accept-ends s id device_id _ now) l
Write-Limits s _ (saves p) l = same_requests-Limits s _ (ground arith) l
Write-Limits s _ (locates device_id lat lng at) l = same_requests-Limits s _ refl l

-- After any sequence of writes from the empty tables there is at most one request with an id, at most
-- one open request of a device, and no helper holds more than three assigned requests.
pub writes-Limits : (s : Tables) → Writes empty_tables s → Limits s
writes-Limits s w = Writes-induction Limits Write-Limits w (record {
  one_row = λ id. omega arith;
  one_open = λ d. omega arith;
  few_assigned = λ d. omega arith;
})
