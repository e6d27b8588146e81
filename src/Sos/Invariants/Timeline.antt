-- ===== src/Sos/Invariants/Timeline.antt =====
-- The timeline of an SOS against its status.
use mathlib.Core.Option
use flood_now_backend.Base.{
  ℕ, ◌≡◌, refl, Bool, true, false, Option, none, some, arith, any, ◌∷◌, ◌==◌, ==_iff, ==_refl,
  Bool-cases, inl, inr,
}
use flood_now_backend.Base.Int.{ℤ}
use flood_now_backend.Base.Text.{Text}
use flood_now_backend.Program.{Outcome, store_after}
use flood_now_backend.Postgres.Table.{
  find, update_where, change, find-update_where, find_sound, find-none-any,
}
use flood_now_backend.Postgres.Rows.{found_passes, any_mono}
use flood_now_backend.Sos.Request.{status_number, status_eq, Request, Event}
use flood_now_backend.Sos.Tables.{
  Tables, empty_tables, request_is, SosTransition, expected, moved, claimable, claimed,
  upsert_helper, update_helper_location,
}
use flood_now_backend.Sos.Writes.{
  Write, creates, moves, accepts, saves, locates, Writes, done, next,
}
use flood_now_backend.Sos.Invariants.Ends.{
  CreateEnds, refused, filed, create-ends, MoveEnds, stayed, went, transition-ends, AcceptEnds,
  lost, won, accept-ends,
}
use flood_now_backend.Sos.Invariants.Limits.{Limits, expected-id, claimable-id, writes-Limits}

abbrev pub event_of : ℕ → Event → Bool
event_of id e = e.request_id == id

-- The status of a request is that of the event that was inserted last for it, and only requests
-- have events.
abbrev pub agree : Option Request → Option Event → Bool
agree none none = true
agree none (some e) = false
agree (some r) none = false
agree (some r) (some e) = status_eq r.status e.status

abbrev pub IsTimely : Tables → Type 0
IsTimely s = (id : ℕ) → agree (find (request_is id) s.requests) (find (event_of id) s.events) ≡ true

-- An UPDATE of the one row with an id, by which a new event of that id is told.
module _ (s : Tables) (id : ℕ) (p : Request → Bool) (f : Request → Request) (e : Event)
    (mine : (r : Request) → p r ≡ true → request_is id r ≡ true)
    (keeps : (j : ℕ) (r : Request) → request_is j (f r) ≡ request_is j r)
    (told : (r : Request) → status_eq (f r).status e.status ≡ true) (key : e.request_id ≡ id)
    (there : any p s.requests ≡ true) (l : Limits s) (h : IsTimely s) where
  agree_self :
      (o : Option Request)
      → find (request_is id) s.requests ≡ o
      → agree (Option.map (change p f) o) (some e) ≡ true
  agree_self none k = absurd (
      cc (
        any_mono p (request_is id) s.requests mine there,
        find-none-any (request_is id) s.requests k,
      ))
  agree_self (some r) k =
      rw (found_passes p (request_is id) s.requests mine (l.one_row id) there k) (told r)

  agree_ne :
      (j : ℕ)
      → (id == j) ≡ false
      → (o : Option Request) → find (request_is j) s.requests ≡ o
      → agree (Option.map (change p f) o) (find (event_of j) s.events) ≡ true
  agree_ne j ne none k = rw k at (h j)
  agree_ne j ne (some r) k = elim (Bool-cases (p r)) [
    | inl e ↦ absurd (ground (arith, mine r e, find_sound (request_is j) s.requests k))
    | inr e ↦ rw e (rw k at (h j))
  ]

  updated-IsTimely :
      IsTimely (record s { requests = update_where p f s.requests; events = e ∷ s.events })
  unfolding find
  updated-IsTimely j = elim (Bool-cases (id == j)) [
    | inl same ↦
        let shown : event_of j e ≡ true = ground (arith, key) in
        rw
          (
            shown,
            find-update_where (request_is j) p f s.requests (λ r. keeps j r),
            ← (==_iff id j).0 same,
          )
          (agree_self (find (request_is id) s.requests) refl)
    | inr ne ↦
        let hidden : event_of j e ≡ false = ground (arith, key) in
        rw (hidden, find-update_where (request_is j) p f s.requests (λ r. keeps j r))
          (agree_ne j ne (find (request_is j) s.requests) refl)
  ]

CreateEnds-IsTimely :
    (s : Tables) (r : Request) {e : Outcome Tables (Unit {0})}
    → CreateEnds s r e
    → IsTimely s
    → IsTimely (store_after s e)
unfolding find
CreateEnds-IsTimely s r (refused e) h = h
CreateEnds-IsTimely s r (filed fresh) h = λ j. ground (arith, h j)

MoveEnds-IsTimely :
    (s : Tables) (t : SosTransition) {e : Outcome Tables Bool}
    → MoveEnds s t e
    → Limits s
    → IsTimely s
    → IsTimely (store_after s e)
MoveEnds-IsTimely s t (stayed e) l h = h
MoveEnds-IsTimely s t (went there) l h =
    updated-IsTimely s t.id (expected t) (moved t) _ (expected-id t) (λ j r. refl)
      (λ r. ==_refl (status_number t.to)) refl there l h

AcceptEnds-IsTimely :
    (s : Tables) (id : ℕ) (device_id : Text) (max : ℕ) (now : ℤ) {e : Outcome Tables Bool}
    → AcceptEnds s id device_id max now e
    → Limits s
    → IsTimely s
    → IsTimely (store_after s e)
AcceptEnds-IsTimely s id device_id max now (lost e l0) l h = h
AcceptEnds-IsTimely s id device_id max now (won free there) l h =
    updated-IsTimely s id (claimable id device_id) (claimed device_id now) _
      (claimable-id id device_id) (λ j r. refl) (λ r. refl) refl there l h

same_rows-IsTimely :
    (s t : Tables) → t.requests ≡ s.requests → t.events ≡ s.events → IsTimely s → IsTimely t
same_rows-IsTimely s t e k h = λ j. rw (e, k) (h j)

Write-IsTimely : (s t : Tables) → Write s t → Limits s → IsTimely s → IsTimely t
unfolding upsert_helper update_helper_location
Write-IsTimely s _ (creates r w) l h = CreateEnds-IsTimely s r (create-ends s r) h
Write-IsTimely s _ (moves t c) l h = MoveEnds-IsTimely s t (transition-ends s t) l h
Write-IsTimely s _ (accepts id device_id now) l h =
    AcceptEnds-IsTimely s id device_id _ now (accept-ends s id device_id _ now) l h
Write-IsTimely s _ (saves p) l h =
    same_rows-IsTimely s (upsert_helper s p) (ground arith) (ground arith) h
Write-IsTimely s _ (locates device_id lat lng at) l h =
    same_rows-IsTimely s (update_helper_location s device_id lat lng at) refl refl h

-- After any sequence of writes from the empty tables the event that was inserted last for a request
-- has the request's status, a request has an event, and an id that is no request's has none.
pub writes-IsTimely : (s : Tables) → Writes empty_tables s → IsTimely s
unfolding find
writes-IsTimely _ done = λ j. refl
writes-IsTimely _ (next {t = t} {u = u} w x) =
    Write-IsTimely t u x (writes-Limits t w) (writes-IsTimely t w)
