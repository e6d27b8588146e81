-- ===== src/Sos/Invariants/Told.antt =====
-- The list of events that an SOS is shown with, against its status.
use mathlib.Core.List.{reverse_aux}
use flood_now_backend.Base.{
  ℕ, ◌≡◌, refl, Bool, true, Option, none, some, List, [], ◌∷◌, reverse, select, Bool-cases, inl,
  inr,
}
use flood_now_backend.Base.Int.{ltb_ℤ}
use flood_now_backend.Base.Sorting.{insert_sorted, sort_by, Follows, IsSorted}
use flood_now_backend.Postgres.Table.{find}
use flood_now_backend.Sos.Request.{Request, Event, status_eq}
use flood_now_backend.Sos.Tables.{Tables, request_is, events_of}
use flood_now_backend.Sos.Invariants.Timeline.{IsTimely, event_of, agree}

abbrev pub last_of : List Event → Option Event
last_of [] = none
last_of (e ∷ []) = some e
last_of (e ∷ d ∷ es) = last_of (d ∷ es)

abbrev pub earlier : Event → Event → Bool
earlier a b = ltb_ℤ a.created_at b.created_at

-- The events of a request in the order in which they were inserted.
abbrev pub told : Tables → ℕ → List Event
told s id = reverse (select (event_of id) s.events)

insert_first :
    (e : Event) (es : List Event) → Follows earlier e es → insert_sorted earlier e es ≡ e ∷ es
unfolding insert_sorted
insert_first e [] h = refl
insert_first e (d ∷ es) h = rw h refl

sort_sorted : (es : List Event) → IsSorted earlier es → sort_by earlier es ≡ es
unfolding sort_by
sort_sorted [] h = refl
sort_sorted (e ∷ es) h = rw (sort_sorted es h.1) (insert_first e es h.0)

last_of-aux :
    (es : List Event) (d : Event) (acc : List Event)
    → last_of (reverse_aux es (d ∷ acc)) ≡ last_of (d ∷ acc)
last_of-aux [] d acc = refl
last_of-aux (c ∷ es) d acc = last_of-aux es c (d ∷ acc)

last_of-reverse : (e : Event) (es : List Event) → last_of (reverse (e ∷ es)) ≡ some e
last_of-reverse e es = last_of-aux es e []

-- The event that was inserted last is the last one told.
last_of-told :
    (id : ℕ) (es : List Event) → last_of (reverse (select (event_of id) es)) ≡ find (event_of id) es
unfolding find
last_of-told id [] = refl
last_of-told id (e ∷ es) = elim (Bool-cases (event_of id e)) [
  | inl mine ↦ rw mine (last_of-reverse e (select (event_of id) es))
  | inr other ↦ rw other (last_of-told id es)
]

last-agrees :
    (r : Request) (o : Option Event)
    → agree (some r) o ≡ true
    → (e : Event) × (o ≡ some e) × (status_eq r.status e.status ≡ true)
last-agrees r none h = absurd (cc h)
last-agrees r (some e) h = (e, refl, h)

-- On timely tables a request's list of events ends with its status, if the clock did not go back
-- between its events.
pub IsTimely-events :
    (s : Tables) (id : ℕ) (r : Request)
    → IsTimely s
    → find (request_is id) s.requests ≡ some r
    → IsSorted earlier (told s id)
    → (e : Event) × (last_of (events_of s id) ≡ some e) × (status_eq r.status e.status ≡ true)
unfolding events_of
IsTimely-events s id r h found ordered =
    rw (sort_sorted (told s id) ordered, last_of-told id s.events)
      (last-agrees r (find (event_of id) s.events) (rw found at (h id)))
