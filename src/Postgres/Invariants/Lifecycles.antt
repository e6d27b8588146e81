-- ===== src/Postgres/Invariants/Lifecycles.antt =====
-- Every write moves each request along the lifecycle only.
use mathlib.Core.Path.{subst}
use flood_now_backend.Base.{
  ℕ, ◌≡◌, refl, sym, true, not, ◌&&◌, Option, none, some, arith, ◌==◌, ==_iff, Bool-cases, inl, inr,
}
use flood_now_backend.Base.Int.{ℤ, ltb_ℤ}
use flood_now_backend.LocalService.Request.{
  Status, status_open, status_pending_confirmation, status_expired, Request, takes_offers,
  effective, selection_timed_out,
}
use flood_now_backend.LocalService.Lifecycle.{status_eq_sound}
use flood_now_backend.LocalService.Steps.{
  Step, lapses_open, lapses_selected, Moves, stays, Catches, in_time, lapsed, timed_out,
  Catches-Moves, Catches-Step,
}
use flood_now_backend.Postgres.Table.{find, update_where, find-update_key}
use flood_now_backend.Postgres.Store.{Store, request_is}
use flood_now_backend.Postgres.Requests.{lock_request, normalized}
use flood_now_backend.Postgres.Requests.Ends.{
  LockEnds, current, caught_up, lock_request-ends, found_by_own_id,
}

-- What became of a request: a row stays, and its status is reached.
abbrev pub Evolves : (Status → Status → Type 0) → Option Request → Option Request → Type 0
Evolves R none o = Unit
Evolves R (some r) none = ⊥
Evolves R (some r) (some q) = R r.status q.status

Evolves-refl :
    (R : Status → Status → Type 0) → ((a : Status) → R a a) → (o : Option Request) → Evolves R o o
Evolves-refl R at none = tt
Evolves-refl R at (some r) = at r.status

-- At most one step.
pub data Once (a : Status) : Status → Type 0 where
  not_moved : Once a a
  moved_by : {b : Status} → Step a b → Once a b

after_lock : {a b c : Status} → Catches a b → Once b c → Moves a c
after_lock h not_moved = Catches-Moves h
after_lock h (moved_by x) = Catches-Step h x

abbrev EvolvesBy : (Status → Status → Type 0) → Store → Store → Type 0
EvolvesBy R s t =
    (id : ℕ) → Evolves R (find (request_is id) s.requests) (find (request_is id) t.requests)

abbrev pub Follows : Store → Store → Type 0
Follows = EvolvesBy Moves

-- The same, of a lock, and of what a write does to a locked row.
abbrev pub Locks : Store → Store → Type 0
Locks = EvolvesBy Catches

abbrev pub MovesOnce : Store → Store → Type 0
MovesOnce = EvolvesBy Once

Evolves-after :
    (a b c : Option Request) → Evolves Catches a b → Evolves Once b c → Evolves Moves a c
Evolves-after none b c p q = tt
Evolves-after (some r) none c p q = absurd p
Evolves-after (some r) (some x) none p q = absurd q
Evolves-after (some r) (some x) (some y) p q = after_lock p q

pub Locks-then : (s t u : Store) → Locks s t → MovesOnce t u → Follows s u
Locks-then s t u p q id =
    Evolves-after (find (request_is id) s.requests) (find (request_is id) t.requests)
      (find (request_is id) u.requests) (p id) (q id)

pub MovesOnce-same : (s t : Store) → t.requests ≡ s.requests → MovesOnce s t
MovesOnce-same s t e id =
    rw e (Evolves-refl Once (λ a. not_moved) (find (request_is id) s.requests))

pub Follows-same : (s t : Store) → t.requests ≡ s.requests → Follows s t
Follows-same s t e id = rw e (Evolves-refl Moves (λ a. stays) (find (request_is id) s.requests))

pub Locks-Follows : (s t : Store) → Locks s t → Follows s t
Locks-Follows s t h = Locks-then s t t h (MovesOnce-same t t refl)

Locks-same : (s t : Store) → t.requests ≡ s.requests → Locks s t
Locks-same s t e id = rw e (Evolves-refl Catches (λ a. in_time) (find (request_is id) s.requests))

pub MovesOnce-Follows : (s t : Store) → MovesOnce s t → Follows s t
MovesOnce-Follows s t h = Locks-then s s t (Locks-same s s refl) h

pub Follows-into : (s t u : Store) → Follows s t → u.requests ≡ t.requests → Follows s u
Follows-into s t u h e id = rw e (h id)

-- One row moves, and no other.
row_moves :
    (R : Status → Status → Type 0)
    → ((a : Status) → R a a)
    → (s t : Store) (id0 : ℕ) (r : Request) (f : Request → Request)
    → ((x : Request) → (f x).id ≡ x.id)
    → find (request_is id0) s.requests ≡ some r
    → R r.status (f r).status
    → t.requests ≡ update_where (request_is id0) f s.requests
    → EvolvesBy R s t
row_moves R at s t id0 r f same found move reqs id =
    rw (reqs, find-update_key (λ (x : Request). x.id) f s.requests id0 r same found id)
      (elim (Bool-cases (id0 == id)) [
        | inl here ↦ rw (here, ← (==_iff id0 id).0 here, found) move
        | inr other ↦ rw other (Evolves-refl R at (find (request_is id) s.requests))
      ])

-- A single step of a row whose status is known.
pub Step-MovesOnce :
    (s t : Store) (id0 : ℕ) (r : Request) (f : Request → Request)
    → ((x : Request) → (f x).id ≡ x.id)
    → find (request_is id0) s.requests ≡ some r
    → Step r.status (f r).status
    → t.requests ≡ update_where (request_is id0) f s.requests
    → MovesOnce s t
Step-MovesOnce s t id0 r f same found step reqs =
    row_moves Once (λ a. not_moved) s t id0 r f same found (moved_by step) reqs

pub equal-Step : {a b c : Status} → a ≡ b → Step b c → Step a c
equal-Step {c = c} e x = subst (λ st. Step st c) (sym e) x

lapse : (a : Status) → takes_offers a ≡ true → Step a status_expired
unfolding takes_offers
lapse status_open h = lapses_open
lapse status_pending_confirmation h = lapses_selected
lapse a h = absurd (cc h)

-- lockRequest: expiry, or a selection that timed out.
effective-Catches : (r : Request) (now : ℤ) → Catches r.status (effective r now)
unfolding effective selection_timed_out
effective-Catches r now =
    elim (Bool-cases (takes_offers r.status && not (ltb_ℤ now r.expires_at))) [
      | inl late ↦ rw late (lapsed (lapse r.status (ground (arith, late))))
      | inr early ↦ elim (Bool-cases (selection_timed_out r now)) [
        | inl timeout ↦
            rw (early, timeout)
              (subst (λ st. Catches st status_open)
                (sym
                  (status_eq_sound r.status status_pending_confirmation (ground (arith, timeout))))
                timed_out)
        | inr still ↦ rw (early, still) in_time
      ]
    ]

LockEnds-Locks :
    (s : Store) (id : ℕ) (now : ℤ) {r : Request} {t : Store} → LockEnds s id now r t → Locks s t
LockEnds-Locks s id now (current r found same) = Locks-same s s refl
LockEnds-Locks s id now {t = t} (caught_up r found differs) =
    row_moves Catches (λ a. in_time) s t r.id r (normalized (effective r now) now) (λ x. refl)
      (found_by_own_id s.requests id found) (effective-Catches r now) refl

pub lock_request-Locks :
    (s : Store) (id : ℕ) (now : ℤ) {r : Request} {t : Store}
    → lock_request s id now ≡ some (r, t)
    → Locks s t
lock_request-Locks s id now h = LockEnds-Locks s id now (lock_request-ends s id now h)
