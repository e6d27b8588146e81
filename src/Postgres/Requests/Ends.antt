-- ===== src/Postgres/Requests/Ends.antt =====
-- What lockRequest returns: the row as it is stored, or the row that it has brought up to date.
use mathlib.Core.Path.{subst}
use mathlib.Core.Option.{some-injective}
use flood_now_backend.Base.{
  ℕ, ◌≡◌, refl, sym, true, false, Option, none, some, List, arith, ==_iff, Bool-cases, inl, inr,
}
use flood_now_backend.Base.Int.{ℤ}
use flood_now_backend.LocalService.Request.{Request, status_eq, effective}
use flood_now_backend.Postgres.Table.{find, find-update_key, find_sound}
use flood_now_backend.Postgres.Store.{Store, request_is, get_request}
use flood_now_backend.Postgres.Requests.{
  normalized, normalize_store, normalize, lock_found, lock_request,
}

pub data LockEnds (s : Store) (id : ℕ) (now : ℤ) : Request → Store → Type 0 where
  current :
      (r : Request)
      → find (request_is id) s.requests ≡ some r
      → status_eq (effective r now) r.status ≡ true
      → LockEnds s id now r s
  caught_up :
      (r : Request)
      → find (request_is id) s.requests ≡ some r
      → status_eq (effective r now) r.status ≡ false
      → LockEnds s id now
          (normalized (effective r now) now r)
          (normalize_store s r (effective r now) now)

normalize-ends :
    (s : Store) (id : ℕ) (now : ℤ) (r : Request)
    → find (request_is id) s.requests ≡ some r
    → LockEnds s id now (normalize s r now).0 (normalize s r now).1
unfolding normalize
normalize-ends s id now r found = elim (Bool-cases (status_eq (effective r now) r.status)) [
  | inl same ↦ rw same (current r found same)
  | inr differs ↦ rw differs (caught_up r found differs)
]

lock_found-ends :
    (s : Store) (id : ℕ) (now : ℤ) {r : Request} {s1 : Store} (o : Option Request)
    → find (request_is id) s.requests ≡ o
    → lock_found s now o ≡ some (r, s1)
    → LockEnds s id now r s1
lock_found-ends s id now none found h = cc
lock_found-ends s id now (some r0) found h =
    subst (λ (k : Request × Store). LockEnds s id now k.0 k.1) (some-injective _ _ h)
      (normalize-ends s id now r0 found)

pub lock_request-ends :
    (s : Store) (id : ℕ) (now : ℤ) {r : Request} {s1 : Store}
    → lock_request s id now ≡ some (r, s1)
    → LockEnds s id now r s1
unfolding lock_request get_request
lock_request-ends s id now h = lock_found-ends s id now _ refl h

-- A row that is found by an id is found by its own.
pub found_by_own_id :
    (t : List Request) (id : ℕ) {r : Request}
    → find (request_is id) t ≡ some r
    → find (request_is r.id) t ≡ some r
found_by_own_id t id {r} h =
    subst (λ i. find (request_is i) t ≡ some r)
      (sym ((==_iff r.id id).0 (find_sound (request_is id) t h))) h

LockEnds-found :
    (s : Store) (id : ℕ) (now : ℤ) {r : Request} {s1 : Store}
    → LockEnds s id now r s1
    → find (request_is id) s1.requests ≡ some r
LockEnds-found s id now (current r found same) = found
LockEnds-found s id now (caught_up r found differs) = ground (
  arith,
  find-update_key (λ (x : Request). x.id) (normalized (effective r now) now) s.requests r.id r
      (λ x. refl) (found_by_own_id s.requests id found) id,
  find_sound (request_is id) s.requests found,
)

-- The row that lockRequest returns is the one that is stored when it is done.
pub lock_request-found :
    (s : Store) (id : ℕ) (now : ℤ) {r : Request} {s1 : Store}
    → lock_request s id now ≡ some (r, s1)
    → find (request_is id) s1.requests ≡ some r
lock_request-found s id now h = LockEnds-found s id now (lock_request-ends s id now h)
