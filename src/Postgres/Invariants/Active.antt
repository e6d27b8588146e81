-- ===== src/Postgres/Invariants/Active.antt =====
-- Active matches against the status of their request.
pub mod Offers
pub mod Steps
use flood_now_backend.Base.{
  ℕ, ◌≡◌, refl, sym, ap, ◌∙◌, Bool, true, false, ◌&&◌, Option, none, some, List, [], ◌∷◌, arith,
  any, count_by, holds, ◌==◌, ==_iff, if◌then◌else◌, Bool-cases, Option-cases, inl, inr,
}
use flood_now_backend.Base.Int.{ℤ}
use flood_now_backend.LocalService.Request.{
  Request, status_eq, is_matched, takes_offers, effective, selection_timed_out,
}
use flood_now_backend.LocalService.Offer.{Match, is_active}
use flood_now_backend.Postgres.Table.{find, update_where, find-update_key, find_sound}
use flood_now_backend.Postgres.Store.{Store, request_is, active_match_of, get_request}
use flood_now_backend.Postgres.Others.{others, jobs}
use flood_now_backend.Postgres.Requests.Ends.{
  LockEnds, current, caught_up, lock_request-ends, found_by_own_id,
}
use flood_now_backend.Postgres.Requests.{normalized, normalize, lock_found, lock_request}

abbrev pub expected_matches : Option Request → ℕ
expected_matches none = 0
expected_matches (some r) = if is_matched r.status then 1 else 0

-- A request has one active match while it is matched, on the way or arrived, and none otherwise.
abbrev pub OneActive : Store → Type 0
OneActive s =
    (id : ℕ)
    → count_by (active_match_of id) s.matches ≡ expected_matches (find (request_is id) s.requests)

-- lockRequest turns a status that takes offers into one that is not matched either.
effective-is_matched : (r : Request) (now : ℤ) → is_matched (effective r now) ≡ is_matched r.status
unfolding effective is_matched
effective-is_matched r now = ground arith

module _ (s : Store) (id0 : ℕ) (r : Request) (f : Request → Request)
    (same : (x : Request) → (f x).id ≡ x.id)
    (found : find (request_is id0) s.requests ≡ some r) where
  update-expected :
      is_matched (f r).status ≡ is_matched r.status
      → (id : ℕ)
      → expected_matches (find (request_is id) (update_where (request_is id0) f s.requests))
        ≡ expected_matches (find (request_is id) s.requests)
  update-expected keep id =
      ground (
        arith,
        find-update_key (λ (x : Request). x.id) f s.requests id0 r same found id,
        keep,
        found,
      )

LockEnds-OneActive :
    (s : Store) (id : ℕ) (now : ℤ) {r : Request} {s1 : Store}
    → LockEnds s id now r s1
    → OneActive s
    → OneActive s1
LockEnds-OneActive s id now (current r found same) a = a
LockEnds-OneActive s id now (caught_up r found differs) a = λ j.
    a j
    ∙ sym (
        update-expected s r.id r (normalized (effective r now) now) (λ x. refl)
          (found_by_own_id s.requests id found) (effective-is_matched r now) j)

pub lock_request-OneActive :
    (s : Store) (id : ℕ) (now : ℤ) {r : Request} {s1 : Store}
    → lock_request s id now ≡ some (r, s1)
    → OneActive s
    → OneActive s1
lock_request-OneActive s id now h a = LockEnds-OneActive s id now (lock_request-ends s id now h) a

pub OneActive-others : (s s' : Store) → others s' ≡ others s → OneActive s → OneActive s'
OneActive-others s s' e a id = rw (ap (λ o. o.0) e, ap (λ o. o.4) e) (a id)

pub OneActive-jobs : (s s' : Store) → jobs s' ≡ jobs s → OneActive s → OneActive s'
OneActive-jobs s s' e a id = rw (ap (λ o. o.0) e, ap (λ o. o.1) e) (a id)

-- The active match of one request is ended.
count-ended :
    (f : Match → Match) (id j : ℕ) (ms : List Match)
    → ((m : Match) → (f m).request_id ≡ m.request_id)
    → ((m : Match) → is_active (f m).status ≡ false)
    → count_by (active_match_of j) (update_where (active_match_of id) f ms)
      ≡ (if id == j then 0 else count_by (active_match_of j) ms)
unfolding update_where
count-ended f id j [] same off = ground arith
count-ended f id j (m ∷ ms) same off = ground (arith, same m, off m, count-ended f id j ms same off)

module _ (s : Store) (id0 : ℕ) (r : Request) (f : Request → Request)
    (same : (x : Request) → (f x).id ≡ x.id) (found : find (request_is id0) s.requests ≡ some r)
    (a : OneActive s) where
  -- A change of status that keeps whether the request is matched.
  pub keeps-OneActive :
      (ms : List Match)
      → ((j : ℕ) → count_by (active_match_of j) ms ≡ count_by (active_match_of j) s.matches)
      → is_matched (f r).status ≡ is_matched r.status
      → (t : Store) → t.requests ≡ update_where (request_is id0) f s.requests
      → t.matches ≡ ms
      → OneActive t
  keeps-OneActive ms counts keep t reqs mats j =
      rw (reqs, mats) (counts j ∙ a j ∙ sym (update-expected s id0 r f same found keep j))

  -- The request leaves the matched statuses, and its active match is ended.
  pub ends-OneActive :
      (g : Match → Match)
      → ((m : Match) → (g m).request_id ≡ m.request_id)
      → ((m : Match) → is_active (g m).status ≡ false)
      → is_matched (f r).status ≡ false
      → (t : Store) → t.requests ≡ update_where (request_is id0) f s.requests
      → t.matches ≡ update_where (active_match_of id0) g s.matches
      → OneActive t
  ends-OneActive g same_request off left t reqs mats j =
      rw (reqs, mats)
        (ground (
          arith,
          count-ended g id0 j s.matches same_request off,
          find-update_key (λ (x : Request). x.id) f s.requests id0 r same found j,
          a j,
          left,
        ))

  -- The request becomes matched with a new active match.
  pub gains-OneActive :
      (m : Match)
      → m.request_id ≡ id0
      → is_active m.status ≡ true
      → is_matched r.status ≡ false
      → is_matched (f r).status ≡ true
      → (t : Store) → t.requests ≡ update_where (request_is id0) f s.requests
      → t.matches ≡ m ∷ s.matches
      → OneActive t
  gains-OneActive m of_it on before after t reqs mats j =
      rw (reqs, mats)
        (ground
          (arith, find-update_key (λ (x : Request). x.id) f s.requests id0 r same found j, a j))
