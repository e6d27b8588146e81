-- ===== src/Service/Quota.antt =====
-- How many requests CreateRequest lets a customer have open.
use flood_now_backend.Base.{
  ℕ, ◌≤◌, ◌≡◌, refl, ap, Bool, true, false, ◌&&◌, Option, none, some, List, [], ◌∷◌, arith, ◌==◌,
  count_by, Bool-cases, Option-cases, inl, inr,
}
use flood_now_backend.Base.Int.{ℤ, ltb_ℤ}
use flood_now_backend.Base.Text.{Text}
use flood_now_backend.Base.Float.{Float64}
use flood_now_backend.LocalService.Request.{
  Status, status_open, status_pending_confirmation, status_matched, status_on_the_way,
  status_arrived, Request, NewRequestInput, validate_request, takes_offers, is_matched,
}
use flood_now_backend.LocalService.Wallet.{BillingPolicy}
use flood_now_backend.Apperr.{ok}
use flood_now_backend.Program.{run-bind_ok}
use flood_now_backend.Postgres.Store.{Store}
use flood_now_backend.Postgres.Requests.{
  count_open_requests, counts_as_open, find_request_by_client_id,
}
use flood_now_backend.Service.Program.{◌>>=◌, reading, validated, run}
use flood_now_backend.Service.Views.{view}
use flood_now_backend.Service.Retries.{view-customer, filed, room, clashes, new-run, file-run}
use flood_now_backend.Service.Customers.{
  create_request_for, create_new, earlier_request, new_request, customer_party,
}

-- A request that its customer still waits for: it has not lapsed, or somebody does the job.
abbrev pub in_progress : ℤ → Request → Bool
in_progress now r = lives r.status
  where
    lives : Status → Bool
    lives status_open = ltb_ℤ now r.expires_at
    lives status_pending_confirmation = ltb_ℤ now r.expires_at
    lives status_matched = true
    lives status_on_the_way = true
    lives status_arrived = true
    lives st = false

abbrev pub requests_of : ℕ → ℤ → List Request → ℕ
requests_of user_id now = count_by (λ r. r.customer_user_id == user_id && in_progress now r)

counted :
    (user_id : ℕ) (now : ℤ) (rs : List Request)
    → count_by (counts_as_open user_id now) rs ≡ requests_of user_id now rs
unfolding takes_offers is_matched
counted user_id now [] = refl
counted user_id now (r ∷ rs) = ground (arith, counted user_id now rs)

module _ (names : ℕ → Text) (pol : BillingPolicy) (i : NewRequestInput) (s : Store) (id : ℕ)
    (now : ℤ) (user_id : ℕ) (few : requests_of user_id now s.requests ≤ 3) where
  -- The insert adds at most the customer's own request, which has room.
  filed-few :
      room names pol i s now ≡ true
      → requests_of user_id now (filed names pol i s id now).requests ≤ 3
  unfolding count_open_requests
  filed-few h =
      ground
        (arith, few, h, counted user_id now s.requests, counted i.customer_user_id now s.requests)

  viewed : (t : Store) (r : Request) → (run (view names pol r customer_party now) t).1 ≡ t
  viewed t r = let (v, same, e) = view-customer names pol i t r now in ap (λ x. x.1) same

  created-few :
      (o : Option Request)
      → requests_of user_id now (run (create_new names pol i id now o) s).1.requests ≤ 3
  created-few (some r) = rw (viewed s r) few
  created-few none = elim (Bool-cases (room names pol i s now)) [
    | inr full ↦ rw (new-run names pol i s id now, full) few
    | inl free ↦ elim (Bool-cases (clashes names pol i s id now)) [
      | inl clash ↦
          rw (new-run names pol i s id now, free, file-run names pol i s id now, clash) few
      | inr new ↦
          rw (new-run names pol i s id now, free, file-run names pol i s id now, new)
            (rw (viewed (filed names pol i s id now) (new_request pol i id now)) (filed-few free))
    ]
  ]

  earlier-run :
      (c : Option Text)
      → i.client_id ≡ c
      → (o : Option Request) × (run (earlier_request i) s ≡ (ok o, s))
  unfolding run reading
  earlier-run none e = rw e (none, refl)
  earlier-run (some c) e = rw e (find_request_by_client_id s i.customer_user_id c, refl)

  looked_up-few :
      requests_of user_id now
        (run (earlier_request i >>= create_new names pol i id now) s).1.requests
      ≤ 3
  looked_up-few =
      let (o, found) = earlier-run i.client_id refl in
      rw (run-bind_ok (earlier_request i) (create_new names pol i id now) s s o found)
        (created-few o)

-- A CreateRequest that nothing interrupts, whatever its input and its end, leaves every customer who
-- had at most three requests that are neither over nor lapsed with at most three of them.
pub create_request_for-few :
    (names : ℕ → Text) (pol : BillingPolicy) (f : Float64) (i : NewRequestInput) (s : Store)
    (id : ℕ) (now : ℤ) (user_id : ℕ)
    → requests_of user_id now s.requests ≤ 3
    → requests_of user_id now (run (create_request_for names pol f i id now) s).1.requests ≤ 3
unfolding create_request_for run ◌>>=◌ validated
create_request_for-few names pol f i s id now user_id few =
    elim (Option-cases (validate_request f i)) [
      | inr (e, bad) ↦ rw bad few
      | inl good ↦ rw good (looked_up-few names pol i s id now user_id few)
    ]
