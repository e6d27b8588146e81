-- ===== src/Service/Retries.antt =====
-- A CreateRequest that is sent again with its client id.
use flood_now_backend.Base.{
  ℕ, ◌≡◌, refl, ◌∙◌, Bool, none, ◌∷◌, arith, any, ltb, if◌then◌else◌, Bool-cases, inl, inr,
}
use flood_now_backend.Base.Int.{ℤ}
use flood_now_backend.Base.Text.{Text}
use flood_now_backend.Apperr.{conflict, ok, err}
use flood_now_backend.LocalService.Request.{
  status_open, role_customer, Request, NewRequestInput, max_open_requests_per_customer,
}
use flood_now_backend.LocalService.Wallet.{BillingPolicy}
use flood_now_backend.Postgres.Store.{insert_request_event, Store}
use flood_now_backend.Postgres.Requests.{
  clashes_request, count_open_requests, create_request, inserted_request,
}
use flood_now_backend.Service.Program.{◌>>=◌, reading, check, run, continue, transaction-run}
use flood_now_backend.Service.Views.{RequestView, view}
use flood_now_backend.Service.Customers.{create_new, file_request, new_request, customer_party}

module _ (names : ℕ → Text) (pol : BillingPolicy) (i : NewRequestInput) where
  pub view-customer :
      (s : Store) (r : Request) (now : ℤ)
      → (v : RequestView) × (run (view names pol r customer_party now) s ≡ (ok v, s))
        × (v.request ≡ r)
  unfolding view run ◌>>=◌ reading
  view-customer s r now = (_, refl, refl)

  -- The tables with the new request.
  abbrev pub filed : Store → ℕ → ℤ → Store
  filed s id now =
      insert_request_event
        (record s { requests = inserted_request (new_request pol i id now) ∷ s.requests }) id
        status_open role_customer none now

  -- A run that files a request, and one that does not.
  abbrev pub room : Store → ℤ → Bool
  room s now = ltb (count_open_requests s i.customer_user_id now) max_open_requests_per_customer

  abbrev pub clashes : Store → ℕ → ℤ → Bool
  clashes s id now = any (clashes_request (new_request pol i id now)) s.requests

  pub new-run :
      (s : Store) (id : ℕ) (now : ℤ)
      → run (create_new names pol i id now none) s ≡ (
          if room s now then run (file_request names pol (new_request pol i id now) now) s else (
            err (conflict "you already have several open service requests; cancel one first"),
            s,
          ))
  unfolding run ◌>>=◌ reading check
  new-run s id now = ground arith

  filed_or_not :
      (s : Store) (id : ℕ) (now : ℤ)
      → continue
          (create_request s (new_request pol i id now))
          (view names pol (new_request pol i id now) customer_party now)
          s
        ≡ (if clashes s id now
            then (err (conflict "this request was already sent"), s)
            else run
                (view names pol (new_request pol i id now) customer_party now)
                (filed s id now))
  unfolding create_request
  filed_or_not s id now = elim (Bool-cases (clashes s id now)) [
    | inl clash ↦ rw clash
    | inr new ↦ rw new
  ]

  pub file-run :
      (s : Store) (id : ℕ) (now : ℤ)
      → run (file_request names pol (new_request pol i id now) now) s ≡ (
          if clashes s id now
          then (err (conflict "this request was already sent"), s)
          else run (view names pol (new_request pol i id now) customer_party now) (filed s id now))
  file-run s id now =
      transaction-run (λ t. create_request t (new_request pol i id now))
        (view names pol (new_request pol i id now) customer_party now) s
      ∙ filed_or_not s id now
