-- ===== src/Service/Privacy.antt =====
-- What a view of a request shows to its customer and to its provider.
use flood_now_backend.Base.{
  ℕ, ◌≡◌, Bool, true, false, not, ◌&&◌, ◌||◌, List, [], ◌∷◌, arith, is_set, holds, ◌==◌,
}
use flood_now_backend.Base.Int.{ℤ}
use flood_now_backend.Base.Text.{Text}
use flood_now_backend.Apperr.{Result, ok, err}
use flood_now_backend.LocalService.Request.{role_customer, role_provider, role_eq}
use flood_now_backend.LocalService.Wallet.{BillingPolicy}
use flood_now_backend.Postgres.Store.{Store, get_provider, get_request}
use flood_now_backend.Postgres.Jobs.{current_match}
use flood_now_backend.Service.Program.{reading, check, present, ◌>>=◌, run}
use flood_now_backend.Service.Views.{
  RequestView, unless_cancelled, decide_role, role_of, view, get_request_view,
}

-- The owner of the provider of the request's match, from the tables.
abbrev pub owns_match : Store → ℕ → ℕ → Bool
owns_match s user_id id =
    holds (unless_cancelled (current_match s id))
      (λ m. holds (get_provider s m.provider_id) (λ q. q.owner_user_id == user_id))

-- A view for the customer has no customer name; a view for the provider has neither the offers,
-- nor the provider's contact, nor the refund deadline.
abbrev pub shows_customer : ℕ → RequestView → Bool
shows_customer user_id v =
    role_eq v.role role_customer
    && v.request.customer_user_id == user_id
    && not (is_set v.customer_name)

abbrev pub no_offers : RequestView → Bool
no_offers v = is_nil v.offers
  where
    is_nil : {A : Type 0} → List A → Bool
    is_nil [] = true
    is_nil (x ∷ xs) = false

abbrev pub shows_provider : Store → ℕ → RequestView → Bool
shows_provider s user_id v =
    role_eq v.role role_provider
    && not (v.request.customer_user_id == user_id)
    && owns_match s user_id v.request.id
    && no_offers v
    && not (is_set v.provider)
    && not (is_set v.refund_until)

-- An answer without a view is for a user who has no part in the request.
abbrev pub view_fits : Store → ℕ → ℕ → Result RequestView × Store → Bool
view_fits s user_id id (ok v, t) = shows_customer user_id v || shows_provider s user_id v
view_fits s user_id id (err e, t) =
    not (holds (get_request s id) (λ r. r.customer_user_id == user_id || owns_match s user_id r.id))

-- Whoever reads a request, the view that they get is the customer's own, without the customer's
-- name, or it goes to the owner of the provider of the request's current match, who is not its
-- customer, without the offers, the provider's contact and the refund deadline; and only a user who
-- is neither gets an error.
pub get_request_view-private :
    (names : ℕ → Text) (pol : BillingPolicy) (s : Store) (user_id id : ℕ) (now : ℤ)
    → view_fits s user_id id (run (get_request_view names pol user_id id now) s) ≡ true
unfolding get_request_view view role_of decide_role run ◌>>=◌ reading present check
get_request_view-private names pol s user_id id now = ground arith
