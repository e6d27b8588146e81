-- ===== src/Service/Working.antt =====
-- internal/application/localservice/service.go, the provider's side: SaveProvider,
-- SetAvailability, Dismiss, SendOffer, AcceptOffer, RejectOffer.
use flood_now_backend.Base.{ℕ, Bool, false, not, ◌&&◌, Option, none, some, ◌==◌, if◌then◌else◌}
use flood_now_backend.Base.Int.{ℤ, pos, ltb_ℤ}
use flood_now_backend.Base.Text.{Text}
use flood_now_backend.Base.Float.{Float64}
use flood_now_backend.Apperr.{not_found, conflict}
use flood_now_backend.Base.{[]}
use flood_now_backend.LocalService.Provider.{
  Provider, ProviderInput, provider_active, validate_provider, apply_input, can_work, has_category,
  distance_m, trimmed, is_provider_active,
}
use flood_now_backend.LocalService.Request.{Request, effective, takes_offers}
use flood_now_backend.LocalService.Offer.{Offer, offer_pending, OfferInput, validate_offer}
use flood_now_backend.LocalService.Wallet.{
  BillingPolicy, charges_match, tx_welcome_credit, welcome_key, LedgerEntry,
}
use flood_now_backend.Postgres.Store.{get_provider, get_provider_by_owner, get_request, get_offer}
use flood_now_backend.Postgres.Providers.{
  create_provider, update_provider, set_provider_availability,
}
use flood_now_backend.Postgres.Requests.{dismiss_request, upsert_offer}
use flood_now_backend.Postgres.Matching.{reject_selection}
use flood_now_backend.Postgres.Accepting.{accept_offer}
use flood_now_backend.Service.Program.{
  Service, return, reading, writing, transaction, check, present, validated, ◌>>=◌, ◌>>◌,
}
use flood_now_backend.Service.Views.{RequestView, require_provider, get_request_view}

-- The profile before in.Apply: only the fields that the service sets.
abbrev pub blank_provider : ℕ → ℕ → ℤ → Provider
blank_provider id user_id now = record {
  id = id;
  owner_user_id = user_id;
  display_name = [];
  categories = [];
  description = none;
  phone = [];
  line_id = none;
  latitude = 0;
  longitude = 0;
  location_name = none;
  service_radius_m = pos 0;
  business_hours = none;
  mobile_service = false;
  available = false;
  starting_price_thb = none;
  logo_key = none;
  verified_at = none;
  status = provider_active;
  credit_balance = pos 0;
  created_at = now;
  updated_at = now;
}

unfoldable pub welcome_for : BillingPolicy → ℕ → ℤ → Option LedgerEntry
welcome_for pol id now =
    if pol.credit_enabled && ltb_ℤ (pos 0) pol.welcome_credit
    then some (record {
      provider_id = id;
      kind = tx_welcome_credit;
      amount = pol.welcome_credit;
      key = welcome_key id;
      match_id = none;
      topup_id = none;
      note = none;
      at = now;
    })
    else none

abbrev pub save_found :
    BillingPolicy → ProviderInput → ℕ → ℕ → ℤ → Option Provider → Service (Option Provider)
save_found pol i user_id id now (some p) =
    writing (λ s. update_provider s (record (apply_input i p) { updated_at = now }))
    >> reading (λ s. get_provider s p.id)
save_found pol i user_id id now none =
    transaction (λ s.
      create_provider s (apply_input i (blank_provider id user_id now)) (welcome_for pol id now))
    >> reading (λ s. get_provider s id)

unfoldable pub save_provider :
    Float64 → BillingPolicy → ℕ → ProviderInput → ℕ → ℤ → Service (Option Provider)
save_provider f pol user_id i id now =
    validated (validate_provider f i)
    >> reading (λ s. get_provider_by_owner s user_id)
    >>= save_found pol i user_id id now

unfoldable pub set_availability : ℕ → Bool → ℤ → Service (Option Provider)
set_availability user_id on now = require_provider user_id >>= λ p.
    writing (λ s. set_provider_availability s p.id on now) >> reading (λ s. get_provider s p.id)

unfoldable pub dismiss : ℕ → ℕ → Service (Unit {0})
dismiss user_id request_id = require_provider user_id >>= λ p.
    reading (λ s. get_request s request_id) >>= λ o.
    present o (not_found "service request not found") >>= λ r.
    writing (λ s. dismiss_request s request_id p.id)

-- A request that the provider may see: not their own, of their categories, within their radius.
unfoldable pub in_reach : Float64 → ℕ → Provider → Request → Bool
in_reach f user_id p r =
    not (r.customer_user_id == user_id)
    && has_category p r.category
    && not (
        f.lt (f.of_int p.service_radius_m)
          (distance_m f p.latitude p.longitude r.latitude r.longitude))

abbrev pub new_offer : OfferInput → ℕ → Request → Provider → ℤ → Offer
new_offer i id r p now = record {
  id = id;
  request_id = r.id;
  provider_id = p.id;
  price_thb = i.price_thb;
  eta_minutes = i.eta_minutes;
  note = trimmed i.note;
  status = offer_pending;
  created_at = now;
  updated_at = now;
}

unfoldable pub send_offer : Float64 → ℕ → ℕ → OfferInput → ℕ → ℤ → Service Offer
send_offer f user_id request_id i id now =
    validated (validate_offer i) >> require_provider user_id >>= λ p.
    check (can_work p) (conflict "turn on “available for jobs” to send offers")
    >> reading (λ s. get_request s request_id)
    >>= λ o. present o (not_found "service request not found") >>= λ r.
        check (in_reach f user_id p r) (not_found "service request not found")
        >> check (takes_offers (effective r now)) (conflict "this request no longer takes offers")
        >> transaction (λ s. upsert_offer s (new_offer i id r p now) now)
        >>= λ done. check done.0 (conflict "this offer can't be changed any more") >> return done.1

-- GetOffer, and `if o == nil || o.ProviderID != p.ID`.
abbrev pub own_offer : Provider → ℕ → Service Offer
own_offer p offer_id = reading (λ s. get_offer s offer_id) >>= λ maybe_offer.
    present maybe_offer (not_found "offer not found") >>= λ o.
    check (o.provider_id == p.id) (not_found "offer not found") >> return o

unfoldable pub accept_offer_for : (ℕ → Text) → BillingPolicy → ℕ → ℕ → ℕ → ℤ → Service RequestView
accept_offer_for names pol user_id offer_id match_id now = require_provider user_id >>= λ p.
    check (is_provider_active p.status) (conflict "your provider profile is suspended")
    >> own_offer p offer_id
    >>= λ o.
        transaction (λ s. accept_offer s (record {
          offer_id = o.id;
          provider_id = p.id;
          match_id = match_id;
          fee = pol.match_fee;
          charge = charges_match pol;
          now = now;
        }))
        >> get_request_view names pol user_id o.request_id now

unfoldable pub reject_offer : ℕ → ℕ → ℤ → Service (Unit {0})
reject_offer user_id offer_id now = require_provider user_id >>= λ p. own_offer p offer_id >>= λ o.
    transaction (λ s. reject_selection s o.id p.id now) >>= λ done.
    check done (conflict "this job is no longer waiting for your confirmation")
