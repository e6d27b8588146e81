-- ===== src/Service/Laws/Working.antt =====
-- The use cases of a provider are lawful.
use flood_now_backend.Base.{ℕ, Bool, Option, none, some, arith}
use flood_now_backend.Base.Int.{ℤ}
use flood_now_backend.Base.Text.{Text}
use flood_now_backend.Base.Float.{Float64}
use flood_now_backend.LocalService.Provider.{Provider, ProviderInput}
use flood_now_backend.LocalService.Offer.{OfferInput}
use flood_now_backend.LocalService.Wallet.{BillingPolicy}
use flood_now_backend.Postgres.Writes.{
  creates_provider, updates_provider, sets_availability, dismisses, offers, rejects, accepts,
  IsWelcome,
}
use flood_now_backend.Service.Program.{
  Lawful, lawful_rules, bind-Lawful, reading-Lawful, transaction-Lawful, writing-Lawful,
}
use flood_now_backend.Service.Laws.Reads.{require_provider-Lawful, get_request_view-Lawful}
use flood_now_backend.Service.Working.{
  welcome_for, save_found, save_provider, set_availability, dismiss, own_offer, send_offer,
  accept_offer_for, reject_offer,
}

welcome_for-IsWelcome :
    (pol : BillingPolicy) (id : ℕ) (now : ℤ) → IsWelcome (welcome_for pol id now)
unfolding welcome_for
welcome_for-IsWelcome pol id now = ground arith

module _ (f : Float64) (pol : BillingPolicy) where
  save_found-Lawful :
      (i : ProviderInput) (user_id id : ℕ) (now : ℤ) (o : Option Provider)
      → Lawful (save_found pol i user_id id now o)
  save_found-Lawful i user_id id now (some p) =
      search (lawful_rules, writing-Lawful, updates_provider)
  save_found-Lawful i user_id id now none =
      bind-Lawful
        (transaction-Lawful _ (λ s. creates_provider _ _ (welcome_for-IsWelcome pol id now)))
        (λ u. reading-Lawful _)

  pub save_provider-Lawful :
      (user_id : ℕ) (i : ProviderInput) (id : ℕ) (now : ℤ)
      → Lawful (save_provider f pol user_id i id now)
  unfolding save_provider
  save_provider-Lawful user_id i id now = search (lawful_rules, save_found-Lawful)

pub set_availability-Lawful :
    (user_id : ℕ) (on : Bool) (now : ℤ) → Lawful (set_availability user_id on now)
unfolding set_availability
set_availability-Lawful user_id on now =
    search (lawful_rules, require_provider-Lawful, writing-Lawful, sets_availability)

pub dismiss-Lawful : (user_id request_id : ℕ) → Lawful (dismiss user_id request_id)
unfolding dismiss
dismiss-Lawful user_id request_id =
    search (lawful_rules, require_provider-Lawful, writing-Lawful, dismisses) depth 12

pub send_offer-Lawful :
    (f : Float64) (user_id request_id : ℕ) (i : OfferInput) (id : ℕ) (now : ℤ)
    → Lawful (send_offer f user_id request_id i id now)
unfolding send_offer
send_offer-Lawful f user_id request_id i id now =
    search (lawful_rules, require_provider-Lawful, transaction-Lawful, offers) depth 24

own_offer-Lawful : (p : Provider) (offer_id : ℕ) → Lawful (own_offer p offer_id)
own_offer-Lawful p offer_id = search (lawful_rules) depth 10

pub accept_offer_for-Lawful :
    (names : ℕ → Text) (pol : BillingPolicy) (user_id offer_id match_id : ℕ) (now : ℤ)
    → Lawful (accept_offer_for names pol user_id offer_id match_id now)
unfolding accept_offer_for
accept_offer_for-Lawful names pol user_id offer_id match_id now =
    search
      (
        lawful_rules, require_provider-Lawful, own_offer-Lawful, get_request_view-Lawful,
        transaction-Lawful, accepts,
      )
      depth 16

pub reject_offer-Lawful :
    (user_id offer_id : ℕ) (now : ℤ) → Lawful (reject_offer user_id offer_id now)
unfolding reject_offer
reject_offer-Lawful user_id offer_id now =
    search (lawful_rules, require_provider-Lawful, own_offer-Lawful, transaction-Lawful, rejects)
      depth 12
