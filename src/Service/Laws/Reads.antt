-- ===== src/Service/Laws/Reads.antt =====
-- The reads that the use cases share write nothing.
use flood_now_backend.Base.{ℕ, Option, none, some}
use flood_now_backend.Base.Int.{ℤ}
use flood_now_backend.Base.Text.{Text}
use flood_now_backend.LocalService.Request.{Request}
use flood_now_backend.LocalService.Offer.{Match}
use flood_now_backend.LocalService.Wallet.{BillingPolicy}
use flood_now_backend.Service.Program.{Lawful, lawful_rules}
use flood_now_backend.Service.Views.{
  require_provider, matched_provider, role_of, with_match_view, view, get_request_view,
  customer_request, Party, RequestView,
}

pub require_provider-Lawful : (user_id : ℕ) → Lawful (require_provider user_id)
unfolding require_provider
require_provider-Lawful user_id = search (lawful_rules)

pub customer_request-Lawful : (user_id id : ℕ) → Lawful (customer_request user_id id)
unfolding customer_request
customer_request-Lawful user_id id = search (lawful_rules)

matched_provider-Lawful : (m : Option Match) → Lawful (matched_provider m)
matched_provider-Lawful none = search (lawful_rules)
matched_provider-Lawful (some m) = search (lawful_rules)

pub role_of-Lawful : (user_id : ℕ) (r : Request) → Lawful (role_of user_id r)
unfolding role_of
role_of-Lawful user_id r = search (lawful_rules, matched_provider-Lawful)

module _ (names : ℕ → Text) (pol : BillingPolicy) where
  with_match_view-Lawful :
      (v : RequestView) (c : Party) (now : ℤ) (m : Option Match)
      → Lawful (with_match_view names pol v c now m)
  with_match_view-Lawful v c now none = search (lawful_rules)
  with_match_view-Lawful v c now (some m) = search (lawful_rules)

  pub view-Lawful : (r : Request) (c : Party) (now : ℤ) → Lawful (view names pol r c now)
  unfolding view
  view-Lawful r c now = search (lawful_rules, with_match_view-Lawful)

  pub get_request_view-Lawful :
      (user_id id : ℕ) (now : ℤ) → Lawful (get_request_view names pol user_id id now)
  unfolding get_request_view
  get_request_view-Lawful user_id id now = search (lawful_rules, role_of-Lawful, view-Lawful)
