-- ===== src/Postgres/Store.antt =====
-- The tables of the local services, and how a transaction ends.
use flood_now_backend.Base.{ℕ, Bool, ◌&&◌, Option, List, [], ◌∷◌, ◌==◌}
use flood_now_backend.Base.Int.{ℤ}
use flood_now_backend.Base.Text.{Text}
use flood_now_backend.Program.{Outcome}
pub use flood_now_backend.Program.{commit, rollback, result_of, store_after}
use flood_now_backend.LocalService.Provider.{Provider}
use flood_now_backend.LocalService.Request.{Request, Status, Role, Event}
use flood_now_backend.LocalService.Offer.{Offer, Match, is_active, Issue}
use flood_now_backend.LocalService.Wallet.{Transaction, Key, key_eq, Topup}
use flood_now_backend.Postgres.Table.{find}

-- Newest rows first where a table is only appended to (ledger, events).
pub record Store : Type 0 where
  pub providers : List Provider
  pub requests : List Request
  pub events : List Event
  pub dismissals : List (ℕ × ℕ)
  pub offers : List Offer
  pub matches : List Match
  pub issues : List Issue
  pub topups : List Topup
  pub ledger : List Transaction

abbrev pub empty_store : Store
empty_store = record {
  providers = [];
  requests = [];
  events = [];
  dismissals = [];
  offers = [];
  matches = [];
  issues = [];
  topups = [];
  ledger = [];
}

-- How a transaction on these tables ends.
abbrev pub Ended {ℓ} : Type ℓ → Type ℓ
Ended A = Outcome Store A

-- WHERE clauses.
abbrev pub provider_is : ℕ → Provider → Bool
provider_is id p = p.id == id

abbrev pub request_is : ℕ → Request → Bool
request_is id r = r.id == id

abbrev pub offer_is : ℕ → Offer → Bool
offer_is id o = o.id == id

abbrev pub topup_is : ℕ → Topup → Bool
topup_is id t = t.id == id

abbrev pub match_of_offer : ℕ → Match → Bool
match_of_offer offer_id m = m.offer_id == offer_id

abbrev pub active_match_of : ℕ → Match → Bool
active_match_of request_id m = m.request_id == request_id && is_active m.status

abbrev pub has_key : Key → Transaction → Bool
has_key k t = key_eq t.key k

-- GetProvider, GetRequest, GetOffer, GetTopup.
unfoldable pub get_provider : Store → ℕ → Option Provider
get_provider s id = find (provider_is id) s.providers

unfoldable pub get_provider_by_owner : Store → ℕ → Option Provider
get_provider_by_owner s user_id = find (λ p. p.owner_user_id == user_id) s.providers

unfoldable pub get_request : Store → ℕ → Option Request
get_request s id = find (request_is id) s.requests

unfoldable pub get_offer : Store → ℕ → Option Offer
get_offer s id = find (offer_is id) s.offers

unfoldable pub get_topup : Store → ℕ → Option Topup
get_topup s id = find (topup_is id) s.topups

-- insertRequestEvent.
abbrev pub insert_request_event : Store → ℕ → Status → Role → Option Text → ℤ → Store
insert_request_event s id status actor note at = record s {
  events =
      record { request_id = id; status = status; actor = actor; note = note; created_at = at }
      ∷ s.events;
}
