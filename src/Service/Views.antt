-- ===== src/Service/Views.antt =====
-- internal/application/localservice/service.go: who a user is to a request, and what they see of
-- it (roleOf, view, GetRequest, customerRequest, requireProvider, PublicProvider).
use flood_now_backend.Base.{
  ℕ, Bool, true, false, not, ◌&&◌, ◌||◌, Option, none, some, List, [], ◌∷◌, reverse, select, is_set,
  holds, ◌==◌, if◌then◌else◌,
}
use flood_now_backend.Base.Int.{ℤ, ◌+ℤ◌, ltb_ℤ, eqb_ℤ}
use flood_now_backend.Base.Text.{Text}
use flood_now_backend.Apperr.{not_found}
use flood_now_backend.LocalService.Provider.{Provider}
use flood_now_backend.LocalService.Request.{
  Status, status_matched, status_eq, Role, role_customer, role_provider, no_role, role_eq, Request,
  effective, Event,
}
use flood_now_backend.LocalService.Offer.{
  Offer, OfferStatus, offer_pending, offer_selected, offer_accepted, offer_status_eq,
  effective_offer, Match, MatchStatus, match_cancelled, is_active, charged,
}
use flood_now_backend.LocalService.Wallet.{BillingPolicy}
use flood_now_backend.Base.Sorting.{sort_by}
use flood_now_backend.Postgres.Store.{
  Store, get_provider, get_provider_by_owner, get_request, get_offer,
}
use flood_now_backend.Postgres.Jobs.{current_match}
use flood_now_backend.Service.Program.{Service, return, reading, check, present, ◌>>=◌, ◌>>◌}

-- requireProvider.
unfoldable pub require_provider : ℕ → Service Provider
require_provider user_id = reading (λ s. get_provider_by_owner s user_id) >>= λ p.
    present p (not_found "create a service provider profile first")

-- RequestEvents, ORDER BY created_at, id: the table keeps the one inserted last first.
unfoldable pub request_events : ℕ → List Event → List Event
unfolding sort_by
request_events id es =
    sort_by (λ a b. ltb_ℤ a.created_at b.created_at) (reverse (select (λ e. e.request_id == id) es))

-- ORDER BY of OffersForRequest: the live ones first, then the price (none last), the estimate and
-- the time.
abbrev pub is_live : OfferStatus → Bool
is_live st =
    offer_status_eq st offer_pending
    || offer_status_eq st offer_selected
    || offer_status_eq st offer_accepted

abbrev pub after_price : Option ℤ → Option ℤ → Bool → Bool
after_price none none tie = tie
after_price none (some b) tie = true
after_price (some a) none tie = false
after_price (some a) (some b) tie = ltb_ℤ b a || (eqb_ℤ a b && tie)

-- Whether an offer is listed after another.
unfoldable pub listed_after : Offer → Offer → Bool
listed_after o q =
    (is_live q.status && not (is_live o.status))
    || ((not (is_live q.status) || is_live o.status)
        && not (is_live o.status && not (is_live q.status))
        && after_price o.price_thb q.price_thb (
            ltb_ℤ q.eta_minutes o.eta_minutes
            || (eqb_ℤ q.eta_minutes o.eta_minutes && ltb_ℤ q.created_at o.created_at)))

unfoldable pub insert_offer : Offer → List Offer → List Offer
unfolding listed_after
insert_offer o [] = o ∷ []
insert_offer o (q ∷ qs) =
    let rest = insert_offer o qs in if listed_after o q then q ∷ rest else o ∷ q ∷ qs

unfoldable pub offers_in_order : ℕ → List Offer → List Offer
unfolding insert_offer
offers_in_order id [] = []
offers_in_order id (o ∷ os) =
    let rest = offers_in_order id os in if o.request_id == id then insert_offer o rest else rest

-- ports.OfferWithProvider, without the distance.
pub record OfferWithProvider : Type 0 where
  pub offer : Offer
  pub provider : Provider

-- The JOIN with the offer's provider.
abbrev pub join_provider : Offer → Option Provider → List OfferWithProvider → List OfferWithProvider
join_provider o none rest = rest
join_provider o (some p) rest = record { offer = o; provider = p } ∷ rest

unfoldable pub join_providers : Store → List Offer → List OfferWithProvider
unfolding get_provider
join_providers s [] = []
join_providers s (o ∷ os) = join_provider o (get_provider s o.provider_id) (join_providers s os)

-- OffersForRequest, without the JOIN's distance column.
unfoldable pub offers_for_request : Store → ℕ → List OfferWithProvider
unfolding offers_in_order join_providers get_request
offers_for_request s id =
    if is_set (get_request s id) then join_providers s (offers_in_order id s.offers) else []

pub record OfferView : Type 0 where
  pub offer : Offer
  pub provider : Provider
  pub effective_status : OfferStatus

pub record RequestView : Type 0 where
  pub request : Request
  pub effective_status : Status
  pub role : Role
  pub events : List Event
  pub offers : List OfferView
  pub match_made : Option Match
  pub matched_offer : Option Offer
  pub provider : Option Provider
  pub customer_name : Option Text
  pub refund_until : Option ℤ

-- The caller's role, and the current match with its provider.
pub record Party : Type 0 where
  pub role : Role
  pub match_made : Option Match
  pub provider : Option Provider

abbrev pub is_cancelled : MatchStatus → Bool
is_cancelled match_cancelled = true
is_cancelled st = false

-- A cancelled match is no match.
abbrev pub unless_cancelled : Option Match → Option Match
unless_cancelled none = none
unless_cancelled (some m) = if is_cancelled m.status then none else some m

unfoldable pub decide_role : ℕ → Request → Option Match → Option Provider → Party
decide_role user_id r m p =
    if r.customer_user_id == user_id
    then record { role = role_customer; match_made = m; provider = p }
    else if holds p (λ q. q.owner_user_id == user_id)
    then record { role = role_provider; match_made = m; provider = p }
    else record { role = no_role; match_made = none; provider = none }

-- GetProvider of the match's provider, when there is a match.
abbrev pub matched_provider : Option Match → Service (Option Provider)
matched_provider none = return none
matched_provider (some m) = reading (λ s. get_provider s m.provider_id)

unfoldable pub role_of : ℕ → Request → Service Party
role_of user_id r = reading (λ s. unless_cancelled (current_match s r.id)) >>= λ m.
    matched_provider m >>= λ p. return (decide_role user_id r m p)

abbrev pub effective_offers : List OfferWithProvider → Request → ℤ → List OfferView
effective_offers [] r now = []
effective_offers (o ∷ os) r now =
    record {
      offer = o.offer;
      provider = o.provider;
      effective_status = effective_offer o.offer r now;
    }
    ∷ effective_offers os r now

-- RefundUntil.
abbrev pub refund_deadline : BillingPolicy → Request → Match → ℤ → Option ℤ
refund_deadline pol r m now =
    if charged m
      && is_active m.status
      && status_eq (effective r now) status_matched
      && not (is_set m.started_travel_at)
      && ltb_ℤ now (m.created_at +ℤ pol.refund_grace)
    then some (m.created_at +ℤ pol.refund_grace)
    else none

-- The names of the users table.
module _ (names : ℕ → Text) (pol : BillingPolicy) where
  abbrev pub base_view : Request → Party → ℤ → List Event → RequestView
  base_view r c now es = record {
    request = r;
    effective_status = effective r now;
    role = c.role;
    events = es;
    offers = [];
    match_made = c.match_made;
    matched_offer = none;
    provider = none;
    customer_name = none;
    refund_until = none;
  }

  -- What a match adds to the view of the customer, and of anyone else.
  abbrev pub with_match_view : RequestView → Party → ℤ → Option Match → Service RequestView
  with_match_view v c now none = return v
  with_match_view v c now (some m) = reading (λ s. get_offer s m.offer_id) >>= λ o.
      if role_eq c.role role_customer
      then return (record v {
        matched_offer = o;
        provider = c.provider;
        refund_until = refund_deadline pol v.request m now;
      })
      else return
          (record v { matched_offer = o; customer_name = some (names v.request.customer_user_id) })

  abbrev pub with_offers : RequestView → Party → ℤ → Service RequestView
  with_offers v c now =
      if role_eq c.role role_customer
      then (reading (λ s. offers_for_request s v.request.id) >>= λ os.
          return (record v { offers = effective_offers os v.request now }))
      else return v

  unfoldable pub view : Request → Party → ℤ → Service RequestView
  view r c now = reading (λ s. request_events r.id s.events) >>= λ es.
      with_match_view (base_view r c now es) c now c.match_made >>= λ v. with_offers v c now

  unfoldable pub get_request_view : ℕ → ℕ → ℤ → Service RequestView
  get_request_view user_id id now = reading (λ s. get_request s id) >>= λ o.
      present o (not_found "service request not found") >>= λ r. role_of user_id r >>= λ c.
      check (not (role_eq c.role no_role)) (not_found "service request not found") >> view r c now

unfoldable pub customer_request : ℕ → ℕ → Service Request
customer_request user_id id = reading (λ s. get_request s id) >>= λ o.
    present o (not_found "service request not found") >>= λ r.
    check (r.customer_user_id == user_id) (not_found "service request not found") >> return r
