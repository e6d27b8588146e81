-- ===== src/LocalService/Offer.antt =====
-- internal/domain/localservice/request.go: offers, matches, refunds and issues.
use flood_now_backend.Base.{
  ℕ, Bool, true, false, not, ◌&&◌, ◌||◌, Option, ◌++◌, is_set, ◌==◌, if◌then◌else◌,
}
use flood_now_backend.Base.Int.{ℤ, pos, ◌+ℤ◌, ltb_ℤ, leb_ℤ}
use flood_now_backend.Base.Text.{Text, rune_count}
use flood_now_backend.Apperr.{Error}
use flood_now_backend.LocalService.Provider.{field_if, fields_error, longer_than, bad_price}
use flood_now_backend.LocalService.Request.{
  Status, status_matched, status_pending_confirmation, status_eq, is_closed, Role, role_customer,
  role_eq, Request, effective, IssueReason,
}

pub data OfferStatus : Type 0 where
  offer_pending offer_selected offer_accepted offer_rejected offer_expired : OfferStatus

abbrev pub offer_number : OfferStatus → ℕ
offer_number offer_pending = 0
offer_number offer_selected = 1
offer_number offer_accepted = 2
offer_number offer_rejected = 3
offer_number offer_expired = 4

abbrev pub offer_status_eq : OfferStatus → OfferStatus → Bool
offer_status_eq a b = offer_number a == offer_number b

pub record Offer : Type 0 where
  pub id : ℕ
  pub request_id : ℕ
  pub provider_id : ℕ
  pub price_thb : Option ℤ
  pub eta_minutes : ℤ
  pub note : Option Text
  pub status : OfferStatus
  pub created_at : ℤ
  pub updated_at : ℤ

-- The switch of EffectiveOffer, on the offer's status and the request's effective one.
abbrev pub effective_offer_status : OfferStatus → Status → OfferStatus
effective_offer_status offer_selected eff =
    if status_eq eff status_pending_confirmation then offer_selected else offer_expired
effective_offer_status offer_pending eff = if is_closed eff then offer_expired else offer_pending
effective_offer_status s eff = s

unfoldable pub effective_offer : Offer → Request → ℤ → OfferStatus
unfolding effective is_closed
effective_offer o r now = effective_offer_status o.status (effective r now)

pub record OfferInput : Type 0 where
  pub price_thb : Option ℤ
  pub eta_minutes : ℤ
  pub note : Option Text

unfoldable pub validate_offer : OfferInput → Option Error
unfolding rune_count
validate_offer i = fields_error "offer is invalid" (
    field_if (bad_price i.price_thb) "price_thb"
    ++ field_if (ltb_ℤ i.eta_minutes (pos 1) || ltb_ℤ (pos 1440) i.eta_minutes) "eta_minutes"
    ++ field_if (longer_than 500 i.note) "note")

pub data MatchStatus : Type 0 where
  match_active match_completed match_cancelled : MatchStatus

abbrev pub is_active : MatchStatus → Bool
is_active match_active = true
is_active s = false

pub record Match : Type 0 where
  pub id : ℕ
  pub request_id : ℕ
  pub offer_id : ℕ
  pub provider_id : ℕ
  pub fee_credits : ℤ
  pub fee_waived : Bool
  pub status : MatchStatus
  pub cancelled_by : Option Role
  pub cancel_reason : Option Text
  pub started_travel_at : Option ℤ
  pub created_at : ℤ
  pub closed_at : Option ℤ

unfoldable pub charged : Match → Bool
charged m = not m.fee_waived && ltb_ℤ (pos 0) m.fee_credits

-- `now.Sub(created) <= grace` is `now <= created + grace`.
unfoldable pub refund_eligible : Match → Status → Role → ℤ → ℤ → Bool
unfolding charged ◌+ℤ◌
refund_eligible m request_status cancelled_by now grace =
    role_eq cancelled_by role_customer
    && is_active m.status
    && charged m
    && status_eq request_status status_matched
    && not (is_set m.started_travel_at)
    && leb_ℤ now (m.created_at +ℤ grace)

pub record Issue : Type 0 where
  pub id : ℕ
  pub match_id : ℕ
  pub request_id : ℕ
  pub reporter : Role
  pub reason : IssueReason
  pub details : Option Text
  pub status : Text
  pub created_at : ℤ
