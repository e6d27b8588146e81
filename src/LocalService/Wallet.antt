-- ===== src/LocalService/Wallet.antt =====
-- internal/domain/localservice/wallet.go: the credit ledger, the billing policy and top-ups.
use flood_now_backend.Base.{
  ℕ, String, Bool, ◌&&◌, ◌||◌, Option, none, some, List, [], ◌∷◌, ◌==◌, if◌then◌else◌,
}
use flood_now_backend.Base.Int.{ℤ, pos, ltb_ℤ, scaled}
use flood_now_backend.Base.Text.{Text, codes, text_eq}

pub data TxType : Type 0 where
  tx_welcome_credit tx_top_up tx_match_fee tx_refund tx_admin_adjustment : TxType

abbrev pub tx_number : TxType → ℕ
tx_number tx_welcome_credit = 0
tx_number tx_top_up = 1
tx_number tx_match_fee = 2
tx_number tx_refund = 3
tx_number tx_admin_adjustment = 4

-- An idempotency key is the text "<event>:<uuid>". The five prefixes differ before their colon
-- and a UUID's text has a fixed form, so the pair of event and id stands for the text.
pub record Key : Type 0 where
  pub event : TxType
  pub id : ℕ

unfoldable pub key_eq : Key → Key → Bool
key_eq a b = (tx_number a.event == tx_number b.event) && (a.id == b.id)

abbrev pub welcome_key : ℕ → Key
welcome_key provider_id = record { event = tx_welcome_credit; id = provider_id }

abbrev pub match_fee_key : ℕ → Key
match_fee_key offer_id = record { event = tx_match_fee; id = offer_id }

abbrev pub refund_key : ℕ → Key
refund_key match_id = record { event = tx_refund; id = match_id }

abbrev pub top_up_key : ℕ → Key
top_up_key topup_id = record { event = tx_top_up; id = topup_id }

abbrev pub adjustment_key : ℕ → Key
adjustment_key op_id = record { event = tx_admin_adjustment; id = op_id }

-- One immutable ledger row, with its idempotency key.
pub record Transaction : Type 0 where
  pub provider_id : ℕ
  pub kind : TxType
  pub amount : ℤ
  pub balance_after : ℤ
  pub key : Key
  pub match_id : Option ℕ
  pub topup_id : Option ℕ
  pub note : Option Text
  pub created_at : ℤ

pub record LedgerEntry : Type 0 where
  pub provider_id : ℕ
  pub kind : TxType
  pub amount : ℤ
  pub key : Key
  pub match_id : Option ℕ
  pub topup_id : Option ℕ
  pub note : Option Text
  pub at : ℤ

pub record BillingPolicy : Type 0 where
  pub credit_enabled : Bool
  pub match_fee : ℤ
  pub welcome_credit : ℤ
  pub confirm_timeout : ℤ
  pub request_ttl : ℤ
  pub refund_grace : ℤ

-- The error's text, for the first rule that fails; durations are nanoseconds.
unfoldable pub validate_policy : BillingPolicy → Option String
validate_policy p =
    if ltb_ℤ p.match_fee (pos 0) || ltb_ℤ (pos 100000) p.match_fee
    then some "match fee must be 0-100000 credits"
    else if ltb_ℤ p.welcome_credit (pos 0) || ltb_ℤ (pos 100000) p.welcome_credit
    then some "welcome credit must be 0-100000 credits"
    else if ltb_ℤ p.confirm_timeout (pos 60000000000) || ltb_ℤ (pos 7200000000000) p.confirm_timeout
    then some "provider confirmation timeout must be between 1m and 2h"
    else if ltb_ℤ p.request_ttl (pos 600000000000) || ltb_ℤ (pos 604800000000000) p.request_ttl
    then some "service request TTL must be between 10m and 168h"
    else if ltb_ℤ p.refund_grace (pos 0) || ltb_ℤ (pos 86400000000000) p.refund_grace
    then some "refund grace must be between 0 and 24h"
    else none

unfoldable pub charges_match : BillingPolicy → Bool
charges_match p = p.credit_enabled && ltb_ℤ (pos 0) p.match_fee

unfoldable pub low_credit : BillingPolicy → ℤ → Bool
unfolding charges_match
low_credit p balance = charges_match p && ltb_ℤ balance p.match_fee

pub data TopupStatus : Type 0 where
  topup_pending topup_paid topup_failed topup_expired topup_refunded : TopupStatus

abbrev pub topup_number : TopupStatus → ℕ
topup_number topup_pending = 0
topup_number topup_paid = 1
topup_number topup_failed = 2
topup_number topup_expired = 3
topup_number topup_refunded = 4

abbrev pub topup_status_eq : TopupStatus → TopupStatus → Bool
topup_status_eq a b = topup_number a == topup_number b

pub record Topup : Type 0 where
  pub id : ℕ
  pub provider_id : ℕ
  pub package_id : Text
  pub amount : ℤ
  pub currency : Text
  pub credit_amount : ℤ
  pub status : TopupStatus
  pub stripe_payment_intent_id : Option Text
  pub prompt_pay_qr_data : Option Text
  pub prompt_pay_qr_image_url : Option Text
  pub paid_at : Option ℤ
  pub created_at : ℤ
  pub updated_at : ℤ

abbrev pub topup_currency : Text
topup_currency = codes "thb"

pub record Package : Type 0 where
  pub id : Text
  pub thb : ℤ
  pub credits : ℤ

-- AmountMinor, in satang: int is 64 bits wide, and ParsePackages keeps thb at most 100,000.
unfoldable pub amount_minor : Package → ℤ
amount_minor p = scaled 100 p.thb

unfoldable pub find_package : List Package → Text → Option Package
unfolding text_eq
find_package [] id = none
find_package (p ∷ ps) id = if text_eq p.id id then some p else find_package ps id
