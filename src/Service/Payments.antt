-- ===== src/Service/Payments.antt =====
-- internal/application/localservice/wallet.go: StartTopup, Topup, HandlePaymentWebhook with
-- topupFor and paymentMatches, and the operator's AdminVerify, AdminSetStatus, AdminAdjust.
use flood_now_backend.Base.{
  ℕ, Bool, not, ◌&&◌, ◌||◌, Option, none, some, List, [], ◌∷◌, holds, is_set, ◌==◌, if◌then◌else◌,
}
use flood_now_backend.Base.Int.{ℤ, pos, negsuc, ltb_ℤ, eqb_ℤ}
use flood_now_backend.Base.Text.{Text, codes, text_eq, is_empty}
use flood_now_backend.Apperr.{validation, not_found, Result, ok, err}
use flood_now_backend.LocalService.Provider.{
  Provider, ProviderStatus, provider_status_valid, trimmed, longer_than,
}
use flood_now_backend.LocalService.Wallet.{
  Topup, TopupStatus, topup_pending, topup_failed, topup_expired, topup_currency, Package,
  amount_minor, find_package, tx_admin_adjustment, adjustment_key, LedgerEntry, Transaction,
}
use flood_now_backend.Postgres.Store.{get_provider, get_topup}
use flood_now_backend.Postgres.Providers.{set_provider_verified, set_provider_status, adjust_credit}
use flood_now_backend.Postgres.Topups.{
  create_topup, PromptPayCharge, set_topup_payment, get_topup_by_payment_intent, TopupPaid,
  mark_topup_paid, mark_topup, mark_topup_refunded,
}
use flood_now_backend.Service.Program.{
  Service, finished, return, fail, reading, writing, transaction, check, present, ◌>>=◌, ◌>>◌,
}
use flood_now_backend.Service.Views.{require_provider}

abbrev pub new_topup : Package → Provider → ℕ → ℤ → Topup
new_topup pkg p id now = record {
  id = id;
  provider_id = p.id;
  package_id = pkg.id;
  amount = amount_minor pkg;
  currency = topup_currency;
  credit_amount = pkg.credits;
  status = topup_pending;
  stripe_payment_intent_id = none;
  prompt_pay_qr_data = none;
  prompt_pay_qr_image_url = none;
  paid_at = none;
  created_at = now;
  updated_at = now;
}

-- What follows Stripe's answer; no payment exists after an error.
abbrev pub record_charge : Topup → ℤ → Result PromptPayCharge → Service (Option Topup)
record_charge t now (err e) = writing (λ s. mark_topup s t.id topup_failed now) >> fail e
record_charge t now (ok c) =
    transaction (λ s. set_topup_payment s t.id c now) >> reading (λ s. get_topup s t.id)

-- payments is false where cfg.Payments is nil; create_prompt_pay is CreatePromptPay of the
-- PaymentProvider, on the top-up and the user's email.
unfoldable pub start_topup :
    Bool
    → List Package
    → (Topup → Text → Result PromptPayCharge)
    → ℕ
    → Text
    → Text
    → ℕ
    → ℤ
    → Service (Option Topup)
start_topup payments packages create_prompt_pay user_id email package_id id now =
    check payments (not_found "credit top-ups are not available")
    >> require_provider user_id
    >>= λ p.
        present (find_package packages package_id)
          (validation "package is invalid" ("package_id" ∷ []))
        >>= λ pkg.
            transaction (λ s. create_topup s (new_topup pkg p id now))
            >> record_charge (new_topup pkg p id now) now
                (create_prompt_pay (new_topup pkg p id now) email)

unfoldable pub topup : ℕ → ℕ → Service Topup
topup user_id id = require_provider user_id >>= λ p. reading (λ s. get_topup s id) >>= λ o.
    present o (not_found "top-up not found") >>= λ t.
    check (t.provider_id == p.id) (not_found "top-up not found") >> return t

-- Metadata has one key that is read: provider_id.
pub record PaymentEvent : Type 0 where
  pub kind : Text
  pub payment_intent_id : Text
  pub topup_ref : Text
  pub amount : ℤ
  pub currency : Text
  pub status : Text
  pub metadata_provider_id : Option Text

abbrev pub is_intent_failure : Text → Bool
is_intent_failure kind =
    text_eq kind (codes "payment_intent.payment_failed")
    || text_eq kind (codes "payment_intent.canceled")

abbrev pub failure_status : Text → TopupStatus
failure_status kind =
    if text_eq kind (codes "payment_intent.payment_failed") then topup_failed else topup_expired

-- The UUID library: uuid.Parse and UUID.String.
module _ (parse_uuid : Text → Option ℕ) (uuid_text : ℕ → Text) where
  abbrev pub topup_of_ref : Option ℕ → Service (Option Topup)
  topup_of_ref none = return none
  topup_of_ref (some id) = reading (λ s. get_topup s id)

  abbrev pub topup_or_ref : PaymentEvent → Option Topup → Service (Option Topup)
  topup_or_ref ev (some t) = return (some t)
  topup_or_ref ev none = topup_of_ref (parse_uuid ev.topup_ref)

  unfoldable pub topup_for : PaymentEvent → Service (Option Topup)
  topup_for ev =
      if is_empty ev.payment_intent_id
      then topup_or_ref ev none
      else (reading (λ s. get_topup_by_payment_intent s ev.payment_intent_id) >>= topup_or_ref ev)

  unfoldable pub payment_matches : Topup → PaymentEvent → Bool
  unfolding text_eq
  payment_matches t ev =
      not (holds t.stripe_payment_intent_id (λ i. not (text_eq i ev.payment_intent_id)))
      && not (holds ev.metadata_provider_id (λ pid. not (text_eq pid (uuid_text t.provider_id))))
      && eqb_ℤ ev.amount t.amount
      && text_eq ev.currency t.currency

  abbrev pub payment_of : Topup → PaymentEvent → ℤ → TopupPaid
  payment_of t ev now = record {
    topup_id = t.id;
    payment_intent_id = ev.payment_intent_id;
    amount = ev.amount;
    currency = ev.currency;
    now = now;
  }

  -- "payment_intent.succeeded", with the top-up that was found.
  abbrev pub apply_success : PaymentEvent → ℤ → Option Topup → Service (Unit {0})
  apply_success ev now none = return tt
  apply_success ev now (some t) =
      if payment_matches t ev
      then (transaction (λ s. mark_topup_paid s (payment_of t ev now)) >> return tt)
      else return tt

  abbrev pub apply_failure : PaymentEvent → ℤ → Option Topup → Service (Unit {0})
  apply_failure ev now none = return tt
  apply_failure ev now (some t) = writing (λ s. mark_topup s t.id (failure_status ev.kind) now)

  abbrev pub apply_event : PaymentEvent → ℤ → Service (Unit {0})
  apply_event ev now =
      if text_eq ev.kind (codes "payment_intent.succeeded")
      then (if text_eq ev.status (codes "succeeded")
          then (topup_for ev >>= apply_success ev now)
          else return tt)
      else if is_intent_failure ev.kind
      then (topup_for ev >>= apply_failure ev now)
      else if text_eq ev.kind (codes "charge.refunded")
      then (if is_empty ev.payment_intent_id || not (text_eq ev.status (codes "refunded"))
          then return tt
          else writing (λ s. (mark_topup_refunded s ev.payment_intent_id now).1))
      else return tt

  -- parsed is what ParseWebhook of the PaymentProvider gives for the payload and its signature.
  unfoldable pub handle_payment_webhook : Bool → Result PaymentEvent → ℤ → Service (Unit {0})
  handle_payment_webhook payments parsed now =
      check payments (not_found "not found") >> finished parsed >>= λ ev. apply_event ev now

-- adminProvider.
unfoldable pub admin_provider : ℕ → Service Provider
admin_provider id =
    reading (λ s. get_provider s id) >>= λ o. present o (not_found "service provider not found")

unfoldable pub admin_verify : ℕ → Bool → ℤ → Service (Unit {0})
admin_verify id verified now =
    admin_provider id
    >> writing (λ s. set_provider_verified s id (if verified then some now else none) now)

unfoldable pub admin_set_status : ℕ → ProviderStatus → ℤ → Service (Unit {0})
admin_set_status id status now =
    check (provider_status_valid status) (validation "status is invalid" ("status" ∷ []))
    >> admin_provider id
    >> writing (λ s. set_provider_status s id status now)

abbrev pub adjustment_allowed : ℤ → Bool
adjustment_allowed amount =
    not (eqb_ℤ amount (pos 0))
    && not (ltb_ℤ amount (negsuc 999999))
    && not (ltb_ℤ (pos 1000000) amount)

abbrev pub adjustment_entry : ℕ → ℤ → Option Text → ℕ → ℤ → LedgerEntry
adjustment_entry id amount note op_id now = record {
  provider_id = id;
  kind = tx_admin_adjustment;
  amount = amount;
  key = adjustment_key op_id;
  match_id = none;
  topup_id = none;
  note = note;
  at = now;
}

unfoldable pub admin_adjust : ℕ → ℤ → Text → ℕ → ℤ → Service Transaction
admin_adjust id amount note op_id now =
    check (adjustment_allowed amount) (validation "amount is invalid" ("amount" ∷ []))
    >> check (is_set (trimmed (some note)) && not (longer_than 500 (trimmed (some note))))
        (validation "note is required" ("note" ∷ []))
    >> admin_provider id
    >> transaction
        (λ s. adjust_credit s (adjustment_entry id amount (trimmed (some note)) op_id now))
