-- ===== src/Service/Laws/Payments.antt =====
-- The use cases of top-ups, of the webhook and of operators are lawful.
use flood_now_backend.Base.{
  ℕ, Bool, not, ◌||◌, Option, none, some, List, ◌≡◌, refl, inl, inr, ◌⊎◌, Bool-cases,
}
use flood_now_backend.Base.Int.{ℤ}
use flood_now_backend.Base.Text.{Text, text_eq, codes, is_empty}
use flood_now_backend.Apperr.{Result, ok, err}
use flood_now_backend.LocalService.Provider.{ProviderStatus}
use flood_now_backend.LocalService.Wallet.{Topup, Package, topup_failed, topup_expired}
use flood_now_backend.Postgres.Topups.{PromptPayCharge}
use flood_now_backend.Postgres.Writes.{
  verifies, sets_status, adjusts, creates_topup, sets_payment, marks_paid, marks, marks_refunded,
}
use flood_now_backend.Service.Program.{
  Lawful, lawful_rules, bind-Lawful, reading-Lawful, transaction-Lawful, writing-Lawful,
  present-Lawful, if-Lawful, lawful_end,
}
use flood_now_backend.Service.Laws.Reads.{require_provider-Lawful}
use flood_now_backend.Service.Payments.{
  new_topup, record_charge, start_topup, PaymentEvent, topup_of_ref, topup_or_ref, topup_for,
  apply_success, failure_status, apply_failure, apply_event, handle_payment_webhook, admin_provider,
  admin_verify, admin_set_status, admin_adjust, is_intent_failure,
}

record_charge-Lawful :
    (t : Topup) (now : ℤ) (r : Result PromptPayCharge) → Lawful (record_charge t now r)
record_charge-Lawful t now (err e) =
    bind-Lawful (writing-Lawful _ (λ s. marks t.id _ now (inl refl))) (λ u. lawful_end _)
record_charge-Lawful t now (ok c) = search (lawful_rules, transaction-Lawful, sets_payment)

pub start_topup-Lawful :
    (payments : Bool) (packages : List Package) (pay : Topup → Text → Result PromptPayCharge)
    (user_id : ℕ) (email package_id : Text) (id : ℕ) (now : ℤ)
    → Lawful (start_topup payments packages pay user_id email package_id id now)
unfolding start_topup
start_topup-Lawful payments packages pay user_id email package_id id now =
    bind-Lawful (search (lawful_rules, require_provider-Lawful)) (λ p.
      bind-Lawful (present-Lawful _ _) (λ pkg.
        bind-Lawful (transaction-Lawful _ (λ s. creates_topup _ refl))
          (λ u. record_charge-Lawful (new_topup pkg p id now) now _)))

failure_status-unpaid :
    (kind : Text) → (failure_status kind ≡ topup_failed) ⊎ (failure_status kind ≡ topup_expired)
failure_status-unpaid kind =
    elim (Bool-cases (text_eq kind (codes "payment_intent.payment_failed"))) [
      | inl h ↦ rw h (inl refl)
      | inr h ↦ rw h (inr refl)
    ]

module _ (parse_uuid : Text → Option ℕ) (uuid_text : ℕ → Text) where
  topup_of_ref-Lawful : (o : Option ℕ) → Lawful (topup_of_ref parse_uuid uuid_text o)
  topup_of_ref-Lawful none = lawful_end _
  topup_of_ref-Lawful (some id) = reading-Lawful _

  topup_or_ref-Lawful :
      (ev : PaymentEvent) (o : Option Topup) → Lawful (topup_or_ref parse_uuid uuid_text ev o)
  topup_or_ref-Lawful ev (some t) = lawful_end _
  topup_or_ref-Lawful ev none = topup_of_ref-Lawful _

  topup_for-Lawful : (ev : PaymentEvent) → Lawful (topup_for parse_uuid uuid_text ev)
  unfolding topup_for
  topup_for-Lawful ev =
      if-Lawful _ (topup_or_ref-Lawful ev none)
        (bind-Lawful (reading-Lawful _) (topup_or_ref-Lawful ev))

  apply_success-Lawful :
      (ev : PaymentEvent) (now : ℤ) (o : Option Topup)
      → Lawful (apply_success parse_uuid uuid_text ev now o)
  apply_success-Lawful ev now none = lawful_end _
  apply_success-Lawful ev now (some t) = search (lawful_rules, transaction-Lawful, marks_paid)

  apply_failure-Lawful :
      (ev : PaymentEvent) (now : ℤ) (o : Option Topup)
      → Lawful (apply_failure parse_uuid uuid_text ev now o)
  apply_failure-Lawful ev now none = lawful_end _
  apply_failure-Lawful ev now (some t) =
      writing-Lawful _ (λ s. marks t.id _ now (failure_status-unpaid ev.kind))

  apply_event-Lawful :
      (ev : PaymentEvent) (now : ℤ) → Lawful (apply_event parse_uuid uuid_text ev now)
  apply_event-Lawful ev now =
      if-Lawful (text_eq ev.kind (codes "payment_intent.succeeded"))
        (if-Lawful (text_eq ev.status (codes "succeeded"))
          (bind-Lawful (topup_for-Lawful ev) (apply_success-Lawful ev now)) (lawful_end (ok tt)))
        (if-Lawful (is_intent_failure ev.kind)
          (bind-Lawful (topup_for-Lawful ev) (apply_failure-Lawful ev now))
          (if-Lawful (text_eq ev.kind (codes "charge.refunded"))
            (if-Lawful (is_empty ev.payment_intent_id || not (text_eq ev.status (codes "refunded")))
              (lawful_end (ok tt))
              (writing-Lawful _ (λ s. marks_refunded ev.payment_intent_id now)))
            (lawful_end (ok tt))))

  pub handle_payment_webhook-Lawful :
      (payments : Bool) (parsed : Result PaymentEvent) (now : ℤ)
      → Lawful (handle_payment_webhook parse_uuid uuid_text payments parsed now)
  unfolding handle_payment_webhook
  handle_payment_webhook-Lawful payments parsed now = search (lawful_rules, apply_event-Lawful)

admin_provider-Lawful : (id : ℕ) → Lawful (admin_provider id)
unfolding admin_provider
admin_provider-Lawful id = search (lawful_rules)

pub admin_verify-Lawful : (id : ℕ) (on : Bool) (now : ℤ) → Lawful (admin_verify id on now)
unfolding admin_verify
admin_verify-Lawful id on now =
    search (lawful_rules, admin_provider-Lawful, writing-Lawful, verifies)

pub admin_set_status-Lawful :
    (id : ℕ) (st : ProviderStatus) (now : ℤ) → Lawful (admin_set_status id st now)
unfolding admin_set_status
admin_set_status-Lawful id st now =
    search (lawful_rules, admin_provider-Lawful, writing-Lawful, sets_status) depth 8

pub admin_adjust-Lawful :
    (id : ℕ) (amount : ℤ) (remark : Text) (op_id : ℕ) (now : ℤ)
    → Lawful (admin_adjust id amount remark op_id now)
unfolding admin_adjust
admin_adjust-Lawful id amount remark op_id now =
    bind-Lawful (search (lawful_rules, admin_provider-Lawful) depth 8)
      (λ p. transaction-Lawful _ (λ s. adjusts _ refl))
