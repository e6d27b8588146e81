-- ===== src/Service/Webhooks.antt =====
-- HandlePaymentWebhook against the money: only a verified success of a matching payment counts.
use flood_now_backend.Base.{
  ℕ, ◌≡◌, refl, ap, Bool, true, false, not, ◌&&◌, ◌||◌, Option, none, some, arith, if◌then◌else◌,
  Bool-cases, inl, inr,
}
use flood_now_backend.Base.Int.{ℤ}
use flood_now_backend.Base.Text.{Text, codes, text_eq, is_empty}
use flood_now_backend.Apperr.{Error, ok, err}
use flood_now_backend.LocalService.Wallet.{Topup}
use flood_now_backend.Postgres.Store.{
  Store, Ended, commit, rollback, get_topup, result_of, store_after,
}
use flood_now_backend.Postgres.Topups.{
  get_topup_by_payment_intent, mark_topup, mark_topup_refunded, mark_topup_paid,
}
use flood_now_backend.Postgres.Frames.{money}
use flood_now_backend.Service.Program.{
  Service, return, finished, ◌>>=◌, reading, writing, transaction, check, run,
}
use flood_now_backend.Service.Payments.{
  PaymentEvent, payment_of, topup_for, payment_matches, apply_success, apply_failure, apply_event,
  handle_payment_webhook, is_intent_failure,
}

-- A verified payment_intent.succeeded.
abbrev pub is_success : PaymentEvent → Bool
is_success ev =
    text_eq ev.kind (codes "payment_intent.succeeded") && text_eq ev.status (codes "succeeded")

-- The top-up that topupFor finds.
unfoldable pub event_topup : (Text → Option ℕ) → Store → PaymentEvent → Option Topup
event_topup parse_uuid s ev = or_ref (
    if is_empty ev.payment_intent_id
    then none
    else get_topup_by_payment_intent s ev.payment_intent_id)
  where
    of_ref : Option ℕ → Option Topup
    of_ref none = none
    of_ref (some id) = get_topup s id

    or_ref : Option Topup → Option Topup
    or_ref (some t) = some t
    or_ref none = of_ref (parse_uuid ev.topup_ref)

-- A transaction whose value is dropped.
paying :
    (s : Store) (e : Ended Bool)
    → (run {0} (finished (result_of e) >>= λ _. return tt) (store_after s e)).1 ≡ store_after s e
unfolding run ◌>>=◌
paying s (commit (ok d) u) = refl
paying s (commit (err x) u) = refl
paying s (rollback (ok d)) = refl
paying s (rollback (err x)) = refl

-- Both branches of a test leave the money alone.
if-money :
    (s : Store) (b : Bool) (m n : Service (Unit {0}))
    → money (run m s).1 ≡ money s
    → money (run n s).1 ≡ money s
    → money (run (if b then m else n) s).1 ≡ money s
if-money s true m n h k = h
if-money s false m n h k = k

module _ (parse_uuid : Text → Option ℕ) (uuid_text : ℕ → Text) (ev : PaymentEvent) (now : ℤ) where
  topup_for-run :
      {B : Type 0} (k : Option Topup → Service B) (s : Store)
      → run (topup_for parse_uuid uuid_text ev >>= k) s ≡ run (k (event_topup parse_uuid s ev)) s
  unfolding topup_for event_topup run ◌>>=◌ reading
  topup_for-run k s = ground arith

  -- The top-up that the event pays.
  abbrev matching : Option Topup → Option Topup
  matching none = none
  matching (some t) = if payment_matches parse_uuid uuid_text t ev then some t else none

  abbrev pub paid_topup : Store → Option Topup
  paid_topup s = if is_success ev then matching (event_topup parse_uuid s ev) else none

  abbrev pub after_payment : Store → Option Topup → Store
  after_payment s none = s
  after_payment s (some t) =
      store_after s (mark_topup_paid s (payment_of parse_uuid uuid_text t ev now))

  success-run :
      (s : Store) (o : Option Topup)
      → (run (apply_success parse_uuid uuid_text ev now o) s).1 ≡ after_payment s (matching o)
  unfolding run ◌>>=◌ transaction
  success-run s none = refl
  success-run s (some t) = elim (Bool-cases (payment_matches parse_uuid uuid_text t ev)) [
    | inl agrees ↦
        rw agrees (paying s (mark_topup_paid s (payment_of parse_uuid uuid_text t ev now)))
    | inr differs ↦ rw differs
  ]

  failure-money :
      (s : Store) (o : Option Topup)
      → money (run (apply_failure parse_uuid uuid_text ev now o) s).1 ≡ money s
  unfolding run writing mark_topup
  failure-money s none = refl
  failure-money s (some t) = refl

  event-money :
      (s : Store)
      → money (run (apply_event parse_uuid uuid_text ev now) s).1
        ≡ money (after_payment s (paid_topup s))
  unfolding run writing mark_topup_refunded
  event-money s = elim (Bool-cases (text_eq ev.kind (codes "payment_intent.succeeded"))) [
    | inl success ↦ elim (Bool-cases (text_eq ev.status (codes "succeeded"))) [
      | inl taken ↦
          rw (success, taken)
            (rw (topup_for-run (apply_success parse_uuid uuid_text ev now) s)
              (ap money (success-run s (event_topup parse_uuid s ev))))
      | inr other ↦ rw (success, other)
    ]
    | inr no_success ↦ elim (Bool-cases (is_intent_failure ev.kind)) [
      | inl failure ↦
          rw (no_success, failure)
            (rw (topup_for-run (apply_failure parse_uuid uuid_text ev now) s)
              (failure-money s (event_topup parse_uuid s ev)))
      | inr no_failure ↦
          rw (no_success, no_failure)
            (if-money s (text_eq ev.kind (codes "charge.refunded")) _ (return tt)
              (if-money s
                (is_empty ev.payment_intent_id || not (text_eq ev.status (codes "refunded")))
                (return tt) (writing (λ u. (mark_topup_refunded u ev.payment_intent_id now).1)) refl
                refl)
              refl)
    ]
  ]

-- Whatever event a webhook brings, it moves credit only if it is a verified success of a payment
-- that matches its top-up, and then as MarkTopupPaid does; a webhook that does not verify writes
-- nothing.
pub webhook-money :
    (parse_uuid : Text → Option ℕ) (uuid_text : ℕ → Text) (ev : PaymentEvent) (now : ℤ) (e : Error)
    (s : Store)
    → (money (run (handle_payment_webhook parse_uuid uuid_text true (ok ev) now) s).1
        ≡ money (
            after_payment parse_uuid uuid_text ev now s (paid_topup parse_uuid uuid_text ev now s)))
      × (run (handle_payment_webhook parse_uuid uuid_text true (err e) now) s ≡ (err e, s))
unfolding handle_payment_webhook run ◌>>=◌ check
webhook-money parse_uuid uuid_text ev now e s = (event-money parse_uuid uuid_text ev now s, refl)
