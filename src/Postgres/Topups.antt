-- ===== src/Postgres/Topups.antt =====
-- The top-ups of localservice_repository.go: CreateTopup, SetTopupPayment,
-- GetTopupByPaymentIntent, MarkTopupPaid, MarkTopup, MarkTopupRefundedByPaymentIntent.
pub mod Ends
use mathlib.Core.Option
use flood_now_backend.Base.{
  ℕ, Bool, true, false, not, ◌&&◌, ◌||◌, Option, none, some, ◌∷◌, any, holds, ◌==◌, if◌then◌else◌,
}
use flood_now_backend.Base.Int.{ℤ, pos, ltb_ℤ, eqb_ℤ}
use flood_now_backend.Base.Text.{Text, text_eq, is_empty}
use flood_now_backend.Apperr.{database, Result, ok, err}
use flood_now_backend.LocalService.Wallet.{
  tx_top_up, LedgerEntry, top_up_key, TopupStatus, topup_pending, topup_paid, topup_refunded,
  topup_status_eq, Topup, topup_currency,
}
use flood_now_backend.Postgres.Table.{find, update_where}
use flood_now_backend.Postgres.Store.{Store, Ended, commit, rollback, topup_is, get_topup}
use flood_now_backend.Postgres.Ledger.{apply_ledger}

-- The CHECKs of provider_topups and its primary key; the INSERT leaves the payment empty.
unfoldable pub create_topup : Store → Topup → Ended (Unit {0})
unfolding text_eq
create_topup s t =
    if any (topup_is t.id) s.topups
      || not (ltb_ℤ (pos 0) t.amount)
      || not (ltb_ℤ (pos 0) t.credit_amount)
      || not (text_eq t.currency topup_currency)
    then rollback (err (database "insert topup"))
    else commit (ok tt) (record s {
      topups =
          record t {
            stripe_payment_intent_id = none;
            prompt_pay_qr_data = none;
            prompt_pay_qr_image_url = none;
            paid_at = none;
            updated_at = t.created_at;
          }
          ∷ s.topups;
    })

pub record PromptPayCharge : Type 0 where
  pub payment_intent_id : Text
  pub qr_data : Text
  pub qr_image_url : Text

abbrev pub has_intent : Text → Topup → Bool
has_intent intent t = holds t.stripe_payment_intent_id (λ i. text_eq i intent)

-- COALESCE and NULLIF(…, '').
abbrev pub coalesce : Option Text → Text → Text
coalesce none t = t
coalesce (some s) t = s

abbrev pub null_if_empty : Text → Option Text
null_if_empty t = if is_empty t then none else some t

-- Another row has the PaymentIntent: the unique index of migrations/000012_promptpay_topups.up.sql.
unfoldable pub intent_taken : Store → Text → ℕ → Bool
unfolding text_eq
intent_taken s intent id = any (λ t. not (t.id == id) && has_intent intent t) s.topups

abbrev pub with_payment : PromptPayCharge → ℤ → Topup → Topup
with_payment c now t = record t {
  stripe_payment_intent_id = some (coalesce t.stripe_payment_intent_id c.payment_intent_id);
  prompt_pay_qr_data = some c.qr_data;
  prompt_pay_qr_image_url = null_if_empty c.qr_image_url;
  updated_at = now;
}

abbrev pub set_payment_found : Store → PromptPayCharge → ℤ → Option Topup → Ended (Unit {0})
set_payment_found s c now none = commit (ok tt) s
set_payment_found s c now (some t) =
    if intent_taken s (coalesce t.stripe_payment_intent_id c.payment_intent_id) t.id
    then rollback (err (database "set topup payment"))
    else commit (ok tt)
        (record s { topups = update_where (topup_is t.id) (with_payment c now) s.topups })

unfoldable pub set_topup_payment : Store → ℕ → PromptPayCharge → ℤ → Ended (Unit {0})
unfolding intent_taken
set_topup_payment s id c now = set_payment_found s c now (get_topup s id)

unfoldable pub get_topup_by_payment_intent : Store → Text → Option Topup
get_topup_by_payment_intent s intent = find (has_intent intent) s.topups

pub record TopupPaid : Type 0 where
  pub topup_id : ℕ
  pub payment_intent_id : Text
  pub amount : ℤ
  pub currency : Text
  pub now : ℤ

abbrev pub is_settled : TopupStatus → Bool
is_settled st = topup_status_eq st topup_paid || topup_status_eq st topup_refunded

-- The payment that was verified is not the one that the row waits for.
unfoldable pub mismatches : Topup → TopupPaid → Bool
unfolding text_eq
mismatches t p =
    holds t.stripe_payment_intent_id (λ i. not (text_eq i p.payment_intent_id))
    || not (eqb_ℤ t.amount p.amount)
    || not (text_eq t.currency p.currency)

abbrev pub topup_entry : Topup → ℤ → LedgerEntry
topup_entry t now = record {
  provider_id = t.provider_id;
  kind = tx_top_up;
  amount = t.credit_amount;
  key = top_up_key t.id;
  match_id = none;
  topup_id = some t.id;
  note = none;
  at = now;
}

abbrev pub paid_row : TopupPaid → Topup → Topup
paid_row p t = record t {
  status = topup_paid;
  stripe_payment_intent_id = some p.payment_intent_id;
  paid_at = some p.now;
  updated_at = p.now;
}

abbrev pub credited : Result (Bool × Store) → Ended Bool
credited (err e) = rollback (err e)
credited (ok (applied, s)) = commit (ok applied) s

abbrev pub with_paid : Store → TopupPaid → Topup → Store
with_paid s p t = record s { topups = update_where (topup_is t.id) (paid_row p) s.topups }

abbrev pub mark_found : Store → TopupPaid → Option Topup → Ended Bool
mark_found s p none = rollback (ok false)
mark_found s p (some t) =
    if is_settled t.status || mismatches t p
    then rollback (ok false)
    else if intent_taken s p.payment_intent_id t.id
    then rollback (err (database "mark topup paid"))
    else credited (apply_ledger (with_paid s p t) (topup_entry t p.now))

unfoldable pub mark_topup_paid : Store → TopupPaid → Ended Bool
mark_topup_paid s p = mark_found s p (get_topup s p.topup_id)

abbrev pub pending_topup : ℕ → Topup → Bool
pending_topup id t = t.id == id && topup_status_eq t.status topup_pending

unfoldable pub mark_topup : Store → ℕ → TopupStatus → ℤ → Store
mark_topup s id to now = record s {
  topups =
      update_where (pending_topup id) (λ t. record t { status = to; updated_at = now }) s.topups;
}

abbrev pub paid_by_intent : Text → Topup → Bool
paid_by_intent intent t = has_intent intent t && topup_status_eq t.status topup_paid

abbrev pub refunded_row : ℤ → Topup → Topup
refunded_row now t = record t { status = topup_refunded; updated_at = now }

-- The first row that RETURNING gives, and the store.
unfoldable pub mark_topup_refunded : Store → Text → ℤ → Option Topup × Store
unfolding text_eq
mark_topup_refunded s intent now = (
  Option.map (refunded_row now) (find (paid_by_intent intent) s.topups),
  record s { topups = update_where (paid_by_intent intent) (refunded_row now) s.topups },
)
