-- ===== src/Service/Interleaving.antt =====
-- Any number of use cases at once: requests arrive, and the repository calls of those that are
-- under way come in any order.
use flood_now_backend.Base.{ℕ, Bool, Option, List}
use flood_now_backend.Base.Int.{ℤ}
use flood_now_backend.Base.Text.{Text}
use flood_now_backend.Base.Float.{Float64}
use flood_now_backend.Apperr.{Result, ok}
use flood_now_backend.LocalService.Provider.{ProviderInput, ProviderStatus}
use flood_now_backend.LocalService.Request.{Status, NewRequestInput, CancelReason, IssueReason}
use flood_now_backend.LocalService.Offer.{OfferInput}
use flood_now_backend.LocalService.Wallet.{BillingPolicy, Topup, Package}
use flood_now_backend.Postgres.Store.{Store, empty_store}
use flood_now_backend.Postgres.Topups.{PromptPayCharge}
use flood_now_backend.Postgres.Writes.{Writes, done, Writes-trans}
use flood_now_backend.Program.Server.{Runs, Runs-sound}
use flood_now_backend.Service.Program.{Service, return, Lawful, lawful_end, bind-Lawful, ◌>>=◌}
use flood_now_backend.Service.Customers.{
  create_request_for, select_offer_for, update_status, cancel_for, report_issue,
}
use flood_now_backend.Service.Working.{
  save_provider, set_availability, dismiss, send_offer, accept_offer_for, reject_offer,
}
use flood_now_backend.Service.Payments.{
  start_topup, PaymentEvent, handle_payment_webhook, admin_verify, admin_set_status, admin_adjust,
}
use flood_now_backend.Service.Laws.Customers.{
  create_request_for-Lawful, select_offer_for-Lawful, update_status-Lawful, cancel_for-Lawful,
  report_issue-Lawful,
}
use flood_now_backend.Service.Laws.Working.{
  save_provider-Lawful, set_availability-Lawful, dismiss-Lawful, send_offer-Lawful,
  accept_offer_for-Lawful, reject_offer-Lawful,
}
use flood_now_backend.Service.Laws.Payments.{
  start_topup-Lawful, handle_payment_webhook-Lawful, admin_verify-Lawful, admin_set_status-Lawful,
  admin_adjust-Lawful,
}

-- What the service is wired with: Config, and the code that it calls outside of the repository.
pub record Wiring : Type 0 where
  pub policy : BillingPolicy
  pub packages : List Package
  pub payments : Bool
  pub create_prompt_pay : Topup → Text → Result PromptPayCharge
  pub parse_uuid : Text → Option ℕ
  pub uuid_text : ℕ → Text
  pub names : ℕ → Text
  pub floats : Float64

-- The use cases that write, with their arguments, fresh ids and the clock's reading.
pub data Command : Type 0 where
  command_save_provider : (user_id : ℕ) (i : ProviderInput) (id : ℕ) (now : ℤ) → Command
  command_set_availability : (user_id : ℕ) (on : Bool) (now : ℤ) → Command
  command_dismiss : (user_id request_id : ℕ) → Command
  command_send_offer : (user_id request_id : ℕ) (i : OfferInput) (id : ℕ) (now : ℤ) → Command
  command_accept_offer : (user_id offer_id match_id : ℕ) (now : ℤ) → Command
  command_reject_offer : (user_id offer_id : ℕ) (now : ℤ) → Command
  command_create_request : (i : NewRequestInput) (id : ℕ) (now : ℤ) → Command
  command_select_offer : (user_id request_id offer_id : ℕ) (now : ℤ) → Command
  command_update_status : (user_id id : ℕ) (to : Status) (now : ℤ) → Command
  command_cancel :
      (user_id id : ℕ) (reason : CancelReason) (remark : Option Text) (now zero_time : ℤ) → Command
  command_report_issue :
      (user_id id : ℕ) (reason : IssueReason) (details : Option Text) (issue_id : ℕ) (now : ℤ)
      → Command
  command_start_topup : (user_id : ℕ) (email package_id : Text) (id : ℕ) (now : ℤ) → Command
  command_webhook : (parsed : Result PaymentEvent) (now : ℤ) → Command
  command_admin_verify : (id : ℕ) (on : Bool) (now : ℤ) → Command
  command_admin_set_status : (id : ℕ) (st : ProviderStatus) (now : ℤ) → Command
  command_admin_adjust : (id : ℕ) (amount : ℤ) (remark : Text) (op_id : ℕ) (now : ℤ) → Command

-- A use case whose result is sent off.
abbrev pub quietly {ℓ} : {A : Type ℓ} → Service A → Service (Unit {0})
quietly m = m >>= λ a. return tt

abbrev pub start : Wiring → Command → Service (Unit {0})
start w (command_save_provider u i id now) = quietly (save_provider w.floats w.policy u i id now)
start w (command_set_availability u on now) = quietly (set_availability u on now)
start w (command_dismiss u r) = dismiss u r
start w (command_send_offer u r i id now) = quietly (send_offer w.floats u r i id now)
start w (command_accept_offer u o m now) = quietly (accept_offer_for w.names w.policy u o m now)
start w (command_reject_offer u o now) = reject_offer u o now
start w (command_create_request i id now) =
    quietly (create_request_for w.names w.policy w.floats i id now)
start w (command_select_offer u r o now) = quietly (select_offer_for w.names w.policy u r o now)
start w (command_update_status u id to now) = quietly (update_status w.names w.policy u id to now)
start w (command_cancel u id reason remark now z) =
    quietly (cancel_for w.names w.policy u id reason remark now z)
start w (command_report_issue u id reason details i now) = report_issue u id reason details i now
start w (command_start_topup u email package_id id now) =
    quietly (start_topup w.payments w.packages w.create_prompt_pay u email package_id id now)
start w (command_webhook parsed now) =
    handle_payment_webhook w.parse_uuid w.uuid_text w.payments parsed now
start w (command_admin_verify id on now) = admin_verify id on now
start w (command_admin_set_status id st now) = admin_set_status id st now
start w (command_admin_adjust id amount remark op now) =
    quietly (admin_adjust id amount remark op now)

-- The states of the server that started on empty tables.
abbrev pub Reached : Wiring → List (Service (Unit {0})) → Store → Type 0
Reached w ms s = Runs empty_store (start w) ms s

quietly-Lawful {ℓ} : {A : Type ℓ} {m : Service A} → Lawful m → Lawful (quietly m)
quietly-Lawful h = bind-Lawful h (λ a. lawful_end (ok tt))

start-Lawful : (w : Wiring) (c : Command) → Lawful (start w c)
start-Lawful w (command_save_provider u i id now) =
    quietly-Lawful (save_provider-Lawful w.floats w.policy u i id now)
start-Lawful w (command_set_availability u on now) =
    quietly-Lawful (set_availability-Lawful u on now)
start-Lawful w (command_dismiss u r) = dismiss-Lawful u r
start-Lawful w (command_send_offer u r i id now) =
    quietly-Lawful (send_offer-Lawful w.floats u r i id now)
start-Lawful w (command_accept_offer u o m now) =
    quietly-Lawful (accept_offer_for-Lawful w.names w.policy u o m now)
start-Lawful w (command_reject_offer u o now) = reject_offer-Lawful u o now
start-Lawful w (command_create_request i id now) =
    quietly-Lawful (create_request_for-Lawful w.names w.policy w.floats i id now)
start-Lawful w (command_select_offer u r o now) =
    quietly-Lawful (select_offer_for-Lawful w.names w.policy u r o now)
start-Lawful w (command_update_status u id to now) =
    quietly-Lawful (update_status-Lawful w.names w.policy u id to now)
start-Lawful w (command_cancel u id reason remark now z) =
    quietly-Lawful (cancel_for-Lawful w.names w.policy u id reason remark now z)
start-Lawful w (command_report_issue u id reason details i now) =
    report_issue-Lawful u id reason details i now
start-Lawful w (command_start_topup u email package_id id now) =
    quietly-Lawful
      (start_topup-Lawful w.payments w.packages w.create_prompt_pay u email package_id id now)
start-Lawful w (command_webhook parsed now) =
    handle_payment_webhook-Lawful w.parse_uuid w.uuid_text w.payments parsed now
start-Lawful w (command_admin_verify id on now) = admin_verify-Lawful id on now
start-Lawful w (command_admin_set_status id st now) = admin_set_status-Lawful id st now
start-Lawful w (command_admin_adjust id amount remark op now) =
    quietly-Lawful (admin_adjust-Lawful id amount remark op now)

-- However the repository calls of any number of use cases under way interleave, the tables are
-- those of a sequence of the repository's writes from the empty tables.
pub Reached-Writes :
    (w : Wiring) (ms : List (Service (Unit {0}))) (s : Store)
    → Reached w ms s
    → Writes empty_store s
Reached-Writes w ms s r =
    Runs-sound Writes empty_store (start w) done (λ t u v. Writes-trans) (start-Lawful w) ms s r
