-- ===== src/Examples/Money.antt =====
-- The theorems on the tables, at the job and the top-up of Scenario.

use flood_now_backend.Base.{◌≡◌, refl, true, false, none, some, ◌≤◌, any, count_by, holds}
use flood_now_backend.Base.Int.{pos, neg, ◌+ℤ◌, ◌≤ℤ◌}
use flood_now_backend.Apperr.{ok}
use flood_now_backend.LocalService.Request.{
  Request, status_eq, status_matched, status_cancelled, effective, is_closed, takes_offers,
  selection_timed_out,
}
use flood_now_backend.LocalService.Steps.{Moves}
use flood_now_backend.LocalService.Offer.{is_active}
use flood_now_backend.LocalService.Wallet.{key_eq, welcome_key, match_fee_key, top_up_key}
use flood_now_backend.Base.Text.{text_eq, codes}
use flood_now_backend.Postgres.Table.{find, update_where}
use flood_now_backend.Postgres.Store.{
  Store, empty_store, commit, rollback, result_of, store_after, get_provider, get_request,
  get_offer, get_topup, has_key, active_match_of, match_of_offer,
}
use flood_now_backend.Postgres.Ledger.{row_allowed, post, apply_to_balance, apply_ledger}
use flood_now_backend.Postgres.Providers.{create_provider}
use flood_now_backend.Postgres.Requests.{create_request, normalize, lock_request, upsert_offer}
use flood_now_backend.Postgres.Matching.{select_offer}
use flood_now_backend.Postgres.Accepting.{AcceptResult, insert_match, accept_offer, new_match}
use flood_now_backend.Postgres.Jobs.{cancel, current_match}
use flood_now_backend.Postgres.Jobs.Current.{current_match-active}
use flood_now_backend.Postgres.Topups.{
  create_topup, mismatches, intent_taken, mark_topup_paid, mark_topup_refunded,
}
use flood_now_backend.Postgres.Balance.{balance_of, ledger_sum}
use flood_now_backend.Postgres.Frames.{purse}
use flood_now_backend.Postgres.Invariants.Money.{writes-Balanced}
use flood_now_backend.Postgres.Invariants.Active.{expected_matches}
use flood_now_backend.Postgres.Invariants.Active.Steps.{writes-OneActive}
use flood_now_backend.Postgres.Invariants.Credits.{expected_fees, expected_credits}
use flood_now_backend.Postgres.Invariants.Charges.{writes-ChargedOnce}
use flood_now_backend.Postgres.Invariants.Topups.{writes-CreditedOnce}
use flood_now_backend.Postgres.Invariants.Keys.{writes-UniqueKeys}
use flood_now_backend.Postgres.Invariants.Progress.{Write-Moves, writes-closed}
use flood_now_backend.Postgres.Fee.{fee_due, made, accept_offer-balance, accept_offer-idle}
use flood_now_backend.Postgres.Refund.{cancel-refund}
use flood_now_backend.Postgres.Acceptance.{known, accept_offer-again}
use flood_now_backend.Postgres.Repeats.{apply_ledger-again, lock_request-again}
use flood_now_backend.Postgres.Settled.{mark_topup_paid-again}
use flood_now_backend.Postgres.Writes.{done, next, cancels, marks_refunded}
use flood_now_backend.Examples.Scenario.{
  registered, selected, matched, ended_job, bought, paid_up, to_selected, to_matched, to_bought,
  to_paid_up, tow_truck, flooded_car, acceptance, cancellation, refund_entry, welcome, payment,
  may_cancel,
}

-- 100 of welcome credit, the fee of 30 and its refund, and a top-up of 575.
final_balance : balance_of (get_provider paid_up 7) ≡ pos 675
unfolding mark_topup_paid create_topup cancel accept_offer select_offer upsert_offer create_request
    create_provider apply_ledger apply_to_balance row_allowed post get_provider get_request
    get_offer get_topup find update_where key_eq text_eq lock_request normalize effective
    takes_offers selection_timed_out insert_match intent_taken mismatches ◌+ℤ◌ neg
final_balance = refl

writes-Balanced_example :
    (balance_of (get_provider paid_up 7) ≡ ledger_sum 7 paid_up.ledger)
    × (pos 0 ≤ℤ balance_of (get_provider paid_up 7))
writes-Balanced_example = writes-Balanced paid_up 7 to_paid_up

writes-ChargedOnce_example :
    count_by (has_key (match_fee_key 5)) paid_up.ledger
    ≡ expected_fees (find (match_of_offer 5) paid_up.matches)
writes-ChargedOnce_example = writes-ChargedOnce paid_up 5 to_paid_up

writes-OneActive_example :
    count_by (active_match_of 3) matched.matches ≡ expected_matches (get_request matched 3)
writes-OneActive_example = writes-OneActive matched 3 to_matched

writes-CreditedOnce_example :
    count_by (has_key (top_up_key 8)) paid_up.ledger ≡ expected_credits (get_topup paid_up 8)
writes-CreditedOnce_example = writes-CreditedOnce paid_up 8 to_paid_up

writes-UniqueKeys_example : count_by (has_key (welcome_key 7)) paid_up.ledger ≤ 1
writes-UniqueKeys_example = writes-UniqueKeys paid_up (welcome_key 7) to_paid_up

current_match-active_example :
    holds (current_match matched 3) (λ m. is_active m.status)
    ≡ any (active_match_of 3) matched.matches
current_match-active_example = current_match-active matched 3

-- The request as the acceptance leaves it, and as the cancellation does.
abbrev matched_request : Request
matched_request = record flooded_car { status = status_matched; updated_at = pos 5 }

abbrev cancelled_request : Request
cancelled_request = record flooded_car {
  status = status_cancelled;
  cancel_reason = some (codes "changed_mind");
  closed_at = some (pos 6);
  updated_at = pos 6;
}

matched_there : get_request matched 3 ≡ some matched_request
unfolding accept_offer select_offer upsert_offer create_request create_provider apply_ledger
    apply_to_balance row_allowed post get_provider get_request get_offer find update_where key_eq
    text_eq lock_request normalize effective takes_offers selection_timed_out insert_match ◌+ℤ◌ neg
matched_there = refl

cancelled_there : get_request ended_job 3 ≡ some cancelled_request
unfolding cancel accept_offer select_offer upsert_offer create_request create_provider apply_ledger
    apply_to_balance row_allowed post get_provider get_request get_offer find update_where key_eq
    text_eq lock_request normalize effective takes_offers selection_timed_out insert_match ◌+ℤ◌ neg
cancelled_there = refl

Write-Moves_example :
    (q : Request) × (get_request ended_job 3 ≡ some q) × Moves status_matched q.status
Write-Moves_example =
    Write-Moves matched ended_job (cancels cancellation may_cancel) 3 matched_request matched_there

writes-closed_example :
    (q : Request) × (get_request ended_job 3 ≡ some q) × (q.status ≡ status_cancelled)
writes-closed_example =
    writes-closed ended_job ended_job 3 cancelled_request done cancelled_there
      (unfold is_closed in refl)

abbrev accepted_now : AcceptResult
accepted_now = record {
  match_made = new_match acceptance (record flooded_car { status = status_matched });
  already_accepted = false;
}

accept_commits : accept_offer selected acceptance ≡ commit (ok accepted_now) matched
unfolding accept_offer select_offer upsert_offer create_request create_provider apply_ledger
    apply_to_balance row_allowed post get_provider get_request get_offer find update_where key_eq
    text_eq lock_request normalize effective takes_offers selection_timed_out insert_match ◌+ℤ◌ neg
accept_commits = refl

accept_offer-balance_example :
    balance_of (get_provider matched 7)
    ≡ balance_of (get_provider selected 7) +ℤ neg (fee_due acceptance)
accept_offer-balance_example =
    accept_offer-balance selected matched acceptance accepted_now to_selected accept_commits refl

-- A second acceptance, with another match id and a higher fee.
accept_offer-again_example :
    (result_of (accept_offer matched (record acceptance { match_id = 10; fee = pos 60 }))
      ≡ known accepted_now.match_made)
    × (purse (
          store_after matched
            (accept_offer matched (record acceptance { match_id = 10; fee = pos 60 })))
        ≡ purse matched)
accept_offer-again_example =
    accept_offer-again selected matched acceptance
      (record acceptance { match_id = 10; fee = pos 60 }) accepted_now refl refl refl accept_commits

-- A fee that the provider cannot pay.
too_dear : made (result_of (accept_offer selected (record acceptance { fee = pos 5000 }))) ≡ false
unfolding accept_offer select_offer upsert_offer create_request create_provider apply_ledger
    apply_to_balance row_allowed post get_provider get_request get_offer find update_where key_eq
    text_eq lock_request normalize effective takes_offers selection_timed_out insert_match ◌+ℤ◌ neg
too_dear = refl

accept_offer-idle_example :
    purse (store_after selected (accept_offer selected (record acceptance { fee = pos 5000 })))
    ≡ purse selected
accept_offer-idle_example =
    accept_offer-idle selected (record acceptance { fee = pos 5000 }) too_dear

cancel_commits : cancel matched cancellation ≡ commit (ok true) ended_job
unfolding cancel accept_offer select_offer upsert_offer create_request create_provider apply_ledger
    apply_to_balance row_allowed post get_provider get_request get_offer find update_where key_eq
    text_eq lock_request normalize effective takes_offers selection_timed_out insert_match ◌+ℤ◌ neg
cancel_commits = refl

cancel-refund_example : count_by (has_key refund_entry.key) ended_job.ledger ≡ 1
cancel-refund_example =
    cancel-refund matched ended_job cancellation refund_entry to_matched refl cancel_commits

paid_commits : mark_topup_paid bought payment ≡ commit (ok true) paid_up
unfolding mark_topup_paid create_topup cancel accept_offer select_offer upsert_offer create_request
    create_provider apply_ledger apply_to_balance row_allowed post get_provider get_request
    get_offer get_topup find update_where key_eq text_eq lock_request normalize effective
    takes_offers selection_timed_out insert_match intent_taken mismatches ◌+ℤ◌ neg
paid_commits = refl

abbrev then_refunded : Store
then_refunded = (mark_topup_refunded paid_up payment.payment_intent_id (pos 20)).1

mark_topup_paid-again_example :
    mark_topup_paid then_refunded (record payment { payment_intent_id = codes "pi_2" })
    ≡ rollback (ok false)
mark_topup_paid-again_example =
    mark_topup_paid-again bought paid_up then_refunded payment
      (record payment { payment_intent_id = codes "pi_2" }) true to_bought paid_commits
      (next done (marks_refunded payment.payment_intent_id (pos 20))) refl

known_welcome : apply_ledger registered welcome ≡ ok (false, registered)
unfolding create_provider apply_ledger apply_to_balance row_allowed post get_provider find
    update_where key_eq ◌+ℤ◌ neg
known_welcome = refl

-- The provider before the welcome credit.
abbrev bare : Store
bare = store_after empty_store (create_provider empty_store tow_truck none)

first_welcome : apply_ledger bare welcome ≡ ok (true, registered)
unfolding create_provider apply_ledger apply_to_balance row_allowed post get_provider find
    update_where key_eq ◌+ℤ◌ neg
first_welcome = refl

apply_ledger-again_example : (false ≡ false) × (registered ≡ registered)
apply_ledger-again_example =
    apply_ledger-again bare welcome true false registered registered first_welcome known_welcome

locked_request : lock_request matched 3 (pos 6) ≡ some (matched_request, matched)
unfolding accept_offer select_offer upsert_offer create_request create_provider apply_ledger
    apply_to_balance row_allowed post get_provider get_request get_offer find update_where key_eq
    text_eq lock_request normalize effective takes_offers selection_timed_out insert_match ◌+ℤ◌ neg
locked_request = refl

lock_request-again_example :
    (get_request matched 3 ≡ some matched_request)
    × (status_eq (effective matched_request (pos 6)) matched_request.status ≡ true)
    × (lock_request matched 3 (pos 6) ≡ some (matched_request, matched))
lock_request-again_example =
    lock_request-again matched 3 (pos 6) matched_request matched locked_request
