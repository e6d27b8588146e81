-- ===== src/Examples/Cases.antt =====
-- The theorems on the use cases and on the parsing, at concrete inputs.
use flood_now_backend.Base.{◌≤◌, count_by, ◌≡◌, refl, true, false, none, List, [], ◌∷◌}
use flood_now_backend.Base.Int.{pos, ◌+ℤ◌, neg}
use flood_now_backend.Base.Text.{Text, codes, text_eq, byte_len, trim_space, is_empty, is_space}
use flood_now_backend.Apperr.{ok, err}
use flood_now_backend.LocalService.Request.{
  status_on_the_way, cancel_other, issue_no_show, takes_offers, selection_timed_out, effective,
  status_valid, cancel_reason_valid, issue_reason_valid,
}
use flood_now_backend.LocalService.Wallet.{Package}
use flood_now_backend.LocalService.Packages.{
  split_on, digits, atoi, has_id, package_allowed, parse_part, parse_parts, parse_packages,
  packages,
}
use flood_now_backend.LocalService.Packages.Parsed.{EachFits, parse_packages_sound}
use flood_now_backend.Postgres.Table.{find, update_where}
use flood_now_backend.Postgres.Store.{get_provider, get_request, get_offer}
use flood_now_backend.Postgres.Ledger.{row_allowed, post, apply_to_balance, apply_ledger}
use flood_now_backend.Postgres.Providers.{create_provider}
use flood_now_backend.Postgres.Requests.{create_request, normalize, lock_request, upsert_offer}
use flood_now_backend.Postgres.Matching.{select_offer}
use flood_now_backend.Postgres.Accepting.{insert_match, accept_offer}
use flood_now_backend.LocalService.Wallet.{key_eq}
use flood_now_backend.Postgres.Jobs.{best_match, current_match}
use flood_now_backend.Postgres.Frames.{money}
use flood_now_backend.Service.Program.{run}
use flood_now_backend.Service.Views.{get_request_view}
use flood_now_backend.Service.Customers.{update_status, cancel_for, report_issue}
use flood_now_backend.Service.Payments.{PaymentEvent, handle_payment_webhook}
use flood_now_backend.Service.Access.{may_see, hidden, stranger-NotFound}
use flood_now_backend.Service.Privacy.{view_fits, get_request_view-private}
use flood_now_backend.Service.Webhooks.{paid_topup, after_payment, webhook-money}
use flood_now_backend.Examples.Scenario.{matched, bought}
use flood_now_backend.Examples.Setting.{policy, no_names, no_uuid}

abbrev two_packages : List Package
two_packages =
    record { id = codes "a"; thb = pos 100; credits = pos 100 }
    ∷ record { id = codes "b"; thb = pos 20; credits = pos 5 }
    ∷ []

two_parse : parse_packages (codes "a:100:100, b:20:5") ≡ packages two_packages
unfolding parse_packages parse_parts parse_part split_on atoi digits has_id package_allowed
    trim_space is_space is_empty byte_len text_eq neg
two_parse = refl

parse_packages_sound_example :
    EachFits two_packages × ((id : Text) → count_by (λ p. text_eq p.id id) two_packages ≤ 1)
parse_packages_sound_example =
    parse_packages_sound (codes "a:100:100, b:20:5") two_packages two_parse

-- A user with no part in the matched request.
not_theirs : may_see matched 99 3 ≡ false
unfolding may_see accept_offer select_offer upsert_offer create_request create_provider apply_ledger
    apply_to_balance row_allowed post get_provider get_request get_offer find update_where key_eq
    text_eq lock_request normalize effective takes_offers selection_timed_out insert_match ◌+ℤ◌ neg
    current_match best_match
not_theirs = refl

stranger-NotFound_example :
    (run (get_request_view no_names policy 99 3 (pos 6)) matched ≡ (err hidden, matched))
    × (run (update_status no_names policy 99 3 status_on_the_way (pos 6)) matched
        ≡ (err hidden, matched))
    × (run (cancel_for no_names policy 99 3 cancel_other none (pos 6) (pos 0)) matched
        ≡ (err hidden, matched))
    × (run (report_issue 99 3 issue_no_show none 11 (pos 6)) matched ≡ (err hidden, matched))
stranger-NotFound_example =
    stranger-NotFound no_names policy matched 99 3 status_on_the_way cancel_other none issue_no_show
      none 11 (pos 6) (pos 0) not_theirs (unfold status_valid in refl)
      (unfold cancel_reason_valid in refl) refl (unfold issue_reason_valid in refl) refl

get_request_view-private_example :
    view_fits matched 70 3 (run (get_request_view no_names policy 70 3 (pos 6)) matched) ≡ true
get_request_view-private_example = get_request_view-private no_names policy matched 70 3 (pos 6)

abbrev success : PaymentEvent
success = record {
  kind = codes "payment_intent.succeeded";
  payment_intent_id = codes "pi_1";
  topup_ref = codes "8";
  amount = pos 50000;
  currency = codes "thb";
  status = codes "succeeded";
  metadata_provider_id = none;
}

webhook-money_example :
    (money (run (handle_payment_webhook no_uuid no_names true (ok success) (pos 8)) bought).1
      ≡ money (
          after_payment no_uuid no_names success
            (pos 8)
            bought
            (paid_topup no_uuid no_names success (pos 8) bought)))
    × (run (handle_payment_webhook no_uuid no_names true (err hidden) (pos 8)) bought
        ≡ (err hidden, bought))
webhook-money_example = webhook-money no_uuid no_names success (pos 8) hidden bought
