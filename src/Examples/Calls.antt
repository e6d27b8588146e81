-- ===== src/Examples/Calls.antt =====
-- The theorems on profiles, on requests that are filed and on interleaved use cases, at concrete
-- inputs.
use mathlib.Core.Option
use flood_now_backend.Base.{◌≡◌, ◌≤◌, arith, refl, true, false, none, some, [], ◌∷◌}
use flood_now_backend.Base.Int.{pos, ◌+ℤ◌, neg}
use flood_now_backend.Base.Text.{codes, byte_len, trim_space, is_space}
use flood_now_backend.Apperr.{not_found, err}
use flood_now_backend.LocalService.Provider.{
  Provider, ProviderInput, towing, category_eq, contains_category, category_valid, bad_phone,
  bad_location,
}
use flood_now_backend.LocalService.Request.{
  NewRequestInput, validate_request, status_open, role_customer,
}
use flood_now_backend.Postgres.Table.{find, update_where}
use flood_now_backend.Postgres.Store.{
  Store, empty_store, store_after, get_provider, get_provider_by_owner,
}
use flood_now_backend.Postgres.Ledger.{row_allowed, post, apply_to_balance, apply_ledger}
use flood_now_backend.Postgres.Providers.{create_provider, set_provider_verified}
use flood_now_backend.Postgres.Requests.{create_request}
use flood_now_backend.LocalService.Wallet.{key_eq}
use flood_now_backend.Postgres.Writes.{Writes}
use flood_now_backend.Service.Program.{Service, run, reading, writing, present, ◌>>=◌, ◌>>◌}
use flood_now_backend.Service.Views.{RequestView}
use flood_now_backend.Service.Customers.{create_request_for, new_request}
use flood_now_backend.Service.Working.{save_provider}
use flood_now_backend.Service.Payments.{admin_provider, admin_verify}
use flood_now_backend.Program.Server.{at_start, arrives, turns, first}
use flood_now_backend.Service.Interleaving.{
  Wiring, command_admin_verify, start, Reached, Reached-Writes,
}
use flood_now_backend.Service.Access.{hidden}
use flood_now_backend.Service.Profiles.{standing, save_provider-standing}
use flood_now_backend.Service.Quota.{requests_of, create_request_for-few}
use flood_now_backend.Examples.Scenario.{registered, flooded_car, tow_truck}
use flood_now_backend.Examples.Setting.{flat, policy, no_names, no_uuid}

abbrev profile : ProviderInput
profile = record {
  display_name = codes "Tow and go";
  categories = towing ∷ [];
  description = none;
  phone = codes "0811";
  line_id = none;
  latitude = 0;
  longitude = 0;
  location_name = none;
  service_radius_m = pos 3000;
  business_hours = none;
  mobile_service = true;
  available = false;
  starting_price_thb = none;
  logo_key = none;
}

abbrev registered_truck : Provider
registered_truck = record tow_truck { credit_balance = pos 100 }

theirs : get_provider_by_owner registered 70 ≡ some registered_truck
unfolding get_provider_by_owner create_provider apply_ledger apply_to_balance row_allowed post
    get_provider find update_where key_eq ◌+ℤ◌ neg
theirs = refl

save_provider-standing_example :
    (Option.map standing
        (get_provider (run (save_provider flat policy 70 profile 12 (pos 9)) registered).1 7)
      ≡ Option.map standing (get_provider registered 7))
    × ((run (save_provider flat policy 70 profile 12 (pos 9)) registered).1.ledger
        ≡ registered.ledger)
save_provider-standing_example =
    save_provider-standing flat policy registered 70 profile 12 (pos 9) registered_truck 7 theirs

abbrev help : NewRequestInput
help = record {
  customer_user_id = 30;
  client_id = none;
  category = towing;
  description = none;
  vehicle_info = none;
  image_key = none;
  latitude = 0;
  longitude = 0;
  location_name = none;
  contact_phone = codes "0822";
}

help_valid : validate_request flat help ≡ none
unfolding validate_request category_valid contains_category category_eq bad_phone bad_location
    trim_space is_space byte_len
help_valid = refl

abbrev crowded : Store
crowded = record empty_store {
  requests = flooded_car ∷ record flooded_car { id = 4 } ∷ record flooded_car { id = 6 } ∷ [];
}

create_request_for-few_example :
    requests_of 30
      (pos 9)
      (run (create_request_for no_names policy flat help 12 (pos 9)) crowded).1.requests
    ≤ 3
create_request_for-few_example =
    create_request_for-few no_names policy flat help crowded 12 (pos 9) 30 (omega arith)

-- A request that is sent twice with its client id.
abbrev retried : NewRequestInput
retried = record help { client_id = some (codes "phone-0001") }

abbrev filed_view : RequestView
filed_view = record {
  request = new_request policy retried 12 (pos 9);
  effective_status = status_open;
  role = role_customer;
  events =
      record {
        request_id = 12;
        status = status_open;
        actor = role_customer;
        note = none;
        created_at = pos 9;
      }
      ∷ [];
  offers = [];
  match_made = none;
  matched_offer = none;
  provider = none;
  customer_name = none;
  refund_until = none;
}

abbrev after_filing : Store
after_filing =
    store_after empty_store (create_request empty_store (new_request policy retried 12 (pos 9)))

-- Two use cases under way, the later of which has made its first call.
abbrev wiring : Wiring
wiring = record {
  policy = policy;
  packages = [];
  payments = false;
  create_prompt_pay = λ t email. err hidden;
  parse_uuid = no_uuid;
  uuid_text = no_names;
  names = no_names;
  floats = flat;
}

abbrev verify : Service (Unit {0})
verify = start wiring (command_admin_verify 7 true (pos 1))

abbrev rest_of_verify : Store → Service (Unit {0})
rest_of_verify s =
    present (get_provider s 7) (not_found "service provider not found")
    >> writing (λ t. set_provider_verified t 7 (some (pos 1)) (pos 1))

under_way : Reached wiring (rest_of_verify empty_store ∷ verify ∷ []) empty_store
unfolding admin_verify admin_provider reading ◌>>=◌
under_way =
    turns (verify ∷ verify ∷ []) (rest_of_verify empty_store ∷ verify ∷ []) empty_store empty_store
      (arrives (verify ∷ []) empty_store (command_admin_verify 7 true (pos 1))
        (arrives [] empty_store (command_admin_verify 7 true (pos 1)) at_start))
      (first (λ s. s) rest_of_verify (verify ∷ []))

Reached-Writes_example : Writes empty_store empty_store
Reached-Writes_example =
    Reached-Writes wiring (rest_of_verify empty_store ∷ verify ∷ []) empty_store under_way
