-- ===== src/Examples/Scenario.antt =====
-- One provider, one request with one offer, and one top-up.
use flood_now_backend.Base.{refl, true, false, none, some, [], ◌∷◌}
use flood_now_backend.Base.Int.{pos}
use flood_now_backend.Base.Text.{codes}
use flood_now_backend.LocalService.Provider.{Provider, provider_active, towing}
use flood_now_backend.LocalService.Request.{
  Request, status_open, status_matched, role_customer, cancel_changed_mind, can_cancel,
}
use flood_now_backend.LocalService.Offer.{Offer, offer_pending}
use flood_now_backend.LocalService.Wallet.{
  LedgerEntry, tx_welcome_credit, welcome_key, tx_refund, refund_key, Topup, topup_pending,
  topup_currency,
}
use flood_now_backend.Postgres.Store.{Store, empty_store, store_after}
use flood_now_backend.Postgres.Providers.{create_provider}
use flood_now_backend.Postgres.Requests.{create_request, upsert_offer}
use flood_now_backend.Postgres.Matching.{SelectOfferParams, select_offer}
use flood_now_backend.Postgres.Accepting.{AcceptOfferParams, accept_offer}
use flood_now_backend.Postgres.Jobs.{CancelParams, cancel}
use flood_now_backend.Postgres.Topups.{create_topup, TopupPaid, mark_topup_paid}
use flood_now_backend.Postgres.Writes.{
  Writes, done, next, MayCancel, creates_provider, creates_request, offers, selects, accepts,
  cancels, creates_topup, marks_paid,
}

abbrev pub tow_truck : Provider
tow_truck = record {
  id = 7;
  owner_user_id = 70;
  display_name = codes "Tow";
  categories = towing ∷ [];
  description = none;
  phone = codes "081";
  line_id = none;
  latitude = 0;
  longitude = 0;
  location_name = none;
  service_radius_m = pos 3000;
  business_hours = none;
  mobile_service = true;
  available = true;
  starting_price_thb = none;
  logo_key = none;
  verified_at = none;
  status = provider_active;
  credit_balance = pos 0;
  created_at = pos 1;
  updated_at = pos 1;
}

abbrev pub welcome : LedgerEntry
welcome = record {
  provider_id = 7;
  kind = tx_welcome_credit;
  amount = pos 100;
  key = welcome_key 7;
  match_id = none;
  topup_id = none;
  note = none;
  at = pos 1;
}

abbrev pub flooded_car : Request
flooded_car = record {
  id = 3;
  customer_user_id = 30;
  client_id = none;
  category = towing;
  description = none;
  vehicle_info = none;
  image_key = none;
  latitude = 0;
  longitude = 0;
  location_name = none;
  contact_phone = codes "082";
  status = status_open;
  selected_offer_id = none;
  selection_expires_at = none;
  expires_at = pos 1000;
  cancel_reason = none;
  created_at = pos 2;
  updated_at = pos 2;
  closed_at = none;
}

abbrev pub tow_offer : Offer
tow_offer = record {
  id = 5;
  request_id = 3;
  provider_id = 7;
  price_thb = some (pos 900);
  eta_minutes = pos 30;
  note = none;
  status = offer_pending;
  created_at = pos 3;
  updated_at = pos 3;
}

abbrev pub selection : SelectOfferParams
selection = record {
  request_id = 3;
  offer_id = 5;
  customer_id = 30;
  now = pos 4;
  deadline = pos 50;
}

abbrev pub acceptance : AcceptOfferParams
acceptance = record {
  offer_id = 5;
  provider_id = 7;
  match_id = 9;
  fee = pos 30;
  charge = true;
  now = pos 5;
}

abbrev pub refund_entry : LedgerEntry
refund_entry = record {
  provider_id = 7;
  kind = tx_refund;
  amount = pos 30;
  key = refund_key 9;
  match_id = some 9;
  topup_id = none;
  note = none;
  at = pos 6;
}

abbrev pub cancellation : CancelParams
cancellation = record {
  request_id = 3;
  from = status_matched;
  actor = role_customer;
  reason = cancel_changed_mind;
  note = none;
  now = pos 6;
  reopen = false;
  reopen_expires_at = pos 0;
  refund = some refund_entry;
}

abbrev pub purchase : Topup
purchase = record {
  id = 8;
  provider_id = 7;
  package_id = codes "pro";
  amount = pos 50000;
  currency = topup_currency;
  credit_amount = pos 575;
  status = topup_pending;
  stripe_payment_intent_id = none;
  prompt_pay_qr_data = none;
  prompt_pay_qr_image_url = none;
  paid_at = none;
  created_at = pos 7;
  updated_at = pos 7;
}

abbrev pub payment : TopupPaid
payment = record {
  topup_id = 8;
  payment_intent_id = codes "pi_1";
  amount = pos 50000;
  currency = topup_currency;
  now = pos 8;
}

-- The tables after each write.
abbrev pub registered : Store
registered = store_after empty_store (create_provider empty_store tow_truck (some welcome))

abbrev pub requested : Store
requested = store_after registered (create_request registered flooded_car)

abbrev pub offered : Store
offered = store_after requested (upsert_offer requested tow_offer (pos 3))

abbrev pub selected : Store
selected = store_after offered (select_offer offered selection)

abbrev pub matched : Store
matched = store_after selected (accept_offer selected acceptance)

abbrev pub ended_job : Store
ended_job = store_after matched (cancel matched cancellation)

abbrev pub bought : Store
bought = store_after ended_job (create_topup ended_job purchase)

abbrev pub paid_up : Store
paid_up = store_after bought (mark_topup_paid bought payment)

pub to_selected : Writes empty_store selected
to_selected =
    next
      (next
        (next (next done (creates_provider tow_truck (some welcome) refl))
          (creates_request flooded_car refl))
        (offers tow_offer (pos 3)))
      (selects selection)

pub may_cancel : MayCancel cancellation
may_cancel = record { allowed = unfold can_cancel in refl; reopens = refl; refund_key = refl }

pub to_matched : Writes empty_store matched
to_matched = next to_selected (accepts acceptance)

pub to_called_off : Writes empty_store ended_job
to_called_off = next to_matched (cancels cancellation may_cancel)

pub to_bought : Writes empty_store bought
to_bought = next to_called_off (creates_topup purchase refl)

pub to_paid_up : Writes empty_store paid_up
to_paid_up = next to_bought (marks_paid payment)
