-- ===== src/Service/Customers.antt =====
-- internal/application/localservice/service.go, the customer's side and the job's progress:
-- CreateRequest, SelectOffer, UpdateStatus, Cancel, ReportIssue.
use flood_now_backend.Base.{ℕ, Bool, not, Option, none, some, ltb, ◌==◌, if◌then◌else◌}
use flood_now_backend.Base.Int.{ℤ, ◌+ℤ◌, ltb_ℤ}
use flood_now_backend.Base.Text.{Text, codes, trim_space}
use flood_now_backend.Base.Float.{Float64}
use flood_now_backend.Apperr.{validation, not_found, conflict}
use flood_now_backend.Base.{[], ◌∷◌}
use flood_now_backend.LocalService.Provider.{
  takes_vehicle_info, trimmed, is_provider_active, longer_than,
}
use flood_now_backend.LocalService.Request.{
  Status, status_valid, status_open, status_eq, can_transition, can_cancel, Role, role_customer,
  role_provider, no_role, role_eq, Request, effective, NewRequestInput, validate_request,
  max_open_requests_per_customer, CancelReason, cancel_reason_valid, IssueReason,
  issue_reason_valid,
}
use flood_now_backend.LocalService.Offer.{
  offer_pending, offer_status_eq, effective_offer, Match, refund_eligible,
}
use flood_now_backend.LocalService.Wallet.{BillingPolicy, tx_refund, refund_key, LedgerEntry}
use flood_now_backend.Postgres.Store.{get_provider, get_request, get_offer}
use flood_now_backend.Postgres.Requests.{
  create_request, find_request_by_client_id, count_open_requests, create_issue,
}
use flood_now_backend.Postgres.Matching.{select_offer}
use flood_now_backend.Postgres.Jobs.{transition_job, CancelParams, cancel}
use flood_now_backend.Service.Program.{
  Service, return, reading, writing, transaction, check, present, validated, ◌>>=◌, ◌>>◌,
}
use flood_now_backend.Service.Views.{
  RequestView, Party, role_of, view, get_request_view, customer_request,
}

-- The view of a request that its customer has just filed.
abbrev pub customer_party : Party
customer_party = record { role = role_customer; match_made = none; provider = none }

abbrev pub kept_vehicle : NewRequestInput → Option Text
kept_vehicle i = if takes_vehicle_info i.category then trimmed i.vehicle_info else none

abbrev pub new_request : BillingPolicy → NewRequestInput → ℕ → ℤ → Request
new_request pol i id now = record {
  id = id;
  customer_user_id = i.customer_user_id;
  client_id = i.client_id;
  category = i.category;
  description = trimmed i.description;
  vehicle_info = kept_vehicle i;
  image_key = trimmed i.image_key;
  latitude = i.latitude;
  longitude = i.longitude;
  location_name = trimmed i.location_name;
  contact_phone = trim_space i.contact_phone;
  status = status_open;
  selected_offer_id = none;
  selection_expires_at = none;
  expires_at = now +ℤ pol.request_ttl;
  cancel_reason = none;
  created_at = now;
  updated_at = now;
  closed_at = none;
}

-- The request that an earlier attempt with the same client id filed.
abbrev pub earlier_request : NewRequestInput → Service (Option Request)
earlier_request i = earlier_of i.client_id
  where
    earlier_of : Option Text → Service (Option Request)
    earlier_of none = return none
    earlier_of (some c) = reading (λ s. find_request_by_client_id s i.customer_user_id c)

-- A role other than none: `if role == ""`.
abbrev pub party : Party → Bool
party c = not (role_eq c.role no_role)

-- The request and the caller's part in it; anyone else gets NOT_FOUND.
unfoldable pub request_of_party : ℕ → ℕ → Service (Request × Party)
request_of_party user_id id = reading (λ s. get_request s id) >>= λ o.
    present o (not_found "service request not found") >>= λ r. role_of user_id r >>= λ c.
    check (party c) (not_found "service request not found") >> return (r, c)

module _ (pol : BillingPolicy) where
  -- ReopenExpiresAt: at least one more RequestTTL; the zero time for a customer.
  abbrev pub reopen_expiry : Request → Role → ℤ → ℤ → ℤ
  reopen_expiry r role now zero_time =
      if role_eq role role_provider
      then (if ltb_ℤ r.expires_at (now +ℤ pol.request_ttl)
          then now +ℤ pol.request_ttl
          else r.expires_at)
      else zero_time

  abbrev pub refund_of : Match → ℤ → LedgerEntry
  refund_of m now = record {
    provider_id = m.provider_id;
    kind = tx_refund;
    amount = m.fee_credits;
    key = refund_key m.id;
    match_id = some m.id;
    topup_id = none;
    note = none;
    at = now;
  }

  unfoldable pub refund_for : Option Match → Status → Role → ℤ → Option LedgerEntry
  refund_for none from role now = none
  refund_for (some m) from role now =
      if refund_eligible m from role now pol.refund_grace then some (refund_of m now) else none

  abbrev pub cancel_params : ℕ → Request → Party → CancelReason → Option Text → ℤ → ℤ → CancelParams
  cancel_params id r c reason remark now zero_time = record {
    request_id = id;
    from = effective r now;
    actor = c.role;
    reason = reason;
    note = trimmed remark;
    now = now;
    reopen = role_eq c.role role_provider;
    reopen_expires_at = reopen_expiry r c.role now zero_time;
    refund = refund_for c.match_made (effective r now) c.role now;
  }

module _ (names : ℕ → Text) (pol : BillingPolicy) where
  abbrev pub file_request : Request → ℤ → Service RequestView
  file_request r now = transaction (λ s. create_request s r) >> view names pol r customer_party now

  abbrev pub create_new : NewRequestInput → ℕ → ℤ → Option Request → Service RequestView
  create_new i id now (some r) = view names pol r customer_party now
  create_new i id now none = reading (λ s. count_open_requests s i.customer_user_id now) >>= λ n.
      check (ltb n max_open_requests_per_customer)
        (conflict "you already have several open service requests; cancel one first")
      >> file_request (new_request pol i id now) now

  unfoldable pub create_request_for : Float64 → NewRequestInput → ℕ → ℤ → Service RequestView
  create_request_for f i id now =
      validated (validate_request f i) >> earlier_request i >>= create_new i id now

  unfoldable pub select_offer_for : ℕ → ℕ → ℕ → ℤ → Service RequestView
  select_offer_for user_id request_id offer_id now = customer_request user_id request_id >>= λ r.
      check (status_eq (effective r now) status_open)
        (conflict "you can only choose a provider while the request is open")
      >> reading (λ s. get_offer s offer_id)
      >>= λ maybe_offer. present maybe_offer (not_found "offer not found") >>= λ o.
          check (o.request_id == r.id) (not_found "offer not found")
          >> check (offer_status_eq (effective_offer o r now) offer_pending)
              (conflict "this offer can no longer be chosen")
          >> reading (λ s. get_provider s o.provider_id)
          >>= λ maybe_provider.
              present maybe_provider (conflict "this provider isn't taking jobs right now") >>= λ p.
              check (is_provider_active p.status)
                (conflict "this provider isn't taking jobs right now")
              >> transaction (λ s. select_offer s (record {
                request_id = r.id;
                offer_id = o.id;
                customer_id = user_id;
                now = now;
                deadline = now +ℤ pol.confirm_timeout;
              }))
              >>= λ done.
                  check done (conflict "the request changed in the meantime; reload and try again")
                  >> get_request_view names pol user_id r.id now

  unfoldable pub update_status : ℕ → ℕ → Status → ℤ → Service RequestView
  update_status user_id id to now =
      check (status_valid to) (validation "status is invalid" ("status" ∷ []))
      >> request_of_party user_id id
      >>= λ rc.
          check (can_transition (effective rc.0 now) to rc.1.role)
            (conflict "this status change isn't allowed now")
          >> transaction (λ s. transition_job s (record {
            request_id = id;
            from = effective rc.0 now;
            to = to;
            actor = rc.1.role;
            now = now;
          }))
          >>= λ done.
              check done (conflict "the request changed in the meantime; reload and try again")
              >> get_request_view names pol user_id id now

  -- A provider who backed out is no longer a party: no view.
  abbrev pub view_after_cancel : ℕ → ℕ → Role → ℤ → Service (Option RequestView)
  view_after_cancel user_id id role now =
      if role_eq role role_provider
      then return none
      else (get_request_view names pol user_id id now >>= λ v. return (some v))

  unfoldable pub cancel_for :
      ℕ → ℕ → CancelReason → Option Text → ℤ → ℤ → Service (Option RequestView)
  cancel_for user_id id reason remark now zero_time =
      check (cancel_reason_valid reason) (validation "reason is invalid" ("reason" ∷ []))
      >> check (not (longer_than 500 remark)) (validation "note is too long" ("note" ∷ []))
      >> request_of_party user_id id
      >>= λ rc.
          check (can_cancel (effective rc.0 now) rc.1.role)
            (conflict "this request can't be cancelled now")
          >> transaction
              (λ s. cancel s (cancel_params pol id rc.0 rc.1 reason remark now zero_time))
          >>= λ done.
              check done (conflict "the request changed in the meantime; reload and try again")
              >> view_after_cancel user_id id rc.1.role now

unfoldable pub report_issue : ℕ → ℕ → IssueReason → Option Text → ℕ → ℤ → Service (Unit {0})
report_issue user_id id reason details issue_id now =
    check (issue_reason_valid reason) (validation "reason is invalid" ("reason" ∷ []))
    >> check (not (longer_than 1000 details)) (validation "details are too long" ("details" ∷ []))
    >> request_of_party user_id id
    >>= λ rc. present rc.1.match_made (conflict "there is no matched provider to report") >>= λ m.
        writing (λ s. create_issue s (record {
          id = issue_id;
          match_id = m.id;
          request_id = rc.0.id;
          reporter = rc.1.role;
          reason = reason;
          details = trimmed details;
          status = codes "open";
          created_at = now;
        }))
