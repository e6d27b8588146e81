-- ===== src/Service/Laws/Customers.antt =====
-- The use cases of a customer and of a job are lawful.
use flood_now_backend.Base.{ℕ, Option, none, some, refl, inl, inr, arith, Option-cases}
use flood_now_backend.Base.Int.{ℤ}
use flood_now_backend.Base.Text.{Text}
use flood_now_backend.Base.Float.{Float64}
use flood_now_backend.LocalService.Request.{
  Status, Request, NewRequestInput, CancelReason, IssueReason, Role,
}
use flood_now_backend.LocalService.Offer.{Match}
use flood_now_backend.LocalService.Wallet.{BillingPolicy}
use flood_now_backend.Postgres.Writes.{
  creates_request, reports, selects, transitions, cancels, IsRefundEntry,
}
use flood_now_backend.Service.Program.{
  Lawful, lawful_rules, bind-Lawful, reading-Lawful, transaction-Lawful, writing-Lawful,
  check-Lawful, checked-Lawful, validated-Lawful,
}
use flood_now_backend.Service.Laws.Reads.{
  customer_request-Lawful, role_of-Lawful, view-Lawful, get_request_view-Lawful,
}
use flood_now_backend.Service.Customers.{
  earlier_request, request_of_party, create_new, create_request_for, select_offer_for,
  update_status, refund_for, cancel_for, report_issue,
}

earlier_request-Lawful : (i : NewRequestInput) → Lawful (earlier_request i)
earlier_request-Lawful i = elim (Option-cases i.client_id) [
  | inl h ↦ rw h (search (lawful_rules))
  | inr (c, h) ↦ rw h (search (lawful_rules))
]

request_of_party-Lawful : (user_id id : ℕ) → Lawful (request_of_party user_id id)
unfolding request_of_party
request_of_party-Lawful user_id id = search (lawful_rules, role_of-Lawful)

refund_for-IsRefundEntry :
    (pol : BillingPolicy) (m : Option Match) (from : Status) (role : Role) (now : ℤ)
    → IsRefundEntry (refund_for pol m from role now)
unfolding refund_for
refund_for-IsRefundEntry pol none from role now = tt
refund_for-IsRefundEntry pol (some m) from role now = ground arith

module _ (names : ℕ → Text) (pol : BillingPolicy) where
  create_new-Lawful :
      (i : NewRequestInput) (id : ℕ) (now : ℤ) (o : Option Request)
      → Lawful (create_new names pol i id now o)
  create_new-Lawful i id now (some r) = view-Lawful names pol r _ now
  create_new-Lawful i id now none = bind-Lawful (reading-Lawful _) (λ n.
      bind-Lawful (check-Lawful _ _) (λ u.
        bind-Lawful (transaction-Lawful _ (λ s. creates_request _ refl))
          (λ w. view-Lawful names pol _ _ now)))

  pub create_request_for-Lawful :
      (f : Float64) (i : NewRequestInput) (id : ℕ) (now : ℤ)
      → Lawful (create_request_for names pol f i id now)
  unfolding create_request_for
  create_request_for-Lawful f i id now =
      bind-Lawful (bind-Lawful (validated-Lawful _) (λ u. earlier_request-Lawful i))
        (create_new-Lawful i id now)

  pub select_offer_for-Lawful :
      (user_id request_id offer_id : ℕ) (now : ℤ)
      → Lawful (select_offer_for names pol user_id request_id offer_id now)
  unfolding select_offer_for
  select_offer_for-Lawful user_id request_id offer_id now =
      search
        (
          lawful_rules, customer_request-Lawful, get_request_view-Lawful, transaction-Lawful,
          selects,
        )
        depth 24

  pub update_status-Lawful :
      (user_id id : ℕ) (to : Status) (now : ℤ) → Lawful (update_status names pol user_id id to now)
  unfolding update_status
  update_status-Lawful user_id id to now =
      bind-Lawful (bind-Lawful (check-Lawful _ _) (λ u. request_of_party-Lawful user_id id)) (λ rc.
        bind-Lawful (checked-Lawful _ _ (λ h. transaction-Lawful _ (λ s. transitions _ h)))
          (λ done. search (lawful_rules, get_request_view-Lawful)))

  pub cancel_for-Lawful :
      (user_id id : ℕ) (reason : CancelReason) (remark : Option Text) (now zero_time : ℤ)
      → Lawful (cancel_for names pol user_id id reason remark now zero_time)
  unfolding cancel_for
  cancel_for-Lawful user_id id reason remark now zero_time =
      bind-Lawful (search (lawful_rules, request_of_party-Lawful)) (λ rc.
        bind-Lawful
          (checked-Lawful _ _ (λ h. transaction-Lawful _ (λ s. cancels _ (record {
            allowed = h;
            reopens = refl;
            refund_key = refund_for-IsRefundEntry pol _ _ _ _;
          }))))
          (λ done. search (lawful_rules, get_request_view-Lawful)))

pub report_issue-Lawful :
    (user_id id : ℕ) (reason : IssueReason) (details : Option Text) (issue_id : ℕ) (now : ℤ)
    → Lawful (report_issue user_id id reason details issue_id now)
unfolding report_issue
report_issue-Lawful user_id id reason details issue_id now =
    search (lawful_rules, request_of_party-Lawful, writing-Lawful, reports)
