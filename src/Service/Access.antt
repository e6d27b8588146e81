-- ===== src/Service/Access.antt =====
-- Who gets at a request: its customer, and the provider whose match is active or completed.
use flood_now_backend.Base.{
  ℕ, ◌≡◌, ap, ◌∙◌, Bool, true, false, not, ◌||◌, Option, arith, holds, ◌==◌,
}
use flood_now_backend.Base.Int.{ℤ}
use flood_now_backend.Base.Text.{Text}
use flood_now_backend.Apperr.{Error, not_found, err}
use flood_now_backend.LocalService.Provider.{longer_than}
use flood_now_backend.LocalService.Request.{
  Status, status_valid, CancelReason, cancel_reason_valid, IssueReason, issue_reason_valid,
}
use flood_now_backend.LocalService.Wallet.{BillingPolicy}
use flood_now_backend.Postgres.Store.{Store, get_provider, get_request}
use flood_now_backend.Postgres.Jobs.{current_match}
use flood_now_backend.Service.Program.{
  Service, reading, check, present, ◌>>=◌, ◌>>◌, run, run-bind_err,
}
use flood_now_backend.Service.Views.{unless_cancelled, decide_role, role_of, get_request_view}
use flood_now_backend.Service.Customers.{request_of_party, update_status, cancel_for, report_issue}

-- The customer of the request, or the owner of the provider of its match.
unfoldable pub may_see : Store → ℕ → ℕ → Bool
may_see s user_id id = holds (get_request s id) (λ r.
    r.customer_user_id == user_id
    || holds (unless_cancelled (current_match s r.id))
        (λ m. holds (get_provider s m.provider_id) (λ q. q.owner_user_id == user_id)))

abbrev pub hidden : Error
hidden = not_found "service request not found"

request_of_party-hidden :
    (s : Store) (user_id id : ℕ)
    → may_see s user_id id ≡ false
    → run (request_of_party user_id id) s ≡ (err hidden, s)
unfolding request_of_party role_of decide_role may_see run ◌>>=◌ reading present check
request_of_party-hidden s user_id id h = ground arith

view-hidden :
    (names : ℕ → Text) (pol : BillingPolicy) (s : Store) (user_id id : ℕ) (now : ℤ)
    → may_see s user_id id ≡ false
    → run (get_request_view names pol user_id id now) s ≡ (err hidden, s)
unfolding get_request_view role_of decide_role may_see run ◌>>=◌ reading present check
view-hidden names pol s user_id id now h = ground arith

check_bind {ℓ} : {B : Type ℓ} (b : Bool) (e : Error) (m : Service B) → b ≡ true → check b e >> m ≡ m
unfolding check ◌>>=◌
check_bind b e m h = rw h

checks_bind {ℓ} :
    {B : Type ℓ} (a b : Bool) (d e : Error) (m : Service B)
    → a ≡ true
    → b ≡ false
    → check a d >> check (not b) e >> m ≡ m
unfolding check ◌>>=◌
checks_bind a b d e m h k = rw (h, k)

module _ (names : ℕ → Text) (pol : BillingPolicy) (s : Store) (user_id id : ℕ) (now : ℤ)
    (h : may_see s user_id id ≡ false) where
  update-hidden :
      (to : Status)
      → status_valid to ≡ true
      → run (update_status names pol user_id id to now) s ≡ (err hidden, s)
  unfolding update_status
  update-hidden to valid = run-bind_err _ _ s s hidden (
      ap (λ m. run m s) (check_bind _ _ (request_of_party user_id id) valid)
      ∙ request_of_party-hidden s user_id id h)

  cancel-hidden :
      (reason : CancelReason) (remark : Option Text) (zero_time : ℤ)
      → cancel_reason_valid reason ≡ true
      → longer_than 500 remark ≡ false
      → run (cancel_for names pol user_id id reason remark now zero_time) s ≡ (err hidden, s)
  unfolding cancel_for
  cancel-hidden reason remark zero_time valid short = run-bind_err _ _ s s hidden (
      ap (λ m. run m s) (checks_bind _ _ _ _ (request_of_party user_id id) valid short)
      ∙ request_of_party-hidden s user_id id h)

  report-hidden :
      (reason : IssueReason) (details : Option Text) (issue_id : ℕ)
      → issue_reason_valid reason ≡ true
      → longer_than 1000 details ≡ false
      → run (report_issue user_id id reason details issue_id now) s ≡ (err hidden, s)
  unfolding report_issue
  report-hidden reason details issue_id valid short = run-bind_err _ _ s s hidden (
      ap (λ m. run m s) (checks_bind _ _ _ _ (request_of_party user_id id) valid short)
      ∙ request_of_party-hidden s user_id id h)

-- A user who is neither the customer of the request nor the owner of the provider of its current
-- match, or who names a request that does not exist, gets NOT_FOUND and changes nothing, whether
-- they read it, move its job, cancel it or report an issue, with arguments that are valid.
pub stranger-NotFound :
    (names : ℕ → Text) (pol : BillingPolicy) (s : Store) (user_id id : ℕ) (to : Status)
    (reason : CancelReason) (remark : Option Text) (issue : IssueReason) (details : Option Text)
    (issue_id : ℕ) (now zero_time : ℤ)
    → may_see s user_id id ≡ false
    → status_valid to ≡ true
    → cancel_reason_valid reason ≡ true
    → longer_than 500 remark ≡ false
    → issue_reason_valid issue ≡ true
    → longer_than 1000 details ≡ false
    → (run (get_request_view names pol user_id id now) s ≡ (err hidden, s))
      × (run (update_status names pol user_id id to now) s ≡ (err hidden, s))
      × (run (cancel_for names pol user_id id reason remark now zero_time) s ≡ (err hidden, s))
      × (run (report_issue user_id id issue details issue_id now) s ≡ (err hidden, s))
stranger-NotFound names pol s user_id id to reason remark issue details issue_id now zero_time h v1
      v2 v3 v4 v5 =
    (
      view-hidden names pol s user_id id now h,
      update-hidden names pol s user_id id now h to v1,
      cancel-hidden names pol s user_id id now h reason remark zero_time v2 v3,
      report-hidden names pol s user_id id now h issue details issue_id v4 v5,
    )
