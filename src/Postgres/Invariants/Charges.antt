-- ===== src/Postgres/Invariants/Charges.antt =====
-- A match is charged once, exactly when its fee was not waived, over every write.
use flood_now_backend.Postgres.Topups.Ends.{set_topup_payment-rest}
use flood_now_backend.Base.{ℕ, ◌≡◌, refl, ap, false, Option, none, some, arith, count_by, ◌==◌}
use flood_now_backend.LocalService.Wallet.{tx_number, match_fee_key, LedgerEntry}
use flood_now_backend.Postgres.Table.{find}
use flood_now_backend.Postgres.Store.{Store, empty_store, has_key, match_of_offer}
use flood_now_backend.Postgres.Accepting.Ends.{accept_offer-ends}
use flood_now_backend.Postgres.Jobs.Ends.{cancel-ends}
use flood_now_backend.Postgres.Posts.{IsIn}
use flood_now_backend.Postgres.Writes.{
  Write, creates_provider, adjusts, creates_request, dismisses, offers, selects, rejects, accepts,
  transitions, cancels, creates_topup, sets_payment, marks_paid, Writes, Writes-induction,
  IsWelcome, IsRefundEntry,
}
use flood_now_backend.Postgres.LedgerWrites.{May}
use flood_now_backend.Postgres.Invariants.Credits.{rows_of, expected_fees, ChargedOnce}
use flood_now_backend.Postgres.Invariants.Fees.{
  keeps_fees, AcceptEnds-ChargedOnce, CancelEnds-fees, transition_job-fees,
}
use flood_now_backend.Postgres.Frames.{
  create_request-purse, dismiss_request-purse, upsert_offer-purse, select_offer-purse,
  reject_selection-purse,
}
use flood_now_backend.Postgres.Others.{
  create_provider-others, adjust_credit-others, create_topup-jobs, mark_topup_paid-jobs,
}
use flood_now_backend.Postgres.Providers.{
  update_provider, set_provider_availability, set_provider_verified, set_provider_status,
}
use flood_now_backend.Postgres.Requests.{create_issue}
use flood_now_backend.Postgres.Topups.{mark_topup, mark_topup_refunded}

welcome_event :
    (w : Option LedgerEntry) (e : LedgerEntry)
    → IsWelcome w
    → IsIn w e
    → (tx_number e.key.event == 2) ≡ false
welcome_event none e k m = cc
welcome_event (some x) e k m = ground arith

refund_event :
    (w : Option LedgerEntry) (e : LedgerEntry)
    → IsRefundEntry w
    → IsIn w e
    → (tx_number e.key.event == 2) ≡ false
refund_event none e k m = cc
refund_event (some x) e k m = ground arith

-- A write that leaves the matches, and posts no fee.
same_matches :
    (s t : Store) (w : Write s t) (id : ℕ)
    → ((e : LedgerEntry) → May w e → (tx_number e.key.event == 2) ≡ false)
    → t.matches ≡ s.matches
    → rows_of (match_fee_key id) s ≡ expected_fees (find (match_of_offer id) s.matches)
    → rows_of (match_fee_key id) t ≡ expected_fees (find (match_of_offer id) t.matches)
same_matches s t w id other same h =
    keeps_fees s t w id other (ap (λ ms. expected_fees (find (match_of_offer id) ms)) same) h

Write-ChargedOnce : (s t : Store) → Write s t → ChargedOnce s → ChargedOnce t
unfolding update_provider set_provider_availability set_provider_verified set_provider_status
    create_issue mark_topup mark_topup_refunded
Write-ChargedOnce s t (creates_provider p w k) h id =
    same_matches s _ (creates_provider p w k) id (λ e m. welcome_event w e k m)
      (ap (λ o. o.4) (create_provider-others s p w)) (h id)
Write-ChargedOnce s t (adjusts x k) h id =
    same_matches s _ (adjusts x k) id (λ e m. ground arith)
      (ap (λ o. o.4) (adjust_credit-others s x)) (h id)
Write-ChargedOnce s t (creates_request r k) h id =
    same_matches s _ (creates_request r k) id (λ e m. absurd m)
      (ap (λ m. m.3) (create_request-purse s r)) (h id)
Write-ChargedOnce s t (dismisses r p) h id =
    same_matches s _ (dismisses r p) id (λ e m. absurd m)
      (ap (λ m. m.3) (dismiss_request-purse s r p)) (h id)
Write-ChargedOnce s t (offers o now) h id =
    same_matches s _ (offers o now) id (λ e m. absurd m)
      (ap (λ m. m.3) (upsert_offer-purse s o now)) (h id)
Write-ChargedOnce s t (selects p) h id =
    same_matches s _ (selects p) id (λ e m. absurd m) (ap (λ m. m.3) (select_offer-purse s p))
      (h id)
Write-ChargedOnce s t (rejects o p now) h id =
    same_matches s _ (rejects o p now) id (λ e m. absurd m)
      (ap (λ m. m.3) (reject_selection-purse s o p now)) (h id)
Write-ChargedOnce s t (accepts p) h id = AcceptEnds-ChargedOnce s p (accept_offer-ends s p) h id
Write-ChargedOnce s t (transitions j k) h id =
    keeps_fees s _ (transitions j k) id (λ e m. absurd m) (transition_job-fees s j id) (h id)
Write-ChargedOnce s t (cancels p k) h id =
    keeps_fees s _ (cancels p k) id (λ e m. refund_event p.refund e k.refund_key m)
      (CancelEnds-fees s p id (cancel-ends s p)) (h id)
Write-ChargedOnce s t (creates_topup x k) h id =
    same_matches s _ (creates_topup x k) id (λ e m. absurd m)
      (ap (λ j. j.1) (create_topup-jobs s x)) (h id)
Write-ChargedOnce s t (marks_paid p) h id =
    same_matches s _ (marks_paid p) id (λ e m. rw (m.is_entry))
      (ap (λ j. j.1) (mark_topup_paid-jobs s p)) (h id)
Write-ChargedOnce s t (sets_payment x c now) h id =
    same_matches s _ (sets_payment x c now) id (λ e m. absurd m)
      (ap (λ m. m.4) (set_topup_payment-rest s x c now)) (h id)
Write-ChargedOnce s t _ h id = h id

-- After any sequence of writes from the empty tables, with acceptances repeated and in any order,
-- an offer has exactly one fee row if its match was charged, and none if it was waived or the
-- offer was never matched.
pub writes-ChargedOnce :
    (s : Store) (id : ℕ)
    → Writes empty_store s
    → count_by (has_key (match_fee_key id)) s.ledger
      ≡ expected_fees (find (match_of_offer id) s.matches)
writes-ChargedOnce s id w =
    Writes-induction ChargedOnce Write-ChargedOnce w (unfold find in λ j. refl) id
