-- ===== src/Postgres/LedgerWrites.antt =====
-- The ledger entry of each write, if it has one.
use flood_now_backend.Postgres.Topups.Ends.{set_topup_payment-rest}
use flood_now_backend.Base.{refl, ap, some}
use flood_now_backend.LocalService.Wallet.{LedgerEntry}
use flood_now_backend.Postgres.Store.{Store}
use flood_now_backend.Postgres.Providers.{
  update_provider, set_provider_availability, set_provider_verified, set_provider_status,
}
use flood_now_backend.Postgres.Requests.{create_issue}
use flood_now_backend.Postgres.Topups.{mark_topup, mark_topup_refunded}
use flood_now_backend.Postgres.Frames.{
  create_request-purse, upsert_offer-purse, select_offer-purse, reject_selection-purse,
  transition_job-till, dismiss_request-purse, create_topup-money,
}
use flood_now_backend.Postgres.Moves.{
  IsFee, IsRefund, IsCredit, accept_offer-Moves, cancel-Moves, mark_topup_paid-Moves,
}
use flood_now_backend.Postgres.Posts.{
  Posts, unposted, IsIn, Moves-Posts, create_provider-Posts, adjust_credit-Posts,
}
use flood_now_backend.Postgres.Writes.{
  Write, creates_provider, updates_provider, sets_availability, verifies, sets_status, adjusts,
  creates_request, dismisses, reports, offers, selects, rejects, accepts, transitions, cancels,
  creates_topup, sets_payment, marks_paid, marks, marks_refunded,
}

-- The entries that a write may post.
abbrev pub May : {s t : Store} → Write s t → LedgerEntry → Type 0
May (creates_provider p w k) e = IsIn w e
May (adjusts x k) e = IsIn (some x) e
May (accepts p) e = IsFee p e
May (cancels p k) e = IsRefund p e
May {s} (marks_paid p) e = IsCredit s p e
May _ e = ⊥

pub Write-Posts : {s t : Store} (w : Write s t) → Posts (May w) s t
unfolding update_provider set_provider_availability set_provider_verified set_provider_status
    create_issue mark_topup mark_topup_refunded
Write-Posts {s} (creates_provider p w k) = create_provider-Posts s p w
Write-Posts (updates_provider p) = unposted refl
Write-Posts (sets_availability id on now) = unposted refl
Write-Posts (verifies id at now) = unposted refl
Write-Posts (sets_status id st now) = unposted refl
Write-Posts {s} (adjusts e k) = adjust_credit-Posts s e
Write-Posts {s} (creates_request r k) = unposted (ap (λ m. m.1) (create_request-purse s r))
Write-Posts {s} (dismisses r p) = unposted (ap (λ m. m.1) (dismiss_request-purse s r p))
Write-Posts (reports i) = unposted refl
Write-Posts {s} (offers o now) = unposted (ap (λ m. m.1) (upsert_offer-purse s o now))
Write-Posts {s} (selects p) = unposted (ap (λ m. m.1) (select_offer-purse s p))
Write-Posts {s} (rejects o p now) = unposted (ap (λ m. m.1) (reject_selection-purse s o p now))
Write-Posts {s} (accepts p) = Moves-Posts (accept_offer-Moves s p)
Write-Posts {s} (transitions j k) = unposted (ap (λ m. m.1) (transition_job-till s j))
Write-Posts {s} (cancels p k) = Moves-Posts (cancel-Moves s p)
Write-Posts {s} (creates_topup x k) = unposted (ap (λ m. m.1) (create_topup-money s x))
Write-Posts {s} (sets_payment id c now) =
    unposted (ap (λ m. m.5) (set_topup_payment-rest s id c now))
Write-Posts {s} (marks_paid p) = Moves-Posts (mark_topup_paid-Moves s p)
Write-Posts (marks id to now k) = unposted refl
Write-Posts (marks_refunded i now) = unposted refl
