-- ===== src/Postgres/Invariants/Money.antt =====
-- The ledger against the cached balances, over every write.
use flood_now_backend.Postgres.Topups.Ends.{set_topup_payment-rest}
use flood_now_backend.Base.{ap, ℕ, ◌≡◌, refl, arith}
use flood_now_backend.Base.Int.{pos, ◌≤ℤ◌}
use flood_now_backend.Postgres.Store.{Store, empty_store, get_provider}
use flood_now_backend.Postgres.Table.{find}
use flood_now_backend.Postgres.Balance.{ledger_sum, balance_of, Balanced}
use flood_now_backend.Postgres.Providers.{
  profile_of, update_provider, set_provider_availability, set_provider_verified,
  set_provider_status,
}
use flood_now_backend.Postgres.Providers.Effects.{
  update_providers-Balanced, create_provider-Balanced, adjust_credit-Balanced,
}
use flood_now_backend.Postgres.Requests.{create_issue}
use flood_now_backend.Postgres.Topups.{mark_topup, mark_topup_refunded}
use flood_now_backend.Postgres.Frames.{
  create_request-purse, upsert_offer-purse, select_offer-purse, reject_selection-purse,
  transition_job-till, dismiss_request-purse, create_topup-money,
}
use flood_now_backend.Postgres.Moves.{
  Balanced-money, Balanced-purse, Moves-Balanced, accept_offer-Moves, cancel-Moves,
  mark_topup_paid-Moves,
}
use flood_now_backend.Postgres.Writes.{
  Write, creates_provider, updates_provider, sets_availability, verifies, sets_status, adjusts,
  creates_request, dismisses, reports, offers, selects, rejects, accepts, transitions, cancels,
  creates_topup, sets_payment, marks_paid, marks, marks_refunded, Writes, Writes-induction,
}

Write-Balanced : (s t : Store) → Write s t → Balanced s → Balanced t
unfolding update_provider set_provider_availability set_provider_verified set_provider_status
    create_issue mark_topup mark_topup_refunded
Write-Balanced s t (creates_provider p w k) b = create_provider-Balanced s p w b
Write-Balanced s t (updates_provider p) b =
    update_providers-Balanced s p.id (profile_of p) (λ q. refl) (λ q. refl) b
Write-Balanced s t (sets_availability id on now) b =
    update_providers-Balanced s id _ (λ q. refl) (λ q. refl) b
Write-Balanced s t (verifies id at now) b =
    update_providers-Balanced s id _ (λ q. refl) (λ q. refl) b
Write-Balanced s t (sets_status id st now) b =
    update_providers-Balanced s id _ (λ q. refl) (λ q. refl) b
Write-Balanced s t (adjusts e k) b = adjust_credit-Balanced s e b
Write-Balanced s t (creates_request r k) b = Balanced-purse (create_request-purse s r) b
Write-Balanced s t (dismisses r p) b = Balanced-purse (dismiss_request-purse s r p) b
Write-Balanced s t (reports i) b = Balanced-money {s = s} refl b
Write-Balanced s t (offers o now) b = Balanced-purse (upsert_offer-purse s o now) b
Write-Balanced s t (selects p) b = Balanced-purse (select_offer-purse s p) b
Write-Balanced s t (rejects o p now) b = Balanced-purse (reject_selection-purse s o p now) b
Write-Balanced s t (accepts p) b = Moves-Balanced (accept_offer-Moves s p) b
Write-Balanced s t (transitions j k) b =
    Balanced-money (ap (λ m. (m.0, m.1)) (transition_job-till s j)) b
Write-Balanced s t (cancels p k) b = Moves-Balanced (cancel-Moves s p) b
Write-Balanced s t (creates_topup x k) b = Balanced-money (create_topup-money s x) b
Write-Balanced s t (sets_payment id c now) b =
    Balanced-money {s = s} (ap (λ m. (m.0, m.5)) (set_topup_payment-rest s id c now)) b
Write-Balanced s t (marks_paid p) b = Moves-Balanced (mark_topup_paid-Moves s p) b
Write-Balanced s t (marks id to now k) b = Balanced-money {s = s} refl b
Write-Balanced s t (marks_refunded i now) b = Balanced-money {s = s} refl b

empty-Balanced : Balanced empty_store
unfolding get_provider ledger_sum find
empty-Balanced = record { cached = λ id. refl; nonneg = λ id. omega arith }

-- After any sequence of writes from the empty tables, in any order, every provider's cached
-- balance is the sum of the amounts of its ledger rows, and it is not negative; an id with no
-- provider has no rows that sum to anything but 0.
pub writes-Balanced :
    (s : Store) (id : ℕ)
    → Writes empty_store s
    → (balance_of (get_provider s id) ≡ ledger_sum id s.ledger)
      × (pos 0 ≤ℤ balance_of (get_provider s id))
writes-Balanced s id w =
    let b = Writes-induction Balanced Write-Balanced w empty-Balanced in (b.cached id, b.nonneg id)
