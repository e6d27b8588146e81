-- ===== src/Postgres/Invariants/Topups.antt =====
-- A top-up is credited once, exactly when it is paid, over every write.
use mathlib.Core.Option
use mathlib.Core.Path.{subst}
use flood_now_backend.Postgres.Topups.Ends.{
  PaymentEnds, no_row, taken_intent, payment_set, set_topup_payment-ends,
}
use flood_now_backend.Postgres.Topups.{with_payment}
use flood_now_backend.Base.{
  ℕ, suc, ◌≡◌, refl, sym, ap, ◌∙◌, Bool, true, false, Option, none, some, List, [], ◌∷◌, arith, any,
  count_by, ◌==◌, ==_iff, if◌then◌else◌, ◌⊎◌,
}
use flood_now_backend.Base.Int.{ℤ}
use flood_now_backend.Base.Text.{Text}
use flood_now_backend.LocalService.Wallet.{
  tx_number, key_eq, top_up_key, LedgerEntry, Topup, TopupStatus, topup_failed, topup_expired,
  topup_pending,
}
use flood_now_backend.Postgres.Table.{
  find, update_where, change, find-update_where, find_sound, find-update_key,
}
use flood_now_backend.Postgres.Store.{
  Store, empty_store, Ended, store_after, has_key, topup_is, get_topup,
}
use flood_now_backend.Postgres.Topups.{
  create_topup, PromptPayCharge, TopupPaid, is_settled, paid_row, with_paid, topup_entry,
  pending_topup, mark_topup, paid_by_intent, refunded_row, mark_topup_refunded,
}
use flood_now_backend.Postgres.Topups.Ends.{
  Paying, PaidEnds, ignored, failed, paid, mark_topup_paid-ends,
}
use flood_now_backend.Postgres.Balance.{apply_ledger-ok}
use flood_now_backend.Postgres.Others.{
  apply_ledger-others, create_provider-others, adjust_credit-others,
}
use flood_now_backend.Postgres.Posts.{IsIn}
use flood_now_backend.Postgres.Frames.{
  create_request-purse, dismiss_request-purse, upsert_offer-purse, select_offer-purse,
  reject_selection-purse, transition_job-till, accept_offer-topups, cancel-topups,
}
use flood_now_backend.Postgres.Providers.{
  update_provider, set_provider_availability, set_provider_verified, set_provider_status,
}
use flood_now_backend.Postgres.Requests.{create_issue}
use flood_now_backend.Postgres.Writes.{
  Write, creates_provider, adjusts, creates_request, dismisses, offers, selects, rejects, accepts,
  transitions, cancels, creates_topup, sets_payment, marks_paid, marks, marks_refunded, Writes,
  Writes-induction, IsWelcome, IsRefundEntry,
}
use flood_now_backend.Postgres.LedgerWrites.{May, Write-Posts}
use flood_now_backend.Postgres.Invariants.Credits.{
  rows_of, expected_credits, CreditedOnce, Posts-rows, Applied-rows, unknown_rows,
}

-- The keys of other events.
other_event :
    (e : LedgerEntry) (id : ℕ)
    → (tx_number e.key.event == 1) ≡ false
    → key_eq e.key (top_up_key id) ≡ false
unfolding key_eq
other_event e id h = ground arith

welcome_event :
    (w : Option LedgerEntry) (e : LedgerEntry)
    → IsWelcome w
    → IsIn w e
    → (tx_number e.key.event == 1) ≡ false
welcome_event none e k m = cc
welcome_event (some x) e k m = ground arith

refund_event :
    (w : Option LedgerEntry) (e : LedgerEntry)
    → IsRefundEntry w
    → IsIn w e
    → (tx_number e.key.event == 1) ≡ false
refund_event none e k m = cc
refund_event (some x) e k m = ground arith

-- An update of a top-up that keeps whether it is settled.
change-settled :
    (p : Topup → Bool) (f : Topup → Topup)
    → ((t : Topup) → p t ≡ true → is_settled (f t).status ≡ is_settled t.status)
    → (o : Option Topup) → expected_credits (Option.map (change p f) o) ≡ expected_credits o
change-settled p f keep none = refl
change-settled p f keep (some t) = ground (arith, keep t)

update-settled :
    (s : Store) (p : Topup → Bool) (f : Topup → Topup)
    → ((t : Topup) → (f t).id ≡ t.id)
    → ((t : Topup) → p t ≡ true → is_settled (f t).status ≡ is_settled t.status)
    → (id : ℕ)
    → expected_credits (find (topup_is id) (update_where p f s.topups))
      ≡ expected_credits (find (topup_is id) s.topups)
update-settled s p f same keep id =
    rw (find-update_where (topup_is id) p f s.topups (λ t. rw (same t)))
      (change-settled p f keep (find (topup_is id) s.topups))

marks_kept :
    (id : ℕ) (to : TopupStatus) (t : Topup)
    → (to ≡ topup_failed) ⊎ (to ≡ topup_expired)
    → pending_topup id t ≡ true
    → is_settled to ≡ is_settled t.status
marks_kept id to t k h = ground arith

refunded_kept :
    (intent : Text) (t : Topup) → paid_by_intent intent t ≡ true → true ≡ is_settled t.status
refunded_kept intent t h = ground arith

-- The payment of an unsettled top-up is credited, and settles it.
module _ (s : Store) (p : TopupPaid) (c : Paying s p) (h : CreditedOnce s) where
  found_here : find (topup_is c.topup.id) s.topups ≡ some c.topup
  unfolding get_topup
  found_here =
      subst (λ i. find (topup_is i) s.topups ≡ some c.topup)
        (sym ((==_iff c.topup.id p.topup_id).0 (find_sound (topup_is p.topup_id) s.topups c.found)))
        c.found

  unsettled : rows_of (top_up_key c.topup.id) s ≡ 0
  unsettled = ground (arith, h c.topup.id, found_here, c.open_matching)

  now_posted :
      (id : ℕ)
      → rows_of (top_up_key id) c.store
        ≡ (if c.topup.id == id then suc (rows_of (top_up_key id) s) else rows_of (top_up_key id) s)
  unfolding key_eq
  now_posted id = ground (
    arith,
    Applied-rows (with_paid s p c.topup) (topup_entry c.topup p.now) (top_up_key id) (
        apply_ledger-ok (with_paid s p c.topup) (topup_entry c.topup p.now) c.did_credit c.store
          c.applied),
    unknown_rows (top_up_key c.topup.id) s unsettled,
  )

  paid-CreditedOnce : CreditedOnce c.store
  paid-CreditedOnce id = ground (
    arith,
    now_posted id,
    h id,
    unsettled,
    found_here,
    c.open_matching,
    ap (λ o. o.6)
        (apply_ledger-others (with_paid s p c.topup) (topup_entry c.topup p.now) c.applied),
    find-update_key (λ (t : Topup). t.id) (paid_row p) s.topups c.topup.id c.topup (λ t. refl)
        found_here id,
  )

PaidEnds-CreditedOnce :
    (s : Store) (p : TopupPaid) {e : Ended Bool}
    → PaidEnds s p e
    → CreditedOnce s
    → CreditedOnce (store_after s e)
PaidEnds-CreditedOnce s p ignored h = h
PaidEnds-CreditedOnce s p (failed e) h = h
PaidEnds-CreditedOnce s p (paid c) h = paid-CreditedOnce s p c h

PaymentEnds-CreditedOnce :
    (s : Store) (c : PromptPayCharge) (now : ℤ) {e : Ended (Unit {0})}
    → PaymentEnds s c now e
    → CreditedOnce s
    → CreditedOnce (store_after s e)
PaymentEnds-CreditedOnce s c now no_row h id = h id
PaymentEnds-CreditedOnce s c now (taken_intent x) h id = h id
PaymentEnds-CreditedOnce s c now (payment_set t) h id =
    h id ∙ sym (update-settled s (topup_is t.id) (with_payment c now) (λ r. refl) (λ r on. refl) id)

no_topup-find :
    (t : List Topup) (k id : ℕ) → any (topup_is k) t ≡ false → k ≡ id → find (topup_is id) t ≡ none
unfolding find
no_topup-find [] k id h e = refl
no_topup-find (x ∷ t) k id h e = ground (arith, no_topup-find t k id)

create_topup-CreditedOnce :
    (s : Store) (t : Topup)
    → t.status ≡ topup_pending
    → CreditedOnce s
    → CreditedOnce (store_after s (create_topup s t))
unfolding create_topup find
create_topup-CreditedOnce s t k h id = ground (arith, k, h id, no_topup-find s.topups t.id id)

module _ (s t : Store) (w : Write s t) (id : ℕ) where
  -- The rows of a write that posts no top-up.
  same_rows :
      ((e : LedgerEntry) → May w e → (tx_number e.key.event == 1) ≡ false)
      → rows_of (top_up_key id) t ≡ rows_of (top_up_key id) s
  same_rows other = Posts-rows (top_up_key id) (λ e m. other_event e id (other e m)) (Write-Posts w)

  keeps_topups :
      ((e : LedgerEntry) → May w e → (tx_number e.key.event == 1) ≡ false)
      → t.topups ≡ s.topups
      → rows_of (top_up_key id) s ≡ expected_credits (find (topup_is id) s.topups)
      → rows_of (top_up_key id) t ≡ expected_credits (find (topup_is id) t.topups)
  keeps_topups other same h = rw same (same_rows other ∙ h)

Write-CreditedOnce : (s t : Store) → Write s t → CreditedOnce s → CreditedOnce t
unfolding update_provider set_provider_availability set_provider_verified set_provider_status
    create_issue mark_topup mark_topup_refunded
Write-CreditedOnce s t (creates_provider p w k) h id =
    keeps_topups s _ (creates_provider p w k) id (λ e m. welcome_event w e k m)
      (ap (λ o. o.6) (create_provider-others s p w)) (h id)
Write-CreditedOnce s t (adjusts x k) h id =
    keeps_topups s _ (adjusts x k) id (λ e m. ground arith)
      (ap (λ o. o.6) (adjust_credit-others s x)) (h id)
Write-CreditedOnce s t (creates_request r k) h id =
    keeps_topups s _ (creates_request r k) id (λ e m. absurd m)
      (ap (λ m. m.2) (create_request-purse s r)) (h id)
Write-CreditedOnce s t (dismisses r p) h id =
    keeps_topups s _ (dismisses r p) id (λ e m. absurd m)
      (ap (λ m. m.2) (dismiss_request-purse s r p)) (h id)
Write-CreditedOnce s t (offers o now) h id =
    keeps_topups s _ (offers o now) id (λ e m. absurd m)
      (ap (λ m. m.2) (upsert_offer-purse s o now)) (h id)
Write-CreditedOnce s t (selects p) h id =
    keeps_topups s _ (selects p) id (λ e m. absurd m) (ap (λ m. m.2) (select_offer-purse s p))
      (h id)
Write-CreditedOnce s t (rejects o p now) h id =
    keeps_topups s _ (rejects o p now) id (λ e m. absurd m)
      (ap (λ m. m.2) (reject_selection-purse s o p now)) (h id)
Write-CreditedOnce s t (accepts p) h id =
    keeps_topups s _ (accepts p) id (λ e m. rw m) (accept_offer-topups s p) (h id)
Write-CreditedOnce s t (transitions j k) h id =
    keeps_topups s _ (transitions j k) id (λ e m. absurd m)
      (ap (λ m. m.2) (transition_job-till s j)) (h id)
Write-CreditedOnce s t (cancels p k) h id =
    keeps_topups s _ (cancels p k) id (λ e m. refund_event p.refund e k.refund_key m)
      (cancel-topups s p) (h id)
Write-CreditedOnce s t (creates_topup x k) h id = create_topup-CreditedOnce s x k h id
Write-CreditedOnce s t (sets_payment x c now) h id =
    PaymentEnds-CreditedOnce s c now (set_topup_payment-ends s x c now) h id
Write-CreditedOnce s t (marks_paid p) h id =
    PaidEnds-CreditedOnce s p (mark_topup_paid-ends s p) h id
Write-CreditedOnce s t (marks x to now k) h id =
    h id
    ∙ sym (update-settled s (pending_topup x) _ (λ r. refl) (λ r on. marks_kept x to r k on) id)
Write-CreditedOnce s t (marks_refunded i now) h id =
    h id
    ∙ sym (
        update-settled s (paid_by_intent i) (refunded_row now) (λ r. refl)
          (λ r on. refunded_kept i r on) id)
Write-CreditedOnce s t _ h id = h id

-- After any sequence of writes from the empty tables, with payment events repeated and in any
-- order, a top-up has exactly one credit row if its status is paid or refunded, and none otherwise.
pub writes-CreditedOnce :
    (s : Store) (id : ℕ)
    → Writes empty_store s
    → count_by (has_key (top_up_key id)) s.ledger ≡ expected_credits (get_topup s id)
unfolding get_topup
writes-CreditedOnce s id w =
    Writes-induction CreditedOnce Write-CreditedOnce w (unfold find in λ j. refl) id
