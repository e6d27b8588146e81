-- ===== src/Postgres/Settled.antt =====
-- A top-up that was paid, over the writes that follow.
use mathlib.Core.Path.{subst}
use flood_now_backend.Base.{
  ℕ, ◌≤◌, ◌≡◌, refl, sym, ap, Bool, false, Option, none, some, arith, ==_iff, ==_refl,
}
use flood_now_backend.Apperr.{ok}
use flood_now_backend.LocalService.Wallet.{Key, top_up_key, LedgerEntry, Topup}
use flood_now_backend.Postgres.Table.{find, find-update_key, find_sound}
use flood_now_backend.Postgres.Store.{
  Store, empty_store, Ended, commit, rollback, store_after, topup_is, get_topup,
}
use flood_now_backend.Postgres.Balance.{Applied}
use flood_now_backend.Postgres.Posts.{Posts, unposted, posts}
use flood_now_backend.Postgres.LedgerWrites.{Write-Posts}
use flood_now_backend.Postgres.Topups.{
  TopupPaid, topup_entry, paid_row, with_paid, mark_found, mark_topup_paid,
}
use flood_now_backend.Postgres.Topups.Ends.{
  PaidEnds, ignored, failed, paid, Paying, mark_topup_paid-ends,
}
use flood_now_backend.Postgres.Others.{apply_ledger-others}
use flood_now_backend.Postgres.Writes.{marks_paid, Writes, next, Writes-trans, Writes-induction}
use flood_now_backend.Postgres.Invariants.Credits.{rows_of, expected_credits, Applied-rows}
use flood_now_backend.Postgres.Invariants.Topups.{writes-CreditedOnce}

-- No write takes a row off the ledger.
Applied-kept :
    (s : Store) (e : LedgerEntry) (k : Key) {done : Bool} {t : Store}
    → Applied s e done t
    → rows_of k s ≤ rows_of k t
Applied-kept s e k a = ground (arith, Applied-rows s e k a)

Posts-kept :
    {P : LedgerEntry → Type 0} {s t : Store} → Posts P s t → (k : Key) → rows_of k s ≤ rows_of k t
Posts-kept (unposted e) k = rw e (omega arith)
Posts-kept (posts s0 s1 e done p before a after) k = rw (after, ← before) (Applied-kept s0 e k a)

writes-kept : (s t : Store) (k : Key) → Writes s t → rows_of k s ≤ rows_of k t
writes-kept s t k w =
    Writes-induction (λ u. rows_of k s ≤ rows_of k u)
      (λ u v x h. omega (arith, h, Posts-kept (Write-Posts x) k)) w (omega arith)

settled : (o : Option Topup) → expected_credits o ≤ 1
settled none = omega arith
settled (some t) = ground arith

-- A paid top-up stays settled.
later-settled :
    (t u : Store) (id : ℕ)
    → Writes empty_store t
    → Writes t u
    → expected_credits (get_topup t id) ≡ 1
    → expected_credits (get_topup u id) ≡ 1
later-settled t u id v w h = omega (
  arith,
  h,
  settled (get_topup u id),
  writes-CreditedOnce t id v,
  writes-CreditedOnce u id (Writes-trans v w),
  writes-kept t u (top_up_key id) w,
)

mark_found-settled :
    (u : Store) (q : TopupPaid) (o : Option Topup)
    → expected_credits o ≡ 1
    → mark_found u q o ≡ rollback (ok false)
mark_found-settled u q none h = absurd (omega (arith, h))
mark_found-settled u q (some t) h = ground (arith, h)

module _ (s : Store) (p : TopupPaid) where
  paid-found : (c : Paying s p) → get_topup c.store p.topup_id ≡ some (paid_row p c.topup)
  unfolding get_topup
  paid-found c =
      let id_is : c.topup.id ≡ p.topup_id =
        (==_iff c.topup.id p.topup_id).0 (find_sound (topup_is p.topup_id) s.topups c.found) in
      rw (
        ap (λ o. o.6)
            (apply_ledger-others (with_paid s p c.topup) (topup_entry c.topup p.now) c.applied),
        find-update_key (λ (t : Topup). t.id) (paid_row p) s.topups c.topup.id c.topup (λ t. refl)
            (subst (λ i. find (topup_is i) s.topups ≡ some c.topup) (sym id_is) c.found) p.topup_id,
        id_is,
        ==_refl p.topup_id,
      )

  PaidEnds-settled :
      (d : Bool) (t : Store) {e : Ended Bool}
      → PaidEnds s p e
      → e ≡ commit (ok d) t
      → expected_credits (get_topup t p.topup_id) ≡ 1
  PaidEnds-settled d t ignored h = absurd (cc h)
  PaidEnds-settled d t (failed x) h = absurd (cc h)
  PaidEnds-settled d t (paid c) h =
      subst (λ u. expected_credits (get_topup u p.topup_id) ≡ 1) (ap (store_after s) h)
        (rw (paid-found c) refl)

-- Once MarkTopupPaid has committed on tables that writes have made, another MarkTopupPaid of that
-- top-up after any further writes, with whatever payment, reports no credit and changes nothing.
pub mark_topup_paid-again :
    (s t u : Store) (p q : TopupPaid) (done : Bool)
    → Writes empty_store s
    → mark_topup_paid s p ≡ commit (ok done) t
    → Writes t u
    → q.topup_id ≡ p.topup_id
    → mark_topup_paid u q ≡ rollback (ok false)
unfolding mark_topup_paid
mark_topup_paid-again s t u p q done made h later same =
    let first : Writes empty_store t =
      subst (Writes empty_store) (ap (store_after s) h) (next made (marks_paid p)) in
    let now = PaidEnds-settled s p done t (mark_topup_paid-ends s p) h in
    mark_found-settled u q (get_topup u q.topup_id)
      (rw same (later-settled t u p.topup_id first later now))
