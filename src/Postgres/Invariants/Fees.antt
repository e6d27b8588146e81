-- ===== src/Postgres/Invariants/Fees.antt =====
-- What each write does to the matches and the fees that were charged for them.
use mathlib.Core.Option
use flood_now_backend.Base.{
  holds, ℕ, suc, ◌≡◌, refl, sym, ap, ◌∙◌, Bool, true, false, ◌&&◌, Option, none, some, List, arith,
  ◌==◌, if◌then◌else◌, Bool-cases, inl, inr,
}
use flood_now_backend.Base.Int.{pos, ltb_ℤ}
use flood_now_backend.Apperr.{ok, err, Result}
use flood_now_backend.LocalService.Request.{Request, status_eq, status_on_the_way, status_completed}
use flood_now_backend.LocalService.Offer.{Match, charged}
use flood_now_backend.LocalService.Wallet.{tx_number, key_eq, match_fee_key, LedgerEntry}
use flood_now_backend.Postgres.Table.{find, update_where, change, find-update_where}
use flood_now_backend.Postgres.Store.{
  Store, Ended, store_after, match_of_offer, active_match_of, get_request,
}
use flood_now_backend.Postgres.Balance.{apply_ledger-ok}
use flood_now_backend.Postgres.Accepting.{AcceptOfferParams, AcceptResult, fee_entry, accept_in}
use flood_now_backend.Postgres.Accepting.Ends.{
  AcceptEnds, Fresh, refused, stale, again, fresh, with_match,
}
use flood_now_backend.Postgres.Jobs.{
  JobTransition, travel_started, job_done, matches_after, transition_job, CancelParams, called_off,
  cancel_in,
}
use flood_now_backend.Postgres.Jobs.Ends.{CancelEnds, nothing, unpaid, changed, plain, repaid}
use flood_now_backend.Postgres.Frames.{purse, Fresh-matches, locked-purse}
use flood_now_backend.Postgres.Others.{apply_ledger-others}
use flood_now_backend.Postgres.Writes.{Write}
use flood_now_backend.Postgres.LedgerWrites.{May, Write-Posts}
use flood_now_backend.Postgres.Invariants.Credits.{
  rows_of, expected_fees, ChargedOnce, Posts-rows, Applied-rows, unknown_rows,
}

pub other_event :
    (e : LedgerEntry) (id : ℕ)
    → (tx_number e.key.event == 2) ≡ false
    → key_eq e.key (match_fee_key id) ≡ false
unfolding key_eq
other_event e id h = ground arith

-- An update of matches that keeps their offer and their fee.
change-fees :
    (p : Match → Bool) (f : Match → Match)
    → ((m : Match) → charged (f m) ≡ charged m)
    → (o : Option Match) → expected_fees (Option.map (change p f) o) ≡ expected_fees o
change-fees p f keep none = refl
change-fees p f keep (some m) = ground (arith, keep m)

pub update-fees :
    (ms : List Match) (p : Match → Bool) (f : Match → Match)
    → ((m : Match) → (f m).offer_id ≡ m.offer_id)
    → ((m : Match) → charged (f m) ≡ charged m)
    → (id : ℕ)
    → expected_fees (find (match_of_offer id) (update_where p f ms))
      ≡ expected_fees (find (match_of_offer id) ms)
update-fees ms p f same keep id =
    rw (find-update_where (match_of_offer id) p f ms (λ m. rw (same m)))
      (change-fees p f keep (find (match_of_offer id) ms))

ChargedOnce-purse : (s t : Store) → purse t ≡ purse s → ChargedOnce s → ChargedOnce t
ChargedOnce-purse s t e h id = rw (ap (λ m. m.1) e, ap (λ m. m.3) e) (h id)

module _ (s : Store) (p : AcceptOfferParams) (f : Fresh s p) (h : ChargedOnce s) where
  abbrev fee_due : Bool
  fee_due = p.charge && ltb_ℤ (pos 0) p.fee

  before : purse f.store ≡ purse s
  before = locked-purse s f.offer.request_id p.now f.request_locked

  uncharged : rows_of (match_fee_key p.offer_id) f.store ≡ 0
  uncharged = ground (arith, h p.offer_id, f.no_match, ap (λ m. m.1) before, ap (λ m. m.3) before)

  due_posted :
      (id : ℕ)
      → fee_due ≡ true
      → rows_of (match_fee_key id) f.charged_store ≡ (
          if p.offer_id == id
          then suc (rows_of (match_fee_key id) f.store)
          else rows_of (match_fee_key id) f.store)
  unfolding key_eq
  due_posted id due = ground (
    arith,
    Applied-rows (with_match p f.request f.store) (fee_entry p) (match_fee_key id) (
        apply_ledger-ok (with_match p f.request f.store) (fee_entry p) f.did_charge f.charged_store
          (rw due at f.charged)),
    unknown_rows (match_fee_key p.offer_id) f.store uncharged,
  )

  waived_kept :
      (id : ℕ)
      → fee_due ≡ false
      → rows_of (match_fee_key id) f.charged_store ≡ rows_of (match_fee_key id) f.store
  waived_kept id free = sym (ap kept (rw free at f.charged))
    where
      kept : Result (Bool × Store) → ℕ
      kept (ok (d, t)) = rows_of (match_fee_key id) t
      kept (err e) = 0

  fresh-ChargedOnce : ChargedOnce (accept_in f.charged_store p f.request)
  unfolding find charged
  fresh-ChargedOnce id = elim (Bool-cases fee_due) [
    | inl due ↦
        rw (Fresh-matches s p f, due_posted id due)
          (ground (arith, h id, due, uncharged, ap (λ m. m.1) before))
    | inr free ↦
        rw (Fresh-matches s p f, waived_kept id free)
          (ground (arith, h id, free, uncharged, ap (λ m. m.1) before))
  ]

pub AcceptEnds-ChargedOnce :
    (s : Store) (p : AcceptOfferParams) {e : Ended AcceptResult}
    → AcceptEnds s p e
    → ChargedOnce s
    → ChargedOnce (store_after s e)
AcceptEnds-ChargedOnce s p (refused e) h = h
AcceptEnds-ChargedOnce s p (stale l e) h =
    ChargedOnce-purse s l.store (locked-purse s l.offer.request_id p.now l.request_locked) h
AcceptEnds-ChargedOnce s p (again l m k) h =
    ChargedOnce-purse s l.store (locked-purse s l.offer.request_id p.now l.request_locked) h
AcceptEnds-ChargedOnce s p (fresh f) h = fresh-ChargedOnce s p f h

module _ (s t : Store) (w : Write s t) (id : ℕ) where
  pub keeps_fees :
      ((e : LedgerEntry) → May w e → (tx_number e.key.event == 2) ≡ false)
      → expected_fees (find (match_of_offer id) t.matches)
        ≡ expected_fees (find (match_of_offer id) s.matches)
      → rows_of (match_fee_key id) s ≡ expected_fees (find (match_of_offer id) s.matches)
      → rows_of (match_fee_key id) t ≡ expected_fees (find (match_of_offer id) t.matches)
  keeps_fees other same h =
      Posts-rows (match_fee_key id) (λ e m. other_event e id (other e m)) (Write-Posts w)
      ∙ h
      ∙ sym same

-- The matches after a cancellation, and after a move of the job.
cancelled_matches :
    (s : Store) (p : CancelParams) (r : Request) (id : ℕ)
    → expected_fees (find (match_of_offer id) (cancel_in s p r).matches)
      ≡ expected_fees (
          find
            (match_of_offer id)
            (update_where (active_match_of p.request_id) (called_off p) s.matches))
cancelled_matches s p r id = ap (λ ms. expected_fees (find (match_of_offer id) ms)) (ground arith)

cancel_in-fees :
    (s : Store) (p : CancelParams) (r : Request) (id : ℕ)
    → expected_fees (find (match_of_offer id) (cancel_in s p r).matches)
      ≡ expected_fees (find (match_of_offer id) s.matches)
unfolding charged
cancel_in-fees s p r id =
    cancelled_matches s p r id
    ∙ update-fees s.matches (active_match_of p.request_id) (called_off p) (λ m. refl) (λ m. refl) id

pub CancelEnds-fees :
    (s : Store) (p : CancelParams) (id : ℕ) {e : Ended Bool}
    → CancelEnds s p e
    → expected_fees (find (match_of_offer id) (store_after s e).matches)
      ≡ expected_fees (find (match_of_offer id) s.matches)
CancelEnds-fees s p id nothing = refl
CancelEnds-fees s p id (unpaid x) = refl
CancelEnds-fees s p id (changed r s1 h) =
    ap (λ m. expected_fees (find (match_of_offer id) m.3)) (locked-purse s p.request_id p.now h)
CancelEnds-fees s p id (plain c h) =
    cancel_in-fees c.store p c.request id
    ∙ ap (λ m. expected_fees (find (match_of_offer id) m.3))
        (locked-purse s p.request_id p.now c.request_locked)
CancelEnds-fees s p id (repaid c e done s2 h run) =
    ap (λ o. expected_fees (find (match_of_offer id) o.4))
      (apply_ledger-others (cancel_in c.store p c.request) e run)
    ∙ cancel_in-fees c.store p c.request id
    ∙ ap (λ m. expected_fees (find (match_of_offer id) m.3))
        (locked-purse s p.request_id p.now c.request_locked)

matches_after-fees :
    (t : JobTransition) (ms : List Match) (id : ℕ)
    → expected_fees (find (match_of_offer id) (matches_after t ms))
      ≡ expected_fees (find (match_of_offer id) ms)
unfolding charged
matches_after-fees t ms id = elim (Bool-cases (status_eq t.to status_on_the_way)) [
  | inl off ↦ rw off (
      update-fees ms (active_match_of t.request_id) (travel_started t.now) (λ m. refl) (λ m. refl)
        id)
  | inr other ↦ elim (Bool-cases (status_eq t.to status_completed)) [
    | inl over ↦
        rw (other, over)
          (update-fees ms (active_match_of t.request_id) (job_done t.now) (λ m. refl) (λ m. refl)
            id)
    | inr none_of_them ↦ rw (other, none_of_them)
  ]
]

pub transition_job-fees :
    (s : Store) (t : JobTransition) (id : ℕ)
    → expected_fees (find (match_of_offer id) (store_after s (transition_job s t)).matches)
      ≡ expected_fees (find (match_of_offer id) s.matches)
unfolding transition_job
transition_job-fees s t id =
    elim (Bool-cases (holds (get_request s t.request_id) (λ r. status_eq r.status t.from))) [
      | inl there ↦ rw there (matches_after-fees t s.matches id)
      | inr gone ↦ rw gone
    ]
