-- ===== src/Postgres/Jobs/Ends.antt =====
-- The ways in which Cancel ends, with what each of them has read.
use flood_now_backend.Base.{
  ◌≡◌, refl, Bool, true, false, not, ◌&&◌, Option, none, some, is_set, inl, inr, Bool-cases,
}
use flood_now_backend.Apperr.{Error, Result, ok, err}
use flood_now_backend.LocalService.Request.{Request, status_eq, role_provider, role_eq}
use flood_now_backend.LocalService.Wallet.{LedgerEntry}
use flood_now_backend.Postgres.Table.{find}
use flood_now_backend.Postgres.Store.{Store, Ended, commit, rollback, active_match_of}
use flood_now_backend.Postgres.Ledger.{apply_ledger}
use flood_now_backend.Postgres.Requests.{lock_request}
use flood_now_backend.Postgres.Jobs.{
  CancelParams, refunded, pay_refund, cancel_in, cancel_locked, cancel,
}

-- The request under its lock, still in the status that the caller saw.
pub record Cancelling (s : Store) (p : CancelParams) : Type 0 where
  pub request : Request
  pub store : Store
  pub request_locked : lock_request s p.request_id p.now ≡ some (request, store)
  pub unchanged : status_eq request.status p.from ≡ true
  pub has_match :
      (role_eq p.actor role_provider
        && not (is_set (find (active_match_of p.request_id) store.matches)))
      ≡ false

pub data CancelEnds (s : Store) (p : CancelParams) : Ended Bool → Type 0 where
  nothing : CancelEnds s p (rollback (ok false))
  unpaid : (e : Error) → CancelEnds s p (rollback (err e))
  changed :
      (r : Request) (s1 : Store)
      → lock_request s p.request_id p.now ≡ some (r, s1)
      → CancelEnds s p (commit (ok false) s1)
  plain :
      (c : Cancelling s p)
      → p.refund ≡ none
      → CancelEnds s p (commit (ok true) (cancel_in c.store p c.request))
  repaid :
      (c : Cancelling s p) (e : LedgerEntry) (done : Bool) (s2 : Store)
      → p.refund ≡ some e
      → apply_ledger (cancel_in c.store p c.request) e ≡ ok (done, s2)
      → CancelEnds s p (commit (ok true) s2)

module _ (s : Store) (p : CancelParams) where
  refunded-ends :
      (c : Cancelling s p) (e : LedgerEntry)
      → p.refund ≡ some e
      → (o : Result (Bool × Store)) → apply_ledger (cancel_in c.store p c.request) e ≡ o
      → CancelEnds s p (refunded o)
  refunded-ends c e h (err x) run = unpaid x
  refunded-ends c e h (ok (done, s2)) run = repaid c e done s2 h run

  pay_refund-ends :
      (c : Cancelling s p) (o : Option LedgerEntry)
      → p.refund ≡ o
      → CancelEnds s p (pay_refund (cancel_in c.store p c.request) o)
  pay_refund-ends c none h = plain c h
  pay_refund-ends c (some e) h = refunded-ends c e h _ refl

  cancel_locked-ends :
      (k : Option (Request × Store))
      → lock_request s p.request_id p.now ≡ k
      → CancelEnds s p (cancel_locked p k)
  cancel_locked-ends none h = nothing
  cancel_locked-ends (some (r, s1)) h = elim (Bool-cases (status_eq r.status p.from)) [
    | inr moved ↦ rw moved (changed r s1 h)
    | inl same ↦
        elim (Bool-cases (
          role_eq p.actor role_provider
          && not (is_set (find (active_match_of p.request_id) s1.matches)))) [
            | inl no_match ↦ rw (same, no_match) nothing
            | inr has ↦
                rw (same, has)
                  (pay_refund-ends
                    (record {
                      request = r;
                      store = s1;
                      request_locked = h;
                      unchanged = same;
                      has_match = has;
                    })
                    _ refl)
          ]
  ]

  pub cancel-ends : CancelEnds s p (cancel s p)
  unfolding cancel
  cancel-ends = cancel_locked-ends _ refl
