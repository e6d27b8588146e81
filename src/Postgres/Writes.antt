-- ===== src/Postgres/Writes.antt =====
-- Every write of the repository, with what the service guarantees of its arguments, and the
-- sequences of them: any interleaving of any number of requests is such a sequence, since each
-- write is one transaction (or one statement) under the locks that it takes.
use flood_now_backend.Base.{ℕ, ◌≡◌, Bool, true, Option, none, some, ◌⊎◌}
use flood_now_backend.Base.Int.{ℤ}
use flood_now_backend.Base.Text.{Text}
use flood_now_backend.LocalService.Provider.{Provider, ProviderStatus}
use flood_now_backend.LocalService.Request.{
  status_open, role_provider, role_eq, Request, can_transition, can_cancel,
}
use flood_now_backend.LocalService.Offer.{Offer, Issue}
use flood_now_backend.LocalService.Wallet.{
  tx_welcome_credit, tx_refund, tx_admin_adjustment, LedgerEntry, TopupStatus, topup_pending,
  topup_failed, topup_expired, Topup,
}
use flood_now_backend.Postgres.Store.{Store, store_after}
use flood_now_backend.Postgres.Providers.{
  create_provider, update_provider, set_provider_availability, set_provider_verified,
  set_provider_status, adjust_credit,
}
use flood_now_backend.Postgres.Requests.{
  create_request, dismiss_request, create_issue, upsert_offer,
}
use flood_now_backend.Postgres.Matching.{SelectOfferParams, select_offer, reject_selection}
use flood_now_backend.Postgres.Accepting.{AcceptOfferParams, accept_offer}
use flood_now_backend.Postgres.Jobs.{JobTransition, transition_job, CancelParams, cancel}
use flood_now_backend.Postgres.Topups.{
  create_topup, PromptPayCharge, set_topup_payment, TopupPaid, mark_topup_paid, mark_topup,
  mark_topup_refunded,
}

-- The entries that the service hands over carry the key of their event.
abbrev pub IsWelcome : Option LedgerEntry → Type 0
IsWelcome none = Unit
IsWelcome (some e) = e.key.event ≡ tx_welcome_credit

abbrev pub IsRefundEntry : Option LedgerEntry → Type 0
IsRefundEntry none = Unit
IsRefundEntry (some e) = e.key.event ≡ tx_refund

-- What Service.Cancel checks and decides before it calls the repository.
pub record MayCancel (p : CancelParams) : Type 0 where
  pub allowed : can_cancel p.from p.actor ≡ true
  pub reopens : p.reopen ≡ role_eq p.actor role_provider
  pub refund_key : IsRefundEntry p.refund

pub data Write (s : Store) : Store → Type 0 where
  creates_provider :
      (p : Provider) (w : Option LedgerEntry)
      → IsWelcome w
      → Write s (store_after s (create_provider s p w))
  updates_provider : (p : Provider) → Write s (update_provider s p)
  sets_availability :
      (id : ℕ) (on : Bool) (now : ℤ) → Write s (set_provider_availability s id on now)
  verifies : (id : ℕ) (at : Option ℤ) (now : ℤ) → Write s (set_provider_verified s id at now)
  sets_status : (id : ℕ) (st : ProviderStatus) (now : ℤ) → Write s (set_provider_status s id st now)
  adjusts :
      (e : LedgerEntry)
      → e.key.event ≡ tx_admin_adjustment
      → Write s (store_after s (adjust_credit s e))
  creates_request :
      (r : Request) → r.status ≡ status_open → Write s (store_after s (create_request s r))
  dismisses : (request_id provider_id : ℕ) → Write s (dismiss_request s request_id provider_id)
  reports : (i : Issue) → Write s (create_issue s i)
  offers : (o : Offer) (now : ℤ) → Write s (store_after s (upsert_offer s o now))
  selects : (p : SelectOfferParams) → Write s (store_after s (select_offer s p))
  rejects :
      (offer_id provider_id : ℕ) (now : ℤ)
      → Write s (store_after s (reject_selection s offer_id provider_id now))
  accepts : (p : AcceptOfferParams) → Write s (store_after s (accept_offer s p))
  transitions :
      (t : JobTransition)
      → can_transition t.from t.to t.actor ≡ true
      → Write s (store_after s (transition_job s t))
  cancels : (p : CancelParams) → MayCancel p → Write s (store_after s (cancel s p))
  creates_topup :
      (t : Topup) → t.status ≡ topup_pending → Write s (store_after s (create_topup s t))
  sets_payment :
      (id : ℕ) (c : PromptPayCharge) (now : ℤ)
      → Write s (store_after s (set_topup_payment s id c now))
  marks_paid : (p : TopupPaid) → Write s (store_after s (mark_topup_paid s p))
  marks :
      (id : ℕ) (to : TopupStatus) (now : ℤ)
      → (to ≡ topup_failed) ⊎ (to ≡ topup_expired)
      → Write s (mark_topup s id to now)
  marks_refunded : (intent : Text) (now : ℤ) → Write s (mark_topup_refunded s intent now).1

pub data Writes (s : Store) : Store → Type 0 where
  done : Writes s s
  next : {t u : Store} → Writes s t → Write t u → Writes s u

pub Writes-trans : {s t u : Store} → Writes s t → Writes t u → Writes s u
Writes-trans w done = w
Writes-trans w (next v x) = next (Writes-trans w v) x

-- An invariant of every write is one of every sequence.
pub Writes-induction :
    (P : Store → Type 0)
    → ((s t : Store) → Write s t → P s → P t)
    → {s t : Store} → Writes s t
    → P s
    → P t
Writes-induction P keep done h = h
Writes-induction P keep (next {t = m} {u = u} w x) h = keep m u x (Writes-induction P keep w h)
