-- ===== src/Sos/Rescue.antt =====
-- A helper who accepts an SOS can carry it through, and what a helper who withdraws is told.
use mathlib.Core.Option
use flood_now_backend.Base.{
  ℕ, ◌≡◌, refl, ap, ◌∙◌, true, false, not, Option, none, some, [], ◌∷◌, arith, count_by, leb,
  if◌then◌else◌,
}
use flood_now_backend.Base.Int.{ℤ}
use flood_now_backend.Base.Text.{Text, text_eq, text_eq_refl, is_empty, byte_len}
use flood_now_backend.Base.Float.{Float64}
use flood_now_backend.Apperr.{ok, err, conflict}
use flood_now_backend.Program.{
  commit, run, transaction-run_ok, run-bind_ok, ◌>>=◌, ◌>>◌, reading, check, present, validated,
}
use flood_now_backend.Postgres.Table.{find, update_where, find-update_where, find_sound}
use flood_now_backend.Postgres.Rows.{any_of_found}
use flood_now_backend.Sos.Request.{
  Status, waiting, matched, on_the_way, arrived, completed, status_eq, status_valid, helper,
  role_of, can_answer, can_transition, Request, is_text, validate_device_id, max_active_assignments,
}
use flood_now_backend.Sos.Helpers.{Helper}
use flood_now_backend.Sos.Tables.{
  Tables, request_is, scanned, get, get_helper, SosTransition, expected, moved, transition,
  insert_sos_event, assigned_to, claimable, claimed, accept_locked, accept,
}
use flood_now_backend.Sos.Service.{
  Use, View, is_party, move_of, no_request, taken, not_waiting, get_sos, update_status, claim,
  accept_sos,
}
use flood_now_backend.Sos.Runs.{
  Answers, get_sos-Answers, get_sos-hidden, moved_to, update_status-moved, moved_to-run,
}

-- The row is assigned to the device, which is not its requester's.
pub record Serves (d : Text) (r : Request) : Type 0 where
  pub apart : text_eq r.device_id d ≡ false
  pub assigned : is_text r.helper_device_id d ≡ true

valid-is_empty : (d : Text) → validate_device_id d ≡ none → is_empty d ≡ false
unfolding validate_device_id is_empty byte_len
valid-is_empty [] h = absurd (cc h)
valid-is_empty (c ∷ d) h = refl

Serves-role_of :
    (d : Text) (r : Request) → validate_device_id d ≡ none → Serves d r → role_of r d ≡ helper
unfolding role_of
Serves-role_of d r valid v = rw (valid-is_empty d valid, v.apart, v.assigned)

module _ (f : Float64) (d : Text) (id : ℕ) (valid : validate_device_id d ≡ none) where
  abbrev helper_move : Request → Status → ℤ → SosTransition
  helper_move r to now = move_of d id r helper to now

  -- The tables after a helper's move.
  abbrev after_move : Tables → SosTransition → Tables
  after_move s t =
      insert_sos_event (record s { requests = update_where (expected t) (moved t) s.requests }) t.id
        t.to t.actor t.now

  module _ (s : Tables) (r : Request) (to : Status) (now : ℤ)
      (found : find (request_is id) s.requests ≡ some r) (v : Serves d r) where
    row_expected : expected (helper_move r to now) r ≡ true
    unfolding expected
    row_expected = ground (arith, find_sound (request_is id) s.requests found, v.assigned)

    move-commits :
        transition s (helper_move r to now) ≡ commit (ok true) (after_move s (helper_move r to now))
    unfolding transition
    move-commits =
        rw
          (any_of_found (expected (helper_move r to now)) (request_is id) s.requests found
            row_expected)
          refl

    move-found :
        find (request_is id) (after_move s (helper_move r to now)).requests
        ≡ some (moved (helper_move r to now) r)
    move-found =
        rw
          (
            find-update_where (request_is id) (expected (helper_move r to now))
                (moved (helper_move r to now)) s.requests (λ x. refl),
            found,
          )
          (rw row_expected refl)

    moved_role : not (status_eq to waiting) ≡ true → Serves d (moved (helper_move r to now) r)
    moved_role kept = record { apart = v.apart; assigned = ground (arith, v.assigned) }

    move-get :
        get (after_move s (helper_move r to now)) id
        ≡ some (scanned (moved (helper_move r to now) r))
    unfolding get
    move-get = rw move-found refl

    module _ (known : status_valid to ≡ true)
        (allowed : can_transition r.status to helper ≡ true) where
      -- UpdateStatus up to its last call, which is Get.
      step-run :
          run (update_status f d id to now) s
          ≡ run (get_sos f d id now) (after_move s (helper_move r to now))
      unfolding get
      step-run =
          let role =
            Serves-role_of d (scanned r) valid
              (record { apart = v.apart; assigned = v.assigned }) in
          update_status-moved f now d id valid s to known
          ∙ ap (λ o. run (moved_to f now d id valid to (Option.map scanned o)) s) found
          ∙ moved_to-run f now d id valid s (after_move s (helper_move r to now)) to (scanned r)
              (rw role refl) (rw role allowed) (rw role move-commits)

  -- The tables after the helper's claim.
  abbrev after_claim : Tables → ℤ → Tables
  after_claim s now =
      insert_sos_event
        (record s { requests = update_where (claimable id d) (claimed d now) s.requests }) id
        matched helper now

  -- Accept, for an active helper who can answer, and who holds fewer requests than allowed.
  module _ (s : Tables) (r : Request) (h : Helper) (now : ℤ)
      (found : find (request_is id) s.requests ≡ some r) (profile : get_helper s d ≡ some h)
      (on : h.active ≡ true) (wait : r.status ≡ waiting) (other : text_eq r.device_id d ≡ false)
      (able : can_answer r.need h.capabilities ≡ true)
      (free : leb max_active_assignments (count_by (assigned_to d) s.requests) ≡ false) where
    row_claimable : claimable id d r ≡ true
    unfolding claimable
    row_claimable = ground (arith, find_sound (request_is id) s.requests found, wait, other)

    claim-commits : accept s id d max_active_assignments now ≡ commit (ok true) (after_claim s now)
    unfolding accept accept_locked
    claim-commits =
        rw
          (
            profile,
            on,
            free,
            any_of_found (claimable id d) (request_is id) s.requests found row_claimable,
          )
          refl

    claim-found : find (request_is id) (after_claim s now).requests ≡ some (claimed d now r)
    claim-found =
        rw
          (
            find-update_where (request_is id) (claimable id d) (claimed d now) s.requests
                (λ x. refl),
            found,
          )
          (rw row_claimable refl)

    claim-Serves : Serves d (claimed d now r)
    unfolding is_text
    claim-Serves = record { apart = other; assigned = text_eq_refl d }

    -- What follows the two reads of Accept.
    abbrev asked : Helper → Option Request → Use View
    asked p o = present o no_request >>= λ q.
        check (not (text_eq q.device_id d)) no_request
        >> (if status_eq q.status waiting then claim f d id now p q else not_waiting f d now q)

    abbrev offered : Option Helper → Use View
    offered o = present o (conflict "turn on helper mode first") >>= λ p.
        check p.active (conflict "turn on helper mode first") >> reading (λ u. get u id) >>= asked p

    started : run (accept_sos f d id now) s ≡ run (offered (get_helper s d)) s
    unfolding accept_sos run reading ◌>>=◌ validated
    started = rw valid refl

    offered-run : run (offered (some h)) s ≡ run (asked h (get s id)) s
    unfolding run reading ◌>>=◌ check present
    offered-run = rw on refl

    asked-run : run (asked h (some (scanned r))) s ≡ run (get_sos f d id now) (after_claim s now)
    unfolding run ◌>>=◌ check present
    asked-run =
        rw (other, wait, able)
          (transaction-run_ok (λ u. accept u id d max_active_assignments now)
            (λ done. check done taken >> get_sos f d id now) s (after_claim s now) true
            claim-commits)

    claim-run : run (accept_sos f d id now) s ≡ run (get_sos f d id now) (after_claim s now)
    unfolding get
    claim-run =
        started
        ∙ ap (λ o. run (offered o) s) profile
        ∙ offered-run
        ∙ ap (λ o. run (asked h (Option.map scanned o)) s) found
        ∙ asked-run

    claim-Answers :
        Answers (accept_sos f d id now) s (after_claim s now) (scanned (claimed d now r)) helper
    unfolding get
    claim-Answers =
        let w = claim-Serves in
        let row = scanned (claimed d now r) in
        let a =
          get_sos-Answers f now d id valid (after_claim s now) row helper (rw claim-found refl)
            (Serves-role_of d row valid (record { apart = w.apart; assigned = w.assigned })) refl in
        record { seen = a.seen; ran = claim-run ∙ a.ran; shows = a.shows; as_role = a.as_role }

  -- UpdateStatus by the helper, who keeps the request.
  step-Answers :
      (s : Tables) (r : Request) (to : Status) (now : ℤ)
      (found : find (request_is id) s.requests ≡ some r) (v : Serves d r)
      → status_valid to ≡ true
      → can_transition r.status to helper ≡ true
      → not (status_eq to waiting) ≡ true
      → Answers
          (update_status f d id to now)
          s
          (after_move s (helper_move r to now))
          (scanned (moved (helper_move r to now) r))
          helper
  step-Answers s r to now found v known allowed kept =
      let w = moved_role s r to now found v kept in
      let row = scanned (moved (helper_move r to now) r) in
      let a =
        get_sos-Answers f now d id valid _ row helper (move-get s r to now found v)
          (Serves-role_of d row valid (record { apart = w.apart; assigned = w.assigned })) refl in
      record {
        seen = a.seen;
        ran = step-run s r to now found v known allowed ∙ a.ran;
        shows = a.shows;
        as_role = a.as_role;
      }

  module _ (s : Tables) (r : Request) (h : Helper) (now1 now2 now3 now4 : ℤ)
      (found : find (request_is id) s.requests ≡ some r) (profile : get_helper s d ≡ some h)
      (on : h.active ≡ true) (wait : r.status ≡ waiting) (other : text_eq r.device_id d ≡ false)
      (able : can_answer r.need h.capabilities ≡ true)
      (free : leb max_active_assignments (count_by (assigned_to d) s.requests) ≡ false) where
    -- A helper who is active, can answer the request, did not file it and holds fewer than three others
    -- can accept a waiting request, wherever either of them is, and carry it through: with no other
    -- use case between the calls,
    -- Accept and then the moves on the way, arrived and completed all succeed, and the last one shows
    -- the request completed.
    pub rescue :
        (seen : View) × (t : Tables) × (run
            (accept_sos f d id now1
              >> update_status f d id on_the_way now2
              >> update_status f d id arrived now3
              >> update_status f d id completed now4)
            s
          ≡ (ok seen, t))
        × (seen.request.status ≡ completed)
        × (seen.role ≡ helper)
    unfolding can_transition
    rescue =
        let r1 = claimed d now1 r in
        let s1 = after_claim s now1 in
        let f1 = claim-found s r h now1 found profile on wait other able free in
        let v1 = claim-Serves s r h now1 found profile on wait other able free in
        let a1 = claim-Answers s r h now1 found profile on wait other able free in
        let a2 = step-Answers s1 r1 on_the_way now2 f1 v1 refl refl refl in
        let r2 = moved (helper_move r1 on_the_way now2) r1 in
        let s2 = after_move s1 (helper_move r1 on_the_way now2) in
        let f2 = move-found s1 r1 on_the_way now2 f1 v1 in
        let v2 = moved_role s1 r1 on_the_way now2 f1 v1 refl in
        let a3 = step-Answers s2 r2 arrived now3 f2 v2 refl refl refl in
        let r3 = moved (helper_move r2 arrived now3) r2 in
        let s3 = after_move s2 (helper_move r2 arrived now3) in
        let f3 = move-found s2 r2 arrived now3 f2 v2 in
        let v3 = moved_role s2 r2 arrived now3 f2 v2 refl in
        let a4 = step-Answers s3 r3 completed now4 f3 v3 refl refl refl in
        let u2 = update_status f d id on_the_way now2 in
        let u3 = update_status f d id arrived now3 in
        let u4 = update_status f d id completed now4 in
        let ran2 = run-bind_ok (accept_sos f d id now1) (λ _. u2) s s1 a1.seen a1.ran ∙ a2.ran in
        let ran3 =
          run-bind_ok (accept_sos f d id now1 >> u2) (λ _. u3) s s2 a2.seen ran2 ∙ a3.ran in
        (
          a4.seen,
          after_move s3 (helper_move r3 completed now4),
          run-bind_ok (accept_sos f d id now1 >> u2 >> u3) (λ _. u4) s s3 a3.seen ran3 ∙ a4.ran,
          ap (λ (x : Request). x.status) a4.shows,
          a4.as_role,
        )

  left-role :
      (r : Request) (now : ℤ)
      → Serves d r
      → is_party (role_of (scanned (moved (helper_move r waiting now) r)) d) ≡ false
  unfolding role_of is_text
  left-role r now v = rw (valid-is_empty d valid, v.apart) refl

  -- A helper who withdraws from a request that they have not reached puts it back to the pool, and is
  -- answered NOT_FOUND, as if nothing had been done.
  pub withdraw-NotFound :
      (s : Tables) (r : Request) (now : ℤ)
      → find (request_is id) s.requests ≡ some r
      → Serves d r
      → can_transition r.status waiting helper ≡ true
      → (t : Tables) × (run (update_status f d id waiting now) s ≡ (err no_request, t))
        × (row : Request) × (find (request_is id) t.requests ≡ some row)
        × (row.status ≡ waiting)
        × (row.helper_device_id ≡ none)
  withdraw-NotFound s r now found v allowed = (
    after_move s (helper_move r waiting now),
    step-run s r waiting now found v refl allowed
        ∙ get_sos-hidden f now d id valid _
            (rw (move-get s r waiting now found v) (left-role r now v)),
    moved (helper_move r waiting now) r,
    move-found s r waiting now found v,
    refl,
    refl,
  )
