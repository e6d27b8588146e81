-- ===== src/Sos/Runs.antt =====
-- What the SOS use cases answer when they run with no other request between their calls.
use flood_now_backend.Base.{
  ℕ, ◌≡◌, refl, ap, ◌∙◌, true, false, not, ◌&&◌, Option, none, some, holds, Option-cases,
  Bool-cases, inl, inr,
}
use flood_now_backend.Base.Int.{ℤ}
use flood_now_backend.Base.Text.{Text}
use flood_now_backend.Base.Float.{Float64}
use flood_now_backend.Apperr.{ok, err}
use flood_now_backend.Program.{
  run, run-bind_ok, ◌>>=◌, ◌>>◌, reading, check, present, validated, transaction, commit,
  transaction-run_ok,
}
use flood_now_backend.Sos.Request.{
  Status, status_eq, status_valid, waiting, is_closed, Role, requester, role_eq, role_of,
  can_transition, Request, validate_device_id,
}
use flood_now_backend.Sos.Helpers.{Helper}
use flood_now_backend.Sos.Tables.{Tables, get, events_of, get_helper, transition}
use flood_now_backend.Sos.Nearby.{count_helpers_near}
use flood_now_backend.Sos.Service.{
  Use, View, view, helper_shown, count_shown, count_query, get_sos, move, move_of, update_status,
  is_party, no_request, changed,
}

-- What a run that succeeds leads to.
pub record Answers (m : Use View) (s t : Tables) (r : Request) (role : Role) : Type 0 where
  pub seen : View
  pub ran : run m s ≡ (ok seen, t)
  pub shows : seen.request ≡ r
  pub as_role : seen.role ≡ role

helper_shown-run :
    (r : Request) (role : Role) (s : Tables)
    → (o : Option Helper) × (run (helper_shown r role) s ≡ (ok o, s))
unfolding run reading
helper_shown-run r role s = elim (Option-cases r.helper_device_id) [
  | inl h ↦ (none, rw h refl)
  | inr (d, h) ↦ elim (Bool-cases (role_eq role requester && not (is_closed r.status))) [
    | inl e ↦ (get_helper s d, rw (h, e) refl)
    | inr e ↦ (none, rw (h, e) refl)
  ]
]

module _ (f : Float64) (now : ℤ) where
  count_shown-run :
      (r : Request) (role : Role) (s : Tables)
      → (o : Option ℕ) × (run (count_shown f r role now) s ≡ (ok o, s))
  unfolding run reading ◌>>=◌
  count_shown-run r role s =
      elim (Bool-cases (role_eq role requester && status_eq r.status waiting)) [
        | inl e ↦ (some (count_helpers_near f s (count_query r now)), rw e refl)
        | inr e ↦ (none, rw e refl)
      ]

  -- A view only reads.
  view-Answers : (r : Request) (role : Role) (s : Tables) → Answers (view f r role now) s s r role
  unfolding view run reading ◌>>=◌
  view-Answers r role s =
      let (o, p) = helper_shown-run r role s in
      let (n, q) = count_shown-run r role s in
      record {
        seen = record {
          request = r;
          role = role;
          events = events_of s r.id;
          helper = o;
          nearby_helpers = n;
        };
        ran =
            run-bind_ok (helper_shown r role) _ s s o p
            ∙ run-bind_ok (count_shown f r role now) _ s s n q;
        shows = refl;
        as_role = refl;
      }

  module _ (d : Text) (id : ℕ) (valid : validate_device_id d ≡ none) where
    -- What follows the read of Get.
    abbrev pub shown_to : Option Request → Use View
    shown_to o = present o no_request >>= λ r.
        check (is_party (role_of r d)) no_request >> view f r (role_of r d) now

    pub get_sos-shown : (s : Tables) → run (get_sos f d id now) s ≡ run (shown_to (get s id)) s
    unfolding get_sos run reading ◌>>=◌ validated
    get_sos-shown s = rw valid refl

    shown_to-run :
        (s : Tables) (r : Request) (role : Role)
        → role_of r d ≡ role
        → is_party role ≡ true
        → run (shown_to (some r)) s ≡ run (view f r role now) s
    unfolding run ◌>>=◌ check present
    shown_to-run s r role is party = rw (is, party) refl

    -- Get, for a caller with a part in the request, and for one with none.
    pub get_sos-Answers :
        (s : Tables) (r : Request) (role : Role)
        → get s id ≡ some r
        → role_of r d ≡ role
        → is_party role ≡ true
        → Answers (get_sos f d id now) s s r role
    get_sos-Answers s r role found is party =
        let v = view-Answers r role s in
        record {
          seen = v.seen;
          ran =
              get_sos-shown s
              ∙ ap (λ o. run (shown_to o) s) found
              ∙ shown_to-run s r role is party
              ∙ v.ran;
          shows = v.shows;
          as_role = v.as_role;
        }

    shown_to-hidden :
        (s : Tables) (o : Option Request)
        → holds o (λ r. is_party (role_of r d)) ≡ false
        → run (shown_to o) s ≡ (err no_request, s)
    unfolding run ◌>>=◌ check present
    shown_to-hidden s none h = refl
    shown_to-hidden s (some r) h = rw h refl

    pub get_sos-hidden :
        (s : Tables)
        → holds (get s id) (λ r. is_party (role_of r d)) ≡ false
        → run (get_sos f d id now) s ≡ (err no_request, s)
    get_sos-hidden s h = get_sos-shown s ∙ shown_to-hidden s (get s id) h

    -- What follows the read of UpdateStatus.
    abbrev pub moved_to : Status → Option Request → Use View
    moved_to to o = present o no_request >>= λ r.
        check (is_party (role_of r d)) no_request >> move f d id r to now

    pub update_status-moved :
        (s : Tables) (to : Status)
        → status_valid to ≡ true
        → run (update_status f d id to now) s ≡ run (moved_to to (get s id)) s
    unfolding update_status run reading ◌>>=◌ validated check
    update_status-moved s to known = rw (valid, known) refl

    moved_to-hidden :
        (s : Tables) (to : Status) (o : Option Request)
        → holds o (λ r. is_party (role_of r d)) ≡ false
        → run (moved_to to o) s ≡ (err no_request, s)
    unfolding run ◌>>=◌ check present
    moved_to-hidden s to none h = refl
    moved_to-hidden s to (some r) h = rw h refl

    pub update_status-hidden :
        (s : Tables) (to : Status)
        → status_valid to ≡ true
        → holds (get s id) (λ r. is_party (role_of r d)) ≡ false
        → run (update_status f d id to now) s ≡ (err no_request, s)
    update_status-hidden s to known h =
        update_status-moved s to known ∙ moved_to-hidden s to (get s id) h

    -- A move that is allowed and whose transaction applies.
    pub moved_to-run :
        (s t : Tables) (to : Status) (r : Request)
        → is_party (role_of r d) ≡ true
        → can_transition r.status to (role_of r d) ≡ true
        → transition s (move_of d id r (role_of r d) to now) ≡ commit (ok true) t
        → run (moved_to to (some r)) s ≡ run (get_sos f d id now) t
    unfolding run ◌>>=◌ check present transaction
    moved_to-run s t to r party allowed went =
        rw (party, allowed)
          (transaction-run_ok (λ u. transition u (move_of d id r (role_of r d) to now))
            (λ done. check done changed >> get_sos f d id now) s t true went)
