-- ===== src/Sos/Access.antt =====
-- Who gets at an SOS: the device that filed it and the device that helps.
use flood_now_backend.Base.{ℕ, ◌≡◌, refl, Bool, true, false, ◌||◌, Option, none, some, arith, holds}
use flood_now_backend.Base.Int.{ℤ}
use flood_now_backend.Base.Text.{Text, text_eq, is_empty}
use flood_now_backend.Base.Float.{Float64}
use mathlib.Core.Option
use flood_now_backend.Postgres.Table.{find}
use flood_now_backend.Apperr.{err}
use flood_now_backend.Program.{run}
use flood_now_backend.Sos.Request.{
  Status, Request, is_text, status_valid, role_of, validate_device_id,
}
use flood_now_backend.Sos.Tables.{Tables, get, request_is, scanned}
use flood_now_backend.Sos.Service.{get_sos, update_status, is_party, no_request}
use flood_now_backend.Sos.Runs.{get_sos-hidden, update_status-hidden}

-- Who may see an SOS, from the tables: the device that filed it and the one that is its helper.
unfoldable pub may_see_sos : Tables → Text → ℕ → Bool
may_see_sos s d id =
    holds (find (request_is id) s.requests)
      (λ r. text_eq r.device_id d || holds r.helper_device_id (λ h. text_eq h d))

sees-party :
    (r : Request) (d : Text)
    → (text_eq r.device_id d || holds r.helper_device_id (λ h. text_eq h d)) ≡ false
    → is_party (role_of (scanned r) d) ≡ false
unfolding role_of is_text is_empty
sees-party r d h = ground arith

outsider-hidden :
    (s : Tables) (d : Text) (id : ℕ)
    → may_see_sos s d id ≡ false
    → holds (get s id) (λ r. is_party (role_of r d)) ≡ false
unfolding may_see_sos get
outsider-hidden s d id h = go (find (request_is id) s.requests) h
  where
    go :
        (o : Option Request)
        → holds o (λ r. text_eq r.device_id d || holds r.helper_device_id (λ h. text_eq h d))
          ≡ false
        → holds (Option.map scanned o) (λ r. is_party (role_of r d)) ≡ false
    go none h = refl
    go (some r) h = sees-party r d h

-- A device that neither filed the SOS nor is its assigned helper, or that names a request that does
-- not exist, gets NOT_FOUND from Get and, with a known status, from UpdateStatus, and changes
-- nothing.
pub outsider-NotFound :
    (f : Float64) (s : Tables) (d : Text) (id : ℕ) (to : Status) (now : ℤ)
    → validate_device_id d ≡ none
    → status_valid to ≡ true
    → may_see_sos s d id ≡ false
    → (run (get_sos f d id now) s ≡ (err no_request, s))
      × (run (update_status f d id to now) s ≡ (err no_request, s))
outsider-NotFound f s d id to now valid known h =
    let unseen = outsider-hidden s d id h in
    (
      get_sos-hidden f now d id valid s unseen,
      update_status-hidden f now d id valid s to known unseen,
    )
