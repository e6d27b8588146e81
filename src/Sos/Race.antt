-- ===== src/Sos/Race.antt =====
-- Two helpers who accept the same SOS.
use flood_now_backend.Base.{
  ℕ, ◌≤◌, ◌≡◌, refl, Bool, true, false, List, [], ◌∷◌, arith, any, count_by, ◌==◌, Bool-cases, inl,
  inr,
}
use flood_now_backend.Base.Int.{ℤ}
use flood_now_backend.Base.Text.{Text}
use flood_now_backend.Apperr.{ok}
use flood_now_backend.Program.{Outcome, result_of, store_after}
use flood_now_backend.Postgres.Table.{update_where}
use flood_now_backend.Postgres.Rows.{any-count}
use flood_now_backend.Sos.Request.{Request}
use flood_now_backend.Sos.Tables.{Tables, request_is, claimable, claimed, accept}
use flood_now_backend.Sos.Invariants.Ends.{AcceptEnds, lost, won, accept-ends}
use flood_now_backend.Sos.Invariants.Limits.{Limits, claimable-id}

module _ (id : ℕ) (d1 d2 : Text) (now : ℤ) where
  none_left :
      (xs : List Request)
      → count_by (request_is id) xs ≡ 0
      → any (claimable id d2) (update_where (claimable id d1) (claimed d1 now) xs) ≡ false
  unfolding claimable update_where
  none_left [] h = refl
  none_left (x ∷ xs) h = ground (arith, none_left xs)

  -- The claim leaves no row that another claim could take.
  no_second :
      (xs : List Request)
      → count_by (request_is id) xs ≤ 1
      → any (claimable id d1) xs ≡ true
      → any (claimable id d2) (update_where (claimable id d1) (claimed d1 now) xs) ≡ false
  unfolding claimable update_where
  no_second [] h a = absurd (cc a)
  no_second (x ∷ xs) h a = elim (Bool-cases (x.id == id)) [
    | inl mine ↦
        ground
          (arith, none_left xs, any-count (request_is id) (claimable id d1) xs (claimable-id id d1))
    | inr other ↦ ground (arith, no_second xs)
  ]

AcceptEnds-once :
    (s : Tables) (id : ℕ) (d1 d2 : Text) (max1 max2 : ℕ) (now1 now2 : ℤ) {e : Outcome Tables Bool}
    → AcceptEnds s id d1 max1 now1 e
    → Limits s
    → result_of e ≡ ok true
    → {g : Outcome Tables Bool} → AcceptEnds (store_after s e) id d2 max2 now2 g
    → result_of g ≡ ok true
    → ⊥
AcceptEnds-once s id d1 d2 max1 max2 now1 now2 (lost e l) h k second m = l k
AcceptEnds-once s id d1 d2 max1 max2 now1 now2 (won free there) h k (lost e l) m = l m
AcceptEnds-once s id d1 d2 max1 max2 now1 now2 (won free there) h k (won free2 again) m =
    cc (no_second id d1 d2 now1 s.requests (h.one_row id) there, again)

-- On tables within their limits, two Accepts of one request never both win, when the second one
-- comes directly after the first, by whatever devices.
pub accept-once :
    (s : Tables) (id : ℕ) (d1 d2 : Text) (max1 max2 : ℕ) (now1 now2 : ℤ)
    → Limits s
    → result_of (accept s id d1 max1 now1) ≡ ok true
    → ¬ (result_of (accept (store_after s (accept s id d1 max1 now1)) id d2 max2 now2) ≡ ok true)
accept-once s id d1 d2 max1 max2 now1 now2 h k m =
    AcceptEnds-once s id d1 d2 max1 max2 now1 now2 (accept-ends s id d1 max1 now1) h k
      (accept-ends _ id d2 max2 now2) m
