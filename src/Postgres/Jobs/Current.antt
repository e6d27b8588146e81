-- ===== src/Postgres/Jobs/Current.antt =====
-- CurrentMatch prefers the active match of a request.
use flood_now_backend.Base.{
  ℕ, ◌≡◌, refl, ◌||◌, Option, none, some, List, [], ◌∷◌, arith, any, holds,
}
use flood_now_backend.LocalService.Offer.{Match, is_active}
use flood_now_backend.Postgres.Store.{Store, active_match_of}
use flood_now_backend.Postgres.Jobs.{better, best_match, current_match}

better-active :
    (m : Match) (o : Option Match)
    → holds (some (better m o)) (λ x. is_active x.status)
      ≡ (is_active m.status || holds o (λ x. is_active x.status))
better-active m none = ground arith
better-active m (some n) = ground arith

best_match-active :
    (id : ℕ) (ms : List Match)
    → holds (best_match id ms) (λ m. is_active m.status) ≡ any (active_match_of id) ms
unfolding best_match
best_match-active id [] = refl
best_match-active id (m ∷ ms) =
    ground (arith, best_match-active id ms, better-active m (best_match id ms))

-- CurrentMatch returns an active match exactly when the request has one, whatever completed and
-- cancelled matches it has and in whatever order they were made.
pub current_match-active :
    (s : Store) (id : ℕ)
    → holds (current_match s id) (λ m. is_active m.status) ≡ any (active_match_of id) s.matches
unfolding current_match
current_match-active s id = best_match-active id s.matches
