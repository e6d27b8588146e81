-- ===== src/Report/Visible.antt =====
-- What the map shows: the SQL of the statuses against Report.Status, and the list against its input.
use flood_now_backend.Base.{
  ℕ, zero, suc, ◌≤◌, ◌≡◌, refl, sym, ap, ◌∙◌, Bool, true, false, not, ◌&&◌, Option, none, List, [],
  ◌∷◌, map, any, all, select, take, length, count_by, is_set, ltb, arith, Bool-cases, inl, inr,
}
use flood_now_backend.Base.Int.{ℤ}
use flood_now_backend.Base.Float.{Float64}
use flood_now_backend.Apperr.{ok}
use flood_now_backend.Program.{run, reading, ◌>>=◌}
use flood_now_backend.Report.Lifecycle.{
  Report, ReportWithStats, Status, active, possibly_stale, resolved, expired, status_eq, status,
}
use flood_now_backend.Base.Sorting.{sort_by, sort_by_lem}
use flood_now_backend.Report.Tables.{Tables, with_stats}
use flood_now_backend.Report.Filter.{in_status, statuses, listed, list, limited, verified_later}
use flood_now_backend.Report.Browse.{
  ListInput, ListResult, list_limit, list_filter, or_visible, cut_to, list_reports,
}

-- The predicate of a lifecycle state holds of the reports in that state.
in_status-status :
    (now : ℤ) (r : Report) (t : Status) → in_status now r t ≡ status_eq (status r now) t
unfolding status
in_status-status now r active = ground arith
in_status-status now r possibly_stale = ground arith
in_status-status now r resolved = ground arith
in_status-status now r expired = ground arith

any-in_status :
    (now : ℤ) (r : Report) (ts : List Status)
    → any (in_status now r) ts ≡ any (status_eq (status r now)) ts
any-in_status now r [] = refl
any-in_status now r (t ∷ ts) = rw (in_status-status now r t, any-in_status now r ts) refl

-- The statuses that a query names, if it names any, take exactly the reports whose Report.Status at
-- that time is one of them.
pub statuses-Status :
    (now : ℤ) (r : Report) (t : Status) (ts : List Status)
    → statuses (t ∷ ts) now r ≡ any (status_eq (status r now)) (t ∷ ts)
unfolding statuses
statuses-Status now r t ts = any-in_status now r (t ∷ ts)

length-select {ℓ} : {A : Type ℓ} (p : A → Bool) (xs : List A) → length (select p xs) ≡ count_by p xs
length-select p [] = refl
length-select p (x ∷ xs) = ground (arith, length-select p xs)

all-select {ℓ} :
    {A : Type ℓ} (p q : A → Bool) (xs : List A)
    → ((x : A) → p x ≡ true → q x ≡ true)
    → all q (select p xs) ≡ true
all-select p q [] h = refl
all-select p q (x ∷ xs) h = ground (arith, h x, all-select p q xs h)

all-take {ℓ} :
    {A : Type ℓ} (q : A → Bool) (n : ℕ) (xs : List A) → all q xs ≡ true → all q (take n xs) ≡ true
all-take q zero xs h = refl
all-take q (suc n) [] h = h
all-take q (suc n) (x ∷ xs) h = ground (arith, all-take q n xs)

length-take_le {ℓ} : {A : Type ℓ} (n : ℕ) (xs : List A) → length (take n xs) ≤ n
length-take_le zero xs = omega arith
length-take_le (suc n) [] = omega arith
length-take_le (suc n) (x ∷ xs) = omega (arith, length-take_le n xs)

-- One element more than n is there exactly if it is among the first n + 1.
ltb-length-take {ℓ} :
    {A : Type ℓ} (n : ℕ) (xs : List A) → ltb n (length (take (suc n) xs)) ≡ ltb n (length xs)
ltb-length-take zero [] = refl
ltb-length-take zero (x ∷ xs) = ground arith
ltb-length-take (suc n) [] = refl
ltb-length-take (suc n) (x ∷ xs) = ground (arith, ltb-length-take n xs)

length-map_stats :
    (s : Tables) (distance : Option ℕ) (rs : List Report)
    → length (map (with_stats s distance) rs) ≡ length rs
length-map_stats s distance [] = refl
length-map_stats s distance (r ∷ rs) = rw (length-map_stats s distance rs) refl

-- A report on the map: not hidden, and in one of the states.
unfoldable pub shown : ListInput → ℤ → Report → Bool
unfolding status
shown i now r = not (is_set r.hidden_at) && any (status_eq (status r now)) (or_visible i.statuses)

all-map_stats :
    (s : Tables) (distance : Option ℕ) (i : ListInput) (now : ℤ) (rs : List Report)
    → all (λ v. shown i now v.report) (map (with_stats s distance) rs) ≡ all (shown i now) rs
unfolding with_stats shown status
all-map_stats s distance i now [] = refl
all-map_stats s distance i now (r ∷ rs) = rw (all-map_stats s distance i now rs) refl

statuses-or_visible :
    (ts : List Status) (now : ℤ) (r : Report)
    → statuses (or_visible ts) now r ≡ any (status_eq (status r now)) (or_visible ts)
statuses-or_visible [] now r = statuses-Status now r active (possibly_stale ∷ [])
statuses-or_visible (t ∷ ts) now r = statuses-Status now r t ts

listed-shown :
    (f : Float64) (i : ListInput) (now : ℤ) (r : Report)
    → listed f (list_filter i now) r ≡ true
    → shown i now r ≡ true
unfolding listed shown
listed-shown f i now r h = ground (arith, statuses-or_visible i.statuses now r)

limited-suc {ℓ} : {A : Type ℓ} (n : ℕ) (xs : List A) → limited (suc n) xs ≡ take (suc n) xs
limited-suc n xs = ground arith

take_all {ℓ} :
    {A : Type ℓ} (n : ℕ) (xs : List A)
    → ltb n (length xs) ≡ false
    → length (take (suc n) xs) ≡ length xs
take_all n [] h = refl
take_all zero (x ∷ xs) h = ground arith
take_all (suc n) (x ∷ xs) h = ground (arith, take_all n xs)

-- The page that a query with one row more gives.
cut_to_lem :
    (q : ReportWithStats → Bool) (n : ℕ) (rs : List ReportWithStats)
    → all q rs ≡ true
    → (length (cut_to n rs).reports ≤ n)
      × ((cut_to n rs).has_more ≡ ltb n (length rs))
      × (all q (cut_to n rs).reports ≡ true)
      × ((cut_to n rs).has_more ≡ false → length (cut_to n rs).reports ≡ length rs)
cut_to_lem q n rs h = elim (Bool-cases (ltb n (length rs))) [
  | inl e ↦ rw e (length-take_le n rs, refl, all-take q n rs h, λ d. absurd (cc d))
  | inr e ↦ rw e (ground arith, refl, h, λ d. refl)
]

module _ (f : Float64) (i : ListInput) (now : ℤ) (s : Tables) where
  abbrev found : List Report
  unfolding sort_by listed
  found = sort_by verified_later (select (listed f (list_filter i now)) s.reports)

  list-reports :
      list f s (list_filter i now) ≡ map (with_stats s none) (take (suc (list_limit i)) found)
  unfolding list found
  list-reports = ap (map (with_stats s none)) (limited-suc (list_limit i) found)

  length-found : length found ≡ count_by (listed f (list_filter i now)) s.reports
  unfolding found
  length-found =
      (sort_by_lem verified_later (shown i now) (select (listed f (list_filter i now)) s.reports)).0
      ∙ length-select (listed f (list_filter i now)) s.reports

  all-found : all (shown i now) found ≡ true
  unfolding found
  all-found =
      (sort_by_lem verified_later (shown i now) (select (listed f (list_filter i now)) s.reports)).1
      ∙ all-select (listed f (list_filter i now)) (shown i now) s.reports (listed-shown f i now)

  unfoldable queried : List ReportWithStats
  unfolding list
  queried = list f s (list_filter i now)

  unfoldable pub matches : ℕ
  unfolding listed
  matches = count_by (listed f (list_filter i now)) s.reports

  queried-shown : all (λ v. shown i now v.report) queried ≡ true
  unfolding queried
  queried-shown = rw list-reports (
      all-map_stats s none i now (take (suc (list_limit i)) found)
      ∙ all-take (shown i now) (suc (list_limit i)) found all-found)

  length-queried : length queried ≡ length (take (suc (list_limit i)) found)
  unfolding queried
  length-queried = rw list-reports (length-map_stats s none (take (suc (list_limit i)) found))

  -- The list for the map, whatever the tables hold: the call succeeds and changes nothing; it gives at
  -- most as many reports as the limit, which is 500 if none is asked for and never more than 1000;
  -- none of them is hidden and each is in one of the states asked for, by default active or possibly
  -- stale; it says that there are more exactly if more reports match than the limit; and if there
  -- are not, it gives as many reports as match.
  pub list_reports-page :
      (page : ListResult) × (run (list_reports f i now) s ≡ (ok page, s))
      × (length page.reports ≤ list_limit i)
      × (page.has_more ≡ ltb (list_limit i) matches)
      × (all (λ v. shown i now v.report) page.reports ≡ true)
      × (page.has_more ≡ false → length page.reports ≡ matches)
  unfolding list_reports run ◌>>=◌ reading queried matches
  list_reports-page =
      let h = cut_to_lem (λ v. shown i now v.report) (list_limit i) queried queried-shown in
      let more =
        h.1
        ∙ ap (ltb (list_limit i)) length-queried
        ∙ ltb-length-take (list_limit i) found
        ∙ ap (ltb (list_limit i)) length-found in
      (
        cut_to (list_limit i) queried,
        refl,
        h.0,
        more,
        h.2,
        λ e.
            h.3 e
            ∙ length-queried
            ∙ take_all (list_limit i) found (rw length-found (sym more ∙ e))
            ∙ length-found,
      )
