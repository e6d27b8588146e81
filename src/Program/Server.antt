-- ===== src/Program/Server.antt =====
-- Programs of repository calls that may interleave: what a server does with any number of use cases.
use flood_now_backend.Base.{
  Bool, true, false, Option, none, some, ◌≡◌, refl, List, [], ◌∷◌, if◌then◌else◌,
}
use flood_now_backend.Apperr.{Error, Result, ok, err}
use flood_now_backend.Program.{
  Outcome, result_of, store_after, Program, ◌>>=◌, ◌>>◌, return, reading, writing, transaction,
  attempt, check, present, validated, run, finished, calling,
}

-- Every call of the use case does to the tables what W allows, whatever its calls see.
pub data Allowed {ℓ} {S : Type 0} (W : S → S → Type 0) {A : Type ℓ} : Program S A → Type ℓ where
  lawful_end : (r : Result A) → Allowed W (finished r)
  lawful_call :
      (w : S → S) (k : S → Program S A)
      → ((s : S) → W s (w s))
      → ((s : S) → Allowed W (k s))
      → Allowed W (calling w k)

module _ {S : Type 0} {W : S → S → Type 0} where
  pub bind-Allowed {ℓ κ} :
      {A : Type ℓ} {B : Type κ} {m : Program S A} {f : A → Program S B}
      → Allowed W m
      → ((a : A) → Allowed W (f a))
      → Allowed W (m >>= f)
  unfolding ◌>>=◌
  bind-Allowed {f = f} (lawful_end (ok a)) h = h a
  bind-Allowed (lawful_end (err e)) h = lawful_end (err e)
  bind-Allowed {f = f} (lawful_call w k writes rest) h =
      lawful_call w (λ s. k s >>= f) writes (λ s. bind-Allowed (rest s) h)

  pub check-Allowed : (b : Bool) (e : Error) → Allowed W (check b e)
  unfolding check
  check-Allowed true e = lawful_end (ok tt)
  check-Allowed false e = lawful_end (err e)

  -- What follows a check knows that it held.
  pub checked-Allowed {ℓ} :
      {B : Type ℓ} (b : Bool) (e : Error) {k : Program S B}
      → (b ≡ true → Allowed W k)
      → Allowed W (check b e >> k)
  unfolding check ◌>>=◌
  checked-Allowed true e h = h refl
  checked-Allowed false e h = lawful_end (err e)

  pub present-Allowed {ℓ} : {A : Type ℓ} (o : Option A) (e : Error) → Allowed W (present o e)
  unfolding present
  present-Allowed none e = lawful_end (err e)
  present-Allowed (some a) e = lawful_end (ok a)

  pub validated-Allowed : (v : Option Error) → Allowed W (validated v)
  unfolding validated
  validated-Allowed none = lawful_end (ok tt)
  validated-Allowed (some e) = lawful_end (err e)

  pub if-Allowed {ℓ} :
      {A : Type ℓ} (b : Bool) {m n : Program S A}
      → Allowed W m
      → Allowed W n
      → Allowed W (if b then m else n)
  if-Allowed true h k = h
  if-Allowed false h k = k

  module _ (done : (s : S) → W s s) where
    pub reading-Allowed {ℓ} : {A : Type ℓ} (f : S → A) → Allowed W (reading f)
    unfolding reading
    reading-Allowed f = lawful_call (λ s. s) (λ s. return (f s)) done (λ s. lawful_end (ok (f s)))

  pub writing-Allowed : (f : S → S) → ((s : S) → W s (f s)) → Allowed W (writing f)
  unfolding writing
  writing-Allowed f w = lawful_call f (λ s. return tt) w (λ s. lawful_end (ok tt))

  pub transaction-Allowed {ℓ} :
      {A : Type ℓ} (f : S → Outcome S A)
      → ((s : S) → W s (store_after s (f s)))
      → Allowed W (transaction f)
  unfolding transaction
  transaction-Allowed f w =
      lawful_call (λ s. store_after s (f s)) (λ s. finished (result_of (f s))) w
        (λ s. lawful_end (result_of (f s)))

  pub attempt-Allowed {ℓ} :
      {A : Type ℓ} (f : S → Outcome S A)
      → ((s : S) → W s (store_after s (f s)))
      → Allowed W (attempt f)
  unfolding attempt
  attempt-Allowed f w =
      lawful_call (λ s. store_after s (f s)) (λ s. return (result_of (f s))) w
        (λ s. lawful_end (ok (result_of (f s))))

pub ruleset allowed_rules =
    (lawful_end, bind-Allowed, check-Allowed, present-Allowed, validated-Allowed, if-Allowed)

-- The use cases under way, after one of them made its next call on the tables.
pub data Turn {S : Type 0} (s : S)
    : List (Program S (Unit {0})) → List (Program S (Unit {0})) → S → Type 0 where
  first :
      (f : S → S) (k : S → Program S (Unit {0})) (ms : List (Program S (Unit {0})))
      → Turn s (calling f k ∷ ms) (k s ∷ ms) (f s)
  later :
      (m : Program S (Unit {0})) (ms ns : List (Program S (Unit {0}))) (t : S)
      → Turn s ms ns t
      → Turn s (m ∷ ms) (m ∷ ns) t

-- The states of a server that started on given tables and starts a use case for each command.
pub data Runs {S C : Type 0} (empty : S) (start : C → Program S (Unit {0}))
    : List (Program S (Unit {0})) → S → Type 0 where
  at_start : Runs empty start [] empty
  arrives :
      (ms : List (Program S (Unit {0}))) (s : S) (c : C)
      → Runs empty start ms s
      → Runs empty start (start c ∷ ms) s
  turns :
      (ms ns : List (Program S (Unit {0}))) (s t : S)
      → Runs empty start ms s
      → Turn s ms ns t
      → Runs empty start ns t

data AllAllowed {S : Type 0} (W : S → S → Type 0) : List (Program S (Unit {0})) → Type 0 where
  no_more : AllAllowed W []
  one_more :
      (m : Program S (Unit {0})) (ms : List (Program S (Unit {0})))
      → Allowed W m
      → AllAllowed W ms
      → AllAllowed W (m ∷ ms)

module _ {S : Type 0} (W : S → S → Type 0) where
  Turn-Allowed :
      (s t : S) (ms ns : List (Program S (Unit {0})))
      → Turn s ms ns t
      → AllAllowed W ms
      → W s t × AllAllowed W ns
  Turn-Allowed s t _ _ (first f k ms) (one_more m rest (lawful_call w j writes after) others) =
      (writes s, one_more (j s) rest (after s) others)
  Turn-Allowed s _ _ _ (later m ms ns t turn) (one_more n rest h others) =
      let r = Turn-Allowed s t ms ns turn others in (r.0, one_more m ns h r.1)

  module _ {C : Type 0} (empty : S) (start : C → Program S (Unit {0})) (done : W empty empty)
      (trans : (s t u : S) → W s t → W t u → W s u) (lawful : (c : C) → Allowed W (start c)) where
    Runs-Allowed :
        (ms : List (Program S (Unit {0}))) (s : S)
        → Runs empty start ms s
        → W empty s × AllAllowed W ms
    Runs-Allowed _ _ at_start = (done, no_more)
    Runs-Allowed _ _ (arrives ms s c r) =
        let h = Runs-Allowed ms s r in (h.0, one_more (start c) ms (lawful c) h.1)
    Runs-Allowed _ _ (turns ms ns s t r turn) =
        let h = Runs-Allowed ms s r in
        let step = Turn-Allowed s t ms ns turn h.1 in (trans empty s t h.0 step.0, step.1)

    -- However the calls of the use cases under way interleave, the tables are those of allowed calls.
    pub Runs-sound : (ms : List (Program S (Unit {0}))) (s : S) → Runs empty start ms s → W empty s
    Runs-sound ms s r = (Runs-Allowed ms s r).0

-- A use case of the server that runs to its end before any other makes a call.
module _ {S C : Type 0} (empty : S) (start : C → Program S (Unit {0}))
    (ms : List (Program S (Unit {0}))) where
  Runs-finish :
      (m : Program S (Unit {0})) (s : S)
      → Runs empty start (m ∷ ms) s
      → Runs empty start (finished (run m s).0 ∷ ms) (run m s).1
  unfolding run
  Runs-finish (finished r) s h = h
  Runs-finish (calling w k) s h =
      Runs-finish (k s) (w s) (turns _ (k s ∷ ms) s (w s) h (first w k ms))

  pub Runs-alone :
      (s : S) (c : C)
      → Runs empty start ms s
      → Runs empty start (finished (run (start c) s).0 ∷ ms) (run (start c) s).1
  Runs-alone s c h = Runs-finish (start c) s (arrives ms s c h)

-- An allowed use case that runs alone makes allowed calls.
pub run-Allowed {ℓ} :
    {S : Type 0} (W : S → S → Type 0)
    → ((s : S) → W s s)
    → ((s t u : S) → W s t → W t u → W s u)
    → {A : Type ℓ} (m : Program S A) (s : S) → Allowed W m
    → W s (run m s).1
unfolding run
run-Allowed W done trans _ s (lawful_end r) = done s
run-Allowed W done trans _ s (lawful_call w k writes rest) =
    trans s (w s) (run (k s) (w s)).1 (writes s) (run-Allowed W done trans (k s) (w s) (rest s))
