-- ===== src/Program.antt =====
-- How a use case of internal/application runs: a sequence of repository calls on the tables, each
-- atomic, between which the writes of other requests may come. The tables are any type.
pub mod Server
use flood_now_backend.Base.{
  Bool, true, false, Option, none, some, ◌≡◌, refl, ap, List, [], ◌∷◌, if◌then◌else◌,
}
use flood_now_backend.Apperr.{Error, Result, ok, err}

-- A transaction's body commits the tables or leaves by `defer tx.Rollback()`, with its result.
pub data Outcome {ℓ} (S : Type 0) (A : Type ℓ) : Type ℓ where
  commit : Result A → S → Outcome S A
  rollback : Result A → Outcome S A

abbrev pub result_of {ℓ} : {S : Type 0} {A : Type ℓ} → Outcome S A → Result A
result_of (commit r s) = r
result_of (rollback r) = r

abbrev pub store_after {ℓ} : {S : Type 0} {A : Type ℓ} → S → Outcome S A → S
store_after s (commit r s') = s'
store_after s (rollback r) = s

-- A use case that has its result, or its next repository call: what the call does to the tables,
-- and how the use case goes on from the tables that the call saw.
pub data Program {ℓ} (S : Type 0) (A : Type ℓ) : Type ℓ where
  finished : Result A → Program S A
  calling : (S → S) → (S → Program S A) → Program S A

infixl 5 ◌>>=◌ ◌>>◌
unfoldable pub ◌>>=◌ {ℓ κ} :
    {S : Type 0} {A : Type ℓ} {B : Type κ} → Program S A → (A → Program S B) → Program S B
finished (ok a) >>= f = f a
finished (err e) >>= f = finished (err e)
calling w k >>= f = calling w (λ s. k s >>= f)

abbrev pub ◌>>◌ {ℓ κ} :
    {S : Type 0} {A : Type ℓ} {B : Type κ} → Program S A → Program S B → Program S B
m >> k = m >>= λ _. k

abbrev pub return {ℓ} : {S : Type 0} {A : Type ℓ} → A → Program S A
return a = finished (ok a)

abbrev pub fail {ℓ} : {S : Type 0} {A : Type ℓ} → Error → Program S A
fail e = finished (err e)

-- A repository call that only reads, one that is a plain UPDATE, and a transaction.
unfoldable pub reading {ℓ} : {S : Type 0} {A : Type ℓ} → (S → A) → Program S A
reading f = calling (λ s. s) (λ s. return (f s))

unfoldable pub writing : {S : Type 0} → (S → S) → Program S (Unit {0})
writing f = calling f (λ s. return tt)

unfoldable pub transaction {ℓ} : {S : Type 0} {A : Type ℓ} → (S → Outcome S A) → Program S A
transaction f = calling (λ s. store_after s (f s)) (λ s. finished (result_of (f s)))

-- A transaction whose error the use case looks at.
unfoldable pub attempt {ℓ} : {S : Type 0} {A : Type ℓ} → (S → Outcome S A) → Program S (Result A)
attempt f = calling (λ s. store_after s (f s)) (λ s. return (result_of (f s)))

-- `if !b { return err }`, and `if p == nil { return err }`.
unfoldable pub check : {S : Type 0} → Bool → Error → Program S (Unit {0})
check true e = return tt
check false e = fail e

unfoldable pub present {ℓ} : {S : Type 0} {A : Type ℓ} → Option A → Error → Program S A
present none e = fail e
present (some a) e = return a

-- `if err := v(); err != nil { return err }`.
unfoldable pub validated : {S : Type 0} → Option Error → Program S (Unit {0})
validated none = return tt
validated (some e) = fail e

-- A run with no other request between its calls.
unfoldable pub run {ℓ} : {S : Type 0} {A : Type ℓ} → Program S A → S → Result A × S
run (finished r) s = (r, s)
run (calling w k) s = run (k s) (w s)

-- How a use case goes on after a transaction that has no value.
abbrev pub continue {ℓ} :
    {S : Type 0} {B : Type ℓ} → Outcome S (Unit {0}) → Program S B → S → Result B × S
continue (commit (ok u) t) m s = run m t
continue (commit (err e) t) m s = (err e, t)
continue (rollback (ok u)) m s = run m s
continue (rollback (err e)) m s = (err e, s)

pub transaction-run {ℓ} :
    {S : Type 0} {B : Type ℓ} (f : S → Outcome S (Unit {0})) (m : Program S B) (s : S)
    → run (transaction f >> m) s ≡ continue (f s) m s
unfolding run ◌>>=◌ transaction
transaction-run {S} {B = B} f m s = go (f s)
  where
    go :
        (e : Outcome S (Unit {0}))
        → run (finished (result_of e) >>= λ _. m) (store_after s e) ≡ continue e m s
    go (commit (ok u) t) = refl
    go (commit (err e) t) = refl
    go (rollback (ok u)) = refl
    go (rollback (err e)) = refl

-- An error ends the use case.
pub run-bind_err {ℓ κ} :
    {S : Type 0} {A : Type ℓ} {B : Type κ} (m : Program S A) (f : A → Program S B) (s t : S)
    (e : Error)
    → run m s ≡ (err e, t)
    → run (m >>= f) s ≡ (err e, t)
unfolding run ◌>>=◌
run-bind_err (finished (ok a)) f s t e h = absurd (cc (ap (λ x. x.0) h))
run-bind_err {A = A} {B = B} (finished (err x)) f s t e h = ap (λ y. (relabel y.0, y.1)) h
  where
    relabel : Result A → Result B
    relabel (ok a) = err x
    relabel (err y) = err y
run-bind_err (calling w k) f s t e h = run-bind_err (k s) f (w s) t e h

-- A result goes on to the next part.
pub run-bind_ok {ℓ κ} :
    {S : Type 0} {A : Type ℓ} {B : Type κ} (m : Program S A) (f : A → Program S B) (s t : S) (a : A)
    → run m s ≡ (ok a, t)
    → run (m >>= f) s ≡ run (f a) t
unfolding run ◌>>=◌
run-bind_ok {A = A} (finished (ok b)) f s t a h =
    rw (← ap (λ x. value x.0) h, ← ap (λ x. x.1) h) refl
  where
    value : Result A → A
    value (ok x) = x
    value (err e) = b
run-bind_ok (finished (err e)) f s t a h = absurd (cc (ap (λ x. x.0) h))
run-bind_ok (calling w k) f s t a h = run-bind_ok (k s) f (w s) t a h

-- A transaction that commits a value.
pub transaction-run_ok {ℓ κ} :
    {S : Type 0} {A : Type ℓ} {B : Type κ} (f : S → Outcome S A) (g : A → Program S B) (s t : S)
    (a : A)
    → f s ≡ commit (ok a) t
    → run (transaction f >>= g) s ≡ run (g a) t
unfolding run ◌>>=◌ transaction
transaction-run_ok f g s t a e = ap (λ o. run (finished (result_of o) >>= g) (store_after s o)) e
