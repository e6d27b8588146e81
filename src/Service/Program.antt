-- ===== src/Service/Program.antt =====
-- The use cases of internal/application/localservice as programs on the tables of the local services.
use flood_now_backend.Base.{Bool, true, Option, ◌≡◌, if◌then◌else◌}
use flood_now_backend.Apperr.{Error}
use flood_now_backend.Program.{Program}
use flood_now_backend.Program.Server.{
  Allowed, bind-Allowed, reading-Allowed, writing-Allowed, transaction-Allowed, check-Allowed,
  checked-Allowed, present-Allowed, validated-Allowed, if-Allowed, run-Allowed,
}
pub use flood_now_backend.Program.{
  finished, calling, return, fail, continue, transaction-run, run-bind_err,
}
pub use flood_now_backend.Program.Server.{lawful_end, lawful_call}
unfoldable pub use flood_now_backend.Program.{
  ◌>>=◌, ◌>>◌, reading, writing, transaction, check, present, validated, run,
}
use flood_now_backend.Postgres.Store.{Store, Ended, store_after}
use flood_now_backend.Postgres.Writes.{Write, Writes, done, next, Writes-trans}

abbrev pub Service {ℓ} : Type ℓ → Type ℓ
Service A = Program Store A

-- Every call of the use case is a sequence of the repository's writes, whatever its calls see.
abbrev pub Lawful {ℓ} : {A : Type ℓ} → Service A → Type ℓ
Lawful m = Allowed Writes m

pub bind-Lawful {ℓ κ} :
    {A : Type ℓ} {B : Type κ} {m : Service A} {f : A → Service B}
    → Lawful m
    → ((a : A) → Lawful (f a))
    → Lawful (m >>= f)
bind-Lawful h k = bind-Allowed h k

pub reading-Lawful {ℓ} : {A : Type ℓ} (f : Store → A) → Lawful (reading f)
reading-Lawful f = reading-Allowed (λ s. done) f

pub writing-Lawful : (f : Store → Store) → ((s : Store) → Write s (f s)) → Lawful (writing f)
writing-Lawful f w = writing-Allowed f (λ s. next done (w s))

pub transaction-Lawful {ℓ} :
    {A : Type ℓ} (f : Store → Ended A)
    → ((s : Store) → Write s (store_after s (f s)))
    → Lawful (transaction f)
transaction-Lawful f w = transaction-Allowed f (λ s. next done (w s))

pub check-Lawful : (b : Bool) (e : Error) → Lawful (check b e)
check-Lawful b e = check-Allowed b e

pub checked-Lawful {ℓ} :
    {B : Type ℓ} (b : Bool) (e : Error) {k : Service B}
    → (b ≡ true → Lawful k)
    → Lawful (check b e >> k)
checked-Lawful b e h = checked-Allowed b e h

pub present-Lawful {ℓ} : {A : Type ℓ} (o : Option A) (e : Error) → Lawful (present o e)
present-Lawful o e = present-Allowed o e

pub validated-Lawful : (v : Option Error) → Lawful (validated v)
validated-Lawful v = validated-Allowed v

pub if-Lawful {ℓ} :
    {A : Type ℓ} (b : Bool) {m n : Service A} → Lawful m → Lawful n → Lawful (if b then m else n)
if-Lawful b h k = if-Allowed b h k

pub ruleset lawful_rules = (
  lawful_end, bind-Lawful, reading-Lawful, check-Lawful, present-Lawful, validated-Lawful,
  if-Lawful,
)

-- A lawful use case that runs alone is a sequence of writes.
pub run-Writes {ℓ} : {A : Type ℓ} (m : Service A) (s : Store) → Lawful m → Writes s (run m s).1
run-Writes m s h = run-Allowed Writes (λ t. done) (λ t u v. Writes-trans) m s h
