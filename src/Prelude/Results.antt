-- ===== src/Prelude/Results.antt =====
-- The exceptions of include/pqxx/except.hxx as values: a call returns, or throws one of these.
use mathlib.Core.Path.{◌≡◌, refl}
use mathlib.Core.Logic.{◌⊎◌, inl, inr}
use mathlib.Core.Bool.{Bool, true, false}

-- The exception's class; its message is left out. `out_of_range` and `invalid_argument` are the
-- standard library's. Three are no exceptions: a loop whose fuel ran out returns `fuel_out`, and a
-- theorem for each loop shows that this does not happen; `out_of_bounds` stands for what C++ leaves
-- undefined, a write behind the end of a buffer; `assertion_failed` for an `assert` that fails, which
-- ends a program that is built with assertions.
pub data Error : Type 0 where
  argument_error usage_error internal_error conversion_error conversion_overrun : Error
  failure range_error in_doubt_error broken_connection statement_completion_unknown : Error
  sql_error unexpected_rows version_mismatch fuel_out out_of_bounds out_of_range unexpected_null :
      Error
  protocol_violation transaction_rollback serialization_failure deadlock_detected : Error
  too_many_connections invalid_argument assertion_failed : Error

-- A call that may throw.
pub data Result {ℓ} (A : Type ℓ) : Type ℓ where
  err : Error → Result A
  ok : A → Result A

-- `if (not test) throw e;`
abbrev pub guard : (test : Bool) (e : Error) → Result (Unit {0})
guard false e = err e
guard true e = ok tt

pub Result-cases {ℓ} :
    {A : Type ℓ} (r : Result A) → ((a : A) × (r ≡ ok a)) ⊎ ((e : Error) × (r ≡ err e))
Result-cases (err e) = inr (e, refl)
Result-cases (ok a) = inl (a, refl)

-- The statements behind a call run with what it returned, and not at all where it threw.
infixl 5 ◌>>=◌
abbrev pub ◌>>=◌ {i j} :
    {X : Type i} {Y : Type j} (call : Result X) (rest : X → Result Y) → Result Y
err e >>= rest = err e
ok x >>= rest = rest x

infixl 5 ◌>>◌
abbrev pub ◌>>◌ {j} : {Y : Type j} (check : Result (Unit {0})) (rest : Result Y) → Result Y
err e >> rest = err e
ok done >> rest = rest
