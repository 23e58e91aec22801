-- ===== src/Transactor/Tests.antt =====
-- The retry loop at a concrete callback.
use libpqxx.Prelude.{
  ℕ, ◌≡◌, refl, ◌↔◌, List, [], ◌∷◌, Result, ok, err, internal_error, broken_connection,
  deadlock_detected, in_doubt_error, invalid_argument,
}
use libpqxx.Prelude.Int.{pos, negsuc}
use libpqxx.Transactor.{perform, perform_thrice, IsOutcome, perform-IsOutcome}

-- A callback whose calls have their outcomes in a list.
abbrev answer : List (Result ℕ) → Result ℕ × List (Result ℕ)
answer [] = (err internal_error, [])
answer (r ∷ rest) = (r, rest)

-- Two failures, then a result.
abbrev third_time : List (Result ℕ)
third_time = err broken_connection ∷ err deadlock_detected ∷ ok 7 ∷ ok 8 ∷ []

third_time_perform : perform_thrice answer third_time ≡ (ok 7, ok 8 ∷ [])
unfolding perform_thrice
third_time_perform = refl

no_third_time : perform answer (pos 2) third_time ≡ (err deadlock_detected, ok 7 ∷ ok 8 ∷ [])
unfolding perform
no_third_time = refl

no_retry_in_doubt :
    perform answer (pos 3) (err in_doubt_error ∷ ok 7 ∷ []) ≡ (err in_doubt_error, ok 7 ∷ [])
unfolding perform
no_retry_in_doubt = refl

no_attempts : perform answer (negsuc 0) third_time ≡ (err invalid_argument, third_time)
unfolding perform
no_attempts = refl

perform-IsOutcome_example :
    (perform answer (pos 3) third_time ≡ (ok 7, ok 8 ∷ []))
    ↔ IsOutcome answer 3 third_time (ok 7, ok 8 ∷ [])
perform-IsOutcome_example = perform-IsOutcome answer (pos 3) third_time (ok 7, ok 8 ∷ []) refl
