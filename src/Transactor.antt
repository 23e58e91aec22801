-- ===== src/Transactor.antt =====
-- `perform` (include/pqxx/transactor.hxx): transaction code that is run again where it failed. The
-- callback is an argument: what a call throws or returns, and what it does to the rest of the program
-- and to the database, which is a state of any type.
use libpqxx.Prelude.{
  ℕ, zero, suc, ◌+◌, ◌<◌, ◌≡◌, refl, sym, ap, subst, ◌∙◌, ◌⊎◌, ◌↔◌, inl, inr, Bool-cases, Bool,
  true, false, arith, if◌then◌else◌, leb, Error, Result, ok, err, Result-cases, invalid_argument,
  internal_error, in_doubt_error, statement_completion_unknown, protocol_violation,
  broken_connection, transaction_rollback, serialization_failure, deadlock_detected,
  version_mismatch, too_many_connections,
}
use libpqxx.Prelude.Int.{ℤ, pos, negsuc, pos_part, ltb_ℤ}
mod Tests

-- The `catch` clauses in their order. `version_mismatch` and `too_many_connections` are subclasses of
-- `broken_connection`; `serialization_failure` and `deadlock_detected` of `transaction_rollback`.
abbrev pub may_retry : Error → Bool
may_retry in_doubt_error = false
may_retry statement_completion_unknown = false
may_retry protocol_violation = false
may_retry broken_connection = true
may_retry version_mismatch = true
may_retry too_many_connections = true
may_retry transaction_rollback = true
may_retry serialization_failure = true
may_retry deadlock_detected = true
may_retry other = false

no_less : {n : ℕ} → n < 0 → ⊥
no_less h = omega arith

positive_part : (n : ℤ) → ltb_ℤ (pos 0) n ≡ true → 0 < pos_part n
positive_part (pos n) h = ground arith
positive_part (negsuc n) h = ground arith

module _ {S A : Type 0} (callback : S → Result A × S) where
  -- One round of the loop, with `attempts` left and the rounds behind it.
  abbrev attempt : ℕ → (S → Result A × S) → Result A × S → Result A × S
  attempt attempts next (ok a, s) = (ok a, s)
  attempt attempts next (err e, s) =
      if may_retry e then (if leb attempts 1 then (err e, s) else next s) else (err e, s)

  unfoldable attempt_loop : ℕ → S → Result A × S
  attempt_loop zero s = (err internal_error, s)
  attempt_loop (suc n) s = attempt (suc n) (attempt_loop n) (callback s)

  unfoldable pub perform : ℤ → S → Result A × S
  unfolding attempt_loop
  perform attempts s =
      if ltb_ℤ (pos 0) attempts
      then attempt_loop (pos_part attempts) s
      else (err invalid_argument, s)

  unfoldable pub perform_thrice : S → Result A × S
  unfolding perform
  perform_thrice s = perform (pos 3) s

  -- The first k calls of the callback failed, each in a way that permits another.
  pub data Failed : ℕ → S → S → Type 0 where
    none : {s : S} → Failed zero s s
    again :
        {k : ℕ} {s next end : S} {e : Error}
        → callback s ≡ (err e, next)
        → may_retry e ≡ true
        → Failed k next end
        → Failed (suc k) s end

  -- The last call: it returned, or it failed in a way that forbids another call, or there is none left.
  abbrev pub IsFinal : ℕ → ℕ → Result A → Type 0
  IsFinal attempts k (ok a) = Unit {0}
  IsFinal attempts k (err e) = (may_retry e ≡ false) ⊎ (attempts ≡ suc k)

  -- The outcome is that of a call of the callback, the k-th from 0, where the calls before it failed
  -- in ways that permit another, and it is the last one.
  abbrev pub IsOutcome : ℕ → S → Result A × S → Type 0
  IsOutcome attempts s out =
      (k : ℕ) × (last : S) × (k < attempts)
      × Failed k s last
      × (callback last ≡ out)
      × IsFinal attempts k out.0

  later : (n k : ℕ) (r : Result A) → IsFinal n k r → IsFinal (suc n) (suc k) r
  later n k (ok a) h = h
  later n k (err e) (inl denied) = inl denied
  later n k (err e) (inr last) = inr (ap suc last)

  earlier : (n k : ℕ) (r : Result A) → IsFinal (suc n) (suc k) r → IsFinal n k r
  earlier n k (ok a) h = h
  earlier n k (err e) (inl denied) = inl denied
  earlier n k (err e) (inr last) = inr (omega arith)

  attempt_stops :
      (n : ℕ) (next : S → Result A × S) (e : Error) (s : S)
      → (may_retry e ≡ false) ⊎ (n ≡ 1)
      → attempt n next (err e, s) ≡ (err e, s)
  attempt_stops n next e s (inl denied) = rw denied refl
  attempt_stops n next e s (inr last) = elim (Bool-cases (may_retry e)) [
    | inl allowed ↦ rw (allowed, last) refl
    | inr denied ↦ rw denied refl
  ]

  attempt_fails :
      (n : ℕ) (next : S → Result A × S) (e : Error) (s : S)
      → may_retry e ≡ true
      → attempt (suc (suc n)) next (err e, s) ≡ next s
  attempt_fails n next e s allowed =
      let more : leb (suc (suc n)) 1 ≡ false = ground arith in rw (allowed, more) refl

  attempt-IsOutcome :
      (n : ℕ) (s : S) (r : Result A × S) (next : S → Result A × S)
      → callback s ≡ r
      → (0 < n → (s' : S) → IsOutcome n s' (next s'))
      → IsOutcome (suc n) s (attempt (suc n) next r)
  attempt-IsOutcome n s (ok a, s') next call others = (0, s, omega arith, none, call, tt)
  attempt-IsOutcome zero s (err e, s') next call others =
      subst (IsOutcome 1 s) (sym (attempt_stops 1 next e s' (inr refl)))
        (0, s, omega arith, none, call, inr refl)
  attempt-IsOutcome (suc n) s (err e, s') next call others = elim (Bool-cases (may_retry e)) [
    | inr denied ↦
        subst (IsOutcome (suc (suc n)) s) (sym (attempt_stops (suc (suc n)) next e s' (inl denied)))
          (0, s, omega arith, none, call, inl denied)
    | inl allowed ↦
        let (k, last, few, failed, outcome, final) = others (omega arith) s' in
        subst (IsOutcome (suc (suc n)) s) (sym (attempt_fails n next e s' allowed)) (
          suc k,
          last,
          omega arith,
          again call allowed failed,
          outcome,
          later (suc n) k (next s').0 final,
        )
  ]

  attempt_loop-IsOutcome : (n : ℕ) (s : S) → 0 < n → IsOutcome n s (attempt_loop n s)
  unfolding attempt_loop
  attempt_loop-IsOutcome zero s h = elim (no_less h) [ ]
  attempt_loop-IsOutcome (suc n) s h =
      attempt-IsOutcome n s (callback s) (attempt_loop n) refl
        (λ k s'. attempt_loop-IsOutcome n s' k)

  attempt_final :
      (n : ℕ) (next : S → Result A × S) (out : Result A × S)
      → IsFinal n 0 out.0
      → attempt n next out ≡ out
  attempt_final n next (ok a, s) final = refl
  attempt_final n next (err e, s) final = attempt_stops n next e s final

  IsOutcome-attempt_loop :
      (n k : ℕ) (s last : S) (out : Result A × S)
      → k < n
      → Failed k s last
      → callback last ≡ out
      → IsFinal n k out.0
      → attempt_loop n s ≡ out
  unfolding attempt_loop
  IsOutcome-attempt_loop zero k s last out few failed call final = elim (no_less few) [ ]
  IsOutcome-attempt_loop (suc zero) (suc k) s last out few failed call final =
      elim (no_less {n = k} (omega arith)) [ ]
  IsOutcome-attempt_loop (suc n) zero s last out few none call final =
      rw call (attempt_final (suc n) (attempt_loop n) out final)
  IsOutcome-attempt_loop (suc (suc n)) (suc k) s last out few
        (again {next = next} {e = e} failure allowed failed) call final =
      ap (attempt (suc (suc n)) (attempt_loop (suc n))) failure
      ∙ attempt_fails n (attempt_loop (suc n)) e next allowed
      ∙ IsOutcome-attempt_loop (suc n) k next last out (omega arith) failed call
          (earlier (suc n) k out.0 final)

  -- With a positive number of attempts, `perform` comes to an end, and it has an outcome exactly where
  -- a call of the callback has it (what it returned or threw, and the state behind it), which comes
  -- behind fewer calls than there are attempts, each of which threw an error that permits another
  -- attempt: it returned, or threw an error that permits none, or was the last attempt.
  pub perform-IsOutcome :
      (attempts : ℤ) (s : S) (out : Result A × S)
      → ltb_ℤ (pos 0) attempts ≡ true
      → (perform attempts s ≡ out) ↔ IsOutcome (pos_part attempts) s out
  unfolding perform
  perform-IsOutcome attempts s out h = rw h (
    (λ e.
        subst (IsOutcome (pos_part attempts) s) e
          (attempt_loop-IsOutcome (pos_part attempts) s (positive_part attempts h))),
    (λ (k, last, few, failed, call, final).
        IsOutcome-attempt_loop (pos_part attempts) k s last out few failed call final),
  )
