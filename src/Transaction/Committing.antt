-- ===== src/Transaction/Committing.antt =====
-- What the outcome of `commit` says, and which calls hold the focus.
use libpqxx.Prelude.{
  ℕ, ◌≡◌, ◌≢◌, ◌⊎◌, inl, inr, refl, sym, ap, ◌∙◌, Bool, true, false, Bytes, List, [], ◌∷◌, ◌++◌,
  length, ◌==◌, if◌then◌else◌, Option, none, some, Result, ok, err, Error, usage_error,
  in_doubt_error, argument_error, internal_error, conversion_error, conversion_overrun, failure,
  range_error, broken_connection, statement_completion_unknown, sql_error, unexpected_rows,
  version_mismatch, fuel_out, out_of_bounds, out_of_range, unexpected_null, protocol_violation,
  transaction_rollback, serialization_failure, deadlock_detected, too_many_connections,
  invalid_argument, assertion_failed, subst, Bool-cases,
}
use libpqxx.Transaction.State.{
  Status, active, aborted, committed, in_doubt, basic, Transaction, Outcome, ◌then◌, catching, deal,
  conn_exec, check_pending_error, register_focus, unregister_focus, check_unique_register,
  check_unique_unregister,
}
use libpqxx.Transaction.Operations.{
  command, commit_q, is_unknown, is_in_doubt, commit_failed, commit_status, do_commit, direct_exec,
  commit_now, commit_unfocused, commit_as, commit, close, exec, exec_as, with_command,
}
use libpqxx.Transaction.Final.{IsSame, close_within-closed}
use libpqxx.Transaction.Closing.{committed-active, empty_of_length}

-- What an answer to COMMIT means. An error leaves no doubt only where the connection is still there, and
-- where the backend is known to have completed the statement.
abbrev pub verdict : Result (Unit {0}) → Bool → Status × Result (Unit {0})
verdict (ok r) still_open = (committed, ok tt)
verdict (err e) still_open =
    if is_unknown e
    then (in_doubt, err in_doubt_error)
    else if still_open
    then (aborted, err e)
    else (in_doubt, err in_doubt_error)

is_in_doubt-eq : (e : Error) → e ≢ in_doubt_error → is_in_doubt e ≡ false
is_in_doubt-eq argument_error h = refl
is_in_doubt-eq usage_error h = refl
is_in_doubt-eq internal_error h = refl
is_in_doubt-eq conversion_error h = refl
is_in_doubt-eq conversion_overrun h = refl
is_in_doubt-eq failure h = refl
is_in_doubt-eq range_error h = refl
is_in_doubt-eq in_doubt_error h = absurd (h refl)
is_in_doubt-eq broken_connection h = refl
is_in_doubt-eq statement_completion_unknown h = refl
is_in_doubt-eq sql_error h = refl
is_in_doubt-eq unexpected_rows h = refl
is_in_doubt-eq version_mismatch h = refl
is_in_doubt-eq fuel_out h = refl
is_in_doubt-eq out_of_bounds h = refl
is_in_doubt-eq out_of_range h = refl
is_in_doubt-eq unexpected_null h = refl
is_in_doubt-eq protocol_violation h = refl
is_in_doubt-eq transaction_rollback h = refl
is_in_doubt-eq serialization_failure h = refl
is_in_doubt-eq deadlock_detected h = refl
is_in_doubt-eq too_many_connections h = refl
is_in_doubt-eq invalid_argument h = refl
is_in_doubt-eq assertion_failed h = refl

abbrev IsVerdict : Status × Result (Unit {0}) → List Bytes → Outcome → Type 0
IsVerdict v sent o = (o.1.status ≡ v.0) × (o.0 ≡ v.1) × (o.1.conn.sent ≡ sent)

-- What `commit` makes of the answer.
abbrev finish : Outcome → Outcome
finish o =
    catching (catching o commit_failed then λ t. (ok tt, record t { status = committed }))
      (λ e t. (err e, record t { status = commit_status e }))
    then λ t. (ok tt, close t)

finish-verdict :
    (r : Result (Unit {0})) (u : Transaction)
    → r ≢ err in_doubt_error
    → IsVerdict (verdict r u.conn.is_open) u.conn.sent (finish (r, u))
unfolding commit_failed commit_status close
finish-verdict (ok r) u h =
    let same = close_within-closed 2 (record u { status = committed }) committed-active in
    (same.0, refl, same.1)
finish-verdict (err e) u h =
    let certain : is_in_doubt e ≡ false = is_in_doubt-eq e (λ q. h (ap err q)) in
    elim (Bool-cases (is_unknown e)) [
      | inl x ↦ rw x (refl, refl, refl)
      | inr x ↦ elim (Bool-cases u.conn.is_open) [
        | inl y ↦ rw (x, y, certain) (refl, refl, refl)
        | inr y ↦ rw (x, y) (refl, refl, refl)
      ]
    ]

check_pending_error-none :
    (t : Transaction) → t.pending_error ≡ [] → check_pending_error t ≡ (ok tt, t)
unfolding check_pending_error
check_pending_error-none t p =
    ap (λ q. if length q == 0 then (ok tt, t) else (err failure, record t { pending_error = [] })) p

commit_now-finish :
    (t : Transaction)
    → t.kind ≡ basic
    → t.pending_error ≡ []
    → commit_now t ≡ finish (conn_exec commit_q t)
unfolding commit_now do_commit direct_exec
commit_now-finish t k p =
    let done = λ (o : Outcome).
      catching (o then λ t. (ok tt, record t { status = committed }))
        (λ e t. (err e, record t { status = commit_status e }))
      then λ t. (ok tt, close t) in
    ap (λ c. done (do_commit c t)) k
    ∙ ap (λ o. finish (o then conn_exec commit_q)) (check_pending_error-none t p)

commit-commit_now :
    (t : Transaction)
    → t.status ≡ active
    → t.pending_error ≡ []
    → t.focus ≡ none
    → t.conn.is_open ≡ true
    → commit t ≡ commit_now t
unfolding commit commit_as commit_unfocused
commit-commit_now t s p f o =
    ap (λ o. o then λ t. commit_as t.status t) (check_pending_error-none t p)
    ∙ (ap (λ s. commit_as s t) s
        ∙ (ap (λ f. commit_unfocused f t) f
            ∙ ap (λ b. if b then commit_now t else (err broken_connection, t)) o))

-- A `basic_transaction` that can commit (it is active, nothing has the focus, no error is pending, and
-- the connection is open), where the exception of `connection::exec`, if it throws one, is not itself an
-- `in_doubt_error`: `commit` sends COMMIT once and nothing else, and the status and what `commit`
-- returns or throws say what the answer means: committed, certainly not committed, or in doubt where
-- the completion is unknown or the connection is lost.
pub commit-verdict :
    (t : Transaction)
    → t.kind ≡ basic
    → t.status ≡ active
    → t.pending_error ≡ []
    → t.focus ≡ none
    → t.conn.is_open ≡ true
    → (deal t.conn.answers).0.outcome ≢ err in_doubt_error
    → ((commit t).1.status
        ≡ (verdict (deal t.conn.answers).0.outcome (deal t.conn.answers).0.still_open).0)
      × ((commit t).0
          ≡ (verdict (deal t.conn.answers).0.outcome (deal t.conn.answers).0.still_open).1)
      × ((commit t).1.conn.sent ≡ t.conn.sent ++ commit_q ∷ [])
unfolding conn_exec
commit-verdict t k s p f o h =
    subst
      (IsVerdict (verdict (deal t.conn.answers).0.outcome (deal t.conn.answers).0.still_open)
        (t.conn.sent ++ commit_q ∷ []))
      (sym (commit-commit_now t s p f o ∙ commit_now-finish t k p))
      (finish-verdict (deal t.conn.answers).0.outcome (conn_exec commit_q t).1 h)

commit_unfocused-refused :
    (f : Option ℕ) (t : Transaction)
    → (f ≢ none) ⊎ (t.conn.is_open ≡ false)
    → ((commit_unfocused f t).0 ≢ ok tt) × IsSame t (commit_unfocused f t).1
unfolding commit_unfocused
commit_unfocused-refused (some f) t h = ((λ e. cc), (refl, refl))
commit_unfocused-refused none t (inl h) = absurd (h refl)
commit_unfocused-refused none t (inr h) = rw h ((λ e. cc), (refl, refl))

-- Not able to commit: nothing is sent, and the status stays.
pub commit-refused :
    (t : Transaction)
    → t.status ≡ active
    → (t.pending_error ≢ []) ⊎ ((t.focus ≢ none) ⊎ (t.conn.is_open ≡ false))
    → ((commit t).0 ≢ ok tt) × IsSame t (commit t).1
unfolding commit check_pending_error commit_as
commit-refused t s (inl h) = elim (Bool-cases (length t.pending_error == 0)) [
  | inl e ↦ absurd (h (empty_of_length t.pending_error e))
  | inr e ↦ rw e ((λ e. cc), (refl, refl))
]
commit-refused t s (inr h) = elim (Bool-cases (length t.pending_error == 0)) [
  | inl e ↦ rw e (
      subst (λ (o : Outcome). (o.0 ≢ ok tt) × IsSame t o.1) (sym (ap (λ x. commit_as x t) s))
        (commit_unfocused-refused t.focus t h))
  | inr e ↦ rw e ((λ e. cc), (refl, refl))
]

direct_exec-focus : (cmd : Bytes) (t : Transaction) → (direct_exec cmd t).1.focus ≡ t.focus
unfolding direct_exec check_pending_error conn_exec
direct_exec-focus cmd t = elim (Bool-cases (length t.pending_error == 0)) [
  | inl e ↦ rw e refl
  | inr e ↦ rw e refl
]

exec_as-focus :
    (s : Status) (query : Bytes) (t : Transaction) → (exec_as s query t).1.focus ≡ t.focus
unfolding exec_as
exec_as-focus active query t = direct_exec-focus query t
exec_as-focus aborted query t = refl
exec_as-focus committed query t = refl
exec_as-focus in_doubt query t = refl

with_command-focus :
    (f : Option ℕ) (query : Bytes) (t : Transaction)
    → t.focus ≡ f
    → ((with_command (λ t. exec_as t.status query t) t).1.focus ≡ f)
      × (f ≢ none → IsSame t (with_command (λ t. exec_as t.status query t) t).1)
unfolding with_command register_focus unregister_focus check_unique_register check_unique_unregister
with_command-focus (some f) query t h = rw h (refl, λ _. (refl, refl))
with_command-focus none query t h =
    let u = record t { focus = some command } in
    let held : (exec_as u.status query u).1.focus ≡ some command = exec_as-focus u.status query u in
    rw (h, held) (refl, λ q. absurd (q refl))

-- A command needs the focus for itself, and gives it back: whatever happens in `exec`, the focus is
-- what it was, and while another object holds it nothing is sent.
pub exec-focus :
    (query : Bytes) (t : Transaction)
    → ((exec query t).1.focus ≡ t.focus) × (t.focus ≢ none → IsSame t (exec query t).1)
unfolding exec check_pending_error
exec-focus query t = elim (Bool-cases (length t.pending_error == 0)) [
  | inl e ↦ rw e (with_command-focus t.focus query t refl)
  | inr e ↦ rw e (refl, λ _. (refl, refl))
]
