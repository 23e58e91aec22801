-- ===== src/Transaction/Operations.antt =====
-- The operations of `transaction_base` and the `do_commit` of its subclasses (src/transaction_base.cxx,
-- src/transaction.cxx, src/subtransaction.cxx, include/pqxx/nontransaction.hxx).
use libpqxx.Prelude.{
  ℕ, zero, suc, Bool, true, false, Bytes, codes, List, [], ◌∷◌, ◌++◌, length, ◌==◌, if◌then◌else◌,
  Option, none, some, ok, err, Error, usage_error, in_doubt_error, failure, broken_connection,
  statement_completion_unknown,
}
use libpqxx.Transaction.State.{
  error_notice, pending_notice, committed_twice, aborted_in_doubt, outcome_unknown, never_closed,
  focus_open, Status, active, aborted, committed, in_doubt, Kind, basic, nontransaction,
  subtransaction, Transaction, Outcome, ◌then◌, catching, noticed, conn_exec, conn_exec_params,
  register_transaction, unregister_transaction, register_focus, unregister_focus,
  check_pending_error, register_pending_error,
}

unfoldable pub direct_exec : Bytes → Transaction → Outcome
unfolding check_pending_error conn_exec
direct_exec cmd t = check_pending_error t then conn_exec cmd

abbrev pub commit_q : Bytes
commit_q = codes "COMMIT"

abbrev pub is_unknown : Error → Bool
is_unknown statement_completion_unknown = true
is_unknown e = false

abbrev pub is_in_doubt : Error → Bool
is_in_doubt in_doubt_error = true
is_in_doubt e = false

-- What `basic_transaction::do_commit` does with an exception.
unfoldable pub commit_failed : Error → Transaction → Outcome
commit_failed e t =
    let doubted : Outcome =
      (err in_doubt_error, noticed outcome_unknown (noticed (error_notice e) t)) in
    if is_unknown e then doubted else if t.conn.is_open then (err e, t) else doubted

unfoldable pub do_commit : Kind → Transaction → Outcome
unfolding direct_exec commit_failed
do_commit basic t = catching (direct_exec commit_q t) commit_failed
do_commit nontransaction t = (ok tt, t)
do_commit (subtransaction quoted) t = direct_exec (codes "RELEASE SAVEPOINT " ++ quoted) t

unfoldable pub do_abort : Option Bytes → Transaction → Outcome
unfolding direct_exec
do_abort none t = (ok tt, t)
do_abort (some cmd) t = direct_exec cmd t

-- Whatever an inner call throws is reported.
abbrev pub reported : Outcome → Transaction
reported o = (catching o (λ e t. (ok tt, noticed (error_notice e) t))).1

-- `close` up to its test of the status.
unfoldable pub close_registration : Transaction → Transaction
unfolding check_pending_error unregister_transaction
close_registration t =
    let checked = reported (check_pending_error t) in
    if checked.registered
    then unregister_transaction (record checked { registered = false })
    else checked

abbrev pub report_focus : Option ℕ → Transaction → Transaction
report_focus none t = t
report_focus (some f) t = noticed focus_open t

-- `close` and `abort` call each other: here each takes the other's inner call, and the fuel of
-- `close_within` bounds the depth of these calls.
unfoldable pub abort_with : (Transaction → Transaction) → Status → Transaction → Outcome
unfolding do_abort
abort_with inner_close active t =
    let rolled_back = reported (do_abort t.rollback_cmd t) in
    (ok tt, inner_close (record rolled_back { status = aborted }))
abort_with inner_close aborted t = (ok tt, t)
abort_with inner_close committed t = (err usage_error, t)
abort_with inner_close in_doubt t = (ok tt, noticed aborted_in_doubt t)

-- `close` behind the test of the status.
unfoldable pub close_as : (Transaction → Transaction) → Status → Transaction → Transaction
unfolding abort_with
close_as inner_close active t = reported (abort_with inner_close active (report_focus t.focus t))
close_as inner_close aborted t = t
close_as inner_close committed t = t
close_as inner_close in_doubt t = t

unfoldable pub close_within : ℕ → Transaction → Transaction
unfolding close_registration close_as
close_within zero t = t
close_within (suc fuel) t =
    let done = close_registration t in close_as (close_within fuel) done.status done

-- Two calls deep: `close` calls `abort`, whose `close` finds the transaction aborted.
unfoldable pub close : Transaction → Transaction
unfolding close_within
close t = close_within 2 t

unfoldable pub abort : Transaction → Outcome
unfolding abort_with close
abort t = abort_with close t.status t

unfoldable pub commit_status : Error → Status
commit_status e = if is_in_doubt e then in_doubt else aborted

-- `commit` behind its tests.
unfoldable pub commit_now : Transaction → Outcome
unfolding do_commit commit_status close
commit_now t =
    catching (do_commit t.kind t then λ t. (ok tt, record t { status = committed }))
      (λ e t. (err e, record t { status = commit_status e }))
    then λ t. (ok tt, close t)

-- The test of the focus, and of the connection.
unfoldable pub commit_unfocused : Option ℕ → Transaction → Outcome
unfolding commit_now
commit_unfocused (some f) t = (err failure, t)
commit_unfocused none t = if t.conn.is_open then commit_now t else (err broken_connection, t)

unfoldable pub commit_as : Status → Transaction → Outcome
unfolding commit_unfocused
commit_as active t = commit_unfocused t.focus t
commit_as aborted t = (err usage_error, t)
commit_as committed t = (ok tt, noticed committed_twice t)
commit_as in_doubt t = (err in_doubt_error, t)

unfoldable pub commit : Transaction → Outcome
unfolding check_pending_error commit_as
commit t = check_pending_error t then λ t. commit_as t.status t

-- The address of the `command` on the stack that holds the focus while a command runs.
abbrev pub command : ℕ
command = 0

unfoldable pub exec_as : Status → Bytes → Transaction → Outcome
unfolding direct_exec
exec_as active query t = direct_exec query t
exec_as aborted query t = (err usage_error, t)
exec_as committed query t = (err usage_error, t)
exec_as in_doubt query t = (err usage_error, t)

-- A `command` registers itself, and its destructor unregisters it whether the call returns or throws.
unfoldable pub with_command : (Transaction → Outcome) → Transaction → Outcome
unfolding register_focus unregister_focus
with_command f t = register_focus (some command) t then λ t.
    let done = f t in (done.0, unregister_focus (some command) done.1)

unfoldable pub exec : Bytes → Transaction → Outcome
unfolding check_pending_error with_command exec_as
exec query t = check_pending_error t then with_command (λ t. exec_as t.status query t)

-- It asks neither for a pending error nor for the status.
unfoldable pub internal_exec_params : ℕ → Bytes → Transaction → Outcome
unfolding with_command conn_exec_params
internal_exec_params args query t = with_command (conn_exec_params args query) t

-- The constructor of `basic_transaction`.
unfoldable pub begin_transaction : Bytes → Transaction → Outcome
unfolding register_transaction direct_exec
begin_transaction begin_command t = register_transaction t then direct_exec begin_command

-- `~transaction_base`, which runs behind the destructor of the subclass: that one calls `close`.
unfoldable pub destroy_base : Transaction → Transaction
unfolding unregister_transaction
destroy_base t =
    let told =
      if length t.pending_error == 0 then t else noticed (pending_notice t.pending_error) t in
    if told.registered then unregister_transaction (noticed never_closed told) else told

unfoldable pub destroy : Transaction → Transaction
unfolding close destroy_base
destroy t = destroy_base (close t)

-- A call of a client: everything but `exec` with parameters.
pub data Call : Type 0 where
  commit_call abort_call close_call destroy_call : Call
  exec_call register_error_call : Bytes → Call

unfoldable pub perform : Call → Transaction → Transaction
unfolding commit abort close exec register_pending_error destroy
perform commit_call t = (commit t).1
perform abort_call t = (abort t).1
perform close_call t = close t
perform destroy_call t = destroy t
perform (exec_call query) t = (exec query t).1
perform (register_error_call e) t = register_pending_error e t

unfoldable pub perform_all : List Call → Transaction → Transaction
unfolding perform
perform_all [] t = t
perform_all (c ∷ calls) t = perform_all calls (perform c t)
