-- ===== src/Transaction/State.antt =====
-- The state of a transaction (include/pqxx/transaction_base.hxx) and of its connection, the call that
-- sends a command (src/connection.cxx), and the focus and registration checks (src/util.cxx).
use libpqxx.Prelude.{
  ℕ, Bool, true, false, Bytes, List, [], ◌∷◌, ◌++◌, length, ◌==◌, if◌then◌else◌, Option, none, some,
  Result, ok, err, Error, internal_error, usage_error, broken_connection, failure, range_error, ltb,
}

-- Which message a call to `process_notice` carries.
pub data Notice : Type 0 where
  error_notice : Error → Notice
  pending_notice : Bytes → Notice
  committed_twice aborted_in_doubt outcome_unknown never_closed focus_open : Notice

-- What the backend makes of a command: `make_result`, and `get_notifs` behind it, return or throw, and
-- the connection is still open or is lost. While a transaction is registered, `get_notifs` delivers no
-- notification: it reads the input, and throws where that fails.
pub record Answer : Type 0 where
  pub outcome : Result (Unit {0})
  pub still_open : Bool

-- What a transaction sees of its connection: `answers` are the backend's answers to come, and `sent`
-- the commands it was sent. `guest` is `m_trans`, the transaction that is registered.
pub record Connection : Type 0 where
  pub is_open : Bool
  pub answers : List Answer
  pub sent : List Bytes
  pub guest : Option ℕ
  pub notices : List Notice

pub data Status : Type 0 where
  active aborted committed in_doubt : Status

-- The class of the transaction, which chooses `do_commit`; a subtransaction has a quoted name.
pub data Kind : Type 0 where
  basic nontransaction : Kind
  subtransaction : Bytes → Kind

-- `self` and `focus` stand for addresses; an empty `pending_error` is none.
pub record Transaction : Type 0 where
  pub self : ℕ
  pub kind : Kind
  pub status : Status
  pub focus : Option ℕ
  pub registered : Bool
  pub pending_error : Bytes
  pub rollback_cmd : Option Bytes
  pub conn : Connection

-- A call returns or throws, and leaves the transaction in a state either way.
abbrev pub Outcome : Type 0
Outcome = Result (Unit {0}) × Transaction

infixl 5 ◌then◌
abbrev pub ◌then◌ : Outcome → (Transaction → Outcome) → Outcome
(ok r, t) then f = f t
(err e, t) then f = (err e, t)

-- `try { ... } catch (std::exception const &e) { ... }`
abbrev pub catching : Outcome → (Error → Transaction → Outcome) → Outcome
catching (ok r, t) h = (ok r, t)
catching (err e, t) h = h e t

abbrev pub noticed : Notice → Transaction → Transaction
noticed n t = record t { conn = record t.conn { notices = t.conn.notices ++ n ∷ [] } }

-- The next answer of the backend; without one the connection is lost.
unfoldable pub deal : List Answer → Answer × List Answer
deal [] = (record { outcome = err broken_connection; still_open = false }, [])
deal (a ∷ later) = (a, later)

-- The command is sent, and the backend answers.
abbrev answered : Bytes → Transaction → Outcome
answered cmd t =
    let dealt = deal t.conn.answers in
    (
      dealt.0.outcome,
      record t {
        conn = record t.conn {
          is_open = dealt.0.still_open;
          answers = dealt.1;
          sent = t.conn.sent ++ cmd ∷ [];
        };
      },
    )

-- `connection::exec`.
unfoldable pub conn_exec : Bytes → Transaction → Outcome
unfolding deal
conn_exec cmd t = answered cmd t

-- `connection::exec_params`, whose number of arguments must be an `int`.
unfoldable pub conn_exec_params : ℕ → Bytes → Transaction → Outcome
unfolding deal
conn_exec_params args query t =
    if ltb 2147483647 args then (err range_error, t) else answered query t

unfoldable pub check_unique_register : Option ℕ → Option ℕ → Result (Unit {0})
check_unique_register old none = err internal_error
check_unique_register none (some new) = ok tt
check_unique_register (some old) (some new) = err usage_error

abbrev same_guest : Option ℕ → Option ℕ → Bool
same_guest none none = true
same_guest none (some b) = false
same_guest (some a) none = false
same_guest (some a) (some b) = a == b

unfoldable pub check_unique_unregister : Option ℕ → Option ℕ → Result (Unit {0})
check_unique_unregister old new = if same_guest new old then ok tt else err usage_error

unfoldable pub register_transaction : Transaction → Outcome
unfolding check_unique_register
register_transaction t = (check_unique_register t.conn.guest (some t.self), t) then λ t.
    (ok tt, record t { registered = true; conn = record t.conn { guest = some t.self } })

-- `connection::unregister_transaction`, which reports a mismatch and clears the guest either way.
unfoldable pub unregister_transaction : Transaction → Transaction
unfolding check_unique_unregister
unregister_transaction t =
    let checked =
      catching (check_unique_unregister t.conn.guest (some t.self), t)
        (λ e t. (ok tt, noticed (error_notice e) t)) in
    record checked.1 { conn = record checked.1.conn { guest = none } }

unfoldable pub register_focus : Option ℕ → Transaction → Outcome
unfolding check_unique_register
register_focus new t =
    (check_unique_register t.focus new, t) then λ t. (ok tt, record t { focus = new })

-- Here a mismatch leaves the focus as it was.
unfoldable pub unregister_focus : Option ℕ → Transaction → Transaction
unfolding check_unique_unregister
unregister_focus old t =
    (catching
      ((check_unique_unregister t.focus old, t) then λ t. (ok tt, record t { focus = none }))
      (λ e t. (ok tt, noticed (error_notice e) t))).1

-- `check_pending_error` throws the error that was kept, once.
unfoldable pub check_pending_error : Transaction → Outcome
check_pending_error t =
    if length t.pending_error == 0
    then (ok tt, t)
    else (err failure, record t { pending_error = [] })

-- The first error is kept, and an empty one is none.
unfoldable pub register_pending_error : Bytes → Transaction → Transaction
register_pending_error e t =
    if length t.pending_error == 0
    then (if length e == 0 then t else record t { pending_error = e })
    else t
