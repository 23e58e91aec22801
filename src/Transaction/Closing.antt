-- ===== src/Transaction/Closing.antt =====
-- What `close` leaves behind: the destructors of `transaction`, `nontransaction` and `subtransaction`
-- call it.
use libpqxx.Prelude.{
  ℕ, suc, ◌≡◌, ◌≢◌, inl, inr, refl, sym, ap, ◌∙◌, arith, Bool, true, false, if◌then◌else◌, Bytes,
  [], ◌∷◌, ◌++◌, length, ◌==◌, Option, none, some, ok, err, Bool-cases,
}
use libpqxx.Transaction.State.{
  error_notice, Status, active, aborted, committed, in_doubt, Transaction, Outcome, noticed,
  catching, conn_exec, unregister_transaction, check_unique_unregister, check_pending_error,
}
use libpqxx.Transaction.Operations.{
  direct_exec, do_abort, reported, report_focus, close_registration, close_as, abort_with,
  close_within, close,
}
use libpqxx.Transaction.Final.{close_registration-IsSame, close_within-closed}

-- What `catch` with a report changes is the notices.
catching-registered :
    (o : Outcome)
    → (catching o (λ e u. (ok tt, noticed (error_notice e) u))).1.registered ≡ o.1.registered
catching-registered (ok r, u) = refl
catching-registered (err e, u) = refl

catching-pending :
    (o : Outcome)
    → (catching o (λ e u. (ok tt, noticed (error_notice e) u))).1.pending_error ≡ o.1.pending_error
catching-pending (ok r, u) = refl
catching-pending (err e, u) = refl

catching-rollback :
    (o : Outcome)
    → (catching o (λ e u. (ok tt, noticed (error_notice e) u))).1.rollback_cmd ≡ o.1.rollback_cmd
catching-rollback (ok r, u) = refl
catching-rollback (err e, u) = refl

pub empty_of_length : (xs : Bytes) → (length xs == 0) ≡ true → xs ≡ []
empty_of_length [] h = refl
empty_of_length (x ∷ xs) h = ground arith

check_pending_error-cleared : (t : Transaction) → (check_pending_error t).1.pending_error ≡ []
unfolding check_pending_error
check_pending_error-cleared t = elim (Bool-cases (length t.pending_error == 0)) [
  | inl e ↦ rw e (empty_of_length t.pending_error e)
  | inr e ↦ rw e refl
]

check_pending_error-rollback :
    (t : Transaction) → (check_pending_error t).1.rollback_cmd ≡ t.rollback_cmd
unfolding check_pending_error
check_pending_error-rollback t = elim (Bool-cases (length t.pending_error == 0)) [
  | inl e ↦ rw e refl
  | inr e ↦ rw e refl
]

-- Behind `close_registration` the transaction is not registered, and has no pending error.
close_registration-registered : (t : Transaction) → (close_registration t).registered ≡ false
unfolding close_registration unregister_transaction
close_registration-registered t =
    let checked =
      (catching (check_pending_error t) (λ e u. (ok tt, noticed (error_notice e) u))).1 in
    let gone = record checked { registered = false } in
    elim (Bool-cases checked.registered) [
      | inl e ↦
          rw e
            (catching-registered (check_unique_unregister gone.conn.guest (some gone.self), gone))
      | inr e ↦ rw (e, e)
    ]

close_registration-pending : (t : Transaction) → (close_registration t).pending_error ≡ []
unfolding close_registration unregister_transaction
close_registration-pending t =
    let checked =
      (catching (check_pending_error t) (λ e u. (ok tt, noticed (error_notice e) u))).1 in
    let gone = record checked { registered = false } in
    let cleared : checked.pending_error ≡ [] =
      catching-pending (check_pending_error t) ∙ check_pending_error-cleared t in
    elim (Bool-cases checked.registered) [
      | inl e ↦ rw e (
          catching-pending (check_unique_unregister gone.conn.guest (some gone.self), gone)
          ∙ cleared)
      | inr e ↦ rw e cleared
    ]

close_registration-rollback :
    (t : Transaction) → (close_registration t).rollback_cmd ≡ t.rollback_cmd
unfolding close_registration unregister_transaction
close_registration-rollback t =
    let checked =
      (catching (check_pending_error t) (λ e u. (ok tt, noticed (error_notice e) u))).1 in
    let gone = record checked { registered = false } in
    let kept : checked.rollback_cmd ≡ t.rollback_cmd =
      catching-rollback (check_pending_error t) ∙ check_pending_error-rollback t in
    elim (Bool-cases checked.registered) [
      | inl e ↦ rw e (
          catching-rollback (check_unique_unregister gone.conn.guest (some gone.self), gone) ∙ kept)
      | inr e ↦ rw e kept
    ]

catching-guest :
    (o : Outcome)
    → (catching o (λ e u. (ok tt, noticed (error_notice e) u))).1.conn.guest ≡ o.1.conn.guest
catching-guest (ok r, u) = refl
catching-guest (err e, u) = refl

check_pending_error-guest :
    (t : Transaction)
    → ((check_pending_error t).1.conn.guest ≡ t.conn.guest)
      × ((check_pending_error t).1.registered ≡ t.registered)
unfolding check_pending_error
check_pending_error-guest t = elim (Bool-cases (length t.pending_error == 0)) [
  | inl e ↦ rw e (refl, refl)
  | inr e ↦ rw e (refl, refl)
]

unregister_if-guest :
    (b : Bool) (t : Transaction)
    → (if b then unregister_transaction (record t { registered = false }) else t).conn.guest
      ≡ (if b then none else t.conn.guest)
unfolding unregister_transaction
unregister_if-guest true t = refl
unregister_if-guest false t = refl

-- A transaction that is registered leaves the connection without one.
close_registration-guest :
    (t : Transaction)
    → (close_registration t).conn.guest ≡ (if t.registered then none else t.conn.guest)
unfolding close_registration
close_registration-guest t =
    let checked = reported (check_pending_error t) in
    let same : checked.registered ≡ t.registered =
      catching-registered (check_pending_error t) ∙ (check_pending_error-guest t).1 in
    let kept : checked.conn.guest ≡ t.conn.guest =
      catching-guest (check_pending_error t) ∙ (check_pending_error-guest t).0 in
    unregister_if-guest checked.registered checked
    ∙ (ap (λ (b : Bool). if b then none else checked.conn.guest) same
        ∙ ap (λ (g : Option ℕ). if t.registered then none else g) kept)

-- What takes no part in the registration.
abbrev HasSameGuest : Transaction → Transaction → Type 0
HasSameGuest t u = (u.conn.guest ≡ t.conn.guest) × (u.registered ≡ t.registered)

direct_exec-HasSameGuest : (cmd : Bytes) (t : Transaction) → HasSameGuest t (direct_exec cmd t).1
unfolding direct_exec check_pending_error conn_exec
direct_exec-HasSameGuest cmd t = elim (Bool-cases (length t.pending_error == 0)) [
  | inl e ↦ rw e (refl, refl)
  | inr e ↦ rw e (refl, refl)
]

do_abort-HasSameGuest : (cmd : Option Bytes) (t : Transaction) → HasSameGuest t (do_abort cmd t).1
unfolding do_abort
do_abort-HasSameGuest none t = (refl, refl)
do_abort-HasSameGuest (some cmd) t = direct_exec-HasSameGuest cmd t

report_focus-HasSameGuest : (f : Option ℕ) (t : Transaction) → HasSameGuest t (report_focus f t)
report_focus-HasSameGuest none t = (refl, refl)
report_focus-HasSameGuest (some f) t = (refl, refl)

-- `close` of a transaction that is aborted, which `abort` calls.
close_within-aborted :
    (fuel : ℕ) (t : Transaction)
    → t.status ≡ aborted
    → ((close_within (suc fuel) t).status ≡ aborted)
      × ((close_within (suc fuel) t).registered ≡ false)
      × ((close_within (suc fuel) t).conn.guest ≡ (if t.registered then none else t.conn.guest))
unfolding close_within close_as
close_within-aborted fuel t h = rw ((close_registration-IsSame t).0 ∙ h) (
  (close_registration-IsSame t).0 ∙ h,
  close_registration-registered t,
  close_registration-guest t,
)

aborted-active : aborted ≢ active
aborted-active e = cc

pub committed-active : committed ≢ active
committed-active e = cc

in_doubt-active : in_doubt ≢ active
in_doubt-active e = cc

close_as-ends :
    (s : Status) (t : Transaction)
    → t.status ≡ s
    → t.registered ≡ false
    → ((close_as (close_within 1) s t).status ≢ active)
      × ((close_as (close_within 1) s t).registered ≡ false)
      × ((close_as (close_within 1) s t).conn.guest ≡ t.conn.guest)
unfolding close_as abort_with
close_as-ends active t h r =
    let told = report_focus t.focus t in
    let rolled_back = reported (do_abort told.rollback_cmd told) in
    let u = record rolled_back { status = aborted } in
    let ended = close_within-aborted 0 u refl in
    let told_same = report_focus-HasSameGuest t.focus t in
    let same = do_abort-HasSameGuest told.rollback_cmd told in
    let guest : rolled_back.conn.guest ≡ t.conn.guest =
      catching-guest (do_abort told.rollback_cmd told) ∙ (same.0 ∙ told_same.0) in
    let left : rolled_back.registered ≡ false =
      catching-registered (do_abort told.rollback_cmd told) ∙ (same.1 ∙ (told_same.1 ∙ r)) in
    (
      (λ e. aborted-active (sym ended.0 ∙ e)),
      ended.1,
      ended.2 ∙ (ap (λ (b : Bool). if b then none else rolled_back.conn.guest) left ∙ guest),
    )
close_as-ends aborted t h r = ((λ e. aborted-active (sym h ∙ e)), r, refl)
close_as-ends committed t h r = ((λ e. committed-active (sym h ∙ e)), r, refl)
close_as-ends in_doubt t h r = ((λ e. in_doubt-active (sym h ∙ e)), r, refl)

-- However the backend answers, `close` ends: the transaction is not active any more and not registered,
-- and the connection has forgotten it: where it was registered, the connection has no transaction, and
-- otherwise the connection has the one that it had.
pub close-ends :
    (t : Transaction)
    → ((close t).status ≢ active)
      × ((close t).registered ≡ false)
      × ((close t).conn.guest ≡ (if t.registered then none else t.conn.guest))
unfolding close close_within
close-ends t =
    let done = close_registration t in
    let ended = close_as-ends done.status done refl (close_registration-registered t) in
    (ended.0, ended.1, ended.2 ∙ close_registration-guest t)

reported-sent : (o : Outcome) → (reported o).conn.sent ≡ o.1.conn.sent
reported-sent (ok r, u) = refl
reported-sent (err e, u) = refl

do_abort-sent :
    (t : Transaction) (cmd : Bytes)
    → t.pending_error ≡ []
    → (do_abort (some cmd) t).1.conn.sent ≡ t.conn.sent ++ cmd ∷ []
unfolding do_abort direct_exec check_pending_error conn_exec
do_abort-sent t cmd h = rw h refl

report_focus-same :
    (f : Option ℕ) (t : Transaction)
    → ((report_focus f t).conn.sent ≡ t.conn.sent)
      × ((report_focus f t).pending_error ≡ t.pending_error)
      × ((report_focus f t).rollback_cmd ≡ t.rollback_cmd)
report_focus-same none t = (refl, refl, refl)
report_focus-same (some f) t = (refl, refl, refl)

-- A transaction that is still active when it is closed sends its rollback command, once and nothing
-- else, and is aborted, whatever error was pending and whatever the backend answers.
pub close-rollback :
    (t : Transaction) (cmd : Bytes)
    → t.status ≡ active
    → t.rollback_cmd ≡ some cmd
    → ((close t).status ≡ aborted) × ((close t).conn.sent ≡ t.conn.sent ++ cmd ∷ [])
unfolding close close_within close_as abort_with
close-rollback t cmd h r =
    let done = close_registration t in
    let same = close_registration-IsSame t in
    let told = report_focus done.focus done in
    let kept = report_focus-same done.focus done in
    let rolled_back = reported (do_abort told.rollback_cmd told) in
    let u = record rolled_back { status = aborted } in
    let command : told.rollback_cmd ≡ some cmd = kept.2 ∙ (close_registration-rollback t ∙ r) in
    let sent : rolled_back.conn.sent ≡ t.conn.sent ++ cmd ∷ [] =
      reported-sent (do_abort told.rollback_cmd told)
      ∙ (ap (λ c. (do_abort c told).1.conn.sent) command
          ∙ (do_abort-sent told cmd (kept.1 ∙ close_registration-pending t)
              ∙ ap (λ s. s ++ cmd ∷ []) (kept.0 ∙ same.1))) in
    let ended = close_within-closed 1 u aborted-active in rw (same.0 ∙ h) (ended.0, ended.1 ∙ sent)
