-- ===== src/Transaction/Final.antt =====
-- A transaction that is no longer active stays as it is, and sends nothing more.
use libpqxx.Prelude.{
  ℕ, zero, suc, ◌≡◌, ◌≢◌, inl, inr, refl, sym, ◌∙◌, Bool, true, false, Bytes, List, [], ◌∷◌, length,
  ◌==◌, if◌then◌else◌, Option, none, some, ok, err, Bool-cases,
}
use libpqxx.Transaction.State.{
  error_notice, pending_notice, never_closed, Status, active, aborted, committed, in_doubt,
  Transaction, Outcome, noticed, ◌then◌, catching, unregister_transaction, register_focus,
  check_unique_register, check_unique_unregister, unregister_focus, check_pending_error,
  register_pending_error,
}
use libpqxx.Transaction.Operations.{
  command, close_within, close_as, abort_with, close_registration, close, abort, commit, commit_as,
  exec, exec_as, with_command, destroy, destroy_base, Call, commit_call, abort_call, close_call,
  destroy_call, exec_call, register_error_call, perform, perform_all,
}

-- Nothing was sent, and the status is the same.
abbrev pub IsSame : Transaction → Transaction → Type 0
IsSame t u = (u.status ≡ t.status) × (u.conn.sent ≡ t.conn.sent)

pub IsSame_trans :
    {r s t : Status} {k l m : List Bytes}
    → (s ≡ r) × (l ≡ k)
    → (t ≡ s) × (m ≡ l)
    → (t ≡ r) × (m ≡ k)
IsSame_trans p q = (q.0 ∙ p.0, q.1 ∙ p.1)

then-IsSame :
    (t : Transaction) (o : Outcome) (f : Transaction → Outcome)
    → IsSame t o.1
    → ((u : Transaction) → IsSame t u → IsSame t (f u).1)
    → IsSame t (o then f).1
then-IsSame t (ok r, u) f p q = q u p
then-IsSame t (err e, u) f p q = p

if-IsSame :
    (b : Bool) (t u v : Transaction) → IsSame t u → IsSame t v → IsSame t (if b then u else v)
if-IsSame true t u v p q = p
if-IsSame false t u v p q = q

-- What is caught and reported leaves the status alone.
pub catching-IsSame :
    (t : Transaction) (o : Outcome)
    → IsSame t o.1
    → IsSame t (catching o (λ e u. (ok tt, noticed (error_notice e) u))).1
catching-IsSame t (ok r, u) p = p
catching-IsSame t (err e, u) p = p

check_pending_error-IsSame : (t : Transaction) → IsSame t (check_pending_error t).1
unfolding check_pending_error
check_pending_error-IsSame t = elim (Bool-cases (length t.pending_error == 0)) [
  | inl e ↦ rw e (refl, refl)
  | inr e ↦ rw e (refl, refl)
]

unregister_transaction-IsSame : (t : Transaction) → IsSame t (unregister_transaction t)
unfolding unregister_transaction
unregister_transaction-IsSame t =
    catching-IsSame t (check_unique_unregister t.conn.guest (some t.self), t) (refl, refl)

pub close_registration-IsSame : (t : Transaction) → IsSame t (close_registration t)
unfolding close_registration
close_registration-IsSame t =
    let checked =
      (catching (check_pending_error t) (λ e u. (ok tt, noticed (error_notice e) u))).1 in
    let same : IsSame t checked =
      catching-IsSame t (check_pending_error t) (check_pending_error-IsSame t) in
    if-IsSame checked.registered t (unregister_transaction (record checked { registered = false }))
      checked
      (IsSame_trans same (unregister_transaction-IsSame (record checked { registered = false })))
      same

close_as-closed :
    (inner_close : Transaction → Transaction) (s : Status) (t : Transaction)
    → s ≢ active
    → close_as inner_close s t ≡ t
unfolding close_as
close_as-closed inner_close active t h = absurd (h refl)
close_as-closed inner_close aborted t h = refl
close_as-closed inner_close committed t h = refl
close_as-closed inner_close in_doubt t h = refl

pub close_within-closed :
    (fuel : ℕ) (t : Transaction) → t.status ≢ active → IsSame t (close_within fuel t)
unfolding close_within
close_within-closed zero t h = (refl, refl)
close_within-closed (suc fuel) t h =
    let done = close_registration t in
    let same = close_registration-IsSame t in
    rw (close_as-closed (close_within fuel) done.status done (λ e. h (sym same.0 ∙ e))) same

close-closed : (t : Transaction) → t.status ≢ active → IsSame t (close t)
unfolding close
close-closed t h = close_within-closed 2 t h

abort_with-closed :
    (inner_close : Transaction → Transaction) (s : Status) (t : Transaction)
    → s ≢ active
    → IsSame t (abort_with inner_close s t).1
unfolding abort_with
abort_with-closed inner_close active t h = absurd (h refl)
abort_with-closed inner_close aborted t h = (refl, refl)
abort_with-closed inner_close committed t h = (refl, refl)
abort_with-closed inner_close in_doubt t h = (refl, refl)

commit_as-closed : (s : Status) (t : Transaction) → s ≢ active → IsSame t (commit_as s t).1
unfolding commit_as
commit_as-closed active t h = absurd (h refl)
commit_as-closed aborted t h = (refl, refl)
commit_as-closed committed t h = (refl, refl)
commit_as-closed in_doubt t h = (refl, refl)

exec_as-closed :
    (s : Status) (query : Bytes) (t : Transaction) → s ≢ active → IsSame t (exec_as s query t).1
unfolding exec_as
exec_as-closed active query t h = absurd (h refl)
exec_as-closed aborted query t h = (refl, refl)
exec_as-closed committed query t h = (refl, refl)
exec_as-closed in_doubt query t h = (refl, refl)

register_focus-IsSame : (new : Option ℕ) (t : Transaction) → IsSame t (register_focus new t).1
unfolding register_focus
register_focus-IsSame new t =
    then-IsSame t (check_unique_register t.focus new, t) (λ u. (ok tt, record u { focus = new }))
      (refl, refl) (λ u same. same)

unregister_focus-IsSame : (old : Option ℕ) (t : Transaction) → IsSame t (unregister_focus old t)
unfolding unregister_focus
unregister_focus-IsSame old t =
    catching-IsSame t
      ((check_unique_unregister t.focus old, t) then λ u. (ok tt, record u { focus = none }))
      (then-IsSame t (check_unique_unregister t.focus old, t)
        (λ u. (ok tt, record u { focus = none })) (refl, refl) (λ u same. same))

with_command-IsSame :
    (f : Transaction → Outcome) (t : Transaction)
    → ((u : Transaction) → IsSame t u → IsSame t (f u).1)
    → IsSame t (with_command f t).1
unfolding with_command
with_command-IsSame f t h =
    then-IsSame t (register_focus (some command) t)
      (λ u. let done = f u in (done.0, unregister_focus (some command) done.1))
      (register_focus-IsSame (some command) t)
      (λ u same. IsSame_trans (h u same) (unregister_focus-IsSame (some command) (f u).1))

exec-closed : (query : Bytes) (t : Transaction) → t.status ≢ active → IsSame t (exec query t).1
unfolding exec
exec-closed query t h =
    then-IsSame t (check_pending_error t) (with_command (λ t. exec_as t.status query t))
      (check_pending_error-IsSame t)
      (λ u same. IsSame_trans same (
        with_command-IsSame (λ t. exec_as t.status query t) u
          (λ v same'.
            IsSame_trans same'
              (exec_as-closed v.status query v (λ e. h (sym same.0 ∙ (sym same'.0 ∙ e)))))))

commit-closed : (t : Transaction) → t.status ≢ active → IsSame t (commit t).1
unfolding commit
commit-closed t h =
    then-IsSame t (check_pending_error t) (λ t. commit_as t.status t) (check_pending_error-IsSame t)
      (λ u same. IsSame_trans same (commit_as-closed u.status u (λ e. h (sym same.0 ∙ e))))

destroy_base-IsSame : (t : Transaction) → IsSame t (destroy_base t)
unfolding destroy_base
destroy_base-IsSame t =
    let pending = noticed (pending_notice t.pending_error) t in
    let told = if length t.pending_error == 0 then t else pending in
    let same : IsSame t told =
      if-IsSame (length t.pending_error == 0) t t pending (refl, refl) (refl, refl) in
    if-IsSame told.registered t (unregister_transaction (noticed never_closed told)) told
      (IsSame_trans same (unregister_transaction-IsSame (noticed never_closed told))) same

register_pending_error-IsSame :
    (e : Bytes) (t : Transaction) → IsSame t (register_pending_error e t)
unfolding register_pending_error
register_pending_error-IsSame e t =
    let kept = record t { pending_error = e } in
    if-IsSame (length t.pending_error == 0) t (if length e == 0 then t else kept) t
      (if-IsSame (length e == 0) t t kept (refl, refl) (refl, refl)) (refl, refl)

perform-closed : (c : Call) (t : Transaction) → t.status ≢ active → IsSame t (perform c t)
unfolding perform abort destroy
perform-closed commit_call t h = commit-closed t h
perform-closed abort_call t h = abort_with-closed close t.status t h
perform-closed close_call t h = close-closed t h
perform-closed destroy_call t h = IsSame_trans (close-closed t h) (destroy_base-IsSame (close t))
perform-closed (exec_call query) t h = exec-closed query t h
perform-closed (register_error_call e) t h = register_pending_error-IsSame e t

-- Once a transaction is committed, aborted or in doubt, no sequence of commits, aborts, closes,
-- destruction, `exec` calls without parameters and pending errors changes its status or sends the
-- backend any command.
pub perform_all-closed :
    (calls : List Call) (t : Transaction) → t.status ≢ active → IsSame t (perform_all calls t)
unfolding perform_all
perform_all-closed [] t h = (refl, refl)
perform_all-closed (c ∷ calls) t h =
    let same = perform-closed c t h in
    IsSame_trans same (perform_all-closed calls (perform c t) (λ e. h (sym same.0 ∙ e)))
