-- ===== src/Transaction/Tests.antt =====
-- The properties of this component, at concrete inputs.
use libpqxx.Prelude.{
  ◌≡◌, ◌≢◌, inl, inr, refl, Bytes, codes, [], ◌∷◌, ok, err, none, some, true, false, in_doubt_error,
  broken_connection,
}
use libpqxx.Transaction.State.{
  Answer, Connection, active, aborted, committed, in_doubt, basic, Transaction, deal,
}
use libpqxx.Transaction.Operations.{
  commit_q, commit, close, exec, internal_exec_params, commit_call, exec_call, perform_all,
}
use libpqxx.Transaction.Final.{IsSame, perform_all-closed}
use libpqxx.Transaction.Closing.{close-ends, close-rollback}
use libpqxx.Transaction.Committing.{commit-verdict, commit-refused, exec-focus}

-- The backend loses the connection at the next command.
abbrev lost : Answer
lost = record { outcome = err broken_connection; still_open = false }

abbrev connection : Connection
connection = record { is_open = true; answers = lost ∷ []; sent = []; guest = some 1; notices = [] }

abbrev rollback : Bytes
rollback = codes "ROLLBACK"

abbrev begun : Transaction
begun = record {
  self = 1;
  kind = basic;
  status = active;
  focus = none;
  registered = true;
  pending_error = [];
  rollback_cmd = some rollback;
  conn = connection;
}

abbrev over : Transaction
over = record begun { status = committed }

abbrev streaming : Transaction
streaming = record begun { focus = some 5 }

perform_all-closed_example : IsSame over (perform_all (commit_call ∷ exec_call rollback ∷ []) over)
perform_all-closed_example =
    perform_all-closed (commit_call ∷ exec_call rollback ∷ []) over (λ e. cc)

commit-verdict_example :
    ((commit begun).1.status ≡ in_doubt)
    × ((commit begun).0 ≡ err in_doubt_error)
    × ((commit begun).1.conn.sent ≡ commit_q ∷ [])
unfolding deal
commit-verdict_example = commit-verdict begun refl refl refl refl refl (λ e. cc)

commit-refused_example : ((commit streaming).0 ≢ ok tt) × IsSame streaming (commit streaming).1
commit-refused_example = commit-refused streaming refl (inr (inl (λ e. cc)))

close-rollback_example :
    ((close begun).status ≡ aborted) × ((close begun).conn.sent ≡ rollback ∷ [])
close-rollback_example = close-rollback begun rollback refl refl

close-ends_example :
    ((close begun).status ≢ active)
    × ((close begun).registered ≡ false)
    × ((close begun).conn.guest ≡ none)
close-ends_example = close-ends begun

exec-focus_example :
    ((exec rollback streaming).1.focus ≡ some 5)
    × (streaming.focus ≢ none → IsSame streaming (exec rollback streaming).1)
exec-focus_example = exec-focus rollback streaming

-- On a transaction that is committed.
sends_when_committed : (internal_exec_params 1 rollback over).1.conn.sent ≡ rollback ∷ []
unfolding internal_exec_params
sends_when_committed = refl
