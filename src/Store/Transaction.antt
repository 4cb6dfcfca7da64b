-- ===== src/Store/Transaction.antt =====
-- src/edge_store.c: how the transactions end.
use opcua_edge.Base.{◌≡◌, ◌≢◌, ◌⊎◌, true, false, ◌∷◌, arith}
use opcua_edge.Types.{EdgeStatus, ok, EdgeModel}
use opcua_edge.World.{
  upsert_latest_value, begin_immediate, commit, rollback, sqlite_exec, sqlite_prepare, tail, Log,
  Env,
}
use opcua_edge.Clock.{edge_time_now_ms}
use opcua_edge.Store.Trace.{in_transaction}
use opcua_edge.Store.Key.{exec_sql, prepare}
use opcua_edge.Store.Persist.{step_rows, persist_parts, close_transaction, edge_store_persist_model}
use opcua_edge.Store.Latest.{latest_row, close_latest, edge_store_persist_latest_values}

-- How a transaction ends: an operation that succeeds has committed, and one that fails has left
-- no transaction open unless its last call, the COMMIT or the ROLLBACK, is itself what failed.
abbrev pub Ends : Env → EdgeStatus → Log → Type 0
Ends env status log' =
    ((status ≡ ok)
      × (log' ≡ sqlite_exec commit ∷ tail log')
      × (env.executes (tail log') ≡ true)
      × (in_transaction env log' ≡ false))
    ⊎ ((status ≢ ok)
        × ((in_transaction env log' ≡ false)
            ⊎ (((log' ≡ sqlite_exec commit ∷ tail log') ⊎ (log' ≡ sqlite_exec rollback ∷ tail log'))
                × (env.executes (tail log') ≡ false))))

close-Ends :
    (env : Env) (r : EdgeStatus × Log)
    → Ends env (close_transaction env r).0 (close_transaction env r).1
unfolding exec_sql
close-Ends env r = ground arith

close_latest-Ends :
    (env : Env) (r : EdgeStatus × Log) → Ends env (close_latest env r).0 (close_latest env r).1
unfolding exec_sql
close_latest-Ends env r = ground arith

-- With no transaction open before, `edge_store_persist_model` succeeds only with a COMMIT that went
-- through as its last call; where it fails, no transaction is left open unless its last call was a
-- COMMIT or a ROLLBACK that failed.
pub persist_model-Ends :
    (env : Env) (m : EdgeModel) (log : Log)
    → in_transaction env log ≡ false
    → Ends env (edge_store_persist_model env m log).0 (edge_store_persist_model env m log).1
unfolding edge_store_persist_model exec_sql
persist_model-Ends env m log h =
    let log1 = sqlite_exec begin_immediate ∷ log in
    ground (arith, close-Ends env (persist_parts env m log1))

-- With no transaction open before, `edge_store_persist_latest_values` succeeds only with a COMMIT
-- that went through as its last call; where it fails, no transaction is left open unless its last
-- call was a COMMIT or a ROLLBACK that failed.
pub persist_latest-Ends :
    (env : Env) (m : EdgeModel) (log : Log)
    → in_transaction env log ≡ false
    → Ends env
        (edge_store_persist_latest_values env m log).0
        (edge_store_persist_latest_values env m log).1
unfolding edge_store_persist_latest_values exec_sql prepare edge_time_now_ms
persist_latest-Ends env m log h =
    let now = (edge_time_now_ms env log).0 in
    let log3 =
      sqlite_exec begin_immediate
      ∷ sqlite_prepare upsert_latest_value
      ∷ (edge_time_now_ms env log).1 in
    ground (
      arith,
      close_latest-Ends env (step_rows env upsert_latest_value (latest_row now) m.nodes log3),
    )
