-- ===== src/Server.antt =====
-- src/edge_server.c: the life of the server. `ua` and `model` are whether the pointers are set. What
-- open62541 calls back while it iterates is in the replies of `World`: the runtime's callback, which
-- main.c registers, and the writes of clients.
use opcua_edge.Base.{
  ℕ, zero, suc, Bool, true, false, not, Option, none, some, List, [], ◌∷◌, if◌then◌else◌, get_elem?,
  set,
}
use opcua_edge.Types.{EdgeStatus, ok, error, EdgeModel}
use opcua_edge.World.{
  UaVariant, Callback, repeated, written, ua_config_minimal, ua_new_server, ua_config_clear,
  ua_delete_server, ua_run_startup, ua_run_iterate, ua_run_shutdown, Log, Env,
}
use opcua_edge.AddressSpace.{write_edge_node}
use opcua_edge.Runtime.{EdgeRuntime, edge_runtime_tick}

pub record EdgeServer : Type 0 where
  pub ua : Bool
  pub model : Bool

unfoldable pub edge_server_init : Env → EdgeServer → ℕ → Log → EdgeStatus × EdgeServer × Log
edge_server_init env server port log =
    let configured = ua_config_minimal port ∷ log in
    let created = ua_new_server ∷ configured in
    if not (env.sets_minimal log)
    then (error, record { ua = false; model = false }, configured)
    else if not (env.creates_server configured)
    then (error, record { ua = false; model = false }, ua_config_clear ∷ created)
    else (ok, record { ua = true; model = true }, created)

-- A client's write, through the callback of the node's variable; its status goes to the client.
unfoldable pub write_through : EdgeModel → ℕ → Option UaVariant → EdgeModel
write_through model i value = elim (get_elem? model.nodes i) [
  | none ↦ model
  | some node ↦ record model { nodes = set model.nodes i (write_edge_node node value).1 }
]

unfoldable pub run_callback : Env → Callback → EdgeRuntime → Log → EdgeRuntime × Log
unfolding write_through
run_callback env repeated r log = edge_runtime_tick env r log
run_callback env (written i value) r log = (record r { model = write_through r.model i value }, log)

unfoldable pub run_callbacks : Env → List Callback → EdgeRuntime → Log → EdgeRuntime × Log
run_callbacks env [] r log = (r, log)
run_callbacks env (c ∷ rest) r log =
    let (r', log') = run_callback env c r log in run_callbacks env rest r' log'

-- `UA_Server_run_iterate`
unfoldable pub iterate : Env → EdgeRuntime → Log → EdgeRuntime × Log
iterate env r log = run_callbacks env (env.iterates log) r (ua_run_iterate ∷ log)

-- `while(*running != 0)`; `none` means that the fuel ran out.
unfoldable pub server_loop : Env → ℕ → EdgeRuntime → Log → Option (EdgeRuntime × Log)
server_loop env zero r log = none
server_loop env (suc fuel) r log = elim (env.running log) [
  | false ↦ some (r, log)
  | true ↦ let (r', log') = iterate env r log in server_loop env fuel r' log'
]

unfoldable pub edge_server_run :
    Env → ℕ → EdgeRuntime → Log → Option (EdgeStatus × EdgeRuntime × Log)
edge_server_run env fuel r log =
    if not (env.starts_server log)
    then some (error, r, ua_run_startup ∷ log)
    else elim (server_loop env fuel r (ua_run_startup ∷ log)) [
      | none ↦ none
      | some (r', log') ↦ some (ok, r', ua_run_shutdown ∷ log')
    ]

unfoldable pub edge_server_clear : EdgeServer → Log → EdgeServer × Log
edge_server_clear server log =
    (record { ua = false; model = false }, if server.ua then ua_delete_server ∷ log else log)
