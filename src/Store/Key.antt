-- ===== src/Store/Key.antt =====
-- src/edge_store.c: the calls of SQLite with their status, and the keys of nodes. `snprintf` fails
-- where its text and the NUL do not fit.
use opcua_edge.Base.{ℕ, Bool, List, [], ◌∷◌, ◌++◌, leb, if◌then◌else◌, length, Bytes, codes}
use opcua_edge.Types.{EdgeStatus, ok, error, limit, EdgeNode, EdgeEvent}
use opcua_edge.World.{
  Statement, Script, Binding, sqlite_exec, sqlite_prepare, sqlite_step, Log, Env,
}

abbrev pub edge_store_key_len : ℕ
edge_store_key_len = 160

-- The status, and the buffer's text where it is OK.
unfoldable pub snprintf : ℕ → Bytes → EdgeStatus × Bytes
snprintf dst_size text = if leb dst_size (length text) then (limit, []) else (ok, text)

abbrev pub node_key : Bytes → Bytes → Bytes
node_key asset_id id = codes "node:" ++ (asset_id ++ (codes "." ++ id))

unfoldable pub make_node_key : EdgeNode → EdgeStatus × Bytes
make_node_key node = snprintf edge_store_key_len (node_key node.asset_id node.id)

unfoldable pub make_event_source_node_key : EdgeEvent → EdgeStatus × Bytes
make_event_source_node_key event =
    snprintf edge_store_key_len (node_key event.asset_id event.source_node_id)

abbrev pub status_of : Bool → EdgeStatus
status_of done = if done then ok else error

unfoldable pub exec_sql : Env → Script → Log → EdgeStatus × Log
exec_sql env sql log = (status_of (env.executes log), sqlite_exec sql ∷ log)

unfoldable pub prepare : Env → Statement → Log → EdgeStatus × Log
prepare env sql log = (status_of (env.prepares log), sqlite_prepare sql ∷ log)

unfoldable pub step_done : Env → Statement → List Binding → Log → EdgeStatus × Log
step_done env stmt row log = (status_of (env.steps_done log), sqlite_step stmt row ∷ log)
