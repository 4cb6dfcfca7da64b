-- ===== src/Store/Persist.antt =====
-- src/edge_store.c: `edge_store_persist_model` and its four parts, and the event history.
use opcua_edge.Base.{ℕ, Bool, true, false, List, [], ◌∷◌, if◌then◌else◌, is_empty}
use opcua_edge.Types.{
  EdgeStatus, ok, error, limit, EdgeDataType, unset_type, bool, int16, int32, uint32, double,
  EdgeEventCondition, unset_condition, greater_than, less_than, EdgeNode, EdgeAsset, EdgeEvent,
  EdgeModel,
}
use opcua_edge.World.{
  Statement, insert_plant, insert_asset, insert_node, insert_event_definition, insert_event_history,
  begin_immediate, commit, rollback, Binding, text, integer, real, null, sqlite_finalize, Log, Env,
}
use opcua_edge.Store.Key.{make_node_key, make_event_source_node_key, exec_sql, prepare, step_done}

-- The enumerators' values.
abbrev pub type_code : EdgeDataType → ℕ
type_code unset_type = 0
type_code bool = 1
type_code int16 = 2
type_code int32 = 3
type_code uint32 = 4
type_code double = 5

abbrev pub condition_code : EdgeEventCondition → ℕ
condition_code unset_condition = 0
condition_code greater_than = 1
condition_code less_than = 2

abbrev pub bool_code : Bool → ℕ
bool_code true = 1
bool_code false = 0

-- The loop of a prepared statement over an array: `row` makes an element's key and bindings. A key
-- that does not fit returns LIMIT, a failing step ERROR; the statement is finalized on each way.
unfoldable pub step_rows {ℓ} :
    {A : Type ℓ}
    → Env
    → Statement
    → (A → EdgeStatus × List Binding)
    → List A
    → Log
    → EdgeStatus × Log
step_rows env stmt row [] log = (ok, sqlite_finalize stmt ∷ log)
step_rows env stmt row (x ∷ xs) log =
    let (fits, bindings) = row x in
    let (stepped, log') = step_done env stmt bindings log in
    let rest = step_rows env stmt row xs log' in
    elim fits [
      | ok ↦ elim stepped [ ok ↦ rest | _ ↦ (error, sqlite_finalize stmt ∷ log') ]
      | _ ↦ (limit, sqlite_finalize stmt ∷ log)
    ]

-- `prepare`, then the loop.
unfoldable pub insert_rows {ℓ} :
    {A : Type ℓ}
    → Env
    → Statement
    → (A → EdgeStatus × List Binding)
    → List A
    → Log
    → EdgeStatus × Log
insert_rows env stmt row xs log =
    let (prepared, log') = prepare env stmt log in
    let stepped = step_rows env stmt row xs log' in
    elim prepared [ ok ↦ stepped | other ↦ (other, log') ]

-- One row, with the step's own status.
unfoldable pub insert_one : Env → Statement → List Binding → Log → EdgeStatus × Log
insert_one env stmt row log =
    let (prepared, log') = prepare env stmt log in
    let (stepped, log'') = step_done env stmt row log' in
    elim prepared [ ok ↦ (stepped, sqlite_finalize stmt ∷ log'') | other ↦ (other, log') ]

unfoldable pub persist_plant : Env → EdgeModel → Log → EdgeStatus × Log
persist_plant env model = insert_one env insert_plant (text model.id ∷ text model.name ∷ [])

abbrev pub asset_row : EdgeModel → EdgeAsset → EdgeStatus × List Binding
asset_row model asset = (
  ok,
  text asset.id
      ∷ text model.id
      ∷ (if is_empty asset.parent_id then null else text asset.parent_id)
      ∷ text asset.type
      ∷ text asset.name
      ∷ [],
)

unfoldable pub persist_assets : Env → EdgeModel → Log → EdgeStatus × Log
persist_assets env model = insert_rows env insert_asset (asset_row model) model.assets

abbrev pub node_row : EdgeNode → EdgeStatus × List Binding
node_row node =
    let (status, key) = make_node_key node in
    (
      status,
      text key
          ∷ text node.id
          ∷ text node.asset_id
          ∷ text node.name
          ∷ integer (type_code node.data_type)
          ∷ integer (bool_code node.writable)
          ∷ integer node.modbus_unit
          ∷ integer node.modbus_register
          ∷ real node.scale
          ∷ [],
    )

unfoldable pub persist_nodes : Env → EdgeModel → Log → EdgeStatus × Log
persist_nodes env model = insert_rows env insert_node node_row model.nodes

abbrev pub event_row : EdgeEvent → EdgeStatus × List Binding
event_row event =
    let (status, key) = make_event_source_node_key event in
    (
      status,
      text event.id
          ∷ text event.asset_id
          ∷ text key
          ∷ integer (condition_code event.condition)
          ∷ real event.threshold
          ∷ integer event.severity
          ∷ [],
    )

unfoldable pub persist_events : Env → EdgeModel → Log → EdgeStatus × Log
persist_events env model = insert_rows env insert_event_definition event_row model.events

-- The next part of a chain joined by `||`: made if the one before has passed.
abbrev pub then_do : EdgeStatus × Log → (Log → EdgeStatus × Log) → EdgeStatus × Log
then_do (ok, log) next = next log
then_do (status, log) next = (status, log)

unfoldable pub persist_parts : Env → EdgeModel → Log → EdgeStatus × Log
persist_parts env model log =
    then_do
      (then_do (then_do (persist_plant env model log) (persist_assets env model))
        (persist_nodes env model))
      (persist_events env model)

-- COMMIT with its status, or ROLLBACK with its status dropped.
abbrev pub close_transaction : Env → EdgeStatus × Log → EdgeStatus × Log
close_transaction env (ok, log) = exec_sql env commit log
close_transaction env (status, log) = let (_, log') = exec_sql env rollback log in (error, log')

unfoldable pub edge_store_persist_model : Env → EdgeModel → Log → EdgeStatus × Log
edge_store_persist_model env model log =
    let (begun, log') = exec_sql env begin_immediate log in
    let done = close_transaction env (persist_parts env model log') in
    elim begun [ ok ↦ done | _ ↦ (error, log') ]

unfoldable pub edge_store_insert_event_history : Env → EdgeEvent → ℕ → ℕ → Log → EdgeStatus × Log
edge_store_insert_event_history env event value created_ms = insert_one env insert_event_history (
    text event.id
    ∷ real value
    ∷ real event.threshold
    ∷ integer event.severity
    ∷ integer created_ms
    ∷ [])
