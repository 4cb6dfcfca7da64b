-- ===== src/Store/Success.antt =====
-- src/edge_store.c: keys always fit, so that on a loaded model only SQLite can make the store fail.
use opcua_edge.Base.{
  ℕ, ◌+◌, ◌<◌, ◌≡◌, refl, true, List, [], ◌∷◌, arith, length, length-append, All, Bytes,
}
use opcua_edge.Types.{
  EdgeStatus, ok, error, limit, invalid, EdgeNode, EdgeAsset, EdgeEvent, EdgeModel,
}
use opcua_edge.World.{
  Statement, insert_plant, insert_asset, insert_node, insert_event_definition, upsert_latest_value,
  select_latest_value, begin_immediate, Binding, text, sqlite_exec, sqlite_prepare, sqlite_step,
  Log, Env,
}
use opcua_edge.Clock.{edge_time_now_ms}
use opcua_edge.Config.Bounds.{NodeFits, EventFits, ModelFits}
use opcua_edge.Store.Key.{
  snprintf, node_key, make_node_key, make_event_source_node_key, exec_sql, prepare, step_done,
}
use opcua_edge.Store.Persist.{
  step_rows, insert_rows, insert_one, asset_row, node_row, event_row, persist_plant, persist_assets,
  persist_nodes, persist_events, then_do, persist_parts, edge_store_persist_model,
}
use opcua_edge.Store.Latest.{
  load_rows, edge_store_load_latest_values, latest_row, edge_store_persist_latest_values,
}

node_key-length : (a b : Bytes) → length (node_key a b) ≡ 6 + length a + length b
node_key-length a b = ground (arith, length-append a (46 ∷ b))

pub key_fits :
    (a b : Bytes) → length a < 64 → length b < 64 → snprintf 160 (node_key a b) ≡ (ok, node_key a b)
unfolding snprintf
key_fits a b h k = ground (arith, node_key-length a b)

-- The key of a node whose ids fit their arrays is never cut off.
pub make_node_key-ok :
    (n : EdgeNode) → NodeFits n → make_node_key n ≡ (ok, node_key n.asset_id n.id)
unfolding make_node_key
make_node_key-ok n h = key_fits n.asset_id n.id (ground arith) (ground arith)

pub make_event_key-ok :
    (e : EdgeEvent)
    → EventFits e
    → make_event_source_node_key e ≡ (ok, node_key e.asset_id e.source_node_id)
unfolding make_event_source_node_key
make_event_key-ok e h = key_fits e.asset_id e.source_node_id (ground arith) (ground arith)

-- SQLite takes every call.
abbrev pub Works : Env → Type 0
Works env =
    ((l : Log) → env.executes l ≡ true)
    × ((l : Log) → env.prepares l ≡ true)
    × ((l : Log) → env.steps_done l ≡ true)

module _ (env : Env) (works : Works env) where
  pub step_rows-ok {ℓ} :
      {A : Type ℓ} (stmt : Statement) (row : A → EdgeStatus × List Binding) (xs : List A)
      (log : Log)
      → All (λ x. (row x).0 ≡ ok) xs
      → (step_rows env stmt row xs log).0 ≡ ok
  unfolding step_rows step_done
  step_rows-ok stmt row [] log h = refl
  step_rows-ok stmt row (x ∷ xs) log h =
      ground
        (arith, h, works.2 log, step_rows-ok stmt row xs (sqlite_step stmt (row x).1 ∷ log) h.1)

  load_rows-ok :
      (nodes : List EdgeNode) (log : Log) → All NodeFits nodes → (load_rows env nodes log).0 ≡ ok
  unfolding load_rows
  load_rows-ok [] log h = refl
  load_rows-ok (n ∷ rest) log h =
      rw (make_node_key-ok n h.0, load_rows)
        (load_rows-ok rest (sqlite_step select_latest_value (text (make_node_key n).1 ∷ []) ∷ log)
          h.1)

  insert_rows-ok {ℓ} :
      {A : Type ℓ} (stmt : Statement) (row : A → EdgeStatus × List Binding) (xs : List A)
      (log : Log)
      → All (λ x. (row x).0 ≡ ok) xs
      → (insert_rows env stmt row xs log).0 ≡ ok
  unfolding insert_rows prepare
  insert_rows-ok stmt row xs log h =
      ground (arith, works.1 log, step_rows-ok stmt row xs (sqlite_prepare stmt ∷ log) h)

  pub insert_one-ok :
      (stmt : Statement) (row : List Binding) (log : Log) → (insert_one env stmt row log).0 ≡ ok
  unfolding insert_one prepare step_done
  insert_one-ok stmt row log = ground (arith, works.1 log, works.2 (sqlite_prepare stmt ∷ log))

  then_do-ok :
      (first : EdgeStatus × Log) (next : Log → EdgeStatus × Log)
      → first.0 ≡ ok
      → ((l : Log) → (next l).0 ≡ ok)
      → (then_do first next).0 ≡ ok
  then_do-ok (ok, l) next h k = k l
  then_do-ok (error, l) next h k = h
  then_do-ok (limit, l) next h k = h
  then_do-ok (invalid, l) next h k = h

  plain_rows : (m : EdgeModel) (xs : List EdgeAsset) → All (λ x. (asset_row m x).0 ≡ ok) xs
  plain_rows m [] = tt
  plain_rows m (a ∷ xs) = (refl, plain_rows m xs)

  node_rows : (xs : List EdgeNode) → All NodeFits xs → All (λ x. (node_row x).0 ≡ ok) xs
  node_rows [] h = tt
  node_rows (n ∷ xs) h = (ground (arith, make_node_key-ok n h.0), node_rows xs h.1)

  event_rows : (xs : List EdgeEvent) → All EventFits xs → All (λ x. (event_row x).0 ≡ ok) xs
  event_rows [] h = tt
  event_rows (e ∷ xs) h = (ground (arith, make_event_key-ok e h.0), event_rows xs h.1)

  pub latest_rows :
      (now : ℕ) (xs : List EdgeNode) → All NodeFits xs → All (λ x. (latest_row now x).0 ≡ ok) xs
  latest_rows now [] h = tt
  latest_rows now (n ∷ xs) h = (ground (arith, make_node_key-ok n h.0), latest_rows now xs h.1)

  parts-ok : (m : EdgeModel) (log : Log) → ModelFits m → (persist_parts env m log).0 ≡ ok
  unfolding persist_parts persist_plant persist_assets persist_nodes persist_events
  parts-ok m log h =
      then_do-ok
        (then_do (then_do (persist_plant env m log) (persist_assets env m)) (persist_nodes env m))
        (persist_events env m)
        (then_do-ok (then_do (persist_plant env m log) (persist_assets env m)) (persist_nodes env m)
          (then_do-ok (persist_plant env m log) (persist_assets env m)
            (insert_one-ok insert_plant (text m.id ∷ text m.name ∷ []) log)
            (λ l. insert_rows-ok insert_asset (asset_row m) m.assets l (plain_rows m m.assets)))
          (λ l. insert_rows-ok insert_node node_row m.nodes l (node_rows m.nodes h.nodes_fit)))
        (λ l.
          insert_rows-ok insert_event_definition event_row m.events l
            (event_rows m.events h.events_fit))

  model-ok : (m : EdgeModel) (log : Log) → ModelFits m → (edge_store_persist_model env m log).0 ≡ ok
  unfolding edge_store_persist_model exec_sql
  model-ok m log h =
      let log1 = sqlite_exec begin_immediate ∷ log in
      ground (arith, works.0 log, parts-ok m log1 h, works.0 (persist_parts env m log1).1)

  latest-ok :
      (m : EdgeModel) (log : Log)
      → ModelFits m
      → (edge_store_persist_latest_values env m log).0 ≡ ok
  unfolding edge_store_persist_latest_values exec_sql prepare edge_time_now_ms
  latest-ok m log h =
      let (now, log1) = edge_time_now_ms env log in
      let log2 = sqlite_prepare upsert_latest_value ∷ log1 in
      let log3 = sqlite_exec begin_immediate ∷ log2 in
      ground (
        arith,
        works.1 log1,
        works.0 log2,
        step_rows-ok upsert_latest_value (latest_row now) m.nodes log3
            (latest_rows now m.nodes h.nodes_fit),
        works.0 (step_rows env upsert_latest_value (latest_row now) m.nodes log3).1,
      )

  load-ok :
      (m : EdgeModel) (log : Log) → ModelFits m → (edge_store_load_latest_values env m log).0 ≡ ok
  unfolding edge_store_load_latest_values prepare
  load-ok m log h = ground (
    arith,
    works.1 log,
    load_rows-ok m.nodes (sqlite_prepare select_latest_value ∷ log) h.nodes_fit,
  )

  -- On a model that fits the fixed-size arrays, and where SQLite takes every call, persisting the
  -- model, persisting the latest values and loading them succeed: no key is too long.
  pub store-succeeds :
      (m : EdgeModel) (log : Log)
      → ModelFits m
      → ((edge_store_persist_model env m log).0 ≡ ok)
        × ((edge_store_persist_latest_values env m log).0 ≡ ok)
        × ((edge_store_load_latest_values env m log).0 ≡ ok)
  store-succeeds m log h = (model-ok m log h, latest-ok m log h, load-ok m log h)
