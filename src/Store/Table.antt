-- ===== src/Store/Table.antt =====
-- src/edge_store.c: what persisting the latest values leaves in their table.
use opcua_edge.Base.{
  ℕ, ◌≡◌, refl, sym, subst, ap, ◌∙◌, Option, some, List, [], ◌∷◌, arith, All, Distinct, Bytes,
  str_eq, str_eq_iff, if◌then◌else◌,
}
use opcua_edge.Types.{EdgeStatus, EdgeNode, EdgeModel}
use opcua_edge.World.{
  begin_immediate, commit, rollback, text, integer, real, upsert_latest_value, sqlite_exec,
  sqlite_prepare, sqlite_step, Log, Env,
}
use opcua_edge.Clock.{edge_time_now_ms}
use opcua_edge.Value.{edge_node_as_double}
use opcua_edge.Config.Bounds.{NodeFits}
use opcua_edge.Store.Key.{node_key, exec_sql, prepare, step_done}
use opcua_edge.Store.Persist.{step_rows}
use opcua_edge.Store.Latest.{latest_row, edge_store_persist_latest_values}
use opcua_edge.Store.Success.{step_rows-ok, latest_rows, make_node_key-ok, Works}

-- The table latest_values, by key.
abbrev pub Table : Type 0
Table = Bytes → Option ℕ

abbrev put : Bytes → ℕ → Table → Table
put key v t k = if str_eq k key then some v else t k

-- The table as the connection sees it and as a ROLLBACK leaves it, from what it held at first: the
-- documented effect of the calls in the log.
unfoldable pub tables : Env → Table → Log → Table × Table
tables env start [] = (start, start)
tables env start (sqlite_exec begin_immediate ∷ log) =
    let (now, saved) = tables env start log in if env.executes log then (now, now) else (now, saved)
tables env start (sqlite_exec rollback ∷ log) =
    let (now, saved) = tables env start log in (saved, saved)
tables env start (sqlite_step upsert_latest_value (text key ∷ real v ∷ rest) ∷ log) =
    let (now, saved) = tables env start log in
    if env.steps_done log then (put key v now, saved) else (now, saved)
tables env start (call ∷ log) = tables env start log

abbrev pub stored : Env → Table → Log → Table
stored env start log = (tables env start log).0

abbrev pub key_of : EdgeNode → Bytes
key_of n = node_key n.asset_id n.id

abbrev pub SameKey : EdgeNode → EdgeNode → Type 0
SameKey a b = key_of a ≡ key_of b

module _ (env : Env) (works : Works env) (start : Table) where
  put-here : (key : Bytes) (v : ℕ) (t : Table) → put key v t key ≡ some v
  put-here key v t = ground (arith, str_eq_iff key key)

  put-there : (key k : Bytes) (v : ℕ) (t : Table) → ¬ (key ≡ k) → put key v t k ≡ t k
  put-there key k v t h = ground (arith, str_eq_iff k key)

  rows-done :
      (now : ℕ) (log : Log) (key : Bytes)
      → stored env start (step_rows env upsert_latest_value (latest_row now) [] log).1 key
        ≡ stored env start log key
  unfolding step_rows tables
  rows-done now log key = refl

  -- The log behind the row of one node.
  abbrev upserted : ℕ → EdgeNode → Log → Log
  upserted now n log =
      sqlite_step upsert_latest_value
        (text (key_of n) ∷ real (edge_node_as_double n) ∷ integer now ∷ [])
      ∷ log

  stored-upserted :
      (now : ℕ) (n : EdgeNode) (log : Log)
      → stored env start (upserted now n log)
        ≡ put (key_of n) (edge_node_as_double n) (stored env start log)
  unfolding tables
  stored-upserted now n log = rw (works.2 log, stored, tables) refl

  step_rows-step :
      (now : ℕ) (n : EdgeNode) (rest : List EdgeNode) (log : Log)
      → NodeFits n
      → step_rows env upsert_latest_value (latest_row now) (n ∷ rest) log
        ≡ step_rows env upsert_latest_value (latest_row now) rest (upserted now n log)
  unfolding step_rows step_done
  step_rows-step now n rest log fits = ground (arith, make_node_key-ok n fits, works.2 log)

  abbrev rows : ℕ → List EdgeNode → Log → Log
  rows now nodes log = (step_rows env upsert_latest_value (latest_row now) nodes log).1

  rows-step :
      (now : ℕ) (n : EdgeNode) (rest : List EdgeNode) (log : Log)
      → NodeFits n
      → rows now (n ∷ rest) log ≡ rows now rest (upserted now n log)
  rows-step now n rest log fits =
      ap (λ (r : EdgeStatus × Log). r.1) (step_rows-step now n rest log fits)

  -- Storing the rows of other nodes leaves a key alone.
  rows-others :
      (now : ℕ) (key : Bytes) (nodes : List EdgeNode) (log : Log)
      → All NodeFits nodes
      → All (λ n. ¬ (key ≡ key_of n)) nodes
      → stored env start (rows now nodes log) key ≡ stored env start log key
  rows-others now key [] log fits h = rows-done now log key
  rows-others now key (n ∷ rest) log fits h =
      ap (λ (l : Log). stored env start l key) (rows-step now n rest log fits.0)
      ∙ rows-others now key rest (upserted now n log) fits.1 h.1
      ∙ ap (λ (t : Table). t key) (stored-upserted now n log)
      ∙ put-there (key_of n) key (edge_node_as_double n) (stored env start log) (λ e. h.0 (sym e))

  rows-stored :
      (now : ℕ) (nodes : List EdgeNode) (log : Log)
      → All NodeFits nodes
      → Distinct SameKey nodes
      → All
          (λ n. stored env start (rows now nodes log) (key_of n) ≡ some (edge_node_as_double n))
          nodes
  rows-stored now [] log fits h = tt
  rows-stored now (n ∷ rest) log fits h =
      let moved = rows-step now n rest log fits.0 in
      (
        ap (λ (l : Log). stored env start l (key_of n)) moved
            ∙ rows-others now (key_of n) rest (upserted now n log) fits.1 h.0
            ∙ ap (λ (t : Table). t (key_of n)) (stored-upserted now n log)
            ∙ put-here (key_of n) (edge_node_as_double n) (stored env start log),
        subst
            (λ (l : Log).
              All (λ x. stored env start l (key_of x) ≡ some (edge_node_as_double x)) rest)
            (sym moved) (rows-stored now rest (upserted now n log) fits.1 h.1),
      )

  abbrev begun : Log → Log
  begun log =
      sqlite_exec begin_immediate
      ∷ sqlite_prepare upsert_latest_value
      ∷ (edge_time_now_ms env log).1

  persist-log :
      (m : EdgeModel) (log : Log)
      → All NodeFits m.nodes
      → (edge_store_persist_latest_values env m log).1
        ≡ sqlite_exec commit ∷ rows (edge_time_now_ms env log).0 m.nodes (begun log)
  unfolding edge_store_persist_latest_values exec_sql prepare
  persist-log m log fits =
      let (now, log1) = edge_time_now_ms env log in
      ground (
        arith,
        works.1 log1,
        works.0 (sqlite_prepare upsert_latest_value ∷ log1),
        step_rows-ok env works upsert_latest_value (latest_row now) m.nodes (begun log)
            (latest_rows env works now m.nodes fits),
      )

  -- Persisting stores the value of each node.
  pub persist-stored :
      (m : EdgeModel) (log : Log)
      → All NodeFits m.nodes
      → Distinct SameKey m.nodes
      → let (status, log') = edge_store_persist_latest_values env m log in
        All (λ n. stored env start log' (key_of n) ≡ some (edge_node_as_double n)) m.nodes
  unfolding tables
  persist-stored m log fits distinct =
      subst
        (λ (l : Log).
          All (λ n. stored env start l (key_of n) ≡ some (edge_node_as_double n)) m.nodes)
        (sym (persist-log m log fits))
        (rows-stored (edge_time_now_ms env log).0 m.nodes (begun log) fits distinct)
