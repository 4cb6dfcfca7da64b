-- ===== src/Store/Restore.antt =====
-- src/edge_store.c: the latest values that are persisted are the ones that are loaded again.
use opcua_edge.Base.{
  ℕ, ◌≡◌, refl, sym, subst, ap, ◌∙◌, false, Option, some, List, [], ◌∷◌, map, arith, All, Distinct,
  Bytes,
}
use opcua_edge.Types.{ok, EdgeNode, EdgeModel}
use opcua_edge.World.{text, select_latest_value, sqlite_prepare, sqlite_step, Log, Env}
use opcua_edge.Double.{is_nan}
use opcua_edge.Value.{edge_node_as_double}
use opcua_edge.Value.RoundTrip.{Proper, as_double-set_from_double}
use opcua_edge.Config.Bounds.{NodeFits, ModelFits}
use opcua_edge.Store.Key.{prepare}
use opcua_edge.Store.Latest.{
  set_from_row, load_rows, edge_store_load_latest_values, edge_store_persist_latest_values,
}
use opcua_edge.Store.Success.{make_node_key-ok, Works, store-succeeds}
use opcua_edge.Store.Table.{Table, tables, stored, key_of, SameKey, persist-stored}

-- SQLite returns the number that is stored for the key; a NaN is stored as NULL.
abbrev pub Keeps : Env → Table → Type 0
Keeps env start =
    (key : Bytes) (v : ℕ) (log : Log)
    → stored env start log key ≡ some v
    → is_nan v ≡ false
    → env.steps_row (sqlite_step select_latest_value (text key ∷ []) ∷ log) ≡ some v

-- The nodes of the same template, with any values.
abbrev pub Alike : List EdgeNode → List EdgeNode → Type 0
Alike [] [] = Unit
Alike (a ∷ xs) (b ∷ ys) =
    ((a.id ≡ b.id) × (a.asset_id ≡ b.asset_id) × (a.data_type ≡ b.data_type)) × Alike xs ys
Alike xs ys = ⊥

-- A value that SQLite and the conversions keep.
abbrev pub Kept : EdgeNode → Type 0
Kept n = Proper n.data_type n.value × (is_nan (edge_node_as_double n) ≡ false)

module _ (env : Env) (works : Works env) (start : Table) where
  load_rows-step :
      (o : EdgeNode) (others : List EdgeNode) (log : Log)
      → NodeFits o
      → let asked = sqlite_step select_latest_value (text (key_of o) ∷ []) ∷ log in
        (load_rows env (o ∷ others) log).1
        ≡ set_from_row env o (env.steps_row asked) ∷ (load_rows env others asked).1
  unfolding load_rows
  load_rows-step o others log fits = ground (arith, make_node_key-ok o fits)

  -- Loading reads the table and leaves it alone.
  load_rows-restores :
      (nodes others : List EdgeNode) (log : Log)
      → Keeps env start
      → All NodeFits others
      → Alike others nodes
      → All Kept nodes
      → All (λ n. stored env start log (key_of n) ≡ some (edge_node_as_double n)) nodes
      → map edge_node_as_double (load_rows env others log).1 ≡ map edge_node_as_double nodes
  unfolding load_rows tables
  load_rows-restores [] [] log keeps fits alike kept h = refl
  load_rows-restores [] (o ∷ others) log keeps fits alike kept h = absurd alike
  load_rows-restores (n ∷ rest) [] log keeps fits alike kept h = absurd alike
  load_rows-restores (n ∷ rest) (o ∷ others) log keeps fits alike kept h =
      let ((id, asset, type), _) = alike in
      let key : key_of o ≡ key_of n = ground (arith, id, asset) in
      let asked = sqlite_step select_latest_value (text (key_of o) ∷ []) ∷ log in
      let row : env.steps_row asked ≡ some (edge_node_as_double n) =
        keeps (key_of o) (edge_node_as_double n) log (rw key h.0) kept.0.1 in
      let back = as_double-set_from_double env.fpu n o type kept.0.0 in
      let rest_back = load_rows-restores rest others asked keeps fits.1 alike.1 kept.1 h.1 in
      let here = ap (λ (r : Option ℕ). edge_node_as_double (set_from_row env o r)) row ∙ back in
      ap (map edge_node_as_double) (load_rows-step o others log fits.0)
      ∙ (λ i. here i ∷ rest_back i)

  load-restores :
      (m m' : EdgeModel) (log : Log)
      → Keeps env start
      → ModelFits m'
      → Alike m'.nodes m.nodes
      → All Kept m.nodes
      → All (λ n. stored env start log (key_of n) ≡ some (edge_node_as_double n)) m.nodes
      → map edge_node_as_double (edge_store_load_latest_values env m' log).1.nodes
        ≡ map edge_node_as_double m.nodes
  unfolding edge_store_load_latest_values prepare tables
  load-restores m m' log keeps fits alike kept h =
      let prepared = sqlite_prepare select_latest_value ∷ log in
      ground (
        arith,
        works.1 log,
        load_rows-restores m.nodes m'.nodes prepared keeps fits.nodes_fit alike kept h,
      )

  -- Where SQLite takes every call and returns what is stored, the latest values of a model are persisted,
  -- and then loaded into another model of the same nodes, whose ids and types agree one by one: both
  -- operations succeed, and each node then reads as the same double. The keys of the nodes must be
  -- distinct, no value may be a NaN, and a bool must hold 0 or 1; calls between the two that leave the
  -- stored values as they are, such as closing and opening the database, are any.
  pub load_latest-persist_latest :
      (m m' : EdgeModel) (log between : Log)
      → Keeps env start
      → ModelFits m
      → ModelFits m'
      → Distinct SameKey m.nodes
      → Alike m'.nodes m.nodes
      → All Kept m.nodes
      → stored env start between ≡ stored env start (edge_store_persist_latest_values env m log).1
      → let (loaded, m'', log') = edge_store_load_latest_values env m' between in
        ((edge_store_persist_latest_values env m log).0 ≡ ok)
        × (loaded ≡ ok)
        × (map edge_node_as_double m''.nodes ≡ map edge_node_as_double m.nodes)
  load_latest-persist_latest m m' log between keeps fits fits' distinct alike kept same =
      let there =
        subst (λ (t : Table). All (λ n. t (key_of n) ≡ some (edge_node_as_double n)) m.nodes)
          (sym same) (persist-stored env works start m log fits.nodes_fit distinct) in
      (
        (store-succeeds env works m log fits).1,
        (store-succeeds env works m' between fits').2,
        load-restores m m' between keeps fits' alike kept there,
      )
