-- ===== src/AddressSpace/Order.antt =====
-- src/edge_address_space.c: what it means that objects come behind their parents, and the calls of
-- each function that adds one.

use opcua_edge.Base.{
  ℕ, ◌<◌, ◌≡◌, ◌≢◌, ◌⊎◌, inl, inr, refl, true, Option, none, some, [], ◌∷◌, ◌++◌, arith, get_elem?,
  Bytes, codes, Option-cases,
}
use opcua_edge.Types.{ok, EdgeNode, EdgeAsset, EdgeModel}
use opcua_edge.World.{Call, ua_add_object, ua_add_variable, Log, Env}
use opcua_edge.Store.Key.{snprintf, status_of, node_key}
use opcua_edge.AddressSpace.{
  make_plant_nodeid, make_asset_nodeid, make_variable_nodeid, make_parent_nodeid, add_plant_object,
  add_asset_object, asset_of, add_variable_node,
}

abbrev pub plant_text : EdgeModel → Bytes
plant_text m = codes "plant:" ++ m.id

abbrev pub asset_text : EdgeAsset → Bytes
asset_text a = codes "asset:" ++ a.id

-- The object was added, and the server took it.
abbrev pub Added : Env → Bytes → Log → Type 0
Added env id [] = ⊥
Added env id (ua_add_object id' parent name ∷ log) =
    ((id' ≡ id) × (env.adds_object log ≡ true)) ⊎ Added env id log
Added env id (call ∷ log) = Added env id log

-- Every object but the plant, and every variable, comes behind its parent.
abbrev pub Placed : Env → Log → Type 0
Placed env [] = Unit
Placed env (ua_add_object id (some parent) name ∷ log) = Added env parent log × Placed env log
Placed env (ua_add_variable id parent name writable ∷ log) = Added env parent log × Placed env log
Placed env (call ∷ log) = Placed env log

-- The parent that an asset points at stands before it.
abbrev pub PointsBack : ℕ → EdgeAsset → Type 0
PointsBack i a = (a.parent ≡ none) ⊎ ((j : ℕ) × (a.parent ≡ some j) × (j < i))

unfoldable pub parent_text : EdgeModel → EdgeAsset → Bytes
parent_text m a = elim a.parent [
  | none ↦ plant_text m
  | some j ↦ elim (get_elem? m.assets j) [ none ↦ [] | some b ↦ asset_text b ]
]

-- The calls that add an asset, under its parent, and a node, under its own asset.
abbrev pub asset_call : EdgeModel → EdgeAsset → Call
asset_call m a = ua_add_object (asset_text a) (some (parent_text m a)) a.name

unfoldable pub variable_call : EdgeModel → EdgeNode → Call
variable_call m n = elim (asset_of m n) [
  | none ↦ ua_add_variable [] [] n.name n.writable
  | some a ↦ ua_add_variable (node_key a.id n.id) (asset_text a) n.name n.writable
]

-- No call, and a failure; or the call, with the server's answer.
pub add_plant-cases :
    (env : Env) (m : EdgeModel) (log : Log)
    → (((add_plant_object env m log).0 ≢ ok) × ((add_plant_object env m log).1 ≡ log))
      ⊎ (add_plant_object env m log
          ≡ (status_of (env.adds_object log), ua_add_object (plant_text m) none m.name ∷ log))
unfolding add_plant_object make_plant_nodeid snprintf
add_plant-cases env m log = ground arith

pub add_asset-cases :
    (env : Env) (m : EdgeModel) (a : EdgeAsset) (log : Log)
    → (((add_asset_object env m a log).0 ≢ ok) × ((add_asset_object env m a log).1 ≡ log))
      ⊎ (add_asset_object env m a log ≡ (status_of (env.adds_object log), asset_call m a ∷ log))
unfolding add_asset_object make_asset_nodeid make_parent_nodeid make_plant_nodeid snprintf
    parent_text
add_asset-cases env m a log = ground arith

asset_of-some :
    (m : EdgeModel) (n : EdgeNode) {a : EdgeAsset}
    → asset_of m n ≡ some a
    → (k : ℕ) × (get_elem? m.assets k ≡ some a)
unfolding asset_of
asset_of-some m n {a} e = go n.asset e
  where
    go :
        (o : Option ℕ)
        → elim o [ none ↦ none | some i ↦ get_elem? m.assets i ] ≡ some a
        → (k : ℕ) × (get_elem? m.assets k ≡ some a)
    go none f = absurd (ground arith)
    go (some k) f = (k, f)

pub add_variable-cases :
    (env : Env) (m : EdgeModel) (n : EdgeNode) (log : Log)
    → (((add_variable_node env m n log).0 ≢ ok) × ((add_variable_node env m n log).1 ≡ log))
      ⊎ ((k : ℕ) × (a : EdgeAsset) × (get_elem? m.assets k ≡ some a)
          × (variable_call m n
              ≡ ua_add_variable (node_key a.id n.id) (asset_text a) n.name n.writable)
          × (add_variable_node env m n log
              ≡ (status_of (env.adds_variable log), variable_call m n ∷ log)))
unfolding add_variable_node make_variable_nodeid make_asset_nodeid snprintf variable_call
add_variable-cases env m n log = elim (Option-cases (asset_of m n)) [
  | inl e ↦ inl (ground arith)
  | inr (a, e) ↦
      let (k, at) = asset_of-some m n e in
      let call : variable_call m n
          ≡ ua_add_variable (node_key a.id n.id) (asset_text a) n.name n.writable =
        rw (e, variable_call) refl in
      let either : (((add_variable_node env m n log).0 ≢ ok)
            × ((add_variable_node env m n log).1 ≡ log))
          ⊎ (add_variable_node env m n log
              ≡ (status_of (env.adds_variable log), variable_call m n ∷ log)) =
        ground (arith, call) in
      elim either [ inl failed ↦ inl failed | inr made ↦ inr (k, a, at, call, made) ]
]
