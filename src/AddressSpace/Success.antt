-- ===== src/AddressSpace/Success.antt =====
-- src/edge_address_space.c: node ids always fit, so that on a wired model only the server can make the
-- address space fail.
use opcua_edge.Base.{
  ℕ, ◌<◌, ◌≡◌, ◌⊎◌, inl, inr, refl, true, none, some, List, [], ◌∷◌, arith, length, length-append,
  get_elem?, All, codes,
}
use opcua_edge.Types.{EdgeStatus, ok, EdgeNode, EdgeAsset, EdgeModel}
use opcua_edge.World.{ua_add_namespace, Log, Env}
use opcua_edge.Store.Key.{snprintf}
use opcua_edge.Store.Success.{key_fits}
use opcua_edge.AddressSpace.{
  make_plant_nodeid, make_asset_nodeid, make_variable_nodeid, make_parent_nodeid, asset_of,
  add_plant_object, add_asset_object, add_variable_node, add_all, edge_address_space_load,
}

-- The parent's pointer is null, or names an asset whose id fits.
abbrev pub ParentFits : List EdgeAsset → EdgeAsset → Type 0
ParentFits assets a =
    (a.parent ≡ none)
    ⊎ ((i : ℕ) × (p : EdgeAsset) × (a.parent ≡ some i)
        × (get_elem? assets i ≡ some p)
        × (length p.id < 64))

abbrev pub AssetLoads : List EdgeAsset → EdgeAsset → Type 0
AssetLoads assets a = (length a.id < 64) × ParentFits assets a

abbrev pub NodeLoads : List EdgeAsset → EdgeNode → Type 0
NodeLoads assets n =
    (length n.id < 64)
    × ((i : ℕ) × (a : EdgeAsset) × (n.asset ≡ some i)
        × (get_elem? assets i ≡ some a)
        × (length a.id < 64))

-- Every id fits its array, and every pointer is set.
pub record Loadable (m : EdgeModel) : Type 0 where
  pub plant_id : length m.id < 64
  pub assets_load : All (AssetLoads m.assets) m.assets
  pub nodes_load : All (NodeLoads m.assets) m.nodes

-- The server takes every object and every variable.
abbrev pub Takes : Env → Type 0
Takes env = ((l : Log) → env.adds_object l ≡ true) × ((l : Log) → env.adds_variable l ≡ true)

asset_nodeid-ok : (a : EdgeAsset) → length a.id < 64 → (make_asset_nodeid a).0 ≡ ok
unfolding make_asset_nodeid snprintf
asset_nodeid-ok a h = ground (arith, length-append (codes "asset:") a.id)

plant_nodeid-ok : (m : EdgeModel) → length m.id < 64 → (make_plant_nodeid m).0 ≡ ok
unfolding make_plant_nodeid snprintf
plant_nodeid-ok m h = ground (arith, length-append (codes "plant:") m.id)

variable_nodeid-ok :
    (a : EdgeAsset) (n : EdgeNode)
    → length a.id < 64
    → length n.id < 64
    → (make_variable_nodeid a n).0 ≡ ok
unfolding make_variable_nodeid snprintf
variable_nodeid-ok a n h k = ground (arith, key_fits a.id n.id h k)

parent_nodeid-ok :
    (m : EdgeModel) (a : EdgeAsset)
    → length m.id < 64
    → ParentFits m.assets a
    → (make_parent_nodeid m a).0 ≡ ok
unfolding make_parent_nodeid
parent_nodeid-ok m a h (inl e) = ground (arith, e, plant_nodeid-ok m h)
parent_nodeid-ok m a h (inr (i, p, e, g, k)) = ground (arith, e, g, asset_nodeid-ok p k)

module _ (env : Env) (takes : Takes env) where
  add_all-ok {ℓ} :
      {A : Type ℓ} (P : A → Type 0) (add : A → Log → EdgeStatus × Log) (xs : List A) (log : Log)
      → ((x : A) (l : Log) → P x → (add x l).0 ≡ ok)
      → All P xs
      → (add_all add xs log).0 ≡ ok
  unfolding add_all
  add_all-ok P add [] log h k = refl
  add_all-ok P add (x ∷ xs) log h k =
      ground (arith, h x log k.0, add_all-ok P add xs (add x log).1 h k.1)

  add_asset-ok :
      (m : EdgeModel) (a : EdgeAsset) (log : Log)
      → length m.id < 64
      → AssetLoads m.assets a
      → (add_asset_object env m a log).0 ≡ ok
  unfolding add_asset_object
  add_asset-ok m a log h (k, p) =
      ground (arith, asset_nodeid-ok a k, parent_nodeid-ok m a h p, takes.0 log)

  add_variable-ok :
      (m : EdgeModel) (n : EdgeNode) (log : Log)
      → NodeLoads m.assets n
      → (add_variable_node env m n log).0 ≡ ok
  unfolding add_variable_node asset_of
  add_variable-ok m n log (k, (i, a, e, g, h)) =
      ground (arith, variable_nodeid-ok a n h k, asset_nodeid-ok a h, takes.1 log)

  -- Where the server takes every object and variable, loading a model whose ids fit and whose pointers
  -- are set succeeds.
  pub address_space-ok :
      (m : EdgeModel) (log : Log) → Loadable m → (edge_address_space_load env m log).0 ≡ ok
  unfolding edge_address_space_load add_plant_object
  address_space-ok m log h =
      let begun = ua_add_namespace ∷ log in
      let log1 = (add_plant_object env m begun).1 in
      let log2 = (add_all (add_asset_object env m) m.assets log1).1 in
      ground (
        arith,
        plant_nodeid-ok m h.plant_id,
        takes.0 begun,
        add_all-ok (AssetLoads m.assets) (add_asset_object env m) m.assets log1
            (λ a l k. add_asset-ok m a l h.plant_id k) h.assets_load,
        add_all-ok (NodeLoads m.assets) (add_variable_node env m) m.nodes log2
            (λ n l k. add_variable-ok m n l k) h.nodes_load,
      )
