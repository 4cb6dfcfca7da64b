-- ===== src/AddressSpace/Loaded.antt =====
-- src/edge_config.c and src/edge_address_space.c: from a template to the server.
use opcua_edge.Base.{
  ℕ, zero, suc, ◌+◌, ◌≡◌, ◌⊎◌, inl, inr, refl, sym, ap, subst, ◌∙◌, Option, none, some, List, [],
  ◌∷◌, ◌++◌, arith, All, AllFrom, map, length, ◌≤◌, Bytes, codes, get_elem?, get_elem?-lt,
}
use opcua_edge.Types.{ok, EdgeNode, EdgeAsset, EdgeModel}
use opcua_edge.World.{ua_add_variable, Env}
use opcua_edge.Config.Fields.{Parsed}
use opcua_edge.Config.Resolve.{edge_config_load}
use opcua_edge.Config.Wire.{edge_config_wire_runtime}
use opcua_edge.Config.Resolved.{ParentOk, NodeOk}
use opcua_edge.Config.Bounds.{ModelFits}
use opcua_edge.Config.Load.{load-IsResolved, load-ModelFits}
use opcua_edge.Config.Wired.{Pairs, pointed_node, pointed_event, WiredAsset, wire-Wired}
use opcua_edge.Store.Key.{node_key}
use opcua_edge.AddressSpace.{asset_of, edge_address_space_load}
use opcua_edge.AddressSpace.Order.{PointsBack, Placed, plant_text, parent_text, variable_call}
use opcua_edge.AddressSpace.Sent.{Sends, model_calls}
use opcua_edge.AddressSpace.Placement.{load-Placed}

wired-PointsBack :
    (m : EdgeModel) (nodes : List EdgeNode) (i : ℕ) (xs ys : List EdgeAsset)
    → length m.assets ≤ 1024
    → AllFrom (ParentOk m) i xs
    → Pairs (WiredAsset nodes) i xs ys
    → AllFrom PointsBack i ys
wired-PointsBack m nodes i [] [] room h p = tt
wired-PointsBack m nodes i [] (b ∷ ys) room h p = absurd p
wired-PointsBack m nodes i (a ∷ xs) [] room h p = absurd p
wired-PointsBack m nodes i (a ∷ xs) (b ∷ ys) room h p =
    let same = ap (λ (x : EdgeAsset). x.parent) p.0.1 in
    (
      elim h.0 [
        | inl (top, _) ↦ inl (ground arith)
        | inr (parent, at, _, lt) ↦
            let in_range = get_elem?-lt m.assets a.parent_index at in
            inr (a.parent_index, ground arith, lt)
      ],
      wired-PointsBack m nodes (i + 1) xs ys room h.1 p.1,
    )

-- The object of an asset goes under the plant where the template names no parent or the plant, and
-- else under the asset that it names.
abbrev pub AssetNamed : EdgeModel → EdgeAsset → Type 0
AssetNamed m a =
    ((parent_text m a ≡ plant_text m) × ((a.parent_id ≡ []) ⊎ (a.parent_id ≡ m.id)))
    ⊎ (parent_text m a ≡ codes "asset:" ++ a.parent_id)

-- The variable of a node goes under the asset that the template names, and its key has both ids.
abbrev pub NodeNamed : EdgeModel → EdgeNode → Type 0
NodeNamed m n =
    variable_call m n
    ≡ ua_add_variable (node_key n.asset_id n.id) (codes "asset:" ++ n.asset_id) n.name n.writable

Pairs-get :
    (R : ℕ → EdgeAsset → EdgeAsset → Type 0) (i j : ℕ) (xs ys : List EdgeAsset) {a : EdgeAsset}
    → Pairs R i xs ys
    → get_elem? xs j ≡ some a
    → (b : EdgeAsset) × (get_elem? ys j ≡ some b) × R (i + j) a b
Pairs-get R i j [] ys p e = absurd (ground arith)
Pairs-get R i j (x ∷ xs) [] p e = absurd p
Pairs-get R i zero (x ∷ xs) (y ∷ ys) {a} p e =
    let same : x ≡ a = ground (arith, e) in
    let index : i ≡ i + 0 = omega arith in
    (y, refl, subst (λ (k : ℕ). R k a y) index (subst (λ (z : EdgeAsset). R i z y) same p.0))
Pairs-get R i (suc j) (x ∷ xs) (y ∷ ys) {a} p e =
    let (b, at, r) = Pairs-get R (i + 1) j xs ys p.1 e in
    let index : i + 1 + j ≡ i + suc j = omega arith in (b, at, subst (λ (k : ℕ). R k a b) index r)

module _ (m m'' : EdgeModel) (id : m''.id ≡ m.id) (room : length m.assets ≤ 1024)
    (pairs : Pairs (WiredAsset m.nodes) 0 m.assets m''.assets) where
  -- A wired asset keeps its id.
  wired_at :
      (j : ℕ) (a : EdgeAsset)
      → get_elem? m.assets j ≡ some a
      → (b : EdgeAsset) × (get_elem? m''.assets j ≡ some b) × (b.id ≡ a.id)
  wired_at j a e =
      let (b, at, r) = Pairs-get (WiredAsset m.nodes) 0 j m.assets m''.assets pairs e in
      (b, at, ap (λ (x : EdgeAsset). x.id) r.1)

  asset-Named :
      (i : ℕ) (a b : EdgeAsset) → ParentOk m i a → WiredAsset m.nodes i a b → AssetNamed m'' b
  unfolding parent_text
  asset-Named i a b (inl (top, named)) w =
      let parent = ap (λ (x : EdgeAsset). x.parent) w.1 in
      let parent_id = ap (λ (x : EdgeAsset). x.parent_id) w.1 in
      let none_there : b.parent ≡ none = ground (arith, parent, top) in
      inl (
        rw (none_there, parent_text) refl,
        elim named [ inl e ↦ inl (parent_id ∙ e) | inr e ↦ inr (parent_id ∙ e ∙ sym id) ],
      )
  asset-Named i a b (inr (p, at, named, lt)) w =
      let parent = ap (λ (x : EdgeAsset). x.parent) w.1 in
      let parent_id = ap (λ (x : EdgeAsset). x.parent_id) w.1 in
      let in_range = get_elem?-lt m.assets a.parent_index at in
      let (q, there, same) = wired_at a.parent_index p at in
      let points : b.parent ≡ some a.parent_index = ground (arith, parent, in_range, room) in
      inr (
        rw (points, there, parent_text)
          (ap (λ (x : Bytes). codes "asset:" ++ x) (same ∙ named ∙ sym parent_id)))

  assets-Named :
      (i : ℕ) (xs ys : List EdgeAsset)
      → AllFrom (ParentOk m) i xs
      → Pairs (WiredAsset m.nodes) i xs ys
      → All (AssetNamed m'') ys
  assets-Named i [] [] h p = tt
  assets-Named i [] (b ∷ ys) h p = absurd p
  assets-Named i (a ∷ xs) [] h p = absurd p
  assets-Named i (a ∷ xs) (b ∷ ys) h p =
      (asset-Named i a b h.0 p.0, assets-Named (i + 1) xs ys h.1 p.1)

  nodes-Named :
      (nodes : List EdgeNode) → All (NodeOk m) nodes → All (NodeNamed m'') (map pointed_node nodes)
  unfolding variable_call asset_of
  nodes-Named [] h = tt
  nodes-Named (n ∷ rest) h =
      let (a, at, named) = h.0 in
      let (b, there, same) = wired_at n.asset_index a at in
      (
        rw (there, variable_call, asset_of)
            (ap
              (λ (x : Bytes).
                ua_add_variable (node_key x n.id) (codes "asset:" ++ x) n.name n.writable)
              (same ∙ named)),
        nodes-Named rest h.1,
      )

-- A template that `edge_config_load` accepts, starting on a model that fits its arrays, is wired. A
-- load of the address space then makes the calls of the model in order, all of them where it
-- succeeds and else those up to some point: the namespace, the plant, every asset under the plant or
-- under the asset that the template names as its parent, and every node under the asset that the
-- template names. Each object but the plant, and each variable, comes behind the call that added its
-- parent, which the server took.
pub template-Placed :
    (env : Env) (strtod : Bytes → Parsed) (file : Option Bytes) (m m' : EdgeModel)
    → ModelFits m
    → edge_config_load strtod file m ≡ some (ok, m')
    → (m'' : EdgeModel) × (edge_config_wire_runtime m' ≡ some (ok, m''))
      × Sends (model_calls m'') [] (edge_address_space_load env m'' [])
      × All (AssetNamed m'') m''.assets
      × All (NodeNamed m'') m''.nodes
      × Placed env (edge_address_space_load env m'' []).1
template-Placed env strtod file m m' fits h =
    let resolved = load-IsResolved strtod file m m' h in
    let room = load-ModelFits strtod file m m' fits h in
    let (assets', wired, pairs) = wire-Wired m' resolved room in
    let m'' = record m' {
      assets = assets';
      nodes = map pointed_node m'.nodes;
      events = map pointed_event m'.events;
    } in
    let back =
      wired-PointsBack m' m'.nodes 0 m'.assets assets' room.asset_room resolved.parents pairs in
    let (sent, placed) = load-Placed env m'' [] back tt in
    (
      m'',
      wired,
      sent,
      assets-Named m' m'' refl room.asset_room pairs 0 m'.assets assets' resolved.parents pairs,
      nodes-Named m' m'' refl room.asset_room pairs m'.nodes resolved.node_assets,
      placed,
    )
