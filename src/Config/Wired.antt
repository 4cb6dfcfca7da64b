-- ===== src/Config/Wired.antt =====
-- src/edge_config.c: wiring a model that `edge_config_load` accepts.
use opcua_edge.Base.{
  ℕ, zero, suc, ◌+◌, ◌≤◌, ◌<◌, ◌≡◌, refl, ◌∙◌, false, none, some, List, [], ◌∷◌, map, arith,
  if◌then◌else◌, ◌==◌, length, length-map, get_elem?, get_elem?-lt, get_elem?-some, set, length-set,
  All,
}
use opcua_edge.Types.{ok, EdgeNode, EdgeAsset, EdgeEvent, EdgeModel, edge_invalid_index}
use opcua_edge.Config.Wire.{
  wire_asset, count_node, wire_nodes, wire_events, edge_config_wire_runtime,
}
use opcua_edge.Config.Resolved.{NodeOk, EventOk}
use opcua_edge.Config.Correct.{IsResolved}
use opcua_edge.Config.Bounds.{ModelFits}

-- How many of the nodes lie in the asset at index `k`.
abbrev pub members : ℕ → List EdgeNode → ℕ
members k [] = 0
members k (n ∷ rest) = (if n.asset_index == k then 1 else 0) + members k rest

-- The node that points at its asset, and the event that points at its asset and source.
abbrev pub pointed_node : EdgeNode → EdgeNode
pointed_node n = record n { asset = some n.asset_index }

abbrev pub pointed_event : EdgeEvent → EdgeEvent
pointed_event e = record e { asset = some e.asset_index; source_node = some e.source_node_index }

-- An asset without the two fields that the loop over the nodes sets.
abbrev uncounted : EdgeAsset → EdgeAsset
uncounted a = record a { first_node_index = 0; node_count = 0 }

-- Each element of one list is related to the element of the other at its index, the first index
-- being given; the lists are of one length.
abbrev pub Pairs :
    (ℕ → EdgeAsset → EdgeAsset → Type 0) → ℕ → List EdgeAsset → List EdgeAsset → Type 0
Pairs R i [] [] = Unit
Pairs R i (a ∷ xs) (b ∷ ys) = R i a b × Pairs R (i + 1) xs ys
Pairs R i xs ys = ⊥

-- `b` is `a` with `count` more nodes at most counted.
abbrev Adds : ℕ → EdgeAsset → EdgeAsset → Type 0
Adds count a b = (b.node_count ≡ a.node_count + count) × (uncounted b ≡ uncounted a)

-- Each asset has counted its nodes, and nothing else of it has changed.
abbrev Counted : List EdgeNode → ℕ → EdgeAsset → EdgeAsset → Type 0
Counted nodes k a b = Adds (members k nodes) a b

abbrev One : ℕ → ℕ → EdgeAsset → EdgeAsset → Type 0
One index k a b = Adds (if index == k then 1 else 0) a b

Counted-none : (i : ℕ) (assets : List EdgeAsset) → Pairs (Counted []) i assets assets
Counted-none i [] = tt
Counted-none i (a ∷ rest) = ((omega arith, refl), Counted-none (i + 1) rest)

-- No asset behind the one counted.
One-behind : (index i : ℕ) (assets : List EdgeAsset) → index < i → Pairs (One index) i assets assets
One-behind index i [] h = tt
One-behind index i (a ∷ rest) h =
    ((ground arith, refl), One-behind index (i + 1) rest (omega arith))

One-set :
    (i index k j : ℕ) (assets : List EdgeAsset) (asset : EdgeAsset)
    → index ≡ k + j
    → get_elem? assets j ≡ some asset
    → Pairs (One index) k assets (set assets j (count_node i asset))
unfolding count_node
One-set i index k j [] asset e here = absurd (ground arith)
One-set i index k zero (a ∷ rest) asset e here =
    ((ground arith, ground arith), One-behind index (k + 1) rest (omega arith))
One-set i index k (suc j) (a ∷ rest) asset e here =
    ((ground arith, refl), One-set i index (k + 1) j rest asset (omega arith) here)

-- One node counted, then the rest.
Counted-cons :
    (n : EdgeNode) (rest : List EdgeNode) (k : ℕ) (xs ys zs : List EdgeAsset)
    → Pairs (One n.asset_index) k xs ys
    → Pairs (Counted rest) k ys zs
    → Pairs (Counted (n ∷ rest)) k xs zs
Counted-cons n rest k [] [] [] h l = tt
Counted-cons n rest k (a ∷ xs) (b ∷ ys) (c ∷ zs) h l =
    ((omega (arith, h.0.0, l.0.0), l.0.1 ∙ h.0.1), Counted-cons n rest (k + 1) xs ys zs h.1 l.1)
Counted-cons n rest k [] (b ∷ ys) zs h l = absurd h
Counted-cons n rest k (a ∷ xs) [] zs h l = absurd h
Counted-cons n rest k [] [] (c ∷ zs) h l = absurd l
Counted-cons n rest k (a ∷ xs) (b ∷ ys) [] h l = absurd l

wire_nodes-Counted :
    (i : ℕ) (nodes : List EdgeNode) (assets : List EdgeAsset)
    → length assets ≤ 1024
    → All (λ n. n.asset_index < length assets) nodes
    → (assets' : List EdgeAsset) × (wire_nodes i nodes assets
        ≡ some (ok, map pointed_node nodes, assets'))
      × Pairs (Counted nodes) 0 assets assets'
unfolding wire_nodes
wire_nodes-Counted i [] assets room h = (assets, refl, Counted-none 0 assets)
wire_nodes-Counted i (n ∷ rest) assets room h =
    let (asset, here) = get_elem?-some assets n.asset_index h.0 in
    let counted = set assets n.asset_index (count_node i asset) in
    let same = length-set assets n.asset_index (count_node i asset) in
    let (assets', done, each) =
      wire_nodes-Counted (i + 1) rest counted (omega (arith, same)) (rw same h.1) in
    let valid : (n.asset_index == edge_invalid_index) ≡ false = ground arith in
    (
      assets',
      rw (valid, here, done) refl,
      Counted-cons n rest 0 assets counted assets'
          (One-set i n.asset_index 0 n.asset_index assets asset (omega arith) here) each,
    )

in_range :
    (m : EdgeModel) (nodes : List EdgeNode)
    → All (NodeOk m) nodes
    → All (λ n. n.asset_index < length m.assets) nodes
in_range m [] h = tt
in_range m (n ∷ rest) h = (get_elem?-lt m.assets n.asset_index h.0.1, in_range m rest h.1)

wire_events-All :
    (m : EdgeModel) (events : List EdgeEvent)
    → length m.assets ≤ 1024
    → length m.nodes ≤ 65536
    → All (EventOk m) events
    → wire_events events ≡ (ok, map pointed_event events)
unfolding wire_events
wire_events-All m [] a n h = refl
wire_events-All m (e ∷ rest) a n h =
    let (asset, node, at, _, source, _, _) = h.0 in
    let p = get_elem?-lt m.assets e.asset_index at in
    let q = get_elem?-lt m.nodes e.source_node_index source in
    ground (arith, p, q, wire_events-All m rest a n h.1)

-- A wired asset: it points at its parent and has counted its nodes, and nothing else but
-- `first_node_index` differs from the asset loaded.
abbrev pub WiredAsset : List EdgeNode → ℕ → EdgeAsset → EdgeAsset → Type 0
WiredAsset nodes k a b =
    (b.node_count ≡ members k nodes)
    × (uncounted b
        ≡ uncounted (record a {
          parent = if a.parent_index == edge_invalid_index then none else some a.parent_index;
        }))

Counted-wired :
    (nodes : List EdgeNode) (k : ℕ) (xs ys : List EdgeAsset)
    → Pairs (Counted nodes) k (map wire_asset xs) ys
    → Pairs (WiredAsset nodes) k xs ys
unfolding wire_asset
Counted-wired nodes k [] [] h = tt
Counted-wired nodes k [] (b ∷ ys) h = absurd h
Counted-wired nodes k (a ∷ xs) [] h = absurd h
Counted-wired nodes k (a ∷ xs) (b ∷ ys) h =
    ((omega (arith, h.0.0), h.0.1), Counted-wired nodes (k + 1) xs ys h.1)

-- Wiring succeeds on every model that is resolved and fits its arrays: each node and event points
-- at what its indices name, each asset points at its parent (the plant's are null) and its
-- `node_count` is the number of nodes with its index; only `first_node_index` changes besides.
pub wire-Wired :
    (m : EdgeModel)
    → IsResolved m
    → ModelFits m
    → (assets' : List EdgeAsset) × (edge_config_wire_runtime m
        ≡ some (
          ok,
          record m {
            assets = assets';
            nodes = map pointed_node m.nodes;
            events = map pointed_event m.events;
          },
        ))
      × Pairs (WiredAsset m.nodes) 0 m.assets assets'
unfolding edge_config_wire_runtime
wire-Wired m h fits =
    let same = length-map wire_asset m.assets in
    let (assets', done, each) =
      wire_nodes-Counted 0 m.nodes (map wire_asset m.assets) (omega (arith, same, fits.asset_room))
        (rw same (in_range m m.nodes h.node_assets)) in
    let events = wire_events-All m m.events fits.asset_room fits.node_room h.event_sources in
    (
      assets',
      rw (done, events, edge_config_wire_runtime) refl,
      Counted-wired m.nodes 0 m.assets assets' each,
    )
