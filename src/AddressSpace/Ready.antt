-- ===== src/AddressSpace/Ready.antt =====
-- src/edge_config.c and src/edge_address_space.c: a model that was loaded and wired is ready to be
-- stored and exposed.
use opcua_edge.Base.{
  ℕ, suc, ◌+◌, ◌<◌, ◌≡◌, inl, inr, refl, ap, none, some, List, [], ◌∷◌, map, arith, length,
  length-map, get_elem?, get_elem?-lt, All, All-get, All-map, AllFrom, zero, ◌==◌, if◌then◌else◌,
  subst,
}
use opcua_edge.Types.{EdgeNode, EdgeAsset, EdgeModel, edge_invalid_index}
use opcua_edge.Config.Resolved.{ParentOk, NodeOk}
use opcua_edge.Config.Correct.{IsResolved}
use opcua_edge.Config.Bounds.{AssetFits, NodeFits, EventFits, ModelFits}
use opcua_edge.Config.Wired.{Pairs, WiredAsset, pointed_node, pointed_event}
use opcua_edge.AddressSpace.Success.{ParentFits, AssetLoads, NodeLoads, Loadable}

-- The element at an index of the one list has its partner at that index of the other.
Pairs-get :
    (R : ℕ → EdgeAsset → EdgeAsset → Type 0) (i : ℕ) (xs ys : List EdgeAsset) (k : ℕ)
    {a : EdgeAsset}
    → Pairs R i xs ys
    → get_elem? xs k ≡ some a
    → (j : ℕ) × (b : EdgeAsset) × (get_elem? ys k ≡ some b) × R j a b
Pairs-get R i [] ys k h e = absurd (ground arith)
Pairs-get R i (a ∷ xs) [] k h e = absurd h
Pairs-get R i (a ∷ xs) (b ∷ ys) zero h e = (i, b, refl, subst (λ x. R i x b) (ground arith) h.0)
Pairs-get R i (a ∷ xs) (b ∷ ys) (suc k) h e = Pairs-get R (i + 1) xs ys k h.1 e

Pairs-length :
    (R : ℕ → EdgeAsset → EdgeAsset → Type 0) (i : ℕ) (xs ys : List EdgeAsset)
    → Pairs R i xs ys
    → length ys ≡ length xs
Pairs-length R i [] [] h = refl
Pairs-length R i [] (b ∷ ys) h = absurd h
Pairs-length R i (a ∷ xs) [] h = absurd h
Pairs-length R i (a ∷ xs) (b ∷ ys) h = omega (arith, Pairs-length R (i + 1) xs ys h.1)

-- What wiring gives for a model that fits.
module _ (m : EdgeModel) (fits : ModelFits m) (assets : List EdgeAsset)
    (pairs : Pairs (WiredAsset m.nodes) 0 m.assets assets) where
  -- The wired asset at an index has an id that fits.
  wired_at :
      (k : ℕ) {a : EdgeAsset}
      → get_elem? m.assets k ≡ some a
      → (b : EdgeAsset) × (get_elem? assets k ≡ some b) × (length b.id < 64)
  wired_at k {a} e =
      let (j, b, g, w) = Pairs-get (WiredAsset m.nodes) 0 m.assets assets k pairs e in
      let same : b.id ≡ a.id = ap (λ (x : EdgeAsset). x.id) w.1 in
      let small = All-get AssetFits m.assets k fits.assets_fit e in (b, g, rw same small.0)

  parent_fits :
      (i : ℕ) (a b : EdgeAsset)
      → ParentOk m i a
      → b.parent ≡ (if a.parent_index == edge_invalid_index then none else some a.parent_index)
      → ParentFits assets b
  parent_fits i a b (inl (top, _)) e = inl (ground arith)
  parent_fits i a b (inr (p, g, _, _)) e =
      let in_range = get_elem?-lt m.assets a.parent_index g in
      let room = fits.asset_room in
      let (q, at, small) = wired_at a.parent_index g in
      inr (a.parent_index, q, ground arith, at, small)

  assets_ready :
      (i : ℕ) (xs ys : List EdgeAsset)
      → All AssetFits xs
      → AllFrom (ParentOk m) i xs
      → Pairs (WiredAsset m.nodes) i xs ys
      → All (AssetLoads assets) ys
  assets_ready i [] [] f h p = tt
  assets_ready i [] (b ∷ ys) f h p = absurd p
  assets_ready i (a ∷ xs) [] f h p = tt
  assets_ready i (a ∷ xs) (b ∷ ys) f h p =
      let same : b.id ≡ a.id = ap (λ (x : EdgeAsset). x.id) p.0.1 in
      let points = ap (λ (x : EdgeAsset). x.parent) p.0.1 in
      ((rw same f.0.0, parent_fits i a b h.0 points), assets_ready (i + 1) xs ys f.1 h.1 p.1)

  assets_fit :
      (i : ℕ) (xs ys : List EdgeAsset)
      → All AssetFits xs
      → Pairs (WiredAsset m.nodes) i xs ys
      → All AssetFits ys
  assets_fit i [] [] f p = tt
  assets_fit i [] (b ∷ ys) f p = absurd p
  assets_fit i (a ∷ xs) [] f p = tt
  assets_fit i (a ∷ xs) (b ∷ ys) f p =
      let id : b.id ≡ a.id = ap (λ (x : EdgeAsset). x.id) p.0.1 in
      let type : b.type ≡ a.type = ap (λ (x : EdgeAsset). x.type) p.0.1 in
      let name : b.name ≡ a.name = ap (λ (x : EdgeAsset). x.name) p.0.1 in
      let parent : b.parent_id ≡ a.parent_id = ap (λ (x : EdgeAsset). x.parent_id) p.0.1 in
      (
        (rw id f.0.0, rw type f.0.1, rw name f.0.2, rw parent f.0.3),
        assets_fit (i + 1) xs ys f.1 p.1,
      )

  nodes_ready :
      (nodes : List EdgeNode)
      → All NodeFits nodes
      → All (NodeOk m) nodes
      → All (NodeLoads assets) (map pointed_node nodes)
  nodes_ready [] f h = tt
  nodes_ready (n ∷ rest) f h =
      let (a, g, _) = h.0 in
      let (b, at, small) = wired_at n.asset_index g in
      ((f.0.0, (n.asset_index, b, refl, at, small)), nodes_ready rest f.1 h.1)

  abbrev pub wired_model : EdgeModel
  wired_model = record m {
    assets = assets;
    nodes = map pointed_node m.nodes;
    events = map pointed_event m.events;
  }

  pub wired-Loadable : IsResolved m → Loadable wired_model
  wired-Loadable h = record {
    plant_id = fits.id_fits;
    assets_load = assets_ready 0 m.assets assets fits.assets_fit h.parents pairs;
    nodes_load = nodes_ready m.nodes fits.nodes_fit h.node_assets;
  }

  pub wired-ModelFits : ModelFits wired_model
  wired-ModelFits = record {
    id_fits = fits.id_fits;
    name_fits = fits.name_fits;
    assets_fit = assets_fit 0 m.assets assets fits.assets_fit pairs;
    nodes_fit = All-map NodeFits pointed_node m.nodes fits.nodes_fit;
    events_fit = All-map EventFits pointed_event m.events fits.events_fit;
    asset_room =
        omega (arith, fits.asset_room, Pairs-length (WiredAsset m.nodes) 0 m.assets assets pairs);
    node_room = omega (arith, fits.node_room, length-map pointed_node m.nodes);
    event_room = omega (arith, fits.event_room, length-map pointed_event m.events);
  }
