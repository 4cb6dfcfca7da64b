-- ===== src/Config/Resolved.antt =====
-- src/edge_config.c: what a model that passed `validate_and_resolve_references` satisfies.
use opcua_edge.Base.{
  ℕ, ◌+◌, ◌<◌, ◌≡◌, ◌≢◌, ◌⊎◌, inl, inr, refl, ap, ◌∙◌, true, some, List, [], ◌∷◌, map, arith,
  get_elem?, All, AllFrom, AllFrom-map, AllFrom-imp, is_empty→nil, get_elem?-map, Bool-cases, Bytes,
  is_empty, str_eq, str_eq_iff, ◌==◌,
}
use opcua_edge.Types.{EdgeStatus, ok, EdgeNode, EdgeAsset, EdgeEvent, EdgeModel, edge_invalid_index}
use opcua_edge.Config.Validate.{find_asset_from, find_asset, find_node_from, find_node_for_asset}
use opcua_edge.Config.Search.{Searched, find_asset-Searched, find_node-Searched, IsNodeOf}
use opcua_edge.Config.Resolve.{
  cons_to, parent_of, parent_accepted, resolve_parents, resolve_nodes, resolve_events,
}

-- The asset at index `i` hangs under the plant, or under an asset that stands before it.
abbrev pub ParentOk : EdgeModel → ℕ → EdgeAsset → Type 0
ParentOk m i a =
    ((a.parent_index ≡ edge_invalid_index) × ((a.parent_id ≡ []) ⊎ (a.parent_id ≡ m.id)))
    ⊎ ((p : EdgeAsset) × (get_elem? m.assets a.parent_index ≡ some p)
        × (p.id ≡ a.parent_id)
        × (a.parent_index < i))

abbrev pub NodeOk : EdgeModel → EdgeNode → Type 0
NodeOk m n = (a : EdgeAsset) × (get_elem? m.assets n.asset_index ≡ some a) × (a.id ≡ n.asset_id)

abbrev pub EventOk : EdgeModel → EdgeEvent → Type 0
EventOk m e =
    (a : EdgeAsset) × (n : EdgeNode) × (get_elem? m.assets e.asset_index ≡ some a)
    × (a.id ≡ e.asset_id)
    × (get_elem? m.nodes e.source_node_index ≡ some n)
    × (n.id ≡ e.source_node_id)
    × (n.asset_index ≡ e.asset_index)

-- The search by id, with a failure told by the index UINT32_MAX alone.
find_asset_lem :
    (m : EdgeModel) (id : Bytes)
    → find_asset m id ≢ edge_invalid_index
    → (a : EdgeAsset) × (get_elem? m.assets (find_asset m id) ≡ some a) × (a.id ≡ id)
unfolding find_asset
find_asset_lem m id h = go (find_asset-Searched 0 m.assets id)
  where
    go :
        Searched (λ a. a.id ≡ id) 0 m.assets (find_asset_from 0 m.assets id)
        → (a : EdgeAsset) × (get_elem? m.assets (find_asset_from 0 m.assets id) ≡ some a)
          × (a.id ≡ id)
    go (inl (e, none_fits)) = absurd (h e)
    go (inr (k, a, e, g, p)) =
        let at : find_asset_from 0 m.assets id ≡ k = omega arith in (a, rw at g, p)

find_node_lem :
    (m : EdgeModel) (index : ℕ) (id : Bytes)
    → find_node_for_asset m index id ≢ edge_invalid_index
    → (n : EdgeNode) × (get_elem? m.nodes (find_node_for_asset m index id) ≡ some n)
      × IsNodeOf index id n
unfolding find_node_for_asset
find_node_lem m index id h = go (find_node-Searched 0 m.nodes index id)
  where
    go :
        Searched (IsNodeOf index id) 0 m.nodes (find_node_from 0 m.nodes index id)
        → (n : EdgeNode) × (get_elem? m.nodes (find_node_from 0 m.nodes index id) ≡ some n)
          × IsNodeOf index id n
    go (inl (e, none_fits)) = absurd (h e)
    go (inr (k, n, e, g, p)) =
        let at : find_node_from 0 m.nodes index id ≡ k = omega arith in (n, rw at g, p)

abbrev pub with_parent : EdgeModel → EdgeAsset → EdgeAsset
with_parent m a = record a { parent_index = parent_of m a }

cons_to-ok {ℓ} :
    {A : Type ℓ} (a : A) (r : EdgeStatus × List A)
    → (cons_to a r).0 ≡ ok
    → (r.0 ≡ ok) × ((cons_to a r).1 ≡ a ∷ r.1)
cons_to-ok a (s, l) h = (h, refl)

-- A pass of the first loop that succeeds has resolved every asset, each by an accepted index.
pub resolve_parents-ok :
    (m : EdgeModel) (i : ℕ) (assets : List EdgeAsset)
    → (resolve_parents m i assets).0 ≡ ok
    → ((resolve_parents m i assets).1 ≡ map (with_parent m) assets)
      × AllFrom (λ k a. parent_accepted m k a ≡ true) i assets
unfolding resolve_parents
resolve_parents-ok m i [] h = (refl, tt)
resolve_parents-ok m i (a ∷ rest) h = elim (Bool-cases (parent_accepted m i a)) [
  | inl e ↦
      let (first, list) =
        cons_to-ok (with_parent m a) (resolve_parents m (i + 1) rest) (rw e at h) in
      let (later, accepted) = resolve_parents-ok m (i + 1) rest first in
      (rw e (list ∙ ap (◌∷◌ (with_parent m a)) later), (e, accepted))
  | inr e ↦ absurd (ground arith)
]

accepted-ParentOk :
    (m : EdgeModel) (i : ℕ) (a : EdgeAsset)
    → parent_accepted m i a ≡ true
    → ((parent_of m a ≡ edge_invalid_index) × ((a.parent_id ≡ []) ⊎ (a.parent_id ≡ m.id)))
      ⊎ ((parent_of m a ≡ find_asset m a.parent_id)
          × (find_asset m a.parent_id ≢ edge_invalid_index)
          × (find_asset m a.parent_id < i))
unfolding parent_accepted parent_of
accepted-ParentOk m i a h = elim (Bool-cases (is_empty a.parent_id)) [
  | inl e ↦ inl (ground arith, inl (is_empty→nil a.parent_id e))
  | inr e ↦ elim (Bool-cases (str_eq a.parent_id m.id)) [
    | inl s ↦ inl (ground arith, inr ((str_eq_iff a.parent_id m.id).0 s))
    | inr s ↦ inr (ground arith, λ q. ground arith, ground arith)
  ]
]

abbrev pub with_parents : EdgeModel → EdgeModel
with_parents m = record m { assets = map (with_parent m) m.assets }

accepted_resolves :
    (m : EdgeModel) (i : ℕ) (a : EdgeAsset)
    → parent_accepted m i a ≡ true
    → ParentOk (with_parents m) i (with_parent m a)
accepted_resolves m i a h = go (accepted-ParentOk m i a h)
  where
    go :
        ((parent_of m a ≡ edge_invalid_index) × ((a.parent_id ≡ []) ⊎ (a.parent_id ≡ m.id)))
          ⊎ ((parent_of m a ≡ find_asset m a.parent_id)
              × (find_asset m a.parent_id ≢ edge_invalid_index)
              × (find_asset m a.parent_id < i))
        → ParentOk (with_parents m) i (with_parent m a)
    go (inl top) = inl top
    go (inr (same, found, before)) =
        let (p, g, named) = find_asset_lem m a.parent_id found in
        inr (
          with_parent m p,
          rw same (get_elem?-map (with_parent m) m.assets (find_asset m a.parent_id) g),
          named,
          omega arith,
        )

-- The first loop succeeds only on assets whose parents stand before them.
pub parents_resolved :
    (m : EdgeModel)
    → (resolve_parents m 0 m.assets).0 ≡ ok
    → ((resolve_parents m 0 m.assets).1 ≡ (with_parents m).assets)
      × AllFrom (ParentOk (with_parents m)) 0 (with_parents m).assets
parents_resolved m h =
    let (list, accepted) = resolve_parents-ok m 0 m.assets h in
    (
      list,
      AllFrom-map (ParentOk (with_parents m)) (with_parent m) 0 m.assets (
          AllFrom-imp (λ k a. parent_accepted m k a ≡ true)
            (λ k a. ParentOk (with_parents m) k (with_parent m a)) 0 m.assets (accepted_resolves m)
            accepted),
    )

abbrev pub with_asset : EdgeModel → EdgeNode → EdgeNode
with_asset m n = record n { asset_index = find_asset m n.asset_id }

-- The node loop resolves every node, or fails.
pub nodes_resolved :
    (m : EdgeModel) (nodes : List EdgeNode)
    → (resolve_nodes m nodes).0 ≡ ok
    → All (NodeOk m) (resolve_nodes m nodes).1
unfolding resolve_nodes
nodes_resolved m [] h = tt
nodes_resolved m (n ∷ rest) h = elim (Bool-cases (find_asset m n.asset_id == edge_invalid_index)) [
  | inl e ↦ absurd (ground arith)
  | inr e ↦
      let (first, list) = cons_to-ok (with_asset m n) (resolve_nodes m rest) (rw e at h) in
      rw e (find_asset_lem m n.asset_id (ground arith), nodes_resolved m rest first)
]

abbrev pub with_source : EdgeModel → EdgeEvent → EdgeEvent
with_source m e = record e {
  asset_index = find_asset m e.asset_id;
  source_node_index = find_node_for_asset m (find_asset m e.asset_id) e.source_node_id;
}

-- So does the event loop.
pub events_resolved :
    (m : EdgeModel) (events : List EdgeEvent)
    → (resolve_events m events).0 ≡ ok
    → All (EventOk m) (resolve_events m events).1
unfolding resolve_events
events_resolved m [] h = tt
events_resolved m (e ∷ rest) h =
    let index = find_asset m e.asset_id in
    let source = find_node_for_asset m index e.source_node_id in
    elim (Bool-cases (index == edge_invalid_index)) [
      | inl p ↦ absurd (ground arith)
      | inr p ↦ elim (Bool-cases (source == edge_invalid_index)) [
        | inl q ↦ absurd (ground arith)
        | inr q ↦
            let (first, list) =
              cons_to-ok (with_source m e) (resolve_events m rest) (rw (p, q) at h) in
            let (a, ga, na) = find_asset_lem m e.asset_id (ground arith) in
            let (n, gn, member) = find_node_lem m index e.source_node_id (ground arith) in
            rw (p, q) ((a, n, ga, na, gn, member.1, member.0), events_resolved m rest first)
      ]
    ]

-- What the loops leave in the arrays when they succeed.
pub resolve_nodes-map :
    (m : EdgeModel) (nodes : List EdgeNode)
    → (resolve_nodes m nodes).0 ≡ ok
    → (resolve_nodes m nodes).1 ≡ map (with_asset m) nodes
unfolding resolve_nodes
resolve_nodes-map m [] h = refl
resolve_nodes-map m (n ∷ rest) h =
    elim (Bool-cases (find_asset m n.asset_id == edge_invalid_index)) [
      | inl e ↦ absurd (ground arith)
      | inr e ↦
          let (first, list) = cons_to-ok (with_asset m n) (resolve_nodes m rest) (rw e at h) in
          rw e (ap (◌∷◌ (with_asset m n)) (resolve_nodes-map m rest first))
    ]

pub resolve_events-map :
    (m : EdgeModel) (events : List EdgeEvent)
    → (resolve_events m events).0 ≡ ok
    → (resolve_events m events).1 ≡ map (with_source m) events
unfolding resolve_events
resolve_events-map m [] h = refl
resolve_events-map m (e ∷ rest) h =
    let index = find_asset m e.asset_id in
    let source = find_node_for_asset m index e.source_node_id in
    elim (Bool-cases (index == edge_invalid_index)) [
      | inl p ↦ absurd (ground arith)
      | inr p ↦ elim (Bool-cases (source == edge_invalid_index)) [
        | inl q ↦ absurd (ground arith)
        | inr q ↦
            let (first, list) =
              cons_to-ok (with_source m e) (resolve_events m rest) (rw (p, q) at h) in
            rw (p, q) (ap (◌∷◌ (with_source m e)) (resolve_events-map m rest first))
      ]
    ]
