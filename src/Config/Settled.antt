-- ===== src/Config/Settled.antt =====
-- src/edge_config.c: the checks of duplicates, and the model that the resolving loops leave.
use opcua_edge.Config.Bounds.{ModelFits, AssetFits, NodeFits, EventFits}
use opcua_edge.Base.{
  length-map, ℕ, ◌+◌, ◌<◌, ◌≡◌, ◌≢◌, inl, inr, ap, true, false, List, [], ◌∷◌, arith, All, All-map,
  All-imp, Distinct, Distinct-map, AllFrom, Bool-cases, str_eq_iff, ◌==◌,
}
use opcua_edge.Types.{ok, EdgeNode, EdgeAsset, EdgeEvent, EdgeModel}
use opcua_edge.Config.Validate.{
  asset_incomplete, node_incomplete, event_incomplete, asset_clash, node_clash, first_of_id,
  find_event, validate_required_fields, validate_duplicates,
}
use opcua_edge.Config.Search.{none_of-ok, no_clash-Distinct}
use opcua_edge.Config.Resolve.{resolve_parents, resolve_nodes, resolve_events}
use opcua_edge.Config.Resolved.{
  with_parent, with_parents, with_asset, with_source, parents_resolved, nodes_resolved,
  events_resolved, resolve_nodes-map, resolve_events-map,
}
use opcua_edge.Config.Correct.{
  IsResolved, AssetComplete, NodeComplete, EventComplete, asset_complete, node_complete,
  event_complete, required-named, required-parts, duplicates-parts,
}

first_of_id-AllFrom :
    (m : EdgeModel) (i : ℕ) (events : List EdgeEvent)
    → first_of_id m i events ≡ ok
    → AllFrom (λ k e. find_event m e.id ≡ k) i events
unfolding first_of_id
first_of_id-AllFrom m i [] h = tt
first_of_id-AllFrom m i (e ∷ rest) h = elim (Bool-cases (find_event m e.id == i)) [
  | inl p ↦ (ground arith, first_of_id-AllFrom m (i + 1) rest (rw p at h))
  | inr p ↦ absurd (ground arith)
]

-- Events that are found at their own index have different ids.
module _ (m : EdgeModel) where
  other_ids :
      (e : EdgeEvent) (i j : ℕ) (rest : List EdgeEvent)
      → find_event m e.id ≡ i
      → i < j
      → AllFrom (λ k x. find_event m x.id ≡ k) j rest
      → All (λ x. e.id ≢ x.id) rest
  other_ids e i j [] h b f = tt
  other_ids e i j (x ∷ rest) h b f = (
    λ same. absurd (omega (arith, ap (find_event m) same)),
    other_ids e i (j + 1) rest h (omega arith) f.1,
  )

  first_of_id-Distinct :
      (i : ℕ) (events : List EdgeEvent)
      → AllFrom (λ k e. find_event m e.id ≡ k) i events
      → Distinct (λ a b. a.id ≡ b.id) events
  first_of_id-Distinct i [] f = tt
  first_of_id-Distinct i (e ∷ rest) f =
      (other_ids e i (i + 1) rest f.0 (omega arith) f.1, first_of_id-Distinct (i + 1) rest f.1)

asset_clash_same : (a b : EdgeAsset) → a.id ≡ b.id → asset_clash a b ≡ true
unfolding asset_clash
asset_clash_same a b e = (str_eq_iff a.id b.id).1 e

node_clash_same :
    (a b : EdgeNode) → (a.asset_id ≡ b.asset_id) × (a.id ≡ b.id) → node_clash a b ≡ true
unfolding node_clash
node_clash_same a b e = ground (arith, str_eq_iff a.asset_id b.asset_id, str_eq_iff a.id b.id)

module _ (m : EdgeModel) (required : validate_required_fields m ≡ ok)
    (unique : validate_duplicates m ≡ ok) (parents_ok : (resolve_parents m 0 m.assets).0 ≡ ok) where
  abbrev pub w : EdgeModel
  w = with_parents m

  abbrev pub p : EdgeModel
  p = record w { nodes = (resolve_nodes w w.nodes).1 }

  abbrev pub f : EdgeModel
  f = record p { events = (resolve_events p m.events).1 }

  pub settled-IsResolved :
      (resolve_nodes w w.nodes).0 ≡ ok → (resolve_events p m.events).0 ≡ ok → IsResolved f
  settled-IsResolved nodes_ok events_ok =
      let (ra, rn, re) = required-parts m required in
      let (da, dn, de) = duplicates-parts m unique in
      let nodes = resolve_nodes-map w w.nodes nodes_ok in
      let events = resolve_events-map p m.events events_ok in
      record {
        named = required-named m required;
        assets_complete = All-map AssetComplete (with_parent m) m.assets (
            All-imp (λ a. asset_incomplete a ≡ false) (λ a. AssetComplete (with_parent m a))
              m.assets asset_complete (none_of-ok asset_incomplete m.assets ra));
        nodes_complete = rw nodes (
            All-map NodeComplete (with_asset w) m.nodes (
              All-imp (λ a. node_incomplete a ≡ false) (λ a. NodeComplete (with_asset w a)) m.nodes
                node_complete (none_of-ok node_incomplete m.nodes rn)));
        events_complete = rw events (
            All-map EventComplete (with_source p) m.events (
              All-imp (λ a. event_incomplete a ≡ false) (λ a. EventComplete (with_source p a))
                m.events event_complete (none_of-ok event_incomplete m.events re)));
        assets_distinct =
            Distinct-map (λ a b. asset_clash a b ≡ true) (λ a b. a.id ≡ b.id) (with_parent m)
              m.assets asset_clash_same (no_clash-Distinct asset_clash m.assets da);
        nodes_distinct = rw nodes (
            Distinct-map (λ a b. node_clash a b ≡ true)
              (λ a b. (a.asset_id ≡ b.asset_id) × (a.id ≡ b.id)) (with_asset w) m.nodes
              node_clash_same (no_clash-Distinct node_clash m.nodes dn));
        events_distinct = rw events (
            Distinct-map (λ a b. a.id ≡ b.id) (λ a b. a.id ≡ b.id) (with_source p) m.events
              (λ a b e. e)
              (first_of_id-Distinct m 0 m.events (first_of_id-AllFrom m 0 m.events de)));
        parents = (parents_resolved m parents_ok).1;
        node_assets = nodes_resolved w w.nodes nodes_ok;
        event_sources = events_resolved p m.events events_ok;
      }

  -- Both loops passed, and `m'` is what they leave.
  abbrev pub Settles : EdgeModel → Type 0
  Settles m' = ((resolve_nodes w w.nodes).0 ≡ ok) × ((resolve_events p m.events).0 ≡ ok) × (m' ≡ f)

  pub settled-ModelFits :
      (resolve_nodes w w.nodes).0 ≡ ok
      → (resolve_events p m.events).0 ≡ ok
      → ModelFits m
      → ModelFits f
  settled-ModelFits nodes_ok events_ok fits =
      let nodes = resolve_nodes-map w w.nodes nodes_ok in
      let events = resolve_events-map p m.events events_ok in
      record {
        id_fits = fits.id_fits;
        name_fits = fits.name_fits;
        assets_fit = All-map AssetFits (with_parent m) m.assets fits.assets_fit;
        nodes_fit = rw nodes (All-map NodeFits (with_asset w) m.nodes fits.nodes_fit);
        events_fit = rw events (All-map EventFits (with_source p) m.events fits.events_fit);
        asset_room = rw (length-map (with_parent m) m.assets) fits.asset_room;
        node_room = rw (nodes, length-map (with_asset w) m.nodes) fits.node_room;
        event_room = rw (events, length-map (with_source p) m.events) fits.event_room;
      }
