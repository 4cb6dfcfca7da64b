-- ===== src/Config/Accept.antt =====
-- src/edge_config.c: a resolved model, written out, is loaded again.
use opcua_edge.Base.{
  ℕ, suc, ◌+◌, ◌≤◌, ◌≡◌, ◌≢◌, inl, inr, refl, sym, ap, ◌∙◌, true, some, List, [], ◌∷◌, map, arith,
  length, length-append, get_elem?, get_elem?-lt, get_elem?-map, All, All-get, All-map, AllFrom,
  Distinct, Distinct-map, Bytes, str_eq_iff,
}
use opcua_edge.Types.{ok, EdgeNode, EdgeAsset, EdgeEvent, EdgeModel}
use opcua_edge.Config.Fields.{Parsed}
use opcua_edge.Config.Loader.{empty_model}
use opcua_edge.Config.Validate.{
  find_asset, find_event, find_node_for_asset, asset_clash, node_clash, first_of_id,
  validate_duplicates,
}
use opcua_edge.Config.Resolve.{
  parent_of, parent_accepted, resolve_parents, resolve_nodes, resolve_events, resolve_members,
  resolve_after_parents, validate_and_resolve_references, validate, edge_config_load,
}
use opcua_edge.Config.Resolved.{ParentOk, NodeOk, EventOk}
use opcua_edge.Config.Cycles.{no_cycles}
use opcua_edge.Config.Correct.{AssetComplete, NodeComplete, EventComplete, IsResolved}
use opcua_edge.Config.Complete.{
  full-is_empty, no_clash-Distinct, required-ok, find_asset-get, find_event-get, find_node-get,
}
use opcua_edge.Config.Print.{file_of}
use opcua_edge.Config.Print.Assets.{written_asset}
use opcua_edge.Config.Print.Nodes.{written_node}
use opcua_edge.Config.Print.Events.{written_event}
use opcua_edge.Config.Print.Template.{template_lines, written, Writable, load_lines-template}

-- The model has no pointers, counts, values and latches yet: but for its indices, it is as written.
pub record Unwired (m : EdgeModel) : Type 0 where
  pub assets_bare :
      All (λ a. record (written_asset a) { parent_index = a.parent_index } ≡ a) m.assets
  pub nodes_bare : All (λ n. record (written_node n) { asset_index = n.asset_index } ≡ n) m.nodes
  pub events_bare :
      All
        (λ e.
          record (written_event e) {
            asset_index = e.asset_index;
            source_node_index = e.source_node_index;
          }
          ≡ e)
        m.events

-- A file has a byte for each of its lines.
file_of-longer : (lines : List Bytes) → length lines ≤ length (file_of lines)
file_of-longer [] = omega arith
file_of-longer (line ∷ lines) =
    omega (arith, length-append line (10 ∷ file_of lines), file_of-longer lines)

module _ (m : EdgeModel) (resolved : IsResolved m) (bare : Unwired m)
    (asset_room : length m.assets ≤ 1024) (node_room : length m.nodes ≤ 65536)
    (apart : All (λ a. a.id ≢ m.id) m.assets) where
  ids-Distinct : Distinct (λ x y. x.id ≡ y.id) (map written_asset m.assets)
  ids-Distinct =
      Distinct-map (λ x y. x.id ≡ y.id) (λ x y. x.id ≡ y.id) written_asset m.assets (λ x y e. e)
        resolved.assets_distinct

  -- The index of a parent is found again by its id.
  parent_found :
      (i : ℕ) (a : EdgeAsset)
      → ParentOk m i a
      → (parent_of (written m) (written_asset a) ≡ a.parent_index)
        × (parent_accepted (written m) i (written_asset a) ≡ true)
  unfolding parent_of parent_accepted find_asset
  parent_found i a (inl (top, inl none_given)) = ground (arith, top, none_given)
  parent_found i a (inl (top, inr plant)) = ground (arith, top, plant, str_eq_iff m.id m.id)
  parent_found i a (inr (p, g, named, before)) =
      let found =
        find_asset-get 0 (map written_asset m.assets) a.parent_index ids-Distinct
          (get_elem?-map written_asset m.assets a.parent_index g) in
      let complete = All-get AssetComplete m.assets a.parent_index resolved.assets_complete g in
      let other = All-get (λ (x : EdgeAsset). x.id ≢ m.id) m.assets a.parent_index apart g in
      let full = full-is_empty p.id complete.0 in
      let there = get_elem?-lt m.assets a.parent_index g in
      ground (arith, sym named, found, full, other, str_eq_iff p.id m.id, there)

  parents_accepted :
      (i : ℕ) (xs : List EdgeAsset)
      → All (λ a. record (written_asset a) { parent_index = a.parent_index } ≡ a) xs
      → AllFrom (ParentOk m) i xs
      → resolve_parents (written m) i (map written_asset xs) ≡ (ok, xs)
  unfolding resolve_parents
  parents_accepted i [] b h = refl
  parents_accepted i (a ∷ xs) b h =
      let (index, accepted) = parent_found i a h.0 in
      let later = parents_accepted (i + 1) xs b.1 h.1 in ground (arith, index, accepted, later, b.0)

  first_of_id-ok :
      (i : ℕ) (rest : List EdgeEvent)
      → ((k : ℕ) (x : EdgeEvent) → get_elem? rest k ≡ some x → find_event (written m) x.id ≡ i + k)
      → first_of_id (written m) i rest ≡ ok
  unfolding first_of_id
  first_of_id-ok i [] h = refl
  first_of_id-ok i (e ∷ rest) h =
      ground (arith, h 0 e refl, first_of_id-ok (i + 1) rest (λ k x g. h (suc k) x g ∙ omega arith))

  duplicates-ok : validate_duplicates (written m) ≡ ok
  unfolding validate_duplicates asset_clash node_clash find_event
  duplicates-ok =
      let assets = no_clash-Distinct asset_clash (map written_asset m.assets) (
        Distinct-map (λ x y. x.id ≡ y.id) (λ x y. asset_clash x y ≡ true) written_asset m.assets
          (λ x y e. ground (arith, e, str_eq_iff x.id y.id)) resolved.assets_distinct) in
      let nodes = no_clash-Distinct node_clash (map written_node m.nodes) (
        Distinct-map (λ x y. (x.asset_id ≡ y.asset_id) × (x.id ≡ y.id))
          (λ x y. node_clash x y ≡ true) written_node m.nodes
          (λ x y e. ground (arith, e, str_eq_iff x.asset_id y.asset_id, str_eq_iff x.id y.id))
          resolved.nodes_distinct) in
      let events = first_of_id-ok 0 (map written_event m.events) (λ k x g.
        find_event-get 0 (map written_event m.events) k
          (Distinct-map (λ x y. x.id ≡ y.id) (λ x y. x.id ≡ y.id) written_event m.events
            (λ x y e. e) resolved.events_distinct)
          g) in
      ground (arith, assets, nodes, events)

  -- The model with its parents resolved.
  abbrev with_parents : EdgeModel
  with_parents = record (written m) { assets = m.assets }

  nodes_accepted :
      (xs : List EdgeNode)
      → All (λ n. record (written_node n) { asset_index = n.asset_index } ≡ n) xs
      → All (NodeOk m) xs
      → resolve_nodes with_parents (map written_node xs) ≡ (ok, xs)
  unfolding resolve_nodes find_asset
  nodes_accepted [] b h = refl
  nodes_accepted (n ∷ xs) b h =
      let (a, g, named) = h.0 in
      let found = find_asset-get 0 m.assets n.asset_index resolved.assets_distinct g in
      let there = get_elem?-lt m.assets n.asset_index g in
      ground (arith, sym named, found, there, nodes_accepted xs b.1 h.1, b.0)

  same_asset :
      (x y : EdgeNode)
      → NodeOk m x
      → NodeOk m y
      → x.asset_index ≡ y.asset_index
      → x.asset_id ≡ y.asset_id
  same_asset x y (a, g, e) (b, g', e') index =
      let one : some a ≡ some b = sym g ∙ ap (get_elem? m.assets) index ∙ g' in
      ground (arith, one, e, e')

  -- Nodes of one asset index have one asset id.
  indices-Distinct :
      (xs : List EdgeNode)
      → All (NodeOk m) xs
      → Distinct (λ x y. (x.asset_id ≡ y.asset_id) × (x.id ≡ y.id)) xs
      → Distinct (λ x y. (x.asset_index ≡ y.asset_index) × (x.id ≡ y.id)) xs
  indices-Distinct [] h d = tt
  indices-Distinct (x ∷ xs) h d = (others xs h.1 d.0, indices-Distinct xs h.1 d.1)
    where
      others :
          (ys : List EdgeNode)
          → All (NodeOk m) ys
          → All (λ y. ¬ ((x.asset_id ≡ y.asset_id) × (x.id ≡ y.id))) ys
          → All (λ y. ¬ ((x.asset_index ≡ y.asset_index) × (x.id ≡ y.id))) ys
      others [] k n = tt
      others (y ∷ ys) k n =
          (λ (index, id). n.0 (same_asset x y h.0 k.0 index, id), others ys k.1 n.1)

  placed : EdgeModel
  placed = record with_parents { nodes = m.nodes }

  events_accepted :
      (xs : List EdgeEvent)
      → All
          (λ e.
            record (written_event e) {
              asset_index = e.asset_index;
              source_node_index = e.source_node_index;
            }
            ≡ e)
          xs
      → All (EventOk m) xs
      → resolve_events placed (map written_event xs) ≡ (ok, xs)
  unfolding resolve_events find_asset find_node_for_asset placed
  events_accepted [] b h = refl
  events_accepted (e ∷ xs) b h =
      let (a, n, g, named, source, called, index) = h.0 in
      let found = find_asset-get 0 m.assets e.asset_index resolved.assets_distinct g in
      let there = get_elem?-lt m.assets e.asset_index g in
      let found' =
        find_node-get 0 m.nodes e.source_node_index
          (indices-Distinct m.nodes resolved.node_assets resolved.nodes_distinct) source in
      let there' = get_elem?-lt m.nodes e.source_node_index source in
      ground (
        arith,
        sym named,
        found,
        there,
        sym called,
        sym index,
        found',
        there',
        events_accepted xs b.1 h.1,
        b.0,
      )

  pub validate-written : validate (written m) ≡ some (ok, m)
  unfolding validate validate_and_resolve_references resolve_after_parents resolve_members placed
  validate-written =
      let required =
        required-ok (written m) resolved.named.0 resolved.named.1
          (All-map AssetComplete written_asset m.assets resolved.assets_complete)
          (All-map NodeComplete written_node m.nodes resolved.nodes_complete)
          (All-map EventComplete written_event m.events resolved.events_complete) in
      let parents = parents_accepted 0 m.assets bare.assets_bare resolved.parents in
      let cycles = no_cycles m resolved.parents in
      let nodes = nodes_accepted m.nodes bare.nodes_bare resolved.node_assets in
      let events = events_accepted m.events bare.events_bare resolved.event_sources in
      ground (arith, required, duplicates-ok, parents, cycles, nodes, events)

-- Every resolved model is loaded from a template: written out, one field on a line, `edge_config_load`
-- accepts it and gives back that model, every index included. The model must have no pointers, counts,
-- values and latches set yet; its texts must be plain, not empty and short enough for their fields, its
-- numbers in range and its arrays within their limits; no asset may have the plant's id; and `strtod`
-- must read back how its doubles are written.
pub load-written :
    (strtod : Bytes → Parsed) (print : ℕ → Bytes) (m : EdgeModel)
    → IsResolved m
    → Unwired m
    → All (λ a. a.id ≢ m.id) m.assets
    → Writable strtod print m
    → edge_config_load strtod (some (file_of (template_lines print m))) empty_model ≡ some (ok, m)
unfolding edge_config_load
load-written strtod print m resolved bare apart w =
    let file = file_of (template_lines print m) in
    let (l, loaded, same) =
      load_lines-template strtod print m (length file + 1) w
        (omega (arith, file_of-longer (template_lines print m))) in
    let accepted =
      ap validate same ∙ validate-written m resolved bare w.asset_room w.node_room apart in
    ground (arith, loaded, accepted)
