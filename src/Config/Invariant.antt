-- ===== src/Config/Invariant.antt =====
-- src/edge_config.c: the loader's invariant, kept by every line, and the end of its loop.
use Prim.Native.String.{String}
use opcua_edge.Base.{
  codes, is_empty, str_eq, ◌||◌, ℕ, zero, suc, ◌<◌, Option, none, some, [], ◌∷◌, arith, length,
  get_elem?-some, set, All-append, All-get, All-set, length-append, length-set, Option-cases,
  if_both, inl, inr, Bytes, c_string,
}
use opcua_edge.Types.{EdgeStatus, ok, invalid, EdgeAsset, EdgeNode, EdgeEvent}
use opcua_edge.Config.Fields.{Parsed, split_key_value}
use opcua_edge.Config.Loader.{
  Loader, EdgeConfigSection, section_plant, section_asset, section_node, section_event, new_asset,
  new_node, new_event, begin_asset, begin_node, begin_event, set_asset, set_node, set_event, on_key,
  on_line, fgets, too_long, load_lines, enter, starts_with,
}
use opcua_edge.Config.Bounds.{
  AssetFits, NodeFits, EventFits, ModelFits, parse_plant_key-fits, parse_plant_key-arrays,
  parse_asset_key-fits, parse_node_key-fits, parse_event_key-fits,
}

-- A cursor is null or points into its array.
abbrev pub Points : Option ℕ → ℕ → Type 0
Points none count = Unit
Points (some i) count = i < count

pub record LoaderInv (l : Loader) : Type 0 where
  pub fits : ModelFits l.model
  pub asset_points : Points l.asset (length l.model.assets)
  pub node_points : Points l.node (length l.model.nodes)
  pub event_points : Points l.event (length l.model.events)

begin_asset-Inv : (l : Loader) → LoaderInv l → LoaderInv (begin_asset l).1
unfolding begin_asset
begin_asset-Inv l h = ground (
  arith,
  length-append {0} l.model.assets (new_asset ∷ []),
  All-append AssetFits l.model.assets (new_asset ∷ []) h.fits.assets_fit (omega arith),
)

begin_node-Inv : (l : Loader) → LoaderInv l → LoaderInv (begin_node l).1
unfolding begin_node
begin_node-Inv l h = ground (
  arith,
  length-append {0} l.model.nodes (new_node ∷ []),
  All-append NodeFits l.model.nodes (new_node ∷ []) h.fits.nodes_fit (omega arith),
)

begin_event-Inv : (l : Loader) → LoaderInv l → LoaderInv (begin_event l).1
unfolding begin_event
begin_event-Inv l h = ground (
  arith,
  length-append {0} l.model.events (new_event ∷ []),
  All-append EventFits l.model.events (new_event ∷ []) h.fits.events_fit (omega arith),
)

replace_asset-Inv :
    (l : Loader) (i : ℕ) (v : EdgeAsset)
    → LoaderInv l
    → AssetFits v
    → LoaderInv (record l { model = record (l.model) { assets = set l.model.assets i v } })
replace_asset-Inv l i v h p =
    let same = length-set {0} l.model.assets i v in
    let fit = All-set AssetFits l.model.assets i v h.fits.assets_fit p in
    let old = h.fits in
    record {
      fits = record {
        id_fits = old.id_fits;
        name_fits = old.name_fits;
        assets_fit = fit;
        nodes_fit = old.nodes_fit;
        events_fit = old.events_fit;
        asset_room = omega (arith, same);
        node_room = omega (arith, same);
        event_room = omega (arith, same);
      };
      asset_points = rw same h.asset_points;
      node_points = h.node_points;
      event_points = h.event_points;
    }

replace_node-Inv :
    (l : Loader) (i : ℕ) (v : EdgeNode)
    → LoaderInv l
    → NodeFits v
    → LoaderInv (record l { model = record (l.model) { nodes = set l.model.nodes i v } })
replace_node-Inv l i v h p =
    let same = length-set {0} l.model.nodes i v in
    let fit = All-set NodeFits l.model.nodes i v h.fits.nodes_fit p in
    let old = h.fits in
    record {
      fits = record {
        id_fits = old.id_fits;
        name_fits = old.name_fits;
        assets_fit = old.assets_fit;
        nodes_fit = fit;
        events_fit = old.events_fit;
        asset_room = omega (arith, same);
        node_room = omega (arith, same);
        event_room = omega (arith, same);
      };
      asset_points = h.asset_points;
      node_points = rw same h.node_points;
      event_points = h.event_points;
    }

replace_event-Inv :
    (l : Loader) (i : ℕ) (v : EdgeEvent)
    → LoaderInv l
    → EventFits v
    → LoaderInv (record l { model = record (l.model) { events = set l.model.events i v } })
replace_event-Inv l i v h p =
    let same = length-set {0} l.model.events i v in
    let fit = All-set EventFits l.model.events i v h.fits.events_fit p in
    let old = h.fits in
    record {
      fits = record {
        id_fits = old.id_fits;
        name_fits = old.name_fits;
        assets_fit = old.assets_fit;
        nodes_fit = old.nodes_fit;
        events_fit = fit;
        asset_room = omega (arith, same);
        node_room = omega (arith, same);
        event_room = omega (arith, same);
      };
      asset_points = h.asset_points;
      node_points = h.node_points;
      event_points = rw same h.event_points;
    }

-- The loader that a call leaves satisfies the invariant.
pub record Keeps (r : EdgeStatus × Loader) : Type 0 where
  pub inv : LoaderInv r.1

pub data KeepsAll : Option (EdgeStatus × Loader) → Type 0 where
  unfinished : KeepsAll none
  finished : {r : EdgeStatus × Loader} → Keeps r → KeepsAll (some r)

-- A line that writes inside its array, and the loader that it leaves.
pub data Runs : Option (EdgeStatus × Loader) → Type 0 where
  ran : {r : EdgeStatus × Loader} → Keeps r → Runs (some r)

with_section :
    (s : EdgeConfigSection) (l : Loader) → LoaderInv l → LoaderInv (record l { section = s })
with_section s l h = record {
  fits = h.fits;
  asset_points = h.asset_points;
  node_points = h.node_points;
  event_points = h.event_points;
}

enter-Inv : (s : EdgeConfigSection) (r : EdgeStatus × Loader) → Keeps r → Keeps (enter s r)
enter-Inv s (ok, l) h = record { inv = with_section s l h.inv }
enter-Inv s (_, l) h = h

module _ (strtod : Bytes → Parsed) where
  set_asset-Inv :
      (l : Loader) (i : ℕ) (key value : Bytes)
      → LoaderInv l
      → i < length l.model.assets
      → Runs (set_asset strtod l i key value)
  unfolding set_asset
  set_asset-Inv l i key value h lt =
      let (a, e) = get_elem?-some l.model.assets i lt in
      let fit = All-get AssetFits l.model.assets i h.fits.assets_fit e in
      rw (e, set_asset)
        (ran (record { inv = replace_asset-Inv l i _ h (parse_asset_key-fits a key value fit) }))

  set_node-Inv :
      (l : Loader) (i : ℕ) (key value : Bytes)
      → LoaderInv l
      → i < length l.model.nodes
      → Runs (set_node strtod l i key value)
  unfolding set_node
  set_node-Inv l i key value h lt =
      let (a, e) = get_elem?-some l.model.nodes i lt in
      let fit = All-get NodeFits l.model.nodes i h.fits.nodes_fit e in
      rw (e, set_node)
        (ran
          (record { inv = replace_node-Inv l i _ h (parse_node_key-fits strtod a key value fit) }))

  set_event-Inv :
      (l : Loader) (i : ℕ) (key value : Bytes)
      → LoaderInv l
      → i < length l.model.events
      → Runs (set_event strtod l i key value)
  unfolding set_event
  set_event-Inv l i key value h lt =
      let (a, e) = get_elem?-some l.model.events i lt in
      let fit = All-get EventFits l.model.events i h.fits.events_fit e in
      rw (e, set_event)
        (ran (record {
          inv = replace_event-Inv l i _ h (parse_event_key-fits strtod a key value fit);
        }))

  on_key-Inv :
      (s : EdgeConfigSection) (a n e : Option ℕ) (l : Loader) (key value : Bytes)
      → LoaderInv l
      → Points a (length l.model.assets)
      → Points n (length l.model.nodes)
      → Points e (length l.model.events)
      → Runs (on_key strtod s a n e l key value)
  unfolding on_key
  on_key-Inv section_plant _ _ _ l key value h _ _ _ =
      let (a, n, e) = parse_plant_key-arrays l.model key value in
      ran (record {
        inv = record {
          fits = parse_plant_key-fits l.model key value h.fits;
          asset_points = rw a h.asset_points;
          node_points = rw n h.node_points;
          event_points = rw e h.event_points;
        };
      })
  on_key-Inv section_asset (some i) _ _ l key value h p _ _ = set_asset-Inv l i key value h p
  on_key-Inv section_node _ (some i) _ l key value h _ p _ = set_node-Inv l i key value h p
  on_key-Inv section_event _ _ (some i) l key value h _ _ p = set_event-Inv l i key value h p
  on_key-Inv _ _ _ _ l key value h _ _ _ = ran (record { inv = h })

  on_split-Inv :
      (split : Option (Bytes × Bytes)) (l : Loader)
      → LoaderInv l
      → Runs (elim split [
        | none ↦ some (invalid, l)
        | some (key, value) ↦ on_key strtod l.section l.asset l.node l.event l key value
      ])
  on_split-Inv none l h = ran (record { inv = h })
  on_split-Inv (some (key, value)) l h =
      on_key-Inv l.section l.asset l.node l.event l key value h h.asset_points h.node_points
        h.event_points

  pub on_line-Inv : (l : Loader) (line : Bytes) → LoaderInv l → Runs (on_line strtod l line)
  unfolding on_line
  on_line-Inv l line h =
      let same : Runs (some (ok, l)) = ran (record { inv = h }) in
      let plant : Runs (
          some
            (ok, record l { section = section_plant; asset = none; node = none; event = none })) =
        ran (record {
          inv = record { fits = h.fits; asset_points = tt; node_points = tt; event_points = tt };
        }) in
      let is_a = λ (name : String). str_eq line (codes name) in
      let asset =
        ran (enter-Inv section_asset (begin_asset l) (record { inv = begin_asset-Inv l h })) in
      let node =
        ran (enter-Inv section_node (begin_node l) (record { inv = begin_node-Inv l h })) in
      let event =
        ran (enter-Inv section_event (begin_event l) (record { inv = begin_event-Inv l h })) in
      let rest =
        if_both Runs (starts_with b'[' line) (some (invalid, l)) _ (ran (record { inv = h }))
          (on_split-Inv (split_key_value line) l h) in
      if_both Runs (is_empty line || starts_with b'#' line) _ _ same (
        if_both Runs (is_a "[plant]") _ _ plant (
          if_both Runs (is_a "[asset]") _ _ asset
            (if_both Runs (is_a "[node]") _ _ node (if_both Runs (is_a "[event]") _ _ event rest))))

  continue-Inv :
      (fuel : ℕ) (rest : Bytes) {o : Option (EdgeStatus × Loader)}
      → Runs o
      → ((l : Loader) → LoaderInv l → KeepsAll (load_lines strtod fuel rest l))
      → KeepsAll (elim o [
        | none ↦ none
        | some (status, l) ↦ elim status [
          | ok ↦ load_lines strtod fuel rest l
          | other ↦ some (other, l)
        ]
      ])
  continue-Inv fuel rest (ran {r = (ok, l)} h) later = later l h.inv
  continue-Inv fuel rest (ran {r = (_, l)} h) later = finished h

  -- A file that the loop accepts or rejects leaves the invariant in force.
  pub load_lines-Inv :
      (fuel : ℕ) (file : Bytes) (l : Loader)
      → LoaderInv l
      → KeepsAll (load_lines strtod fuel file l)
  unfolding load_lines
  load_lines-Inv zero file l h = unfinished
  load_lines-Inv (suc fuel) file l h = elim (Option-cases (fgets file)) [
    | inl end ↦ rw (end, load_lines) (finished (record { inv = h }))
    | inr ((buffer, rest, eof), read) ↦
        rw (read, load_lines)
          (if_both KeepsAll (too_long (c_string buffer) eof) _ _ (finished (record { inv = h }))
            (continue-Inv fuel rest (on_line-Inv l _ h) (load_lines-Inv fuel rest)))
  ]
