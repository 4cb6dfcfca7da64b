-- ===== src/Config/Resolve.antt =====
-- src/edge_config.c: `validate_and_resolve_references`, and `edge_config_load` as a whole.
-- `none` stands for a loop that runs out of fuel or reads outside an array.
use opcua_edge.Base.{
  ℕ, zero, suc, ◌+◌, Bool, true, false, ◌||◌, Option, none, some, List, [], ◌∷◌, ltb, ◌==◌,
  if◌then◌else◌, length, get_elem?, Bytes, is_empty, str_eq,
}
use opcua_edge.Types.{
  EdgeStatus, ok, error, invalid, EdgeNode, EdgeAsset, EdgeEvent, EdgeModel, edge_invalid_index,
}
use opcua_edge.Config.Fields.{Parsed}
use opcua_edge.Config.Loader.{Loader, section_none, load_lines}
use opcua_edge.Config.Validate.{
  find_asset, find_node_for_asset, validate_required_fields, validate_duplicates,
}

abbrev pub cons_to {ℓ} : {A : Type ℓ} → A → EdgeStatus × List A → EdgeStatus × List A
cons_to a (status, rest) = (status, a ∷ rest)

-- The parent index that the first loop gives an asset.
unfoldable pub parent_of : EdgeModel → EdgeAsset → ℕ
parent_of model asset =
    if is_empty asset.parent_id || str_eq asset.parent_id model.id
    then edge_invalid_index
    else find_asset model asset.parent_id

-- The loop's tests on that index, for the asset at `i`.
unfoldable pub parent_accepted : EdgeModel → ℕ → EdgeAsset → Bool
parent_accepted model i asset =
    if is_empty asset.parent_id || str_eq asset.parent_id model.id
    then true
    else if find_asset model asset.parent_id == edge_invalid_index
        || find_asset model asset.parent_id == i
    then false
    else if ltb i (find_asset model asset.parent_id)
    then false
    else true

-- The first loop, over the assets from index `i`; `find_asset` reads only ids, which it keeps.
unfoldable pub resolve_parents : EdgeModel → ℕ → List EdgeAsset → EdgeStatus × List EdgeAsset
resolve_parents model i [] = (ok, [])
resolve_parents model i (asset ∷ rest) =
    let resolved = record asset { parent_index = parent_of model asset } in
    let later = cons_to resolved (resolve_parents model (i + 1) rest) in
    if parent_accepted model i asset then later else (invalid, resolved ∷ rest)

-- The while loop of the second pass, for the asset at `i`.
unfoldable pub follow_parents : ℕ → List EdgeAsset → ℕ → ℕ → ℕ → Option EdgeStatus
follow_parents zero assets i cursor hops = none
follow_parents (suc fuel) assets i cursor hops =
    if cursor == edge_invalid_index
    then some ok
    else if cursor == i || ltb (length assets) hops
    then some invalid
    else elim (get_elem? assets cursor) [
      | none ↦ none
      | some next ↦ follow_parents fuel assets i next.parent_index (hops + 1)
    ]

-- A chain makes at most `asset_count + 1` hops before the test on `hops` stops it.
unfoldable pub check_cycles : List EdgeAsset → ℕ → List EdgeAsset → Option EdgeStatus
check_cycles assets i [] = some ok
check_cycles assets i (asset ∷ rest) =
    let later = check_cycles assets (i + 1) rest in
    elim (follow_parents (length assets + 3) assets i asset.parent_index 0) [
      | none ↦ none
      | some status ↦ elim status [ ok ↦ later | other ↦ some other ]
    ]

unfoldable pub resolve_nodes : EdgeModel → List EdgeNode → EdgeStatus × List EdgeNode
resolve_nodes model [] = (ok, [])
resolve_nodes model (node ∷ rest) =
    let index = find_asset model node.asset_id in
    let resolved = record node { asset_index = index } in
    let later = cons_to resolved (resolve_nodes model rest) in
    if index == edge_invalid_index then (invalid, resolved ∷ rest) else later

-- A failing asset reference returns before `source_node_index` is assigned.
unfoldable pub resolve_events : EdgeModel → List EdgeEvent → EdgeStatus × List EdgeEvent
resolve_events model [] = (ok, [])
resolve_events model (event ∷ rest) =
    let index = find_asset model event.asset_id in
    let source = find_node_for_asset model index event.source_node_id in
    let placed = record event { asset_index = index } in
    let resolved = record placed { source_node_index = source } in
    let later = cons_to resolved (resolve_events model rest) in
    if index == edge_invalid_index
    then (invalid, placed ∷ rest)
    else if source == edge_invalid_index
    then (invalid, resolved ∷ rest)
    else later

-- The last two loops, on a model with resolved parents.
unfoldable pub resolve_members : EdgeModel → EdgeStatus × EdgeModel
resolve_members model =
    let (status, nodes) = resolve_nodes model model.nodes in
    let placed = record model { nodes = nodes } in
    let (status', events) = resolve_events placed model.events in
    elim status [ ok ↦ (status', record placed { events = events }) | other ↦ (other, placed) ]

unfoldable pub resolve_after_parents : EdgeStatus → EdgeModel → Option (EdgeStatus × EdgeModel)
resolve_after_parents ok model = elim (check_cycles model.assets 0 model.assets) [
  | none ↦ none
  | some status ↦ elim status [ ok ↦ some (resolve_members model) | other ↦ some (other, model) ]
]
resolve_after_parents status model = some (status, model)

unfoldable pub validate_and_resolve_references : EdgeModel → Option (EdgeStatus × EdgeModel)
validate_and_resolve_references model =
    let (status, assets) = resolve_parents model 0 model.assets in
    resolve_after_parents status (record model { assets = assets })

-- The three checks behind the loop; any failure is reported as INVALID.
unfoldable pub validate : EdgeModel → Option (EdgeStatus × EdgeModel)
validate model = elim (validate_required_fields model) [
  | ok ↦ elim (validate_duplicates model) [
    | ok ↦ elim (validate_and_resolve_references model) [
      | none ↦ none
      | some (status, model') ↦ some (elim status [ ok ↦ ok | _ ↦ invalid ], model')
    ]
    | _ ↦ some (invalid, model)
  ]
  | _ ↦ some (invalid, model)
]

unfoldable pub start : EdgeModel → Loader
start model = record {
  model = model;
  section = section_none;
  asset = none;
  node = none;
  event = none;
}

-- `file` is `none` where `fopen` fails.
unfoldable pub edge_config_load :
    (Bytes → Parsed) → Option Bytes → EdgeModel → Option (EdgeStatus × EdgeModel)
unfolding start
edge_config_load strtod none model = some (error, model)
edge_config_load strtod (some file) model =
    elim (load_lines strtod (length file + 1) file (start model)) [
      | none ↦ none
      | some (status, l) ↦ elim status [ ok ↦ validate l.model | other ↦ some (other, l.model) ]
    ]
