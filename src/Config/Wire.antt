-- ===== src/Config/Wire.antt =====
-- src/edge_config.c: `edge_config_wire_runtime`. A pointer becomes an index into its array; `none`
-- stands for a write through an index outside the array.
use opcua_edge.Base.{
  ℕ, ◌+◌, Option, none, some, List, [], ◌∷◌, map, ◌==◌, if◌then◌else◌, get_elem?, set,
}
use opcua_edge.Types.{
  EdgeStatus, ok, invalid, EdgeNode, EdgeAsset, EdgeEvent, EdgeModel, edge_invalid_index,
}

unfoldable pub wire_asset : EdgeAsset → EdgeAsset
wire_asset asset = record asset {
  parent = if asset.parent_index == edge_invalid_index then none else some asset.parent_index;
  first_node_index = edge_invalid_index;
  node_count = 0;
}

-- Counts node `i` in its asset.
unfoldable pub count_node : ℕ → EdgeAsset → EdgeAsset
count_node i asset = record asset {
  first_node_index =
      if asset.first_node_index == edge_invalid_index then i else asset.first_node_index;
  node_count = asset.node_count + 1;
}

-- The second loop, over the nodes from index `i`.
unfoldable pub wire_nodes :
    ℕ → List EdgeNode → List EdgeAsset → Option (EdgeStatus × List EdgeNode × List EdgeAsset)
wire_nodes i [] assets = some (ok, [], assets)
wire_nodes i (node ∷ rest) assets =
    if node.asset_index == edge_invalid_index
    then some (invalid, node ∷ rest, assets)
    else elim (get_elem? assets node.asset_index) [
      | none ↦ none
      | some asset ↦
          elim (wire_nodes (i + 1) rest (set assets node.asset_index (count_node i asset))) [
            | none ↦ none
            | some (status, rest', assets') ↦
                some (status, record node { asset = some node.asset_index } ∷ rest', assets')
          ]
    ]

unfoldable pub wire_events : List EdgeEvent → EdgeStatus × List EdgeEvent
wire_events [] = (ok, [])
wire_events (event ∷ rest) =
    let (status, rest') = wire_events rest in
    let wired = record event {
      asset = some event.asset_index;
      source_node = some event.source_node_index;
    } in
    if event.asset_index == edge_invalid_index
    then (invalid, event ∷ rest)
    else if event.source_node_index == edge_invalid_index
    then (invalid, event ∷ rest)
    else (status, wired ∷ rest')

unfoldable pub edge_config_wire_runtime : EdgeModel → Option (EdgeStatus × EdgeModel)
edge_config_wire_runtime model = elim (wire_nodes 0 model.nodes (map wire_asset model.assets)) [
  | none ↦ none
  | some (status, nodes, assets) ↦
      let placed = record model { nodes = nodes; assets = assets } in
      let (status', events) = wire_events model.events in
      some (elim status [
        | ok ↦ (status', record placed { events = events })
        | other ↦ (other, placed)
      ])
]
