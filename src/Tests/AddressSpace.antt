-- ===== src/Tests/AddressSpace.antt =====
-- src/edge_address_space.c: a client writes 5 to the node of the template, and the template's
-- objects are added.
use opcua_edge.Base.{◌≡◌, inl, inr, refl, All, some, [], ◌∷◌, arith}
use opcua_edge.Types.{EdgeModel, ok}
use opcua_edge.World.{ua_int16}
use opcua_edge.AddressSpace.{write_edge_node, edge_address_space_load}
use opcua_edge.AddressSpace.Callbacks.{WriteOutcome, write-WriteOutcome}
use opcua_edge.AddressSpace.Order.{Placed}
use opcua_edge.AddressSpace.Placement.{load-Placed}
use opcua_edge.AddressSpace.Loaded.{AssetNamed, NodeNamed, template-Placed}
use opcua_edge.AddressSpace.Sent.{Sends, model_calls}
use opcua_edge.Config.Bounds.{ModelFits}
use opcua_edge.Config.Loader.{empty_model}
use opcua_edge.Config.Wire.{edge_config_wire_runtime}
use opcua_edge.Tests.Config.{template_loads}
use opcua_edge.Tests.Data.{node_t, asset_a, asset_b, works, loaded, reads_five, template}

write-WriteOutcome_example :
    let (status, node') = write_edge_node node_t (some (record { scalar = some (ua_int16, 5) })) in
    WriteOutcome node_t (some (record { scalar = some (ua_int16, 5) })) status node'
write-WriteOutcome_example =
    write-WriteOutcome node_t (some (record { scalar = some (ua_int16, 5) }))

-- The child points at its parent.
abbrev pointing : EdgeModel
pointing = record loaded { assets = asset_a ∷ record asset_b { parent = some 0 } ∷ [] }

load-Placed_example :
    Sends (model_calls pointing) [] (edge_address_space_load works pointing [])
    × Placed works (edge_address_space_load works pointing []).1
load-Placed_example = load-Placed works pointing [] (inl refl, (inr (0, refl, omega arith), tt)) tt

empty_fits : ModelFits empty_model
empty_fits = ground arith

template-Placed_example :
    (m'' : EdgeModel) × (edge_config_wire_runtime loaded ≡ some (ok, m''))
    × Sends (model_calls m'') [] (edge_address_space_load works m'' [])
    × All (AssetNamed m'') m''.assets
    × All (NodeNamed m'') m''.nodes
    × Placed works (edge_address_space_load works m'' []).1
template-Placed_example =
    template-Placed works reads_five (some template) empty_model loaded empty_fits template_loads
