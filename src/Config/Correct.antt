-- ===== src/Config/Correct.antt =====
-- src/edge_config.c: what `edge_config_load` guarantees of the model that it accepts.
use opcua_edge.Base.{◌≡◌, ◌≢◌, false, some, [], ◌∷◌, arith, All, Distinct, AllFrom, Bytes, is_empty}
use opcua_edge.Types.{ok, EdgeNode, EdgeAsset, EdgeEvent, EdgeModel, unset_type, unset_condition}
use opcua_edge.Config.Validate.{
  asset_incomplete, node_incomplete, event_incomplete, none_of, no_clash, asset_clash, node_clash,
  first_of_id, validate_required_fields, validate_duplicates,
}
use opcua_edge.Config.Resolve.{
  resolve_parents, resolve_nodes, resolve_events, check_cycles, resolve_members,
  resolve_after_parents, validate_and_resolve_references, validate,
}
use opcua_edge.Config.Resolved.{ParentOk, NodeOk, EventOk}

abbrev pub AssetComplete : EdgeAsset → Type 0
AssetComplete a = (a.id ≢ []) × (a.type ≢ []) × (a.name ≢ [])

abbrev pub NodeComplete : EdgeNode → Type 0
NodeComplete n =
    (n.asset_id ≢ [])
    × (n.id ≢ [])
    × (n.name ≢ [])
    × (n.data_type ≢ unset_type)
    × (n.modbus_unit ≢ 0)
    × (n.modbus_register ≢ 0)

abbrev pub EventComplete : EdgeEvent → Type 0
EventComplete e =
    (e.asset_id ≢ [])
    × (e.id ≢ [])
    × (e.source_node_id ≢ [])
    × (e.condition ≢ unset_condition)
    × (e.severity ≢ 0)

-- A model that the rest of the program can run on.
pub record IsResolved (m : EdgeModel) : Type 0 where
  pub named : (m.id ≢ []) × (m.name ≢ [])
  pub assets_complete : All AssetComplete m.assets
  pub nodes_complete : All NodeComplete m.nodes
  pub events_complete : All EventComplete m.events
  pub assets_distinct : Distinct (λ a b. a.id ≡ b.id) m.assets
  pub nodes_distinct : Distinct (λ a b. (a.asset_id ≡ b.asset_id) × (a.id ≡ b.id)) m.nodes
  pub events_distinct : Distinct (λ a b. a.id ≡ b.id) m.events
  pub parents : AllFrom (ParentOk m) 0 m.assets
  pub node_assets : All (NodeOk m) m.nodes
  pub event_sources : All (EventOk m) m.events

full : (s : Bytes) → is_empty s ≡ false → s ≢ []
full [] h e = ground arith
full (c ∷ cs) h e = ground arith

pub asset_complete : (a : EdgeAsset) → asset_incomplete a ≡ false → AssetComplete a
unfolding asset_incomplete
asset_complete a h = ground (arith, full a.id, full a.type, full a.name)

pub node_complete : (n : EdgeNode) → node_incomplete n ≡ false → NodeComplete n
unfolding node_incomplete
node_complete n h = ground (arith, full n.asset_id, full n.id, full n.name)

pub event_complete : (e : EdgeEvent) → event_incomplete e ≡ false → EventComplete e
unfolding event_incomplete
event_complete e h = ground (arith, full e.asset_id, full e.id, full e.source_node_id)

pub required-named : (m : EdgeModel) → validate_required_fields m ≡ ok → (m.id ≢ []) × (m.name ≢ [])
unfolding validate_required_fields
required-named m h = ground (arith, full m.id, full m.name)

pub required-parts :
    (m : EdgeModel)
    → validate_required_fields m ≡ ok
    → (none_of asset_incomplete m.assets ≡ ok)
      × (none_of node_incomplete m.nodes ≡ ok)
      × (none_of event_incomplete m.events ≡ ok)
unfolding validate_required_fields
required-parts m h = ground arith

pub duplicates-parts :
    (m : EdgeModel)
    → validate_duplicates m ≡ ok
    → (no_clash asset_clash m.assets ≡ ok)
      × (no_clash node_clash m.nodes ≡ ok)
      × (first_of_id m 0 m.events ≡ ok)
unfolding validate_duplicates
duplicates-parts m h = ground arith

pub validate-parts :
    (m m' : EdgeModel)
    → validate m ≡ some (ok, m')
    → (validate_required_fields m ≡ ok)
      × (validate_duplicates m ≡ ok)
      × (validate_and_resolve_references m ≡ some (ok, m'))
unfolding validate
validate-parts m m' h = ground arith

pub references-parts :
    (m m' : EdgeModel)
    → validate_and_resolve_references m ≡ some (ok, m')
    → ((resolve_parents m 0 m.assets).0 ≡ ok)
      × (resolve_after_parents ok (record m { assets = (resolve_parents m 0 m.assets).1 })
          ≡ some (ok, m'))
unfolding validate_and_resolve_references resolve_after_parents
references-parts m m' h = ground arith

pub after_parents-ok :
    (m m' : EdgeModel)
    → check_cycles m.assets 0 m.assets ≡ some ok
    → resolve_after_parents ok m ≡ some (ok, m')
    → resolve_members m ≡ (ok, m')
unfolding resolve_after_parents
after_parents-ok m m' c h = ground arith

pub members-parts :
    (m m' : EdgeModel)
    → resolve_members m ≡ (ok, m')
    → ((resolve_nodes m m.nodes).0 ≡ ok)
      × ((resolve_events (record m { nodes = (resolve_nodes m m.nodes).1 }) m.events).0 ≡ ok)
      × (m' ≡ record m {
        nodes = (resolve_nodes m m.nodes).1;
        events = (resolve_events (record m { nodes = (resolve_nodes m m.nodes).1 }) m.events).1;
      })
unfolding resolve_members
members-parts m m' h = ground arith
