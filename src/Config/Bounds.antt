-- ===== src/Config/Bounds.antt =====
-- src/edge_config.c: what the loader keeps true of the fixed-size arrays while it reads a file.
use opcua_edge.Base.{◌≡◌, ℕ, ◌≤◌, ◌<◌, arith, length, All, Bytes}
use opcua_edge.Types.{
  EdgeNode, EdgeAsset, EdgeEvent, EdgeModel, edge_max_id_len, edge_max_name_len, edge_max_assets,
  edge_max_nodes, edge_max_events,
}
use opcua_edge.Config.Fields.{
  Parsed, copy_value, parse_bounded, parse_u16, parse_u32, parse_plant_key, parse_asset_key,
  parse_modbus_unit, parse_node_key, parse_event_key,
}

abbrev pub AssetFits : EdgeAsset → Type 0
AssetFits a =
    (length a.id < edge_max_id_len)
    × (length a.type < edge_max_id_len)
    × (length a.name < edge_max_name_len)
    × (length a.parent_id < edge_max_id_len)

abbrev pub NodeFits : EdgeNode → Type 0
NodeFits n =
    (length n.id < edge_max_id_len)
    × (length n.name < edge_max_name_len)
    × (length n.asset_id < edge_max_id_len)
    × (n.modbus_unit ≤ 65535)
    × (n.modbus_register ≤ 4294967295)

abbrev pub EventFits : EdgeEvent → Type 0
EventFits e =
    (length e.id < edge_max_id_len)
    × (length e.asset_id < edge_max_id_len)
    × (length e.source_node_id < edge_max_id_len)
    × (e.severity ≤ 65535)

-- Every string with its NUL, every number and every count fits the C declaration.
pub record ModelFits (m : EdgeModel) : Type 0 where
  pub id_fits : length m.id < edge_max_id_len
  pub name_fits : length m.name < edge_max_name_len
  pub assets_fit : All AssetFits m.assets
  pub nodes_fit : All NodeFits m.nodes
  pub events_fit : All EventFits m.events
  pub asset_room : length m.assets ≤ edge_max_assets
  pub node_room : length m.nodes ≤ edge_max_nodes
  pub event_room : length m.events ≤ edge_max_events

copy_value-fits :
    (dst : Bytes) (size : ℕ) (src : Bytes)
    → length dst < size
    → length ((copy_value dst size src).1) < size
unfolding copy_value
copy_value-fits dst size src h = ground arith

parse_bounded-le : (max : ℕ) (text : Bytes) (v : ℕ) → v ≤ max → (parse_bounded max text v).1 ≤ max
unfolding parse_bounded
parse_bounded-le max text v h = ground arith

parse_u16-le : (text : Bytes) (v : ℕ) → v ≤ 65535 → (parse_u16 text v).1 ≤ 65535
unfolding parse_u16
parse_u16-le text v h = parse_bounded-le 65535 text v h

parse_u32-le : (text : Bytes) (v : ℕ) → v ≤ 4294967295 → (parse_u32 text v).1 ≤ 4294967295
unfolding parse_u32
parse_u32-le text v h = parse_bounded-le 4294967295 text v h

-- The plant's keys keep the strings in bounds.
pub parse_plant_key-fits :
    (m : EdgeModel) (key value : Bytes) → ModelFits m → ModelFits (parse_plant_key m key value).1
unfolding parse_plant_key
parse_plant_key-fits m key value h =
    ground (arith, copy_value-fits m.id 64 value, copy_value-fits m.name 128 value)

pub parse_plant_key-arrays :
    (m : EdgeModel) (key value : Bytes)
    → ((parse_plant_key m key value).1.assets ≡ m.assets)
      × ((parse_plant_key m key value).1.nodes ≡ m.nodes)
      × ((parse_plant_key m key value).1.events ≡ m.events)
unfolding parse_plant_key
parse_plant_key-arrays m key value = ground arith

pub parse_asset_key-fits :
    (a : EdgeAsset) (key value : Bytes) → AssetFits a → AssetFits (parse_asset_key a key value).1
unfolding parse_asset_key
parse_asset_key-fits a key value h = ground (
  arith,
  copy_value-fits a.id 64 value,
  copy_value-fits a.type 64 value,
  copy_value-fits a.name 128 value,
  copy_value-fits a.parent_id 64 value,
)

parse_modbus_unit-fits :
    (n : EdgeNode) (value : Bytes) → NodeFits n → NodeFits (parse_modbus_unit n value).1
unfolding parse_modbus_unit
parse_modbus_unit-fits n value h = ground (arith, parse_u16-le value n.modbus_unit)

module _ (strtod : Bytes → Parsed) where
  pub parse_node_key-fits :
      (n : EdgeNode) (key value : Bytes)
      → NodeFits n
      → NodeFits (parse_node_key strtod n key value).1
  unfolding parse_node_key
  parse_node_key-fits n key value h = ground (
    arith,
    copy_value-fits n.asset_id 64 value,
    copy_value-fits n.id 64 value,
    copy_value-fits n.name 128 value,
    parse_modbus_unit-fits n value h,
    parse_u32-le value n.modbus_register,
  )

  pub parse_event_key-fits :
      (e : EdgeEvent) (key value : Bytes)
      → EventFits e
      → EventFits (parse_event_key strtod e key value).1
  unfolding parse_event_key
  parse_event_key-fits e key value h = ground (
    arith,
    copy_value-fits e.asset_id 64 value,
    copy_value-fits e.id 64 value,
    copy_value-fits e.source_node_id 64 value,
    parse_u16-le value e.severity,
  )
