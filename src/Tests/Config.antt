-- ===== src/Tests/Config.antt =====
-- src/edge_config.c: the template's load.
use opcua_edge.Base.{List, map, ◌≡◌, refl, some, arith}
use opcua_edge.Types.{EdgeAsset, ok}
use opcua_edge.Base.{str_eq, c_string}
use opcua_edge.Config.Fields.{
  trim_newline, copy_value, split_at_equals, split_key_value, skip_spaces, digits_value,
  skip_digits, starts_with_digit, convert, strtoul, parse_bounded, parse_u16, parse_u32,
  parse_double, parse_data_type, parse_access, parse_condition, parse_plant_key, parse_asset_key,
  parse_modbus_unit, parse_node_key, parse_event_key,
}
use opcua_edge.Config.Loader.{
  begin_asset, begin_node, begin_event, set_asset, set_node, set_event, on_key, starts_with,
  on_line, read_line, fgets, ends_with_newline, too_long, load_lines,
}
use opcua_edge.Config.Validate.{
  find_asset_from, find_asset, find_event_from, find_event, find_node_from, find_node_for_asset,
  asset_incomplete, node_incomplete, event_incomplete, none_of, validate_required_fields,
  asset_clash, node_clash, no_clash, first_of_id, validate_duplicates,
}
use opcua_edge.Config.Resolve.{
  parent_of, parent_accepted, resolve_parents, follow_parents, check_cycles, resolve_nodes,
  resolve_events, resolve_members, resolve_after_parents, validate_and_resolve_references, validate,
  start, edge_config_load,
}
use opcua_edge.Config.Loader.{empty_model}
use opcua_edge.Config.Correct.{IsResolved}
use opcua_edge.Config.Bounds.{ModelFits}
use opcua_edge.Config.Load.{load-IsResolved, load-ModelFits}
use opcua_edge.Config.Wire.{edge_config_wire_runtime}
use opcua_edge.Config.Wired.{pointed_node, pointed_event, Pairs, WiredAsset, wire-Wired}
use opcua_edge.Tests.Data.{reads_five, template, loaded}

pub template_loads : edge_config_load reads_five (some template) empty_model ≡ some (ok, loaded)
unfolding str_eq c_string trim_newline copy_value split_at_equals split_key_value skip_spaces
    digits_value skip_digits starts_with_digit convert strtoul parse_bounded parse_u16 parse_u32
    parse_double parse_data_type parse_access parse_condition parse_plant_key parse_asset_key
    parse_modbus_unit parse_node_key parse_event_key begin_asset begin_node begin_event set_asset
    set_node set_event on_key starts_with on_line read_line fgets ends_with_newline too_long
    load_lines find_asset_from find_asset find_event_from find_event find_node_from
    find_node_for_asset asset_incomplete node_incomplete event_incomplete none_of
    validate_required_fields asset_clash node_clash no_clash first_of_id validate_duplicates
    parent_of parent_accepted resolve_parents follow_parents check_cycles resolve_nodes
    resolve_events resolve_members resolve_after_parents validate_and_resolve_references validate
    start edge_config_load
template_loads = refl

load-IsResolved_example : IsResolved loaded
load-IsResolved_example =
    load-IsResolved reads_five (some template) empty_model loaded template_loads

empty-ModelFits : ModelFits empty_model
empty-ModelFits = ground arith

load-ModelFits_example : ModelFits loaded
load-ModelFits_example =
    load-ModelFits reads_five (some template) empty_model loaded empty-ModelFits template_loads

wire-Wired_example :
    (assets' : List EdgeAsset) × (edge_config_wire_runtime loaded
      ≡ some (
        ok,
        record loaded {
          assets = assets';
          nodes = map pointed_node loaded.nodes;
          events = map pointed_event loaded.events;
        },
      ))
    × Pairs (WiredAsset loaded.nodes) 0 loaded.assets assets'
wire-Wired_example =
    wire-Wired loaded (load-IsResolved reads_five (some template) empty_model loaded template_loads)
      (load-ModelFits reads_five (some template) empty_model loaded empty-ModelFits template_loads)
