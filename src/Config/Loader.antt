-- ===== src/Config/Loader.antt =====
-- src/edge_config.c: `begin_asset`, `begin_node`, `begin_event`, and the line loop of
-- `edge_config_load`. The file is its bytes; `fgets` is written out. The cursors `asset`, `node`
-- and `event` are indices into the model's arrays.
use opcua_edge.Base.{
  ℕ, zero, suc, ◌-◌, Bool, true, false, not, ◌&&◌, ◌||◌, Option, none, some, [], ◌∷◌, ◌++◌, leb,
  ◌==◌, if◌then◌else◌, length, get_elem?, set, Bytes, codes, is_empty, str_eq, c_string,
}
use opcua_edge.Types.{
  EdgeStatus, ok, limit, invalid, unset_type, unset_condition, EdgeNode, EdgeAsset, EdgeEvent,
  EdgeModel, edge_max_line_len, edge_max_assets, edge_max_nodes, edge_max_events,
  edge_invalid_index,
}
use opcua_edge.Config.Fields.{
  Parsed, trim_newline, split_key_value, parse_plant_key, parse_asset_key, parse_node_key,
  parse_event_key, stored,
}

pub data EdgeConfigSection : Type 0 where
  section_none section_plant section_asset section_node section_event : EdgeConfigSection

-- The local variables of `edge_config_load`, and the model.
pub record Loader : Type 0 where
  pub model : EdgeModel
  pub section : EdgeConfigSection
  pub asset : Option ℕ
  pub node : Option ℕ
  pub event : Option ℕ

abbrev pub new_asset : EdgeAsset
new_asset = record {
  id = [];
  type = [];
  name = [];
  parent_id = [];
  parent_index = edge_invalid_index;
  parent = none;
  first_node_index = 0;
  node_count = 0;
}

-- The scale 1.0 as a double.
abbrev pub one_point_zero : ℕ
one_point_zero = 0x3ff0000000000000

abbrev pub new_node : EdgeNode
new_node = record {
  id = [];
  name = [];
  asset_id = [];
  asset_index = edge_invalid_index;
  asset = none;
  data_type = unset_type;
  writable = false;
  modbus_unit = 0;
  modbus_register = 0;
  scale = one_point_zero;
  value = 0;
  pending_write = false;
}

abbrev pub new_event : EdgeEvent
new_event = record {
  id = [];
  asset_id = [];
  source_node_id = [];
  asset_index = edge_invalid_index;
  source_node_index = edge_invalid_index;
  asset = none;
  source_node = none;
  condition = unset_condition;
  threshold = 0;
  severity = 0;
  active = false;
}

abbrev pub empty_model : EdgeModel
empty_model = record { id = []; name = []; assets = []; nodes = []; events = [] }

unfoldable pub begin_asset : Loader → EdgeStatus × Loader
begin_asset l = if leb edge_max_assets (length l.model.assets) then (limit, l) else (
  ok,
  record l {
    model = record (l.model) { assets = l.model.assets ++ (new_asset ∷ []) };
    asset = some (length l.model.assets);
    node = none;
    event = none;
  },
)

unfoldable pub begin_node : Loader → EdgeStatus × Loader
begin_node l = if leb edge_max_nodes (length l.model.nodes) then (limit, l) else (
  ok,
  record l {
    model = record (l.model) { nodes = l.model.nodes ++ (new_node ∷ []) };
    node = some (length l.model.nodes);
    asset = none;
    event = none;
  },
)

unfoldable pub begin_event : Loader → EdgeStatus × Loader
begin_event l = if leb edge_max_events (length l.model.events) then (limit, l) else (
  ok,
  record l {
    model = record (l.model) { events = l.model.events ++ (new_event ∷ []) };
    event = some (length l.model.events);
    asset = none;
    node = none;
  },
)

-- `section = s` after a call that succeeded; a failing call ends the load.
abbrev pub enter : EdgeConfigSection → EdgeStatus × Loader → EdgeStatus × Loader
enter s (ok, l) = (ok, record l { section = s })
enter s (status, l) = (status, l)

-- Writes through a cursor; an index outside the array, a write that C leaves undefined, is `none`.
unfoldable pub set_asset :
    (Bytes → Parsed) → Loader → ℕ → Bytes → Bytes → Option (EdgeStatus × Loader)
set_asset strtod l i key value = elim (get_elem? l.model.assets i) [
  | none ↦ none
  | some asset ↦ some (
      stored (parse_asset_key asset key value)
        (λ a. record l { model = record (l.model) { assets = set l.model.assets i a } }))
]

unfoldable pub set_node :
    (Bytes → Parsed) → Loader → ℕ → Bytes → Bytes → Option (EdgeStatus × Loader)
set_node strtod l i key value = elim (get_elem? l.model.nodes i) [
  | none ↦ none
  | some node ↦ some (
      stored (parse_node_key strtod node key value)
        (λ n. record l { model = record (l.model) { nodes = set l.model.nodes i n } }))
]

unfoldable pub set_event :
    (Bytes → Parsed) → Loader → ℕ → Bytes → Bytes → Option (EdgeStatus × Loader)
set_event strtod l i key value = elim (get_elem? l.model.events i) [
  | none ↦ none
  | some event ↦ some (
      stored (parse_event_key strtod event key value)
        (λ e. record l { model = record (l.model) { events = set l.model.events i e } }))
]

-- A `key=value` line, by section; with no open record in the section it is invalid.
unfoldable pub on_key :
    (Bytes → Parsed)
    → EdgeConfigSection
    → Option ℕ
    → Option ℕ
    → Option ℕ
    → Loader
    → Bytes
    → Bytes
    → Option (EdgeStatus × Loader)
on_key strtod section_plant _ _ _ l key value =
    some (stored (parse_plant_key l.model key value) (λ m. record l { model = m }))
on_key strtod section_asset (some i) _ _ l key value = set_asset strtod l i key value
on_key strtod section_node _ (some i) _ l key value = set_node strtod l i key value
on_key strtod section_event _ _ (some i) l key value = set_event strtod l i key value
on_key strtod _ _ _ _ l key value = some (invalid, l)

unfoldable pub starts_with : ℕ → Bytes → Bool
starts_with c [] = false
starts_with c (x ∷ xs) = x == c

-- One trimmed line, from the test for a blank or comment line on.
unfoldable pub on_line : (Bytes → Parsed) → Loader → Bytes → Option (EdgeStatus × Loader)
on_line strtod l line =
    if is_empty line || starts_with b'#' line
    then some (ok, l)
    else if str_eq line (codes "[plant]")
    then some (ok, record l { section = section_plant; asset = none; node = none; event = none })
    else if str_eq line (codes "[asset]")
    then some (enter section_asset (begin_asset l))
    else if str_eq line (codes "[node]")
    then some (enter section_node (begin_node l))
    else if str_eq line (codes "[event]")
    then some (enter section_event (begin_event l))
    else if starts_with b'[' line
    then some (invalid, l)
    else elim (split_key_value line) [
      | none ↦ some (invalid, l)
      | some (key, value) ↦ on_key strtod l.section l.asset l.node l.event l key value
    ]

-- Up to `room` bytes, a newline being the last: the bytes read, those left, and whether the read
-- met the end of the file (`feof`).
unfoldable pub read_line : ℕ → Bytes → Bytes × Bytes × Bool
read_line zero file = ([], file, false)
read_line (suc room) [] = ([], [], true)
read_line (suc room) (c ∷ cs) =
    let (line, rest, eof) = read_line room cs in
    if c == b'\n' then (c ∷ [], cs, false) else (c ∷ line, rest, eof)

-- `fgets(line, sizeof(line), file)`: NULL at the end of the file.
unfoldable pub fgets : Bytes → Option (Bytes × Bytes × Bool)
fgets [] = none
fgets (c ∷ cs) = some (read_line (edge_max_line_len - 1) (c ∷ cs))

unfoldable pub ends_with_newline : Bytes → Bool
ends_with_newline [] = false
ends_with_newline (c ∷ cs) =
    let rest = ends_with_newline cs in if is_empty cs then c == b'\n' else rest

unfoldable pub too_long : Bytes → Bool → Bool
too_long line eof = length line == edge_max_line_len - 1 && not (ends_with_newline line) && not eof

-- The `while(fgets(...))` loop; `none` means that the fuel ran out or that a
-- line wrote outside an array.
unfoldable pub load_lines : (Bytes → Parsed) → ℕ → Bytes → Loader → Option (EdgeStatus × Loader)
load_lines strtod zero file l = none
load_lines strtod (suc fuel) file l = elim (fgets file) [
  | none ↦ some (ok, l)
  | some (buffer, rest, eof) ↦
      if too_long (c_string buffer) eof
      then some (limit, l)
      else elim (on_line strtod l (trim_newline (c_string buffer))) [
        | none ↦ none
        | some (status, l') ↦ elim status [
          | ok ↦ load_lines strtod fuel rest l'
          | other ↦ some (other, l')
        ]
      ]
]
