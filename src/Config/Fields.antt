-- ===== src/Config/Fields.antt =====
-- src/edge_config.c: the helpers on one line or one value, and the handlers of the keys.
-- An out-parameter is an argument and the second part of the result, so what a failing call has
-- already written is kept. `strtoul` is written out; `strtod` is the parameter `strtod`.
use opcua_edge.Base.{
  ℕ, ◌+◌, ◌-◌, ◌*◌, ◌%◌, ◌^◌, Bool, true, false, not, ◌&&◌, ◌||◌, Option, none, some, [], ◌∷◌, ltb,
  leb, ◌==◌, if◌then◌else◌, length, Bytes, codes, is_empty, str_eq,
}
use opcua_edge.Types.{
  EdgeStatus, ok, limit, invalid, EdgeDataType, bool, int16, int32, uint32, double,
  EdgeEventCondition, greater_than, less_than, EdgeNode, EdgeAsset, EdgeEvent, EdgeModel,
  edge_max_id_len, edge_max_name_len,
}

is_eol : ℕ → Bool
is_eol c = c == b'\n' || c == b'\r'

-- Drops every '\n' and '\r' at the end.
unfoldable pub trim_newline : Bytes → Bytes
unfolding is_eol
trim_newline [] = []
trim_newline (c ∷ cs) =
    let rest = trim_newline cs in if is_eol c && is_empty rest then [] else c ∷ rest

-- The new content of a buffer of `dst_size` bytes that holds `dst`.
unfoldable pub copy_value : Bytes → ℕ → Bytes → EdgeStatus × Bytes
copy_value dst dst_size src =
    if length src == 0 || leb dst_size (length src) then (limit, dst) else (ok, src)

-- `strchr(line, '=')`: what stands before the first '=', and behind it.
unfoldable pub split_at_equals : Bytes → Option (Bytes × Bytes)
split_at_equals [] = none
split_at_equals (c ∷ cs) =
    if c == b'='
    then some ([], cs)
    else elim (split_at_equals cs) [ none ↦ none | some (key, value) ↦ some (c ∷ key, value) ]

unfoldable pub split_key_value : Bytes → Option (Bytes × Bytes)
unfolding split_at_equals
split_key_value line = elim (split_at_equals line) [
  | none ↦ none
  | some (key, value) ↦ if is_empty key then none else some (key, value)
]

-- What a call of `strtoul` leaves: its result, whether `errno` was set, whether it read a number
-- (`end != text`), and the text at `end`.
pub record Parsed : Type 0 where
  pub value : ℕ
  pub out_of_range : Bool
  pub converted : Bool
  pub rest : Bytes

abbrev is_space : ℕ → Bool
is_space c = c == b' ' || leb 9 c && leb c 13

unfoldable pub skip_spaces : Bytes → Bytes
skip_spaces [] = []
skip_spaces (c ∷ cs) = let rest = skip_spaces cs in if is_space c then rest else c ∷ cs

abbrev pub is_digit : ℕ → Bool
is_digit c = leb b'0' c && leb c b'9'

-- The digits in front, as a number on top of `acc`.
unfoldable pub digits_value : ℕ → Bytes → ℕ
digits_value acc [] = acc
digits_value acc (c ∷ cs) =
    let rest = digits_value (acc * 10 + (c - b'0')) cs in if is_digit c then rest else acc

unfoldable pub skip_digits : Bytes → Bytes
skip_digits [] = []
skip_digits (c ∷ cs) = let rest = skip_digits cs in if is_digit c then rest else c ∷ cs

unfoldable pub starts_with_digit : Bytes → Bool
starts_with_digit [] = false
starts_with_digit (c ∷ cs) = is_digit c

-- unsigned long has 64 bits; '-' negates modulo 2^64.
unfoldable pub convert : Bool → Bytes → Bytes → Parsed
unfolding starts_with_digit
convert negative text body =
    if not (starts_with_digit body)
    then record { value = 0; out_of_range = false; converted = false; rest = text }
    else if leb (2 ^ 64) (digits_value 0 body)
    then record {
      value = 2 ^ 64 - 1;
      out_of_range = true;
      converted = true;
      rest = skip_digits body;
    }
    else record {
      value = if negative then (2 ^ 64 - digits_value 0 body) % 2 ^ 64 else digits_value 0 body;
      out_of_range = false;
      converted = true;
      rest = skip_digits body;
    }

unfoldable pub signed_convert : Bytes → Bytes → Parsed
signed_convert text [] = convert false text []
signed_convert text (c ∷ cs) =
    if c == b'-'
    then convert true text cs
    else if c == b'+'
    then convert false text cs
    else convert false text (c ∷ cs)

unfoldable pub strtoul : Bytes → Parsed
unfolding signed_convert
strtoul text = signed_convert text (skip_spaces text)

-- The common guard of `parse_u16` and `parse_u32`, with the largest value that fits.
unfoldable pub parse_bounded : ℕ → Bytes → ℕ → EdgeStatus × ℕ
parse_bounded max text value =
    let parsed = strtoul text in
    if parsed.out_of_range
      || not parsed.converted
      || not (is_empty parsed.rest)
      || ltb max parsed.value
    then (invalid, value)
    else (ok, parsed.value)

unfoldable pub parse_u16 : Bytes → ℕ → EdgeStatus × ℕ
unfolding parse_bounded
parse_u16 = parse_bounded 65535

unfoldable pub parse_u32 : Bytes → ℕ → EdgeStatus × ℕ
unfolding parse_bounded
parse_u32 = parse_bounded 4294967295

-- `strtod` leaves the bits of a double in `value`.
unfoldable pub parse_double : (Bytes → Parsed) → Bytes → ℕ → EdgeStatus × ℕ
parse_double strtod text value =
    let parsed = strtod text in
    if parsed.out_of_range || not parsed.converted || not (is_empty parsed.rest)
    then (invalid, value)
    else (ok, parsed.value)

unfoldable pub parse_data_type : Bytes → EdgeDataType → EdgeStatus × EdgeDataType
parse_data_type value data_type =
    if str_eq value (codes "bool")
    then (ok, bool)
    else if str_eq value (codes "int16")
    then (ok, int16)
    else if str_eq value (codes "int32")
    then (ok, int32)
    else if str_eq value (codes "uint32")
    then (ok, uint32)
    else if str_eq value (codes "double")
    then (ok, double)
    else (invalid, data_type)

unfoldable pub parse_access : Bytes → Bool → EdgeStatus × Bool
parse_access value writable =
    if str_eq value (codes "read")
    then (ok, false)
    else if str_eq value (codes "read_write")
    then (ok, true)
    else (invalid, writable)

unfoldable pub parse_condition : Bytes → EdgeEventCondition → EdgeStatus × EdgeEventCondition
parse_condition value condition =
    if str_eq value (codes "greater_than")
    then (ok, greater_than)
    else if str_eq value (codes "less_than")
    then (ok, less_than)
    else (invalid, condition)

-- A result whose out-parameter is a field: `put` writes the field.
abbrev pub stored {ℓ κ} : {A : Type ℓ} {B : Type κ} → EdgeStatus × A → (A → B) → EdgeStatus × B
stored (status, a) put = (status, put a)

unfoldable pub parse_plant_key : EdgeModel → Bytes → Bytes → EdgeStatus × EdgeModel
parse_plant_key model key value =
    if str_eq key (codes "id")
    then stored (copy_value model.id edge_max_id_len value) (λ x. record model { id = x })
    else if str_eq key (codes "name")
    then stored (copy_value model.name edge_max_name_len value) (λ x. record model { name = x })
    else (invalid, model)

unfoldable pub parse_asset_key : EdgeAsset → Bytes → Bytes → EdgeStatus × EdgeAsset
parse_asset_key asset key value =
    if str_eq key (codes "id")
    then stored (copy_value asset.id edge_max_id_len value) (λ x. record asset { id = x })
    else if str_eq key (codes "type")
    then stored (copy_value asset.type edge_max_id_len value) (λ x. record asset { type = x })
    else if str_eq key (codes "name")
    then stored (copy_value asset.name edge_max_name_len value) (λ x. record asset { name = x })
    else if str_eq key (codes "parent")
    then (if is_empty value
        then (ok, record asset { parent_id = [] })
        else stored (copy_value asset.parent_id edge_max_id_len value)
            (λ x. record asset { parent_id = x }))
    else (invalid, asset)

-- The unit is stored before its range is checked.
unfoldable pub parse_modbus_unit : EdgeNode → Bytes → EdgeStatus × EdgeNode
parse_modbus_unit node value =
    let (rc, unit) = parse_u16 value node.modbus_unit in
    let checked = if unit == 0 || ltb 247 unit then invalid else ok in
    (elim rc [ ok ↦ checked | other ↦ other ], record node { modbus_unit = unit })

unfoldable pub parse_node_key : (Bytes → Parsed) → EdgeNode → Bytes → Bytes → EdgeStatus × EdgeNode
unfolding parse_modbus_unit
parse_node_key strtod node key value =
    if str_eq key (codes "asset")
    then stored (copy_value node.asset_id edge_max_id_len value) (λ x. record node { asset_id = x })
    else if str_eq key (codes "id")
    then stored (copy_value node.id edge_max_id_len value) (λ x. record node { id = x })
    else if str_eq key (codes "name")
    then stored (copy_value node.name edge_max_name_len value) (λ x. record node { name = x })
    else if str_eq key (codes "data_type")
    then stored (parse_data_type value node.data_type) (λ x. record node { data_type = x })
    else if str_eq key (codes "access")
    then stored (parse_access value node.writable) (λ x. record node { writable = x })
    else if str_eq key (codes "source")
    then (if str_eq value (codes "modbus") then ok else invalid, node)
    else if str_eq key (codes "modbus_unit")
    then parse_modbus_unit node value
    else if str_eq key (codes "modbus_register")
    then stored (parse_u32 value node.modbus_register) (λ x. record node { modbus_register = x })
    else if str_eq key (codes "scale")
    then stored (parse_double strtod value node.scale) (λ x. record node { scale = x })
    else (invalid, node)

unfoldable pub parse_event_key :
    (Bytes → Parsed) → EdgeEvent → Bytes → Bytes → EdgeStatus × EdgeEvent
parse_event_key strtod event key value =
    if str_eq key (codes "asset")
    then stored (copy_value event.asset_id edge_max_id_len value)
        (λ x. record event { asset_id = x })
    else if str_eq key (codes "id")
    then stored (copy_value event.id edge_max_id_len value) (λ x. record event { id = x })
    else if str_eq key (codes "source_node")
    then stored (copy_value event.source_node_id edge_max_id_len value)
        (λ x. record event { source_node_id = x })
    else if str_eq key (codes "condition")
    then stored (parse_condition value event.condition) (λ x. record event { condition = x })
    else if str_eq key (codes "threshold")
    then stored (parse_double strtod value event.threshold) (λ x. record event { threshold = x })
    else if str_eq key (codes "severity")
    then stored (parse_u16 value event.severity) (λ x. record event { severity = x })
    else (invalid, event)
