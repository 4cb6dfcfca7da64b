-- ===== src/Types.antt =====
-- include/edge_types.h and include/edge_limits.h: the model that all modules share.
-- A pointer into one of the model's arrays is the index it points at; a C string is its bytes; an
-- array with its count is the list of its first `count` elements; a `uint8_t` flag is a Bool; a
-- double is its 64-bit pattern, and the union EdgeValue the 64-bit pattern of its eight bytes.
use opcua_edge.Base.{ℕ, ◌+◌, ◌*◌, ◌/◌, ◌%◌, ◌^◌, Bool, Option, List, Bytes}

pub data EdgeStatus : Type 0 where
  ok error limit invalid : EdgeStatus

-- `unset_type` is the value 0 of a cleared record, which no enumerator has.
pub data EdgeDataType : Type 0 where
  unset_type bool int16 int32 uint32 double : EdgeDataType

pub data EdgeEventCondition : Type 0 where
  unset_condition greater_than less_than : EdgeEventCondition

abbrev pub edge_max_id_len : ℕ
edge_max_id_len = 64

abbrev pub edge_max_name_len : ℕ
edge_max_name_len = 128

abbrev pub edge_max_line_len : ℕ
edge_max_line_len = 512

abbrev pub edge_max_assets : ℕ
edge_max_assets = 1024

abbrev pub edge_max_nodes : ℕ
edge_max_nodes = 65536

abbrev pub edge_max_events : ℕ
edge_max_events = 4096

abbrev pub edge_invalid_index : ℕ
edge_invalid_index = 4294967295

pub record EdgeNode : Type 0 where
  pub id : Bytes
  pub name : Bytes
  pub asset_id : Bytes
  pub asset_index : ℕ
  pub asset : Option ℕ
  pub data_type : EdgeDataType
  pub writable : Bool
  pub modbus_unit : ℕ
  pub modbus_register : ℕ
  pub scale : ℕ
  pub value : ℕ
  pub pending_write : Bool

pub record EdgeAsset : Type 0 where
  pub id : Bytes
  pub type : Bytes
  pub name : Bytes
  pub parent_id : Bytes
  pub parent_index : ℕ
  pub parent : Option ℕ
  pub first_node_index : ℕ
  pub node_count : ℕ

pub record EdgeEvent : Type 0 where
  pub id : Bytes
  pub asset_id : Bytes
  pub source_node_id : Bytes
  pub asset_index : ℕ
  pub source_node_index : ℕ
  pub asset : Option ℕ
  pub source_node : Option ℕ
  pub condition : EdgeEventCondition
  pub threshold : ℕ
  pub severity : ℕ
  pub active : Bool

pub record EdgeModel : Type 0 where
  pub id : Bytes
  pub name : Bytes
  pub assets : List EdgeAsset
  pub nodes : List EdgeNode
  pub events : List EdgeEvent

-- The members of the union EdgeValue lie at its low end (little-endian): `low w v` reads the
-- member of w bits, `set_low w v x` writes it and leaves the other bytes.
abbrev pub low : ℕ → ℕ → ℕ
low w v = v % 2 ^ w

abbrev pub set_low : ℕ → ℕ → ℕ → ℕ
set_low w v x = v / 2 ^ w * 2 ^ w + x
