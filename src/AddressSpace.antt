-- ===== src/AddressSpace.antt =====
-- src/edge_address_space.c: the objects and variables that the server is given, and the callbacks
-- that read and write a node's value.
pub mod Callbacks
pub mod Order
pub mod Sent
pub mod Placement
pub mod Loaded
pub mod Success
pub mod Ready
use opcua_edge.Base.{
  ℕ, Bool, true, false, not, ◌&&◌, ◌||◌, Option, none, some, List, [], ◌∷◌, ◌++◌, if◌then◌else◌,
  get_elem?, Bytes, codes,
}
use opcua_edge.Types.{
  EdgeStatus, ok, error, limit, EdgeDataType, unset_type, bool, int16, int32, uint32, double,
  EdgeNode, EdgeAsset, EdgeModel, low, set_low,
}
use opcua_edge.World.{
  UaType, ua_boolean, ua_int16, ua_int32, ua_uint32, ua_double, UaVariant, ua_add_namespace,
  ua_add_object, ua_add_variable, Log, Env,
}
use opcua_edge.Store.Key.{snprintf, status_of, node_key}

abbrev pub edge_nodeid_len : ℕ
edge_nodeid_len = 160

unfoldable pub make_plant_nodeid : EdgeModel → EdgeStatus × Bytes
make_plant_nodeid model = snprintf edge_nodeid_len (codes "plant:" ++ model.id)

unfoldable pub make_asset_nodeid : EdgeAsset → EdgeStatus × Bytes
make_asset_nodeid asset = snprintf edge_nodeid_len (codes "asset:" ++ asset.id)

-- With the node's asset, which `node->asset` points at.
unfoldable pub make_variable_nodeid : EdgeAsset → EdgeNode → EdgeStatus × Bytes
make_variable_nodeid asset node = snprintf edge_nodeid_len (node_key asset.id node.id)

unfoldable pub ua_type : EdgeDataType → UaType
ua_type bool = ua_boolean
ua_type int16 = ua_int16
ua_type int32 = ua_int32
ua_type uint32 = ua_uint32
ua_type _ = ua_double

unfoldable pub ua_type_for_node : EdgeNode → UaType
unfolding ua_type
ua_type_for_node node = ua_type node.data_type

abbrev pub bits_of : UaType → ℕ
bits_of ua_boolean = 8
bits_of ua_int16 = 16
bits_of ua_int32 = 32
bits_of ua_uint32 = 32
bits_of ua_double = 64

unfoldable pub set_variant_from_edge_value : EdgeNode → UaVariant
set_variant_from_edge_value node =
    let t = ua_type_for_node node in record { scalar = some (t, low (bits_of t) node.value) }

pub data UaStatus : Type 0 where
  good bad_internal_error bad_not_writable bad_type_mismatch : UaStatus

-- The node context may be null.
unfoldable pub read_edge_node : Option EdgeNode → UaStatus × Option UaVariant
read_edge_node none = (bad_internal_error, none)
read_edge_node (some node) = (good, some (set_variant_from_edge_value node))

-- One test of the chain in `write_edge_node`: the width to copy where the types agree.
unfoldable pub accepted_width : EdgeDataType → UaType → Option ℕ
accepted_width bool ua_boolean = some 8
accepted_width int16 ua_int16 = some 16
accepted_width int32 ua_int32 = some 32
accepted_width uint32 ua_uint32 = some 32
accepted_width double ua_double = some 64
accepted_width _ _ = none

unfoldable pub write_scalar : EdgeNode → Option (UaType × ℕ) → UaStatus × EdgeNode
write_scalar node none = (bad_type_mismatch, node)
write_scalar node (some (t, x)) = elim (accepted_width node.data_type t) [
  | none ↦ (bad_type_mismatch, node)
  | some w ↦ (good, record node { value = set_low w node.value (low w x); pending_write = true })
]

-- The data value is `none` where it is null or has no value.
unfoldable pub write_edge_node : EdgeNode → Option UaVariant → UaStatus × EdgeNode
write_edge_node node none = (bad_not_writable, node)
write_edge_node node (some v) =
    if not node.writable then (bad_not_writable, node) else write_scalar node v.scalar

-- `status` of a call that is made once the texts fit.
abbrev pub once_made : EdgeStatus → EdgeStatus × Log → Log → EdgeStatus × Log
once_made ok called log = called
once_made _ called log = (limit, log)

unfoldable pub add_plant_object : Env → EdgeModel → Log → EdgeStatus × Log
add_plant_object env model log =
    let (fits, plant_id) = make_plant_nodeid model in
    once_made fits (status_of (env.adds_object log), ua_add_object plant_id none model.name ∷ log)
      log

-- The node id of the parent, which `asset->parent` points at, or of the plant. An index outside the
-- array, a stray pointer in C, gives `limit`; a wired model has none.
unfoldable pub make_parent_nodeid : EdgeModel → EdgeAsset → EdgeStatus × Bytes
make_parent_nodeid model asset = elim asset.parent [
  | none ↦ make_plant_nodeid model
  | some i ↦ elim (get_elem? model.assets i) [
    | none ↦ (limit, [])
    | some parent ↦ make_asset_nodeid parent
  ]
]

unfoldable pub add_asset_object : Env → EdgeModel → EdgeAsset → Log → EdgeStatus × Log
add_asset_object env model asset log =
    let (fits, asset_id) = make_asset_nodeid asset in
    let (parent_fits, parent_id) = make_parent_nodeid model asset in
    let added : EdgeStatus × Log =
      (status_of (env.adds_object log), ua_add_object asset_id (some parent_id) asset.name ∷ log) in
    once_made fits (once_made parent_fits added log) log

-- The asset that `node->asset` points at. With none, a null pointer in C, `add_variable_node`
-- gives `limit`; a wired model has one.
unfoldable pub asset_of : EdgeModel → EdgeNode → Option EdgeAsset
asset_of model node = elim node.asset [ none ↦ none | some i ↦ get_elem? model.assets i ]

unfoldable pub add_variable_node : Env → EdgeModel → EdgeNode → Log → EdgeStatus × Log
add_variable_node env model node log = elim (asset_of model node) [
  | none ↦ (limit, log)
  | some asset ↦
      let (fits, node_id) = make_variable_nodeid asset node in
      let (parent_fits, parent_id) = make_asset_nodeid asset in
      let added : EdgeStatus × Log = (
        status_of (env.adds_variable log),
        ua_add_variable node_id parent_id node.name node.writable ∷ log,
      ) in
      once_made fits (once_made parent_fits added log) log
]

-- A loop that adds one element after the other, and turns any failure into ERROR.
unfoldable pub add_all {ℓ} :
    {A : Type ℓ} → (A → Log → EdgeStatus × Log) → List A → Log → EdgeStatus × Log
add_all add [] log = (ok, log)
add_all add (x ∷ xs) log =
    let (status, log') = add x log in
    let rest = add_all add xs log' in elim status [ ok ↦ rest | _ ↦ (error, log') ]

unfoldable pub edge_address_space_load : Env → EdgeModel → Log → EdgeStatus × Log
edge_address_space_load env model log =
    let (plant, log1) = add_plant_object env model (ua_add_namespace ∷ log) in
    let (assets, log2) = add_all (add_asset_object env model) model.assets log1 in
    let nodes = add_all (add_variable_node env model) model.nodes log2 in
    elim plant [ ok ↦ elim assets [ ok ↦ nodes | _ ↦ (error, log2) ] | _ ↦ (error, log1) ]
