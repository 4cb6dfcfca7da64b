-- ===== src/Config/Validate.antt =====
-- src/edge_config.c: `find_asset`, `find_event`, `find_node_for_asset`, `validate_required_fields`
-- and `validate_duplicates`. A loop over an array is a recursion on its list.
use opcua_edge.Base.{
  ℕ, ◌+◌, Bool, true, false, ◌&&◌, ◌||◌, List, [], ◌∷◌, ◌==◌, if◌then◌else◌, Bytes, is_empty,
  str_eq,
}
use opcua_edge.Types.{
  EdgeStatus, ok, invalid, EdgeDataType, unset_type, EdgeEventCondition, unset_condition, EdgeNode,
  EdgeAsset, EdgeEvent, EdgeModel, edge_invalid_index,
}

-- The searches start at index `i`.
unfoldable pub find_asset_from : ℕ → List EdgeAsset → Bytes → ℕ
find_asset_from i [] id = edge_invalid_index
find_asset_from i (asset ∷ rest) id =
    let later = find_asset_from (i + 1) rest id in if str_eq asset.id id then i else later

unfoldable pub find_asset : EdgeModel → Bytes → ℕ
find_asset model id = find_asset_from 0 model.assets id

unfoldable pub find_event_from : ℕ → List EdgeEvent → Bytes → ℕ
find_event_from i [] id = edge_invalid_index
find_event_from i (event ∷ rest) id =
    let later = find_event_from (i + 1) rest id in if str_eq event.id id then i else later

unfoldable pub find_event : EdgeModel → Bytes → ℕ
find_event model id = find_event_from 0 model.events id

unfoldable pub find_node_from : ℕ → List EdgeNode → ℕ → Bytes → ℕ
find_node_from i [] asset_index id = edge_invalid_index
find_node_from i (node ∷ rest) asset_index id =
    let later = find_node_from (i + 1) rest asset_index id in
    if node.asset_index == asset_index && str_eq node.id id then i else later

unfoldable pub find_node_for_asset : EdgeModel → ℕ → Bytes → ℕ
find_node_for_asset model asset_index id = find_node_from 0 model.nodes asset_index id

abbrev pub is_unset_type : EdgeDataType → Bool
is_unset_type unset_type = true
is_unset_type _ = false

abbrev pub is_unset_condition : EdgeEventCondition → Bool
is_unset_condition unset_condition = true
is_unset_condition _ = false

unfoldable pub asset_incomplete : EdgeAsset → Bool
asset_incomplete asset = is_empty asset.id || is_empty asset.type || is_empty asset.name

unfoldable pub node_incomplete : EdgeNode → Bool
node_incomplete node =
    is_empty node.asset_id
    || is_empty node.id
    || is_empty node.name
    || is_unset_type node.data_type
    || node.modbus_unit == 0
    || node.modbus_register == 0

unfoldable pub event_incomplete : EdgeEvent → Bool
event_incomplete event =
    is_empty event.asset_id
    || is_empty event.id
    || is_empty event.source_node_id
    || is_unset_condition event.condition
    || event.severity == 0

-- `for(...) if(test(element)) return INVALID;`
unfoldable pub none_of {ℓ} : {A : Type ℓ} → (A → Bool) → List A → EdgeStatus
none_of test [] = ok
none_of test (x ∷ xs) = let rest = none_of test xs in if test x then invalid else rest

-- The next check of a chain, made if the one before has passed.
abbrev pub and_then : EdgeStatus → EdgeStatus → EdgeStatus
and_then ok next = next
and_then status next = status

unfoldable pub validate_required_fields : EdgeModel → EdgeStatus
validate_required_fields model =
    if is_empty model.id || is_empty model.name
    then invalid
    else and_then (none_of asset_incomplete model.assets)
        (and_then (none_of node_incomplete model.nodes) (none_of event_incomplete model.events))

unfoldable pub asset_clash : EdgeAsset → EdgeAsset → Bool
asset_clash a b = str_eq a.id b.id

unfoldable pub node_clash : EdgeNode → EdgeNode → Bool
node_clash a b = str_eq a.asset_id b.asset_id && str_eq a.id b.id

-- `for i: for j > i: if(clash(i, j)) return INVALID;`
unfoldable pub no_clash {ℓ} : {A : Type ℓ} → (A → A → Bool) → List A → EdgeStatus
no_clash clash [] = ok
no_clash clash (x ∷ xs) = and_then (none_of (clash x) xs) (no_clash clash xs)

-- The loop over the events from index `i`: each must be the first with its id.
unfoldable pub first_of_id : EdgeModel → ℕ → List EdgeEvent → EdgeStatus
first_of_id model i [] = ok
first_of_id model i (event ∷ rest) =
    let later = first_of_id model (i + 1) rest in
    if find_event model event.id == i then later else invalid

unfoldable pub validate_duplicates : EdgeModel → EdgeStatus
validate_duplicates model =
    and_then (no_clash asset_clash model.assets)
      (and_then (no_clash node_clash model.nodes) (first_of_id model 0 model.events))
