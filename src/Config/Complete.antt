-- ===== src/Config/Complete.antt =====
-- src/edge_config.c: the checks behind the line loop accept every model that is resolved.
use opcua_edge.Base.{
  ℕ, zero, suc, ◌+◌, ◌≡◌, ◌≢◌, refl, Bool, true, false, some, List, [], ◌∷◌, arith, get_elem?, All,
  All-get, All-imp, Distinct, Bytes, is_empty, str_eq_iff,
}
use opcua_edge.Types.{
  ok, EdgeDataType, unset_type, EdgeEventCondition, unset_condition, EdgeNode, EdgeAsset, EdgeEvent,
  EdgeModel,
}
use opcua_edge.Config.Validate.{
  is_unset_type, is_unset_condition, find_asset_from, find_event_from, find_node_from,
  asset_incomplete, node_incomplete, event_incomplete, none_of, validate_required_fields, no_clash,
}
use opcua_edge.Config.Correct.{AssetComplete, NodeComplete, EventComplete}

none_of-All {ℓ} :
    {A : Type ℓ} (test : A → Bool) (xs : List A)
    → All (λ x. test x ≡ false) xs
    → none_of test xs ≡ ok
unfolding none_of
none_of-All test [] h = refl
none_of-All test (x ∷ xs) h = ground (arith, h.0, none_of-All test xs h.1)

pub no_clash-Distinct {ℓ} :
    {A : Type ℓ} (clash : A → A → Bool) (xs : List A)
    → Distinct (λ a b. clash a b ≡ true) xs
    → no_clash clash xs ≡ ok
unfolding no_clash
no_clash-Distinct clash [] h = refl
no_clash-Distinct clash (x ∷ xs) h = ground (
  arith,
  none_of-All (clash x) xs
      (All-imp (λ y. ¬ (clash x y ≡ true)) (λ y. clash x y ≡ false) xs (λ y n. ground arith) h.0),
  no_clash-Distinct clash xs h.1,
)

pub full-is_empty : (s : Bytes) → s ≢ [] → is_empty s ≡ false
full-is_empty [] h = absurd (h refl)
full-is_empty (c ∷ cs) h = refl

type-set : (t : EdgeDataType) → t ≢ unset_type → is_unset_type t ≡ false
type-set unset_type h = absurd (h refl)
type-set _ h = refl

condition-set : (c : EdgeEventCondition) → c ≢ unset_condition → is_unset_condition c ≡ false
condition-set unset_condition h = absurd (h refl)
condition-set _ h = refl

asset-AssetComplete : (a : EdgeAsset) → AssetComplete a → asset_incomplete a ≡ false
unfolding asset_incomplete
asset-AssetComplete a h =
    ground (arith, full-is_empty a.id h.0, full-is_empty a.type h.1, full-is_empty a.name h.2)

node-NodeComplete : (n : EdgeNode) → NodeComplete n → node_incomplete n ≡ false
unfolding node_incomplete
node-NodeComplete n (asset, id, name, type, unit, register) = ground (
  arith,
  full-is_empty n.asset_id asset,
  full-is_empty n.id id,
  full-is_empty n.name name,
  type-set n.data_type type,
  unit,
  register,
)

event-EventComplete : (e : EdgeEvent) → EventComplete e → event_incomplete e ≡ false
unfolding event_incomplete
event-EventComplete e (asset, id, source, condition, severity) = ground (
  arith,
  full-is_empty e.asset_id asset,
  full-is_empty e.id id,
  full-is_empty e.source_node_id source,
  condition-set e.condition condition,
  severity,
)

pub required-ok :
    (m : EdgeModel)
    → m.id ≢ []
    → m.name ≢ []
    → All AssetComplete m.assets
    → All NodeComplete m.nodes
    → All EventComplete m.events
    → validate_required_fields m ≡ ok
unfolding validate_required_fields
required-ok m id name assets nodes events = ground (
  arith,
  full-is_empty m.id id,
  full-is_empty m.name name,
  none_of-All asset_incomplete m.assets
      (All-imp AssetComplete (λ a. asset_incomplete a ≡ false) m.assets asset-AssetComplete assets),
  none_of-All node_incomplete m.nodes
      (All-imp NodeComplete (λ n. node_incomplete n ≡ false) m.nodes node-NodeComplete nodes),
  none_of-All event_incomplete m.events
      (All-imp EventComplete (λ e. event_incomplete e ≡ false) m.events event-EventComplete events),
)

-- The searches find what stands at an index, where ids are distinct.
pub find_asset-get :
    (i : ℕ) (xs : List EdgeAsset) (k : ℕ) {a : EdgeAsset}
    → Distinct (λ x y. x.id ≡ y.id) xs
    → get_elem? xs k ≡ some a
    → find_asset_from i xs a.id ≡ i + k
unfolding find_asset_from
find_asset-get i [] k d e = absurd (ground arith)
find_asset-get i (x ∷ xs) zero {a} d e =
    let same : x.id ≡ a.id = ground arith in ground (arith, same, str_eq_iff a.id a.id)
find_asset-get i (x ∷ xs) (suc k) {a} d e =
    let other = All-get (λ (y : EdgeAsset). ¬ (x.id ≡ y.id)) xs k d.0 e in
    ground (arith, other, str_eq_iff x.id a.id, find_asset-get (i + 1) xs k d.1 e)

pub find_event-get :
    (i : ℕ) (xs : List EdgeEvent) (k : ℕ) {a : EdgeEvent}
    → Distinct (λ x y. x.id ≡ y.id) xs
    → get_elem? xs k ≡ some a
    → find_event_from i xs a.id ≡ i + k
unfolding find_event_from
find_event-get i [] k d e = absurd (ground arith)
find_event-get i (x ∷ xs) zero {a} d e =
    let same : x.id ≡ a.id = ground arith in ground (arith, same, str_eq_iff a.id a.id)
find_event-get i (x ∷ xs) (suc k) {a} d e =
    let other = All-get (λ (y : EdgeEvent). ¬ (x.id ≡ y.id)) xs k d.0 e in
    ground (arith, other, str_eq_iff x.id a.id, find_event-get (i + 1) xs k d.1 e)

pub find_node-get :
    (i : ℕ) (xs : List EdgeNode) (k : ℕ) {a : EdgeNode}
    → Distinct (λ x y. (x.asset_index ≡ y.asset_index) × (x.id ≡ y.id)) xs
    → get_elem? xs k ≡ some a
    → find_node_from i xs a.asset_index a.id ≡ i + k
unfolding find_node_from
find_node-get i [] k d e = absurd (ground arith)
find_node-get i (x ∷ xs) zero {a} d e =
    let id : x.id ≡ a.id = ground arith in
    let index : x.asset_index ≡ a.asset_index = ground arith in
    ground (arith, id, index, str_eq_iff a.id a.id)
find_node-get i (x ∷ xs) (suc k) {a} d e =
    let other =
      All-get (λ (y : EdgeNode). ¬ ((x.asset_index ≡ y.asset_index) × (x.id ≡ y.id))) xs k d.0 e in
    ground (arith, other, str_eq_iff x.id a.id, find_node-get (i + 1) xs k d.1 e)
