-- ===== src/Value.antt =====
-- include/edge_value.h: reading a node's value as a double, and setting it from one.
pub mod RoundTrip
use opcua_edge.Base.{ℕ, Bool, true, false, not, if◌then◌else◌}
use opcua_edge.Types.{
  EdgeDataType, unset_type, bool, int16, int32, uint32, double, EdgeNode, low, set_low,
}
use opcua_edge.Double.{Fpu, is_finite, is_zero, of_nat, of_signed, to_signed, to_unsigned}

-- The switch, on the type and the union's bits; with no case for the type it is 0.0.
unfoldable pub as_double : EdgeDataType → ℕ → ℕ
as_double bool v = of_nat (low 8 v)
as_double int16 v = of_signed 16 (low 16 v)
as_double int32 v = of_signed 32 (low 32 v)
as_double uint32 v = of_nat (low 32 v)
as_double double v = low 64 v
as_double unset_type v = 0

unfoldable pub edge_node_as_double : EdgeNode → ℕ
unfolding as_double
edge_node_as_double node = as_double node.data_type node.value

abbrev pub is_double : EdgeDataType → Bool
is_double double = true
is_double _ = false

-- The second switch, for a finite `d`.
unfoldable pub converted : Fpu → EdgeDataType → ℕ → ℕ → ℕ
converted fpu bool v d = set_low 8 v (if is_zero d then 0 else 1)
converted fpu int16 v d = set_low 16 v (to_signed fpu 16 d)
converted fpu int32 v d = set_low 32 v (to_signed fpu 32 d)
converted fpu uint32 v d = set_low 32 v (to_unsigned fpu 32 d)
converted fpu double v d = d
converted fpu unset_type v d = v

unfoldable pub edge_node_set_from_double : Fpu → EdgeNode → ℕ → EdgeNode
edge_node_set_from_double fpu node d =
    if not (is_finite d)
    then record node { value = if is_double node.data_type then d else 0 }
    else record node { value = converted fpu node.data_type node.value d }
