-- ===== src/Modbus/Registers.antt =====
-- src/edge_modbus.c: values and holding registers. A register is its 16 bits as a number.
use opcua_edge.Base.{ℕ, ◌+◌, ◌*◌, ◌/◌, ◌%◌, ◌^◌, not, if◌then◌else◌, ◌==◌}
use opcua_edge.Types.{
  EdgeDataType, unset_type, bool, int16, int32, uint32, double, EdgeNode, low, set_low,
}
use opcua_edge.Double.{Fpu, is_finite, is_zero, less, of_signed, to_signed, one, half}

unfoldable pub register_width : EdgeDataType → ℕ
register_width int32 = 2
register_width uint32 = 2
register_width _ = 1

unfoldable pub register_width_for_node : EdgeNode → ℕ
unfolding register_width
register_width_for_node node = register_width node.data_type

-- `scale != 0.0 ? scale : 1.0`
abbrev pub effective_scale : ℕ → ℕ
effective_scale scale = if is_zero scale then one else scale

-- The switch of `apply_registers_to_node`: the union's new bits. The high word comes first.
unfoldable pub applied : Fpu → EdgeDataType → ℕ → ℕ → ℕ → ℕ → ℕ
applied fpu bool scale v raw0 raw1 = set_low 8 v (raw0 % 2)
applied fpu int16 scale v raw0 raw1 = set_low 16 v raw0
applied fpu int32 scale v raw0 raw1 = set_low 32 v (raw0 * 2 ^ 16 + raw1)
applied fpu uint32 scale v raw0 raw1 = set_low 32 v (raw0 * 2 ^ 16 + raw1)
applied fpu double scale v raw0 raw1 = fpu.mul (of_signed 16 raw0) (effective_scale scale)
applied fpu unset_type scale v raw0 raw1 = v

unfoldable pub apply_registers_to_node : Fpu → EdgeNode → ℕ → ℕ → EdgeNode
unfolding applied
apply_registers_to_node fpu node raw0 raw1 = record node {
  value = applied fpu node.data_type node.scale node.value raw0 raw1;
}

-- A double as one register: divided by the scale, rounded half away from zero to a long, and cut
-- to its low 16 bits.
unfoldable pub pack_double : Fpu → ℕ → ℕ → ℕ
pack_double fpu scale d =
    let engineering = fpu.div d (effective_scale scale) in
    if not (is_finite engineering)
    then 0
    else to_signed fpu 64
        (if less engineering 0 then fpu.sub engineering half else fpu.add engineering half)
      % 2 ^ 16

-- The width and the two registers; the second is left 0 where one is used.
unfoldable pub packed : Fpu → EdgeDataType → ℕ → ℕ → ℕ × ℕ × ℕ
unfolding pack_double
packed fpu bool scale v = (1, if low 8 v == 0 then 0 else 1, 0)
packed fpu int16 scale v = (1, low 16 v, 0)
packed fpu int32 scale v = (2, low 32 v / 2 ^ 16 % 2 ^ 16, low 32 v % 2 ^ 16)
packed fpu uint32 scale v = (2, low 32 v / 2 ^ 16 % 2 ^ 16, low 32 v % 2 ^ 16)
packed fpu double scale v = (1, pack_double fpu scale v, 0)
packed fpu unset_type scale v = (1, 0, 0)

unfoldable pub pack_node_to_registers : Fpu → EdgeNode → ℕ × ℕ × ℕ
unfolding packed
pack_node_to_registers fpu node = packed fpu node.data_type node.scale node.value
