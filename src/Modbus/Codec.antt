-- ===== src/Modbus/Codec.antt =====
-- src/edge_modbus.c: packing a value and applying the registers undo one another.
use opcua_edge.Base.{ℕ, ◌*◌, ◌+◌, ◌/◌, ◌%◌, ◌^◌, ◌<◌, ◌≡◌, refl, arith, if◌then◌else◌, ◌==◌}
use opcua_edge.Types.{EdgeDataType, bool, int16, int32, uint32, double, EdgeNode, low, set_low}
use opcua_edge.Double.{Fpu}
use opcua_edge.Value.{as_double, edge_node_as_double}
use opcua_edge.Modbus.Registers.{
  register_width, register_width_for_node, applied, apply_registers_to_node, packed, pack_double,
  pack_node_to_registers,
}

-- The types whose value the registers hold exactly.
pub data IsInteger : EdgeDataType → Type 0 where
  is_int16 : IsInteger int16
  is_int32 : IsInteger int32
  is_uint32 : IsInteger uint32

low-set_low_16 : (v x : ℕ) → x < 2 ^ 16 → low 16 (set_low 16 v x) ≡ x
low-set_low_16 v x h = omega arith

low-set_low_32 : (v x : ℕ) → x < 2 ^ 32 → low 32 (set_low 32 v x) ≡ x
low-set_low_32 v x h = omega arith

abbrev join : ℕ × ℕ × ℕ → ℕ
join (w, hi, lo) = hi * 2 ^ 16 + lo

halves : (v : ℕ) → low 32 v / 2 ^ 16 % 2 ^ 16 * 2 ^ 16 + low 32 v % 2 ^ 16 ≡ low 32 v
halves v = omega arith

applied-packed :
    (fpu : Fpu) {t : EdgeDataType} (scale scale' v old : ℕ)
    → IsInteger t
    → let (w, r0, r1) = packed fpu t scale v in
      as_double t (applied fpu t scale' old r0 r1) ≡ as_double t v
unfolding packed applied as_double
applied-packed fpu scale scale' v old is_int16 = rw (low-set_low_16 old (low 16 v) (omega arith))
applied-packed fpu scale scale' v old is_int32 =
    rw (halves v, low-set_low_32 old (low 32 v) (omega arith))
applied-packed fpu scale scale' v old is_uint32 =
    rw (halves v, low-set_low_32 old (low 32 v) (omega arith))

-- For an integer node, writing its value to the registers and reading these back into a node of
-- the same type restores the value, whatever the node held in between.
pub apply_registers-pack_node :
    (fpu : Fpu) (node other : EdgeNode)
    → IsInteger node.data_type
    → other.data_type ≡ node.data_type
    → let (w, r0, r1) = pack_node_to_registers fpu node in
      edge_node_as_double (apply_registers_to_node fpu other r0 r1) ≡ edge_node_as_double node
unfolding pack_node_to_registers apply_registers_to_node edge_node_as_double
apply_registers-pack_node fpu node other h same =
    rw same (applied-packed fpu node.scale other.scale node.value other.value h)

packed-applied_32 :
    (v r0 r1 : ℕ)
    → r0 < 2 ^ 16
    → r1 < 2 ^ 16
    → (low 32 (set_low 32 v (r0 * 2 ^ 16 + r1)) / 2 ^ 16 % 2 ^ 16 ≡ r0)
      × (low 32 (set_low 32 v (r0 * 2 ^ 16 + r1)) % 2 ^ 16 ≡ r1)
packed-applied_32 v r0 r1 h k = omega arith

packed-applied :
    (fpu : Fpu) {t : EdgeDataType} (scale scale' old r0 r1 : ℕ)
    → IsInteger t
    → r0 < 2 ^ 16
    → r1 < 2 ^ 16
    → packed fpu t scale (applied fpu t scale' old r0 r1)
      ≡ (register_width t, r0, if register_width t == 2 then r1 else 0)
unfolding packed applied register_width
packed-applied fpu scale scale' old r0 r1 is_int16 h k = rw (low-set_low_16 old r0 h)
packed-applied fpu scale scale' old r0 r1 is_int32 h k =
    let (a, b) = packed-applied_32 old r0 r1 h k in λ i. (2, a i, b i)
packed-applied fpu scale scale' old r0 r1 is_uint32 h k =
    let (a, b) = packed-applied_32 old r0 r1 h k in λ i. (2, a i, b i)

-- What is read from the registers of an integer node, each below 2^16, is written back unchanged: the packed width
-- is the width that is read, and the packed words are the words read.
pub pack_node-apply_registers :
    (fpu : Fpu) (node : EdgeNode) (raw0 raw1 : ℕ)
    → IsInteger node.data_type
    → raw0 < 2 ^ 16
    → raw1 < 2 ^ 16
    → pack_node_to_registers fpu (apply_registers_to_node fpu node raw0 raw1)
      ≡ (register_width_for_node node, raw0, if register_width_for_node node == 2 then raw1 else 0)
unfolding pack_node_to_registers apply_registers_to_node register_width_for_node
pack_node-apply_registers fpu node raw0 raw1 h k l =
    packed-applied fpu node.scale node.scale node.value raw0 raw1 h k l

width_lem :
    (fpu : Fpu) (t : EdgeDataType) (scale v : ℕ) → (packed fpu t scale v).0 ≡ register_width t
unfolding packed register_width
width_lem fpu int32 scale v = refl
width_lem fpu _ scale v = refl

first_lt : (fpu : Fpu) (t : EdgeDataType) (scale v : ℕ) → (packed fpu t scale v).1 < 2 ^ 16
unfolding packed pack_double
first_lt fpu bool scale v = ground arith
first_lt fpu double scale v = ground arith
first_lt fpu _ scale v = omega arith

second_lt : (fpu : Fpu) (t : EdgeDataType) (scale v : ℕ) → (packed fpu t scale v).2 < 2 ^ 16
unfolding packed
second_lt fpu int32 scale v = omega arith
second_lt fpu _ scale v = omega arith

-- For every type, the width that `pack_node_to_registers` returns is the one that
-- `register_width_for_node` says, and its two registers are below 2^16.
pub pack_node-fits :
    (fpu : Fpu) (node : EdgeNode)
    → let (width, value0, value1) = pack_node_to_registers fpu node in
      (width ≡ register_width_for_node node) × (value0 < 2 ^ 16) × (value1 < 2 ^ 16)
unfolding pack_node_to_registers register_width_for_node
pack_node-fits fpu node = (
  width_lem fpu node.data_type node.scale node.value,
  first_lt fpu node.data_type node.scale node.value,
  second_lt fpu node.data_type node.scale node.value,
)
