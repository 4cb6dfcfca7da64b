-- ===== src/Double.antt =====
-- The doubles of the program as 64-bit patterns (IEEE 754 binary64): the tests, comparisons and
-- conversions that the C code makes. The four rounding operations, and what the compiled code does
-- for a conversion that the C standard leaves undefined, are the parameter `Fpu`.
pub mod Exact
use opcua_edge.Base.{
  ℕ, zero, suc, ◌+◌, ◌-◌, ◌*◌, ◌/◌, ◌%◌, ◌^◌, Bool, false, not, ◌&&◌, ◌||◌, ltb, leb, ◌==◌,
  if◌then◌else◌,
}

pub record Fpu : Type 0 where
  pub mul : ℕ → ℕ → ℕ
  pub div : ℕ → ℕ → ℕ
  pub add : ℕ → ℕ → ℕ
  pub sub : ℕ → ℕ → ℕ
  -- The bits of the integer of the given width that an out-of-range double is converted to.
  pub undefined_int : ℕ → ℕ → ℕ

abbrev pub exponent : ℕ → ℕ
exponent d = d / 2 ^ 52 % 2 ^ 11

abbrev pub fraction : ℕ → ℕ
fraction d = d % 2 ^ 52

-- All bits but the sign.
abbrev pub magnitude : ℕ → ℕ
magnitude d = d % 2 ^ 63

abbrev pub is_negative : ℕ → Bool
is_negative d = leb (2 ^ 63) d

unfoldable pub is_finite : ℕ → Bool
is_finite d = not (exponent d == 2047)

unfoldable pub is_nan : ℕ → Bool
is_nan d = exponent d == 2047 && not (fraction d == 0)

-- `d == 0.0`, of either sign.
unfoldable pub is_zero : ℕ → Bool
is_zero d = magnitude d == 0

-- `a < b`: false for a NaN, else the order of the signed magnitudes, in which -0.0 is 0.0.
unfoldable pub less : ℕ → ℕ → Bool
less a b =
    if is_nan a || is_nan b
    then false
    else if is_negative a
    then (if is_negative b then ltb (magnitude b) (magnitude a) else not (is_zero a && is_zero b))
    else (if is_negative b then false else ltb (magnitude a) (magnitude b))

-- 1.0, and 0.5 of the rounding in `pack_node_to_registers`.
abbrev pub one : ℕ
one = 0x3ff0000000000000

abbrev pub half : ℕ
half = 0x3fe0000000000000

-- The double with exponent field `e` whose significand is `m`, with 2^52 ≤ m < 2^53 once `m` is
-- normalised by doublings.
unfoldable pub normalise : ℕ → ℕ → ℕ → ℕ
normalise zero m e = e * 2 ^ 52 + (m - 2 ^ 52)
normalise (suc fuel) m e =
    let next = normalise fuel (2 * m) (e - 1) in
    if ltb m (2 ^ 52) then next else e * 2 ^ 52 + (m - 2 ^ 52)

-- The exact conversion of a number below 2^53.
unfoldable pub of_nat : ℕ → ℕ
of_nat n = if n == 0 then 0 else normalise 52 n 1075

-- The exact conversion of a signed integer of `w` bits, given by its bits.
unfoldable pub of_signed : ℕ → ℕ → ℕ
of_signed w x = if ltb x (2 ^ (w - 1)) then of_nat x else 2 ^ 63 + of_nat (2 ^ w - x)

-- The integer part of the magnitude of a finite double.
unfoldable pub truncated : ℕ → ℕ
truncated d =
    if ltb (exponent d) 1023
    then 0
    else if leb (exponent d) 1075
    then (2 ^ 52 + fraction d) / 2 ^ (1075 - exponent d)
    else (2 ^ 52 + fraction d) * 2 ^ (exponent d - 1075)

-- The bits of a negative integer -n of `w` bits.
unfoldable pub negated : ℕ → ℕ → ℕ
negated w n = (2 ^ w - n % 2 ^ w) % 2 ^ w

-- The C conversion to a signed integer of `w` bits, and to an unsigned one. The truncated value
-- has to be in range; -0.5 and the like are 0.
unfoldable pub to_signed : Fpu → ℕ → ℕ → ℕ
to_signed fpu w d =
    let n = truncated d in
    if not (is_finite d) || leb (if is_negative d then 2 ^ (w - 1) + 1 else 2 ^ (w - 1)) n
    then fpu.undefined_int w d % 2 ^ w
    else if is_negative d
    then negated w n
    else n

unfoldable pub to_unsigned : Fpu → ℕ → ℕ → ℕ
to_unsigned fpu w d =
    let n = truncated d in
    if not (is_finite d) || leb (2 ^ w) n || is_negative d && not (n == 0)
    then fpu.undefined_int w d % 2 ^ w
    else n
