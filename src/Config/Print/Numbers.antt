-- ===== src/Config/Print/Numbers.antt =====
-- src/edge_config.c: numbers written out in decimal and read back.
use native.Mathlib.Nat.{pow-suc}
use opcua_edge.Base.{
  ℕ, zero, suc, ◌+◌, ◌-◌, ◌*◌, ◌/◌, ◌%◌, ◌^◌, ◌<◌, ◌≤◌, ◌≡◌, ◌≢◌, refl, ap, true, false, [], ◌∷◌,
  arith, length, All, Bytes, ltb, if◌then◌else◌,
}
use opcua_edge.Types.{ok}
use opcua_edge.Config.Fields.{
  skip_spaces, is_digit, digits_value, skip_digits, starts_with_digit, convert, signed_convert,
  strtoul, parse_bounded,
}
use opcua_edge.Config.Print.{Plain, Text}

-- The digits of a number, `fuel` of them at most, in front of a text.
pub digits : ℕ → ℕ → Bytes → Bytes
digits zero n behind = behind
digits (suc fuel) n behind =
    let more = digits fuel (n / 10) ((48 + n % 10) ∷ behind) in
    if ltb n 10 then (48 + n) ∷ behind else more

-- Ten digits are enough for 32 bits.
pub decimal : ℕ → Bytes
unfolding digits
decimal n = digits 10 n []

abbrev AllDigits : Bytes → Type 0
AllDigits s = All (λ c. is_digit c ≡ true) s

digits-AllDigits :
    (fuel n : ℕ) (behind : Bytes) → AllDigits behind → AllDigits (digits fuel n behind)
unfolding digits
digits-AllDigits zero n behind h = h
digits-AllDigits (suc fuel) n behind h =
    ground (arith, digits-AllDigits fuel (n / 10) ((48 + n % 10) ∷ behind) (ground arith, h))

digits_value-digits :
    (fuel n : ℕ) (behind : Bytes)
    → n < 10 ^ suc fuel
    → digits_value 0 (digits (suc fuel) n behind) ≡ digits_value n behind
unfolding digits digits_value
digits_value-digits zero n behind h = ground arith
digits_value-digits (suc fuel) n behind h =
    let small : n / 10 < 10 ^ suc fuel = omega (arith, pow-suc 10 (suc fuel)) in
    let later = digits_value-digits fuel (n / 10) ((48 + n % 10) ∷ behind) small in
    let joined : n / 10 * 10 + (48 + n % 10 - 48) ≡ n = omega arith in
    let digit : is_digit (48 + n % 10) ≡ true = ground arith in
    ground (arith, later, ap (λ (k : ℕ). digits_value k behind) joined, digit)

length-digits : (fuel n : ℕ) (behind : Bytes) → length (digits fuel n behind) ≤ fuel + length behind
unfolding digits
length-digits zero n behind = omega arith
length-digits (suc fuel) n behind =
    ground (arith, length-digits fuel (n / 10) ((48 + n % 10) ∷ behind))

digits-some : (fuel n : ℕ) (behind : Bytes) → digits (suc fuel) n behind ≢ []
unfolding digits
digits-some zero n behind e = ground arith
digits-some (suc fuel) n behind e =
    ground (arith, digits-some fuel (n / 10) ((48 + n % 10) ∷ behind))

digits-Plain : (s : Bytes) → AllDigits s → Plain s
digits-Plain [] h = tt
digits-Plain (c ∷ cs) h = (ground (arith, h.0), digits-Plain cs h.1)

skip_digits-digits : (s : Bytes) → AllDigits s → skip_digits s ≡ []
unfolding skip_digits
skip_digits-digits [] h = refl
skip_digits-digits (c ∷ cs) h = ground (arith, h.0, skip_digits-digits cs h.1)

strtoul-digits :
    (s : Bytes) (n : ℕ)
    → s ≢ []
    → AllDigits s
    → digits_value 0 s ≡ n
    → n < 2 ^ 64
    → strtoul s ≡ record { value = n; out_of_range = false; converted = true; rest = [] }
unfolding strtoul signed_convert skip_spaces convert starts_with_digit
strtoul-digits [] n full h e small = absurd (full refl)
strtoul-digits (c ∷ cs) n full h e small = ground (arith, h.0, e, skip_digits-digits (c ∷ cs) h)

decimal-AllDigits : (n : ℕ) → AllDigits (decimal n)
unfolding decimal
decimal-AllDigits n = digits-AllDigits 10 n [] tt

pub decimal-Text : (n : ℕ) → Text 11 (decimal n)
unfolding decimal
decimal-Text n = (
  digits-some 9 n [],
  omega (arith, length-digits 10 n []),
  digits-Plain (decimal n) (decimal-AllDigits n),
)

-- A number is read back from its digits, whatever stood in the field before.
pub parse_bounded-decimal :
    (max n v : ℕ) → n ≤ max → max < 2 ^ 32 → parse_bounded max (decimal n) v ≡ (ok, n)
unfolding parse_bounded decimal digits_value
parse_bounded-decimal max n v h k =
    let read =
      strtoul-digits (decimal n) n (decimal-Text n).0 (decimal-AllDigits n)
        (digits_value-digits 9 n [] (omega arith)) (omega arith) in
    ground (arith, read)
