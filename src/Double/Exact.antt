-- ===== src/Double/Exact.antt =====
-- Conversions of integers to doubles and back, which are exact below 2^53.
use native.Mathlib.Nat.{pow-suc, one-le-pow, mul-div_cancel}
use opcua_edge.Base.{
  ℕ, zero, suc, ◌+◌, ◌-◌, ◌*◌, ◌^◌, ◌<◌, ◌≤◌, ◌≡◌, refl, ap, ◌∙◌, inl, inr, true, false, arith,
  Bool-cases, ltb, leb, ◌==◌,
}
use opcua_edge.Double.{
  Fpu, exponent, fraction, is_finite, is_negative, normalise, of_nat, of_signed, truncated, negated,
  to_signed, to_unsigned,
}

-- `d` has the significand m * 2^s at the exponent e - s, which is normal.
record Normal (fuel m e d : ℕ) : Type 0 where
  pub s : ℕ
  pub steps : s ≤ fuel
  pub bits : d ≡ (e - s) * 2 ^ 52 + (m * 2 ^ s - 2 ^ 52)
  pub least : 2 ^ 52 ≤ m * 2 ^ s
  pub most : m * 2 ^ s < 2 ^ 53

product_twice : (m s : ℕ) → m * 2 ^ suc s ≡ 2 * m * 2 ^ s
product_twice m s = ap (λ (p : ℕ). m * p) (pow-suc 2 s) ∙ omega arith

normalise-Normal :
    (fuel m e : ℕ)
    → 2 ^ 52 ≤ m * 2 ^ fuel
    → m < 2 ^ 53
    → fuel ≤ e
    → Normal fuel m e (normalise fuel m e)
unfolding normalise
normalise-Normal zero m e big small room = record {
  s = 0;
  steps = omega arith;
  bits = omega arith;
  least = omega (arith, big);
  most = omega arith;
}
normalise-Normal (suc fuel) m e big small room = elim (Bool-cases (ltb m (2 ^ 52))) [
  | inl below ↦
      let n =
        normalise-Normal fuel (2 * m) (e - 1) (omega (arith, big, product_twice m fuel))
          (ground arith) (omega arith) in
      let twice = product_twice m n.s in
      rw below (record {
        s = suc n.s;
        steps = omega (arith, n.steps);
        bits = n.bits ∙ omega (arith, twice, n.steps);
        least = omega (arith, n.least, twice);
        most = omega (arith, n.most, twice);
      })
  | inr above ↦ rw above (record {
    s = 0;
    steps = omega arith;
    bits = omega arith;
    least = ground arith;
    most = omega arith;
  })
]

-- The fields of the double of a positive number below 2^53.
record Fields (n d : ℕ) : Type 0 where
  pub s : ℕ
  pub steps : s ≤ 52
  pub its_exponent : exponent d ≡ 1075 - s
  pub its_fraction : fraction d ≡ n * 2 ^ s - 2 ^ 52
  pub significand : 2 ^ 52 ≤ n * 2 ^ s
  pub positive : d < 2 ^ 63

scaled_le : (n : ℕ) → 0 < n → 2 ^ 52 ≤ n * 2 ^ 52
scaled_le n h = omega arith

of_nat-Fields : (n : ℕ) → 0 < n → n < 2 ^ 53 → Fields n (of_nat n)
unfolding of_nat
of_nat-Fields n h k =
    let d = normalise-Normal 52 n 1075 (omega arith) k (omega arith) in
    let not_zero : (n == 0) ≡ false = ground arith in
    rw not_zero (record {
      s = d.s;
      steps = d.steps;
      its_exponent = omega (arith, d.bits, d.steps, d.least, d.most);
      its_fraction = omega (arith, d.bits, d.steps, d.least, d.most);
      significand = d.least;
      positive = omega (arith, d.bits, d.steps, d.least, d.most);
    })

pow_pos : (s : ℕ) → 0 < 2 ^ s
pow_pos s = one-le-pow s 2 (omega arith)

truncated-Fields : (n d : ℕ) → Fields n d → truncated d ≡ n
unfolding truncated
truncated-Fields n d f =
    let e : 1075 - exponent d ≡ f.s = omega (arith, f.its_exponent, f.steps) in
    let m : 2 ^ 52 + fraction d ≡ n * 2 ^ f.s = omega (arith, f.its_fraction, f.significand) in
    let low_enough : ltb (exponent d) 1023 ≡ false = ground (arith, f.its_exponent, f.steps) in
    let high_enough : leb (exponent d) 1075 ≡ true = ground (arith, f.its_exponent, f.steps) in
    rw (low_enough, high_enough, m, e) (mul-div_cancel n (pow_pos f.s))

truncated-of_nat : (n : ℕ) → n < 2 ^ 53 → truncated (of_nat n) ≡ n
unfolding of_nat truncated
truncated-of_nat zero h = refl
truncated-of_nat (suc n) h =
    truncated-Fields (suc n) (of_nat (suc n)) (of_nat-Fields (suc n) (omega arith) h)

pub of_nat-finite :
    (n : ℕ) → n < 2 ^ 53 → (is_finite (of_nat n) ≡ true) × (is_negative (of_nat n) ≡ false)
unfolding is_finite of_nat
of_nat-finite zero h = (refl, refl)
of_nat-finite (suc n) h =
    let f = of_nat-Fields (suc n) (omega arith) h in
    (ground (arith, f.its_exponent), ground (arith, f.positive))

-- The sign bit set.
signed_fields :
    (d : ℕ)
    → d < 2 ^ 63
    → (exponent (2 ^ 63 + d) ≡ exponent d)
      × (fraction (2 ^ 63 + d) ≡ fraction d)
      × (is_negative (2 ^ 63 + d) ≡ true)
signed_fields d h = (omega arith, omega arith, ground arith)

truncated-signed : (d : ℕ) → d < 2 ^ 63 → truncated (2 ^ 63 + d) ≡ truncated d
unfolding truncated
truncated-signed d h = let (e, f, _) = signed_fields d h in rw (e, f) refl

of_nat-lt : (n : ℕ) → n < 2 ^ 53 → of_nat n < 2 ^ 63
unfolding of_nat
of_nat-lt zero h = omega arith
of_nat-lt (suc n) h = (of_nat-Fields (suc n) (omega arith) h).positive

pub of_signed-finite :
    (w x : ℕ) → x < 2 ^ 53 → 2 ^ w - x < 2 ^ 53 → is_finite (of_signed w x) ≡ true
unfolding of_signed is_finite
of_signed-finite w x h k = elim (Bool-cases (ltb x (2 ^ (w - 1)))) [
  | inl e ↦ rw e (of_nat-finite x h).0
  | inr e ↦
      let (same, _, _) = signed_fields (of_nat (2 ^ w - x)) (of_nat-lt (2 ^ w - x) k) in
      rw (e, same) (of_nat-finite (2 ^ w - x) k).0
]

-- What a signed integer of 16 or 32 bits is read back as from its double.
module _ (fpu : Fpu) where
  nonnegative_back : (w x : ℕ) → x < 2 ^ 53 → x < 2 ^ (w - 1) → to_signed fpu w (of_nat x) ≡ x
  unfolding to_signed
  nonnegative_back w x h k =
      let (finite, sign) = of_nat-finite x h in
      let back = truncated-of_nat x h in ground (arith, finite, sign, back)

  negative_back :
      (w y : ℕ) → y < 2 ^ 53 → y ≤ 2 ^ (w - 1) → to_signed fpu w (2 ^ 63 + of_nat y) ≡ negated w y
  unfolding to_signed is_finite
  negative_back w y h k =
      let (finite, _) = of_nat-finite y h in
      let small = of_nat-lt y h in
      let (e, f, sign) = signed_fields (of_nat y) small in
      let back = truncated-signed (of_nat y) small ∙ truncated-of_nat y h in
      ground (arith, finite, e, sign, back)

  pub to_signed-of_signed_16 : (x : ℕ) → x < 2 ^ 16 → to_signed fpu 16 (of_signed 16 x) ≡ x
  unfolding of_signed negated
  to_signed-of_signed_16 x h = elim (Bool-cases (ltb x (2 ^ 15))) [
    | inl e ↦ rw e (nonnegative_back 16 x (omega arith) (ground arith))
    | inr e ↦ rw e (negative_back 16 (2 ^ 16 - x) (omega arith) (ground arith) ∙ ground arith)
  ]

  pub to_signed-of_signed_32 : (x : ℕ) → x < 2 ^ 32 → to_signed fpu 32 (of_signed 32 x) ≡ x
  unfolding of_signed negated
  to_signed-of_signed_32 x h = elim (Bool-cases (ltb x (2 ^ 31))) [
    | inl e ↦ rw e (nonnegative_back 32 x (omega arith) (ground arith))
    | inr e ↦ rw e (negative_back 32 (2 ^ 32 - x) (omega arith) (ground arith) ∙ ground arith)
  ]

  pub to_unsigned-of_nat : (x : ℕ) → x < 2 ^ 32 → to_unsigned fpu 32 (of_nat x) ≡ x
  unfolding to_unsigned
  to_unsigned-of_nat x h =
      let (finite, sign) = of_nat-finite x (omega arith) in
      ground (arith, finite, sign, truncated-of_nat x (omega arith))
