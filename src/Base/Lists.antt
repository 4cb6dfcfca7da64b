-- ===== src/Base/Lists.antt =====
-- Lists measured and indexed by native numbers, under the library's names.
use Prim.Native.Nat.{ℕ, zero, suc, ◌+◌, ◌<◌}
use mathlib.Core.Path.{◌≡◌, refl, ap, subst}
use mathlib.Core.Logic.{◌≢◌}
use mathlib.Core.List.{List, [], ◌∷◌, ◌++◌, map}
use mathlib.Core.Option.{Option, none, some}
use native.Mathlib.Omega.{arith}

module _ {ℓ} {A : Type ℓ} where
  abbrev pub length : List A → ℕ
  length [] = 0
  length (x ∷ xs) = suc (length xs)

  abbrev pub get_elem? : List A → ℕ → Option A
  get_elem? [] i = none
  get_elem? (x ∷ xs) zero = some x
  get_elem? (x ∷ xs) (suc i) = get_elem? xs i

  abbrev pub set : List A → ℕ → A → List A
  set [] i v = []
  set (x ∷ xs) zero v = v ∷ xs
  set (x ∷ xs) (suc i) v = x ∷ set xs i v

  pub length-append : (xs ys : List A) → length (xs ++ ys) ≡ length xs + length ys
  length-append [] ys = omega arith
  length-append (x ∷ xs) ys = omega (arith, length-append xs ys)

  -- Every element satisfies `P`.
  abbrev pub All {κ} : (A → Type κ) → List A → Type κ
  All P [] = Unit
  All P (x ∷ xs) = P x × All P xs

  pub All-append {κ} : (P : A → Type κ) (xs ys : List A) → All P xs → All P ys → All P (xs ++ ys)
  All-append P [] ys h k = k
  All-append P (x ∷ xs) ys h k = (h.0, All-append P xs ys h.1 k)

module _ {ℓ} {A : Type ℓ} where
  pub length-set : (xs : List A) (i : ℕ) (v : A) → length (set xs i v) ≡ length xs
  length-set [] i v = refl
  length-set (x ∷ xs) zero v = refl
  length-set (x ∷ xs) (suc i) v = ap suc (length-set xs i v)

  pub get_elem?-set_self :
      (xs : List A) (i : ℕ) (v : A) → i < length xs → get_elem? (set xs i v) i ≡ some v
  get_elem?-set_self [] i v h = elim h [ ]
  get_elem?-set_self (x ∷ xs) zero v h = refl
  get_elem?-set_self (x ∷ xs) (suc i) v h = get_elem?-set_self xs i v (omega arith)

  pub get_elem?-set_ne :
      (xs : List A) {i j : ℕ} (v : A) → i ≢ j → get_elem? (set xs i v) j ≡ get_elem? xs j
  get_elem?-set_ne [] v h = refl
  get_elem?-set_ne (x ∷ xs) {i = zero} {j = zero} v h = absurd (h refl)
  get_elem?-set_ne (x ∷ xs) {i = zero} {j = suc j} v h = refl
  get_elem?-set_ne (x ∷ xs) {i = suc i} {j = zero} v h = refl
  get_elem?-set_ne (x ∷ xs) {i = suc i} {j = suc j} v h = get_elem?-set_ne xs v (λ e. h (ap suc e))

  pub get_elem?-lt : (xs : List A) (i : ℕ) {x : A} → get_elem? xs i ≡ some x → i < length xs
  get_elem?-lt [] i h = ground arith
  get_elem?-lt (y ∷ xs) zero h = omega arith
  get_elem?-lt (y ∷ xs) (suc i) h = omega (arith, get_elem?-lt xs i h)

  pub get_elem?-some : (xs : List A) (i : ℕ) → i < length xs → (x : A) × (get_elem? xs i ≡ some x)
  get_elem?-some [] i h = elim h [ ]
  get_elem?-some (x ∷ xs) zero h = (x, refl)
  get_elem?-some (x ∷ xs) (suc i) h = get_elem?-some xs i (omega arith)

  pub All-get {κ} :
      (P : A → Type κ) (xs : List A) (i : ℕ) {x : A} → All P xs → get_elem? xs i ≡ some x → P x
  All-get P [] i h e = absurd (ground arith)
  All-get P (y ∷ xs) zero h e = subst P (ground arith) h.0
  All-get P (y ∷ xs) (suc i) h e = All-get P xs i h.1 e

  pub All-set {κ} :
      (P : A → Type κ) (xs : List A) (i : ℕ) (v : A) → All P xs → P v → All P (set xs i v)
  All-set P [] i v h p = tt
  All-set P (x ∷ xs) zero v h p = (p, h.1)
  All-set P (x ∷ xs) (suc i) v h p = (h.0, All-set P xs i v h.1 p)

-- `P i x` for the element `x` at each index, the list's first index being given.
module _ {ℓ} {A : Type ℓ} where
  abbrev pub AllFrom {κ} : (ℕ → A → Type κ) → ℕ → List A → Type κ
  AllFrom P i [] = Unit
  AllFrom P i (x ∷ xs) = P i x × AllFrom P (i + 1) xs

  -- No two elements are related, each being tested against those behind it.
  abbrev pub Distinct {κ} : (A → A → Type κ) → List A → Type κ
  Distinct R [] = Unit
  Distinct R (x ∷ xs) = All (λ y. ¬ R x y) xs × Distinct R xs

module _ {ℓ} {A : Type ℓ} where
  pub AllFrom-get {κ} :
      (P : ℕ → A → Type κ) (i : ℕ) (xs : List A) (k : ℕ) {x : A}
      → AllFrom P i xs
      → get_elem? xs k ≡ some x
      → P (i + k) x
  AllFrom-get P i [] k h e = absurd (ground arith)
  AllFrom-get P i (y ∷ xs) zero {x} h e =
      subst (λ (n : ℕ). P n x) (omega arith) (subst (P i) (ground arith) h.0)
  AllFrom-get P i (y ∷ xs) (suc k) {x} h e =
      subst (λ (n : ℕ). P n x) (omega arith) (AllFrom-get P (i + 1) xs k h.1 e)

  pub get_elem?-map {κ} :
      {B : Type κ} (f : A → B) (xs : List A) (k : ℕ) {x : A}
      → get_elem? xs k ≡ some x
      → get_elem? (map f xs) k ≡ some (f x)
  get_elem?-map f [] k e = absurd (ground arith)
  get_elem?-map f (y ∷ xs) zero e = ground arith
  get_elem?-map f (y ∷ xs) (suc k) e = get_elem?-map f xs k e

  pub length-map {κ} : {B : Type κ} (f : A → B) (xs : List A) → length (map f xs) ≡ length xs
  length-map f [] = refl
  length-map f (x ∷ xs) = ap suc (length-map f xs)

  pub All-map {κ μ} :
      {B : Type κ} (P : B → Type μ) (f : A → B) (xs : List A)
      → All (λ x. P (f x)) xs
      → All P (map f xs)
  All-map P f [] h = tt
  All-map P f (x ∷ xs) h = (h.0, All-map P f xs h.1)

  pub All-imp {κ μ} :
      (P : A → Type κ) (Q : A → Type μ) (xs : List A) → ((x : A) → P x → Q x) → All P xs → All Q xs
  All-imp P Q [] f h = tt
  All-imp P Q (x ∷ xs) f h = (f x h.0, All-imp P Q xs f h.1)

  pub AllFrom-map {κ μ} :
      {B : Type κ} (P : ℕ → B → Type μ) (f : A → B) (i : ℕ) (xs : List A)
      → AllFrom (λ k x. P k (f x)) i xs
      → AllFrom P i (map f xs)
  AllFrom-map P f i [] h = tt
  AllFrom-map P f i (x ∷ xs) h = (h.0, AllFrom-map P f (i + 1) xs h.1)

  pub AllFrom-imp {κ μ} :
      (P : ℕ → A → Type κ) (Q : ℕ → A → Type μ) (i : ℕ) (xs : List A)
      → ((k : ℕ) (x : A) → P k x → Q k x)
      → AllFrom P i xs
      → AllFrom Q i xs
  AllFrom-imp P Q i [] f h = tt
  AllFrom-imp P Q i (x ∷ xs) f h = (f i x h.0, AllFrom-imp P Q (i + 1) xs f h.1)

  -- A relation that implies another through `f` keeps elements distinct.
  pub Distinct-map {κ μ ν} :
      {B : Type κ} (R : A → A → Type μ) (S : B → B → Type ν) (f : A → B) (xs : List A)
      → ((x y : A) → S (f x) (f y) → R x y)
      → Distinct R xs
      → Distinct S (map f xs)
  Distinct-map R S f [] h d = tt
  Distinct-map R S f (x ∷ xs) h d = (
    All-map (λ y. ¬ S (f x) y) f xs
        (All-imp (λ y. ¬ R x y) (λ y. ¬ S (f x) (f y)) xs (λ y n s. n (h x y s)) d.0),
    Distinct-map R S f xs h d.1,
  )

  pub Distinct-imp {κ μ} :
      (R : A → A → Type κ) (S : A → A → Type μ) (xs : List A)
      → ((x y : A) → S x y → R x y)
      → Distinct R xs
      → Distinct S xs
  Distinct-imp R S [] h d = tt
  Distinct-imp R S (x ∷ xs) h d = (
    All-imp (λ y. ¬ R x y) (λ y. ¬ S x y) xs (λ y n s. n (h x y s)) d.0,
    Distinct-imp R S xs h d.1,
  )
