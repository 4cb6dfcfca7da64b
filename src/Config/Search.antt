-- ===== src/Config/Search.antt =====
-- src/edge_config.c: what the linear searches return, and what the checking loops establish.
use opcua_edge.Base.{
  ℕ, suc, ◌+◌, ◌≡◌, ◌≢◌, ◌⊎◌, inl, inr, refl, Bool, true, false, ◌&&◌, some, List, [], ◌∷◌, arith,
  get_elem?, All, Distinct, Bool-cases, Bytes, str_eq, str_eq_iff, ◌==◌,
}
use opcua_edge.Types.{EdgeStatus, ok, EdgeNode, EdgeAsset, EdgeEvent, edge_invalid_index}
use opcua_edge.Config.Validate.{
  find_asset_from, find_event_from, find_node_from, none_of, no_clash, and_then,
}

-- A search from index `i` fails and nothing satisfies `P`, or returns the index of an element
-- that does.
abbrev pub Searched {ℓ κ} : {A : Type ℓ} → (A → Type κ) → ℕ → List A → ℕ → Type (ℓ ⊔ κ)
Searched {A} P i xs r =
    ((r ≡ edge_invalid_index) × All (λ x. ¬ P x) xs)
    ⊎ ((k : ℕ) × (x : A) × (r ≡ i + k) × (get_elem? xs k ≡ some x) × P x)

Searched-here {ℓ κ} :
    {A : Type ℓ} (P : A → Type κ) (i : ℕ) (x : A) (xs : List A) → P x → Searched P i (x ∷ xs) i
Searched-here P i x xs p = inr (0, x, omega arith, refl, p)

Searched-there {ℓ κ} :
    {A : Type ℓ} (P : A → Type κ) (i : ℕ) (x : A) (xs : List A) (r : ℕ)
    → ¬ P x
    → Searched P (i + 1) xs r
    → Searched P i (x ∷ xs) r
Searched-there P i x xs r n (inl (e, h)) = inl (e, (n, h))
Searched-there P i x xs r n (inr (k, y, e, g, p)) = inr (suc k, y, omega arith, g, p)

str_ne : (a b : Bytes) → str_eq a b ≡ false → a ≢ b
str_ne a b h e = ground (arith, str_eq_iff a b)

pub find_asset-Searched :
    (i : ℕ) (assets : List EdgeAsset) (id : Bytes)
    → Searched (λ a. a.id ≡ id) i assets (find_asset_from i assets id)
unfolding find_asset_from
find_asset-Searched i [] id = inl (refl, tt)
find_asset-Searched i (a ∷ rest) id = elim (Bool-cases (str_eq a.id id)) [
  | inl e ↦ rw e (Searched-here (λ x. x.id ≡ id) i a rest ((str_eq_iff a.id id).0 e))
  | inr e ↦ rw e (
      Searched-there (λ x. x.id ≡ id) i a rest _ (str_ne a.id id e)
        (find_asset-Searched (i + 1) rest id))
]

pub find_event-Searched :
    (i : ℕ) (events : List EdgeEvent) (id : Bytes)
    → Searched (λ a. a.id ≡ id) i events (find_event_from i events id)
unfolding find_event_from
find_event-Searched i [] id = inl (refl, tt)
find_event-Searched i (a ∷ rest) id = elim (Bool-cases (str_eq a.id id)) [
  | inl e ↦ rw e (Searched-here (λ x. x.id ≡ id) i a rest ((str_eq_iff a.id id).0 e))
  | inr e ↦ rw e (
      Searched-there (λ x. x.id ≡ id) i a rest _ (str_ne a.id id e)
        (find_event-Searched (i + 1) rest id))
]

abbrev pub IsNodeOf : ℕ → Bytes → EdgeNode → Type 0
IsNodeOf index id n = (n.asset_index ≡ index) × (n.id ≡ id)

IsNodeOf-iff :
    (index : ℕ) (id : Bytes) (n : EdgeNode)
    → ((n.asset_index == index && str_eq n.id id) ≡ true → IsNodeOf index id n)
      × ((n.asset_index == index && str_eq n.id id) ≡ false → ¬ IsNodeOf index id n)
IsNodeOf-iff index id n =
    (λ h. ground (arith, str_eq_iff n.id id), λ h p. ground (arith, str_eq_iff n.id id))

pub find_node-Searched :
    (i : ℕ) (nodes : List EdgeNode) (index : ℕ) (id : Bytes)
    → Searched (IsNodeOf index id) i nodes (find_node_from i nodes index id)
unfolding find_node_from
find_node-Searched i [] index id = inl (refl, tt)
find_node-Searched i (n ∷ rest) index id =
    let test = n.asset_index == index && str_eq n.id id in
    elim (Bool-cases test) [
      | inl e ↦ rw e (Searched-here (IsNodeOf index id) i n rest ((IsNodeOf-iff index id n).0 e))
      | inr e ↦ rw e (
          Searched-there (IsNodeOf index id) i n rest _ ((IsNodeOf-iff index id n).1 e)
            (find_node-Searched (i + 1) rest index id))
    ]

-- A chain of checks passes when each of them does.
pub and_then-ok : (a b : EdgeStatus) → and_then a b ≡ ok → (a ≡ ok) × (b ≡ ok)
and_then-ok ok b h = (refl, h)
and_then-ok _ b h = (h, ground arith)

pub none_of-ok {ℓ} :
    {A : Type ℓ} (test : A → Bool) (xs : List A)
    → none_of test xs ≡ ok
    → All (λ x. test x ≡ false) xs
unfolding none_of
none_of-ok test [] h = tt
none_of-ok test (x ∷ xs) h = elim (Bool-cases (test x)) [
  | inl e ↦ absurd (ground arith)
  | inr e ↦ (e, none_of-ok test xs (rw e at h))
]

-- The double loop compares every two elements.
pub no_clash-Distinct {ℓ} :
    {A : Type ℓ} (clash : A → A → Bool) (xs : List A)
    → no_clash clash xs ≡ ok
    → Distinct (λ x y. clash x y ≡ true) xs
unfolding no_clash
no_clash-Distinct clash [] h = tt
no_clash-Distinct clash (x ∷ xs) h =
    let (first, rest) = and_then-ok (none_of (clash x) xs) (no_clash clash xs) h in
    (All_not (clash x) xs (none_of-ok (clash x) xs first), no_clash-Distinct clash xs rest)
  where
    All_not :
        {B : Type ℓ} (test : B → Bool) (ys : List B)
        → All (λ y. test y ≡ false) ys
        → All (λ y. ¬ (test y ≡ true)) ys
    All_not test [] g = tt
    All_not test (y ∷ ys) g = (λ e. ground arith, All_not test ys g.1)
