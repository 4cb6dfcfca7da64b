-- ===== src/Store/Naming.antt =====
-- src/edge_store.c: which nodes share a key "node:<asset>.<id>".
use opcua_edge.Base.{
  ℕ, ◌≡◌, ◌≢◌, refl, ap, false, [], ◌∷◌, ◌++◌, arith, All, Bytes, codes, str_eq, str_eq_iff, length,
  length-append, Bool-cases, inl, inr,
}
use opcua_edge.Types.{EdgeNode}
use opcua_edge.Config.Validate.{node_clash}
use opcua_edge.Store.Key.{node_key, make_node_key}

-- No '.' in an id.
abbrev pub NoDot : Bytes → Type 0
NoDot a = All (λ c. c ≢ b'.') a

parts_equal :
    (a a' b b' : Bytes)
    → NoDot a
    → NoDot a'
    → a ++ (b'.' ∷ b) ≡ a' ++ (b'.' ∷ b')
    → (a ≡ a') × (b ≡ b')
parts_equal [] [] b b' h k e = (refl, ground arith)
parts_equal [] (c ∷ a') b b' h k e = absurd (ground arith)
parts_equal (c ∷ a) [] b b' h k e = absurd (ground arith)
parts_equal (c ∷ a) (d ∷ a') b b' h k e =
    let (p, q) = parts_equal a a' b b' h.1 k.1 (ground arith) in
    let same : c ≡ d = ground arith in ((λ i. same i ∷ p i), q)

-- Two keys are equal only where the ids are, if no asset id has a dot in it.
pub node_key-injective :
    (a a' b b' : Bytes) → NoDot a → NoDot a' → node_key a b ≡ node_key a' b' → (a ≡ a') × (b ≡ b')
node_key-injective a a' b b' h k e = parts_equal a a' b b' h k (ground arith)

append_assoc : (a b c : Bytes) → (a ++ b) ++ c ≡ a ++ (b ++ c)
append_assoc [] b c = refl
append_assoc (x ∷ a) b c = ap (λ (l : Bytes). x ∷ l) (append_assoc a b c)

longer : (a : Bytes) (c : ℕ) (b : Bytes) → str_eq a (a ++ (c ∷ b)) ≡ false
longer a c b = elim (Bool-cases (str_eq a (a ++ (c ∷ b)))) [
  | inl y ↦
      let same : length a ≡ length (a ++ (c ∷ b)) = ap length ((str_eq_iff a (a ++ (c ∷ b))).0 y) in
      absurd (omega (arith, same, length-append a (c ∷ b)))
  | inr n ↦ n
]

-- A dot in an id hides where the asset id ends: the node `b.c` of an asset `a` and the node `c` of
-- an asset `a.b` have one key, though the check for duplicate nodes tells them apart.
pub node_key-collides :
    (a b c : Bytes) (n n' : EdgeNode)
    → n.asset_id ≡ a
    → n.id ≡ b ++ (codes "." ++ c)
    → n'.asset_id ≡ a ++ (codes "." ++ b)
    → n'.id ≡ c
    → (make_node_key n ≡ make_node_key n') × (node_clash n n' ≡ false)
unfolding make_node_key node_clash
node_key-collides a b c n n' e f e' f' =
    (rw (e, f, e', f', append_assoc a (b'.' ∷ b) (b'.' ∷ c)) refl, rw (e, e', longer a b'.' b) refl)
