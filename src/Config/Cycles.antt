-- ===== src/Config/Cycles.antt =====
-- src/edge_config.c: the second loop of `validate_and_resolve_references`, which follows each
-- asset's chain of parents.
use opcua_edge.Base.{
  ℕ, zero, suc, ◌+◌, ◌≤◌, ◌<◌, ◌||◌, ◌≡◌, inl, inr, refl, false, Option, some, List, [], ◌∷◌, arith,
  length, get_elem?-some, AllFrom, AllFrom-get, Bool-cases, ◌==◌, ltb, subst,
}
use opcua_edge.Types.{EdgeStatus, ok, EdgeAsset, EdgeModel, edge_invalid_index}
use opcua_edge.Config.Resolve.{follow_parents, check_cycles}
use opcua_edge.Config.Resolved.{ParentOk}

follow_invalid :
    (fuel : ℕ) (assets : List EdgeAsset) (i hops : ℕ)
    → 0 < fuel
    → follow_parents fuel assets i edge_invalid_index hops ≡ some ok
unfolding follow_parents
follow_invalid zero assets i hops h = elim h [ ]
follow_invalid (suc fuel) assets i hops h = refl

module _ (m : EdgeModel) (earlier : AllFrom (ParentOk m) 0 m.assets) where
  abbrev chain : ℕ → ℕ → ℕ → ℕ → Option EdgeStatus
  chain fuel i cursor hops = follow_parents fuel m.assets i cursor hops

  above :
      (fuel i cursor hops : ℕ) (p : EdgeAsset)
      → ParentOk m cursor p
      → 0 < fuel
      → (p.parent_index < cursor → chain fuel i p.parent_index hops ≡ some ok)
      → chain fuel i p.parent_index hops ≡ some ok
  above fuel i cursor hops p (inl (top, _)) h lower = rw top (follow_invalid fuel m.assets i hops h)
  above fuel i cursor hops p (inr (_, _, _, b)) h lower = lower b

  -- Where every parent stands before its child, indices fall along the chain.
  chain-falls :
      (fuel i cursor hops : ℕ)
      → cursor < i
      → hops + cursor < length m.assets
      → cursor + 1 < fuel
      → chain fuel i cursor hops ≡ some ok
  unfolding follow_parents
  chain-falls zero i cursor hops b r f = elim f [ ]
  chain-falls (suc fuel) i cursor hops b r f = elim (Bool-cases (cursor == edge_invalid_index)) [
    | inl e ↦ rw e
    | inr e ↦
        let (p, g) = get_elem?-some m.assets cursor (omega arith) in
        let up : ParentOk m cursor p =
          subst (λ (n : ℕ). ParentOk m n p) (omega arith)
            (AllFrom-get (ParentOk m) 0 m.assets cursor earlier g) in
        let on : (cursor == i || ltb (length m.assets) hops) ≡ false = ground arith in
        rw (e, on, g, follow_parents)
          (above fuel i cursor (hops + 1) p up (omega arith) (λ lower.
            chain-falls fuel i p.parent_index (hops + 1) (omega arith) (omega arith) (omega arith)))
  ]

  -- So the second loop reports no cycle, reads inside the array and ends, for every asset.
  check_cycles-ok :
      (i : ℕ) (rest : List EdgeAsset)
      → AllFrom (ParentOk m) i rest
      → i + length rest ≤ length m.assets
      → check_cycles m.assets i rest ≡ some ok
  unfolding check_cycles
  check_cycles-ok i [] h b = refl
  check_cycles-ok i (a ∷ rest) h b =
      let first = above (length m.assets + 3) i i 0 a h.0 (omega arith) (λ lower.
        chain-falls (length m.assets + 3) i a.parent_index 0 lower (omega arith) (omega arith)) in
      rw (first, check_cycles) (check_cycles-ok (i + 1) rest h.1 (omega arith))

  pub no_cycles : check_cycles m.assets 0 m.assets ≡ some ok
  no_cycles = check_cycles-ok 0 m.assets earlier (omega arith)
