-- ===== src/AddressSpace/Placement.antt =====
-- src/edge_address_space.c: in which order `edge_address_space_load` adds objects and variables.
use native.Mathlib.Decide.{ℕ_discrete}
use opcua_edge.Base.{
  ℕ, suc, ◌+◌, ◌<◌, ◌≡◌, inl, inr, refl, sym, subst, true, none, some, List, [], ◌∷◌, arith, length,
  get_elem?, AllFrom, Bytes, Bool-cases, ap, get_elem?-some, get_elem?-lt,
}
use opcua_edge.Types.{EdgeStatus, ok, error, EdgeNode, EdgeAsset, EdgeModel}
use opcua_edge.World.{Call, ua_add_namespace, ua_add_object, Log, Env}
use opcua_edge.Store.Key.{status_of}
use opcua_edge.AddressSpace.{
  add_plant_object, add_asset_object, add_variable_node, add_all, edge_address_space_load,
}
use opcua_edge.AddressSpace.Sent.{
  add_all-stop, add_all-next, after_plant, load_lem, Sends, model_calls, load-Sends,
}
use opcua_edge.AddressSpace.Order.{
  variable_call, plant_text, asset_text, Added, Placed, PointsBack, parent_text, add_plant-cases,
  add_asset-cases, add_variable-cases,
}

-- What a loop leaves: everything in its place and, where it succeeds, `P`.
abbrev Leaves : Env → (Log → Type 0) → EdgeStatus × Log → Type 0
Leaves env P r = Placed env r.1 × (r.0 ≡ ok → P r.1)

module _ (env : Env) (m : EdgeModel) where
  -- The assets before index `i` were added.
  abbrev Here : ℕ → Log → Type 0
  Here i log =
      (j : ℕ) (a : EdgeAsset) → j < i → get_elem? m.assets j ≡ some a → Added env (asset_text a) log

  parent-Added :
      (i : ℕ) (a : EdgeAsset) (log : Log)
      → PointsBack i a
      → i < length m.assets
      → Added env (plant_text m) log
      → Here i log
      → Added env (parent_text m a) log
  unfolding parent_text
  parent-Added i a log (inl e) room plant here =
      let same : parent_text m a ≡ plant_text m = ground arith in
      subst (λ (id : Bytes). Added env id log) (sym same) plant
  parent-Added i a log (inr (j, e, lt)) room plant here =
      let (b, at) = get_elem?-some m.assets j (omega arith) in
      let same : parent_text m a ≡ asset_text b = ground arith in
      subst (λ (id : Bytes). Added env id log) (sym same) (here j b lt at)

  Here-next :
      (i : ℕ) (a : EdgeAsset) (parent name : Bytes) (log : Log)
      → get_elem? m.assets i ≡ some a
      → env.adds_object log ≡ true
      → Here i log
      → Here (i + 1) (ua_add_object (asset_text a) (some parent) name ∷ log)
  Here-next i a parent name log at took here j b lt e = elim (ℕ_discrete j i) [
    | yes same ↦ let equal : a ≡ b = ground (arith, same, at, e) in inl (ap asset_text equal, took)
    | no other ↦ inr (here j b (omega arith) e)
  ]

  assets-Leaves :
      (i : ℕ) (rest : List EdgeAsset) (log : Log)
      → AllFrom PointsBack i rest
      → ((k : ℕ) (a : EdgeAsset) → get_elem? rest k ≡ some a → get_elem? m.assets (i + k) ≡ some a)
      → Added env (plant_text m) log
      → Here i log
      → Placed env log
      → Leaves env (Here (i + length rest)) (add_all (add_asset_object env m) rest log)
  unfolding add_all
  assets-Leaves i [] log back at plant here placed =
      (placed, (λ e j a lt get. here j a (omega arith) get))
  assets-Leaves i (a ∷ rest) log back at plant here placed = elim (add_asset-cases env m a log) [
    | inl (bad, same) ↦
        subst (Leaves env (Here (i + length (a ∷ rest))))
          (sym (add_all-stop (add_asset_object env m) a rest log bad))
          (subst (Placed env) (sym same) placed, (λ e. absurd (ground arith)))
    | inr made ↦
        let here_at = at 0 a refl in
        let i_here : get_elem? m.assets i ≡ some a =
          subst (λ (k : ℕ). get_elem? m.assets k ≡ some a) (omega arith) here_at in
        let parent = parent-Added i a log back.0 (get_elem?-lt m.assets i i_here) plant here in
        let log1 = ua_add_object (asset_text a) (some (parent_text m a)) a.name ∷ log in
        elim (Bool-cases (env.adds_object log)) [
          | inl took ↦
              let made' : add_asset_object env m a log ≡ (ok, log1) = rw took at made in
              let behind : (k : ℕ) (x : EdgeAsset)
                  → get_elem? rest k ≡ some x
                  → get_elem? m.assets (i + 1 + k) ≡ some x =
                λ k x e.
                  subst (λ (j : ℕ). get_elem? m.assets j ≡ some x) (omega arith) (at (suc k) x e) in
              let later =
                assets-Leaves (i + 1) rest log1 back.1 behind (inr plant)
                  (Here-next i a (parent_text m a) a.name log i_here took here) (parent, placed) in
              let same : i + 1 + length rest ≡ i + length (a ∷ rest) = omega arith in
              subst (Leaves env (Here (i + length (a ∷ rest))))
                (sym (add_all-next (add_asset_object env m) a rest log log1 made'))
                (subst (λ (n : ℕ). Leaves env (Here n) (add_all (add_asset_object env m) rest log1))
                  same later)
          | inr refused ↦
              let made' : add_asset_object env m a log ≡ (error, log1) = rw refused at made in
              subst (Leaves env (Here (i + length (a ∷ rest))))
                (sym (add_all-stop (add_asset_object env m) a rest log (ground arith)))
                (rw made' (parent, placed), (λ e. absurd (ground arith)))
        ]
  ]

  variables-Placed :
      (nodes : List EdgeNode) (log : Log)
      → ((j : ℕ) (a : EdgeAsset) → get_elem? m.assets j ≡ some a → Added env (asset_text a) log)
      → Placed env log
      → Placed env (add_all (add_variable_node env m) nodes log).1
  unfolding add_all
  variables-Placed [] log here placed = placed
  variables-Placed (n ∷ rest) log here placed = elim (add_variable-cases env m n log) [
    | inl (bad, same) ↦
        subst (λ r. Placed env r.1) (sym (add_all-stop (add_variable_node env m) n rest log bad))
          (subst (Placed env) (sym same) placed)
    | inr (k, a, at, call, made) ↦
        let log1 = variable_call m n ∷ log in
        let parent : Placed env log1 =
          subst (λ (c : Call). Placed env (c ∷ log)) (sym call) (here k a at, placed) in
        let still : (j : ℕ) (b : EdgeAsset)
            → get_elem? m.assets j ≡ some b
            → Added env (asset_text b) log1 =
          λ j b e.
            subst (λ (c : Call). Added env (asset_text b) (c ∷ log)) (sym call) (here j b e) in
        elim (Bool-cases (env.adds_variable log)) [
          | inl took ↦
              let made' : add_variable_node env m n log ≡ (ok, log1) = rw took at made in
              subst (λ r. Placed env r.1)
                (sym (add_all-next (add_variable_node env m) n rest log log1 made'))
                (variables-Placed rest log1 still parent)
          | inr refused ↦
              let made' : add_variable_node env m n log ≡ (error, log1) = rw refused at made in
              subst (λ r. Placed env r.1)
                (sym (add_all-stop (add_variable_node env m) n rest log (ground arith)))
                (rw made' parent)
        ]
  ]

  -- The two loops, behind the plant.
  loops-Placed :
      (log : Log)
      → AllFrom PointsBack 0 m.assets
      → Added env (plant_text m) log
      → Placed env log
      → let (assets, log2) = add_all (add_asset_object env m) m.assets log in
        Placed env log2
        × (assets ≡ ok → Placed env (add_all (add_variable_node env m) m.nodes log2).1)
  loops-Placed log back plant placed =
      let (first, all) =
        assets-Leaves 0 m.assets log back
          (λ k a e. subst (λ (j : ℕ). get_elem? m.assets j ≡ some a) (omega arith) e) plant
          (λ j a lt e. absurd (omega arith)) placed in
      (
        first,
        (λ e.
            variables-Placed m.nodes (add_all (add_asset_object env m) m.assets log).1
              (λ j a at. all e j a (omega (arith, get_elem?-lt m.assets j at)) at) first),
      )

  after_plant-Placed :
      (r : EdgeStatus × Log)
      → AllFrom PointsBack 0 m.assets
      → (r.0 ≡ ok → Added env (plant_text m) r.1)
      → Placed env r.1
      → Placed env (after_plant env m r).1
  unfolding after_plant
  after_plant-Placed (ok, log) back plant placed =
      let (assets, log2) = add_all (add_asset_object env m) m.assets log in
      let (first, rest) = loops-Placed log back (plant refl) placed in go assets log2 first rest
    where
      go :
          (s : EdgeStatus) (log2 : Log)
          → Placed env log2
          → (s ≡ ok → Placed env (add_all (add_variable_node env m) m.nodes log2).1)
          → Placed env
              (elim s as (λ x. EdgeStatus × Log) [
                | ok ↦ add_all (add_variable_node env m) m.nodes log2
                | _ ↦ (error, log2)
              ]).1
      go ok log2 f g = g refl
      go _ log2 f g = f
  after_plant-Placed (_, log) back plant placed = placed

  load-Behind :
      (log : Log)
      → AllFrom PointsBack 0 m.assets
      → Placed env log
      → Placed env (edge_address_space_load env m log).1
  load-Behind log back placed =
      let start = ua_add_namespace ∷ log in
      subst (λ r. Placed env r.1) (sym (load_lem env m log))
        (elim (add_plant-cases env m start) [
          | inl (bad, same) ↦
              after_plant-Placed (add_plant_object env m start) back (λ e. absurd (bad e))
                (subst (Placed env) (sym same) placed)
          | inr made ↦
              subst (λ r. Placed env (after_plant env m r).1) (sym made)
                (after_plant-Placed
                  (
                    status_of (env.adds_object start),
                    ua_add_object (plant_text m) none m.name ∷ start,
                  )
                  back (λ e. inl (refl, ground arith)) placed)
        ])

  -- On a model whose assets point at parents that stand before them, a load makes the calls of the
  -- model in order, all of them where it succeeds and else those up to some point: the namespace,
  -- the plant, every asset under the node id of the parent it points at, or of the plant, and every
  -- node under that of the asset it points at. Every object but the plant and every variable comes
  -- behind the call that added its parent, which the server took.
  pub load-Placed :
      (log : Log)
      → AllFrom PointsBack 0 m.assets
      → Placed env log
      → Sends (model_calls m) log (edge_address_space_load env m log)
        × Placed env (edge_address_space_load env m log).1
  load-Placed log back placed = (load-Sends env m log, load-Behind log back placed)
