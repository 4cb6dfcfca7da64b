-- ===== src/AddressSpace/Sent.antt =====
-- src/edge_address_space.c: which calls `edge_address_space_load` makes for a model, and in what
-- order.
use opcua_edge.Base.{
  ◌≡◌, ◌≢◌, ◌⊎◌, inl, inr, refl, sym, ap, subst, ◌∙◌, Bool, none, List, [], ◌∷◌, ◌++◌, map, arith,
}
use opcua_edge.Types.{EdgeStatus, ok, error, EdgeModel}
use opcua_edge.World.{Call, ua_add_namespace, ua_add_object, Log, Env}
use opcua_edge.Store.Key.{status_of}
use opcua_edge.AddressSpace.{
  add_plant_object, add_asset_object, add_variable_node, add_all, edge_address_space_load,
}
use opcua_edge.AddressSpace.Order.{
  plant_text, asset_call, variable_call, add_plant-cases, add_asset-cases, add_variable-cases,
}

module _ {ℓ} {A : Type ℓ} (add : A → Log → EdgeStatus × Log) where
  pub add_all-stop :
      (x : A) (xs : List A) (log : Log)
      → (add x log).0 ≢ ok
      → add_all add (x ∷ xs) log ≡ (error, (add x log).1)
  unfolding add_all
  add_all-stop x xs log h = ground arith

  pub add_all-next :
      (x : A) (xs : List A) (log log' : Log)
      → add x log ≡ (ok, log')
      → add_all add (x ∷ xs) log ≡ add_all add xs log'
  unfolding add_all
  add_all-next x xs log log' h =
      ap (λ (r : EdgeStatus × Log). elim r.0 [ ok ↦ add_all add xs r.1 | _ ↦ (error, r.1) ]) h

-- The log behind calls that are made in the order of a list.
abbrev pub all_sent : List Call → Log → Log
all_sent [] log = log
all_sent (c ∷ cs) log = all_sent cs (c ∷ log)

-- The log behind those of the calls that come before some point.
abbrev pub Sent : List Call → Log → Log → Type 0
Sent [] log log' = log' ≡ log
Sent (c ∷ cs) log log' = (log' ≡ log) ⊎ Sent cs (c ∷ log) log'

-- A result that follows some of the calls, and all of them where it is a success.
abbrev pub Sends : List Call → Log → EdgeStatus × Log → Type 0
Sends calls log (status, log') = Sent calls log log' × (status ≡ ok → log' ≡ all_sent calls log)

Sent-none : (calls : List Call) (log : Log) → Sent calls log log
Sent-none [] log = refl
Sent-none (c ∷ cs) log = inl refl

Sent-append :
    (first second : List Call) (log log' : Log)
    → Sent first log log'
    → Sent (first ++ second) log log'
Sent-append [] second log log' h = subst (Sent second log) (sym h) (Sent-none second log)
Sent-append (c ∷ first) second log log' (inl h) = inl h
Sent-append (c ∷ first) second log log' (inr h) = inr (Sent-append first second (c ∷ log) log' h)

Sent-all :
    (first second : List Call) (log log' : Log)
    → Sent second (all_sent first log) log'
    → Sent (first ++ second) log log'
Sent-all [] second log log' h = h
Sent-all (c ∷ first) second log log' h = inr (Sent-all first second (c ∷ log) log' h)

all_sent-append :
    (first second : List Call) (log : Log)
    → all_sent (first ++ second) log ≡ all_sent second (all_sent first log)
all_sent-append [] second log = refl
all_sent-append (c ∷ first) second log = all_sent-append first second (c ∷ log)

-- A failure of the first calls.
fails-Sends :
    (first second : List Call) (log : Log) (status : EdgeStatus) (r : EdgeStatus × Log)
    → status ≢ ok
    → Sends first log r
    → Sends (first ++ second) log (status, r.1)
fails-Sends first second log status r bad h =
    (Sent-append first second log r.1 h.0, λ e. absurd (bad e))

-- The first calls went well, and more follow.
then-Sends :
    (first second : List Call) (log log' : Log) (r : EdgeStatus × Log)
    → log' ≡ all_sent first log
    → Sends second log' r
    → Sends (first ++ second) log r
then-Sends first second log log' r same h = (
  Sent-all first second log r.1 (subst (λ (l : Log). Sent second l r.1) same h.0),
  λ e. h.1 e ∙ ap (all_sent second) same ∙ sym (all_sent-append first second log),
)

-- What one addition does: nothing, and a failure, or its call, with the server's answer.
abbrev Once : Call → Log → EdgeStatus × Log → Type 0
Once call log r = ((r.0 ≢ ok) × (r.1 ≡ log)) ⊎ ((took : Bool) × (r ≡ (status_of took, call ∷ log)))

Once-Sends :
    (call : Call) (log : Log) (r : EdgeStatus × Log) → Once call log r → Sends (call ∷ []) log r
Once-Sends call log r (inl (bad, same)) = (inl same, λ e. absurd (bad e))
Once-Sends call log r (inr (took, made)) = (inr (ap (λ x. x.1) made), λ e. ap (λ x. x.1) made)

module _ {A : Type 0} (add : A → Log → EdgeStatus × Log) (call : A → Call) where
  add_all-Sends :
      ((x : A) (log : Log) → Once (call x) log (add x log))
      → (xs : List A) (log : Log) → Sends (map call xs) log (add_all add xs log)
  unfolding add_all
  add_all-Sends each [] log = (refl, λ e. refl)
  add_all-Sends each (x ∷ rest) log =
      let one = Once-Sends (call x) log (add x log) (each x log) in
      go (add x log) one (add_all-Sends each rest)
    where
      go :
          (r : EdgeStatus × Log)
          → Sends (call x ∷ []) log r
          → ((l : Log) → Sends (map call rest) l (add_all add rest l))
          → Sends
              (map call (x ∷ rest))
              log
              (elim r.0 [ ok ↦ add_all add rest r.1 | _ ↦ (error, r.1) ])
      go (ok, l) one later =
          then-Sends (call x ∷ []) (map call rest) log l (add_all add rest l) (one.1 refl) (later l)
      go (s, l) one later =
          fails-Sends (call x ∷ []) (map call rest) log error (s, l) (λ e. ground arith) one

-- The calls that add a model.
abbrev pub model_calls : EdgeModel → List Call
model_calls m =
    ua_add_namespace ∷ ua_add_object (plant_text m) none m.name ∷ map (asset_call m) m.assets
    ++ map (variable_call m) m.nodes

module _ (env : Env) (m : EdgeModel) where
  -- What is done with the status of the plant's object.
  unfoldable pub after_plant : EdgeStatus × Log → EdgeStatus × Log
  after_plant (plant, log1) =
      let (assets, log2) = add_all (add_asset_object env m) m.assets log1 in
      let nodes = add_all (add_variable_node env m) m.nodes log2 in
      elim plant [ ok ↦ elim assets [ ok ↦ nodes | _ ↦ (error, log2) ] | _ ↦ (error, log1) ]

  pub load_lem :
      (log : Log)
      → edge_address_space_load env m log
        ≡ after_plant (add_plant_object env m (ua_add_namespace ∷ log))
  unfolding edge_address_space_load after_plant
  load_lem log = refl

  plant-Once :
      (log : Log) → Once (ua_add_object (plant_text m) none m.name) log (add_plant_object env m log)
  plant-Once log = elim (add_plant-cases env m log) [
    | inl failed ↦ inl failed
    | inr made ↦ inr (env.adds_object log, made)
  ]

  assets-Sends :
      (log : Log)
      → Sends (map (asset_call m) m.assets) log (add_all (add_asset_object env m) m.assets log)
  assets-Sends =
      add_all-Sends (add_asset_object env m) (asset_call m)
        (λ a log. elim (add_asset-cases env m a log) [
          | inl failed ↦ inl failed
          | inr made ↦ inr (env.adds_object log, made)
        ])
        m.assets

  variables-Sends :
      (log : Log)
      → Sends (map (variable_call m) m.nodes) log (add_all (add_variable_node env m) m.nodes log)
  variables-Sends =
      add_all-Sends (add_variable_node env m) (variable_call m)
        (λ n log. elim (add_variable-cases env m n log) [
          | inl failed ↦ inl failed
          | inr (k, a, at, call, made) ↦ inr (env.adds_variable log, made)
        ])
        m.nodes

  loops-Sends :
      (r : EdgeStatus × Log)
      → Sends (map (asset_call m) m.assets) r.1 (add_all (add_asset_object env m) m.assets r.1)
      → Sends (map (asset_call m) m.assets ++ map (variable_call m) m.nodes) r.1 (
          let (assets, log2) = add_all (add_asset_object env m) m.assets r.1 in
          elim assets [ ok ↦ add_all (add_variable_node env m) m.nodes log2 | _ ↦ (error, log2) ])
  loops-Sends r h = go (add_all (add_asset_object env m) m.assets r.1) h
    where
      go :
          (q : EdgeStatus × Log)
          → Sends (map (asset_call m) m.assets) r.1 q
          → Sends
              (map (asset_call m) m.assets ++ map (variable_call m) m.nodes)
              r.1
              (elim q.0 [ ok ↦ add_all (add_variable_node env m) m.nodes q.1 | _ ↦ (error, q.1) ])
      go (ok, l) first =
          then-Sends (map (asset_call m) m.assets) (map (variable_call m) m.nodes) r.1 l _
            (first.1 refl) (variables-Sends l)
      go (s, l) first =
          fails-Sends (map (asset_call m) m.assets) (map (variable_call m) m.nodes) r.1 error (s, l)
            (λ e. ground arith) first

  after_plant-Sends :
      (log : Log) (r : EdgeStatus × Log)
      → Sends (ua_add_object (plant_text m) none m.name ∷ []) log r
      → Sends
          (ua_add_object (plant_text m) none m.name ∷ map (asset_call m) m.assets
            ++ map (variable_call m) m.nodes)
          log
          (after_plant r)
  unfolding after_plant
  after_plant-Sends log (ok, l) h =
      then-Sends (ua_add_object (plant_text m) none m.name ∷ [])
        (map (asset_call m) m.assets ++ map (variable_call m) m.nodes) log l _ (h.1 refl)
        (loops-Sends (ok, l) (assets-Sends l))
  after_plant-Sends log (s, l) h =
      fails-Sends (ua_add_object (plant_text m) none m.name ∷ [])
        (map (asset_call m) m.assets ++ map (variable_call m) m.nodes) log error (s, l)
        (λ e. ground arith) h

  -- A load makes the calls of the model, in order.
  pub load-Sends : (log : Log) → Sends (model_calls m) log (edge_address_space_load env m log)
  load-Sends log =
      let start = ua_add_namespace ∷ log in
      let r = after_plant (add_plant_object env m start) in
      let rest =
        after_plant-Sends start (add_plant_object env m start)
          (Once-Sends _ start (add_plant_object env m start) (plant-Once start)) in
      subst (Sends (model_calls m) log) (sym (load_lem log)) (inr rest.0, rest.1)
