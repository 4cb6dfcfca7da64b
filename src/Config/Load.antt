-- ===== src/Config/Load.antt =====
-- src/edge_config.c: `edge_config_load` as a whole returns, and accepts only resolved models.
use opcua_edge.Base.{◌+◌, ◌≡◌, refl, sym, ap, subst, Option, none, some, List, arith, length, Bytes}
use opcua_edge.Types.{EdgeStatus, ok, error, limit, invalid, EdgeAsset, EdgeModel}
use opcua_edge.Config.Fields.{Parsed}
use opcua_edge.Config.Loader.{Loader, load_lines}
use opcua_edge.Config.Validate.{validate_required_fields, validate_duplicates}
use opcua_edge.Config.Resolve.{
  resolve_parents, check_cycles, resolve_members, resolve_after_parents,
  validate_and_resolve_references, validate, start, edge_config_load,
}
use opcua_edge.Config.Resolved.{with_parents, parents_resolved}
use opcua_edge.Config.Cycles.{no_cycles}
use opcua_edge.Config.Total.{Finishes, load_lines-Finishes}
use opcua_edge.Config.Correct.{
  IsResolved, validate-parts, references-parts, after_parents-ok, members-parts,
}
use opcua_edge.Config.Settled.{Settles, settled-IsResolved, settled-ModelFits}
use opcua_edge.Config.Bounds.{ModelFits}
use opcua_edge.Config.Invariant.{LoaderInv, KeepsAll, finished, load_lines-Inv}

-- The parents' loop has resolved the array that the later loops see.
parents_list :
    (m : EdgeModel)
    → (resolve_parents m 0 m.assets).0 ≡ ok
    → record m { assets = (resolve_parents m 0 m.assets).1 } ≡ with_parents m
parents_list m h = ap (λ (l : List EdgeAsset). record m { assets = l }) ((parents_resolved m h).0)

-- A model that passes the checks is the one that went in, with every index resolved.
validate-Settles :
    (m m' : EdgeModel)
    → validate m ≡ some (ok, m')
    → (r : validate_required_fields m ≡ ok) × (d : validate_duplicates m ≡ ok)
      × (p : (resolve_parents m 0 m.assets).0 ≡ ok) × Settles m r d p m'
validate-Settles m m' h =
    let (required, unique, refs) = validate-parts m m' h in
    let (parents_ok, after) = references-parts m m' refs in
    let after' : resolve_after_parents ok (with_parents m) ≡ some (ok, m') =
      subst (λ (x : EdgeModel). resolve_after_parents ok x ≡ some (ok, m'))
        (parents_list m parents_ok) after in
    let cycles = no_cycles (with_parents m) ((parents_resolved m parents_ok).1) in
    (
      required,
      unique,
      parents_ok,
      members-parts (with_parents m) m' (after_parents-ok (with_parents m) m' cycles after'),
    )

pub validate-IsResolved : (m m' : EdgeModel) → validate m ≡ some (ok, m') → IsResolved m'
validate-IsResolved m m' h =
    let (required, unique, parents_ok, settles) = validate-Settles m m' h in
    subst IsResolved (sym settles.2)
      (settled-IsResolved m required unique parents_ok settles.0 settles.1)

pub validate-ModelFits :
    (m m' : EdgeModel) → validate m ≡ some (ok, m') → ModelFits m → ModelFits m'
validate-ModelFits m m' h fits =
    let (required, unique, parents_ok, settles) = validate-Settles m m' h in
    subst ModelFits (sym settles.2)
      (settled-ModelFits m required unique parents_ok settles.0 settles.1 fits)

start-Inv : (m : EdgeModel) → ModelFits m → LoaderInv (start m)
unfolding start
start-Inv m fits = record { fits = fits; asset_points = tt; node_points = tt; event_points = tt }

kept : (l : Loader) → KeepsAll (some (ok, l)) → ModelFits l.model
kept l (finished k) = k.inv.fits

load-parts :
    (strtod : Bytes → Parsed) (file : Option Bytes) (m m' : EdgeModel)
    → edge_config_load strtod file m ≡ some (ok, m')
    → (l : Loader) × (validate l.model ≡ some (ok, m')) × (ModelFits m → ModelFits l.model)
unfolding edge_config_load
load-parts strtod none m m' h = absurd (ground arith)
load-parts strtod (some file) m m' h =
    go (load_lines strtod (length file + 1) file (start m))
      (λ fits. load_lines-Inv strtod (length file + 1) file (start m) (start-Inv m fits)) h
  where
    go :
        (o : Option (EdgeStatus × Loader))
        → (ModelFits m → KeepsAll o)
        → elim o [
          | none ↦ none
          | some (status, l) ↦ elim status [ ok ↦ validate l.model | other ↦ some (other, l.model) ]
        ]
          ≡ some (ok, m')
        → (l : Loader) × (validate l.model ≡ some (ok, m')) × (ModelFits m → ModelFits l.model)
    go none keep e = absurd (ground arith)
    go (some (ok, l)) keep e = (l, e, λ fits. kept l (keep fits))
    go (some (error, l)) keep e = absurd (ground arith)
    go (some (limit, l)) keep e = absurd (ground arith)
    go (some (invalid, l)) keep e = absurd (ground arith)

-- Whatever the file holds, a model that `edge_config_load` accepts is complete, has no duplicate
-- ids, and has every reference resolved: a parent index is UINT32_MAX (for the plant) or names an
-- earlier asset with the parent's id, a node's index names the asset with its asset id, and an
-- event's indices name the asset with its asset id and a node of that asset with its source id.
pub load-IsResolved :
    (strtod : Bytes → Parsed) (file : Option Bytes) (m m' : EdgeModel)
    → edge_config_load strtod file m ≡ some (ok, m')
    → IsResolved m'
load-IsResolved strtod file m m' h =
    let (l, v, _) = load-parts strtod file m m' h in validate-IsResolved l.model m' v

-- A model that `edge_config_load` accepts, started on one that fits the fixed-size arrays, fits
-- them: every count is within its limit, every string leaves room for its NUL, and a unit, a
-- register and a severity are within their integer types.
pub load-ModelFits :
    (strtod : Bytes → Parsed) (file : Option Bytes) (m m' : EdgeModel)
    → ModelFits m
    → edge_config_load strtod file m ≡ some (ok, m')
    → ModelFits m'
load-ModelFits strtod file m m' fits h =
    let (l, v, keep) = load-parts strtod file m m' h in validate-ModelFits l.model m' v (keep fits)

after_parents-Finishes :
    (s : EdgeStatus) (m : EdgeModel)
    → (s ≡ ok → check_cycles m.assets 0 m.assets ≡ some ok)
    → Finishes (resolve_after_parents s m)
unfolding resolve_after_parents
after_parents-Finishes ok m h = rw (h refl, resolve_after_parents) (resolve_members m, refl)
after_parents-Finishes s m h = ((s, m), refl)

references-Finishes : (m : EdgeModel) → Finishes (validate_and_resolve_references m)
unfolding validate_and_resolve_references
references-Finishes m =
    after_parents-Finishes (resolve_parents m 0 m.assets).0
      (record m { assets = (resolve_parents m 0 m.assets).1 })
      (λ e. rw (parents_resolved m e).0 (no_cycles (with_parents m) ((parents_resolved m e).1)))

validate-Finishes : (m : EdgeModel) → Finishes (validate m)
unfolding validate
validate-Finishes m = go (validate_required_fields m) (validate_duplicates m)
  where
    go :
        (r d : EdgeStatus)
        → Finishes {A = EdgeStatus × EdgeModel} (elim r [
          | ok ↦ elim d [
            | ok ↦ elim (validate_and_resolve_references m) [
              | none ↦ none
              | some (status, model') ↦ some (elim status [ ok ↦ ok | _ ↦ invalid ], model')
            ]
            | _ ↦ some (invalid, m)
          ]
          | _ ↦ some (invalid, m)
        ])
    go ok ok =
        let (r, e) = references-Finishes m in rw e ((elim r.0 [ ok ↦ ok | _ ↦ invalid ], r.1), refl)
    go ok _ = ((invalid, m), refl)
    go _ _ = ((invalid, m), refl)

pub load-Finishes :
    (strtod : Bytes → Parsed) (file : Option Bytes) (m : EdgeModel)
    → ModelFits m
    → Finishes (edge_config_load strtod file m)
unfolding edge_config_load
load-Finishes strtod none m fits = ((error, m), refl)
load-Finishes strtod (some file) m fits =
    let (r, e) =
      load_lines-Finishes strtod (length file + 1) file (start m) (start-Inv m fits)
        (omega arith) in
    rw (e, edge_config_load) (go r.0 r.1)
  where
    go :
        (s : EdgeStatus) (l : Loader)
        → Finishes (elim s [ ok ↦ validate l.model | other ↦ some (other, l.model) ])
    go ok l = validate-Finishes l.model
    go other l = ((other, l.model), refl)
