-- ===== src/Config/Total.antt =====
-- src/edge_config.c: the line loop ends, with one more round than the file has bytes, and writes
-- inside the arrays.
use opcua_edge.Base.{
  ℕ, zero, suc, ◌≤◌, ◌<◌, ◌≡◌, refl, Bool, Option, none, some, [], ◌∷◌, arith, length, Option-cases,
  if_both, inl, inr, Bytes, c_string,
}
use opcua_edge.Types.{EdgeStatus, ok, limit}
use opcua_edge.Config.Fields.{Parsed, trim_newline}
use opcua_edge.Config.Loader.{Loader, read_line, fgets, too_long, load_lines}
use opcua_edge.Config.Invariant.{LoaderInv, Runs, ran, on_line-Inv}

read_line-le : (room : ℕ) (file : Bytes) → length ((read_line room file).1) ≤ length file
unfolding read_line
read_line-le zero file = omega arith
read_line-le (suc room) [] = omega arith
read_line-le (suc room) (c ∷ cs) = ground (arith, read_line-le room cs)

read_line-lt :
    (room : ℕ) (c : ℕ) (cs : Bytes) → length ((read_line (suc room) (c ∷ cs)).1) < length (c ∷ cs)
unfolding read_line
read_line-lt room c cs = ground (arith, read_line-le room cs)

-- `fgets` takes at least one byte of a file that is not at its end.
fgets-lt :
    (file : Bytes) {buffer rest : Bytes} {eof : Bool}
    → fgets file ≡ some (buffer, rest, eof)
    → length rest < length file
unfolding fgets
fgets-lt [] e = ground arith
fgets-lt (c ∷ cs) e = ground (arith, read_line-lt 510 c cs)

abbrev pub Finishes {ℓ} : {A : Type ℓ} → Option A → Type ℓ
Finishes {A} o = (a : A) × (o ≡ some a)

module _ (strtod : Bytes → Parsed) where
  go_on-Finishes :
      (fuel : ℕ) (rest : Bytes) {o : Option (EdgeStatus × Loader)}
      → Runs o
      → ((l : Loader) → LoaderInv l → Finishes (load_lines strtod fuel rest l))
      → Finishes (elim o [
        | none ↦ none
        | some (status, l) ↦ elim status [
          | ok ↦ load_lines strtod fuel rest l
          | other ↦ some (other, l)
        ]
      ])
  go_on-Finishes fuel rest (ran {r = (ok, l)} h) later = later l h.inv
  go_on-Finishes fuel rest (ran {r = (other, l)} h) later = ((other, l), refl)

  -- With more fuel than the file has bytes, the loop over its lines ends by itself, and no line writes
  -- outside an array.
  pub load_lines-Finishes :
      (fuel : ℕ) (file : Bytes) (l : Loader)
      → LoaderInv l
      → length file < fuel
      → Finishes (load_lines strtod fuel file l)
  unfolding load_lines
  load_lines-Finishes zero file l inv h = elim h [ ]
  load_lines-Finishes (suc fuel) file l inv h = elim (Option-cases (fgets file)) [
    | inl end ↦ ((ok, l), rw (end, load_lines))
    | inr ((buffer, rest, eof), read) ↦
        let shorter = fgets-lt file read in
        rw (read, load_lines)
          (if_both Finishes (too_long (c_string buffer) eof) _ _ ((limit, l), refl)
            (go_on-Finishes fuel rest (on_line-Inv strtod l (trim_newline (c_string buffer)) inv)
              (λ l' inv'. load_lines-Finishes fuel rest l' inv' (omega arith))))
  ]
