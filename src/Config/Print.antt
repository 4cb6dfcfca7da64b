-- ===== src/Config/Print.antt =====
-- src/edge_config.c: templates written out, and how the line loop takes one line after the other.
pub mod Numbers
pub mod Keys
pub mod Assets
pub mod Nodes
pub mod Events
pub mod Template
use opcua_edge.Base.{
  ℕ, zero, suc, ◌+◌, ◌<◌, ◌≤◌, ◌≡◌, ◌≢◌, refl, sym, subst, ap, ◌∙◌, true, false, Option, none, some,
  List, [], ◌∷◌, ◌++◌, arith, length, length-append, All, Bytes, c_string, ◌==◌, if◌then◌else◌,
  is_empty,
}
use opcua_edge.Types.{EdgeStatus, ok}
use opcua_edge.Config.Fields.{Parsed, trim_newline}
use opcua_edge.Config.Loader.{
  Loader, on_line, read_line, fgets, ends_with_newline, too_long, load_lines,
}

-- No NUL and no end of line.
abbrev pub Plain : Bytes → Type 0
Plain s = All (λ c. (c ≢ 0) × (c ≢ 10) × (c ≢ 13)) s

-- A text that can be a field's value: not empty, with room for its NUL, and plain.
abbrev pub Text : ℕ → Bytes → Type 0
Text size s = (s ≢ []) × (length s < size) × Plain s

abbrev pub newline : Bytes → Bytes → Bytes
newline line rest = line ++ (10 ∷ rest)

read_line-newline :
    (room : ℕ) (line rest : Bytes)
    → Plain line
    → length line < room
    → read_line room (newline line rest) ≡ (line ++ (10 ∷ []), rest, false)
unfolding read_line
read_line-newline zero line rest p h = ground arith
read_line-newline (suc room) [] rest p h = refl
read_line-newline (suc room) (c ∷ cs) rest p h =
    ground (arith, p.0, read_line-newline room cs rest p.1 (omega arith))

c_string-newline : (line : Bytes) → Plain line → c_string (line ++ (10 ∷ [])) ≡ line ++ (10 ∷ [])
unfolding c_string
c_string-newline [] p = refl
c_string-newline (c ∷ cs) p = ground (arith, p.0, c_string-newline cs p.1)

ends-newline : (line : Bytes) → ends_with_newline (line ++ (10 ∷ [])) ≡ true
unfolding ends_with_newline
ends-newline [] = refl
ends-newline (c ∷ []) = refl
ends-newline (c ∷ d ∷ cs) = ends-newline (d ∷ cs)

trim_newline-Plain : (line : Bytes) → Plain line → trim_newline line ≡ line
unfolding trim_newline
trim_newline-Plain [] p = refl
trim_newline-Plain (c ∷ cs) p = ground (arith, p.0, trim_newline-Plain cs p.1)

trim_newline-newline : (line : Bytes) → Plain line → trim_newline (line ++ (10 ∷ [])) ≡ line
unfolding trim_newline
trim_newline-newline [] p = refl
trim_newline-newline (c ∷ cs) p = ground (arith, p.0, trim_newline-newline cs p.1)

fgets-newline :
    (line rest : Bytes)
    → Plain line
    → length line < 510
    → fgets (newline line rest) ≡ some (line ++ (10 ∷ []), rest, false)
unfolding fgets
fgets-newline [] rest p h = ap some (read_line-newline 511 [] rest p (omega arith))
fgets-newline (c ∷ cs) rest p h = ap some (read_line-newline 511 (c ∷ cs) rest p (omega arith))

-- One plain line of at most 509 bytes is taken whole.
load_lines-line :
    (strtod : Bytes → Parsed) (fuel : ℕ) (line rest : Bytes) (l l' : Loader)
    → Plain line
    → length line < 510
    → on_line strtod l line ≡ some (ok, l')
    → load_lines strtod (suc fuel) (newline line rest) l ≡ load_lines strtod fuel rest l'
unfolding load_lines fgets too_long
load_lines-line strtod fuel line rest l l' p h e = ground (
  arith,
  fgets-newline line rest p h,
  c_string-newline line p,
  ends-newline line,
  trim_newline-newline line p,
  e,
)

-- The loader takes a plain line of at most 509 bytes, from `l` to `m`.
abbrev pub Takes : (Bytes → Parsed) → Bytes → Loader → Loader → Type 0
Takes strtod line l m = Plain line × (length line < 510) × (on_line strtod l line ≡ some (ok, m))

-- And such lines one after the other.
pub data Reads (strtod : Bytes → Parsed) : List Bytes → Loader → Loader → Type 0 where
  done : {l : Loader} → Reads strtod [] l l
  next :
      {line : Bytes} {lines : List Bytes} {l m l' : Loader}
      → Takes strtod line l m
      → Reads strtod lines m l'
      → Reads strtod (line ∷ lines) l l'

pub Reads-append :
    {strtod : Bytes → Parsed} {xs ys : List Bytes} {l m n : Loader}
    → Reads strtod xs l m
    → Reads strtod ys m n
    → Reads strtod (xs ++ ys) l n
Reads-append done s = s
Reads-append (next t r) s = next t (Reads-append r s)

-- The file of the lines.
abbrev pub file_of : List Bytes → Bytes
file_of [] = []
file_of (line ∷ lines) = newline line (file_of lines)

pub load_lines-Reads :
    {strtod : Bytes → Parsed} {lines : List Bytes} {l l' : Loader} (fuel : ℕ)
    → Reads strtod lines l l'
    → length lines < fuel
    → load_lines strtod fuel (file_of lines) l ≡ some (ok, l')
unfolding load_lines fgets
load_lines-Reads zero r h = elim h [ ]
load_lines-Reads (suc fuel) done h = refl
load_lines-Reads {strtod} (suc fuel) (next {line} {lines} {l} {m} (p, short, e) r) h =
    load_lines-line strtod fuel line (file_of lines) l m p short e
    ∙ load_lines-Reads fuel r (omega arith)
