-- ===== src/Startup/Settings.antt =====
-- src/main.c: what is taken from the environment and the command line. `strtol` is written out; its
-- result is a sign and a magnitude.
use opcua_edge.Base.{
  ℕ, ◌-◌, ◌^◌, Bool, true, false, not, ◌&&◌, Option, none, some, List, [], ◌∷◌, ltb, leb, ◌==◌,
  if◌then◌else◌, Bytes, codes, is_empty,
}
use opcua_edge.Config.Fields.{digits_value, skip_spaces}

-- A long of 64 bits; a value out of range is cut to the nearest one.
pub record Long : Type 0 where
  pub negative : Bool
  pub magnitude : ℕ

unfoldable pub clamp : Bool → ℕ → Long
clamp negative n =
    let bound = if negative then 2 ^ 63 else 2 ^ 63 - 1 in
    record { negative = negative && not (n == 0); magnitude = if ltb bound n then bound else n }

unfoldable pub signed_long : Bytes → Long
unfolding clamp
signed_long [] = clamp false 0
signed_long (c ∷ cs) =
    if c == b'-'
    then clamp true (digits_value 0 cs)
    else if c == b'+'
    then clamp false (digits_value 0 cs)
    else clamp false (digits_value 0 (c ∷ cs))

unfoldable pub strtol : Bytes → Long
unfolding signed_long
strtol text = signed_long (skip_spaces text)

pub record Options : Type 0 where
  pub config_path : Bytes
  pub db_path : Bytes
  pub modbus_host : Bytes
  pub modbus_port : ℕ
  pub opcua_port : ℕ

-- A variable that is set and not empty.
abbrev pub nonempty : Option Bytes → Option Bytes
nonempty none = none
nonempty (some text) = if is_empty text then none else some text

abbrev pub or_else {ℓ} : {A : Type ℓ} → Option A → A → A
or_else none a = a
or_else (some b) a = b

-- A port from `least` to 65535; any other text leaves the default.
unfoldable pub port_of : ℕ → ℕ → Option Bytes → ℕ
port_of least default none = default
port_of least default (some text) =
    let parsed = strtol text in
    if not parsed.negative && leb least parsed.magnitude && leb parsed.magnitude 65535
    then parsed.magnitude
    else default

-- `argv[1]` if `argc > 1`.
abbrev pub first_argument : List Bytes → Option Bytes
first_argument [] = none
first_argument (program ∷ []) = none
first_argument (program ∷ argument ∷ rest) = some argument

unfoldable pub options : (Bytes → Option Bytes) → List Bytes → Options
unfolding port_of strtol
options getenv argv = record {
  config_path = or_else (first_argument argv) (
      or_else (nonempty (getenv (codes "EDGE_CONFIG_PATH")))
        (codes "templates/desalination_plant.edge"));
  db_path = or_else (nonempty (getenv (codes "EDGE_DB_PATH"))) (codes "opcua-edge.db");
  modbus_host = or_else (getenv (codes "EDGE_MODBUS_HOST")) (codes "127.0.0.1");
  modbus_port = port_of 0 1502 (nonempty (getenv (codes "EDGE_MODBUS_PORT")));
  opcua_port = port_of 1 4840 (nonempty (getenv (codes "EDGE_OPCUA_PORT")));
}
