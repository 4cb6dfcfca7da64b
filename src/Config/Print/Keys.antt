-- ===== src/Config/Print/Keys.antt =====
-- src/edge_config.c: the lines of each section.
use opcua_edge.Base.{
  ℕ, ◌+◌, ◌<◌, ◌≡◌, refl, none, some, List, [], ◌∷◌, ◌++◌, arith, length, length-append, All-append,
  Bytes, get_elem?, set,
}
use opcua_edge.Types.{ok, EdgeNode, EdgeAsset, EdgeEvent, EdgeModel}
use opcua_edge.Config.Fields.{
  Parsed, copy_value, parse_asset_key, parse_node_key, parse_event_key, stored,
}
use opcua_edge.Config.Loader.{
  section_asset, section_node, section_event, Loader, set_asset, set_node, set_event, on_key,
  on_line,
}
use opcua_edge.Config.Print.{Plain, Text, Takes}

-- A line that sets a key.
abbrev pub key_line : Bytes → Bytes → Bytes
key_line key value = key ++ (b'=' ∷ value)

module _ {ℓ} {A : Type ℓ} where
  get_elem?-last : (xs : List A) (a : A) → get_elem? (xs ++ (a ∷ [])) (length xs) ≡ some a
  get_elem?-last [] a = refl
  get_elem?-last (b ∷ xs) a = get_elem?-last xs a

  set-last : (xs : List A) (a b : A) → set (xs ++ (a ∷ [])) (length xs) b ≡ xs ++ (b ∷ [])
  set-last [] a b = refl
  set-last (c ∷ xs) a b = λ i. c ∷ set-last xs a b i

pub copied {ℓ} :
    {A : Type ℓ} (dst : Bytes) (size : ℕ) (src : Bytes) (put : Bytes → A)
    → Text size src
    → stored (copy_value dst size src) put ≡ (ok, put src)
unfolding copy_value
copied dst size [] put t = absurd (t.0 refl)
copied dst size (c ∷ cs) put t = ground arith

line-Plain :
    (key value : Bytes) {size : ℕ} → Plain key → Text size value → Plain (key_line key value)
line-Plain key value p t =
    All-append _ key (b'=' ∷ value) p ((ground arith, ground arith, ground arith), t.2)

line_short :
    (key value : Bytes) {size : ℕ}
    → length key + size < 510
    → Text size value
    → length (key_line key value) < 510
line_short key value h t = ground (arith, length-append key (b'=' ∷ value))

-- The loader with the last record of a section as it is so far.
abbrev pub in_asset : EdgeModel → EdgeAsset → Loader
in_asset m a = record {
  model = record m { assets = m.assets ++ (a ∷ []) };
  section = section_asset;
  asset = some (length m.assets);
  node = none;
  event = none;
}

abbrev pub in_node : EdgeModel → EdgeNode → Loader
in_node m n = record {
  model = record m { nodes = m.nodes ++ (n ∷ []) };
  section = section_node;
  asset = none;
  node = some (length m.nodes);
  event = none;
}

abbrev pub in_event : EdgeModel → EdgeEvent → Loader
in_event m e = record {
  model = record m { events = m.events ++ (e ∷ []) };
  section = section_event;
  asset = none;
  node = none;
  event = some (length m.events);
}

module _ (strtod : Bytes → Parsed) where
  pub asset_key :
      (m : EdgeModel) (a a' : EdgeAsset) (key value : Bytes)
      → parse_asset_key a key value ≡ (ok, a')
      → on_key strtod section_asset (some (length m.assets)) none none (in_asset m a) key value
        ≡ some (ok, in_asset m a')
  unfolding on_key set_asset
  asset_key m a a' key value h =
      ground (arith, get_elem?-last m.assets a, set-last m.assets a a', h)

  pub node_key :
      (m : EdgeModel) (n n' : EdgeNode) (key value : Bytes)
      → parse_node_key strtod n key value ≡ (ok, n')
      → on_key strtod section_node none (some (length m.nodes)) none (in_node m n) key value
        ≡ some (ok, in_node m n')
  unfolding on_key set_node
  node_key m n n' key value h = ground (arith, get_elem?-last m.nodes n, set-last m.nodes n n', h)

  pub event_key :
      (m : EdgeModel) (e e' : EdgeEvent) (key value : Bytes)
      → parse_event_key strtod e key value ≡ (ok, e')
      → on_key strtod section_event none none (some (length m.events)) (in_event m e) key value
        ≡ some (ok, in_event m e')
  unfolding on_key set_event
  event_key m e e' key value h =
      ground (arith, get_elem?-last m.events e, set-last m.events e e', h)

  pub takes_key :
      (key value : Bytes) {size : ℕ} (l m : Loader)
      → Plain key
      → length key + size < 510
      → Text size value
      → on_line strtod l (key_line key value) ≡ some (ok, m)
      → Takes strtod (key_line key value) l m
  takes_key key value l m p short t e = (line-Plain key value p t, line_short key value short t, e)
