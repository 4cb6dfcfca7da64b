-- ===== src/Config/Print/Template.antt =====
-- src/edge_config.c: a whole template written out, and the model that its lines give.
use opcua_edge.Base.{
  ℕ, ◌+◌, ◌<◌, ◌≤◌, ◌≡◌, refl, sym, ap, ◌∙◌, some, List, [], ◌∷◌, ◌++◌, map, arith, length,
  length-append, All, Bytes, str_eq, codes,
}
use mathlib.Core.List.{append-nil, append_assoc}
use opcua_edge.Types.{ok, EdgeNode, EdgeAsset, EdgeEvent, EdgeModel}
use opcua_edge.Config.Fields.{Parsed, split_at_equals, split_key_value, parse_plant_key, stored}
use opcua_edge.Config.Loader.{
  section_plant, on_key, Loader, empty_model, on_line, starts_with, load_lines,
}
use opcua_edge.Config.Resolve.{start}
use opcua_edge.Config.Print.{Text, Reads, done, next, Reads-append, file_of, load_lines-Reads}
use opcua_edge.Config.Print.Keys.{in_asset, in_node, in_event, key_line, copied, takes_key}
use opcua_edge.Config.Print.Assets.{AssetText, asset_lines, written_asset, asset_section}
use opcua_edge.Config.Print.Nodes.{NodeText, node_lines, written_node, node_section}
use opcua_edge.Config.Print.Events.{EventText, event_lines, written_event, event_section}

abbrev lines_of {ℓ} : {A : Type ℓ} → (A → List Bytes) → List A → List Bytes
lines_of write [] = []
lines_of write (x ∷ xs) = write x ++ lines_of write xs

abbrev plant_lines : EdgeModel → List Bytes
plant_lines m = codes "[plant]" ∷ key_line (codes "id") m.id ∷ key_line (codes "name") m.name ∷ []

abbrev pub template_lines : (ℕ → Bytes) → EdgeModel → List Bytes
template_lines print m =
    plant_lines m
    ++ (lines_of asset_lines m.assets
        ++ (lines_of (node_lines print) m.nodes ++ lines_of (event_lines print) m.events))

-- What a template says of a model: no indices, no pointers and no values.
abbrev pub written : EdgeModel → EdgeModel
written m = record {
  id = m.id;
  name = m.name;
  assets = map written_asset m.assets;
  nodes = map written_node m.nodes;
  events = map written_event m.events;
}

-- Every text is plain and fits its field, every number is in its range and every record has a place.
pub record Writable (strtod : Bytes → Parsed) (print : ℕ → Bytes) (m : EdgeModel) : Type 0 where
  pub plant_id : Text 64 m.id
  pub plant_name : Text 128 m.name
  pub assets_text : All AssetText m.assets
  pub nodes_text : All (NodeText strtod print) m.nodes
  pub events_text : All (EventText strtod print) m.events
  pub asset_room : length m.assets ≤ 1024
  pub node_room : length m.nodes ≤ 65536
  pub event_room : length m.events ≤ 4096

-- One record after the other added to a model.
abbrev adds {ℓ} : {A : Type ℓ} → (EdgeModel → A → EdgeModel) → EdgeModel → List A → EdgeModel
adds add m [] = m
adds add m (x ∷ xs) = adds add (add m x) xs

abbrev add_asset : EdgeModel → EdgeAsset → EdgeModel
add_asset m a = record m { assets = m.assets ++ (written_asset a ∷ []) }

abbrev add_node : EdgeModel → EdgeNode → EdgeModel
add_node m n = record m { nodes = m.nodes ++ (written_node n ∷ []) }

abbrev add_event : EdgeModel → EdgeEvent → EdgeModel
add_event m e = record m { events = m.events ++ (written_event e ∷ []) }

adds-add_asset :
    (m : EdgeModel) (xs : List EdgeAsset)
    → adds add_asset m xs ≡ record m { assets = m.assets ++ map written_asset xs }
adds-add_asset m [] = λ i. record m { assets = sym (append-nil m.assets) i }
adds-add_asset m (x ∷ xs) = adds-add_asset (add_asset m x) xs ∙ (λ i. record m {
  assets = append_assoc m.assets (written_asset x ∷ []) (map written_asset xs) i;
})

adds-add_node :
    (m : EdgeModel) (xs : List EdgeNode)
    → adds add_node m xs ≡ record m { nodes = m.nodes ++ map written_node xs }
adds-add_node m [] = λ i. record m { nodes = sym (append-nil m.nodes) i }
adds-add_node m (x ∷ xs) =
    adds-add_node (add_node m x) xs
    ∙ (λ i. record m { nodes = append_assoc m.nodes (written_node x ∷ []) (map written_node xs) i })

adds-add_event :
    (m : EdgeModel) (xs : List EdgeEvent)
    → adds add_event m xs ≡ record m { events = m.events ++ map written_event xs }
adds-add_event m [] = λ i. record m { events = sym (append-nil m.events) i }
adds-add_event m (x ∷ xs) = adds-add_event (add_event m x) xs ∙ (λ i. record m {
  events = append_assoc m.events (written_event x ∷ []) (map written_event xs) i;
})

-- The lines lead to a loader with this model.
abbrev ReadsModel : (Bytes → Parsed) → List Bytes → Loader → EdgeModel → Type 0
ReadsModel strtod lines l m = (l' : Loader) × Reads strtod lines l l' × (l'.model ≡ m)

-- One section after the other, each adding its record as long as there is room.
sections_read {ℓ} :
    {A : Type ℓ} (strtod : Bytes → Parsed) (write : A → List Bytes) (P : A → Type 0)
    (add : EdgeModel → A → EdgeModel) (count : EdgeModel → ℕ) (room : ℕ)
    → ((l : Loader) (x : A)
        → P x
        → count l.model < room
        → ReadsModel strtod (write x) l (add l.model x))
    → ((m : EdgeModel) (x : A) → count (add m x) ≡ count m + 1)
    → (xs : List A) (l : Loader) → All P xs
    → count l.model + length xs ≤ room
    → ReadsModel strtod (lines_of write xs) l (adds add l.model xs)
sections_read strtod write P add count room section counts [] l t fits = (l, done, refl)
sections_read strtod write P add count room section counts (x ∷ xs) l t fits =
    let (m, r, e) = section l x t.0 (omega arith) in
    let grown : count m.model ≡ count l.model + 1 = ap count e ∙ counts l.model x in
    let (l', r', e') =
      sections_read strtod write P add count room section counts xs m t.1 (omega (arith, grown)) in
    (l', Reads-append r r', e' ∙ ap (λ (k : EdgeModel). adds add k xs) e)

one_more {ℓ} : {A : Type ℓ} (xs : List A) (x : A) → length (xs ++ (x ∷ [])) ≡ length xs + 1
one_more xs x = omega (arith, length-append xs (x ∷ []))

module _ (strtod : Bytes → Parsed) (print : ℕ → Bytes) where
  plant_read :
      (m : EdgeModel)
      → Text 64 m.id
      → Text 128 m.name
      → ReadsModel strtod
          (plant_lines m)
          (start empty_model)
          (record empty_model { id = m.id; name = m.name })
  unfolding start on_line starts_with split_key_value split_at_equals str_eq parse_plant_key on_key
  plant_read m id name =
      let opened : Loader = record (start empty_model) { section = section_plant } in
      let named : Loader = record opened { model = record empty_model { id = m.id } } in
      let full : Loader = record opened {
        model = record empty_model { id = m.id; name = m.name };
      } in
      (
        full,
        next {m = opened} (ground arith, omega arith, refl)
            (next
              (takes_key strtod (codes "id") m.id opened named (ground arith) (omega arith) id (
                ap (λ r. some (stored r (λ (k : EdgeModel). record opened { model = k })))
                  (copied [] 64 m.id (λ x. record empty_model { id = x }) id)))
              (next
                (takes_key strtod (codes "name") m.name named full (ground arith) (omega arith) name
                  (ap (λ r. some (stored r (λ (k : EdgeModel). record opened { model = k })))
                    (copied [] 128 m.name (λ x. record empty_model { id = m.id; name = x }) name)))
                done)),
        refl,
      )

  assets_read :
      (m : EdgeModel) (xs : List EdgeAsset) (l : Loader)
      → l.model ≡ m
      → All AssetText xs
      → length m.assets + length xs ≤ 1024
      → ReadsModel strtod
          (lines_of asset_lines xs)
          l
          (record m { assets = m.assets ++ map written_asset xs })
  assets_read m xs l e t fits =
      let (l', r, e') =
        sections_read strtod asset_lines AssetText add_asset (λ k. length k.assets) 1024
          (λ l x t room.
            (in_asset l.model (written_asset x), asset_section strtod l x t room, refl))
          (λ k x. one_more k.assets (written_asset x)) xs l t (rw e fits) in
      (l', r, e' ∙ ap (λ (k : EdgeModel). adds add_asset k xs) e ∙ adds-add_asset m xs)

  nodes_read :
      (m : EdgeModel) (xs : List EdgeNode) (l : Loader)
      → l.model ≡ m
      → All (NodeText strtod print) xs
      → length m.nodes + length xs ≤ 65536
      → ReadsModel strtod
          (lines_of (node_lines print) xs)
          l
          (record m { nodes = m.nodes ++ map written_node xs })
  nodes_read m xs l e t fits =
      let (l', r, e') =
        sections_read strtod (node_lines print) (NodeText strtod print) add_node
          (λ k. length k.nodes) 65536
          (λ l x t room.
            (in_node l.model (written_node x), node_section strtod print l x t room, refl))
          (λ k x. one_more k.nodes (written_node x)) xs l t (rw e fits) in
      (l', r, e' ∙ ap (λ (k : EdgeModel). adds add_node k xs) e ∙ adds-add_node m xs)

  events_read :
      (m : EdgeModel) (xs : List EdgeEvent) (l : Loader)
      → l.model ≡ m
      → All (EventText strtod print) xs
      → length m.events + length xs ≤ 4096
      → ReadsModel strtod
          (lines_of (event_lines print) xs)
          l
          (record m { events = m.events ++ map written_event xs })
  events_read m xs l e t fits =
      let (l', r, e') =
        sections_read strtod (event_lines print) (EventText strtod print) add_event
          (λ k. length k.events) 4096
          (λ l x t room.
            (in_event l.model (written_event x), event_section strtod print l x t room, refl))
          (λ k x. one_more k.events (written_event x)) xs l t (rw e fits) in
      (l', r, e' ∙ ap (λ (k : EdgeModel). adds add_event k xs) e ∙ adds-add_event m xs)

  template_read :
      (m : EdgeModel)
      → Writable strtod print m
      → ReadsModel strtod (template_lines print m) (start empty_model) (written m)
  template_read m w =
      let m1 : EdgeModel = record empty_model { id = m.id; name = m.name } in
      let m2 : EdgeModel = record m1 { assets = map written_asset m.assets } in
      let m3 : EdgeModel = record m2 { nodes = map written_node m.nodes } in
      let (l1, r1, e1) = plant_read m w.plant_id w.plant_name in
      let (l2, r2, e2) =
        assets_read m1 m.assets l1 e1 w.assets_text (omega (arith, w.asset_room)) in
      let (l3, r3, e3) = nodes_read m2 m.nodes l2 e2 w.nodes_text (omega (arith, w.node_room)) in
      let (l4, r4, e4) =
        events_read m3 m.events l3 e3 w.events_text (omega (arith, w.event_room)) in
      (l4, Reads-append r1 (Reads-append r2 (Reads-append r3 r4)), e4)

  -- A template written out, each field on its line, is read back by the line loop, with more fuel than it
  -- has lines: every line is accepted, and the model is the one written, with no indices, pointers and
  -- values set. Its texts must be plain (with no NUL and no end of line), not empty and short enough for
  -- their fields, its numbers in range, its arrays within their limits, and `strtod` must read back how
  -- its doubles are written.
  pub load_lines-template :
      (m : EdgeModel) (fuel : ℕ)
      → Writable strtod print m
      → length (template_lines print m) < fuel
      → (l : Loader) × (load_lines strtod fuel
            (file_of (template_lines print m))
            (start empty_model)
          ≡ some (ok, l))
        × (l.model ≡ written m)
  load_lines-template m fuel w h =
      let (l, r, e) = template_read m w in (l, load_lines-Reads fuel r h, e)
