-- ===== src/Config/Print/Assets.antt =====
-- src/edge_config.c: the lines of an [asset] section.
use opcua_edge.Base.{
  ℕ, ◌+◌, ◌<◌, ◌≡◌, ◌⊎◌, inl, inr, refl, ◌∙◌, none, some, List, [], ◌∷◌, arith, length, Bytes,
  str_eq, codes,
}
use opcua_edge.Types.{ok, EdgeAsset, EdgeModel}
use opcua_edge.Config.Fields.{Parsed, split_at_equals, split_key_value, parse_asset_key}
use opcua_edge.Config.Loader.{
  section_asset, on_key, Loader, new_asset, begin_asset, on_line, starts_with,
}
use opcua_edge.Config.Print.{Plain, Text, Takes, Reads, done, next}
use opcua_edge.Config.Print.Keys.{key_line, copied, in_asset, asset_key, takes_key}

abbrev pub AssetText : EdgeAsset → Type 0
AssetText a =
    Text 64 a.id × Text 64 a.type × Text 128 a.name × ((a.parent_id ≡ []) ⊎ Text 64 a.parent_id)

-- An asset under the plant has an empty parent.
abbrev pub asset_lines : EdgeAsset → List Bytes
asset_lines a =
    codes "[asset]"
    ∷ key_line (codes "id") a.id
    ∷ key_line (codes "type") a.type
    ∷ key_line (codes "name") a.name
    ∷ key_line (codes "parent") a.parent_id
    ∷ []

-- What a template says of an asset.
abbrev pub written_asset : EdgeAsset → EdgeAsset
written_asset a = record new_asset {
  id = a.id;
  type = a.type;
  name = a.name;
  parent_id = a.parent_id;
}

module _ (strtod : Bytes → Parsed) where
  asset_opens :
      (l : Loader)
      → length l.model.assets < 1024
      → on_line strtod l (codes "[asset]") ≡ some (ok, in_asset l.model new_asset)
  unfolding on_line starts_with str_eq begin_asset
  asset_opens l room = ground arith

  asset_parent :
      (m : EdgeModel) (a : EdgeAsset) (parent : Bytes)
      → (parent ≡ []) ⊎ Text 64 parent
      → Takes strtod
          (key_line (codes "parent") parent)
          (in_asset m a)
          (in_asset m (record a { parent_id = parent }))
  unfolding on_line starts_with split_key_value split_at_equals str_eq parse_asset_key
  asset_parent m a [] h = (
    ground arith,
    omega arith,
    asset_key strtod m a (record a { parent_id = [] }) (codes "parent") [] refl,
  )
  asset_parent m a (c ∷ cs) (inl e) = absurd (ground arith)
  asset_parent m a (c ∷ cs) (inr t) =
      takes_key strtod (codes "parent") (c ∷ cs) (in_asset m a)
        (in_asset m (record a { parent_id = c ∷ cs })) (ground arith) (omega arith) t
        (asset_key strtod m a (record a { parent_id = c ∷ cs }) (codes "parent") (c ∷ cs)
          (copied a.parent_id 64 (c ∷ cs) (λ x. record a { parent_id = x }) t))

  asset_text :
      (m : EdgeModel) (a a' : EdgeAsset) (key value : Bytes) {size : ℕ}
      → Plain key
      → length key + size < 510
      → Text size value
      → on_line strtod (in_asset m a) (key_line key value)
        ≡ on_key strtod section_asset (some (length m.assets)) none none (in_asset m a) key value
      → parse_asset_key a key value ≡ (ok, a')
      → Takes strtod (key_line key value) (in_asset m a) (in_asset m a')
  asset_text m a a' key value p short t line h =
      takes_key strtod key value (in_asset m a) (in_asset m a') p short t
        (line ∙ asset_key strtod m a a' key value h)

  pub asset_section :
      (l : Loader) (a : EdgeAsset)
      → AssetText a
      → length l.model.assets < 1024
      → Reads strtod (asset_lines a) l (in_asset l.model (written_asset a))
  unfolding on_line starts_with split_key_value split_at_equals str_eq parse_asset_key
  asset_section l a (id, type, name, parent) room =
      let m = l.model in
      let a1 = record new_asset { id = a.id } in
      let a2 = record a1 { type = a.type } in
      let a3 = record a2 { name = a.name } in
      next (ground arith, omega arith, asset_opens l room)
        (next
          (asset_text m new_asset a1 (codes "id") a.id (ground arith) (omega arith) id refl
            (copied [] 64 a.id (λ x. record new_asset { id = x }) id))
          (next
            (asset_text m a1 a2 (codes "type") a.type (ground arith) (omega arith) type refl
              (copied [] 64 a.type (λ x. record a1 { type = x }) type))
            (next
              (asset_text m a2 a3 (codes "name") a.name (ground arith) (omega arith) name refl
                (copied [] 128 a.name (λ x. record a2 { name = x }) name))
              (next (asset_parent m a3 a.parent_id parent) done))))
