-- ===== src/Composer/Files/Laws.antt =====
-- The p2 files of a package and their keys (internal/composer/serialize.go).
use wp_packages.Base.{
  ℕ, ◌≡◌, ◌∙◌, refl, Bool, true, false, ◌&&◌, List, [], ◌∷◌, ◌++◌, Text, Map, codes, some, eq_text,
  All, In, if◌then◌else◌, inl, inr, length, ◌≢◌, eq_text_refl,
}
use wp_packages.Text.{has_suffix, trim_suffix}
use wp_packages.Text.Trim.{has_suffix-append}
use wp_packages.Composer.{
  PackageMeta, composer_name, object_keys, theme, plugin, Json, entries_of, tagged_entries,
  or_trunk,
}
use wp_packages.Composer.Files.{
  Codec, Serialized, failed, nothing, bytes, PackageFile, serialize_package, serialize_decoded,
  package_files, add_file, and_then, dev_suffix, file_of,
}

module _ (codec : Codec) (decimal : ℕ → Text) (checksum : Text → ℕ) where
  keys_fit :
      (main dev : Text) (a b : Serialized) (files : List PackageFile)
      → and_then codec decimal checksum
          (add_file codec decimal checksum main a [])
          (add_file codec decimal checksum dev b)
        ≡ some files
      → All (λ (f : PackageFile). In f.key (main ∷ dev ∷ [])) files
  keys_fit main dev failed b files h = absurd (cc)
  keys_fit main dev nothing failed files h = absurd (cc)
  keys_fit main dev nothing nothing files h = let e : [] ≡ files = cc in rw (← e) tt
  keys_fit main dev nothing (bytes y) files h =
      let e : record { key = dev; content = y } ∷ [] ≡ files = cc in rw (← e) (inr (inl refl), tt)
  keys_fit main dev (bytes x) failed files h = absurd (cc)
  keys_fit main dev (bytes x) nothing files h =
      let e : record { key = main; content = x } ∷ [] ≡ files = cc in rw (← e) (inl refl, tt)
  keys_fit main dev (bytes x) (bytes y) files h =
      let e : record { key = main; content = x } ∷ record { key = dev; content = y } ∷ [] ≡ files =
        cc in
      rw (← e) (inl refl, (inr (inl refl), tt))

  -- Every file of a package stands under one of its object keys.
  pub package_files-object_keys :
      (pkg_type name versions_json : Text) (meta : PackageMeta) (files : List PackageFile)
      → package_files codec decimal checksum pkg_type name versions_json meta ≡ some files
      → All (λ (f : PackageFile). In f.key (object_keys pkg_type name)) files
  unfolding package_files object_keys
  package_files-object_keys pkg_type name versions_json meta files h = keys_fit _ _ _ _ files h

  theme_dev :
      (name versions_json : Text) (meta : PackageMeta)
      → serialize_package codec decimal checksum theme (name ++ dev_suffix) versions_json meta
        ≡ nothing
  unfolding serialize_package
  theme_dev name versions_json meta = rw (has_suffix-append name dev_suffix, eq_text_refl theme)

  -- A theme has at most its main file, and never a file of the trunk.
  pub package_files-theme :
      (name versions_json : Text) (meta : PackageMeta) (files : List PackageFile)
      → package_files codec decimal checksum theme name versions_json meta ≡ some files
      → All
          (λ (f : PackageFile). f.key ≡ codes "p2/" ++ (composer_name theme name ++ codes ".json"))
          files
  unfolding package_files
  package_files-theme name versions_json meta files h =
      only_main _ _ (serialize_package codec decimal checksum theme name versions_json meta) _ files
        (theme_dev name versions_json meta) h
    where
      only_main :
          (main dev : Text) (a b : Serialized) (files : List PackageFile)
          → b ≡ nothing
          → and_then codec decimal checksum
              (add_file codec decimal checksum main a [])
              (add_file codec decimal checksum dev b)
            ≡ some files
          → All (λ (f : PackageFile). f.key ≡ main) files
      only_main main dev failed b files e k = absurd (cc)
      only_main main dev nothing b files e k = let e' : [] ≡ files = cc (rw e at k) in rw (← e') tt
      only_main main dev (bytes x) b files e k =
          let e' : record { key = main; content = x } ∷ [] ≡ files = cc (rw e at k) in
          rw (← e') (refl, tt)

  pub nonempty_file :
      (name : Text) (es : Map Json)
      → es ≢ []
      → (b : Text) × (file_of codec decimal checksum name es ≡ bytes b)
  nonempty_file name [] h = absurd (h refl)
  nonempty_file name (e ∷ es) h = (_, refl)

  -- A plugin's entries are never empty.
  pub plugin_entries :
      (is_dev : Bool) (slug : Text) (versions : Map Text) (meta : PackageMeta)
      → entries_of decimal checksum is_dev plugin slug versions meta ≢ []
  unfolding entries_of eq_text
  plugin_entries true slug versions meta h = absurd (cc)
  plugin_entries false slug versions meta h =
      go (tagged_entries decimal checksum plugin slug meta _) h
    where
      go : (es : Map Json) → or_trunk decimal checksum plugin slug meta es ≢ []
      go [] e = absurd (cc)
      go (x ∷ es) e = absurd (cc)

  not_theme : (c : Bool) (x : Serialized) → (if c && false then nothing else x) ≡ x
  not_theme true x = refl
  not_theme false x = refl

  plugin_file :
      (name versions_json : Text) (meta : PackageMeta) (versions : Map Text)
      → codec.decode versions_json ≡ some versions
      → (b : Text) × (serialize_package codec decimal checksum plugin name versions_json meta
          ≡ bytes b)
  unfolding serialize_package eq_text
  plugin_file name versions_json meta versions d =
      let is_dev = has_suffix name dev_suffix in
      let slug = trim_suffix name dev_suffix in
      let (b, e) =
        nonempty_file (composer_name plugin slug)
          (entries_of decimal checksum is_dev plugin slug versions meta)
          (plugin_entries is_dev slug versions meta) in
      let s : serialize_decoded codec decimal checksum is_dev plugin slug meta
            (codec.decode versions_json)
          ≡ bytes b =
        rw d e in
      (
        b,
        not_theme is_dev (
              serialize_decoded codec decimal checksum is_dev plugin slug meta
                (codec.decode versions_json))
            ∙ s,
      )

  both :
      (main dev a b : Text) (x y : Serialized)
      → x ≡ bytes a
      → y ≡ bytes b
      → and_then codec decimal checksum
          (add_file codec decimal checksum main x [])
          (add_file codec decimal checksum dev y)
        ≡ some (record { key = main; content = a } ∷ record { key = dev; content = b } ∷ [])
  both main dev a b x y ex ey = rw (ex, ey) refl

  -- A plugin always has both files, also with no tagged version, if its versions decode.
  pub package_files-plugin :
      (name versions_json : Text) (meta : PackageMeta) (versions : Map Text)
      → codec.decode versions_json ≡ some versions
      → (files : List PackageFile) × (package_files codec decimal checksum plugin name versions_json
            meta
          ≡ some files)
        × (length files ≡ 2)
  unfolding package_files
  package_files-plugin name versions_json meta versions d =
      let (a, ea) = plugin_file name versions_json meta versions d in
      let (b, eb) = plugin_file (name ++ dev_suffix) versions_json meta versions d in
      (_, both _ _ a b _ _ ea eb, refl)
