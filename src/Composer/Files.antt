-- ===== src/Composer/Files.antt =====
-- The p2 files of a package: SerializePackage and PackageFiles. The JSON codec is a parameter; a
-- failing `decode` is invalid JSON.
pub mod Laws
use wp_packages.Base.{
  ℕ, Bool, true, false, ◌&&◌, List, [], ◌∷◌, ◌++◌, Text, Map, codes, Option, none, some, eq_text,
  lt_text, lookup, insert, if◌then◌else◌,
}
use wp_packages.Text.{has_suffix, trim_suffix, or_else}
use wp_packages.Version.{normalize}
use wp_packages.Composer.{
  Json, Fields, object, done, field, PackageMeta, composer_name, entries_of, theme,
}

-- What json.Unmarshal into a map and json.Marshal do.
pub record Codec : Type 0 where
  pub decode : Text → Option (Map Text)
  pub encode : Json → Text

abbrev pub dev_suffix : Text
dev_suffix = codes "~dev"

-- ParsePublishedTimes on the decoded map: a later time of the same normalized version wins.
unfoldable pub add_times : Map Text → Map Text → Map Text
add_times [] times = times
add_times ((raw, t) ∷ rest) times =
    let ver = normalize raw in
    if eq_text ver []
    then add_times rest times
    else if lt_text (or_else (lookup ver times) []) t
    then add_times rest (insert ver t times)
    else add_times rest times

abbrev parsed_times : Option (Map Text) → Option (Map Text)
parsed_times none = none
parsed_times (some raw) = some (add_times raw [])

unfoldable pub parse_published_times : Codec → Option Text → Option (Map Text)
unfolding add_times
parse_published_times codec none = none
parse_published_times codec (some json) = parsed_times (codec.decode json)

-- HashVersions, with the hash function as an argument
unfoldable pub hash_versions : (Text → Text) → (ℕ → Text) → Text → Option ℕ → Option Text → Text
hash_versions sha256 decimal versions_json trunk_revision published_times_json = sha256 (
    versions_json
    ++ (elim trunk_revision [ none ↦ [] | some n ↦ decimal n ]
        ++ elim published_times_json [ none ↦ [] | some t ↦ t ]))

abbrev pub fields_of : Map Json → Fields
fields_of [] = done
fields_of ((ver, e) ∷ es) = field ver e (fields_of es)

abbrev pub payload : Text → Map Json → Json
payload name es =
    object (field (codes "packages") (object (field name (object (fields_of es)) done)) done)

pub data Serialized : Type 0 where
  failed : Serialized
  nothing : Serialized
  bytes : Text → Serialized

pub record PackageFile : Type 0 where
  pub key : Text
  pub content : Text

module _ (codec : Codec) (decimal : ℕ → Text) (checksum : Text → ℕ) where
  abbrev pub file_of : Text → Map Json → Serialized
  file_of name [] = nothing
  file_of name (e ∷ es) = bytes (codec.encode (payload name (e ∷ es)))

  unfoldable pub serialize_decoded :
      Bool → Text → Text → PackageMeta → Option (Map Text) → Serialized
  serialize_decoded is_dev pkg_type slug meta none = failed
  serialize_decoded is_dev pkg_type slug meta (some versions) =
      file_of (composer_name pkg_type slug)
        (entries_of decimal checksum is_dev pkg_type slug versions meta)

  unfoldable pub serialize_package : Text → Text → Text → PackageMeta → Serialized
  unfolding serialize_decoded
  serialize_package pkg_type name versions_json meta =
      let is_dev = has_suffix name dev_suffix in
      if is_dev && eq_text pkg_type theme
      then nothing
      else serialize_decoded is_dev pkg_type (trim_suffix name dev_suffix) meta
          (codec.decode versions_json)

  -- Adds the file of a result, unless the result is an error.
  abbrev pub add_file : Text → Serialized → List PackageFile → Option (List PackageFile)
  add_file key failed files = none
  add_file key nothing files = some files
  add_file key (bytes b) files = some (files ++ record { key = key; content = b } ∷ [])

  abbrev pub and_then :
      Option (List PackageFile)
      → (List PackageFile → Option (List PackageFile))
      → Option (List PackageFile)
  and_then none f = none
  and_then (some files) f = f files

  -- `none` where PackageFiles returns an error
  unfoldable pub package_files : Text → Text → Text → PackageMeta → Option (List PackageFile)
  unfolding serialize_package
  package_files pkg_type name versions_json meta =
      and_then
        (add_file (codes "p2/" ++ (composer_name pkg_type name ++ codes ".json"))
          (serialize_package pkg_type name versions_json meta) [])
        (add_file (codes "p2/" ++ (composer_name pkg_type name ++ codes "~dev.json"))
          (serialize_package pkg_type (name ++ dev_suffix) versions_json meta))
