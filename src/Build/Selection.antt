-- ===== src/Build/Selection.antt =====
-- The entries that a build chooses for the files of a package, against those of a synchronization.
use wp_packages.Base.{
  ℕ, ◌≡◌, refl, ap, ◌∙◌, Bool, true, false, [], ◌∷◌, Text, Map, codes, eq_text, if◌then◌else◌,
  Bool-cases, inl, inr,
}
use wp_packages.Text.{has_prefix}
use wp_packages.Version.{normalize_versions}
use wp_packages.Composer.{Json, tagged_entries, or_trunk, entries_of, plugin}
use wp_packages.Composer.Files.{Codec, Serialized, nothing, file_of}
use wp_packages.Packages.{Row}
use wp_packages.Build.{
  Previous, meta_of, tagged_versions, dev_versions, main_versions, main_file, dev_file,
}

unfoldable pub dev_or_none : Text → Serialized → Serialized
dev_or_none pkg_type z = if eq_text pkg_type plugin then z else nothing

module _ (codec : Codec) (decimal : ℕ → Text) (checksum : Text → ℕ) (format_time : ℕ → Text)
    (write_fails : Text → Bool) (previous : Previous) where
  tagged_versions-same :
      (r : Row) (versions : Map Text)
      → tagged_versions codec decimal checksum format_time write_fails previous r versions
        ≡ tagged_entries decimal checksum r.type r.name
            (meta_of codec decimal checksum format_time write_fails previous r)
            versions
  unfolding tagged_versions tagged_entries
  tagged_versions-same r [] = refl
  tagged_versions-same r ((ver, url) ∷ versions) =
      let rest = tagged_versions-same r versions in
      elim (Bool-cases (has_prefix ver (codes "dev-"))) [
        | inl e ↦ rw e rest
        | inr e ↦ rw (e, rest) refl
      ]

  main_versions-or_trunk :
      (r : Row) (es : Map Json)
      → main_versions codec decimal checksum format_time write_fails previous es
          (dev_versions codec decimal checksum format_time write_fails previous r)
        ≡ or_trunk decimal checksum r.type r.name
            (meta_of codec decimal checksum format_time write_fails previous r)
            es
  main_versions-or_trunk r (e ∷ es) = refl
  main_versions-or_trunk r [] = elim (Bool-cases (eq_text r.type plugin)) [
    | inl e ↦ rw e refl
    | inr e ↦ rw e refl
  ]

  main_file-file_of :
      (name : Text) (es : Map Json)
      → main_file codec decimal checksum format_time write_fails previous name es
        ≡ file_of codec decimal checksum name es
  main_file-file_of name [] = refl
  main_file-file_of name (e ∷ es) = refl

  -- The data of the builder's main file is that of the serializer.
  pub main_file-same :
      (r : Row) (name : Text) (versions : Map Text)
      → main_file codec decimal checksum format_time write_fails previous name (
          main_versions codec decimal checksum format_time write_fails previous
            (tagged_versions codec decimal checksum format_time write_fails previous r
              (normalize_versions versions))
            (dev_versions codec decimal checksum format_time write_fails previous r))
        ≡ file_of codec decimal checksum name (
            entries_of decimal checksum false r.type r.name versions
              (meta_of codec decimal checksum format_time write_fails previous r))
  unfolding entries_of
  main_file-same r name versions =
      main_file-file_of name _
      ∙ ap (file_of codec decimal checksum name) (
          ap
            (λ es.
              main_versions codec decimal checksum format_time write_fails previous es
                (dev_versions codec decimal checksum format_time write_fails previous r))
            (tagged_versions-same r (normalize_versions versions))
          ∙ main_versions-or_trunk r _)

  -- So is that of its trunk file, which only a plugin has.
  pub dev_file-same :
      (r : Row) (name : Text) (versions : Map Text)
      → dev_file codec decimal checksum format_time write_fails previous name
          (dev_versions codec decimal checksum format_time write_fails previous r)
        ≡ dev_or_none r.type (
            file_of codec decimal checksum name (
              entries_of decimal checksum true r.type r.name versions
                (meta_of codec decimal checksum format_time write_fails previous r)))
  unfolding entries_of dev_or_none
  dev_file-same r name versions = elim (Bool-cases (eq_text r.type plugin)) [
    | inl e ↦ rw e refl
    | inr e ↦ rw e refl
  ]
