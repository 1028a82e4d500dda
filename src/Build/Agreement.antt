-- ===== src/Build/Agreement.antt =====
-- The files of a local build against those of a synchronization (internal/composer/serialize.go).
use wp_packages.Base.{
  ℕ, suc, ◌≡◌, ◌⊎◌, refl, ◌∙◌, length, ◌+◌, Bool, true, false, ◌||◌, List, [], ◌∷◌, ◌++◌, Text, Map,
  Option, some, eq_text, insert, if◌then◌else◌, arith, inl, inr,
}
use wp_packages.Text.{has_suffix}
use wp_packages.Text.Trim.{has_suffix-append, trim_suffix-append, trim_suffix_kept}
use wp_packages.Composer.{Json, PackageMeta, composer_name, entries_of, plugin, theme}
use wp_packages.Composer.Files.{
  Codec, Serialized, nothing, bytes, PackageFile, serialize_package, serialize_decoded,
  package_files, add_file, and_then, dev_suffix, file_of,
}
use wp_packages.Composer.Files.Laws.{nonempty_file, plugin_entries}
use wp_packages.Packages.{Row}
use wp_packages.Build.Selection.{dev_or_none, main_file-same, dev_file-same}
use wp_packages.Build.{
  Previous, BuildState, main_path, dev_path, meta_of, is_changed, write_file, note_changed,
  build_main, build_package,
}

-- The files written one after the other.
unfoldable pub put_all : List PackageFile → Map Text → Map Text
put_all [] dir = dir
put_all (f ∷ fs) dir = put_all fs (insert f.key f.content dir)

module _ (codec : Codec) (decimal : ℕ → Text) (checksum : Text → ℕ) where
  main_serialized :
      (pkg_type name versions_json : Text) (meta : PackageMeta) (versions : Map Text)
      → codec.decode versions_json ≡ some versions
      → has_suffix name dev_suffix ≡ false
      → serialize_package codec decimal checksum pkg_type name versions_json meta
        ≡ file_of codec decimal checksum
            (composer_name pkg_type name)
            (entries_of decimal checksum false pkg_type name versions meta)
  unfolding serialize_package serialize_decoded
  main_serialized pkg_type name versions_json meta versions d s =
      rw (s, trim_suffix_kept name dev_suffix s, d) refl

  dev_serialized :
      (pkg_type name versions_json : Text) (meta : PackageMeta) (versions : Map Text)
      → codec.decode versions_json ≡ some versions
      → serialize_package codec decimal checksum pkg_type (name ++ dev_suffix) versions_json meta
        ≡ (if eq_text pkg_type theme
            then nothing
            else file_of codec decimal checksum
                (composer_name pkg_type name)
                (entries_of decimal checksum true pkg_type name versions meta))
  unfolding serialize_package serialize_decoded
  dev_serialized pkg_type name versions_json meta versions d =
      rw (has_suffix-append name dev_suffix, trim_suffix-append name dev_suffix, d) refl

  -- No main file and no trunk file, or a main file and a trunk file or none.
  abbrev Fits : Serialized → Serialized → Type 0
  Fits x y =
      ((x ≡ nothing) × (y ≡ nothing))
      ⊎ ((a : Text) × (x ≡ bytes a) × ((y ≡ nothing) ⊎ ((b : Text) × (y ≡ bytes b))))

  dev_or_none-theme :
      (pkg_type : Text) (z : Serialized)
      → (pkg_type ≡ plugin) ⊎ (pkg_type ≡ theme)
      → (if eq_text pkg_type theme then nothing else z) ≡ dev_or_none pkg_type z
  unfolding eq_text dev_or_none
  dev_or_none-theme pkg_type z (inl e) = rw e refl
  dev_or_none-theme pkg_type z (inr e) = rw e refl

  files-Fits :
      (pkg_type name : Text) (meta : PackageMeta) (versions : Map Text)
      → (pkg_type ≡ plugin) ⊎ (pkg_type ≡ theme)
      → Fits
          (file_of codec decimal checksum
            (composer_name pkg_type name)
            (entries_of decimal checksum false pkg_type name versions meta))
          (dev_or_none pkg_type (
            file_of codec decimal checksum
              (composer_name pkg_type name)
              (entries_of decimal checksum true pkg_type name versions meta)))
  unfolding eq_text dev_or_none
  files-Fits pkg_type name meta versions (inl e) =
      let (a, ea) =
        nonempty_file codec decimal checksum (composer_name plugin name)
          (entries_of decimal checksum false plugin name versions meta)
          (plugin_entries codec decimal checksum false name versions meta) in
      let (b, eb) =
        nonempty_file codec decimal checksum (composer_name plugin name)
          (entries_of decimal checksum true plugin name versions meta)
          (plugin_entries codec decimal checksum true name versions meta) in
      rw e (inr (a, ea, inr (b, eb)))
  files-Fits pkg_type name meta versions (inr e) =
      rw e (go (entries_of decimal checksum false theme name versions meta))
    where
      go :
          (es : Map Json)
          → Fits (file_of codec decimal checksum (composer_name theme name) es) nothing
      go [] = inl (refl, refl)
      go (x ∷ es) = inr (_, refl, inl refl)

  one_more : (n : ℕ) → suc n ≡ n + 1
  one_more n = omega arith

  two_more : (n : ℕ) → suc (suc n) ≡ n + 2
  two_more n = omega arith

  module _ (format_time : ℕ → Text) (write_fails : Text → Bool) (previous : Previous) where
    -- A build that leaves the files, and counts them.
    abbrev pub IsWritten : List PackageFile → BuildState → Option BuildState → Type 0
    IsWritten files st result =
        (st' : BuildState) × (result ≡ some st')
        × (st'.dir ≡ put_all files st.dir)
        × (st'.artifact_count ≡ st.artifact_count + length files)

    note_changed-IsWritten :
        (name : Text) (b : Bool) (files : List PackageFile) (st st' : BuildState)
        → st'.dir ≡ put_all files st.dir
        → st'.artifact_count ≡ st.artifact_count + length files
        → IsWritten files st
            (some (note_changed codec decimal checksum format_time write_fails previous name b st'))
    note_changed-IsWritten name true files st st' d n = (_, refl, d, n)
    note_changed-IsWritten name false files st st' d n = (_, refl, d, n)

    abbrev with_main : Text → Text → BuildState → BuildState
    with_main name a st =
        write_file codec decimal checksum format_time write_fails previous (main_path name) a
          (record st { packages_total = suc st.packages_total })

    Fits-IsWritten :
        (name : Text) (x y : Serialized) (st : BuildState)
        → ((path : Text) → write_fails path ≡ false)
        → Fits x y
        → (files : List PackageFile) × (and_then codec decimal checksum
              (add_file codec decimal checksum (main_path name) x [])
              (add_file codec decimal checksum (dev_path name) y)
            ≡ some files)
          × IsWritten files st
              (build_main codec decimal checksum format_time write_fails previous name x y st)
    unfolding put_all write_file
    Fits-IsWritten name x y st w (inl (ex, ey)) =
        rw (ex, ey) ([], refl, (st, refl, refl, omega arith))
    Fits-IsWritten name x y st w (inr (a, ex, inl ey)) =
        let changed = is_changed previous (main_path name) a in
        let files : List PackageFile = record { key = main_path name; content = a } ∷ [] in
        rw (ex, ey, w (main_path name))
          (
            files,
            refl,
            note_changed-IsWritten name changed files st (with_main name a st) refl
                (one_more st.artifact_count),
          )
    Fits-IsWritten name x y st w (inr (a, ex, inr (b, ey))) =
        let changed =
          is_changed previous (main_path name) a || is_changed previous (dev_path name) b in
        let files : List PackageFile =
          record { key = main_path name; content = a }
          ∷ record { key = dev_path name; content = b }
          ∷ [] in
        let written =
          write_file codec decimal checksum format_time write_fails previous (dev_path name) b
            (with_main name a st) in
        rw (ex, ey, w (main_path name), w (dev_path name))
          (
            files,
            refl,
            note_changed-IsWritten name changed files st written refl (two_more st.artifact_count),
          )

    -- Where every file is written, a build of a package writes the files that a synchronization of the
    -- package uploads with the same metadata, under the same paths, and counts them. The versions decode,
    -- the package is a plugin or a theme, and its slug does not end in ~dev.
    pub build_package-package_files :
        (r : Row) (st : BuildState) (versions : Map Text)
        → codec.decode r.listing.versions_json ≡ some versions
        → has_suffix r.name dev_suffix ≡ false
        → (r.type ≡ plugin) ⊎ (r.type ≡ theme)
        → ((path : Text) → write_fails path ≡ false)
        → (files : List PackageFile) × (package_files codec decimal checksum r.type r.name
              r.listing.versions_json
              (meta_of codec decimal checksum format_time write_fails previous r)
            ≡ some files)
          × IsWritten files st
              (build_package codec decimal checksum format_time write_fails previous r st)
    unfolding package_files build_package dev_or_none
    build_package-package_files r st versions d s t w =
        let name = composer_name r.type r.name in
        let meta = meta_of codec decimal checksum format_time write_fails previous r in
        let main = main_serialized r.type r.name r.listing.versions_json meta versions d s in
        let dev =
          dev_serialized r.type r.name r.listing.versions_json meta versions d
          ∙ dev_or_none-theme r.type _ t in
        let fits = files-Fits r.type r.name meta versions t in
        rw
          (
            main,
            dev,
            d,
            main_file-same codec decimal checksum format_time write_fails previous r name versions,
            dev_file-same codec decimal checksum format_time write_fails previous r name versions,
          )
          (Fits-IsWritten (composer_name r.type r.name) _ _ st w fits)
