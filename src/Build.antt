-- ===== src/Build.antt =====
-- internal/repository/builder.go: Build, the repository as files of a new directory. A directory is a map
-- from path to content. The JSON codec, fmt's decimals, CRC-32 and the format of times are arguments, and
-- so is whether a file is written. The rows come in the order of the query; what is logged, the
-- manifest's content and the check that the constant packages.json parses are left out.
pub mod Agreement
pub mod Deletions
mod Names
mod Files
mod Selection
mod Tests
use wp_packages.Base.{
  ℕ, suc, ◌+◌, Bool, true, false, not, ◌&&◌, ◌||◌, List, [], ◌∷◌, ◌++◌, Text, Map, codes, Option,
  none, some, eq_text, lookup, insert, ltb, leb, ◌==◌, filter, map, any, is_some, length,
  if◌then◌else◌,
}
use wp_packages.Text.{or_else, has_suffix, trim_suffix, has_prefix, trim_prefix}
use wp_packages.Composer.{Json, PackageMeta, composer_name, composer_version}
use wp_packages.Version.{normalize_versions}
use wp_packages.Composer.Files.{
  Codec, Serialized, failed, nothing, bytes, payload, parse_published_times,
}
use wp_packages.Packages.{Row, Table}

pub record BuildOpts : Type 0 where
  pub force : Bool
  pub package_name : Text
  pub package_names : List Text

-- COALESCE(MAX(last_sync_run_id), 0)
unfoldable pub max_sync_run : Table → ℕ
max_sync_run [] = 0
max_sync_run (r ∷ rs) =
    let m = max_sync_run rs in let id = or_else r.last_sync_run_id 0 in if ltb m id then id else m

abbrev pub snapshot_of : BuildOpts → Table → Option ℕ
snapshot_of o rows = if o.force || max_sync_run rows == 0 then none else some (max_sync_run rows)

abbrev pub in_snapshot : Option ℕ → Option ℕ → Bool
in_snapshot none run = true
in_snapshot (some id) none = true
in_snapshot (some id) (some run) = leb run id

unfoldable pub is_built : BuildOpts → Option ℕ → Row → Bool
is_built o snapshot r =
    r.is_active
    && (in_snapshot snapshot r.last_sync_run_id
        && ((eq_text o.package_name [] || eq_text (r.type ++ (codes "/" ++ r.name)) o.package_name)
            && (length o.package_names == 0 || any (eq_text r.name) o.package_names)))

-- What a build has written and counted.
pub record BuildState : Type 0 where
  pub dir : Map Text
  pub packages_total : ℕ
  pub packages_changed : ℕ
  pub artifact_count : ℕ
  pub changed_packages : List (Text × Text)

abbrev pub empty_build : BuildState
empty_build = record {
  dir = [];
  packages_total = 0;
  packages_changed = 0;
  artifact_count = 0;
  changed_packages = [];
}

abbrev pub main_path : Text → Text
main_path name = codes "p2/" ++ (name ++ codes ".json")

abbrev pub dev_path : Text → Text
dev_path name = codes "p2/" ++ (name ++ codes "~dev.json")

-- The files of the previous build's p2 directory; the option is missing where no build is compared.
abbrev pub Previous : Type 0
Previous = Option (Map Text)

abbrev pub same_content : Option Text → Text → Bool
same_content none content = false
same_content (some old) content = eq_text old content

unfoldable pub is_changed : Previous → Text → Text → Bool
is_changed none path content = true
is_changed (some dir) path content = not (same_content (lookup path dir) content)

-- The package of a file below p2.
unfoldable pub package_of_file : Text → Text
unfolding trim_suffix trim_prefix
package_of_file path =
    let rel = trim_prefix path (codes "p2/") in
    let name = trim_suffix rel (codes "~dev.json") in
    if eq_text name rel then trim_suffix rel (codes ".json") else name

-- The names of the previous build, each once.
unfoldable pub previous_packages : Map Text → List Text
unfolding package_of_file has_suffix
previous_packages [] = []
previous_packages ((path, content) ∷ files) =
    let rest = previous_packages files in
    let name = package_of_file path in
    if has_suffix path (codes ".json") && not (any (eq_text name) rest) then name ∷ rest else rest

abbrev pub is_deleted : Map Text → Text → Bool
is_deleted dir name =
    not (is_some (lookup (main_path name) dir)) && not (is_some (lookup (dev_path name) dir))

unfoldable pub add_deletions : Map Text → List Text → List (Text × Text) → List (Text × Text)
add_deletions dir [] changed = changed
add_deletions dir (name ∷ names) changed =
    add_deletions dir names
      (if is_deleted dir name then changed ++ (name, codes "delete") ∷ [] else changed)

module _ (codec : Codec) (decimal : ℕ → Text) (checksum : Text → ℕ) (format_time : ℕ → Text)
    (write_fails : Text → Bool) (previous : Previous) where
  unfoldable pub meta_of : Row → PackageMeta
  unfolding parse_published_times
  meta_of r = record {
    description = or_else r.listing.description [];
    homepage = or_else r.listing.homepage [];
    author = or_else r.listing.author [];
    requires_php = [];
    last_updated = elim r.last_committed [ none ↦ [] | some t ↦ format_time t ];
    trunk_revision = r.trunk_revision;
    published_times = parse_published_times codec r.published_times_json;
  }

  -- os.WriteFile, where it succeeds
  unfoldable pub write_file : Text → Text → BuildState → BuildState
  unfolding insert
  write_file path content st = record st {
    dir = insert path content st.dir;
    artifact_count = suc st.artifact_count;
  }

  abbrev pub note_changed : Text → Bool → BuildState → BuildState
  note_changed name changed st =
      if changed
      then record st {
        packages_changed = suc st.packages_changed;
        changed_packages = st.changed_packages ++ (name, codes "update") ∷ [];
      }
      else st

  -- The ~dev.json of a plugin, after the main file.
  abbrev pub build_dev : Text → Bool → Serialized → BuildState → Option BuildState
  build_dev name changed failed st = none
  build_dev name changed nothing st = some (note_changed name changed st)
  build_dev name changed (bytes content) st =
      if write_fails (dev_path name)
      then none
      else some (
          note_changed name (changed || is_changed previous (dev_path name) content)
            (write_file (dev_path name) content st))

  abbrev pub build_main : Text → Serialized → Serialized → BuildState → Option BuildState
  build_main name failed dev st = none
  build_main name nothing dev st = some st
  build_main name (bytes content) dev st =
      if write_fails (main_path name)
      then none
      else build_dev name (is_changed previous (main_path name) content) dev (
          write_file (main_path name) content
            (record st { packages_total = suc st.packages_total }))

  -- taggedVersions
  unfoldable pub tagged_versions : Row → Map Text → Map Json
  unfolding composer_version has_prefix
  tagged_versions r [] = []
  tagged_versions r ((ver, url) ∷ versions) =
      if not (has_prefix ver (codes "dev-"))
      then (ver, composer_version decimal checksum r.type r.name ver url (meta_of r))
        ∷ tagged_versions r versions
      else tagged_versions r versions

  -- devVersions, which is nil but for a plugin
  abbrev pub dev_versions : Row → Option (Map Json)
  dev_versions r =
      if eq_text r.type (codes "plugin")
      then some (
          (
            codes "dev-trunk",
            composer_version decimal checksum r.type r.name (codes "dev-trunk") [] (meta_of r),
          )
          ∷ [])
      else none

  abbrev pub main_versions : Map Json → Option (Map Json) → Map Json
  main_versions [] none = []
  main_versions [] (some dev) = dev
  main_versions (e ∷ es) dev = e ∷ es

  -- The data of the main file; nothing where the package is skipped.
  abbrev pub main_file : Text → Map Json → Serialized
  main_file name [] = nothing
  main_file name (e ∷ es) = bytes (codec.encode (payload name (e ∷ es)))

  abbrev pub dev_file : Text → Option (Map Json) → Serialized
  dev_file name none = nothing
  dev_file name (some dev) = bytes (codec.encode (payload name dev))

  abbrev pub build_versions : Row → BuildState → Option (Map Text) → Option BuildState
  build_versions r st none = some st
  build_versions r st (some versions) =
      let name = composer_name r.type r.name in
      build_main name
        (main_file name
          (main_versions (tagged_versions r (normalize_versions versions)) (dev_versions r)))
        (dev_file name (dev_versions r)) st

  -- The body of the loop over the rows; missing where Build returns an error.
  unfoldable pub build_package : Row → BuildState → Option BuildState
  unfolding composer_name tagged_versions meta_of is_changed write_file
  build_package r st = build_versions r st (codec.decode r.listing.versions_json)

  abbrev pub and_build : Option BuildState → (BuildState → Option BuildState) → Option BuildState
  and_build none next = none
  and_build (some st) next = next st

  unfoldable pub build_packages : Table → BuildState → Option BuildState
  unfolding build_package
  build_packages [] st = some st
  build_packages (r ∷ rs) st = and_build (build_package r st) (build_packages rs)

  abbrev pub is_partial : BuildOpts → Bool
  is_partial o = not (eq_text o.package_name []) || not (length o.package_names == 0)

  unfoldable pub detect_deletions : BuildOpts → BuildState → BuildState
  unfolding previous_packages add_deletions
  detect_deletions o st = elim previous [
    | none ↦ st
    | some old ↦ if is_partial o then st else record st {
      changed_packages = add_deletions st.dir (previous_packages old) st.changed_packages;
    }
  ]

  -- packages.json, manifest.json, and the check that enough p2 files are there.
  abbrev pub finish_build : BuildState → Option BuildState
  finish_build st =
      if write_fails (codes "packages.json") || write_fails (codes "manifest.json")
      then none
      else if ltb (length st.dir) st.packages_total
      then none
      else some (record st { artifact_count = st.artifact_count + 2 })

  unfoldable pub build : BuildOpts → Table → Option BuildState
  unfolding build_packages detect_deletions is_built max_sync_run
  build o rows =
      and_build (build_packages (filter (is_built o (snapshot_of o rows)) rows) empty_build)
        (λ st. finish_build (detect_deletions o st))
