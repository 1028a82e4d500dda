-- ===== src/Composer.antt =====
-- internal/composer/format.go and serialize.go: the Composer names of packages, their version
-- entries and their p2 files. A JSON value is a tree; an object is a list of named fields, as a Go
-- map[string]any that json.Marshal sorts by key. fmt's %d and the CRC are arguments.
pub mod Names
pub mod Files
mod Tests
use wp_packages.Base.{
  ℕ, Bool, true, false, not, ◌&&◌, ◌||◌, List, [], ◌∷◌, ◌++◌, Text, Map, codes, Option, none, some,
  eq_text, lookup, if◌then◌else◌,
}
use wp_packages.Text.{split_n, has_prefix, has_suffix, trim_suffix}
use wp_packages.Version.{normalize_versions, dev_trunk}

abbrev pub theme : Text
theme = codes "theme"

abbrev pub plugin : Text
plugin = codes "plugin"

unfoldable pub composer_name : Text → Text → Text
composer_name pkg_type slug =
    if eq_text pkg_type theme then codes "wp-theme/" ++ slug else codes "wp-plugin/" ++ slug

unfoldable pub download_url : Text → Text → Text → Text
download_url pkg_type slug version =
    if eq_text pkg_type theme
    then codes "https://downloads.wordpress.org/theme/"
      ++ (slug ++ (codes "." ++ (version ++ codes ".zip")))
    else codes "https://downloads.wordpress.org/plugin/"
      ++ (slug ++ (codes "." ++ (version ++ codes ".zip")))

unfoldable pub package_type : Text → Text
package_type vendor =
    if eq_text vendor (codes "wp-plugin")
    then plugin
    else if eq_text vendor (codes "wp-theme")
    then theme
    else []

abbrev second_or : Text → List Text → Text
second_or name (a ∷ b ∷ []) = b
second_or name _ = name

unfoldable pub slug_from_composer_name : Text → Text
slug_from_composer_name name = second_or name (split_n b'/' 1 name)

unfoldable pub object_keys : Text → Text → List Text
unfolding composer_name
object_keys pkg_type name =
    (codes "p2/" ++ (composer_name pkg_type name ++ codes ".json"))
    ∷ (codes "p2/" ++ (composer_name pkg_type name ++ codes "~dev.json"))
    ∷ []

mutual
  pub data Json : Type 0 where
    text : Text → Json
    number : ℕ → Json
    object : Fields → Json
    array : Items → Json

  pub data Fields : Type 0 where
    done : Fields
    field : Text → Json → Fields → Fields

  pub data Items : Type 0 where
    nil : Items
    cons : Json → Items → Items

-- A field that is set under a condition.
abbrev pub field_if : Bool → Text → Json → Fields → Fields
field_if b k v rest = if b then field k v rest else rest

pub record PackageMeta : Type 0 where
  pub description : Text
  pub homepage : Text
  pub author : Text
  pub requires_php : Text
  pub last_updated : Text
  pub trunk_revision : Option ℕ
  pub published_times : Option (Map Text)

abbrev pub is_set : Text → Bool
is_set s = not (eq_text s [])

-- PublishedTimes[ver] of a map that may be nil
abbrev times_at : Text → Option (Map Text) → Text
times_at ver none = []
times_at ver (some m) = elim (lookup ver m) [ none ↦ [] | some t ↦ t ]

abbrev has_times : Option (Map Text) → Bool
has_times none = false
has_times (some m) = true

module _ (decimal : ℕ → Text) (checksum : Text → ℕ) where
  abbrev trunk_ref : Option ℕ → Text
  trunk_ref none = codes "trunk"
  trunk_ref (some rev) = codes "trunk@" ++ decimal rev

  unfoldable pub reference : Text → Text → PackageMeta → Text
  reference pkg_type ver meta =
      if eq_text ver dev_trunk
      then trunk_ref meta.trunk_revision
      else if eq_text pkg_type theme
      then ver
      else codes "tags/" ++ ver

  abbrev pub svn_base : Text → Text → Text
  svn_base pkg_type slug =
      if eq_text pkg_type theme
      then codes "https://themes.svn.wordpress.org/" ++ slug
      else codes "https://plugins.svn.wordpress.org/" ++ slug

  abbrev pub support_issues : Text → Text → Text
  support_issues pkg_type slug =
      if eq_text pkg_type theme
      then codes "https://wordpress.org/support/theme/" ++ slug
      else codes "https://wordpress.org/support/plugin/" ++ slug

  abbrev pub support_changelog : Text → Text → Text
  support_changelog pkg_type slug =
      if eq_text pkg_type theme
      then codes "https://wordpress.org/themes/" ++ (slug ++ codes "/#developers")
      else codes "https://wordpress.org/plugins/" ++ (slug ++ codes "/#developers")

  -- The published-time of a version: the package's last update for the trunk, once the package has
  -- published times at all, and the version's own time otherwise.
  unfoldable pub published_time : Text → PackageMeta → Text
  published_time ver meta =
      if eq_text ver dev_trunk
      then (if has_times meta.published_times then meta.last_updated else [])
      else times_at ver meta.published_times

  -- The "time" of a version: its published time if it has one of its own, else the last update.
  unfoldable pub entry_time : Text → PackageMeta → Text
  entry_time ver meta =
      if not (eq_text ver dev_trunk) && is_set (times_at ver meta.published_times)
      then times_at ver meta.published_times
      else meta.last_updated

  -- ComposerVersion
  unfoldable pub composer_version : Text → Text → Text → Text → PackageMeta → Json
  unfolding composer_name reference published_time entry_time
  composer_version pkg_type slug ver url meta = object (
      field_if (is_set meta.author) (codes "authors")
        (array (cons (object (field (codes "name") (text meta.author) done)) nil))
        (field_if (is_set meta.description) (codes "description") (text meta.description) (
          field_if (not (eq_text ver dev_trunk) && is_set url) (codes "dist")
            (object
              (field (codes "type") (text (codes "zip")) (field (codes "url") (text url) done)))
            (field_if (is_set meta.homepage) (codes "homepage") (text meta.homepage) (
              field (codes "name") (text (composer_name pkg_type slug)) (
                field_if (is_set (published_time ver meta)) (codes "published-time")
                  (text (published_time ver meta))
                  (field (codes "require")
                    (object (
                      field (codes "composer/installers") (text (codes "~1.0|~2.0")) (
                        field_if (is_set meta.requires_php) (codes "php")
                          (text (codes ">=" ++ meta.requires_php)) done)))
                    (field (codes "source")
                      (object (
                        field (codes "reference") (text (reference pkg_type ver meta)) (
                          field (codes "type") (text (codes "svn")) (
                            field (codes "url") (text (svn_base pkg_type slug ++ codes "/"))
                              done))))
                      (field (codes "support")
                        (object (
                          field (codes "changelog") (text (support_changelog pkg_type slug)) (
                            field (codes "issues") (text (support_issues pkg_type slug))
                              (field (codes "source") (text (svn_base pkg_type slug)) done))))
                        (field_if (is_set (entry_time ver meta)) (codes "time")
                          (text (entry_time ver meta))
                          (field (codes "type")
                            (text (
                              if eq_text pkg_type theme
                              then codes "wordpress-theme"
                              else codes "wordpress-plugin"))
                            (field (codes "uid")
                              (number
                                (checksum (composer_name pkg_type slug ++ (codes "/" ++ ver))))
                              (field (codes "version") (text ver) done)))))))))))))

  -- The entries of the tagged versions.
  unfoldable pub tagged_entries : Text → Text → PackageMeta → Map Text → Map Json
  unfolding composer_version
  tagged_entries pkg_type slug meta [] = []
  tagged_entries pkg_type slug meta ((ver, url) ∷ vs) =
      if has_prefix ver (codes "dev-")
      then tagged_entries pkg_type slug meta vs
      else (ver, composer_version pkg_type slug ver url meta) ∷ tagged_entries pkg_type slug meta vs

  abbrev trunk_entry : Text → Text → PackageMeta → Map Json
  trunk_entry pkg_type slug meta =
      (dev_trunk, composer_version pkg_type slug dev_trunk [] meta) ∷ []

  abbrev pub or_trunk : Text → Text → PackageMeta → Map Json → Map Json
  or_trunk pkg_type slug meta [] =
      if eq_text pkg_type plugin then trunk_entry pkg_type slug meta else []
  or_trunk pkg_type slug meta (e ∷ es) = e ∷ es

  -- The entries of one file; `versions` is the decoded versions_json.
  unfoldable pub entries_of : Bool → Text → Text → Map Text → PackageMeta → Map Json
  unfolding tagged_entries
  entries_of is_dev pkg_type slug versions meta =
      if is_dev
      then trunk_entry pkg_type slug meta
      else or_trunk pkg_type slug meta
          (tagged_entries pkg_type slug meta (normalize_versions versions))
