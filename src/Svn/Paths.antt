-- ===== src/Svn/Paths.antt =====
-- internal/wporg/svn.go: what a path of the log touches.
use wp_packages.Base.{
  ℕ, Bool, not, ◌&&◌, ◌||◌, List, [], ◌∷◌, ◌++◌, Text, codes, Option, none, some, eq_text, ◌==◌,
  if◌then◌else◌,
}
use wp_packages.Text.{has_prefix, trim_prefix, cut, split, split_n, join, to_lower}
use wp_packages.Composer.{theme}

unfoldable pub drop_slashes : Text → Text
drop_slashes [] = []
drop_slashes (c ∷ s) = if c == b'/' then drop_slashes s else c ∷ s

-- Keeps a slash only in front of what is kept.
abbrev keep_slash : ℕ → Text → Text
keep_slash c [] = if c == b'/' then [] else c ∷ []
keep_slash c (d ∷ s) = c ∷ d ∷ s

unfoldable pub drop_last_slashes : Text → Text
drop_last_slashes [] = []
drop_last_slashes (c ∷ s) = keep_slash c (drop_last_slashes s)

-- strings.Trim(p, "/")
unfoldable pub trim_slashes : Text → Text
unfolding drop_slashes drop_last_slashes
trim_slashes p = drop_last_slashes (drop_slashes p)

abbrev bare_slug : Text → Text
bare_slug path = if eq_text path [] || eq_text path (codes "..") then [] else path

abbrev slug_of_cut : Text → Option (Text × Text) → Text
slug_of_cut path none = bare_slug path
slug_of_cut path (some (slug, rest)) = if eq_text slug [] then bare_slug path else slug

-- Empty where the path has no slug.
unfoldable pub slug_from_path : Text → Text
unfolding trim_prefix cut
slug_from_path path = let p = trim_prefix path (codes "/") in slug_of_cut p (cut b'/' p)

abbrev ancestor_of : Text → List Text → Option Text
ancestor_of pkg_type [] = none
ancestor_of pkg_type (slug ∷ []) = if eq_text slug [] then none else some slug
ancestor_of pkg_type (slug ∷ dir ∷ []) =
    if eq_text slug []
    then none
    else if not (eq_text pkg_type theme) && eq_text dir (codes "tags")
    then some slug
    else none
ancestor_of pkg_type (slug ∷ dir ∷ name ∷ rest) = none

-- The slug of a directory that holds every tag of a package.
unfoldable pub tags_ancestor : Text → Text → Option Text
unfolding trim_slashes split
tags_ancestor pkg_type p = ancestor_of pkg_type (split b'/' (trim_slashes p))

pub record TagPath : Type 0 where
  pub slug : Text
  pub tag : Text
  pub rest : Text

-- WordPress.org lists a tag like ".1" as version "0.1".
abbrev tag_name : Text → Text
tag_name tag = if has_prefix tag (codes ".") then codes "0" ++ tag else tag

abbrev theme_tag : List Text → Option TagPath
theme_tag (slug ∷ tag ∷ rest) =
    if eq_text slug [] || eq_text tag []
    then none
    else some (record { slug = slug; tag = tag; rest = join (codes "/") rest })
theme_tag _ = none

abbrev plugin_tag : List Text → Option TagPath
plugin_tag (slug ∷ dir ∷ tag ∷ rest) =
    if eq_text slug [] || (not (eq_text dir (codes "tags")) || eq_text tag [])
    then none
    else some (record { slug = slug; tag = tag_name tag; rest = join (codes "/") rest })
plugin_tag _ = none

-- The tag that a path is in; missing where it is in none. At most four parts are cut.
unfoldable pub split_tag_path : Text → Text → Option TagPath
unfolding trim_slashes split_n join has_prefix
split_tag_path pkg_type p =
    let parts = split_n b'/' 3 (trim_slashes p) in
    if eq_text pkg_type theme then theme_tag parts else plugin_tag parts

unfoldable pub is_readme : Text → Bool
unfolding to_lower
is_readme rest =
    eq_text (to_lower rest) (codes "readme.txt") || eq_text (to_lower rest) (codes "readme.md")
