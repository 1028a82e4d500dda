-- ===== src/Svn/Tags.antt =====
-- internal/wporg/svn.go: TagChanges, the tags whose contents a log created or changed.
pub mod Latest
use wp_packages.Base.{
  ℕ, Bool, true, false, not, ◌&&◌, ◌||◌, List, [], ◌∷◌, ◌++◌, Text, Map, Option, none, some,
  eq_text, lookup, insert, ltb, any, is_some, if◌then◌else◌,
}
use wp_packages.Text.{or_else}
use wp_packages.Svn.Paths.{tags_ancestor, TagPath, split_tag_path, is_readme}
use wp_packages.Svn.Log.{Commit}

-- The later of two dates, the second of which may be missing.
abbrev pub later_date : ℕ → Option ℕ → ℕ
later_date date none = date
later_date date (some prev) = if ltb prev date then date else prev

unfoldable pub record_date : Text → ℕ → Map ℕ → Map ℕ
record_date key date dates = insert key (later_date date (lookup key dates)) dates

abbrev pub mark_ancestor : ℕ → Option Text → Map ℕ → Map ℕ
mark_ancestor date none all = all
mark_ancestor date (some slug) all = record_date slug date all

unfoldable pub mark_ancestors : Text → ℕ → List Text → Map ℕ → Map ℕ
unfolding record_date tags_ancestor
mark_ancestors pkg_type date [] all = all
mark_ancestors pkg_type date (p ∷ ps) all =
    mark_ancestors pkg_type date ps (mark_ancestor date (tags_ancestor pkg_type p) all)

-- The keys of the map `touched`: slug and tag.
abbrev pub TagKey : Type 0
TagKey = Text × Text

abbrev pub same_key : TagKey → TagKey → Bool
same_key j k = eq_text j.0 k.0 && eq_text j.1 k.1

abbrev pub Touched : Type 0
Touched = List (TagKey × Bool)

unfoldable pub touch : TagKey → Touched → Touched
touch k [] = (k, true) ∷ []
touch k ((j, b) ∷ t) = if same_key j k then (j, true) ∷ t else (j, b) ∷ touch k t

-- An exempt path is noted only where its tag is not yet.
unfoldable pub note : TagKey → Touched → Touched
note k [] = (k, false) ∷ []
note k ((j, b) ∷ t) = if same_key j k then (j, b) ∷ t else (j, b) ∷ note k t

abbrev pub key_of : TagPath → TagKey
key_of t = (t.slug, t.tag)

-- An edit of the tag's readme as a plain file.
abbrev pub is_exempt : Bool → Commit → Text → TagPath → Bool
is_exempt readme_exempt c p t =
    readme_exempt && (any (eq_text p) c.plain_file_paths && is_readme t.rest)

abbrev pub mark_tag : Bool → Commit → Text → Option TagPath → Touched → Touched
mark_tag readme_exempt c p none touched = touched
mark_tag readme_exempt c p (some t) touched =
    if is_exempt readme_exempt c p t then note (key_of t) touched else touch (key_of t) touched

unfoldable pub mark_paths : Text → Bool → Commit → List Text → Touched → Touched
unfolding split_tag_path is_readme note touch
mark_paths pkg_type readme_exempt c [] touched = touched
mark_paths pkg_type readme_exempt c (p ∷ ps) touched =
    mark_paths pkg_type readme_exempt c ps
      (mark_tag readme_exempt c p (split_tag_path pkg_type p) touched)

unfoldable pub touched_of : Text → Commit → Touched
unfolding mark_paths
touched_of pkg_type c = mark_paths pkg_type false c c.replaced (
    mark_paths pkg_type true c c.deleted
      (mark_paths pkg_type true c c.modified (mark_paths pkg_type true c c.added [])))

abbrev pub tags_at : Text → Map (Map ℕ) → Map ℕ
tags_at slug changes = or_else (lookup slug changes) []

unfoldable pub date_touched : ℕ → Touched → Map (Map ℕ) → Map (Map ℕ)
unfolding record_date
date_touched date [] changes = changes
date_touched date ((k, changed) ∷ touched) changes = date_touched date touched (
    if changed
    then insert (k.0) (record_date (k.1) date (tags_at (k.0) changes)) changes
    else changes)

pub record TagChangeSet : Type 0 where
  pub tags : Map (Map ℕ)
  pub all : Map ℕ

unfoldable pub add_commit : Text → Commit → TagChangeSet → TagChangeSet
unfolding mark_ancestors touched_of date_touched
add_commit pkg_type c s = record {
  tags = date_touched c.date (touched_of pkg_type c) s.tags;
  all = mark_ancestors pkg_type c.date c.replaced (mark_ancestors pkg_type c.date c.added s.all);
}

unfoldable pub add_commits : Text → List Commit → TagChangeSet → TagChangeSet
unfolding add_commit
add_commits pkg_type [] s = s
add_commits pkg_type (c ∷ cs) s = add_commits pkg_type cs (add_commit pkg_type c s)

unfoldable pub tag_changes : Text → List Commit → TagChangeSet
unfolding add_commits
tag_changes pkg_type commits = add_commits pkg_type commits (record { tags = []; all = [] })
