-- ===== src/Svn/Log.antt =====
-- internal/wporg/svn.go: parseSVNLog on the items of a log report, and sanitizeXML.
pub mod Revisions
use wp_packages.Base.{
  ℕ, Bool, true, false, not, ◌&&◌, ◌||◌, List, [], ◌∷◌, ◌++◌, Text, Map, codes, Option, none, some,
  eq_text, lookup, insert, ltb, leb, ◌==◌, filter, map, if◌then◌else◌,
}
use wp_packages.Text.{or_else}
use wp_packages.Svn.Paths.{slug_from_path}

-- The bytes that XML 1.0 allows.
unfoldable pub sanitize_xml : List ℕ → List ℕ
sanitize_xml = filter (λ b. b == 0x09 || (b == 0x0a || (b == 0x0d || leb 0x20 b)))

pub record LogPath : Type 0 where
  pub path : Text
  pub kind : Text
  pub prop_mods : Text

pub record LogItem : Type 0 where
  pub revision : ℕ
  pub date : Option ℕ
  pub added_paths : List LogPath
  pub modified_paths : List LogPath
  pub deleted_paths : List LogPath
  pub replaced_paths : List LogPath

-- A date is a number of nanoseconds since Go's zero time, which stands for a date that does not parse.
pub record Commit : Type 0 where
  pub revision : ℕ
  pub date : ℕ
  pub added : List Text
  pub modified : List Text
  pub deleted : List Text
  pub replaced : List Text
  pub plain_file_paths : List Text

pub record SvnLog : Type 0 where
  pub slug_revisions : Map ℕ
  pub max_rev : ℕ
  pub min_rev : ℕ
  pub min_date : ℕ
  pub commits : List Commit

abbrev pub empty_log : SvnLog
empty_log = record { slug_revisions = []; max_rev = 0; min_rev = 0; min_date = 0; commits = [] }

abbrev pub path_texts : List LogPath → List Text
path_texts = map (λ (p : LogPath). p.path)

-- The paths logged as files without property changes.
abbrev pub plain_paths : List LogPath → List Text
plain_paths [] = []
plain_paths (p ∷ ps) =
    if eq_text p.kind (codes "file") && eq_text p.prop_mods (codes "false")
    then p.path ∷ plain_paths ps
    else plain_paths ps

unfoldable pub commit_of : LogItem → Commit
commit_of item = record {
  revision = item.revision;
  date = or_else item.date 0;
  added = path_texts item.added_paths;
  modified = path_texts item.modified_paths;
  deleted = path_texts item.deleted_paths;
  replaced = path_texts item.replaced_paths;
  plain_file_paths =
      plain_paths item.added_paths
      ++ (plain_paths item.modified_paths
          ++ (plain_paths item.deleted_paths ++ plain_paths item.replaced_paths));
}

unfoldable pub paths : Commit → List Text
paths c = c.added ++ (c.modified ++ (c.deleted ++ c.replaced))

unfoldable pub raise_revision : ℕ → Text → Map ℕ → Map ℕ
raise_revision rev slug revs =
    if eq_text slug []
    then revs
    else if ltb (or_else (lookup slug revs) 0) rev
    then insert slug rev revs
    else revs

unfoldable pub raise_revisions : ℕ → List Text → Map ℕ → Map ℕ
unfolding raise_revision slug_from_path
raise_revisions rev [] revs = revs
raise_revisions rev (p ∷ ps) revs =
    raise_revisions rev ps (raise_revision rev (slug_from_path p) revs)

abbrev earlier : Option ℕ → ℕ → ℕ
earlier none old = old
earlier (some t) old = if old == 0 || ltb t old then t else old

unfoldable pub add_item : LogItem → SvnLog → SvnLog
unfolding commit_of paths raise_revisions
add_item item log = record {
  slug_revisions = raise_revisions item.revision (paths (commit_of item)) log.slug_revisions;
  max_rev = if ltb log.max_rev item.revision then item.revision else log.max_rev;
  min_rev =
      if log.min_rev == 0 || ltb item.revision log.min_rev then item.revision else log.min_rev;
  min_date = earlier item.date log.min_date;
  commits = log.commits ++ commit_of item ∷ [];
}

unfoldable pub add_items : List LogItem → SvnLog → SvnLog
unfolding add_item
add_items [] log = log
add_items (item ∷ items) log = add_items items (add_item item log)

-- parseSVNLog; the items are missing where the XML does not parse.
unfoldable pub parse_svn_log : Option (List LogItem) → Option SvnLog
unfolding add_items
parse_svn_log none = none
parse_svn_log (some items) = some (add_items items empty_log)
