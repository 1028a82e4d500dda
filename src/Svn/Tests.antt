-- ===== src/Svn/Tests.antt =====
-- A log of two commits of one plugin.
use wp_packages.Base.{◌≡◌, List, [], ◌∷◌, Text, codes, some, refl, map, lookup, insert, eq_text}
use wp_packages.Svn.Log.{
  LogPath, LogItem, SvnLog, commit_of, add_items, empty_log, parse_svn_log, paths,
}
use wp_packages.Svn.Log.Revisions.{
  parse_svn_log_lem, revision_at, top_revision, highest, greater, touches,
}
use wp_packages.Svn.Paths.{slug_from_path}
use wp_packages.Svn.Tags.{tag_changes}
use wp_packages.Svn.Tags.Latest.{
  tag_changes_lem, date_at, newest, dates_where, commit_changes_tag, commit_changes_all,
}

abbrev akismet : Text
akismet = codes "akismet"

abbrev file : Text → LogPath
file path = record { path = path; kind = codes "file"; prop_mods = codes "false" }

abbrev release : LogItem
release = record {
  revision = 7;
  date = some 100;
  added_paths = file (codes "/akismet/tags/5.0/akismet.php") ∷ [];
  modified_paths = [];
  deleted_paths = [];
  replaced_paths = [];
}

abbrev readme_edit : LogItem
readme_edit = record {
  revision = 9;
  date = some 200;
  added_paths = [];
  modified_paths = file (codes "/akismet/tags/5.0/readme.txt") ∷ [];
  deleted_paths = [];
  replaced_paths = [];
}

abbrev items : List LogItem
items = release ∷ readme_edit ∷ []

abbrev log : SvnLog
log = add_items items empty_log

revision_of_akismet : top_revision akismet items ≡ 9
unfolding top_revision greater touches paths commit_of eq_text slug_from_path
revision_of_akismet = refl

the_readme_edit_is_no_change :
    date_at akismet (codes "5.0") (tag_changes (codes "plugin") log.commits).tags ≡ some 100
unfolding tag_changes lookup add_items eq_text insert
the_readme_edit_is_no_change = refl

parse_svn_log_lem_example :
    (revision_at akismet log.slug_revisions ≡ top_revision akismet items)
    × (log.max_rev ≡ highest items)
    × (log.commits ≡ map commit_of items)
unfolding parse_svn_log
parse_svn_log_lem_example = parse_svn_log_lem items log akismet refl cc

tag_changes_lem_example :
    (date_at akismet (codes "5.0") (tag_changes (codes "plugin") log.commits).tags
      ≡ newest
          (dates_where (commit_changes_tag (codes "plugin") (akismet, codes "5.0")) log.commits))
    × (lookup akismet (tag_changes (codes "plugin") log.commits).all
        ≡ newest (dates_where (commit_changes_all (codes "plugin") akismet) log.commits))
tag_changes_lem_example = tag_changes_lem (codes "plugin") akismet (codes "5.0") log.commits
