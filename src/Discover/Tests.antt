-- ===== src/Discover/Tests.antt =====
-- A scan of a changelog of nothing but empty revisions, and a listing of three slugs.
use wp_packages.Base.{
  ℕ, ◌+◌, ◌≡◌, ◌≢◌, arith, refl, Bool, false, List, [], ◌∷◌, Text, Map, codes, Option, none, some,
  length, map, lookup, eq_text,
}
use wp_packages.Svn.Log.{SvnLog}
use wp_packages.Packages.{batch_upsert_shell_packages}
use wp_packages.Discover.{
  revision, Db, finished, out_of_fuel, World, scan, mark_changed_from_svn_log,
}
use wp_packages.Discover.Cursor.{scan_terminates}
use wp_packages.Discover.Progress.{scan_catches_up, IsStored, mark_changed_from_svn_log-IsStored}
use wp_packages.Discover.Batches.{SvnEntry, Progress, shell_of, read_source}
use wp_packages.Discover.Batches.Laws.{allowed, read_source-one_batch}

abbrev plugin : Text
plugin = codes "plugin"

abbrev no_times : Text → Option (Map Text)
no_times json = none

abbrev encode : Map Text → Text
encode m = codes "{}"

abbrev log_up_to : ℕ → SvnLog
log_up_to to = record { slug_revisions = []; max_rev = to; min_rev = 1; min_date = 0; commits = [] }

abbrev world : World
world = record {
  fetch = λ from to. some (log_up_to to);
  reset_fails = λ c. false;
  mark_fails = λ c. false;
  set_fails = false;
  now = λ c. 5;
  stamp = λ c. codes "2026";
}

abbrev db : Db
db = record { rows = []; site_meta = (codes "svn_revision_plugin", revision 3) ∷ [] }

scan_terminates_example : (scan no_times encode world plugin 4 7 3 []).ending ≢ out_of_fuel
scan_terminates_example = scan_terminates no_times encode world plugin 4 7 3 [] (omega arith)

scan_catches_up_example :
    let s = scan no_times encode world plugin 4 7 3 [] in (s.cursor ≡ 7) × (s.ending ≡ finished)
scan_catches_up_example =
    scan_catches_up no_times encode world plugin 4 7 3 []
      (λ from to le. (log_up_to to, refl, refl), λ c. refl, λ c. refl) (omega arith) (omega arith)

mark_changed_from_svn_log-IsStored_example :
    IsStored no_times encode world plugin
      (codes "svn_revision_plugin")
      7
      3
      (mark_changed_from_svn_log no_times encode world plugin (codes "svn_revision_plugin") 7 db).0
unfolding lookup eq_text
mark_changed_from_svn_log-IsStored_example =
    mark_changed_from_svn_log-IsStored no_times encode world plugin (codes "svn_revision_plugin") 7
      2 db refl

abbrev entries : List SvnEntry
entries =
    (record { slug = codes "a"; last_committed = some 1 })
    ∷ (record { slug = codes "b"; last_committed = none })
    ∷ (record { slug = codes "c"; last_committed = some 3 })
    ∷ []

abbrev start : Progress
start = record { rows = []; next_id = 1; batch = []; count = 0; total = 0; failed = 0 }

abbrev no_batch_fails : ℕ → Bool
no_batch_fails n = false

abbrev no_upsert_fails : Text → Bool
no_upsert_fails slug = false

read_source-one_batch_example :
    ((read_source 9 no_batch_fails no_upsert_fails 2 plugin entries start).rows
      ≡ batch_upsert_shell_packages 1 9 (map (shell_of plugin) (allowed 2 0 entries)) [])
    × ((read_source 9 no_batch_fails no_upsert_fails 2 plugin entries start).total
        ≡ 0 + length (allowed 2 0 entries))
read_source-one_batch_example =
    read_source-one_batch 9 no_batch_fails no_upsert_fails 2 plugin entries start (λ n. refl) refl
