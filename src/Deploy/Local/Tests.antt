-- ===== src/Deploy/Local/Tests.antt =====
-- A rollback and a cleanup of seven builds.
use wp_packages.Base.{
  ◌≤◌, ◌≡◌, ◌≢◌, refl, true, false, List, [], ◌∷◌, Text, codes, some, eq_text, lt_text, length, In,
  inl,
}
use wp_packages.Deploy.Local.{
  Repo, Entry, entries, sort, insert_sorted, list_builds, current_build_id, validate_build, promote,
  last_other, rollback, keep_newest, to_remove, cleanup, required,
}
use wp_packages.Deploy.Local.Order.{rollback_newest}
use wp_packages.Deploy.Local.Retention.{Unique, to_remove-newest}

local_code : Unit {0}
unfolding sort insert_sorted list_builds current_build_id validate_build promote last_other rollback
    keep_newest to_remove cleanup eq_text lt_text
local_code = tt

abbrev build : Text → Entry
build id = record { name = id; is_dir = true; files = required }

abbrev repo : Repo
repo = record {
  builds = entries (
      build (codes "3")
      ∷ build (codes "1")
      ∷ build (codes "2")
      ∷ build (codes "7")
      ∷ build (codes "6")
      ∷ build (codes "4")
      ∷ build (codes "5")
      ∷ []);
  current = some (codes "7");
}

abbrev ids : List Text
ids = codes "1" ∷ codes "2" ∷ codes "3" ∷ codes "4" ∷ codes "5" ∷ codes "6" ∷ codes "7" ∷ []

ids_run : list_builds repo ≡ some ids
unfolding local_code
ids_run = refl

rolled_back :
    rollback true true [] repo ≡ some (codes "6", record repo { current = some (codes "6") })
unfolding local_code
rolled_back = refl

rollback_newest_example :
    In (codes "6") ids
    × (codes "6" ≢ current_build_id repo)
    × (current_build_id (record repo { current = some (codes "6") }) ≡ codes "6")
    × ((b : Text) → In b ids → b ≢ current_build_id repo → lt_text (codes "6") b ≡ false)
rollback_newest_example =
    rollback_newest true true repo (record repo { current = some (codes "6") }) ids (codes "6")
      ids_run rolled_back

oldest_goes : In (codes "1") (to_remove 2 (current_build_id repo) ids)
unfolding local_code
oldest_goes = inl refl

to_remove-newest_example :
    (current_build_id repo ≢ [] → codes "1" ≢ current_build_id repo)
    × (ks : List Text) × (2 ≤ length ks)
    × (5 ≤ length ks)
    × Unique ks
    × ((x : Text)
        → In x ks
        → In x ids
          × (current_build_id repo ≢ [] → x ≢ current_build_id repo)
          × (lt_text x (codes "1") ≡ false)
          × ¬ (In x (to_remove 2 (current_build_id repo) ids)))
to_remove-newest_example = to_remove-newest repo 2 ids (codes "1") ids_run oldest_goes
