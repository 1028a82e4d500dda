-- ===== src/Packages/Published/Tests.antt =====
-- The published times of one package.
use wp_packages.Base.{
  ℕ, ◌≡◌, ◌≢◌, ◌≤◌, ◌⊎◌, ◌&&◌, not, refl, false, [], ◌∷◌, Text, Map, codes, Option, none, some,
  eq_text, lt_text, lookup, insert, is_some, In, inl,
}
use wp_packages.Version.{
  normalize, dev_trunk, is_trunk, is_valid, valid_version, prefer_raw_version,
}
use wp_packages.Text.{
  trim_space, equal_fold, trim_prefix, is_digit, has_prefix, cut_prefix, fold, is_space, trim_left,
  trim_right, trim_suffix,
}
use wp_packages.Regex.{matches, derive, nullable}
use wp_packages.Svn.Log.{Commit}
use wp_packages.Svn.Tags.{tags_at, tag_changes}
use wp_packages.Svn.Tags.Latest.{commit_changes_tag, changes_tag}
use wp_packages.Packages.Published.{
  versions_of_tags, reset_times, backfill_times, times_of, merge_published_times,
}
use wp_packages.Packages.Published.Times.{
  first_of, stamp_if, Resets, Stamped, reset_times_lem, merge_published_times_lem,
  backfill_times_lem,
}
use wp_packages.Packages.Published.Modified.{modified_release_waits}

abbrev plugin : Text
plugin = codes "plugin"

abbrev akismet : Text
akismet = codes "akismet"

abbrev v5 : Text
v5 = codes "5.0"

abbrev times : Map Text
times = (v5, codes "2024") ∷ (codes "4.0", codes "2023") ∷ []

abbrev no_times : Option Text
no_times = none

abbrev tag_dates : Map ℕ
tag_dates = (v5, 100) ∷ []

abbrev stamp : Text
stamp = codes "2026"

abbrev decode : Text → Option (Map Text)
decode json = some ((v5, codes "u") ∷ [])

abbrev encode : Map Text → Text
encode m = codes "json"

abbrev release : Commit
release = record {
  revision = 7;
  date = 100;
  added = codes "/akismet/tags/5.0/akismet.php" ∷ [];
  modified = [];
  deleted = [];
  replaced = [];
  plain_file_paths = [];
}

published_code : Unit {0}
unfolding eq_text lt_text lookup insert normalize is_trunk is_valid valid_version trim_space
    equal_fold trim_prefix is_digit has_prefix cut_prefix fold is_space trim_left trim_right
    trim_suffix matches derive nullable prefer_raw_version commit_changes_tag changes_tag
published_code = tt

reset_times_lem_example :
    let (new, n) = reset_times false (v5 ∷ []) stamp times in
    Resets false (v5 ∷ []) stamp times new n
    × ((key : Text) → Stamped false (v5 ∷ []) stamp key (lookup key times) (lookup key new))
reset_times_lem_example = reset_times_lem false (v5 ∷ []) stamp times

merge_published_times_lem_example :
    ((merge_published_times decode encode (codes "{…}") (codes "{}") none stamp ≡ some none)
      × (no_times ≡ none)
      × (codes "{}" ≢ [])
      × (codes "{}" ≢ codes "{}"))
    ⊎ (¬ ((no_times ≡ none) × (codes "{}" ≢ []) × (codes "{}" ≢ codes "{}"))
        × (times : Map Text) × (merge_published_times decode encode
              (codes "{…}")
              (codes "{}")
              none
              stamp
            ≡ some (some (encode times)))
        × ((key : Text)
            → lookup key times
              ≡ first_of (lookup key (times_of decode encode none)) (
                  stamp_if
                    (is_some (lookup key ((v5, codes "u") ∷ [])) && not (eq_text key dev_trunk))
                    stamp)))
merge_published_times_lem_example =
    merge_published_times_lem decode encode (codes "{…}") (codes "{}") none stamp
      ((v5, codes "u") ∷ []) refl

backfill_times_lem_example :
    (date : ℕ) × (lookup v5 (backfill_times (λ n. codes "t") 50 60 tag_dates times)
      ≡ some (codes "t"))
    × (50 ≤ date)
    × (60 ≤ date)
    × ((tag : Text) (d : ℕ)
        → In (tag, d) tag_dates
        → normalize tag ≡ normalize v5
        → normalize v5 ≢ []
        → d ≤ date)
unfolding published_code
backfill_times_lem_example = backfill_times_lem (λ n. codes "t") 50 60 tag_dates times v5 refl cc

modified_release_waits_example :
    let changes = tag_changes plugin (release ∷ []) in
    (time : Text) × (lookup v5
        (reset_times
          (is_some (lookup akismet changes.all))
          (versions_of_tags (tags_at akismet changes.tags))
          stamp
          times).0
      ≡ some time)
    × (lt_text time stamp ≡ false)
unfolding published_code
modified_release_waits_example =
    let named : normalize v5 ≢ [] = cc in
    let tagged : normalize v5 ≢ dev_trunk = cc in
    modified_release_waits plugin akismet v5 v5 (codes "2024") stamp (release ∷ []) release times
      (inl refl) refl refl named tagged refl
