-- ===== src/Version/Tests.antt =====
-- Runs of the version functions, and the theorems at concrete inputs.
use Prim.Native.Nat.{Ordering}
use wp_packages.Base.{
  ◌≡◌, refl, true, [], ◌∷◌, codes, eq_text, lt_text, lookup, insert, Text, Map, ◌⊎◌, inl, inr, some,
  arith,
}
use wp_packages.Text.{trim_space, trim_prefix, equal_fold, cut, split, contains, atoi, to_lower}
use wp_packages.Regex.{matches}
use wp_packages.Version.Normal.{normalize-pattern, normalize_idem}
use wp_packages.Version.Order.{NotAbove, compare_versions_trans}
use wp_packages.Version.Best.{
  IsBest, SameEntries, IsFunctional, normalize_versions_sound, normalize_versions_complete,
  normalize_versions_order,
}
use wp_packages.Version.Select.{
  IsRelease, latest-IsRelease, latest_stable, latest-filter_newer_than,
}
use wp_packages.Version.{
  or_then, valid_version, is_trunk, is_valid, normalize, prefer_raw_version, choose, choose_all,
  normalize_versions, is_stable, compare_segments, compare_text, compare_suffix, compare_versions,
  kept, filter_newer_than, see, see_all, latest,
}

version_code : Unit {0}
unfolding eq_text lt_text lookup insert trim_space trim_prefix equal_fold cut split contains atoi
    to_lower matches valid_version is_trunk is_valid normalize prefer_raw_version choose choose_all
    normalize_versions is_stable compare_segments compare_text compare_suffix compare_versions kept
    filter_newer_than see see_all latest
version_code = tt

normalize_runs :
    (normalize (codes " v 2.1 ") ≡ codes "2.1")
    × (normalize (codes "3.1.0-dev1") ≡ [])
    × (normalize (codes "Trunk") ≡ codes "dev-trunk")
    × (normalize (codes "1.2.3.4-RC.2") ≡ codes "1.2.3.4-RC.2")
    × (normalize (codes "1.2.3.4.5") ≡ [])
    × (normalize (codes "1.0-beta12") ≡ codes "1.0-beta12")
unfolding version_code
normalize_runs = (refl, refl, refl, refl, refl, refl)

compare_runs :
    (compare_versions (codes "1.10") (codes "1.9") ≡ Ordering.gt)
    × (compare_versions (codes "1.0-beta1") (codes "1.0") ≡ Ordering.lt)
    × (compare_versions (codes "1.0.0") (codes "1") ≡ Ordering.eq)
unfolding version_code
compare_runs = (refl, refl, refl)

abbrev sample : Map Text
sample =
    (codes "v1.0", codes "b")
    ∷ (codes "1.0", codes "a")
    ∷ (codes "2.0-beta1", codes "c")
    ∷ (codes "junk", codes "d")
    ∷ []

abbrev shuffled : Map Text
shuffled =
    (codes "2.0-beta1", codes "c")
    ∷ (codes "1.0", codes "a")
    ∷ (codes "junk", codes "d")
    ∷ (codes "v1.0", codes "b")
    ∷ []

sample_runs :
    (normalize_versions sample ≡ (codes "1.0", codes "a") ∷ (codes "2.0-beta1", codes "c") ∷ [])
    × (latest (normalize_versions sample) ≡ codes "1.0")
unfolding version_code
sample_runs = (refl, refl)

same_entries : SameEntries sample shuffled
same_entries e = (λ i. ground arith, λ i. ground arith)

functional : IsFunctional sample
functional v x y i j = ground arith

normalize_idem_example : normalize (normalize (codes " v2.1")) ≡ normalize (codes " v2.1")
normalize_idem_example = normalize_idem (codes " v2.1")

normalize-pattern_example : normalize (codes "1.2-RC1") ≡ codes "1.2-RC1"
unfolding version_code
normalize-pattern_example = normalize-pattern (codes "1.2-RC1") refl

compare_versions_trans_example :
    NotAbove (codes "1.0") (codes "2.0")
    × (compare_versions (codes "1.0") (codes "2.0")
        ≡ or_then
            (compare_versions (codes "1.0") (codes "2.0-rc1"))
            (compare_versions (codes "2.0-rc1") (codes "2.0")))
unfolding version_code
compare_versions_trans_example =
    compare_versions_trans (codes "1.0") (codes "2.0-rc1") (codes "2.0") refl refl

normalize_versions_order_example :
    lookup (codes "1.0") (normalize_versions sample)
    ≡ lookup (codes "1.0") (normalize_versions shuffled)
normalize_versions_order_example =
    normalize_versions_order sample shuffled (codes "1.0") functional same_entries

normalize_versions_sound_example : (v : Text) × IsBest (codes "1.0") sample v (codes "a")
unfolding version_code
normalize_versions_sound_example = normalize_versions_sound (codes "1.0") sample (codes "a") refl

normalize_versions_complete_example :
    (url : Text) × (lookup (normalize (codes "v1.0")) (normalize_versions sample) ≡ some url)
unfolding version_code
normalize_versions_complete_example =
    normalize_versions_complete sample (codes "v1.0") (codes "b") (inl refl) (cc)

latest_stable_example : (is_stable (latest sample) ≡ true) × NotAbove (codes "1.0") (latest sample)
unfolding version_code
latest_stable_example =
    latest_stable sample (codes "1.0") (codes "a") (cc, (cc, (cc, (cc, tt)))) (inr (inl refl)) (cc)
      refl

latest-IsRelease_example : (latest sample ≡ []) ⊎ IsRelease sample (latest sample)
latest-IsRelease_example = latest-IsRelease sample

abbrev prereleases : Map Text
prereleases = (codes "1.0-a", codes "x") ∷ []

latest-filter_newer_than_example :
    NotAbove (latest (filter_newer_than sample (codes "1.0"))) (normalize (codes "1.0"))
unfolding version_code
latest-filter_newer_than_example = latest-filter_newer_than sample (codes "1.0") (cc) (cc) refl (cc)
