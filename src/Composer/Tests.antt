-- ===== src/Composer/Tests.antt =====
-- Composer names and p2 files of concrete packages.
use wp_packages.Base.{
  ℕ, ◌≡◌, refl, [], ◌∷◌, Text, Map, codes, none, some, eq_text, lt_text, lookup, insert, inl,
  length,
}
use wp_packages.Text.{
  split_n, has_suffix, trim_space, equal_fold, trim_prefix, is_digit, has_prefix, cut_prefix, fold,
  is_space, trim_left, trim_right, trim_suffix,
}
use wp_packages.Regex.{matches, derive, nullable}
use wp_packages.Version.{
  normalize_versions, choose_all, choose, normalize, is_trunk, is_valid, valid_version,
  prefer_raw_version,
}
use wp_packages.Composer.{
  composer_name, package_type, entries_of, composer_version, entry_time, published_time, reference,
  tagged_entries, theme, plugin, PackageMeta,
}
use wp_packages.Composer.Names.{package_type-composer_name}
use wp_packages.Composer.Files.{
  Codec, PackageFile, package_files, serialize_decoded, serialize_package,
}

composer_code : Unit {0}
unfolding package_files has_suffix entries_of normalize_versions choose_all choose normalize
    trim_space is_trunk equal_fold trim_prefix is_valid matches valid_version is_digit lookup insert
    has_prefix eq_text lt_text serialize_decoded serialize_package composer_name composer_version
    entry_time published_time reference tagged_entries derive nullable cut_prefix fold is_space
    trim_left trim_right trim_suffix prefer_raw_version
composer_code = tt

package_type-composer_name_example :
    (vendor : Text) × (split_n b'/' 1 (composer_name plugin (codes "akismet"))
      ≡ vendor ∷ codes "akismet" ∷ [])
    × (package_type vendor ≡ plugin)
package_type-composer_name_example = package_type-composer_name plugin (codes "akismet") (inl refl)

abbrev two_versions : Map Text
two_versions = (codes "1.0", codes "u") ∷ (codes "1.1-beta", codes "v") ∷ []

abbrev codec : Codec
codec = record { decode = λ t. some two_versions; encode = λ j. codes "json" }

abbrev decimal : ℕ → Text
decimal n = codes "7"

abbrev meta : PackageMeta
meta = record {
  description = codes "Spam";
  homepage = [];
  author = [];
  requires_php = [];
  last_updated = [];
  trunk_revision = some 7;
  published_times = none;
}

abbrev akismet : Text
akismet = codes "akismet"

abbrev main_file : PackageFile
main_file = record { key = codes "p2/wp-plugin/akismet.json"; content = codes "json" }

abbrev dev_file : PackageFile
dev_file = record { key = codes "p2/wp-plugin/akismet~dev.json"; content = codes "json" }

akismet_files :
    package_files codec decimal length plugin akismet [] meta ≡ some (main_file ∷ dev_file ∷ [])
unfolding composer_code
akismet_files = refl

abbrev theme_file : PackageFile
theme_file = record { key = codes "p2/wp-theme/astra.json"; content = codes "json" }

astra_files :
    package_files codec decimal length theme (codes "astra") [] meta ≡ some (theme_file ∷ [])
unfolding composer_code
astra_files = refl
