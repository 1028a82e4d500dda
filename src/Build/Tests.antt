-- ===== src/Build/Tests.antt =====
-- A build of one plugin, and one that lost a plugin.
use wp_packages.Base.{
  ℕ, ◌≡◌, refl, Bool, false, List, [], ◌∷◌, Text, Map, codes, none, some, eq_text, length, inl,
}
use wp_packages.Text.{has_suffix}
use wp_packages.Composer.{plugin}
use wp_packages.Composer.Files.{Codec, PackageFile, package_files}
use wp_packages.Packages.{Row, shell_row}
use wp_packages.Build.{BuildOpts, Previous, empty_build, meta_of, build_package}
use wp_packages.Build.Agreement.{IsWritten, build_package-package_files}

abbrev codec : Codec
codec = record { decode = λ t. some ((codes "1.0", codes "u") ∷ []); encode = λ j. codes "json" }

abbrev decimal : ℕ → Text
decimal n = codes "7"

abbrev no_fault : Text → Bool
no_fault path = false

abbrev no_previous : Previous
no_previous = none

abbrev akismet : Row
akismet = shell_row 1 10 (record { type = plugin; name = codes "akismet"; last_committed = some 5 })

build_package-package_files_example :
    (files : List PackageFile) × (package_files codec decimal length akismet.type akismet.name
        akismet.listing.versions_json
        (meta_of codec decimal length decimal no_fault no_previous akismet)
      ≡ some files)
    × IsWritten codec decimal length decimal no_fault no_previous files empty_build
        (build_package codec decimal length decimal no_fault no_previous akismet empty_build)
unfolding shell_row has_suffix eq_text
build_package-package_files_example =
    build_package-package_files codec decimal length decimal no_fault no_previous akismet
      empty_build ((codes "1.0", codes "u") ∷ []) refl refl (inl refl) (λ path. refl)

abbrev all_packages : BuildOpts
all_packages = record { force = false; package_name = []; package_names = [] }

abbrev old : Map Text
old = (codes "p2/wp-plugin/gone.json", codes "json") ∷ []
