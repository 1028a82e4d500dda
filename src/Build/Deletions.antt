-- ===== src/Build/Deletions.antt =====
-- The packages that a build reports as deleted.
use wp_packages.Base.{
  ◌≡◌, lookup, none, Bool, ◌&&◌, List, [], ◌∷◌, ◌++◌, Text, Map, codes, eq_text, any, if◌then◌else◌,
}
use wp_packages.Build.Files.{HasFile}
use wp_packages.Build.{is_deleted}

abbrev pub is_reported : Text → List (Text × Text) → Bool
is_reported name changed =
    any (λ (e : Text × Text). eq_text e.0 name && eq_text e.1 (codes "delete")) changed

abbrev has_name : Text → List Text → Bool
has_name name names = any (eq_text name) names

abbrev add_deletion : Map Text → Text → List (Text × Text) → List (Text × Text)
add_deletion dir n changed =
    if is_deleted dir n then changed ++ (n, codes "delete") ∷ [] else changed

-- The old files have one of the package and the new ones have neither.
abbrev pub IsGone : Text → Map Text → Map Text → Type 0
IsGone name old dir =
    HasFile name old
    × (lookup (codes "p2/" ++ (name ++ codes ".json")) dir ≡ none)
    × (lookup (codes "p2/" ++ (name ++ codes "~dev.json")) dir ≡ none)
