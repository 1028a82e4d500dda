-- ===== src/Build/Files.antt =====
-- Which files of a build are those of a package.
use wp_packages.Base.{
  ◌≡◌, ◌⊎◌, refl, sym, ap, ◌∙◌, Bool, true, false, ◌&&◌, [], ◌∷◌, ◌++◌, Text, Map, codes, eq_text,
  eq_text_iff, eq_text_refl, arith, Bool-cases, inl, inr, In, All, any,
}
use wp_packages.Text.{has_suffix}
use wp_packages.Build.Names.{
  package_of_file-main_path, package_of_file-dev_path, has_suffix-main_path, has_suffix-dev_path,
  path_of_package,
}
use wp_packages.Build.{main_path, dev_path, package_of_file}

-- Whether some file is one of the package.
abbrev pub has_file_of : Text → Map Text → Bool
has_file_of name files =
    any (λ (f : Text × Text). has_suffix f.0 (codes ".json") && eq_text (package_of_file f.0) name)
      files

-- Every file stands below p2.
abbrev pub BelowP2 : Map Text → Type 0
BelowP2 = All (λ (f : Text × Text). (rel : Text) × (f.0 ≡ codes "p2/" ++ rel))

-- The main file or the trunk file of the package is among the files.
abbrev pub HasFile : Text → Map Text → Type 0
HasFile name files =
    (path : Text) × (content : Text) × In (path, content) files
    × ((path ≡ codes "p2/" ++ (name ++ codes ".json"))
        ⊎ (path ≡ codes "p2/" ++ (name ++ codes "~dev.json")))

is_file_of-paths :
    (name path rel : Text)
    → path ≡ codes "p2/" ++ rel
    → (has_suffix path (codes ".json") && eq_text (package_of_file path) name) ≡ true
    → (path ≡ main_path name) ⊎ (path ≡ dev_path name)
is_file_of-paths name path rel e h =
    let json : has_suffix (codes "p2/" ++ rel) (codes ".json") ≡ true =
      ap (λ t. has_suffix t (codes ".json")) (sym e) ∙ ground (arith, h) in
    let same : package_of_file path ≡ name =
      (eq_text_iff (package_of_file path) name).0 (ground (arith, h)) in
    let named : package_of_file (codes "p2/" ++ rel) ≡ name = ap package_of_file (sym e) ∙ same in
    elim (path_of_package rel json) [
      | inl m ↦ inl (e ∙ (m ∙ ap main_path named))
      | inr d ↦ inr (e ∙ (d ∙ ap dev_path named))
    ]

pub has_file_of-HasFile :
    (name : Text) (files : Map Text)
    → BelowP2 files
    → has_file_of name files ≡ true
    → HasFile name files
has_file_of-HasFile name [] b h = absurd (cc)
has_file_of-HasFile name ((path, content) ∷ files) (here, b) h =
    elim (Bool-cases (has_suffix path (codes ".json") && eq_text (package_of_file path) name)) [
      | inl e ↦ (path, content, inl refl, is_file_of-paths name path here.0 here.1 e)
      | inr e ↦
          let (p, c, i, w) = has_file_of-HasFile name files b (ground (arith, e, h)) in
          (p, c, inr i, w)
    ]

path_of_package-HasFile :
    (name path : Text)
    → has_suffix name (codes "~dev") ≡ false
    → (path ≡ main_path name) ⊎ (path ≡ dev_path name)
    → (has_suffix path (codes ".json") && eq_text (package_of_file path) name) ≡ true
path_of_package-HasFile name path s (inl e) =
    rw (e, has_suffix-main_path name, package_of_file-main_path name s) (eq_text_refl name)
path_of_package-HasFile name path s (inr e) =
    rw (e, has_suffix-dev_path name, package_of_file-dev_path name) (eq_text_refl name)

pub HasFile-has_file_of :
    (name path content : Text) (files : Map Text)
    → has_suffix name (codes "~dev") ≡ false
    → In (path, content) files
    → (path ≡ main_path name) ⊎ (path ≡ dev_path name)
    → has_file_of name files ≡ true
HasFile-has_file_of name path content [] s i w = absurd i
HasFile-has_file_of name path content ((p, c) ∷ files) s (inl e) w =
    let found =
      ap (λ (f : Text × Text). has_suffix f.0 (codes ".json") && eq_text (package_of_file f.0) name)
        e
      ∙ path_of_package-HasFile name path s w in
    ground (arith, found)
HasFile-has_file_of name path content ((p, c) ∷ files) s (inr i) w =
    ground (arith, HasFile-has_file_of name path content files s i w)
