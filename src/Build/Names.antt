-- ===== src/Build/Names.antt =====
-- The names of packages and the paths of their files.
use wp_packages.Base.{
  ◌≡◌, ◌≢◌, ◌⊎◌, refl, sym, ap, ◌∙◌, true, false, ◌++◌, Text, codes, eq_text, eq_text_iff,
  eq_text_refl, arith, Bool-cases, inl, inr, length, length-append, append_assoc, if◌then◌else◌,
}
use wp_packages.Text.{has_suffix, trim_suffix, trim_prefix, cut_prefix}
use wp_packages.Text.Trim.{
  has_suffix-append, trim_suffix-append, trim_suffix_kept, trim_suffix_found,
}
use wp_packages.Build.{main_path, dev_path, package_of_file}

abbrev json : Text
json = codes ".json"

abbrev dev_json : Text
dev_json = codes "~dev.json"

abbrev dev : Text
dev = codes "~dev"

dev_json-append : (x : Text) → x ++ dev_json ≡ (x ++ dev) ++ json
dev_json-append x = sym (append_assoc x dev json)

-- A name behind which `.json` makes a trunk file ends in ~dev.
has_suffix-dev_json :
    (name : Text) → has_suffix name dev ≡ false → has_suffix (name ++ json) dev_json ≡ false
has_suffix-dev_json name h = elim (Bool-cases (has_suffix (name ++ json) dev_json)) [
  | inr e ↦ e
  | inl e ↦
      let y = trim_suffix (name ++ json) dev_json in
      let same : name ++ json ≡ (y ++ dev) ++ json =
        trim_suffix_found (name ++ json) dev_json e ∙ dev_json-append y in
      let ends : name ≡ y ++ dev =
        sym (trim_suffix-append name json)
        ∙ (ap (λ t. trim_suffix t json) same ∙ trim_suffix-append (y ++ dev) json) in
      let f : true ≡ false =
        sym (has_suffix-append y dev) ∙ (ap (λ t. has_suffix t dev) (sym ends) ∙ h) in
      absurd (cc)
]

longer : (x p : Text) → length p ≢ 0 → eq_text x (x ++ p) ≡ false
longer x p n = elim (Bool-cases (eq_text x (x ++ p))) [
  | inr e ↦ e
  | inl e ↦ absurd (n (omega (arith, ap length ((eq_text_iff x (x ++ p)).0 e), length-append x p)))
]

-- The package of a file by its path below p2.
abbrev package_of_rel : Text → Text
package_of_rel rel =
    if eq_text (trim_suffix rel dev_json) rel
    then trim_suffix rel json
    else trim_suffix rel dev_json

package_of_file-rel : (rel : Text) → package_of_file (codes "p2/" ++ rel) ≡ package_of_rel rel
unfolding package_of_file trim_prefix cut_prefix
package_of_file-rel rel = refl

pub package_of_file-main_path :
    (name : Text) → has_suffix name dev ≡ false → package_of_file (main_path name) ≡ name
package_of_file-main_path name h =
    package_of_file-rel (name ++ json)
    ∙ rw
        (
          trim_suffix_kept (name ++ json) dev_json (has_suffix-dev_json name h),
          eq_text_refl (name ++ json),
        )
        (trim_suffix-append name json)

pub package_of_file-dev_path : (name : Text) → package_of_file (dev_path name) ≡ name
package_of_file-dev_path name =
    package_of_file-rel (name ++ dev_json)
    ∙ rw (trim_suffix-append name dev_json, longer name dev_json (cc)) refl

pub has_suffix-main_path : (name : Text) → has_suffix (main_path name) json ≡ true
unfolding has_suffix eq_text
has_suffix-main_path name = has_suffix-append name json

pub has_suffix-dev_path : (name : Text) → has_suffix (dev_path name) json ≡ true
unfolding has_suffix eq_text
has_suffix-dev_path name =
    ap (λ t. has_suffix t json) (dev_json-append name) ∙ has_suffix-append (name ++ dev) json

-- The path of a JSON file below p2 is one of the two of its package.
pub path_of_package :
    (rel : Text)
    → has_suffix (codes "p2/" ++ rel) json ≡ true
    → let name = package_of_file (codes "p2/" ++ rel) in
      (codes "p2/" ++ rel ≡ main_path name) ⊎ (codes "p2/" ++ rel ≡ dev_path name)
unfolding has_suffix eq_text
path_of_package rel h = elim (Bool-cases (has_suffix rel dev_json)) [
  | inl e ↦
      let cut : rel ≡ trim_suffix rel dev_json ++ dev_json = trim_suffix_found rel dev_json e in
      let ne : eq_text (trim_suffix rel dev_json) rel ≡ false =
        ap (eq_text (trim_suffix rel dev_json)) cut
        ∙ longer (trim_suffix rel dev_json) dev_json (cc) in
      let name : package_of_file (codes "p2/" ++ rel) ≡ trim_suffix rel dev_json =
        package_of_file-rel rel ∙ rw ne refl in
      inr (ap (λ t. codes "p2/" ++ t) (cut ∙ ap (λ t. t ++ dev_json) (sym name)))
  | inr e ↦
      let name : package_of_file (codes "p2/" ++ rel) ≡ trim_suffix rel json =
        package_of_file-rel rel ∙ rw (trim_suffix_kept rel dev_json e, eq_text_refl rel) refl in
      inl
        (ap (λ t. codes "p2/" ++ t) (trim_suffix_found rel json h ∙ ap (λ t. t ++ json) (sym name)))
]
