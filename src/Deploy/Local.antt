-- ===== src/Deploy/Local.antt =====
-- internal/deploy/local.go: the builds of a repository directory and its "current" link. Calls of
-- the file system that may fail are answered by arguments.
pub mod Order
pub mod Retention
mod Tests
use wp_packages.Base.{
  ℕ, suc, ◌+◌, Bool, true, false, not, ◌&&◌, ◌||◌, List, [], ◌∷◌, ◌++◌, Text, codes, Option, none,
  some, eq_text, lt_text, any, all, filter, length, ltb, if◌then◌else◌, map,
}

pub record Entry : Type 0 where
  pub name : Text
  pub is_dir : Bool
  pub files : List Text

-- The builds directory as ReadDir finds it.
pub data Dir : Type 0 where
  missing : Dir
  unreadable : Dir
  entries : List Entry → Dir

-- `current` is the base name of the link's target.
pub record Repo : Type 0 where
  pub builds : Dir
  pub current : Option Text

-- sort.Strings
unfoldable pub insert_sorted : Text → List Text → List Text
insert_sorted x [] = x ∷ []
insert_sorted x (y ∷ ys) = if lt_text y x then y ∷ insert_sorted x ys else x ∷ y ∷ ys

unfoldable pub sort : List Text → List Text
unfolding insert_sorted
sort [] = []
sort (x ∷ xs) = insert_sorted x (sort xs)

abbrev pub dir_names : List Entry → List Text
dir_names [] = []
dir_names (e ∷ es) = if e.is_dir then e.name ∷ dir_names es else dir_names es

-- The sorted build ids; missing where ListBuilds returns an error.
unfoldable pub list_builds : Repo → Option (List Text)
unfolding sort
list_builds repo = elim repo.builds [
  | missing ↦ some []
  | unreadable ↦ none
  | entries es ↦ some (sort (dir_names es))
]

abbrev last : List Text → Option Text
last [] = none
last (x ∷ []) = some x
last (x ∷ y ∷ ys) = last (y ∷ ys)

unfoldable pub latest_build_id : Repo → Option Text
unfolding list_builds
latest_build_id repo = elim (list_builds repo) [ none ↦ none | some ids ↦ last ids ]

-- currentID: empty where the link is missing
unfoldable pub current_build_id : Repo → Text
current_build_id repo = elim repo.current [ none ↦ [] | some id ↦ id ]

abbrev pub is_file : Text → Text → List Entry → Bool
is_file id file [] = false
is_file id file (e ∷ es) = (eq_text e.name id && any (eq_text file) e.files) || is_file id file es

abbrev pub required : List Text
required = codes "packages.json" ∷ codes "manifest.json" ∷ []

unfoldable pub validate_build : Text → Repo → Bool
validate_build id repo = elim repo.builds [
  | missing ↦ false
  | unreadable ↦ false
  | entries es ↦ all (λ file. is_file id file es) required
]

-- `link_ok` and `rename_ok`: whether the temporary link can be made and renamed.
unfoldable pub promote : Bool → Bool → Text → Repo → Option Repo
unfolding validate_build
promote link_ok rename_ok id repo =
    if validate_build id repo && (link_ok && rename_ok)
    then some (record repo { current = some id })
    else none

-- The last build that is not the current one.
unfoldable pub last_other : Text → List Text → Option Text
last_other current [] = none
last_other current (b ∷ bs) = elim (last_other current bs) [
  | none ↦ if eq_text b current then none else some b
  | some t ↦ some t
]

abbrev pub other_of : Text → Option (List Text) → Option Text
other_of current none = none
other_of current (some ids) = last_other current ids

abbrev pub target_of : Text → Repo → Option Text
target_of id repo =
    if eq_text id [] then other_of (current_build_id repo) (list_builds repo) else some id

abbrev pub with_target : Text → Option Repo → Option (Text × Repo)
with_target t none = none
with_target t (some repo) = some (t, repo)

abbrev pub promote_target : Bool → Bool → Repo → Option Text → Option (Text × Repo)
promote_target link_ok rename_ok repo none = none
promote_target link_ok rename_ok repo (some t) = with_target t (promote link_ok rename_ok t repo)

-- Rollback: the build that is current now, and the repository.
unfoldable pub rollback : Bool → Bool → Text → Repo → Option (Text × Repo)
unfolding promote last_other list_builds current_build_id
rollback link_ok rename_ok id repo = promote_target link_ok rename_ok repo (target_of id repo)

abbrev pub is_current : Text → Text → Bool
is_current current b = not (eq_text current []) && eq_text b current

-- The loop from the newest build down, that keeps up to `n` others: how many, and which.
abbrev pub mark : ℕ → Text → Text → ℕ × List Text → ℕ × List Text
mark n current b (k, ks) =
    if ltb k n && not (is_current current b || any (eq_text b) ks) then (k + 1, b ∷ ks) else (k, ks)

unfoldable pub keep_newest : ℕ → Text → List Text → ℕ × List Text
keep_newest n current [] = (0, [])
keep_newest n current (b ∷ bs) = mark n current b (keep_newest n current bs)

abbrev pub min_retain : ℕ
min_retain = 5

abbrev pub clamp_retain : ℕ → ℕ
clamp_retain n = if ltb n min_retain then min_retain else n

abbrev pub is_kept : Text → List Text → Text → Bool
is_kept current ks b = is_current current b || any (eq_text b) ks

-- The builds to remove, and the entries that are left when `remove_ok` of them can be removed.
unfoldable pub to_remove : ℕ → Text → List Text → List Text
unfolding keep_newest
to_remove retain current ids =
    filter (λ b. not (is_kept current (keep_newest (clamp_retain retain) current ids).1 b)) ids

abbrev removed_now : (Text → Bool) → List Text → List Text
removed_now remove_ok ids = filter remove_ok ids

abbrev without : List Text → Dir → Dir
without gone missing = missing
without gone unreadable = unreadable
without gone (entries es) = entries (filter (λ (e : Entry). not (any (eq_text e.name) gone)) es)

-- Cleanup: how many builds were removed, and the repository.
unfoldable pub cleanup : (Text → Bool) → ℕ → Repo → Option (ℕ × Repo)
unfolding to_remove list_builds current_build_id
cleanup remove_ok retain repo = elim (list_builds repo) [
  | none ↦ none
  | some ids ↦
      let gone = removed_now remove_ok (to_remove retain (current_build_id repo) ids) in
      some (length gone, record repo { builds = without gone repo.builds })
]
