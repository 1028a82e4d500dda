-- ===== src/Version.antt =====
-- internal/version/normalize.go: WordPress version strings. A map from version to download URL is
-- an association list; where a loop runs over the map, the list gives the order.
pub mod Grammar
pub mod Normal
pub mod Order
pub mod Choice
pub mod Best
pub mod Select
mod Tests
use Prim.Native.Nat.{compare, Ordering}
use wp_packages.Base.{
  ℕ, Bool, true, false, not, ◌&&◌, ◌||◌, List, [], ◌∷◌, Text, Map, codes, eq_text, lt_text, lookup,
  insert, filter, Option, none, some, if◌then◌else◌, map,
}
use wp_packages.Text.{
  trim_space, trim_prefix, equal_fold, is_digit, cut, split, contains, atoi, to_lower,
}
use wp_packages.Regex.{Regex, seq, alt, set, char, plus, opt, up_to, one_of, matches}

abbrev pub digits : Regex
digits = plus (set is_digit)

-- alpha|beta|a|b|rc|p|pl|patch with an optional dotted or bare number
abbrev pub loose_words : List Text
loose_words =
    codes "alpha"
    ∷ codes "beta"
    ∷ codes "a"
    ∷ codes "b"
    ∷ codes "rc"
    ∷ codes "p"
    ∷ codes "pl"
    ∷ codes "patch"
    ∷ []

abbrev pub loose_suffix : Regex
loose_suffix = seq (one_of loose_words) (opt (seq (opt (char b'.')) digits))

-- dev|stable with an optional dotted number
abbrev pub strict_words : List Text
strict_words = codes "dev" ∷ codes "stable" ∷ []

abbrev pub strict_suffix : Regex
strict_suffix = seq (one_of strict_words) (opt (seq (char b'.') digits))

unfoldable pub valid_version : Regex
valid_version = seq digits (
    seq (up_to 3 (seq (char b'.') digits)) (opt (seq (char b'-') (alt loose_suffix strict_suffix))))

abbrev pub dev_trunk : Text
dev_trunk = codes "dev-trunk"

unfoldable pub is_trunk : Text → Bool
is_trunk v = equal_fold v (codes "trunk") || eq_text v dev_trunk

unfoldable pub is_valid : Text → Bool
is_valid v =
    let v' = trim_space v in
    if eq_text v' [] then false else if is_trunk v' then true else matches valid_version v'

-- Strips a leading v and V, and white space on both sides of them.
abbrev pub strip : Text → Text
strip v = trim_space (trim_prefix (trim_prefix v (codes "v")) (codes "V"))

unfoldable pub normalize : Text → Text
normalize v =
    let v0 = trim_space v in
    if eq_text v0 []
    then []
    else let v1 = strip v0 in
      if is_trunk v1 then dev_trunk else if not (is_valid v1) then [] else v1

unfoldable pub prefer_raw_version : Text → Text → Text → Bool
prefer_raw_version candidate current normalized =
    if eq_text candidate normalized
    then (if eq_text current normalized then lt_text candidate current else true)
    else if eq_text current normalized
    then false
    else lt_text candidate current

-- The two maps of the loop in NormalizeVersions.
pub record Chosen : Type 0 where
  pub result : Map Text
  pub chosen : Map Text

abbrev pub loses : Text → Text → Option Text → Bool
loses v k none = false
loses v k (some prev) = not (prefer_raw_version v prev k)

unfoldable pub choose : Text → Text → Chosen → Chosen
choose v url st =
    let k = normalize v in
    if eq_text k []
    then st
    else if loses v k (lookup k st.chosen)
    then st
    else record { result = insert k url st.result; chosen = insert k v st.chosen }

unfoldable pub choose_all : Map Text → Chosen → Chosen
choose_all [] st = st
choose_all ((v, url) ∷ m) st = choose_all m (choose v url st)

unfoldable pub normalize_versions : Map Text → Map Text
normalize_versions versions = (choose_all versions (record { result = []; chosen = [] })).result

-- splitSuffix
abbrev pub suffix_of : Text → Option (Text × Text) → Text × Text
suffix_of v none = (v, [])
suffix_of v (some (before, after)) = (before, after)

unfoldable pub split_suffix : Text → Text × Text
split_suffix v = suffix_of v (cut b'-' v)

unfoldable pub is_stable : Text → Bool
is_stable v = not (contains b'-' v)

-- `c` unless it is 0, as in `if c := …; c != 0 { return c }`
abbrev pub or_then : Ordering → Ordering → Ordering
or_then Ordering.eq d = d
or_then c d = c

-- The loop over the segments; one that a version lacks counts as 0.
unfoldable pub compare_segments : List ℕ → List ℕ → Ordering
compare_segments [] [] = Ordering.eq
compare_segments (a ∷ xs) [] = or_then (compare a 0) (compare_segments xs [])
compare_segments [] (b ∷ ys) = or_then (compare 0 b) (compare_segments [] ys)
compare_segments (a ∷ xs) (b ∷ ys) = or_then (compare a b) (compare_segments xs ys)

-- cmp.Compare on strings
unfoldable pub compare_text : Text → Text → Ordering
compare_text s t =
    if lt_text s t then Ordering.lt else if lt_text t s then Ordering.gt else Ordering.eq

unfoldable pub compare_suffix : Text → Text → Ordering
compare_suffix s t =
    if eq_text s [] && not (eq_text t [])
    then Ordering.gt
    else if not (eq_text s []) && eq_text t []
    then Ordering.lt
    else compare_text (to_lower s) (to_lower t)

unfoldable pub segments : Text → List ℕ
segments base = map atoi (split b'.' base)

-- Compare; -1, 0 and 1 are lt, eq and gt.
unfoldable pub compare_versions : Text → Text → Ordering
unfolding segments split_suffix
compare_versions a b =
    or_then (compare_segments (segments (split_suffix a).0) (segments (split_suffix b).0))
      (compare_suffix (split_suffix a).1 (split_suffix b).1)

abbrev pub is_gt : Ordering → Bool
is_gt Ordering.gt = true
is_gt _ = false

-- The test of the loop in FilterNewerThan.
unfoldable pub kept : Text → Text → Bool
kept max v = eq_text v dev_trunk || not (is_stable v) || not (is_gt (compare_versions v max))

unfoldable pub filter_newer_than : Map Text → Text → Map Text
filter_newer_than versions max_version =
    let max = normalize max_version in
    if eq_text max [] || eq_text max dev_trunk
    then versions
    else filter (λ (e : Text × Text). kept max (e.0)) versions

-- The variables latestStable and latestAny.
pub record Seen : Type 0 where
  pub stable : Text
  pub any : Text

abbrev pub higher : Text → Text → Text
higher v best = if eq_text best [] || is_gt (compare_versions v best) then v else best

unfoldable pub see : Text → Seen → Seen
see v st = if eq_text v dev_trunk then st else record {
  stable = (if is_stable v then higher v st.stable else st.stable);
  any = higher v st.any;
}

unfoldable pub see_all : Map Text → Seen → Seen
see_all [] st = st
see_all ((v, url) ∷ m) st = see_all m (see v st)

unfoldable pub latest : Map Text → Text
latest versions =
    let st = see_all versions (record { stable = []; any = [] }) in
    if not (eq_text st.stable []) then st.stable else st.any
