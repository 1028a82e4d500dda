-- ===== src/Text.antt =====
-- The functions of Go's `strings` and `strconv` that the program uses, over lists of code points.
-- `fold` is simple case folding as far as it reaches ASCII (the Kelvin sign folds to k, the long s
-- to s), which decides a comparison with an ASCII text. `to_lower` is exact on ASCII.
pub mod Trim
pub mod Parts
use wp_packages.Base.{
  ℕ, zero, suc, ◌+◌, ◌-◌, ◌*◌, ◌^◌, ◌≡◌, refl, Bool, true, false, ◌&&◌, ◌||◌, Option, none, some,
  List, [], ◌∷◌, ◌++◌, map, Text, codes, eq_text, ltb, leb, ◌==◌, if◌then◌else◌,
}

-- unicode.IsSpace
unfoldable pub is_space : ℕ → Bool
is_space c =
    (leb 9 c && leb c 13)
    || c == 0x20
    || c == 0x85
    || c == 0xA0
    || c == 0x1680
    || (leb 0x2000 c && leb c 0x200a)
    || c == 0x2028
    || c == 0x2029
    || c == 0x202f
    || c == 0x205f
    || c == 0x3000

unfoldable pub trim_left : Text → Text
unfolding is_space
trim_left [] = []
trim_left (c ∷ s) = if is_space c then trim_left s else c ∷ s

-- Keeps a space only in front of what is kept.
abbrev keep_space : ℕ → Text → Text
keep_space c [] = if is_space c then [] else c ∷ []
keep_space c (d ∷ s) = c ∷ d ∷ s

unfoldable pub trim_right : Text → Text
unfolding is_space
trim_right [] = []
trim_right (c ∷ s) = keep_space c (trim_right s)

-- strings.TrimSpace
unfoldable pub trim_space : Text → Text
unfolding trim_left trim_right
trim_space s = trim_right (trim_left s)

unfoldable pub has_prefix : Text → Text → Bool
has_prefix s [] = true
has_prefix [] (b ∷ p) = false
has_prefix (a ∷ s) (b ∷ p) = a == b && has_prefix s p

-- The text behind a prefix; `none` where it is no prefix.
unfoldable pub cut_prefix : Text → Text → Option Text
cut_prefix s [] = some s
cut_prefix [] (b ∷ p) = none
cut_prefix (a ∷ s) (b ∷ p) = if a == b then cut_prefix s p else none

abbrev pub or_else {ℓ} : {A : Type ℓ} → Option A → A → A
or_else none d = d
or_else (some a) d = a

-- strings.TrimPrefix
unfoldable pub trim_prefix : Text → Text → Text
unfolding cut_prefix
trim_prefix s p = or_else (cut_prefix s p) s

unfoldable pub has_suffix : Text → Text → Bool
unfolding eq_text
has_suffix [] p = eq_text [] p
has_suffix (c ∷ s) p = eq_text (c ∷ s) p || has_suffix s p

-- strings.TrimSuffix
unfoldable pub trim_suffix : Text → Text → Text
unfolding eq_text
trim_suffix [] p = []
trim_suffix (c ∷ s) p = if eq_text (c ∷ s) p then [] else c ∷ trim_suffix s p

-- strings.Contains at a text of one code point
unfoldable pub contains : ℕ → Text → Bool
contains b [] = false
contains b (c ∷ s) = c == b || contains b s

-- strings.Cut at the first `sep`; `none` where there is none
abbrev prepend : ℕ → Option (Text × Text) → Option (Text × Text)
prepend c none = none
prepend c (some (x, y)) = some (c ∷ x, y)

unfoldable pub cut : ℕ → Text → Option (Text × Text)
cut sep [] = none
cut sep (c ∷ s) = if c == sep then some ([], s) else prepend c (cut sep s)

-- The first part of a split, which is never empty, takes one more code point.
abbrev pub push_head : ℕ → List Text → List Text
push_head c [] = (c ∷ []) ∷ []
push_head c (p ∷ ps) = (c ∷ p) ∷ ps

-- strings.Split at a separator of one code point
unfoldable pub split : ℕ → Text → List Text
split sep [] = [] ∷ []
split sep (c ∷ s) = if c == sep then [] ∷ split sep s else push_head c (split sep s)

-- strings.SplitN with n = suc k: at most k cuts
unfoldable pub split_n : ℕ → ℕ → Text → List Text
split_n sep k [] = [] ∷ []
split_n sep zero (c ∷ s) = (c ∷ s) ∷ []
split_n sep (suc k) (c ∷ s) =
    if c == sep then [] ∷ split_n sep k s else push_head c (split_n sep (suc k) s)

-- strings.Join
unfoldable pub join : Text → List Text → Text
join sep [] = []
join sep (p ∷ []) = p
join sep (p ∷ q ∷ ps) = p ++ (sep ++ join sep (q ∷ ps))

unfoldable pub fold : ℕ → ℕ
fold c =
    if leb b'A' c && leb c b'Z'
    then c + 32
    else if c == 0x212a
    then b'k'
    else if c == 0x17f
    then b's'
    else c

-- strings.EqualFold against an ASCII text
unfoldable pub equal_fold : Text → Text → Bool
unfolding fold eq_text
equal_fold s t = eq_text (map fold s) (map fold t)

unfoldable pub lower : ℕ → ℕ
lower c = if leb b'A' c && leb c b'Z' then c + 32 else c

-- strings.ToLower
unfoldable pub to_lower : Text → Text
unfolding lower
to_lower = map lower

unfoldable pub is_digit : ℕ → Bool
is_digit c = leb b'0' c && leb c b'9'

abbrev pub max_int64 : ℕ
max_int64 = 2 ^ 63 - 1

abbrev max_uint64 : ℕ
max_uint64 = 2 ^ 64 - 1

-- The value of digits behind `n`, as strconv.ParseUint reads them: `none` on another byte, unless the
-- digits before it are beyond 64 bits, where the reading ends.
unfoldable pub digits_value : ℕ → Text → Option ℕ
unfolding is_digit
digits_value n [] = some n
digits_value n (c ∷ s) =
    if is_digit c
    then (let m = n * 10 + (c - b'0') in if ltb max_uint64 m then some m else digits_value m s)
    else none

abbrev cap_int64 : Option ℕ → ℕ
cap_int64 none = 0
cap_int64 (some n) = if leb n max_int64 then n else max_int64

-- The unsigned part of strconv.Atoi with its error dropped: 0 on a syntax error, the largest int
-- on overflow.
unfoldable pub atoi_digits : Text → ℕ
unfolding digits_value
atoi_digits [] = 0
atoi_digits (c ∷ s) = cap_int64 (digits_value 0 (c ∷ s))

-- strconv.Atoi of a text with no minus sign, its error dropped
unfoldable pub atoi : Text → ℕ
unfolding atoi_digits
atoi [] = 0
atoi (c ∷ s) = if c == b'+' then atoi_digits s else atoi_digits (c ∷ s)
