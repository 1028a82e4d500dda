-- ===== src/Negotiate.antt =====
-- internal/http/negotiate/negotiate.go: the choice of a media type by an Accept header. A q-value of
-- [0, 1] is a number in some unit, of which `one` make 1; strconv.ParseFloat is an argument.
pub mod Choice
mod Match
mod Tests
use wp_packages.Base.{
  ℕ, suc, Bool, true, false, not, ◌&&◌, ◌||◌, List, [], ◌∷◌, ◌++◌, Text, codes, Option, none, some,
  eq_text, ltb, leb, ◌==◌, if◌then◌else◌,
}
use wp_packages.Text.{trim_space, to_lower, split, cut, has_suffix, has_prefix}

-- What ParseFloat makes of a text.
pub data Parsed : Type 0 where
  bad : Parsed
  not_a_number : Parsed
  below_zero : Parsed
  value : ℕ → Parsed

-- The quality is missing where it is not a number, which compares as false with all.
pub record Entry : Type 0 where
  pub type : Text
  pub q : Option ℕ
  pub specificity : ℕ

pub record Score : Type 0 where
  pub q : ℕ
  pub pos : ℕ

pub record Found : Type 0 where
  pub q : Option ℕ
  pub specificity : ℕ
  pub pos : ℕ

abbrev head_of : List Text → Text
head_of [] = []
head_of (s ∷ ss) = s

abbrev tail_of : List Text → List Text
tail_of [] = []
tail_of (s ∷ ss) = ss

unfoldable pub specificity_of : Text → ℕ
unfolding has_suffix
specificity_of t = if eq_text t (codes "*/*") then 0 else if has_suffix t (codes "/*") then 1 else 2

unfoldable pub matches_candidate : Entry → Text → Bool
unfolding has_suffix has_prefix
matches_candidate e candidate =
    if eq_text e.type (codes "*/*")
    then true
    else if has_suffix e.type (codes "/*")
    then has_prefix candidate (drop_last e.type)
    else eq_text e.type candidate
  where
    drop_last : Text → Text
    drop_last [] = []
    drop_last (c ∷ []) = []
    drop_last (c ∷ d ∷ s) = c ∷ drop_last (d ∷ s)

module _ (parse_float : Text → Parsed) (one : ℕ) where
  abbrev clamped : Parsed → Option ℕ → Option ℕ
  clamped bad q = q
  clamped not_a_number q = none
  clamped below_zero q = some 0
  clamped (value n) q = if ltb one n then some one else some n

  abbrev quality_of : Option (Text × Text) → Option ℕ → Option ℕ
  quality_of none q = q
  quality_of (some (name, v)) q =
      if eq_text (trim_space name) (codes "q") then clamped (parse_float (trim_space v)) q else q

  -- The loop over the parameters of a range.
  unfoldable pub parse_quality : List Text → Option ℕ → Option ℕ
  unfolding trim_space cut
  parse_quality [] q = q
  parse_quality (p ∷ ps) q = parse_quality ps (quality_of (cut b'=' p) q)

  abbrev add_range : List Text → List Entry → List Entry
  add_range segments rest =
      let t = to_lower (trim_space (head_of segments)) in
      if eq_text t []
      then rest
      else record {
        type = t;
        q = parse_quality (tail_of segments) (some one);
        specificity = specificity_of t;
      }
        ∷ rest

  unfoldable pub parse_ranges : List Text → List Entry
  unfolding parse_quality specificity_of to_lower trim_space split
  parse_ranges [] = []
  parse_ranges (raw ∷ parts) = add_range (split b';' (trim_space raw)) (parse_ranges parts)

  unfoldable pub parse : Text → List Entry
  unfolding parse_ranges split
  parse header = if eq_text header [] then [] else parse_ranges (split b',' header)

-- A matching range takes the place of the one found so far. Positions only grow.
abbrev pub is_better_match : Entry → ℕ → Option Found → Bool
is_better_match e i none = true
is_better_match e i (some f) =
    ltb f.specificity e.specificity || (e.specificity == f.specificity && ltb i f.pos)

-- The most specific range of a candidate; the inner loop of Preferred from a position.
unfoldable pub find_match : Text → ℕ → List Entry → Option Found → Option Found
unfolding matches_candidate
find_match candidate i [] found = found
find_match candidate i (e ∷ es) found = find_match candidate (suc i) es (
    if matches_candidate e candidate && is_better_match e i found
    then some (record { q = e.q; specificity = e.specificity; pos = i })
    else found)

-- A candidate that may be chosen: its quality is a number above 0.
abbrev pub score_of : Option Found → Option Score
score_of none = none
score_of (some f) = elim f.q [
  | none ↦ none
  | some q ↦ if leb q 0 then none else some (record { q = q; pos = f.pos })
]

pub record Best : Type 0 where
  pub type : Text
  pub q : ℕ
  pub pos : ℕ

abbrev pub beats : Score → Option Best → Bool
beats s none = true
beats s (some b) = ltb b.q s.q || (s.q == b.q && ltb s.pos b.pos)

abbrev pub take_better : Text → Option Score → Option Best → Option Best
take_better candidate none best = best
take_better candidate (some s) best =
    if beats s best then some (record { type = candidate; q = s.q; pos = s.pos }) else best

-- The loop over the candidates.
unfoldable pub choose_candidate : (Text → Option Score) → List Text → Option Best → Option Best
choose_candidate score [] best = best
choose_candidate score (c ∷ cs) best = choose_candidate score cs (take_better c (score c) best)

abbrev pub type_of : Option Best → Text
type_of none = []
type_of (some b) = b.type

abbrev pub first_of : List Text → Text
first_of [] = []
first_of (t ∷ ts) = t

abbrev pub is_nil {ℓ} : {A : Type ℓ} → List A → Bool
is_nil [] = true
is_nil (x ∷ xs) = false

abbrev pub score : List Entry → Text → Option Score
score entries candidate = score_of (find_match candidate 0 entries none)

unfoldable pub preferred : (Text → Parsed) → ℕ → Text → List Text → Text
unfolding parse find_match choose_candidate
preferred parse_float one header produces =
    let entries = parse parse_float one header in
    if eq_text header [] || is_nil entries
    then first_of produces
    else type_of (choose_candidate (score entries) produces none)
