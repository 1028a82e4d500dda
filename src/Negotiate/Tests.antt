-- ===== src/Negotiate/Tests.antt =====
-- An Accept header with a rejected type.
use wp_packages.Base.{◌≡◌, refl, List, [], ◌∷◌, Text, codes, eq_text, if◌then◌else◌}
use wp_packages.Text.{
  trim_space, trim_left, trim_right, is_space, to_lower, lower, split, cut, has_suffix, has_prefix,
}
use wp_packages.Negotiate.{
  Parsed, bad, value, parse, parse_ranges, parse_quality, specificity_of, matches_candidate,
  find_match, choose_candidate, preferred,
}
use wp_packages.Negotiate.Choice.{IsPreferred, preferred_lem}

negotiate_code : Unit {0}
unfolding eq_text trim_space trim_left trim_right is_space to_lower lower split cut has_suffix
    has_prefix parse parse_ranges parse_quality specificity_of matches_candidate find_match
    choose_candidate preferred
negotiate_code = tt

-- Reads 0 and 1.
abbrev digit : Text → Parsed
digit t = if eq_text t (codes "0") then value 0 else if eq_text t (codes "1") then value 1 else bad

abbrev header : Text
header = codes "text/html;q=0, */*"

abbrev produces : List Text
produces = codes "text/html" ∷ codes "text/markdown" ∷ []

the_wildcard_does_not_override : preferred digit 1 header produces ≡ codes "text/markdown"
unfolding negotiate_code
the_wildcard_does_not_override = refl

preferred_lem_example :
    IsPreferred (parse digit 1 header) produces (preferred digit 1 header produces)
unfolding negotiate_code
preferred_lem_example = preferred_lem digit 1 header produces refl
