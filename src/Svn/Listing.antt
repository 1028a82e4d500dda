-- ===== src/Svn/Listing.antt =====
-- internal/wporg/svn.go: parseSVNHTML and parseSVNRevision, on the lines of the listing. A call of
-- `fn` may return an error, which ends the loop.
use wp_packages.Base.{
  ℕ, ◌+◌, Bool, true, false, ◌||◌, List, [], ◌∷◌, Text, codes, Option, none, some, eq_text, leb,
  ◌==◌, if◌then◌else◌,
}
use wp_packages.Text.{has_prefix, cut_prefix, cut, trim_suffix, digits_value, max_int64, or_else}

-- strings.Cut at a text: what stands behind its first occurrence
unfoldable pub cut_after : Text → Text → Option Text
unfolding cut_prefix
cut_after sep [] = cut_prefix [] sep
cut_after sep (c ∷ s) = elim (cut_prefix (c ∷ s) sep) [
  | none ↦ cut_after sep s
  | some rest ↦ some rest
]

-- The text before the first of ':', '<' and ' '; missing where there is none.
unfoldable pub before_end : Text → Option Text
before_end [] = none
before_end (c ∷ s) =
    if c == b':' || (c == b'<' || c == b' ')
    then some []
    else elim (before_end s) [ none ↦ none | some t ↦ some (c ∷ t) ]

abbrev in_range : Option ℕ → Option ℕ
in_range none = none
in_range (some n) = if leb n max_int64 then some n else none

abbrev signed : Text → Option ℕ
signed [] = none
signed (c ∷ s) = in_range (digits_value 0 (c ∷ s))

-- strconv.ParseInt(…, 10, 64) where it is positive, and 0 otherwise: an error and a value that is
-- not positive make no difference to the callers
unfoldable pub parse_revision : Text → ℕ
unfolding digits_value
parse_revision [] = 0
parse_revision (c ∷ s) = or_else (signed (if c == b'+' then s else c ∷ s)) 0

abbrev revision_of : Option Text → ℕ
revision_of none = 0
revision_of (some t) = parse_revision t

abbrev revision_behind : Option Text → ℕ
revision_behind none = 0
revision_behind (some rest) = revision_of (before_end rest)

unfoldable pub parse_svn_revision : Text → ℕ
unfolding cut_after before_end parse_revision
parse_svn_revision line = revision_behind (cut_after (codes "Revision ") line)

abbrev slug_of_href : Option (Text × Text) → Option Text
slug_of_href none = none
slug_of_href (some (href, rest)) =
    let slug = trim_suffix href (codes "/") in
    if eq_text slug [] || (eq_text slug (codes "..") || has_prefix slug (codes "!svn"))
    then none
    else some slug

abbrev href_of : Option Text → Option Text
href_of none = none
href_of (some rest) = slug_of_href (cut b'"' rest)

-- The slug of a line, if it is an entry.
unfoldable pub slug_of_line : Text → Option Text
unfolding cut_after cut has_prefix trim_suffix
slug_of_line line = href_of (cut_after (codes "<a href=\"") line)

-- The revision, the entries that `fn` was called for, and whether no call failed.
pub record Scan : Type 0 where
  pub revision : ℕ
  pub entries : List Text
  pub finished : Bool

-- The revision of the first line that has one.
unfoldable pub see_revision : Text → ℕ → ℕ
unfolding parse_svn_revision
see_revision line revision = if revision == 0 then parse_svn_revision line else revision

abbrev visit : Bool → ℕ → Text → Scan → Scan
visit fails revision slug rest =
    if fails
    then record { revision = revision; entries = slug ∷ []; finished = false }
    else record rest { entries = slug ∷ rest.entries }

-- `fails n slug` is whether the call for the entry behind `n` others returns an error.
unfoldable pub parse_svn_html : (ℕ → Text → Bool) → ℕ → ℕ → List Text → Scan
unfolding see_revision slug_of_line
parse_svn_html fails revision count [] = record {
  revision = revision;
  entries = [];
  finished = true;
}
parse_svn_html fails revision count (line ∷ lines) =
    let seen = see_revision line revision in
    let skipped = parse_svn_html fails seen count lines in
    let taken = λ (slug : Text).
      visit (fails count slug) seen slug (parse_svn_html fails seen (count + 1) lines) in
    elim (slug_of_line line) [ none ↦ skipped | some slug ↦ taken slug ]
