-- ===== src/Version/Grammar.antt =====
-- What the version pattern accepts: no white space, and a digit in front.
use wp_packages.Base.{
  ℕ, ◌≡◌, refl, Bool, true, false, [], ◌∷◌, ◌++◌, Text, arith, eq_text, leb, ◌&&◌, ◌==◌, all,
  and_split, List,
}
use wp_packages.Text.{is_space, is_digit, fold, equal_fold}
use wp_packages.Text.Trim.{NoSpace}
use wp_packages.Regex.{Regex, set, char, seq, word, one_of, matches}
use wp_packages.Regex.Lang.{Lang, one, both, Classes, Lang-All}
use wp_packages.Regex.Sound.{matches_iff}
use wp_packages.Version.{
  valid_version, is_trunk, digits, loose_words, loose_suffix, strict_words, strict_suffix,
}

abbrev Visible : ℕ → Type 0
Visible c = is_space c ≡ false

digit-Visible : (c : ℕ) → is_digit c ≡ true → Visible c
unfolding is_digit is_space
digit-Visible c h = ground arith

letter-Visible : (b c : ℕ) → (leb b'a' b && leb b b'z') ≡ true → (fold c == b) ≡ true → Visible c
unfolding fold is_space
letter-Visible b c l h = ground arith

abbrev is_letter : ℕ → Bool
is_letter b = leb b'a' b && leb b b'z'

word-Visible : (w : Text) → all is_letter w ≡ true → Classes Visible (word w)
word-Visible [] h = tt
word-Visible (b ∷ w) h =
    let (l, ls) = and_split (is_letter b) (all is_letter w) h in
    (λ c e. letter-Visible b c l e, word-Visible w ls)

words-Visible : (ws : List Text) → all (all is_letter) ws ≡ true → Classes Visible (one_of ws)
words-Visible [] h = tt
words-Visible (w ∷ ws) h =
    let (l, ls) = and_split (all is_letter w) (all (all is_letter) ws) h in
    (word-Visible w l, words-Visible ws ls)

mark-Visible : (b c : ℕ) → is_space b ≡ false → (c == b) ≡ true → Visible c
mark-Visible b c h e = ground arith

dot-Visible : (c : ℕ) → (c == b'.') ≡ true → Visible c
unfolding is_space
dot-Visible c e = mark-Visible b'.' c refl e

dash-Visible : (c : ℕ) → (c == b'-') ≡ true → Visible c
unfolding is_space
dash-Visible c e = mark-Visible b'-' c refl e

Classes-digits : Classes Visible digits
Classes-digits = (digit-Visible, digit-Visible)

dotted : Classes Visible (seq (char b'.') digits)
dotted = (dot-Visible, Classes-digits)

Classes-loose : Classes Visible loose_suffix
Classes-loose = (words-Visible loose_words refl, (tt, ((tt, dot-Visible), Classes-digits)))

Classes-strict : Classes Visible strict_suffix
Classes-strict = (words-Visible strict_words refl, (tt, dotted))

Classes-valid : Classes Visible valid_version
unfolding valid_version
Classes-valid = (
  Classes-digits,
  (
    (tt, (dotted, (tt, (dotted, (tt, (dotted, tt)))))),
    (tt, (dash-Visible, (Classes-loose, Classes-strict))),
  ),
)

-- A text that the pattern accepts holds no white space.
pub valid_visible : (s : Text) → matches valid_version s ≡ true → NoSpace s
valid_visible s h = Lang-All Visible ((matches_iff valid_version s).0 h) Classes-valid

abbrev Headed : Text → Type 0
Headed s = (c : ℕ) × (t : Text) × (s ≡ c ∷ t) × (is_digit c ≡ true)

set_head : {p : ℕ → Bool} {s : Text} → Lang (set p) s → (c : ℕ) × (s ≡ c ∷ []) × (p c ≡ true)
set_head (one {c} h) = (c, refl, h)

seq_head : {r q : Regex} {u : Text} → Lang (seq r q) u → (s t : Text) × Lang r s × (u ≡ s ++ t)
seq_head (both {s} {t} l k e) = (s, t, l, e)

-- It begins with a digit.
pub valid_first : (s : Text) → matches valid_version s ≡ true → Headed s
unfolding valid_version
valid_first s h =
    let (ds, rest, l, e) = seq_head ((matches_iff valid_version s).0 h) in
    let (d, more, k, e') = seq_head l in
    let (c, e'', digit) = set_head k in (c, more ++ rest, cc, digit)

-- So it is not the trunk.
pub digit_not_trunk : (c : ℕ) (t : Text) → is_digit c ≡ true → is_trunk (c ∷ t) ≡ false
unfolding is_digit is_trunk equal_fold eq_text fold
digit_not_trunk c t h = ground arith
