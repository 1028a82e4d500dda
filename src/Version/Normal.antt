-- ===== src/Version/Normal.antt =====
-- The normal forms of version strings.
use wp_packages.Base.{
  ℕ, ◌≡◌, refl, true, false, [], ◌∷◌, Text, arith, eq_text, eq_text_iff, Bool-cases, ◌⊎◌, inl, inr,
}
use wp_packages.Text.{trim_space, trim_prefix, is_digit, equal_fold}
use wp_packages.Text.Trim.{trim_space_idem, trim_space-NoSpace}
use wp_packages.Regex.{matches}
use wp_packages.Version.{valid_version, is_trunk, is_valid, normalize, strip, dev_trunk}
use wp_packages.Version.Grammar.{valid_visible, valid_first, digit_not_trunk}

abbrev pub IsPattern : Text → Type 0
IsPattern v = matches valid_version v ≡ true

eq_nil-cons : (c : ℕ) (t : Text) → eq_text (c ∷ t) [] ≡ false
unfolding eq_text
eq_nil-cons c t = refl

-- A trimmed text that is valid and not the trunk matches the pattern.
valid_trimmed : (v : Text) → trim_space v ≡ v → is_trunk v ≡ false → is_valid v ≡ true → IsPattern v
unfolding is_valid
valid_trimmed v t k h = ground (arith, eq_text_iff v [])

-- Every normal form is empty, the trunk, or a text of the pattern.
pub normalize-cases :
    (v : Text) → (normalize v ≡ []) ⊎ (normalize v ≡ dev_trunk) ⊎ IsPattern (normalize v)
unfolding normalize
normalize-cases v = elim (Bool-cases (eq_text (trim_space v) [])) [
  | inl e ↦ inl (rw e)
  | inr e ↦ elim (Bool-cases (is_trunk (strip (trim_space v)))) [
    | inl k ↦ inr (inl (rw (e, k)))
    | inr k ↦ elim (Bool-cases (is_valid (strip (trim_space v)))) [
      | inl a ↦ inr (inr (rw (e, k, a) (valid_trimmed _ (trim_space_idem _) k a)))
      | inr a ↦ inl (rw (e, k, a))
    ]
  ]
]

no_prefix :
    (b c : ℕ) (t : Text)
    → is_digit c ≡ true
    → is_digit b ≡ false
    → trim_prefix (c ∷ t) (b ∷ []) ≡ c ∷ t
unfolding trim_prefix is_digit
no_prefix b c t d e = ground arith

strip_digit :
    (c : ℕ) (t : Text) → is_digit c ≡ true → trim_space (c ∷ t) ≡ c ∷ t → strip (c ∷ t) ≡ c ∷ t
unfolding is_digit
strip_digit c t d h = rw (no_prefix b'v' c t d refl, no_prefix b'V' c t d refl) h

accept_digit :
    (c : ℕ) (t : Text)
    → is_digit c ≡ true
    → trim_space (c ∷ t) ≡ c ∷ t
    → IsPattern (c ∷ t)
    → normalize (c ∷ t) ≡ c ∷ t
unfolding normalize is_valid
accept_digit c t d h k = rw (
  h,
  eq_nil-cons c t,
  strip_digit c t d h,
  digit_not_trunk c t d,
  h,
  eq_nil-cons c t,
  digit_not_trunk c t d,
  k,
)

-- A text of the pattern is its own normal form.
pub normalize-pattern : (v : Text) → IsPattern v → normalize v ≡ v
normalize-pattern v h =
    let (c, t, e, d) = valid_first v h in
    let trimmed = trim_space-NoSpace v (valid_visible v h) in
    rw e (accept_digit c t d (rw e at trimmed) (rw e at h))

normalize_trunk : normalize dev_trunk ≡ dev_trunk
unfolding normalize trim_space eq_text trim_prefix is_trunk equal_fold
normalize_trunk = refl

normalize_nil : normalize [] ≡ []
unfolding normalize trim_space eq_text
normalize_nil = refl

-- Normalizing twice is normalizing once, for every text.
pub normalize_idem : (v : Text) → normalize (normalize v) ≡ normalize v
normalize_idem v = elim (normalize-cases v) [
  | inl e ↦ rw (e, normalize_nil)
  | inr r ↦ elim r [ inl e ↦ rw (e, normalize_trunk) | inr p ↦ normalize-pattern (normalize v) p ]
]
