-- ===== src/Text/Trim.antt =====
-- Trimming: white space, prefixes and suffixes.
use wp_packages.Base.{
  ℕ, ◌≡◌, refl, true, false, [], ◌∷◌, ◌++◌, arith, Text, All, eq_text, eq_text_iff, eq_text_refl,
  Bool-cases, inl, inr, length, length-append, ap,
}
use wp_packages.Text.{
  is_space, trim_left, keep_space, trim_right, trim_space, has_suffix, trim_suffix,
}

abbrev pub NoSpace : Text → Type 0
NoSpace = All (λ c. is_space c ≡ false)

keep_space-cons : (c : ℕ) (s : Text) → is_space c ≡ false → keep_space c s ≡ c ∷ s
keep_space-cons c [] h = rw h
keep_space-cons c (d ∷ s) h = refl

trim_left-trim_right : (s : Text) → trim_left (trim_right (trim_left s)) ≡ trim_right (trim_left s)
unfolding trim_left trim_right
trim_left-trim_right [] = refl
trim_left-trim_right (c ∷ s) = elim (Bool-cases (is_space c)) [
  | inl e ↦ rw e (trim_left-trim_right s)
  | inr e ↦ rw (e, keep_space-cons c (trim_right s) e, e)
]

trim_right-keep_space :
    (c : ℕ) (s : Text) → trim_right s ≡ s → trim_right (keep_space c s) ≡ keep_space c s
unfolding trim_right
trim_right-keep_space c [] h = ground arith
trim_right-keep_space c (d ∷ s) h = rw h

trim_right_idem : (s : Text) → trim_right (trim_right s) ≡ trim_right s
unfolding trim_right
trim_right_idem [] = refl
trim_right_idem (c ∷ s) = trim_right-keep_space c (trim_right s) (trim_right_idem s)

-- Trimming twice is trimming once.
pub trim_space_idem : (s : Text) → trim_space (trim_space s) ≡ trim_space s
unfolding trim_space
trim_space_idem s = rw (trim_left-trim_right s, trim_right_idem (trim_left s))

trim_left-NoSpace : (s : Text) → NoSpace s → trim_left s ≡ s
unfolding trim_left
trim_left-NoSpace [] h = refl
trim_left-NoSpace (c ∷ s) h = rw (h.0)

trim_right-NoSpace : (s : Text) → NoSpace s → trim_right s ≡ s
unfolding trim_right
trim_right-NoSpace [] h = refl
trim_right-NoSpace (c ∷ s) h = rw (trim_right-NoSpace s h.1) (keep_space-cons c s h.0)

pub trim_space-NoSpace : (s : Text) → NoSpace s → trim_space s ≡ s
trim_space-NoSpace s h = unfold trim_space in rw (trim_left-NoSpace s h) (trim_right-NoSpace s h)

longer-ne : (c : ℕ) (x p : Text) → eq_text (c ∷ (x ++ p)) p ≡ false
longer-ne c x p = elim (Bool-cases (eq_text (c ∷ (x ++ p)) p)) [
  | inl e ↦ absurd (omega (arith, ap length ((eq_text_iff _ _).0 e), length-append x p))
  | inr e ↦ e
]

-- A suffix that is there is found and cut off.
pub trim_suffix-append : (x p : Text) → trim_suffix (x ++ p) p ≡ x
unfolding trim_suffix
trim_suffix-append [] [] = refl
trim_suffix-append [] (c ∷ p) = rw (eq_text_refl (c ∷ p))
trim_suffix-append (c ∷ x) p = rw (longer-ne c x p, trim_suffix-append x p)

pub has_suffix-append : (x p : Text) → has_suffix (x ++ p) p ≡ true
unfolding has_suffix
has_suffix-append [] [] = eq_text_refl []
has_suffix-append [] (c ∷ p) = rw (eq_text_refl (c ∷ p))
has_suffix-append (c ∷ x) p = rw (longer-ne c x p) (has_suffix-append x p)

pub trim_suffix_kept : (s p : Text) → has_suffix s p ≡ false → trim_suffix s p ≡ s
unfolding has_suffix trim_suffix
trim_suffix_kept [] p h = refl
trim_suffix_kept (c ∷ s) p h = elim (Bool-cases (eq_text (c ∷ s) p)) [
  | inl e ↦ let k = rw e at h in cc
  | inr e ↦ rw e (ap (λ t. c ∷ t) (trim_suffix_kept s p (rw e at h)))
]

-- A suffix that is found is what stands behind the trimmed text.
pub trim_suffix_found : (s p : Text) → has_suffix s p ≡ true → s ≡ trim_suffix s p ++ p
unfolding has_suffix trim_suffix
trim_suffix_found [] p h = (eq_text_iff [] p).0 h
trim_suffix_found (c ∷ s) p h = elim (Bool-cases (eq_text (c ∷ s) p)) [
  | inl e ↦ rw e ((eq_text_iff (c ∷ s) p).0 e)
  | inr e ↦ rw e (ap (λ t. c ∷ t) (trim_suffix_found s p (rw e at h)))
]
