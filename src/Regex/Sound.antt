-- ===== src/Regex/Sound.antt =====
-- The matcher and the language of a pattern.
use wp_packages.Base.{
  ℕ, ◌≡◌, refl, sym, ap, ◌∙◌, Bool, true, [], ◌∷◌, ◌++◌, Text, arith, ◌↔◌, ◌⊎◌, inl, inr,
  Bool-cases, and_split,
}
use wp_packages.Regex.{Regex, never, eps, set, seq, alt, star, nullable, derive, matches}
use wp_packages.Regex.Lang.{Lang, here, one, both, first, second, none, more}

nullable_sound : (r : Regex) → nullable r ≡ true → Lang r []
unfolding nullable
nullable_sound never h = cc
nullable_sound eps h = here
nullable_sound (set p) h = cc
nullable_sound (seq r q) h =
    let (a, b) = and_split (nullable r) (nullable q) h in
    both (nullable_sound r a) (nullable_sound q b) refl
nullable_sound (alt r q) h = elim (Bool-cases (nullable r)) [
  | inl e ↦ first (nullable_sound r e)
  | inr e ↦ second (nullable_sound q (ground arith))
]
nullable_sound (star r) h = none

never_inv : {s : Text} → Lang never s → ⊥
never_inv l = elim l [ ]

eps_inv : {r : Regex} {s : Text} → Lang r s → r ≡ eps → s ≡ []
eps_inv here e = refl
eps_inv (one h) e = cc
eps_inv (both l k h) e = cc
eps_inv (first l) e = cc
eps_inv (second l) e = cc
eps_inv none e = refl
eps_inv (more l k h) e = cc

seq_inv :
    {r q : Regex} {u : Text} → Lang (seq r q) u → (s t : Text) × Lang r s × Lang q t × (u ≡ s ++ t)
seq_inv (both {s} {t} l k e) = (s, t, l, k, e)

alt_inv : {r q : Regex} {s : Text} → Lang (alt r q) s → Lang r s ⊎ Lang q s
alt_inv (first l) = inl l
alt_inv (second l) = inr l

set_step : (p : ℕ → Bool) (c : ℕ) (s : Text) → Lang (derive c (set p)) s → Lang (set p) (c ∷ s)
unfolding derive
set_step p c s l = elim (Bool-cases (p c)) [
  | inl e ↦ let nil = eps_inv (rw (e, derive) at l) refl in rw nil (one e)
  | inr e ↦ absurd (never_inv (rw (e, derive) at l))
]

seq_front :
    {r d q : Regex} (c : ℕ) {s : Text}
    → ((x : Text) → Lang d x → Lang r (c ∷ x))
    → Lang (seq d q) s
    → Lang (seq r q) (c ∷ s)
seq_front c step l = let (x, t, a, b, e) = seq_inv l in both (step x a) b (ap (λ y. c ∷ y) e)

derive_sound : (r : Regex) (c : ℕ) (s : Text) → Lang (derive c r) s → Lang r (c ∷ s)
unfolding derive
derive_sound never c s l = absurd (never_inv l)
derive_sound eps c s l = absurd (never_inv l)
derive_sound (set p) c s l = set_step p c s l
derive_sound (seq r q) c s l = seq_step (derive_sound r c) (derive_sound q c)
  where
    seq_step :
        ((x : Text) → Lang (derive c r) x → Lang r (c ∷ x))
        → ((x : Text) → Lang (derive c q) x → Lang q (c ∷ x))
        → Lang (seq r q) (c ∷ s)
    seq_step f g = elim (Bool-cases (nullable r)) [
      | inl e ↦ elim (alt_inv (rw e at l)) [
        | inl k ↦ seq_front c f k
        | inr k ↦ both (nullable_sound r e) (g s k) refl
      ]
      | inr e ↦ seq_front c f (rw e at l)
    ]
derive_sound (alt r q) c s (first l) = first (derive_sound r c s l)
derive_sound (alt r q) c s (second l) = second (derive_sound q c s l)
derive_sound (star r) c s l = star_step (seq_inv l) (derive_sound r c)
  where
    star_step :
        (x t : Text) × Lang (derive c r) x × Lang (star r) t × (s ≡ x ++ t)
        → ((x : Text) → Lang (derive c r) x → Lang r (c ∷ x))
        → Lang (star r) (c ∷ s)
    star_step (x, t, a, b, e) f = more (f x a) b (ap (λ y. c ∷ y) e)

nullable_complete : {r : Regex} {s : Text} → Lang r s → s ≡ [] → nullable r ≡ true
unfolding nullable
nullable_complete here e = refl
nullable_complete (one h) e = cc
nullable_complete (both {s = []} l k h) e = rw (nullable_complete l refl) (nullable_complete k (cc))
nullable_complete (both {s = c ∷ s} l k h) e = cc
nullable_complete (first l) e = rw (nullable_complete l e)
nullable_complete (second l) e = ground (arith, nullable_complete l e)
nullable_complete none e = refl
nullable_complete (more l k h) e = refl

module _ {r q : Regex} (c : ℕ) (s : Text) where
  derive_both :
      (x t : Text)
      → c ∷ s ≡ x ++ t
      → Lang r x
      → Lang q t
      → ((y : Text) → x ≡ c ∷ y → Lang (derive c r) y)
      → ((y : Text) → t ≡ c ∷ y → Lang (derive c q) y)
      → Lang (derive c (seq r q)) s
  unfolding derive
  derive_both [] t e l k f g = rw (nullable_complete l refl) (second (g s (sym e)))
  derive_both (a ∷ x) t e l k f g =
      let whole : Lang (seq (derive c r) q) s = both (f x (cc)) k (cc) in
      elim (Bool-cases (nullable r)) [ inl n ↦ rw n (first whole) | inr n ↦ rw n whole ]

module _ {r : Regex} (c : ℕ) (s : Text) where
  derive_more :
      (x t : Text)
      → c ∷ s ≡ x ++ t
      → Lang (star r) t
      → ((y : Text) → x ≡ c ∷ y → Lang (derive c r) y)
      → ((y : Text) → t ≡ c ∷ y → Lang (derive c (star r)) y)
      → Lang (derive c (star r)) s
  unfolding derive
  derive_more [] t e k f g = g s (sym e)
  derive_more (a ∷ x) t e k f g = both (f x (cc)) k (cc)

derive_complete :
    {r : Regex} {u : Text} → Lang r u → (c : ℕ) (s : Text) → u ≡ c ∷ s → Lang (derive c r) s
unfolding derive
derive_complete here c s e = cc
derive_complete (one {p} {c = a} h) c s e =
    let same : a ≡ c = cc in let nil : s ≡ [] = cc in rw (← same, h, nil) here
derive_complete (both {s = x} {t} l k h) c s e =
    derive_both c s x t (sym e ∙ h) l k (derive_complete l c) (derive_complete k c)
derive_complete (first l) c s e = first (derive_complete l c s e)
derive_complete (second l) c s e = second (derive_complete l c s e)
derive_complete none c s e = cc
derive_complete (more {s = x} {t} l k h) c s e =
    derive_more c s x t (sym e ∙ h) k (derive_complete l c) (derive_complete k c)

matches_sound : (r : Regex) (s : Text) → matches r s ≡ true → Lang r s
unfolding matches
matches_sound r [] h = nullable_sound r h
matches_sound r (c ∷ s) h = derive_sound r c s (matches_sound (derive c r) s h)

matches_complete : (r : Regex) (s : Text) → Lang r s → matches r s ≡ true
unfolding matches
matches_complete r [] l = nullable_complete l refl
matches_complete r (c ∷ s) l = matches_complete (derive c r) s (derive_complete l c s refl)

-- The matcher accepts exactly the texts of the pattern's language.
pub matches_iff : (r : Regex) (s : Text) → (matches r s ≡ true) ↔ Lang r s
matches_iff r s = (matches_sound r s, matches_complete r s)
