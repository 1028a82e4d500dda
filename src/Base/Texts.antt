-- ===== src/Base/Texts.antt =====
-- Texts as lists of Unicode code points, with Go's equality and order on strings.
use Prim.Native.Nat.{ℕ}
use Prim.Native.Char.{code}
use Prim.Native.String.{String}
use mathlib.Core.Path.{◌≡◌, refl}
use mathlib.Core.Logic.{◌↔◌, ◌⊎◌, inl, inr}
use mathlib.Core.Bool.{Bool, true, false, ◌&&◌, ◌||◌}
use mathlib.Core.List.{List, [], ◌∷◌}
use native.Mathlib.Omega.{arith}
use wp_packages.Base.Tests.{ltb, ◌==◌}

abbrev pub Text : Type 0
Text = List ℕ

-- The code points of a literal.
abbrev pub codes : String → Text
codes String.[] = []
codes (String.◌∷◌ c s) = code c ∷ codes s

unfoldable pub eq_text : Text → Text → Bool
eq_text [] [] = true
eq_text (a ∷ s) (b ∷ t) = a == b && eq_text s t
eq_text _ _ = false

-- `s < t` on Go strings: UTF-8 keeps the order of code points.
unfoldable pub lt_text : Text → Text → Bool
lt_text s [] = false
lt_text [] (b ∷ t) = true
lt_text (a ∷ s) (b ∷ t) = ltb a b || (a == b && lt_text s t)

eq_text_sound : (s t : Text) → eq_text s t ≡ true → s ≡ t
unfolding eq_text
eq_text_sound [] [] h = refl
eq_text_sound [] (b ∷ t) h = cc
eq_text_sound (a ∷ s) [] h = cc
eq_text_sound (a ∷ s) (b ∷ t) h = ground (arith, eq_text_sound s t)

pub eq_text_refl : (s : Text) → eq_text s s ≡ true
unfolding eq_text
eq_text_refl [] = refl
eq_text_refl (a ∷ s) = ground (arith, eq_text_refl s)

pub eq_text_iff : (s t : Text) → (eq_text s t ≡ true) ↔ (s ≡ t)
eq_text_iff s t = (eq_text_sound s t, λ e. rw e (eq_text_refl t))

pub lt_text_irrefl : (s : Text) → lt_text s s ≡ false
unfolding lt_text
lt_text_irrefl [] = refl
lt_text_irrefl (a ∷ s) = ground (arith, lt_text_irrefl s)

pub lt_text_trans : (s t u : Text) → lt_text s t ≡ true → lt_text t u ≡ true → lt_text s u ≡ true
unfolding lt_text
lt_text_trans s t [] h k = k
lt_text_trans s [] (c ∷ u) h k = cc
lt_text_trans [] (b ∷ t) (c ∷ u) h k = refl
lt_text_trans (a ∷ s) (b ∷ t) (c ∷ u) h k = ground (arith, lt_text_trans s t u)

pub lt_text_total : (s t : Text) → (lt_text s t ≡ true) ⊎ (lt_text t s ≡ true) ⊎ (s ≡ t)
unfolding lt_text
lt_text_total [] [] = inr (inr refl)
lt_text_total [] (b ∷ t) = inl refl
lt_text_total (a ∷ s) [] = inr (inl refl)
lt_text_total (a ∷ s) (b ∷ t) = ground (arith, lt_text_total s t)

pub eq_text_comm : (s t : Text) → eq_text s t ≡ false → eq_text t s ≡ false
eq_text_comm s t h = ground (arith, eq_text_iff s t, eq_text_iff t s)
