-- ===== src/Regex/Lang.antt =====
-- The language of a regular expression, as a relation.
use wp_packages.Base.{ℕ, ◌≡◌, Bool, true, [], ◌∷◌, ◌++◌, Text, All, All-append}
use wp_packages.Regex.{Regex, never, eps, set, seq, alt, star}

pub data Lang : Regex → Text → Type 0 where
  here : Lang eps []
  one : {p : ℕ → Bool} {c : ℕ} → p c ≡ true → Lang (set p) (c ∷ [])
  both : {r q : Regex} {s t u : Text} → Lang r s → Lang q t → u ≡ s ++ t → Lang (seq r q) u
  first : {r q : Regex} {s : Text} → Lang r s → Lang (alt r q) s
  second : {r q : Regex} {s : Text} → Lang q s → Lang (alt r q) s
  none : {r : Regex} → Lang (star r) []
  more : {r : Regex} {s t u : Text} → Lang r s → Lang (star r) t → u ≡ s ++ t → Lang (star r) u

-- Every class of the pattern accepts only code points with the property `P`.
abbrev pub Classes : (ℕ → Type 0) → Regex → Type 0
Classes P never = Unit
Classes P eps = Unit
Classes P (set p) = (c : ℕ) → p c ≡ true → P c
Classes P (seq r q) = Classes P r × Classes P q
Classes P (alt r q) = Classes P r × Classes P q
Classes P (star r) = Classes P r

-- What the classes accept is all that a word of the language holds.
pub Lang-All : (P : ℕ → Type 0) {r : Regex} {s : Text} → Lang r s → Classes P r → All P s
Lang-All P here h = tt
Lang-All P (one {c} e) h = (h c e, tt)
Lang-All P (both {s} {t} l k e) h = rw e (All-append P s t (Lang-All P l h.0) (Lang-All P k h.1))
Lang-All P (first l) h = Lang-All P l h.0
Lang-All P (second l) h = Lang-All P l h.1
Lang-All P none h = tt
Lang-All P (more {s} {t} l k e) h = rw e (All-append P s t (Lang-All P l h) (Lang-All P k h))
