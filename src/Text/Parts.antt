-- ===== src/Text/Parts.antt =====
-- Splitting a text.
use wp_packages.Base.{ℕ, ◌≡◌, [], ◌∷◌, ◌++◌, arith, Text, All, ◌≢◌, some}
use wp_packages.Text.{cut}

-- A part of a text that lacks the separator.
abbrev pub Lacks : ℕ → Text → Type 0
Lacks b = All (λ c. c ≢ b)

pub cut-append : (sep : ℕ) (x y : Text) → Lacks sep x → cut sep (x ++ sep ∷ y) ≡ some (x, y)
unfolding cut
cut-append sep [] y h = ground arith
cut-append sep (c ∷ x) y h = ground (arith, cut-append sep x y)
