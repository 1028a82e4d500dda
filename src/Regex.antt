-- ===== src/Regex.antt =====
-- Regular expressions as Go's `regexp` package reads them, matched by derivatives. The pattern is
-- anchored at both ends, and `set` holds the code points that one class accepts.
pub mod Lang
pub mod Sound
use wp_packages.Base.{
  ℕ, zero, suc, Bool, true, false, ◌&&◌, ◌||◌, List, [], ◌∷◌, Text, ◌==◌, if◌then◌else◌,
}
use wp_packages.Text.{fold}

pub data Regex : Type 0 where
  never eps : Regex
  set : (ℕ → Bool) → Regex
  seq alt : Regex → Regex → Regex
  star : Regex → Regex

unfoldable pub nullable : Regex → Bool
nullable never = false
nullable eps = true
nullable (set p) = false
nullable (seq r q) = nullable r && nullable q
nullable (alt r q) = nullable r || nullable q
nullable (star r) = true

-- What is left to match behind the code point `c`.
unfoldable pub derive : ℕ → Regex → Regex
unfolding nullable
derive c never = never
derive c eps = never
derive c (set p) = if p c then eps else never
derive c (seq r q) =
    if nullable r then alt (seq (derive c r) q) (derive c q) else seq (derive c r) q
derive c (alt r q) = alt (derive c r) (derive c q)
derive c (star r) = seq (derive c r) (star r)

-- MatchString of an anchored pattern
unfoldable pub matches : Regex → Text → Bool
unfolding nullable derive
matches r [] = nullable r
matches r (c ∷ s) = matches (derive c r) s

abbrev pub char : ℕ → Regex
char b = set (λ c. c == b)

abbrev pub plus : Regex → Regex
plus r = seq r (star r)

abbrev pub opt : Regex → Regex
opt r = alt eps r

-- r{0,n}
abbrev pub up_to : ℕ → Regex → Regex
up_to zero r = eps
up_to (suc n) r = opt (seq r (up_to n r))

-- A word under the flag (?i)
abbrev pub word : Text → Regex
word [] = eps
word (b ∷ s) = seq (set (λ c. fold c == b)) (word s)

abbrev pub one_of : List Text → Regex
one_of [] = never
one_of (w ∷ ws) = alt (word w) (one_of ws)
