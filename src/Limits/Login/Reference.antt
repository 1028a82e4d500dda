-- ===== src/Limits/Login/Reference.antt =====
-- The specification: a table that is never swept, and holds what was recorded for each address.
use wp_packages.Base.{
  ℕ, Bool, true, List, [], ◌∷◌, Text, Map, Option, none, some, eq_text, lookup, insert, delete,
  if◌then◌else◌, ◌≤◌,
}
use wp_packages.Limits.Login.{Attempt, is_unblocked, fail_entry, Call, check, failure, success}

unfoldable pub answer : ℕ → Option Attempt → Bool
answer now none = true
answer now (some a) = is_unblocked now a

unfoldable pub allowed : Text → ℕ → Map Attempt → Bool
unfolding answer
allowed ip now m = if eq_text ip [] then true else answer now (lookup ip m)

unfoldable pub fail : Text → ℕ → Map Attempt → Map Attempt
fail ip now m = if eq_text ip [] then m else insert ip (fail_entry now (lookup ip m)) m

unfoldable pub forget : Text → Map Attempt → Map Attempt
forget ip m = if eq_text ip [] then m else delete ip m

unfoldable pub answers : Map Attempt → List Call → List Bool
answers m [] = []
answers m (check ip now ∷ cs) = allowed ip now m ∷ answers m cs
answers m (failure ip now ∷ cs) = answers (fail ip now m) cs
answers m (success ip now ∷ cs) = answers (forget ip m) cs

abbrev pub time_of : Call → ℕ
time_of (check ip now) = now
time_of (failure ip now) = now
time_of (success ip now) = now

-- Time does not run backwards from `t` on.
abbrev pub Forward : ℕ → List Call → Type 0
Forward t [] = Unit
Forward t (c ∷ cs) = (t ≤ time_of c) × Forward (time_of c) cs
