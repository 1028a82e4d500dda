-- ===== src/Base/Maps.antt =====
-- A Go map with string keys as an association list. The order of the list stands for the order in
-- which a loop over the map meets the entries.
use mathlib.Core.Path.{◌≡◌, refl}
use mathlib.Core.Bool.{Bool}
use mathlib.Core.Logic.{inl, inr}
use mathlib.Core.Option.{Option, none, some}
use mathlib.Core.List.{List, [], ◌∷◌}
use native.Mathlib.Omega.{arith}
use wp_packages.Base.Tests.{if◌then◌else◌, Bool-cases}
use wp_packages.Base.Texts.{Text, eq_text, eq_text_iff, eq_text_comm}

abbrev pub Map {ℓ} : Type ℓ → Type ℓ
Map V = List (Text × V)

module _ {ℓ} {V : Type ℓ} where
  unfoldable pub lookup : Text → Map V → Option V
  lookup k [] = none
  lookup k ((j, v) ∷ m) = if eq_text j k then some v else lookup k m

  unfoldable pub insert : Text → V → Map V → Map V
  insert k v [] = (k, v) ∷ []
  insert k v ((j, w) ∷ m) = if eq_text j k then (k, v) ∷ m else (j, w) ∷ insert k v m

  unfoldable pub delete : Text → Map V → Map V
  delete k [] = []
  delete k ((j, v) ∷ m) = if eq_text j k then delete k m else (j, v) ∷ delete k m

  pub lookup-insert :
      (k j : Text) (v : V) (m : Map V)
      → lookup j (insert k v m) ≡ (if eq_text k j then some v else lookup j m)
  unfolding lookup insert
  lookup-insert k j v [] = refl
  lookup-insert k j v ((i, w) ∷ m) =
      ground (arith, eq_text_iff k j, eq_text_iff i k, eq_text_iff i j, lookup-insert k j v m)

  pub lookup-delete :
      (k j : Text) (m : Map V) → lookup j (delete k m) ≡ (if eq_text k j then none else lookup j m)
  unfolding lookup delete
  lookup-delete k j [] = ground arith
  lookup-delete k j ((i, w) ∷ m) =
      ground (arith, eq_text_iff k j, eq_text_iff i k, eq_text_iff i j, lookup-delete k j m)

  -- No key stands twice.
  abbrev pub Distinct : Map V → Type ℓ
  Distinct [] = Unit
  Distinct ((k, v) ∷ m) = (lookup k m ≡ none) × Distinct m

  pub insert-Distinct : (k : Text) (v : V) (m : Map V) → Distinct m → Distinct (insert k v m)
  unfolding insert
  insert-Distinct k v [] h = (unfold lookup in refl, tt)
  insert-Distinct k v ((j, w) ∷ m) h = elim (Bool-cases (eq_text j k)) [
    | inl e ↦ rw e (rw ((eq_text_iff j k).0 e) at (h.0), h.1)
    | inr e ↦ rw e (rw (lookup-insert k j v m, eq_text_comm j k e) (h.0), insert-Distinct k v m h.1)
  ]

  pub delete-Distinct : (k : Text) (m : Map V) → Distinct m → Distinct (delete k m)
  unfolding delete
  delete-Distinct k [] h = tt
  delete-Distinct k ((j, w) ∷ m) h = elim (Bool-cases (eq_text j k)) [
    | inl e ↦ rw e (delete-Distinct k m h.1)
    | inr e ↦ rw e (rw (lookup-delete k j m, eq_text_comm j k e) (h.0), delete-Distinct k m h.1)
  ]

  -- The entries whose value passes a test, as a loop that deletes the others leaves them.
  unfoldable pub keep : (V → Bool) → Map V → Map V
  keep p [] = []
  keep p ((k, v) ∷ m) = if p v then (k, v) ∷ keep p m else keep p m

  abbrev pub only_if : (V → Bool) → Option V → Option V
  only_if p none = none
  only_if p (some v) = if p v then some v else none

  lookup_none-keep :
      (p : V → Bool) (k : Text) (m : Map V) → lookup k m ≡ none → lookup k (keep p m) ≡ none
  unfolding lookup keep
  lookup_none-keep p k [] h = refl
  lookup_none-keep p k ((j, v) ∷ m) h = ground (arith, lookup_none-keep p k m)

  pub lookup-keep :
      (p : V → Bool) (k : Text) (m : Map V)
      → Distinct m
      → lookup k (keep p m) ≡ only_if p (lookup k m)
  unfolding lookup keep
  lookup-keep p k [] h = refl
  lookup-keep p k ((j, v) ∷ m) h = elim (Bool-cases (eq_text j k)) [
    | inl e ↦
        let gone : lookup k (keep p m) ≡ none =
          lookup_none-keep p k m (rw ((eq_text_iff j k).0 e) at (h.0)) in
        elim (Bool-cases (p v)) [ inl q ↦ rw (e, q, e) | inr q ↦ rw (e, q) gone ]
    | inr e ↦ elim (Bool-cases (p v)) [
      | inl q ↦ rw (e, q, e) (lookup-keep p k m h.1)
      | inr q ↦ rw (e, q) (lookup-keep p k m h.1)
    ]
  ]

  pub keep-Distinct : (p : V → Bool) (m : Map V) → Distinct m → Distinct (keep p m)
  unfolding keep
  keep-Distinct p [] h = tt
  keep-Distinct p ((k, v) ∷ m) h = elim (Bool-cases (p v)) [
    | inl e ↦ rw e (lookup_none-keep p k m h.0, keep-Distinct p m h.1)
    | inr e ↦ rw e (keep-Distinct p m h.1)
  ]
