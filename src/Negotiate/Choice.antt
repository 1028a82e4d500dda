-- ===== src/Negotiate/Choice.antt =====
-- The candidate that is chosen.
use wp_packages.Base.{
  ℕ, ◌≡◌, ◌<◌, ◌≤◌, ◌⊎◌, refl, subst, ap, ◌∙◌, true, false, ◌&&◌, ◌||◌, List, [], ◌∷◌, Text, Option,
  none, some, eq_text, ltb, leb, ◌==◌, arith, Bool-cases, Option-cases, inl, inr, In,
}
use wp_packages.Negotiate.Match.{Accepts, score-Accepts, Accepts-score}
use wp_packages.Negotiate.{
  Entry, Parsed, Score, Best, beats, take_better, choose_candidate, type_of, is_nil, score, parse,
  preferred,
}

-- A score is not above another: a lower quality, or the same and not further to the front.
abbrev NotAbove : Score → Score → Type 0
NotAbove s t = (ltb s.q t.q || (s.q == t.q && leb t.pos s.pos)) ≡ true

abbrev of_best : Best → Score
of_best b = record { q = b.q; pos = b.pos }

NotAbove-trans : (s t u : Score) → NotAbove s t → NotAbove t u → NotAbove s u
NotAbove-trans s t u h k = ground (arith, h, k)

-- The better of a candidate and the best so far is not below either.
take_better-keeps :
    (c : Text) (o : Option Score) (a : Best)
    → (b : Best) × (take_better c o (some a) ≡ some b) × NotAbove (of_best a) (of_best b)
take_better-keeps c none a = (a, refl, ground arith)
take_better-keeps c (some s) a = elim (Bool-cases (beats s (some a))) [
  | inl e ↦ rw e (record { type = c; q = s.q; pos = s.pos }, refl, ground (arith, e))
  | inr e ↦ rw e (a, refl, ground arith)
]

take_better-takes :
    (c : Text) (s : Score) (o : Option Best)
    → (b : Best) × (take_better c (some s) o ≡ some b) × NotAbove s (of_best b)
take_better-takes c s none = (_, refl, ground arith)
take_better-takes c s (some a) = elim (Bool-cases (beats s (some a))) [
  | inl e ↦ rw e (record { type = c; q = s.q; pos = s.pos }, refl, ground arith)
  | inr e ↦ rw e (a, refl, ground (arith, e))
]

module _ (f : Text → Option Score) where
  choose_candidate-keeps :
      (cs : List Text) (a : Best)
      → (b : Best) × (choose_candidate f cs (some a) ≡ some b) × NotAbove (of_best a) (of_best b)
  unfolding choose_candidate
  choose_candidate-keeps [] a = (a, refl, ground arith)
  choose_candidate-keeps (c ∷ cs) a =
      let (b, e, n) = take_better-keeps c (f c) a in
      let (d, g, m) = choose_candidate-keeps cs b in
      (d, ap (choose_candidate f cs) e ∙ g, NotAbove-trans (of_best a) (of_best b) (of_best d) n m)

  choose_candidate-takes :
      (cs : List Text) (o : Option Best) (c : Text) (s : Score)
      → In c cs
      → f c ≡ some s
      → (b : Best) × (choose_candidate f cs o ≡ some b) × NotAbove s (of_best b)
  unfolding choose_candidate
  choose_candidate-takes [] o c s i h = elim i [ ]
  choose_candidate-takes (d ∷ cs) o c s (inl e) h =
      let (b, t, n) = take_better-takes d s o in
      let (w, g, m) = choose_candidate-keeps cs b in
      (
        w,
        ap (λ x. choose_candidate f cs (take_better d x o)) (ap f e ∙ h)
            ∙ (ap (choose_candidate f cs) t ∙ g),
        NotAbove-trans s (of_best b) (of_best w) n m,
      )
  choose_candidate-takes (d ∷ cs) o c s (inr i) h =
      choose_candidate-takes cs (take_better d (f d) o) c s i h

  choose_candidate-none :
      (cs : List Text) → ((c : Text) → In c cs → f c ≡ none) → choose_candidate f cs none ≡ none
  unfolding choose_candidate
  choose_candidate-none [] h = refl
  choose_candidate-none (c ∷ cs) h =
      ap (λ o. choose_candidate f cs (take_better c o none)) (h c (inl refl))
      ∙ choose_candidate-none cs (λ d i. h d (inr i))

  -- The best is the one before, or one of the candidates with its score.
  abbrev IsFrom : List Text → Option Best → Best → Type 0
  IsFrom cs o b = (o ≡ some b) ⊎ (In b.type cs × (f b.type ≡ some (of_best b)))

  choose_candidate-IsFrom :
      (cs : List Text) (o : Option Best) (b : Best)
      → choose_candidate f cs o ≡ some b
      → IsFrom cs o b
  unfolding choose_candidate
  choose_candidate-IsFrom [] o b h = inl h
  choose_candidate-IsFrom (c ∷ cs) o b h =
      elim (choose_candidate-IsFrom cs (take_better c (f c) o) b h) [
        | inr (i, e) ↦ inr (inr i, e)
        | inl e ↦ step (f c) refl e
      ]
    where
      step : (x : Option Score) → f c ≡ x → take_better c x o ≡ some b → IsFrom (c ∷ cs) o b
      step none g e = inl e
      step (some s) g e = elim (Bool-cases (beats s o)) [
        | inr w ↦ inl (rw w at e)
        | inl w ↦
            let same : record { type = c; q = s.q; pos = s.pos } ≡ b = cc (rw w at e) in
            subst (IsFrom (c ∷ cs) o) same (inr (inl refl, g))
      ]

  -- What the loop over the candidates comes to.
  abbrev IsChoice : List Text → Text → Type 0
  IsChoice cs t =
      ((t ≡ []) × ((c : Text) → In c cs → f c ≡ none))
      ⊎ (In t cs
          × (s : Score) × (f t ≡ some s)
          × ((c : Text) (r : Score) → In c cs → f c ≡ some r → NotAbove r s))

  choose_candidate-IsChoice : (cs : List Text) → IsChoice cs (type_of (choose_candidate f cs none))
  choose_candidate-IsChoice cs = elim (Option-cases (choose_candidate f cs none)) [
    | inl e ↦ rw e (
        inl (
          refl,
          λ c i. elim (Option-cases (f c)) [
            | inl n ↦ n
            | inr (s, h) ↦
                let (b, t, m) = choose_candidate-takes cs none c s i h in
                absurd (not_both (choose_candidate f cs none) b e t)
          ],
        ))
    | inr (b, e) ↦ elim (choose_candidate-IsFrom cs none b e) [
      | inl n ↦ absurd (cc)
      | inr (i, h) ↦ rw e (
          inr (
            i,
            of_best b,
            h,
            λ c r j g.
                let (d, t, m) = choose_candidate-takes cs none c r j g in
                let same : d ≡ b = cc in subst (λ (x : Best). NotAbove r (of_best x)) same m,
          ))
    ]
  ]
    where
      not_both : (o : Option Best) (b : Best) → o ≡ none → o ≡ some b → ⊥
      not_both o b h k = cc

-- The type is one of the candidates and accepted, and no accepted candidate has a higher quality, or
-- the same by a range further to the front; or it is empty and no candidate is accepted.
abbrev pub IsPreferred : List Entry → List Text → Text → Type 0
IsPreferred entries produces t =
    ((t ≡ []) × ((c : Text) (q pos : ℕ) → In c produces → ¬ (Accepts c entries q pos)))
    ⊎ (In t produces
        × (q : ℕ) × (pos : ℕ) × Accepts t entries q pos
        × ((c : Text) (r i : ℕ)
            → In c produces
            → Accepts c entries r i
            → (r < q) ⊎ ((r ≡ q) × (pos ≤ i))))

NotAbove-cases : (s t : Score) → NotAbove s t → (s.q < t.q) ⊎ ((s.q ≡ t.q) × (t.pos ≤ s.pos))
NotAbove-cases s t h = elim (Bool-cases (ltb s.q t.q)) [
  | inl e ↦ inl (ground (arith, e))
  | inr e ↦ inr (ground (arith, h, e), ground (arith, h, e))
]

IsChoice-IsPreferred :
    (entries : List Entry) (produces : List Text) (t : Text)
    → IsChoice (score entries) produces t
    → IsPreferred entries produces t
IsChoice-IsPreferred entries produces t (inl (e, nothing)) = inl (
  e,
  λ c q pos i a. let found = Accepts-score c entries q pos a in let missed = nothing c i in cc,
)
IsChoice-IsPreferred entries produces t (inr (i, s, e, best)) = inr (
  i,
  s.q,
  s.pos,
  score-Accepts t entries s e,
  λ c r p j a.
      NotAbove-cases (record { q = r; pos = p }) s
        (best c (record { q = r; pos = p }) j (Accepts-score c entries r p a)),
)

-- Of a header with a media range, the type that is preferred is one of the candidates. The most specific
-- range that matches it, the one in front of those as specific, has a quality above 0, and no candidate
-- has by its own such range a higher quality, or the same quality and a range further to the front.
-- Where no candidate has such a range with a quality above 0, the preferred type is empty.
pub preferred_lem :
    (parse_float : Text → Parsed) (one : ℕ) (header : Text) (produces : List Text)
    → (eq_text header [] || is_nil (parse parse_float one header)) ≡ false
    → IsPreferred
        (parse parse_float one header)
        produces
        (preferred parse_float one header produces)
unfolding preferred
preferred_lem parse_float one header produces h = rw h (
    IsChoice-IsPreferred (parse parse_float one header) produces _
      (choose_candidate-IsChoice (score (parse parse_float one header)) produces))
