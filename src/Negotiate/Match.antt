-- ===== src/Negotiate/Match.antt =====
-- The range of an Accept header that decides on a candidate.
use wp_packages.Base.{
  ℕ, suc, ◌≡◌, ◌⊎◌, ◌<◌, ◌≤◌, refl, sym, ap, ◌∙◌, subst, true, false, ◌&&◌, ◌||◌, List, [], ◌∷◌,
  Text, Option, none, some, ltb, leb, ◌==◌, arith, Bool-cases, inl, inr,
}
use wp_packages.Negotiate.{
  Entry, Found, Score, matches_candidate, is_better_match, find_match, score_of, score,
}

-- The entry at position `i`, where the first one is at position `k`.
abbrev AtFrom : ℕ → ℕ → Entry → List Entry → Type 0
AtFrom k i e [] = ⊥
AtFrom k i e (x ∷ xs) = ((x ≡ e) × (i ≡ k)) ⊎ AtFrom (suc k) i e xs

abbrev pub At : ℕ → Entry → List Entry → Type 0
At = AtFrom 0

-- A range found is at least as specific, and further to the front where it is as specific.
Dominates : Found → ℕ → ℕ → Type 0
Dominates f specificity pos =
    (ltb specificity f.specificity || (specificity == f.specificity && leb f.pos pos)) ≡ true

Dominates-trans :
    (f g : Found) (specificity pos : ℕ)
    → Dominates f g.specificity g.pos
    → Dominates g specificity pos
    → Dominates f specificity pos
unfolding Dominates
Dominates-trans f g specificity pos h k = ground (arith, h, k)

module _ (c : Text) where
  abbrev found_at : ℕ → Entry → Found
  found_at k e = record { q = e.q; specificity = e.specificity; pos = k }

  -- What a search from position `k`, with a range found before it, comes to.
  abbrev Searched : ℕ → List Entry → Option Found → Option Found → Type 0
  Searched k es found none =
      (found ≡ none) × ((i : ℕ) (e : Entry) → AtFrom k i e es → matches_candidate e c ≡ false)
  Searched k es found (some f) =
      ((found ≡ some f)
        ⊎ ((e : Entry) × AtFrom k f.pos e es
            × (matches_candidate e c ≡ true)
            × (f ≡ found_at f.pos e)))
      × ((g : Found) → found ≡ some g → Dominates f g.specificity g.pos)
      × ((i : ℕ) (e : Entry)
          → AtFrom k i e es
          → matches_candidate e c ≡ true
          → Dominates f e.specificity i)

  better-Dominates :
      (k : ℕ) (e : Entry) (g : Found)
      → (matches_candidate e c && is_better_match e k (some g)) ≡ true
      → Dominates (found_at k e) g.specificity g.pos
  unfolding Dominates
  better-Dominates k e g h = ground (arith, h)

  -- A range that matches and does not take the place.
  worse-Dominates :
      (k : ℕ) (e : Entry) (found : Option Found) (f : Found)
      → (matches_candidate e c && is_better_match e k found) ≡ false
      → matches_candidate e c ≡ true
      → ((g : Found) → found ≡ some g → Dominates f g.specificity g.pos)
      → Dominates f e.specificity k
  unfolding Dominates
  worse-Dominates k e none f h m over =
      let wrong : true ≡ false = ground (arith, h, m) in absurd (cc)
  worse-Dominates k e (some g) f h m over = ground (arith, h, m, over g refl)

  taken :
      (k : ℕ) (e : Entry) (es : List Entry) (found r : Option Found)
      → (matches_candidate e c && is_better_match e k found) ≡ true
      → Searched (suc k) es (some (found_at k e)) r
      → Searched k (e ∷ es) found r
  taken k e es found none h s = absurd (cc)
  taken k e es found (some f) h (from, over, top) = (
    elim from [
      | inl p ↦
          let same : found_at k e ≡ f = cc in
          let at : k ≡ f.pos = ap (λ (x : Found). x.pos) same in
          inr (e, inl (refl, sym at), ground (arith, h), sym same ∙ ap (λ i. found_at i e) at)
      | inr (x, a, m, w) ↦ inr (x, inr a, m, w)
    ],
    λ g q.
        let better = rw q at h in
        Dominates-trans f (found_at k e) g.specificity g.pos (over (found_at k e) refl)
          (better-Dominates k e g better),
    λ i x w m. elim w [
      | inl (same, at) ↦ rw (← same, at) (over (found_at k e) refl)
      | inr a ↦ top i x a m
    ],
  )

  passed :
      (k : ℕ) (e : Entry) (es : List Entry) (found r : Option Found)
      → (matches_candidate e c && is_better_match e k found) ≡ false
      → Searched (suc k) es found r
      → Searched k (e ∷ es) found r
  passed k e es found none h s = (
    s.0,
    λ i x w. elim w [
      | inl (same, at) ↦
          let here = rw s.0 at h in
          let missed : matches_candidate e c ≡ false = ground (arith, here) in rw (← same) missed
      | inr a ↦ s.1 i x a
    ],
  )
  passed k e es found (some f) h (from, over, top) = (
    elim from [ inl p ↦ inl p | inr (x, a, m, w) ↦ inr (x, inr a, m, w) ],
    over,
    λ i x w m. elim w [
      | inl (same, at) ↦
          let here : matches_candidate e c ≡ true = ap (λ y. matches_candidate y c) same ∙ m in
          rw (← same, at) (worse-Dominates k e found f h here over)
      | inr a ↦ top i x a m
    ],
  )

  Dominates-refl : (f : Found) → Dominates f f.specificity f.pos
  unfolding Dominates
  Dominates-refl f = ground arith

  none_left : (k : ℕ) (o : Option Found) → Searched k [] o o
  none_left k none = (refl, λ i e a. absurd a)
  none_left k (some f) = (
    inl refl,
    λ g q.
        let same : f ≡ g = cc in
        subst (λ (x : Found). Dominates f x.specificity x.pos) same (Dominates-refl f),
    λ i e a m. absurd a,
  )

  find_match-Searched :
      (es : List Entry) (k : ℕ) (found : Option Found)
      → Searched k es found (find_match c k es found)
  unfolding find_match
  find_match-Searched [] k found = none_left k found
  find_match-Searched (e ∷ es) k found =
      elim (Bool-cases (matches_candidate e c && is_better_match e k found)) [
        | inl h ↦
            rw h (taken k e es found _ h (find_match-Searched es (suc k) (some (found_at k e))))
        | inr h ↦ rw h (passed k e es found _ h (find_match-Searched es (suc k) found))
      ]

  AtFrom-after : (es : List Entry) (k i : ℕ) (e : Entry) → AtFrom k i e es → k ≤ i
  AtFrom-after [] k i e a = absurd a
  AtFrom-after (x ∷ es) k i e (inl (same, at)) = omega (arith, at)
  AtFrom-after (x ∷ es) k i e (inr a) = omega (arith, AtFrom-after es (suc k) i e a)

  -- A position has one entry.
  AtFrom-unique :
      (es : List Entry) (k i : ℕ) (e x : Entry) → AtFrom k i e es → AtFrom k i x es → e ≡ x
  AtFrom-unique [] k i e x a b = absurd a
  AtFrom-unique (y ∷ es) k i e x (inl (p, at)) (inl (q, at')) = sym p ∙ q
  AtFrom-unique (y ∷ es) k i e x (inl (p, at)) (inr b) =
      absurd (omega (arith, at, AtFrom-after es (suc k) i x b))
  AtFrom-unique (y ∷ es) k i e x (inr a) (inl (q, at)) =
      absurd (omega (arith, at, AtFrom-after es (suc k) i e a))
  AtFrom-unique (y ∷ es) k i e x (inr a) (inr b) = AtFrom-unique es (suc k) i e x a b

  -- The range at the position matches the candidate and has the quality, which is above 0; every range
  -- that matches is less specific, or as specific and not further to the front.
  abbrev pub Accepts : List Entry → ℕ → ℕ → Type 0
  Accepts entries q pos =
      (e : Entry) × At pos e entries
      × (matches_candidate e c ≡ true)
      × (e.q ≡ some q)
      × (0 < q)
      × ((i : ℕ) (x : Entry)
          → At i x entries
          → matches_candidate x c ≡ true
          → (x.specificity < e.specificity) ⊎ ((x.specificity ≡ e.specificity) × (pos ≤ i)))

  Dominates-cases :
      (f : Found) (specificity pos : ℕ)
      → Dominates f specificity pos
      → (specificity < f.specificity) ⊎ ((specificity ≡ f.specificity) × (f.pos ≤ pos))
  unfolding Dominates
  Dominates-cases f specificity pos h = elim (Bool-cases (ltb specificity f.specificity)) [
    | inl e ↦ inl (ground (arith, e))
    | inr e ↦ inr (ground (arith, h, e), ground (arith, h, e))
  ]

  scored :
      (f : Found) (o : Option ℕ) (s : Score)
      → f.q ≡ o
      → score_of (some f) ≡ some s
      → (f.q ≡ some s.q) × (0 < s.q) × (f.pos ≡ s.pos)
  scored f none s e h = let k = rw e at h in absurd (cc)
  scored f (some q) s e h = elim (Bool-cases (leb q 0)) [
    | inl z ↦ let k = rw (e, z) at h in absurd (cc)
    | inr z ↦
        let k = rw (e, z) at h in
        let same : record { q = q; pos = f.pos } ≡ s = cc in
        let quality : q ≡ s.q = ap (λ (x : Score). x.q) same in
        (e ∙ ap (λ n. some n) quality, ground (arith, z, quality), ap (λ (x : Score). x.pos) same)
  ]

  scores :
      (f : Found) (q : ℕ)
      → f.q ≡ some q
      → 0 < q
      → score_of (some f) ≡ some (record { q = q; pos = f.pos })
  scores f q e above = rw e (ground (arith, above))

  score_of-Accepts :
      (entries : List Entry) (r : Option Found) (s : Score)
      → Searched 0 entries none r
      → score_of r ≡ some s
      → Accepts entries s.q s.pos
  score_of-Accepts entries none s d h = absurd (cc)
  score_of-Accepts entries (some f) s (inl p, over, top) h = absurd (cc)
  score_of-Accepts entries (some f) s (inr (x, a, m, w), over, top) h =
      let (fq, above, at) = scored f f.q s refl h in
      let specific : f.specificity ≡ x.specificity = ap (λ (y : Found). y.specificity) w in
      (
        x,
        subst (λ i. At i x entries) at a,
        m,
        ap (λ (y : Found). y.q) (sym w) ∙ fq,
        above,
        λ i y b n.
            subst (λ v. (y.specificity < v) ⊎ ((y.specificity ≡ v) × (s.pos ≤ i))) specific
              (subst
                (λ v. (y.specificity < f.specificity) ⊎ ((y.specificity ≡ f.specificity) × (v ≤ i)))
                at (Dominates-cases f y.specificity i (top i y b n))),
      )

  Accepts-score_of :
      (entries : List Entry) (r : Option Found) (q pos : ℕ)
      → Searched 0 entries none r
      → Accepts entries q pos
      → score_of r ≡ some (record { q = q; pos = pos })
  Accepts-score_of entries none q pos d (e, at, m, h, above, most) =
      let missed = d.1 pos e at in absurd (cc)
  Accepts-score_of entries (some f) q pos (inl p, over, top) a = absurd (cc)
  Accepts-score_of entries (some f) q pos (inr (x, a, n, w), over, top) (e, at, m, h, above, most) =
      let specific : f.specificity ≡ x.specificity = ap (λ (y : Found). y.specificity) w in
      let same_pos : f.pos ≡ pos =
        meet f.pos pos f.specificity e.specificity
          (Dominates-cases f e.specificity pos (top pos e at m))
          (subst (λ v. (v < e.specificity) ⊎ ((v ≡ e.specificity) × (pos ≤ f.pos))) (sym specific)
            (most f.pos x a n)) in
      let same : x ≡ e =
        AtFrom-unique entries 0 pos x e (subst (λ i. At i x entries) same_pos a) at in
      let quality : f.q ≡ some q = ap (λ (y : Found). y.q) w ∙ (ap (λ (y : Entry). y.q) same ∙ h) in
      scores f q quality above ∙ ap (λ i. some (record { q = q; pos = i })) same_pos
    where
      meet : (i j a b : ℕ) → (b < a) ⊎ ((b ≡ a) × (i ≤ j)) → (a < b) ⊎ ((a ≡ b) × (j ≤ i)) → i ≡ j
      meet i j a b (inl h) (inl k) = absurd (omega (arith, h, k))
      meet i j a b (inl h) (inr (k, l)) = absurd (omega (arith, h, k))
      meet i j a b (inr (k, l)) (inl h) = absurd (omega (arith, h, k))
      meet i j a b (inr (k, l)) (inr (k', l')) = omega (arith, l, l')

  pub score-Accepts :
      (entries : List Entry) (s : Score) → score entries c ≡ some s → Accepts entries s.q s.pos
  score-Accepts entries s h = score_of-Accepts entries _ s (find_match-Searched entries 0 none) h

  pub Accepts-score :
      (entries : List Entry) (q pos : ℕ)
      → Accepts entries q pos
      → score entries c ≡ some (record { q = q; pos = pos })
  Accepts-score entries q pos a =
      Accepts-score_of entries _ q pos (find_match-Searched entries 0 none) a
