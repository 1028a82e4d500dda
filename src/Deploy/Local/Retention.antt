-- ===== src/Deploy/Local/Retention.antt =====
-- Which builds a cleanup removes.
use wp_packages.Base.{
  ℕ, ◌≤◌, ◌≡◌, ◌≢◌, refl, Bool, true, false, not, ◌&&◌, ◌||◌, List, [], ◌∷◌, Text, some, eq_text,
  eq_text_iff, eq_text_refl, lt_text, any, filter, length, ltb, arith, In, Bool-cases, inl, inr,
}
use wp_packages.Deploy.Local.{
  Repo, list_builds, current_build_id, is_current, mark, keep_newest, clamp_retain, is_kept,
  to_remove,
}
use wp_packages.Deploy.Local.Order.{Sorted, Newer, Newer-In, keep_newest_full, list_builds-Sorted}

-- No text stands twice.
abbrev pub Unique : List Text → Type 0
Unique [] = Unit
Unique (x ∷ xs) = (any (eq_text x) xs ≡ false) × Unique xs

Subset : List Text → List Text → Type 0
Subset ks = λ ids. (x : Text) → In x ks → In x ids

-- The kept list is as long as its count, without duplicates, and of builds.
Good : List Text → ℕ × List Text → Type 0
Good ids r = (length r.1 ≡ r.0) × Unique r.1 × Subset r.1 ids

keep_newest-Good : (n : ℕ) (current : Text) (ids : List Text) → Good ids (keep_newest n current ids)
unfolding keep_newest Good Subset
keep_newest-Good n current [] = (refl, tt, λ x i. i)
keep_newest-Good n current (x ∷ xs) =
    at_mark (keep_newest n current xs) (keep_newest-Good n current xs)
  where
    at_mark : (r : ℕ × List Text) → Good xs r → Good (x ∷ xs) (mark n current x r)
    at_mark (k, ks) (l, u, s) =
        elim (Bool-cases (ltb k n && not (is_current current x || any (eq_text x) ks))) [
          | inl e ↦ rw e (
            omega (arith, l),
            (ground (arith, e), u),
            λ y i. elim i [ inl j ↦ inl j | inr j ↦ inr (s y j) ],
          )
          | inr e ↦ rw e (l, u, λ y i. inr (s y i))
        ]

-- No kept build is the current one.
keep_newest-others :
    (n : ℕ) (current : Text) (ids : List Text) (y : Text)
    → In y (keep_newest n current ids).1
    → is_current current y ≡ false
unfolding keep_newest
keep_newest-others n current [] y i = absurd i
keep_newest-others n current (x ∷ xs) y i =
    at_mark (keep_newest n current xs) i (keep_newest-others n current xs y)
  where
    at_mark :
        (r : ℕ × List Text)
        → In y (mark n current x r).1
        → (In y r.1 → is_current current y ≡ false)
        → is_current current y ≡ false
    at_mark (k, ks) j ih =
        elim (Bool-cases (ltb k n && not (is_current current x || any (eq_text x) ks))) [
          | inl e ↦
              let j' : In y (x ∷ ks) = rw e at j in
              elim j' [
                | inl same ↦
                    let other : is_current current x ≡ false = ground (arith, e) in
                    rw (← same) other
                | inr rest ↦ ih rest
              ]
          | inr e ↦ let j' : In y ks = rw e at j in ih j'
        ]

Newer-Subset : (b : Text) (ks xs : List Text) → Newer b xs → Subset ks xs → Newer b ks
unfolding Subset
Newer-Subset b [] xs n s = tt
Newer-Subset b (k ∷ ks) xs n s =
    (Newer-In b k xs n (s k (inl refl)), Newer-Subset b ks xs n (λ y i. s y (inr i)))

keep_newest-Newer :
    (n : ℕ) (current : Text) (ids : List Text) (b : Text)
    → Sorted ids
    → In b ids
    → is_kept current (keep_newest n current ids).1 b ≡ false
    → Newer b (keep_newest n current ids).1
unfolding keep_newest Good
keep_newest-Newer n current [] b s i h = absurd i
keep_newest-Newer n current (x ∷ xs) b s i h =
    at_mark (keep_newest n current xs) h (keep_newest-Good n current xs)
      (keep_newest_full n current xs b) (keep_newest-Newer n current xs b s.1)
  where
    at_mark :
        (r : ℕ × List Text)
        → is_kept current (mark n current x r).1 b ≡ false
        → Good xs r
        → (In b xs → is_kept current r.1 b ≡ false → n ≤ r.0)
        → (In b xs → is_kept current r.1 b ≡ false → Newer b r.1)
        → Newer b (mark n current x r).1
    at_mark (k, ks) g good full ih =
        elim (Bool-cases (ltb k n && not (is_current current x || any (eq_text x) ks))) [
          | inl e ↦
              let g' : is_kept current (x ∷ ks) b ≡ false = rw e at g in
              elim i [
                | inl j ↦
                    absurd (let f : true ≡ false = ground (arith, g', j, eq_text_refl b) in cc)
                | inr j ↦
                    let g'' : is_kept current ks b ≡ false = ground (arith, g') in
                    absurd (let f : n ≤ k = full j g'' in ground (arith, e, f))
              ]
          | inr e ↦
              let g' : is_kept current ks b ≡ false = rw e at g in
              rw e (elim i [ inl j ↦ rw (← j) (Newer-Subset x ks xs s.0 good.2) | inr j ↦ ih j g' ])
        ]

In-filter :
    (p : Text → Bool) (b : Text) (xs : List Text) → In b (filter p xs) → In b xs × (p b ≡ true)
In-filter p b [] i = absurd i
In-filter p b (x ∷ xs) i = elim (Bool-cases (p x)) [
  | inl e ↦
      let i' : In b (x ∷ filter p xs) = rw e at i in
      elim i' [
        | inl j ↦ (inl j, rw (← j) e)
        | inr j ↦ (inr (In-filter p b xs j).0, (In-filter p b xs j).1)
      ]
  | inr e ↦
      let i' : In b (filter p xs) = rw e at i in
      (inr (In-filter p b xs i').0, (In-filter p b xs i').1)
]

any-In : (x : Text) (ks : List Text) → In x ks → any (eq_text x) ks ≡ true
any-In x [] i = absurd i
any-In x (k ∷ ks) (inl e) = rw (e, eq_text_refl x)
any-In x (k ∷ ks) (inr i) = ground (arith, any-In x ks i)

-- A build that a cleanup is to remove is not the current one, and the builds that stay include, beside
-- the current one, at least as many different ones, none of them older, as the retain count says, and
-- five at least. The builds are all that the directory lists.
pub to_remove-newest :
    (repo : Repo) (retain : ℕ) (ids : List Text) (b : Text)
    → list_builds repo ≡ some ids
    → In b (to_remove retain (current_build_id repo) ids)
    → (current_build_id repo ≢ [] → b ≢ current_build_id repo)
      × (ks : List Text) × (retain ≤ length ks)
      × (5 ≤ length ks)
      × Unique ks
      × ((x : Text)
          → In x ks
          → In x ids
            × (current_build_id repo ≢ [] → x ≢ current_build_id repo)
            × (lt_text x b ≡ false)
            × ¬ (In x (to_remove retain (current_build_id repo) ids)))
unfolding to_remove Good Subset
to_remove-newest repo retain ids b l i =
    let current = current_build_id repo in
    let n = clamp_retain retain in
    let ks = (keep_newest n current ids).1 in
    let (j, p) = In-filter (λ x. not (is_kept current ks x)) b ids i in
    let h : is_kept current ks b ≡ false = ground (arith, p) in
    let (len, unique, sub) = keep_newest-Good n current ids in
    let full = keep_newest_full n current ids b j h in
    let newer = keep_newest-Newer n current ids b (list_builds-Sorted repo ids l) j h in
    (
      λ set e.
          let f : true ≡ false =
            ground (arith, h, eq_text_iff current [], eq_text_iff b current, set, e) in
          cc,
      ks,
      ground (arith, len, full),
      ground (arith, len, full),
      unique,
      λ x k. (
        sub x k,
        λ set e.
            let f : true ≡ false = ground (
              arith,
              keep_newest-others n current ids x k,
              eq_text_iff current [],
              eq_text_iff x current,
              set,
              e,
            ) in
            cc,
        Newer-In b x ks newer k,
        λ m.
            let q : not (is_kept current ks x) ≡ true =
              (In-filter (λ y. not (is_kept current ks y)) x ids m).1 in
            let f : true ≡ false = ground (arith, q, any-In x ks k) in cc,
      ),
    )
