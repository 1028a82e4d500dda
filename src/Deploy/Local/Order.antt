-- ===== src/Deploy/Local/Order.antt =====
-- The order of build ids, and the build that a rollback chooses (internal/deploy/local.go).
use wp_packages.Base.{
  ℕ, ◌≤◌, ◌≡◌, ◌≢◌, refl, sym, ap, subst, ◌∙◌, Bool, true, false, ◌&&◌, List, [], ◌∷◌, Text, none,
  some, eq_text, eq_text_iff, eq_text_refl, lt_text, lt_text_irrefl, lt_text_trans, lt_text_total,
  arith, All, In, Bool-cases, Option-cases, inl, inr,
}
use wp_packages.Deploy.Local.{
  Repo, other_of, promote_target, Dir, missing, unreadable, entries, dir_names, validate_build,
  sort, insert_sorted, list_builds, current_build_id, promote, last_other, target_of, rollback,
  mark, keep_newest, is_kept,
}

-- No element is older than the text.
abbrev pub Newer : Text → List Text → Type 0
Newer x = All (λ (y : Text). lt_text y x ≡ false)

abbrev pub Sorted : List Text → Type 0
Sorted [] = Unit
Sorted (x ∷ xs) = Newer x xs × Sorted xs

pub Newer-In : (x y : Text) (xs : List Text) → Newer x xs → In y xs → lt_text y x ≡ false
Newer-In x y [] n i = absurd i
Newer-In x y (z ∷ xs) n (inl e) = rw (← e) (n.0)
Newer-In x y (z ∷ xs) n (inr i) = Newer-In x y xs n.1 i

lt_text_asym : (x y : Text) → lt_text x y ≡ true → lt_text y x ≡ false
lt_text_asym x y h = elim (Bool-cases (lt_text y x)) [
  | inl k ↦ absurd (let l : true ≡ false = sym (lt_text_trans x y x h k) ∙ lt_text_irrefl x in cc)
  | inr k ↦ k
]

-- If `x ≤ y` and `y ≤ z` then `x ≤ z`.
not_lt_trans : (x y z : Text) → lt_text y x ≡ false → lt_text z y ≡ false → lt_text z x ≡ false
not_lt_trans x y z h k = elim (Bool-cases (lt_text z x)) [
  | inl l ↦ elim (lt_text_total x y) [
    | inl m ↦ absurd (let c : true ≡ false = sym (lt_text_trans z x y l m) ∙ k in cc)
    | inr (inl m) ↦ absurd (let c : true ≡ false = sym m ∙ h in cc)
    | inr (inr e) ↦ rw (e) k
  ]
  | inr l ↦ l
]

Newer-weaken : (x y : Text) (ys : List Text) → lt_text y x ≡ false → Newer y ys → Newer x ys
Newer-weaken x y [] h n = tt
Newer-weaken x y (z ∷ ys) h n = (not_lt_trans x y z h n.0, Newer-weaken x y ys h n.1)

Newer-insert_sorted :
    (x y : Text) (ys : List Text) → lt_text y x ≡ false → Newer x ys → Newer x (insert_sorted y ys)
unfolding insert_sorted
Newer-insert_sorted x y [] h n = (h, tt)
Newer-insert_sorted x y (z ∷ ys) h n = elim (Bool-cases (lt_text z y)) [
  | inl e ↦ rw e (n.0, Newer-insert_sorted x y ys h n.1)
  | inr e ↦ rw e (h, n)
]

insert_sorted-Sorted : (x : Text) (xs : List Text) → Sorted xs → Sorted (insert_sorted x xs)
unfolding insert_sorted
insert_sorted-Sorted x [] s = (tt, tt)
insert_sorted-Sorted x (y ∷ ys) s = elim (Bool-cases (lt_text y x)) [
  | inl e ↦
      rw e (Newer-insert_sorted y x ys (lt_text_asym y x e) s.0, insert_sorted-Sorted x ys s.1)
  | inr e ↦ rw e ((e, Newer-weaken x y ys e s.0), s)
]

pub sort-Sorted : (xs : List Text) → Sorted (sort xs)
unfolding sort
sort-Sorted [] = tt
sort-Sorted (x ∷ xs) = insert_sorted-Sorted x (sort xs) (sort-Sorted xs)

last_other_none :
    (current b : Text) (ids : List Text) → last_other current ids ≡ none → In b ids → b ≡ current
unfolding last_other
last_other_none current b [] h i = absurd i
last_other_none current b (x ∷ xs) h i = elim (Option-cases (last_other current xs)) [
  | inl e ↦ elim (Bool-cases (eq_text x current)) [
    | inl k ↦ elim i [
      | inl j ↦ sym j ∙ (eq_text_iff x current).0 k
      | inr j ↦ last_other_none current b xs e j
    ]
    | inr k ↦ absurd (let h' : some x ≡ none = rw (e, k) at h in cc)
  ]
  | inr (u, e) ↦ absurd (let h' : some u ≡ none = rw e at h in cc)
]

-- The chosen build is another than the current one, and no build but the current one is newer.
pub last_other_newest :
    (current t : Text) (ids : List Text)
    → Sorted ids
    → last_other current ids ≡ some t
    → In t ids × (t ≢ current) × ((b : Text) → In b ids → b ≢ current → lt_text t b ≡ false)
unfolding last_other
last_other_newest current t [] s h = absurd (cc)
last_other_newest current t (x ∷ xs) s h = elim (Option-cases (last_other current xs)) [
  | inl e ↦ elim (Bool-cases (eq_text x current)) [
    | inl k ↦ absurd (let h' : none ≡ some t = rw (e, k) at h in cc)
    | inr k ↦
        let h' : some x ≡ some t = rw (e, k) at h in
        let xt : x ≡ t = cc in
        (
          inl xt,
          λ c. let f : true ≡ false = sym ((eq_text_iff x current).1 (xt ∙ c)) ∙ k in cc,
          λ b i n. elim i [
            | inl j ↦ rw (← xt, ← j) (lt_text_irrefl x)
            | inr j ↦ absurd (n (last_other_none current b xs e j))
          ],
        )
  ]
  | inr (u, e) ↦
      let h' : some u ≡ some t = rw e at h in
      let ut : u ≡ t = cc in
      let (i, n, all) = last_other_newest current t xs s.1 (e ∙ h') in
      (inr i, n, λ b j m. elim j [ inl k ↦ rw (← k) (Newer-In x t xs s.0 i) | inr k ↦ all b k m ])
]

pub list_builds-Sorted : (repo : Repo) (ids : List Text) → list_builds repo ≡ some ids → Sorted ids
unfolding list_builds
list_builds-Sorted repo ids h = go repo.builds h
  where
    go :
        (d : Dir)
        → elim d [ missing ↦ some [] | unreadable ↦ none | entries es ↦ some (sort (dir_names es)) ]
          ≡ some ids
        → Sorted ids
    go missing e = let e' : [] ≡ ids = cc in rw (← e') tt
    go unreadable e = absurd (cc)
    go (entries es) e =
        let e' : sort (dir_names es) ≡ ids = cc in rw (← e') (sort-Sorted (dir_names es))

current-promote :
    (link_ok rename_ok : Bool) (t : Text) (repo repo' : Repo)
    → promote link_ok rename_ok t repo ≡ some repo'
    → current_build_id repo' ≡ t
unfolding promote current_build_id
current-promote link_ok rename_ok t repo repo' h =
    elim (Bool-cases (validate_build t repo && (link_ok && rename_ok))) [
      | inl e ↦
          let h' : some (record repo { current = some t }) ≡ some repo' = rw e at h in
          let r : record repo { current = some t } ≡ repo' = cc in rw (← r) refl
      | inr e ↦ absurd (let h' : none ≡ some repo' = rw e at h in cc)
    ]

-- A rollback without a target succeeds only by making a build current that was not, and is the newest
-- of those: every build that is newer was current.
pub rollback_newest :
    (link_ok rename_ok : Bool) (repo repo' : Repo) (ids : List Text) (t : Text)
    → list_builds repo ≡ some ids
    → rollback link_ok rename_ok [] repo ≡ some (t, repo')
    → In t ids
      × (t ≢ current_build_id repo)
      × (current_build_id repo' ≡ t)
      × ((b : Text) → In b ids → b ≢ current_build_id repo → lt_text t b ≡ false)
unfolding rollback eq_text
rollback_newest link_ok rename_ok repo repo' ids t l h0 =
    let target : target_of [] repo ≡ last_other (current_build_id repo) ids =
      ap (other_of (current_build_id repo)) l in
    let h : promote_target link_ok rename_ok repo (last_other (current_build_id repo) ids)
        ≡ some (t, repo') =
      subst (λ o. promote_target link_ok rename_ok repo o ≡ some (t, repo')) target h0 in
    elim (Option-cases (last_other (current_build_id repo) ids)) [
      | inl e ↦ absurd (let h' : none ≡ some (t, repo') = rw (e) at h in cc)
      | inr (u, e) ↦ elim (Option-cases (promote link_ok rename_ok u repo)) [
        | inl p ↦ absurd (let h' : none ≡ some (t, repo') = rw (e, p) at h in cc)
        | inr (r, p) ↦
            let h' : some (u, r) ≡ some (t, repo') = rw (e, p) at h in
            let ut : u ≡ t = cc in
            let rr : r ≡ repo' = cc in
            let p' : promote link_ok rename_ok t repo ≡ some repo' = cc in
            let e' : last_other (current_build_id repo) ids ≡ some t = cc in
            let (i, n, newest) =
              last_other_newest (current_build_id repo) t ids (list_builds-Sorted repo ids l) e' in
            (i, n, current-promote link_ok rename_ok t repo repo' p', newest)
      ]
    ]

-- The loop keeps a build, for all but the current one, until it has kept `n`.
pub keep_newest_full :
    (n : ℕ) (current : Text) (ids : List Text) (b : Text)
    → In b ids
    → is_kept current (keep_newest n current ids).1 b ≡ false
    → n ≤ (keep_newest n current ids).0
unfolding keep_newest
keep_newest_full n current [] b i h = absurd i
keep_newest_full n current (x ∷ xs) b i h =
    at_mark (keep_newest n current xs) h (λ k. keep_newest_full n current xs b k)
  where
    at_mark :
        (r : ℕ × List Text)
        → is_kept current (mark n current x r).1 b ≡ false
        → (In b xs → is_kept current r.1 b ≡ false → n ≤ r.0)
        → n ≤ (mark n current x r).0
    at_mark (k, ks) g ih = elim i [
      | inl j ↦ ground (arith, g, j, eq_text_refl b)
      | inr j ↦ ground (arith, g, ih j)
    ]
