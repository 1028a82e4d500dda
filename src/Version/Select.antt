-- ===== src/Version/Select.antt =====
-- Latest and FilterNewerThan.
use wp_packages.Base.{
  ◌≡◌, refl, sym, ◌∙◌, ap, subst, Bool, true, false, [], ◌∷◌, Text, Map, arith, eq_text,
  eq_text_iff, Bool-cases, ◌⊎◌, inl, inr, ◌≢◌, In, filter, All,
}
use wp_packages.Version.{
  normalize, is_stable, compare_versions, kept, filter_newer_than, Seen, higher, see, see_all,
  latest, dev_trunk, is_gt,
}
use wp_packages.Version.Order.{NotAbove, compare_versions_trans, NotAbove-refl, NotAbove-total}

-- No version of the map is the empty text, as in the result of NormalizeVersions.
abbrev pub Named : Map Text → Type 0
Named = All (λ (e : Text × Text). e.0 ≢ [])

-- `b` is a version, and `a` is not above it.
abbrev pub Under : Text → Text → Type 0
Under a b = (b ≢ []) × NotAbove a b

Under-trans : (a b c : Text) → Under a b → Under b c → Under a c
Under-trans a b c h k = (k.0, (compare_versions_trans a b c h.1 k.1).0)

higher-Under : (v best : Text) → v ≢ [] → Under v (higher v best)
higher-Under v best n = elim (Bool-cases (eq_text best [])) [
  | inl e ↦ rw e (n, NotAbove-refl v)
  | inr e ↦ elim (Bool-cases (is_gt (compare_versions v best))) [
    | inl g ↦ rw (e, g) (n, NotAbove-refl v)
    | inr g ↦ rw (e, g) (ground (arith, eq_text_iff best []), g)
  ]
]

-- What was seen stays under the highest.
best-Under-higher : (v best : Text) → v ≢ [] → best ≢ [] → Under best (higher v best)
best-Under-higher v best n b = elim (Bool-cases (eq_text best [])) [
  | inl e ↦ absurd (b ((eq_text_iff best []).0 e))
  | inr e ↦ elim (Bool-cases (is_gt (compare_versions v best))) [
    | inl g ↦ rw (e, g) (n, NotAbove-total v best g)
    | inr g ↦ rw (e, g) (b, NotAbove-refl best)
  ]
]

abbrev Keeps : Text → Text → Type 0
Keeps old new = old ≢ [] → Under old new

Keeps-refl : (a : Text) → Keeps a a
Keeps-refl a h = (h, NotAbove-refl a)

Keeps-trans : (a b c : Text) → Keeps a b → Keeps b c → Keeps a c
Keeps-trans a b c h k n = let u = h n in Under-trans a b c u (k u.0)

see-Keeps :
    (v : Text) (st : Seen)
    → v ≢ []
    → Keeps st.stable (see v st).stable × Keeps st.any (see v st).any
unfolding see
see-Keeps v st n = elim (Bool-cases (eq_text v dev_trunk)) [
  | inl t ↦ rw t (Keeps-refl st.stable, Keeps-refl st.any)
  | inr t ↦ elim (Bool-cases (is_stable v)) [
    | inl s ↦ rw (t, s) (best-Under-higher v st.stable n, best-Under-higher v st.any n)
    | inr s ↦ rw (t, s) (Keeps-refl st.stable, best-Under-higher v st.any n)
  ]
]

see_all-Keeps :
    (m : Map Text) (st : Seen)
    → Named m
    → Keeps st.stable (see_all m st).stable × Keeps st.any (see_all m st).any
unfolding see_all
see_all-Keeps [] st h = (Keeps-refl st.stable, Keeps-refl st.any)
see_all-Keeps ((v, url) ∷ m) st h =
    let (s, a) = see-Keeps v st h.0 in
    let (s', a') = see_all-Keeps m (see v st) h.1 in
    (Keeps-trans _ _ _ s s', Keeps-trans _ _ _ a a')

not_trunk : (v : Text) → v ≢ dev_trunk → eq_text v dev_trunk ≡ false
not_trunk v t = ground (arith, eq_text_iff v dev_trunk)

see_any : (v : Text) (st : Seen) → v ≢ [] → v ≢ dev_trunk → Under v (see v st).any
unfolding see
see_any v st n t = rw (not_trunk v t) (higher-Under v st.any n)

see_stable :
    (v : Text) (st : Seen) → v ≢ [] → v ≢ dev_trunk → is_stable v ≡ true → Under v (see v st).stable
unfolding see
see_stable v st n t s = rw (not_trunk v t, s) (higher-Under v st.stable n)

In-Named : (m : Map Text) (v u : Text) → Named m → In (v, u) m → v ≢ []
In-Named [] v u h i = absurd i
In-Named ((w, x) ∷ m) v u h (inl e) =
    let e' : w ≡ v = ap (λ (p : Text × Text). p.0) e in rw e' at h.0
In-Named ((w, x) ∷ m) v u h (inr i) = In-Named m v u h.1 i

module _ (v u : Text) (t : v ≢ dev_trunk) where
  see_all_any : (m : Map Text) (st : Seen) → Named m → In (v, u) m → Under v (see_all m st).any
  unfolding see_all
  see_all_any [] st h i = absurd i
  see_all_any ((w, x) ∷ m) st h (inl e) =
      let e' : w ≡ v = ap (λ (p : Text × Text). p.0) e in
      let here = see_any w st h.0 (rw e' t) in
      subst (λ z. Under z (see_all m (see w st)).any) e'
        (Under-trans w _ _ here ((see_all-Keeps m (see w st) h.1).1 here.0))
  see_all_any ((w, x) ∷ m) st h (inr i) = see_all_any m (see w st) h.1 i

  see_all_stable :
      (m : Map Text) (st : Seen)
      → is_stable v ≡ true
      → Named m
      → In (v, u) m
      → Under v (see_all m st).stable
  unfolding see_all
  see_all_stable [] st s h i = absurd i
  see_all_stable ((w, x) ∷ m) st s h (inl e) =
      let e' : w ≡ v = ap (λ (p : Text × Text). p.0) e in
      let here = see_stable w st h.0 (rw e' t) (rw e' s) in
      subst (λ z. Under z (see_all m (see w st)).stable) e'
        (Under-trans w _ _ here ((see_all-Keeps m (see w st) h.1).0 here.0))
  see_all_stable ((w, x) ∷ m) st s h (inr i) = see_all_stable m (see w st) s h.1 i

-- A version of the map other than dev-trunk.
abbrev pub IsRelease : Map Text → Text → Type 0
IsRelease m v = (u : Text) × In (v, u) m × (v ≢ dev_trunk)

higher-cases : (v best : Text) → (higher v best ≡ best) ⊎ (higher v best ≡ v)
higher-cases v best = ground arith

is_trunk_text : (v : Text) → eq_text v dev_trunk ≡ false → v ≢ dev_trunk
is_trunk_text v e h = cc (e, (eq_text_iff v dev_trunk).1 h)

see_origin :
    (v : Text) (st : Seen)
    → (((see v st).any ≡ st.any) ⊎ (((see v st).any ≡ v) × (v ≢ dev_trunk)))
      × (((see v st).stable ≡ st.stable)
          ⊎ (((see v st).stable ≡ v) × (v ≢ dev_trunk) × (is_stable v ≡ true)))
unfolding see
see_origin v st = elim (Bool-cases (eq_text v dev_trunk)) [
  | inl t ↦ rw t (inl refl, inl refl)
  | inr t ↦
      let n = is_trunk_text v t in ground (arith, higher-cases v st.any, higher-cases v st.stable)
]

IsRelease-here : (m : Map Text) (v x : Text) → v ≢ dev_trunk → IsRelease ((v, x) ∷ m) v
IsRelease-here m v x t = (x, inl refl, t)

IsRelease-later : (m : Map Text) (e : Text × Text) (v : Text) → IsRelease m v → IsRelease (e ∷ m) v
IsRelease-later m e v (u, i, t) = (u, inr i, t)

see_all_from_any :
    (m : Map Text) (st : Seen) → ((see_all m st).any ≡ st.any) ⊎ IsRelease m (see_all m st).any
unfolding see_all
see_all_from_any [] st = inl refl
see_all_from_any ((v, x) ∷ m) st = elim (see_all_from_any m (see v st)) [
  | inr r ↦ inr (IsRelease-later m (v, x) _ r)
  | inl e ↦ elim ((see_origin v st).0) [
    | inl k ↦ inl (e ∙ k)
    | inr (k, t) ↦ inr (subst (IsRelease ((v, x) ∷ m)) (sym (e ∙ k)) (IsRelease-here m v x t))
  ]
]

see_all_from_stable :
    (m : Map Text) (st : Seen)
    → ((see_all m st).stable ≡ st.stable)
      ⊎ (IsRelease m (see_all m st).stable × (is_stable (see_all m st).stable ≡ true))
unfolding see_all
see_all_from_stable [] st = inl refl
see_all_from_stable ((v, x) ∷ m) st = elim (see_all_from_stable m (see v st)) [
  | inr (r, s) ↦ inr (IsRelease-later m (v, x) _ r, s)
  | inl e ↦ elim ((see_origin v st).1) [
    | inl k ↦ inl (e ∙ k)
    | inr (k, t, s) ↦ inr (
      subst (IsRelease ((v, x) ∷ m)) (sym (e ∙ k)) (IsRelease-here m v x t),
      subst (λ z. is_stable z ≡ true) (sym (e ∙ k)) s,
    )
  ]
]

abbrev start : Seen
start = record { stable = []; any = [] }

-- Latest is empty or a version of the map, and never dev-trunk.
pub latest-IsRelease : (m : Map Text) → (latest m ≡ []) ⊎ IsRelease m (latest m)
unfolding latest
latest-IsRelease m = elim (Bool-cases (eq_text (see_all m start).stable [])) [
  | inl e ↦ rw e (see_all_from_any m start)
  | inr e ↦ elim (see_all_from_stable m start) [
    | inl k ↦ absurd (cc (e, (eq_text_iff (see_all m start).stable []).1 k))
    | inr (r, s) ↦ rw e (inr r)
  ]
]

-- With a stable version in the map, Latest is stable, and no stable version is above it.
pub latest_stable :
    (m : Map Text) (v u : Text)
    → Named m
    → In (v, u) m
    → v ≢ dev_trunk
    → is_stable v ≡ true
    → (is_stable (latest m) ≡ true) × NotAbove v (latest m)
unfolding latest
latest_stable m v u h i t s =
    let (n, k) = see_all_stable v u t m start s h i in
    let e : eq_text (see_all m start).stable [] ≡ false =
      ground (arith, eq_text_iff (see_all m start).stable []) in
    elim (see_all_from_stable m start) [ inl z ↦ absurd (n z) | inr (r, s') ↦ rw e (s', k) ]

-- With no stable version, no version at all is above Latest.
pub latest_fallback :
    (m : Map Text) (v u : Text)
    → Named m
    → ((w x : Text) → In (w, x) m → w ≢ dev_trunk → is_stable w ≡ false)
    → In (v, u) m
    → v ≢ dev_trunk
    → NotAbove v (latest m)
unfolding latest
latest_fallback m v u h none_stable i t =
    let (n, k) = see_all_any v u t m start h i in
    elim (see_all_from_stable m start) [
      | inl z ↦ rw ((eq_text_iff (see_all m start).stable []).1 z) k
      | inr ((x, i', t'), s') ↦ absurd (cc (s', none_stable _ x i' t'))
    ]

In-filter :
    (p : Text × Text → Bool) (m : Map Text) (e : Text × Text)
    → In e (filter p m)
    → In e m × (p e ≡ true)
In-filter p [] e i = absurd i
In-filter p (d ∷ m) e i = elim (Bool-cases (p d)) [
  | inl k ↦ elim (subst (In e) (filter_yes k) i) [
    | inl same ↦ (inl same, subst (λ z. p z ≡ true) same k)
    | inr j ↦ later (In-filter p m e j)
  ]
  | inr k ↦ later (In-filter p m e (subst (In e) (filter_no k) i))
]
  where
    filter_yes : p d ≡ true → filter p (d ∷ m) ≡ d ∷ filter p m
    filter_yes k = rw k

    filter_no : p d ≡ false → filter p (d ∷ m) ≡ filter p m
    filter_no k = rw k

    later : In e m × (p e ≡ true) → In e (d ∷ m) × (p e ≡ true)
    later (j, q) = (inr j, q)

filters :
    (m : Map Text) (max : Text)
    → normalize max ≢ []
    → normalize max ≢ dev_trunk
    → filter_newer_than m max ≡ filter (λ (e : Text × Text). kept (normalize max) (e.0)) m
unfolding filter_newer_than
filters m max n t =
    ground (arith, eq_text_iff (normalize max) [], eq_text_iff (normalize max) dev_trunk)

kept_release :
    (max v : Text) → v ≢ dev_trunk → is_stable v ≡ true → kept max v ≡ true → NotAbove v max
unfolding kept
kept_release max v r s k = ground (arith, eq_text_iff v dev_trunk)

-- If FilterNewerThan filters at all, a stable Latest of what it keeps is not above the given version.
pub latest-filter_newer_than :
    (m : Map Text) (max : Text)
    → normalize max ≢ []
    → normalize max ≢ dev_trunk
    → is_stable (latest (filter_newer_than m max)) ≡ true
    → latest (filter_newer_than m max) ≢ []
    → NotAbove (latest (filter_newer_than m max)) (normalize max)
latest-filter_newer_than m max n t s l = elim (latest-IsRelease (filter_newer_than m max)) [
  | inl e ↦ absurd (l e)
  | inr (u, i, r) ↦
      let (_, k) =
        In-filter (λ (e : Text × Text). kept (normalize max) (e.0)) m _
          (subst (In _) (filters m max n t) i) in
      kept_release (normalize max) _ r s k
]
