-- ===== src/Version/Best.antt =====
-- The raw versions that NormalizeVersions keeps, and the order in which its loop meets the entries.
use wp_packages.Base.{
  ◌≡◌, refl, sym, ◌∙◌, ap, Bool, true, false, not, ◌&&◌, [], ◌∷◌, Text, Map, arith, eq_text,
  eq_text_iff, Bool-cases, Option-cases, ◌⊎◌, inl, inr, ◌≢◌, none, some, In, lookup, ◌↔◌,
}
use mathlib.Core.Option
use wp_packages.Version.{Chosen, normalize, prefer_raw_version, normalize_versions, choose_all}
use wp_packages.Version.Choice.{
  Entry, better_of, better, pick, Holds, Holds-choose_all, prefer_irrefl, prefer_trans,
  prefer_antisym, prefer_asym,
}

-- A raw version that normalizes to the key `k`.
abbrev pub Candidate : Text → Text → Type 0
Candidate k v = (normalize v ≡ k) × (k ≢ [])

-- The kept entry is none only if nothing was offered, and no offered version is preferred to it.
abbrev AtLeast : Text → Text → Entry → Type 0
AtLeast k w none = ⊥
AtLeast k w (some (v, u)) = prefer_raw_version w v k ≡ false

abbrev Above : Text → Entry → Entry → Type 0
Above k none o = Unit
Above k (some (w, x)) o = AtLeast k w o

AtLeast-trans : (k w : Text) (acc o : Entry) → AtLeast k w acc → Above k acc o → AtLeast k w o
AtLeast-trans k w none o h g = absurd h
AtLeast-trans k w (some (v, u)) none h g = absurd g
AtLeast-trans k w (some (v, u)) (some (v', u')) h g = prefer_trans k w v v' h g

Above-refl : (k : Text) (acc : Entry) → Above k acc acc
Above-refl k none = tt
Above-refl k (some (v, u)) = prefer_irrefl k v

Above-trans : (k : Text) (a b c : Entry) → Above k a b → Above k b c → Above k a c
Above-trans k none b c h g = tt
Above-trans k (some (v, u)) b c h g = AtLeast-trans k v b c h g

abbrev fits : Text → Text → Bool
fits k v = eq_text (normalize v) k && not (eq_text k [])

Above-better : (k v url : Text) (acc : Entry) → Above k acc (better k v url acc)
unfolding better
Above-better k v url none = tt
Above-better k v url (some (p, u)) = elim (Bool-cases (fits k v)) [
  | inl e ↦ elim (Bool-cases (prefer_raw_version v p k)) [
    | inl w ↦ rw (e, w) (prefer_asym k v p w)
    | inr w ↦ rw (e, w) (prefer_irrefl k p)
  ]
  | inr e ↦ rw e (prefer_irrefl k p)
]

Candidate-fits : (k v : Text) → Candidate k v → fits k v ≡ true
Candidate-fits k v c = ground (arith, eq_text_iff (normalize v) k, eq_text_iff k [])

fits-Candidate : (k v : Text) → fits k v ≡ true → Candidate k v
fits-Candidate k v h =
    (ground (arith, eq_text_iff (normalize v) k), ground (arith, eq_text_iff k []))

AtLeast-better_of : (k v url : Text) (acc : Entry) → AtLeast k v (better_of k v url acc)
unfolding better_of
AtLeast-better_of k v url none = prefer_irrefl k v
AtLeast-better_of k v url (some (p, u)) = elim (Bool-cases (prefer_raw_version v p k)) [
  | inl w ↦ rw w (prefer_irrefl k v)
  | inr w ↦ rw w w
]

AtLeast-better : (k v url : Text) (acc : Entry) → Candidate k v → AtLeast k v (better k v url acc)
unfolding better
AtLeast-better k v url acc c = rw (Candidate-fits k v c) (AtLeast-better_of k v url acc)

Above-pick : (k : Text) (m : Map Text) (acc : Entry) → Above k acc (pick k m acc)
unfolding pick
Above-pick k [] acc = Above-refl k acc
Above-pick k ((v, url) ∷ m) acc =
    Above-trans k acc (better k v url acc) (pick k m (better k v url acc))
      (Above-better k v url acc) (Above-pick k m (better k v url acc))

AtLeast-pick :
    (k : Text) (m : Map Text) (acc : Entry) (w x : Text)
    → In (w, x) m
    → Candidate k w
    → AtLeast k w (pick k m acc)
unfolding pick
AtLeast-pick k [] acc w x i c = absurd i
AtLeast-pick k ((v, url) ∷ m) acc w x (inl e) c =
    AtLeast-trans k w (better k v url acc) (pick k m (better k v url acc)) here
      (Above-pick k m (better k v url acc))
  where
    here : AtLeast k w (better k v url acc)
    here =
        let e' : w ≡ v = ap (λ (p : Text × Text). p.0) (sym e) in
        rw e' (AtLeast-better k v url acc (rw e' at c))
AtLeast-pick k ((v, url) ∷ m) acc w x (inr i) c = AtLeast-pick k m (better k v url acc) w x i c

-- Where a kept entry comes from.
abbrev From : Text → Map Text → Entry → Text → Text → Type 0
From k m acc v u = (In (v, u) m × Candidate k v) ⊎ (acc ≡ some (v, u))

better_of_from :
    (k v url w x : Text) (acc : Entry)
    → better_of k v url acc ≡ some (w, x)
    → ((v ≡ w) × (url ≡ x)) ⊎ (acc ≡ some (w, x))
unfolding better_of
better_of_from k v url w x none h = inl (cc, cc)
better_of_from k v url w x (some (p, u)) h = elim (Bool-cases (prefer_raw_version v p k)) [
  | inl e ↦ let h' = rw e at h in inl (cc, cc)
  | inr e ↦ inr (rw e at h)
]

better_from :
    (k v url w x : Text) (acc : Entry)
    → better k v url acc ≡ some (w, x)
    → ((v ≡ w) × (url ≡ x) × Candidate k v) ⊎ (acc ≡ some (w, x))
unfolding better
better_from k v url w x acc h = elim (Bool-cases (fits k v)) [
  | inl e ↦ elim (better_of_from k v url w x acc (rw e at h)) [
    | inl (a, b) ↦ inl (a, b, fits-Candidate k v e)
    | inr e' ↦ inr e'
  ]
  | inr e ↦ inr (rw e at h)
]

pick-From :
    (k : Text) (m : Map Text) (acc : Entry) (w x : Text)
    → pick k m acc ≡ some (w, x)
    → From k m acc w x
unfolding pick
pick-From k [] acc w x h = inr h
pick-From k ((v, url) ∷ m) acc w x h = elim (pick-From k m (better k v url acc) w x h) [
  | inl (i, c) ↦ inl (inr i, c)
  | inr e ↦ elim (better_from k v url w x acc e) [
    | inl (a, b, c) ↦ inl (inl (cc), rw a at c)
    | inr e' ↦ inr e'
  ]
]

-- The entry that the loop keeps for `k`, as a relation: the best candidate of the map.
pub record IsBest (k : Text) (m : Map Text) (v u : Text) : Type 0 where
  pub listed : In (v, u) m
  pub normal : normalize v ≡ k
  pub keyed : k ≢ []
  pub best : (w x : Text) → In (w, x) m → normalize w ≡ k → prefer_raw_version w v k ≡ false

IsBest-pick : (k : Text) (m : Map Text) (v u : Text) → pick k m none ≡ some (v, u) → IsBest k m v u
IsBest-pick k m v u h = elim (pick-From k m none v u h) [
  | inl (i, c) ↦ record {
    listed = i;
    normal = c.0;
    keyed = c.1;
    best = λ w x i' n. let g = AtLeast-pick k m none w x i' (n, c.1) in rw h at g;
  }
  | inr e ↦ absurd (cc)
]

abbrev from_empty : Map Text → Chosen
from_empty m = choose_all m (record { result = []; chosen = [] })

Holds-pick : (k : Text) (m : Map Text) → Holds k (from_empty m) (pick k m none)
unfolding Holds lookup
Holds-pick k m = Holds-choose_all k m (record { result = []; chosen = [] }) none (refl, refl)

-- The result at `k` is the URL of the kept entry.
lookup-pick :
    (k : Text) (m : Map Text)
    → lookup k (normalize_versions m) ≡ Option.map (λ (e : Text × Text). e.1) (pick k m none)
unfolding normalize_versions
lookup-pick k m = from_entry (pick k m none) (Holds-pick k m)
  where
    from_entry :
        (o : Entry)
        → Holds k (from_empty m) o
        → lookup k (from_empty m).result ≡ Option.map (λ (e : Text × Text). e.1) o
    from_entry none h = unfold Holds in h.1
    from_entry (some (v, u)) h = unfold Holds in h.1

-- The URL stored for a key is that of the best raw version for it.
pub normalize_versions_sound :
    (k : Text) (m : Map Text) (url : Text)
    → lookup k (normalize_versions m) ≡ some url
    → (v : Text) × IsBest k m v url
normalize_versions_sound k m url h = elim (Option-cases (pick k m none)) [
  | inl e ↦ absurd (cc (h, lookup-pick k m, e))
  | inr ((v, u), e) ↦
      let same : u ≡ url = cc (h, lookup-pick k m, e) in (v, rw same at (IsBest-pick k m v u e))
]

-- Every raw version with a normal form has an entry under that form.
pub normalize_versions_complete :
    (m : Map Text) (v u : Text)
    → In (v, u) m
    → normalize v ≢ []
    → (url : Text) × (lookup (normalize v) (normalize_versions m) ≡ some url)
normalize_versions_complete m v u i n = elim (Option-cases (pick (normalize v) m none)) [
  | inl e ↦ let k = AtLeast-pick (normalize v) m none v u i (refl, n) in absurd (rw e at k)
  | inr ((w, x), e) ↦ (x, rw (lookup-pick, e))
]

abbrev pub SameEntries : Map Text → Map Text → Type 0
SameEntries m m' = (e : Text × Text) → In e m ↔ In e m'

-- No key stands twice with different values, as in a Go map.
abbrev pub IsFunctional : Map Text → Type 0
IsFunctional m = (v x y : Text) → In (v, x) m → In (v, y) m → x ≡ y

module _ (m m' : Map Text) (same : SameEntries m m') (k : Text) where
  none_carries : lookup k (normalize_versions m) ≡ none → lookup k (normalize_versions m') ≡ none
  none_carries h = elim (Option-cases (lookup k (normalize_versions m'))) [
    | inl e ↦ e
    | inr (url, e) ↦
        let (v, b) = normalize_versions_sound k m' url e in
        let (x, e') =
          normalize_versions_complete m v url ((same (v, url)).1 b.listed) (rw b.normal b.keyed) in
        absurd (cc (h, e', b.normal))
  ]

same_url :
    (m m' : Map Text) (k : Text)
    → IsFunctional m
    → SameEntries m m'
    → (url url' : Text) → lookup k (normalize_versions m) ≡ some url
    → lookup k (normalize_versions m') ≡ some url'
    → url ≡ url'
same_url m m' k fun same url url' e e' =
    let (v, b) = normalize_versions_sound k m url e in
    let (w, b') = normalize_versions_sound k m' url' e' in
    let here : In (w, url') m = (same (w, url')).1 b'.listed in
    let there : In (v, url) m' = (same (v, url)).0 b.listed in
    let eq : v ≡ w =
      prefer_antisym k v w (b'.best v url there b.normal) (b.best w url' here b'.normal) in
    fun w url url' (rw eq at b.listed) here

-- Two maps with the same entries have the same normalized versions, in whatever order the loop meets
-- them.
pub normalize_versions_order :
    (m m' : Map Text) (k : Text)
    → IsFunctional m
    → SameEntries m m'
    → lookup k (normalize_versions m) ≡ lookup k (normalize_versions m')
normalize_versions_order m m' k fun same = elim (Option-cases (lookup k (normalize_versions m))) [
  | inl e ↦ e ∙ sym (none_carries m m' same k e)
  | inr (url, e) ↦ elim (Option-cases (lookup k (normalize_versions m'))) [
    | inl e' ↦ none_carries m' m (λ x. ((same x).1, (same x).0)) k e' ∙ sym e'
    | inr (url', e') ↦ e ∙ ap some (same_url m m' k fun same url url' e e') ∙ sym e'
  ]
]
