-- ===== src/Version/Choice.antt =====
-- Which raw version NormalizeVersions chooses for a key, whatever the order of the map.
use wp_packages.Base.{
  ◌≡◌, true, false, not, ◌&&◌, [], ◌∷◌, Text, Map, arith, eq_text, eq_text_iff, eq_text_refl,
  lt_text_irrefl, lt_text_trans, lt_text_total, Bool-cases, inl, inr, Option, none, some, lookup,
  insert, lookup-insert, if◌then◌else◌,
}
use wp_packages.Version.{normalize, prefer_raw_version, Chosen, loses, choose, choose_all}

-- What the loop keeps for one key.
abbrev pub Entry : Type 0
Entry = Option (Text × Text)

unfoldable pub better_of : Text → Text → Text → Entry → Entry
better_of k v url none = some (v, url)
better_of k v url (some (p, u)) = if prefer_raw_version v p k then some (v, url) else some (p, u)

unfoldable pub better : Text → Text → Text → Entry → Entry
unfolding better_of
better k v url acc =
    if eq_text (normalize v) k && not (eq_text k []) then better_of k v url acc else acc

unfoldable pub pick : Text → Map Text → Entry → Entry
unfolding better
pick k [] acc = acc
pick k ((v, url) ∷ m) acc = pick k m (better k v url acc)

-- The two maps hold the kept entry at `k`.
unfoldable pub Holds : Text → Chosen → Entry → Type 0
Holds k st none = (lookup k st.chosen ≡ none) × (lookup k st.result ≡ none)
Holds k st (some (v, url)) = (lookup k st.chosen ≡ some v) × (lookup k st.result ≡ some url)

abbrev put : Text → Text → Text → Chosen → Chosen
put j v url st = record { result = insert j url st.result; chosen = insert j v st.chosen }

Holds-put_other :
    (k j v url : Text) (st : Chosen) (acc : Entry)
    → eq_text j k ≡ false
    → Holds k st acc
    → Holds k (put j v url st) acc
unfolding Holds
Holds-put_other k j v url st none e h =
    (rw (lookup-insert j k v st.chosen, e) h.0, rw (lookup-insert j k url st.result, e) h.1)
Holds-put_other k j v url st (some x) e h =
    (rw (lookup-insert j k v st.chosen, e) h.0, rw (lookup-insert j k url st.result, e) h.1)

Holds-put_self : (k v url : Text) (st : Chosen) → Holds k (put k v url st) (some (v, url))
unfolding Holds
Holds-put_self k v url st = (
  rw (lookup-insert k k v st.chosen, eq_text_refl k),
  rw (lookup-insert k k url st.result, eq_text_refl k),
)

Holds-choose_self :
    (k v url : Text) (st : Chosen) (acc : Entry)
    → normalize v ≡ k
    → eq_text k [] ≡ false
    → Holds k st acc
    → Holds k (choose v url st) (better_of k v url acc)
unfolding Holds choose better_of
Holds-choose_self k v url st none e n h =
    rw (e, n, h.0) (unfold lookup insert in Holds-put_self k v url st)
Holds-choose_self k v url st (some (p, u)) e n h = elim (Bool-cases (prefer_raw_version v p k)) [
  | inl w ↦ rw (e, n, h.0, w) (Holds-put_self k v url st)
  | inr w ↦ rw (e, n, h.0, w) h
]

Holds-choose_other :
    (k v url : Text) (st : Chosen) (acc : Entry)
    → (eq_text (normalize v) k && not (eq_text k [])) ≡ false
    → Holds k st acc
    → Holds k (choose v url st) acc
unfolding choose
Holds-choose_other k v url st acc e h = elim (Bool-cases (eq_text (normalize v) [])) [
  | inl n ↦ rw n h
  | inr n ↦ elim (Bool-cases (loses v (normalize v) (lookup (normalize v) st.chosen))) [
    | inl l ↦ rw (n, l) h
    | inr l ↦
        rw (n, l)
          (Holds-put_other k (normalize v) v url st acc
            (ground
              (arith, eq_text_iff (normalize v) k, eq_text_iff (normalize v) [], eq_text_iff k []))
            h)
  ]
]

Holds-choose :
    (k v url : Text) (st : Chosen) (acc : Entry)
    → Holds k st acc
    → Holds k (choose v url st) (better k v url acc)
unfolding better
Holds-choose k v url st acc h = elim (Bool-cases (eq_text (normalize v) k && not (eq_text k []))) [
  | inl e ↦ rw e (
      Holds-choose_self k v url st acc ((eq_text_iff (normalize v) k).0 (ground arith))
        (ground arith) h)
  | inr e ↦ rw e (Holds-choose_other k v url st acc e h)
]

pub Holds-choose_all :
    (k : Text) (m : Map Text) (st : Chosen) (acc : Entry)
    → Holds k st acc
    → Holds k (choose_all m st) (pick k m acc)
unfolding choose_all pick
Holds-choose_all k [] st acc h = h
Holds-choose_all k ((v, url) ∷ m) st acc h =
    Holds-choose_all k m (choose v url st) (better k v url acc) (Holds-choose k v url st acc h)

pub prefer_irrefl : (k v : Text) → prefer_raw_version v v k ≡ false
unfolding prefer_raw_version
prefer_irrefl k v = ground (arith, lt_text_irrefl v)

-- Not being preferred is transitive.
pub prefer_trans :
    (k u v w : Text)
    → prefer_raw_version u v k ≡ false
    → prefer_raw_version v w k ≡ false
    → prefer_raw_version u w k ≡ false
unfolding prefer_raw_version
prefer_trans k u v w h g = ground (
  arith,
  lt_text_total u v,
  lt_text_total v w,
  lt_text_trans u w v,
  lt_text_trans v u w,
  lt_text_trans w v u,
  lt_text_irrefl u,
  lt_text_irrefl v,
  eq_text_iff u k,
  eq_text_iff v k,
  eq_text_iff w k,
)

pub prefer_antisym :
    (k v w : Text) → prefer_raw_version v w k ≡ false → prefer_raw_version w v k ≡ false → v ≡ w
unfolding prefer_raw_version
prefer_antisym k v w h g = ground (arith, lt_text_total v w, eq_text_iff v k, eq_text_iff w k)

pub prefer_asym :
    (k v w : Text) → prefer_raw_version v w k ≡ true → prefer_raw_version w v k ≡ false
unfolding prefer_raw_version
prefer_asym k v w h =
    ground (arith, lt_text_trans v w v, lt_text_irrefl v, eq_text_iff v k, eq_text_iff w k)
