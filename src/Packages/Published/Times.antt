-- ===== src/Packages/Published/Times.antt =====
-- What a merge, a reset and a backfill make of the times of a package.
use wp_packages.Base.{
  ℕ, suc, ◌≡◌, ◌≢◌, ◌⊎◌, ◌≤◌, refl, ap, ◌∙◌, Bool, true, false, not, ◌&&◌, List, [], ◌∷◌, Text, Map,
  codes, Option, none, some, sym, lt_text, any, eq_text, eq_text_iff, lookup, lookup-insert,
  is_some, if◌then◌else◌, arith, Bool-cases, inl, inr, In, eq_text_refl,
}
use wp_packages.Text.{or_else}
use wp_packages.Version.{normalize, dev_trunk}
use wp_packages.Packages.Published.{
  stamp_version, stamp_versions, is_reset, reset_times, tagged_date, backfill_date, backfill_times,
  times_of, merge_published_times,
}

abbrev pub first_of : Option Text → Option Text → Option Text
first_of none b = b
first_of (some a) b = some a

-- The time of a version that had none.
abbrev pub stamp_if : Bool → Text → Option Text
stamp_if b stamp = if b then some stamp else none

lookup-stamp_version :
    (stamp ver key : Text) (times : Map Text)
    → lookup key (stamp_version stamp ver times)
      ≡ first_of
          (lookup key times)
          (stamp_if (eq_text ver key && not (eq_text key dev_trunk)) stamp)
lookup-stamp_version stamp ver key times = elim (Bool-cases (eq_text ver key)) [
  | inl e ↦
      rw ((eq_text_iff ver key).0 e)
        (ground (arith, lookup-insert key key stamp times, eq_text_refl key))
  | inr e ↦ ground (arith, lookup-insert ver key stamp times, e)
]

lookup-stamp_versions :
    (stamp key : Text) (versions times : Map Text)
    → lookup key (stamp_versions stamp versions times)
      ≡ first_of
          (lookup key times)
          (stamp_if (is_some (lookup key versions) && not (eq_text key dev_trunk)) stamp)
unfolding stamp_versions lookup
lookup-stamp_versions stamp key [] times = ground arith
lookup-stamp_versions stamp key ((ver, url) ∷ versions) times =
    lookup-stamp_versions stamp key versions (stamp_version stamp ver times)
    ∙ (ap
          (λ o.
            first_of o
              (stamp_if (is_some (lookup key versions) && not (eq_text key dev_trunk)) stamp))
          (lookup-stamp_version stamp ver key times)
        ∙ ground arith)

abbrev pub stamp_time : Bool → List Text → Text → Text → Option Text → Option Text
stamp_time reset_all to_reset stamp key none = none
stamp_time reset_all to_reset stamp key (some prev) =
    some (if is_reset reset_all to_reset stamp key prev then stamp else prev)

pub lookup-reset_times :
    (reset_all : Bool) (to_reset : List Text) (stamp : Text) (times : Map Text) (key : Text)
    → lookup key (reset_times reset_all to_reset stamp times).0
      ≡ stamp_time reset_all to_reset stamp key (lookup key times)
unfolding reset_times lookup
lookup-reset_times reset_all to_reset stamp [] key = refl
lookup-reset_times reset_all to_reset stamp ((k, prev) ∷ times) key =
    let rest = lookup-reset_times reset_all to_reset stamp times key in
    elim (Bool-cases (is_reset reset_all to_reset stamp k prev)) [
      | inl e ↦ ground (arith, eq_text_iff k key, e, rest)
      | inr e ↦ ground (arith, eq_text_iff k key, e, rest)
    ]

-- A reset is for all versions, or the normalized key is one of the versions, and the time is before the
-- stamp.
abbrev pub IsReset : Bool → List Text → Text → Text → Text → Type 0
IsReset reset_all to_reset stamp key prev =
    ((reset_all ≡ true) ⊎ In (normalize key) to_reset) × (lt_text prev stamp ≡ true)

In-any : (x : Text) (ys : List Text) → any (eq_text x) ys ≡ true → In x ys
In-any x [] h = absurd (cc)
In-any x (y ∷ ys) h = elim (Bool-cases (eq_text x y)) [
  | inl e ↦ inl (sym ((eq_text_iff x y).0 e))
  | inr e ↦ inr (In-any x ys (ground (arith, e, h)))
]

any-In : (x : Text) (ys : List Text) → In x ys → any (eq_text x) ys ≡ true
any-In x [] i = absurd i
any-In x (y ∷ ys) (inl e) = ground (arith, eq_text_iff x y, e)
any-In x (y ∷ ys) (inr i) = ground (arith, any-In x ys i)

is_reset-IsReset :
    (reset_all : Bool) (to_reset : List Text) (stamp key prev : Text)
    → is_reset reset_all to_reset stamp key prev ≡ true
    → IsReset reset_all to_reset stamp key prev
unfolding is_reset
is_reset-IsReset true to_reset stamp key prev h = (inl refl, ground (arith, h))
is_reset-IsReset false to_reset stamp key prev h =
    (inr (In-any (normalize key) to_reset (ground (arith, h))), ground (arith, h))

is_reset-missing :
    (reset_all : Bool) (to_reset : List Text) (stamp key prev : Text)
    → is_reset reset_all to_reset stamp key prev ≡ false
    → ¬ IsReset reset_all to_reset stamp key prev
unfolding is_reset
is_reset-missing true to_reset stamp key prev h (w, before) =
    let f : true ≡ false = ground (arith, h, before) in cc
is_reset-missing false to_reset stamp key prev h (inl e, before) = cc
is_reset-missing false to_reset stamp key prev h (inr i, before) =
    let f : true ≡ false = ground (arith, h, before, any-In (normalize key) to_reset i) in cc

-- The time of a key before and after a reset.
abbrev pub Stamped : Bool → List Text → Text → Text → Option Text → Option Text → Type 0
Stamped reset_all to_reset stamp key old new =
    ((old ≡ none) × (new ≡ none))
    ⊎ ((prev : Text) × (old ≡ some prev)
        × ((IsReset reset_all to_reset stamp key prev × (new ≡ some stamp))
            ⊎ (¬ IsReset reset_all to_reset stamp key prev × (new ≡ some prev))))

-- What a reset that counts `n` makes of the times.
pub data Resets (reset_all : Bool) (to_reset : List Text) (stamp : Text)
    : Map Text → Map Text → ℕ → Type 0 where
  done : Resets reset_all to_reset stamp [] [] 0
  stamped :
      {key prev : Text} {times new : Map Text} {n : ℕ}
      → IsReset reset_all to_reset stamp key prev
      → Resets reset_all to_reset stamp times new n
      → Resets reset_all to_reset stamp ((key, prev) ∷ times) ((key, stamp) ∷ new) (suc n)
  kept :
      {key prev : Text} {times new : Map Text} {n : ℕ}
      → ¬ IsReset reset_all to_reset stamp key prev
      → Resets reset_all to_reset stamp times new n
      → Resets reset_all to_reset stamp ((key, prev) ∷ times) ((key, prev) ∷ new) n

reset_times-Resets :
    (reset_all : Bool) (to_reset : List Text) (stamp : Text) (times : Map Text)
    → Resets reset_all to_reset stamp times
        (reset_times reset_all to_reset stamp times).0
        (reset_times reset_all to_reset stamp times).1
unfolding reset_times
reset_times-Resets reset_all to_reset stamp [] = done
reset_times-Resets reset_all to_reset stamp ((key, prev) ∷ times) =
    let rest = reset_times-Resets reset_all to_reset stamp times in
    elim (Bool-cases (is_reset reset_all to_reset stamp key prev)) [
      | inl e ↦ rw e (stamped (is_reset-IsReset reset_all to_reset stamp key prev e) rest)
      | inr e ↦ rw e (kept (is_reset-missing reset_all to_reset stamp key prev e) rest)
    ]

stamp_time-Stamped :
    (reset_all : Bool) (to_reset : List Text) (stamp key : Text) (old : Option Text)
    → Stamped reset_all to_reset stamp key old (stamp_time reset_all to_reset stamp key old)
stamp_time-Stamped reset_all to_reset stamp key none = inl (refl, refl)
stamp_time-Stamped reset_all to_reset stamp key (some prev) =
    elim (Bool-cases (is_reset reset_all to_reset stamp key prev)) [
      | inl e ↦
          rw e (inr (prev, refl, inl (is_reset-IsReset reset_all to_reset stamp key prev e, refl)))
      | inr e ↦
          rw e (inr (prev, refl, inr (is_reset-missing reset_all to_reset stamp key prev e, refl)))
    ]

-- A reset replaces by the stamp the times of exactly those versions whose time is before the stamp and
-- whose normalized key is to be reset, of all versions where all are, and keeps every other time and
-- every version, entry by entry and as they are looked up. It counts what it replaced.
pub reset_times_lem :
    (reset_all : Bool) (to_reset : List Text) (stamp : Text) (times : Map Text)
    → let (new, n) = reset_times reset_all to_reset stamp times in
      Resets reset_all to_reset stamp times new n
      × ((key : Text) → Stamped reset_all to_reset stamp key (lookup key times) (lookup key new))
reset_times_lem reset_all to_reset stamp times = (
  reset_times-Resets reset_all to_reset stamp times,
  λ key.
      rw (lookup-reset_times reset_all to_reset stamp times key)
        (stamp_time-Stamped reset_all to_reset stamp key (lookup key times)),
)

module _ (decode : Text → Option (Map Text)) (encode : Map Text → Text) where
  -- A merge returns no times exactly for a package that has versions and no times yet. For any other it
  -- returns the encoding of the old times, with the stamp for every other version but dev-trunk. The
  -- new versions decode; old times that do not are none.
  pub merge_published_times_lem :
      (new_json old_json : Text) (old : Option Text) (stamp : Text) (versions : Map Text)
      → decode new_json ≡ some versions
      → ((merge_published_times decode encode new_json old_json old stamp ≡ some none)
          × (old ≡ none)
          × (old_json ≢ [])
          × (old_json ≢ codes "{}"))
        ⊎ (¬ ((old ≡ none) × (old_json ≢ []) × (old_json ≢ codes "{}"))
            × (times : Map Text) × (merge_published_times decode encode new_json old_json old stamp
                ≡ some (some (encode times)))
            × ((key : Text)
                → lookup key times
                  ≡ first_of (lookup key (times_of decode encode old)) (
                      stamp_if
                        (is_some (lookup key versions) && not (eq_text key dev_trunk))
                        stamp)))
  unfolding merge_published_times
  merge_published_times_lem new_json old_json (some json) stamp versions h = inr (
    λ w. absurd (cc (w.0)),
    stamp_versions stamp versions (or_else (decode json) []),
    rw h refl,
    λ key. lookup-stamp_versions stamp key versions (or_else (decode json) []),
  )
  merge_published_times_lem new_json old_json none stamp versions h =
      elim (Bool-cases (not (eq_text old_json []) && not (eq_text old_json (codes "{}")))) [
        | inl e ↦ inl (
          rw e refl,
          refl,
          λ q. ground (arith, eq_text_iff old_json [], e, q),
          λ q. ground (arith, eq_text_iff old_json (codes "{}"), e, q),
        )
        | inr e ↦ inr (
          λ w.
              let f : true ≡ false =
                ground (
                  arith,
                  e,
                  eq_text_iff old_json [],
                  eq_text_iff old_json (codes "{}"),
                  w.1,
                  w.2,
                ) in
              cc,
          stamp_versions stamp versions [],
          rw (e, h) refl,
          λ key. lookup-stamp_versions stamp key versions [],
        )
      ]

tagged_date-In :
    (tag ver : Text) (date : ℕ) (tags : Map ℕ)
    → In (tag, date) tags
    → normalize tag ≡ ver
    → ver ≢ []
    → date ≤ tagged_date tags ver
unfolding tagged_date
tagged_date-In tag ver date [] i e n = elim i [ ]
tagged_date-In tag ver date ((t, d) ∷ tags) (inl q) e n =
    let same_tag : t ≡ tag = ap (λ (x : Text × ℕ). x.0) q in
    let same_date : d ≡ date = ap (λ (x : Text × ℕ). x.1) q in
    let found : eq_text (normalize t) ver ≡ true =
      (eq_text_iff (normalize t) ver).1 (ap normalize same_tag ∙ e) in
    let named : eq_text (normalize t) [] ≡ false =
      ground (arith, eq_text_iff (normalize t) [], eq_text_iff (normalize t) ver, found, n) in
    ground (arith, found, named, same_date)
tagged_date-In tag ver date ((t, d) ∷ tags) (inr j) e n =
    let rest = tagged_date-In tag ver date tags j e n in ground (arith, rest)

lookup-backfill_times :
    (format : ℕ → Text) (baseline all_time : ℕ) (tags : Map ℕ) (versions : Map Text) (ver : Text)
    → lookup ver (backfill_times format baseline all_time tags versions)
      ≡ stamp_if
          (is_some (lookup ver versions) && not (eq_text ver dev_trunk))
          (format (backfill_date baseline all_time tags ver))
unfolding backfill_times lookup
lookup-backfill_times format baseline all_time tags [] ver = refl
lookup-backfill_times format baseline all_time tags ((v, url) ∷ versions) ver =
    let rest = lookup-backfill_times format baseline all_time tags versions ver in
    elim (Bool-cases (eq_text v ver)) [
      | inl e ↦ rw ((eq_text_iff v ver).0 e) (ground (arith, eq_text_refl ver, rest))
      | inr e ↦ ground (arith, e, rest)
    ]

-- A backfill gives every version but dev-trunk a time, that of a date which is not before the
-- baseline, the date for all tags, or the date of a tag that stands for the version.
pub backfill_times_lem :
    (format : ℕ → Text) (baseline all_time : ℕ) (tags : Map ℕ) (versions : Map Text) (ver : Text)
    → is_some (lookup ver versions) ≡ true
    → ver ≢ dev_trunk
    → (date : ℕ) × (lookup ver (backfill_times format baseline all_time tags versions)
        ≡ some (format date))
      × (baseline ≤ date)
      × (all_time ≤ date)
      × ((tag : Text) (d : ℕ)
          → In (tag, d) tags
          → normalize tag ≡ normalize ver
          → normalize ver ≢ []
          → d ≤ date)
unfolding backfill_date
backfill_times_lem format baseline all_time tags versions ver h n = (
  backfill_date baseline all_time tags ver,
  lookup-backfill_times format baseline all_time tags versions ver
      ∙ ground (arith, h, n, eq_text_iff ver dev_trunk),
  ground arith,
  ground arith,
  λ tag d i e m.
      let bound = tagged_date-In tag (normalize ver) d tags i e m in ground (arith, bound),
)
