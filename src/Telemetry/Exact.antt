-- ===== src/Telemetry/Exact.antt =====
-- The counters of the packages after an aggregation.
use wp_packages.Base.{
  ℕ, ◌-◌, ◌*◌, ◌≡◌, refl, sym, ap, Bool, true, false, not, ◌&&◌, ◌||◌, List, [], ◌∷◌, Text, Option,
  none, some, ltb, any, filter, length, is_some, if◌then◌else◌, arith, Bool-cases, inl, inr, All,
}
use wp_packages.Telemetry.{
  Event, Monthly, Counters, Store, Outcome, AggregateResult, max_id, each, has_months, is_recent,
  sum_installs, set_totals, reset_totals, set_recent, reset_recent, prune, stage, report, recount,
  recompute, absorb, aggregate_installs, day, retention_days,
}

All-each :
    (P Q : Counters → Type 0) (f : Counters → Counters) (cs : List Counters)
    → ((c : Counters) → P c → Q (f c))
    → All P cs
    → All Q (each f cs)
All-each P Q f [] h a = tt
All-each P Q f (c ∷ cs) h (p, ps) = (h c p, All-each P Q f cs h ps)

All-any : (P : Counters → Type 0) (cs : List Counters) → ((c : Counters) → P c) → All P cs
All-any P [] h = tt
All-any P (c ∷ cs) h = (h c, All-any P cs h)

sum_installs-none :
    (p : ℕ) (rows : List Monthly) → has_months p rows ≡ false → sum_installs p rows ≡ 0
unfolding sum_installs
sum_installs-none p [] h = refl
sum_installs-none p (r ∷ rs) h = ground (arith, h, sum_installs-none p rs)

length_none : (f : Event → Bool) (es : List Event) → any f es ≡ false → length (filter f es) ≡ 0
length_none f [] h = refl
length_none f (e ∷ es) h = ground (arith, h, length_none f es)

stage-some :
    (ok : Bool) (f : Store → Store) (next : Store → Store × Option AggregateResult) (st s : Store)
    (r : AggregateResult)
    → stage ok f next st ≡ (s, some r)
    → next (f st) ≡ (s, some r)
stage-some true f next st s r h = h
stage-some false f next st s r h = cc

-- The steps 4 to 6 on a store.
abbrev recomputed : ℕ → Store → Store
recomputed now st =
    let since = now - 30 * day in
    prune (now - retention_days * day)
      (reset_recent since (set_recent since (reset_totals (set_totals st))))

abbrev pub IsExact : ℕ → List Monthly → List Event → Counters → Type 0
IsExact since monthly events c =
    (c.total ≡ sum_installs c.id monthly)
    × (c.recent ≡ length (filter (is_recent since c.id) events))

recomputed-IsExact :
    (now : ℕ) (st : Store)
    → All (IsExact (now - 30 * day) st.monthly st.events) (recomputed now st).packages
unfolding set_totals reset_totals set_recent reset_recent prune
recomputed-IsExact now st =
    let since = now - 30 * day in
    All-each SummedCounted (IsExact since st.monthly st.events) _ _ fourth (
      All-each Summed SummedCounted _ _ third (
        All-each SummedIf Summed _ _ second (
          All-each (λ c. Unit {0}) SummedIf _ _ first
            (All-any (λ c. Unit {0}) st.packages (λ c. tt)))))
  where
    SummedIf : Counters → Type 0
    SummedIf c = has_months c.id st.monthly ≡ true → c.total ≡ sum_installs c.id st.monthly

    Summed : Counters → Type 0
    Summed c = c.total ≡ sum_installs c.id st.monthly

    SummedCounted : Counters → Type 0
    SummedCounted c =
        (c.total ≡ sum_installs c.id st.monthly)
        × (any (is_recent (now - 30 * day) c.id) st.events ≡ true
            → c.recent ≡ length (filter (is_recent (now - 30 * day) c.id) st.events))

    first :
        (c : Counters)
        → Unit {0}
        → SummedIf (
            if has_months c.id st.monthly
            then record c { total = sum_installs c.id st.monthly }
            else c)
    first c u = elim (Bool-cases (has_months c.id st.monthly)) [
      | inl e ↦ rw e (λ h. refl)
      | inr e ↦ rw e (λ h. cc)
    ]

    second :
        (c : Counters)
        → SummedIf c
        → Summed (
            if (ltb 0 c.total || is_some c.last_installed_at) && not (has_months c.id st.monthly)
            then record c { total = 0; last_installed_at = none }
            else c)
    second c h = elim (Bool-cases (has_months c.id st.monthly)) [
      | inl e ↦ let k = h e in ground (arith, e, k)
      | inr e ↦ let z = sum_installs-none c.id st.monthly e in ground (arith, e, z)
    ]

    third :
        (c : Counters)
        → Summed c
        → SummedCounted (
            if any (is_recent (now - 30 * day) c.id) st.events
            then record c { recent = length (filter (is_recent (now - 30 * day) c.id) st.events) }
            else c)
    third c h = elim (Bool-cases (any (is_recent (now - 30 * day) c.id) st.events)) [
      | inl e ↦ rw e (h, λ k. refl)
      | inr e ↦ rw e (h, λ k. cc)
    ]

    fourth :
        (c : Counters)
        → SummedCounted c
        → IsExact (now - 30 * day) st.monthly st.events (
            if ltb 0 c.recent && not (any (is_recent (now - 30 * day) c.id) st.events)
            then record c { recent = 0 }
            else c)
    fourth c (t, n) = elim (Bool-cases (any (is_recent (now - 30 * day) c.id) st.events)) [
      | inl e ↦ rw e (ground (arith, t), ground (arith, n e))
      | inr e ↦
          let z = length_none (is_recent (now - 30 * day) c.id) st.events e in
          rw e (ground (arith, t), ground (arith, z))
    ]

report-some :
    (o : Outcome) (since : ℕ) (before st st' : Store) (r : AggregateResult)
    → report o since before st ≡ (st', some r)
    → st' ≡ st
report-some o since before st st' r h = elim (Bool-cases o.stats) [
  | inl e ↦ let k = rw e at h in sym (ap (λ (x : Store × Option AggregateResult). x.0) k)
  | inr e ↦ let k = rw e at h in cc
]

recompute-some :
    (o : Outcome) (now : ℕ) (st st' : Store) (r : AggregateResult)
    → recompute o now st ≡ (st', some r)
    → st' ≡ recomputed now st
recompute-some o now st st' r h =
    let since = now - 30 * day in
    let cutoff = now - retention_days * day in
    let s1 = set_totals st in
    let s2 = reset_totals s1 in
    let s3 = set_recent since s2 in
    let s4 = reset_recent since s3 in
    let h1 =
      stage-some o.totals set_totals (stage o.resets reset_totals (recount o now)) st st' r h in
    let h2 = stage-some o.resets reset_totals (recount o now) s1 st' r h1 in
    let h3 =
      stage-some o.recents (set_recent since)
        (λ s.
          stage o.zeroes (reset_recent since) (stage o.prunes (prune cutoff) (report o since s)) s)
        s2 st' r h2 in
    let h4 =
      stage-some o.zeroes (reset_recent since) (stage o.prunes (prune cutoff) (report o since s3))
        s3 st' r h3 in
    let h5 = stage-some o.prunes (prune cutoff) (report o since s3) s4 st' r h4 in
    report-some o since s3 (prune cutoff s4) st' r h5

monthly-recomputed : (now : ℕ) (st : Store) → (recomputed now st).monthly ≡ st.monthly
unfolding set_totals reset_totals set_recent reset_recent prune
monthly-recomputed now st = refl

recompute-IsExact :
    (o : Outcome) (now : ℕ) (st st' : Store) (r : AggregateResult)
    → recompute o now st ≡ (st', some r)
    → All (IsExact (now - 30 * day) st'.monthly st.events) st'.packages
recompute-IsExact o now st st' r h =
    rw (recompute-some o now st st' r h, monthly-recomputed now st) (recomputed-IsExact now st)

-- After an aggregation that returns a result, every package's total is the sum of its monthly installs, and
-- its recent count is the number of its events of the last thirty days.
pub aggregate_installs-IsExact :
    (month : ℕ → Text) (o : Outcome) (now : ℕ) (st st' : Store) (r : AggregateResult)
    → aggregate_installs month o now st ≡ (st', some r)
    → All (IsExact (now - 30 * day) st'.monthly st.events) st'.packages
unfolding aggregate_installs absorb
aggregate_installs-IsExact month o now st st' r h = elim (Bool-cases o.reads) [
  | inr e ↦ let k = rw e at h in absurd (cc)
  | inl e ↦ elim (Bool-cases (ltb st.watermark (max_id st.events))) [
    | inr f ↦ recompute-IsExact o now st st' r (rw (e, f) at h)
    | inl f ↦
        recompute-IsExact o now (absorb month st) st' r
          (stage-some o.commits (absorb month) (recompute o now) st st' r (rw (e, f) at h))
  ]
]
