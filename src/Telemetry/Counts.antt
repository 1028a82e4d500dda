-- ===== src/Telemetry/Counts.antt =====
-- The monthly counts beside the events that were recorded.
use wp_packages.Base.{
  ℕ, ◌+◌, ◌-◌, ◌*◌, ◌≤◌, ◌<◌, ◌/◌, ◌≡◌, refl, sym, ap, ◌∙◌, Bool, true, false, not, ◌&&◌, List, [],
  ◌∷◌, Text, Option, none, some, eq_text, eq_text_iff, ltb, ◌==◌, any, filter, if◌then◌else◌, arith,
  Bool-cases, inl, inr, ◌⊎◌,
}
use wp_packages.Telemetry.{
  Event, Monthly, Store, InstallParams, Outcome, AggregateResult, max_id, compute_dedupe_hash,
  is_duplicate, window_of, record_install, is_month, bump, add_events, absorb, set_totals,
  reset_totals, set_recent, reset_recent, prune, aggregate_installs, stage, day, retention_days,
  recompute, recount, report,
}

-- The installs that the rows of a month count.
unfoldable pub installs_of : ℕ → Text → List Monthly → ℕ
installs_of p m [] = 0
installs_of p m (r ∷ rs) = (if is_month p m r then r.installs else 0) + installs_of p m rs

installs_of-bump :
    (p q : ℕ) (m n : Text) (rows : List Monthly)
    → installs_of p m (bump q n rows)
      ≡ (if q == p && eq_text n m then 1 else 0) + installs_of p m rows
unfolding installs_of bump
installs_of-bump p q m n [] = ground arith
installs_of-bump p q m n (r ∷ rs) = ground (
  arith,
  installs_of-bump p q m n rs,
  eq_text_iff r.month n,
  eq_text_iff r.month m,
  eq_text_iff n m,
)

abbrev pub is_new : ℕ → Event → Bool
is_new watermark e = ltb watermark e.id

module _ (month : ℕ → Text) where
  -- The events of a package and month that are above the watermark.
  unfoldable pub pending : ℕ → Text → ℕ → List Event → ℕ
  pending p m watermark [] = 0
  pending p m watermark (e ∷ es) =
      (if ltb watermark e.id && (e.package_id == p && eq_text (month e.created_at) m) then 1 else 0)
      + pending p m watermark es

  installs_of-add_events :
      (p : ℕ) (m : Text) (watermark : ℕ) (es : List Event) (rows : List Monthly)
      → installs_of p m (add_events month watermark es rows)
        ≡ pending p m watermark es + installs_of p m rows
  unfolding add_events pending
  installs_of-add_events p m w [] rows = omega arith
  installs_of-add_events p m w (e ∷ es) rows = ground (
    arith,
    installs_of-add_events p m w es rows,
    installs_of-bump p e.package_id m (month e.created_at) (add_events month w es rows),
  )

  pending-high : (p : ℕ) (m : Text) (w : ℕ) (es : List Event) → max_id es ≤ w → pending p m w es ≡ 0
  unfolding pending max_id
  pending-high p m w [] h = refl
  pending-high p m w (e ∷ es) h = ground (arith, pending-high p m w es)

  pending-filter :
      (p : ℕ) (m : Text) (w : ℕ) (keep : Event → Bool) (es : List Event)
      → pending p m w es ≡ 0
      → pending p m w (filter keep es) ≡ 0
  unfolding pending
  pending-filter p m w keep [] h = refl
  pending-filter p m w keep (e ∷ es) h = elim (Bool-cases (keep e)) [
    | inl k ↦ rw k (ground (arith, h, pending-filter p m w keep es))
    | inr k ↦ rw k (ground (arith, h, pending-filter p m w keep es))
  ]

stage_keeps :
    (P : Store → Type 0) (ok : Bool) (f : Store → Store)
    (next : Store → Store × Option AggregateResult) (st : Store)
    → P st
    → P (next (f st)).0
    → P (stage ok f next st).0
stage_keeps P true f next st h k = k
stage_keeps P false f next st h k = h

report_keeps :
    (P : Store → Type 0) (o : Outcome) (since : ℕ) (before st : Store)
    → P st
    → P (report o since before st).0
report_keeps P o since before st h = elim (Bool-cases o.stats) [ inl e ↦ rw e h | inr e ↦ rw e h ]

-- The steps behind the transaction read the monthly counts and the watermark, and only remove events.
recompute_keeps :
    (P : List Monthly → ℕ → List Event → Type 0)
    → ((rows : List Monthly) (w : ℕ) (keep : Event → Bool) (es : List Event)
        → P rows w es
        → P rows w (filter keep es))
    → (o : Outcome) (now : ℕ) (st : Store) → P st.monthly st.watermark st.events
    → (let st' = (recompute o now st).0 in P st'.monthly st'.watermark st'.events)
unfolding set_totals reset_totals set_recent reset_recent prune
recompute_keeps P closed o now st h =
    let Q : Store → Type 0 = λ s. P s.monthly s.watermark s.events in
    let since = now - 30 * day in
    let cutoff = now - retention_days * day in
    let s1 = set_totals st in
    let s2 = reset_totals s1 in
    let s3 = set_recent since s2 in
    let s4 = reset_recent since s3 in
    let pruned = closed st.monthly st.watermark (λ e. not (ltb e.created_at cutoff)) st.events h in
    let k5 = report_keeps Q o since s3 (prune cutoff s4) pruned in
    let k4 = stage_keeps Q o.prunes (prune cutoff) (report o since s3) s4 h k5 in
    let k3 =
      stage_keeps Q o.zeroes (reset_recent since)
        (stage o.prunes (prune cutoff) (report o since s3)) s3 h k4 in
    let k2 =
      stage_keeps Q o.recents (set_recent since)
        (λ s.
          stage o.zeroes (reset_recent since) (stage o.prunes (prune cutoff) (report o since s)) s)
        s2 h k3 in
    let k1 = stage_keeps Q o.resets reset_totals (recount o now) s1 h k2 in
    stage_keeps Q o.totals set_totals (stage o.resets reset_totals (recount o now)) st h k1

pub data Op : Type 0 where
  install : ℕ → ℕ → InstallParams → Op
  aggregate : Outcome → ℕ → Op

module _ (sha256 : Text → Text) (decimal : ℕ → Text) (month : ℕ → Text) where
  unfoldable pub apply : Op → Store → Store
  apply (install seconds now params) st = (record_install sha256 decimal seconds now params st).0
  apply (aggregate o now) st = (aggregate_installs month o now st).0

  unfoldable pub run : List Op → Store → Store
  unfolding apply
  run [] st = st
  run (op ∷ ops) st = run ops (apply op st)

  -- How many events of a package and month a run records.
  unfoldable pub recorded : ℕ → Text → List Op → Store → ℕ
  unfolding apply
  recorded p m [] st = 0
  recorded p m (install seconds now params ∷ ops) st =
      (if (record_install sha256 decimal seconds now params st).1
          && (params.package_id == p && eq_text (month now) m)
        then 1
        else 0)
      + recorded p m ops (apply (install seconds now params) st)
  recorded p m (aggregate o now ∷ ops) st = recorded p m ops (apply (aggregate o now) st)

  -- No step removes the event with the highest id.
  abbrev pub KeepsNewest : List Op → Store → Type 0
  KeepsNewest [] st = Unit
  KeepsNewest (op ∷ ops) st =
      (max_id st.events ≤ max_id (apply op st).events) × KeepsNewest ops (apply op st)

  module _ (p : ℕ) (m : Text) where
    -- All that was counted and all that is still to be.
    abbrev pub balance : Store → ℕ
    balance st = installs_of p m st.monthly + pending month p m st.watermark st.events

    -- Every event is counted, and the watermark is not above `high`.
    abbrev pub Settled : ℕ → ℕ → Store → Type 0
    Settled n high st =
        (installs_of p m st.monthly ≡ n)
        × (pending month p m st.watermark st.events ≡ 0)
        × (st.watermark ≤ high)

    recompute-Settled :
        (n high : ℕ) (o : Outcome) (now : ℕ) (st : Store)
        → Settled n high st
        → Settled n high (recompute o now st).0
    recompute-Settled n high =
        recompute_keeps
          (λ rows w es. (installs_of p m rows ≡ n) × (pending month p m w es ≡ 0) × (w ≤ high))
          (λ rows w keep es h. (h.0, pending-filter month p m w keep es h.1, h.2))

    -- A run of the aggregation leaves the counts and events alone, and reports an error, or it
    -- settles them.
    aggregate_outcomes :
        (o : Outcome) (now : ℕ) (st : Store)
        → st.watermark ≤ max_id st.events
        → ((aggregate_installs month o now st ≡ (st, none)))
          ⊎ Settled (balance st) (max_id st.events) (aggregate_installs month o now st).0
    unfolding aggregate_installs absorb
    aggregate_outcomes o now st w = elim (Bool-cases o.reads) [
      | inr r ↦ inl (rw r refl)
      | inl r ↦ elim (Bool-cases (ltb st.watermark (max_id st.events))) [
        | inl new ↦ elim (Bool-cases o.commits) [
          | inr c ↦ inl (rw (r, new, c) refl)
          | inl c ↦
              let absorbed : Settled (balance st) (max_id st.events) (absorb month st) = (
                omega (arith, installs_of-add_events month p m st.watermark st.events st.monthly),
                pending-high month p m (max_id st.events) st.events (omega arith),
                omega arith,
              ) in
              inr (
                rw (r, new, c)
                  (recompute-Settled (balance st) (max_id st.events) o now (absorb month st)
                    absorbed))
        ]
        | inr old ↦
            let none_new : pending month p m st.watermark st.events ≡ 0 =
              pending-high month p m st.watermark st.events (ground arith) in
            inr (
              rw (r, old)
                (recompute-Settled (balance st) (max_id st.events) o now st
                  (omega (arith, none_new), none_new, w)))
      ]
    ]

    -- A step keeps the balance, but for the event that it records.
    balance-apply :
        (op : Op) (st : Store)
        → st.watermark ≤ max_id st.events
        → balance (apply op st) ≡ recorded p m (op ∷ []) st + balance st
    unfolding recorded apply record_install pending
    balance-apply (install seconds now params) st w = ground arith
    balance-apply (aggregate o now) st w = elim (aggregate_outcomes o now st w) [
      | inl e ↦ omega (arith, ap (λ (r : Store × Option AggregateResult). balance r.0) e)
      | inr s ↦ omega (arith, s.0, s.1)
    ]

    watermark-apply :
        (op : Op) (st : Store)
        → st.watermark ≤ max_id st.events
        → (apply op st).watermark ≤ max_id st.events
    unfolding apply record_install
    watermark-apply (install seconds now params) st w = ground arith
    watermark-apply (aggregate o now) st w = elim (aggregate_outcomes o now st w) [
      | inl e ↦ omega (arith, ap (λ (r : Store × Option AggregateResult). r.0.watermark) e)
      | inr s ↦ s.2
    ]

    balance-run :
        (ops : List Op) (st : Store)
        → st.watermark ≤ max_id st.events
        → KeepsNewest ops st
        → (balance (run ops st) ≡ recorded p m ops st + balance st)
          × ((run ops st).watermark ≤ max_id (run ops st).events)
    unfolding run recorded
    balance-run [] st w k = (omega arith, w)
    balance-run (install seconds now params ∷ ops) st w k =
        let op = install seconds now params in
        let (b, v) =
          balance-run ops (apply op st) (omega (arith, watermark-apply op st w, k.0)) k.1 in
        (omega (arith, b, balance-apply op st w), v)
    balance-run (aggregate o now ∷ ops) st w k =
        let op = aggregate o now in
        let (b, v) =
          balance-run ops (apply op st) (omega (arith, watermark-apply op st w, k.0)) k.1 in
        (omega (arith, b, balance-apply op st w), v)

    -- However recordings, aggregations and failures of aggregations follow one another, once an
    -- aggregation succeeds the monthly counts have grown by exactly the events of the package and
    -- month that were recorded and by those that waited at the start, provided that the watermark is
    -- at first no higher than the highest id and that no step removes the event with the highest id.
    pub aggregate_installs-run :
        (ops : List Op) (st : Store) (o : Outcome) (now : ℕ) (r : AggregateResult)
        → st.watermark ≤ max_id st.events
        → KeepsNewest ops st
        → (aggregate_installs month o now (run ops st)).1 ≡ some r
        → installs_of p m (aggregate_installs month o now (run ops st)).0.monthly
          ≡ recorded p m ops st
            + (installs_of p m st.monthly + pending month p m st.watermark st.events)
    aggregate_installs-run ops st o now r w k h =
        let (b, v) = balance-run ops st w k in
        elim (aggregate_outcomes o now (run ops st) v) [
          | inl e ↦ absurd (
              let n : some r ≡ none = sym h ∙ ap (λ (x : Store × Option AggregateResult). x.1) e in
              cc)
          | inr s ↦ s.0 ∙ b
        ]

  aggregate_nothing_new :
      (o : Outcome) (now : ℕ) (st : Store)
      → max_id st.events ≤ st.watermark
      → (aggregate_installs month o now st).0.monthly ≡ st.monthly
  unfolding aggregate_installs
  aggregate_nothing_new o now st h = elim (Bool-cases o.reads) [
    | inr r ↦ rw r refl
    | inl r ↦
        let old : ltb st.watermark (max_id st.events) ≡ false = ground arith in
        rw (r, old)
          (recompute_keeps (λ rows w es. rows ≡ st.monthly) (λ rows w keep es k. k) o now st refl)
  ]

  -- A store whose events were all removed, as by an aggregation after the retention time: the next
  -- event gets an id under the watermark again and is left out of the monthly counts.
  pub aggregate_installs_lost :
      (st : Store) (seconds now later : ℕ) (params : InstallParams) (o : Outcome)
      → st.events ≡ []
      → 0 < st.watermark
      → ((record_install sha256 decimal seconds now params st).1 ≡ true)
        × ((aggregate_installs month o later
              (record_install sha256 decimal seconds now params st).0).0.monthly
            ≡ st.monthly)
  unfolding record_install
  aggregate_installs_lost st seconds now later params o e w =
      let st' = (record_install sha256 decimal seconds now params st).0 in
      let fresh : any
            (is_duplicate
              (compute_dedupe_hash sha256 decimal params.ip_hash params.package_id params.version
                params.user_agent_hash)
              (now / window_of seconds))
            st.events
          ≡ false =
        rw e refl in
      let low : max_id st'.events ≤ st.watermark = rw (fresh, e) (unfold max_id in ground arith) in
      let same : st'.watermark ≡ st.watermark = rw fresh refl in
      let kept : st'.monthly ≡ st.monthly = rw fresh refl in
      (rw fresh refl, aggregate_nothing_new o later st' (omega (arith, low, same)) ∙ kept)
