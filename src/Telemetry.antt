-- ===== src/Telemetry.antt =====
-- internal/telemetry/ingest.go and aggregate.go: install events, their monthly counts and the counters of the packages. A time is a number of
-- seconds; SQLite's strftime('%Y-%m'), SHA-256 and fmt's decimals are arguments, and so is whether a
-- statement succeeds. The watermark, a decimal text in site_meta, is its number.
pub mod Counts
pub mod Exact
mod Tests
use wp_packages.Base.{
  ℕ, ◌+◌, ◌-◌, ◌*◌, ◌/◌, Bool, true, false, not, ◌&&◌, ◌||◌, List, [], ◌∷◌, ◌++◌, Text, codes,
  Option, none, some, eq_text, ltb, leb, ◌==◌, any, filter, length, is_some, if◌then◌else◌,
}
use wp_packages.Text.{split_n}
use wp_packages.Composer.{package_type}
use wp_packages.Packages.{Row, Table, has_key}

pub record Event : Type 0 where
  pub id : ℕ
  pub package_id : ℕ
  pub version : Text
  pub ip_hash : Text
  pub user_agent_hash : Text
  pub dedupe_bucket : ℕ
  pub dedupe_hash : Text
  pub created_at : ℕ

pub record InstallParams : Type 0 where
  pub package_id : ℕ
  pub version : Text
  pub ip_hash : Text
  pub user_agent_hash : Text

-- A row of monthly_installs.
pub record Monthly : Type 0 where
  pub package_id : ℕ
  pub month : Text
  pub installs : ℕ

-- The columns of a package that the aggregation reads and writes.
pub record Counters : Type 0 where
  pub id : ℕ
  pub type : Text
  pub is_active : Bool
  pub total : ℕ
  pub recent : ℕ
  pub last_installed_at : Option ℕ

pub record Store : Type 0 where
  pub events : List Event
  pub monthly : List Monthly
  pub watermark : ℕ
  pub packages : List Counters

unfoldable pub max_id : List Event → ℕ
max_id [] = 0
max_id (e ∷ es) = let m = max_id es in if ltb m e.id then e.id else m

unfoldable pub compute_dedupe_hash : (Text → Text) → (ℕ → Text) → Text → ℕ → Text → Text → Text
compute_dedupe_hash sha256 decimal ip_hash package_id version user_agent_hash =
    sha256 (ip_hash ++ (decimal package_id ++ (version ++ user_agent_hash)))

-- UNIQUE(dedupe_hash, dedupe_bucket)
abbrev pub is_duplicate : Text → ℕ → Event → Bool
is_duplicate hash bucket e = eq_text e.dedupe_hash hash && e.dedupe_bucket == bucket

abbrev pub window_of : ℕ → ℕ
window_of seconds = if seconds == 0 then 3600 else seconds

-- RecordInstall; a window of no positive length is 0. An id is one more than the highest, as SQLite
-- hands them out to an INTEGER PRIMARY KEY.
unfoldable pub record_install :
    (Text → Text) → (ℕ → Text) → ℕ → ℕ → InstallParams → Store → Store × Bool
unfolding compute_dedupe_hash max_id
record_install sha256 decimal seconds now p st =
    let bucket = now / window_of seconds in
    let hash =
      compute_dedupe_hash sha256 decimal p.ip_hash p.package_id p.version p.user_agent_hash in
    if any (is_duplicate hash bucket) st.events then (st, false) else (
      record st {
        events =
            record {
              id = max_id st.events + 1;
              package_id = p.package_id;
              version = p.version;
              ip_hash = p.ip_hash;
              user_agent_hash = p.user_agent_hash;
              dedupe_bucket = bucket;
              dedupe_hash = hash;
              created_at = now;
            }
            ∷ st.events;
      },
      true,
    )

abbrev pub id_of : Table → ℕ
id_of [] = 0
id_of (r ∷ rs) = r.id

abbrev lookup_parts : Table → List Text → ℕ
lookup_parts rows (vendor ∷ slug ∷ []) =
    if eq_text (package_type vendor) []
    then 0
    else id_of (filter (λ r. has_key (package_type vendor) slug r && r.is_active) rows)
lookup_parts rows parts = 0

-- LookupPackageID, 0 where there is no such package
unfoldable pub lookup_package_id : Text → Table → ℕ
unfolding package_type split_n
lookup_package_id composer_name rows = lookup_parts rows (split_n b'/' 1 composer_name)

abbrev pub is_month : ℕ → Text → Monthly → Bool
is_month p m r = r.package_id == p && eq_text r.month m

-- One event more in the row of its package and month.
unfoldable pub bump : ℕ → Text → List Monthly → List Monthly
bump p m [] = record { package_id = p; month = m; installs = 1 } ∷ []
bump p m (r ∷ rs) =
    if is_month p m r then record r { installs = r.installs + 1 } ∷ rs else r ∷ bump p m rs

-- A later installation moves last_installed_at.
abbrev pub touch_row : ℕ → ℕ → Counters → Counters
touch_row p t c =
    if c.id == p
    then elim c.last_installed_at [
      | none ↦ record c { last_installed_at = some t }
      | some old ↦ if ltb old t then record c { last_installed_at = some t } else c
    ]
    else c

unfoldable pub touch : ℕ → ℕ → List Counters → List Counters
touch p t [] = []
touch p t (c ∷ cs) = touch_row p t c ∷ touch p t cs

unfoldable pub sum_installs : ℕ → List Monthly → ℕ
sum_installs p [] = 0
sum_installs p (r ∷ rs) = (if r.package_id == p then r.installs else 0) + sum_installs p rs

abbrev pub has_months : ℕ → List Monthly → Bool
has_months p = any (λ (r : Monthly). r.package_id == p)

abbrev pub is_recent : ℕ → ℕ → Event → Bool
is_recent since p e = leb since e.created_at && e.package_id == p

abbrev pub each : (Counters → Counters) → List Counters → List Counters
each f [] = []
each f (c ∷ cs) = f c ∷ each f cs

-- Whether the statements of a run succeed; `commits` covers the whole transaction.
pub record Outcome : Type 0 where
  pub reads : Bool
  pub commits : Bool
  pub totals : Bool
  pub resets : Bool
  pub recents : Bool
  pub zeroes : Bool
  pub prunes : Bool
  pub stats : Bool

pub record AggregateResult : Type 0 where
  pub packages_updated : ℕ
  pub packages_reset : ℕ
  pub events_pruned : ℕ

abbrev pub day : ℕ
day = 24 * 60 * 60

-- How long raw events are kept, in days.
abbrev pub retention_days : ℕ
retention_days = 365

-- A statement, and what follows it unless it fails.
abbrev pub stage :
    Bool
    → (Store → Store)
    → (Store → Store × Option AggregateResult)
    → Store
    → Store × Option AggregateResult
stage ok f next st = if ok then next (f st) else (st, none)

unfoldable pub set_totals : Store → Store
unfolding sum_installs
set_totals st = record st {
  packages =
      each
        (λ c.
          if has_months c.id st.monthly
          then record c { total = sum_installs c.id st.monthly }
          else c)
        st.packages;
}

unfoldable pub reset_totals : Store → Store
reset_totals st = record st {
  packages =
      each
        (λ c.
          if (ltb 0 c.total || is_some c.last_installed_at) && not (has_months c.id st.monthly)
          then record c { total = 0; last_installed_at = none }
          else c)
        st.packages;
}

unfoldable pub set_recent : ℕ → Store → Store
set_recent since st = record st {
  packages =
      each
        (λ c.
          if any (is_recent since c.id) st.events
          then record c { recent = length (filter (is_recent since c.id) st.events) }
          else c)
        st.packages;
}

unfoldable pub reset_recent : ℕ → Store → Store
reset_recent since st = record st {
  packages =
      each
        (λ c.
          if ltb 0 c.recent && not (any (is_recent since c.id) st.events)
          then record c { recent = 0 }
          else c)
        st.packages;
}

unfoldable pub prune : ℕ → Store → Store
prune cutoff st = record st {
  events = filter (λ (e : Event). not (ltb e.created_at cutoff)) st.events;
}

-- RefreshSiteStats may fail, after all else is stored.
abbrev pub report : Outcome → ℕ → Store → Store → Store × Option AggregateResult
report o since before st =
    if o.stats
    then (
      st,
      some (record {
        packages_updated =
            length (filter (λ (c : Counters). has_months c.id st.monthly) st.packages);
        packages_reset = length (
            filter
              (λ (c : Counters). ltb 0 c.recent && not (any (is_recent since c.id) before.events))
              before.packages);
        events_pruned = length before.events - length st.events;
      }),
    )
    else (st, none)

-- Steps 5 and 6.
abbrev pub recount : Outcome → ℕ → Store → Store × Option AggregateResult
recount o now st =
    let since = now - 30 * day in
    stage o.recents (set_recent since)
      (λ s.
        stage o.zeroes (reset_recent since)
          (stage o.prunes (prune (now - retention_days * day)) (report o since s)) s)
      st

-- Steps 4 to 6.
abbrev pub recompute : Outcome → ℕ → Store → Store × Option AggregateResult
recompute o now = stage o.totals set_totals (stage o.resets reset_totals (recount o now))

module _ (month : ℕ → Text) where
  -- The new events in the monthly counts.
  unfoldable pub add_events : ℕ → List Event → List Monthly → List Monthly
  unfolding bump
  add_events watermark [] rows = rows
  add_events watermark (e ∷ es) rows =
      let rest = add_events watermark es rows in
      if ltb watermark e.id then bump e.package_id (month e.created_at) rest else rest

  unfoldable pub touch_events : ℕ → List Event → List Counters → List Counters
  unfolding touch
  touch_events watermark [] cs = cs
  touch_events watermark (e ∷ es) cs =
      let rest = touch_events watermark es cs in
      if ltb watermark e.id then touch e.package_id e.created_at rest else rest

  -- The transaction of step 3.
  unfoldable pub absorb : Store → Store
  unfolding add_events touch_events max_id
  absorb st = record st {
    monthly = add_events st.watermark st.events st.monthly;
    packages = touch_events st.watermark st.events st.packages;
    watermark = max_id st.events;
  }

  -- AggregateInstalls; the result is missing where it returns an error.
  unfoldable pub aggregate_installs : Outcome → ℕ → Store → Store × Option AggregateResult
  unfolding absorb set_totals reset_totals set_recent reset_recent prune max_id
  aggregate_installs o now st =
      if o.reads
      then (if ltb st.watermark (max_id st.events)
          then stage o.commits absorb (recompute o now) st
          else recompute o now st)
      else (st, none)
