-- ===== src/Telemetry/Tests.antt =====
-- Installs of one package, counted by aggregations that fail and that succeed.
use wp_packages.Base.{
  ℕ, All, ◌-◌, ◌+◌, ◌*◌, ◌/◌, ◌≡◌, refl, true, false, List, [], ◌∷◌, Text, codes, some, none,
  eq_text, arith,
}
use wp_packages.Telemetry.{
  Store, InstallParams, Outcome, Counters, max_id, record_install, compute_dedupe_hash, bump, touch,
  sum_installs, add_events, touch_events, absorb, set_totals, reset_totals, set_recent,
  reset_recent, prune, aggregate_installs, day,
}
use wp_packages.Telemetry.Counts.{
  Op, install, aggregate, apply, run, recorded, installs_of, pending, aggregate_installs-run,
  aggregate_installs_lost,
}
use wp_packages.Telemetry.Exact.{IsExact, aggregate_installs-IsExact}

telemetry_code : Unit {0}
unfolding record_install compute_dedupe_hash max_id bump touch sum_installs add_events touch_events
    absorb set_totals reset_totals set_recent reset_recent prune aggregate_installs apply run
    recorded installs_of pending eq_text
telemetry_code = tt

abbrev sha256 : Text → Text
sha256 t = t

abbrev decimal : ℕ → Text
decimal n = n ∷ []

abbrev month : ℕ → Text
month t = (t / (30 * day)) ∷ []

abbrev visitor : Text → InstallParams
visitor ip = record { package_id = 4; version = codes "1.0"; ip_hash = ip; user_agent_hash = [] }

abbrev all_well : Outcome
all_well = record {
  reads = true;
  commits = true;
  totals = true;
  resets = true;
  recents = true;
  zeroes = true;
  prunes = true;
  stats = true;
}

abbrev akismet : Counters
akismet = record {
  id = 4;
  type = codes "plugin";
  is_active = true;
  total = 0;
  recent = 0;
  last_installed_at = none;
}

abbrev empty : Store
empty = record { events = []; monthly = []; watermark = 0; packages = akismet ∷ [] }

-- The second install of the first visitor is a duplicate; the first aggregation is not committed, and
-- the second one fails behind the transaction.
abbrev ops : List Op
ops =
    install 3600 100 (visitor (codes "a"))
    ∷ aggregate (record all_well { commits = false }) 150
    ∷ install 3600 200 (visitor (codes "a"))
    ∷ install 3600 300 (visitor (codes "b"))
    ∷ aggregate (record all_well { recents = false }) 400
    ∷ install 3600 500 (visitor (codes "c"))
    ∷ []

runs :
    ((aggregate_installs month all_well 600 (run sha256 decimal month ops empty)).1
      ≡ some (record { packages_updated = 1; packages_reset = 0; events_pruned = 0 }))
    × (recorded sha256 decimal month 4 (month 100) ops empty ≡ 3)
unfolding telemetry_code
runs = (refl, refl)

aggregate_installs-run_example :
    installs_of 4
      (month 100)
      (aggregate_installs month all_well 600 (run sha256 decimal month ops empty)).0.monthly
    ≡ recorded sha256 decimal month 4 (month 100) ops empty
      + (installs_of 4 (month 100) [] + pending month 4 (month 100) 0 [])
unfolding telemetry_code
aggregate_installs-run_example =
    aggregate_installs-run sha256 decimal month 4 (month 100) ops empty all_well 600
      (record { packages_updated = 1; packages_reset = 0; events_pruned = 0 }) (omega arith)
      (omega arith) (runs.0)

abbrev pruned : Store
pruned = record { events = []; monthly = []; watermark = 9; packages = akismet ∷ [] }

aggregate_installs_lost_example :
    ((record_install sha256 decimal 3600 100 (visitor (codes "a")) pruned).1 ≡ true)
    × ((aggregate_installs month all_well 200
          (record_install sha256 decimal 3600 100 (visitor (codes "a")) pruned).0).0.monthly
        ≡ [])
aggregate_installs_lost_example =
    aggregate_installs_lost sha256 decimal month pruned 3600 100 200 (visitor (codes "a")) all_well
      refl (omega arith)

abbrev counted : Store
counted = (aggregate_installs month all_well 600 (run sha256 decimal month ops empty)).0

counted_run :
    aggregate_installs month all_well 600 (run sha256 decimal month ops empty)
    ≡ (counted, some (record { packages_updated = 1; packages_reset = 0; events_pruned = 0 }))
unfolding telemetry_code
counted_run = refl

aggregate_installs-IsExact_example :
    All
      (IsExact (600 - 30 * day) counted.monthly (run sha256 decimal month ops empty).events)
      counted.packages
aggregate_installs-IsExact_example =
    aggregate_installs-IsExact month all_well 600 (run sha256 decimal month ops empty) counted
      (record { packages_updated = 1; packages_reset = 0; events_pruned = 0 }) counted_run
