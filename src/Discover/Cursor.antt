-- ===== src/Discover/Cursor.antt =====
-- The cursor of a scan.
use wp_packages.Base.{
  ℕ, zero, suc, ◌+◌, ◌≡◌, ◌≢◌, ◌≤◌, ◌<◌, ◌⊎◌, refl, subst, sym, true, false, Text, Map, Option,
  none, some, ltb, leb, arith, Bool-cases, inl, inr,
}
use wp_packages.Svn.Log.{SvnLog}
use wp_packages.Svn.Tags.{tag_changes}
use wp_packages.Packages.{Table}
use wp_packages.Discover.{
  finished, out_of_fuel, Scan, Step, stop, next, chunk_end, World, reset_chunk, mark_chunk,
  move_cursor, marked_chunk, reset_then_mark, fetched_chunk, scan_chunk, scan,
}

module _ (decode : Text → Option (Map Text)) (encode : Map Text → Text) (world : World)
    (pkg_type : Text) where
  -- The log of a range that starts behind the cursor holds a revision.
  abbrev pub IsCovered : ℕ → ℕ → Type 0
  IsCovered current r =
      (cursor : ℕ) × (log : SvnLog) × (world.fetch (suc cursor) (chunk_end cursor current)
        ≡ some log)
      × (cursor < r)
      × (r ≤ log.max_rev)

  -- What a round comes to: it stops at the cursor, or at the highest revision of the log it read, or
  -- goes on from there, where that is the end of its range or behind it.
  abbrev RoundOf : ℕ → ℕ → Step → Type 0
  RoundOf current cursor (stop s) =
      (s.ending ≢ out_of_fuel)
      × ((s.cursor ≡ cursor)
          ⊎ ((log : SvnLog) × (world.fetch (suc cursor) (chunk_end cursor current) ≡ some log)
              × (cursor < s.cursor)
              × (s.cursor ≡ log.max_rev)))
  RoundOf current cursor (next c rows) =
      (log : SvnLog) × (world.fetch (suc cursor) (chunk_end cursor current) ≡ some log)
      × (cursor < c)
      × (c ≡ log.max_rev)

  move_cursor-RoundOf :
      (current cursor : ℕ) (log : SvnLog) (rows : Table)
      → world.fetch (suc cursor) (chunk_end cursor current) ≡ some log
      → RoundOf current cursor
          (move_cursor decode encode world pkg_type current cursor log.max_rev rows)
  move_cursor-RoundOf current cursor log rows h = elim (Bool-cases (leb log.max_rev cursor)) [
    | inl e ↦ rw e (cc, inl refl)
    | inr e ↦ elim (Bool-cases (ltb log.max_rev (chunk_end cursor current))) [
      | inl f ↦ rw (e, f) (cc, inr (log, h, ground (arith, e), refl))
      | inr f ↦ rw (e, f) (log, h, ground (arith, e), refl)
    ]
  ]

  fetched_chunk-RoundOf :
      (current cursor : ℕ) (rows : Table) (o : Option SvnLog)
      → world.fetch (suc cursor) (chunk_end cursor current) ≡ o
      → RoundOf current cursor (fetched_chunk decode encode world pkg_type current cursor rows o)
  fetched_chunk-RoundOf current cursor rows none h = (cc, inl refl)
  fetched_chunk-RoundOf current cursor rows (some log) h =
      reset
        (reset_chunk decode encode world pkg_type cursor (tag_changes pkg_type log.commits) rows)
    where
      marked :
          (reset : Table) (o : Option Table)
          → RoundOf current cursor
              (marked_chunk decode encode world pkg_type current cursor log.max_rev reset o)
      marked reset none = (cc, inl refl)
      marked reset (some rows) = move_cursor-RoundOf current cursor log rows h

      reset :
          (o : Option Table)
          → RoundOf current cursor
              (reset_then_mark decode encode world pkg_type current cursor log rows o)
      reset none = (cc, inl refl)
      reset (some t) =
          marked t (mark_chunk decode encode world pkg_type cursor log.slug_revisions t)

  scan_chunk-RoundOf :
      (current cursor : ℕ) (rows : Table)
      → RoundOf current cursor (scan_chunk decode encode world pkg_type current cursor rows)
  unfolding scan_chunk
  scan_chunk-RoundOf current cursor rows =
      fetched_chunk-RoundOf current cursor rows
        (world.fetch (suc cursor) (chunk_end cursor current)) refl

  abbrev pub goes_on : ℕ → ℕ → Step → Scan
  goes_on fuel current (stop s) = s
  goes_on fuel current (next c rows) = scan decode encode world pkg_type fuel current c rows

  pub scan-goes_on :
      (fuel current cursor : ℕ) (rows : Table)
      → ltb cursor current ≡ true
      → scan decode encode world pkg_type (suc fuel) current cursor rows
        ≡ goes_on fuel current (scan_chunk decode encode world pkg_type current cursor rows)
  unfolding scan
  scan-goes_on fuel current cursor rows h = rw h refl

  pub scan-finished :
      (fuel current cursor : ℕ) (rows : Table)
      → ltb cursor current ≡ false
      → scan decode encode world pkg_type fuel current cursor rows
        ≡ record { cursor = cursor; rows = rows; ending = finished }
  unfolding scan
  scan-finished zero current cursor rows h = rw h refl
  scan-finished (suc fuel) current cursor rows h = rw h refl

  -- A scan with fuel for the revisions that are left ends in one of the ways of the code.
  pub scan_terminates :
      (fuel current cursor : ℕ) (rows : Table)
      → current ≤ fuel + cursor
      → (scan decode encode world pkg_type fuel current cursor rows).ending ≢ out_of_fuel
  scan_terminates zero current cursor rows h =
      let e : ltb cursor current ≡ false = ground (arith, h) in
      rw (scan-finished zero current cursor rows e) cc
  scan_terminates (suc fuel) current cursor rows h = elim (Bool-cases (ltb cursor current)) [
    | inr e ↦ rw (scan-finished (suc fuel) current cursor rows e) cc
    | inl e ↦ rw (scan-goes_on fuel current cursor rows e) (
        go (λ c rows lt. scan_terminates fuel current c rows (omega (arith, h, lt)))
          (scan_chunk decode encode world pkg_type current cursor rows)
          (scan_chunk-RoundOf current cursor rows))
  ]
    where
      go :
          ((c : ℕ) (rows : Table)
            → cursor < c
            → (scan decode encode world pkg_type fuel current c rows).ending ≢ out_of_fuel)
          → (st : Step) → RoundOf current cursor st
          → (goes_on fuel current st).ending ≢ out_of_fuel
      go rest (stop s) r = r.0
      go rest (next c rows) (log, f, lt, m) = rest c rows lt

  -- From one cursor to another, every revision is in a log that was read.
  abbrev pub IsPassed : ℕ → ℕ → ℕ → Type 0
  IsPassed current cursor last =
      (cursor ≤ last) × ((r : ℕ) → cursor < r → r ≤ last → IsCovered current r)

  pub IsPassed-refl : (current cursor : ℕ) → IsPassed current cursor cursor
  IsPassed-refl current cursor = (omega arith, λ r a b. elim (no_more r a b) [ ])
    where
      no_more : (r : ℕ) → cursor < r → r ≤ cursor → ⊥
      no_more r a b = omega (arith, a, b)

  IsPassed-next :
      (current cursor c last : ℕ) (log : SvnLog)
      → world.fetch (suc cursor) (chunk_end cursor current) ≡ some log
      → cursor < c
      → c ≡ log.max_rev
      → IsPassed current c last
      → IsPassed current cursor last
  IsPassed-next current cursor c last log f lt m (le, rest) = (
    omega (arith, lt, le),
    λ r a b. elim (Bool-cases (leb r c)) [
      | inl e ↦ (cursor, log, f, a, ground (arith, e, m))
      | inr e ↦ rest r (ground (arith, e)) b
    ],
  )

  IsPassed-goes_on :
      (fuel current cursor : ℕ)
      → ((c : ℕ) (rows : Table)
          → IsPassed current c (scan decode encode world pkg_type fuel current c rows).cursor)
      → (st : Step) → RoundOf current cursor st
      → IsPassed current cursor (goes_on fuel current st).cursor
  IsPassed-goes_on fuel current cursor rest (stop s) (n, inl e) =
      subst (IsPassed current cursor) (sym e) (IsPassed-refl current cursor)
  IsPassed-goes_on fuel current cursor rest (stop s) (n, inr (log, f, lt, m)) =
      IsPassed-next current cursor s.cursor s.cursor log f lt m (IsPassed-refl current s.cursor)
  IsPassed-goes_on fuel current cursor rest (next c rows) (log, f, lt, m) =
      IsPassed-next current cursor c (scan decode encode world pkg_type fuel current c rows).cursor
        log f lt m (rest c rows)

  -- The cursor of a scan never falls, and every revision that it passes is in a log that was read.
  pub scan-IsPassed :
      (fuel current cursor : ℕ) (rows : Table)
      → IsPassed current cursor (scan decode encode world pkg_type fuel current cursor rows).cursor
  unfolding scan
  scan-IsPassed zero current cursor rows = IsPassed-refl current cursor
  scan-IsPassed (suc fuel) current cursor rows = elim (Bool-cases (ltb cursor current)) [
    | inr e ↦ rw e (IsPassed-refl current cursor)
    | inl e ↦ rw (scan-goes_on fuel current cursor rows e) (
        IsPassed-goes_on fuel current cursor (scan-IsPassed fuel current)
          (scan_chunk decode encode world pkg_type current cursor rows)
          (scan_chunk-RoundOf current cursor rows))
  ]
