-- ===== src/Discover/Progress.antt =====
-- A changelog that answers, and the revision that a run stores.
use wp_packages.Base.{
  ℕ, zero, suc, ◌+◌, ◌≡◌, ◌≤◌, ◌<◌, refl, Bool, true, false, ◌&&◌, [], ◌∷◌, Text, Map, Option, some,
  ltb, leb, arith, Bool-cases, inl, inr, lookup-insert, eq_text_refl,
}
use wp_packages.Svn.Log.{SvnLog}
use wp_packages.Svn.Tags.{TagChangeSet, tag_changes}
use wp_packages.Packages.{Table, mark_packages_changed}
use wp_packages.Packages.Published.{reset_published_times}
use wp_packages.Discover.{
  Stored, revision, Db, get_meta, set_meta, Ending, finished, fetch_failed, write_failed,
  out_of_fuel, next, is_empty, chunk_end, World, reset_chunk, mark_chunk, scan_chunk, scan,
  store_cursor, finish_at, mark_changed_from_svn_log,
}
use wp_packages.Discover.Cursor.{
  IsPassed, scan-IsPassed, scan-goes_on, scan-finished, IsPassed-refl,
}

module _ (decode : Text → Option (Map Text)) (encode : Map Text → Text) (world : World)
    (pkg_type : Text) where
  -- The REPORT answers every range with a log up to its end, and no write fails.
  abbrev pub IsUpToDate : Type 0
  IsUpToDate =
      ((from to : ℕ)
        → from ≤ to
        → (log : SvnLog) × (world.fetch from to ≡ some log) × (log.max_rev ≡ to))
      × ((cursor : ℕ) → world.reset_fails cursor ≡ false)
      × ((cursor : ℕ) → world.mark_fails cursor ≡ false)

  reset_chunk-some :
      (cursor : ℕ) (changes : TagChangeSet) (rows : Table)
      → world.reset_fails cursor ≡ false
      → (t : Table) × (reset_chunk decode encode world pkg_type cursor changes rows ≡ some t)
  unfolding reset_chunk
  reset_chunk-some cursor changes rows h =
      elim (Bool-cases (is_empty changes.tags && is_empty changes.all)) [
        | inl e ↦ (rows, rw e refl)
        | inr e ↦ (
          (reset_published_times decode encode (world.now cursor) (world.stamp cursor) pkg_type
              changes rows).0,
          rw (e, h) refl,
        )
      ]

  mark_chunk-some :
      (cursor : ℕ) (revs : Map ℕ) (rows : Table)
      → world.mark_fails cursor ≡ false
      → (t : Table) × (mark_chunk decode encode world pkg_type cursor revs rows ≡ some t)
  unfolding mark_chunk
  mark_chunk-some cursor [] rows h = (rows, refl)
  mark_chunk-some cursor (r ∷ revs) rows h =
      (mark_packages_changed (world.now cursor) pkg_type (r ∷ revs) rows, rw h refl)

  scan_chunk-next :
      (current cursor : ℕ) (rows : Table)
      → IsUpToDate
      → cursor < current
      → (t : Table) × (scan_chunk decode encode world pkg_type current cursor rows
          ≡ next (chunk_end cursor current) t)
  unfolding scan_chunk
  scan_chunk-next current cursor rows (answers, resets, marks) h =
      let (log, f, m) = answers (suc cursor) (chunk_end cursor current) (ground (arith, h)) in
      let (t, r) =
        reset_chunk-some cursor (tag_changes pkg_type log.commits) rows (resets cursor) in
      let (u, k) = mark_chunk-some cursor log.slug_revisions t (marks cursor) in
      let ahead : leb (chunk_end cursor current) cursor ≡ false = ground (arith, h) in
      let whole : ltb (chunk_end cursor current) (chunk_end cursor current) ≡ false =
        ground arith in
      (u, rw (f, r, k, m, ahead, whole) refl)

  -- Where the REPORT answers every range up to its end and no write fails, a scan with fuel for the
  -- revisions that are left ends without an error at the current revision.
  pub scan_catches_up :
      (fuel current cursor : ℕ) (rows : Table)
      → IsUpToDate
      → cursor ≤ current
      → current ≤ fuel + cursor
      → let s = scan decode encode world pkg_type fuel current cursor rows in
        (s.cursor ≡ current) × (s.ending ≡ finished)
  scan_catches_up zero current cursor rows up le h =
      rw (scan-finished decode encode world pkg_type 0 current cursor rows (ground (arith, h)))
        (omega (arith, le, h), refl)
  scan_catches_up (suc fuel) current cursor rows up le h = elim (Bool-cases (ltb cursor current)) [
    | inr e ↦
        rw (scan-finished decode encode world pkg_type (suc fuel) current cursor rows e)
          (ground (arith, le, e), refl)
    | inl e ↦
        let (t, q) = scan_chunk-next current cursor rows up (ground (arith, e)) in
        rw (scan-goes_on decode encode world pkg_type fuel current cursor rows e, q)
          (scan_catches_up fuel current (chunk_end cursor current) t up (ground (arith, e))
            (ground (arith, e, h)))
  ]

  get_meta-set_meta :
      (key : Text) (value : Stored) (db : Db) → get_meta key (set_meta key value db) ≡ value
  get_meta-set_meta key value db =
      rw (lookup-insert key key value db.site_meta, eq_text_refl key) refl

  -- The stored revision is not below another, and every revision between the two was read.
  abbrev pub IsStored : Text → ℕ → ℕ → Db → Type 0
  IsStored meta_key current last db =
      (w : ℕ) × (get_meta meta_key db ≡ revision w)
      × IsPassed decode encode world pkg_type current last w

  store_cursor-IsStored :
      (meta_key : Text) (current last c : ℕ) (failed : Bool) (db : Db)
      → get_meta meta_key db ≡ revision last
      → IsPassed decode encode world pkg_type current last c
      → IsStored meta_key current last
          (store_cursor decode encode world pkg_type meta_key c failed db).0
  store_cursor-IsStored meta_key current last c failed db h p = elim (Bool-cases world.set_fails) [
    | inl e ↦ rw e (last, h, IsPassed-refl decode encode world pkg_type current last)
    | inr e ↦ rw e (c, get_meta-set_meta meta_key (revision c) db, p)
  ]

  finish_at-IsStored :
      (meta_key : Text) (current last : ℕ) (db : Db) (c : ℕ) (e : Ending)
      → get_meta meta_key db ≡ revision last
      → IsPassed decode encode world pkg_type current last c
      → IsStored meta_key current last
          (finish_at decode encode world pkg_type meta_key last db c e).0
  finish_at-IsStored meta_key current last db c finished h p =
      store_cursor-IsStored meta_key current last c false db h p
  finish_at-IsStored meta_key current last db c fetch_failed h p = elim (Bool-cases (ltb last c)) [
    | inl e ↦ rw e (store_cursor-IsStored meta_key current last c true db h p)
    | inr e ↦ rw e (last, h, IsPassed-refl decode encode world pkg_type current last)
  ]
  finish_at-IsStored meta_key current last db c write_failed h p =
      (last, h, IsPassed-refl decode encode world pkg_type current last)
  finish_at-IsStored meta_key current last db c out_of_fuel h p =
      (last, h, IsPassed-refl decode encode world pkg_type current last)

  -- A run that finds a stored revision leaves one that is not lower, errors included, and every
  -- revision between the two is in a log that was read.
  pub mark_changed_from_svn_log-IsStored :
      (meta_key : Text) (current n : ℕ) (db : Db)
      → get_meta meta_key db ≡ revision (suc n)
      → IsStored meta_key current
          (suc n)
          (mark_changed_from_svn_log decode encode world pkg_type meta_key current db).0
  unfolding mark_changed_from_svn_log
  mark_changed_from_svn_log-IsStored meta_key current n db h =
      let s = scan decode encode world pkg_type current current (suc n) db.rows in
      rw (mark_changed_from_svn_log, h)
        (finish_at-IsStored meta_key current (suc n) (record db { rows = s.rows }) s.cursor s.ending
          h (scan-IsPassed decode encode world pkg_type current current (suc n) db.rows))
