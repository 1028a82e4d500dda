-- ===== src/Discover/Batches.antt =====
-- cmd/wppackages/cmd/discover.go: discoverFromSVN, the entries of a listing in batches of shell packages,
-- and runBackfillRevisions. The clock is taken to stand while a listing is read.
pub mod Laws
use wp_packages.Base.{
  ℕ, zero, suc, ◌+◌, ◌-◌, Bool, true, false, not, ◌&&◌, ◌||◌, List, [], ◌∷◌, ◌++◌, Text, Map, codes,
  Option, none, some, eq_text, ltb, leb, ◌==◌, length, is_some, filter, if◌then◌else◌,
}
use wp_packages.Packages.{
  Row, Table, ShellEntry, upsert_shell_package, batch_upsert_shell_packages,
  backfill_trunk_revisions,
}
use wp_packages.Discover.{World, Db, mark_changed_from_svn_log, is_empty}

abbrev pub svn_batch_size : ℕ
svn_batch_size = 500

pub record SvnEntry : Type 0 where
  pub slug : Text
  pub last_committed : Option ℕ

pub record Progress : Type 0 where
  pub rows : Table
  pub next_id : ℕ
  pub batch : List ShellEntry
  pub count : ℕ
  pub total : ℕ
  pub failed : ℕ

abbrev pub shell_of : Text → SvnEntry → ShellEntry
shell_of pkg_type e = record { type = pkg_type; name = e.slug; last_committed = e.last_committed }

-- Which writes fail: the batch that is written when so many entries were read, a package by its slug.
module _ (now : ℕ) (batch_fails : ℕ → Bool) (upsert_fails : Text → Bool) where
  unfoldable pub upsert_each : List ShellEntry → Progress → Progress
  unfolding upsert_shell_package
  upsert_each [] p = p
  upsert_each (e ∷ es) p = upsert_each es (
      if upsert_fails e.name
      then record p { failed = suc p.failed; count = p.count - 1 }
      else record p { rows = upsert_shell_package p.next_id now e p.rows; next_id = suc p.next_id })

  unfoldable pub flush : Progress → Progress
  unfolding upsert_each batch_upsert_shell_packages
  flush p =
      if is_empty p.batch
      then p
      else if batch_fails p.total
      then record (upsert_each p.batch p) { batch = [] }
      else record p {
        rows = batch_upsert_shell_packages p.next_id now p.batch p.rows;
        next_id = p.next_id + length p.batch;
        batch = [];
      }

  abbrev pub at_limit : ℕ → ℕ → Bool
  at_limit limit total = ltb 0 limit && leb limit total

  abbrev pub push : Text → SvnEntry → Progress → Progress
  push pkg_type e p = record p {
    batch = p.batch ++ shell_of pkg_type e ∷ [];
    count = suc p.count;
    total = suc p.total;
  }

  abbrev pub flush_full : Progress → Progress
  flush_full p = if leb svn_batch_size (length p.batch) then flush p else p

  -- The callback on the entries, until it returns errLimitReached.
  unfoldable pub add_entries : ℕ → Text → List SvnEntry → Progress → Progress
  unfolding flush
  add_entries limit pkg_type [] p = p
  add_entries limit pkg_type (e ∷ es) p =
      let rest = add_entries limit pkg_type es (flush_full (push pkg_type e p)) in
      if at_limit limit p.total then p else rest

  unfoldable pub read_source : ℕ → Text → List SvnEntry → Progress → Progress
  unfolding add_entries
  read_source limit pkg_type es p = flush (add_entries limit pkg_type es p)

-- What ParseSVNListing does with a source: the entries it passes on, the revision, and whether it fails.
pub record SvnListing : Type 0 where
  pub entries : List SvnEntry
  pub found_revision : ℕ
  pub fails : Bool

pub record SvnSource : Type 0 where
  pub pkg_type : Text
  pub meta_key : Text
  pub listing : SvnListing
  pub world : World

pub record Discovery : Type 0 where
  pub db : Db
  pub next_id : ℕ
  pub total : ℕ
  pub failed : ℕ
  pub error : Bool

module _ (decode : Text → Option (Map Text)) (encode : Map Text → Text) (now : ℕ)
    (batch_fails : ℕ → Bool) (upsert_fails : Text → Bool) where
  abbrev pub source_started : Discovery → Progress
  source_started d = record {
    rows = d.db.rows;
    next_id = d.next_id;
    batch = [];
    count = 0;
    total = d.total;
    failed = 0;
  }

  abbrev pub marked : ℕ → SvnSource → Db → Db
  marked limit s db =
      if limit == 0 && ltb 0 s.listing.found_revision
      then (mark_changed_from_svn_log decode encode s.world s.pkg_type s.meta_key
          s.listing.found_revision db).0
      else db

  -- A listing fails only where the limit did not end it before.
  unfoldable pub discover_sources : ℕ → List SvnSource → Discovery → Discovery
  unfolding read_source mark_changed_from_svn_log
  discover_sources limit [] d = d
  discover_sources limit (s ∷ sources) d =
      let p =
        read_source now batch_fails upsert_fails limit s.pkg_type s.listing.entries
          (source_started d) in
      let read = record d.db { rows = p.rows } in
      let here : Discovery = record {
        db = marked limit s read;
        next_id = p.next_id;
        total = p.total;
        failed = d.failed + p.failed;
        error = false;
      } in
      let rest = discover_sources limit sources here in
      if s.listing.fails && p.total == d.total + length s.listing.entries
      then record d { db = read; next_id = p.next_id; total = p.total; error = true }
      else if ltb 0 limit && leb limit p.total
      then here
      else rest

  -- The statistics are refreshed where no listing failed; failed upserts are an error at the end.
  unfoldable pub discover_from_svn : ℕ → Bool → List SvnSource → Discovery → Discovery
  unfolding discover_sources
  discover_from_svn limit stats_fail sources d =
      let r = discover_sources limit sources d in
      if r.error then r else record r { error = stats_fail || ltb 0 r.failed }

-- Packages that runBackfillRevisions counts.
unfoldable pub lacks_revision : Row → Bool
lacks_revision r =
    r.is_active && (eq_text r.type (codes "plugin") && not (is_some r.trunk_revision))

-- The rounds of runBackfillRevisions backwards from a revision. A range that fails three times is skipped.
-- The statement counts the rows it changes, so what is left is counted again.
unfoldable pub backfill_rounds : (ℕ → ℕ → Option (Map ℕ)) → ℕ → ℕ → ℕ → Table → Table
unfolding backfill_trunk_revisions lacks_revision
backfill_rounds fetch chunk zero from rows = rows
backfill_rounds fetch chunk (suc fuel) from rows =
    let to = if ltb 1 (from - chunk) then from - chunk else 1 in
    let written : Table = elim (fetch to from) [
      | none ↦ rows
      | some revs ↦ backfill_trunk_revisions revs rows
    ] in
    let rest = backfill_rounds fetch chunk fuel (to - 1) written in
    if ltb 0 from && ltb 0 (length (filter lacks_revision rows)) then rest else rows
