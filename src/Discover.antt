-- ===== src/Discover.antt =====
-- cmd/wppackages/cmd/discover.go: discovery from Subversion. `Listing` has the batches of shell
-- packages, this file the scan of the changelog. The REPORT is an argument: its answers differ in time,
-- but a run asks for each range once. So is what of the database fails, and the time, at each cursor.
pub mod Batches
pub mod Cursor
pub mod Progress
mod Tests
use wp_packages.Base.{
  ℕ, zero, suc, ◌+◌, ◌-◌, Bool, true, false, not, ◌&&◌, ◌||◌, List, [], ◌∷◌, Text, Map, codes,
  Option, none, some, eq_text, lookup, insert, ltb, leb, ◌==◌, is_some, if◌then◌else◌,
}
use wp_packages.Text.{or_else}
use wp_packages.Svn.Log.{SvnLog}
use wp_packages.Svn.Tags.{TagChangeSet, tag_changes}
use wp_packages.Packages.{Table, mark_packages_changed, backfill_trunk_revisions}
use wp_packages.Packages.Published.{reset_published_times}

abbrev pub svn_log_chunk_size : ℕ
svn_log_chunk_size = 10000

-- A value of site_meta as strconv.ParseInt reads it.
pub data Stored : Type 0 where
  missing : Stored
  malformed : Text → Stored
  revision : ℕ → Stored

pub record Db : Type 0 where
  pub rows : Table
  pub site_meta : Map Stored

abbrev pub get_meta : Text → Db → Stored
get_meta key db = or_else (lookup key db.site_meta) missing

abbrev pub set_meta : Text → Stored → Db → Db
set_meta key value db = record db { site_meta = insert key value db.site_meta }

pub data Ending : Type 0 where
  finished : Ending
  fetch_failed : Ending
  write_failed : Ending
  out_of_fuel : Ending

-- Where a scan stands when it ends.
pub record Scan : Type 0 where
  pub cursor : ℕ
  pub rows : Table
  pub ending : Ending

pub data Step : Type 0 where
  stop : Scan → Step
  next : ℕ → Table → Step

abbrev pub is_empty {ℓ} : {A : Type ℓ} → List A → Bool
is_empty [] = true
is_empty (x ∷ xs) = false

abbrev pub chunk_end : ℕ → ℕ → ℕ
chunk_end cursor current =
    if ltb current (cursor + svn_log_chunk_size) then current else cursor + svn_log_chunk_size

-- What the world answers in a run.
pub record World : Type 0 where
  pub fetch : ℕ → ℕ → Option SvnLog
  pub reset_fails : ℕ → Bool
  pub mark_fails : ℕ → Bool
  pub set_fails : Bool
  pub now : ℕ → ℕ
  pub stamp : ℕ → Text

module _ (decode : Text → Option (Map Text)) (encode : Map Text → Text) (world : World)
    (pkg_type : Text) where
  unfoldable pub reset_chunk : ℕ → TagChangeSet → Table → Option Table
  unfolding reset_published_times
  reset_chunk cursor changes rows =
      if is_empty changes.tags && is_empty changes.all
      then some rows
      else if world.reset_fails cursor
      then none
      else some
          (reset_published_times decode encode (world.now cursor) (world.stamp cursor) pkg_type
            changes rows).0

  unfoldable pub mark_chunk : ℕ → Map ℕ → Table → Option Table
  unfolding mark_packages_changed
  mark_chunk cursor slug_revisions rows =
      if is_empty slug_revisions
      then some rows
      else if world.mark_fails cursor
      then none
      else some (mark_packages_changed (world.now cursor) pkg_type slug_revisions rows)

  abbrev pub ended : ℕ → Table → Ending → Step
  ended cursor rows ending = stop (record { cursor = cursor; rows = rows; ending = ending })

  -- The end of the loop's body, on the highest revision of the log.
  abbrev pub move_cursor : ℕ → ℕ → ℕ → Table → Step
  move_cursor current cursor max_rev rows =
      if leb max_rev cursor
      then ended cursor rows finished
      else if ltb max_rev (chunk_end cursor current)
      then ended max_rev rows finished
      else next max_rev rows

  abbrev pub marked_chunk : ℕ → ℕ → ℕ → Table → Option Table → Step
  marked_chunk current cursor max_rev reset none = ended cursor reset write_failed
  marked_chunk current cursor max_rev reset (some rows) = move_cursor current cursor max_rev rows

  abbrev pub reset_then_mark : ℕ → ℕ → SvnLog → Table → Option Table → Step
  reset_then_mark current cursor log rows none = ended cursor rows write_failed
  reset_then_mark current cursor log rows (some reset) =
      marked_chunk current cursor log.max_rev reset (mark_chunk cursor log.slug_revisions reset)

  abbrev pub fetched_chunk : ℕ → ℕ → Table → Option SvnLog → Step
  fetched_chunk current cursor rows none = ended cursor rows fetch_failed
  fetched_chunk current cursor rows (some log) =
      reset_then_mark current cursor log rows
        (reset_chunk cursor (tag_changes pkg_type log.commits) rows)

  -- The body of the loop.
  unfoldable pub scan_chunk : ℕ → ℕ → Table → Step
  unfolding reset_chunk mark_chunk tag_changes
  scan_chunk current cursor rows =
      fetched_chunk current cursor rows (world.fetch (suc cursor) (chunk_end cursor current))

  unfoldable pub scan : ℕ → ℕ → ℕ → Table → Scan
  unfolding scan_chunk
  scan zero current cursor rows = record {
    cursor = cursor;
    rows = rows;
    ending = if ltb cursor current then out_of_fuel else finished;
  }
  scan (suc fuel) current cursor rows =
      if ltb cursor current
      then elim (scan_chunk current cursor rows) [
        | stop s ↦ s
        | next cursor rows ↦ scan fuel current cursor rows
      ]
      else record { cursor = cursor; rows = rows; ending = finished }

  -- The database, and whether an error is returned.
  abbrev pub store_cursor : Text → ℕ → Bool → Db → Db × Bool
  store_cursor meta_key cursor failed db =
      if world.set_fails then (db, true) else (set_meta meta_key (revision cursor) db, failed)

  abbrev pub finish_at : Text → ℕ → Db → ℕ → Ending → Db × Bool
  finish_at meta_key last db cursor finished = store_cursor meta_key cursor false db
  finish_at meta_key last db cursor fetch_failed =
      if ltb last cursor then store_cursor meta_key cursor true db else (db, true)
  finish_at meta_key last db cursor write_failed = (db, true)
  finish_at meta_key last db cursor out_of_fuel = (db, true)

  -- What follows the loop, or leaves it.
  abbrev pub finish_scan : Text → ℕ → Db → Scan → Db × Bool
  finish_scan meta_key last db s =
      finish_at meta_key last (record db { rows = s.rows }) s.cursor s.ending

  abbrev pub from_revision : Text → ℕ → Db → ℕ → Db × Bool
  from_revision meta_key current db zero = store_cursor meta_key current false db
  from_revision meta_key current db (suc n) =
      finish_scan meta_key (suc n) db (scan current current (suc n) db.rows)

  -- The fuel is the current revision: a cursor advances in every round.
  unfoldable pub mark_changed_from_svn_log : Text → ℕ → Db → Db × Bool
  unfolding scan insert
  mark_changed_from_svn_log meta_key current db = elim (get_meta meta_key db) [
    | missing ↦ from_revision meta_key current db 0
    | malformed t ↦ (db, true)
    | revision last ↦ from_revision meta_key current db last
  ]
