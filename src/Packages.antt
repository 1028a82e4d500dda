-- ===== src/Packages.antt =====
-- internal/packages/package.go: the packages table and the statements that read and write it. A row
-- has the columns that the statements test; a nullable column is an option. A time column holds an
-- RFC 3339 text in UTC, whose order is that of time: here it is a number of seconds.
pub mod Closed
pub mod Keys
pub mod Freshness
pub mod Published
mod Tests
use wp_packages.Base.{
  ℕ, ◌+◌, ◌*◌, Bool, true, false, not, ◌&&◌, ◌||◌, List, [], ◌∷◌, Text, codes, Option, none, some,
  eq_text, ltb, ◌==◌, if◌then◌else◌, map, filter, any, is_some, length,
}

-- The columns that an upsert takes from the API whatever the old row held. The rating is a value
-- that no statement looks into.
pub record Listing : Type 0 where
  pub display_name : Option Text
  pub description : Option Text
  pub author : Option Text
  pub homepage : Option Text
  pub slug_url : Option Text
  pub versions_json : Text
  pub downloads : ℕ
  pub active_installs : ℕ
  pub current_version : Option Text
  pub wporg_version : Option Text
  pub rating : Option Text
  pub num_ratings : ℕ

pub record Row : Type 0 where
  pub id : ℕ
  pub type : Text
  pub name : Text
  pub listing : Listing
  pub is_active : Bool
  pub permanently_closed : Bool
  pub last_committed : Option ℕ
  pub last_synced_at : Option ℕ
  pub last_sync_run_id : Option ℕ
  pub trunk_revision : Option ℕ
  pub content_hash : Option Text
  pub deployed_hash : Option Text
  pub content_changed_at : Option ℕ
  pub published_times_json : Option Text
  pub created_at : ℕ
  pub updated_at : ℕ

abbrev pub Table : Type 0
Table = List Row

abbrev pub has_key : Text → Text → Row → Bool
has_key t n r = eq_text r.type t && eq_text r.name n

-- UPDATE packages SET … WHERE …
unfoldable pub update_where : (Row → Bool) → (Row → Row) → Table → Table
update_where p f [] = []
update_where p f (r ∷ rs) = (if p r then f r else r) ∷ update_where p f rs

-- The argument of an upsert: the columns that it names.
pub record Package : Type 0 where
  pub type : Text
  pub name : Text
  pub listing : Listing
  pub is_active : Bool
  pub last_committed : Option ℕ
  pub last_synced_at : Option ℕ
  pub last_sync_run_id : Option ℕ
  pub content_hash : Option Text
  pub content_changed_at : Option ℕ
  pub published_times_json : Option Text

-- COALESCE(new, old)
abbrev pub coalesce {ℓ} : {A : Type ℓ} → Option A → Option A → Option A
coalesce none old = old
coalesce (some a) old = some a

-- CASE WHEN excluded.last_committed > COALESCE(packages.last_committed, '') …
unfoldable pub later : Option ℕ → Option ℕ → Option ℕ
later none old = old
later (some a) none = some a
later (some a) (some b) = if ltb b a then some a else some b

unfoldable pub new_row : ℕ → ℕ → Package → Row
new_row id now p = record {
  id = id;
  type = p.type;
  name = p.name;
  listing = p.listing;
  is_active = p.is_active;
  permanently_closed = false;
  last_committed = p.last_committed;
  last_synced_at = p.last_synced_at;
  last_sync_run_id = p.last_sync_run_id;
  trunk_revision = none;
  content_hash = p.content_hash;
  deployed_hash = none;
  content_changed_at = p.content_changed_at;
  published_times_json = p.published_times_json;
  created_at = now;
  updated_at = now;
}

unfoldable pub merge_row : ℕ → Package → Row → Row
unfolding later
merge_row now p r = record r {
  listing = p.listing;
  is_active = p.is_active;
  last_committed = later p.last_committed r.last_committed;
  last_synced_at = coalesce p.last_synced_at r.last_synced_at;
  last_sync_run_id = coalesce p.last_sync_run_id r.last_sync_run_id;
  content_hash = coalesce p.content_hash r.content_hash;
  content_changed_at = coalesce p.content_changed_at r.content_changed_at;
  published_times_json = coalesce p.published_times_json r.published_times_json;
  updated_at = now;
}

-- INSERT … ON CONFLICT(type, name) DO UPDATE, with the row that is inserted and the one that a
-- conflict leaves; `id` is the key that the database hands out.
unfoldable pub upsert : Text → Text → Row → (Row → Row) → Table → Table
upsert t n fresh merge [] = fresh ∷ []
upsert t n fresh merge (r ∷ rs) =
    if has_key t n r then merge r ∷ rs else r ∷ upsert t n fresh merge rs

unfoldable pub upsert_package : ℕ → ℕ → Package → Table → Table
unfolding new_row merge_row upsert
upsert_package id now p = upsert p.type p.name (new_row id now p) (merge_row now p)

-- BatchUpsertPackages: one transaction, so all or nothing.
unfoldable pub batch_upsert_packages : ℕ → ℕ → List Package → Table → Table
unfolding upsert_package
batch_upsert_packages id now [] rows = rows
batch_upsert_packages id now (p ∷ ps) rows =
    batch_upsert_packages (id + 1) now ps (upsert_package id now p rows)

pub record ShellEntry : Type 0 where
  pub type : Text
  pub name : Text
  pub last_committed : Option ℕ

abbrev empty_listing : Listing
empty_listing = record {
  display_name = none;
  description = none;
  author = none;
  homepage = none;
  slug_url = none;
  versions_json = codes "{}";
  downloads = 0;
  active_installs = 0;
  current_version = none;
  wporg_version = none;
  rating = none;
  num_ratings = 0;
}

unfoldable pub shell_row : ℕ → ℕ → ShellEntry → Row
shell_row id now e = record {
  id = id;
  type = e.type;
  name = e.name;
  listing = empty_listing;
  is_active = true;
  permanently_closed = false;
  last_committed = e.last_committed;
  last_synced_at = none;
  last_sync_run_id = none;
  trunk_revision = none;
  content_hash = none;
  deployed_hash = none;
  content_changed_at = none;
  published_times_json = none;
  created_at = now;
  updated_at = now;
}

-- The update of a conflict has WHERE packages.permanently_closed = 0.
unfoldable pub merge_shell : ℕ → ShellEntry → Row → Row
unfolding later
merge_shell now e r =
    if r.permanently_closed
    then r
    else record r { last_committed = later e.last_committed r.last_committed; updated_at = now }

unfoldable pub upsert_shell_package : ℕ → ℕ → ShellEntry → Table → Table
unfolding shell_row merge_shell upsert
upsert_shell_package id now e = upsert e.type e.name (shell_row id now e) (merge_shell now e)

unfoldable pub batch_upsert_shell_packages : ℕ → ℕ → List ShellEntry → Table → Table
unfolding upsert_shell_package
batch_upsert_shell_packages id now [] rows = rows
batch_upsert_shell_packages id now (e ∷ es) rows =
    batch_upsert_shell_packages (id + 1) now es (upsert_shell_package id now e rows)

unfoldable pub deactivate_package : ℕ → ℕ → Table → Table
unfolding update_where
deactivate_package now id =
    update_where (λ r. r.id == id)
      (λ r. record r { is_active = false; updated_at = now; content_changed_at = some now })

unfoldable pub mark_permanently_closed : ℕ → ℕ → Table → Table
unfolding update_where
mark_permanently_closed now id =
    update_where (λ r. r.id == id)
      (λ r. record r {
        permanently_closed = true;
        is_active = false;
        updated_at = now;
        content_changed_at = some now;
      })

unfoldable pub reactivate_package : ℕ → ℕ → Table → Table
unfolding update_where
reactivate_package now id =
    update_where (λ r. r.id == id)
      (λ r. record r {
        is_active = true;
        last_synced_at = none;
        updated_at = now;
        content_changed_at = some now;
      })

-- One execution of MarkPackagesChanged's statement, and its loop over slug and revision.
unfoldable pub mark_changed : ℕ → Text → Text → ℕ → Table → Table
unfolding update_where
mark_changed now pkg_type slug rev =
    update_where (λ r. has_key pkg_type slug r && r.is_active)
      (λ r. record r { last_committed = some now; updated_at = now; trunk_revision = some rev })

unfoldable pub mark_packages_changed : ℕ → Text → List (Text × ℕ) → Table → Table
unfolding mark_changed
mark_packages_changed now pkg_type [] rows = rows
mark_packages_changed now pkg_type ((slug, rev) ∷ revs) rows =
    mark_packages_changed now pkg_type revs (mark_changed now pkg_type slug rev rows)

unfoldable pub backfill_trunk_revisions : List (Text × ℕ) → Table → Table
unfolding update_where
backfill_trunk_revisions [] rows = rows
backfill_trunk_revisions ((slug, rev) ∷ revs) rows = backfill_trunk_revisions revs (
    update_where
      (λ r. has_key (codes "plugin") slug r && (r.is_active && not (is_some r.trunk_revision)))
      (λ r. record r { trunk_revision = some rev }) rows)

pub record UpdateQueryOpts : Type 0 where
  pub type : Text
  pub name : Text
  pub names : List Text
  pub force : Bool
  pub include_inactive : Bool

-- last_synced_at IS NULL OR last_committed > last_synced_at
unfoldable pub is_stale : Row → Bool
is_stale r = elim r.last_synced_at [
  | none ↦ true
  | some s ↦ elim r.last_committed [ none ↦ false | some c ↦ ltb s c ]
]

abbrev older_than : Option ℕ → ℕ → Bool
older_than none t = true
older_than (some s) t = ltb s t

-- The conditions of GetPackagesNeedingUpdate. `month_ago` is the start of the day thirty days ago: the
-- query compares an RFC 3339 text with one of SQLite's datetime, which differ after the date. The
-- order of the result and its LIMIT are left out.
unfoldable pub needs_update : UpdateQueryOpts → ℕ → Row → Bool
unfolding is_stale
needs_update o month_ago r =
    not r.permanently_closed
    && ((eq_text o.name [] || eq_text r.name o.name)
        && ((length o.names == 0 || any (eq_text r.name) o.names)
            && ((eq_text o.type [] || eq_text o.type (codes "all") || eq_text r.type o.type)
                && (if not o.force && eq_text o.name []
                    then (if o.include_inactive
                        then is_stale r
                          || (not r.is_active && older_than r.last_synced_at month_ago)
                        else r.is_active && is_stale r)
                    else if not o.include_inactive && eq_text o.name []
                    then r.is_active
                    else true))))

unfoldable pub get_packages_needing_update : UpdateQueryOpts → ℕ → Table → Table
unfolding needs_update
get_packages_needing_update o month_ago = filter (needs_update o month_ago)

abbrev pub differs : Option Text → Option Text → Bool
differs none d = false
differs (some c) none = true
differs (some c) (some d) = not (eq_text c d)

-- is_active = 1 AND content_hash IS NOT NULL AND (deployed_hash IS NULL OR they differ)
unfoldable pub is_dirty : Row → Bool
is_dirty r = r.is_active && differs r.content_hash r.deployed_hash

unfoldable pub get_dirty_packages : Table → Table
unfolding is_dirty
get_dirty_packages = filter is_dirty

unfoldable pub is_leftover : Row → Bool
is_leftover r = not r.is_active && is_some r.deployed_hash

unfoldable pub get_deactivated_deployed_packages : Table → Table
unfolding is_leftover
get_deactivated_deployed_packages = filter is_leftover

unfoldable pub get_all_packages : Text → Table → Table
get_all_packages pkg_type = filter (λ r.
    not r.permanently_closed
    && (eq_text pkg_type [] || eq_text pkg_type (codes "all") || eq_text r.type pkg_type))

-- A write of the table by one of these functions.
pub data Op : Type 0 where
  upsert_one : ℕ → ℕ → Package → Op
  upsert_many : ℕ → ℕ → List Package → Op
  shell_one : ℕ → ℕ → ShellEntry → Op
  shell_many : ℕ → ℕ → List ShellEntry → Op
  deactivate : ℕ → ℕ → Op
  close : ℕ → ℕ → Op
  reactivate : ℕ → ℕ → Op
  changed : ℕ → Text → List (Text × ℕ) → Op
  backfill : List (Text × ℕ) → Op

unfoldable pub apply : Op → Table → Table
apply (upsert_one id now p) = upsert_package id now p
apply (upsert_many id now ps) = batch_upsert_packages id now ps
apply (shell_one id now e) = upsert_shell_package id now e
apply (shell_many id now es) = batch_upsert_shell_packages id now es
apply (deactivate now id) = deactivate_package now id
apply (close now id) = mark_permanently_closed now id
apply (reactivate now id) = reactivate_package now id
apply (changed now t revs) = mark_packages_changed now t revs
apply (backfill revs) = backfill_trunk_revisions revs

unfoldable pub apply_all : List Op → Table → Table
apply_all [] rows = rows
apply_all (o ∷ os) rows = apply_all os (apply o rows)
