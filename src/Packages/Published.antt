-- ===== src/Packages/Published.antt =====
-- internal/packages/published_times.go: when a version was first published, kept per package as a
-- JSON map from version to RFC 3339 text. `decode` and `encode` are encoding/json on such a map (on
-- an encoded object, the entries that stand last for a key), `format` writes a date; a date is a
-- number, as in the Subversion log. The order of the entries stands for the order of a loop over them.
mod Times
mod Modified
mod Tests
use wp_packages.Base.{
  ℕ, zero, suc, ◌+◌, Bool, true, false, not, ◌&&◌, ◌||◌, List, [], ◌∷◌, ◌++◌, Text, Map, codes,
  Option, none, some, eq_text, lt_text, lookup, insert, ltb, ◌==◌, map, filter, any, is_some,
  if◌then◌else◌,
}
use wp_packages.Text.{or_else}
use wp_packages.Version.{normalize, dev_trunk}
use wp_packages.Svn.Tags.{TagChangeSet, tags_at}
use wp_packages.Packages.{Row, Table, has_key, update_where, coalesce}

abbrev pub stamp_version : Text → Text → Map Text → Map Text
stamp_version stamp ver times =
    if eq_text ver dev_trunk
    then times
    else if is_some (lookup ver times)
    then times
    else insert ver stamp times

unfoldable pub stamp_versions : Text → Map Text → Map Text → Map Text
stamp_versions stamp [] times = times
stamp_versions stamp ((ver, url) ∷ versions) times =
    stamp_versions stamp versions (stamp_version stamp ver times)

-- The versions that the tags of a package stand for.
unfoldable pub versions_of_tags : Map ℕ → List Text
unfolding normalize
versions_of_tags [] = []
versions_of_tags ((tag, date) ∷ tags) =
    let ver = normalize tag in
    let rest = versions_of_tags tags in
    if not (eq_text ver []) && not (eq_text ver dev_trunk) then ver ∷ rest else rest

-- Whether the loop over the times stamps an entry.
unfoldable pub is_reset : Bool → List Text → Text → Text → Text → Bool
unfolding normalize lt_text
is_reset reset_all to_reset stamp key prev =
    (reset_all || any (eq_text (normalize key)) to_reset) && lt_text prev stamp

unfoldable pub reset_times : Bool → List Text → Text → Map Text → Map Text × ℕ
unfolding is_reset
reset_times reset_all to_reset stamp [] = ([], 0)
reset_times reset_all to_reset stamp ((key, prev) ∷ times) =
    let (rest, n) = reset_times reset_all to_reset stamp times in
    if is_reset reset_all to_reset stamp key prev
    then ((key, stamp) ∷ rest, suc n)
    else ((key, prev) ∷ rest, n)

-- SELECT … WHERE type = ? AND name = ? AND permanently_closed = 0
unfoldable pub select_row : Text → Text → Table → Option Row
select_row pkg_type slug [] = none
select_row pkg_type slug (r ∷ rs) =
    if has_key pkg_type slug r && not r.permanently_closed
    then some r
    else select_row pkg_type slug rs

-- The slugs of both maps, each once where each map has it once.
abbrev pub slugs_of : TagChangeSet → List Text
slugs_of changes =
    map (λ (e : Text × Map ℕ). e.0) changes.tags
    ++ filter (λ slug. not (is_some (lookup slug changes.tags)))
        (map (λ (e : Text × ℕ). e.0) changes.all)

-- The latest date of the tags that stand for a version; Go's zero time where there is none.
unfoldable pub tagged_date : Map ℕ → Text → ℕ
unfolding normalize
tagged_date [] ver = 0
tagged_date ((tag, date) ∷ tags) ver =
    let rest = tagged_date tags ver in
    if not (eq_text (normalize tag) []) && (eq_text (normalize tag) ver && ltb rest date)
    then date
    else rest

abbrev later_of : ℕ → ℕ → ℕ
later_of a b = if ltb a b then b else a

unfoldable pub backfill_date : ℕ → ℕ → Map ℕ → Text → ℕ
unfolding normalize tagged_date
backfill_date baseline all_time tags ver =
    later_of (later_of baseline all_time) (tagged_date tags (normalize ver))

unfoldable pub backfill_times : (ℕ → Text) → ℕ → ℕ → Map ℕ → Map Text → Map Text
unfolding backfill_date
backfill_times format baseline all_time tags [] = []
backfill_times format baseline all_time tags ((ver, url) ∷ versions) =
    let rest = backfill_times format baseline all_time tags versions in
    if eq_text ver dev_trunk
    then rest
    else (ver, format (backfill_date baseline all_time tags ver)) ∷ rest

module _ (decode : Text → Option (Map Text)) (encode : Map Text → Text) where
  abbrev pub times_of : Option Text → Map Text
  times_of none = []
  times_of (some json) = or_else (decode json) []

  -- The outer option is missing where an error is returned, the inner one where the result is nil.
  unfoldable pub merge_published_times : Text → Text → Option Text → Text → Option (Option Text)
  unfolding stamp_versions
  merge_published_times new_json old_json old stamp =
      if not (is_some old) && (not (eq_text old_json []) && not (eq_text old_json (codes "{}")))
      then some none
      else elim (decode new_json) [
        | none ↦ none
        | some versions ↦ some (some (encode (stamp_versions stamp versions (times_of old))))
      ]

  -- The update of the row that was read, where an entry is stamped.
  unfoldable pub reset_row : ℕ → Text → Bool → List Text → Row → Table → Table × ℕ
  unfolding reset_times update_where
  reset_row now stamp reset_all to_reset r rows = elim r.published_times_json [
    | none ↦ (rows, 0)
    | some json ↦ elim (decode json) [
      | none ↦ (rows, 0)
      | some times ↦
          let (new_times, n) = reset_times reset_all to_reset stamp times in
          if n == 0 then (rows, 0) else (
            update_where (λ s. s.id == r.id)
                (λ s. record s { published_times_json = some (encode new_times); updated_at = now })
                rows,
            n,
          )
    ]
  ]

  abbrev reset_found : ℕ → Text → TagChangeSet → Text → Table → Option Row → Table × ℕ
  reset_found now stamp changes slug rows none = (rows, 0)
  reset_found now stamp changes slug rows (some r) =
      reset_row now stamp (is_some (lookup slug changes.all))
        (versions_of_tags (tags_at slug changes.tags)) r rows

  unfoldable pub reset_slugs : ℕ → Text → Text → TagChangeSet → List Text → Table → Table × ℕ
  unfolding reset_row select_row versions_of_tags
  reset_slugs now stamp pkg_type changes [] rows = (rows, 0)
  reset_slugs now stamp pkg_type changes (slug ∷ slugs) rows =
      let (here, n) = reset_found now stamp changes slug rows (select_row pkg_type slug rows) in
      let (rest, m) = reset_slugs now stamp pkg_type changes slugs here in (rest, n + m)

  -- One transaction: where the database fails, the table is as it was.
  unfoldable pub reset_published_times : ℕ → Text → Text → TagChangeSet → Table → Table × ℕ
  unfolding reset_slugs
  reset_published_times now stamp pkg_type changes rows =
      reset_slugs now stamp pkg_type changes (slugs_of changes) rows

  module _ (format : ℕ → Text) (hash_versions : Text → Option ℕ → Option Text → Text) where
    -- What the first loop computes of a row; the row's id, times and hash.
    pub record Backfill : Type 0 where
      pub id : ℕ
      pub published_times_json : Text
      pub content_hash : Option Text

    unfoldable pub backfill_of : TagChangeSet → ℕ → Row → Option Backfill
    unfolding backfill_times
    backfill_of changes baseline r = elim (decode r.listing.versions_json) [
      | none ↦ none
      | some versions ↦
          let times =
            backfill_times format baseline (or_else (lookup r.name changes.all) 0)
              (tags_at r.name changes.tags) versions in
          let json = encode times in
          some (record {
            id = r.id;
            published_times_json = json;
            content_hash =
                if is_some r.content_hash
                then some (hash_versions r.listing.versions_json r.trunk_revision (some json))
                else none;
          })
    ]

    unfoldable pub backfills_of : TagChangeSet → ℕ → Text → Table → Option (List Backfill)
    unfolding backfill_of
    backfills_of changes baseline pkg_type [] = some []
    backfills_of changes baseline pkg_type (r ∷ rs) =
        let rest = backfills_of changes baseline pkg_type rs in
        if eq_text r.type pkg_type && not (is_some r.published_times_json)
        then elim (backfill_of changes baseline r) [
          | none ↦ none
          | some b ↦ elim rest [ none ↦ none | some bs ↦ some (b ∷ bs) ]
        ]
        else rest

    unfoldable pub write_backfill : ℕ → Backfill → Table → Table
    unfolding update_where
    write_backfill now b =
        update_where (λ r. r.id == b.id && not (is_some r.published_times_json))
          (λ r. record r {
            published_times_json = some b.published_times_json;
            content_hash = coalesce b.content_hash r.content_hash;
            content_changed_at = if is_some b.content_hash then some now else r.content_changed_at;
            updated_at = now;
          })

    unfoldable pub write_backfills : ℕ → List Backfill → Table → Table
    unfolding write_backfill
    write_backfills now [] rows = rows
    write_backfills now (b ∷ bs) rows = write_backfills now bs (write_backfill now b rows)

    -- BackfillPublishedTimes, less its count; missing where the JSON of a row does not parse.
    unfoldable pub backfill_published_times : TagChangeSet → ℕ → ℕ → Text → Table → Option Table
    unfolding backfills_of write_backfills
    backfill_published_times changes baseline now pkg_type rows =
        elim (backfills_of changes baseline pkg_type rows) [
          | none ↦ none
          | some bs ↦ some (write_backfills now bs rows)
        ]
