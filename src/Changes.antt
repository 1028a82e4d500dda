-- ===== src/Changes.antt =====
-- internal/http/changes.go, the feed of changed packages, and the part of
-- cmd/wppackages/cmd/build.go that records and removes its rows. Times are in milliseconds. The
-- feed reads the table twice, so the two reads are two arguments, with whether each fails.
pub mod Missed
mod Tests
use wp_packages.Base.{
  ℕ, suc, ◌+◌, ◌-◌, ◌*◌, ◌/◌, Bool, true, false, not, ◌&&◌, ◌||◌, List, [], ◌∷◌, ◌++◌, Text, codes,
  Option, none, some, eq_text, lt_text, ltb, leb, ◌==◌, filter, map, any, if◌then◌else◌,
}
use wp_packages.Text.{digits_value, max_int64, or_else}

pub record Change : Type 0 where
  pub id : ℕ
  pub package_name : Text
  pub action : Text
  pub timestamp : ℕ

pub record ChangeAction : Type 0 where
  pub action : Text
  pub package_name : Text
  pub time : ℕ

-- What the handler writes: an error in the response, a resync, the actions, or an internal error.
pub data Response : Type 0 where
  bad_since : ℕ → Response
  resync : ℕ → ChangeAction → Response
  changes : ℕ → List ChangeAction → Response
  internal_error : Response

abbrev pub changes_retention : ℕ
changes_retention = 24 * 60 * 60 * 1000

abbrev within : ℕ → Option ℕ → Option ℕ
within max none = none
within max (some n) = if leb n max then some n else none

abbrev unsigned : ℕ → Text → Option ℕ
unsigned max [] = none
unsigned max (c ∷ s) = within max (digits_value 0 (c ∷ s))

-- strconv.ParseInt(…, 10, 64) where it returns a value that is not negative.
unfoldable pub parse_since : Text → Option ℕ
unfolding digits_value
parse_since [] = none
parse_since (c ∷ s) =
    if c == b'+'
    then unsigned max_int64 s
    else if c == b'-'
    then unsigned 0 s
    else unsigned max_int64 (c ∷ s)

-- COALESCE(MAX(timestamp), 0)
unfoldable pub max_timestamp : List Change → ℕ
max_timestamp [] = 0
max_timestamp (c ∷ cs) = let m = max_timestamp cs in if ltb m c.timestamp then c.timestamp else m

abbrev pub comes_before : Change → Change → Bool
comes_before a b = ltb a.timestamp b.timestamp || (a.timestamp == b.timestamp && leb a.id b.id)

unfoldable pub insert_change : Change → List Change → List Change
insert_change a [] = a ∷ []
insert_change a (b ∷ bs) = if comes_before a b then a ∷ b ∷ bs else b ∷ insert_change a bs

-- ORDER BY timestamp ASC, id ASC
unfoldable pub order_changes : List Change → List Change
unfolding insert_change
order_changes [] = []
order_changes (c ∷ cs) = insert_change c (order_changes cs)

abbrev pub is_selected : ℕ → ℕ → Change → Bool
is_selected since checkpoint c = ltb since c.timestamp && leb c.timestamp checkpoint

abbrev pub action_of : Change → ChangeAction
action_of c = record { action = c.action; package_name = c.package_name; time = c.timestamp / 1000 }

-- seen[name] = …; an entry's key is the package of its action.
unfoldable pub see : ChangeAction → List ChangeAction → List ChangeAction
see a [] = a ∷ []
see a (b ∷ bs) = if eq_text b.package_name a.package_name then a ∷ bs else b ∷ see a bs

unfoldable pub see_all : List Change → List ChangeAction → List ChangeAction
unfolding see
see_all [] seen = seen
see_all (c ∷ cs) seen = see_all cs (see (action_of c) seen)

unfoldable pub insert_action : ChangeAction → List ChangeAction → List ChangeAction
unfolding lt_text
insert_action a [] = a ∷ []
insert_action a (b ∷ bs) =
    if lt_text b.package_name a.package_name then b ∷ insert_action a bs else a ∷ b ∷ bs

-- sort.Slice by package
unfoldable pub sort_actions : List ChangeAction → List ChangeAction
unfolding insert_action
sort_actions [] = []
sort_actions (a ∷ rest) = insert_action a (sort_actions rest)

abbrev pub actions_between : ℕ → ℕ → List Change → List ChangeAction
actions_between since checkpoint rows =
    sort_actions (see_all (order_changes (filter (is_selected since checkpoint) rows)) [])

abbrev pub checkpoint_of : ℕ → List Change → ℕ
checkpoint_of now rows = if max_timestamp rows == 0 then now else max_timestamp rows

abbrev pub respond : ℕ → ℕ → Option (List Change) → Option (List Change) → Response
respond now since none second = internal_error
respond now since (some first) none = internal_error
respond now since (some first) (some rows) =
    changes (checkpoint_of now first) (actions_between since (checkpoint_of now first) rows)

abbrev pub respond_since : ℕ → Option ℕ → Option (List Change) → Option (List Change) → Response
respond_since now none first second = bad_since now
respond_since now (some since) first second =
    if ltb since (now - changes_retention)
    then resync now
        (record { action = codes "resync"; package_name = codes "*"; time = now / 1000 })
    else respond now since first second

-- The two reads are missing where they fail.
unfoldable pub handle_metadata_changes :
    ℕ → Text → Option (List Change) → Option (List Change) → Response
unfolding parse_since max_timestamp order_changes see_all sort_actions
handle_metadata_changes now since first second = respond_since now (parse_since since) first second

-- One transaction, with the time of the build; the ids are one more than the highest in turn.
unfoldable pub persist_metadata_changes : ℕ → ℕ → List (Text × Text) → List Change → List Change
persist_metadata_changes id build_timestamp [] rows = rows
persist_metadata_changes id build_timestamp ((name, action) ∷ changed) rows =
    persist_metadata_changes (suc id) build_timestamp changed (
      rows
      ++ record { id = id; package_name = name; action = action; timestamp = build_timestamp } ∷ [])

unfoldable pub cleanup_changes : ℕ → List Change → List Change
cleanup_changes now = filter (λ (c : Change). not (ltb c.timestamp (now - changes_retention)))
