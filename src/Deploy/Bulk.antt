-- ===== src/Deploy/Bulk.antt =====
-- internal/deploy/cleanup.go: deleting the files of deactivated packages in batches. The batches run
-- concurrently; here they run one after the other, in the order in which they take the lock.
-- The object store is a parameter: a batch is answered by an error or by the keys that failed. So is
-- the database driver, which may fail on a statement.
pub mod Counts
pub mod Hashes
pub mod Rows
mod Tests
use wp_packages.Base.{
  ℕ, zero, suc, ◌+◌, ◌-◌, Bool, true, false, not, List, [], ◌∷◌, ◌++◌, Text, Option, none, some,
  eq_text, any, ◌==◌, map, filter, length, if◌then◌else◌,
}
use wp_packages.Packages.{Row, Table, update_where, get_deactivated_deployed_packages}
use wp_packages.Composer.{object_keys}

-- The max number of keys of one DeleteObjects call.
abbrev pub r2_delete_batch_size : ℕ
r2_delete_batch_size = 1000

-- The max number of ids of one UPDATE statement.
abbrev pub chunk : ℕ
chunk = 500

pub record BulkDeleteResult : Type 0 where
  pub packages : ℕ
  pub keys_deleted : ℕ
  pub keys_failed : ℕ

pub record KeyRef : Type 0 where
  pub pkg_id : ℕ
  pub key : Text

abbrev add_refs : ℕ → List Text → List KeyRef → List KeyRef
add_refs id [] rest = rest
add_refs id (k ∷ ks) rest = record { pkg_id = id; key = k } ∷ add_refs id ks rest

unfoldable pub key_refs : Table → List KeyRef
key_refs [] = []
key_refs (p ∷ ps) = add_refs p.id (object_keys p.type p.name) (key_refs ps)

-- The slices of at most `size + 1` elements that a loop `for start := 0; …; start += size + 1`
-- takes; `left` counts what still fits into the slice at the head of the result.
abbrev pub cons_slice {ℓ} : {A : Type ℓ} → A → List (List A) → List (List A)
cons_slice x [] = (x ∷ []) ∷ []
cons_slice x (s ∷ ss) = (x ∷ s) ∷ ss

unfoldable pub slices {ℓ} : {A : Type ℓ} → ℕ → ℕ → List A → List (List A)
slices size left [] = []
slices size zero (x ∷ xs) = (x ∷ []) ∷ slices size size xs
slices size (suc left) (x ∷ xs) = cons_slice x (slices size left xs)

-- The counters that the batches share, with one entry of `pkg_failed` for each failed key, and the
-- ids whose keys a batch deleted.
pub record Progress : Type 0 where
  pub deleted : ℕ
  pub failed : ℕ
  pub pkg_failed : List ℕ
  pub success_ids : List ℕ

abbrev pub no_progress : Progress
no_progress = record { deleted = 0; failed = 0; pkg_failed = []; success_ids = [] }

unfoldable pub fail_all : List KeyRef → Progress → Progress
fail_all [] p = p
fail_all (k ∷ ks) p =
    fail_all ks (record p { failed = p.failed + 1; pkg_failed = k.pkg_id ∷ p.pkg_failed })

-- The keys of the reported errors; an error without a key is passed over.
abbrev pub failed_keys : List (Option Text) → List Text
failed_keys [] = []
failed_keys (none ∷ es) = failed_keys es
failed_keys (some k ∷ es) = k ∷ failed_keys es

unfoldable pub tally : List Text → List KeyRef → Progress → Progress
tally bad [] p = p
tally bad (k ∷ ks) p = tally bad ks (
    if any (eq_text k.key) bad
    then record p { failed = p.failed + 1; pkg_failed = k.pkg_id ∷ p.pkg_failed }
    else record p { deleted = p.deleted + 1; success_ids = k.pkg_id ∷ p.success_ids })

-- UPDATE packages SET deployed_hash = NULL WHERE id IN (…)
unfoldable pub unset_hashes : List ℕ → Table → Table
unfolding update_where
unset_hashes ids =
    update_where (λ r. any (λ i. i == r.id) ids) (λ r. record r { deployed_hash = none })

abbrev pub keys_of : List KeyRef → List Text
keys_of = map (λ (k : KeyRef). k.key)

module _ {S : Type 0} (delete_objects : List Text → S → S × Option (List (Option Text)))
    (exec_ok : List ℕ → Bool) where
  unfoldable pub clear_slices : List (List ℕ) → Table → Table × Bool
  unfolding unset_hashes
  clear_slices [] rows = (rows, true)
  clear_slices (ids ∷ rest) rows =
      if exec_ok ids then clear_slices rest (unset_hashes ids rows) else (rows, false)

  unfoldable pub clear_deployed_hash : List ℕ → Table → Table × Bool
  unfolding clear_slices slices
  clear_deployed_hash ids rows = clear_slices (slices (chunk - 1) (chunk - 1) ids) rows

  pub record State : Type 0 where
    pub store : S
    pub rows : Table
    pub progress : Progress

  abbrev pub answered : List KeyRef → State → S × Option (List (Option Text)) → State
  answered batch st (s, none) = record {
    store = s;
    rows = st.rows;
    progress = fail_all batch st.progress;
  }
  answered batch st (s, some errors) =
      let p = tally (failed_keys errors) batch (record st.progress { success_ids = [] }) in
      record { store = s; rows = (clear_deployed_hash p.success_ids st.rows).0; progress = p }

  unfoldable pub run_batch : List KeyRef → State → State
  unfolding clear_deployed_hash fail_all tally
  run_batch batch st = answered batch st (delete_objects (keys_of batch) st.store)

  unfoldable pub run_batches : List (List KeyRef) → State → State
  unfolding run_batch
  run_batches [] st = st
  run_batches (b ∷ bs) st = run_batches bs (run_batch b st)

  -- The ids of the packages none of whose keys failed.
  unfoldable pub all_ok_ids : List ℕ → Table → List ℕ
  all_ok_ids failed [] = []
  all_ok_ids failed (p ∷ ps) =
      if any (λ i. i == p.id) failed then all_ok_ids failed ps else p.id ∷ all_ok_ids failed ps

  abbrev pub finish : ℕ → State → Table × Bool → State × Option BulkDeleteResult
  finish n st (rows, false) = (record st { rows = rows }, none)
  finish n st (rows, true) = (
    record st { rows = rows },
    some (record {
      packages = n;
      keys_deleted = st.progress.deleted;
      keys_failed = st.progress.failed;
    }),
  )

  abbrev pub start : S → Table → State
  start s rows = record { store = s; rows = rows; progress = no_progress }

  abbrev pub delete_all : Table → State → State × Option BulkDeleteResult
  delete_all [] st = (st, some (record { packages = 0; keys_deleted = 0; keys_failed = 0 }))
  delete_all (p ∷ ps) st =
      let size = r2_delete_batch_size - 1 in
      let done = run_batches (slices size size (key_refs (p ∷ ps))) st in
      finish (length (p ∷ ps)) done
        (clear_deployed_hash (all_ok_ids done.progress.pkg_failed (p ∷ ps)) done.rows)

  -- BulkDeleteDeactivated; the result is missing where it returns an error.
  unfoldable pub bulk_delete_deactivated : S → Table → State × Option BulkDeleteResult
  unfolding run_batches all_ok_ids key_refs clear_deployed_hash get_deactivated_deployed_packages
  bulk_delete_deactivated s rows =
      delete_all (get_deactivated_deployed_packages rows) (start s rows)
