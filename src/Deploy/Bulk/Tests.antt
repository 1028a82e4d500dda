-- ===== src/Deploy/Bulk/Tests.antt =====
-- A bulk deletion of the files of two packages, where one key fails.
use wp_packages.Base.{
  ℕ, ◌+◌, ◌*◌, ◌≡◌, refl, true, false, List, [], ◌∷◌, Text, codes, Option, none, some, eq_text,
  length, inl, Bool,
}
use wp_packages.Packages.{
  Row, Table, shell_row, update_where, is_leftover, get_deactivated_deployed_packages,
}
use wp_packages.Composer.{composer_name, object_keys, plugin}
use wp_packages.Deploy.Bulk.{
  key_refs, slices, bulk_delete_deactivated, BulkDeleteResult, fail_all, tally, unset_hashes,
  clear_slices, clear_deployed_hash, run_batch, run_batches, all_ok_ids,
}
use wp_packages.Deploy.Bulk.Counts.{bulk_delete_deactivated-counts}
use wp_packages.Deploy.Bulk.Hashes.{Only}
use wp_packages.Deploy.Bulk.Rows.{
  ids_of, bulk_delete_deactivated-Only, bulk_delete_deactivated-cleared,
}

bulk_code : Unit {0}
unfolding bulk_delete_deactivated run_batches run_batch key_refs object_keys composer_name slices
    tally fail_all clear_deployed_hash clear_slices unset_hashes update_where all_ok_ids
    get_deactivated_deployed_packages is_leftover shell_row eq_text
bulk_code = tt

abbrev leftover : ℕ → Text → Row
leftover id name =
    record (shell_row id 10 (record { type = plugin; name = name; last_committed = none })) {
      is_active = false;
      deployed_hash = some (codes "h");
    }

abbrev two_leftovers : Table
two_leftovers = leftover 1 (codes "a") ∷ leftover 2 (codes "b") ∷ []

-- The last key of every batch fails.
abbrev one_fails : List Text → ℕ → ℕ × Option (List (Option Text))
one_fails keys s = (s + 1, some (some (codes "p2/wp-plugin/b~dev.json") ∷ none ∷ []))

abbrev exec_ok : List ℕ → Bool
exec_ok ids = true

abbrev counted : BulkDeleteResult
counted = record { packages = 2; keys_deleted = 3; keys_failed = 1 }

counted_run : (bulk_delete_deactivated one_fails exec_ok 0 two_leftovers).1 ≡ some counted
unfolding bulk_code
counted_run = refl

-- The row of a package is cleared although one of its two keys failed: the other one stands in the
-- batch's list of successes.
cleared_despite_failure :
    (bulk_delete_deactivated one_fails exec_ok 0 two_leftovers).0.rows
    ≡ record (leftover 1 (codes "a")) { deployed_hash = none }
      ∷ record (leftover 2 (codes "b")) { deployed_hash = none }
      ∷ []
unfolding bulk_code
cleared_despite_failure = refl

bulk_delete_deactivated-counts_example :
    (counted.packages ≡ length (get_deactivated_deployed_packages two_leftovers))
    × (counted.keys_deleted + counted.keys_failed ≡ 2 * counted.packages)
bulk_delete_deactivated-counts_example =
    bulk_delete_deactivated-counts one_fails exec_ok 0 two_leftovers counted counted_run

bulk_delete_deactivated-Only_example :
    Only
      (ids_of (get_deactivated_deployed_packages two_leftovers))
      two_leftovers
      (bulk_delete_deactivated one_fails exec_ok 0 two_leftovers).0.rows
bulk_delete_deactivated-Only_example =
    bulk_delete_deactivated-Only one_fails exec_ok 0 two_leftovers

bulk_delete_deactivated-cleared_example :
    (record (leftover 1 (codes "a")) { deployed_hash = none }).deployed_hash ≡ none
unfolding bulk_code
bulk_delete_deactivated-cleared_example =
    bulk_delete_deactivated-cleared one_fails exec_ok 0 two_leftovers counted
      (record (leftover 1 (codes "a")) { deployed_hash = none }) refl (inl refl) refl refl
