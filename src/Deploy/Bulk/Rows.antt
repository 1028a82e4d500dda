-- ===== src/Deploy/Bulk/Rows.antt =====
-- The bulk deletion and the rows of the packages table (internal/deploy/cleanup.go).
use wp_packages.Base.{
  ℕ, ◌-◌, ◌≡◌, refl, Bool, true, false, List, [], ◌∷◌, Text, Option, none, some, ◌==◌, length,
  arith, In, map, inl, inr, ==_iff, Bool-cases,
}
use wp_packages.Packages.{Row, Table, get_deactivated_deployed_packages}
use wp_packages.Composer.{object_keys}
use wp_packages.Deploy.Bulk.{
  key_refs, slices, State, run_batches, all_ok_ids, finish, delete_all, r2_delete_batch_size,
  clear_deployed_hash, bulk_delete_deactivated, start, BulkDeleteResult,
}
use wp_packages.Deploy.Bulk.Counts.{concat, concat-slices}
use wp_packages.Deploy.Bulk.Hashes.{
  listed, Only, Only-refl, Only-trans, Only-weaken, Cleared, pkg_ids, run_batches-Only,
  clear_deployed_hash-Only, clear_deployed_hash-Cleared,
}

abbrev pub ids_of : Table → List ℕ
ids_of = map (λ (r : Row). r.id)

listed-key_refs :
    (n : ℕ) (rows : Table)
    → listed (ids_of rows) n ≡ false
    → listed (pkg_ids (key_refs rows)) n ≡ false
unfolding key_refs object_keys
listed-key_refs n [] h = refl
listed-key_refs n (r ∷ rows) h = ground (arith, h, listed-key_refs n rows)

module _ {S : Type 0} (delete_objects : List Text → S → S × Option (List (Option Text)))
    (exec_ok : List ℕ → Bool) where
  listed-all_ok_ids :
      (failed : List ℕ) (n : ℕ) (rows : Table)
      → listed (ids_of rows) n ≡ false
      → listed (all_ok_ids delete_objects exec_ok failed rows) n ≡ false
  unfolding all_ok_ids
  listed-all_ok_ids failed n [] h = refl
  listed-all_ok_ids failed n (r ∷ rows) h = ground (arith, h, listed-all_ok_ids failed n rows)

  all_ok_ids-listed :
      (failed : List ℕ) (n : ℕ) (rows : Table)
      → listed (ids_of rows) n ≡ true
      → listed failed n ≡ false
      → listed (all_ok_ids delete_objects exec_ok failed rows) n ≡ true
  unfolding all_ok_ids
  all_ok_ids-listed failed n [] h k = absurd (cc)
  all_ok_ids-listed failed n (r ∷ rows) h k = elim (Bool-cases (r.id == n)) [
    | inl e ↦
        let e' : r.id ≡ n = (==_iff r.id n).0 e in
        let k' : listed failed r.id ≡ false = rw e' k in rw k' (rw e refl)
    | inr e ↦ ground (arith, e, h, k, all_ok_ids-listed failed n rows)
  ]

  rows-finish :
      (n : ℕ) (st : State delete_objects exec_ok) (o : Table × Bool)
      → (finish delete_objects exec_ok n st o).0.rows ≡ o.0
  rows-finish n st (t, false) = refl
  rows-finish n st (t, true) = refl

  -- The bulk deletion, whatever fails in it, changes no row but those of deactivated packages with a
  -- deployed hash: a row with the id of no such package is a row of the table before.
  pub bulk_delete_deactivated-Only :
      (s : S) (rows : Table)
      → Only
          (ids_of (get_deactivated_deployed_packages rows))
          rows
          (bulk_delete_deactivated delete_objects exec_ok s rows).0.rows
  unfolding bulk_delete_deactivated
  bulk_delete_deactivated-Only s rows = go (get_deactivated_deployed_packages rows)
    where
      go :
          (gone : Table)
          → Only
              (ids_of gone)
              rows
              (delete_all delete_objects exec_ok gone (start delete_objects exec_ok s rows)).0.rows
      go [] = Only-refl [] rows
      go (p ∷ ps) =
          let size = r2_delete_batch_size - 1 in
          let st = start delete_objects exec_ok s rows in
          let done = run_batches delete_objects exec_ok (slices size size (key_refs (p ∷ ps))) st in
          let ok = all_ok_ids delete_objects exec_ok done.progress.pkg_failed (p ∷ ps) in
          rw
            (rows-finish (length (p ∷ ps)) done
              (clear_deployed_hash delete_objects exec_ok ok done.rows))
            (Only-trans (ids_of (p ∷ ps)) rows done.rows _
              (Only-weaken (pkg_ids (concat (slices size size (key_refs (p ∷ ps)))))
                (ids_of (p ∷ ps)) rows done.rows
                (λ n h.
                  rw (concat-slices size size (key_refs (p ∷ ps))) (listed-key_refs n (p ∷ ps) h))
                (run_batches-Only delete_objects exec_ok (slices size size (key_refs (p ∷ ps))) st))
              (Only-weaken ok (ids_of (p ∷ ps)) done.rows _
                (λ n h. listed-all_ok_ids done.progress.pkg_failed n (p ∷ ps) h)
                (clear_deployed_hash-Only delete_objects exec_ok ok done.rows)))

  -- Where the run returns a result, no row with the id of a deactivated package none of whose keys
  -- failed keeps a deployed hash.
  pub bulk_delete_deactivated-cleared :
      (s : S) (rows : Table) (res : BulkDeleteResult) (r : Row)
      → (bulk_delete_deactivated delete_objects exec_ok s rows).1 ≡ some res
      → In r (bulk_delete_deactivated delete_objects exec_ok s rows).0.rows
      → listed (ids_of (get_deactivated_deployed_packages rows)) r.id ≡ true
      → listed (bulk_delete_deactivated delete_objects exec_ok s rows).0.progress.pkg_failed r.id
        ≡ false
      → r.deployed_hash ≡ none
  unfolding bulk_delete_deactivated
  bulk_delete_deactivated-cleared s rows res r = go (get_deactivated_deployed_packages rows)
    where
      last :
          (n : ℕ) (gone : Table) (st : State delete_objects exec_ok) (o : Table × Bool)
          → (o.1 ≡ true
              → Cleared (all_ok_ids delete_objects exec_ok st.progress.pkg_failed gone) o.0)
          → (finish delete_objects exec_ok n st o).1 ≡ some res
          → In r (finish delete_objects exec_ok n st o).0.rows
          → listed (ids_of gone) r.id ≡ true
          → listed (finish delete_objects exec_ok n st o).0.progress.pkg_failed r.id ≡ false
          → r.deployed_hash ≡ none
      last n gone st (t, false) c h i l f = absurd (cc)
      last n gone st (t, true) c h i l f =
          c refl r i (all_ok_ids-listed st.progress.pkg_failed r.id gone l f)

      go :
          (gone : Table)
          → (delete_all delete_objects exec_ok gone (start delete_objects exec_ok s rows)).1
            ≡ some res
          → In r
              (delete_all delete_objects exec_ok gone (start delete_objects exec_ok s rows)).0.rows
          → listed (ids_of gone) r.id ≡ true
          → listed
              (delete_all delete_objects exec_ok gone
                (start delete_objects exec_ok s rows)).0.progress.pkg_failed
              r.id
            ≡ false
          → r.deployed_hash ≡ none
      go [] h i l f = absurd (cc)
      go (p ∷ ps) h i l f =
          let size = r2_delete_batch_size - 1 in
          let done =
            run_batches delete_objects exec_ok (slices size size (key_refs (p ∷ ps)))
              (start delete_objects exec_ok s rows) in
          let ok = all_ok_ids delete_objects exec_ok done.progress.pkg_failed (p ∷ ps) in
          last (length (p ∷ ps)) (p ∷ ps) done
            (clear_deployed_hash delete_objects exec_ok ok done.rows)
            (clear_deployed_hash-Cleared delete_objects exec_ok ok done.rows) h i l f
