-- ===== src/Deploy/Bulk/Counts.antt =====
-- The batches of the bulk deletion and its counters.
use wp_packages.Base.{
  ℕ, zero, suc, ◌+◌, ◌-◌, ◌*◌, ◌≤◌, ◌≡◌, refl, Bool, true, false, List, [], ◌∷◌, ◌++◌, Text, Option,
  none, some, eq_text, any, length, length-append, if◌then◌else◌, arith, All, ap,
}
use wp_packages.Packages.{Table, get_deactivated_deployed_packages}
use wp_packages.Composer.{object_keys}
use wp_packages.Deploy.Bulk.{
  KeyRef, key_refs, slices, cons_slice, Progress, fail_all, tally, State, run_batch, run_batches,
  bulk_delete_deactivated, start, BulkDeleteResult, r2_delete_batch_size, clear_deployed_hash,
  all_ok_ids, finish, delete_all, answered, keys_of, failed_keys,
}

module _ {ℓ} {A : Type ℓ} where
  abbrev pub concat : List (List A) → List A
  concat [] = []
  concat (s ∷ ss) = s ++ concat ss

  concat-cons_slice : (x : A) (ss : List (List A)) → concat (cons_slice x ss) ≡ x ∷ concat ss
  concat-cons_slice x [] = refl
  concat-cons_slice x (s ∷ ss) = refl

  pub concat-slices : (size left : ℕ) (xs : List A) → concat (slices size left xs) ≡ xs
  unfolding slices
  concat-slices size left [] = refl
  concat-slices size zero (x ∷ xs) = rw (concat-slices size size xs)
  concat-slices size (suc left) (x ∷ xs) =
      rw (concat-cons_slice x (slices size left xs), concat-slices size left xs)

  -- All slices hold at most `n` elements, and the first at most `m`.
  Fits : ℕ → ℕ → List (List A) → Type 0
  Fits n m [] = Unit
  Fits n m (s ∷ ss) = (length s ≤ m) × All (λ (t : List A). length t ≤ n) ss

  Fits-All :
      (n m : ℕ) (ss : List (List A)) → m ≤ n → Fits n m ss → All (λ (t : List A). length t ≤ n) ss
  unfolding Fits
  Fits-All n m [] h f = tt
  Fits-All n m (s ∷ ss) h f = (omega (arith, h, f.0), f.1)

  Fits-cons_slice :
      (n m : ℕ) (x : A) (ss : List (List A)) → Fits n m ss → Fits n (suc m) (cons_slice x ss)
  unfolding Fits
  Fits-cons_slice n m x [] f = (omega arith, tt)
  Fits-cons_slice n m x (s ∷ ss) f = (omega (arith, f.0), f.1)

  slices-Fits :
      (size left : ℕ) (xs : List A) → left ≤ size → Fits (suc size) (suc left) (slices size left xs)
  unfolding slices Fits
  slices-Fits size left [] h = tt
  slices-Fits size zero (x ∷ xs) h = (
    omega arith,
    Fits-All (suc size) (suc size) _ (omega arith) (slices-Fits size size xs (omega arith)),
  )
  slices-Fits size (suc left) (x ∷ xs) h =
      Fits-cons_slice (suc size) (suc left) x _ (slices-Fits size left xs (omega (arith, h)))

  pub slices-bound :
      (size : ℕ) (xs : List A) → All (λ (t : List A). length t ≤ suc size) (slices size size xs)
  slices-bound size xs =
      Fits-All (suc size) (suc size) _ (omega arith) (slices-Fits size size xs (omega arith))

-- The batches hold every key once and in order, and none has more keys than a call may.
pub slices-key_refs :
    (leftovers : Table)
    → let size = r2_delete_batch_size - 1 in
      (concat (slices size size (key_refs leftovers)) ≡ key_refs leftovers)
      × All
          (λ (b : List KeyRef). length b ≤ r2_delete_batch_size)
          (slices size size (key_refs leftovers))
slices-key_refs leftovers = (concat-slices _ _ _, slices-bound 999 (key_refs leftovers))

length-key_refs : (rows : Table) → length (key_refs rows) ≡ 2 * length rows
unfolding key_refs object_keys
length-key_refs [] = refl
length-key_refs (r ∷ rs) = omega (arith, length-key_refs rs)

abbrev total : Progress → ℕ
total p = p.deleted + p.failed

total-fail_all : (ks : List KeyRef) (p : Progress) → total (fail_all ks p) ≡ length ks + total p
unfolding fail_all
total-fail_all [] p = omega arith
total-fail_all (k ∷ ks) p = omega (arith, total-fail_all ks _)

total-tally :
    (bad : List Text) (ks : List KeyRef) (p : Progress)
    → total (tally bad ks p) ≡ length ks + total p
unfolding tally
total-tally bad [] p = omega arith
total-tally bad (k ∷ ks) p = ground (
  arith,
  total-tally bad ks (
      if any (eq_text k.key) bad
      then record p { failed = p.failed + 1; pkg_failed = k.pkg_id ∷ p.pkg_failed }
      else record p { deleted = p.deleted + 1; success_ids = k.pkg_id ∷ p.success_ids }),
)

module _ {S : Type 0} (delete_objects : List Text → S → S × Option (List (Option Text)))
    (exec_ok : List ℕ → Bool) where
  total-run_batch :
      (b : List KeyRef) (st : State delete_objects exec_ok)
      → total (run_batch delete_objects exec_ok b st).progress ≡ length b + total st.progress
  unfolding run_batch
  total-run_batch b st = go (delete_objects (keys_of b) st.store)
    where
      go :
          (r : S × Option (List (Option Text)))
          → total (answered delete_objects exec_ok b st r).progress ≡ length b + total st.progress
      go (s, none) = total-fail_all b st.progress
      go (s, some errors) = total-tally (failed_keys errors) b _

  total-run_batches :
      (bs : List (List KeyRef)) (st : State delete_objects exec_ok)
      → total (run_batches delete_objects exec_ok bs st).progress
        ≡ length (concat bs) + total st.progress
  unfolding run_batches
  total-run_batches [] st = omega arith
  total-run_batches (b ∷ bs) st = omega (
    arith,
    total-run_batches bs (run_batch delete_objects exec_ok b st),
    total-run_batch b st,
    length-append b (concat bs),
  )

  -- Where the run returns a result, it counts the deactivated packages, and every one of their keys
  -- either as deleted or as failed: two for each package.
  pub bulk_delete_deactivated-counts :
      (s : S) (rows : Table) (r : BulkDeleteResult)
      → (bulk_delete_deactivated delete_objects exec_ok s rows).1 ≡ some r
      → (r.packages ≡ length (get_deactivated_deployed_packages rows))
        × (r.keys_deleted + r.keys_failed ≡ 2 * r.packages)
  unfolding bulk_delete_deactivated
  bulk_delete_deactivated-counts s rows r h = go (get_deactivated_deployed_packages rows) h
    where
      size : ℕ
      size = r2_delete_batch_size - 1

      result-finish :
          (n : ℕ) (st : State delete_objects exec_ok) (o : Table × Bool)
          → (finish delete_objects exec_ok n st o).1 ≡ some r
          → (r.packages ≡ n) × (r.keys_deleted + r.keys_failed ≡ total st.progress)
      result-finish n st (t, false) e = absurd (cc)
      result-finish n st (t, true) e =
          let e' : record {
            packages = n;
            keys_deleted = st.progress.deleted;
            keys_failed = st.progress.failed;
          }
              ≡ r =
            cc in
          (rw (← e') refl, rw (← e') refl)

      go :
          (gone : Table)
          → (delete_all delete_objects exec_ok gone (start delete_objects exec_ok s rows)).1
            ≡ some r
          → (r.packages ≡ length gone) × (r.keys_deleted + r.keys_failed ≡ 2 * r.packages)
      go [] e =
          let e' : record { packages = 0; keys_deleted = 0; keys_failed = 0 } ≡ r = cc in
          (rw (← e') refl, rw (← e') refl)
      go (p ∷ ps) e =
          let bs = slices size size (key_refs (p ∷ ps)) in
          let done = run_batches delete_objects exec_ok bs (start delete_objects exec_ok s rows) in
          let (n, sum) =
            result-finish (length (p ∷ ps)) done
              (clear_deployed_hash delete_objects exec_ok
                (all_ok_ids delete_objects exec_ok done.progress.pkg_failed (p ∷ ps)) done.rows)
              e in
          (
            n,
            omega (
              arith,
              n,
              sum,
              total-run_batches bs (start delete_objects exec_ok s rows),
              ap length (concat-slices size size (key_refs (p ∷ ps))),
              length-key_refs (p ∷ ps),
            ),
          )
