-- ===== src/Deploy/Bulk/Hashes.antt =====
-- What the bulk deletion does to the rows of the table.
use wp_packages.Base.{
  ℕ, ◌-◌, ◌≡◌, refl, Bool, true, false, List, [], ◌∷◌, ◌++◌, Text, Option, none, some, eq_text, any,
  ◌==◌, if◌then◌else◌, arith, Bool-cases, inl, inr, In, append-nil, append_assoc, map, subst, sym,
  ◌⊎◌, ◌∙◌, ◌||◌,
}
use wp_packages.Packages.{Row, Table, update_where}
use wp_packages.Deploy.Bulk.{
  KeyRef, Progress, tally, State, run_batch, run_batches, answered, keys_of, failed_keys,
  unset_hashes, clear_slices, clear_deployed_hash, slices, chunk,
}
use wp_packages.Deploy.Bulk.Counts.{concat, concat-slices}

In-update_where :
    (p : Row → Bool) (f : Row → Row) (r : Row) (rows : Table)
    → In r (update_where p f rows)
    → (q : Row) × In q rows × (r ≡ (if p q then f q else q))
unfolding update_where
In-update_where p f r [] h = absurd h
In-update_where p f r (q ∷ rows) (inl e) = (q, inl refl, cc)
In-update_where p f r (q ∷ rows) (inr h) =
    let (q', i, e) = In-update_where p f r rows h in (q', inr i, e)

abbrev pub listed : List ℕ → ℕ → Bool
listed ids n = any (λ i. i == n) ids

pub listed-append : (xs ys : List ℕ) (n : ℕ) → listed (xs ++ ys) n ≡ (listed xs n || listed ys n)
listed-append [] ys n = refl
listed-append (x ∷ xs) ys n = ground (arith, listed-append xs ys n)

abbrev unset : Row → Row
unset q = record q { deployed_hash = none }

In-unset_hashes :
    (ids : List ℕ) (rows : Table) (r : Row)
    → In r (unset_hashes ids rows)
    → (q : Row) × In q rows
      × ((listed ids q.id ≡ true) × (r ≡ unset q) ⊎ (listed ids q.id ≡ false) × (r ≡ q))
unfolding unset_hashes
In-unset_hashes ids rows r h =
    let (q, i, e) = In-update_where (λ q. listed ids q.id) unset r rows h in
    elim (Bool-cases (listed ids q.id)) [
      | inl k ↦ (q, i, inl (k, rw k at e))
      | inr k ↦ (q, i, inr (k, rw k at e))
    ]

-- The rows that differ from an earlier table's have a listed id.
abbrev pub Only : List ℕ → Table → Table → Type 0
Only ids rows rows' =
    (r : Row)
    → In r rows'
    → (q : Row) × In q rows × (r.id ≡ q.id) × (listed ids q.id ≡ false → r ≡ q)

pub Only-refl : (ids : List ℕ) (rows : Table) → Only ids rows rows
Only-refl ids rows r i = (r, i, refl, λ _. refl)

pub Only-trans : (ids : List ℕ) (a b c : Table) → Only ids a b → Only ids b c → Only ids a c
Only-trans ids a b c f g r i =
    let (q, j, e, s) = g r i in
    let (p, k, e', s') = f q j in
    (p, k, e ∙ e', λ n. let n' : listed ids q.id ≡ false = rw e' n in s n' ∙ s' n)

pub Only-weaken :
    (few ids : List ℕ) (a b : Table)
    → ((n : ℕ) → listed ids n ≡ false → listed few n ≡ false)
    → Only few a b
    → Only ids a b
Only-weaken few ids a b w f r i = let (q, j, e, s) = f r i in (q, j, e, λ n. s (w q.id n))

unset_hashes-Only : (ids : List ℕ) (rows : Table) → Only ids rows (unset_hashes ids rows)
unset_hashes-Only ids rows r h =
    let (q, i, c) = In-unset_hashes ids rows r h in
    elim c [
      | inl d ↦ (q, i, rw (d.1) refl, λ n. absurd (let f : true ≡ false = sym d.0 ∙ n in cc))
      | inr d ↦ (q, i, rw (d.1) refl, λ n. d.1)
    ]

-- The rows whose id is listed have no deployed hash.
abbrev pub Cleared : List ℕ → Table → Type 0
Cleared ids rows = (r : Row) → In r rows → listed ids r.id ≡ true → r.deployed_hash ≡ none

unset_hashes-Cleared :
    (done ids : List ℕ) (rows : Table)
    → Cleared done rows
    → Cleared (done ++ ids) (unset_hashes ids rows)
unset_hashes-Cleared done ids rows c r h k =
    let (q, i, s) = In-unset_hashes ids rows r h in
    elim s [
      | inl d ↦ rw (d.1) refl
      | inr d ↦
          let k' : listed (done ++ ids) q.id ≡ true = rw (d.1) at k in
          rw (d.1) (c q i (ground (arith, d.0, k', listed-append done ids q.id)))
    ]

abbrev pub pkg_ids : List KeyRef → List ℕ
pkg_ids = map (λ (k : KeyRef). k.pkg_id)

-- A batch succeeds only for packages of which it has a key.
listed-tally :
    (bad : List Text) (ks : List KeyRef) (p : Progress) (n : ℕ)
    → listed (pkg_ids ks) n ≡ false
    → listed p.success_ids n ≡ false
    → listed (tally bad ks p).success_ids n ≡ false
unfolding tally
listed-tally bad [] p n h k = k
listed-tally bad (x ∷ ks) p n h k =
    listed-tally bad ks _ n (ground (arith, h)) (elim (Bool-cases (any (eq_text x.key) bad)) [
      | inl e ↦ rw e k
      | inr e ↦ rw e (ground (arith, h, k))
    ])

module _ {S : Type 0} (delete_objects : List Text → S → S × Option (List (Option Text)))
    (exec_ok : List ℕ → Bool) where
  clear_slices-Only :
      (ss : List (List ℕ)) (rows : Table)
      → Only (concat ss) rows (clear_slices delete_objects exec_ok ss rows).0
  unfolding clear_slices
  clear_slices-Only [] rows = Only-refl [] rows
  clear_slices-Only (s ∷ ss) rows = elim (Bool-cases (exec_ok s)) [
    | inl e ↦ rw e (
        Only-trans _ rows (unset_hashes s rows) _
          (Only-weaken s _ rows _ (λ n f. ground (arith, f, listed-append s (concat ss) n))
            (unset_hashes-Only s rows))
          (Only-weaken (concat ss) _ _ _ (λ n f. ground (arith, f, listed-append s (concat ss) n))
            (clear_slices-Only ss (unset_hashes s rows))))
    | inr e ↦ rw e (Only-refl _ rows)
  ]

  clear_slices-Cleared :
      (done : List ℕ) (ss : List (List ℕ)) (rows : Table)
      → Cleared done rows
      → (clear_slices delete_objects exec_ok ss rows).1 ≡ true
      → Cleared (done ++ concat ss) (clear_slices delete_objects exec_ok ss rows).0
  unfolding clear_slices
  clear_slices-Cleared done [] rows c h = rw (append-nil done) c
  clear_slices-Cleared done (s ∷ ss) rows c h = elim (Bool-cases (exec_ok s)) [
    | inl e ↦
        rw (e, ← append_assoc done s (concat ss))
          (clear_slices-Cleared (done ++ s) ss (unset_hashes s rows)
            (unset_hashes-Cleared done s rows c) (rw e at h))
    | inr e ↦ absurd (let h' : false ≡ true = rw e at h in cc)
  ]

  pub clear_deployed_hash-Only :
      (ids : List ℕ) (rows : Table)
      → Only ids rows (clear_deployed_hash delete_objects exec_ok ids rows).0
  unfolding clear_deployed_hash
  clear_deployed_hash-Only ids rows =
      subst (λ x. Only x rows (clear_deployed_hash delete_objects exec_ok ids rows).0)
        (concat-slices _ _ ids) (clear_slices-Only (slices (chunk - 1) (chunk - 1) ids) rows)

  pub clear_deployed_hash-Cleared :
      (ids : List ℕ) (rows : Table)
      → (clear_deployed_hash delete_objects exec_ok ids rows).1 ≡ true
      → Cleared ids (clear_deployed_hash delete_objects exec_ok ids rows).0
  unfolding clear_deployed_hash
  clear_deployed_hash-Cleared ids rows h =
      subst (λ x. Cleared x (clear_deployed_hash delete_objects exec_ok ids rows).0)
        (concat-slices _ _ ids)
        (clear_slices-Cleared [] (slices (chunk - 1) (chunk - 1) ids) rows (λ r i n. absurd (cc)) h)

  run_batch-Only :
      (b : List KeyRef) (st : State delete_objects exec_ok)
      → Only (pkg_ids b) st.rows (run_batch delete_objects exec_ok b st).rows
  unfolding run_batch
  run_batch-Only b st = go (delete_objects (keys_of b) st.store)
    where
      go :
          (r : S × Option (List (Option Text)))
          → Only (pkg_ids b) st.rows (answered delete_objects exec_ok b st r).rows
      go (s, none) = Only-refl _ st.rows
      go (s, some errors) =
          let p = tally (failed_keys errors) b (record st.progress { success_ids = [] }) in
          Only-weaken p.success_ids (pkg_ids b) _ _
            (λ n h.
              listed-tally (failed_keys errors) b (record st.progress { success_ids = [] }) n h
                refl)
            (clear_deployed_hash-Only p.success_ids st.rows)

  pub run_batches-Only :
      (bs : List (List KeyRef)) (st : State delete_objects exec_ok)
      → Only (pkg_ids (concat bs)) st.rows (run_batches delete_objects exec_ok bs st).rows
  unfolding run_batches
  run_batches-Only [] st = Only-refl [] st.rows
  run_batches-Only (b ∷ bs) st =
      let st' = run_batch delete_objects exec_ok b st in
      Only-trans _ st.rows st'.rows _
        (Only-weaken (pkg_ids b) _ _ _ (λ n f. ground (arith, f, both b bs n))
          (run_batch-Only b st))
        (Only-weaken (pkg_ids (concat bs)) _ _ _ (λ n f. ground (arith, f, both b bs n))
          (run_batches-Only bs st'))
    where
      both :
          (xs : List KeyRef) (bs : List (List KeyRef)) (n : ℕ)
          → listed (pkg_ids (xs ++ concat bs)) n
            ≡ (listed (pkg_ids xs) n || listed (pkg_ids (concat bs)) n)
      both [] bs n = refl
      both (x ∷ xs) bs n = ground (arith, both xs bs n)
