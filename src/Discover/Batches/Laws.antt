-- ===== src/Discover/Batches/Laws.antt =====
-- Batches against one batch.
use wp_packages.Base.{
  ◌≤◌, ◌-◌, zero, ltb, Option, none, some, filter, Map, ℕ, suc, ◌+◌, ◌≡◌, refl, sym, ap, ◌∙◌, Bool,
  true, false, ◌&&◌, List, [], ◌∷◌, ◌++◌, Text, leb, length, map, append-nil, append_assoc, arith,
  Bool-cases, inl, inr, if◌then◌else◌,
}
use wp_packages.Packages.{
  Table, ShellEntry, upsert_shell_package, batch_upsert_shell_packages, backfill_trunk_revisions,
}
use wp_packages.Discover.{is_empty}
use wp_packages.Discover.Batches.{
  SvnEntry, Progress, shell_of, flush, push, flush_full, add_entries, read_source, svn_batch_size,
  backfill_rounds, lacks_revision,
}

batch_upsert_shell_packages-append :
    (id now : ℕ) (xs ys : List ShellEntry) (rows : Table)
    → batch_upsert_shell_packages id now (xs ++ ys) rows
      ≡ batch_upsert_shell_packages
          (id + length xs)
          now
          ys
          (batch_upsert_shell_packages id now xs rows)
unfolding batch_upsert_shell_packages
batch_upsert_shell_packages-append id now [] ys rows = rw (plus_zero id) refl
  where
    plus_zero : (n : ℕ) → n + 0 ≡ n
    plus_zero n = omega arith
batch_upsert_shell_packages-append id now (x ∷ xs) ys rows =
    batch_upsert_shell_packages-append (id + 1) now xs ys (upsert_shell_package id now x rows)
    ∙ ap
        (λ i.
          batch_upsert_shell_packages i now ys
            (batch_upsert_shell_packages (id + 1) now xs (upsert_shell_package id now x rows)))
        (shift id (length xs))
  where
    shift : (i n : ℕ) → i + 1 + n ≡ i + suc n
    shift i n = omega arith

-- The entries that a limit lets through after so many.
unfoldable pub allowed : ℕ → ℕ → List SvnEntry → List SvnEntry
allowed limit total [] = []
allowed limit total (e ∷ es) =
    let rest = allowed limit (suc total) es in
    if ltb 0 limit && leb limit total then [] else e ∷ rest

module _ (now : ℕ) (batch_fails : ℕ → Bool) (upsert_fails : Text → Bool) where
  -- The table once a batch and more entries are written.
  abbrev written_with : Progress → List ShellEntry → Table
  written_with p es = batch_upsert_shell_packages p.next_id now (p.batch ++ es) p.rows

  flush-written_with :
      (p : Progress)
      → batch_fails p.total ≡ false
      → ((es : List ShellEntry)
          → written_with (flush now batch_fails upsert_fails p) es ≡ written_with p es)
        × ((flush now batch_fails upsert_fails p).rows ≡ written_with p [])
        × ((flush now batch_fails upsert_fails p).total ≡ p.total)
  unfolding flush
  flush-written_with p h = elim (Bool-cases (is_empty p.batch)) [
    | inl e ↦
        rw e (λ es. refl, rw (empty p.batch e) (unfold batch_upsert_shell_packages in refl), refl)
    | inr e ↦
        rw (e, h)
          (
            λ es. sym (batch_upsert_shell_packages-append p.next_id now p.batch es p.rows),
            rw (append-nil p.batch) refl,
            refl,
          )
  ]
    where
      empty : (xs : List ShellEntry) → is_empty xs ≡ true → xs ≡ []
      empty [] h = refl
      empty (x ∷ xs) h = cc

  flush_full-written_with :
      (p : Progress)
      → batch_fails p.total ≡ false
      → ((es : List ShellEntry)
          → written_with (flush_full now batch_fails upsert_fails p) es ≡ written_with p es)
        × ((flush_full now batch_fails upsert_fails p).total ≡ p.total)
  flush_full-written_with p h =
      let (w, r, t) = flush-written_with p h in
      elim (Bool-cases (leb svn_batch_size (length p.batch))) [
        | inl e ↦ rw e (w, t)
        | inr e ↦ rw e (λ es. refl, refl)
      ]

  add_entries-written_with :
      (limit : ℕ) (pkg_type : Text) (es : List SvnEntry) (p : Progress)
      → ((n : ℕ) → batch_fails n ≡ false)
      → (written_with (add_entries now batch_fails upsert_fails limit pkg_type es p) []
          ≡ written_with p (map (shell_of pkg_type) (allowed limit p.total es)))
        × ((add_entries now batch_fails upsert_fails limit pkg_type es p).total
            ≡ p.total + length (allowed limit p.total es))
  unfolding add_entries allowed
  add_entries-written_with limit pkg_type [] p h = (refl, omega arith)
  add_entries-written_with limit pkg_type (e ∷ es) p h =
      let pushed = push now batch_fails upsert_fails pkg_type e p in
      let q = flush_full now batch_fails upsert_fails pushed in
      let (w, t) = flush_full-written_with pushed (h pushed.total) in
      let (rest, total) = add_entries-written_with limit pkg_type es q h in
      elim (Bool-cases (ltb 0 limit && leb limit p.total)) [
        | inl b ↦ rw b (refl, omega arith)
        | inr b ↦ rw b (
          rest
              ∙ (ap (λ n. written_with q (map (shell_of pkg_type) (allowed limit n es))) t
                  ∙ (w (map (shell_of pkg_type) (allowed limit (suc p.total) es))
                      ∙ ap (λ xs. batch_upsert_shell_packages p.next_id now xs p.rows)
                          (append_assoc p.batch (shell_of pkg_type e ∷ [])
                            (map (shell_of pkg_type) (allowed limit (suc p.total) es))))),
          total
              ∙ (ap (λ n. n + length (allowed limit n es)) t
                  ∙ suc_plus p.total (length (allowed limit (suc p.total) es))),
        )
      ]
    where
      suc_plus : (i n : ℕ) → suc i + n ≡ i + suc n
      suc_plus i n = omega arith

  -- Where no batch fails, a source that is read in batches leaves the table as one batch does of the
  -- entries that the limit lets through, and counts those.
  pub read_source-one_batch :
      (limit : ℕ) (pkg_type : Text) (es : List SvnEntry) (p : Progress)
      → ((n : ℕ) → batch_fails n ≡ false)
      → p.batch ≡ []
      → ((read_source now batch_fails upsert_fails limit pkg_type es p).rows
          ≡ batch_upsert_shell_packages p.next_id now
              (map (shell_of pkg_type) (allowed limit p.total es))
              p.rows)
        × ((read_source now batch_fails upsert_fails limit pkg_type es p).total
            ≡ p.total + length (allowed limit p.total es))
  unfolding read_source
  read_source-one_batch limit pkg_type es p h b =
      let q = add_entries now batch_fails upsert_fails limit pkg_type es p in
      let (w, r, t) = flush-written_with q (h q.total) in
      let (all, total) = add_entries-written_with limit pkg_type es p h in
      (
        r
            ∙ (all
                ∙ ap
                    (λ xs.
                      batch_upsert_shell_packages p.next_id now
                        (xs ++ map (shell_of pkg_type) (allowed limit p.total es)) p.rows)
                    b),
        t ∙ total,
      )

-- Two fuels that cover the revisions that are left give the same table.
backfill_rounds_enough :
    (fetch : ℕ → ℕ → Option (Map ℕ)) (chunk f g from : ℕ) (rows : Table)
    → from ≤ f
    → from ≤ g
    → backfill_rounds fetch chunk f from rows ≡ backfill_rounds fetch chunk g from rows
unfolding backfill_rounds
backfill_rounds_enough fetch chunk zero zero from rows p q = refl
backfill_rounds_enough fetch chunk zero (suc g) from rows p q = ground (arith, p)
backfill_rounds_enough fetch chunk (suc f) zero from rows p q = ground (arith, q)
backfill_rounds_enough fetch chunk (suc f) (suc g) from rows p q =
    let to = if ltb 1 (from - chunk) then from - chunk else 1 in
    let written : Table = elim (fetch to from) [
      | none ↦ rows
      | some revs ↦ backfill_trunk_revisions revs rows
    ] in
    let rest =
      backfill_rounds_enough fetch chunk f g (to - 1) written (ground (arith, p))
        (ground (arith, q)) in
    ap (λ r. if ltb 0 from && ltb 0 (length (filter lacks_revision rows)) then r else rows) rest
