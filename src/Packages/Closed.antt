-- ===== src/Packages/Closed.antt =====
-- Permanently closed packages and the queries.
use wp_packages.Base.{
  ℕ, ◌≡◌, Bool, true, false, List, [], ◌∷◌, Text, some, arith, filter, In, if◌then◌else◌,
  Bool-cases, inl, inr, subst,
}
use wp_packages.Packages.{
  Row, Table, UpdateQueryOpts, needs_update, get_packages_needing_update, get_all_packages, Op,
  apply_all,
}
use wp_packages.Packages.Keys.{find_row, apply_all-Survives}

pub closed-needs_update :
    (o : UpdateQueryOpts) (month_ago : ℕ) (r : Row)
    → r.permanently_closed ≡ true
    → needs_update o month_ago r ≡ false
unfolding needs_update
closed-needs_update o month_ago r h = rw h

In-filter : (p : Row → Bool) (rows : Table) (r : Row) → In r (filter p rows) → p r ≡ true
In-filter p [] r i = absurd i
In-filter p (x ∷ rows) r i = go (In-filter p rows r)
  where
    go : (In r (filter p rows) → p r ≡ true) → p r ≡ true
    go ih = elim (Bool-cases (p x)) [
      | inl e ↦ elim (subst (λ b. In r (if b then x ∷ filter p rows else filter p rows)) e i) [
        | inl same ↦ subst (λ z. p z ≡ true) same e
        | inr j ↦ ih j
      ]
      | inr e ↦ ih (subst (λ b. In r (if b then x ∷ filter p rows else filter p rows)) e i)
    ]

-- Once a package is marked permanently closed, no sequence of writes brings its row back into the
-- packages to update, under any options, nor into the packages to check.
pub closed_for_good :
    (t n : Text) (os : List Op) (rows : Table) (r : Row) (o : UpdateQueryOpts) (month_ago : ℕ)
    (pkg_type : Text)
    → find_row t n rows ≡ some r
    → r.permanently_closed ≡ true
    → (r' : Row) × (find_row t n (apply_all os rows) ≡ some r')
      × (r'.id ≡ r.id)
      × ¬ (In r' (get_packages_needing_update o month_ago (apply_all os rows)))
      × ¬ (In r' (get_all_packages pkg_type (apply_all os rows)))
unfolding get_packages_needing_update get_all_packages
closed_for_good t n os rows r o month_ago pkg_type found closed =
    let (r', found', p) = apply_all-Survives t n os rows r found in
    let still = p.closed closed in
    (
      r',
      found',
      p.id,
      λ i. cc (
        In-filter (needs_update o month_ago) (apply_all os rows) r' i,
        closed-needs_update o month_ago r' still,
      ),
      λ i. let k = In-filter _ (apply_all os rows) r' i in ground arith,
    )
