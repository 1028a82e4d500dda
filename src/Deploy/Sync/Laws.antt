-- ===== src/Deploy/Sync/Laws.antt =====
-- What a synchronization leaves in the packages table.
use wp_packages.Base.{
  ℕ, ◌≡◌, refl, sym, ◌∙◌, ap, Bool, true, false, [], ◌∷◌, Text, Option, none, some, eq_text_refl,
  if◌then◌else◌, arith, filter, is_some, Bool-cases, inl, inr, ◌⊎◌,
}
use wp_packages.Packages.{
  Row, Table, update_where, is_dirty, is_leftover, differs, get_dirty_packages,
  get_deactivated_deployed_packages,
}
use wp_packages.Composer.Files.{Codec}
use wp_packages.Deploy.Sync.{
  Client, SyncResult, stamp_deployed, clear_leftovers, nonempty, sync, stamp, result, after_index,
  after_uploads, delete_deactivated, upload_index, upload_dirty,
}

differs-same : (o : Option Text) → differs o o ≡ false
differs-same none = refl
differs-same (some t) = rw (eq_text_refl t)

not_both : (r : Row) → is_dirty r ≡ true → is_leftover r ≡ false
unfolding is_dirty is_leftover
not_both r h = ground arith

nonempty-false : (rows : Table) → nonempty rows ≡ false → rows ≡ []
nonempty-false [] h = refl
nonempty-false (r ∷ rows) h = absurd (cc)

is_dirty-stamped : (r : Row) → is_dirty (record r { deployed_hash = r.content_hash }) ≡ false
unfolding is_dirty
is_dirty-stamped r = rw (differs-same r.content_hash) (ground arith)

get_dirty-stamp_deployed : (rows : Table) → filter is_dirty (stamp_deployed rows) ≡ []
unfolding stamp_deployed update_where
get_dirty-stamp_deployed [] = refl
get_dirty-stamp_deployed (r ∷ rows) = elim (Bool-cases (is_dirty r)) [
  | inl e ↦ rw (e, is_dirty-stamped r) (get_dirty-stamp_deployed rows)
  | inr e ↦ rw (e, e) (get_dirty-stamp_deployed rows)
]

leftovers-stamp_deployed :
    (rows : Table) → filter is_leftover (stamp_deployed rows) ≡ filter is_leftover rows
unfolding stamp_deployed update_where
leftovers-stamp_deployed [] = refl
leftovers-stamp_deployed (r ∷ rows) = elim (Bool-cases (is_dirty r)) [
  | inl e ↦
      let n : is_leftover (record r { deployed_hash = r.content_hash }) ≡ false =
        unfold is_dirty in unfold is_leftover in ground arith in
      rw (e, n, not_both r e) (leftovers-stamp_deployed rows)
  | inr e ↦ rw e (elim (Bool-cases (is_leftover r)) [
    | inl k ↦ rw k (rw (leftovers-stamp_deployed rows))
    | inr k ↦ rw k (leftovers-stamp_deployed rows)
  ])
]

leftovers-clear_leftovers : (rows : Table) → filter is_leftover (clear_leftovers rows) ≡ []
unfolding clear_leftovers update_where
leftovers-clear_leftovers [] = refl
leftovers-clear_leftovers (r ∷ rows) = elim (Bool-cases (is_leftover r)) [
  | inl e ↦
      let n : is_leftover (record r { deployed_hash = none }) ≡ false =
        unfold is_leftover in ground arith in
      rw (e, n) (leftovers-clear_leftovers rows)
  | inr e ↦ rw (e, e) (leftovers-clear_leftovers rows)
]

get_dirty-clear_leftovers :
    (rows : Table) → filter is_dirty rows ≡ [] → filter is_dirty (clear_leftovers rows) ≡ []
unfolding clear_leftovers update_where
get_dirty-clear_leftovers [] h = refl
get_dirty-clear_leftovers (r ∷ rows) h = elim (Bool-cases (is_dirty r)) [
  | inl e ↦ absurd (let h' : r ∷ filter is_dirty rows ≡ [] = rw e at h in cc)
  | inr e ↦ elim (Bool-cases (is_leftover r)) [
    | inl k ↦
        let n : is_dirty (record r { deployed_hash = none }) ≡ false =
          unfold is_dirty in unfold is_leftover in ground arith in
        rw (k, n) (get_dirty-clear_leftovers rows (rw e at h))
    | inr k ↦ rw (k, e) (get_dirty-clear_leftovers rows (rw e at h))
  ]
]

-- After both statements that are due, no row is dirty or left over.
stamp-clean :
    (stamp_ok clear_ok : Bool) (rows : Table)
    → (stamp stamp_ok clear_ok rows).1 ≡ true
    → (get_dirty_packages (stamp stamp_ok clear_ok rows).0 ≡ [])
      × (get_deactivated_deployed_packages (stamp stamp_ok clear_ok rows).0 ≡ [])
unfolding get_dirty_packages get_deactivated_deployed_packages
stamp-clean stamp_ok clear_ok rows h =
    let stamped = if nonempty (filter is_dirty rows) then stamp_deployed rows else rows in
    let clean : filter is_dirty stamped ≡ [] = elim (Bool-cases (nonempty (filter is_dirty rows))) [
      | inl d ↦ rw d (get_dirty-stamp_deployed rows)
      | inr d ↦ rw d (nonempty-false _ d)
    ] in
    let same : filter is_leftover stamped ≡ filter is_leftover rows =
      elim (Bool-cases (nonempty (filter is_dirty rows))) [
        | inl d ↦ rw d (leftovers-stamp_deployed rows)
        | inr d ↦ rw d refl
      ] in
    ground (
      arith,
      clean,
      same,
      h,
      get_dirty-clear_leftovers stamped clean,
      leftovers-clear_leftovers stamped,
      nonempty-false (filter is_leftover rows),
    )

stamp-leftovers :
    (stamp_ok clear_ok : Bool) (rows : Table)
    → (stamp stamp_ok clear_ok rows).1 ≡ false
    → get_deactivated_deployed_packages (stamp stamp_ok clear_ok rows).0
      ≡ get_deactivated_deployed_packages rows
unfolding get_dirty_packages get_deactivated_deployed_packages
stamp-leftovers stamp_ok clear_ok rows h = elim (Bool-cases (nonempty (filter is_dirty rows))) [
  | inl d ↦ rw d (ground (arith, leftovers-stamp_deployed rows, d, h))
  | inr d ↦ rw d (ground (arith, d, h))
]

module _ {S : Type 0} (client : Client S) (codec : Codec) (decimal : ℕ → Text) (checksum : Text → ℕ)
    (format_time : ℕ → Text) (md5_tag : Text → Text) where
  -- The table is as before, or as the statements of the last step leave it.
  sync_outcomes :
      (index : Option Text) (stamp_ok clear_ok : Bool) (s : S) (rows : Table)
      → (let o =
            sync client codec decimal checksum format_time md5_tag index stamp_ok clear_ok s rows in
          (o.1 ≡ rows) × (o.2 ≡ none)
          ⊎ (o.1 ≡ (stamp stamp_ok clear_ok rows).0)
            × (is_some o.2 ≡ (stamp stamp_ok clear_ok rows).1))
  unfolding sync
  sync_outcomes index stamp_ok clear_ok s rows =
      at_uploads index
        (upload_dirty client codec decimal checksum format_time md5_tag (filter is_dirty rows) s 0)
    where
      Outcome : S × Table × Option SyncResult → Type 0
      Outcome o =
          (o.1 ≡ rows) × (o.2 ≡ none)
          ⊎ (o.1 ≡ (stamp stamp_ok clear_ok rows).0)
            × (is_some o.2 ≡ (stamp stamp_ok clear_ok rows).1)

      at_result :
          (up del : ℕ) (o : Table × Bool)
          → ((result up del o).0 ≡ o.0) × (is_some (result up del o).1 ≡ o.1)
      at_result up del (t, false) = (refl, refl)
      at_result up del (t, true) = (refl, refl)

      at_index :
          (up : ℕ) (o : S × Bool)
          → Outcome (
              after_index client codec decimal checksum format_time md5_tag stamp_ok clear_ok rows
                up o)
      at_index up (s', false) = inl (refl, refl)
      at_index up (s', true) = inr (at_result up _ (stamp stamp_ok clear_ok rows))

      at_uploads :
          (index : Option Text) (o : S × ℕ × Bool)
          → Outcome (
              after_uploads client codec decimal checksum format_time md5_tag index stamp_ok
                clear_ok rows o)
      at_uploads index (s', up, false) = inl (refl, refl)
      at_uploads none (s', up, true) = inl (refl, refl)
      at_uploads (some body) (s', up, true) = at_index up (
          upload_index client codec decimal checksum format_time md5_tag body (
            delete_deactivated client codec decimal checksum format_time md5_tag
              (filter is_leftover rows) s'))

  -- Where a synchronization returns a result, no active package is left with a content hash that is
  -- not its deployed hash, and no inactive package with a deployed hash.
  pub sync-clean :
      (index : Option Text) (stamp_ok clear_ok : Bool) (s : S) (rows : Table) (res : SyncResult)
      → (sync client codec decimal checksum format_time md5_tag index stamp_ok clear_ok s rows).2
        ≡ some res
      → (get_dirty_packages
            (sync client codec decimal checksum format_time md5_tag index stamp_ok clear_ok s
              rows).1
          ≡ [])
        × (get_deactivated_deployed_packages
              (sync client codec decimal checksum format_time md5_tag index stamp_ok clear_ok s
                rows).1
            ≡ [])
  sync-clean index stamp_ok clear_ok s rows res h =
      elim (sync_outcomes index stamp_ok clear_ok s rows) [
        | inl o ↦ absurd (let n : some res ≡ none = sym h ∙ o.1 in cc)
        | inr o ↦
            let ok : (stamp stamp_ok clear_ok rows).1 ≡ true = sym o.1 ∙ ap is_some h in
            rw (o.0) (stamp-clean stamp_ok clear_ok rows ok)
      ]

  -- Where a synchronization returns an error, the packages whose files are to be deleted are the same
  -- as before.
  pub sync-leftovers :
      (index : Option Text) (stamp_ok clear_ok : Bool) (s : S) (rows : Table)
      → (sync client codec decimal checksum format_time md5_tag index stamp_ok clear_ok s rows).2
        ≡ none
      → get_deactivated_deployed_packages
          (sync client codec decimal checksum format_time md5_tag index stamp_ok clear_ok s rows).1
        ≡ get_deactivated_deployed_packages rows
  sync-leftovers index stamp_ok clear_ok s rows h =
      elim (sync_outcomes index stamp_ok clear_ok s rows) [
        | inl o ↦ rw (o.0) refl
        | inr o ↦
            let ok : (stamp stamp_ok clear_ok rows).1 ≡ false = sym o.1 ∙ ap is_some h in
            rw (o.0) (stamp-leftovers stamp_ok clear_ok rows ok)
      ]
