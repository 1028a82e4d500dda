-- ===== src/Deploy/Sync/Uploaded.antt =====
-- The files of the dirty packages through the steps of a synchronization (internal/deploy/sync.go).
use wp_packages.Base.{
  ℕ, ◌≡◌, ◌≢◌, refl, ◌∙◌, Bool, true, false, List, [], ◌∷◌, Text, Option, none, some, All, In, inl,
  inr, ◌⊎◌,
}
use wp_packages.Packages.{Row, Table, get_dirty_packages, get_deactivated_deployed_packages}
use wp_packages.Composer.{object_keys, composer_name}
use wp_packages.Composer.Files.{
  Codec, PackageFile, package_files, Serialized, failed, nothing, bytes, and_then, add_file,
}
use wp_packages.Composer.Files.Laws.{package_files-object_keys}
use wp_packages.Deploy.Sync.{
  Client, SyncResult, composer_meta, continue, upload_result, upload_dirty, delete_deactivated,
  r2_index_file, sync, after_index, after_uploads,
}
use wp_packages.Deploy.Sync.Store.{
  Honest, Apart, NotOf, keys_differ, index_differs, delete_deactivated-other, upload_index-other,
  upload_files-other, upload_files-stored,
}

module _ {S : Type 0} (client : Client S) (codec : Codec) (decimal : ℕ → Text) (checksum : Text → ℕ)
    (format_time : ℕ → Text) (md5_tag : Text → Text) (contents : Text → S → Option Text)
    (honest : Honest client contents) where
  -- The files of a row.
  abbrev pub files_of : Row → Option (List PackageFile)
  files_of p =
      package_files codec decimal checksum p.type p.name p.listing.versions_json
        (composer_meta client codec decimal checksum format_time md5_tag p)

  add-Apart :
      (main dev : Text) (a b : Serialized) (files : List PackageFile)
      → main ≢ dev
      → and_then codec decimal checksum
          (add_file codec decimal checksum main a [])
          (add_file codec decimal checksum dev b)
        ≡ some files
      → Apart files
  add-Apart main dev failed b files n h = absurd (cc)
  add-Apart main dev nothing failed files n h = absurd (cc)
  add-Apart main dev nothing nothing files n h = let e : [] ≡ files = cc in rw (← e) tt
  add-Apart main dev nothing (bytes y) files n h =
      let e : record { key = dev; content = y } ∷ [] ≡ files = cc in rw (← e) (tt, tt)
  add-Apart main dev (bytes x) failed files n h = absurd (cc)
  add-Apart main dev (bytes x) nothing files n h =
      let e : record { key = main; content = x } ∷ [] ≡ files = cc in rw (← e) (tt, tt)
  add-Apart main dev (bytes x) (bytes y) files n h =
      let e : record { key = main; content = x } ∷ record { key = dev; content = y } ∷ [] ≡ files =
        cc in
      rw (← e) ((n, tt), (tt, tt))

  files_of-Apart : (p : Row) (files : List PackageFile) → files_of p ≡ some files → Apart files
  unfolding package_files
  files_of-Apart p files h = add-Apart _ _ _ _ files (keys_differ (composer_name p.type p.name)) h

  not_at :
      (j : Text) (keys : List Text) (fs : List PackageFile)
      → ¬ (In j keys)
      → All (λ (f : PackageFile). In f.key keys) fs
      → All (λ (f : PackageFile). f.key ≢ j) fs
  not_at j keys [] n h = tt
  not_at j keys (f ∷ fs) n h = (λ e. n (rw e at (h.0)), not_at j keys fs n h.1)

  upload_result-other :
      (o : Option (List PackageFile)) (keys : List Text) (j : Text) (s : S) (n : ℕ)
      → ((files : List PackageFile)
          → o ≡ some files
          → All (λ (f : PackageFile). In f.key keys) files)
      → ¬ (In j keys)
      → contents j (upload_result client codec decimal checksum format_time md5_tag o s n).0
        ≡ contents j s
  upload_result-other none keys j s n h m = refl
  upload_result-other (some files) keys j s n h m =
      upload_files-other client codec decimal checksum format_time md5_tag contents honest files j s
        n (not_at j keys files m (h files refl))

  upload_result-stored :
      (o : Option (List PackageFile)) (files : List PackageFile) (f : PackageFile) (s : S) (n : ℕ)
      → o ≡ some files
      → In f files
      → Apart files
      → (upload_result client codec decimal checksum format_time md5_tag o s n).2 ≡ true
      → contents f.key (upload_result client codec decimal checksum format_time md5_tag o s n).0
        ≡ some f.content
  upload_result-stored none files f s n e i a h = absurd (cc)
  upload_result-stored (some gs) files f s n e i a h =
      let eq : gs ≡ files = cc in
      upload_files-stored client codec decimal checksum format_time md5_tag contents honest gs f s n
        (rw eq i) (rw eq a) h

  chain :
      (Mid Post : S → Type 0) (next : S → ℕ → S × ℕ × Bool) (r : S × ℕ × Bool)
      → (r.2 ≡ true → Mid r.0)
      → ((s : S) (n : ℕ) → Mid s → (next s n).2 ≡ true → Post (next s n).0)
      → (continue client codec decimal checksum format_time md5_tag next r).2 ≡ true
      → Post (continue client codec decimal checksum format_time md5_tag next r).0
  chain Mid Post next (s, n, false) f g h = absurd (cc)
  chain Mid Post next (s, n, true) f g h = g s n (f refl) h

  -- Every row of the list but `p` has other keys.
  abbrev pub Alone : Text → Row → Table → Type 0
  Alone k p ps = (q : Row) → In q ps → (q ≡ p) ⊎ ¬ (In k (object_keys q.type q.name))

  module _ (p : Row) (files : List PackageFile) (f : PackageFile) (made : files_of p ≡ some files)
      (i : In f files) where
    abbrev Holds : S → Type 0
    Holds s = contents f.key s ≡ some f.content

    own :
        (q : Row) (s : S) (n : ℕ)
        → q ≡ p
        → (upload_result client codec decimal checksum format_time md5_tag (files_of q) s n).2
          ≡ true
        → Holds (upload_result client codec decimal checksum format_time md5_tag (files_of q) s n).0
    own q s n e h =
        let made' : files_of q ≡ some files = rw e made in
        upload_result-stored (files_of q) files f s n made' i (files_of-Apart p files made) h

    upload_dirty-kept :
        (ps : Table) (s : S) (n : ℕ)
        → Alone f.key p ps
        → Holds s
        → (upload_dirty client codec decimal checksum format_time md5_tag ps s n).2 ≡ true
        → Holds (upload_dirty client codec decimal checksum format_time md5_tag ps s n).0
    unfolding upload_dirty
    upload_dirty-kept [] s n a c h = c
    upload_dirty-kept (q ∷ ps) s n a c h =
        chain Holds Holds (upload_dirty client codec decimal checksum format_time md5_tag ps)
          (upload_result client codec decimal checksum format_time md5_tag (files_of q) s n)
          (λ ok. elim (a q (inl refl)) [
            | inl e ↦ own q s n e ok
            | inr m ↦
                upload_result-other (files_of q) (object_keys q.type q.name) f.key s n
                  (λ gs e.
                    package_files-object_keys codec decimal checksum q.type q.name
                      q.listing.versions_json _ gs e)
                  m
                ∙ c
          ])
          (λ s' n' c' ok. upload_dirty-kept ps s' n' (λ r j. a r (inr j)) c' ok) h

    upload_dirty-stored :
        (ps : Table) (s : S) (n : ℕ)
        → In p ps
        → Alone f.key p ps
        → (upload_dirty client codec decimal checksum format_time md5_tag ps s n).2 ≡ true
        → Holds (upload_dirty client codec decimal checksum format_time md5_tag ps s n).0
    unfolding upload_dirty
    upload_dirty-stored [] s n j a h = absurd j
    upload_dirty-stored (q ∷ ps) s n (inl e) a h =
        chain Holds Holds (upload_dirty client codec decimal checksum format_time md5_tag ps)
          (upload_result client codec decimal checksum format_time md5_tag (files_of q) s n)
          (own q s n e) (λ s' n' c ok. upload_dirty-kept ps s' n' (λ r j. a r (inr j)) c ok) h
    upload_dirty-stored (q ∷ ps) s n (inr j) a h =
        chain (λ x. Unit) Holds (upload_dirty client codec decimal checksum format_time md5_tag ps)
          (upload_result client codec decimal checksum format_time md5_tag (files_of q) s n)
          (λ ok. tt) (λ s' n' c ok. upload_dirty-stored ps s' n' j (λ r k. a r (inr k)) ok) h

  All-In :
      (j : Text) (keys : List Text) (fs : List PackageFile) (f : PackageFile)
      → All (λ (g : PackageFile). In g.key keys) fs
      → In f fs
      → In f.key keys
  All-In j keys [] f h i = absurd i
  All-In j keys (g ∷ fs) f h (inl e) = rw (← e) (h.0)
  All-In j keys (g ∷ fs) f h (inr i) = All-In j keys fs f h.1 i

  -- Where a synchronization returns a result, with a store that does what it reports, the store holds
  -- every file of every package that was dirty under its key, provided that no other dirty package
  -- and no deactivated one with a deployed hash has that key.
  pub sync-stored :
      (index : Option Text) (stamp_ok clear_ok : Bool) (s : S) (rows : Table) (res : SyncResult)
      (p : Row) (files : List PackageFile) (f : PackageFile)
      → In p (get_dirty_packages rows)
      → files_of p ≡ some files
      → In f files
      → Alone f.key p (get_dirty_packages rows)
      → NotOf client codec decimal checksum format_time md5_tag contents honest f.key
          (get_deactivated_deployed_packages rows)
      → (sync client codec decimal checksum format_time md5_tag index stamp_ok clear_ok s rows).2
        ≡ some res
      → contents f.key
          (sync client codec decimal checksum format_time md5_tag index stamp_ok clear_ok s rows).0
        ≡ some f.content
  unfolding sync
  sync-stored index stamp_ok clear_ok s rows res p files f d made i alone others h =
      at_uploads index
        (upload_dirty client codec decimal checksum format_time md5_tag (get_dirty_packages rows) s
          0)
        (upload_dirty-stored p files f made i (get_dirty_packages rows) s 0 d alone) h
    where
      not_index : f.key ≢ r2_index_file
      not_index = index_differs p.type p.name f.key (
          All-In f.key (object_keys p.type p.name) files f
            (package_files-object_keys codec decimal checksum p.type p.name p.listing.versions_json
              _ files made)
            i)

      at_index :
          (up : ℕ) (o : S × Bool)
          → contents f.key o.0 ≡ some f.content
          → contents f.key
              (after_index client codec decimal checksum format_time md5_tag stamp_ok clear_ok rows
                up o).0
            ≡ some f.content
      at_index up (s', false) c = c
      at_index up (s', true) c = c

      at_uploads :
          (index : Option Text) (o : S × ℕ × Bool)
          → (o.2 ≡ true → contents f.key o.0 ≡ some f.content)
          → (after_uploads client codec decimal checksum format_time md5_tag index stamp_ok clear_ok
              rows o).2
            ≡ some res
          → contents f.key
              (after_uploads client codec decimal checksum format_time md5_tag index stamp_ok
                clear_ok rows o).0
            ≡ some f.content
      at_uploads index (s', up, false) c e = absurd (cc)
      at_uploads none (s', up, true) c e = absurd (cc)
      at_uploads (some body) (s', up, true) c e =
          let gone = get_deactivated_deployed_packages rows in
          at_index up _ (
            upload_index-other client codec decimal checksum format_time md5_tag contents honest
              body f.key
              (delete_deactivated client codec decimal checksum format_time md5_tag gone s')
              not_index
            ∙ (delete_deactivated-other client codec decimal checksum format_time md5_tag contents
                  honest gone f.key s' others
                ∙ c refl))
