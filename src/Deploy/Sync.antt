-- ===== src/Deploy/Sync.antt =====
-- internal/deploy/sync.go, with the retries of r2.go: bringing the object store up to the packages
-- table. The store's client is a parameter, whose calls succeed or fail, and so are the JSON codec,
-- the hash functions and whether the two UPDATE statements succeed. The uploads, which run
-- concurrently, run here one after the other; the first error stops them.
pub mod Laws
pub mod Store
pub mod Uploaded
mod Tests
use wp_packages.Base.{
  ℕ, zero, suc, ◌+◌, Bool, true, false, not, ◌&&◌, List, [], ◌∷◌, ◌++◌, Text, Map, codes, Option,
  none, some, eq_text, length, is_some, ◌==◌, if◌then◌else◌,
}
use wp_packages.Packages.{
  Row, Table, Listing, update_where, get_dirty_packages, get_deactivated_deployed_packages,
  is_dirty, is_leftover,
}
use wp_packages.Composer.{object_keys, PackageMeta}
use wp_packages.Composer.Files.{Codec, PackageFile, package_files, parse_published_times}

-- One call each of PutObject and DeleteObject, and the ETag that HeadObject reports, empty for an
-- object that does not exist.
pub record Client (S : Type 0) : Type 0 where
  pub put_object : Text → Text → S → S × Bool
  pub delete_object : Text → S → S × Bool
  pub head_object : Text → S → Text

pub record SyncResult : Type 0 where
  pub uploaded : ℕ
  pub deleted : ℕ

abbrev pub r2_index_file : Text
r2_index_file = codes "packages.json"

abbrev pub r2_max_retries : ℕ
r2_max_retries = 3

abbrev pub again : {S : Type 0} → S × Bool → (S → S × Bool) → S × Bool
again (s, true) next = (s, true)
again (s, false) next = next s

-- Up to `n` attempts; the waits between them, which a cancelled context ends early, are left out.
unfoldable pub with_retry : {S : Type 0} → ℕ → (S → S × Bool) → S → S × Bool
with_retry zero fn s = (s, false)
with_retry (suc n) fn s = again (fn s) (with_retry n fn)

abbrev or_empty : Option Text → Text
or_empty none = []
or_empty (some t) = t

unfoldable pub stamp_deployed : Table → Table
unfolding update_where is_dirty
stamp_deployed = update_where is_dirty (λ r. record r { deployed_hash = r.content_hash })

unfoldable pub clear_leftovers : Table → Table
unfolding update_where is_leftover
clear_leftovers = update_where is_leftover (λ r. record r { deployed_hash = none })

abbrev pub nonempty : Table → Bool
nonempty [] = false
nonempty (r ∷ rs) = true

-- Step 4: the two statements, each run only if there was something to do; `false` is an error.
abbrev pub stamp : Bool → Bool → Table → Table × Bool
stamp stamp_ok clear_ok rows =
    let stamped = if nonempty (get_dirty_packages rows) then stamp_deployed rows else rows in
    if nonempty (get_dirty_packages rows) && not stamp_ok
    then (rows, false)
    else if not (nonempty (get_deactivated_deployed_packages rows))
    then (stamped, true)
    else if clear_ok
    then (clear_leftovers stamped, true)
    else (stamped, false)

abbrev pub result : ℕ → ℕ → Table × Bool → Table × Option SyncResult
result up del (rows, false) = (rows, none)
result up del (rows, true) = (rows, some (record { uploaded = up; deleted = del }))

module _ {S : Type 0} (client : Client S) (codec : Codec) (decimal : ℕ → Text) (checksum : Text → ℕ)
    (format_time : ℕ → Text) (md5_tag : Text → Text) where
  unfoldable pub put_object_with_retry : Text → Text → S → S × Bool
  unfolding with_retry
  put_object_with_retry key body = with_retry r2_max_retries (client.put_object key body)

  unfoldable pub delete_object_with_retry : Text → S → S × Bool
  unfolding with_retry
  delete_object_with_retry key = with_retry r2_max_retries (client.delete_object key)

  -- ComposerMeta; the listing's columns that are missing are empty.
  unfoldable pub composer_meta : Row → PackageMeta
  composer_meta p = record {
    description = or_empty p.listing.description;
    homepage = or_empty p.listing.homepage;
    author = or_empty p.listing.author;
    requires_php = [];
    last_updated = elim p.last_committed [ none ↦ [] | some t ↦ format_time t ];
    trunk_revision = p.trunk_revision;
    published_times = parse_published_times codec p.published_times_json;
  }

  -- The store, how many files were uploaded, and whether there was no error.
  abbrev pub counted : (S → ℕ → S × ℕ × Bool) → ℕ → S × Bool → S × ℕ × Bool
  counted next n (s, false) = (s, n, false)
  counted next n (s, true) = next s (n + 1)

  unfoldable pub upload_files : List PackageFile → S → ℕ → S × ℕ × Bool
  unfolding put_object_with_retry
  upload_files [] s n = (s, n, true)
  upload_files (f ∷ fs) s n = counted (upload_files fs) n (put_object_with_retry f.key f.content s)

  abbrev pub continue : (S → ℕ → S × ℕ × Bool) → S × ℕ × Bool → S × ℕ × Bool
  continue next (s, n, false) = (s, n, false)
  continue next (s, n, true) = next s n

  abbrev pub upload_result : Option (List PackageFile) → S → ℕ → S × ℕ × Bool
  upload_result none s n = (s, n, false)
  upload_result (some files) s n = upload_files files s n

  unfoldable pub upload_dirty : Table → S → ℕ → S × ℕ × Bool
  unfolding upload_files composer_meta package_files
  upload_dirty [] s n = (s, n, true)
  upload_dirty (p ∷ ps) s n = continue (upload_dirty ps) (
      upload_result
        (package_files codec decimal checksum p.type p.name p.listing.versions_json
          (composer_meta p))
        s n)

  -- A deletion that fails is logged and passed over.
  unfoldable pub delete_keys : List Text → S → S
  unfolding delete_object_with_retry
  delete_keys [] s = s
  delete_keys (k ∷ ks) s = delete_keys ks (delete_object_with_retry k s).0

  unfoldable pub delete_deactivated : Table → S → S
  unfolding delete_keys object_keys
  delete_deactivated [] s = s
  delete_deactivated (p ∷ ps) s = delete_deactivated ps (delete_keys (object_keys p.type p.name) s)

  -- Step 3: packages.json, unless the store has it already.
  unfoldable pub upload_index : Text → S → S × Bool
  unfolding put_object_with_retry
  upload_index body s =
      if eq_text (client.head_object r2_index_file s) (md5_tag body)
      then (s, true)
      else put_object_with_retry r2_index_file body s

  abbrev pub after_index : Bool → Bool → Table → ℕ → S × Bool → S × Table × Option SyncResult
  after_index stamp_ok clear_ok rows up (s, false) = (s, rows, none)
  after_index stamp_ok clear_ok rows up (s, true) =
      let (rows', res) =
        result up (length (get_deactivated_deployed_packages rows))
          (stamp stamp_ok clear_ok rows) in
      (s, rows', res)

  abbrev pub after_uploads :
      Option Text → Bool → Bool → Table → S × ℕ × Bool → S × Table × Option SyncResult
  after_uploads index stamp_ok clear_ok rows (s, up, false) = (s, rows, none)
  after_uploads none stamp_ok clear_ok rows (s, up, true) =
      (delete_deactivated (get_deactivated_deployed_packages rows) s, rows, none)
  after_uploads (some body) stamp_ok clear_ok rows (s, up, true) =
      after_index stamp_ok clear_ok rows up
        (upload_index body (delete_deactivated (get_deactivated_deployed_packages rows) s))

  -- Sync: the store, the table and the result, missing where it returns an error. `index` is the
  -- bytes of packages.json, missing where they cannot be made.
  unfoldable pub sync : Option Text → Bool → Bool → S → Table → S × Table × Option SyncResult
  unfolding upload_dirty delete_deactivated upload_index stamp_deployed clear_leftovers
      get_dirty_packages get_deactivated_deployed_packages
  sync index stamp_ok clear_ok s rows =
      after_uploads index stamp_ok clear_ok rows (upload_dirty (get_dirty_packages rows) s 0)
