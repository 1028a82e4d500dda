-- ===== src/Deploy/Sync/Tests.antt =====
-- A synchronization of one dirty package and one that is left over, with a store that takes every
-- call and with one that takes none.
use wp_packages.Base.{
  Map, lookup, insert, delete, lookup-insert, lookup-delete, eq_text_refl, eq_text_iff, ◌≢◌, sym,
  Bool-cases, inl, inr, In, ℕ, ◌+◌, ◌≡◌, refl, true, false, [], ◌∷◌, Text, codes, none, some,
  eq_text, lt_text, length, Bool,
}
use wp_packages.Text.{has_suffix, has_prefix, trim_suffix}
use wp_packages.Packages.{
  Row, Table, shell_row, update_where, is_dirty, is_leftover, get_dirty_packages,
  get_deactivated_deployed_packages,
}
use wp_packages.Version.{normalize_versions, choose_all}
use wp_packages.Composer.{composer_name, object_keys, entries_of, tagged_entries, plugin}
use wp_packages.Composer.Files.{
  Codec, PackageFile, package_files, serialize_package, serialize_decoded,
}
use wp_packages.Deploy.Sync.{
  Client, SyncResult, with_retry, put_object_with_retry, delete_object_with_retry, composer_meta,
  upload_files, upload_dirty, delete_keys, delete_deactivated, upload_index, stamp_deployed,
  clear_leftovers, sync,
}
use wp_packages.Deploy.Sync.Store.{Honest, NotOf}
use wp_packages.Deploy.Sync.Uploaded.{files_of, Alone, sync-stored}
use wp_packages.Deploy.Sync.Laws.{sync-clean, sync-leftovers}

sync_code : Unit {0}
unfolding sync upload_dirty upload_files put_object_with_retry delete_object_with_retry with_retry
    composer_meta delete_keys delete_deactivated upload_index stamp_deployed clear_leftovers
    get_dirty_packages get_deactivated_deployed_packages update_where is_dirty is_leftover shell_row
    package_files serialize_package serialize_decoded composer_name object_keys entries_of
    tagged_entries normalize_versions choose_all has_suffix trim_suffix has_prefix eq_text lt_text
sync_code = tt

-- Counts the calls.
abbrev client : Bool → Client ℕ
client ok = record {
  put_object = λ k d s. (s + 1, ok);
  delete_object = λ k s. (s + 1, ok);
  head_object = λ k s. [];
}

abbrev codec : Codec
codec = record { decode = λ t. some []; encode = λ j. codes "json" }

abbrev seven : ℕ → Text
seven n = codes "7"

abbrev tag : Text → Text
tag d = codes "tag"

abbrev dirty : Row
dirty =
    record (shell_row 1 10 (record { type = plugin; name = codes "a"; last_committed = none })) {
      content_hash = some (codes "h");
    }

abbrev leftover : Row
leftover =
    record (shell_row 2 10 (record { type = plugin; name = codes "b"; last_committed = none })) {
      is_active = false;
      deployed_hash = some (codes "h");
    }

abbrev two_rows : Table
two_rows = dirty ∷ leftover ∷ []

abbrev done : SyncResult
done = record { uploaded = 2; deleted = 1 }

done_run :
    (sync (client true) codec seven length seven tag (some []) true true 0 two_rows).2 ≡ some done
unfolding sync_code
done_run = refl

failed_run :
    (sync (client false) codec seven length seven tag (some []) true true 0 two_rows).2 ≡ none
unfolding sync_code
failed_run = refl

sync-clean_example :
    (get_dirty_packages
        (sync (client true) codec seven length seven tag (some []) true true 0 two_rows).1
      ≡ [])
    × (get_deactivated_deployed_packages
          (sync (client true) codec seven length seven tag (some []) true true 0 two_rows).1
        ≡ [])
sync-clean_example =
    sync-clean (client true) codec seven length seven tag (some []) true true 0 two_rows done
      done_run

sync-leftovers_example :
    get_deactivated_deployed_packages
      (sync (client false) codec seven length seven tag (some []) true true 0 two_rows).1
    ≡ get_deactivated_deployed_packages two_rows
sync-leftovers_example =
    sync-leftovers (client false) codec seven length seven tag (some []) true true 0 two_rows
      failed_run

abbrev disk : Client (Map Text)
disk = record {
  put_object = λ k d s. (insert k d s, true);
  delete_object = λ k s. (delete k s, true);
  head_object = λ k s. [];
}

apart : (j k : Text) → j ≢ k → eq_text k j ≡ false
apart j k h = elim (Bool-cases (eq_text k j)) [
  | inl e ↦ absurd (h (sym ((eq_text_iff k j).0 e)))
  | inr e ↦ e
]

disk_honest : Honest disk (λ k s. lookup k s)
disk_honest = record {
  stored = λ k d s h. rw (lookup-insert k k d s, eq_text_refl k);
  put_other = λ k d j s h. rw (lookup-insert k j d s, apart j k h);
  delete_other = λ k j s h. rw (lookup-delete k j s, apart j k h);
}

abbrev main_file : PackageFile
main_file = record { key = codes "p2/wp-plugin/a.json"; content = codes "json" }

abbrev dev_file : PackageFile
dev_file = record { key = codes "p2/wp-plugin/a~dev.json"; content = codes "json" }

dirty_files :
    files_of disk codec seven length seven tag (λ k s. lookup k s) disk_honest dirty
    ≡ some (main_file ∷ dev_file ∷ [])
unfolding sync_code
dirty_files = refl

disk_run : (sync disk codec seven length seven tag (some []) true true [] two_rows).2 ≡ some done
unfolding sync_code insert delete lookup
disk_run = refl

is_in : In dirty (get_dirty_packages two_rows)
unfolding sync_code
is_in = inl refl

only_dirty :
    Alone disk codec seven length seven tag
      (λ k s. lookup k s)
      disk_honest
      main_file.key
      dirty
      (get_dirty_packages two_rows)
unfolding sync_code
only_dirty q (inl e) = inl (sym e)
only_dirty q (inr e) = absurd e

not_leftover :
    NotOf disk codec seven length seven tag
      (λ k s. lookup k s)
      disk_honest
      main_file.key
      (get_deactivated_deployed_packages two_rows)
unfolding sync_code
not_leftover q (inl e) i = other_key (rw (← e) at i)
  where
    other_key : ¬ (In main_file.key (object_keys leftover.type leftover.name))
    other_key (inl j) = absurd (
        let f : eq_text (codes "p2/wp-plugin/b.json") main_file.key ≡ true =
          (eq_text_iff _ _).1 j in
        cc)
    other_key (inr (inl j)) = absurd (
        let f : eq_text (codes "p2/wp-plugin/b~dev.json") main_file.key ≡ true =
          (eq_text_iff _ _).1 j in
        cc)
    other_key (inr (inr j)) = absurd j
not_leftover q (inr e) i = absurd e

sync-stored_example :
    lookup main_file.key (sync disk codec seven length seven tag (some []) true true [] two_rows).0
    ≡ some (codes "json")
sync-stored_example =
    sync-stored disk codec seven length seven tag (λ k s. lookup k s) disk_honest (some []) true
      true [] two_rows done dirty (main_file ∷ dev_file ∷ []) main_file is_in dirty_files (inl refl)
      only_dirty not_leftover disk_run
