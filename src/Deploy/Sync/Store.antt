-- ===== src/Deploy/Sync/Store.antt =====
-- The single steps of a synchronization with a store whose calls do what they report.
use wp_packages.Base.{
  ℕ, zero, suc, ◌+◌, ◌≡◌, ◌≢◌, refl, sym, ap, ◌∙◌, Bool, true, false, List, [], ◌∷◌, ◌++◌, Text,
  Option, some, codes, All, In, inl, inr, arith, length, length-append, Bool-cases, eq_text,
}
use wp_packages.Packages.{Row, Table}
use wp_packages.Composer.{object_keys}
use wp_packages.Composer.Files.{Codec, PackageFile}
use wp_packages.Deploy.Sync.{
  Client, again, with_retry, put_object_with_retry, delete_object_with_retry, counted, upload_files,
  delete_keys, delete_deactivated, upload_index, r2_index_file, r2_max_retries,
}

-- What a call that reports success has done, and that no call touches another key.
pub record Honest {S : Type 0} (client : Client S) (contents : Text → S → Option Text)
    : Type 0 where
  pub stored :
      (k d : Text) (s : S)
      → (client.put_object k d s).1 ≡ true
      → contents k (client.put_object k d s).0 ≡ some d
  pub put_other :
      (k d j : Text) (s : S) → j ≢ k → contents j (client.put_object k d s).0 ≡ contents j s
  pub delete_other :
      (k j : Text) (s : S) → j ≢ k → contents j (client.delete_object k s).0 ≡ contents j s

module _ {S : Type 0} (contents : Text → S → Option Text) where
  retry-other :
      (j : Text) (fn : S → S × Bool)
      → ((s : S) → contents j (fn s).0 ≡ contents j s)
      → (n : ℕ) (s : S) → contents j (with_retry n fn s).0 ≡ contents j s
  unfolding with_retry
  retry-other j fn h zero s = refl
  retry-other j fn h (suc n) s = go (fn s) (h s) (retry-other j fn h n)
    where
      go :
          (r : S × Bool)
          → contents j r.0 ≡ contents j s
          → ((s : S) → contents j (with_retry n fn s).0 ≡ contents j s)
          → contents j (again r (with_retry n fn)).0 ≡ contents j s
      go (s', true) e ih = e
      go (s', false) e ih = ih s' ∙ e

  retry-stored :
      (k d : Text) (fn : S → S × Bool)
      → ((s : S) → (fn s).1 ≡ true → contents k (fn s).0 ≡ some d)
      → (n : ℕ) (s : S) → (with_retry n fn s).1 ≡ true
      → contents k (with_retry n fn s).0 ≡ some d
  unfolding with_retry
  retry-stored k d fn h zero s e = absurd (cc)
  retry-stored k d fn h (suc n) s e = go (fn s) (h s) (retry-stored k d fn h n) e
    where
      go :
          (r : S × Bool)
          → (r.1 ≡ true → contents k r.0 ≡ some d)
          → ((s : S) → (with_retry n fn s).1 ≡ true → contents k (with_retry n fn s).0 ≡ some d)
          → (again r (with_retry n fn)).1 ≡ true
          → contents k (again r (with_retry n fn)).0 ≡ some d
      go (s', true) f ih g = f refl
      go (s', false) f ih g = ih s' g

-- The second file of a package stands under another key.
pub keys_differ :
    (n : Text) → codes "p2/" ++ (n ++ codes ".json") ≢ codes "p2/" ++ (n ++ codes "~dev.json")
keys_differ n h = absurd (
    omega
      (arith, ap length h, length-append n (codes ".json"), length-append n (codes "~dev.json")))

second : Text → ℕ
second (a ∷ b ∷ s) = b
second _ = 0

pub index_differs : (t n k : Text) → In k (object_keys t n) → k ≢ r2_index_file
unfolding object_keys second
index_differs t n k (inl e) h = absurd (omega (arith, ap second (e ∙ h)))
index_differs t n k (inr (inl e)) h = absurd (omega (arith, ap second (e ∙ h)))
index_differs t n k (inr (inr e)) h = absurd e

-- No key stands twice.
abbrev pub Apart : List PackageFile → Type 0
Apart [] = Unit
Apart (f ∷ fs) = All (λ (g : PackageFile). f.key ≢ g.key) fs × Apart fs

module _ {S : Type 0} (client : Client S) (codec : Codec) (decimal : ℕ → Text) (checksum : Text → ℕ)
    (format_time : ℕ → Text) (md5_tag : Text → Text) (contents : Text → S → Option Text)
    (honest : Honest client contents) where
  put-other :
      (k d j : Text) (s : S)
      → j ≢ k
      → contents j (put_object_with_retry client codec decimal checksum format_time md5_tag k d s).0
        ≡ contents j s
  unfolding put_object_with_retry
  put-other k d j s h =
      retry-other contents j (client.put_object k d) (λ s'. honest.put_other k d j s' h)
        r2_max_retries s

  put-stored :
      (k d : Text) (s : S)
      → (put_object_with_retry client codec decimal checksum format_time md5_tag k d s).1 ≡ true
      → contents k (put_object_with_retry client codec decimal checksum format_time md5_tag k d s).0
        ≡ some d
  unfolding put_object_with_retry
  put-stored k d s h =
      retry-stored contents k d (client.put_object k d) (honest.stored k d) r2_max_retries s h

  delete_keys-other :
      (ks : List Text) (j : Text) (s : S)
      → ¬ (In j ks)
      → contents j (delete_keys client codec decimal checksum format_time md5_tag ks s)
        ≡ contents j s
  unfolding delete_keys delete_object_with_retry
  delete_keys-other [] j s h = refl
  delete_keys-other (k ∷ ks) j s h =
      delete_keys-other ks j (with_retry r2_max_retries (client.delete_object k) s).0
        (λ i. h (inr i))
      ∙ retry-other contents j (client.delete_object k)
          (λ s'. honest.delete_other k j s' (λ e. h (inl (sym e)))) r2_max_retries s

  -- No package of the list has the key.
  abbrev pub NotOf : Text → Table → Type 0
  NotOf j ps = (q : Row) → In q ps → ¬ (In j (object_keys q.type q.name))

  pub delete_deactivated-other :
      (ps : Table) (j : Text) (s : S)
      → NotOf j ps
      → contents j (delete_deactivated client codec decimal checksum format_time md5_tag ps s)
        ≡ contents j s
  unfolding delete_deactivated
  delete_deactivated-other [] j s h = refl
  delete_deactivated-other (p ∷ ps) j s h =
      delete_deactivated-other ps j _ (λ q i. h q (inr i))
      ∙ delete_keys-other (object_keys p.type p.name) j s (h p (inl refl))

  pub upload_index-other :
      (body j : Text) (s : S)
      → j ≢ r2_index_file
      → contents j (upload_index client codec decimal checksum format_time md5_tag body s).0
        ≡ contents j s
  unfolding upload_index
  upload_index-other body j s h =
      elim (Bool-cases (eq_text (client.head_object r2_index_file s) (md5_tag body))) [
        | inl e ↦ rw e refl
        | inr e ↦ rw e (put-other r2_index_file body j s h)
      ]

  pub upload_files-other :
      (fs : List PackageFile) (j : Text) (s : S) (n : ℕ)
      → All (λ (f : PackageFile). f.key ≢ j) fs
      → contents j (upload_files client codec decimal checksum format_time md5_tag fs s n).0
        ≡ contents j s
  unfolding upload_files
  upload_files-other [] j s n h = refl
  upload_files-other (f ∷ fs) j s n h =
      go (put_object_with_retry client codec decimal checksum format_time md5_tag f.key f.content s)
        (put-other f.key f.content j s (λ e. h.0 (sym e)))
        (λ s' n'. upload_files-other fs j s' n' h.1)
    where
      next : S → ℕ → S × ℕ × Bool
      next = upload_files client codec decimal checksum format_time md5_tag fs

      go :
          (r : S × Bool)
          → contents j r.0 ≡ contents j s
          → ((s' : S) (n' : ℕ) → contents j (next s' n').0 ≡ contents j s')
          → contents j (counted client codec decimal checksum format_time md5_tag next n r).0
            ≡ contents j s
      go (s', false) e ih = e
      go (s', true) e ih = ih s' (n + 1) ∙ e

  pub upload_files-stored :
      (fs : List PackageFile) (f : PackageFile) (s : S) (n : ℕ)
      → In f fs
      → Apart fs
      → (upload_files client codec decimal checksum format_time md5_tag fs s n).2 ≡ true
      → contents f.key (upload_files client codec decimal checksum format_time md5_tag fs s n).0
        ≡ some f.content
  unfolding upload_files
  upload_files-stored [] f s n i a h = absurd i
  upload_files-stored (g ∷ fs) f s n i a h =
      go (put_object_with_retry client codec decimal checksum format_time md5_tag g.key g.content s)
        (put-stored g.key g.content s) (λ s' n' k. upload_files-stored fs f s' n' k a.1) h
    where
      next : S → ℕ → S × ℕ × Bool
      next = upload_files client codec decimal checksum format_time md5_tag fs

      others :
          (xs : List PackageFile)
          → All (λ (x : PackageFile). g.key ≢ x.key) xs
          → All (λ (x : PackageFile). x.key ≢ g.key) xs
      others [] m = tt
      others (x ∷ xs) m = (λ e. m.0 (sym e), others xs m.1)

      go :
          (r : S × Bool)
          → (r.1 ≡ true → contents g.key r.0 ≡ some g.content)
          → ((s' : S) (n' : ℕ)
              → In f fs
              → (next s' n').2 ≡ true
              → contents f.key (next s' n').0 ≡ some f.content)
          → (counted client codec decimal checksum format_time md5_tag next n r).2 ≡ true
          → contents f.key (counted client codec decimal checksum format_time md5_tag next n r).0
            ≡ some f.content
      go (s', false) e ih k = absurd (cc)
      go (s', true) e ih k = elim i [
        | inl j ↦ rw (← j) (upload_files-other fs g.key s' (n + 1) (others fs a.0) ∙ e refl)
        | inr j ↦ ih s' (n + 1) j k
      ]
