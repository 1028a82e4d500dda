-- ===== src/Packages/Keys.antt =====
-- The key (type, name) of the packages table, through the writes of the table.
use wp_packages.Base.{
  ℕ, ◌+◌, ◌≡◌, refl, ◌∙◌, Bool, true, false, not, ◌&&◌, List, [], ◌∷◌, Text, Option, none, some,
  if◌then◌else◌, Bool-cases, inl, inr, arith, subst, is_some, codes,
}
use wp_packages.Packages.{
  Row, Table, has_key, update_where, upsert, Package, new_row, merge_row, upsert_package,
  batch_upsert_packages, ShellEntry, shell_row, merge_shell, upsert_shell_package,
  batch_upsert_shell_packages, deactivate_package, mark_permanently_closed, reactivate_package,
  mark_changed, mark_packages_changed, backfill_trunk_revisions, Op, upsert_one, upsert_many,
  shell_one, shell_many, deactivate, close, reactivate, changed, backfill, apply, apply_all,
}

unfoldable pub find_row : Text → Text → Table → Option Row
find_row t n [] = none
find_row t n (r ∷ rs) = if has_key t n r then some r else find_row t n rs

-- What no write changes of a row, and a closure, which no write takes back.
pub record Persists (r r' : Row) : Type 0 where
  pub id : r'.id ≡ r.id
  pub type : r'.type ≡ r.type
  pub name : r'.name ≡ r.name
  pub created : r'.created_at ≡ r.created_at
  pub closed : r.permanently_closed ≡ true → r'.permanently_closed ≡ true

pub Persists-refl : (r : Row) → Persists r r
Persists-refl r = record { id = refl; type = refl; name = refl; created = refl; closed = λ h. h }

pub Persists-trans : (a b c : Row) → Persists a b → Persists b c → Persists a c
Persists-trans a b c p q = record {
  id = q.id ∙ p.id;
  type = q.type ∙ p.type;
  name = q.name ∙ p.name;
  created = q.created ∙ p.created;
  closed = λ h. q.closed (p.closed h);
}

abbrev pub Keeping : (Row → Row) → Type 0
Keeping f = (r : Row) → Persists r (f r)

-- The row under a key after a write.
abbrev pub Survives : Text → Text → (Table → Table) → Type 0
Survives t n w =
    (rows : Table) (r : Row)
    → find_row t n rows ≡ some r
    → (r' : Row) × (find_row t n (w rows) ≡ some r') × Persists r r'

has_key-Persists : (t n : Text) (r r' : Row) → Persists r r' → has_key t n r' ≡ has_key t n r
has_key-Persists t n r r' p = rw (p.type, p.name)

either-Persists :
    (b : Bool) (r x y : Row) → Persists r x → Persists r y → Persists r (if b then x else y)
either-Persists true r x y p q = p
either-Persists false r x y p q = q

update_where-Survives :
    (t n : Text) (p : Row → Bool) (f : Row → Row) → Keeping f → Survives t n (update_where p f)
unfolding find_row update_where
update_where-Survives t n p f k [] r h = absurd (cc)
update_where-Survives t n p f k (x ∷ rows) r h =
    here (either-Persists (p x) x (f x) x (k x) (Persists-refl x))
      (update_where-Survives t n p f k rows r)
  where
    here :
        Persists x (if p x then f x else x)
        → (find_row t n rows ≡ some r
            → (r' : Row) × (find_row t n (update_where p f rows) ≡ some r') × Persists r r')
        → (r' : Row) × (find_row t n (update_where p f (x ∷ rows)) ≡ some r') × Persists r r'
    here q ih = elim (Bool-cases (has_key t n x)) [
      | inl e ↦
          let same : x ≡ r = ground arith in
          (
            if p x then f x else x,
            rw (has_key-Persists t n x _ q, e),
            subst (λ z. Persists z (if p x then f x else x)) same q,
          )
      | inr e ↦
          let (r', found, q') = ih (rw e at h) in (r', rw (has_key-Persists t n x _ q, e) found, q')
    ]

upsert-Survives :
    (t n t' n' : Text) (fresh : Row) (merge : Row → Row)
    → Keeping merge
    → Survives t n (upsert t' n' fresh merge)
unfolding find_row upsert
upsert-Survives t n t' n' fresh merge k [] r h = absurd (cc)
upsert-Survives t n t' n' fresh merge k (x ∷ rows) r h =
    here (upsert-Survives t n t' n' fresh merge k rows r)
  where
    here :
        (find_row t n rows ≡ some r
          → (r' : Row) × (find_row t n (upsert t' n' fresh merge rows) ≡ some r') × Persists r r')
        → (r' : Row) × (find_row t n (upsert t' n' fresh merge (x ∷ rows)) ≡ some r')
          × Persists r r'
    here ih = elim (Bool-cases (has_key t' n' x)) [
      | inl w ↦ elim (Bool-cases (has_key t n x)) [
        | inl e ↦
            let same : x ≡ r = ground arith in
            (merge x, rw (w, has_key-Persists t n x _ (k x), e), rw (← same) (k x))
        | inr e ↦ (r, rw (w, has_key-Persists t n x _ (k x), e) (rw e at h), Persists-refl r)
      ]
      | inr w ↦ elim (Bool-cases (has_key t n x)) [
        | inl e ↦ let same : x ≡ r = ground arith in (x, rw (w, e), rw (← same) (Persists-refl x))
        | inr e ↦ let (r', found, q) = ih (rw e at h) in (r', rw (w, e) found, q)
      ]
    ]

Survives-then :
    (t n : Text) (f g : Table → Table)
    → Survives t n f
    → Survives t n g
    → Survives t n (λ x. g (f x))
Survives-then t n f g a b rows r h =
    let (r', found, p) = a rows r h in
    let (r'', found', q) = b (f rows) r' found in (r'', found', Persists-trans r r' r'' p q)

Survives-same : (t n : Text) → Survives t n (λ x. x)
Survives-same t n rows r h = (r, h, Persists-refl r)

merge_row-Keeping : (now : ℕ) (p : Package) → Keeping (merge_row now p)
unfolding merge_row
merge_row-Keeping now p r = record {
  id = refl;
  type = refl;
  name = refl;
  created = refl;
  closed = λ h. h;
}

merge_shell-Keeping : (now : ℕ) (e : ShellEntry) → Keeping (merge_shell now e)
unfolding merge_shell
merge_shell-Keeping now e r =
    either-Persists r.permanently_closed r r _ (Persists-refl r)
      (record { id = refl; type = refl; name = refl; created = refl; closed = λ h. h })

upsert_package-Survives :
    (t n : Text) (id now : ℕ) (p : Package) → Survives t n (upsert_package id now p)
unfolding upsert_package
upsert_package-Survives t n id now p =
    upsert-Survives t n p.type p.name (new_row id now p) (merge_row now p) (merge_row-Keeping now p)

upsert_shell-Survives :
    (t n : Text) (id now : ℕ) (e : ShellEntry) → Survives t n (upsert_shell_package id now e)
unfolding upsert_shell_package
upsert_shell-Survives t n id now e =
    upsert-Survives t n e.type e.name (shell_row id now e) (merge_shell now e)
      (merge_shell-Keeping now e)

mark_changed-Survives :
    (t n : Text) (now : ℕ) (pkg slug : Text) (rev : ℕ)
    → Survives t n (mark_changed now pkg slug rev)
unfolding mark_changed
mark_changed-Survives t n now pkg slug rev =
    update_where-Survives t n _ _
      (λ r. record { id = refl; type = refl; name = refl; created = refl; closed = λ h. h })

upsert_many-Survives :
    (t n : Text) (id now : ℕ) (ps : List Package) → Survives t n (batch_upsert_packages id now ps)
unfolding batch_upsert_packages
upsert_many-Survives t n id now [] = Survives-same t n
upsert_many-Survives t n id now (p ∷ ps) =
    Survives-then t n (upsert_package id now p) (batch_upsert_packages (id + 1) now ps)
      (upsert_package-Survives t n id now p) (upsert_many-Survives t n (id + 1) now ps)

shell_many-Survives :
    (t n : Text) (id now : ℕ) (es : List ShellEntry)
    → Survives t n (batch_upsert_shell_packages id now es)
unfolding batch_upsert_shell_packages
shell_many-Survives t n id now [] = Survives-same t n
shell_many-Survives t n id now (e ∷ es) =
    Survives-then t n (upsert_shell_package id now e) (batch_upsert_shell_packages (id + 1) now es)
      (upsert_shell-Survives t n id now e) (shell_many-Survives t n (id + 1) now es)

changed-Survives :
    (t n : Text) (now : ℕ) (pkg : Text) (revs : List (Text × ℕ))
    → Survives t n (mark_packages_changed now pkg revs)
unfolding mark_packages_changed
changed-Survives t n now pkg [] = Survives-same t n
changed-Survives t n now pkg ((slug, rev) ∷ revs) =
    Survives-then t n (mark_changed now pkg slug rev) (mark_packages_changed now pkg revs)
      (mark_changed-Survives t n now pkg slug rev) (changed-Survives t n now pkg revs)

backfill-Survives :
    (t n : Text) (revs : List (Text × ℕ)) → Survives t n (backfill_trunk_revisions revs)
unfolding backfill_trunk_revisions
backfill-Survives t n [] = Survives-same t n
backfill-Survives t n ((slug, rev) ∷ revs) =
    Survives-then t n
      (update_where
        (λ r. has_key (codes "plugin") slug r && (r.is_active && not (is_some r.trunk_revision)))
        (λ r. record r { trunk_revision = some rev }))
      (backfill_trunk_revisions revs)
      (update_where-Survives t n _ _
        (λ r. record { id = refl; type = refl; name = refl; created = refl; closed = λ h. h }))
      (backfill-Survives t n revs)

apply-Survives : (t n : Text) (o : Op) → Survives t n (apply o)
unfolding apply deactivate_package mark_permanently_closed reactivate_package
apply-Survives t n (upsert_one id now p) = upsert_package-Survives t n id now p
apply-Survives t n (upsert_many id now ps) = upsert_many-Survives t n id now ps
apply-Survives t n (shell_one id now e) = upsert_shell-Survives t n id now e
apply-Survives t n (shell_many id now es) = shell_many-Survives t n id now es
apply-Survives t n (deactivate now id) =
    update_where-Survives t n _ _
      (λ r. record { id = refl; type = refl; name = refl; created = refl; closed = λ h. h })
apply-Survives t n (close now id) =
    update_where-Survives t n _ _
      (λ r. record { id = refl; type = refl; name = refl; created = refl; closed = λ h. refl })
apply-Survives t n (reactivate now id) =
    update_where-Survives t n _ _
      (λ r. record { id = refl; type = refl; name = refl; created = refl; closed = λ h. h })
apply-Survives t n (changed now pkg revs) = changed-Survives t n now pkg revs
apply-Survives t n (backfill revs) = backfill-Survives t n revs

-- Through any sequence of writes the row under a key stays there, with its id, its creation time
-- and its closure.
pub apply_all-Survives : (t n : Text) (os : List Op) → Survives t n (apply_all os)
unfolding apply_all
apply_all-Survives t n [] = Survives-same t n
apply_all-Survives t n (o ∷ os) =
    Survives-then t n (apply o) (apply_all os) (apply-Survives t n o) (apply_all-Survives t n os)
