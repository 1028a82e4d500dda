-- ===== src/Svn/Tags/Latest.antt =====
-- The date that TagChanges gives a tag, and a package whose tags directory was replaced.
use wp_packages.Base.{
  ℕ, ◌≡◌, ap, refl, sym, ◌∙◌, Bool, true, false, not, ◌&&◌, ◌||◌, List, [], ◌∷◌, Text, Map, Option,
  none, some, eq_text, eq_text_iff, map, filter, lookup, insert, lookup-insert, any, if◌then◌else◌,
  arith, Bool-cases, inl, inr,
}
use wp_packages.Svn.Paths.{tags_ancestor, TagPath, split_tag_path, is_readme}
use wp_packages.Svn.Log.{Commit}
use wp_packages.Svn.Tags.{
  later_date, record_date, mark_ancestor, mark_ancestors, TagKey, same_key, Touched, touch, note,
  key_of, is_exempt, mark_tag, mark_paths, touched_of, tags_at, date_touched, TagChangeSet,
  add_commit, add_commits, tag_changes,
}

-- The latest of some dates.
unfoldable pub newest : List ℕ → Option ℕ
newest [] = none
newest (d ∷ ds) = some (later_date d (newest ds))

newer : Option ℕ → Option ℕ → Option ℕ
newer o none = o
newer o (some d) = some (later_date d o)

date_if : Bool → ℕ → Option ℕ → Option ℕ
date_if b d o = if b then some (later_date d o) else o

abbrev pub changed_by : Bool → Commit → TagKey → Text → Option TagPath → Bool
changed_by x c k p none = false
changed_by x c k p (some t) = same_key (key_of t) k && not (is_exempt x c p t)

-- Whether a path changes the contents of a tag.
unfoldable pub changes_tag : Text → Bool → Commit → TagKey → Text → Bool
unfolding split_tag_path is_readme
changes_tag pkg_type readme_exempt c k p =
    changed_by readme_exempt c k p (split_tag_path pkg_type p)

-- Whether a commit does: a path it replaces counts where it is the readme too.
unfoldable pub commit_changes_tag : Text → TagKey → Commit → Bool
commit_changes_tag pkg_type k c =
    any (changes_tag pkg_type true c k) c.added
    || (any (changes_tag pkg_type true c k) c.modified
        || (any (changes_tag pkg_type true c k) c.deleted
            || any (changes_tag pkg_type false c k) c.replaced))

abbrev pub is_slug : Text → Option Text → Bool
is_slug slug none = false
is_slug slug (some s) = eq_text s slug

-- Whether a commit adds or replaces a directory that holds every tag of a package.
unfoldable pub commit_changes_all : Text → Text → Commit → Bool
commit_changes_all pkg_type slug c =
    any (λ p. is_slug slug (tags_ancestor pkg_type p)) c.added
    || any (λ p. is_slug slug (tags_ancestor pkg_type p)) c.replaced

abbrev pub dates_where : (Commit → Bool) → List Commit → List ℕ
dates_where f cs = map (λ (c : Commit). c.date) (filter f cs)

abbrev any_true : TagKey → Touched → Bool
any_true k t = any (λ (e : TagKey × Bool). same_key e.0 k && e.1) t

any_true-touch :
    (j k : TagKey) (t : Touched) → any_true k (touch j t) ≡ (same_key j k || any_true k t)
unfolding touch
any_true-touch j k [] = ground arith
any_true-touch j k ((i, b) ∷ t) = ground (
  arith,
  eq_text_iff i.0 j.0,
  eq_text_iff i.1 j.1,
  eq_text_iff i.0 k.0,
  eq_text_iff i.1 k.1,
  eq_text_iff j.0 k.0,
  eq_text_iff j.1 k.1,
  any_true-touch j k t,
)

any_true-note : (j k : TagKey) (t : Touched) → any_true k (note j t) ≡ any_true k t
unfolding note
any_true-note j k [] = ground arith
any_true-note j k ((i, b) ∷ t) = ground (arith, any_true-note j k t)

any_true-mark_tag :
    (x : Bool) (c : Commit) (p : Text) (k : TagKey) (o : Option TagPath) (t : Touched)
    → any_true k (mark_tag x c p o t) ≡ (changed_by x c k p o || any_true k t)
any_true-mark_tag x c p k none t = refl
any_true-mark_tag x c p k (some u) t =
    ground (arith, any_true-note (key_of u) k t, any_true-touch (key_of u) k t)

any_true-mark_paths :
    (pkg_type : Text) (x : Bool) (c : Commit) (k : TagKey) (ps : List Text) (t : Touched)
    → any_true k (mark_paths pkg_type x c ps t)
      ≡ (any (changes_tag pkg_type x c k) ps || any_true k t)
unfolding mark_paths changes_tag
any_true-mark_paths pkg_type x c k [] t = refl
any_true-mark_paths pkg_type x c k (p ∷ ps) t =
    any_true-mark_paths pkg_type x c k ps (mark_tag x c p (split_tag_path pkg_type p) t)
    ∙ (ap (λ b. any (changes_tag pkg_type x c k) ps || b)
          (any_true-mark_tag x c p k (split_tag_path pkg_type p) t)
        ∙ swap (any (changes_tag pkg_type x c k) ps) (changes_tag pkg_type x c k p) (any_true k t))
  where
    swap : (a b c : Bool) → (a || (b || c)) ≡ ((b || a) || c)
    swap true true c = refl
    swap true false c = refl
    swap false true c = refl
    swap false false c = refl

any_true-touched_of :
    (pkg_type : Text) (c : Commit) (k : TagKey)
    → any_true k (touched_of pkg_type c) ≡ commit_changes_tag pkg_type k c
unfolding touched_of commit_changes_tag
any_true-touched_of pkg_type c k =
    let added = mark_paths pkg_type true c c.added [] in
    let modified = mark_paths pkg_type true c c.modified added in
    let deleted = mark_paths pkg_type true c c.deleted modified in
    let a = any_true-mark_paths pkg_type true c k c.added [] in
    let m = any_true-mark_paths pkg_type true c k c.modified added in
    let d = any_true-mark_paths pkg_type true c k c.deleted modified in
    let r = any_true-mark_paths pkg_type false c k c.replaced deleted in ground (arith, a, m, d, r)

abbrev pub date_at : Text → Text → Map (Map ℕ) → Option ℕ
date_at slug tag changes = lookup tag (tags_at slug changes)

date_at-insert :
    (slug tag s t : Text) (date : ℕ) (changes : Map (Map ℕ))
    → date_at slug tag (insert s (record_date t date (tags_at s changes)) changes)
      ≡ date_if (eq_text s slug && eq_text t tag) date (date_at slug tag changes)
unfolding record_date date_if
date_at-insert slug tag s t date changes = elim (Bool-cases (eq_text s slug)) [
  | inr e ↦ rw (lookup-insert s slug (record_date t date (tags_at s changes)) changes, e) refl
  | inl e ↦ elim (Bool-cases (eq_text t tag)) [
    | inr f ↦
        rw
          (
            lookup-insert s slug (record_date t date (tags_at s changes)) changes,
            e,
            f,
            lookup-insert t tag (later_date date (lookup t (tags_at s changes)))
                (tags_at s changes),
            f,
            (eq_text_iff s slug).0 e,
          )
          refl
    | inl f ↦
        rw
          (
            lookup-insert s slug (record_date t date (tags_at s changes)) changes,
            e,
            f,
            lookup-insert t tag (later_date date (lookup t (tags_at s changes)))
                (tags_at s changes),
            f,
            (eq_text_iff s slug).0 e,
            (eq_text_iff t tag).0 f,
          )
          refl
  ]
]

later_date-later_date :
    (d : ℕ) (o : Option ℕ) → later_date d (some (later_date d o)) ≡ later_date d o
later_date-later_date d none = ground arith
later_date-later_date d (some e) = ground arith

date_if-date_if :
    (b c : Bool) (d : ℕ) (o : Option ℕ) → date_if b d (date_if c d o) ≡ date_if (c || b) d o
unfolding date_if
date_if-date_if true true d o = ap some (later_date-later_date d o)
date_if-date_if true false d o = refl
date_if-date_if false true d o = refl
date_if-date_if false false d o = refl

no_change : (a b : Bool) → b ≡ (a && false || b)
no_change true b = refl
no_change false b = refl

a_change : (a b : Bool) → (a || b) ≡ (a && true || b)
a_change true b = refl
a_change false b = refl

date_at-date_touched :
    (slug tag : Text) (date : ℕ) (touched : Touched) (changes : Map (Map ℕ))
    → date_at slug tag (date_touched date touched changes)
      ≡ date_if (any_true (slug, tag) touched) date (date_at slug tag changes)
unfolding date_touched
date_at-date_touched slug tag date [] changes = unfold date_if in refl
date_at-date_touched slug tag date ((k, false) ∷ touched) changes =
    date_at-date_touched slug tag date touched changes
    ∙ ap (λ b. date_if b date (date_at slug tag changes))
        (no_change (same_key k (slug, tag)) (any_true (slug, tag) touched))
date_at-date_touched slug tag date ((k, true) ∷ touched) changes =
    date_at-date_touched slug tag date touched
      (insert (k.0) (record_date (k.1) date (tags_at (k.0) changes)) changes)
    ∙ (ap (date_if (any_true (slug, tag) touched) date)
          (date_at-insert slug tag (k.0) (k.1) date changes)
        ∙ (date_if-date_if _ _ date _
            ∙ ap (λ b. date_if b date (date_at slug tag changes))
                (a_change (same_key k (slug, tag)) (any_true (slug, tag) touched))))

newer-date_if :
    (b : Bool) (d : ℕ) (o p : Option ℕ)
    → newer (date_if b d o) p ≡ newer o (if b then some (later_date d p) else p)
unfolding newer date_if
newer-date_if b d none none = ground arith
newer-date_if b d none (some e) = ground arith
newer-date_if b d (some f) none = ground arith
newer-date_if b d (some f) (some e) = ground arith

newest-dates_where :
    (f : Commit → Bool) (c : Commit) (cs : List Commit)
    → newest (dates_where f (c ∷ cs)) ≡ (
        if f c
        then some (later_date c.date (newest (dates_where f cs)))
        else newest (dates_where f cs))
unfolding newest
newest-dates_where f c cs = ground arith

date_at-add_commits :
    (pkg_type slug tag : Text) (cs : List Commit) (s : TagChangeSet)
    → date_at slug tag (add_commits pkg_type cs s).tags
      ≡ newer
          (date_at slug tag s.tags)
          (newest (dates_where (commit_changes_tag pkg_type (slug, tag)) cs))
unfolding add_commits add_commit
date_at-add_commits pkg_type slug tag [] s = unfold newer newest in refl
date_at-add_commits pkg_type slug tag (c ∷ cs) s =
    let first = date_at-date_touched slug tag c.date (touched_of pkg_type c) s.tags in
    let found = any_true-touched_of pkg_type c (slug, tag) in
    let rest = newest (dates_where (commit_changes_tag pkg_type (slug, tag)) cs) in
    date_at-add_commits pkg_type slug tag cs (add_commit pkg_type c s)
    ∙ (ap (λ o. newer o rest) (first ∙ ap (λ b. date_if b c.date (date_at slug tag s.tags)) found)
        ∙ (newer-date_if _ c.date _ rest
            ∙ ap (newer (date_at slug tag s.tags))
                (sym (newest-dates_where (commit_changes_tag pkg_type (slug, tag)) c cs))))

lookup-record_date :
    (slug s : Text) (date : ℕ) (all : Map ℕ)
    → lookup slug (record_date s date all) ≡ date_if (eq_text s slug) date (lookup slug all)
unfolding record_date date_if
lookup-record_date slug s date all = elim (Bool-cases (eq_text s slug)) [
  | inl e ↦
      rw (lookup-insert s slug (later_date date (lookup s all)) all, e, (eq_text_iff s slug).0 e)
        refl
  | inr e ↦ rw (lookup-insert s slug (later_date date (lookup s all)) all, e) refl
]

lookup-mark_ancestor :
    (slug : Text) (date : ℕ) (o : Option Text) (all : Map ℕ)
    → lookup slug (mark_ancestor date o all) ≡ date_if (is_slug slug o) date (lookup slug all)
lookup-mark_ancestor slug date none all = unfold date_if in refl
lookup-mark_ancestor slug date (some s) all = lookup-record_date slug s date all

lookup-mark_ancestors :
    (pkg_type slug : Text) (date : ℕ) (ps : List Text) (all : Map ℕ)
    → lookup slug (mark_ancestors pkg_type date ps all)
      ≡ date_if (any (λ p. is_slug slug (tags_ancestor pkg_type p)) ps) date (lookup slug all)
unfolding mark_ancestors
lookup-mark_ancestors pkg_type slug date [] all = unfold date_if in refl
lookup-mark_ancestors pkg_type slug date (p ∷ ps) all =
    let later = any (λ q. is_slug slug (tags_ancestor pkg_type q)) ps in
    lookup-mark_ancestors pkg_type slug date ps (mark_ancestor date (tags_ancestor pkg_type p) all)
    ∙ (ap (date_if later date) (lookup-mark_ancestor slug date (tags_ancestor pkg_type p) all)
        ∙ date_if-date_if later (is_slug slug (tags_ancestor pkg_type p)) date (lookup slug all))

lookup-add_commits :
    (pkg_type slug : Text) (cs : List Commit) (s : TagChangeSet)
    → lookup slug (add_commits pkg_type cs s).all
      ≡ newer (lookup slug s.all) (newest (dates_where (commit_changes_all pkg_type slug) cs))
unfolding add_commits add_commit commit_changes_all
lookup-add_commits pkg_type slug [] s = unfold newer newest in refl
lookup-add_commits pkg_type slug (c ∷ cs) s =
    let rest = newest (dates_where (commit_changes_all pkg_type slug) cs) in
    let here = any (λ q. is_slug slug (tags_ancestor pkg_type q)) in
    lookup-add_commits pkg_type slug cs (add_commit pkg_type c s)
    ∙ (ap (λ o. newer o rest)
          (lookup-mark_ancestors pkg_type slug c.date c.replaced
              (mark_ancestors pkg_type c.date c.added s.all)
            ∙ (ap (date_if (here c.replaced) c.date)
                  (lookup-mark_ancestors pkg_type slug c.date c.added s.all)
                ∙ date_if-date_if (here c.replaced) (here c.added) c.date (lookup slug s.all)))
        ∙ (newer-date_if (here c.added || here c.replaced) c.date (lookup slug s.all) rest
            ∙ ap (newer (lookup slug s.all))
                (sym (newest-dates_where (commit_changes_all pkg_type slug) c cs))))

newer-none : (o : Option ℕ) → newer none o ≡ o
unfolding newer
newer-none none = refl
newer-none (some d) = refl

-- The date recorded for a tag is the latest date of a commit that changes the tag by a path other
-- than an edit of its readme as a plain file, or that replaces a path of it, and the date recorded
-- for a package is the latest date of a commit that adds or replaces a directory with every tag of
-- it; where no commit does, none is recorded.
pub tag_changes_lem :
    (pkg_type slug tag : Text) (cs : List Commit)
    → (date_at slug tag (tag_changes pkg_type cs).tags
        ≡ newest (dates_where (commit_changes_tag pkg_type (slug, tag)) cs))
      × (lookup slug (tag_changes pkg_type cs).all
          ≡ newest (dates_where (commit_changes_all pkg_type slug) cs))
unfolding tag_changes lookup
tag_changes_lem pkg_type slug tag cs = (
  date_at-add_commits pkg_type slug tag cs (record { tags = []; all = [] })
      ∙ newer-none (newest (dates_where (commit_changes_tag pkg_type (slug, tag)) cs)),
  lookup-add_commits pkg_type slug cs (record { tags = []; all = [] })
      ∙ newer-none (newest (dates_where (commit_changes_all pkg_type slug) cs)),
)
