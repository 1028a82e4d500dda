-- ===== src/Svn/Log/Revisions.antt =====
-- The revisions that a log records for a slug.
use wp_packages.Base.{
  ℕ, ◌≡◌, ◌≢◌, refl, ◌||◌, ap, sym, ◌∙◌, Bool, List, [], ◌∷◌, ◌++◌, Text, Map, some, eq_text,
  eq_text_iff, map, append-nil, append_assoc, lookup, lookup-insert, ltb, any, if◌then◌else◌, arith,
}
use wp_packages.Text.{or_else}
use wp_packages.Svn.Paths.{slug_from_path}
use wp_packages.Svn.Log.{
  LogPath, LogItem, SvnLog, path_texts, commit_of, paths, raise_revision, raise_revisions, add_item,
  add_items, parse_svn_log, empty_log,
}

unfoldable pub greater : ℕ → ℕ → ℕ
greater a b = if ltb a b then b else a

abbrev paths_of : LogItem → List LogPath
paths_of item =
    item.added_paths ++ (item.modified_paths ++ (item.deleted_paths ++ item.replaced_paths))

-- Whether an item has a path of the slug that is added, modified, deleted or replaced.
unfoldable pub touches : Text → LogItem → Bool
touches slug item = any (λ (p : LogPath). eq_text (slug_from_path p.path) slug) (paths_of item)

path_texts-append : (xs ys : List LogPath) → path_texts (xs ++ ys) ≡ path_texts xs ++ path_texts ys
path_texts-append [] ys = refl
path_texts-append (x ∷ xs) ys = ap (λ t. x.path ∷ t) (path_texts-append xs ys)

any-path_texts :
    (f : Text → Bool) (ps : List LogPath)
    → any f (path_texts ps) ≡ any (λ (p : LogPath). f p.path) ps
any-path_texts f [] = refl
any-path_texts f (p ∷ ps) = ap (λ b. f p.path || b) (any-path_texts f ps)

paths-commit_of : (item : LogItem) → paths (commit_of item) ≡ path_texts (paths_of item)
unfolding paths commit_of
paths-commit_of item = sym (
    path_texts-append item.added_paths _
    ∙ (ap (λ t. path_texts item.added_paths ++ t)
        (path_texts-append item.modified_paths _
          ∙ ap (λ t. path_texts item.modified_paths ++ t)
              (path_texts-append item.deleted_paths item.replaced_paths))))

touches-paths :
    (slug : Text) (item : LogItem)
    → any (λ p. eq_text (slug_from_path p) slug) (paths (commit_of item)) ≡ touches slug item
unfolding touches
touches-paths slug item =
    ap (any (λ p. eq_text (slug_from_path p) slug)) (paths-commit_of item)
    ∙ any-path_texts (λ p. eq_text (slug_from_path p) slug) (paths_of item)

-- The highest revision of an item with a path of the slug, 0 where there is none.
unfoldable pub top_revision : Text → List LogItem → ℕ
top_revision slug [] = 0
top_revision slug (item ∷ items) =
    greater (top_revision slug items) (if touches slug item then item.revision else 0)

abbrev pub revision_at : Text → Map ℕ → ℕ
revision_at slug revs = or_else (lookup slug revs) 0

revision_at-raise_revision :
    (rev : ℕ) (s slug : Text) (revs : Map ℕ)
    → slug ≢ []
    → revision_at slug (raise_revision rev s revs)
      ≡ greater (revision_at slug revs) (if eq_text s slug then rev else 0)
unfolding raise_revision greater
revision_at-raise_revision rev s slug revs n =
    ground (arith, eq_text_iff s [], eq_text_iff s slug, lookup-insert s slug rev revs, n)

revision_at-raise_revisions :
    (rev : ℕ) (ps : List Text) (slug : Text) (revs : Map ℕ)
    → slug ≢ []
    → revision_at slug (raise_revisions rev ps revs)
      ≡ greater
          (revision_at slug revs)
          (if any (λ p. eq_text (slug_from_path p) slug) ps then rev else 0)
unfolding raise_revisions greater
revision_at-raise_revisions rev [] slug revs n = ground arith
revision_at-raise_revisions rev (p ∷ ps) slug revs n =
    let first = revision_at-raise_revision rev (slug_from_path p) slug revs n in
    ground (
      arith,
      revision_at-raise_revisions rev ps slug (raise_revision rev (slug_from_path p) revs) n,
      first,
    )

-- The highest revision of any item.
unfoldable pub highest : List LogItem → ℕ
highest [] = 0
highest (item ∷ items) = greater (highest items) item.revision

slug_revisions-add_item :
    (item : LogItem) (slug : Text) (log : SvnLog)
    → slug ≢ []
    → revision_at slug (add_item item log).slug_revisions
      ≡ greater
          (revision_at slug log.slug_revisions)
          (if touches slug item then item.revision else 0)
unfolding add_item
slug_revisions-add_item item slug log n =
    revision_at-raise_revisions item.revision (paths (commit_of item)) slug log.slug_revisions n
    ∙ ap (λ b. greater (revision_at slug log.slug_revisions) (if b then item.revision else 0))
        (touches-paths slug item)

greater-zero : (a : ℕ) → greater a 0 ≡ a
unfolding greater
greater-zero a = ground arith

greater_assoc : (a b c : ℕ) → greater (greater a b) c ≡ greater a (greater c b)
unfolding greater
greater_assoc a b c = ground arith

slug_revisions-add_items :
    (items : List LogItem) (slug : Text) (log : SvnLog)
    → slug ≢ []
    → revision_at slug (add_items items log).slug_revisions
      ≡ greater (revision_at slug log.slug_revisions) (top_revision slug items)
unfolding add_items top_revision
slug_revisions-add_items [] slug log n = sym (greater-zero _)
slug_revisions-add_items (item ∷ items) slug log n =
    slug_revisions-add_items items slug (add_item item log) n
    ∙ (ap (λ r. greater r (top_revision slug items)) (slug_revisions-add_item item slug log n)
        ∙ greater_assoc _ _ _)

max_rev-add_items :
    (items : List LogItem) (log : SvnLog)
    → (add_items items log).max_rev ≡ greater log.max_rev (highest items)
unfolding add_items add_item highest greater
max_rev-add_items [] log = sym (greater-zero _)
max_rev-add_items (item ∷ items) log =
    max_rev-add_items items (add_item item log)
    ∙ greater_assoc log.max_rev item.revision (highest items)

commits-add_items :
    (items : List LogItem) (log : SvnLog)
    → (add_items items log).commits ≡ log.commits ++ map commit_of items
unfolding add_items add_item
commits-add_items [] log = sym (append-nil log.commits)
commits-add_items (item ∷ items) log =
    commits-add_items items (add_item item log)
    ∙ append_assoc log.commits (commit_of item ∷ []) (map commit_of items)

zero-greater : (a : ℕ) → greater 0 a ≡ a
unfolding greater
zero-greater a = ground arith

-- A log that parses records for every slug the highest revision of an item that adds, modifies, deletes
-- or replaces a path of that slug, the highest revision of all items, and one commit for each item in
-- order.
pub parse_svn_log_lem :
    (items : List LogItem) (log : SvnLog) (slug : Text)
    → parse_svn_log (some items) ≡ some log
    → slug ≢ []
    → (revision_at slug log.slug_revisions ≡ top_revision slug items)
      × (log.max_rev ≡ highest items)
      × (log.commits ≡ map commit_of items)
unfolding parse_svn_log lookup
parse_svn_log_lem items log slug h n =
    let e : add_items items empty_log ≡ log = cc in
    rw (← e) (
      slug_revisions-add_items items slug empty_log n ∙ zero-greater (top_revision slug items),
      max_rev-add_items items empty_log ∙ zero-greater (highest items),
      commits-add_items items empty_log,
    )
