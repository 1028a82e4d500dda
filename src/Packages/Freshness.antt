-- ===== src/Packages/Freshness.antt =====
-- Which writes make a package due for an update, and which clear a deployment.
use wp_packages.Base.{
  ℕ, ◌≡◌, refl, Bool, true, false, ◌&&◌, [], ◌∷◌, some, none, eq_text, arith, filter, In,
  if◌then◌else◌, inl, inr, subst, sym, codes, ◌==◌, ◌<◌, eq_text_refl,
}
use wp_packages.Packages.{
  Row, Table, UpdateQueryOpts, needs_update, get_packages_needing_update, reactivate_package,
  update_where, mark_changed, has_key, is_stale,
}

-- The options of a plain pipeline run.
abbrev pub plain_opts : UpdateQueryOpts
plain_opts = record {
  type = codes "all";
  name = [];
  names = [];
  force = false;
  include_inactive = false;
}

In-filter_yes :
    (p : Row → Bool) (rows : Table) (r : Row) → In r rows → p r ≡ true → In r (filter p rows)
In-filter_yes p [] r i h = absurd i
In-filter_yes p (x ∷ rows) r (inl e) h = rw (subst (λ z. p z ≡ true) (sym e) h) (inl e)
In-filter_yes p (x ∷ rows) r (inr i) h = in_either (p x) (In-filter_yes p rows r i h)
  where
    in_either :
        (b : Bool) → In r (filter p rows) → In r (if b then x ∷ filter p rows else filter p rows)
    in_either true j = inr j
    in_either false j = j

In-update_where :
    (p : Row → Bool) (f : Row → Row) (rows : Table) (r : Row)
    → In r rows
    → p r ≡ true
    → In (f r) (update_where p f rows)
unfolding update_where
In-update_where p f [] r i h = absurd i
In-update_where p f (x ∷ rows) r (inl e) h =
    inl (subst (λ z. (if p z then f z else z) ≡ f r) (sym e) (rw h))
In-update_where p f (x ∷ rows) r (inr i) h = inr (In-update_where p f rows r i h)

module _ (r : Row) (rows : Table) (listed : In r rows)
    (open_row : r.permanently_closed ≡ false) where
  -- Reactivating a package makes it due for an update, however old its last commit is.
  pub due-reactivate_package :
      (now month_ago : ℕ)
      → (r' : Row) × In r'
          (get_packages_needing_update plain_opts month_ago (reactivate_package now r.id rows))
        × (r'.id ≡ r.id)
  unfolding get_packages_needing_update reactivate_package needs_update is_stale eq_text
  due-reactivate_package now month_ago = (
    record r {
      is_active = true;
      last_synced_at = none;
      updated_at = now;
      content_changed_at = some now;
    },
    In-filter_yes (needs_update plain_opts month_ago) _ _
        (In-update_where (λ x. x.id == r.id) _ rows r listed (ground arith)) (rw open_row),
    refl,
  )

  -- Marking an active package changed makes it due for an update, if that is after its last synchronization.
  pub due-mark_changed :
      (now month_ago rev synced : ℕ)
      → r.is_active ≡ true
      → r.last_synced_at ≡ some synced
      → synced < now
      → (r' : Row) × In r' (
          get_packages_needing_update plain_opts month_ago
            (mark_changed now r.type r.name rev rows))
        × (r'.id ≡ r.id)
  unfolding get_packages_needing_update mark_changed needs_update is_stale eq_text
  due-mark_changed now month_ago rev synced active at before = (
    record r { last_committed = some now; updated_at = now; trunk_revision = some rev },
    In-filter_yes (needs_update plain_opts month_ago) _ _
        (In-update_where (λ x. has_key r.type r.name x && x.is_active) _ rows r listed
          (rw (eq_text_refl r.type, eq_text_refl r.name, active)))
        (rw (open_row, active, at) (ground arith)),
    refl,
  )
