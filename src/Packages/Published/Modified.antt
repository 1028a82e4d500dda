-- ===== src/Packages/Published/Modified.antt =====
-- A release whose tag is modified after it was published.
use wp_packages.Base.{
  ℕ, ◌≡◌, ◌≢◌, refl, ap, ◌∙◌, Bool, true, false, ◌||◌, ◌&&◌, List, [], ◌∷◌, Text, Map, some,
  eq_text, eq_text_iff, lt_text, lt_text_irrefl, lookup, any, is_some, arith, Bool-cases, inl, inr,
  In,
}
use wp_packages.Version.{normalize, dev_trunk}
use wp_packages.Svn.Log.{Commit}
use wp_packages.Svn.Tags.{later_date, tags_at, tag_changes}
use wp_packages.Svn.Tags.Latest.{newest, dates_where, commit_changes_tag, tag_changes_lem}
use wp_packages.Packages.Published.{versions_of_tags, is_reset, reset_times}
use wp_packages.Packages.Published.Times.{lookup-reset_times, stamp_time}

newest_of_some :
    (f : Commit → Bool) (c : Commit) (cs : List Commit)
    → In c cs
    → f c ≡ true
    → (d : ℕ) × (newest (dates_where f cs) ≡ some d)
unfolding newest
newest_of_some f c [] i h = elim i [ ]
newest_of_some f c (b ∷ cs) (inl e) h =
    (later_date b.date (newest (dates_where f cs)), rw (ap f e ∙ h) refl)
newest_of_some f c (b ∷ cs) (inr i) h = elim (Bool-cases (f b)) [
  | inl e ↦ (later_date b.date (newest (dates_where f cs)), rw e refl)
  | inr e ↦ rw e (newest_of_some f c cs i h)
]

any-versions_of_tags :
    (tag ver : Text) (date : ℕ) (tags : Map ℕ)
    → lookup tag tags ≡ some date
    → normalize tag ≡ ver
    → ver ≢ []
    → ver ≢ dev_trunk
    → any (eq_text ver) (versions_of_tags tags) ≡ true
unfolding lookup versions_of_tags
any-versions_of_tags tag ver date [] h e n m = cc
any-versions_of_tags tag ver date ((t, d) ∷ tags) h e n m = elim (Bool-cases (eq_text t tag)) [
  | inl q ↦
      let same : normalize t ≡ ver = ap normalize ((eq_text_iff t tag).0 q) ∙ e in
      ground (arith, same, eq_text_iff ver [], eq_text_iff ver dev_trunk, eq_text_iff ver ver, n, m)
  | inr q ↦
      let rest = any-versions_of_tags tag ver date tags (rw q at h) e n m in ground (arith, rest)
]

-- When a commit of the log changes a tag of a package, a reset with the log's tag changes leaves every
-- published version that the tag stands for with a time that is not before the stamp.
pub modified_release_waits :
    (pkg_type slug tag key prev stamp : Text) (cs : List Commit) (c : Commit) (times : Map Text)
    → In c cs
    → commit_changes_tag pkg_type (slug, tag) c ≡ true
    → normalize tag ≡ normalize key
    → normalize key ≢ []
    → normalize key ≢ dev_trunk
    → lookup key times ≡ some prev
    → let changes = tag_changes pkg_type cs in
      (time : Text) × (lookup key
          (reset_times
            (is_some (lookup slug changes.all))
            (versions_of_tags (tags_at slug changes.tags))
            stamp
            times).0
        ≡ some time)
      × (lt_text time stamp ≡ false)
unfolding is_reset
modified_release_waits pkg_type slug tag key prev stamp cs c times i h e n m k =
    let changes = tag_changes pkg_type cs in
    let (d, found) = newest_of_some (commit_changes_tag pkg_type (slug, tag)) c cs i h in
    let dated = (tag_changes_lem pkg_type slug tag cs).0 ∙ found in
    let listed =
      any-versions_of_tags tag (normalize key) d (tags_at slug changes.tags) dated e n m in
    let all = is_some (lookup slug changes.all) in
    let to_reset = versions_of_tags (tags_at slug changes.tags) in
    let read =
      lookup-reset_times all to_reset stamp times key ∙ ap (stamp_time all to_reset stamp key) k in
    elim (Bool-cases (is_reset all to_reset stamp key prev)) [
      | inl r ↦ (stamp, read ∙ rw r refl, lt_text_irrefl stamp)
      | inr r ↦ (
        prev,
        read ∙ rw r refl,
        late all (any (eq_text (normalize key)) to_reset) (lt_text prev stamp) listed r,
      )
    ]
  where
    late : (a b c : Bool) → b ≡ true → ((a || b) && c) ≡ false → c ≡ false
    late a b c h k = ground (arith, h, k)
