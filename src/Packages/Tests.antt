-- ===== src/Packages/Tests.antt =====
-- The packages table at concrete rows.
use wp_packages.Base.{◌≡◌, refl, true, false, List, [], ◌∷◌, Text, codes, some, eq_text, In}
use wp_packages.Packages.{
  Row, shell_row, upsert_shell_package, mark_permanently_closed, Op, shell_one, changed, apply,
  apply_all, needs_update, reactivate_package, mark_changed, get_packages_needing_update,
  get_all_packages, mark_packages_changed,
}
use wp_packages.Packages.Keys.{find_row}
use wp_packages.Packages.Closed.{closed_for_good}
use wp_packages.Packages.Freshness.{plain_opts}

packages_code : Unit {0}
unfolding eq_text shell_row upsert_shell_package mark_permanently_closed apply apply_all
    needs_update reactivate_package mark_changed get_packages_needing_update get_all_packages
    mark_packages_changed find_row
packages_code = tt

abbrev plugin : Text
plugin = codes "plugin"

abbrev akismet : Row
akismet = shell_row 1 10 (record { type = plugin; name = codes "akismet"; last_committed = some 5 })

abbrev closed_akismet : Row
closed_akismet = record akismet { permanently_closed = true; is_active = false }

abbrev later_ops : List Op
later_ops =
    shell_one 2 20 (record { type = plugin; name = codes "akismet"; last_committed = some 15 })
    ∷ changed 30 plugin ((codes "akismet", 7) ∷ [])
    ∷ []

closed_for_good_example :
    (r' : Row) × (find_row plugin (codes "akismet") (apply_all later_ops (closed_akismet ∷ []))
      ≡ some r')
    × (r'.id ≡ closed_akismet.id)
    × ¬ (
        In r'
          (get_packages_needing_update plain_opts 0 (apply_all later_ops (closed_akismet ∷ []))))
    × ¬ (In r' (get_all_packages plugin (apply_all later_ops (closed_akismet ∷ []))))
unfolding packages_code
closed_for_good_example =
    closed_for_good plugin (codes "akismet") later_ops (closed_akismet ∷ []) closed_akismet
      plain_opts 0 plugin refl refl

abbrev idle : Row
idle = record akismet { is_active = false; last_synced_at = some 9; last_committed = some 5 }

abbrev synced : Row
synced = record akismet { last_synced_at = some 9 }
