-- ===== src/Composer/Names.antt =====
-- The Composer names of packages and their parts.
use wp_packages.Base.{ℕ, ◌≡◌, refl, ◌⊎◌, inl, inr, [], ◌∷◌, Text, codes, eq_text, Bool-cases}
use wp_packages.Text.{split_n}
use wp_packages.Composer.{composer_name, package_type, slug_from_composer_name, theme, plugin}

last_part : (sep : ℕ) (s : Text) → split_n sep 0 s ≡ s ∷ []
unfolding split_n
last_part sep [] = refl
last_part sep (c ∷ s) = refl

-- The slug is read back from a Composer name, whatever characters it has.
pub slug_from_composer_name-composer_name :
    (pkg_type slug : Text) → slug_from_composer_name (composer_name pkg_type slug) ≡ slug
unfolding slug_from_composer_name composer_name split_n
slug_from_composer_name-composer_name pkg_type slug = elim (Bool-cases (eq_text pkg_type theme)) [
  | inl e ↦ rw (e, last_part b'/' slug)
  | inr e ↦ rw (e, last_part b'/' slug)
]

-- Of a package that is a plugin or a theme, the Composer name splits at its slash into a vendor and
-- the slug, and the vendor gives the type back.
pub package_type-composer_name :
    (pkg_type slug : Text)
    → (pkg_type ≡ plugin) ⊎ (pkg_type ≡ theme)
    → (vendor : Text) × (split_n b'/' 1 (composer_name pkg_type slug) ≡ vendor ∷ slug ∷ [])
      × (package_type vendor ≡ pkg_type)
unfolding package_type composer_name split_n eq_text
package_type-composer_name pkg_type slug (inl e) =
    (codes "wp-plugin", rw (e, last_part b'/' slug), rw e)
package_type-composer_name pkg_type slug (inr e) =
    (codes "wp-theme", rw (e, last_part b'/' slug), rw e)
