-- ===== src/Version/Order.antt =====
-- The order of version strings by Compare.
use Prim.Native.Nat.{compare, Ordering}
use wp_packages.Base.{
  ℕ, ◌≡◌, refl, true, false, [], ◌∷◌, Text, arith, lt_text_irrefl, lt_text_trans, lt_text_total,
  List,
}
use wp_packages.Text.{to_lower}
use wp_packages.Version.{
  or_then, compare_segments, compare_text, compare_suffix, segments, split_suffix, compare_versions,
  is_gt,
}

abbrev pub flip : Ordering → Ordering
flip Ordering.lt = Ordering.gt
flip Ordering.eq = Ordering.eq
flip Ordering.gt = Ordering.lt

-- What three comparisons in a row tell of the outer two ends.
abbrev pub Chain : Ordering → Ordering → Ordering → Type 0
Chain x y z = is_gt x ≡ false → is_gt y ≡ false → z ≡ or_then x y

flip-or_then : (c d : Ordering) → flip (or_then c d) ≡ or_then (flip c) (flip d)
flip-or_then Ordering.lt d = refl
flip-or_then Ordering.eq d = refl
flip-or_then Ordering.gt d = refl

Chain-or_then :
    (x y z x' y' z' : Ordering)
    → Chain x y z
    → Chain x' y' z'
    → Chain (or_then x x') (or_then y y') (or_then z z')
Chain-or_then Ordering.lt Ordering.lt z x' y' z' c d h k = ground (arith, c refl refl)
Chain-or_then Ordering.lt Ordering.eq z x' y' z' c d h k = ground (arith, c refl refl)
Chain-or_then Ordering.lt Ordering.gt z x' y' z' c d h k = cc
Chain-or_then Ordering.eq Ordering.lt z x' y' z' c d h k = ground (arith, c refl refl)
Chain-or_then Ordering.eq Ordering.eq z x' y' z' c d h k = ground (arith, c refl refl, d h k)
Chain-or_then Ordering.eq Ordering.gt z x' y' z' c d h k = cc
Chain-or_then Ordering.gt y z x' y' z' c d h k = cc

compare-flip : (a b : ℕ) → compare b a ≡ flip (compare a b)
compare-flip a b = ground arith

compare-Chain : (a b c : ℕ) → Chain (compare a b) (compare b c) (compare a c)
compare-Chain a b c h k = ground arith

segments_flip : (as' bs : List ℕ) → compare_segments bs as' ≡ flip (compare_segments as' bs)
unfolding compare_segments
segments_flip [] [] = refl
segments_flip (a ∷ xs) [] = rw (flip-or_then, compare-flip a 0, segments_flip xs [])
segments_flip [] (b ∷ ys) = rw (flip-or_then, compare-flip 0 b, segments_flip [] ys)
segments_flip (a ∷ xs) (b ∷ ys) = rw (flip-or_then, compare-flip a b, segments_flip xs ys)

step :
    (a b c : ℕ) (xs ys zs : List ℕ)
    → Chain (compare_segments xs ys) (compare_segments ys zs) (compare_segments xs zs)
    → Chain
        (or_then (compare a b) (compare_segments xs ys))
        (or_then (compare b c) (compare_segments ys zs))
        (or_then (compare a c) (compare_segments xs zs))
step a b c xs ys zs rest =
    Chain-or_then (compare a b) (compare b c) (compare a c) _ _ _ (compare-Chain a b c) rest

segments_Chain :
    (xs ys zs : List ℕ)
    → Chain (compare_segments xs ys) (compare_segments ys zs) (compare_segments xs zs)
unfolding compare_segments
segments_Chain [] [] [] = λ h k. refl
segments_Chain [] [] (c ∷ zs) = step 0 0 c [] [] zs (segments_Chain [] [] zs)
segments_Chain [] (b ∷ ys) [] = step 0 b 0 [] ys [] (segments_Chain [] ys [])
segments_Chain [] (b ∷ ys) (c ∷ zs) = step 0 b c [] ys zs (segments_Chain [] ys zs)
segments_Chain (a ∷ xs) [] [] = step a 0 0 xs [] [] (segments_Chain xs [] [])
segments_Chain (a ∷ xs) [] (c ∷ zs) = step a 0 c xs [] zs (segments_Chain xs [] zs)
segments_Chain (a ∷ xs) (b ∷ ys) [] = step a b 0 xs ys [] (segments_Chain xs ys [])
segments_Chain (a ∷ xs) (b ∷ ys) (c ∷ zs) = step a b c xs ys zs (segments_Chain xs ys zs)

text_flip : (s t : Text) → compare_text t s ≡ flip (compare_text s t)
unfolding compare_text
text_flip s t = ground (arith, lt_text_trans s t s, lt_text_irrefl s)

text_Chain : (s t u : Text) → Chain (compare_text s t) (compare_text t u) (compare_text s u)
unfolding compare_text
text_Chain s t u h k = ground (
  arith,
  lt_text_trans s t u,
  lt_text_trans u t s,
  lt_text_irrefl s,
  lt_text_irrefl t,
  lt_text_irrefl u,
  lt_text_total s t,
  lt_text_total t u,
  lt_text_trans u s t,
  lt_text_trans s u t,
)

suffix_flip : (s t : Text) → compare_suffix t s ≡ flip (compare_suffix s t)
unfolding compare_suffix
suffix_flip s t = ground (arith, text_flip (to_lower s) (to_lower t))

suffix_Chain : (s t u : Text) → Chain (compare_suffix s t) (compare_suffix t u) (compare_suffix s u)
unfolding compare_suffix
suffix_Chain s t u h k = ground (arith, text_Chain (to_lower s) (to_lower t) (to_lower u))

-- Comparing the other way round gives the opposite result.
pub compare_versions-flip : (a b : Text) → compare_versions b a ≡ flip (compare_versions a b)
unfolding compare_versions
compare_versions-flip a b = rw (
  flip-or_then,
  segments_flip (segments (split_suffix a).0) (segments (split_suffix b).0),
  suffix_flip (split_suffix a).1 (split_suffix b).1,
)

compare_versions-Chain :
    (a b c : Text) → Chain (compare_versions a b) (compare_versions b c) (compare_versions a c)
unfolding compare_versions
compare_versions-Chain a b c =
    Chain-or_then (compare_segments (segments (split_suffix a).0) (segments (split_suffix b).0))
      (compare_segments (segments (split_suffix b).0) (segments (split_suffix c).0))
      (compare_segments (segments (split_suffix a).0) (segments (split_suffix c).0)) _ _ _
      (segments_Chain (segments (split_suffix a).0) (segments (split_suffix b).0)
        (segments (split_suffix c).0))
      (suffix_Chain (split_suffix a).1 (split_suffix b).1 (split_suffix c).1)

abbrev pub NotAbove : Text → Text → Type 0
NotAbove a b = is_gt (compare_versions a b) ≡ false

-- If `a` is not above `b` and `b` not above `c`, then `a` is not above `c`, and below it as soon as
-- one of the two steps is strict.
pub compare_versions_trans :
    (a b c : Text)
    → NotAbove a b
    → NotAbove b c
    → NotAbove a c × (compare_versions a c ≡ or_then (compare_versions a b) (compare_versions b c))
compare_versions_trans a b c h k = let e = compare_versions-Chain a b c h k in (ground arith, e)

pub NotAbove-refl : (a : Text) → NotAbove a a
NotAbove-refl a = ground (arith, compare_versions-flip a a)

-- Two versions are always comparable.
pub NotAbove-total : (a b : Text) → is_gt (compare_versions a b) ≡ true → NotAbove b a
NotAbove-total a b h = ground (arith, compare_versions-flip a b)
