-- ===== src/Base/Text.antt =====
-- Go's `<` on strings: by bytes, which is the order of the code points. Its laws.
use Prim.Native.Nat.{ℕ, Ordering, compare as compare_ℕ}
use Prim.Native.Char.{code}
use Prim.Native.String.compare
use Prim.Native.String.{String, [], ◌∷◌, compare}
use mathlib.Core.Path.{◌≡◌, refl, sym, ◌∙◌, ap}
use mathlib.Core.Bool.{Bool, true, false}
use native.Mathlib.Omega.{arith}
use text.Mathlib.Text.{is_lt}
use text.Mathlib.TextEquality.{path_by_compare}

abbrev pub text_less : String → String → Bool
text_less s t = is_lt (compare s t)

abbrev flipped : Ordering → Ordering
flipped Ordering.lt = Ordering.gt
flipped Ordering.eq = Ordering.eq
flipped Ordering.gt = Ordering.lt

compare_flip_num : (m n : ℕ) → compare_ℕ n m ≡ flipped (compare_ℕ m n)
compare_flip_num m n = ground arith

compare_flip : (s t : String) → compare t s ≡ flipped (compare s t)
compare_flip [] [] = refl
compare_flip [] (d ∷ t) = compare.cons-nil d t ∙ sym (ap flipped (compare.nil-cons d t))
compare_flip (c ∷ s) [] = compare.nil-cons c s ∙ sym (ap flipped (compare.cons-nil c s))
compare_flip (c ∷ s) (d ∷ t) = ground (
  arith,
  compare.cons-cons c d s t,
  compare.cons-cons d c t s,
  compare_flip_num (code c) (code d),
  compare_flip s t,
)

pub text_less_asymm : (s t : String) → text_less s t ≡ true → text_less t s ≡ false
text_less_asymm s t h = ground (arith, compare_flip s t)

-- Two texts of which neither is less are one text.
pub text_less_tie : (s t : String) → text_less s t ≡ false → text_less t s ≡ false → s ≡ t
text_less_tie s t h k = path_by_compare s t (ground (arith, compare_flip s t))

-- "Not less" is transitive.
pub text_less_negtrans :
    (s t u : String) → text_less t s ≡ false → text_less u t ≡ false → text_less u s ≡ false
text_less_negtrans [] t [] h k = refl
text_less_negtrans [] t (e ∷ u) h k = rw (compare.cons-nil e u)
text_less_negtrans (c ∷ s) [] u h k = absurd (ground (arith, compare.nil-cons c s))
text_less_negtrans (c ∷ s) (d ∷ t) [] h k = absurd (ground (arith, compare.nil-cons d t))
text_less_negtrans (c ∷ s) (d ∷ t) (e ∷ u) h k = ground (
  arith,
  compare.cons-cons d c t s,
  compare.cons-cons e d u t,
  compare.cons-cons e c u s,
  text_less_negtrans s t u,
)
