-- ===== src/Expression/Ordering.antt =====
-- How the operators of a comparison belong together.
use buildfab.Base.{
  Str, Bool, true, false, not, ◌||◌, [], ◌∷◌, ◌≡◌, refl, arith, codes, str_eq, str_eq_sym, returns,
}
use buildfab.Expression.{Host, ExpressionResult, to_string, to_number}
use buildfab.Expression.Compare.{
  str_lt, str_le, by_operator, by_equality, bool_eq, answer_or, compare_numbers, compare_strings,
  numeric, both_bools, compare_values,
}

-- What the floats of Go satisfy: equality is symmetric, and `<=` is `<` or `==`, also for a NaN.
pub record IsOrdered (h : Host) : Type 0 where
  pub eq_sym : (x y : h.Float) → h.float_eq x y ≡ h.float_eq y x
  pub le_iff : (x y : h.Float) → h.float_le x y ≡ (h.float_lt x y || h.float_eq x y)

str_le_iff : (a b : Str) → str_le a b ≡ (str_lt a b || str_eq a b)
unfolding str_le str_lt str_eq
str_le_iff [] [] = refl
str_le_iff [] (y ∷ ys) = refl
str_le_iff (x ∷ xs) [] = refl
str_le_iff (x ∷ xs) (y ∷ ys) = ground (arith, str_le_iff xs ys)

bool_eq_sym : (a b : Bool) → bool_eq a b ≡ bool_eq b a
unfolding bool_eq
bool_eq_sym true true = refl
bool_eq_sym true false = refl
bool_eq_sym false true = refl
bool_eq_sym false false = refl

module _ (h : Host) (ordered : IsOrdered h) (l r : ExpressionResult h.Float) where
  numeric_sym : numeric h l r ≡ numeric h r l
  unfolding numeric
  numeric_sym = ground arith

  both_bools_sym : both_bools h l r ≡ both_bools h r l
  unfolding both_bools
  both_bools_sym = ground arith

  -- If equality of floats is symmetric and `<=` on them is `<` or `==`, then for two results that
  -- `==` and `<` compare, `!=` is the negation of `==`, `<=` is `<` or `==`, and `==`, `>` and `>=`
  -- on the swapped results say the same as `==`, `<` and `<=`.
  pub compare_values-coherent :
      (equal less : Bool)
      → compare_values h l r (codes "==") ≡ returns equal
      → compare_values h l r (codes "<") ≡ returns less
      → (compare_values h l r (codes "!=") ≡ returns (not equal))
        × (compare_values h l r (codes "<=") ≡ returns (less || equal))
        × (compare_values h r l (codes "==") ≡ returns equal)
        × (compare_values h r l (codes ">") ≡ returns less)
        × (compare_values h r l (codes ">=") ≡ returns (less || equal))
  unfolding compare_values compare_numbers compare_strings by_operator by_equality answer_or str_eq
  compare_values-coherent equal less e f = ground (
    arith,
    numeric_sym,
    both_bools_sym,
    ordered.eq_sym (to_number h l) (to_number h r),
    ordered.le_iff (to_number h l) (to_number h r),
    str_le_iff (to_string h l) (to_string h r),
    str_eq_sym (to_string h l) (to_string h r),
  )
