-- ===== src/Expression/Compare.antt =====
-- compareValues of pkg/buildfab/expression.go, and Go's lexicographic order on strings.
use buildfab.Base.{
  Str, Bool, true, false, not, ◌&&◌, ◌||◌, [], ◌∷◌, ◌++◌, Option, none, some, codes, str_eq, ltb,
  ◌==◌, if◌then◌else◌, Fallible, returns, fails,
}
use buildfab.Expression.{
  Host, Kind, bool_kind, string_kind, number_kind, ExpressionResult, is_bool, is_string, is_number,
  to_bool, to_string, to_number,
}

-- `a < b` on strings.
unfoldable pub str_lt : Str → Str → Bool
str_lt _ [] = false
str_lt [] (y ∷ ys) = true
str_lt (x ∷ xs) (y ∷ ys) = ltb x y || (x == y && str_lt xs ys)

-- `a <= b` on strings.
unfoldable pub str_le : Str → Str → Bool
unfolding str_lt
str_le a b = not (str_lt b a)

-- `switch op`, from the answers of the operators to whether a case is chosen.
unfoldable pub by_operator : Str → Bool → Bool → Bool → Bool → Bool → Option Bool
by_operator op eq lt le gt ge =
    if str_eq op (codes "==")
    then some eq
    else if str_eq op (codes "!=")
    then some (not eq)
    else if str_eq op (codes "<")
    then some lt
    else if str_eq op (codes "<=")
    then some le
    else if str_eq op (codes ">")
    then some gt
    else if str_eq op (codes ">=")
    then some ge
    else none

-- `switch op` on bools.
unfoldable pub by_equality : Str → Bool → Option Bool
by_equality op eq =
    if str_eq op (codes "==")
    then some eq
    else if str_eq op (codes "!=")
    then some (not eq)
    else none

unfoldable pub kind_name : Kind → Str
kind_name bool_kind = codes "bool"
kind_name string_kind = codes "string"
kind_name number_kind = codes "number"

unfoldable pub bool_eq : Bool → Bool → Bool
bool_eq true b = b
bool_eq false b = not b

-- An answer, or else what comes next.
unfoldable pub answer_or : Option Bool → Fallible Bool → Fallible Bool
answer_or (some b) next = returns b
answer_or none next = next

module _ (h : Host) where
  unfoldable pub compare_numbers : Str → h.Float → h.Float → Option Bool
  unfolding by_operator
  compare_numbers op x y =
      by_operator op (h.float_eq x y) (h.float_lt x y) (h.float_le x y) (h.float_lt y x)
        (h.float_le y x)

  unfoldable pub compare_strings : Str → Str → Str → Option Bool
  unfolding by_operator str_lt str_le
  compare_strings op s t =
      by_operator op (str_eq s t) (str_lt s t) (str_le s t) (str_lt t s) (str_le t s)

  unfoldable pub both_bools : ExpressionResult h.Float → ExpressionResult h.Float → Bool
  unfolding is_bool
  both_bools left right = is_bool left.kind && is_bool right.kind

  unfoldable pub numeric : ExpressionResult h.Float → ExpressionResult h.Float → Bool
  unfolding is_number is_string
  numeric left right =
      (is_number left.kind && is_number right.kind)
      || ((is_number left.kind || is_number right.kind)
          && (is_string left.kind || is_string right.kind))

  unfoldable pub compare_values :
      ExpressionResult h.Float → ExpressionResult h.Float → Str → Fallible Bool
  unfolding compare_numbers compare_strings both_bools answer_or by_equality bool_eq numeric
      kind_name
  compare_values left right op =
      answer_or
        (if numeric left right
          then compare_numbers op (to_number h left) (to_number h right)
          else none)
        (answer_or
          (if is_string left.kind || is_string right.kind
            then compare_strings op (to_string h left) (to_string h right)
            else none)
          (answer_or
            (if both_bools left right
              then by_equality op (bool_eq (to_bool h left) (to_bool h right))
              else none)
            (fails (
              codes "cannot compare "
              ++ (kind_name left.kind ++ (codes " and " ++ kind_name right.kind))))))
