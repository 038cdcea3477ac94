-- ===== src/Expression/Parse.antt =====
-- The evaluation of a condition: `EvaluateExpression` and `parseExpression` of
-- pkg/buildfab/expression.go with the forms of expression it tries in turn. Each form takes the
-- evaluation of the parts, `parse`, as an argument; `parse_expression` ties the knot on fuel.
use buildfab.Base.{
  ℕ, zero, suc, ◌+◌, ◌-◌, Str, Bool, true, false, not, ◌&&◌, ◌||◌, List, [], ◌∷◌, ◌++◌, length,
  take, drop, Option, none, some, codes, str_eq, leb, ◌==◌, if◌then◌else◌, Fallible, returns, fails,
}
use buildfab.Base.Dict.{Dict}
use buildfab.Base.Strings.{has_prefix, has_suffix, str_contains, split, trim_space}
use buildfab.Base.Attempts.{Attempt, gives, errors, panics, runs_out, and_then, or_else, each}
use buildfab.Expression.{
  Host, ExpressionResult, float_value, number_kind, of_bool, of_string, to_bool,
}
use buildfab.Expression.Compare.{compare_values}
use buildfab.Expression.Functions.{call_function}
use buildfab.Expression.Context.{ExpressionContext, resolve_variable, new_expression_context}

-- `expr[from : len(expr)-off]`, where the bounds are in order.
unfoldable pub inside : ℕ → ℕ → Str → Str
inside from off e = drop from (take (length e - off) e)

-- Whether an operator of two bytes c, with a space on each side, stands behind `prev`.
unfoldable pub operator_here : ℕ → Option ℕ → Str → Bool
operator_here c (some p) (x ∷ y ∷ z ∷ rest) = x == c && y == c && p == 32 && z == 32
operator_here c _ _ = false

unfoldable pub moved : Option ℕ → Option ℕ
moved none = none
moved (some i) = some (suc i)

-- The position of the first operator that is outside of parentheses: as many have been opened as
-- have been closed.
unfoldable pub find_operator : ℕ → ℕ → ℕ → Option ℕ → Str → Option ℕ
unfolding operator_here moved
find_operator c opened closed prev [] = none
find_operator c opened closed prev (x ∷ xs) = elim (x == b'(') [
  | true ↦ moved (find_operator c (suc opened) closed (some x) xs)
  | false ↦ elim (x == b')') [
    | true ↦ moved (find_operator c opened (suc closed) (some x) xs)
    | false ↦ elim (opened == closed && operator_here c prev (x ∷ xs)) [
      | true ↦ some 0
      | false ↦ moved (find_operator c opened closed (some x) xs)
    ]
  ]
]

unfoldable pub operator_at : ℕ → Str → Option ℕ
unfolding find_operator
operator_at c e = if str_contains e (32 ∷ c ∷ c ∷ 32 ∷ []) then find_operator c 0 0 none e else none

-- Two parts, when a split has that many.
unfoldable pub two_parts : List Str → Option (Str × Str)
two_parts (a ∷ b ∷ []) = some (a, b)
two_parts _ = none

unfoldable pub normalized : Str → Str
normalized op = if str_eq (trim_space op) (codes "=") then codes "==" else trim_space op

abbrev pub operators : List Str
operators =
    codes "!=" ∷ codes " = " ∷ codes "<=" ∷ codes ">=" ∷ codes "<" ∷ codes ">" ∷ codes "==" ∷ []

abbrev pub is_word : ℕ → Bool
is_word c =
    (leb b'0' c && leb c b'9')
    || (leb b'A' c && leb c b'Z')
    || (c == b'_')
    || (leb b'a' c && leb c b'z')

unfoldable pub no_newline : Str → Bool
no_newline [] = true
no_newline (c ∷ cs) = not (c == 10) && no_newline cs

unfoldable pub argument_text : Str → Option Str
unfolding inside no_newline
argument_text rest =
    if has_suffix rest (codes ")") && no_newline (inside 0 1 rest)
    then some (inside 0 1 rest)
    else none

-- The two groups of the match of `^(\w+)\((.*)\)$`, `name` being the part of the first that is read.
unfoldable pub match_call : Str → Str → Option (Str × Str)
unfolding argument_text
match_call name [] = none
match_call name (c ∷ cs) = elim (is_word c) [
  | true ↦ match_call (name ++ c ∷ []) cs
  | false ↦
      if not (str_eq name []) && c == b'('
      then (elim (argument_text cs) [ none ↦ none | some args ↦ some (name, args) ])
      else none
]

-- The result of a comparison, or its error.
unfoldable pub compared : {F : Type 0} → Fallible Bool → Attempt (ExpressionResult F)
compared (returns b) = gives (of_bool b)
compared (fails e) = errors e

module _ (h : Host) (ctx : ExpressionContext) where
  module _ (parse : Str → Attempt (ExpressionResult h.Float)) where
    -- Both operands, then `test` on their truth.
    unfoldable pub binary : (Bool → Bool → Bool) → Str → ℕ → Attempt (ExpressionResult h.Float)
    unfolding and_then
    binary test e at = and_then (parse (trim_space (take at e))) (λ left.
        and_then (parse (trim_space (drop (at + 2) e)))
          (λ right. gives (of_bool (test (to_bool h left) (to_bool h right)))))

    unfoldable pub negation : Str → Attempt (ExpressionResult h.Float)
    unfolding and_then inside
    negation operand =
        and_then
          (parse (
            if has_prefix operand (codes "(") && has_suffix operand (codes ")")
            then trim_space (inside 1 1 operand)
            else operand))
          (λ r. gives (of_bool (not (to_bool h r))))

    unfoldable pub parse_logical_expression : Str → Attempt (ExpressionResult h.Float)
    unfolding binary negation operator_at
    parse_logical_expression e = elim (has_prefix e (codes "!")) [
      | true ↦ negation (trim_space (drop 1 e))
      | false ↦ elim (operator_at b'&' e) [
        | some at ↦ binary (λ a b. a && b) e at
        | none ↦ elim (operator_at b'|' e) [
          | some at ↦ binary (λ a b. a || b) e at
          | none ↦ errors (codes "not a logical expression")
        ]
      ]
    ]

    -- The two sides of an operator, compared.
    unfoldable pub comparison : Str → Str → Str → Attempt (ExpressionResult h.Float)
    unfolding and_then normalized compared
    comparison op left right = and_then (parse (trim_space left)) (λ l.
        and_then (parse (trim_space right)) (λ r. compared (compare_values h l r (normalized op))))

    -- The loop over the operators that are left.
    unfoldable pub try_operators : List Str → Str → Attempt (ExpressionResult h.Float)
    unfolding comparison two_parts
    try_operators [] e = errors (codes "not a comparison expression")
    try_operators (op ∷ ops) e = elim (str_contains e op) [
      | false ↦ try_operators ops e
      | true ↦ elim (two_parts (split e op)) [
        | none ↦ try_operators ops e
        | some (left, right) ↦ comparison op left right
      ]
    ]

    abbrev pub parse_comparison_expression : Str → Attempt (ExpressionResult h.Float)
    parse_comparison_expression e = try_operators operators e

    unfoldable pub parse_function_arguments : Str → Attempt (List (ExpressionResult h.Float))
    unfolding each
    parse_function_arguments text =
        if str_eq text []
        then gives []
        else each (λ part. parse (trim_space part)) (split text (codes ","))

    unfoldable pub parse_function_call : Str → Attempt (ExpressionResult h.Float)
    unfolding match_call parse_function_arguments and_then
    parse_function_call e = elim (match_call [] e) [
      | none ↦ errors (codes "not a function call: " ++ e)
      | some (name, text) ↦
          and_then (parse_function_arguments text) (λ args. call_function h name args)
    ]

  abbrev pub is_quoted : Str → Bool
  is_quoted e =
      (has_prefix e (codes "'") && has_suffix e (codes "'"))
      || (has_prefix e (b'"' ∷ []) && has_suffix e (b'"' ∷ []))

  -- `expr[1 : len(expr)-1]`, whose bounds are out of order in a string of one byte.
  unfoldable pub unquoted : Str → Attempt (ExpressionResult h.Float)
  unfolding inside
  unquoted e =
      if leb 2 (length e)
      then gives (of_string (inside 1 1 e))
      else panics (codes "slice bounds out of range")

  unfoldable pub parse_literal : Str → Attempt (ExpressionResult h.Float)
  unfolding and_then
  parse_literal e =
      if str_eq e (codes "true")
      then gives (of_bool true)
      else if str_eq e (codes "false")
      then gives (of_bool false)
      else and_then (resolve_variable h ctx e) (λ value. gives (of_string value))

  unfoldable pub parse_variable_reference : Str → Attempt (ExpressionResult h.Float)
  unfolding unquoted parse_literal
  parse_variable_reference e = if is_quoted e then unquoted e else elim (h.parse_float e) [
    | some x ↦ gives (record { value = float_value x; kind = number_kind })
    | none ↦ parse_literal e
  ]

  -- The body of `parseExpression`, over the evaluation of shorter expressions.
  unfoldable pub parse_step :
      (Str → Attempt (ExpressionResult h.Float)) → Str → Attempt (ExpressionResult h.Float)
  unfolding or_else inside
  parse_step parse text =
      let e = trim_space text in
      elim (has_prefix e (codes "(") && has_suffix e (codes ")")) [
        | true ↦ parse (trim_space (inside 1 1 e))
        | false ↦ or_else (parse_logical_expression parse e) (
            or_else (parse_comparison_expression parse e) (
              or_else (parse_function_call parse e) (
                or_else (parse_variable_reference e)
                  (errors (codes "unable to parse expression: " ++ e)))))
      ]

  unfoldable pub parse_fuel : ℕ → Str → Attempt (ExpressionResult h.Float)
  unfolding parse_step
  parse_fuel zero e = runs_out
  parse_fuel (suc fuel) e = parse_step (parse_fuel fuel) e

  -- The fuel is more than the bytes of the expression, of which every recursive call loses one.
  unfoldable pub parse_expression : Str → Attempt (ExpressionResult h.Float)
  unfolding parse_fuel
  parse_expression e = parse_fuel (suc (length e)) e

  unfoldable pub unwrapped : Str → Str
  unfolding inside
  unwrapped e =
      if has_prefix e (codes "${{") && has_suffix e (codes "}}")
      then trim_space (inside 3 2 e)
      else e

  unfoldable pub evaluate_expression : Str → Attempt Bool
  unfolding unwrapped parse_expression and_then
  evaluate_expression text =
      and_then (parse_expression (unwrapped (trim_space text))) (λ r. gives (to_bool h r))

-- `evaluateCondition` of buildfab.go
unfoldable pub evaluate_condition : Host → Str → Dict Str → Attempt Bool
unfolding evaluate_expression
evaluate_condition h condition variables =
    evaluate_expression h (new_expression_context h variables) condition
