-- ===== src/Expression/Local.antt =====
-- The body of the evaluation over two evaluations of the parts: relations between attempts that the
-- sequencing of attempts respects hold of the bodies when they hold of every shorter part.
use buildfab.Base.{
  ℕ, ◌+◌, Str, Bool, ◌&&◌, ◌||◌, not, List, [], ◌∷◌, ◌++◌, length, take, drop, arith, codes, str_eq,
  Bool-cases, Option-cases, inl, inr, returns, fails, Fallible, All, ◌<◌,
}
use buildfab.Base.Attempts.{Attempt, gives, errors, and_then, or_else, each}
use buildfab.Base.Strings.{has_prefix, has_suffix, str_contains, split, trim_space}
use buildfab.Base.Bytes.{IsPart, trim_space-IsPart}
use buildfab.Base.Splits.{split-IsPart, All-map}
use buildfab.Expression.{Host, ExpressionResult, of_bool, to_bool}
use buildfab.Expression.Compare.{compare_values}
use buildfab.Expression.Functions.{call_function}
use buildfab.Expression.Context.{ExpressionContext}
use buildfab.Expression.Parse.{
  inside, operator_at, two_parts, match_call, operators, normalized, binary, negation,
  parse_logical_expression, comparison, compared, try_operators, parse_function_arguments,
  parse_function_call, parse_variable_reference, parse_step,
}
use buildfab.Expression.Shorter.{
  IsShorter, IsShorter-in, IsPart-IsShorter, trim_space-IsShorter, drop-IsShorter, inside-IsShorter,
  has_prefix-cons, operator_at-length, take-IsShorter, match_call-IsShorter, two_parts-IsShorter,
}

pub record IsRespected (R : (A : Type 0) → Attempt A → Attempt A → Type 0) : Type 1 where
  pub at_gives : (A : Type 0) (a : A) → R A (gives a) (gives a)
  pub at_errors : (A : Type 0) (e : Str) → R A (errors e) (errors e)
  pub at_then :
      (A B : Type 0) (t u : Attempt A) (f g : A → Attempt B)
      → R A t u
      → ((a : A) → R B (f a) (g a))
      → R B (and_then t f) (and_then u g)
  pub at_else :
      (A : Type 0) (t u next after : Attempt A)
      → R A t u
      → R A next after
      → R A (or_else t next) (or_else u after)

module _ (h : Host) (ctx : ExpressionContext) (R : (A : Type 0) → Attempt A → Attempt A → Type 0)
    (respected : IsRespected R)
    (at_call : (name : Str) (args : List (ExpressionResult h.Float))
      → R (ExpressionResult h.Float) (call_function h name args) (call_function h name args))
    (p q : Str → Attempt (ExpressionResult h.Float)) where
  abbrev Answer : Type 0
  Answer = ExpressionResult h.Float

  -- Both evaluations agree on the shorter parts of an expression.
  abbrev Below : Str → Type 0
  Below e = (s : Str) → IsShorter s e → R Answer (p s) (q s)

  binary-Local :
      (test : Bool → Bool → Bool) (e : Str) (at : ℕ)
      → at + 2 < length e
      → Below e
      → R Answer (binary h ctx p test e at) (binary h ctx q test e at)
  unfolding binary
  binary-Local test e at short below =
      let left = trim_space-IsShorter (take-IsShorter at e (omega arith)) in
      let right = trim_space-IsShorter (drop-IsShorter (at + 2) e (omega arith) (omega arith)) in
      respected.at_then Answer Answer _ _ _ _ (below (trim_space (take at e)) left) (λ l.
        respected.at_then Answer Answer _ _ _ _ (below (trim_space (drop (at + 2) e)) right)
          (λ r. respected.at_gives Answer (of_bool (test (to_bool h l) (to_bool h r)))))

  negation-Local :
      (e operand : Str)
      → IsShorter operand e
      → Below e
      → R Answer (negation h ctx p operand) (negation h ctx q operand)
  unfolding negation
  negation-Local e operand short below =
      respected.at_then Answer Answer _ _ _ _
        (elim (Bool-cases (has_prefix operand (codes "(") && has_suffix operand (codes ")"))) [
          | inl wrapped ↦ rw wrapped (
              below (trim_space (inside 1 1 operand)) (
                trim_space-IsShorter (
                  IsShorter-in
                    (inside-IsShorter 1 1 operand (omega arith)
                      (has_prefix-cons operand b'(' [] (ground arith)))
                    short.part)))
          | inr plain ↦ rw plain (below operand short)
        ])
        (λ r. respected.at_gives Answer (of_bool (not (to_bool h r))))

  parse_logical_expression-Local :
      (e : Str)
      → Below e
      → R Answer (parse_logical_expression h ctx p e) (parse_logical_expression h ctx q e)
  unfolding parse_logical_expression
  parse_logical_expression-Local e below = elim (Bool-cases (has_prefix e (codes "!"))) [
    | inl negated ↦
        rw (negated, parse_logical_expression)
          (negation-Local e (trim_space (drop 1 e))
            (trim_space-IsShorter
              (drop-IsShorter 1 e (omega arith) (has_prefix-cons e b'!' [] negated)))
            below)
    | inr other ↦
        rw (other, parse_logical_expression)
          (elim (Option-cases (operator_at b'&' e)) [
            | inr (at, is) ↦
                rw is (binary-Local (λ a b. a && b) e at (operator_at-length b'&' e at is) below)
            | inl no_and ↦ rw no_and (elim (Option-cases (operator_at b'|' e)) [
              | inr (at, is) ↦
                  rw is (binary-Local (λ a b. a || b) e at (operator_at-length b'|' e at is) below)
              | inl no_or ↦ rw no_or (respected.at_errors Answer (codes "not a logical expression"))
            ])
          ])
  ]

  compared-Local : (f : Fallible Bool) → R Answer (compared f) (compared f)
  unfolding compared
  compared-Local (returns b) = respected.at_gives Answer (of_bool b)
  compared-Local (fails e) = respected.at_errors Answer e

  comparison-Local :
      (op e left right : Str)
      → IsShorter left e
      → IsShorter right e
      → Below e
      → R Answer (comparison h ctx p op left right) (comparison h ctx q op left right)
  unfolding comparison
  comparison-Local op e left right f g below =
      respected.at_then Answer Answer _ _ _ _ (below (trim_space left) (trim_space-IsShorter f))
        (λ l.
          respected.at_then Answer Answer _ _ _ _
            (below (trim_space right) (trim_space-IsShorter g))
            (λ r. compared-Local (compare_values h l r (normalized op))))

  try_operators-Local :
      (ops : List Str) (e : Str)
      → Below e
      → R Answer (try_operators h ctx p ops e) (try_operators h ctx q ops e)
  unfolding try_operators
  try_operators-Local [] e below = respected.at_errors Answer (codes "not a comparison expression")
  try_operators-Local (op ∷ ops) e below = elim (Bool-cases (str_contains e op)) [
    | inr absent ↦ rw (absent, try_operators) (try_operators-Local ops e below)
    | inl found ↦ elim (Option-cases (two_parts (split e op))) [
      | inl many ↦ rw (found, many, try_operators) (try_operators-Local ops e below)
      | inr ((a, b), is) ↦
          rw (found, is, try_operators)
            (let (f, g) = two_parts-IsShorter e op a b is in comparison-Local op e a b f g below)
    ]
  ]

  each-Local :
      (e : Str) (parts : List Str)
      → All (λ s. IsShorter s e) parts
      → Below e
      → R
          (List Answer)
          (each (λ part. p (trim_space part)) parts)
          (each (λ part. q (trim_space part)) parts)
  unfolding each
  each-Local e [] short below = respected.at_gives (List Answer) []
  each-Local e (x ∷ xs) short below =
      respected.at_then Answer (List Answer) _ _ _ _
        (below (trim_space x) (trim_space-IsShorter short.0))
        (λ y.
          respected.at_then (List Answer) (List Answer) _ _ _ _ (each-Local e xs short.1 below)
            (λ ys. respected.at_gives (List Answer) (y ∷ ys)))

  parse_function_arguments-Local :
      (e text : Str)
      → IsShorter text e
      → Below e
      → R
          (List Answer)
          (parse_function_arguments h ctx p text)
          (parse_function_arguments h ctx q text)
  unfolding parse_function_arguments
  parse_function_arguments-Local e text short below = elim (Bool-cases (str_eq text [])) [
    | inl blank ↦ rw (blank, parse_function_arguments) (respected.at_gives (List Answer) [])
    | inr other ↦
        rw (other, parse_function_arguments)
          (each-Local e (split text (codes ","))
            (All-map (λ s f. within s f) (split text (codes ",")) (split-IsPart text (codes ",")))
            below)
  ]
    where
      within : (s : Str) → IsPart s text → IsShorter s e
      within s f = IsPart-IsShorter f short

  parse_function_call-Local :
      (e : Str) → Below e → R Answer (parse_function_call h ctx p e) (parse_function_call h ctx q e)
  unfolding parse_function_call
  parse_function_call-Local e below = elim (Option-cases (match_call [] e)) [
    | inl no_call ↦
        rw (no_call, parse_function_call)
          (respected.at_errors Answer (codes "not a function call: " ++ e))
    | inr ((name, text), is) ↦
        rw (is, parse_function_call)
          (respected.at_then (List Answer) Answer _ _ _ _
            (parse_function_arguments-Local e text (match_call-IsShorter [] e name text is) below)
            (λ args. at_call name args))
  ]

  pub parse_step-Local :
      (text : Str)
      → R Answer
          (parse_variable_reference h ctx (trim_space text))
          (parse_variable_reference h ctx (trim_space text))
      → Below text
      → R Answer (parse_step h ctx p text) (parse_step h ctx q text)
  unfolding parse_step
  parse_step-Local text at_reference above =
      elim (Bool-cases (has_prefix e (codes "(") && has_suffix e (codes ")"))) [
        | inl wrapped ↦
            rw (wrapped, parse_step)
              (below (trim_space (inside 1 1 e)) (
                trim_space-IsShorter (
                  inside-IsShorter 1 1 e (omega arith) (has_prefix-cons e b'(' [] (ground arith)))))
        | inr plain ↦
            rw (plain, parse_step)
              (respected.at_else Answer _ _ _ _ (parse_logical_expression-Local e below) (
                respected.at_else Answer _ _ _ _ (try_operators-Local operators e below) (
                  respected.at_else Answer _ _ _ _ (parse_function_call-Local e below) (
                    respected.at_else Answer _ _ _ _ at_reference
                      (respected.at_errors Answer (codes "unable to parse expression: " ++ e))))))
      ]
    where
      e : Str
      e = trim_space text

      below : (s : Str) → IsShorter s (trim_space text) → R Answer (p s) (q s)
      below s f = above s (IsShorter-in f (trim_space-IsPart text))
