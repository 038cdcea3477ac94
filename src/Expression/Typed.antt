-- ===== src/Expression/Typed.antt =====
-- The kind that a result is marked with is the kind of its value.
use buildfab.Base.{
  ℕ, zero, suc, ◌+◌, take, Str, String, Bool, true, false, ◌&&◌, ◌||◌, not, List, [], ◌∷◌, codes,
  str_eq, Bool-cases, Option-cases, inl, inr, Fallible, returns, fails, drop, if◌then◌else◌, leb,
  length,
}
use buildfab.Base.Attempts.{Attempt, gives, errors, panics, runs_out, and_then, or_else}
use buildfab.Base.Strings.{has_prefix, has_suffix, str_contains, split, trim_space}
use buildfab.Expression.{
  Host, Value, bool_value, string_value, float_value, int_value, Kind, bool_kind, string_kind,
  number_kind, ExpressionResult, of_bool, of_string, to_bool,
}
use buildfab.Expression.Compare.{compare_values}
use buildfab.Expression.Functions.{
  call_function, with_one, with_two, matches, semver_compare, checked, expects,
}
use buildfab.Expression.Context.{ExpressionContext}
use buildfab.Expression.Parse.{
  parse_variable_reference, parse_literal, unquoted, parse_fuel, parse_expression, parse_step,
  inside, parse_logical_expression, binary, negation, operator_at, try_operators, comparison,
  compared, normalized, two_parts, operators, parse_function_call, match_call, is_quoted,
}

unfoldable pub kind_of : {F : Type 0} → Value F → Kind
kind_of (bool_value b) = bool_kind
kind_of (string_value s) = string_kind
kind_of (float_value x) = number_kind
kind_of (int_value n) = number_kind

-- No value that is marked with another kind than its own.
pub data IsTyped {F : Type 0} : Attempt (ExpressionResult F) → Type 0 where
  typed_value : {v : Value F} → IsTyped (gives (record { value = v; kind = kind_of v }))
  typed_error : {e : Str} → IsTyped (errors e)
  typed_panic : {p : Str} → IsTyped (panics p)
  typed_running : IsTyped runs_out

bool-IsTyped : {F : Type 0} (b : Bool) → IsTyped {F = F} (gives (of_bool b))
unfolding of_bool kind_of
bool-IsTyped b = typed_value {v = bool_value b}

string-IsTyped : {F : Type 0} (s : Str) → IsTyped {F = F} (gives (of_string s))
unfolding of_string kind_of
string-IsTyped s = typed_value {v = string_value s}

then-IsTyped :
    {F A : Type 0} (t : Attempt A) (f : A → Attempt (ExpressionResult F))
    → ((a : A) → IsTyped (f a))
    → IsTyped (and_then t f)
unfolding and_then
then-IsTyped (gives a) f h = h a
then-IsTyped (errors e) f h = typed_error
then-IsTyped (panics p) f h = typed_panic
then-IsTyped runs_out f h = typed_running

else-IsTyped :
    {F : Type 0} (t u : Attempt (ExpressionResult F))
    → IsTyped t
    → IsTyped u
    → IsTyped (or_else t u)
unfolding or_else
else-IsTyped (gives a) u h k = h
else-IsTyped (errors e) u h k = k
else-IsTyped (panics p) u h k = h
else-IsTyped runs_out u h k = h

compared-IsTyped : {F : Type 0} (f : Fallible Bool) → IsTyped {F = F} (compared f)
unfolding compared
compared-IsTyped (returns b) = bool-IsTyped b
compared-IsTyped (fails e) = typed_error

if-IsTyped :
    {F : Type 0} (b : Bool) (t u : Attempt (ExpressionResult F))
    → IsTyped t
    → IsTyped u
    → IsTyped (if b then t else u)
if-IsTyped true t u first second = first
if-IsTyped false t u first second = second

module _ (h : Host) where
  one-IsTyped :
      (name : Str) (args : List (ExpressionResult h.Float))
      (f : Str → Attempt (ExpressionResult h.Float))
      → ((s : Str) → IsTyped (f s))
      → IsTyped (with_one h name args f)
  unfolding with_one expects
  one-IsTyped name [] f typed = typed_error
  one-IsTyped name (a ∷ []) f typed = typed _
  one-IsTyped name (a ∷ b ∷ rest) f typed = typed_error

  two-IsTyped :
      (name : Str) (args : List (ExpressionResult h.Float))
      (f : Str → Str → Attempt (ExpressionResult h.Float))
      → ((s t : Str) → IsTyped (f s t))
      → IsTyped (with_two h name args f)
  unfolding with_two expects
  two-IsTyped name [] f typed = typed_error
  two-IsTyped name (a ∷ []) f typed = typed_error
  two-IsTyped name (a ∷ b ∷ []) f typed = typed _ _
  two-IsTyped name (a ∷ b ∷ c ∷ rest) f typed = typed_error

  matches-IsTyped : (s pattern : Str) → IsTyped (matches h s pattern)
  unfolding matches
  matches-IsTyped s pattern = then-IsTyped _ _ (λ test. bool-IsTyped (test s))

  semver_compare-IsTyped : (v w : Str) → IsTyped (semver_compare h v w)
  unfolding semver_compare kind_of
  semver_compare-IsTyped v w =
      then-IsTyped (checked (codes "invalid version 1: ") (h.parse_version v)) _ (λ v1.
        then-IsTyped (checked (codes "invalid version 2: ") (h.parse_version w)) _
          (λ v2. typed_value {v = int_value (h.compare_versions v1 v2)}))

  call_function-IsTyped :
      (name : Str) (args : List (ExpressionResult h.Float)) → IsTyped (call_function h name args)
  unfolding call_function
  call_function-IsTyped name args =
      if-IsTyped (named "contains") _ _
        (two-IsTyped name args _ (λ s t. bool-IsTyped (str_contains s t)))
        (if-IsTyped (named "startsWith") _ _
          (two-IsTyped name args _ (λ s t. bool-IsTyped (has_prefix s t)))
          (if-IsTyped (named "endsWith") _ _
            (two-IsTyped name args _ (λ s t. bool-IsTyped (has_suffix s t)))
            (if-IsTyped (named "matches") _ _ (two-IsTyped name args _ matches-IsTyped) (
              if-IsTyped (named "fileExists") _ _
                (one-IsTyped name args _ (λ s. bool-IsTyped (not (h.is_missing s))))
                (if-IsTyped (named "semverCompare") _ _
                  (two-IsTyped name args _ semver_compare-IsTyped) typed_error)))))
    where
      named : String → Bool
      named wanted = str_eq name (codes wanted)

  module _ (ctx : ExpressionContext) where
    reference-IsTyped : (e : Str) → IsTyped (parse_variable_reference h ctx e)
    unfolding parse_variable_reference parse_literal unquoted kind_of
    reference-IsTyped e =
        if-IsTyped (is_quoted h ctx e) _ _
          (if-IsTyped (leb 2 (length e)) _ _ (string-IsTyped (inside 1 1 e)) typed_panic)
          (elim (Option-cases (h.parse_float e)) [
            | inr (x, is) ↦ rw is (typed_value {v = float_value x})
            | inl none_of ↦ rw none_of (
                if-IsTyped (str_eq e (codes "true")) _ _ (bool-IsTyped true) (
                  if-IsTyped (str_eq e (codes "false")) _ _ (bool-IsTyped false)
                    (then-IsTyped _ _ (λ v. string-IsTyped v))))
          ])

    module _ (parse : Str → Attempt (ExpressionResult h.Float)) where
      binary-IsTyped :
          (test : Bool → Bool → Bool) (e : Str) (at : ℕ) → IsTyped (binary h ctx parse test e at)
      unfolding binary
      binary-IsTyped test e at = then-IsTyped (parse (trim_space (take at e))) _ (λ l.
          then-IsTyped (parse (trim_space (drop (at + 2) e))) _
            (λ r. bool-IsTyped (test (to_bool h l) (to_bool h r))))

      logical-IsTyped : (e : Str) → IsTyped (parse_logical_expression h ctx parse e)
      unfolding parse_logical_expression binary negation
      logical-IsTyped e = elim (Bool-cases (has_prefix e (codes "!"))) [
        | inl negated ↦
            rw (negated, parse_logical_expression)
              (then-IsTyped _ _ (λ r. bool-IsTyped (not (to_bool h r))))
        | inr other ↦
            rw (other, parse_logical_expression)
              (elim (Option-cases (operator_at b'&' e)) [
                | inr (at, is) ↦ rw is (binary-IsTyped (λ a b. a && b) e at)
                | inl no_and ↦ rw no_and (elim (Option-cases (operator_at b'|' e)) [
                  | inr (at, is) ↦ rw is (binary-IsTyped (λ a b. a || b) e at)
                  | inl no_or ↦ rw no_or typed_error
                ])
              ])
      ]

      comparison-IsTyped : (op left right : Str) → IsTyped (comparison h ctx parse op left right)
      unfolding comparison
      comparison-IsTyped op left right = then-IsTyped (parse (trim_space left)) _ (λ l.
          then-IsTyped (parse (trim_space right)) _
            (λ r. compared-IsTyped (compare_values h l r (normalized op))))

      operators-IsTyped : (ops : List Str) (e : Str) → IsTyped (try_operators h ctx parse ops e)
      unfolding try_operators
      operators-IsTyped [] e = typed_error
      operators-IsTyped (op ∷ ops) e = elim (Bool-cases (str_contains e op)) [
        | inr absent ↦ rw (absent, try_operators) (operators-IsTyped ops e)
        | inl found ↦ elim (Option-cases (two_parts (split e op))) [
          | inl many ↦ rw (found, many, try_operators) (operators-IsTyped ops e)
          | inr ((a, b), is) ↦ rw (found, is, try_operators) (comparison-IsTyped op a b)
        ]
      ]

      call-IsTyped : (e : Str) → IsTyped (parse_function_call h ctx parse e)
      unfolding parse_function_call
      call-IsTyped e = elim (Option-cases (match_call [] e)) [
        | inl no_call ↦ rw (no_call, parse_function_call) typed_error
        | inr ((name, text), is) ↦
            rw (is, parse_function_call)
              (then-IsTyped _ _ (λ args. call_function-IsTyped name args))
      ]

      parse_step-IsTyped :
          ((s : Str) → IsTyped (parse s)) → (text : Str) → IsTyped (parse_step h ctx parse text)
      unfolding parse_step
      parse_step-IsTyped typed text =
          let e = trim_space text in
          elim (Bool-cases (has_prefix e (codes "(") && has_suffix e (codes ")"))) [
            | inl wrapped ↦ rw (wrapped, parse_step) (typed (trim_space (inside 1 1 e)))
            | inr plain ↦
                rw (plain, parse_step)
                  (else-IsTyped _ _ (logical-IsTyped e) (
                    else-IsTyped _ _ (operators-IsTyped operators e) (
                      else-IsTyped _ _ (call-IsTyped e)
                        (else-IsTyped _ _ (reference-IsTyped e) typed_error))))
          ]

    fuel-IsTyped : (n : ℕ) (e : Str) → IsTyped (parse_fuel h ctx n e)
    unfolding parse_fuel
    fuel-IsTyped zero e = typed_running
    fuel-IsTyped (suc n) e = parse_step-IsTyped (parse_fuel h ctx n) (fuel-IsTyped n) e

    -- A result of parseExpression is marked with the type of the value that it holds.
    pub parse_expression-IsTyped : (e : Str) → IsTyped (parse_expression h ctx e)
    unfolding parse_expression
    parse_expression-IsTyped e = fuel-IsTyped (suc (length e)) e
