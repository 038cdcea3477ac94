-- ===== src/Tests/Expression.antt =====
-- Tests of the expressions of conditions, and the examples of their theorems. The floats of the host
-- are the natural numbers.
use buildfab.Base.{
  ℕ, ◌+◌, ◌-◌, ◌*◌, Str, true, false, List, [], ◌∷◌, Option, none, some, codes, str_eq, ltb, leb,
  ◌==◌, ◌≡◌, refl, if◌then◌else◌, returns, fails, ◌&&◌, arith, unique, contains,
}
use buildfab.Base.Integers.{ℤ, pos, negsuc}
use buildfab.Base.Attempts.{gives, errors, panics}
use buildfab.Base.Dict
use buildfab.Base.Dict.{Dict, keys}
use buildfab.Base.Strings.{has_prefix, has_suffix, str_contains, split, trim_space}
use buildfab.Base.Bytes.{all_bytes}
use buildfab.Expression.{
  Host, ExpressionResult, float_value, string_value, number_kind, string_kind, to_bool, to_string,
  to_number, of_string, of_bool,
}
use buildfab.Expression.Compare.{compare_values}
use buildfab.Expression.Functions.{call_function}
use buildfab.Expression.Context.{ExpressionContext, resolve_variable, new_expression_context}
use buildfab.Expression.Parse.{
  evaluate_condition, evaluate_expression, parse_expression, parse_step, parse_logical_expression,
  try_operators, parse_function_call, parse_variable_reference,
}
use buildfab.Expression.Halted.{IsHalted}
use buildfab.Expression.Fuel.{parse_expression-parse_step}
use buildfab.Expression.Quiet.{IsQuiet, evaluate_expression-IsQuiet}
use buildfab.Expression.Typed.{IsTyped, parse_expression-IsTyped}
use buildfab.Expression.Ordering.{IsOrdered, compare_values-coherent}
use buildfab.Expression.Tight.{starts_tight}
use buildfab.Expression.Precedence.{Means}
use buildfab.Expression.Chains.{Clause, written, all_true, IsKnown, written-Means}
use buildfab.Expression.Literals.{quote, parse_expression-quote}
use buildfab.Expression.Lookups.{meaning, resolve_variable-new_expression_context}

unfoldable digits : ℕ → Str → Option ℕ
digits n [] = some n
digits n (c ∷ cs) = if leb b'0' c && leb c b'9' then digits (n * 10 + (c - 48)) cs else none

abbrev number : Str → Option ℕ
number [] = none
number (c ∷ cs) = digits 0 (c ∷ cs)

abbrev small : ℤ → ℕ
small (pos n) = n
small (negsuc n) = 0

abbrev host : Host
host = record {
  Float = ℕ;
  parse_float = number;
  format_float = λ n. [];
  float_of_int = small;
  float_eq = ◌==◌;
  float_lt = ltb;
  float_le = leb;
  getenv = λ name. [];
  is_missing = λ path. true;
  compile = λ pattern. fails (codes "no regexp");
  Version = Str;
  parse_version = λ text. returns text;
  compare_versions = λ v w. if str_eq v w then pos 0 else pos 1;
  platform_info = record {
    platform = codes "linux";
    arch = codes "amd64";
    os = codes "ubuntu";
    os_version = codes "24.04";
    num_cpu = codes "8";
  };
}

abbrev vars : Dict Str
vars = (codes "mode", codes "fast") ∷ []

equal : evaluate_condition host (codes "os == 'ubuntu'") vars ≡ gives true
unfolding evaluate_condition has_prefix has_suffix trim_space parse_logical_expression str_contains
    try_operators split parse_function_call parse_variable_reference digits str_eq resolve_variable
    new_expression_context Dict.lookup Dict.insert compare_values to_bool to_string of_string
    of_bool call_function
equal = refl

wrapped : evaluate_condition host (codes "${{ mode != 'fast' }}") vars ≡ gives false
unfolding evaluate_condition has_prefix has_suffix trim_space parse_logical_expression str_contains
    try_operators split parse_function_call parse_variable_reference digits str_eq resolve_variable
    new_expression_context Dict.lookup Dict.insert compare_values to_bool to_string of_string
    of_bool call_function
wrapped = refl

weak_and : evaluate_condition host (codes "true || false && false") vars ≡ gives false
unfolding evaluate_condition has_prefix has_suffix trim_space parse_logical_expression str_contains
    try_operators split parse_function_call parse_variable_reference digits str_eq resolve_variable
    new_expression_context Dict.lookup Dict.insert compare_values to_bool to_string of_string
    of_bool call_function
weak_and = refl

call :
    evaluate_condition host (codes "contains(mode, 'as') || missing == 1") vars
    ≡ errors (codes "unable to parse expression: contains(mode, 'as') || missing == 1")
unfolding evaluate_condition has_prefix has_suffix trim_space parse_logical_expression str_contains
    try_operators split parse_function_call parse_variable_reference digits str_eq resolve_variable
    new_expression_context Dict.lookup Dict.insert compare_values to_bool to_string of_string
    of_bool call_function
call = refl

lone_quote : evaluate_condition host (codes "'") vars ≡ panics (codes "slice bounds out of range")
unfolding evaluate_condition has_prefix has_suffix trim_space parse_logical_expression str_contains
    try_operators split parse_function_call parse_variable_reference digits str_eq resolve_variable
    new_expression_context Dict.lookup Dict.insert compare_values to_bool to_string of_string
    of_bool call_function
lone_quote = refl

masked : evaluate_condition host (codes "'' == missing && mode == 'slow'") vars ≡ gives true
unfolding evaluate_condition has_prefix has_suffix trim_space parse_logical_expression str_contains
    try_operators split parse_function_call parse_variable_reference digits str_eq resolve_variable
    new_expression_context Dict.lookup Dict.insert compare_values to_bool to_string of_string
    of_bool call_function
masked = refl

masked_env : evaluate_condition host (codes "env.A && missing") vars ≡ gives false
unfolding evaluate_condition has_prefix has_suffix trim_space parse_logical_expression str_contains
    try_operators split parse_function_call parse_variable_reference digits str_eq resolve_variable
    new_expression_context Dict.lookup Dict.insert compare_values to_bool to_string of_string
    of_bool call_function
masked_env = refl

parens :
    evaluate_condition host (codes "(mode == 'slow') && (mode == 'fast')") vars
    ≡ errors (codes "unable to parse expression: mode == 'slow') && (mode == 'fast'")
unfolding evaluate_condition has_prefix has_suffix trim_space parse_logical_expression str_contains
    try_operators split parse_function_call parse_variable_reference digits str_eq resolve_variable
    new_expression_context Dict.lookup Dict.insert compare_values to_bool to_string of_string
    of_bool call_function
parens = refl

abbrev context : ExpressionContext
context = new_expression_context host vars

on_ubuntu : IsKnown host context (codes "os == 'ubuntu'", true)
unfolding parse_expression new_expression_context has_prefix has_suffix trim_space
    parse_logical_expression str_contains try_operators split parse_function_call
    parse_variable_reference digits str_eq resolve_variable Dict.lookup Dict.insert compare_values
    to_bool to_string of_string of_bool call_function all_bytes starts_tight
on_ubuntu = record {
  clause = record { plain = refl; tight = record { front = refl; back = refl }; unnegated = refl };
  means = record { result = of_bool true; is = refl; truth = refl };
}

is_slow : IsKnown host context (codes "mode == 'slow'", false)
unfolding parse_expression new_expression_context has_prefix has_suffix trim_space
    parse_logical_expression str_contains try_operators split parse_function_call
    parse_variable_reference digits str_eq resolve_variable Dict.lookup Dict.insert compare_values
    to_bool to_string of_string of_bool call_function all_bytes starts_tight
is_slow = record {
  clause = record { plain = refl; tight = record { front = refl; back = refl }; unnegated = refl };
  means = record { result = of_bool false; is = refl; truth = refl };
}

abbrev ubuntu_or_slow : List Clause
ubuntu_or_slow = (codes "os == 'ubuntu'", true) ∷ (codes "mode == 'slow'", false) ∷ []

abbrev slow : List Clause
slow = (codes "mode == 'slow'", false) ∷ []

written-Means_example :
    Means host context
      (written (ubuntu_or_slow ∷ slow ∷ []))
      (all_true (ubuntu_or_slow ∷ slow ∷ []))
written-Means_example = written-Means host context ubuntu_or_slow (slow ∷ []) (
  record { some_clause = omega arith; known = (on_ubuntu, (is_slow, tt)) },
  (record { some_clause = omega arith; known = (is_slow, tt) }, tt),
)

parse_expression-parse_step_example :
    IsHalted (parse_expression host context (codes "mode == 'slow'"))
    × (parse_expression host context (codes "mode == 'slow'")
        ≡ parse_step host context (parse_expression host context) (codes "mode == 'slow'"))
parse_expression-parse_step_example =
    parse_expression-parse_step host context (codes "mode == 'slow'")

evaluate_expression-IsQuiet_example :
    IsQuiet (evaluate_expression host context (codes "contains(mode, os) && ci"))
unfolding all_bytes
evaluate_expression-IsQuiet_example =
    evaluate_expression-IsQuiet host context (codes "contains(mode, os) && ci") refl

parse_expression-IsTyped_example :
    IsTyped (parse_expression host context (codes "semverCompare(mode, os)"))
parse_expression-IsTyped_example =
    parse_expression-IsTyped host context (codes "semverCompare(mode, os)")

ordered : IsOrdered host
ordered = record { eq_sym = λ x y. ground arith; le_iff = λ x y. ground arith }

abbrev two : ExpressionResult ℕ
two = record { value = float_value 2; kind = number_kind }

abbrev ten : ExpressionResult ℕ
ten = record { value = string_value (codes "10"); kind = string_kind }

compare_values-coherent_example :
    (compare_values host two ten (codes "!=") ≡ returns true)
    × (compare_values host two ten (codes "<=") ≡ returns true)
    × (compare_values host ten two (codes "==") ≡ returns false)
    × (compare_values host ten two (codes ">") ≡ returns true)
    × (compare_values host ten two (codes ">=") ≡ returns true)
unfolding compare_values str_eq to_number digits
compare_values-coherent_example = compare_values-coherent host ordered two ten false true refl refl

parse_expression-quote_example :
    parse_expression host context (quote (codes "v1.0 beta"))
    ≡ gives (of_string (codes "v1.0 beta"))
unfolding all_bytes
parse_expression-quote_example = parse_expression-quote host context (codes "v1.0 beta") refl

resolve_variable-new_expression_context_example :
    resolve_variable host context (codes "os") ≡ meaning host vars (codes "os")
unfolding unique keys contains
resolve_variable-new_expression_context_example =
    resolve_variable-new_expression_context host vars (codes "os") refl
