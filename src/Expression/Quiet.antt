-- ===== src/Expression/Quiet.antt =====
-- Where the evaluation cannot panic: in an expression without quotes.
use buildfab.Base.{
  ℕ, zero, suc, ◌<◌, Str, String, Bool, true, false, not, ◌&&◌, ◌||◌, List, [], ◌∷◌, length, Option,
  none, some, ◌≡◌, refl, arith, codes, str_eq, ◌==◌, Bool-cases, Option-cases, inl, inr, Fallible,
  returns, fails, if◌then◌else◌,
}
use buildfab.Base.Attempts.{Attempt, gives, errors, panics, runs_out, and_then, or_else}
use buildfab.Base.Strings.{has_prefix, has_suffix, trim_space}
use buildfab.Base.Bytes.{all_bytes, IsPart, IsPart-refl, IsPart-trans, trim_space-IsPart}
use buildfab.Expression.{Host, ExpressionResult}
use buildfab.Expression.Functions.{
  call_function, with_one, with_two, matches, semver_compare, checked, expects,
}
use buildfab.Expression.Context.{ExpressionContext, resolve_variable, resolve_prefixed, found_or}
use buildfab.Expression.Parse.{
  parse_variable_reference, parse_literal, parse_fuel, parse_expression, unwrapped,
  evaluate_expression, is_quoted, inside,
}
use buildfab.Expression.Shorter.{inside-IsPart}
use buildfab.Expression.Local.{IsRespected, parse_step-Local}

-- A value or an error.
pub data IsQuiet {A : Type 0} : Attempt A → Type 0 where
  quiet_gives : {a : A} → IsQuiet (gives a)
  quiet_errors : {e : Str} → IsQuiet (errors e)

abbrev Quiet : (A : Type 0) → Attempt A → Attempt A → Type 0
Quiet A t u = IsQuiet t

and_then-IsQuiet :
    (A B : Type 0) (t : Attempt A) (f : A → Attempt B)
    → IsQuiet t
    → ((a : A) → IsQuiet (f a))
    → IsQuiet (and_then t f)
unfolding and_then
and_then-IsQuiet A B (gives a) f quiet after = after a
and_then-IsQuiet A B (errors e) f quiet after = quiet_errors
and_then-IsQuiet A B (panics p) f quiet after = elim quiet [ ]
and_then-IsQuiet A B runs_out f quiet after = elim quiet [ ]

or_else-IsQuiet :
    (A : Type 0) (t next : Attempt A) → IsQuiet t → IsQuiet next → IsQuiet (or_else t next)
unfolding or_else
or_else-IsQuiet A (gives a) next quiet after = quiet_gives
or_else-IsQuiet A (errors e) next quiet after = after
or_else-IsQuiet A (panics p) next quiet after = elim quiet [ ]
or_else-IsQuiet A runs_out next quiet after = elim quiet [ ]

Quiet-IsRespected : IsRespected Quiet
Quiet-IsRespected = record {
  at_gives = λ A a. quiet_gives;
  at_errors = λ A e. quiet_errors;
  at_then = λ A B t u f g quiet after. and_then-IsQuiet A B t f quiet after;
  at_else = λ A t u next after quiet later. or_else-IsQuiet A t next quiet later;
}

if-IsQuiet :
    {A : Type 0} (b : Bool) (t u : Attempt A) → IsQuiet t → IsQuiet u → IsQuiet (if b then t else u)
if-IsQuiet true t u first second = first
if-IsQuiet false t u first second = second

found_or-IsQuiet : (o : Option Str) (next : Attempt Str) → IsQuiet next → IsQuiet (found_or o next)
unfolding found_or
found_or-IsQuiet (some v) next quiet = quiet_gives
found_or-IsQuiet none next quiet = quiet

-- A quote of either kind.
abbrev pub is_quote : ℕ → Bool
is_quote c = c == b'\'' || c == b'"'

abbrev pub no_quote : ℕ → Bool
no_quote c = not (is_quote c)

module _ (h : Host) where
  checked-IsQuiet : {A : Type 0} (text : Str) (f : Fallible A) → IsQuiet (checked text f)
  unfolding checked
  checked-IsQuiet text (returns a) = quiet_gives
  checked-IsQuiet text (fails e) = quiet_errors

  with_one-IsQuiet :
      (name : Str) (args : List (ExpressionResult h.Float))
      (f : Str → Attempt (ExpressionResult h.Float))
      → ((s : Str) → IsQuiet (f s))
      → IsQuiet (with_one h name args f)
  unfolding with_one expects
  with_one-IsQuiet name [] f quiet = quiet_errors
  with_one-IsQuiet name (a ∷ []) f quiet = quiet _
  with_one-IsQuiet name (a ∷ b ∷ rest) f quiet = quiet_errors

  with_two-IsQuiet :
      (name : Str) (args : List (ExpressionResult h.Float))
      (f : Str → Str → Attempt (ExpressionResult h.Float))
      → ((s t : Str) → IsQuiet (f s t))
      → IsQuiet (with_two h name args f)
  unfolding with_two expects
  with_two-IsQuiet name [] f quiet = quiet_errors
  with_two-IsQuiet name (a ∷ []) f quiet = quiet_errors
  with_two-IsQuiet name (a ∷ b ∷ []) f quiet = quiet _ _
  with_two-IsQuiet name (a ∷ b ∷ c ∷ rest) f quiet = quiet_errors

  matches-IsQuiet : (s pattern : Str) → IsQuiet (matches h s pattern)
  unfolding matches
  matches-IsQuiet s pattern =
      and_then-IsQuiet _ _ _ _
        (checked-IsQuiet (codes "invalid regex in matches(): ") (h.compile pattern))
        (λ test. quiet_gives)

  semver_compare-IsQuiet : (v w : Str) → IsQuiet (semver_compare h v w)
  unfolding semver_compare
  semver_compare-IsQuiet v w =
      and_then-IsQuiet _ _ _ _ (checked-IsQuiet (codes "invalid version 1: ") (h.parse_version v))
        (λ v1.
          and_then-IsQuiet _ _ _ _
            (checked-IsQuiet (codes "invalid version 2: ") (h.parse_version w)) (λ v2. quiet_gives))

  pub call_function-IsQuiet :
      (name : Str) (args : List (ExpressionResult h.Float)) → IsQuiet (call_function h name args)
  unfolding call_function
  call_function-IsQuiet name args =
      if-IsQuiet (named "contains") _ _ (with_two-IsQuiet name args _ (λ s t. quiet_gives)) (
        if-IsQuiet (named "startsWith") _ _ (with_two-IsQuiet name args _ (λ s t. quiet_gives)) (
          if-IsQuiet (named "endsWith") _ _ (with_two-IsQuiet name args _ (λ s t. quiet_gives)) (
            if-IsQuiet (named "matches") _ _ (with_two-IsQuiet name args _ matches-IsQuiet) (
              if-IsQuiet (named "fileExists") _ _ (with_one-IsQuiet name args _ (λ s. quiet_gives))
                (if-IsQuiet (named "semverCompare") _ _
                  (with_two-IsQuiet name args _ semver_compare-IsQuiet) quiet_errors)))))
    where
      named : String → Bool
      named wanted = str_eq name (codes wanted)

  module _ (ctx : ExpressionContext) where
    pub resolve_variable-IsQuiet : (name : Str) → IsQuiet (resolve_variable h ctx name)
    unfolding resolve_variable resolve_prefixed
    resolve_variable-IsQuiet name =
        if-IsQuiet (str_eq name (codes "os")) _ _ (found_or-IsQuiet _ _ quiet_gives) (
          if-IsQuiet (str_eq name (codes "arch")) _ _ (found_or-IsQuiet _ _ quiet_gives) (
            if-IsQuiet (str_eq name (codes "ci")) _ _ quiet_gives (
              if-IsQuiet (str_eq name (codes "branch")) _ _ quiet_gives (
                if-IsQuiet (has_prefix name (codes "env.")) _ _ quiet_gives (
                  if-IsQuiet (has_prefix name (codes "inputs.")) _ _
                    (found_or-IsQuiet _ _ quiet_errors)
                    (if-IsQuiet (has_prefix name (codes "matrix.")) _ _
                      (found_or-IsQuiet _ _ quiet_errors) (found_or-IsQuiet _ _ quiet_errors)))))))

    not_quoted : (e : Str) → all_bytes no_quote e ≡ true → is_quoted h ctx e ≡ false
    unfolding all_bytes has_prefix has_suffix
    not_quoted [] clean = refl
    not_quoted (c ∷ cs) clean = ground arith

    reference-IsQuiet :
        (e : Str) → all_bytes no_quote e ≡ true → IsQuiet (parse_variable_reference h ctx e)
    unfolding parse_variable_reference parse_literal
    reference-IsQuiet e clean =
        rw (not_quoted e clean, parse_variable_reference)
          (elim (Option-cases (h.parse_float e)) [
            | inr (x, is) ↦ rw (is, parse_variable_reference) quiet_gives
            | inl none_of ↦
                rw (none_of, parse_variable_reference)
                  (if-IsQuiet (str_eq e (codes "true")) _ _ quiet_gives (
                    if-IsQuiet (str_eq e (codes "false")) _ _ quiet_gives
                      (and_then-IsQuiet _ _ _ _ (resolve_variable-IsQuiet e) (λ v. quiet_gives))))
          ])

    parse_fuel-IsQuiet :
        (n : ℕ) (e : Str)
        → length e < n
        → all_bytes no_quote e ≡ true
        → IsQuiet (parse_fuel h ctx n e)
    unfolding parse_fuel
    parse_fuel-IsQuiet zero e small clean = absurd (omega arith)
    parse_fuel-IsQuiet (suc n) e small clean =
        parse_step-Local h ctx Quiet Quiet-IsRespected call_function-IsQuiet (parse_fuel h ctx n)
          (parse_fuel h ctx n) e
          (reference-IsQuiet (trim_space e) ((trim_space-IsPart e).passes no_quote clean))
          (λ s shorter.
            let k = shorter.less in
            parse_fuel-IsQuiet n s (omega arith) (shorter.part.passes no_quote clean))

    unwrapped-IsPart : (e : Str) → IsPart (unwrapped h ctx e) e
    unfolding unwrapped
    unwrapped-IsPart e =
        elim (Bool-cases (has_prefix e (codes "${{") && has_suffix e (codes "}}"))) [
          | inl wrapped ↦
              rw wrapped (IsPart-trans (trim_space-IsPart (inside 3 2 e)) (inside-IsPart 3 2 e))
          | inr plain ↦ rw plain (IsPart-refl e)
        ]

    -- The evaluation of an expression without quotes never panics: it gives a value or an error.
    pub evaluate_expression-IsQuiet :
        (text : Str) → all_bytes no_quote text ≡ true → IsQuiet (evaluate_expression h ctx text)
    unfolding evaluate_expression parse_expression
    evaluate_expression-IsQuiet text clean =
        let part = IsPart-trans (unwrapped-IsPart (trim_space text)) (trim_space-IsPart text) in
        and_then-IsQuiet _ _ _ _
          (parse_fuel-IsQuiet (suc (length (unwrapped h ctx (trim_space text))))
            (unwrapped h ctx (trim_space text)) (omega arith) (part.passes no_quote clean))
          (λ r. quiet_gives)
