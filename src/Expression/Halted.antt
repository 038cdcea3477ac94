-- ===== src/Expression/Halted.antt =====
-- The evaluation of an expression does not run out of fuel.
use buildfab.Base.{
  ℕ, zero, suc, ◌<◌, Str, Bool, true, false, length, codes, str_eq, leb, arith, Option-cases, inl,
  inr, if◌then◌else◌,
}
use buildfab.Base.Attempts.{Attempt, gives, errors, panics, runs_out, and_then, or_else}
use buildfab.Base.Strings.{trim_space}
use buildfab.Expression.{Host}
use buildfab.Expression.Context.{ExpressionContext}
use buildfab.Expression.Parse.{
  parse_variable_reference, parse_literal, unquoted, is_quoted, parse_fuel,
}
use buildfab.Expression.Local.{IsRespected, parse_step-Local}
use buildfab.Expression.Quiet.{
  IsQuiet, quiet_gives, quiet_errors, call_function-IsQuiet, resolve_variable-IsQuiet,
}

-- A value, an error or a panic: the fuel did not run out.
pub data IsHalted {A : Type 0} : Attempt A → Type 0 where
  halted_gives : {a : A} → IsHalted (gives a)
  halted_errors : {e : Str} → IsHalted (errors e)
  halted_panics : {p : Str} → IsHalted (panics p)

abbrev Halted : (A : Type 0) → Attempt A → Attempt A → Type 0
Halted A t u = IsHalted t

and_then-IsHalted :
    (A B : Type 0) (t : Attempt A) (f : A → Attempt B)
    → IsHalted t
    → ((a : A) → IsHalted (f a))
    → IsHalted (and_then t f)
unfolding and_then
and_then-IsHalted A B (gives a) f halted after = after a
and_then-IsHalted A B (errors e) f halted after = halted_errors
and_then-IsHalted A B (panics p) f halted after = halted_panics
and_then-IsHalted A B runs_out f halted after = elim halted [ ]

or_else-IsHalted :
    (A : Type 0) (t next : Attempt A) → IsHalted t → IsHalted next → IsHalted (or_else t next)
unfolding or_else
or_else-IsHalted A (gives a) next halted after = halted_gives
or_else-IsHalted A (errors e) next halted after = after
or_else-IsHalted A (panics p) next halted after = halted_panics
or_else-IsHalted A runs_out next halted after = elim halted [ ]

Halted-IsRespected : IsRespected Halted
Halted-IsRespected = record {
  at_gives = λ A a. halted_gives;
  at_errors = λ A e. halted_errors;
  at_then = λ A B t u f g halted after. and_then-IsHalted A B t f halted after;
  at_else = λ A t u next after halted later. or_else-IsHalted A t next halted later;
}

quiet-IsHalted : {A : Type 0} {t : Attempt A} → IsQuiet t → IsHalted t
quiet-IsHalted quiet_gives = halted_gives
quiet-IsHalted quiet_errors = halted_errors

if-IsHalted :
    {A : Type 0} (b : Bool) (t u : Attempt A)
    → IsHalted t
    → IsHalted u
    → IsHalted (if b then t else u)
if-IsHalted true t u first second = first
if-IsHalted false t u first second = second

module _ (h : Host) (ctx : ExpressionContext) where
  literal-IsHalted : (e : Str) → IsHalted (parse_literal h ctx e)
  unfolding parse_literal
  literal-IsHalted e = if-IsHalted (str_eq e (codes "true")) _ _ halted_gives (
      if-IsHalted (str_eq e (codes "false")) _ _ halted_gives (
        and_then-IsHalted _ _ _ _ (quiet-IsHalted (resolve_variable-IsQuiet h ctx e))
          (λ v. halted_gives)))

  reference-IsHalted : (e : Str) → IsHalted (parse_variable_reference h ctx e)
  unfolding parse_variable_reference unquoted
  reference-IsHalted e =
      if-IsHalted (is_quoted h ctx e) _ _
        (if-IsHalted (leb 2 (length e)) _ _ halted_gives halted_panics)
        (elim (Option-cases (h.parse_float e)) [
          | inr (x, is) ↦ rw is halted_gives
          | inl none_of ↦ rw none_of (literal-IsHalted e)
        ])

  pub parse_fuel-IsHalted : (n : ℕ) (e : Str) → length e < n → IsHalted (parse_fuel h ctx n e)
  unfolding parse_fuel
  parse_fuel-IsHalted zero e small = absurd (omega arith)
  parse_fuel-IsHalted (suc n) e small =
      parse_step-Local h ctx Halted Halted-IsRespected
        (λ name args. quiet-IsHalted (call_function-IsQuiet h name args)) (parse_fuel h ctx n)
        (parse_fuel h ctx n) e (reference-IsHalted (trim_space e))
        (λ s shorter. let k = shorter.less in parse_fuel-IsHalted n s (omega arith))
