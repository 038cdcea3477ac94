-- ===== src/Expression/Fuel.antt =====
-- The fuel of the evaluation does not matter once it is more than the bytes of the expression.
use buildfab.Base.{ℕ, zero, suc, ◌<◌, Str, length, ◌≡◌, refl, arith}
use buildfab.Base.Attempts.{Attempt, gives, errors, panics, runs_out, and_then, or_else}
use buildfab.Expression.{Host}
use buildfab.Expression.Context.{ExpressionContext}
use buildfab.Expression.Parse.{parse_step, parse_fuel, parse_expression}
use buildfab.Expression.Halted.{IsHalted, parse_fuel-IsHalted}
use buildfab.Expression.Local.{IsRespected, parse_step-Local}

abbrev Equal : (A : Type 0) → Attempt A → Attempt A → Type 0
Equal A t u = t ≡ u

Equal-IsRespected : IsRespected Equal
unfolding and_then or_else
Equal-IsRespected = record {
  at_gives = λ A a. refl;
  at_errors = λ A e. refl;
  at_then = λ A B t u f g same after. sequenced A B t u f g same after;
  at_else = λ A t u next after same then. rw (same, then) refl;
}
  where
    sequenced :
        (A B : Type 0) (t u : Attempt A) (f g : A → Attempt B)
        → t ≡ u
        → ((a : A) → f a ≡ g a)
        → and_then t f ≡ and_then u g
    sequenced A B t (gives a) f g same after = rw same (after a)
    sequenced A B t (errors e) f g same after = rw same refl
    sequenced A B t (panics e) f g same after = rw same refl
    sequenced A B t runs_out f g same after = rw same refl

module _ (h : Host) (ctx : ExpressionContext) where
  parse_fuel-agree :
      (n m : ℕ) (e : Str)
      → length e < n
      → length e < m
      → parse_fuel h ctx n e ≡ parse_fuel h ctx m e
  unfolding parse_fuel
  parse_fuel-agree zero m e small _ = absurd (omega arith)
  parse_fuel-agree (suc n) zero e _ small = absurd (omega arith)
  parse_fuel-agree (suc n) (suc m) e f g =
      parse_step-Local h ctx Equal Equal-IsRespected (λ name args. refl) (parse_fuel h ctx n)
        (parse_fuel h ctx m) e refl
        (λ s shorter. let k = shorter.less in parse_fuel-agree n m s (omega arith) (omega arith))

  pub parse_fuel-parse_expression :
      (n : ℕ) (e : Str) → length e < n → parse_fuel h ctx n e ≡ parse_expression h ctx e
  unfolding parse_expression
  parse_fuel-parse_expression n e f = parse_fuel-agree n (suc (length e)) e f (omega arith)

  pub parse_expression_recursion :
      (e : Str) → parse_expression h ctx e ≡ parse_step h ctx (parse_expression h ctx) e
  unfolding parse_expression parse_fuel
  parse_expression_recursion e =
      parse_step-Local h ctx Equal Equal-IsRespected (λ name args. refl)
        (parse_fuel h ctx (length e)) (parse_expression h ctx) e refl
        (λ s shorter. parse_fuel-parse_expression (length e) s shorter.less)

  -- On fuel of one more than the bytes of an expression the evaluation does not run out: it ends
  -- with a value, an error or a panic. And it satisfies the recursion of parseExpression, each
  -- expression being tried as a parenthesis, a logical expression, a comparison, a call and a
  -- reference in turn, over the evaluation of its parts.
  pub parse_expression-parse_step :
      (e : Str)
      → IsHalted (parse_expression h ctx e)
        × (parse_expression h ctx e ≡ parse_step h ctx (parse_expression h ctx) e)
  unfolding parse_expression
  parse_expression-parse_step e =
      (parse_fuel-IsHalted h ctx (suc (length e)) e (omega arith), parse_expression_recursion e)
