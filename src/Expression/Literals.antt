-- ===== src/Expression/Literals.antt =====
-- A string between quotes stands for itself.
use buildfab.Base.{
  ℕ, suc, ◌-◌, Str, Bool, true, false, not, ◌&&◌, [], ◌∷◌, ◌++◌, length, take, ◌≡◌, refl, ap, ◌∙◌,
  arith, codes, ◌==◌, leb, length-append, str_eq,
}
use mathlib.Core.List.{reverse, reverse-append, reverse-cons}
use buildfab.Base.Attempts.{Attempt, gives, errors, or_else}
use buildfab.Base.Strings.{has_prefix, has_suffix, str_contains}
use buildfab.Base.Bytes.{all_bytes, all_bytes-append}
use buildfab.Expression.{Host, ExpressionResult, of_string}
use buildfab.Expression.Context.{ExpressionContext}
use buildfab.Expression.Parse.{
  inside, parse_logical_expression, parse_comparison_expression, try_operators, parse_function_call,
  match_call, parse_variable_reference, unquoted, parse_step, parse_expression, is_quoted,
}
use buildfab.Expression.Fuel.{parse_expression_recursion}
use buildfab.Expression.Tight.{starts_tight, IsTight, trim_space-tight}
use buildfab.Expression.Operators.{apart}
use buildfab.Expression.Precedence.{operator_at-none, all_bytes-weaken}

-- No byte of an operator and no parenthesis.
abbrev pub literal_byte : ℕ → Bool
literal_byte x =
    apart b'&' x
    && (not (x == b'|')
        && (not (x == b'!') && (not (x == b'=') && (not (x == b'<') && not (x == b'>')))))

unfoldable pub quote : Str → Str
quote s = 39 ∷ (s ++ 39 ∷ [])

has_prefix-lacks :
    (p : ℕ → Bool) (s op : Str)
    → all_bytes p s ≡ true
    → all_bytes p op ≡ false
    → has_prefix s op ≡ false
unfolding all_bytes has_prefix
has_prefix-lacks p s [] h k = cc
has_prefix-lacks p [] (y ∷ ys) h k = refl
has_prefix-lacks p (x ∷ xs) (y ∷ ys) h k = ground (arith, has_prefix-lacks p xs ys)

str_contains-lacks :
    (p : ℕ → Bool) (s op : Str)
    → all_bytes p s ≡ true
    → all_bytes p op ≡ false
    → str_contains s op ≡ false
unfolding all_bytes str_contains
str_contains-lacks p [] op h k = has_prefix-lacks p [] op h k
str_contains-lacks p (x ∷ xs) op h k =
    ground (arith, has_prefix-lacks p (x ∷ xs) op h k, str_contains-lacks p xs op)

take-length : (s t : Str) → take (length s) (s ++ t) ≡ s
take-length [] t = refl
take-length (x ∷ xs) t = ap (λ r. x ∷ r) (take-length xs t)

reverse-quote : (s : Str) → reverse (quote s) ≡ 39 ∷ (reverse s ++ 39 ∷ [])
unfolding quote
reverse-quote s =
    reverse-cons 39 (s ++ 39 ∷ []) ∙ ap (λ r. r ++ 39 ∷ []) (reverse-append s (39 ∷ []))

quote-IsTight : (s : Str) → IsTight (quote s)
unfolding quote starts_tight
quote-IsTight s = record { front = refl; back = ap starts_tight (reverse-quote s) }

quote-literal :
    (s : Str) → all_bytes literal_byte s ≡ true → all_bytes literal_byte (quote s) ≡ true
unfolding quote all_bytes
quote-literal s h = ground (arith, all_bytes-append literal_byte s (39 ∷ []))

inside-quote : (s : Str) → inside 1 1 (quote s) ≡ s
unfolding quote inside
inside-quote s =
    let n : suc (length (s ++ 39 ∷ [])) - 1 ≡ suc (length s) =
      omega (arith, length-append s (39 ∷ [])) in
    rw n (take-length s (39 ∷ []))

module _ (h : Host) (ctx : ExpressionContext) where
  try_operators-lacks :
      (parse : Str → Attempt (ExpressionResult h.Float)) (s : Str)
      → all_bytes literal_byte s ≡ true
      → parse_comparison_expression h ctx parse s ≡ errors (codes "not a comparison expression")
  unfolding try_operators all_bytes
  try_operators-lacks parse s clean =
      rw
        (
          lacks (codes "!=") refl,
          lacks (codes " = ") refl,
          lacks (codes "<=") refl,
          lacks (codes ">=") refl,
          lacks (codes "<") refl,
          lacks (codes ">") refl,
          lacks (codes "==") refl,
          try_operators,
        )
        refl
    where
      lacks : (op : Str) → all_bytes literal_byte op ≡ false → str_contains s op ≡ false
      lacks op k = str_contains-lacks literal_byte s op clean k

  parse_logical_expression-lacks :
      (parse : Str → Attempt (ExpressionResult h.Float)) (s : Str)
      → all_bytes literal_byte s ≡ true
      → parse_logical_expression h ctx parse s ≡ errors (codes "not a logical expression")
  unfolding parse_logical_expression all_bytes
  parse_logical_expression-lacks parse s clean =
      let no_not = has_prefix-lacks literal_byte s (codes "!") clean refl in
      let no_and =
        operator_at-none h ctx b'&' s
          (all_bytes-weaken literal_byte (apart b'&') (λ x k. ground arith) s clean) in
      let no_or =
        operator_at-none h ctx b'|' s
          (all_bytes-weaken literal_byte (apart b'|') (λ x k. ground arith) s clean) in
      rw (no_not, no_and, no_or, parse_logical_expression) refl

  quote-is_quoted : (s : Str) → is_quoted h ctx (quote s) ≡ true
  unfolding quote has_prefix has_suffix
  quote-is_quoted s = ground (arith, ap (λ r. has_prefix r (codes "'")) (reverse-quote s))

  length-quote : (s : Str) → leb 2 (length (quote s)) ≡ true
  unfolding quote
  length-quote s = ground (arith, length-append s (39 ∷ []))

  reference-quote : (s : Str) → parse_variable_reference h ctx (quote s) ≡ gives (of_string s)
  unfolding parse_variable_reference unquoted
  reference-quote s =
      rw (quote-is_quoted s, length-quote s, inside-quote s, parse_variable_reference, unquoted)
        refl

  function_call-quote :
      (parse : Str → Attempt (ExpressionResult h.Float)) (s : Str)
      → parse_function_call h ctx parse (quote s)
        ≡ errors (codes "not a function call: " ++ quote s)
  unfolding parse_function_call match_call quote str_eq
  function_call-quote parse s = refl

  parse_step-quote :
      (parse : Str → Attempt (ExpressionResult h.Float)) (s : Str)
      → all_bytes literal_byte s ≡ true
      → parse_step h ctx parse (quote s) ≡ gives (of_string s)
  unfolding parse_step or_else all_bytes
  parse_step-quote parse s clean =
      let e = trim_space-tight (quote s) (quote-IsTight s) in
      let literal = quote-literal s clean in
      let no_paren =
        ap (λ x. has_prefix x (codes "(")) e
        ∙ has_prefix-lacks literal_byte (quote s) (codes "(") literal refl in
      let logical =
        ap (parse_logical_expression h ctx parse) e
        ∙ parse_logical_expression-lacks parse (quote s) literal in
      let comparison =
        ap (parse_comparison_expression h ctx parse) e
        ∙ try_operators-lacks parse (quote s) literal in
      let call = ap (parse_function_call h ctx parse) e ∙ function_call-quote parse s in
      let reference = ap (parse_variable_reference h ctx) e ∙ reference-quote s in
      rw (no_paren, logical, comparison, call, reference, parse_step, or_else) refl

  -- A string of bytes that are no parenthesis and stand in no operator, written between single
  -- quotes, evaluates to itself.
  pub parse_expression-quote :
      (s : Str)
      → all_bytes literal_byte s ≡ true
      → parse_expression h ctx (quote s) ≡ gives (of_string s)
  parse_expression-quote s clean =
      parse_expression_recursion h ctx (quote s) ∙ parse_step-quote (parse_expression h ctx) s clean
