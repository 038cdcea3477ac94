-- ===== src/Expression/Precedence.antt =====
-- What a chain of clauses with `&&` and `||` between them means: the search for `&&` comes first, so
-- the clauses between two of them are held together by their `||`.
use buildfab.Base.{
  ℕ, suc, ◌+◌, Str, Bool, true, false, not, ◌&&◌, ◌||◌, [], ◌∷◌, ◌++◌, length, take, drop, none,
  ◌≡◌, refl, ap, ◌∙◌, arith, codes, ◌==◌,
}
use buildfab.Base.Attempts.{Attempt, gives, and_then, or_else}
use buildfab.Base.Strings.{has_prefix, trim_space}
use buildfab.Base.Bytes.{all_bytes, all_bytes-append}
use buildfab.Expression.{Host, ExpressionResult, of_bool, to_bool, bool_of}
use buildfab.Expression.Context.{ExpressionContext}
use buildfab.Expression.Parse.{
  operator_at, binary, parse_logical_expression, parse_step, parse_expression,
}
use buildfab.Expression.Fuel.{parse_expression_recursion}
use buildfab.Expression.Tight.{
  starts_tight, IsTight, IsTight-between, trim_space-tight, trim_space-front, trim_space-back,
  take-append, drop-append,
}
use buildfab.Expression.Operators.{
  apart, spaced, find_operator-none, find_operator-first, str_contains-middle,
}

-- The bytes of a clause: no parentheses, and no `&` or `|`.
abbrev pub clause_byte : ℕ → Bool
clause_byte x = apart b'&' x && not (x == b'|')

-- A piece of a condition: of such bytes, with no space around it, and not a negation.
pub record IsClause (s : Str) : Type 0 where
  pub plain : all_bytes clause_byte s ≡ true
  pub tight : IsTight s
  pub unnegated : has_prefix s (codes "!") ≡ false

-- The start of a text that neither a parenthesis nor a negation opens.
pub record IsOpening (s : Str) : Type 0 where
  pub tight : IsTight s
  pub unnegated : has_prefix s (codes "!") ≡ false
  pub apart_and : all_bytes (apart b'&') s ≡ true

pub all_bytes-weaken :
    (p q : ℕ → Bool)
    → ((x : ℕ) → p x ≡ true → q x ≡ true)
    → (s : Str) → all_bytes p s ≡ true
    → all_bytes q s ≡ true
unfolding all_bytes
all_bytes-weaken p q f [] h = refl
all_bytes-weaken p q f (x ∷ xs) h = ground (arith, f x, all_bytes-weaken p q f xs)

pub IsClause-IsOpening : (s : Str) → IsClause s → IsOpening s
IsClause-IsOpening s c = record {
  tight = c.tight;
  unnegated = c.unnegated;
  apart_and = all_bytes-weaken clause_byte (apart b'&') (λ x h. ground arith) s c.plain;
}

opening-prefix :
    (s t : Str)
    → IsOpening s
    → (has_prefix (s ++ t) (codes "!") ≡ false) × (has_prefix (s ++ t) (codes "(") ≡ false)
unfolding has_prefix starts_tight all_bytes
opening-prefix [] t o = let h = o.tight.front in cc
opening-prefix (x ∷ xs) t o =
    let h = o.unnegated in let k = o.apart_and in (ground arith, ground arith)

pub IsOpening-or : (s t : Str) → IsClause s → IsOpening t → IsOpening (s ++ (spaced b'|' ++ t))
unfolding all_bytes
IsOpening-or s t c o = record {
  tight = IsTight-between s (spaced b'|') t c.tight o.tight;
  unnegated = (opening-prefix s (spaced b'|' ++ t) (IsClause-IsOpening s c)).0;
  apart_and =
      let a = (IsClause-IsOpening s c).apart_and in
      let b = o.apart_and in ground (arith, all_bytes-append (apart b'&') s (spaced b'|' ++ t));
}

module _ (h : Host) (ctx : ExpressionContext) where
  -- The expression evaluates, and its result is true or not.
  pub record Means (e : Str) (b : Bool) : Type 0 where
    pub result : ExpressionResult h.Float
    pub is : parse_expression h ctx e ≡ gives result
    pub truth : to_bool h result ≡ b

  parse_step-logical :
      (parse : Str → Attempt (ExpressionResult h.Float)) (e : Str) (r : ExpressionResult h.Float)
      → trim_space e ≡ e
      → has_prefix e (codes "(") ≡ false
      → parse_logical_expression h ctx parse e ≡ gives r
      → parse_step h ctx parse e ≡ gives r
  unfolding parse_step or_else
  parse_step-logical parse e r trimmed unwrapped is =
      let inner = ap (λ x. has_prefix x (codes "(")) trimmed ∙ unwrapped in
      let logical = ap (parse_logical_expression h ctx parse) trimmed ∙ is in
      rw (inner, logical, parse_step) refl

  logical-Means :
      (e : Str) (b : Bool)
      → IsTight e
      → has_prefix e (codes "(") ≡ false
      → parse_logical_expression h ctx (parse_expression h ctx) e ≡ gives (of_bool b)
      → Means e b
  unfolding to_bool bool_of of_bool
  logical-Means e b tight unwrapped is = record {
    result = of_bool b;
    is =
        parse_expression_recursion h ctx e
        ∙ parse_step-logical (parse_expression h ctx) e (of_bool b) (trim_space-tight e tight)
            unwrapped is;
    truth = refl;
  }

  binary-gives :
      (test : Bool → Bool → Bool) (c : ℕ) (s t : Str) (a b : Bool)
      → IsTight s
      → IsTight t
      → Means s a
      → Means t b
      → binary h ctx (parse_expression h ctx) test (s ++ (spaced c ++ t)) (suc (length s))
        ≡ gives (of_bool (test a b))
  unfolding binary
  binary-gives test c s t a b f g m n =
      let left : trim_space (take (suc (length s)) (s ++ (spaced c ++ t))) ≡ s =
        ap trim_space (take-append s 32 (c ∷ c ∷ 32 ∷ t)) ∙ trim_space-back s f in
      let at : suc (length s) + 2 ≡ suc (suc (suc (length s))) = omega arith in
      let right : trim_space (drop (suc (length s) + 2) (s ++ (spaced c ++ t))) ≡ t =
        ap (λ k. trim_space (drop k (s ++ (spaced c ++ t)))) at
        ∙ ap trim_space (drop-append s 32 c c (32 ∷ t))
        ∙ trim_space-front t g in
      rw (left, m.is, right, n.is, m.truth, n.truth, and_then, binary) refl

  pub and-Means :
      (s t : Str) (a b : Bool)
      → IsOpening s
      → IsTight t
      → Means s a
      → Means t b
      → Means (s ++ (spaced b'&' ++ t)) (a && b)
  unfolding operator_at parse_logical_expression
  and-Means s t a b o g m n =
      let (no_not, no_paren) = opening-prefix s (spaced b'&' ++ t) o in
      logical-Means (s ++ (spaced b'&' ++ t)) (a && b) (IsTight-between s (spaced b'&') t o.tight g)
        no_paren
        (rw
          (
            no_not,
            str_contains-middle s (spaced b'&') t,
            find_operator-first b'&' 0 none s t refl refl refl o.apart_and,
            parse_logical_expression,
          )
          (binary-gives (λ x y. x && y) b'&' s t a b o.tight g m n))

  pub operator_at-none : (c : ℕ) (e : Str) → all_bytes (apart c) e ≡ true → operator_at c e ≡ none
  unfolding operator_at
  operator_at-none c e h = ground (arith, find_operator-none c 0 none e h)

  pub or-Means :
      (s t : Str) (a b : Bool)
      → IsClause s
      → IsOpening t
      → Means s a
      → Means t b
      → Means (s ++ (spaced b'|' ++ t)) (a || b)
  unfolding operator_at parse_logical_expression
  or-Means s t a b c o m n =
      let whole = IsOpening-or s t c o in
      let (no_not, no_paren) = opening-prefix s (spaced b'|' ++ t) (IsClause-IsOpening s c) in
      let apart_or = all_bytes-weaken clause_byte (apart b'|') (λ x h. ground arith) s c.plain in
      logical-Means (s ++ (spaced b'|' ++ t)) (a || b) whole.tight no_paren (
        rw
          (
            no_not,
            operator_at-none b'&' (s ++ (spaced b'|' ++ t)) whole.apart_and,
            str_contains-middle s (spaced b'|') t,
            find_operator-first b'|' 0 none s t refl refl refl apart_or,
            parse_logical_expression,
          )
          (binary-gives (λ x y. x || y) b'|' s t a b c.tight o.tight m n))
