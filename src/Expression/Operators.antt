-- ===== src/Expression/Operators.antt =====
-- Where the search for an operator finds it: at its first place, in text without parentheses.
use buildfab.Base.{
  ℕ, suc, Str, Bool, true, false, not, ◌&&◌, [], ◌∷◌, ◌++◌, length, Option, none, some, ◌≡◌, refl,
  ap, ◌∙◌, arith, ◌==◌,
}
use buildfab.Base.Strings.{has_prefix, str_contains}
use buildfab.Base.Bytes.{all_bytes}
use buildfab.Expression.Parse.{operator_here, moved, find_operator}

-- Neither a parenthesis nor the byte of the operator.
abbrev pub apart : ℕ → ℕ → Bool
apart c x = not (x == b'(') && (not (x == b')') && not (x == c))

-- The operator with its spaces.
abbrev pub spaced : ℕ → Str
spaced c = 32 ∷ c ∷ c ∷ 32 ∷ []

operator_here-apart :
    (c x : ℕ) (prev : Option ℕ) (xs : Str)
    → (x == c) ≡ false
    → operator_here c prev (x ∷ xs) ≡ false
unfolding operator_here
operator_here-apart c x none xs h = refl
operator_here-apart c x (some p) [] h = refl
operator_here-apart c x (some p) (y ∷ []) h = refl
operator_here-apart c x (some p) (y ∷ z ∷ rest) h = ground arith

find_operator-pass :
    (c n : ℕ) (prev : Option ℕ) (x : ℕ) (xs : Str)
    → apart c x ≡ true
    → find_operator c n n prev (x ∷ xs) ≡ moved (find_operator c n n (some x) xs)
unfolding find_operator
find_operator-pass c n prev x xs h =
    let a : (x == b'(') ≡ false = ground arith in
    let b : (x == b')') ≡ false = ground arith in
    let d : (x == c) ≡ false = ground arith in
    let e : (n == n && operator_here c prev (x ∷ xs)) ≡ false =
      ground (arith, operator_here-apart c x prev xs d) in
    rw (a, b, e, find_operator) refl

pub find_operator-none :
    (c n : ℕ) (prev : Option ℕ) (s : Str)
    → all_bytes (apart c) s ≡ true
    → find_operator c n n prev s ≡ none
unfolding all_bytes find_operator moved
find_operator-none c n prev [] h = refl
find_operator-none c n prev (x ∷ xs) h =
    find_operator-pass c n prev x xs (ground arith)
    ∙ ap moved (find_operator-none c n (some x) xs (ground arith))

find_operator-here :
    (c n : ℕ) (t : Str)
    → (c == b'(') ≡ false
    → (c == b')') ≡ false
    → find_operator c n n (some 32) (c ∷ c ∷ 32 ∷ t) ≡ some 0
unfolding find_operator operator_here
find_operator-here c n t o p =
    let e : (n == n && (c == c && c == c && 32 == 32 && 32 == 32)) ≡ true = ground arith in
    rw (o, p, e, find_operator) refl

pub find_operator-first :
    (c n : ℕ) (prev : Option ℕ) (s t : Str)
    → apart c 32 ≡ true
    → (c == b'(') ≡ false
    → (c == b')') ≡ false
    → all_bytes (apart c) s ≡ true
    → find_operator c n n prev (s ++ (spaced c ++ t)) ≡ some (suc (length s))
unfolding all_bytes moved
find_operator-first c n prev [] t space o p h =
    find_operator-pass c n prev 32 (c ∷ c ∷ 32 ∷ t) space ∙ ap moved found
  where
    found : find_operator c n n (some 32) (c ∷ c ∷ 32 ∷ t) ≡ some 0
    found = find_operator-here c n t o p
find_operator-first c n prev (x ∷ xs) t space o p h =
    find_operator-pass c n prev x (xs ++ (spaced c ++ t)) (ground arith)
    ∙ ap moved (find_operator-first c n (some x) xs t space o p (ground arith))

has_prefix-append : (s t : Str) → has_prefix (s ++ t) s ≡ true
unfolding has_prefix
has_prefix-append [] t = refl
has_prefix-append (x ∷ xs) t = ground (arith, has_prefix-append xs t)

str_contains-front : (m t : Str) → str_contains (m ++ t) m ≡ true
unfolding str_contains has_prefix
str_contains-front [] [] = refl
str_contains-front [] (x ∷ t) = refl
str_contains-front (x ∷ m) t = ground (arith, has_prefix-append (x ∷ m) t)

pub str_contains-middle : (s m t : Str) → str_contains (s ++ (m ++ t)) m ≡ true
unfolding str_contains
str_contains-middle [] m t = str_contains-front m t
str_contains-middle (x ∷ xs) m t = ground (arith, str_contains-middle xs m t)
