-- ===== src/Expression/Functions.antt =====
-- The functions that a condition can call: `callFunction` of pkg/buildfab/expression.go, and the same
-- switch in its `parseFunctionCall`.
use buildfab.Base.{
  Str, not, List, [], ◌∷◌, ◌++◌, length, codes, str_eq, if◌then◌else◌, Fallible, returns, fails,
}
use buildfab.Base.Strings.{str_contains, has_prefix, has_suffix, itoa}
use buildfab.Base.Attempts.{Attempt, gives, errors, and_then}
use buildfab.Expression.{Host, ExpressionResult, int_value, number_kind, of_bool, to_string}

-- The error of `len(args) != n`.
unfoldable pub expects : {A B : Type 0} → Str → Str → List A → Attempt B
expects name wanted args =
    errors (name ++ (codes "() expects " ++ (wanted ++ (codes ", got " ++ itoa (length args)))))

-- `if err != nil`: the error behind a text, or the value.
unfoldable pub checked : {A : Type 0} → Str → Fallible A → Attempt A
checked text (returns a) = gives a
checked text (fails e) = errors (text ++ e)

module _ (h : Host) where
  unfoldable pub with_one :
      Str
      → List (ExpressionResult h.Float)
      → (Str → Attempt (ExpressionResult h.Float))
      → Attempt (ExpressionResult h.Float)
  unfolding expects
  with_one name (a ∷ []) f = f (to_string h a)
  with_one name args f = expects name (codes "1 argument") args

  unfoldable pub with_two :
      Str
      → List (ExpressionResult h.Float)
      → (Str → Str → Attempt (ExpressionResult h.Float))
      → Attempt (ExpressionResult h.Float)
  unfolding expects
  with_two name (a ∷ b ∷ []) f = f (to_string h a) (to_string h b)
  with_two name args f = expects name (codes "2 arguments") args

  unfoldable pub matches : Str → Str → Attempt (ExpressionResult h.Float)
  unfolding checked and_then
  matches s pattern =
      and_then (checked (codes "invalid regex in matches(): ") (h.compile pattern))
        (λ test. gives (of_bool (test s)))

  unfoldable pub semver_compare : Str → Str → Attempt (ExpressionResult h.Float)
  unfolding checked and_then
  semver_compare version1 version2 =
      and_then (checked (codes "invalid version 1: ") (h.parse_version version1)) (λ v1.
        and_then (checked (codes "invalid version 2: ") (h.parse_version version2)) (λ v2.
          gives (record { value = int_value (h.compare_versions v1 v2); kind = number_kind })))

  unfoldable pub call_function :
      Str → List (ExpressionResult h.Float) → Attempt (ExpressionResult h.Float)
  unfolding with_one with_two matches semver_compare
  call_function name args =
      if str_eq name (codes "contains")
      then with_two name args (λ haystack needle. gives (of_bool (str_contains haystack needle)))
      else if str_eq name (codes "startsWith")
      then with_two name args (λ s p. gives (of_bool (has_prefix s p)))
      else if str_eq name (codes "endsWith")
      then with_two name args (λ s p. gives (of_bool (has_suffix s p)))
      else if str_eq name (codes "matches")
      then with_two name args matches
      else if str_eq name (codes "fileExists")
      then with_one name args (λ path. gives (of_bool (not (h.is_missing path))))
      else if str_eq name (codes "semverCompare")
      then with_two name args semver_compare
      else errors (codes "unknown function: " ++ name)
