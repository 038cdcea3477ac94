-- ===== src/Expression/Lookups.antt =====
-- What a name stands for in the context that a condition is evaluated in.
use buildfab.Base.{
  Str, true, not, [], ◌∷◌, ◌++◌, drop, Option, none, some, ◌≡◌, refl, arith, codes, str_eq,
  str_eq_iff, if◌then◌else◌, unique, contains, first_of, Option-cases, Bool-cases, inl, inr, ◌||◌,
  ap, ◌∙◌,
}
use buildfab.Base.Dict
use buildfab.Base.Dict.{Dict, keys, lookup-insert, contains-keys}
use buildfab.Base.Strings.{has_prefix}
use buildfab.Base.Attempts.{Attempt, gives, errors}
use buildfab.Expression.{Host, format_bool}
use buildfab.Expression.Context.{
  copy_into, found_or, platform_variables_map, new_expression_context, resolve_variable,
  resolve_prefixed, get_git_branch,
}

-- Of a copied map whose keys are all different, every entry is found, and behind them those of
-- the map that they are copied into.
lookup-copy_into :
    (k : Str) (from into : Dict Str)
    → unique (keys from) ≡ true
    → Dict.lookup k (copy_into from into) ≡ first_of (Dict.lookup k from) (Dict.lookup k into)
unfolding copy_into Dict.lookup keys unique
lookup-copy_into k [] into h = refl
lookup-copy_into k ((j, v) ∷ from) into h = ground (
  arith,
  lookup-copy_into k from (Dict.insert j v into),
  lookup-insert j k v into,
  contains-keys from k,
  str_eq_iff j k,
)

first_of-none : {A : Type 0} (o : Option A) → first_of o none ≡ o
first_of-none none = refl
first_of-none (some a) = refl

module _ (h : Host) where
  -- A variable of the user, or else one of the platform.
  unfoldable pub variable : Dict Str → Str → Option Str
  variable variables name =
      first_of (Dict.lookup name variables)
        (Dict.lookup name (platform_variables_map h.platform_info))

  -- What a name is to stand for.
  unfoldable pub meaning : Dict Str → Str → Attempt Str
  unfolding variable
  meaning variables name =
      if str_eq name (codes "ci")
      then gives (format_bool (not (str_eq (h.getenv (codes "CI")) [])))
      else if str_eq name (codes "branch")
      then gives (codes "main")
      else if has_prefix name (codes "env.")
      then gives (h.getenv (drop 4 name))
      else if has_prefix name (codes "inputs.")
      then errors (codes "undefined input: " ++ drop 7 name)
      else if has_prefix name (codes "matrix.")
      then errors (codes "undefined matrix key: " ++ drop 7 name)
      else found_or (variable variables name) (errors (codes "undefined variable: " ++ name))

  platform-unique : unique (keys (platform_variables_map h.platform_info)) ≡ true
  unfolding unique contains keys platform_variables_map str_eq
  platform-unique = refl

  lookup-new_expression_context :
      (variables : Dict Str) (name : Str)
      → unique (keys variables) ≡ true
      → Dict.lookup name (new_expression_context h variables).variables ≡ variable variables name
  unfolding new_expression_context variable Dict.lookup
  lookup-new_expression_context variables name different =
      let base = copy_into (platform_variables_map h.platform_info) [] in
      let inner =
        lookup-copy_into name (platform_variables_map h.platform_info) [] platform-unique in
      lookup-copy_into name variables base different
      ∙ ap (first_of (Dict.lookup name variables))
          (inner ∙ first_of-none (Dict.lookup name (platform_variables_map h.platform_info)))

  -- A name that the platform has a value for always stands for something.
  found_or-variable :
      (variables : Dict Str) (name value : Str) (next : Attempt Str)
      → Dict.lookup name (platform_variables_map h.platform_info) ≡ some value
      → found_or (variable variables name) (gives value) ≡ found_or (variable variables name) next
  unfolding found_or variable
  found_or-variable variables name value next is =
      elim (Option-cases (Dict.lookup name variables)) [
        | inl absent ↦ rw (absent, is) refl
        | inr (v, found) ↦ rw found refl
      ]

  resolve_variable-platform :
      (variables : Dict Str) (name : Str)
      → unique (keys variables) ≡ true
      → (str_eq name (codes "os") || str_eq name (codes "arch")) ≡ true
      → resolve_variable h (new_expression_context h variables) name ≡ meaning variables name
  unfolding resolve_variable meaning Dict.lookup platform_variables_map str_eq has_prefix
  resolve_variable-platform variables name different one =
      elim (Bool-cases (str_eq name (codes "os"))) [
        | inl os ↦ rw ((str_eq_iff name (codes "os")).0 os) (
            ap (λ o. found_or o (gives h.platform_info.os))
              (lookup-new_expression_context variables (codes "os") different)
            ∙ found_or-variable variables (codes "os") h.platform_info.os _ refl)
        | inr other ↦ rw ((str_eq_iff name (codes "arch")).0 (ground arith)) (
            ap (λ o. found_or o (gives h.platform_info.arch))
              (lookup-new_expression_context variables (codes "arch") different)
            ∙ found_or-variable variables (codes "arch") h.platform_info.arch _ refl)
      ]

  -- In the context made of user variables with different names, `ci` and `branch` stand for what the
  -- environment and the fixed branch tell, names behind `env.`, `inputs.` and `matrix.` for the
  -- environment variable or an error, and any other name for the variable of the user, or else of
  -- the platform, or else an error.
  pub resolve_variable-new_expression_context :
      (variables : Dict Str) (name : Str)
      → unique (keys variables) ≡ true
      → resolve_variable h (new_expression_context h variables) name ≡ meaning variables name
  unfolding resolve_variable resolve_prefixed meaning new_expression_context found_or Dict.lookup
      get_git_branch
  resolve_variable-new_expression_context variables name different =
      elim (Bool-cases (str_eq name (codes "os") || str_eq name (codes "arch"))) [
        | inl one ↦ resolve_variable-platform variables name different one
        | inr other ↦ ground (arith, lookup-new_expression_context variables name different)
      ]
