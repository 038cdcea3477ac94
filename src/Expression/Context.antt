-- ===== src/Expression/Context.antt =====
-- The context of an evaluation: `ExpressionContext`, `NewExpressionContext` and `resolveVariable` of
-- pkg/buildfab/expression.go, and the platform variables of pkg/buildfab/platform.go.
use buildfab.Base.{
  Str, Bool, not, [], ◌∷◌, ◌++◌, drop, Option, none, some, codes, str_eq, if◌then◌else◌,
}
use buildfab.Base.Dict
use buildfab.Base.Dict.{Dict}
use buildfab.Base.Strings.{has_prefix}
use buildfab.Base.Attempts.{Attempt, gives, errors}
use buildfab.Expression.{Host, PlatformInfo, format_bool}

pub record ExpressionContext : Type 0 where
  pub variables : Dict Str
  pub inputs : Dict Str
  pub matrix : Dict Str
  pub ci : Bool
  pub branch : Str

unfoldable pub platform_variables_map : PlatformInfo → Dict Str
platform_variables_map info =
    (codes "platform", info.platform)
    ∷ (codes "arch", info.arch)
    ∷ (codes "os", info.os)
    ∷ (codes "os_version", info.os_version)
    ∷ (codes "cpu", info.num_cpu)
    ∷ []

-- `for k, v := range from { into[k] = v }`, over the entries in the order of the range.
unfoldable pub copy_into : Dict Str → Dict Str → Dict Str
copy_into [] into = into
copy_into ((k, v) ∷ from) into = copy_into from (Dict.insert k v into)

unfoldable pub get_git_branch : Str
get_git_branch = codes "main"

unfoldable pub found_or : Option Str → Attempt Str → Attempt Str
found_or (some value) next = gives value
found_or none next = next

module _ (h : Host) where
  -- `AddPlatformVariables`; a nil map is an empty one.
  unfoldable pub add_platform_variables : Dict Str → Dict Str
  unfolding copy_into platform_variables_map
  add_platform_variables variables = copy_into (platform_variables_map h.platform_info) variables

  unfoldable pub new_expression_context : Dict Str → ExpressionContext
  unfolding copy_into platform_variables_map get_git_branch
  new_expression_context variables = record {
    variables = copy_into variables (copy_into (platform_variables_map h.platform_info) []);
    inputs = [];
    matrix = [];
    ci = not (str_eq (h.getenv (codes "CI")) []);
    branch = get_git_branch;
  }

  -- The lookups behind the special names.
  unfoldable pub resolve_prefixed : ExpressionContext → Str → Attempt Str
  unfolding found_or
  resolve_prefixed ctx name =
      if has_prefix name (codes "env.")
      then gives (h.getenv (drop 4 name))
      else if has_prefix name (codes "inputs.")
      then found_or (Dict.lookup (drop 7 name) ctx.inputs)
          (errors (codes "undefined input: " ++ drop 7 name))
      else if has_prefix name (codes "matrix.")
      then found_or (Dict.lookup (drop 7 name) ctx.matrix)
          (errors (codes "undefined matrix key: " ++ drop 7 name))
      else found_or (Dict.lookup name ctx.variables) (errors (codes "undefined variable: " ++ name))

  unfoldable pub resolve_variable : ExpressionContext → Str → Attempt Str
  unfolding found_or resolve_prefixed
  resolve_variable ctx name =
      if str_eq name (codes "os")
      then found_or (Dict.lookup (codes "os") ctx.variables) (gives h.platform_info.os)
      else if str_eq name (codes "arch")
      then found_or (Dict.lookup (codes "arch") ctx.variables) (gives h.platform_info.arch)
      else if str_eq name (codes "ci")
      then gives (format_bool ctx.ci)
      else if str_eq name (codes "branch")
      then gives ctx.branch
      else resolve_prefixed ctx name
