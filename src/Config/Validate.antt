-- ===== src/Config/Validate.antt =====
-- `Validate` of pkg/buildfab/buildfab.go. An error keeps the data that its text is made of, its
-- constructor stands for the text.
use buildfab.Base.{
  ℕ, suc, Str, codes, Bool, not, ◌&&◌, List, [], ◌∷◌, Option, none, some, str_eq, contains,
  first_of, refuse,
}
use buildfab.Base.Dict.{Dict}
use buildfab.Config.{ActionVariant, Action, Step, Stage, Config}

pub data ConfigError : Type 0 where
  project_name_required : ConfigError
  action_required : ConfigError
  action_name_required : ConfigError
  variant_without_when : Str → ℕ → ConfigError
  variant_without_run : Str → ℕ → ConfigError
  variant_with_both : Str → ℕ → ConfigError
  action_without_run : Str → ConfigError
  action_with_both : Str → ConfigError
  duplicate_action : Str → ConfigError
  empty_stage : Str → ConfigError
  step_without_action : ℕ → Str → ConfigError
  unknown_action : ℕ → Str → Str → ConfigError
  invalid_on_error : ℕ → Str → Str → ConfigError
  invalid_only : ℕ → Str → Str → ConfigError

abbrev pub is_empty : Str → Bool
is_empty s = str_eq s []

unfoldable pub validate_variant : Str → ℕ → ActionVariant → Option ConfigError
validate_variant name i v = first_of (refuse (is_empty v.when) (variant_without_when name i)) (
    first_of (refuse (is_empty v.run && is_empty v.uses) (variant_without_run name i))
      (refuse (not (is_empty v.run) && not (is_empty v.uses)) (variant_with_both name i)))

-- The loop over the variants from index `i` on.
unfoldable pub validate_variants : Str → ℕ → List ActionVariant → Option ConfigError
validate_variants name i [] = none
validate_variants name i (v ∷ vs) =
    first_of (validate_variant name i v) (validate_variants name (suc i) vs)

unfoldable pub validate_command : Action → List ActionVariant → Option ConfigError
validate_command a [] =
    first_of (refuse (is_empty a.run && is_empty a.uses) (action_without_run a.name))
      (refuse (not (is_empty a.run) && not (is_empty a.uses)) (action_with_both a.name))
validate_command a (v ∷ vs) = validate_variants a.name 0 (v ∷ vs)

-- The loop over the actions; `names` are the keys of `actionNames`.
unfoldable pub validate_actions : List Str → List Action → Option ConfigError
validate_actions names [] = none
validate_actions names (a ∷ actions) = first_of (refuse (is_empty a.name) action_name_required) (
    first_of (validate_command a a.variants) (
      first_of (refuse (contains names a.name) (duplicate_action a.name))
        (validate_actions (a.name ∷ names) actions)))

abbrev pub only_values : List Str
only_values =
    codes "release" ∷ codes "prerelease" ∷ codes "patch" ∷ codes "minor" ∷ codes "major" ∷ []

abbrev pub differs : Str → Str → Bool
differs a b = not (str_eq a b)

-- `only` is none of the values.
unfoldable pub is_bad_only : Str → Bool
is_bad_only o =
    differs o (codes "release")
    && (differs o (codes "prerelease")
        && (differs o (codes "patch") && (differs o (codes "minor") && differs o (codes "major"))))

unfoldable pub validate_only : ℕ → Str → List Str → Option ConfigError
validate_only i stage [] = none
validate_only i stage (o ∷ only) =
    first_of (refuse (is_bad_only o) (invalid_only i stage o)) (validate_only i stage only)

unfoldable pub is_bad_on_error : Str → Bool
is_bad_on_error e = differs e [] && (differs e (codes "stop") && differs e (codes "warn"))

unfoldable pub validate_step : List Str → Str → ℕ → Step → Option ConfigError
validate_step names stage i s =
    first_of (refuse (is_empty s.action) (step_without_action i stage)) (
      first_of (refuse (not (contains names s.action)) (unknown_action i stage s.action)) (
        first_of (refuse (is_bad_on_error s.on_error) (invalid_on_error i stage s.on_error))
          (validate_only i stage s.only)))

-- The loop over the steps, of which the next is the `i`-th, counted from one.
unfoldable pub validate_steps : List Str → Str → ℕ → List Step → Option ConfigError
validate_steps names stage i [] = none
validate_steps names stage i (s ∷ steps) =
    first_of (validate_step names stage i s) (validate_steps names stage (suc i) steps)

unfoldable pub validate_stage : List Str → Str → List Step → Option ConfigError
validate_stage names stage [] = some (empty_stage stage)
validate_stage names stage (s ∷ steps) = validate_steps names stage 1 (s ∷ steps)

unfoldable pub validate_stages : List Str → Dict Stage → Option ConfigError
validate_stages names [] = none
validate_stages names ((name, stage) ∷ stages) =
    first_of (validate_stage names name stage.steps) (validate_stages names stages)

unfoldable pub validate_any : List Action → Option ConfigError
validate_any [] = some action_required
validate_any (_ ∷ _) = none

-- The keys of `actionNames` behind the loop over the actions.
abbrev pub names_after : List Str → List Action → List Str
names_after names [] = names
names_after names (a ∷ actions) = names_after (a.name ∷ names) actions

-- `range` is the order in which the map of the stages is ranged over.
unfoldable pub validate : (Dict Stage → Dict Stage) → Config → Option ConfigError
validate range c = first_of (refuse (is_empty c.project_name) project_name_required) (
    first_of (validate_any c.actions) (
      first_of (validate_actions [] c.actions)
        (validate_stages (names_after [] c.actions) (range c.stages))))
