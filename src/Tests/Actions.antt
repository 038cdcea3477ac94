-- ===== src/Tests/Actions.antt =====
-- The internal registry of actions, and a step whose variables are replaced.
use buildfab.Base.{codes, [], ◌∷◌, some, ◌≡◌, refl, str_eq}
use buildfab.Base.Dict
use buildfab.Base.Strings.{split, trim_space}
use buildfab.Config.{Step}
use buildfab.Output.Status.{warn}
use buildfab.Runner.{Runner, interpolate_variables, interpolate_name}
use buildfab.Runner.Interpolated.{interpolate_step, interpolate_text, interpolate_require}
use buildfab.Actions.{default_registry, any_line, lines_of, is_uncommitted, has_code}
use buildfab.Actions.Internal.{warn_uncommitted, new_registry, list_actions}
use buildfab.Actions.Softer.{AllAlike, new_registry-AllAlike}
use buildfab.Tests.Runner.{desk, machine}

-- Where the default registry fails, this one warns.
warn_uncommitted-desk : (warn_uncommitted desk).0.status ≡ warn
unfolding warn_uncommitted lines_of any_line is_uncommitted has_code split trim_space str_eq
warn_uncommitted-desk = refl

new_registry-AllAlike_example :
    (list_actions (new_registry desk) ≡ list_actions (default_registry desk))
    × AllAlike (new_registry desk) (default_registry desk)
new_registry-AllAlike_example = new_registry-AllAlike desk

-- A runner for which every text is one reference.
abbrev replacing : Runner
replacing = record machine {
  variables = some ((codes "dep", codes "lint") ∷ []);
  trim = λ s. s;
  replace_all = λ f t. f t t;
}

abbrev building : Step
building = record {
  action = codes "build";
  require = codes "dep" ∷ [];
  on_error = [];
  if_condition = [];
  only = [];
}

-- The required steps of the step that is passed are overwritten.
interpolate_step-callers_require :
    (interpolate_step replacing building).callers_require ≡ codes "lint" ∷ []
unfolding interpolate_step interpolate_require interpolate_text interpolate_variables
    interpolate_name Dict.lookup str_eq
interpolate_step-callers_require = refl
