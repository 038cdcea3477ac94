-- ===== src/Runner/Interpolated.antt =====
-- `InterpolateStep` of pkg/buildfab/variables.go. The slice of the required steps is the caller's: the
-- loop writes to its elements in place. `InterpolateVariables` never returns an error, and the
-- branches for one are left out.
use buildfab.Base.{Str, List, [], ◌∷◌, str_eq, if◌then◌else◌}
use buildfab.Config.{Step}
use buildfab.Runner.{Runner, interpolate_variables}

-- The step that is returned, and the required steps that the caller's step has afterwards.
pub record Interpolated : Type 0 where
  pub step : Step
  pub callers_require : List Str

module _ (r : Runner) where
  -- `InterpolateVariables` with the variables of the runner.
  unfoldable pub interpolate_text : Str → Str
  interpolate_text text = interpolate_variables r.replace_all r.trim r.variables text

  -- The loop over the required steps.
  unfoldable pub interpolate_require : List Str → List Str
  unfolding interpolate_text
  interpolate_require [] = []
  interpolate_require (req ∷ reqs) = interpolate_text req ∷ interpolate_require reqs

  unfoldable pub interpolate_step : Step → Interpolated
  unfolding interpolate_text interpolate_require
  interpolate_step step =
      let require = interpolate_require step.require in
      record {
        step = record step {
          action = interpolate_text step.action;
          require = require;
          if_condition =
              if str_eq step.if_condition []
              then step.if_condition
              else interpolate_text step.if_condition;
        };
        callers_require = require;
      }
