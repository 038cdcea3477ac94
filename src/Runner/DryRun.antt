-- ===== src/Runner/DryRun.antt =====
-- The dry run of pkg/buildfab/buildfab.go: `runActionInternalDryRun`, `executeStageDryRun`, and
-- `RunAction`, which dispatches between the two kinds of run.
use buildfab.Base.{
  ℕ, suc, Str, Bool, true, false, not, ◌&&◌, ◌||◌, List, [], ◌∷◌, ◌++◌, Option, none, some, codes,
  str_eq, contains, length, ◌==◌, if◌then◌else◌, Fallible, returns, fails,
}
use buildfab.Base.Dict
use buildfab.Config.{Action, Step, get_action}
use buildfab.Output.Status.{ok, error}
use buildfab.Output.Calls.{step_start, step_complete}
use buildfab.Runner.Shell.{get_shell_command}
use buildfab.Runner.{Runner, ActionRunner, select_variant, effective, get_runner, report}
use buildfab.Runner.Direct.{Run, fail, no_command, bad_shell, run_action_internal, around}

-- What a stage's dry run has counted.
pub record Counts : Type 0 where
  pub executed : ℕ
  pub skipped : ℕ

abbrev none_counted : Counts
none_counted = record { executed = 0; skipped = 0 }

module _ (r : Runner) where
  unfoldable pub run_built_in_action_dry_run : Action → Option Str
  run_built_in_action_dry_run action = elim (get_runner r action.uses) [
    | fails e ↦ some e
    | returns runner ↦ none
  ]

  unfoldable pub run_custom_action_dry_run : Action → Option Str
  run_custom_action_dry_run action =
      if str_eq action.run []
      then some (no_command action)
      else elim (get_shell_command r.goos r.look_path action.shell) [
        | fails e ↦ some (bad_shell action e)
        | returns shell ↦ none
      ]

  unfoldable pub chosen_dry_run : Option Action → Option Str
  chosen_dry_run none = none
  chosen_dry_run (some chosen) =
      if not (str_eq chosen.uses [])
      then run_built_in_action_dry_run chosen
      else run_custom_action_dry_run chosen

  unfoldable pub run_action_internal_dry_run : Action → Option Str
  run_action_internal_dry_run action = elim (select_variant r.evaluate action) [
    | fails e ↦ some e
    | returns variant ↦ chosen_dry_run (effective action variant)
  ]

  -- `shouldExecuteStepByCondition`
  unfoldable pub should_execute_step_by_condition : Step → Fallible Bool
  should_execute_step_by_condition step =
      if str_eq step.if_condition [] then returns true else elim (r.evaluate step.if_condition) [
        | returns b ↦ returns b
        | fails e ↦ fails (
            codes "failed to evaluate if condition for step " ++ (step.action ++ (codes ": " ++ e)))
      ]

  -- `shouldExecuteStep`: a condition that cannot be evaluated skips the step.
  unfoldable pub should_execute_step : Step → Bool
  should_execute_step step = elim (should_execute_step_by_condition step) [
    | returns b ↦ b
    | fails e ↦ false
  ]

  -- The two loops over the labels of the filter and of the step.
  unfoldable pub step_matches : List Str → List Str → Bool
  step_matches [] labels = false
  step_matches (label ∷ only) labels = contains labels label || step_matches only labels

  abbrev pub passes_filter : List Str → Step → Bool
  passes_filter only step = length only == 0 || step_matches only step.only

  -- The loop of `executeStageDryRun`.
  unfoldable pub dry_run_steps : List Str → List Step → Counts → Fallible Counts
  dry_run_steps only [] c = returns c
  dry_run_steps only (step ∷ steps) c = elim (should_execute_step_by_condition step) [
    | fails e ↦ fails (codes "failed to evaluate step condition: " ++ e)
    | returns b ↦ dry_run_steps only steps (
        if b && passes_filter only step
        then record c { executed = suc c.executed }
        else record c { skipped = suc c.skipped })
  ]

  unfoldable pub execute_stage_dry_run : List Str → List Step → Fallible Counts
  execute_stage_dry_run only steps = dry_run_steps only steps none_counted

  unfoldable pub run_custom : Str → Option Action → Run
  run_custom name none = fail (codes "action not found: " ++ name)
  run_custom name (some action) =
      if r.dry_run
      then elim (run_action_internal_dry_run action) [
        | none ↦ record {
          between = [];
          late = [];
          calls = step_start name ∷ step_complete name ok (codes "would execute action") 0 ∷ [];
          error = none;
        }
        | some e ↦ record {
          between = [];
          late = [];
          calls = step_start name ∷ step_complete name error e 0 ∷ [];
          error = some e;
        }
      ]
      else around r name (run_action_internal r action)

  -- A built-in action that is run by its own name.
  unfoldable pub run_built_in : Str → ActionRunner → Run
  run_built_in name runner =
      if r.dry_run
      then record {
        between = [];
        late = [];
        calls =
            step_start name
            ∷ step_complete name ok (codes "would execute built-in action: " ++ runner.description)
                0
            ∷ [];
        error = none;
      }
      else let (result, err) = runner.run in
        record {
          calls = step_start name ∷ report r name result err;
          between = [];
          late = [];
          error = err;
        }

  -- `RunAction`. `none` is the call of a method of a nil registry.
  unfoldable pub run_action : Str → Option Run
  run_action name = elim r.registry [
    | none ↦ none
    | some registry ↦ elim (Dict.lookup name registry) [
      | some runner ↦ some (run_built_in name runner)
      | none ↦ some (run_custom name (get_action r.config name))
    ]
  ]
