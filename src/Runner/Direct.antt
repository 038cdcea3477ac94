-- ===== src/Runner/Direct.antt =====
-- The runs of pkg/buildfab/buildfab.go outside a stage's graph: `runActionInternal`, `RunAction` and
-- `RunStageStep`, with their calls on the callback.
use buildfab.Base.{
  Str, not, ◌&&◌, List, [], ◌∷◌, ◌++◌, Option, none, some, codes, str_eq, if◌then◌else◌, returns,
  fails,
}
use buildfab.Config.{Action, Step, get_action, get_stage}
use buildfab.Output.Status.{ok, error, skipped, status_eq}
use buildfab.Output.Calls.{Call, step_start, step_complete, step_output, step_error}
use buildfab.Executor.{Result}
use buildfab.Runner.Shell.{get_shell_command}
use buildfab.Runner.{
  Runner, select_variant, effective, interpolate_action, get_runner, outputs, amid,
}

-- The calls of a run, those that the readers of its output make when it has returned, and its error.
pub record Run : Type 0 where
  pub calls : List Call
  pub between : List Call
  pub late : List Call
  pub error : Option Str

abbrev pub fail : Str → Run
fail e = record { calls = []; between = []; late = []; error = some e }

abbrev pub no_command : Action → Str
no_command action = codes "action " ++ (action.name ++ codes " has no run command")

abbrev pub bad_shell : Action → Str → Str
bad_shell action e =
    codes "shell configuration error for action " ++ (action.name ++ (codes ": " ++ e))

module _ (r : Runner) where
  unfoldable pub ran_built_in : Action → Result × Option Str → Run
  ran_built_in action (result, some e) = fail e
  ran_built_in action (result, none) = record {
    between = [];
    late = [];
    calls =
        if r.verbose && not (str_eq result.message [])
        then step_output action.name result.message ∷ []
        else [];
    error =
        if status_eq result.status error
        then some (codes "built-in action failed: " ++ result.message)
        else none;
  }

  unfoldable pub run_built_in_action : Action → Run
  run_built_in_action action = elim (get_runner r action.uses) [
    | fails e ↦ fail e
    | returns runner ↦ ran_built_in action runner.run
  ]

  unfoldable pub ran_command : Action → List Str × List Str × List Str × Option Str → Run
  ran_command action (lines, middle, later, err) = record {
    between = if r.verbose then outputs r action.name middle else [];
    late = if r.verbose then outputs r action.name later else [];
    calls = if r.verbose then outputs r action.name lines else [];
    error = elim err [
      | none ↦ none
      | some _ ↦ some (codes "failed, to check run:\n  " ++ action.run)
    ];
  }

  unfoldable pub run_custom_action : Action → Run
  run_custom_action action =
      if str_eq action.run []
      then fail (no_command action)
      else elim (get_shell_command r.goos r.look_path action.shell) [
        | fails e ↦ fail (bad_shell action e)
        | returns shell ↦ ran_command action (r.run_command shell (interpolate_action r action).run)
      ]

  unfoldable pub run_chosen : Action → Option Action → Run
  run_chosen action none = record {
    between = [];
    late = [];
    calls = step_complete action.name skipped (codes "no matching variant") 0 ∷ [];
    error = none;
  }
  run_chosen action (some chosen) =
      if not (str_eq chosen.uses []) then run_built_in_action chosen else run_custom_action chosen

  unfoldable pub run_action_internal : Action → Run
  run_action_internal action = elim (select_variant r.evaluate action) [
    | fails e ↦ fail e
    | returns variant ↦ run_chosen action (effective action variant)
  ]

  -- The calls behind a run: its error, if any, and the completion.
  unfoldable pub completion : Str → Option Str → List Call
  completion name none = step_complete name ok (codes "executed successfully") r.elapsed ∷ []
  completion name (some e) = step_error name e ∷ step_complete name error e r.elapsed ∷ []

  abbrev pub around : Str → Run → Run
  around name run = record run {
    calls =
        step_start name
        ∷ (run.calls ++ (amid r run.between (completion name run.error) ++ run.late));
    between = [];
    late = [];
  }

  unfoldable pub find_step : List Step → Str → Option Step
  find_step [] name = none
  find_step (s ∷ ss) name =
      let rest = find_step ss name in if str_eq s.action name then some s else rest

  unfoldable pub run_step : Str → Str → Option Step → Run
  run_step stage_name step_name none =
      fail (codes "step not found: " ++ (step_name ++ (codes " in stage " ++ stage_name)))
  run_step stage_name step_name (some step) = elim (get_action r.config step.action) [
    | none ↦ fail (codes "action not found: " ++ step.action)
    | some action ↦ around step_name (run_action_internal action)
  ]

  -- `RunStageStep`
  unfoldable pub run_stage_step : Str → Str → Run
  run_stage_step stage_name step_name = elim (get_stage r.config stage_name) [
    | none ↦ fail (codes "stage not found: " ++ stage_name)
    | some stage ↦ run_step stage_name step_name (find_step stage.steps step_name)
  ]
