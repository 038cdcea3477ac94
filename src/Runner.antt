-- ===== src/Runner.antt =====
-- How pkg/buildfab/buildfab.go executes one action: the choice of a variant, the built-in or custom
-- command, the result, and the calls made on the step callback, in their order. A step callback is
-- installed. What the program writes to `Output` itself is left out.
pub mod Shell
pub mod Runs
pub mod Reports
pub mod Direct
pub mod Interpolated
pub mod DryRun
pub mod Agreement
pub mod Verdict
use buildfab.Base.{
  ℕ, Str, Bool, true, false, not, ◌&&◌, List, [], ◌∷◌, ◌++◌, map, Option, none, some, codes, str_eq,
  if◌then◌else◌, Fallible, returns, fails, bind, is_some,
}
use buildfab.Base.Dict
use buildfab.Base.Dict.{Dict}
use buildfab.Config.{ActionVariant, Action, Step, Stage, Config, get_action, get_stage}
use buildfab.Output.Status.{StepStatus, ok, warn, error, skipped, status_eq}
use buildfab.Output.Calls.{Call, step_start, step_complete, step_output, step_error}
use buildfab.Executor.{Result}
use buildfab.Runner.Shell.{get_shell_command, ShellCommand}

-- An `ActionRunner`: what `Run` returns, the result and the error, and `Description`.
pub record ActionRunner : Type 0 where
  pub run : Result × Option Str
  pub description : Str

-- What a runner is given and what lies outside the program. `evaluate` stands for the evaluation of
-- a condition over the variables, `replace_all` for the regular expression `${{ name }}`: it
-- replaces every match by what a function makes of the match and of its name. `look_path` tells
-- whether a program is found, and `run_command` runs one: the lines of its output that are read before
-- the call returns, those that are read before the step is reported as completed, those that are read
-- later, and its error.
pub record Runner : Type 0 where
  pub config : Config
  pub verbose : Bool
  pub dry_run : Bool
  pub variables : Option (Dict Str)
  pub registry : Option (Dict ActionRunner)
  pub goos : Str
  pub look_path : Str → Bool
  pub evaluate : Str → Fallible Bool
  pub trim : Str → Str
  pub replace_all : (Str → Str → Str) → Str → Str
  pub run_command : ShellCommand → Str → List Str × List Str × List Str × Option Str
  pub elapsed : ℕ

-- The action's calls on the callback, its result and its error; and the calls that the readers of its
-- output make when it has returned, since nothing waits for them: those before the completion of the
-- step, and those after it.
pub record Outcome : Type 0 where
  pub calls : List Call
  pub between : List Call
  pub late : List Call
  pub result : Result
  pub error : Option Str

abbrev quoted : Str → Str
quoted s = codes "'" ++ (s ++ codes "'")

-- `SelectVariant`, over the variants that are left of its loop.
unfoldable pub select_from :
    (Str → Fallible Bool) → Str → List ActionVariant → Fallible (Option ActionVariant)
select_from evaluate name [] = returns none
select_from evaluate name (v ∷ vs) = elim (evaluate v.when) [
  | fails e ↦ fails (
      codes "failed to evaluate condition "
      ++ (quoted v.when ++ (codes " for action " ++ (name ++ (codes ": " ++ e)))))
  | returns true ↦ returns (some v)
  | returns false ↦ select_from evaluate name vs
]

abbrev pub select_variant : (Str → Fallible Bool) → Action → Fallible (Option ActionVariant)
select_variant evaluate action = select_from evaluate action.name action.variants

-- What a selection leads to: the action to execute, or none where no variant matched.
unfoldable pub effective : Action → Option ActionVariant → Option Action
effective action (some v) =
    some (record { name = action.name; run = v.run; uses = v.uses; shell = v.shell; variants = [] })
effective action none = elim action.variants [ [] ↦ some action | _ ∷ _ ↦ none ]

unfoldable pub interpolate_name : Dict Str → (Str → Str) → Str → Str → Str
interpolate_name variables trim whole name = elim (Dict.lookup (trim name) variables) [
  | some value ↦ value
  | none ↦ whole
]

unfoldable pub interpolate_variables :
    ((Str → Str → Str) → Str → Str) → (Str → Str) → Option (Dict Str) → Str → Str
unfolding interpolate_name
interpolate_variables replace_all trim none text = text
interpolate_variables replace_all trim (some variables) text =
    replace_all (interpolate_name variables trim) text

abbrev blank : Str → StepStatus → Str → Result
blank name status message = record {
  name = name;
  status = status;
  message = message;
  error = none;
  duration = 0;
}

module _ (r : Runner) where
  unfoldable pub interpolate_action : Action → Action
  interpolate_action action =
      if str_eq action.run []
      then action
      else record action { run = interpolate_variables r.replace_all r.trim r.variables action.run }

  unfoldable pub get_runner : Str → Fallible ActionRunner
  get_runner uses = elim r.registry [
    | none ↦
        fails (
          codes "built-in action " ++ (uses ++ codes " not supported: no action registry provided"))
    | some registry ↦ elim (Dict.lookup uses registry) [
      | none ↦ fails (codes "unknown built-in action: " ++ uses)
      | some runner ↦ returns runner
    ]
  ]

  -- Some calls before the last one of others.
  unfoldable pub amid : List Call → List Call → List Call
  amid between [] = between
  amid between (c ∷ []) = between ++ c ∷ []
  amid between (c ∷ d ∷ cs) = c ∷ amid between (d ∷ cs)

  abbrev pub outputs : Str → List Str → List Call
  outputs name lines = map (step_output name) lines

  unfoldable pub run_built_in_action_for_dag : Action → Outcome
  run_built_in_action_for_dag action = elim (get_runner action.uses) [
    | fails e ↦ record {
      calls = [];
      between = [];
      late = [];
      result = blank [] error e;
      error = some e;
    }
    | returns runner ↦
        let (result, err) = runner.run in
        record {
          between = [];
          late = [];
          calls =
              if r.verbose && not (str_eq result.message [])
              then step_output action.name result.message ∷ []
              else [];
          result = result;
          error =
              if status_eq result.status error
              then some (codes "built-in action failed: " ++ result.message)
              else err;
        }
  ]

  -- Behind the command, with its output lines, the late ones, and its error.
  unfoldable pub after_command : Action → List Str × List Str × List Str × Option Str → Outcome
  after_command action (lines, middle, later, none) = record {
    between = if r.verbose then outputs action.name middle else [];
    late = if r.verbose then outputs action.name later else [];
    calls = if r.verbose then outputs action.name lines else [];
    result = blank [] ok (codes "command executed successfully");
    error = none;
  }
  after_command action (lines, middle, later, some e) = record {
    between = if r.verbose then outputs action.name middle else [];
    late = if r.verbose then outputs action.name later else [];
    calls = if r.verbose then outputs action.name lines else [];
    result = blank [] error (codes "failed, to check run:\n  " ++ action.run);
    error = some (codes "command failed: " ++ e);
  }

  unfoldable pub run_custom_action_for_dag : Action → Outcome
  run_custom_action_for_dag action =
      if str_eq action.run []
      then record {
        between = [];
        late = [];
        calls = [];
        result = blank [] error (codes "no run command specified");
        error = some (codes "action " ++ (action.name ++ codes " has no run command"));
      }
      else elim (get_shell_command r.goos r.look_path action.shell) [
        | fails e ↦ record {
          between = [];
          late = [];
          calls = [];
          result = blank action.name error (codes "shell configuration error: " ++ e);
          error = some (codes "shell configuration error: " ++ e);
        }
        | returns shell ↦ after_command action (r.run_command shell (interpolate_action action).run)
      ]

  unfoldable pub run_effective : Action → Outcome
  run_effective action =
      if not (str_eq action.uses [])
      then run_built_in_action_for_dag action
      else run_custom_action_for_dag action

  abbrev pub tolerates : Option Step → Bool
  tolerates none = false
  tolerates (some step) = str_eq step.on_error (codes "warn")

  -- The duration is set, and `onerror: warn` turns an error into a warning.
  unfoldable pub apply_policy : Option Step → Outcome → Outcome
  apply_policy step o =
      let result = record o.result { duration = r.elapsed } in
      if status_eq result.status error && tolerates step
      then record o { result = record result { status = warn }; error = none }
      else record o { result = result }

  -- The calls that report a result and an error.
  unfoldable pub report : Str → Result → Option Str → List Call
  report name result err =
      if status_eq result.status error
      then errors err ++ step_complete name error result.message r.elapsed ∷ []
      else if status_eq result.status warn
      then step_complete name warn result.message r.elapsed ∷ []
      else if status_eq result.status skipped
      then step_complete name skipped result.message r.elapsed ∷ []
      else plain err
    where
      errors : Option Str → List Call
      errors none = []
      errors (some e) = step_error name e ∷ []

      plain : Option Str → List Call
      plain none = step_complete name ok (codes "executed successfully") r.elapsed ∷ []
      plain (some e) = step_error name e ∷ step_complete name error e r.elapsed ∷ []

  -- The calls of the readers that are late come between the report's or behind them.
  abbrev pub reported : Str → Outcome → Outcome
  reported name o = record o {
    calls =
        step_start name ∷ (o.calls ++ (amid o.between (report name o.result o.error) ++ o.late));
    between = [];
    late = [];
  }

  -- `executeActionForDAGWithCallback`
  unfoldable pub execute_action : Action → Option Step → Outcome
  execute_action action step = elim (select_variant r.evaluate action) [
    | fails e ↦ record {
      between = [];
      late = [];
      calls = step_start action.name ∷ step_complete action.name error e r.elapsed ∷ [];
      result = record (blank [] error e) { error = some e; duration = r.elapsed };
      error = some e;
    }
    | returns variant ↦ elim (effective action variant) [
      | none ↦ record {
        between = [];
        late = [];
        calls =
            step_start action.name
            ∷ step_complete action.name skipped (codes "no matching variant") r.elapsed
            ∷ [];
        result = record (blank [] skipped (codes "no matching variant")) { duration = r.elapsed };
        error = none;
      }
      | some chosen ↦ reported action.name (apply_policy step (run_effective chosen))
    ]
  ]
