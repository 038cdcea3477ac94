-- ===== src/Simple.antt =====
-- pkg/buildfab/simple.go and the step callback of pkg/buildfab/ordered_output.go: what a stage leaves
-- behind, in results, skipped steps and the summary. Of a `StepResult` the program sets the name,
-- the status and the duration only.
pub mod Callback
pub mod Skips
pub mod Counted
pub mod Collected
use buildfab.Base.{
  ℕ, suc, ◌+◌, ◌/◌, ◌%◌, Str, Bool, true, false, not, ◌&&◌, ◌||◌, List, [], ◌∷◌, ◌++◌, map, Option,
  none, some, codes, str_eq, contains, is_some, length, ltb, ◌==◌, if◌then◌else◌,
}
use buildfab.Base.Strings.{itoa}
use buildfab.Config.{Step, Stage, Config, get_stage}
use buildfab.Output.Status.{StepStatus, ok, warn, error, skipped, status_eq}
use buildfab.Output.Calls.{Call, step_start, step_complete}
use buildfab.Runner.Direct.{find_step}

pub record StepResult : Type 0 where
  pub step_name : Str
  pub status : StepStatus
  pub duration : ℕ

-- What the calls leave in `OrderedStepCallback.results`.
unfoldable pub collect : List StepResult → Call → List StepResult
collect results (step_complete name status message duration) =
    results ++ record { step_name = name; status = status; duration = duration } ∷ []
collect results _ = results

unfoldable pub collect_all : List StepResult → List Call → List StepResult
unfolding collect
collect_all results [] = results
collect_all results (c ∷ cs) = collect_all (collect results c) cs

-- The keys of `executedSteps`.
unfoldable pub executed_steps : List StepResult → List Str
executed_steps [] = []
executed_steps (r ∷ rs) = r.step_name ∷ executed_steps rs

-- The keys of `failedSteps`.
unfoldable pub failed_steps : List StepResult → List Str
failed_steps [] = []
failed_steps (r ∷ rs) =
    let rest = failed_steps rs in if status_eq r.status error then r.step_name ∷ rest else rest

unfoldable pub requires_failed : List Str → List Str → Bool
requires_failed [] failed = false
requires_failed (r ∷ require) failed = contains failed r || requires_failed require failed

-- The loop of `getSkippedSteps`.
unfoldable pub skipped_from : List Str → List Str → List Step → List Str
unfolding requires_failed
skipped_from executed failed [] = []
skipped_from executed failed (s ∷ ss) =
    let rest = skipped_from executed failed ss in
    if contains executed s.action
    then rest
    else if requires_failed s.require failed
    then s.action ∷ rest
    else rest

unfoldable pub get_skipped_steps : Config → Str → List StepResult → List Str
unfolding skipped_from executed_steps failed_steps
get_skipped_steps config stage_name results = elim (get_stage config stage_name) [
  | none ↦ []
  | some stage ↦ skipped_from (executed_steps results) (failed_steps results) stage.steps
]

-- The calls that `RunStage` makes for the skipped steps.
unfoldable pub report_skipped : List Str → List Call
report_skipped [] = []
report_skipped (name ∷ names) =
    step_start name
    ∷ step_complete name skipped (codes "skipped (dependency failed)") 0
    ∷ report_skipped names

-- `statusCounts[status]`
unfoldable pub status_count : List StepResult → StepStatus → ℕ
status_count [] status = 0
status_count (r ∷ rs) status =
    let rest = status_count rs status in if status_eq r.status status then suc rest else rest

abbrev pub status_order : List StepStatus
status_order = error ∷ warn ∷ ok ∷ skipped ∷ []

-- The lines of the summary, or none.
unfoldable pub summary_lines : List StepResult → List (StepStatus × ℕ)
unfolding status_count
summary_lines [] = []
summary_lines (r ∷ rs) = map (λ status. (status, status_count (r ∷ rs) status)) status_order

-- The headlines of a summary.
pub data Headline : Type 0 where
  terminated_line success_line failed_line warning_line dry_run_line : Headline

-- The duration behind a headline. `millis` stands for `%.3f` of a duration in seconds.
unfoldable pub summary_duration : (ℕ → Str) → ℕ → Str
summary_duration millis duration =
    let total = duration / 1_000_000_000 in
    if ltb duration 1_000_000_000
    then codes " in " ++ (millis duration ++ codes "s")
    else if ltb 0 (total / 60)
    then codes " in " ++ (itoa (total / 60) ++ (codes "m " ++ (itoa (total % 60) ++ codes "s")))
    else codes " in " ++ (itoa (total % 60) ++ codes "s")

pub record Summary : Type 0 where
  pub headline : Headline
  pub duration : Str
  pub lines : List (StepStatus × ℕ)

-- What the runner of a stage does: the calls on the callback, the results that it collects, the
-- summary that is printed and the error.
pub record StageRun : Type 0 where
  pub calls : List Call
  pub results : List StepResult
  pub summary : Option Summary
  pub error : Option Str

unfoldable pub print_terminated_summary : (ℕ → Str) → ℕ → List StepResult → Summary
unfolding summary_lines summary_duration
print_terminated_summary millis duration results = record {
  headline = terminated_line;
  duration = summary_duration millis duration;
  lines = summary_lines results;
}

unfoldable pub print_summary : (ℕ → Str) → ℕ → Bool → List StepResult → Summary
unfolding summary_lines summary_duration
print_summary millis duration success results = record {
  headline = if success then success_line else failed_line;
  duration = summary_duration millis duration;
  lines = summary_lines results;
}

module _ (config : Config) (millis : ℕ → Str) (elapsed : ℕ) (cancelled : Bool) where
  -- `RunStage` without a dry run; `calls` and `err` are what `Runner.RunStage` does and returns.
  unfoldable pub run_stage : Str → List Call → Option Str → StageRun
  unfolding collect_all get_skipped_steps report_skipped print_summary print_terminated_summary
  run_stage stage_name calls err = elim (get_stage config stage_name) [
    | none ↦ record {
      calls = [];
      results = [];
      summary = none;
      error = some (codes "stage not found: " ++ stage_name);
    }
    | some stage ↦
        let skips = report_skipped (get_skipped_steps config stage_name (collect_all [] calls)) in
        let results = collect_all (collect_all [] calls) skips in
        record {
          calls = calls ++ skips;
          results = results;
          summary = some (
              if cancelled
              then print_terminated_summary millis elapsed results
              else print_summary millis elapsed (not (is_some err) && not cancelled) results);
          error = err;
        }
  ]

-- The loop of `RunAction` over the results: whether one is an error, which ends it, and whether one
-- before it is a warning.
unfoldable pub scan_results : List StepResult → Bool → Bool × Bool
scan_results [] warned = (false, warned)
scan_results (r ∷ rs) warned = elim (status_eq r.status error) [
  | true ↦ (true, warned)
  | false ↦ scan_results rs (warned || status_eq r.status warn)
]

-- The final status of `RunAction`, when there are results.
unfoldable pub final_status : Bool → List StepResult → Option Headline
unfolding scan_results
final_status terminated [] = none
final_status terminated (r ∷ rs) =
    let (failed, warned) = scan_results (r ∷ rs) false in
    some (
      if terminated
      then terminated_line
      else if failed
      then failed_line
      else if warned
      then warning_line
      else success_line)
