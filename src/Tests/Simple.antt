-- ===== src/Tests/Simple.antt =====
-- Runs of the simple runner, and the examples of their theorems.
use buildfab.Base.{
  ℕ, Str, codes, Bool, true, false, List, [], ◌∷◌, ◌++◌, Option, none, some, ◌≡◌, refl, All,
  contains, unique, str_eq, length, is_some, if◌then◌else◌,
}
use buildfab.Base.Dict
use buildfab.Config.{Stage, Config, get_stage}
use buildfab.Output.Status.{ok, warn, error, skipped, status_eq}
use buildfab.Output.Calls.{Call, step_start, step_complete, step_error}
use buildfab.Simple.{
  StepResult, collect_all, executed_steps, get_skipped_steps, run_stage, summary_lines,
  status_count, final_status, terminated_line, failed_line, warning_line, success_line,
}
use buildfab.Simple.Callback.{simple_calls, new_simple_callback}
use buildfab.Simple.Skips.{settled, run_stage-settled}
use buildfab.Simple.Counted.{total, is_final, total-summary_lines, final_status-status_count}
use buildfab.Simple.Collected.{last_completion, result_of, printed, simple_calls-keep}
use buildfab.Tests.Dag.{config, step}

-- The first step fails, a second that requires it is not run.
abbrev a : Str
a = codes "a"

abbrev b : Str
b = codes "b"

abbrev stage : Stage
stage = record { steps = step "a" [] ∷ step "b" (a ∷ []) ∷ [] }

abbrev project : Config
project = record config { stages = (codes "test", stage) ∷ [] }

abbrev failing : List Call
failing =
    step_start a ∷ step_error a (codes "exit status 1") ∷ step_complete a error (codes "bad") 5 ∷ []

abbrev no_millis : ℕ → Str
no_millis n = []

skips_b : get_skipped_steps project (codes "test") (collect_all [] failing) ≡ b ∷ []
unfolding get_skipped_steps get_stage Dict.lookup str_eq collect_all contains status_eq
skips_b = refl

counts_both :
    summary_lines (run_stage project no_millis 5 false (codes "test") failing none).results
    ≡ (error, 1) ∷ (warn, 0) ∷ (ok, 0) ∷ (skipped, 1) ∷ []
unfolding run_stage summary_lines get_stage Dict.lookup str_eq contains status_eq
counts_both = refl

abbrev done : List StepResult
done =
    record { step_name = a; status = error; duration = 5 }
    ∷ record { step_name = b; status = skipped; duration = 0 }
    ∷ []

run_stage-settled_example :
    All
      (λ s.
        settled (run_stage project no_millis 5 false (codes "test") failing none).results s ≡ true)
      stage.steps
    × All
        (λ n. contains (executed_steps (collect_all [] failing)) n ≡ false)
        (get_skipped_steps project (codes "test") (collect_all [] failing))
unfolding get_stage Dict.lookup str_eq
run_stage-settled_example =
    run_stage-settled project no_millis 5 false (codes "test") stage failing none refl

total-summary_lines_example : total (summary_lines done) ≡ length done
unfolding is_final
total-summary_lines_example = total-summary_lines done (refl, (refl, tt))

final_status-status_count_example :
    final_status false done
    ≡ some (
        if false
        then terminated_line
        else if buildfab.Base.ltb 0 (status_count done error)
        then failed_line
        else if buildfab.Base.ltb 0 (status_count done warn)
        then warning_line
        else success_line)
final_status-status_count_example =
    final_status-status_count false (record { step_name = a; status = error; duration = 5 })
      (record { step_name = b; status = skipped; duration = 0 } ∷ [])

abbrev twice : List Call
twice = step_complete a skipped [] 0 ∷ step_complete a ok [] 7 ∷ []

simple_calls-keep_example :
    (result_of (simple_calls (new_simple_callback true none) twice).results a
      ≡ last_completion twice a)
    × (unique (executed_steps (simple_calls (new_simple_callback true none) twice).results) ≡ true)
    × (printed (simple_calls (new_simple_callback true none) twice).log a
        ≡ (if is_some (last_completion twice a) then 1 else 0))
simple_calls-keep_example = simple_calls-keep true none twice a
