-- ===== src/Tests/Executor.antt =====
-- Runs of the executor.
use buildfab.Base.{
  Str, codes, Bool, true, false, [], ◌∷◌, none, ◌≡◌, ◌≢◌, refl, ◌⊎◌, contains, without, count,
  unique, unique-count, str_eq, if◌then◌else◌, length, ◌≤◌, ◌<◌, ◌+◌, ◌*◌,
}
use buildfab.Base.Dict
use buildfab.Config.{Step}
use buildfab.Dag.{Dag}
use buildfab.Output.Status.{ok, status_eq}
use buildfab.Executor.{
  Execution, Result, initial, scan, scanned, ready_steps, is_ready, all_done, start_step, remaining,
  finish, handle_result, named_result, set_mode, all_dependencies_completed, has_failed_dependency,
  Next, look, launch, complete, handle, close, Reachable, begin, then_next, closed,
}
use buildfab.Executor.Invariant.{names_of, requires}
use buildfab.Executor.Safety.{running_safe, closed_results}
use buildfab.Executor.Progress.{IsMove, never_stuck}
use buildfab.Executor.Built.{build_dag-runs, step_names}
use buildfab.Executor.Finished.{Moves}
use buildfab.Executor.Work.{work, runs_end}
use buildfab.Tests.Dag.{config, steps, build_dag-steps, graph, plan, action, step}

abbrev pub always : Step → Bool
always _ = true

distinct : (n : Str) → count (Dict.keys graph) n ≤ 1
unfolding graph Dict.keys unique contains str_eq
distinct n = unique-count (Dict.keys graph) n refl

looked : Execution
looked = scan graph (Dict.keys graph) initial

looks : Next graph always initial looked
unfolding looked graph Dict.keys Dict.lookup scan ready_steps is_ready contains
    all_dependencies_completed
looks = look (Dict.keys graph) (λ n. refl) refl refl (λ h. cc)

-- `lint` is ready first, and then `build`.
launched : Execution
launched = start_step graph always (codes "lint") (codes "build" ∷ []) looked

launches : Next graph always looked launched
unfolding looked launched graph Dict.keys Dict.lookup scan ready_steps is_ready contains
    all_dependencies_completed
launches = launch (codes "lint") (codes "build" ∷ []) refl refl

reached : Reachable graph always launched
reached = then_next (then_next begin looks) launches

runs : contains launched.running (codes "lint") ≡ true
unfolding looked launched graph Dict.keys Dict.lookup scan start_step has_failed_dependency contains
    str_eq
runs = refl

running_safe_example :
    (count (Dict.keys graph) (codes "lint") ≡ 1)
    × (count launched.running (codes "lint") ≡ 1)
    × (count (names_of launched.result_chan) (codes "lint") ≡ 0)
    × (count (names_of launched.results) (codes "lint") ≡ 0)
    × (all_dependencies_completed (requires graph (codes "lint")) launched.completed ≡ true)
    × (has_failed_dependency (requires graph (codes "lint")) launched.failed ≡ false)
running_safe_example = running_safe graph always distinct reached (codes "lint") runs

runs_end_example :
    (work looked < work launched) × (work launched ≤ 6 * length (Dict.keys graph) + 4)
runs_end_example = runs_end graph always distinct (then_next begin looks) launches

open_ : launched.mode ≢ closed
unfolding looked launched graph Dict.keys Dict.lookup scan start_step has_failed_dependency contains
open_ h = cc

never_stuck_example : (e' : Execution) × IsMove graph always launched e'
never_stuck_example = never_stuck graph always distinct plan.closed plan.acyclic reached open_

-- A graph of one node, run to its end.
abbrev pub solo : Dag
solo =
    (
      codes "build",
      record {
        step = step "build" [];
        action = action "build";
        dependencies = [];
        dependents = [];
      },
    )
    ∷ []

abbrev pub done : Result
done = record { name = codes "build"; status = ok; message = []; error = none; duration = 1 }

abbrev e₁ : Execution
e₁ = scan solo (codes "build" ∷ []) initial

abbrev e₂ : Execution
e₂ = start_step solo always (codes "build") [] e₁

abbrev e₃ : Execution
e₃ = finish (codes "build") done e₂

abbrev e₄ : Execution
e₄ = handle_result done [] e₃

abbrev e₅ : Execution
e₅ = scan solo (codes "build" ∷ []) e₄

last : Execution
last = set_mode closed e₅

to_the_end : Reachable solo always last
unfolding last scan scanned start_step remaining finish handle_result ready_steps is_ready all_done
    Dict.keys Dict.lookup contains without all_dependencies_completed has_failed_dependency str_eq
    named_result status_eq
to_the_end =
    then_next
      (then_next
        (then_next
          (then_next
            (then_next (then_next begin (look (codes "build" ∷ []) (λ n. refl) refl refl (λ h. cc)))
              (launch (codes "build") [] refl refl))
            (complete (codes "build") done refl))
          (handle done [] refl))
        (look (codes "build" ∷ []) (λ n. refl) refl refl (λ h. cc)))
      (close refl refl)

solo_distinct : (n : Str) → count (Dict.keys solo) n ≤ 1
unfolding Dict.keys unique contains
solo_distinct n = unique-count (Dict.keys solo) n refl

at_end : last.mode ≡ closed
unfolding last
at_end = refl

closed_results_example :
    (last.running ≡ [])
    × (last.result_chan ≡ [])
    × ((last.cancelled ≡ true)
        ⊎ ((n : Str) → count (names_of last.results) n ≡ count (Dict.keys solo) n))
closed_results_example = closed_results solo always solo_distinct to_the_end at_end

running_on : launched.cancelled ≡ false
unfolding looked launched graph Dict.keys Dict.lookup scan start_step has_failed_dependency contains
running_on = refl

build_dag-runs_example :
    (e' : Execution) × Moves graph always e' launched
    × (e'.mode ≡ closed)
    × ((n : Str) → count (names_of e'.results) n ≡ (if contains (step_names steps) n then 1 else 0))
build_dag-runs_example =
    build_dag-runs config steps (λ ks. ks) (λ ks. ks) (λ ks k. refl) (λ ks k. refl) always
      build_dag-steps reached running_on
