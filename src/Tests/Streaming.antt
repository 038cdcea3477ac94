-- ===== src/Tests/Streaming.antt =====
-- Executions without a callback, and the examples of their theorems.
use buildfab.Base.{
  Str, codes, false, [], ◌∷◌, ◌≡◌, refl, contains, without, count, unique, unique-count, str_eq,
  ◌≤◌,
}
use buildfab.Base.Dict
use buildfab.Output.Status.{status_eq}
use buildfab.Executor.{
  Execution, Mode, Reachable, closed, initial, start_step, handle_result, set_mode, remaining,
  all_dependencies_completed, has_failed_dependency,
}
use buildfab.Executor.Invariant.{names_of}
use buildfab.Streaming.{
  look_locked, looked, get_ready_steps_locked, is_ready_locked, all_under_way, deliver, live,
  crashed, StreamNext, StreamReachable, look, launch, complete, crash, handle, cancel, abandon,
  close, give_up, begin, then_next,
}
use buildfab.Streaming.Outcome.{stream_refines, stream_closed, stream_never_crashes}
use buildfab.Tests.Executor.{solo, done, always}

only_once : (n : Str) → count (Dict.keys solo) n ≤ 1
unfolding Dict.keys unique contains
only_once n = unique-count (Dict.keys solo) n refl

abbrev name : Str
name = codes "build"

abbrev s₁ : Execution
s₁ = look_locked solo (name ∷ []) initial

abbrev s₂ : Execution
s₂ = start_step solo always name [] s₁

abbrev s₃ : Execution
s₃ = deliver name done s₂

abbrev s₄ : Execution
s₄ = handle_result done [] s₃

abbrev s₅ : Execution
s₅ = look_locked solo (name ∷ []) s₄

abbrev s₆ : Execution
s₆ = set_mode closed s₅

started : StreamReachable solo always (live s₂)
unfolding look_locked looked get_ready_steps_locked is_ready_locked start_step remaining Dict.keys
    Dict.lookup contains all_dependencies_completed has_failed_dependency str_eq
started =
    then_next (then_next begin (look (name ∷ []) (λ n. refl) refl refl (λ h. cc)))
      (launch name [] refl refl)

finished : StreamReachable solo always (live s₆)
unfolding look_locked looked get_ready_steps_locked is_ready_locked all_under_way start_step
    remaining deliver handle_result Dict.keys Dict.lookup contains without
    all_dependencies_completed has_failed_dependency str_eq status_eq
finished =
    then_next
      (then_next
        (then_next (then_next started (complete name done refl (λ h. cc))) (handle done [] refl))
        (look (name ∷ []) (λ n. refl) refl refl (λ h. cc)))
      (close refl refl)

-- A worker of a cancelled execution sends its result on the closed channel.
crashes : StreamReachable solo always crashed
unfolding look_locked looked get_ready_steps_locked is_ready_locked start_step remaining Dict.keys
    Dict.lookup contains all_dependencies_completed has_failed_dependency str_eq
crashes =
    then_next
      (then_next (then_next (then_next started (cancel refl)) (abandon refl (λ h. cc) (λ h. cc)))
        (give_up refl refl))
      (crash name refl refl)

still_on : s₂.cancelled ≡ false
unfolding look_locked start_step Dict.lookup has_failed_dependency str_eq
still_on = refl

on_to_the_end : s₆.cancelled ≡ false
unfolding look_locked start_step deliver handle_result Dict.lookup has_failed_dependency str_eq
on_to_the_end = refl

stream_refines_example : (m : Mode) × Reachable solo always (record s₂ { mode = m })
stream_refines_example = stream_refines solo always only_once started still_on

stream_closed_example :
    (s₆.running ≡ [])
    × (s₆.result_chan ≡ [])
    × ((n : Str) → count (names_of s₆.results) n ≡ count (Dict.keys solo) n)
stream_closed_example = stream_closed solo always only_once finished on_to_the_end refl

stream_never_crashes_example : ¬ (StreamNext solo always s₂ crashed)
stream_never_crashes_example = stream_never_crashes solo always only_once started still_on
