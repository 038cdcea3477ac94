-- ===== src/Tests/Output.antt =====
-- A run of the ordered output manager.
use buildfab.Base.{codes, String, true, List, [], ◌∷◌, Option, none, some, ◌≡◌, refl, str_eq, All}
use buildfab.Base.Dict
use buildfab.Config.{Step}
use buildfab.Output.Status.{ok, warn}
use buildfab.Output.Flags.{Every, IsDistinct}
use buildfab.Output.Protocol.{progress, reads}
use buildfab.Output.Invariant.{names, InOrder}
use buildfab.Output.Calls.{Call, step_start, step_complete, step_output, call, run_calls, IsNamed}
use buildfab.Output.Transcript.{new_callback, run_calls-InOrder, run_calls_finished}
use buildfab.Output.Message.{enhance_message}
use buildfab.Output.{
  OrderedOutputManager, start, line, result, new_manager, register_all, on_step_start,
  on_step_output, on_step_complete, can_show_step_start, shown_before,
}

abbrev step : String → Step
step name = record {
  action = codes name;
  require = [];
  on_error = [];
  if_condition = [];
  only = [];
}

abbrev two : List Step
two = step "build" ∷ step "test" ∷ []

abbrev fresh : OrderedOutputManager
fresh = register_all (new_manager two true none) two

abbrev or_fresh : Option OrderedOutputManager → OrderedOutputManager
or_fresh none = fresh
or_fresh (some o) = o

-- `test` reports before `build` does, and is printed behind it.
run : OrderedOutputManager
unfolding on_step_start on_step_complete on_step_output register_all Dict.lookup Dict.insert
run =
    let a = or_fresh (on_step_start fresh (codes "test")) in
    let b = on_step_output a (codes "test") (codes "t1") in
    let c = or_fresh (on_step_start b (codes "build")) in
    let d = on_step_complete c (codes "test") warn (codes "m") 5 in
    let e = on_step_output d (codes "build") (codes "b1") in
    on_step_complete e (codes "build") ok (codes "n") 7

run-log :
    run.log
    ≡ start (codes "build")
      ∷ line (codes "b1")
      ∷ result (codes "build") ok (codes "n") 7
      ∷ start (codes "test")
      ∷ line (codes "t1")
      ∷ result (codes "test") warn (codes "m") 5
      ∷ []
unfolding run str_eq can_show_step_start shown_before enhance_message
run-log = refl

abbrev calls : List Call
calls =
    step_start (codes "test")
    ∷ step_output (codes "test") (codes "t1")
    ∷ step_start (codes "build")
    ∷ step_complete (codes "test") warn (codes "m") 5
    ∷ step_complete (codes "build") ok (codes "n") 7
    ∷ []

final : OrderedOutputManager
unfolding on_step_start on_step_complete on_step_output new_callback Dict.lookup Dict.insert call
    run_calls str_eq can_show_step_start shown_before enhance_message
final = or_fresh (run_calls (new_callback two true none) calls)

run_calls-calls : run_calls (new_callback two true none) calls ≡ some final
unfolding final
run_calls-calls = refl

apart : IsDistinct two
unfolding str_eq
apart = ((refl, tt), (tt, tt))

named : All IsNamed calls
named = (λ e. cc, (λ e. cc, (λ e. cc, (λ e. cc, (λ e. cc, tt)))))

run_calls-InOrder_example :
    (o : OrderedOutputManager) × (run_calls (new_callback two true none) calls ≡ some o)
    × InOrder two o
run_calls-InOrder_example = run_calls-InOrder two true none calls apart named

all_done : Every final (λ d. d.completed) two
unfolding final
all_done = (refl, (refl, tt))

run_calls_finished_example :
    (reads (names two) final.log ≡ some (progress none [])) × (final.current_step ≡ [])
run_calls_finished_example =
    run_calls_finished two true none calls final apart named run_calls-calls all_done
