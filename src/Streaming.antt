-- ===== src/Streaming.antt =====
-- pkg/buildfab/buildfab.go without a step callback: `executeDAGWithOrderedStreaming` and
-- `executeDAGWithParallel`, whose goroutines take the same steps, over the state of the executor. The
-- display of the first, from two goroutines without a lock, is left out. A send on a closed channel ends the program.
pub mod Locked
pub mod Refines
pub mod Outcome
use buildfab.Base.{
  ℕ, Str, Bool, true, false, not, ◌&&◌, ◌||◌, List, [], ◌∷◌, ◌++◌, ◌≡◌, ◌≢◌, contains, without,
  count, if◌then◌else◌,
}
use buildfab.Base.Dict
use buildfab.Config.{Step}
use buildfab.Dag.{Dag}
use buildfab.Executor.{
  Execution, Result, Mode, scanning, starting, draining, closed, initial, dependencies_of,
  all_dependencies_completed, scanned, start_step, send, handle_result, set_mode,
}

-- The guard in the loop of `getReadyStepsLocked`.
unfoldable pub is_ready_locked : Dag → Execution → Str → Bool
is_ready_locked dag e name =
    not (contains e.completed name || contains e.executing name)
    && all_dependencies_completed (dependencies_of (Dict.lookup name dag)) e.completed

unfoldable pub get_ready_steps_locked : Dag → Execution → List Str → List Str
unfolding is_ready_locked
get_ready_steps_locked dag e [] = []
get_ready_steps_locked dag e (name ∷ names) =
    let rest = get_ready_steps_locked dag e names in
    if is_ready_locked dag e name then name ∷ rest else rest

-- Every node is completed or executing.
unfoldable pub all_under_way : Execution → List Str → Bool
all_under_way e [] = true
all_under_way e (name ∷ names) =
    (contains e.completed name || contains e.executing name) && all_under_way e names

unfoldable pub looked : Execution → List Str → List Str → Mode
looked e names [] = if all_under_way e names then draining else scanning
looked e names (name ∷ rest) = starting name rest

-- One look for ready steps, over the nodes in the order `names`.
unfoldable pub look_locked : Dag → List Str → Execution → Execution
unfolding looked get_ready_steps_locked
look_locked dag names e = record e { mode = looked e names (get_ready_steps_locked dag e names) }

-- What a worker sends, under the name of its step.
unfoldable pub deliver : Str → Result → Execution → Execution
deliver name r e = send (record r { name = name }) (record e { running = without name e.running })

unfoldable pub drop_result : Str → Execution → Execution
drop_result name e = record e { running = without name e.running }

pub data Streaming : Type 0 where
  live : Execution → Streaming
  crashed : Streaming

-- One step of one goroutine of an execution.
pub data StreamNext (dag : Dag) (should_execute : Step → Bool) (e : Execution)
    : Streaming → Type 0 where
  look :
      (names : List Str)
      → ((n : Str) → count names n ≡ count (Dict.keys dag) n)
      → e.mode ≡ scanning
      → e.cancelled ≡ false
      → (look_locked dag names e).mode ≢ scanning
      → StreamNext dag should_execute e (live (look_locked dag names e))
  launch :
      (name : Str) (rest : List Str)
      → e.mode ≡ starting name rest
      → e.cancelled ≡ false
      → StreamNext dag should_execute e (live (start_step dag should_execute name rest e))
  complete :
      (name : Str) (r : Result)
      → contains e.running name ≡ true
      → e.mode ≢ closed
      → StreamNext dag should_execute e (live (deliver name r e))
  leave :
      (name : Str)
      → contains e.running name ≡ true
      → e.cancelled ≡ true
      → StreamNext dag should_execute e (live (drop_result name e))
  crash :
      (name : Str)
      → contains e.running name ≡ true
      → e.mode ≡ closed
      → StreamNext dag should_execute e crashed
  handle :
      (r : Result) (rest : List Result)
      → e.result_chan ≡ r ∷ rest
      → StreamNext dag should_execute e (live (handle_result r rest e))
  cancel :
      e.cancelled ≡ false → StreamNext dag should_execute e (live (record e { cancelled = true }))
  abandon :
      e.cancelled ≡ true
      → e.mode ≢ draining
      → e.mode ≢ closed
      → StreamNext dag should_execute e (live (set_mode draining e))
  close :
      e.mode ≡ draining
      → e.executing ≡ []
      → StreamNext dag should_execute e (live (set_mode closed e))
  give_up :
      e.mode ≡ draining
      → e.cancelled ≡ true
      → StreamNext dag should_execute e (live (set_mode closed e))

-- What a run from the beginning leads to.
pub data StreamReachable (dag : Dag) (should_execute : Step → Bool) : Streaming → Type 0 where
  begin : StreamReachable dag should_execute (live initial)
  then_next :
      {e : Execution} {s : Streaming}
      → StreamReachable dag should_execute (live e)
      → StreamNext dag should_execute e s
      → StreamReachable dag should_execute s
