-- ===== src/Executor.antt =====
-- pkg/buildfab/buildfab.go: `executeDAGWithCallback`. Three kinds of goroutine share the maps under
-- one mutex: the starter, which looks for ready steps and starts them; a worker for each step that
-- runs; and the handler, which takes the results from the channel. A run is a sequence of their
-- steps in any order. A map from names to true is the list of the names; sleeping, and a search that
-- finds nothing to do, change no state and are no steps.
pub mod Invariant
pub mod Starting
pub mod Kept
pub mod Safety
pub mod Candidate
pub mod Progress
pub mod Work
pub mod Finished
pub mod Built
use buildfab.Base.{
  ℕ, Str, Bool, true, false, not, ◌&&◌, ◌||◌, List, [], ◌∷◌, ◌++◌, Option, none, some, ◌≡◌, ◌≢◌,
  codes, contains, without, count, if◌then◌else◌,
}
use buildfab.Base.Strings.{join}
use buildfab.Base.Dict
use buildfab.Config.{Step}
use buildfab.Dag.{DagNode, Dag}
use buildfab.Output.Status.{StepStatus, ok, error, skipped, status_eq}

pub record Result : Type 0 where
  pub name : Str
  pub status : StepStatus
  pub message : Str
  pub error : Option Str
  pub duration : ℕ

-- What the starter does: it looks for ready steps, starts the ones that it found, of which it has
-- the next and the rest before it, waits for the steps that run, or has closed the channel.
pub data Mode : Type 0 where
  scanning : Mode
  starting : Str → List Str → Mode
  draining : Mode
  closed : Mode

pub record Execution : Type 0 where
  pub results : List Result
  pub completed : List Str
  pub failed : List Str
  pub executing : List Str
  pub running : List Str
  pub result_chan : List Result
  pub mode : Mode
  pub cancelled : Bool

abbrev pub initial : Execution
initial = record {
  results = [];
  completed = [];
  failed = [];
  executing = [];
  running = [];
  result_chan = [];
  mode = scanning;
  cancelled = false;
}

abbrev pub dependencies_of : Option DagNode → List Str
dependencies_of none = []
dependencies_of (some node) = node.dependencies

-- `allDependenciesCompleted`, on the dependencies that are left of its loop.
unfoldable pub all_dependencies_completed : List Str → List Str → Bool
all_dependencies_completed [] completed = true
all_dependencies_completed (dep ∷ deps) completed =
    contains completed dep && all_dependencies_completed deps completed

unfoldable pub has_failed_dependency : List Str → List Str → Bool
has_failed_dependency [] failed = false
has_failed_dependency (dep ∷ deps) failed = contains failed dep || has_failed_dependency deps failed

unfoldable pub get_failed_dependency_names : List Str → List Str → List Str
get_failed_dependency_names [] failed = []
get_failed_dependency_names (dep ∷ deps) failed =
    let rest = get_failed_dependency_names deps failed in
    if contains failed dep then dep ∷ rest else rest

-- The guard of the loop that collects the ready steps.
unfoldable pub is_ready : Dag → Execution → Str → Bool
is_ready dag e name =
    not (contains e.completed name)
    && (not (contains e.executing name)
        && (not (contains e.failed name)
            && all_dependencies_completed (dependencies_of (Dict.lookup name dag)) e.completed))

unfoldable pub ready_steps : Dag → Execution → List Str → List Str
ready_steps dag e [] = []
ready_steps dag e (name ∷ names) =
    let rest = ready_steps dag e names in if is_ready dag e name then name ∷ rest else rest

unfoldable pub all_done : Execution → List Str → Bool
all_done e [] = true
all_done e (name ∷ names) =
    (contains e.completed name || contains e.failed name) && all_done e names

-- Behind the look for ready steps, over the nodes in the order `names`.
unfoldable pub scanned : Execution → List Str → List Str → Mode
scanned e names [] = if all_done e names then draining else scanning
scanned e names (name ∷ rest) = starting name rest

unfoldable pub scan : Dag → List Str → Execution → Execution
unfolding scanned
scan dag names e = record e { mode = scanned e names (ready_steps dag e names) }

-- When the last ready step is started, the starter looks again.
unfoldable pub remaining : List Str → Mode
remaining [] = scanning
remaining (name ∷ names) = starting name names

abbrev pub skip : Str → Str → Result
skip name message = record {
  name = name;
  status = skipped;
  message = message;
  error = none;
  duration = 0;
}

abbrev pub send : Result → Execution → Execution
send r e = record e { result_chan = e.result_chan ++ r ∷ [] }

-- `shouldExecuteStep` of the node that `dag[nodeName]` gives.
abbrev pub meets_condition : (Step → Bool) → Option DagNode → Bool
meets_condition should_execute none = false
meets_condition should_execute (some node) = should_execute node.step

-- `executing[nodeName] = true`, and the choice between skipping and running the step. Between the
-- two the handler changes nothing that the choice reads: every dependency is completed.
unfoldable pub start_step : Dag → (Step → Bool) → Str → List Str → Execution → Execution
unfolding remaining
start_step dag should_execute name rest e =
    let node = Dict.lookup name dag in
    let e' = record e { executing = name ∷ e.executing; mode = remaining rest } in
    if has_failed_dependency (dependencies_of node) e'.failed
    then send
        (skip name (
          codes "skipped (dependency failed: "
          ++ (join (get_failed_dependency_names (dependencies_of node) e'.failed) (codes ", ")
              ++ codes ")")))
        e'
    else if not (meets_condition should_execute node)
    then send (skip name (codes "skipped (condition not met)")) e'
    else record e' { running = name ∷ e'.running }

-- What a worker sends: the result of the action under the name of the step, or that it is cancelled.
unfoldable pub named_result : Bool → Str → Result → Result
named_result cancelled name r =
    if cancelled
    then record r {
      name = name;
      status = error;
      message = codes "cancelled";
      error = some (codes "context canceled");
    }
    else record r { name = name }

unfoldable pub finish : Str → Result → Execution → Execution
unfolding named_result
finish name r e =
    send (named_result e.cancelled name r) (record e { running = without name e.running })

-- The handler's loop body for one result.
unfoldable pub handle_result : Result → List Result → Execution → Execution
handle_result r rest e = record e {
  results = e.results ++ r ∷ [];
  completed = r.name ∷ e.completed;
  executing = without r.name e.executing;
  failed = if status_eq r.status error then r.name ∷ e.failed else e.failed;
  result_chan = rest;
}

abbrev pub set_mode : Mode → Execution → Execution
set_mode mode e = record e { mode = mode }

-- One step of one goroutine, or the cancellation of the run from outside. `names` is an order of the range over the nodes.
pub data Next (dag : Dag) (should_execute : Step → Bool) (e : Execution) : Execution → Type 0 where
  look :
      (names : List Str)
      → ((n : Str) → count names n ≡ count (Dict.keys dag) n)
      → e.mode ≡ scanning
      → e.cancelled ≡ false
      → (scan dag names e).mode ≢ scanning
      → Next dag should_execute e (scan dag names e)
  launch :
      (name : Str) (rest : List Str)
      → e.mode ≡ starting name rest
      → e.cancelled ≡ false
      → Next dag should_execute e (start_step dag should_execute name rest e)
  complete :
      (name : Str) (r : Result)
      → contains e.running name ≡ true
      → Next dag should_execute e (finish name r e)
  handle :
      (r : Result) (rest : List Result)
      → e.result_chan ≡ r ∷ rest
      → Next dag should_execute e (handle_result r rest e)
  cancel : e.cancelled ≡ false → Next dag should_execute e (record e { cancelled = true })
  abandon :
      e.cancelled ≡ true
      → e.mode ≢ draining
      → e.mode ≢ closed
      → Next dag should_execute e (set_mode draining e)
  close : e.mode ≡ draining → e.executing ≡ [] → Next dag should_execute e (set_mode closed e)

-- The executions that a run from the beginning leads to.
pub data Reachable (dag : Dag) (should_execute : Step → Bool) : Execution → Type 0 where
  begin : Reachable dag should_execute initial
  then_next :
      {e e' : Execution}
      → Reachable dag should_execute e
      → Next dag should_execute e e'
      → Reachable dag should_execute e'
