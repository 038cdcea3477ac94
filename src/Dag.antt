-- ===== src/Dag.antt =====
-- The execution graph of pkg/buildfab/buildfab.go: `buildDAG` and `detectCycles`.
-- A map is ranged over in an order that the runtime picks; `range` stands for that choice, and
-- the theorems hold for every choice that visits each key.
pub mod Walk
pub mod Marking
pub mod Searching
pub mod Fuel
pub mod Cycles
pub mod Nodes
pub mod Links
pub mod Build
use buildfab.Base.{
  ℕ, zero, suc, Str, Bool, true, false, List, [], ◌∷◌, ◌++◌, Option, none, some, contains, without,
  length, if◌then◌else◌,
}
use buildfab.Base.Dict
use buildfab.Base.Dict.{Dict}
use buildfab.Config.{Action, Step, Config, get_action}

pub record DagNode : Type 0 where
  pub step : Step
  pub action : Action
  pub dependencies : List Str
  pub dependents : List Str

abbrev pub Dag : Type 0
Dag = Dict DagNode

-- The two maps of `detectCycles`, each as the set of names that it maps to true.
pub record Marks : Type 0 where
  pub visited : List Str
  pub rec_stack : List Str

abbrev pub unmarked : Marks
unmarked = record { visited = []; rec_stack = [] }

-- How a search ends: with no error, with the error for a node on a cycle, or by the nil
-- dereference that `dag[nodeName]` of an absent name leads to. `out_of_fuel` is no outcome of
-- the program, and `Dag.Cycles.detect_cycles_returns` shows that it does not arise.
pub data Search : Type 0 where
  done : Marks → Search
  cycle : Str → Search
  nil_node : Str → Search
  out_of_fuel : Search

unfoldable pub enter : Str → Marks → Marks
enter n m = record { visited = n ∷ m.visited; rec_stack = n ∷ m.rec_stack }

-- The deferred reset. Where an error is returned nothing reads the maps again.
unfoldable pub leave : Str → Search → Search
leave n (done m) = done (record m { rec_stack = without n m.rec_stack })
leave n (cycle k) = cycle k
leave n (nil_node k) = nil_node k
leave n out_of_fuel = out_of_fuel

abbrev pub and_then : Search → (Marks → Search) → Search
and_then (done m) f = f m
and_then (cycle k) f = cycle k
and_then (nil_node k) f = nil_node k
and_then out_of_fuel f = out_of_fuel

-- A `for` loop that returns the first error.
unfoldable pub each : (Str → Marks → Search) → List Str → Marks → Search
each call [] m = done m
each call (n ∷ ns) m = and_then (call n m) (each call ns)

unfoldable pub expand : (Str → Marks → Search) → Str → Option DagNode → Marks → Search
expand call n none m = nil_node n
expand call n (some node) m = leave n (each call node.dependencies (enter n m))

unfoldable pub dfs : ℕ → Dag → Str → Marks → Search
dfs zero dag n m = out_of_fuel
dfs (suc fuel) dag n m = elim (contains m.rec_stack n) [
  | true ↦ cycle n
  | false ↦ elim (contains m.visited n) [
    | true ↦ done m
    | false ↦ expand (dfs fuel dag) n (Dict.lookup n dag) m
  ]
]

-- The guard of the outer loop.
unfoldable pub visit_unseen : (Str → Marks → Search) → Str → Marks → Search
visit_unseen call n m = if contains m.visited n then done m else call n m

unfoldable pub detect_cycles : (List Str → List Str) → Dag → Search
detect_cycles range dag =
    let names = Dict.keys dag in
    each (visit_unseen (dfs (suc (length names)) dag)) (range names) unmarked

pub data BuildError : Type 0 where
  action_not_found : Str → BuildError
  dependency_not_found : Str → BuildError
  circular_dependency : Str → BuildError
  nil_dereference : Str → BuildError
  ran_out : BuildError

pub data Built : Type 0 where
  built : Dag → Built
  failed : BuildError → Built

abbrev pub bind_built : Built → (Dag → Built) → Built
bind_built (built dag) f = f dag
bind_built (failed e) f = failed e

abbrev pub new_node : Step → Action → DagNode
new_node step action = record {
  step = step;
  action = action;
  dependencies = step.require;
  dependents = [];
}

unfoldable pub put_step : Dag → Step → Option Action → Built
put_step dag step none = failed (action_not_found step.action)
put_step dag step (some action) = built (Dict.insert step.action (new_node step action) dag)

-- The first loop of `buildDAG`.
unfoldable pub add_nodes : Config → Dag → List Step → Built
unfolding put_step
add_nodes config dag [] = built dag
add_nodes config dag (step ∷ steps) =
    bind_built (put_step dag step (get_action config step.action))
      (λ dag'. add_nodes config dag' steps)

-- The write goes through the pointer that the map holds.
unfoldable pub add_dependent : Dag → Str → Str → Option DagNode → Built
add_dependent dag dependent dep none = failed (dependency_not_found dep)
add_dependent dag dependent dep (some node) =
    built (Dict.insert dep (record node { dependents = node.dependents ++ dependent ∷ [] }) dag)

unfoldable pub link_deps : Str → Dag → List Str → Built
unfolding add_dependent
link_deps dependent dag [] = built dag
link_deps dependent dag (dep ∷ deps) =
    bind_built (add_dependent dag dependent dep (Dict.lookup dep dag))
      (λ dag'. link_deps dependent dag' deps)

unfoldable pub link_node : Dag → Option DagNode → Built
unfolding link_deps
link_node dag none = built dag
link_node dag (some node) = link_deps node.step.action dag node.dependencies

-- The second loop, over the nodes in the order of `names`.
unfoldable pub link_all : Dag → List Str → Built
unfolding link_node
link_all dag [] = built dag
link_all dag (name ∷ names) =
    bind_built (link_node dag (Dict.lookup name dag)) (λ dag'. link_all dag' names)

unfoldable pub checked : Dag → Search → Built
checked dag (done _) = built dag
checked dag (cycle n) = failed (circular_dependency n)
checked dag (nil_node n) = failed (nil_dereference n)
checked dag out_of_fuel = failed ran_out

-- `range₁` and `range₂` are the orders of the two loops over the map.
unfoldable pub build_dag :
    Config → (List Str → List Str) → (List Str → List Str) → List Step → Built
unfolding add_nodes link_all checked
build_dag config range₁ range₂ steps = bind_built (add_nodes config [] steps) λ dag.
    bind_built (link_all dag (range₁ (Dict.keys dag)))
      λ linked. checked linked (detect_cycles range₂ linked)
