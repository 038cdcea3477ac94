-- ===== src/Executor/Built.antt =====
-- The executor on the graphs that `buildDAG` returns.
use buildfab.Base.{
  ◌≤◌, Str, Bool, false, List, [], ◌∷◌, map, Option, none, some, is_some, ◌≡◌, refl, ◌∙◌, arith,
  count, contains-count, count-cons, absent-count, contains, str_eq_iff, if◌then◌else◌, subst,
}
use buildfab.Base.Dict
use buildfab.Base.Dict.{Dict, contains-keys}
use buildfab.Config.{Step, Action, Config, get_action}
use buildfab.Dag.{
  DagNode, Dag, Built, built, failed, bind_built, new_node, put_step, add_nodes, add_dependent,
  link_deps, link_node, link_all, checked, build_dag, Search, done, cycle, nil_node, out_of_fuel,
  detect_cycles,
}
use buildfab.Dag.Nodes.{Placed, last_step, later_or-is_some}
use buildfab.Dag.Cycles.{IsRange}
use buildfab.Dag.Build.{Explains, IsPlan, build_dag-Explains}
use buildfab.Executor.{Execution, closed, Reachable}
use buildfab.Executor.Invariant.{names_of}
use buildfab.Executor.Finished.{Moves, finishes}

-- No key twice.
abbrev pub IsOnce : Dag → Type 0
IsOnce dag = (n : Str) → count (Dict.keys dag) n ≤ 1

count-insert :
    (k : Str) (v : DagNode) (dag : Dag) (n : Str)
    → count (Dict.keys (Dict.insert k v dag)) n ≡ (
        if contains (Dict.keys dag) k then count (Dict.keys dag) n else count (k ∷ Dict.keys dag) n)
unfolding Dict.keys Dict.insert count contains
count-insert k v [] n = ground arith
count-insert k v ((j, w) ∷ dag) n =
    ground (arith, count-insert k v dag n, str_eq_iff j k, str_eq_iff j n, str_eq_iff k n)

insert-IsOnce : (k : Str) (v : DagNode) (dag : Dag) → IsOnce dag → IsOnce (Dict.insert k v dag)
insert-IsOnce k v dag once n = ground (
  arith,
  once n,
  count-insert k v dag n,
  count-cons k (Dict.keys dag) n,
  absent-count (Dict.keys dag) n,
  str_eq_iff k n,
)

-- A result with such a graph, if it has a graph.
abbrev OnceIfBuilt : Built → Type 0
OnceIfBuilt (built dag) = IsOnce dag
OnceIfBuilt (failed e) = Unit

bind-Once :
    (r : Built) (f : Dag → Built)
    → OnceIfBuilt r
    → ((dag : Dag) → IsOnce dag → OnceIfBuilt (f dag))
    → OnceIfBuilt (bind_built r f)
bind-Once (built dag) f h k = k dag h
bind-Once (failed e) f h k = tt

put-Once : (dag : Dag) (s : Step) (a : Option Action) → IsOnce dag → OnceIfBuilt (put_step dag s a)
unfolding put_step
put-Once dag s none once = tt
put-Once dag s (some a) once = insert-IsOnce s.action (new_node s a) dag once

add-Once :
    (c : Config) (steps : List Step) (dag : Dag) → IsOnce dag → OnceIfBuilt (add_nodes c dag steps)
unfolding add_nodes
add-Once c [] dag once = once
add-Once c (s ∷ steps) dag once =
    bind-Once (put_step dag s (get_action c s.action)) (λ d. add_nodes c d steps)
      (put-Once dag s (get_action c s.action) once) (add-Once c steps)

dependent-Once :
    (dag : Dag) (n d : Str) (node : Option DagNode)
    → IsOnce dag
    → OnceIfBuilt (add_dependent dag n d node)
unfolding add_dependent
dependent-Once dag n d none once = tt
dependent-Once dag n d (some node) once = insert-IsOnce d _ dag once

deps-Once :
    (n : Str) (deps : List Str) (dag : Dag) → IsOnce dag → OnceIfBuilt (link_deps n dag deps)
unfolding link_deps
deps-Once n [] dag once = once
deps-Once n (d ∷ deps) dag once =
    bind-Once (add_dependent dag n d (Dict.lookup d dag)) (λ g. link_deps n g deps)
      (dependent-Once dag n d (Dict.lookup d dag) once) (deps-Once n deps)

node-Once : (dag : Dag) (node : Option DagNode) → IsOnce dag → OnceIfBuilt (link_node dag node)
unfolding link_node
node-Once dag none once = once
node-Once dag (some node) once = deps-Once node.step.action node.dependencies dag once

all-Once : (names : List Str) (dag : Dag) → IsOnce dag → OnceIfBuilt (link_all dag names)
unfolding link_all
all-Once [] dag once = once
all-Once (n ∷ names) dag once =
    bind-Once (link_node dag (Dict.lookup n dag)) (λ g. link_all g names)
      (node-Once dag (Dict.lookup n dag) once) (all-Once names)

checked-Once : (dag : Dag) (r : Search) → IsOnce dag → OnceIfBuilt (checked dag r)
unfolding checked
checked-Once dag (done _) once = once
checked-Once dag (cycle _) once = tt
checked-Once dag (nil_node _) once = tt
checked-Once dag out_of_fuel once = tt

empty-IsOnce : IsOnce []
unfolding Dict.keys count
empty-IsOnce n = omega arith

abbrev pub step_names : List Step → List Str
step_names steps = map (λ s. s.action) steps

last_step-is_some :
    (steps : List Step) (k : Str) → is_some (last_step steps k) ≡ contains (step_names steps) k
unfolding contains
last_step-is_some [] k = refl
last_step-is_some (s ∷ steps) k =
    ground (arith, later_or-is_some k s (last_step steps k), last_step-is_some steps k)

Placed-is_some :
    (c : Config) (o : Option DagNode) (l : Option Step) → Placed c none o l → is_some o ≡ is_some l
Placed-is_some c none none h = refl
Placed-is_some c (some n) none h = cc
Placed-is_some c none (some s) (a, found, is) = cc
Placed-is_some c (some n) (some s) h = refl

module _ (c : Config) (steps : List Step) (range₁ range₂ : List Str → List Str) where
  build-Once : OnceIfBuilt (build_dag c range₁ range₂ steps)
  unfolding build_dag
  build-Once = bind-Once (add_nodes c [] steps) _ (add-Once c steps [] empty-IsOnce) λ dag once.
      bind-Once (link_all dag (range₁ (Dict.keys dag))) _
        (all-Once (range₁ (Dict.keys dag)) dag once)
        (λ linked one. checked-Once linked (detect_cycles range₂ linked) one)

  -- The names of the nodes are the names of the steps.
  count-keys :
      (dag : Dag)
      → IsOnce dag
      → IsPlan c steps dag
      → (n : Str) → count (Dict.keys dag) n ≡ (if contains (step_names steps) n then 1 else 0)
  count-keys dag once plan n = ground (
    arith,
    once n,
    contains-count (Dict.keys dag) n,
    absent-count (Dict.keys dag) n,
    contains-keys dag n,
    Placed-is_some c (Dict.lookup n dag) (last_step steps n) (plan.nodes n),
    last_step-is_some steps n,
  )

  -- If buildDAG returns a graph for the steps of a stage, in whatever order the maps are ranged
  -- over, then from each execution that the executor reaches on it and that is not cancelled, steps
  -- of its goroutines, none of which is a cancellation, lead to one that has closed its channel; and
  -- there each step of the stage has exactly one result, and nothing else has one.
  pub build_dag-runs :
      (visits₁ : IsRange range₁) (visits₂ : IsRange range₂) (should_execute : Step → Bool)
      {dag : Dag} {e : Execution}
      → build_dag c range₁ range₂ steps ≡ built dag
      → Reachable dag should_execute e
      → e.cancelled ≡ false
      → (e' : Execution) × Moves dag should_execute e' e
        × (e'.mode ≡ closed)
        × ((n : Str)
            → count (names_of e'.results) n ≡ (if contains (step_names steps) n then 1 else 0))
  build_dag-runs visits₁ visits₂ should_execute {dag} {e} is r on =
      let once = subst OnceIfBuilt is build-Once in
      let plan =
        subst (Explains c steps) is (build_dag-Explains c steps range₁ range₂ visits₁ visits₂) in
      let (e', moves, shut, all) = finishes dag should_execute once plan.closed plan.acyclic r on in
      (e', moves, shut, λ n. all n ∙ count-keys dag once plan n)
