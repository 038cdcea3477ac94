-- ===== src/Tests/Dag.antt =====
-- The graph of a small stage.
use buildfab.Base.{Str, codes, String, List, [], ◌∷◌, ◌≡◌, refl, str_eq, contains, without, subst}
use buildfab.Base.Dict
use buildfab.Config.{Action, Step, Config, get_action, find_action}
use buildfab.Dag.{
  Dag, Built, built, failed, build_dag, circular_dependency, detect_cycles, dfs, each, expand,
  enter, leave, visit_unseen,
}
use buildfab.Dag.Cycles.{Decides, detect_cycles-Decides}
use buildfab.Dag.Build.{IsPlan, Explains, build_dag-Explains}

abbrev pub action : String → Action
action name = record { name = codes name; run = codes "true"; uses = []; shell = []; variants = [] }

abbrev pub step : String → List Str → Step
step name require = record {
  action = codes name;
  require = require;
  on_error = [];
  if_condition = [];
  only = [];
}

abbrev pub config : Config
config = record {
  project_name = codes "demo";
  project_modules = [];
  project_bin_dir = [];
  include = [];
  actions = action "build" ∷ action "test" ∷ action "lint" ∷ [];
  stages = [];
}

abbrev pub steps : List Step
steps = step "test" (codes "build" ∷ []) ∷ step "lint" [] ∷ step "build" [] ∷ []

abbrev looping : List Step
looping = step "test" (codes "build" ∷ []) ∷ step "build" (codes "test" ∷ []) ∷ []

abbrev or_empty : Built → Dag
or_empty (built dag) = dag
or_empty (failed _) = []

unfoldable pub graph : Dag
unfolding build_dag detect_cycles dfs each expand enter leave visit_unseen contains without str_eq
    Dict.lookup Dict.insert Dict.keys get_action find_action
graph = or_empty (build_dag config (λ ks. ks) (λ ks. ks) steps)

pub build_dag-steps : build_dag config (λ ks. ks) (λ ks. ks) steps ≡ built graph
unfolding graph
build_dag-steps = refl

build_dag-looping :
    build_dag config (λ ks. ks) (λ ks. ks) looping ≡ failed (circular_dependency (codes "test"))
unfolding graph
build_dag-looping = refl

build_dag-Explains_example : Explains config steps (build_dag config (λ ks. ks) (λ ks. ks) steps)
build_dag-Explains_example =
    build_dag-Explains config steps (λ ks. ks) (λ ks. ks) (λ ks k. refl) (λ ks k. refl)

pub plan : IsPlan config steps graph
plan =
    subst (Explains config steps) build_dag-steps
      (build_dag-Explains config steps (λ ks. ks) (λ ks. ks) (λ ks k. refl) (λ ks k. refl))

detect_cycles-Decides_example : Decides graph (detect_cycles (λ ks. ks) graph)
detect_cycles-Decides_example = detect_cycles-Decides graph plan.closed (λ ks. ks) (λ ks k. refl)
