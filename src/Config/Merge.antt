-- ===== src/Config/Merge.antt =====
-- Included configurations: `mergeConfig` of internal/config/config.go and internal/config/include.go,
-- which the end of `loadAndMergeFile` of pkg/buildfab/config.go repeats.
use buildfab.Base.{
  ◌≤◌, Str, List, [], ◌∷◌, map, Option, none, some, str_eq, str_eq_iff, count, count-cons, contains,
  absent-count, if◌then◌else◌, ◌≡◌, arith,
}
use buildfab.Base.Dict
use buildfab.Base.Dict.{Dict}
use buildfab.Config.{Action, Stage, Config}

-- The loop over the actions that are there: the first one of that name is replaced, and otherwise
-- the action is appended.
unfoldable pub put_action : Action → List Action → List Action
put_action a [] = a ∷ []
put_action a (b ∷ actions) =
    let rest = put_action a actions in if str_eq b.name a.name then a ∷ actions else b ∷ rest

unfoldable pub merge_actions : List Action → List Action → List Action
merge_actions actions [] = actions
merge_actions actions (a ∷ included) = merge_actions (put_action a actions) included

-- The included stages in the order in which their map is ranged over.
unfoldable pub merge_stages : Dict Stage → Dict Stage → Dict Stage
merge_stages stages [] = stages
merge_stages stages ((name, stage) ∷ included) =
    merge_stages (Dict.insert name stage stages) included

unfoldable pub merge_config : Config → List Action → Dict Stage → Config
merge_config c actions stages = record c {
  actions = merge_actions c.actions actions;
  stages = merge_stages c.stages stages;
}

abbrev pub action_names : List Action → List Str
action_names actions = map (λ a. a.name) actions

-- The later of two.
abbrev pub override {ℓ} : {A : Type ℓ} → Option A → Option A → Option A
override earlier (some a) = some a
override earlier none = earlier

-- The last action of that name.
unfoldable pub last_action : List Action → Str → Option Action
last_action [] n = none
last_action (a ∷ actions) n =
    override (if str_eq a.name n then some a else none) (last_action actions n)

unfoldable pub last_stage : Dict Stage → Str → Option Stage
last_stage [] n = none
last_stage ((name, stage) ∷ stages) n =
    override (if str_eq name n then some stage else none) (last_stage stages n)

-- How often a name is found when an action is put.
count-put_action :
    (a : Action) (actions : List Action) (n : Str)
    → count (action_names (put_action a actions)) n ≡ (
        if contains (action_names actions) a.name
        then count (action_names actions) n
        else count (a.name ∷ action_names actions) n)
unfolding put_action count contains
count-put_action a [] n = ground arith
count-put_action a (b ∷ actions) n = ground (
  arith,
  count-put_action a actions n,
  str_eq_iff b.name a.name,
  str_eq_iff b.name n,
  str_eq_iff a.name n,
)

pub once-merge_actions :
    (actions included : List Action)
    → ((n : Str) → count (action_names actions) n ≤ 1)
    → (n : Str) → count (action_names (merge_actions actions included)) n ≤ 1
unfolding merge_actions
once-merge_actions actions [] once n = once n
once-merge_actions actions (a ∷ included) once n =
    once-merge_actions (put_action a actions) included
      (λ m. ground (
        arith,
        once m,
        count-put_action a actions m,
        count-cons a.name (action_names actions) m,
        absent-count (action_names actions) m,
        str_eq_iff a.name m,
      ))
      n
