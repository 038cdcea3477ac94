-- ===== src/Dag/Nodes.antt =====
-- The first loop of `buildDAG`: a node for each step.
use buildfab.Base.{
  Str, true, List, [], ◌∷◌, Option, none, some, ◌≡◌, sym, ap, inl, inr, arith, ◌||◌, is_some,
  str_eq, str_eq_refl, Bool-cases, Option-cases, if◌then◌else◌,
}
use buildfab.Base.Dict
use buildfab.Base.Dict.{lookup-insert, contains-keys}
use buildfab.Config.{Action, Step, Config, get_action}
use buildfab.Dag.{DagNode, Dag, new_node, built, failed, BuildError, action_not_found, add_nodes}

-- The choice between a step and the last later step of its name.
abbrev pub later_or : Str → Step → Option Step → Option Step
later_or k s (some t) = some t
later_or k s none = if str_eq s.action k then some s else none

-- The last step of that name: of two steps with one action the later one makes the node.
abbrev pub last_step : List Step → Str → Option Step
last_step [] k = none
last_step (s ∷ ss) k = later_or k s (last_step ss k)

pub later_or-is_some :
    (k : Str) (s : Step) (o : Option Step)
    → is_some (later_or k s o) ≡ (str_eq s.action k || is_some o)
later_or-is_some k s none = ground arith
later_or-is_some k s (some t) = ground arith

-- A node without its dependents, which `buildDAG` fills in behind the rest.
abbrev pub core : Option DagNode → Option DagNode
core none = none
core (some node) = some (record node { dependents = [] })

module _ (config : Config) where
  -- What the first loop leaves under a name, by the last step of that name.
  abbrev pub Placed : Option DagNode → Option DagNode → Option Step → Type 0
  Placed before after none = after ≡ before
  Placed before after (some s) =
      (a : Action) × (get_action config s.action ≡ some a) × (core after ≡ some (new_node s a))

  later_or-Placed :
      (dag : Dag) (k : Str) (s : Step) (a : Action) (after : Option DagNode) (o : Option Step)
      → get_action config s.action ≡ some a
      → Placed (Dict.lookup k (Dict.insert s.action (new_node s a) dag)) after o
      → Placed (Dict.lookup k dag) after (later_or k s o)
  later_or-Placed dag k s a after (some t) found h = h
  later_or-Placed dag k s a after none found h = elim (Bool-cases (str_eq s.action k)) [
    | inl same ↦ rw same (a, found, rw (h, lookup-insert, same))
    | inr other ↦ rw other (rw (h, lookup-insert, other))
  ]

  pub add_nodes-Placed :
      (steps : List Step) (dag dag' : Dag) (k : Str)
      → add_nodes config dag steps ≡ built dag'
      → Placed (Dict.lookup k dag) (Dict.lookup k dag') (last_step steps k)
  unfolding add_nodes
  add_nodes-Placed [] dag dag' k e = let same : dag ≡ dag' = cc in ap (Dict.lookup k) (sym same)
  add_nodes-Placed (s ∷ ss) dag dag' k e = elim (Option-cases (get_action config s.action)) [
    | inl absent ↦ cc (rw absent at e)
    | inr (a, found) ↦
        later_or-Placed dag k s a (Dict.lookup k dag') (last_step ss k) found
          (add_nodes-Placed ss (Dict.insert s.action (new_node s a) dag) dag' k (rw found at e))
  ]

  -- The error of the first loop names the action of a step, and no action has that name.
  pub add_nodes-failed :
      (steps : List Step) (dag : Dag) (x : BuildError)
      → add_nodes config dag steps ≡ failed x
      → (k : Str) × (x ≡ action_not_found k)
        × (get_action config k ≡ none)
        × (is_some (last_step steps k) ≡ true)
  unfolding add_nodes
  add_nodes-failed [] dag x e = cc
  add_nodes-failed (s ∷ ss) dag x e = elim (Option-cases (get_action config s.action)) [
    | inl absent ↦ (
      s.action,
      cc (rw absent at e),
      absent,
      cc (later_or-is_some s.action s (last_step ss s.action), str_eq_refl s.action),
    )
    | inr (a, found) ↦
        let (k, is, none_k, inn) =
          add_nodes-failed ss (Dict.insert s.action (new_node s a) dag) x (rw found at e) in
        (k, is, none_k, ground (arith, later_or-is_some k s (last_step ss k)))
  ]
