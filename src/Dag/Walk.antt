-- ===== src/Dag/Walk.antt =====
-- The graph that `detectCycles` searches: the edges, and the walks of one edge or more.
use buildfab.Base.{Str, ◌≡◌, true, some, contains}
use buildfab.Base.Dict
use buildfab.Dag.{DagNode, Dag}

-- `v` is a dependency of the node named `u`.
pub record Edge (dag : Dag) (u v : Str) : Type 0 where
  pub node : DagNode
  pub found : Dict.lookup u dag ≡ some node
  pub named : contains node.dependencies v ≡ true

pub data Walk (dag : Dag) (u : Str) : Str → Type 0 where
  one : {v : Str} → Edge dag u v → Walk dag u v
  more : {v w : Str} → Walk dag u v → Edge dag v w → Walk dag u w

-- Every dependency is the name of a node.
abbrev pub IsClosed : Dag → Type 0
IsClosed dag = (u v : Str) → Edge dag u v → (node : DagNode) × (Dict.lookup v dag ≡ some node)

-- No node depends on itself, directly or through others.
abbrev pub IsAcyclic : Dag → Type 0
IsAcyclic dag = (u : Str) → ¬ Walk dag u u
