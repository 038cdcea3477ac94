-- ===== src/Dag/Cycles.antt =====
-- `detectCycles` returns on every graph that `buildDAG` hands it, and tells exactly whether the
-- graph has a cycle.
use buildfab.Base.{
  ℕ, suc, Str, true, List, [], ◌≡◌, refl, sym, ◌∙◌, inl, inr, arith, contains, length, Bool-cases,
  subst, is_some, ap,
}
use buildfab.Base.Dict
use buildfab.Base.Dict.{contains-keys}
use buildfab.Dag.{
  DagNode, Dag, Marks, unmarked, Search, done, cycle, nil_node, out_of_fuel, each, dfs,
  visit_unseen, detect_cycles,
}
use buildfab.Dag.Walk.{Walk, one, more, IsClosed, IsAcyclic}
use buildfab.Dag.Marking.{Finished, Good, After, After-refl, Meets, each-Meets}
use buildfab.Dag.Searching.{Finds, each-Finds, dfs-Meets, dfs-Finds}
use buildfab.Dag.Fuel.{IsOutcome, unvisited_le, Returns, each-Returns, dfs-Returns}

-- The order of a range over a map visits the keys of the map and nothing else.
abbrev pub IsRange : (List Str → List Str) → Type 0
IsRange range = (ks : List Str) (k : Str) → contains (range ks) k ≡ contains ks k

-- The three answers of a search: no cycle, or a node on a cycle. The others do not arise.
abbrev pub Decides : Dag → Search → Type 0
Decides dag (done _) = IsAcyclic dag
Decides dag (cycle n) = Walk dag n n
Decides dag (nil_node _) = ⊥
Decides dag out_of_fuel = ⊥

Good-unmarked : (dag : Dag) → Good dag unmarked
unfolding contains
Good-unmarked dag = record { closed = λ u v f e. cc; acyclic = λ u f w. cc (f.0) }

module _ (dag : Dag) where
  visit_unseen-Meets :
      (call : Str → Marks → Search) → Meets dag [] call → Meets dag [] (visit_unseen call)
  unfolding visit_unseen contains
  visit_unseen-Meets call meets n m m' on g e = elim (Bool-cases (contains m.visited n)) [
    | inl seen ↦
        let same : m ≡ m' = cc (rw (seen, visit_unseen) at e) in
        subst (λ (k : Marks). After dag m k × Finished k n) same
          (After-refl dag g, (seen, rw on refl))
    | inr fresh ↦ meets n m m' on g (rw (fresh, visit_unseen) at e)
  ]

  visit_unseen-Finds :
      (call : Str → Marks → Search) → Finds dag call → Finds dag (visit_unseen call)
  unfolding visit_unseen
  visit_unseen-Finds call finds n k m g leads e = elim (Bool-cases (contains m.visited n)) [
    | inl seen ↦ cc (rw (seen, visit_unseen) at e)
    | inr fresh ↦ finds n k m g leads (rw (fresh, visit_unseen) at e)
  ]

  visit_unseen-Returns :
      (closed : IsClosed dag) (bound : ℕ) (call : Str → Marks → Search)
      → Returns dag closed bound call
      → Returns dag closed bound (visit_unseen call)
  unfolding visit_unseen
  visit_unseen-Returns closed bound call returns n m g inn fits =
      elim (Bool-cases (contains m.visited n)) [
        | inl seen ↦ rw seen tt
        | inr fresh ↦ rw fresh (returns n m g inn fits)
      ]

  Walk-source : {u v : Str} → Walk dag u v → contains (Dict.keys dag) u ≡ true
  Walk-source {u} (one e) = contains-keys dag u ∙ ap (is_some {A = DagNode}) e.found
  Walk-source (more w e) = Walk-source w

  module _ (closed : IsClosed dag) (range : List Str → List Str) (visits : IsRange range) where
    abbrev fuel : ℕ
    fuel = suc (length (Dict.keys dag))

    abbrev call : Str → Marks → Search
    call = visit_unseen (dfs fuel dag)

    abbrev order : List Str
    order = range (Dict.keys dag)

    call-Meets : Meets dag [] call
    call-Meets = visit_unseen-Meets (dfs fuel dag) (dfs-Meets dag fuel [])

    Decides-outcome : (r : Search) → each call order unmarked ≡ r → IsOutcome r → Decides dag r
    unfolding contains
    Decides-outcome (done m) e h = λ u w.
        let (a, all) =
          each-Meets dag [] call call-Meets order unmarked m refl (Good-unmarked dag) e in
        a.good.acyclic u (all u (visits (Dict.keys dag) u ∙ Walk-source w)) w
    Decides-outcome (cycle n) e h =
        each-Finds dag [] call call-Meets (visit_unseen-Finds (dfs fuel dag) (dfs-Finds dag fuel))
          order n unmarked refl (Good-unmarked dag) (λ s d on inn. cc) e
    Decides-outcome (nil_node n) e h = h
    Decides-outcome out_of_fuel e h = h

    -- On a graph whose dependencies are all nodes, in whatever order the map is ranged over,
    -- detectCycles returns within its fuel and with no nil dereference, reports no error only if the
    -- graph is acyclic, and the node that an error names lies on a cycle.
    pub detect_cycles-Decides : Decides dag (detect_cycles range dag)
    unfolding detect_cycles
    detect_cycles-Decides = Decides-outcome (each call order unmarked) refl (
        each-Returns dag closed fuel [] call call-Meets
          (visit_unseen-Returns closed fuel (dfs fuel dag) (dfs-Returns dag closed fuel)) order
          unmarked refl (Good-unmarked dag) (λ n inn. sym (visits (Dict.keys dag) n) ∙ inn)
          (omega (arith, unvisited_le (Dict.keys dag) [])))
