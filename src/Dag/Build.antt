-- ===== src/Dag/Build.antt =====
-- What `buildDAG` returns, on every outcome.
use buildfab.Base.{
  Str, true, false, List, [], Option, none, some, ◌≡◌, refl, ◌∙◌, ap, ◌⊎◌, inl, inr, is_some,
}
use buildfab.Base.Dict
use buildfab.Base.Dict.{lookup-insert, contains-keys}
use buildfab.Config.{Step, Config, get_action}
use buildfab.Dag.{
  DagNode, Dag, Built, built, failed, BuildError, action_not_found, dependency_not_found,
  circular_dependency, nil_dereference, ran_out, bind_built, add_nodes, link_all, checked,
  build_dag, Search, done, cycle, nil_node, out_of_fuel, detect_cycles,
}
use buildfab.Dag.Walk.{Edge, Walk, IsClosed, IsAcyclic}
use buildfab.Dag.Nodes.{core, Placed, last_step, add_nodes-Placed, add_nodes-failed}
use buildfab.Dag.Links.{Linked, Linked-is_some, Linked-sym, Edge-Linked, link_all-cases}
use buildfab.Dag.Cycles.{IsRange, Decides, detect_cycles-Decides}

Built-cases : (r : Built) → ((x : BuildError) × (r ≡ failed x)) ⊎ ((dag : Dag) × (r ≡ built dag))
Built-cases (built dag) = inr (dag, refl)
Built-cases (failed x) = inl (x, refl)

module _ (config : Config) (steps : List Step) where
  -- The graph that the steps describe, by name, with every check of `buildDAG` passed.
  pub record IsPlan (dag : Dag) : Type 0 where
    pub nodes : (k : Str) → Placed config none (Dict.lookup k dag) (last_step steps k)
    pub closed : IsClosed dag
    pub acyclic : IsAcyclic dag

  -- A graph under construction: the nodes of the steps, not yet checked.
  pub record IsDraft (dag : Dag) : Type 0 where
    pub nodes : (k : Str) → Placed config none (Dict.lookup k dag) (last_step steps k)

  -- What each outcome means.
  abbrev pub Explains : Built → Type 0
  Explains (built dag) = IsPlan dag
  Explains (failed (action_not_found k)) =
      (get_action config k ≡ none) × (is_some (last_step steps k) ≡ true)
  Explains (failed (dependency_not_found d)) =
      (dag : Dag) × IsDraft dag × ((u : Str) × Edge dag u d) × (Dict.lookup d dag ≡ none)
  Explains (failed (circular_dependency n)) = (dag : Dag) × IsDraft dag × Walk dag n n
  Explains (failed (nil_dereference n)) = ⊥
  Explains (failed ran_out) = ⊥

  Placed-Linked :
      (o o' : Option DagNode) (l : Option Step)
      → core o' ≡ core o
      → Placed config none o l
      → Placed config none o' l
  Placed-Linked none none none e h = refl
  Placed-Linked none (some n) none e h = cc
  Placed-Linked (some n) o' none e h = cc
  Placed-Linked o o' (some s) e (a, found, is) = (a, found, e ∙ is)

  IsDraft-Linked : {dag dag' : Dag} → Linked dag dag' → IsDraft dag → IsDraft dag'
  IsDraft-Linked {dag} {dag'} l d = record {
    nodes = λ k.
        Placed-Linked (Dict.lookup k dag) (Dict.lookup k dag') (last_step steps k) (l.same k)
          (d.nodes k);
  }

  is_some-eq-true : (o : Option DagNode) → is_some o ≡ true → (n : DagNode) × (o ≡ some n)
  is_some-eq-true none h = cc
  is_some-eq-true (some n) h = (n, refl)

  is_some-eq-false : (o : Option DagNode) → is_some o ≡ false → o ≡ none
  is_some-eq-false none h = refl
  is_some-eq-false (some n) h = cc

  checked-Explains :
      (dag : Dag) (r : Search)
      → IsDraft dag
      → IsClosed dag
      → Decides dag r
      → Explains (checked dag r)
  unfolding checked
  checked-Explains dag (done m) draft closed h = record {
    nodes = draft.nodes;
    closed = closed;
    acyclic = h;
  }
  checked-Explains dag (cycle n) draft closed h = (dag, draft, h)
  checked-Explains dag (nil_node n) draft closed h = h
  checked-Explains dag out_of_fuel draft closed h = h

  module _ (range₁ range₂ : List Str → List Str) (visits₁ : IsRange range₁)
      (visits₂ : IsRange range₂) where
    linked-Explains :
        (dag : Dag)
        → IsDraft dag
        → Explains (
            bind_built
              (link_all dag (range₁ (Dict.keys dag)))
              (λ linked. checked linked (detect_cycles range₂ linked)))
    linked-Explains dag draft = elim (link_all-cases (range₁ (Dict.keys dag)) dag _ refl) [
      | inl bad ↦
          rw bad.is
            (dag, draft, (bad.from, bad.edge), is_some-eq-false (Dict.lookup bad.to dag) bad.absent)
      | inr good ↦
          let closed : IsClosed good.result = λ u v edge.
            let old = Edge-Linked u v (Linked-sym good.linked) edge in
            is_some-eq-true (Dict.lookup v good.result) (
              Linked-is_some v good.linked
              ∙ good.present u v
                  (visits₁ (Dict.keys dag) u
                    ∙ contains-keys dag u
                    ∙ ap (is_some {A = DagNode}) old.found)
                  old) in
          rw good.is (
            checked-Explains good.result (detect_cycles range₂ good.result)
              (IsDraft-Linked good.linked draft) closed
              (detect_cycles-Decides good.result closed range₂ visits₂))
    ]

    -- For every configuration, every list of steps and every order of the two ranges over the map: a
    -- graph that buildDAG returns has, under each name, the last step with that action, its action
    -- and its require list as dependencies, all of them nodes, and has no cycle; an error for an
    -- unknown action names an action that a step names and the configuration lacks; an error for an
    -- unknown dependency names a required name that is no node; an error for a cycle names a node on
    -- a cycle; and it neither dereferences nil nor fails to return.
    pub build_dag-Explains : Explains (build_dag config range₁ range₂ steps)
    unfolding build_dag Dict.lookup
    build_dag-Explains = elim (Built-cases (add_nodes config [] steps)) [
      | inl (x, e) ↦
          let (k, is, absent, named) = add_nodes-failed config steps [] x e in
          rw (e, is) (absent, named)
      | inr (dag, e) ↦
          rw e
            (linked-Explains dag (record { nodes = λ k. add_nodes-Placed config steps [] dag k e }))
    ]
