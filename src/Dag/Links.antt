-- ===== src/Dag/Links.antt =====
-- The second loop of `buildDAG`: it fills in the dependents and checks the dependencies.
use buildfab.Base.{
  Str, Bool, true, false, List, [], ◌∷◌, ◌++◌, Option, none, some, ◌≡◌, refl, sym, ◌∙◌, ◌⊎◌, inl,
  inr, arith, contains, is_some, str_eq, str_eq_iff, str_eq_refl, Bool-cases, subst,
}
use buildfab.Base.Dict
use buildfab.Base.Dict.{lookup-insert, contains-keys}
use buildfab.Dag.{
  DagNode, Dag, Built, built, failed, dependency_not_found, add_dependent, link_deps, link_node,
  link_all,
}
use buildfab.Dag.Walk.{Edge}
use buildfab.Dag.Nodes.{core}

-- The second loop changes no node but for its dependents.
pub record Linked (dag dag' : Dag) : Type 0 where
  pub same : (k : Str) → core (Dict.lookup k dag') ≡ core (Dict.lookup k dag)

Linked-refl : {dag : Dag} → Linked dag dag
Linked-refl = record { same = λ k. refl }

Linked-trans : {a b c : Dag} → Linked a b → Linked b c → Linked a c
Linked-trans p q = record { same = λ k. q.same k ∙ p.same k }

core-is_some : (o o' : Option DagNode) → core o ≡ core o' → is_some o ≡ is_some o'
core-is_some o o' e = ground arith

pub Linked-is_some :
    {dag dag' : Dag} (k : Str)
    → Linked dag dag'
    → is_some (Dict.lookup k dag') ≡ is_some (Dict.lookup k dag)
Linked-is_some {dag} {dag'} k l = core-is_some (Dict.lookup k dag') (Dict.lookup k dag) (l.same k)

add_dependent-cases :
    (dag : Dag) (dependent dep : Str) (o : Option DagNode) (r : Built)
    → Dict.lookup dep dag ≡ o
    → add_dependent dag dependent dep o ≡ r
    → ((r ≡ failed (dependency_not_found dep)) × (is_some (Dict.lookup dep dag) ≡ false))
      ⊎ ((dag' : Dag) × (r ≡ built dag') × Linked dag dag' × (is_some (Dict.lookup dep dag) ≡ true))
unfolding add_dependent
add_dependent-cases dag dependent dep none r l e = inl (sym e, rw l)
add_dependent-cases dag dependent dep (some node) r l e = inr (
  Dict.insert dep (record node { dependents = node.dependents ++ dependent ∷ [] }) dag,
  sym e,
  record {
    same = λ k. elim (Bool-cases (str_eq dep k)) [
      | inl same ↦ rw (lookup-insert, same) (rw (← (str_eq_iff dep k).0 same) (rw l))
      | inr other ↦ rw (lookup-insert, other)
    ];
  },
  rw l,
)

-- The loop over one node's dependencies: each is a node, or the first that is not is reported.
link_deps-cases :
    (dependent : Str) (deps : List Str) (dag : Dag) (r : Built)
    → link_deps dependent dag deps ≡ r
    → ((d : Str) × (r ≡ failed (dependency_not_found d))
        × (contains deps d ≡ true)
        × (is_some (Dict.lookup d dag) ≡ false))
      ⊎ ((dag' : Dag) × (r ≡ built dag')
          × Linked dag dag'
          × ((d : Str) → contains deps d ≡ true → is_some (Dict.lookup d dag) ≡ true))
unfolding link_deps contains
link_deps-cases dependent [] dag r e = inr (dag, sym e, Linked-refl, λ d h. cc)
link_deps-cases dependent (x ∷ deps) dag r e =
    elim (add_dependent-cases dag dependent x (Dict.lookup x dag) _ refl refl) [
      | inl (bad, absent) ↦ inl (x, sym (rw bad at e), cc (str_eq_refl x), absent)
      | inr (dag₁, good, linked, present) ↦
          elim (link_deps-cases dependent deps dag₁ r (rw good at e)) [
            | inl (d, is, inn, absent) ↦
                inl (d, is, ground arith, sym (Linked-is_some d linked) ∙ absent)
            | inr (dag', is, l, all) ↦ inr (
              dag',
              is,
              Linked-trans linked l,
              λ d h. elim (Bool-cases (str_eq x d)) [
                | inl same ↦
                    subst (λ (w : Str). is_some (Dict.lookup w dag) ≡ true)
                      ((str_eq_iff x d).0 same) present
                | inr other ↦ sym (Linked-is_some d linked) ∙ all d (ground arith)
              ],
            )
          ]
    ]

core-dependencies :
    (o o' : Option DagNode) (node : DagNode)
    → core o' ≡ core o
    → o ≡ some node
    → (node' : DagNode) × (o' ≡ some node') × (node'.dependencies ≡ node.dependencies)
core-dependencies none o' node e h = cc
core-dependencies (some n) none node e h = cc
core-dependencies (some n) (some n') node e h = (n', refl, ground arith)

pub Edge-Linked : {dag dag' : Dag} (u v : Str) → Linked dag dag' → Edge dag u v → Edge dag' u v
Edge-Linked {dag} {dag'} u v l e =
    let (node', found, deps) =
      core-dependencies (Dict.lookup u dag) (Dict.lookup u dag') e.node (l.same u) e.found in
    record {
      node = node';
      found = found;
      named = subst (λ (ds : List Str). contains ds v ≡ true) (sym deps) e.named;
    }

pub Linked-sym : {dag dag' : Dag} → Linked dag dag' → Linked dag' dag
Linked-sym l = record { same = λ k. sym (l.same k) }

-- The loop reports a dependency that is no node.
pub record Dangling (dag : Dag) (r : Built) : Type 0 where
  pub from : Str
  pub to : Str
  pub is : r ≡ failed (dependency_not_found to)
  pub edge : Edge dag from to
  pub absent : is_some (Dict.lookup to dag) ≡ false

-- Of the nodes that `which` selects, all dependencies are nodes.
pub record Fastened (dag : Dag) (which : Str → Bool) (r : Built) : Type 0 where
  pub result : Dag
  pub is : r ≡ built result
  pub linked : Linked dag result
  pub present : (u v : Str) → which u ≡ true → Edge dag u v → is_some (Dict.lookup v dag) ≡ true

link_node-cases :
    (dag : Dag) (u : Str) (o : Option DagNode) (r : Built)
    → Dict.lookup u dag ≡ o
    → link_node dag o ≡ r
    → Dangling dag r ⊎ Fastened dag (str_eq u) r
unfolding link_node
link_node-cases dag u none r l e = inr (record {
  result = dag;
  is = sym e;
  linked = Linked-refl;
  present = λ w v at_w edge.
      let same = (str_eq_iff u w).0 at_w in
      cc (subst (λ (k : Str). Dict.lookup k dag ≡ none) same l, edge.found);
})
link_node-cases dag u (some node) r l e =
    elim (link_deps-cases node.step.action node.dependencies dag r e) [
      | inl (d, is, inn, absent) ↦ inl (record {
        from = u;
        to = d;
        is = is;
        edge = record { node = node; found = l; named = inn };
        absent = absent;
      })
      | inr (dag', is, linked, all) ↦ inr (record {
        result = dag';
        is = is;
        linked = linked;
        present = λ w v at_w edge.
            let here =
              subst (λ (k : Str). Dict.lookup k dag ≡ some node) ((str_eq_iff u w).0 at_w) l in
            let same : edge.node ≡ node = cc (here, edge.found) in
            all v (subst (λ (n : DagNode). contains n.dependencies v ≡ true) same edge.named);
      })
    ]

pub link_all-cases :
    (names : List Str) (dag : Dag) (r : Built)
    → link_all dag names ≡ r
    → Dangling dag r ⊎ Fastened dag (contains names) r
unfolding link_all contains
link_all-cases [] dag r e =
    inr (record { result = dag; is = sym e; linked = Linked-refl; present = λ u v h edge. cc })
link_all-cases (x ∷ names) dag r e = elim (link_node-cases dag x (Dict.lookup x dag) _ refl refl) [
  | inl bad ↦ inl (record {
    from = bad.from;
    to = bad.to;
    is = sym (rw bad.is at e);
    edge = bad.edge;
    absent = bad.absent;
  })
  | inr good ↦ elim (link_all-cases names good.result r (rw good.is at e)) [
    | inl bad ↦ inl (record {
      from = bad.from;
      to = bad.to;
      is = bad.is;
      edge = Edge-Linked bad.from bad.to (Linked-sym good.linked) bad.edge;
      absent = sym (Linked-is_some bad.to good.linked) ∙ bad.absent;
    })
    | inr rest ↦ inr (record {
      result = rest.result;
      is = rest.is;
      linked = Linked-trans good.linked rest.linked;
      present = λ u v h edge. elim (Bool-cases (str_eq x u)) [
        | inl here ↦ good.present u v here edge
        | inr other ↦
            sym (Linked-is_some v good.linked)
            ∙ rest.present u v (ground arith) (Edge-Linked u v good.linked edge)
      ];
    })
  ]
]
