-- ===== src/Executor/Candidate.antt =====
-- On a graph without cycles, where some node is not completed, some such node has all its dependencies
-- completed.
use buildfab.Base.{
  ℕ, zero, suc, Str, true, false, List, [], ◌∷◌, Option, none, some, ◌≡◌, refl, sym, ◌∙◌, ap, ◌⊎◌,
  inl, inr, arith, contains, ◌<◌, subst, Bool-cases, length, is_some, str_eq, str_eq_iff,
  str_eq_refl,
}
use buildfab.Base.Dict
use buildfab.Base.Dict.{contains-keys}
use buildfab.Dag.{Dag, DagNode}
use buildfab.Dag.Walk.{Edge, Walk, one, more, IsClosed, IsAcyclic}
use buildfab.Dag.Fuel.{unvisited, unvisited_le, unvisited-cons}
use buildfab.Executor.{all_dependencies_completed, dependencies_of}
use buildfab.Executor.Invariant.{requires}

undone_dependency :
    (deps completed : List Str)
    → all_dependencies_completed deps completed ≡ false
    → (d : Str) × (contains deps d ≡ true) × (contains completed d ≡ false)
unfolding all_dependencies_completed contains
undone_dependency [] completed h = cc
undone_dependency (d ∷ deps) completed h = elim (Bool-cases (contains completed d)) [
  | inl done ↦
      let (m, named, open_) = undone_dependency deps completed (ground arith) in
      (m, ground arith, open_)
  | inr undone ↦ (d, rw (str_eq_refl d) refl, undone)
]

pub not_below : (k : ℕ) → ¬ (k < 0)
not_below k h = omega (arith, h)

module _ (dag : Dag) (closed_graph : IsClosed dag) (acyclic : IsAcyclic dag)
    (completed : List Str) where
  -- A node that is not completed and whose dependencies are.
  abbrev pub Candidate : Type 0
  Candidate =
      (m : Str) × (contains (Dict.keys dag) m ≡ true)
      × (contains completed m ≡ false)
      × (all_dependencies_completed (requires dag m) completed ≡ true)

  step_Edge :
      (n d : Str)
      → contains (Dict.keys dag) n ≡ true
      → contains (requires dag n) d ≡ true
      → Edge dag n d
  step_Edge n d inn named = of (Dict.lookup n dag) refl (sym (contains-keys dag n) ∙ inn)
    where
      of : (x : Option DagNode) → Dict.lookup n dag ≡ x → is_some x ≡ true → Edge dag n d
      of none l h = cc
      of (some node) l h = record {
        node = node;
        found = l;
        named = sym (ap (λ (y : Option DagNode). contains (dependencies_of y) d) l) ∙ named;
      }

  -- Going from a node to a dependency that is not completed never comes back to `path`.
  descend :
      (fuel : ℕ) (path : List Str) (n : Str)
      → contains (Dict.keys dag) n ≡ true
      → contains completed n ≡ false
      → ((m : Str) → contains path m ≡ true → Walk dag m n)
      → unvisited (Dict.keys dag) path < fuel
      → Candidate
  unfolding contains
  descend zero path n inn undone walks fits =
      absurd (not_below (unvisited (Dict.keys dag) path) fits)
  descend (suc fuel) path n inn undone walks fits =
      elim (Bool-cases (all_dependencies_completed (requires dag n) completed)) [
        | inl met ↦ (n, inn, undone, met)
        | inr unmet ↦
            let (d, named, open_) = undone_dependency (requires dag n) completed unmet in
            let edge = step_Edge n d inn named in
            let (node, found) = closed_graph n d edge in
            descend fuel (n ∷ path) d (contains-keys dag d ∙ ap (is_some {A = DagNode}) found) open_
              (λ m on. further d edge m (Bool-cases (str_eq n m)) on)
              (omega (arith, fits, unvisited-cons (Dict.keys dag) path n inn off))
      ]
    where
      off : contains path n ≡ false
      off = elim (Bool-cases (contains path n)) [
        | inl on ↦ absurd (acyclic n (walks n on))
        | inr out ↦ out
      ]

      further :
          (d : Str)
          → Edge dag n d
          → (m : Str) → (str_eq n m ≡ true) ⊎ (str_eq n m ≡ false)
          → contains (n ∷ path) m ≡ true
          → Walk dag m d
      further d edge m (inl is) on =
          subst (λ (k : Str). Walk dag k d) ((str_eq_iff n m).0 is) (one edge)
      further d edge m (inr other) on = more (walks m (ground arith)) edge

  pub candidate :
      (n : Str) → contains (Dict.keys dag) n ≡ true → contains completed n ≡ false → Candidate
  unfolding contains
  candidate n inn undone =
      descend (suc (length (Dict.keys dag))) [] n inn undone (λ m on. cc)
        (omega (arith, unvisited_le (Dict.keys dag) []))
