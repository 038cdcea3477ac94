-- ===== src/Dag/Searching.antt =====
-- One search of `detectCycles`: a node that it finishes is on no cycle, and the node that an error
-- names is on one.

use buildfab.Base.{
  ℕ, zero, suc, Str, true, false, List, [], ◌∷◌, Option, none, some, ◌≡◌, refl, sym, ◌∙◌, ap, ◌⊎◌,
  inl, inr, arith, contains, without, without_absent, str_eq, str_eq_iff, str_eq_refl, Bool-cases,
  subst,
}
use buildfab.Base.Dict
use buildfab.Dag.{
  DagNode, Dag, Marks, Search, done, cycle, nil_node, out_of_fuel, enter, leave, and_then, each,
  expand, dfs,
}
use buildfab.Dag.Walk.{Edge, Walk, one, more}
use buildfab.Dag.Marking.{
  Finished, Good, After, After-refl, Meets, each-Meets, Good-enter, Good-leave,
}

without-eq :
    (n : Str) (stack whole : List Str)
    → contains stack n ≡ false
    → whole ≡ n ∷ stack
    → without n whole ≡ stack
without-eq n stack whole off e =
    rw e (unfold without in ground (arith, str_eq_refl n, without_absent n stack))

module _ (dag : Dag) where
  pub dfs_on_stack :
      (fuel : ℕ) (n : Str) (m : Marks)
      → contains m.rec_stack n ≡ true
      → dfs (suc fuel) dag n m ≡ cycle n
  unfolding dfs
  dfs_on_stack fuel n m h = ground arith

  pub dfs_visited :
      (fuel : ℕ) (n : Str) (m : Marks)
      → contains m.rec_stack n ≡ false
      → contains m.visited n ≡ true
      → dfs (suc fuel) dag n m ≡ done m
  unfolding dfs
  dfs_visited fuel n m h k = ground arith

  pub dfs_new :
      (fuel : ℕ) (n : Str) (m : Marks)
      → contains m.rec_stack n ≡ false
      → contains m.visited n ≡ false
      → dfs (suc fuel) dag n m ≡ expand (dfs fuel dag) n (Dict.lookup n dag) m
  unfolding dfs
  dfs_new fuel n m h k = ground arith

  leave-eq-done :
      (n : Str) (r : Search) {m' : Marks}
      → leave n r ≡ done m'
      → (m : Marks) × (r ≡ done m) × (record m { rec_stack = without n m.rec_stack } ≡ m')
  unfolding leave
  leave-eq-done n (done m) e = (m, refl, cc)
  leave-eq-done n (cycle k) e = cc
  leave-eq-done n (nil_node k) e = cc
  leave-eq-done n out_of_fuel e = cc

  expand-Meets :
      (call : Str → Marks → Search)
      → ((stack : List Str) → Meets dag stack call)
      → (n : Str) (o : Option DagNode) (m m' : Marks) → Dict.lookup n dag ≡ o
      → contains m.rec_stack n ≡ false
      → contains m.visited n ≡ false
      → Good dag m
      → expand call n o m ≡ done m'
      → After dag m m' × Finished m' n
  unfolding expand enter contains
  expand-Meets call meets n none m m' l off fresh g e = cc
  expand-Meets call meets n (some node) m m' l off fresh g e =
      let (m₂, ran, left) = leave-eq-done n (each call node.dependencies (enter n m)) e in
      let (a, all) =
        each-Meets dag (n ∷ m.rec_stack) call (meets (n ∷ m.rec_stack)) node.dependencies
          (enter n m) m₂ refl (Good-enter dag n m fresh g) ran in
      let seen = a.visits n (cc (str_eq_refl n)) in
      let stack = without-eq n m.rec_stack m₂.rec_stack off a.stack in
      let ends : record m₂ { rec_stack = m.rec_stack } ≡ m' =
        ap (λ s. record m₂ { rec_stack = s }) (sym stack) ∙ left in
      subst (λ (k : Marks). After dag m k × Finished k n) ends
        (
          record {
            stack = refl;
            visits = λ u h. a.visits u (ground arith);
            good = Good-leave dag n node l m₂ m.rec_stack a.stack seen off all a.good;
          },
          (seen, off),
        )

  pub dfs-Meets : (fuel : ℕ) (stack : List Str) → Meets dag stack (dfs fuel dag)
  dfs-Meets zero stack n m m' on g e = unfold dfs in cc
  dfs-Meets (suc fuel) stack n m m' on g e = elim (Bool-cases (contains m.rec_stack n)) [
    | inl stacked ↦ cc (dfs_on_stack fuel n m stacked)
    | inr off ↦ elim (Bool-cases (contains m.visited n)) [
      | inl seen ↦
          let same : m ≡ m' = cc (dfs_visited fuel n m off seen) in
          subst (λ (k : Marks). After dag m k × Finished k n) same (After-refl dag g, (seen, off))
      | inr fresh ↦
          expand-Meets (dfs fuel dag) (dfs-Meets fuel) n (Dict.lookup n dag) m m' refl off fresh g
            (sym (dfs_new fuel n m off fresh) ∙ e)
    ]
  ]

  -- At an error, the node that it names stands on a cycle, if every node on the recursion stack
  -- leads to the node that the call visits.
  abbrev pub Finds : (Str → Marks → Search) → Type 0
  Finds call =
      (n k : Str) (m : Marks)
      → Good dag m
      → ((s : Str) → contains m.rec_stack s ≡ true → Walk dag s n)
      → call n m ≡ cycle k
      → Walk dag k k

  and_then-eq-cycle :
      (r : Search) (f : Marks → Search) {k : Str}
      → and_then r f ≡ cycle k
      → (r ≡ cycle k) ⊎ ((m : Marks) × (r ≡ done m) × (f m ≡ cycle k))
  and_then-eq-cycle (done m) f h = inr (m, refl, h)
  and_then-eq-cycle (cycle k) f h = inl h
  and_then-eq-cycle (nil_node k) f h = cc
  and_then-eq-cycle out_of_fuel f h = cc

  pub each-Finds :
      (stack : List Str) (call : Str → Marks → Search)
      → Meets dag stack call
      → Finds call
      → (ns : List Str) (k : Str) (m : Marks) → m.rec_stack ≡ stack
      → Good dag m
      → ((s d : Str) → contains m.rec_stack s ≡ true → contains ns d ≡ true → Walk dag s d)
      → each call ns m ≡ cycle k
      → Walk dag k k
  unfolding each contains
  each-Finds stack call meets finds [] k m same g leads e = cc
  each-Finds stack call meets finds (x ∷ ns) k m same g leads e =
      elim (and_then-eq-cycle (call x m) (each call ns) e) [
        | inl here ↦ finds x k m g (λ s on. leads s x on (cc (str_eq_refl x))) here
        | inr (m₁, called, rest) ↦
            let (a, _) = meets x m m₁ same g called in
            each-Finds stack call meets finds ns k m₁ (a.stack ∙ same) a.good
              (λ s d on inn.
                leads s d (subst (λ (l : List Str). contains l s ≡ true) a.stack on) (ground arith))
              rest
      ]

  leave-eq-cycle : (n : Str) (r : Search) {k : Str} → leave n r ≡ cycle k → r ≡ cycle k
  unfolding leave
  leave-eq-cycle n (done m) e = cc
  leave-eq-cycle n (cycle k) e = e
  leave-eq-cycle n (nil_node k) e = cc
  leave-eq-cycle n out_of_fuel e = cc

  expand-Finds :
      (call : Str → Marks → Search)
      → ((stack : List Str) → Meets dag stack call)
      → Finds call
      → (n : Str) (o : Option DagNode) (k : Str) (m : Marks) → Dict.lookup n dag ≡ o
      → contains m.visited n ≡ false
      → Good dag m
      → ((s : Str) → contains m.rec_stack s ≡ true → Walk dag s n)
      → expand call n o m ≡ cycle k
      → Walk dag k k
  unfolding expand enter contains
  expand-Finds call meets finds n none k m l fresh g leads e = cc
  expand-Finds call meets finds n (some node) k m l fresh g leads e =
      each-Finds (n ∷ m.rec_stack) call (meets (n ∷ m.rec_stack)) finds node.dependencies k
        (enter n m) refl (Good-enter dag n m fresh g)
        (λ s d on inn.
          let last : Edge dag n d = record { node = node; found = l; named = inn } in
          elim (Bool-cases (str_eq n s)) [
            | inl same ↦ one (subst (λ (w : Str). Edge dag w d) ((str_eq_iff n s).0 same) last)
            | inr other ↦ more (leads s (ground arith)) last
          ])
        (leave-eq-cycle n _ e)

  pub dfs-Finds : (fuel : ℕ) → Finds (dfs fuel dag)
  dfs-Finds zero n k m g leads e = unfold dfs in cc
  dfs-Finds (suc fuel) n k m g leads e = elim (Bool-cases (contains m.rec_stack n)) [
    | inl stacked ↦
        let same : n ≡ k = cc (dfs_on_stack fuel n m stacked) in
        subst (λ (w : Str). Walk dag w w) same (leads n stacked)
    | inr off ↦ elim (Bool-cases (contains m.visited n)) [
      | inl seen ↦ cc (dfs_visited fuel n m off seen)
      | inr fresh ↦
          expand-Finds (dfs fuel dag) (dfs-Meets fuel) (dfs-Finds fuel) n (Dict.lookup n dag) k m
            refl fresh g leads (sym (dfs_new fuel n m off fresh) ∙ e)
    ]
  ]
