-- ===== src/Dag/Marking.antt =====
-- What one call of the depth-first search of `detectCycles` does to the two maps when it returns
-- no error.
use buildfab.Base.{
  Str, true, false, List, [], ◌∷◌, some, ◌≡◌, refl, sym, ◌∙◌, ap, ◌⊎◌, inl, inr, arith, contains,
  contains-cons, str_eq, str_eq_iff, str_eq_refl, Bool-cases, subst,
}
use buildfab.Base.Dict
use buildfab.Dag.{
  DagNode, Dag, Marks, Search, done, cycle, nil_node, out_of_fuel, enter, and_then, each,
}
use buildfab.Dag.Walk.{Edge, Walk, one, more}

-- The search from `u` is over.
abbrev pub Finished : Marks → Str → Type 0
Finished m u = (contains m.visited u ≡ true) × (contains m.rec_stack u ≡ false)

module _ (dag : Dag) where
  -- What is finished depends only on what is finished, and lies on no cycle.
  pub record Good (m : Marks) : Type 0 where
    pub closed : (u v : Str) → Finished m u → Edge dag u v → Finished m v
    pub acyclic : (u : Str) → Finished m u → ¬ Walk dag u u

  pub record After (m m' : Marks) : Type 0 where
    pub stack : m'.rec_stack ≡ m.rec_stack
    pub visits : (u : Str) → contains m.visited u ≡ true → contains m'.visited u ≡ true
    pub good : Good m'

  pub After-refl : {m : Marks} → Good m → After m m
  After-refl g = record { stack = refl; visits = λ u h. h; good = g }

  pub After-trans : {m m' m'' : Marks} → After m m' → After m' m'' → After m m''
  After-trans a b = record {
    stack = b.stack ∙ a.stack;
    visits = λ u h. b.visits u (a.visits u h);
    good = b.good;
  }

  pub Finished-After : {m m' : Marks} (u : Str) → After m m' → Finished m u → Finished m' u
  Finished-After u a f = (a.visits u f.0, ap (λ s. contains s u) a.stack ∙ f.1)

  -- From the recursion stack `stack`, a call that returns no error finishes its node.
  abbrev pub Meets : List Str → (Str → Marks → Search) → Type 0
  Meets stack call =
      (n : Str) (m m' : Marks)
      → m.rec_stack ≡ stack
      → Good m
      → call n m ≡ done m'
      → After m m' × Finished m' n

  pub and_then-eq-done :
      (r : Search) (f : Marks → Search) {m' : Marks}
      → and_then r f ≡ done m'
      → (m : Marks) × (r ≡ done m) × (f m ≡ done m')
  and_then-eq-done (done m) f h = (m, refl, h)
  and_then-eq-done (cycle k) f h = cc
  and_then-eq-done (nil_node k) f h = cc
  and_then-eq-done out_of_fuel f h = cc

  pub each-Meets :
      (stack : List Str) (call : Str → Marks → Search)
      → Meets stack call
      → (ns : List Str) (m m' : Marks) → m.rec_stack ≡ stack
      → Good m
      → each call ns m ≡ done m'
      → After m m' × ((n : Str) → contains ns n ≡ true → Finished m' n)
  unfolding each contains
  each-Meets stack call meets [] m m' on g e =
      let same : m ≡ m' = cc in (subst (After m) same (After-refl g), λ n h. cc)
  each-Meets stack call meets (x ∷ ns) m m' on g e =
      let (m₁, called, rest) = and_then-eq-done (call x m) (each call ns) e in
      let (first, fin) = meets x m m₁ on g called in
      let (later, all) = each-Meets stack call meets ns m₁ m' (first.stack ∙ on) first.good rest in
      (
        After-trans first later,
        λ n h. elim (Bool-cases (str_eq x n)) [
          | inl same ↦ subst (Finished m') ((str_eq_iff x n).0 same) (Finished-After x later fin)
          | inr other ↦ all n (ground arith)
        ],
      )

  -- Marking `n` on entry hides nothing that was finished.
  pub Finished-enter :
      (n u : Str) (m : Marks)
      → contains m.visited n ≡ false
      → (Finished (enter n m) u → Finished m u) × (Finished m u → Finished (enter n m) u)
  unfolding enter contains
  Finished-enter n u m fresh =
      (λ f. (ground arith, ground arith), λ f. (ground arith, ground (arith, str_eq_iff n u)))

  pub Good-enter : (n : Str) (m : Marks) → contains m.visited n ≡ false → Good m → Good (enter n m)
  Good-enter n m fresh g = record {
    closed = λ u v f e.
        (Finished-enter n v m fresh).1 (g.closed u v ((Finished-enter n u m fresh).0 f) e);
    acyclic = λ u f. g.acyclic u ((Finished-enter n u m fresh).0 f);
  }

  module _ (n : Str) (node : DagNode) (found : Dict.lookup n dag ≡ some node) where
    -- From finished dependencies a walk stays among finished nodes.
    Finished-Walk :
        (m : Marks)
        → Good m
        → ((d : Str) → contains node.dependencies d ≡ true → Finished m d)
        → {w : Str} → Walk dag n w
        → Finished m w
    Finished-Walk m g deps (one {v} e) =
        let same : e.node ≡ node = cc (e.found, found) in
        deps v (subst (λ (k : DagNode). contains k.dependencies v ≡ true) same e.named)
    Finished-Walk m g deps (more {v} {w} walk e) = g.closed v w (Finished-Walk m g deps walk) e

    Finished-leave :
        (u : Str) (m : Marks) (stack : List Str)
        → m.rec_stack ≡ n ∷ stack
        → contains m.visited n ≡ true
        → contains stack n ≡ false
        → Finished (record m { rec_stack = stack }) u
        → (n ≡ u) ⊎ Finished m u
    Finished-leave u m stack e seen fresh f = elim (Bool-cases (str_eq n u)) [
      | inl same ↦ inl ((str_eq_iff n u).0 same)
      | inr other ↦ inr (f.0, rw (e, contains-cons n stack u, other) f.1)
    ]

    Finished-release :
        (u : Str) (m : Marks) (stack : List Str)
        → m.rec_stack ≡ n ∷ stack
        → Finished m u
        → Finished (record m { rec_stack = stack }) u
    Finished-release u m stack e f = (
      f.0,
      let whole = subst (λ (s : List Str). contains s u ≡ false) e f.1 in
          ground (arith, contains-cons n stack u),
    )

    stack_top : (m : Marks) (stack : List Str) → m.rec_stack ≡ n ∷ stack → ¬ Finished m n
    stack_top m stack e f =
        let whole = subst (λ (s : List Str). contains s n ≡ false) e f.1 in
        cc (whole, contains-cons n stack n, str_eq_refl n)

    pub Good-leave :
        (m : Marks) (stack : List Str)
        → m.rec_stack ≡ n ∷ stack
        → contains m.visited n ≡ true
        → contains stack n ≡ false
        → ((d : Str) → contains node.dependencies d ≡ true → Finished m d)
        → Good m
        → Good (record m { rec_stack = stack })
    Good-leave m stack e seen fresh deps g = record {
      closed = λ u v f edge.
          Finished-release v m stack e (elim (Finished-leave u m stack e seen fresh f) [
            | inl same ↦
                Finished-Walk m g deps (one (subst (λ (w : Str). Edge dag w v) (sym same) edge))
            | inr old ↦ g.closed u v old edge
          ]);
      acyclic = λ u f walk. elim (Finished-leave u m stack e seen fresh f) [
        | inl same ↦
            stack_top m stack e
              (Finished-Walk m g deps (subst (λ (w : Str). Walk dag w w) (sym same) walk))
        | inr old ↦ g.acyclic u old walk
      ];
    }
