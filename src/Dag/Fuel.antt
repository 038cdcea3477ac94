-- ===== src/Dag/Fuel.antt =====
-- Every call of the search marks a node that no call above it has marked, so one more unit of fuel
-- than there are nodes is enough.
use buildfab.Base.{
  ℕ, zero, suc, Str, true, false, List, [], ◌∷◌, Option, none, some, ◌≡◌, refl, ◌∙◌, ap, inl, inr,
  arith, contains, is_some, ◌+◌, str_eq_iff, str_eq_refl, Bool-cases, if◌then◌else◌, length, ◌<◌,
  ◌≤◌,
}
use buildfab.Base.Dict
use buildfab.Base.Dict.{contains-keys}
use buildfab.Dag.{
  DagNode, Dag, Marks, Search, done, cycle, nil_node, out_of_fuel, enter, leave, and_then, each,
  expand, dfs,
}
use buildfab.Dag.Walk.{IsClosed}
use buildfab.Dag.Marking.{Good, Meets, Good-enter}
use buildfab.Dag.Searching.{dfs_on_stack, dfs_visited, dfs_new, dfs-Meets}

-- The outcomes that the program has on a graph whose dependencies are nodes.
abbrev pub IsOutcome : Search → Type 0
IsOutcome (done _) = Unit
IsOutcome (cycle _) = Unit
IsOutcome (nil_node _) = ⊥
IsOutcome out_of_fuel = ⊥

-- How many of the names are not visited.
pub unvisited : List Str → List Str → ℕ
unvisited [] seen = 0
unvisited (k ∷ ks) seen = (if contains seen k then 0 else 1) + unvisited ks seen

unvisited_mono :
    (ks seen seen' : List Str)
    → ((u : Str) → contains seen u ≡ true → contains seen' u ≡ true)
    → unvisited ks seen' ≤ unvisited ks seen
unfolding unvisited
unvisited_mono [] seen seen' grows = omega arith
unvisited_mono (k ∷ ks) seen seen' grows =
    ground (arith, grows k, unvisited_mono ks seen seen' grows)

pub unvisited-cons :
    (ks seen : List Str) (n : Str)
    → contains ks n ≡ true
    → contains seen n ≡ false
    → unvisited ks (n ∷ seen) < unvisited ks seen
unfolding unvisited contains
unvisited-cons [] seen n inn fresh = cc
unvisited-cons (k ∷ ks) seen n inn fresh = ground (
  arith,
  unvisited-cons ks seen n,
  str_eq_iff k n,
  str_eq_iff n k,
  unvisited_mono ks seen (n ∷ seen) (λ u h. ground arith),
)

pub unvisited_le : (ks seen : List Str) → unvisited ks seen ≤ length ks
unfolding unvisited
unvisited_le [] seen = omega arith
unvisited_le (k ∷ ks) seen = ground (arith, unvisited_le ks seen)

and_then-IsOutcome :
    (r : Search) (f : Marks → Search)
    → IsOutcome r
    → ((m : Marks) → r ≡ done m → IsOutcome (f m))
    → IsOutcome (and_then r f)
and_then-IsOutcome (done m) f h next = next m refl
and_then-IsOutcome (cycle k) f h next = tt
and_then-IsOutcome (nil_node k) f h next = h
and_then-IsOutcome out_of_fuel f h next = h

leave-IsOutcome : (n : Str) (r : Search) → IsOutcome r → IsOutcome (leave n r)
unfolding leave
leave-IsOutcome n (done m) h = tt
leave-IsOutcome n (cycle k) h = tt
leave-IsOutcome n (nil_node k) h = h
leave-IsOutcome n out_of_fuel h = h

module _ (dag : Dag) (closed : IsClosed dag) where
  abbrev pub names : List Str
  names = Dict.keys dag

  -- A call ends properly when fewer than `bound` nodes are left to visit.
  abbrev pub Returns : ℕ → (Str → Marks → Search) → Type 0
  Returns bound call =
      (n : Str) (m : Marks)
      → Good dag m
      → contains names n ≡ true
      → unvisited names m.visited < bound
      → IsOutcome (call n m)

  pub each-Returns :
      (bound : ℕ) (stack : List Str) (call : Str → Marks → Search)
      → Meets dag stack call
      → Returns bound call
      → (ns : List Str) (m : Marks) → m.rec_stack ≡ stack
      → Good dag m
      → ((n : Str) → contains ns n ≡ true → contains names n ≡ true)
      → unvisited names m.visited < bound
      → IsOutcome (each call ns m)
  unfolding each contains
  each-Returns bound stack call meets returns [] m on g inn fits = tt
  each-Returns bound stack call meets returns (x ∷ ns) m on g inn fits =
      and_then-IsOutcome (call x m) (each call ns) (returns x m g (inn x (cc (str_eq_refl x))) fits)
        λ m₁ e.
          let (a, _) = meets x m m₁ on g e in
          each-Returns bound stack call meets returns ns m₁ (a.stack ∙ on) a.good
            (λ n h. inn n (ground arith))
            (omega (arith, unvisited_mono names m.visited m₁.visited a.visits))

  expand-Returns :
      (bound : ℕ) (call : Str → Marks → Search)
      → ((stack : List Str) → Meets dag stack call)
      → Returns bound call
      → (n : Str) (o : Option DagNode) (m : Marks) → Dict.lookup n dag ≡ o
      → contains m.visited n ≡ false
      → Good dag m
      → contains names n ≡ true
      → unvisited names m.visited < suc bound
      → IsOutcome (expand call n o m)
  unfolding expand enter
  expand-Returns bound call meets returns n none m l fresh g inn fits =
      cc (contains-keys dag n, ap (is_some {A = DagNode}) l)
  expand-Returns bound call meets returns n (some node) m l fresh g inn fits = leave-IsOutcome n _ (
      each-Returns bound (n ∷ m.rec_stack) call (meets (n ∷ m.rec_stack)) returns node.dependencies
        (enter n m) refl (Good-enter dag n m fresh g)
        (λ d h.
          let (target, e) = closed n d (record { node = node; found = l; named = h }) in
          cc (contains-keys dag d, ap (is_some {A = DagNode}) e))
        (omega (arith, unvisited-cons names m.visited n inn fresh)))

  pub dfs-Returns : (fuel : ℕ) → Returns fuel (dfs fuel dag)
  dfs-Returns zero n m g inn fits = absurd (omega arith)
  dfs-Returns (suc fuel) n m g inn fits = elim (Bool-cases (contains m.rec_stack n)) [
    | inl stacked ↦ rw (dfs_on_stack dag fuel n m stacked) tt
    | inr off ↦ elim (Bool-cases (contains m.visited n)) [
      | inl seen ↦ rw (dfs_visited dag fuel n m off seen) tt
      | inr fresh ↦ rw (dfs_new dag fuel n m off fresh) (
          expand-Returns fuel (dfs fuel dag) (dfs-Meets dag fuel) (dfs-Returns fuel) n
            (Dict.lookup n dag) m refl fresh g inn fits)
    ]
  ]
