-- ===== src/Expression/Chains.antt =====
-- Chains of clauses, written with `||` and `&&` between them, and their truth.
use buildfab.Base.{
  ◌<◌, Str, Bool, true, false, ◌&&◌, ◌||◌, List, [], ◌∷◌, length, arith, All, map, subst,
}
use buildfab.Base.Strings.{join}
use buildfab.Expression.{Host}
use buildfab.Expression.Context.{ExpressionContext}
use buildfab.Expression.Operators.{spaced}
use buildfab.Expression.Tight.{IsTight, IsTight-between}
use buildfab.Expression.Precedence.{
  IsClause, IsOpening, IsClause-IsOpening, IsOpening-or, Means, and-Means, or-Means,
}

-- A clause and what it evaluates to.
abbrev pub Clause : Type 0
Clause = Str × Bool

unfoldable pub written_group : List Clause → Str
written_group cs = join (map (λ c. c.0) cs) (spaced b'|')

unfoldable pub written : List (List Clause) → Str
unfolding written_group
written groups = join (map written_group groups) (spaced b'&')

unfoldable pub any_true : List Clause → Bool
any_true [] = false
any_true (c ∷ cs) = c.1 || any_true cs

unfoldable pub all_true : List (List Clause) → Bool
all_true [] = true
all_true (g ∷ groups) = any_true g && all_true groups

module _ (h : Host) (ctx : ExpressionContext) where
  pub record IsKnown (c : Clause) : Type 0 where
    pub clause : IsClause c.0
    pub means : Means h ctx c.0 c.1

  -- Some clauses, all of them known.
  pub record IsGroup (g : List Clause) : Type 0 where
    pub some_clause : 0 < length g
    pub known : All IsKnown g

  record GroupMeans (g : List Clause) : Type 0 where
    opening : IsOpening (written_group g)
    means : Means h ctx (written_group g) (any_true g)

  group-means : (c : Clause) (cs : List Clause) → All IsKnown (c ∷ cs) → GroupMeans (c ∷ cs)
  unfolding written_group join any_true
  group-means (s, b) [] known = record {
    opening = IsClause-IsOpening s known.0.clause;
    means = subst (Means h ctx s) (ground arith) known.0.means;
  }
  group-means (s, b) (d ∷ ds) known =
      let rest = group-means d ds known.1 in
      record {
        opening = IsOpening-or s (written_group (d ∷ ds)) known.0.clause rest.opening;
        means =
            or-Means h ctx s (written_group (d ∷ ds)) b (any_true (d ∷ ds)) known.0.clause
              rest.opening known.0.means rest.means;
      }

  IsGroup-means : (g : List Clause) → IsGroup g → GroupMeans g
  IsGroup-means [] known = let h = known.some_clause in absurd (omega arith)
  IsGroup-means (c ∷ cs) known = group-means c cs known.known

  record GroupsMean (gs : List (List Clause)) : Type 0 where
    tight : IsTight (written gs)
    means : Means h ctx (written gs) (all_true gs)

  groups-mean :
      (g : List Clause) (gs : List (List Clause)) → All IsGroup (g ∷ gs) → GroupsMean (g ∷ gs)
  unfolding written join all_true
  groups-mean g [] known =
      let one = IsGroup-means g known.0 in
      record {
        tight = one.opening.tight;
        means = subst (Means h ctx (written_group g)) (ground arith) one.means;
      }
  groups-mean g (k ∷ ks) known =
      let one = IsGroup-means g known.0 in
      let rest = groups-mean k ks known.1 in
      record {
        tight =
            IsTight-between (written_group g) (spaced b'&') (written (k ∷ ks)) one.opening.tight
              rest.tight;
        means =
            and-Means h ctx (written_group g) (written (k ∷ ks)) (any_true g) (all_true (k ∷ ks))
              one.opening rest.tight one.means rest.means;
      }

  -- If clauses without parentheses, `&` and `|`, which are no negations and have no space at their
  -- ends, each evaluate to a result that is true or not, then the expression that joins groups of
  -- them by ` && `, and the clauses of a group by ` || `, evaluates to a result that is true exactly
  -- if every group has a true clause: `||` binds more tightly than `&&`.
  pub written-Means :
      (g : List Clause) (gs : List (List Clause))
      → All IsGroup (g ∷ gs)
      → Means h ctx (written (g ∷ gs)) (all_true (g ∷ gs))
  written-Means g gs known = (groups-mean g gs known).means
