-- ===== src/Actions/Softer.antt =====
-- The two registries of built-in actions compared.
use buildfab.Base.{
  Str, Bool, true, false, [], ◌∷◌, Option, none, some, str_eq, if◌then◌else◌, Fallible-cases, inl,
  inr, ◌≡◌, refl,
}
use buildfab.Base.Dict
use buildfab.Base.Dict.{Dict}
use buildfab.Output.Status.{warn, error}
use buildfab.Executor.{Result}
use buildfab.Runner.{ActionRunner}
use buildfab.Actions.{
  Machine, good, bad, git_untracked, git_uncommitted, git_modified, default_registry,
}
use buildfab.Actions.Internal.{
  warned, warn_untracked, warn_uncommitted, warn_modified, register, new_registry, list_actions,
}

-- The first is the second, or warns where the second fails.
pub data IsSofter : Result × Option Str → Result × Option Str → Type 0 where
  same : {o : Result × Option Str} → IsSofter o o
  softer :
      {r s : Result} {e : Str} → r.status ≡ warn → s.status ≡ error → IsSofter (r, none) (s, some e)

pub record AreAlike (a b : Str × ActionRunner) : Type 0 where
  pub name : a.0 ≡ b.0
  pub description : a.1.description ≡ b.1.description
  pub run : IsSofter a.1.run b.1.run

-- Two registries entry by entry.
abbrev pub AllAlike : Dict ActionRunner → Dict ActionRunner → Type 0
AllAlike [] [] = Unit
AllAlike [] (_ ∷ _) = ⊥
AllAlike (_ ∷ _) [] = ⊥
AllAlike (a ∷ as_) (b ∷ bs) = AreAlike a b × AllAlike as_ bs

branch :
    (b : Bool) (m n e k : Str)
    → IsSofter (if b then warned m else good k) (if b then bad n e else good k)
branch true m n e k = softer refl refl
branch false m n e k = same

untracked-IsSofter : (m : Machine) → IsSofter (warn_untracked m) (git_untracked m)
unfolding warn_untracked git_untracked
untracked-IsSofter m = elim (Fallible-cases m.git_status) [
  | inl (e, is) ↦ rw (is, warn_untracked, git_untracked) same
  | inr (out, is) ↦ rw (is, warn_untracked, git_untracked) (branch _ _ _ _ _)
]

uncommitted-IsSofter : (m : Machine) → IsSofter (warn_uncommitted m) (git_uncommitted m)
unfolding warn_uncommitted git_uncommitted
uncommitted-IsSofter m = elim (Fallible-cases m.git_status) [
  | inl (e, is) ↦ rw (is, warn_uncommitted, git_uncommitted) same
  | inr (out, is) ↦ rw (is, warn_uncommitted, git_uncommitted) (branch _ _ _ _ _)
]

modified-IsSofter : (m : Machine) → IsSofter (warn_modified m) (git_modified m)
unfolding warn_modified git_modified
modified-IsSofter m = elim (Fallible-cases m.git_diff) [
  | inl (e, is) ↦ rw (is, warn_modified, git_modified) same
  | inr (out, is) ↦ rw (is, warn_modified, git_modified) (branch _ _ _ _ _)
]

alike-list_actions : (a b : Dict ActionRunner) → AllAlike a b → list_actions a ≡ list_actions b
unfolding list_actions
alike-list_actions [] [] h = refl
alike-list_actions [] (_ ∷ _) h = absurd h
alike-list_actions (_ ∷ _) [] h = absurd h
alike-list_actions ((n, r) ∷ a) ((k, s) ∷ b) h =
    rw (h.0.name, h.0.description, alike-list_actions a b h.1) refl

alike : (m : Machine) → AllAlike (new_registry m) (default_registry m)
unfolding new_registry default_registry register Dict.insert str_eq
alike m = (
  record { name = refl; description = refl; run = untracked-IsSofter m },
  (
    record { name = refl; description = refl; run = uncommitted-IsSofter m },
    (
      record { name = refl; description = refl; run = modified-IsSofter m },
      (
        record { name = refl; description = refl; run = same },
        (record { name = refl; description = refl; run = same }, tt),
      ),
    ),
  ),
)

-- Whatever git prints and the VERSION file holds, the internal registry lists the actions that the
-- default one does, has entry by entry its names, and each of its actions ends as the action of that
-- name there does, or warns without an error where that one fails.
pub new_registry-AllAlike :
    (m : Machine)
    → (list_actions (new_registry m) ≡ list_actions (default_registry m))
      × AllAlike (new_registry m) (default_registry m)
new_registry-AllAlike m = (alike-list_actions _ _ (alike m), alike m)
