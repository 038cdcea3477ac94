-- ===== src/Actions/Registry.antt =====
-- The built-in actions keep what the runner relies on.
use buildfab.Base.{
  Str, Bool, true, false, ◌&&◌, List, [], ◌∷◌, Option, none, some, str_eq, length, ◌==◌, is_some,
  if◌then◌else◌, Fallible, returns, fails, Fallible-cases, Option-cases, Bool-cases, inl, inr, ◌≡◌,
  refl, sym, subst, All, ◌⊎◌,
}
use buildfab.Base.Dict
use buildfab.Base.Dict.{Dict}
use buildfab.Output.Status.{ok, error, status_eq}
use buildfab.Executor.{Result}
use buildfab.Runner.{Runner, ActionRunner, get_runner}
use buildfab.Runner.Runs.{IsFinal, IsHonest}
use buildfab.Actions.{
  Machine, good, bad, git_untracked, git_uncommitted, git_modified, is_valid_version, check_version,
  version_check, compare_greatest, check_greatest, version_check_greatest, default_registry,
}

-- Success without an error, or failure with one.
pub data IsClear : Result × Option Str → Type 0 where
  fine : {result : Result} → result.status ≡ ok → IsClear (result, none)
  failed : {result : Result} {e : Str} → result.status ≡ error → IsClear (result, some e)

branch :
    (b : Bool) (x y : Result × Option Str) → IsClear x → IsClear y → IsClear (if b then x else y)
branch true x y h k = h
branch false x y h k = k

good-IsClear : (m : Str) → IsClear (good m)
good-IsClear m = fine refl

bad-IsClear : (m e : Str) → IsClear (bad m e)
bad-IsClear m e = failed refl

untracked-IsClear : (m : Machine) → IsClear (git_untracked m)
unfolding git_untracked
untracked-IsClear m = elim (Fallible-cases m.git_status) [
  | inl (e, is) ↦ rw (is, git_untracked) (bad-IsClear _ _)
  | inr (out, is) ↦ rw (is, git_untracked) (branch _ _ _ (bad-IsClear _ _) (good-IsClear _))
]

uncommitted-IsClear : (m : Machine) → IsClear (git_uncommitted m)
unfolding git_uncommitted
uncommitted-IsClear m = elim (Fallible-cases m.git_status) [
  | inl (e, is) ↦ rw (is, git_uncommitted) (bad-IsClear _ _)
  | inr (out, is) ↦ rw (is, git_uncommitted) (branch _ _ _ (bad-IsClear _ _) (good-IsClear _))
]

modified-IsClear : (m : Machine) → IsClear (git_modified m)
unfolding git_modified
modified-IsClear m = elim (Fallible-cases m.git_diff) [
  | inl (e, is) ↦ rw (is, git_modified) (bad-IsClear _ _)
  | inr (out, is) ↦ rw (is, git_modified) (branch _ _ _ (bad-IsClear _ _) (good-IsClear _))
]

check_version-IsClear : (v : Str) → IsClear (check_version v)
unfolding check_version
check_version-IsClear v = elim (Bool-cases (str_eq v [])) [
  | inl empty ↦ rw (empty, check_version) (bad-IsClear _ _)
  | inr given ↦ elim (Bool-cases (is_valid_version v)) [
    | inl valid ↦ rw (given, valid, check_version) (good-IsClear _)
    | inr invalid ↦ rw (given, invalid, check_version) (bad-IsClear _ _)
  ]
]

version_check-IsClear : (m : Machine) → IsClear (version_check m)
unfolding version_check
version_check-IsClear m = elim (Fallible-cases m.version_file) [
  | inl (e, is) ↦ rw (is, version_check) (bad-IsClear _ _)
  | inr (out, is) ↦ rw (is, version_check) (check_version-IsClear _)
]

compare_greatest-IsClear :
    (current : Str) (tags : List Str) → IsClear (compare_greatest current tags)
unfolding compare_greatest
compare_greatest-IsClear current [] = good-IsClear _
compare_greatest-IsClear current (tag ∷ tags) =
    elim (Bool-cases (length tags == 0 && str_eq tag [])) [
      | inl none_ ↦ rw (none_, compare_greatest) (good-IsClear _)
      | inr some_ ↦ elim (Bool-cases (str_eq current tag)) [
        | inl same ↦ rw (some_, same, compare_greatest) (good-IsClear _)
        | inr other ↦ rw (some_, other, compare_greatest) (bad-IsClear _ _)
      ]
    ]

check_greatest-IsClear :
    (current : Str) (tags : Fallible Str) → IsClear (check_greatest current tags)
unfolding check_greatest
check_greatest-IsClear current (fails e) = bad-IsClear _ _
check_greatest-IsClear current (returns out) = compare_greatest-IsClear current _

greatest-IsClear : (m : Machine) → IsClear (version_check_greatest m)
unfolding version_check_greatest
greatest-IsClear m = elim (Fallible-cases m.version_file) [
  | inl (e, is) ↦ rw (is, version_check_greatest) (bad-IsClear _ _)
  | inr (out, is) ↦ rw (is, version_check_greatest) (check_greatest-IsClear _ m.git_tags)
]

abbrev AllClear : Dict ActionRunner → Type 0
AllClear registry = All (λ e. IsClear (e.1.run)) registry

lookup-IsClear :
    (registry : Dict ActionRunner) (uses : Str) (runner : ActionRunner)
    → AllClear registry
    → Dict.lookup uses registry ≡ some runner
    → IsClear runner.run
unfolding Dict.lookup
lookup-IsClear [] uses runner all h = cc
lookup-IsClear ((name, r) ∷ registry) uses runner all h = elim (Bool-cases (str_eq name uses)) [
  | inl here ↦
      let same : r ≡ runner = cc (rw (here, Dict.lookup) at h) in
      subst (λ (x : ActionRunner). IsClear x.run) same all.0
  | inr later ↦ lookup-IsClear registry uses runner all.1 (rw (later, Dict.lookup) at h)
]

default_registry-AllClear : (m : Machine) → AllClear (default_registry m)
unfolding default_registry
default_registry-AllClear m = (
  untracked-IsClear m,
  (
    uncommitted-IsClear m,
    (modified-IsClear m, (version_check-IsClear m, (greatest-IsClear m, tt))),
  ),
)

clear-IsFinal :
    {o : Result × Option Str}
    → IsClear o
    → IsFinal o.0.status × (is_some o.1 ≡ true → status_eq o.0.status error ≡ true)
unfolding status_eq
clear-IsFinal (fine is) = (subst IsFinal (sym is) tt, λ h. cc)
clear-IsFinal (failed is) = (subst IsFinal (sym is) tt, λ h. rw is refl)

-- A runner whose registry is the default one is one that the reports of actions rely on: whatever
-- git prints and the VERSION file holds, each built-in action ends with a final status, and returns
-- an error only with the status of an error.
pub default_registry-IsHonest :
    (r : Runner) (m : Machine) → r.registry ≡ some (default_registry m) → IsHonest r
unfolding get_runner
default_registry-IsHonest r m is uses runner h =
    clear-IsFinal (by_lookup (Option-cases (Dict.lookup uses (default_registry m))))
  where
    by_lookup :
        (Dict.lookup uses (default_registry m) ≡ none)
          ⊎ ((x : ActionRunner) × (Dict.lookup uses (default_registry m) ≡ some x))
        → IsClear runner.run
    by_lookup (inl missing) = cc (rw (is, missing, get_runner) at h)
    by_lookup (inr (x, found)) =
        let same : x ≡ runner = cc (rw (is, found, get_runner) at h) in
        subst (λ (y : ActionRunner). IsClear y.run) same
          (lookup-IsClear (default_registry m) uses x (default_registry-AllClear m) found)
