-- ===== src/Config/Loaded.antt =====
-- Including ends, however the files include each other, and keeps the configuration in order.
use buildfab.Base.{
  ℕ, zero, suc, ◌≤◌, ◌<◌, Str, codes, Bool, true, false, List, [], ◌∷◌, count, contains, length,
  if◌then◌else◌, Fallible-cases, ◌≡◌, refl, ◌∙◌, arith, Bool-cases, inl, inr,
}
use buildfab.Base.Strings.{str_contains}
use buildfab.Config.{Config}
use buildfab.Config.Merge.{merge_config, action_names, once-merge_actions}
use buildfab.Config.Include.{is_yaml}
use buildfab.Config.Loading.{
  Files, circular, missing_file, missing_directory, invalid_glob, unreadable, out_of_fuel, Included,
  included, refused, then_with, each_match, process_glob_pattern, process_include_pattern,
  each_pattern, load_and_merge_file, process_exact_file, process_includes,
}
use buildfab.Dag.Fuel.{unvisited, unvisited_le, unvisited-cons}

-- What stays as it was: the project, and that no two actions have one name.
pub record Kept (c c' : Config) : Type 0 where
  pub project : c'.project_name ≡ c.project_name
  pub bin_dir : c'.project_bin_dir ≡ c.project_bin_dir
  pub once :
      ((n : Str) → count (action_names c.actions) n ≤ 1)
      → (n : Str) → count (action_names c'.actions) n ≤ 1

-- An outcome of the program that keeps the configuration in order.
abbrev pub IsKept : Config → Included → Type 0
IsKept c (included c') = Kept c c'
IsKept c (refused (circular _)) = Unit
IsKept c (refused (missing_file _)) = Unit
IsKept c (refused (missing_directory _)) = Unit
IsKept c (refused (invalid_glob _ _)) = Unit
IsKept c (refused (unreadable _ _)) = Unit
IsKept c (refused out_of_fuel) = ⊥

Kept-refl : (c : Config) → Kept c c
Kept-refl c = record { project = refl; bin_dir = refl; once = λ h. h }

Kept-trans : {a b c : Config} → Kept a b → Kept b c → Kept a c
Kept-trans x y = record {
  project = y.project ∙ x.project;
  bin_dir = y.bin_dir ∙ x.bin_dir;
  once = λ h. y.once (x.once h);
}

IsKept-after : {a b : Config} → Kept a b → (r : Included) → IsKept b r → IsKept a r
IsKept-after k (included c) h = Kept-trans k h
IsKept-after k (refused (circular _)) h = tt
IsKept-after k (refused (missing_file _)) h = tt
IsKept-after k (refused (missing_directory _)) h = tt
IsKept-after k (refused (invalid_glob _ _)) h = tt
IsKept-after k (refused (unreadable _ _)) h = tt
IsKept-after k (refused out_of_fuel) h = h

then_with-IsKept :
    (c : Config) (r : Included) (f : Config → Included)
    → IsKept c r
    → ((c' : Config) → IsKept c' (f c'))
    → IsKept c (then_with r f)
then_with-IsKept c (included c') f h k = IsKept-after h (f c') (k c')
then_with-IsKept c (refused (circular _)) f h k = tt
then_with-IsKept c (refused (missing_file _)) f h k = tt
then_with-IsKept c (refused (missing_directory _)) f h k = tt
then_with-IsKept c (refused (invalid_glob _ _)) f h k = tt
then_with-IsKept c (refused (unreadable _ _)) f h k = tt
then_with-IsKept c (refused out_of_fuel) f h k = h

module _ (fs : Files) where
  abbrev Keeps : (Config → Str → Included) → Type 0
  Keeps exact = (c : Config) (path : Str) → IsKept c (exact c path)

  module _ (exact : Config → Str → Included) (keeps : Keeps exact) where
    each_match-IsKept : (paths : List Str) (c : Config) → IsKept c (each_match fs exact c paths)
    unfolding each_match
    each_match-IsKept [] c = Kept-refl c
    each_match-IsKept (path ∷ paths) c =
        then_with-IsKept c (if is_yaml path then exact c path else included c) _
          (first (is_yaml path)) (each_match-IsKept paths)
      where
        first : (b : Bool) → IsKept c (if b then exact c path else included c)
        first true = keeps c path
        first false = Kept-refl c

    glob-IsKept : (c : Config) (path : Str) → IsKept c (process_glob_pattern fs exact c path)
    unfolding process_glob_pattern
    glob-IsKept c path = elim (Bool-cases (fs.exists (fs.dir path))) [
      | inl there ↦ elim (Fallible-cases (fs.glob path)) [
        | inl (e, is) ↦ rw (there, is, process_glob_pattern) tt
        | inr (matches, is) ↦ rw (there, is, process_glob_pattern) (each_match-IsKept matches c)
      ]
      | inr gone ↦ rw (gone, process_glob_pattern) tt
    ]

    pattern-IsKept :
        (base : Str) (c : Config) (name : Str)
        → IsKept c (process_include_pattern fs exact base c name)
    unfolding process_include_pattern
    pattern-IsKept base c name = choose (str_contains name (codes "*"))
      where
        choose :
            (b : Bool)
            → IsKept c (
                if b
                then process_glob_pattern fs exact c
                    (if fs.is_abs name then name else fs.join base name)
                else exact c (if fs.is_abs name then name else fs.join base name))
        choose true = glob-IsKept c _
        choose false = keeps c _

    each_pattern-IsKept :
        (base : Str) (names : List Str) (c : Config) → IsKept c (each_pattern fs exact base c names)
    unfolding each_pattern
    each_pattern-IsKept base [] c = Kept-refl c
    each_pattern-IsKept base (name ∷ names) c =
        then_with-IsKept c (process_include_pattern fs exact base c name) _
          (pattern-IsKept base c name) (each_pattern-IsKept base names)

    load-IsKept : (c : Config) (path : Str) → IsKept c (load_and_merge_file fs exact c path)
    unfolding load_and_merge_file merge_config
    load-IsKept c path = elim (Fallible-cases (fs.read path)) [
      | inl (e, is) ↦ rw (is, load_and_merge_file) tt
      | inr (found, is) ↦
          rw (is, load_and_merge_file)
            (then_with-IsKept c (each_pattern fs exact (fs.dir path) c found.include) _
              (each_pattern-IsKept (fs.dir path) found.include c) (λ c'. merged found c'))
    ]
      where
        merged : (found c' : Config) → Kept c' (merge_config c' found.actions found.stages)
        merged found c' = record {
          project = refl;
          bin_dir = refl;
          once = once-merge_actions c'.actions found.actions;
        }

  module _ (known : List Str)
      (finite : (path : Str) → fs.exists path ≡ true → contains known path ≡ true) where
    exact-Keeps :
        (fuel : ℕ) (visited : List Str)
        → unvisited known visited < fuel
        → Keeps (process_exact_file fs fuel visited)
    unfolding process_exact_file
    exact-Keeps zero visited fits c path = absurd (below fits)
      where
        below : ¬ (unvisited known visited < 0)
        below h = omega (arith, h)
    exact-Keeps (suc fuel) visited fits c path = elim (Bool-cases (contains visited path)) [
      | inl seen ↦ rw (seen, process_exact_file) tt
      | inr fresh ↦ elim (Bool-cases (fs.exists path)) [
        | inl there ↦
            rw (fresh, there, process_exact_file)
              (load-IsKept (process_exact_file fs fuel (path ∷ visited))
                (exact-Keeps fuel (path ∷ visited) (
                  omega (arith, fits, unvisited-cons known visited path (finite path there) fresh)))
                c path)
        | inr gone ↦ rw (fresh, gone, process_exact_file) tt
      ]
    ]

    -- If finitely many files exist, then however they include each other, processing the includes of
    -- a configuration ends within its fuel: with an error, or with a configuration of the same
    -- project and directory in which, if no two actions had one name, no two have.
    pub process_includes-IsKept :
        (c : Config) (base : Str) → IsKept c (process_includes fs known c base)
    unfolding process_includes
    process_includes-IsKept c base =
        each_pattern-IsKept (process_exact_file fs (suc (length known)) [])
          (exact-Keeps (suc (length known)) [] (omega (arith, unvisited_le known []))) base
          c.include c
