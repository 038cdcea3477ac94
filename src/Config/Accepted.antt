-- ===== src/Config/Accepted.antt =====
-- What loading a configuration ends with: `LoadConfig` of pkg/buildfab/config.go.
use buildfab.Base.{
  Str, Bool, true, false, List, [], ◌∷◌, map, none, some, str_eq, str_eq_iff, contains, is_some,
  returns, fails, Fallible-cases, All, ◌≡◌, ◌≢◌, refl, sym, subst, ◌∙◌, arith, Bool-cases,
  Option-cases, inl, inr, ◌⊎◌,
}
use buildfab.Base.Dict.{Dict}
use buildfab.Base.Splits.{All-map}
use buildfab.Config.{Action, Stage, Config, find_action}
use buildfab.Config.Validate.{validate}
use buildfab.Config.Valid.{IsValid, validate-none}
use buildfab.Config.Loading.{
  Files, out_of_fuel, Included, included, refused, process_includes, each_pattern,
}
use buildfab.Config.Loaded.{IsKept, process_includes-IsKept}
use buildfab.Config.Loader.{
  no_default_file, not_found, unreadable_file, includes_failed, includes_unresolved,
  includes_unloaded, invalid, Loaded, loaded, not_loaded, find_first, default_paths, config_path,
  validated, with_bin_dir, after_includes, parsed, load_path, load_config,
}

-- Every step of the stage names an action that `GetAction` finds.
abbrev pub IsRunnable : List Action → Stage → Type 0
IsRunnable actions stage = All (λ s. is_some (find_action actions s.action) ≡ true) stage.steps

-- A configuration that is valid, that belongs to the project of the file it was made from, and whose
-- stages can be run.
pub record IsAccepted (range : Dict Stage → Dict Stage) (found c : Config) : Type 0 where
  pub valid : IsValid c (range c.stages)
  pub project : c.project_name ≡ found.project_name
  pub runnable : All (λ e. IsRunnable c.actions (e.1)) (range c.stages)

find_action-contains :
    (actions : List Action) (n : Str)
    → contains (map (λ a. a.name) actions) n ≡ is_some (find_action actions n)
unfolding contains find_action
find_action-contains [] n = refl
find_action-contains (a ∷ actions) n = ground (arith, find_action-contains actions n)

pub accepted :
    (range : Dict Stage → Dict Stage) (found c : Config)
    → c.project_name ≡ found.project_name
    → validate range c ≡ none
    → IsAccepted range found c
accepted range found c same h =
    let v = (validate-none range c).0 h in
    record {
      valid = v;
      project = same;
      runnable =
          All-map
            (λ e stage.
              All-map (λ s step. rw (← find_action-contains c.actions s.action) (step.1.0))
                (e.1).steps (stage.1))
            (range c.stages) v.stages_valid;
    }

pub find_first-cases :
    (stat : Str → Bool) (paths : List Str)
    → ((find_first stat paths ≡ none) × All (λ p. stat p ≡ false) paths)
      ⊎ ((p : Str) × (find_first stat paths ≡ some p) × (stat p ≡ true) × (contains paths p ≡ true))
unfolding find_first contains
find_first-cases stat [] = inl (refl, tt)
find_first-cases stat (p ∷ paths) = elim (Bool-cases (stat p)) [
  | inl there ↦ inr (p, rw (there) refl, there, ground (arith, str_eq_iff p p))
  | inr gone ↦ elim (find_first-cases stat paths) [
    | inl (is, all) ↦ inl (rw (gone) is, (gone, all))
    | inr (q, is, there, of) ↦ inr (q, rw (gone) is, there, ground (arith, of))
  ]
]

-- The path that `LoadConfig` reads: the one it is given, or the first default one there is.
abbrev pub IsChosen : (Str → Bool) → Str → Str → Type 0
IsChosen stat path p =
    ((path ≢ []) × (p ≡ path))
    ⊎ ((path ≡ [])
        × (find_first stat default_paths ≡ some p)
        × (stat p ≡ true)
        × (contains default_paths p ≡ true))

module _ (fs : Files) (range : Dict Stage → Dict Stage) where
  -- The file at a path holds `found`, and with a directory it is this that its includes make of it.
  abbrev pub IsMade : List Str → Str → Config → Included → Type 0
  IsMade known path found r =
      (fs.read path ≡ returns found)
      × (process_includes fs known (with_bin_dir (fs.dir path) found) (fs.dir path) ≡ r)

  -- What reading a path ends with. Running out of fuel is no outcome.
  abbrev pub IsRead : List Str → Str → Loaded → Type 0
  IsRead known path (loaded c) =
      (found : Config) × IsMade known path found (included c)
      × IsAccepted range found c
      × (c.project_bin_dir ≢ [])
  IsRead known path (not_loaded no_default_file) = ⊥
  IsRead known path (not_loaded (not_found p)) = (p ≡ path) × (fs.exists path ≡ false)
  IsRead known path (not_loaded (unreadable_file p e)) = (p ≡ path) × (fs.read path ≡ fails e)
  IsRead known path (not_loaded (includes_failed e)) =
      (found : Config) × IsMade known path found (refused e) × (e ≢ out_of_fuel)
  IsRead known path (not_loaded (includes_unresolved _)) = ⊥
  IsRead known path (not_loaded (includes_unloaded _)) = ⊥
  IsRead known path (not_loaded (invalid e)) =
      (found : Config) × (c : Config) × IsMade known path found (included c)
      × (validate range c ≡ some e)

  validated-IsRead :
      (known : List Str) (path : Str) (found c : Config)
      → IsMade known path found (included c)
      → c.project_name ≡ found.project_name
      → c.project_bin_dir ≢ []
      → IsRead known path (validated range c)
  unfolding validated
  validated-IsRead known path found c made same given = elim (Option-cases (validate range c)) [
    | inl valid ↦ rw (valid, validated) (found, made, accepted range found c same valid, given)
    | inr (e, bad) ↦ rw (bad, validated) (found, c, made, bad)
  ]

  after-IsRead :
      (known : List Str) (path : Str) (found c : Config)
      → c.project_name ≡ found.project_name
      → c.project_bin_dir ≢ []
      → (r : Included) → IsMade known path found r
      → IsKept c r
      → IsRead known path (after_includes range r)
  unfolding after_includes
  after-IsRead known path found c same given (included c') made k =
      validated-IsRead known path found c' made (k.project ∙ same) (λ h. given (sym k.bin_dir ∙ h))
  after-IsRead known path found c same given (refused e) made k =
      (found, made, λ ran_out. subst (λ x. IsKept c (refused x)) ran_out k)

  with_bin_dir-project :
      (dir : Str) (c : Config) → (with_bin_dir dir c).project_name ≡ c.project_name
  unfolding with_bin_dir
  with_bin_dir-project dir c = ground arith

  with_bin_dir-given :
      (dir : Str) (c : Config) → dir ≢ [] → (with_bin_dir dir c).project_bin_dir ≢ []
  unfolding with_bin_dir
  with_bin_dir-given dir c h = ground (arith, h, str_eq_iff c.project_bin_dir [])

  module _ (known : List Str)
      (finite : (path : Str) → fs.exists path ≡ true → contains known path ≡ true)
      (named : (path : Str) → fs.dir path ≢ []) where
    -- Without patterns there is nothing to process.
    patterns-process_includes :
        (dir : Str) (c : Config) (patterns : List Str)
        → c.include ≡ patterns
        → elim patterns [ [] ↦ included c | _ ∷ _ ↦ process_includes fs known c dir ]
          ≡ process_includes fs known c dir
    unfolding process_includes each_pattern
    patterns-process_includes dir c [] is = rw (is) refl
    patterns-process_includes dir c (_ ∷ _) is = refl

    parsed-IsRead :
        (path : Str) (found : Config)
        → fs.read path ≡ returns found
        → IsRead known path (parsed fs known range path found)
    unfolding parsed
    parsed-IsRead path found is =
        let c = with_bin_dir (fs.dir path) found in
        rw (patterns-process_includes (fs.dir path) c c.include refl) (
          after-IsRead known path found c (with_bin_dir-project (fs.dir path) found)
            (with_bin_dir-given (fs.dir path) found (named path)) _ (is, refl)
            (process_includes-IsKept fs known finite c (fs.dir path)))

    load_path-IsRead : (path : Str) → IsRead known path (load_path fs known range path)
    unfolding load_path
    load_path-IsRead path = elim (Bool-cases (fs.exists path)) [
      | inr gone ↦ rw (gone, load_path) (refl, gone)
      | inl there ↦ elim (Fallible-cases (fs.read path)) [
        | inl (e, is) ↦ rw (there, is, load_path) (refl, is)
        | inr (found, is) ↦ rw (there, is, load_path) (parsed-IsRead path found is)
      ]
    ]

    -- If finitely many files exist and no directory has an empty name, LoadConfig either is given no
    -- path and finds no default file, or reads the path given or the first default file that is
    -- there. Then the path does not exist; or the file cannot be read; or, for what the file holds
    -- with a directory, processing its includes ends with an error, which is returned, or with a
    -- configuration, which is returned unless the validation refuses it for the error returned. A
    -- configuration that is returned is valid, has the project name of the file and a directory, and
    -- every step of its stages names an action that is found.
    pub load_config-IsRead :
        (stat : Str → Bool) (path : Str)
        → ((path ≡ [])
            × All (λ p. stat p ≡ false) default_paths
            × (load_config fs known range stat path ≡ not_loaded no_default_file))
          ⊎ ((p : Str) × IsChosen stat path p
              × IsRead known p (load_config fs known range stat path))
    unfolding load_config config_path
    load_config-IsRead stat path = elim (Bool-cases (str_eq path [])) [
      | inr given ↦ inr (
        path,
        inl ((λ h. ground (arith, h, given, str_eq_iff path [])), refl),
        rw (given, load_config) (load_path-IsRead path),
      )
      | inl empty ↦
          let is = (str_eq_iff path []).0 empty in
          elim (find_first-cases stat default_paths) [
            | inl (no_file, all) ↦ inl (is, all, rw (empty, no_file, load_config) refl)
            | inr (p, first, there, of) ↦
                inr (
                  p,
                  inr (is, first, there, of),
                  rw (empty, first, load_config) (load_path-IsRead p),
                )
          ]
    ]
