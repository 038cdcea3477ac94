-- ===== src/Config/FromDir.antt =====
-- What loading a configuration ends with: `LoadFromDir` of internal/config/config.go.
use buildfab.Base.{
  Str, Bool, true, false, List, [], ◌∷◌, some, contains, Fallible, returns, fails, Fallible-cases,
  All, ◌≡◌, refl, Bool-cases, Option-cases, inl, inr, ◌⊎◌,
}
use buildfab.Base.Dict.{Dict}
use buildfab.Config.{Stage, Config}
use buildfab.Config.Merge.{merge_config}
use buildfab.Config.Validate.{validate}
use buildfab.Config.Include.{FileSystem, PartialConfig, resolve_includes, load_included_configs}
use buildfab.Config.Resolved.{IsNamed, load_failed, resolve_includes-load}
use buildfab.Config.Loader.{
  no_default_file, not_found, unreadable_file, includes_failed, includes_unresolved,
  includes_unloaded, invalid, Loaded, loaded, not_loaded, find_first, config_files, validated,
  load_includes, load, load_from_dir,
}
use buildfab.Config.Accepted.{IsAccepted, accepted, find_first-cases}

module _ (resolver : FileSystem) (range : Dict Stage → Dict Stage)
    (read : Str → Fallible Config) where
  -- `c` is what a file holds, merged with the files that its patterns resolve to if it has patterns.
  abbrev IsMerged : Config → Config → Type 0
  IsMerged found c =
      ((found.include ≡ []) × (c ≡ found))
      ⊎ ((files : List Str) × (part : PartialConfig) × (resolve_includes resolver found.include
            ≡ returns files)
          × (load_included_configs resolver files ≡ returns part)
          × (c ≡ merge_config found part.actions part.stages))

  -- What `Load` ends with on a path; `found` is the configuration that the file holds.
  abbrev IsIncluded : Config → Loaded → Type 0
  IsIncluded found (loaded c) = IsMerged found c × IsAccepted range found c
  IsIncluded found (not_loaded no_default_file) = ⊥
  IsIncluded found (not_loaded (not_found _)) = ⊥
  IsIncluded found (not_loaded (unreadable_file _ _)) = ⊥
  IsIncluded found (not_loaded (includes_failed _)) = ⊥
  IsIncluded found (not_loaded (includes_unresolved e)) =
      resolve_includes resolver found.include ≡ fails e
  -- A file that some pattern names cannot be read.
  IsIncluded found (not_loaded (includes_unloaded text)) =
      (path : Str) × (e : Str) × IsNamed resolver found.include path
      × (resolver.read path ≡ fails e)
      × (text ≡ load_failed path e)
  IsIncluded found (not_loaded (invalid e)) =
      (c : Config) × IsMerged found c × (validate range c ≡ some e)

  abbrev pub IsLoad : Str → Loaded → Type 0
  IsLoad path r =
      ((resolver.exists path ≡ false) × (r ≡ not_loaded (not_found path)))
      ⊎ (((e : Str) × (read path ≡ fails e) × (r ≡ not_loaded (unreadable_file path e)))
          ⊎ ((found : Config) × (read path ≡ returns found) × IsIncluded found r))

  validated-IsIncluded :
      (found c : Config)
      → c.project_name ≡ found.project_name
      → IsMerged found c
      → IsIncluded found (validated range c)
  unfolding validated
  validated-IsIncluded found c same merged = elim (Option-cases (validate range c)) [
    | inl valid ↦ rw (valid, validated) (merged, accepted range found c same valid)
    | inr (e, bad) ↦ rw (bad, validated) (c, merged, bad)
  ]

  includes-IsIncluded : (c : Config) → IsIncluded c (load_includes resolver range c)
  unfolding load_includes merge_config
  includes-IsIncluded c = elim (Fallible-cases (resolve_includes resolver c.include)) [
    | inl (e, is) ↦ rw (is, load_includes) is
    | inr (files, is) ↦
        let (once, named, ends) = resolve_includes-load resolver c.include files is in
        elim ends [
          | inl (part, loads) ↦
              rw (is, loads, load_includes)
                (validated-IsIncluded c (merge_config c part.actions part.stages) refl
                  (inr (files, part, is, loads, refl)))
          | inr (path, e, of, bad, failed) ↦
              rw (is, failed, load_includes) (path, e, named path of, bad, refl)
        ]
  ]

  with_patterns-IsIncluded :
      (c : Config) (patterns : List Str)
      → c.include ≡ patterns
      → IsIncluded c
          (elim patterns [ [] ↦ validated range c | _ ∷ _ ↦ load_includes resolver range c ])
  with_patterns-IsIncluded c [] is = validated-IsIncluded c c refl (inl (is, refl))
  with_patterns-IsIncluded c (_ ∷ _) is = includes-IsIncluded c

  load-IsLoad : (path : Str) → IsLoad path (load resolver range read path)
  unfolding load
  load-IsLoad path = elim (Bool-cases (resolver.exists path)) [
    | inr gone ↦ inl (gone, rw (gone, load) refl)
    | inl there ↦ elim (Fallible-cases (read path)) [
      | inl (e, is) ↦ inr (inl (e, is, rw (there, is, load) refl))
      | inr (found, is) ↦ inr (
          inr (found, is, rw (there, is, load) (with_patterns-IsIncluded found found.include refl)))
    ]
  ]

-- Whatever files there are, LoadFromDir finds none of the six files, or for the first that is there
-- ends with the file missing or unreadable; with the error of patterns that do not resolve; with the
-- error that a file which a pattern names cannot be read; or, for what the file holds merged with
-- the files that its patterns resolve to, with the error for which the validation refuses it, or
-- with it, which is then valid, has the project name of the file, and its steps name actions that
-- are found. So a circular include is never reported.
pub load_from_dir-IsLoad :
    (at : Str → FileSystem) (range : Dict Stage → Dict Stage) (read : Str → Fallible Config)
    (stat : Str → Bool) (join : Str → Str → Str) (dir : Str)
    → (All (λ name. stat (join dir name) ≡ false) config_files
        × (load_from_dir stat join (λ path. load (at path) range read path) dir
            ≡ not_loaded no_default_file))
      ⊎ ((name : Str) × (find_first (λ name. stat (join dir name)) config_files ≡ some name)
          × (stat (join dir name) ≡ true)
          × (contains config_files name ≡ true)
          × IsLoad
              (at (join dir name))
              range
              read
              (join dir name)
              (load_from_dir stat join (λ path. load (at path) range read path) dir))
unfolding load_from_dir
load_from_dir-IsLoad at range read stat join dir =
    elim (find_first-cases (λ name. stat (join dir name)) config_files) [
      | inl (no_file, all) ↦ inl (all, rw (no_file, load_from_dir) refl)
      | inr (name, first, there, of) ↦ inr (
        name,
        first,
        there,
        of,
        rw (first, load_from_dir) (load-IsLoad (at (join dir name)) range read (join dir name)),
      )
    ]
