-- ===== src/Config/Resolved.antt =====
-- What `ResolveIncludes` returns, and that loading it meets no file twice.
use buildfab.Base.{
  ◌+◌, ◌≤◌, Str, true, ◌||◌, List, [], ◌∷◌, ◌++◌, str_eq_iff, str_eq_refl, count, count-cons,
  count-nil, count-append, contains, contains-cons, contains-count, contains-append, absent-count,
  if◌then◌else◌, returns, fails, Fallible, Fallible-cases, codes, ◌≡◌, refl, ◌∙◌, arith, Bool-cases,
  inl, inr, ◌⊎◌,
}
use buildfab.Config.Include.{
  FileSystem, PartialConfig, add_files, resolve_pattern, resolve_from, resolve_includes, load_from,
  load_included_configs,
}

abbrev pub load_failed : Str → Str → Str
load_failed path e = codes "failed to load included file " ++ (path ++ (codes ": " ++ e))

-- Some pattern resolves to a list with that file.
abbrev pub IsNamed : FileSystem → List Str → Str → Type 0
IsNamed fs patterns file =
    (p : Str) × (files : List Str) × (contains patterns p ≡ true)
    × (resolve_pattern fs p ≡ returns files)
    × (contains files file ≡ true)

abbrev add_file : List Str → Str → List Str
add_file resolved file = if contains resolved file then resolved else resolved ++ file ∷ []

add_files-once :
    (resolved files : List Str)
    → ((n : Str) → count resolved n ≤ 1)
    → (n : Str) → count (add_files resolved files) n ≤ 1
unfolding add_files
add_files-once resolved [] once n = once n
add_files-once resolved (file ∷ files) once n =
    add_files-once (add_file resolved file) files
      (λ m. ground (
        arith,
        once m,
        count-append resolved (file ∷ []) m,
        count-cons file [] m,
        count-nil m,
        absent-count resolved m,
        str_eq_iff file m,
      ))
      n

add_files-contains :
    (resolved files : List Str) (n : Str)
    → contains (add_files resolved files) n ≡ (contains resolved n || contains files n)
unfolding add_files contains
add_files-contains resolved [] n = ground arith
add_files-contains resolved (file ∷ files) n =
    add_files-contains (add_file resolved file) files n
    ∙ ground
        (arith, contains-append resolved (file ∷ []) n, contains-cons file [] n, str_eq_iff file n)

contains_head : (x : Str) (xs : List Str) → contains (x ∷ xs) x ≡ true
unfolding contains
contains_head x xs = rw (str_eq_refl x) refl

contains_tail :
    (x : Str) (xs : List Str) (n : Str) → contains xs n ≡ true → contains (x ∷ xs) n ≡ true
unfolding contains
contains_tail x xs n h = ground (arith, h)

nothing : (n : Str) → ¬ (contains [] n ≡ true)
unfolding contains
nothing n h = cc

returned : (xs ys : List Str) → returns xs ≡ returns ys → xs ≡ ys
returned xs ys k = cc

module _ (fs : FileSystem) where
  resolve_from-once :
      (resolved patterns found : List Str)
      → resolve_from fs resolved patterns ≡ returns found
      → ((n : Str) → count resolved n ≤ 1)
      → (n : Str) → count found n ≤ 1
  unfolding resolve_from
  resolve_from-once resolved [] found h once n = ground (arith, once n, returned resolved found h)
  resolve_from-once resolved (p ∷ patterns) found h once n =
      elim (Fallible-cases (resolve_pattern fs p)) [
        | inl (e, is) ↦ cc (rw (is, resolve_from) at h)
        | inr (files, is) ↦
            resolve_from-once (add_files resolved files) patterns found (rw (is, resolve_from) at h)
              (add_files-once resolved files once) n
      ]

  resolve_from-finds :
      (resolved patterns found : List Str) (n : Str)
      → resolve_from fs resolved patterns ≡ returns found
      → contains found n ≡ true
      → (contains resolved n ≡ true) ⊎ IsNamed fs patterns n
  unfolding resolve_from contains
  resolve_from-finds resolved [] found n h inn = inl (ground (arith, returned resolved found h))
  resolve_from-finds resolved (p ∷ patterns) found n h inn =
      elim (Fallible-cases (resolve_pattern fs p)) [
        | inl (e, is) ↦ cc (rw (is, resolve_from) at h)
        | inr (files, is) ↦
            elim (resolve_from-finds (add_files resolved files) patterns found n
              (rw (is, resolve_from) at h) inn) [
                | inr (q, qs, q_in, q_is, n_in) ↦ inr (q, qs, ground (arith, q_in), q_is, n_in)
                | inl early ↦ elim (Bool-cases (contains resolved n)) [
                  | inl old ↦ inl old
                  | inr new ↦ inr (
                    p,
                    files,
                    rw (str_eq_refl p) refl,
                    is,
                    ground (arith, add_files-contains resolved files n),
                  )
                ]
              ]
      ]

  load_from-returns :
      (visited : List Str) (merged : PartialConfig) (paths : List Str)
      → ((n : Str) → count visited n + count paths n ≤ 1)
      → ((c : PartialConfig) × (load_from fs visited merged paths ≡ returns c))
        ⊎ ((path : Str) × (e : Str) × (contains paths path ≡ true)
            × (fs.read path ≡ fails e)
            × (load_from fs visited merged paths ≡ fails (load_failed path e)))
  unfolding load_from
  load_from-returns visited merged [] once = inl (merged, refl)
  load_from-returns visited merged (path ∷ paths) once = elim (Bool-cases (contains visited path)) [
    | inl seen ↦ absurd (twice seen)
    | inr fresh ↦ elim (Fallible-cases (fs.read path)) [
      | inl (e, is) ↦ inr (path, e, contains_head path paths, is, rw (fresh, is, load_from) refl)
      | inr (config, is) ↦
          rw (fresh, is, load_from)
            (later (
              load_from-returns (path ∷ visited) _ paths
                (λ n. ground (arith, once n, count-cons path visited n, count-cons path paths n))))
    ]
  ]
    where
      twice : ¬ (contains visited path ≡ true)
      twice seen = ground (
        arith,
        contains-count visited path seen,
        once path,
        count-cons path paths path,
        str_eq_refl path,
      )

      later :
          {X : Type 0} {o : Fallible PartialConfig}
          → X
            ⊎ ((p : Str) × (e : Str) × (contains paths p ≡ true)
                × (fs.read p ≡ fails e)
                × (o ≡ fails (load_failed p e)))
          → X
            ⊎ ((p : Str) × (e : Str) × (contains (path ∷ paths) p ≡ true)
                × (fs.read p ≡ fails e)
                × (o ≡ fails (load_failed p e)))
      later (inl x) = inl x
      later (inr (p, e, inn, is, err)) = inr (p, e, contains_tail path paths p inn, is, err)

  -- When the patterns resolve, the files they resolve to are files that some pattern names, each
  -- once; so loading them never reports a circular include: it returns a configuration, or the error
  -- that one of these files cannot be read, with the file and its error.
  pub resolve_includes-load :
      (patterns found : List Str)
      → resolve_includes fs patterns ≡ returns found
      → ((n : Str) → count found n ≤ 1)
        × ((n : Str) → contains found n ≡ true → IsNamed fs patterns n)
        × (((c : PartialConfig) × (load_included_configs fs found ≡ returns c))
            ⊎ ((path : Str) × (e : Str) × (contains found path ≡ true)
                × (fs.read path ≡ fails e)
                × (load_included_configs fs found ≡ fails (load_failed path e))))
  resolve_includes-load patterns found h =
      (once, named, load_from-returns [] _ found (λ n. omega (arith, once n, count-nil n)))
    where
      once : (n : Str) → count found n ≤ 1
      once = resolve_from-once [] patterns found h (λ n. omega (arith, count-nil n))

      named : (n : Str) → contains found n ≡ true → IsNamed fs patterns n
      named n inn = elim (resolve_from-finds [] patterns found n h inn) [
        | inl old ↦ absurd (nothing n old)
        | inr found_ ↦ found_
      ]
