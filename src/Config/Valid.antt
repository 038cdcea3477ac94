-- ===== src/Config/Valid.antt =====
-- Which configurations `Validate` accepts.
use buildfab.Base.{
  ℕ, suc, Str, codes, Bool, true, false, not, ◌&&◌, List, [], ◌∷◌, map, none, str_eq_iff,
  str_eq_sym, contains, first_of, refuse, both, ◌≡◌, ◌≢◌, refl, sym, ◌∙◌, ◌↔◌, ◌||◌, All, arith,
}
use buildfab.Base.Dict.{Dict}
use buildfab.Config.{ActionVariant, Action, Step, Stage, Config}
use buildfab.Config.Validate.{
  ConfigError, action_name_required, duplicate_action, is_empty, validate_variant,
  validate_variants, validate_command, validate_actions, only_values, is_bad_only, validate_only,
  is_bad_on_error, validate_step, validate_steps, validate_stage, validate_stages, validate_any,
  names_after, validate,
}

-- Exactly one of the two is given.
abbrev pub IsOneOf : Str → Str → Type 0
IsOneOf run uses = is_empty run ≢ is_empty uses

abbrev pub IsVariant : ActionVariant → Type 0
IsVariant v = (v.when ≢ []) × IsOneOf v.run v.uses

abbrev pub IsCommand : Action → List ActionVariant → Type 0
IsCommand a [] = IsOneOf a.run a.uses
IsCommand a (v ∷ vs) = All IsVariant (v ∷ vs)

abbrev pub IsAction : Action → Type 0
IsAction a = (a.name ≢ []) × IsCommand a a.variants

-- No name stands earlier in the list or among `names`.
abbrev pub AreFresh : List Str → List Action → Type 0
AreFresh names [] = Unit
AreFresh names (a ∷ actions) = (contains names a.name ≡ false) × AreFresh (a.name ∷ names) actions

abbrev pub on_error_values : List Str
on_error_values = [] ∷ codes "stop" ∷ codes "warn" ∷ []

abbrev pub IsStep : List Action → Step → Type 0
IsStep actions s =
    (s.action ≢ [])
    × ((contains (map (λ a. a.name) actions) s.action ≡ true)
        × ((contains on_error_values s.on_error ≡ true)
            × All (λ o. contains only_values o ≡ true) s.only))

abbrev pub IsStage : List Action → Stage → Type 0
IsStage actions stage = (stage.steps ≢ []) × All (IsStep actions) stage.steps

pub record IsValid (c : Config) (stages : Dict Stage) : Type 0 where
  pub project : c.project_name ≢ []
  pub some_action : c.actions ≢ []
  pub actions : All IsAction c.actions
  pub fresh : AreFresh [] c.actions
  pub stages_valid : All (λ e. IsStage c.actions (e.1)) stages

compose : {A B C : Type 0} → A ↔ B → B ↔ C → A ↔ C
compose f g = (λ a. g.0 (f.0 a), λ c. f.1 (g.1 c))

only_iff : (o : Str) → (is_bad_only o ≡ false) ↔ (contains only_values o ≡ true)
unfolding is_bad_only contains
only_iff o = ground (
  arith,
  str_eq_sym o (codes "release"),
  str_eq_sym o (codes "prerelease"),
  str_eq_sym o (codes "patch"),
  str_eq_sym o (codes "minor"),
  str_eq_sym o (codes "major"),
)

on_error_iff : (e : Str) → (is_bad_on_error e ≡ false) ↔ (contains on_error_values e ≡ true)
unfolding is_bad_on_error contains
on_error_iff e =
    ground (arith, str_eq_sym e [], str_eq_sym e (codes "stop"), str_eq_sym e (codes "warn"))

refuse-none : (b : Bool) (e : ConfigError) → (refuse b e ≡ none) ↔ (b ≡ false)
refuse-none true e = (λ h. cc, λ h. cc)
refuse-none false e = (λ h. refl, λ h. refl)

empty_iff : (s : Str) → (is_empty s ≡ false) ↔ (s ≢ [])
empty_iff s = ground (arith, str_eq_iff s [])

refuse_empty : (s : Str) (e : ConfigError) → (refuse (is_empty s) e ≡ none) ↔ (s ≢ [])
refuse_empty s e = compose (refuse-none (is_empty s) e) (empty_iff s)

refuse_unless : (b : Bool) (e : ConfigError) → (refuse (not b) e ≡ none) ↔ (b ≡ true)
refuse_unless true e = (λ h. refl, λ h. refl)
refuse_unless false e = (λ h. cc, λ h. cc)

-- The two checks on a command.
command-none :
    (a b : Bool) (e f : ConfigError)
    → (first_of (refuse (a && b) e) (refuse (not a && not b) f) ≡ none) ↔ (a ≢ b)
command-none true true e f = (λ h k. cc, λ h. absurd (h refl))
command-none true false e f = (λ h k. cc, λ h. refl)
command-none false true e f = (λ h k. cc, λ h. refl)
command-none false false e f = (λ h k. cc, λ h. absurd (h refl))

validate_variant-none :
    (name : Str) (i : ℕ) (v : ActionVariant) → (validate_variant name i v ≡ none) ↔ IsVariant v
unfolding validate_variant
validate_variant-none name i v =
    both _ _ (refuse_empty v.when _) (command-none (is_empty v.run) (is_empty v.uses) _ _)

validate_variants-none :
    (name : Str) (i : ℕ) (vs : List ActionVariant)
    → (validate_variants name i vs ≡ none) ↔ All IsVariant vs
unfolding validate_variants
validate_variants-none name i [] = (λ h. tt, λ h. refl)
validate_variants-none name i (v ∷ vs) =
    both _ _ (validate_variant-none name i v) (validate_variants-none name (suc i) vs)

validate_command-none :
    (a : Action) (vs : List ActionVariant) → (validate_command a vs ≡ none) ↔ IsCommand a vs
unfolding validate_command
validate_command-none a [] = command-none (is_empty a.run) (is_empty a.uses) _ _
validate_command-none a (v ∷ vs) = validate_variants-none a.name 0 (v ∷ vs)

validate_actions-none :
    (names : List Str) (actions : List Action)
    → (validate_actions names actions ≡ none) ↔ (All IsAction actions × AreFresh names actions)
unfolding validate_actions
validate_actions-none names [] = (λ h. (tt, tt), λ h. refl)
validate_actions-none names (a ∷ actions) =
    let parts = both _ _ (refuse_empty a.name action_name_required) (
      both _ _ (validate_command-none a a.variants) (
        both _ _ (refuse-none (contains names a.name) (duplicate_action a.name))
          (validate_actions-none (a.name ∷ names) actions))) in
    (
      λ h. let (n, (c, (f, (all, fresh)))) = parts.0 h in (((n, c), all), (f, fresh)),
      λ h. parts.1 (h.0.0.0, (h.0.0.1, (h.1.0, (h.0.1, h.1.1)))),
    )

validate_only-none :
    (i : ℕ) (stage : Str) (only : List Str)
    → (validate_only i stage only ≡ none) ↔ All (λ o. contains only_values o ≡ true) only
unfolding validate_only
validate_only-none i stage [] = (λ h. tt, λ h. refl)
validate_only-none i stage (o ∷ only) =
    both _ _ (compose (refuse-none (is_bad_only o) _) (only_iff o))
      (validate_only-none i stage only)

names_after-contains :
    (names : List Str) (actions : List Action) (n : Str)
    → contains (names_after names actions) n
      ≡ (contains (map (λ a. a.name) actions) n || contains names n)
unfolding contains
names_after-contains names [] n = refl
names_after-contains names (a ∷ actions) n =
    names_after-contains (a.name ∷ names) actions n ∙ ground arith

module _ (actions : List Action) where
  abbrev names : List Str
  names = names_after [] actions

  known : (s : Str) → contains names s ≡ contains (map (λ a. a.name) actions) s
  unfolding contains
  known s = names_after-contains [] actions s ∙ ground arith

  validate_step-none :
      (stage : Str) (i : ℕ) (s : Step) → (validate_step names stage i s ≡ none) ↔ IsStep actions s
  unfolding validate_step
  validate_step-none stage i s = both _ _ (refuse_empty s.action _) (
      both _ _
        (compose (refuse_unless (contains names s.action) _)
          (λ h. sym (known s.action) ∙ h, λ h. known s.action ∙ h))
        (both _ _ (compose (refuse-none (is_bad_on_error s.on_error) _) (on_error_iff s.on_error))
          (validate_only-none i stage s.only)))

  validate_steps-none :
      (stage : Str) (i : ℕ) (steps : List Step)
      → (validate_steps names stage i steps ≡ none) ↔ All (IsStep actions) steps
  unfolding validate_steps
  validate_steps-none stage i [] = (λ h. tt, λ h. refl)
  validate_steps-none stage i (s ∷ steps) =
      both _ _ (validate_step-none stage i s) (validate_steps-none stage (suc i) steps)

  validate_stage-none :
      (stage : Str) (steps : List Step)
      → (validate_stage names stage steps ≡ none) ↔ ((steps ≢ []) × All (IsStep actions) steps)
  unfolding validate_stage
  validate_stage-none stage [] = (λ h. cc, λ h. absurd (h.0 refl))
  validate_stage-none stage (s ∷ steps) =
      let rest = validate_steps-none stage 1 (s ∷ steps) in
      (λ h. ((λ k. cc), rest.0 h), λ h. rest.1 h.1)

  validate_stages-none :
      (stages : Dict Stage)
      → (validate_stages names stages ≡ none) ↔ All (λ e. IsStage actions (e.1)) stages
  unfolding validate_stages
  validate_stages-none [] = (λ h. tt, λ h. refl)
  validate_stages-none ((name, stage) ∷ stages) =
      both _ _ (validate_stage-none name stage.steps) (validate_stages-none stages)

validate_any-none : (actions : List Action) → (validate_any actions ≡ none) ↔ (actions ≢ [])
unfolding validate_any
validate_any-none [] = (λ h. cc, λ h. absurd (h refl))
validate_any-none (a ∷ actions) = (λ h k. cc, λ h. refl)

pub validate-none :
    (range : Dict Stage → Dict Stage) (c : Config)
    → (validate range c ≡ none) ↔ IsValid c (range c.stages)
unfolding validate
validate-none range c =
    let parts = both _ _ (refuse_empty c.project_name _) (
      both _ _ (validate_any-none c.actions) (
        both _ _ (validate_actions-none [] c.actions)
          (validate_stages-none c.actions (range c.stages)))) in
    (
      λ h.
          let (p, (some_, ((all, fresh), stages))) = parts.0 h in
          record {
            project = p;
            some_action = some_;
            actions = all;
            fresh = fresh;
            stages_valid = stages;
          },
      λ v. parts.1 (v.project, (v.some_action, ((v.actions, v.fresh), v.stages_valid))),
    )
