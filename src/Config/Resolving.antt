-- ===== src/Config/Resolving.antt =====
-- `ResolveVariables` as a whole: how far it comes, and what it leaves.
use buildfab.Base.{
  suc, Str, false, List, [], ◌∷◌, ◌++◌, map, Option, none, some, str_eq, str_eq_iff, All, ◌≡◌, refl,
  arith, Bool-cases, inl, inr, ◌⊎◌,
}
use buildfab.Base.Dict.{Dict}
use buildfab.Base.Strings.{has_prefix, str_contains}
use buildfab.Config.{Action}
use buildfab.Config.Variables.{
  opening, ResolveError, Resolved, resolved, unresolved, resolve_string, resolve_round, str_index,
  Resolution, behind, resolve_action, resolve_variables,
}
use buildfab.Config.Closed.{dollars, Settles, resolve_string-Settles}

-- `resolveString` with fuel enough.
abbrev pub resolve_text : Dict Str → Str → Resolved
resolve_text variables s = resolve_string (suc (dollars s)) variables s

-- An action but for its command.
abbrev pub without_run : Action → Action
without_run a = record a { run = [] }

-- Where the loop stops: at the end without an error, or at the action that its error names.
abbrev pub Stops : Dict Str → List Action → Option (Str × ResolveError) → Type 0
Stops variables rest none = rest ≡ []
Stops variables [] (some _) = ⊥
Stops variables (a ∷ rest) (some (name, e)) =
    (name ≡ a.name)
    × (resolve_text variables a.run ≡ unresolved e)
    × Settles variables (unresolved e)

pub record IsResolution (variables : Dict Str) (actions : List Action) (r : Resolution)
    : Type 0 where
  pub done : List Action
  pub done_before : List Action
  pub rest : List Action
  pub before : actions ≡ done_before ++ rest
  pub after : r.actions ≡ done ++ rest
  pub same : map without_run done ≡ map without_run done_before
  pub commands :
      map (λ a. resolve_text variables a.run) done_before ≡ map (λ a. resolved a.run) done
  pub closed : All (λ a. str_contains a.run opening ≡ false) done
  pub stops : Stops variables rest r.error

Resolved-cases :
    (r : Resolved) → ((t : Str) × (r ≡ resolved t)) ⊎ ((e : ResolveError) × (r ≡ unresolved e))
Resolved-cases (resolved t) = inl (t, refl)
Resolved-cases (unresolved e) = inr (e, refl)

resolve_empty : (variables : Dict Str) → resolve_text variables [] ≡ resolved []
unfolding resolve_string resolve_round str_index has_prefix dollars
resolve_empty variables = refl

no_reference : str_contains [] opening ≡ false
unfolding str_contains
no_reference = refl

module _ (variables : Dict Str) where
  behind-IsResolution :
      (a a' : Action) (actions : List Action) (r : Resolution)
      → without_run a' ≡ without_run a
      → resolve_text variables a.run ≡ resolved a'.run
      → str_contains a'.run opening ≡ false
      → IsResolution variables actions r
      → IsResolution variables (a ∷ actions) (behind a' r)
  behind-IsResolution a a' actions r like into closed h = record {
    done = a' ∷ h.done;
    done_before = a ∷ h.done_before;
    rest = h.rest;
    before = rw (h.before) refl;
    after = rw (h.after) refl;
    same = rw (like, h.same) refl;
    commands = rw (into, h.commands) refl;
    closed = (closed, h.closed);
    stops = h.stops;
  }

  module _ (plain : All (λ e. dollars (e.1) ≡ 0) variables) where
    settles : (s : Str) → Settles variables (resolve_text variables s)
    settles s = resolve_string-Settles variables plain (suc (dollars s)) s (omega arith)

    action-IsResolution :
        (a : Action) (actions : List Action) (later : Resolution)
        → IsResolution variables actions later
        → IsResolution variables
            (a ∷ actions)
            (resolve_action (resolve_text variables) a actions later)
    unfolding resolve_action
    action-IsResolution a actions later h = elim (Resolved-cases (resolve_text variables a.run)) [
      | inl (t, is) ↦
          rw (is, resolve_action)
            (behind-IsResolution a (record a { run = t }) actions later refl is
              (rw (is) at (settles a.run)) h)
      | inr (e, is) ↦
          rw (is, resolve_action)
            (record {
              done = [];
              done_before = [];
              rest = a ∷ actions;
              before = refl;
              after = refl;
              same = refl;
              commands = refl;
              closed = tt;
              stops = (refl, is, rw (is) at (settles a.run));
            })
    ]

    -- If no value of the variables contains a `$`, then ResolveVariables replaces the commands of
    -- the actions, from the first on, by what resolveString makes of them, in which no `${{` is
    -- left, changes nothing else, and without an error has done all; with one, it stopped at the
    -- action that the error names, with the error of resolveString for its command, which is a
    -- reference that is not closed or a variable that is not defined.
    pub resolve_variables-IsResolution :
        (actions : List Action)
        → IsResolution variables actions (resolve_variables (resolve_text variables) actions)
    unfolding resolve_variables
    resolve_variables-IsResolution [] = record {
      done = [];
      done_before = [];
      rest = [];
      before = refl;
      after = refl;
      same = refl;
      commands = refl;
      closed = tt;
      stops = refl;
    }
    resolve_variables-IsResolution (a ∷ actions) =
        let ih = resolve_variables-IsResolution actions in
        elim (Bool-cases (str_eq a.run [])) [
          | inl empty ↦
              rw (empty, resolve_variables)
                (behind-IsResolution a a actions _ refl
                  (rw ((str_eq_iff a.run []).0 empty) (resolve_empty variables))
                  (rw ((str_eq_iff a.run []).0 empty) no_reference) ih)
          | inr given ↦ rw (given, resolve_variables) (action-IsResolution a actions _ ih)
        ]
