-- ===== src/Config/Variables.antt =====
-- The variables of internal/config/config.go: `ResolveVariables` and `resolveString`. Each round of
-- the loop of `resolveString` takes one unit of fuel; `out_of_fuel` is no outcome of the program.
use buildfab.Base.{
  ℕ, zero, suc, ◌-◌, Str, codes, true, false, List, [], ◌∷◌, Option, none, some, str_eq, take, drop,
  ltb, if◌then◌else◌, ◌++◌, ◌+◌,
}
use buildfab.Base.Dict
use buildfab.Base.Dict.{Dict}
use buildfab.Base.Strings.{has_prefix, trim_space}
use buildfab.Config.{Action}

-- strings.Index: where the first occurrence starts.
unfoldable pub str_index : Str → Str → Option ℕ
unfolding has_prefix
str_index [] p = if has_prefix [] p then some 0 else none
str_index (c ∷ cs) p = elim (has_prefix (c ∷ cs) p) [
  | true ↦ some 0
  | false ↦ elim (str_index cs p) [ none ↦ none | some i ↦ some (suc i) ]
]

abbrev pub opening : Str
opening = codes "${{"

abbrev pub closing : Str
closing = codes "}}"

-- `panics` is a slice whose end is before its start.
pub data ResolveError : Type 0 where
  unclosed : Str → ResolveError
  undefined_variable : Str → ResolveError
  panics : ResolveError
  out_of_fuel : ResolveError

pub data Resolved : Type 0 where
  resolved : Str → Resolved
  unresolved : ResolveError → Resolved

-- What a round of the loop makes of the text before a reference, the text from the reference on, and
-- the end of the reference in it; `next` is the rest of the loop.
unfoldable pub resolve_reference : (Str → Resolved) → Dict Str → Str → Str → ℕ → Resolved
resolve_reference next variables before rest end =
    let name = trim_space (take (end - 3) (drop 3 rest)) in
    if ltb end 3 then unresolved panics else elim (Dict.lookup name variables) [
      | none ↦ unresolved (undefined_variable name)
      | some value ↦ next (before ++ (value ++ drop (end + 2) rest))
    ]

-- The body of the loop.
unfoldable pub resolve_round : (Str → Resolved) → Dict Str → Str → Resolved
resolve_round next variables s = elim (str_index s opening) [
  | none ↦ resolved s
  | some start ↦
      let rest = drop start s in
      elim (str_index rest closing) [
        | none ↦ unresolved (unclosed rest)
        | some end ↦ resolve_reference next variables (take start s) rest end
      ]
]

unfoldable pub resolve_string : ℕ → Dict Str → Str → Resolved
resolve_string zero variables s = unresolved out_of_fuel
resolve_string (suc fuel) variables s = resolve_round (resolve_string fuel variables) variables s

-- The actions behind the loop of `ResolveVariables`, and its error: the name of an action and what
-- is wrong with its command.
pub record Resolution : Type 0 where
  pub actions : List Action
  pub error : Option (Str × ResolveError)

abbrev pub behind : Action → Resolution → Resolution
behind a r = record { actions = a ∷ r.actions; error = r.error }

unfoldable pub resolve_action : (Str → Resolved) → Action → List Action → Resolution → Resolution
resolve_action resolve a actions later = elim (resolve a.run) [
  | resolved run ↦ behind (record a { run = run }) later
  | unresolved e ↦ record { actions = a ∷ actions; error = some (a.name, e) }
]

-- The loop over the actions, for what `resolveString` is.
unfoldable pub resolve_variables : (Str → Resolved) → List Action → Resolution
unfolding resolve_action
resolve_variables resolve [] = record { actions = []; error = none }
resolve_variables resolve (a ∷ actions) =
    let later = resolve_variables resolve actions in
    if str_eq a.run [] then behind a later else resolve_action resolve a actions later
