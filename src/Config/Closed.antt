-- ===== src/Config/Closed.antt =====
-- Resolving the variables of a text ends, and leaves no reference in it. Each round removes the `$` of
-- a reference, and a value without one adds none.
use buildfab.Base.{
  ℕ, zero, suc, ◌+◌, ◌-◌, ◌≤◌, ◌<◌, Str, true, false, [], ◌∷◌, ◌++◌, none, some, take, drop, ltb,
  ◌==◌, if◌then◌else◌, All, ◌≡◌, refl, arith, Bool-cases, Option-cases, inl, inr,
}
use buildfab.Base.Dict
use buildfab.Base.Dict.{Dict}
use buildfab.Base.Strings.{has_prefix, str_contains, trim_space}
use buildfab.Config.Variables.{
  str_index, opening, closing, unclosed, undefined_variable, panics, out_of_fuel, Resolved,
  resolved, unresolved, resolve_reference, resolve_round, resolve_string,
}

-- How many `$` there are.
unfoldable pub dollars : Str → ℕ
dollars [] = 0
dollars (c ∷ cs) = let rest = dollars cs in if c == 36 then suc rest else rest

-- What a resolved text is, and what an error says. Running out of fuel and a panic are no outcome.
abbrev pub Settles : Dict Str → Resolved → Type 0
Settles variables (resolved t) = str_contains t opening ≡ false
Settles variables (unresolved (unclosed t)) =
    (has_prefix t opening ≡ true) × (str_contains t closing ≡ false)
Settles variables (unresolved (undefined_variable name)) = Dict.lookup name variables ≡ none
Settles variables (unresolved panics) = ⊥
Settles variables (unresolved out_of_fuel) = ⊥

dollars-append : (s t : Str) → dollars (s ++ t) ≡ dollars s + dollars t
unfolding dollars
dollars-append [] t = omega arith
dollars-append (c ∷ s) t = ground (arith, dollars-append s t)

dollars-drop : (n : ℕ) (s : Str) → dollars (drop n s) ≤ dollars s
unfolding dollars
dollars-drop zero s = omega arith
dollars-drop (suc n) [] = omega arith
dollars-drop (suc n) (c ∷ s) = ground (arith, dollars-drop n s)

take-drop : (n : ℕ) (s : Str) → dollars (take n s) + dollars (drop n s) ≡ dollars s
unfolding dollars
take-drop zero s = omega arith
take-drop (suc n) [] = omega arith
take-drop (suc n) (c ∷ s) = ground (arith, take-drop n s)

lookup-plain :
    (variables : Dict Str)
    → All (λ e. dollars (e.1) ≡ 0) variables
    → (k v : Str) → Dict.lookup k variables ≡ some v
    → dollars v ≡ 0
unfolding Dict.lookup
lookup-plain [] plain k v h = cc
lookup-plain ((j, w) ∷ variables) plain k v h =
    ground (arith, plain.0, lookup-plain variables (plain.1) k v)

str_index-none : (s p : Str) → str_index s p ≡ none → str_contains s p ≡ false
unfolding str_index str_contains
str_index-none [] p h = elim (Bool-cases (has_prefix [] p)) [
  | inl found ↦ cc (rw (found, str_index) at h)
  | inr other ↦ other
]
str_index-none (c ∷ cs) p h = elim (Bool-cases (has_prefix (c ∷ cs) p)) [
  | inl found ↦ cc (rw (found, str_index) at h)
  | inr other ↦ elim (Option-cases (str_index cs p)) [
    | inl is ↦ ground (arith, other, str_index-none cs p is)
    | inr (i, is) ↦ cc (rw (other, is, str_index) at h)
  ]
]

str_index-some : (s p : Str) (n : ℕ) → str_index s p ≡ some n → has_prefix (drop n s) p ≡ true
unfolding str_index
str_index-some [] p n h = elim (Bool-cases (has_prefix [] p)) [
  | inl found ↦ at_end n found
  | inr other ↦ cc (rw (other, str_index) at h)
]
  where
    at_end : (n : ℕ) → has_prefix [] p ≡ true → has_prefix (drop n []) p ≡ true
    at_end zero found = found
    at_end (suc n) found = found
str_index-some (c ∷ cs) p n h = elim (Bool-cases (has_prefix (c ∷ cs) p)) [
  | inl found ↦ let k : 0 ≡ n = cc (rw (found, str_index) at h) in rw (← k) found
  | inr other ↦ elim (Option-cases (str_index cs p)) [
    | inl is ↦ cc (rw (other, is, str_index) at h)
    | inr (i, is) ↦
        let k : suc i ≡ n = cc (rw (other, is, str_index) at h) in
        rw (← k) (str_index-some cs p i is)
  ]
]

opened : (s : Str) → has_prefix s opening ≡ true → (r : Str) × (s ≡ 36 ∷ 123 ∷ 123 ∷ r)
unfolding has_prefix
opened [] h = cc
opened (a ∷ []) h = ground (arith, h)
opened (a ∷ b ∷ []) h = ground (arith, h)
opened (a ∷ b ∷ c ∷ r) h =
    let x : a ≡ 36 = ground (arith, h) in
    let y : b ≡ 123 = ground (arith, h) in
    let z : c ≡ 123 = ground (arith, h) in (r, rw (x, y, z) refl)

-- The end of a reference is behind its opening braces.
after_opening : (r : Str) (end : ℕ) → str_index (36 ∷ 123 ∷ 123 ∷ r) closing ≡ some end → 3 ≤ end
unfolding str_index has_prefix
after_opening r end h = elim (Option-cases (str_index r closing)) [
  | inl is ↦ cc (rw (is) at h)
  | inr (i, is) ↦ let k : suc (suc (suc i)) ≡ end = cc (rw (is) at h) in omega arith
]

dollars-past : (n : ℕ) (r : Str) → 0 < n → dollars (drop n (36 ∷ r)) < dollars (36 ∷ r)
unfolding dollars
dollars-past zero r h = omega (arith, h)
dollars-past (suc n) r h = omega (arith, dollars-drop n r)

-- What is left behind a round has fewer `$`.
fewer :
    (before value r : Str) (n : ℕ)
    → dollars value ≡ 0
    → 0 < n
    → dollars (before ++ (value ++ drop n (36 ∷ r))) < dollars before + dollars (36 ∷ r)
fewer before value r n plain h = omega (
  arith,
  plain,
  dollars-append before (value ++ drop n (36 ∷ r)),
  dollars-append value (drop n (36 ∷ r)),
  dollars-past n r h,
)

module _ (variables : Dict Str) (plain : All (λ e. dollars (e.1) ≡ 0) variables) where
  reference-Settles :
      (next : Str → Resolved) (before r : Str) (end : ℕ)
      → 3 ≤ end
      → ((t : Str) → dollars t < dollars before + dollars (36 ∷ r) → Settles variables (next t))
      → Settles variables (resolve_reference next variables before (36 ∷ r) end)
  unfolding resolve_reference
  reference-Settles next before r end far ih =
      let name = trim_space (take (end - 3) (drop 3 (36 ∷ r))) in
      let late : ltb end 3 ≡ false = ground (arith, far) in
      elim (Option-cases (Dict.lookup name variables)) [
        | inl is ↦ rw (late, is, resolve_reference) is
        | inr (value, is) ↦
            rw (late, is, resolve_reference)
              (ih (before ++ (value ++ drop (end + 2) (36 ∷ r))) (
                fewer before value r (end + 2) (lookup-plain variables plain name value is)
                  (omega arith)))
      ]

  round-Settles :
      (next : Str → Resolved) (s : Str)
      → ((t : Str) → dollars t < dollars s → Settles variables (next t))
      → Settles variables (resolve_round next variables s)
  unfolding resolve_round
  round-Settles next s ih = elim (Option-cases (str_index s opening)) [
    | inl is ↦ rw (is, resolve_round) (str_index-none s opening is)
    | inr (start, is) ↦
        let found = str_index-some s opening start is in
        elim (Option-cases (str_index (drop start s) closing)) [
          | inl open_ ↦
              rw (is, open_, resolve_round) (found, str_index-none (drop start s) closing open_)
          | inr (end, shut) ↦
              let (r, same) = opened (drop start s) found in
              rw (is, shut, resolve_round)
                (reference-at start (123 ∷ 123 ∷ r) same end
                  (after_opening r end (rw (same) at shut)))
        ]
  ]
    where
      reference-at :
          (start : ℕ) (r : Str)
          → drop start s ≡ 36 ∷ r
          → (end : ℕ) → 3 ≤ end
          → Settles variables (resolve_reference next variables (take start s) (drop start s) end)
      reference-at start r same end far =
          let whole : dollars (take start s) + dollars (36 ∷ r) ≡ dollars s =
            rw (← same) (take-drop start s) in
          rw (same) (
            reference-Settles next (take start s) r end far (λ t h. ih t (omega (arith, h, whole))))

  -- If no value of the variables contains a `$`, then on fuel of more than the number of `$` in a
  -- text the loop of resolveString ends and does not panic: with a text in which no `${{` is left,
  -- with a reference that is not closed, or with the name of a variable that is not defined.
  pub resolve_string-Settles :
      (fuel : ℕ) (s : Str) → dollars s < fuel → Settles variables (resolve_string fuel variables s)
  unfolding resolve_string
  resolve_string-Settles zero s fits = omega (arith, fits)
  resolve_string-Settles (suc fuel) s fits =
      round-Settles (resolve_string fuel variables) s
        (λ t h. resolve_string-Settles fuel t (omega (arith, h, fits)))
