-- ===== src/Expression/Shorter.antt =====
-- The strings that the evaluation of an expression goes on with are shorter parts of the expression.
use buildfab.Base.{
  ℕ, suc, ◌+◌, ◌-◌, ◌<◌, Str, true, ◌&&◌, [], ◌∷◌, ◌++◌, length, take, drop, Option, none, some,
  ◌≡◌, refl, arith, codes, ◌==◌, Bool-cases, Option-cases, inl, inr, str_eq, All, not, subst, List,
}
use buildfab.Base.Strings.{has_prefix, has_suffix, str_contains, split, trim_space}
use buildfab.Base.Bytes.{
  IsPart, IsPart-refl, IsPart-trans, IsPart-cons, trim_space-IsPart, take-IsPart, drop-IsPart,
  length-take, length-drop,
}
use buildfab.Base.Splits.{split-IsPart, split-pair}
use buildfab.Expression.Parse.{
  inside, operator_here, moved, find_operator, operator_at, two_parts, match_call, argument_text,
  no_newline, is_word,
}

pub record IsShorter (s e : Str) : Type 0 where
  pub part : IsPart s e
  pub less : length s < length e

pub trim_space-IsShorter : {s e : Str} → IsShorter s e → IsShorter (trim_space s) e
trim_space-IsShorter {s} {e} f = record {
  part = IsPart-trans (trim_space-IsPart s) f.part;
  less = let h = (trim_space-IsPart s).length_le in let k = f.less in omega arith;
}

pub IsShorter-in : {s d e : Str} → IsShorter s d → IsPart d e → IsShorter s e
IsShorter-in f g = record {
  part = IsPart-trans f.part g;
  less = let h = f.less in let k = g.length_le in omega arith;
}

pub IsPart-IsShorter : {s d e : Str} → IsPart s d → IsShorter d e → IsShorter s e
IsPart-IsShorter f g = record {
  part = IsPart-trans f g.part;
  less = let h = f.length_le in let k = g.less in omega arith;
}

pub has_prefix-cons : (e : Str) (c : ℕ) (cs : Str) → has_prefix e (c ∷ cs) ≡ true → 0 < length e
unfolding has_prefix
has_prefix-cons [] c cs h = cc
has_prefix-cons (x ∷ e) c cs h = omega arith

pub drop-IsShorter : (n : ℕ) (e : Str) → 0 < n → 0 < length e → IsShorter (drop n e) e
drop-IsShorter n e h k = record { part = drop-IsPart n e; less = omega (arith, length-drop n e) }

pub inside-IsPart : (from off : ℕ) (e : Str) → IsPart (inside from off e) e
unfolding inside
inside-IsPart from off e =
    IsPart-trans (drop-IsPart from (take (length e - off) e)) (take-IsPart (length e - off) e)

pub inside-IsShorter :
    (from off : ℕ) (e : Str) → 0 < off → 0 < length e → IsShorter (inside from off e) e
unfolding inside
inside-IsShorter from off e h k = record {
  part = inside-IsPart from off e;
  less =
      let f = (drop-IsPart from (take (length e - off) e)).length_le in
      let g = length-take (length e - off) e (omega arith) in omega arith;
}

operator_here-length :
    (c : ℕ) (prev : Option ℕ) (e : Str) → operator_here c prev e ≡ true → 2 < length e
unfolding operator_here
operator_here-length c (some p) (x ∷ y ∷ z ∷ rest) h = omega arith
operator_here-length c (some p) (x ∷ y ∷ []) h = cc
operator_here-length c (some p) (x ∷ []) h = cc
operator_here-length c (some p) [] h = cc
operator_here-length c none e h = cc

moved-some : (o : Option ℕ) (at : ℕ) → moved o ≡ some at → (i : ℕ) × (o ≡ some i) × (at ≡ suc i)
unfolding moved
moved-some none at h = cc
moved-some (some i) at h = (i, refl, cc)

find_operator-length :
    (c opened closed : ℕ) (prev : Option ℕ) (e : Str) (at : ℕ)
    → find_operator c opened closed prev e ≡ some at
    → at + 2 < length e
unfolding find_operator
find_operator-length c opened closed prev [] at h = cc
find_operator-length c opened closed prev (x ∷ xs) at h = elim (Bool-cases (x == b'(')) [
  | inl opens ↦
      let (i, is, e) =
        moved-some (find_operator c (suc opened) closed (some x) xs) at
          (rw (opens, find_operator) at h) in
      let k = find_operator-length c (suc opened) closed (some x) xs i is in omega arith
  | inr other ↦ elim (Bool-cases (x == b')')) [
    | inl closes ↦
        let (i, is, e) =
          moved-some (find_operator c opened (suc closed) (some x) xs) at
            (rw (other, closes, find_operator) at h) in
        let k = find_operator-length c opened (suc closed) (some x) xs i is in omega arith
    | inr plain ↦ elim (Bool-cases (opened == closed && operator_here c prev (x ∷ xs))) [
      | inl here ↦
          let zero_at : some 0 ≡ some at = rw (other, plain, here, find_operator) at h in
          let e : 0 ≡ at = cc in
          let k = operator_here-length c prev (x ∷ xs) (ground arith) in omega arith
      | inr not_here ↦
          let (i, is, e) =
            moved-some (find_operator c opened closed (some x) xs) at
              (rw (other, plain, not_here, find_operator) at h) in
          let k = find_operator-length c opened closed (some x) xs i is in omega arith
    ]
  ]
]

pub operator_at-length : (c : ℕ) (e : Str) (at : ℕ) → operator_at c e ≡ some at → at + 2 < length e
unfolding operator_at
operator_at-length c e at h = elim (Bool-cases (str_contains e (32 ∷ c ∷ c ∷ 32 ∷ []))) [
  | inl found ↦ find_operator-length c 0 0 none e at (rw found at h)
  | inr other ↦ let n : none ≡ some at = rw other at h in cc
]

pub take-IsShorter : (n : ℕ) (e : Str) → n < length e → IsShorter (take n e) e
take-IsShorter n e h = record {
  part = take-IsPart n e;
  less = omega (arith, length-take n e (omega arith));
}

argument_text-IsPart : (rest text : Str) → argument_text rest ≡ some text → IsPart text rest
unfolding argument_text
argument_text-IsPart rest text h =
    elim (Bool-cases (has_suffix rest (codes ")") && no_newline (inside 0 1 rest))) [
      | inl yes_text ↦
          let same : some (inside 0 1 rest) ≡ some text = rw yes_text at h in
          let e : inside 0 1 rest ≡ text = cc in rw (← e) (inside-IsPart 0 1 rest)
      | inr other ↦ let n : none ≡ some text = rw other at h in cc
    ]

pub match_call-IsShorter :
    (name e found text : Str) → match_call name e ≡ some (found, text) → IsShorter text e
unfolding match_call
match_call-IsShorter name [] found text h = cc
match_call-IsShorter name (c ∷ cs) found text h = elim (Bool-cases (is_word c)) [
  | inl word ↦
      let f = match_call-IsShorter (name ++ c ∷ []) cs found text (rw (word, match_call) at h) in
      IsShorter-in f (IsPart-cons c (IsPart-refl cs))
  | inr other ↦ elim (Bool-cases (not (str_eq name []) && c == b'(')) [
    | inr no_call ↦
        let n : ◌≡◌ {A = Option (Str × Str)} none (some (found, text)) =
          rw (other, no_call, match_call) at h in
        cc
    | inl call ↦ elim (Option-cases (argument_text cs)) [
      | inl nothing ↦
          let n : ◌≡◌ {A = Option (Str × Str)} none (some (found, text)) =
            rw (other, call, nothing, match_call) at h in
          cc
      | inr (args, is) ↦
          let k : ◌≡◌ {A = Option (Str × Str)} (some (name, args)) (some (found, text)) =
            rw (other, call, is, match_call) at h in
          let e : args ≡ text = cc in
          let f = argument_text-IsPart cs text (rw e at is) in
          record { part = IsPart-cons c f; less = let l = f.length_le in omega arith }
    ]
  ]
]

two_parts-some : (xs : List Str) (a b : Str) → two_parts xs ≡ some (a, b) → xs ≡ a ∷ b ∷ []
unfolding two_parts
two_parts-some [] a b h = cc
two_parts-some (x ∷ []) a b h = cc
two_parts-some (x ∷ y ∷ []) a b h = cc
two_parts-some (x ∷ y ∷ z ∷ rest) a b h = cc

pub two_parts-IsShorter :
    (e sep a b : Str) → two_parts (split e sep) ≡ some (a, b) → IsShorter a e × IsShorter b e
two_parts-IsShorter e sep a b h =
    let is = two_parts-some (split e sep) a b h in
    let parts = subst (All (λ p. IsPart p e)) is (split-IsPart e sep) in
    let (x, y) = split-pair e sep a b is in
    (record { part = parts.0; less = x }, record { part = parts.1.0; less = y })
