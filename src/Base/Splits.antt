-- ===== src/Base/Splits.antt =====
-- What `split` makes of a string: each piece is a part of it, and the two sides of a separator are
-- shorter.
use Prim.Native.Nat.{ℕ, zero, suc, ◌+◌, ◌-◌, ◌<◌}
use mathlib.Core.Path.{◌≡◌, refl, ap, subst}
use mathlib.Core.Logic.{inl, inr}
use mathlib.Core.List.{List, [], ◌∷◌, ◌++◌}
use native.Mathlib.Omega.{arith}
use buildfab.Base.Tests.{Bool-cases}
use buildfab.Base.Lists.{length, length-append, All}
use buildfab.Base.Text.{Str}
use buildfab.Base.Strings.{has_prefix, split, split_from}
use buildfab.Base.Bytes.{
  all_bytes, all_bytes-append, IsPart, IsPart-trans, IsPart-cons, IsPart-append,
}

pub All-map {ℓ κ μ} :
    {A : Type ℓ} {P : A → Type κ} {Q : A → Type μ}
    → ((a : A) → P a → Q a)
    → (xs : List A) → All P xs
    → All Q xs
All-map f [] h = tt
All-map f (x ∷ xs) h = (f x h.0, All-map f xs h.1)

IsPart-skip : (s : Str) (c : ℕ) (t : Str) → IsPart (s ++ t) (s ++ c ∷ t)
unfolding all_bytes
IsPart-skip s c t = record {
  length_le = omega (arith, length-append s t, length-append s (c ∷ t));
  passes = λ p h. ground (arith, all_bytes-append p s t, all_bytes-append p s (c ∷ t));
}

append-cons : (s : Str) (c : ℕ) (t : Str) → (s ++ c ∷ []) ++ t ≡ s ++ c ∷ t
append-cons [] c t = refl
append-cons (x ∷ s) c t = rw (append-cons s c t) refl

split_from-IsPart :
    (sep : Str) (skip : ℕ) (cur e : Str)
    → All (λ p. IsPart p (cur ++ e)) (split_from sep skip cur e)
unfolding split_from
split_from-IsPart sep skip cur [] = ((IsPart-append cur []).0, tt)
split_from-IsPart sep (suc skip) cur (c ∷ cs) =
    All-map (λ p h. IsPart-trans h (IsPart-skip cur c cs)) (split_from sep skip cur cs)
      (split_from-IsPart sep skip cur cs)
split_from-IsPart sep zero cur (c ∷ cs) = elim (Bool-cases (has_prefix (c ∷ cs) sep)) [
  | inl found ↦
      rw (found, split_from)
        (
          (IsPart-append cur (c ∷ cs)).0,
          All-map (λ p h. IsPart-trans (IsPart-cons c h) (IsPart-append cur (c ∷ cs)).1)
              (split_from sep (length sep - 1) [] cs)
              (split_from-IsPart sep (length sep - 1) [] cs),
        )
  | inr other ↦
      rw (other, split_from)
        (All-map (λ p h. rw (← append-cons cur c cs) h) (split_from sep zero (cur ++ c ∷ []) cs)
          (split_from-IsPart sep zero (cur ++ c ∷ []) cs))
]

pub split-IsPart : (e sep : Str) → All (λ p. IsPart p e) (split e sep)
unfolding split
split-IsPart e sep = split_from-IsPart sep zero [] e

split_from-pair :
    (sep : Str) (skip : ℕ) (cur e a b : Str)
    → split_from sep skip cur e ≡ a ∷ b ∷ []
    → (length a < length cur + length e) × (length b < length cur + length e)
unfolding split_from
split_from-pair sep skip cur [] a b h = cc
split_from-pair sep (suc skip) cur (c ∷ cs) a b h =
    let (x, y) = split_from-pair sep skip cur cs a b h in (omega arith, omega arith)
split_from-pair sep zero cur (c ∷ cs) a b h = elim (Bool-cases (has_prefix (c ∷ cs) sep)) [
  | inl found ↦
      let k : cur ∷ split_from sep (length sep - 1) [] cs ≡ a ∷ b ∷ [] =
        rw (found, split_from) at h in
      let first : cur ≡ a = cc in
      let rest : split_from sep (length sep - 1) [] cs ≡ b ∷ [] = cc in
      let part =
        subst (All (λ p. IsPart p cs)) rest (split_from-IsPart sep (length sep - 1) [] cs) in
      let short = part.0.length_le in
      let same : length cur ≡ length a = ap length first in (omega arith, omega arith)
  | inr other ↦
      let (x, y) = split_from-pair sep zero (cur ++ c ∷ []) cs a b (rw (other, split_from) at h) in
      let n = length-append cur (c ∷ []) in (omega arith, omega arith)
]

-- The two sides of a separator.
pub split-pair :
    (e sep a b : Str) → split e sep ≡ a ∷ b ∷ [] → (length a < length e) × (length b < length e)
unfolding split
split-pair e sep a b h =
    let (x, y) = split_from-pair sep zero [] e a b h in (omega arith, omega arith)
