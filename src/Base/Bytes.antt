-- ===== src/Base/Bytes.antt =====
-- A test of every byte of a string, and the parts of a string: they are no longer, and pass each
-- such test that the whole passes.
use Prim.Native.Nat.{ℕ, zero, suc, ◌-◌, ◌≤◌}
use mathlib.Core.Path.{◌≡◌, refl, ◌∙◌}
use mathlib.Core.Bool.{Bool, true, ◌&&◌}
use mathlib.Core.List.{[], ◌∷◌, ◌++◌, reverse, reverse-cons}
use mathlib.Core.Logic.{inl, inr}
use native.Mathlib.Omega.{arith}
use buildfab.Base.Tests.{Bool-cases}
use buildfab.Base.Lists.{length, length-append, take, drop}
use buildfab.Base.Text.{Str}
use buildfab.Base.Strings.{is_space, trim_left, trim_space}

unfoldable pub all_bytes : (ℕ → Bool) → Str → Bool
all_bytes p [] = true
all_bytes p (x ∷ xs) = p x && all_bytes p xs

pub all_bytes-append :
    (p : ℕ → Bool) (s t : Str) → all_bytes p (s ++ t) ≡ (all_bytes p s && all_bytes p t)
unfolding all_bytes
all_bytes-append p [] t = refl
all_bytes-append p (x ∷ xs) t = ground (arith, all_bytes-append p xs t)

pub record IsPart (s e : Str) : Type 0 where
  pub length_le : length s ≤ length e
  pub passes : (p : ℕ → Bool) → all_bytes p e ≡ true → all_bytes p s ≡ true

pub IsPart-refl : (e : Str) → IsPart e e
IsPart-refl e = record { length_le = omega arith; passes = λ p h. h }

pub IsPart-trans : {a b c : Str} → IsPart a b → IsPart b c → IsPart a c
IsPart-trans f g = record {
  length_le = let h = f.length_le in let k = g.length_le in omega arith;
  passes = λ p h. f.passes p (g.passes p h);
}

pub IsPart-cons : (x : ℕ) {s e : Str} → IsPart s e → IsPart s (x ∷ e)
unfolding all_bytes
IsPart-cons x f = record {
  length_le = let h = f.length_le in omega arith;
  passes = λ p h. f.passes p (ground arith);
}

pub IsPart-append : (s t : Str) → IsPart s (s ++ t) × IsPart t (s ++ t)
IsPart-append s t = (
  record {
    length_le = omega (arith, length-append s t);
    passes = λ p h. ground (arith, all_bytes-append p s t);
  },
  record {
    length_le = omega (arith, length-append s t);
    passes = λ p h. ground (arith, all_bytes-append p s t);
  },
)

pub length-reverse : (s : Str) → length (reverse s) ≡ length s
length-reverse [] = refl
length-reverse (x ∷ xs) =
    rw (reverse-cons x xs) (omega (arith, length-append (reverse xs) (x ∷ []), length-reverse xs))

pub all_bytes-reverse : (p : ℕ → Bool) (s : Str) → all_bytes p (reverse s) ≡ all_bytes p s
unfolding all_bytes
all_bytes-reverse p [] = refl
all_bytes-reverse p (x ∷ xs) =
    rw (reverse-cons x xs)
      (ground (arith, all_bytes-append p (reverse xs) (x ∷ []), all_bytes-reverse p xs))

IsPart-reverse : {s e : Str} → IsPart s (reverse e) → IsPart (reverse s) e
IsPart-reverse {s} {e} f = record {
  length_le = let h = f.length_le in omega (arith, length-reverse s, length-reverse e);
  passes = λ p h. all_bytes-reverse p s ∙ f.passes p (all_bytes-reverse p e ∙ h);
}

trim_left-IsPart : (s : Str) → IsPart (trim_left s) s
unfolding trim_left
trim_left-IsPart [] = IsPart-refl []
trim_left-IsPart (c ∷ cs) = elim (Bool-cases (is_space c)) [
  | inl space ↦ rw (space, trim_left) (IsPart-cons c (trim_left-IsPart cs))
  | inr other ↦ rw (other, trim_left) (IsPart-refl (c ∷ cs))
]

pub trim_space-IsPart : (s : Str) → IsPart (trim_space s) s
unfolding trim_space
trim_space-IsPart s =
    IsPart-trans (IsPart-reverse (trim_left-IsPart (reverse (trim_left s)))) (trim_left-IsPart s)

pub take-IsPart : (n : ℕ) (s : Str) → IsPart (take n s) s
unfolding all_bytes
take-IsPart zero s = record { length_le = omega arith; passes = λ p h. refl }
take-IsPart (suc n) [] = IsPart-refl []
take-IsPart (suc n) (x ∷ xs) = record {
  length_le = let h = (take-IsPart n xs).length_le in omega arith;
  passes = λ p h. ground (arith, (take-IsPart n xs).passes p);
}

pub drop-IsPart : (n : ℕ) (s : Str) → IsPart (drop n s) s
drop-IsPart zero s = IsPart-refl s
drop-IsPart (suc n) [] = IsPart-refl []
drop-IsPart (suc n) (x ∷ xs) = IsPart-cons x (drop-IsPart n xs)

pub length-take : (n : ℕ) (s : Str) → n ≤ length s → length (take n s) ≡ n
length-take zero s h = refl
length-take (suc n) [] h = omega arith
length-take (suc n) (x ∷ xs) h = omega (arith, length-take n xs (omega arith))

pub length-drop : (n : ℕ) (s : Str) → length (drop n s) ≡ length s - n
length-drop zero s = omega arith
length-drop (suc n) [] = omega arith
length-drop (suc n) (x ∷ xs) = omega (arith, length-drop n xs)
