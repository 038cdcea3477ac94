-- ===== src/Base/Count.antt =====
-- How often a name stands in a list: a list of names without repetition counts each at most once.
use Prim.Native.Nat.{ℕ, suc, ◌+◌, ◌≤◌, ◌<◌}
use mathlib.Core.Path.{◌≡◌, refl}
use mathlib.Core.Bool.{Bool, true, false, not, ◌&&◌}
use mathlib.Core.List.{List, [], ◌∷◌, ◌++◌}
use native.Mathlib.Omega.{arith}
use buildfab.Base.Tests.{if◌then◌else◌}
use buildfab.Base.Text.{Str, str_eq, str_eq_iff, str_eq_refl, contains, without}

unfoldable pub count : List Str → Str → ℕ
count [] n = 0
count (x ∷ xs) n = let rest = count xs n in if str_eq x n then suc rest else rest

pub count-nil : (n : Str) → count [] n ≡ 0
unfolding count
count-nil n = refl

pub count-cons :
    (x : Str) (xs : List Str) (n : Str)
    → count (x ∷ xs) n ≡ (if str_eq x n then suc (count xs n) else count xs n)
unfolding count
count-cons x xs n = refl

pub count-append : (xs ys : List Str) (n : Str) → count (xs ++ ys) n ≡ count xs n + count ys n
unfolding count
count-append [] ys n = omega arith
count-append (x ∷ xs) ys n = ground (arith, count-append xs ys n)

pub count-without :
    (a : Str) (xs : List Str) (n : Str)
    → count (without a xs) n ≡ (if str_eq a n then 0 else count xs n)
unfolding count without
count-without a [] n = ground arith
count-without a (x ∷ xs) n =
    ground (arith, count-without a xs n, str_eq_iff x a, str_eq_iff x n, str_eq_iff a n)

pub contains-count : (xs : List Str) (n : Str) → contains xs n ≡ true → 0 < count xs n
unfolding count contains
contains-count [] n h = cc
contains-count (x ∷ xs) n h = ground (arith, contains-count xs n)

pub absent-count : (xs : List Str) (n : Str) → contains xs n ≡ false → count xs n ≡ 0
unfolding count contains
absent-count [] n h = refl
absent-count (x ∷ xs) n h = ground (arith, absent-count xs n)

-- Only the empty list counts nothing.
pub count-empty : (xs : List Str) → ((n : Str) → count xs n ≡ 0) → xs ≡ []
unfolding count
count-empty [] h = refl
count-empty (x ∷ xs) h = ground (arith, h x, str_eq_refl x)

unfoldable pub unique : List Str → Bool
unique [] = true
unique (x ∷ xs) = not (contains xs x) && unique xs

pub unique-count : (xs : List Str) (n : Str) → unique xs ≡ true → count xs n ≤ 1
unfolding unique count
unique-count [] n h = omega arith
unique-count (x ∷ xs) n h = ground (arith, unique-count xs n, absent-count xs n, str_eq_iff x n)
