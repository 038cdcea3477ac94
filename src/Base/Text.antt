-- ===== src/Base/Text.antt =====
-- A Go string is the list of its bytes, and `range` over the ASCII tests of the program gives
-- the same answers on bytes as on code points. A set of names is a list of them, and a name is
-- in it when some element has the same bytes.
use Prim.Native.Nat.{ℕ}
use Prim.Native.Char.{code}
use Prim.Native.String.{String}
use mathlib.Core.Path.{◌≡◌, refl}
use mathlib.Core.Logic.{◌↔◌}
use mathlib.Core.Bool.{Bool, true, false, ◌&&◌, ◌||◌}
use mathlib.Core.List.{List, [], ◌∷◌, ◌++◌}
use native.Mathlib.Omega.{arith}
use buildfab.Base.Tests.{◌==◌, if◌then◌else◌}

abbrev pub Str : Type 0
Str = List ℕ

-- The bytes of an ASCII literal.
abbrev pub codes : String → Str
codes String.[] = []
codes (String.◌∷◌ c s) = code c ∷ codes s

unfoldable pub str_eq : Str → Str → Bool
str_eq [] [] = true
str_eq (x ∷ xs) (y ∷ ys) = x == y && str_eq xs ys
str_eq _ _ = false

pub str_eq_iff : (a b : Str) → (str_eq a b ≡ true) ↔ (a ≡ b)
unfolding str_eq
str_eq_iff (x ∷ a) (y ∷ b) = ground (arith, str_eq_iff a b)
str_eq_iff _ _ = ground arith

pub str_eq_refl : (a : Str) → str_eq a a ≡ true
str_eq_refl a = (str_eq_iff a a).1 refl

unfoldable pub contains : List Str → Str → Bool
contains [] a = false
contains (x ∷ xs) a = str_eq x a || contains xs a

-- Clearing a name of a set.
unfoldable pub without : Str → List Str → List Str
without a [] = []
without a (x ∷ xs) = let rest = without a xs in if str_eq x a then rest else x ∷ rest

pub contains-cons :
    (x : Str) (xs : List Str) (a : Str) → contains (x ∷ xs) a ≡ (str_eq x a || contains xs a)
unfolding contains
contains-cons x xs a = refl

pub contains-append :
    (xs ys : List Str) (a : Str) → contains (xs ++ ys) a ≡ (contains xs a || contains ys a)
unfolding contains
contains-append [] ys a = refl
contains-append (x ∷ xs) ys a = ground (arith, contains-append xs ys a)

pub without_absent : (a : Str) (xs : List Str) → contains xs a ≡ false → without a xs ≡ xs
unfolding contains without
without_absent a [] h = refl
without_absent a (x ∷ xs) h = ground (arith, without_absent a xs)

pub contains-without :
    (a b : Str) (xs : List Str)
    → contains (without a xs) b ≡ (if str_eq a b then false else contains xs b)
unfolding contains without
contains-without a b [] = ground arith
contains-without a b (x ∷ xs) =
    ground (arith, contains-without a b xs, str_eq_iff x a, str_eq_iff x b, str_eq_iff a b)

pub str_eq_sym : (a b : Str) → str_eq a b ≡ str_eq b a
str_eq_sym a b = ground (arith, str_eq_iff a b, str_eq_iff b a)
