-- ===== src/Base/Strings.antt =====
-- What the program uses of Go's packages `strings` and `strconv`, on bytes. Case and space are those
-- of ASCII.
use Prim.Native.Nat.{ℕ, zero, suc, ◌+◌, ◌-◌, ◌/◌, ◌%◌}
use mathlib.Core.Bool.{Bool, true, false, ◌&&◌, ◌||◌}
use mathlib.Core.List.{List, [], ◌∷◌, ◌++◌, reverse, map}
use buildfab.Base.Tests.{◌==◌, leb, ltb, if◌then◌else◌}
use buildfab.Base.Lists.{length}
use buildfab.Base.Text.{Str}

-- strings.HasPrefix
unfoldable pub has_prefix : Str → Str → Bool
has_prefix s [] = true
has_prefix [] (p ∷ ps) = false
has_prefix (c ∷ cs) (p ∷ ps) = c == p && has_prefix cs ps

-- strings.HasSuffix
unfoldable pub has_suffix : Str → Str → Bool
unfolding has_prefix
has_suffix s p = has_prefix (reverse s) (reverse p)

-- strings.Contains
unfoldable pub str_contains : Str → Str → Bool
unfolding has_prefix
str_contains [] p = has_prefix [] p
str_contains (c ∷ cs) p = has_prefix (c ∷ cs) p || str_contains cs p

-- strings.Split for a separator that is not empty; `skip` bytes of one are still to be passed over.
unfoldable pub split_from : Str → ℕ → Str → Str → List Str
unfolding has_prefix
split_from sep skip cur [] = cur ∷ []
split_from sep (suc skip) cur (c ∷ cs) = split_from sep skip cur cs
split_from sep zero cur (c ∷ cs) = elim (has_prefix (c ∷ cs) sep) [
  | true ↦ cur ∷ split_from sep (length sep - 1) [] cs
  | false ↦ split_from sep zero (cur ++ c ∷ []) cs
]

unfoldable pub split : Str → Str → List Str
unfolding split_from
split s sep = split_from sep zero [] s

-- strings.Join
unfoldable pub join : List Str → Str → Str
join [] sep = []
join (x ∷ []) sep = x
join (x ∷ y ∷ rest) sep = x ++ (sep ++ join (y ∷ rest) sep)

abbrev pub is_space : ℕ → Bool
is_space c = c == 32 || (leb 9 c && leb c 13)

unfoldable pub trim_left : Str → Str
trim_left [] = []
trim_left (c ∷ cs) = elim (is_space c) [ true ↦ trim_left cs | false ↦ c ∷ cs ]

-- strings.TrimSpace
unfoldable pub trim_space : Str → Str
unfolding trim_left
trim_space s = reverse (trim_left (reverse (trim_left s)))

-- strings.ToLower
unfoldable pub to_lower : Str → Str
to_lower s = map (λ c. if leb b'A' c && leb c b'Z' then c + 32 else c) s

-- strconv.Itoa for a number that is not negative.
unfoldable pub itoa_from : ℕ → ℕ → Str
itoa_from zero n = []
itoa_from (suc fuel) n = elim (ltb n 10) [
  | true ↦ (48 + n) ∷ []
  | false ↦ itoa_from fuel (n / 10) ++ (48 + n % 10) ∷ []
]

unfoldable pub itoa : ℕ → Str
unfolding itoa_from
itoa n = itoa_from (suc n) n
