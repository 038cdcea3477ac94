-- ===== src/Expression/Tight.antt =====
-- Strings without space at their ends, which trimming leaves alone.
use buildfab.Base.{
  ℕ, suc, Str, Bool, true, false, not, [], ◌∷◌, ◌++◌, length, take, drop, ◌≡◌, refl, ap, ◌∙◌, arith,
}
use mathlib.Core.List.{reverse, reverse-append, reverse-reverse}
use buildfab.Base.Strings.{is_space, trim_left, trim_space}

unfoldable pub starts_tight : Str → Bool
starts_tight [] = false
starts_tight (x ∷ xs) = not (is_space x)

pub record IsTight (s : Str) : Type 0 where
  pub front : starts_tight s ≡ true
  pub back : starts_tight (reverse s) ≡ true

trim_left-tight : (s : Str) → starts_tight s ≡ true → trim_left s ≡ s
unfolding starts_tight trim_left
trim_left-tight [] h = refl
trim_left-tight (x ∷ xs) h = let k : is_space x ≡ false = ground arith in rw (k, trim_left) refl

starts_tight-append : (s t : Str) → starts_tight s ≡ true → starts_tight (s ++ t) ≡ true
unfolding starts_tight
starts_tight-append [] t h = cc
starts_tight-append (x ∷ xs) t h = h

pub trim_space-tight : (s : Str) → IsTight s → trim_space s ≡ s
unfolding trim_space
trim_space-tight s tight =
    ap (λ t. reverse (trim_left (reverse t))) (trim_left-tight s tight.front)
    ∙ ap reverse (trim_left-tight (reverse s) tight.back)
    ∙ reverse-reverse s

-- One space in front, and one behind.
pub trim_space-front : (s : Str) → IsTight s → trim_space (32 ∷ s) ≡ s
unfolding trim_space trim_left
trim_space-front s tight = trim_space-tight s tight

pub trim_space-back : (s : Str) → IsTight s → trim_space (s ++ 32 ∷ []) ≡ s
unfolding trim_space trim_left
trim_space-back s tight =
    ap (λ t. reverse (trim_left (reverse t)))
      (trim_left-tight (s ++ 32 ∷ []) (starts_tight-append s (32 ∷ []) tight.front))
    ∙ ap (λ t. reverse (trim_left t)) (reverse-append s (32 ∷ []))
    ∙ ap reverse (trim_left-tight (reverse s) tight.back)
    ∙ reverse-reverse s

pub IsTight-between : (s m t : Str) → IsTight s → IsTight t → IsTight (s ++ (m ++ t))
IsTight-between s m t f g = record {
  front = starts_tight-append s (m ++ t) f.front;
  back =
      rw (reverse-append s (m ++ t), reverse-append m t)
        (starts_tight-append (reverse t ++ reverse m) (reverse s)
          (starts_tight-append (reverse t) (reverse m) g.back));
}

pub take-append : (s : Str) (x : ℕ) (t : Str) → take (suc (length s)) (s ++ x ∷ t) ≡ s ++ x ∷ []
take-append [] x t = refl
take-append (y ∷ ys) x t = ap (λ r. y ∷ r) (take-append ys x t)

pub drop-append :
    (s : Str) (x y z : ℕ) (t : Str) → drop (suc (suc (suc (length s)))) (s ++ x ∷ y ∷ z ∷ t) ≡ t
drop-append [] x y z t = refl
drop-append (w ∷ ws) x y z t = drop-append ws x y z t
