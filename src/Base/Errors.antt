-- ===== src/Base/Errors.antt =====
-- A Go function that returns a value and an error: the value, or the error's text.
use mathlib.Core.Path.{◌≡◌, refl}
use mathlib.Core.Logic.{◌⊎◌, ◌↔◌, inl, inr}
use mathlib.Core.Bool.{Bool}
use mathlib.Core.Option.{Option, none, some}
use buildfab.Base.Tests.{if◌then◌else◌}
use buildfab.Base.Text.{Str}

pub data Fallible {ℓ} (A : Type ℓ) : Type ℓ where
  returns : A → Fallible A
  fails : Str → Fallible A

unfoldable pub bind {ℓ κ} : {A : Type ℓ} {B : Type κ} → Fallible A → (A → Fallible B) → Fallible B
bind (returns a) f = f a
bind (fails e) f = fails e

pub Fallible-cases {ℓ} :
    {A : Type ℓ} (f : Fallible A) → ((e : Str) × (f ≡ fails e)) ⊎ ((a : A) × (f ≡ returns a))
Fallible-cases (fails e) = inl (e, refl)
Fallible-cases (returns a) = inr (a, refl)

-- Returning at the first error.
abbrev pub first_of {ℓ} : {A : Type ℓ} → Option A → Option A → Option A
first_of (some e) later = some e
first_of none later = later

pub first_of-none {ℓ} :
    {A : Type ℓ} (a b : Option A) → (first_of a b ≡ none) ↔ ((a ≡ none) × (b ≡ none))
first_of-none none b = (λ h. (refl, h), λ h. h.1)
first_of-none (some e) b = (λ h. cc, λ h. cc (h.0))

-- `if bad { return e }`
abbrev pub refuse {ℓ} : {A : Type ℓ} → Bool → A → Option A
refuse bad e = if bad then some e else none

-- Two checks in a row.
pub both {ℓ κ μ} :
    {A : Type ℓ} {P : Type κ} {Q : Type μ} (a b : Option A)
    → (a ≡ none) ↔ P
    → (b ≡ none) ↔ Q
    → (first_of a b ≡ none) ↔ (P × Q)
both a b f g = (
  λ h. let (x, y) = (first_of-none a b).0 h in (f.0 x, g.0 y),
  λ h. (first_of-none a b).1 (f.1 h.0, g.1 h.1),
)
