-- ===== src/Base/Attempts.antt =====
-- A Go function that may also panic: its value, the text of its error, or that of its panic; or, in a
-- model that runs on fuel, that the fuel ran out. A panic is not caught by trying something else.
use mathlib.Core.List.{List, [], ◌∷◌}
use buildfab.Base.Text.{Str}

pub data Attempt {ℓ} (A : Type ℓ) : Type ℓ where
  gives : A → Attempt A
  errors : Str → Attempt A
  panics : Str → Attempt A
  runs_out : Attempt A

-- Go on with a value.
unfoldable pub and_then {ℓ κ} : {A : Type ℓ} {B : Type κ} → Attempt A → (A → Attempt B) → Attempt B
and_then (gives a) f = f a
and_then (errors e) f = errors e
and_then (panics p) f = panics p
and_then runs_out f = runs_out

-- Go on after an error.
unfoldable pub or_else {ℓ} : {A : Type ℓ} → Attempt A → Attempt A → Attempt A
or_else (gives a) next = gives a
or_else (errors e) next = next
or_else (panics p) next = panics p
or_else runs_out next = runs_out

-- Every element in its order, up to the first that gives no value.
unfoldable pub each {ℓ κ} : {A : Type ℓ} {B : Type κ} → (A → Attempt B) → List A → Attempt (List B)
unfolding and_then
each f [] = gives []
each f (x ∷ xs) = and_then (f x) (λ y. and_then (each f xs) (λ ys. gives (y ∷ ys)))
