-- ===== src/Output/Protocol.antt =====
-- What the log of the manager may look like, as a reader of it: for the steps in their order, a start
-- line, any number of output lines, and the result line of the same step; the last step printed may
-- still be without its result.
use buildfab.Base.{Str, List, [], ◌∷◌, ◌++◌, Option, none, some, ◌≡◌, refl, str_eq, if◌then◌else◌}
use buildfab.Output.{Event, start, line, result}

-- The step that is being printed, and those whose turn is to come.
pub record Progress : Type 0 where
  pub active : Option Str
  pub left : List Str

abbrev pub progress : Option Str → List Str → Progress
progress active left = record { active = active; left = left }

unfoldable pub read_event : Option Str → List Str → Event → Option Progress
read_event none (n ∷ left) (start m) = if str_eq n m then some (progress (some n) left) else none
read_event (some n) left (line text) = some (progress (some n) left)
read_event (some n) left (result m status message duration) =
    if str_eq n m then some (progress none left) else none
read_event _ _ _ = none

abbrev pub step_reader : Option Progress → Event → Option Progress
step_reader none e = none
step_reader (some p) e = read_event p.active p.left e

unfoldable pub reads_from : Option Progress → List Event → Option Progress
reads_from p [] = p
reads_from p (e ∷ es) = reads_from (step_reader p e) es

-- Reading a log from its beginning, for the names of the steps in order.
abbrev pub reads : List Str → List Event → Option Progress
reads names log = reads_from (some (progress none names)) log

reads_from-append :
    (p : Option Progress) (es : List Event) (e : Event)
    → reads_from p (es ++ e ∷ []) ≡ step_reader (reads_from p es) e
unfolding reads_from
reads_from-append p [] e = refl
reads_from-append p (x ∷ es) e = reads_from-append (step_reader p x) es e

pub reads-snoc :
    (names : List Str) (log : List Event) (e : Event) (p : Progress)
    → reads names log ≡ some p
    → reads names (log ++ e ∷ []) ≡ read_event p.active p.left e
reads-snoc names log e p h = rw (reads_from-append, h)
