-- ===== src/Simple/Collected.antt =====
-- What the callback of the simple runner keeps and prints of a sequence of calls: the last result of
-- each step, and one line for each step that has a result.
use buildfab.Base.{
  ℕ, suc, ◌+◌, Str, Bool, true, not, ◌&&◌, ◌||◌, List, [], ◌∷◌, ◌++◌, map, Option, none, some, ◌≡◌,
  refl, sym, ap, ◌∙◌, arith, str_eq, str_eq_iff, contains, contains-cons, unique, first_of, is_some,
  if◌then◌else◌, Bool-cases, inl, inr,
}
use buildfab.Config.{Config}
use buildfab.Output.{Event, start, line, result}
use buildfab.Output.Status.{StepStatus}
use buildfab.Output.Calls.{Call, step_start, step_complete, step_output, step_error}
use buildfab.Simple.{StepResult, executed_steps}
use buildfab.Simple.Callback.{
  SimpleStepCallback, put_result, show_result, simple_call, simple_calls, new_simple_callback,
  simple_message, output_lines,
}

-- The last completion of a step among some calls.
unfoldable pub last_completion : List Call → Str → Option (StepStatus × ℕ)
last_completion [] n = none
last_completion (step_complete name status _ duration ∷ cs) n =
    let rest = last_completion cs n in
    first_of rest (if str_eq name n then some (status, duration) else none)
last_completion (_ ∷ cs) n = last_completion cs n

-- The result of a step, by its name.
unfoldable pub result_of : List StepResult → Str → Option (StepStatus × ℕ)
result_of [] n = none
result_of (r ∷ rs) n =
    let rest = result_of rs n in if str_eq r.step_name n then some (r.status, r.duration) else rest

-- How many result lines of a step are printed.
unfoldable pub printed : List Event → Str → ℕ
printed [] n = 0
printed (result name _ _ _ ∷ es) n =
    let rest = printed es n in if str_eq name n then suc rest else rest
printed (_ ∷ es) n = printed es n

first_of-nothing : {A : Type 0} (o : Option A) → first_of o none ≡ o
first_of-nothing none = refl
first_of-nothing (some a) = refl

first_of_assoc :
    {A : Type 0} (o p q : Option A) → first_of o (first_of p q) ≡ first_of (first_of o p) q
first_of_assoc none p q = refl
first_of_assoc (some a) p q = refl

result_of-put_result :
    (r : StepResult) (rs : List StepResult) (n : Str)
    → result_of (put_result r rs) n
      ≡ (if str_eq r.step_name n then some (r.status, r.duration) else result_of rs n)
unfolding result_of put_result
result_of-put_result r [] n = refl
result_of-put_result r (x ∷ xs) n = ground (
  arith,
  result_of-put_result r xs n,
  str_eq_iff x.step_name r.step_name,
  str_eq_iff x.step_name n,
  str_eq_iff r.step_name n,
)

contains-put_result :
    (r : StepResult) (rs : List StepResult) (n : Str)
    → contains (executed_steps (put_result r rs)) n
      ≡ (str_eq r.step_name n || contains (executed_steps rs) n)
unfolding contains executed_steps put_result
contains-put_result r [] n = refl
contains-put_result r (x ∷ xs) n =
    ground (arith, contains-put_result r xs n, str_eq_iff x.step_name r.step_name)

unique-put_result :
    (r : StepResult) (rs : List StepResult)
    → unique (executed_steps rs) ≡ true
    → unique (executed_steps (put_result r rs)) ≡ true
unfolding unique executed_steps put_result contains
unique-put_result r [] h = refl
unique-put_result r (x ∷ xs) h = ground (
  arith,
  unique-put_result r xs,
  contains-put_result r xs x.step_name,
  str_eq_iff x.step_name r.step_name,
  str_eq_iff r.step_name x.step_name,
)

printed-append : (es ds : List Event) (n : Str) → printed (es ++ ds) n ≡ printed es n + printed ds n
unfolding printed
printed-append [] ds n = omega arith
printed-append (start name ∷ es) ds n = printed-append es ds n
printed-append (line text ∷ es) ds n = printed-append es ds n
printed-append (result name s m d ∷ es) ds n = ground (arith, printed-append es ds n)

printed-lines : (ls : List Str) (n : Str) → printed (map line ls) n ≡ 0
unfolding printed
printed-lines [] n = refl
printed-lines (l ∷ ls) n = printed-lines ls n

-- Each displayed step is printed once, and the results are those of the displayed steps.
pub record IsOnce (c : SimpleStepCallback) : Type 0 where
  pub once : (n : Str) → printed c.log n ≡ (if contains c.displayed n then 1 else 0)
  pub same : (n : Str) → contains c.displayed n ≡ is_some (result_of c.results n)
  pub different : unique (executed_steps c.results) ≡ true

module _ (c : SimpleStepCallback) (name : Str) (status : StepStatus) (message : Str)
    (duration : ℕ) where
  show_result-results : (show_result c name status message duration).results ≡ c.results
  unfolding show_result
  show_result-results = ground arith

  show_result-displayed :
      (n : Str)
      → contains (show_result c name status message duration).displayed n
        ≡ (str_eq name n || contains c.displayed n)
  unfolding show_result
  show_result-displayed n = elim (Bool-cases (contains c.displayed name)) [
    | inl seen ↦
        rw (seen, show_result)
          (elim (Bool-cases (str_eq name n)) [
            | inl same ↦ rw (same, ← (str_eq_iff name n).0 same, seen) refl
            | inr other ↦ rw other refl
          ])
    | inr fresh ↦ rw (fresh, show_result) (contains-cons name c.displayed n)
  ]

  show_result-printed :
      (n : Str)
      → printed (show_result c name status message duration).log n
        ≡ printed c.log n
          + (if contains c.displayed name then 0 else if str_eq name n then 1 else 0)
  unfolding show_result printed
  show_result-printed n = elim (Bool-cases (contains c.displayed name)) [
    | inl seen ↦ rw (seen, show_result) (omega arith)
    | inr fresh ↦
        rw (fresh, show_result)
          (printed-append c.log
              (result name status (simple_message c.config c.results name status message) duration
                ∷ [])
              n
            ∙ ground arith)
  ]

simple_call-IsOnce : (c : SimpleStepCallback) (x : Call) → IsOnce c → IsOnce (simple_call c x)
unfolding simple_call show_result contains printed
simple_call-IsOnce c (step_start name) h = record {
  once = λ n. printed-append c.log (start name ∷ []) n ∙ ground (arith, h.once n);
  same = h.same;
  different = h.different;
}
simple_call-IsOnce c (step_complete name status message duration) h = record {
  once = λ n. ground (
    arith,
    show_result-printed c name status message duration n,
    show_result-displayed c name status message duration n,
    h.once n,
    str_eq_iff name n,
  );
  same = λ n.
      let r : StepResult = record { step_name = name; status = status; duration = duration } in
      ground (
        arith,
        show_result-displayed c name status message duration n,
        h.same n,
        result_of-put_result r (show_result c name status message duration).results n,
        show_result-results c name status message duration,
      );
  different =
      unique-put_result (record { step_name = name; status = status; duration = duration }) _
        (rw (show_result-results c name status message duration) h.different);
}
simple_call-IsOnce c (step_output name output) h =
    elim (Bool-cases (c.verbose && not (str_eq output []))) [
      | inr quiet ↦ rw quiet h
      | inl shown ↦ rw shown (record {
        once = λ n.
            printed-append c.log (map line (output_lines output)) n
            ∙ ground (arith, printed-lines (output_lines output) n, h.once n);
        same = h.same;
        different = h.different;
      })
    ]
simple_call-IsOnce c (step_error name err) h = h

last_completion-call :
    (c : SimpleStepCallback) (x : Call) (n : Str)
    → result_of (simple_call c x).results n
      ≡ first_of (last_completion (x ∷ []) n) (result_of c.results n)
unfolding simple_call show_result last_completion
last_completion-call c (step_start name) n = refl
last_completion-call c (step_complete name status message duration) n =
    let r : StepResult = record { step_name = name; status = status; duration = duration } in
    ground (
      arith,
      show_result-results c name status message duration,
      result_of-put_result r (show_result c name status message duration).results n,
    )
last_completion-call c (step_output name output) n = ground arith
last_completion-call c (step_error name err) n = refl

last_completion-cons :
    (x : Call) (cs : List Call) (n : Str)
    → last_completion (x ∷ cs) n ≡ first_of (last_completion cs n) (last_completion (x ∷ []) n)
unfolding last_completion
last_completion-cons (step_start name) cs n =
    ground (arith, first_of-nothing (last_completion cs n))
last_completion-cons (step_complete name status message duration) cs n = refl
last_completion-cons (step_output name output) cs n =
    ground (arith, first_of-nothing (last_completion cs n))
last_completion-cons (step_error name err) cs n =
    ground (arith, first_of-nothing (last_completion cs n))

simple_calls-last :
    (c : SimpleStepCallback) (cs : List Call) (n : Str)
    → result_of (simple_calls c cs).results n
      ≡ first_of (last_completion cs n) (result_of c.results n)
unfolding simple_calls last_completion
simple_calls-last c [] n = refl
simple_calls-last c (x ∷ xs) n =
    simple_calls-last (simple_call c x) xs n
    ∙ ap (first_of (last_completion xs n)) (last_completion-call c x n)
    ∙ first_of_assoc (last_completion xs n) (last_completion (x ∷ []) n) (result_of c.results n)
    ∙ ap (λ o. first_of o (result_of c.results n)) (sym (last_completion-cons x xs n))

simple_calls-IsOnce :
    (c : SimpleStepCallback) (cs : List Call) → IsOnce c → IsOnce (simple_calls c cs)
unfolding simple_calls
simple_calls-IsOnce c [] h = h
simple_calls-IsOnce c (x ∷ xs) h =
    simple_calls-IsOnce (simple_call c x) xs (simple_call-IsOnce c x h)

-- After any calls on a new SimpleStepCallback, the result of each step is that of its last
-- completion, no step has two results, and the result of a step is printed once if it was completed
-- and not at all otherwise.
pub simple_calls-keep :
    (verbose : Bool) (config : Option Config) (cs : List Call) (n : Str)
    → (result_of (simple_calls (new_simple_callback verbose config) cs).results n
        ≡ last_completion cs n)
      × (unique (executed_steps (simple_calls (new_simple_callback verbose config) cs).results)
          ≡ true)
      × (printed (simple_calls (new_simple_callback verbose config) cs).log n
          ≡ (if is_some (last_completion cs n) then 1 else 0))
unfolding result_of printed executed_steps unique contains
simple_calls-keep verbose config cs n =
    let c = new_simple_callback verbose config in
    let last = simple_calls-last c cs n ∙ first_of-nothing (last_completion cs n) in
    let h =
      simple_calls-IsOnce c cs (record { once = λ m. refl; same = λ m. refl; different = refl }) in
    (last, h.different, h.once n ∙ ap (λ b. if b then 1 else 0) (h.same n ∙ ap is_some last))
