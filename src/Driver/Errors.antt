-- ===== src/Driver/Errors.antt =====
-- Which failures a run (internal/driver/driver.go) returns.
use yarilo_loadtest.Base.{
  ℕ, zero, suc, ◌+◌, ◌≡◌, refl, ap, Bool, true, false, List, [], ◌∷◌, Option, none, some, arith,
  All, if◌then◌else◌,
}
use yarilo_loadtest.Driver.{
  Options, Phase, ramping, ready, locking, working, failing, finished, Shared, Run, Event, timer,
  turn, expire, move, ramped, turn_at, ramped_at, step, steps, outcome,
}

-- Whether a worker is about to note a failure.
abbrev pub is_failing : {E : Type 0} → Phase E → Bool
is_failing ramping = false
is_failing ready = false
is_failing locking = false
is_failing working = false
is_failing (failing e) = true
is_failing finished = false

abbrev pub NoneFailing : {E : Type 0} → List (Phase E) → Type 0
NoneFailing ps = All (λ p. is_failing p ≡ false) ps

-- A run that has ended, with no failure left to note.
abbrev IsQuiet : {E : Type 0} → Option E → List (Phase E) → Shared E → Type 0
IsQuiet first ps s = (s.ended ≡ true) × (s.first_err ≡ first) × NoneFailing ps

module _ {E : Type 0} (opts : Options) where
  move_quiet :
      (id : ℕ) (result first : Option E) (p : Phase E) (s : Shared E)
      → s.ended ≡ true
      → s.first_err ≡ first
      → is_failing p ≡ false
      → ((move opts id result p s).1.ended ≡ true)
        × ((move opts id result p s).1.first_err ≡ first)
        × (is_failing (move opts id result p s).0 ≡ false)
  unfolding move
  move_quiet id result first ramping s h e f = ground (arith, h, e)
  move_quiet id result first ready s h e f = ground (arith, h, e)
  move_quiet id result first locking s h e f = ground (arith, h, e)
  move_quiet id none first working s h e f = (h, e, refl)
  move_quiet id (some x) first working s h e f = ground (arith, h, e)
  move_quiet id result first (failing x) s h e f = absurd (ground (arith, f))
  move_quiet id result first finished s h e f = (h, e, refl)

  turn_at-IsQuiet :
      (id i : ℕ) (result first : Option E) (ps : List (Phase E)) (s : Shared E)
      → IsQuiet first ps s
      → IsQuiet first (turn_at opts id i result ps s).0 (turn_at opts id i result ps s).1
  unfolding turn_at
  turn_at-IsQuiet id i result first [] s q = q
  turn_at-IsQuiet id zero result first (p ∷ ps) s q =
      let m = move_quiet id result first p s q.0 q.1 q.2.0 in (m.0, m.1, (m.2, q.2.1))
  turn_at-IsQuiet id (suc i) result first (p ∷ ps) s q =
      let m = turn_at-IsQuiet (id + 1) i result first ps s (q.0, q.1, q.2.1) in
      (m.0, m.1, (q.2.0, m.2))

  ramped_at_quiet : (i : ℕ) (ps : List (Phase E)) → NoneFailing ps → NoneFailing (ramped_at i ps)
  unfolding ramped_at ramped
  ramped_at_quiet i [] h = tt
  ramped_at_quiet zero (ramping ∷ ps) h = (refl, h.1)
  ramped_at_quiet zero (ready ∷ ps) h = h
  ramped_at_quiet zero (locking ∷ ps) h = h
  ramped_at_quiet zero (working ∷ ps) h = h
  ramped_at_quiet zero (failing e ∷ ps) h = h
  ramped_at_quiet zero (finished ∷ ps) h = h
  ramped_at_quiet (suc i) (p ∷ ps) h = (h.0, ramped_at_quiet i ps h.1)

  steps-IsQuiet :
      (es : List (Event E)) (first : Option E) (r : Run E)
      → IsQuiet first r.phases r.shared
      → IsQuiet first (steps opts es r).phases (steps opts es r).shared
  unfolding steps step
  steps-IsQuiet [] first r q = q
  steps-IsQuiet (timer i ∷ es) first r q =
      steps-IsQuiet es first (step opts (timer i) r) (q.0, q.1, ramped_at_quiet i r.phases q.2)
  steps-IsQuiet (turn i result ∷ es) first r q =
      steps-IsQuiet es first (step opts (turn i result) r)
        (turn_at-IsQuiet 0 i result first r.phases r.shared q)
  steps-IsQuiet (expire ∷ es) first r q =
      steps-IsQuiet es first (step opts expire r) (refl, q.1, q.2)

  -- Once the context of a run has ended and no worker is about to note a failure, no failure of an
  -- operation that was cut off is noted any more: whatever the workers still do, the run returns what
  -- it would have returned at once.
  pub outcome-steps :
      (es : List (Event E)) (r : Run E)
      → r.shared.ended ≡ true
      → NoneFailing r.phases
      → outcome opts (steps opts es r) ≡ outcome opts r
  unfolding outcome
  outcome-steps es r h f =
      let q = steps-IsQuiet es r.shared.first_err r (h, refl, f) in
      ap (λ (e : Option E). if opts.stop_on_error then e else none) q.1
