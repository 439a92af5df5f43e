-- ===== src/Driver/Drain.antt =====
-- What is left of a run (internal/driver/driver.go) once its context has ended.
use yarilo_loadtest.Base.{
  ℕ, zero, suc, ◌+◌, ◌-◌, ◌≤◌, ◌≡◌, refl, true, List, [], ◌∷◌, Option, none, some, arith, get_or,
  ◌==◌, if◌then◌else◌,
}
use yarilo_loadtest.Driver.{
  Options, Phase, ramping, ready, locking, working, failing, finished, Shared, Run, Event, timer,
  turn, expire, move, ramped, turn_at, ramped_at, step, steps, is_finished,
}

-- The turns that a worker takes at most in a run that has ended.
abbrev pub turns_left : {E : Type 0} → Phase E → ℕ
turns_left ramping = 1
turns_left ready = 1
turns_left locking = 3
turns_left working = 2
turns_left (failing e) = 2
turns_left finished = 0

-- How often a worker takes a turn.
abbrev pub turns_of : {E : Type 0} → ℕ → List (Event E) → ℕ
turns_of id [] = 0
turns_of id (turn i result ∷ es) = (if i == id then 1 else 0) + turns_of id es
turns_of id (timer i ∷ es) = turns_of id es
turns_of id (expire ∷ es) = turns_of id es

module _ {E : Type 0} (opts : Options) where
  move_ended :
      (id : ℕ) (result : Option E) (p : Phase E) (s : Shared E)
      → s.ended ≡ true
      → ((move opts id result p s).1.ended ≡ true)
        × (turns_left (move opts id result p s).0 ≤ turns_left p - 1)
  unfolding move
  move_ended id result ramping s h = ground (arith, h)
  move_ended id result ready s h = ground (arith, h)
  move_ended id result locking s h = ground (arith, h)
  move_ended id none working s h = ground (arith, h)
  move_ended id (some e) working s h = ground (arith, h)
  move_ended id result (failing e) s h = ground (arith, h)
  move_ended id result finished s h = ground (arith, h)

  abbrev pub left_at : ℕ → List (Phase E) → ℕ
  left_at i ps = turns_left (get_or ps i finished)

  turn_at_ended :
      (id i j : ℕ) (result : Option E) (ps : List (Phase E)) (s : Shared E)
      → s.ended ≡ true
      → ((turn_at opts id i result ps s).1.ended ≡ true)
        × (left_at j (turn_at opts id i result ps s).0 ≤ left_at j ps - (if i == j then 1 else 0))
  unfolding turn_at
  turn_at_ended id i j result [] s h = (h, omega arith)
  turn_at_ended id zero zero result (p ∷ ps) s h = move_ended id result p s h
  turn_at_ended id zero (suc j) result (p ∷ ps) s h =
      ((move_ended id result p s h).0, ground (arith))
  turn_at_ended id (suc i) zero result (p ∷ ps) s h =
      ((turn_at_ended (id + 1) i 0 result ps s h).0, ground (arith))
  turn_at_ended id (suc i) (suc j) result (p ∷ ps) s h =
      ground (arith, turn_at_ended (id + 1) i j result ps s h)

  ramped_at_left : (i j : ℕ) (ps : List (Phase E)) → left_at j (ramped_at i ps) ≡ left_at j ps
  unfolding ramped_at ramped
  ramped_at_left i j [] = refl
  ramped_at_left zero zero (ramping ∷ ps) = refl
  ramped_at_left zero zero (ready ∷ ps) = refl
  ramped_at_left zero zero (locking ∷ ps) = refl
  ramped_at_left zero zero (working ∷ ps) = refl
  ramped_at_left zero zero (failing e ∷ ps) = refl
  ramped_at_left zero zero (finished ∷ ps) = refl
  ramped_at_left zero (suc j) (p ∷ ps) = refl
  ramped_at_left (suc i) zero (p ∷ ps) = refl
  ramped_at_left (suc i) (suc j) (p ∷ ps) = ramped_at_left i j ps

  steps_ended :
      (es : List (Event E)) (r : Run E) (id : ℕ)
      → r.shared.ended ≡ true
      → left_at id (steps opts es r).phases ≤ left_at id r.phases - turns_of id es
  unfolding steps step
  steps_ended [] r id h = omega arith
  steps_ended (timer i ∷ es) r id h =
      omega (arith, steps_ended es (step opts (timer i) r) id h, ramped_at_left i id r.phases)
  steps_ended (turn i result ∷ es) r id h =
      let t = turn_at_ended 0 i id result r.phases r.shared h in
      omega (arith, steps_ended es (step opts (turn i result) r) id t.0, t.1)
  steps_ended (expire ∷ es) r id h = steps_ended es (step opts expire r) id refl

  left_finished : (p : Phase E) → turns_left p ≤ 0 → is_finished p ≡ true
  unfolding is_finished
  left_finished finished h = refl
  left_finished ramping h = absurd (omega (arith, h))
  left_finished ready h = absurd (omega (arith, h))
  left_finished locking h = absurd (omega (arith, h))
  left_finished working h = absurd (omega (arith, h))
  left_finished (failing e) h = absurd (omega (arith, h))

  left_le : (p : Phase E) → turns_left p ≤ 3
  left_le ramping = omega arith
  left_le ready = omega arith
  left_le locking = omega arith
  left_le working = omega arith
  left_le (failing e) = omega arith
  left_le finished = omega arith

  -- Once the context of a run has ended, a worker that takes three more turns has come to its end,
  -- wherever it stood and whatever the others do: no worker keeps the run from returning, as long as
  -- `fn` returns.
  pub steps-drain :
      (es : List (Event E)) (r : Run E) (id : ℕ)
      → r.shared.ended ≡ true
      → 3 ≤ turns_of id es
      → is_finished (get_or (steps opts es r).phases id finished) ≡ true
  steps-drain es r id h k =
      left_finished _
        (omega (arith, steps_ended es r id h, k, left_le (get_or r.phases id finished)))
