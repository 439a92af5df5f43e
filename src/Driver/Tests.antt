-- ===== src/Driver/Tests.antt =====
-- Runs of a few workers at concrete inputs.
use yarilo_loadtest.Base.{
  ℕ, ◌≡◌, ◌≤◌, refl, true, false, List, [], ◌∷◌, none, some, length, pos, pos_part, get_or, arith,
}
use yarilo_loadtest.Base.Result.{err}
use yarilo_loadtest.Driver.{
  Options, Event, timer, turn, keep_first, is_spent, move, ramped, turn_at, ramped_at, step, steps,
  workers, stagger, repeat, start, is_finished, all_finished, outcome, unbounded, run, locking,
  working, finished, Run,
}
use yarilo_loadtest.Driver.Drain.{steps-drain}
use yarilo_loadtest.Driver.Errors.{outcome-steps}
use yarilo_loadtest.Driver.Bounds.{calls_bound, calls_exact}

abbrev two_calls : Options
two_calls = record {
  concurrency = pos 2;
  duration = pos 0;
  iterations = pos 2;
  ramp_up = pos 4;
  stop_on_error = false;
}

-- the second worker fails once, the first is the one that finds the bound reached first
abbrev schedule : List (Event ℕ)
schedule =
    timer 1
    ∷ turn 1 none
    ∷ turn 1 none
    ∷ timer 0
    ∷ turn 0 none
    ∷ turn 0 none
    ∷ turn 1 (some 9)
    ∷ turn 1 none
    ∷ turn 0 none
    ∷ turn 0 none
    ∷ turn 1 none
    ∷ turn 1 none
    ∷ turn 0 none
    ∷ []

calls_exact_example :
    length (steps two_calls schedule (start two_calls)).shared.calls ≡ pos_part two_calls.iterations
unfolding steps step turn_at ramped_at ramped move is_spent start workers stagger repeat
    all_finished is_finished
calls_exact_example = calls_exact ℕ two_calls refl schedule refl refl

calls_bound_example :
    let s = (steps two_calls schedule (start two_calls)).shared in
    (length s.calls ≡ s.iter_count) × (length s.calls ≤ pos_part two_calls.iterations)
calls_bound_example = calls_bound ℕ two_calls refl schedule

first_error :
    (let r = steps (record two_calls { stop_on_error = true }) schedule (start two_calls) in
      (outcome (record two_calls { stop_on_error = true }) r ≡ some 9) × (r.shared.ended ≡ true))
unfolding steps step turn_at ramped_at ramped move is_spent start workers stagger repeat keep_first
    outcome
first_error = (refl, refl)

no_bound : run {E = ℕ} (record two_calls { iterations = pos 0 }) [] ≡ err unbounded
unfolding run
no_bound = refl

abbrev ended_run : Run ℕ
ended_run = record {
  phases = locking ∷ working ∷ [];
  shared = record { iter_count = 1; first_err = none; ended = true; calls = 1 ∷ [] };
}

abbrev last_turns : List (Event ℕ)
last_turns = turn 0 none ∷ turn 1 (some 4) ∷ turn 0 (some 5) ∷ turn 0 none ∷ []

steps-drain_example :
    is_finished (get_or (steps two_calls last_turns ended_run).phases 0 finished) ≡ true
steps-drain_example = steps-drain two_calls last_turns ended_run 0 refl (omega arith)

outcome-steps_example :
    outcome two_calls (steps two_calls last_turns ended_run) ≡ outcome two_calls ended_run
outcome-steps_example = outcome-steps two_calls last_turns ended_run refl (refl, (refl, tt))
