-- ===== src/Driver.antt =====
-- What every protocol driver shares (internal/driver/driver.go): the bounds of a run, its workers and
-- how failures end it. A worker is a goroutine; a turn is one of its steps between two points at which
-- another may run, so that a list of events is one interleaving.
pub mod Bounds
pub mod Drain
pub mod Errors
mod Tests
use yarilo_loadtest.Base.{
  ℕ, zero, ◌+◌, ◌/◌, Bool, true, false, ◌&&◌, not, List, [], ◌∷◌, Option, none, some, ltb, leb,
  if◌then◌else◌, ℤ, pos_part, suc, is_nonpos,
}
use yarilo_loadtest.Base.Result.{Result, ok, err}

pub record Options : Type 0 where
  pub concurrency : ℤ
  pub duration : ℤ
  pub iterations : ℤ
  pub ramp_up : ℤ
  pub stop_on_error : Bool

-- where a worker's goroutine stands; `failing` holds the error it is about to note
pub data Phase (E : Type 0) : Type 0 where
  ramping ready locking working : Phase E
  failing : E → Phase E
  finished : Phase E

-- the variables that the workers share; `calls` are the workers on whose behalf `fn` was called, the
-- newest first
pub record Shared (E : Type 0) : Type 0 where
  pub iter_count : ℕ
  pub first_err : Option E
  pub ended : Bool
  pub calls : List ℕ

pub record Run (E : Type 0) : Type 0 where
  pub phases : List (Phase E)
  pub shared : Shared E

-- A worker's ramp-up timer goes off; a worker takes a step, with what `fn` returns where it is in
-- `fn`; the context of the run ends by its deadline or from outside.
pub data Event (E : Type 0) : Type 0 where
  timer : ℕ → Event E
  turn : ℕ → Option E → Event E
  expire : Event E

-- `if opts.Concurrency <= 0 { opts.Concurrency = 1 }`
unfoldable pub workers : Options → ℕ
workers opts = if is_nonpos opts.concurrency then 1 else pos_part opts.concurrency

-- the delay between two workers' starts, in nanoseconds
unfoldable pub stagger : Options → ℕ
stagger opts = pos_part opts.ramp_up / workers opts

module _ {E : Type 0} where
  -- `if firstErr == nil { firstErr = err }`
  pub keep_first : Option E → E → Option E
  keep_first none e = some e
  keep_first (some first) e = some first

  -- the iteration bound that stands under the mutex
  unfoldable pub is_spent : Options → Shared E → Bool
  is_spent opts s = not (is_nonpos opts.iterations) && leb (pos_part opts.iterations) s.iter_count

  -- one step of the goroutine of worker `id`
  unfoldable pub move : Options → ℕ → Option E → Phase E → Shared E → Phase E × Shared E
  move opts id result ramping s = (if s.ended then finished else ramping, s)
  move opts id result ready s = (if s.ended then finished else locking, s)
  move opts id result locking s =
      if is_spent opts s
      then (finished, s)
      else (working, record s { iter_count = s.iter_count + 1; calls = id ∷ s.calls })
  move opts id none working s = (ready, s)
  move opts id (some e) working s = (if s.ended then finished else failing e, s)
  move opts id result (failing e) s =
      if opts.stop_on_error
      then (finished, record s { first_err = keep_first s.first_err e; ended = true })
      else (ready, record s { first_err = keep_first s.first_err e })
  move opts id result finished s = (finished, s)

  pub ramped : Phase E → Phase E
  ramped ramping = ready
  ramped p = p

  -- worker `i` of the list takes its step; `id` is the number of the list's first worker
  unfoldable pub turn_at :
      Options → ℕ → ℕ → Option E → List (Phase E) → Shared E → List (Phase E) × Shared E
  turn_at opts id i result [] s = ([], s)
  turn_at opts id zero result (p ∷ ps) s = let (q, t) = move opts id result p s in (q ∷ ps, t)
  turn_at opts id (suc i) result (p ∷ ps) s =
      let (qs, t) = turn_at opts (id + 1) i result ps s in (p ∷ qs, t)

  pub ramped_at : ℕ → List (Phase E) → List (Phase E)
  ramped_at i [] = []
  ramped_at zero (p ∷ ps) = ramped p ∷ ps
  ramped_at (suc i) (p ∷ ps) = p ∷ ramped_at i ps

  unfoldable pub step : Options → Event E → Run E → Run E
  step opts (timer id) r = record r { phases = ramped_at id r.phases }
  step opts (turn id result) r =
      let (ps, s) = turn_at opts 0 id result r.phases r.shared in record { phases = ps; shared = s }
  step opts expire r = record r { shared = record r.shared { ended = true } }

  unfoldable pub steps : Options → List (Event E) → Run E → Run E
  steps opts [] r = r
  steps opts (e ∷ es) r = steps opts es (step opts e r)

  unfoldable pub repeat : ℕ → Phase E → List (Phase E)
  repeat zero p = []
  repeat (suc n) p = p ∷ repeat n p

  unfoldable pub start : Options → Run E
  start opts = record {
    phases = repeat (workers opts) (if ltb 0 (stagger opts) then ramping else ready);
    shared = record { iter_count = 0; first_err = none; ended = false; calls = [] };
  }

  unfoldable pub is_finished : Phase E → Bool
  is_finished finished = true
  is_finished _ = false

  -- `wg.Wait()` has come back
  unfoldable pub all_finished : List (Phase E) → Bool
  all_finished [] = true
  all_finished (p ∷ ps) = is_finished p && all_finished ps

  -- what the end of the function returns
  unfoldable pub outcome : Options → Run E → Option E
  outcome opts r = if opts.stop_on_error then r.shared.first_err else none

pub data Refusal : Type 0 where
  unbounded : Refusal

-- `Run` under one interleaving: the state that it leaves its workers in
unfoldable pub run : {E : Type 0} → Options → List (Event E) → Result Refusal (Run E)
run opts events =
    if is_nonpos opts.duration && is_nonpos opts.iterations
    then err unbounded
    else ok (steps opts events (start opts))
