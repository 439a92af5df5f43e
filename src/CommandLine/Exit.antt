-- ===== src/CommandLine/Exit.antt =====
-- With what status the program (main.go) ends.
use yarilo_loadtest.Base.{ℕ, ◌≡◌, ◌↔◌, refl, ◌&&◌, not, List, Option, none, some, arith}
use yarilo_loadtest.Stats.{Floats, Observation, bind_run, new, observe_all, summary}
use yarilo_loadtest.Stats.Totals.{failed, tally, summary_counts}
use yarilo_loadtest.CommandLine.{exit_status}

pub exit_status-none :
    {E : Type 0} (outcome : Option E) (errors : ℕ)
    → exit_status outcome errors ≡ 0
    → (outcome ≡ none) × (errors ≡ 0)
unfolding exit_status
exit_status-none none errors h = (refl, ground (arith, h))
exit_status-none (some e) errors h = (ground (arith, h), ground (arith, h))

pub exit_status-good :
    {E : Type 0} (outcome : Option E) (errors : ℕ)
    → outcome ≡ none
    → errors ≡ 0
    → exit_status outcome errors ≡ 0
unfolding exit_status
exit_status-good none errors h e = ground (arith, e)
exit_status-good (some x) errors h e = cc

-- A run whose collector is bound to it ends with status 0 exactly when the run returned no error and
-- no operation was observed to fail while it was on.
pub exit_status-summary :
    {E : Type 0} (f : Floats) (outcome : Option E) (os : List Observation)
    → (exit_status outcome (summary f (observe_all (bind_run new) os)).errors ≡ 0)
      ↔ ((outcome ≡ none) × (tally (λ o. failed o && not o.run_done) os ≡ 0))
exit_status-summary f outcome os =
    let errors = (summary f (observe_all (bind_run new) os)).errors in
    let counts = (summary_counts f os).0 in
    (
      λ h. let fine = exit_status-none outcome errors h in (fine.0, omega (arith, fine.1, counts)),
      λ (none_returned, none_failed).
          exit_status-good outcome errors none_returned (omega (arith, none_failed, counts)),
    )
