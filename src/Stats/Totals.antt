-- ===== src/Stats/Totals.antt =====
-- What the summary counts, against the observations that were made.
use yarilo_loadtest.Base.{
  ℕ, suc, ◌+◌, ◌≡◌, refl, ap, ◌∙◌, Bool, true, false, not, ◌&&◌, List, [], ◌∷◌, ◌++◌, none, some,
  arith, Bytes, length, length-append,
}
use yarilo_loadtest.Stats.{
  Command, Commands, fresh, Collector, new, Observation, cancelling, count_outcome, record_sample,
  change, observe, observe_all, Floats, CmdStat, cmd_stat, insert, sort, Summary, summary_loop,
  summary, bind_run,
}

-- A number of each command, summed.
abbrev pub total : (Command → ℕ) → Commands → ℕ
total f [] = 0
total f ((k, cmd) ∷ cmds) = f cmd + total f cmds

total-change :
    (f : Command → ℕ) (g : Command → Command) (name : Bytes) (more : ℕ) (cmds : Commands)
    → ((cmd : Command) → f (g cmd) ≡ f cmd + more)
    → f fresh ≡ 0
    → total f (change name g cmds) ≡ total f cmds + more
unfolding change
total-change f g name more [] step start = omega (arith, step fresh)
total-change f g name more ((k, cmd) ∷ cmds) step start =
    ground (arith, step cmd, total-change f g name more cmds step start)

abbrev pub failed : Observation → Bool
failed o = elim o.error [ none ↦ false | some e ↦ true ]

abbrev pub one_if : Bool → ℕ
one_if true = 1
one_if false = 0

-- How many observations pass a test.
abbrev pub tally : (Observation → Bool) → List Observation → ℕ
tally p [] = 0
tally p (o ∷ os) = one_if (p o) + tally p os

outcome_errors :
    (o : Observation) (ended : Bool) (cmd : Command)
    → (count_outcome o.error ended (record_sample o.duration cmd)).errors
      ≡ cmd.errors + one_if (failed o && not ended)
unfolding count_outcome record_sample
outcome_errors o ended cmd = ground arith

outcome_cancelled :
    (o : Observation) (ended : Bool) (cmd : Command)
    → (count_outcome o.error ended (record_sample o.duration cmd)).cancelled
      ≡ cmd.cancelled + one_if (failed o && ended)
unfolding count_outcome record_sample
outcome_cancelled o ended cmd = ground arith

outcome_samples :
    (o : Observation) (ended : Bool) (cmd : Command)
    → (count_outcome o.error ended (record_sample o.duration cmd)).samples
      ≡ cmd.samples ++ o.duration ∷ []
unfolding count_outcome record_sample
outcome_samples o ended cmd = ground arith

-- What a run adds to such a number: `more` is told whether the run had ended.
abbrev raised : (Bool → Observation → ℕ) → Bool → List Observation → ℕ
raised more bound [] = 0
raised more bound (o ∷ os) = more (bound && o.run_done) o + raised more bound os

-- A number that an observation raises in its own command, over a whole run.
module _ (f : Command → ℕ) (more : Bool → Observation → ℕ) (start : f fresh ≡ 0)
    (step : (o : Observation) (ended : Bool) (cmd : Command)
      → f (count_outcome o.error ended (record_sample o.duration cmd)) ≡ f cmd + more ended o) where
  total-observe_all :
      (c : Collector) (os : List Observation)
      → total f (observe_all c os).cmds ≡ total f c.cmds + raised more c.bound os
  unfolding observe_all observe cancelling
  total-observe_all c [] = omega arith
  total-observe_all c (o ∷ os) =
      let ended = c.bound && o.run_done in
      let now =
        total-change f (λ cmd. count_outcome o.error ended (record_sample o.duration cmd)) o.name
          (more ended o) c.cmds (step o ended) start in
      omega (arith, now, total-observe_all (observe c o) os)

pub outcome_count :
    (o : Observation) (ended : Bool) (cmd : Command)
    → length (count_outcome o.error ended (record_sample o.duration cmd)).samples
      ≡ length cmd.samples + 1
outcome_count o ended cmd =
    ap length (outcome_samples o ended cmd) ∙ length-append cmd.samples (o.duration ∷ [])

length-insert : (d : ℕ) (ds : List ℕ) → length (insert d ds) ≡ suc (length ds)
unfolding insert
length-insert d [] = refl
length-insert d (e ∷ es) = ground (arith, length-insert d es)

pub length-sort : (ds : List ℕ) → length (sort ds) ≡ length ds
unfolding sort
length-sort [] = refl
length-sort (d ∷ ds) = length-insert d (sort ds) ∙ ap suc (length-sort ds)

abbrev pub total_count : List (Bytes × CmdStat) → ℕ
total_count [] = 0
total_count ((k, s) ∷ stats) = s.count + total_count stats

total_count-append :
    (xs ys : List (Bytes × CmdStat)) → total_count (xs ++ ys) ≡ total_count xs + total_count ys
total_count-append [] ys = omega arith
total_count-append ((k, s) ∷ xs) ys = omega (arith, total_count-append xs ys)

abbrev sample_count : Command → ℕ
sample_count cmd = length cmd.samples

-- What the three counters of a summary are, from any counters that the loop starts with.
record Adds (before after : Summary) (cmds : Commands) : Type 0 where
  errors : after.errors ≡ before.errors + total (λ cmd. cmd.errors) cmds
  cancelled : after.cancelled ≡ before.cancelled + total (λ cmd. cmd.cancelled) cmds
  count : total_count after.commands ≡ total_count before.commands + total sample_count cmds

summary_loop-Adds :
    (f : Floats) (cmds : Commands) (out : Summary) → Adds out (summary_loop f cmds out) cmds
unfolding summary_loop cmd_stat
summary_loop-Adds f [] out = omega arith
summary_loop-Adds f ((k, cmd) ∷ cmds) out =
    let stat = cmd_stat f cmd in
    let next : Summary = record {
      commands = out.commands ++ (k, stat) ∷ [];
      errors = out.errors + cmd.errors;
      cancelled = out.cancelled + cmd.cancelled;
    } in
    let rest = summary_loop-Adds f cmds next in
    let here = total_count-append out.commands ((k, stat) ∷ []) in
    let counted = length-sort cmd.samples in
    record {
      errors = omega (arith, rest.errors);
      cancelled = omega (arith, rest.cancelled);
      count = omega (arith, rest.count, here, counted);
    }

raised-tally :
    (p : Bool → Observation → Bool) (os : List Observation)
    → raised (λ ended o. one_if (p ended o)) true os ≡ tally (λ o. p o.run_done o) os
raised-tally p [] = refl
raised-tally p (o ∷ os) = ap (λ (n : ℕ). one_if (p o.run_done o) + n) (raised-tally p os)

raised-one : (bound : Bool) (os : List Observation) → raised (λ ended o. 1) bound os ≡ length os
raised-one bound [] = refl
raised-one bound (o ∷ os) = omega (arith, raised-one bound os)

-- For a collector that is bound to the run, whatever is observed in whatever order: the errors of
-- the summary are the observations that failed while the run was on, the cancelled ones those that
-- failed after it had ended, and the counts of the commands add up to the number of observations.
pub summary_counts :
    (f : Floats) (os : List Observation)
    → ((summary f (observe_all (bind_run new) os)).errors
        ≡ tally (λ o. failed o && not o.run_done) os)
      × ((summary f (observe_all (bind_run new) os)).cancelled
          ≡ tally (λ o. failed o && o.run_done) os)
      × (total_count (summary f (observe_all (bind_run new) os)).commands ≡ length os)
unfolding summary bind_run
summary_counts f os =
    let c = bind_run new in
    let sums =
      summary_loop-Adds f (observe_all c os).cmds
        (record { commands = []; errors = 0; cancelled = 0 }) in
    let errors =
      total-observe_all (λ cmd. cmd.errors) (λ ended o. one_if (failed o && not ended)) refl
        outcome_errors c os in
    let cancelled =
      total-observe_all (λ cmd. cmd.cancelled) (λ ended o. one_if (failed o && ended)) refl
        outcome_cancelled c os in
    let count = total-observe_all sample_count (λ ended o. 1) refl outcome_count c os in
    (
      omega (arith, sums.errors, errors, raised-tally (λ ended o. failed o && not ended) os),
      omega (arith, sums.cancelled, cancelled, raised-tally (λ ended o. failed o && ended) os),
      omega (arith, sums.count, count, raised-one true os),
    )
