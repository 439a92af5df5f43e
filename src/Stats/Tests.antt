-- ===== src/Stats/Tests.antt =====
-- The collector at concrete inputs.
use yarilo_loadtest.Base.{
  ◌*◌, ◌/◌, ◌≤◌, ◌≡◌, refl, true, false, not, ◌&&◌, List, [], ◌∷◌, none, some, arith, codes, length,
}
use mathlib.Core.List.{Perm}
use mathlib.Core.List.Perm
use native.Mathlib.Nat.{mul-le-mul_left}
use yarilo_loadtest.Text.Number.{print_nat}
use yarilo_loadtest.Stats.Table.{Format, write_table}
use yarilo_loadtest.Stats.Table.Rows.{write_table-perm}
use yarilo_loadtest.Text.{bytes_eq}
use yarilo_loadtest.Stats.{
  Command, Commands, new, bind_run, Observation, cancelling, count_outcome, record_sample, change,
  observe, observe_all, insert, sort, rank, Floats, percentile, cmd_stat, summary_loop, summary,
}
use yarilo_loadtest.Stats.Totals.{failed, tally, total_count, summary_counts}
use yarilo_loadtest.Stats.Percentiles.{cmd_stat_ordered}

-- the arithmetic without rounding
abbrev exact : Floats
exact = record {
  scale = λ p n. n * rank p / 100;
  scale_none = λ n. omega arith;
  scale_all = λ n. omega arith;
  scale_mono =
      λ p q n h. (let k : n * rank p ≤ n * rank q = mul-le-mul_left n h in omega (arith, k));
}

abbrev three_observations : List Observation
three_observations =
    record { name = codes "RCPT"; duration = 5; error = none; run_done = false }
    ∷ record { name = codes "DATA"; duration = 7; error = some (codes "no"); run_done = false }
    ∷ record { name = codes "RCPT"; duration = 3; error = some (codes "late"); run_done = true }
    ∷ []

summary_counts_example :
    ((summary exact (observe_all (bind_run new) three_observations)).errors
      ≡ tally (λ o. failed o && not o.run_done) three_observations)
    × ((summary exact (observe_all (bind_run new) three_observations)).cancelled
        ≡ tally (λ o. failed o && o.run_done) three_observations)
    × (total_count (summary exact (observe_all (bind_run new) three_observations)).commands
        ≡ length three_observations)
summary_counts_example = summary_counts exact three_observations

abbrev durations : Command
durations = record { cancelled = 0; first_err = []; samples = 4 ∷ 1 ∷ 9 ∷ []; errors = 0 }

cmd_stat_ordered_example :
    ((cmd_stat exact durations).least ≤ (cmd_stat exact durations).median)
    × ((cmd_stat exact durations).median ≤ (cmd_stat exact durations).p95)
    × ((cmd_stat exact durations).p95 ≤ (cmd_stat exact durations).p99)
    × ((cmd_stat exact durations).p99 ≤ (cmd_stat exact durations).greatest)
cmd_stat_ordered_example = cmd_stat_ordered exact durations

counted :
    let s = summary exact (observe_all (bind_run new) three_observations) in
    (s.errors ≡ 1) × (s.cancelled ≡ 1)
unfolding summary summary_loop cmd_stat percentile sort insert observe_all observe change
    count_outcome record_sample cancelling bind_run bytes_eq
counted = (refl, refl)

abbrev whole_numbers : Format
whole_numbers = record { elapsed = codes "3.0"; rate = print_nat; millis = print_nat }

-- the commands of the three observations, in the other order
abbrev turned_round : Commands
turned_round =
    (codes "DATA", record { cancelled = 0; first_err = codes "no"; samples = 7 ∷ []; errors = 1 })
    ∷ (codes "RCPT", record { cancelled = 1; first_err = []; samples = 5 ∷ 3 ∷ []; errors = 0 })
    ∷ []

turned_round-perm : Perm (observe_all (bind_run new) three_observations).cmds turned_round
unfolding observe_all observe change count_outcome record_sample cancelling bind_run bytes_eq
turned_round-perm = Perm.swap _ _ _

write_table-perm_example :
    write_table whole_numbers (summary exact (observe_all (bind_run new) three_observations))
    ≡ write_table whole_numbers (summary exact (record { cmds = turned_round; bound = true }))
unfolding bind_run observe_all observe
write_table-perm_example =
    write_table-perm exact whole_numbers three_observations turned_round turned_round-perm
