-- ===== src/Stats/Live/Summed.antt =====
-- What the loop of the summary (internal/stats/stats.go) gathers.
use yarilo_loadtest.Base.{
  ℕ, ◌+◌, ◌≡◌, sym, ◌∙◌, [], ◌∷◌, ◌++◌, arith, Bytes, append-nil, append_assoc,
}
use yarilo_loadtest.Stats.{
  Command, Commands, Collector, Floats, cmd_stat, Summary, summary_loop, summary,
}
use yarilo_loadtest.Stats.Live.Names.{shown, errors_of}
use yarilo_loadtest.Stats.Totals.{total}

abbrev pub cancelled_of : Commands → ℕ
cancelled_of = total (λ cmd. cmd.cancelled)

module _ (f : Floats) where
  -- where the loop of the summary goes from a command
  abbrev next : Summary → Bytes → Command → Summary
  next out k c = record {
    commands = out.commands ++ (k, cmd_stat f c) ∷ [];
    errors = out.errors + c.errors;
    cancelled = out.cancelled + c.cancelled;
  }

  summary_loop-errors :
      (cmds : Commands) (out : Summary)
      → (summary_loop f cmds out).errors ≡ out.errors + errors_of cmds
  unfolding summary_loop
  summary_loop-errors [] out = omega arith
  summary_loop-errors ((k, c) ∷ cmds) out = omega (arith, summary_loop-errors cmds (next out k c))

  summary_loop-shown :
      (cmds : Commands) (out : Summary)
      → (summary_loop f cmds out).commands ≡ out.commands ++ shown f cmds
  unfolding summary_loop
  summary_loop-shown [] out = sym (append-nil out.commands)
  summary_loop-shown ((k, c) ∷ cmds) out =
      summary_loop-shown cmds (next out k c)
      ∙ append_assoc out.commands ((k, cmd_stat f c) ∷ []) (shown f cmds)

  summary_loop-cancelled :
      (cmds : Commands) (out : Summary)
      → (summary_loop f cmds out).cancelled ≡ out.cancelled + cancelled_of cmds
  unfolding summary_loop
  summary_loop-cancelled [] out = omega arith
  summary_loop-cancelled ((k, c) ∷ cmds) out =
      omega (arith, summary_loop-cancelled cmds (next out k c))

  pub summary-shown : (c : Collector) → (summary f c).commands ≡ shown f c.cmds
  unfolding summary
  summary-shown c = summary_loop-shown c.cmds _

  pub summary-errors : (c : Collector) → (summary f c).errors ≡ errors_of c.cmds
  unfolding summary
  summary-errors c =
      omega
        (arith, summary_loop-errors c.cmds (record { commands = []; errors = 0; cancelled = 0 }))

  pub summary-cancelled : (c : Collector) → (summary f c).cancelled ≡ cancelled_of c.cmds
  unfolding summary
  summary-cancelled c =
      omega
        (arith, summary_loop-cancelled c.cmds (record { commands = []; errors = 0; cancelled = 0 }))
