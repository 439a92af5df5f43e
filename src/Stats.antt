-- ===== src/Stats.antt =====
-- The collector and its summary (internal/stats/stats.go). A map is an association list in the order
-- in which its keys came; durations are whole numbers. What the floating-point arithmetic decides,
-- the place of a percentile, is a parameter.
pub mod Totals
pub mod Percentiles
pub mod Live
pub mod Table
pub mod Sessions
mod Tests
use yarilo_loadtest.Base.{
  ℕ, zero, suc, ◌+◌, ◌-◌, ◌≤◌, ◌≡◌, Bool, true, false, ◌&&◌, List, [], ◌∷◌, ◌++◌, Option, none,
  some, Bytes, length, get_or, leb, if◌then◌else◌,
}
use yarilo_loadtest.Text.{bytes_eq}

-- `command`: what is kept of one command
pub record Command : Type 0 where
  pub cancelled : ℕ
  pub first_err : Bytes
  pub samples : List ℕ
  pub errors : ℕ

abbrev pub fresh : Command
fresh = record { cancelled = 0; first_err = []; samples = []; errors = 0 }

abbrev pub Commands : Type 0
Commands = List (Bytes × Command)

-- `Collector`; `bound` says that `BindRun` was called
pub record Collector : Type 0 where
  pub cmds : Commands
  pub bound : Bool

abbrev pub new : Collector
new = record { cmds = []; bound = false }

pub bind_run : Collector → Collector
bind_run c = record c { bound = true }

-- one call of `Observe`, with what the run's context says at that moment
pub record Observation : Type 0 where
  pub name : Bytes
  pub duration : ℕ
  pub error : Option Bytes
  pub run_done : Bool

-- `cancelling`
pub cancelling : Collector → Observation → Bool
cancelling c o = c.bound && o.run_done

-- the switch of `Observe`
pub count_outcome : Option Bytes → Bool → Command → Command
count_outcome none ended cmd = cmd
count_outcome (some e) true cmd = record cmd { cancelled = cmd.cancelled + 1 }
count_outcome (some e) false cmd = record cmd {
  errors = cmd.errors + 1;
  first_err = elim cmd.first_err [ [] ↦ e | b ∷ s ↦ b ∷ s ];
}

pub record_sample : ℕ → Command → Command
record_sample d cmd = record cmd { samples = cmd.samples ++ d ∷ [] }

-- a command is looked up and changed, and made if it is not there
pub change : Bytes → (Command → Command) → Commands → Commands
change name f [] = (name, f fresh) ∷ []
change name f ((k, cmd) ∷ cmds) =
    let rest = change name f cmds in if bytes_eq k name then (k, f cmd) ∷ cmds else (k, cmd) ∷ rest

-- `Observe`
pub observe : Collector → Observation → Collector
observe c o = record c {
  cmds =
      change o.name (λ cmd. count_outcome o.error (cancelling c o) (record_sample o.duration cmd))
        c.cmds;
}

unfoldable pub observe_all : Collector → List Observation → Collector
observe_all c [] = c
observe_all c (o ∷ os) = observe_all (observe c o) os

-- `sort.Slice` on durations: any sort gives this list
pub insert : ℕ → List ℕ → List ℕ
insert d [] = d ∷ []
insert d (e ∷ es) = let rest = insert d es in if leb d e then d ∷ e ∷ es else e ∷ rest

pub sort : List ℕ → List ℕ
sort [] = []
sort (d ∷ ds) = insert d (sort ds)

-- The fractions that the summary asks for.
pub data Fraction : Type 0 where
  none_of half most nearly_all all_of : Fraction

abbrev pub rank : Fraction → ℕ
rank none_of = 0
rank half = 50
rank most = 95
rank nearly_all = 99
rank all_of = 100

-- `int(p * float64(n))`: multiplication by 0 and 1 is exact, and a larger factor does not give less.
pub record Floats : Type 0 where
  pub scale : Fraction → ℕ → ℕ
  pub scale_none : (n : ℕ) → scale none_of n ≡ 0
  pub scale_all : (n : ℕ) → scale all_of n ≡ n
  pub scale_mono : (p q : Fraction) (n : ℕ) → rank p ≤ rank q → scale p n ≤ scale q n

-- `CmdStat`, with durations where the source goes on to milliseconds
pub record CmdStat : Type 0 where
  pub count : ℕ
  pub errors : ℕ
  pub cancelled : ℕ
  pub first_error : Bytes
  pub least : ℕ
  pub median : ℕ
  pub p95 : ℕ
  pub p99 : ℕ
  pub greatest : ℕ

pub record Summary : Type 0 where
  pub commands : List (Bytes × CmdStat)
  pub errors : ℕ
  pub cancelled : ℕ

module _ (f : Floats) where
  -- `percentile`
  pub percentile : List ℕ → Fraction → ℕ
  percentile [] p = 0
  percentile (d ∷ ds) p = get_or (d ∷ ds) (f.scale p (length ds)) 0

  pub cmd_stat : Command → CmdStat
  cmd_stat cmd =
      let sorted = sort cmd.samples in
      record {
        count = length sorted;
        errors = cmd.errors;
        cancelled = cmd.cancelled;
        first_error = cmd.first_err;
        least = percentile sorted none_of;
        median = percentile sorted half;
        p95 = percentile sorted most;
        p99 = percentile sorted nearly_all;
        greatest = percentile sorted all_of;
      }

  -- the loop of `Summary` over the commands
  pub summary_loop : Commands → Summary → Summary
  summary_loop [] out = out
  summary_loop ((name, cmd) ∷ cmds) out = summary_loop cmds (record {
    commands = out.commands ++ (name, cmd_stat cmd) ∷ [];
    errors = out.errors + cmd.errors;
    cancelled = out.cancelled + cmd.cancelled;
  })

  -- `Summary`
  pub summary : Collector → Summary
  summary c = summary_loop c.cmds (record { commands = []; errors = 0; cancelled = 0 })
