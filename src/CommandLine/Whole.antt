-- ===== src/CommandLine/Whole.antt =====
-- The course of the program (main.go: main), from its arguments to its status: the stall watch, or a plan,
-- the run of its workers, the summary and what is printed of it. What the workers' operations do to the
-- network is in the drivers; here they report to the collector, each report at its place among the steps
-- of the workers.
mod Clean
pub mod Status
mod Tests
use yarilo_loadtest.Base.{
  ℕ, Bool, true, false, ◌&&◌, List, [], ◌∷◌, Option, none, some, Bytes, codes, length, ltb,
  if◌then◌else◌, ℤ, pos, ltb_ℤ, is_nonpos,
}
use yarilo_loadtest.Base.Result.{Result, ok, err, ◌>>=◌}
use yarilo_loadtest.Text.{equal_fold}
use yarilo_loadtest.Corpus.Mbox.{File}
use yarilo_loadtest.Corpus.Generator.{Platform}
use yarilo_loadtest.Driver.{Options, Run, Event, step, run, outcome, all_finished}
use yarilo_loadtest.Driver as Runs
use yarilo_loadtest.Stats.{Collector, Summary, Floats, new, bind_run, observe, summary}
use yarilo_loadtest.Stats.Table.{Format, write_table}
use yarilo_loadtest.Stallwatch as Watch
use yarilo_loadtest.Stallwatch.Settings.{System}
use yarilo_loadtest.Stallwatch.Settings as WatchSettings
use yarilo_loadtest.Stallwatch.Api.{Web, Response, Round}
use yarilo_loadtest.Stallwatch.Capture.{Action}
use yarilo_loadtest.CommandLine.{
  Flags, Refusal, Plan, lmtp, imap, pop3, jmap, plan, is_stall_watch, exit_status,
}

-- What happens while the workers run: one of them takes a step, or one reports an operation to the
-- collector.
pub data Happening (E : Type 0) : Type 0 where
  stepped : Event E → Happening E
  reported : (name : Bytes) → (duration : ℕ) → (error : Option Bytes) → Happening E

pub record Progress (E : Type 0) : Type 0 where
  pub run : Run E
  pub collector : Collector

-- What the program finds: the environment and the files; what a stall watch is told by the cluster; how
-- `Prepare` of the IMAP driver ends and what happens while the workers run; the texts of floating-point
-- numbers, the places of percentiles, and what `WriteJSON` writes, if writing does not fail.
pub record World (E : Type 0) : Type 0 where
  pub sys : System
  pub web : Web
  pub listed : Option Response
  pub rounds : List Round
  pub stream : Option Watch.Stream
  pub files : Bytes → File
  pub prepared : Option E
  pub happenings : List (Happening E)
  pub floats : Floats
  pub format : Format
  pub json : Summary → Option Bytes

-- the error that a driver's function returns to `main`
pub data Failure (E : Type 0) : Type 0 where
  not_prepared : E → Failure E
  not_bounded : Runs.Refusal → Failure E
  not_served : E → Failure E

-- where a driver's function stands: it has panicked, waits for its workers or has come back
pub data Course (E : Type 0) : Type 0 where
  died waiting : Course E
  back : Option (Failure E) → Collector → Course E

-- where the program stands
pub data Ending (E : Type 0) : Type 0 where
  watching : Ending E
  watched : Result WatchSettings.Error (Unit {0}) → List Action → Ending E
  refused : Refusal → Ending E
  panicked running unwritten : Ending E
  finished : Option (Failure E) → Summary → (output : Bytes) → Ending E

pub data Level : Type 0 where
  level_debug level_info : Level

-- `levelFromEnv`
pub level_from_env : (Bytes → Bytes) → Level
level_from_env getenv =
    if equal_fold (getenv (codes "LOG_LEVEL")) (codes "debug") then level_debug else level_info

module _ {E : Type 0} where
  pub happen : Options → Happening E → Progress E → Progress E
  happen opts (stepped e) p = record p { run = step opts e p.run }
  happen opts (reported name duration error) p = record p {
    collector =
        observe p.collector (record {
          name = name;
          duration = duration;
          error = error;
          run_done = p.run.shared.ended;
        });
  }

  pub happen_all : Options → List (Happening E) → Progress E → Progress E
  happen_all opts [] p = p
  happen_all opts (h ∷ hs) p = happen_all opts hs (happen opts h p)

  -- `driver.Run` with the collector: its workers, once it has started them
  pub drive : Options → List (Happening E) → Collector → Result Runs.Refusal (Progress E)
  drive opts hs c =
      run opts [] >>= λ r. ok (happen_all opts hs (record { run = r; collector = bind_run c }))

  -- the end of `driver.Run`, where `no_client` says that each call of a worker panics
  pub wait : Options → (no_client : Bool) → Progress E → Course E
  wait opts no_client p =
      if no_client && ltb 0 (length p.run.shared.calls)
      then died
      else if all_finished p.run.phases
      then back (elim (outcome opts p.run) [ none ↦ none | some e ↦ some (not_served e) ])
          p.collector
      else waiting

  pub conduct : Options → (no_client : Bool) → List (Happening E) → Course E
  conduct opts no_client hs = elim (drive opts hs new) [
    | err e ↦ back (some (not_bounded e)) new
    | ok p ↦ wait opts no_client p
  ]

  -- the end of `runIMAP`: the mailboxes are prepared before the clock starts
  pub prepare_first : (prepared : Option E) → Options → List (Happening E) → Course E
  prepare_first (some e) opts hs = back (some (not_prepared e)) new
  prepare_first none opts hs = conduct opts false hs

  -- The end of `runJMAP`: as many clients are made as the flag says, which panics below 0, and a worker
  -- picks one by the remainder, which panics without any.
  pub make_clients : (clients : ℤ) → Options → List (Happening E) → Course E
  make_clients clients opts hs =
      if ltb_ℤ clients (pos 0) then died else conduct opts (is_nonpos clients) hs

  -- the driver's function that `main` calls, behind its configuration
  pub execute : {p : Platform} → World E → Plan p → Course E
  execute w (lmtp c o opts) = conduct opts false w.happenings
  execute w (imap d o opts) = prepare_first w.prepared opts w.happenings
  execute w (pop3 c opts) = conduct opts false w.happenings
  execute w (jmap c clients opts) = make_clients clients opts w.happenings

  -- what is printed of a summary
  pub printed : {p : Platform} → Flags p → World E → Summary → Option Bytes
  printed f w s = if f.json then w.json s else some (write_table w.format s)

  pub close : Option (Failure E) → Summary → Option Bytes → Ending E
  close e s none = unwritten
  close e s (some output) = finished e s output

  -- `main` behind its switch
  pub report : {p : Platform} → Flags p → World E → Course E → Ending E
  report f w died = panicked
  report f w waiting = running
  report f w (back e c) = let s = summary w.floats c in close e s (printed f w s)

  -- `main`, with the flags that its arguments stand for
  pub main : {p : Platform} → (args : List Bytes) → Flags p → World E → Ending E
  main args f w =
      if is_stall_watch args
      then elim (Watch.start w.sys w.web w.listed w.rounds w.stream) [
        | none ↦ watching
        | some result ↦ watched result.0 result.1
      ]
      else elim (plan w.files f) [ err e ↦ refused e | ok pl ↦ report f w (execute w pl) ]

  -- The status of the program, once it has come to its end; `fail` exits with 2, and so does a panic.
  pub status : Ending E → Option ℕ
  status watching = none
  status (watched (ok a) actions) = some 0
  status (watched (err e) actions) = some 2
  status (refused e) = some 2
  status panicked = some 2
  status running = none
  status unwritten = some 2
  status (finished e s output) = some (exit_status e s.errors)
