-- ===== src/CommandLine/Whole/Tests.antt =====
-- The course of the program at concrete inputs.
use yarilo_loadtest.Base.{
  ℕ, ◌≡◌, ◌↔◌, refl, true, false, List, [], ◌∷◌, ◌++◌, none, some, codes, pos, if◌then◌else◌,
}
use yarilo_loadtest.Base.Result.{ok}
use yarilo_loadtest.Text.{bytes_eq, equal_fold}
use yarilo_loadtest.Text.Number.{print_nat}
use yarilo_loadtest.Driver.{
  Options, turn, expire, steps, step, turn_at, move, is_spent, start, repeat, workers, stagger,
  all_finished, is_finished, outcome,
}
use yarilo_loadtest.CommandLine.Whole.Clean.{IsClean}
use yarilo_loadtest.Stats.{Summary}
use yarilo_loadtest.Stallwatch.Settings.{System}
use yarilo_loadtest.CommandLine.{Plan, plan, is_stall_watch}
use yarilo_loadtest.CommandLine.Tests.{counting, flags, no_files, exact}
use yarilo_loadtest.CommandLine.Whole.{
  Happening, stepped, reported, World, level_debug, level_info, level_from_env, printed, close,
  main, status,
}
use yarilo_loadtest.CommandLine.Whole.Status.{GoesWell, status-main}

-- an environment that asks for everything to be logged, and no files
abbrev bare : System
bare = record {
  getenv = λ key. if bytes_eq key (codes "LOG_LEVEL") then codes "DEBUG" else [];
  read_file = λ path. none;
  glob = λ pattern. [];
  join = λ dir name. dir ++ b'/' ∷ name;
  is_pem = λ s. true;
  compile = λ s. none;
  make_dirs = λ s. true;
  whole_seconds = λ d. pos 30;
}

-- a call that is served, and one that the end of the run cuts off
abbrev course : List (Happening ℕ)
course =
    stepped (turn 0 none)
    ∷ stepped (turn 0 none)
    ∷ reported (codes "DATA") 7 none
    ∷ stepped (turn 0 none)
    ∷ stepped (turn 0 none)
    ∷ stepped (turn 0 none)
    ∷ stepped expire
    ∷ reported (codes "DATA") 9 (some (codes "context deadline exceeded"))
    ∷ stepped (turn 0 (some 4))
    ∷ []

abbrev world : World ℕ
world = record {
  sys = bare;
  listed = none;
  web = record { is_url = λ s. true; decode = λ s. none };
  rounds = [];
  stream = none;
  files = no_files;
  prepared = none;
  happenings = course;
  floats = exact;
  format = record { elapsed = codes "3.0"; rate = print_nat; millis = print_nat };
  json = λ s. none;
}

status-main_example :
    (status (main (codes "loadtest" ∷ []) flags world) ≡ some 0)
    ↔ ((pl : Plan counting) × (plan no_files flags ≡ ok pl) × GoesWell flags world pl)
unfolding is_stall_watch
status-main_example = status-main flags world (codes "loadtest" ∷ []) refl

levels : (level_from_env bare.getenv ≡ level_debug) × (level_from_env (λ key. []) ≡ level_info)
unfolding level_from_env equal_fold bytes_eq
levels = (refl, refl)

unwritable :
    (s : Summary)
    → status {E = ℕ} (close none s (printed (record flags { json = true }) world s)) ≡ some 2
unfolding status close printed
unwritable s = refl

abbrev one_call : Options
one_call = record {
  concurrency = pos 0;
  duration = pos 0;
  iterations = pos 1;
  ramp_up = pos 0;
  stop_on_error = true;
}

-- what the end of the run cuts off does not count against it
clean : IsClean one_call false course
unfolding steps step turn_at move is_spent start repeat workers stagger all_finished is_finished
    outcome
clean = record { bounded = refl; served = refl; finished = refl; returned = refl; unfailing = refl }
