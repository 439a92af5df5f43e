-- ===== src/Stallwatch/Tests.antt =====
-- The stall watch at concrete inputs.
use yarilo_loadtest.Base.{
  ◌≡◌, ◌^◌, refl, true, false, List, [], ◌∷◌, ◌++◌, none, some, arith, Bytes, codes, length, pos,
  negsuc, pos_part, if◌then◌else◌, ℤ, Option,
}
use yarilo_loadtest.Base.Result.{Result, ok, err}
use yarilo_loadtest.Text.{bytes_eq, has_prefix, less, trim_space, trim_left, trim_right}
use yarilo_loadtest.Text.Number.{print_nat, print_int, atoi}
use yarilo_loadtest.Stallwatch.Settings.{
  System, Watcher, Error, no_target, no_token, no_backends, never_started, seconds, env, env_int,
  with_pattern, with_files, new_watcher,
}
use yarilo_loadtest.Stallwatch.Cluster.{
  Pod, Backend, is_backend, insert, sort, backends, started, Poll, target_pod,
}
use yarilo_loadtest.Stallwatch.Capture.{
  copy, log, underscored, stat_patterns, truncate, first_readable, first_hit, cpu_stat, page,
  capture_loop, capture,
}
use yarilo_loadtest.Stallwatch.{
  Event, begin, is_recent, on_line, scan, Stream, join_names, follow_log, follow_pod, run,
}
use yarilo_loadtest.Stallwatch.Rate.{Spaced, Covered, captured-Spaced, captured-Covered}

-- an environment with a target and a cooldown, and no files
abbrev bare : System
bare = record {
  getenv = λ key.
      if bytes_eq key (codes "TARGET")
      then codes "run-1"
      else if bytes_eq key (codes "COOLDOWN")
      then codes "2"
      else [];
  read_file = λ path. none;
  glob = λ pattern. [];
  join = λ dir name. dir ++ b'/' ∷ name;
  is_pem = λ s. true;
  compile = λ s. none;
  make_dirs = λ s. true;
  whole_seconds = λ d. pos 30;
}

abbrev watcher : Watcher
watcher = record {
  ns = codes "ns";
  target = codes "run-1";
  out = codes "/caps";
  cooldown = pos 10;
  profile = pos 30;
  telemetry = codes "8080";
  matches = λ line. has_prefix line (codes "stalled");
  token = [];
}

abbrev backend : Backend
backend = record { name = codes "yarilo-backend-0"; ip = codes "10.0.0.1"; uid = codes "a-b" }

-- stalls at 3, at 9 and at 20
abbrev stalls : List Event
stalls =
    record { line = codes "stalled"; seen = 3; taken = 4; unix = 1 }
    ∷ record { line = codes "ok"; seen = 8; taken = 8; unix = 1 }
    ∷ record { line = codes "stalled"; seen = 9; taken = 9; unix = 1 }
    ∷ record { line = codes "stalled"; seen = 20; taken = 21; unix = 2 }
    ∷ []

captured-Spaced_example :
    Spaced (pos_part watcher.cooldown) none (scan bare watcher backend [] stalls begin).captured
captured-Spaced_example = captured-Spaced bare watcher backend [] stalls (omega arith)

captured-Covered_example :
    Covered watcher (scan bare watcher backend [] stalls begin).captured stalls
captured-Covered_example = captured-Covered bare watcher backend [] stalls (omega arith)

two_of_three : (scan bare watcher backend [] stalls begin).captured ≡ 4 ∷ 21 ∷ []
unfolding scan on_line is_recent has_prefix
two_of_three = refl

set_up :
    (env bare (codes "NS") (codes "yarilo-sb") ≡ codes "yarilo-sb")
    × (env_int bare (codes "COOLDOWN") 60 ≡ 2)
    × (env_int bare (codes "PROFILE_SECS") 30 ≡ 30)
    × (new_watcher bare ≡ err no_token)
    × (new_watcher (record bare { getenv = λ key. [] }) ≡ err no_target)
unfolding env env_int new_watcher atoi bytes_eq
set_up = (refl, refl, refl, refl, refl)

abbrev able : System
able = record bare { read_file = λ path. some (codes " key "); compile = λ s. some (λ line. true) }

abbrev cooldown_of : Result Error Watcher → Option ℤ
cooldown_of (ok w) = some w.cooldown
cooldown_of (err e) = none

configured : cooldown_of (new_watcher able) ≡ some (pos 2_000_000_000)
unfolding new_watcher with_files with_pattern env env_int seconds atoi bytes_eq trim_space trim_left
    trim_right
configured = refl

-- a duration that does not fit wraps round
wrapped : seconds (2 ^ 34) ≡ negsuc 1_266_874_889_709_551_615
unfolding seconds
wrapped = refl

abbrev pod_of : (name ip phase : Bytes) → Pod
pod_of name ip phase = record { name = name; uid = codes "u"; ip = ip; phase = phase }

abbrev pods : List Pod
pods =
    pod_of (codes "yarilo-backend-1") (codes "10.0.0.2") (codes "Running")
    ∷ pod_of (codes "yarilo-backend-2") [] (codes "Pending")
    ∷ pod_of (codes "yarilo-backend-0") (codes "10.0.0.1") (codes "Running")
    ∷ pod_of (codes "run-1") (codes "10.0.0.9") (codes "Pending")
    ∷ []

found :
    (backends (some pods)
      ≡ ok (
          record { name = codes "yarilo-backend-0"; ip = codes "10.0.0.1"; uid = codes "u" }
          ∷ record { name = codes "yarilo-backend-1"; ip = codes "10.0.0.2"; uid = codes "u" }
          ∷ []))
    × (backends (some []) ≡ err no_backends)
unfolding backends is_backend sort insert less has_prefix bytes_eq
found = (refl, refl)

abbrev poll_of : List Pod → Poll
poll_of pods = record { pods = some pods; too_late = false; ended = false }

waited :
    (target_pod (poll_of [] ∷ poll_of pods ∷ []) ≡ some (ok (codes "yarilo-backend-1")))
    × (target_pod (record (poll_of []) { too_late = true } ∷ []) ≡ some (err never_started))
unfolding target_pod started bytes_eq
waited = (refl, refl)

shots : length (capture able watcher (codes "s1") backend []) ≡ 4
unfolding capture capture_loop page cpu_stat first_hit first_readable stat_patterns underscored
    print_int print_nat
shots = refl

copied :
    cpu_stat (record able { glob = λ pattern. codes "f" ∷ [] }) watcher (codes "a-b") (codes "p")
    ≡ copy (codes "p") (codes " key ") ∷ []
unfolding cpu_stat first_hit first_readable stat_patterns underscored
copied = refl

cut_short : truncate (codes "abc") 2 ≡ codes "ab"
unfolding truncate
cut_short = refl

abbrev running : List Poll
running = poll_of (pod_of (codes "run-1-x") [] (codes "Running") ∷ []) ∷ []

abbrev quiet_log : Stream
quiet_log = record {
  events = record { line = codes "ok"; seen = 1; taken = 1; unix = 1 } ∷ [];
  failed = false;
}

whole_watch :
    (run bare watcher (some pods) running (some quiet_log)
      ≡ some (
        ok tt,
        log (codes "watching run-1 (pod run-1-x), backends: yarilo-backend-0, yarilo-backend-1")
            ∷ log (codes "run ended; 0 stall lines seen")
            ∷ [],
      ))
    × (run bare watcher (some []) running (some quiet_log) ≡ some (err no_backends, []))
unfolding run follow_pod follow_log join_names scan on_line backends target_pod started is_backend
    sort insert less has_prefix bytes_eq print_nat
whole_watch = (refl, refl)
