-- ===== src/Stallwatch/Api/Tests.antt =====
-- The requests of a stall watch at concrete inputs.
use yarilo_loadtest.Base.{
  ◌≡◌, refl, true, false, [], ◌∷◌, ◌++◌, none, some, Bytes, codes, pos, if◌then◌else◌, Option,
}
use yarilo_loadtest.Base.Result.{err}
use yarilo_loadtest.Text.{bytes_eq, has_prefix, trim_space, trim_left, trim_right}
use yarilo_loadtest.Stallwatch.Settings.{System, Watcher, no_target, new_watcher}
use yarilo_loadtest.Stallwatch.Api.{
  Web, Response, not_answered, bad_list, bad_status, logf, api_get, decoded, pods, seen, poll_of,
}
use yarilo_loadtest.Stallwatch.{start}

-- an environment with a target and a cooldown, and no files
abbrev bare : System
bare = record {
  getenv = λ key.
      if bytes_eq key (codes "TARGET")
      then codes "run-1"
      else if bytes_eq key (codes "COOLDOWN")
      then codes "2"
      else [];
  read_file = λ path. none;
  glob = λ pattern. [];
  join = λ dir name. dir ++ b'/' ∷ name;
  is_pem = λ s. true;
  compile = λ s. none;
  make_dirs = λ s. true;
  whole_seconds = λ d. pos 30;
}

abbrev watcher : Watcher
watcher = record {
  ns = codes "ns";
  target = codes "run-1";
  out = codes "/caps";
  cooldown = pos 10;
  profile = pos 30;
  telemetry = codes "8080";
  matches = λ line. has_prefix line (codes "stalled");
  token = [];
}

abbrev two_pods : Web
two_pods = record {
  is_url = λ url. has_prefix url (codes "https://kubernetes");
  decode = λ body. elim body [
    | [] ↦ none
    | c ∷ s ↦
        some (
          record { name = codes "run-1-x"; uid = codes "u"; ip = []; phase = codes "Running" } ∷ [])
  ];
}

abbrev told : Bytes → Option Response
told body = some (record { code = 200; status = codes "200 OK"; body = body })

abbrev denied : Option Response
denied = some (record { code = 403; status = codes "403 Forbidden"; body = codes " no\n" })

asked :
    (pods two_pods (record watcher { token = codes "t" }) [] (told []) ≡ (
      some (record {
        url = codes "https://kubernetes.default.svc/api/v1/namespaces/ns/pods";
        authorization = codes "Bearer t";
      }),
      err bad_list,
    ))
    × ((api_get two_pods watcher (codes "/log") none).1 ≡ err not_answered)
    × ((api_get two_pods watcher (codes "/log") denied).1
        ≡ err (bad_status (codes "/log") (codes "403 Forbidden") (codes "no")))
unfolding pods api_get decoded has_prefix bytes_eq trim_space trim_left trim_right
asked = (refl, refl, refl)

polled :
    (poll_of two_pods watcher
      (record { answer = told (codes "{}"); too_late = false; ended = false })).pods
    ≡ some
        (record { name = codes "run-1-x"; uid = codes "u"; ip = []; phase = codes "Running" } ∷ [])
unfolding poll_of pods api_get decoded seen has_prefix bytes_eq
polled = refl

written : (logf bare watcher (codes "10:00:00") (codes "x")).path ≡ codes "/caps/watch.log"
unfolding logf
written = refl

no_watch :
    start (record bare { getenv = λ key. [] }) two_pods none [] none ≡ some (err no_target, [])
unfolding start new_watcher
no_watch = refl
