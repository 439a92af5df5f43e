-- ===== src/Stallwatch/Settings.antt =====
-- What a stall watch is set to (internal/stallwatch/stallwatch.go: newWatcher, env, envInt).
use yarilo_loadtest.Base.{
  ℕ, ◌*◌, ◌%◌, Bool, List, [], ◌∷◌, Option, none, some, Bytes, codes, ltb, if◌then◌else◌, ℤ, pos,
  negsuc, word, signed,
}
use yarilo_loadtest.Base.Result.{Result, ok, err}
use yarilo_loadtest.Text.{trim_space}
use yarilo_loadtest.Text.Number.{atoi}

-- what the watch uses of the system it runs in
pub record System : Type 0 where
  pub getenv : Bytes → Bytes
  pub read_file : Bytes → Option Bytes
  pub glob : Bytes → List Bytes
  pub join : Bytes → Bytes → Bytes
  pub is_pem : Bytes → Bool
  pub compile : Bytes → Option (Bytes → Bool)
  pub make_dirs : Bytes → Bool
  -- `int(d.Seconds())`
  pub whole_seconds : ℤ → ℤ

-- `watcher`
pub record Watcher : Type 0 where
  pub ns : Bytes
  pub target : Bytes
  pub out : Bytes
  pub cooldown : ℤ
  pub profile : ℤ
  pub telemetry : Bytes
  pub matches : Bytes → Bool
  pub token : Bytes

pub data Error : Type 0 where
  no_target no_token no_ca bad_ca bad_pattern no_directory : Error
  no_list : Error
  no_backends : Error
  never_started : Error
  cut_off : Error
  no_log : Error
  bad_log : Error

abbrev pub second : ℕ
second = 1_000_000_000

-- `time.Duration(n) * time.Second`, which wraps round
unfoldable pub seconds : ℕ → ℤ
seconds n = signed (n * second % word)

abbrev pub sa_dir : Bytes
sa_dir = codes "/var/run/secrets/kubernetes.io/serviceaccount"

abbrev pub default_pattern : Bytes
default_pattern = codes "stalled (>3s|for \\d+ secs)"

module _ (sys : System) where
  -- `env`
  unfoldable pub env : (key default : Bytes) → Bytes
  env key default = elim (sys.getenv key) [ [] ↦ default | c ∷ s ↦ c ∷ s ]

  -- `envInt`, whose defaults are not negative
  unfoldable pub env_int : (key : Bytes) (default : ℕ) → ℕ
  env_int key default = elim (atoi (sys.getenv key)) [
    | none ↦ default
    | some n ↦ elim n [ negsuc k ↦ default | pos k ↦ if ltb 0 k then k else default ]
  ]

  -- the end of `newWatcher`
  unfoldable pub with_pattern : (target token : Bytes) → (Bytes → Bool) → Result Error Watcher
  with_pattern target token matches =
      let w : Watcher = record {
        ns = env (codes "NS") (codes "yarilo-sb");
        target = target;
        out = env (codes "OUT") (codes "/caps");
        cooldown = seconds (env_int (codes "COOLDOWN") 60);
        profile = seconds (env_int (codes "PROFILE_SECS") 30);
        telemetry = env (codes "TELEMETRY_PORT") (codes "8080");
        matches = matches;
        token = trim_space token;
      } in
      if sys.make_dirs w.out then ok w else err no_directory

  -- `newWatcher` behind its files
  unfoldable pub with_files : (target token ca : Bytes) → Result Error Watcher
  with_files target token ca =
      if sys.is_pem ca
      then (elim (sys.compile (env (codes "PATTERN") default_pattern)) [
        | none ↦ err bad_pattern
        | some matches ↦ with_pattern target token matches
      ])
      else err bad_ca

  -- `newWatcher`
  unfoldable pub new_watcher : Result Error Watcher
  new_watcher = elim (sys.getenv (codes "TARGET")) [
    | [] ↦ err no_target
    | c ∷ s ↦ elim (sys.read_file (sys.join sa_dir (codes "token"))) [
      | none ↦ err no_token
      | some token ↦ elim (sys.read_file (sys.join sa_dir (codes "ca.crt"))) [
        | none ↦ err no_ca
        | some ca ↦ with_files (c ∷ s) token ca
      ]
    ]
  ]
