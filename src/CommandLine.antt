-- ===== src/CommandLine.antt =====
-- The command line (main.go): how its flags become the configuration of a driver, and what the run ends
-- with. `flag.Parse` and the reading of the mbox file are given.
pub mod Ready
pub mod Exit
mod Whole
mod Tests
use yarilo_loadtest.Base.{
  ℕ, Bool, true, false, ◌||◌, not, List, [], ◌∷◌, ◌++◌, Option, none, some, Bytes, codes, length,
  ltb, ◌==◌, if◌then◌else◌, ℤ, is_nonpos,
}
use yarilo_loadtest.Base.Result.{Result, ok, err, map_err, ◌>>=◌}
use yarilo_loadtest.Text.{bytes_eq, has_prefix, to_lower}
use yarilo_loadtest.Recipients.{BadPart, expand_recipients, split_list}
use yarilo_loadtest.Corpus.Mbox.{Mbox, LoadError, File, load}
use yarilo_loadtest.Corpus.Generator.{Platform, Spec}
use yarilo_loadtest.Lmtp
use yarilo_loadtest.Imap.Profile.{Profile, BadProfile, parse_profile}
use yarilo_loadtest.Imap.Session.Settings as ImapSettings
use yarilo_loadtest.Pop3
use yarilo_loadtest.Jmap.Settings as JmapSettings
use yarilo_loadtest.Driver.{Options}

-- the flags that the drivers are configured by
pub record Flags (p : Platform) : Type 0 where
  pub protocol : Bytes
  pub addr : Bytes
  pub concurrency : ℤ
  pub duration : ℤ
  pub iterations : ℤ
  pub ramp_up : ℤ
  pub stop_on_error : Bool
  pub timeout : ℤ
  pub recipients : Bytes
  pub sender : Bytes
  pub recipients_per_message : ℤ
  pub corpus : Spec p
  pub users : Bytes
  pub password : Bytes
  pub tls : Bool
  pub insecure : Bool
  pub mailboxes : Bytes
  pub mailboxes_per_user : ℤ
  pub create : Bool
  pub msgs : ℤ
  pub profile : Bytes
  pub retr : ℤ
  pub delete : Bool
  pub uidl : Bool
  pub window : ℤ
  pub bodies : Bool
  pub threads : Bool
  pub mbox : Bytes
  pub interval : ℤ
  pub json : Bool

-- why the program ends before a run, with status 2
pub data Refusal : Type 0 where
  no_addr no_protocol : Refusal
  unknown_protocol : Bytes → Refusal
  bad_mbox : LoadError → Refusal
  bad_part : BadPart → Refusal
  nobody : (flag : Bytes) → Refusal
  bad_profile : BadProfile → Refusal
  bad_imap : ImapSettings.BadConfig → Refusal
  bad_pop3 : Pop3.BadConfig → Refusal
  bad_jmap : JmapSettings.BadConfig → Refusal

-- where a driver gets its messages
pub data Origin (p : Platform) : Type 0 where
  replayed : Mbox → Origin p
  generated : Spec p → Origin p

-- the run that is started, with the options of its workers
pub data Plan (p : Platform) : Type 0 where
  lmtp : Lmtp.Config → Origin p → Options → Plan p
  imap : ImapSettings.Driver → Origin p → Options → Plan p
  pop3 : Pop3.Config → Options → Plan p
  jmap : JmapSettings.Config → (clients : ℤ) → Options → Plan p

-- the addresses of a flag, of which there must be some
pub somebody : (flag spec : Bytes) → Result Refusal (List Bytes)
somebody flag spec = map_err bad_part (expand_recipients flag spec) >>= λ all. elim all [
  | [] ↦ err (nobody flag)
  | a ∷ more ↦ ok (a ∷ more)
]

-- the base URL of `runJMAP`
pub base_url : (tls : Bool) → (addr : Bytes) → Bytes
base_url tls addr =
    if has_prefix addr (codes "http://") || has_prefix addr (codes "https://")
    then addr
    else (if tls then codes "https://" else codes "http://") ++ addr

module _ {p : Platform} where
  -- the options that each run gives to `driver.Run`
  pub options : Flags p → Options
  options f = record {
    concurrency = f.concurrency;
    duration = f.duration;
    iterations = f.iterations;
    ramp_up = f.ramp_up;
    stop_on_error = f.stop_on_error;
  }

  -- `messageSource`
  pub message_source : (Bytes → File) → Flags p → Result Refusal (Option Mbox)
  message_source files f = elim f.mbox [
    | [] ↦ ok none
    | c ∷ s ↦ map_err bad_mbox (load (files (c ∷ s))) >>= λ m. ok (some m)
  ]

  -- `src`, or what `lmtp.New` puts in its place
  pub origin : Flags p → Option Mbox → Origin p
  origin f none = generated f.corpus
  origin f (some m) = replayed m

  -- the configuration of the delivery driver
  pub lmtp_config : Flags p → List Bytes → Lmtp.Config
  lmtp_config f rcpts = record {
    addr = f.addr;
    recipients = rcpts;
    recipients_per_message = f.recipients_per_message;
    sender = f.sender;
    timeout = f.timeout;
  }

  -- `runLMTP`
  pub run_lmtp : Flags p → Option Mbox → Result Refusal (Plan p)
  run_lmtp f src = somebody (codes "-recipients") f.recipients >>= λ rcpts.
      ok (lmtp (Lmtp.with_defaults (lmtp_config f rcpts)) (origin f src) (options f))

  -- the configuration of the POP3 driver
  pub pop3_config : Flags p → List Bytes → Pop3.Config
  pop3_config f users = record {
    addr = f.addr;
    users = users;
    password = f.password;
    tls = f.tls;
    insecure = f.insecure;
    timeout = f.timeout;
    messages_per_session = f.retr;
    delete = f.delete;
    uidl = f.uidl;
  }

  -- `runPOP3`
  pub run_pop3 : Flags p → Result Refusal (Plan p)
  run_pop3 f = somebody (codes "-users") f.users >>= λ users.
      map_err bad_pop3 (Pop3.new (pop3_config f users)) >>= λ c. ok (pop3 c (options f))

  -- the configuration of the JMAP driver
  pub jmap_config : Flags p → List Bytes → JmapSettings.Config
  jmap_config f users = record {
    base_url = base_url f.tls f.addr;
    users = users;
    password = f.password;
    insecure = f.insecure;
    timeout = f.timeout;
    window = f.window;
    fetch_bodies = f.bodies;
    threads = f.threads;
  }

  -- `runJMAP`: as many clients are made as the flag says
  pub run_jmap : Flags p → Result Refusal (Plan p)
  run_jmap f = somebody (codes "-users") f.users >>= λ users.
      map_err bad_jmap (JmapSettings.new (jmap_config f users)) >>= λ c.
      ok (jmap c f.concurrency (options f))

  -- the configuration of the IMAP driver
  pub imap_config : Flags p → List Bytes → Profile → ImapSettings.Config
  imap_config f users profile = record {
    addr = f.addr;
    users = users;
    password = f.password;
    tls = f.tls;
    insecure = f.insecure;
    timeout = f.timeout;
    mailboxes = split_list f.mailboxes;
    mailboxes_per_user = f.mailboxes_per_user;
    create_mailboxes = f.create;
    target_messages = f.msgs;
    profile = profile;
  }

  -- `runIMAP`, up to `Prepare`: its configuration has no source, so that it generates its messages
  pub run_imap : Flags p → Option Mbox → Result Refusal (Plan p)
  run_imap f src = somebody (codes "-users") f.users >>= λ users.
      map_err bad_profile (parse_profile f.profile) >>= λ profile.
      map_err bad_imap (ImapSettings.new (imap_config f users profile)) >>= λ d.
      ok (imap d (generated f.corpus) (options f))

  -- the switch of `main`
  pub dispatch : Flags p → Option Mbox → Result Refusal (Plan p)
  dispatch f src =
      let name = to_lower f.protocol in
      if bytes_eq name (codes "lmtp")
      then run_lmtp f src
      else if bytes_eq name (codes "imap")
      then run_imap f src
      else if bytes_eq name (codes "pop3")
      then run_pop3 f
      else if bytes_eq name (codes "jmap")
      then run_jmap f
      else if length name == 0
      then err no_protocol
      else err (unknown_protocol f.protocol)

  -- `main` up to its run
  pub plan : (Bytes → File) → Flags p → Result Refusal (Plan p)
  plan files f =
      if length f.addr == 0 then err no_addr else message_source files f >>= λ src. dispatch f src

  -- whether the live table is printed
  pub is_live : Flags p → Bool
  is_live f = if is_nonpos f.interval then false else not f.json

-- whether the program is a stall watch
pub is_stall_watch : (args : List Bytes) → Bool
is_stall_watch [] = false
is_stall_watch (program ∷ []) = false
is_stall_watch (program ∷ mode ∷ args) = bytes_eq mode (codes "stall-watch")

-- the status with which a run ends, from its error and the errors of the summary
pub exit_status : {E : Type 0} → Option E → (errors : ℕ) → ℕ
exit_status none errors = if ltb 0 errors then 1 else 0
exit_status (some e) errors = 1
