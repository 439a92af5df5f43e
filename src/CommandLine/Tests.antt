-- ===== src/CommandLine/Tests.antt =====
-- The command line at concrete inputs.
use yarilo_loadtest.Base.{
  ℕ, ◌≡◌, ◌*◌, ◌/◌, ◌+◌, ◌%◌, ◌≤◌, refl, Bool, true, false, [], ◌∷◌, arith, Bytes, codes, pos,
  pos_part,
}
use yarilo_loadtest.Base.Result.{ok, err}
use yarilo_loadtest.Text.{bytes_eq, has_prefix}
use native.Mathlib.Nat.{mul-le-mul_left}
use yarilo_loadtest.Text.Number.{print_nat}
use yarilo_loadtest.Corpus.Mbox.{File, missing}
use yarilo_loadtest.Corpus.Generator.{Platform, Spec}
use yarilo_loadtest.Stats.{Floats, rank}
use yarilo_loadtest.Recipients.{expand_recipients}
use yarilo_loadtest.Recipients.Expand.{named, expand_recipients-render}
use yarilo_loadtest.Imap.Profile.{default_profile}
use yarilo_loadtest.Lmtp.{with_defaults}
use yarilo_loadtest.CommandLine.{
  Flags, no_addr, no_protocol, unknown_protocol, Plan, lmtp, generated, options, message_source,
  somebody, origin, lmtp_config, run_lmtp, pop3_config, base_url, jmap_config, imap_config,
  dispatch, plan, is_live, is_stall_watch,
}
use yarilo_loadtest.CommandLine.Ready.{IsReady, plan-IsReady}

abbrev pub counting : Platform
counting = record {
  Rng = ℕ;
  Ratio = Bool;
  Time = ℕ;
  new_source = pos_part;
  intn = λ n r. (r % n, r + 1);
  below = λ ratio r. (ratio, r + 1);
  int63 = λ r. (r, r + 1);
  fixed_date = 0;
  date_after = λ base n. print_nat (base + n);
  intn_lt = λ n r h. omega (arith, h);
}

abbrev small : Spec counting
small = record { min_size = pos 300; max_size = pos 310; attachment_ratio = false; seed = pos 7 }

abbrev pub flags : Flags counting
flags = record {
  protocol = codes "LMTP";
  addr = codes "h:24";
  concurrency = pos 10;
  duration = pos 0;
  iterations = pos 3;
  ramp_up = pos 0;
  stop_on_error = false;
  timeout = pos 0;
  recipients = codes "a@b";
  sender = codes "c@d";
  recipients_per_message = pos 1;
  corpus = small;
  users = [];
  password = [];
  tls = true;
  insecure = false;
  mailboxes = [];
  mailboxes_per_user = pos 0;
  create = true;
  msgs = pos 100;
  profile = [];
  retr = pos 10;
  delete = false;
  uidl = false;
  window = pos 20;
  bodies = false;
  threads = false;
  mbox = [];
  interval = pos 1;
  json = false;
}

abbrev pub no_files : Bytes → File
no_files path = missing

abbrev pub started : Plan counting
started =
    lmtp (with_defaults (lmtp_config flags (codes "a@b" ∷ []))) (generated small) (options flags)

one_recipient : expand_recipients (codes "-recipients") (codes "a@b") ≡ ok (codes "a@b" ∷ [])
one_recipient =
    expand_recipients-render (codes "-recipients") (named (codes "a@b")) [] (ground arith)
      (ground arith)

starts : plan no_files flags ≡ ok started
unfolding plan message_source dispatch run_lmtp somebody origin bytes_eq
starts = rw one_recipient refl

plan-IsReady_example : IsReady started
plan-IsReady_example = plan-IsReady no_files flags started starts

refused :
    (plan no_files (record flags { addr = [] }) ≡ err no_addr)
    × (plan no_files (record flags { protocol = [] }) ≡ err no_protocol)
    × (plan no_files (record flags { protocol = codes "smtp" })
        ≡ err (unknown_protocol (codes "smtp")))
unfolding plan message_source dispatch bytes_eq
refused = (refl, refl, refl)

handed_on :
    ((pop3_config flags []).messages_per_session ≡ pos 10)
    × ((jmap_config flags []).window ≡ pos 20)
    × ((imap_config flags [] default_profile).target_messages ≡ pos 100)
    × ((options flags).iterations ≡ pos 3)
unfolding pop3_config jmap_config imap_config options
handed_on = (refl, refl, refl, refl)

urls :
    (base_url true (codes "h") ≡ codes "https://h")
    × (base_url true (codes "http://h") ≡ codes "http://h")
    × (base_url false (codes "h") ≡ codes "http://h")
unfolding base_url has_prefix bytes_eq
urls = (refl, refl, refl)

live :
    (is_live flags ≡ true)
    × (is_live (record flags { json = true }) ≡ false)
    × (is_live (record flags { interval = pos 0 }) ≡ false)
unfolding is_live
live = (refl, refl, refl)

watching : is_stall_watch (codes "loadtest" ∷ codes "stall-watch" ∷ []) ≡ true
unfolding is_stall_watch bytes_eq
watching = refl

-- the arithmetic without rounding
abbrev pub exact : Floats
exact = record {
  scale = λ p n. n * rank p / 100;
  scale_none = λ n. omega arith;
  scale_all = λ n. omega arith;
  scale_mono =
      λ p q n h. (let k : n * rank p ≤ n * rank q = mul-le-mul_left n h in omega (arith, k));
}
