-- ===== src/Imap/Session/Tests.antt =====
-- A session at concrete inputs.
use yarilo_loadtest.Base.{
  index_of, ℕ, ◌+◌, ◌≤◌, ◌≡◌, refl, length, true, false, List, [], ◌∷◌, ◌++◌, Option, none, some,
  arith, Bytes, codes, pos, negsuc, String,
}
use yarilo_loadtest.Base.Result.{ok, err}
use yarilo_loadtest.Text.{crlf, bytes_eq, equal_fold}
use yarilo_loadtest.Text.Number.{print_nat}
use yarilo_loadtest.Net.{Conn, Session, Sample, eof}
use yarilo_loadtest.Net.Dial.{Network}
use yarilo_loadtest.Corpus.{Source}
use yarilo_loadtest.Imap.Profile.{noop, weigh, zero_profile}
use yarilo_loadtest.Imap.View.{View, disconnected, selected}
use yarilo_loadtest.Imap.Client.{Error, Texts, Linked, dialling, cut_off}
use yarilo_loadtest.Imap.Session.{
  dial_next, Local, change, look, connected, dial, wrapped, next_seq, connect, mailbox_at,
  select_mailbox, command_text, run, carry_out, step, is_disconnected, connect_if, client_loop,
  run_client, run_client_over,
}
use yarilo_loadtest.Imap.Session.Prepare.{create_loop, prepare_user, prepare_loop, prepare}
use yarilo_loadtest.Imap.Session.Settings.{
  Config, Driver, no_users, negative_target, load_mailboxes, mailbox_set, new, dial_server,
}
use yarilo_loadtest.Imap.Step.{open_mailbox, choose}
use yarilo_loadtest.Imap.Client.Plain.{counted}
use yarilo_loadtest.Imap.Session.Staying.{logouts, credit}
use yarilo_loadtest.Imap.Session.Dials.{run_client-dials}
use yarilo_loadtest.Imap.Session.Samples.{sampled, run-samples}

abbrev line : String → Bytes
line text = codes text ++ crlf

abbrev one_mail : Source
one_mail = record { State = ℕ; generate = λ from to n. (codes "hi", n + 1) }

abbrev config : Config
config = record {
  addr = codes "h:143";
  tls = false;
  insecure = false;
  users = codes "u" ∷ codes "v" ∷ [];
  password = codes "p";
  timeout = pos 1;
  mailboxes = [];
  mailboxes_per_user = pos 2;
  create_mailboxes = true;
  target_messages = pos 0;
  profile = zero_profile;
}

abbrev driver : Driver
driver = record {
  cfg = config;
  mailboxes = codes "INBOX" ∷ codes "Load2" ∷ [];
  weights = weigh noop 1 ∷ [];
}

abbrev conn_of : Bytes → Conn
conn_of incoming = record { incoming = incoming; ending = eof; writes_left = none; sent = [] }

abbrev seen_five : View
seen_five = record {
  mailbox = codes "INBOX";
  exists = pos 5;
  baseline = pos 5;
  appended = pos 1;
  mismatch = none;
}

abbrev local_at : List (Option Conn) → Local one_mail
local_at dials = record {
  user = codes "u";
  state = selected;
  view = seen_five;
  commands = 0;
  dials = dials;
  seq = 1;
  corpus = 0;
}

abbrev in_session : Bytes → Session Error (Linked (Local one_mail))
in_session incoming = record {
  conn = conn_of incoming;
  samples = [];
  shared = record { tag = 0; rest = local_at [] };
}

-- the server has lost the message that was appended
abbrev losing : Session Error (Linked (Local one_mail))
losing = in_session (line "* 5 EXISTS" ++ line "a001 OK")

run-samples_example :
    (run one_mail driver noop losing).1.samples
    ≡ losing.samples ++ sampled noop (counted (run one_mail driver noop losing).0)
run-samples_example = run-samples one_mail driver noop losing (omega arith)

abbrev quiet : Texts
quiet = record { in_marks = λ s. s; of_io = λ e. []; of_dial = []; of_context = [] }

refused_config :
    (new (record config { users = [] }) ≡ err no_users)
    × (new (record config { target_messages = negsuc 0 }) ≡ err negative_target)
unfolding new
refused_config = (refl, refl)

two_boxes : mailbox_set config ≡ codes "Load1" ∷ codes "Load2" ∷ []
unfolding mailbox_set load_mailboxes print_nat
two_boxes = refl

abbrev offline : List (Option Conn) → Session Error (Linked (Local one_mail))
offline dials = record {
  conn = conn_of [];
  samples = [];
  shared = record { tag = 4; rest = record (local_at dials) { state = disconnected } };
}

abbrev unreachable : Sample Error
unreachable = record { name = codes "connect"; failure = some dialling }

-- a dial that fails is counted, and the loop ends with it
no_server :
    let (result, after) = run_client one_mail driver 3 false (false ∷ []) (offline (none ∷ [])) in
    (result ≡ some (err dialling))
    × (after.samples ≡ unreachable ∷ [])
    × (after.shared.rest.user ≡ codes "v")
unfolding run_client client_loop connect_if is_disconnected connect change dial dial_next look
no_server = (refl, refl, refl)

run_client-dials_example :
    let after = (run_client one_mail driver 3 false (false ∷ []) (offline (none ∷ []))).1 in
    1 + logouts [] ≤ length after.shared.rest.dials + logouts after.samples + credit disconnected
run_client-dials_example =
    run_client-dials one_mail driver 3 false (false ∷ []) (offline (none ∷ []))

-- a connection that was made counts its tags from the start
fresh_tags : (connected one_mail (offline []) (conn_of []) []).shared.tag ≡ 0
unfolding connected
fresh_tags = refl

prepared :
    ((prepare one_mail driver quiet (λ n. true) (offline [])).0 ≡ err cut_off)
    × ((prepare one_mail driver quiet (λ n. false) (offline [])).0 ≡ err dialling)
    × ((prepare one_mail
          (record driver { cfg = record config { create_mailboxes = false } })
          quiet
          (λ n. true)
          (offline [])).0
        ≡ ok tt)
unfolding prepare prepare_loop prepare_user dial dial_next
prepared = (refl, refl, refl)

-- INBOX is there already
nothing_to_create :
    (create_loop one_mail driver quiet (codes "u") (codes "inbox" ∷ []) losing).0 ≡ ok tt
unfolding create_loop equal_fold bytes_eq
nothing_to_create = refl

wraps : (wrapped one_mail (λ e. cut_off) (dial one_mail) (offline [])).0 ≡ err cut_off
unfolding wrapped dial dial_next
wraps = refl

spoken : command_text one_mail driver noop seen_five ≡ codes "NOOP"
unfolding command_text
spoken = refl

-- a step counts before it chooses
counted_up :
    step one_mail driver losing
    ≡ carry_out one_mail driver 1
        (choose config.target_messages driver.weights selected seen_five 1)
        (record losing {
          shared = record losing.shared { rest = record losing.shared.rest { seq = 2 } };
        })
unfolding step next_seq look
counted_up = refl

opened :
    carry_out one_mail driver 3 open_mailbox losing
    ≡ select_mailbox one_mail driver (some (codes "Load2")) losing
unfolding carry_out mailbox_at index_of
opened = refl

-- nobody answers
abbrev deaf : Network
deaf = record { host_of = λ addr. none; reach = λ t. none }

unanswered :
    run_client_over one_mail driver (deaf ∷ []) 3 false (false ∷ []) (offline [])
    ≡ run_client one_mail driver 3 false (false ∷ []) (offline (none ∷ []))
unfolding run_client_over dial_server
unanswered = refl
