-- ===== src/Pop3/Tests.antt =====
-- A POP3 session at concrete inputs.
use yarilo_loadtest.Base.{
  index_of, ℕ, ◌≡◌, refl, true, false, List, [], ◌∷◌, ◌++◌, map, String, none, some, arith, Bytes,
  codes, length, drop, pos, negsuc,
}
use yarilo_loadtest.Base.Result.{ok, err}
use yarilo_loadtest.Text.{crlf, has_prefix, bytes_eq, trim_crlf, trim_space, trim_left, trim_right}
use yarilo_loadtest.Text.Number.{print_nat, atoi}
use yarilo_loadtest.Net.{Conn, Session, read_string, read_line, write, eof, broken}
use yarilo_loadtest.Net.Dial.{Network, clear, secured, target}
use yarilo_loadtest.Pop3.{
  Config, new, negative_retr, Error, fields_loop, fields, judge, multiline_error, count_of, send,
  read_status, multiline_loop, read_multiline, greeting, cmd, stat, multiline, retr, dele,
  retrieve_loop, unique_ids, pick_user, connect, converse, session_of, session, dialling, dial,
  session_over,
}
use yarilo_loadtest.Pop3.Newest.{asked, retrieve_loop-asked}
use yarilo_loadtest.Net.Script.{success}
use yarilo_loadtest.Pop3.Commands.{Listing, Answers}
use yarilo_loadtest.Pop3.Conversation.{IsAccepting, session_script, session-accepted}
use yarilo_loadtest.Pop3.Multiline.{reply_wire}

abbrev mail : List Bytes
mail = codes ".dot" ∷ [] ∷ codes "." ∷ []

abbrev reading_mail : Session Error ℕ
reading_mail = record {
  conn = record {
    incoming = reply_wire mail ++ codes "+OK";
    ending = eof;
    writes_left = none;
    sent = [];
  };
  samples = [];
  shared = 0;
}

abbrev two_of_three : Config
two_of_three = record {
  addr = codes "h:110";
  tls = true;
  insecure = false;
  users = codes "a" ∷ codes "b" ∷ [];
  password = codes "p";
  timeout = pos 1;
  messages_per_session = pos 2;
  delete = true;
  uidl = false;
}

refused_config : new (record two_of_three { messages_per_session = negsuc 0 }) ≡ err negative_retr
unfolding new
refused_config = refl

abbrev line : String → Bytes
line text = codes text ++ crlf

abbrev before_session : Session Error ℕ
before_session = record {
  conn = record {
    incoming =
        line "+OK hi"
        ++ line "+OK"
        ++ line "+OK"
        ++ line "+OK 3 99"
        ++ line "+OK"
        ++ line "1 33"
        ++ line "."
        ++ line "+OK"
        ++ line "..x"
        ++ line "."
        ++ line "+OK"
        ++ line "+OK"
        ++ line "."
        ++ line "+OK"
        ++ line "+OK bye";
    ending = eof;
    writes_left = none;
    sent = [];
  };
  samples = [];
  shared = 1;
}

-- the newest two messages of three are retrieved and deleted
newest_two :
    let (result, after) = session two_of_three (some before_session.conn) before_session in
    (result ≡ ok tt)
    × (after.shared ≡ 2)
    × (after.conn.incoming ≡ [])
    × (drop 4 after.conn.sent
        ≡ line "RETR 3" ∷ line "DELE 3" ∷ line "RETR 2" ∷ line "DELE 2" ∷ line "QUIT" ∷ [])
unfolding session session_of connect converse pick_user index_of stat cmd greeting send read_status
    judge multiline read_multiline multiline_loop multiline_error unique_ids retrieve_loop retr dele
    count_of fields fields_loop has_prefix bytes_eq trim_crlf trim_right trim_space trim_left
    read_line read_string write print_nat atoi
newest_two = (refl, refl, refl, refl)

abbrev before_retrieval : Session Error ℕ
before_retrieval = record {
  conn = record {
    incoming =
        line "+OK" ++ line "..x" ++ line "." ++ line "+OK" ++ line "+OK" ++ line "." ++ line "+OK";
    ending = eof;
    writes_left = none;
    sent = line "LIST" ∷ [];
  };
  samples = [];
  shared = 1;
}

retrieve_loop-asked_example :
    (retrieve_loop two_of_three 3 0 before_retrieval).1.conn.sent
    ≡ before_retrieval.conn.sent ++ asked two_of_three 3 2
unfolding cmd send read_status judge multiline read_multiline multiline_loop multiline_error
    retrieve_loop retr dele has_prefix bytes_eq trim_crlf trim_right trim_space trim_left read_line
    read_string write print_nat
retrieve_loop-asked_example = retrieve_loop-asked two_of_three 3 before_retrieval refl

abbrev listed : Listing
listed = record { status = codes "+OK"; lines = codes "1 33" ∷ [] }

abbrev all_accepted : Answers
all_accepted = record {
  greeting = codes "+OK hi";
  user = codes "+OK";
  pass = codes "+OK";
  octets = codes "99";
  listing = listed;
  ids = listed;
  retrievals =
      record { mail = record { status = codes "+OK"; lines = mail }; removed = codes "+OK" }
      ∷ record { mail = listed; removed = codes "+OK" }
      ∷ [];
  quit = codes "+OK bye";
}

all_accepted-IsAccepting : IsAccepting two_of_three 3 all_accepted
unfolding trim_crlf trim_right has_prefix print_nat
all_accepted-IsAccepting = record {
  greets = (omega arith, refl, refl);
  takes_user = (omega arith, refl, refl);
  takes_pass = (omega arith, refl, refl);
  counts = (omega arith, refl, refl);
  few = omega arith;
  lists = ((omega arith, refl, refl), (omega arith, tt));
  lists_ids = ((omega arith, refl, refl), (omega arith, tt));
  retrieves = (
    (
      ((omega arith, refl, refl), (omega arith, (tt, (omega arith, tt)))),
      (omega arith, refl, refl),
    ),
    ((((omega arith, refl, refl), (omega arith, tt)), (omega arith, refl, refl)), tt),
  );
  quits = (omega arith, refl, refl);
  newest = refl;
}

abbrev dialled : Conn
dialled = record {
  incoming = (session_script two_of_three (codes "b") 3 all_accepted).reads ++ codes "x";
  ending = eof;
  writes_left = none;
  sent = [];
}

session-accepted_example : session two_of_three (some dialled) before_session ≡ (
  ok tt,
  record {
    conn = record dialled {
      incoming = codes "x";
      sent = (session_script two_of_three (codes "b") 3 all_accepted).writes;
    };
    samples =
        map success
          (codes "connect" ∷ (session_script two_of_three (codes "b") 3 all_accepted).reports);
    shared = 2;
  },
)
unfolding pick_user index_of
session-accepted_example =
    session-accepted two_of_three dialled (codes "b") 3 all_accepted before_session (codes "x") refl
      refl refl all_accepted-IsAccepting

-- a dial that fails is reported and ends the session
unreached :
    let (result, after) = session two_of_three none before_session in
    (result ≡ err dialling) × (length after.samples ≡ 1) × (after.shared ≡ 2)
unfolding session session_of connect pick_user index_of
unreached = (refl, refl, refl)

-- a network in which nobody answers in the clear
abbrev guarded : Network
guarded = record {
  host_of = λ addr. some (codes "h");
  reach = λ t. elim t.transport [
    | clear ↦ none
    | secured name insecure ↦
        some (record { incoming = name; ending = broken; writes_left = none; sent = [] })
  ];
}

dials :
    (dial guarded two_of_three
      ≡ some (record { incoming = codes "h"; ending = broken; writes_left = none; sent = [] }))
    × (dial guarded (record two_of_three { tls = false }) ≡ none)
unfolding dial target
dials = (refl, refl)

no_session :
    (session_over guarded (record two_of_three { tls = false }) reading_mail).0 ≡ err dialling
unfolding session_over session session_of connect pick_user index_of dial target
no_session = refl
