-- ===== src/Lmtp/Tests.antt =====
-- The delivery driver at concrete inputs.
use yarilo_loadtest.Base.{
  ℕ, ◌+◌, ◌*◌, ◌/◌, ◌≤◌, ◌≡◌, refl, false, List, [], ◌∷◌, ◌++◌, map, String, none, some, arith,
  Bytes, codes, length, get_elem?, get_or, pos,
}
use yarilo_loadtest.Base.Result.{ok, err}
use yarilo_loadtest.Text.{has_prefix, has_suffix, contains, bytes_eq, trim_right, trim_crlf, crlf}
use yarilo_loadtest.Corpus.{Source}
use yarilo_loadtest.Net.{Conn, Session, read_string, read_line, write, broken}
use yarilo_loadtest.Net.Dial.{Network}
use yarilo_loadtest.Lmtp.{
  Config, needs_stuffing, stuff_loop, stuff_dots, terminator, with_defaults, recipient_index,
  take_loop, fan_out, next_recipients, Error, judge, reply_loop, read_reply, send, cmd, expect,
  replies_loop, body, rcpt_loop, Shared, take_recipients, take_message, deliver, connect,
  deliver_to, deliver_over, dial,
}
use yarilo_loadtest.Lmtp.Dots.{receive, standing, at_start, ended, receive-stuff_dots}
use yarilo_loadtest.Lmtp.Rotation.{walk, deliveries, deliveries-walk, deliveries-covers}
use yarilo_loadtest.Net.Script.{success}
use yarilo_loadtest.Lmtp.Reply.{Reply, wires}
use native.Mathlib.Nat.{mul-le-mul_left}
use yarilo_loadtest.Stats.{Floats, rank, new, bind_run, observe_all, summary}
use yarilo_loadtest.Stats.Table.{stat_of}
use yarilo_loadtest.Stats.Sessions.{observations}
use yarilo_loadtest.Lmtp.Counted.{Accepts, deliver_each, deliver_each-summary}
use yarilo_loadtest.Lmtp.Commands.{Answers, IsAccepting, conversation}
use yarilo_loadtest.Lmtp.Delivery.{
  delivery_lines, delivery_names, message_of, shared_after, deliver_to-accepted,
}

abbrev dotted_lines : Bytes
dotted_lines = codes ".a" ++ (crlf ++ codes ".")

receive-stuff_dots_example :
    receive
      (standing at_start)
      (stuff_dots dotted_lines ++ (terminator dotted_lines ++ codes "QUIT"))
    ≡ some (ended dotted_lines, codes "QUIT")
receive-stuff_dots_example = receive-stuff_dots dotted_lines (codes "QUIT") refl

stuffed : stuff_dots (codes "." ++ (crlf ++ codes "..b")) ≡ codes ".." ++ (crlf ++ codes "...b")
unfolding stuff_dots needs_stuffing stuff_loop contains has_prefix
stuffed = refl

ending : terminator (codes "a" ++ crlf) ≡ codes "." ++ crlf
unfolding terminator has_suffix bytes_eq
ending = refl

abbrev three : Config
three = record {
  addr = codes "h:24";
  recipients = codes "a" ∷ codes "b" ∷ codes "c" ∷ [];
  recipients_per_message = pos 2;
  sender = codes "s";
  timeout = pos 1;
}

defaults :
    with_defaults (record three { recipients_per_message = pos 0; timeout = pos 0; sender = [] })
    ≡ record three {
      recipients_per_message = pos 1;
      timeout = pos 30_000_000_000;
      sender = codes "loadtest@yarilo.invalid";
    }
unfolding with_defaults
defaults = refl

deliveries-walk_example : deliveries 2 three 2 ≡ walk three.recipients (2 * fan_out three) 2
unfolding fan_out
deliveries-walk_example = deliveries-walk 2 three 2 (omega arith)

deliveries-covers_example :
    (i : ℕ) × (get_elem? (deliveries 2 three 2) i ≡ some (get_or three.recipients 1 []))
unfolding fan_out
deliveries-covers_example = deliveries-covers 2 three 2 1 (omega arith) (omega arith) (omega arith)

abbrev two_replies : List Reply
two_replies =
    record { before = codes "250-first" ∷ []; last = codes "250 second" }
    ∷ record { before = []; last = codes "250 ok" }
    ∷ []

abbrev waiting : Session Error ℕ
waiting = record {
  conn = record {
    incoming = wires two_replies ++ codes "221";
    ending = broken;
    writes_left = none;
    sent = [];
  };
  samples = [];
  shared = 7;
}

abbrev numbered : Source
numbered = record { State = ℕ; generate = λ from to n. (from ++ to, n + 1) }

abbrev line : String → Bytes
line text = codes text ++ crlf

abbrev before_delivery : Session Error (Shared numbered)
before_delivery = record {
  conn = record {
    incoming =
        line "220 hi"
        ++ line "250 hi"
        ++ line "250 ok"
        ++ line "250 ok"
        ++ line "250 ok"
        ++ line "354 go"
        ++ line "250 ok"
        ++ line "250 ok"
        ++ line "221 bye";
    ending = broken;
    writes_left = none;
    sent = [];
  };
  samples = [];
  shared = record { seq = 2; corpus = 5 };
}

delivered :
    let (result, after) = deliver numbered three before_delivery in
    (result ≡ ok tt)
    × (after.shared ≡ record { seq = 4; corpus = 6 })
    × (after.conn.incoming ≡ [])
    × (length after.samples ≡ 8)
unfolding deliver take_message take_recipients rcpt_loop next_recipients fan_out take_loop
    recipient_index body replies_loop expect cmd send read_reply reply_loop judge stuff_dots
    needs_stuffing stuff_loop terminator has_prefix has_suffix contains bytes_eq trim_crlf
    trim_right read_line read_string write
delivered = (refl, refl, refl, refl)

abbrev one_line : String → Reply
one_line text = record { before = []; last = codes text }

abbrev all_accepted : Answers
all_accepted = record {
  greeting = one_line "220 hi";
  lhlo = record { before = codes "250-a" ∷ []; last = codes "250 b" };
  mail = one_line "250 ok";
  rcpts = one_line "250 ok" ∷ one_line "250 ok" ∷ [];
  go_ahead = one_line "354 go";
  delivered = one_line "250 ok" ∷ one_line "250 ok" ∷ [];
  quit = one_line "221 bye";
}

all_accepted-IsAccepting : IsAccepting (length (next_recipients three 2).0) all_accepted
unfolding next_recipients fan_out take_loop trim_crlf trim_right has_prefix
all_accepted-IsAccepting = record {
  greets = (tt, ((omega arith, refl, omega arith, refl), refl));
  knows = (
    (((omega arith, refl, omega arith, refl), omega arith), tt),
    ((omega arith, refl, omega arith, refl), refl),
  );
  takes_mail = (tt, ((omega arith, refl, omega arith, refl), refl));
  takes_rcpts = (
    (tt, ((omega arith, refl, omega arith, refl), refl)),
    ((tt, ((omega arith, refl, omega arith, refl), refl)), tt),
  );
  goes_ahead = (tt, ((omega arith, refl, omega arith, refl), refl));
  delivers = (
    (tt, ((omega arith, refl, omega arith, refl), refl)),
    ((tt, ((omega arith, refl, omega arith, refl), refl)), tt),
  );
  quits = (tt, ((omega arith, refl, omega arith, refl), refl));
  one_each = refl;
  each_delivered = refl;
}

abbrev dialled : Conn
dialled = record {
  incoming = conversation all_accepted ++ codes "x";
  ending = broken;
  writes_left = none;
  sent = [];
}

deliver_to-accepted_example : deliver_to numbered three (some dialled) before_delivery ≡ (
  ok tt,
  record {
    conn = record dialled {
      incoming = codes "x";
      sent =
          delivery_lines three
            (next_recipients three 2).0
            (message_of numbered three before_delivery.shared).0;
    };
    samples = map success (codes "connect" ∷ delivery_names (next_recipients three 2).0);
    shared = shared_after numbered three before_delivery.shared;
  },
)
deliver_to-accepted_example =
    deliver_to-accepted numbered three dialled all_accepted before_delivery (codes "x") refl refl
      all_accepted-IsAccepting

-- a dial that fails is reported and ends the delivery
undelivered :
    let (result, after) = deliver_to numbered three none before_delivery in
    (result ≡ err dial) × (length after.samples ≡ 1) × (after.shared ≡ before_delivery.shared)
unfolding deliver_to connect
undelivered = (refl, refl, refl)

-- the arithmetic without rounding
abbrev exact : Floats
exact = record {
  scale = λ p n. n * rank p / 100;
  scale_none = λ n. omega arith;
  scale_all = λ n. omega arith;
  scale_mono =
      λ p q n h. (let k : n * rank p ≤ n * rank q = mul-le-mul_left n h in omega (arith, k));
}

abbrev two_dials : List Conn
two_dials = dialled ∷ dialled ∷ []

deliver_each-summary_example :
    let sum = summary exact (
      observe_all (bind_run new) (
        observations
          (λ e. codes "no")
          (λ i. i)
          (λ i. false)
          0
          (deliver_each numbered three two_dials before_delivery).samples)) in
    (sum.errors ≡ 0)
    × (sum.cancelled ≡ 0)
    × ((stat_of sum.commands (codes "BODY")).count ≡ 2)
    × ((stat_of sum.commands (codes "RCPT")).count ≡ 2 * fan_out three)
unfolding next_recipients fan_out take_loop
deliver_each-summary_example =
    let first : Accepts numbered three dialled 2 = record {
      answers = all_accepted;
      rest = codes "x";
      unbroken = refl;
      says = refl;
      accepting = all_accepted-IsAccepting;
    } in
    let second : Accepts numbered three dialled 4 = record {
      answers = all_accepted;
      rest = codes "x";
      unbroken = refl;
      says = refl;
      accepting = all_accepted-IsAccepting;
    } in
    deliver_each-summary numbered three exact (λ e. codes "no") (λ i. i) (λ i. false) two_dials
      before_delivery refl (first, (second, tt))

-- nobody answers
abbrev deaf : Network
deaf = record { host_of = λ addr. none; reach = λ t. none }

unanswered : (deliver_over numbered three deaf before_delivery).0 ≡ err dial
unfolding deliver_over deliver_to connect
unanswered = refl
