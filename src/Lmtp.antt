-- ===== src/Lmtp.antt =====
-- The delivery driver (internal/lmtp).
pub mod Dots
pub mod Rotation
pub mod Reply
pub mod Setup
pub mod Commands
pub mod Delivery
pub mod Counted
mod Tests
use yarilo_loadtest.Base.{
  ℕ, zero, suc, ◌+◌, ◌-◌, ◌%◌, Bool, true, false, ◌&&◌, ◌||◌, not, List, [], ◌∷◌, ◌++◌, Option,
  none, some, Bytes, codes, length, get_or, ltb, ◌==◌, if◌then◌else◌, ℤ, pos, negsuc, word, signed,
  is_nonpos, pos_part,
}
use yarilo_loadtest.Base.Result.{Result, ok, err}
use yarilo_loadtest.Text.{crlf, has_prefix, has_suffix, contains, trim_crlf}
use yarilo_loadtest.Corpus.{Source}
use yarilo_loadtest.Net.{IoError, Conn, Session, read_line, write}
use yarilo_loadtest.Net.Dial.{Network, clear}
use yarilo_loadtest.Net.Monad.{M, ◌>>=◌, ◌>>◌, return, fail, observed, on_shared, on_conn}

abbrev pub dot : ℕ
dot = b'.'

-- `needsStuffing`
pub needs_stuffing : Bytes → Bool
needs_stuffing [] = contains [] (10 ∷ dot ∷ [])
needs_stuffing (c ∷ s) = (c == dot) || contains (c ∷ s) (10 ∷ dot ∷ [])

-- the loop of `stuffDots`
pub stuff_loop : Bool → Bytes → Bytes
stuff_loop at_line_start [] = []
stuff_loop at_line_start (c ∷ s) =
    let rest = c ∷ stuff_loop (c == 10) s in
    if at_line_start && (c == dot) then dot ∷ rest else rest

-- `stuffDots`
pub stuff_dots : Bytes → Bytes
stuff_dots msg = if needs_stuffing msg then stuff_loop true msg else msg

-- `terminator`
pub terminator : Bytes → Bytes
terminator msg = if has_suffix msg crlf then dot ∷ crlf else crlf ++ (dot ∷ crlf)

pub record Config : Type 0 where
  pub addr : Bytes
  pub recipients : List Bytes
  pub recipients_per_message : ℤ
  pub sender : Bytes
  pub timeout : ℤ

-- the values that `New` puts in place of those that were left out
pub with_defaults : Config → Config
with_defaults c = record {
  addr = c.addr;
  recipients = c.recipients;
  recipients_per_message =
      if is_nonpos c.recipients_per_message then pos 1 else c.recipients_per_message;
  sender = elim c.sender [ [] ↦ codes "loadtest@yarilo.invalid" | b ∷ s ↦ b ∷ s ];
  timeout = if is_nonpos c.timeout then pos 30_000_000_000 else c.timeout;
}

-- `(start + i) % len`, with the remainder of Go, and the correction of a negative one
pub recipient_index : ℤ → ℕ → ℕ
recipient_index (pos n) len = n % len
recipient_index (negsuc n) len = if suc n % len == 0 then 0 else len - suc n % len

-- `for i := 0; i < n; i++`, with the rounds left; `start` is the bits of an `int`
pub take_loop : ℕ → ℕ → ℕ → List Bytes → List Bytes
take_loop zero i start recipients = []
take_loop (suc rounds) i start recipients =
    get_or recipients (recipient_index (signed ((start + i) % word)) (length recipients)) []
    ∷ take_loop rounds (i + 1) start recipients

-- how many recipients one delivery takes
pub fan_out : Config → ℕ
fan_out c =
    let n = pos_part c.recipients_per_message in
    if ltb (length c.recipients) n then length c.recipients else n

-- `nextRecipients` at the counter `seq`: the recipients, and the counter behind them
pub next_recipients : Config → ℕ → List Bytes × ℕ
next_recipients c seq =
    let n = fan_out c in
    let seq' = (seq + n) % word in (take_loop n 0 ((seq' + word - n) % word) c.recipients, seq')

-- why a delivery fails
pub data Error : Type 0 where
  dial : Error
  writing : IoError → Error
  reading : IoError → Error
  short_reply : Bytes → Error
  unexpected : (line wanted : Bytes) → Error
  for_recipient : ℕ → Error → Error

-- the tests of `readReply` on one line
pub data Verdict : Type 0 where
  final more : Verdict
  refused : Error → Verdict

pub judge : Bytes → Bytes → Verdict
judge wanted line =
    if ltb (length line) 4
    then refused (short_reply line)
    else if not (has_prefix line wanted)
    then refused (unexpected line wanted)
    else if get_or line 3 0 == 32
    then final
    else more

module _ {D : Type 0} where
  -- `readReply`, with fuel for the lines: one more than the bytes that are still to come is enough
  pub reply_loop : ℕ → Bytes → M Error D (Unit {0})
  reply_loop zero wanted = return tt
  reply_loop (suc fuel) wanted = do
    line ← on_conn reading read_line
    elim (judge wanted (trim_crlf line)) [
      | final ↦ return tt
      | refused e ↦ fail e
      | more ↦ reply_loop fuel wanted
    ]

  pub read_reply : Bytes → M Error D (Unit {0})
  read_reply wanted s = reply_loop (suc (length s.conn.incoming)) wanted s

  -- `send`
  pub send : Bytes → M Error D (Unit {0})
  send line = on_conn writing (write (line ++ crlf))

  -- `cmd` and `expect`
  pub cmd : Bytes → Bytes → Bytes → M Error D (Unit {0})
  cmd name line wanted = observed name (send line >> read_reply wanted)

  pub expect : Bytes → Bytes → M Error D (Unit {0})
  expect name wanted = observed name (read_reply wanted)

  -- the replies that `body` reads, with those still to come; `i` counts the recipients
  pub replies_loop : ℕ → ℕ → M Error D (Unit {0})
  replies_loop zero i s = (ok tt, s)
  replies_loop (suc left) i s =
      let (r, s') = read_reply (codes "250") s in
      let rest = replies_loop left (i + 1) s' in
      elim r [ ok a ↦ rest | err e ↦ (err (for_recipient (i + 1) e), s') ]

  -- `body`
  pub body : Bytes → ℕ → M Error D (Unit {0})
  body msg recipients = do
    on_conn writing (write (stuff_dots msg))
    on_conn writing (write (terminator msg))
    replies_loop recipients 0

  pub rcpt_loop : List Bytes → M Error D (Unit {0})
  rcpt_loop [] = return tt
  rcpt_loop (rcpt ∷ rcpts) = do
    cmd (codes "RCPT") (codes "RCPT TO:<" ++ (rcpt ++ codes ">")) (codes "250")
    rcpt_loop rcpts

-- The state that all deliveries of a driver share: the recipient counter, and the corpus.
pub record Shared (src : Source) : Type 0 where
  pub seq : ℕ
  pub corpus : src.State

module _ (src : Source) (c : Config) where
  pub take_recipients : Shared src → List Bytes × Shared src
  take_recipients d =
      let (rcpts, seq') = next_recipients c d.seq in (rcpts, record d { seq = seq' })

  pub take_message : Bytes → Shared src → Bytes × Shared src
  take_message to d =
      let (msg, corpus') = src.generate c.sender to d.corpus in (msg, record d { corpus = corpus' })

  -- `Deliver` behind the dial. The recipients are not empty: `runLMTP` refuses to start without any,
  -- so that the first of them is there when the message is made.
  pub deliver : M Error (Shared src) (Unit {0})
  deliver = do
    expect (codes "greeting") (codes "220")
    cmd (codes "LHLO") (codes "LHLO yarilo-loadtest") (codes "250")
    cmd (codes "MAIL") (codes "MAIL FROM:<" ++ (c.sender ++ codes ">")) (codes "250")
    rcpts ← on_shared take_recipients
    rcpt_loop rcpts
    cmd (codes "DATA") (codes "DATA") (codes "354")
    msg ← on_shared (take_message (get_or rcpts 0 []))
    observed (codes "BODY") (body msg (length rcpts))
    cmd (codes "QUIT") (codes "QUIT") (codes "221")

  -- the dial of `Deliver`: a connection, or nothing where it fails
  pub connect : Option Conn → M Error (Shared src) (Unit {0})
  connect none s = (err dial, s)
  connect (some c) s = (ok tt, record s { conn = c })

  -- `Deliver`
  pub deliver_to : Option Conn → M Error (Shared src) (Unit {0})
  deliver_to dialled = do observed (codes "connect") (connect dialled); deliver

  -- `Deliver` over the network
  pub deliver_over : Network → M Error (Shared src) (Unit {0})
  deliver_over net =
      deliver_to (net.reach (record { transport = clear; addr = c.addr; timeout = c.timeout }))
