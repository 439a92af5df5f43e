-- ===== src/Corpus/Mbox.antt =====
-- The mbox replay (internal/corpus/mbox.go). A file is its bytes and how reading it ends.
pub mod Wire
pub mod Lines
pub mod Load
pub mod Arrival
pub mod Replay
pub mod Cycle
mod Tests
pub use yarilo_loadtest.Text.{crlf}
use yarilo_loadtest.Base.{
  ℕ, zero, suc, ◌+◌, ◌-◌, ◌%◌, Bool, true, false, ◌||◌, ◌&&◌, not, List, [], ◌∷◌, ◌++◌, Option,
  none, some, Bytes, codes, length, get_elem?, take, drop, ltb, ◌==◌, if◌then◌else◌, ℤ, pos, negsuc,
  word, signed,
}
use yarilo_loadtest.Base.Result.{Result, ok, err, ◌>>=◌}
use yarilo_loadtest.Text.{has_prefix, has_suffix, trim_right, trim_crlf, push_first}

pub record Mbox : Type 0 where
  pub messages : List Bytes
  pub seq : ℕ  -- an atomic uint64

abbrev pub lf : ℕ
lf = 10

abbrev pub cr : ℕ
cr = 13

-- the loop of `add` over the body; `bare` says that a line feed here has no carriage return before it
pub normalise : (bare : Bool) → Bytes → Bytes
normalise bare [] = []
normalise bare (c ∷ s) =
    let rest = normalise (not (c == cr)) s in if (c == lf) && bare then cr ∷ lf ∷ rest else c ∷ rest

-- what `add` appends to the messages for the buffer `body`
pub wire_form : Bytes → Bytes
wire_form body = trim_crlf (normalise true body) ++ crlf

-- the lines that `ReadString('\n')` returns one by one: each keeps its line feed, and the last one
-- may lack it
pub lines_of : Bytes → List Bytes
lines_of [] = []
lines_of (c ∷ s) = let rest = lines_of s in if c == lf then (c ∷ []) ∷ rest else push_first c rest

-- the variables of the loop of `LoadMbox`
pub record Scan : Type 0 where
  pub messages : List Bytes
  pub cur : Bytes
  pub at_start : Bool

-- `add`
pub add : Scan → Scan
add s = record s { messages = s.messages ++ wire_form s.cur ∷ []; cur = [] }

-- `if cur.Len() > 0 { m.add(&cur) }`
pub flush : Scan → Scan
flush s = elim s.cur [ [] ↦ s | c ∷ t ↦ add s ]

abbrev pub from_line : Bytes
from_line = codes "From "

abbrev pub quoted_from : Bytes
quoted_from = codes ">From "

-- the switch on a line
pub take_line : Scan → Bytes → Scan
take_line s line =
    if has_prefix line from_line && s.at_start
    then flush s
    else if has_prefix line quoted_from
    then record s { cur = s.cur ++ drop 1 line }
    else record s { cur = s.cur ++ line }

pub scan_loop : Scan → List Bytes → Scan
scan_loop s [] = s
scan_loop s (line ∷ lines) =
    scan_loop (record (take_line s line) { at_start = has_suffix line (lf ∷ []) }) lines

-- the refusal of a corpus, with the numbers that its text gives
pub data LoadError : Type 0 where
  cannot_open cannot_read no_messages : LoadError
  line_too_long : (message line octets : ℕ) → (head : Bytes) → LoadError

abbrev pub max_line_octets : ℕ
max_line_octets = 1000

-- `firstOctets`
pub first_octets : Bytes → ℕ → Bytes
first_octets b n = let s = trim_right (λ c. c == cr) b in if ltb n (length s) then take n s else s

-- the inner loop of `checkLineLengths`: `j` has reached `rest`, the line began at `start`
pub check_lines : (i : ℕ) (msg rest : Bytes) (j start line : ℕ) → Option LoadError
check_lines i msg [] j start line =
    if ltb max_line_octets (j + 1 - start)
    then some
        (line_too_long (i + 1) line (j + 1 - start) (first_octets (drop start (take j msg)) 60))
    else none
check_lines i msg (c ∷ rest) j start line =
    let next = check_lines i msg rest (j + 1) (j + 1) (line + 1) in
    let skip = check_lines i msg rest (j + 1) start line in
    if not (c == lf)
    then skip
    else if ltb max_line_octets (j + 1 - start)
    then some
        (line_too_long (i + 1) line (j + 1 - start) (first_octets (drop start (take j msg)) 60))
    else next

-- `checkLineLengths`
pub check_messages : ℕ → List Bytes → Option LoadError
check_messages i [] = none
check_messages i (msg ∷ msgs) =
    let rest = check_messages (i + 1) msgs in
    elim (check_lines i msg msg 0 0 1) [ none ↦ rest | some e ↦ some e ]

-- the tests behind the loop
pub accept : List Bytes → Result LoadError Mbox
accept [] = err no_messages
accept (m ∷ ms) = elim (check_messages 0 (m ∷ ms)) [
  | some e ↦ err e
  | none ↦ ok (record { messages = m ∷ ms; seq = 0 })
]

-- what the operating system gives for a path: no file, or its bytes and whether reading failed
-- behind them
pub data File : Type 0 where
  missing : File
  readable : (content : Bytes) → (failed : Bool) → File

pub start : Scan
start = record { messages = []; cur = []; at_start = true }

-- `LoadMbox`
pub load : File → Result LoadError Mbox
load missing = err cannot_open
load (readable content true) = err cannot_read
load (readable content false) = accept (flush (scan_loop start (lines_of content))).messages

-- `messages[int(n)%len(messages)]`; `none` is the panic on a negative index or on no messages
pub message_at : List Bytes → ℤ → Option Bytes
message_at [] n = none
message_at (m ∷ ms) (pos n) = get_elem? (m ∷ ms) (n % length (m ∷ ms))
message_at (m ∷ ms) (negsuc n) = if (n + 1) % length (m ∷ ms) == 0 then some m else none

-- `Next`, and `Generate`, which ignores its arguments
pub next : Mbox → Option Bytes × Mbox
next b =
    let seq' = (b.seq + 1) % word in
    (message_at b.messages (signed ((seq' + word - 1) % word)), record b { seq = seq' })
