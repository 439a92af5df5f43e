-- ===== src/Pop3.antt =====
-- The POP3 driver (internal/pop3drv/pop3.go).
pub mod Multiline
pub mod Newest
pub mod Setup
pub mod Status
pub mod Commands
pub mod Conversation
mod Tests
use yarilo_loadtest.Base.{
  ℕ, zero, suc, ◌+◌, ◌%◌, Bool, true, false, List, [], ◌∷◌, ◌++◌, Option, none, some, Bytes, codes,
  length, get_or, drop, ltb, if◌then◌else◌, ℤ, pos, negsuc, pos_part, word, signed, index_of,
  is_nonpos,
}
use yarilo_loadtest.Base.Result.{Result, ok, err}
use yarilo_loadtest.Text.{crlf, bytes_eq, has_prefix, is_space, trim_crlf, trim_space}
use yarilo_loadtest.Text.Number.{print_nat, atoi}
use yarilo_loadtest.Net.{IoError, eof, broken, Conn, Session, read_line, write}
use yarilo_loadtest.Net.Dial.{Network, target}
use yarilo_loadtest.Net.Monad.{M, ◌>>=◌, ◌>>◌, return, fail, observed, on_shared, on_conn}

pub record Config : Type 0 where
  pub addr : Bytes
  pub users : List Bytes
  pub password : Bytes
  pub tls : Bool
  pub insecure : Bool
  pub timeout : ℤ
  pub messages_per_session : ℤ
  pub delete : Bool
  pub uidl : Bool

pub data BadConfig : Type 0 where
  no_users negative_retr : BadConfig

-- `New`
pub new : Config → Result BadConfig Config
new c =
    if ltb 0 (length c.users)
    then elim c.messages_per_session [
      | negsuc n ↦ err negative_retr
      | pos n ↦
          ok (record c { timeout = if is_nonpos c.timeout then pos 30_000_000_000 else c.timeout })
    ]
    else err no_users

-- why a session fails; `index_panic` is the panic of Go on a negative index
pub data Error : Type 0 where
  dialling : Error
  writing : IoError → Error
  reading : IoError → Error
  refused : Bytes → Error
  unexpected : Bytes → Error
  no_dot : Error
  no_count : Bytes → Error
  bad_count : Bytes → Error
  index_panic : Error

-- `strings.Fields`; `word_so_far` is the field that is being read
pub fields_loop : Bytes → Bytes → List Bytes
fields_loop word_so_far [] = elim word_so_far [ [] ↦ [] | c ∷ s ↦ (c ∷ s) ∷ [] ]
fields_loop word_so_far (c ∷ s) =
    let next = fields_loop [] s in
    let same = fields_loop (word_so_far ++ c ∷ []) s in
    if is_space c then elim word_so_far [ [] ↦ next | b ∷ w ↦ (b ∷ w) ∷ next ] else same

pub fields : Bytes → List Bytes
fields s = fields_loop [] s

-- the tests of `readStatus` on one line without its line end
pub judge : Bytes → Result Error Bytes
judge line =
    if has_prefix line (codes "+OK")
    then ok (trim_space (drop 3 line))
    else if has_prefix line (codes "-ERR")
    then err (refused line)
    else err (unexpected line)

-- the error of `readMultiline` for a read that fails
pub multiline_error : IoError → Error
multiline_error eof = no_dot
multiline_error broken = reading broken

-- the number that `stat` finds behind "+OK"
pub count_of : Bytes → Result Error ℤ
count_of rest = elim (fields rest) [
  | [] ↦ err (no_count rest)
  | field ∷ _ ↦ elim (atoi field) [ none ↦ err (bad_count field) | some n ↦ ok n ]
]

module _ {D : Type 0} where
  -- `send`
  pub send : Bytes → M Error D (Unit {0})
  send line = on_conn writing (write (line ++ crlf))

  -- `readStatus`
  pub read_status : M Error D Bytes
  read_status = do line ← on_conn reading read_line; (λ s. (judge (trim_crlf line), s))

  -- the loop of `readMultiline`, `n` lines in; its fuel is one more than the bytes still to come
  pub multiline_loop : ℕ → ℕ → M Error D ℕ
  multiline_loop zero n = return n
  multiline_loop (suc fuel) n = do
    line ← on_conn multiline_error read_line
    (elim (bytes_eq (trim_crlf line) (codes ".")) [
      | true ↦ return n
      | false ↦ multiline_loop fuel (n + 1)
    ])

  -- `readMultiline`
  pub read_multiline : M Error D ℕ
  read_multiline s = multiline_loop (suc (length s.conn.incoming)) 0 s

  -- `greeting`
  pub greeting : M Error D (Unit {0})
  greeting = observed (codes "greeting") (read_status >>= λ _. return tt)

  -- `cmd`
  pub cmd : Bytes → Bytes → M Error D (Unit {0})
  cmd name line = observed name (send line >> (read_status >>= λ _. return tt))

  -- `stat`
  pub stat : M Error D ℤ
  stat = do
    rest ← observed (codes "STAT") (send (codes "STAT") >> read_status)
    (λ s. (count_of rest, s))

  -- `multiline`
  pub multiline : Bytes → Bytes → M Error D ℕ
  multiline name line = observed name (send line >> (read_status >>= λ _. read_multiline))

  -- `retr`
  pub retr : ℕ → M Error D (Unit {0})
  retr n = multiline (codes "RETR") (codes "RETR " ++ print_nat n) >>= λ _. return tt

  pub dele : Config → ℕ → M Error D (Unit {0})
  dele c n = elim c.delete [
    | true ↦ cmd (codes "DELE") (codes "DELE " ++ print_nat n)
    | false ↦ return tt
  ]

  -- the loop of `Session` over the messages, from number `n` down
  pub retrieve_loop : Config → ℕ → ℕ → M Error D (Unit {0})
  retrieve_loop c zero retrieved = return tt
  retrieve_loop c (suc n) retrieved = elim (ltb retrieved (pos_part c.messages_per_session)) [
    | false ↦ return tt
    | true ↦ retr (suc n) >> (dele c (suc n) >> retrieve_loop c n (retrieved + 1))
  ]

  pub unique_ids : Config → M Error D (Unit {0})
  unique_ids c = elim c.uidl [
    | true ↦ multiline (codes "UIDL") (codes "UIDL") >>= λ _. return tt
    | false ↦ return tt
  ]

-- the account that a session acts as, at the session counter `seq`, and the counter behind it
pub pick_user : Config → ℕ → Option Bytes × ℕ
pick_user c seq = (
  elim (index_of (signed seq) (length c.users)) [
    | some i ↦ some (get_or c.users i [])
    | none ↦ none
  ],
  (seq + 1) % word,
)

module _ {D : Type 0} where
  -- the dial of `Session`: a connection, or nothing where it fails
  pub connect : Option Conn → M Error D (Unit {0})
  connect none s = (err dialling, s)
  connect (some c) s = (ok tt, record s { conn = c })

  -- `Session` on its connection, as one account
  pub converse : Config → (user : Bytes) → M Error D (Unit {0})
  converse c user = do
    greeting
    cmd (codes "USER") (codes "USER " ++ user)
    cmd (codes "PASS") (codes "PASS " ++ c.password)
    count ← stat
    _ ← multiline (codes "LIST") (codes "LIST")
    unique_ids c
    retrieve_loop c (pos_part count) 0
    cmd (codes "QUIT") (codes "QUIT")

-- `Session` behind the choice of its account
pub session_of : Config → (dialled : Option Conn) → Option Bytes → M Error ℕ (Unit {0})
session_of c dialled none = fail index_panic
session_of c dialled (some user) = observed (codes "connect") (connect dialled) >> converse c user

-- `Session`; the index of the account is taken before the dial
pub session : Config → (dialled : Option Conn) → M Error ℕ (Unit {0})
session c dialled = do picked ← on_shared (pick_user c); session_of c dialled picked

-- `dial`, up to its deadline
pub dial : Network → Config → Option Conn
dial net c = net.reach (target net c.tls c.insecure c.addr c.timeout)

-- `Session` over the network
pub session_over : Network → Config → M Error ℕ (Unit {0})
session_over net c = session c (dial net c)
