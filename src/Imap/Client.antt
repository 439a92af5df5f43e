-- ===== src/Imap/Client.antt =====
-- The IMAP client (internal/imapdrv/client.go): commands, responses with their literals, and APPEND.
-- A text that is put in quotation marks is valid UTF-8, so that Go's runes and the bytes of the text
-- are escaped alike. What is read before an error is dropped here, as the callers drop it.
pub mod Literal
pub mod Response
pub mod Quoted
pub mod Append
pub mod Plain
pub mod Rest
pub mod Fuel
mod Tests
use yarilo_loadtest.Base.{
  ℕ, zero, suc, ◌+◌, ◌-◌, ◌%◌, Bool, true, false, ◌&&◌, ◌||◌, not, List, [], ◌∷◌, ◌++◌, Option,
  none, some, Bytes, codes, length, take, drop, ltb, ◌==◌, if◌then◌else◌, ℤ, pos, negsuc, word,
}
use yarilo_loadtest.Base.Result.{Result, ok, err}
use yarilo_loadtest.Text.{
  crlf, has_prefix, has_suffix, contains, cut_last, to_lower, to_upper, trim_crlf, trim_space,
}
use yarilo_loadtest.Text.Number.{print_nat, print_int, atoi}
use yarilo_loadtest.Net.{IoError, Conn, Session, read_line, write}
use yarilo_loadtest.Net.Monad.{M, ◌>>=◌, ◌>>◌, return, fail, on_shared, on_conn}
use yarilo_loadtest.Imap.View.{Mismatch}

-- why a client fails, with what the text of the error shows
pub data Error : Type 0 where
  dialling : Error
  greeting : IoError → Error
  greeting_refused : Bytes → Error
  writing : (cmd : Bytes) → IoError → Error
  reading : (cmd : Bytes) → IoError → Error
  declined : (cmd rest : Bytes) → Error
  continuation : (cmd : Bytes) → Error
  discarding : IoError → Error
  append_writing : IoError → Error
  append_continuation : IoError → Error
  append_refused : Bytes → Error
  append_body : IoError → Error
  append_end : IoError → Error
  login_failed : (user : Bytes) → Error → Error
  create_failed : (mailbox user : Bytes) → Error → Error
  mismatched : (mailbox : Bytes) → Mismatch → Error
  cut_off : Error
  index_panic : Error

-- The texts of `fmt`'s %q and of the errors of other packages.
pub record Texts : Type 0 where
  pub in_marks : Bytes → Bytes
  pub of_io : IoError → Bytes
  pub of_dial : Bytes
  pub of_context : Bytes

-- the text of an error
pub describe : Texts → Error → Bytes
describe t dialling = t.of_dial
describe t (greeting e) = codes "imap: greeting: " ++ t.of_io e
describe t (greeting_refused line) = codes "imap: greeting refused: " ++ line
describe t (writing cmd e) = codes "imap: write " ++ (t.in_marks cmd ++ (codes ": " ++ t.of_io e))
describe t (reading cmd e) =
    codes "imap: read after " ++ (t.in_marks cmd ++ (codes ": " ++ t.of_io e))
describe t (declined cmd rest) = codes "imap: " ++ (cmd ++ (codes ": " ++ rest))
describe t (continuation cmd) = codes "imap: unexpected continuation after " ++ t.in_marks cmd
describe t (discarding e) = codes "imap: discard literal: " ++ t.of_io e
describe t (append_writing e) = codes "imap: write APPEND: " ++ t.of_io e
describe t (append_continuation e) = codes "imap: APPEND continuation: " ++ t.of_io e
describe t (append_refused line) = codes "imap: APPEND refused: " ++ line
describe t (append_body e) = codes "imap: write body: " ++ t.of_io e
describe t (append_end e) = codes "imap: terminate literal: " ++ t.of_io e
describe t (login_failed user e) = codes "imap: login " ++ (user ++ (codes ": " ++ describe t e))
describe t (create_failed mailbox user e) =
    codes "imap: create " ++ (mailbox ++ (codes " for " ++ (user ++ (codes ": " ++ describe t e))))
describe t cut_off = t.of_context
describe t index_panic = codes "runtime error: index out of range"
describe t (mismatched mailbox m) =
    codes "imap: "
    ++ (mailbox
        ++ (codes " reports "
            ++ (print_int m.reported
                ++ (codes " messages, this client added "
                    ++ (print_int m.added
                        ++ (codes " to the "
                            ++ (print_int m.last_seen ++ codes " it last saw")))))))

-- The client's tag counter, beside the state of whoever uses the client.
pub record Linked (S : Type 0) : Type 0 where
  pub tag : ℕ
  pub rest : S

-- the `%03d` of a number
pub pad3 : Bytes → Bytes
pad3 s = if ltb (length s) 2 then b'0' ∷ b'0' ∷ s else if ltb (length s) 3 then b'0' ∷ s else s

-- `quoted`, behind its opening mark
pub quote_loop : Bytes → Bytes
quote_loop [] = b'"' ∷ []
quote_loop (c ∷ s) =
    let rest = c ∷ quote_loop s in if (c == b'"') || (c == b'\\') then b'\\' ∷ rest else rest

pub quoted : Bytes → Bytes
quoted s = b'"' ∷ quote_loop s

-- `TrimSuffix(spec, "+")`
pub trim_plus : Bytes → Bytes
trim_plus spec = if has_suffix spec (codes "+") then take (length spec - 1) spec else spec

-- what `literalSize` makes of the text behind the last brace, the closing brace included
pub literal_spec : Bytes → Option ℕ
literal_spec after = elim (atoi (trim_plus (take (length after - 1) after))) [
  | none ↦ none
  | some n ↦ elim n [ pos k ↦ some k | negsuc k ↦ none ]
]

-- `literalSize`
pub literal_size : Bytes → Option ℕ
literal_size line =
    if has_suffix line (codes "}")
    then (elim (cut_last line b'{') [ none ↦ none | some (before, after) ↦ literal_spec after ])
    else none

-- `br.Discard(n)`
pub discard_bytes : ℕ → Conn → Result IoError (Unit {0}) × Conn
discard_bytes n c =
    if ltb (length c.incoming) n
    then (err c.ending, record c { incoming = [] })
    else (ok tt, record c { incoming = drop n c.incoming })

-- the command line of `appendMessage`
pub append_line : (tag mailbox : Bytes) → ℕ → Bytes
append_line tag mailbox size =
    tag ++ (codes " APPEND " ++ (quoted mailbox ++ (codes " {" ++ (print_nat size ++ b'}' ∷ crlf))))

module _ {S : Type 0} where
  -- `nextTag`
  pub next_tag : Linked S → Bytes × Linked S
  next_tag l = let n = (l.tag + 1) % word in (b'a' ∷ pad3 (print_nat n), record l { tag = n })

  -- `discard`
  pub discard : ℕ → M Error (Linked S) (Unit {0})
  discard n = on_conn discarding (discard_bytes n)

  -- the literal that a line announces, if it does
  pub skip_literal : Option ℕ → M Error (Linked S) (Unit {0})
  skip_literal none = return tt
  skip_literal (some n) = discard n

  -- the end of a command: what stands behind its tag
  pub completed : (cmd rest : Bytes) → List Bytes → M Error (Linked S) (List Bytes)
  completed cmd rest untagged =
      if has_prefix rest (codes "OK") then return untagged else fail (declined cmd rest)

  -- the loop of `readUntilTagged`; its fuel is one more than the bytes still to come
  pub tagged_loop : ℕ → (tag cmd : Bytes) → List Bytes → M Error (Linked S) (List Bytes)
  tagged_loop zero tag cmd untagged = return untagged
  tagged_loop (suc fuel) tag cmd untagged = do
    raw ← on_conn (reading cmd) read_line
    let line = trim_crlf raw
    let more =
        skip_literal (literal_size line) >> tagged_loop fuel tag cmd (untagged ++ drop 2 line ∷ [])
    let other = tagged_loop fuel tag cmd untagged
    (if has_prefix line (tag ++ 32 ∷ [])
        then completed cmd (drop (length tag + 1) line) untagged
        else if has_prefix line (codes "* ")
        then more
        else if has_prefix line (codes "+ ")
        then fail (continuation cmd)
        else other)

  -- `readUntilTagged`
  pub read_until_tagged : (tag cmd : Bytes) → M Error (Linked S) (List Bytes)
  read_until_tagged tag cmd s = tagged_loop (suc (length s.conn.incoming)) tag cmd [] s

  -- `do`
  pub perform : Bytes → M Error (Linked S) (List Bytes)
  perform cmd = do
    tag ← on_shared next_tag
    on_conn (writing cmd) (write (tag ++ 32 ∷ (cmd ++ crlf)))
    read_until_tagged tag cmd

  -- `dial` behind the connection and its deadline: the greeting
  pub greet : M Error (Linked S) (Unit {0})
  greet = do
    line ← on_conn greeting read_line
    (if has_prefix line (codes "* OK") || has_prefix line (codes "* PREAUTH")
        then return tt
        else fail (greeting_refused (trim_space line)))

  -- `login`
  pub login : (user pass : Bytes) → M Error (Linked S) (List Bytes)
  login user pass = perform (codes "LOGIN " ++ (quoted user ++ 32 ∷ quoted pass))

  -- the rest of `appendMessage` once the server was asked to take the message
  pub append_literal : (tag body line : Bytes) → M Error (Linked S) (List Bytes)
  append_literal tag body line =
      if has_prefix line (codes "+")
      then (do
        on_conn append_body (write body)
        on_conn append_end (write crlf)
        read_until_tagged tag (codes "APPEND"))
      else fail (append_refused (trim_space line))

  -- `appendMessage`
  pub append_message : (mailbox body : Bytes) → M Error (Linked S) (List Bytes)
  append_message mailbox body = do
    tag ← on_shared next_tag
    on_conn append_writing (write (append_line tag mailbox (length body)))
    line ← on_conn append_continuation read_line
    append_literal tag body line

-- whether `create` takes an error for "already exists"
pub exists_already : Bytes → Bool
exists_already text =
    contains (to_upper text) (codes "ALREADYEXISTS")
    || contains (to_lower text) (codes "already exists")

-- `create`
pub create : {S : Type 0} → Texts → Bytes → M Error (Linked S) (Unit {0})
create t mailbox s =
    let (r, s') = perform (codes "CREATE " ++ quoted mailbox) s in
    elim r [
      | ok lines ↦ (ok tt, s')
      | err e ↦ if exists_already (describe t e) then (ok tt, s') else (err e, s')
    ]
