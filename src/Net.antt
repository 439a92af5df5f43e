-- ===== src/Net.antt =====
-- A connection as the protocol drivers use it: what the server sends over the session, how that
-- ends, and what the client has written. A driver returns its error with the state it leaves, and
-- its `Observe` calls are kept as a list, which the collector folds (Stats).
pub mod Monad
pub mod Lines
pub mod Script
pub mod Moves
pub mod Dial
use yarilo_loadtest.Base.{
  ℕ, zero, suc, Bool, true, false, List, [], ◌∷◌, ◌++◌, Option, none, some, Bytes, ◌==◌,
  if◌then◌else◌,
}
use yarilo_loadtest.Base.Result.{Result, ok, err}

-- why a read or a write fails: the end of the stream, or another failure (a deadline, a reset)
pub data IoError : Type 0 where
  eof broken : IoError

pub record Conn : Type 0 where
  pub incoming : Bytes
  pub ending : IoError
  -- the writes that still succeed, if the connection fails at all
  pub writes_left : Option ℕ
  -- what was written, the latest last
  pub sent : List Bytes

-- `br.ReadString('\n')`: the line with its line feed, and what follows it
unfoldable pub read_string : Bytes → Option (Bytes × Bytes)
read_string [] = none
read_string (c ∷ s) =
    let rest =
      let r : Option (Bytes × Bytes) = elim (read_string s) [
        | none ↦ none
        | some (line, after) ↦ some (c ∷ line, after)
      ] in
      r in
    if c == 10 then some (c ∷ [], s) else rest

unfoldable pub read_line : Conn → Result IoError Bytes × Conn
read_line c = elim (read_string c.incoming) [
  | none ↦ (err c.ending, record c { incoming = [] })
  | some (line, after) ↦ (ok line, record c { incoming = after })
]

-- `conn.Write`
unfoldable pub write : Bytes → Conn → Result IoError (Unit {0}) × Conn
write b c = elim c.writes_left [
  | none ↦ (ok tt, record c { sent = c.sent ++ b ∷ [] })
  | some zero ↦ (err broken, c)
  | some (suc k) ↦ (ok tt, record c { sent = c.sent ++ b ∷ []; writes_left = some k })
]

-- one `Observe` call of a driver: the command's name, and whether it failed
pub record Sample (E : Type 0) : Type 0 where
  pub name : Bytes
  pub failure : Option E

-- a session in progress: its connection, its samples, and the state that the driver keeps beside it
pub record Session (E D : Type 0) : Type 0 where
  pub conn : Conn
  pub samples : List (Sample E)
  pub shared : D
