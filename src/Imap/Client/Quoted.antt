-- ===== src/Imap/Client/Quoted.antt =====
-- Quoted strings (internal/imapdrv/client.go) against a reader that follows RFC 3501 §4.3.
use yarilo_loadtest.Base.{
  ℕ, ◌≡◌, refl, ◌||◌, [], ◌∷◌, ◌++◌, Option, none, some, Bytes, arith, ◌==◌, if◌then◌else◌,
}
use yarilo_loadtest.Imap.Client.{quote_loop, quoted}

abbrev put : ℕ → Option (Bytes × Bytes) → Option (Bytes × Bytes)
put c none = none
put c (some (text, rest)) = some (c ∷ text, rest)

-- Where the reader stands: in the text, or behind a backslash.
pub data Place : Type 0 where
  inside escaped : Place

-- The reader behind the opening mark: the text, and what follows the closing mark; `none` if the
-- string does not end, or has a backslash before anything but a mark or a backslash.
pub read_quoted : Place → Bytes → Option (Bytes × Bytes)
read_quoted p [] = none
read_quoted inside (c ∷ s) =
    let plain = put c (read_quoted inside s) in
    let quoted_next = read_quoted escaped s in
    if c == b'"' then some ([], s) else if c == b'\\' then quoted_next else plain
read_quoted escaped (c ∷ s) =
    let taken = put c (read_quoted inside s) in if (c == b'"') || (c == b'\\') then taken else none

-- A reader of a string, its opening mark included.
pub unquote : Bytes → Option (Bytes × Bytes)
unquote [] = none
unquote (c ∷ s) = if c == b'"' then read_quoted inside s else none

read_quoted-quote_loop :
    (s rest : Bytes) → read_quoted inside (quote_loop s ++ rest) ≡ some (s, rest)
unfolding read_quoted quote_loop
read_quoted-quote_loop [] rest = refl
read_quoted-quote_loop (c ∷ s) rest = ground (arith, read_quoted-quote_loop s rest)

-- A server reads from a quoted name exactly that name, whatever quotation marks and backslashes it
-- holds, and what the command says behind it stays what it was.
pub unquote-quoted : (s rest : Bytes) → unquote (quoted s ++ rest) ≡ some (s, rest)
unfolding unquote quoted
unquote-quoted s rest = read_quoted-quote_loop s rest
