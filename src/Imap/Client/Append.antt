-- ===== src/Imap/Client/Append.antt =====
-- What APPEND puts on the wire (internal/imapdrv/client.go).
use yarilo_loadtest.Base.{
  ◌≡◌, refl, false, List, [], ◌∷◌, ◌++◌, none, append_assoc, All, arith, Bytes, codes, length, map,
}
use yarilo_loadtest.Base.Result.{ok, err}
use yarilo_loadtest.Text.{crlf, has_prefix, trim_space}
use yarilo_loadtest.Text.Number.{print_nat}
use yarilo_loadtest.Text.Laws.{Lacks}
use yarilo_loadtest.Net.{Conn, Session, write}
use yarilo_loadtest.Net.Lines.{read_line-append}
use yarilo_loadtest.Imap.Client.{
  Error, append_refused, Linked, next_tag, append_line, append_literal, append_message, quoted,
}
use yarilo_loadtest.Imap.Client.Response.{
  Item, kept, items_wire, IsItem, IsBare, done_line, read_until_tagged-wire,
}

write_unlimited :
    (b : Bytes) (c : Conn)
    → c.writes_left ≡ none
    → write b c ≡ (ok tt, record c { sent = c.sent ++ b ∷ [] })
unfolding write
write_unlimited b c w = ground (arith, w)

module _ {S : Type 0} where
  -- the session behind a command that has written `out`, with `rest` left to read
  abbrev pub written : Session Error (Linked S) → List Bytes → Bytes → Session Error (Linked S)
  written s out rest = record s {
    conn = record s.conn { incoming = rest; sent = s.conn.sent ++ out };
    shared = (next_tag s.shared).1;
  }

  -- the line by which `appendMessage` announces a message
  abbrev pub announcement : Session Error (Linked S) → (mailbox body : Bytes) → Bytes
  announcement s mailbox body =
      (next_tag s.shared).0
      ++ (codes " APPEND "
          ++ (quoted mailbox ++ (codes " {" ++ (print_nat (length body) ++ b'}' ∷ crlf))))

  -- As long as writes succeed: a message is not sent unless the server has asked for it. If the answer
  -- to the command line does not start with a plus sign, the command fails with that answer, and nothing
  -- but the command line was written.
  pub append_message_refused :
      (mailbox body line rest : Bytes) (s : Session Error (Linked S))
      → s.conn.writes_left ≡ none
      → Lacks 10 line
      → has_prefix (line ++ crlf) (codes "+") ≡ false
      → s.conn.incoming ≡ line ++ (crlf ++ rest)
      → append_message mailbox body s ≡ (
        err (append_refused (trim_space (line ++ crlf))),
        written s (announcement s mailbox body ∷ []) rest,
      )
  unfolding append_message append_literal append_line
  append_message_refused mailbox body line rest s w l p e =
      let out = announcement s mailbox body in
      let c1 = record s.conn { sent = s.conn.sent ++ out ∷ [] } in
      ground (arith, write_unlimited out s.conn w, read_line-append c1 line rest l e, p)

  -- As long as writes succeed: let the server ask for the message by an answer that starts with a plus
  -- sign, and answer it with any untagged lines and the command's tag and OK. Then the command succeeds;
  -- it has written its line, which announces exactly the bytes of the message, the message and a line
  -- end, and leaves exactly what follows the answer.
  pub append_message-wire :
      (mailbox body go info rest digits : Bytes) (items : List Item) (s : Session Error (Linked S))
      → s.conn.writes_left ≡ none
      → (next_tag s.shared).0 ≡ b'a' ∷ digits
      → Lacks 10 go
      → All (IsItem (b'a' ∷ digits)) items
      → IsBare (done_line (b'a' ∷ digits) info)
      → s.conn.incoming
        ≡ (b'+' ∷ go)
          ++ (crlf ++ (items_wire items ++ (done_line (b'a' ∷ digits) info ++ (crlf ++ rest))))
      → append_message mailbox body s
        ≡ (ok (map kept items), written s (announcement s mailbox body ∷ body ∷ crlf ∷ []) rest)
  unfolding append_message append_literal append_line has_prefix
  append_message-wire mailbox body go info rest digits items s w t l h d e =
      let out = announcement s mailbox body in
      let behind = items_wire items ++ (done_line (b'a' ∷ digits) info ++ (crlf ++ rest)) in
      let c1 = record s.conn { sent = s.conn.sent ++ out ∷ [] } in
      let c2 = record c1 { incoming = behind } in
      let c3 = record c2 { sent = c2.sent ++ body ∷ [] } in
      let s4 = record s {
        conn = record c3 { sent = c3.sent ++ crlf ∷ [] };
        shared = (next_tag s.shared).1;
      } in
      ground (
        arith,
        write_unlimited out s.conn w,
        read_line-append c1 (b'+' ∷ go) behind (omega arith, l) e,
        write_unlimited body c2 w,
        write_unlimited crlf c3 w,
        t,
        read_until_tagged-wire items digits (codes "APPEND") info rest s4 h d refl,
        append_assoc (s.conn.sent ++ out ∷ []) (body ∷ []) (crlf ∷ []),
        append_assoc s.conn.sent (out ∷ []) (body ∷ crlf ∷ []),
      )
