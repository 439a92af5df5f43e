-- ===== src/Lmtp/Delivery.antt =====
-- A whole delivery (internal/lmtp/lmtp.go: Deliver) to a server that accepts every step of it.
use yarilo_loadtest.Base.{
  ◌≡◌, refl, ap, ◌∙◌, List, [], ◌∷◌, ◌++◌, map, none, some, append_assoc, Bytes, codes, length,
  get_or,
}
use yarilo_loadtest.Base.Result.{ok}
use yarilo_loadtest.Text.{crlf}
use yarilo_loadtest.Corpus.{Source}
use yarilo_loadtest.Net.{Conn, Session}
use yarilo_loadtest.Net.Monad.{M, observed, on_shared, ◌>>=◌, ◌>>◌}
use yarilo_loadtest.Net.Script.{
  success, Plays, Plays-bind, Plays-then, Plays-observed, Plays-on_shared,
}
use yarilo_loadtest.Lmtp.{
  Config, Error, stuff_dots, terminator, cmd, body, rcpt_loop, Shared, next_recipients,
  take_recipients, take_message, deliver, deliver_to, connect,
}
use yarilo_loadtest.Lmtp.Commands.{
  Answers, IsAccepting, conversation, rcpt_line, expect-Plays, cmd-Plays, rcpt_loop-Plays,
  body-Plays,
}

-- What is written in a delivery, and the names under which it is reported.
abbrev pub delivery_lines : Config → List Bytes → Bytes → List Bytes
delivery_lines c rcpts msg =
    (codes "LHLO yarilo-loadtest" ++ crlf)
    ∷ ((codes "MAIL FROM:<" ++ (c.sender ++ codes ">")) ++ crlf)
    ∷ (map rcpt_line rcpts
        ++ ((codes "DATA" ++ crlf) ∷ stuff_dots msg ∷ terminator msg ∷ (codes "QUIT" ++ crlf) ∷ []))

abbrev pub delivery_names : List Bytes → List Bytes
delivery_names rcpts =
    codes "greeting"
    ∷ codes "LHLO"
    ∷ codes "MAIL"
    ∷ (map (λ rcpt. codes "RCPT") rcpts ++ (codes "DATA" ∷ codes "BODY" ∷ codes "QUIT" ∷ []))

module _ (src : Source) (c : Config) where
  -- the driver's state behind a delivery, with the message that it sent
  abbrev pub message_of : Shared src → Bytes × src.State
  message_of d = src.generate c.sender (get_or (next_recipients c d.seq).0 0 []) d.corpus

  abbrev pub shared_after : Shared src → Shared src
  shared_after d = record { seq = (next_recipients c d.seq).1; corpus = (message_of d).1 }

  -- the ends of `deliver`: with its message, and with its recipients
  abbrev sending : List Bytes → Bytes → M Error (Shared src) (Unit {0})
  sending rcpts msg = do
    observed (codes "BODY") (body msg (length rcpts))
    cmd (codes "QUIT") (codes "QUIT") (codes "221")

  abbrev addressing : List Bytes → M Error (Shared src) (Unit {0})
  addressing rcpts = do
    rcpt_loop rcpts
    cmd (codes "DATA") (codes "DATA") (codes "354")
    msg ← on_shared (take_message src c (get_or rcpts 0 []))
    sending rcpts msg

  deliver-Plays :
      (a : Answers) (d : Shared src)
      → IsAccepting (length (next_recipients c d.seq).0) a
      → Plays
          (deliver src c)
          tt
          (record {
            reads = conversation a;
            writes = delivery_lines c (next_recipients c d.seq).0 (message_of d).0;
            reports = delivery_names (next_recipients c d.seq).0;
          })
          d
          (shared_after d)
  unfolding deliver take_recipients take_message
  deliver-Plays a d h =
      let rcpts = (next_recipients c d.seq).0 in
      let taken : Shared src = record d { seq = (next_recipients c d.seq).1 } in
      Plays-then (expect-Plays (codes "greeting") (codes "220") a.greeting d h.greets) (
        Plays-then
          (cmd-Plays (codes "LHLO") (codes "LHLO yarilo-loadtest") (codes "250") a.lhlo d h.knows)
          (Plays-then
            (cmd-Plays (codes "MAIL") (codes "MAIL FROM:<" ++ (c.sender ++ codes ">")) (codes "250")
              a.mail d h.takes_mail)
            (Plays-bind addressing (Plays-on_shared (take_recipients src c) d) (
              Plays-then (rcpt_loop-Plays rcpts a.rcpts taken h.takes_rcpts h.one_each) (
                Plays-then
                  (cmd-Plays (codes "DATA") (codes "DATA") (codes "354") a.go_ahead taken
                    h.goes_ahead)
                  (Plays-bind (sending rcpts)
                    (Plays-on_shared (take_message src c (get_or rcpts 0 [])) taken)
                    (Plays-then
                      (Plays-observed (codes "BODY") (
                        body-Plays (message_of d).0 a.delivered (length rcpts) (shared_after d)
                          h.delivers h.each_delivered))
                      (cmd-Plays (codes "QUIT") (codes "QUIT") (codes "221") a.quit (shared_after d)
                        h.quits))))))))

  -- A delivery over a new connection whose writes do not fail, to a server that accepts every step with
  -- replies of any number of lines, succeeds. It reads the replies and nothing behind them, writes the
  -- commands, the stuffed message and its terminator in this order, reports each step once and with no
  -- failure, and leaves the counter and the corpus where the next delivery goes on.
  pub deliver_to-accepted :
      (conn : Conn) (a : Answers) (s : Session Error (Shared src)) (rest : Bytes)
      → conn.writes_left ≡ none
      → conn.incoming ≡ conversation a ++ rest
      → IsAccepting (length (next_recipients c s.shared.seq).0) a
      → deliver_to src c (some conn) s ≡ (
        ok tt,
        record {
          conn = record conn {
            incoming = rest;
            sent =
                conn.sent
                ++ delivery_lines c (next_recipients c s.shared.seq).0 (message_of s.shared).0;
          };
          samples =
              s.samples
              ++ map success (codes "connect" ∷ delivery_names (next_recipients c s.shared.seq).0);
          shared = shared_after s.shared;
        },
      )
  unfolding deliver_to connect
  deliver_to-accepted conn a s rest w i h =
      let opened : Session Error (Shared src) = record s {
        conn = conn;
        samples = s.samples ++ success (codes "connect") ∷ [];
      } in
      (deliver-Plays a s.shared h).runs opened rest w refl i
      ∙ ap
          (λ l. (
            ok tt,
            record {
              conn = record conn {
                incoming = rest;
                sent =
                    conn.sent
                    ++ delivery_lines c (next_recipients c s.shared.seq).0 (message_of s.shared).0;
              };
              samples = l;
              shared = shared_after s.shared;
            },
          ))
          (append_assoc s.samples (success (codes "connect") ∷ [])
            (map success (delivery_names (next_recipients c s.shared.seq).0)))
