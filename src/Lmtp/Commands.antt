-- ===== src/Lmtp/Commands.antt =====
-- The commands of a delivery (internal/lmtp/lmtp.go) to a server that accepts them.
use yarilo_loadtest.Base.{
  ℕ, ◌≡◌, ap, sym, ◌∙◌, List, [], ◌∷◌, ◌++◌, map, All, arith, Bytes, codes, length,
}
use yarilo_loadtest.Text.{crlf}
use yarilo_loadtest.Net.Script.{
  Script, silence, Plays, Plays-then, Plays-return, Plays-observed, Plays-write, Plays-read,
}
use yarilo_loadtest.Lmtp.{
  writing, stuff_dots, terminator, send, cmd, expect, replies_loop, body, rcpt_loop,
}
use yarilo_loadtest.Lmtp.Reply.{Reply, IsReply, wire, wires, read_reply-wire, replies_loop-wires}

-- What the server answers, in order.
pub record Answers : Type 0 where
  pub greeting : Reply
  pub lhlo : Reply
  pub mail : Reply
  pub rcpts : List Reply
  pub go_ahead : Reply
  pub delivered : List Reply
  pub quit : Reply

-- It accepts each step; RCPT and the message are answered once for each recipient.
pub record IsAccepting (recipients : ℕ) (a : Answers) : Type 0 where
  pub greets : IsReply (codes "220") a.greeting
  pub knows : IsReply (codes "250") a.lhlo
  pub takes_mail : IsReply (codes "250") a.mail
  pub takes_rcpts : All (IsReply (codes "250")) a.rcpts
  pub goes_ahead : IsReply (codes "354") a.go_ahead
  pub delivers : All (IsReply (codes "250")) a.delivered
  pub quits : IsReply (codes "221") a.quit
  pub one_each : length a.rcpts ≡ recipients
  pub each_delivered : length a.delivered ≡ recipients

abbrev pub reply_wire : Reply → Bytes
reply_wire r = wire r.before r.last

abbrev pub conversation : Answers → Bytes
conversation a =
    reply_wire a.greeting
    ++ (reply_wire a.lhlo
        ++ (reply_wire a.mail
            ++ (wires a.rcpts
                ++ (reply_wire a.go_ahead ++ (wires a.delivered ++ reply_wire a.quit)))))

abbrev pub rcpt_line : Bytes → Bytes
rcpt_line rcpt = (codes "RCPT TO:<" ++ (rcpt ++ codes ">")) ++ crlf

-- the script of a command
abbrev pub command : (name line : Bytes) → Reply → Script
command name line r = record {
  reads = reply_wire r;
  writes = (line ++ crlf) ∷ [];
  reports = name ∷ [];
}

abbrev pub rcpt_script : List Bytes → List Reply → Script
rcpt_script rcpts rs = record {
  reads = wires rs;
  writes = map rcpt_line rcpts;
  reports = map (λ rcpt. codes "RCPT") rcpts;
}

module _ {D : Type 0} where
  pub expect-Plays :
      (name code : Bytes) (r : Reply) (d : D)
      → IsReply code r
      → Plays
          (expect {D = D} name code)
          tt
          (record { reads = reply_wire r; writes = []; reports = name ∷ [] })
          d
          d
  unfolding expect
  expect-Plays name code r d h =
      Plays-observed name
        (Plays-read (reply_wire r) d (λ s rest e. read_reply-wire code r rest s h e))

  pub cmd-Plays :
      (name line code : Bytes) (r : Reply) (d : D)
      → IsReply code r
      → Plays (cmd {D = D} name line code) tt (command name line r) d d
  unfolding cmd send
  cmd-Plays name line code r d h = Plays-observed name (
      Plays-then (Plays-write writing (line ++ crlf) d)
        (Plays-read (reply_wire r) d (λ s rest e. read_reply-wire code r rest s h e)))

  pub rcpt_loop-Plays :
      (rcpts : List Bytes) (rs : List Reply) (d : D)
      → All (IsReply (codes "250")) rs
      → length rs ≡ length rcpts
      → Plays (rcpt_loop {D = D} rcpts) tt (rcpt_script rcpts rs) d d
  unfolding rcpt_loop
  rcpt_loop-Plays [] [] d h e = Plays-return tt d
  rcpt_loop-Plays [] (r ∷ rs) d h e = absurd (omega arith)
  rcpt_loop-Plays (rcpt ∷ rcpts) [] d h e = absurd (omega arith)
  rcpt_loop-Plays (rcpt ∷ rcpts) (r ∷ rs) d h e =
      Plays-then
        (cmd-Plays (codes "RCPT") (codes "RCPT TO:<" ++ (rcpt ++ codes ">")) (codes "250") r d h.0)
        (rcpt_loop-Plays rcpts rs d h.1 (omega arith))

  pub replies_loop-Plays :
      (rs : List Reply) (n : ℕ) (d : D)
      → All (IsReply (codes "250")) rs
      → length rs ≡ n
      → Plays (replies_loop {D = D} n 0) tt (record silence { reads = wires rs }) d d
  replies_loop-Plays rs n d h e =
      Plays-read (wires rs) d
        (λ s rest i. ap (λ k. replies_loop k 0 s) (sym e) ∙ replies_loop-wires rs 0 rest s h i)

  pub body-Plays :
      (msg : Bytes) (rs : List Reply) (n : ℕ) (d : D)
      → All (IsReply (codes "250")) rs
      → length rs ≡ n
      → Plays
          (body {D = D} msg n)
          tt
          (record { reads = wires rs; writes = stuff_dots msg ∷ terminator msg ∷ []; reports = [] })
          d
          d
  unfolding body
  body-Plays msg rs n d h e =
      Plays-then (Plays-write writing (stuff_dots msg) d)
        (Plays-then (Plays-write writing (terminator msg) d) (replies_loop-Plays rs n d h e))
