-- ===== src/Imap/Client/Rest.antt =====
-- Client code (internal/imapdrv/client.go) leaves alone what its user keeps beside the connection.
use yarilo_loadtest.Base.{
  ℕ, zero, suc, ◌+◌, ◌≡◌, refl, ◌∙◌, List, [], ◌∷◌, ◌++◌, ◌||◌, Option, none, some, Bytes, codes,
  length, drop,
}
use yarilo_loadtest.Base.Result.{Result}
use yarilo_loadtest.Text.{trim_space, trim_crlf, has_prefix, crlf}
use yarilo_loadtest.Net.{read_line, write, IoError, Conn, Session}
use yarilo_loadtest.Net.Monad.{on_conn, on_shared}
use yarilo_loadtest.Net.Moves.{Preorder, Moves, bind-Moves, return-Moves, fail-Moves, if-Moves}
use yarilo_loadtest.Imap.Client.{
  Error, reading, greeting, greeting_refused, discarding, discard_bytes, Linked, next_tag,
  tagged_loop, read_until_tagged, perform, greet, login, completed, append_message, append_literal,
  literal_size, skip_literal, discard, continuation, writing, append_writing, declined,
  append_continuation, append_body, append_end, append_refused, append_line,
}

module _ {S : Type 0} where
  abbrev pub resting : Preorder (Session Error (Linked S))
  resting = record {
    Rel = λ s t. t.shared.rest ≡ s.shared.rest;
    same = λ s. refl;
    chain = λ s t u first second. second ∙ first;
  }

  on_conn-rests :
      {A : Type 0} (wrap : IoError → Error) (io : Conn → Result IoError A × Conn)
      → Moves resting (on_conn wrap io)
  on_conn-rests wrap io = record { moves = λ s. refl }

  next_tag-rests : Moves resting (on_shared next_tag)
  unfolding next_tag
  next_tag-rests = record { moves = λ s. refl }

  skip_literal-rests : (n : Option ℕ) → Moves resting (skip_literal n)
  unfolding skip_literal discard
  skip_literal-rests none = return-Moves tt
  skip_literal-rests (some n) = on_conn-rests discarding (discard_bytes n)

  completed-rests :
      (cmd rest : Bytes) (untagged : List Bytes) → Moves resting (completed cmd rest untagged)
  unfolding completed
  completed-rests cmd rest untagged =
      if-Moves (has_prefix rest (codes "OK")) (return-Moves untagged)
        (fail-Moves (declined cmd rest))

  tagged_loop-rests :
      (fuel : ℕ) (tag cmd : Bytes) (untagged : List Bytes)
      → Moves resting (tagged_loop fuel tag cmd untagged)
  unfolding tagged_loop
  tagged_loop-rests zero tag cmd untagged = return-Moves untagged
  tagged_loop-rests (suc fuel) tag cmd untagged =
      bind-Moves (on_conn-rests (reading cmd) read_line) (λ raw.
        let line = trim_crlf raw in
        if-Moves (has_prefix line (tag ++ 32 ∷ []))
          (completed-rests cmd (drop (length tag + 1) line) untagged)
          (if-Moves (has_prefix line (codes "* "))
            (bind-Moves (skip_literal-rests (literal_size line))
              (λ _. tagged_loop-rests fuel tag cmd (untagged ++ drop 2 line ∷ [])))
            (if-Moves (has_prefix line (codes "+ ")) (fail-Moves (continuation cmd))
              (tagged_loop-rests fuel tag cmd untagged))))

  read_until_tagged-rests : (tag cmd : Bytes) → Moves resting (read_until_tagged tag cmd)
  unfolding read_until_tagged
  read_until_tagged-rests tag cmd = record {
    moves = λ s. (tagged_loop-rests (suc (length s.conn.incoming)) tag cmd []).moves s;
  }

  pub perform-rests : (cmd : Bytes) → Moves resting (perform cmd)
  unfolding perform
  perform-rests cmd = bind-Moves next_tag-rests (λ tag.
      bind-Moves (on_conn-rests (writing cmd) (write (tag ++ 32 ∷ (cmd ++ crlf))))
        (λ _. read_until_tagged-rests tag cmd))

  pub login-rests : (user pass : Bytes) → Moves resting (login user pass)
  unfolding login
  login-rests user pass = perform-rests _

  pub greet-rests : Moves resting greet
  unfolding greet
  greet-rests = bind-Moves (on_conn-rests greeting read_line) (λ line.
      if-Moves (has_prefix line (codes "* OK") || has_prefix line (codes "* PREAUTH"))
        (return-Moves tt) (fail-Moves (greeting_refused (trim_space line))))

  append_literal-rests : (tag body line : Bytes) → Moves resting (append_literal tag body line)
  unfolding append_literal
  append_literal-rests tag body line =
      if-Moves (has_prefix line (codes "+"))
        (bind-Moves (on_conn-rests append_body (write body)) (λ _.
          bind-Moves (on_conn-rests append_end (write crlf))
            (λ _. read_until_tagged-rests tag (codes "APPEND"))))
        (fail-Moves (append_refused (trim_space line)))

  pub append_message-rests : (mailbox body : Bytes) → Moves resting (append_message mailbox body)
  unfolding append_message
  append_message-rests mailbox body = bind-Moves next_tag-rests (λ tag.
      bind-Moves (on_conn-rests append_writing (write (append_line tag mailbox (length body))))
        (λ _.
          bind-Moves (on_conn-rests append_continuation read_line) (append_literal-rests tag body)))
