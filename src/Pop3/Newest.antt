-- ===== src/Pop3/Newest.antt =====
-- Which messages a POP3 session (internal/pop3drv/pop3.go) retrieves.
use yarilo_loadtest.Base.{
  ℕ, zero, suc, ◌+◌, ◌-◌, ◌≡◌, refl, sym, Bool, true, false, List, [], ◌∷◌, ◌++◌, append_assoc,
  append-nil, arith, Bytes, codes, length, ltb, if◌then◌else◌, pos_part, Bool-cases, inl, inr,
}
use yarilo_loadtest.Base.Result.{Result, ok, err}
use yarilo_loadtest.Text.{crlf}
use yarilo_loadtest.Text.Number.{print_nat}
use yarilo_loadtest.Net.{Conn, Session, read_line, write}
use yarilo_loadtest.Pop3.{
  Config, Error, send, read_status, multiline_loop, read_multiline, cmd, multiline, retr, dele,
  retrieve_loop,
}

abbrev pub is_ok : {E A : Type 0} → Result E A → Bool
is_ok (ok a) = true
is_ok (err e) = false

read_line-sent : (c : Conn) → (read_line c).1.sent ≡ c.sent
unfolding read_line
read_line-sent c = ground (arith)

-- What is sent behind the retrieval of message number n.
abbrev pub removal : Config → ℕ → List Bytes
removal c n = if c.delete then ((codes "DELE " ++ print_nat n) ++ crlf) ∷ [] else []

-- What is sent for the newest k messages of n, from number n down.
abbrev pub asked : Config → ℕ → ℕ → List Bytes
asked c zero k = []
asked c (suc n) zero = []
asked c (suc n) (suc k) =
    ((codes "RETR " ++ print_nat (suc n)) ++ crlf) ∷ (removal c (suc n) ++ asked c n k)

module _ {D : Type 0} where
  read_status-sent : (s : Session Error D) → (read_status s).1.conn.sent ≡ s.conn.sent
  unfolding read_status
  read_status-sent s = ground (arith, read_line-sent s.conn)

  multiline_loop-sent :
      (fuel n : ℕ) (s : Session Error D) → (multiline_loop fuel n s).1.conn.sent ≡ s.conn.sent
  unfolding multiline_loop
  multiline_loop-sent zero n s = refl
  multiline_loop-sent (suc fuel) n s =
      let behind = record s { conn = (read_line s.conn).1 } in
      ground (arith, read_line-sent s.conn, multiline_loop-sent fuel (n + 1) behind)

  send-sent :
      (line : Bytes) (s : Session Error D)
      → is_ok (send line s).0 ≡ true
      → (send line s).1.conn.sent ≡ s.conn.sent ++ (line ++ crlf) ∷ []
  unfolding send write
  send-sent line s h = ground (arith, h)

  cmd-sent :
      (name line : Bytes) (s : Session Error D)
      → is_ok (cmd name line s).0 ≡ true
      → (cmd name line s).1.conn.sent ≡ s.conn.sent ++ (line ++ crlf) ∷ []
  unfolding cmd
  cmd-sent name line s h = ground (arith, h, send-sent line s, read_status-sent (send line s).1)

  multiline-sent :
      (name line : Bytes) (s : Session Error D)
      → is_ok (multiline name line s).0 ≡ true
      → (multiline name line s).1.conn.sent ≡ s.conn.sent ++ (line ++ crlf) ∷ []
  unfolding multiline read_multiline
  multiline-sent name line s h = ground (
    arith,
    h,
    send-sent line s,
    read_status-sent (send line s).1,
    multiline_loop-sent (suc (length (read_status (send line s).1).1.conn.incoming)) 0
        (read_status (send line s).1).1,
  )

  dele-sent :
      (c : Config) (n : ℕ) (s : Session Error D)
      → is_ok (dele c n s).0 ≡ true
      → (dele c n s).1.conn.sent ≡ s.conn.sent ++ removal c n
  unfolding dele
  dele-sent c n s h = elim (Bool-cases c.delete) [
    | inl deleting ↦
        ground (arith, h, deleting, cmd-sent (codes "DELE") (codes "DELE " ++ print_nat n) s)
    | inr keeping ↦ ground (arith, h, keeping, append-nil s.conn.sent)
  ]

  retr-sent :
      (n : ℕ) (s : Session Error D)
      → is_ok (retr n s).0 ≡ true
      → (retr n s).1.conn.sent ≡ s.conn.sent ++ ((codes "RETR " ++ print_nat n) ++ crlf) ∷ []
  unfolding retr
  retr-sent n s h =
      ground (arith, h, multiline-sent (codes "RETR") (codes "RETR " ++ print_nat n) s)

  retrieve_loop-sent :
      (c : Config) (n r k : ℕ) (s : Session Error D)
      → k ≡ pos_part c.messages_per_session - r
      → is_ok (retrieve_loop c n r s).0 ≡ true
      → (retrieve_loop c n r s).1.conn.sent ≡ s.conn.sent ++ asked c n k
  unfolding retrieve_loop
  retrieve_loop-sent c zero r k s e h = sym (append-nil s.conn.sent)
  retrieve_loop-sent c (suc n) r zero s e h =
      let through : ltb r (pos_part c.messages_per_session) ≡ false = ground (arith, e) in
      rw (retrieve_loop, through) (sym (append-nil s.conn.sent))
  retrieve_loop-sent c (suc n) r (suc k) s e h =
      let going : ltb r (pos_part c.messages_per_session) ≡ true = ground (arith, e) in
      let s1 = (retr (suc n) s).1 in
      let s2 = (dele c (suc n) s1).1 in
      let line = (codes "RETR " ++ print_nat (suc n)) ++ crlf in
      ground (
        arith,
        h,
        going,
        retr-sent (suc n) s,
        dele-sent c (suc n) s1,
        retrieve_loop-sent c n (r + 1) k s2 (omega (arith, e)),
        append_assoc s.conn.sent (line ∷ []) (removal c (suc n)),
        append_assoc s.conn.sent (line ∷ removal c (suc n)) (asked c n k),
      )

  -- A session that gets through its retrievals has asked for the newest messages of the n that the
  -- server holds, one by one from number n down, each followed by its removal if the configuration says
  -- so, for exactly as many messages as the configuration allows or there are.
  pub retrieve_loop-asked :
      (c : Config) (n : ℕ) (s : Session Error D)
      → is_ok (retrieve_loop c n 0 s).0 ≡ true
      → (retrieve_loop c n 0 s).1.conn.sent
        ≡ s.conn.sent ++ asked c n (pos_part c.messages_per_session)
  retrieve_loop-asked c n s h =
      retrieve_loop-sent c n 0 (pos_part c.messages_per_session) s (omega arith) h
