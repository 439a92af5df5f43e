-- ===== src/Pop3/Conversation.antt =====
-- A whole session (internal/pop3drv/pop3.go: Session) with a server that accepts every step of it.
use yarilo_loadtest.Base.{
  ℕ, ◌≤◌, ◌≡◌, refl, ap, ◌∙◌, [], ◌∷◌, ◌++◌, map, ℤ, some, none, append_assoc, All, arith, Bytes,
  codes, length, ltb, if◌then◌else◌, pos_part,
}
use yarilo_loadtest.Base.Result.{ok}
use yarilo_loadtest.Text.Number.{max_int}
use yarilo_loadtest.Net.{Conn, Session}
use yarilo_loadtest.Net.Monad.{M, ◌>>=◌, ◌>>◌}
use yarilo_loadtest.Net.Script.{Script, success, ◌then◌, Plays, Plays-bind, Plays-then, Plays-skip}
use yarilo_loadtest.Pop3.{
  Config, Error, cmd, multiline, retrieve_loop, unique_ids, pick_user, connect, converse,
  session_of, session,
}
use yarilo_loadtest.Pop3.Status.{IsStatus, stat_line}
use yarilo_loadtest.Pop3.Commands.{
  Answers, IsListing, IsRetrieval, status_wire, command, command_lines, survey, retrieval_script,
  greeting-Plays, cmd-Plays, multiline-Plays, stat-Plays, unique_ids-Plays, retrieve_loop-Plays,
}

-- What is said in a session of a maildrop of n messages: logging in, looking round, and the rest.
abbrev pub session_script : Config → (user : Bytes) → ℕ → Answers → Script
session_script c user n a =
    record { reads = status_wire a.greeting; writes = []; reports = codes "greeting" ∷ [] }
    then (command (codes "USER") (codes "USER " ++ user) a.user
        then (command (codes "PASS") (codes "PASS " ++ c.password) a.pass
            then (command (codes "STAT") (codes "STAT") (stat_line n a.octets)
                then (command_lines (codes "LIST") (codes "LIST") a.listing
                    then (survey c a.ids
                        then (retrieval_script c n a.retrievals
                            then command (codes "QUIT") (codes "QUIT") a.quit))))))

-- The server accepts each step of it, and as many retrievals as the driver makes.
pub record IsAccepting (c : Config) (n : ℕ) (a : Answers) : Type 0 where
  pub greets : IsStatus a.greeting
  pub takes_user : IsStatus a.user
  pub takes_pass : IsStatus a.pass
  pub counts : IsStatus (stat_line n a.octets)
  pub few : n ≤ max_int
  pub lists : IsListing a.listing
  pub lists_ids : IsListing a.ids
  pub retrieves : All IsRetrieval a.retrievals
  pub quits : IsStatus a.quit
  pub newest :
      length a.retrievals
      ≡ (if ltb n (pos_part c.messages_per_session) then n else pos_part c.messages_per_session)

module _ (c : Config) where
  abbrev visiting : ℤ → M Error ℕ (Unit {0})
  visiting count = do
    _ ← multiline (codes "LIST") (codes "LIST")
    unique_ids c
    retrieve_loop c (pos_part count) 0
    cmd (codes "QUIT") (codes "QUIT")

  converse-Plays :
      (user : Bytes) (n d : ℕ) (a : Answers)
      → IsAccepting c n a
      → Plays (converse c user) tt (session_script c user n a) d d
  unfolding converse
  converse-Plays user n d a h = Plays-then (greeting-Plays a.greeting d h.greets) (
      Plays-then (cmd-Plays (codes "USER") (codes "USER " ++ user) a.user d h.takes_user) (
        Plays-then (cmd-Plays (codes "PASS") (codes "PASS " ++ c.password) a.pass d h.takes_pass) (
          Plays-bind visiting (stat-Plays n a.octets d h.few h.counts) (
            Plays-skip (multiline-Plays (codes "LIST") (codes "LIST") a.listing d h.lists) (
              Plays-then (unique_ids-Plays c a.ids d h.lists_ids) (
                Plays-then
                  (retrieve_loop-Plays c n 0 (pos_part c.messages_per_session) a.retrievals d
                    h.retrieves (omega arith) h.newest)
                  (cmd-Plays (codes "QUIT") (codes "QUIT") a.quit d h.quits)))))))

  -- A session over a new connection whose writes do not fail, with a server that accepts every step,
  -- succeeds. It reads each reply and nothing behind the last
  -- one, writes what the script of the session says (the newest messages, from the last number down, as
  -- many as the driver may retrieve, each deleted behind its retrieval if deletion is on), and reports
  -- each step once and with no failure.
  pub session-accepted :
      (conn : Conn) (user : Bytes) (n : ℕ) (a : Answers) (s : Session Error ℕ) (rest : Bytes)
      → conn.writes_left ≡ none
      → conn.incoming ≡ (session_script c user n a).reads ++ rest
      → (pick_user c s.shared).0 ≡ some user
      → IsAccepting c n a
      → session c (some conn) s ≡ (
        ok tt,
        record {
          conn = record conn {
            incoming = rest;
            sent = conn.sent ++ (session_script c user n a).writes;
          };
          samples =
              s.samples ++ map success (codes "connect" ∷ (session_script c user n a).reports);
          shared = (pick_user c s.shared).1;
        },
      )
  unfolding session session_of connect
  session-accepted conn user n a s rest w i u h =
      let opened : Session Error ℕ = record {
        conn = conn;
        samples = s.samples ++ success (codes "connect") ∷ [];
        shared = (pick_user c s.shared).1;
      } in
      ap (λ p. session_of c (some conn) p (record s { shared = (pick_user c s.shared).1 })) u
      ∙ ((converse-Plays user n (pick_user c s.shared).1 a h).runs opened rest w refl i
          ∙ ap
              (λ l. (
                ok tt,
                record {
                  conn = record conn {
                    incoming = rest;
                    sent = conn.sent ++ (session_script c user n a).writes;
                  };
                  samples = l;
                  shared = (pick_user c s.shared).1;
                },
              ))
              (append_assoc s.samples (success (codes "connect") ∷ [])
                (map success (session_script c user n a).reports)))
