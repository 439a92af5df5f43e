-- ===== src/Pop3/Commands.antt =====
-- The commands of a session (internal/pop3drv/pop3.go) with a server that accepts them.
use yarilo_loadtest.Base.{
  ℕ, zero, suc, ◌+◌, ◌-◌, ◌≤◌, ◌≡◌, refl, ap, true, false, List, [], ◌∷◌, ◌++◌, All, arith, Bytes,
  codes, length, ltb, if◌then◌else◌, pos, pos_part, Bool-cases, inl, inr,
}
use yarilo_loadtest.Text.{crlf}
use yarilo_loadtest.Text.Laws.{Lacks}
use yarilo_loadtest.Text.Number.{print_nat, max_int}
use yarilo_loadtest.Net.Monad.{return}
use yarilo_loadtest.Net.Script.{
  Script, silence, ◌then◌, Plays, Plays-then, Plays-skip, Plays-pure, Plays-return, Plays-observed,
  Plays-write, Plays-read,
}
use yarilo_loadtest.Pop3.{
  Config, writing, send, read_status, greeting, cmd, stat, multiline, retr, dele, retrieve_loop,
  unique_ids, count_of,
}
use yarilo_loadtest.Pop3.Status.{IsStatus, text_of, stat_line, read_status-line, count_of-stat_line}
use yarilo_loadtest.Pop3.Multiline.{reply_wire, read_multiline-wire}
use yarilo_loadtest.Pop3.Newest.{removal}

-- A reply of several lines, the reply to the retrieval of a message, and all that the server says.
pub record Listing : Type 0 where
  pub status : Bytes
  pub lines : List Bytes

pub record Retrieval : Type 0 where
  pub mail : Listing
  pub removed : Bytes

pub record Answers : Type 0 where
  pub greeting : Bytes
  pub user : Bytes
  pub pass : Bytes
  pub octets : Bytes
  pub listing : Listing
  pub ids : Listing
  pub retrievals : List Retrieval
  pub quit : Bytes

abbrev pub IsListing : Listing → Type 0
IsListing l = IsStatus l.status × All (Lacks 10) l.lines

abbrev pub IsRetrieval : Retrieval → Type 0
IsRetrieval r = IsListing r.mail × IsStatus r.removed

abbrev pub status_wire : Bytes → Bytes
status_wire line = line ++ crlf

abbrev pub listing_wire : Listing → Bytes
listing_wire l = status_wire l.status ++ reply_wire l.lines

-- the script of a command with a reply of one line, and of one with more
abbrev pub command : (name line status : Bytes) → Script
command name line status = record {
  reads = status_wire status;
  writes = (line ++ crlf) ∷ [];
  reports = name ∷ [];
}

abbrev pub command_lines : (name line : Bytes) → Listing → Script
command_lines name line l = record {
  reads = listing_wire l;
  writes = (line ++ crlf) ∷ [];
  reports = name ∷ [];
}

abbrev pub deletion : Config → ℕ → Bytes → Script
deletion c n status = record {
  reads = if c.delete then status_wire status else [];
  writes = removal c n;
  reports = if c.delete then codes "DELE" ∷ [] else [];
}

abbrev pub survey : Config → Listing → Script
survey c l = record {
  reads = if c.uidl then listing_wire l else [];
  writes = if c.uidl then (codes "UIDL" ++ crlf) ∷ [] else [];
  reports = if c.uidl then codes "UIDL" ∷ [] else [];
}

-- the retrievals, from number n down
abbrev pub retrieval_script : Config → ℕ → List Retrieval → Script
retrieval_script c zero rs = silence
retrieval_script c (suc n) [] = silence
retrieval_script c (suc n) (r ∷ rs) =
    command_lines (codes "RETR") (codes "RETR " ++ print_nat (suc n)) r.mail
    then (deletion c (suc n) r.removed then retrieval_script c n rs)

module _ {D : Type 0} where
  pub status-Plays :
      (line : Bytes) (d : D)
      → IsStatus line
      → Plays read_status (text_of line) (record silence { reads = status_wire line }) d d
  status-Plays line d h =
      Plays-read (status_wire line) d (λ s rest e. read_status-line line rest s h e)

  pub greeting-Plays :
      (line : Bytes) (d : D)
      → IsStatus line
      → Plays greeting tt
          (record { reads = status_wire line; writes = []; reports = codes "greeting" ∷ [] })
          d
          d
  unfolding greeting
  greeting-Plays line d h =
      Plays-observed (codes "greeting")
        (Plays-pure (λ _. return tt) (status-Plays line d h) (λ s. refl))

  pub cmd-Plays :
      (name line status : Bytes) (d : D)
      → IsStatus status
      → Plays (cmd name line) tt (command name line status) d d
  unfolding cmd send
  cmd-Plays name line status d h = Plays-observed name (
      Plays-then (Plays-write writing (line ++ crlf) d)
        (Plays-pure (λ _. return tt) (status-Plays status d h) (λ s. refl)))

  pub multiline-Plays :
      (name line : Bytes) (l : Listing) (d : D)
      → IsListing l
      → Plays (multiline name line) (length l.lines) (command_lines name line l) d d
  unfolding multiline send
  multiline-Plays name line l d h = Plays-observed name (
      Plays-then (Plays-write writing (line ++ crlf) d) (
        Plays-skip (status-Plays l.status d h.0) (
          Plays-read (reply_wire l.lines) d
            (λ s rest e. read_multiline-wire l.lines rest s h.1 e))))

  pub retr-Plays :
      (n : ℕ) (l : Listing) (d : D)
      → IsListing l
      → Plays (retr n) tt (command_lines (codes "RETR") (codes "RETR " ++ print_nat n) l) d d
  unfolding retr
  retr-Plays n l d h =
      Plays-pure (λ _. return tt)
        (multiline-Plays (codes "RETR") (codes "RETR " ++ print_nat n) l d h) (λ s. refl)

  pub stat-Plays :
      (n : ℕ) (octets : Bytes) (d : D)
      → n ≤ max_int
      → IsStatus (stat_line n octets)
      → Plays stat (pos n) (command (codes "STAT") (codes "STAT") (stat_line n octets)) d d
  unfolding stat send
  stat-Plays n octets d l h =
      Plays-pure (λ rest s. (count_of rest, s))
        (Plays-observed (codes "STAT") (
          Plays-then (Plays-write writing (codes "STAT" ++ crlf) d)
            (status-Plays (stat_line n octets) d h)))
        (λ s. ap (λ r. (r, s)) (count_of-stat_line n octets l))

  pub dele-Plays :
      (c : Config) (n : ℕ) (status : Bytes) (d : D)
      → IsStatus status
      → Plays (dele c n) tt (deletion c n status) d d
  unfolding dele
  dele-Plays c n status d h = elim (Bool-cases c.delete) [
    | inl on ↦ rw (on, dele) (cmd-Plays (codes "DELE") (codes "DELE " ++ print_nat n) status d h)
    | inr off ↦ rw (off, dele) (Plays-return tt d)
  ]

  pub unique_ids-Plays :
      (c : Config) (l : Listing) (d : D) → IsListing l → Plays (unique_ids c) tt (survey c l) d d
  unfolding unique_ids
  unique_ids-Plays c l d h = elim (Bool-cases c.uidl) [
    | inl on ↦
        rw (on, unique_ids)
          (Plays-pure (λ _. return tt) (multiline-Plays (codes "UIDL") (codes "UIDL") l d h)
            (λ s. refl))
    | inr off ↦ rw (off, unique_ids) (Plays-return tt d)
  ]

  -- `k` is how many messages may still be retrieved; as many replies are there as will be asked for
  pub retrieve_loop-Plays :
      (c : Config) (n r k : ℕ) (rs : List Retrieval) (d : D)
      → All IsRetrieval rs
      → k ≡ pos_part c.messages_per_session - r
      → length rs ≡ (if ltb n k then n else k)
      → Plays (retrieve_loop c n r) tt (retrieval_script c n rs) d d
  unfolding retrieve_loop
  retrieve_loop-Plays c zero r k [] d h e l = Plays-return tt d
  retrieve_loop-Plays c zero r k (x ∷ rs) d h e l = absurd (ground (arith, l))
  retrieve_loop-Plays c (suc n) r zero [] d h e l =
      let through : ltb r (pos_part c.messages_per_session) ≡ false = ground (arith, e) in
      rw (through, retrieve_loop) (Plays-return tt d)
  retrieve_loop-Plays c (suc n) r zero (x ∷ rs) d h e l = absurd (ground (arith, l))
  retrieve_loop-Plays c (suc n) r (suc k) [] d h e l = absurd (ground (arith, l))
  retrieve_loop-Plays c (suc n) r (suc k) (x ∷ rs) d h e l =
      let going : ltb r (pos_part c.messages_per_session) ≡ true = ground (arith, e) in
      rw (going, retrieve_loop)
        (Plays-then (retr-Plays (suc n) x.mail d h.0.0) (
          Plays-then (dele-Plays c (suc n) x.removed d h.0.1)
            (retrieve_loop-Plays c n (r + 1) k rs d h.1 (omega (arith, e)) (ground (arith, l)))))
