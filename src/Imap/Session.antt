-- ===== src/Imap/Session.antt =====
-- A session and its loop (internal/imapdrv/driver.go). What the network gives is a list: one entry for
-- each dial to come, a connection or nothing. A connection that was left behind is dropped.
pub mod Settings
pub mod Prepare
pub mod Samples
pub mod Setup
pub mod Staying
pub mod Entering
pub mod Dials
mod Tests
use yarilo_loadtest.Base.{
  ℕ, zero, suc, ◌+◌, ◌%◌, Bool, true, false, not, List, [], ◌∷◌, ◌++◌, Option, none, some, Bytes,
  codes, length, map, get_or, ltb, if◌then◌else◌, ℤ, pos, negsuc, pos_part, word, signed, index_of,
  is_nonpos,
}
use yarilo_loadtest.Base.Result.{Result, ok, err}
use yarilo_loadtest.Text.Number.{print_nat}
use yarilo_loadtest.Corpus.{Source}
use yarilo_loadtest.Net.{Conn, Session, Sample}
use yarilo_loadtest.Net.Monad.{M, ◌>>=◌, ◌>>◌, return, fail, observed, on_shared}
use yarilo_loadtest.Imap.Profile.{
  Command, list, status, select, fetch, fetch2, store, delete, expunge, search_text, noop, append,
  logout, name, Profile, default_profile, is_zero_profile, Weighted, weights,
}
use yarilo_loadtest.Imap.View.{
  State, disconnected, authenticated, selected, Mismatch, View, empty_view, apply_untagged,
  check_mismatch, note_append,
}
use yarilo_loadtest.Imap.Step.{Choice, open_mailbox, issue, choose, range_cmd}
use yarilo_loadtest.Imap.Client.{
  Error, dialling, login_failed, mismatched, index_panic, cut_off, Linked, quoted, perform, greet,
  login, append_message,
}
use yarilo_loadtest.Net.Dial.{Network}
use yarilo_loadtest.Imap.Session.Settings.{Driver, dial_server}

-- What a session works on besides its connection: `session`, and what the driver's sessions share.
pub record Local (src : Source) : Type 0 where
  pub user : Bytes
  pub state : State
  pub view : View
  pub commands : ℕ
  pub dials : List (Option Conn)
  pub seq : ℕ
  pub corpus : src.State

module _ (src : Source) where
  -- code of a session
  abbrev pub Code : Type 0 → Type 0
  Code A = M Error (Linked (Local src)) A

  pub change : (Local src → Local src) → Code (Unit {0})
  change f = on_shared (λ l. (tt, record l { rest = f l.rest }))

  pub look : {A : Type 0} → (Local src → A) → Code A
  look f = on_shared (λ l. (f l.rest, l))

  -- the connection that a dial gives, on which a client counts its tags from the start
  pub connected :
      Session Error (Linked (Local src))
      → Conn
      → List (Option Conn)
      → Session Error (Linked (Local src))
  connected s c more = record s {
    conn = c;
    shared = record { tag = 0; rest = record s.shared.rest { dials = more } };
  }

  -- `dial`, with what the network gives
  pub dial_next : List (Option Conn) → Code (Unit {0})
  dial_next [] s = (err dialling, s)
  dial_next (none ∷ more) s = (
    err dialling,
    record s { shared = record s.shared { rest = record s.shared.rest { dials = more } } },
  )
  dial_next (some c ∷ more) s = greet (connected s c more)

  pub dial : Code (Unit {0})
  dial s = dial_next s.shared.rest.dials s

  -- `fmt.Errorf("imap: login %s: %w", …)`
  pub wrapped : {A : Type 0} → (Error → Error) → Code A → Code A
  wrapped f m s = let (r, s') = m s in elim r [ ok a ↦ (ok a, s') | err e ↦ (err (f e), s') ]

  -- the atomic `seq.Add(1) - 1`
  pub next_seq : Code ℕ
  next_seq =
      on_shared
        (λ l. (l.rest.seq, record l { rest = record l.rest { seq = (l.rest.seq + 1) % word } }))

  -- what `checkMismatch` returns
  pub verify : Code (Unit {0})
  verify = do
    v ← look (λ l. l.view)
    let (found, v') = check_mismatch v
    change (λ l. record l { view = v' })
    elim found [ none ↦ return tt | some m ↦ fail (mismatched v.mailbox m) ]

  -- the message that `run` asks its source for
  pub draw_body : Code Bytes
  draw_body = on_shared (λ l.
      let (msg, c) = src.generate (codes "loadtest@yarilo.invalid") l.rest.user l.rest.corpus in
      (msg, record l { rest = record l.rest { corpus = c } }))

  module _ (d : Driver) where
    -- `connect`
    pub connect : ℕ → Code (Unit {0})
    connect id = do
      change (λ l. record l { user = get_or d.cfg.users (id % length d.cfg.users) [] })
      observed (codes "connect") dial
      user ← look (λ l. l.user)
      lines ← wrapped (login_failed user) (observed (codes "LOGIN") (login user d.cfg.password))
      change (λ l. record l { state = authenticated; view = empty_view [] })

    -- the mailbox of step `n`; `none` is the panic on a negative index
    pub mailbox_at : ℕ → Option Bytes
    mailbox_at n = elim (index_of (signed n) (length d.mailboxes)) [
      | some i ↦ some (get_or d.mailboxes i [])
      | none ↦ none
    ]

    -- `doSelect`
    pub select_mailbox : Option Bytes → Code (Unit {0})
    select_mailbox none = fail index_panic
    select_mailbox (some mbox) = do
      lines ← observed (name select) (perform (codes "SELECT " ++ quoted mbox))
      change (λ l. record l { state = selected; view = apply_untagged lines (empty_view mbox) })
      verify

    -- `run`: a command whose answer is nothing but lines
    pub command_text : Command → View → Bytes
    command_text list v = codes "LIST \"\" \"*\""
    command_text status v = codes "STATUS " ++ (quoted v.mailbox ++ codes " (MESSAGES UNSEEN)")
    command_text select v = []
    command_text fetch v = range_cmd v (codes "FETCH") (codes "(UID FLAGS RFC822.SIZE)")
    command_text fetch2 v = range_cmd v (codes "FETCH") (codes "BODY.PEEK[]")
    command_text store v = range_cmd v (codes "STORE") (codes "+FLAGS.SILENT (\\Seen)")
    command_text delete v = range_cmd v (codes "STORE") (codes "+FLAGS.SILENT (\\Deleted)")
    command_text expunge v = codes "EXPUNGE"
    command_text search_text v = codes "SEARCH TEXT throughput"
    command_text noop v = codes "NOOP"
    command_text append v = []
    command_text logout v = codes "LOGOUT"

    pub append_one : Code (List Bytes)
    append_one = do
      v ← look (λ l. l.view)
      body ← draw_body
      lines ← append_message v.mailbox body
      change (λ l. record l { view = note_append l.view })
      return []

    pub say : Command → Code (List Bytes)
    say c = do v ← look (λ l. l.view); perform (command_text c v)

    -- the switch of `run`
    pub exchange : Command → Code (List Bytes)
    exchange append = append_one
    exchange logout = do
      lines ← say logout
      change (λ l. record l { state = disconnected })
      return lines
    exchange c = say c

    pub run_plain : Command → Code (Unit {0})
    run_plain c = do
      lines ← observed (name c) (exchange c)
      change (λ l. record l { commands = l.commands + 1; view = apply_untagged lines l.view })
      verify

    -- `run`
    pub run : Command → Code (Unit {0})
    run select = do observed (name select) (return tt); n ← next_seq; select_mailbox (mailbox_at n)
    run c = run_plain c

    pub carry_out : ℕ → Choice → Code (Unit {0})
    carry_out n open_mailbox = select_mailbox (mailbox_at n)
    carry_out n (issue c) = run c

    -- `step`
    pub step : Code (Unit {0})
    step = do
      n ← next_seq
      c ← look (λ l. choose d.cfg.target_messages d.weights l.state l.view n)
      carry_out n c

    pub is_disconnected : State → Bool
    is_disconnected disconnected = true
    is_disconnected _ = false

    pub connect_if : ℕ → Bool → Code (Unit {0})
    connect_if id true = connect id
    connect_if id false = return tt

    -- the loop of `RunClient` in a context that has not ended, over the rounds that are made at most. A
    -- round knows whether the context ends in its course. The result is that of the function, or `none`
    -- where the rounds are used up and the loop goes on.
    pub client_loop :
        ℕ
        → List Bool
        → Session Error (Linked (Local src))
        → Option (Result Error (Unit {0})) × Session Error (Linked (Local src))
    client_loop id [] s = (none, s)
    client_loop id (ended ∷ rounds) s =
        let (r, s1) = connect_if id (is_disconnected s.shared.rest.state) s in
        elim r [
          | err e ↦ (some (err e), s1)
          | ok a ↦
              let (q, s2) = step s1 in
              elim q [
                | err e ↦ (
                  some (if ended then ok tt else err e),
                  record s2 {
                    shared = record s2.shared {
                      rest = record s2.shared.rest { state = disconnected };
                    };
                  },
                )
                | ok b ↦ if ended then (some (ok tt), s2) else client_loop id rounds s2
              ]
        ]

    -- `RunClient`; `ended` says whether the context has ended before its first round
    pub run_client :
        ℕ
        → (ended : Bool) → List Bool
        → Session Error (Linked (Local src))
        → Option (Result Error (Unit {0})) × Session Error (Linked (Local src))
    run_client id ended rounds s = if ended then (some (ok tt), s) else client_loop id rounds s

    -- `RunClient` over the network as it is at each dial
    pub run_client_over :
        (nets : List Network)
        → ℕ
        → (ended : Bool) → List Bool
        → Session Error (Linked (Local src))
        → Option (Result Error (Unit {0})) × Session Error (Linked (Local src))
    run_client_over nets id ended rounds s = run_client id ended rounds (record s {
      shared = record s.shared {
        rest = record s.shared.rest { dials = map (λ net. dial_server net d.cfg) nets };
      };
    })
