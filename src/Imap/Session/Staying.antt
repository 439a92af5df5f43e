-- ===== src/Imap/Session/Staying.antt =====
-- The steps of an IMAP session (internal/imapdrv/driver.go) make no dial.
use yarilo_loadtest.Base.{
  inl, inr, Option-cases, ap, ℕ, ◌+◌, ◌≤◌, ◌≡◌, refl, ◌∙◌, List, [], ◌∷◌, ◌++◌, Option, none, some,
  Bytes, codes, arith, if◌then◌else◌,
}
use yarilo_loadtest.Text.{bytes_eq}
use yarilo_loadtest.Corpus.{Source}
use yarilo_loadtest.Net.{Session, Sample}
use yarilo_loadtest.Net.Monad.{M, observed}
use yarilo_loadtest.Net.Moves.{Preorder, Moves, bind-Moves, return-Moves, fail-Moves}
use yarilo_loadtest.Imap.Profile.{Command, list, select, append, logout, name}
use yarilo_loadtest.Imap.View.{State, disconnected, authenticated, selected, check_mismatch}
use yarilo_loadtest.Imap.Step.{Choice, open_mailbox, issue}
use yarilo_loadtest.Imap.Client.{Error, quoted, Linked, index_panic}
use yarilo_loadtest.Imap.Client.Plain.{IsPlain, perform-IsPlain, append_message-IsPlain}
use yarilo_loadtest.Imap.Client.Rest.{resting, perform-rests, append_message-rests}
use yarilo_loadtest.Imap.Session.{
  Local, run, run_plain, exchange, say, append_one, select_mailbox, mailbox_at, verify, next_seq,
  change, look, command_text, draw_body, carry_out, step,
}
use yarilo_loadtest.Imap.Session.Settings.{Driver}

-- how often LOGOUT was reported
pub logouts : List (Sample Error) → ℕ
logouts [] = 0
logouts (s ∷ ss) = (if bytes_eq s.name (codes "LOGOUT") then 1 else 0) + logouts ss

pub logouts-append : (ss ts : List (Sample Error)) → logouts (ss ++ ts) ≡ logouts ss + logouts ts
unfolding logouts
logouts-append [] ts = omega arith
logouts-append (s ∷ ss) ts = omega (arith, logouts-append ss ts)

-- a session that is not connected has a dial to its credit
abbrev pub credit : State → ℕ
credit disconnected = 1
credit authenticated = 0
credit selected = 0

pub credit-le : (s : State) → credit s ≤ 1
credit-le disconnected = omega arith
credit-le s = omega arith

module _ (src : Source) where
  abbrev pub Whole : Type 0
  Whole = Session Error (Linked (Local src))

  -- No dial is made, and who becomes disconnected has reported LOGOUT.
  abbrev pub staying : Preorder Whole
  staying = record {
    Rel = λ s t.
        (t.shared.rest.dials ≡ s.shared.rest.dials)
        × (logouts s.samples + credit t.shared.rest.state
            ≤ logouts t.samples + credit s.shared.rest.state);
    same = λ s. (refl, omega arith);
    chain = λ s t u first second. (second.0 ∙ first.0, omega (arith, first.1, second.1));
  }

  -- No dial is made.
  abbrev pub lasting : Preorder Whole
  lasting = record {
    Rel = λ s t.
        (t.shared.rest.dials ≡ s.shared.rest.dials) × (logouts s.samples ≤ logouts t.samples);
    same = λ s. (refl, omega arith);
    chain = λ s t u first second. (second.0 ∙ first.0, omega (arith, first.1, second.1));
  }

  client-stays :
      {A : Type 0} {m : M Error (Linked (Local src)) A}
      → IsPlain m
      → Moves resting m
      → Moves staying m
  client-stays {m = m} plain rests = record {
    moves = λ s.
        let samples = (plain.keeps s).0 in
        let rest = rests.moves s in
        (
          ap (λ l. l.dials) rest,
          omega (arith, ap logouts samples, ap (λ (l : Local src). credit l.state) rest),
        );
  }

  observed-stays :
      {A : Type 0} {m : M Error (Linked (Local src)) A} (what : Bytes)
      → Moves staying m
      → Moves staying (observed what m)
  observed-stays {m = m} what hm = record {
    moves = λ s. ((hm.moves s).0, omega (arith, (hm.moves s).1, logouts-append (m s).1.samples _));
  }

  pub client-lasts :
      {A : Type 0} {m : M Error (Linked (Local src)) A}
      → IsPlain m
      → Moves resting m
      → Moves lasting m
  client-lasts {m = m} plain rests = record {
    moves = λ s. (ap (λ l. l.dials) (rests.moves s), omega (arith, ap logouts (plain.keeps s).0));
  }

  -- whoever reports LOGOUT may be disconnected behind it
  logout-stays :
      {A : Type 0} {m : M Error (Linked (Local src)) A}
      → Moves lasting m
      → Moves staying (observed (name logout) m)
  unfolding logouts bytes_eq
  logout-stays {m = m} hm = record {
    moves = λ s. (
      (hm.moves s).0,
      omega (
        arith,
        (hm.moves s).1,
        credit-le (m s).1.shared.rest.state,
        logouts-append (m s).1.samples _,
      ),
    );
  }

  pub change-lasts :
      (f : Local src → Local src)
      → ((l : Local src) → (f l).dials ≡ l.dials)
      → Moves lasting (change src f)
  unfolding change
  change-lasts f h = record { moves = λ s. (h s.shared.rest, omega arith) }

  change-stays :
      (f : Local src → Local src)
      → ((l : Local src) → ((f l).dials ≡ l.dials) × (credit (f l).state ≤ credit l.state))
      → Moves staying (change src f)
  unfolding change
  change-stays f h = record {
    moves = λ s. ((h s.shared.rest).0, omega (arith, (h s.shared.rest).1));
  }

  look-stays : {A : Type 0} (f : Local src → A) → Moves staying (look src f)
  unfolding look
  look-stays f = record { moves = λ s. (refl, omega arith) }

  pub look-lasts : {A : Type 0} (f : Local src → A) → Moves lasting (look src f)
  unfolding look
  look-lasts f = record { moves = λ s. (refl, omega arith) }

  draw_body-stays : Moves staying (draw_body src)
  unfolding draw_body
  draw_body-stays = record { moves = λ s. (refl, omega arith) }

  next_seq-stays : Moves staying (next_seq src)
  unfolding next_seq
  next_seq-stays = record { moves = λ s. (refl, omega arith) }

  verify-stays : Moves staying (verify src)
  unfolding verify change look
  verify-stays = record {
    moves = λ s. elim (Option-cases (check_mismatch s.shared.rest.view).0) [
      | inl calm ↦ ground (arith, calm)
      | inr (m, found) ↦ ground (arith, found)
    ];
  }

  module _ (d : Driver) where
    say-stays : (c : Command) → Moves staying (say src d c)
    unfolding say
    say-stays c = bind-Moves (look-stays _) (λ v.
        let cmd = command_text src d c v in client-stays (perform-IsPlain cmd) (perform-rests cmd))

    append_one-stays : Moves staying (append_one src d)
    unfolding append_one
    append_one-stays = bind-Moves (look-stays (λ l. l.view)) (λ v.
        bind-Moves draw_body-stays (λ body.
          bind-Moves
            (client-stays (append_message-IsPlain v.mailbox body)
              (append_message-rests v.mailbox body))
            (λ lines.
              bind-Moves (change-stays _ (λ l. (refl, omega arith))) (λ _. return-Moves []))))

    exchange_logout-lasts : Moves lasting (exchange src d logout)
    unfolding exchange say
    exchange_logout-lasts =
        bind-Moves
          (bind-Moves (look-lasts _) (λ v.
            let cmd = command_text src d logout v in
            client-lasts (perform-IsPlain cmd) (perform-rests cmd)))
          (λ lines. bind-Moves (change-lasts _ (λ l. refl)) (λ _. return-Moves lines))

    reported-stays : (c : Command) → Moves staying (observed (name c) (exchange src d c))
    unfolding exchange
    reported-stays logout = logout-stays exchange_logout-lasts
    reported-stays append = observed-stays (name append) append_one-stays
    reported-stays list = observed-stays (name list) (say-stays list)
    reported-stays c = observed-stays (name c) (say-stays c)

    run_plain-stays : (c : Command) → Moves staying (run_plain src d c)
    unfolding run_plain
    run_plain-stays c =
        bind-Moves (reported-stays c)
          (λ lines. bind-Moves (change-stays _ (λ l. (refl, omega arith))) (λ _. verify-stays))

    select_mailbox-stays : (mbox : Option Bytes) → Moves staying (select_mailbox src d mbox)
    unfolding select_mailbox
    select_mailbox-stays none = fail-Moves index_panic
    select_mailbox-stays (some mbox) =
        bind-Moves
          (observed-stays (name select) (
            client-stays (perform-IsPlain (codes "SELECT " ++ quoted mbox))
              (perform-rests (codes "SELECT " ++ quoted mbox))))
          (λ lines. bind-Moves (change-stays _ (λ l. (refl, omega arith))) (λ _. verify-stays))

    run-stays : (c : Command) → Moves staying (run src d c)
    unfolding run
    run-stays select =
        bind-Moves (observed-stays (name select) (return-Moves tt))
          (λ _. bind-Moves next_seq-stays (λ n. select_mailbox-stays (mailbox_at src d n)))
    run-stays list = run_plain-stays list
    run-stays c = run_plain-stays c

    carry_out-stays : (n : ℕ) (c : Choice) → Moves staying (carry_out src d n c)
    unfolding carry_out
    carry_out-stays n open_mailbox = select_mailbox-stays (mailbox_at src d n)
    carry_out-stays n (issue c) = run-stays c

    pub step-stays : Moves staying (step src d)
    unfolding step
    step-stays =
        bind-Moves next_seq-stays (λ n. bind-Moves (look-stays _) (λ c. carry_out-stays n c))
