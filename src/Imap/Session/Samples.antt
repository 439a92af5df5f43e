-- ===== src/Imap/Session/Samples.antt =====
-- What the commands of a session report to the statistics (internal/imapdrv/driver.go).
use yarilo_loadtest.Base.{
  inl, inr, Option-cases, get_or, ◌%◌, index_of-counter, ap₂, sym, ℕ, ◌<◌, ◌^◌, ◌≡◌, refl, ◌∙◌,
  append_assoc, List, [], ◌∷◌, ◌++◌, Option, none, some, Bytes, codes, arith, length,
}
use yarilo_loadtest.Base.Result.{Result, ok, err}
use yarilo_loadtest.Corpus.{Source}
use yarilo_loadtest.Net.{Session, Sample}
use yarilo_loadtest.Net.Monad.{M, ◌>>=◌, ◌>>◌, observed}
use yarilo_loadtest.Imap.Profile.{
  Command, list, status, select, fetch, fetch2, store, delete, expunge, search_text, noop, append,
  logout, name,
}
use yarilo_loadtest.Imap.View.{check_mismatch}
use yarilo_loadtest.Imap.Client.{Error, quoted, Linked}
use yarilo_loadtest.Imap.Client.Plain.{
  counted, Keeps, IsPlain, bind-IsPlain, return-IsPlain, on_shared-IsPlain, perform-IsPlain,
  append_message-IsPlain,
}
use yarilo_loadtest.Imap.Session.{
  Local, run, run_plain, exchange, say, append_one, select_mailbox, mailbox_at, verify, next_seq,
  change, look, command_text, draw_body,
}
use yarilo_loadtest.Imap.Session.Settings.{Driver}

abbrev pub sample : Command → Option Error → Sample Error
sample c e = record { name = name c; failure = e }

-- what a command reports
abbrev pub sampled : Command → Option Error → List (Sample Error)
sampled select e = sample select none ∷ sample select e ∷ []
sampled c e = sample c e ∷ []

abbrev extend : Command → List (Sample Error) → Option Error → List (Sample Error)
extend c before e = before ++ sample c e ∷ []

module _ {D : Type 0} where
  -- A step behind a report: it reports nothing, and its error counts for nothing.
  record IsSilent (m : M Error D (Unit {0})) : Type 0 where
    silent : (s : Session Error D) → ((m s).1.samples ≡ s.samples) × (counted (m s).0 ≡ none)

  -- Code that reports once, under the name of a command.
  record Reports (c : Command) (m : M Error D (Unit {0})) : Type 0 where
    reports : (s : Session Error D) → (m s).1.samples ≡ extend c s.samples (counted (m s).0)

  -- what follows the report of a command
  abbrev reported :
      {A : Type 0}
      → Command
      → (A → M Error D (Unit {0}))
      → Result Error A × Session Error D
      → Result Error (Unit {0}) × Session Error D
  reported c f (r, s) = (observed (name c) (λ _. (r, s)) >>= f) s

  reported-samples :
      {A : Type 0} (c : Command) (f : A → M Error D (Unit {0})) (s : Session Error D)
      (p : Result Error A × Session Error D)
      → Keeps s p
      → ((a : A) → IsSilent (f a))
      → (reported c f p).1.samples ≡ extend c s.samples (counted (reported c f p).0)
  reported-samples c f s (ok a, s') h hf =
      let after = (hf a).silent (record s' { samples = s'.samples ++ sample c none ∷ [] }) in
      after.0 ∙ ap₂ (extend c) h.0 (sym after.1)
  reported-samples c f s (err e, s') h hf = ap₂ (extend c) h.0 (sym h.1)

  observed-Reports :
      {A : Type 0} {m : M Error D A} {f : A → M Error D (Unit {0})} (c : Command)
      → IsPlain m
      → ((a : A) → IsSilent (f a))
      → Reports c (observed (name c) m >>= f)
  observed-Reports {m = m} {f = f} c hm hf = record {
    reports = λ s. reported-samples c f s (m s) (hm.keeps s) hf;
  }

module _ (src : Source) where
  verify-IsSilent : IsSilent (verify src)
  unfolding verify change look
  verify-IsSilent = record {
    silent = λ s. elim (Option-cases (check_mismatch s.shared.rest.view).0) [
      | inl calm ↦ ground (arith, calm)
      | inr (m, found) ↦ ground (arith, found)
    ];
  }

  change-IsSilent :
      {m : M Error (Linked (Local src)) (Unit {0})} (f : Local src → Local src)
      → IsSilent m
      → IsSilent (change src f >> m)
  unfolding change
  change-IsSilent f hm = record {
    silent = λ s. hm.silent (record s { shared = record s.shared { rest = f s.shared.rest } });
  }

  look-IsPlain : {A : Type 0} (f : Local src → A) → IsPlain (look src f)
  unfolding look
  look-IsPlain f = on_shared-IsPlain (λ l. (f l.rest, l))

  change-IsPlain : (f : Local src → Local src) → IsPlain (change src f)
  unfolding change
  change-IsPlain f = on_shared-IsPlain (λ l. (tt, record l { rest = f l.rest }))

  draw_body-IsPlain : IsPlain (draw_body src)
  unfolding draw_body
  draw_body-IsPlain = on_shared-IsPlain (λ l.
      let (msg, c) = src.generate (codes "loadtest@yarilo.invalid") l.rest.user l.rest.corpus in
      (msg, record l { rest = record l.rest { corpus = c } }))

  module _ (d : Driver) where
    say-IsPlain : (c : Command) → IsPlain (say src d c)
    unfolding say
    say-IsPlain c = bind-IsPlain (look-IsPlain _) (λ v. perform-IsPlain (command_text src d c v))

    append_one-IsPlain : IsPlain (append_one src d)
    unfolding append_one
    append_one-IsPlain = bind-IsPlain (look-IsPlain (λ l. l.view)) (λ v.
        bind-IsPlain draw_body-IsPlain (λ body.
          bind-IsPlain (append_message-IsPlain v.mailbox body)
            (λ lines. bind-IsPlain (change-IsPlain _) (λ _. return-IsPlain []))))

    exchange-IsPlain : (c : Command) → IsPlain (exchange src d c)
    unfolding exchange
    exchange-IsPlain append = append_one-IsPlain
    exchange-IsPlain logout =
        bind-IsPlain (say-IsPlain logout)
          (λ lines. bind-IsPlain (change-IsPlain _) (λ _. return-IsPlain lines))
    exchange-IsPlain list = say-IsPlain list
    exchange-IsPlain status = say-IsPlain status
    exchange-IsPlain select = say-IsPlain select
    exchange-IsPlain fetch = say-IsPlain fetch
    exchange-IsPlain fetch2 = say-IsPlain fetch2
    exchange-IsPlain store = say-IsPlain store
    exchange-IsPlain delete = say-IsPlain delete
    exchange-IsPlain expunge = say-IsPlain expunge
    exchange-IsPlain search_text = say-IsPlain search_text
    exchange-IsPlain noop = say-IsPlain noop

    run_plain-Reports : (c : Command) → Reports c (run_plain src d c)
    unfolding run_plain
    run_plain-Reports c =
        observed-Reports c (exchange-IsPlain c) (λ lines. change-IsSilent _ verify-IsSilent)

    select_mailbox-Reports : (mbox : Bytes) → Reports select (select_mailbox src d (some mbox))
    unfolding select_mailbox
    select_mailbox-Reports mbox =
        observed-Reports select (perform-IsPlain (codes "SELECT " ++ quoted mbox))
          (λ lines. change-IsSilent _ verify-IsSilent)

    abbrev rotated : ℕ → Bytes
    rotated n = get_or d.mailboxes (n % length d.mailboxes) []

    mailbox_at-counter : (n : ℕ) → n < 2 ^ 63 → mailbox_at src d n ≡ some (rotated n)
    unfolding mailbox_at
    mailbox_at-counter n h = rw (mailbox_at, index_of-counter n (length d.mailboxes) h) refl

    -- A command of a session whose counter has not reached half of its 2^64 values reports exactly once
    -- under its name, and a SELECT a second time, without a failure, in front. What is reported as the
    -- failure is the error that the command returns, except that a mismatch is reported as none.
    pub run-samples :
        (c : Command) (s : Session Error (Linked (Local src)))
        → s.shared.rest.seq < 2 ^ 63
        → (run src d c s).1.samples ≡ s.samples ++ sampled c (counted (run src d c s).0)
    unfolding run next_seq
    run-samples select s h =
        let first = extend select s.samples none in
        let s1 = record s { samples = first; shared = (next_seq src s).1.shared } in
        rw (mailbox_at-counter s.shared.rest.seq h) (
          (select_mailbox-Reports (rotated s.shared.rest.seq)).reports s1
          ∙ append_assoc s.samples (sample select none ∷ []) _)
    run-samples list s h = (run_plain-Reports list).reports s
    run-samples status s h = (run_plain-Reports status).reports s
    run-samples fetch s h = (run_plain-Reports fetch).reports s
    run-samples fetch2 s h = (run_plain-Reports fetch2).reports s
    run-samples store s h = (run_plain-Reports store).reports s
    run-samples delete s h = (run_plain-Reports delete).reports s
    run-samples expunge s h = (run_plain-Reports expunge).reports s
    run-samples search_text s h = (run_plain-Reports search_text).reports s
    run-samples noop s h = (run_plain-Reports noop).reports s
    run-samples append s h = (run_plain-Reports append).reports s
    run-samples logout s h = (run_plain-Reports logout).reports s
