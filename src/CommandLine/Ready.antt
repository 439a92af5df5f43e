-- ===== src/CommandLine/Ready.antt =====
-- What `main` (main.go) makes sure of before it starts a run.
use yarilo_loadtest.Base.{◌≡◌, ◌<◌, List, [], ◌∷◌, codes, ◌==◌, Bytes, Option, arith, length}
use yarilo_loadtest.Base.Result.{
  ok, err, map_err, Yields, ok-Yields, err-Yields, any-Yields, map_err-Yields, bind-Yields,
  if-Yields,
}
use yarilo_loadtest.Corpus.Mbox.{Mbox, File}
use yarilo_loadtest.Corpus.Generator.{Platform}
use yarilo_loadtest.Text.{bytes_eq, to_lower}
use yarilo_loadtest.Recipients.{expand_recipients}
use yarilo_loadtest.Imap.Profile.{parse_profile}
use yarilo_loadtest.Lmtp.{with_defaults}
use yarilo_loadtest.Lmtp.Setup as LmtpSetup
use yarilo_loadtest.Pop3.Setup as Pop3Setup
use yarilo_loadtest.Jmap.Setup as JmapSetup
use yarilo_loadtest.Imap.Session.Setup as ImapSetup
use yarilo_loadtest.CommandLine.{
  Flags, nobody, bad_part, bad_profile, bad_pop3, bad_imap, bad_jmap, Plan, lmtp, imap, pop3, jmap,
  somebody, run_lmtp, run_imap, run_pop3, run_jmap, dispatch, message_source, options, origin,
  generated, pop3_config, jmap_config, imap_config, lmtp_config, plan,
}

abbrev IsSome : List Bytes → Type 0
IsSome all = 0 < length all

somebody-IsSome : (flag spec : Bytes) → Yields IsSome (somebody flag spec)
unfolding somebody
somebody-IsSome flag spec =
    bind-Yields (any-Yields (map_err bad_part (expand_recipients flag spec))) (λ all h. checked all)
  where
    checked :
        (all : List Bytes)
        → Yields IsSome (elim all [ [] ↦ err (nobody flag) | a ∷ more ↦ ok (a ∷ more) ])
    checked [] = err-Yields
    checked (a ∷ more) = ok-Yields (a ∷ more) (omega arith)

module _ {p : Platform} where
  -- A driver with an address at least, and with limits that its loops and its rotation need.
  abbrev pub IsReady : Plan p → Type 0
  IsReady (lmtp c o options) = LmtpSetup.IsReady c
  IsReady (imap d o options) = ImapSetup.IsReady d
  IsReady (pop3 c options) = Pop3Setup.IsReady c
  IsReady (jmap c clients options) = JmapSetup.IsReady c

  run_pop3-IsReady : (f : Flags p) → Yields IsReady (run_pop3 f)
  unfolding run_pop3
  run_pop3-IsReady f = bind-Yields (somebody-IsSome (codes "-users") f.users) (λ users some.
      let made = map_err-Yields bad_pop3 (Pop3Setup.new-Yields (pop3_config f users)) in
      bind-Yields made (λ c ready. ok-Yields (pop3 c (options f)) ready))

  run_jmap-IsReady : (f : Flags p) → Yields IsReady (run_jmap f)
  unfolding run_jmap
  run_jmap-IsReady f = bind-Yields (somebody-IsSome (codes "-users") f.users) (λ users some.
      let made = map_err-Yields bad_jmap (JmapSetup.new-Yields (jmap_config f users)) in
      bind-Yields made (λ c ready. ok-Yields (jmap c f.concurrency (options f)) ready))

  run_imap-IsReady : (f : Flags p) (src : Option Mbox) → Yields IsReady (run_imap f src)
  unfolding run_imap
  run_imap-IsReady f src = bind-Yields (somebody-IsSome (codes "-users") f.users) (λ users some.
      bind-Yields (any-Yields (map_err bad_profile (parse_profile f.profile))) (λ profile parsed.
        let made = map_err-Yields bad_imap (ImapSetup.new-Yields (imap_config f users profile)) in
        bind-Yields made (λ d ready. ok-Yields (imap d (generated f.corpus) (options f)) ready)))

  run_lmtp-IsReady : (f : Flags p) (src : Option Mbox) → Yields IsReady (run_lmtp f src)
  unfolding run_lmtp lmtp_config
  run_lmtp-IsReady f src =
      bind-Yields (somebody-IsSome (codes "-recipients") f.recipients) (λ rcpts some.
        ok-Yields (lmtp (with_defaults (lmtp_config f rcpts)) (origin f src) (options f))
          (LmtpSetup.with_defaults-IsReady (lmtp_config f rcpts) some))

  dispatch-IsReady : (f : Flags p) (src : Option Mbox) → Yields IsReady (dispatch f src)
  unfolding dispatch
  dispatch-IsReady f src =
      let name = to_lower f.protocol in
      if-Yields (bytes_eq name (codes "lmtp")) (run_lmtp-IsReady f src) (
        if-Yields (bytes_eq name (codes "imap")) (run_imap-IsReady f src) (
          if-Yields (bytes_eq name (codes "pop3")) (run_pop3-IsReady f) (
            if-Yields (bytes_eq name (codes "jmap")) (run_jmap-IsReady f)
              (if-Yields (length name == 0) err-Yields err-Yields))))

  -- A run that `main` starts has at least one address to work for, a positive timeout, and what its
  -- driver needs besides: at least one recipient for each delivery; for IMAP at least one mailbox and one
  -- weighted command, and a target that is not negative; for POP3 a number of retrievals that is not
  -- negative; for JMAP a positive window.
  pub plan-IsReady :
      (files : Bytes → File) (f : Flags p) (started : Plan p)
      → plan files f ≡ ok started
      → IsReady started
  unfolding plan
  plan-IsReady files f started h =
      let all = if-Yields (length f.addr == 0) err-Yields (
        bind-Yields (any-Yields (message_source files f)) (λ src loaded. dispatch-IsReady f src)) in
      all.yields started h
