-- ===== src/Imap/Session/Prepare.antt =====
-- What an IMAP driver does before a run (internal/imapdrv/driver.go: Prepare): it creates the mailboxes of
-- every user.
use yarilo_loadtest.Base.{ℕ, ◌+◌, Bool, List, [], ◌∷◌, Bytes, codes, if◌then◌else◌}
use yarilo_loadtest.Text.{equal_fold}
use yarilo_loadtest.Corpus.{Source}
use yarilo_loadtest.Net.Monad.{◌>>=◌, ◌>>◌, return, fail}
use yarilo_loadtest.Imap.Client.{login_failed, create_failed, cut_off, Texts, login, create}
use yarilo_loadtest.Imap.Session.Settings.{Driver}
use yarilo_loadtest.Imap.Session.{Code, dial, wrapped}

module _ (src : Source) (d : Driver) where
  -- the loop of `Prepare` over the mailboxes of a user
  unfoldable pub create_loop : Texts → (user : Bytes) → List Bytes → Code src (Unit {0})
  create_loop t user [] = return tt
  create_loop t user (mbox ∷ more) =
      let rest = create_loop t user more in
      if equal_fold mbox (codes "INBOX")
      then rest
      else wrapped src (create_failed mbox user) (create t mbox) >> rest

  -- one user of `Prepare`
  unfoldable pub prepare_user : Texts → (user : Bytes) → Code src (Unit {0})
  prepare_user t user = do
    dial src
    lines ← wrapped src (login_failed user) (login user d.cfg.password)
    create_loop t user d.mailboxes

  -- the loop of `Prepare` over the users; `ended` says whether the context has ended when so many of
  -- them are done
  unfoldable pub prepare_loop : Texts → (ended : ℕ → Bool) → ℕ → List Bytes → Code src (Unit {0})
  prepare_loop t ended n [] = return tt
  prepare_loop t ended n (user ∷ more) =
      let rest = prepare_loop t ended (n + 1) more in
      if ended n then fail cut_off else prepare_user t user >> rest

  -- `Prepare`
  unfoldable pub prepare : Texts → (ended : ℕ → Bool) → Code src (Unit {0})
  prepare t ended = if d.cfg.create_mailboxes then prepare_loop t ended 0 d.cfg.users else return tt
