-- ===== src/Imap/Session/Settings.antt =====
-- What an IMAP driver is set to (internal/imapdrv/driver.go: Config, New).
use yarilo_loadtest.Net.{Conn}
use yarilo_loadtest.Net.Dial.{Network, target}
use yarilo_loadtest.Base.{
  Option, ℕ, zero, suc, ◌+◌, Bool, List, [], ◌∷◌, ◌++◌, Bytes, codes, ltb, if◌then◌else◌, ℤ, pos,
  negsuc, pos_part, is_nonpos,
}
use yarilo_loadtest.Base.Result.{Result, ok, err}
use yarilo_loadtest.Text.Number.{print_nat}
use yarilo_loadtest.Imap.Profile.{Profile, default_profile, is_zero_profile, Weighted, weights}

pub record Config : Type 0 where
  pub addr : Bytes
  pub users : List Bytes
  pub password : Bytes
  pub tls : Bool
  pub insecure : Bool
  pub timeout : ℤ
  pub mailboxes : List Bytes
  pub mailboxes_per_user : ℤ
  pub create_mailboxes : Bool
  pub target_messages : ℤ
  pub profile : Profile

-- `dial`, up to its deadline
unfoldable pub dial_server : Network → Config → Option Conn
dial_server net c = net.reach (target net c.tls c.insecure c.addr c.timeout)

pub data BadConfig : Type 0 where
  no_users negative_target no_weights : BadConfig

-- what `New` makes of its configuration
pub record Driver : Type 0 where
  pub cfg : Config
  pub mailboxes : List Bytes
  pub weights : List Weighted

-- `for i := 1; i <= cfg.MailboxesPerUser; i++`, with the rounds left
unfoldable pub load_mailboxes : ℕ → ℕ → List Bytes
load_mailboxes zero i = []
load_mailboxes (suc left) i = (codes "Load" ++ print_nat i) ∷ load_mailboxes left (i + 1)

-- the switch of `New`
unfoldable pub mailbox_set : Config → List Bytes
mailbox_set c = elim c.mailboxes [
  | mbox ∷ more ↦ mbox ∷ more
  | [] ↦
      if ltb 0 (pos_part c.mailboxes_per_user)
      then load_mailboxes (pos_part c.mailboxes_per_user) 1
      else codes "INBOX" ∷ []
]

-- the values that `New` puts in place of those that were left out
unfoldable pub with_defaults : Config → Config
with_defaults c = record c {
  timeout = if is_nonpos c.timeout then pos 30_000_000_000 else c.timeout;
  profile = if is_zero_profile c.profile then default_profile else c.profile;
}

-- the end of `New`
unfoldable pub weighted_driver : Config → Result BadConfig Driver
weighted_driver c = elim (weights c.profile) [
  | [] ↦ err no_weights
  | w ∷ ws ↦ ok (record { cfg = c; mailboxes = mailbox_set c; weights = w ∷ ws })
]

-- `New`
unfoldable pub new : Config → Result BadConfig Driver
new c = elim c.users [
  | [] ↦ err no_users
  | u ∷ us ↦ elim c.target_messages [
    | negsuc n ↦ err negative_target
    | pos n ↦ weighted_driver (with_defaults c)
  ]
]
