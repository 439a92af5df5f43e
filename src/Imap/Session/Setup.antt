-- ===== src/Imap/Session/Setup.antt =====
-- What `New` of the IMAP driver (internal/imapdrv/driver.go) lets through.
use yarilo_loadtest.Base.{◌≡◌, ◌<◌, pos, arith, length, pos_part, ◌≤ℤ◌, ℕ, zero, suc}
use yarilo_loadtest.Base.Result.{ok, Yields}
use yarilo_loadtest.Imap.Session.Settings.{
  Config, Driver, load_mailboxes, mailbox_set, with_defaults, weighted_driver, new,
}

abbrev pub IsReady : Driver → Type 0
IsReady d =
    (0 < length d.cfg.users)
    × (0 < length d.mailboxes)
    × (0 < length d.weights)
    × (pos 0 ≤ℤ d.cfg.target_messages)
    × (0 < pos_part d.cfg.timeout)

load_mailboxes-some : (n i : ℕ) → 0 < n → 0 < length (load_mailboxes n i)
unfolding load_mailboxes
load_mailboxes-some zero i h = h
load_mailboxes-some (suc n) i h = omega arith

mailbox_set-some : (c : Config) → 0 < length (mailbox_set c)
unfolding mailbox_set
mailbox_set-some c = ground (arith, load_mailboxes-some (pos_part c.mailboxes_per_user) 1)

weighted_driver-kept :
    (c : Config) (d : Driver)
    → weighted_driver c ≡ ok d
    → (d.cfg ≡ c) × (0 < length d.mailboxes) × (0 < length d.weights)
unfolding weighted_driver
weighted_driver-kept c d h =
    (ground (arith, h), ground (arith, h, mailbox_set-some c), ground (arith, h))

new-IsReady : (c : Config) (d : Driver) → new c ≡ ok d → IsReady d
unfolding new with_defaults
new-IsReady c d h =
    let kept : weighted_driver (with_defaults c) ≡ ok d = ground (arith, h) in
    let made = weighted_driver-kept (with_defaults c) d kept in
    ground (arith, h, made.0, made.1, made.2)

pub new-Yields : (c : Config) → Yields IsReady (new c)
new-Yields c = record { yields = new-IsReady c }
