-- ===== src/Pop3/Setup.antt =====
-- What `New` of the POP3 driver (internal/pop3drv/pop3.go) lets through.
use yarilo_loadtest.Base.{◌≡◌, ◌<◌, arith, length, pos, pos_part, ◌≤ℤ◌}
use yarilo_loadtest.Base.Result.{ok, Yields}
use yarilo_loadtest.Pop3.{Config, new}

abbrev pub IsReady : Config → Type 0
IsReady c = (0 < length c.users) × (pos 0 ≤ℤ c.messages_per_session) × (0 < pos_part c.timeout)

new-IsReady : (c d : Config) → new c ≡ ok d → IsReady d
unfolding new
new-IsReady c d h = ground (arith, h)

pub new-Yields : (c : Config) → Yields IsReady (new c)
new-Yields c = record { yields = new-IsReady c }
