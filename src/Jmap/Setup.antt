-- ===== src/Jmap/Setup.antt =====
-- What `New` of the JMAP driver (internal/jmapdrv/jmap.go) lets through.
use yarilo_loadtest.Base.{◌≡◌, ◌<◌, arith, length, pos_part}
use yarilo_loadtest.Base.Result.{ok, Yields}
use yarilo_loadtest.Jmap.Settings.{Config, new}

abbrev pub IsReady : Config → Type 0
IsReady c = (0 < length c.users) × (0 < pos_part c.window) × (0 < pos_part c.timeout)

new-IsReady : (c d : Config) → new c ≡ ok d → IsReady d
unfolding new
new-IsReady c d h = ground (arith, h)

pub new-Yields : (c : Config) → Yields IsReady (new c)
new-Yields c = record { yields = new-IsReady c }
