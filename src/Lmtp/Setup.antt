-- ===== src/Lmtp/Setup.antt =====
-- What `New` of the delivery driver (internal/lmtp/lmtp.go) puts in place.
use yarilo_loadtest.Base.{◌<◌, arith, length, pos_part}
use yarilo_loadtest.Lmtp.{Config, with_defaults}

abbrev pub IsReady : Config → Type 0
IsReady c =
    (0 < length c.recipients) × (0 < pos_part c.recipients_per_message) × (0 < pos_part c.timeout)

pub with_defaults-IsReady : (c : Config) → 0 < length c.recipients → IsReady (with_defaults c)
unfolding with_defaults
with_defaults-IsReady c h = (h, ground arith, ground arith)
