-- ===== src/Net/Dial.antt =====
-- What the drivers dial (internal/pop3drv/pop3.go, internal/imapdrv/client.go: dial; internal/lmtp/lmtp.go:
-- Deliver).
use yarilo_loadtest.Base.{Bool, Option, none, some, Bytes, if◌then◌else◌, ℤ}
use yarilo_loadtest.Net.{Conn}

pub data Transport : Type 0 where
  clear : Transport
  secured : (server_name : Bytes) → (insecure : Bool) → Transport

pub record Target : Type 0 where
  pub transport : Transport
  pub addr : Bytes
  pub timeout : ℤ

-- Other packages' part at one moment: the host that `net.SplitHostPort` finds, and the connection that
-- dialling gives.
pub record Network : Type 0 where
  pub host_of : Bytes → Option Bytes
  pub reach : Target → Option Conn

-- what a driver dials that may use TLS
unfoldable pub target : Network → (tls insecure : Bool) → (addr : Bytes) → (timeout : ℤ) → Target
target net tls insecure addr timeout = record {
  transport =
      if tls
      then secured (elim (net.host_of addr) [ none ↦ addr | some host ↦ host ]) insecure
      else clear;
  addr = addr;
  timeout = timeout;
}
