-- ===== src/Net/Interfaces.antt =====
-- net.Interfaces as data: what the system reports, which the proxy only reads.
use mitm_proxy.Base.{Bool, List}
use mitm_proxy.Text.{Bytes}
use mitm_proxy.Http.Error.{Result}

-- An address: the text of an IPv4 network address, or anything else.
pub data Addr : Type 0 where
  ipv4 : Bytes → Addr
  other_addr : Addr

pub record Interface : Type 0 where
  pub is_up : Bool
  pub is_loopback : Bool
  pub addrs : Result (List Addr)
