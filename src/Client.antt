-- ===== src/Client.antt =====
-- src/worker.h: the part of a client connection that the packet path reads, and the settings of the
-- server. Each flag bit that the code tests is a Boolean, and `validated` is whether it is not 0.
use aprsc.Prelude.{ℕ, Bool, Bytes}

-- `CStateEnum`
pub data ClientState : Type 0 where
  init udp login logresp connected corepeer : ClientState

pub record Client : Type 0 where
  pub state : ClientState
  pub validated : Bool
  pub username : Bytes
  pub addr_hex : Bytes
  pub quirks_mode : Bool
  pub no_tx : Bool
  -- CLFLAGS_INPORT and so on
  pub inport : Bool
  pub uplinkport : Bool
  pub udpsubmit : Bool
  pub fullfeed : Bool
  pub dupefeed : Bool
  pub clientonly : Bool
  pub igate : Bool

pub record Server : Type 0 where
  pub serverid : Bytes
  pub q_protocol_id : ℕ
  pub disallow_unverified : Bool
  pub disallow_other_protocol_id : Bool
