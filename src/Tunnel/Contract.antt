-- ===== src/Tunnel/Contract.antt =====
-- internal/tunnel/tunnel.go: the types of the tunnel contract.
use r1s.Base.{ℕ, Bytes}

-- The port is a uint16.
pub record Target : Type 0 where
  pub port : ℕ

pub record Endpoint : Type 0 where
  pub address : Bytes
  pub pub_key : Bytes

abbrev pub max_peer_key_size : ℕ
max_peer_key_size = 64
