-- ===== src/Adapter.antt =====
-- src/lib.rs: what the components share: commands, the interface `Channel`, the requests of the gRPC
-- side, and the idle state.
pub mod Channels
use bitcoin_adaptor.Base.{ℕ, ◌-◌, ◌/◌, Bool, true, Option, none, some, List, ltb}
use bitcoin_adaptor.Bitcoin.{SocketAddr, NetworkMessage, BlockHeader, BlockHash}

-- Without an address a command goes to all peers.
pub record Command : Type 0 where
  pub address : Option SocketAddr
  pub message : NetworkMessage

-- `ProcessBitcoinNetworkMessageError`
pub data ProcessError : Type 0 where
  invalid_message : ProcessError

-- The trait `Channel`, over a state `C`. The callers drop the result of `send`.
pub record Channel (C : Type 0) : Type 0 where
  pub send : Command → C → C
  pub available_connections : C → List SocketAddr
  pub discard : SocketAddr → C → C

pub data BlockchainManagerRequest : Type 0 where
  enqueue_new_blocks_to_download : List BlockHeader → BlockchainManagerRequest
  prune_blocks : BlockHash → List BlockHash → BlockchainManagerRequest

pub record AdapterState : Type 0 where
  pub last_received_at : Option ℕ
  pub idle_seconds : ℕ

abbrev pub new : ℕ → AdapterState
new idle_seconds = record { last_received_at = none; idle_seconds = idle_seconds }

-- `elapsed().as_secs()` of an `Instant`, in nanoseconds, which does not run backwards.
abbrev pub elapsed_secs : ℕ → ℕ → ℕ
elapsed_secs now t = (now - t) / 1_000_000_000

unfoldable pub is_idle : ℕ → AdapterState → Bool
is_idle now s = elim s.last_received_at [
  | some last ↦ ltb s.idle_seconds (elapsed_secs now last)
  | none ↦ true
]

unfoldable pub received_now : ℕ → AdapterState → AdapterState
received_now now s = record s { last_received_at = some now }
