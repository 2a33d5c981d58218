-- ===== src/Adapter/Channels.antt =====
-- src/lib.rs: what the managers do to the state behind a `Channel`. They reach it only through `send`
-- and `discard`, so that whatever those keep, a manager keeps.
use bitcoin_adaptor.Base.{List, ◌∷◌}
use bitcoin_adaptor.Bitcoin.{SocketAddr}
use bitcoin_adaptor.Adapter.{Command, Channel}

-- Sending the commands of `Q`, and discarding, keep `P`.
pub record IsKept {C : Type 0} (channel : Channel C) (Q : Command → Type 0) (P : C → Type 0)
    : Type 0 where
  pub sent : (command : Command) → Q command → (c : C) → P c → P (channel.send command c)
  pub discarded : (a : SocketAddr) (c : C) → P c → P (channel.discard a c)

abbrev pub IsAny : Command → Type 0
IsAny command = Unit

-- A channel to some peers that records what is sent, latest first.
abbrev pub recorder : List SocketAddr → Channel (List Command)
recorder peers = record {
  send = λ command sent. command ∷ sent;
  available_connections = λ sent. peers;
  discard = λ a sent. sent;
}
