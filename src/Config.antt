-- ===== src/Config.antt =====
-- src/config.rs: the configuration. The one of the logger is left out, and texts and paths are read
-- as their bytes.
use bitcoin_adaptor.Base.{ℕ, Bool, false, Option, none, List, []}
use bitcoin_adaptor.Bitcoin.{Network, bitcoin, testnet, SocketAddr}

pub data IncomingSource : Type 0 where
  systemd : IncomingSource
  path : List ℕ → IncomingSource

pub record Config : Type 0 where
  pub network : Network
  pub dns_seeds : List (List ℕ)
  pub nodes : List SocketAddr
  pub socks_proxy : Option (List ℕ)
  pub idle_seconds : ℕ
  pub ipv6_only : Bool
  pub incoming_source : IncomingSource

abbrev pub default_idle_seconds : ℕ
default_idle_seconds = 3600

abbrev pub network_port : Config → ℕ
network_port c = elim c.network [ bitcoin ↦ 8333 | testnet ↦ 18333 | _ ↦ 8333 ]

-- `impl Default for Config`
abbrev pub default_config : Config
default_config = record {
  network = bitcoin;
  dns_seeds = [];
  nodes = [];
  socks_proxy = none;
  idle_seconds = default_idle_seconds;
  ipv6_only = false;
  incoming_source = systemd;
}
