-- ===== src/Samples.antt =====
-- Concrete parameters and states for the tests: headers are told apart by their nonce, every header
-- is valid and has its bits for work.
use bitcoin_adaptor.Base.{
  ℕ, ◌+◌, ◌%◌, ◌^◌, true, false, Option, none, some, List, [], ◌∷◌, ltb, length,
}
use bitcoin_adaptor.Bitcoin.{regtest, BlockHash, BlockHeader, Block, BitcoinLib, SocketAddr, v4}
use bitcoin_adaptor.Adapter.{Command, Channel}
use bitcoin_adaptor.AddressBook.{Environment}
use bitcoin_adaptor.Config.{Config, systemd}

abbrev pub header : ℕ → BlockHash → BlockHeader
header nonce prev = record {
  version = 1;
  prev_blockhash = prev;
  merkle_root = 0;
  time = 0;
  bits = 2;
  nonce = nonce;
}

abbrev pub block : ℕ → BlockHash → Block
block nonce prev = record { header = header nonce prev; txdata = [] }

abbrev pub lib : BitcoinLib
lib = record {
  block_hash = λ h. h.nonce;
  work = λ h. h.bits;
  add_work = λ a b. (a + b) % 2 ^ 256;
  genesis_block = λ n. block 1 0;
  has_merkle_root = λ b. true;
  check_merkle_root = λ b. true;
  size = λ b. 300;
  validate_header = λ n store h. none;
  is_beyond_last_checkpoint = λ n h. true;
  txid = λ t. length t;
  deserialize_tx = λ raw. some raw;
  has_network_service = λ s. ltb 0 s;
  protocol_version = 70001;
}

abbrev pub peer : ℕ → SocketAddr
peer n = v4 n 8333

abbrev pub first : List SocketAddr → Option SocketAddr
first [] = none
first (a ∷ as') = some a

abbrev pub env : Environment
env = record {
  to_socket_addrs = λ s port. peer 9 ∷ [];
  shuffle = λ as'. as';
  choose = first;
  gen = λ s. (s, s + 1);
  is_system_time_behind = false;
}

abbrev pub config : Config
config = record {
  network = regtest;
  dns_seeds = [];
  nodes = peer 1 ∷ peer 2 ∷ [];
  socks_proxy = none;
  idle_seconds = 60;
  incoming_source = systemd;
  ipv6_only = false;
}

-- A channel that records what is sent, latest first, to two peers.
abbrev pub Log : Type 0
Log = List Command

abbrev pub log : Channel Log
log = record {
  send = λ c sent. c ∷ sent;
  available_connections = λ sent. peer 1 ∷ peer 2 ∷ [];
  discard = λ a sent. sent;
}
