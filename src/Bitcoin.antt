-- ===== src/Bitcoin.antt =====
-- The types of the crate `bitcoin` and of `std::net` that the adaptor handles, with the fields that
-- it reads, and the functions of the crates `bitcoin`, `btc_validation` and `rand` that it calls:
-- these are the fields of `BitcoinLib`, a parameter of the development.
use bitcoin_adaptor.Base.{ℕ, ◌≡◌, ◌≢◌, sym, Bool, Option, List, ℕ_discrete}

-- 256-bit hashes are read as numbers; only their equality matters.
abbrev pub BlockHash : Type 0
BlockHash = ℕ

abbrev pub Txid : Type 0
Txid = ℕ

abbrev pub hash_eq : Discrete BlockHash
hash_eq = ℕ_discrete

-- `BlockHash::default()`, the hash of zeros.
abbrev pub default_hash : BlockHash
default_hash = 0

pub data Network : Type 0 where
  bitcoin testnet signet regtest : Network

-- `std::net::SocketAddr`: an address and a port.
pub data SocketAddr : Type 0 where
  v4 v6 : ℕ → ℕ → SocketAddr

v4-injective : (a b p q : ℕ) → v4 a p ≡ v4 b q → (a ≡ b) × (p ≡ q)
v4-injective a b p q e = (cc, cc)

v6-injective : (a b p q : ℕ) → v6 a p ≡ v6 b q → (a ≡ b) × (p ≡ q)
v6-injective a b p q e = (cc, cc)

v4-ne-v6 : (a b p q : ℕ) → v4 a p ≢ v6 b q
v4-ne-v6 a b p q e = cc

-- Written out, so that it computes in tests.
both_eq :
    (f : ℕ → ℕ → SocketAddr) (a b p q : ℕ)
    → (f a p ≡ f b q → (a ≡ b) × (p ≡ q))
    → Dec (f a p ≡ f b q)
both_eq f a b p q injective = elim (ℕ_discrete a b) [
  | no n ↦ no (λ e. n (injective e).0)
  | yes e ↦ elim (ℕ_discrete p q) [
    | no n ↦ no (λ e'. n (injective e').1)
    | yes e' ↦ yes (λ i. f (e i) (e' i))
  ]
]

unfoldable pub addr_eq : Discrete SocketAddr
unfolding both_eq v4-injective v6-injective v4-ne-v6
addr_eq (v4 a p) (v4 b q) = both_eq v4 a b p q (v4-injective a b p q)
addr_eq (v6 a p) (v6 b q) = both_eq v6 a b p q (v6-injective a b p q)
addr_eq (v4 a p) (v6 b q) = no (v4-ne-v6 a b p q)
addr_eq (v6 a p) (v4 b q) = no (λ e. v4-ne-v6 b a q p (sym e))

abbrev pub is_ipv4 : SocketAddr → Bool
is_ipv4 (v4 ip port) = Bool.true
is_ipv4 (v6 ip port) = Bool.false

abbrev pub is_ipv6 : SocketAddr → Bool
is_ipv6 (v4 ip port) = Bool.false
is_ipv6 (v6 ip port) = Bool.true

pub record BlockHeader : Type 0 where
  pub version : ℕ
  pub prev_blockhash : BlockHash
  pub merkle_root : ℕ
  pub time : ℕ
  pub bits : ℕ
  pub nonce : ℕ

-- A transaction is read as its consensus encoding.
abbrev pub Transaction : Type 0
Transaction = List ℕ

-- `BlockHeight` is a `u32`.
abbrev pub minimum_version_number : ℕ
minimum_version_number = 70001

pub record Block : Type 0 where
  pub header : BlockHeader
  pub txdata : List Transaction

-- The variants that the source never names are one constructor, `other`.
pub data Inventory : Type 0 where
  transaction : Txid → Inventory
  block : BlockHash → Inventory
  other : ℕ → Inventory

-- `network::Address`: its services, and the result of `socket_addr()`.
pub record Address : Type 0 where
  pub services : ℕ
  pub socket_addr : Option SocketAddr

-- `version`, `services` and `start_height` are the fields that the adaptor validates. A `start_height`
-- of type `i32` is read as its bit pattern.
pub record VersionMessage : Type 0 where
  pub version : ℕ
  pub services : ℕ
  pub start_height : ℕ

pub record GetHeadersMessage : Type 0 where
  pub locator_hashes : List BlockHash
  pub stop_hash : BlockHash
  pub version : ℕ

pub data NetworkMessage : Type 0 where
  version : VersionMessage → NetworkMessage
  verack : NetworkMessage
  addr : List (ℕ × Address) → NetworkMessage
  inv : List Inventory → NetworkMessage
  get_data : List Inventory → NetworkMessage
  get_headers : GetHeadersMessage → NetworkMessage
  headers : List BlockHeader → NetworkMessage
  block : Block → NetworkMessage
  tx : Transaction → NetworkMessage
  ping : ℕ → NetworkMessage
  pong : ℕ → NetworkMessage
  get_addr : NetworkMessage
  unknown : NetworkMessage
  other : ℕ → NetworkMessage

-- The trait `HeaderStore` of `btc_validation`, through which `validate_header` reads the cache.
pub record HeaderStore : Type 0 where
  pub get_header : BlockHash → Option (BlockHeader × ℕ)
  pub get_height : ℕ
  pub get_initial_hash : BlockHash

pub record BitcoinLib : Type 0 where
  pub block_hash : BlockHeader → BlockHash
  pub work : BlockHeader → ℕ
  -- `+` of `Uint256`
  pub add_work : ℕ → ℕ → ℕ
  pub genesis_block : Network → Block
  -- `compute_merkle_root().is_some()` and `check_merkle_root()`
  pub has_merkle_root : Block → Bool
  pub check_merkle_root : Block → Bool
  pub size : Block → ℕ
  -- the error, if the header is invalid
  pub validate_header : Network → HeaderStore → BlockHeader → Option ℕ
  pub is_beyond_last_checkpoint : Network → ℕ → Bool
  pub txid : Transaction → Txid
  pub deserialize_tx : List ℕ → Option Transaction
  -- `services.has(ServiceFlags::NETWORK)`
  pub has_network_service : ℕ → Bool
  -- the version that `VersionMessage::new` fills in
  pub protocol_version : ℕ
