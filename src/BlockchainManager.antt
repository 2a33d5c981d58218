-- ===== src/BlockchainManager.antt =====
-- src/blockchainmanager.rs: the messages of the peers. `Instant::now()` is an argument, in
-- nanoseconds.
pub mod Sync
pub mod Selection
pub mod Effects
pub mod Pruning
pub mod Messages
pub mod Ticks
pub mod Limits
pub mod Known
mod Tests
mod Data
pub use Data.*
use bitcoin_adaptor.Base.{
  ℕ, ◌+◌, ◌-◌, ◌*◌, ◌≡◌, Bool, true, false, not, ◌&&◌, Option, none, some, List, [], ◌∷◌, ◌++◌, ltb,
  leb, ◌==◌, same, if◌then◌else◌, Result, ok, err, length, last, is_empty,
}
use bitcoin_adaptor.Base.Map
use bitcoin_adaptor.Base.Set
use bitcoin_adaptor.Bitcoin.{
  BlockHash, hash_eq, default_hash, BlockHeader, Block, SocketAddr, addr_eq, Inventory,
  NetworkMessage, minimum_version_number, BitcoinLib,
}
use bitcoin_adaptor.Adapter.{Command, Channel, ProcessError, invalid_message, elapsed_secs}
use bitcoin_adaptor.HeaderCache.{HeaderNode}
use bitcoin_adaptor.BlockchainState as State
use bitcoin_adaptor.BlockchainState.{
  BlockchainState, AddHeaderError, invalid_header, prev_header_not_cached,
}
use bitcoin_adaptor.BlockchainState.Locators.{locator_hashes}

abbrev pub new : BlockchainState → BlockchainManager
new blockchain = record {
  blockchain = blockchain;
  peer_info = [];
  getdata_request_info = [];
  getheaders_requests = [];
  catchup_headers = [];
  block_sync_queue = [];
}

unfoldable pub make_idle : BlockchainManager → BlockchainManager
make_idle m = record m {
  blockchain = State.clear_blocks m.blockchain;
  peer_info = [];
  getdata_request_info = [];
  block_sync_queue = [];
}

abbrev pub has_timed_out : ℕ → GetHeadersRequest → Bool
has_timed_out now r = elim r.sent_at [
  | some sent_at ↦ leb getheaders_request_timeout_secs (elapsed_secs now sent_at)
  | none ↦ true
]

abbrev pub is_peer : BlockchainManager → SocketAddr → Bool
is_peer m a = Map.contains_key addr_eq a m.peer_info

abbrev pub has_request : BlockchainManager → SocketAddr → Bool
has_request m a = Map.contains_key addr_eq a m.getheaders_requests

abbrev pub remove_request : SocketAddr → BlockchainManager → BlockchainManager
remove_request a m = record m { getheaders_requests = Map.remove addr_eq a m.getheaders_requests }

abbrev pub getheaders : SocketAddr → Locators → Command
getheaders a locators = record {
  address = some a;
  message = NetworkMessage.get_headers (record {
    locator_hashes = locators.0;
    stop_hash = locators.1;
    version = minimum_version_number;
  });
}

-- The loop of `received_inv_message`: the peer's tip, and the last hash that is not known.
unfoldable pub scan_inv :
    BlockchainState → List Inventory → BlockHash → Option BlockHash → BlockHash × Option BlockHash
scan_inv s [] tip last_block = (tip, last_block)
scan_inv s (Inventory.block hash ∷ rest) tip last_block =
    scan_inv s rest hash (if State.is_block_hash_known s hash then last_block else some hash)
scan_inv s (Inventory.transaction id ∷ rest) tip last_block = scan_inv s rest tip last_block
scan_inv s (Inventory.other k ∷ rest) tip last_block = scan_inv s rest tip last_block

-- The last header that was added, or else the cached header of the last hash.
abbrev pub last_header : BlockchainState → List HeaderNode → BlockHash → Option HeaderNode
last_header s added_headers last_block_hash = elim (last added_headers) [
  | some c ↦ some c
  | none ↦ State.get_cached_header s last_block_hash
]

-- The peer's tip and height only ever rise.
abbrev pub raise_peer : (BlockHeader → BlockHash) → Option HeaderNode → PeerInfo → PeerInfo
raise_peer hash none peer = peer
raise_peer hash (some c) peer =
    if ltb peer.height c.height
    then record peer { tip = hash c.header; height = c.height }
    else peer

-- Any error of a handler makes the message invalid.
abbrev pub processed : {E : Type 0} → Result (Unit {0}) E → Result (Unit {0}) ProcessError
processed (ok _) = ok tt
processed (err e) = err invalid_message

module _ (btc : BitcoinLib) where
  open btc use {block_hash}

  -- What to ask for after a `headers` message: an error, or the locators if there are any.
  unfoldable pub next_locators :
      BlockchainState
      → ℕ
      → Option HeaderNode
      → Option AddHeaderError
      → Result (Option Locators) ReceivedHeadersMessageError
  next_locators s count maybe_last (some (invalid_header h e)) =
      err ReceivedHeadersMessageError.received_invalid_header
  next_locators s count maybe_last (some (prev_header_not_cached stop_hash)) =
      ok (some (locator_hashes btc s, stop_hash))
  next_locators s count none none = ok none
  next_locators s count (some c) none =
      ok
        (if ltb count max_headers_size then none else some (block_hash c.header ∷ [], default_hash))

  -- `received_block_message`: it sends nothing.
  unfoldable pub received_block_message :
      SocketAddr
      → Block
      → BlockchainManager
      → BlockchainManager × Result (Unit {0}) ReceivedBlockMessageError
  unfolding State.add_block
  received_block_message a block m =
      if not (is_peer m a)
      then (m, err ReceivedBlockMessageError.unknown_peer)
      else elim (Map.get hash_eq (block_hash block.header) m.getdata_request_info) [
        | none ↦ (m, err ReceivedBlockMessageError.unknown_block)
        | some request ↦
            let (s, result) = State.add_block btc m.blockchain block in
            (
              record m {
                blockchain = s;
                getdata_request_info =
                    Map.remove hash_eq (block_hash block.header) m.getdata_request_info;
              },
              elim result [
                | ok height ↦ ok tt
                | err e ↦ err ReceivedBlockMessageError.block_not_added
              ],
            )
      ]

  module _ {C : Type 0} (channel : Channel C) where
    unfoldable pub send_getheaders :
        ℕ → SocketAddr → Locators → BlockchainManager → C → BlockchainManager × C
    send_getheaders now a locators m c = if not (is_peer m a) then (m, c) else (
      record m {
        getheaders_requests =
            Map.insert addr_eq a (record { locators = locators; sent_at = some now })
              m.getheaders_requests;
      },
      channel.send (getheaders a locators) c,
    )

    unfoldable pub received_inv_message :
        ℕ
        → SocketAddr
        → List Inventory
        → BlockchainManager
        → C
        → BlockchainManager × C × Result (Unit {0}) ReceivedInvMessageError
    unfolding scan_inv send_getheaders
    received_inv_message now a inventory m c =
        if ltb max_inv_size (length inventory)
        then (m, c, err ReceivedInvMessageError.too_much_inventory)
        else elim (Map.get addr_eq a m.peer_info) [
          | none ↦ (m, c, err ReceivedInvMessageError.unknown_peer)
          | some peer ↦
              let (tip, last_block) = scan_inv m.blockchain inventory peer.tip none in
              let m1 = record m {
                peer_info = Map.insert addr_eq a (record peer { tip = tip }) m.peer_info;
              } in
              elim last_block [
                | none ↦ (m1, c, ok tt)
                | some stop_hash ↦
                    if has_request m1 a
                    then (
                      record m1 { catchup_headers = Set.insert addr_eq a m1.catchup_headers },
                      c,
                      ok tt,
                    )
                    else let (m2, c') =
                        send_getheaders now a (locator_hashes btc m1.blockchain, stop_hash) m1 c in
                      (m2, c', ok tt)
              ]
        ]

    -- From the added headers on, for a peer that is known.
    unfoldable pub accept_headers :
        ℕ
        → SocketAddr
        → PeerInfo
        → List BlockHeader
        → BlockHeader
        → BlockchainManager
        → C
        → BlockchainManager × C × Result (Unit {0}) ReceivedHeadersMessageError
    unfolding State.add_headers next_locators send_getheaders
    accept_headers now a peer headers last_one m c =
        let (s, added_headers, maybe_err) = State.add_headers btc m.blockchain headers in
        let maybe_last = last_header s added_headers (block_hash last_one) in
        let m1 = record m {
          blockchain = s;
          peer_info = Map.insert addr_eq a (raise_peer block_hash maybe_last peer) m.peer_info;
        } in
        elim (next_locators s (length headers) maybe_last maybe_err) [
          | err e ↦ (m1, c, err e)
          | ok none ↦ (remove_request a m1, c, ok tt)
          | ok (some locators) ↦
              let (m2, c') = send_getheaders now a locators m1 c in (m2, c', ok tt)
        ]

    unfoldable pub received_headers_message :
        ℕ
        → SocketAddr
        → List BlockHeader
        → BlockchainManager
        → C
        → BlockchainManager × C × Result (Unit {0}) ReceivedHeadersMessageError
    unfolding accept_headers
    received_headers_message now a headers m c = elim (Map.get addr_eq a m.peer_info) [
      | none ↦ (m, c, err ReceivedHeadersMessageError.unknown_peer)
      | some peer ↦
          if ltb max_unsolicited_headers (length headers) && not (has_request m a)
          then (m, c, err ReceivedHeadersMessageError.received_too_many_unsolicited_headers)
          else if ltb max_headers_size (length headers)
          then (m, c, err ReceivedHeadersMessageError.received_too_many_headers)
          else elim (last headers) [
            | none ↦ (remove_request a m, c, ok tt)
            | some last_one ↦ accept_headers now a peer headers last_one m c
          ]
    ]

    unfoldable pub process_bitcoin_network_message :
        ℕ
        → SocketAddr
        → NetworkMessage
        → BlockchainManager
        → C
        → BlockchainManager × C × Result (Unit {0}) ProcessError
    unfolding received_inv_message received_headers_message received_block_message
    process_bitcoin_network_message now a message m c = elim message [
      | NetworkMessage.inv inventory ↦
          let (m', c', r) = received_inv_message now a inventory m c in (m', c', processed r)
      | NetworkMessage.headers headers ↦
          let (m', c', r) = received_headers_message now a headers m c in (m', c', processed r)
      | NetworkMessage.block block ↦
          let (m', r) = received_block_message a block m in (m', c, processed r)
      | _ ↦ (m, c, ok tt)
    ]
