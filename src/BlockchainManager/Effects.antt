-- ===== src/BlockchainManager/Effects.antt =====
-- src/blockchainmanager.rs: what the manager does to its channel when it handles messages.
pub mod Ticks
use bitcoin_adaptor.Base.{
  ℕ, ◌-◌, ◌≤◌, ◌≡◌, ap, arith, All, inl, inr, Bool, not, ◌&&◌, none, some, List, [], ◌∷◌,
  Bool-cases, Option-cases, Result-cases, List-cases, is_empty, length, ltb, leb, last,
}
use bitcoin_adaptor.Base.Map
use bitcoin_adaptor.Base.Set
use bitcoin_adaptor.Base.Linked.{LinkedHashMap, LinkedHashSet}
use bitcoin_adaptor.Bitcoin.{
  BlockHash, hash_eq, BitcoinLib, BlockHeader, SocketAddr, addr_eq, Inventory, NetworkMessage,
}
use bitcoin_adaptor.Adapter.{Channel, Command}
use bitcoin_adaptor.Adapter.Channels.{IsKept, recorder}
use bitcoin_adaptor.BlockchainState as State
use bitcoin_adaptor.BlockchainState.{add_headers}
use bitcoin_adaptor.BlockchainManager.{
  BlockchainManager, GetDataRequestInfo, PeerInfo, Locators, is_peer, has_request, send_getheaders,
  remove_request, received_inv_message, received_headers_message, accept_headers,
  process_bitcoin_network_message, scan_inv, next_locators, last_header, max_inv_size,
  max_headers_size, max_unsolicited_headers, getheaders,
}
use bitcoin_adaptor.BlockchainManager.Selection.{select_lem}
use bitcoin_adaptor.BlockchainManager.Sync.{
  Queues, select, count_of, inv_per_get_data_request, record_requests, request_blocks, getdata,
  retries, sync_blocks, add_peer, catch_up, drop_expired, expired, handle_getheaders_timeouts,
  refresh, tick, remove_peers, count_requests, zero_counts, sort_peers, block_cache_threshold_bytes,
}

-- What the manager sends: requests for headers, and for at least one block and at most
-- `inv_per_get_data_request`.
pub data IsRequest : Command → Type 0 where
  headers_request : (a : SocketAddr) (locators : Locators) → IsRequest (getheaders a locators)
  blocks_request :
      (a : SocketAddr) (h : BlockHash) (hs : List BlockHash)
      → length (h ∷ hs) ≤ inv_per_get_data_request
      → IsRequest (getdata a (h ∷ hs))

-- The answer to a message goes to its sender, if to anybody.
module _ (btc : BitcoinLib) {C : Type 0} (channel : Channel C) (P : C → Type 0) (a : SocketAddr)
    (sent : (locators : Locators) (c : C) → P c → P (channel.send (getheaders a locators) c)) where
  open btc use {block_hash}

  pub send_getheaders_keeps :
      (now : ℕ) (locators : Locators) (m : BlockchainManager) (c : C)
      → P c
      → P (send_getheaders btc channel now a locators m c).1
  unfolding send_getheaders
  send_getheaders_keeps now locators m c p = elim (Bool-cases (is_peer m a)) [
    | inl q ↦ rw (send_getheaders, q) (sent locators c p)
    | inr q ↦ rw (send_getheaders, q) p
  ]

  received_inv_keeps :
      (now : ℕ) (inventory : List Inventory) (m : BlockchainManager) (c : C)
      → P c
      → P (received_inv_message btc channel now a inventory m c).1
  unfolding received_inv_message
  received_inv_keeps now inventory m c p = elim (Bool-cases (ltb max_inv_size (length inventory))) [
    | inl big ↦ rw (received_inv_message, big) p
    | inr small ↦ elim (Option-cases (Map.get addr_eq a m.peer_info)) [
      | inl q ↦ rw (received_inv_message, small, q) p
      | inr (peer, q) ↦ elim (Option-cases (scan_inv m.blockchain inventory peer.tip none).1) [
        | inl l ↦ rw (received_inv_message, small, q, l) p
        | inr (stop_hash, l) ↦ elim (Bool-cases (has_request m a)) [
          | inl r ↦ rw (received_inv_message, small, q, l, r) p
          | inr r ↦ rw (received_inv_message, small, q, l, r) (send_getheaders_keeps now _ _ c p)
        ]
      ]
    ]
  ]

  accept_headers_keeps :
      (now : ℕ) (peer : PeerInfo) (headers : List BlockHeader) (last_one : BlockHeader)
      (m : BlockchainManager) (c : C)
      → P c
      → P (accept_headers btc channel now a peer headers last_one m c).1
  unfolding accept_headers
  accept_headers_keeps now peer headers last_one m c p =
      let s = (add_headers btc m.blockchain headers).0 in
      let nodes = (add_headers btc m.blockchain headers).1 in
      let maybe_err = (add_headers btc m.blockchain headers).2 in
      let maybe_last = last_header s nodes (block_hash last_one) in
      elim (Result-cases (next_locators btc s (length headers) maybe_last maybe_err)) [
        | inr (e, q) ↦ rw (accept_headers, q) p
        | inl (none, q) ↦ rw (accept_headers, q) p
        | inl (some locators, q) ↦ rw (accept_headers, q) (send_getheaders_keeps now locators _ c p)
      ]

  received_headers_keeps :
      (now : ℕ) (headers : List BlockHeader) (m : BlockchainManager) (c : C)
      → P c
      → P (received_headers_message btc channel now a headers m c).1
  unfolding received_headers_message
  received_headers_keeps now headers m c p = elim (Option-cases (Map.get addr_eq a m.peer_info)) [
    | inl q ↦ rw (received_headers_message, q) p
    | inr (peer, q) ↦
        elim (Bool-cases (ltb max_unsolicited_headers (length headers) && not (has_request m a))) [
          | inl u ↦ rw (received_headers_message, q, u) p
          | inr u ↦ elim (Bool-cases (ltb max_headers_size (length headers))) [
            | inl b ↦ rw (received_headers_message, q, u, b) p
            | inr b ↦ elim (Option-cases (last headers)) [
              | inl l ↦ rw (received_headers_message, q, u, b, l) p
              | inr (last_one, l) ↦
                  rw (received_headers_message, q, u, b, l)
                    (accept_headers_keeps now peer headers last_one m c p)
            ]
          ]
        ]
  ]

  pub process_message_answers :
      (now : ℕ) (message : NetworkMessage) (m : BlockchainManager) (c : C)
      → P c
      → P (process_bitcoin_network_message btc channel now a message m c).1
  unfolding process_bitcoin_network_message
  process_message_answers now message m c p =
      elim message as (λ k. P (process_bitcoin_network_message btc channel now a k m c).1) [
        | NetworkMessage.inv inventory ↦ received_inv_keeps now inventory m c p
        | NetworkMessage.headers headers ↦ received_headers_keeps now headers m c p
        | _ ↦ p
      ]

module _ (btc : BitcoinLib) {C : Type 0} (channel : Channel C) (P : C → Type 0)
    (kept : IsKept channel IsRequest P) where
  open btc use {block_hash}

  pub requested :
      (a : SocketAddr) (locators : Locators) (c : C)
      → P c
      → P (channel.send (getheaders a locators) c)
  requested a locators c p = kept.sent (getheaders a locators) (headers_request a locators) c p

  pub process_message_keeps :
      (now : ℕ) (a : SocketAddr) (message : NetworkMessage) (m : BlockchainManager) (c : C)
      → P c
      → P (process_bitcoin_network_message btc channel now a message m c).1
  process_message_keeps now a message m c p =
      process_message_answers btc channel P a (requested a) now message m c p
