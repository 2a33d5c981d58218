-- ===== src/BlockchainManager/Messages.antt =====
-- src/blockchainmanager.rs: no message breaks the invariant of the blockchain state.
use bitcoin_adaptor.Base.{
  ℕ, ◌≡◌, refl, inl, inr, not, ◌&&◌, none, some, List, ltb, length, Bool-cases, Option-cases,
  Result-cases, last,
}
use bitcoin_adaptor.Base.Map
use bitcoin_adaptor.Bitcoin.{
  hash_eq, BlockHeader, Block, BitcoinLib, SocketAddr, addr_eq, Inventory, NetworkMessage,
}
use bitcoin_adaptor.Adapter.{Channel}
use bitcoin_adaptor.BlockchainState.{add_headers}
use bitcoin_adaptor.BlockchainState.Locators.{locator_hashes}
use bitcoin_adaptor.BlockchainState.Valid.{IsValid}
use bitcoin_adaptor.BlockchainState.Growth.{add_headers-IsValid}
use bitcoin_adaptor.BlockchainState.History.{add_block-IsValid}
use bitcoin_adaptor.BlockchainManager.{
  BlockchainManager, PeerInfo, Locators, send_getheaders, received_inv_message,
  received_headers_message, received_block_message, accept_headers, is_peer,
  process_bitcoin_network_message, scan_inv, has_request, next_locators, last_header, raise_peer,
  max_inv_size, max_headers_size, max_unsolicited_headers,
}

module _ (btc : BitcoinLib) where
  open btc use {block_hash}

  received_block-IsValid :
      (a : SocketAddr) (block : Block) (m : BlockchainManager)
      → IsValid btc m.blockchain
      → IsValid btc (received_block_message btc a block m).0.blockchain
  unfolding received_block_message
  received_block-IsValid a block m v = elim (Bool-cases (is_peer m a)) [
    | inr p ↦ rw (received_block_message, p) v
    | inl p ↦
        elim (Option-cases (Map.get hash_eq (block_hash block.header) m.getdata_request_info)) [
          | inl q ↦ rw (received_block_message, p, q) v
          | inr (r, q) ↦
              rw (received_block_message, p, q) (add_block-IsValid btc m.blockchain block v)
        ]
  ]

  module _ {C : Type 0} (channel : Channel C) where
    pub send_getheaders-blockchain :
        (now : ℕ) (a : SocketAddr) (locators : Locators) (m : BlockchainManager) (c : C)
        → (send_getheaders btc channel now a locators m c).0.blockchain ≡ m.blockchain
    unfolding send_getheaders
    send_getheaders-blockchain now a locators m c = elim (Bool-cases (is_peer m a)) [
      | inl p ↦ rw (send_getheaders, p) refl
      | inr p ↦ rw (send_getheaders, p) refl
    ]

    received_inv-blockchain :
        (now : ℕ) (a : SocketAddr) (inventory : List Inventory) (m : BlockchainManager) (c : C)
        → (received_inv_message btc channel now a inventory m c).0.blockchain ≡ m.blockchain
    unfolding received_inv_message
    received_inv-blockchain now a inventory m c =
        elim (Bool-cases (ltb max_inv_size (length inventory))) [
          | inl big ↦ rw (received_inv_message, big) refl
          | inr small ↦ elim (Option-cases (Map.get addr_eq a m.peer_info)) [
            | inl q ↦ rw (received_inv_message, small, q) refl
            | inr (peer, q) ↦
                let m1 : BlockchainManager = record m {
                  peer_info =
                      Map.insert addr_eq a
                        (record peer { tip = (scan_inv m.blockchain inventory peer.tip none).0 })
                        m.peer_info;
                } in
                elim (Option-cases (scan_inv m.blockchain inventory peer.tip none).1) [
                  | inl l ↦ rw (received_inv_message, small, q, l) refl
                  | inr (stop_hash, l) ↦ elim (Bool-cases (has_request m a)) [
                    | inl r ↦ rw (received_inv_message, small, q, l, r) refl
                    | inr r ↦
                        rw (received_inv_message, small, q, l, r)
                          (send_getheaders-blockchain now a
                            (locator_hashes btc m.blockchain, stop_hash) m1 c)
                  ]
                ]
          ]
        ]

    accept_headers-IsValid :
        (now : ℕ) (a : SocketAddr) (peer : PeerInfo) (headers : List BlockHeader)
        (last_one : BlockHeader) (m : BlockchainManager) (c : C)
        → IsValid btc m.blockchain
        → IsValid btc (accept_headers btc channel now a peer headers last_one m c).0.blockchain
    unfolding accept_headers
    accept_headers-IsValid now a peer headers last_one m c v =
        let s = (add_headers btc m.blockchain headers).0 in
        let nodes = (add_headers btc m.blockchain headers).1 in
        let maybe_err = (add_headers btc m.blockchain headers).2 in
        let maybe_last = last_header s nodes (block_hash last_one) in
        let m1 : BlockchainManager = record m {
          blockchain = s;
          peer_info = Map.insert addr_eq a (raise_peer block_hash maybe_last peer) m.peer_info;
        } in
        let v' = add_headers-IsValid btc m.blockchain headers v in
        elim (Result-cases (next_locators btc s (length headers) maybe_last maybe_err)) [
          | inr (e, q) ↦ rw (accept_headers, q) v'
          | inl (none, q) ↦ rw (accept_headers, q) v'
          | inl (some locators, q) ↦
              rw (accept_headers, q) (rw (send_getheaders-blockchain now a locators m1 c) v')
        ]

    received_headers-IsValid :
        (now : ℕ) (a : SocketAddr) (headers : List BlockHeader) (m : BlockchainManager) (c : C)
        → IsValid btc m.blockchain
        → IsValid btc (received_headers_message btc channel now a headers m c).0.blockchain
    unfolding received_headers_message
    received_headers-IsValid now a headers m c v =
        elim (Option-cases (Map.get addr_eq a m.peer_info)) [
          | inl q ↦ rw (received_headers_message, q) v
          | inr (peer, q) ↦
              elim (Bool-cases
                (ltb max_unsolicited_headers (length headers) && not (has_request m a))) [
                  | inl u ↦ rw (received_headers_message, q, u) v
                  | inr u ↦ elim (Bool-cases (ltb max_headers_size (length headers))) [
                    | inl b ↦ rw (received_headers_message, q, u, b) v
                    | inr b ↦ elim (Option-cases (last headers)) [
                      | inl l ↦ rw (received_headers_message, q, u, b, l) v
                      | inr (last_one, l) ↦
                          rw (received_headers_message, q, u, b, l)
                            (accept_headers-IsValid now a peer headers last_one m c v)
                    ]
                  ]
                ]
        ]

    -- The manager's blockchain state stays valid under every message of every peer.
    pub process_message-IsValid :
        (now : ℕ) (a : SocketAddr) (message : NetworkMessage) (m : BlockchainManager) (c : C)
        → IsValid btc m.blockchain
        → IsValid btc (process_bitcoin_network_message btc channel now a message m c).0.blockchain
    unfolding process_bitcoin_network_message
    process_message-IsValid now a message m c v =
        elim message
          as (λ k.
            IsValid btc (process_bitcoin_network_message btc channel now a k m c).0.blockchain) [
              | NetworkMessage.inv inventory ↦ rw (received_inv-blockchain now a inventory m c) v
              | NetworkMessage.headers headers ↦ received_headers-IsValid now a headers m c v
              | NetworkMessage.block block ↦ received_block-IsValid a block m v
              | _ ↦ v
            ]
