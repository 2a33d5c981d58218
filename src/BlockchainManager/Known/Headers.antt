-- ===== src/BlockchainManager/Known/Headers.antt =====
-- src/blockchainmanager.rs: no message of a peer makes the manager forget a header.
use bitcoin_adaptor.Base.{
  ℕ, ◌≡◌, ◌⊎◌, inl, inr, not, ◌&&◌, List, length, arith, Bool-cases, Option-cases, last, ltb,
}
use bitcoin_adaptor.Base.Map
use bitcoin_adaptor.Bitcoin.{
  hash_eq, BlockHeader, Block, SocketAddr, addr_eq, Inventory, NetworkMessage, BitcoinLib,
}
use bitcoin_adaptor.Adapter.{Channel}
use bitcoin_adaptor.BlockchainState.{add_headers, add_block}
use bitcoin_adaptor.BlockchainState.Valid.{IsValid}
use bitcoin_adaptor.BlockchainState.Persistence.{Extends, add_headers-Extends, add_block-Extends}
use bitcoin_adaptor.BlockchainManager.{
  BlockchainManager, PeerInfo, received_inv_message, received_headers_message,
  received_block_message, accept_headers, is_peer, process_bitcoin_network_message, has_request,
  max_headers_size, max_unsolicited_headers,
}

module _ (btc : BitcoinLib) {C : Type 0} (channel : Channel C) where
  open btc use {block_hash}

  received_inv-state :
      (now : ℕ) (a : SocketAddr) (inventory : List Inventory) (m : BlockchainManager) (c : C)
      → (received_inv_message btc channel now a inventory m c).0.blockchain ≡ m.blockchain
  unfolding received_inv_message
  received_inv-state now a inventory m c = ground arith

  accept_headers-state :
      (now : ℕ) (a : SocketAddr) (peer : PeerInfo) (headers : List BlockHeader)
      (last_one : BlockHeader) (m : BlockchainManager) (c : C)
      → (accept_headers btc channel now a peer headers last_one m c).0.blockchain
        ≡ (add_headers btc m.blockchain headers).0
  unfolding accept_headers
  accept_headers-state now a peer headers last_one m c = ground arith

  received_headers-state :
      (now : ℕ) (a : SocketAddr) (headers : List BlockHeader) (m : BlockchainManager) (c : C)
      → let s = (received_headers_message btc channel now a headers m c).0.blockchain in
        (s ≡ m.blockchain) ⊎ (s ≡ (add_headers btc m.blockchain headers).0)
  unfolding received_headers_message
  received_headers-state now a headers m c = elim (Option-cases (Map.get addr_eq a m.peer_info)) [
    | inl q ↦ inl (ground arith)
    | inr (peer, q) ↦ elim (Option-cases (last headers)) [
      | inl l ↦ inl (ground arith)
      | inr (last_one, l) ↦
          elim (Bool-cases
            (ltb max_unsolicited_headers (length headers) && not (has_request m a))) [
              | inl u ↦ inl (ground arith)
              | inr u ↦ elim (Bool-cases (ltb max_headers_size (length headers))) [
                | inl b ↦ inl (ground arith)
                | inr b ↦ inr (ground (arith, accept_headers-state now a peer headers last_one m c))
              ]
            ]
    ]
  ]

  received_block-state :
      (a : SocketAddr) (block : Block) (m : BlockchainManager)
      → let s = (received_block_message btc a block m).0.blockchain in
        (s ≡ m.blockchain) ⊎ (s ≡ (add_block btc m.blockchain block).0)
  unfolding received_block_message
  received_block-state a block m = elim (Bool-cases (is_peer m a)) [
    | inr q ↦ inl (ground arith)
    | inl q ↦
        elim (Option-cases (Map.get hash_eq (block_hash block.header) m.getdata_request_info)) [
          | inl r ↦ inl (ground arith)
          | inr (r, e) ↦ inr (ground arith)
        ]
  ]

  -- Every header that was cached is cached after a message, the same.
  pub process_message-Extends :
      (now : ℕ) (a : SocketAddr) (message : NetworkMessage) (m : BlockchainManager) (c : C)
      → IsValid btc m.blockchain
      → Extends btc m.blockchain.header_cache
          (process_bitcoin_network_message btc channel now a message m c).0.blockchain.header_cache
  unfolding process_bitcoin_network_message
  process_message-Extends now a message m c v =
      elim message
        as (λ k.
          Extends btc m.blockchain.header_cache
            (process_bitcoin_network_message btc channel now a k m c).0.blockchain.header_cache) [
              | NetworkMessage.inv inventory ↦
                  rw (received_inv-state now a inventory m c) (λ h n e. e)
              | NetworkMessage.headers headers ↦ elim (received_headers-state now a headers m c) [
                | inl q ↦ rw q (λ h n e. e)
                | inr q ↦ rw q (add_headers-Extends btc m.blockchain headers v)
              ]
              | NetworkMessage.block block ↦ elim (received_block-state a block m) [
                | inl q ↦ rw q (λ h n e. e)
                | inr q ↦ rw q (add_block-Extends btc m.blockchain block v)
              ]
              | _ ↦ λ h n e. e
            ]
