-- ===== src/BlockchainManager/Known/Operations.antt =====
-- src/blockchainmanager.rs: every operation keeps the queued and requested blocks among the known
-- headers; a request to queue headers does where they are known.
use bitcoin_adaptor.Base.{ℕ, ◌≡◌, inl, inr, some, List, [], ◌∷◌, Bool, arith, Bool-cases, map}
use bitcoin_adaptor.Base.Map
use bitcoin_adaptor.Base.Set
use bitcoin_adaptor.Base.Linked.{LinkedHashMap, LinkedHashSet}
use bitcoin_adaptor.Bitcoin.{
  BlockHash, hash_eq, BlockHeader, Block, SocketAddr, addr_eq, Inventory, NetworkMessage,
  BitcoinLib,
}
use bitcoin_adaptor.Adapter.{Channel}
use bitcoin_adaptor.BlockchainManager.{
  BlockchainManager, GetDataRequestInfo, Locators, send_getheaders, received_inv_message,
  received_headers_message, received_block_message, accept_headers, process_bitcoin_network_message,
  remove_request,
}
use bitcoin_adaptor.BlockchainManager.Pruning.{manager_prune_lem}
use bitcoin_adaptor.BlockchainManager.Selection.{enqueue_lem, enqueue_rest}
use bitcoin_adaptor.BlockchainManager.Sync.{
  remove_peer, remove_peers, forget_peer, sync_blocks, add_peer, catch_up, drop_expired, expired,
  handle_getheaders_timeouts, refresh, tick, enqueue_new_blocks_to_download, prune_blocks,
}
use bitcoin_adaptor.BlockchainManager.Known.{Within, in_list, is_requested, sync_blocks-Within}

-- What the queue and the requests of a manager are compared with.
abbrev pub Downloads : (BlockHash → Bool) → BlockchainManager → Type 0
Downloads p m =
    Within (in_list m.block_sync_queue) p × Within (is_requested m.getdata_request_info) p

module _ (btc : BitcoinLib) (p : BlockHash → Bool) where
  open btc use {block_hash}

  received_block-Downloads :
      (a : SocketAddr) (block : Block) (m : BlockchainManager)
      → Downloads p m
      → Downloads p (received_block_message btc a block m).0
  unfolding received_block_message
  received_block-Downloads a block m d = (
    λ h e. d.0 h (ground arith),
    λ h e.
        d.1 h (
          ground
            (arith, Map.get-remove hash_eq h (block_hash block.header) m.getdata_request_info)),
  )

  module _ {C : Type 0} (channel : Channel C) where
    send_getheaders-same :
        (now : ℕ) (a : SocketAddr) (locators : Locators) (m : BlockchainManager) (c : C)
        → let m' = (send_getheaders btc channel now a locators m c).0 in
          (m'.block_sync_queue ≡ m.block_sync_queue)
          × (m'.getdata_request_info ≡ m.getdata_request_info)
    unfolding send_getheaders
    send_getheaders-same now a locators m c = (ground arith, ground arith)

    received_inv-same :
        (now : ℕ) (a : SocketAddr) (inventory : List Inventory) (m : BlockchainManager) (c : C)
        → let m' = (received_inv_message btc channel now a inventory m c).0 in
          (m'.block_sync_queue ≡ m.block_sync_queue)
          × (m'.getdata_request_info ≡ m.getdata_request_info)
    unfolding received_inv_message
    received_inv-same now a inventory m c = (ground arith, ground arith)

    received_headers-same :
        (now : ℕ) (a : SocketAddr) (headers : List BlockHeader) (m : BlockchainManager) (c : C)
        → let m' = (received_headers_message btc channel now a headers m c).0 in
          (m'.block_sync_queue ≡ m.block_sync_queue)
          × (m'.getdata_request_info ≡ m.getdata_request_info)
    unfolding received_headers_message accept_headers
    received_headers-same now a headers m c = (ground arith, ground arith)

    same-Downloads :
        (m m' : BlockchainManager)
        → (m'.block_sync_queue ≡ m.block_sync_queue)
          × (m'.getdata_request_info ≡ m.getdata_request_info)
        → Downloads p m
        → Downloads p m'
    same-Downloads m m' (e, f) d = (rw e d.0, rw f d.1)

    pub process_message-Downloads :
        (now : ℕ) (a : SocketAddr) (message : NetworkMessage) (m : BlockchainManager) (c : C)
        → Downloads p m
        → Downloads p (process_bitcoin_network_message btc channel now a message m c).0
    unfolding process_bitcoin_network_message
    process_message-Downloads now a message m c d =
        elim message
          as (λ k. Downloads p (process_bitcoin_network_message btc channel now a k m c).0) [
            | NetworkMessage.inv inventory ↦
                same-Downloads m (received_inv_message btc channel now a inventory m c).0
                  (received_inv-same now a inventory m c) d
            | NetworkMessage.headers headers ↦
                same-Downloads m (received_headers_message btc channel now a headers m c).0
                  (received_headers-same now a headers m c) d
            | NetworkMessage.block block ↦ received_block-Downloads a block m d
            | _ ↦ d
          ]

    module _ (linked : LinkedHashMap GetDataRequestInfo hash_eq)
        (linked_set : LinkedHashSet hash_eq) where
      remove_peers-Downloads :
          (active peers : List SocketAddr) (m : BlockchainManager)
          → Downloads p m
          → Downloads p (remove_peers active peers m)
      unfolding remove_peers remove_peer
      remove_peers-Downloads active [] m d = d
      remove_peers-Downloads active (a ∷ as') m d =
          elim (Bool-cases (Set.contains addr_eq a active)) [
            | inl q ↦ rw (remove_peers, q) (remove_peers-Downloads active as' m d)
            | inr q ↦
                rw (remove_peers, q)
                  (remove_peers-Downloads active as' (remove_peer a m) (
                    d.0,
                    λ h e. d.1 h (
                        ground (
                          arith,
                          Map.get-map_values hash_eq h (forget_peer a) m.getdata_request_info,
                        )),
                  ))
          ]

      add_peer-same :
          (now : ℕ) (a : SocketAddr) (m : BlockchainManager) (c : C)
          → let m' = (add_peer linked linked_set channel btc now a m c).0 in
            (m'.block_sync_queue ≡ m.block_sync_queue)
            × (m'.getdata_request_info ≡ m.getdata_request_info)
      unfolding add_peer
      add_peer-same now a m c = (ground arith, ground arith)

      catch_up-same :
          (now : ℕ) (a : SocketAddr) (m : BlockchainManager) (c : C)
          → let m' = (catch_up linked linked_set channel btc now a m c).0 in
            (m'.block_sync_queue ≡ m.block_sync_queue)
            × (m'.getdata_request_info ≡ m.getdata_request_info)
      unfolding catch_up
      catch_up-same now a m c = (ground arith, ground arith)

      refresh-Downloads :
          (now : ℕ) (active : List SocketAddr) (m : BlockchainManager) (c : C)
          → Downloads p m
          → Downloads p (refresh linked linked_set channel btc now active m c).0
      unfolding refresh
      refresh-Downloads now [] m c d = d
      refresh-Downloads now (a ∷ as') m c d =
          let m1 = (add_peer linked linked_set channel btc now a m c).0 in
          let c1 = (add_peer linked linked_set channel btc now a m c).1 in
          refresh-Downloads now as' (catch_up linked linked_set channel btc now a m1 c1).0
            (catch_up linked linked_set channel btc now a m1 c1).1
            (same-Downloads m1 (catch_up linked linked_set channel btc now a m1 c1).0
              (catch_up-same now a m1 c1) (same-Downloads m m1 (add_peer-same now a m c) d))

      drop_expired-Downloads :
          (gone : List SocketAddr) (m : BlockchainManager) (c : C)
          → Downloads p m
          → Downloads p (drop_expired linked linked_set channel btc gone m c).0
      unfolding drop_expired
      drop_expired-Downloads [] m c d = d
      drop_expired-Downloads (a ∷ as') m c d =
          drop_expired-Downloads as' (remove_request a m) (channel.discard a c) d

      pub tick-Downloads :
          (now : ℕ) (m : BlockchainManager) (c : C)
          → Downloads p m
          → Downloads p (tick linked linked_set channel btc now m c).0
      unfolding tick handle_getheaders_timeouts
      tick-Downloads now m c d =
          let active = channel.available_connections c in
          let m0 = remove_peers active (Map.keys m.peer_info) m in
          let m1 = (refresh linked linked_set channel btc now active m0 c).0 in
          let c1 = (refresh linked linked_set channel btc now active m0 c).1 in
          let d1 =
            refresh-Downloads now active m0 c
              (remove_peers-Downloads active (Map.keys m.peer_info) m d) in
          let m2 = (sync_blocks linked linked_set channel btc now m1 c1).0 in
          let c2 = (sync_blocks linked linked_set channel btc now m1 c1).1 in
          drop_expired-Downloads (expired linked linked_set channel btc now m2.getheaders_requests)
            m2 c2 (sync_blocks-Within linked linked_set p channel btc now m1 c1 d1.0 d1.1)

  pub prune_blocks-Downloads :
      (anchor : BlockHash) (processed : List BlockHash) (m m' : BlockchainManager)
      → prune_blocks anchor processed m ≡ some m'
      → Downloads p m
      → Downloads p m'
  prune_blocks-Downloads anchor processed m m' e d = elim (manager_prune_lem anchor processed m) [
    | inl (_, q) ↦ absurd (ground arith)
    | inr (_, (k, q, _, each)) ↦
        let e' : k ≡ m' = ground arith in
        rw (← e')
          (λ h i. d.0 h (ground (arith, (each h).1)), λ h i. d.1 h (ground (arith, (each h).2)))
  ]

  module _ (linked : LinkedHashMap GetDataRequestInfo hash_eq)
      (linked_set : LinkedHashSet hash_eq) where
    pub enqueue-Downloads :
        (headers : List BlockHeader) (m : BlockchainManager)
        → Within (in_list (map block_hash headers)) p
        → Downloads p m
        → Downloads p (enqueue_new_blocks_to_download linked linked_set btc headers m)
    enqueue-Downloads headers m f d = (
      λ h e. ground (arith, enqueue_lem linked linked_set btc headers m h, f h, d.0 h),
      rw (enqueue_rest linked linked_set btc headers m).1 d.1,
    )
