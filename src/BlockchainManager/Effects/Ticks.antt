-- ===== src/BlockchainManager/Effects/Ticks.antt =====
-- src/blockchainmanager.rs: what the manager does to its channel in a tick.
use bitcoin_adaptor.Base.{
  ℕ, ◌-◌, ◌≤◌, ◌≡◌, ap, arith, All, inl, inr, Bool, not, ◌&&◌, List, [], ◌∷◌, Bool-cases,
  List-cases, is_empty, length, leb,
}
use bitcoin_adaptor.Base.Map
use bitcoin_adaptor.Base.Set
use bitcoin_adaptor.Base.Linked.{LinkedHashMap, LinkedHashSet}
use bitcoin_adaptor.Bitcoin.{BlockHash, hash_eq, BitcoinLib, SocketAddr, addr_eq}
use bitcoin_adaptor.Adapter.{Channel}
use bitcoin_adaptor.Adapter.Channels.{IsKept, recorder}
use bitcoin_adaptor.BlockchainState as State
use bitcoin_adaptor.BlockchainState.{add_headers}
use bitcoin_adaptor.BlockchainManager.{
  BlockchainManager, GetDataRequestInfo, PeerInfo, is_peer, has_request, remove_request,
}
use bitcoin_adaptor.BlockchainManager.Selection.{select_lem}
use bitcoin_adaptor.BlockchainManager.Sync.{
  Queues, select, count_of, inv_per_get_data_request, record_requests, request_blocks, getdata,
  retries, sync_blocks, add_peer, catch_up, drop_expired, expired, handle_getheaders_timeouts,
  refresh, tick, remove_peers, count_requests, zero_counts, sort_peers, block_cache_threshold_bytes,
}
use bitcoin_adaptor.BlockchainManager.Effects.{
  IsRequest, blocks_request, requested, send_getheaders_keeps,
}

module _ (btc : BitcoinLib) {C : Type 0} (channel : Channel C) (P : C → Type 0)
    (kept : IsKept channel IsRequest P) where
  open btc use {block_hash}

  module _ (linked : LinkedHashMap GetDataRequestInfo hash_eq)
      (linked_set : LinkedHashSet hash_eq) where
    request_blocks_keeps :
        (now : ℕ) (full : Bool) (counts : List (SocketAddr × ℕ)) (peers : List PeerInfo)
        (q : Queues) (requests : List (BlockHash × GetDataRequestInfo)) (c : C)
        → P c
        → P (request_blocks linked linked_set channel now full counts peers q requests c).2
    unfolding request_blocks
    request_blocks_keeps now full counts [] q requests c p = p
    request_blocks_keeps now full counts (k ∷ peers) q requests c p =
        elim (List-cases (select full (inv_per_get_data_request - count_of k.socket counts) q).0) [
          | inl e ↦ rw (request_blocks, e) p
          | inr (h, hs, e) ↦
              rw (request_blocks, e)
                (request_blocks_keeps now full counts peers _
                  (record_requests linked linked_set now k.socket (h ∷ hs) requests)
                  (channel.send (getdata k.socket (h ∷ hs)) c)
                  (kept.sent (getdata k.socket (h ∷ hs)) (blocks_request k.socket h hs (few h hs e))
                    c p))
        ]
      where
        n : ℕ
        n = inv_per_get_data_request - count_of k.socket counts

        few :
            (h : BlockHash) (hs : List BlockHash)
            → (select full n q).0 ≡ h ∷ hs
            → length (h ∷ hs) ≤ inv_per_get_data_request
        few h hs e = omega (arith, (select_lem full n q).0, ap length e)

    sync_blocks_keeps :
        (now : ℕ) (m : BlockchainManager) (c : C)
        → P c
        → P (sync_blocks linked linked_set channel btc now m c).1
    unfolding sync_blocks
    sync_blocks_keeps now m c p =
        elim (Bool-cases (
          is_empty (retries linked linked_set now m.getdata_request_info [])
          && is_empty m.block_sync_queue)) [
            | inl q ↦ rw (sync_blocks, q) p
            | inr q ↦
                let full =
                  leb block_cache_threshold_bytes (State.get_block_cache_size btc m.blockchain) in
                let counts = count_requests m.getdata_request_info (zero_counts m.peer_info) in
                rw (sync_blocks, q)
                  (request_blocks_keeps now full counts (sort_peers counts (Map.values m.peer_info))
                    (record {
                      retry_queue = retries linked linked_set now m.getdata_request_info [];
                      sync_queue = m.block_sync_queue;
                    })
                    m.getdata_request_info c p)
          ]

    add_peer_keeps :
        (now : ℕ) (a : SocketAddr) (m : BlockchainManager) (c : C)
        → P c
        → P (add_peer linked linked_set channel btc now a m c).1
    unfolding add_peer
    add_peer_keeps now a m c p = elim (Bool-cases (is_peer m a)) [
      | inl q ↦ rw (add_peer, q) p
      | inr q ↦
          rw (add_peer, q)
            (send_getheaders_keeps btc channel P a (requested btc channel P kept a) now _ _ c p)
    ]

    catch_up_keeps :
        (now : ℕ) (a : SocketAddr) (m : BlockchainManager) (c : C)
        → P c
        → P (catch_up linked linked_set channel btc now a m c).1
    unfolding catch_up
    catch_up_keeps now a m c p =
        elim (Bool-cases (not (has_request m a) && Set.contains addr_eq a m.catchup_headers)) [
          | inl q ↦
              rw (catch_up, q)
                (send_getheaders_keeps btc channel P a (requested btc channel P kept a) now _ m c p)
          | inr q ↦ rw (catch_up, q) p
        ]

    refresh_keeps :
        (now : ℕ) (active : List SocketAddr) (m : BlockchainManager) (c : C)
        → P c
        → P (refresh linked linked_set channel btc now active m c).1
    unfolding refresh
    refresh_keeps now [] m c p = p
    refresh_keeps now (a ∷ as') m c p =
        let m1 = (add_peer linked linked_set channel btc now a m c).0 in
        let c1 = (add_peer linked linked_set channel btc now a m c).1 in
        refresh_keeps now as' (catch_up linked linked_set channel btc now a m1 c1).0
          (catch_up linked linked_set channel btc now a m1 c1).1
          (catch_up_keeps now a m1 c1 (add_peer_keeps now a m c p))

    drop_expired_keeps :
        (gone : List SocketAddr) (m : BlockchainManager) (c : C)
        → P c
        → P (drop_expired linked linked_set channel btc gone m c).1
    unfolding drop_expired
    drop_expired_keeps [] m c p = p
    drop_expired_keeps (a ∷ as') m c p =
        drop_expired_keeps as' (remove_request a m) (channel.discard a c) (kept.discarded a c p)

    pub tick_keeps :
        (now : ℕ) (m : BlockchainManager) (c : C)
        → P c
        → P (tick linked linked_set channel btc now m c).1
    unfolding tick handle_getheaders_timeouts
    tick_keeps now m c p =
        let active = channel.available_connections c in
        let m0 = remove_peers active (Map.keys m.peer_info) m in
        let m1 = (refresh linked linked_set channel btc now active m0 c).0 in
        let c1 = (refresh linked linked_set channel btc now active m0 c).1 in
        let m2 = (sync_blocks linked linked_set channel btc now m1 c1).0 in
        let c2 = (sync_blocks linked linked_set channel btc now m1 c1).1 in
        drop_expired_keeps (expired linked linked_set channel btc now m2.getheaders_requests) m2 c2
          (sync_blocks_keeps now m1 c1 (refresh_keeps now active m0 c p))

recorder-IsKept : (peers : List SocketAddr) → IsKept (recorder peers) IsRequest (All IsRequest)
recorder-IsKept peers = record {
  sent = λ command q sent all. (q, all);
  discarded = λ a sent all. all;
}

-- All that a tick sends are requests for headers, and requests for at least one block and at most
-- `inv_per_get_data_request`.
pub tick_requests :
    (btc : BitcoinLib) (linked : LinkedHashMap GetDataRequestInfo hash_eq)
    (linked_set : LinkedHashSet hash_eq) (peers : List SocketAddr) (now : ℕ) (m : BlockchainManager)
    → All IsRequest (tick linked linked_set (recorder peers) btc now m []).1
tick_requests btc linked linked_set peers now m =
    tick_keeps btc (recorder peers) (All IsRequest) (recorder-IsKept peers) linked linked_set now m
      [] tt
