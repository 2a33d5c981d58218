-- ===== src/BlockchainManager/Limits/Ticks.antt =====
-- src/blockchainmanager.rs: the tick, the queueing and the pruning keep the limit on open requests.
use bitcoin_adaptor.Base.{
  ℕ, ◌+◌, ◌^◌, ◌≡◌, refl, inl, inr, not, ◌&&◌, some, List, [], ◌∷◌, arith, Bool-cases, leb, keep_if,
}
use bitcoin_adaptor.Base.Map
use bitcoin_adaptor.Base.Set
use bitcoin_adaptor.Base.Linked.{LinkedHashMap, LinkedHashSet}
use bitcoin_adaptor.Bitcoin.{
  BlockHash, hash_eq, default_hash, BlockHeader, SocketAddr, addr_eq, BitcoinLib,
}
use bitcoin_adaptor.Adapter.{Channel}
use bitcoin_adaptor.BlockchainState as State
use bitcoin_adaptor.BlockchainState.Locators.{locator_hashes}
use bitcoin_adaptor.BlockchainManager.{
  BlockchainManager, PeerInfo, GetDataRequestInfo, is_peer, has_request, remove_request,
}
use bitcoin_adaptor.BlockchainManager.Sync.{
  remove_peer, remove_peers, forget_peer, sync_blocks, add_peer, catch_up, drop_expired, expired,
  handle_getheaders_timeouts, refresh, tick, enqueue_new_blocks_to_download, is_wanted, is_high,
  remove_processed, prune_blocks,
}
use bitcoin_adaptor.BlockchainManager.Limits.{IsManaged, sync_blocks-IsLimited}
use bitcoin_adaptor.BlockchainManager.Limits.Messages.{
  IsLimited-le, remove-le, retain-le, forget-eq, send_getheaders-IsManaged,
}
use bitcoin_adaptor.BlockchainManager.Limits.Peers.{insert-IsKeyed, remove-IsKeyed}

remove_peers-IsManaged :
    (active peers : List SocketAddr) (m : BlockchainManager)
    → IsManaged m
    → IsManaged (remove_peers active peers m)
unfolding remove_peers remove_peer
remove_peers-IsManaged active [] m v = v
remove_peers-IsManaged active (a ∷ as') m v = elim (Bool-cases (Set.contains addr_eq a active)) [
  | inl q ↦ rw (remove_peers, q) (remove_peers-IsManaged active as' m v)
  | inr q ↦
      rw (remove_peers, q)
        (remove_peers-IsManaged active as' (remove_peer a m) (record {
          keyed = remove-IsKeyed a m.peer_info v.keyed;
          limited =
              IsLimited-le m.getdata_request_info
                (Map.map_values (forget_peer a) m.getdata_request_info)
                (λ b. omega (arith, forget-eq b a m.getdata_request_info)) v.limited;
        }))
]

remove_processed-IsManaged :
    (hashes : List BlockHash) (m : BlockchainManager)
    → IsManaged m
    → IsManaged (remove_processed hashes m)
unfolding remove_processed
remove_processed-IsManaged [] m v = v
remove_processed-IsManaged (h ∷ hs) m v =
    let m1 : BlockchainManager = record m {
      getdata_request_info = Map.remove hash_eq h m.getdata_request_info;
      block_sync_queue = Set.remove hash_eq h m.block_sync_queue;
    } in
    remove_processed-IsManaged hs m1 (record {
      keyed = v.keyed;
      limited =
          IsLimited-le m.getdata_request_info (Map.remove hash_eq h m.getdata_request_info)
            (λ b. remove-le b h m.getdata_request_info) v.limited;
    })

pub prune_blocks-IsManaged :
    (anchor : BlockHash) (processed : List BlockHash) (m m' : BlockchainManager)
    → prune_blocks anchor processed m ≡ some m'
    → IsManaged m
    → IsManaged m'
unfolding prune_blocks
prune_blocks-IsManaged anchor processed m m' e v =
    let filter_height = State.height_of m.blockchain anchor + 1 in
    let s =
      State.prune_blocks_below_height filter_height (State.prune_blocks processed m.blockchain) in
    let m1 : BlockchainManager = record m {
      blockchain = s;
      getdata_request_info = Map.retain (λ b _. is_high s filter_height b) m.getdata_request_info;
      block_sync_queue = keep_if (is_high s filter_height) m.block_sync_queue;
    } in
    let v1 : IsManaged m1 = record {
      keyed = v.keyed;
      limited =
          IsLimited-le m.getdata_request_info
            (Map.retain (λ b _. is_high s filter_height b) m.getdata_request_info)
            (λ b. retain-le b (is_high s filter_height) m.getdata_request_info) v.limited;
    } in
    elim (Bool-cases (leb (2 ^ 32) filter_height)) [
      | inl q ↦ absurd (ground (arith, rw (prune_blocks, q) at e))
      | inr q ↦
          let e' : remove_processed processed m1 ≡ m' = ground (arith, rw (prune_blocks, q) at e) in
          rw (← e') (remove_processed-IsManaged processed m1 v1)
    ]

module _ (linked : LinkedHashMap GetDataRequestInfo hash_eq) (linked_set : LinkedHashSet hash_eq)
    (btc : BitcoinLib) where
  open btc use {block_hash}

  pub enqueue-IsManaged :
      (headers : List BlockHeader) (m : BlockchainManager)
      → IsManaged m
      → IsManaged (enqueue_new_blocks_to_download linked linked_set btc headers m)
  unfolding enqueue_new_blocks_to_download
  enqueue-IsManaged [] m v = v
  enqueue-IsManaged (header ∷ rest) m v =
      let m1 : BlockchainManager = record m {
        block_sync_queue = linked_set.insert (block_hash header) m.block_sync_queue;
      } in
      elim (Bool-cases (is_wanted linked linked_set btc m (block_hash header))) [
        | inl w ↦
            rw (enqueue_new_blocks_to_download, w)
              (enqueue-IsManaged rest m1 (record { keyed = v.keyed; limited = v.limited }))
        | inr w ↦ rw (enqueue_new_blocks_to_download, w) (enqueue-IsManaged rest m v)
      ]

  module _ {C : Type 0} (channel : Channel C) where
    add_peer-IsManaged :
        (now : ℕ) (a : SocketAddr) (m : BlockchainManager) (c : C)
        → IsManaged m
        → IsManaged (add_peer linked linked_set channel btc now a m c).0
    unfolding add_peer
    add_peer-IsManaged now a m c v = elim (Bool-cases (is_peer m a)) [
      | inl q ↦ rw (add_peer, q) v
      | inr q ↦
          let peer : PeerInfo = record {
            socket = a;
            height = 0;
            tip = block_hash m.blockchain.header_cache.genesis.header;
          } in
          rw (add_peer, q)
            (send_getheaders-IsManaged btc channel now a
              (locator_hashes btc m.blockchain, default_hash)
              (record m { peer_info = Map.insert addr_eq a peer m.peer_info }) c
              (record {
                keyed = insert-IsKeyed a peer m.peer_info refl v.keyed;
                limited = v.limited;
              }))
    ]

    catch_up-IsManaged :
        (now : ℕ) (a : SocketAddr) (m : BlockchainManager) (c : C)
        → IsManaged m
        → IsManaged (catch_up linked linked_set channel btc now a m c).0
    unfolding catch_up
    catch_up-IsManaged now a m c v =
        elim (Bool-cases (not (has_request m a) && Set.contains addr_eq a m.catchup_headers)) [
          | inl q ↦
              let v' =
                send_getheaders-IsManaged btc channel now a
                  (locator_hashes btc m.blockchain, default_hash) m c v in
              rw (catch_up, q) (record { keyed = v'.keyed; limited = v'.limited })
          | inr q ↦ rw (catch_up, q) v
        ]

    refresh-IsManaged :
        (now : ℕ) (active : List SocketAddr) (m : BlockchainManager) (c : C)
        → IsManaged m
        → IsManaged (refresh linked linked_set channel btc now active m c).0
    unfolding refresh
    refresh-IsManaged now [] m c v = v
    refresh-IsManaged now (a ∷ as') m c v =
        let m1 = (add_peer linked linked_set channel btc now a m c).0 in
        let c1 = (add_peer linked linked_set channel btc now a m c).1 in
        refresh-IsManaged now as' (catch_up linked linked_set channel btc now a m1 c1).0
          (catch_up linked linked_set channel btc now a m1 c1).1
          (catch_up-IsManaged now a m1 c1 (add_peer-IsManaged now a m c v))

    drop_expired-IsManaged :
        (gone : List SocketAddr) (m : BlockchainManager) (c : C)
        → IsManaged m
        → IsManaged (drop_expired linked linked_set channel btc gone m c).0
    unfolding drop_expired
    drop_expired-IsManaged [] m c v = v
    drop_expired-IsManaged (a ∷ as') m c v =
        drop_expired-IsManaged as' (remove_request a m) (channel.discard a c)
          (record { keyed = v.keyed; limited = v.limited })

    sync_blocks-peers :
        (now : ℕ) (m : BlockchainManager) (c : C)
        → (sync_blocks linked linked_set channel btc now m c).0.peer_info ≡ m.peer_info
    unfolding sync_blocks
    sync_blocks-peers now m c = ground arith

    pub tick-IsManaged :
        (now : ℕ) (m : BlockchainManager) (c : C)
        → IsManaged m
        → IsManaged (tick linked linked_set channel btc now m c).0
    unfolding tick handle_getheaders_timeouts
    tick-IsManaged now m c v =
        let active = channel.available_connections c in
        let m0 = remove_peers active (Map.keys m.peer_info) m in
        let v0 = remove_peers-IsManaged active (Map.keys m.peer_info) m v in
        let m1 = (refresh linked linked_set channel btc now active m0 c).0 in
        let c1 = (refresh linked linked_set channel btc now active m0 c).1 in
        let v1 = refresh-IsManaged now active m0 c v0 in
        let m2 = (sync_blocks linked linked_set channel btc now m1 c1).0 in
        let c2 = (sync_blocks linked linked_set channel btc now m1 c1).1 in
        drop_expired-IsManaged (expired linked linked_set channel btc now m2.getheaders_requests) m2
          c2
          (record {
            keyed = rw (sync_blocks-peers now m1 c1) v1.keyed;
            limited =
                sync_blocks-IsLimited linked linked_set channel btc now m1 c1 v1.keyed v1.limited;
          })
