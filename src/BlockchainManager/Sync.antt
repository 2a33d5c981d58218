-- ===== src/BlockchainManager/Sync.antt =====
-- src/blockchainmanager.rs: peers, timeouts, `tick` and pruning.
mod Download
unfoldable pub use Download.*
use bitcoin_adaptor.Base.{
  ℕ, zero, suc, ◌+◌, ◌-◌, ◌*◌, ◌^◌, Bool, true, false, not, ◌&&◌, Option, none, some, List, [], ◌∷◌,
  ltb, leb, same, if◌then◌else◌, is_empty, keep_if, map,
}
use bitcoin_adaptor.Base.Map
use bitcoin_adaptor.Base.Set
use bitcoin_adaptor.Base.Linked.{LinkedHashMap, LinkedHashSet}
use bitcoin_adaptor.Bitcoin.{
  BlockHash, hash_eq, default_hash, BlockHeader, SocketAddr, addr_eq, Inventory, NetworkMessage,
  BitcoinLib,
}
use bitcoin_adaptor.Adapter.{Command, Channel, elapsed_secs}
use bitcoin_adaptor.BlockchainState as State
use bitcoin_adaptor.BlockchainState.{BlockchainState}
use bitcoin_adaptor.BlockchainState.Locators.{locator_hashes}
use bitcoin_adaptor.BlockchainManager.{
  BlockchainManager, PeerInfo, GetHeadersRequest, GetDataRequestInfo, is_peer, has_request,
  has_timed_out, remove_request, send_getheaders,
}

-- `request.sent_at = None` for the requests to a peer that is gone.
abbrev pub forget_peer : SocketAddr → GetDataRequestInfo → GetDataRequestInfo
forget_peer a r = if same addr_eq r.socket a then record r { sent_at = none } else r

unfoldable pub remove_peer : SocketAddr → BlockchainManager → BlockchainManager
remove_peer a m = record m {
  peer_info = Map.remove addr_eq a m.peer_info;
  getdata_request_info = Map.map_values (forget_peer a) m.getdata_request_info;
  getheaders_requests = Map.remove addr_eq a m.getheaders_requests;
  catchup_headers = Set.remove addr_eq a m.catchup_headers;
}

unfoldable pub remove_peers :
    List SocketAddr → List SocketAddr → BlockchainManager → BlockchainManager
unfolding remove_peer
remove_peers active [] m = m
remove_peers active (a ∷ as') m =
    remove_peers active as' (if Set.contains addr_eq a active then m else remove_peer a m)

module _ (linked : LinkedHashMap GetDataRequestInfo hash_eq)
    (linked_set : LinkedHashSet hash_eq) where
  module _ {C : Type 0} (channel : Channel C) where
    module _ (btc : BitcoinLib) where
      open btc use {block_hash}

      unfoldable pub add_peer : ℕ → SocketAddr → BlockchainManager → C → BlockchainManager × C
      unfolding send_getheaders
      add_peer now a m c =
          if is_peer m a
          then (m, c)
          else let genesis_hash = block_hash m.blockchain.header_cache.genesis.header in
            let peer : PeerInfo = record { socket = a; height = 0; tip = genesis_hash } in
            send_getheaders btc channel now a (locator_hashes btc m.blockchain, default_hash)
              (record m { peer_info = Map.insert addr_eq a peer m.peer_info }) c

      abbrev pub expired : ℕ → List (SocketAddr × GetHeadersRequest) → List SocketAddr
      expired now [] = []
      expired now ((a, r) ∷ rs) = if has_timed_out now r then a ∷ expired now rs else expired now rs

      unfoldable pub drop_expired : List SocketAddr → BlockchainManager → C → BlockchainManager × C
      drop_expired [] m c = (m, c)
      drop_expired (a ∷ as') m c = drop_expired as' (remove_request a m) (channel.discard a c)

      unfoldable pub handle_getheaders_timeouts : ℕ → BlockchainManager → C → BlockchainManager × C
      unfolding drop_expired
      handle_getheaders_timeouts now m c = drop_expired (expired now m.getheaders_requests) m c

      -- For one active connection: a new peer is added, and missed headers are caught up.
      unfoldable pub catch_up : ℕ → SocketAddr → BlockchainManager → C → BlockchainManager × C
      unfolding send_getheaders
      catch_up now a m c =
          if not (has_request m a) && Set.contains addr_eq a m.catchup_headers
          then (let (m', c') =
                send_getheaders btc channel now a (locator_hashes btc m.blockchain, default_hash) m
                  c in
              (record m' { catchup_headers = Set.remove addr_eq a m'.catchup_headers }, c'))
          else (m, c)

      unfoldable pub refresh : ℕ → List SocketAddr → BlockchainManager → C → BlockchainManager × C
      unfolding add_peer catch_up
      refresh now [] m c = (m, c)
      refresh now (a ∷ as') m c =
          let (m1, c1) = add_peer now a m c in
          let (m2, c2) = catch_up now a m1 c1 in refresh now as' m2 c2

      unfoldable pub tick : ℕ → BlockchainManager → C → BlockchainManager × C
      unfolding remove_peers refresh sync_blocks handle_getheaders_timeouts
      tick now m c =
          let active = channel.available_connections c in
          let (m1, c1) = refresh now active (remove_peers active (Map.keys m.peer_info) m) c in
          let (m2, c2) = sync_blocks linked linked_set channel btc now m1 c1 in
          handle_getheaders_timeouts now m2 c2

  module _ (btc : BitcoinLib) where
    open btc use {block_hash}

    -- A hash is new if it is neither cached, nor queued, nor requested.
    abbrev pub is_wanted : BlockchainManager → BlockHash → Bool
    is_wanted m h =
        elim (State.get_block m.blockchain h) [ none ↦ true | some b ↦ false ]
        && not (Set.contains hash_eq h m.block_sync_queue)
        && not (Map.contains_key hash_eq h m.getdata_request_info)

    unfoldable pub enqueue_new_blocks_to_download :
        List BlockHeader → BlockchainManager → BlockchainManager
    enqueue_new_blocks_to_download [] m = m
    enqueue_new_blocks_to_download (header ∷ rest) m =
        let h = block_hash header in
        enqueue_new_blocks_to_download rest (
          if is_wanted m h
          then record m { block_sync_queue = linked_set.insert h m.block_sync_queue }
          else m)

abbrev pub is_high : BlockchainState → ℕ → BlockHash → Bool
is_high s height h = leb height (State.height_of s h)

unfoldable pub remove_processed : List BlockHash → BlockchainManager → BlockchainManager
remove_processed [] m = m
remove_processed (h ∷ hs) m = remove_processed hs (record m {
  getdata_request_info = Map.remove hash_eq h m.getdata_request_info;
  block_sync_queue = Set.remove hash_eq h m.block_sync_queue;
})

-- `none` is the panic of `checked_add(1).expect(..)` on a `u32`.
unfoldable pub prune_blocks :
    BlockHash → List BlockHash → BlockchainManager → Option BlockchainManager
unfolding remove_processed State.prune_blocks State.prune_blocks_below_height
prune_blocks anchor processed_block_hashes m =
    let filter_height = State.height_of m.blockchain anchor + 1 in
    if leb (2 ^ 32) filter_height
    then none
    else let s =
        State.prune_blocks_below_height filter_height
          (State.prune_blocks processed_block_hashes m.blockchain) in
      some (
        remove_processed processed_block_hashes (record m {
          blockchain = s;
          getdata_request_info =
              Map.retain (λ b _. is_high s filter_height b) m.getdata_request_info;
          block_sync_queue = keep_if (is_high s filter_height) m.block_sync_queue;
        }))
