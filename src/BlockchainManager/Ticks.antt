-- ===== src/BlockchainManager/Ticks.antt =====
-- src/blockchainmanager.rs: `tick` leaves the blockchain state as it is.
use bitcoin_adaptor.Base.{
  ℕ, ◌≡◌, refl, ◌∙◌, inl, inr, not, ◌&&◌, List, [], ◌∷◌, Bool-cases, is_empty,
}
use bitcoin_adaptor.Base.Map
use bitcoin_adaptor.Base.Set
use bitcoin_adaptor.Base.Linked.{LinkedHashMap, LinkedHashSet}
use bitcoin_adaptor.Bitcoin.{hash_eq, default_hash, BitcoinLib, SocketAddr, addr_eq}
use bitcoin_adaptor.Adapter.{Channel}
use bitcoin_adaptor.BlockchainState.Locators.{locator_hashes}
use bitcoin_adaptor.BlockchainManager.{
  BlockchainManager, GetDataRequestInfo, PeerInfo, is_peer, has_request, remove_request,
}
use bitcoin_adaptor.BlockchainManager.Messages.{send_getheaders-blockchain}
use bitcoin_adaptor.BlockchainManager.Sync.{
  remove_peer, remove_peers, retries, sync_blocks, add_peer, catch_up, drop_expired, expired,
  handle_getheaders_timeouts, refresh, tick,
}

remove_peers-blockchain :
    (active peers : List SocketAddr) (m : BlockchainManager)
    → (remove_peers active peers m).blockchain ≡ m.blockchain
unfolding remove_peers remove_peer
remove_peers-blockchain active [] m = refl
remove_peers-blockchain active (a ∷ as') m = elim (Bool-cases (Set.contains addr_eq a active)) [
  | inl q ↦ rw (remove_peers, q) (remove_peers-blockchain active as' m)
  | inr q ↦ rw (remove_peers, q) (remove_peers-blockchain active as' (remove_peer a m))
]

module _ (linked : LinkedHashMap GetDataRequestInfo hash_eq) (linked_set : LinkedHashSet hash_eq)
    {C : Type 0} (channel : Channel C) (btc : BitcoinLib) where
  open btc use {block_hash}

  add_peer-blockchain :
      (now : ℕ) (a : SocketAddr) (m : BlockchainManager) (c : C)
      → (add_peer linked linked_set channel btc now a m c).0.blockchain ≡ m.blockchain
  unfolding add_peer
  add_peer-blockchain now a m c = elim (Bool-cases (is_peer m a)) [
    | inl q ↦ rw (add_peer, q) refl
    | inr q ↦
        let peer : PeerInfo = record {
          socket = a;
          height = 0;
          tip = block_hash m.blockchain.header_cache.genesis.header;
        } in
        rw (add_peer, q)
          (send_getheaders-blockchain btc channel now a
            (locator_hashes btc m.blockchain, default_hash)
            (record m { peer_info = Map.insert addr_eq a peer m.peer_info }) c)
  ]

  catch_up-blockchain :
      (now : ℕ) (a : SocketAddr) (m : BlockchainManager) (c : C)
      → (catch_up linked linked_set channel btc now a m c).0.blockchain ≡ m.blockchain
  unfolding catch_up
  catch_up-blockchain now a m c =
      elim (Bool-cases (not (has_request m a) && Set.contains addr_eq a m.catchup_headers)) [
        | inl q ↦
            rw (catch_up, q)
              (send_getheaders-blockchain btc channel now a
                (locator_hashes btc m.blockchain, default_hash) m c)
        | inr q ↦ rw (catch_up, q) refl
      ]

  refresh-blockchain :
      (now : ℕ) (active : List SocketAddr) (m : BlockchainManager) (c : C)
      → (refresh linked linked_set channel btc now active m c).0.blockchain ≡ m.blockchain
  unfolding refresh
  refresh-blockchain now [] m c = refl
  refresh-blockchain now (a ∷ as') m c =
      let m1 = (add_peer linked linked_set channel btc now a m c).0 in
      let c1 = (add_peer linked linked_set channel btc now a m c).1 in
      let m2 = (catch_up linked linked_set channel btc now a m1 c1).0 in
      let c2 = (catch_up linked linked_set channel btc now a m1 c1).1 in
      refresh-blockchain now as' m2 c2
      ∙ catch_up-blockchain now a m1 c1
      ∙ add_peer-blockchain now a m c

  sync_blocks-blockchain :
      (now : ℕ) (m : BlockchainManager) (c : C)
      → (sync_blocks linked linked_set channel btc now m c).0.blockchain ≡ m.blockchain
  unfolding sync_blocks
  sync_blocks-blockchain now m c =
      elim (Bool-cases (
        is_empty (retries linked linked_set now m.getdata_request_info [])
        && is_empty m.block_sync_queue)) [
          | inl q ↦ rw (sync_blocks, q) refl
          | inr q ↦ rw (sync_blocks, q) refl
        ]

  drop_expired-blockchain :
      (gone : List SocketAddr) (m : BlockchainManager) (c : C)
      → (drop_expired linked linked_set channel btc gone m c).0.blockchain ≡ m.blockchain
  unfolding drop_expired
  drop_expired-blockchain [] m c = refl
  drop_expired-blockchain (a ∷ as') m c =
      drop_expired-blockchain as' (remove_request a m) (channel.discard a c)

  -- A tick of the manager drops and adds peers, requests headers and blocks, and drops requests that
  -- timed out; it leaves the blockchain state, headers, tips and cached blocks, as it is.
  pub tick-blockchain :
      (now : ℕ) (m : BlockchainManager) (c : C)
      → (tick linked linked_set channel btc now m c).0.blockchain ≡ m.blockchain
  unfolding tick handle_getheaders_timeouts
  tick-blockchain now m c =
      let active = channel.available_connections c in
      let m0 = remove_peers active (Map.keys m.peer_info) m in
      let m1 = (refresh linked linked_set channel btc now active m0 c).0 in
      let c1 = (refresh linked linked_set channel btc now active m0 c).1 in
      let m2 = (sync_blocks linked linked_set channel btc now m1 c1).0 in
      let c2 = (sync_blocks linked linked_set channel btc now m1 c1).1 in
      drop_expired-blockchain (expired linked linked_set channel btc now m2.getheaders_requests) m2
        c2
      ∙ sync_blocks-blockchain now m1 c1
      ∙ refresh-blockchain now active m0 c
      ∙ remove_peers-blockchain active (Map.keys m.peer_info) m
