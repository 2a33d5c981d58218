-- ===== src/Router/Known.antt =====
-- src/router.rs: what an event does to the headers, and to the blocks that are downloaded.
use bitcoin_adaptor.Base.{ℕ, ◌+◌, ◌≡◌, ap, ◌∙◌, inl, inr, some, Option-cases, arith, map, List}
use bitcoin_adaptor.Base.Linked.{LinkedHashMap, LinkedHashSet}
use bitcoin_adaptor.Bitcoin.{hash_eq, BlockHash, SocketAddr, NetworkMessage, BitcoinLib}
use bitcoin_adaptor.Adapter.{BlockchainManagerRequest, enqueue_new_blocks_to_download, prune_blocks}
use bitcoin_adaptor.AddressBook.{Environment}
use bitcoin_adaptor.HeaderCache as Cache
use bitcoin_adaptor.HeaderCache.{HeaderCache}
use bitcoin_adaptor.BlockchainState as State
use bitcoin_adaptor.BlockchainState.{BlockchainState}
use bitcoin_adaptor.BlockchainState.Valid.{IsValid}
use bitcoin_adaptor.BlockchainState.Blocks.{prune_blocks_lem, prune_blocks_below_height_lem}
use bitcoin_adaptor.BlockchainState.Persistence.{Extends}
use bitcoin_adaptor.ConnectionManager.Manage
use bitcoin_adaptor.ConnectionManager.Messages
use bitcoin_adaptor.BlockchainManager as Blocks
use bitcoin_adaptor.BlockchainManager.{BlockchainManager, GetDataRequestInfo}
use bitcoin_adaptor.BlockchainManager.Sync
use bitcoin_adaptor.BlockchainManager.Pruning.{prune_blocks-blockchain, pruned}
use bitcoin_adaptor.BlockchainManager.Selection.{enqueue_rest}
use bitcoin_adaptor.BlockchainManager.Ticks.{tick-blockchain}
use bitcoin_adaptor.BlockchainManager.Known.{Within, in_list, is_known}
use bitcoin_adaptor.BlockchainManager.Known.Headers.{process_message-Extends}
use bitcoin_adaptor.BlockchainManager.Known.Operations.{
  Downloads, process_message-Downloads, tick-Downloads, prune_blocks-Downloads, enqueue-Downloads,
}
use bitcoin_adaptor.TransactionManager.{TransactionInfo}
use bitcoin_adaptor.Router.{
  Router, Event, stream_event, network_message, blockchain_request, send_transaction, ticked,
  connection_channel, discard_if, after_tick, dispatch, tick, handle,
}

abbrev pub cache_of : Router → HeaderCache
cache_of r = r.blockchain_manager.blockchain.header_cache

module _ (btc : BitcoinLib) where
  open btc use {block_hash}

  -- The headers that a request brings have hashes that are cached.
  abbrev pub IsKnownRequest : HeaderCache → BlockchainManagerRequest → Type 0
  IsKnownRequest cache (enqueue_new_blocks_to_download headers) =
      Within (in_list (map block_hash headers)) (is_known cache)
  IsKnownRequest cache (prune_blocks anchor processed) = Unit

  abbrev pub IsKnownEvent : HeaderCache → Event → Type 0
  IsKnownEvent cache (blockchain_request request) = IsKnownRequest cache request
  IsKnownEvent cache (stream_event a kind) = Unit
  IsKnownEvent cache (network_message a message) = Unit
  IsKnownEvent cache (send_transaction raw_tx) = Unit
  IsKnownEvent cache ticked = Unit

  pub Extends-Within :
      (cache cache' : HeaderCache)
      → Extends btc cache cache'
      → Within (is_known cache) (is_known cache')
  Extends-Within cache cache' x h e = elim (Option-cases (Cache.get cache h)) [
    | inl q ↦ absurd (ground arith)
    | inr (c, q) ↦ ground (arith, x h c q)
  ]

  pub Extends-IsKnownRequest :
      (cache cache' : HeaderCache) (request : BlockchainManagerRequest)
      → Extends btc cache cache'
      → IsKnownRequest cache request
      → IsKnownRequest cache' request
  Extends-IsKnownRequest cache cache' (enqueue_new_blocks_to_download headers) x k =
      λ h e. Extends-Within cache cache' x h (k h e)
  Extends-IsKnownRequest cache cache' (prune_blocks anchor processed) x k = tt

  Downloads-Extends :
      (cache cache' : HeaderCache) (m : BlockchainManager)
      → Extends btc cache cache'
      → Downloads (is_known cache) m
      → Downloads (is_known cache') m
  Downloads-Extends cache cache' m x (f, g) = (
    λ h e. Extends-Within cache cache' x h (f h e),
    λ h e. Extends-Within cache cache' x h (g h e),
  )

  pruned-cache :
      (anchor : BlockHash) (processed : List BlockHash) (s : BlockchainState)
      → (pruned anchor processed s).header_cache ≡ s.header_cache
  pruned-cache anchor processed s =
      (prune_blocks_below_height_lem (State.height_of s anchor + 1)
        (State.prune_blocks processed s)).1
      ∙ (prune_blocks_lem processed s).1

  module _ (env : Environment) (transaction_map : LinkedHashMap TransactionInfo hash_eq)
      (request_map : LinkedHashMap GetDataRequestInfo hash_eq)
      (hash_set : LinkedHashSet hash_eq) where
    -- What an event leaves: the headers that were cached, and among them the blocks that are queued
    -- or requested.
    abbrev pub IsKept : Router → Router → Type 0
    IsKept r r' =
        Extends btc (cache_of r) (cache_of r')
        × Downloads (is_known (cache_of r')) r'.blockchain_manager

    unchanged :
        (r : Router) (m : BlockchainManager)
        → m.blockchain.header_cache ≡ cache_of r
        → Downloads (is_known (cache_of r)) m
        → Extends btc (cache_of r) m.blockchain.header_cache
          × Downloads (is_known m.blockchain.header_cache) m
    unchanged r m e d =
        let x : Extends btc (cache_of r) m.blockchain.header_cache = rw e (λ h c q. q) in
        (x, Downloads-Extends (cache_of r) m.blockchain.header_cache m x d)

    dispatch-IsKept :
        (now : ℕ) (a : SocketAddr) (message : NetworkMessage) (r : Router)
        → IsValid btc r.blockchain_manager.blockchain
        → Downloads (is_known (cache_of r)) r.blockchain_manager
        → IsKept r (dispatch btc env transaction_map request_map hash_set now a message r)
    unfolding dispatch
    dispatch-IsKept now a message r v d =
        let channel = connection_channel now in
        let step1 =
          Messages.process_bitcoin_network_message btc now a message r.connection_manager in
        let c2 = discard_if now a step1.1 step1.0 in
        let m' =
          (Blocks.process_bitcoin_network_message btc channel now a message r.blockchain_manager
            c2).0 in
        let x = process_message-Extends btc channel now a message r.blockchain_manager c2 v in
        (
          x,
          Downloads-Extends (cache_of r) m'.blockchain.header_cache m' x (
              process_message-Downloads btc (is_known (cache_of r)) channel now a message
                r.blockchain_manager c2 d),
        )

    pub handle-IsKept :
        (now : ℕ) (event : Event) (r r' : Router)
        → IsValid btc r.blockchain_manager.blockchain
        → IsKnownEvent (cache_of r) event
        → Downloads (is_known (cache_of r)) r.blockchain_manager
        → handle btc env transaction_map request_map hash_set now event r ≡ some r'
        → IsKept r r'
    unfolding handle tick
    handle-IsKept now (stream_event a kind) r r' v k d e =
        let same : r.blockchain_manager ≡ r'.blockchain_manager = ground arith in
        rw (← same) (λ h c q. q, d)
    handle-IsKept now (network_message a message) r r' v k d e =
        let e' : dispatch btc env transaction_map request_map hash_set now a message r ≡ r' =
          ground arith in
        rw (← e') (dispatch-IsKept now a message r v d)
    handle-IsKept now (blockchain_request (enqueue_new_blocks_to_download headers)) r r' v k d e =
        let b =
          Sync.enqueue_new_blocks_to_download request_map hash_set btc headers
            r.blockchain_manager in
        let e' : b ≡ r'.blockchain_manager = ground arith in
        rw (← e') (
          unchanged r b
            (ap (λ (s : BlockchainState). s.header_cache)
              (enqueue_rest request_map hash_set btc headers r.blockchain_manager).0)
            (enqueue-Downloads btc (is_known (cache_of r)) request_map hash_set headers
              r.blockchain_manager k d))
    handle-IsKept now (blockchain_request (prune_blocks anchor processed)) r r' v k d e =
        elim (Option-cases (Sync.prune_blocks anchor processed r.blockchain_manager)) [
          | inl q ↦ absurd (ground (arith, rw (handle, q) at e))
          | inr (b, q) ↦
              let e' : record r { blockchain_manager = b } ≡ r' =
                ground (arith, rw (handle, q) at e) in
              let s = r.blockchain_manager.blockchain in
              rw (← e') (
                unchanged r b
                  (ap (λ (s : BlockchainState). s.header_cache)
                      (prune_blocks-blockchain anchor processed r.blockchain_manager b q)
                    ∙ pruned-cache anchor processed s)
                  (prune_blocks-Downloads btc (is_known (cache_of r)) anchor processed
                    r.blockchain_manager b q d))
        ]
    handle-IsKept now (send_transaction raw_tx) r r' v k d e =
        let same : r.blockchain_manager ≡ r'.blockchain_manager = ground arith in
        rw (← same) (λ h c q. q, d)
    handle-IsKept now ticked r r' v k d e =
        let height = (State.get_active_chain_tip r.blockchain_manager.blockchain).height in
        elim (Option-cases (Manage.tick env now height r.connection_manager)) [
          | inl q ↦ absurd (ground (arith, rw (handle, tick, q) at e))
          | inr (c1, q) ↦
              let e' : after_tick btc env transaction_map request_map hash_set now r c1 ≡ r' =
                ground (arith, rw (handle, tick, q) at e) in
              let channel = connection_channel now in
              let b = (Sync.tick request_map hash_set channel btc now r.blockchain_manager c1).0 in
              rw (← e') (
                unchanged r b
                  (ap (λ (s : BlockchainState). s.header_cache)
                    (tick-blockchain request_map hash_set channel btc now r.blockchain_manager c1))
                  (tick-Downloads btc (is_known (cache_of r)) channel request_map hash_set now
                    r.blockchain_manager c1 d))
        ]
