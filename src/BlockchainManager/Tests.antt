-- ===== src/BlockchainManager/Tests.antt =====
-- Tests of the blockchain manager.
use bitcoin_adaptor.Base.{
  ◌<◌, ◌≤◌, ◌≡◌, ◌&&◌, ◌||◌, refl, [], ◌∷◌, length, false, not, if◌then◌else◌, none,
}
use bitcoin_adaptor.Base.Map
use bitcoin_adaptor.Base.Set
use bitcoin_adaptor.Base.Linked.{linked_map, linked_set}
use bitcoin_adaptor.Bitcoin.{regtest, hash_eq, NetworkMessage}
use bitcoin_adaptor.Samples.{header, lib, peer, log}
use bitcoin_adaptor.BlockchainState as State
use bitcoin_adaptor.BlockchainState.Valid.{IsValid}
use bitcoin_adaptor.BlockchainState.History.{new-IsValid}
use bitcoin_adaptor.BlockchainManager.{BlockchainManager, new, process_bitcoin_network_message}
use bitcoin_adaptor.BlockchainManager.Sync.{
  Queues, select, enqueue_new_blocks_to_download, remove_processed, is_wanted,
}
use bitcoin_adaptor.BlockchainManager.Selection.{IsTaken, select_lem}
use bitcoin_adaptor.BlockchainManager.Sync.{tick}
use bitcoin_adaptor.Adapter.Channels.{recorder}
use bitcoin_adaptor.Bitcoin.{BlockHash}
use bitcoin_adaptor.Base.{All, some, ◌⊎◌, ◌+◌, ◌^◌, ◌≤◌, ltb}
use bitcoin_adaptor.BlockchainManager.Sync
use bitcoin_adaptor.BlockchainManager.Effects.{IsRequest}
use bitcoin_adaptor.BlockchainManager.Effects.Ticks.{tick_requests}
use bitcoin_adaptor.BlockchainManager.Pruning.{pruned, manager_prune_lem}
use bitcoin_adaptor.BlockchainManager.Messages.{process_message-IsValid}

abbrev manager : BlockchainManager
manager = new (State.new lib regtest)

abbrev two_queues : Queues
two_queues = record { retry_queue = 7 ∷ []; sync_queue = 8 ∷ 9 ∷ [] }

two_selected : (select false 2 two_queues).0 ≡ 7 ∷ 8 ∷ []
unfolding select
two_selected = refl

select_lem_example :
    (length (select false 2 two_queues).0 ≤ 2)
    × IsTaken false two_queues (select false 2 two_queues).0 (select false 2 two_queues).1
select_lem_example = select_lem false 2 two_queues

abbrev queued : BlockchainManager
queued = record manager { block_sync_queue = 2 ∷ 3 ∷ [] }

-- A peer that is known sends a header.
abbrev with_peer : BlockchainManager
with_peer = record manager {
  peer_info = (peer 1, record { socket = peer 1; height = 0; tip = 1 }) ∷ [];
}

process_message-IsValid_example :
    IsValid lib
      (process_bitcoin_network_message lib log 0
        (peer 1)
        (NetworkMessage.headers (header 2 1 ∷ []))
        with_peer
        []).0.blockchain
process_message-IsValid_example =
    process_message-IsValid lib log 0 (peer 1) (NetworkMessage.headers (header 2 1 ∷ [])) with_peer
      [] (new-IsValid lib regtest)

tick_requests_example :
    All IsRequest
      (Sync.tick
        (linked_map hash_eq)
        (linked_set hash_eq)
        (recorder (peer 1 ∷ []))
        lib
        7
        queued
        []).1
tick_requests_example =
    tick_requests lib (linked_map hash_eq) (linked_set hash_eq) (peer 1 ∷ []) 7 queued

manager_prune_lem_example :
    ((2 ^ 32 ≤ State.height_of queued.blockchain 1 + 1)
      × (Sync.prune_blocks 1 (2 ∷ []) queued ≡ none))
    ⊎ ((State.height_of queued.blockchain 1 + 1 < 2 ^ 32)
        × ((m' : BlockchainManager) × (Sync.prune_blocks 1 (2 ∷ []) queued ≡ some m')
            × (m'.blockchain ≡ pruned 1 (2 ∷ []) queued.blockchain)
            × ((h : BlockHash)
                → let gone =
                    Set.contains hash_eq h (2 ∷ [])
                    || ltb
                        (State.height_of queued.blockchain h)
                        (State.height_of queued.blockchain 1 + 1) in
                  (State.get_block m'.blockchain h
                    ≡ (if gone then none else State.get_block queued.blockchain h))
                  × (Set.contains hash_eq h m'.block_sync_queue
                      ≡ (Set.contains hash_eq h queued.block_sync_queue && not gone))
                  × (Map.get hash_eq h m'.getdata_request_info
                      ≡ (if gone then none else Map.get hash_eq h queued.getdata_request_info)))))
manager_prune_lem_example = manager_prune_lem 1 (2 ∷ []) queued
