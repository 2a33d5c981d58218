-- ===== src/BlockchainManager/Sync/Download.antt =====
-- src/blockchainmanager.rs: `sync_blocks`, which requests blocks from the peers.
use bitcoin_adaptor.Base.{
  ℕ, zero, suc, ◌+◌, ◌-◌, ◌*◌, ◌^◌, Bool, true, ◌&&◌, Option, none, some, List, [], ◌∷◌, ltb, leb,
  if◌then◌else◌, is_empty, map,
}
use bitcoin_adaptor.Base.Map
use bitcoin_adaptor.Base.Linked.{LinkedHashMap, LinkedHashSet}
use bitcoin_adaptor.Bitcoin.{
  BlockHash, hash_eq, SocketAddr, addr_eq, Inventory, NetworkMessage, BitcoinLib,
}
use bitcoin_adaptor.Adapter.{Command, Channel, elapsed_secs}
use bitcoin_adaptor.BlockchainState as State
use bitcoin_adaptor.BlockchainState.{BlockchainState}
use bitcoin_adaptor.BlockchainManager.{BlockchainManager, PeerInfo, GetDataRequestInfo}

abbrev pub getdata_request_timeout_secs : ℕ
getdata_request_timeout_secs = 30

abbrev pub inv_per_get_data_request : ℕ
inv_per_get_data_request = 8

abbrev pub block_cache_threshold_bytes : ℕ
block_cache_threshold_bytes = 10 * (1_024 * 1_024)

abbrev pub needs_retry : ℕ → GetDataRequestInfo → Bool
needs_retry now r = elim r.sent_at [
  | some sent_at ↦ ltb getdata_request_timeout_secs (elapsed_secs now sent_at)
  | none ↦ true
]

-- `requests_per_peer`, a `HashMap<SocketAddr, u32>`
abbrev pub zero_counts : List (SocketAddr × PeerInfo) → List (SocketAddr × ℕ)
zero_counts [] = []
zero_counts ((a, p) ∷ ps) = (a, 0) ∷ zero_counts ps

abbrev pub count_of : SocketAddr → List (SocketAddr × ℕ) → ℕ
count_of a counts = elim (Map.get addr_eq a counts) [ none ↦ 0 | some n ↦ n ]

-- `saturating_add(1)` on a `u32`
abbrev pub count_up : ℕ → ℕ
count_up n = if ltb n (2 ^ 32 - 1) then n + 1 else n

unfoldable pub count_requests :
    List (BlockHash × GetDataRequestInfo) → List (SocketAddr × ℕ) → List (SocketAddr × ℕ)
count_requests [] counts = counts
count_requests ((h, r) ∷ rs) counts =
    count_requests rs (Map.insert addr_eq r.socket (count_up (count_of r.socket counts)) counts)

-- `sort_by`, which is stable: fewest requests first.
unfoldable pub insert_peer : List (SocketAddr × ℕ) → PeerInfo → List PeerInfo → List PeerInfo
insert_peer counts p [] = p ∷ []
insert_peer counts p (q ∷ qs) =
    if leb (count_of p.socket counts) (count_of q.socket counts)
    then p ∷ q ∷ qs
    else q ∷ insert_peer counts p qs

unfoldable pub sort_peers : List (SocketAddr × ℕ) → List PeerInfo → List PeerInfo
unfolding insert_peer
sort_peers counts [] = []
sort_peers counts (p ∷ ps) = insert_peer counts p (sort_peers counts ps)

-- The retry queue and the sync queue, which `sync_blocks` consumes.
pub record Queues : Type 0 where
  pub retry_queue : List BlockHash
  pub sync_queue : List BlockHash

unfoldable pub get_next_block_hash_to_sync : Bool → Queues → Option BlockHash × Queues
get_next_block_hash_to_sync is_cache_full q = elim q.retry_queue [
  | h ∷ rest ↦ (some h, record q { retry_queue = rest })
  | [] ↦ if is_cache_full then (none, q) else elim q.sync_queue [
    | [] ↦ (none, q)
    | h ∷ rest ↦ (some h, record q { sync_queue = rest })
  ]
]

-- `for _ in 0..num_requests_to_be_sent`
unfoldable pub select : Bool → ℕ → Queues → List BlockHash × Queues
unfolding get_next_block_hash_to_sync
select full zero q = ([], q)
select full (suc n) q =
    let (next, q') = get_next_block_hash_to_sync full q in
    elim next [
      | none ↦ ([], q')
      | some h ↦ let (selected, q'') = select full n q' in (h ∷ selected, q'')
    ]

abbrev pub getdata : SocketAddr → List BlockHash → Command
getdata a hashes = record {
  address = some a;
  message = NetworkMessage.get_data (map Inventory.block hashes);
}

module _ (linked : LinkedHashMap GetDataRequestInfo hash_eq)
    (linked_set : LinkedHashSet hash_eq) where
  unfoldable pub retries :
      ℕ → List (BlockHash × GetDataRequestInfo) → List BlockHash → List BlockHash
  retries now [] queue = queue
  retries now ((h, r) ∷ rs) queue =
      retries now rs (if needs_retry now r then linked_set.insert h queue else queue)

  unfoldable pub record_requests :
      ℕ
      → SocketAddr
      → List BlockHash
      → List (BlockHash × GetDataRequestInfo)
      → List (BlockHash × GetDataRequestInfo)
  record_requests now a [] requests = requests
  record_requests now a (h ∷ hs) requests =
      record_requests now a hs
        (linked.replace h (record { socket = a; sent_at = some now }) requests)

  module _ {C : Type 0} (channel : Channel C) where
    -- The loop over the peers, which ends at the first peer for which nothing is left to select.
    unfoldable pub request_blocks :
        ℕ
        → Bool
        → List (SocketAddr × ℕ)
        → List PeerInfo
        → Queues
        → List (BlockHash × GetDataRequestInfo)
        → C
        → Queues × List (BlockHash × GetDataRequestInfo) × C
    unfolding select record_requests
    request_blocks now full counts [] q requests c = (q, requests, c)
    request_blocks now full counts (p ∷ ps) q requests c =
        let (selected, q') = select full (inv_per_get_data_request - count_of p.socket counts) q in
        elim selected [
          | [] ↦ (q', requests, c)
          | h ∷ hs ↦
              request_blocks now full counts ps q' (record_requests now p.socket (h ∷ hs) requests)
                (channel.send (getdata p.socket (h ∷ hs)) c)
        ]

    module _ (btc : BitcoinLib) where
      open btc use {block_hash}

      unfoldable pub sync_blocks : ℕ → BlockchainManager → C → BlockchainManager × C
      unfolding retries count_requests sort_peers request_blocks
      sync_blocks now m c =
          let retry_queue = retries now m.getdata_request_info [] in
          if is_empty retry_queue && is_empty m.block_sync_queue
          then (m, c)
          else let full =
              leb block_cache_threshold_bytes (State.get_block_cache_size btc m.blockchain) in
            let counts = count_requests m.getdata_request_info (zero_counts m.peer_info) in
            let (q, requests, c') =
              request_blocks now full counts (sort_peers counts (Map.values m.peer_info))
                (record { retry_queue = retry_queue; sync_queue = m.block_sync_queue })
                m.getdata_request_info c in
            (record m { getdata_request_info = requests; block_sync_queue = q.sync_queue }, c')
