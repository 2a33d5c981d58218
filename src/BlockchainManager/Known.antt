-- ===== src/BlockchainManager/Known.antt =====
-- src/blockchainmanager.rs: where only known headers are queued, only known blocks are downloaded.
pub mod Operations
pub mod Headers
use bitcoin_adaptor.Base.{
  ℕ, ◌-◌, ◌≡◌, refl, sym, ap, ◌∙◌, ◌⊎◌, inl, inr, Bool, true, false, ◌||◌, none, some, List, [],
  ◌∷◌, ◌++◌, ◌&&◌, same, if◌then◌else◌, arith, Bool-cases, List-cases, is_empty, leb,
}
use bitcoin_adaptor.Base.Map
use bitcoin_adaptor.Base.Set
use bitcoin_adaptor.Base.Linked.{LinkedHashMap, LinkedHashSet}
use bitcoin_adaptor.Bitcoin.{BlockHash, hash_eq, SocketAddr, BitcoinLib}
use bitcoin_adaptor.Adapter.{Channel}
use bitcoin_adaptor.BlockchainState as State
use bitcoin_adaptor.HeaderCache as Cache
use bitcoin_adaptor.HeaderCache.{HeaderCache}
use bitcoin_adaptor.BlockchainManager.{BlockchainManager, PeerInfo, GetDataRequestInfo}
use bitcoin_adaptor.BlockchainManager.Selection.{select_lem}
use bitcoin_adaptor.BlockchainManager.Sync.{
  Queues, select, count_of, count_requests, zero_counts, sort_peers, retries, record_requests,
  request_blocks, getdata, sync_blocks, needs_retry, inv_per_get_data_request,
  block_cache_threshold_bytes,
}

abbrev Requests : Type 0
Requests = List (BlockHash × GetDataRequestInfo)

-- A set of hashes that a header is cached for, given by its test.
abbrev pub Within : (BlockHash → Bool) → (BlockHash → Bool) → Type 0
Within p q = (h : BlockHash) → p h ≡ true → q h ≡ true

abbrev pub in_list : List BlockHash → BlockHash → Bool
in_list hs h = Set.contains hash_eq h hs

abbrev pub is_requested : Requests → BlockHash → Bool
is_requested rs h = Map.contains_key hash_eq h rs

abbrev pub is_known : HeaderCache → BlockHash → Bool
is_known cache h = Cache.contains cache h

-- Every block that is queued or requested has a cached header.
pub record IsKnowing (m : BlockchainManager) : Type 0 where
  pub queued : Within (in_list m.block_sync_queue) (is_known m.blockchain.header_cache)
  pub requested : Within (is_requested m.getdata_request_info) (is_known m.blockchain.header_cache)

either :
    (p : BlockHash → Bool) (h : BlockHash) (xs ys : List BlockHash)
    → (in_list xs h ≡ true → p h ≡ true)
    → (in_list ys h ≡ true → p h ≡ true)
    → in_list (xs ++ ys) h ≡ true
    → p h ≡ true
either p h xs ys f g e = ground (arith, Set.contains-append hash_eq h xs ys)

module _ (linked : LinkedHashMap GetDataRequestInfo hash_eq) (linked_set : LinkedHashSet hash_eq)
    (p : BlockHash → Bool) where
  retries-Within :
      (now : ℕ) (rs : Requests) (queue : List BlockHash)
      → Within (is_requested rs) p
      → Within (in_list queue) p
      → Within (in_list (retries linked linked_set now rs queue)) p
  unfolding retries
  retries-Within now [] queue f g = g
  retries-Within now ((k, r) ∷ rs) queue f g =
      let f' : Within (is_requested rs) p = λ h e. f h (ground arith) in
      elim (Bool-cases (needs_retry now r)) [
        | inl q ↦
            rw (retries, q)
              (retries-Within now rs (linked_set.insert k queue) f'
                (λ h e. ground (arith, linked_set.contains-insert h k queue, f h, g h)))
        | inr q ↦ rw (retries, q) (retries-Within now rs queue f' g)
      ]

  record_requests-Within :
      (now : ℕ) (a : SocketAddr) (hs : List BlockHash) (rs : Requests)
      → Within (in_list hs) p
      → Within (is_requested rs) p
      → Within (is_requested (record_requests linked linked_set now a hs rs)) p
  unfolding record_requests
  record_requests-Within now a [] rs f g = g
  record_requests-Within now a (k ∷ hs) rs f g =
      let r : GetDataRequestInfo = record { socket = a; sent_at = some now } in
      record_requests-Within now a hs (linked.replace k r rs) (λ h e. f h (ground arith))
        (λ h e. ground (arith, linked.get-replace h k r rs, f h, g h))

  -- What `select` takes, and what it leaves, was in the queues.
  select-Within :
      (full : Bool) (n : ℕ) (q : Queues)
      → Within (in_list q.retry_queue) p
      → Within (in_list q.sync_queue) p
      → Within (in_list (select full n q).0) p
        × Within (in_list (select full n q).1.retry_queue) p
        × Within (in_list (select full n q).1.sync_queue) p
  select-Within full n q f g =
      let q' = (select full n q).1 in
      let (_, (retried, synced, t, r, s, _)) = select_lem full n q in
      let f' : Within (in_list (retried ++ q'.retry_queue)) p = rw (← r) f in
      let g' : Within (in_list (synced ++ q'.sync_queue)) p = rw (← s) g in
      (
        λ h e.
            either p h retried synced
              (λ i. f' h (ground (arith, Set.contains-append hash_eq h retried q'.retry_queue)))
              (λ i. g' h (ground (arith, Set.contains-append hash_eq h synced q'.sync_queue)))
              (ap (λ hs. in_list hs h) (sym t) ∙ e),
        λ h e. f' h (ground (arith, Set.contains-append hash_eq h retried q'.retry_queue)),
        λ h e. g' h (ground (arith, Set.contains-append hash_eq h synced q'.sync_queue)),
      )

  module _ {C : Type 0} (channel : Channel C) where
    request_blocks-Within :
        (now : ℕ) (full : Bool) (counts : List (SocketAddr × ℕ)) (ps : List PeerInfo) (q : Queues)
        (rs : Requests) (c : C)
        → Within (in_list q.retry_queue) p
        → Within (in_list q.sync_queue) p
        → Within (is_requested rs) p
        → let after = request_blocks linked linked_set channel now full counts ps q rs c in
          Within (in_list after.0.sync_queue) p × Within (is_requested after.1) p
    unfolding request_blocks
    request_blocks-Within now full counts [] q rs c f g h = (g, h)
    request_blocks-Within now full counts (k ∷ ps) q rs c f g h =
        let n = inv_per_get_data_request - count_of k.socket counts in
        let (taken, f', g') = select-Within full n q f g in
        elim (List-cases (select full n q).0) [
          | inl e ↦ rw (request_blocks, e) (g', h)
          | inr (b, bs, e) ↦
              let taken' : Within (in_list (b ∷ bs)) p =
                λ h i. taken h (ap (λ hs. in_list hs h) e ∙ i) in
              rw (request_blocks, e)
                (request_blocks-Within now full counts ps (select full n q).1
                  (record_requests linked linked_set now k.socket (b ∷ bs) rs)
                  (channel.send (getdata k.socket (b ∷ bs)) c) f' g'
                  (record_requests-Within now k.socket (b ∷ bs) rs taken' h))
        ]

    module _ (btc : BitcoinLib) where
      pub sync_blocks-Within :
          (now : ℕ) (m : BlockchainManager) (c : C)
          → Within (in_list m.block_sync_queue) p
          → Within (is_requested m.getdata_request_info) p
          → let m' = (sync_blocks linked linked_set channel btc now m c).0 in
            Within (in_list m'.block_sync_queue) p × Within (is_requested m'.getdata_request_info) p
      unfolding sync_blocks
      sync_blocks-Within now m c g h =
          let retry_queue = retries linked linked_set now m.getdata_request_info [] in
          elim (Bool-cases (is_empty retry_queue && is_empty m.block_sync_queue)) [
            | inl q ↦ rw (sync_blocks, q) (g, h)
            | inr q ↦
                let full =
                  leb block_cache_threshold_bytes (State.get_block_cache_size btc m.blockchain) in
                let counts = count_requests m.getdata_request_info (zero_counts m.peer_info) in
                rw (sync_blocks, q)
                  (request_blocks-Within now full counts
                    (sort_peers counts (Map.values m.peer_info))
                    (record { retry_queue = retry_queue; sync_queue = m.block_sync_queue })
                    m.getdata_request_info c
                    (retries-Within now m.getdata_request_info [] h (λ b e. cc)) g h)
          ]
