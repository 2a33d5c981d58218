-- ===== src/BlockchainManager/Selection.antt =====
-- src/blockchainmanager.rs: which blocks are requested, and which are queued.
use bitcoin_adaptor.Base.{
  ℕ, zero, suc, ◌≤◌, ◌≡◌, refl, sym, ap, ◌∙◌, ◌⊎◌, inl, inr, Bool, true, false, not, ◌&&◌, ◌||◌,
  Option, none, some, List, [], ◌∷◌, ◌++◌, if◌then◌else◌, length, arith, Bool-cases, List-cases,
  map,
}
use bitcoin_adaptor.Base.Map
use bitcoin_adaptor.Base.Set
use bitcoin_adaptor.Base.Linked.{LinkedHashMap, LinkedHashSet}
use bitcoin_adaptor.Bitcoin.{BlockHash, hash_eq, BlockHeader, BitcoinLib}
use bitcoin_adaptor.BlockchainManager.{BlockchainManager, GetDataRequestInfo}
use bitcoin_adaptor.BlockchainManager.Sync.{
  Queues, get_next_block_hash_to_sync, select, is_wanted, enqueue_new_blocks_to_download,
  remove_processed,
}

-- `taken` was taken off the queues: first from the front of the retry queue, and from that of the
-- sync queue only if the retry queue is used up and the cache is not full.
abbrev pub IsTaken : Bool → Queues → List BlockHash → Queues → Type 0
IsTaken full q taken q' =
    (retried : List BlockHash) × (synced : List BlockHash) × (taken ≡ retried ++ synced)
    × (q.retry_queue ≡ retried ++ q'.retry_queue)
    × (q.sync_queue ≡ synced ++ q'.sync_queue)
    × ((synced ≡ []) ⊎ ((full ≡ false) × (q'.retry_queue ≡ [])))

append_nil : (xs ys : List BlockHash) → xs ++ ys ≡ [] → (xs ≡ []) × (ys ≡ [])
append_nil [] ys e = (refl, e)
append_nil (x ∷ xs) ys e = cc

-- What one choice does: nothing, or it takes the first hash of one of the queues.
get_next-cases :
    (full : Bool) (q : Queues)
    → (get_next_block_hash_to_sync full q ≡ (none, q))
      ⊎ ((h : BlockHash) × (rest : List BlockHash) × (q.retry_queue ≡ h ∷ rest)
          × (get_next_block_hash_to_sync full q ≡ (some h, record q { retry_queue = rest })))
      ⊎ ((h : BlockHash) × (rest : List BlockHash) × (q.retry_queue ≡ [])
          × (full ≡ false)
          × (q.sync_queue ≡ h ∷ rest)
          × (get_next_block_hash_to_sync full q ≡ (some h, record q { sync_queue = rest })))
unfolding get_next_block_hash_to_sync
get_next-cases full q = elim (List-cases q.retry_queue) [
  | inr (h, rest, e) ↦ inr (inl (h, rest, e, rw (get_next_block_hash_to_sync, e) refl))
  | inl e ↦ elim (Bool-cases full) [
    | inl f ↦ inl (stays_full e f)
    | inr f ↦ elim (List-cases q.sync_queue) [
      | inl e' ↦ inl (stays_empty e f e')
      | inr (h, rest, e') ↦ inr (inr (h, rest, e, f, e', synced e f e'))
    ]
  ]
]
  where
    stays_full : q.retry_queue ≡ [] → full ≡ true → get_next_block_hash_to_sync full q ≡ (none, q)
    stays_full e f = ground arith

    stays_empty :
        q.retry_queue ≡ []
        → full ≡ false
        → q.sync_queue ≡ []
        → get_next_block_hash_to_sync full q ≡ (none, q)
    stays_empty e f g = ground arith

    synced :
        {h : BlockHash} {rest : List BlockHash}
        → q.retry_queue ≡ []
        → full ≡ false
        → q.sync_queue ≡ h ∷ rest
        → get_next_block_hash_to_sync full q ≡ (some h, record q { sync_queue = rest })
    synced e f g = ground arith

abbrev step : Bool → ℕ → Option BlockHash × Queues → List BlockHash × Queues
step full n g = elim g.0 [
  | none ↦ ([], g.1)
  | some h ↦ (h ∷ (select full n g.1).0, (select full n g.1).1)
]

select-step :
    {g : Option BlockHash × Queues} (full : Bool) (n : ℕ) (q : Queues)
    → get_next_block_hash_to_sync full q ≡ g
    → select full (suc n) q ≡ step full n g
unfolding select
select-step full n q e = ap (step full n) e

-- Selecting the hashes for one request takes at most the number asked for, and they are what left
-- the front of the two queues: no hash is lost or repeated, retries go first, and a full cache
-- leaves the sync queue.
pub select_lem :
    (full : Bool) (n : ℕ) (q : Queues)
    → (length (select full n q).0 ≤ n) × IsTaken full q (select full n q).0 (select full n q).1
unfolding select
select_lem full zero q = (omega arith, ([], [], refl, refl, refl, inl refl))
select_lem full (suc n) q = elim (get_next-cases full q) [
  | inl e ↦ rw (select-step full n q e) (omega arith, ([], [], refl, refl, refl, inl refl))
  | inr (inl (h, rest, e, g)) ↦
      let q1 : Queues = record q { retry_queue = rest } in
      let (le, (retried, synced, t, r, s, f)) = select_lem full n q1 in
      rw (select-step full n q g)
        (omega (arith, le), (h ∷ retried, synced, ap (λ x. h ∷ x) t, e ∙ ap (λ x. h ∷ x) r, s, f))
  | inr (inr (h, rest, e, f, e', g)) ↦
      let q1 : Queues = record q { sync_queue = rest } in
      let (le, (retried, synced, t, r, s, _)) = select_lem full n q1 in
      let (none_retried, left) = append_nil retried _ (sym r ∙ e) in
      rw (select-step full n q g) (
        omega (arith, le),
        (
          [],
          h ∷ synced,
          ap (λ x. h ∷ x) (t ∙ ap (λ x. x ++ synced) none_retried),
          e ∙ sym left,
          e' ∙ ap (λ x. h ∷ x) s,
          inr (f, left),
        ),
      )
]

-- After a request, a hash is queued for download if it was before, or if it is of a given header
-- and was neither cached, nor queued, nor requested.
pub enqueue_lem :
    (linked : LinkedHashMap GetDataRequestInfo hash_eq) (linked_set : LinkedHashSet hash_eq)
    (btc : BitcoinLib) (headers : List BlockHeader) (m : BlockchainManager) (h : BlockHash)
    → Set.contains hash_eq h
        (enqueue_new_blocks_to_download linked linked_set btc headers m).block_sync_queue
      ≡ (Set.contains hash_eq h m.block_sync_queue
          || Set.contains hash_eq h (map btc.block_hash headers)
            && is_wanted linked linked_set btc m h)
unfolding enqueue_new_blocks_to_download
enqueue_lem linked linked_set btc [] m h = ground arith
enqueue_lem linked linked_set btc (header ∷ rest) m h =
    elim (Bool-cases (is_wanted linked linked_set btc m (btc.block_hash header))) [
      | inl w ↦
          let m1 : BlockchainManager = record m {
            block_sync_queue = linked_set.insert (btc.block_hash header) m.block_sync_queue;
          } in
          rw (enqueue_new_blocks_to_download, w)
            (ground (
              arith,
              enqueue_lem linked linked_set btc rest m1 h,
              linked_set.contains-insert h (btc.block_hash header) m.block_sync_queue,
            ))
      | inr w ↦
          rw (enqueue_new_blocks_to_download, w)
            (ground (arith, enqueue_lem linked linked_set btc rest m h))
    ]

-- Queueing changes nothing but the queue.
pub enqueue_rest :
    (linked : LinkedHashMap GetDataRequestInfo hash_eq) (linked_set : LinkedHashSet hash_eq)
    (btc : BitcoinLib) (headers : List BlockHeader) (m : BlockchainManager)
    → ((enqueue_new_blocks_to_download linked linked_set btc headers m).blockchain ≡ m.blockchain)
      × ((enqueue_new_blocks_to_download linked linked_set btc headers m).getdata_request_info
          ≡ m.getdata_request_info)
unfolding enqueue_new_blocks_to_download
enqueue_rest linked linked_set btc [] m = (refl, refl)
enqueue_rest linked linked_set btc (header ∷ rest) m =
    elim (Bool-cases (is_wanted linked linked_set btc m (btc.block_hash header))) [
      | inl w ↦
          rw (enqueue_new_blocks_to_download, w)
            (enqueue_rest linked linked_set btc rest (record m {
              block_sync_queue = linked_set.insert (btc.block_hash header) m.block_sync_queue;
            }))
      | inr w ↦ rw (enqueue_new_blocks_to_download, w) (enqueue_rest linked linked_set btc rest m)
    ]

-- After the processed blocks are removed, none of them is queued or requested, and all else is as
-- it was.
pub remove_processed_lem :
    (hashes : List BlockHash) (m : BlockchainManager) (h : BlockHash)
    → (Set.contains hash_eq h (remove_processed hashes m).block_sync_queue
        ≡ (Set.contains hash_eq h m.block_sync_queue && not (Set.contains hash_eq h hashes)))
      × (Map.get hash_eq h (remove_processed hashes m).getdata_request_info ≡ (
          if Set.contains hash_eq h hashes then none else Map.get hash_eq h m.getdata_request_info))
unfolding remove_processed
remove_processed_lem [] m h = (ground arith, refl)
remove_processed_lem (k ∷ hs) m h =
    let m1 : BlockchainManager = record m {
      getdata_request_info = Map.remove hash_eq k m.getdata_request_info;
      block_sync_queue = Set.remove hash_eq k m.block_sync_queue;
    } in
    let (queued, requested) = remove_processed_lem hs m1 h in
    (
      ground (arith, queued, Set.contains-remove hash_eq h k m.block_sync_queue),
      ground (arith, requested, Map.get-remove hash_eq h k m.getdata_request_info),
    )
