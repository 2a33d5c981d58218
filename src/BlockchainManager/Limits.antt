-- ===== src/BlockchainManager/Limits.antt =====
-- src/blockchainmanager.rs: how many requests for blocks are open with one peer. The loop of
-- `sync_blocks` counts them once, and then visits each peer once.
pub mod Peers
pub mod Messages
pub mod Ticks
use bitcoin_adaptor.Base.{
  ℕ, ◌+◌, ◌-◌, ◌^◌, ◌≤◌, ◌<◌, ◌≡◌, refl, sym, ap, inl, inr, ◌≢◌, Bool, true, false, ◌&&◌, none,
  some, List, [], ◌∷◌, same, if◌then◌else◌, length, arith, Bool-cases, List-cases, is_empty,
  keep_if, All, All-map, leb,
}
use bitcoin_adaptor.Base.Map
use bitcoin_adaptor.Base.Linked.{LinkedHashMap, LinkedHashSet}
use bitcoin_adaptor.Bitcoin.{BlockHash, hash_eq, SocketAddr, addr_eq, BitcoinLib}
use bitcoin_adaptor.Adapter.{Channel}
use bitcoin_adaptor.BlockchainState as State
use bitcoin_adaptor.BlockchainManager.{BlockchainManager, PeerInfo, GetDataRequestInfo}
use bitcoin_adaptor.BlockchainManager.Selection.{select_lem}
use bitcoin_adaptor.BlockchainManager.Limits.Peers.{
  IsDistinct, sort_peers-IsDistinct, IsKeyed, IsKeyed-IsDistinct,
}
use bitcoin_adaptor.BlockchainManager.Sync.{
  Queues, select, count_of, count_up, count_requests, zero_counts, sort_peers, retries,
  record_requests, request_blocks, getdata, sync_blocks, inv_per_get_data_request,
  block_cache_threshold_bytes,
}

abbrev Requests : Type 0
Requests = List (BlockHash × GetDataRequestInfo)

abbrev pub is_to : SocketAddr → GetDataRequestInfo → Bool
is_to a r = same addr_eq r.socket a

-- The open requests to a peer.
abbrev pub requests_to : SocketAddr → Requests → ℕ
requests_to a rs = length (keep_if (is_to a) (Map.values rs))

count_of-insert :
    (a b : SocketAddr) (n : ℕ) (counts : List (SocketAddr × ℕ))
    → count_of a (Map.insert addr_eq b n counts)
      ≡ (if same addr_eq a b then n else count_of a counts)
count_of-insert a b n counts = ground (arith, Map.get-insert addr_eq a b n counts)

count_of-zero :
    (a : SocketAddr) (ps : List (SocketAddr × PeerInfo)) → count_of a (zero_counts ps) ≡ 0
count_of-zero a [] = refl
count_of-zero a ((b, p) ∷ ps) = ground (arith, count_of-zero a ps)

-- While it does not saturate, the counter of a peer adds its open requests.
count_of-count_requests :
    (a : SocketAddr) (rs : Requests) (counts : List (SocketAddr × ℕ))
    → count_of a counts + requests_to a rs < 2 ^ 32
    → count_of a (count_requests rs counts) ≡ count_of a counts + requests_to a rs
unfolding count_requests
count_of-count_requests a [] counts le = omega arith
count_of-count_requests a ((h, r) ∷ rs) counts le =
    let counts' = Map.insert addr_eq r.socket (count_up (count_of r.socket counts)) counts in
    ground (
      arith,
      count_of-insert a r.socket (count_up (count_of r.socket counts)) counts,
      count_of-count_requests a rs counts',
    )

counted_from_zero :
    (a : SocketAddr) (rs : Requests) (ps : List (SocketAddr × PeerInfo))
    → requests_to a rs ≤ inv_per_get_data_request
    → count_of a (count_requests rs (zero_counts ps)) ≡ requests_to a rs
counted_from_zero a rs ps le =
    let z = count_of-zero a ps in
    let small : count_of a (zero_counts ps) + requests_to a rs < 2 ^ 32 = omega (arith, z, le) in
    omega (arith, count_of-count_requests a rs (zero_counts ps) small, z)

everywhere :
    (P : SocketAddr → Type 0)
    → ((a : SocketAddr) → P a)
    → (ps : List PeerInfo) → All (λ (p : PeerInfo). P p.socket) ps
everywhere P f [] = tt
everywhere P f (p ∷ ps) = (f p.socket, everywhere P f ps)

-- No peer has more open requests than one message may hold.
abbrev pub IsLimited : Requests → Type 0
IsLimited rs = (a : SocketAddr) → requests_to a rs ≤ inv_per_get_data_request

module _ (linked : LinkedHashMap GetDataRequestInfo hash_eq)
    (linked_set : LinkedHashSet hash_eq) where
  record_requests-le :
      (now : ℕ) (a b : SocketAddr) (hs : List BlockHash) (rs : Requests)
      → requests_to b (record_requests linked linked_set now a hs rs)
        ≤ requests_to b rs + (if same addr_eq a b then length hs else 0)
  unfolding record_requests
  record_requests-le now a b [] rs = omega arith
  record_requests-le now a b (h ∷ hs) rs =
      let r : GetDataRequestInfo = record { socket = a; sent_at = some now } in
      ground (
        arith,
        record_requests-le now a b hs (linked.replace h r rs),
        linked.count-replace (is_to b) h r rs,
      )

  -- What the loop keeps for the peers that it has yet to visit: their counters are right.
  abbrev IsCounted : List (SocketAddr × ℕ) → Requests → List PeerInfo → Type 0
  IsCounted counts rs ps =
      All (λ (p : PeerInfo). requests_to p.socket rs ≤ count_of p.socket counts) ps

  recorded-IsCounted :
      (now : ℕ) (counts : List (SocketAddr × ℕ)) (a : SocketAddr) (hs : List BlockHash)
      (rs : Requests) (ps : List PeerInfo)
      → All (λ (q : PeerInfo). a ≢ q.socket) ps
      → IsCounted counts rs ps
      → IsCounted counts (record_requests linked linked_set now a hs rs) ps
  recorded-IsCounted now counts a hs rs [] n i = tt
  recorded-IsCounted now counts a hs rs (q ∷ ps) n i = (
    ground (arith, record_requests-le now a q.socket hs rs),
    recorded-IsCounted now counts a hs rs ps n.1 i.1,
  )

  recorded-IsLimited :
      (now n : ℕ) (a : SocketAddr) (hs : List BlockHash) (rs : Requests)
      → requests_to a rs ≤ n
      → length hs ≤ inv_per_get_data_request - n
      → n ≤ inv_per_get_data_request
      → IsLimited rs
      → IsLimited (record_requests linked linked_set now a hs rs)
  recorded-IsLimited now n a hs rs le few small limited b =
      ground (arith, record_requests-le now a b hs rs, limited b)

  module _ {C : Type 0} (channel : Channel C) where
    request_blocks-IsLimited :
        (now : ℕ) (full : Bool) (counts : List (SocketAddr × ℕ)) (ps : List PeerInfo) (q : Queues)
        (rs : Requests) (c : C)
        → IsDistinct ps
        → IsCounted counts rs ps
        → All (λ (p : PeerInfo). count_of p.socket counts ≤ inv_per_get_data_request) ps
        → IsLimited rs
        → IsLimited (request_blocks linked linked_set channel now full counts ps q rs c).1
    unfolding request_blocks
    request_blocks-IsLimited now full counts [] q rs c d i s limited = limited
    request_blocks-IsLimited now full counts (p ∷ ps) q rs c d i s limited =
        let n = inv_per_get_data_request - count_of p.socket counts in
        elim (List-cases (select full n q).0) [
          | inl e ↦ rw (request_blocks, e) limited
          | inr (h, hs, e) ↦
              let few : length (h ∷ hs) ≤ n = omega (arith, (select_lem full n q).0, ap length e) in
              rw (request_blocks, e)
                (request_blocks-IsLimited now full counts ps (select full n q).1
                  (record_requests linked linked_set now p.socket (h ∷ hs) rs)
                  (channel.send (getdata p.socket (h ∷ hs)) c) d.1
                  (recorded-IsCounted now counts p.socket (h ∷ hs) rs ps d.0 i.1) s.1
                  (recorded-IsLimited now (count_of p.socket counts) p.socket (h ∷ hs) rs i.0 few
                    s.0 limited))
        ]

    module _ (btc : BitcoinLib) where
      pub sync_blocks-IsLimited :
          (now : ℕ) (m : BlockchainManager) (c : C)
          → IsKeyed m.peer_info
          → IsLimited m.getdata_request_info
          → IsLimited (sync_blocks linked linked_set channel btc now m c).0.getdata_request_info
      unfolding sync_blocks
      sync_blocks-IsLimited now m c keyed limited =
          let retry_queue = retries linked linked_set now m.getdata_request_info [] in
          elim (Bool-cases (is_empty retry_queue && is_empty m.block_sync_queue)) [
            | inl q ↦ rw (sync_blocks, q) limited
            | inr q ↦
                let full =
                  leb block_cache_threshold_bytes (State.get_block_cache_size btc m.blockchain) in
                let zeros = zero_counts m.peer_info in
                let counts = count_requests m.getdata_request_info zeros in
                let counted : (a : SocketAddr)
                    → count_of a counts ≡ requests_to a m.getdata_request_info =
                  λ a. counted_from_zero a m.getdata_request_info m.peer_info (limited a) in
                let peers = sort_peers counts (Map.values m.peer_info) in
                rw (sync_blocks, q)
                  (request_blocks-IsLimited now full counts peers
                    (record { retry_queue = retry_queue; sync_queue = m.block_sync_queue })
                    m.getdata_request_info c
                    (sort_peers-IsDistinct counts (Map.values m.peer_info)
                      (IsKeyed-IsDistinct m.peer_info keyed))
                    (everywhere (λ a. requests_to a m.getdata_request_info ≤ count_of a counts)
                      (λ a. omega (arith, counted a)) peers)
                    (everywhere (λ a. count_of a counts ≤ inv_per_get_data_request)
                      (λ a. omega (arith, counted a, limited a)) peers)
                    limited)
          ]

-- Each peer stands under its address, and none has too many open requests.
pub record IsManaged (m : BlockchainManager) : Type 0 where
  pub keyed : IsKeyed m.peer_info
  pub limited : IsLimited m.getdata_request_info
