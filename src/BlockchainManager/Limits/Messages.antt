-- ===== src/BlockchainManager/Limits/Messages.antt =====
-- src/blockchainmanager.rs: every operation of the manager keeps its peers under their addresses, and
-- the open requests to each within the limit.
use bitcoin_adaptor.Base.{
  ℕ, ◌≤◌, ◌≡◌, refl, ◌∙◌, inl, inr, Bool, true, false, not, ◌&&◌, Option, none, some, List, [], ◌∷◌,
  same, length, arith, Bool-cases, Option-cases, Result-cases, last, ltb, keep_if,
}
use bitcoin_adaptor.Base.Map
use bitcoin_adaptor.Bitcoin.{
  BlockHash, hash_eq, BlockHeader, Block, SocketAddr, addr_eq, Inventory, NetworkMessage,
  BitcoinLib,
}
use bitcoin_adaptor.Adapter.{Channel}
use bitcoin_adaptor.BlockchainState.{add_headers}
use bitcoin_adaptor.BlockchainState.Locators.{locator_hashes}
use bitcoin_adaptor.HeaderCache.{HeaderNode}
use bitcoin_adaptor.BlockchainManager.{
  BlockchainManager, PeerInfo, GetDataRequestInfo, Locators, send_getheaders, received_inv_message,
  received_headers_message, received_block_message, accept_headers, is_peer, make_idle,
  process_bitcoin_network_message, scan_inv, has_request, next_locators, last_header, raise_peer,
  max_inv_size, max_headers_size, max_unsolicited_headers,
}
use bitcoin_adaptor.BlockchainManager.Sync.{forget_peer}
use bitcoin_adaptor.BlockchainManager.Limits.{requests_to, is_to, IsLimited, IsManaged}
use bitcoin_adaptor.BlockchainManager.Limits.Peers.{get-socket, insert-IsKeyed}

pub remove-le :
    (a : SocketAddr) (h : BlockHash) (rs : List (BlockHash × GetDataRequestInfo))
    → requests_to a (Map.remove hash_eq h rs) ≤ requests_to a rs
remove-le a h [] = omega arith
remove-le a h ((k, r) ∷ rs) = ground (arith, remove-le a h rs)

pub retain-le :
    (a : SocketAddr) (p : BlockHash → Bool) (rs : List (BlockHash × GetDataRequestInfo))
    → requests_to a (Map.retain (λ h _. p h) rs) ≤ requests_to a rs
retain-le a p [] = omega arith
retain-le a p ((k, r) ∷ rs) = elim (Bool-cases (p k)) [
  | inl q ↦ ground (arith, retain-le a p rs)
  | inr q ↦ ground (arith, retain-le a p rs)
]

forgotten : (a b : SocketAddr) (r : GetDataRequestInfo) → is_to a (forget_peer b r) ≡ is_to a r
forgotten a b r = elim (Bool-cases (same addr_eq r.socket b)) [
  | inl q ↦ rw (forget_peer, q) refl
  | inr q ↦ rw (forget_peer, q) refl
]

pub forget-eq :
    (a b : SocketAddr) (rs : List (BlockHash × GetDataRequestInfo))
    → requests_to a (Map.map_values (forget_peer b) rs) ≡ requests_to a rs
forget-eq a b [] = refl
forget-eq a b ((k, r) ∷ rs) = elim (Bool-cases (is_to a r)) [
  | inl q ↦
      let q' : is_to a (forget_peer b r) ≡ true = forgotten a b r ∙ q in
      rw (Map.map_values, Map.values, keep_if, q', q) (omega (arith, forget-eq a b rs))
  | inr q ↦
      let q' : is_to a (forget_peer b r) ≡ false = forgotten a b r ∙ q in
      rw (Map.map_values, Map.values, keep_if, q', q) (forget-eq a b rs)
]

pub IsLimited-le :
    (rs rs' : List (BlockHash × GetDataRequestInfo))
    → ((a : SocketAddr) → requests_to a rs' ≤ requests_to a rs)
    → IsLimited rs
    → IsLimited rs'
IsLimited-le rs rs' le limited a = omega (arith, le a, limited a)

pub new_or_idle-IsManaged : (m : BlockchainManager) → IsManaged (make_idle m)
unfolding make_idle
new_or_idle-IsManaged m = record { keyed = tt; limited = λ a. omega arith }

-- What changes neither the peers nor the requests for blocks.
same-IsManaged :
    (m m' : BlockchainManager)
    → m'.peer_info ≡ m.peer_info
    → m'.getdata_request_info ≡ m.getdata_request_info
    → IsManaged m
    → IsManaged m'
same-IsManaged m m' e f v = record { keyed = rw e v.keyed; limited = rw f v.limited }

module _ (btc : BitcoinLib) where
  open btc use {block_hash}

  received_block-IsManaged :
      (a : SocketAddr) (block : Block) (m : BlockchainManager)
      → IsManaged m
      → IsManaged (received_block_message btc a block m).0
  unfolding received_block_message
  received_block-IsManaged a block m v = elim (Bool-cases (is_peer m a)) [
    | inr p ↦ rw (received_block_message, p) v
    | inl p ↦
        let h = block_hash block.header in
        elim (Option-cases (Map.get hash_eq h m.getdata_request_info)) [
          | inl q ↦ rw (received_block_message, p, q) v
          | inr (r, q) ↦
              rw (received_block_message, p, q)
                (record {
                  keyed = v.keyed;
                  limited =
                      IsLimited-le m.getdata_request_info
                        (Map.remove hash_eq h m.getdata_request_info)
                        (λ b. remove-le b h m.getdata_request_info) v.limited;
                })
        ]
  ]

  module _ {C : Type 0} (channel : Channel C) where
    pub send_getheaders-IsManaged :
        (now : ℕ) (a : SocketAddr) (locators : Locators) (m : BlockchainManager) (c : C)
        → IsManaged m
        → IsManaged (send_getheaders btc channel now a locators m c).0
    unfolding send_getheaders
    send_getheaders-IsManaged now a locators m c v = elim (Bool-cases (is_peer m a)) [
      | inl p ↦ rw (send_getheaders, p) (record { keyed = v.keyed; limited = v.limited })
      | inr p ↦ rw (send_getheaders, p) v
    ]

    received_inv-IsManaged :
        (now : ℕ) (a : SocketAddr) (inventory : List Inventory) (m : BlockchainManager) (c : C)
        → IsManaged m
        → IsManaged (received_inv_message btc channel now a inventory m c).0
    unfolding received_inv_message
    received_inv-IsManaged now a inventory m c v =
        elim (Bool-cases (ltb max_inv_size (length inventory))) [
          | inl big ↦ rw (received_inv_message, big) v
          | inr small ↦ elim (Option-cases (Map.get addr_eq a m.peer_info)) [
            | inl q ↦ rw (received_inv_message, small, q) v
            | inr (peer, q) ↦
                let peer' : PeerInfo = record peer {
                  tip = (scan_inv m.blockchain inventory peer.tip none).0;
                } in
                let m1 : BlockchainManager = record m {
                  peer_info = Map.insert addr_eq a peer' m.peer_info;
                } in
                let v1 : IsManaged m1 = record {
                  keyed =
                      insert-IsKeyed a peer' m.peer_info (get-socket a peer m.peer_info v.keyed q)
                        v.keyed;
                  limited = v.limited;
                } in
                elim (Option-cases (scan_inv m.blockchain inventory peer.tip none).1) [
                  | inl l ↦ rw (received_inv_message, small, q, l) v1
                  | inr (stop_hash, l) ↦ elim (Bool-cases (has_request m a)) [
                    | inl r ↦
                        rw (received_inv_message, small, q, l, r)
                          (record { keyed = v1.keyed; limited = v1.limited })
                    | inr r ↦
                        rw (received_inv_message, small, q, l, r)
                          (send_getheaders-IsManaged now a
                            (locator_hashes btc m.blockchain, stop_hash) m1 c v1)
                  ]
                ]
          ]
        ]

    raise-socket :
        (maybe_last : Option HeaderNode) (peer : PeerInfo)
        → (raise_peer block_hash maybe_last peer).socket ≡ peer.socket
    raise-socket none peer = refl
    raise-socket (some c) peer = ground arith

    accept_headers-IsManaged :
        (now : ℕ) (a : SocketAddr) (peer : PeerInfo) (headers : List BlockHeader)
        (last_one : BlockHeader) (m : BlockchainManager) (c : C)
        → peer.socket ≡ a
        → IsManaged m
        → IsManaged (accept_headers btc channel now a peer headers last_one m c).0
    unfolding accept_headers
    accept_headers-IsManaged now a peer headers last_one m c e v =
        let s = (add_headers btc m.blockchain headers).0 in
        let nodes = (add_headers btc m.blockchain headers).1 in
        let maybe_err = (add_headers btc m.blockchain headers).2 in
        let maybe_last = last_header s nodes (block_hash last_one) in
        let peer' = raise_peer block_hash maybe_last peer in
        let m1 : BlockchainManager = record m {
          blockchain = s;
          peer_info = Map.insert addr_eq a peer' m.peer_info;
        } in
        let v1 : IsManaged m1 = record {
          keyed = insert-IsKeyed a peer' m.peer_info (raise-socket maybe_last peer ∙ e) v.keyed;
          limited = v.limited;
        } in
        elim (Result-cases (next_locators btc s (length headers) maybe_last maybe_err)) [
          | inr (e, q) ↦ rw (accept_headers, q) v1
          | inl (none, q) ↦
              rw (accept_headers, q) (record { keyed = v1.keyed; limited = v1.limited })
          | inl (some locators, q) ↦
              rw (accept_headers, q) (send_getheaders-IsManaged now a locators m1 c v1)
        ]

    received_headers-IsManaged :
        (now : ℕ) (a : SocketAddr) (headers : List BlockHeader) (m : BlockchainManager) (c : C)
        → IsManaged m
        → IsManaged (received_headers_message btc channel now a headers m c).0
    unfolding received_headers_message
    received_headers-IsManaged now a headers m c v =
        elim (Option-cases (Map.get addr_eq a m.peer_info)) [
          | inl q ↦ rw (received_headers_message, q) v
          | inr (peer, q) ↦
              elim (Bool-cases
                (ltb max_unsolicited_headers (length headers) && not (has_request m a))) [
                  | inl u ↦ rw (received_headers_message, q, u) v
                  | inr u ↦ elim (Bool-cases (ltb max_headers_size (length headers))) [
                    | inl b ↦ rw (received_headers_message, q, u, b) v
                    | inr b ↦ elim (Option-cases (last headers)) [
                      | inl l ↦
                          rw (received_headers_message, q, u, b, l)
                            (record { keyed = v.keyed; limited = v.limited })
                      | inr (last_one, l) ↦
                          rw (received_headers_message, q, u, b, l)
                            (accept_headers-IsManaged now a peer headers last_one m c
                              (get-socket a peer m.peer_info v.keyed q) v)
                    ]
                  ]
                ]
        ]

    pub process_message-IsManaged :
        (now : ℕ) (a : SocketAddr) (message : NetworkMessage) (m : BlockchainManager) (c : C)
        → IsManaged m
        → IsManaged (process_bitcoin_network_message btc channel now a message m c).0
    unfolding process_bitcoin_network_message
    process_message-IsManaged now a message m c v =
        elim message
          as (λ k. IsManaged (process_bitcoin_network_message btc channel now a k m c).0) [
            | NetworkMessage.inv inventory ↦ received_inv-IsManaged now a inventory m c v
            | NetworkMessage.headers headers ↦ received_headers-IsManaged now a headers m c v
            | NetworkMessage.block block ↦ received_block-IsManaged a block m v
            | _ ↦ v
          ]
