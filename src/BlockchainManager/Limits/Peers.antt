-- ===== src/BlockchainManager/Limits/Peers.antt =====
-- src/blockchainmanager.rs: the map `peer_info` has one entry for each peer, under its address.
use bitcoin_adaptor.Base.{
  ℕ, ◌≡◌, ◌≢◌, sym, ◌∙◌, some, List, [], ◌∷◌, All, All-map, arith, Bool-cases, inl, inr, same,
}
use bitcoin_adaptor.Base.Map
use bitcoin_adaptor.Bitcoin.{SocketAddr, addr_eq}
use bitcoin_adaptor.BlockchainManager.{PeerInfo}
use bitcoin_adaptor.BlockchainManager.Sync.{insert_peer, sort_peers}

-- No two of the peers have one address.
abbrev pub IsDistinct : List PeerInfo → Type 0
IsDistinct [] = Unit
IsDistinct (p ∷ ps) = All (λ q. p.socket ≢ q.socket) ps × IsDistinct ps

insert_peer-All :
    (P : PeerInfo → Type 0) (counts : List (SocketAddr × ℕ)) (p : PeerInfo) (ps : List PeerInfo)
    → P p
    → All P ps
    → All P (insert_peer counts p ps)
unfolding insert_peer
insert_peer-All P counts p [] h all = (h, tt)
insert_peer-All P counts p (q ∷ qs) h all = ground (arith, insert_peer-All P counts p qs h all.1)

sort_peers-All :
    (P : PeerInfo → Type 0) (counts : List (SocketAddr × ℕ)) (ps : List PeerInfo)
    → All P ps
    → All P (sort_peers counts ps)
unfolding sort_peers
sort_peers-All P counts [] all = tt
sort_peers-All P counts (p ∷ ps) all =
    insert_peer-All P counts p (sort_peers counts ps) all.0 (sort_peers-All P counts ps all.1)

insert_peer-IsDistinct :
    (counts : List (SocketAddr × ℕ)) (p : PeerInfo) (ps : List PeerInfo)
    → All (λ q. p.socket ≢ q.socket) ps
    → IsDistinct ps
    → IsDistinct (insert_peer counts p ps)
unfolding insert_peer
insert_peer-IsDistinct counts p [] n d = (tt, tt)
insert_peer-IsDistinct counts p (q ∷ qs) n d = ground (
  arith,
  insert_peer-IsDistinct counts p qs n.1 d.1,
  insert_peer-All (λ k. q.socket ≢ k.socket) counts p qs (λ e. n.0 (sym e)) d.0,
)

pub sort_peers-IsDistinct :
    (counts : List (SocketAddr × ℕ)) (ps : List PeerInfo)
    → IsDistinct ps
    → IsDistinct (sort_peers counts ps)
unfolding sort_peers
sort_peers-IsDistinct counts [] d = tt
sort_peers-IsDistinct counts (p ∷ ps) d =
    insert_peer-IsDistinct counts p (sort_peers counts ps)
      (sort_peers-All (λ q. p.socket ≢ q.socket) counts ps d.0)
      (sort_peers-IsDistinct counts ps d.1)

-- Each peer stands under its address, and no two have one address.
abbrev pub IsKeyed : List (SocketAddr × PeerInfo) → Type 0
IsKeyed [] = Unit
IsKeyed ((a, p) ∷ m) =
    (p.socket ≡ a) × All (λ (q : PeerInfo). a ≢ q.socket) (Map.values m) × IsKeyed m

pub IsKeyed-IsDistinct : (m : List (SocketAddr × PeerInfo)) → IsKeyed m → IsDistinct (Map.values m)
IsKeyed-IsDistinct [] k = tt
IsKeyed-IsDistinct ((a, p) ∷ m) (e, n, k) =
    (All-map _ _ (Map.values m) (λ q d h. d (sym e ∙ h)) n, IsKeyed-IsDistinct m k)

pub get-socket :
    (a : SocketAddr) (p : PeerInfo) (m : List (SocketAddr × PeerInfo))
    → IsKeyed m
    → Map.get addr_eq a m ≡ some p
    → p.socket ≡ a
get-socket a p [] k e = cc
get-socket a p ((b, q) ∷ m) k e = elim (addr_eq a b) [
  | yes h ↦ ground arith
  | no h ↦ ground (arith, get-socket a p m k.2)
]

insert-All :
    (P : PeerInfo → Type 0) (a : SocketAddr) (p : PeerInfo) (m : List (SocketAddr × PeerInfo))
    → P p
    → All P (Map.values m)
    → All P (Map.values (Map.insert addr_eq a p m))
insert-All P a p [] h all = (h, tt)
insert-All P a p ((b, q) ∷ m) h all = ground (arith, insert-All P a p m h all.1)

remove-All :
    (P : PeerInfo → Type 0) (a : SocketAddr) (m : List (SocketAddr × PeerInfo))
    → All P (Map.values m)
    → All P (Map.values (Map.remove addr_eq a m))
remove-All P a [] all = tt
remove-All P a ((b, q) ∷ m) all = ground (arith, remove-All P a m all.1)

pub insert-IsKeyed :
    (a : SocketAddr) (p : PeerInfo) (m : List (SocketAddr × PeerInfo))
    → p.socket ≡ a
    → IsKeyed m
    → IsKeyed (Map.insert addr_eq a p m)
insert-IsKeyed a p [] e k = (e, tt, tt)
insert-IsKeyed a p ((b, q) ∷ m) e (f, n, k) = elim (Bool-cases (same addr_eq a b)) [
  | inl s ↦ let h : a ≡ b = ground arith in rw (Map.insert, s) (e, rw h n, k)
  | inr s ↦
      rw (Map.insert, s)
        (
          f,
          insert-All (λ (q : PeerInfo). b ≢ q.socket) a p m (λ h. ground arith) n,
          insert-IsKeyed a p m e k,
        )
]

pub remove-IsKeyed :
    (a : SocketAddr) (m : List (SocketAddr × PeerInfo))
    → IsKeyed m
    → IsKeyed (Map.remove addr_eq a m)
remove-IsKeyed a [] k = tt
remove-IsKeyed a ((b, q) ∷ m) (f, n, k) = elim (Bool-cases (same addr_eq a b)) [
  | inl s ↦ rw (Map.remove, s) (remove-IsKeyed a m k)
  | inr s ↦
      rw (Map.remove, s)
        (f, remove-All (λ (q : PeerInfo). b ≢ q.socket) a m n, remove-IsKeyed a m k)
]
