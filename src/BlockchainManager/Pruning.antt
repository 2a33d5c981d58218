-- ===== src/BlockchainManager/Pruning.antt =====
-- src/blockchainmanager.rs: the requests of the gRPC side and the blockchain state.
use bitcoin_adaptor.Base.{
  ◌<◌, ℕ, ◌+◌, ◌^◌, ◌≤◌, ◌≡◌, ◌⊎◌, ◌||◌, refl, ◌∙◌, inl, inr, ap, Bool, true, false, Option, none,
  some, List, [], ◌∷◌, Bool-cases, arith, leb, ltb, if◌then◌else◌, not, ◌&&◌, keep_if,
}
use bitcoin_adaptor.Base.Map
use bitcoin_adaptor.Base.Set
use bitcoin_adaptor.Bitcoin.{BlockHash, hash_eq, Block, BitcoinLib}
use bitcoin_adaptor.HeaderCache as Cache
use bitcoin_adaptor.HeaderCache.{HeaderCache}
use bitcoin_adaptor.BlockchainState as State
use bitcoin_adaptor.BlockchainState.{BlockchainState}
use bitcoin_adaptor.BlockchainState.Valid.{IsValid}
use bitcoin_adaptor.BlockchainState.Blocks.{prune_blocks_lem, prune_blocks_below_height_lem}
use bitcoin_adaptor.BlockchainState.History as History
use bitcoin_adaptor.BlockchainState.History.{Step-IsValid}
use bitcoin_adaptor.BlockchainManager.{BlockchainManager, make_idle}
use bitcoin_adaptor.BlockchainManager.Sync.{remove_processed, prune_blocks, is_high}
use bitcoin_adaptor.BlockchainManager.Selection.{remove_processed_lem}

remove_processed-blockchain :
    (hashes : List BlockHash) (m : BlockchainManager)
    → (remove_processed hashes m).blockchain ≡ m.blockchain
unfolding remove_processed
remove_processed-blockchain [] m = refl
remove_processed-blockchain (h ∷ hs) m = remove_processed-blockchain hs _

-- The state after pruning, where the height does not overflow.
abbrev pub pruned : BlockHash → List BlockHash → BlockchainState → BlockchainState
pruned anchor processed s =
    State.prune_blocks_below_height (State.height_of s anchor + 1) (State.prune_blocks processed s)

abbrev height_in : HeaderCache → BlockHash → ℕ
height_in c k = elim (Cache.get c k) [ none ↦ 0 | some node ↦ node.height ]

height_of-pruned :
    (anchor : BlockHash) (processed : List BlockHash) (s : BlockchainState) (h : BlockHash)
    → State.height_of (pruned anchor processed s) h ≡ State.height_of s h
height_of-pruned anchor processed s h =
    let n = State.height_of s anchor + 1 in
    let s1 = State.prune_blocks processed s in
    let same_headers = (prune_blocks_below_height_lem n s1).1 ∙ (prune_blocks_lem processed s).1 in
    ap (λ c. height_in c h) same_headers

is_high-pruned :
    (anchor : BlockHash) (processed : List BlockHash) (s : BlockchainState) (n : ℕ) (h : BlockHash)
    → is_high (pruned anchor processed s) n h ≡ not (ltb (State.height_of s h) n)
is_high-pruned anchor processed s n h =
    let e = height_of-pruned anchor processed s h in
    ground (arith, ap (λ k. leb n k) e, leb-ltb n (State.height_of s h))
  where
    leb-ltb : (a b : ℕ) → leb a b ≡ not (ltb b a)
    leb-ltb a b = ground arith

get-pruned :
    (anchor : BlockHash) (processed : List BlockHash) (s : BlockchainState) (h : BlockHash)
    → State.get_block (pruned anchor processed s) h ≡ (
        if Set.contains hash_eq h processed
          || ltb (State.height_of s h) (State.height_of s anchor + 1)
        then none
        else State.get_block s h)
get-pruned anchor processed s h =
    let n = State.height_of s anchor + 1 in
    let s1 = State.prune_blocks processed s in
    let below = (prune_blocks_below_height_lem n s1).0 h in
    let first = (prune_blocks_lem processed s).0 h in
    let height = ap (λ c. height_in c h) (prune_blocks_lem processed s).1 in
    below
    ∙ ap (λ k. if ltb k n then none else State.get_block s1 h) height
    ∙ ap (λ b. if ltb (State.height_of s h) n then none else b) first
    ∙ both (Set.contains hash_eq h processed) (ltb (State.height_of s h) n) (State.get_block s h)
  where
    both :
        (a b : Bool) (x : Option Block)
        → (if b then none else (if a then none else x)) ≡ (if a || b then none else x)
    both true true x = refl
    both true false x = refl
    both false true x = refl
    both false false x = refl

-- Where the height of the anchor is the last `u32` or more, pruning panics. Otherwise no processed
-- hash and no hash at or below the height of the anchor is cached, queued or requested any more, and
-- every other hash is cached, queued and requested as before. A hash without a cached header counts
-- as one at height 0.
pub manager_prune_lem :
    (anchor : BlockHash) (processed : List BlockHash) (m : BlockchainManager)
    → ((2 ^ 32 ≤ State.height_of m.blockchain anchor + 1)
        × (prune_blocks anchor processed m ≡ none))
      ⊎ ((State.height_of m.blockchain anchor + 1 < 2 ^ 32)
          × ((m' : BlockchainManager) × (prune_blocks anchor processed m ≡ some m')
              × (m'.blockchain ≡ pruned anchor processed m.blockchain)
              × ((h : BlockHash)
                  → let gone =
                      Set.contains hash_eq h processed
                      || ltb
                          (State.height_of m.blockchain h)
                          (State.height_of m.blockchain anchor + 1) in
                    (State.get_block m'.blockchain h
                      ≡ (if gone then none else State.get_block m.blockchain h))
                    × (Set.contains hash_eq h m'.block_sync_queue
                        ≡ (Set.contains hash_eq h m.block_sync_queue && not gone))
                    × (Map.get hash_eq h m'.getdata_request_info
                        ≡ (if gone then none else Map.get hash_eq h m.getdata_request_info)))))
unfolding prune_blocks
manager_prune_lem anchor processed m =
    let n = State.height_of m.blockchain anchor + 1 in
    let s = pruned anchor processed m.blockchain in
    let m1 : BlockchainManager = record m {
      blockchain = s;
      getdata_request_info = Map.retain (λ b _. is_high s n b) m.getdata_request_info;
      block_sync_queue = keep_if (is_high s n) m.block_sync_queue;
    } in
    elim (Bool-cases (leb (2 ^ 32) n)) [
      | inl q ↦ inl (ground arith, rw (prune_blocks, q) refl)
      | inr q ↦ inr (
        ground arith,
        (
          remove_processed processed m1,
          rw (prune_blocks, q) refl,
          remove_processed-blockchain processed m1,
          λ h.
              let (queued, requested) = remove_processed_lem processed m1 h in
              let high = is_high-pruned anchor processed m.blockchain n h in
              (
                ap (λ t. State.get_block t h) (remove_processed-blockchain processed m1)
                    ∙ get-pruned anchor processed m.blockchain h,
                ground (
                  arith,
                  queued,
                  high,
                  Set.contains-keep_if hash_eq (is_high s n) h m.block_sync_queue,
                ),
                ground (
                  arith,
                  requested,
                  high,
                  Map.get-retain hash_eq (is_high s n) h m.getdata_request_info,
                ),
              ),
        ),
      )
    ]

pub prune_blocks-blockchain :
    (anchor : BlockHash) (processed : List BlockHash) (m m' : BlockchainManager)
    → prune_blocks anchor processed m ≡ some m'
    → m'.blockchain ≡ pruned anchor processed m.blockchain
prune_blocks-blockchain anchor processed m m' e = elim (manager_prune_lem anchor processed m) [
  | inl (_, q) ↦ absurd (ground arith)
  | inr (_, (k, q, b, _)) ↦ let e' : k ≡ m' = ground arith in rw (← e') b
]

pub pruned-IsValid :
    (btc : BitcoinLib) (anchor : BlockHash) (processed : List BlockHash) (s : BlockchainState)
    → IsValid btc s
    → IsValid btc (pruned anchor processed s)
pruned-IsValid btc anchor processed s v =
    Step-IsValid btc
      (History.prune_below (State.prune_blocks processed s) (State.height_of s anchor + 1))
      (Step-IsValid btc (History.prune s processed) v)

pub make_idle-IsValid :
    (btc : BitcoinLib) (m : BlockchainManager)
    → IsValid btc m.blockchain
    → IsValid btc (make_idle m).blockchain
unfolding make_idle
make_idle-IsValid btc m v = Step-IsValid btc (History.clear m.blockchain) v
