-- ===== src/BlockchainState/History.antt =====
-- src/blockchainstate.rs: what holds after any sequence of the operations on the state.
use bitcoin_adaptor.Base.{
  ℕ, ◌≡◌, refl, some, List, [], ◌∷◌, arith, ok, inl, inr, Bool-cases, keep_if, Result-cases, ◌&&◌,
  not,
}
use bitcoin_adaptor.Base.Map
use bitcoin_adaptor.Bitcoin.{BlockHash, hash_eq, Network, BlockHeader, Block, BitcoinLib}
use bitcoin_adaptor.HeaderCache as Cache
use bitcoin_adaptor.HeaderCache.{HeaderCache, HeaderNode, get, children_at, child_of}
use bitcoin_adaptor.HeaderCache.Tree.{new-IsTree, get-attach}
use bitcoin_adaptor.BlockchainState.{
  BlockchainState, add_header, add_headers, add_block, new, prune_blocks, prune_blocks_below_height,
  clear_blocks, sorted, is_below, AddHeaderResult,
}
use bitcoin_adaptor.BlockchainState.Valid.{
  IsValid, add_header-IsValid, add_header-Outcome, known, invalid, orphan, grown,
}
use bitcoin_adaptor.BlockchainState.Growth.{add_headers-IsValid, sorted-IsValid}
use bitcoin_adaptor.BlockchainState.Blocks.{prune_blocks_lem}

module _ (btc : BitcoinLib) where
  open btc use {block_hash}

  -- The operations that the other components call.
  pub data Step : BlockchainState → BlockchainState → Type 0 where
    headers : (s : BlockchainState) (hs : List BlockHeader) → Step s (add_headers btc s hs).0
    block : (s : BlockchainState) (b : Block) → Step s (add_block btc s b).0
    prune : (s : BlockchainState) (hs : List BlockHash) → Step s (prune_blocks hs s)
    prune_below : (s : BlockchainState) (n : ℕ) → Step s (prune_blocks_below_height n s)
    clear : (s : BlockchainState) → Step s (clear_blocks s)

  pub data Reach (s : BlockchainState) : BlockchainState → Type 0 where
    here : Reach s s
    next : {t u : BlockchainState} → Reach s t → Step t u → Reach s u

  pub new-IsValid : (network : Network) → IsValid btc (new btc network)
  unfolding new Cache.new
  new-IsValid network =
      let node = Cache.HeaderCache.genesis (Cache.new btc network) in
      record {
        tree = new-IsTree btc network;
        unique = (tt, tt);
        leaf = λ t i. (node, ground arith, ground arith, ground arith);
        tipped = λ h c e k. inl (ground arith);
        blocks = λ h b e. cc;
      }

  with_blocks :
      (s : BlockchainState) (m : List (BlockHash × Block))
      → ((h : BlockHash) (b : Block)
          → Map.get hash_eq h m ≡ some b
          → (block_hash b.header ≡ h) × ((c : HeaderNode) × (get s.header_cache h ≡ some c)))
      → IsValid btc s
      → IsValid btc (record s { block_cache = m })
  with_blocks s m h v = record {
    tree = v.tree;
    unique = v.unique;
    leaf = v.leaf;
    tipped = v.tipped;
    blocks = h;
  }

  prune_blocks-eq :
      (hs : List BlockHash) (s : BlockchainState)
      → prune_blocks hs s ≡ record s { block_cache = (prune_blocks hs s).block_cache }
  unfolding prune_blocks
  prune_blocks-eq [] s = refl
  prune_blocks-eq (h ∷ hs) s =
      prune_blocks-eq hs (record s { block_cache = Map.remove hash_eq h s.block_cache })

  pub prune_blocks-IsValid :
      (hs : List BlockHash) (s : BlockchainState) → IsValid btc s → IsValid btc (prune_blocks hs s)
  prune_blocks-IsValid hs s v = rw (prune_blocks-eq hs s) (
      with_blocks s (prune_blocks hs s).block_cache
        (λ h b e. v.blocks h b (ground (arith, (prune_blocks_lem hs s).0 h))) v)

  add_header_known :
      (s : BlockchainState) (header : BlockHeader) (a : AddHeaderResult)
      → IsValid btc s
      → (add_header btc s header).1 ≡ ok a
      → (c : HeaderNode) × (get (add_header btc s header).0.header_cache (block_hash header)
          ≡ some c)
  add_header_known s header a v e = elim (add_header-Outcome btc s header v) [
    | known c k r ↦ (c, rw r k)
    | invalid x f g r ↦ absurd (ground arith)
    | orphan f g l r ↦ absurd (ground arith)
    | grown parent f g l r ↦ (
      child_of btc parent header,
      rw r (
          ground
            (arith, get-attach btc s.header_cache parent header v.tree f l (block_hash header))),
    )
  ]

  with_block :
      (s : BlockchainState) (b : Block)
      → (c : HeaderNode) × (get s.header_cache (block_hash b.header) ≡ some c)
      → IsValid btc s
      → IsValid btc (record (sorted s) {
        block_cache = Map.insert hash_eq (block_hash b.header) b s.block_cache;
      })
  with_block s b (c, e) v =
      with_blocks (sorted s) _
        (λ h b' k. elim (hash_eq h (block_hash b.header)) [
          | yes q ↦
              let e' : b ≡ b' =
                ground (arith, Map.get-insert hash_eq h (block_hash b.header) b s.block_cache) in
              rw (← e', q) (refl, (c, e))
          | no q ↦
              v.blocks h b'
                (ground (arith, Map.get-insert hash_eq h (block_hash b.header) b s.block_cache))
        ])
        (sorted-IsValid btc s v)

  pub add_block-IsValid :
      (s : BlockchainState) (b : Block) → IsValid btc s → IsValid btc (add_block btc s b).0
  unfolding add_block
  add_block-IsValid s b v =
      elim (Bool-cases (btc.has_merkle_root b && not (btc.check_merkle_root b))) [
        | inl bad ↦ rw (bad, add_block) v
        | inr good ↦ elim (Result-cases (add_header btc s b.header).1) [
          | inr (e, r) ↦
              rw (good, add_block) (rw (r, add_block) (add_header-IsValid btc s b.header v))
          | inl (a, r) ↦
              rw (good, add_block)
                (rw (r, add_block)
                  (with_block (add_header btc s b.header).0 b (add_header_known s b.header a v r)
                    (add_header-IsValid btc s b.header v)))
        ]
      ]

  pub Step-IsValid : {s t : BlockchainState} → Step s t → IsValid btc s → IsValid btc t
  unfolding prune_blocks_below_height
  Step-IsValid (headers s hs) v = add_headers-IsValid btc s hs v
  Step-IsValid (block s b) v = add_block-IsValid s b v
  Step-IsValid (prune s hs) v = prune_blocks-IsValid hs s v
  Step-IsValid (prune_below s n) v =
      prune_blocks-IsValid (keep_if (is_below s n) (Map.keys s.block_cache)) s v
  Step-IsValid (clear s) v = with_blocks s [] (λ h b e. cc) v

  -- From a new state, every sequence of operations leads to a valid state.
  pub Reach_new-IsValid :
      (network : Network) (s : BlockchainState) → Reach (new btc network) s → IsValid btc s
  Reach_new-IsValid network s here = new-IsValid network
  Reach_new-IsValid network s (next {t} r st) = Step-IsValid st (Reach_new-IsValid network t r)
