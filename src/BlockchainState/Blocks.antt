-- ===== src/BlockchainState/Blocks.antt =====
-- src/blockchainstate.rs: the block cache: `add_block`, and what the pruning keeps.
use bitcoin_adaptor.Base.{
  ℕ, ◌≡◌, ◌⊎◌, inl, inr, Result-cases, refl, none, some, List, [], ◌∷◌, arith, same, true, false,
  ok, err, Bool, if◌then◌else◌, ltb, ◌&&◌, not, keep_if, Bool-cases,
}
use bitcoin_adaptor.Base.Map
use bitcoin_adaptor.Base.Set
use bitcoin_adaptor.Bitcoin.{BlockHash, hash_eq, Block, BitcoinLib}
use bitcoin_adaptor.BlockchainState.{
  BlockchainState, add_header, add_block, sort_tips, get_block, AddHeaderError, AddHeaderResult,
  prune_blocks, prune_blocks_below_height, is_below, height_of, invalid_merkle_root, header_error,
  result_node,
}

-- Pruning removes exactly the given blocks, and leaves the headers and the tips alone.
pub prune_blocks_lem :
    (hs : List BlockHash) (s : BlockchainState)
    → ((h : BlockHash)
        → get_block (prune_blocks hs s) h
          ≡ (if Set.contains hash_eq h hs then none else get_block s h))
      × ((prune_blocks hs s).header_cache ≡ s.header_cache)
      × ((prune_blocks hs s).tips ≡ s.tips)
      × ((prune_blocks hs s).network ≡ s.network)
unfolding prune_blocks
prune_blocks_lem [] s = (λ h. refl, refl, refl, refl)
prune_blocks_lem (k ∷ hs) s =
    let s' : BlockchainState = record s { block_cache = Map.remove hash_eq k s.block_cache } in
    let (gets, headers, tips, network) = prune_blocks_lem hs s' in
    (λ h. ground (arith, gets h, Map.get-remove hash_eq h k s.block_cache), headers, tips, network)

contains-keep_if-keys :
    (p : BlockHash → Bool) (h : BlockHash) (m : List (BlockHash × Block))
    → Set.contains hash_eq h (keep_if p (Map.keys m)) ≡ (Map.contains_key hash_eq h m && p h)
contains-keep_if-keys p h [] = refl
contains-keep_if-keys p h ((k, b) ∷ m) = ground (arith, contains-keep_if-keys p h m)

-- Pruning below a height removes exactly the cached blocks whose header stands below it; a block
-- whose header is unknown counts as one of height 0. The headers stay.
pub prune_blocks_below_height_lem :
    (n : ℕ) (s : BlockchainState)
    → ((h : BlockHash)
        → get_block (prune_blocks_below_height n s) h
          ≡ (if ltb (height_of s h) n then none else get_block s h))
      × ((prune_blocks_below_height n s).header_cache ≡ s.header_cache)
      × ((prune_blocks_below_height n s).tips ≡ s.tips)
      × ((prune_blocks_below_height n s).network ≡ s.network)
unfolding prune_blocks_below_height
prune_blocks_below_height_lem n s =
    let hs = keep_if (is_below s n) (Map.keys s.block_cache) in
    let (gets, headers, tips, network) = prune_blocks_lem hs s in
    (
      λ h. ground (arith, gets h, contains-keep_if-keys (is_below s n) h s.block_cache),
      headers,
      tips,
      network,
    )

module _ (btc : BitcoinLib) where
  open btc use {block_hash}

  -- The Merkle root of the block can be computed, and does not match.
  abbrev pub is_refused : Block → Bool
  is_refused block = btc.has_merkle_root block && not (btc.check_merkle_root block)

  -- A block whose Merkle root can be computed and does not match is refused and changes nothing.
  -- Any other block is refused if `add_header` refuses its header, with that error and with its
  -- state, and else it is cached under its hash: the result is the height of its header, the
  -- headers are those of `add_header`, and every other cached block stays as it was.
  pub add_block_lem :
      (s : BlockchainState) (block : Block)
      → let hash = block_hash block.header in
        let s' = (add_block btc s block).0 in
        let r = (add_block btc s block).1 in
        let added = add_header btc s block.header in
        ((btc.has_merkle_root block ≡ true)
          × (btc.check_merkle_root block ≡ false)
          × (s' ≡ s)
          × (r ≡ err (invalid_merkle_root hash)))
        ⊎ ((e : AddHeaderError) × (is_refused block ≡ false)
            × (added.1 ≡ err e)
            × (s' ≡ added.0)
            × (r ≡ err (header_error e)))
        ⊎ ((a : AddHeaderResult) × (is_refused block ≡ false)
            × (added.1 ≡ ok a)
            × (r ≡ ok (result_node a).height)
            × (s'.header_cache ≡ added.0.header_cache)
            × (s'.tips ≡ sort_tips added.0.tips)
            × ((h : BlockHash)
                → get_block s' h
                  ≡ (if same hash_eq h hash then some block else get_block added.0 h)))
  unfolding add_block
  add_block_lem s block = elim (Bool-cases (is_refused block)) [
    | inl bad ↦ inl (ground arith, ground arith, ground arith, ground arith)
    | inr good ↦ elim (Result-cases (add_header btc s block.header).1) [
      | inr (e, r) ↦ inr (inl (e, good, r, ground arith, ground arith))
      | inl (a, r) ↦ inr (
          inr (
            a,
            good,
            r,
            ground arith,
            ground arith,
            ground arith,
            λ h. ground (
              arith,
              Map.get-insert hash_eq h (block_hash block.header) block
                  (add_header btc s block.header).0.block_cache,
            ),
          ))
    ]
  ]
