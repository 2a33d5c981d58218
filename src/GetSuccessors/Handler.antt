-- ===== src/GetSuccessors/Handler.antt =====
-- src/get_successors_handler.rs: the handler returns, and what a response holds.
use bitcoin_adaptor.Base.{
  ℕ, ◌≤◌, ◌<◌, ◌≡◌, refl, sym, ◌∙◌, ◌⊎◌, inl, inr, Bool, some, List, [], ◌∷◌, ◌++◌, All, All-map,
  arith, length, Bool-cases, Option-cases, if◌then◌else◌, Result, ok, err, map, is_empty,
}
use bitcoin_adaptor.Base.Set
use bitcoin_adaptor.Bitcoin.{BlockHash, hash_eq, BlockHeader, Block, BitcoinLib, Network}
use bitcoin_adaptor.Adapter.{BlockchainManagerRequest, enqueue_new_blocks_to_download, prune_blocks}
use bitcoin_adaptor.HeaderCache.{children_at}
use bitcoin_adaptor.BlockchainState as State
use bitcoin_adaptor.BlockchainState.{BlockchainState}
use bitcoin_adaptor.BlockchainState.Valid.{IsValid}
use bitcoin_adaptor.GetSuccessors.Search.{Ends, start-Ends}
use bitcoin_adaptor.GetSuccessors.Response.{
  search_blocks-some, search_headers-some, IsServed, IsBounded, IsUnseen, search_blocks-IsServed,
  search_blocks-IsBounded, search_headers-bounds,
}
use bitcoin_adaptor.GetSuccessors.{
  start, get_successor_blocks, get_next_headers, get_successors, max_next_block_headers_length,
  GetSuccessorsRequest, GetSuccessorsResponse, Status, unavailable, are_multiple_blocks_allowed,
}

module _ (btc : BitcoinLib) (s : BlockchainState) (valid : IsValid btc s) where
  open btc use {block_hash}

  pub start-cases :
      (anchor : BlockHash)
      → (start btc s anchor ≡ []) ⊎ (start btc s anchor ≡ children_at s.header_cache anchor)
  unfolding start
  start-cases anchor = elim (Option-cases (State.get_cached_header s anchor)) [
    | inl e ↦ inl (ground arith)
    | inr (c, e) ↦ inr (ground (arith, valid.tree.keyed anchor c e))
  ]

  pub start_queue-Ends :
      (fuel : ℕ) (anchor : BlockHash)
      → length s.header_cache.headers ≤ fuel
      → Ends btc s.header_cache fuel (start btc s anchor)
  start_queue-Ends fuel anchor le = elim (start-cases anchor) [
    | inl e ↦ rw e tt
    | inr e ↦ rw e (start-Ends btc s.header_cache valid.tree anchor fuel le)
  ]

  -- On a valid state, with fuel for each cached header, the handler returns.
  pub get_successors-returns :
      (fuel : ℕ) (network : Network) (request : GetSuccessorsRequest)
      → length s.header_cache.headers ≤ fuel
      → (answer : Result GetSuccessorsResponse Status × List BlockchainManagerRequest)
        × (get_successors btc fuel network s request ≡ some answer)
  unfolding get_successors get_successor_blocks get_next_headers
  get_successors-returns fuel network request le =
      let allow = are_multiple_blocks_allowed network (State.height_of s request.anchor) in
      let ends = start_queue-Ends fuel request.anchor le in
      let (blocks, b) =
        search_blocks-some btc s fuel (Set.collect hash_eq request.processed_block_hashes) allow 0
          (start btc s request.anchor) ends in
      let (next, n) =
        search_headers-some btc s fuel
          (Set.collect hash_eq
            (request.processed_block_hashes ++ map (λ (b : Block). block_hash b.header) blocks))
          0 (start btc s request.anchor) ends in
      elim (Bool-cases
        (btc.is_beyond_last_checkpoint network (State.get_active_chain_tip s).height)) [
          | inr q ↦ ((err unavailable, []), rw (get_successors, q) refl)
          | inl q ↦ (
            (
              ok (record { blocks = blocks; next = next }),
              (if is_empty next then [] else enqueue_new_blocks_to_download next ∷ [])
                  ++ prune_blocks request.anchor request.processed_block_hashes ∷ [],
            ),
            rw (get_successors, q, b, n) refl,
          )
        ]

  -- The blocks found on a valid state are none of the processed ones, and each is the cached
  -- block of its hash.
  pub get_successor_blocks-IsServed :
      (fuel : ℕ) (anchor : BlockHash) (processed : List BlockHash) (allow : Bool)
      (blocks : List Block)
      → get_successor_blocks btc fuel s anchor processed allow ≡ some blocks
      → All (IsServed btc s processed) blocks
  unfolding get_successor_blocks
  get_successor_blocks-IsServed fuel anchor processed allow blocks e =
      All-map _ (IsServed btc s processed) blocks
        (λ b (n, g). (sym (Set.contains-collect hash_eq (block_hash b.header) processed) ∙ n, g))
        (search_blocks-IsServed btc s valid fuel (Set.collect hash_eq processed) allow 0
          (start btc s anchor) blocks e)

-- Where every block has a positive size: the blocks found are at most one, or, where several are
-- allowed, of at most `max_blocks_bytes` together.
pub get_successor_blocks-IsBounded :
    (btc : BitcoinLib) (s : BlockchainState)
    → ((b : Block) → 0 < btc.size b)
    → (fuel : ℕ) (anchor : BlockHash) (processed : List BlockHash) (allow : Bool)
      (blocks : List Block)
    → get_successor_blocks btc fuel s anchor processed allow ≡ some blocks
    → IsBounded btc s allow blocks
unfolding get_successor_blocks
get_successor_blocks-IsBounded btc s positive fuel anchor processed allow blocks e =
    search_blocks-IsBounded btc s positive fuel (Set.collect hash_eq processed) allow
      (start btc s anchor) blocks e

-- The next headers are at most `max_next_block_headers_length`, and none is of a processed block
-- or of one of the blocks of the response.
pub get_next_headers-bounds :
    (btc : BitcoinLib) (s : BlockchainState) (fuel : ℕ) (anchor : BlockHash)
    (processed : List BlockHash) (blocks : List Block) (next : List BlockHeader)
    → get_next_headers btc fuel s anchor processed blocks ≡ some next
    → (length next ≤ max_next_block_headers_length)
      × All (IsUnseen btc s processed) next
      × All (IsUnseen btc s (map (λ (b : Block). btc.block_hash b.header) blocks)) next
unfolding get_next_headers
get_next_headers-bounds btc s fuel anchor processed blocks next e =
    let hashes = map (λ (b : Block). btc.block_hash b.header) blocks in
    let (l, a) =
      search_headers-bounds btc s fuel (Set.collect hash_eq (processed ++ hashes)) 0
        (start btc s anchor) next e (omega arith) in
    (
      omega (arith, l),
      All-map _ (IsUnseen btc s processed) next
          (λ h n. ground (
            arith,
            n,
            Set.contains-collect hash_eq (btc.block_hash h) (processed ++ hashes),
            Set.contains-append hash_eq (btc.block_hash h) processed hashes,
          ))
          a,
      All-map _ (IsUnseen btc s hashes) next
          (λ h n. ground (
            arith,
            n,
            Set.contains-collect hash_eq (btc.block_hash h) (processed ++ hashes),
            Set.contains-append hash_eq (btc.block_hash h) processed hashes,
          ))
          a,
    )
