-- ===== src/GetSuccessors/Reference.antt =====
-- src/get_successors_handler.rs: a description of the answer with no queue and no loop, which the
-- handler meets.
use bitcoin_adaptor.Base.{
  ℕ, ◌≡◌, refl, ap, ◌∙◌, inl, inr, Bool, some, List, [], ◌∷◌, ◌++◌, arith, length, Bool-cases,
  Result, ok, err, map, is_empty, if◌then◌else◌,
}
use bitcoin_adaptor.Base.Set
use bitcoin_adaptor.Bitcoin.{BlockHash, hash_eq, BlockHeader, Block, BitcoinLib, Network}
use bitcoin_adaptor.Adapter.{BlockchainManagerRequest, enqueue_new_blocks_to_download, prune_blocks}
use bitcoin_adaptor.BlockchainState as State
use bitcoin_adaptor.BlockchainState.{BlockchainState}
use bitcoin_adaptor.BlockchainState.Valid.{IsValid}
use bitcoin_adaptor.GetSuccessors.Handler.{start_queue-Ends}
use bitcoin_adaptor.GetSuccessors.Generations.{generations, popped-generations}
use bitcoin_adaptor.GetSuccessors.Levels.{
  restricted, goes_on, cached_blocks, fitting, take, unseen_headers, search_blocks-popped,
  search_headers-popped, Empties-restricted, Empties-children,
}
use bitcoin_adaptor.GetSuccessors.{
  start, children_of, get_successor_blocks, get_next_headers, get_successors,
  max_next_block_headers_length, GetSuccessorsRequest, GetSuccessorsResponse, Status, unavailable,
  are_multiple_blocks_allowed,
}

module _ (btc : BitcoinLib) (s : BlockchainState) where
  open btc use {block_hash}

  abbrev cached : ℕ
  cached = length s.header_cache.headers

  -- The blocks: generation by generation below the anchor, where only processed and cached blocks
  -- have a next generation, the cached blocks that are not processed, up to the first that does not
  -- fit.
  abbrev pub successor_blocks : BlockHash → List BlockHash → Bool → List Block
  successor_blocks anchor processed allow =
      let seen = Set.collect hash_eq processed in
      fitting btc s allow 0 (
        cached_blocks btc s seen
          (generations (restricted btc s (goes_on btc s seen)) cached (start btc s anchor)))

  -- The next headers: generation by generation below the anchor, the first headers of no block that
  -- is processed or in the response.
  abbrev pub next_headers : BlockHash → List BlockHash → List Block → List BlockHeader
  next_headers anchor processed blocks =
      let hashes = map (λ (b : Block). block_hash b.header) blocks in
      take max_next_block_headers_length (
        unseen_headers btc s (Set.collect hash_eq (processed ++ hashes))
          (generations (children_of btc s) cached (start btc s anchor)))

  abbrev pub reference :
      Network
      → GetSuccessorsRequest
      → Result GetSuccessorsResponse Status × List BlockchainManagerRequest
  reference network request =
      let allow = are_multiple_blocks_allowed network (State.height_of s request.anchor) in
      let blocks = successor_blocks request.anchor request.processed_block_hashes allow in
      let next = next_headers request.anchor request.processed_block_hashes blocks in
      if btc.is_beyond_last_checkpoint network (State.get_active_chain_tip s).height
      then (
        ok (record { blocks = blocks; next = next }),
        (if is_empty next then [] else enqueue_new_blocks_to_download next ∷ [])
            ++ prune_blocks request.anchor request.processed_block_hashes ∷ [],
      )
      else (err unavailable, [])

  module _ (valid : IsValid btc s) where
    blocks-eq :
        (anchor : BlockHash) (processed : List BlockHash) (allow : Bool)
        → get_successor_blocks btc cached s anchor processed allow
          ≡ some (successor_blocks anchor processed allow)
    unfolding get_successor_blocks
    blocks-eq anchor processed allow =
        let seen = Set.collect hash_eq processed in
        let ends = start_queue-Ends btc s valid cached anchor (omega arith) in
        search_blocks-popped btc s cached seen allow 0 (start btc s anchor) ends
        ∙ ap (λ cs. some (fitting btc s allow 0 (cached_blocks btc s seen cs)))
            (popped-generations (restricted btc s (goes_on btc s seen)) cached (start btc s anchor)
              (Empties-restricted btc s (goes_on btc s seen) cached (start btc s anchor) ends))

    headers-eq :
        (anchor : BlockHash) (processed : List BlockHash) (blocks : List Block)
        → get_next_headers btc cached s anchor processed blocks
          ≡ some (next_headers anchor processed blocks)
    unfolding get_next_headers
    headers-eq anchor processed blocks =
        let hashes = map (λ (b : Block). block_hash b.header) blocks in
        let seen = Set.collect hash_eq (processed ++ hashes) in
        let ends = start_queue-Ends btc s valid cached anchor (omega arith) in
        search_headers-popped btc s cached seen 0 (start btc s anchor) ends
        ∙ ap (λ cs. some (take max_next_block_headers_length (unseen_headers btc s seen cs)))
            (popped-generations (children_of btc s) cached (start btc s anchor)
              (Empties-children btc s cached (start btc s anchor) ends))

    -- On a valid state, with fuel for each cached header, the answer of the handler and the requests
    -- that it sends are those of the reference: the blocks are listed generation by generation
    -- below the anchor, through processed and cached blocks only, up to the first that does not fit,
    -- and the next headers generation by generation, up to their limit.
    pub get_successors-reference :
        (network : Network) (request : GetSuccessorsRequest)
        → get_successors btc cached network s request ≡ some (reference network request)
    unfolding get_successors
    get_successors-reference network request =
        let allow = are_multiple_blocks_allowed network (State.height_of s request.anchor) in
        let blocks = successor_blocks request.anchor request.processed_block_hashes allow in
        let b = blocks-eq request.anchor request.processed_block_hashes allow in
        let n = headers-eq request.anchor request.processed_block_hashes blocks in
        elim (Bool-cases
          (btc.is_beyond_last_checkpoint network (State.get_active_chain_tip s).height)) [
            | inl q ↦ rw (get_successors, reference, q, b, n) refl
            | inr q ↦ rw (get_successors, reference, q) refl
          ]
