-- ===== src/GetSuccessors.antt =====
-- src/get_successors_handler.rs: the breadth-first searches below the anchor, and the handler. The
-- searches run on fuel, and give `none` if it runs out.
pub mod Listing
pub mod Search
pub mod Response
pub mod Handler
pub mod Linkage
pub mod Completeness
pub mod Generations
pub mod Levels
pub mod Reference
pub mod Known
mod Tests
use bitcoin_adaptor.Base.{
  ℕ, zero, suc, ◌+◌, ◌-◌, ◌*◌, ◌≡◌, Bool, true, false, not, ◌&&◌, ◌||◌, Option, none, some, List,
  [], ◌∷◌, ◌++◌, leb, ◌==◌, if◌then◌else◌, Result, ok, err, length, is_empty, map,
}
use bitcoin_adaptor.Base.Set
use bitcoin_adaptor.Bitcoin.{
  BlockHash, hash_eq, Network, bitcoin, testnet, signet, regtest, BlockHeader, Block, BitcoinLib,
}
use bitcoin_adaptor.Adapter.{BlockchainManagerRequest, enqueue_new_blocks_to_download, prune_blocks}
use bitcoin_adaptor.HeaderCache as Cache
use bitcoin_adaptor.HeaderCache.{HeaderNode}
use bitcoin_adaptor.BlockchainState as State
use bitcoin_adaptor.BlockchainState.{BlockchainState}

abbrev pub max_next_block_headers_length : ℕ
max_next_block_headers_length = 100

abbrev pub block_header_size : ℕ
block_header_size = 80

abbrev pub max_next_bytes : ℕ
max_next_bytes = max_next_block_headers_length * block_header_size

abbrev pub max_blocks_bytes : ℕ
max_blocks_bytes = 2_000_000 - max_next_bytes

abbrev pub mainnet_max_multi_block_anchor_height : ℕ
mainnet_max_multi_block_anchor_height = 750_000

pub record GetSuccessorsRequest : Type 0 where
  pub anchor : BlockHash
  pub processed_block_hashes : List BlockHash

pub record GetSuccessorsResponse : Type 0 where
  pub blocks : List Block
  pub next : List BlockHeader

-- The one error of the handler, a `tonic::Status` with `Code::Unavailable`.
pub data Status : Type 0 where
  unavailable : Status

abbrev pub are_multiple_blocks_allowed : Network → ℕ → Bool
are_multiple_blocks_allowed bitcoin anchor_height =
    leb anchor_height mainnet_max_multi_block_anchor_height
are_multiple_blocks_allowed testnet anchor_height = true
are_multiple_blocks_allowed signet anchor_height = true
are_multiple_blocks_allowed regtest anchor_height = true

module _ (btc : BitcoinLib) where
  open btc use {block_hash}

  abbrev pub children_of : BlockchainState → HeaderNode → List HeaderNode
  children_of s c = Cache.children btc s.header_cache c

  -- The children of the anchor, none if it is not cached.
  unfoldable pub start : BlockchainState → BlockHash → List HeaderNode
  start s anchor = elim (State.get_cached_header s anchor) [ none ↦ [] | some c ↦ children_of s c ]

  -- What the loop does with the head of the queue.
  pub data Visit : Type 0 where
    -- take the block, and go on below it
    take : Block → Visit
    -- a processed block: go on below it
    pass : Visit
    -- a cache miss: leave out the subtree
    skip : Visit
    -- the block does not fit
    stop : Visit

  -- The test on the size of a block, after `size` bytes of response.
  abbrev pub fits : Bool → ℕ → Block → Bool
  fits allow size block = size == 0 || leb (size + btc.size block) max_blocks_bytes && allow

  unfoldable pub visit : BlockchainState → List BlockHash → Bool → ℕ → HeaderNode → Visit
  visit s seen allow size c =
      if Set.contains hash_eq (block_hash c.header) seen
      then pass
      else elim (State.get_block s (block_hash c.header)) [
        | none ↦ skip
        | some block ↦ if fits allow size block then take block else stop
      ]

  -- The list is what the loop still pushes.
  unfoldable pub search_blocks :
      ℕ → BlockchainState → List BlockHash → Bool → ℕ → List HeaderNode → Option (List Block)
  search_blocks fuel s seen allow size [] = some []
  search_blocks zero s seen allow size (c ∷ queue) = none
  search_blocks (suc fuel) s seen allow size (c ∷ queue) = elim (visit s seen allow size c) [
    | take block ↦
        elim (search_blocks fuel s seen allow (size + btc.size block) (queue ++ children_of s c)) [
          | none ↦ none
          | some blocks ↦ some (block ∷ blocks)
        ]
    | pass ↦ search_blocks fuel s seen allow size (queue ++ children_of s c)
    | skip ↦ search_blocks fuel s seen allow size queue
    | stop ↦ some []
  ]

  unfoldable pub get_successor_blocks :
      ℕ → BlockchainState → BlockHash → List BlockHash → Bool → Option (List Block)
  unfolding search_blocks
  get_successor_blocks fuel s anchor processed allow =
      search_blocks fuel s (Set.collect hash_eq processed) allow 0 (start s anchor)

  unfoldable pub search_headers :
      ℕ → BlockchainState → List BlockHash → ℕ → List HeaderNode → Option (List BlockHeader)
  search_headers fuel s seen found [] = some []
  search_headers zero s seen found (c ∷ queue) = none
  search_headers (suc fuel) s seen found (c ∷ queue) =
      elim (leb max_next_block_headers_length found) [
        | true ↦ some []
        | false ↦ elim (Set.contains hash_eq (block_hash c.header) seen) [
          | true ↦ search_headers fuel s seen found (queue ++ children_of s c)
          | false ↦ elim (search_headers fuel s seen (found + 1) (queue ++ children_of s c)) [
            | none ↦ none
            | some headers ↦ some (c.header ∷ headers)
          ]
        ]
      ]

  unfoldable pub get_next_headers :
      ℕ → BlockchainState → BlockHash → List BlockHash → List Block → Option (List BlockHeader)
  unfolding search_headers
  get_next_headers fuel s anchor processed blocks =
      search_headers fuel s
        (Set.collect hash_eq (processed ++ map (λ (b : Block). block_hash b.header) blocks)) 0
        (start s anchor)

  -- The response, and the requests that the handler tries to send.
  unfoldable pub get_successors :
      ℕ
      → Network
      → BlockchainState
      → GetSuccessorsRequest
      → Option (Result GetSuccessorsResponse Status × List BlockchainManagerRequest)
  unfolding get_successor_blocks get_next_headers
  get_successors fuel network s request =
      let anchor_height = State.height_of s request.anchor in
      if not (btc.is_beyond_last_checkpoint network (State.get_active_chain_tip s).height)
      then some (err unavailable, [])
      else elim (get_successor_blocks fuel s request.anchor request.processed_block_hashes
          (are_multiple_blocks_allowed network anchor_height)) [
            | none ↦ none
            | some blocks ↦
                elim (get_next_headers fuel s request.anchor request.processed_block_hashes
                  blocks) [
                    | none ↦ none
                    | some next ↦ some (
                      ok (record { blocks = blocks; next = next }),
                      (if is_empty next then [] else enqueue_new_blocks_to_download next ∷ [])
                          ++ prune_blocks request.anchor request.processed_block_hashes ∷ [],
                    )
                  ]
          ]
