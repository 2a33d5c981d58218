-- ===== src/BlockchainState.antt =====
-- src/blockchainstate.rs: the header cache with its tips, and the block cache.
pub mod Locators
pub mod Tips
pub mod Valid
pub mod Growth
pub mod Blocks
pub mod History
pub mod Persistence
pub mod Additions
mod Tests
use bitcoin_adaptor.Base.{
  ℕ, zero, suc, ◌+◌, ◌*◌, ◌-◌, ◌^◌, Bool, true, false, not, ◌&&◌, Option, none, some, List, [], ◌∷◌,
  ◌++◌, ltb, leb, ◌==◌, if◌then◌else◌, Result, ok, err, keep_if, sum, map,
}
use bitcoin_adaptor.Base.Map
use bitcoin_adaptor.Bitcoin.{
  BlockHash, hash_eq, Network, BlockHeader, Block, HeaderStore, BitcoinLib,
}
use bitcoin_adaptor.HeaderCache as Cache
use bitcoin_adaptor.HeaderCache.{
  HeaderCache, HeaderCacheError, HeaderNode, not_found, already_exists,
}

pub record Tip : Type 0 where
  pub header : BlockHeader
  pub height : ℕ
  pub work : ℕ

pub data AddHeaderResult : Type 0 where
  header_added header_already_exists : HeaderNode → AddHeaderResult

pub data AddHeaderError : Type 0 where
  invalid_header : BlockHash → ℕ → AddHeaderError
  prev_header_not_cached : BlockHash → AddHeaderError

pub data AddBlockError : Type 0 where
  invalid_merkle_root : BlockHash → AddBlockError
  header_error : AddHeaderError → AddBlockError

pub record BlockchainState : Type 0 where
  pub header_cache : HeaderCache
  pub block_cache : List (BlockHash × Block)
  pub tips : List Tip
  pub network : Network

abbrev pub node_tip : HeaderNode → Tip
node_tip c = record { header = c.header; height = c.height; work = c.work }

-- `sort_unstable_by(|a, b| b.work.cmp(&a.work))`; of the orders of equal tips this is one.
unfoldable pub insert_tip : Tip → List Tip → List Tip
insert_tip t [] = t ∷ []
insert_tip t (u ∷ ts) = if leb u.work t.work then t ∷ u ∷ ts else u ∷ insert_tip t ts

unfoldable pub sort_tips : List Tip → List Tip
unfolding insert_tip
sort_tips [] = []
sort_tips (t ∷ ts) = insert_tip t (sort_tips ts)

abbrev pub sorted : BlockchainState → BlockchainState
sorted s = record s { tips = sort_tips s.tips }

-- `tips[0]`. The vector is never empty, so the default is never read.
abbrev pub get_active_chain_tip : BlockchainState → Tip
get_active_chain_tip s = elim s.tips [ [] ↦ node_tip s.header_cache.genesis | t ∷ _ ↦ t ]

abbrev pub get_cached_header : BlockchainState → BlockHash → Option HeaderNode
get_cached_header s hash = Cache.get s.header_cache hash

abbrev pub is_block_hash_known : BlockchainState → BlockHash → Bool
is_block_hash_known s hash = Cache.contains s.header_cache hash

abbrev pub get_block : BlockchainState → BlockHash → Option Block
get_block s hash = Map.get hash_eq hash s.block_cache

abbrev pub clear_blocks : BlockchainState → BlockchainState
clear_blocks s = record s { block_cache = [] }

unfoldable pub prune_blocks : List BlockHash → BlockchainState → BlockchainState
prune_blocks [] s = s
prune_blocks (h ∷ hs) s =
    prune_blocks hs (record s { block_cache = Map.remove hash_eq h s.block_cache })

-- `get_cached_header(b).map_or(0, |c| c.height)`
abbrev pub height_of : BlockchainState → BlockHash → ℕ
height_of s hash = elim (get_cached_header s hash) [ none ↦ 0 | some c ↦ c.height ]

abbrev pub is_below : BlockchainState → ℕ → BlockHash → Bool
is_below s height hash = ltb (height_of s hash) height

unfoldable pub prune_blocks_below_height : ℕ → BlockchainState → BlockchainState
unfolding prune_blocks
prune_blocks_below_height height s =
    prune_blocks (keep_if (is_below s height) (Map.keys s.block_cache)) s

-- `self.tips[idx] = tip` at the first tip whose hash is `prev_hash`, and else a push.
unfoldable pub update_tips : (BlockHeader → BlockHash) → BlockHash → Tip → List Tip → List Tip
update_tips hash prev tip [] = tip ∷ []
update_tips hash prev tip (t ∷ ts) =
    if hash t.header == prev then tip ∷ ts else t ∷ update_tips hash prev tip ts

-- `expect(..)`; the default is never read.
abbrev pub expect {ℓ} : {A : Type ℓ} → Option A → A → A
expect none d = d
expect (some a) d = a

abbrev pub result_node : AddHeaderResult → HeaderNode
result_node (header_added c) = c
result_node (header_already_exists c) = c

-- The closure of `try_for_each`: the rest of the loop runs if no error came.
unfoldable pub after_add :
    (List HeaderNode → BlockchainState → BlockchainState × List HeaderNode × Option AddHeaderError)
    → List HeaderNode
    → BlockchainState × Result AddHeaderResult AddHeaderError
    → BlockchainState × List HeaderNode × Option AddHeaderError
after_add rest added_headers (s, ok (header_added c)) = rest (added_headers ++ c ∷ []) s
after_add rest added_headers (s, ok (header_already_exists c)) = rest added_headers s
after_add rest added_headers (s, err e) = (s, added_headers, some e)

module _ (btc : BitcoinLib) where
  open btc use {block_hash}

  unfoldable pub new : Network → BlockchainState
  unfolding Cache.new
  new network =
      let cache = Cache.new btc network in
      record {
        header_cache = cache;
        block_cache = [];
        tips =
            (record { header = cache.genesis.header; height = 0; work = cache.genesis.work }) ∷ [];
        network = network;
      }

  -- `impl HeaderStore for BlockchainState`
  abbrev pub header_store : BlockchainState → HeaderStore
  header_store s = record {
    get_header = λ hash. elim (get_cached_header s hash) [
      | none ↦ none
      | some c ↦ some (c.header, c.height)
    ];
    get_height = (get_active_chain_tip s).height;
    get_initial_hash = block_hash s.header_cache.genesis.header;
  }

  -- What follows a successful insertion into the header cache.
  unfoldable pub added :
      BlockchainState → BlockHeader → HeaderCache → HeaderNode → BlockchainState × AddHeaderResult
  unfolding update_tips
  added s header cache cached =
      let tip : Tip = record { header = header; height = cached.height; work = cached.work } in
      (
        record s {
          header_cache = cache;
          tips = update_tips block_hash header.prev_blockhash tip s.tips;
        },
        header_added cached,
      )

  -- The `match` on the result of the insertion.
  unfoldable pub inserted :
      BlockchainState
      → BlockHeader
      → Result HeaderCache HeaderCacheError
      → BlockchainState × Result AddHeaderResult AddHeaderError
  unfolding added
  inserted s header (ok cache) =
      let cached = expect (Cache.get cache (block_hash header)) cache.genesis in
      let (s', result) = added s header cache cached in (s', ok result)
  inserted s header (err (not_found prev)) = (s, err (prev_header_not_cached prev))
  inserted s header (err already_exists) =
      let cached = expect (get_cached_header s (block_hash header)) s.header_cache.genesis in
      (s, ok (header_already_exists cached))

  unfoldable pub add_header :
      BlockchainState → BlockHeader → BlockchainState × Result AddHeaderResult AddHeaderError
  unfolding inserted Cache.insert
  add_header s header = elim (get_cached_header s (block_hash header)) [
    | some cached ↦ (s, ok (header_already_exists cached))
    | none ↦ elim (btc.validate_header s.network (header_store s) header) [
      | some e ↦ (s, err (invalid_header (block_hash header) e))
      | none ↦ inserted s header (Cache.insert btc s.header_cache header)
    ]
  ]

  -- The loop of `add_headers`, which stops at the first error.
  unfoldable pub add_each :
      List BlockHeader
      → List HeaderNode
      → BlockchainState
      → BlockchainState × List HeaderNode × Option AddHeaderError
  unfolding add_header after_add
  add_each [] added_headers s = (s, added_headers, none)
  add_each (h ∷ hs) added_headers s = after_add (add_each hs) added_headers (add_header s h)

  unfoldable pub add_headers :
      BlockchainState → List BlockHeader → BlockchainState × List HeaderNode × Option AddHeaderError
  unfolding add_each sort_tips
  add_headers s headers =
      let (s', added_headers, e) = add_each headers [] s in (sorted s', added_headers, e)

  unfoldable pub add_block : BlockchainState → Block → BlockchainState × Result ℕ AddBlockError
  unfolding add_header sort_tips
  add_block s block =
      let hash = block_hash block.header in
      if btc.has_merkle_root block && not (btc.check_merkle_root block)
      then (s, err (invalid_merkle_root hash))
      else let (s', result) = add_header s block.header in
        elim result [
          | err e ↦ (s', err (header_error e))
          | ok r ↦ (
            record (sorted s') { block_cache = Map.insert hash_eq hash block s'.block_cache },
            ok (result_node r).height,
          )
        ]

  abbrev pub total_size : List (BlockHash × Block) → ℕ
  total_size [] = 0
  total_size ((h, b) ∷ m) = btc.size b + total_size m

  abbrev pub get_block_cache_size : BlockchainState → ℕ
  get_block_cache_size s = total_size s.block_cache
