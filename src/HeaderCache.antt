-- ===== src/HeaderCache.antt =====
-- src/blockchainstate.rs: the tree of headers.
pub mod Tree
use bitcoin_adaptor.Base.{
  ℕ, ◌+◌, ◌%◌, ◌^◌, Bool, true, false, Option, none, some, List, [], ◌∷◌, ◌++◌, if◌then◌else◌,
  Result, ok, err,
}
use bitcoin_adaptor.Base.Map
use bitcoin_adaptor.Bitcoin.{BlockHash, hash_eq, Network, BlockHeader, Block, BitcoinLib}

-- A `CachedHeader` is an `Arc<HeaderNode>`. Its fields never change but for `children`, which all
-- clones of the `Arc` share: these lists stand in the cache, under the node's hash.
pub record HeaderNode : Type 0 where
  pub header : BlockHeader
  pub height : ℕ
  pub work : ℕ

pub record HeaderCache : Type 0 where
  pub genesis : HeaderNode
  pub headers : List (BlockHash × HeaderNode)
  pub children : List (BlockHash × List HeaderNode)

pub data HeaderCacheError : Type 0 where
  not_found : BlockHash → HeaderCacheError
  already_exists : HeaderCacheError

abbrev pub get : HeaderCache → BlockHash → Option HeaderNode
get cache hash = Map.get hash_eq hash cache.headers

abbrev pub contains : HeaderCache → BlockHash → Bool
contains cache hash = Map.contains_key hash_eq hash cache.headers

abbrev pub or_empty {ℓ} : {A : Type ℓ} → Option (List A) → List A
or_empty none = []
or_empty (some xs) = xs

abbrev pub children_at : HeaderCache → BlockHash → List HeaderNode
children_at cache hash = or_empty (Map.get hash_eq hash cache.children)

-- A height is a `u32`.
abbrev pub next_height : ℕ → ℕ
next_height height = (height + 1) % 2 ^ 32

module _ (btc : BitcoinLib) where
  open btc use {block_hash, work, add_work}

  -- `cached.children.lock().clone()`
  abbrev pub children : HeaderCache → HeaderNode → List HeaderNode
  children cache c = children_at cache (block_hash c.header)

  unfoldable pub new : Network → HeaderCache
  new network =
      let header = (btc.genesis_block network).header in
      let node : HeaderNode = record { header = header; height = 0; work = work header } in
      record {
        genesis = node;
        headers = (block_hash header, node) ∷ [];
        children = (block_hash header, []) ∷ [];
      }

  abbrev pub child_of : HeaderNode → BlockHeader → HeaderNode
  child_of parent header = record {
    header = header;
    height = next_height parent.height;
    work = add_work parent.work (work header);
  }

  -- The new node, with an empty list of children of its own, pushed to its parent's list.
  unfoldable pub attach : HeaderCache → HeaderNode → BlockHeader → HeaderCache
  attach cache parent header =
      let node = child_of parent header in
      let pushed =
        Map.insert hash_eq (block_hash parent.header) (children cache parent ++ node ∷ [])
          cache.children in
      record cache {
        headers = Map.insert hash_eq (block_hash header) node cache.headers;
        children = Map.insert hash_eq (block_hash header) [] pushed;
      }

  unfoldable pub insert : HeaderCache → BlockHeader → Result HeaderCache HeaderCacheError
  insert cache header =
      if contains cache (block_hash header)
      then err already_exists
      else elim (get cache header.prev_blockhash) [
        | none ↦ err (not_found header.prev_blockhash)
        | some parent ↦ ok (attach cache parent header)
      ]
