-- ===== src/BlockchainState/Additions.antt =====
-- src/blockchainstate.rs: what is in the state after `add_header` and `add_block`, by what is found there.
use bitcoin_adaptor.Base.{
  ℕ, ◌+◌, ◌%◌, ◌^◌, ◌≡◌, ◌≢◌, refl, ap, ◌⊎◌, true, false, none, some, [], ◌∷◌, ◌++◌, In, arith,
  same, if◌then◌else◌, ok, err, Result,
}
use bitcoin_adaptor.Base.Map
use bitcoin_adaptor.Bitcoin.{BlockHash, hash_eq, BlockHeader, Block, BitcoinLib}
use bitcoin_adaptor.HeaderCache.{HeaderNode, get, children_at, child_of}
use bitcoin_adaptor.HeaderCache.Tree.{get-attach, children_at-attach}
use bitcoin_adaptor.BlockchainState.{
  BlockchainState, Tip, node_tip, add_header, header_added, header_already_exists, get_block,
  AddHeaderResult, AddHeaderError, AddBlockError, invalid_header, prev_header_not_cached,
  header_store, invalid_merkle_root, header_error, result_node,
}
use bitcoin_adaptor.BlockchainState.Tips.{
  IsDescending, update_tips-In, In-update_tips, In-update_tips_self,
}
use bitcoin_adaptor.BlockchainState.Valid.{
  IsValid, known, invalid, orphan, grown, extended, add_header-Outcome,
}
use bitcoin_adaptor.BlockchainState.Blocks.{is_refused}
use bitcoin_adaptor.BlockchainState.Persistence.{Extends}

module _ (btc : BitcoinLib) where
  open btc use {block_hash}

  -- One header more than before: below the parent, one higher, with the work of both; found under its
  -- hash, last among the children of its parent, with no children. It is a tip, the parent is none any
  -- more, and the other tips, headers, children and the blocks are those from before.
  pub record IsGrown (s s' : BlockchainState) (parent node : HeaderNode) (header : BlockHeader)
      : Type 0 where
    pub header_kept : node.header ≡ header
    pub higher : node.height ≡ (parent.height + 1) % 2 ^ 32
    pub heavier : node.work ≡ btc.add_work parent.work (btc.work header)
    pub cached :
        (h : BlockHash)
        → get s'.header_cache h
          ≡ (if same hash_eq h (block_hash header) then some node else get s.header_cache h)
    pub below :
        (h : BlockHash)
        → children_at s'.header_cache h ≡ (
            if same hash_eq h (block_hash header)
            then []
            else (if same hash_eq h header.prev_blockhash
                then children_at s.header_cache h ++ node ∷ []
                else children_at s.header_cache h))
    pub tip : In (node_tip node) s'.tips
    pub tips_kept :
        (t : Tip) → In t s.tips → block_hash t.header ≢ header.prev_blockhash → In t s'.tips
    pub tips_only :
        (t : Tip)
        → In t s'.tips
        → (t ≡ node_tip node) ⊎ (In t s.tips × (block_hash t.header ≢ header.prev_blockhash))
    pub blocks : s'.block_cache ≡ s.block_cache
    pub network : s'.network ≡ s.network

  pub data Addition (s : BlockchainState) (header : BlockHeader)
      (r : BlockchainState × Result AddHeaderResult AddHeaderError) : Type 0 where
    is_known :
        (c : HeaderNode)
        → get s.header_cache (block_hash header) ≡ some c
        → r ≡ (s, ok (header_already_exists c))
        → Addition s header r
    is_invalid :
        (e : ℕ)
        → get s.header_cache (block_hash header) ≡ none
        → btc.validate_header s.network (header_store btc s) header ≡ some e
        → r ≡ (s, err (invalid_header (block_hash header) e))
        → Addition s header r
    is_orphan :
        get s.header_cache (block_hash header) ≡ none
        → btc.validate_header s.network (header_store btc s) header ≡ none
        → get s.header_cache header.prev_blockhash ≡ none
        → r ≡ (s, err (prev_header_not_cached header.prev_blockhash))
        → Addition s header r
    is_added :
        (parent node : HeaderNode)
        → get s.header_cache (block_hash header) ≡ none
        → btc.validate_header s.network (header_store btc s) header ≡ none
        → get s.header_cache header.prev_blockhash ≡ some parent
        → r.1 ≡ ok (header_added node)
        → IsGrown s r.0 parent node header
        → Addition s header r

  extended-IsGrown :
      (s : BlockchainState) (parent : HeaderNode) (header : BlockHeader)
      → IsValid btc s
      → get s.header_cache (block_hash header) ≡ none
      → get s.header_cache header.prev_blockhash ≡ some parent
      → IsGrown s (extended btc s parent header) parent (child_of btc parent header) header
  extended-IsGrown s parent header v fresh found =
      let node = child_of btc parent header in
      let prev = header.prev_blockhash in
      record {
        header_kept = refl;
        higher = refl;
        heavier = refl;
        cached =
            λ h. ground (arith, get-attach btc s.header_cache parent header v.tree fresh found h);
        below = λ h.
            ground
              (arith, children_at-attach btc s.header_cache parent header v.tree fresh found h);
        tip = In-update_tips_self block_hash prev (node_tip node) s.tips;
        tips_kept = λ t i n. In-update_tips block_hash prev (node_tip node) t s.tips i n;
        tips_only = λ t i. update_tips-In block_hash prev (node_tip node) t s.tips v.unique i;
        blocks = refl;
        network = refl;
      }

  -- On a valid state, `add_header` does one of these: the header is cached already, or it does not
  -- pass the validation, or its parent is not cached, and the state stays; or none of these holds, and
  -- the state has grown by the header: what is cached, the children, the tips and the blocks are given.
  pub add_header-Addition :
      (s : BlockchainState) (header : BlockHeader)
      → IsValid btc s
      → Addition s header (add_header btc s header)
  add_header-Addition s header v = elim (add_header-Outcome btc s header v) [
    | known c e r ↦ is_known c e r
    | invalid e f g r ↦ is_invalid e f g r
    | orphan f g l r ↦ is_orphan f g l r
    | grown parent f g l r ↦
        is_added parent (child_of btc parent header) f g l (ap (λ x. x.1) r)
          (rw r (extended-IsGrown s parent header v f l))
  ]

  -- What `add_header` finds or makes: a header of the cache it leaves; the blocks are left alone.
  abbrev IsFound : BlockchainState → BlockHeader → AddHeaderResult → Type 0
  IsFound s header a =
      (get (add_header btc s header).0.header_cache (block_hash header) ≡ some (result_node a))
      × ((add_header btc s header).0.block_cache ≡ s.block_cache)

  pub data Caching (s : BlockchainState) (block : Block)
      (r : BlockchainState × Result ℕ AddBlockError) : Type 0 where
    is_forged :
        is_refused btc block ≡ true
        → r ≡ (s, err (invalid_merkle_root (block_hash block.header)))
        → Caching s block r
    is_unknown :
        (x : AddHeaderError)
        → is_refused btc block ≡ false
        → get s.header_cache (block_hash block.header) ≡ none
        → r ≡ (s, err (header_error x))
        → Caching s block r
    is_stored :
        (c : HeaderNode)
        → is_refused btc block ≡ false
        → get r.0.header_cache (block_hash block.header) ≡ some c
        → r.1 ≡ ok c.height
        → Extends btc s.header_cache r.0.header_cache
        → IsDescending r.0.tips
        → ((h : BlockHash)
            → get_block r.0 h
              ≡ (if same hash_eq h (block_hash block.header) then some block else get_block s h))
        → Caching s block r
