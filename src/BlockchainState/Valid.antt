-- ===== src/BlockchainState/Valid.antt =====
-- src/blockchainstate.rs: the invariant of the header cache and its tips.
use bitcoin_adaptor.Base.{
  ℕ, ◌≤◌, ◌≡◌, refl, ap, ◌≢◌, inl, inr, none, some, [], ◌∷◌, ◌++◌, In, append-ne-nil, arith, same,
  true, false, ok, err, Result, Option-cases, Bool-cases,
}
use bitcoin_adaptor.Bitcoin.{BlockHash, hash_eq, BlockHeader, Block, BitcoinLib}
use bitcoin_adaptor.HeaderCache as Cache
use bitcoin_adaptor.HeaderCache.{
  HeaderCache, HeaderNode, not_found, get, children_at, child_of, attach,
}
use bitcoin_adaptor.HeaderCache.Tree.{
  IsTree, attach-IsTree, get-attach, children_at-attach, kept, absent,
}
use bitcoin_adaptor.BlockchainState.{
  BlockchainState, Tip, node_tip, update_tips, add_header, inserted, header_added,
  header_already_exists, get_block, expect, AddHeaderResult, AddHeaderError, invalid_header,
  prev_header_not_cached, header_store,
}
use bitcoin_adaptor.BlockchainState.Tips.{
  IsUnique, Differs, update_tips-In, In-update_tips, In-update_tips_self, update_tips-IsUnique,
}

module _ (btc : BitcoinLib) where
  open btc use {block_hash}

  -- The cache is a tree, its leaves are the tips, each listed once, and every cached block has a
  -- cached header.
  pub record IsValid (s : BlockchainState) : Type 0 where
    pub tree : IsTree btc s.header_cache
    pub unique : IsUnique block_hash s.tips
    pub leaf :
        (t : Tip)
        → In t s.tips
        → (c : HeaderNode) × (get s.header_cache (block_hash t.header) ≡ some c)
          × (t ≡ node_tip c)
          × (children_at s.header_cache (block_hash t.header) ≡ [])
    pub tipped :
        (h : BlockHash) (c : HeaderNode)
        → get s.header_cache h ≡ some c
        → children_at s.header_cache h ≡ []
        → In (node_tip c) s.tips
    pub blocks :
        (h : BlockHash) (b : Block)
        → get_block s h ≡ some b
        → (block_hash b.header ≡ h) × ((c : HeaderNode) × (get s.header_cache h ≡ some c))

  -- Every cached header has at most the work of some tip.
  abbrev pub IsTopped : BlockchainState → Type 0
  IsTopped s =
      (h : BlockHash) (c : HeaderNode)
      → get s.header_cache h ≡ some c
      → (t : Tip) × In t s.tips × (c.work ≤ t.work)

  -- The state after a header is added below its cached parent.
  abbrev pub extended : BlockchainState → HeaderNode → BlockHeader → BlockchainState
  extended s parent header = record s {
    header_cache = attach btc s.header_cache parent header;
    tips =
        update_tips block_hash header.prev_blockhash (node_tip (child_of btc parent header)) s.tips;
  }

  module _ (s : BlockchainState) (parent : HeaderNode) (header : BlockHeader) (v : IsValid s)
      (fresh : get s.header_cache (block_hash header) ≡ none)
      (found : get s.header_cache header.prev_blockhash ≡ some parent) where
    abbrev cache : HeaderCache
    cache = attach btc s.header_cache parent header

    abbrev node : HeaderNode
    node = child_of btc parent header

    abbrev next : BlockchainState
    next = extended s parent header

    get-cache :
        (h : BlockHash)
        → get cache h ≡ elim (same hash_eq h (block_hash header)) [
          | true ↦ some node
          | false ↦ get s.header_cache h
        ]
    get-cache = get-attach btc s.header_cache parent header v.tree fresh found

    children_cache :
        (h : BlockHash)
        → children_at cache h ≡ elim (same hash_eq h (block_hash header)) [
          | true ↦ []
          | false ↦ elim (same hash_eq h header.prev_blockhash) [
            | true ↦ children_at s.header_cache h ++ node ∷ []
            | false ↦ children_at s.header_cache h
          ]
        ]
    children_cache = children_at-attach btc s.header_cache parent header v.tree fresh found

    expect-node : expect (get cache (block_hash header)) cache.genesis ≡ node
    expect-node = ground (arith, get-cache (block_hash header))

    insert_attach : Cache.insert btc s.header_cache header ≡ ok cache
    unfolding Cache.insert
    insert_attach = ground arith

    inserted-extended :
        inserted btc s header (Cache.insert btc s.header_cache header)
        ≡ (next, ok (header_added node))
    unfolding inserted attach
    inserted-extended = rw (insert_attach, expect-node) refl

    differs : (u : Tip) → In u s.tips → Differs block_hash u (node_tip node)
    differs u i =
        let (c, e, _, _) = v.leaf u i in
        absent btc s.header_cache parent header v.tree fresh found _ c e

    next-leaf :
        (t : Tip)
        → In t next.tips
        → (c : HeaderNode) × (get cache (block_hash t.header) ≡ some c)
          × (t ≡ node_tip c)
          × (children_at cache (block_hash t.header) ≡ [])
    next-leaf t i =
        elim (update_tips-In block_hash header.prev_blockhash (node_tip node) t s.tips v.unique i) [
          | inl e ↦ rw e (
            node,
            ground (arith, get-cache (block_hash header)),
            refl,
            ground (arith, children_cache (block_hash header)),
          )
          | inr (old, n) ↦
              let (c, e, k, none_yet) = v.leaf t old in
              (
                c,
                kept btc s.header_cache parent header v.tree fresh found _ c e,
                k,
                ground (arith, children_cache (block_hash t.header), n),
              )
        ]

    next-tipped :
        (h : BlockHash) (c : HeaderNode)
        → get cache h ≡ some c
        → children_at cache h ≡ []
        → In (node_tip c) next.tips
    next-tipped h c e empty = elim (Bool-cases (same hash_eq h (block_hash header))) [
      | inl q ↦
          let new_node : node ≡ c = ground (arith, get-cache h) in
          rw (← new_node)
            (In-update_tips_self block_hash header.prev_blockhash (node_tip node) s.tips)
      | inr q ↦
          let old : get s.header_cache h ≡ some c = ground (arith, get-cache h) in
          let other : h ≢ header.prev_blockhash =
            ground (arith, children_cache h, append-ne-nil (children_at s.header_cache h) node) in
          let childless : children_at s.header_cache h ≡ [] =
            ground (arith, children_cache h, append-ne-nil (children_at s.header_cache h) node) in
          In-update_tips block_hash header.prev_blockhash (node_tip node) (node_tip c) s.tips
            (v.tipped h c old childless) (ground (arith, v.tree.keyed h c old))
    ]

    extended-IsValid : IsValid next
    extended-IsValid = record {
      tree = attach-IsTree btc s.header_cache parent header v.tree fresh found;
      unique =
          update_tips-IsUnique block_hash header.prev_blockhash (node_tip node) s.tips differs
            v.unique;
      leaf = next-leaf;
      tipped = next-tipped;
      blocks = λ h b e.
          let (k, l) = v.blocks h b e in
          (k, (l.0, kept btc s.header_cache parent header v.tree fresh found h l.0 l.1));
    }

  -- What `add_header` may do: the four branches, with the state and the result of each.
  pub data Outcome (s : BlockchainState) (header : BlockHeader)
      (r : BlockchainState × Result AddHeaderResult AddHeaderError) : Type 0 where
    known :
        (c : HeaderNode)
        → get s.header_cache (block_hash header) ≡ some c
        → r ≡ (s, ok (header_already_exists c))
        → Outcome s header r
    invalid :
        (e : ℕ)
        → get s.header_cache (block_hash header) ≡ none
        → btc.validate_header s.network (header_store btc s) header ≡ some e
        → r ≡ (s, err (invalid_header (block_hash header) e))
        → Outcome s header r
    orphan :
        get s.header_cache (block_hash header) ≡ none
        → btc.validate_header s.network (header_store btc s) header ≡ none
        → get s.header_cache header.prev_blockhash ≡ none
        → r ≡ (s, err (prev_header_not_cached header.prev_blockhash))
        → Outcome s header r
    grown :
        (parent : HeaderNode)
        → get s.header_cache (block_hash header) ≡ none
        → btc.validate_header s.network (header_store btc s) header ≡ none
        → get s.header_cache header.prev_blockhash ≡ some parent
        → r ≡ (extended s parent header, ok (header_added (child_of btc parent header)))
        → Outcome s header r

  not_inserted :
      (s : BlockchainState) (header : BlockHeader)
      → get s.header_cache (block_hash header) ≡ none
      → get s.header_cache header.prev_blockhash ≡ none
      → Cache.insert btc s.header_cache header ≡ err (not_found header.prev_blockhash)
  unfolding Cache.insert
  not_inserted s header fresh lost = ground arith

  -- On a valid state, `add_header` does one of these: the header is cached already, or it does not
  -- pass the validation, or its parent is not cached, and the state stays; or the header is attached
  -- below its parent.
  pub add_header-Outcome :
      (s : BlockchainState) (header : BlockHeader)
      → IsValid s
      → Outcome s header (add_header btc s header)
  unfolding add_header
  add_header-Outcome s header v = elim (Option-cases (get s.header_cache (block_hash header))) [
    | inr (c, e) ↦ known c e (ground arith)
    | inl fresh ↦ elim (Option-cases (btc.validate_header s.network (header_store btc s) header)) [
      | inr (e, bad) ↦ invalid e fresh bad (rw (fresh, add_header) (rw bad))
      | inl good ↦ elim (Option-cases (get s.header_cache header.prev_blockhash)) [
        | inl lost ↦ orphan fresh good lost (
            rw (fresh, add_header)
              (rw good (ap (inserted btc s header) (not_inserted s header fresh lost))))
        | inr (parent, found) ↦
            grown parent fresh good found
              (rw (fresh, add_header) (rw good (inserted-extended s parent header v fresh found)))
      ]
    ]
  ]

  pub add_header-IsValid :
      (s : BlockchainState) (header : BlockHeader) → IsValid s → IsValid (add_header btc s header).0
  add_header-IsValid s header v = elim (add_header-Outcome s header v) [
    | known c e r ↦ rw r v
    | invalid e f g r ↦ rw r v
    | orphan f g l r ↦ rw r v
    | grown parent f g l r ↦ rw r (extended-IsValid s parent header v f l)
  ]
