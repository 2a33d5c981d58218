-- ===== src/GetSuccessors/Linkage.antt =====
-- src/get_successors_handler.rs: the blocks and the headers of a response hang together.
use bitcoin_adaptor.Base.{
  ℕ, zero, suc, ◌+◌, ◌≡◌, refl, sym, ◌∙◌, ap, inl, inr, Bool, true, some, List, [], ◌∷◌, ◌++◌, In,
  In-append, arith, leb, Bool-cases, Option-cases, map,
}
use bitcoin_adaptor.Base.Set
use bitcoin_adaptor.Bitcoin.{BlockHash, hash_eq, BlockHeader, Block, BitcoinLib}
use bitcoin_adaptor.HeaderCache.{HeaderNode, get, children_at}
use bitcoin_adaptor.BlockchainState as State
use bitcoin_adaptor.BlockchainState.{BlockchainState}
use bitcoin_adaptor.BlockchainState.Valid.{IsValid}
use bitcoin_adaptor.GetSuccessors.{
  take, pass, visit, children_of, start, search_blocks, get_successor_blocks, search_headers,
  get_next_headers, max_next_block_headers_length,
}
use bitcoin_adaptor.GetSuccessors.Response.{Visit-cases}

module _ (btc : BitcoinLib) (s : BlockchainState) where
  open btc use {block_hash}

  -- The cached header of each block names one of `base`, or an earlier block, as its parent.
  abbrev pub IsChained : List BlockHash → List Block → Type 0
  IsChained base [] = Unit
  IsChained base (b ∷ bs) =
      ((c : HeaderNode) × (get s.header_cache (block_hash b.header) ≡ some c)
        × (Set.contains hash_eq c.header.prev_blockhash base ≡ true))
      × IsChained (block_hash b.header ∷ base) bs

  -- The same for headers.
  abbrev pub IsHeaderChain : List BlockHash → List BlockHeader → Type 0
  IsHeaderChain base [] = Unit
  IsHeaderChain base (h ∷ hs) =
      (Set.contains hash_eq h.prev_blockhash base ≡ true) × IsHeaderChain (block_hash h ∷ base) hs

  abbrev Includes : List BlockHash → List BlockHash → Type 0
  Includes base seen =
      (h : BlockHash) → Set.contains hash_eq h seen ≡ true → Set.contains hash_eq h base ≡ true

  -- What is queued is cached, and its parent is in `base`.
  abbrev IsQueue : List BlockHash → List HeaderNode → Type 0
  IsQueue base queue =
      (c : HeaderNode)
      → In c queue
      → (get s.header_cache (block_hash c.header) ≡ some c)
        × (Set.contains hash_eq c.header.prev_blockhash base ≡ true)

  contains_later :
      (h k : BlockHash) (base : List BlockHash)
      → Set.contains hash_eq h base ≡ true
      → Set.contains hash_eq h (k ∷ base) ≡ true
  contains_later h k base e = ground arith

  IsQueue-later :
      (k : BlockHash) (base : List BlockHash) (queue : List HeaderNode)
      → IsQueue base queue
      → IsQueue (k ∷ base) queue
  IsQueue-later k base queue q c i =
      ((q c i).0, contains_later c.header.prev_blockhash k base (q c i).1)

  module _ (valid : IsValid btc s) where
    -- The children of a node whose hash is in `base` may be queued.
    children-IsQueue :
        (base : List BlockHash) (h : BlockHash)
        → Set.contains hash_eq h base ≡ true
        → IsQueue base (children_at s.header_cache h)
    children-IsQueue base h e d i =
        let (cached, prev, _, _) = valid.tree.sound h d i in (cached, rw prev e)

    append-IsQueue :
        (base : List BlockHash) (queue : List HeaderNode) (c : HeaderNode)
        → IsQueue base queue
        → Set.contains hash_eq (block_hash c.header) base ≡ true
        → IsQueue base (queue ++ children_of btc s c)
    append-IsQueue base queue c q e d i = elim (In-append d queue (children_of btc s c) i) [
      | inl l ↦ q d l
      | inr r ↦ children-IsQueue base (block_hash c.header) e d r
    ]

    start-IsQueue :
        (anchor : BlockHash) (base : List BlockHash)
        → Set.contains hash_eq anchor base ≡ true
        → IsQueue base (start btc s anchor)
    unfolding start
    start-IsQueue anchor base e = elim (Option-cases (State.get_cached_header s anchor)) [
      | inl q ↦ rw (start, q) (λ c i. elim i [ ])
      | inr (c, q) ↦ rw (start, q, valid.tree.keyed anchor c q) (children-IsQueue base anchor e)
    ]

    pass-seen :
        (seen : List BlockHash) (allow : Bool) (size : ℕ) (c : HeaderNode)
        → visit btc s seen allow size c ≡ pass
        → Set.contains hash_eq (block_hash c.header) seen ≡ true
    unfolding visit
    pass-seen seen allow size c e =
        elim (Bool-cases (Set.contains hash_eq (block_hash c.header) seen)) [
          | inl p ↦ p
          | inr p ↦ elim (Option-cases (State.get_block s (block_hash c.header))) [
            | inl g ↦ absurd (ground arith)
            | inr (b, g) ↦ absurd (ground arith)
          ]
        ]

    take_hash :
        (seen : List BlockHash) (allow : Bool) (size : ℕ) (c : HeaderNode) (b : Block)
        → visit btc s seen allow size c ≡ take b
        → block_hash b.header ≡ block_hash c.header
    unfolding visit
    take_hash seen allow size c b e =
        elim (Bool-cases (Set.contains hash_eq (block_hash c.header) seen)) [
          | inl p ↦ absurd (ground arith)
          | inr p ↦ elim (Option-cases (State.get_block s (block_hash c.header))) [
            | inl g ↦ absurd (ground arith)
            | inr (b', g) ↦ ground (arith, valid.blocks (block_hash c.header) b' g)
          ]
        ]

    search_blocks-IsChained :
        (n : ℕ) (seen : List BlockHash) (allow : Bool) (size : ℕ) (queue : List HeaderNode)
        (base : List BlockHash) (blocks : List Block)
        → Includes base seen
        → IsQueue base queue
        → search_blocks btc n s seen allow size queue ≡ some blocks
        → IsChained base blocks
    unfolding search_blocks
    search_blocks-IsChained n seen allow size [] base blocks inc q e = ground arith
    search_blocks-IsChained zero seen allow size (c ∷ queue) base blocks inc q e = ground arith
    search_blocks-IsChained (suc n) seen allow size (c ∷ queue) base blocks inc q e =
        let rest : IsQueue base queue = λ d i. q d (inr i) in
        elim (Visit-cases btc (visit btc s seen allow size c)) [
          | inl (b, v) ↦
              elim (Option-cases (
                search_blocks btc n s seen allow (size + btc.size b)
                  (queue ++ children_of btc s c))) [
                    | inl r ↦ absurd (ground arith)
                    | inr (bs, r) ↦
                        let e' : b ∷ bs ≡ blocks = ground arith in
                        let h = take_hash seen allow size c b v in
                        let (cached, parent) = q c (inl refl) in
                        let base' = block_hash b.header ∷ base in
                        rw (← e') (
                          (c, ap (get s.header_cache) h ∙ cached, parent),
                          search_blocks-IsChained n seen allow (size + btc.size b)
                              (queue ++ children_of btc s c) base' bs
                              (λ k i. contains_later k (block_hash b.header) base (inc k i))
                              (append-IsQueue base' queue c
                                (IsQueue-later (block_hash b.header) base queue rest)
                                (ground (arith, h)))
                              r,
                        )
                  ]
          | inr (inl v) ↦
              search_blocks-IsChained n seen allow size (queue ++ children_of btc s c) base blocks
                inc
                (append-IsQueue base queue c rest
                  (inc (block_hash c.header) (pass-seen seen allow size c v)))
                (ground arith)
          | inr (inr (inl v)) ↦
              search_blocks-IsChained n seen allow size queue base blocks inc rest (ground arith)
          | inr (inr (inr v)) ↦ ground arith
        ]

    search_headers-IsHeaderChain :
        (n : ℕ) (seen : List BlockHash) (found : ℕ) (queue : List HeaderNode)
        (base : List BlockHash) (headers : List BlockHeader)
        → Includes base seen
        → IsQueue base queue
        → search_headers btc n s seen found queue ≡ some headers
        → IsHeaderChain base headers
    unfolding search_headers
    search_headers-IsHeaderChain n seen found [] base headers inc q e = ground arith
    search_headers-IsHeaderChain zero seen found (c ∷ queue) base headers inc q e = ground arith
    search_headers-IsHeaderChain (suc n) seen found (c ∷ queue) base headers inc q e =
        let rest : IsQueue base queue = λ d i. q d (inr i) in
        elim (Bool-cases (leb max_next_block_headers_length found)) [
          | inl l ↦ ground arith
          | inr l ↦ elim (Bool-cases (Set.contains hash_eq (block_hash c.header) seen)) [
            | inl p ↦
                search_headers-IsHeaderChain n seen found (queue ++ children_of btc s c) base
                  headers inc (append-IsQueue base queue c rest (inc (block_hash c.header) p))
                  (ground arith)
            | inr p ↦
                elim (Option-cases
                  (search_headers btc n s seen (found + 1) (queue ++ children_of btc s c))) [
                    | inl r ↦ absurd (ground arith)
                    | inr (hs, r) ↦
                        let e' : c.header ∷ hs ≡ headers = ground arith in
                        let base' = block_hash c.header ∷ base in
                        rw (← e') (
                          (q c (inl refl)).1,
                          search_headers-IsHeaderChain n seen (found + 1)
                              (queue ++ children_of btc s c) base' hs
                              (λ k i. contains_later k (block_hash c.header) base (inc k i))
                              (append-IsQueue base' queue c
                                (IsQueue-later (block_hash c.header) base queue rest)
                                (ground arith))
                              r,
                        )
                  ]
          ]
        ]

    -- On a valid state, the parent of each block found is the anchor, or a processed block, or a
    -- block earlier in the response.
    pub get_successor_blocks-IsChained :
        (fuel : ℕ) (anchor : BlockHash) (processed : List BlockHash) (allow : Bool)
        (blocks : List Block)
        → get_successor_blocks btc fuel s anchor processed allow ≡ some blocks
        → IsChained (anchor ∷ processed) blocks
    unfolding get_successor_blocks
    get_successor_blocks-IsChained fuel anchor processed allow blocks e =
        search_blocks-IsChained fuel (Set.collect hash_eq processed) allow 0 (start btc s anchor)
          (anchor ∷ processed) blocks
          (λ h i.
            contains_later h anchor processed (sym (Set.contains-collect hash_eq h processed) ∙ i))
          (start-IsQueue anchor (anchor ∷ processed) (ground arith)) e

    -- On a valid state, the parent of each next header is the anchor, or a processed block, or a block
    -- of the response, or that of a header earlier among the next ones.
    pub get_next_headers-IsHeaderChain :
        (fuel : ℕ) (anchor : BlockHash) (processed : List BlockHash) (blocks : List Block)
        (next : List BlockHeader)
        → get_next_headers btc fuel s anchor processed blocks ≡ some next
        → IsHeaderChain (anchor ∷ processed ++ map (λ (b : Block). block_hash b.header) blocks) next
    unfolding get_next_headers
    get_next_headers-IsHeaderChain fuel anchor processed blocks next e =
        let seen = processed ++ map (λ (b : Block). block_hash b.header) blocks in
        search_headers-IsHeaderChain fuel (Set.collect hash_eq seen) 0 (start btc s anchor)
          (anchor ∷ seen) next
          (λ h i. contains_later h anchor seen (sym (Set.contains-collect hash_eq h seen) ∙ i))
          (start-IsQueue anchor (anchor ∷ seen) (ground arith)) e
