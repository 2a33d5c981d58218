-- ===== src/GetSuccessors/Response.antt =====
-- src/get_successors_handler.rs: what the handler returns.
use bitcoin_adaptor.Base.{
  ℕ, zero, suc, ◌+◌, ◌≤◌, ◌<◌, ◌≡◌, refl, ◌⊎◌, inl, inr, Bool, true, false, some, List, [], ◌∷◌,
  ◌++◌, All, arith, length, Bool-cases, Option-cases, leb,
}
use bitcoin_adaptor.Base.Set
use bitcoin_adaptor.Bitcoin.{BlockHash, hash_eq, BlockHeader, Block, BitcoinLib}
use bitcoin_adaptor.HeaderCache.{HeaderNode}
use bitcoin_adaptor.BlockchainState as State
use bitcoin_adaptor.BlockchainState.{BlockchainState}
use bitcoin_adaptor.BlockchainState.Valid.{IsValid}
use bitcoin_adaptor.GetSuccessors.Search.{Ends}
use bitcoin_adaptor.GetSuccessors.{
  children_of, Visit, take, pass, skip, stop, fits, visit, search_blocks, search_headers,
  max_blocks_bytes, max_next_block_headers_length,
}

module _ (btc : BitcoinLib) where
  pub Visit-cases :
      (v : Visit btc) → ((b : Block) × (v ≡ take b)) ⊎ (v ≡ pass) ⊎ (v ≡ skip) ⊎ (v ≡ stop)
  Visit-cases (take b) = inl (b, refl)
  Visit-cases pass = inr (inl refl)
  Visit-cases skip = inr (inr (inl refl))
  Visit-cases stop = inr (inr (inr refl))

module _ (btc : BitcoinLib) (s : BlockchainState) where
  open btc use {block_hash}

  pub search_blocks-some :
      (n : ℕ) (seen : List BlockHash) (allow : Bool) (size : ℕ) (queue : List HeaderNode)
      → Ends btc s.header_cache n queue
      → (blocks : List Block) × (search_blocks btc n s seen allow size queue ≡ some blocks)
  unfolding search_blocks
  search_blocks-some n seen allow size [] e = ([], refl)
  search_blocks-some zero seen allow size (c ∷ queue) e = absurd e
  search_blocks-some (suc n) seen allow size (c ∷ queue) e =
      elim (Visit-cases btc (visit btc s seen allow size c)) [
        | inl (b, q) ↦
            let (bs, r) =
              search_blocks-some n seen allow (size + btc.size b) (queue ++ children_of btc s c)
                e.1 in
            (b ∷ bs, rw (search_blocks, q, r) refl)
        | inr (inl q) ↦
            let (bs, r) = search_blocks-some n seen allow size (queue ++ children_of btc s c) e.1 in
            (bs, rw (search_blocks, q, r) refl)
        | inr (inr (inl q)) ↦
            let (bs, r) = search_blocks-some n seen allow size queue e.0 in
            (bs, rw (search_blocks, q, r) refl)
        | inr (inr (inr q)) ↦ ([], rw (search_blocks, q) refl)
      ]

  pub search_headers-some :
      (n : ℕ) (seen : List BlockHash) (found : ℕ) (queue : List HeaderNode)
      → Ends btc s.header_cache n queue
      → (headers : List BlockHeader) × (search_headers btc n s seen found queue ≡ some headers)
  unfolding search_headers
  search_headers-some n seen found [] e = ([], refl)
  search_headers-some zero seen found (c ∷ queue) e = absurd e
  search_headers-some (suc n) seen found (c ∷ queue) e =
      elim (Bool-cases (leb max_next_block_headers_length found)) [
        | inl q ↦ ([], rw (search_headers, q) refl)
        | inr q ↦
            let (hs, r) = search_headers-some n seen found (queue ++ children_of btc s c) e.1 in
            let (hs', r') =
              search_headers-some n seen (found + 1) (queue ++ children_of btc s c) e.1 in
            elim (Bool-cases (Set.contains hash_eq (block_hash c.header) seen)) [
              | inl p ↦ (hs, rw (search_headers, q, p, r) refl)
              | inr p ↦ (c.header ∷ hs', rw (search_headers, q, p, r') refl)
            ]
      ]

  -- A block of the response: not seen, and in the block cache under its hash.
  abbrev pub IsServed : List BlockHash → Block → Type 0
  IsServed seen b =
      (Set.contains hash_eq (block_hash b.header) seen ≡ false)
      × (State.get_block s (block_hash b.header) ≡ some b)

  module _ (valid : IsValid btc s) where
    pub take-IsServed :
        (seen : List BlockHash) (allow : Bool) (size : ℕ) (c : HeaderNode) (b : Block)
        → visit btc s seen allow size c ≡ take b
        → IsServed seen b × (fits btc allow size b ≡ true)
    unfolding visit
    take-IsServed seen allow size c b e =
        elim (Bool-cases (Set.contains hash_eq (block_hash c.header) seen)) [
          | inl p ↦ absurd (ground arith)
          | inr p ↦ elim (Option-cases (State.get_block s (block_hash c.header))) [
            | inl g ↦ absurd (ground arith)
            | inr (b', g) ↦ ground (arith, valid.blocks (block_hash c.header) b' g)
          ]
        ]

    pub search_blocks-IsServed :
        (n : ℕ) (seen : List BlockHash) (allow : Bool) (size : ℕ) (queue : List HeaderNode)
        (blocks : List Block)
        → search_blocks btc n s seen allow size queue ≡ some blocks
        → All (IsServed seen) blocks
    unfolding search_blocks
    search_blocks-IsServed n seen allow size [] blocks e = ground arith
    search_blocks-IsServed zero seen allow size (c ∷ queue) blocks e = ground arith
    search_blocks-IsServed (suc n) seen allow size (c ∷ queue) blocks e =
        elim (Visit-cases btc (visit btc s seen allow size c)) [
          | inl (b, q) ↦
              elim (Option-cases (
                search_blocks btc n s seen allow (size + btc.size b)
                  (queue ++ children_of btc s c))) [
                    | inl r ↦ absurd (ground arith)
                    | inr (bs, r) ↦
                        let e' : b ∷ bs ≡ blocks = ground arith in
                        rw (← e') (
                          (take-IsServed seen allow size c b q).0,
                          search_blocks-IsServed n seen allow (size + btc.size b)
                              (queue ++ children_of btc s c) bs r,
                        )
                  ]
          | inr (inl q) ↦
              search_blocks-IsServed n seen allow size (queue ++ children_of btc s c) blocks
                (ground arith)
          | inr (inr (inl q)) ↦ search_blocks-IsServed n seen allow size queue blocks (ground arith)
          | inr (inr (inr q)) ↦ ground arith
        ]

  -- The bytes of a list of blocks.
  abbrev pub bytes : List Block → ℕ
  bytes [] = 0
  bytes (b ∷ bs) = btc.size b + bytes bs

  -- Nothing, one block, or blocks that fit the limit.
  abbrev pub IsBounded : Bool → List Block → Type 0
  IsBounded allow blocks =
      (leb (length blocks) 1 ≡ true) ⊎ ((allow ≡ true) × (bytes blocks ≤ max_blocks_bytes))

  module _ (positive : (b : Block) → 0 < btc.size b) where
    take-fits :
        (seen : List BlockHash) (allow : Bool) (size : ℕ) (c : HeaderNode) (b : Block)
        → visit btc s seen allow size c ≡ take b
        → fits btc allow size b ≡ true
    unfolding visit
    take-fits seen allow size c b e =
        elim (Bool-cases (Set.contains hash_eq (block_hash c.header) seen)) [
          | inl p ↦ absurd (ground arith)
          | inr p ↦ elim (Option-cases (State.get_block s (block_hash c.header))) [
            | inl g ↦ absurd (ground arith)
            | inr (b', g) ↦ ground arith
          ]
        ]

    -- After a first block, what follows is taken only as far as it fits.
    search_blocks-fits :
        (n : ℕ) (seen : List BlockHash) (allow : Bool) (size : ℕ) (queue : List HeaderNode)
        (blocks : List Block)
        → 0 < size
        → search_blocks btc n s seen allow size queue ≡ some blocks
        → (blocks ≡ []) ⊎ ((allow ≡ true) × (size + bytes blocks ≤ max_blocks_bytes))
    unfolding search_blocks
    search_blocks-fits n seen allow size [] blocks p e = ground arith
    search_blocks-fits zero seen allow size (c ∷ queue) blocks p e = ground arith
    search_blocks-fits (suc n) seen allow size (c ∷ queue) blocks p e =
        elim (Visit-cases btc (visit btc s seen allow size c)) [
          | inl (b, q) ↦
              elim (Option-cases (
                search_blocks btc n s seen allow (size + btc.size b)
                  (queue ++ children_of btc s c))) [
                    | inl r ↦ absurd (ground arith)
                    | inr (bs, r) ↦
                        let e' : b ∷ bs ≡ blocks = ground arith in
                        let later =
                          search_blocks-fits n seen allow (size + btc.size b)
                            (queue ++ children_of btc s c) bs (omega (arith, p)) r in
                        rw (← e') (inr (ground (arith, take-fits seen allow size c b q)))
                  ]
          | inr (inl q) ↦
              search_blocks-fits n seen allow size (queue ++ children_of btc s c) blocks p
                (ground arith)
          | inr (inr (inl q)) ↦ search_blocks-fits n seen allow size queue blocks p (ground arith)
          | inr (inr (inr q)) ↦ ground arith
        ]

    pub search_blocks-IsBounded :
        (n : ℕ) (seen : List BlockHash) (allow : Bool) (queue : List HeaderNode)
        (blocks : List Block)
        → search_blocks btc n s seen allow 0 queue ≡ some blocks
        → IsBounded allow blocks
    unfolding search_blocks
    search_blocks-IsBounded n seen allow [] blocks e = ground arith
    search_blocks-IsBounded zero seen allow (c ∷ queue) blocks e = ground arith
    search_blocks-IsBounded (suc n) seen allow (c ∷ queue) blocks e =
        elim (Visit-cases btc (visit btc s seen allow 0 c)) [
          | inl (b, q) ↦
              elim (Option-cases
                (search_blocks btc n s seen allow (btc.size b) (queue ++ children_of btc s c))) [
                  | inl r ↦ absurd (ground arith)
                  | inr (bs, r) ↦
                      let e' : b ∷ bs ≡ blocks = ground arith in
                      let later =
                        search_blocks-fits n seen allow (btc.size b) (queue ++ children_of btc s c)
                          bs (positive b) r in
                      rw (← e') (ground arith)
                ]
          | inr (inl q) ↦
              search_blocks-IsBounded n seen allow (queue ++ children_of btc s c) blocks
                (ground arith)
          | inr (inr (inl q)) ↦ search_blocks-IsBounded n seen allow queue blocks (ground arith)
          | inr (inr (inr q)) ↦ ground arith
        ]

  abbrev pub IsUnseen : List BlockHash → BlockHeader → Type 0
  IsUnseen seen h = Set.contains hash_eq (block_hash h) seen ≡ false

  pub search_headers-bounds :
      (n : ℕ) (seen : List BlockHash) (found : ℕ) (queue : List HeaderNode)
      (headers : List BlockHeader)
      → search_headers btc n s seen found queue ≡ some headers
      → found ≤ max_next_block_headers_length
      → (found + length headers ≤ max_next_block_headers_length) × All (IsUnseen seen) headers
  unfolding search_headers
  search_headers-bounds n seen found [] headers e le = ground arith
  search_headers-bounds zero seen found (c ∷ queue) headers e le = ground arith
  search_headers-bounds (suc n) seen found (c ∷ queue) headers e le =
      elim (Bool-cases (leb max_next_block_headers_length found)) [
        | inl q ↦ ground arith
        | inr q ↦ elim (Bool-cases (Set.contains hash_eq (block_hash c.header) seen)) [
          | inl p ↦
              search_headers-bounds n seen found (queue ++ children_of btc s c) headers
                (ground arith) le
          | inr p ↦
              elim (Option-cases
                (search_headers btc n s seen (found + 1) (queue ++ children_of btc s c))) [
                  | inl r ↦ absurd (ground arith)
                  | inr (hs, r) ↦
                      let e' : c.header ∷ hs ≡ headers = ground arith in
                      let (l, a) =
                        search_headers-bounds n seen (found + 1) (queue ++ children_of btc s c) hs r
                          (ground arith) in
                      rw (← e') (omega (arith, l), (p, a))
                ]
        ]
      ]
