-- ===== src/HeaderCache/Tree/Shape.antt =====
-- src/blockchainstate.rs: what makes a `HeaderCache` a tree, as a new one is.
use bitcoin_adaptor.Base.{ℕ, ◌<◌, All, ◌≡◌, ◌≢◌, ◌⊎◌, inl, some, List, [], ◌∷◌, In, arith}
use bitcoin_adaptor.Bitcoin.{BlockHash, Network, BitcoinLib}
use bitcoin_adaptor.HeaderCache.{HeaderCache, HeaderNode, get, children_at, child_of, new}

module _ (btc : BitcoinLib) where
  open btc use {block_hash}

  -- No two nodes of a list have one hash.
  abbrev pub IsDistinct : List HeaderNode → Type 0
  IsDistinct [] = Unit
  IsDistinct (c ∷ cs) = All (λ d. block_hash c.header ≢ block_hash d.header) cs × IsDistinct cs

  -- A rank that rises from a node to its children.
  abbrev pub Ranked : HeaderCache → Type 0
  Ranked cache =
      (rank : BlockHash → ℕ) × ((h : BlockHash) (c : HeaderNode)
        → In c (children_at cache h)
        → rank h < rank (block_hash c.header))

  -- Every node stands under its hash; all but the genesis node extend a cached node by one in
  -- height and by their work; and the lists of children hold just the nodes that name the parent.
  pub record IsTree (cache : HeaderCache) : Type 0 where
    pub rooted : get cache (block_hash cache.genesis.header) ≡ some cache.genesis
    pub keyed : (h : BlockHash) (c : HeaderNode) → get cache h ≡ some c → block_hash c.header ≡ h
    pub linked :
        (h : BlockHash) (c : HeaderNode)
        → get cache h ≡ some c
        → (c ≡ cache.genesis)
          ⊎ ((p : HeaderNode) × (get cache c.header.prev_blockhash ≡ some p)
              × (c ≡ child_of btc p c.header)
              × In c (children_at cache c.header.prev_blockhash))
    pub sound :
        (h : BlockHash) (c : HeaderNode)
        → In c (children_at cache h)
        → (get cache (block_hash c.header) ≡ some c)
          × (c.header.prev_blockhash ≡ h)
          × (block_hash c.header ≢ block_hash cache.genesis.header)
          × ((p : HeaderNode) × (get cache h ≡ some p) × (c ≡ child_of btc p c.header))
    pub distinct : (h : BlockHash) → IsDistinct (children_at cache h)
    pub ranked : Ranked cache

  pub new-IsTree : (network : Network) → IsTree (new btc network)
  unfolding new
  new-IsTree network = record {
    rooted = ground arith;
    keyed = λ h c e. ground arith;
    linked = λ h c e. inl (ground arith);
    sound = λ h c e. ground arith;
    distinct = λ h. ground arith;
    ranked = (λ h. 0, λ h c e. ground arith);
  }
