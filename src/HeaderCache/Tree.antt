-- ===== src/HeaderCache/Tree.antt =====
-- src/blockchainstate.rs: `HeaderCache::insert` keeps the cache a tree.
mod Shape
pub use Shape.*
use bitcoin_adaptor.Base.{
  ℕ, suc, ◌<◌, All, All-append, ◌≡◌, refl, sym, ◌≢◌, ◌⊎◌, inl, inr, none, some, List, [], ◌∷◌, ◌++◌,
  ok, In, In-append, In-append_left, In-append_right, arith, Option-cases, Bool-cases, same, true,
  false,
}
use bitcoin_adaptor.Base.Map
use bitcoin_adaptor.Bitcoin.{BlockHash, hash_eq, Network, BlockHeader, BitcoinLib}
use bitcoin_adaptor.HeaderCache.{
  HeaderCache, HeaderNode, get, children_at, child_of, children, attach, insert, new,
}

module _ (btc : BitcoinLib) where
  open btc use {block_hash}

  append-IsDistinct :
      (xs : List HeaderNode) (c : HeaderNode)
      → ((d : HeaderNode) → In d xs → block_hash d.header ≢ block_hash c.header)
      → IsDistinct btc xs
      → IsDistinct btc (xs ++ c ∷ [])
  append-IsDistinct [] c n d = (tt, tt)
  append-IsDistinct (x ∷ xs) c n d = (
    All-append _ xs (c ∷ []) d.0 (n x (inl refl), tt),
    append-IsDistinct xs c (λ y i. n y (inr i)) d.1,
  )

  module _ (cache : HeaderCache) (parent : HeaderNode) (header : BlockHeader)
      (tree : IsTree btc cache) (fresh : get cache (block_hash header) ≡ none)
      (found : get cache header.prev_blockhash ≡ some parent) where
    abbrev pub node : HeaderNode
    node = child_of btc parent header

    pub get-attach :
        (h : BlockHash)
        → get (attach btc cache parent header) h
          ≡ elim (same hash_eq h (block_hash header)) [ true ↦ some node | false ↦ get cache h ]
    unfolding attach
    get-attach h = ground (arith, Map.get-insert hash_eq h (block_hash header) node cache.headers)

    pub children_at-attach :
        (h : BlockHash)
        → children_at (attach btc cache parent header) h
          ≡ elim (same hash_eq h (block_hash header)) [
            | true ↦ []
            | false ↦ elim (same hash_eq h header.prev_blockhash) [
              | true ↦ children_at cache h ++ node ∷ []
              | false ↦ children_at cache h
            ]
          ]
    unfolding attach
    children_at-attach h = ground (
      arith,
      Map.get-insert hash_eq h (block_hash header) [] (
          Map.insert hash_eq (block_hash parent.header) (children btc cache parent ++ node ∷ [])
            cache.children),
      Map.get-insert hash_eq h (block_hash parent.header) (children btc cache parent ++ node ∷ [])
          cache.children,
      tree.keyed header.prev_blockhash parent found,
    )

    pub absent : (h : BlockHash) (c : HeaderNode) → get cache h ≡ some c → h ≡ block_hash header → ⊥
    absent h c e q = ground arith

    attach-keyed :
        (h : BlockHash) (c : HeaderNode)
        → get (attach btc cache parent header) h ≡ some c
        → block_hash c.header ≡ h
    attach-keyed h c e = ground (arith, get-attach h, tree.keyed h c)

    pub kept :
        (h : BlockHash) (c : HeaderNode)
        → get cache h ≡ some c
        → get (attach btc cache parent header) h ≡ some c
    kept h c e = ground (arith, get-attach h)

    pub listed :
        (h : BlockHash) (c : HeaderNode)
        → In c (children_at cache h)
        → In c (children_at (attach btc cache parent header) h)
    listed h c i = ground (
      arith,
      children_at-attach h,
      tree.sound h c i,
      In-append_left c (children_at cache h) (node ∷ []) i,
    )

    listed_new : In node (children_at (attach btc cache parent header) header.prev_blockhash)
    listed_new = ground (
      arith,
      children_at-attach header.prev_blockhash,
      In-append_right node (children_at cache header.prev_blockhash) (node ∷ []) (inl refl),
    )

    attach-linked :
        (h : BlockHash) (c : HeaderNode)
        → get (attach btc cache parent header) h ≡ some c
        → (c ≡ cache.genesis)
          ⊎ ((p : HeaderNode) × (get (attach btc cache parent header) c.header.prev_blockhash
                ≡ some p)
              × (c ≡ child_of btc p c.header)
              × In c (children_at (attach btc cache parent header) c.header.prev_blockhash))
    attach-linked h c e = elim (Bool-cases (same hash_eq h (block_hash header))) [
      | inl q ↦
          let e' : node ≡ c = ground (arith, get-attach h) in
          rw (← e') (inr (parent, kept _ _ found, refl, listed_new))
      | inr q ↦ elim (tree.linked h c (ground (arith, get-attach h))) [
        | inl g ↦ inl g
        | inr (p, l, k, i) ↦ inr (p, kept _ p l, k, listed _ c i)
      ]
    ]

    old_or_new :
        (h : BlockHash) (c : HeaderNode)
        → In c (children_at (attach btc cache parent header) h)
        → In c (children_at cache h) ⊎ ((c ≡ node) × (h ≡ header.prev_blockhash))
    old_or_new h c i =
        ground (arith, children_at-attach h, In-append c (children_at cache h) (node ∷ []))

    known_parent :
        (h : BlockHash) (c : HeaderNode)
        → (p : HeaderNode) × (get cache h ≡ some p) × (c ≡ child_of btc p c.header)
        → (p : HeaderNode) × (get (attach btc cache parent header) h ≡ some p)
          × (c ≡ child_of btc p c.header)
    known_parent h c (p, e, k) = (p, kept h p e, k)

    attach_sound :
        (h : BlockHash) (c : HeaderNode)
        → In c (children_at (attach btc cache parent header) h)
        → (get (attach btc cache parent header) (block_hash c.header) ≡ some c)
          × (c.header.prev_blockhash ≡ h)
          × (block_hash c.header ≢ block_hash cache.genesis.header)
          × ((p : HeaderNode) × (get (attach btc cache parent header) h ≡ some p)
              × (c ≡ child_of btc p c.header))
    attach_sound h c i = elim (old_or_new h c i) [
      | inl old ↦ let (e, q, n, k) = tree.sound h c old in (kept _ c e, q, n, known_parent h c k)
      | inr (new_node, q) ↦
          rw (new_node, q)
            (
              ground (arith, get-attach (block_hash header)),
              refl,
              λ g. absent _ _ tree.rooted (sym g),
              (parent, kept _ _ found, refl),
            )
    ]

    unlike_node :
        (h : BlockHash) (d : HeaderNode)
        → In d (children_at cache h)
        → block_hash d.header ≢ block_hash header
    unlike_node h d i e = absent _ d (tree.sound h d i).0 e

    attach-IsDistinct :
        (h : BlockHash) → IsDistinct btc (children_at (attach btc cache parent header) h)
    attach-IsDistinct h = ground (
      arith,
      children_at-attach h,
      tree.distinct h,
      append-IsDistinct (children_at cache h) node (unlike_node h) (tree.distinct h),
    )

    attach-Ranked : Ranked btc (attach btc cache parent header)
    attach-Ranked = (rank', rises)
      where
        rank : BlockHash → ℕ
        rank = tree.ranked.0

        rank' : BlockHash → ℕ
        rank' j = elim (same hash_eq j (block_hash header)) [
          | true ↦ suc (rank header.prev_blockhash)
          | false ↦ rank j
        ]

        rises :
            (h : BlockHash) (c : HeaderNode)
            → In c (children_at (attach btc cache parent header) h)
            → rank' h < rank' (block_hash c.header)
        rises h c i = elim (old_or_new h c i) [
          | inl old ↦
              let (e, _, _, p) = tree.sound h c old in
              ground (arith, tree.ranked.1 h c old, absent _ c e, absent h p.0 p.1)
          | inr (q, r) ↦ rw (q, r) (ground (arith, absent _ parent found))
        ]

    pub attach-IsTree : IsTree btc (attach btc cache parent header)
    unfolding attach
    attach-IsTree = record {
      rooted = kept _ _ tree.rooted;
      keyed = attach-keyed;
      linked = attach-linked;
      sound = attach_sound;
      distinct = attach-IsDistinct;
      ranked = attach-Ranked;
    }

  -- Inserting a header, successful or not, leaves a tree.
  pub insert-IsTree :
      (cache cache' : HeaderCache) (header : BlockHeader)
      → IsTree btc cache
      → insert btc cache header ≡ ok cache'
      → IsTree btc cache'
  unfolding insert
  insert-IsTree cache cache' header tree e = elim (Option-cases (get cache (block_hash header))) [
    | inr (c, old) ↦ absurd (ground arith)
    | inl fresh ↦ elim (Option-cases (get cache header.prev_blockhash)) [
      | inl lost ↦ absurd (ground arith)
      | inr (parent, found) ↦
          let e' : attach btc cache parent header ≡ cache' = ground arith in
          rw (← e') (attach-IsTree cache parent header tree fresh found)
    ]
  ]
