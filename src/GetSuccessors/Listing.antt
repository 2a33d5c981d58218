-- ===== src/GetSuccessors/Listing.antt =====
-- src/get_successors_handler.rs: the bookkeeping of the searches, the keys that were not yet pushed and
-- the hashes that were.
use bitcoin_adaptor.Base.{
  ℕ, ◌+◌, ◌≤◌, ◌<◌, ◌≡◌, ◌≢◌, refl, ◌⊎◌, inl, inr, true, false, not, List, [], ◌∷◌, ◌++◌, In,
  All-In, In-All, All-append, arith, length, keep_if,
}
use bitcoin_adaptor.Base.Map
use bitcoin_adaptor.Base.Set
use bitcoin_adaptor.Bitcoin.{BlockHash, hash_eq, BitcoinLib}
use bitcoin_adaptor.HeaderCache.{HeaderNode}
use bitcoin_adaptor.HeaderCache.Tree.{IsDistinct}

-- The keys of the cache that are not yet listed.
abbrev pub unlisted : List BlockHash → List BlockHash → ℕ
unlisted listed all = length (keep_if (λ h. not (Set.contains hash_eq h listed)) all)

unlisted_le :
    (h : BlockHash) (listed all : List BlockHash) → unlisted (h ∷ listed) all ≤ unlisted listed all
unlisted_le h listed [] = omega arith
unlisted_le h listed (k ∷ all) = ground (arith, unlisted_le h listed all)

unlisted_less :
    (h : BlockHash) (listed all : List BlockHash)
    → Set.contains hash_eq h all ≡ true
    → Set.contains hash_eq h listed ≡ false
    → unlisted (h ∷ listed) all < unlisted listed all
unlisted_less h listed [] i n = cc
unlisted_less h listed (k ∷ all) i n =
    ground (arith, unlisted_less h listed all, unlisted_le h listed all)

pub contains_key-keys :
    (h : BlockHash) (m : List (BlockHash × HeaderNode))
    → Map.contains_key hash_eq h m ≡ Set.contains hash_eq h (Map.keys m)
contains_key-keys h [] = refl
contains_key-keys h ((k, v) ∷ m) = ground (arith, contains_key-keys h m)

pub unlisted-keys : (m : List (BlockHash × HeaderNode)) → unlisted [] (Map.keys m) ≤ length m
unlisted-keys [] = omega arith
unlisted-keys ((k, v) ∷ m) = omega (arith, unlisted-keys m)

module _ (btc : BitcoinLib) where
  open btc use {block_hash}

  abbrev pub hash : HeaderNode → BlockHash
  hash c = block_hash c.header

  -- The hashes of the listed nodes, latest first.
  abbrev pub listing : List HeaderNode → List BlockHash → List BlockHash
  listing [] listed = listed
  listing (c ∷ cs) listed = listing cs (hash c ∷ listed)

  fresh_after :
      (c d : HeaderNode) (listed : List BlockHash)
      → Set.contains hash_eq (hash d) listed ≡ false
      → hash c ≢ hash d
      → Set.contains hash_eq (hash d) (hash c ∷ listed) ≡ false
  fresh_after c d listed f n = ground arith

  pub listing_less :
      (all : List BlockHash) (cs : List HeaderNode) (listed : List BlockHash)
      → ((c : HeaderNode)
          → In c cs
          → (Set.contains hash_eq (hash c) all ≡ true)
            × (Set.contains hash_eq (hash c) listed ≡ false))
      → IsDistinct btc cs
      → length cs + unlisted (listing cs listed) all ≤ unlisted listed all
  listing_less all [] listed n d = omega arith
  listing_less all (c ∷ cs) listed n d = omega (
    arith,
    listing_less all cs (hash c ∷ listed)
        (λ e i. ((n e (inr i)).0, fresh_after c e listed (n e (inr i)).1 (All-In _ e cs d.0 i)))
        d.1,
    unlisted_less (hash c) listed all (n c (inl refl)).0 (n c (inl refl)).1,
  )

  pub contains-listing :
      (h : BlockHash) (cs : List HeaderNode) (listed : List BlockHash)
      → Set.contains hash_eq h (listing cs listed) ≡ true
      → ((c : HeaderNode) × In c cs × (h ≡ hash c)) ⊎ (Set.contains hash_eq h listed ≡ true)
  contains-listing h [] listed e = inr e
  contains-listing h (c ∷ cs) listed e = elim (contains-listing h cs (hash c ∷ listed) e) [
    | inl (d, i, q) ↦ inl (d, inr i, q)
    | inr l ↦ elim (hash_eq h (hash c)) [ yes q ↦ inl (c, inl refl, q) | no n ↦ inr (ground arith) ]
  ]

  pub listed_kept :
      (h : BlockHash) (cs : List HeaderNode) (listed : List BlockHash)
      → Set.contains hash_eq h listed ≡ true
      → Set.contains hash_eq h (listing cs listed) ≡ true
  listed_kept h [] listed e = e
  listed_kept h (c ∷ cs) listed e = listed_kept h cs (hash c ∷ listed) (ground arith)

  pub listed_new :
      (c : HeaderNode) (cs : List HeaderNode) (listed : List BlockHash)
      → In c cs
      → Set.contains hash_eq (hash c) (listing cs listed) ≡ true
  listed_new c [] listed i = elim i [ ]
  listed_new c (d ∷ cs) listed (inl e) = listed_kept (hash c) cs (hash d ∷ listed) (ground arith)
  listed_new c (d ∷ cs) listed (inr i) = listed_new c cs (hash d ∷ listed) i

  pub append-IsDistinct :
      (xs ys : List HeaderNode)
      → ((x y : HeaderNode) → In x xs → In y ys → hash x ≢ hash y)
      → IsDistinct btc xs
      → IsDistinct btc ys
      → IsDistinct btc (xs ++ ys)
  append-IsDistinct [] ys n dx dy = dy
  append-IsDistinct (x ∷ xs) ys n dx dy = (
    All-append _ xs ys dx.0 (In-All _ ys (λ y i. n x y (inl refl) i)),
    append-IsDistinct xs ys (λ a b i j. n a b (inr i) j) dx.1 dy,
  )
