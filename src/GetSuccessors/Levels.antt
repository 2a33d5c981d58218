-- ===== src/GetSuccessors/Levels.antt =====
-- src/get_successors_handler.rs: the searches as listings of the nodes that their queue gives.
use bitcoin_adaptor.Base.{
  ℕ, zero, suc, ◌+◌, ◌-◌, ◌≡◌, refl, sym, ap, inl, inr, Bool, true, false, not, none, some, List,
  [], ◌∷◌, ◌++◌, arith, leb, Bool-cases, Option-cases, if◌then◌else◌,
}
use mathlib.Core.List.{append-nil}
use bitcoin_adaptor.Base.Set
use bitcoin_adaptor.Bitcoin.{BlockHash, hash_eq, BlockHeader, Block, BitcoinLib}
use bitcoin_adaptor.HeaderCache.{HeaderNode}
use bitcoin_adaptor.BlockchainState as State
use bitcoin_adaptor.BlockchainState.{BlockchainState}
use bitcoin_adaptor.GetSuccessors.Search.{Ends}
use bitcoin_adaptor.GetSuccessors.Generations.{popped, Empties}
use bitcoin_adaptor.GetSuccessors.{
  children_of, search_blocks, search_headers, visit, fits, max_next_block_headers_length,
}

module _ {ℓ} {A : Type ℓ} where
  abbrev pub take : ℕ → List A → List A
  take zero xs = []
  take (suc n) [] = []
  take (suc n) (x ∷ xs) = x ∷ take n xs

  take-nil : (n : ℕ) → take n [] ≡ []
  take-nil zero = refl
  take-nil (suc n) = refl

  take_none : (n m : ℕ) (xs : List A) → leb n m ≡ true → take (n - m) xs ≡ []
  take_none n m xs l = let z : n - m ≡ 0 = ground arith in rw z

  take_one :
      (n m : ℕ) (x : A) (xs : List A)
      → leb n m ≡ false
      → take (n - m) (x ∷ xs) ≡ x ∷ take (n - (m + 1)) xs
  take_one n m x xs l = let z : n - m ≡ suc (n - (m + 1)) = ground arith in rw z

module _ (btc : BitcoinLib) (s : BlockchainState) where
  open btc use {block_hash}

  -- The next nodes, where the queue of one search is pushed less than all children.
  abbrev pub restricted : (HeaderNode → Bool) → HeaderNode → List HeaderNode
  restricted keep c = elim (keep c) [ true ↦ children_of btc s c | false ↦ [] ]

  -- A search that pushes the children of some nodes only ends as well.
  pub Empties-restricted :
      (keep : HeaderNode → Bool) (n : ℕ) (queue : List HeaderNode)
      → Ends btc s.header_cache n queue
      → Empties (restricted keep) n queue
  Empties-restricted keep n [] e = tt
  Empties-restricted keep zero (c ∷ queue) e = e
  Empties-restricted keep (suc n) (c ∷ queue) e = elim (Bool-cases (keep c)) [
    | inl q ↦
        rw (Empties, restricted, q) (Empties-restricted keep n (queue ++ children_of btc s c) e.1)
    | inr q ↦ rw (Empties, restricted, q, append-nil) (Empties-restricted keep n queue e.0)
  ]

  pub Empties-children :
      (n : ℕ) (queue : List HeaderNode)
      → Ends btc s.header_cache n queue
      → Empties (children_of btc s) n queue
  Empties-children n [] e = tt
  Empties-children zero (c ∷ queue) e = e
  Empties-children (suc n) (c ∷ queue) e = Empties-children n (queue ++ children_of btc s c) e.1

  abbrev pub is_unseen : List BlockHash → HeaderNode → Bool
  is_unseen seen c = not (Set.contains hash_eq (block_hash c.header) seen)

  abbrev pub unseen_headers : List BlockHash → List HeaderNode → List BlockHeader
  unseen_headers seen [] = []
  unseen_headers seen (c ∷ cs) =
      if is_unseen seen c then c.header ∷ unseen_headers seen cs else unseen_headers seen cs

  -- The loop over the headers picks from the nodes popped.
  pub search_headers-popped :
      (n : ℕ) (seen : List BlockHash) (found : ℕ) (queue : List HeaderNode)
      → Ends btc s.header_cache n queue
      → search_headers btc n s seen found queue
        ≡ some (
            take
              (max_next_block_headers_length - found)
              (unseen_headers seen (popped (children_of btc s) n queue)))
  unfolding search_headers popped
  search_headers-popped zero seen found [] e = ap some (sym (take-nil _))
  search_headers-popped (suc n) seen found [] e = ap some (sym (take-nil _))
  search_headers-popped zero seen found (c ∷ queue) e = absurd e
  search_headers-popped (suc n) seen found (c ∷ queue) e =
      let rest = popped (children_of btc s) n (queue ++ children_of btc s c) in
      elim (Bool-cases (leb max_next_block_headers_length found)) [
        | inl l ↦ rw (search_headers, l) (ap some (sym (take_none _ _ _ l)))
        | inr l ↦ elim (Bool-cases (Set.contains hash_eq (block_hash c.header) seen)) [
          | inl p ↦
              rw (search_headers, popped, l, p)
                (search_headers-popped n seen found (queue ++ children_of btc s c) e.1)
          | inr p ↦
              rw
                (
                  search_headers,
                  popped,
                  l,
                  p,
                  search_headers-popped n seen (found + 1) (queue ++ children_of btc s c) e.1,
                )
                (ap some (sym (take_one _ found _ _ l)))
        ]
      ]

  -- Below a processed block and below a cached one the search for blocks goes on.
  abbrev pub goes_on : List BlockHash → HeaderNode → Bool
  goes_on seen c = elim (Set.contains hash_eq (block_hash c.header) seen) [
    | true ↦ true
    | false ↦ elim (State.get_block s (block_hash c.header)) [ none ↦ false | some block ↦ true ]
  ]

  -- The cached blocks of the nodes that are not processed.
  abbrev pub cached_blocks : List BlockHash → List HeaderNode → List Block
  cached_blocks seen [] = []
  cached_blocks seen (c ∷ cs) = elim (Set.contains hash_eq (block_hash c.header) seen) [
    | true ↦ cached_blocks seen cs
    | false ↦ elim (State.get_block s (block_hash c.header)) [
      | none ↦ cached_blocks seen cs
      | some block ↦ block ∷ cached_blocks seen cs
    ]
  ]

  -- The blocks up to the first that does not fit.
  abbrev pub fitting : Bool → ℕ → List Block → List Block
  fitting allow size [] = []
  fitting allow size (block ∷ blocks) =
      if fits btc allow size block then block ∷ fitting allow (size + btc.size block) blocks else []

  -- The loop over the blocks picks from the nodes popped.
  pub search_blocks-popped :
      (n : ℕ) (seen : List BlockHash) (allow : Bool) (size : ℕ) (queue : List HeaderNode)
      → Ends btc s.header_cache n queue
      → search_blocks btc n s seen allow size queue
        ≡ some
            (fitting allow size (cached_blocks seen (popped (restricted (goes_on seen)) n queue)))
  unfolding search_blocks popped visit
  search_blocks-popped zero seen allow size [] e = refl
  search_blocks-popped (suc n) seen allow size [] e = refl
  search_blocks-popped zero seen allow size (c ∷ queue) e = absurd e
  search_blocks-popped (suc n) seen allow size (c ∷ queue) e =
      let pass = search_blocks-popped n seen allow size (queue ++ children_of btc s c) e.1 in
      let skip = search_blocks-popped n seen allow size queue e.0 in
      let all = append-nil queue in
      elim (Bool-cases (Set.contains hash_eq (block_hash c.header) seen)) [
        | inl p ↦ ground (arith, pass)
        | inr p ↦ elim (Option-cases (State.get_block s (block_hash c.header))) [
          | inl g ↦ ground (arith, skip, all)
          | inr (block, g) ↦
              let take =
                search_blocks-popped n seen allow (size + btc.size block)
                  (queue ++ children_of btc s c) e.1 in
              let below : restricted (goes_on seen) c ≡ children_of btc s c =
                rw (restricted, goes_on, p, g) refl in
              elim (Bool-cases (fits btc allow size block)) [
                | inl f ↦
                    rw (search_blocks, visit, p, g, f, take)
                      (rw (popped, cached_blocks, p, g, fitting, f) (rw below refl))
                | inr f ↦
                    rw (search_blocks, visit, p, g, f)
                      (rw (popped, cached_blocks, p, g, fitting, f) refl)
              ]
        ]
      ]
