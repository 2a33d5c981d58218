-- ===== src/BlockchainState/Locators/Bounds.antt =====
-- src/blockchainstate.rs: what `locator_hashes` returns.
use bitcoin_adaptor.Base.{
  ℕ, zero, suc, ◌+◌, ◌≤◌, ◌≡◌, refl, some, List, [], ◌∷◌, ◌==◌, leb, length, last, All, inl, arith,
  if◌then◌else◌, Bool-cases, Option-cases, inr,
}
use bitcoin_adaptor.Bitcoin.{BlockHash, BlockHeader, BitcoinLib}
use bitcoin_adaptor.HeaderCache.{HeaderCache, HeaderNode, get}
use bitcoin_adaptor.HeaderCache.Tree.{IsTree}
use bitcoin_adaptor.BlockchainState.{BlockchainState, Tip, get_active_chain_tip}
use bitcoin_adaptor.BlockchainState.Valid.{IsValid}
use bitcoin_adaptor.BlockchainState.Locators.{
  walk_back, double, genesis_hash, closing, locate, locator_hashes,
}

abbrev pub IsKnown : HeaderCache → BlockHash → Type 0
IsKnown cache h = (c : HeaderNode) × (get cache h ≡ some c)

module _ (btc : BitcoinLib) (cache : HeaderCache) where
  open btc use {block_hash}

  length-closing : (h : BlockHash) → length (closing btc cache h) ≤ 1
  length-closing h = ground arith

  length-locate :
      (rounds i step : ℕ) (l : BlockHash) (current : BlockHeader)
      → length (locate btc cache rounds i step l current) ≤ rounds + 1
  unfolding locate
  length-locate zero i step l current = omega (arith, length-closing l)
  length-locate (suc rounds) i step l current = elim (Option-cases (walk_back cache step current)) [
    | inl e ↦ rw (e, locate) (omega (arith, length-closing (block_hash current)))
    | inr (previous, e) ↦
        rw (e, locate)
          (omega (
            arith,
            length-locate rounds (i + 1) (if leb 7 i then double step else step)
                (block_hash current) previous,
          ))
  ]

  locate_head :
      (rounds i step : ℕ) (l : BlockHash) (current : BlockHeader)
      → (rest : List BlockHash) × (locate btc cache (suc rounds) i step l current
          ≡ block_hash current ∷ rest)
  unfolding locate
  locate_head rounds i step l current = (_, refl)

  last-closing : (h : BlockHash) → last (h ∷ closing btc cache h) ≡ some (genesis_hash btc cache)
  last-closing h = ground arith

  last-locate :
      (rounds i step : ℕ) (l : BlockHash) (current : BlockHeader)
      → last (l ∷ locate btc cache rounds i step l current) ≡ some (genesis_hash btc cache)
  unfolding locate
  last-locate zero i step l current = last-closing l
  last-locate (suc rounds) i step l current = elim (Option-cases (walk_back cache step current)) [
    | inl e ↦ rw (e, locate) (last-closing (block_hash current))
    | inr (previous, e) ↦
        rw (e, locate)
          (last-locate rounds (i + 1) (if leb 7 i then double step else step) (block_hash current)
            previous)
  ]

  last_of_two :
      (rounds i step : ℕ) (l : BlockHash) (current : BlockHeader)
      → last (locate btc cache (suc rounds) i step l current) ≡ some (genesis_hash btc cache)
  unfolding locate
  last_of_two rounds i step l current = last-locate (suc rounds) i step l current

  module _ (tree : IsTree btc cache) where
    walk_back-IsKnown :
        (n : ℕ) (current previous : BlockHeader)
        → IsKnown cache (block_hash current)
        → walk_back cache n current ≡ some previous
        → IsKnown cache (block_hash previous)
    unfolding walk_back
    walk_back-IsKnown zero current previous k e =
        let e' : current ≡ previous = ground arith in rw (← e') k
    walk_back-IsKnown (suc n) current previous k e =
        elim (Option-cases (get cache current.prev_blockhash)) [
          | inl lost ↦ absurd (ground arith)
          | inr (c, found) ↦
              let known : get cache (block_hash c.header) ≡ some c =
                ground (arith, tree.keyed current.prev_blockhash c found) in
              walk_back-IsKnown n c.header previous (c, known) (ground arith)
        ]

    closing-IsKnown : (h : BlockHash) → All (IsKnown cache) (closing btc cache h)
    closing-IsKnown h = elim (Bool-cases (h == genesis_hash btc cache)) [
      | inl e ↦ rw e tt
      | inr e ↦ rw e ((cache.genesis, tree.rooted), tt)
    ]

    locate-IsKnown :
        (rounds i step : ℕ) (l : BlockHash) (current : BlockHeader)
        → IsKnown cache (block_hash current)
        → All (IsKnown cache) (locate btc cache rounds i step l current)
    unfolding locate
    locate-IsKnown zero i step l current k = closing-IsKnown l
    locate-IsKnown (suc rounds) i step l current k =
        elim (Option-cases (walk_back cache step current)) [
          | inl e ↦ rw (e, locate) (k, closing-IsKnown (block_hash current))
          | inr (previous, e) ↦
              rw (e, locate)
                (
                  k,
                  locate-IsKnown rounds (i + 1) (if leb 7 i then double step else step)
                      (block_hash current) previous (walk_back-IsKnown step current previous k e),
                )
        ]

-- On a valid state the locators start with the hash of the active tip and end with the genesis
-- hash; there are at most 23 of them, and each is the hash of a cached header.
pub locator_hashes_lem :
    (btc : BitcoinLib) (s : BlockchainState)
    → IsValid btc s
    → let hashes = locator_hashes btc s in
      ((rest : List BlockHash) × (hashes ≡ btc.block_hash (get_active_chain_tip s).header ∷ rest))
      × (last hashes ≡ some (genesis_hash btc s.header_cache))
      × (length hashes ≤ 23)
      × All (IsKnown s.header_cache) hashes
unfolding locator_hashes
locator_hashes_lem btc s v =
    let cache = s.header_cache in
    let current = (get_active_chain_tip s).header in
    (
      locate_head btc cache 21 0 1 (btc.block_hash current) current,
      last_of_two btc cache 21 0 1 (btc.block_hash current) current,
      length-locate btc cache 22 0 1 (btc.block_hash current) current,
      locate-IsKnown btc cache v.tree 22 0 1 (btc.block_hash current) current
          (tip_known s.tips refl),
    )
  where
    tip_known :
        (ts : List Tip)
        → s.tips ≡ ts
        → IsKnown s.header_cache (btc.block_hash (get_active_chain_tip s).header)
    tip_known [] e = (s.header_cache.genesis, rw (e) v.tree.rooted)
    tip_known (t ∷ ts) e = let (c, k, _, _) = v.leaf t (rw e (inl refl)) in (c, rw e k)
