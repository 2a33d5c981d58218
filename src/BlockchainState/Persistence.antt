-- ===== src/BlockchainState/Persistence.antt =====
-- src/blockchainstate.rs: headers are never forgotten, and the active chain never loses work.
use bitcoin_adaptor.Base.{ℕ, ◌+◌, ◌%◌, ◌^◌, ◌<◌, ◌≤◌, ◌≡◌, ap, inl, inr, some, List, [], In}
use bitcoin_adaptor.Bitcoin.{BlockHash, BlockHeader, Block, BitcoinLib}
use bitcoin_adaptor.HeaderCache.{HeaderCache, HeaderNode, get}
use bitcoin_adaptor.HeaderCache.Tree as Tree
use bitcoin_adaptor.BlockchainState.{
  BlockchainState, add_header, add_headers, add_block, get_active_chain_tip,
}
use bitcoin_adaptor.BlockchainState.Valid.{
  IsValid, IsTopped, known, invalid, orphan, grown, add_header-Outcome, add_header-IsValid,
}
use bitcoin_adaptor.BlockchainState.Growth.{add_each_rule, add_headers_active_tip, IsCapped, works}
use bitcoin_adaptor.BlockchainState.Blocks.{
  add_block_lem, prune_blocks_lem, prune_blocks_below_height_lem,
}
use bitcoin_adaptor.BlockchainState.History.{
  Step, headers, block, prune, prune_below, clear, Reach, here, next, Step-IsValid,
}

module _ (btc : BitcoinLib) where
  -- Every cached header of the first is in the second, the same.
  abbrev pub Extends : HeaderCache → HeaderCache → Type 0
  Extends cache cache' =
      (h : BlockHash) (c : HeaderNode) → get cache h ≡ some c → get cache' h ≡ some c

  add_header-Extends :
      (s : BlockchainState) (header : BlockHeader)
      → IsValid btc s
      → Extends s.header_cache (add_header btc s header).0.header_cache
  add_header-Extends s header v h c e = elim (add_header-Outcome btc s header v) [
    | known k f r ↦ rw r e
    | invalid x f g r ↦ rw r e
    | orphan f g l r ↦ rw r e
    | grown parent f g l r ↦ rw r (Tree.kept btc s.header_cache parent header v.tree f l h c e)
  ]

  pub add_headers-Extends :
      (s : BlockchainState) (hs : List BlockHeader)
      → IsValid btc s
      → Extends s.header_cache (add_headers btc s hs).0.header_cache
  unfolding add_headers
  add_headers-Extends s hs v =
      (add_each_rule btc (λ t. IsValid btc t × Extends s.header_cache t.header_cache)
        (λ t h (w, x).
          (add_header-IsValid btc t h w, λ k c e. add_header-Extends t h w k c (x k c e)))
        hs [] s (v, λ k c e. e)).1

  pub add_block-Extends :
      (s : BlockchainState) (b : Block)
      → IsValid btc s
      → Extends s.header_cache (add_block btc s b).0.header_cache
  add_block-Extends s b v h c e = elim (add_block_lem btc s b) [
    | inl (_, _, q, _) ↦ rw q e
    | inr (inl (_, _, _, q, _)) ↦ rw q (add_header-Extends s b.header v h c e)
    | inr (inr (_, _, _, _, q, _, _)) ↦ rw q (add_header-Extends s b.header v h c e)
  ]

  Step-Extends :
      {s t : BlockchainState} → Step btc s t → IsValid btc s → Extends s.header_cache t.header_cache
  Step-Extends (headers s hs) v h c e = add_headers-Extends s hs v h c e
  Step-Extends (block s b) v h c e = add_block-Extends s b v h c e
  Step-Extends (prune s hs) v h c e = rw (prune_blocks_lem hs s).1 e
  Step-Extends (prune_below s n) v h c e = rw (prune_blocks_below_height_lem n s).1 e
  Step-Extends (clear s) v h c e = e

  Reach-IsValid : {s t : BlockchainState} → Reach btc s t → IsValid btc s → IsValid btc t
  Reach-IsValid here v = v
  Reach-IsValid (next r st) v = Step-IsValid btc st (Reach-IsValid r v)

  -- From a valid state, no sequence of operations removes or changes a cached header.
  pub get-Reach :
      (s t : BlockchainState) (h : BlockHash) (c : HeaderNode)
      → Reach btc s t
      → IsValid btc s
      → get s.header_cache h ≡ some c
      → get t.header_cache h ≡ some c
  get-Reach s t h c here v e = e
  get-Reach s t h c (next {t = u} r st) v e =
      Step-Extends st (Reach-IsValid r v) h c (get-Reach s u h c r v e)

  -- Where the tips have the most work and no work wraps, `add_headers` leaves the active chain with at
  -- least the work that it had.
  pub add_headers_work :
      ((a b : ℕ) → btc.add_work a b ≡ (a + b) % 2 ^ 256)
      → (s : BlockchainState) (hs : List BlockHeader) (n : ℕ) → IsCapped btc n s
      → n + works btc hs < 2 ^ 256
      → IsValid btc s
      → IsTopped btc s
      → In (get_active_chain_tip s) s.tips
      → (get_active_chain_tip s).work ≤ (get_active_chain_tip (add_headers btc s hs).0).work
  add_headers_work wraps s hs n cap fits v top i =
      let (c, e, q, _) = v.leaf (get_active_chain_tip s) i in
      let (_, _, most) = add_headers_active_tip btc wraps s hs n cap fits v top in
      rw (ap (λ (t : _). t.work) q)
        (most (btc.block_hash (get_active_chain_tip s).header) c (add_headers-Extends s hs v _ c e))
