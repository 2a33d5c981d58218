-- ===== src/GetSuccessors/Completeness.antt =====
-- src/get_successors_handler.rs: where the limit is not met, no header is left out.
use bitcoin_adaptor.Base.{
  ℕ, zero, suc, ◌+◌, ◌<◌, ◌≡◌, refl, sym, ◌∙◌, ap, ◌⊎◌, inl, inr, true, some, List, [], ◌∷◌, ◌++◌,
  In, In-append_left, In-append_right, arith, leb, length, Bool-cases, Option-cases, map,
}
use bitcoin_adaptor.Base.Set
use bitcoin_adaptor.Bitcoin.{BlockHash, hash_eq, BlockHeader, Block, BitcoinLib}
use bitcoin_adaptor.HeaderCache.{HeaderNode, children_at}
use bitcoin_adaptor.BlockchainState as State
use bitcoin_adaptor.BlockchainState.{BlockchainState}
use bitcoin_adaptor.BlockchainState.Valid.{IsValid}
use bitcoin_adaptor.GetSuccessors.{
  children_of, start, search_headers, get_next_headers, max_next_block_headers_length,
}

module _ (btc : BitcoinLib) (s : BlockchainState) where
  open btc use {block_hash}

  -- The nodes at or below a node.
  pub data IsBelow : HeaderNode → HeaderNode → Type 0 where
    self : {c : HeaderNode} → IsBelow c c
    child :
        {c d e : HeaderNode}
        → In d (children_at s.header_cache (block_hash c.header))
        → IsBelow d e
        → IsBelow c e

  -- A header is accounted for: its hash was seen, or it is in the list.
  abbrev pub IsCovered : List BlockHash → List BlockHeader → HeaderNode → Type 0
  IsCovered seen headers d =
      (Set.contains hash_eq (block_hash d.header) seen ≡ true) ⊎ In d.header headers

  IsCovered-later :
      (seen : List BlockHash) (h : BlockHeader) (headers : List BlockHeader) (d : HeaderNode)
      → IsCovered seen headers d
      → IsCovered seen (h ∷ headers) d
  IsCovered-later seen h headers d (inl e) = inl e
  IsCovered-later seen h headers d (inr i) = inr (inr i)

  -- What the rest of the search covers, with the children of the head queued, is all below the head
  -- but the head itself, and all below the others.
  below_queue :
      (P : HeaderNode → Type 0) (c : HeaderNode) (queue : List HeaderNode)
      → P c
      → ((d e : HeaderNode) → In d (queue ++ children_of btc s c) → IsBelow d e → P e)
      → (d e : HeaderNode) → In d (c ∷ queue)
      → IsBelow d e
      → P e
  below_queue P c queue here rest d e (inr i) b =
      rest d e (In-append_left d queue (children_of btc s c) i) b
  below_queue P c queue here rest d e (inl q) self = rw q here
  below_queue P c queue here rest d e (inl q) (child {d = k} i b) =
      rest k e (In-append_right k queue (children_of btc s c) (rw (← q) i)) b

  search_headers-IsCovered :
      (n : ℕ) (seen : List BlockHash) (found : ℕ) (queue : List HeaderNode)
      (headers : List BlockHeader)
      → search_headers btc n s seen found queue ≡ some headers
      → found + length headers < max_next_block_headers_length
      → (d e : HeaderNode) → In d queue
      → IsBelow d e
      → IsCovered seen headers e
  unfolding search_headers
  search_headers-IsCovered n seen found [] headers q le d e i b = elim i [ ]
  search_headers-IsCovered zero seen found (c ∷ queue) headers q le d e i b = absurd (ground arith)
  search_headers-IsCovered (suc n) seen found (c ∷ queue) headers q le d e i b =
      elim (Bool-cases (leb max_next_block_headers_length found)) [
        | inl l ↦ absurd (ground arith)
        | inr l ↦ elim (Bool-cases (Set.contains hash_eq (block_hash c.header) seen)) [
          | inl p ↦
              below_queue (IsCovered seen headers) c queue (inl p)
                (search_headers-IsCovered n seen found (queue ++ children_of btc s c) headers
                  (ground arith) le)
                d e i b
          | inr p ↦
              elim (Option-cases
                (search_headers btc n s seen (found + 1) (queue ++ children_of btc s c))) [
                  | inl r ↦ absurd (ground arith)
                  | inr (hs, r) ↦
                      let e' : c.header ∷ hs ≡ headers = ground arith in
                      rw (← e') (
                        below_queue (IsCovered seen (c.header ∷ hs)) c queue (inr (inl refl))
                          (λ k j u v. IsCovered-later seen c.header hs j (
                            search_headers-IsCovered n seen (found + 1)
                              (queue ++ children_of btc s c) hs r (less hs e') k j u v))
                          d e i b)
                ]
        ]
      ]
    where
      less :
          (hs : List BlockHeader)
          → c.header ∷ hs ≡ headers
          → found + 1 + length hs < max_next_block_headers_length
      less hs k = omega (arith, le, ap length k)

  -- Where fewer than `max_next_block_headers_length` next headers are found, every header cached below
  -- the anchor is among them, or is of a processed block or of a block of the response.
  pub get_next_headers-IsCovered :
      (fuel : ℕ) (anchor : BlockHash) (processed : List BlockHash) (blocks : List Block)
      (next : List BlockHeader) (root d : HeaderNode)
      → IsValid btc s
      → get_next_headers btc fuel s anchor processed blocks ≡ some next
      → length next < max_next_block_headers_length
      → State.get_cached_header s anchor ≡ some root
      → In d (children_at s.header_cache anchor)
      → (e : HeaderNode) → IsBelow d e
      → IsCovered (processed ++ map (λ (b : Block). block_hash b.header) blocks) next e
  unfolding get_next_headers start
  get_next_headers-IsCovered fuel anchor processed blocks next root d valid q le r i e b =
      let seen = processed ++ map (λ (b : Block). block_hash b.header) blocks in
      let queued : In d (start btc s anchor) = rw (start, r, valid.tree.keyed anchor root r) i in
      elim (search_headers-IsCovered fuel (Set.collect hash_eq seen) 0 (start btc s anchor) next q
        (omega (arith, le)) d e queued b) [
          | inl c ↦ inl (sym (Set.contains-collect hash_eq (block_hash e.header) seen) ∙ c)
          | inr j ↦ inr j
        ]
