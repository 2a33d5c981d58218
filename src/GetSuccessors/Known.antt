-- ===== src/GetSuccessors/Known.antt =====
-- src/get_successors_handler.rs: the next headers are cached ones.
use bitcoin_adaptor.Base.{
  ℕ, zero, suc, ◌+◌, ◌≡◌, refl, inl, inr, true, some, List, [], ◌∷◌, ◌++◌, In, In-append, All,
  arith, leb, Bool-cases, Option-cases, Result, is_empty, if◌then◌else◌,
}
use bitcoin_adaptor.Base.Set
use bitcoin_adaptor.Bitcoin.{BlockHash, hash_eq, BlockHeader, BitcoinLib, Network}
use bitcoin_adaptor.Adapter.{BlockchainManagerRequest, enqueue_new_blocks_to_download, prune_blocks}
use bitcoin_adaptor.HeaderCache as Cache
use bitcoin_adaptor.HeaderCache.{HeaderNode, children_at}
use bitcoin_adaptor.BlockchainState as State
use bitcoin_adaptor.BlockchainState.{BlockchainState}
use bitcoin_adaptor.BlockchainState.Valid.{IsValid}
use bitcoin_adaptor.GetSuccessors.Handler.{start-cases}
use bitcoin_adaptor.GetSuccessors.{
  start, children_of, search_headers, get_successor_blocks, get_next_headers, get_successors,
  max_next_block_headers_length, GetSuccessorsRequest, GetSuccessorsResponse, Status,
  are_multiple_blocks_allowed,
}

module _ (btc : BitcoinLib) (s : BlockchainState) (valid : IsValid btc s) where
  open btc use {block_hash}

  abbrev pub IsCached : BlockHeader → Type 0
  IsCached h = Cache.contains s.header_cache (block_hash h) ≡ true

  abbrev AreCached : List HeaderNode → Type 0
  AreCached queue = (c : HeaderNode) → In c queue → IsCached c.header

  child-IsCached : (h : BlockHash) → AreCached (children_at s.header_cache h)
  child-IsCached h c i = let (e, _, _, _) = valid.tree.sound h c i in ground arith

  pushed-AreCached :
      (c : HeaderNode) (queue : List HeaderNode)
      → AreCached queue
      → AreCached (queue ++ children_of btc s c)
  pushed-AreCached c queue f d i = elim (In-append d queue (children_of btc s c) i) [
    | inl l ↦ f d l
    | inr r ↦ child-IsCached (block_hash c.header) d r
  ]

  search_headers-AreCached :
      (n : ℕ) (seen : List BlockHash) (found : ℕ) (queue : List HeaderNode)
      (headers : List BlockHeader)
      → AreCached queue
      → search_headers btc n s seen found queue ≡ some headers
      → All IsCached headers
  unfolding search_headers
  search_headers-AreCached n seen found [] headers f q =
      let e : [] ≡ headers = ground arith in rw (← e) tt
  search_headers-AreCached zero seen found (c ∷ queue) headers f q = absurd (ground arith)
  search_headers-AreCached (suc n) seen found (c ∷ queue) headers f q =
      let pushed = pushed-AreCached c queue (λ d i. f d (inr i)) in
      elim (Bool-cases (leb max_next_block_headers_length found)) [
        | inl l ↦ let e : [] ≡ headers = ground arith in rw (← e) tt
        | inr l ↦ elim (Bool-cases (Set.contains hash_eq (block_hash c.header) seen)) [
          | inl p ↦
              search_headers-AreCached n seen found (queue ++ children_of btc s c) headers pushed
                (ground arith)
          | inr p ↦
              elim (Option-cases
                (search_headers btc n s seen (found + 1) (queue ++ children_of btc s c))) [
                  | inl r ↦ absurd (ground arith)
                  | inr (hs, r) ↦
                      let e : c.header ∷ hs ≡ headers = ground arith in
                      rw (← e) (
                        f c (inl refl),
                        search_headers-AreCached n seen (found + 1) (queue ++ children_of btc s c)
                            hs pushed r,
                      )
                ]
        ]
      ]

  start-AreCached : (anchor : BlockHash) → AreCached (start btc s anchor)
  start-AreCached anchor c i = elim (start-cases btc s valid anchor) [
    | inl e ↦ absurd (rw e at i)
    | inr e ↦ child-IsCached anchor c (rw e at i)
  ]

  -- What the handler asks to have queued.
  abbrev pub IsCachedRequest : BlockchainManagerRequest → Type 0
  IsCachedRequest (enqueue_new_blocks_to_download headers) = All IsCached headers
  IsCachedRequest (prune_blocks anchor processed) = Unit

  sent-IsCachedRequest :
      (anchor : BlockHash) (processed : List BlockHash) (next : List BlockHeader)
      → All IsCached next
      → All IsCachedRequest (
          (if is_empty next then [] else enqueue_new_blocks_to_download next ∷ [])
          ++ prune_blocks anchor processed ∷ [])
  sent-IsCachedRequest anchor processed [] all = (tt, tt)
  sent-IsCachedRequest anchor processed (h ∷ next) all = (all, (tt, tt))

  -- All headers that the handler asks to have queued are cached ones.
  pub get_successors-IsCachedRequest :
      (fuel : ℕ) (network : Network) (request : GetSuccessorsRequest)
      (result : Result GetSuccessorsResponse Status) (requests : List BlockchainManagerRequest)
      → get_successors btc fuel network s request ≡ some (result, requests)
      → All IsCachedRequest requests
  unfolding get_successors get_next_headers
  get_successors-IsCachedRequest fuel network request result requests e =
      let allow = are_multiple_blocks_allowed network (State.height_of s request.anchor) in
      let processed = request.processed_block_hashes in
      elim (Bool-cases
        (btc.is_beyond_last_checkpoint network (State.get_active_chain_tip s).height)) [
          | inr q ↦
              let e' : [] ≡ requests = ground (arith, rw (get_successors, q) at e) in rw (← e') tt
          | inl q ↦
              elim (Option-cases (get_successor_blocks btc fuel s request.anchor processed allow)) [
                | inl b ↦ absurd (ground (arith, rw (get_successors, q, b) at e))
                | inr (blocks, b) ↦
                    elim (Option-cases
                      (get_next_headers btc fuel s request.anchor processed blocks)) [
                        | inl n ↦ absurd (ground (arith, rw (get_successors, q, b, n) at e))
                        | inr (next, n) ↦
                            let all =
                              search_headers-AreCached fuel _ 0 (start btc s request.anchor) next
                                (start-AreCached request.anchor) n in
                            let e' : (if is_empty next
                                    then []
                                    else enqueue_new_blocks_to_download next ∷ [])
                                  ++ prune_blocks request.anchor processed ∷ []
                                ≡ requests =
                              ground (arith, rw (get_successors, q, b, n) at e) in
                            rw (← e') (sent-IsCachedRequest request.anchor processed next all)
                      ]
              ]
        ]
