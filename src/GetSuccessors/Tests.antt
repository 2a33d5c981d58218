-- ===== src/GetSuccessors/Tests.antt =====
-- Tests of the handler of get_successors at a short chain, one block of which is cached.
use bitcoin_adaptor.Base.{
  ◌≤◌, ◌<◌, ◌≡◌, refl, some, true, List, [], ◌∷◌, length, All, arith, ℕ_discrete, Result,
}
use bitcoin_adaptor.Bitcoin.{regtest, Block}
use bitcoin_adaptor.Samples.{header, block, lib}
use bitcoin_adaptor.Adapter.{BlockchainManagerRequest}
use bitcoin_adaptor.HeaderCache as Cache
use bitcoin_adaptor.BlockchainState.{BlockchainState, new, add_headers, add_block}
use bitcoin_adaptor.BlockchainState.Valid.{IsValid}
use bitcoin_adaptor.BlockchainState.Growth.{add_headers-IsValid}
use bitcoin_adaptor.BlockchainState.History.{new-IsValid, add_block-IsValid}
use bitcoin_adaptor.GetSuccessors.{
  GetSuccessorsRequest, GetSuccessorsResponse, Status, get_successors, get_successor_blocks,
  get_next_headers, visit, start, max_next_block_headers_length,
}
use bitcoin_adaptor.GetSuccessors.Response.{IsServed, IsBounded, IsUnseen}
use bitcoin_adaptor.GetSuccessors.Linkage.{
  IsChained, IsHeaderChain, get_successor_blocks-IsChained, get_next_headers-IsHeaderChain,
}
use bitcoin_adaptor.GetSuccessors.Completeness.{
  IsBelow, self, child, IsCovered, get_next_headers-IsCovered,
}
use bitcoin_adaptor.HeaderCache.{HeaderNode, children_at}
use bitcoin_adaptor.BlockchainState.{get_cached_header}
use bitcoin_adaptor.Base.{ℕ, In, inl, ◌+◌, ◌*◌}
use bitcoin_adaptor.GetSuccessors.Reference.{reference, get_successors-reference}
use bitcoin_adaptor.GetSuccessors.Handler.{
  get_successors-returns, get_successor_blocks-IsServed, get_successor_blocks-IsBounded,
  get_next_headers-bounds,
}

abbrev chain : BlockchainState
chain =
    (add_block lib (add_headers lib (new lib regtest) (header 2 1 ∷ header 3 2 ∷ [])).0
      (block 2 1)).0

chain-IsValid : IsValid lib chain
chain-IsValid = add_block-IsValid lib _ (block 2 1) (
    add_headers-IsValid lib (new lib regtest) (header 2 1 ∷ header 3 2 ∷ [])
      (new-IsValid lib regtest))

abbrev request : GetSuccessorsRequest
request = record { anchor = 1; processed_block_hashes = [] }

fuel_suffices : length chain.header_cache.headers ≤ 3
unfolding new Cache.new add_headers Cache.attach add_block ℕ_discrete
fuel_suffices = omega arith

get_successors-returns_example :
    (answer : Result GetSuccessorsResponse Status × List BlockchainManagerRequest) × (get_successors
        lib 3 regtest chain request
      ≡ some answer)
get_successors-returns_example =
    get_successors-returns lib chain chain-IsValid 3 regtest request fuel_suffices

one_block : get_successor_blocks lib 3 chain 1 [] true ≡ some (block 2 1 ∷ [])
unfolding get_successor_blocks visit start new Cache.new add_headers Cache.attach add_block
    ℕ_discrete
one_block = refl

get_successor_blocks-IsServed_example : All (IsServed lib chain []) (block 2 1 ∷ [])
get_successor_blocks-IsServed_example =
    get_successor_blocks-IsServed lib chain chain-IsValid 3 1 [] true (block 2 1 ∷ []) one_block

positive : (b : Block) → 0 < lib.size b
positive b = omega arith

get_successor_blocks-IsBounded_example : IsBounded lib chain true (block 2 1 ∷ [])
get_successor_blocks-IsBounded_example =
    get_successor_blocks-IsBounded lib chain positive 3 1 [] true (block 2 1 ∷ []) one_block

one_header : get_next_headers lib 3 chain 1 [] (block 2 1 ∷ []) ≡ some (header 3 2 ∷ [])
unfolding get_next_headers visit start new Cache.new add_headers Cache.attach add_block ℕ_discrete
one_header = refl

get_next_headers-bounds_example :
    (length (header 3 2 ∷ []) ≤ max_next_block_headers_length)
    × All (IsUnseen lib chain []) (header 3 2 ∷ [])
    × All (IsUnseen lib chain (2 ∷ [])) (header 3 2 ∷ [])
get_next_headers-bounds_example =
    get_next_headers-bounds lib chain 3 1 [] (block 2 1 ∷ []) (header 3 2 ∷ []) one_header

get_successor_blocks-IsChained_example : IsChained lib chain (1 ∷ []) (block 2 1 ∷ [])
get_successor_blocks-IsChained_example =
    get_successor_blocks-IsChained lib chain chain-IsValid 3 1 [] true (block 2 1 ∷ []) one_block

get_next_headers-IsHeaderChain_example : IsHeaderChain lib chain (1 ∷ 2 ∷ []) (header 3 2 ∷ [])
get_next_headers-IsHeaderChain_example =
    get_next_headers-IsHeaderChain lib chain chain-IsValid 3 1 [] (block 2 1 ∷ []) (header 3 2 ∷ [])
      one_header

abbrev node : ℕ → HeaderNode
node n = record { header = header (n + 1) n; height = n; work = 2 * n + 2 }

root_cached :
    get_cached_header chain 1 ≡ some (record { header = header 1 0; height = 0; work = 2 })
unfolding new Cache.new add_headers Cache.attach add_block ℕ_discrete
root_cached = refl

child_cached : In (node 1) (children_at chain.header_cache 1)
unfolding new Cache.new add_headers Cache.attach add_block ℕ_discrete
child_cached = inl refl

IsBelow-cached : IsBelow lib chain (node 1) (node 2)
unfolding new Cache.new add_headers Cache.attach add_block ℕ_discrete
IsBelow-cached = child {c = node 1} {d = node 2} {e = node 2} (inl refl) self

get_next_headers-IsCovered_example : IsCovered lib chain (2 ∷ []) (header 3 2 ∷ []) (node 2)
get_next_headers-IsCovered_example =
    get_next_headers-IsCovered lib chain 3 1 [] (block 2 1 ∷ []) (header 3 2 ∷ [])
      (record { header = header 1 0; height = 0; work = 2 }) (node 1) chain-IsValid one_header
      (omega arith) root_cached child_cached (node 2) IsBelow-cached

get_successors-reference_example :
    get_successors lib (length chain.header_cache.headers) regtest chain request
    ≡ some (reference lib chain regtest request)
get_successors-reference_example = get_successors-reference lib chain chain-IsValid regtest request
