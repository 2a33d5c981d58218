-- ===== src/BlockchainState/Tests.antt =====
-- Tests of the blockchain state at concrete inputs.
use bitcoin_adaptor.Base.{◌≤◌, ◌≡◌, refl, inl, [], ◌∷◌, length, arith, some, ℕ_discrete, ok}
use bitcoin_adaptor.Bitcoin.{regtest}
use bitcoin_adaptor.Samples.{header, block, lib}
use bitcoin_adaptor.HeaderCache as Cache
use bitcoin_adaptor.HeaderCache.{HeaderNode, get, attach}
use bitcoin_adaptor.BlockchainState.{BlockchainState, new, add_headers, add_header, add_block}
use bitcoin_adaptor.BlockchainState.Tips.{IsDescending}
use bitcoin_adaptor.BlockchainState.Valid.{IsValid, IsTopped}
use bitcoin_adaptor.BlockchainState.History.{here, next, headers, new-IsValid, Reach_new-IsValid}
use bitcoin_adaptor.BlockchainState.Persistence.{get-Reach}
use bitcoin_adaptor.BlockchainState.Additions.{Addition, add_header-Addition}
use bitcoin_adaptor.BlockchainState.Growth.{IsCapped, add_headers_active_tip}
use bitcoin_adaptor.BlockchainState.Locators.{locator_hashes}
use bitcoin_adaptor.BlockchainState.Locators.Bounds.{locator_hashes_lem}

abbrev start : BlockchainState
start = new lib regtest

start-IsValid : IsValid lib start
start-IsValid = new-IsValid lib regtest

start-IsTopped : IsTopped lib start
unfolding new Cache.new
start-IsTopped h c e = (_, inl refl, ground arith)

-- Two headers in a row, and a fork of one.
two_chains : length (add_headers lib start (header 2 1 ∷ header 3 2 ∷ header 4 1 ∷ [])).0.tips ≡ 2
unfolding new Cache.new add_headers Cache.attach ℕ_discrete
two_chains = refl

add_header-Addition_example : Addition lib start (header 2 1) (add_header lib start (header 2 1))
add_header-Addition_example = add_header-Addition lib start (header 2 1) start-IsValid

Reach_new-IsValid_example : IsValid lib (add_headers lib start (header 2 1 ∷ [])).0
Reach_new-IsValid_example =
    Reach_new-IsValid lib regtest _ (next here (headers start (header 2 1 ∷ [])))

locator_hashes_example : length (locator_hashes lib start) ≤ 23
locator_hashes_example = (locator_hashes_lem lib start start-IsValid).2

start-IsCapped : IsCapped lib 2 start
unfolding new Cache.new
start-IsCapped h c e = ground arith

add_headers_active_tip_example :
    IsDescending (add_headers lib start (header 2 1 ∷ header 3 2 ∷ [])).0.tips
add_headers_active_tip_example =
    (add_headers_active_tip lib (λ a b. refl) start (header 2 1 ∷ header 3 2 ∷ []) 2 start-IsCapped
      (omega arith) start-IsValid start-IsTopped).1

inserted_one :
    Cache.insert lib (Cache.new lib regtest) (header 2 1)
    ≡ ok (attach lib (Cache.new lib regtest) (Cache.new lib regtest).genesis (header 2 1))
unfolding Cache.insert Cache.new ℕ_discrete
inserted_one = refl

-- A block in the cache.
abbrev with_block : BlockchainState
with_block = (add_block lib start (block 2 1)).0

genesis_cached : get start.header_cache 1 ≡ some start.header_cache.genesis
unfolding new ℕ_discrete
genesis_cached = refl

get-Reach_example :
    get (add_headers lib start (header 2 1 ∷ [])).0.header_cache 1 ≡ some start.header_cache.genesis
get-Reach_example =
    get-Reach lib start (add_headers lib start (header 2 1 ∷ [])).0 1 start.header_cache.genesis
      (next here (headers start (header 2 1 ∷ []))) start-IsValid genesis_cached
