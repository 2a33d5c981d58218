-- ===== src/BlockchainState/Locators.antt =====
-- src/blockchainstate.rs: `locator_hashes`, over the headers of the active chain.
pub mod Bounds
use bitcoin_adaptor.Base.{
  ℕ, zero, suc, ◌+◌, ◌*◌, ◌-◌, ◌^◌, ◌≤◌, ◌≡◌, Option, none, some, List, [], ◌∷◌, ◌++◌, leb, ◌==◌,
  if◌then◌else◌,
}
use bitcoin_adaptor.Bitcoin.{BlockHash, BlockHeader, BitcoinLib}
use bitcoin_adaptor.HeaderCache as Cache
use bitcoin_adaptor.HeaderCache.{HeaderCache, HeaderNode}
use bitcoin_adaptor.BlockchainState.{BlockchainState, get_active_chain_tip}

-- `step.saturating_mul(2)` on a `u32`
abbrev pub double : ℕ → ℕ
double step = if leb (2 ^ 32) (step * 2) then 2 ^ 32 - 1 else step * 2

-- `for _j in 0..step`: `none` if a predecessor is not cached.
unfoldable pub walk_back : HeaderCache → ℕ → BlockHeader → Option BlockHeader
walk_back cache zero current = some current
walk_back cache (suc n) current = elim (Cache.get cache current.prev_blockhash) [
  | none ↦ none
  | some cached ↦ walk_back cache n cached.header
]

module _ (btc : BitcoinLib) where
  open btc use {block_hash}

  abbrev pub genesis_hash : HeaderCache → BlockHash
  genesis_hash cache = block_hash cache.genesis.header

  -- The genesis hash at the end, if it is not the last one there.
  abbrev pub closing : HeaderCache → BlockHash → List BlockHash
  closing cache last_hash = if last_hash == genesis_hash cache then [] else genesis_hash cache ∷ []

  -- `for i in 0..22`, with the rounds left; the list is what the loop still pushes.
  unfoldable pub locate : HeaderCache → ℕ → ℕ → ℕ → BlockHash → BlockHeader → List BlockHash
  unfolding walk_back
  locate cache zero i step last_hash current = closing cache last_hash
  locate cache (suc rounds) i step last_hash current =
      block_hash current ∷ elim (walk_back cache step current) [
        | none ↦ closing cache (block_hash current)
        | some previous ↦
            locate cache rounds (i + 1) (if leb 7 i then double step else step) (block_hash current)
              previous
      ]

  unfoldable pub locator_hashes : BlockchainState → List BlockHash
  locator_hashes s =
      let tip = get_active_chain_tip s in
      locate s.header_cache 22 0 1 (block_hash tip.header) tip.header
