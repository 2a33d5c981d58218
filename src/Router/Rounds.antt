-- ===== src/Router/Rounds.antt =====
-- src/router.rs: what one round of the loop comes to.
use bitcoin_adaptor.Base.{
  ℕ, ◌+◌, ◌^◌, ◌≤◌, ◌≡◌, refl, ◌⊎◌, inl, inr, true, none, some, List, [], Bool-cases,
}
use bitcoin_adaptor.Base.Linked.{LinkedHashMap, LinkedHashSet}
use bitcoin_adaptor.Bitcoin.{hash_eq, BlockHash, SocketAddr, BitcoinLib}
use bitcoin_adaptor.Adapter.{AdapterState, enqueue_new_blocks_to_download, prune_blocks, is_idle}
use bitcoin_adaptor.AddressBook.{Environment}
use bitcoin_adaptor.BlockchainState as State
use bitcoin_adaptor.ConnectionManager as Connections
use bitcoin_adaptor.ConnectionManager.Manage.Reconnect.{tick-returns}
use bitcoin_adaptor.ConnectionManager.Reaping.{make_idle-none}
use bitcoin_adaptor.BlockchainManager as Blocks
use bitcoin_adaptor.BlockchainManager.{GetDataRequestInfo}
use bitcoin_adaptor.BlockchainManager.Pruning.{manager_prune_lem}
use bitcoin_adaptor.TransactionManager as Transactions
use bitcoin_adaptor.TransactionManager.{TransactionInfo}
use bitcoin_adaptor.Router.{
  Router, Event, stream_event, network_message, blockchain_request, send_transaction, ticked,
  make_idle, after_tick, tick, handle, round,
}

module _ (btc : BitcoinLib) (env : Environment)
    (transaction_map : LinkedHashMap TransactionInfo hash_eq)
    (request_map : LinkedHashMap GetDataRequestInfo hash_eq)
    (hash_set : LinkedHashSet hash_eq) where
  -- A request to prune at an anchor of the last height.
  abbrev pub IsOverflow : Event → Router → Type 0
  IsOverflow event r =
      (anchor : BlockHash) × (processed : List BlockHash) × (event
        ≡ blockchain_request (prune_blocks anchor processed))
      × (2 ^ 32 ≤ State.height_of r.blockchain_manager.blockchain anchor + 1)

  handle-returns :
      (now : ℕ) (event : Event) (r : Router)
      → ((r' : Router) × (handle btc env transaction_map request_map hash_set now event r
            ≡ some r'))
        ⊎ IsOverflow event r
  unfolding handle tick
  handle-returns now (stream_event a kind) r = inl (_, refl)
  handle-returns now (network_message a message) r = inl (_, refl)
  handle-returns now (blockchain_request (enqueue_new_blocks_to_download headers)) r = inl (_, refl)
  handle-returns now (blockchain_request (prune_blocks anchor processed)) r =
      elim (manager_prune_lem anchor processed r.blockchain_manager) [
        | inl (le, q) ↦ inr (anchor, processed, refl, le)
        | inr (_, (b, q, _, _)) ↦ inl (record r { blockchain_manager = b }, rw (handle, q) refl)
      ]
  handle-returns now (send_transaction raw_tx) r = inl (_, refl)
  handle-returns now ticked r =
      let height = (State.get_active_chain_tip r.blockchain_manager.blockchain).height in
      let (c1, q) = tick-returns env now height r.connection_manager in
      inl (
        after_tick btc env transaction_map request_map hash_set now r c1,
        rw (handle, tick, q) refl,
      )

  -- Every round ends and leaves a router, but for one that is to prune at an anchor whose height is
  -- the last `u32`.
  pub round-returns :
      (now : ℕ) (adapter_state : AdapterState) (event : Event) (r : Router)
      → ((r' : Router) × (round btc env transaction_map request_map hash_set now adapter_state event
              r
            ≡ some r'))
        ⊎ IsOverflow event r
  unfolding round
  round-returns now adapter_state event r = elim (Bool-cases (is_idle now adapter_state)) [
    | inl q ↦ inl (make_idle btc env transaction_map request_map hash_set now r, rw (round, q) refl)
    | inr q ↦ elim (handle-returns now event r) [
      | inl (r', e) ↦ inl (r', rw (round, q) e)
      | inr o ↦ inr o
    ]
  ]

  -- A round of the idle adapter handles no event. It leaves no connection, no cached block, nothing
  -- to download or requested, no peer and no transaction; the headers, the tips and the requests for
  -- headers stay.
  pub idle_round :
      (now : ℕ) (adapter_state : AdapterState) (event : Event) (r : Router)
      → is_idle now adapter_state ≡ true
      → (r' : Router) × (round btc env transaction_map request_map hash_set now adapter_state event
            r
          ≡ some r')
        × ((a : SocketAddr) → Connections.get_connection r'.connection_manager a ≡ none)
        × (r'.blockchain_manager.blockchain.block_cache ≡ [])
        × (r'.blockchain_manager.block_sync_queue ≡ [])
        × (r'.blockchain_manager.getdata_request_info ≡ [])
        × (r'.blockchain_manager.peer_info ≡ [])
        × (r'.transaction_manager.transactions ≡ [])
        × (r'.blockchain_manager.blockchain.header_cache
            ≡ r.blockchain_manager.blockchain.header_cache)
        × (r'.blockchain_manager.blockchain.tips ≡ r.blockchain_manager.blockchain.tips)
        × (r'.blockchain_manager.getheaders_requests ≡ r.blockchain_manager.getheaders_requests)
  unfolding round make_idle Blocks.make_idle Transactions.make_idle
  idle_round now adapter_state event r q = (
    make_idle btc env transaction_map request_map hash_set now r,
    rw (round, q) refl,
    λ a. make_idle-none now r.connection_manager a,
    refl,
    refl,
    refl,
    refl,
    refl,
    refl,
    refl,
    refl,
  )
