-- ===== src/Router/Limits.antt =====
-- src/router.rs: in every state that the loop reaches, the open requests for blocks are within the
-- limit for each peer.
use bitcoin_adaptor.Base.{ℕ, ◌≡◌, inl, inr, some, Bool-cases, Option-cases, arith}
use bitcoin_adaptor.Base.Linked.{LinkedHashMap, LinkedHashSet}
use bitcoin_adaptor.Bitcoin.{hash_eq, SocketAddr, NetworkMessage, BitcoinLib}
use bitcoin_adaptor.Adapter.{enqueue_new_blocks_to_download, prune_blocks, is_idle}
use bitcoin_adaptor.AddressBook.{Environment}
use bitcoin_adaptor.Config.{Config}
use bitcoin_adaptor.BlockchainState as State
use bitcoin_adaptor.ConnectionManager.Manage
use bitcoin_adaptor.ConnectionManager.Messages
use bitcoin_adaptor.BlockchainManager.{GetDataRequestInfo}
use bitcoin_adaptor.BlockchainManager.Sync
use bitcoin_adaptor.BlockchainManager.Limits.{IsManaged, IsLimited}
use bitcoin_adaptor.BlockchainManager.Limits.Messages as LimitedMessages
use bitcoin_adaptor.BlockchainManager.Limits.Ticks as LimitedTicks
use bitcoin_adaptor.TransactionManager.{TransactionInfo}
use bitcoin_adaptor.Router.{
  Router, Event, stream_event, network_message, blockchain_request, send_transaction, ticked,
  connection_channel, discard_if, close_stream, start_router, after_tick, make_idle, dispatch, tick,
  handle, round,
}
use bitcoin_adaptor.Router.Invariant.{Reach, begin, next, closed}

module _ (btc : BitcoinLib) (env : Environment)
    (transaction_map : LinkedHashMap TransactionInfo hash_eq)
    (request_map : LinkedHashMap GetDataRequestInfo hash_eq)
    (hash_set : LinkedHashSet hash_eq) where
  dispatch-IsManaged :
      (now : ℕ) (a : SocketAddr) (message : NetworkMessage) (r : Router)
      → IsManaged r.blockchain_manager
      → IsManaged
          (dispatch btc env transaction_map request_map hash_set now a message r).blockchain_manager
  unfolding dispatch
  dispatch-IsManaged now a message r v =
      let step1 = Messages.process_bitcoin_network_message btc now a message r.connection_manager in
      LimitedMessages.process_message-IsManaged btc (connection_channel now) now a message
        r.blockchain_manager (discard_if now a step1.1 step1.0) v

  handle-IsManaged :
      (now : ℕ) (event : Event) (r r' : Router)
      → IsManaged r.blockchain_manager
      → handle btc env transaction_map request_map hash_set now event r ≡ some r'
      → IsManaged r'.blockchain_manager
  unfolding handle tick
  handle-IsManaged now (stream_event a kind) r r' v e =
      let same : r.blockchain_manager ≡ r'.blockchain_manager = ground arith in rw (← same) v
  handle-IsManaged now (network_message a message) r r' v e =
      let e' : dispatch btc env transaction_map request_map hash_set now a message r ≡ r' =
        ground arith in
      rw (← e') (dispatch-IsManaged now a message r v)
  handle-IsManaged now (blockchain_request (enqueue_new_blocks_to_download headers)) r r' v e =
      let b =
        Sync.enqueue_new_blocks_to_download request_map hash_set btc headers r.blockchain_manager in
      let e' : b ≡ r'.blockchain_manager = ground arith in
      rw (← e')
        (LimitedTicks.enqueue-IsManaged request_map hash_set btc headers r.blockchain_manager v)
  handle-IsManaged now (blockchain_request (prune_blocks anchor processed)) r r' v e =
      elim (Option-cases (Sync.prune_blocks anchor processed r.blockchain_manager)) [
        | inl q ↦ absurd (ground (arith, rw (handle, q) at e))
        | inr (b, q) ↦
            let e' : record r { blockchain_manager = b } ≡ r' =
              ground (arith, rw (handle, q) at e) in
            rw (← e')
              (LimitedTicks.prune_blocks-IsManaged anchor processed r.blockchain_manager b q v)
      ]
  handle-IsManaged now (send_transaction raw_tx) r r' v e =
      let same : r.blockchain_manager ≡ r'.blockchain_manager = ground arith in rw (← same) v
  handle-IsManaged now ticked r r' v e =
      let height = (State.get_active_chain_tip r.blockchain_manager.blockchain).height in
      elim (Option-cases (Manage.tick env now height r.connection_manager)) [
        | inl q ↦ absurd (ground (arith, rw (handle, tick, q) at e))
        | inr (c1, q) ↦
            let e' : after_tick btc env transaction_map request_map hash_set now r c1 ≡ r' =
              ground (arith, rw (handle, tick, q) at e) in
            rw (← e') (
              LimitedTicks.tick-IsManaged request_map hash_set btc (connection_channel now) now
                r.blockchain_manager c1 v)
      ]

module _ (btc : BitcoinLib) (transaction_map : LinkedHashMap TransactionInfo hash_eq)
    (request_map : LinkedHashMap GetDataRequestInfo hash_eq)
    (hash_set : LinkedHashSet hash_eq) where
  Reach-IsManaged :
      (config : Config) (rng : ℕ) (r : Router)
      → Reach btc transaction_map request_map hash_set config rng r
      → IsManaged r.blockchain_manager
  unfolding round close_stream start_router make_idle
  Reach-IsManaged config rng r begin = record { keyed = tt; limited = λ a. omega arith }
  Reach-IsManaged config rng r (closed {r = r0} a reached) = Reach-IsManaged config rng r0 reached
  Reach-IsManaged config rng r (next {r = r0} env now adapter_state event reached e) =
      elim (Bool-cases (is_idle now adapter_state)) [
        | inl q ↦
            let e' : make_idle btc env transaction_map request_map hash_set now r0 ≡ r =
              ground (arith, rw (round, q) at e) in
            rw (← e') (LimitedMessages.new_or_idle-IsManaged r0.blockchain_manager)
        | inr q ↦
            handle-IsManaged btc env transaction_map request_map hash_set now event r0 r
              (Reach-IsManaged config rng r0 reached) (rw (round, q) at e)
      ]

  -- In every state that the loop reaches from its start, at most `inv_per_get_data_request` requests
  -- for blocks are open with one address, whatever peers came and went.
  pub Reach-IsLimited :
      (config : Config) (rng : ℕ) (r : Router)
      → Reach btc transaction_map request_map hash_set config rng r
      → IsLimited r.blockchain_manager.getdata_request_info
  Reach-IsLimited config rng r reached = (Reach-IsManaged config rng r reached).limited
