-- ===== src/Router/Invariant.antt =====
-- src/router.rs: the components together. What holds of each holds in every state that the rounds of
-- the loop reach, whatever the events and their order.
use bitcoin_adaptor.Base.{
  ℕ, ◌≤◌, ◌≡◌, inl, inr, some, Bool-cases, Option-cases, arith, length, Result, ok, err,
}
use bitcoin_adaptor.Base.Linked.{LinkedHashMap, LinkedHashSet}
use bitcoin_adaptor.Bitcoin.{hash_eq, SocketAddr, NetworkMessage, BitcoinLib}
use bitcoin_adaptor.Adapter.{
  AdapterState, Command, enqueue_new_blocks_to_download, prune_blocks, ProcessError, is_idle,
}
use bitcoin_adaptor.Adapter.Channels.{IsKept, IsAny}
use bitcoin_adaptor.AddressBook.{Environment}
use bitcoin_adaptor.Config.{Config}
use bitcoin_adaptor.BlockchainState as State
use bitcoin_adaptor.BlockchainState.Valid.{IsValid}
use bitcoin_adaptor.BlockchainState.History.{new-IsValid}
use bitcoin_adaptor.Connection
use bitcoin_adaptor.ConnectionManager.{ConnectionManager}
use bitcoin_adaptor.ConnectionManager.Manage
use bitcoin_adaptor.ConnectionManager.Messages
use bitcoin_adaptor.ConnectionManager.Invariant.{
  IsSound, new-IsSound, discard-IsSound, close-IsSound, send-IsSound,
}
use bitcoin_adaptor.ConnectionManager.Invariant.Messages as SoundMessages
use bitcoin_adaptor.ConnectionManager.Invariant.Ticks as SoundTicks
use bitcoin_adaptor.BlockchainManager as Blocks
use bitcoin_adaptor.BlockchainManager.{GetDataRequestInfo}
use bitcoin_adaptor.BlockchainManager.Sync
use bitcoin_adaptor.BlockchainManager.Effects as BlockEffects
use bitcoin_adaptor.BlockchainManager.Effects.Ticks as TickEffects
use bitcoin_adaptor.BlockchainManager.Effects.{IsRequest}
use bitcoin_adaptor.BlockchainManager.Messages as BlockMessages
use bitcoin_adaptor.BlockchainManager.Pruning.{
  prune_blocks-blockchain, pruned-IsValid, make_idle-IsValid,
}
use bitcoin_adaptor.BlockchainManager.Selection.{enqueue_rest}
use bitcoin_adaptor.BlockchainManager.Ticks.{tick-blockchain}
use bitcoin_adaptor.TransactionManager as Transactions
use bitcoin_adaptor.TransactionManager.{TransactionInfo, tx_cache_size}
use bitcoin_adaptor.TransactionManager.Cache.{send_transaction-IsBounded, tick-IsBounded}
use bitcoin_adaptor.TransactionManager.Effects as TransactionEffects
use bitcoin_adaptor.Router.{
  Router, Event, stream_event, network_message, blockchain_request, send_transaction, ticked,
  connection_channel, discard_if, close_stream, start_router, after_tick, make_idle, dispatch, tick,
  handle, round,
}

connection_channel-IsKept :
    (Q : Command → Type 0) (now : ℕ) → IsKept (connection_channel now) Q IsSound
connection_channel-IsKept Q now = record {
  sent = λ k q m s. send-IsSound now k m s;
  discarded = λ a m s. discard-IsSound now a m s;
}

discard_if-IsSound :
    {A : Type 0} (now : ℕ) (a : SocketAddr) (r : Result A ProcessError) (m : ConnectionManager)
    → IsSound m
    → IsSound (discard_if now a r m)
discard_if-IsSound now a (ok x) m s = s
discard_if-IsSound now a (err e) m s = discard-IsSound now a m s

module _ (btc : BitcoinLib) where
  -- The connections, the blockchain state and the transaction cache are each as they should be.
  pub record IsRunning (r : Router) : Type 0 where
    pub connected : IsSound r.connection_manager
    pub valid : IsValid btc r.blockchain_manager.blockchain
    pub cached : length r.transaction_manager.transactions ≤ tx_cache_size

  pub start-IsRunning :
      (config : Config) (rng : ℕ)
      → IsRunning (start_router config rng (State.new btc config.network))
  unfolding start_router
  start-IsRunning config rng = record {
    connected = new-IsSound config rng;
    valid = new-IsValid btc config.network;
    cached = omega arith;
  }

  pub close-IsRunning : (a : SocketAddr) (r : Router) → IsRunning r → IsRunning (close_stream a r)
  unfolding close_stream Connection.close
  close-IsRunning a r h = record {
    connected = close-IsSound a r.connection_manager h.connected;
    valid = h.valid;
    cached = h.cached;
  }

module _ (btc : BitcoinLib) (env : Environment)
    (transaction_map : LinkedHashMap TransactionInfo hash_eq)
    (request_map : LinkedHashMap GetDataRequestInfo hash_eq)
    (hash_set : LinkedHashSet hash_eq) where
  pub idle-IsRunning :
      (now : ℕ) (r : Router)
      → IsRunning btc r
      → IsRunning btc (make_idle btc env transaction_map request_map hash_set now r)
  unfolding make_idle Transactions.make_idle
  idle-IsRunning now r h = record {
    connected = SoundTicks.make_idle-IsSound now r.connection_manager h.connected;
    valid = make_idle-IsValid btc r.blockchain_manager h.valid;
    cached = omega arith;
  }

  dispatch-IsRunning :
      (now : ℕ) (a : SocketAddr) (message : NetworkMessage) (r : Router)
      → IsRunning btc r
      → IsRunning btc (dispatch btc env transaction_map request_map hash_set now a message r)
  unfolding dispatch
  dispatch-IsRunning now a message r h =
      let channel = connection_channel now in
      let step1 = Messages.process_bitcoin_network_message btc now a message r.connection_manager in
      let c2 = discard_if now a step1.1 step1.0 in
      let s2 = discard_if-IsSound now a step1.1 step1.0 (
        SoundMessages.process_message-IsSound btc now a message r.connection_manager h.connected) in
      let step2 =
        Blocks.process_bitcoin_network_message btc channel now a message r.blockchain_manager c2 in
      let c4 = discard_if now a step2.2 step2.1 in
      let s4 = discard_if-IsSound now a step2.2 step2.1 (
        BlockEffects.process_message_keeps btc channel IsSound
          (connection_channel-IsKept IsRequest now) now a message r.blockchain_manager c2 s2) in
      let step3 =
        Transactions.process_bitcoin_network_message channel a message r.transaction_manager c4 in
      let unchanged =
        TransactionEffects.process_message_same channel a message r.transaction_manager c4 in
      record {
        connected = discard_if-IsSound now a step3.2 step3.1 (
            TransactionEffects.process_message_keeps channel IsSound
              (connection_channel-IsKept IsAny now) a message r.transaction_manager c4 s4);
        valid =
            BlockMessages.process_message-IsValid btc channel now a message r.blockchain_manager c2
              h.valid;
        cached = rw unchanged h.cached;
      }

  after_tick-IsRunning :
      (now : ℕ) (r : Router) (c1 : ConnectionManager)
      → IsRunning btc r
      → IsSound c1
      → IsRunning btc (after_tick btc env transaction_map request_map hash_set now r c1)
  after_tick-IsRunning now r c1 h s1 =
      let channel = connection_channel now in
      let step2 = Sync.tick request_map hash_set channel btc now r.blockchain_manager c1 in
      let s2 =
        TickEffects.tick_keeps btc channel IsSound (connection_channel-IsKept IsRequest now)
          request_map hash_set now r.blockchain_manager c1 s1 in
      record {
        connected =
            TransactionEffects.tick_keeps channel IsSound (connection_channel-IsKept IsAny now) now
              r.transaction_manager step2.1 s2;
        valid =
            rw (tick-blockchain request_map hash_set channel btc now r.blockchain_manager c1)
              h.valid;
        cached = tick-IsBounded channel now r.transaction_manager step2.1 h.cached;
      }

  tick-IsRunning :
      (now : ℕ) (r r' : Router)
      → IsRunning btc r
      → tick btc env transaction_map request_map hash_set now r ≡ some r'
      → IsRunning btc r'
  unfolding tick
  tick-IsRunning now r r' h e =
      let height = (State.get_active_chain_tip r.blockchain_manager.blockchain).height in
      elim (Option-cases (Manage.tick env now height r.connection_manager)) [
        | inl q ↦ absurd (ground (arith, rw (tick, q) at e))
        | inr (c1, q) ↦
            let ticked_router = after_tick btc env transaction_map request_map hash_set now r c1 in
            let e' : ticked_router ≡ r' = ground (arith, rw (tick, q) at e) in
            rw (← e') (
              after_tick-IsRunning now r c1 h
                (SoundTicks.tick-IsSound env now height r.connection_manager c1 h.connected q))
      ]

  pub handle-IsRunning :
      (now : ℕ) (event : Event) (r r' : Router)
      → IsRunning btc r
      → handle btc env transaction_map request_map hash_set now event r ≡ some r'
      → IsRunning btc r'
  unfolding handle
  handle-IsRunning now (stream_event a kind) r r' h e =
      let c = Messages.process_event btc env now a kind r.connection_manager in
      let e' : record r { connection_manager = c } ≡ r' = ground arith in
      rw (← e') (record {
        connected =
            SoundMessages.process_event-IsSound btc env now a kind r.connection_manager h.connected;
        valid = h.valid;
        cached = h.cached;
      })
  handle-IsRunning now (network_message a message) r r' h e =
      let e' : dispatch btc env transaction_map request_map hash_set now a message r ≡ r' =
        ground arith in
      rw (← e') (dispatch-IsRunning now a message r h)
  handle-IsRunning now (blockchain_request (enqueue_new_blocks_to_download headers)) r r' h e =
      let b =
        Sync.enqueue_new_blocks_to_download request_map hash_set btc headers r.blockchain_manager in
      let e' : record r { blockchain_manager = b } ≡ r' = ground arith in
      rw (← e') (record {
        connected = h.connected;
        valid = rw (enqueue_rest request_map hash_set btc headers r.blockchain_manager).0 h.valid;
        cached = h.cached;
      })
  handle-IsRunning now (blockchain_request (prune_blocks anchor processed)) r r' h e =
      elim (Option-cases (Sync.prune_blocks anchor processed r.blockchain_manager)) [
        | inl q ↦ absurd (ground (arith, rw (handle, q) at e))
        | inr (b, q) ↦
            let e' : record r { blockchain_manager = b } ≡ r' =
              ground (arith, rw (handle, q) at e) in
            rw (← e') (record {
              connected = h.connected;
              valid =
                  rw (prune_blocks-blockchain anchor processed r.blockchain_manager b q)
                    (pruned-IsValid btc anchor processed r.blockchain_manager.blockchain h.valid);
              cached = h.cached;
            })
      ]
  handle-IsRunning now (send_transaction raw_tx) r r' h e =
      let t = Transactions.send_transaction btc transaction_map now raw_tx r.transaction_manager in
      let e' : record r { transaction_manager = t } ≡ r' = ground arith in
      rw (← e') (record {
        connected = h.connected;
        valid = h.valid;
        cached =
            send_transaction-IsBounded btc transaction_map now raw_tx r.transaction_manager
              h.cached;
      })
  handle-IsRunning now ticked r r' h e = tick-IsRunning now r r' h e

module _ (btc : BitcoinLib) (transaction_map : LinkedHashMap TransactionInfo hash_eq)
    (request_map : LinkedHashMap GetDataRequestInfo hash_eq)
    (hash_set : LinkedHashSet hash_eq) where
  -- The rounds of the loop, from a new router, at each of which the environment, the clock, the idle
  -- state and the event are arbitrary; between them the stream's task of any connection may end.
  pub data Reach (config : Config) (rng : ℕ) : Router → Type 0 where
    begin : Reach config rng (start_router config rng (State.new btc config.network))
    next :
        {r r' : Router} (env : Environment) (now : ℕ) (adapter_state : AdapterState) (event : Event)
        → Reach config rng r
        → round btc env transaction_map request_map hash_set now adapter_state event r ≡ some r'
        → Reach config rng r'
    closed :
        {r : Router} (a : SocketAddr) → Reach config rng r → Reach config rng (close_stream a r)

  -- In every state that the loop reaches from its start, the headers are a tree with its leaves as
  -- tips and a header for every cached block; no more than `tx_cache_size` transactions are cached;
  -- every connection stands under its address; no active address is a known one; and there are at
  -- most `max_connections_during_address_discovery` connections while addresses are discovered, and
  -- afterwards at most as many as that or as `max_connections`.
  pub Reach-IsRunning :
      (config : Config) (rng : ℕ) (r : Router) → Reach config rng r → IsRunning btc r
  unfolding round
  Reach-IsRunning config rng r begin = start-IsRunning btc config rng
  Reach-IsRunning config rng r (closed {r = r0} a reached) =
      close-IsRunning btc a r0 (Reach-IsRunning config rng r0 reached)
  Reach-IsRunning config rng r (next {r = r0} env now adapter_state event reached e) =
      let h = Reach-IsRunning config rng r0 reached in
      elim (Bool-cases (is_idle now adapter_state)) [
        | inl q ↦
            let e' : make_idle btc env transaction_map request_map hash_set now r0 ≡ r =
              ground (arith, rw (round, q) at e) in
            rw (← e') (idle-IsRunning btc env transaction_map request_map hash_set now r0 h)
        | inr q ↦
            handle-IsRunning btc env transaction_map request_map hash_set now event r0 r h
              (rw (round, q) at e)
      ]
