-- ===== src/Router/Tests.antt =====
-- Tests of the router.
use bitcoin_adaptor.Base.{◌≡◌, ◌⊎◌, refl, inl, true, none, some, [], ◌∷◌, err, ℕ_discrete, arith}
use bitcoin_adaptor.Base.Linked.{linked_map, linked_set}
use bitcoin_adaptor.Bitcoin.{hash_eq, regtest, SocketAddr, NetworkMessage, verack}
use bitcoin_adaptor.Samples.{lib, env, config, peer}
use bitcoin_adaptor.Adapter as Adapter
use bitcoin_adaptor.Adapter.{AdapterState, ProcessError, invalid_message, is_idle}
use bitcoin_adaptor.AddressBook.{discovered}
use bitcoin_adaptor.BlockchainState as State
use bitcoin_adaptor.Connection
use bitcoin_adaptor.ConnectionManager as Connections
use bitcoin_adaptor.ConnectionManager.Messages
use bitcoin_adaptor.ConnectionManager.Departure.{IsGone}
use bitcoin_adaptor.Router.{Router, network_message, ticked, start_router, dispatch, handle, round}
use bitcoin_adaptor.Router.Invariant.{IsRunning, begin, next, Reach-IsRunning}
use bitcoin_adaptor.Router.Rounds.{IsOverflow, round-returns, idle_round}
use bitcoin_adaptor.Router.Rejection.{dispatch-IsGone}
use bitcoin_adaptor.Router.Isolation.{IsFrom, handle-other}

abbrev first_router : Router
first_router = start_router config 0 (State.new lib regtest)

abbrev awake : AdapterState
awake = record { last_received_at = some 0; idle_seconds = 60 }

abbrev after_verack : Router
after_verack =
    dispatch lib env (linked_map hash_eq) (linked_map hash_eq) (linked_set hash_eq) 5 (peer 1)
      verack first_router

one_round :
    round lib env
      (linked_map hash_eq)
      (linked_map hash_eq)
      (linked_set hash_eq)
      5
      awake
      (network_message (peer 1) verack)
      first_router
    ≡ some after_verack
unfolding round handle is_idle
one_round = refl

Reach-IsRunning_example : IsRunning lib after_verack
Reach-IsRunning_example =
    Reach-IsRunning lib (linked_map hash_eq) (linked_map hash_eq) (linked_set hash_eq) config 0
      after_verack (next env 5 awake (network_message (peer 1) verack) begin one_round)

round-returns_example :
    ((r' : Router) × (round lib env
          (linked_map hash_eq)
          (linked_map hash_eq)
          (linked_set hash_eq)
          5
          awake
          ticked
          first_router
        ≡ some r'))
    ⊎ IsOverflow lib env
        (linked_map hash_eq)
        (linked_map hash_eq)
        (linked_set hash_eq)
        ticked
        first_router
round-returns_example =
    round-returns lib env (linked_map hash_eq) (linked_map hash_eq) (linked_set hash_eq) 5 awake
      ticked first_router

asleep : is_idle 5 (Adapter.new 60) ≡ true
unfolding is_idle
asleep = refl

idle_round_example :
    (r' : Router) × (round lib env
        (linked_map hash_eq)
        (linked_map hash_eq)
        (linked_set hash_eq)
        5
        (Adapter.new 60)
        ticked
        after_verack
      ≡ some r')
    × ((a : SocketAddr) → Connections.get_connection r'.connection_manager a ≡ none)
    × (r'.blockchain_manager.blockchain.block_cache ≡ [])
    × (r'.blockchain_manager.block_sync_queue ≡ [])
    × (r'.blockchain_manager.getdata_request_info ≡ [])
    × (r'.blockchain_manager.peer_info ≡ [])
    × (r'.transaction_manager.transactions ≡ [])
    × (r'.blockchain_manager.blockchain.header_cache
        ≡ after_verack.blockchain_manager.blockchain.header_cache)
    × (r'.blockchain_manager.blockchain.tips ≡ after_verack.blockchain_manager.blockchain.tips)
    × (r'.blockchain_manager.getheaders_requests
        ≡ after_verack.blockchain_manager.getheaders_requests)
idle_round_example =
    idle_round lib env (linked_map hash_eq) (linked_map hash_eq) (linked_set hash_eq) 5
      (Adapter.new 60) ticked after_verack asleep

-- A peer that offers no service that the adapter needs.
abbrev bad_version : NetworkMessage
bad_version = NetworkMessage.version (record { version = 70001; services = 0; start_height = 0 })

abbrev connected_router : Router
connected_router = record first_router {
  connection_manager = record (Connections.new config 0) {
    connections =
        (peer 1, Connection.set_connected 1 (Connection.new 0 (discovered (peer 1)))) ∷ [];
  };
}

bad_version_refused :
    (Messages.process_bitcoin_network_message lib 5
      (peer 1)
      bad_version
      connected_router.connection_manager).1
    ≡ err invalid_message
unfolding Messages.process_bitcoin_network_message Connection.set_connected Connection.new
    ℕ_discrete
bad_version_refused = ground arith

dispatch-IsGone_example :
    IsGone
      (peer 1)
      (dispatch lib env
        (linked_map hash_eq)
        (linked_map hash_eq)
        (linked_set hash_eq)
        5
        (peer 1)
        bad_version
        connected_router).connection_manager
dispatch-IsGone_example =
    dispatch-IsGone lib env (linked_map hash_eq) (linked_map hash_eq) (linked_set hash_eq) 5
      (peer 1) bad_version connected_router (inl bad_version_refused)

-- The same with a second peer.
abbrev both_connected : Router
both_connected = record connected_router {
  connection_manager = record (connected_router.connection_manager) {
    connections =
        (peer 2, Connection.set_connected 1 (Connection.new 0 (discovered (peer 2))))
        ∷ connected_router.connection_manager.connections;
  };
}

abbrev after_bad_version : Router
after_bad_version =
    dispatch lib env (linked_map hash_eq) (linked_map hash_eq) (linked_set hash_eq) 5 (peer 1)
      bad_version both_connected

bad_version_handled :
    handle lib env
      (linked_map hash_eq)
      (linked_map hash_eq)
      (linked_set hash_eq)
      5
      (network_message (peer 1) bad_version)
      both_connected
    ≡ some after_bad_version
unfolding handle
bad_version_handled = refl

handle-other_example :
    Connections.get_connection after_bad_version.connection_manager (peer 2)
    ≡ Connections.get_connection both_connected.connection_manager (peer 2)
handle-other_example =
    handle-other lib env (linked_map hash_eq) (linked_map hash_eq) (linked_set hash_eq) 5 (peer 1)
      (peer 2) (network_message (peer 1) bad_version) both_connected after_bad_version
      (IsFrom.message_from bad_version) (λ e. cc) bad_version_handled
