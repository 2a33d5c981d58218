-- ===== src/Main.antt =====
-- src/main.rs: what `main` makes, and how it is connected: the calls of the gRPC server and the turns
-- of the router's loop share the blockchain state and the idle state, and meet in two channels. The
-- tasks take turns in any order; a call and a turn each run to their end.
pub mod Requests
pub mod Invariant
pub mod Submission
pub mod Download
mod Tests
use bitcoin_adaptor.Base.{
  ℕ, Option, none, some, List, [], ◌∷◌, ◌++◌, ltb, if◌then◌else◌, Result, ok, err, length,
}
use bitcoin_adaptor.Base.Linked.{LinkedHashMap, LinkedHashSet}
use bitcoin_adaptor.Bitcoin.{hash_eq, Network, SocketAddr, NetworkMessage, BitcoinLib}
use bitcoin_adaptor.Adapter as Adapter
use bitcoin_adaptor.Adapter.{AdapterState, BlockchainManagerRequest, is_idle}
use bitcoin_adaptor.AddressBook.{Environment}
use bitcoin_adaptor.Config.{Config}
use bitcoin_adaptor.Cli.{Parsers, get_config}
use bitcoin_adaptor.Stream.{StreamEventKind}
use bitcoin_adaptor.BlockchainState as State
use bitcoin_adaptor.BlockchainManager.{GetDataRequestInfo}
use bitcoin_adaptor.TransactionManager.{TransactionInfo}
use bitcoin_adaptor.Rpc as Rpc
use bitcoin_adaptor.Rpc.{
  Codec, RpcStatus, BtcServiceGetSuccessorsRequest, BtcServiceGetSuccessorsResponse,
}
use bitcoin_adaptor.Router.{
  Router, Event, stream_event, network_message, blockchain_request, send_transaction, ticked,
  start_router, make_idle, handle,
}

-- `channel(10)`
abbrev pub channel_capacity : ℕ
channel_capacity = 10

-- What the tasks share. A channel is the list of what was sent and not yet received, oldest first.
-- `send` waits for room in order of arrival, so that what waits stands behind what is in the
-- channel's buffer; `try_send` fails if there is no room.
pub record Adaptor : Type 0 where
  pub network : Network
  pub adapter_state : AdapterState
  pub router : Router
  pub blockchain_manager_rx : List BlockchainManagerRequest
  pub transaction_manager_rx : List (List ℕ)

abbrev pub try_send :
    BlockchainManagerRequest → List BlockchainManagerRequest → List BlockchainManagerRequest
try_send request rx = if ltb (length rx) channel_capacity then rx ++ request ∷ [] else rx

-- The handler tries to send each of its requests.
abbrev pub try_send_each :
    List BlockchainManagerRequest → List BlockchainManagerRequest → List BlockchainManagerRequest
try_send_each [] rx = rx
try_send_each (request ∷ requests) rx = try_send_each requests (try_send request rx)

-- The branches of `select!`.
pub data Branch : Type 0 where
  receive_stream_event : SocketAddr → StreamEventKind → Branch
  receive_network_message : SocketAddr → NetworkMessage → Branch
  receive_blockchain_request : Branch
  receive_transaction : Branch
  tick_interval : Branch

-- The event of a branch, and the channels without it; `none` if the branch is not ready.
unfoldable pub receive : Branch → Adaptor → Option (Event × Adaptor)
receive (receive_stream_event a kind) s = some (stream_event a kind, s)
receive (receive_network_message a message) s = some (network_message a message, s)
receive receive_blockchain_request s = elim s.blockchain_manager_rx [
  | [] ↦ none
  | request ∷ rest ↦ some (blockchain_request request, record s { blockchain_manager_rx = rest })
]
receive receive_transaction s = elim s.transaction_manager_rx [
  | [] ↦ none
  | raw_tx ∷ rest ↦ some (send_transaction raw_tx, record s { transaction_manager_rx = rest })
]
receive tick_interval s = some (ticked, s)

module _ (btc : BitcoinLib) where
  unfoldable pub start : Config → ℕ → Adaptor
  unfolding start_router
  start config rng = record {
    network = config.network;
    adapter_state = Adapter.new config.idle_seconds;
    router = start_router config rng (State.new btc config.network);
    blockchain_manager_rx = [];
    transaction_manager_rx = [];
  }

  -- `none` is the panic on a configuration that cannot be read.
  unfoldable pub main : Parsers → List ℕ → ℕ → Option Adaptor
  unfolding start
  main parsers path rng = elim (get_config parsers path) [
    | err e ↦ none
    | ok config ↦ some (start config rng)
  ]

  -- A call of `get_successors`: the adaptor after it, and its answer.
  unfoldable pub get_successors :
      Codec
      → ℕ
      → ℕ
      → BtcServiceGetSuccessorsRequest
      → Adaptor
      → Option (Adaptor × Result BtcServiceGetSuccessorsResponse RpcStatus)
  unfolding Rpc.get_successors
  get_successors codec fuel now request s =
      elim (Rpc.get_successors codec btc fuel now s.network s.router.blockchain_manager.blockchain
        s.adapter_state request) [
          | none ↦ none
          | some (adapter_state, answer, requests) ↦ some (
            record s {
              adapter_state = adapter_state;
              blockchain_manager_rx = try_send_each requests s.blockchain_manager_rx;
            },
            answer,
          )
        ]

-- A call of `send_transaction`.
unfoldable pub submit : ℕ → List ℕ → Adaptor → Adaptor
unfolding Rpc.send_transaction
submit now transaction s =
    let (adapter_state, raw_tx) = Rpc.send_transaction now s.adapter_state transaction in
    record s {
      adapter_state = adapter_state;
      transaction_manager_rx = s.transaction_manager_rx ++ raw_tx ∷ [];
    }

module _ (btc : BitcoinLib) (env : Environment)
    (transaction_map : LinkedHashMap TransactionInfo hash_eq)
    (request_map : LinkedHashMap GetDataRequestInfo hash_eq)
    (hash_set : LinkedHashSet hash_eq) where
  -- A turn of the loop: the idle adaptor receives nothing, and a branch that is not ready waits.
  unfoldable pub turn : ℕ → Branch → Adaptor → Option Adaptor
  unfolding make_idle handle receive
  turn now branch s =
      if is_idle now s.adapter_state
      then some (record s {
        router = make_idle btc env transaction_map request_map hash_set now s.router;
      })
      else elim (receive branch s) [
        | none ↦ some s
        | some (event, s') ↦
            elim (handle btc env transaction_map request_map hash_set now event s'.router) [
              | none ↦ none
              | some r ↦ some (record s' { router = r })
            ]
      ]
