-- ===== src/Router.antt =====
-- src/router.rs: one round of the loop that dispatches an event to the components. The connection
-- manager is the channel of the other two.
pub mod Invariant
pub mod Rounds
pub mod Rejection
pub mod Limits
pub mod Known
pub mod Isolation
mod Tests
mod LimitTests
use bitcoin_adaptor.Base.{ℕ, Option, none, some, List, Result, ok, err, if◌then◌else◌}
use bitcoin_adaptor.Base.Linked.{LinkedHashMap, LinkedHashSet}
use bitcoin_adaptor.Bitcoin.{hash_eq, SocketAddr, NetworkMessage, BitcoinLib}
use bitcoin_adaptor.Adapter.{
  AdapterState, Channel, BlockchainManagerRequest, enqueue_new_blocks_to_download, prune_blocks,
  ProcessError, is_idle,
}
use bitcoin_adaptor.AddressBook.{Environment}
use bitcoin_adaptor.Config.{Config}
use bitcoin_adaptor.Connection
use bitcoin_adaptor.Stream.{StreamEventKind}
use bitcoin_adaptor.BlockchainState as State
use bitcoin_adaptor.BlockchainState.{BlockchainState}
use bitcoin_adaptor.ConnectionManager as Connections
use bitcoin_adaptor.ConnectionManager.{ConnectionManager}
use bitcoin_adaptor.ConnectionManager.Manage
use bitcoin_adaptor.ConnectionManager.Messages
use bitcoin_adaptor.BlockchainManager as Blocks
use bitcoin_adaptor.BlockchainManager.{BlockchainManager, GetDataRequestInfo}
use bitcoin_adaptor.BlockchainManager.Sync
use bitcoin_adaptor.TransactionManager as Transactions
use bitcoin_adaptor.TransactionManager.{TransactionManager, TransactionInfo}

pub record Router : Type 0 where
  pub connection_manager : ConnectionManager
  pub blockchain_manager : BlockchainManager
  pub transaction_manager : TransactionManager

-- What `start_router` makes before its loop, over the blockchain state that `main` makes.
unfoldable pub start_router : Config → ℕ → BlockchainState → Router
unfolding Connections.new
start_router config rng blockchain = record {
  connection_manager = Connections.new config rng;
  blockchain_manager = Blocks.new blockchain;
  transaction_manager = Transactions.new;
}

-- The end of the stream's task of one connection, which runs beside the loop.
unfoldable pub close_stream : SocketAddr → Router → Router
unfolding Connection.close
close_stream a r = record r {
  connection_manager = Connections.update_connection a Connection.close r.connection_manager;
}

-- What `select!` may find ready.
pub data Event : Type 0 where
  stream_event : SocketAddr → StreamEventKind → Event
  network_message : SocketAddr → NetworkMessage → Event
  blockchain_request : BlockchainManagerRequest → Event
  send_transaction : List ℕ → Event
  ticked : Event

-- `impl Channel for ConnectionManager`
abbrev pub connection_channel : ℕ → Channel ConnectionManager
connection_channel now = record {
  send = Connections.send now;
  available_connections = Connections.available_connections;
  discard = Connections.discard now;
}

abbrev pub discard_if :
    {A : Type 0} → ℕ → SocketAddr → Result A ProcessError → ConnectionManager → ConnectionManager
discard_if now a (ok x) m = m
discard_if now a (err e) m = Connections.discard now a m

module _ (btc : BitcoinLib) (env : Environment)
    (transaction_map : LinkedHashMap TransactionInfo hash_eq)
    (request_map : LinkedHashMap GetDataRequestInfo hash_eq)
    (hash_set : LinkedHashSet hash_eq) where
  unfoldable pub make_idle : ℕ → Router → Router
  unfolding Connections.make_idle Blocks.make_idle Transactions.make_idle
  make_idle now r = record {
    connection_manager = Connections.make_idle now r.connection_manager;
    blockchain_manager = Blocks.make_idle r.blockchain_manager;
    transaction_manager = Transactions.make_idle r.transaction_manager;
  }

  -- A message goes to all components in turn, and each may have the sender discarded.
  unfoldable pub dispatch : ℕ → SocketAddr → NetworkMessage → Router → Router
  unfolding Messages.process_bitcoin_network_message Blocks.process_bitcoin_network_message
      Transactions.process_bitcoin_network_message
  dispatch now a message r =
      let channel = connection_channel now in
      let (c1, r1) =
        Messages.process_bitcoin_network_message btc now a message r.connection_manager in
      let c2 = discard_if now a r1 c1 in
      let (b, c3, r2) =
        Blocks.process_bitcoin_network_message btc channel now a message r.blockchain_manager c2 in
      let c4 = discard_if now a r2 c3 in
      let (t, c5, r3) =
        Transactions.process_bitcoin_network_message channel a message r.transaction_manager c4 in
      record {
        connection_manager = discard_if now a r3 c5;
        blockchain_manager = b;
        transaction_manager = t;
      }

  -- The managers' part of a tick, with the connections after theirs.
  abbrev pub after_tick : ℕ → Router → ConnectionManager → Router
  after_tick now r c1 =
      let channel = connection_channel now in
      let (b, c2) = Sync.tick request_map hash_set channel btc now r.blockchain_manager c1 in
      let (t, c3) = Transactions.tick channel now r.transaction_manager c2 in
      record { connection_manager = c3; blockchain_manager = b; transaction_manager = t }

  unfoldable pub tick : ℕ → Router → Option Router
  unfolding Manage.tick Sync.tick Transactions.tick
  tick now r =
      let height = (State.get_active_chain_tip r.blockchain_manager.blockchain).height in
      elim (Manage.tick env now height r.connection_manager) [
        | none ↦ none
        | some c1 ↦ some (after_tick now r c1)
      ]

  -- `none` is a panic, or the end of a loop's fuel.
  unfoldable pub handle : ℕ → Event → Router → Option Router
  unfolding dispatch tick Messages.process_event Sync.enqueue_new_blocks_to_download
      Sync.prune_blocks Transactions.send_transaction
  handle now (stream_event a kind) r = some (record r {
    connection_manager = Messages.process_event btc env now a kind r.connection_manager;
  })
  handle now (network_message a message) r = some (dispatch now a message r)
  handle now (blockchain_request (enqueue_new_blocks_to_download headers)) r = some (record r {
    blockchain_manager =
        Sync.enqueue_new_blocks_to_download request_map hash_set btc headers r.blockchain_manager;
  })
  handle now (blockchain_request (prune_blocks anchor processed)) r =
      elim (Sync.prune_blocks anchor processed r.blockchain_manager) [
        | none ↦ none
        | some b ↦ some (record r { blockchain_manager = b })
      ]
  handle now (send_transaction raw_tx) r = some (record r {
    transaction_manager =
        Transactions.send_transaction btc transaction_map now raw_tx r.transaction_manager;
  })
  handle now ticked r = tick now r

  -- One round: the idle adaptor drops everything and handles no event.
  unfoldable pub round : ℕ → AdapterState → Event → Router → Option Router
  unfolding make_idle handle
  round now adapter_state event r =
      if is_idle now adapter_state then some (make_idle now r) else handle now event r
