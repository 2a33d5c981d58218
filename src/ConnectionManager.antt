-- ===== src/ConnectionManager.antt =====
-- src/connectionmanager.rs. The clock (`now`, nanoseconds) is an argument of each entry point.
pub mod Manage
pub mod Messages
pub mod Reaping
pub mod Departure
pub mod Invariant
mod Tests
use bitcoin_adaptor.Base.{
  ℕ, zero, suc, ◌+◌, ◌-◌, ◌%◌, ◌^◌, ◌≡◌, Bool, true, false, not, ◌&&◌, ◌||◌, Option, none, some,
  List, [], ◌∷◌, ◌++◌, ltb, leb, ◌==◌, if◌then◌else◌, Result, ok, err, length,
}
use bitcoin_adaptor.Base.Map
use bitcoin_adaptor.Bitcoin.{
  SocketAddr, addr_eq, Address, NetworkMessage, VersionMessage, BitcoinLib, minimum_version_number,
}
use bitcoin_adaptor.Adapter.{Command}
use bitcoin_adaptor.AddressBook
use bitcoin_adaptor.AddressBook.{
  AddressBook, AddressEntry, AddressBookError, seed, discovered, Environment, too_many_addresses,
}
use bitcoin_adaptor.Config.{Config}
use bitcoin_adaptor.Connection
use bitcoin_adaptor.Connection.{
  Connection, connected, awaiting_addresses, adapter_discarded, node_disconnected, expecting_pong,
  idle, from_secs,
}

pub data ConnectionManagerError : Type 0 where
  connection_not_found system_time_is_behind : ConnectionManagerError
  address_book_error : AddressBookError → ConnectionManagerError
  already_connected : SocketAddr → ConnectionManagerError

pub record ConnectionManager : Type 0 where
  pub address_book : AddressBook
  pub initial_address_discovery : Bool
  pub max_connections : ℕ
  pub min_connections : ℕ
  pub current_height : ℕ
  pub connections : List (SocketAddr × Connection)
  pub rng : ℕ

abbrev pub max_connections_during_address_discovery : ℕ
max_connections_during_address_discovery = 8

abbrev pub connection_limits : AddressBook → ℕ × ℕ
connection_limits b =
    if AddressBook.has_seeds b then (2, 5) else (AddressBook.size b, AddressBook.size b)

unfoldable pub new : Config → ℕ → ConnectionManager
unfolding AddressBook.new
new config rng =
    let book = AddressBook.new config in
    record {
      address_book = book;
      initial_address_discovery = not (AddressBook.has_enough_addresses book);
      max_connections = (connection_limits book).1;
      min_connections = (connection_limits book).0;
      current_height = 0;
      connections = [];
      rng = rng;
    }

abbrev pub get_connection : ConnectionManager → SocketAddr → Option Connection
get_connection m a = Map.get addr_eq a m.connections

-- `if let Ok(conn) = self.get_connection(addr)` with a change of the connection.
abbrev pub update_connection :
    SocketAddr → (Connection → Connection) → ConnectionManager → ConnectionManager
update_connection a f m = record m { connections = Map.modify addr_eq a f m.connections }

-- `Channel::discard` and `internal_discard`
unfoldable pub discard : ℕ → SocketAddr → ConnectionManager → ConnectionManager
unfolding Connection.discard
discard now a m = update_connection a (Connection.discard now) m

-- The body of `send_to` on the connection: one that cannot be written to is disconnected.
unfoldable pub deliver : ℕ → NetworkMessage → Connection → Connection
unfolding Connection.send Connection.disconnect
deliver now message c =
    let (c', sent) = Connection.send message c in if sent then c' else Connection.disconnect now c'

unfoldable pub send_to :
    ℕ
    → SocketAddr
    → NetworkMessage
    → ConnectionManager
    → ConnectionManager × Result (Unit {0}) ConnectionManagerError
unfolding deliver
send_to now a message m = elim (get_connection m a) [
  | none ↦ (m, err connection_not_found)
  | some c ↦ (update_connection a (deliver now message) m, ok tt)
]

-- `send_to(..).ok()`
unfoldable pub send_to_ok : ℕ → SocketAddr → NetworkMessage → ConnectionManager → ConnectionManager
unfolding send_to
send_to_ok now a message m = (send_to now a message m).0

-- `Channel::available_connections`: complete handshakes with nodes that are no seeds.
abbrev pub is_available_peer : Connection → Bool
is_available_peer c = elim c.address_entry [
  | seed a ↦ false
  | discovered a ↦ Connection.is_available c
]

abbrev pub available_of : List (SocketAddr × Connection) → List SocketAddr
available_of [] = []
available_of ((a, c) ∷ cs) = if is_available_peer c then a ∷ available_of cs else available_of cs

abbrev pub available_connections : ConnectionManager → List SocketAddr
available_connections m = available_of m.connections

abbrev pub has_enough_active_connections : ConnectionManager → Bool
has_enough_active_connections m = leb m.min_connections (length (available_connections m))

unfoldable pub send_each :
    ℕ → NetworkMessage → List SocketAddr → ConnectionManager → ConnectionManager
unfolding send_to_ok
send_each now message [] m = m
send_each now message (a ∷ as') m = send_each now message as' (send_to_ok now a message m)

unfoldable pub send_to_all : ℕ → NetworkMessage → ConnectionManager → ConnectionManager
unfolding send_each
send_to_all now message m =
    if has_enough_active_connections m then send_each now message (available_connections m) m else m

-- `Channel::send`
unfoldable pub send : ℕ → Command → ConnectionManager → ConnectionManager
unfolding send_to_ok send_to_all
send now command m = elim command.address [
  | some a ↦ send_to_ok now a command.message m
  | none ↦ send_to_all now command.message m
]

abbrev pub get_max_number_of_connections : ConnectionManager → ℕ
get_max_number_of_connections m =
    if m.initial_address_discovery
    then max_connections_during_address_discovery
    else m.max_connections

-- `flag_version_handshake_timeouts`, on one connection.
abbrev pub flag_handshake : ℕ → Connection → Connection
flag_handshake now c = elim c.state [
  | connected t ↦ if leb (t + from_secs 5) now then Connection.discard now c else c
  | _ ↦ c
]

unfoldable pub flag_version_handshake_timeouts : ℕ → ConnectionManager → ConnectionManager
unfolding Connection.discard
flag_version_handshake_timeouts now m = record m {
  connections = Map.map_values (flag_handshake now) m.connections;
}

abbrev pub flag_retrieval : ℕ → Connection → Connection
flag_retrieval now c = elim c.address_entry [
  | discovered a ↦ c
  | seed a ↦ elim c.state [
    | awaiting_addresses t ↦ if leb (t + from_secs 5) now then Connection.discard now c else c
    | _ ↦ c
  ]
]

unfoldable pub flag_seed_addr_retrieval_timeouts : ℕ → ConnectionManager → ConnectionManager
unfolding Connection.discard
flag_seed_addr_retrieval_timeouts now m = record m {
  connections = Map.map_values (flag_retrieval now) m.connections;
}

-- The address book's part of `reap_disconnected`.
unfoldable pub release_addresses : List (SocketAddr × Connection) → AddressBook → AddressBook
unfolding AddressBook.discard AddressBook.remove_from_active
release_addresses [] b = b
release_addresses ((a, c) ∷ cs) b = release_addresses cs (elim c.state [
  | adapter_discarded t ↦ AddressBook.discard c.address_entry b
  | node_disconnected t ↦ AddressBook.remove_from_active c.address_entry b
  | _ ↦ b
])

abbrev pub disconnects : List (SocketAddr × Connection) → List SocketAddr
disconnects [] = []
disconnects ((a, c) ∷ cs) =
    if Connection.is_disconnected c then a ∷ disconnects cs else disconnects cs

abbrev pub remove_each :
    List SocketAddr → List (SocketAddr × Connection) → List (SocketAddr × Connection)
remove_each [] cs = cs
remove_each (a ∷ as') cs = remove_each as' (Map.remove addr_eq a cs)

unfoldable pub reap_disconnected : ConnectionManager → ConnectionManager
unfolding release_addresses
reap_disconnected m = record m {
  address_book = release_addresses m.connections m.address_book;
  connections = remove_each (disconnects m.connections) m.connections;
}

unfoldable pub make_idle : ℕ → ConnectionManager → ConnectionManager
unfolding reap_disconnected Connection.disconnect AddressBook.clear
make_idle now m =
    let m' =
      reap_disconnected
        (record m { connections = Map.map_values (Connection.disconnect now) m.connections }) in
    record m' { address_book = AddressBook.clear m'.address_book }
