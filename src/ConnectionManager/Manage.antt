-- ===== src/ConnectionManager/Manage.antt =====
-- src/connectionmanager.rs: `tick`, which pings, drops and makes connections.
pub mod Reconnect
pub mod Limit
use bitcoin_adaptor.Base.{
  ℕ, zero, suc, ◌-◌, ◌≡◌, Bool, true, false, not, ◌&&◌, Option, none, some, List, [], ◌∷◌, ◌++◌,
  ltb, if◌then◌else◌, Result, ok, err, length,
}
use bitcoin_adaptor.Base.Map
use bitcoin_adaptor.Bitcoin.{SocketAddr, addr_eq, ping}
use bitcoin_adaptor.AddressBook
use bitcoin_adaptor.AddressBook.{AddressBook, AddressEntry, AddressBookError, addr, Environment}
use bitcoin_adaptor.Connection
use bitcoin_adaptor.Connection.{Connection}
use bitcoin_adaptor.ConnectionManager.{
  ConnectionManager, ConnectionManagerError, connection_not_found, address_book_error,
  already_connected, get_connection, update_connection, send_to, flag_version_handshake_timeouts,
  flag_seed_addr_retrieval_timeouts, reap_disconnected, get_max_number_of_connections,
}

-- The loop of `manage_ping_states`: who needs a ping, and the connections with the ones that timed
-- out disconnected.
abbrev pub needing_ping : ℕ → List (SocketAddr × Connection) → List SocketAddr
needing_ping now [] = []
needing_ping now ((a, c) ∷ cs) =
    if Connection.needs_ping now c
    then addr c.address_entry ∷ needing_ping now cs
    else needing_ping now cs

abbrev pub drop_timed_out : ℕ → Connection → Connection
drop_timed_out now c =
    if Connection.has_ping_timed_out now c then Connection.disconnect now c else c

module _ (env : Environment) where
  unfoldable pub send_ping :
      ℕ
      → SocketAddr
      → ConnectionManager
      → ConnectionManager × Result (Unit {0}) ConnectionManagerError
  unfolding send_to Connection.expect_pong
  send_ping now a m =
      let (nonce, rng) = env.gen m.rng in
      let m' = record m { rng = rng } in
      elim (get_connection m a) [
        | none ↦ (m', err connection_not_found)
        | some c ↦
            send_to now a (ping nonce) (update_connection a (Connection.expect_pong now nonce) m')
      ]

  unfoldable pub ping_each : ℕ → List SocketAddr → ConnectionManager → ConnectionManager
  unfolding send_ping
  ping_each now [] m = m
  ping_each now (a ∷ as') m = ping_each now as' (send_ping now a m).0

  unfoldable pub manage_ping_states : ℕ → ConnectionManager → ConnectionManager
  unfolding ping_each
  manage_ping_states now m =
      ping_each now (needing_ping now m.connections)
        (record m { connections = Map.map_values (drop_timed_out now) m.connections })

  abbrev pub pop_address : AddressBook → AddressBook × Result AddressEntry AddressBookError
  pop_address b =
      if not (AddressBook.has_enough_addresses b)
      then AddressBook.pop_seed env b
      else AddressBook.pop env b

  -- The stream's task is spawned by `handle`, and starts with an open channel.
  unfoldable pub make_connection :
      ℕ → ConnectionManager → ConnectionManager × Result (Unit {0}) ConnectionManagerError
  unfolding AddressBook.pop_seed AddressBook.pop Connection.new
  make_connection now m =
      let (book, popped) = pop_address m.address_book in
      let m' = record m { address_book = book } in
      elim popped [
        | err e ↦ (m', err (address_book_error e))
        | ok entry ↦
            if Map.contains_key addr_eq (addr entry) m.connections
            then (m', err (already_connected (addr entry)))
            else (
              record m' {
                connections =
                    Map.insert addr_eq (addr entry) (Connection.new now entry) m.connections;
              },
              ok tt,
            )
      ]

  -- `while self.connections.len() < max { self.make_connection(handle)?; }`; `none` if the fuel ran
  -- out.
  unfoldable pub connect_loop :
      ℕ
      → ℕ
      → ConnectionManager
      → Option (ConnectionManager × Result (Unit {0}) ConnectionManagerError)
  unfolding make_connection
  connect_loop now zero m = none
  connect_loop now (suc fuel) m =
      elim (ltb (length m.connections) (get_max_number_of_connections m)) [
        | false ↦ some (m, ok tt)
        | true ↦
            let (m', result) = make_connection now m in
            elim result [ err e ↦ some (m', err e) | ok _ ↦ connect_loop now fuel m' ]
      ]

  -- What `manage_connections` does before its loop.
  abbrev pub before_connecting : ℕ → ConnectionManager → ConnectionManager
  before_connecting now m =
      let m1 = manage_ping_states now m in
      let m2 = flag_version_handshake_timeouts now m1 in
      let m3 = flag_seed_addr_retrieval_timeouts now m2 in reap_disconnected m3

  unfoldable pub manage_connections :
      ℕ → ConnectionManager → Option (ConnectionManager × Result (Unit {0}) ConnectionManagerError)
  unfolding manage_ping_states flag_version_handshake_timeouts flag_seed_addr_retrieval_timeouts
      reap_disconnected connect_loop
  manage_connections now m =
      let m4 = before_connecting now m in
      connect_loop now (suc (get_max_number_of_connections m4)) m4

  -- The error, if any, is only logged.
  unfoldable pub tick : ℕ → ℕ → ConnectionManager → Option ConnectionManager
  unfolding manage_connections
  tick now current_height m =
      elim (manage_connections now (record m { current_height = current_height })) [
        | none ↦ none
        | some (m', result) ↦ some m'
      ]
