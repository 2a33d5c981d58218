-- ===== src/ConnectionManager/Messages.antt =====
-- src/connectionmanager.rs: the messages of the nodes, and the events of the streams.
use bitcoin_adaptor.Base.{
  ℕ, ◌+◌, ◌%◌, ◌^◌, Bool, false, not, ◌&&◌, none, some, List, leb, ◌==◌, if◌then◌else◌, Result, ok,
  err,
}
use bitcoin_adaptor.Bitcoin.{
  SocketAddr, Address, NetworkMessage, VersionMessage, BitcoinLib, minimum_version_number,
}
use bitcoin_adaptor.Adapter.{ProcessError, invalid_message}
use bitcoin_adaptor.AddressBook
use bitcoin_adaptor.AddressBook.{AddressBook, seed, discovered, Environment, too_many_addresses}
use bitcoin_adaptor.Connection
use bitcoin_adaptor.Connection.{Connection, expecting_pong, idle}
use bitcoin_adaptor.Stream.{StreamEventKind}
use bitcoin_adaptor.ConnectionManager.{
  ConnectionManager, ConnectionManagerError, system_time_is_behind, get_connection,
  update_connection, send_to, send_to_ok, discard,
}

-- `>=` on `i32`, over bit patterns.
abbrev pub ge_i32 : ℕ → ℕ → Bool
ge_i32 a b = leb ((b + 2 ^ 31) % 2 ^ 32) ((a + 2 ^ 31) % 2 ^ 32)

-- `if let Ok(conn) = ..` with a change that depends on the kind of the address.
abbrev pub after_verack : ℕ → Connection → Connection
after_verack now c = elim c.address_entry [
  | seed a ↦ Connection.await_addresses now c
  | discovered a ↦ Connection.completed_handshake now c
]

abbrev pub after_pong : ℕ → ℕ → Connection → Connection
after_pong now nonce c = elim c.ping_state [
  | expecting_pong t expected ↦
      if expected == nonce then Connection.pong_received now c else Connection.disconnect now c
  | idle t ↦ Connection.disconnect now c
]

abbrev pub after_addr : ℕ → Connection → Connection
after_addr now c = elim c.address_entry [ seed a ↦ Connection.disconnect now c | discovered a ↦ c ]

unfoldable pub process_verack_message : ℕ → SocketAddr → ConnectionManager → ConnectionManager
unfolding Connection.await_addresses Connection.completed_handshake
process_verack_message now a m = update_connection a (after_verack now) m

unfoldable pub process_ping_message : ℕ → SocketAddr → ℕ → ConnectionManager → ConnectionManager
unfolding send_to_ok
process_ping_message now a nonce m = send_to_ok now a (NetworkMessage.pong nonce) m

unfoldable pub process_pong_message : ℕ → SocketAddr → ℕ → ConnectionManager → ConnectionManager
unfolding Connection.pong_received Connection.disconnect
process_pong_message now a nonce m = update_connection a (after_pong now nonce) m

abbrev pub end_discovery : ConnectionManager → ConnectionManager
end_discovery m =
    if AddressBook.has_enough_addresses m.address_book
    then record m { initial_address_discovery = false }
    else m

module _ (btc : BitcoinLib) where
  abbrev pub validate_received_version : ConnectionManager → VersionMessage → Bool
  validate_received_version m message =
      AddressBook.validate_services btc message.services
      && ge_i32 message.start_height m.current_height
      && leb minimum_version_number message.version

  unfoldable pub process_version_message :
      ℕ
      → SocketAddr
      → VersionMessage
      → ConnectionManager
      → ConnectionManager × Result (Unit {0}) ProcessError
  unfolding send_to_ok
  process_version_message now a message m = elim (get_connection m a) [
    | none ↦ (m, err invalid_message)
    | some c ↦
        if not (Connection.is_seed c) && not (validate_received_version m message)
        then (m, err invalid_message)
        else let m' = send_to_ok now a NetworkMessage.verack m in
          (
            if not (AddressBook.has_max_address m'.address_book)
                then send_to_ok now a NetworkMessage.get_addr m'
                else m',
            ok tt,
          )
  ]

  unfoldable pub process_addr_message :
      ℕ
      → SocketAddr
      → List (ℕ × Address)
      → ConnectionManager
      → ConnectionManager × Result (Unit {0}) ProcessError
  unfolding AddressBook.add_many Connection.disconnect
  process_addr_message now a addresses m =
      let (book, result) = AddressBook.add_many btc a addresses m.address_book in
      let m' = record m { address_book = book } in
      elim result [
        | err (too_many_addresses received max_amount) ↦ (m', err invalid_message)
        | _ ↦ (end_discovery (update_connection a (after_addr now) m'), ok tt)
      ]

  unfoldable pub process_bitcoin_network_message :
      ℕ
      → SocketAddr
      → NetworkMessage
      → ConnectionManager
      → ConnectionManager × Result (Unit {0}) ProcessError
  unfolding process_version_message process_verack_message process_addr_message process_ping_message
      process_pong_message discard
  process_bitcoin_network_message now a message m = elim message [
    | NetworkMessage.version v ↦ process_version_message now a v m
    | NetworkMessage.verack ↦ (process_verack_message now a m, ok tt)
    | NetworkMessage.addr addresses ↦ process_addr_message now a addresses m
    | NetworkMessage.ping nonce ↦ (process_ping_message now a nonce m, ok tt)
    | NetworkMessage.pong nonce ↦ (process_pong_message now a nonce m, ok tt)
    | NetworkMessage.unknown ↦ (discard now a m, ok tt)
    | _ ↦ (m, ok tt)
  ]

  module _ (env : Environment) where
    -- The height is sent as the bit pattern of an `i32`.
    unfoldable pub send_version :
        ℕ
        → SocketAddr
        → ConnectionManager
        → ConnectionManager × Result (Unit {0}) ConnectionManagerError
    unfolding send_to
    send_version now a m =
        if env.is_system_time_behind
        then (m, err system_time_is_behind)
        else let (nonce, rng) = env.gen m.rng in
          send_to now a
            (NetworkMessage.version (record {
              version = btc.protocol_version;
              services = 0;
              start_height = m.current_height;
            }))
            (record m { rng = rng })

    unfoldable pub process_event :
        ℕ → SocketAddr → StreamEventKind → ConnectionManager → ConnectionManager
    unfolding send_version Connection.set_connected Connection.disconnect discard
    process_event now a StreamEventKind.connected m =
        let (m', result) = send_version now a m in
        elim result [
          | ok _ ↦ update_connection a (Connection.set_connected now) m'
          | err e ↦ update_connection a (Connection.disconnect now) m'
        ]
    process_event now a StreamEventKind.disconnected m =
        update_connection a (Connection.disconnect now) m
    process_event now a StreamEventKind.failed_to_connect m = discard now a m
