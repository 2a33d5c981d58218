-- ===== src/ConnectionManager/Invariant/Messages.antt =====
-- src/connectionmanager.rs: messages and stream events keep the invariant.
use bitcoin_adaptor.Base.{
  ℕ, ◌≡◌, refl, ◌==◌, ◌⊎◌, inl, inr, not, ◌&&◌, List, Bool-cases, Option-cases, Result-cases, arith,
}
use bitcoin_adaptor.Bitcoin.{SocketAddr, Address, NetworkMessage, VersionMessage, BitcoinLib}
use bitcoin_adaptor.AddressBook
use bitcoin_adaptor.AddressBook.{
  AddressBook, AddressBookError, AddressEntry, seed, discovered, Environment, too_many_addresses,
  addresses_depleted, no_seed_addresses_found,
}
use bitcoin_adaptor.AddressBook.Bounds.{add_many-IsDisjoint}
use bitcoin_adaptor.Connection
use bitcoin_adaptor.Connection.{Connection, PingState, expecting_pong, idle}
use bitcoin_adaptor.Stream.{StreamEventKind}
use bitcoin_adaptor.ConnectionManager.{
  ConnectionManager, get_connection, update_connection, send_to_ok,
}
use bitcoin_adaptor.ConnectionManager.Invariant.{
  IsSound, KeepsEntry, disconnect_keeps, update-IsSound, with_book-IsSound, discard-IsSound,
  send_to-IsSound, send_to_ok-IsSound,
}
use bitcoin_adaptor.ConnectionManager.Messages.{
  after_verack, after_pong, after_addr, process_verack_message, process_ping_message,
  process_pong_message, end_discovery, validate_received_version, process_version_message,
  process_addr_message, process_bitcoin_network_message, send_version, process_event,
}

entry_cases :
    (e : AddressEntry) → ((a : SocketAddr) × (e ≡ seed a)) ⊎ ((a : SocketAddr) × (e ≡ discovered a))
entry_cases (seed a) = inl (a, refl)
entry_cases (discovered a) = inr (a, refl)

ping_cases :
    (p : PingState) → ((t : ℕ) × (n : ℕ) × (p ≡ expecting_pong t n)) ⊎ ((t : ℕ) × (p ≡ idle t))
ping_cases (expecting_pong t n) = inl (t, n, refl)
ping_cases (idle t) = inr (t, refl)

after_verack_keeps : (now : ℕ) → KeepsEntry (after_verack now)
unfolding Connection.await_addresses Connection.completed_handshake
after_verack_keeps now c = elim (entry_cases c.address_entry) [
  | inl (a, e) ↦ ground (arith, e)
  | inr (a, e) ↦ ground (arith, e)
]

after_addr_keeps : (now : ℕ) → KeepsEntry (after_addr now)
unfolding Connection.disconnect
after_addr_keeps now c = elim (entry_cases c.address_entry) [
  | inl (a, e) ↦ ground (arith, e)
  | inr (a, e) ↦ ground (arith, e)
]

after_pong_keeps : (now nonce : ℕ) → KeepsEntry (after_pong now nonce)
unfolding Connection.disconnect Connection.pong_received
after_pong_keeps now nonce c = elim (ping_cases c.ping_state) [
  | inr (t, e) ↦ ground (arith, e)
  | inl (t, n, e) ↦ elim (Bool-cases (n == nonce)) [
    | inl q ↦ ground (arith, e, q)
    | inr q ↦ ground (arith, e, q)
  ]
]

end_discovery-IsSound : (m : ConnectionManager) → IsSound m → IsSound (end_discovery m)
end_discovery-IsSound m s = elim (Bool-cases (AddressBook.has_enough_addresses m.address_book)) [
  | inl q ↦
      rw (end_discovery, q)
        (record { book = s.book; keyed = s.keyed; bounded = (λ k. cc, s.bounded.1) })
  | inr q ↦ rw (end_discovery, q) s
]

module _ (btc : BitcoinLib) where
  process_version-IsSound :
      (now : ℕ) (a : SocketAddr) (message : VersionMessage) (m : ConnectionManager)
      → IsSound m
      → IsSound (process_version_message btc now a message m).0
  unfolding process_version_message
  process_version-IsSound now a message m s = elim (Option-cases (get_connection m a)) [
    | inl e ↦ rw (process_version_message, e) s
    | inr (c, e) ↦
        elim (Bool-cases
          (not (Connection.is_seed c) && not (validate_received_version btc m message))) [
            | inl q ↦ rw (process_version_message, e, q) s
            | inr q ↦
                let m' = send_to_ok now a NetworkMessage.verack m in
                let s' = send_to_ok-IsSound now a NetworkMessage.verack m s in
                elim (Bool-cases (not (AddressBook.has_max_address m'.address_book))) [
                  | inl r ↦
                      rw (process_version_message, e, q, r)
                        (send_to_ok-IsSound now a NetworkMessage.get_addr m' s')
                  | inr r ↦ rw (process_version_message, e, q, r) s'
                ]
          ]
  ]

  process_addr-IsSound :
      (now : ℕ) (a : SocketAddr) (addresses : List (ℕ × Address)) (m : ConnectionManager)
      → IsSound m
      → IsSound (process_addr_message btc now a addresses m).0
  unfolding process_addr_message
  process_addr-IsSound now a addresses m s =
      let book = (AddressBook.add_many btc a addresses m.address_book).0 in
      let s' =
        with_book-IsSound m book (add_many-IsDisjoint btc a addresses m.address_book s.book) s in
      let m' : ConnectionManager = record m { address_book = book } in
      let after =
        end_discovery-IsSound (update_connection a (after_addr now) m')
          (update-IsSound a (after_addr now) m' (after_addr_keeps now) s') in
      elim (Result-cases (AddressBook.add_many btc a addresses m.address_book).1) [
        | inl (u, e) ↦ rw (process_addr_message, e) after
        | inr (too_many_addresses n k, e) ↦ rw (process_addr_message, e) s'
        | inr (addresses_depleted, e) ↦ rw (process_addr_message, e) after
        | inr (no_seed_addresses_found, e) ↦ rw (process_addr_message, e) after
      ]

  pub process_message-IsSound :
      (now : ℕ) (a : SocketAddr) (message : NetworkMessage) (m : ConnectionManager)
      → IsSound m
      → IsSound (process_bitcoin_network_message btc now a message m).0
  unfolding process_bitcoin_network_message process_verack_message process_ping_message
      process_pong_message
  process_message-IsSound now a message m s =
      elim message as (λ k. IsSound (process_bitcoin_network_message btc now a k m).0) [
        | NetworkMessage.version v ↦ process_version-IsSound now a v m s
        | NetworkMessage.verack ↦ update-IsSound a (after_verack now) m (after_verack_keeps now) s
        | NetworkMessage.addr addresses ↦ process_addr-IsSound now a addresses m s
        | NetworkMessage.ping nonce ↦ send_to_ok-IsSound now a (NetworkMessage.pong nonce) m s
        | NetworkMessage.pong nonce ↦
            update-IsSound a (after_pong now nonce) m (after_pong_keeps now nonce) s
        | NetworkMessage.unknown ↦ discard-IsSound now a m s
        | _ ↦ s
      ]

  module _ (env : Environment) where
    send_version-IsSound :
        (now : ℕ) (a : SocketAddr) (m : ConnectionManager)
        → IsSound m
        → IsSound (send_version btc env now a m).0
    unfolding send_version
    send_version-IsSound now a m s = elim (Bool-cases env.is_system_time_behind) [
      | inl q ↦ rw (send_version, q) s
      | inr q ↦
          rw (send_version, q)
            (send_to-IsSound now a _ (record m { rng = (env.gen m.rng).1 })
              (record { book = s.book; keyed = s.keyed; bounded = s.bounded }))
    ]

    pub process_event-IsSound :
        (now : ℕ) (a : SocketAddr) (kind : StreamEventKind) (m : ConnectionManager)
        → IsSound m
        → IsSound (process_event btc env now a kind m)
    unfolding process_event Connection.set_connected
    process_event-IsSound now a StreamEventKind.connected m s =
        let m' = (send_version btc env now a m).0 in
        let s' = send_version-IsSound now a m s in
        elim (Result-cases (send_version btc env now a m).1) [
          | inl (u, e) ↦
              rw (process_event, e)
                (update-IsSound a (Connection.set_connected now) m' (λ c. refl) s')
          | inr (x, e) ↦
              rw (process_event, e)
                (update-IsSound a (Connection.disconnect now) m' (disconnect_keeps now) s')
        ]
    process_event-IsSound now a StreamEventKind.disconnected m s =
        update-IsSound a (Connection.disconnect now) m (disconnect_keeps now) s
    process_event-IsSound now a StreamEventKind.failed_to_connect m s = discard-IsSound now a m s
