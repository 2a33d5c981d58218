-- ===== src/ConnectionManager/Invariant/Ticks.antt =====
-- src/connectionmanager.rs: `tick` and `make_idle` keep the invariant.
use bitcoin_adaptor.Base.{
  ℕ, zero, suc, ◌<◌, ◌≤◌, ◌≡◌, refl, inl, inr, not, some, List, [], ◌∷◌, Bool-cases, Option-cases,
  Result-cases, arith, length, same, Result, ltb,
}
use bitcoin_adaptor.Base.Map
use bitcoin_adaptor.Bitcoin.{SocketAddr, addr_eq, NetworkMessage}
use bitcoin_adaptor.AddressBook
use bitcoin_adaptor.AddressBook.{
  AddressBook, AddressEntry, AddressBookError, seed, discovered, addr, Environment,
}
use bitcoin_adaptor.AddressBook.Bounds.{
  IsDisjoint, discard-IsDisjoint, remove_from_active-IsDisjoint, clear-IsDisjoint, pop-IsDisjoint,
  pop_seed-IsDisjoint,
}
use bitcoin_adaptor.Connection
use bitcoin_adaptor.Connection.{Connection, ConnectionState, from_secs}
use bitcoin_adaptor.ConnectionManager.{
  ConnectionManager, ConnectionManagerError, get_connection, update_connection,
  get_max_number_of_connections, flag_handshake, flag_retrieval, flag_version_handshake_timeouts,
  flag_seed_addr_retrieval_timeouts, release_addresses, disconnects, remove_each, reap_disconnected,
  make_idle, max_connections_during_address_discovery,
}
use bitcoin_adaptor.ConnectionManager.Manage.{
  drop_timed_out, needing_ping, send_ping, ping_each, manage_ping_states, pop_address,
  make_connection, connect_loop, manage_connections, tick,
}
use bitcoin_adaptor.ConnectionManager.Invariant.{
  IsSound, IsWithin, disconnect_keeps, KeepsEntry, EntryKept, with_connections-IsSound,
  map_values-EntryKept, update-IsSound, with_book-IsSound, send_to-IsSound,
}

drop_timed_out_keeps : (now : ℕ) → KeepsEntry (drop_timed_out now)
unfolding Connection.disconnect
drop_timed_out_keeps now c = elim (Bool-cases (Connection.has_ping_timed_out now c)) [
  | inl q ↦ ground (arith, q)
  | inr q ↦ ground (arith, q)
]

flag_handshake_keeps : (now : ℕ) → KeepsEntry (flag_handshake now)
unfolding Connection.discard
flag_handshake_keeps now c = ground arith

flag_retrieval_keeps : (now : ℕ) → KeepsEntry (flag_retrieval now)
unfolding Connection.discard
flag_retrieval_keeps now c = ground arith

abbrev release_one : Connection → AddressBook → AddressBook
release_one c b = elim c.state [
  | Connection.adapter_discarded t ↦ AddressBook.discard c.address_entry b
  | Connection.node_disconnected t ↦ AddressBook.remove_from_active c.address_entry b
  | _ ↦ b
]

release_one-IsDisjoint :
    (c : Connection) (b : AddressBook) → IsDisjoint b → IsDisjoint (release_one c b)
release_one-IsDisjoint c b d =
    elim c.state as (λ t. IsDisjoint (release_one (record c { state = t }) b)) [
      | Connection.adapter_discarded t ↦ discard-IsDisjoint c.address_entry b d
      | Connection.node_disconnected t ↦ remove_from_active-IsDisjoint c.address_entry b d
      | _ ↦ d
    ]

release-IsDisjoint :
    (cs : List (SocketAddr × Connection)) (b : AddressBook)
    → IsDisjoint b
    → IsDisjoint (release_addresses cs b)
unfolding release_addresses
release-IsDisjoint [] b d = d
release-IsDisjoint ((a, c) ∷ cs) b d =
    release-IsDisjoint cs (release_one c b) (release_one-IsDisjoint c b d)

remove_each-EntryKept :
    (gone : List SocketAddr) (cs : List (SocketAddr × Connection))
    → EntryKept cs (remove_each gone cs)
remove_each-EntryKept [] cs = (λ a c e. (c, e, refl), omega arith)
remove_each-EntryKept (b ∷ gone) cs =
    let (entries, shorter) = remove_each-EntryKept gone (Map.remove addr_eq b cs) in
    (
      λ a c e.
          let (k, found, q) = entries a c e in
          (k, ground (arith, found, Map.get-remove addr_eq a b cs), q),
      omega (arith, shorter, Map.length-remove-le addr_eq b cs),
    )

pub reap-IsSound : (m : ConnectionManager) → IsSound m → IsSound (reap_disconnected m)
unfolding reap_disconnected
reap-IsSound m s =
    let m' : ConnectionManager = record m {
      address_book = release_addresses m.connections m.address_book;
    } in
    with_connections-IsSound m' (remove_each (disconnects m.connections) m.connections)
      (remove_each-EntryKept (disconnects m.connections) m.connections)
      (with_book-IsSound m (release_addresses m.connections m.address_book)
        (release-IsDisjoint m.connections m.address_book s.book) s)

pub make_idle-IsSound : (now : ℕ) (m : ConnectionManager) → IsSound m → IsSound (make_idle now m)
unfolding make_idle
make_idle-IsSound now m s =
    let cs = Map.map_values (Connection.disconnect now) m.connections in
    let m' : ConnectionManager = record m { connections = cs } in
    with_book-IsSound (reap_disconnected m') (AddressBook.clear (reap_disconnected m').address_book)
      (clear-IsDisjoint (reap_disconnected m').address_book)
      (reap-IsSound m' (
        with_connections-IsSound m cs
          (map_values-EntryKept (Connection.disconnect now) m.connections (disconnect_keeps now))
          s))

module _ (env : Environment) where
  send_ping-IsSound :
      (now : ℕ) (a : SocketAddr) (m : ConnectionManager)
      → IsSound m
      → IsSound (send_ping env now a m).0
  unfolding send_ping Connection.expect_pong
  send_ping-IsSound now a m s =
      let m' : ConnectionManager = record m { rng = (env.gen m.rng).1 } in
      let s' : IsSound m' = record { book = s.book; keyed = s.keyed; bounded = s.bounded } in
      elim (Option-cases (get_connection m a)) [
        | inl e ↦ rw (send_ping, e) s'
        | inr (c, e) ↦
            let f = Connection.expect_pong now (env.gen m.rng).0 in
            rw (send_ping, e)
              (send_to-IsSound now a (NetworkMessage.ping (env.gen m.rng).0)
                (update_connection a f m') (update-IsSound a f m' (λ k. refl) s'))
      ]

  ping_each-IsSound :
      (now : ℕ) (peers : List SocketAddr) (m : ConnectionManager)
      → IsSound m
      → IsSound (ping_each env now peers m)
  unfolding ping_each
  ping_each-IsSound now [] m s = s
  ping_each-IsSound now (a ∷ peers) m s =
      ping_each-IsSound now peers (send_ping env now a m).0 (send_ping-IsSound now a m s)

  pop_address-IsDisjoint : (b : AddressBook) → IsDisjoint b → IsDisjoint (pop_address env b).0
  pop_address-IsDisjoint b d = elim (Bool-cases (not (AddressBook.has_enough_addresses b))) [
    | inl q ↦ rw (pop_address, q) (pop_seed-IsDisjoint env b d)
    | inr q ↦ rw (pop_address, q) (pop-IsDisjoint env b d)
  ]

  make_connection-IsSound :
      (now : ℕ) (m : ConnectionManager)
      → length m.connections < get_max_number_of_connections m
      → IsSound m
      → IsSound (make_connection env now m).0
  unfolding make_connection Connection.new
  make_connection-IsSound now m room s =
      let book = (pop_address env m.address_book).0 in
      let s' = with_book-IsSound m book (pop_address-IsDisjoint m.address_book s.book) s in
      elim (Result-cases (pop_address env m.address_book).1) [
        | inr (x, q) ↦ rw (make_connection, q) s'
        | inl (entry, q) ↦ elim (Bool-cases (Map.contains_key addr_eq (addr entry) m.connections)) [
          | inl k ↦ rw (make_connection, q, k) s'
          | inr k ↦
              let fresh = Connection.new now entry in
              rw (make_connection, q, k)
                (record {
                  book = s'.book;
                  keyed = λ a c e. elim (Bool-cases (same addr_eq a (addr entry))) [
                    | inl t ↦
                        ground
                          (arith, e, t, Map.get-insert addr_eq a (addr entry) fresh m.connections)
                    | inr t ↦ s.keyed a c (
                        ground
                          (arith, e, t, Map.get-insert addr_eq a (addr entry) fresh m.connections))
                  ];
                  bounded = full (Map.insert addr_eq (addr entry) fresh m.connections) (
                      ground
                        (arith, k, Map.length-insert addr_eq (addr entry) fresh m.connections));
                })
        ]
      ]
    where
      full :
          (cs : List (SocketAddr × Connection))
          → length cs ≡ suc (length m.connections)
          → IsWithin m (length cs)
      full cs e = elim (Bool-cases m.initial_address_discovery) [
        | inl d ↦
            let le : length cs ≤ max_connections_during_address_discovery =
              ground (arith, e, room, d) in
            (λ q. le, inl le)
        | inr d ↦ (λ q. absurd (ground (arith, d, q)), inr (ground (arith, e, room, d)))
      ]

  connect_loop-IsSound :
      (now fuel : ℕ) (m m' : ConnectionManager) (r : Result (Unit {0}) ConnectionManagerError)
      → IsSound m
      → connect_loop env now fuel m ≡ some (m', r)
      → IsSound m'
  unfolding connect_loop
  connect_loop-IsSound now zero m m' r s e = absurd (ground arith)
  connect_loop-IsSound now (suc fuel) m m' r s e =
      elim (Bool-cases (ltb (length m.connections) (get_max_number_of_connections m))) [
        | inr q ↦ let e' : m ≡ m' = ground (arith, rw (connect_loop, q) at e) in rw (← e') s
        | inl q ↦
            let room : length m.connections < get_max_number_of_connections m = ground arith in
            let m1 = (make_connection env now m).0 in
            let s1 = make_connection-IsSound now m room s in
            elim (Result-cases (make_connection env now m).1) [
              | inr (x, k) ↦
                  let e' : m1 ≡ m' = ground (arith, rw (connect_loop, q, k) at e) in rw (← e') s1
              | inl (u, k) ↦ connect_loop-IsSound now fuel m1 m' r s1 (rw (connect_loop, q, k) at e)
            ]
      ]

  pub manage_connections-IsSound :
      (now : ℕ) (m m' : ConnectionManager) (r : Result (Unit {0}) ConnectionManagerError)
      → IsSound m
      → manage_connections env now m ≡ some (m', r)
      → IsSound m'
  unfolding manage_connections manage_ping_states flag_version_handshake_timeouts
      flag_seed_addr_retrieval_timeouts
  manage_connections-IsSound now m m' r s e =
      let keep =
        λ (f : Connection → Connection) (k : KeepsEntry f) (n : ConnectionManager) (t : IsSound n).
          with_connections-IsSound n (Map.map_values f n.connections)
            (map_values-EntryKept f n.connections k) t in
      let m0 : ConnectionManager = record m {
        connections = Map.map_values (drop_timed_out now) m.connections;
      } in
      let m1 = manage_ping_states env now m in
      let s1 =
        ping_each-IsSound now (needing_ping now m.connections) m0
          (keep (drop_timed_out now) (drop_timed_out_keeps now) m s) in
      let m2 = flag_version_handshake_timeouts now m1 in
      let s2 = keep (flag_handshake now) (flag_handshake_keeps now) m1 s1 in
      let m3 = flag_seed_addr_retrieval_timeouts now m2 in
      let s3 = keep (flag_retrieval now) (flag_retrieval_keeps now) m2 s2 in
      let m4 = reap_disconnected m3 in
      connect_loop-IsSound now (suc (get_max_number_of_connections m4)) m4 m' r (reap-IsSound m3 s3)
        e

  -- A tick keeps the invariant.
  pub tick-IsSound :
      (now height : ℕ) (m m' : ConnectionManager)
      → IsSound m
      → tick env now height m ≡ some m'
      → IsSound m'
  unfolding tick
  tick-IsSound now height m m' s e =
      let m0 : ConnectionManager = record m { current_height = height } in
      let s0 : IsSound m0 = record { book = s.book; keyed = s.keyed; bounded = s.bounded } in
      elim (Option-cases (manage_connections env now m0)) [
        | inl q ↦ absurd (ground (arith, rw (tick, q) at e))
        | inr ((m1, r), q) ↦
            let e' : m1 ≡ m' = ground (arith, rw (tick, q) at e) in
            rw (← e') (manage_connections-IsSound now m0 m1 r s0 q)
      ]
