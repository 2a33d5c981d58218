-- ===== src/ConnectionManager/Manage/Limit.antt =====
-- src/connectionmanager.rs: a tick makes no connection past the limit in force.
use bitcoin_adaptor.Base.{
  ℕ, zero, suc, ◌≤◌, ◌<◌, ◌≡◌, refl, ◌∙◌, ◌⊎◌, inl, inr, true, false, some, ltb, List, [], ◌∷◌,
  Result, length, arith, Bool-cases, Option-cases, Result-cases,
}
use bitcoin_adaptor.Base.Map
use bitcoin_adaptor.Bitcoin.{SocketAddr, addr_eq, NetworkMessage}
use bitcoin_adaptor.AddressBook.{addr, Environment}
use bitcoin_adaptor.Connection
use bitcoin_adaptor.Connection.{Connection}
use bitcoin_adaptor.ConnectionManager.{
  ConnectionManager, ConnectionManagerError, flag_version_handshake_timeouts,
  flag_seed_addr_retrieval_timeouts, reap_disconnected, get_max_number_of_connections,
  max_connections_during_address_discovery, disconnects, remove_each, send_to, deliver,
  get_connection, update_connection, flag_handshake, flag_retrieval,
}
use bitcoin_adaptor.ConnectionManager.Manage.{
  make_connection, connect_loop, manage_connections, manage_ping_states, pop_address, tick,
  send_ping, ping_each, needing_ping, drop_timed_out, before_connecting,
}

-- No connection is made, and what the limit depends on stays.
abbrev IsShrunk : ConnectionManager → ConnectionManager → Type 0
IsShrunk m m' =
    (m'.initial_address_discovery ≡ m.initial_address_discovery)
    × (m'.max_connections ≡ m.max_connections)
    × (length m'.connections ≤ length m.connections)

IsShrunk-trans : (a b c : ConnectionManager) → IsShrunk a b → IsShrunk b c → IsShrunk a c
IsShrunk-trans a b c (d, x, le) (d', x', le') = (d' ∙ d, x' ∙ x, omega (arith, le, le'))

update-IsShrunk :
    (a : SocketAddr) (f : Connection → Connection) (m : ConnectionManager)
    → IsShrunk m (update_connection a f m)
update-IsShrunk a f m = (refl, refl, omega (arith, Map.length-modify addr_eq a f m.connections))

map-IsShrunk :
    (f : Connection → Connection) (m : ConnectionManager)
    → IsShrunk m (record m { connections = Map.map_values f m.connections })
map-IsShrunk f m = (refl, refl, omega (arith, Map.length-map_values f m.connections))

send_to-IsShrunk :
    (now : ℕ) (a : SocketAddr) (message : NetworkMessage) (m : ConnectionManager)
    → IsShrunk m (send_to now a message m).0
unfolding send_to
send_to-IsShrunk now a message m = elim (Option-cases (get_connection m a)) [
  | inl e ↦ rw (send_to, e) (refl, refl, omega arith)
  | inr (c, e) ↦ rw (send_to, e) (update-IsShrunk a (deliver now message) m)
]

remove_each-le :
    (gone : List SocketAddr) (cs : List (SocketAddr × Connection))
    → length (remove_each gone cs) ≤ length cs
remove_each-le [] cs = omega arith
remove_each-le (b ∷ gone) cs =
    omega (arith, remove_each-le gone (Map.remove addr_eq b cs), Map.length-remove-le addr_eq b cs)

reap-IsShrunk : (m : ConnectionManager) → IsShrunk m (reap_disconnected m)
unfolding reap_disconnected
reap-IsShrunk m = (refl, refl, remove_each-le (disconnects m.connections) m.connections)

-- No more connections than before, or no more than may be made:
-- `max_connections_during_address_discovery` while addresses are discovered, and else
-- `max_connections`.
abbrev pub IsUnder : ConnectionManager → ConnectionManager → Type 0
IsUnder m m' =
    (length m'.connections ≤ length m.connections)
    ⊎ ((m.initial_address_discovery ≡ true)
        × (length m'.connections ≤ max_connections_during_address_discovery))
    ⊎ ((m.initial_address_discovery ≡ false) × (length m'.connections ≤ m.max_connections))

module _ (env : Environment) where
  send_ping-IsShrunk :
      (now : ℕ) (a : SocketAddr) (m : ConnectionManager) → IsShrunk m (send_ping env now a m).0
  unfolding send_ping
  send_ping-IsShrunk now a m =
      let m' : ConnectionManager = record m { rng = (env.gen m.rng).1 } in
      let nonce = (env.gen m.rng).0 in
      elim (Option-cases (get_connection m a)) [
        | inl e ↦ rw (send_ping, e) (refl, refl, omega arith)
        | inr (c, e) ↦
            let m1 = update_connection a (Connection.expect_pong now nonce) m' in
            rw (send_ping, e)
              (IsShrunk-trans m m1 (send_to now a (NetworkMessage.ping nonce) m1).0
                (update-IsShrunk a (Connection.expect_pong now nonce) m')
                (send_to-IsShrunk now a (NetworkMessage.ping nonce) m1))
      ]

  ping_each-IsShrunk :
      (now : ℕ) (peers : List SocketAddr) (m : ConnectionManager)
      → IsShrunk m (ping_each env now peers m)
  unfolding ping_each
  ping_each-IsShrunk now [] m = (refl, refl, omega arith)
  ping_each-IsShrunk now (a ∷ peers) m =
      let m1 = (send_ping env now a m).0 in
      IsShrunk-trans m m1 (ping_each env now peers m1) (send_ping-IsShrunk now a m)
        (ping_each-IsShrunk now peers m1)

  before_connecting-IsShrunk :
      (now : ℕ) (m : ConnectionManager) → IsShrunk m (before_connecting env now m)
  unfolding manage_ping_states flag_version_handshake_timeouts flag_seed_addr_retrieval_timeouts
  before_connecting-IsShrunk now m =
      let m0 : ConnectionManager = record m {
        connections = Map.map_values (drop_timed_out now) m.connections;
      } in
      let m1 = manage_ping_states env now m in
      let m2 = flag_version_handshake_timeouts now m1 in
      let m3 = flag_seed_addr_retrieval_timeouts now m2 in
      IsShrunk-trans m m1 (reap_disconnected m3)
        (IsShrunk-trans m m0 m1 (map-IsShrunk (drop_timed_out now) m)
          (ping_each-IsShrunk now (needing_ping now m.connections) m0))
        (IsShrunk-trans m1 m2 (reap_disconnected m3) (map-IsShrunk (flag_handshake now) m1) (
          IsShrunk-trans m2 m3 (reap_disconnected m3) (map-IsShrunk (flag_retrieval now) m2)
            (reap-IsShrunk m3)))

  -- What one connection comes to.
  abbrev IsOneMore : ConnectionManager → ConnectionManager → Type 0
  IsOneMore m m' =
      (m'.initial_address_discovery ≡ m.initial_address_discovery)
      × (m'.max_connections ≡ m.max_connections)
      × (length m'.connections ≤ suc (length m.connections))

  make_connection-IsOneMore :
      (now : ℕ) (m : ConnectionManager) → IsOneMore m (make_connection env now m).0
  unfolding make_connection
  make_connection-IsOneMore now m = elim (Result-cases (pop_address env m.address_book).1) [
    | inr (x, q) ↦ rw (make_connection, q) (refl, refl, omega arith)
    | inl (entry, q) ↦ elim (Bool-cases (Map.contains_key addr_eq (addr entry) m.connections)) [
      | inl k ↦ rw (make_connection, q, k) (refl, refl, omega arith)
      | inr k ↦
          rw (make_connection, q, k)
            (
              refl,
              refl,
              ground (
                arith,
                k,
                Map.length-insert addr_eq (addr entry) (Connection.new now entry) m.connections,
              ),
            )
    ]
  ]

  one_more-IsUnder :
      (m m1 m' : ConnectionManager)
      → length m.connections < get_max_number_of_connections m
      → IsOneMore m m1
      → IsUnder m1 m'
      → IsUnder m m'
  one_more-IsUnder m m1 m' room (d, x, le) under = ground (arith, room, d, x, le, under)

  connect_loop-IsUnder :
      (now fuel : ℕ) (m m' : ConnectionManager) (r : Result (Unit {0}) ConnectionManagerError)
      → connect_loop env now fuel m ≡ some (m', r)
      → IsUnder m m'
  unfolding connect_loop
  connect_loop-IsUnder now zero m m' r e = absurd (ground arith)
  connect_loop-IsUnder now (suc fuel) m m' r e =
      elim (Bool-cases (ltb (length m.connections) (get_max_number_of_connections m))) [
        | inr q ↦
            let e' : m ≡ m' = ground (arith, rw (connect_loop, q) at e) in
            rw (← e') (inl (omega arith))
        | inl q ↦
            let room : length m.connections < get_max_number_of_connections m = ground arith in
            let m1 = (make_connection env now m).0 in
            let more = make_connection-IsOneMore now m in
            elim (Result-cases (make_connection env now m).1) [
              | inr (x, k) ↦
                  let e' : m1 ≡ m' = ground (arith, rw (connect_loop, q, k) at e) in
                  rw (← e') (one_more-IsUnder m m1 m1 room more (inl (omega arith)))
              | inl (u, k) ↦
                  one_more-IsUnder m m1 m' room more
                    (connect_loop-IsUnder now fuel m1 m' r (rw (connect_loop, q, k) at e))
            ]
      ]

  -- After a tick there are no more connections than before it, or no more than may be made: the limit
  -- of the discovery while addresses are discovered, and else the limit of normal operation.
  pub tick-IsUnder :
      (now height : ℕ) (m m' : ConnectionManager) → tick env now height m ≡ some m' → IsUnder m m'
  unfolding tick manage_connections
  tick-IsUnder now height m m' e =
      let m0 : ConnectionManager = record m { current_height = height } in
      let m4 = before_connecting env now m0 in
      let (d, x, le) = before_connecting-IsShrunk now m0 in
      elim (Option-cases (manage_connections env now m0)) [
        | inl q ↦ absurd (ground (arith, rw (tick, q) at e))
        | inr ((m1, r), q) ↦
            let e' : m1 ≡ m' = ground (arith, rw (tick, q) at e) in
            let under =
              connect_loop-IsUnder now (suc (get_max_number_of_connections m4)) m4 m1 r q in
            rw (← e') (ground (arith, under, d, x, le))
      ]
