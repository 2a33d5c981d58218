-- ===== src/ConnectionManager/Departure.antt =====
-- src/connectionmanager.rs: a connection that is dropped stays so until it is reaped, and one that
-- leaves a ping unanswered is dropped.
use bitcoin_adaptor.Base.{
  ℕ, ◌≡◌, refl, ◌⊎◌, inl, inr, true, none, some, List, [], ◌∷◌, Bool-cases, Option-cases, arith,
}
use bitcoin_adaptor.Base.Map
use bitcoin_adaptor.Bitcoin.{SocketAddr, addr_eq, NetworkMessage}
use bitcoin_adaptor.Adapter.{Command}
use bitcoin_adaptor.AddressBook.{Environment}
use bitcoin_adaptor.Connection
use bitcoin_adaptor.Connection.{Connection}
use bitcoin_adaptor.ConnectionManager.{
  ConnectionManager, get_connection, update_connection, discard, deliver, send_to, send_to_ok,
  send_each, send_to_all, send, has_enough_active_connections, available_connections,
  flag_handshake, flag_retrieval, flag_version_handshake_timeouts,
  flag_seed_addr_retrieval_timeouts, reap_disconnected,
}
use bitcoin_adaptor.ConnectionManager.Manage.{
  drop_timed_out, needing_ping, send_ping, ping_each, manage_ping_states, before_connecting,
}
use bitcoin_adaptor.ConnectionManager.Reaping.{reap_disconnected_lem}

-- The connection to an address, if there is one, is disconnected.
abbrev pub IsGone : SocketAddr → ConnectionManager → Type 0
IsGone a m = (c : Connection) → get_connection m a ≡ some c → Connection.is_disconnected c ≡ true

-- A change that leaves a disconnected connection so.
abbrev pub StaysGone : (Connection → Connection) → Type 0
StaysGone f =
    (c : Connection) → Connection.is_disconnected c ≡ true → Connection.is_disconnected (f c) ≡ true

pub update-IsGone :
    (a b : SocketAddr) (f : Connection → Connection) (m : ConnectionManager)
    → StaysGone f
    → IsGone a m
    → IsGone a (update_connection b f m)
update-IsGone a b f m stays g c e = elim (Option-cases (get_connection m a)) [
  | inl q ↦ absurd (ground (arith, e, Map.get-modify addr_eq a b f m.connections))
  | inr (k, q) ↦ ground (arith, e, g k q, stays k, Map.get-modify addr_eq a b f m.connections)
]

map_values-IsGone :
    (a : SocketAddr) (f : Connection → Connection) (m : ConnectionManager)
    → StaysGone f
    → IsGone a m
    → IsGone a (record m { connections = Map.map_values f m.connections })
map_values-IsGone a f m stays g c e = elim (Option-cases (get_connection m a)) [
  | inl q ↦ absurd (ground (arith, e, Map.get-map_values addr_eq a f m.connections))
  | inr (k, q) ↦ ground (arith, e, g k q, stays k, Map.get-map_values addr_eq a f m.connections)
]

disconnect_gone :
    (now : ℕ) (c : Connection) → Connection.is_disconnected (Connection.disconnect now c) ≡ true
unfolding Connection.disconnect
disconnect_gone now c = refl

discard_gone :
    (now : ℕ) (c : Connection) → Connection.is_disconnected (Connection.discard now c) ≡ true
unfolding Connection.discard
discard_gone now c = refl

-- The connection that is discarded is gone.
pub discard-IsGone : (now : ℕ) (a : SocketAddr) (m : ConnectionManager) → IsGone a (discard now a m)
unfolding discard
discard-IsGone now a m c e = elim (Option-cases (get_connection m a)) [
  | inl q ↦
      absurd (ground (arith, e, Map.get-modify addr_eq a a (Connection.discard now) m.connections))
  | inr (k, q) ↦ ground (
    arith,
    e,
    discard_gone now k,
    Map.get-modify addr_eq a a (Connection.discard now) m.connections,
  )
]

pub discard_keeps :
    (now : ℕ) (a b : SocketAddr) (m : ConnectionManager) → IsGone a m → IsGone a (discard now b m)
unfolding discard
discard_keeps now a b m g =
    update-IsGone a b (Connection.discard now) m (λ c d. discard_gone now c) g

deliver-StaysGone : (now : ℕ) (message : NetworkMessage) → StaysGone (deliver now message)
unfolding deliver Connection.send Connection.disconnect
deliver-StaysGone now message c d = elim (Bool-cases c.writer.is_open) [
  | inl q ↦ ground (arith, d)
  | inr q ↦ ground arith
]

send_to-IsGone :
    (now : ℕ) (a b : SocketAddr) (message : NetworkMessage) (m : ConnectionManager)
    → IsGone a m
    → IsGone a (send_to now b message m).0
unfolding send_to
send_to-IsGone now a b message m g = elim (Option-cases (get_connection m b)) [
  | inl e ↦ rw (send_to, e) g
  | inr (c, e) ↦
      rw (send_to, e) (update-IsGone a b (deliver now message) m (deliver-StaysGone now message) g)
]

send_each-IsGone :
    (now : ℕ) (a : SocketAddr) (message : NetworkMessage) (peers : List SocketAddr)
    (m : ConnectionManager)
    → IsGone a m
    → IsGone a (send_each now message peers m)
unfolding send_each send_to_ok
send_each-IsGone now a message [] m g = g
send_each-IsGone now a message (b ∷ peers) m g =
    send_each-IsGone now a message peers (send_to now b message m).0
      (send_to-IsGone now a b message m g)

pub send-IsGone :
    (now : ℕ) (a : SocketAddr) (command : Command) (m : ConnectionManager)
    → IsGone a m
    → IsGone a (send now command m)
unfolding send send_to_all send_to_ok
send-IsGone now a command m g = elim (Option-cases command.address) [
  | inr (b, e) ↦ rw (send, e) (send_to-IsGone now a b command.message m g)
  | inl e ↦ elim (Bool-cases (has_enough_active_connections m)) [
    | inl q ↦
        rw (send, e, send_to_all, q)
          (send_each-IsGone now a command.message (available_connections m) m g)
    | inr q ↦ rw (send, e, send_to_all, q) g
  ]
]

drop_timed_out-StaysGone : (now : ℕ) → StaysGone (drop_timed_out now)
drop_timed_out-StaysGone now c d = elim (Bool-cases (Connection.has_ping_timed_out now c)) [
  | inl q ↦ rw (drop_timed_out, q) (disconnect_gone now c)
  | inr q ↦ rw (drop_timed_out, q) d
]

flag_handshake-StaysGone : (now : ℕ) → StaysGone (flag_handshake now)
unfolding Connection.discard
flag_handshake-StaysGone now c d = ground (arith, d)

flag_retrieval-StaysGone : (now : ℕ) → StaysGone (flag_retrieval now)
unfolding Connection.discard
flag_retrieval-StaysGone now c d = ground (arith, d)

module _ (env : Environment) where
  send_ping-IsGone :
      (now : ℕ) (a b : SocketAddr) (m : ConnectionManager)
      → IsGone a m
      → IsGone a (send_ping env now b m).0
  unfolding send_ping Connection.expect_pong
  send_ping-IsGone now a b m g =
      let m' : ConnectionManager = record m { rng = (env.gen m.rng).1 } in
      let g' : IsGone a m' = g in
      elim (Option-cases (get_connection m b)) [
        | inl e ↦ rw (send_ping, e) g'
        | inr (c, e) ↦
            let f = Connection.expect_pong now (env.gen m.rng).0 in
            rw (send_ping, e)
              (send_to-IsGone now a b (NetworkMessage.ping (env.gen m.rng).0)
                (update_connection b f m') (update-IsGone a b f m' (λ k d. d) g'))
      ]

  ping_each-IsGone :
      (now : ℕ) (a : SocketAddr) (peers : List SocketAddr) (m : ConnectionManager)
      → IsGone a m
      → IsGone a (ping_each env now peers m)
  unfolding ping_each
  ping_each-IsGone now a [] m g = g
  ping_each-IsGone now a (b ∷ peers) m g =
      ping_each-IsGone now a peers (send_ping env now b m).0 (send_ping-IsGone now a b m g)

  -- In the pass of a tick, before new connections are made, a connection whose ping has timed out is
  -- gone, and so is one that was disconnected already: there is no connection to its address.
  pub before_connecting-none :
      (now : ℕ) (m : ConnectionManager) (a : SocketAddr) (c : Connection)
      → get_connection m a ≡ some c
      → (Connection.has_ping_timed_out now c ≡ true) ⊎ (Connection.is_disconnected c ≡ true)
      → get_connection (before_connecting env now m) a ≡ none
  unfolding manage_ping_states flag_version_handshake_timeouts flag_seed_addr_retrieval_timeouts
  before_connecting-none now m a c e timed_out =
      let m0 : ConnectionManager = record m {
        connections = Map.map_values (drop_timed_out now) m.connections;
      } in
      let m1 = manage_ping_states env now m in
      let m2 = flag_version_handshake_timeouts now m1 in
      let m3 = flag_seed_addr_retrieval_timeouts now m2 in
      let g1 : IsGone a m1 =
        ping_each-IsGone now a (needing_ping now m.connections) m0 (dropped m a c e timed_out) in
      let g3 : IsGone a m3 =
        map_values-IsGone a (flag_retrieval now) m2 (flag_retrieval-StaysGone now)
          (map_values-IsGone a (flag_handshake now) m1 (flag_handshake-StaysGone now) g1) in
      elim (Option-cases (get_connection (reap_disconnected m3) a)) [
        | inl q ↦ q
        | inr (k, q) ↦
            let (found, live) = reap_disconnected_lem m3 a k q in
            absurd (ground (arith, g3 k found, live))
      ]
    where
      drops :
          (k : Connection)
          → (Connection.has_ping_timed_out now k ≡ true) ⊎ (Connection.is_disconnected k ≡ true)
          → Connection.is_disconnected (drop_timed_out now k) ≡ true
      drops k (inl q) = rw (drop_timed_out, q) (disconnect_gone now k)
      drops k (inr d) = drop_timed_out-StaysGone now k d

      dropped :
          (n : ConnectionManager) (b : SocketAddr) (k : Connection)
          → get_connection n b ≡ some k
          → (Connection.has_ping_timed_out now k ≡ true) ⊎ (Connection.is_disconnected k ≡ true)
          → IsGone b (record n { connections = Map.map_values (drop_timed_out now) n.connections })
      dropped n b k q t j found = ground (
        arith,
        q,
        found,
        drops k t,
        Map.get-map_values addr_eq b (drop_timed_out now) n.connections,
      )
