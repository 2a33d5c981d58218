-- ===== src/ConnectionManager/Reaping.antt =====
-- src/connectionmanager.rs: a disconnected connection does not stay.
use bitcoin_adaptor.Base.{
  ℕ, ◌≡◌, refl, true, false, none, some, List, [], ◌∷◌, if◌then◌else◌, arith, Bool-cases,
  Option-cases, same, inl, inr,
}
use bitcoin_adaptor.Base.Map
use bitcoin_adaptor.Base.Set
use bitcoin_adaptor.Bitcoin.{SocketAddr, addr_eq}
use bitcoin_adaptor.Connection
use bitcoin_adaptor.Connection.{Connection}
use bitcoin_adaptor.ConnectionManager.{
  ConnectionManager, get_connection, disconnects, remove_each, reap_disconnected, make_idle,
}

get-remove_each :
    (a : SocketAddr) (gone : List SocketAddr) (cs : List (SocketAddr × Connection))
    → Map.get addr_eq a (remove_each gone cs)
      ≡ (if Set.contains addr_eq a gone then none else Map.get addr_eq a cs)
get-remove_each a [] cs = refl
get-remove_each a (b ∷ gone) cs =
    ground (arith, get-remove_each a gone (Map.remove addr_eq b cs), Map.get-remove addr_eq a b cs)

disconnects-contains :
    (a : SocketAddr) (c : Connection) (cs : List (SocketAddr × Connection))
    → Map.get addr_eq a cs ≡ some c
    → Connection.is_disconnected c ≡ true
    → Set.contains addr_eq a (disconnects cs) ≡ true
disconnects-contains a c [] e d = cc
disconnects-contains a c ((b, k) ∷ cs) e d = elim (Bool-cases (same addr_eq a b)) [
  | inl q ↦ ground (arith, e, d)
  | inr q ↦ ground (arith, e, d, disconnects-contains a c cs)
]

-- After reaping, every connection that is found is the one from before, and is not disconnected.
pub reap_disconnected_lem :
    (m : ConnectionManager) (a : SocketAddr) (c : Connection)
    → get_connection (reap_disconnected m) a ≡ some c
    → (get_connection m a ≡ some c) × (Connection.is_disconnected c ≡ false)
unfolding reap_disconnected
reap_disconnected_lem m a c e =
    elim (Bool-cases (Set.contains addr_eq a (disconnects m.connections))) [
      | inl q ↦
          absurd (ground (arith, e, get-remove_each a (disconnects m.connections) m.connections))
      | inr q ↦
          let found : get_connection m a ≡ some c =
            ground (arith, e, get-remove_each a (disconnects m.connections) m.connections) in
          elim (Bool-cases (Connection.is_disconnected c)) [
            | inl d ↦ absurd (ground (arith, q, disconnects-contains a c m.connections found d))
            | inr d ↦ (found, d)
          ]
    ]

-- An idle manager has no connection.
pub make_idle-none :
    (now : ℕ) (m : ConnectionManager) (a : SocketAddr) → get_connection (make_idle now m) a ≡ none
unfolding make_idle reap_disconnected Connection.disconnect
make_idle-none now m a =
    let m' : ConnectionManager = record m {
      connections = Map.map_values (Connection.disconnect now) m.connections;
    } in
    elim (Option-cases (get_connection (reap_disconnected m') a)) [
      | inl e ↦ e
      | inr (c, e) ↦
          let (before, live) = reap_disconnected_lem m' a c e in absurd (dropped c before live)
    ]
  where
    dropped :
        (c : Connection)
        → Map.get addr_eq a (Map.map_values (Connection.disconnect now) m.connections) ≡ some c
        → Connection.is_disconnected c ≡ false
        → ⊥
    dropped c e live = elim (Option-cases (get_connection m a)) [
      | inl q ↦ absurd (
          ground (arith, e, Map.get-map_values addr_eq a (Connection.disconnect now) m.connections))
      | inr (k, q) ↦ absurd (
          ground (arith, e, Map.get-map_values addr_eq a (Connection.disconnect now) m.connections))
    ]
