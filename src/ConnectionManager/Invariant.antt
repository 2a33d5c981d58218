-- ===== src/ConnectionManager/Invariant.antt =====
-- src/connectionmanager.rs: the invariant of the manager, and the operations that every entry point
-- shares.
pub mod Messages
pub mod Ticks
use bitcoin_adaptor.Base.{
  ℕ, suc, ◌≤◌, ◌≡◌, refl, ap, sym, ◌∙◌, ◌⊎◌, inl, inr, true, false, Option, none, some, List, [],
  ◌∷◌, Bool, Bool-cases, Option-cases, arith, length, if◌then◌else◌, same, Result, ok, err,
}
use bitcoin_adaptor.Base.Map
use bitcoin_adaptor.Bitcoin.{SocketAddr, addr_eq, NetworkMessage}
use bitcoin_adaptor.Adapter.{Command}
use bitcoin_adaptor.AddressBook
use bitcoin_adaptor.AddressBook.{AddressBook, addr}
use bitcoin_adaptor.Config.{Config}
use bitcoin_adaptor.AddressBook.Bounds.{IsDisjoint, new-IsDisjoint}
use bitcoin_adaptor.Connection
use bitcoin_adaptor.Connection.{Connection}
use bitcoin_adaptor.ConnectionManager.{
  ConnectionManager, new, get_connection, update_connection, discard, deliver, send_to, send_to_ok,
  send_each, send_to_all, send, has_enough_active_connections, available_connections,
  max_connections_during_address_discovery,
}

-- The most connections: as many as are made during the discovery of addresses, while it goes on;
-- after it, as many as were made during it, or as in normal operation.
abbrev pub IsWithin : ConnectionManager → ℕ → Type 0
IsWithin m n =
    (m.initial_address_discovery ≡ true → n ≤ max_connections_during_address_discovery)
    × ((n ≤ max_connections_during_address_discovery) ⊎ (n ≤ m.max_connections))

pub fewer-IsWithin : (m : ConnectionManager) (n k : ℕ) → n ≤ k → IsWithin m k → IsWithin m n
fewer-IsWithin m n k shorter (during, after) = (
  λ q. omega (arith, during q, shorter),
  elim after [
    | inl le ↦ inl (omega (arith, le, shorter))
    | inr le ↦ inr (omega (arith, le, shorter))
  ],
)

-- The address book keeps active and known addresses apart, every connection stands under the address
-- it was made for, and there are not too many connections.
pub record IsSound (m : ConnectionManager) : Type 0 where
  pub book : IsDisjoint m.address_book
  pub keyed :
      (a : SocketAddr) (c : Connection) → get_connection m a ≡ some c → addr c.address_entry ≡ a
  pub bounded : IsWithin m (length m.connections)

pub new-IsSound : (config : Config) (rng : ℕ) → IsSound (new config rng)
unfolding new
new-IsSound config rng = record {
  book = new-IsDisjoint config;
  keyed = λ a c e. absurd (ground arith);
  bounded = (λ q. omega arith, inl (omega arith));
}

-- A change of connections that leaves each its address.
abbrev pub KeepsEntry : (Connection → Connection) → Type 0
KeepsEntry f = (c : Connection) → (f c).address_entry ≡ c.address_entry

abbrev pub EntryKept : List (SocketAddr × Connection) → List (SocketAddr × Connection) → Type 0
EntryKept cs cs' =
    ((a : SocketAddr) (c : Connection)
      → Map.get addr_eq a cs' ≡ some c
      → (k : Connection) × (Map.get addr_eq a cs ≡ some k) × (c.address_entry ≡ k.address_entry))
    × (length cs' ≤ length cs)

pub with_connections-IsSound :
    (m : ConnectionManager) (cs : List (SocketAddr × Connection))
    → EntryKept m.connections cs
    → IsSound m
    → IsSound (record m { connections = cs })
with_connections-IsSound m cs (entries, shorter) s = record {
  book = s.book;
  keyed = λ a c e. let (k, found, q) = entries a c e in ap addr q ∙ s.keyed a k found;
  bounded = fewer-IsWithin m (length cs) (length m.connections) shorter s.bounded;
}

modify-EntryKept :
    (b : SocketAddr) (f : Connection → Connection) (cs : List (SocketAddr × Connection))
    → KeepsEntry f
    → EntryKept cs (Map.modify addr_eq b f cs)
modify-EntryKept b f cs keeps = (
  λ a c e. elim (Option-cases (Map.get addr_eq a cs)) [
    | inl q ↦ absurd (ground (arith, e, Map.get-modify addr_eq a b f cs))
    | inr (k, q) ↦ (k, q, ground (arith, e, keeps k, Map.get-modify addr_eq a b f cs))
  ],
  omega (arith, Map.length-modify addr_eq b f cs),
)

pub map_values-EntryKept :
    (f : Connection → Connection) (cs : List (SocketAddr × Connection))
    → KeepsEntry f
    → EntryKept cs (Map.map_values f cs)
map_values-EntryKept f cs keeps = (
  λ a c e. elim (Option-cases (Map.get addr_eq a cs)) [
    | inl q ↦ absurd (ground (arith, e, Map.get-map_values addr_eq a f cs))
    | inr (k, q) ↦ (k, q, ground (arith, e, keeps k, Map.get-map_values addr_eq a f cs))
  ],
  omega (arith, Map.length-map_values f cs),
)

pub update-IsSound :
    (a : SocketAddr) (f : Connection → Connection) (m : ConnectionManager)
    → KeepsEntry f
    → IsSound m
    → IsSound (update_connection a f m)
update-IsSound a f m keeps s =
    with_connections-IsSound m (Map.modify addr_eq a f m.connections)
      (modify-EntryKept a f m.connections keeps) s

pub with_book-IsSound :
    (m : ConnectionManager) (b : AddressBook)
    → IsDisjoint b
    → IsSound m
    → IsSound (record m { address_book = b })
with_book-IsSound m b d s = record { book = d; keyed = s.keyed; bounded = s.bounded }

pub discard-IsSound :
    (now : ℕ) (a : SocketAddr) (m : ConnectionManager) → IsSound m → IsSound (discard now a m)
unfolding discard Connection.discard
discard-IsSound now a m s = update-IsSound a (Connection.discard now) m (λ c. refl) s

pub close-IsSound :
    (a : SocketAddr) (m : ConnectionManager)
    → IsSound m
    → IsSound (update_connection a Connection.close m)
unfolding Connection.close
close-IsSound a m s = update-IsSound a Connection.close m (λ c. refl) s

pub disconnect_keeps : (now : ℕ) → KeepsEntry (Connection.disconnect now)
unfolding Connection.disconnect
disconnect_keeps now c = refl

deliver_keeps : (now : ℕ) (message : NetworkMessage) → KeepsEntry (deliver now message)
unfolding deliver Connection.send Connection.disconnect
deliver_keeps now message c = elim (Bool-cases c.writer.is_open) [
  | inl q ↦ ground arith
  | inr q ↦ ground arith
]

pub send_to-IsSound :
    (now : ℕ) (a : SocketAddr) (message : NetworkMessage) (m : ConnectionManager)
    → IsSound m
    → IsSound (send_to now a message m).0
unfolding send_to
send_to-IsSound now a message m s = elim (Option-cases (get_connection m a)) [
  | inl e ↦ rw (send_to, e) s
  | inr (c, e) ↦
      rw (send_to, e) (update-IsSound a (deliver now message) m (deliver_keeps now message) s)
]

pub send_to_ok-IsSound :
    (now : ℕ) (a : SocketAddr) (message : NetworkMessage) (m : ConnectionManager)
    → IsSound m
    → IsSound (send_to_ok now a message m)
unfolding send_to_ok
send_to_ok-IsSound now a message m s = send_to-IsSound now a message m s

send_each-IsSound :
    (now : ℕ) (message : NetworkMessage) (peers : List SocketAddr) (m : ConnectionManager)
    → IsSound m
    → IsSound (send_each now message peers m)
unfolding send_each
send_each-IsSound now message [] m s = s
send_each-IsSound now message (a ∷ peers) m s =
    send_each-IsSound now message peers (send_to_ok now a message m)
      (send_to_ok-IsSound now a message m s)

pub send-IsSound :
    (now : ℕ) (command : Command) (m : ConnectionManager) → IsSound m → IsSound (send now command m)
unfolding send send_to_all
send-IsSound now command m s = elim (Option-cases command.address) [
  | inr (a, e) ↦ rw (send, e) (send_to_ok-IsSound now a command.message m s)
  | inl e ↦ elim (Bool-cases (has_enough_active_connections m)) [
    | inl q ↦
        rw (send, e, send_to_all, q)
          (send_each-IsSound now command.message (available_connections m) m s)
    | inr q ↦ rw (send, e, send_to_all, q) s
  ]
]
