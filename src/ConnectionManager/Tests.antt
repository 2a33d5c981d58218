-- ===== src/ConnectionManager/Tests.antt =====
-- Tests of the connection manager.
use bitcoin_adaptor.Base.{
  length, inl, true, ◌≡◌, arith, none, some, refl, [], ◌∷◌, Result, ℕ_discrete,
}
use bitcoin_adaptor.Samples.{env, config, peer}
use bitcoin_adaptor.Bitcoin.{addr_eq}
use bitcoin_adaptor.AddressBook.{discovered}
use bitcoin_adaptor.Connection
use bitcoin_adaptor.ConnectionManager.{
  ConnectionManager, ConnectionManagerError, new, get_connection, reap_disconnected,
}
use bitcoin_adaptor.ConnectionManager.Manage.{manage_connections, tick, before_connecting}
use bitcoin_adaptor.ConnectionManager.Manage.Limit.{IsUnder, tick-IsUnder}
use bitcoin_adaptor.ConnectionManager.Manage.Reconnect.{IsConnected, manage_connections-returns}
use bitcoin_adaptor.ConnectionManager.Departure.{before_connecting-none}

manage_connections-returns_example :
    (m' : ConnectionManager) × (r : Result (Unit {0}) ConnectionManagerError) × (manage_connections
        env 7
        (new config 0)
      ≡ some (m', r))
    × IsConnected env m' r
manage_connections-returns_example = manage_connections-returns env 7 (new config 0)

-- One live connection, and one that was dropped.
abbrev two_connections : ConnectionManager
two_connections = record (new config 0) {
  connections =
      (peer 1, Connection.new 0 (discovered (peer 1)))
      ∷ (peer 2, Connection.disconnect 3 (Connection.new 0 (discovered (peer 2))))
      ∷ [];
}

live :
    get_connection (reap_disconnected two_connections) (peer 1)
    ≡ some (Connection.new 0 (discovered (peer 1)))
unfolding reap_disconnected Connection.new Connection.disconnect ℕ_discrete
live = ground arith

-- A connection whose ping of time 0 is unanswered.
abbrev silent : Connection.Connection
silent =
    Connection.expect_pong 0 77
      (Connection.completed_handshake 0 (Connection.new 0 (discovered (peer 1))))

abbrev with_silent : ConnectionManager
with_silent = record (new config 0) { connections = (peer 1, silent) ∷ [] }

silent_found : get_connection with_silent (peer 1) ≡ some silent
silent_found = ground arith

silent_timed_out : Connection.has_ping_timed_out 40_000_000_000 silent ≡ true
unfolding Connection.has_ping_timed_out Connection.expect_pong Connection.completed_handshake
    Connection.new
silent_timed_out = refl

before_connecting-none_example :
    get_connection (before_connecting env 40_000_000_000 with_silent) (peer 1) ≡ none
before_connecting-none_example =
    before_connecting-none env 40_000_000_000 with_silent (peer 1) silent silent_found
      (inl silent_timed_out)

-- Of two nodes, both are connected to in one tick.
abbrev ticked : ConnectionManager
ticked = elim (tick env 7 0 (new config 0)) [ none ↦ new config 0 | some m ↦ m ]

ticked_once : tick env 7 0 (new config 0) ≡ some ticked
unfolding new tick ℕ_discrete addr_eq
ticked_once = refl

two_made : length ticked.connections ≡ 2
unfolding new tick ℕ_discrete addr_eq
two_made = refl

tick-IsUnder_example : IsUnder (new config 0) ticked
tick-IsUnder_example = tick-IsUnder env 7 0 (new config 0) ticked ticked_once
