-- ===== src/ConnectionManager/Manage/Reconnect.antt =====
-- src/connectionmanager.rs: the loop that makes connections ends.
use bitcoin_adaptor.Base.{
  ℕ, zero, suc, ◌-◌, ◌≤◌, ◌<◌, ◌≡◌, refl, ap, ◌⊎◌, inl, inr, some, ltb, Result, ok, err, length,
  arith, Bool-cases, Result-cases,
}
use bitcoin_adaptor.Base.Map
use bitcoin_adaptor.Bitcoin.{addr_eq}
use bitcoin_adaptor.AddressBook.{addr, Environment}
use bitcoin_adaptor.Connection
use bitcoin_adaptor.Connection.{Connection}
use bitcoin_adaptor.ConnectionManager.{
  ConnectionManager, ConnectionManagerError, flag_version_handshake_timeouts,
  flag_seed_addr_retrieval_timeouts, reap_disconnected, get_max_number_of_connections,
}
use bitcoin_adaptor.ConnectionManager.Manage.{
  make_connection, connect_loop, manage_connections, manage_ping_states, pop_address, tick,
}

module _ (env : Environment) where
  make_connection-grows :
      (now : ℕ) (m m' : ConnectionManager) (r : Unit {0})
      → make_connection env now m ≡ (m', ok r)
      → (length m'.connections ≡ suc (length m.connections))
        × (get_max_number_of_connections m' ≡ get_max_number_of_connections m)
  unfolding make_connection
  make_connection-grows now m m' r e = elim (Result-cases (pop_address env m.address_book).1) [
    | inr (x, q) ↦ absurd (ground arith)
    | inl (entry, q) ↦ elim (Bool-cases (Map.contains_key addr_eq (addr entry) m.connections)) [
      | inl k ↦ absurd (ground arith)
      | inr k ↦
          ground
            (arith, Map.length-insert addr_eq (addr entry) (Connection.new now entry) m.connections)
    ]
  ]

  -- What the loop comes to: it is full, or a connection could not be made.
  abbrev pub IsConnected : ConnectionManager → Result (Unit {0}) ConnectionManagerError → Type 0
  IsConnected m r =
      (get_max_number_of_connections m ≤ length m.connections)
      ⊎ ((e : ConnectionManagerError) × (r ≡ err e))

  -- With more fuel than connections are missing, the loop ends, and it ends with an error unless
  -- the connections are complete.
  pub connect_loop-returns :
      (now fuel : ℕ) (m : ConnectionManager)
      → get_max_number_of_connections m - length m.connections < fuel
      → (m' : ConnectionManager) × (r : Result (Unit {0}) ConnectionManagerError) × (connect_loop
            env now fuel m
          ≡ some (m', r))
        × IsConnected m' r
  unfolding connect_loop
  connect_loop-returns now zero m le = absurd (omega (arith, le))
  connect_loop-returns now (suc fuel) m le =
      elim (Bool-cases (ltb (length m.connections) (get_max_number_of_connections m))) [
        | inr q ↦ (m, ok tt, rw (connect_loop, q) refl, inl (ground arith))
        | inl q ↦ elim (Result-cases (make_connection env now m).1) [
          | inr (e, r) ↦
              ((make_connection env now m).0, err e, rw (connect_loop, q, r) refl, inr (e, refl))
          | inl (u, r) ↦
              let m1 = (make_connection env now m).0 in
              let (grown, same_max) = make_connection-grows now m m1 u (pair_eq r) in
              let less : length m.connections < get_max_number_of_connections m = ground arith in
              let (m', x, e, full) =
                connect_loop-returns now fuel m1 (omega (arith, le, grown, same_max, less)) in
              (m', x, rw (connect_loop, q, r) e, full)
        ]
      ]
    where
      pair_eq :
          {p : ConnectionManager × Result (Unit {0}) ConnectionManagerError}
          {r : Result (Unit {0}) ConnectionManagerError}
          → p.1 ≡ r
          → p ≡ (p.0, r)
      pair_eq {p} e = ap (λ x. (p.0, x)) e

  -- The pass of a tick over the connections returns, and it ends with an error unless the
  -- connections are complete.
  pub manage_connections-returns :
      (now : ℕ) (m : ConnectionManager)
      → (m' : ConnectionManager) × (r : Result (Unit {0}) ConnectionManagerError)
        × (manage_connections env now m ≡ some (m', r))
        × IsConnected m' r
  unfolding manage_connections
  manage_connections-returns now m =
      let m4 = reap_disconnected (
        flag_seed_addr_retrieval_timeouts now
          (flag_version_handshake_timeouts now (manage_ping_states env now m))) in
      connect_loop-returns now (suc (get_max_number_of_connections m4)) m4 (omega arith)

  -- A tick of the connection manager returns.
  pub tick-returns :
      (now height : ℕ) (m : ConnectionManager)
      → (m' : ConnectionManager) × (tick env now height m ≡ some m')
  unfolding tick
  tick-returns now height m =
      let (m', r, e, _) = manage_connections-returns now (record m { current_height = height }) in
      (m', rw (tick, e) refl)
