-- ===== src/Router/Isolation.antt =====
-- src/router.rs: what one peer sends changes no connection but its own.
use bitcoin_adaptor.Base.{
  ℕ, ◌≡◌, ◌≢◌, refl, ◌∙◌, inl, inr, not, ◌&&◌, some, List, arith, Bool-cases, Option-cases,
  Result-cases, Result, ok, err,
}
use bitcoin_adaptor.Base.Map
use bitcoin_adaptor.Base.Linked.{LinkedHashMap, LinkedHashSet}
use bitcoin_adaptor.Bitcoin.{
  hash_eq, SocketAddr, addr_eq, NetworkMessage, VersionMessage, Address, BitcoinLib,
}
use bitcoin_adaptor.Adapter.{ProcessError}
use bitcoin_adaptor.AddressBook
use bitcoin_adaptor.AddressBook.{Environment}
use bitcoin_adaptor.Stream.{StreamEventKind}
use bitcoin_adaptor.Connection
use bitcoin_adaptor.Connection.{Connection}
use bitcoin_adaptor.ConnectionManager as Connections
use bitcoin_adaptor.ConnectionManager.{
  ConnectionManager, get_connection, update_connection, send_to, send_to_ok,
}
use bitcoin_adaptor.ConnectionManager.Messages
use bitcoin_adaptor.BlockchainManager as Blocks
use bitcoin_adaptor.BlockchainManager.{BlockchainManager, GetDataRequestInfo}
use bitcoin_adaptor.BlockchainManager.Effects as BlockEffects
use bitcoin_adaptor.TransactionManager.Effects as TransactionEffects
use bitcoin_adaptor.TransactionManager as Transactions
use bitcoin_adaptor.TransactionManager.{TransactionManager, TransactionInfo}
use bitcoin_adaptor.Router.{
  Router, Event, stream_event, network_message, connection_channel, discard_if, dispatch, handle,
}

module _ (a b : SocketAddr) (other : b ≢ a) where
  -- The connection at `b` is as it was.
  abbrev IsSame : ConnectionManager → ConnectionManager → Type 0
  IsSame m m' = get_connection m' b ≡ get_connection m b

  update-IsSame :
      (f : Connection → Connection) (m : ConnectionManager) → IsSame m (update_connection a f m)
  update-IsSame f m = ground (arith, Map.get-modify addr_eq b a f m.connections)

  discard-IsSame : (now : ℕ) (m : ConnectionManager) → IsSame m (Connections.discard now a m)
  unfolding Connections.discard
  discard-IsSame now m = update-IsSame (Connection.discard now) m

  discard_if-IsSame :
      {A : Type 0} (now : ℕ) (r : Result A ProcessError) (m : ConnectionManager)
      → IsSame m (discard_if now a r m)
  discard_if-IsSame now (ok x) m = refl
  discard_if-IsSame now (err e) m = discard-IsSame now m

  send_to-IsSame :
      (now : ℕ) (message : NetworkMessage) (m : ConnectionManager)
      → IsSame m (send_to now a message m).0
  unfolding send_to
  send_to-IsSame now message m = elim (Option-cases (get_connection m a)) [
    | inl q ↦ rw (send_to, q) refl
    | inr (c, q) ↦ rw (send_to, q) (update-IsSame (Connections.deliver now message) m)
  ]

  module _ (btc : BitcoinLib) where
    version-IsSame :
        (now : ℕ) (v : VersionMessage) (m : ConnectionManager)
        → IsSame m (Messages.process_version_message btc now a v m).0
    unfolding Messages.process_version_message send_to_ok
    version-IsSame now v m =
        let m1 = send_to_ok now a NetworkMessage.verack m in
        let one = send_to-IsSame now NetworkMessage.verack m in
        let two = send_to-IsSame now NetworkMessage.get_addr m1 in
        elim (Option-cases (get_connection m a)) [
          | inl q ↦ rw (Messages.process_version_message, q) refl
          | inr (c, q) ↦
              elim (Bool-cases
                (not (Connection.is_seed c) && not (Messages.validate_received_version btc m v))) [
                  | inl r ↦ rw (Messages.process_version_message, q, r) refl
                  | inr r ↦ elim (Bool-cases (not (AddressBook.has_max_address m1.address_book))) [
                    | inl f ↦ rw (Messages.process_version_message, q, r, f) (two ∙ one)
                    | inr f ↦ rw (Messages.process_version_message, q, r, f) one
                  ]
                ]
        ]

    addr-IsSame :
        (now : ℕ) (addresses : List (ℕ × Address)) (m : ConnectionManager)
        → IsSame m (Messages.process_addr_message btc now a addresses m).0
    unfolding Messages.process_addr_message
    addr-IsSame now addresses m = ground (
      arith,
      update-IsSame (Messages.after_addr now)
          (record m { address_book = (AddressBook.add_many btc a addresses m.address_book).0 }),
    )

    connections-IsSame :
        (now : ℕ) (message : NetworkMessage) (m : ConnectionManager)
        → IsSame m (Messages.process_bitcoin_network_message btc now a message m).0
    unfolding Messages.process_bitcoin_network_message
    connections-IsSame now (NetworkMessage.version v) m = version-IsSame now v m
    connections-IsSame now NetworkMessage.verack m = update-IsSame (Messages.after_verack now) m
    connections-IsSame now (NetworkMessage.addr addresses) m = addr-IsSame now addresses m
    connections-IsSame now (NetworkMessage.ping nonce) m =
        send_to-IsSame now (NetworkMessage.pong nonce) m
    connections-IsSame now (NetworkMessage.pong nonce) m =
        update-IsSame (Messages.after_pong now nonce) m
    connections-IsSame now NetworkMessage.unknown m = discard-IsSame now m
    connections-IsSame now (NetworkMessage.inv x) m = refl
    connections-IsSame now (NetworkMessage.get_data x) m = refl
    connections-IsSame now (NetworkMessage.get_headers x) m = refl
    connections-IsSame now (NetworkMessage.headers x) m = refl
    connections-IsSame now (NetworkMessage.block x) m = refl
    connections-IsSame now (NetworkMessage.tx x) m = refl
    connections-IsSame now NetworkMessage.get_addr m = refl
    connections-IsSame now (NetworkMessage.other x) m = refl

    module _ (env : Environment) where
      send_version-IsSame :
          (now : ℕ) (m : ConnectionManager) → IsSame m (Messages.send_version btc env now a m).0
      unfolding Messages.send_version
      send_version-IsSame now m =
          let message = NetworkMessage.version (record {
            version = btc.protocol_version;
            services = 0;
            start_height = m.current_height;
          }) in
          elim (Bool-cases env.is_system_time_behind) [
            | inl q ↦ rw (Messages.send_version, q) refl
            | inr q ↦
                rw (Messages.send_version, q)
                  (send_to-IsSame now message (record m { rng = (env.gen m.rng).1 }))
          ]

      event-IsSame :
          (now : ℕ) (kind : StreamEventKind) (m : ConnectionManager)
          → IsSame m (Messages.process_event btc env now a kind m)
      unfolding Messages.process_event
      event-IsSame now StreamEventKind.connected m =
          let sent = Messages.send_version btc env now a m in
          elim (Result-cases sent.1) [
            | inl (x, q) ↦
                rw (Messages.process_event, q)
                  (update-IsSame (Connection.set_connected now) sent.0 ∙ send_version-IsSame now m)
            | inr (e, q) ↦
                rw (Messages.process_event, q)
                  (update-IsSame (Connection.disconnect now) sent.0 ∙ send_version-IsSame now m)
          ]
      event-IsSame now StreamEventKind.disconnected m = update-IsSame (Connection.disconnect now) m
      event-IsSame now StreamEventKind.failed_to_connect m = discard-IsSame now m

      module _ (transaction_map : LinkedHashMap TransactionInfo hash_eq)
          (request_map : LinkedHashMap GetDataRequestInfo hash_eq)
          (hash_set : LinkedHashSet hash_eq) where
        dispatch-IsSame :
            (now : ℕ) (message : NetworkMessage) (r : Router)
            → IsSame r.connection_manager
                (dispatch btc env transaction_map request_map hash_set now a message
                  r).connection_manager
        unfolding dispatch Connections.send send_to_ok
        dispatch-IsSame now message r =
            let channel = connection_channel now in
            let m = r.connection_manager in
            let step1 = Messages.process_bitcoin_network_message btc now a message m in
            let c2 = discard_if now a step1.1 step1.0 in
            let e2 = discard_if-IsSame now step1.1 step1.0 ∙ connections-IsSame now message m in
            let step2 =
              Blocks.process_bitcoin_network_message btc channel now a message r.blockchain_manager
                c2 in
            let e3 =
              BlockEffects.process_message_answers btc channel (IsSame m) a
                (λ locators c p. send_to-IsSame now (Blocks.getheaders a locators).message c ∙ p)
                now message r.blockchain_manager c2 e2 in
            let c4 = discard_if now a step2.2 step2.1 in
            let e4 = discard_if-IsSame now step2.2 step2.1 ∙ e3 in
            let step3 =
              Transactions.process_bitcoin_network_message channel a message r.transaction_manager
                c4 in
            let e5 =
              TransactionEffects.process_message_answers channel (IsSame m) a
                (λ answer c p. send_to-IsSame now answer c ∙ p) message r.transaction_manager c4
                e4 in
            discard_if-IsSame now step3.2 step3.1 ∙ e5

-- What a peer causes: a message or a stream event from it.
pub data IsFrom (a : SocketAddr) : Event → Type 0 where
  message_from : (message : NetworkMessage) → IsFrom a (network_message a message)
  event_from : (kind : StreamEventKind) → IsFrom a (stream_event a kind)

-- A message or a stream event of one peer, handled by all components, leaves the connection at every
-- other address as it is.
pub handle-other :
    (btc : BitcoinLib) (env : Environment) (transaction_map : LinkedHashMap TransactionInfo hash_eq)
    (request_map : LinkedHashMap GetDataRequestInfo hash_eq) (hash_set : LinkedHashSet hash_eq)
    (now : ℕ) (a b : SocketAddr) (event : Event) (r r' : Router)
    → IsFrom a event
    → b ≢ a
    → handle btc env transaction_map request_map hash_set now event r ≡ some r'
    → get_connection r'.connection_manager b ≡ get_connection r.connection_manager b
unfolding handle
handle-other btc env transaction_map request_map hash_set now a b event r r' (message_from message)
      other e =
    let e' : dispatch btc env transaction_map request_map hash_set now a message r ≡ r' =
      ground arith in
    rw (← e') (dispatch-IsSame a b other btc env transaction_map request_map hash_set now message r)
handle-other btc env transaction_map request_map hash_set now a b event r r' (event_from kind) other
      e =
    let e' : Messages.process_event btc env now a kind r.connection_manager
        ≡ r'.connection_manager =
      ground arith in
    rw (← e') (event-IsSame a b other btc env now kind r.connection_manager)
