-- ===== src/Main/Invariant.antt =====
-- src/main.rs: what holds in every state that the program reaches, whatever calls, messages and ticks
-- come, and in whatever order.
use bitcoin_adaptor.Base.{
  ℕ, ◌≤◌, ◌≡◌, refl, ap, inl, inr, some, List, ◌∷◌, All, All-map, length, arith, Bool-cases,
  Option-cases, List-cases, Result,
}
use bitcoin_adaptor.Base.Linked.{LinkedHashMap, LinkedHashSet}
use bitcoin_adaptor.Bitcoin.{hash_eq, SocketAddr, BitcoinLib}
use bitcoin_adaptor.Adapter.{is_idle}
use bitcoin_adaptor.AddressBook.{Environment}
use bitcoin_adaptor.Config.{Config}
use bitcoin_adaptor.BlockchainManager.{GetDataRequestInfo}
use bitcoin_adaptor.BlockchainManager.Known.{is_known}
use bitcoin_adaptor.BlockchainManager.Known.Operations.{Downloads}
use bitcoin_adaptor.TransactionManager.{TransactionInfo}
use bitcoin_adaptor.Rpc as Rpc
use bitcoin_adaptor.Rpc.{
  Codec, RpcStatus, BtcServiceGetSuccessorsRequest, BtcServiceGetSuccessorsResponse,
}
use bitcoin_adaptor.Router.{
  Event, stream_event, network_message, blockchain_request, send_transaction, ticked, handle,
  make_idle, close_stream,
}
use bitcoin_adaptor.Router.Invariant.{
  IsRunning, start-IsRunning, close-IsRunning, idle-IsRunning, handle-IsRunning,
}
use bitcoin_adaptor.Router.Known.{
  IsKnownRequest, IsKnownEvent, Extends-IsKnownRequest, cache_of, handle-IsKept,
}
use bitcoin_adaptor.Main.Requests.{try_send-All, length-try_send, call_requests, known_request}
use bitcoin_adaptor.Main.{
  Adaptor, Branch, channel_capacity, try_send_each, receive, start, get_successors, submit, turn,
  receive_stream_event, receive_network_message, receive_blockchain_request, receive_transaction,
  tick_interval,
}

module _ (btc : BitcoinLib) where
  -- The components are as they should be; the channel to the router is within its capacity; and every
  -- block that is queued or requested, or waits in the channel to be, has a cached header.
  pub record IsWorking (s : Adaptor) : Type 0 where
    pub running : IsRunning btc s.router
    pub downloads : Downloads (is_known (cache_of s.router)) s.router.blockchain_manager
    pub waiting : All (IsKnownRequest btc (cache_of s.router)) s.blockchain_manager_rx
    pub bounded : length s.blockchain_manager_rx ≤ channel_capacity

  start-IsWorking : (config : Config) (rng : ℕ) → IsWorking (start btc config rng)
  unfolding start
  start-IsWorking config rng = record {
    running = start-IsRunning btc config rng;
    downloads = (λ h e. cc, λ h e. cc);
    waiting = tt;
    bounded = omega arith;
  }

  submit-IsWorking :
      (now : ℕ) (raw_tx : List ℕ) (s : Adaptor) → IsWorking s → IsWorking (submit now raw_tx s)
  unfolding submit
  submit-IsWorking now raw_tx s w = record {
    running = w.running;
    downloads = w.downloads;
    waiting = w.waiting;
    bounded = w.bounded;
  }

  get_successors-IsWorking :
      (codec : Codec) (fuel now : ℕ) (request : BtcServiceGetSuccessorsRequest) (s s' : Adaptor)
      (answer : Result BtcServiceGetSuccessorsResponse RpcStatus)
      → get_successors btc codec fuel now request s ≡ some (s', answer)
      → IsWorking s
      → IsWorking s'
  unfolding get_successors
  get_successors-IsWorking codec fuel now request s s' answer e w =
      let b = s.router.blockchain_manager.blockchain in
      elim (Option-cases
        (Rpc.get_successors codec btc fuel now s.network b s.adapter_state request)) [
          | inl q ↦ absurd (ground (arith, rw (get_successors, q) at e))
          | inr ((adapter_state, a, requests), q) ↦
              let s1 : Adaptor = record s {
                adapter_state = adapter_state;
                blockchain_manager_rx = try_send_each requests s.blockchain_manager_rx;
              } in
              let e' : s1 ≡ s' = ground (arith, rw (get_successors, q) at e) in
              let known =
                All-map _ (IsKnownRequest btc b.header_cache) requests
                  (known_request btc b w.running.valid)
                  (call_requests btc codec fuel now s.network b s.adapter_state adapter_state
                    request a requests w.running.valid q) in
              rw (← e') (record {
                running = w.running;
                downloads = w.downloads;
                waiting =
                    try_send-All btc (IsKnownRequest btc b.header_cache) requests
                      s.blockchain_manager_rx known w.waiting;
                bounded = length-try_send btc requests s.blockchain_manager_rx w.bounded;
              })
        ]

  -- What is received off a channel of a working adaptor.
  record IsReceived (event : Event) (s s' : Adaptor) : Type 0 where
    router : s'.router ≡ s.router
    known : IsKnownEvent btc (cache_of s.router) event
    rest : All (IsKnownRequest btc (cache_of s.router)) s'.blockchain_manager_rx
    fewer : length s'.blockchain_manager_rx ≤ channel_capacity

  receive-IsReceived :
      (branch : Branch) (s s' : Adaptor) (event : Event)
      → receive branch s ≡ some (event, s')
      → IsWorking s
      → IsReceived event s s'
  unfolding receive
  receive-IsReceived (receive_stream_event a kind) s s' event e w =
      let f : s ≡ s' = ground arith in
      let g : stream_event a kind ≡ event = ground arith in
      rw (← f, ← g) (record { router = refl; known = tt; rest = w.waiting; fewer = w.bounded })
  receive-IsReceived (receive_network_message a message) s s' event e w =
      let f : s ≡ s' = ground arith in
      let g : network_message a message ≡ event = ground arith in
      rw (← f, ← g) (record { router = refl; known = tt; rest = w.waiting; fewer = w.bounded })
  receive-IsReceived tick_interval s s' event e w =
      let f : s ≡ s' = ground arith in
      let g : ticked ≡ event = ground arith in
      rw (← f, ← g) (record { router = refl; known = tt; rest = w.waiting; fewer = w.bounded })
  receive-IsReceived receive_blockchain_request s s' event e w =
      elim (List-cases s.blockchain_manager_rx) [
        | inl q ↦ absurd (ground arith)
        | inr (request, rest, q) ↦
            let f : record s { blockchain_manager_rx = rest } ≡ s' = ground arith in
            let g : blockchain_request request ≡ event = ground arith in
            let all : All (IsKnownRequest btc (cache_of s.router)) (request ∷ rest) =
              rw q at (w.waiting) in
            let le : length (request ∷ rest) ≤ channel_capacity =
              omega (arith, ap length q, w.bounded) in
            rw (← f, ← g)
              (record { router = refl; known = all.0; rest = all.1; fewer = omega (arith, le) })
      ]
  receive-IsReceived receive_transaction s s' event e w =
      elim (List-cases s.transaction_manager_rx) [
        | inl q ↦ absurd (ground arith)
        | inr (raw_tx, rest, q) ↦
            let f : record s { transaction_manager_rx = rest } ≡ s' = ground arith in
            let g : send_transaction raw_tx ≡ event = ground arith in
            rw (← f, ← g)
              (record { router = refl; known = tt; rest = w.waiting; fewer = w.bounded })
      ]

  close-IsWorking :
      (a : SocketAddr) (s : Adaptor)
      → IsWorking s
      → IsWorking (record s { router = close_stream a s.router })
  unfolding close_stream
  close-IsWorking a s w = record {
    running = close-IsRunning btc a s.router w.running;
    downloads = w.downloads;
    waiting = w.waiting;
    bounded = w.bounded;
  }

module _ (btc : BitcoinLib) (env : Environment)
    (transaction_map : LinkedHashMap TransactionInfo hash_eq)
    (request_map : LinkedHashMap GetDataRequestInfo hash_eq)
    (hash_set : LinkedHashSet hash_eq) where
  idle-IsWorking :
      (now : ℕ) (s : Adaptor)
      → IsWorking btc s
      → IsWorking btc (record s {
        router = make_idle btc env transaction_map request_map hash_set now s.router;
      })
  unfolding make_idle
  idle-IsWorking now s w = record {
    running = idle-IsRunning btc env transaction_map request_map hash_set now s.router w.running;
    downloads = (λ h e. cc, λ h e. cc);
    waiting = w.waiting;
    bounded = w.bounded;
  }

  turn-IsWorking :
      (now : ℕ) (branch : Branch) (s s' : Adaptor)
      → turn btc env transaction_map request_map hash_set now branch s ≡ some s'
      → IsWorking btc s
      → IsWorking btc s'
  unfolding turn
  turn-IsWorking now branch s s' e w = elim (Bool-cases (is_idle now s.adapter_state)) [
    | inl q ↦
        let s1 : Adaptor = record s {
          router = make_idle btc env transaction_map request_map hash_set now s.router;
        } in
        let e' : s1 ≡ s' = ground (arith, rw (turn, q) at e) in rw (← e') (idle-IsWorking now s w)
    | inr q ↦ elim (Option-cases (receive branch s)) [
      | inl n ↦ let e' : s ≡ s' = ground (arith, rw (turn, q, n) at e) in rw (← e') w
      | inr ((event, s1), n) ↦
          let got = receive-IsReceived btc branch s s1 event n w in
          elim (Option-cases
            (handle btc env transaction_map request_map hash_set now event s1.router)) [
              | inl h ↦ absurd (ground (arith, rw (turn, q, n, h) at e))
              | inr (r, h) ↦
                  let e' : record s1 { router = r } ≡ s' =
                    ground (arith, rw (turn, q, n, h) at e) in
                  let h' : handle btc env transaction_map request_map hash_set now event s.router
                      ≡ some r =
                    rw (← got.router) h in
                  let (x, d) =
                    handle-IsKept btc env transaction_map request_map hash_set now event s.router r
                      w.running.valid got.known w.downloads h' in
                  rw (← e') (record {
                    running =
                        handle-IsRunning btc env transaction_map request_map hash_set now event
                          s.router r w.running h';
                    downloads = d;
                    waiting =
                        All-map _ (IsKnownRequest btc (cache_of r)) s1.blockchain_manager_rx
                          (λ request k.
                            Extends-IsKnownRequest btc (cache_of s.router) (cache_of r) request x k)
                          got.rest;
                    bounded = got.fewer;
                  })
            ]
    ]
  ]

module _ (btc : BitcoinLib) (transaction_map : LinkedHashMap TransactionInfo hash_eq)
    (request_map : LinkedHashMap GetDataRequestInfo hash_eq)
    (hash_set : LinkedHashSet hash_eq) where
  -- The calls and turns of the program from what `main` makes, and the ends of the streams' tasks; the
  -- environment, the clock, the requests, the fuel and the branches are arbitrary.
  pub data Reach (codec : Codec) (config : Config) (rng : ℕ) : Adaptor → Type 0 where
    begin : Reach codec config rng (start btc config rng)
    called :
        {s s' : Adaptor} (fuel now : ℕ) (request : BtcServiceGetSuccessorsRequest)
        (answer : Result BtcServiceGetSuccessorsResponse RpcStatus)
        → Reach codec config rng s
        → get_successors btc codec fuel now request s ≡ some (s', answer)
        → Reach codec config rng s'
    submitted :
        {s : Adaptor} (now : ℕ) (raw_tx : List ℕ)
        → Reach codec config rng s
        → Reach codec config rng (submit now raw_tx s)
    turned :
        {s s' : Adaptor} (env : Environment) (now : ℕ) (branch : Branch)
        → Reach codec config rng s
        → turn btc env transaction_map request_map hash_set now branch s ≡ some s'
        → Reach codec config rng s'
    closed :
        {s : Adaptor} (a : SocketAddr)
        → Reach codec config rng s
        → Reach codec config rng (record s { router = close_stream a s.router })

  -- In every state that the program reaches from its start, by calls of the gRPC server and turns of
  -- the loop in any order: the headers are a tree with its leaves as tips and a header for every
  -- cached block, no more than `tx_cache_size` transactions are cached, there are at most
  -- `max_connections_during_address_discovery` connections while addresses are discovered and
  -- afterwards at most as many as that or as `max_connections`, at most `channel_capacity` requests
  -- wait for the router, and every block that is queued or requested for download, or that a waiting
  -- request is to queue, has a cached header.
  pub Reach-IsWorking :
      (codec : Codec) (config : Config) (rng : ℕ) (s : Adaptor)
      → Reach codec config rng s
      → IsWorking btc s
  Reach-IsWorking codec config rng s begin = start-IsWorking btc config rng
  Reach-IsWorking codec config rng s (called {s = s0} fuel now request answer reached e) =
      get_successors-IsWorking btc codec fuel now request s0 s answer e
        (Reach-IsWorking codec config rng s0 reached)
  Reach-IsWorking codec config rng s (submitted {s = s0} now raw_tx reached) =
      submit-IsWorking btc now raw_tx s0 (Reach-IsWorking codec config rng s0 reached)
  Reach-IsWorking codec config rng s (turned {s = s0} env now branch reached e) =
      turn-IsWorking btc env transaction_map request_map hash_set now branch s0 s e
        (Reach-IsWorking codec config rng s0 reached)
  Reach-IsWorking codec config rng s (closed {s = s0} a reached) =
      close-IsWorking btc a s0 (Reach-IsWorking codec config rng s0 reached)
