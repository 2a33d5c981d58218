-- ===== src/Main/Tests.antt =====
-- Tests of the program: a client submits a transaction, a peer is connected and sends a header, and a
-- call of `get_successors` has it queued.
use bitcoin_adaptor.Base.{
  ◌⊎◌, ◌≡◌, refl, sym, inl, inr, true, none, some, Option-cases, [], ◌∷◌, ℕ_discrete, arith, length,
  ◌+◌, ◌≤◌, All, ok,
}
use bitcoin_adaptor.Base.Map
use bitcoin_adaptor.Base.Linked.{linked_map, linked_set}
use bitcoin_adaptor.Bitcoin.{hash_eq, addr_eq, verack, headers}
use bitcoin_adaptor.Samples.{lib, env, config, peer, header}
use bitcoin_adaptor.Adapter.{is_idle, received_now, elapsed_secs}
use bitcoin_adaptor.HeaderCache as Cache
use bitcoin_adaptor.BlockchainState as State
use bitcoin_adaptor.GetSuccessors as Handler
use bitcoin_adaptor.Connection
use bitcoin_adaptor.ConnectionManager as Connections
use bitcoin_adaptor.Stream.{StreamEventKind}
use bitcoin_adaptor.BlockchainState.Valid.{IsValid}
use bitcoin_adaptor.GetSuccessors.{GetSuccessorsRequest}
use bitcoin_adaptor.GetSuccessors.Generations.{generations, below}
use bitcoin_adaptor.Rpc as Rpc
use bitcoin_adaptor.Rpc.{Codec, BtcServiceGetSuccessorsRequest}
use bitcoin_adaptor.Main.{
  Adaptor, Branch, start, get_successors, submit, turn, receive, receive_stream_event,
  receive_network_message, receive_blockchain_request, tick_interval,
}
use bitcoin_adaptor.Main.Invariant.{
  Reach, begin, called, submitted, turned, IsWorking, Reach-IsWorking,
}
use bitcoin_adaptor.Main.Download.{IsAwaited, response_of, get_successors-AreAwaited}
use bitcoin_adaptor.Main.Submission.{drain, submit-IsCached}

abbrev codec : Codec
codec = record {
  from_slice = λ bytes. elim bytes [ [] ↦ none | b ∷ rest ↦ some b ];
  encode_block = λ b. some (b.header.nonce ∷ []);
  encode_header = λ h. some (h.nonce ∷ []);
}

abbrev Reached : Adaptor → Type 0
Reached s =
    Reach lib (linked_map hash_eq) (linked_map hash_eq) (linked_set hash_eq) codec config 0 s

abbrev step : Branch → Adaptor → Adaptor
step branch s =
    elim (turn lib env (linked_map hash_eq) (linked_map hash_eq) (linked_set hash_eq) 5 branch s) [
      | none ↦ s
      | some s' ↦ s'
    ]

step-Reached : (branch : Branch) (s : Adaptor) → Reached s → Reached (step branch s)
step-Reached branch s reached =
    elim (Option-cases
      (turn lib env (linked_map hash_eq) (linked_map hash_eq) (linked_set hash_eq) 5 branch s)) [
        | inl q ↦ rw (step, q) reached
        | inr (s', q) ↦ rw (step, q) (turned env 5 branch reached q)
      ]

abbrev request : BtcServiceGetSuccessorsRequest
request = record { anchor = 1 ∷ []; processed_block_hashes = [] }

abbrev call : Adaptor → Adaptor
call s = elim (get_successors lib codec 9 5 request s) [ none ↦ s | some (s', answer) ↦ s' ]

call-Reached : (s : Adaptor) → Reached s → Reached (call s)
call-Reached s reached = elim (Option-cases (get_successors lib codec 9 5 request s)) [
  | inl q ↦ rw (call, q) reached
  | inr ((s', answer), q) ↦ rw (call, q) (called 9 5 request answer reached q)
]

abbrev fresh : Adaptor
fresh = submit 5 (7 ∷ 7 ∷ []) (start lib config 0)

abbrev greeted : Adaptor
greeted = step tick_interval (
    step (receive_network_message (peer 1) verack)
      (step (receive_stream_event (peer 1) StreamEventKind.connected) (step tick_interval fresh)))

abbrev informed : Adaptor
informed = step (receive_network_message (peer 1) (headers (header 2 1 ∷ header 3 2 ∷ []))) greeted

abbrev asked : Adaptor
asked = call informed

abbrev downloading : Adaptor
downloading = step tick_interval (step receive_blockchain_request asked)

two_waiting : length asked.blockchain_manager_rx ≡ 2
unfolding start submit get_successors turn receive is_idle received_now ℕ_discrete addr_eq
    Handler.start Handler.visit State.new Cache.attach Connection.needs_ping
    Connection.has_ping_timed_out Connections.send
two_waiting = refl

two_requested : Map.keys downloading.router.blockchain_manager.getdata_request_info ≡ 2 ∷ 3 ∷ []
unfolding start submit get_successors turn receive is_idle received_now ℕ_discrete addr_eq
    Handler.start Handler.visit State.new Cache.attach Connection.needs_ping
    Connection.has_ping_timed_out Connections.send
two_requested = refl

downloading-Reached : Reached downloading
downloading-Reached = step-Reached tick_interval _ (
    step-Reached receive_blockchain_request asked (
      call-Reached informed (
        step-Reached _ greeted (
          step-Reached tick_interval _ (
            step-Reached _ _ (
              step-Reached _ _
                (step-Reached tick_interval fresh (submitted 5 (7 ∷ 7 ∷ []) begin))))))))

Reach-IsWorking_example : IsWorking lib downloading
Reach-IsWorking_example =
    Reach-IsWorking lib (linked_map hash_eq) (linked_map hash_eq) (linked_set hash_eq) codec config
      0 downloading downloading-Reached

one_waits : length fresh.transaction_manager_rx + 1 ≡ 2
unfolding start submit
one_waits = refl

-- Another transaction waits already.
submit-IsCached_example :
    (s' : Adaptor) × (drain lib env
        (linked_map hash_eq)
        (linked_map hash_eq)
        (linked_set hash_eq)
        (6 ∷ 7 ∷ [])
        (submit 5 (8 ∷ []) fresh)
      ≡ some s')
    × (Map.contains_key hash_eq 1 s'.router.transaction_manager.transactions ≡ true)
    × (s'.transaction_manager_rx ≡ [])
submit-IsCached_example =
    submit-IsCached lib env (linked_map hash_eq) (linked_map hash_eq) (linked_set hash_eq) 5
      (6 ∷ 7 ∷ []) (8 ∷ []) (8 ∷ []) fresh refl (omega arith, (omega arith, tt)) (sym one_waits)

abbrev parsed : GetSuccessorsRequest
parsed = record { anchor = 1; processed_block_hashes = [] }

parse_request_ok : Rpc.parse_request codec request ≡ ok parsed
unfolding Rpc.parse_request
parse_request_ok = refl

informed-Reached : Reached informed
informed-Reached = step-Reached _ greeted (
    step-Reached tick_interval _ (
      step-Reached _ _
        (step-Reached _ _ (step-Reached tick_interval fresh (submitted 5 (7 ∷ 7 ∷ []) begin)))))

informed-IsValid : IsValid lib informed.router.blockchain_manager.blockchain
informed-IsValid =
    (Reach-IsWorking lib (linked_map hash_eq) (linked_map hash_eq) (linked_set hash_eq) codec config
      0 informed informed-Reached).running.valid

nothing_waits : informed.blockchain_manager_rx ≡ []
unfolding start submit turn receive is_idle received_now ℕ_discrete addr_eq Handler.start State.new
    Cache.attach Connection.needs_ping Connection.has_ping_timed_out Connections.send
nothing_waits = refl

two_next : (response_of lib informed parsed).next ≡ header 2 1 ∷ header 3 2 ∷ []
unfolding generations below start submit turn receive is_idle received_now ℕ_discrete addr_eq
    Handler.start State.new Cache.attach Connection.needs_ping Connection.has_ping_timed_out
    Connections.send
two_next = refl

soon : elapsed_secs 6 5 ≤ informed.adapter_state.idle_seconds
unfolding start submit turn receive is_idle received_now ℕ_discrete addr_eq Handler.start State.new
    Cache.attach Connection.needs_ping Connection.has_ping_timed_out Connections.send
soon = omega arith

get_successors-AreAwaited_example :
    (s1 : Adaptor) × (get_successors lib codec
        (length informed.router.blockchain_manager.blockchain.header_cache.headers)
        5
        request
        informed
      ≡ some (s1, Rpc.answer codec (ok (response_of lib informed parsed))))
    × (((response_of lib informed parsed).next ≡ [])
        ⊎ ((s2 : Adaptor) × (turn lib env
                (linked_map hash_eq)
                (linked_map hash_eq)
                (linked_set hash_eq)
                6
                receive_blockchain_request
                s1
              ≡ some s2)
            × All
                (IsAwaited lib
                  (linked_map hash_eq)
                  (linked_set hash_eq)
                  s2.router.blockchain_manager)
                (response_of lib informed parsed).next))
get_successors-AreAwaited_example =
    get_successors-AreAwaited lib env (linked_map hash_eq) (linked_map hash_eq) (linked_set hash_eq)
      codec 5 6 request parsed informed informed-IsValid parse_request_ok refl nothing_waits soon
