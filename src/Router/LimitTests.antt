-- ===== src/Router/LimitTests.antt =====
-- Tests of the open requests: a peer is connected, blocks are queued, and the next tick requests them.
use bitcoin_adaptor.Base.{◌≡◌, refl, inl, inr, none, some, Option-cases, [], ◌∷◌, ℕ_discrete}
use bitcoin_adaptor.Base.Linked.{linked_map, linked_set}
use bitcoin_adaptor.Bitcoin.{hash_eq, addr_eq, regtest, verack}
use bitcoin_adaptor.Samples.{lib, env, config, peer, header}
use bitcoin_adaptor.Adapter.{AdapterState, enqueue_new_blocks_to_download, is_idle}
use bitcoin_adaptor.BlockchainState as State
use bitcoin_adaptor.Connection
use bitcoin_adaptor.Stream.{StreamEventKind}
use bitcoin_adaptor.BlockchainManager.Limits.{IsLimited, requests_to}
use bitcoin_adaptor.Router.{
  Router, Event, stream_event, network_message, blockchain_request, ticked, start_router, round,
  handle,
}
use bitcoin_adaptor.Router.Invariant.{Reach, begin, next}
use bitcoin_adaptor.Router.Limits.{Reach-IsLimited}

abbrev awake : AdapterState
awake = record { last_received_at = some 0; idle_seconds = 60 }

abbrev step : Event → Router → Router
step event r =
    elim (round lib env (linked_map hash_eq) (linked_map hash_eq) (linked_set hash_eq) 5 awake event
      r) [ none ↦ r | some r' ↦ r' ]

abbrev connecting : Router
connecting = step ticked (start_router config 0 (State.new lib regtest))

abbrev connected : Router
connected = step (stream_event (peer 1) StreamEventKind.connected) connecting

abbrev shaken : Router
shaken = step (network_message (peer 1) verack) connected

abbrev queued : Router
queued =
    step (blockchain_request (enqueue_new_blocks_to_download (header 2 1 ∷ header 3 2 ∷ []))) shaken

abbrev requesting : Router
requesting = step ticked queued

two_requests : requests_to (peer 1) requesting.blockchain_manager.getdata_request_info ≡ 2
unfolding start_router State.new round handle is_idle ℕ_discrete addr_eq Connection.needs_ping
    Connection.has_ping_timed_out
two_requests = refl

abbrev Reached : Router → Type 0
Reached r = Reach lib (linked_map hash_eq) (linked_map hash_eq) (linked_set hash_eq) config 0 r

step-Reached : (event : Event) (r : Router) → Reached r → Reached (step event r)
step-Reached event r reached =
    elim (Option-cases (
      round lib env (linked_map hash_eq) (linked_map hash_eq) (linked_set hash_eq) 5 awake event
        r)) [
          | inl q ↦ rw (step, q) reached
          | inr (r', q) ↦ rw (step, q) (next env 5 awake event reached q)
        ]

requesting-Reached : Reached requesting
requesting-Reached = step-Reached ticked queued (
    step-Reached _ shaken
      (step-Reached _ connected (step-Reached _ connecting (step-Reached ticked _ begin))))

Reach-IsLimited_example : IsLimited requesting.blockchain_manager.getdata_request_info
Reach-IsLimited_example =
    Reach-IsLimited lib (linked_map hash_eq) (linked_map hash_eq) (linked_set hash_eq) config 0
      requesting requesting-Reached
