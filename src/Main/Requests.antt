-- ===== src/Main/Requests.antt =====
-- src/main.rs: the requests that the calls send to the router.
use bitcoin_adaptor.Base.{
  ℕ, ◌≤◌, ◌≡◌, inl, inr, true, some, List, [], ◌∷◌, ltb, All, All-append, length, length-append,
  arith, Bool-cases, Option-cases, Result-cases, Result, map,
}
use bitcoin_adaptor.Bitcoin.{BlockHeader, BitcoinLib, Network}
use bitcoin_adaptor.Adapter.{
  AdapterState, BlockchainManagerRequest, enqueue_new_blocks_to_download, prune_blocks,
}
use bitcoin_adaptor.HeaderCache as Cache
use bitcoin_adaptor.HeaderCache.{HeaderCache}
use bitcoin_adaptor.BlockchainState.{BlockchainState}
use bitcoin_adaptor.BlockchainState.Valid.{IsValid}
use bitcoin_adaptor.BlockchainManager.Known.{Within, in_list, is_known}
use bitcoin_adaptor.GetSuccessors as Handler
use bitcoin_adaptor.GetSuccessors.{GetSuccessorsRequest}
use bitcoin_adaptor.GetSuccessors.Known.{IsCachedRequest, get_successors-IsCachedRequest}
use bitcoin_adaptor.Rpc as Rpc
use bitcoin_adaptor.Rpc.{
  Codec, RpcStatus, BtcServiceGetSuccessorsRequest, BtcServiceGetSuccessorsResponse,
}
use bitcoin_adaptor.Router.Known.{IsKnownRequest}
use bitcoin_adaptor.Main.{channel_capacity, try_send, try_send_each}

module _ (btc : BitcoinLib) where
  open btc use {block_hash}

  cached-Within :
      (s : BlockchainState) (headers : List BlockHeader)
      → All (λ h. Cache.contains s.header_cache (block_hash h) ≡ true) headers
      → Within (in_list (map block_hash headers)) (is_known s.header_cache)
  cached-Within s [] all h e = cc
  cached-Within s (k ∷ headers) all h e = ground (arith, cached-Within s headers all.1 h)

  pub try_send-All :
      (P : BlockchainManagerRequest → Type 0) (requests rx : List BlockchainManagerRequest)
      → All P requests
      → All P rx
      → All P (try_send_each requests rx)
  try_send-All P [] rx all old = old
  try_send-All P (request ∷ requests) rx all old =
      try_send-All P requests (try_send request rx) all.1
        (elim (Bool-cases (ltb (length rx) channel_capacity)) [
          | inl q ↦ rw (try_send, q) (All-append P rx (request ∷ []) old (all.0, tt))
          | inr q ↦ rw (try_send, q) old
        ])

  pub length-try_send :
      (requests rx : List BlockchainManagerRequest)
      → length rx ≤ channel_capacity
      → length (try_send_each requests rx) ≤ channel_capacity
  length-try_send [] rx le = le
  length-try_send (request ∷ requests) rx le =
      length-try_send requests (try_send request rx)
        (ground (arith, length-append rx (request ∷ [])))

  -- The requests that a call of `get_successors` sends.
  pub call_requests :
      (codec : Codec) (fuel now : ℕ) (network : Network) (s : BlockchainState)
      (adapter_state adapter_state' : AdapterState) (request : BtcServiceGetSuccessorsRequest)
      (answer : Result BtcServiceGetSuccessorsResponse RpcStatus)
      (requests : List BlockchainManagerRequest) (valid : IsValid btc s)
      → Rpc.get_successors codec btc fuel now network s adapter_state request
        ≡ some (adapter_state', answer, requests)
      → All (IsCachedRequest btc s valid) requests
  unfolding Rpc.get_successors
  call_requests codec fuel now network s adapter_state adapter_state' request answer requests valid
        e =
      elim (Result-cases (Rpc.parse_request codec request)) [
        | inr (x, q) ↦
            let e' : [] ≡ requests = ground (arith, rw (Rpc.get_successors, q) at e) in rw (← e') tt
        | inl (parsed, q) ↦ elim (Option-cases (Handler.get_successors btc fuel network s parsed)) [
          | inl g ↦ absurd (ground (arith, rw (Rpc.get_successors, q, g) at e))
          | inr ((result, sent), g) ↦
              let e' : sent ≡ requests = ground (arith, rw (Rpc.get_successors, q, g) at e) in
              rw (← e')
                (get_successors-IsCachedRequest btc s valid fuel network parsed result sent g)
        ]
      ]

  pub known_request :
      (s : BlockchainState) (valid : IsValid btc s) (request : BlockchainManagerRequest)
      → IsCachedRequest btc s valid request
      → IsKnownRequest btc s.header_cache request
  known_request s valid (enqueue_new_blocks_to_download headers) all = cached-Within s headers all
  known_request s valid (prune_blocks anchor processed) all = tt
