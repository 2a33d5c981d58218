-- ===== src/Main/Download.antt =====
-- src/main.rs: what a call of `get_successors` reports as next headers gets through to the queue of
-- the blockchain manager.
use bitcoin_adaptor.Base.{
  ◌⊎◌, List-cases, inl, inr, ℕ, ◌≤◌, ◌≡◌, refl, ◌∙◌, true, false, some, List, [], ◌∷◌, All, length,
  arith, ok, map,
}
use bitcoin_adaptor.Base.Set
use bitcoin_adaptor.Base.Linked.{LinkedHashMap, LinkedHashSet}
use bitcoin_adaptor.Bitcoin.{BlockHash, hash_eq, BlockHeader, BitcoinLib}
use bitcoin_adaptor.Adapter.{
  BlockchainManagerRequest, received_now, elapsed_secs, enqueue_new_blocks_to_download,
  prune_blocks,
}
use bitcoin_adaptor.AddressBook.{Environment}
use bitcoin_adaptor.BlockchainState as State
use bitcoin_adaptor.BlockchainState.{BlockchainState}
use bitcoin_adaptor.BlockchainState.Valid.{IsValid}
use bitcoin_adaptor.BlockchainManager.{BlockchainManager, GetDataRequestInfo}
use bitcoin_adaptor.BlockchainManager.Sync as Sync
use bitcoin_adaptor.BlockchainManager.Sync.{is_wanted}
use bitcoin_adaptor.BlockchainManager.Selection.{enqueue_lem, enqueue_rest}
use bitcoin_adaptor.TransactionManager.{TransactionInfo}
use bitcoin_adaptor.GetSuccessors as Handler
use bitcoin_adaptor.GetSuccessors.{
  GetSuccessorsRequest, GetSuccessorsResponse, are_multiple_blocks_allowed,
}
use bitcoin_adaptor.GetSuccessors.Reference.{
  next_headers, successor_blocks, reference, get_successors-reference,
}
use bitcoin_adaptor.Rpc as Rpc
use bitcoin_adaptor.Rpc.{
  Codec, RpcStatus, BtcServiceGetSuccessorsRequest, BtcServiceGetSuccessorsResponse,
}
use bitcoin_adaptor.Router.{handle}
use bitcoin_adaptor.Main.{Adaptor, get_successors, receive, receive_blockchain_request, turn}
use bitcoin_adaptor.Main.Submission.{received-awake}

module _ (btc : BitcoinLib) (request_map : LinkedHashMap GetDataRequestInfo hash_eq)
    (hash_set : LinkedHashSet hash_eq) where
  open btc use {block_hash}

  abbrev enqueued : List BlockHeader → BlockchainManager → BlockchainManager
  enqueued headers m = Sync.enqueue_new_blocks_to_download request_map hash_set btc headers m

  -- The block of a header is cached, queued or requested.
  abbrev pub IsAwaited : BlockchainManager → BlockHeader → Type 0
  IsAwaited m header = is_wanted request_map hash_set btc m (block_hash header) ≡ false

  enqueued-unwanted :
      (headers : List BlockHeader) (m : BlockchainManager) (h : BlockHash)
      → Set.contains hash_eq h (map block_hash headers) ≡ true
      → is_wanted request_map hash_set btc (enqueued headers m) h ≡ false
  enqueued-unwanted headers m h i =
      let (chain, requests) = enqueue_rest request_map hash_set btc headers m in
      rw (chain, requests) (ground (arith, i, enqueue_lem request_map hash_set btc headers m h))

  among :
      (Q : BlockHash → Type 0) (headers : List BlockHeader)
      → ((h : BlockHash) → Set.contains hash_eq h (map block_hash headers) ≡ true → Q h)
      → All (λ k. Q (block_hash k)) headers
  among Q [] f = tt
  among Q (k ∷ headers) f =
      (f (block_hash k) (ground arith), among Q headers (λ h i. f h (ground (arith, i))))

  enqueued-IsAwaited :
      (headers : List BlockHeader) (m : BlockchainManager)
      → All (IsAwaited (enqueued headers m)) headers
  enqueued-IsAwaited headers m =
      among (λ h. is_wanted request_map hash_set btc (enqueued headers m) h ≡ false) headers
        (enqueued-unwanted headers m)

abbrev pub state_of : Adaptor → BlockchainState
state_of s = s.router.blockchain_manager.blockchain

module _ (btc : BitcoinLib) where
  -- The response to a request, as the reference lists it.
  abbrev pub response_of : Adaptor → GetSuccessorsRequest → GetSuccessorsResponse
  response_of s request =
      let blocks =
        successor_blocks btc (state_of s) request.anchor request.processed_block_hashes
          (are_multiple_blocks_allowed s.network (State.height_of (state_of s) request.anchor)) in
      record {
        blocks = blocks;
        next = next_headers btc (state_of s) request.anchor request.processed_block_hashes blocks;
      }

module _ (btc : BitcoinLib) (env : Environment)
    (transaction_map : LinkedHashMap TransactionInfo hash_eq)
    (request_map : LinkedHashMap GetDataRequestInfo hash_eq) (hash_set : LinkedHashSet hash_eq)
    (codec : Codec) where
  abbrev sent : GetSuccessorsRequest → List BlockHeader → List BlockchainManagerRequest
  sent request [] = prune_blocks request.anchor request.processed_block_hashes ∷ []
  sent request (header ∷ rest) =
      enqueue_new_blocks_to_download (header ∷ rest)
      ∷ prune_blocks request.anchor request.processed_block_hashes
      ∷ []

  abbrev after_call : ℕ → GetSuccessorsRequest → List BlockHeader → Adaptor → Adaptor
  after_call now request next s = record s {
    adapter_state = received_now now s.adapter_state;
    blockchain_manager_rx = sent request next;
  }

  handler-sent :
      (request : GetSuccessorsRequest) (next : List BlockHeader) (s : Adaptor)
      → IsValid btc (state_of s)
      → btc.is_beyond_last_checkpoint s.network (State.get_active_chain_tip (state_of s)).height
        ≡ true
      → (response_of btc s request).next ≡ next
      → Handler.get_successors btc
          (length (state_of s).header_cache.headers)
          s.network
          (state_of s)
          request
        ≡ some (ok (response_of btc s request), sent request next)
  handler-sent request [] s valid beyond n =
      get_successors-reference btc (state_of s) valid s.network request
      ∙ rw (reference, beyond, n) refl
  handler-sent request (header ∷ rest) s valid beyond n =
      get_successors-reference btc (state_of s) valid s.network request
      ∙ rw (reference, beyond, n) refl

  call-after_call :
      (now : ℕ) (wire : BtcServiceGetSuccessorsRequest) (request : GetSuccessorsRequest)
      (next : List BlockHeader) (s : Adaptor)
      → IsValid btc (state_of s)
      → Rpc.parse_request codec wire ≡ ok request
      → btc.is_beyond_last_checkpoint s.network (State.get_active_chain_tip (state_of s)).height
        ≡ true
      → (response_of btc s request).next ≡ next
      → s.blockchain_manager_rx ≡ []
      → get_successors btc codec (length (state_of s).header_cache.headers) now wire s
        ≡ some (after_call now request next s, Rpc.answer codec (ok (response_of btc s request)))
  unfolding get_successors Rpc.get_successors
  call-after_call now wire request [] s valid p beyond n empty =
      rw (get_successors, Rpc.get_successors, p, handler-sent request [] s valid beyond n, empty)
        refl
  call-after_call now wire request (header ∷ rest) s valid p beyond n empty =
      rw
        (
          get_successors,
          Rpc.get_successors,
          p,
          handler-sent request (header ∷ rest) s valid beyond n,
          empty,
        )
        refl

  abbrev after_turn : List BlockHeader → List BlockchainManagerRequest → Adaptor → Adaptor
  after_turn next waiting s = record s {
    blockchain_manager_rx = waiting;
    router = record (s.router) {
      blockchain_manager = enqueued btc request_map hash_set next s.router.blockchain_manager;
    };
  }

  -- On a valid state beyond the last checkpoint: a call of `get_successors` with a request that can
  -- be parsed, with fuel for each cached header and an empty channel of requests, answers with the
  -- response of the reference; and if that has next headers, then after one turn that receives a
  -- request, within the idle time after the call, the block of each of them is cached, queued or
  -- requested.
  pub get_successors-AreAwaited :
      (now later : ℕ) (wire : BtcServiceGetSuccessorsRequest) (request : GetSuccessorsRequest)
      (s : Adaptor)
      → IsValid btc (state_of s)
      → Rpc.parse_request codec wire ≡ ok request
      → btc.is_beyond_last_checkpoint s.network (State.get_active_chain_tip (state_of s)).height
        ≡ true
      → s.blockchain_manager_rx ≡ []
      → elapsed_secs later now ≤ s.adapter_state.idle_seconds
      → (s1 : Adaptor) × (get_successors btc codec
            (length (state_of s).header_cache.headers)
            now
            wire
            s
          ≡ some (s1, Rpc.answer codec (ok (response_of btc s request))))
        × (((response_of btc s request).next ≡ [])
            ⊎ ((s2 : Adaptor) × (turn btc env transaction_map request_map hash_set later
                    receive_blockchain_request s1
                  ≡ some s2)
                × All
                    (IsAwaited btc request_map hash_set s2.router.blockchain_manager)
                    (response_of btc s request).next))
  unfolding turn receive handle
  get_successors-AreAwaited now later wire request s valid p beyond empty le =
      let awake = received-awake now later s.adapter_state le in
      elim (List-cases (response_of btc s request).next) [
        | inl n ↦ (
          after_call now request [] s,
          call-after_call now wire request [] s valid p beyond n empty,
          inl n,
        )
        | inr (header, rest, n) ↦ (
          after_call now request (header ∷ rest) s,
          call-after_call now wire request (header ∷ rest) s valid p beyond n empty,
          inr (
            after_turn (header ∷ rest)
                (prune_blocks request.anchor request.processed_block_hashes ∷ [])
                (after_call now request (header ∷ rest) s),
            rw (turn, awake) refl,
            rw n (
                enqueued-IsAwaited btc request_map hash_set (header ∷ rest)
                  s.router.blockchain_manager),
          ),
        )
      ]
