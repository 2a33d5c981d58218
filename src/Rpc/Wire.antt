-- ===== src/Rpc/Wire.antt =====
-- src/rpc_server.rs: the wire is faithful, and a call wakes the adapter.
use bitcoin_adaptor.Base.{
  ℕ, ◌≤◌, ◌≡◌, refl, Option, some, List, [], ◌∷◌, map, length, Result, ok, err,
}
use bitcoin_adaptor.Bitcoin.{BlockHash, BlockHeader, Block, BitcoinLib, Network}
use bitcoin_adaptor.Adapter.{AdapterState, BlockchainManagerRequest, received_now}
use bitcoin_adaptor.BlockchainState.{BlockchainState}
use bitcoin_adaptor.BlockchainState.Valid.{IsValid}
use bitcoin_adaptor.GetSuccessors as Handler
use bitcoin_adaptor.GetSuccessors.{GetSuccessorsRequest, GetSuccessorsResponse, Status}
use bitcoin_adaptor.GetSuccessors.Handler.{get_successors-returns}
use bitcoin_adaptor.Rpc.{
  Codec, RpcStatus, BtcServiceGetSuccessorsRequest, BtcServiceGetSuccessorsResponse, collect,
  parse_request, encode_response, answer, get_successors, handler,
}

-- A client's side of the codec: every hash can be sent and is read back; every block and header is
-- encoded, and the client reads it back.
pub record IsFaithful (codec : Codec) : Type 0 where
  pub to_slice : BlockHash → List ℕ
  pub decode_block : List ℕ → Option Block
  pub decode_header : List ℕ → Option BlockHeader
  pub hash_back : (h : BlockHash) → codec.from_slice (to_slice h) ≡ some h
  pub block_back :
      (b : Block)
      → (bytes : List ℕ) × (codec.encode_block b ≡ some bytes) × (decode_block bytes ≡ some b)
  pub header_back :
      (h : BlockHeader)
      → (bytes : List ℕ) × (codec.encode_header h ≡ some bytes) × (decode_header bytes ≡ some h)

collect-map :
    {A B : Type 0} (f : A → B) (g : B → Option A) (xs : List A)
    → ((x : A) → g (f x) ≡ some x)
    → collect g (map f xs) ≡ some xs
unfolding collect
collect-map f g [] back = refl
collect-map f g (x ∷ xs) back = rw (collect, back x, collect-map f g xs back) refl

collect_back :
    {A B : Type 0} (f : A → Option B) (g : B → Option A) (xs : List A)
    → ((x : A) → (y : B) × (f x ≡ some y) × (g y ≡ some x))
    → (ys : List B) × (collect f xs ≡ some ys) × (collect g ys ≡ some xs)
unfolding collect
collect_back f g [] back = ([], refl, refl)
collect_back f g (x ∷ xs) back =
    let (y, e, d) = back x in
    let (ys, es, ds) = collect_back f g xs back in
    (y ∷ ys, rw (collect, e, es) refl, rw (collect, d, ds) refl)

module _ (codec : Codec) (faithful : IsFaithful codec) where
  open faithful use {to_slice, decode_block, decode_header}

  -- How a client sends a request, and reads a response.
  abbrev pub sent : GetSuccessorsRequest → BtcServiceGetSuccessorsRequest
  sent request = record {
    anchor = to_slice request.anchor;
    processed_block_hashes = map to_slice request.processed_block_hashes;
  }

  abbrev pub IsReadAs : BtcServiceGetSuccessorsResponse → GetSuccessorsResponse → Type 0
  IsReadAs wire response =
      (collect decode_block wire.blocks ≡ some response.blocks)
      × (collect decode_header wire.next ≡ some response.next)

  parse_request-sent :
      (request : GetSuccessorsRequest) → parse_request codec (sent request) ≡ ok request
  unfolding parse_request
  parse_request-sent request =
      rw
        (
          parse_request,
          faithful.hash_back request.anchor,
          collect-map to_slice codec.from_slice request.processed_block_hashes faithful.hash_back,
        )
        refl

  encode_response_back :
      (response : GetSuccessorsResponse)
      → (wire : BtcServiceGetSuccessorsResponse) × (encode_response codec response ≡ ok wire)
        × IsReadAs wire response
  unfolding encode_response
  encode_response_back response =
      let (blocks, e, d) =
        collect_back codec.encode_block decode_block response.blocks faithful.block_back in
      let (next, e', d') =
        collect_back codec.encode_header decode_header response.next faithful.header_back in
      (record { blocks = blocks; next = next }, rw (encode_response, e, e') refl, (d, d'))

  -- What a client reads: the handler's response, or its error.
  abbrev pub IsAnswer :
      Result BtcServiceGetSuccessorsResponse RpcStatus
      → Result GetSuccessorsResponse Status
      → Type 0
  IsAnswer r (ok response) =
      (wire : BtcServiceGetSuccessorsResponse) × (r ≡ ok wire) × IsReadAs wire response
  IsAnswer r (err e) = r ≡ err (handler e)

  answer-IsAnswer :
      (result : Result GetSuccessorsResponse Status) → IsAnswer (answer codec result) result
  answer-IsAnswer (ok response) = encode_response_back response
  answer-IsAnswer (err e) = refl

  -- Over a codec that reads back what it writes: on a valid state, with fuel for the cached headers, a
  -- call returns; the client reads the answer that the handler gives to the request that it sent, and
  -- the requests to the router are the handler's.
  pub get_successors-IsAnswer :
      (btc : BitcoinLib) (fuel now : ℕ) (network : Network) (s : BlockchainState)
      (adapter_state : AdapterState) (request : GetSuccessorsRequest)
      → IsValid btc s
      → length s.header_cache.headers ≤ fuel
      → (result : Result GetSuccessorsResponse Status) × (requests : List BlockchainManagerRequest)
        × (r : Result BtcServiceGetSuccessorsResponse RpcStatus) × (Handler.get_successors btc fuel
              network s request
            ≡ some (result, requests))
        × (get_successors codec btc fuel now network s adapter_state (sent request)
            ≡ some (received_now now adapter_state, r, requests))
        × IsAnswer r result
  unfolding get_successors
  get_successors-IsAnswer btc fuel now network s adapter_state request valid le =
      let ((result, requests), e) = get_successors-returns btc s valid fuel network request le in
      (
        result,
        requests,
        answer codec result,
        e,
        rw (get_successors, parse_request-sent request, e) refl,
        answer-IsAnswer result,
      )
