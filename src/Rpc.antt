-- ===== src/Rpc.antt =====
-- src/rpc_server.rs: the gRPC service. A request arrives and a response leaves as bytes; parsing and
-- encoding are third-party code. Both calls count as activity, whatever comes of them.
pub mod Wire
mod Tests
use bitcoin_adaptor.Base.{ℕ, Option, none, some, List, [], ◌∷◌, Result, ok, err}
use bitcoin_adaptor.Bitcoin.{BlockHash, BlockHeader, Block, BitcoinLib, Network}
use bitcoin_adaptor.Adapter.{AdapterState, BlockchainManagerRequest, received_now}
use bitcoin_adaptor.BlockchainState.{BlockchainState}
use bitcoin_adaptor.GetSuccessors as Handler
use bitcoin_adaptor.GetSuccessors.{GetSuccessorsRequest, GetSuccessorsResponse, Status}

-- `BlockHash::from_slice`, and `consensus_encode` of blocks and headers.
pub record Codec : Type 0 where
  pub from_slice : List ℕ → Option BlockHash
  pub encode_block : Block → Option (List ℕ)
  pub encode_header : BlockHeader → Option (List ℕ)

-- The `Status` of a failed call.
pub data RpcStatus : Type 0 where
  failed_to_parse_anchor failed_to_read_processed failed_to_encode_block failed_to_encode_header :
      RpcStatus
  handler : Status → RpcStatus

pub record BtcServiceGetSuccessorsRequest : Type 0 where
  pub anchor : List ℕ
  pub processed_block_hashes : List (List ℕ)

pub record BtcServiceGetSuccessorsResponse : Type 0 where
  pub blocks : List (List ℕ)
  pub next : List (List ℕ)

-- `map` with a fallible function and `collect::<Result<Vec<_>, _>>`, and the loops that push: the
-- first failure is the result.
unfoldable pub collect {ℓ κ} : {A : Type ℓ} {B : Type κ} → (A → Option B) → List A → Option (List B)
collect f [] = some []
collect f (x ∷ xs) = elim (f x) [
  | none ↦ none
  | some y ↦ elim (collect f xs) [ none ↦ none | some ys ↦ some (y ∷ ys) ]
]

-- `TryFrom<BtcServiceGetSuccessorsRequest> for GetSuccessorsRequest`
unfoldable pub parse_request :
    Codec → BtcServiceGetSuccessorsRequest → Result GetSuccessorsRequest RpcStatus
unfolding collect
parse_request codec request = elim (codec.from_slice request.anchor) [
  | none ↦ err failed_to_parse_anchor
  | some anchor ↦ elim (collect codec.from_slice request.processed_block_hashes) [
    | none ↦ err failed_to_read_processed
    | some hashes ↦ ok (record { anchor = anchor; processed_block_hashes = hashes })
  ]
]

-- `TryFrom<GetSuccessorsResponse> for BtcServiceGetSuccessorsResponse`
unfoldable pub encode_response :
    Codec → GetSuccessorsResponse → Result BtcServiceGetSuccessorsResponse RpcStatus
unfolding collect
encode_response codec response = elim (collect codec.encode_block response.blocks) [
  | none ↦ err failed_to_encode_block
  | some blocks ↦ elim (collect codec.encode_header response.next) [
    | none ↦ err failed_to_encode_header
    | some next ↦ ok (record { blocks = blocks; next = next })
  ]
]

-- What a call answers, once the handler did.
abbrev pub answer :
    Codec → Result GetSuccessorsResponse Status → Result BtcServiceGetSuccessorsResponse RpcStatus
answer codec (err e) = err (handler e)
answer codec (ok response) = encode_response codec response

-- The idle state after the call, its answer, and the requests to the router. `none` if the fuel of
-- the handler ran out.
unfoldable pub get_successors :
    Codec
    → BitcoinLib
    → ℕ
    → ℕ
    → Network
    → BlockchainState
    → AdapterState
    → BtcServiceGetSuccessorsRequest
    → Option (
        AdapterState
        × Result BtcServiceGetSuccessorsResponse RpcStatus
        × List BlockchainManagerRequest)
unfolding parse_request encode_response received_now Handler.get_successors
get_successors codec btc fuel now network s adapter_state request =
    elim (parse_request codec request) [
      | err e ↦ some (received_now now adapter_state, err e, [])
      | ok parsed ↦ elim (Handler.get_successors btc fuel network s parsed) [
        | none ↦ none
        | some (result, requests) ↦
            some (received_now now adapter_state, answer codec result, requests)
      ]
    ]

-- The idle state after the call, and the bytes that are sent to the router.
unfoldable pub send_transaction : ℕ → AdapterState → List ℕ → AdapterState × List ℕ
unfolding received_now
send_transaction now adapter_state transaction = (received_now now adapter_state, transaction)
