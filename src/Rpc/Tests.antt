-- ===== src/Rpc/Tests.antt =====
-- Tests of the gRPC service, over a codec that writes a number as a byte and ends each transaction
-- with a zero.
use bitcoin_adaptor.Base.{
  ℕ, zero, suc, ◌≤◌, ◌≡◌, refl, ap, ◌∙◌, Option, none, some, List, [], ◌∷◌, ◌++◌, length, map,
  arith, Result, err,
}
use bitcoin_adaptor.Bitcoin.{regtest, BlockHash, BlockHeader, Block, Transaction}
use bitcoin_adaptor.Samples.{lib}
use bitcoin_adaptor.Adapter as Adapter
use bitcoin_adaptor.Adapter.{AdapterState, BlockchainManagerRequest, received_now, is_idle}
use bitcoin_adaptor.HeaderCache as Cache
use bitcoin_adaptor.BlockchainState.{BlockchainState, new}
use bitcoin_adaptor.BlockchainState.History.{new-IsValid}
use bitcoin_adaptor.GetSuccessors as Handler
use bitcoin_adaptor.GetSuccessors.{GetSuccessorsRequest, GetSuccessorsResponse, Status}
use bitcoin_adaptor.Rpc.{
  Codec, RpcStatus, failed_to_parse_anchor, BtcServiceGetSuccessorsRequest,
  BtcServiceGetSuccessorsResponse, get_successors, parse_request,
}
use bitcoin_adaptor.Rpc.Wire.{IsFaithful, sent, IsAnswer, get_successors-IsAnswer}

abbrev from_slice : List ℕ → Option BlockHash
from_slice [] = none
from_slice (h ∷ rest) = some h

abbrev encode_header : BlockHeader → List ℕ
encode_header h = h.version ∷ h.prev_blockhash ∷ h.merkle_root ∷ h.time ∷ h.bits ∷ h.nonce ∷ []

abbrev encode_txs : List Transaction → List ℕ
encode_txs [] = []
encode_txs (t ∷ ts) = map suc t ++ 0 ∷ encode_txs ts

abbrev cons_first : ℕ → List Transaction → List Transaction
cons_first n [] = (n ∷ []) ∷ []
cons_first n (t ∷ ts) = (n ∷ t) ∷ ts

decode_txs : List ℕ → List Transaction
decode_txs [] = []
decode_txs (zero ∷ rest) = [] ∷ decode_txs rest
decode_txs (suc n ∷ rest) = cons_first n (decode_txs rest)

decode_tx :
    (t : Transaction) (rest : List ℕ) → decode_txs (map suc t ++ 0 ∷ rest) ≡ t ∷ decode_txs rest
unfolding decode_txs
decode_tx [] rest = refl
decode_tx (n ∷ t) rest = ap (cons_first n) (decode_tx t rest)

decode-encode_txs : (ts : List Transaction) → decode_txs (encode_txs ts) ≡ ts
unfolding decode_txs
decode-encode_txs [] = refl
decode-encode_txs (t ∷ ts) = decode_tx t (encode_txs ts) ∙ ap (λ r. t ∷ r) (decode-encode_txs ts)

abbrev header_of : ℕ → ℕ → ℕ → ℕ → ℕ → ℕ → BlockHeader
header_of a b c d e f = record {
  version = a;
  prev_blockhash = b;
  merkle_root = c;
  time = d;
  bits = e;
  nonce = f;
}

abbrev decode_header : List ℕ → Option BlockHeader
decode_header (a ∷ b ∷ c ∷ d ∷ e ∷ f ∷ rest) = some (header_of a b c d e f)
decode_header _ = none

abbrev decode_block : List ℕ → Option Block
decode_block (a ∷ b ∷ c ∷ d ∷ e ∷ f ∷ rest) =
    some (record { header = header_of a b c d e f; txdata = decode_txs rest })
decode_block _ = none

abbrev codec : Codec
codec = record {
  from_slice = from_slice;
  encode_block = λ b. some (encode_header b.header ++ encode_txs b.txdata);
  encode_header = λ h. some (encode_header h);
}

codec-IsFaithful : IsFaithful codec
codec-IsFaithful = record {
  to_slice = λ h. h ∷ [];
  decode_block = decode_block;
  decode_header = decode_header;
  hash_back = λ h. refl;
  block_back = λ b. (
    encode_header b.header ++ encode_txs b.txdata,
    refl,
    ap (λ ts. some (record { header = b.header; txdata = ts })) (decode-encode_txs b.txdata),
  );
  header_back = λ h. (encode_header h, refl, refl);
}

abbrev state : BlockchainState
state = new lib regtest

fuel_suffices : length state.header_cache.headers ≤ 1
unfolding new Cache.new
fuel_suffices = omega arith

abbrev request : GetSuccessorsRequest
request = record { anchor = 1; processed_block_hashes = 2 ∷ [] }

get_successors-IsAnswer_example :
    (result : Result GetSuccessorsResponse Status) × (requests : List BlockchainManagerRequest)
    × (r : Result BtcServiceGetSuccessorsResponse RpcStatus) × (Handler.get_successors lib 1 regtest
          state request
        ≡ some (result, requests))
    × (get_successors codec lib 1 3 regtest state
          (Adapter.new 60)
          (sent codec codec-IsFaithful request)
        ≡ some (received_now 3 (Adapter.new 60), r, requests))
    × IsAnswer codec codec-IsFaithful r result
get_successors-IsAnswer_example =
    get_successors-IsAnswer codec codec-IsFaithful lib 1 3 regtest state (Adapter.new 60) request
      (new-IsValid lib regtest) fuel_suffices

-- A request without an anchor.
abbrev bad_request : BtcServiceGetSuccessorsRequest
bad_request = record { anchor = []; processed_block_hashes = [] }

refused :
    get_successors codec lib 1 3 regtest state (Adapter.new 60) bad_request
    ≡ some (received_now 3 (Adapter.new 60), err failed_to_parse_anchor, [])
unfolding get_successors parse_request
refused = refl
