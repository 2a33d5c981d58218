-- ===== src/BlockchainManager/Data.antt =====
-- src/blockchainmanager.rs: the constants, the errors and the state. The state behind the shared mutex
-- is a field here.
use bitcoin_adaptor.Base.{ℕ, Option, List}
use bitcoin_adaptor.Bitcoin.{BlockHash, SocketAddr}
use bitcoin_adaptor.BlockchainState.{BlockchainState}

abbrev pub max_inv_size : ℕ
max_inv_size = 50_000

abbrev pub getheaders_request_timeout_secs : ℕ
getheaders_request_timeout_secs = 30

abbrev pub max_headers_size : ℕ
max_headers_size = 2_000

abbrev pub max_unsolicited_headers : ℕ
max_unsolicited_headers = 20

abbrev pub Locators : Type 0
Locators = List BlockHash × BlockHash

pub data ReceivedHeadersMessageError : Type 0 where
  unknown_peer received_too_many_headers received_too_many_unsolicited_headers
        received_invalid_header :
      ReceivedHeadersMessageError

pub data ReceivedInvMessageError : Type 0 where
  unknown_peer too_much_inventory : ReceivedInvMessageError

pub data ReceivedBlockMessageError : Type 0 where
  unknown_peer unknown_block block_not_added : ReceivedBlockMessageError

pub record PeerInfo : Type 0 where
  pub socket : SocketAddr
  pub height : ℕ
  pub tip : BlockHash

pub record GetHeadersRequest : Type 0 where
  pub locators : Locators
  pub sent_at : Option ℕ

pub record GetDataRequestInfo : Type 0 where
  pub socket : SocketAddr
  pub sent_at : Option ℕ

pub record BlockchainManager : Type 0 where
  pub blockchain : BlockchainState
  pub peer_info : List (SocketAddr × PeerInfo)
  pub getdata_request_info : List (BlockHash × GetDataRequestInfo)
  pub getheaders_requests : List (SocketAddr × GetHeadersRequest)
  pub catchup_headers : List SocketAddr
  pub block_sync_queue : List BlockHash
