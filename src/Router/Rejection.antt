-- ===== src/Router/Rejection.antt =====
-- src/router.rs: who sends an invalid message is dropped.
use bitcoin_adaptor.Base.{ℕ, ◌≡◌, ◌⊎◌, inl, inr, Result, ok, err}
use bitcoin_adaptor.Base.Linked.{LinkedHashMap, LinkedHashSet}
use bitcoin_adaptor.Bitcoin.{hash_eq, SocketAddr, NetworkMessage, BitcoinLib}
use bitcoin_adaptor.Adapter.{Command, ProcessError, invalid_message}
use bitcoin_adaptor.Adapter.Channels.{IsKept, IsAny}
use bitcoin_adaptor.AddressBook.{Environment}
use bitcoin_adaptor.ConnectionManager.{ConnectionManager}
use bitcoin_adaptor.ConnectionManager.Messages
use bitcoin_adaptor.ConnectionManager.Departure.{IsGone, discard-IsGone, discard_keeps, send-IsGone}
use bitcoin_adaptor.BlockchainManager as Blocks
use bitcoin_adaptor.BlockchainManager.{GetDataRequestInfo}
use bitcoin_adaptor.BlockchainManager.Effects as BlockEffects
use bitcoin_adaptor.BlockchainManager.Effects.{IsRequest}
use bitcoin_adaptor.TransactionManager as Transactions
use bitcoin_adaptor.TransactionManager.{TransactionInfo}
use bitcoin_adaptor.TransactionManager.Effects as TransactionEffects
use bitcoin_adaptor.Router.{Router, connection_channel, discard_if, dispatch}

channel_keeps_IsGone :
    (Q : Command → Type 0) (now : ℕ) (a : SocketAddr) → IsKept (connection_channel now) Q (IsGone a)
channel_keeps_IsGone Q now a = record {
  sent = λ k q m g. send-IsGone now a k m g;
  discarded = λ b m g. discard_keeps now a b m g;
}

discard_if_keeps :
    {A : Type 0} (now : ℕ) (a b : SocketAddr) (r : Result A ProcessError) (m : ConnectionManager)
    → IsGone a m
    → IsGone a (discard_if now b r m)
discard_if_keeps now a b (ok x) m g = g
discard_if_keeps now a b (err e) m g = discard_keeps now a b m g

discard_if-IsGone :
    {A : Type 0} (now : ℕ) (a : SocketAddr) (r : Result A ProcessError) (m : ConnectionManager)
    → r ≡ err invalid_message
    → IsGone a (discard_if now a r m)
discard_if-IsGone now a r m e = rw (discard_if, e) (discard-IsGone now a m)

module _ (btc : BitcoinLib) (env : Environment)
    (transaction_map : LinkedHashMap TransactionInfo hash_eq)
    (request_map : LinkedHashMap GetDataRequestInfo hash_eq)
    (hash_set : LinkedHashSet hash_eq) where
  module _ (now : ℕ) (a : SocketAddr) (message : NetworkMessage) (r : Router) where
    abbrev first : ConnectionManager × Result (Unit {0}) ProcessError
    first = Messages.process_bitcoin_network_message btc now a message r.connection_manager

    abbrev second : Blocks.BlockchainManager × ConnectionManager × Result (Unit {0}) ProcessError
    second =
        Blocks.process_bitcoin_network_message btc (connection_channel now) now a message
          r.blockchain_manager (discard_if now a first.1 first.0)

    abbrev third :
        Transactions.TransactionManager × ConnectionManager × Result (Unit {0}) ProcessError
    third =
        Transactions.process_bitcoin_network_message (connection_channel now) a message
          r.transaction_manager (discard_if now a second.2 second.1)

    -- One of the three components refuses the message, each in the state in which it meets it.
    abbrev pub IsRefused : Type 0
    IsRefused =
        (first.1 ≡ err invalid_message)
        ⊎ (second.2 ≡ err invalid_message)
        ⊎ (third.2 ≡ err invalid_message)

    second_keeps :
        IsGone a (discard_if now a first.1 first.0) → IsGone a (discard_if now a second.2 second.1)
    second_keeps g = discard_if_keeps now a a second.2 second.1 (
        BlockEffects.process_message_keeps btc (connection_channel now) (IsGone a)
          (channel_keeps_IsGone IsRequest now a) now a message r.blockchain_manager
          (discard_if now a first.1 first.0) g)

    third_keeps :
        IsGone a (discard_if now a second.2 second.1)
        → IsGone a
            (dispatch btc env transaction_map request_map hash_set now a message
              r).connection_manager
    unfolding dispatch
    third_keeps g = discard_if_keeps now a a third.2 third.1 (
        TransactionEffects.process_message_keeps (connection_channel now) (IsGone a)
          (channel_keeps_IsGone IsAny now a) a message r.transaction_manager
          (discard_if now a second.2 second.1) g)

  -- After a message that one of the components refuses, the connection to its sender, if there is one,
  -- is disconnected, whatever the other components did in between.
  pub dispatch-IsGone :
      (now : ℕ) (a : SocketAddr) (message : NetworkMessage) (r : Router)
      → IsRefused now a message r
      → IsGone a
          (dispatch btc env transaction_map request_map hash_set now a message r).connection_manager
  unfolding dispatch
  dispatch-IsGone now a message r (inl e) = third_keeps now a message r (
      second_keeps now a message r
        (discard_if-IsGone now a (first now a message r).1 (first now a message r).0 e))
  dispatch-IsGone now a message r (inr (inl e)) =
      third_keeps now a message r
        (discard_if-IsGone now a (second now a message r).2 (second now a message r).1 e)
  dispatch-IsGone now a message r (inr (inr e)) =
      discard_if-IsGone now a (third now a message r).2 (third now a message r).1 e
