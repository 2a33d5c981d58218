-- ===== src/TransactionManager/Tests.antt =====
-- Tests of the transaction manager, over a channel that records what is sent.
use bitcoin_adaptor.Base.{◌≡◌, [], ◌∷◌, refl}
use bitcoin_adaptor.Base.Linked.{linked_map}
use bitcoin_adaptor.Bitcoin.{hash_eq}
use bitcoin_adaptor.Samples.{lib, peer, log}
use bitcoin_adaptor.TransactionManager.{
  TransactionManager, Transactions, new, new_info, send_transaction, advertise_to,
}
use bitcoin_adaptor.Base.{some, ok}
use bitcoin_adaptor.Bitcoin.{Transaction, get_data, transaction, tx}
use bitcoin_adaptor.TransactionManager.{process_bitcoin_network_message}
use bitcoin_adaptor.TransactionManager.Serving.{get_data-send_transaction}
use bitcoin_adaptor.TransactionManager.Cache.{begin, advertise_to-again}

abbrev one : TransactionManager
one = send_transaction lib (linked_map hash_eq) 0 (1 ∷ 2 ∷ []) new

abbrev entries : Transactions
entries = (2, new_info 0 (1 ∷ 2 ∷ [])) ∷ []

advertise_to-again_example :
    advertise_to log (peer 1) (advertise_to log (peer 1) entries []).0 []
    ≡ ((advertise_to log (peer 1) entries []).0, [])
advertise_to-again_example = advertise_to-again log (peer 1) entries [] []

get_data-send_transaction_example :
    let m' = send_transaction lib (linked_map hash_eq) 0 (1 ∷ 2 ∷ []) new in
    (u : Transaction) × (lib.txid u ≡ lib.txid (1 ∷ 2 ∷ []))
    × (process_bitcoin_network_message log
          (peer 1)
          (get_data (transaction (lib.txid (1 ∷ 2 ∷ [])) ∷ []))
          m'
          []
        ≡ (m', log.send (record { address = some (peer 1); message = tx u }) [], ok tt))
get_data-send_transaction_example =
    get_data-send_transaction lib log (linked_map hash_eq) new 0 (1 ∷ 2 ∷ []) (1 ∷ 2 ∷ []) (peer 1)
      [] begin refl
