-- ===== src/Main/Submission.antt =====
-- src/main.rs: a transaction that a client submits gets through to the cache of the transaction
-- manager.
use bitcoin_adaptor.Base.{
  ℕ, ◌+◌, ◌≤◌, ◌≡◌, refl, true, false, Option, none, some, List, [], ◌∷◌, ◌++◌, All, length, arith,
  ◌==◌, if◌then◌else◌,
}
use bitcoin_adaptor.Base.Map
use bitcoin_adaptor.Base.Linked.{LinkedHashMap, LinkedHashSet}
use bitcoin_adaptor.Bitcoin.{hash_eq, Transaction, BitcoinLib}
use bitcoin_adaptor.Adapter.{AdapterState, is_idle, received_now, elapsed_secs}
use bitcoin_adaptor.AddressBook.{Environment}
use bitcoin_adaptor.BlockchainManager.{GetDataRequestInfo}
use bitcoin_adaptor.TransactionManager as Transactions
use bitcoin_adaptor.TransactionManager.{
  TransactionManager, TransactionInfo, new_info, pop_front, tx_cache_size,
}
use bitcoin_adaptor.Router.{handle}
use bitcoin_adaptor.Main.{Adaptor, submit, receive, receive_transaction, turn}

pub received-awake :
    (now later : ℕ) (s : AdapterState)
    → elapsed_secs later now ≤ s.idle_seconds
    → is_idle later (received_now now s) ≡ false
unfolding is_idle received_now
received-awake now later s le = ground arith

module _ (btc : BitcoinLib) (env : Environment)
    (transaction_map : LinkedHashMap TransactionInfo hash_eq)
    (request_map : LinkedHashMap GetDataRequestInfo hash_eq)
    (hash_set : LinkedHashSet hash_eq) where
  -- Turns at which the loop receives a transaction, at the given times.
  pub drain : List ℕ → Adaptor → Option Adaptor
  drain [] s = some s
  drain (now ∷ times) s =
      elim (turn btc env transaction_map request_map hash_set now receive_transaction s) [
        | none ↦ none
        | some s' ↦ drain times s'
      ]

  abbrev IsCached : Transaction → Adaptor → Type 0
  IsCached t s =
      Map.contains_key hash_eq (btc.txid t) s.router.transaction_manager.transactions ≡ true

  -- What a turn makes of an adaptor that is awake and has a transaction waiting.
  abbrev received : ℕ → List ℕ → List (List ℕ) → Adaptor → Adaptor
  received now raw_tx rest s = record s {
    transaction_manager_rx = rest;
    router = record (s.router) {
      transaction_manager =
          Transactions.send_transaction btc transaction_map now raw_tx s.router.transaction_manager;
    };
  }

  turn-received :
      (now : ℕ) (raw_tx : List ℕ) (rest : List (List ℕ)) (s : Adaptor)
      → is_idle now s.adapter_state ≡ false
      → s.transaction_manager_rx ≡ raw_tx ∷ rest
      → turn btc env transaction_map request_map hash_set now receive_transaction s
        ≡ some (received now raw_tx rest s)
  unfolding turn receive handle
  turn-received now raw_tx rest s awake e = ground arith

  send_transaction-IsCached :
      (now : ℕ) (raw_tx : List ℕ) (t : Transaction) (m : TransactionManager)
      → btc.deserialize_tx raw_tx ≡ some t
      → Map.contains_key hash_eq
          (btc.txid t)
          (Transactions.send_transaction btc transaction_map now raw_tx m).transactions
        ≡ true
  unfolding Transactions.send_transaction
  send_transaction-IsCached now raw_tx t m e =
      let kept =
        if length m.transactions == tx_cache_size
        then pop_front m.transactions
        else m.transactions in
      ground (arith, transaction_map.get-or_insert (btc.txid t) (btc.txid t) (new_info now t) kept)

  drain-IsCached :
      (waiting : List (List ℕ)) (times : List ℕ) (raw_tx : List ℕ) (t : Transaction) (s : Adaptor)
      → btc.deserialize_tx raw_tx ≡ some t
      → All (λ now. is_idle now s.adapter_state ≡ false) times
      → length times ≡ length waiting + 1
      → s.transaction_manager_rx ≡ waiting ++ raw_tx ∷ []
      → (s' : Adaptor) × (drain times s ≡ some s')
        × IsCached t s'
        × (s'.transaction_manager_rx ≡ [])
  unfolding drain
  drain-IsCached [] [] raw_tx t s d a n e = absurd (omega arith)
  drain-IsCached [] (now ∷ now' ∷ times) raw_tx t s d a n e = absurd (omega arith)
  drain-IsCached [] (now ∷ []) raw_tx t s d a n e = (
    received now raw_tx [] s,
    rw (drain, turn-received now raw_tx [] s a.0 e) refl,
    send_transaction-IsCached now raw_tx t s.router.transaction_manager d,
    refl,
  )
  drain-IsCached (first ∷ waiting) [] raw_tx t s d a n e = absurd (omega arith)
  drain-IsCached (first ∷ waiting) (now ∷ times) raw_tx t s d a n e =
      let s1 = received now first (waiting ++ raw_tx ∷ []) s in
      let (s', q, cached, empty) =
        drain-IsCached waiting times raw_tx t s1 d a.1 (omega (arith, n)) refl in
      (s', rw (drain, turn-received now first (waiting ++ raw_tx ∷ []) s a.0 e) q, cached, empty)

  -- After a call of `send_transaction` with a transaction that can be decoded, as many turns that
  -- receive one as wait in the channel, all within the idle time after the call, end with the
  -- transaction in the cache and with an empty channel.
  pub submit-IsCached :
      (now : ℕ) (times : List ℕ) (raw_tx : List ℕ) (t : Transaction) (s : Adaptor)
      → btc.deserialize_tx raw_tx ≡ some t
      → All (λ later. elapsed_secs later now ≤ s.adapter_state.idle_seconds) times
      → length times ≡ length s.transaction_manager_rx + 1
      → (s' : Adaptor) × (drain times (submit now raw_tx s) ≡ some s')
        × IsCached t s'
        × (s'.transaction_manager_rx ≡ [])
  unfolding submit
  submit-IsCached now times raw_tx t s d a n =
      drain-IsCached s.transaction_manager_rx times raw_tx t (submit now raw_tx s) d
        (all_awake times a) n refl
    where
      all_awake :
          (times : List ℕ)
          → All (λ later. elapsed_secs later now ≤ s.adapter_state.idle_seconds) times
          → All (λ later. is_idle later (received_now now s.adapter_state) ≡ false) times
      all_awake [] b = tt
      all_awake (later ∷ rest) b =
          (received-awake now later s.adapter_state b.0, all_awake rest b.1)
