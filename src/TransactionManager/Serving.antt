-- ===== src/TransactionManager/Serving.antt =====
-- src/transaction_manager.rs: a transaction that is submitted is served.
use bitcoin_adaptor.Base.{
  ℕ, ◌≡◌, refl, ap, ◌∙◌, inl, inr, Bool, not, some, List, [], ◌∷◌, ltb, ◌==◌, All, All-In, In-All,
  if◌then◌else◌, ok, length, arith, Bool-cases, Option-cases,
}
use bitcoin_adaptor.Base.Map
use bitcoin_adaptor.Base.Linked.{LinkedHashMap}
use bitcoin_adaptor.Bitcoin.{
  hash_eq, Txid, Transaction, SocketAddr, Inventory, transaction, tx, get_data, BitcoinLib,
}
use bitcoin_adaptor.Adapter.{Channel}
use bitcoin_adaptor.TransactionManager.{
  TransactionManager, TransactionInfo, Transactions, new_info, pop_front, make_idle, reap,
  send_transaction, tick, advertise_txids, advertise_all, advertise_to, advertise_each, mark,
  is_advertised, tx_cache_size, process_bitcoin_network_message, serve, serve_each,
}
use bitcoin_adaptor.TransactionManager.Cache.{Reach, begin, next, send_step, tick_step, idle_step}

module _ (btc : BitcoinLib) where
  open btc use {txid}

  -- Every cached transaction stands under its id.
  abbrev pub IsKeyed : Transactions → Type 0
  IsKeyed m = All (λ e. txid e.1.transaction ≡ e.0) m

  pop_front-IsKeyed : (m : Transactions) → IsKeyed m → IsKeyed (pop_front m)
  pop_front-IsKeyed [] k = tt
  pop_front-IsKeyed (e ∷ m) k = k.1

  retain-IsKeyed :
      (p : Txid → TransactionInfo → Bool) (m : Transactions) → IsKeyed m → IsKeyed (Map.retain p m)
  retain-IsKeyed p [] k = tt
  retain-IsKeyed p ((id, info) ∷ m) k = elim (Bool-cases (p id info)) [
    | inl q ↦ rw (Map.retain, q) (k.0, retain-IsKeyed p m k.1)
    | inr q ↦ rw (Map.retain, q) (retain-IsKeyed p m k.1)
  ]

  get-IsKeyed :
      (id : Txid) (info : TransactionInfo) (m : Transactions)
      → IsKeyed m
      → Map.get hash_eq id m ≡ some info
      → txid info.transaction ≡ id
  get-IsKeyed id info [] k e = cc
  get-IsKeyed id info ((j, i) ∷ m) k e = ground (arith, k.0, get-IsKeyed id info m k.1)

  module _ (linked : LinkedHashMap TransactionInfo hash_eq) where
    or_insert-IsKeyed :
        (now : ℕ) (t : Transaction) (m : Transactions)
        → IsKeyed m
        → IsKeyed (linked.or_insert (txid t) (new_info now t) m)
    or_insert-IsKeyed now t m k = In-All _ (linked.or_insert (txid t) (new_info now t) m) (λ e i.
        elim (linked.In-or_insert e (txid t) (new_info now t) m i) [
          | inl old ↦ All-In _ e m k old
          | inr q ↦ rw q refl
        ])

    -- The cache that a transaction is put into.
    abbrev room : Transactions → Transactions
    room m = if length m == tx_cache_size then pop_front m else m

    room-IsKeyed : (m : Transactions) → IsKeyed m → IsKeyed (room m)
    room-IsKeyed m k = elim (Bool-cases (length m == tx_cache_size)) [
      | inl q ↦ rw (room, q) (pop_front-IsKeyed m k)
      | inr q ↦ rw (room, q) k
    ]

    send_transaction-IsKeyed :
        (now : ℕ) (raw : List ℕ) (m : TransactionManager)
        → IsKeyed m.transactions
        → IsKeyed (send_transaction btc linked now raw m).transactions
    unfolding send_transaction
    send_transaction-IsKeyed now raw m k = elim (Option-cases (btc.deserialize_tx raw)) [
      | inl e ↦ rw (send_transaction, e) k
      | inr (t, e) ↦
          rw (send_transaction, e)
            (or_insert-IsKeyed now t (room m.transactions) (room-IsKeyed m.transactions k))
    ]

  module _ {C : Type 0} (channel : Channel C) where
    advertise_each-IsKeyed :
        (a : SocketAddr) (m : Transactions) (inventory : List Inventory) (c : C)
        → IsKeyed m
        → IsKeyed (advertise_each channel a m inventory c).0
    unfolding advertise_each
    advertise_each-IsKeyed a [] inventory c k = tt
    advertise_each-IsKeyed a ((id, info) ∷ m) inventory c k =
        (marked, advertise_each-IsKeyed a m _ _ k.1)
      where
        marked :
            txid (if is_advertised channel a info then info else mark channel a info).transaction
            ≡ id
        marked = ground (arith, k.0)

    advertise_all-IsKeyed :
        (peers : List SocketAddr) (m : Transactions) (c : C)
        → IsKeyed m
        → IsKeyed (advertise_all channel peers m c).0
    unfolding advertise_all advertise_to
    advertise_all-IsKeyed [] m c k = k
    advertise_all-IsKeyed (a ∷ peers) m c k =
        advertise_all-IsKeyed peers (advertise_to channel a m c).0 (advertise_to channel a m c).1
          (advertise_each-IsKeyed a m [] c k)

    serve_found :
        (id : Txid) (info : TransactionInfo) (a : SocketAddr) (m : Transactions) (c : C)
        → Map.get hash_eq id m ≡ some info
        → serve channel a m (transaction id) c
          ≡ channel.send (record { address = some a; message = tx info.transaction }) c
    serve_found id info a m c e = rw (serve, e) refl

    pub Reach-IsKeyed :
        (linked : LinkedHashMap TransactionInfo hash_eq) (m : TransactionManager)
        → Reach channel btc linked m
        → IsKeyed m.transactions
    unfolding tick advertise_txids reap make_idle
    Reach-IsKeyed linked m begin = tt
    Reach-IsKeyed linked m (next {m = m0} r (send_step now raw)) =
        send_transaction-IsKeyed linked now raw m0 (Reach-IsKeyed linked m0 r)
    Reach-IsKeyed linked m (next {m = m0} r (tick_step now c)) =
        retain-IsKeyed (λ id info. not (ltb info.timeout_at now))
          (advertise_all channel (channel.available_connections c) m0.transactions c).0
          (advertise_all-IsKeyed (channel.available_connections c) m0.transactions c
            (Reach-IsKeyed linked m0 r))
    Reach-IsKeyed linked m (next r idle_step) = tt

    -- In every manager reached from a new one, once a transaction is submitted that can be decoded, a
    -- `getdata` for its id is answered with a transaction of that id, and leaves the cache as it is.
    pub get_data-send_transaction :
        (linked : LinkedHashMap TransactionInfo hash_eq) (m : TransactionManager) (now : ℕ)
        (raw : List ℕ) (t : Transaction) (a : SocketAddr) (c : C)
        → Reach channel btc linked m
        → btc.deserialize_tx raw ≡ some t
        → let m' = send_transaction btc linked now raw m in
          (u : Transaction) × (txid u ≡ txid t)
          × (process_bitcoin_network_message channel a (get_data (transaction (txid t) ∷ [])) m' c
              ≡ (m', channel.send (record { address = some a; message = tx u }) c, ok tt))
    unfolding process_bitcoin_network_message send_transaction serve_each
    get_data-send_transaction linked m now raw t a c r e =
        let keyed =
          or_insert-IsKeyed linked now t (room linked m.transactions)
            (room-IsKeyed linked m.transactions (Reach-IsKeyed linked m r)) in
        let after = linked.or_insert (txid t) (new_info now t) (room linked m.transactions) in
        elim (Option-cases (Map.get hash_eq (txid t) after)) [
          | inl q ↦ absurd (
              ground (
                arith,
                q,
                linked.get-or_insert (txid t) (txid t) (new_info now t)
                    (room linked m.transactions),
              ))
          | inr (info, q) ↦
              let m' = send_transaction btc linked now raw m in
              let after_eq : m'.transactions ≡ after = rw (send_transaction, e) refl in
              (
                info.transaction,
                get-IsKeyed (txid t) info after keyed q,
                ap (λ c'. (m', c', ok tt))
                    (serve_found (txid t) info a m'.transactions c
                      (ap (Map.get hash_eq (txid t)) after_eq ∙ q)),
              )
        ]
