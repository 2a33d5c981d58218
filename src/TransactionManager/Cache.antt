-- ===== src/TransactionManager/Cache.antt =====
-- src/transaction_manager.rs: the size of the cache, and what is advertised.
use bitcoin_adaptor.Base.{
  ℕ, suc, ◌≤◌, ◌≡◌, refl, ap, ◌∙◌, inl, inr, true, not, List, [], ◌∷◌, ltb, ◌==◌, All,
  if◌then◌else◌, length, arith, Bool-cases, Option-cases,
}
use bitcoin_adaptor.Base.Map
use bitcoin_adaptor.Base.Set
use bitcoin_adaptor.Base.Linked.{LinkedHashMap}
use bitcoin_adaptor.Bitcoin.{hash_eq, SocketAddr, addr_eq, Inventory, BitcoinLib}
use bitcoin_adaptor.Adapter.{Channel}
use bitcoin_adaptor.TransactionManager.{
  TransactionManager, TransactionInfo, Transactions, new, new_info, pop_front, make_idle, reap,
  send_transaction, tick, advertise_txids, advertise_all, advertise_to, advertise_each, flush, mark,
  is_advertised, tx_cache_size,
}

abbrev pub IsBounded : TransactionManager → Type 0
IsBounded m = length m.transactions ≤ tx_cache_size

pub send_transaction-IsBounded :
    (btc : BitcoinLib) (linked : LinkedHashMap TransactionInfo hash_eq) (now : ℕ) (raw : List ℕ)
    (m : TransactionManager)
    → IsBounded m
    → IsBounded (send_transaction btc linked now raw m)
unfolding send_transaction
send_transaction-IsBounded btc linked now raw m b = elim (Option-cases (btc.deserialize_tx raw)) [
  | inl e ↦ rw (send_transaction, e) b
  | inr (t, e) ↦ elim (Bool-cases (length m.transactions == tx_cache_size)) [
    | inr q ↦
        rw (send_transaction, e, q)
          (ground (arith, linked.length-or_insert (btc.txid t) (new_info now t) m.transactions))
    | inl q ↦
        rw (send_transaction, e, q)
          (ground (
            arith,
            popped_less m.transactions,
            linked.length-or_insert (btc.txid t) (new_info now t) (pop_front m.transactions),
          ))
  ]
]
  where
    popped_less :
        (xs : Transactions)
        → length xs ≡ tx_cache_size
        → suc (length (pop_front xs)) ≡ tx_cache_size
    popped_less [] e = ground arith
    popped_less (x ∷ xs) e = e

module _ {C : Type 0} (channel : Channel C) where
  -- Advertising an entry to a peer changes no entry's key.
  length-advertise_each :
      (a : SocketAddr) (m : Transactions) (inventory : List Inventory) (c : C)
      → length (advertise_each channel a m inventory c).0 ≡ length m
  unfolding advertise_each
  length-advertise_each a [] inventory c = refl
  length-advertise_each a ((id, info) ∷ rest) inventory c =
      ap suc (length-advertise_each a rest _ _)

  -- Every entry that went through the loop is advertised to the peer.
  advertise_each-All :
      (a : SocketAddr) (m : Transactions) (inventory : List Inventory) (c : C)
      → All (λ e. is_advertised channel a e.1 ≡ true) (advertise_each channel a m inventory c).0
  unfolding advertise_each
  advertise_each-All a [] inventory c = tt
  advertise_each-All a ((id, info) ∷ rest) inventory c =
      (marked info, advertise_each-All a rest _ _)
    where
      marked :
          (i : TransactionInfo)
          → is_advertised channel a (if is_advertised channel a i then i else mark channel a i)
            ≡ true
      marked i = ground (arith, Set.contains-insert addr_eq a a i.advertised)

  -- Where every entry is advertised to the peer, nothing is left to announce.
  advertise_each-done :
      (a : SocketAddr) (m : Transactions) (c : C)
      → All (λ e. is_advertised channel a e.1 ≡ true) m
      → advertise_each channel a m [] c ≡ (m, [], c)
  unfolding advertise_each flush
  advertise_each-done a [] c all = refl
  advertise_each-done a ((id, info) ∷ rest) c all =
      rw (all.0, advertise_each-done a rest c all.1) refl

  -- After advertising to a peer, advertising again sends nothing to it and changes nothing.
  pub advertise_to-again :
      (a : SocketAddr) (m : Transactions) (c c' : C)
      → advertise_to channel a (advertise_to channel a m c).0 c'
        ≡ ((advertise_to channel a m c).0, c')
  unfolding advertise_to
  advertise_to-again a m c c' = rw (advertise_each-done a _ c' (advertise_each-All a m [] c)) refl

  length-advertise_all :
      (as' : List SocketAddr) (m : Transactions) (c : C)
      → length (advertise_all channel as' m c).0 ≡ length m
  unfolding advertise_all advertise_to
  length-advertise_all [] m c = refl
  length-advertise_all (a ∷ as') m c =
      length-advertise_all as' (advertise_to channel a m c).0 (advertise_to channel a m c).1
      ∙ length-advertise_each a m [] c

  pub tick-IsBounded :
      (now : ℕ) (m : TransactionManager) (c : C) → IsBounded m → IsBounded (tick channel now m c).0
  unfolding tick advertise_txids reap
  tick-IsBounded now m c b = omega (
    arith,
    b,
    length-advertise_all (channel.available_connections c) m.transactions c,
    Map.length-retain-le (λ id info. not (ltb info.timeout_at now))
        (advertise_all channel (channel.available_connections c) m.transactions c).0,
  )

-- One operation of the manager; those on messages leave it as it is.
pub data Step {C : Type 0} (channel : Channel C) (btc : BitcoinLib)
    (linked : LinkedHashMap TransactionInfo hash_eq)
    : TransactionManager → TransactionManager → Type 0 where
  send_step :
      {m : TransactionManager} (now : ℕ) (raw : List ℕ)
      → Step channel btc linked m (send_transaction btc linked now raw m)
  tick_step :
      {m : TransactionManager} (now : ℕ) (c : C)
      → Step channel btc linked m (tick channel now m c).0
  idle_step : {m : TransactionManager} → Step channel btc linked m (make_idle m)

-- The managers reached from a new one.
pub data Reach {C : Type 0} (channel : Channel C) (btc : BitcoinLib)
    (linked : LinkedHashMap TransactionInfo hash_eq) : TransactionManager → Type 0 where
  begin : Reach channel btc linked new
  next :
      {m m' : TransactionManager}
      → Reach channel btc linked m
      → Step channel btc linked m m'
      → Reach channel btc linked m'

Step-IsBounded :
    {C : Type 0} {channel : Channel C} {btc : BitcoinLib}
    {linked : LinkedHashMap TransactionInfo hash_eq} {m m' : TransactionManager}
    → Step channel btc linked m m'
    → IsBounded m
    → IsBounded m'
unfolding make_idle
Step-IsBounded {C} {channel} {btc} {linked} {m} (send_step now raw) b =
    send_transaction-IsBounded btc linked now raw m b
Step-IsBounded {C} {channel} {btc} {linked} {m} (tick_step now c) b =
    tick-IsBounded channel now m c b
Step-IsBounded idle_step b = omega arith

-- Every manager reached from a new one by submitting transactions, by ticks and by going idle has
-- at most `tx_cache_size` transactions.
pub Reach-IsBounded :
    {C : Type 0} (channel : Channel C) (btc : BitcoinLib)
    (linked : LinkedHashMap TransactionInfo hash_eq) (m : TransactionManager)
    → Reach channel btc linked m
    → length m.transactions ≤ tx_cache_size
Reach-IsBounded channel btc linked m begin = omega arith
Reach-IsBounded channel btc linked m (next r st) =
    Step-IsBounded st (Reach-IsBounded channel btc linked _ r)
