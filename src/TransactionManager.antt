-- ===== src/TransactionManager.antt =====
-- src/transaction_manager.rs. `SystemTime::now()` is an argument, in nanoseconds.
pub mod Cache
pub mod Effects
pub mod Serving
mod Tests
use bitcoin_adaptor.Base.{
  ℕ, ◌+◌, ◌≡◌, Bool, true, false, not, Option, none, some, List, [], ◌∷◌, ◌++◌, ltb, ◌==◌, same,
  if◌then◌else◌, Result, ok, err, length, is_empty,
}
use bitcoin_adaptor.Base.Map
use bitcoin_adaptor.Base.Set
use bitcoin_adaptor.Base.Linked.{LinkedHashMap}
use bitcoin_adaptor.Bitcoin.{
  Txid, hash_eq, Transaction, SocketAddr, addr_eq, Inventory, transaction, NetworkMessage, inv, tx,
  get_data, BitcoinLib,
}
use bitcoin_adaptor.Adapter.{Command, Channel, ProcessError, invalid_message}
use bitcoin_adaptor.Connection.{from_secs}

abbrev pub tx_cache_timeout_period_secs : ℕ
tx_cache_timeout_period_secs = 600

abbrev pub maximum_transaction_per_inv : ℕ
maximum_transaction_per_inv = 50_000

abbrev pub tx_cache_size : ℕ
tx_cache_size = 250

pub record TransactionInfo : Type 0 where
  pub transaction : Transaction
  pub advertised : List SocketAddr
  pub timeout_at : ℕ

-- A `LinkedHashMap`, oldest first.
abbrev pub Transactions : Type 0
Transactions = List (Txid × TransactionInfo)

pub record TransactionManager : Type 0 where
  pub transactions : Transactions

abbrev pub new_info : ℕ → Transaction → TransactionInfo
new_info now t = record {
  transaction = t;
  advertised = [];
  timeout_at = now + from_secs tx_cache_timeout_period_secs;
}

abbrev pub new : TransactionManager
new = record { transactions = [] }

abbrev pub pop_front : Transactions → Transactions
pop_front [] = []
pop_front (e ∷ m) = m

unfoldable pub make_idle : TransactionManager → TransactionManager
make_idle m = record m { transactions = [] }

unfoldable pub reap : ℕ → TransactionManager → TransactionManager
reap now m = record m {
  transactions = Map.retain (λ id info. not (ltb info.timeout_at now)) m.transactions;
}

module _ (btc : BitcoinLib) (linked : LinkedHashMap TransactionInfo hash_eq) where
  unfoldable pub send_transaction : ℕ → List ℕ → TransactionManager → TransactionManager
  send_transaction now raw_tx m = elim (btc.deserialize_tx raw_tx) [
    | none ↦ m
    | some t ↦
        let kept =
          if length m.transactions == tx_cache_size
          then pop_front m.transactions
          else m.transactions in
        record m { transactions = linked.or_insert (btc.txid t) (new_info now t) kept }
  ]

module _ {C : Type 0} (channel : Channel C) where
  unfoldable pub send_inv : SocketAddr → List Inventory → C → C
  send_inv a inventory c = channel.send (record { address = some a; message = inv inventory }) c

  unfoldable pub send_inv_all : List SocketAddr → List Inventory → C → C
  unfolding send_inv
  send_inv_all [] inventory c = c
  send_inv_all (a ∷ as') inventory c = send_inv_all as' inventory (send_inv a inventory c)

  -- One entry of the inner loop: the entry, the inventory and the channel after it.
  abbrev pub mark : SocketAddr → TransactionInfo → TransactionInfo
  mark a info = record info { advertised = Set.insert addr_eq a info.advertised }

  abbrev pub is_advertised : SocketAddr → TransactionInfo → Bool
  is_advertised a info = Set.contains addr_eq a info.advertised

  -- A full inventory is sent to everybody, and a new one begun.
  unfoldable pub flush : List Inventory → C → List Inventory × C
  unfolding send_inv_all
  flush inventory c =
      if length inventory == maximum_transaction_per_inv
      then ([], send_inv_all (channel.available_connections c) inventory c)
      else (inventory, c)

  unfoldable pub advertise_each :
      SocketAddr → Transactions → List Inventory → C → Transactions × List Inventory × C
  unfolding flush
  advertise_each a [] inventory c = ([], inventory, c)
  advertise_each a ((id, info) ∷ rest) inventory c =
      let info' = if is_advertised a info then info else mark a info in
      let grown = if is_advertised a info then inventory else inventory ++ transaction id ∷ [] in
      let (inventory', c') = flush grown c in
      let (rest', inventory'', c'') = advertise_each a rest inventory' c' in
      ((id, info') ∷ rest', inventory'', c'')

  unfoldable pub advertise_to : SocketAddr → Transactions → C → Transactions × C
  unfolding advertise_each send_inv
  advertise_to a m c =
      let (m', inventory, c') = advertise_each a m [] c in
      (m', if is_empty inventory then c' else send_inv a inventory c')

  unfoldable pub advertise_all : List SocketAddr → Transactions → C → Transactions × C
  unfolding advertise_to
  advertise_all [] m c = (m, c)
  advertise_all (a ∷ as') m c = let (m', c') = advertise_to a m c in advertise_all as' m' c'

  unfoldable pub advertise_txids : TransactionManager → C → TransactionManager × C
  unfolding advertise_all
  advertise_txids m c =
      let (txs, c') = advertise_all (channel.available_connections c) m.transactions c in
      (record m { transactions = txs }, c')

  unfoldable pub tick : ℕ → TransactionManager → C → TransactionManager × C
  unfolding advertise_txids reap
  tick now m c = let (m', c') = advertise_txids m c in (reap now m', c')

  -- The answer to one item of a `getdata` message.
  abbrev pub serve : SocketAddr → Transactions → Inventory → C → C
  serve a m item c = elim item [
    | transaction id ↦ elim (Map.get hash_eq id m) [
      | none ↦ c
      | some info ↦ channel.send (record { address = some a; message = tx info.transaction }) c
    ]
    | _ ↦ c
  ]

  unfoldable pub serve_each : SocketAddr → Transactions → List Inventory → C → C
  serve_each a m [] c = c
  serve_each a m (i ∷ is) c = serve_each a m is (serve a m i c)

  unfoldable pub process_bitcoin_network_message :
      SocketAddr
      → NetworkMessage
      → TransactionManager
      → C
      → TransactionManager × C × Result (Unit {0}) ProcessError
  unfolding serve_each
  process_bitcoin_network_message a message m c = elim message [
    | get_data inventory ↦
        if ltb maximum_transaction_per_inv (length inventory)
        then (m, c, err invalid_message)
        else (m, serve_each a m.transactions inventory c, ok tt)
    | _ ↦ (m, c, ok tt)
  ]
