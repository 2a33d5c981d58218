-- ===== src/TransactionManager/Effects.antt =====
-- src/transaction_manager.rs: what the manager does to its channel, and to its cache.
use bitcoin_adaptor.Base.{
  ℕ, ◌≡◌, refl, inl, inr, some, List, [], ◌∷◌, ◌++◌, ◌==◌, ltb, Bool-cases, Option-cases, is_empty,
  length, if◌then◌else◌,
}
use bitcoin_adaptor.Base.Map
use bitcoin_adaptor.Bitcoin.{hash_eq, SocketAddr, Inventory, transaction, NetworkMessage, inv, tx}
use bitcoin_adaptor.Adapter.{Channel}
use bitcoin_adaptor.Adapter.Channels.{IsKept, IsAny}
use bitcoin_adaptor.TransactionManager.{
  TransactionManager, Transactions, send_inv, send_inv_all, flush, advertise_each, advertise_to,
  advertise_all, advertise_txids, tick, serve, serve_each, process_bitcoin_network_message,
  is_advertised, maximum_transaction_per_inv,
}

module _ {C : Type 0} (channel : Channel C) (P : C → Type 0) (kept : IsKept channel IsAny P) where
  send_inv_keeps :
      (a : SocketAddr) (inventory : List Inventory) (c : C)
      → P c
      → P (send_inv channel a inventory c)
  unfolding send_inv
  send_inv_keeps a inventory c p =
      kept.sent (record { address = some a; message = inv inventory }) tt c p

  send_inv_all_keeps :
      (peers : List SocketAddr) (inventory : List Inventory) (c : C)
      → P c
      → P (send_inv_all channel peers inventory c)
  unfolding send_inv_all
  send_inv_all_keeps [] inventory c p = p
  send_inv_all_keeps (a ∷ peers) inventory c p =
      send_inv_all_keeps peers inventory (send_inv channel a inventory c)
        (send_inv_keeps a inventory c p)

  flush_keeps : (inventory : List Inventory) (c : C) → P c → P (flush channel inventory c).1
  unfolding flush
  flush_keeps inventory c p = elim (Bool-cases (length inventory == maximum_transaction_per_inv)) [
    | inl q ↦ rw (flush, q) (send_inv_all_keeps (channel.available_connections c) inventory c p)
    | inr q ↦ rw (flush, q) p
  ]

  advertise_each_keeps :
      (a : SocketAddr) (m : Transactions) (inventory : List Inventory) (c : C)
      → P c
      → P (advertise_each channel a m inventory c).2
  unfolding advertise_each
  advertise_each_keeps a [] inventory c p = p
  advertise_each_keeps a ((id, info) ∷ rest) inventory c p =
      let grown =
        if is_advertised channel a info then inventory else inventory ++ transaction id ∷ [] in
      advertise_each_keeps a rest (flush channel grown c).0 (flush channel grown c).1
        (flush_keeps grown c p)

  advertise_to_keeps :
      (a : SocketAddr) (m : Transactions) (c : C) → P c → P (advertise_to channel a m c).1
  unfolding advertise_to
  advertise_to_keeps a m c p =
      let inventory = (advertise_each channel a m [] c).1 in
      let c' = (advertise_each channel a m [] c).2 in
      elim (Bool-cases (is_empty inventory)) [
        | inl q ↦ rw (advertise_to, q) (advertise_each_keeps a m [] c p)
        | inr q ↦
            rw (advertise_to, q) (send_inv_keeps a inventory c' (advertise_each_keeps a m [] c p))
      ]

  advertise_all_keeps :
      (peers : List SocketAddr) (m : Transactions) (c : C)
      → P c
      → P (advertise_all channel peers m c).1
  unfolding advertise_all
  advertise_all_keeps [] m c p = p
  advertise_all_keeps (a ∷ peers) m c p =
      advertise_all_keeps peers (advertise_to channel a m c).0 (advertise_to channel a m c).1
        (advertise_to_keeps a m c p)

  pub tick_keeps : (now : ℕ) (m : TransactionManager) (c : C) → P c → P (tick channel now m c).1
  unfolding tick advertise_txids
  tick_keeps now m c p = advertise_all_keeps (channel.available_connections c) m.transactions c p

-- The answer to a message goes to its sender, if to anybody.
module _ {C : Type 0} (channel : Channel C) (P : C → Type 0) (a : SocketAddr)
    (sent : (message : NetworkMessage) (c : C)
      → P c
      → P (channel.send (record { address = some a; message = message }) c)) where
  serve_keeps : (m : Transactions) (item : Inventory) (c : C) → P c → P (serve channel a m item c)
  serve_keeps m (transaction id) c p = elim (Option-cases (Map.get hash_eq id m)) [
    | inl e ↦ rw (serve, e) p
    | inr (info, e) ↦ rw (serve, e) (sent (tx info.transaction) c p)
  ]
  serve_keeps m (Inventory.block h) c p = p
  serve_keeps m (Inventory.other k) c p = p

  serve_each_keeps :
      (m : Transactions) (items : List Inventory) (c : C) → P c → P (serve_each channel a m items c)
  unfolding serve_each
  serve_each_keeps m [] c p = p
  serve_each_keeps m (i ∷ items) c p =
      serve_each_keeps m items (serve channel a m i c) (serve_keeps m i c p)

  pub process_message_answers :
      (message : NetworkMessage) (m : TransactionManager) (c : C)
      → P c
      → P (process_bitcoin_network_message channel a message m c).1
  unfolding process_bitcoin_network_message
  process_message_answers message m c p =
      elim message as (λ k. P (process_bitcoin_network_message channel a k m c).1) [
        | NetworkMessage.get_data inventory ↦
            elim (Bool-cases (ltb maximum_transaction_per_inv (length inventory))) [
              | inl q ↦ rw (process_bitcoin_network_message, q) p
              | inr q ↦
                  rw (process_bitcoin_network_message, q)
                    (serve_each_keeps m.transactions inventory c p)
            ]
        | _ ↦ p
      ]

pub process_message_keeps :
    {C : Type 0} (channel : Channel C) (P : C → Type 0) (kept : IsKept channel IsAny P)
    (a : SocketAddr) (message : NetworkMessage) (m : TransactionManager) (c : C)
    → P c
    → P (process_bitcoin_network_message channel a message m c).1
process_message_keeps channel P kept a message m c p =
    process_message_answers channel P a
      (λ message' c' p'. kept.sent (record { address = some a; message = message' }) tt c' p')
      message m c p

-- Messages leave the cache as it is.
pub process_message_same :
    {C : Type 0} (channel : Channel C) (a : SocketAddr) (message : NetworkMessage)
    (m : TransactionManager) (c : C)
    → (process_bitcoin_network_message channel a message m c).0 ≡ m
unfolding process_bitcoin_network_message
process_message_same channel a message m c =
    elim message as (λ k. (process_bitcoin_network_message channel a k m c).0 ≡ m) [
      | NetworkMessage.get_data inventory ↦
          elim (Bool-cases (ltb maximum_transaction_per_inv (length inventory))) [
            | inl q ↦ rw (process_bitcoin_network_message, q) refl
            | inr q ↦ rw (process_bitcoin_network_message, q) refl
          ]
      | _ ↦ refl
    ]
