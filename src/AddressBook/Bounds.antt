-- ===== src/AddressBook/Bounds.antt =====
-- src/addressbook.rs: no address is both known and active, and `add_many` keeps to the limit.
use bitcoin_adaptor.Base.{
  ℕ, suc, ◌≤◌, ◌≡◌, inl, inr, true, false, List, [], ◌∷◌, ltb, length, is_empty, arith, Bool-cases,
  Option-cases, List-cases,
}
use bitcoin_adaptor.Base.Set
use bitcoin_adaptor.Bitcoin.{SocketAddr, addr_eq, Address, BitcoinLib}
use bitcoin_adaptor.AddressBook.{
  AddressBook, AddressEntry, seed, discovered, Config, Environment, size, has_max_address, add,
  add_one, add_each, add_many, mark_as_active, pop, pop_seed, pop_front_seed, build_seed_queue,
  clear, remove_from_active, discard, new, max_addr_message_size, is_acceptable,
}

abbrev pub IsDisjoint : AddressBook → Type 0
IsDisjoint b =
    (a : SocketAddr)
    → Set.contains addr_eq a b.active_addresses ≡ true
    → Set.contains addr_eq a b.known_addresses ≡ false

add-IsDisjoint : (b : AddressBook) (a : SocketAddr) → IsDisjoint b → IsDisjoint (add b a)
unfolding add
add-IsDisjoint b a d k i = ground (arith, d k, Set.contains-insert addr_eq k a b.known_addresses)

add_one-IsDisjoint :
    (btc : BitcoinLib) (sender : SocketAddr) (address : Address) (b : AddressBook)
    → IsDisjoint b
    → IsDisjoint (add_one btc sender address b)
unfolding add_one
add_one-IsDisjoint btc sender address b d = elim (Option-cases address.socket_addr) [
  | inl e ↦ rw (add_one, e) d
  | inr (a, e) ↦ elim (Bool-cases (is_acceptable btc b sender address a)) [
    | inl q ↦ rw (add_one, e, q) (add-IsDisjoint b a d)
    | inr q ↦ rw (add_one, e, q) d
  ]
]

pub add_each-IsDisjoint :
    (btc : BitcoinLib) (sender : SocketAddr) (addresses : List (ℕ × Address)) (b : AddressBook)
    → IsDisjoint b
    → IsDisjoint (add_each btc sender addresses b)
unfolding add_each
add_each-IsDisjoint btc sender [] b d = d
add_each-IsDisjoint btc sender ((t, address) ∷ rest) b d = elim (Bool-cases (has_max_address b)) [
  | inl q ↦ rw (add_each, q) d
  | inr q ↦
      rw (add_each, q)
        (add_each-IsDisjoint btc sender rest (add_one btc sender address b)
          (add_one-IsDisjoint btc sender address b d))
]

pub mark_as_active-IsDisjoint :
    (b : AddressBook) (a : SocketAddr) → IsDisjoint b → IsDisjoint (mark_as_active b a)
unfolding mark_as_active
mark_as_active-IsDisjoint b a d k i = ground (
  arith,
  d k,
  Set.contains-insert addr_eq k a b.active_addresses,
  Set.contains-remove addr_eq k a b.known_addresses,
)

pub remove_from_active-IsDisjoint :
    (e : AddressEntry) (b : AddressBook) → IsDisjoint b → IsDisjoint (remove_from_active e b)
unfolding remove_from_active
remove_from_active-IsDisjoint (seed a) b d k i = d k i
remove_from_active-IsDisjoint (discovered a) b d k i = ground (
  arith,
  d k,
  Set.contains-insert addr_eq k a b.known_addresses,
  Set.contains-remove addr_eq k a b.active_addresses,
)

pub discard-IsDisjoint :
    (e : AddressEntry) (b : AddressBook) → IsDisjoint b → IsDisjoint (discard e b)
unfolding discard
discard-IsDisjoint (seed a) b d k i = d k i
discard-IsDisjoint (discovered a) b d k i = ground (
  arith,
  d k,
  remove_from_active-IsDisjoint (discovered a) b d k,
  Set.contains-remove addr_eq k a b.known_addresses,
  Set.contains-remove addr_eq k a b.active_addresses,
)

pub clear-IsDisjoint : (b : AddressBook) → IsDisjoint (clear b)
unfolding clear
clear-IsDisjoint b k i = ground arith

pub pop-IsDisjoint : (env : Environment) (b : AddressBook) → IsDisjoint b → IsDisjoint (pop env b).0
unfolding pop
pop-IsDisjoint env b d = elim (Option-cases (env.choose b.known_addresses)) [
  | inl e ↦ rw (pop, e) d
  | inr (a, e) ↦ rw (pop, e) (mark_as_active-IsDisjoint b a d)
]

pop_front_seed-IsDisjoint : (b : AddressBook) → IsDisjoint b → IsDisjoint (pop_front_seed b).0
unfolding pop_front_seed
pop_front_seed-IsDisjoint b d = elim (List-cases b.seed_queue) [
  | inl e ↦ rw (pop_front_seed, e) d
  | inr (a, rest, e) ↦ rw (pop_front_seed, e) d
]

pub pop_seed-IsDisjoint :
    (env : Environment) (b : AddressBook) → IsDisjoint b → IsDisjoint (pop_seed env b).0
unfolding pop_seed
pop_seed-IsDisjoint env b d = elim (Bool-cases (is_empty b.seed_queue)) [
  | inl q ↦ rw (pop_seed, q) (pop_front_seed-IsDisjoint (build_seed_queue env b) d)
  | inr q ↦ rw (pop_seed, q) (pop_front_seed-IsDisjoint b d)
]

pub add_many-IsDisjoint :
    (btc : BitcoinLib) (sender : SocketAddr) (addresses : List (ℕ × Address)) (b : AddressBook)
    → IsDisjoint b
    → IsDisjoint (add_many btc sender addresses b).0
unfolding add_many
add_many-IsDisjoint btc sender addresses b d =
    elim (Bool-cases (ltb max_addr_message_size (length addresses))) [
      | inl q ↦ rw (add_many, q) d
      | inr q ↦ rw (add_many, q) (add_each-IsDisjoint btc sender addresses b d)
    ]

pub new-IsDisjoint : (config : Config) → IsDisjoint (new config)
unfolding new
new-IsDisjoint config k i = absurd (ground arith)

-- One operation of the address book; each may meet its own random choices and names.
pub data Step (btc : BitcoinLib) : AddressBook → AddressBook → Type 0 where
  add_many_step :
      {b : AddressBook} (sender : SocketAddr) (addresses : List (ℕ × Address))
      → Step btc b (add_many btc sender addresses b).0
  pop_step : {b : AddressBook} (env : Environment) → Step btc b (pop env b).0
  pop_seed_step : {b : AddressBook} (env : Environment) → Step btc b (pop_seed env b).0
  remove_step : {b : AddressBook} (e : AddressEntry) → Step btc b (remove_from_active e b)
  discard_step : {b : AddressBook} (e : AddressEntry) → Step btc b (discard e b)
  clear_step : {b : AddressBook} → Step btc b (clear b)

-- The books that the operations reach from a new one.
pub data Reach (btc : BitcoinLib) (config : Config) : AddressBook → Type 0 where
  begin : Reach btc config (new config)
  next : {b b' : AddressBook} → Reach btc config b → Step btc b b' → Reach btc config b'

Step-IsDisjoint :
    {btc : BitcoinLib} {b b' : AddressBook} → Step btc b b' → IsDisjoint b → IsDisjoint b'
Step-IsDisjoint {btc} {b} (add_many_step sender addresses) d =
    add_many-IsDisjoint btc sender addresses b d
Step-IsDisjoint {btc} {b} (pop_step env) d = pop-IsDisjoint env b d
Step-IsDisjoint {btc} {b} (pop_seed_step env) d = pop_seed-IsDisjoint env b d
Step-IsDisjoint {btc} {b} (remove_step e) d = remove_from_active-IsDisjoint e b d
Step-IsDisjoint {btc} {b} (discard_step e) d = discard-IsDisjoint e b d
Step-IsDisjoint {btc} {b} clear_step d = clear-IsDisjoint b

-- In every book that the operations reach from a new one, no active address is a known one.
pub Reach-IsDisjoint :
    (btc : BitcoinLib) (config : Config) (b : AddressBook) → Reach btc config b → IsDisjoint b
Reach-IsDisjoint btc config b begin k i = new-IsDisjoint config k i
Reach-IsDisjoint btc config b (next r st) k i =
    Step-IsDisjoint st (Reach-IsDisjoint btc config _ r) k i

-- What adding one address may change.
abbrev IsGrown : AddressBook → AddressBook → Type 0
IsGrown b b' =
    (b'.active_addresses ≡ b.active_addresses)
    × (b'.max_addresses ≡ b.max_addresses)
    × (size b' ≤ suc (size b))
