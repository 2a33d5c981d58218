-- ===== src/AddressBook.antt =====
-- src/addressbook.rs. Random choices and name resolution are arguments of the operations that make
-- them.
pub mod Bounds
mod Tests
use bitcoin_adaptor.Base.{
  ℕ, ◌≡◌, Bool, true, false, not, ◌&&◌, ◌||◌, Option, none, some, List, [], ◌∷◌, ◌++◌, ltb, leb,
  same, if◌then◌else◌, Result, ok, err, length, is_empty, keep_if,
}
use bitcoin_adaptor.Base.Set
use bitcoin_adaptor.Config.{Config, network_port}
use bitcoin_adaptor.Bitcoin.{
  Network, bitcoin, testnet, signet, regtest, SocketAddr, addr_eq, is_ipv4, is_ipv6, Address,
  BitcoinLib,
}

abbrev pub max_addr_message_size : ℕ
max_addr_message_size = 1000

pub data AddressBookError : Type 0 where
  addresses_depleted no_seed_addresses_found : AddressBookError
  too_many_addresses : ℕ → ℕ → AddressBookError

pub data AddressEntry : Type 0 where
  seed discovered : SocketAddr → AddressEntry

abbrev pub addr : AddressEntry → SocketAddr
addr (seed a) = a
addr (discovered a) = a

-- A host name is read as its bytes.
pub record AddressBook : Type 0 where
  pub dns_seeds : List (List ℕ)
  pub ipv6_only : Bool
  pub port : ℕ
  pub active_addresses : List SocketAddr
  pub known_addresses : List SocketAddr
  pub min_addresses : ℕ
  pub max_addresses : ℕ
  pub seed_queue : List SocketAddr

abbrev pub address_limits : Network → ℕ × ℕ
address_limits bitcoin = (500, 2000)
address_limits testnet = (100, 1000)
address_limits signet = (1, 1)
address_limits regtest = (1, 1)

unfoldable pub new : Config → AddressBook
new c = record {
  dns_seeds = c.dns_seeds;
  ipv6_only = c.ipv6_only;
  port = network_port c;
  active_addresses = [];
  known_addresses = Set.collect addr_eq c.nodes;
  min_addresses = (address_limits c.network).0;
  max_addresses = (address_limits c.network).1;
  seed_queue = [];
}

abbrev pub has_seeds : AddressBook → Bool
has_seeds b = not (is_empty b.dns_seeds)

abbrev pub size : AddressBook → ℕ
size b = length b.known_addresses

abbrev pub has_enough_addresses : AddressBook → Bool
has_enough_addresses b = leb b.min_addresses (size b)

abbrev pub has_max_address : AddressBook → Bool
has_max_address b = leb b.max_addresses (size b)

-- What one step of the program meets outside it: the random number generator; the resolver, with
-- `to_socket_addrs` of `seed:port`, empty on an error; and whether the system time lies before the
-- epoch.
pub record Environment : Type 0 where
  pub to_socket_addrs : List ℕ → ℕ → List SocketAddr
  pub shuffle : List SocketAddr → List SocketAddr
  pub choose : List SocketAddr → Option SocketAddr
  -- a random `u64`, and the generator's next state
  pub gen : ℕ → ℕ × ℕ
  pub is_system_time_behind : Bool

abbrev pub resolve_all : Environment → AddressBook → List (List ℕ) → List SocketAddr
resolve_all env b [] = []
resolve_all env b (s ∷ ss) =
    keep_if (λ a. not b.ipv6_only || is_ipv6 a) (env.to_socket_addrs s b.port)
    ++ resolve_all env b ss

abbrev pub build_seed_queue : Environment → AddressBook → AddressBook
build_seed_queue env b = record b { seed_queue = env.shuffle (resolve_all env b b.dns_seeds) }

unfoldable pub clear : AddressBook → AddressBook
clear b = record b {
  active_addresses = [];
  known_addresses =
      if has_seeds b then [] else Set.union addr_eq b.known_addresses b.active_addresses;
  seed_queue = [];
}

unfoldable pub add : AddressBook → SocketAddr → AddressBook
add b a =
    if Set.contains addr_eq a b.active_addresses
    then b
    else record b { known_addresses = Set.insert addr_eq a b.known_addresses }

abbrev pub validate_services : BitcoinLib → ℕ → Bool
validate_services btc services = btc.has_network_service services

-- The tests of the loop of `add_many`, each of which skips the address.
abbrev pub is_acceptable : BitcoinLib → AddressBook → SocketAddr → Address → SocketAddr → Bool
is_acceptable btc b sender address a =
    validate_services btc address.services
    && not (b.ipv6_only && is_ipv4 a)
    && not (same addr_eq sender a)

unfoldable pub add_one : BitcoinLib → SocketAddr → Address → AddressBook → AddressBook
unfolding add
add_one btc sender address b = elim address.socket_addr [
  | none ↦ b
  | some a ↦ if is_acceptable btc b sender address a then add b a else b
]

unfoldable pub add_each : BitcoinLib → SocketAddr → List (ℕ × Address) → AddressBook → AddressBook
unfolding add_one
add_each btc sender [] b = b
add_each btc sender ((t, address) ∷ rest) b =
    let next = add_each btc sender rest (add_one btc sender address b) in
    if has_max_address b then b else next

unfoldable pub add_many :
    BitcoinLib
    → SocketAddr
    → List (ℕ × Address)
    → AddressBook
    → AddressBook × Result (Unit {0}) AddressBookError
unfolding add_each
add_many btc sender addresses b =
    if ltb max_addr_message_size (length addresses)
    then (b, err (too_many_addresses (length addresses) max_addr_message_size))
    else (add_each btc sender addresses b, ok tt)

unfoldable pub mark_as_active : AddressBook → SocketAddr → AddressBook
mark_as_active b a = record b {
  active_addresses = Set.insert addr_eq a b.active_addresses;
  known_addresses = Set.remove addr_eq a b.known_addresses;
}

unfoldable pub pop : Environment → AddressBook → AddressBook × Result AddressEntry AddressBookError
unfolding mark_as_active
pop env b = elim (env.choose b.known_addresses) [
  | none ↦ (b, err addresses_depleted)
  | some a ↦ (mark_as_active b a, ok (discovered a))
]

unfoldable pub pop_front_seed : AddressBook → AddressBook × Result AddressEntry AddressBookError
pop_front_seed b = elim b.seed_queue [
  | [] ↦ (b, err no_seed_addresses_found)
  | a ∷ rest ↦ (record b { seed_queue = rest }, ok (seed a))
]

unfoldable pub pop_seed :
    Environment → AddressBook → AddressBook × Result AddressEntry AddressBookError
unfolding pop_front_seed
pop_seed env b = pop_front_seed (if is_empty b.seed_queue then build_seed_queue env b else b)

unfoldable pub remove_from_active : AddressEntry → AddressBook → AddressBook
remove_from_active (seed a) b = b
remove_from_active (discovered a) b = record b {
  active_addresses = Set.remove addr_eq a b.active_addresses;
  known_addresses = Set.insert addr_eq a b.known_addresses;
}

unfoldable pub discard : AddressEntry → AddressBook → AddressBook
unfolding remove_from_active
discard (seed a) b = b
discard (discovered a) b =
    if has_seeds b
    then record b {
      active_addresses = Set.remove addr_eq a b.active_addresses;
      known_addresses = Set.remove addr_eq a b.known_addresses;
    }
    else remove_from_active (discovered a) b
