-- ===== src/Connection.antt =====
-- src/connection.rs: the state machine of one connection. Times are nanoseconds since the epoch, and
-- `SystemTime::now()` is an argument of the methods that read it.
use bitcoin_adaptor.Base.{
  ℕ, ◌*◌, ◌-◌, Bool, true, false, ◌&&◌, Option, none, some, List, [], ◌∷◌, ◌++◌, ltb, leb,
  if◌then◌else◌,
}
use bitcoin_adaptor.Bitcoin.{NetworkMessage}
use bitcoin_adaptor.AddressBook.{AddressEntry, seed, discovered}

abbrev pub from_secs : ℕ → ℕ
from_secs n = n * 1_000_000_000

abbrev pub ping_interval : ℕ
ping_interval = from_secs 120

abbrev pub ping_timeout : ℕ
ping_timeout = from_secs 30

-- Each state carries the time at which it was entered.
pub data ConnectionState : Type 0 where
  initializing connected handshake_complete adapter_discarded node_disconnected awaiting_addresses :
      ℕ → ConnectionState

pub data PingState : Type 0 where
  expecting_pong : ℕ → ℕ → PingState
  idle : ℕ → PingState

-- The sending half of the channel to the stream's task: what it was sent, and whether the task still
-- holds the receiver.
pub record Writer : Type 0 where
  pub queue : List NetworkMessage
  pub is_open : Bool

pub record Connection : Type 0 where
  pub address_entry : AddressEntry
  pub handle_aborted : Bool
  pub state : ConnectionState
  pub writer : Writer
  pub ping_state : PingState

unfoldable pub new : ℕ → AddressEntry → Connection
new now entry = record {
  address_entry = entry;
  handle_aborted = false;
  state = initializing now;
  writer = record { queue = []; is_open = true };
  ping_state = idle now;
}

-- The connection after `send`, and whether it succeeded.
unfoldable pub send : NetworkMessage → Connection → Connection × Bool
send m c =
    if c.writer.is_open
    then (record c { writer = record { queue = c.writer.queue ++ m ∷ []; is_open = true } }, true)
    else (c, false)

-- The stream's task ends, by its `return` or some time after it was aborted, and drops the receiver.
unfoldable pub close : Connection → Connection
close c = record c { writer = record { queue = c.writer.queue; is_open = false } }

abbrev pub is_seed : Connection → Bool
is_seed c = elim c.address_entry [ seed a ↦ true | discovered a ↦ false ]

unfoldable pub expect_pong : ℕ → ℕ → Connection → Connection
expect_pong now nonce c = record c { ping_state = expecting_pong now nonce }

unfoldable pub pong_received : ℕ → Connection → Connection
pong_received now c = record c { ping_state = idle now }

unfoldable pub set_connected : ℕ → Connection → Connection
set_connected now c = record c { state = connected now }

unfoldable pub completed_handshake : ℕ → Connection → Connection
completed_handshake now c = record c { state = handshake_complete now }

unfoldable pub await_addresses : ℕ → Connection → Connection
await_addresses now c = record c { state = awaiting_addresses now }

unfoldable pub disconnect : ℕ → Connection → Connection
disconnect now c = record c { state = node_disconnected now; handle_aborted = true }

unfoldable pub discard : ℕ → Connection → Connection
discard now c = record c { state = adapter_discarded now; handle_aborted = true }

abbrev pub is_disconnected : Connection → Bool
is_disconnected c = elim c.state [
  | node_disconnected t ↦ true
  | adapter_discarded t ↦ true
  | _ ↦ false
]

abbrev pub is_available : Connection → Bool
is_available c = elim c.state [ handshake_complete t ↦ true | _ ↦ false ]

-- `elapsed()` of a `SystemTime`, an error if that lies in the future.
abbrev pub elapsed : ℕ → ℕ → Option ℕ
elapsed now t = if leb t now then some (now - t) else none

-- `elapsed() > limit`, where a time in the future counts as too long ago.
abbrev pub exceeds : ℕ → ℕ → ℕ → Bool
exceeds now t limit = elim (elapsed now t) [ none ↦ true | some d ↦ ltb limit d ]

unfoldable pub needs_ping : ℕ → Connection → Bool
needs_ping now c =
    elim c.ping_state [ expecting_pong t nonce ↦ false | idle t ↦ exceeds now t ping_interval ]
    && is_available c

unfoldable pub has_ping_timed_out : ℕ → Connection → Bool
has_ping_timed_out now c =
    elim c.ping_state [ expecting_pong t nonce ↦ exceeds now t ping_timeout | idle t ↦ false ]
    && is_available c
