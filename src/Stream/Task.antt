-- ===== src/Stream/Task.antt =====
-- src/stream.rs: how a stream is connected, one iteration of it, and the task `handle_stream`. The
-- outcomes of the socket's operations are arguments.
use bitcoin_adaptor.Base.{
  ℕ, Bool, Option, none, some, List, [], ◌∷◌, ◌++◌, Result, ok, err, if◌then◌else◌,
}
use bitcoin_adaptor.Bitcoin.{NetworkMessage}
use bitcoin_adaptor.Http.{Uri}
use bitcoin_adaptor.Stream.{
  StreamEventKind, StreamError, io, socks, timeout, unable_to_receive_messages, IoError, Decoded,
  Read, read_message, connect_event, disconnects,
}

-- What connecting meets. An attempt that is not there ran into its timeout; a socket is not modelled.
pub record Network : Type 0 where
  -- `TcpStream::connect`
  pub direct : Option (Result (Unit {0}) IoError)
  -- `parse::<Uri>()`
  pub parse_uri : List ℕ → Option Uri
  -- `Socks5Stream::connect` to the proxy at an authority
  pub proxied : List ℕ → Option (Result (Unit {0}) ℕ)
  -- `SocksError::AddressTypeNotSupported`
  pub address_type_not_supported : ℕ

-- `Socks5Stream::connect` within the timeout.
abbrev pub proxy_result : Option (Result (Unit {0}) ℕ) → Result (Unit {0}) StreamError
proxy_result none = err timeout
proxy_result (some (ok _)) = ok tt
proxy_result (some (err k)) = err (socks k)

-- The second attempt, through the proxy, after a first that failed with `e`.
abbrev pub connect_through : Network → IoError → Option (List ℕ) → Result (Unit {0}) StreamError
connect_through net e none = err (io e)
connect_through net e (some proxy) = elim (net.parse_uri proxy) [
  | none ↦ err (socks net.address_type_not_supported)
  | some uri ↦ elim uri.authority [
    | none ↦ err (socks net.address_type_not_supported)
    | some authority ↦ proxy_result (net.proxied authority)
  ]
]

unfoldable pub connect : Network → Option (List ℕ) → Result (Unit {0}) StreamError
connect net socks_proxy = elim net.direct [
  | none ↦ err timeout
  | some (ok _) ↦ ok tt
  | some (err e) ↦ connect_through net e socks_proxy
]

-- `Stream`: what is still to be sent, the unparsed bytes, the reads that the socket will give, and
-- what was written to it.
pub record Stream : Type 0 where
  pub network_messages : List NetworkMessage
  pub unparsed : List ℕ
  pub reads : List Read
  pub written : List NetworkMessage

-- What an iteration meets: the error of a write, if any, and whether the router still receives.
pub record Peers : Type 0 where
  pub write_error : NetworkMessage → Option IoError
  pub is_receiving : Bool

-- `try_recv` and `write_message`
unfoldable pub write_next : Peers → Stream → Stream × Option StreamError
write_next peers s = elim s.network_messages [
  | [] ↦ (s, none)
  | m ∷ rest ↦ elim (peers.write_error m) [
    | some e ↦ (record s { network_messages = rest }, some (io e))
    | none ↦ (record s { network_messages = rest; written = s.written ++ m ∷ [] }, none)
  ]
]

-- The message of the reading half, if one was read and delivered.
unfoldable pub read_next :
    (List ℕ → Decoded) → Peers → Stream → Stream × Option NetworkMessage × Option StreamError
unfolding read_message
read_next decode peers s =
    let (result, unparsed, reads) = read_message decode s.unparsed s.reads in
    let s' = record s { unparsed = unparsed; reads = reads } in
    elim result [
      | err e ↦ (s', none, some e)
      | ok m ↦
          if peers.is_receiving
          then (s', some m, none)
          else (s', none, some unable_to_receive_messages)
    ]

unfoldable pub tick :
    (List ℕ → Decoded) → Peers → Stream → Stream × Option NetworkMessage × Option StreamError
unfolding write_next read_next
tick decode peers s =
    let (s1, write_result) = write_next peers s in
    elim write_result [ some e ↦ (s1, none, some e) | none ↦ read_next decode peers s1 ]

-- The event of an iteration.
abbrev pub tick_event : Option StreamError → List StreamEventKind
tick_event none = []
tick_event (some e) = if disconnects e then StreamEventKind.disconnected ∷ [] else []

-- The loop of `handle_stream`, which does not end: so many iterations of it, with the messages and
-- the events that they send.
unfoldable pub run :
    (List ℕ → Decoded) → List Peers → Stream → Stream × List NetworkMessage × List StreamEventKind
unfolding tick
run decode [] s = (s, [], [])
run decode (peers ∷ later) s =
    let (s1, delivered, e) = tick decode peers s in
    let (s2, messages, events) = run decode later s1 in
    (s2, elim delivered [ none ↦ messages | some m ↦ m ∷ messages ], tick_event e ++ events)

-- The events of the task over some iterations of its loop.
unfoldable pub handle_stream :
    (List ℕ → Decoded)
    → Network
    → Option (List ℕ)
    → List Peers
    → Stream
    → List NetworkMessage × List StreamEventKind
unfolding connect run
handle_stream decode net socks_proxy peers s = elim (connect net socks_proxy) [
  | err e ↦ ([], connect_event e ∷ [])
  | ok _ ↦
      let (s', messages, events) = run decode peers s in
      (messages, StreamEventKind.connected ∷ events)
]
