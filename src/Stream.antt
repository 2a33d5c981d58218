-- ===== src/Stream.antt =====
-- src/stream.rs: the events of a stream, and the loop that reads one message from the bytes of a
-- socket. The decoder is an argument, and so are the results of the reads, in their order.
pub mod Bounds
pub mod Task
pub mod Chunks
pub mod Events
mod Tests
use bitcoin_adaptor.Base.{
  ℕ, zero, suc, ◌+◌, ◌*◌, Bool, true, false, List, [], ◌∷◌, ◌++◌, ltb, Result, ok, err, length,
}
use bitcoin_adaptor.Bitcoin.{NetworkMessage}

pub data StreamEventKind : Type 0 where
  connected disconnected failed_to_connect : StreamEventKind

abbrev pub stream_buffer_size : ℕ
stream_buffer_size = 64 * 1024

abbrev pub max_raw_message_size : ℕ
max_raw_message_size = 40 * 1024 * 1024

-- The kinds of `io::Error` that the source tells apart.
pub data IoError : Type 0 where
  would_block unexpected_eof : IoError
  other_io : ℕ → IoError

pub data StreamError : Type 0 where
  socks encode : ℕ → StreamError
  io : IoError → StreamError
  unable_to_receive_messages timeout too_large : StreamError

-- `deserialize_partial`: a message with the number of bytes that it took; or an unexpected end of
-- the input; or another error, of the reader or of the encoding.
pub data Decoded : Type 0 where
  message : NetworkMessage → ℕ → Decoded
  incomplete : Decoded
  io_error : IoError → Decoded
  encode_error : ℕ → Decoded

-- `try_read` into a buffer of `stream_buffer_size`: the bytes, none at the end of the stream.
abbrev pub Read : Type 0
Read = Result (List ℕ) IoError

abbrev pub drop : {A : Type 0} → ℕ → List A → List A
drop zero xs = xs
drop (suc n) [] = []
drop (suc n) (x ∷ xs) = drop n xs

abbrev pub is_oversized : List ℕ → Bool
is_oversized unparsed = ltb (max_raw_message_size + stream_buffer_size) (length unparsed)

-- The result, the bytes that stay unparsed, and the reads that are left. A socket with no more reads
-- scheduled would block.
unfoldable pub read_message :
    (List ℕ → Decoded) → List ℕ → List Read → Result NetworkMessage StreamError × List ℕ × List Read
read_message decode unparsed [] = elim (is_oversized unparsed) [
  | true ↦ (err too_large, unparsed, [])
  | false ↦ elim (decode unparsed) [
    | incomplete ↦ (err (io would_block), unparsed, [])
    | io_error e ↦ (err (io e), unparsed, [])
    | encode_error e ↦ (err (encode e), unparsed, [])
    | message m n ↦ (ok m, drop n unparsed, [])
  ]
]
read_message decode unparsed (r ∷ reads) = elim (is_oversized unparsed) [
  | true ↦ (err too_large, unparsed, r ∷ reads)
  | false ↦ elim (decode unparsed) [
    | incomplete ↦ elim r [
      | err e ↦ (err (io e), unparsed, reads)
      | ok [] ↦ (err (io unexpected_eof), unparsed, reads)
      | ok (b ∷ bytes) ↦ read_message decode (unparsed ++ b ∷ bytes) reads
    ]
    | io_error e ↦ (err (io e), unparsed, r ∷ reads)
    | encode_error e ↦ (err (encode e), unparsed, r ∷ reads)
    | message m n ↦ (ok m, drop n unparsed, r ∷ reads)
  ]
]

-- The event for a failed `connect`.
abbrev pub connect_event : StreamError → StreamEventKind
connect_event (io e) = StreamEventKind.failed_to_connect
connect_event timeout = StreamEventKind.failed_to_connect
connect_event e = StreamEventKind.disconnected

-- Whether an error of `tick` ends the connection; else the stream sleeps and goes on.
abbrev pub disconnects : StreamError → Bool
disconnects (io would_block) = false
disconnects e = true
