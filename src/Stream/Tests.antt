-- ===== src/Stream/Tests.antt =====
-- Tests of the reading of messages.
use bitcoin_adaptor.Base.{
  All, ℕ, ◌≤◌, ◌≡◌, refl, sym, ap, ◌∙◌, List, [], ◌∷◌, ◌++◌, length, length-append, ok, err, arith,
  none, some, true, inr, ◌⊎◌, ◌==◌, if◌then◌else◌,
}
use bitcoin_adaptor.Bitcoin.{NetworkMessage, verack, ping}
use bitcoin_adaptor.Stream.{
  Decoded, message, incomplete, encode_error, read_message, connect_event, StreamEventKind,
  StreamError,
}
use bitcoin_adaptor.Stream.Bounds.{max_unparsed, read_message-bounded}
use bitcoin_adaptor.Stream.Task.{Network, Peers, Stream, connect, run, handle_stream}
use bitcoin_adaptor.Stream.Events.{IsEnd, AreEnds, run-IsBroken, handle_stream-AreEnds}
use bitcoin_adaptor.Stream.Chunks.{IsCodec, run-encoded}

-- A decoder that takes messages of two bytes.
abbrev two_bytes : List ℕ → Decoded
two_bytes [] = incomplete
two_bytes (a ∷ []) = incomplete
two_bytes (a ∷ b ∷ rest) = message verack 2

read_message-bounded_example :
    length (read_message two_bytes (1 ∷ []) (ok (2 ∷ 3 ∷ []) ∷ [])).1 ≤ max_unparsed
read_message-bounded_example =
    read_message-bounded two_bytes (1 ∷ []) (ok (2 ∷ 3 ∷ []) ∷ []) (omega arith, tt) (omega arith)

-- A codec of two bytes for pings.
abbrev IsPing : NetworkMessage → Type 0
IsPing m = (n : ℕ) × (m ≡ ping n)

abbrev encode_ping : NetworkMessage → List ℕ
encode_ping (ping n) = 9 ∷ n ∷ []
encode_ping m = []

abbrev decode_ping : List ℕ → Decoded
decode_ping [] = incomplete
decode_ping (a ∷ []) = incomplete
decode_ping (a ∷ n ∷ rest) = message (ping n) 2

cut_ping :
    (n : ℕ) (xs ys : List ℕ) (y : ℕ) → 9 ∷ n ∷ [] ≡ xs ++ y ∷ ys → decode_ping xs ≡ incomplete
cut_ping n [] ys y e = refl
cut_ping n (a ∷ []) ys y e = refl
cut_ping n (a ∷ b ∷ xs) ys y e = absurd (omega (arith, ap length e, length-append xs (y ∷ ys)))

IsPing-IsCodec : IsCodec IsPing encode_ping decode_ping
IsPing-IsCodec = record {
  whole = λ m (n, e) rest. rw e refl;
  part = λ m (n, e) xs ys y q. cut_ping n xs ys y (sym (ap encode_ping e) ∙ q);
  fits = λ m (n, e). rw e (omega arith);
}

abbrev calm : Peers
calm = record { write_error = λ m. none; is_receiving = true }

-- Two pings, the first cut in two.
abbrev cut_stream : Stream
cut_stream = record {
  network_messages = verack ∷ [];
  unparsed = 9 ∷ [];
  reads = ok (5 ∷ 9 ∷ []) ∷ ok (6 ∷ []) ∷ [];
  written = [];
}

run-encoded_example :
    ((run decode_ping (calm ∷ calm ∷ []) cut_stream).1 ≡ ping 5 ∷ ping 6 ∷ [])
    × ((run decode_ping (calm ∷ calm ∷ []) cut_stream).2 ≡ [])
run-encoded_example =
    run-encoded IsPing-IsCodec (ping 5 ∷ ping 6 ∷ []) ((5 ∷ 9 ∷ []) ∷ (6 ∷ []) ∷ [])
      (calm ∷ calm ∷ []) cut_stream ((5, refl), ((6, refl), tt)) refl
      ((refl, λ m. refl), ((refl, λ m. refl), tt)) refl refl (omega arith, (omega arith, tt))
      (omega arith)

-- Bytes that are no ping.
abbrev decode_strict : List ℕ → Decoded
decode_strict [] = incomplete
decode_strict (a ∷ bytes) = if a == 9 then decode_ping (9 ∷ bytes) else encode_error a

abbrev broken_stream : Stream
broken_stream = record cut_stream { unparsed = 7 ∷ [] }

run-IsBroken_example :
    ((run decode_strict (calm ∷ calm ∷ []) broken_stream).1 ≡ [])
    × (length (run decode_strict (calm ∷ calm ∷ []) broken_stream).2 ≡ 2)
    × All IsEnd (run decode_strict (calm ∷ calm ∷ []) broken_stream).2
    × ((run decode_strict (calm ∷ calm ∷ []) broken_stream).0.unparsed ≡ 7 ∷ [])
run-IsBroken_example =
    run-IsBroken decode_strict (calm ∷ calm ∷ []) broken_stream (λ m e. cc, (λ m e. cc, tt))
      (inr (refl, (7, refl)))

abbrev reachable : Network
reachable = record {
  direct = some (ok tt);
  parse_uri = λ s. none;
  proxied = λ s. none;
  address_type_not_supported = 0;
}

handle_stream-AreEnds_example :
    ((e : StreamError) × (connect reachable none ≡ err e)
      × ((handle_stream decode_ping reachable none (calm ∷ calm ∷ []) cut_stream).0 ≡ [])
      × ((handle_stream decode_ping reachable none (calm ∷ calm ∷ []) cut_stream).1
          ≡ connect_event e ∷ []))
    ⊎ ((connect reachable none ≡ ok tt)
        × ((events : List StreamEventKind) × ((handle_stream decode_ping reachable none
                (calm ∷ calm ∷ [])
                cut_stream).1
              ≡ StreamEventKind.connected ∷ events)
            × AreEnds 2
                (handle_stream decode_ping reachable none (calm ∷ calm ∷ []) cut_stream).0
                events))
handle_stream-AreEnds_example =
    handle_stream-AreEnds decode_ping reachable none (calm ∷ calm ∷ []) cut_stream

connected_first :
    (handle_stream decode_ping reachable none (calm ∷ calm ∷ calm ∷ []) cut_stream).1
    ≡ StreamEventKind.connected ∷ []
unfolding handle_stream
connected_first = refl
