-- ===== src/Stream/Chunks.antt =====
-- src/stream.rs: what is read does not depend on how the bytes arrive.
use bitcoin_adaptor.Base.{
  ℕ, ◌+◌, ◌≤◌, ◌≡◌, refl, sym, ap, ◌∙◌, ◌⊎◌, inl, inr, true, false, Option, none, some, List, [],
  ◌∷◌, ◌++◌, All, length, length-append, arith, List-cases, Result, ok,
}
use mathlib.Core.List.{append_assoc}
use bitcoin_adaptor.Bitcoin.{NetworkMessage}
use bitcoin_adaptor.Stream.{
  Read, Decoded, message, incomplete, is_oversized, read_message, drop, stream_buffer_size,
  max_raw_message_size, StreamError,
}
use bitcoin_adaptor.Stream.Bounds.{length-drop}
use bitcoin_adaptor.Stream.Task.{Stream, Peers, tick, read_next, write_next, run}

-- What `serialize` and `deserialize_partial` promise for the messages of `M`: the whole encoding of a
-- message is decoded, with its length, whatever follows it; a part of it ends too early. The messages
-- are of a size that a stream accepts.
pub record IsCodec (M : NetworkMessage → Type 0) (encode : NetworkMessage → List ℕ)
    (decode : List ℕ → Decoded) : Type 0 where
  pub whole :
      (m : NetworkMessage)
      → M m
      → (rest : List ℕ) → decode (encode m ++ rest) ≡ message m (length (encode m))
  pub part :
      (m : NetworkMessage)
      → M m
      → (xs ys : List ℕ) (y : ℕ) → encode m ≡ xs ++ y ∷ ys
      → decode xs ≡ incomplete
  pub fits : (m : NetworkMessage) → M m → length (encode m) ≤ max_raw_message_size

-- A read that got something, of at most the size of the buffer.
abbrev pub IsChunk : List ℕ → Type 0
IsChunk [] = ⊥
IsChunk (b ∷ bytes) = length (b ∷ bytes) ≤ stream_buffer_size

abbrev pub joined : List (List ℕ) → List ℕ
joined [] = []
joined (c ∷ cs) = c ++ joined cs

abbrev pub reads_of : List (List ℕ) → List Read
reads_of [] = []
reads_of (c ∷ cs) = ok c ∷ reads_of cs

head_tail : (x y : ℕ) (xs ys : List ℕ) → x ∷ xs ≡ y ∷ ys → (x ≡ y) × (xs ≡ ys)
head_tail x y xs ys e = (cc, cc)

-- Of two ways to split a list, one part begins with the other.
prefix-cases :
    (xs us ys vs : List ℕ)
    → xs ++ us ≡ ys ++ vs
    → ((w : List ℕ) × (xs ≡ ys ++ w) × (w ++ us ≡ vs))
      ⊎ ((z : ℕ) × (zs : List ℕ) × (ys ≡ xs ++ z ∷ zs) × (us ≡ (z ∷ zs) ++ vs))
prefix-cases xs us [] vs e = inl (xs, refl, e)
prefix-cases [] us (y ∷ ys) vs e = inr (y, ys, refl, e)
prefix-cases (x ∷ xs) us (y ∷ ys) vs e =
    let (q, e') = head_tail x y (xs ++ us) (ys ++ vs) e in
    elim (prefix-cases xs us ys vs e') [
      | inl (w, p, r) ↦ inl (w, ap (λ t. t ∷ xs) q ∙ ap (λ t. y ∷ t) p, r)
      | inr (z, zs, p, r) ↦ inr (z, zs, ap (λ t. t ∷ ys) (sym q) ∙ ap (λ t. x ∷ t) p, r)
    ]

drop-append : (xs ys : List ℕ) → drop (length xs) (xs ++ ys) ≡ ys
drop-append [] ys = refl
drop-append (x ∷ xs) ys = drop-append xs ys

read_message_done :
    (decode : List ℕ → Decoded) (unparsed : List ℕ) (m : NetworkMessage) (n : ℕ) (reads : List Read)
    → is_oversized unparsed ≡ false
    → decode unparsed ≡ message m n
    → read_message decode unparsed reads ≡ (ok m, drop n unparsed, reads)
unfolding read_message
read_message_done decode unparsed m n [] small d = rw (read_message, small, d) refl
read_message_done decode unparsed m n (r ∷ reads) small d = rw (read_message, small, d) refl

read_message_more :
    (decode : List ℕ → Decoded) (unparsed : List ℕ) (b : ℕ) (bytes : List ℕ) (reads : List Read)
    → is_oversized unparsed ≡ false
    → decode unparsed ≡ incomplete
    → read_message decode unparsed (ok (b ∷ bytes) ∷ reads)
      ≡ read_message decode (unparsed ++ b ∷ bytes) reads
unfolding read_message
read_message_more decode unparsed b bytes reads small d = rw (read_message, small, d) refl

not_oversized :
    (unparsed : List ℕ)
    → length unparsed ≤ max_raw_message_size + stream_buffer_size
    → is_oversized unparsed ≡ false
not_oversized unparsed le = ground arith

module _ {M : NetworkMessage → Type 0} {encode : NetworkMessage → List ℕ}
    {decode : List ℕ → Decoded} (codec : IsCodec M encode decode) where
  -- The next message is there, and the rest of the bytes is still to be read.
  abbrev pub IsRead :
      NetworkMessage → List ℕ → Result NetworkMessage StreamError × List ℕ × List Read → Type 0
  IsRead m rest r =
      (r.0 ≡ ok m)
      × ((chunks : List (List ℕ)) × (r.2 ≡ reads_of chunks)
          × All IsChunk chunks
          × (r.1 ++ joined chunks ≡ rest)
          × (length r.1 ≤ max_raw_message_size + stream_buffer_size))

  IsRead-whole :
      (m : NetworkMessage) (ours : M m) (rest unparsed w : List ℕ) (chunks : List (List ℕ))
      → All IsChunk chunks
      → length unparsed ≤ max_raw_message_size + stream_buffer_size
      → unparsed ≡ encode m ++ w
      → w ++ joined chunks ≡ rest
      → IsRead m rest (read_message decode unparsed (reads_of chunks))
  IsRead-whole m ours rest unparsed w chunks all le p q =
      let n = length (encode m) in
      let d : decode unparsed ≡ message m n = ap decode p ∙ codec.whole m ours w in
      let left : drop n unparsed ≡ w = ap (drop n) p ∙ drop-append (encode m) w in
      rw (read_message_done decode unparsed m n (reads_of chunks) (not_oversized unparsed le) d) (
        refl,
        (
          chunks,
          refl,
          all,
          ap (λ t. t ++ joined chunks) left ∙ q,
          omega (arith, le, length-drop n unparsed),
        ),
      )

  -- Where the bytes at hand and those that will be read are the encoding of a message and a rest, in
  -- whatever chunks they come, reading gives that message and leaves that rest.
  pub read_message-IsRead :
      (m : NetworkMessage) (ours : M m) (rest unparsed : List ℕ) (chunks : List (List ℕ))
      → unparsed ++ joined chunks ≡ encode m ++ rest
      → All IsChunk chunks
      → length unparsed ≤ max_raw_message_size + stream_buffer_size
      → IsRead m rest (read_message decode unparsed (reads_of chunks))
  read_message-IsRead m ours rest unparsed [] e all le =
      elim (prefix-cases unparsed [] (encode m) rest e) [
        | inl (w, p, q) ↦ IsRead-whole m ours rest unparsed w [] all le p q
        | inr (z, zs, p, q) ↦ absurd (nil_cons q)
      ]
    where
      nil_cons : {y : ℕ} {ys : List ℕ} → [] ≡ y ∷ ys → ⊥
      nil_cons k = cc
  read_message-IsRead m ours rest unparsed ([] ∷ chunks) e all le = absurd all.0
  read_message-IsRead m ours rest unparsed ((b ∷ bytes) ∷ chunks) e all le =
      elim (prefix-cases unparsed (joined ((b ∷ bytes) ∷ chunks)) (encode m) rest e) [
        | inl (w, p, q) ↦ IsRead-whole m ours rest unparsed w ((b ∷ bytes) ∷ chunks) all le p q
        | inr (z, zs, p, q) ↦
            let short : length unparsed ≤ max_raw_message_size =
              omega (arith, codec.fits m ours, ap length p, length-append unparsed (z ∷ zs)) in
            let e' = append_assoc unparsed (b ∷ bytes) (joined chunks) ∙ e in
            rw
              (read_message_more decode unparsed b bytes (reads_of chunks)
                (not_oversized unparsed le) (codec.part m ours unparsed zs z p))
              (read_message-IsRead m ours rest (unparsed ++ b ∷ bytes) chunks e' all.1
                (omega (arith, short, all.0, length-append unparsed (b ∷ bytes))))
      ]

  -- The bytes of a sequence of messages.
  abbrev pub encoded : List NetworkMessage → List ℕ
  encoded [] = []
  encoded (m ∷ ms) = encode m ++ encoded ms

  -- An iteration that writes nothing, or without an error, and whose message is received.
  abbrev pub IsCalm : Peers → Type 0
  IsCalm p = (p.is_receiving ≡ true) × ((m : NetworkMessage) → p.write_error m ≡ none)

  write_next_calm :
      (p : Peers) (s : Stream)
      → IsCalm p
      → ((write_next p s).1 ≡ none)
        × ((write_next p s).0.unparsed ≡ s.unparsed)
        × ((write_next p s).0.reads ≡ s.reads)
  unfolding write_next
  write_next_calm p s calm = elim (List-cases s.network_messages) [
    | inl e ↦ rw (write_next, e) (refl, refl, refl)
    | inr (m, rest, e) ↦ rw (write_next, e, calm.1 m) (refl, refl, refl)
  ]

  -- What an iteration does that delivers a message.
  abbrev pub Delivers :
      NetworkMessage → List ℕ → Stream × Option NetworkMessage × Option StreamError → Type 0
  Delivers m rest r =
      (r.1 ≡ some m)
      × (r.2 ≡ none)
      × ((later : List (List ℕ)) × (r.0.reads ≡ reads_of later)
          × All IsChunk later
          × (r.0.unparsed ++ joined later ≡ rest)
          × (length r.0.unparsed ≤ max_raw_message_size + stream_buffer_size))

  read_next-Delivers :
      (m : NetworkMessage) (rest : List ℕ) (p : Peers) (s : Stream)
      → p.is_receiving ≡ true
      → IsRead m rest (read_message decode s.unparsed s.reads)
      → Delivers m rest (read_next decode p s)
  unfolding read_next
  read_next-Delivers m rest p s open_end (k, later) =
      rw (read_next, k, open_end) (refl, refl, later)

  tick-Delivers :
      (m : NetworkMessage) (ours : M m) (rest : List ℕ) (chunks : List (List ℕ)) (p : Peers)
      (s : Stream)
      → IsCalm p
      → s.reads ≡ reads_of chunks
      → s.unparsed ++ joined chunks ≡ encode m ++ rest
      → All IsChunk chunks
      → length s.unparsed ≤ max_raw_message_size + stream_buffer_size
      → Delivers m rest (tick decode p s)
  unfolding tick
  tick-Delivers m ours rest chunks p s calm r e all le =
      let (w, u, rs) = write_next_calm p s calm in
      let s1 = (write_next p s).0 in
      let read : IsRead m rest (read_message decode s1.unparsed s1.reads) =
        rw (rs ∙ r, u) (read_message-IsRead m ours rest s.unparsed chunks e all le) in
      rw (tick, w) (read_next-Delivers m rest p s1 calm.0 read)

  -- Where a codec keeps its promise for the messages, the router receives and no write fails: as many iterations as
  -- there are messages in the bytes deliver just these messages, in their order, in whatever chunks
  -- the bytes arrive, and send no event.
  pub run-encoded :
      (ms : List NetworkMessage) (chunks : List (List ℕ)) (peers : List Peers) (s : Stream)
      → All M ms
      → length peers ≡ length ms
      → All IsCalm peers
      → s.reads ≡ reads_of chunks
      → s.unparsed ++ joined chunks ≡ encoded ms
      → All IsChunk chunks
      → length s.unparsed ≤ max_raw_message_size + stream_buffer_size
      → ((run decode peers s).1 ≡ ms) × ((run decode peers s).2 ≡ [])
  unfolding run
  run-encoded [] chunks [] s ours n calm r e all le = (refl, refl)
  run-encoded [] chunks (p ∷ peers) s ours n calm r e all le = absurd (omega (arith, n))
  run-encoded (m ∷ ms) chunks [] s ours n calm r e all le = absurd (omega (arith, n))
  run-encoded (m ∷ ms) chunks (p ∷ peers) s ours n calm r e all le =
      let (d, none_failed, (later, r', all', e', le')) =
        tick-Delivers m ours.0 (encoded ms) chunks p s calm.0 r e all le in
      let (rest, events) =
        run-encoded ms later peers (tick decode p s).0 ours.1 (omega (arith, n)) calm.1 r' e' all'
          le' in
      rw (run, d, none_failed) (ap (λ t. m ∷ t) rest, events)
