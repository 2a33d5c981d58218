-- ===== src/Stream/Bounds.antt =====
-- src/stream.rs: how much a stream keeps of what it reads.
use bitcoin_adaptor.Base.{
  ℕ, zero, suc, ◌+◌, ◌*◌, ◌≤◌, ◌≡◌, refl, ◌⊎◌, inl, inr, List, [], ◌∷◌, ◌++◌, All, length,
  length-append, arith, Bool-cases, ok, err,
}
use bitcoin_adaptor.Bitcoin.{NetworkMessage}
use bitcoin_adaptor.Stream.{
  Read, Decoded, IoError, message, incomplete, io_error, encode_error, drop, is_oversized,
  read_message, stream_buffer_size, max_raw_message_size,
}

-- A read fills at most the buffer.
abbrev pub IsBuffered : Read → Type 0
IsBuffered (ok bytes) = length bytes ≤ stream_buffer_size
IsBuffered (err e) = Unit

abbrev pub max_unparsed : ℕ
max_unparsed = max_raw_message_size + 2 * stream_buffer_size

pub length-drop : {A : Type 0} (n : ℕ) (xs : List A) → length (drop n xs) ≤ length xs
length-drop zero xs = omega arith
length-drop (suc n) [] = omega arith
length-drop (suc n) (x ∷ xs) = omega (arith, length-drop n xs)

Decoded-cases :
    (d : Decoded)
    → (d ≡ incomplete)
      ⊎ ((m : NetworkMessage) × (n : ℕ) × (d ≡ message m n))
      ⊎ ((e : IoError) × (d ≡ io_error e))
      ⊎ ((e : ℕ) × (d ≡ encode_error e))
Decoded-cases incomplete = inl refl
Decoded-cases (message m n) = inr (inl (m, n, refl))
Decoded-cases (io_error e) = inr (inr (inl (e, refl)))
Decoded-cases (encode_error e) = inr (inr (inr (e, refl)))

-- Where each read fills at most the buffer, the unparsed bytes that are kept stay within the largest
-- raw message and two buffers, whatever the decoder does.
pub read_message-bounded :
    (decode : List ℕ → Decoded) (unparsed : List ℕ) (reads : List Read)
    → All IsBuffered reads
    → length unparsed ≤ max_unparsed
    → length (read_message decode unparsed reads).1 ≤ max_unparsed
unfolding read_message
read_message-bounded decode unparsed [] all le = elim (Bool-cases (is_oversized unparsed)) [
  | inl q ↦ rw (read_message, q) le
  | inr q ↦ elim (Decoded-cases (decode unparsed)) [
    | inl d ↦ rw (read_message, q, d) le
    | inr (inl (m, n, d)) ↦ rw (read_message, q, d) (omega (arith, le, length-drop n unparsed))
    | inr (inr (inl (e, d))) ↦ rw (read_message, q, d) le
    | inr (inr (inr (e, d))) ↦ rw (read_message, q, d) le
  ]
]
read_message-bounded decode unparsed (err x ∷ reads) all le =
    elim (Bool-cases (is_oversized unparsed)) [
      | inl q ↦ rw (read_message, q) le
      | inr q ↦ elim (Decoded-cases (decode unparsed)) [
        | inl d ↦ rw (read_message, q, d) le
        | inr (inl (m, n, d)) ↦ rw (read_message, q, d) (omega (arith, le, length-drop n unparsed))
        | inr (inr (inl (e, d))) ↦ rw (read_message, q, d) le
        | inr (inr (inr (e, d))) ↦ rw (read_message, q, d) le
      ]
    ]
read_message-bounded decode unparsed (ok [] ∷ reads) all le =
    elim (Bool-cases (is_oversized unparsed)) [
      | inl q ↦ rw (read_message, q) le
      | inr q ↦ elim (Decoded-cases (decode unparsed)) [
        | inl d ↦ rw (read_message, q, d) le
        | inr (inl (m, n, d)) ↦ rw (read_message, q, d) (omega (arith, le, length-drop n unparsed))
        | inr (inr (inl (e, d))) ↦ rw (read_message, q, d) le
        | inr (inr (inr (e, d))) ↦ rw (read_message, q, d) le
      ]
    ]
read_message-bounded decode unparsed (ok (b ∷ bytes) ∷ reads) all le =
    elim (Bool-cases (is_oversized unparsed)) [
      | inl q ↦ rw (read_message, q) le
      | inr q ↦ elim (Decoded-cases (decode unparsed)) [
        | inl d ↦
            let small : length unparsed ≤ max_raw_message_size + stream_buffer_size =
              ground arith in
            rw (read_message, q, d)
              (read_message-bounded decode (unparsed ++ b ∷ bytes) reads all.1
                (omega (arith, small, all.0, length-append unparsed (b ∷ bytes))))
        | inr (inl (m, n, d)) ↦ rw (read_message, q, d) (omega (arith, le, length-drop n unparsed))
        | inr (inr (inl (e, d))) ↦ rw (read_message, q, d) le
        | inr (inr (inr (e, d))) ↦ rw (read_message, q, d) le
      ]
    ]
