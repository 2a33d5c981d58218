-- ===== src/Stream/Events.antt =====
-- src/stream.rs: the events of the task `handle_stream`, in their order, and what it does on bytes
-- that cannot be decoded.
use bitcoin_adaptor.Base.{
  ℕ, suc, ◌+◌, ◌≤◌, ◌≡◌, ◌≢◌, refl, ap, ◌∙◌, ◌⊎◌, inl, inr, true, false, Option, none, some, List,
  [], ◌∷◌, All, length, arith, Bool-cases, Option-cases, List-cases, Result-cases, Result, ok, err,
}
use bitcoin_adaptor.Bitcoin.{NetworkMessage}
use bitcoin_adaptor.Stream.{
  Read, Decoded, encode_error, is_oversized, read_message, disconnects, StreamEventKind,
  StreamError, connect_event, IoError, io, would_block, unexpected_eof, other_io,
}
use bitcoin_adaptor.Stream.Task.{
  Stream, Peers, Network, connect, tick, read_next, write_next, tick_event, run, handle_stream,
}

abbrev pub IsEnd : StreamEventKind → Type 0
IsEnd kind = kind ≡ StreamEventKind.disconnected

-- Events that only say that the connection is lost, at most one for an iteration without a message.
abbrev pub AreEnds : ℕ → List NetworkMessage → List StreamEventKind → Type 0
AreEnds n messages events = All IsEnd events × (length messages + length events ≤ n)

-- A write waits where it would block, so that this error does not come from one.
abbrev pub WaitsToWrite : Peers → Type 0
WaitsToWrite p = (m : NetworkMessage) → p.write_error m ≢ some would_block

disconnects-io : (e : IoError) → e ≢ would_block → disconnects (io e) ≡ true
disconnects-io would_block n = absurd (n refl)
disconnects-io unexpected_eof n = refl
disconnects-io (other_io k) n = refl

write_next-unparsed : (p : Peers) (s : Stream) → (write_next p s).0.unparsed ≡ s.unparsed
unfolding write_next
write_next-unparsed p s = elim (List-cases s.network_messages) [
  | inl q ↦ rw (write_next, q) refl
  | inr (m, rest, q) ↦ elim (Option-cases (p.write_error m)) [
    | inl n ↦ rw (write_next, q, n) refl
    | inr (e, n) ↦ rw (write_next, q, n) refl
  ]
]

write_next-disconnects :
    (p : Peers) (s : Stream) (e : StreamError)
    → WaitsToWrite p
    → (write_next p s).1 ≡ some e
    → disconnects e ≡ true
unfolding write_next
write_next-disconnects p s e waits q = elim (List-cases s.network_messages) [
  | inl l ↦ absurd (ground (arith, rw (write_next, l) at q))
  | inr (m, rest, l) ↦ elim (Option-cases (p.write_error m)) [
    | inl n ↦ absurd (ground (arith, rw (write_next, l, n) at q))
    | inr (k, n) ↦
        let q' : io k ≡ e = ground (arith, rw (write_next, l, n) at q) in
        rw (← q') (disconnects-io k (λ j. waits m (n ∙ ap some j)))
  ]
]

module _ (decode : List ℕ → Decoded) where
  read_next-exclusive :
      (p : Peers) (s : Stream)
      → ((read_next decode p s).1 ≡ none) ⊎ ((read_next decode p s).2 ≡ none)
  unfolding read_next
  read_next-exclusive p s = elim (Result-cases (read_message decode s.unparsed s.reads).0) [
    | inl (m, q) ↦ elim (Bool-cases p.is_receiving) [
      | inl r ↦ inr (rw (read_next, q, r) refl)
      | inr r ↦ inl (rw (read_next, q, r) refl)
    ]
    | inr (e, q) ↦ inl (rw (read_next, q) refl)
  ]

  -- An iteration that fails delivers no message.
  tick-exclusive :
      (p : Peers) (s : Stream) → ((tick decode p s).1 ≡ none) ⊎ ((tick decode p s).2 ≡ none)
  unfolding tick
  tick-exclusive p s = elim (Option-cases (write_next p s).1) [
    | inl q ↦ rw (tick, q) (read_next-exclusive p (write_next p s).0)
    | inr (e, q) ↦ inl (rw (tick, q) refl)
  ]

  run-AreEnds :
      (peers : List Peers) (s : Stream)
      → AreEnds (length peers) (run decode peers s).1 (run decode peers s).2
  unfolding run
  run-AreEnds [] s = (tt, omega arith)
  run-AreEnds (p ∷ peers) s =
      let (ends, le) = run-AreEnds peers (tick decode p s).0 in
      elim (Option-cases (tick decode p s).2) [
        | inl q ↦ elim (Option-cases (tick decode p s).1) [
          | inl r ↦ rw (run, q, r) (ends, omega (arith, le))
          | inr (m, r) ↦ rw (run, q, r) (ends, omega (arith, le))
        ]
        | inr (e, q) ↦
            let r : (tick decode p s).1 ≡ none = elim (tick-exclusive p s) [
              | inl r ↦ r
              | inr r ↦ absurd (ground (arith, q, r))
            ] in
            elim (Bool-cases (disconnects e)) [
              | inl d ↦ rw (run, q, r, tick_event, d) ((refl, ends), omega (arith, le))
              | inr d ↦ rw (run, q, r, tick_event, d) (ends, omega (arith, le))
            ]
      ]

  -- Bytes that are no start of a message, or that are too many.
  abbrev pub IsBroken : List ℕ → Type 0
  IsBroken unparsed =
      (is_oversized unparsed ≡ true)
      ⊎ ((is_oversized unparsed ≡ false) × ((e : ℕ) × (decode unparsed ≡ encode_error e)))

  -- What reading does of broken bytes: an error that ends the connection, and the bytes stay.
  abbrev Fails : List ℕ → Result NetworkMessage StreamError × List ℕ × List Read → Type 0
  Fails unparsed r = ((e : StreamError) × (r.0 ≡ err e) × (disconnects e ≡ true)) × (r.1 ≡ unparsed)

  read_message-Fails :
      (unparsed : List ℕ) (reads : List Read)
      → IsBroken unparsed
      → Fails unparsed (read_message decode unparsed reads)
  unfolding read_message
  read_message-Fails unparsed [] (inl q) = rw (read_message, q) ((_, refl, refl), refl)
  read_message-Fails unparsed [] (inr (q, (e, d))) = rw (read_message, q, d) ((_, refl, refl), refl)
  read_message-Fails unparsed (r ∷ reads) (inl q) = rw (read_message, q) ((_, refl, refl), refl)
  read_message-Fails unparsed (r ∷ reads) (inr (q, (e, d))) =
      rw (read_message, q, d) ((_, refl, refl), refl)

  -- An iteration on broken bytes.
  abbrev IsFailure : Stream → Stream × Option NetworkMessage × Option StreamError → Type 0
  IsFailure s r =
      (r.1 ≡ none)
      × (r.0.unparsed ≡ s.unparsed)
      × ((e : StreamError) × (r.2 ≡ some e) × (disconnects e ≡ true))

  tick-IsFailure :
      (p : Peers) (s : Stream)
      → WaitsToWrite p
      → IsBroken s.unparsed
      → IsFailure s (tick decode p s)
  unfolding tick read_next
  tick-IsFailure p s waits broken =
      let s1 = (write_next p s).0 in
      let same = write_next-unparsed p s in
      let ((e, failed, ends), kept) = read_message-Fails s1.unparsed s1.reads (rw same broken) in
      elim (Option-cases (write_next p s).1) [
        | inl q ↦ rw (tick, q, read_next, failed) (refl, kept ∙ same, (e, refl, ends))
        | inr (e', q) ↦ rw (tick, q) (refl, same, (e', refl, write_next-disconnects p s e' waits q))
      ]

  -- On bytes that are no start of a message, or that are too many, the loop does not recover, whatever
  -- arrives: no iteration delivers a message, each reports that the connection is lost, and the bytes
  -- stay. Writes are taken to wait where they would block.
  pub run-IsBroken :
      (peers : List Peers) (s : Stream)
      → All WaitsToWrite peers
      → IsBroken s.unparsed
      → ((run decode peers s).1 ≡ [])
        × (length (run decode peers s).2 ≡ length peers)
        × All IsEnd (run decode peers s).2
        × ((run decode peers s).0.unparsed ≡ s.unparsed)
  unfolding run
  run-IsBroken [] s waits broken = (refl, refl, tt, refl)
  run-IsBroken (p ∷ peers) s waits broken =
      let (d, same, (e, failed, ends)) = tick-IsFailure p s waits.0 broken in
      let (messages, events, lost, kept) =
        run-IsBroken peers (tick decode p s).0 waits.1 (rw same broken) in
      rw (run, d, failed, tick_event, ends) (messages, ap suc events, (refl, lost), kept ∙ same)

  -- What the task has sent after so many iterations. If connecting fails: no message, and one event.
  -- Else the event `connected` first, after it only events `disconnected`, and together no more of these
  -- and of messages than iterations.
  pub handle_stream-AreEnds :
      (net : Network) (socks_proxy : Option (List ℕ)) (peers : List Peers) (s : Stream)
      → ((e : StreamError) × (connect net socks_proxy ≡ err e)
          × ((handle_stream decode net socks_proxy peers s).0 ≡ [])
          × ((handle_stream decode net socks_proxy peers s).1 ≡ connect_event e ∷ []))
        ⊎ ((connect net socks_proxy ≡ ok tt)
            × ((events : List StreamEventKind) × ((handle_stream decode net socks_proxy peers s).1
                  ≡ StreamEventKind.connected ∷ events)
                × AreEnds (length peers) (handle_stream decode net socks_proxy peers s).0 events))
  unfolding handle_stream
  handle_stream-AreEnds net socks_proxy peers s = elim (Result-cases (connect net socks_proxy)) [
    | inl (x, q) ↦ inr (q, rw (handle_stream, q) (_, refl, run-AreEnds peers s))
    | inr (e, q) ↦ inl (e, q, rw (handle_stream, q) refl, rw (handle_stream, q) refl)
  ]
