-- ===== src/ChunkRing/Packets.antt =====
-- `put_unassembled_packet` for the first packet of a stream, and for a sequence of packets.
use ch_frb_io.Base.{
  ℕ, ◌+◌, ◌^◌, ◌≤◌, ◌<◌, ◌≡◌, refl, false, arith, ◌⊎◌, inl, inr, List, [], ◌∷◌, length,
}
use ch_frb_io.Outcome.{
  Outcome, done, and_then, Ends, and_then-Ends, Ends-weaken, called_after_end_stream,
}
use ch_frb_io.Packet.{Packet}
use ch_frb_io.ChunkRing.{Env, Ring, Counts}
use ch_frb_io.ChunkRing.Put.{State}
use ch_frb_io.ChunkRing.Invariant.{ValidUpTo}
use ch_frb_io.ChunkRing.Assemble.{
  packet_ichunk, first_ichunk, start, advance, assemble, with_active, put_unassembled_packet,
}
use ch_frb_io.ChunkRing.Open.{IsAssembling}
use ch_frb_io.ChunkRing.Assembling.{tally, StillValid, Moved, Counted, advance-Ends, assemble-Ends}
use ch_frb_io.ChunkRing.PacketIn.{with_active-Ends, start-Ends, put_unassembled_packet-Ends}

-- The window is somewhere, and the counts have grown by `k`.
abbrev pub Working : State → ℕ → State → Type 0
Working s k t = (j : ℕ) × IsAssembling t.0 j × (tally t ≡ tally s + k)

advance_any :
    (env : Env) (packet : Packet) (s : State) (i : ℕ) (r : Ring) (n : Counts)
    → Moved s i (r, n)
    → Ends (Working s 0) StillValid (
        with_active
          (advance env (packet_ichunk packet))
          called_after_end_stream
          r.active_chunk0
          r.active_chunk1
          (r, n))
advance_any env packet s i r n (w, e) = elim w [ inl w ↦ go i w | inr w ↦ go (i + 1) w ]
  where
    moved : (j : ℕ) (t : State) → Moved (r, n) j t → Working s 0 t
    moved j t (inl a, b) = (j, a, omega arith)
    moved j t (inr a, b) = (j + 1, a, omega arith)

    go :
        (j : ℕ)
        → IsAssembling r j
        → Ends (Working s 0) StillValid (
            with_active
              (advance env (packet_ichunk packet))
              called_after_end_stream
              r.active_chunk0
              r.active_chunk1
              (r, n))
    go j w =
        with_active-Ends (Working s 0) StillValid (advance env (packet_ichunk packet))
          called_after_end_stream r n j w
          (Ends-weaken (Moved (r, n) j) (Working s 0) StillValid
            (advance env (packet_ichunk packet) w.chunk0 w.chunk1 (r, n)) (moved j)
            (advance-Ends env (packet_ichunk packet) r n j w))

assemble_any :
    (packet : Packet) (s : State) (r : Ring) (n : Counts)
    → Working s 0 (r, n)
    → Ends (Working s 1) StillValid (
        with_active
          (assemble packet)
          called_after_end_stream
          r.active_chunk0
          r.active_chunk1
          (r, n))
assemble_any packet s r n (j, w, e) =
    with_active-Ends (Working s 1) StillValid (assemble packet) called_after_end_stream r n j w (
      Ends-weaken (Counted (r, n) j) (Working s 1) StillValid
        (assemble packet w.chunk0 w.chunk1 (r, n)) (λ t (a, b). (j, a, omega arith))
        (assemble-Ends packet r n j w))

-- The first packet of a stream. If the call returns, two consecutive chunks are being assembled, the
-- ring buffer ends before them and the packet was counted once, as a hit or a miss; if it throws, the
-- ring buffer is valid.
pub put_unassembled_packet_first-Ends :
    (env : Env) (packet : Packet) (r : Ring) (n : Counts)
    → r.first_packet_received ≡ false
    → ((next : ℕ) → next < 2 ^ 64 → ValidUpTo r next)
    → Ends
        (λ t. (j : ℕ) × IsAssembling t.0 j × (tally t ≡ tally (r, n) + 1))
        StillValid
        (put_unassembled_packet env packet (r, n))
unfolding put_unassembled_packet
put_unassembled_packet_first-Ends env packet r n h v =
    and_then-Ends (Working (r, n) 0) (Working (r, n) 1) StillValid _ _
      (and_then-Ends (Moved (r, n) (first_ichunk r.nt_align (packet_ichunk packet)))
        (Working (r, n) 0) StillValid (start env (packet_ichunk packet) (r, n)) _
        (start-Ends env (packet_ichunk packet) r n h v)
        (λ a (s, m) w. advance_any env packet (r, n) _ s m w))
      (λ a (s, m) w. assemble_any packet (r, n) s m w)

-- The packets of one list, in order.
abbrev pub put_unassembled_packets : Env → List Packet → State → Outcome State (Unit {0})
put_unassembled_packets env [] s = done tt s
put_unassembled_packets env (p ∷ ps) s =
    and_then (put_unassembled_packet env p s) (λ t s'. put_unassembled_packets env ps s')

-- A sequence of packets in any order, to a stream that has begun. If no call throws, each packet was
-- counted once, and the window of active chunks moved on by at most one chunk for each packet and
-- never back; if a call throws, the ring buffer is valid.
pub put_unassembled_packets-Ends :
    (env : Env) (ps : List Packet) (r : Ring) (n : Counts) (i : ℕ)
    → IsAssembling r i
    → Ends
        (λ t.
          (j : ℕ) × IsAssembling t.0 j
          × (i ≤ j)
          × (j ≤ i + length ps)
          × (tally t ≡ tally (r, n) + length ps))
        StillValid
        (put_unassembled_packets env ps (r, n))
put_unassembled_packets-Ends env [] r n i w = (i, w, omega arith, omega arith, omega arith)
put_unassembled_packets-Ends env (p ∷ ps) r n i w =
    and_then-Ends
      (λ t. (IsAssembling t.0 i ⊎ IsAssembling t.0 (i + 1)) × (tally t ≡ tally (r, n) + 1))
      (λ t.
        (j : ℕ) × IsAssembling t.0 j
        × (i ≤ j)
        × (j ≤ i + length (p ∷ ps))
        × (tally t ≡ tally (r, n) + length (p ∷ ps)))
      StillValid (put_unassembled_packet env p (r, n)) _ (put_unassembled_packet-Ends env p r n i w)
      (λ a (s, m) (x, e). elim x [
        | inl y ↦ weaken s m i (inl refl) e (put_unassembled_packets-Ends env ps s m i y)
        | inr y ↦
            weaken s m (i + 1) (inr refl) e (put_unassembled_packets-Ends env ps s m (i + 1) y)
      ])
  where
    weaken :
        (s : Ring) (m : Counts) (i' : ℕ)
        → (i' ≡ i) ⊎ (i' ≡ i + 1)
        → tally (s, m) ≡ tally (r, n) + 1
        → Ends
            (λ t.
              (j : ℕ) × IsAssembling t.0 j
              × (i' ≤ j)
              × (j ≤ i' + length ps)
              × (tally t ≡ tally (s, m) + length ps))
            StillValid
            (put_unassembled_packets env ps (s, m))
        → Ends
            (λ t.
              (j : ℕ) × IsAssembling t.0 j
              × (i ≤ j)
              × (j ≤ i + length (p ∷ ps))
              × (tally t ≡ tally (r, n) + length (p ∷ ps)))
            StillValid
            (put_unassembled_packets env ps (s, m))
    weaken s m i' k e =
        Ends-weaken _ _ StillValid (put_unassembled_packets env ps (s, m))
          (λ t (j, w, a, b, c). (j, w, omega arith, omega arith, omega arith))
