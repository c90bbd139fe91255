-- ===== src/ChunkRing/PacketIn.antt =====
-- `put_unassembled_packet` as a whole, for the first packet and for the later ones.
use native.Mathlib.Nat.{mod-eq_of_lt}
use ch_frb_io.Base.{
  ℕ, ◌+◌, ◌%◌, ◌^◌, ◌<◌, ◌≡◌, refl, ap, subst, ◌∙◌, false, some, arith, ◌⊎◌, inl, inr,
}
use ch_frb_io.Outcome.{
  Error, Result, returns, fails, Outcome, and_then, Ends, and_then-Ends, Ends-weaken,
  called_after_end_stream,
}
use ch_frb_io.Packet.{Packet}
use ch_frb_io.Chunk.{Chunk}
use ch_frb_io.ChunkRing.{Env, Ring, Counts, make_assembled_chunk}
use ch_frb_io.ChunkRing.Put.{State}
use ch_frb_io.ChunkRing.Invariant.{ValidUpTo, IsValid-same}
use ch_frb_io.ChunkRing.Assemble.{
  packet_ichunk, first_ichunk, set_active0, set_active1, mark_received, start, advance, assemble,
  with_active, put_unassembled_packet,
}
use ch_frb_io.ChunkRing.Open.{IsOpen, IsAssembling, make-IsOpen}
use ch_frb_io.ChunkRing.Assembling.{
  tally, StillValid, IsOpen-same, Moved, Counted, advance-Ends, assemble-Ends,
}

pub with_active-Ends :
    (P Q : State → Type 0) (f : Chunk → Chunk → State → Outcome State (Unit {0})) (e : Error)
    (r : Ring) (n : Counts) (i : ℕ) (w : IsAssembling r i)
    → Ends P Q (f w.chunk0 w.chunk1 (r, n))
    → Ends P Q (with_active f e r.active_chunk0 r.active_chunk1 (r, n))
unfolding with_active
with_active-Ends P Q f e r n i w h = simp (w.is_chunk0, w.is_chunk1) h

-- What is left to do after `start`.
abbrev pub Assembled : State → ℕ → State → Type 0
Assembled s i t = (IsAssembling t.0 i ⊎ IsAssembling t.0 (i + 1)) × (tally t ≡ tally s + 1)

counted-Assembled :
    (s : State) (i : ℕ) (r : Ring) (n : Counts) (packet : Packet)
    → Moved s i (r, n)
    → Ends (Assembled s i) StillValid (
        with_active
          (assemble packet)
          called_after_end_stream
          r.active_chunk0
          r.active_chunk1
          (r, n))
counted-Assembled s i r n packet (inl w, e) =
    with_active-Ends (Assembled s i) StillValid (assemble packet) called_after_end_stream r n i w (
      Ends-weaken (Counted (r, n) i) (Assembled s i) StillValid
        (assemble packet w.chunk0 w.chunk1 (r, n)) (λ t (a, b). (inl a, b ∙ ap (λ x. x + 1) e))
        (assemble-Ends packet r n i w))
counted-Assembled s i r n packet (inr w, e) =
    with_active-Ends (Assembled s i) StillValid (assemble packet) called_after_end_stream r n
      (i + 1) w
      (Ends-weaken (Counted (r, n) (i + 1)) (Assembled s i) StillValid
        (assemble packet w.chunk0 w.chunk1 (r, n)) (λ t (a, b). (inr a, b ∙ ap (λ x. x + 1) e))
        (assemble-Ends packet r n (i + 1) w))

-- The first packet makes the two active chunks.
start1-Ends :
    (env : Env) (k : ℕ) (r : Ring) (n : Counts) (c0 : Chunk) (q : Result Chunk)
    → r.active_chunk0 ≡ some c0
    → IsOpen r k c0
    → ((next : ℕ) → next < 2 ^ 64 → ValidUpTo r next)
    → make_assembled_chunk env r ((k + 1) % 2 ^ 64) 1 ≡ q
    → Ends (Moved (r, n) k) StillValid (and_then (set_active1 q (r, n)) (mark_received k))
unfolding set_active1 mark_received
start1-Ends env k r n c0 (fails e) a o v q = (0, v 0 (omega arith))
start1-Ends env k r n c0 (returns c) a o v q = (
  inl (record {
    chunk0 = c0;
    chunk1 = c;
    is_chunk0 = a;
    is_chunk1 = refl;
    open0 = IsOpen-same r _ k c0 refl refl o;
    open1 =
        IsOpen-same r _ (k + 1) c refl refl
          (subst (λ j. IsOpen r j c) (mod-eq_of_lt o.small) (make-IsOpen env r _ c q));
    valid = (
      (v k (omega (arith, o.small))).0,
      IsValid-same r _ (v k (omega (arith, o.small))).0 k refl refl refl refl refl
          (v k (omega (arith, o.small))).1,
    );
    received = refl;
  }),
  refl,
)

start0-Ends :
    (env : Env) (k : ℕ) (r : Ring) (n : Counts) (q : Result Chunk)
    → ((next : ℕ) → next < 2 ^ 64 → ValidUpTo r next)
    → make_assembled_chunk env r k 1 ≡ q
    → Ends (Moved (r, n) k) StillValid (
        and_then
          (and_then
            (set_active0 q (r, n))
            (λ t s. set_active1 (make_assembled_chunk env s.0 ((k + 1) % 2 ^ 64) 1) s))
          (mark_received k))
unfolding set_active0
start0-Ends env k r n (fails e) v q = (0, v 0 (omega arith))
start0-Ends env k r n (returns c) v q =
    start1-Ends env k (record r { active_chunk0 = some c }) n c
      (make_assembled_chunk env (record r { active_chunk0 = some c }) ((k + 1) % 2 ^ 64) 1) refl
      (IsOpen-same r _ k c refl refl (make-IsOpen env r k c q))
      (λ next small. (
        (v next small).0,
        IsValid-same r _ (v next small).0 next refl refl refl refl refl (v next small).1,
      ))
      refl

pub start-Ends :
    (env : Env) (k : ℕ) (r : Ring) (n : Counts)
    → r.first_packet_received ≡ false
    → ((next : ℕ) → next < 2 ^ 64 → ValidUpTo r next)
    → Ends (Moved (r, n) (first_ichunk r.nt_align k)) StillValid (start env k (r, n))
unfolding start
start-Ends env k r n h v = simp h (
    start0-Ends env (first_ichunk r.nt_align k) r n
      (make_assembled_chunk env r (first_ichunk r.nt_align k) 1) v refl)

-- The stream has begun: chunks `i` and `i + 1` are being assembled and the ring buffer ends before
-- them. Whatever packet comes, the call does not wait. If it returns, the two active chunks are
-- consecutive again, are the same or one further, follow the ring buffer, and the packet was
-- counted once, as a hit or a miss; if it throws, the ring buffer is valid.
pub put_unassembled_packet-Ends :
    (env : Env) (packet : Packet) (r : Ring) (n : Counts) (i : ℕ)
    → IsAssembling r i
    → Ends
        (λ t. (IsAssembling t.0 i ⊎ IsAssembling t.0 (i + 1)) × (tally t ≡ tally (r, n) + 1))
        StillValid
        (put_unassembled_packet env packet (r, n))
unfolding put_unassembled_packet start
put_unassembled_packet-Ends env packet r n i w = simp w.received (
    and_then-Ends (Moved (r, n) i) (Assembled (r, n) i) StillValid
      (with_active (advance env (packet_ichunk packet)) called_after_end_stream r.active_chunk0
        r.active_chunk1 (r, n))
      _
      (with_active-Ends (Moved (r, n) i) StillValid (advance env (packet_ichunk packet))
        called_after_end_stream r n i w (advance-Ends env (packet_ichunk packet) r n i w))
      (λ a (s, m) moved. counted-Assembled (r, n) i s m packet moved))
