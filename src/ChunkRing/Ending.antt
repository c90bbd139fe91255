-- ===== src/ChunkRing/Ending.antt =====
-- `end_stream`: both active chunks go into the ring buffer, and the stream is closed.
use ch_frb_io.Base.{
  ℕ, ◌+◌, ◌*◌, ◌%◌, ◌^◌, ◌≡◌, refl, sym, subst, ◌∙◌, Bool, true, false, none, arith, Bool-cases,
  inl, inr,
}
use ch_frb_io.Constants.{nt_per_assembled_chunk}
use ch_frb_io.Outcome.{Outcome, done, throws, waits, Ends, and_then-Ends, empty_pointer}
use ch_frb_io.Chunk.{Chunk}
use ch_frb_io.ChunkRing.{Env, Ring, Counts}
use ch_frb_io.ChunkRing.Put.{State, put_assembled_chunk}
use ch_frb_io.ChunkRing.Invariant.{
  HasPut, ValidUpTo, IsValid-same, Kept, EndsWell, put_assembled_chunk-EndsWell,
}
use ch_frb_io.ChunkRing.Assemble.{release1, put_active0, put_active1, set_done, flush, end_stream}
use ch_frb_io.ChunkRing.Open.{IsOpen, IsAssembling}
use ch_frb_io.ChunkRing.PacketIn.{with_active-Ends}
use ch_frb_io.ChunkRing.Assembling.{StillValid, IsOpen-same, put_active0-EndsWell}

release1-eq :
    (r : Ring) (c : Chunk)
    → c.has_rfi_mask ≡ false
    → release1 c r ≡ record r { active_chunk1 = none }
unfolding release1
release1-eq r c h = simp h

put_active1-EndsWell :
    (env : Env) (c : Chunk) (r : Ring) (n : Counts) (i : ℕ)
    → IsOpen r i c
    → ValidUpTo r i
    → EndsWell env (record r { active_chunk1 = none }, n) c i (put_active1 env c (r, n))
unfolding put_active1
put_active1-EndsWell env c r n i o (css, v) =
    subst
      (λ s.
        EndsWell env (record r { active_chunk1 = none }, n) c i
          (put_assembled_chunk env c true (s, n)))
      (sym (release1-eq r c o.no_mask))
      (put_assembled_chunk-EndsWell env c true (record r { active_chunk1 = none }) n i
        (css, IsValid-same r _ css i refl refl refl refl refl v) o.part o.number o.small)

-- The ring buffer without its older active chunk.
abbrev pub released : Ring → Ring
released r = record r { active_chunk0 = none }

-- After one chunk, and after both: first `c0` was put, then `c1`.
abbrev HasPut0 : Env → Ring → Counts → ℕ → Chunk → State → Type 0
HasPut0 env r n i c0 t =
    Kept (record r { active_chunk0 = none }, n) t
    × ValidUpTo t.0 (i + 1)
    × HasPut env (released r) c0 t.0

abbrev pub HasPutBoth : Env → Ring → Chunk → Chunk → Ring → Type 0
HasPutBoth env r c0 c1 t =
    (mid : Ring) × (mid.config ≡ r.config)
    × (mid.beam_id ≡ r.beam_id)
    × HasPut env r c0 mid
    × HasPut env mid c1 t

-- The counts of hits and misses are as before.
abbrev pub SameTally : Counts → Counts → Type 0
SameTally n m = (m.assembler_hit ≡ n.assembler_hit) × (m.assembler_miss ≡ n.assembler_miss)

abbrev HasPut1 : Env → Ring → Counts → ℕ → Chunk → Chunk → State → Type 0
HasPut1 env r n i c0 c1 t =
    SameTally n t.1
    × (t.0.active_chunk0 ≡ none)
    × (t.0.active_chunk1 ≡ none)
    × ValidUpTo t.0 (i + 2)
    × HasPutBoth env r c0 c1 t.0

well-Ends0 :
    (env : Env) (r : Ring) (n : Counts) (i : ℕ) (c : Chunk) (o : Outcome State Bool)
    → EndsWell env (record r { active_chunk0 = none }, n) c i o
    → Ends (HasPut0 env r n i c) StillValid o
well-Ends0 env r n i c (done b t) h = h
well-Ends0 env r n i c (throws e t) (k, inl (v, same)) = (i, v)
well-Ends0 env r n i c (throws e t) (k, inr (v, put)) = (i + 1, v)
well-Ends0 env r n i c (waits t) h = h

well-Ends1 :
    (env : Env) (r₀ r : Ring) (n₀ n : Counts) (i : ℕ) (c0 c : Chunk) (o : Outcome State Bool)
    → r.active_chunk0 ≡ none
    → r.config ≡ r₀.config
    → r.beam_id ≡ r₀.beam_id
    → HasPut env r₀ c0 r
    → SameTally n₀ n
    → EndsWell env (record r { active_chunk1 = none }, n) c (i + 1) o
    → Ends (HasPut1 env r₀ n₀ i c0 c) StillValid o
well-Ends1 env r₀ r n₀ n i c0 c (done b t) a cfg beam put0 (x, y) (k, v, put) = (
  (k.hits_same ∙ x, k.misses_same ∙ y),
  k.active0_same ∙ a,
  k.active1_same,
  subst (ValidUpTo t.0) {x = i + 1 + 1} (omega arith) v,
  (record r { active_chunk1 = none }, cfg, beam, put0, put),
)
well-Ends1 env r₀ r n₀ n i c0 c (throws e t) a cfg beam put0 q (k, inl (v, same)) = (i + 1, v)
well-Ends1 env r₀ r n₀ n i c0 c (throws e t) a cfg beam put0 q (k, inr (v, put)) = (i + 1 + 1, v)
well-Ends1 env r₀ r n₀ n i c0 c (waits t) a cfg beam put0 q h = h

-- A stream that is closed: chunks `c0` and `c1` are in, and the end is known.
abbrev pub Closed : Env → Ring → Counts → Chunk → Chunk → ℕ → ℕ → State → Type 0
Closed env r n c0 c1 i fin t =
    SameTally n t.1
    × (t.0.doneflag ≡ true)
    × (t.0.final_fpga ≡ fin)
    × (t.0.active_chunk0 ≡ none)
    × (t.0.active_chunk1 ≡ none)
    × ValidUpTo t.0 (i + 2)
    × HasPutBoth env r c0 c1 t.0

set_done-Ends :
    (env : Env) (r₀ : Ring) (n₀ : Counts) (c0 c1 : Chunk) (i fin : ℕ) (b : Bool) (r : Ring)
    (n : Counts)
    → HasPut1 env r₀ n₀ i c0 c1 (r, n)
    → Ends (Closed env r₀ n₀ c0 c1 i fin) StillValid (set_done fin b (r, n))
unfolding set_done
set_done-Ends env r₀ n₀ c0 c1 i fin b r n (same, a0, a1, (css, v), put) =
    elim (Bool-cases r.doneflag) [
      | inl t ↦ simp t (i + 2, (css, v))
      | inr t ↦ simp t (
        same,
        refl,
        refl,
        a0,
        a1,
        (css, IsValid-same r _ css (i + 2) refl refl refl refl refl v),
        put,
      )
    ]

end_of_chunk : Chunk → ℕ
end_of_chunk c = (c.ichunk + 2) * (nt_per_assembled_chunk * c.fpga_counts_per_sample) % 2 ^ 64

flush-Ends :
    (env : Env) (r : Ring) (n : Counts) (i : ℕ) (w : IsAssembling r i)
    → Ends
        (Closed env (released r) n w.chunk0 w.chunk1 i (end_of_chunk w.chunk0))
        StillValid
        (flush env w.chunk0 w.chunk1 (r, n))
unfolding flush end_of_chunk
flush-Ends env r n i w =
    and_then-Ends (HasPut1 env (released r) n i w.chunk0 w.chunk1)
      (Closed env (released r) n w.chunk0 w.chunk1 i (end_of_chunk w.chunk0)) StillValid _ _
      (and_then-Ends (HasPut0 env r n i w.chunk0) (HasPut1 env (released r) n i w.chunk0 w.chunk1)
        StillValid (put_active0 env w.chunk0 (r, n)) _
        (well-Ends0 env r n i w.chunk0 _ (put_active0-EndsWell env w.chunk0 r n i w.open0 w.valid))
        (λ b (s, m) (k, v, put).
          well-Ends1 env (released r) s n m i w.chunk0 w.chunk1 _ k.active0_same k.config_same
            k.beam_same put (k.hits_same, k.misses_same)
            (put_active1-EndsWell env w.chunk1 s m (i + 1)
              (IsOpen-same r s (i + 1) w.chunk1 k.config_same k.beam_same w.open1) v)))
      (λ b (s, m) h. set_done-Ends env (released r) n w.chunk0 w.chunk1 i _ b s m h)

end_of_chunk-eq :
    (r : Ring) (i : ℕ) (c : Chunk)
    → IsOpen r i c
    → end_of_chunk c ≡ (i + 2) * (nt_per_assembled_chunk * r.config.fpga_counts_per_sample) % 2 ^ 64
unfolding end_of_chunk
end_of_chunk-eq r i c o = rw (o.number, o.part.counts) refl

-- The stream has begun, and chunks `i` and `i + 1` are being assembled. `end_stream` does not wait. If
-- it returns, first chunk `i` and then chunk `i + 1` were put: the ring buffer is valid and has grown
-- by these two, no chunk is being assembled, the stream is marked as ended, and the final FPGA count is
-- that of the end of chunk `i + 1`, and the counts of hits and misses are as before; if it throws, the ring buffer is valid.
pub end_stream-Ends :
    (env : Env) (r : Ring) (n : Counts) (i : ℕ) (w : IsAssembling r i)
    → Ends
        (Closed env
          (released r)
          n
          w.chunk0
          w.chunk1
          i
          ((i + 2) * (nt_per_assembled_chunk * r.config.fpga_counts_per_sample) % 2 ^ 64))
        StillValid
        (end_stream env (r, n))
unfolding end_stream
end_stream-Ends env r n i w = with_active-Ends _ StillValid (flush env) empty_pointer r n i w (
    subst
      (λ f.
        Ends (Closed env (released r) n w.chunk0 w.chunk1 i f) StillValid
          (flush env w.chunk0 w.chunk1 (r, n)))
      (end_of_chunk-eq r i w.chunk0 w.open0) (flush-Ends env r n i w))
