-- ===== src/ChunkRing/Assembling.antt =====
-- The steps of `put_unassembled_packet`: the two active chunks stay consecutive and follow the ring
-- buffer, and a packet is a hit or a miss.
use native.Mathlib.Nat.{mod-eq_of_lt}
use ch_frb_io.Base.{
  ℕ, ◌+◌, ◌%◌, ◌^◌, ◌≡◌, refl, sym, ap, subst, ◌∙◌, Bool, true, false, none, some, arith,
  Bool-cases, ◌⊎◌, inl, inr, leb, ◌==◌,
}
use ch_frb_io.Outcome.{
  Result, returns, fails, Outcome, done, throws, waits, and_then, Ends, Ends-weaken,
}
use ch_frb_io.Packet.{Packet}
use ch_frb_io.Chunk.{Chunk}
use ch_frb_io.Chunk.Fill.{add_packet}
use ch_frb_io.ChunkRing.{Env, Ring, Counts, make_assembled_chunk}
use ch_frb_io.ChunkRing.Put.{State, put_assembled_chunk}
use ch_frb_io.ChunkRing.Invariant.{ValidUpTo, IsValid-same, EndsWell, put_assembled_chunk-EndsWell}
use ch_frb_io.ChunkRing.Assemble.{
  packet_ichunk, set_active0, set_active1, release0, swap_active, put_active0, next_active, advance,
  assemble, count_hit,
}
use ch_frb_io.ChunkRing.Open.{IsOpen, IsAssembling, make-IsOpen, add_packet-IsOpen}

abbrev pub tally : State → ℕ
tally s = s.1.assembler_hit + s.1.assembler_miss

-- A call that throws leaves a valid ring buffer too.
abbrev pub StillValid : State → Type 0
StillValid t = (next : ℕ) × ValidUpTo t.0 next

pub IsOpen-same :
    (r s : Ring) (i : ℕ) (c : Chunk)
    → s.config ≡ r.config
    → s.beam_id ≡ r.beam_id
    → IsOpen r i c
    → IsOpen s i c
IsOpen-same r s i c e1 e2 h = record {
  part = rw (e1, e2) h.part;
  number = h.number;
  no_mask = h.no_mask;
  small = h.small;
}

-- Moving on: the older chunk is put, the younger one takes its place, and a new one follows.
next_active-Ends :
    (env : Env) (c1 : Chunk) (b : Bool) (r : Ring) (n : Counts) (i : ℕ)
    → r.active_chunk1 ≡ some c1
    → IsOpen r (i + 1) c1
    → ValidUpTo r (i + 1)
    → r.first_packet_received ≡ true
    → Ends
        (λ t. IsAssembling t.0 (i + 1) × (tally t ≡ tally (r, n)))
        StillValid
        (next_active env c1 b (r, n))
unfolding next_active
next_active-Ends env c1 b r n i a o (css, v) rec =
    set (make_assembled_chunk env r ((c1.ichunk + 1) % 2 ^ 64) 1) refl
  where
    set :
        (q : Result Chunk)
        → make_assembled_chunk env r ((c1.ichunk + 1) % 2 ^ 64) 1 ≡ q
        → Ends
            (λ t. IsAssembling t.0 (i + 1) × (tally t ≡ tally (r, n)))
            StillValid
            (set_active1 q (swap_active r, n))
    set (fails e) q = (i + 1, (css, IsValid-same r _ css (i + 1) refl refl refl refl refl v))
    set (returns c) q = (
      record {
        chunk0 = c1;
        chunk1 = c;
        is_chunk0 = a;
        is_chunk1 = refl;
        open0 = IsOpen-same r _ (i + 1) c1 refl refl o;
        open1 = IsOpen-same r _ (i + 1 + 1) c refl refl (
            subst (λ k. IsOpen r k c)
              (mod-eq_of_lt (omega (arith, o.small, o.number)) ∙ ap (λ k. k + 1) o.number)
              (make-IsOpen env r _ c q));
        valid = (css, IsValid-same r _ css (i + 1) refl refl refl refl refl v);
        received = rec;
      },
      refl,
    )

release0-eq :
    (r : Ring) (c : Chunk)
    → c.has_rfi_mask ≡ false
    → release0 c r ≡ record r { active_chunk0 = none }
unfolding release0
release0-eq r c h = simp h

pub put_active0-EndsWell :
    (env : Env) (c : Chunk) (r : Ring) (n : Counts) (i : ℕ)
    → IsOpen r i c
    → ValidUpTo r i
    → EndsWell env (record r { active_chunk0 = none }, n) c i (put_active0 env c (r, n))
unfolding put_active0
put_active0-EndsWell env c r n i o (css, v) =
    subst
      (λ s.
        EndsWell env (record r { active_chunk0 = none }, n) c i
          (put_assembled_chunk env c true (s, n)))
      (sym (release0-eq r c o.no_mask))
      (put_assembled_chunk-EndsWell env c true (record r { active_chunk0 = none }) n i
        (css, IsValid-same r _ css i refl refl refl refl refl v) o.part o.number o.small)

-- After a put that returns, the rest of the move.
put_then_next-Ends :
    (env : Env) (c c1 : Chunk) (r : Ring) (n : Counts) (i : ℕ) (o : Outcome State Bool)
    → r.active_chunk1 ≡ some c1
    → IsOpen r (i + 1) c1
    → r.first_packet_received ≡ true
    → EndsWell env (record r { active_chunk0 = none }, n) c i o
    → Ends
        (λ t. IsAssembling t.0 (i + 1) × (tally t ≡ tally (r, n)))
        StillValid
        (and_then o (next_active env c1))
put_then_next-Ends env c c1 r n i (throws e t) a h rec (k, inl (v, same)) = (i, v)
put_then_next-Ends env c c1 r n i (throws e t) a h rec (k, inr (v, put)) = (i + 1, v)
put_then_next-Ends env c c1 r n i (waits t) a h rec w = absurd w
put_then_next-Ends env c c1 r n i (done b (s, m)) a h rec (k, v, put) =
    subst
      (λ j.
        Ends (λ t. IsAssembling t.0 (i + 1) × (tally t ≡ j)) StillValid
          (next_active env c1 b (s, m)))
      (omega (arith, k.hits_same, k.misses_same))
      (next_active-Ends env c1 b s m i (k.active1_same ∙ a)
        (IsOpen-same r s (i + 1) c1 k.config_same k.beam_same h) v (k.received_same ∙ rec))

-- The window that a step ends with: where it was, or one chunk further.
abbrev pub Moved : State → ℕ → State → Type 0
Moved s i t = (IsAssembling t.0 i ⊎ IsAssembling t.0 (i + 1)) × (tally t ≡ tally s)

pub advance-Ends :
    (env : Env) (k : ℕ) (r : Ring) (n : Counts) (i : ℕ) (w : IsAssembling r i)
    → Ends (Moved (r, n) i) StillValid (advance env k w.chunk0 w.chunk1 (r, n))
unfolding advance
advance-Ends env k r n i w = elim (Bool-cases (leb ((w.chunk0.ichunk + 2) % 2 ^ 64) k)) [
  | inr t ↦ simp t (inl w, refl)
  | inl t ↦ simp t (
      Ends-weaken (λ t. IsAssembling t.0 (i + 1) × (tally t ≡ tally (r, n))) (Moved (r, n) i)
        StillValid (and_then (put_active0 env w.chunk0 (r, n)) (next_active env w.chunk1))
        (λ s (a, b). (inr a, b))
        (put_then_next-Ends env w.chunk0 w.chunk1 r n i (put_active0 env w.chunk0 (r, n))
          w.is_chunk1 w.open1 w.received (put_active0-EndsWell env w.chunk0 r n i w.open0 w.valid)))
]

-- A packet that is added to an active chunk, or that no active chunk is for, is counted once.
abbrev pub Counted : State → ℕ → State → Type 0
Counted s i t = IsAssembling t.0 i × (tally t ≡ tally s + 1)

set_active0-Ends :
    (packet : Packet) (r : Ring) (n : Counts) (i : ℕ) (w : IsAssembling r i) (q : Result Chunk)
    → add_packet packet w.chunk0 ≡ q
    → Ends (Counted (r, n) i) StillValid (set_active0 q (r, count_hit n))
unfolding set_active0
set_active0-Ends packet r n i w (fails e) q = (i, w.valid)
set_active0-Ends packet r n i w (returns c) q = (
  record {
    chunk0 = c;
    chunk1 = w.chunk1;
    is_chunk0 = refl;
    is_chunk1 = w.is_chunk1;
    open0 = IsOpen-same r _ i c refl refl (add_packet-IsOpen packet r i w.chunk0 c w.open0 q);
    open1 = IsOpen-same r _ (i + 1) w.chunk1 refl refl w.open1;
    valid = (w.valid.0, IsValid-same r _ w.valid.0 i refl refl refl refl refl w.valid.1);
    received = w.received;
  },
  omega arith,
)

set_active1-Ends :
    (packet : Packet) (r : Ring) (n : Counts) (i : ℕ) (w : IsAssembling r i) (q : Result Chunk)
    → add_packet packet w.chunk1 ≡ q
    → Ends (Counted (r, n) i) StillValid (set_active1 q (r, count_hit n))
unfolding set_active1
set_active1-Ends packet r n i w (fails e) q = (i, w.valid)
set_active1-Ends packet r n i w (returns c) q = (
  record {
    chunk0 = w.chunk0;
    chunk1 = c;
    is_chunk0 = w.is_chunk0;
    is_chunk1 = refl;
    open0 = IsOpen-same r _ i w.chunk0 refl refl w.open0;
    open1 =
        IsOpen-same r _ (i + 1) c refl refl
          (add_packet-IsOpen packet r (i + 1) w.chunk1 c w.open1 q);
    valid = (w.valid.0, IsValid-same r _ w.valid.0 i refl refl refl refl refl w.valid.1);
    received = w.received;
  },
  omega arith,
)

pub assemble-Ends :
    (packet : Packet) (r : Ring) (n : Counts) (i : ℕ) (w : IsAssembling r i)
    → Ends (Counted (r, n) i) StillValid (assemble packet w.chunk0 w.chunk1 (r, n))
unfolding assemble
assemble-Ends packet r n i w = elim (Bool-cases (packet_ichunk packet == w.chunk0.ichunk)) [
  | inl t ↦ simp t (set_active0-Ends packet r n i w (add_packet packet w.chunk0) refl)
  | inr t ↦ elim (Bool-cases (packet_ichunk packet == w.chunk1.ichunk)) [
    | inl u ↦ simp (t, u) (set_active1-Ends packet r n i w (add_packet packet w.chunk1) refl)
    | inr u ↦ elim (Bool-cases r.throw_exception_on_assembler_miss) [
      | inl x ↦ simp (t, u, x) (i, w.valid)
      | inr x ↦ simp (t, u, x) (w, omega arith)
    ]
  ]
]
