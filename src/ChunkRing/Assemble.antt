-- ===== src/ChunkRing/Assemble.antt =====
-- The assembler thread's calls of `assembled_chunk_ringbuf`: `put_unassembled_packet`,
-- `inject_assembled_chunk` and `end_stream`.
use ch_frb_io.Base.{
  ℕ, ◌+◌, ◌-◌, ◌*◌, ◌/◌, ◌%◌, ◌^◌, Bool, true, false, Option, none, some, if◌then◌else◌, ltb, leb,
  ◌==◌,
}
use ch_frb_io.Constants.{nt_per_assembled_chunk}
use ch_frb_io.Outcome.{
  Error, Result, returns, fails, Outcome, done, throws, and_then, called_after_end_stream,
  assembler_miss, empty_pointer, double_end_stream,
}
use ch_frb_io.Packet.{Packet}
use ch_frb_io.Chunk.{Chunk}
use ch_frb_io.Chunk.Fill.{add_packet}
use ch_frb_io.ChunkRing.{Env, Ring, Counts, make_assembled_chunk}
use ch_frb_io.ChunkRing.Put.{State, put_assembled_chunk}

-- `packet.fpga_count / packet.fpga_counts_per_sample / nt_per_assembled_chunk`. The packet has been
-- decoded, so the first divisor is not 0.
unfoldable pub packet_ichunk : Packet → ℕ
packet_ichunk p = p.fpga_count / p.fpga_counts_per_sample / nt_per_assembled_chunk

-- The number of the first chunk: the packet's, rounded up to a multiple of `chunk_align`.
unfoldable pub first_ichunk : ℕ → ℕ → ℕ
first_ichunk nt_align ichunk =
    let chunk_align = nt_align / nt_per_assembled_chunk in
    if ltb 0 nt_align
    then (ichunk + chunk_align + (2 ^ 64 - 1)) % 2 ^ 64 / chunk_align * chunk_align % 2 ^ 64
    else ichunk

-- Assignments of a new chunk to one of the active ones.
unfoldable pub set_active0 : Result Chunk → State → Outcome State (Unit {0})
set_active0 (fails e) s = throws e s
set_active0 (returns c) (r, n) = done tt (record r { active_chunk0 = some c }, n)

unfoldable pub set_active1 : Result Chunk → State → Outcome State (Unit {0})
set_active1 (fails e) s = throws e s
set_active1 (returns c) (r, n) = done tt (record r { active_chunk1 = some c }, n)

unfoldable pub mark_received : ℕ → Unit {0} → State → Outcome State (Unit {0})
mark_received ichunk t (r, n) = done tt (
  record r {
    first_packet_received = true;
    first_fpgacount = ichunk * nt_per_assembled_chunk * r.fpga_counts_per_sample % 2 ^ 64;
  },
  n,
)

-- What the first packet does before it is assembled.
unfoldable pub start : Env → ℕ → State → Outcome State (Unit {0})
unfolding set_active0 set_active1 mark_received
start env ichunk (r, n) =
    if r.first_packet_received
    then done tt (r, n)
    else let first = first_ichunk r.nt_align ichunk in
      and_then
        (and_then (set_active0 (make_assembled_chunk env r first 1) (r, n))
          (λ t s. set_active1 (make_assembled_chunk env s.0 ((first + 1) % 2 ^ 64) 1) s))
        (mark_received first)

-- _put_assembled_chunk(active_chunk0, event_counts): the pointer is null after it, unless the first
-- test of the call threw.
unfoldable pub release0 : Chunk → Ring → Ring
release0 c r = if c.has_rfi_mask then r else record r { active_chunk0 = none }

unfoldable pub put_active0 : Env → Chunk → State → Outcome State Bool
unfolding release0
put_active0 env c (r, n) = put_assembled_chunk env c true (release0 c r, n)

unfoldable pub release1 : Chunk → Ring → Ring
release1 c r = if c.has_rfi_mask then r else record r { active_chunk1 = none }

unfoldable pub put_active1 : Env → Chunk → State → Outcome State Bool
unfolding release1
put_active1 env c (r, n) = put_assembled_chunk env c true (release1 c r, n)

-- active_chunk0.swap(active_chunk1), and a new chunk after it.
abbrev pub swap_active : Ring → Ring
swap_active r = record r { active_chunk0 = r.active_chunk1; active_chunk1 = r.active_chunk0 }

unfoldable pub next_active : Env → Chunk → Bool → State → Outcome State (Unit {0})
unfolding set_active1
next_active env c1 b (r, n) =
    set_active1 (make_assembled_chunk env r ((c1.ichunk + 1) % 2 ^ 64) 1) (swap_active r, n)

-- The buffer moves on by one chunk for a packet beyond its two chunks.
unfoldable pub advance : Env → ℕ → Chunk → Chunk → State → Outcome State (Unit {0})
unfolding put_active0 next_active
advance env ichunk c0 c1 s =
    if leb ((c0.ichunk + 2) % 2 ^ 64) ichunk
    then and_then (put_active0 env c0 s) (next_active env c1)
    else done tt s

abbrev pub count_hit : Counts → Counts
count_hit n = record n { assembler_hit = n.assembler_hit + 1 }

abbrev pub count_miss : Counts → Counts
count_miss n = record n { assembler_miss = n.assembler_miss + 1 }

-- The packet goes to one of the active chunks, or is missed.
unfoldable pub assemble : Packet → Chunk → Chunk → State → Outcome State (Unit {0})
unfolding set_active0 set_active1
assemble packet c0 c1 (r, n) =
    if packet_ichunk packet == c0.ichunk
    then set_active0 (add_packet packet c0) (r, count_hit n)
    else if packet_ichunk packet == c1.ichunk
    then set_active1 (add_packet packet c1) (r, count_hit n)
    else if r.throw_exception_on_assembler_miss
    then throws assembler_miss (r, count_miss n)
    else done tt (r, count_miss n)

-- The rest of the handler runs with both pointers not null.
unfoldable pub with_active :
    (Chunk → Chunk → State → Outcome State (Unit {0}))
    → Error
    → Option Chunk
    → Option Chunk
    → State
    → Outcome State (Unit {0})
with_active f e (some c0) (some c1) s = f c0 c1 s
with_active f e none c1 s = throws e s
with_active f e (some c0) none s = throws e s

-- put_unassembled_packet()
unfoldable pub put_unassembled_packet : Env → Packet → State → Outcome State (Unit {0})
put_unassembled_packet env packet s =
    and_then
      (and_then (start env (packet_ichunk packet) s) (λ t s1.
        with_active (advance env (packet_ichunk packet)) called_after_end_stream s1.0.active_chunk0
          s1.0.active_chunk1 s1))
      (λ t s2.
        with_active (assemble packet) called_after_end_stream s2.0.active_chunk0 s2.0.active_chunk1
          s2)

-- inject_assembled_chunk(), for a pointer that is not null.
unfoldable pub inject_assembled_chunk : Env → Chunk → State → Outcome State Bool
unfolding set_active0 set_active1
inject_assembled_chunk env c s = and_then (put_assembled_chunk env c false s) (λ worked s1.
    and_then
      (and_then (set_active0 (make_assembled_chunk env s1.0 ((c.ichunk + 1) % 2 ^ 64) 1) s1)
        (λ t s2. set_active1 (make_assembled_chunk env s2.0 ((c.ichunk + 2) % 2 ^ 64) 1) s2))
      (λ t s3. done worked s3))

-- The end of end_stream(), with the lock held.
unfoldable pub set_done : ℕ → Bool → State → Outcome State (Unit {0})
set_done fin b (r, n) =
    if r.doneflag
    then throws double_end_stream (r, n)
    else done tt (record r { doneflag = true; final_fpga = fin }, n)

unfoldable pub flush : Env → Chunk → Chunk → State → Outcome State (Unit {0})
unfolding put_active0 put_active1 set_done
flush env c0 c1 s =
    let fin = (c0.ichunk + 2) * (nt_per_assembled_chunk * c0.fpga_counts_per_sample) % 2 ^ 64 in
    and_then (and_then (put_active0 env c0 s) (λ b s1. put_active1 env c1 s1)) (set_done fin)

-- end_stream()
unfoldable pub end_stream : Env → State → Outcome State (Unit {0})
unfolding with_active flush
end_stream env s = with_active (flush env) empty_pointer s.0.active_chunk0 s.0.active_chunk1 s
