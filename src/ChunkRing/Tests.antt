-- ===== src/ChunkRing/Tests.antt =====
-- Runs of the telescoping ring buffer, and the theorems at concrete ring buffers.
use ch_frb_io.Base.{
  ℕ, ◌+◌, ◌-◌, ◌*◌, ◌%◌, ◌^◌, ◌≤◌, ◌<◌, ◌≡◌, refl, true, false, none, some, List, [], ◌∷◌, arith,
  inl,
}
use ch_frb_io.Outcome.{pos, returns, done, Ends}
use ch_frb_io.Packet.{Packet}
use ch_frb_io.Chunk.{Chunk}
use ch_frb_io.ChunkRing.{Config, Env, Ring, Counts, entry}
use ch_frb_io.ChunkRing.Check.{check_invariants}
use ch_frb_io.ChunkRing.Put.{
  Move, plan, commit, num_dropped, write_request, idle_moves, advance_downstream, push_level,
  pop_level, clear, put_assembled_chunk,
}
use ch_frb_io.ChunkRing.Part.{IsPart}
use ch_frb_io.ChunkRing.Checked.{IsValid, check_invariants-true}
use ch_frb_io.ChunkRing.Preserve.{committed, commit-IsValid}
use ch_frb_io.ChunkRing.Make.{
  Setup, setup_error, too_short, capacities, telescoping, empty_levels, empty_ring, construct,
}
use ch_frb_io.ChunkRing.Empty.{construct-IsValid}
use ch_frb_io.ChunkRing.Invariant.{ValidUpTo, IsValid-same, EndsWell, put_assembled_chunk-EndsWell}
use ch_frb_io.ChunkRing.Returns.{IsPut, put_assembled_chunk_returns}
use ch_frb_io.Constants.{nt_per_assembled_chunk}
use ch_frb_io.ChunkRing.Assemble.{put_unassembled_packet, end_stream}
use ch_frb_io.ChunkRing.Ending.{released, Closed, end_stream-Ends}
use ch_frb_io.ChunkRing.Open.{IsAssembling}
use ch_frb_io.ChunkRing.Assembling.{tally, StillValid}
use ch_frb_io.ChunkRing.Packets.{
  put_unassembled_packets, put_unassembled_packets-Ends, put_unassembled_packet_first-Ends,
}
use ch_frb_io.ChunkRing.Get.{first_end, first_entry, get_assembled_chunk}
use ch_frb_io.ChunkRing.Delivery.{get_assembled_chunk_ready}

abbrev settings : Config
settings = record {
  nupfreq = 1;
  nrfifreq = 0;
  nt_per_packet = 16;
  fpga_counts_per_sample = 1;
  force_reference_kernels = false;
  force_fast_kernels = false;
  throw_exception_on_buffer_drop = false;
  throw_exception_on_assembler_miss = false;
  memory_pool = none;
}

abbrev pub env : Env
env = record {
  kernel = λ c a b. a;
  slab_granted = λ i b. true;
  enqueue = λ c p m. none;
  avx2 = false;
}

-- Two levels: two assembled chunks and two older ones, then three of twice the length.
abbrev setup : Setup
setup = record {
  beam_id = pos 7;
  stream_id = 1;
  nt_align = pos 0;
  assembled_ringbuf_capacity = pos 2;
  telescoping_ringbuf_capacity = pos 2 ∷ pos 3 ∷ [];
}

abbrev pub new_ring : Ring
new_ring = empty_ring settings setup

construct-IsValid_example :
    (construct false settings setup ≡ returns new_ring)
    × ((next : ℕ) → next < 2 ^ 64 → ValidUpTo new_ring next)
unfolding setup_error too_short
construct-IsValid_example = construct-IsValid false settings setup refl (inl (omega arith))

abbrev chunk : ℕ → Chunk
chunk i = record {
  beam_id = 7;
  nupfreq = 1;
  nrfifreq = 0;
  nt_per_packet = 16;
  fpga_counts_per_sample = 1;
  binning = 1;
  stream_id = 1;
  ichunk = i;
  frame0_nano = 0;
  isample = i * 1024 % 2 ^ 64;
  fpga_begin = i * 1024 % 2 ^ 64;
  fpga_end = (i + 1) * 1024 % 2 ^ 64;
  has_rfi_mask = false;
  packets_received = 0;
  arrays = record { intensities = []; scales = []; offsets = [] };
  rfi_mask = [];
}

chunk-IsPart : (i : ℕ) → IsPart settings 7 0 (chunk i)
chunk-IsPart i = record {
  beam_lem = refl;
  upfreq = refl;
  rfi = refl;
  samples = refl;
  counts = refl;
  bin = refl;
  start = refl;
  mask = λ z y. absurd (omega arith);
}

abbrev no_counts : Counts
no_counts = record {
  assembler_hit = 0;
  assembler_miss = 0;
  assembled_chunk_queued = 0;
  assembled_chunk_dropped = 0;
}

new_ring-ValidUpTo : (i : ℕ) → i < 2 ^ 64 → ValidUpTo new_ring i
new_ring-ValidUpTo i h = construct-IsValid_example.1 i h

abbrev first_moves : List Move
first_moves = record { push = some (chunk 5); pops = [] } ∷ record { push = none; pops = [] } ∷ []

plan_first_chunk : plan env new_ring 0 (chunk 5) new_ring.levels ≡ returns first_moves
unfolding plan empty_ring empty_levels capacities telescoping idle_moves
plan_first_chunk = refl

put_assembled_chunk-EndsWell_example :
    EndsWell env
      (new_ring, no_counts)
      (chunk 5)
      5
      (put_assembled_chunk env (chunk 5) true (new_ring, no_counts))
unfolding empty_ring
put_assembled_chunk-EndsWell_example =
    put_assembled_chunk-EndsWell env (chunk 5) true new_ring no_counts 5
      (new_ring-ValidUpTo 5 (omega arith)) (chunk-IsPart 5) refl (omega arith)

put_assembled_chunk_returns_example :
    (r' : Ring) × (n' : Counts) × (put_assembled_chunk env (chunk 5) true (new_ring, no_counts)
      ≡ done true (r', n'))
    × IsPut new_ring no_counts (chunk 5) first_moves r' n'
unfolding empty_ring write_request
put_assembled_chunk_returns_example =
    put_assembled_chunk_returns env (chunk 5) new_ring no_counts 5 first_moves
      (new_ring-ValidUpTo 5 (omega arith)) (chunk-IsPart 5) refl (omega arith) refl plan_first_chunk
      refl refl (omega arith) refl

-- The ring buffer with chunks 5 and 6 being assembled.
abbrev pub busy_ring : Ring
busy_ring = record new_ring {
  first_packet_received = true;
  active_chunk0 = some (chunk 5);
  active_chunk1 = some (chunk 6);
}

pub busy_ring-IsAssembling : IsAssembling busy_ring 5
unfolding empty_ring
busy_ring-IsAssembling = record {
  chunk0 = chunk 5;
  chunk1 = chunk 6;
  is_chunk0 = refl;
  is_chunk1 = refl;
  open0 = record { part = chunk-IsPart 5; number = refl; no_mask = refl; small = omega arith };
  open1 = record { part = chunk-IsPart 6; number = refl; no_mask = refl; small = omega arith };
  valid = (
    (new_ring-ValidUpTo 5 (omega arith)).0,
    IsValid-same new_ring busy_ring (new_ring-ValidUpTo 5 (omega arith)).0 5 refl refl refl refl
        refl (new_ring-ValidUpTo 5 (omega arith)).1,
  );
  received = refl;
}

-- A packet of chunk 7, beyond the window.
abbrev packet : Packet
packet = record {
  header = record {
    protocol_version = 1;
    data_nbytes = 16;
    fpga_counts_per_sample = 1;
    fpga_count = 7 * 1024;
    nbeams = 1;
    nfreq_coarse = 1;
    nupfreq = 1;
    ntsamp = 16;
  };
  src = [];
  beam_ids = 24;
  coarse_freq_ids = 26;
  scales = 28;
  offsets = 32;
  bytes = 36;
}

put_unassembled_packet_first-Ends_example :
    Ends
      (λ t. (j : ℕ) × IsAssembling t.0 j × (tally t ≡ tally (new_ring, no_counts) + 1))
      StillValid
      (put_unassembled_packet env packet (new_ring, no_counts))
unfolding empty_ring
put_unassembled_packet_first-Ends_example =
    put_unassembled_packet_first-Ends env packet new_ring no_counts refl new_ring-ValidUpTo

put_unassembled_packets-Ends_example :
    Ends
      (λ t.
        (j : ℕ) × IsAssembling t.0 j
        × (5 ≤ j)
        × (j ≤ 5 + 2)
        × (tally t ≡ tally (busy_ring, no_counts) + 2))
      StillValid
      (put_unassembled_packets env (packet ∷ packet ∷ []) (busy_ring, no_counts))
put_unassembled_packets-Ends_example =
    put_unassembled_packets-Ends env (packet ∷ packet ∷ []) busy_ring no_counts 5
      busy_ring-IsAssembling

-- The ring buffer that holds chunk 5.
abbrev one_chunk : Ring
one_chunk = committed new_ring first_moves

one_chunk-ValidUpTo : ValidUpTo one_chunk (5 + 1)
unfolding empty_ring
one_chunk-ValidUpTo =
    let (css, v, grown) =
      commit-IsValid env new_ring (chunk 5) (new_ring-ValidUpTo 5 (omega arith)).0 5 first_moves
        (new_ring-ValidUpTo 5 (omega arith)).1 (chunk-IsPart 5) refl (omega arith)
        plan_first_chunk in
    (css, v)

one_chunk-ready : one_chunk.downstream_pos < first_end one_chunk.levels
unfolding empty_ring empty_levels capacities telescoping advance_downstream num_dropped commit
    push_level pop_level clear
one_chunk-ready = omega arith

one_chunk-fresh :
    (c : Chunk)
    → first_entry one_chunk.levels one_chunk.downstream_pos ≡ some c
    → one_chunk.max_fpga_retrieved < c.fpga_end
unfolding empty_ring empty_levels capacities telescoping advance_downstream num_dropped commit
    push_level pop_level clear entry
one_chunk-fresh c e = ground arith

get_assembled_chunk_ready_example :
    (c : Chunk) × (r' : Ring) × (get_assembled_chunk true one_chunk ≡ done (some c) r')
    × (c.ichunk + (first_end one_chunk.levels - one_chunk.downstream_pos) ≡ 5 + 1)
    × IsValid r' one_chunk-ValidUpTo.0 (5 + 1)
    × (r'.downstream_pos ≡ one_chunk.downstream_pos + 1)
    × (r'.max_fpga_retrieved ≡ c.fpga_end)
get_assembled_chunk_ready_example =
    get_assembled_chunk_ready true one_chunk one_chunk-ValidUpTo.0 (5 + 1) one_chunk-ValidUpTo.1
      one_chunk-ready one_chunk-fresh

check_invariants-true_example : check_invariants one_chunk ≡ true
check_invariants-true_example =
    check_invariants-true one_chunk one_chunk-ValidUpTo.0 (5 + 1) one_chunk-ValidUpTo.1

end_stream-Ends_example :
    Ends
      (Closed env
        (released busy_ring)
        no_counts
        busy_ring-IsAssembling.chunk0
        busy_ring-IsAssembling.chunk1
        5
        ((5 + 2) * (nt_per_assembled_chunk * busy_ring.config.fpga_counts_per_sample) % 2 ^ 64))
      StillValid
      (end_stream env (busy_ring, no_counts))
end_stream-Ends_example = end_stream-Ends env busy_ring no_counts 5 busy_ring-IsAssembling
