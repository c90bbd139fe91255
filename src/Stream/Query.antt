-- ===== src/Stream/Query.antt =====
-- What other threads call: streaming to files, chunks and snapshots of the beams, and injected chunks.
use ch_frb_io.Base.{
  ℕ, ◌+◌, ◌^◌, ◌%◌, Bool, true, false, Option, none, some, List, [], ◌∷◌, get_elem?, set,
  if◌then◌else◌, not,
}
use ch_frb_io.Outcome.{
  ℤ, pos, pos_part, ltb_ℤ, eq_ℤ, Result, fails, Outcome, done, throws, waits, unknown_beam,
  bad_assembler_index, deliberate_crash,
}
use ch_frb_io.Chunk.{Chunk}
use ch_frb_io.ChunkRing.{Env, Ring}
use ch_frb_io.ChunkRing
use ch_frb_io.ChunkRing.Get.{get_ringbuf_snapshot}
use ch_frb_io.ChunkRing.Get
use ch_frb_io.ChunkRing.Put.{State}
use ch_frb_io.ChunkRing.Assemble
use ch_frb_io.Stream.{Stream, no_counts}
use ch_frb_io.Stream.Perhost.{increment}
use ch_frb_io.Stream.Make.{vcontains}

-- The loop over the requested beams.
unfoldable pub all_known : List ℤ → List ℤ → Bool
unfolding vcontains
all_known known [] = true
all_known known (b ∷ bs) =
    let rest = all_known known bs in if vcontains known b then rest else false

abbrev pub nonempty : List ℕ → Bool
nonempty [] = false
nonempty (c ∷ cs) = true

-- The loop over the assemblers, each with its beam.
unfoldable pub stream_beams : List ℕ → List ℤ → ℤ → Bool → List ℤ → List Ring → List Ring
unfolding vcontains
stream_beams pattern requested priority need_rfi (b ∷ bs) (r ∷ rs) =
    (if vcontains requested b
      then ChunkRing.stream_to_files (nonempty pattern) priority need_rfi r
      else ChunkRing.stream_to_files false (pos 0) false r)
    ∷ stream_beams pattern requested priority need_rfi bs rs
stream_beams pattern requested priority need_rfi [] rs = rs
stream_beams pattern requested priority need_rfi (b ∷ bs) [] = []

-- stream_to_files()
unfoldable pub stream_to_files : List ℕ → List ℤ → ℤ → Bool → Stream → Outcome Stream (Unit {0})
unfolding all_known stream_beams
stream_to_files pattern requested priority need_rfi s =
    if not (all_known s.ini_params.beam_ids requested)
    then throws unknown_beam s
    else done tt (record s {
      streaming = record {
        stream_filename_pattern = pattern;
        stream_beam_ids = requested;
        stream_priority = priority;
        stream_rfi_mask = need_rfi;
        stream_chunks_written = 0;
        stream_bytes_written = 0;
      };
      assemblers =
          stream_beams pattern requested priority need_rfi s.ini_params.beam_ids s.assemblers;
    })

-- The sums of `get_streaming_status` over the beams that are streamed; chunks are counted in an `int`
-- that they do not fill.
unfoldable pub streamed : List ℤ → List ℤ → List Ring → ℕ × ℕ
unfolding vcontains
streamed requested (b ∷ bs) (r ∷ rs) =
    let (chunks, bytes) = streamed requested bs rs in
    if not (vcontains requested b)
    then (chunks, bytes)
    else (r.stream_chunks_written + chunks, (r.stream_bytes_written + bytes) % 2 ^ 64)
streamed requested [] rs = (0, 0)
streamed requested (b ∷ bs) [] = (0, 0)

-- get_streaming_status(), for a caller whose vector of beams is empty.
unfoldable pub get_streaming_status : Stream → List ℕ × List ℤ × ℤ × ℕ × ℕ
unfolding streamed
get_streaming_status s =
    let (chunks, bytes) = streamed s.streaming.stream_beam_ids s.ini_params.beam_ids s.assemblers in
    (
      s.streaming.stream_filename_pattern, s.streaming.stream_beam_ids, s.streaming.stream_priority,
      chunks, bytes,
    )

-- The loop that looks for the assembler of a beam.
unfoldable pub assembler_of : ℤ → List ℤ → List Ring → Option Ring
assembler_of beam (b ∷ bs) (r ∷ rs) =
    let rest = assembler_of beam bs rs in if eq_ℤ b beam then some r else rest
assembler_of beam [] rs = none
assembler_of beam (b ∷ bs) [] = none

unfoldable pub found_for : ℕ → Bool → Option Ring → Result (Option Chunk)
found_for fpga toplevel none = fails unknown_beam
found_for fpga toplevel (some r) = Get.find_assembled_chunk fpga toplevel r

-- find_assembled_chunk()
unfoldable pub find_assembled_chunk : ℤ → ℕ → Bool → Stream → Result (Option Chunk)
unfolding assembler_of found_for
find_assembled_chunk beam fpga toplevel s =
    found_for fpga toplevel (assembler_of beam s.ini_params.beam_ids s.assemblers)

abbrev pub first_or_zero : Option Ring → ℕ
first_or_zero none = 0
first_or_zero (some r) = r.first_fpgacount

-- get_first_fpga_count()
unfoldable pub get_first_fpga_count : ℤ → Stream → ℕ
unfolding assembler_of
get_first_fpga_count beam s = first_or_zero (assembler_of beam s.ini_params.beam_ids s.assemblers)

-- get_max_fpga_count_seen(): what it adds to the two vectors.
unfoldable pub max_fpga_counts : List ℤ → List Ring → List ℕ × List ℕ
max_fpga_counts (b ∷ bs) (r ∷ rs) =
    let (flushed, retrieved) = max_fpga_counts bs rs in
    (r.max_fpga_flushed ∷ flushed, r.max_fpga_retrieved ∷ retrieved)
max_fpga_counts [] rs = ([], [])
max_fpga_counts (b ∷ bs) [] = ([], [])

unfoldable pub get_max_fpga_count_seen : Stream → List ℕ × List ℕ
unfolding max_fpga_counts
get_max_fpga_count_seen s = max_fpga_counts s.ini_params.beam_ids s.assemblers

abbrev pub snapshot_of : ℕ → ℕ → Option Ring → List (Chunk × ℕ)
snapshot_of lo hi none = []
snapshot_of lo hi (some r) = get_ringbuf_snapshot lo hi r

-- The loop over the requested beams, and the one over all assemblers.
unfoldable pub snapshots_for : List ℤ → ℕ → ℕ → Stream → List (List (Chunk × ℕ))
unfolding assembler_of
snapshots_for [] lo hi s = []
snapshots_for (b ∷ bs) lo hi s =
    snapshot_of lo hi (assembler_of b s.ini_params.beam_ids s.assemblers) ∷ snapshots_for bs lo hi s

unfoldable pub snapshots_all : List ℤ → List Ring → ℕ → ℕ → List (List (Chunk × ℕ))
snapshots_all (b ∷ bs) (r ∷ rs) lo hi = get_ringbuf_snapshot lo hi r ∷ snapshots_all bs rs lo hi
snapshots_all [] rs lo hi = []
snapshots_all (b ∷ bs) [] lo hi = []

-- get_ringbuf_snapshots()
unfoldable pub get_ringbuf_snapshots : List ℤ → ℕ → ℕ → Stream → List (List (Chunk × ℕ))
unfolding snapshots_for snapshots_all
get_ringbuf_snapshots [] lo hi s = snapshots_all s.ini_params.beam_ids s.assemblers lo hi
get_ringbuf_snapshots (b ∷ bs) lo hi s = snapshots_for (b ∷ bs) lo hi s

-- The end of `get_assembled_chunk`: it waits for data before it crashes.
unfoldable pub got_chunk : Stream → ℕ → Outcome Ring (Option Chunk) → Outcome Stream (Option Chunk)
got_chunk s ix (done c r) =
    let s' = record s { assemblers = set s.assemblers ix r } in
    if s.ini_params.deliberately_crash then throws deliberate_crash s' else done c s'
got_chunk s ix (throws e r) = throws e (record s { assemblers = set s.assemblers ix r })
got_chunk s ix (waits r) = waits (record s { assemblers = set s.assemblers ix r })

unfoldable pub get_from : Bool → Stream → ℕ → Option Ring → Outcome Stream (Option Chunk)
unfolding got_chunk
get_from wait s ix none = throws bad_assembler_index s
get_from wait s ix (some r) = got_chunk s ix (Get.get_assembled_chunk wait r)

-- get_assembled_chunk()
unfoldable pub get_assembled_chunk : ℤ → Bool → Stream → Outcome Stream (Option Chunk)
unfolding get_from
get_assembled_chunk index wait s =
    if ltb_ℤ index (pos 0)
    then throws bad_assembler_index s
    else get_from wait s (pos_part index) (get_elem? s.assemblers (pos_part index))

-- inject_assembled_chunk(): the call has no event counts, so that those it returns are dropped.
unfoldable pub on_injected : Stream → ℕ → Outcome State Bool → Outcome Stream Bool
on_injected s ix (done b (r, n)) = done b (record s { assemblers = set s.assemblers ix r })
on_injected s ix (throws e (r, n)) = throws e (record s { assemblers = set s.assemblers ix r })
on_injected s ix (waits (r, n)) = waits (record s { assemblers = set s.assemblers ix r })

unfoldable pub inject_from : Env → Chunk → ℕ → List ℤ → List Ring → Stream → Outcome Stream Bool
unfolding on_injected
inject_from env c ix (b ∷ bs) (r ∷ rs) s =
    let rest = inject_from env c (ix + 1) bs rs s in
    if eq_ℤ b (pos c.beam_id)
    then on_injected s ix (Assemble.inject_assembled_chunk env c (r, no_counts))
    else rest
inject_from env c ix [] rs s = done false s
inject_from env c ix (b ∷ bs) [] s = done false s

unfoldable pub inject_assembled_chunk : Env → Chunk → Stream → Outcome Stream Bool
unfolding inject_from
inject_assembled_chunk env c s = inject_from env c 0 s.ini_params.beam_ids s.assemblers s

-- fake_packet_from()
unfoldable pub fake_packet_from : ℕ → ℕ → ℕ → Stream → Stream
unfolding increment
fake_packet_from ip port nbytes s = record s {
  network_thread_perhost_packets = increment ip port s.network_thread_perhost_packets;
  cumulative_event_counts = record s.cumulative_event_counts {
    packet_received = s.cumulative_event_counts.packet_received + 1;
    packet_good = s.cumulative_event_counts.packet_good + 1;
    byte_received = s.cumulative_event_counts.byte_received + nbytes;
  };
}
