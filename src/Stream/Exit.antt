-- ===== src/Stream/Exit.antt =====
-- How the assembler thread ends: `_assembler_thread_exit`.
use ch_frb_io.Base.{ℕ, zero, suc, ◌≡◌, true, none, List, [], ◌∷◌, length}
use ch_frb_io.Outcome.{Outcome}
use ch_frb_io.Chunk.{Chunk}
use ch_frb_io.ChunkRing.{Ring, Counts}
use ch_frb_io.ChunkRing.Open.{IsAssembling}
use ch_frb_io.ChunkRing.Ending.{SameTally}
use ch_frb_io.UdpRing
use ch_frb_io.Stream.{Stream, no_events, sum_events}
use ch_frb_io.Stream.Control
use ch_frb_io.Stream.Ready.{IsSound, All}

-- An assembler that had a packet, and one that is closed.
abbrev pub IsRunning : Ring → Type 0
IsRunning r = (i : ℕ) × IsAssembling r i

abbrev pub IsClosed : Ring → Type 0
IsClosed r = (r.doneflag ≡ true) × (r.active_chunk0 ≡ none) × (r.active_chunk1 ≡ none) × IsSound r

-- The first `i` are closed, and the others run.
abbrev PartDone : ℕ → List Ring → Type 0
PartDone zero rs = All IsRunning rs
PartDone (suc i) [] = Unit {0}
PartDone (suc i) (r ∷ rs) = IsClosed r × PartDone i rs

-- What the loop has done after `i` turns, and what it leaves alone.
record HasEnded (s : Stream) (i : ℕ) (t : Stream) : Type 0 where
  part : PartDone i t.assemblers
  length_same : length t.assemblers ≡ length s.assemblers
  ring_same : t.unassembled_ringbuf ≡ s.unassembled_ringbuf
  flags_same : t.flags ≡ s.flags
  cumulative_same : t.cumulative_event_counts ≡ s.cumulative_event_counts
  others_same : t.assembler_thread_event_subcounts ≡ record s.assembler_thread_event_subcounts {
    assembler = t.assembler_thread_event_subcounts.assembler;
  }
  tally_same :
      SameTally s.assembler_thread_event_subcounts.assembler
        t.assembler_thread_event_subcounts.assembler

-- The counts of events of the assembler thread, whose chunk counts `m` may have grown at the exit, are
-- added to the public ones and start again at zero.
abbrev pub Accumulated : Stream → Stream → Type 0
Accumulated s t =
    ((m : Counts) × SameTally s.assembler_thread_event_subcounts.assembler m
      × (t.cumulative_event_counts
          ≡ sum_events s.cumulative_event_counts
              (record s.assembler_thread_event_subcounts { assembler = m })))
    × (t.assembler_thread_event_subcounts ≡ no_events)

-- The assembler thread at its end.
abbrev pub HasExited : Stream → Stream → Type 0
HasExited s t =
    All IsClosed t.assemblers
    × (t.unassembled_ringbuf.stream_ended ≡ true)
    × (t.flags.stream_end_requested ≡ true)
    × Accumulated s t
