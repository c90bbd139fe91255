-- ===== src/Stream/Beams.antt =====
-- The assembler thread's handling of one packet: the tests on it, and the loop over its beams.
use ch_frb_io.Base.{
  ℕ, zero, suc, ◌+◌, ◌*◌, ◌%◌, ◌^◌, Bool, not, ◌||◌, Option, none, some, List, length, get_elem?,
  get_or, set, if◌then◌else◌, leb, max,
}
use ch_frb_io.Outcome.{
  ℤ, pos, eq_ℤ, Outcome, done, throws, waits, and_then, null_dereference, packet_mismatch,
  beam_id_mismatch, division_by_zero,
}
use ch_frb_io.Packet.{Packet, Decoded, good, bad, undefined, decode, beam_id}
use ch_frb_io.ChunkRing.{Env, Ring}
use ch_frb_io.ChunkRing.Put.{State}
use ch_frb_io.ChunkRing.Assemble.{put_unassembled_packet}
use ch_frb_io.Stream.{Initializer, Events, Stream}

abbrev pub count_bad : Events → Events
count_bad e = record e { packet_bad = e.packet_bad + 1 }

abbrev pub count_good : Events → Events
count_good e = record e { packet_good = e.packet_good + 1 }

abbrev pub count_stream_mismatch : Events → Events
count_stream_mismatch e = record e { stream_mismatch = e.stream_mismatch + 1 }

abbrev pub count_beam_mismatch : Events → Events
count_beam_mismatch e = record e { beam_id_mismatch = e.beam_id_mismatch + 1 }

abbrev pub with_events : (Events → Events) → Stream → Stream
with_events f s = record s {
  assembler_thread_event_subcounts = f s.assembler_thread_event_subcounts;
}

-- How the search for the assembler of a beam ends.
pub data Search : Type 0 where
  found : ℕ → Search
  no_match : Search
  out_of_fuel : Search

-- The loop `for (;;)` over `assembler_ix`, with fuel for its passes.
unfoldable pub find_assembler : ℕ → List ℤ → ℕ → ℕ → Search
find_assembler zero beams packet_id ix = out_of_fuel
find_assembler (suc fuel) beams packet_id ix =
    let rest = find_assembler fuel beams packet_id (ix + 1) in
    if leb (length beams) ix
    then no_match
    else if not (eq_ℤ (get_or beams ix (pos 0)) (pos packet_id))
    then rest
    else found ix

-- The stream after a call on assembler `ix`, from what the call leaves.
abbrev pub put_back : Stream → ℕ → State → Stream
put_back s ix (r, n) = record s {
  assemblers = set s.assemblers ix r;
  assembler_thread_event_subcounts = record s.assembler_thread_event_subcounts { assembler = n };
}

unfoldable pub on_assembler : Stream → ℕ → Outcome State (Unit {0}) → Outcome Stream (Unit {0})
on_assembler s ix (done a t) = done a (put_back s ix t)
on_assembler s ix (throws e t) = throws e (put_back s ix t)
on_assembler s ix (waits t) = waits (put_back s ix t)

-- `assemblers[ix]->put_unassembled_packet(packet, event_subcounts)`.
unfoldable pub put_to : Env → Packet → Stream → ℕ → Option Ring → Outcome Stream (Unit {0})
unfolding on_assembler
put_to env packet s ix none = throws null_dereference s
put_to env packet s ix (some r) =
    on_assembler s ix
      (put_unassembled_packet env packet (r, s.assembler_thread_event_subcounts.assembler))

unfoldable pub deliver : Env → Packet → Search → Stream → Outcome Stream (Unit {0})
unfolding put_to
deliver env packet (found ix) s = put_to env packet s ix (get_elem? s.assemblers ix)
deliver env packet no_match s =
    if s.ini_params.throw_exception_on_beam_id_mismatch
    then throws beam_id_mismatch (with_events count_beam_mismatch s)
    else done tt (with_events count_beam_mismatch s)
deliver env packet out_of_fuel s = waits s

-- One turn of the loop over beams: the assembler of the first beam id gets the packet.
unfoldable pub handle_beam : Env → Packet → Stream → Outcome Stream (Unit {0})
unfolding find_assembler deliver
handle_beam env packet s =
    let beams = s.ini_params.beam_ids in
    deliver env packet (find_assembler (length beams + 1) beams (beam_id packet 0) 0) s

abbrev pub new_data_nbytes : Packet → ℕ
new_data_nbytes p = p.nfreq_coarse * p.nupfreq * p.ntsamp

-- The packet cut to its first beam, and the steps of its pointers to the next beam.
unfoldable pub first_beam : Packet → Packet
first_beam p = record p {
  header = record p.header { data_nbytes = new_data_nbytes p % 2 ^ 16; nbeams = 1 };
}

unfoldable pub next_beam : Packet → Packet
next_beam p = record p {
  beam_ids = p.beam_ids + 2;
  scales = p.scales + 4 * p.nfreq_coarse;
  offsets = p.offsets + 4 * p.nfreq_coarse;
  bytes = p.bytes + new_data_nbytes p;
}

-- The loop over beams, with `n` turns left.
unfoldable pub handle_beams : Env → ℕ → Packet → Stream → Outcome Stream (Unit {0})
unfolding handle_beam next_beam
handle_beams env zero packet s = done tt s
handle_beams env (suc n) packet s =
    and_then (handle_beam env packet s) (λ t s'. handle_beams env n (next_beam packet) s')

-- Whether the packet has other dimensions than the stream.
unfoldable pub is_mismatch : Initializer → Packet → Bool
is_mismatch x p =
    not (eq_ℤ (pos p.nbeams) (pos (length x.beam_ids)))
    || not (eq_ℤ (pos p.nupfreq) x.nupfreq)
    || not (eq_ℤ (pos p.ntsamp) x.nt_per_packet)
    || not (eq_ℤ (pos p.fpga_counts_per_sample) x.fpga_counts_per_sample)

abbrev pub see_fpga : Packet → Stream → Stream
see_fpga p s = record s {
  packet_max_fpga_seen =
      max s.packet_max_fpga_seen ((p.fpga_count + p.ntsamp * p.fpga_counts_per_sample) % 2 ^ 64);
}

-- What follows the decoding. An integer division by zero ends the process.
unfoldable pub handle_decoded : Env → Decoded → Stream → Outcome Stream (Unit {0})
unfolding is_mismatch handle_beams first_beam
handle_decoded env bad s = done tt (with_events count_bad s)
handle_decoded env undefined s = throws division_by_zero s
handle_decoded env (good p) s =
    if is_mismatch s.ini_params p
    then (if s.ini_params.throw_exception_on_packet_mismatch
        then throws packet_mismatch s
        else done tt (with_events count_stream_mismatch s))
    else handle_beams env (length s.ini_params.beam_ids) (first_beam p)
        (see_fpga p (with_events count_good s))

-- The body of the loop over the packets of a list.
unfoldable pub handle_packet : Env → List ℕ → ℕ → Stream → Outcome Stream (Unit {0})
unfolding handle_decoded
handle_packet env packet_data packet_nbytes s =
    handle_decoded env (decode packet_data packet_nbytes) s
