-- ===== src/Stream/Assembler.antt =====
-- The assembler thread: packet lists from the ring buffer, one packet after the other, and what the
-- thread does when it ends.
use ch_frb_io.Base.{
  ℕ, zero, suc, ◌+◌, Bool, true, false, not, ◌&&◌, Option, none, some, drop, map, get_elem?, length,
  if◌then◌else◌,
}
use ch_frb_io.Outcome.{
  Result, returns, fails, Outcome, done, throws, waits, and_then, null_dereference,
}
use ch_frb_io.UdpList.{PacketList, get_packet_data, get_packet_nbytes}
use ch_frb_io.UdpRing.{Shared, get_packet_list}
use ch_frb_io.UdpRing
use ch_frb_io.ChunkRing.{Env, Ring, set_frame0}
use ch_frb_io.ChunkRing.Assemble
use ch_frb_io.Stream.{Stream, add_assembler_events}
use ch_frb_io.Stream.Control
use ch_frb_io.Stream.Beams.{handle_packet, on_assembler}

-- The loop over the packets of a list, `n` of them from `ipacket` on.
unfoldable pub handle_packets : Env → PacketList → ℕ → ℕ → Stream → Outcome Stream (Unit {0})
handle_packets env l ipacket zero s = done tt s
handle_packets env l ipacket (suc n) s =
    and_then
      (handle_packet env (drop (get_packet_data l ipacket) l.buf) (get_packet_nbytes l ipacket) s)
      (λ t s'. handle_packets env l (ipacket + 1) n s')

-- The body of the main loop behind the wait for a packet list.
unfoldable pub handle_list : Env → PacketList → Stream → Outcome Stream (Unit {0})
unfolding handle_packets
handle_list env l s =
    and_then (handle_packets env l 0 l.curr_npackets s) (λ t s'. done tt (add_assembler_events s'))

-- `_fetch_frame0()`, which sets the field or throws, and the loop that tells the assemblers.
unfoldable pub use_frame0 : Result ℕ → Stream → Outcome Stream (Unit {0})
use_frame0 (fails e) s = throws e s
use_frame0 (returns f) s =
    done tt (record s { frame0_nano = f; assemblers = map (set_frame0 f) s.assemblers })

-- The local variables of `_assembler_thread_body`, beside the stream.
pub record Worker : Type 0 where
  pub stream : Stream
  pub packet_list : Option PacketList
  pub first_packet_received : Bool

-- What the fetch of frame0 gives is `frame0`.
unfoldable pub frame0_if_first : Result ℕ → Bool → Stream → Outcome Stream (Unit {0})
unfolding use_frame0
frame0_if_first frame0 received s =
    if not received && s.ini_params.has_frame0_url then use_frame0 frame0 s else done tt s

unfoldable pub work_on : Option PacketList → Bool → Outcome Stream (Unit {0}) → Outcome Worker Bool
work_on p received (done t s) =
    done true (record { stream = s; packet_list = p; first_packet_received = received })
work_on p received (throws e s) =
    throws e (record { stream = s; packet_list = p; first_packet_received = received })
work_on p received (waits s) =
    waits (record { stream = s; packet_list = p; first_packet_received = received })

unfoldable pub handle_got : Env → Option PacketList → Stream → Outcome Stream (Unit {0})
unfolding handle_list
handle_got env none s = throws null_dereference s
handle_got env (some l) s = handle_list env l s

abbrev pub from_shared : Worker → Shared → Worker
from_shared w (u, p) = record w {
  stream = record w.stream { unassembled_ringbuf = u };
  packet_list = p;
}

-- What follows `get_packet_list`: whether the loop goes on.
unfoldable pub after_get : Env → Result ℕ → Worker → Outcome Shared Bool → Outcome Worker Bool
unfolding frame0_if_first work_on handle_got
after_get env frame0 w (done false u) = done false (from_shared w u)
after_get env frame0 w (done true u) =
    let w' = from_shared w u in
    work_on w'.packet_list true (
      and_then (frame0_if_first frame0 w.first_packet_received w'.stream)
        (λ t s. handle_got env w'.packet_list s))
after_get env frame0 w (throws e u) = throws e (from_shared w u)
after_get env frame0 w (waits u) = waits (from_shared w u)

-- One pass of the main loop.
unfoldable pub assembler_pass : Env → Result ℕ → Worker → Outcome Worker Bool
unfolding after_get
assembler_pass env frame0 w =
    after_get env frame0 w (get_packet_list w.packet_list w.stream.unassembled_ringbuf)

-- The loop of `_assembler_thread_exit` over the assemblers, `n` of them from `i` on.
unfoldable pub end_assembler : Env → Stream → ℕ → Option Ring → Outcome Stream (Unit {0})
unfolding on_assembler
end_assembler env s i none = done tt s
end_assembler env s i (some r) =
    on_assembler s i (Assemble.end_stream env (r, s.assembler_thread_event_subcounts.assembler))

unfoldable pub end_assemblers : Env → ℕ → ℕ → Stream → Outcome Stream (Unit {0})
unfolding end_assembler
end_assemblers env i zero s = done tt s
end_assemblers env i (suc n) s =
    and_then (end_assembler env s i (get_elem? s.assemblers i))
      (λ t s'. end_assemblers env (i + 1) n s')

-- _assembler_thread_exit()
unfoldable pub assembler_thread_exit : Env → Stream → Outcome Stream (Unit {0})
unfolding end_assemblers
assembler_thread_exit env s =
    and_then
      (end_assemblers env 0 (length s.assemblers) (record s {
        flags = Control.end_stream s.flags;
        unassembled_ringbuf = UdpRing.end_stream s.unassembled_ringbuf;
      }))
      (λ t s'. done tt (add_assembler_events s'))
