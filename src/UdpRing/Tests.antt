-- ===== src/UdpRing/Tests.antt =====
-- Runs of the ring buffer of packet lists, and the theorems at concrete rings.
use ch_frb_io.Base.{ℕ, ◌≡◌, refl, true, false, some, List, [], ◌∷◌, ◌++◌, arith}
use ch_frb_io.Outcome.{pos, done}
use ch_frb_io.UdpList.{PacketList, reset}
use ch_frb_io.UdpRing.{Ring, put_packet_list, get_packet_list}
use ch_frb_io.UdpRing.Queue
use ch_frb_io.UdpRing.Queue.{Queue}
use ch_frb_io.UdpRing.Refine.{
  IsValid, contents, blank, view, seen, delivered, put_refines, get_refines,
}
use ch_frb_io.UdpRing.History.{Event, putting, getting, ending, Trace, run, FitsInt, run-IsFifo}

abbrev labelled : ℕ → PacketList
labelled n = record blank { max_nbytes = n }

abbrev one_waiting : Ring
one_waiting = record {
  ringbuf_capacity = 2;
  max_npackets_per_list = pos 1;
  max_nbytes_per_list = pos 1;
  stream_ended = false;
  ringbuf_size = 1;
  ringbuf_pos = 3;
  ringbuf = labelled 8 ∷ labelled 9 ∷ [];
}

one_waiting-IsValid : IsValid one_waiting
one_waiting-IsValid = omega arith

contents-one_waiting : contents one_waiting ≡ labelled 9 ∷ []
contents-one_waiting = refl

put_when_full :
    put_packet_list (some (labelled 5)) false (record one_waiting { ringbuf_size = 2 })
    ≡ done false (record one_waiting { ringbuf_size = 2 }, some (reset (labelled 5)))
unfolding put_packet_list
put_when_full = refl

put_refines_example :
    seen (put_packet_list (some (labelled 5)) true one_waiting)
    ≡ Queue.put 2 (labelled 5) true (view one_waiting)
put_refines_example = put_refines (labelled 5) true one_waiting-IsValid

get_refines_example :
    seen (delivered (get_packet_list (some (labelled 5)) one_waiting))
    ≡ Queue.get (view one_waiting)
get_refines_example = get_refines (labelled 5) one_waiting-IsValid

abbrev opening : Trace
opening = record { ring = one_waiting; put_in = labelled 9 ∷ []; taken = [] }

abbrev script : List Event
script =
    putting (labelled 1) false
    ∷ getting blank
    ∷ putting (labelled 2) true
    ∷ ending
    ∷ getting blank
    ∷ []

run-IsFifo_example :
    IsValid (run script opening).ring
    × ((run script opening).taken ++ contents (run script opening).ring
        ≡ (run script opening).put_in)
    × FitsInt (run script opening).ring
run-IsFifo_example = run-IsFifo script opening one_waiting-IsValid refl (omega arith)
