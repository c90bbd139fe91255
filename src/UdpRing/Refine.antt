-- ===== src/UdpRing/Refine.antt =====
-- A valid ring buffer of packet lists behaves as the bounded queue of the lists that it holds.
use native.Mathlib.Decide.{dec_lt}
use native.Mathlib.Nat.{mod-lt}
use ch_frb_io.UdpList
use ch_frb_io.Base.{
  ◌+◌, ◌%◌, ◌≤◌, ◌<◌, ◌≡◌, Bool, true, false, Option, none, some, List, [], arith, length,
  length-set, length-replicate, get_or_default,
}
use ch_frb_io.Base.Window.{window, window_push, window_pop, length-window}
use ch_frb_io.Outcome.{
  ℤ, pos, pos_part, leb_ℤ, fails, Result, returns, Outcome, done, throws, waits, after,
}
use ch_frb_io.UdpList.{PacketList, packets, reset, first_packets}
use ch_frb_io.UdpRing.{Ring, Shared, make, filled, put_packet_list, get_packet_list}
use ch_frb_io.UdpRing.Queue
use ch_frb_io.UdpRing.Queue.{Queue, get_from}

pub record IsValid (r : Ring) : Type 0 where
  pub some_slots : 0 < r.ringbuf_capacity
  pub slots : length r.ringbuf ≡ r.ringbuf_capacity
  pub size_in : r.ringbuf_size ≤ r.ringbuf_capacity

abbrev pub blank : PacketList
blank = record {
  max_npackets = 0;
  max_nbytes = 0;
  curr_npackets = 0;
  curr_nbytes = 0;
  is_full = true;
  buf = [];
  data_end = 0;
  packet_offsets = [];
}

-- The lists that wait in the ring buffer, oldest first.
abbrev pub contents : Ring → List PacketList
contents r = window r.ringbuf_capacity blank r.ringbuf r.ringbuf_pos r.ringbuf_size

abbrev pub view : Ring → Queue
view r = record { ended = r.stream_ended; items = contents r }

-- The outcome of a call as a client of the queue sees it.
abbrev pub seen {ℓ} : {A : Type ℓ} → Outcome Shared A → Outcome Queue A
seen (done a s) = done a (view s.0)
seen (throws e s) = throws e (view s.0)
seen (waits s) = waits (view s.0)

-- `get_packet_list` reports by its Boolean result whether the pointer was filled.
abbrev pub delivered : Outcome Shared Bool → Outcome Shared (Option PacketList)
delivered (done true s) = done s.1 s
delivered (done false s) = done none s
delivered (throws e s) = throws e s
delivered (waits s) = waits s

filled-IsValid :
    (c m n : ℤ) (l : Result PacketList) {r : Ring}
    → leb_ℤ c (pos 0) ≡ false
    → filled c m n l ≡ returns r
    → IsValid r × (contents r ≡ []) × (r.stream_ended ≡ false)
unfolding filled
filled-IsValid c m n (fails x) h e = cc
filled-IsValid c m n (returns l) h e = ground (arith, length-replicate (pos_part c) l)

-- A ring buffer that the constructor returns is valid, empty and open.
pub make-IsValid :
    (c m n : ℤ) {r : Ring}
    → make c m n ≡ returns r
    → IsValid r × (contents r ≡ []) × (r.stream_ended ≡ false)
unfolding make
make-IsValid c m n {r} e = ground (arith, filled-IsValid c m n (UdpList.make m n) {r = r})

pub put-IsValid :
    (p : Option PacketList) (b : Bool) {r : Ring}
    → IsValid r
    → IsValid (after (put_packet_list p b r)).0
unfolding put_packet_list
put-IsValid none b v = v
put-IsValid (some p) b {r} v =
    ground (arith, length-set r.ringbuf ((r.ringbuf_pos + r.ringbuf_size) % r.ringbuf_capacity) p)

pub get-IsValid :
    (p : Option PacketList) {r : Ring} → IsValid r → IsValid (after (get_packet_list p r)).0
unfolding get_packet_list
get-IsValid none v = v
get-IsValid (some p) {r} v =
    ground (arith, length-set r.ringbuf (r.ringbuf_pos % r.ringbuf_capacity) (reset p))

-- A put on a valid ring, with a list and by a thread that waits or not, gives what a put on the queue
-- of the lists in the ring gives: the same answer, the same queue afterwards, and the same wait.
pub put_refines :
    (p : PacketList) (b : Bool) {r : Ring}
    → IsValid r
    → seen (put_packet_list (some p) b r) ≡ Queue.put r.ringbuf_capacity p b (view r)
unfolding put_packet_list Queue.put
put_refines p b {r} v = ground (
  arith,
  length-window r.ringbuf_capacity blank r.ringbuf r.ringbuf_pos r.ringbuf_size,
  window_push r.ringbuf_capacity blank r.ringbuf p r.ringbuf_pos r.ringbuf_size,
)

-- A get on a valid ring gives what a get on the queue of the lists in the ring gives: the oldest list,
-- the end of the stream once the queue is empty, or a wait.
pub get_refines :
    (p : PacketList) {r : Ring}
    → IsValid r
    → seen (delivered (get_packet_list (some p) r)) ≡ Queue.get (view r)
unfolding get_packet_list Queue.get
get_refines p {r} v = elim (dec_lt 0 r.ringbuf_size) [
  | yes l ↦ ground (
    arith,
    window_pop r.ringbuf_capacity blank r.ringbuf (reset p) r.ringbuf_pos r.ringbuf_size l
        v.size_in,
    get_or_default r.ringbuf (r.ringbuf_pos % r.ringbuf_capacity) blank (reset p),
    mod-lt r.ringbuf_pos v.some_slots,
  )
  | no l ↦ ground arith
]
