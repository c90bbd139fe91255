-- ===== src/UdpRing/History.antt =====
-- Histories of a ring buffer that producers and consumers share: any interleaving of the critical
-- sections of its calls.
use native.Mathlib.Nat.{mod-lt}
use ch_frb_io.Base.{
  ◌+◌, ◌%◌, ◌^◌, ◌<◌, ◌≤◌, length, ◌≡◌, refl, ◌∙◌, Bool, true, false, Option, none, some, List, [],
  ◌∷◌, ◌++◌, arith, ltb, if◌then◌else◌, get_or, get_or_default, append_assoc, append-nil,
}
use ch_frb_io.Base.Window.{window_push, window_pop}
use ch_frb_io.Outcome.{Outcome, done, throws, waits, after}
use ch_frb_io.UdpList.{PacketList, packets, reset, first_packets}
use ch_frb_io.UdpRing.{Ring, Shared, put_packet_list, get_packet_list, end_stream}
use ch_frb_io.UdpRing.Refine.{IsValid, contents, blank, put-IsValid, get-IsValid}

-- One critical section of some thread. A thread that waits runs its section again later.
pub data Event : Type 0 where
  putting : PacketList → Bool → Event
  getting : PacketList → Event
  ending : Event

-- The ring buffer with what calls of `put_packet_list` have handed in and calls of
-- `get_packet_list` have taken out, oldest first.
pub record Trace : Type 0 where
  pub ring : Ring
  pub put_in : List PacketList
  pub taken : List PacketList

abbrev accepted_by : PacketList → Outcome Shared Bool → List PacketList
accepted_by p (done true s) = p ∷ []
accepted_by p (done false s) = []
accepted_by p (throws e s) = []
accepted_by p (waits s) = []

abbrev pointee : Option PacketList → List PacketList
pointee none = []
pointee (some x) = x ∷ []

abbrev taken_by : Outcome Shared Bool → List PacketList
taken_by (done true s) = pointee s.1
taken_by (done false s) = []
taken_by (throws e s) = []
taken_by (waits s) = []

pub step : Event → Trace → Trace
step (putting p is_blocking) t =
    let o = put_packet_list (some p) is_blocking t.ring in
    record t { ring = (after o).0; put_in = t.put_in ++ accepted_by p o }
step (getting p) t =
    let o = get_packet_list (some p) t.ring in
    record t { ring = (after o).0; taken = t.taken ++ taken_by o }
step ending t = record t { ring = end_stream t.ring }

unfoldable pub run : List Event → Trace → Trace
unfolding step
run [] t = t
run (e ∷ es) t = run es (step e t)

contents-put :
    (p : PacketList) (b : Bool) {r : Ring}
    → IsValid r
    → contents (after (put_packet_list (some p) b r)).0
      ≡ contents r ++ accepted_by p (put_packet_list (some p) b r)
unfolding put_packet_list
contents-put p b {r} v = ground (
  arith,
  window_push r.ringbuf_capacity blank r.ringbuf p r.ringbuf_pos r.ringbuf_size,
  append-nil (contents r),
)

contents-get :
    (p : PacketList) {r : Ring}
    → IsValid r
    → taken_by (get_packet_list (some p) r) ++ contents (after (get_packet_list (some p) r)).0
      ≡ contents r
unfolding get_packet_list
contents-get p {r} v = ground (
  arith,
  window_pop r.ringbuf_capacity blank r.ringbuf (reset p) r.ringbuf_pos r.ringbuf_size,
  get_or_default r.ringbuf (r.ringbuf_pos % r.ringbuf_capacity) blank (reset p),
  mod-lt r.ringbuf_pos v.some_slots,
)

abbrev IsFifo : Trace → Type 0
IsFifo t = IsValid t.ring × (t.taken ++ contents t.ring ≡ t.put_in)

step-IsFifo : (e : Event) (t : Trace) → IsFifo t → IsFifo (step e t)
unfolding step end_stream
step-IsFifo (putting p b) t (v, f) =
    (put-IsValid (some p) b v, rw (contents-put p b v, ← append_assoc, f))
step-IsFifo (getting p) t (v, f) = (get-IsValid (some p) v, rw (append_assoc, contents-get p v) f)
step-IsFifo ending t (v, f) = (ground arith, f)

-- No section moves the position by more than one, or changes the capacity.
step-position :
    (e : Event) (t : Trace)
    → ((step e t).ring.ringbuf_pos ≤ t.ring.ringbuf_pos + 1)
      × ((step e t).ring.ringbuf_capacity ≡ t.ring.ringbuf_capacity)
unfolding step put_packet_list get_packet_list end_stream
step-position (putting p b) t = ground arith
step-position (getting p) t = ground arith
step-position ending t = ground arith

-- The sum that the code takes modulo the capacity is an `int` that does not overflow.
abbrev pub FitsInt : Ring → Type 0
FitsInt r = r.ringbuf_pos + r.ringbuf_size < 2 ^ 31

-- From a valid ring, whatever the interleaving of puts, gets and the end of the stream, if the lists
-- taken out and those in the ring buffer are those handed in, then they stay so: the lists taken out,
-- followed by those still in the ring buffer, are exactly the lists that calls have handed in, in that
-- order: none is lost, repeated or overtaken. The position, which is never reduced, must have room in
-- an `int` for one step in each section and for the capacity; then the index stays an `int`.
pub run-IsFifo :
    (es : List Event) (t : Trace)
    → IsValid t.ring
    → t.taken ++ contents t.ring ≡ t.put_in
    → t.ring.ringbuf_pos + length es + t.ring.ringbuf_capacity < 2 ^ 31
    → IsValid (run es t).ring
      × ((run es t).taken ++ contents (run es t).ring ≡ (run es t).put_in)
      × FitsInt (run es t).ring
unfolding run
run-IsFifo [] t v f small = (v, f, omega (arith, v.size_in))
run-IsFifo (e ∷ es) t v f small =
    let (w, g) = step-IsFifo e t (v, f) in
    let (moved, same) = step-position e t in
    run-IsFifo es (step e t) w g (omega (arith, moved, same))

step_ended :
    (e : Event) (t : Trace)
    → t.ring.stream_ended ≡ true
    → ((step e t).ring.stream_ended ≡ true) × ((step e t).put_in ≡ t.put_in)
unfolding step put_packet_list get_packet_list end_stream
step_ended (putting p b) t h = ground (arith, append-nil t.put_in)
step_ended (getting p) t h = ground arith
step_ended ending t h = ground arith

-- After `end_stream` no list is ever accepted again.
pub run_ended :
    (es : List Event) (t : Trace) → t.ring.stream_ended ≡ true → (run es t).put_in ≡ t.put_in
unfolding run
run_ended [] t h = refl
run_ended (e ∷ es) t h = let (h', q) = step_ended e t h in run_ended es (step e t) h' ∙ q

abbrev swapped : PacketList → Ring → PacketList
swapped p r =
    if ltb r.ringbuf_size r.ringbuf_capacity
    then get_or r.ringbuf ((r.ringbuf_pos + r.ringbuf_size) % r.ringbuf_capacity) p
    else p

-- A call of `put_packet_list` that returns leaves the caller with an empty list to fill, whether its
-- own was taken or dropped.
pub put_packet_list_recycles :
    (p : PacketList) (b b' : Bool) (r r' : Ring) (q : Option PacketList)
    → put_packet_list (some p) b r ≡ done b' (r', q)
    → (l : PacketList) × (q ≡ some l) × (packets l ≡ []) × (l.is_full ≡ false)
unfolding put_packet_list reset first_packets
put_packet_list_recycles p b b' r r' q e =
    (reset (swapped p r), ground arith, ground arith, ground arith)
