-- ===== src/UdpRing.antt =====
-- udp_packet_ringbuf.cpp: packet lists handed from one thread to another. A `unique_ptr` argument
-- is an `Option`, and is part of the state that a call returns, since the call swaps it. Each
-- function is one critical section: `waits` is a `pthread_cond_wait`, after which the thread runs
-- the loop of the call again. `ringbuf_pos` is an `int` that only grows: what is said of whole histories
-- is said of those in which it stays below 2 ^ 31.
pub mod Queue
pub mod Refine
pub mod Oldest
pub mod History
pub mod Tests
use ch_frb_io.Base.{
  ℕ, ◌+◌, ◌-◌, ◌%◌, Bool, true, false, not, Option, none, some, List, [], ltb, if◌then◌else◌,
  get_or, set, replicate,
}
use ch_frb_io.Outcome.{
  ℤ, pos, pos_part, leb_ℤ, Result, returns, fails, Outcome, done, throws, waits,
  bad_ringbuf_capacity, empty_pointer, put_after_end_of_stream,
}
use ch_frb_io.UdpList.{PacketList, reset}
use ch_frb_io.UdpList

pub record Ring : Type 0 where
  pub ringbuf_capacity : ℕ
  pub max_npackets_per_list : ℤ
  pub max_nbytes_per_list : ℤ
  pub stream_ended : Bool
  pub ringbuf_size : ℕ
  pub ringbuf_pos : ℕ
  pub ringbuf : List PacketList

filled : ℤ → ℤ → ℤ → Result PacketList → Result Ring
filled capacity max_npackets max_nbytes (fails e) = fails e
filled capacity max_npackets max_nbytes (returns l) = returns (record {
  ringbuf_capacity = pos_part capacity;
  max_npackets_per_list = max_npackets;
  max_nbytes_per_list = max_nbytes;
  stream_ended = false;
  ringbuf_size = 0;
  ringbuf_pos = 0;
  ringbuf = replicate (pos_part capacity) l;
})

-- The constructor. Each of its packet lists is made by the same call, so one call decides for all.
unfoldable pub make : ℤ → ℤ → ℤ → Result Ring
unfolding filled
make capacity max_npackets max_nbytes =
    if leb_ℤ capacity (pos 0)
    then fails bad_ringbuf_capacity
    else filled capacity max_npackets max_nbytes (UdpList.make max_npackets max_nbytes)

-- The caller's pointer beside the ring buffer.
abbrev pub Shared : Type 0
Shared = Ring × Option PacketList

-- One pass of the loop of `put_packet_list`.
unfoldable pub put_pass : PacketList → Bool → Ring → Outcome Shared Bool
put_pass p is_blocking r =
    if r.stream_ended
    then throws put_after_end_of_stream (r, some p)
    else if ltb r.ringbuf_size r.ringbuf_capacity
    then (let i = (r.ringbuf_pos + r.ringbuf_size) % r.ringbuf_capacity in
        done true (
          record r { ringbuf = set r.ringbuf i p; ringbuf_size = r.ringbuf_size + 1 },
          some (reset (get_or r.ringbuf i p)),
        ))
    else if not is_blocking
    then done false (r, some (reset p))
    else waits (r, some p)

unfoldable pub put_packet_list : Option PacketList → Bool → Ring → Outcome Shared Bool
unfolding put_pass
put_packet_list none is_blocking r = throws empty_pointer (r, none)
put_packet_list (some p) is_blocking r = put_pass p is_blocking r

-- One pass of the loop of `get_packet_list`.
unfoldable pub get_pass : PacketList → Ring → Outcome Shared Bool
get_pass p r =
    if ltb 0 r.ringbuf_size
    then (let i = r.ringbuf_pos % r.ringbuf_capacity in
        done true (
          record r {
            ringbuf = set r.ringbuf i p;
            ringbuf_pos = r.ringbuf_pos + 1;
            ringbuf_size = r.ringbuf_size - 1;
          },
          some (get_or r.ringbuf i p),
        ))
    else if r.stream_ended
    then done false (r, some p)
    else waits (r, some p)

unfoldable pub get_packet_list : Option PacketList → Ring → Outcome Shared Bool
unfolding get_pass
get_packet_list none r = throws empty_pointer (r, none)
get_packet_list (some p) r = get_pass (reset p) r

unfoldable pub end_stream : Ring → Ring
end_stream r = record r { stream_ended = true }

unfoldable pub is_alive : Ring → Bool
is_alive r = not r.stream_ended

-- Current size and capacity.
unfoldable pub get_size : Ring → ℕ × ℕ
get_size r = (r.ringbuf_size, r.ringbuf_capacity)
