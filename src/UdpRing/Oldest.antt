-- ===== src/UdpRing/Oldest.antt =====
-- What one get takes from a ring buffer of packet lists.
use native.Mathlib.Nat.{mod-lt}
use ch_frb_io.Base.{
  suc, ◌+◌, ◌%◌, ◌≡◌, refl, sym, ap, ◌∙◌, true, false, some, List, [], ◌∷◌, length, ◌-◌, set, arith,
  get_or_default, get_or, lt→ltb, length-set,
}
use ch_frb_io.Base.Window.{window_pop, length-window}
use ch_frb_io.Outcome.{done}
use ch_frb_io.UdpList.{PacketList, reset}
use ch_frb_io.UdpRing.{get_packet_list}
use ch_frb_io.UdpRing
use ch_frb_io.UdpRing.Refine.{IsValid, contents, blank}

-- The oldest list that waits is what a get gives.
pub get-oldest :
    (p x : PacketList) (rest : List PacketList) (r : UdpRing.Ring)
    → IsValid r
    → contents r ≡ x ∷ rest
    → (u : UdpRing.Ring) × (get_packet_list (some p) r ≡ done true (u, some x))
      × (contents u ≡ rest)
      × IsValid u
      × (u.stream_ended ≡ r.stream_ended)
unfolding get_packet_list
get-oldest p x rest r v e =
    let c = r.ringbuf_capacity in
    let i = r.ringbuf_pos % c in
    let size : r.ringbuf_size ≡ suc (length rest) =
      sym (length-window c blank r.ringbuf r.ringbuf_pos r.ringbuf_size) ∙ ap length e in
    let popped =
      window_pop c blank r.ringbuf (reset p) r.ringbuf_pos r.ringbuf_size (omega arith) v.size_in in
    let inside = mod-lt r.ringbuf_pos v.some_slots in
    let oldest = get_or_default r.ringbuf i blank (reset p) (omega (arith, v.slots)) in
    let slots = length-set r.ringbuf i (reset p) in
    let same : get_or r.ringbuf i (reset p) ≡ x = cc in
    let next = record r {
      ringbuf = set r.ringbuf i (reset p);
      ringbuf_pos = r.ringbuf_pos + 1;
      ringbuf_size = r.ringbuf_size - 1;
    } in
    (
      next,
      rw (lt→ltb 0 r.ringbuf_size (omega arith)) (ap (λ q. done true (next, some q)) same),
      cc,
      record {
        some_slots = v.some_slots;
        slots = slots ∙ v.slots;
        size_in = omega (arith, v.size_in);
      },
      refl,
    )

pub get-ended :
    (p : PacketList) (r : UdpRing.Ring)
    → IsValid r
    → contents r ≡ []
    → r.stream_ended ≡ true
    → get_packet_list (some p) r ≡ done false (r, some (reset p))
unfolding get_packet_list
get-ended p r v e h =
    let size : r.ringbuf_size ≡ 0 =
      sym (length-window r.ringbuf_capacity blank r.ringbuf r.ringbuf_pos r.ringbuf_size)
      ∙ ap length e in
    ground arith
