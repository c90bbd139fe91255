-- ===== src/Stream/Delivery.antt =====
-- What the assembler thread does with packets, in numbers: every packet is bad, mismatched or good, and
-- every beam of a good packet is a hit, a miss or a beam that the stream does not have.
use ch_frb_io.Base.{
  ℕ, zero, suc, ◌+◌, ◌*◌, ◌<◌, ◌≡◌, refl, sym, ap, subst, ◌∙◌, ◌⊎◌, inl, inr, true, false,
  Bool-cases, length, length-set, get_elem?, drop, arith,
}
use ch_frb_io.Outcome.{Outcome, done, throws, waits, Ends, and_then-Ends, Ends-weaken}
use ch_frb_io.Packet.{Packet, Decoded, good, bad, undefined, beam_id}
use ch_frb_io.UdpList.{PacketList, get_packet_data, get_packet_nbytes}
use ch_frb_io.ChunkRing.{Env, Ring}
use ch_frb_io.ChunkRing.Put.{State}
use ch_frb_io.ChunkRing.Assembling.{StillValid}
use ch_frb_io.Stream.{Stream, Events, Initializer, add_assembler_events, sum_events, sum_counts}
use ch_frb_io.Stream.Beams.{
  Search, no_match, put_to, on_assembler, deliver, handle_beam, handle_beams, handle_decoded,
  handle_packet, next_beam, first_beam, is_mismatch, with_events, see_fpga, count_good,
}
use ch_frb_io.Stream.Assembler.{handle_packets, handle_list}
use ch_frb_io.Stream.Routing.{FirstFrom, find_assembler-ends}
use ch_frb_io.Stream.Ready.{
  IsReady, IsSound, IsReady-IsSound, All, All-weaken, All-set, All-get_elem?, get_elem?-in_range,
  TookPacket, put_unassembled_packet-IsReady,
}

-- The beams that have been counted, and the packets.
abbrev pub beam_total : Events → ℕ
beam_total e = e.beam_id_mismatch + (e.assembler.assembler_hit + e.assembler.assembler_miss)

abbrev pub packet_total : Events → ℕ
packet_total e = e.packet_good + e.packet_bad + e.stream_mismatch

-- The assembler thread's counts.
abbrev pub counts : Stream → Events
counts s = s.assembler_thread_event_subcounts

-- A stream with one assembler for each beam, all of them ready.
abbrev pub AllReady : Stream → Type 0
AllReady s = All IsReady s.assemblers × (length s.assemblers ≡ length s.ini_params.beam_ids)

abbrev pub AllSound : Stream → Type 0
AllSound s = All IsSound s.assemblers

-- `k` beams were counted, and no packet.
pub record Delivered (s : Stream) (k : ℕ) (t : Stream) : Type 0 where
  pub ready : AllReady t
  pub params_same : t.ini_params ≡ s.ini_params
  pub total_same : t.cumulative_event_counts ≡ s.cumulative_event_counts
  pub beams : beam_total (counts t) ≡ beam_total (counts s) + k
  pub good_same : (counts t).packet_good ≡ (counts s).packet_good
  pub bad_same : (counts t).packet_bad ≡ (counts s).packet_bad
  pub mismatch_same : (counts t).stream_mismatch ≡ (counts s).stream_mismatch

put_back-Ends :
    (s : Stream) (ix : ℕ) (r : Ring) (o : Outcome State (Unit {0}))
    → AllReady s
    → Ends (TookPacket (r, (counts s).assembler)) StillValid o
    → Ends (Delivered s 1) AllSound (on_assembler s ix o)
unfolding on_assembler
put_back-Ends s ix r (done a (r', n)) (w, l) (p, e) = record {
  ready = (All-set IsReady s.assemblers ix r' p w, length-set s.assemblers ix r' ∙ l);
  params_same = refl;
  total_same = refl;
  beams = omega arith;
  good_same = refl;
  bad_same = refl;
  mismatch_same = refl;
}
put_back-Ends s ix r (throws x (r', n)) (w, l) v =
    All-set IsSound s.assemblers ix r' v (All-weaken IsReady IsSound IsReady-IsSound _ w)
put_back-Ends s ix r (waits t) (w, l) h = h

put_to-Ends :
    (env : Env) (packet : Packet) (s : Stream) (ix : ℕ)
    → AllReady s
    → ix < length s.assemblers
    → Ends (Delivered s 1) AllSound (put_to env packet s ix (get_elem? s.assemblers ix))
unfolding put_to
put_to-Ends env packet s ix (w, l) h =
    let (r, e) = get_elem?-in_range s.assemblers ix h in
    subst (λ o. Ends (Delivered s 1) AllSound (put_to env packet s ix o)) (sym e)
      (put_back-Ends s ix r _ (w, l)
        (put_unassembled_packet-IsReady env packet r (counts s).assembler
          (All-get_elem? IsReady s.assemblers ix r e w)))

deliver-Ends :
    (env : Env) (packet : Packet) (s : Stream) (id : ℕ) (q : Search)
    → AllReady s
    → FirstFrom s.ini_params.beam_ids id 0 q
    → Ends (Delivered s 1) AllSound (deliver env packet q s)
unfolding deliver
deliver-Ends env packet s id q (w, l) (inl (i, e, a, b, m, rest)) =
    subst (λ q. Ends (Delivered s 1) AllSound (deliver env packet q s)) (sym e)
      (put_to-Ends env packet s i (w, l) (omega arith))
deliver-Ends env packet s id q (w, l) (inr (e, rest)) =
    subst (λ q. Ends (Delivered s 1) AllSound (deliver env packet q s)) (sym e)
      (missed (Bool-cases s.ini_params.throw_exception_on_beam_id_mismatch))
  where
    missed :
        (s.ini_params.throw_exception_on_beam_id_mismatch ≡ true)
          ⊎ (s.ini_params.throw_exception_on_beam_id_mismatch ≡ false)
        → Ends (Delivered s 1) AllSound (deliver env packet no_match s)
    missed (inl f) = simp f (All-weaken IsReady IsSound IsReady-IsSound s.assemblers w)
    missed (inr f) = simp f (record {
      ready = (w, l);
      params_same = refl;
      total_same = refl;
      beams = omega arith;
      good_same = refl;
      bad_same = refl;
      mismatch_same = refl;
    })

handle_beam-Ends :
    (env : Env) (packet : Packet) (s : Stream)
    → AllReady s
    → Ends (Delivered s 1) AllSound (handle_beam env packet s)
unfolding handle_beam
handle_beam-Ends env packet s w =
    deliver-Ends env packet s (beam_id packet 0) _ w
      (find_assembler-ends s.ini_params.beam_ids (beam_id packet 0))

Delivered-then :
    (s t u : Stream) (j k : ℕ) → Delivered s j t → Delivered t k u → Delivered s (j + k) u
Delivered-then s t u j k a b = record {
  ready = b.ready;
  params_same = b.params_same ∙ a.params_same;
  total_same = b.total_same ∙ a.total_same;
  beams = omega (arith, a.beams, b.beams);
  good_same = b.good_same ∙ a.good_same;
  bad_same = b.bad_same ∙ a.bad_same;
  mismatch_same = b.mismatch_same ∙ a.mismatch_same;
}

handle_beams-Ends :
    (env : Env) (n : ℕ) (packet : Packet) (s : Stream)
    → AllReady s
    → Ends (Delivered s n) AllSound (handle_beams env n packet s)
unfolding handle_beams
handle_beams-Ends env zero packet s w = record {
  ready = w;
  params_same = refl;
  total_same = refl;
  beams = omega arith;
  good_same = refl;
  bad_same = refl;
  mismatch_same = refl;
}
handle_beams-Ends env (suc n) packet s w =
    and_then-Ends (Delivered s 1) (Delivered s (suc n)) AllSound (handle_beam env packet s) _
      (handle_beam-Ends env packet s w)
      (λ a t d.
        Ends-weaken (Delivered t n) (Delivered s (suc n)) AllSound
          (handle_beams env n (next_beam packet) t)
          (λ u d'.
            subst (λ k. Delivered s k u) {x = 1 + n} (omega arith) (Delivered-then s t u 1 n d d'))
          (handle_beams-Ends env n (next_beam packet) t d.ready))

-- `k` packets were counted, and for each of them that is good, all its beams.
pub record Handled (s : Stream) (k : ℕ) (t : Stream) : Type 0 where
  pub ready : AllReady t
  pub params_same : t.ini_params ≡ s.ini_params
  pub total_same : t.cumulative_event_counts ≡ s.cumulative_event_counts
  pub packets : packet_total (counts t) ≡ packet_total (counts s) + k
  pub beams :
      beam_total (counts t) + length s.ini_params.beam_ids * (counts s).packet_good
      ≡ beam_total (counts s) + length s.ini_params.beam_ids * (counts t).packet_good

good-Handled :
    (p : Packet) (s t : Stream)
    → Delivered (see_fpga p (with_events count_good s)) (length s.ini_params.beam_ids) t
    → Handled s 1 t
good-Handled p s t d = record {
  ready = d.ready;
  params_same = d.params_same;
  total_same = d.total_same;
  packets = omega (arith, d.good_same, d.bad_same, d.mismatch_same);
  beams = rw d.good_same (grind (arith, d.beams));
}

handle_decoded-Ends :
    (env : Env) (d : Decoded) (s : Stream)
    → AllReady s
    → Ends (Handled s 1) AllSound (handle_decoded env d s)
unfolding handle_decoded
handle_decoded-Ends env bad s w = record {
  ready = w;
  params_same = refl;
  total_same = refl;
  packets = omega arith;
  beams = refl;
}
handle_decoded-Ends env undefined s (w, l) =
    All-weaken IsReady IsSound IsReady-IsSound s.assemblers w
handle_decoded-Ends env (good p) s (w, l) = elim (Bool-cases (is_mismatch s.ini_params p)) [
  | inl m ↦ elim (Bool-cases s.ini_params.throw_exception_on_packet_mismatch) [
    | inl f ↦ simp (m, f) (All-weaken IsReady IsSound IsReady-IsSound s.assemblers w)
    | inr f ↦
        simp (m, f)
          (record {
            ready = (w, l);
            params_same = refl;
            total_same = refl;
            packets = omega arith;
            beams = refl;
          })
  ]
  | inr m ↦ simp m (
      Ends-weaken _ (Handled s 1) AllSound
        (handle_beams env (length s.ini_params.beam_ids) (first_beam p)
          (see_fpga p (with_events count_good s)))
        (good-Handled p s)
        (handle_beams-Ends env (length s.ini_params.beam_ids) (first_beam p)
          (see_fpga p (with_events count_good s)) (w, l)))
]

Handled-then : (s t u : Stream) (j k : ℕ) → Handled s j t → Handled t k u → Handled s (j + k) u
Handled-then s t u j k a b =
    let nb = ap (λ (x : Initializer). length x.beam_ids) a.params_same in
    let beams : beam_total (counts u) + length s.ini_params.beam_ids * (counts t).packet_good
        ≡ beam_total (counts t) + length s.ini_params.beam_ids * (counts u).packet_good =
      rw (← nb) b.beams in
    record {
      ready = b.ready;
      params_same = b.params_same ∙ a.params_same;
      total_same = b.total_same ∙ a.total_same;
      packets = omega (arith, a.packets, b.packets);
      beams = omega (arith, a.beams, beams);
    }

handle_packets-Ends :
    (env : Env) (l : PacketList) (ipacket n : ℕ) (s : Stream)
    → AllReady s
    → Ends (Handled s n) AllSound (handle_packets env l ipacket n s)
unfolding handle_packets handle_packet
handle_packets-Ends env l ipacket zero s w = record {
  ready = w;
  params_same = refl;
  total_same = refl;
  packets = omega arith;
  beams = refl;
}
handle_packets-Ends env l ipacket (suc n) s w =
    and_then-Ends (Handled s 1) (Handled s (suc n)) AllSound
      (handle_packet env (drop (get_packet_data l ipacket) l.buf) (get_packet_nbytes l ipacket) s) _
      (handle_decoded-Ends env _ s w)
      (λ a t d.
        Ends-weaken (Handled t n) (Handled s (suc n)) AllSound
          (handle_packets env l (ipacket + 1) n t)
          (λ u d'.
            subst (λ k. Handled s k u) {x = 1 + n} (omega arith) (Handled-then s t u 1 n d d'))
          (handle_packets-Ends env l (ipacket + 1) n t d.ready))

-- The events of a stream: those that were accumulated, and those that the assembler thread has still
-- to accumulate.
abbrev pub so_far : Stream → Events
so_far s = sum_events s.cumulative_event_counts s.assembler_thread_event_subcounts

-- What the public counts say after a list of `k` packets.
pub record Accounted (s : Stream) (k : ℕ) (t : Stream) : Type 0 where
  pub ready : AllReady t
  pub packets : packet_total t.cumulative_event_counts ≡ packet_total (so_far s) + k
  pub beams :
      beam_total t.cumulative_event_counts + length s.ini_params.beam_ids * (so_far s).packet_good
      ≡ beam_total (so_far s) + length s.ini_params.beam_ids * t.cumulative_event_counts.packet_good

Handled-Accounted : (s t : Stream) (k : ℕ) → Handled s k t → Accounted s k (add_assembler_events t)
unfolding add_assembler_events sum_events sum_counts
Handled-Accounted s t k h = record {
  ready = h.ready;
  packets = rw h.total_same (omega (arith, h.packets));
  beams = rw h.total_same (grind (arith, h.beams));
}

-- A packet list, whatever its packets hold, on a stream whose assemblers are ready. If the thread goes
-- on, then the public counts have grown by the packets of the list, each of which was bad,
-- mismatched or good; and every beam of each good packet was counted as a hit, as a miss, or as a
-- beam that the stream does not have; and the assemblers are ready again. If it throws, the ring
-- buffers of all beams are valid. It never waits.
pub handle_list-Ends :
    (env : Env) (l : PacketList) (s : Stream)
    → AllReady s
    → Ends (Accounted s l.curr_npackets) AllSound (handle_list env l s)
unfolding handle_list
handle_list-Ends env l s w =
    and_then-Ends (Handled s l.curr_npackets) (Accounted s l.curr_npackets) AllSound
      (handle_packets env l 0 l.curr_npackets s) _ (handle_packets-Ends env l 0 l.curr_npackets s w)
      (λ a t h. Handled-Accounted s t l.curr_npackets h)
