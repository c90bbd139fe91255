-- ===== src/Stream/Reception.antt =====
-- What the network thread does with packets, in numbers: every packet that it received was an
-- end-of-stream packet, is in the list that it fills, waits in the ring buffer, or was dropped.
use ch_frb_io.Base.{
  ℕ, ◌+◌, ◌%◌, ◌≡◌, refl, sym, ap, subst, ◌∙◌, ◌⊎◌, inl, inr, Bool, true, false, ◌&&◌, Bool-cases,
  Option, none, some, List, [], ◌∷◌, ◌++◌, length, length-set, leb, ltb, ◌||◌, ltb→lt, ◌==◌, ==→eq,
  if◌then◌else◌, arith,
}
use ch_frb_io.Base.Window.{window_push}
use ch_frb_io.Constants.{max_input_udp_packet_size}
use ch_frb_io.Outcome.{Error, Outcome, done, throws, waits, Ends, and_then-Ends, pos}
use ch_frb_io.UdpList.{PacketList, reset, fill, add_packet}
use ch_frb_io.UdpRing.{Shared, put_packet_list}
use ch_frb_io.UdpRing.Refine.{IsValid, blank, contents}
use ch_frb_io.UdpRing
use ch_frb_io.Stream.{Stream, Flags, no_events, add_network_events, sum_events}
use ch_frb_io.Stream.Control
use ch_frb_io.Stream.Perhost.{increment}
use ch_frb_io.Stream.Network.{
  after_put, put_list, put_unassembled_packets, network_flush_packets, update_packet_rates,
  Received, no_packet, read_error, packet_from, receive_packet, receive, after_add, add_incoming,
  Due, flush_if_due, rates_if_due, counts_if_due, network_pass, network_loop, fill_incoming,
  count_received,
}

abbrev pub pending : Option PacketList → ℕ
pending none = 0
pending (some l) = l.curr_npackets

abbrev pub waiting : List PacketList → ℕ
waiting [] = 0
waiting (l ∷ ls) = l.curr_npackets + waiting ls

waiting-append :
    (ls : List PacketList) (l : PacketList)
    → waiting (ls ++ (l ∷ [])) ≡ waiting ls + l.curr_npackets
waiting-append [] l = omega arith
waiting-append (x ∷ ls) l = omega (arith, waiting-append ls l)

-- All that was received, and all that is accounted for.
abbrev pub received : Stream → ℕ
received s =
    s.cumulative_event_counts.packet_received + s.network_thread_event_subcounts.packet_received

abbrev pub accounted : Stream → ℕ
accounted s =
    s.cumulative_event_counts.packet_end_of_stream
    + s.network_thread_event_subcounts.packet_end_of_stream
    + (s.cumulative_event_counts.packet_dropped + s.network_thread_event_subcounts.packet_dropped)
    + (pending s.incoming_packet_list + waiting (contents s.unassembled_ringbuf))

-- `d` packets have left the ring buffer.
abbrev pub IsBalanced : ℕ → Stream → Type 0
IsBalanced d s = IsValid s.unassembled_ringbuf × (received s ≡ accounted s + d)

-- One packet at most, that an exception found in the hands of the thread, is not accounted for.
abbrev pub IsNear : ℕ → Stream → Type 0
IsNear d s =
    IsValid s.unassembled_ringbuf
    × ((received s ≡ accounted s + d) ⊎ (received s ≡ accounted s + d + 1))

-- How a put that does not block may end.
abbrev HasPut : PacketList → UdpRing.Ring → Outcome Shared Bool → Type 0
HasPut l r o =
    ((r' : UdpRing.Ring) × (q : PacketList) × (o ≡ done true (r', some q))
      × (q.curr_npackets ≡ 0)
      × IsValid r'
      × (contents r' ≡ contents r ++ (l ∷ [])))
    ⊎ (o ≡ done false (r, some (reset l)))
    ⊎ ((e : Error) × (o ≡ throws e (r, some l)))

put-HasPut :
    (l : PacketList) (r : UdpRing.Ring) → IsValid r → HasPut l r (put_packet_list (some l) false r)
unfolding put_packet_list reset
put-HasPut l r v = elim (Bool-cases r.stream_ended) [
  | inl e ↦ simp e (inr (inr (_, refl)))
  | inr e ↦ elim (Bool-cases (ltb r.ringbuf_size r.ringbuf_capacity)) [
    | inl f ↦
        let i = (r.ringbuf_pos + r.ringbuf_size) % r.ringbuf_capacity in
        let small = ltb→lt r.ringbuf_size r.ringbuf_capacity f in
        simp (e, f)
          (inl (
            _,
            _,
            refl,
            refl,
            record {
              some_slots = v.some_slots;
              slots = length-set r.ringbuf i l ∙ v.slots;
              size_in = omega arith;
            },
            window_push r.ringbuf_capacity blank r.ringbuf l r.ringbuf_pos r.ringbuf_size v.slots
                small,
          ))
    | inr f ↦ simp (e, f) (inr (inl refl))
  ]
]

-- With nothing left in the list that the thread fills, and given flags.
abbrev pub IsFlushed : ℕ → Flags → Stream → Type 0
IsFlushed d f s = IsBalanced d s × (pending s.incoming_packet_list ≡ 0) × (s.flags ≡ f)

after_put-IsFlushed :
    (d : ℕ) (s : Stream) (l : PacketList) (o : Outcome Shared Bool)
    → s.incoming_packet_list ≡ some l
    → IsBalanced d s
    → HasPut l s.unassembled_ringbuf o
    → Ends (IsFlushed d s.flags) (IsNear d) (after_put l.curr_npackets s o)
unfolding after_put reset
after_put-IsFlushed d s l o e (v, b) (inl (r', q, p, z, v', c)) =
    let moved : waiting (contents r') ≡ waiting (contents s.unassembled_ringbuf) + l.curr_npackets =
      ap waiting c ∙ waiting-append _ l in
    let held : pending s.incoming_packet_list ≡ l.curr_npackets = ap pending e in
    subst (λ o. Ends (IsFlushed d s.flags) (IsNear d) (after_put l.curr_npackets s o)) (sym p)
      ((v', omega arith), z, refl)
after_put-IsFlushed d s l o e (v, b) (inr (inl p)) =
    let held : pending s.incoming_packet_list ≡ l.curr_npackets = ap pending e in
    subst (λ o. Ends (IsFlushed d s.flags) (IsNear d) (after_put l.curr_npackets s o)) (sym p)
      (elim (Bool-cases s.ini_params.throw_exception_on_buffer_drop) [
        | inl f ↦ simp f (v, inl (omega arith))
        | inr f ↦ simp f ((v, omega arith), refl, refl)
      ])
after_put-IsFlushed d s l o e (v, b) (inr (inr (x, p))) =
    let held : pending s.incoming_packet_list ≡ l.curr_npackets = ap pending e in
    subst (λ o. Ends (IsFlushed d s.flags) (IsNear d) (after_put l.curr_npackets s o)) (sym p)
      (v, inl (omega arith))

put_list-IsFlushed :
    (d : ℕ) (s : Stream) (p : Option PacketList)
    → s.incoming_packet_list ≡ p
    → IsBalanced d s
    → Ends (IsFlushed d s.flags) (IsNear d) (put_list p s)
unfolding put_list
put_list-IsFlushed d s none e (v, b) = (v, inl b)
put_list-IsFlushed d s (some l) e w = elim (Bool-cases (l.curr_npackets == 0)) [
  | inl z ↦ simp z (w, ap pending e ∙ ==→eq l.curr_npackets 0 z, refl)
  | inr z ↦ simp z (after_put-IsFlushed d s l _ e w (put-HasPut l s.unassembled_ringbuf w.0))
]

put_unassembled_packets-IsFlushed :
    (d : ℕ) (s : Stream)
    → IsBalanced d s
    → Ends (IsFlushed d s.flags) (IsNear d) (put_unassembled_packets s)
unfolding put_unassembled_packets
put_unassembled_packets-IsFlushed d s w = put_list-IsFlushed d s s.incoming_packet_list refl w

add_network_events-IsBalanced :
    (d : ℕ) (s : Stream) → IsBalanced d s → IsBalanced d (add_network_events s)
unfolding add_network_events sum_events
add_network_events-IsBalanced d s (v, b) = (v, omega arith)

flush-IsBalanced :
    (d : ℕ) (s : Stream) → IsBalanced d s → Ends (IsBalanced d) (IsNear d) (network_flush_packets s)
unfolding network_flush_packets
flush-IsBalanced d s w =
    and_then-Ends (IsFlushed d s.flags) (IsBalanced d) (IsNear d) (put_unassembled_packets s) _
      (put_unassembled_packets-IsFlushed d s w) (λ a t w'. add_network_events-IsBalanced d t w'.0)

-- A stream that holds a list, with one packet that is not accounted for yet.
abbrev HasOneMore : ℕ → PacketList → Stream → Type 0
HasOneMore d l s =
    (s.incoming_packet_list ≡ some l)
    × IsValid s.unassembled_ringbuf
    × (received s ≡ accounted s + d + 1)

-- How `add_packet` may end, as far as the count goes.
add_packet-count :
    (n : ℕ) (l : PacketList)
    → Ends (λ m. m.curr_npackets ≡ l.curr_npackets + 1) (λ m. m ≡ l) (add_packet (pos n) l)
unfolding add_packet
add_packet-count n l = elim (Bool-cases (leb (n + 0) 0 || ltb max_input_udp_packet_size (n + 0))) [
  | inl e ↦ simp e refl
  | inr e ↦ elim (Bool-cases l.is_full) [ inl f ↦ simp (e, f) refl | inr f ↦ simp (e, f) refl ]
]

after_add-IsBalanced :
    (d : ℕ) (s : Stream) (l : PacketList) (o : Outcome PacketList (Unit {0}))
    → HasOneMore d l s
    → Ends (λ m. m.curr_npackets ≡ l.curr_npackets + 1) (λ m. m ≡ l) o
    → Ends (IsBalanced d) (IsNear d) (after_add s o)
unfolding after_add
after_add-IsBalanced d s l (done a m) (e, v, b) h =
    let held : pending s.incoming_packet_list ≡ l.curr_npackets = ap pending e in
    let now : IsBalanced d (record s { incoming_packet_list = some m }) = (v, omega arith) in
    elim (Bool-cases m.is_full) [
      | inl f ↦ simp f (
          and_then-Ends (IsBalanced d) (IsBalanced d) (IsNear d)
            (network_flush_packets (record s { incoming_packet_list = some m })) _
            (flush-IsBalanced d (record s { incoming_packet_list = some m }) now) (λ x t w. w))
      | inr f ↦ simp f now
    ]
after_add-IsBalanced d s l (throws x m) (e, v, b) h =
    let held : pending s.incoming_packet_list ≡ l.curr_npackets = ap pending e in
    let same : m.curr_npackets ≡ l.curr_npackets = ap (λ (q : PacketList). q.curr_npackets) h in
    (v, inr (omega arith))
after_add-IsBalanced d s l (waits m) w h = h

add_incoming-IsBalanced :
    (d n : ℕ) (s : Stream) (p : Option PacketList)
    → s.incoming_packet_list ≡ p
    → IsValid s.unassembled_ringbuf
    → received s ≡ accounted s + d + 1
    → Ends (IsBalanced d) (IsNear d) (add_incoming n p s)
unfolding add_incoming
add_incoming-IsBalanced d n s none e v b = (v, inr b)
add_incoming-IsBalanced d n s (some l) e v b =
    after_add-IsBalanced d s l (add_packet (pos n) l) (e, v, b) (add_packet-count n l)

pending-fill_incoming :
    (bytes : List ℕ) (p : Option PacketList) → pending (fill_incoming bytes p) ≡ pending p
unfolding fill
pending-fill_incoming bytes none = refl
pending-fill_incoming bytes (some l) = refl

receive-IsBalanced :
    (d : ℕ) (got : Received) (s : Stream)
    → IsBalanced d s
    → Ends (IsBalanced d) (IsNear d) (receive got s)
unfolding receive receive_packet
receive-IsBalanced d no_packet s w = w
receive-IsBalanced d read_error s (v, b) = (v, inl b)
receive-IsBalanced d (packet_from ip port bytes) s (v, b) =
    let same = pending-fill_incoming bytes s.incoming_packet_list in
    elim (Bool-cases (length bytes == 24)) [
      | inl e ↦ simp e (v, omega arith)
      | inr e ↦ simp e (
          add_incoming-IsBalanced d (length bytes) (counted ip port bytes s) _ refl v (omega arith))
    ]
  where
    counted : ℕ → ℕ → List ℕ → Stream → Stream
    counted ip port bytes s = record s {
      incoming_packet_list = fill_incoming bytes s.incoming_packet_list;
      network_thread_perhost_packets = increment ip port s.network_thread_perhost_packets;
      network_thread_event_subcounts =
          count_received (length bytes) s.network_thread_event_subcounts;
    }

flush_if_due-IsBalanced :
    (d : ℕ) (due : Bool) (s : Stream)
    → IsBalanced d s
    → Ends (IsBalanced d) (IsNear d) (flush_if_due due s)
unfolding flush_if_due
flush_if_due-IsBalanced d true s w = flush-IsBalanced d s w
flush_if_due-IsBalanced d false s w = w

counts_if_due-IsBalanced :
    (d : ℕ) (due : Due) (s : Stream) → IsBalanced d s → IsBalanced d (counts_if_due due s)
counts_if_due-IsBalanced d due s w = elim (Bool-cases due.cancellation_check) [
  | inl e ↦ simp e (add_network_events-IsBalanced d s w)
  | inr e ↦ simp e w
]

rates_if_due-IsBalanced :
    (d : ℕ) (due : Due) (last : List (ℕ × ℕ)) (s : Stream)
    → IsBalanced d s
    → IsBalanced d (rates_if_due due last s)
unfolding update_packet_rates
rates_if_due-IsBalanced d due last s w = elim (Bool-cases due.packet_count) [
  | inl e ↦ simp e w
  | inr e ↦ simp e w
]

network_pass-IsBalanced :
    (d : ℕ) (due : Due) (last : List (ℕ × ℕ)) (got : Received) (s : Stream)
    → IsBalanced d s
    → Ends (IsBalanced d) (IsNear d) (network_pass due last got s)
unfolding network_pass
network_pass-IsBalanced d due last got s w =
    elim (Bool-cases (due.cancellation_check && s.flags.stream_end_requested)) [
      | inl e ↦ simp e (
          and_then-Ends (IsBalanced d) (IsBalanced d) (IsNear d) (network_flush_packets s) _
            (flush-IsBalanced d s w) (λ a t w'. w'))
      | inr e ↦ simp e (
          and_then-Ends (IsBalanced d) (IsBalanced d) (IsNear d)
            (flush_if_due due.flush (counts_if_due due s)) _
            (flush_if_due-IsBalanced d due.flush (counts_if_due due s)
              (counts_if_due-IsBalanced d due s w))
            (λ a t w'.
              receive-IsBalanced d got (rates_if_due due last t)
                (rates_if_due-IsBalanced d due last t w')))
    ]

-- Any number of passes of the network thread's loop, with any packets, timeouts and errors from the
-- socket. At the end of a pass each packet that was received, since the balance was right, was an
-- end-of-stream packet, or was dropped and counted as dropped, or is in the list that the thread fills
-- or in the ring buffer; if an exception ends the loop, this holds but for at most the one packet in
-- hand. The ring buffer stays valid, and the loop waits for nothing but the socket.
pub network_loop-IsBalanced :
    (d : ℕ) (rounds : List (Due × Received)) (s : Stream)
    → IsBalanced d s
    → Ends (IsBalanced d) (IsNear d) (network_loop rounds s)
unfolding network_loop
network_loop-IsBalanced d [] s w = w
network_loop-IsBalanced d ((due, got) ∷ rounds) s w =
    and_then-Ends (IsBalanced d) (IsBalanced d) (IsNear d) (network_pass due [] got s) _
      (network_pass-IsBalanced d due [] got s w)
      (λ goes_on t w'.
        elim goes_on
          as (λ b.
            Ends (IsBalanced d) (IsNear d) (if b then network_loop rounds t else done false t)) [
              | true ↦ network_loop-IsBalanced d rounds t w'
              | false ↦ w'
            ])

-- The network thread at its end: no list is half filled, the ring buffer is closed, the socket too, and
-- the end of the stream was requested.
abbrev pub HasExited : ℕ → Stream → Type 0
HasExited d s =
    IsBalanced d s
    × (pending s.incoming_packet_list ≡ 0)
    × (s.unassembled_ringbuf.stream_ended ≡ true)
    × (s.flags.stream_end_requested ≡ true)
    × (s.socket_open ≡ false)
    × (s.network_thread_event_subcounts ≡ no_events)
