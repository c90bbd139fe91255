-- ===== src/Stream/Network.antt =====
-- The network thread: packets from the socket into packet lists, and packet lists into the ring buffer
-- between the threads.
use ch_frb_io.Base.{
  ℕ, ◌+◌, Bool, true, false, not, ◌&&◌, Option, none, some, List, [], ◌∷◌, length, if◌then◌else◌,
  ◌==◌,
}
use ch_frb_io.Outcome.{
  pos, Outcome, done, throws, waits, and_then, null_dereference, buffer_drop, read_failed,
}
use ch_frb_io.UdpList.{PacketList, fill, add_packet}
use ch_frb_io.UdpRing.{Shared, put_packet_list}
use ch_frb_io.UdpRing
use ch_frb_io.Stream.{Events, Stream, add_network_events}
use ch_frb_io.Stream.Control
use ch_frb_io.Stream.Perhost.{increment, update, differences, remember}

abbrev pub count_dropped : ℕ → Stream → Stream
count_dropped n s = record s {
  network_thread_event_subcounts = record s.network_thread_event_subcounts {
    packet_dropped = s.network_thread_event_subcounts.packet_dropped + n;
  };
}

abbrev pub with_shared : Stream → Shared → Stream
with_shared s (u, p) = record s { unassembled_ringbuf = u; incoming_packet_list = p }

-- What follows `put_packet_list(incoming_packet_list, false)`, for a list of `npackets` packets.
unfoldable pub after_put : ℕ → Stream → Outcome Shared Bool → Outcome Stream (Unit {0})
after_put npackets s (done success u) =
    if success
    then done tt (with_shared s u)
    else if s.ini_params.throw_exception_on_buffer_drop
    then throws buffer_drop (count_dropped npackets (with_shared s u))
    else done tt (count_dropped npackets (with_shared s u))
after_put npackets s (throws e u) = throws e (with_shared s u)
after_put npackets s (waits u) = waits (with_shared s u)

unfoldable pub put_list : Option PacketList → Stream → Outcome Stream (Unit {0})
unfolding after_put
put_list none s = throws null_dereference s
put_list (some l) s =
    if l.curr_npackets == 0
    then done tt s
    else after_put l.curr_npackets s (put_packet_list (some l) false s.unassembled_ringbuf)

-- _put_unassembled_packets()
unfoldable pub put_unassembled_packets : Stream → Outcome Stream (Unit {0})
unfolding put_list
put_unassembled_packets s = put_list s.incoming_packet_list s

abbrev pub update_perhost : Stream → Stream
update_perhost s = record s {
  perhost_packets = update s.network_thread_perhost_packets s.perhost_packets;
}

-- _network_flush_packets()
unfoldable pub network_flush_packets : Stream → Outcome Stream (Unit {0})
unfolding put_unassembled_packets
network_flush_packets s =
    and_then (put_unassembled_packets s) (λ t s'. done tt (update_perhost (add_network_events s')))

-- _update_packet_rates(), at a given time. Its argument is passed by value: the caller's
-- `last_packet_counts` is not changed.
unfoldable pub update_packet_rates : ℕ → List (ℕ × ℕ) → Stream → Stream
update_packet_rates time last s =
    let s' = update_perhost s in
    record s' {
      packet_history =
          remember s'.ini_params.max_packet_history_size time (differences last s'.perhost_packets)
            s'.packet_history;
    }

-- What `recvfrom` gives: a timeout or an interrupt, another error, or a packet with its sender.
pub data Received : Type 0 where
  no_packet : Received
  read_error : Received
  packet_from : ℕ → ℕ → List ℕ → Received

abbrev pub count_received : ℕ → Events → Events
count_received n e = record e {
  byte_received = e.byte_received + n;
  packet_received = e.packet_received + 1;
}

abbrev pub count_end_of_stream : Events → Events
count_end_of_stream e = record e { packet_end_of_stream = e.packet_end_of_stream + 1 }

abbrev pub with_network_events : (Events → Events) → Stream → Stream
with_network_events f s = record s {
  network_thread_event_subcounts = f s.network_thread_event_subcounts;
}

-- The bytes that `recvfrom` writes to `incoming_packet_list->data_end`.
abbrev pub fill_incoming : List ℕ → Option PacketList → Option PacketList
fill_incoming bytes none = none
fill_incoming bytes (some l) = some (fill bytes l)

-- What follows `add_packet`: a full list is flushed.
unfoldable pub after_add : Stream → Outcome PacketList (Unit {0}) → Outcome Stream Bool
unfolding network_flush_packets
after_add s (done a l) =
    let s' = record s { incoming_packet_list = some l } in
    if l.is_full then and_then (network_flush_packets s') (λ t s₂. done true s₂) else done true s'
after_add s (throws e l) = throws e (record s { incoming_packet_list = some l })
after_add s (waits l) = waits (record s { incoming_packet_list = some l })

unfoldable pub add_incoming : ℕ → Option PacketList → Stream → Outcome Stream Bool
unfolding after_add
add_incoming n none s = throws null_dereference s
add_incoming n (some l) s = after_add s (add_packet (pos n) l)

-- A packet from the socket: `false` when it ends the stream.
unfoldable pub receive_packet : ℕ → ℕ → List ℕ → Stream → Outcome Stream Bool
unfolding add_incoming
receive_packet ip port bytes s =
    let n = length bytes in
    let s₁ = record s {
      incoming_packet_list = fill_incoming bytes s.incoming_packet_list;
      network_thread_perhost_packets = increment ip port s.network_thread_perhost_packets;
      network_thread_event_subcounts = count_received n s.network_thread_event_subcounts;
    } in
    if n == 24
    then done (not s.ini_params.accept_end_of_stream_packets)
        (with_network_events count_end_of_stream s₁)
    else add_incoming n s₁.incoming_packet_list s₁

unfoldable pub receive : Received → Stream → Outcome Stream Bool
unfolding receive_packet
receive no_packet s = done true s
receive read_error s = throws read_failed s
receive (packet_from ip port bytes) s = receive_packet ip port bytes s

-- Which of the periodic actions a pass of the main loop finds due, and at what time.
pub record Due : Type 0 where
  pub cancellation_check : Bool
  pub flush : Bool
  pub packet_count : Bool
  pub time : ℕ

unfoldable pub flush_if_due : Bool → Stream → Outcome Stream (Unit {0})
unfolding network_flush_packets
flush_if_due due s = if due then network_flush_packets s else done tt s

abbrev pub rates_if_due : Due → List (ℕ × ℕ) → Stream → Stream
rates_if_due due last s = if due.packet_count then update_packet_rates due.time last s else s

abbrev pub counts_if_due : Due → Stream → Stream
counts_if_due due s = if due.cancellation_check then add_network_events s else s

-- One pass of the main loop: whether the loop goes on. `last` is `last_packet_counts`.
unfoldable pub network_pass : Due → List (ℕ × ℕ) → Received → Stream → Outcome Stream Bool
unfolding flush_if_due receive
network_pass due last got s =
    if due.cancellation_check && s.flags.stream_end_requested
    then and_then (network_flush_packets s) (λ t s'. done false s')
    else and_then (flush_if_due due.flush (counts_if_due due s))
        (λ t s'. receive got (rates_if_due due last s'))

-- The loop, on what each pass finds. The first counts that it compares with have no sender.
unfoldable pub network_loop : List (Due × Received) → Stream → Outcome Stream Bool
unfolding network_pass
network_loop [] s = done true s
network_loop ((due, got) ∷ rest) s =
    and_then (network_pass due [] got s)
      (λ goes_on s'. if goes_on then network_loop rest s' else done false s')

-- _network_thread_exit()
unfoldable pub network_thread_exit : Stream → Outcome Stream (Unit {0})
unfolding put_unassembled_packets
network_thread_exit s =
    and_then (put_unassembled_packets (record s { flags = Control.end_stream s.flags })) (λ t s'.
      let s₂ = add_network_events s' in
      done tt (record s₂ {
        unassembled_ringbuf = UdpRing.end_stream s₂.unassembled_ringbuf;
        socket_open = false;
      }))
