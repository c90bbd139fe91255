-- ===== src/Stream/Control.antt =====
-- The control of a stream: `start_stream`, `end_stream` and `join_threads`, each as its critical
-- sections, and how the two threads run beside them.
use ch_frb_io.Base.{Bool, true, false, not, ◌||◌, if◌then◌else◌}
use ch_frb_io.Outcome.{Outcome, done, throws, waits, start_after_end, join_before_start}
use ch_frb_io.Stream.{Flags}

abbrev pub initial : Flags
initial = record {
  stream_started = false;
  stream_end_requested = false;
  join_called = false;
  threads_joined = false;
}

unfoldable pub start_stream : Flags → Outcome Flags (Unit {0})
start_stream f =
    if f.stream_end_requested || f.join_called
    then throws start_after_end f
    else done tt (record f { stream_started = true })

unfoldable pub end_stream : Flags → Flags
end_stream f = record f { stream_started = true; stream_end_requested = true }

-- What `join_threads` does after its first critical section: it returns, or it goes on to join.
pub data Joiner : Type 0 where
  returned goes_on : Joiner

-- One pass of the first critical section of `join_threads`.
unfoldable pub join_pass : Flags → Outcome Flags Joiner
join_pass f =
    if not f.stream_started
    then throws join_before_start f
    else if f.join_called
    then (if f.threads_joined then done returned f else waits f)
    else done goes_on (record f { join_called = true })

-- The second one, after both calls of `thread::join`.
unfoldable pub join_end : Flags → Flags
join_end f = record f { threads_joined = true }

-- The wait for the start of the stream at the head of `_network_thread_body`: whether the body goes
-- on.
unfoldable pub start_pass : Flags → Outcome Flags Bool
start_pass f =
    if f.stream_end_requested
    then done false f
    else if f.stream_started
    then done true f
    else waits f
