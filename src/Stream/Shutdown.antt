-- ===== src/Stream/Shutdown.antt =====
-- The life of a stream as a step relation: calls of `start_stream`, `end_stream` and `join_threads`
-- from any thread, in any order, beside the network thread and the assembler thread.
use ch_frb_io.Base.{◌≡◌, Bool, true, false, ◌⊎◌, arith}
use ch_frb_io.Outcome.{done}
use ch_frb_io.Stream.{Flags}
use ch_frb_io.Stream.Control.{initial, start_stream, end_stream, goes_on, join_pass, join_end}

-- The flags, which threads still run, and whether a thread is between the two critical sections of
-- `join_threads`.
pub record World : Type 0 where
  pub flags : Flags
  pub open flags use *
  pub network_running : Bool
  pub assembler_running : Bool
  pub joining : Bool

abbrev pub at_first : World
at_first = record {
  flags = initial;
  network_running = true;
  assembler_running = true;
  joining = false;
}

-- The steps that the threads and a joining caller take by themselves once the end of the stream was
-- requested. The network thread checks `stream_end_requested` in each period and leaves its loop; on its
-- exit it closes the ring buffer between the threads, at which the assembler thread leaves its own; and
-- a caller of `join_threads` goes on when both threads have exited. Each thread calls `end_stream` on
-- all its exit paths.
pub data Forced : World → World → Type 0 where
  network_stops :
      (w : World)
      → w.network_running ≡ true
      → w.stream_end_requested ≡ true
      → Forced w (record w { flags = end_stream w.flags; network_running = false })
  assembler_stops :
      (w : World)
      → w.assembler_running ≡ true
      → w.network_running ≡ false
      → Forced w (record w { flags = end_stream w.flags; assembler_running = false })
  has_joined :
      (w : World)
      → w.joining ≡ true
      → w.network_running ≡ false
      → w.assembler_running ≡ false
      → Forced w (record w { flags = join_end w.flags; joining = false })

-- Why a thread may leave its loop before the end of the stream was requested.
pub data Cause : Type 0 where
  end_of_stream_packet exception : Cause

-- A call that throws or waits leaves the flags as they are, and is no step. The loop of a thread has
-- begun when the stream was started, and is what a packet or an exception can end.
pub data Step : World → World → Type 0 where
  starts :
      (w : World) (f : Flags) → start_stream w.flags ≡ done tt f → Step w (record w { flags = f })
  ends : (w : World) → Step w (record w { flags = end_stream w.flags })
  joins :
      (w : World) (f : Flags)
      → join_pass w.flags ≡ done goes_on f
      → Step w (record w { flags = f; joining = true })
  forced : (w v : World) → Forced w v → Step w v
  network_ends :
      (w : World) (why : Cause)
      → w.network_running ≡ true
      → w.stream_started ≡ true
      → Step w (record w { flags = end_stream w.flags; network_running = false })
  assembler_fails :
      (w : World)
      → w.assembler_running ≡ true
      → w.stream_started ≡ true
      → Step w (record w { flags = end_stream w.flags; assembler_running = false })

pub data Steps : World → World → Type 0 where
  here : (w : World) → Steps w w
  then_step : (u v w : World) → Steps u v → Step v w → Steps u w

-- Any number of forced steps.
pub data Settles : World → World → Type 0 where
  at_rest : (w : World) → Settles w w
  then_forced : (u v w : World) → Settles u v → Forced v w → Settles u w

-- What holds at all times.
pub record IsConsistent (w : World) : Type 0 where
  pub ended_started : w.stream_end_requested ≡ true → w.stream_started ≡ true
  pub join_started : w.join_called ≡ true → w.stream_started ≡ true
  pub joiner : w.join_called ≡ true → (w.joining ≡ true) ⊎ (w.threads_joined ≡ true)
  pub joining_called : w.joining ≡ true → w.join_called ≡ true
  pub network_ended : w.network_running ≡ false → w.stream_end_requested ≡ true
  pub assembler_ended : w.assembler_running ≡ false → w.stream_end_requested ≡ true
  pub joined_network : w.threads_joined ≡ true → w.network_running ≡ false
  pub joined_assembler : w.threads_joined ≡ true → w.assembler_running ≡ false
  pub joined_called : w.threads_joined ≡ true → w.join_called ≡ true

at_first-IsConsistent : IsConsistent at_first
at_first-IsConsistent = ground arith

Forced-IsConsistent : (v w : World) → Forced v w → IsConsistent v → IsConsistent w
unfolding end_stream join_end
Forced-IsConsistent v w (network_stops _ e r) c = ground arith
Forced-IsConsistent v w (assembler_stops _ e r) c = ground arith
Forced-IsConsistent v w (has_joined _ e₀ e₁ e₂) c = ground arith

Step-IsConsistent : (v w : World) → Step v w → IsConsistent v → IsConsistent w
unfolding start_stream end_stream join_pass join_end
Step-IsConsistent v w (starts _ f e) c = ground arith
Step-IsConsistent v w (ends _) c = ground arith
Step-IsConsistent v w (joins _ f e) c = ground arith
Step-IsConsistent v w (forced _ _ s) c = Forced-IsConsistent v w s c
Step-IsConsistent v w (network_ends _ why e b) c = ground arith
Step-IsConsistent v w (assembler_fails _ e b) c = ground arith

Steps-IsConsistent : (v w : World) → Steps v w → IsConsistent v → IsConsistent w
Steps-IsConsistent v w (here _) c = c
Steps-IsConsistent v w (then_step _ u _ ss s) c =
    Step-IsConsistent u w s (Steps-IsConsistent v u ss c)

-- Whatever calls come in whatever order: a stream whose end was requested counts as started, a join is
-- under way or complete once `join_threads` was called, a thread that has exited has requested the
-- end of the stream, and when the threads are marked as joined, both have exited.
pub reachable-IsConsistent : (w : World) → Steps at_first w → IsConsistent w
reachable-IsConsistent w ss = Steps-IsConsistent at_first w ss at_first-IsConsistent

abbrev network_gone : World → World
network_gone w = record w { flags = end_stream w.flags; network_running = false }

abbrev assembler_gone : World → World
assembler_gone w = record w { flags = end_stream w.flags; assembler_running = false }

abbrev all_joined : World → World
all_joined w = record w { flags = join_end w.flags; joining = false }
