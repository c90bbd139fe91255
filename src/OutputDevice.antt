-- ===== src/OutputDevice.antt =====
-- output_device.cpp: the queue of write requests between the assembler or RPC threads and an I/O
-- thread. The device's lock makes each call one step; a wait is an outcome.
pub mod Requests
pub mod Pool
pub mod Tests
use ch_frb_io.Base.{
  ℕ, zero, suc, ◌+◌, Bool, true, false, not, ◌&&◌, ◌||◌, Option, none, some, List, [], ◌∷◌, ◌++◌,
  if◌then◌else◌, ltb, leb, ◌==◌, length, get_or,
}
use ch_frb_io.Outcome.{
  ℤ, pos, leb_ℤ, ltb_ℤ, Error, Outcome, done, throws, waits, null_request, empty_filename,
  device_mismatch, no_rfi_mask_saved, undefined_behaviour, join_before_end_stream,
}

-- The chunk of a request: a shared object, so only what identifies it and does not change.
pub record ChunkRef : Type 0 where
  pub address : ℕ
  pub nrfifreq : ℕ
  pub fpga_begin : ℕ

-- write_chunk_request; a string is the list of its characters.
pub record Request : Type 0 where
  pub chunk : Option ChunkRef
  pub filename : List ℕ
  pub priority : ℤ
  pub need_rfi_mask : Bool

-- `write_reqs` is the content of the priority queue, in the order of the pushes.
pub record Device : Type 0 where
  pub device_name : List ℕ
  pub write_reqs : List Request
  pub awaiting_rfi : List Request
  pub end_stream_called : Bool
  pub join_thread_called : Bool
  pub thread_joined : Bool

unfoldable pub is_prefix : List ℕ → List ℕ → Bool
is_prefix [] ys = true
is_prefix (x ∷ xs) [] = false
is_prefix (x ∷ xs) (y ∷ ys) = x == y && is_prefix xs ys

abbrev pub begin_of : Option ChunkRef → ℕ
begin_of none = 0
begin_of (some c) = c.fpga_begin

-- _less_than: priority first, then the earlier chunk.
unfoldable pub less_than : Request → Request → Bool
less_than x y =
    if ltb_ℤ x.priority y.priority
    then true
    else if ltb_ℤ y.priority x.priority
    then false
    else ltb (begin_of y.chunk) (begin_of x.chunk)

abbrev pub is_empty : List ℕ → Bool
is_empty [] = true
is_empty (x ∷ xs) = false

-- The checks of enqueue_write_request(), for a request that is not null.
unfoldable pub request_error : Device → Request → Option ChunkRef → Option Error
unfolding is_prefix
request_error d req none = some null_request
request_error d req (some c) =
    if is_empty req.filename
    then some empty_filename
    else if not (is_prefix d.device_name req.filename)
    then some device_mismatch
    else if req.need_rfi_mask && c.nrfifreq == 0
    then some no_rfi_mask_saved
    else none

-- Whether the chunk's mask is filled is read from the shared chunk when the call runs.
abbrev pub mask_ready : (ChunkRef → Bool) → Option ChunkRef → Bool
mask_ready has_rfi_mask none = false
mask_ready has_rfi_mask (some c) = has_rfi_mask c

-- With the lock held.
unfoldable pub accept : (ChunkRef → Bool) → Request → Device → Outcome Device Bool
accept has_rfi_mask req d =
    if d.end_stream_called
    then done false d
    else if req.need_rfi_mask && not (mask_ready has_rfi_mask req.chunk)
    then done true (record d { awaiting_rfi = d.awaiting_rfi ++ (req ∷ []) })
    else done true (record d { write_reqs = d.write_reqs ++ (req ∷ []) })

unfoldable pub checked : Option Error → Outcome Device Bool → Device → Outcome Device Bool
checked none o d = o
checked (some e) o d = throws e d

-- enqueue_write_request()
unfoldable pub enqueue_write_request :
    (ChunkRef → Bool) → Option Request → Device → Outcome Device Bool
unfolding checked
enqueue_write_request has_rfi_mask none d = throws null_request d
enqueue_write_request has_rfi_mask (some req) d =
    checked (request_error d req req.chunk) (accept has_rfi_mask req d) d

-- count_queued_write_requests()
unfoldable pub count_queued_write_requests : Device → ℕ
count_queued_write_requests d = length d.write_reqs

-- The scan of pop_write_request(): the requests whose chunk has got its mask, and the others.
unfoldable pub ready : (ChunkRef → Bool) → List Request → List Request
ready has_rfi_mask [] = []
ready has_rfi_mask (r ∷ rs) =
    let rest = ready has_rfi_mask rs in if mask_ready has_rfi_mask r.chunk then r ∷ rest else rest

unfoldable pub unready : (ChunkRef → Bool) → List Request → List Request
unready has_rfi_mask [] = []
unready has_rfi_mask (r ∷ rs) =
    let rest = unready has_rfi_mask rs in if mask_ready has_rfi_mask r.chunk then rest else r ∷ rest

unfoldable pub scan : (ChunkRef → Bool) → Device → Device
unfolding ready unready
scan has_rfi_mask d = record d {
  write_reqs = d.write_reqs ++ ready has_rfi_mask d.awaiting_rfi;
  awaiting_rfi = unready has_rfi_mask d.awaiting_rfi;
}

-- std::priority_queue is a maximum of its content by `less_than`, which one is left open: `top` gives
-- its index.
abbrev pub remove_at : ℕ → List Request → List Request
remove_at i [] = []
remove_at zero (r ∷ rs) = rs
remove_at (suc i) (r ∷ rs) = r ∷ remove_at i rs

abbrev pub is_none_left : List Request → Bool
is_none_left [] = true
is_none_left (r ∷ rs) = false

unfoldable pub take_top :
    (List Request → ℕ) → Device → List Request → Outcome Device (Option Request)
take_top top d [] =
    if d.end_stream_called && is_none_left d.awaiting_rfi then done none d else waits d
take_top top d (r ∷ rs) =
    let i = top (r ∷ rs) in
    done (some (get_or (r ∷ rs) i r)) (record d { write_reqs = remove_at i (r ∷ rs) })

-- The scan erases a request by an iterator that it moves back first: at the first request of the vector
-- this is undefined.
unfoldable pub first_is_ready : (ChunkRef → Bool) → List Request → Bool
first_is_ready has_rfi_mask [] = false
first_is_ready has_rfi_mask (r ∷ rs) = mask_ready has_rfi_mask r.chunk

-- One pass through the loop of pop_write_request(), up to a wait.
unfoldable pub pop_write_request :
    (List Request → ℕ) → (ChunkRef → Bool) → Device → Outcome Device (Option Request)
unfolding scan first_is_ready
pop_write_request top has_rfi_mask d =
    if first_is_ready has_rfi_mask d.awaiting_rfi
    then throws undefined_behaviour d
    else take_top top (scan has_rfi_mask d) (scan has_rfi_mask d).write_reqs

-- end_stream(); with `wait`, the loop waits until nothing is pending.
unfoldable pub end_stream : Bool → Device → Outcome Device (Unit {0})
end_stream false d =
    done tt (record d { end_stream_called = true; write_reqs = []; awaiting_rfi = [] })
end_stream true d =
    let d' = record d { end_stream_called = true } in
    if is_none_left d.write_reqs && is_none_left d.awaiting_rfi then done tt d' else waits d'

-- join_thread(), up to the join of the thread: says whether this call joins it.
unfoldable pub join_thread : Device → Outcome Device Bool
join_thread d =
    if not d.end_stream_called
    then throws join_before_end_stream d
    else if d.join_thread_called
    then (if d.thread_joined then done false d else waits d)
    else done true (record d { join_thread_called = true })

-- The rest of join_thread(), after the join.
unfoldable pub thread_has_joined : Device → Device
thread_has_joined d = record d { thread_joined = true }
