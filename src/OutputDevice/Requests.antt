-- ===== src/OutputDevice/Requests.antt =====
-- No write request is lost: what a call of the I/O thread takes and what it leaves is what was there.
use ch_frb_io.Base.{
  ℕ, zero, suc, ◌+◌, ◌<◌, ◌≡◌, refl, Bool, true, false, not, ◌&&◌, Option, none, some, List, [],
  ◌∷◌, ◌++◌, arith, if◌then◌else◌, length, get_or, Bool-cases, inl, inr,
}
use ch_frb_io.Outcome.{Error, Outcome, done, throws, waits}
use ch_frb_io.OutputDevice.{
  ChunkRef, Request, Device, mask_ready, ready, unready, scan, remove_at, take_top,
  pop_write_request, first_is_ready, accept, is_none_left, checked, request_error,
  enqueue_write_request,
}

-- How many requests of a list have a property.
abbrev pub count : (Request → Bool) → List Request → ℕ
count p [] = 0
count p (r ∷ rs) = (if p r then 1 else 0) + count p rs

-- The requests that the device has.
abbrev pub pending : (Request → Bool) → Device → ℕ
pending p d = count p d.write_reqs + count p d.awaiting_rfi

count-append :
    (p : Request → Bool) (xs ys : List Request) → count p (xs ++ ys) ≡ count p xs + count p ys
count-append p [] ys = omega arith
count-append p (x ∷ xs) ys = omega (arith, count-append p xs ys)

count-ready :
    (p : Request → Bool) (has : ChunkRef → Bool) (rs : List Request)
    → count p (ready has rs) + count p (unready has rs) ≡ count p rs
unfolding ready unready
count-ready p has [] = refl
count-ready p has (r ∷ rs) = elim (Bool-cases (mask_ready has r.chunk)) [
  | inl t ↦ simp t (omega (arith, count-ready p has rs))
  | inr t ↦ simp t (omega (arith, count-ready p has rs))
]

count-remove_at :
    (p : Request → Bool) (rs : List Request) (i : ℕ) (d : Request)
    → i < length rs
    → count p rs ≡ (if p (get_or rs i d) then 1 else 0) + count p (remove_at i rs)
count-remove_at p [] i d h = absurd (omega arith)
count-remove_at p (r ∷ rs) zero d h = refl
count-remove_at p (r ∷ rs) (suc i) d h = omega (arith, count-remove_at p rs i d (omega arith))

-- The scan moves requests between the two lists.
pub pending-scan :
    (p : Request → Bool) (has : ChunkRef → Bool) (d : Device) → pending p (scan has d) ≡ pending p d
unfolding scan
pending-scan p has d = omega (
  arith,
  count-append p d.write_reqs (ready has d.awaiting_rfi),
  count-ready p has d.awaiting_rfi,
)

-- What pop_write_request has done with the requests: it took one, the others are still there.
abbrev pub Conserves : (Request → Bool) → ℕ → Outcome Device (Option Request) → Type 0
Conserves p k (done none d) = pending p d ≡ k
Conserves p k (done (some r) d) = (if p r then 1 else 0) + pending p d ≡ k
Conserves p k (throws e d) = ⊥
Conserves p k (waits d) = pending p d ≡ k

take_top-Conserves :
    (top : List Request → ℕ) (p : Request → Bool) (d : Device) (rs : List Request)
    → ((qs : List Request) → 0 < length qs → top qs < length qs)
    → d.write_reqs ≡ rs
    → Conserves p (pending p d) (take_top top d rs)
unfolding take_top
take_top-Conserves top p d [] h e =
    elim (Bool-cases (d.end_stream_called && is_none_left d.awaiting_rfi)) [
      | inl t ↦ simp t refl
      | inr t ↦ simp t refl
    ]
take_top-Conserves top p d (r ∷ rs) h e =
    rw e (omega (arith, count-remove_at p (r ∷ rs) (top (r ∷ rs)) r (h (r ∷ rs) (omega arith))))

-- The first of the waiting requests has not got its mask, where the code would be undefined. Then however
-- pop_write_request ends, no request is lost, repeated or changed: for every property of requests, the
-- one that is returned and those that are left are as many as before. The priority queue is one that
-- gives an entry that it has.
pub pop_write_request-Conserves :
    (top : List Request → ℕ) (has_rfi_mask : ChunkRef → Bool) (p : Request → Bool) (d : Device)
    → ((qs : List Request) → 0 < length qs → top qs < length qs)
    → first_is_ready has_rfi_mask d.awaiting_rfi ≡ false
    → Conserves p (pending p d) (pop_write_request top has_rfi_mask d)
unfolding pop_write_request
pop_write_request-Conserves top has_rfi_mask p d h defined = simp defined (
    rw⁻¹ (pending-scan p has_rfi_mask d)
      (take_top-Conserves top p (scan has_rfi_mask d) (scan has_rfi_mask d).write_reqs h refl))

-- What a call that enqueues a request does: it takes the request, or leaves the device as it was.
abbrev pub Queues : (Request → Bool) → Request → Device → Outcome Device Bool → Type 0
Queues p req d (done true d') = pending p d' ≡ pending p d + (if p req then 1 else 0)
Queues p req d (done false d') = (d' ≡ d) × (d.end_stream_called ≡ true)
Queues p req d (throws e d') = d' ≡ d
Queues p req d (waits d') = ⊥

accept-Queues :
    (p : Request → Bool) (has : ChunkRef → Bool) (req : Request) (d : Device)
    → Queues p req d (accept has req d)
unfolding accept
accept-Queues p has req d = elim (Bool-cases d.end_stream_called) [
  | inl t ↦ simp t (refl, refl)
  | inr t ↦ elim (Bool-cases (req.need_rfi_mask && not (mask_ready has req.chunk))) [
    | inl u ↦ simp (t, u) (omega (arith, count-append p d.awaiting_rfi (req ∷ [])))
    | inr u ↦ simp (t, u) (omega (arith, count-append p d.write_reqs (req ∷ [])))
  ]
]

checked-Queues :
    (p : Request → Bool) (req : Request) (d : Device) (e : Option Error) (o : Outcome Device Bool)
    → Queues p req d o
    → Queues p req d (checked e o d)
unfolding checked
checked-Queues p req d none o h = h
checked-Queues p req d (some e) o h = refl

-- enqueue_write_request returns true and has exactly this one request more, or it returns false, which
-- it does only after end_stream, or throws, and the device is as it was.
pub enqueue_write_request-Queues :
    (has_rfi_mask : ChunkRef → Bool) (req : Request) (p : Request → Bool) (d : Device)
    → Queues p req d (enqueue_write_request has_rfi_mask (some req) d)
unfolding enqueue_write_request
enqueue_write_request-Queues has_rfi_mask req p d =
    checked-Queues p req d (request_error d req req.chunk) (accept has_rfi_mask req d)
      (accept-Queues p has_rfi_mask req d)
