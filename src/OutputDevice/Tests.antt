-- ===== src/OutputDevice/Tests.antt =====
-- Runs of the output devices, and the theorems at concrete devices.
use ch_frb_io.Base.{
  ℕ, ◌+◌, ◌<◌, ◌≡◌, refl, Bool, true, false, some, List, [], ◌∷◌, arith, length, ◌==◌,
}
use ch_frb_io.Outcome.{pos}
use ch_frb_io.OutputDevice.{
  first_is_ready, Request, Device, pop_write_request, is_prefix, enqueue_write_request,
}
use ch_frb_io.OutputDevice.Requests.{
  pending, Conserves, pop_write_request-Conserves, Queues, enqueue_write_request-Queues,
}
use ch_frb_io.OutputDevice.Pool.{
  make_device_pool, matches, names_of, make_device_pool-unambiguous, any_clash, prefixes_other,
}

abbrev request : ℕ → Bool → Request
request n masked = record {
  chunk = some (record { address = n; nrfifreq = 1; fpga_begin = n });
  filename = 1 ∷ n ∷ [];
  priority = pos n;
  need_rfi_mask = masked;
}

abbrev device : ℕ → Device
device n = record {
  device_name = n ∷ [];
  write_reqs = request 4 false ∷ [];
  awaiting_rfi = request 5 true ∷ request 6 true ∷ [];
  end_stream_called = false;
  join_thread_called = false;
  thread_joined = false;
}

abbrev last_index : List Request → ℕ
last_index [] = 0
last_index (r ∷ []) = 0
last_index (r ∷ (s ∷ rs)) = 1 + last_index (s ∷ rs)

last_index-lt : (qs : List Request) → 0 < length qs → last_index qs < length qs
last_index-lt [] h = h
last_index-lt (r ∷ []) h = omega arith
last_index-lt (r ∷ (s ∷ rs)) h = omega (arith, last_index-lt (s ∷ rs) (omega arith))

pop_write_request-Conserves_example :
    Conserves
      (λ r. r.need_rfi_mask)
      (pending (λ r. r.need_rfi_mask) (device 1))
      (pop_write_request last_index (λ c. c.address == 6) (device 1))
unfolding first_is_ready
pop_write_request-Conserves_example =
    pop_write_request-Conserves last_index (λ c. c.address == 6) (λ r. r.need_rfi_mask) (device 1)
      last_index-lt refl

abbrev devices : List Device
devices = device 1 ∷ device 2 ∷ []

make_device_pool-unambiguous_example : ◌≡◌ {A = ℕ} 1 1
unfolding make_device_pool matches any_clash prefixes_other names_of is_prefix
make_device_pool-unambiguous_example =
    make_device_pool-unambiguous devices devices (2 ∷ 9 ∷ []) 1 1 refl (omega arith) (omega arith)
      refl refl

enqueue_write_request-Queues_example :
    Queues
      (λ r. r.need_rfi_mask)
      (request 7 true)
      (device 1)
      (enqueue_write_request (λ c. false) (some (request 7 true)) (device 1))
enqueue_write_request-Queues_example =
    enqueue_write_request-Queues (λ c. false) (request 7 true) (λ r. r.need_rfi_mask) (device 1)
