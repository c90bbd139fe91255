-- ===== src/OutputDevice/Pool.antt =====
-- output_device_pool.cpp: a request goes to the device whose name is a prefix of its file name.
use native.Mathlib.Decide.{ℕ_discrete}
use ch_frb_io.Base.{
  ℕ, zero, suc, ◌+◌, ◌<◌, ◌≡◌, ◌≢◌, refl, sym, ◌∙◌, Bool, true, false, not, ◌&&◌, ◌||◌, Option,
  none, some, List, [], ◌∷◌, ◌⊎◌, inl, inr, arith, if◌then◌else◌, ◌==◌, length, get_or, set,
  or-false,
}
use ch_frb_io.Outcome.{
  Result, returns, fails, Outcome, done, throws, waits, prefix_clash, no_rfi_mask_saved, no_devices,
}
use ch_frb_io.OutputDevice.{ChunkRef, Request, Device, is_prefix, is_empty, enqueue_write_request}

-- The inner loop of the constructor's check: device `i` against the devices from `j` on.
unfoldable pub prefixes_other : List ℕ → ℕ → ℕ → List (List ℕ) → Bool
prefixes_other name i j [] = false
prefixes_other name i j (other ∷ names) =
    (not (i == j) && is_prefix name other) || prefixes_other name i (j + 1) names

-- The outer loop, from device `i` on.
unfoldable pub any_clash : List (List ℕ) → ℕ → List (List ℕ) → Bool
any_clash all i [] = false
any_clash all i (name ∷ names) = prefixes_other name i 0 all || any_clash all (i + 1) names

unfoldable pub names_of : List Device → List (List ℕ)
names_of [] = []
names_of (d ∷ ds) = d.device_name ∷ names_of ds

-- The constructor, for pointers that are not null.
unfoldable pub make_device_pool : List Device → Result (List Device)
make_device_pool ds =
    if any_clash (names_of ds) 0 (names_of ds) then fails prefix_clash else returns ds

-- The loop of enqueue_write_request(): the first device with a matching name.
unfoldable pub find_device : List ℕ → ℕ → List (List ℕ) → Option ℕ
find_device filename i [] = none
find_device filename i (name ∷ names) =
    let rest = find_device filename (i + 1) names in
    if is_prefix name filename then some i else rest

-- One device's answer, as the answer of the pool.
abbrev pub in_pool : List Device → ℕ → Outcome Device Bool → Outcome (List Device) Bool
in_pool ds i (done b d) = done b (set ds i d)
in_pool ds i (throws e d) = throws e (set ds i d)
in_pool ds i (waits d) = waits (set ds i d)

abbrev pub no_device : Device
no_device = record {
  device_name = [];
  write_reqs = [];
  awaiting_rfi = [];
  end_stream_called = false;
  join_thread_called = false;
  thread_joined = false;
}

unfoldable pub dispatch :
    (ChunkRef → Bool) → Request → List Device → Option ℕ → Outcome (List Device) Bool
dispatch has_rfi_mask req ds (some i) =
    in_pool ds i (enqueue_write_request has_rfi_mask (some req) (get_or ds i no_device))
dispatch has_rfi_mask req [] none = throws no_devices []
dispatch has_rfi_mask req (d ∷ ds) none = done false (d ∷ ds)

-- enqueue_write_request() of the pool, for a request and a chunk that are not null.
unfoldable pub enqueue_in_pool :
    (ChunkRef → Bool) → Request → ChunkRef → List Device → Outcome (List Device) Bool
unfolding dispatch find_device names_of
enqueue_in_pool has_rfi_mask req c ds =
    if req.need_rfi_mask && c.nrfifreq == 0
    then throws no_rfi_mask_saved ds
    else if is_empty req.filename
    then done false ds
    else dispatch has_rfi_mask req ds (find_device req.filename 0 (names_of ds))

-- Two prefixes of one name: one of them is a prefix of the other.
is_prefix-total :
    (a b f : List ℕ)
    → is_prefix a f ≡ true
    → is_prefix b f ≡ true
    → (is_prefix a b ≡ true) ⊎ (is_prefix b a ≡ true)
unfolding is_prefix
is_prefix-total [] b f p q = inl refl
is_prefix-total (x ∷ a) [] f p q = inr refl
is_prefix-total (x ∷ a) (y ∷ b) [] p q = cc
is_prefix-total (x ∷ a) (y ∷ b) (z ∷ f) p q = ground (arith, is_prefix-total a b f)

prefixes_other-false :
    (name : List ℕ) (i j : ℕ) (names : List (List ℕ)) (k : ℕ)
    → prefixes_other name i j names ≡ false
    → k < length names
    → i ≢ j + k
    → is_prefix name (get_or names k []) ≡ false
unfolding prefixes_other
prefixes_other-false name i j [] k h l ne = absurd (omega arith)
prefixes_other-false name i j (other ∷ names) zero h l ne = ground arith
prefixes_other-false name i j (other ∷ names) (suc k) h l ne =
    prefixes_other-false name i (j + 1) names k
      (or-false (not (i == j) && is_prefix name other) (prefixes_other name i (j + 1) names) h).1
      (omega arith) (λ e. ne (omega arith))

any_clash-false :
    (all names : List (List ℕ)) (i k m : ℕ)
    → any_clash all i names ≡ false
    → k < length names
    → m < length all
    → i + k ≢ m
    → is_prefix (get_or names k []) (get_or all m []) ≡ false
unfolding any_clash
any_clash-false all [] i k m h l l' ne = absurd (omega arith)
any_clash-false all (name ∷ names) i zero m h l l' ne =
    prefixes_other-false name i 0 all m
      (or-false (prefixes_other name i 0 all) (any_clash all (i + 1) names) h).0 l'
      (λ e. ne (omega arith))
any_clash-false all (name ∷ names) i (suc k) m h l l' ne =
    any_clash-false all names (i + 1) k m
      (or-false (prefixes_other name i 0 all) (any_clash all (i + 1) names) h).1 (omega arith) l'
      (λ e. ne (omega arith))

make_device_pool-eq :
    (ds ds' : List Device)
    → make_device_pool ds ≡ returns ds'
    → any_clash (names_of ds') 0 (names_of ds') ≡ false
unfolding make_device_pool
make_device_pool-eq ds ds' h = ground arith

true≢false : true ≡ false → ⊥
true≢false h = cc

-- Whether a device matches a file name.
unfoldable pub matches : List Device → List ℕ → ℕ → Bool
matches ds filename i = is_prefix (get_or (names_of ds) i []) filename

-- The check of the constructor makes the choice of a device unambiguous: in a pool that it returns,
-- no two devices match the same file name, so the order of the devices does not matter.
pub make_device_pool-unambiguous :
    (ds ds' : List Device) (filename : List ℕ) (i j : ℕ)
    → make_device_pool ds ≡ returns ds'
    → i < length (names_of ds')
    → j < length (names_of ds')
    → matches ds' filename i ≡ true
    → matches ds' filename j ≡ true
    → i ≡ j
unfolding matches
make_device_pool-unambiguous ds ds' filename i j h l m p q = elim (ℕ_discrete i j) [
  | yes e ↦ e
  | no ne ↦
      let ok = make_device_pool-eq ds ds' h in
      let ns = names_of ds' in
      elim (is_prefix-total (get_or ns i []) (get_or ns j []) filename p q) [
        | inl t ↦
            absurd (true≢false (sym t ∙ any_clash-false ns ns 0 i j ok l m (λ e. ne (omega arith))))
        | inr t ↦
            absurd (true≢false (sym t ∙ any_clash-false ns ns 0 j i ok m l (λ e. ne (omega arith))))
      ]
]
