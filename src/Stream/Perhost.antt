-- ===== src/Stream/Perhost.antt =====
-- struct packet_counts: how many packets came from each sender. A sender is its IPv4 address and port
-- in one number; a map is a list of pairs, the keys of which differ.
use Prim.Native.Nat.{bit_or}
use ch_frb_io.Base.{
  ℕ, ◌+◌, ◌-◌, ◌*◌, ◌%◌, ◌^◌, List, [], ◌∷◌, if◌then◌else◌, ◌==◌, ltb, leb, length,
}

-- `counts[key]`: 0 for a key that is not there.
unfoldable pub lookup : ℕ → List (ℕ × ℕ) → ℕ
lookup key [] = 0
lookup key ((k, v) ∷ m) = let rest = lookup key m in if k == key then v else rest

-- `counts[key] = v`.
unfoldable pub assign : ℕ → ℕ → List (ℕ × ℕ) → List (ℕ × ℕ)
assign key v [] = (key, v) ∷ []
assign key v ((k, w) ∷ m) =
    let rest = assign key v m in if k == key then (k, v) ∷ m else (k, w) ∷ rest

-- `(ip << 32) | port`, in 64 bits.
unfoldable pub sender_of : ℕ → ℕ → ℕ
sender_of ip port = bit_or (ip * 2 ^ 32 % 2 ^ 64) port

-- increment()
unfoldable pub increment : ℕ → ℕ → List (ℕ × ℕ) → List (ℕ × ℕ)
unfolding lookup assign sender_of
increment ip port m =
    let sender = sender_of ip port in assign sender ((lookup sender m + 1) % 2 ^ 64) m

-- update(): every count of `other` replaces the one of its sender.
unfoldable pub update : List (ℕ × ℕ) → List (ℕ × ℕ) → List (ℕ × ℕ)
unfolding assign
update [] m = m
update ((k, v) ∷ other) m = update other (assign k v m)

-- The differences that `_update_packet_rates` stores, modulo 2 ^ 64.
unfoldable pub differences : List (ℕ × ℕ) → List (ℕ × ℕ) → List (ℕ × ℕ)
unfolding lookup
differences last [] = []
differences last ((k, v) ∷ m) = (k, (v + 2 ^ 64 - lookup k last) % 2 ^ 64) ∷ differences last m

-- `packet_history.erase(--packet_history.end())`; on an empty map it is undefined, and changes nothing
-- here.
unfoldable pub erase_last : List (ℕ × List (ℕ × ℕ)) → List (ℕ × List (ℕ × ℕ))
erase_last [] = []
erase_last (x ∷ []) = []
erase_last (x ∷ (y ∷ h)) = x ∷ erase_last (y ∷ h)

-- `packet_history.insert(make_pair(time, counts))`: an entry of the same time stays.
unfoldable pub insert : ℕ → List (ℕ × ℕ) → List (ℕ × List (ℕ × ℕ)) → List (ℕ × List (ℕ × ℕ))
insert time counts [] = (time, counts) ∷ []
insert time counts ((t, c) ∷ h) =
    let rest = insert time counts h in
    if ltb time t
    then (time, counts) ∷ (t, c) ∷ h
    else if time == t
    then (t, c) ∷ h
    else (t, c) ∷ rest

-- The end of `_update_packet_rates`, for at most `max_size` entries.
unfoldable pub remember : ℕ → ℕ → List (ℕ × ℕ) → List (ℕ × List (ℕ × ℕ)) → List (ℕ × List (ℕ × ℕ))
unfolding erase_last insert
remember max_size time counts h =
    insert time counts (if leb max_size (length h) then erase_last h else h)
