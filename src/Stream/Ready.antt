-- ===== src/Stream/Ready.antt =====
-- Assemblers that are ready for packets, one and all those of a stream.
use ch_frb_io.Base.{
  ℕ, zero, suc, ◌+◌, ◌^◌, ◌<◌, ◌≡◌, refl, subst, ◌⊎◌, inl, inr, false, some, List, [], ◌∷◌, length,
  get_elem?, set, arith,
}
use ch_frb_io.Outcome.{Ends, Ends-weaken}
use ch_frb_io.Packet.{Packet}
use ch_frb_io.ChunkRing.{Env, Ring, Counts}
use ch_frb_io.ChunkRing.Put.{State}
use ch_frb_io.ChunkRing.Invariant.{ValidUpTo}
use ch_frb_io.ChunkRing.Assemble.{put_unassembled_packet}
use ch_frb_io.ChunkRing.Open.{IsAssembling}
use ch_frb_io.ChunkRing.Assembling.{tally, StillValid}
use ch_frb_io.ChunkRing.PacketIn.{put_unassembled_packet-Ends}
use ch_frb_io.ChunkRing.Packets.{put_unassembled_packet_first-Ends}

-- An assembler that has had no packet, or one that assembles two consecutive chunks.
abbrev pub IsReady : Ring → Type 0
IsReady r =
    ((r.first_packet_received ≡ false) × ((next : ℕ) → next < 2 ^ 64 → ValidUpTo r next))
    ⊎ ((i : ℕ) × IsAssembling r i)

-- A valid ring buffer, whatever is being assembled.
abbrev pub IsSound : Ring → Type 0
IsSound r = (next : ℕ) × ValidUpTo r next

pub IsReady-IsSound : (r : Ring) → IsReady r → IsSound r
IsReady-IsSound r (inl (a, v)) = (0, v 0 (omega arith))
IsReady-IsSound r (inr (i, w)) = (i, w.valid)

abbrev pub All : (Ring → Type 0) → List Ring → Type 0
All P [] = Unit {0}
All P (r ∷ rs) = P r × All P rs

pub All-weaken :
    (P Q : Ring → Type 0) → ((r : Ring) → P r → Q r) → (rs : List Ring) → All P rs → All Q rs
All-weaken P Q f [] a = tt
All-weaken P Q f (r ∷ rs) (p, a) = (f r p, All-weaken P Q f rs a)

pub All-set :
    (P : Ring → Type 0) (rs : List Ring) (i : ℕ) (r : Ring) → P r → All P rs → All P (set rs i r)
All-set P [] i r p a = tt
All-set P (x ∷ rs) zero r p (q, a) = (p, a)
All-set P (x ∷ rs) (suc i) r p (q, a) = (q, All-set P rs i r p a)

pub All-get_elem? :
    (P : Ring → Type 0) (rs : List Ring) (i : ℕ) (r : Ring)
    → get_elem? rs i ≡ some r
    → All P rs
    → P r
All-get_elem? P [] i r e a = cc
All-get_elem? P (x ∷ rs) zero r e (p, a) = let same : x ≡ r = cc in subst P same p
All-get_elem? P (x ∷ rs) (suc i) r e (p, a) = All-get_elem? P rs i r e a

pub get_elem?-in_range :
    (rs : List Ring) (i : ℕ) → i < length rs → (r : Ring) × (get_elem? rs i ≡ some r)
get_elem?-in_range [] i h = absurd (omega arith)
get_elem?-in_range (x ∷ rs) zero h = (x, refl)
get_elem?-in_range (x ∷ rs) (suc i) h = get_elem?-in_range rs i (omega arith)

-- An assembler that is ready stays ready, and counts the packet as a hit or a miss.
abbrev pub TookPacket : State → State → Type 0
TookPacket s t = IsReady t.0 × (tally t ≡ tally s + 1)

pub put_unassembled_packet-IsReady :
    (env : Env) (packet : Packet) (r : Ring) (n : Counts)
    → IsReady r
    → Ends (TookPacket (r, n)) StillValid (put_unassembled_packet env packet (r, n))
put_unassembled_packet-IsReady env packet r n (inl (a, v)) =
    Ends-weaken _ (TookPacket (r, n)) StillValid (put_unassembled_packet env packet (r, n))
      (λ t (j, w, e). (inr (j, w), e)) (put_unassembled_packet_first-Ends env packet r n a v)
put_unassembled_packet-IsReady env packet r n (inr (i, w)) =
    Ends-weaken _ (TookPacket (r, n)) StillValid (put_unassembled_packet env packet (r, n)) took
      (put_unassembled_packet-Ends env packet r n i w)
  where
    took :
        (t : State)
        → (IsAssembling t.0 i ⊎ IsAssembling t.0 (i + 1)) × (tally t ≡ tally (r, n) + 1)
        → TookPacket (r, n) t
    took t (inl a, e) = (inr (i, a), e)
    took t (inr a, e) = (inr (i + 1, a), e)
