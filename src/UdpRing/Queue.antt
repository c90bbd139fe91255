-- ===== src/UdpRing/Queue.antt =====
-- What the ring buffer of packet lists promises: a FIFO of bounded length that can be closed.
use ch_frb_io.Base.{
  ℕ, Bool, true, false, not, Option, none, some, List, [], ◌∷◌, ◌++◌, ltb, if◌then◌else◌, length,
}
use ch_frb_io.Outcome.{Outcome, done, throws, waits, put_after_end_of_stream}
use ch_frb_io.UdpList.{PacketList}

pub record Queue : Type 0 where
  pub ended : Bool
  pub items : List PacketList

-- The full queue refuses: at once, or by making the caller wait.
unfoldable pub put : ℕ → PacketList → Bool → Queue → Outcome Queue Bool
put capacity p is_blocking q =
    if q.ended
    then throws put_after_end_of_stream q
    else if ltb (length q.items) capacity
    then done true (record q { items = q.items ++ (p ∷ []) })
    else if not is_blocking
    then done false q
    else waits q

-- The oldest item; `none` is the end of the stream.
unfoldable pub get_from : List PacketList → Queue → Outcome Queue (Option PacketList)
get_from [] q = if q.ended then done none q else waits q
get_from (x ∷ rest) q = done (some x) (record q { items = rest })

unfoldable pub get : Queue → Outcome Queue (Option PacketList)
unfolding get_from
get q = get_from q.items q
