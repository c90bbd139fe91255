-- ===== src/Stream/Constructed.antt =====
-- What the constructor of `intensity_network_stream` guarantees.
use ch_frb_io.Base.{
  suc, ◌%◌, ◌≤◌, ◌<◌, ◌≡◌, refl, ap, subst, ◌⊎◌, inl, Bool, false, not, ◌&&◌, ◌||◌, or-false, none,
  List, [], ◌∷◌, length, ◌==◌, arith,
}
use ch_frb_io.Constants.{max_allowed_beam_id, nt_per_assembled_chunk}
use ch_frb_io.Outcome.{ℤ, pos, pos_part, leb_ℤ, ltb_ℤ, eq_ℤ, Result, returns, fails}
use ch_frb_io.ChunkRing.{Config, Ring}
use ch_frb_io.ChunkRing.Make.{Setup, setup_error, empty_ring, too_short}
use ch_frb_io.ChunkRing.Empty
use ch_frb_io.ChunkRing.Empty.{construct-IsValid}
use ch_frb_io.UdpRing
use ch_frb_io.UdpRing.Refine.{make-IsValid, contents}
use ch_frb_io.UdpList.{PacketList}
use ch_frb_io.UdpList
use ch_frb_io.Stream.{Initializer, Stream, no_events}
use ch_frb_io.Stream.Control.{initial}
use ch_frb_io.Stream.Make.{
  vcontains, beams_error, params_error, ini_error, is_empty, config_of, setup_of, make_assemblers,
  new_stream, checked_stream, construct,
}
use ch_frb_io.Stream.Ready.{IsReady, All}
use ch_frb_io.Stream.Delivery.{AllReady}
use ch_frb_io.Stream.Reception.{pending, waiting, IsBalanced}

-- No beam stands twice in the list, and each id is an allowed one.
abbrev pub AreBeams : List ℤ → Type 0
AreBeams [] = Unit {0}
AreBeams (b ∷ bs) =
    (ltb_ℤ b (pos 0) ≡ false)
    × (ltb_ℤ (pos max_allowed_beam_id) b ≡ false)
    × (vcontains bs b ≡ false)
    × AreBeams bs

beams_error-cons :
    (before : List ℤ) (b : ℤ) (bs : List ℤ)
    → beams_error before (b ∷ bs) ≡ none
    → (ltb_ℤ b (pos 0) ≡ false)
      × (ltb_ℤ (pos max_allowed_beam_id) b ≡ false)
      × (vcontains before b ≡ false)
      × (beams_error (b ∷ before) bs ≡ none)
unfolding beams_error
beams_error-cons before b bs h = ground arith

eq_ℤ-swap : (a b : ℤ) → eq_ℤ a b ≡ false → eq_ℤ b a ≡ false
eq_ℤ-swap a b h = ground arith

-- What differs from all ids before the rest differs from all in the rest.
not_later :
    (b : ℤ) (before bs : List ℤ)
    → ((y : ℤ) → vcontains before y ≡ false → eq_ℤ b y ≡ false)
    → beams_error before bs ≡ none
    → vcontains bs b ≡ false
unfolding vcontains
not_later b before [] h e = refl
not_later b before (y ∷ ys) h e =
    let (lo, hi, new, rest) = beams_error-cons before y ys e in
    rw (eq_ℤ-swap b y (h y new))
      (not_later b (y ∷ before) ys (λ z q. h z (or-false (eq_ℤ y z) (vcontains before z) q).1) rest)

beams_error-AreBeams : (before bs : List ℤ) → beams_error before bs ≡ none → AreBeams bs
unfolding vcontains
beams_error-AreBeams before [] e = tt
beams_error-AreBeams before (b ∷ bs) e =
    let (lo, hi, new, rest) = beams_error-cons before b bs e in
    (
      lo,
      hi,
      not_later b (b ∷ before) bs (λ y q. (or-false (eq_ℤ b y) (vcontains before y) q).0) rest,
      beams_error-AreBeams (b ∷ before) bs rest,
    )

params_error-none :
    (avx2 : Bool) (x : Initializer)
    → params_error avx2 x ≡ none
    → (leb_ℤ x.assembled_ringbuf_capacity (pos 0) ≡ false)
      × ((ltb_ℤ x.nt_align (pos 0) || not (pos_part x.nt_align % nt_per_assembled_chunk == 0))
          ≡ false)
      × (too_short x.telescoping_ringbuf_capacity ≡ false)
      × ((not avx2 && x.force_fast_kernels) ≡ false)
unfolding params_error
params_error-none avx2 x h = ground arith

-- The assemblers' own checks pass when those of the stream did.
setup_error-none :
    (avx2 : Bool) (x : Initializer) (b : ℤ)
    → params_error avx2 x ≡ none
    → ltb_ℤ b (pos 0) ≡ false
    → ltb_ℤ (pos max_allowed_beam_id) b ≡ false
    → setup_error avx2 (config_of x) (setup_of x b) ≡ none
unfolding setup_error config_of setup_of
setup_error-none avx2 x b h lo hi = ground (arith, params_error-none avx2 x h)

-- Level 0 of each assembler keeps at least two chunks.
abbrev pub HasRoom : Initializer → Type 0
HasRoom x =
    (2 ≤ pos_part x.assembled_ringbuf_capacity) ⊎ (0 < length x.telescoping_ringbuf_capacity)

has_room : (x : Initializer) (b : ℤ) → HasRoom x → Empty.HasRoom (setup_of x b)
unfolding setup_of
has_room x b h = h

unreceived : (cfg : Config) (s : Setup) → (empty_ring cfg s).first_packet_received ≡ false
unfolding empty_ring
unreceived cfg s = refl

make_assemblers-IsReady :
    (avx2 : Bool) (x : Initializer) (bs : List ℤ)
    → params_error avx2 x ≡ none
    → HasRoom x
    → AreBeams bs
    → (rs : List Ring) × (make_assemblers avx2 x bs ≡ returns rs)
      × All IsReady rs
      × (length rs ≡ length bs)
unfolding make_assemblers
make_assemblers-IsReady avx2 x [] e room a = ([], refl, tt, refl)
make_assemblers-IsReady avx2 x (b ∷ bs) e room (lo, hi, new, a) =
    let (rs, made, w, l) = make_assemblers-IsReady avx2 x bs e room a in
    let (first, valid) =
      construct-IsValid avx2 (config_of x) (setup_of x b) (setup_error-none avx2 x b e lo hi)
        (has_room x b room) in
    (
      empty_ring (config_of x) (setup_of x b) ∷ rs,
      rw (first, made) refl,
      (inl (unreceived (config_of x) (setup_of x b), valid), w),
      ap suc l,
    )

ini_error-none :
    (avx2 : Bool) (x : Initializer)
    → ini_error avx2 x ≡ none
    → (is_empty x.beam_ids ≡ false)
      × (beams_error [] x.beam_ids ≡ none)
      × (params_error avx2 x ≡ none)
unfolding ini_error
ini_error-none avx2 x h = ground arith

-- A stream as the constructor makes it.
pub record IsNew (x : Initializer) (s : Stream) : Type 0 where
  pub params : s.ini_params ≡ x
  pub beams : AreBeams x.beam_ids
  pub some_beams : is_empty x.beam_ids ≡ false
  pub ready : AllReady s
  pub balanced : IsBalanced 0 s
  pub none_counted : s.cumulative_event_counts ≡ no_events
  pub none_in_network : s.network_thread_event_subcounts ≡ no_events
  pub none_in_assembler : s.assembler_thread_event_subcounts ≡ no_events
  pub none_waiting : contents s.unassembled_ringbuf ≡ []
  pub none_pending : pending s.incoming_packet_list ≡ 0
  pub flags : s.flags ≡ initial

list_empty : (m n : ℤ) (l : PacketList) → UdpList.make m n ≡ returns l → l.curr_npackets ≡ 0
unfolding UdpList.make
list_empty m n l e = ground arith

-- A property of what a constructor returns, if it returns.
abbrev pub IfReturns : {A : Type 0} → (A → Type 0) → Result A → Type 0
IfReturns P (returns a) = P a
IfReturns P (fails e) = Unit {0}

new_stream-IsNew :
    (x : Initializer) (rs : List Ring) (u : Result UdpRing.Ring) (l : Result PacketList)
    → AreBeams x.beam_ids
    → is_empty x.beam_ids ≡ false
    → All IsReady rs
    → length rs ≡ length x.beam_ids
    → UdpRing.make x.unassembled_ringbuf_capacity x.max_unassembled_packets_per_list
        x.max_unassembled_nbytes_per_list
      ≡ u
    → UdpList.make x.max_unassembled_packets_per_list x.max_unassembled_nbytes_per_list ≡ l
    → IfReturns (IsNew x) (new_stream x (returns rs) u l)
unfolding new_stream
new_stream-IsNew x rs (fails e) l a z w q m k = tt
new_stream-IsNew x rs (returns u) (fails e) a z w q m k = tt
new_stream-IsNew x rs (returns u) (returns l) a z w q m k =
    let (valid, empty, open_) = make-IsValid x.unassembled_ringbuf_capacity _ _ m in
    let none_waiting : waiting (contents u) ≡ 0 = ap waiting empty in
    let none_pending = list_empty x.max_unassembled_packets_per_list _ l k in
    record {
      params = refl;
      beams = a;
      some_beams = z;
      ready = (w, q);
      balanced = (valid, omega arith);
      none_counted = refl;
      none_in_network = refl;
      none_in_assembler = refl;
      none_waiting = empty;
      none_pending = none_pending;
      flags = refl;
    }

pub makes_list :
    (m n : ℤ)
    → leb_ℤ m (pos 0) ≡ false
    → leb_ℤ n (pos 0) ≡ false
    → (l : PacketList) × (UdpList.make m n ≡ returns l)
unfolding UdpList.make
makes_list m n a b = simp (a, b) (_, refl)

pub makes_ring :
    (c m n : ℤ)
    → leb_ℤ c (pos 0) ≡ false
    → leb_ℤ m (pos 0) ≡ false
    → leb_ℤ n (pos 0) ≡ false
    → (u : UdpRing.Ring) × (UdpRing.make c m n ≡ returns u)
unfolding UdpRing.make UdpList.make
makes_ring c m n a b d = simp (a, b, d) (_, refl)

new_stream-returns :
    (x : Initializer) (rs : List Ring) (u : Result UdpRing.Ring) (l : Result PacketList)
    (u' : UdpRing.Ring) (l' : PacketList)
    → u ≡ returns u'
    → l ≡ returns l'
    → (s : Stream) × (new_stream x (returns rs) u l ≡ returns s)
unfolding new_stream
new_stream-returns x rs u l u' l' a b = simp (a, b) (_, refl)

-- The sizes of the ring buffer between the threads are positive.
abbrev pub HasQueue : Initializer → Type 0
HasQueue x =
    (leb_ℤ x.unassembled_ringbuf_capacity (pos 0) ≡ false)
    × (leb_ℤ x.max_unassembled_packets_per_list (pos 0) ≡ false)
    × (leb_ℤ x.max_unassembled_nbytes_per_list (pos 0) ≡ false)

pub construct-IsNew :
    (avx2 : Bool) (x : Initializer)
    → HasRoom x
    → HasQueue x
    → ini_error avx2 x ≡ none
    → (s : Stream) × (construct avx2 x ≡ returns s) × IsNew x s
unfolding construct checked_stream
construct-IsNew avx2 x room (c, m, n) h =
    let (z, b, p) = ini_error-none avx2 x h in
    let beams = beams_error-AreBeams [] x.beam_ids b in
    let (rs, made, w, q) = make_assemblers-IsReady avx2 x x.beam_ids p room beams in
    let (u, ring_made) = makes_ring x.unassembled_ringbuf_capacity _ _ c m n in
    let (l, list_made) = makes_list x.max_unassembled_packets_per_list _ m n in
    let (s, e) = new_stream-returns x rs _ _ u l ring_made list_made in
    (
      s,
      rw (h, made) e,
      subst (IfReturns (IsNew x)) e (new_stream-IsNew x rs _ _ beams z w q refl refl),
    )
