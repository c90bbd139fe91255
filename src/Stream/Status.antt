-- ===== src/Stream/Status.antt =====
-- What `stream_to_files` asks for, and what `get_streaming_status` then says.
use ch_frb_io.Base.{
  ℕ, ◌≡◌, refl, Bool, true, false, Bool-cases, inl, inr, List, [], ◌∷◌, if◌then◌else◌,
}
use ch_frb_io.Outcome.{ℤ, done}
use ch_frb_io.ChunkRing.{Ring}
use ch_frb_io.ChunkRing
use ch_frb_io.Stream.{Stream}
use ch_frb_io.Stream.Make.{vcontains}
use ch_frb_io.Stream.Query.{
  all_known, nonempty, stream_beams, stream_to_files, streamed, get_streaming_status,
}

-- Each assembler streams to files if its beam was asked for and there is a file name pattern, and
-- has written nothing yet.
abbrev pub Streams : List ℕ → List ℤ → List ℤ → List Ring → Type 0
Streams pattern requested [] rs = Unit {0}
Streams pattern requested (b ∷ bs) [] = Unit {0}
Streams pattern requested (b ∷ bs) (r ∷ rs) =
    (r.streaming ≡ (if vcontains requested b then nonempty pattern else false))
    × (r.stream_chunks_written ≡ 0)
    × (r.stream_bytes_written ≡ 0)
    × Streams pattern requested bs rs

stream_beams-Streams :
    (pattern : List ℕ) (requested : List ℤ) (priority : ℤ) (need_rfi : Bool) (bs : List ℤ)
    (rs : List Ring)
    → Streams pattern requested bs (stream_beams pattern requested priority need_rfi bs rs)
unfolding stream_beams ChunkRing.stream_to_files
stream_beams-Streams pattern requested priority need_rfi [] rs = tt
stream_beams-Streams pattern requested priority need_rfi (b ∷ bs) [] = tt
stream_beams-Streams pattern requested priority need_rfi (b ∷ bs) (r ∷ rs) =
    let rest = stream_beams-Streams pattern requested priority need_rfi bs rs in
    elim (Bool-cases (vcontains requested b)) [
      | inl e ↦ simp e (refl, refl, refl, rest)
      | inr e ↦ simp e (refl, refl, refl, rest)
    ]

streamed-nothing :
    (pattern : List ℕ) (requested bs : List ℤ) (rs : List Ring)
    → Streams pattern requested bs rs
    → streamed requested bs rs ≡ (0, 0)
unfolding streamed
streamed-nothing pattern requested [] rs w = refl
streamed-nothing pattern requested (b ∷ bs) [] w = refl
streamed-nothing pattern requested (b ∷ bs) (r ∷ rs) (a, c, d, w) =
    let rest = streamed-nothing pattern requested bs rs w in
    elim (Bool-cases (vcontains requested b)) [
      | inl e ↦ simp (e, c, d, rest) refl
      | inr e ↦ simp (e, rest) refl
    ]

abbrev asked : List ℕ → List ℤ → ℤ → Bool → Stream → Stream
asked pattern requested priority need_rfi s = record s {
  streaming = record {
    stream_filename_pattern = pattern;
    stream_beam_ids = requested;
    stream_priority = priority;
    stream_rfi_mask = need_rfi;
    stream_chunks_written = 0;
    stream_bytes_written = 0;
  };
  assemblers = stream_beams pattern requested priority need_rfi s.ini_params.beam_ids s.assemblers;
}

-- When every requested beam is one of the stream's, `stream_to_files` returns; then exactly the
-- assemblers of the requested beams stream to files, unless the pattern is empty, and
-- `get_streaming_status` gives back the pattern, the beams and the priority, with nothing written.
pub get_streaming_status-stream_to_files :
    (pattern : List ℕ) (requested : List ℤ) (priority : ℤ) (need_rfi : Bool) (s : Stream)
    → all_known s.ini_params.beam_ids requested ≡ true
    → (t : Stream) × (stream_to_files pattern requested priority need_rfi s ≡ done tt t)
      × Streams pattern requested t.ini_params.beam_ids t.assemblers
      × (get_streaming_status t ≡ (pattern, requested, priority, 0, 0))
unfolding stream_to_files get_streaming_status
get_streaming_status-stream_to_files pattern requested priority need_rfi s known =
    let w =
      stream_beams-Streams pattern requested priority need_rfi s.ini_params.beam_ids s.assemblers in
    let none_written = streamed-nothing pattern requested s.ini_params.beam_ids _ w in
    (asked pattern requested priority need_rfi s, simp known refl, w, rw none_written refl)
