-- ===== src/Rpc/Framing/Connection.antt =====
-- Both ends of a stream, of crates/nagisalake-rpc/src/framing.rs: what one writes the other reads, and
-- the reader comes to an end on any bytes.
use nagisa_lake.Prelude.{
  ℕ, zero, suc, ◌^◌, ◌≡◌, ◌≢◌, ◌≤◌, ◌<◌, ◌∙◌, Bool, none, some, List, [], ◌∷◌, ◌++◌, map, length,
  take, drop, arith, ok, Result, All, inl, inr, Result-cases, length-drop,
}
use nagisa_lake.Rpc.Words.{from_be}
use nagisa_lake.Rpc.Frames.{Bytes, Frame, FrameError}
use nagisa_lake.Rpc.Framing.{
  FrameConfig, take_frame, drain, read_frames, write_frames, frame, closed, starved, got,
}
use nagisa_lake.Rpc.Framing.Wire.{concat, Lawful}
use nagisa_lake.Rpc.Framing.Writer.{write_frames-stream}
use nagisa_lake.Rpc.Framing.Reader.{Sendable, read_frames-stream}

-- Every frame that goes into the queue of one end comes out of the other end, in order and once, and
-- then the end of the stream; the writer may batch the frames and the network cut the bytes in any way.
pub read_frames-write_frames :
    {T : Type 0} (fr : Frame T) (parse : Bytes → Result FrameError T) (law : Lawful fr parse)
    (c : FrameConfig) (fs : List (T × Bool)) (pieces : List Bytes)
    → c.max_frame_bytes < 2 ^ 32
    → All (Sendable fr parse law c.max_frame_bytes) (map (λ f. f.0) fs)
    → All (λ p. p ≢ []) pieces
    → concat pieces ≡ concat (write_frames fr c [] 0 fs).0
    → ((write_frames fr c [] 0 fs).1 ≡ ok tt)
      × (read_frames parse c.max_frame_bytes [] (map got pieces)
          ≡ map frame (map (λ f. f.0) fs) ++ (closed ∷ []))
read_frames-write_frames {T = T} fr parse law c fs pieces narrow s full e =
    let (fine, out) = write_frames-stream fr c [] 0 fs (small fs s) in
    (
      fine,
      read_frames-stream fr parse law c.max_frame_bytes narrow pieces (map (λ f. f.0) fs) [] full s
          (e ∙ out),
    )
  where
    small :
        (fs : List (T × Bool))
        → All (Sendable fr parse law c.max_frame_bytes) (map (λ f. f.0) fs)
        → All (λ f. fr.payload_len f.0 ≤ c.max_frame_bytes) fs
    small [] s = tt
    small (f ∷ fs) s = (s.0.1, small fs s.1)

take_frame-shorter :
    (buffer p rest : Bytes) (max : ℕ)
    → take_frame buffer max ≡ ok (some (p, rest))
    → length rest < length buffer
unfolding take_frame
take_frame-shorter buffer p rest max e =
    ground (arith, length-drop (from_be (take 4 buffer)) (drop 4 buffer), length-drop 4 buffer)

-- On any bytes the inner loop ends: a fuel above the length of the buffer is enough.
pub drain-ends :
    {T : Type 0} (parse : Bytes → Result FrameError T) (max n : ℕ) (buffer : Bytes)
    → length buffer < n
    → (drain parse max n buffer).1 ≢ starved
unfolding drain
drain-ends parse max zero buffer h = absurd (omega arith)
drain-ends parse max (suc n) buffer h = elim (Result-cases (take_frame buffer max)) [
  | inr (e, p) ↦ rw (p, drain) (λ q. cc)
  | inl (none, p) ↦ rw (p, drain) (λ q. cc)
  | inl (some (body, rest), p) ↦ elim (Result-cases (parse body)) [
    | inr (e, p') ↦ rw (p, drain, p') (λ q. cc)
    | inl (f, p') ↦
        rw (p, drain, p')
          (drain-ends parse max n rest (fewer rest (take_frame-shorter buffer body rest max p)))
  ]
]
  where
    fewer : (rest : Bytes) → length rest < length buffer → length rest < n
    fewer rest l = omega arith
