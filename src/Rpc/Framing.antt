-- ===== src/Rpc/Framing.antt =====
-- crates/nagisalake-rpc/src/framing.rs: frames on a byte stream, each behind its length. The reserved
-- capacities of buffers are not modelled. The receiver of the events stays.
pub mod Wire
pub mod Writer
pub mod Buffer
pub mod Reader
pub mod Connection
use nagisa_lake.Prelude.{
  ℕ, zero, suc, ◌+◌, String, Bool, true, false, not, ◌||◌, Option, none, some, List, [], ◌∷◌, ◌++◌,
  length, take, drop, ltb, leb, ◌==◌, if◌then◌else◌, Result, ok, err,
}
use nagisa_lake.Rpc.Words.{to_be, from_be}
use nagisa_lake.Rpc.Frames.{Bytes, Frame, FrameError}

pub record FrameConfig : Type 0 where
  pub max_frame_bytes : ℕ
  pub max_batch_frames : ℕ
  pub max_batch_bytes : ℕ

abbrev pub prefix_bytes : ℕ
prefix_bytes = 4

-- The constructors of `ConnectionError` that this file calls.
pub data ConnectionError : Type 0 where
  frame_too_large : ℕ → ℕ → ConnectionError
  protocol : FrameError → ConnectionError
  ended_inside_a_frame : ConnectionError
  io : String → ConnectionError

pub data ReadEvent (T : Type 0) : Type 0 where
  frame : T → ReadEvent T
  closed : ReadEvent T
  failed : ConnectionError → ReadEvent T

-- `take_frame`: the payload, and the buffer after it.
unfoldable pub take_frame : Bytes → ℕ → Result ConnectionError (Option (Bytes × Bytes))
take_frame buffer max_frame_bytes =
    if ltb (length buffer) prefix_bytes
    then ok none
    else (let payload_len = from_be (take prefix_bytes buffer) in
        if ltb max_frame_bytes payload_len
        then err (frame_too_large payload_len max_frame_bytes)
        else (if ltb (length buffer) (prefix_bytes + payload_len)
            then ok none
            else ok (
                some (
                  take payload_len (drop prefix_bytes buffer),
                  drop payload_len (drop prefix_bytes buffer),
                ))))

-- How the inner loop of `read_frames` ends: at a buffer without a complete frame, or for good.
-- `starved` is a lack of fuel, which does not happen.
pub data Drained : Type 0 where
  waiting : Bytes → Drained
  stopped : Drained
  starved : Drained

-- One result of `read_buf`.
pub data Read : Type 0 where
  got : Bytes → Read
  io_failed : String → Read

unfoldable pub at_end : {T : Type 0} → Bytes → ReadEvent T
at_end [] = closed
at_end (b ∷ bs) = failed ended_inside_a_frame

unfoldable pub ended : {T : Type 0} → Drained → List (ReadEvent T)
unfolding at_end
ended (waiting rest) = at_end rest ∷ []
ended stopped = []
ended starved = []

module _ {T : Type 0} (parse : Bytes → Result FrameError T) (max_frame_bytes : ℕ) where
  -- The inner loop. A frame takes its prefix at least, so a fuel above the length is enough.
  unfoldable pub drain : ℕ → Bytes → List (ReadEvent T) × Drained
  drain zero buffer = ([], starved)
  drain (suc n) buffer = elim (take_frame buffer max_frame_bytes) [
    | err e ↦ (failed e ∷ [], stopped)
    | ok none ↦ ([], waiting buffer)
    | ok (some (payload, rest)) ↦ elim (parse payload) [
      | err e ↦ (failed (protocol e) ∷ [], stopped)
      | ok f ↦ (let (es, d) = drain n rest in (frame f ∷ es, d))
    ]
  ]

  abbrev pub drained : Bytes → List (ReadEvent T) × Drained
  drained buffer = drain (suc (length buffer)) buffer

  -- The outer loop, over what the reads return. The stream ends with the list, or with an empty read.
  unfoldable pub read_frames : Bytes → List Read → List (ReadEvent T)
  unfolding ended
  read_frames buffer [] = (drained buffer).0 ++ ended (drained buffer).1
  read_frames buffer (got [] ∷ reads) = (drained buffer).0 ++ ended (drained buffer).1
  read_frames buffer (io_failed e ∷ reads) =
      (drained buffer).0
      ++ elim (drained buffer).1 [ waiting rest ↦ failed (io e) ∷ [] | stopped ↦ [] | starved ↦ [] ]
  read_frames buffer (got (b ∷ bs) ∷ reads) = (drained buffer).0 ++ elim (drained buffer).1 [
    | waiting rest ↦ read_frames (rest ++ (b ∷ bs)) reads
    | stopped ↦ []
    | starved ↦ []
  ]

-- What is left in the batch goes out in one write, if it is not empty.
unfoldable pub flush : Bytes → List Bytes
flush [] = []
flush (b ∷ bs) = (b ∷ bs) ∷ []

-- A large body is written from its own allocation, after the batch.
unfoldable pub put_body : FrameConfig → Bytes → Bytes → List Bytes × Bytes
put_body c batch body =
    if leb c.max_batch_bytes (length body) then (batch ∷ body ∷ [], []) else ([], batch ++ body)

-- The batch after the prefix and the header of a frame.
unfoldable pub put_header : {T : Type 0} → Frame T → T → Bytes → Bytes
put_header fr f batch = batch ++ (to_be prefix_bytes (fr.payload_len f) ++ (fr.split_header f).0)

unfoldable pub batch_full : FrameConfig → ℕ → Bytes → Bool
batch_full c frame_count batch =
    leb c.max_batch_frames frame_count || leb c.max_batch_bytes (length batch)

abbrev pub Written : Type 0
Written = List Bytes × Result ConnectionError (Unit {0})

abbrev pub also : List Bytes → Written → Written
also ws (vs, r) = (ws ++ vs, r)

-- `write_frames`: the writes, in order, and the result. The queue is the frames it will yield, each
-- with whether the next one is there already when `try_recv` asks; writes to the stream succeed. The
-- batch and its number of frames are empty when the outer loop waits.
unfoldable pub write_frames :
    {T : Type 0} → Frame T → FrameConfig → Bytes → ℕ → List (T × Bool) → Written
unfolding flush put_body put_header batch_full
write_frames fr c batch frame_count [] = (flush batch, ok tt)
write_frames fr c batch frame_count ((f, queued) ∷ fs) =
    if ltb c.max_frame_bytes (fr.payload_len f)
    then ([], err (frame_too_large (fr.payload_len f) c.max_frame_bytes))
    else (let (ws, batch') = put_body c (put_header fr f batch) (fr.split_header f).1 in
        if batch_full c (suc frame_count) batch' || not queued
        then also (ws ++ flush batch') (write_frames fr c [] 0 fs)
        else also ws (write_frames fr c batch' (suc frame_count) fs))
