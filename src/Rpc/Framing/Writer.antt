-- ===== src/Rpc/Framing/Writer.antt =====
-- What `write_frames` of crates/nagisalake-rpc/src/framing.rs puts on the stream.
use nagisa_lake.Prelude.{
  ℕ, suc, ◌≡◌, ◌≤◌, refl, sym, ap, ◌∙◌, Bool, false, not, ◌||◌, List, [], ◌∷◌, ◌++◌, map, length,
  leb, ltb, arith, ok, All, Bool-cases, inl, inr,
}
use mathlib.Core.List.{append-nil, append_assoc}
use nagisa_lake.Rpc.Frames.{Bytes, Frame}
use nagisa_lake.Rpc.Framing.{FrameConfig, flush, put_body, put_header, batch_full, write_frames}
use nagisa_lake.Rpc.Framing.Wire.{concat, encode, stream}

concat-append : (bs cs : List Bytes) → concat (bs ++ cs) ≡ concat bs ++ concat cs
unfolding concat
concat-append [] cs = refl
concat-append (b ∷ bs) cs = simp (concat-append bs cs, append_assoc)

concat-flush : (b : Bytes) → concat (flush b) ≡ b
unfolding concat flush
concat-flush [] = refl
concat-flush (x ∷ b) = simp (append-nil)

concat-put_body :
    (c : FrameConfig) (batch body : Bytes)
    → concat (put_body c batch body).0 ++ (put_body c batch body).1 ≡ batch ++ body
unfolding concat put_body
concat-put_body c batch body = elim (Bool-cases (leb c.max_batch_bytes (length body))) [
  | inl e ↦ rw e (simp (append-nil))
  | inr e ↦ rw e refl
]

-- The bytes of a frame after those of the batch, whether the batch goes out now or later.
batch_out :
    (ws vs : List Bytes) (b all more : Bytes)
    → concat ws ++ b ≡ all
    → concat vs ≡ more
    → concat ((ws ++ flush b) ++ vs) ≡ all ++ more
batch_out ws vs b all more p q =
    concat-append (ws ++ flush b) vs
    ∙ ap (λ x. x ++ concat vs) (concat-append ws (flush b))
    ∙ rw (concat-flush b, p, q) refl

batch_kept :
    (ws vs : List Bytes) (b all more : Bytes)
    → concat ws ++ b ≡ all
    → concat vs ≡ b ++ more
    → concat (ws ++ vs) ≡ all ++ more
batch_kept ws vs b all more p q =
    concat-append ws vs ∙ rw q (sym (append_assoc (concat ws) b more) ∙ rw p refl)

-- However the frames come into the queue, and however they are batched, what goes out is each frame
-- behind its length, in order.
pub write_frames-stream :
    {T : Type 0} (fr : Frame T) (c : FrameConfig) (batch : Bytes) (n : ℕ) (fs : List (T × Bool))
    → All (λ f. fr.payload_len f.0 ≤ c.max_frame_bytes) fs
    → ((write_frames fr c batch n fs).1 ≡ ok tt)
      × (concat (write_frames fr c batch n fs).0 ≡ batch ++ stream fr (map (λ f. f.0) fs))
unfolding write_frames stream encode put_header
write_frames-stream fr c batch n [] h = (refl, concat-flush batch ∙ sym (append-nil batch))
write_frames-stream fr c batch n ((f, queued) ∷ fs) (h, hs) =
    rw (small (fr.payload_len f) c.max_frame_bytes h) (elim (Bool-cases full) [
      | inl e ↦
          let (fine, out) = write_frames-stream fr c [] 0 fs hs in
          rw e (fine, batch_out put.0 _ put.1 _ _ (concat-put_body c before body) out ∙ whole)
      | inr e ↦
          let (fine, out) = write_frames-stream fr c put.1 (suc n) fs hs in
          rw e (fine, batch_kept put.0 _ put.1 _ _ (concat-put_body c before body) out ∙ whole)
    ])
  where
    small : (a b : ℕ) → a ≤ b → ltb b a ≡ false
    small a b h = ground arith

    before : Bytes
    before = put_header fr f batch

    body : Bytes
    body = (fr.split_header f).1

    put : List Bytes × Bytes
    put = put_body c (put_header fr f batch) (fr.split_header f).1

    full : Bool
    full =
        batch_full c (suc n) (put_body c (put_header fr f batch) (fr.split_header f).1).1
        || not queued

    whole :
        (put_header fr f batch ++ (fr.split_header f).1) ++ stream fr (map (λ f. f.0) fs)
        ≡ batch ++ (encode fr f ++ stream fr (map (λ f. f.0) fs))
    whole = simp (append_assoc)
