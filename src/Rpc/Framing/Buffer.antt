-- ===== src/Rpc/Framing/Buffer.antt =====
-- What `take_frame` of crates/nagisalake-rpc/src/framing.rs makes of a buffer that holds the start of
-- a stream of frames.
use nagisa_lake.Prelude.{
  ℕ, ◌+◌, ◌^◌, ◌≡◌, ◌≤◌, ◌<◌, refl, sym, ap, ◌∙◌, false, none, some, List, [], ◌∷◌, ◌++◌, length,
  take, drop, ltb, arith, length-append, take-append_exact, drop-append_exact, take-append_short,
  ok, Result, Bool-cases, inl, inr,
}
use mathlib.Core.List.{append-nil, append_assoc}
use nagisa_lake.Rpc.Words.{to_be, from_be, from_be-to_be, length-to_be}
use nagisa_lake.Rpc.Frames.{Bytes, Frame, FrameError}
use nagisa_lake.Rpc.Framing.{take_frame, prefix_bytes}
use nagisa_lake.Rpc.Framing.Wire.{payload, encode, Lawful}

module _ {A : Type 0} where
  heads : (x y : A) (xs ys : List A) → x ∷ xs ≡ y ∷ ys → x ≡ y
  heads x y xs ys e = cc

  -- Two ways to cut a list: the longer first part starts with the shorter one.
  pub cut_twice :
      (xs ys es zs : List A)
      → xs ++ ys ≡ es ++ zs
      → length es ≤ length xs
      → (ws : List A) × (xs ≡ es ++ ws) × (ws ++ ys ≡ zs)
  cut_twice xs ys [] zs e h = (xs, refl, e)
  cut_twice [] ys (x ∷ es) zs e h = absurd (omega arith)
  cut_twice (x ∷ xs) ys (y ∷ es) zs e h =
      let (ws, p, q) = cut_twice xs ys es zs (ap (drop 1) e) (omega arith) in
      (ws, cc (heads x y (xs ++ ys) (es ++ zs) e, p), q)

module _ {T : Type 0} (fr : Frame T) (parse : Bytes → Result FrameError T) (law : Lawful fr parse)
    (max : ℕ) (f : T) (fits : law.Fits f) (small : fr.payload_len f ≤ max)
    (narrow : fr.payload_len f < 2 ^ 32) where
  pub length-encode : length (encode fr f) ≡ prefix_bytes + fr.payload_len f
  unfolding encode
  length-encode =
      length-append (to_be 4 (fr.payload_len f)) (payload fr f)
      ∙ rw (length-to_be 4 (fr.payload_len f), law.measured f fits) refl

  -- The prefix of a frame, read from a buffer that has all of it.
  announced :
      (buffer tail more : Bytes)
      → buffer ++ tail ≡ encode fr f ++ more
      → prefix_bytes ≤ length buffer
      → from_be (take prefix_bytes buffer) ≡ fr.payload_len f
  unfolding encode
  announced buffer tail more e h =
      ap from_be (
        sym (take-append_short 4 buffer tail h)
        ∙ ap (take 4) e
        ∙ ap (take 4) (append_assoc (to_be 4 (fr.payload_len f)) (payload fr f) more)
        ∙ take-append_exact 4 (to_be 4 (fr.payload_len f)) _ (length-to_be 4 (fr.payload_len f)))
      ∙ from_be-to_be 4 (fr.payload_len f) (omega arith)

  -- Before the last byte of a frame there is none to take.
  pub take_frame-short :
      (buffer tail more : Bytes)
      → buffer ++ tail ≡ encode fr f ++ more
      → length buffer < prefix_bytes + fr.payload_len f
      → take_frame buffer max ≡ ok none
  unfolding take_frame
  take_frame-short buffer tail more e h = elim (Bool-cases (ltb (length buffer) prefix_bytes)) [
    | inl few ↦ rw few refl
    | inr enough ↦ rw (enough, announced buffer tail more e (ground arith)) (ground arith)
  ]

  drop-encode : (more : Bytes) → drop 4 (encode fr f ++ more) ≡ payload fr f ++ more
  unfolding encode
  drop-encode more =
      ap (drop 4) (append_assoc (to_be 4 (fr.payload_len f)) (payload fr f) more)
      ∙ drop-append_exact 4 (to_be 4 (fr.payload_len f)) _ (length-to_be 4 (fr.payload_len f))

  -- With all of a frame, its payload is taken, and the rest stays.
  pub take_frame-whole :
      (more : Bytes) → take_frame (encode fr f ++ more) max ≡ ok (some (payload fr f, more))
  unfolding take_frame
  take_frame-whole more =
      rw
        (
          enough,
          announced (encode fr f ++ more) [] more (append-nil _) (omega (arith, whole_length)),
          fine,
          complete,
          drop-encode more,
          take-append_exact (fr.payload_len f) (payload fr f) more (law.measured f fits),
          drop-append_exact (fr.payload_len f) (payload fr f) more (law.measured f fits),
        )
        refl
    where
      whole_length : length (encode fr f ++ more) ≡ 4 + fr.payload_len f + length more
      whole_length = length-append (encode fr f) more ∙ rw length-encode refl

      enough : ltb (length (encode fr f ++ more)) 4 ≡ false
      enough = ground (arith, whole_length)

      fine : ltb max (fr.payload_len f) ≡ false
      fine = ground arith

      complete : ltb (length (encode fr f ++ more)) (4 + fr.payload_len f) ≡ false
      complete = ground (arith, whole_length)
