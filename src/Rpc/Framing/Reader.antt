-- ===== src/Rpc/Framing/Reader.antt =====
-- What `read_frames` of crates/nagisalake-rpc/src/framing.rs makes of a stream of frames that comes in
-- pieces.
use nagisa_lake.Prelude.{
  ℕ, zero, suc, ◌+◌, ◌^◌, ◌≡◌, ◌≢◌, ◌≤◌, ◌<◌, refl, sym, ap, subst, ◌∙◌, false, none, some, List,
  [], ◌∷◌, ◌++◌, map, length, ltb, arith, length-append, ok, Result, All, inl, inr, Bool-cases,
  ltb→lt,
}
use mathlib.Core.List.{append-nil, append_assoc, map-append}
use nagisa_lake.Rpc.Frames.{Bytes, Frame, FrameError}
use nagisa_lake.Rpc.Framing.{
  take_frame, prefix_bytes, drain, drained, read_frames, ReadEvent, frame, closed, Drained, waiting,
  Read, got, ended, at_end,
}
use nagisa_lake.Rpc.Framing.Wire.{concat, payload, encode, stream, Lawful}
use nagisa_lake.Rpc.Framing.Buffer.{cut_twice, length-encode, take_frame-short, take_frame-whole}

All-append_right {ℓ} : {A : Type ℓ} (P : A → Type 0) (xs ys : List A) → All P (xs ++ ys) → All P ys
All-append_right P [] ys h = h
All-append_right P (x ∷ xs) ys h = All-append_right P xs ys h.1

-- A frame that both ends take.
abbrev pub Sendable :
    {T : Type 0} (fr : Frame T) (parse : Bytes → Result FrameError T)
    → Lawful fr parse
    → ℕ
    → T
    → Type 0
Sendable fr parse law max f = law.Fits f × (fr.payload_len f ≤ max)

module _ {T : Type 0} (fr : Frame T) (parse : Bytes → Result FrameError T) (law : Lawful fr parse)
    (max : ℕ) (narrow : max < 2 ^ 32) where
  -- The frames `fs` are taken out of the buffer, `rest` stays, and the frames `later` are still to
  -- come out of it and the bytes after it.
  record Cut (es : List (ReadEvent T)) (d : Drained) (fs : List T) (tail : Bytes) : Type 0 where
    pub done : List T
    pub later : List T
    pub rest : Bytes
    pub events : es ≡ map frame done
    pub waits : d ≡ waiting rest
    pub parts : fs ≡ done ++ later
    pub remains : rest ++ tail ≡ stream fr later
    pub complete : tail ≡ [] → later ≡ []

  drain-nil : (n : ℕ) → drain parse max (suc n) [] ≡ ([], waiting [])
  unfolding drain take_frame
  drain-nil n = refl

  drain-none :
      (n : ℕ) (buffer : Bytes)
      → take_frame buffer max ≡ ok none
      → drain parse max (suc n) buffer ≡ ([], waiting buffer)
  unfolding drain
  drain-none n buffer e = rw (e, drain) refl

  drain-some :
      (n : ℕ) (buffer p rest : Bytes) (f : T)
      → take_frame buffer max ≡ ok (some (p, rest))
      → parse p ≡ ok f
      → drain parse max (suc n) buffer
        ≡ (frame f ∷ (drain parse max n rest).0, (drain parse max n rest).1)
  unfolding drain
  drain-some n buffer p rest f e h = rw (e, drain, h) refl

  -- A frame that has not come in whole.
  part_way :
      (f : T) (fs : List T) (buffer tail : Bytes)
      → Sendable fr parse law max f
      → buffer ++ tail ≡ encode fr f ++ stream fr fs
      → length buffer < prefix_bytes + fr.payload_len f
      → Cut [] (waiting buffer) (f ∷ fs) tail
  unfolding stream
  part_way f fs buffer tail s e h = record {
    done = [];
    later = f ∷ fs;
    rest = buffer;
    events = refl;
    waits = refl;
    parts = refl;
    remains = e;
    complete = λ p. absurd (too_few p);
  }
    where
      too_few : tail ≡ [] → ⊥
      too_few p = omega (
        arith,
        ap length p,
        ap length e,
        length-append buffer tail,
        length-append (encode fr f) (stream fr fs),
        length-encode fr parse law max f s.0 s.1 (omega arith),
      )

  -- A frame in front of what is cut.
  Cut-cons :
      (f : T) (es : List (ReadEvent T)) (d : Drained) (fs : List T) (tail : Bytes)
      → Cut es d fs tail
      → Cut (frame f ∷ es) d (f ∷ fs) tail
  Cut-cons f es d fs tail c = record {
    done = f ∷ c.done;
    later = c.later;
    rest = c.rest;
    events = ap (λ x. frame f ∷ x) c.events;
    waits = c.waits;
    parts = ap (λ x. f ∷ x) c.parts;
    remains = c.remains;
    complete = c.complete;
  }

  drain-Cut :
      (fs : List T) (n : ℕ) (buffer tail : Bytes)
      → All (Sendable fr parse law max) fs
      → length buffer < n
      → buffer ++ tail ≡ stream fr fs
      → Cut (drain parse max n buffer).0 (drain parse max n buffer).1 fs tail
  unfolding stream
  drain-Cut fs zero buffer tail s h e = absurd (omega arith)
  drain-Cut [] (suc n) [] tail s h e = rw (drain-nil n) (record {
    done = [];
    later = [];
    rest = [];
    events = refl;
    waits = refl;
    parts = refl;
    remains = e;
    complete = λ _. refl;
  })
  drain-Cut [] (suc n) (b ∷ bs) tail s h e = absurd (cc e)
  drain-Cut (f ∷ fs) (suc n) buffer tail s h e =
      elim (Bool-cases (ltb (length buffer) (prefix_bytes + fr.payload_len f))) [
        | inl short ↦
            rw
              (drain-none n buffer (
                take_frame-short fr parse law max f s.0.0 s.0.1 (omega arith) buffer tail
                  (stream fr fs) e (ltb→lt _ _ short)))
              (part_way f fs buffer tail s.0 e (ltb→lt _ _ short))
        | inr long ↦
            let (ws, p, q) =
              cut_twice buffer tail (encode fr f) (stream fr fs) e
                (enough (not_shorter _ _ long)) in
            rw (drain-some n buffer (payload fr f) ws f (taken ws p) (law.parses f s.0.0))
              (Cut-cons f _ _ fs tail (drain-Cut fs n ws tail s.1 (fewer ws p) q))
      ]
    where
      encoded : length (encode fr f) ≡ prefix_bytes + fr.payload_len f
      encoded = length-encode fr parse law max f s.0.0 s.0.1 (omega arith)

      not_shorter : (a b : ℕ) → ltb a b ≡ false → b ≤ a
      not_shorter a b h = ground arith

      enough :
          prefix_bytes + fr.payload_len f ≤ length buffer → length (encode fr f) ≤ length buffer
      enough l = omega (arith, encoded)

      fewer : (ws : Bytes) → buffer ≡ encode fr f ++ ws → length ws < n
      fewer ws p = omega (arith, ap length p, length-append (encode fr f) ws, encoded)

      taken :
          (ws : Bytes)
          → buffer ≡ encode fr f ++ ws
          → take_frame buffer max ≡ ok (some (payload fr f, ws))
      taken ws p = rw p (take_frame-whole fr parse law max f s.0.0 s.0.1 (omega arith) ws)

  -- The end of the stream, after the last frame.
  last_read :
      (fs : List T) (buffer : Bytes)
      → All (Sendable fr parse law max) fs
      → buffer ≡ stream fr fs
      → read_frames parse max buffer [] ≡ map frame fs ++ (closed ∷ [])
  unfolding read_frames stream ended at_end
  last_read fs buffer s e = from (drain-Cut fs _ buffer [] s (omega arith) (append-nil buffer ∙ e))
    where
      from :
          Cut (drained parse max buffer).0 (drained parse max buffer).1 fs []
          → (drained parse max buffer).0 ++ ended (drained parse max buffer).1
            ≡ map frame fs ++ (closed ∷ [])
      from c = rw (c.events, c.waits, nothing, all_done) refl
        where
          nothing : c.rest ≡ []
          nothing = sym (append-nil c.rest) ∙ c.remains ∙ ap (stream fr) (c.complete refl)

          all_done : fs ≡ c.done
          all_done = c.parts ∙ rw (c.complete refl) (append-nil c.done)

  -- A read in the midst of it.
  next_read :
      (buffer : Bytes) (b : ℕ) (bs : Bytes) (reads : List Read) (fs : List T) (tail : Bytes)
      (c : Cut (drained parse max buffer).0 (drained parse max buffer).1 fs tail)
      → read_frames parse max buffer (got (b ∷ bs) ∷ reads)
        ≡ map frame c.done ++ read_frames parse max (c.rest ++ (b ∷ bs)) reads
  unfolding read_frames
  next_read buffer b bs reads fs tail c = rw (c.events, c.waits) refl

  -- However the bytes of a stream of frames come in, the events are its frames, and the end.
  pub read_frames-stream :
      (pieces : List Bytes) (fs : List T) (buffer : Bytes)
      → All (λ p. p ≢ []) pieces
      → All (Sendable fr parse law max) fs
      → buffer ++ concat pieces ≡ stream fr fs
      → read_frames parse max buffer (map got pieces) ≡ map frame fs ++ (closed ∷ [])
  unfolding concat
  read_frames-stream [] fs buffer full s e = last_read fs buffer s (sym (append-nil buffer) ∙ e)
  read_frames-stream ([] ∷ pieces) fs buffer full s e = absurd (full.0 refl)
  read_frames-stream ((b ∷ bs) ∷ pieces) fs buffer full s e =
      next_read buffer b bs (map got pieces) fs _ c
      ∙ ap (λ es. map frame c.done ++ es)
          (read_frames-stream pieces c.later (c.rest ++ (b ∷ bs)) full.1
            (All-append_right (Sendable fr parse law max) c.done c.later
              (subst (All (Sendable fr parse law max)) c.parts s))
            (append_assoc c.rest (b ∷ bs) (concat pieces) ∙ c.remains))
      ∙ sym (append_assoc (map frame c.done) (map frame c.later) (closed ∷ []))
      ∙ ap (λ es. es ++ (closed ∷ []))
          (sym (map-append frame c.done c.later) ∙ ap (map frame) (sym c.parts))
    where
      c :
          Cut
            (drained parse max buffer).0
            (drained parse max buffer).1
            fs
            ((b ∷ bs) ++ concat pieces)
      c = drain-Cut fs _ buffer _ s (omega arith) e
