-- ===== src/Examples/Streams.antt =====
-- Two client frames over a stream that is cut in the midst of the first prefix.
use nagisa_lake.Prelude.{
  ◌≡◌, ◌≢◌, refl, Bool, true, false, List, [], ◌∷◌, ◌++◌, map, arith, ok, take, drop,
}
use nagisa_lake.Rpc.Words.{to_be, to_le}
use nagisa_lake.Rpc.Frames.{
  Bytes, ClientFrame, cancel, client_frame, client_parse, client_payload_len, client_split_header,
}
use nagisa_lake.Rpc.Framing.{
  FrameConfig, write_frames, read_frames, got, frame, closed, drain, starved, flush, put_body,
  put_header, batch_full,
}
use nagisa_lake.Rpc.Framing.Wire.{concat, client_lawful}
use nagisa_lake.Rpc.Framing.Connection.{read_frames-write_frames, drain-ends}

abbrev config : FrameConfig
config = record { max_frame_bytes = 1000; max_batch_frames = 8; max_batch_bytes = 100 }

abbrev queue : List (ClientFrame × Bool)
queue = (cancel 7, true) ∷ (cancel 300, false) ∷ []

abbrev bytes : Bytes
bytes = concat (write_frames client_frame config [] 0 queue).0

read_frames-write_frames_example :
    ((write_frames client_frame config [] 0 queue).1 ≡ ok tt)
    × (read_frames client_parse 1000 [] (map got (take 2 bytes ∷ drop 2 bytes ∷ []))
        ≡ map frame (cancel 7 ∷ cancel 300 ∷ []) ++ (closed ∷ []))
unfolding concat write_frames flush put_body put_header batch_full client_payload_len
    client_split_header to_be to_le
read_frames-write_frames_example =
    read_frames-write_frames client_frame client_parse client_lawful config queue
      (take 2 bytes ∷ drop 2 bytes ∷ []) (omega arith)
      ((omega arith, omega arith), ((omega arith, omega arith), tt)) ((λ p. cc), ((λ p. cc), tt))
      refl

drain-ends_example : (drain client_parse 1000 4 (0 ∷ 0 ∷ 9 ∷ [])).1 ≢ starved
drain-ends_example = drain-ends client_parse 1000 4 (0 ∷ 0 ∷ 9 ∷ []) (omega arith)
