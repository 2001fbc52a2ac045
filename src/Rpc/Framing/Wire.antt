-- ===== src/Rpc/Framing/Wire.antt =====
-- The bytes of frames, and what crates/nagisalake-rpc/src/framing.rs relies on of the frames that it
-- carries.
use nagisa_lake.Prelude.{◌≡◌, List, [], ◌∷◌, ◌++◌, length, Result, ok}
use nagisa_lake.Rpc.Words.{to_be}
use nagisa_lake.Rpc.Frames.{
  Bytes, Frame, FrameError, ClientFrame, ServerFrame, client_frame, server_frame, client_parse,
  server_parse,
}
use nagisa_lake.Rpc.Frames.RoundTrip.{
  ClientFits, ServerFits, client_payload, server_payload, client_parse-client_payload,
  server_parse-server_payload,
}
use nagisa_lake.Rpc.Framing.{prefix_bytes}

unfoldable pub concat : List Bytes → Bytes
concat [] = []
concat (b ∷ bs) = b ++ concat bs

module _ {T : Type 0} (fr : Frame T) where
  abbrev pub payload : T → Bytes
  payload f = (fr.split_header f).0 ++ (fr.split_header f).1

  -- A frame behind its length.
  unfoldable pub encode : T → Bytes
  encode f = to_be prefix_bytes (fr.payload_len f) ++ payload f

  unfoldable pub stream : List T → Bytes
  unfolding encode
  stream [] = []
  stream (f ∷ fs) = encode f ++ stream fs

-- A kind of frame whose payloads have the announced length and parse to their frames.
pub record Lawful {T : Type 0} (fr : Frame T) (parse : Bytes → Result FrameError T) : Type 1 where
  pub Fits : T → Type 0
  pub parses : (f : T) → Fits f → parse (payload fr f) ≡ ok f
  pub measured : (f : T) → Fits f → length (payload fr f) ≡ fr.payload_len f

pub client_parses : (f : ClientFrame) → ClientFits f → client_parse (payload client_frame f) ≡ ok f
unfolding client_payload
client_parses f h = (client_parse-client_payload f h).0

pub client_measured :
    (f : ClientFrame) → ClientFits f → length (payload client_frame f) ≡ client_frame.payload_len f
unfolding client_payload
client_measured f h = (client_parse-client_payload f h).1

abbrev pub client_lawful : Lawful client_frame client_parse
client_lawful = record { Fits = ClientFits; parses = client_parses; measured = client_measured }

pub server_parses : (f : ServerFrame) → ServerFits f → server_parse (payload server_frame f) ≡ ok f
unfolding server_payload
server_parses f h = (server_parse-server_payload f h).0

pub server_measured :
    (f : ServerFrame) → ServerFits f → length (payload server_frame f) ≡ server_frame.payload_len f
unfolding server_payload
server_measured f h = (server_parse-server_payload f h).1

abbrev pub server_lawful : Lawful server_frame server_parse
server_lawful = record { Fits = ServerFits; parses = server_parses; measured = server_measured }
