-- ===== src/Rpc/Frames/RoundTrip.antt =====
-- What the writer of crates/nagisalake-rpc/src/protocol.rs lays out, its parser reads back.
use nagisa_lake.Prelude.{
  ◌^◌, ◌<◌, ◌≡◌, none, some, ◌++◌, arith, length, length-append, take-append_exact,
  drop-append_exact, ok,
}
use nagisa_lake.Rpc.Code.{from_wire-as_wire}
use nagisa_lake.Rpc.Words.{to_le, from_le-to_le}
use nagisa_lake.Rpc.Frames.{
  Bytes, ClientFrame, ServerFrame, request, cancel, response, client_payload_len,
  client_split_header, server_payload_len, server_split_header, client_parse, server_parse,
}

-- The fields have their widths: `u64` ids and timeouts, trace ids of sixteen bytes.
abbrev pub ClientFits : ClientFrame → Type 0
ClientFits (request id timeout trace body) =
    (id < 2 ^ 64) × (timeout < 2 ^ 64) × (length trace ≡ 16)
ClientFits (cancel id) = id < 2 ^ 64

abbrev pub ServerFits : ServerFrame → Type 0
ServerFits (response id code body) = id < 2 ^ 64

-- The payload as it goes out: the header, then the body.
unfoldable pub client_payload : ClientFrame → Bytes
client_payload f = let (header, body) = client_split_header f in header ++ body

unfoldable pub server_payload : ServerFrame → Bytes
server_payload f = let (header, body) = server_split_header f in header ++ body

-- A written client frame has the length that was announced, and parses to itself.
pub client_parse-client_payload :
    (f : ClientFrame)
    → ClientFits f
    → (client_parse (client_payload f) ≡ ok f) × (length (client_payload f) ≡ client_payload_len f)
unfolding client_parse client_payload client_split_header client_payload_len to_le
client_parse-client_payload (request id timeout trace body) h = ground (
  arith,
  from_le-to_le 8 id,
  from_le-to_le 8 timeout,
  length-append trace body,
  take-append_exact 16 trace body,
  drop-append_exact 16 trace body,
)
client_parse-client_payload (cancel id) h = ground (arith, from_le-to_le 8 id)

-- A written server frame has the length that was announced, and parses to itself.
pub server_parse-server_payload :
    (f : ServerFrame)
    → ServerFits f
    → (server_parse (server_payload f) ≡ ok f) × (length (server_payload f) ≡ server_payload_len f)
unfolding server_parse server_payload server_split_header server_payload_len to_le
server_parse-server_payload (response id none body) h = ground (arith, from_le-to_le 8 id)
server_parse-server_payload (response id (some c) body) h =
    ground (arith, from_le-to_le 8 id, from_wire-as_wire c)
