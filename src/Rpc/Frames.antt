-- ===== src/Rpc/Frames.antt =====
-- crates/nagisalake-rpc/src/protocol.rs: the frames, their headers, and their parsers. A byte string
-- is the list of its bytes.
pub mod RoundTrip
use nagisa_lake.Prelude.{
  ℕ, suc, ◌+◌, String, Bool, Option, none, some, List, [], ◌∷◌, ◌++◌, length, take, drop, ltb, ◌==◌,
  if◌then◌else◌, Result, ok, err, ◌>>=◌, ok_or,
}
use nagisa_lake.Rpc.Code.{Code, as_wire, from_wire}
use nagisa_lake.Rpc.Words.{to_le, from_le}

abbrev pub Bytes : Type 0
Bytes = List ℕ

abbrev pub kind_request : ℕ
kind_request = 1

abbrev pub kind_cancel : ℕ
kind_cancel = 2

abbrev pub kind_response : ℕ
kind_response = 3

abbrev pub status_ok : ℕ
status_ok = 0

abbrev pub request_header_len : ℕ
request_header_len = 33

abbrev pub cancel_frame_len : ℕ
cancel_frame_len = 9

abbrev pub response_header_len : ℕ
response_header_len = 10

pub data ClientFrame : Type 0 where
  -- The id, the timeout in microseconds, the trace id (16 bytes) and the body.
  request : ℕ → ℕ → Bytes → Bytes → ClientFrame
  cancel : ℕ → ClientFrame

pub data ServerFrame : Type 0 where
  response : ℕ → Option Code → Bytes → ServerFrame

pub data FrameError : Type 0 where
  truncated : FrameError
  unknown_kind : ℕ → FrameError
  unknown_status : ℕ → FrameError

-- The two methods of `Frame`: the length, and the header with the body that follows it.
pub record Frame (T : Type 0) : Type 0 where
  pub payload_len : T → ℕ
  pub split_header : T → Bytes × Bytes

unfoldable pub client_payload_len : ClientFrame → ℕ
client_payload_len (request id timeout trace body) = request_header_len + length body
client_payload_len (cancel id) = cancel_frame_len

unfoldable pub client_split_header : ClientFrame → Bytes × Bytes
client_split_header (request id timeout trace body) =
    (kind_request ∷ (to_le 8 id ++ (to_le 8 timeout ++ trace)), body)
client_split_header (cancel id) = (kind_cancel ∷ to_le 8 id, [])

instance abbrev pub client_frame : Frame ClientFrame
client_frame = record { payload_len = client_payload_len; split_header = client_split_header }

status_byte : Option Code → ℕ
status_byte none = status_ok
status_byte (some c) = as_wire c

unfoldable pub server_payload_len : ServerFrame → ℕ
server_payload_len (response id code body) = response_header_len + length body

unfoldable pub server_split_header : ServerFrame → Bytes × Bytes
unfolding status_byte
server_split_header (response id code body) =
    (kind_response ∷ (to_le 8 id ++ (status_byte code ∷ [])), body)

instance abbrev pub server_frame : Frame ServerFrame
server_frame = record { payload_len = server_payload_len; split_header = server_split_header }

-- `&header[from..from + count]`.
abbrev slice : ℕ → ℕ → Bytes → Bytes
slice from count bytes = take count (drop from bytes)

-- `payload.first()`.
abbrev first : Bytes → Option ℕ
first [] = none
first (b ∷ bs) = some b

client_parse_kind : ℕ → Bytes → Result FrameError ClientFrame
client_parse_kind kind payload =
    if kind == kind_request
    then (if ltb (length payload) request_header_len
        then err truncated
        else ok (
            request (from_le (slice 1 8 payload)) (from_le (slice 9 8 payload))
              (slice 17 16 payload) (drop request_header_len payload)))
    else (if kind == kind_cancel
        then (if ltb (length payload) cancel_frame_len
            then err truncated
            else ok (cancel (from_le (slice 1 8 payload))))
        else err (unknown_kind kind))

unfoldable pub client_parse : Bytes → Result FrameError ClientFrame
unfolding client_parse_kind
client_parse payload = do kind ← ok_or (first payload) truncated; client_parse_kind kind payload

-- `header[9]`, after the length was checked.
abbrev byte_at : ℕ → Bytes → ℕ
byte_at i bytes = elim (drop i bytes) [ [] ↦ 0 | b ∷ bs ↦ b ]

parse_status : ℕ → Result FrameError (Option Code)
parse_status status =
    if status == status_ok
    then ok none
    else (ok_or (from_wire status) (unknown_status status) >>= λ c. ok (some c))

unfoldable pub server_parse : Bytes → Result FrameError ServerFrame
unfolding parse_status
server_parse payload = do
  kind ← ok_or (first payload) truncated
  if kind == kind_response
      then (if ltb (length payload) response_header_len
          then err truncated
          else (parse_status (byte_at 9 payload) >>= λ code.
              ok (response (from_le (slice 1 8 payload)) code (drop response_header_len payload))))
      else err (unknown_kind kind)
