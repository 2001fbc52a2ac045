-- ===== src/Examples/Wire.antt =====
-- The wire format on concrete frames.
use nagisa_lake.Prelude.{ℕ, List, ◌≡◌, refl, some, [], ◌∷◌, ok, arith, length}
use nagisa_lake.Rpc.Code.{unavailable}
use nagisa_lake.Rpc.Frames.{
  request, response, client_parse, server_parse, client_payload_len, server_payload_len,
}
use nagisa_lake.Rpc.Frames.RoundTrip.{
  client_payload, server_payload, client_parse-client_payload, server_parse-server_payload,
}

abbrev trace : List ℕ
trace = 1 ∷ 2 ∷ 3 ∷ 4 ∷ 5 ∷ 6 ∷ 7 ∷ 8 ∷ 9 ∷ 10 ∷ 11 ∷ 12 ∷ 13 ∷ 14 ∷ 15 ∷ 16 ∷ []

client_parse-client_payload_example :
    (client_parse (client_payload (request 7 500000 trace (104 ∷ 105 ∷ [])))
      ≡ ok (request 7 500000 trace (104 ∷ 105 ∷ [])))
    × (length (client_payload (request 7 500000 trace (104 ∷ 105 ∷ [])))
        ≡ client_payload_len (request 7 500000 trace (104 ∷ 105 ∷ [])))
client_parse-client_payload_example =
    client_parse-client_payload (request 7 500000 trace (104 ∷ 105 ∷ []))
      (omega arith, omega arith, refl)

server_parse-server_payload_example :
    (server_parse (server_payload (response 9 (some unavailable) (111 ∷ [])))
      ≡ ok (response 9 (some unavailable) (111 ∷ [])))
    × (length (server_payload (response 9 (some unavailable) (111 ∷ [])))
        ≡ server_payload_len (response 9 (some unavailable) (111 ∷ [])))
server_parse-server_payload_example =
    server_parse-server_payload (response 9 (some unavailable) (111 ∷ [])) (omega arith)
