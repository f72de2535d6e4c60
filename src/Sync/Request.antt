-- ===== src/Sync/Request.antt =====
-- A synchronisation request on its way: `order_sync_client_t::run` builds it
-- (OrderSyncClient/src/order_sync_client.cc), `CClientUnit::HandleInput` finds it in the stream and
-- `HandleInputBuf` hands it to `cmd_data_handler` (OrderSyncServer/src/proxy/client_unit.cpp).
use order_sync.Base.{
  ℕ, ◌+◌, ◌^◌, ◌≤◌, ◌<◌, ◌≡◌, ◌≢◌, refl, sym, ap, ◌∙◌, List, [], ◌∷◌, ◌++◌, Option, some, map,
  arith, length, take, All, All-append, IsByte, length-map, be_bytes, be_bytes-IsByte, bind_some,
  ◌>>=◌, append-nil, u8,
}
use order_sync.Wire.Cipher.{at, sum, negate, decode_loop-frame}
use order_sync.Wire.Frame.{frame, raw_frame}
use order_sync.Wire.Agreement.{tables_agree}
use order_sync.Client.Tables.{encode_map}
use order_sync.Client.Packet.{Packet}
use order_sync.Client.Turn.{cmd_data_sync, request}
use order_sync.Client.Packet.Build.{body_bytes}
use order_sync.Client.Packet.Finish.{build, sent, sent-build, obtain}
use order_sync.Server.Tables.{recv_byte_map}
use order_sync.Server.Packet.Receive.{zeros_room}
use order_sync.Server.Packet.Reads.{Reads, read_int-Reads, read_ulong-Reads, read_string-Reads}
use order_sync.Server.ClientUnit.{Parsed}
use order_sync.Server.ClientUnit.{
  ClientUnit, SendOutcome, packet, handle_input, handle_input_buf, cmd_data_handler, data_flow,
  reply, send,
}
use order_sync.Server.ClientUnit.Framing.{handle_input-raw_frame, handle_input_buf-good, opened}

unfoldable pub request_bytes : ℕ → ℕ → List ℕ → List ℕ
request_bytes client_id event_id json =
    be_bytes 4 client_id ++ (be_bytes 8 event_id ++ (be_bytes 4 (length json) ++ json))

-- What the server does with a request, once it has read the three fields.
unfoldable pub serve :
    (List ℕ → Parsed)
    → (ℕ → ℕ → SendOutcome)
    → ℕ
    → ℕ
    → List ℕ
    → ClientUnit
    → Option (Option ℕ × ClientUnit)
serve order_id kernel client_id event_id json u = do
  flow ← data_flow order_id json u.shards
  bytes ← reply event_id
  some (
      send kernel (record u { clients = client_id ∷ u.clients; shards = flow.1; w = u.w ++ bytes }))

cmd_data_handler-opened :
    (order_id : List ℕ → Parsed) (kernel : ℕ → ℕ → SendOutcome) (u : ClientUnit)
    (client_id event_id code : ℕ) (json : List ℕ)
    → client_id < 256 ^ 4
    → event_id < 256 ^ 8
    → All (λ b. b ≢ 0) json
    → length json + 25 ≤ 8000
    → cmd_data_handler order_id kernel
        (opened (length json + 16) 2 code (request_bytes client_id event_id json))
        u
      ≡ serve order_id kernel client_id event_id json u
unfolding cmd_data_handler serve request_bytes
cmd_data_handler-opened order_id kernel u client_id event_id code json hc he plain fits =
    let json_bytes : List ℕ = be_bytes 4 (length json) ++ json in
    let header : List ℕ = take 9 (raw_frame (length json + 16 + 7) 2 code []) in
    let (rest, room) = zeros_room (length json + 16 + 9) (omega arith) in
    let start : Reads (opened (length json + 16) 2 code (request_bytes client_id event_id json))
        header (be_bytes 4 client_id ++ (be_bytes 8 event_id ++ json_bytes)) (0 ∷ rest) =
      record {
        buf =
            ap
              (λ z.
                raw_frame (length json + 16 + 7) 2 code (request_bytes client_id event_id json)
                ++ z)
              room;
        pos = refl;
        size = omega arith;
        fits = omega arith;
      } in
    let (id, at_event) = read_int-Reads client_id _ start hc in
    let (event, at_text) = read_ulong-Reads event_id json_bytes at_event he in
    let (q, text) = read_string-Reads json rest at_text plain in
    bind_some _ id (bind_some _ event (bind_some _ text refl))

-- The frame of a request.
abbrev pub request_wire : ℕ → ℕ → List ℕ → List ℕ
request_wire client_id event_id json =
    frame encode_map cmd_data_sync (request_bytes client_id event_id json)

body_bytes-request :
    (client_id event_id : ℕ) (json : List ℕ)
    → body_bytes (request client_id event_id json) ≡ request_bytes client_id event_id json
unfolding request request_bytes
body_bytes-request client_id event_id json =
    ap (λ s. be_bytes 4 client_id ++ (be_bytes 8 event_id ++ (be_bytes 4 (length json) ++ s)))
      (append-nil json)

request_bytes-IsByte :
    (client_id event_id : ℕ) (json : List ℕ)
    → All IsByte json
    → All IsByte (request_bytes client_id event_id json)
unfolding request_bytes
request_bytes-IsByte client_id event_id json h =
    let text : List ℕ = be_bytes 4 (length json) ++ json in
    All-append IsByte (be_bytes 4 client_id) (be_bytes 8 event_id ++ text)
      (be_bytes-IsByte 4 client_id)
      (All-append IsByte (be_bytes 8 event_id) text (be_bytes-IsByte 8 event_id)
        (All-append IsByte (be_bytes 4 (length json)) json (be_bytes-IsByte 4 (length json)) h))

length-request_bytes :
    (client_id event_id : ℕ) (json : List ℕ)
    → length (request_bytes client_id event_id json) ≡ length json + 16
unfolding request_bytes
length-request_bytes client_id event_id json = omega arith

-- The client sends the frame of the request, whatever its buffer held before.
pub request_sent :
    (malloc : ℕ → Option (List ℕ)) (p : Packet) (block : List ℕ) (client_id event_id : ℕ)
    (json : List ℕ)
    → obtain malloc p ≡ some block
    → length json + 25 < length block
    → length block < 65536
    → All (λ b. b ≢ 0) json
    → (build malloc cmd_data_sync (request client_id event_id json) p >>= sent)
      ≡ some (request_wire client_id event_id json)
unfolding request
request_sent malloc p block client_id event_id json obtained enough small plain =
    let e = body_bytes-request client_id event_id json in
    sent-build malloc cmd_data_sync (request client_id event_id json) p block obtained
      (tt, (tt, (plain, tt)))
      (omega (arith, ap length e, length-request_bytes client_id event_id json)) small
    ∙ ap (λ b. some (frame encode_map cmd_data_sync b)) e

pub request_handled :
    (order_id : List ℕ → Parsed) (kernel : ℕ → ℕ → SendOutcome) (u : ClientUnit)
    (source more : List ℕ) (client_id event_id : ℕ) (json : List ℕ)
    → source ≡ request_wire client_id event_id json ++ more
    → length json + 25 ≤ 8000
    → client_id < 256 ^ 4
    → event_id < 256 ^ 8
    → All IsByte json
    → All (λ b. b ≢ 0) json
    → (handle_input source ≡ packet (length (request_wire client_id event_id json)))
      × (handle_input_buf order_id kernel source (length (request_wire client_id event_id json)) u
          ≡ serve order_id kernel client_id event_id json u)
request_handled order_id kernel u source more client_id event_id json held fits hc he bytes plain =
    let body : List ℕ = request_bytes client_id event_id json in
    let coded : List ℕ = map (at encode_map) body in
    let code : ℕ = negate (u8 (sum body)) in
    let clear = request_bytes-IsByte client_id event_id json bytes in
    let l : length coded ≡ length json + 16 =
      length-map (at encode_map) body ∙ length-request_bytes client_id event_id json in
    let framed : source ≡ raw_frame (length coded + 7) 2 code coded ++ more =
      held
      ∙ ap (λ k. raw_frame (k + 7) 2 code coded ++ more) (sym (length-map (at encode_map) body)) in
    let size : length coded + 9 ≡ length (request_wire client_id event_id json) = omega arith in
    (
      handle_input-raw_frame source more coded 2 code framed (omega arith) ∙ ap packet size,
      ap (λ k. handle_input_buf order_id kernel source k u) (sym size)
          ∙ handle_input_buf-good order_id kernel u source more 2 code coded framed (omega arith)
              body (decode_loop-frame encode_map recv_byte_map (tables_agree.0) body clear)
              (omega arith)
          ∙ ap (λ k. cmd_data_handler order_id kernel (opened k 2 code body) u) l
          ∙ cmd_data_handler-opened order_id kernel u client_id event_id code json hc he plain fits,
    )

-- A request that the client builds, of at most 8000 bytes, with numbers of 32 and 64 bits and an
-- order of bytes with no NUL, in a block of less than 65536 bytes that it fits with a byte to spare:
-- it is found whole at the head of the server's stream, whatever stands behind it, and is served with
-- the client's number, the event's number and the order exactly as the client wrote them.
pub request_delivered :
    (malloc : ℕ → Option (List ℕ)) (p : Packet) (block : List ℕ) (client_id event_id : ℕ)
    (json : List ℕ) (order_id : List ℕ → Parsed) (kernel : ℕ → ℕ → SendOutcome) (u : ClientUnit)
    (more : List ℕ)
    → obtain malloc p ≡ some block
    → length json + 25 < length block
    → length block < 65536
    → length json + 25 ≤ 8000
    → client_id < 256 ^ 4
    → event_id < 256 ^ 8
    → All IsByte json
    → All (λ b. b ≢ 0) json
    → (wire : List ℕ) × ((build malloc cmd_data_sync (request client_id event_id json) p >>= sent)
        ≡ some wire)
      × (handle_input (wire ++ more) ≡ packet (length wire))
      × (handle_input_buf order_id kernel (wire ++ more) (length wire) u
          ≡ serve order_id kernel client_id event_id json u)
request_delivered malloc p block client_id event_id json order_id kernel u more obtained enough
      small fits hc he bytes plain =
    let handled =
      request_handled order_id kernel u (request_wire client_id event_id json ++ more) more
        client_id event_id json refl fits hc he bytes plain in
    (
      request_wire client_id event_id json,
      request_sent malloc p block client_id event_id json obtained enough small plain,
      handled.0,
      handled.1,
    )
