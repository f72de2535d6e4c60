-- ===== src/Tests.antt =====
-- Runs of the programs on small inputs: a client with a block of 64 bytes, a server with two shards,
-- and orders of one or two bytes.
pub mod Client
pub mod Poller
pub mod IniFile
pub mod Worker
pub mod Server
pub mod Link
use order_sync.Base.{
  map, ◌+◌, ◌-◌, ◌*◌, ◌≤◌, ◌^◌, if◌then◌else◌, leb, load, ℕ, ◌<◌, ◌≡◌, ◌≢◌, ◌⊎◌, refl, List, [],
  ◌∷◌, ◌++◌, Option, none, some, true, false, arith, length, All, IsByte, replicate, be_bytes, u8,
  ◌>>=◌,
}
use order_sync.Wire.Cipher.{sum, negate}
use order_sync.Wire.Frame.{frame, raw_frame}
use order_sync.Client.Tables.{encode_map}
use order_sync.Client.Packet.{Packet, Status, ok, parse_packet, read_uint64}
use order_sync.Client.Packet.Build.{Field, body_bytes}
use order_sync.Client.Packet.Finish.{build, sent, sent-build}
use order_sync.Client.Packet.Parse.{parse_packet_bounds}
use order_sync.Server.Tables.{send_byte_map}
use order_sync.Server.ClientUnit.{
  ClientUnit, SendOutcome, accepted, refused, retry, idle, fatal, fatal_error, send_done,
  data_sending, wait_head, conn_other, Shards, has_shard, send, handle_input, packet,
  handle_input_buf, drain, reply, server_cmd_data_rep,
}
use order_sync.Db.Repair.{repair_sql, column_text, value_text, repair_sql_lem}
use order_sync.Server.MemPool
use order_sync.Server.MemPool.{MemPool, fit_block_size, fit_loop, recycle, allocate}
use order_sync.Server.MemPool.Sizes.{fit_block_size_lem}
use order_sync.Server.MemPool.Reuse.{allocate-recycle}
use order_sync.Server.Timers.{Timer, TimerList, TimerUnit, check_expired, expire_micro_seconds}
use order_sync.Server.Timers
use order_sync.Server.Timers.Ordered.{IsQuiet}
use order_sync.Server.Timers.Expiry.{
  Event, list_made, attached, checked, after_all, over, made, attaches, checks, check_expired_lem,
}
use order_sync.Server.Timers.Waiting.{expire_micro_seconds_lem}
use order_sync.Server.ClientUnit.{Parsed, unread, thrown, read}
use order_sync.Server.ClientUnit.Corruption.{drain_corrupted}
use order_sync.Server.ClientUnit.Defs.{received, data_recving, wait_content}
use order_sync.Server.ClientUnit.Events.{input_notify, proc_pkg, recv}
use order_sync.Server.ClientUnit.Events.Listening.{input_notify_lem}
use order_sync.Server.ClientUnit.Undersized.{drain_undersized}
use order_sync.Server.ClientUnit.Reply.{reply-frame}
use order_sync.Server.ClientUnit.Sending.{
  output, send_conserves, send_fails, send_times, send_times_gives_up,
}
use order_sync.Server.ClientUnit.Sharding.{IsNumbered, queue, flow_all, orders_of, flow_all_lem}
use order_sync.Client.Turn.{request, cmd_data_sync}
use order_sync.Sync.Request.{request_bytes, serve, request_delivered}
use order_sync.Sync.Reply.{reply_accepted}
use order_sync.Sync.Stream.{Order, IsOrder, stream, replies, waiting, drain-stream}

abbrev malloc_64 : ℕ → Option (List ℕ)
malloc_64 n = some (replicate 64 0)

abbrev fresh : Packet
fresh = record { buf = none; sz = 16384; idx = 0; len = 0 }

-- The first byte stands for the field "id".
abbrev first_byte : List ℕ → Parsed
first_byte [] = unread
first_byte (b ∷ bs) = read b

abbrev open_socket : ℕ → ℕ → SendOutcome
open_socket c n = accepted n

abbrev stuck_socket : ℕ → ℕ → SendOutcome
stuck_socket c n = refused retry

abbrev two_shards : Shards
two_shards = (1, []) ∷ (2, []) ∷ []

abbrev connection : List ℕ → List ℕ → ClientUnit
connection r w = record {
  stage = idle;
  decode_status = wait_head;
  send_error_times = 0;
  input_enabled = true;
  output_enabled = false;
  conn_type = conn_other;
  r = r;
  w = w;
  sent = [];
  calls = 0;
  shards = two_shards;
  clients = [];
}

abbrev order_3 : List ℕ
order_3 = 3 ∷ 9 ∷ []

order_3-IsByte : All IsByte order_3
order_3-IsByte = (omega arith, (omega arith, tt))

order_3_plain : All (λ b. b ≢ 0) order_3
order_3_plain = (λ e. omega (arith, e), (λ e. omega (arith, e), tt))

two_shards-IsNumbered : IsNumbered two_shards
unfolding has_shard
two_shards-IsNumbered = record { nonempty = omega arith; complete = λ sid low high. ground arith }

request_delivered_example :
    (wire : List ℕ) × ((build malloc_64 cmd_data_sync (request 5 6 order_3) fresh >>= sent)
      ≡ some wire)
    × (handle_input (wire ++ []) ≡ packet (length wire))
    × (handle_input_buf first_byte open_socket (wire ++ []) (length wire) (connection [] [])
        ≡ serve first_byte open_socket 5 6 order_3 (connection [] []))
request_delivered_example =
    request_delivered malloc_64 fresh (replicate 64 0) 5 6 order_3 first_byte open_socket
      (connection [] []) [] refl (omega arith) (omega arith) (omega arith) (omega arith)
      (omega arith) order_3-IsByte order_3_plain

reply_accepted_example :
    (wire : List ℕ) × (q r : Packet) × (reply 6 ≡ some wire)
    × (length wire ≡ 17)
    × (parse_packet malloc_64 wire 17 fresh ≡ some (ok, q))
    × (read_uint64 q ≡ some (6, r))
reply_accepted_example =
    reply_accepted malloc_64 fresh (replicate 64 0) 6 (omega arith) refl (omega arith)

abbrev two_orders : List Order
two_orders =
    record { client_id = 5; event_id = 6; json = order_3 }
    ∷ record { client_id = 5; event_id = 7; json = order_3 }
    ∷ []

client_5-IsOrder :
    (n : ℕ) → n < 8 → IsOrder (record { client_id = 5; event_id = n; json = order_3 })
client_5-IsOrder n small = record {
  fits = omega arith;
  client_small = omega arith;
  event_small = omega arith;
  bytes = order_3-IsByte;
  plain = order_3_plain;
}

two_orders-IsOrder : All IsOrder two_orders
two_orders-IsOrder = (client_5-IsOrder 6 (omega arith), (client_5-IsOrder 7 (omega arith), tt))

two_orders_typed : All (λ t. first_byte t ≢ thrown) (map (λ o. o.json) two_orders)
two_orders_typed = (λ e. cc, (λ e. cc, tt))

drain-stream_example :
    (v : ClientUnit) × (drain first_byte open_socket 54 (connection (stream two_orders ++ []) [])
      ≡ some (waiting [], v))
    × (v.sent ≡ [] ++ replies two_orders)
    × (v.w ≡ [])
    × (v.r ≡ [])
    × ((j : ℕ)
        → queue j v.shards
          ≡ queue j two_shards ++ orders_of first_byte 2 j (order_3 ∷ order_3 ∷ []))
unfolding handle_input request_bytes
drain-stream_example =
    drain-stream first_byte open_socket two_orders (connection (stream two_orders ++ []) []) []
      (λ c n. refl) two_orders-IsOrder two_shards-IsNumbered two_orders_typed refl refl refl

sent-build_example :
    (build malloc_64 2 (Field.uint8 7 ∷ []) fresh >>= sent)
    ≡ some (frame encode_map 2 (body_bytes (Field.uint8 7 ∷ [])))
sent-build_example =
    sent-build malloc_64 2 (Field.uint8 7 ∷ []) fresh (replicate 64 0) refl (tt, tt) (omega arith)
      (omega arith)

-- The body 3 9 goes as 0x5f 0xab, and 0x5f becomes 1.
abbrev damaged : List ℕ
damaged = raw_frame 9 2 (negate (u8 (sum order_3))) (1 ∷ 0xab ∷ [])

drain_corrupted_example :
    drain first_byte open_socket 1 (connection damaged []) ≡ some (fatal, connection damaged [])
unfolding encode_map
drain_corrupted_example =
    drain_corrupted first_byte open_socket 0 2 0x5f 1 (connection damaged []) order_3 [] (0xab ∷ [])
      [] order_3-IsByte refl (omega arith) (omega arith) (λ e. omega (arith, e)) (omega arith) refl

abbrev sent_all : ClientUnit
sent_all = record (connection [] []) { stage = send_done; sent = 1 ∷ 2 ∷ []; calls = 1 }

send_conserves_example :
    (output sent_all ≡ output (connection [] (1 ∷ 2 ∷ [])))
    × (sent_all.r ≡ [])
    × (((sent_all.stage ≡ send_done) × (sent_all.w ≡ []) × (sent_all.output_enabled ≡ false))
        ⊎ ((sent_all.stage ≡ data_sending)
            × (0 < length sent_all.w)
            × (sent_all.output_enabled ≡ true)))
unfolding send
send_conserves_example = send_conserves open_socket (connection [] (1 ∷ 2 ∷ [])) sent_all 2 refl

abbrev gave_up : ClientUnit
gave_up = record (connection [] []) { stage = fatal_error }

send_times_gives_up_example :
    ((send_times stuck_socket 49 (connection [] (1 ∷ []))).w ≡ 1 ∷ [])
    × ((send_times stuck_socket 50 (connection [] (1 ∷ []))).stage ≡ fatal_error)
    × ((send_times stuck_socket 50 (connection [] (1 ∷ []))).w ≡ [])
    × ((send_times stuck_socket 50 (connection [] (1 ∷ []))).input_enabled ≡ false)
send_times_gives_up_example =
    send_times_gives_up stuck_socket (connection [] (1 ∷ [])) (λ c n. refl) (omega arith) refl

parse_packet_bounds_example :
    ((9 ≤ 10)
      × (10 ≤ 64)
      × (status : Status) × (q : Packet) × (block' : List ℕ) × (parse_packet malloc_64
            (replicate 20 1)
            10
            fresh
          ≡ some (status, q))
      × (q.buf ≡ some block')
      × (length block' ≡ 64)
      × (q.len ≡ 10)
      × (q.idx ≡ 9))
    ⊎ (((64 < 10) ⊎ (10 < 9)) × (parse_packet malloc_64 (replicate 20 1) 10 fresh ≡ none))
parse_packet_bounds_example =
    parse_packet_bounds malloc_64 fresh (replicate 64 0) (replicate 20 1) 10 refl (omega arith)
      (omega arith) (omega arith)

abbrev undersized : List ℕ
undersized = be_bytes 2 3 ++ (0x42 ∷ 0x59 ∷ (1 ∷ 1 ∷ 0 ∷ 2 ∷ 0 ∷ []))

drain_undersized_example : drain first_byte open_socket 9 (connection undersized []) ≡ none
drain_undersized_example =
    drain_undersized first_byte open_socket 8 3 (connection undersized []) (1 ∷ 1 ∷ 0 ∷ 2 ∷ 0 ∷ [])
      (omega arith) (omega arith) refl

abbrev half_read : ClientUnit
half_read = record (connection (0x42 ∷ []) []) {
  stage = data_recving;
  decode_status = wait_content;
}

input_notify_lem_example : half_read.input_enabled ≡ true
unfolding input_notify proc_pkg recv drain handle_input
input_notify_lem_example =
    input_notify_lem first_byte open_socket (received (0x42 ∷ [])) (connection [] []) half_read true
      refl refl
