-- ===== src/Sync/Reply.antt =====
-- The server's reply on its way back: `cmd_data_handler` makes it, and `run` reads the event's number
-- from it.
use order_sync.Base.{
  ℕ, ◌^◌, ◌≤◌, ◌<◌, ◌≡◌, refl, List, [], Option, some, arith, length, be_bytes, be_bytes-IsByte,
  append-nil, sym,
}
use order_sync.Wire.Frame.{frame}
use order_sync.Server.Tables.{send_byte_map}
use order_sync.Client.Packet.{Packet, ok, parse_packet, read_uint64}
use order_sync.Client.Packet.Parse.{target, parse_packet-frame, read_uint64-first}
use order_sync.Server.ClientUnit.Requests.{reply, server_cmd_data_rep}
use order_sync.Server.ClientUnit.Reply.{reply-frame}

-- The reply to any event, whose number has 64 bits, is a packet of 17 bytes, which the client
-- accepts, into a new block or the block of a buffer that it has used before, if that has 17 bytes,
-- and from which it reads that event's number.
pub reply_accepted :
    (malloc : ℕ → Option (List ℕ)) (p : Packet) (block : List ℕ) (event_id : ℕ)
    → event_id < 256 ^ 8
    → target malloc 17 p ≡ some block
    → 17 ≤ length block
    → (wire : List ℕ) × (q r : Packet) × (reply event_id ≡ some wire)
      × (length wire ≡ 17)
      × (parse_packet malloc wire 17 p ≡ some (ok, q))
      × (read_uint64 q ≡ some (event_id, r))
reply_accepted malloc p block event_id small t room =
    let wire : List ℕ = frame send_byte_map server_cmd_data_rep (be_bytes 8 event_id) in
    let (q, rest, parsed, buf, idx) =
      parse_packet-frame malloc p block wire [] (be_bytes 8 event_id) server_cmd_data_rep 17 t
        (sym (append-nil wire)) refl room (omega arith) (be_bytes-IsByte 8 event_id) in
    let (r, read) = read_uint64-first q _ _ _ event_id rest buf idx small in
    (wire, q, r, reply-frame event_id, refl, parsed, read)
