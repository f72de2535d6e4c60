-- ===== src/Tests/Client.antt =====
-- Runs of the client's loop on a packet of three bytes, and of one event with an order of two bytes.
use order_sync.Base.{
  ℕ, zero, suc, ◌+◌, ◌%◌, ◌^◌, ◌≡◌, refl, List, [], ◌∷◌, ◌++◌, Option, none, some, true, false,
  arith, All, load, store, swap_bytes, replicate, be_bytes,
}
use order_sync.Wire.Frame.{frame}
use order_sync.Server.Tables.{send_byte_map}
use order_sync.Wire.Cipher.{decode_loop, encode_loop}
use order_sync.Client.Tables.{encode_map, decode_map}
use order_sync.Client.Packet.{
  Packet, parse_packet, poke, decode, peek, begin, write_int, write_uint, put, write_uint64,
  write_string, clean, encode, end, write_uint16, write_uint8, read_uint64, read_swapped,
  read_bytes,
}
use order_sync.Client.Packet.Build.{write, write_all}
use order_sync.Client.Packet.Finish.{build, sent}
use order_sync.Client.TcpClient.{
  TcpClient, again, other, took, not_taken, got, nothing, reached, unreachable, send_start,
  reconnect, drop_connection, send_answer, recv,
}
use order_sync.Client.Run.{
  Verdict, success, reconnecting, receiving, finished, Loop, Moment, start_send, step, steps,
}
use order_sync.Client.Run.Verdicts.{HasRoom}
use order_sync.Client.Run.Progress.{IsServed, steps_recover}
use order_sync.Client.Run.Patience.{IsSilent, steps_patience, waiting}
use order_sync.Client.Turn.{
  Client, Orders, prepare, stamped, writeable, with_text, event, begin_event, end_event, settle,
  request,
}
use order_sync.Sync.Request.{request_wire}
use order_sync.Sync.Event.{writeable_delivered}

abbrev malloc_64 : ℕ → Option (List ℕ)
malloc_64 n = some (replicate 64 0)

abbrev fresh : Packet
fresh = record { buf = none; sz = 16384; idx = 0; len = 0 }

abbrev down : TcpClient
down = record { is_connected = false; current = []; past = [] }

abbrev start : Loop
start = record { stage = reconnecting; tcp = down; input = fresh; r_errs = 0 }

abbrev wire_3 : List ℕ
wire_3 = 1 ∷ 2 ∷ 3 ∷ []

abbrev reply_to : ℕ → List ℕ
reply_to event_id = frame send_byte_map 2 (be_bytes 8 event_id)

-- The server is there, its socket takes two bytes each time, and a reply to event 1 has come.
abbrev good : Moment
good = record { takes = took 2; gives = got (reply_to 1); reaches = reached }

abbrev bad : Moment
bad = record { takes = not_taken other; gives = got []; reaches = unreachable }

abbrev silent : Moment
silent = record { takes = took 2; gives = nothing again; reaches = reached }

abbrev noise : Moment
noise = record { takes = took 2; gives = got (replicate 17 9); reaches = reached }

-- Nobody is there; then two bytes are taken, the connection breaks, and all is sent again.
abbrev rough : List Moment
rough = bad ∷ good ∷ good ∷ bad ∷ good ∷ good ∷ good ∷ silent ∷ noise ∷ []

abbrev from_some : Option Loop → Loop
from_some none = start
from_some (some s) = s

abbrev rough_end : Loop
rough_end = from_some (steps malloc_64 1 wire_3 rough (start_send wire_3 start))

room_64 : HasRoom malloc_64 fresh
room_64 = record { block = replicate 64 0; there = refl; room = omega arith }

good-IsServed : IsServed malloc_64 1 wire_3 2 (omega arith) (omega arith) good
good-IsServed = record {
  size = 2;
  takes = refl;
  some_taken = omega arith;
  gives = refl;
  reaches = refl;
}

abbrev broken : List Moment
broken = bad ∷ good ∷ good ∷ bad ∷ []

abbrev broken_end : Loop
broken_end = from_some (steps malloc_64 1 wire_3 broken (start_send wire_3 start))

steps_recover_example :
    (u : Loop) × (steps malloc_64 1 wire_3 (replicate 5 good) broken_end ≡ some u)
    × (u.stage ≡ finished success)
unfolding steps step send_start reconnect drop_connection send_answer
steps_recover_example =
    steps_recover malloc_64 1 wire_3 2 (omega arith) (omega arith) broken (replicate 5 good) start
      broken_end refl (omega arith) room_64
      (good-IsServed, (good-IsServed, (good-IsServed, (good-IsServed, (good-IsServed, tt)))))
      (omega arith)

abbrev late : Loop
late = record {
  stage = receiving;
  tcp = record { is_connected = true; current = wire_3; past = [] };
  input = fresh;
  r_errs = 0;
}

silence : (n : ℕ) → All IsSilent (replicate n silent)
silence zero = tt
silence (suc n) = (refl, silence n)

steps_patience_example :
    (t : Loop) × (steps malloc_64 1 wire_3
        (replicate 201 silent)
        (waiting malloc_64 1 wire_3 down fresh 0)
      ≡ some (waiting malloc_64 1 wire_3 down fresh 201))
    × (step malloc_64 1 wire_3 silent (waiting malloc_64 1 wire_3 down fresh 201) ≡ some t)
    × (t.stage ≡ reconnecting)
    × (t.tcp.is_connected ≡ false)
steps_patience_example =
    steps_patience malloc_64 1 wire_3 (replicate 201 silent) silent down fresh (silence 201) refl
      refl

-- The library: the type of a text is its first byte, and the date of every order is 7.
abbrev library : Orders
library = record {
  order_type = λ json. some 1;
  order_date = λ json. some 7;
  stamp = λ date json. date ∷ json;
}

abbrev client : Client
client = record {
  tcp = down;
  output = record { buf = none; sz = 64; idx = 0; len = 0 };
  input = fresh;
  event_id = 1;
}

abbrev generous : Moment
generous = record { takes = took 64; gives = got (reply_to 1); reaches = reached }

abbrev client_of : Option (Option Verdict × Client) → Client
client_of none = client
client_of (some r) = r.1

abbrev event_ms : List Moment
event_ms = bad ∷ generous ∷ generous ∷ generous ∷ []

abbrev event_end : Client
event_end = client_of (writeable malloc_64 library 5 (3 ∷ []) event_ms client)

writeable_delivered_example :
    (base : List ℕ) × (event_end.tcp.current ≡ base ++ request_wire 5 1 (7 ∷ 3 ∷ []))
    × (event_end.event_id ≡ (1 + 1) % 2 ^ 64)
unfolding steps step send_start reconnect drop_connection send_answer recv parse_packet load poke
    store decode peek decode_loop decode_map prepare stamped writeable with_text event begin_event
    build begin write_all request write write_int write_uint put write_uint64 write_string
    swap_bytes sent clean encode end end_event settle encode_loop encode_map start_send write_uint16
    write_uint8 read_uint64 read_swapped read_bytes send_byte_map
writeable_delivered_example =
    writeable_delivered malloc_64 library 5 3 [] (7 ∷ 3 ∷ []) (replicate 64 0) event_ms client
      event_end success refl refl (omega arith) (omega arith)
      (λ e. omega (arith, e), (λ e. omega (arith, e), tt)) refl
