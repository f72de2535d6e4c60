-- ===== src/Tests/Link.antt =====
-- Runs of what the server opens: a listener, a connection to a game server and one to a helper, and
-- packets filled and read field by field.
use order_sync.Server.Packet.{copy, get_cmd_type}
use order_sync.Redis.{Command, rpush, lpop, Reply, nil, integer, Redis, RedisHelper}
use order_sync.Redis.Fifo.{IsUp, IsOrder, put, take, some_values, use_queue, use_queue_lem}
use order_sync.Base.{
  ◌+◌, ap, length, ℕ, ◌<◌, ◌≡◌, refl, List, [], ◌∷◌, ◌++◌, Option, none, some, Bool, true, false,
  some-inj, length-replicate, arith, inl, swap_bytes, replicate,
}
use order_sync.Wire.Frame.{raw_frame}
use order_sync.Server.ClientUnit.{ClientUnit, accepted, received, blank}
use order_sync.Server.Net
use order_sync.Server.Net.{Answers, Dial, tcp_bind, unix_bind, at_once, ready}
use order_sync.Server.Listener
use order_sync.Server.Listener.{Listener, Made, attached, input_notify}
use order_sync.Server.Listener.Accepting.{input_notify_accepts}
use order_sync.Server.Listener.Losing.{input_notify_loses}
use order_sync.Server.Link.{Link}
use order_sync.Server.Link.Held.{held}
use order_sync.Server.GameUnit
use order_sync.Server.GameUnit.{GameUnit, new, process_pkg}
use order_sync.Server.GameUnit.Forwarding.{Forwarded, process_pkg-Forwarded}
use order_sync.Server.GameUnit.Delivering.{IsForClient, process_pkg_delivers}
use order_sync.Server.GameUnit.Oversized.{process_pkg_oversized}
use order_sync.Server.GameUnit.Descriptors
use order_sync.Server.GameUnit.Descriptors.{run, run-IsAccounted}
use order_sync.Server.HelperUnit
use order_sync.Server.HelperUnit.{HelperUnit}
use order_sync.Server.HelperUnit.Endless.{process_pkg_endless}
use order_sync.Server.HelperUnit.Leak.{input_notify_leaks}
use order_sync.Server.Packet.Fields.Kinds.{Field, transfer, int, text, binary, short}
use order_sync.Server.Packet.Fields.RoundTrip.{transfer_lem}
use order_sync.Tests.{open_socket, connection}

abbrev all_made : ℕ → Made
all_made fd = attached

abbrev listener : List Listener.Accept → Listener
listener answers₁ = record {
  fd_array = [];
  newfd_cnt = 0;
  connections = 4 ∷ [];
  opened = 4 ∷ [];
  answers = answers₁;
  always = Listener.again;
}

abbrev three_answers : List Listener.Accept
three_answers = Listener.accepted 7 ∷ Listener.broken ∷ Listener.accepted 8 ∷ []

input_notify_accepts_example :
    (v : Listener) × (input_notify all_made 2 4 (listener three_answers) ≡ some (true, v))
    × (v.connections ≡ 4 ∷ 7 ∷ 8 ∷ [])
    × (v.opened ≡ 8 ∷ 7 ∷ 4 ∷ [])
input_notify_accepts_example =
    input_notify_accepts all_made 2 4 three_answers (listener three_answers) (λ fd. refl)
      (refl, (refl, (refl, tt))) refl refl (omega arith) (omega arith)

input_notify_loses_example :
    (v : Listener) × (input_notify all_made 5 1 (listener (Listener.interrupted ∷ three_answers))
      ≡ some (true, v))
    × (v.connections ≡ 4 ∷ 7 ∷ [])
    × (v.opened ≡ 8 ∷ 7 ∷ 4 ∷ [])
    × (v.answers ≡ [])
input_notify_loses_example =
    input_notify_loses all_made 5 0 (Listener.accepted 7 ∷ Listener.broken ∷ [])
      (Listener.accepted 8) (listener (Listener.interrupted ∷ three_answers)) (λ fd. refl)
      (refl, (refl, (refl, tt))) refl refl (omega arith)

-- A packet of nine bytes with the command 0x1002.
abbrev small_packet : List ℕ
small_packet = 0 ∷ 7 ∷ 0x42 ∷ 0x59 ∷ 1 ∷ 1 ∷ 0x10 ∷ 2 ∷ 0 ∷ []

abbrev game : List ℕ → GameUnit
game bytes = record {
  link = record (new none).link { r = bytes; netfd = some 9; opened = 9 ∷ [] };
  client = some (connection [] []);
}

for_client : IsForClient small_packet
unfolding swap_bytes
for_client = record {
  whole = refl;
  large = omega arith;
  small = omega arith;
  stays = λ e. omega (arith, e);
  same_server = λ e. omega (arith, e);
}

process_pkg_delivers_example :
    (v : ClientUnit) × (process_pkg open_socket 2
        (game (small_packet ++ (small_packet ++ (0 ∷ []))))
      ≡ some (true, record { link = record (game []).link { r = 0 ∷ [] }; client = some v }))
    × (v.sent ≡ small_packet ++ small_packet)
    × (v.w ≡ [])
unfolding GameUnit.is_fatal new swap_bytes
process_pkg_delivers_example =
    process_pkg_delivers open_socket 2 (small_packet ∷ small_packet ∷ [])
      (game (small_packet ++ (small_packet ++ (0 ∷ [])))) (connection [] []) (0 ∷ []) (λ c n. refl)
      (for_client, (for_client, tt)) refl refl refl refl (inl (omega arith)) (omega arith)
      (omega arith)

-- A packet with a length field of 8191.
abbrev large_packet : List ℕ
large_packet = 0x1f ∷ 0xff ∷ replicate 8191 0

process_pkg_oversized_example :
    (copy large_packet 8193 blank ≡ some (false, blank))
    × (get_cmd_type blank ≡ none)
    × (process_pkg open_socket 1 (game large_packet) ≡ none)
unfolding swap_bytes
process_pkg_oversized_example =
    process_pkg_oversized open_socket 0 (game large_packet) (omega arith) (omega arith)
      (omega (arith, length-replicate {A = ℕ} 8191 0))

abbrev two_packets : List ℕ
two_packets = small_packet ++ (small_packet ++ (0 ∷ []))

two_delivered :
    (v : ClientUnit) × (process_pkg open_socket 19 (game two_packets)
      ≡ some (true, record { link = record (game []).link { r = 0 ∷ [] }; client = some v }))
unfolding GameUnit.is_fatal new swap_bytes
two_delivered =
    let (v, done, _, _) =
      process_pkg_delivers open_socket 19 (small_packet ∷ small_packet ∷ []) (game two_packets)
        (connection [] []) (0 ∷ []) (λ c n. refl) (for_client, (for_client, tt)) refl refl refl refl
        (inl (omega arith)) (omega arith) (omega arith) in
    (v, done)

process_pkg-Forwarded_example :
    Forwarded open_socket
      (connection [] [])
      (game two_packets)
      (record { link = record (game []).link { r = 0 ∷ [] }; client = some two_delivered.0 })
process_pkg-Forwarded_example =
    process_pkg-Forwarded open_socket 19 (connection [] []) (game two_packets)
      (record { link = record (game []).link { r = 0 ∷ [] }; client = some two_delivered.0 }) refl
      (omega arith) two_delivered.1

abbrev dial_7 : Dial
dial_7 = record { socket = some 7; connect = at_once; poll = ready; error = none }

dial_7-IsSocket : (fd : ℕ) → dial_7.socket ≡ some fd → 0 < fd
dial_7-IsSocket fd e = omega (arith, some-inj e)

-- Two bytes are sent to a new connection, and then the timer runs out.
abbrev short_life : List Descriptors.Event
short_life =
    Descriptors.append_pkg (1 ∷ 2 ∷ [])
    ∷ Descriptors.send_to_logic dial_7 true (accepted 2)
    ∷ Descriptors.timeout
    ∷ []

abbrev life_end : Bool × GameUnit
life_end = (
  false,
  record {
    link = record (new none).link {
      netfd = none;
      has_timer = true;
      timed = true;
      sent = 1 ∷ 2 ∷ [];
    };
    client = none;
  },
)

run-IsAccounted_example :
    (life_end.1.link.opened ≡ held life_end.1.link.netfd)
    × (life_end.0 ≡ false → life_end.1.link.opened ≡ [])
unfolding run GameUnit.timer_notify new order_sync.Server.Link.reset_helper GameUnit.send_to_logic
    order_sync.Server.Link.send_to_logic GameUnit.append_pkg Net.tcp_connect Net.close
run-IsAccounted_example =
    run-IsAccounted open_socket none short_life life_end (tt, (dial_7-IsSocket, (tt, tt))) refl

abbrev helper : List ℕ → HelperUnit
helper bytes = record {
  link = record (new none).link { r = bytes; netfd = some 9; opened = 9 ∷ [] };
  stats = record {
    w_qlen = 0;
    n_qlen = 0;
    w_ctime = 0;
    n_ctime = 0;
    w_is_busyed = false;
    n_is_busyed = false;
  };
}

abbrev no_text : List ℕ → Option (List ℕ)
no_text bytes = none

process_pkg_endless_example :
    HelperUnit.process_pkg no_text 100 (helper (raw_frame 8 0x9004 0 (1 ∷ []) ++ []))
    ≡ some (none, helper (raw_frame 8 0x9004 0 (1 ∷ []) ++ []))
unfolding new
process_pkg_endless_example =
    process_pkg_endless no_text (helper (raw_frame 8 0x9004 0 (1 ∷ []) ++ [])) 0x9004 0 (1 ∷ []) []
      refl (omega arith) (omega arith) 100 (λ e. omega (arith, e)) (λ e. omega (arith, e))
      λ e. omega (arith, e)

input_notify_leaks_example :
    (v : HelperUnit) × (HelperUnit.input_notify no_text 0 (received []) dial_7 true (helper [])
      ≡ some (some false, v))
    × (v.link.netfd ≡ none)
    × (v.link.opened ≡ 9 ∷ [])
input_notify_leaks_example = input_notify_leaks no_text 0 dial_7 true (helper []) dial_7-IsSocket

abbrev some_fields : List Field
some_fields = int 5 ∷ text (7 ∷ 8 ∷ []) ∷ short 300 ∷ text [] ∷ binary (0 ∷ 1 ∷ []) ∷ []

transfer_lem_example :
    transfer 0x1001 some_fields (record { buf = []; size = 0; pos = 0; is_check_code = true }) blank
    ≡ some some_fields
transfer_lem_example =
    transfer_lem 0x1001 some_fields (record { buf = []; size = 0; pos = 0; is_check_code = true })
      blank
      (
        omega arith,
        ((λ e. omega (arith, e), (λ e. omega (arith, e), tt)), (omega arith, (tt, (tt, tt)))),
      )
      (omega arith)

-- A server that is up, with one list.
one_list_command : Command → List (List ℕ) → Reply × List (List ℕ)
one_list_command (rpush q v) s = (integer (length s + 1), s ++ (v ∷ []))
one_list_command (lpop q) [] = (nil, [])
one_list_command (lpop q) (v ∷ vs) = (Reply.text v, vs)
one_list_command _ s = (nil, s)

abbrev one_list : Redis
one_list = record { State = List (List ℕ); list_at = λ q s. s; command = one_list_command }

one_list-IsUp : IsUp one_list
unfolding one_list_command
one_list-IsUp = record {
  rpush_reply = λ q v s. refl;
  rpush_list = λ q v s. refl;
  lpop_empty = λ q s e.
      (ap (λ l. (one_list_command (lpop q) l).0) e, ap (λ l. (one_list_command (lpop q) l).1) e);
  lpop_first = λ q v vs s e.
      (ap (λ l. (one_list_command (lpop q) l).0) e, ap (λ l. (one_list_command (lpop q) l).1) e);
}

order : (b : ℕ) → 0 < b → IsOrder (b ∷ [])
order b h = ((λ e. ground (arith, e)), ((λ e. omega (arith, e, h)), tt))

use_queue_lem_example :
    (taken : List (List ℕ)) × (h' : RedisHelper one_list) × (use_queue one_list []
        (take ∷ put (5 ∷ []) ∷ put (6 ∷ []) ∷ take ∷ [])
        (record { context = true; server = (4 ∷ []) ∷ [] })
      ≡ some (taken, h'))
    × (some_values taken ++ h'.server ≡ (4 ∷ []) ∷ (5 ∷ []) ∷ (6 ∷ []) ∷ [])
use_queue_lem_example =
    use_queue_lem one_list [] (take ∷ put (5 ∷ []) ∷ put (6 ∷ []) ∷ take ∷ [])
      (record { context = true; server = (4 ∷ []) ∷ [] }) ((4 ∷ []) ∷ []) one_list-IsUp refl refl
      (order 4 (omega arith), (order 5 (omega arith), (order 6 (omega arith), tt)))
