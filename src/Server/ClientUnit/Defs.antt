-- ===== src/Server/ClientUnit/Defs.antt =====
-- The state of a connection, `CClientUnit::send` and `HandleInput`.
use order_sync.Base.{
  ℕ, ◌+◌, List, [], ◌++◌, Option, none, some, Bool, true, false, ◌||◌, not, length, take, drop,
  get_or, ltb, ◌==◌, if◌then◌else◌, of_le, swap_bytes,
}

pub data ConnState : Type 0 where
  idle fatal_error data_error connecting disconnect connected data_sending : ConnState
  data_recving send_done recv_done append_sending append_done : ConnState

pub data DecodeStatus : Type 0 where
  fatal data_err wait_head wait_content head_done content_done done disconnect_by_user :
      DecodeStatus

-- `errno`: EINTR, EAGAIN and EINPROGRESS are told from the rest.
pub data Errno : Type 0 where
  retry other : Errno

pub data SendOutcome : Type 0 where
  accepted : ℕ → SendOutcome
  refused : Errno → SendOutcome

pub data RecvOutcome : Type 0 where
  received : List ℕ → RecvOutcome
  failed : Errno → RecvOutcome

pub data ConnType : Type 0 where
  conn_client conn_other : ConnType

-- A shard is a redis server: its number in `m_redis_map` and its list ORDER_Q, oldest first.
abbrev pub Shards : Type 0
Shards = List (ℕ × List (List ℕ))

pub record ClientUnit : Type 0 where
  pub stage : ConnState
  pub decode_status : DecodeStatus
  pub send_error_times : ℕ
  pub input_enabled : Bool
  pub output_enabled : Bool
  pub conn_type : ConnType
  pub r : List ℕ
  pub w : List ℕ
  -- the bytes that the kernel has taken so far, and how often it was asked
  pub sent : List ℕ
  pub calls : ℕ
  -- of `_helperpool`: `m_redis_map` and the keys of `m_objmap` set to this connection
  pub shards : Shards
  pub clients : List ℕ

abbrev pub max_send_errors : ℕ
max_send_errors = 50

abbrev give_up : ClientUnit → ClientUnit
give_up u = record u {
  input_enabled = false;
  output_enabled = false;
  w = [];
  r = [];
  stage = fatal_error;
}

-- What `send` makes of the kernel's answer; nothing for the result -1.
send_outcome : SendOutcome → ClientUnit → Option ℕ × ClientUnit
send_outcome (refused retry) u =
    let v = record u { send_error_times = u.send_error_times + 1 } in
    if ltb v.send_error_times max_send_errors
    then (some 6, record v { output_enabled = true; stage = data_sending })
    else (none, give_up v)
send_outcome (refused other) u = (none, give_up u)
send_outcome (accepted n) u =
    let v = record u { w = drop n u.w; sent = u.sent ++ take n u.w; send_error_times = 0 } in
    if n == length u.w
    then (some n, record v { output_enabled = false; stage = send_done })
    else if ltb n (length u.w)
    then (some n, record v { output_enabled = true; stage = data_sending })
    else (none, record u { output_enabled = false; stage = fatal_error })

-- `send`; the kernel's answer may depend on how often it was asked and on the length.
unfoldable pub send : (ℕ → ℕ → SendOutcome) → ClientUnit → Option ℕ × ClientUnit
unfolding send_outcome
send kernel u =
    if length u.w == 0
    then (none, record u { output_enabled = false; stage = fatal_error })
    else send_outcome (kernel u.calls (length u.w)) (record u { calls = u.calls + 1 })

-- The result of `HandleInput`: 0, -1, or the packet's length.
pub data Input : Type 0 where
  wait invalid : Input
  packet : ℕ → Input

-- The length field of the header, `ntohs (pHeader->length)`.
abbrev pub length_field : List ℕ → ℕ
length_field bytes = swap_bytes 2 (of_le (take 2 bytes))

unfoldable pub handle_input : List ℕ → Input
handle_input bytes =
    let pkglen : ℕ = 2 + length_field bytes in
    if ltb (length bytes) 9
    then wait
    else if not (get_or bytes 2 0 == 0x42) || not (get_or bytes 3 0 == 0x59)
    then invalid
    else if ltb 8000 pkglen
    then invalid
    else if ltb (length bytes) pkglen
    then wait
    else packet pkglen
