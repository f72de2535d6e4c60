-- ===== src/Server/ClientUnit/Requests.antt =====
-- `CClientUnit::__data_flow`, `cmd_data_handler`, `HandleInputBuf`, `proc_pkg` and `recv`.
use order_sync.Base.{
  ℕ, zero, suc, ◌%◌, List, [], ◌∷◌, ◌++◌, Option, none, some, Bool, true, false, ◌||◌, length, drop,
  ◌==◌, if◌then◌else◌, ◌>>=◌, load,
}
use order_sync.Server.Packet
use order_sync.Server.Packet.{Packet}
use order_sync.Server.ClientUnit.Defs.{
  DecodeStatus, SendOutcome, Shards, ClientUnit, send, wait, invalid, packet, handle_input, fatal,
  wait_head, wait_content,
}

-- The macro `__REDIS_ID`; a size of 0 is a division by zero.
unfoldable pub redis_id : ℕ → ℕ → Option ℕ
redis_id id sz =
    if sz == 0 then none else (let sid = id % sz in some (if sid == 0 then sz else sid))

unfoldable pub has_shard : ℕ → Shards → Bool
has_shard sid [] = false
has_shard sid ((k, q) ∷ m) = (k == sid) || has_shard sid m

-- `Enqueue ("ORDER_Q", value)`, which is `rpush` on the shard found.
unfoldable pub enqueue : ℕ → List ℕ → Shards → Shards
enqueue sid value [] = []
enqueue sid value ((k, q) ∷ m) =
    if k == sid then (k, q ++ (value ∷ [])) ∷ m else (k, q) ∷ enqueue sid value m

-- A memory block that holds no packet yet: the uninitialised local variable of a handler.
abbrev pub blank : Packet
blank = record { buf = []; size = 0; pos = 0; is_check_code = false }

abbrev pub client_cmd_data_req : ℕ
client_cmd_data_req = 0x2

abbrev pub server_cmd_data_rep : ℕ
server_cmd_data_rep = 0x1002

-- The reply that `cmd_data_handler` makes, as the bytes given to `add_rsp_buf`.
unfoldable pub reply : ℕ → Option (List ℕ)
reply event_id = do
  p ← Packet.begin server_cmd_data_rep blank
  q ← Packet.write_ulong event_id p
  s ← Packet.end q.1
  t ← Packet.encrypt_buffer s
  load t.1.buf 0 t.1.size

-- What the JSON library reads of an order: nothing, if the text does not parse; an exception, if one of
-- its fields "id", "mtime" and "sql" does not convert, or a failed `assert`, if it is no object; or "id".
pub data Parsed : Type 0 where
  unread thrown : Parsed
  read : ℕ → Parsed

-- The result is 0 or -1, true for 0. Nothing catches the exception: either is a fault.
unfoldable pub data_flow : (List ℕ → Parsed) → List ℕ → Shards → Option (Bool × Shards)
unfolding redis_id
data_flow order_id text shards = elim (order_id text) [
  | unread ↦ some (false, shards)
  | thrown ↦ none
  | read oid ↦ do
    sid ← redis_id oid (length shards)
    some (if has_shard sid shards then (true, enqueue sid text shards) else (false, shards))
]

module _ (order_id : List ℕ → Parsed) (kernel : ℕ → ℕ → SendOutcome) where
  -- The result of `__data_flow` is not looked at.
  unfoldable pub cmd_data_handler : Packet → ClientUnit → Option (Option ℕ × ClientUnit)
  cmd_data_handler p u = do
    id ← Packet.read_int p
    event ← Packet.read_ulong id.1
    text ← Packet.read_string event.1
    flow ← data_flow order_id text.0 u.shards
    bytes ← reply event.0
    some (send kernel (record u { clients = id.0 ∷ u.clients; shards = flow.1; w = u.w ++ bytes }))

  unfoldable pub handle_input_buf : List ℕ → ℕ → ClientUnit → Option (Option ℕ × ClientUnit)
  handle_input_buf source n u = do
    p ← Packet.copy source n blank
    d ← Packet.decrypt_buffer p.1
    elim d.0 [
      | none ↦ some (none, u)
      | some _ ↦ do
        cmd ← Packet.get_cmd_type d.1
        if cmd == client_cmd_data_req then cmd_data_handler d.1 u else some (none, u)
    ]

  -- The loop over the packets in `_r`, with the status that it leaves. Every packet takes bytes off,
  -- so the number of bytes is fuel enough.
  unfoldable pub drain : ℕ → ClientUnit → Option (DecodeStatus × ClientUnit)
  drain zero u = some (wait_head, u)
  drain (suc fuel) u = elim (length u.r == 0) [
    | true ↦ some (wait_head, u)
    | false ↦ elim (handle_input u.r) [
      | invalid ↦ some (fatal, u)
      | wait ↦ some (wait_content, u)
      | packet n ↦ elim (handle_input_buf u.r n u) [
        | none ↦ none
        | some (none, v) ↦ some (fatal, v)
        | some (some _, v) ↦ drain fuel (record v { r = drop n v.r })
      ]
    ]
  ]
