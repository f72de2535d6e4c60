-- ===== src/Server/Packet.antt =====
-- `PacketBase`, `InputPacket` and `OutputPacket` (OrderSyncServer/src/proxy/ICHAT_PacketBase.h) with
-- the buffer size of `NETInputPacket` and `NETOutputPacket`, and `CEncryptDecrypt`
-- (OrderSyncServer/src/proxy/EncryptDecrypt.cpp). An `int` that comes off the wire is its bit
-- pattern; `none` is an access outside the buffer.
pub mod Receive
pub mod Reads
pub mod Fields
use order_sync.Base.{
  ℕ, ◌+◌, ◌-◌, ◌^◌, List, [], ◌∷◌, Option, none, some, Bool, true, false, ◌||◌, replicate, drop,
  u16, u32, int_gt, ltb, ◌==◌, if◌then◌else◌, ◌>>=◌, store, load, le_bytes, be_bytes, of_le,
  swap_bytes,
}
use order_sync.Wire.Cipher.{encode_loop, decode_loop, negate}
use order_sync.Server.Tables.{send_byte_map, recv_byte_map}

pub record Packet : Type 0 where
  pub buf : List ℕ
  pub size : ℕ
  pub pos : ℕ
  pub is_check_code : Bool

abbrev pub header_size : ℕ
header_size = 9

abbrev pub buffer_size : ℕ
buffer_size = 8192

-- What `memset` leaves of the buffer.
unfoldable pub zeros : List ℕ
zeros = replicate buffer_size 0

unfoldable pub reset : Packet → Packet
reset p = record p { buf = zeros; size = header_size; pos = header_size }

poke : Packet → ℕ → List ℕ → Option Packet
poke p off bytes = do block ← store p.buf off bytes; some (record p { buf = block })

-- `_copy`; `source` is the memory at `pInBuf`.
unfoldable pub copy : List ℕ → ℕ → Packet → Option (Bool × Packet)
unfolding poke reset
copy source n p =
    if ltb buffer_size n
    then some (false, p)
    else do bytes ← load source 0 n; q ← poke (reset p) 0 bytes; some (true, record q { size = n })

-- `_Read`; a read past the packet's end gives nothing and moves nothing.
unfoldable pub read : ℕ → Packet → Option (Option (List ℕ) × Packet)
read k p =
    let last : ℕ = u32 (k + p.pos) in
    if int_gt last p.size || int_gt last buffer_size
    then some (none, p)
    else do bytes ← load p.buf p.pos k; some (some bytes, record p { pos = last })

-- The variable that `_Read` fills starts as -1.
abbrev pub word : ℕ → Option (List ℕ) → ℕ
word k none = 256 ^ k - 1
word k (some bytes) = swap_bytes k (of_le bytes)

unfoldable pub read_int : Packet → Option (ℕ × Packet)
read_int p = do r ← read 4 p; some (word 4 r.0, r.1)

unfoldable pub read_ulong : Packet → Option (ℕ × Packet)
read_ulong p = do r ← read 8 p; some (word 8 r.0, r.1)

-- `_readpoint`: an offset into the buffer, or NULL.
unfoldable pub read_point : ℕ → Packet → Option ℕ × Packet
read_point n p =
    let last : ℕ = u32 (n + p.pos) in
    if int_gt last p.size then (none, p) else (some p.pos, record p { pos = last })

unfoldable pub read_char : Packet → Option (Option ℕ × Packet)
unfolding read_point
read_char p = do
  r ← read_int p
  some (if r.0 == 4294967295 then (none, r.1) else read_point r.0 r.1)

-- A C string, which must end inside the block.
abbrev pub c_string : List ℕ → Option (List ℕ)
c_string [] = none
c_string (b ∷ bs) =
    let rest = c_string bs in if b == 0 then some [] else (rest >>= λ s. some (b ∷ s))

unfoldable pub read_string : Packet → Option (List ℕ × Packet)
read_string p = do
  r ← read_char p
  elim r.0 [ none ↦ some ([], r.1) | some off ↦ do s ← c_string (drop off r.1.buf); some (s, r.1) ]

unfoldable pub get_cmd_type : Packet → Option ℕ
get_cmd_type p = do bytes ← load p.buf 6 2; some (swap_bytes 2 (of_le bytes))

unfoldable pub get_body_length : Packet → Option ℕ
get_body_length p = do bytes ← load p.buf 0 2; some (swap_bytes 2 (of_le bytes))

unfoldable pub get_check_code : Packet → Option ℕ
get_check_code p = do bytes ← load p.buf 8 1; some (of_le bytes)

-- `DecryptBuffer`; nothing for the result -1. `wDataSize` is a `WORD`, so a length below 7 wraps.
unfoldable pub decrypt_buffer : Packet → Option (Option ℕ × Packet)
unfolding poke get_body_length get_check_code
decrypt_buffer p = do
  body_length ← get_body_length p
  let data_size = u16 (body_length + 65536 - 7)
  code ← get_check_code p
  body ← load p.buf header_size data_size
  let out = decode_loop recv_byte_map code body
  q ← poke p header_size out.1
  some (if out.0 == 0 then some data_size else none, q)

-- `_Write`.
unfoldable pub write : List ℕ → ℕ → Packet → Option (Bool × Packet)
unfolding poke
write bytes k p =
    if ltb buffer_size (k + p.size)
    then some (false, p)
    else do q ← poke p p.size bytes; some (true, record q { size = p.size + k })

unfoldable pub write_int : ℕ → Packet → Option (Bool × Packet)
write_int n = write (be_bytes 4 n) 4

unfoldable pub write_ulong : ℕ → Packet → Option (Bool × Packet)
write_ulong n = write (be_bytes 8 n) 8

unfoldable pub write_byte : ℕ → Packet → Option (Bool × Packet)
write_byte n = write (le_bytes 1 n) 1

unfoldable pub begin : ℕ → Packet → Option Packet
unfolding poke reset
begin cmd p = do
  q ← poke (reset p) 2 (0x42 ∷ 0x59 ∷ [])
  r ← poke q 4 (1 ∷ [])
  s ← poke r 5 (1 ∷ [])
  t ← poke s 6 (be_bytes 2 cmd)
  some (record t { is_check_code = false })

unfoldable pub end : Packet → Option Packet
unfolding poke
end p = do
  q ← poke (record p { is_check_code = false }) 0 (be_bytes 2 (u16 (p.size + 65536 - 2)))
  poke q 8 (0 ∷ [])

unfoldable pub encrypt_buffer : Packet → Option (ℕ × Packet)
unfolding poke get_body_length
encrypt_buffer p = if p.is_check_code then some (0, p) else do
  body_length ← get_body_length p
  let data_size = u16 (body_length + 65536 - 7)
  body ← load p.buf header_size data_size
  let out = encode_loop send_byte_map 0 body
  q ← poke p header_size out.1
  r ← poke q 8 (negate out.0 ∷ [])
  some (data_size, record r { is_check_code = true })
