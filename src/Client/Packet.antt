-- ===== src/Client/Packet.antt =====
-- `packet_t` (OrderSyncClient/inc/packet.h and src/packet.cc): the client's packet buffer. A method
-- that may run outside the buffer returns an `Option`; `none` is that fault. `malloc` is the C
-- library's: the block that it returns, with what happens to be in it, or nothing for NULL.
pub mod Steps
pub mod Build
pub mod Finish
pub mod Parse
use order_sync.Base.{
  ℕ, ◌+◌, ◌-◌, List, [], ◌∷◌, ◌++◌, Option, none, some, replicate, length, u16, u32, ◌==◌, take,
  if◌then◌else◌, ◌>>=◌, store, load, le_bytes, be_bytes, of_le, swap_bytes,
}
use order_sync.Wire.Cipher.{encode_loop, decode_loop, negate}
use order_sync.Client.Tables.{encode_map, decode_map}

pub record Packet : Type 0 where
  pub buf : Option (List ℕ)
  pub sz : ℕ
  pub idx : ℕ
  pub len : ℕ

-- The value 0 or -1 that a method returns.
pub data Status : Type 0 where
  ok fail : Status

abbrev pub max_packet_size : ℕ
max_packet_size = 16384

abbrev pub header_size : ℕ
header_size = 9

unfoldable pub new : Packet
new = record { buf = none; sz = max_packet_size; idx = 0; len = 0 }

-- `memcpy (_data + off, bytes, n)`.
unfoldable pub poke : Packet → ℕ → List ℕ → Option Packet
poke p off bytes = do
  block ← p.buf
  block' ← store block off bytes
  some (record p { buf = some block' })

unfoldable pub peek : Packet → ℕ → ℕ → Option (List ℕ)
peek p off n = do block ← p.buf; load block off n

unfoldable pub start : ℕ → Packet → Option (Status × Packet)
start cmd p = do q ← poke p 6 (be_bytes 2 cmd); some (ok, record q { len = header_size })

unfoldable pub begin : (ℕ → Option (List ℕ)) → ℕ → Packet → Option (Status × Packet)
unfolding start
begin malloc cmd p = elim p.buf [
  | some block ↦ start cmd p
  | none ↦ elim (malloc p.sz) [
    | none ↦ some (fail, p)
    | some block ↦ start cmd (record p { buf = some block })
  ]
]

-- Bytes at the write position, which moves on by `k`.
unfoldable pub put : List ℕ → ℕ → Packet → Option Packet
put bytes k p = do q ← poke p p.len bytes; some (record q { len = u16 (p.len + k) })

unfoldable pub write_int8 : ℕ → Packet → Option Packet
write_int8 b = put (le_bytes 1 b) 1

unfoldable pub write_uint8 : ℕ → Packet → Option Packet
write_uint8 b = put (le_bytes 1 b) 1

unfoldable pub write_int16 : ℕ → Packet → Option Packet
write_int16 s = put (be_bytes 2 s) 2

unfoldable pub write_uint16 : ℕ → Packet → Option Packet
write_uint16 s = put (be_bytes 2 s) 2

unfoldable pub write_int : ℕ → Packet → Option Packet
write_int i = put (be_bytes 4 i) 4

unfoldable pub write_uint : ℕ → Packet → Option Packet
write_uint u = put (be_bytes 4 u) 4

unfoldable pub write_int64 : ℕ → Packet → Option Packet
write_int64 i = put (be_bytes 8 i) 8

unfoldable pub write_uint64 : ℕ → Packet → Option Packet
write_uint64 u = put (be_bytes 8 u) 8

-- What `strcpy` copies of a string: the bytes before its first NUL.
abbrev pub c_str : List ℕ → List ℕ
c_str [] = []
c_str (b ∷ bs) = let rest = c_str bs in if b == 0 then [] else b ∷ rest

-- The terminator is stored too, and the write position stays on it.
unfoldable pub write_string : List ℕ → Packet → Option Packet
write_string s p = do
  q ← write_uint (u32 (length s)) p
  put (c_str s ++ (0 ∷ [])) (u32 (length s)) q

-- `printed` is what `snprintf` makes of the number with "%f"; the buffer takes 63 bytes of it.
unfoldable pub write_double : List ℕ → Packet → Option Packet
write_double printed = write_string (take 63 printed)

unfoldable pub encode : Packet → Option (ℕ × Packet)
encode p = do
  let esz = u16 (p.len + 65536 - header_size)
  body ← peek p header_size esz
  let out = encode_loop encode_map 0 body
  q ← poke p header_size out.1
  r ← poke q 8 (negate out.0 ∷ [])
  some (esz, r)

unfoldable pub end : Packet → Option Packet
end p = do
  q ← poke p 0 (be_bytes 2 (u16 (p.len + 65536 - 2)))
  r ← poke q 2 (0x42 ∷ 0x59 ∷ [])
  s ← poke r 4 (1 ∷ 1 ∷ [])
  t ← encode s
  some t.1

unfoldable pub decode : Packet → Option (Status × Packet)
decode p = do
  let dsz = u16 (p.len + 65536 - header_size)
  code ← peek p 8 1
  body ← peek p header_size dsz
  let out = decode_loop decode_map (of_le code) body
  q ← poke p header_size out.1
  some (if out.0 == 0 then ok else fail, q)

unfoldable pub read_bytes : ℕ → Packet → Option (List ℕ × Packet)
read_bytes k p = do bytes ← peek p p.idx k; some (bytes, record p { idx = u16 (p.idx + k) })

unfoldable pub read_swapped : ℕ → Packet → Option (ℕ × Packet)
read_swapped k p = do r ← read_bytes k p; some (swap_bytes k (of_le r.0), r.1)

unfoldable pub read_uint8 : Packet → Option (ℕ × Packet)
read_uint8 p = do r ← read_bytes 1 p; some (of_le r.0, r.1)

unfoldable pub read_uint16 : Packet → Option (ℕ × Packet)
unfolding read_swapped
read_uint16 = read_swapped 2

unfoldable pub read_uint : Packet → Option (ℕ × Packet)
unfolding read_swapped
read_uint = read_swapped 4

unfoldable pub read_uint64 : Packet → Option (ℕ × Packet)
unfolding read_swapped
read_uint64 = read_swapped 8

-- The string is one byte shorter than its length field says.
unfoldable pub read_string : Packet → Option (List ℕ × Packet)
read_string p = do
  r ← read_uint p
  s ← peek r.1 r.1.idx (u32 (r.0 + 4294967295))
  some (s, record r.1 { idx = u16 (r.1.idx + r.0) })

unfoldable pub fill : List ℕ → ℕ → Packet → Option (Status × Packet)
fill source size p = do
  bytes ← load source 0 size
  q ← poke p 0 bytes
  decode (record q { len = size; idx = header_size })

unfoldable pub parse_sized : (ℕ → Option (List ℕ)) → List ℕ → ℕ → Packet → Option (Status × Packet)
unfolding fill
parse_sized malloc source size p = elim p.buf [
  | some block ↦ fill source size p
  | none ↦ elim (malloc size) [
    | none ↦ some (fail, p)
    | some block ↦ fill source size (record p { buf = some block; sz = size; len = size; idx = 9 })
  ]
]

-- The size is an `unsigned short`.
unfoldable pub parse_packet : (ℕ → Option (List ℕ)) → List ℕ → ℕ → Packet → Option (Status × Packet)
unfolding parse_sized
parse_packet malloc source size = parse_sized malloc source (u16 size)

unfoldable pub cleared : Packet → Packet
cleared p = record p { idx = 0; len = 0 }

unfoldable pub clean : Packet → Option Packet
unfolding cleared
clean p = elim p.buf [
  | none ↦ some (cleared p)
  | some block ↦ do q ← poke p 0 (replicate p.sz 0); some (cleared q)
]
