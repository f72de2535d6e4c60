-- ===== src/Server/Packet/Fields.antt =====
-- The rest of `PacketBase`, `InputPacket` and `OutputPacket`
-- (OrderSyncServer/src/proxy/ICHAT_PacketBase.h): further reads and writes, and what takes bytes out of
-- a packet or puts them in at its front. A `memcpy` between areas that overlap is a fault.
pub mod Kinds
pub mod Writing
pub mod Reading
pub mod RoundTrip
pub mod Undo
use order_sync.Base.{
  ℕ, ◌+◌, ◌-◌, ◌^◌, List, [], ◌∷◌, ◌++◌, Option, none, some, Bool, true, false, ◌&&◌, length, u16,
  u32, int_gt, ltb, ◌==◌, if◌then◌else◌, ◌>>=◌, store, load, le_bytes, be_bytes, of_le, swap_bytes,
}
use order_sync.Server.Packet.{
  Packet, header_size, buffer_size, poke, read, word, read_int, read_ulong, read_string, write,
  write_int, write_ulong, write_byte, end,
}

-- `-1` as an `int`.
abbrev pub minus_one : ℕ
minus_one = 4294967295

-- `memcpy` within the buffer.
move : List ℕ → ℕ → ℕ → ℕ → Option (List ℕ)
move block dst src n =
    if ltb src (dst + n) && ltb dst (src + n)
    then none
    else (load block src n >>= λ bytes. store block dst bytes)

unfoldable pub get_version : Packet → Option ℕ
get_version p = do bytes ← load p.buf 4 1; some (of_le bytes)

unfoldable pub get_sub_version : Packet → Option ℕ
get_sub_version p = do bytes ← load p.buf 5 1; some (of_le bytes)

unfoldable pub set_begin : ℕ → Packet → Option Packet
unfolding poke
set_begin cmd p = poke p 6 (be_bytes 2 cmd)

-- `oldEnd`, which leaves the check code alone.
unfoldable pub old_end : Packet → Option Packet
unfolding poke
old_end p = poke (record p { is_check_code = false }) 0 (be_bytes 2 (u16 (p.size + 65536 - 2)))

unfoldable pub write_check_code : ℕ → Packet → Option Packet
unfolding poke
write_check_code code p = do
  q ← poke p 8 (le_bytes 1 code)
  some (record q { is_check_code = true })

-- `_readundo`.
unfoldable pub read_undo : ℕ → Packet → Packet
read_undo n p = record p { pos = u32 (p.pos + 2 ^ 32 - n) }

unfoldable pub read_short : Packet → Option (ℕ × Packet)
read_short p = do r ← read 2 p; some (word 2 r.0, r.1)

unfoldable pub read_byte : Packet → Option (ℕ × Packet)
read_byte p = do r ← read 1 p; some (word 1 r.0, r.1)

-- `_ReadDel`, after the read: the rest of the buffer moves up.
close_gap : ℕ → Option (List ℕ) → Packet → Option (Option (List ℕ) × Packet)
unfolding move
close_gap n none p = some (none, p)
close_gap n (some bytes) p = do
  block ← move p.buf (p.pos - n) p.pos (buffer_size - p.pos)
  q ← end (record p { buf = block; pos = p.pos - n; size = u32 (p.size + 2 ^ 32 - n) })
  some (some bytes, q)

unfoldable pub read_del : ℕ → Packet → Option (Option (List ℕ) × Packet)
unfolding close_gap
read_del n p = do r ← read n p; close_gap n r.0 r.1

unfoldable pub read_int_del : Packet → Option (ℕ × Packet)
unfolding read_del
read_int_del p = do r ← read_del 4 p; some (word 4 r.0, r.1)

-- `ReadString (pOutString, nMaxLen)`: the bytes that are put there, or nothing for false.
unfoldable pub read_string_into : ℕ → Packet → Option (Option (List ℕ) × Packet)
unfolding read_undo
read_string_into max_len p = do
  r ← read_int p
  if r.0 == minus_one
      then some (none, r.1)
      else if int_gt r.0 max_len
      then some (none, read_undo 2 r.1)
      else read r.0 r.1

-- `ReadBinary`: the bytes, which are none where it returns 0, or nothing for -1.
or_empty : Option (List ℕ) → Option (List ℕ)
or_empty none = some []
or_empty (some bytes) = some bytes

unfoldable pub read_binary : ℕ → Packet → Option (Option (List ℕ) × Packet)
unfolding read_undo or_empty
read_binary max_len p = do
  r ← read_int p
  if r.0 == minus_one
      then some (none, r.1)
      else if int_gt r.0 max_len
      then some (none, read_undo 4 r.1)
      else (read r.0 r.1 >>= λ s. some (or_empty s.0, s.1))

unfoldable pub write_short : ℕ → Packet → Option (Bool × Packet)
write_short n = write (be_bytes 2 n) 2

-- `_writezero`.
unfoldable pub write_zero : Packet → Option (Bool × Packet)
unfolding poke
write_zero p =
    if ltb buffer_size (p.size + 1)
    then some (false, p)
    else (poke p p.size (0 ∷ []) >>= λ q. some (true, record q { size = p.size + 1 }))

-- `a && _writezero ()`.
and_zero : Bool × Packet → Option (Bool × Packet)
unfolding write_zero
and_zero (false, p) = some (false, p)
and_zero (true, p) = write_zero p

-- The bytes of a text and a NUL; nothing is written of an empty text but the NUL.
write_text : List ℕ → Packet → Option (Bool × Packet)
unfolding and_zero write_zero
write_text [] p = write_zero p
write_text (c ∷ cs) p = write (c ∷ cs) (length (c ∷ cs)) p >>= and_zero

-- `WriteString (const string&)`; whether the length is written is not looked at.
unfoldable pub write_string : List ℕ → Packet → Option (Bool × Packet)
unfolding write_text
write_string s p = do r ← write_int (length s + 1) p; write_text s r.1

unfoldable pub write_binary : List ℕ → Packet → Option (Bool × Packet)
write_binary b p = do r ← write_int (length b) p; write b (length b) r.1

-- `_Insert`: the body moves down, and the bytes go before it.
unfoldable pub insert : List ℕ → ℕ → Packet → Option (Bool × Packet)
unfolding move poke
insert bytes n p = if ltb buffer_size (n + p.size) then some (false, p) else do
  block ← move p.buf (header_size + n) header_size (u32 (p.size + 2 ^ 32 - header_size))
  q ← poke (record p { buf = block }) header_size bytes
  r ← end (record q { size = p.size + n })
  some (true, r)

unfoldable pub insert_int : ℕ → Packet → Option (Bool × Packet)
unfolding insert
insert_int n = insert (be_bytes 4 n) 4

unfoldable pub insert_byte : ℕ → Packet → Option (Bool × Packet)
unfolding insert
insert_byte n = insert (le_bytes 1 n) 1
