-- ===== src/Server/Packet/Fields/Kinds.antt =====
-- The fields of a server packet, and packets that are filled and read field by field
-- (OrderSyncServer/src/proxy/ICHAT_PacketBase.h).
use order_sync.Base.{
  ℕ, ◌+◌, ◌^◌, ◌<◌, ◌≢◌, List, [], ◌∷◌, ◌++◌, Option, none, some, Bool, length, map, All, le_bytes,
  be_bytes, load, ◌>>=◌,
}
use order_sync.Server.Packet.{
  Packet, read_int, read_ulong, read_string, write_int, write_ulong, write_byte, begin, end, copy,
}
use order_sync.Server.Packet.Fields.{
  read_byte, read_short, read_binary, write_short, write_string, write_binary,
}

pub data Field : Type 0 where
  int ulong byte short : ℕ → Field
  text binary : List ℕ → Field

pub data Kind : Type 0 where
  an_int a_ulong a_byte a_short a_text a_binary : Kind

abbrev pub kind_of : Field → Kind
kind_of (int n) = an_int
kind_of (ulong n) = a_ulong
kind_of (byte n) = a_byte
kind_of (short n) = a_short
kind_of (text s) = a_text
kind_of (binary b) = a_binary

unfoldable pub write_field : Field → Packet → Option (Bool × Packet)
write_field (int n) = write_int n
write_field (ulong n) = write_ulong n
write_field (byte n) = write_byte n
write_field (short n) = write_short n
write_field (text s) = write_string s
write_field (binary b) = write_binary b

-- The results of the writes are not looked at.
unfoldable pub write_all : List Field → Packet → Option Packet
unfolding write_field
write_all [] p = some p
write_all (f ∷ fs) p = do r ← write_field f p; write_all fs r.1

unfoldable pub bytes_read : Option (List ℕ) → List ℕ
bytes_read none = []
bytes_read (some b) = b

unfoldable pub read_field : Kind → Packet → Option (Field × Packet)
unfolding bytes_read
read_field an_int p = do r ← read_int p; some (int r.0, r.1)
read_field a_ulong p = do r ← read_ulong p; some (ulong r.0, r.1)
read_field a_byte p = do r ← read_byte p; some (byte r.0, r.1)
read_field a_short p = do r ← read_short p; some (short r.0, r.1)
read_field a_text p = do r ← read_string p; some (text r.0, r.1)
read_field a_binary p = do r ← read_binary 8192 p; some (binary (bytes_read r.0), r.1)

unfoldable pub read_all : List Kind → Packet → Option (List Field)
unfolding read_field
read_all [] p = some []
read_all (k ∷ ks) p = do r ← read_field k p; fs ← read_all ks r.1; some (r.0 ∷ fs)

-- A packet is filled, and the bytes that it gives out are copied and read.
unfoldable pub transfer : ℕ → List Field → Packet → Packet → Option (List Field)
unfolding write_all read_all
transfer cmd fs out in₁ = do
  p ← begin cmd out
  q ← write_all fs p
  r ← end q
  wire ← load r.buf 0 r.size
  c ← copy wire r.size in₁
  read_all (map kind_of fs) c.1

abbrev pub field_bytes : Field → List ℕ
field_bytes (int n) = be_bytes 4 n
field_bytes (ulong n) = be_bytes 8 n
field_bytes (byte n) = le_bytes 1 n
field_bytes (short n) = be_bytes 2 n
field_bytes (text s) = be_bytes 4 (length s + 1) ++ (s ++ (0 ∷ []))
field_bytes (binary b) = be_bytes 4 (length b) ++ b

abbrev pub body_bytes : List Field → List ℕ
body_bytes [] = []
body_bytes (f ∷ fs) = field_bytes f ++ body_bytes fs

-- A number that fits its field, and a text without NUL.
abbrev pub IsField : Field → Type 0
IsField (int n) = n < 256 ^ 4
IsField (ulong n) = n < 256 ^ 8
IsField (byte n) = n < 256
IsField (short n) = n < 256 ^ 2
IsField (text s) = All (λ b. b ≢ 0) s
IsField (binary b) = Unit
