-- ===== src/Wire/Frame.antt =====
-- A packet on the wire: a header of nine bytes (`header_t` in OrderSyncClient/inc/packet.h, and
-- `TPkgHeader` in OrderSyncServer/src/proxy/client_unit.h), then the body. The header holds the
-- length of what follows its first field, "BY", the versions, the command and the check code.
use order_sync.Base.{ℕ, ◌+◌, List, ◌∷◌, ◌++◌, map, length, be_bytes, u8}
use order_sync.Wire.Cipher.{at, negate, sum}

abbrev pub raw_frame : ℕ → ℕ → ℕ → List ℕ → List ℕ
raw_frame size cmd code body =
    be_bytes 2 size ++ (0x42 ∷ 0x59 ∷ 1 ∷ 1 ∷ be_bytes 2 cmd) ++ (code ∷ body)

-- The packet of a command and a body, substituted by the sender's table.
abbrev pub frame : List ℕ → ℕ → List ℕ → List ℕ
frame table cmd body =
    raw_frame (length body + 7) cmd (negate (u8 (sum body))) (map (at table) body)
