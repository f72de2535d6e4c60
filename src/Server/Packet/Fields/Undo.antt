-- ===== src/Server/Packet/Fields/Undo.antt =====
-- Reads of a field that is longer than the caller's buffer.
use order_sync.Base.{
  ℕ, ◌+◌, ◌-◌, ◌^◌, ◌<◌, ◌≡◌, ap, List, ◌++◌, none, some, true, arith, be_bytes, u32, bind_some,
  int_gt, ne→not_==,
}
use order_sync.Server.Packet.{Packet}
use order_sync.Server.Packet.Reads.{Reads, read_int-Reads}
use order_sync.Server.Packet.Fields.{read_undo, read_binary, read_string_into, minus_one}

too_long : (n m : ℕ) → m < n → n < 2 ^ 31 → int_gt n m ≡ true
too_long n m h small = ground arith

-- Where the next field's length, below 2 ^ 31, is more than the caller's buffer takes, both reads fail:
-- `ReadBinary` leaves the packet as it was, so that a larger buffer can be tried, and
-- `ReadString (pOutString, nMaxLen)` leaves it two bytes further on, within the length.
pub read_binary_too_long :
    (p : Packet) (done todo rest : List ℕ) (n max_len : ℕ)
    → Reads p done (be_bytes 4 n ++ todo) rest
    → max_len < n
    → n < 2 ^ 31
    → (read_binary max_len p ≡ some (none, p))
      × (read_string_into max_len p ≡ some (none, record p { pos = p.pos + 2 }))
unfolding read_binary read_string_into read_undo
read_binary_too_long p done todo rest n max_len h long small =
    let e = (read_int-Reads n todo h (omega arith)).0 in
    (
      bind_some _ e (
          rw (ne→not_== n minus_one (omega arith), too_long n max_len long small)
            (ap (λ k. some (none, record p { pos = k })) {x = u32 (u32 (4 + p.pos) + 2 ^ 32 - 4)}
              {y = p.pos} (omega (arith, h.size, h.pos, h.fits)))),
      bind_some _ e (
          rw (ne→not_== n minus_one (omega arith), too_long n max_len long small)
            (ap (λ k. some (none, record p { pos = k })) {x = u32 (u32 (4 + p.pos) + 2 ^ 32 - 2)}
              {y = p.pos + 2} (omega (arith, h.size, h.pos, h.fits)))),
    )
