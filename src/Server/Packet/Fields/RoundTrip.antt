-- ===== src/Server/Packet/Fields/RoundTrip.antt =====
-- A server packet that is filled field by field, copied, and read field by field.
use order_sync.Base.{
  ℕ, ◌+◌, ◌-◌, ◌≤◌, ◌≡◌, refl, sym, ap, ◌∙◌, List, [], ◌∷◌, ◌++◌, some, false, arith, length, drop,
  All, u16, be_bytes, load, bind_some, length-append, append_assoc, append-nil, store-inside,
  load-append, replicate, replicate-add,
}
use order_sync.Server.Packet.{Packet, zeros, begin, end}
use order_sync.Server.Packet.Receive.{copy_lem, length-zeros}
use order_sync.Server.Packet.Fields.Kinds.{Field, transfer, body_bytes, IsField}
use order_sync.Server.Packet.Fields.Writing.{Holds, write_all-Holds}
use order_sync.Server.Packet.Fields.Reading.{read_all-Reads}

zeros_split : (rest : List ℕ) × (zeros ≡ replicate 9 0 ++ rest)
unfolding zeros
zeros_split = (replicate 8183 0, replicate-add 9 8183 0)

-- A header whose length field and check code are still to be set.
abbrev open_header : ℕ → List ℕ
open_header cmd = 0 ∷ 0 ∷ 0x42 ∷ 0x59 ∷ 1 ∷ 1 ∷ (be_bytes 2 cmd ++ (0 ∷ []))

abbrev closed_header : ℕ → ℕ → List ℕ
closed_header n cmd = be_bytes 2 n ++ (0x42 ∷ 0x59 ∷ 1 ∷ 1 ∷ (be_bytes 2 cmd ++ (0 ∷ [])))

begin-Holds :
    (cmd : ℕ) (p : Packet)
    → (q : Packet) × (slack : List ℕ) × (begin cmd p ≡ some q) × Holds q (open_header cmd) slack
unfolding begin
begin-Holds cmd p =
    let (rest, split) = zeros_split in
    (
      record { buf = open_header cmd ++ rest; size = 9; pos = 9; is_check_code = false },
      rest,
      bind_some _
          (bind_some _
            (store-inside zeros (0 ∷ 0 ∷ []) (0 ∷ 0 ∷ []) _ (0x42 ∷ 0x59 ∷ []) 2 split refl refl)
            refl)
          (bind_some _
            (bind_some _
              (store-inside _ (0 ∷ 0 ∷ 0x42 ∷ 0x59 ∷ []) (0 ∷ []) _ (1 ∷ []) 4 refl refl refl) refl)
            (bind_some _
              (bind_some _
                (store-inside _ (0 ∷ 0 ∷ 0x42 ∷ 0x59 ∷ 1 ∷ []) (0 ∷ []) _ (1 ∷ []) 5 refl refl refl)
                refl)
              (bind_some _
                (bind_some _
                  (store-inside _ (0 ∷ 0 ∷ 0x42 ∷ 0x59 ∷ 1 ∷ 1 ∷ []) (0 ∷ 0 ∷ []) _ (be_bytes 2 cmd)
                    6 refl refl refl)
                  refl)
                refl))),
      record {
        buf = refl;
        size = refl;
        room = omega (arith, ap length split ∙ length-append (replicate 9 0) rest, length-zeros);
      },
    )

end_lem :
    (cmd : ℕ) (body slack : List ℕ) (p : Packet)
    → Holds p (open_header cmd ++ body) slack
    → (n : ℕ) × (q : Packet) × (end p ≡ some q)
      × (q.buf ≡ (closed_header n cmd ++ body) ++ slack)
      × (q.size ≡ p.size)
unfolding end
end_lem cmd body slack p h =
    let n : ℕ = u16 (p.size + 65536 - 2) in
    (
      n,
      record p { buf = (closed_header n cmd ++ body) ++ slack; is_check_code = false },
      bind_some _
          (bind_some _ (store-inside p.buf [] (0 ∷ 0 ∷ []) _ (be_bytes 2 n) 0 h.buf refl refl) refl)
          (bind_some _
            (store-inside _ (be_bytes 2 n ++ (0x42 ∷ 0x59 ∷ 1 ∷ 1 ∷ be_bytes 2 cmd)) (0 ∷ []) _
              (0 ∷ []) 8 refl refl refl)
            refl),
      refl,
      refl,
    )

-- Fields whose bytes fit the buffer of 8192 behind the header, each number within its field's size and
-- each text without NUL: written to a packet of any command, whatever it held, they come back in the
-- same order from a packet into which its bytes are copied.
pub transfer_lem :
    (cmd : ℕ) (fs : List Field) (out in₁ : Packet)
    → All IsField fs
    → length (body_bytes fs) + 9 ≤ 8192
    → transfer cmd fs out in₁ ≡ some fs
unfolding transfer
transfer_lem cmd fs out in₁ good fits =
    let (p, slack, begun, h) = begin-Holds cmd out in
    let body : List ℕ = body_bytes fs in
    let (q, slack', filled, h') =
      write_all-Holds fs p (open_header cmd) slack h (omega (arith, fits, h.room)) in
    let (n, r, ended, buf, size) = end_lem cmd body slack' q h' in
    let wire : List ℕ = closed_header n cmd ++ body in
    let whole : length wire ≡ length body + 9 = omega arith in
    let held : r.size ≡ length wire = omega (arith, size, h'.size, whole) in
    let loaded : load r.buf 0 r.size ≡ some wire =
      load-append r.buf [] wire slack' 0 r.size buf refl held in
    let copied =
      copy_lem in₁ wire wire [] r.size (sym (append-nil wire)) held
        (omega (arith, held, whole, fits)) in
    bind_some _ begun (
      bind_some _ filled (
        bind_some _ ended (
          bind_some _ loaded (
            bind_some _ copied (
              read_all-Reads fs _ (closed_header n cmd) (drop (length wire) zeros)
                (record {
                  buf = append_assoc (closed_header n cmd) body (drop (length wire) zeros);
                  pos = refl;
                  size = omega (arith, held, whole);
                  fits = omega (arith, held, whole, fits);
                })
                good)))))
