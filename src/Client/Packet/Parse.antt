-- ===== src/Client/Packet/Parse.antt =====
-- `packet_t::parse_packet` on a frame that the server has sent, and the reads that follow.
use order_sync.Base.{
  ℕ, ◌+◌, ◌^◌, ◌≤◌, ◌<◌, ◌≡◌, refl, ap, ◌∙◌, List, [], ◌∷◌, ◌++◌, Option, none, some, map, arith,
  length, drop, All, IsByte, length-map, be_bytes, of_le, swap_bytes-be_bytes, u8, u16, bind_some,
  ◌-◌, le_or_lt, ◌⊎◌, store_outside, Option-cases, inl, inr, load-append, load_inside, load_outside,
  store_inside, length-store, length-drop, take, length-take, ◌==◌, if◌then◌else◌,
}
use order_sync.Wire.Cipher.{at, sum, negate, decode_loop, length-decode_loop, decode_loop-frame}
use order_sync.Wire.Frame.{frame, raw_frame}
use order_sync.Wire.Agreement.{tables_agree}
use order_sync.Client.Tables.{decode_map}
use order_sync.Server.Tables.{send_byte_map}
use order_sync.Client.Packet.{
  Packet, Status, ok, fail, poke, peek, decode, fill, parse_sized, parse_packet, read_uint64,
  read_bytes,
}
use order_sync.Client.Packet.Steps.{poke-inside, peek-inside, poke-append}

-- The block that `parse_packet` copies into.
abbrev pub target : (ℕ → Option (List ℕ)) → ℕ → Packet → Option (List ℕ)
target malloc size p = elim p.buf [ some block ↦ some block | none ↦ malloc size ]

decode_lem :
    (p : Packet) (n cmd code : ℕ) (body rest : List ℕ)
    → p.buf ≡ some (raw_frame n cmd code body ++ rest)
    → p.len ≡ length body + 9
    → length body + 9 < 65536
    → let out = decode_loop decode_map code body in
      decode p
      ≡ some (
        if out.0 == 0 then ok else fail,
        record p { buf = some (raw_frame n cmd code out.1 ++ rest) },
      )
unfolding decode
decode_lem p n cmd code body rest held len small =
    let before : List ℕ = be_bytes 2 n ++ (0x42 ∷ 0x59 ∷ 1 ∷ 1 ∷ be_bytes 2 cmd) in
    let byte : of_le (code ∷ []) ≡ code = omega arith in
    let out : ℕ × List ℕ = decode_loop decode_map (of_le (code ∷ [])) body in
    bind_some _ (peek-inside p before (code ∷ []) _ 8 1 held refl refl) (
      bind_some _ (peek-inside p (before ++ (code ∷ [])) body rest 9 _ held refl (omega arith)) (
        bind_some _
          (poke-inside p (before ++ (code ∷ [])) body rest out.1 9 held refl
            (length-decode_loop decode_map (of_le (code ∷ [])) body))
          (ap
            (λ c.
              let r = decode_loop decode_map c body in
              some (
                if r.0 == 0 then ok else fail,
                record p { buf = some (raw_frame n cmd code r.1 ++ rest) },
              ))
            byte)))

fill-frame :
    (p : Packet) (block source more body : List ℕ) (cmd size : ℕ)
    → p.buf ≡ some block
    → source ≡ frame send_byte_map cmd body ++ more
    → size ≡ length (frame send_byte_map cmd body)
    → size ≤ length block
    → size < 65536
    → All IsByte body
    → (q : Packet) × (rest : List ℕ) × (fill source size p ≡ some (ok, q))
      × (q.buf ≡ some (raw_frame (length body + 7) cmd (negate (u8 (sum body))) body ++ rest))
      × (q.idx ≡ 9)
unfolding fill
fill-frame p block source more body cmd size held e l fits small bytes =
    let wire : List ℕ = frame send_byte_map cmd body in
    let coded : List ℕ = map (at send_byte_map) body in
    let code : ℕ = negate (u8 (sum body)) in
    let l' : length coded ≡ length body = length-map (at send_byte_map) body in
    let rest : List ℕ = drop (length wire) block in
    let q : Packet = record p { buf = some (wire ++ rest); len = size; idx = 9 } in
    (
      record q { buf = some (raw_frame (length body + 7) cmd code body ++ rest) },
      rest,
      bind_some _ (load-append source [] wire more 0 size e refl l) (
          bind_some _ (poke-append p [] block wire 0 held refl (omega arith)) (
            decode_lem q (length body + 7) cmd code coded rest refl (omega arith) (omega arith)
            ∙ ap
                (λ (r : ℕ × List ℕ). some (
                  if r.0 == 0 then ok else fail,
                  record q { buf = some (raw_frame (length body + 7) cmd code r.1 ++ rest) },
                ))
                (decode_loop-frame send_byte_map decode_map tables_agree.1 body bytes))),
      refl,
      refl,
    )

parse_sized-eq-fill :
    (malloc : ℕ → Option (List ℕ)) (source : List ℕ) (size : ℕ) (p : Packet) (block : List ℕ)
    → target malloc size p ≡ some block
    → (q : Packet) × (q.buf ≡ some block) × (parse_sized malloc source size p ≡ fill source size q)
unfolding parse_sized
parse_sized-eq-fill malloc source size p block e = elim (Option-cases p.buf) [
  | inl fresh ↦ (record p { buf = some block; sz = size; len = size; idx = 9 }, refl, ground arith)
  | inr (old, used) ↦ (p, ground arith, ground arith)
]

-- `parse_packet` comes down to `fill`, on a packet with a block to copy into.
parse_packet-eq-fill :
    (malloc : ℕ → Option (List ℕ)) (source : List ℕ) (size : ℕ) (p : Packet) (block : List ℕ)
    → size < 65536
    → target malloc size p ≡ some block
    → (q : Packet) × (q.buf ≡ some block) × (parse_packet malloc source size p ≡ fill source size q)
unfolding parse_packet
parse_packet-eq-fill malloc source size p block small e =
    let (q, held, same) = parse_sized-eq-fill malloc source size p block e in
    (q, held, ap (λ n. parse_sized malloc source n p) {y = size} (omega (arith, small)) ∙ same)

-- A frame is accepted, and leaves its body in the clear to be read.
pub parse_packet-frame :
    (malloc : ℕ → Option (List ℕ)) (p : Packet) (block source more body : List ℕ) (cmd size : ℕ)
    → target malloc size p ≡ some block
    → source ≡ frame send_byte_map cmd body ++ more
    → size ≡ length (frame send_byte_map cmd body)
    → size ≤ length block
    → size < 65536
    → All IsByte body
    → (q : Packet) × (rest : List ℕ) × (parse_packet malloc source size p ≡ some (ok, q))
      × (q.buf ≡ some (raw_frame (length body + 7) cmd (negate (u8 (sum body))) body ++ rest))
      × (q.idx ≡ 9)
parse_packet-frame malloc p block source more body cmd size t e l fits small bytes =
    let (q, held, same) = parse_packet-eq-fill malloc source size p block small t in
    let (r, rest, done, buf, idx) =
      fill-frame q block source more body cmd size held e l fits small bytes in
    (r, rest, same ∙ done, buf, idx)

poke_fits :
    (p : Packet) (block bytes : List ℕ) (off : ℕ)
    → p.buf ≡ some block
    → off + length bytes ≤ length block
    → (block' : List ℕ) × (poke p off bytes ≡ some (record p { buf = some block' }))
      × (length block' ≡ length block)
unfolding poke
poke_fits p block bytes off held fits =
    let (out, done) = store_inside block bytes off fits in
    (out, bind_some _ held (bind_some _ done refl), length-store block bytes out off done)

peek_fits :
    (p : Packet) (block : List ℕ) (off n : ℕ)
    → p.buf ≡ some block
    → off + n ≤ length block
    → peek p off n ≡ some (take n (drop off block))
unfolding peek
peek_fits p block off n held fits = bind_some _ held (load_inside block off n fits)

-- What a call leaves that stays inside the block.
abbrev Stays : Packet → List ℕ → Option (Status × Packet) → Type 0
Stays p block r =
    (status : Status) × (block' : List ℕ) × (r ≡ some (status, record p { buf = some block' }))
    × (length block' ≡ length block)

decode_fits :
    (p : Packet) (block : List ℕ)
    → p.buf ≡ some block
    → 9 ≤ p.len
    → p.len < 65536
    → p.len ≤ length block
    → Stays p block (decode p)
unfolding decode
decode_fits p block held large small fits =
    let n : ℕ = u16 (p.len + 65536 - 9) in
    let bytes : List ℕ = take n (drop 9 block) in
    let inside : 9 + n ≤ length block = omega (arith, large, small, fits) in
    let out : ℕ × List ℕ = decode_loop decode_map (of_le (take 1 (drop 8 block))) bytes in
    let size : length out.1 ≡ length bytes =
      length-decode_loop decode_map (of_le (take 1 (drop 8 block))) bytes in
    let (block', done, same) =
      poke_fits p block out.1 9 held
        (omega (arith, inside, size, length-take n (drop 9 block), length-drop 9 block)) in
    (
      if out.0 == 0 then ok else fail,
      block',
      bind_some _ (peek_fits p block 8 1 held (omega (arith, large, fits)))
          (bind_some _ (peek_fits p block 9 n held inside) (bind_some _ done refl)),
      same,
    )

-- `len - 9` wraps round.
decode_short :
    (p : Packet) (block : List ℕ)
    → p.buf ≡ some block
    → p.len < 9
    → length block < 65536
    → decode p ≡ none
unfolding decode peek
decode_short p block held short small = elim (Option-cases (peek p 8 1)) [
  | inl fault ↦ rw fault refl
  | inr (code, read) ↦ bind_some _ read (
      rw held
        (rw (load_outside block 9 (u16 (p.len + 65536 - 9)) (omega (arith, short, small))) refl))
]

fill_bounds :
    (p : Packet) (block source : List ℕ) (size : ℕ)
    → p.buf ≡ some block
    → size ≤ length source
    → size < 65536
    → (9 ≤ size
        → size ≤ length block
        → Stays (record p { len = size; idx = 9 }) block (fill source size p))
      × (length block < size → fill source size p ≡ none)
      × (size < 9 → length block < 65536 → fill source size p ≡ none)
unfolding fill poke
fill_bounds p block source size held whole small =
    let bytes : List ℕ = take size source in
    let n : length bytes ≡ size = omega (arith, whole, length-take size source) in
    let read = load_inside source 0 size (omega (arith, whole)) in
    let over : length block < size → fill source size p ≡ none = λ large.
      bind_some _ read
        (rw held (rw (store_outside block bytes 0 (omega (arith, n, large))) refl)) in
    (
      λ large fits.
          let (block₁, wrote, same₁) = poke_fits p block bytes 0 held (omega (arith, n, fits)) in
          let (status, block₂, done, same₂) =
            decode_fits (record p { buf = some block₁; len = size; idx = 9 }) block₁ refl large
              small (omega (arith, same₁, fits)) in
          (status, block₂, bind_some _ read (bind_some _ wrote done), same₂ ∙ same₁),
      over,
      λ short little. elim (le_or_lt size (length block)) [
        | inr large ↦ over large
        | inl fits ↦
            let (block₁, wrote, same₁) = poke_fits p block bytes 0 held (omega (arith, n, fits)) in
            bind_some _ read (
              bind_some _ wrote (
                decode_short (record p { buf = some block₁; len = size; idx = 9 }) block₁ refl short
                  (omega (arith, same₁, little))))
      ],
    )

-- Data of fewer than 65536 bytes, all there to be read, is parsed into a block of less than 65536 bytes,
-- the packet's own or the one that `malloc` gives: it has nine bytes or more, fits the block, and is parsed
-- inside it, which leaves a block of the same size, the data's length and the read position behind the
-- header; or it is larger than the block or has fewer than nine bytes, and `parse_packet` runs outside the
-- block.
pub parse_packet_bounds :
    (malloc : ℕ → Option (List ℕ)) (p : Packet) (block source : List ℕ) (size : ℕ)
    → target malloc size p ≡ some block
    → size ≤ length source
    → size < 65536
    → length block < 65536
    → ((9 ≤ size)
        × (size ≤ length block)
        × (status : Status) × (q : Packet) × (block' : List ℕ) × (parse_packet malloc source size p
            ≡ some (status, q))
        × (q.buf ≡ some block')
        × (length block' ≡ length block)
        × (q.len ≡ size)
        × (q.idx ≡ 9))
      ⊎ (((length block < size) ⊎ (size < 9)) × (parse_packet malloc source size p ≡ none))
parse_packet_bounds malloc p block source size t whole small little =
    let (q, held, same) = parse_packet-eq-fill malloc source size p block small t in
    let (inside, over, short) = fill_bounds q block source size held whole small in
    elim (le_or_lt 9 size) [
      | inr few ↦ inr (inr few, same ∙ short few little)
      | inl many ↦ elim (le_or_lt size (length block)) [
        | inr large ↦ inr (inl large, same ∙ over large)
        | inl fits ↦
            let (status, block', done, kept) = inside many fits in
            inl (
              many,
              fits,
              status,
              record q { buf = some block'; len = size; idx = 9 },
              block',
              same ∙ done,
              refl,
              kept,
              refl,
              refl,
            )
      ]
    ]

-- The value that a client reads first from an accepted packet.
pub read_uint64-first :
    (q : Packet) (n cmd code value : ℕ) (rest : List ℕ)
    → q.buf ≡ some (raw_frame n cmd code (be_bytes 8 value) ++ rest)
    → q.idx ≡ 9
    → value < 256 ^ 8
    → (r : Packet) × (read_uint64 q ≡ some (value, r))
unfolding read_uint64 read_bytes
read_uint64-first q n cmd code value rest held at_body small = (
  record q { idx = u16 (q.idx + 8) },
  bind_some _
      (bind_some _
        (peek-inside q (raw_frame n cmd code []) (be_bytes 8 value) rest q.idx 8 held at_body refl)
        refl)
      (ap (λ v. some (v, record q { idx = u16 (q.idx + 8) })) (swap_bytes-be_bytes 8 value small)),
)
