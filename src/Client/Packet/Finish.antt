-- ===== src/Client/Packet/Finish.antt =====
-- A packet from `begin` to `end`: what `Send` is given is exactly one frame.
use order_sync.Base.{
  ℕ, ◌+◌, ◌-◌, ◌≤◌, ◌<◌, ◌≡◌, refl, ap, ◌∙◌, List, [], ◌∷◌, ◌++◌, Option, none, some, arith, length,
  All, length-map, be_bytes, u8, u16, ◌>>=◌, bind_some, map,
}
use order_sync.Wire.Frame.{frame, raw_frame}
use order_sync.Wire.Cipher.{
  at, sum, negate, encode_loop, encode_loop_code, encode_loop_out, length-encode_loop,
}
use order_sync.Client.Tables.{encode_map}
use order_sync.Client.Packet.{Packet, ok, peek, start, begin, encode, end}
use order_sync.Client.Packet.Steps.{Holds, poke-inside, peek-inside}
use order_sync.Client.Packet.Build.{Field, IsPlain, write_all, write_all-Wrote, body_bytes}

-- The nine bytes of a header.
record Nine : Type 0 where
  a : ℕ
  b : ℕ
  c : ℕ
  d : ℕ
  e : ℕ
  f : ℕ
  g : ℕ
  h : ℕ
  i : ℕ

abbrev nine : Nine → List ℕ
nine x = x.a ∷ x.b ∷ x.c ∷ x.d ∷ x.e ∷ x.f ∷ x.g ∷ x.h ∷ x.i ∷ []

split_nine : (l : List ℕ) → 9 ≤ length l → (x : Nine) × (rest : List ℕ) × (l ≡ nine x ++ rest)
split_nine (a ∷ b ∷ c ∷ d ∷ e ∷ f ∷ g ∷ h ∷ i ∷ rest) _ =
    (record { a = a; b = b; c = c; d = d; e = e; f = f; g = g; h = h; i = i }, rest, refl)
split_nine _ h = absurd (omega arith)

-- The block that a packet is built in: its own, or a new one.
abbrev pub obtain : (ℕ → Option (List ℕ)) → Packet → Option (List ℕ)
obtain malloc p = elim p.buf [ some block ↦ some block | none ↦ malloc p.sz ]

abbrev commanded : Nine → ℕ → List ℕ
commanded x cmd = x.a ∷ x.b ∷ x.c ∷ x.d ∷ x.e ∷ x.f ∷ be_bytes 2 cmd ++ (x.i ∷ [])

begin-eq-start :
    (malloc : ℕ → Option (List ℕ)) (cmd : ℕ) (p : Packet) (block : List ℕ)
    → obtain malloc p ≡ some block
    → begin malloc cmd p ≡ start cmd (record p { buf = some block })
unfolding begin
begin-eq-start malloc cmd p block e = ground arith

start_lem :
    (p : Packet) (cmd : ℕ) (x : Nine) (rest : List ℕ)
    → p.buf ≡ some (nine x ++ rest)
    → start cmd p ≡ some (ok, record p { buf = some (commanded x cmd ++ rest); len = 9 })
unfolding start
start_lem p cmd x rest e =
    bind_some _
      (poke-inside p (x.a ∷ x.b ∷ x.c ∷ x.d ∷ x.e ∷ x.f ∷ []) (x.g ∷ x.h ∷ []) (x.i ∷ rest)
        (be_bytes 2 cmd) 6 e refl refl)
      refl

-- The buffer after `begin`: a header that holds the command, and nothing behind it.
begin-Holds :
    (malloc : ℕ → Option (List ℕ)) (cmd : ℕ) (p : Packet) (block : List ℕ)
    → obtain malloc p ≡ some block
    → 9 ≤ length block
    → length block < 65536
    → (q : Packet) × (x : Nine) × (rest : List ℕ) × (begin malloc cmd p ≡ some (ok, q))
      × Holds q (commanded x cmd) rest
      × (length block ≡ 9 + length rest)
begin-Holds malloc cmd p block e low high =
    let (x, rest, s) = split_nine block low in
    let size : length block ≡ 9 + length rest = omega (arith, ap length s) in
    (
      record p { buf = some (commanded x cmd ++ rest); len = 9 },
      x,
      rest,
      begin-eq-start malloc cmd p block e
          ∙ start_lem (record p { buf = some block }) cmd x rest (ap some s),
      record { buf = refl; len = refl; room = omega arith },
      size,
    )

-- `end` fills the header in and substitutes the body.
end-Holds :
    (p : Packet) (x : Nine) (cmd : ℕ) (body rest : List ℕ)
    → Holds p (commanded x cmd ++ body) rest
    → (q : Packet) × (end p ≡ some q)
      × (q.buf ≡ some (frame encode_map cmd body ++ rest))
      × (q.len ≡ length (frame encode_map cmd body))
unfolding end encode
end-Holds p x cmd body rest h =
    let out : ℕ × List ℕ = encode_loop encode_map 0 body in
    let size : List ℕ = be_bytes 2 (u16 (p.len + 65536 - 2)) in
    let tail : List ℕ = be_bytes 2 cmd ++ (x.i ∷ body) ++ rest in
    let mark : List ℕ = size ++ (0x42 ∷ 0x59 ∷ []) in
    let versions : List ℕ = mark ++ (1 ∷ 1 ∷ []) in
    let full : List ℕ = versions ++ be_bytes 2 cmd in
    let p₁ : Packet = record p { buf = some (size ++ (x.c ∷ x.d ∷ x.e ∷ x.f ∷ tail)) } in
    let p₂ : Packet = record p { buf = some (mark ++ (x.e ∷ x.f ∷ tail)) } in
    let p₃ : Packet = record p { buf = some (versions ++ tail) } in
    let p₄ : Packet = record p { buf = some (full ++ (x.i ∷ out.1 ++ rest)) } in
    let p₅ : Packet = record p { buf = some (full ++ (negate out.0 ∷ out.1 ++ rest)) } in
    let field : u16 (p.len + 65536 - 2) ≡ length body + 7 = omega (arith, h.len, h.room) in
    let same : out.1 ≡ map (at encode_map) body = encode_loop_out encode_map 0 body in
    let code : out.0 ≡ u8 (sum body) = omega (arith, encode_loop_code encode_map 0 body) in
    (
      p₅,
      bind_some _ (poke-inside p [] (x.a ∷ x.b ∷ []) _ size 0 h.buf refl refl) (
          bind_some _ (poke-inside p₁ size (x.c ∷ x.d ∷ []) _ (0x42 ∷ 0x59 ∷ []) 2 refl refl refl) (
            bind_some _ (poke-inside p₂ mark (x.e ∷ x.f ∷ []) _ (1 ∷ 1 ∷ []) 4 refl refl refl) (
              bind_some _
                (bind_some _
                  (peek-inside p₃ (full ++ (x.i ∷ [])) body rest 9 _ refl refl
                    (omega (arith, h.len, h.room)))
                  (bind_some _
                    (poke-inside p₃ (full ++ (x.i ∷ [])) body rest out.1 9 refl refl
                      (length-encode_loop encode_map 0 body))
                    (bind_some _
                      (poke-inside p₄ full (x.i ∷ []) (out.1 ++ rest) (negate out.0 ∷ []) 8 refl
                        refl refl)
                      refl)))
                refl))),
      (λ j. some (raw_frame (field j) cmd (negate (code j)) (same j) ++ rest)),
      omega (arith, h.len, length-map (at encode_map) body),
    )

-- The calls by which a packet is made, in order; `begin`'s result is not looked at.
unfoldable pub build : (ℕ → Option (List ℕ)) → ℕ → List Field → Packet → Option Packet
build malloc cmd fs p = do q ← begin malloc cmd p; r ← write_all fs q.1; end r

-- What `get_data` and `get_len` give to `Send`.
unfoldable pub sent : Packet → Option (List ℕ)
sent p = peek p 0 p.len

-- Whatever the buffer held before, a packet built by any integer, text and double writes, of texts, and
-- of a double's digits as `snprintf` prints them, with no NUL, that fit its block of less than 65536 bytes
-- with a byte to spare is sent as one frame: the command and the fields' bytes, with the right length and
-- check code.
pub sent-build :
    (malloc : ℕ → Option (List ℕ)) (cmd : ℕ) (fs : List Field) (p : Packet) (block : List ℕ)
    → obtain malloc p ≡ some block
    → All IsPlain fs
    → length (body_bytes fs) + 9 < length block
    → length block < 65536
    → (build malloc cmd fs p >>= sent) ≡ some (frame encode_map cmd (body_bytes fs))
unfolding build sent
sent-build malloc cmd fs p block e plain fits high =
    let (q, x, slack, begun, holds, size) = begin-Holds malloc cmd p block e (omega arith) high in
    let (r, rest, wrote, holds', left) = write_all-Wrote fs plain holds (omega arith) in
    let (s, ended, buf, len) = end-Holds r x cmd (body_bytes fs) rest holds' in
    bind_some sent (bind_some _ begun (bind_some _ wrote ended))
      (peek-inside s [] (frame encode_map cmd (body_bytes fs)) rest 0 s.len buf refl len)
