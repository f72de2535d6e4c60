-- ===== src/Server/Packet/Reads.antt =====
-- The server's reads over a packet: each returns the next value, or the variable's initial -1.
use order_sync.Base.{
  ℕ, ◌+◌, ◌^◌, ◌≤◌, ◌<◌, ◌≡◌, ◌≢◌, refl, ap, ◌∙◌, List, [], ◌∷◌, ◌++◌, some, false, arith, length,
  drop, All, u32, be_bytes, swap_bytes-be_bytes, bind_some, int_gt, append_assoc, length-append,
  load-append, drop-append, ne→not_==,
}
use order_sync.Server.Packet.{
  Packet, buffer_size, read, read_int, read_ulong, read_point, read_char, read_string, c_string,
}

-- `done` is read, `todo` is the rest of the packet, `rest` the buffer behind it.
pub record Reads (p : Packet) (done todo rest : List ℕ) : Type 0 where
  pub buf : p.buf ≡ done ++ (todo ++ rest)
  pub pos : p.pos ≡ length done
  pub size : p.size ≡ length done + length todo
  pub fits : p.size ≤ 8192

pub inside : (a b : ℕ) → a ≤ b → b ≤ 8192 → int_gt (u32 a) b ≡ false
inside a b lt small = ground arith

pub read-Reads :
    {p : Packet} {done rest : List ℕ} (bytes todo : List ℕ) (k : ℕ)
    → Reads p done (bytes ++ todo) rest
    → k ≡ length bytes
    → let q = record p { pos = u32 (k + p.pos) } in
      (read k p ≡ some (some bytes, q)) × Reads q (done ++ bytes) todo rest
unfolding read
read-Reads {p} {done} {rest} bytes todo k h e =
    let whole : length (bytes ++ todo) ≡ length bytes + length todo = length-append bytes todo in
    (
      rw
          (
            inside (k + p.pos) p.size (omega (arith, h.pos, h.size)) (omega (arith, h.fits)),
            inside (k + p.pos) buffer_size (omega (arith, h.pos, h.size, h.fits)) (omega arith),
          )
          (bind_some _
            (load-append p.buf done bytes (todo ++ rest) p.pos k
              (h.buf ∙ ap (◌++◌ done) (append_assoc bytes todo rest)) h.pos e)
            refl),
      record {
        buf = h.buf ∙ simp append_assoc;
        pos = omega (arith, h.pos, h.size, h.fits, length-append done bytes);
        size = omega (arith, h.size, length-append done bytes);
        fits = h.fits;
      },
    )

pub read_int-Reads :
    {p : Packet} {done rest : List ℕ} (n : ℕ) (todo : List ℕ)
    → Reads p done (be_bytes 4 n ++ todo) rest
    → n < 256 ^ 4
    → let q = record p { pos = u32 (4 + p.pos) } in
      (read_int p ≡ some (n, q)) × Reads q (done ++ be_bytes 4 n) todo rest
unfolding read_int
read_int-Reads {p} n todo h small =
    let q : Packet = record p { pos = u32 (4 + p.pos) } in
    let (e, h') = read-Reads (be_bytes 4 n) todo 4 h refl in
    (bind_some _ e (ap (λ m. some (m, q)) (swap_bytes-be_bytes 4 n small)), h')

pub read_ulong-Reads :
    {p : Packet} {done rest : List ℕ} (n : ℕ) (todo : List ℕ)
    → Reads p done (be_bytes 8 n ++ todo) rest
    → n < 256 ^ 8
    → let q = record p { pos = u32 (8 + p.pos) } in
      (read_ulong p ≡ some (n, q)) × Reads q (done ++ be_bytes 8 n) todo rest
unfolding read_ulong
read_ulong-Reads {p} n todo h small =
    let q : Packet = record p { pos = u32 (8 + p.pos) } in
    let (e, h') = read-Reads (be_bytes 8 n) todo 8 h refl in
    (bind_some _ e (ap (λ m. some (m, q)) (swap_bytes-be_bytes 8 n small)), h')

pub c_string_lem : (s rest : List ℕ) → All (λ b. b ≢ 0) s → c_string (s ++ (0 ∷ rest)) ≡ some s
c_string_lem [] rest h = refl
c_string_lem (b ∷ s) rest h = ground (arith, c_string_lem s rest h.1)

-- A text that ends the packet and has a NUL behind it in the buffer.
pub read_string-Reads :
    {p : Packet} {done : List ℕ} (s rest : List ℕ)
    → Reads p done (be_bytes 4 (length s) ++ s) (0 ∷ rest)
    → All (λ b. b ≢ 0) s
    → (q : Packet) × (read_string p ≡ some (s, q))
unfolding read_string read_char read_point
read_string-Reads {p} {done} s rest h plain =
    let (e, h') = read_int-Reads (length s) s h (omega (arith, h.fits, h.size)) in
    let q : Packet = record p { pos = u32 (4 + p.pos) } in
    let text_at : length (done ++ be_bytes 4 (length s)) ≡ length done + 4 =
      length-append done (be_bytes 4 (length s)) in
    let r : Packet = record q { pos = u32 (length s + q.pos) } in
    let chars : read_char p ≡ some (some q.pos, r) = bind_some _ e (
      rw (
        ne→not_== (length s) 4294967295 (omega (arith, h'.size, h'.fits)),
        inside (length s + q.pos) q.size (omega (arith, h'.pos, h'.size)) h'.fits,
      )) in
    (
      r,
      bind_some _ chars (
          bind_some _
            (ap (λ b. c_string (drop q.pos b)) h'.buf
              ∙ ap c_string (drop-append q.pos (done ++ be_bytes 4 (length s)) _ h'.pos)
              ∙ c_string_lem s rest plain)
            refl),
    )
