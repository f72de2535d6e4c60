-- ===== src/Server/Packet/Fields/Reading.antt =====
-- What the reads of a server packet give.
use order_sync.Base.{
  ℕ, ◌+◌, ◌≤◌, ◌≡◌, ◌≢◌, refl, sym, ap, ◌∙◌, List, [], ◌∷◌, ◌++◌, Option, some, false, arith,
  length, drop, map, All, u32, int_gt, le_bytes, be_bytes, swap_bytes, swap_bytes-be_bytes,
  bind_some, length-append, append_assoc, ne→not_==, drop-append, subst,
}
use order_sync.Server.Packet.{Packet, read_string, read_char, read_point, c_string}
use order_sync.Server.Packet.Reads.{
  Reads, read-Reads, read_int-Reads, read_ulong-Reads, inside, c_string_lem,
}
use order_sync.Server.Packet.Fields.{or_empty, read_byte, read_short, read_binary}
use order_sync.Server.Packet.Fields.Kinds.{
  Field, kind_of, bytes_read, read_field, read_all, field_bytes, body_bytes, IsField, int, ulong,
  byte, short, text, binary,
}

-- What a read gives, and where it leaves the packet.
abbrev Gave : {A : Type 0} → List ℕ → List ℕ → List ℕ → A → Option (A × Packet) → Type 0
Gave done todo rest a r = (q : Packet) × (r ≡ some (a, q)) × Reads q done todo rest

small_enough : (n : ℕ) → n ≤ 8192 → int_gt n 8192 ≡ false
small_enough n h = ground arith

-- The same bytes, taken apart otherwise.
assoc-Reads :
    {p : Packet} (done first second todo : List ℕ) {rest : List ℕ}
    → Reads p ((done ++ first) ++ second) todo rest
    → Reads p (done ++ (first ++ second)) todo rest
assoc-Reads {p} done first second todo {rest} h =
    subst (λ d. Reads p d todo rest) (append_assoc done first second) h

text-Reads :
    {p : Packet} {done rest : List ℕ} (s todo : List ℕ)
    → Reads p done (field_bytes (text s) ++ todo) rest
    → All (λ b. b ≢ 0) s
    → Gave (done ++ field_bytes (text s)) todo rest s (read_string p)
unfolding read_string read_char read_point
text-Reads {p} {done} {rest} s todo h plain =
    let n : ℕ = length s + 1 in
    let t : List ℕ = s ++ (0 ∷ []) in
    let size : length t ≡ n = length-append s (0 ∷ []) in
    let all : length (t ++ todo) ≡ length t + length todo = length-append t todo in
    let (e, h') = read_int-Reads n (t ++ todo) h (omega (arith, h.fits, h.size, all, size)) in
    let q : Packet = record p { pos = u32 (4 + p.pos) } in
    let r : Packet = record q { pos = u32 (n + q.pos) } in
    let h₂ = (read-Reads t todo n h' (sym size)).1 in
    let chars : read_char p ≡ some (some q.pos, r) = bind_some _ e (
      rw (
        ne→not_== n 4294967295 (omega (arith, h'.size, h'.fits, all, size)),
        inside (n + q.pos) q.size (omega (arith, h'.pos, h'.size, all, size)) h'.fits,
      )) in
    let behind : (t ++ todo) ++ rest ≡ s ++ (0 ∷ (todo ++ rest)) =
      append_assoc t todo rest ∙ append_assoc s (0 ∷ []) (todo ++ rest) in
    (
      r,
      bind_some _ chars (
          bind_some _
            (ap (λ b. c_string (drop q.pos b)) h'.buf
              ∙ ap c_string (drop-append q.pos (done ++ be_bytes 4 n) _ h'.pos ∙ behind)
              ∙ c_string_lem s (todo ++ rest) plain)
            refl),
      assoc-Reads done (be_bytes 4 n) t todo h₂,
    )

binary-Reads :
    {p : Packet} {done rest : List ℕ} (b todo : List ℕ)
    → Reads p done (field_bytes (binary b) ++ todo) rest
    → Gave (done ++ field_bytes (binary b)) todo rest (some b) (read_binary 8192 p)
unfolding read_binary or_empty
binary-Reads {p} {done} {rest} b todo h =
    let n : ℕ = length b in
    let all : length (b ++ todo) ≡ length b + length todo = length-append b todo in
    let (e, h') = read_int-Reads n (b ++ todo) h (omega (arith, h.fits, h.size, all)) in
    let q : Packet = record p { pos = u32 (4 + p.pos) } in
    let (e₂, h₂) = read-Reads b todo n h' refl in
    (
      record q { pos = u32 (n + q.pos) },
      bind_some _ e (
          rw
            (
              ne→not_== n 4294967295 (omega (arith, h'.size, h'.fits, all)),
              small_enough n (omega (arith, h'.size, h'.fits, all)),
            )
            (bind_some _ e₂ refl)),
      assoc-Reads done (be_bytes 4 n) b todo h₂,
    )

read_field-Reads :
    {p : Packet} {done rest : List ℕ} (f : Field) (todo : List ℕ)
    → Reads p done (field_bytes f ++ todo) rest
    → IsField f
    → Gave (done ++ field_bytes f) todo rest f (read_field (kind_of f) p)
unfolding read_field read_byte read_short bytes_read swap_bytes
read_field-Reads {p} (int n) todo h small =
    let (e, h') = read_int-Reads n todo h small in
    (record p { pos = u32 (4 + p.pos) }, bind_some _ e refl, h')
read_field-Reads {p} (ulong n) todo h small =
    let (e, h') = read_ulong-Reads n todo h small in
    (record p { pos = u32 (8 + p.pos) }, bind_some _ e refl, h')
read_field-Reads {p} (byte n) todo h small =
    let (e, h') = read-Reads (le_bytes 1 n) todo 1 h refl in
    let q : Packet = record p { pos = u32 (1 + p.pos) } in
    (q, bind_some _ (bind_some _ e (ap (λ m. some (m, q)) (omega (arith, small)))) refl, h')
read_field-Reads {p} (short n) todo h small =
    let (e, h') = read-Reads (be_bytes 2 n) todo 2 h refl in
    let q : Packet = record p { pos = u32 (2 + p.pos) } in
    (
      q,
      bind_some _ (bind_some _ e (ap (λ m. some (m, q)) (swap_bytes-be_bytes 2 n small))) refl,
      h',
    )
read_field-Reads (text s) todo h plain =
    let (q, e, h') = text-Reads s todo h plain in (q, bind_some _ e refl, h')
read_field-Reads (binary b) todo h _ =
    let (q, e, h') = binary-Reads b todo h in (q, bind_some _ e refl, h')

pub read_all-Reads :
    (fs : List Field) (p : Packet) (done rest : List ℕ)
    → Reads p done (body_bytes fs) rest
    → All IsField fs
    → read_all (map kind_of fs) p ≡ some fs
unfolding read_all
read_all-Reads [] p done rest h good = refl
read_all-Reads (f ∷ fs) p done rest h good =
    let (q, e, h') = read_field-Reads f (body_bytes fs) h good.0 in
    bind_some _ e (bind_some _ (read_all-Reads fs q (done ++ field_bytes f) rest h' good.1) refl)
