-- ===== src/Client/Packet/Build.antt =====
-- A packet that the client builds: `begin`, any sequence of writes, `end`. Here the writes.
use order_sync.Base.{
  ℕ, ◌+◌, ◌≤◌, ◌<◌, ◌≡◌, ◌≢◌, refl, sym, ap, ◌∙◌, subst, List, [], ◌∷◌, ◌++◌, Option, some, arith,
  length, take, drop, All, length-append, length-drop, append-nil, append_assoc, le_bytes, be_bytes,
  u32, ◌>>=◌, bind_some,
}
use order_sync.Client.Packet.{
  Packet, put, write_int8, write_uint8, write_int16, write_uint16, write_int, write_uint,
  write_int64, write_uint64, write_string, write_double, c_str,
}
use order_sync.Client.Packet.Steps.{Holds, put-Holds}

-- A value to write; a `double` is what `snprintf` makes of it.
pub data Field : Type 0 where
  int8 uint8 int16 uint16 int32 uint32 int64 uint64 : ℕ → Field
  text double : List ℕ → Field

unfoldable pub write : Field → Packet → Option Packet
write (int8 n) = write_int8 n
write (uint8 n) = write_uint8 n
write (int16 n) = write_int16 n
write (uint16 n) = write_uint16 n
write (int32 n) = write_int n
write (uint32 n) = write_uint n
write (int64 n) = write_int64 n
write (uint64 n) = write_uint64 n
write (text s) = write_string s
write (double s) = write_double s

unfoldable pub write_all : List Field → Packet → Option Packet
write_all [] p = some p
write_all (f ∷ fs) p = do q ← write f p; write_all fs q

-- The bytes of a field on the wire.
abbrev pub field_bytes : Field → List ℕ
field_bytes (int8 n) = le_bytes 1 n
field_bytes (uint8 n) = le_bytes 1 n
field_bytes (int16 n) = be_bytes 2 n
field_bytes (uint16 n) = be_bytes 2 n
field_bytes (int32 n) = be_bytes 4 n
field_bytes (uint32 n) = be_bytes 4 n
field_bytes (int64 n) = be_bytes 8 n
field_bytes (uint64 n) = be_bytes 8 n
field_bytes (text s) = be_bytes 4 (length s) ++ s
field_bytes (double s) = be_bytes 4 (length (take 63 s)) ++ take 63 s

abbrev pub body_bytes : List Field → List ℕ
body_bytes [] = []
body_bytes (f ∷ fs) = field_bytes f ++ body_bytes fs

-- A text with no NUL in it.
abbrev pub IsPlain : Field → Type 0
IsPlain (text s) = All (λ b. b ≢ 0) s
IsPlain (double s) = All (λ b. b ≢ 0) (take 63 s)
IsPlain _ = Unit {0}

c_str_plain : (s : List ℕ) → All (λ b. b ≢ 0) s → c_str s ≡ s
c_str_plain [] h = refl
c_str_plain (b ∷ bs) h = ground (arith, c_str_plain bs h.1)

-- A write leaves the field's bytes behind what was written, if they fit with one byte to spare.
abbrev Wrote : Packet → List ℕ → List ℕ → List ℕ → Option Packet → Type 0
Wrote p written slack bytes r =
    (q : Packet) × (rest : List ℕ) × (r ≡ some q)
    × Holds q (written ++ bytes) rest
    × (length rest + length bytes ≡ length slack)

put-Wrote :
    {p : Packet} {written slack : List ℕ} (bytes : List ℕ) (k : ℕ)
    → Holds p written slack
    → k ≡ length bytes
    → length bytes ≤ length slack
    → Wrote p written slack bytes (put bytes k p)
put-Wrote {p} {written} {slack} bytes k h e fits =
    let (q, done, holds) = put-Holds bytes [] k h e (omega (arith, ap length (append-nil bytes))) in
    (
      q,
      drop (length (bytes ++ [])) slack,
      ap (λ b. put b k p) (sym (append-nil bytes)) ∙ done,
      holds,
      omega (arith, length-drop (length (bytes ++ [])) slack, ap length (append-nil bytes)),
    )

unfoldable put_text : List ℕ → ℕ → Packet → Option Packet
put_text s n p = put (be_bytes 4 n) 4 p >>= λ q. put (c_str s ++ (0 ∷ [])) n q

put_text-Wrote :
    (s : List ℕ) {p : Packet} {written slack : List ℕ}
    → All (λ b. b ≢ 0) s
    → Holds p written slack
    → length s + 4 < length slack
    → Wrote p written slack (be_bytes 4 (length s) ++ s) (put_text s (length s) p)
unfolding put_text
put_text-Wrote s {p} {written} {slack} plain h fits =
    let prefix : List ℕ = be_bytes 4 (length s) in
    let (q, rest, done, holds, left) = put-Wrote prefix 4 h refl (omega arith) in
    let more : length (s ++ (0 ∷ [])) ≡ length s + 1 = length-append s (0 ∷ []) in
    let (r, done', holds') = put-Holds s (0 ∷ []) (length s) holds refl (omega arith) in
    (
      r,
      0 ∷ drop (length (s ++ (0 ∷ []))) rest,
      bind_some _ done (ap (λ t. put (t ++ (0 ∷ [])) (length s) q) (c_str_plain s plain) ∙ done'),
      subst (λ w. Holds r w (0 ∷ drop (length (s ++ (0 ∷ []))) rest))
          (append_assoc written prefix s) holds',
      omega (arith, length-drop (length (s ++ (0 ∷ []))) rest),
    )

write_string-Wrote :
    (s : List ℕ) {p : Packet} {written slack : List ℕ}
    → All (λ b. b ≢ 0) s
    → Holds p written slack
    → length s + 4 < length slack
    → Wrote p written slack (be_bytes 4 (length s) ++ s) (write_string s p)
unfolding write_string write_uint put_text
write_string-Wrote s {p} {written} {slack} plain h fits =
    let e : length s ≡ u32 (length s) = omega (arith, h.room) in
    subst (Wrote p written slack (be_bytes 4 (length s) ++ s)) (ap (λ n. put_text s n p) e)
      (put_text-Wrote s plain h fits)

write-Wrote :
    (f : Field) {p : Packet} {written slack : List ℕ}
    → IsPlain f
    → Holds p written slack
    → length (field_bytes f) < length slack
    → Wrote p written slack (field_bytes f) (write f p)
unfolding write write_int8 write_uint8 write_int16 write_uint16 write_int write_uint write_int64
    write_uint64 write_double
write-Wrote (int8 n) plain h fits = put-Wrote (le_bytes 1 n) 1 h refl (omega arith)
write-Wrote (uint8 n) plain h fits = put-Wrote (le_bytes 1 n) 1 h refl (omega arith)
write-Wrote (int16 n) plain h fits = put-Wrote (be_bytes 2 n) 2 h refl (omega arith)
write-Wrote (uint16 n) plain h fits = put-Wrote (be_bytes 2 n) 2 h refl (omega arith)
write-Wrote (int32 n) plain h fits = put-Wrote (be_bytes 4 n) 4 h refl (omega arith)
write-Wrote (uint32 n) plain h fits = put-Wrote (be_bytes 4 n) 4 h refl (omega arith)
write-Wrote (int64 n) plain h fits = put-Wrote (be_bytes 8 n) 8 h refl (omega arith)
write-Wrote (uint64 n) plain h fits = put-Wrote (be_bytes 8 n) 8 h refl (omega arith)
write-Wrote (text s) plain h fits = write_string-Wrote s plain h (omega arith)
write-Wrote (double s) plain h fits = write_string-Wrote (take 63 s) plain h (omega arith)

pub write_all-Wrote :
    (fs : List Field) {p : Packet} {written slack : List ℕ}
    → All IsPlain fs
    → Holds p written slack
    → length (body_bytes fs) < length slack
    → Wrote p written slack (body_bytes fs) (write_all fs p)
unfolding write_all
write_all-Wrote [] {p} {written} {slack} plain h fits =
    (p, slack, refl, subst (λ w. Holds p w slack) (sym (append-nil written)) h, omega arith)
write_all-Wrote (f ∷ fs) {p} {written} {slack} plain h fits =
    let size : length (body_bytes (f ∷ fs)) ≡ length (field_bytes f) + length (body_bytes fs) =
      length-append (field_bytes f) (body_bytes fs) in
    let (q, rest, done, holds, left) = write-Wrote f plain.0 h (omega arith) in
    let (r, rest', done', holds', left') = write_all-Wrote fs plain.1 holds (omega arith) in
    (
      r,
      rest',
      bind_some _ done done',
      subst (λ w. Holds r w rest') (append_assoc written (field_bytes f) (body_bytes fs)) holds',
      omega arith,
    )
