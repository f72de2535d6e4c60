-- ===== src/Server/Packet/Fields/Writing.antt =====
-- What the writes of a server packet leave in it.
use order_sync.Base.{
  ℕ, ◌+◌, ◌≤◌, ◌<◌, ◌≡◌, refl, sym, ap, ◌∙◌, List, [], ◌∷◌, ◌++◌, Option, some, Bool, true, arith,
  length, drop, le_bytes, be_bytes, bind_some, length-append, length-drop, append_assoc, append-nil,
  store-append, le→not_ltb, ◌>>=◌,
}
use order_sync.Server.Packet.{Packet, write, write_int, write_ulong, write_byte}
use order_sync.Server.Packet.Fields.{
  and_zero, write_text, write_short, write_string, write_binary, write_zero,
}
use order_sync.Server.Packet.Fields.Kinds.{
  Field, write_field, write_all, field_bytes, body_bytes, int, ulong, byte, short, text, binary,
}

-- What a packet that is being filled holds.
pub record Holds (p : Packet) (written slack : List ℕ) : Type 0 where
  pub buf : p.buf ≡ written ++ slack
  pub size : p.size ≡ length written
  pub room : length written + length slack ≡ 8192

-- A write leaves its bytes behind what was written.
abbrev Wrote : List ℕ → List ℕ → Option (Bool × Packet) → Type 0
Wrote written bytes r =
    (ok : Bool) × (q : Packet) × (slack : List ℕ) × (r ≡ some (ok, q))
    × (ok ≡ true)
    × Holds q (written ++ bytes) slack

write-Wrote :
    {p : Packet} {written slack : List ℕ} (bytes : List ℕ) (k : ℕ)
    → Holds p written slack
    → k ≡ length bytes
    → length bytes ≤ length slack
    → Wrote written bytes (write bytes k p)
unfolding write
write-Wrote {p} {written} {slack} bytes k h e fits =
    let done = store-append p.buf written slack bytes p.size h.buf h.size fits in
    (
      true,
      record p { buf = (written ++ bytes) ++ drop (length bytes) slack; size = p.size + k },
      drop (length bytes) slack,
      rw (le→not_ltb 8192 (k + p.size) (omega (arith, h.size, h.room)))
          (bind_some _ (bind_some _ done refl) refl),
      refl,
      record {
        buf = refl;
        size = omega (arith, h.size, length-append written bytes);
        room = omega (arith, h.room, length-append written bytes, length-drop (length bytes) slack);
      },
    )

write_zero-Wrote :
    {p : Packet} {written slack : List ℕ}
    → Holds p written slack
    → 0 < length slack
    → Wrote written (0 ∷ []) (write_zero p)
unfolding write_zero
write_zero-Wrote {p} {written} {slack} h fits =
    let done = store-append p.buf written slack (0 ∷ []) p.size h.buf h.size fits in
    (
      true,
      record p { buf = (written ++ (0 ∷ [])) ++ drop 1 slack; size = p.size + 1 },
      drop 1 slack,
      rw (le→not_ltb 8192 (p.size + 1) (omega (arith, h.size, h.room)))
          (bind_some _ (bind_some _ done refl) refl),
      refl,
      record {
        buf = refl;
        size = omega (arith, h.size, length-append written (0 ∷ []));
        room = omega (arith, h.room, length-append written (0 ∷ []), length-drop 1 slack);
      },
    )

-- One write after another, whose result counts.
then-Wrote :
    (written first second : List ℕ) (r : Option (Bool × Packet))
    (f : Bool × Packet → Option (Bool × Packet))
    → Wrote written first r
    → ((q : Packet) (slack : List ℕ)
        → Holds q (written ++ first) slack
        → Wrote (written ++ first) second (f (true, q)))
    → Wrote written (first ++ second) (r >>= f)
then-Wrote written first second r f (ok, q, slack, done, good, h) next =
    let (ok', q', slack', done', good', h') = next q slack h in
    (
      ok',
      q',
      slack',
      bind_some _ (done ∙ ap (λ b. some (b, q)) good) done',
      good',
      record {
        buf = h'.buf ∙ ap (λ b. b ++ slack') (append_assoc written first second);
        size = h'.size ∙ ap length (append_assoc written first second);
        room =
            ap (λ b. length b + length slack') (sym (append_assoc written first second)) ∙ h'.room;
      },
    )

write_string-Wrote :
    {p : Packet} {written slack : List ℕ} (s : List ℕ)
    → Holds p written slack
    → length (field_bytes (text s)) ≤ length slack
    → Wrote written (field_bytes (text s)) (write_string s p)
unfolding write_string write_text write_int and_zero
write_string-Wrote {p} {written} {slack} [] h fits =
    then-Wrote written (be_bytes 4 1) (0 ∷ []) (write_int 1 p) (λ r. write_zero r.1)
      (write-Wrote (be_bytes 4 1) 4 h refl (omega arith))
      λ q slack' h'.
        write_zero-Wrote h' (omega (arith, h.room, h'.room, length-append written (be_bytes 4 1)))
write_string-Wrote {p} {written} {slack} (c ∷ s) h fits =
    let t : List ℕ = c ∷ s in
    let size : length (t ++ (0 ∷ [])) ≡ length t + 1 = length-append t (0 ∷ []) in
    then-Wrote written (be_bytes 4 (length t + 1)) (t ++ (0 ∷ [])) (write_int (length t + 1) p) _
      (write-Wrote (be_bytes 4 (length t + 1)) 4 h refl (omega arith))
      λ q slack' h'.
        let room = length-append written (be_bytes 4 (length t + 1)) in
        then-Wrote (written ++ be_bytes 4 (length t + 1)) t (0 ∷ []) (write t (length t) q) _
          (write-Wrote t (length t) h' refl (omega (arith, h.room, h'.room, room, size)))
          λ q' slack₂ h₂. write_zero-Wrote h₂ (
            omega (
              arith,
              h.room,
              h₂.room,
              room,
              size,
              length-append (written ++ be_bytes 4 (length t + 1)) t,
            ))

write_field-Wrote :
    {p : Packet} {written slack : List ℕ} (f : Field)
    → Holds p written slack
    → length (field_bytes f) ≤ length slack
    → Wrote written (field_bytes f) (write_field f p)
unfolding write_field write_int write_ulong write_byte write_short write_binary
write_field-Wrote (int n) h fits = write-Wrote (be_bytes 4 n) 4 h refl fits
write_field-Wrote (ulong n) h fits = write-Wrote (be_bytes 8 n) 8 h refl fits
write_field-Wrote (byte n) h fits = write-Wrote (le_bytes 1 n) 1 h refl fits
write_field-Wrote (short n) h fits = write-Wrote (be_bytes 2 n) 2 h refl fits
write_field-Wrote (text s) h fits = write_string-Wrote s h fits
write_field-Wrote {p} {written} (binary b) h fits =
    then-Wrote written (be_bytes 4 (length b)) b (write_int (length b) p) _
      (write-Wrote (be_bytes 4 (length b)) 4 h refl (omega (arith, fits)))
      λ q slack' h'.
        write-Wrote b (length b) h' refl
          (omega (arith, h.room, h'.room, fits, length-append written (be_bytes 4 (length b))))

pub write_all-Holds :
    (fs : List Field) (p : Packet) (written slack : List ℕ)
    → Holds p written slack
    → length (body_bytes fs) ≤ length slack
    → (q : Packet) × (slack' : List ℕ) × (write_all fs p ≡ some q)
      × Holds q (written ++ body_bytes fs) slack'
unfolding write_all
write_all-Holds [] p written slack h fits = (
  p,
  slack,
  refl,
  record {
    buf = h.buf ∙ ap (λ b. b ++ slack) (sym (append-nil written));
    size = h.size ∙ ap length (sym (append-nil written));
    room = ap (λ b. length b + length slack) (append-nil written) ∙ h.room;
  },
)
write_all-Holds (f ∷ fs) p written slack h fits =
    let size = length-append (field_bytes f) (body_bytes fs) in
    let (ok, q, slack', done, good, h') = write_field-Wrote f h (omega (arith, fits, size)) in
    let (v, last, all_done, h₂) =
      write_all-Holds fs q (written ++ field_bytes f) slack' h'
        (omega (arith, fits, size, h.room, h'.room, length-append written (field_bytes f))) in
    let same = append_assoc written (field_bytes f) (body_bytes fs) in
    (
      v,
      last,
      bind_some _ done all_done,
      record {
        buf = h₂.buf ∙ ap (λ b. b ++ last) same;
        size = h₂.size ∙ ap length same;
        room = ap (λ b. length b + length last) (sym same) ∙ h₂.room;
      },
    )
