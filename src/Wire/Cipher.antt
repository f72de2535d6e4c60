-- ===== src/Wire/Cipher.antt =====
-- The loops over a packet's body that substitute its bytes and keep its check code: those of
-- `packet_t::encode` and `decode` (OrderSyncClient/src/packet.cc), which `EncryptBuffer` and
-- `DecryptBuffer` (OrderSyncServer/src/proxy/EncryptDecrypt.cpp) repeat over their own tables.
-- The list is the body; `code` is an `unsigned char`.
use order_sync.Base.{
  ℕ, zero, suc, ◌+◌, ◌-◌, ◌<◌, ◌≡◌, refl, ap, ap₂, ◌∙◌, sym, ◌≢◌, ◌++◌, map-append, List, [], ◌∷◌,
  map, arith, get_or, All, length, IsByte, u8, Bool, true, ◌==◌, if◌then◌else◌, false,
}

abbrev pub at : List ℕ → ℕ → ℕ
at table b = get_or table b 0

unfoldable pub encode_loop : List ℕ → ℕ → List ℕ → ℕ × List ℕ
encode_loop table code [] = (code, [])
encode_loop table code (b ∷ bs) =
    let (c, out) = encode_loop table (u8 (code + b)) bs in (c, at table b ∷ out)

unfoldable pub decode_loop : List ℕ → ℕ → List ℕ → ℕ × List ℕ
decode_loop table code [] = (code, [])
decode_loop table code (b ∷ bs) =
    let (c, out) = decode_loop table (u8 (code + at table b)) bs in (c, at table b ∷ out)

-- `~code + 1`, as an `unsigned char`.
abbrev pub negate : ℕ → ℕ
negate code = u8 (255 - code + 1)

abbrev pub sum : List ℕ → ℕ
sum [] = 0
sum (b ∷ bs) = b + sum bs

unfoldable pub encode_loop_code :
    (t : List ℕ) (c : ℕ) (bs : List ℕ) → c < 256 → (encode_loop t c bs).0 ≡ u8 (c + sum bs)
unfolding encode_loop
encode_loop_code t c [] h = omega arith
encode_loop_code t c (b ∷ bs) h = omega (arith, encode_loop_code t (u8 (c + b)) bs (omega arith))

unfoldable pub encode_loop_out :
    (t : List ℕ) (c : ℕ) (bs : List ℕ) → (encode_loop t c bs).1 ≡ map (at t) bs
unfolding encode_loop
encode_loop_out t c [] = refl
encode_loop_out t c (b ∷ bs) = ap (◌∷◌ (at t b)) (encode_loop_out t (u8 (c + b)) bs)

unfoldable pub decode_loop_code :
    (t : List ℕ) (c : ℕ) (bs : List ℕ)
    → c < 256
    → (decode_loop t c bs).0 ≡ u8 (c + sum (map (at t) bs))
unfolding decode_loop
decode_loop_code t c [] h = omega arith
decode_loop_code t c (b ∷ bs) h =
    omega (arith, decode_loop_code t (u8 (c + at t b)) bs (omega arith))

unfoldable pub decode_loop_out :
    (t : List ℕ) (c : ℕ) (bs : List ℕ) → (decode_loop t c bs).1 ≡ map (at t) bs
unfolding decode_loop
decode_loop_out t c [] = refl
decode_loop_out t c (b ∷ bs) = ap (◌∷◌ (at t b)) (decode_loop_out t (u8 (c + at t b)) bs)

pub length-decode_loop :
    (t : List ℕ) (c : ℕ) (bs : List ℕ) → length (decode_loop t c bs).1 ≡ length bs
unfolding decode_loop
length-decode_loop t c [] = refl
length-decode_loop t c (b ∷ bs) = omega (arith, length-decode_loop t (u8 (c + at t b)) bs)

pub length-encode_loop :
    (t : List ℕ) (c : ℕ) (bs : List ℕ) → length (encode_loop t c bs).1 ≡ length bs
unfolding encode_loop
length-encode_loop t c [] = refl
length-encode_loop t c (b ∷ bs) = omega (arith, length-encode_loop t (u8 (c + b)) bs)

-- Two tables of which the second undoes the first on bytes.
abbrev pub Inverse : List ℕ → List ℕ → Type 0
Inverse e d = (b : ℕ) → IsByte b → at d (at e b) ≡ b

pub map-map-Inverse :
    (e d : List ℕ) → Inverse e d → (bs : List ℕ) → All IsByte bs → map (at d) (map (at e) bs) ≡ bs
map-map-Inverse e d inv [] h = refl
map-map-Inverse e d inv (b ∷ bs) h = ap₂ ◌∷◌ (inv b h.0) (map-map-Inverse e d inv bs h.1)

pub pair_eq {ℓ κ} :
    {A : Type ℓ} {B : Type κ} (p : A × B) {a : A} {b : B} → p.0 ≡ a → p.1 ≡ b → p ≡ (a, b)
pair_eq p e f = λ i. (e i, f i)

-- Decoding the encoded body, from the check code that the encoder leaves, gives the body and 0.
unfoldable pub decode_loop-encode_loop :
    (e d : List ℕ)
    → Inverse e d
    → (bs : List ℕ) → All IsByte bs
    → decode_loop d (negate (encode_loop e 0 bs).0) (encode_loop e 0 bs).1 ≡ (0, bs)
decode_loop-encode_loop e d inv bs h =
    let out = encode_loop e 0 bs in
    let body : map (at d) out.1 ≡ bs =
      ap (map (at d)) (encode_loop_out e 0 bs) ∙ map-map-Inverse e d inv bs h in
    pair_eq (decode_loop d (negate out.0) out.1)
      (omega (
        arith,
        decode_loop_code d (negate out.0) out.1 (omega arith),
        encode_loop_code e 0 bs (omega arith),
        ap sum body,
      ))
      (decode_loop_out d (negate out.0) out.1 ∙ body)

-- So of the sum and the substituted body that a frame holds.
unfoldable pub decode_loop-frame :
    (e d : List ℕ)
    → Inverse e d
    → (bs : List ℕ) → All IsByte bs
    → decode_loop d (negate (u8 (sum bs))) (map (at e) bs) ≡ (0, bs)
decode_loop-frame e d inv bs h =
    ap₂ (λ c out. decode_loop d (negate c) out) (omega (arith, encode_loop_code e 0 bs))
      (sym (encode_loop_out e 0 bs))
    ∙ decode_loop-encode_loop e d inv bs h

-- A check of the bytes below `top`, the highest first.
undone_to : List ℕ → List ℕ → ℕ → Bool
undone_to e d zero = true
undone_to e d (suc top) =
    let rest = undone_to e d top in if at d (at e top) == top then rest else false

undone_to-at : (e d : List ℕ) (top b : ℕ) → b < top → undone_to e d top ≡ true → at d (at e b) ≡ b
unfolding undone_to
undone_to-at e d zero b lt h = absurd (omega arith)
undone_to-at e d (suc top) b lt h = ground (arith, undone_to-at e d top b)

unfoldable pub undoes : List ℕ → List ℕ → Bool
unfolding undone_to
undoes e d = undone_to e d 256

pub undoes-Inverse : (e d : List ℕ) → undoes e d ≡ true → Inverse e d
unfolding undoes
undoes-Inverse e d h b lt = undone_to-at e d 256 b lt h

-- Tables whose entries are bytes, the value out of range included.
abbrev pub IsTable : List ℕ → Type 0
IsTable = All IsByte

pub at-IsByte : (t : List ℕ) (b : ℕ) → IsTable t → IsByte (at t b)
at-IsByte [] b h = omega arith
at-IsByte (x ∷ t) zero h = h.0
at-IsByte (x ∷ t) (suc b) h = at-IsByte t b h.1

pub sum-append : (xs ys : List ℕ) → sum (xs ++ ys) ≡ sum xs + sum ys
sum-append [] ys = omega arith
sum-append (x ∷ xs) ys = omega (arith, sum-append xs ys)

-- One byte of the substituted body changed to another byte: the check code no longer comes to 0.
unfoldable pub decode_loop_corrupted :
    (e d : List ℕ)
    → Inverse e d
    → Inverse d e
    → IsTable d
    → (bs before after : List ℕ) (x y : ℕ) → All IsByte bs
    → map (at e) bs ≡ before ++ (x ∷ after)
    → IsByte x
    → IsByte y
    → x ≢ y
    → (decode_loop d (negate (u8 (sum bs))) (before ++ (y ∷ after))).0 ≢ 0
decode_loop_corrupted e d inv back table bs before after x y h split hx hy ne zero_code = ne (
    sym (back x hx)
    ∙ ap (at e) (
        omega (
          arith,
          zero_code,
          decode_loop_code d (negate (u8 (sum bs))) (before ++ (y ∷ after)) (omega arith),
          ap sum (sym (map-map-Inverse e d inv bs h) ∙ ap (map (at d)) split),
          ap sum (map-append (at d) before (x ∷ after)),
          ap sum (map-append (at d) before (y ∷ after)),
          sum-append (map (at d) before) (at d x ∷ map (at d) after),
          sum-append (map (at d) before) (at d y ∷ map (at d) after),
          at-IsByte d x table,
          at-IsByte d y table,
        ))
    ∙ back y hy)
