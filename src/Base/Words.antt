-- ===== src/Base/Words.antt =====
-- Fixed-width integers as the bytes of memory. The host is little-endian (x86), so an object of
-- `k` bytes holds `le_bytes k n`; network order is the reverse. A signed integer is its bit pattern.
use Prim.Native.Nat.{ℕ, zero, suc, ◌+◌, ◌*◌, ◌/◌, ◌%◌, ◌^◌, ◌<◌}
use mathlib.Core.Path.{◌≡◌, refl, sym, ap, ap₂, ◌∙◌}
use mathlib.Core.Bool.{Bool}
use mathlib.Core.List.{List, [], ◌∷◌, reverse, reverse-reverse}
use native.Mathlib.Nat.{pow-suc}
use native.Mathlib.Omega.{arith}
use order_sync.Base.Tests.{ltb}
use order_sync.Base.Lists.{length, All, length-reverse, All-reverse}

abbrev pub IsByte : ℕ → Type 0
IsByte b = b < 256

abbrev pub u8 : ℕ → ℕ
u8 n = n % 256

abbrev pub u16 : ℕ → ℕ
u16 n = n % 65536

abbrev pub u32 : ℕ → ℕ
u32 n = n % 4294967296

abbrev pub le_bytes : ℕ → ℕ → List ℕ
le_bytes zero n = []
le_bytes (suc k) n = n % 256 ∷ le_bytes k (n / 256)

abbrev pub of_le : List ℕ → ℕ
of_le [] = 0
of_le (b ∷ bs) = b + 256 * of_le bs

-- `a > b` on `int`, for bit patterns below 2 ^ 32.
abbrev pub int_gt : ℕ → ℕ → Bool
int_gt a b = ltb (u32 (b + 2147483648)) (u32 (a + 2147483648))

pub length-le_bytes : (k n : ℕ) → length (le_bytes k n) ≡ k
length-le_bytes zero n = refl
length-le_bytes (suc k) n = ap suc (length-le_bytes k (n / 256))

pub le_bytes-IsByte : (k n : ℕ) → All IsByte (le_bytes k n)
le_bytes-IsByte zero n = tt
le_bytes-IsByte (suc k) n = (omega arith, le_bytes-IsByte k (n / 256))

pub le_bytes-of_le : (bs : List ℕ) → All IsByte bs → le_bytes (length bs) (of_le bs) ≡ bs
le_bytes-of_le [] h = refl
le_bytes-of_le (b ∷ bs) h =
    ap₂ ◌∷◌ (omega arith) (ap (le_bytes (length bs)) (omega arith) ∙ le_bytes-of_le bs h.1)

pub of_le-le_bytes : (k n : ℕ) → n < 256 ^ k → of_le (le_bytes k n) ≡ n
of_le-le_bytes zero n h = omega arith
of_le-le_bytes (suc k) n h =
    omega (arith, pow-suc 256 k, of_le-le_bytes k (n / 256) (omega (arith, pow-suc 256 k)))

-- `_htonll`, `htons` and `htonl` on an object of `k` bytes: the value whose bytes are reversed.
unfoldable pub swap_bytes : ℕ → ℕ → ℕ
swap_bytes k n = of_le (reverse (le_bytes k n))

-- What memory holds after `d = swap (n); memcpy (p, &d, k)`.
abbrev pub be_bytes : ℕ → ℕ → List ℕ
be_bytes k n = le_bytes k (swap_bytes k n)

pub length-be_bytes : (k n : ℕ) → length (be_bytes k n) ≡ k
length-be_bytes k n = length-le_bytes k (swap_bytes k n)

pub be_bytes-IsByte : (k n : ℕ) → All IsByte (be_bytes k n)
be_bytes-IsByte k n = le_bytes-IsByte k (swap_bytes k n)

le_bytes-of_le_at :
    (k : ℕ) (bs : List ℕ) → k ≡ length bs → All IsByte bs → le_bytes k (of_le bs) ≡ bs
le_bytes-of_le_at k bs e h = ap (λ j. le_bytes j (of_le bs)) e ∙ le_bytes-of_le bs h

-- Network order: the bytes of the number from the highest.
pub be_bytes-eq-reverse : (k n : ℕ) → be_bytes k n ≡ reverse (le_bytes k n)
unfolding swap_bytes
be_bytes-eq-reverse k n =
    le_bytes-of_le_at k (reverse (le_bytes k n))
      (omega (arith, length-reverse (le_bytes k n), length-le_bytes k n))
      (All-reverse IsByte (le_bytes k n) (le_bytes-IsByte k n))

-- Reading an object back and swapping it gives the number that was written.
pub swap_bytes-be_bytes : (k n : ℕ) → n < 256 ^ k → swap_bytes k (of_le (be_bytes k n)) ≡ n
unfolding swap_bytes
swap_bytes-be_bytes k n h =
    ap (λ bs. of_le (reverse bs))
      (le_bytes-of_le_at k (be_bytes k n) (sym (length-be_bytes k n)) (be_bytes-IsByte k n)
        ∙ be_bytes-eq-reverse k n)
    ∙ ap of_le (reverse-reverse (le_bytes k n))
    ∙ of_le-le_bytes k n h
