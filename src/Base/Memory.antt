-- ===== src/Base/Memory.antt =====
-- Blocks of bytes, and reads and writes that fault outside the block. A value of the type `Option`
-- is a computation that may fault: `none` is an access outside the object, or through NULL.
use Prim.Native.Nat.{ℕ, ◌+◌, ◌≤◌, ◌<◌}
use mathlib.Core.Path.{◌≡◌, refl, sym, ap}
use mathlib.Core.List.{List, ◌++◌, append_assoc}
use mathlib.Core.Option.{Option, none, some}
use native.Mathlib.Omega.{arith}
use order_sync.Base.Tests.{leb, le→leb, lt→not_leb, if◌then◌else◌}
use order_sync.Base.Lists.{
  length, take, drop, length-append, length-take, length-drop, take-append, drop-append, drop-drop,
}

infixl 5 ◌>>=◌
abbrev pub ◌>>=◌ {ℓ κ} : {A : Type ℓ} {B : Type κ} → Option A → (A → Option B) → Option B
none >>= f = none
some a >>= f = f a

-- `memcpy (buf + off, bytes, n)` into a block.
unfoldable pub store : List ℕ → ℕ → List ℕ → Option (List ℕ)
store buf off bytes =
    if leb (off + length bytes) (length buf)
    then some (take off buf ++ (bytes ++ drop (off + length bytes) buf))
    else none

-- A step that succeeds, and the rest.
pub bind_some {ℓ κ} :
    {A : Type ℓ} {B : Type κ} {m : Option A} (f : A → Option B) {a : A} {r : Option B}
    → m ≡ some a
    → f a ≡ r
    → (m >>= f) ≡ r
bind_some f e h = rw e h

-- The `n` bytes from `buf + off` on.
unfoldable pub load : List ℕ → ℕ → ℕ → Option (List ℕ)
load buf off n = if leb (off + n) (length buf) then some (take n (drop off buf)) else none

-- A write at the end of what is written, with room behind it.
pub store-append :
    (buf written slack bytes : List ℕ) (off : ℕ)
    → buf ≡ written ++ slack
    → off ≡ length written
    → length bytes ≤ length slack
    → store buf off bytes ≡ some ((written ++ bytes) ++ drop (length bytes) slack)
unfolding store
store-append buf written slack bytes off e o room =
    rw
      (
        e,
        le→leb (off + length bytes) (length (written ++ slack))
            (omega (arith, length-append written slack)),
        take-append off written slack o,
        ← drop-drop (length bytes) off (written ++ slack),
        drop-append off written slack o,
      )
      (ap some (sym (append_assoc written bytes (drop (length bytes) slack))))

pub load-append :
    (buf before bytes after : List ℕ) (off n : ℕ)
    → buf ≡ before ++ (bytes ++ after)
    → off ≡ length before
    → n ≡ length bytes
    → load buf off n ≡ some bytes
unfolding load
load-append buf before bytes after off n e o l = rw (
  e,
  le→leb (off + n) (length (before ++ (bytes ++ after)))
      (omega (arith, length-append before (bytes ++ after), length-append bytes after)),
  drop-append off before (bytes ++ after) o,
  take-append n bytes after l,
)

-- A write over as many bytes, in the middle of a block.
pub store-inside :
    (buf before old after bytes : List ℕ) (off : ℕ)
    → buf ≡ before ++ (old ++ after)
    → off ≡ length before
    → length bytes ≡ length old
    → store buf off bytes ≡ some (before ++ (bytes ++ after))
unfolding store
store-inside buf before old after bytes off e o l = rw (
  e,
  le→leb (off + length bytes) (length (before ++ (old ++ after)))
      (omega (arith, length-append before (old ++ after), length-append old after)),
  take-append off before (old ++ after) o,
  ← drop-drop (length bytes) off (before ++ (old ++ after)),
  drop-append off before (old ++ after) o,
  drop-append (length bytes) old after l,
)

pub store_outside :
    (buf bytes : List ℕ) (off : ℕ) → length buf < off + length bytes → store buf off bytes ≡ none
unfolding store
store_outside buf bytes off h = rw (lt→not_leb (off + length bytes) (length buf) h)

pub load_outside : (buf : List ℕ) (off n : ℕ) → length buf < off + n → load buf off n ≡ none
unfolding load
load_outside buf off n h = rw (lt→not_leb (off + n) (length buf) h)

pub load_inside :
    (buf : List ℕ) (off n : ℕ)
    → off + n ≤ length buf
    → load buf off n ≡ some (take n (drop off buf))
unfolding load
load_inside buf off n h = rw (le→leb (off + n) (length buf) h)

pub store_inside :
    (buf bytes : List ℕ) (off : ℕ)
    → off + length bytes ≤ length buf
    → (out : List ℕ) × (store buf off bytes ≡ some out)
unfolding store
store_inside buf bytes off h = (
  take off buf ++ (bytes ++ drop (off + length bytes) buf),
  rw (le→leb (off + length bytes) (length buf) h) refl,
)

-- A write keeps the size of the block.
pub length-store :
    (buf bytes out : List ℕ) (off : ℕ) → store buf off bytes ≡ some out → length out ≡ length buf
unfolding store
length-store buf bytes out off e = ground (
  arith,
  e,
  length-append (take off buf) (bytes ++ drop (off + length bytes) buf),
  length-append bytes (drop (off + length bytes) buf),
  length-take off buf,
  length-drop (off + length bytes) buf,
)

-- A chain that succeeds has a first step that does.
pub bind_inv {ℓ κ} :
    {A : Type ℓ} {B : Type κ} (m : Option A) (f : A → Option B) (b : B)
    → (m >>= f) ≡ some b
    → (a : A) × (m ≡ some a) × (f a ≡ some b)
bind_inv none f b e = cc
bind_inv (some a) f b e = (a, refl, e)
