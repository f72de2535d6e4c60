-- ===== src/Server/GameUnit/Oversized.antt =====
-- A packet that `CGameUnit::process_pkg` takes and its buffer does not hold.
use order_sync.Base.{
  ℕ, suc, ◌+◌, ◌≤◌, ◌<◌, ◌≡◌, refl, ap, Option, none, some, arith, length, ◌>>=◌, le→not_ltb,
  lt→ltb, false, load,
}
use order_sync.Server.Packet.{copy, get_cmd_type}
use order_sync.Server.ClientUnit.{SendOutcome, length_field, blank}
use order_sync.Server.GameUnit.{GameUnit, pass, process_pkg}
use order_sync.Server.GameUnit.Passing.{unread}

-- On a whole packet of more than 8192 bytes, with a length field of at most 10240, `Copy` refuses and
-- leaves the buffer as it was, never set; a read of the command from that buffer is a fault, and so is
-- `process_pkg`, which does not look at `Copy`'s result.
pub process_pkg_oversized :
    (kernel : ℕ → ℕ → SendOutcome) (fuel : ℕ) (g : GameUnit)
    → 8190 < length_field g.link.r
    → length_field g.link.r ≤ 10240
    → 2 + length_field g.link.r ≤ length g.link.r
    → (copy g.link.r (2 + length_field g.link.r) blank ≡ some (false, blank))
      × (get_cmd_type blank ≡ none)
      × (process_pkg kernel (suc fuel) g ≡ none)
unfolding process_pkg pass copy get_cmd_type load
process_pkg_oversized kernel fuel g large taken whole = (
  rw (lt→ltb 8192 (2 + length_field g.link.r) (omega (arith, large))) refl,
  refl,
  rw
      (
        le→not_ltb (length g.link.r) 9 (omega (arith, large, whole)),
        le→not_ltb 10240 (length_field g.link.r) taken,
        le→not_ltb (length g.link.r) (2 + length_field g.link.r) whole,
      )
      (none_first (copy g.link.r (2 + length_field g.link.r) blank) (λ p. get_cmd_type p.1) _ _
        (unread g.link.r (2 + length_field g.link.r) (omega arith))),
)
  where
    none_first :
        {A B C D : Type 0} (m : Option A) (f : A → Option B) (k : A → B → Option C)
        (h : C → Option D)
        → (m >>= f) ≡ none
        → ((m >>= λ a. f a >>= k a) >>= h) ≡ none
    none_first none f k h e = refl
    none_first (some a) f k h e = ap (λ x. (x >>= k a) >>= h) e
