-- ===== src/Client/Packet/Steps.antt =====
-- What each access of the client's packet buffer leaves, from what the buffer holds.
use order_sync.Base.{
  ℕ, ◌+◌, ◌≤◌, ◌<◌, ◌≡◌, refl, ap, List, ◌++◌, some, arith, length, drop, length-append,
  length-drop, append_assoc, u16, bind_some, store-append, store-inside, load-append,
}
use order_sync.Client.Packet.{Packet, poke, peek, put}

pub poke-inside :
    (p : Packet) (before old after bytes : List ℕ) (off : ℕ)
    → p.buf ≡ some (before ++ (old ++ after))
    → off ≡ length before
    → length bytes ≡ length old
    → poke p off bytes ≡ some (record p { buf = some (before ++ (bytes ++ after)) })
unfolding poke
poke-inside p before old after bytes off e o l =
    bind_some _ e (bind_some _ (store-inside _ before old after bytes off refl o l) refl)

pub peek-inside :
    (p : Packet) (before bytes after : List ℕ) (off n : ℕ)
    → p.buf ≡ some (before ++ (bytes ++ after))
    → off ≡ length before
    → n ≡ length bytes
    → peek p off n ≡ some bytes
unfolding peek
peek-inside p before bytes after off n e o l =
    bind_some _ e (load-append _ before bytes after off n refl o l)

pub poke-append :
    (p : Packet) (written slack bytes : List ℕ) (off : ℕ)
    → p.buf ≡ some (written ++ slack)
    → off ≡ length written
    → length bytes ≤ length slack
    → poke p off bytes
      ≡ some (record p { buf = some ((written ++ bytes) ++ drop (length bytes) slack) })
unfolding poke
poke-append p written slack bytes off e o fits =
    bind_some _ e (bind_some _ (store-append _ written slack bytes off refl o fits) refl)

-- The bytes `written` stand before the write position, with `slack` behind it.
pub record Holds (p : Packet) (written slack : List ℕ) : Type 0 where
  pub buf : p.buf ≡ some (written ++ slack)
  pub len : p.len ≡ length written
  pub room : length written + length slack < 65536

-- `len` moves by `k`, at most by what is stored: `write_string` leaves its terminator behind.
pub put-Holds :
    {p : Packet} {written slack : List ℕ} (bytes more : List ℕ) (k : ℕ)
    → Holds p written slack
    → k ≡ length bytes
    → length (bytes ++ more) ≤ length slack
    → (q : Packet) × (put (bytes ++ more) k p ≡ some q)
      × Holds q (written ++ bytes) (more ++ drop (length (bytes ++ more)) slack)
unfolding put
put-Holds {p} {written} {slack} bytes more k h e fits = (
  record p {
    buf = some ((written ++ (bytes ++ more)) ++ drop (length (bytes ++ more)) slack);
    len = u16 (p.len + k);
  },
  bind_some _ (poke-append p written slack (bytes ++ more) p.len h.buf h.len fits) refl,
  record {
    buf = ap some (simp append_assoc);
    len = omega (arith, h.len, h.room, length-append written bytes, length-append bytes more);
    room = omega (
      arith,
      length-append written bytes,
      length-append bytes more,
      length-append more (drop (length (bytes ++ more)) slack),
      length-drop (length (bytes ++ more)) slack,
    );
  },
)
