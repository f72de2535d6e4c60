-- ===== src/Server/RawCache.antt =====
-- `CRawCache` (OrderSyncServer/src/proxy/cache.cpp, OrderSyncServer/src/include/cache.h): the queue of
-- bytes behind a connection's `_r` and `_w`, whose blocks come from and go back to the `CMemPool` of
-- MemPool. `none` is an access outside the cache's block, or a failed `assert` of the cache. `address`
-- says where `new char[]` puts the pool's blocks, `contents` what the memory of an address and a size
-- holds when the pool hands it out.
pub mod Append
pub mod Refine
use order_sync.Base.{
  ℕ, ◌+◌, ◌-◌, ◌≤◌, ◌<◌, ◌^◌, ◌≡◌, List, [], ◌∷◌, Option, none, some, length, u32, leb, ltb, ◌==◌,
  if◌then◌else◌, ◌>>=◌, store, load,
}
use order_sync.Server.MemPool.{MemPool, allocate, recycle}

pub record Cache : Type 0 where
  -- the block's address and what is in it
  pub mem : Option (ℕ × List ℕ)
  pub block_size : ℕ
  pub data_head : ℕ
  pub data_len : ℕ

-- How a call ends: well, in the `throw(0)` where the pool, in this state, has no block of a size, or in
-- an assertion of the pool's that fails, on a call of `allocate` or of `recycle`.
pub data Called : Type 0 where
  kept : Cache → MemPool → Called
  thrown stopped : ℕ → MemPool → Called
  not_recycled : ℕ → ℕ → MemPool → Called

abbrev pub new : Cache
new = record { mem = none; block_size = 0; data_head = 0; data_len = 0 }

-- `data`: an offset into the block, or NULL.
unfoldable pub data_at : Cache → Option (Option ℕ)
data_at c =
    if c.data_len == 0
    then some none
    else if ltb c.data_head c.block_size
    then some (some c.data_head)
    else none

-- `_mp.recycle (_mem, _block_size)`, whose result is not looked at.
unfoldable pub give_back : ℕ → ℕ → Cache → MemPool → Called
give_back at size c m = elim (recycle at size m) [
  | none ↦ not_recycled at size m
  | some r ↦ kept c r.1
]

unfoldable pub skip : ℕ → Cache → MemPool → Called
unfolding give_back
skip n c m = elim c.mem [
  | none ↦ kept c m
  | some (at, block) ↦
      if leb c.data_len n
      then give_back at c.block_size new m
      else kept (record c { data_head = u32 (c.data_head + n); data_len = c.data_len - n }) m
]

module _ (address : ℕ → ℕ) (contents : ℕ → ℕ → List ℕ) where
  -- A new block of the pool's for `n` bytes, if it gives one.
  unfoldable pub with_block : ℕ → MemPool → (ℕ → ℕ → MemPool → Option Called) → Option Called
  with_block n m fill = elim (allocate address n m) [
    | none ↦ some (stopped n m)
    | some (none, _) ↦ some (thrown n m)
    | some (some (at, size), m') ↦ fill at size m'
  ]

  -- The first block.
  unfoldable pub append_first : List ℕ → Cache → ℕ → ℕ → MemPool → Option Called
  append_first bytes c at size m = do
    block ← store (contents at size) 0 bytes
    some (
        kept
          (record c {
            mem = some (at, block);
            block_size = size;
            data_head = 0;
            data_len = length bytes;
          })
          m)

  -- A larger block, in place of the old one.
  unfoldable pub append_larger : ℕ → List ℕ → List ℕ → Cache → ℕ → ℕ → MemPool → Option Called
  unfolding give_back
  append_larger old_at old bytes c at size m = do
    held ← load old c.data_head c.data_len
    block ← store (contents at size) 0 held
    block' ← store block c.data_len bytes
    some (
        give_back old_at c.block_size
          (record {
            mem = some (at, block');
            block_size = size;
            data_head = 0;
            data_len = u32 (c.data_len + length bytes);
          })
          m)

  -- Behind what is in the block.
  unfoldable pub append_to : ℕ → List ℕ → List ℕ → Cache → MemPool → Option Called
  unfolding with_block append_larger
  append_to at old bytes c m =
      if leb (u32 (length bytes + c.data_head + c.data_len)) c.block_size
      then (do
        block ← store old (c.data_head + c.data_len) bytes
        some (
            kept (record c { mem = some (at, block); data_len = u32 (c.data_len + length bytes) })
              m))
      else if ltb c.block_size (u32 (length bytes + c.data_len))
      then with_block (u32 (length bytes + c.data_len)) m (append_larger at old bytes c)
      else (do
        held ← load old c.data_head c.data_len
        block ← store old 0 held
        block' ← store block c.data_len bytes
        some (
            kept
              (record c {
                mem = some (at, block');
                data_head = 0;
                data_len = u32 (c.data_len + length bytes);
              })
              m))

  unfoldable pub append : List ℕ → Cache → MemPool → Option Called
  unfolding with_block append_first append_to
  append bytes c m = elim c.mem [
    | none ↦ with_block (length bytes) m (append_first bytes c)
    | some (at, old) ↦ append_to at old bytes c m
  ]
