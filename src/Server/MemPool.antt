-- ===== src/Server/MemPool.antt =====
-- `CMemPool` (OrderSyncServer/src/proxy/mempool.cpp, OrderSyncServer/src/include/mempool.h): blocks of
-- memory by size, those that are free and all that the pool has. An address is a number; `address` is
-- the parameter for `new char[]`: where the `n`-th block of all lies. `none` is a failed `assert` or a
-- `front` of an empty list.
pub mod Sizes
pub mod Reuse
use order_sync.Base.{
  ℕ, zero, suc, ◌+◌, ◌-◌, ◌*◌, ◌/◌, ◌^◌, List, [], ◌∷◌, Option, none, some, Bool, true, false, ◌||◌,
  ◌&&◌, not, length, u32, ltb, leb, ◌==◌, if◌then◌else◌, ◌>>=◌,
}

abbrev pub slot_1 : ℕ
slot_1 = 1048576

abbrev pub slot_2 : ℕ
slot_2 = 67108864

abbrev pub alloc_capacity : ℕ
alloc_capacity = 134217728

abbrev pub max_pool_size : ℕ
max_pool_size = 2097152000

abbrev pub max_water_mark : ℕ
max_water_mark = 1073741824

-- The maps from a size to the free blocks, newest first, and to all blocks.
abbrev pub Blocks : Type 0
Blocks = List (ℕ × List ℕ)

pub record MemPool : Type 0 where
  pub free : Blocks
  pub stub : Blocks
  pub allocated_size : ℕ
  pub water_mark : ℕ
  -- how many blocks were made so far
  pub made : ℕ

abbrev pub new : MemPool
new = record { free = []; stub = []; allocated_size = 0; water_mark = max_water_mark; made = 0 }

-- The loop of `fit_block_size`; a size has 32 bits.
unfoldable pub fit_loop : ℕ → ℕ → ℕ → ℕ
fit_loop zero i size = i
fit_loop (suc fuel) i size =
    let rest = fit_loop fuel (i + 1) (size / 2) in if size == 0 then i else rest

-- A size of 2 ^ 31 or more shifts out of the 32 bits, which is undefined.
unfoldable pub fit_block_size : ℕ → ℕ
fit_block_size size = let i = fit_loop 32 10 (size / 1024) in 2 ^ (if ltb i 10 then 10 else i)

unfoldable pub fit_extend_set : ℕ → ℕ
fit_extend_set size =
    if ltb size slot_1 then 128 else if ltb size slot_2 then alloc_capacity / size else 1

unfoldable pub find : ℕ → Blocks → Option (List ℕ)
find size [] = none
find size ((k, l) ∷ m) = let rest = find size m in if k == size then some l else rest

-- The list or set of a size that is in the map becomes another.
set : ℕ → List ℕ → Blocks → Blocks
set size l [] = []
set size l ((k, l') ∷ m) =
    let rest = set size l m in if k == size then (k, l) ∷ m else (k, l') ∷ rest

unfoldable pub mem : ℕ → List ℕ → Bool
mem p [] = false
mem p (q ∷ qs) = (p == q) || mem p qs

erase : ℕ → List ℕ → List ℕ
erase p [] = []
erase p (q ∷ qs) = let rest = erase p qs in if p == q then qs else q ∷ rest

insert : ℕ → List ℕ → List ℕ
unfolding mem
insert p s = if mem p s then s else p ∷ s

-- `release_size` with three arguments: how many free blocks to give back.
unfoldable pub release_count : ℕ → ℕ → ℕ → ℕ → ℕ
release_count water block_size free_count stub_count =
    if ltb (u32 (free_count * block_size)) slot_1
    then 0
    else if ltb slot_2 block_size
    then (if ltb 1 free_count then free_count / 2 else free_count)
    else if leb (stub_count / 2) free_count || leb water (u32 (free_count * block_size))
    then free_count / 2
    else 0

-- `todo` blocks off the front of the free list, and out of the set.
give_back : ℕ → List ℕ → List ℕ → Option (List ℕ × List ℕ)
unfolding erase
give_back zero l s = some (l, s)
give_back (suc todo) [] s = none
give_back (suc todo) (p ∷ l) s = give_back todo l (erase p s)

unfoldable pub release : ℕ → List ℕ → List ℕ → MemPool → Option MemPool
unfolding give_back set
release size l s m =
    let todo = release_count m.water_mark size (length l) (length s) in
    if todo == 0 || ltb m.allocated_size (u32 (size * todo))
    then (if todo == 0 then some m else none)
    else (do
      r ← give_back todo l s
      some (record m {
        free = set size r.0 m.free;
        stub = set size r.1 m.stub;
        allocated_size = m.allocated_size - u32 (size * todo);
      }))

-- False for the result -1, which leaves the pool as it was.
unfoldable pub recycle : ℕ → ℕ → MemPool → Option (Bool × MemPool)
unfolding find mem set release
recycle p size m = elim (find size m.stub) [
  | none ↦ some (false, m)
  | some s ↦ if not (mem p s) then some (false, m) else elim (find size m.free) [
    | none ↦ some (false, m)
    | some l ↦ do
      m' ← release size (p ∷ l) s (record m { free = set size (p ∷ l) m.free })
      some (true, m')
  ]
]

-- `release_size` with one argument: one size after the other, from 2 ^ `k` down to `slot_1` / 2.
purge : ℕ → ℕ → ℕ → MemPool → Option MemPool
unfolding release find
purge last wanted zero m = some m
purge last wanted (suc k) m =
    if leb wanted (last - m.allocated_size) || ltb (2 ^ suc k) slot_1 then some m else (do
      m' ← elim (find (2 ^ k) m.stub) [
        | none ↦ some m
        | some s ↦ elim (find (2 ^ k) m.free) [ none ↦ some m | some l ↦ release (2 ^ k) l s m ]
      ]
      purge last wanted k m')

unfoldable pub release_size : ℕ → MemPool → Option (Bool × MemPool)
unfolding purge
release_size wanted m = do
  m' ← purge m.allocated_size wanted 31 (record m { water_mark = alloc_capacity })
  some
      (leb wanted (m.allocated_size - m'.allocated_size), record m' { water_mark = max_water_mark })

module _ (address : ℕ → ℕ) where
  -- `count` new blocks, each in front of the free list.
  make : ℕ → ℕ → MemPool → MemPool
  unfolding find set insert
  make zero size m = m
  make (suc count) size m =
      let p = address m.made in
      make count size (elim (find size m.free) [
        | none ↦ m
        | some l ↦ elim (find size m.stub) [
          | none ↦ m
          | some s ↦ record m {
            free = set size (p ∷ l) m.free;
            stub = set size (insert p s) m.stub;
            made = m.made + 1;
          }
        ]
      ])

  -- False for the result -1.
  unfoldable pub extend : ℕ → MemPool → Option (Bool × MemPool)
  unfolding make
  extend size m =
      let count = fit_extend_set size in
      let wanted = u32 (m.allocated_size + size * count) in
      do
        r ←
            (if leb max_pool_size wanted
              then release_size (wanted - max_pool_size) m
              else some (true, m))
        some (
            if r.0
            then (
              true,
              record (make count size r.1) {
                allocated_size = u32 (r.1.allocated_size + size * count);
              },
            )
            else (false, r.1))

  unfoldable pub extend_new_size : ℕ → MemPool → Option (Bool × MemPool)
  extend_new_size size m =
      extend size (record m { free = (size, []) ∷ m.free; stub = (size, []) ∷ m.stub })

  -- The first free block of the size, if there is one.
  take_block : ℕ → MemPool → Option ℕ × MemPool
  unfolding find set
  take_block size m = elim (find size m.free) [
    | none ↦ (none, m)
    | some [] ↦ (none, m)
    | some (p ∷ l) ↦ (some p, record m { free = set size l m.free })
  ]

  has_free : ℕ → MemPool → Bool
  unfolding find
  has_free size m = elim (find size m.free) [ none ↦ false | some [] ↦ false | some (p ∷ l) ↦ true ]

  -- The block and its size, or NULL.
  unfoldable pub allocate : ℕ → MemPool → Option (Option (ℕ × ℕ) × MemPool)
  unfolding take_block has_free find
  allocate size m =
      let block_size = fit_block_size size in
      do
        r ← elim (find block_size m.free) [
          | none ↦ extend_new_size block_size m
          | some l ↦ if has_free block_size m then some (true, m) else extend block_size m
        ]
        let t = take_block block_size r.1
        some (if r.0 then (t.0 >>= λ p. some (p, block_size), t.1) else (none, r.1))
