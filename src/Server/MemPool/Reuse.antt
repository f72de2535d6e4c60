-- ===== src/Server/MemPool/Reuse.antt =====
-- A block's way back to the pool and out again.
use order_sync.Base.{ℕ, ◌≡◌, List, [], ◌∷◌, some, true, arith, length}
use order_sync.Server.MemPool.{
  MemPool, Blocks, find, set, mem, release_count, release, recycle, fit_block_size, take_block,
  has_free, allocate,
}

find-set :
    (size : ℕ) (l l' : List ℕ) (m : Blocks)
    → find size m ≡ some l'
    → find size (set size l m) ≡ some l
unfolding find set
find-set size l l' [] e = ground (arith, e)
find-set size l l' ((k, x) ∷ m) e = ground (arith, find-set size l l' m, e)

-- A block of the pool's, of the size for which `size` bytes are asked, goes back to the pool, which
-- keeps it; then those `size` bytes come in that block.
pub allocate-recycle :
    (address : ℕ → ℕ) (p size : ℕ) (s l : List ℕ) (m : MemPool)
    → find (fit_block_size size) m.stub ≡ some s
    → find (fit_block_size size) m.free ≡ some l
    → mem p s ≡ true
    → release_count m.water_mark (fit_block_size size) (length (p ∷ l)) (length s) ≡ 0
    → (m' : MemPool) × (m'' : MemPool) × (recycle p (fit_block_size size) m ≡ some (true, m'))
      × (allocate address size m' ≡ some (some (p, fit_block_size size), m''))
      × (find (fit_block_size size) m''.free ≡ some l)
unfolding recycle release allocate take_block has_free
allocate-recycle address p size s l m in_stub in_free known keeps =
    let b : ℕ = fit_block_size size in
    let m' : MemPool = record m { free = set b (p ∷ l) m.free } in
    let found : find b m'.free ≡ some (p ∷ l) = find-set b (p ∷ l) l m.free in_free in
    (
      m',
      record m' { free = set b l m'.free },
      ground (arith, in_stub, in_free, known, keeps),
      ground (arith, found),
      find-set b l (p ∷ l) m'.free found,
    )
