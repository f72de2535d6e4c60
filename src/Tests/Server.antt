-- ===== src/Tests/Server.antt =====
-- Runs of the server's caches, timers and pool, and of the repair of a statement.
use order_sync.Base.{
  ◌+◌, ◌-◌, ◌*◌, ◌≤◌, ◌^◌, ℕ, ◌<◌, ◌≡◌, ◌⊎◌, refl, List, [], ◌∷◌, ◌++◌, some, true, arith, All,
  replicate, length-replicate,
}
use order_sync.Db.Repair.{repair_sql, column_text, value_text, repair_sql_lem}
use order_sync.Server.MemPool
use order_sync.Server.MemPool.{MemPool, fit_block_size, fit_loop, recycle, allocate}
use order_sync.Server.MemPool.Sizes.{fit_block_size_lem}
use order_sync.Server.MemPool.Reuse.{allocate-recycle}
use order_sync.Server.Timers.{Timer, TimerList, TimerUnit, check_expired, expire_micro_seconds}
use order_sync.Server.Timers
use order_sync.Server.Timers.Ordered.{IsQuiet}
use order_sync.Server.Timers.Expiry.{
  Event, list_made, attached, checked, after_all, over, made, attaches, checks, check_expired_lem,
}
use order_sync.Server.Timers.Waiting.{expire_micro_seconds_lem}
use order_sync.Server.RawCache.{Cache, new}
use order_sync.Server.RawCache.Append.{without, Outcome}
use order_sync.Server.RawCache.Refine.{Op, push, take_off, run, run_list, run-Keeps}

-- New blocks lie one behind the other, and hold zeros.
abbrev place : ℕ → ℕ
place n = 1024 * (n + 1)

abbrev zeroed : ℕ → ℕ → List ℕ
zeroed at size = replicate size 0

abbrev cache_ops : List Op
cache_ops = push (1 ∷ 2 ∷ 3 ∷ []) ∷ take_off 2 ∷ push (4 ∷ 5 ∷ 6 ∷ []) ∷ []

run-Keeps_example :
    Outcome place (run place zeroed cache_ops new MemPool.new) (run_list cache_ops [])
run-Keeps_example =
    run-Keeps place zeroed cache_ops new MemPool.new [] (λ p s. length-replicate {A = ℕ} s 0)
      (without refl refl) (omega arith)

abbrev small_cache : Cache
small_cache = record {
  mem = some (64, 1 ∷ 2 ∷ 3 ∷ []);
  block_size = 3;
  data_head = 1;
  data_len = 2;
}

abbrev timer_1 : Timer
timer_1 = record { number = 1; objexp = 0 }

abbrev history : List Event
history = list_made 60 ∷ attached 5 60 timer_1 ∷ checked 7 ∷ []

check_expired_lem_example :
    (due : List Timer) × ((check_expired 9 60000005 (after_all history Timers.new)).0
      ≡ (after_all history Timers.new).pending ++ due)
    × All (λ t. t.objexp ≤ 60000005) due
    × All (IsQuiet 60000005) (check_expired 9 60000005 (after_all history Timers.new)).1.lists
    × ((check_expired 9 60000005 (after_all history Timers.new)).1.pending ≡ [])
check_expired_lem_example =
    check_expired_lem 9 60000005 history
      (made 0 60000005 60 _ (omega arith) (
        attaches 0 60000005 5 60 timer_1 _ (omega arith) (omega arith)
          (checks 5 60000005 7 _ (omega arith) (omega arith) (over 7 60000005 (omega arith)))))
      (omega arith)

abbrev one_timer : TimerUnit
one_timer = record {
  pending = [];
  lists = record { tlist = record { number = 1; objexp = 9000 } ∷ []; timeout = 60 } ∷ [];
}

expire_micro_seconds_lem_example :
    (expire_micro_seconds 4000 10 one_timer ≤ 10)
    × All
        (λ l. All (λ t. expire_micro_seconds 4000 10 one_timer * 1000 ≤ t.objexp - 4000) l.tlist)
        one_timer.lists
expire_micro_seconds_lem_example =
    expire_micro_seconds_lem 4000 10 one_timer
      (record { sorted = (tt, tt); bounded = (omega arith, tt); positive = omega arith }, tt)

-- "a)b)" with the number 42.
repair_sql_lem_example :
    repair_sql (0x61 ∷ 0x29 ∷ 0x62 ∷ 0x29 ∷ []) 42
    ≡ (true, (0x61 ∷ []) ++ (column_text ++ ((0x62 ∷ []) ++ (value_text 42 ++ []))))
repair_sql_lem_example =
    repair_sql_lem (0x61 ∷ []) (0x62 ∷ []) [] 42 (λ e. omega (arith, e), tt)
      (λ e. omega (arith, e), tt)

fit_block_size_lem_example :
    (k : ℕ) × (fit_block_size 5000 ≡ 1024 * 2 ^ k)
    × (5000 < fit_block_size 5000)
    × ((fit_block_size 5000 ≡ 1024) ⊎ (fit_block_size 5000 ≤ 2 * 5000))
fit_block_size_lem_example = fit_block_size_lem 5000 (omega arith)

abbrev two_blocks : MemPool
two_blocks = record {
  free = (1024, 7 ∷ []) ∷ [];
  stub = (1024, 7 ∷ 8 ∷ []) ∷ [];
  allocated_size = 2048;
  water_mark = 1073741824;
  made = 2;
}

abbrev addresses : ℕ → ℕ
addresses n = 7 + n

allocate-recycle_example :
    (m' : MemPool) × (m'' : MemPool) × (recycle 8 (fit_block_size 5) two_blocks ≡ some (true, m'))
    × (allocate addresses 5 m' ≡ some (some (8, fit_block_size 5), m''))
    × (MemPool.find (fit_block_size 5) m''.free ≡ some (7 ∷ []))
unfolding fit_block_size fit_loop MemPool.find MemPool.mem MemPool.release_count
allocate-recycle_example =
    allocate-recycle addresses 8 5 (7 ∷ 8 ∷ []) (7 ∷ []) two_blocks refl refl refl refl
